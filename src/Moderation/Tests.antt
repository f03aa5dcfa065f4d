-- ===== src/Moderation/Tests.antt =====
-- Accounts to run on, and the theorem at a history that starts from them.
use itc_sharing_backend.Base.{
  ◌≡◌, refl, true, none, some, List, [], ◌∷◌, arith, ◌>>=◌, ◌>>◌, get, modify, guard, expect, trim,
}
use itc_sharing_backend.Samples.{list_orm}
use itc_sharing_backend.Users.Promotion.{year_levels_for_major, is_foundation_major}
use itc_sharing_backend.Moderation.Reviewers.{assign, unassign_all}
use itc_sharing_backend.Moderation.Accounts.{
  plain, admin, is_admin, Accounts, AccountCall, set_role, ban, unban, appoint, set_user_role,
  ban_user, unban_user, account_step, account_run,
}
use itc_sharing_backend.Moderation.Standing.Invariant.{Sound, is_placed}
use itc_sharing_backend.Moderation.Standing.{account_run-Sound}

abbrev office : Accounts
office = record {
  users =
      record {
        id = 1;
        role = admin;
        major_id = none;
        year_level = none;
        promoted_rollover_at = none;
      }
      ∷ record {
        id = 2;
        role = plain;
        major_id = some 3;
        year_level = some 4;
        promoted_rollover_at = none;
      }
      ∷ [];
  majors = record { id = 3; acronym = "gic" } ∷ [];
  bans = [];
  sessions = record { id = 5; user_id = 2 } ∷ [];
  moderators = [];
  notes = [];
}

has_fourth : is_placed (λ s. s) office.majors (some 3) (some 4) ≡ true
unfolding year_levels_for_major is_foundation_major
has_fourth = refl

office-Sound : Sound (λ s. s) office
office-Sound = record {
  led = unfold is_admin in omega arith;
  unique = λ x. ground arith;
  barred = λ x. omega arith;
  appointed = λ x m. omega arith;
  placed = (refl, (has_fourth, tt));
}

abbrev orders : List AccountCall
orders =
    appoint 2 3
    ∷ ban 10 2 1 (some "spam")
    ∷ ban 11 2 1 none
    ∷ set_role 1 plain 1
    ∷ unban 12 2 1
    ∷ []

account_run-Sound_example : Sound (λ s. s) (account_run list_orm (λ s. s) orders office)
account_run-Sound_example = account_run-Sound list_orm (λ s. s) orders office office-Sound

-- Both bans but the first are refused, and the assignment went with the first.
banned_once :
    (account_run list_orm (λ s. s) orders office).bans
    ≡ record {
      user_id = 2;
      reason = some "spam";
      banned_by = some 1;
      banned_at = 10;
      lifted_at = some 12;
      lifted_by = some 1;
    }
      ∷ []
unfolding account_run account_step set_user_role ban_user unban_user assign unassign_all is_admin
    ◌>>=◌ ◌>>◌ get modify guard expect trim
banned_once = refl
