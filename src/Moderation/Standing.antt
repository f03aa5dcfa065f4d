-- ===== src/Moderation/Standing.antt =====
-- Proofs on histories of the calls of an administrator on accounts.
pub mod Invariant
pub mod Roles
pub mod Bans
pub mod Placements
use itc_sharing_backend.Base.{
  any_at, ℕ, ◌+◌, ◌≤◌, ◌≡◌, refl, sym, subst, ap, Bool, true, false, not, ◌&&◌, String, Option,
  none, some, List, [], ◌∷◌, map, ◌==◌, ltb, leb, any, count, patch, arith, if◌then◌else◌,
  Bool-cases, inl, inr, ◌⊎◌, Outcome, after, Occurs, All, All-map-patch, Orm, bind_get, bind_guard,
  bind_expect, bind_modify, modify, count-patch_same, count-patch-le, count-keep-le, count_none_of,
  count-le-count, any-eq-count,
}
use itc_sharing_backend.Documents.Audience.{Major}
use itc_sharing_backend.Moderation.Reviewers.{
  DepartmentModerator, assign, unassign, unassign_all, same_assignment,
}
use itc_sharing_backend.Moderation.Accounts.{
  Role, plain, admin, is_admin, Member, Ban, Session, Accounts, Note, put_members, put_bans,
  kept_reason, put_moderators, bars, lift, with_role, placed_at, offers_year, set_user_role,
  ban_user, unban_user, set_user_placement, AccountCall, set_role, ban, unban, place, appoint,
  dismiss, account_step, account_run,
}
use itc_sharing_backend.Moderation.Standing.Invariant.{
  is_placed, Sound, with_users, aside, with_bans, with_moderators, same_ids,
}
use itc_sharing_backend.Moderation.Standing.Roles.{set_user_role-Sound}
use itc_sharing_backend.Moderation.Standing.Bans.{ban_user-Sound, unban_user-Sound}
use itc_sharing_backend.Moderation.Standing.Placements.{set_user_placement-Sound, assign_unique}

module _ (db : Orm) (lower : String → String) where
  account_step-Sound :
      (c : AccountCall) (s : Accounts) → Sound lower s → Sound lower (account_step db lower c s)
  unfolding account_step unassign
  account_step-Sound (set_role t role actor) s sound =
      set_user_role-Sound db lower t role actor s sound
  account_step-Sound (ban now t actor reason) s sound =
      ban_user-Sound db lower now t actor reason s sound
  account_step-Sound (unban now t actor) s sound = unban_user-Sound db lower now t actor s sound
  account_step-Sound (place rollover t major year) s sound =
      set_user_placement-Sound db lower rollover t major year s sound
  account_step-Sound (appoint u m) s sound =
      with_moderators lower s _ sound (assign_unique db lower u m s sound)
  account_step-Sound (dismiss u m) s sound = with_moderators lower s _ sound (λ x y.
      subst (λ ms. count (same_assignment x y) ms ≤ 1) (sym (db.delete_eq _ s.moderators))
        (omega (
          arith,
          sound.appointed x y,
          count-keep-le (same_assignment x y) (λ r. not (same_assignment u m r)) s.moderators,
        )))

  -- From sound accounts, any history of role changes, bans, their lifting, placements and assignments
  -- keeps them sound: identifiers of users are unique, there is an administrator, no user has two bans in force, no moderator is assigned twice to
  -- a department, and each placement has a year of its department.
  pub account_run-Sound :
      (cs : List AccountCall) (s : Accounts)
      → Sound lower s
      → Sound lower (account_run db lower cs s)
  unfolding account_run
  account_run-Sound [] s sound = sound
  account_run-Sound (c ∷ cs) s sound =
      account_run-Sound cs (account_step db lower c s) (account_step-Sound c s sound)
