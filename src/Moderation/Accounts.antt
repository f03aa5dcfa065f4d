-- ===== src/Moderation/Accounts.antt =====
-- AdminService on accounts: setUserRole, banUser, unbanUser and setUserPlacement, with the assignment
-- of moderators.
use itc_sharing_backend.Base.{
  ℕ, Bool, true, false, not, ◌&&◌, String, Option, none, some, List, [], ◌∷◌, ◌==◌, ltb, leb, any,
  if◌then◌else◌, is_empty, trim, M, get, modify, guard, expect, bad_request, not_found, Orm, ◌>>=◌,
  ◌>>◌, after,
}
use itc_sharing_backend.Documents.Audience.{Major, is_set}
use itc_sharing_backend.Users.Promotion.{year_levels_for_major}
use itc_sharing_backend.Moderation.Reviewers.{DepartmentModerator, assign, unassign, unassign_all}

-- `users.role`
pub data Role : Type 0 where
  plain admin : Role

unfoldable pub is_admin : Role → Bool
is_admin admin = true
is_admin plain = false

-- The columns of `users` that an administrator writes.
pub record Member : Type 0 where
  pub id : ℕ
  pub role : Role
  pub major_id : Option ℕ
  pub year_level : Option ℕ
  pub promoted_rollover_at : Option ℕ

pub record Ban : Type 0 where
  pub user_id : ℕ
  pub reason : Option String
  pub banned_by : Option ℕ
  pub banned_at : ℕ
  pub lifted_at : Option ℕ
  pub lifted_by : Option ℕ

-- A stored refresh token, by its owner.
pub record Session : Type 0 where
  pub id : ℕ
  pub user_id : ℕ

pub record Note : Type 0 where
  pub user_id : ℕ
  pub kind : String
  pub key : String

pub record Accounts : Type 0 where
  pub users : List Member
  pub majors : List Major
  pub bans : List Ban
  pub sessions : List Session
  pub moderators : List DepartmentModerator
  pub notes : List Note

abbrev pub put_members : List Member → Accounts → Accounts
put_members us s = record s { users = us }

abbrev pub put_bans : List Ban → Accounts → Accounts
put_bans bs s = record s { bans = bs }

abbrev pub put_moderators : List DepartmentModerator → Accounts → Accounts
put_moderators ms s = record s { moderators = ms }

abbrev pub send_note : Note → M Accounts (Unit {0})
send_note n = modify (λ d. record d { notes = n ∷ d.notes })

-- A ban in force, as in BanLookupService.
abbrev pub bars : ℕ → Ban → Bool
bars user_id b = b.user_id == user_id && not (is_set b.lifted_at)

-- `reason?.trim() || null`
abbrev pub kept_reason : Option String → Option String
kept_reason none = none
kept_reason (some r) = if is_empty (trim r) then none else some (trim r)

abbrev pub lift : ℕ → ℕ → Ban → Ban
lift now actor_id b = record b { lifted_at = some now; lifted_by = some actor_id }

abbrev pub with_role : Role → Member → Member
with_role role u = record u { role = role }

abbrev pub placed_at : ℕ → ℕ → Option ℕ → Member → Member
placed_at major_id year_level rollover u = record u {
  major_id = some major_id;
  year_level = some year_level;
  promoted_rollover_at = rollover;
}

abbrev pub offers_year : (String → String) → String → ℕ → Bool
offers_year lower acronym year_level =
    any (λ n. n == year_level) (year_levels_for_major lower acronym)

module _ (db : Orm) (lower : String → String) where
  unfoldable pub set_user_role : ℕ → Role → ℕ → M Accounts (Unit {0})
  set_user_role target_id role actor_id = do
    guard (not (target_id == actor_id && not (is_admin role)))
        (bad_request "You cannot demote yourself")
    s ← get
    target ←
        expect (db.find_one (λ (u : Member). u.id == target_id) s.users)
          (not_found "User not found")
    guard
        (not (
          is_admin target.role
          && not (is_admin role)
          && leb (db.count_by (λ (u : Member). is_admin u.role) s.users) 1))
        (bad_request "The last admin cannot be demoted")
    modify (λ d.
        put_members (db.update (λ (u : Member). u.id == target_id) (with_role role) d.users) d)
    send_note (record {
      user_id = target_id;
      kind = if is_admin role then "role_promoted" else "role_changed";
      key = if is_admin role then "roleAdminGranted" else "roleAdminRemoved";
    })

  unfoldable pub ban_user : ℕ → ℕ → ℕ → Option String → M Accounts (Unit {0})
  ban_user now target_id actor_id reason = do
    guard (not (target_id == actor_id)) (bad_request "You cannot ban yourself")
    s ← get
    target ←
        expect (db.find_one (λ (u : Member). u.id == target_id) s.users)
          (not_found "User not found")
    guard (not (is_admin target.role)) (bad_request "Demote this admin before banning")
    guard (not (ltb 0 (db.count_by (bars target_id) s.bans)))
        (bad_request "This account is already banned")
    modify (λ d.
        put_bans
          (record {
            user_id = target_id;
            reason = kept_reason reason;
            banned_by = some actor_id;
            banned_at = now;
            lifted_at = none;
            lifted_by = none;
          }
            ∷ d.bans)
          d)
    modify (λ d. record d {
      sessions = db.delete (λ (r : Session). r.user_id == target_id) d.sessions;
    })
    modify (λ d. put_moderators (unassign_all db target_id d.moderators) d)

  unfoldable pub unban_user : ℕ → ℕ → ℕ → M Accounts (Unit {0})
  unban_user now target_id actor_id = do
    s ← get
    target ←
        expect (db.find_one (λ (u : Member). u.id == target_id) s.users)
          (not_found "User not found")
    modify (λ d. put_bans (db.update (bars target_id) (lift now actor_id) d.bans) d)
    send_note (record { user_id = target_id; kind = "account_unbanned"; key = "accountReinstated" })

  -- `rollover` is the time of the rollover in the settings, if one is set.
  unfoldable pub set_user_placement : Option ℕ → ℕ → ℕ → ℕ → M Accounts (Unit {0})
  set_user_placement rollover target_id major_id year_level = do
    s ← get
    target ←
        expect (db.find_one (λ (u : Member). u.id == target_id) s.users)
          (not_found "User not found")
    major ←
        expect (db.find_one (λ (m : Major). m.id == major_id) s.majors)
          (bad_request "Unknown department")
    guard (offers_year lower major.acronym year_level)
        (bad_request "The department does not have this year")
    modify (λ d.
        put_members
          (db.update (λ (u : Member). u.id == target_id) (placed_at major_id year_level rollover)
            d.users)
          d)
    send_note (record { user_id = target_id; kind = "placement_changed"; key = "placementChanged" })

pub data AccountCall : Type 0 where
  set_role : (target_id : ℕ) (role : Role) (actor_id : ℕ) → AccountCall
  ban : (now target_id actor_id : ℕ) (reason : Option String) → AccountCall
  unban : (now target_id actor_id : ℕ) → AccountCall
  place : (rollover : Option ℕ) (target_id major_id year_level : ℕ) → AccountCall
  appoint : (user_id major_id : ℕ) → AccountCall
  dismiss : (user_id major_id : ℕ) → AccountCall

module _ (db : Orm) (lower : String → String) where
  unfoldable pub account_step : AccountCall → Accounts → Accounts
  account_step (set_role t role actor) s = after (set_user_role db lower t role actor s)
  account_step (ban now t actor reason) s = after (ban_user db lower now t actor reason s)
  account_step (unban now t actor) s = after (unban_user db lower now t actor s)
  account_step (place rollover t major year) s =
      after (set_user_placement db lower rollover t major year s)
  account_step (appoint u major) s = put_moderators (assign u major s.moderators) s
  account_step (dismiss u major) s = put_moderators (unassign db u major s.moderators) s

  unfoldable pub account_run : List AccountCall → Accounts → Accounts
  account_run [] s = s
  account_run (c ∷ cs) s = account_run cs (account_step c s)
