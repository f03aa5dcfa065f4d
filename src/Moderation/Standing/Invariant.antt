-- ===== src/Moderation/Standing/Invariant.antt =====
-- What is to hold of accounts, and writes that keep the rest of it.
use itc_sharing_backend.Base.{
  ℕ, ◌≤◌, ◌≡◌, ap, Bool, true, ◌&&◌, String, Option, none, some, List, map, ◌==◌, any, count, patch,
  arith, All, count-patch_same,
}
use itc_sharing_backend.Documents.Audience.{Major}
use itc_sharing_backend.Moderation.Reviewers.{DepartmentModerator, same_assignment}
use itc_sharing_backend.Moderation.Accounts.{
  is_admin, Member, Ban, Session, Accounts, Note, put_members, put_bans, put_moderators, bars,
  offers_year,
}

-- A placement that the department has.
abbrev pub is_placed : (String → String) → List Major → Option ℕ → Option ℕ → Bool
is_placed lower majors none year = true
is_placed lower majors (some m) none = true
is_placed lower majors (some m) (some y) =
    any (λ (r : Major). r.id == m && offers_year lower r.acronym y) majors

-- There is an administrator; identifiers of users are unique; a user has one ban in force at most, and
-- one assignment to a department at most; and every placement is one that its department has.
pub record Sound (lower : String → String) (s : Accounts) : Type 0 where
  pub led : 1 ≤ count (λ (u : Member). is_admin u.role) s.users
  pub unique : (x : ℕ) → count (λ (u : Member). u.id == x) s.users ≤ 1
  pub barred : (x : ℕ) → count (bars x) s.bans ≤ 1
  pub appointed : (x m : ℕ) → count (same_assignment x m) s.moderators ≤ 1
  pub placed : All (λ (u : Member). is_placed lower s.majors u.major_id u.year_level ≡ true) s.users

module _ (lower : String → String) where
  -- A write to the users that keeps what the invariant says of them.
  pub with_users :
      (s : Accounts) (us : List Member)
      → Sound lower s
      → 1 ≤ count (λ (u : Member). is_admin u.role) us
      → ((x : ℕ) → count (λ (u : Member). u.id == x) us ≤ 1)
      → All (λ (u : Member). is_placed lower s.majors u.major_id u.year_level ≡ true) us
      → Sound lower (put_members us s)
  with_users s us sound led unique placed = record {
    led = led;
    unique = unique;
    barred = sound.barred;
    appointed = sound.appointed;
    placed = placed;
  }

  -- Notes and sessions are of no account.
  pub aside :
      (s : Accounts) (ns : List Note) (ts : List Session)
      → Sound lower s
      → Sound lower (record s { notes = ns; sessions = ts })
  aside s ns ts sound = record {
    led = sound.led;
    unique = sound.unique;
    barred = sound.barred;
    appointed = sound.appointed;
    placed = sound.placed;
  }

  pub with_bans :
      (s : Accounts) (bs : List Ban)
      → Sound lower s
      → ((x : ℕ) → count (bars x) bs ≤ 1)
      → Sound lower (put_bans bs s)
  with_bans s bs sound barred = record {
    led = sound.led;
    unique = sound.unique;
    barred = barred;
    appointed = sound.appointed;
    placed = sound.placed;
  }

  pub with_moderators :
      (s : Accounts) (ms : List DepartmentModerator)
      → Sound lower s
      → ((x m : ℕ) → count (same_assignment x m) ms ≤ 1)
      → Sound lower (put_moderators ms s)
  with_moderators s ms sound appointed = record {
    led = sound.led;
    unique = sound.unique;
    barred = sound.barred;
    appointed = appointed;
    placed = sound.placed;
  }

  pub same_ids :
      (t : ℕ) (f : Member → Member) (s : Accounts)
      → ((u : Member) → (f u).id ≡ u.id)
      → Sound lower s
      → (x : ℕ)
      → count (λ (u : Member). u.id == x) (map (patch (λ (u : Member). u.id == t) f) s.users) ≤ 1
  same_ids t f s same sound x = omega (
    arith,
    sound.unique x,
    count-patch_same (λ (u : Member). u.id == x) (λ (u : Member). u.id == t) f s.users
        (λ u h. ap (λ n. n == x) (same u)),
  )
