-- ===== src/Auth/Types.antt =====
-- The rows that AuthService reads and writes (users/entities/user.entity.ts, user-ban.entity.ts and
-- auth/entities), with BanLookupService. What the service takes from bcrypt, @nestjs/jwt and
-- node's crypto is the record `Platform`; the clock and what was drawn at random are `Draw`.
use itc_sharing_backend.Base.{
  ℕ, ◌≡◌, Bool, true, false, ◌&&◌, String, Option, none, some, List, ◌==◌, ltb, Orm,
}

pub data Purpose : Type 0 where
  verify reset : Purpose

abbrev pub same_purpose : Purpose → Purpose → Bool
same_purpose verify verify = true
same_purpose reset reset = true
same_purpose _ _ = false

abbrev pub is_none : {A : Type 0} → Option A → Bool
is_none none = true
is_none (some a) = false

pub record User : Type 0 where
  pub id : ℕ
  pub first_name : String
  pub last_name : String
  pub email : String
  pub password_hash : Option String
  pub google_id : Option String
  pub email_verified_at : Option ℕ

pub record EmailToken : Type 0 where
  pub id : ℕ
  pub user_id : ℕ
  pub purpose : Purpose
  pub token_hash : String
  pub attempts : ℕ
  pub expires_at : ℕ
  pub consumed_at : Option ℕ

pub record RefreshToken : Type 0 where
  pub id : ℕ
  pub user_id : ℕ
  pub token_hash : String
  pub family_id : ℕ
  pub consumed_at : Option ℕ
  pub expires_at : ℕ

pub record UserBan : Type 0 where
  pub user_id : ℕ
  pub reason : Option String
  pub lifted_at : Option ℕ

-- A code that went out by mail, with the purpose that chose the template.
pub record Mail : Type 0 where
  pub purpose : Purpose
  pub to : String
  pub code : String

pub record Auth : Type 0 where
  pub users : List User
  pub bans : List UserBan
  pub email_tokens : List EmailToken
  pub refresh_tokens : List RefreshToken
  pub mails : List Mail

abbrev pub put_users : List User → Auth → Auth
put_users us s = record s { users = us }

abbrev pub put_email_tokens : List EmailToken → Auth → Auth
put_email_tokens ts s = record s { email_tokens = ts }

abbrev pub put_refresh_tokens : List RefreshToken → Auth → Auth
put_refresh_tokens ts s = record s { refresh_tokens = ts }

-- The clock of a call, and what it drew at random.
pub record Draw : Type 0 where
  pub now : ℕ
  pub salt : ℕ
  pub code : ℕ
  pub row_id : ℕ
  pub jti : ℕ
  pub session_id : ℕ
  pub family : ℕ

-- Node, bcrypt and the JWT service, with the two secrets and the lifetime of the configuration. A
-- string that verifies and has the SHA-256 of a token signed for a user is a token of that user.
pub record Platform : Type 0 where
  pub to_lower : String → String
  pub sql_lower : String → String
  pub bcrypt_hash : ℕ → String → String
  pub bcrypt_compare : String → String → Bool
  pub bcrypt_compare_hash : (salt : ℕ) (w : String) → bcrypt_compare w (bcrypt_hash salt w) ≡ true
  pub sha256 : String → String
  pub sign_access : ℕ → String → ℕ → String
  pub sign_refresh : ℕ → ℕ → ℕ → String
  pub verify_refresh : ℕ → String → Option ℕ
  pub verify_of_sign :
      (sub jti at now : ℕ) (raw : String) (u : ℕ)
      → sha256 raw ≡ sha256 (sign_refresh sub jti at)
      → verify_refresh now raw ≡ some u
      → u ≡ sub
  pub refresh_ttl_ms : ℕ
  pub reuse_grace_seconds : Option ℕ

-- A ban in force: BanLookupService.activeBan and isBanned.
abbrev pub in_force : ℕ → UserBan → Bool
in_force user_id b = b.user_id == user_id && is_none b.lifted_at

module _ (db : Orm) where
  unfoldable pub active_ban : ℕ → Auth → Option UserBan
  active_ban user_id s = db.find_one (in_force user_id) s.bans

  unfoldable pub is_banned : ℕ → Auth → Bool
  is_banned user_id s = ltb 0 (db.count_by (in_force user_id) s.bans)
