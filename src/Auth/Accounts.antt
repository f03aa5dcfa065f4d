-- ===== src/Auth/Accounts.antt =====
-- AuthService.register, login and completeGoogleLogin. What Google says of a code that came back
-- from its redirect is an argument.
use itc_sharing_backend.Base.{
  ℕ, Bool, false, not, ◌&&◌, String, Option, none, some, [], ◌∷◌, ◌==◌, any, Orm, M, pure, get,
  guard, expect, modify, throw, Failure, bad_request, internal, unauthorized, forbidden, ◌>>=◌,
  ◌>>◌, same_text, trim, is_empty, if◌then◌else◌, joined,
}
use Prim.Native.Char.{code}
use itc_sharing_backend.Auth.Types.{
  Auth, User, UserBan, verify, Platform, Draw, is_none, active_ban, put_users,
}
use itc_sharing_backend.Auth.Sessions.{create_refresh_token}
use itc_sharing_backend.Auth.Codes.{issue_email_token, code_ttl_seconds, is_verified}

pub record RegisterDto : Type 0 where
  pub first_name : String
  pub last_name : String
  pub email : String
  pub password : String

-- What the verified identity token says.
pub record GooglePayload : Type 0 where
  pub sub : String
  pub email : Option String
  pub email_verified : Bool
  pub given_name : String
  pub family_name : String
  pub name : Option String

-- The steps of the exchange that can fail.
pub data GoogleAnswer : Type 0 where
  rejected no_token unverifiable : GoogleAnswer
  identity : GooglePayload → GoogleAnswer

abbrev pub same_google : String → User → Bool
same_google sub u = elim (u.google_id) [ none ↦ false | some g ↦ same_text g sub ]

-- `??`, `||`: the first that says something.
abbrev pub or_else : String → String → String
or_else a b = if is_empty a then b else a

-- The first word of a name, and the rest of it: `split(' ')` and `join(' ')`.
unfoldable pub before_space : String → String
before_space String.[] = ""
before_space (String.◌∷◌ c s) =
    let rest = before_space s in if code c == 32 then "" else String.◌∷◌ c rest

unfoldable pub after_space : String → String
after_space String.[] = ""
after_space (String.◌∷◌ c s) = let rest = after_space s in if code c == 32 then s else rest

-- `payload.name ?? email`
abbrev pub full_name : GooglePayload → String → String
full_name g email = elim (g.name) [ none ↦ email | some n ↦ n ]

abbrev pub bad_login : Failure
bad_login = unauthorized "Invalid email or password"

abbrev pub unconfirmed : Failure
unconfirmed =
    forbidden "Confirm your email address before signing in. Check your inbox for the link."

unfoldable pub ban_message : UserBan → String
ban_message b = elim (b.reason) [
  | none ↦ "Your account has been banned"
  | some r ↦
      if is_empty r
      then "Your account has been banned"
      else joined ("Your account has been banned: " ∷ r ∷ [])
]

unfoldable pub guard_ban : Option UserBan → M Auth (Unit {0})
guard_ban none = pure tt
guard_ban (some b) = throw (forbidden (ban_message b))

-- `!user.password_hash`, with the empty string absent too.
abbrev pub stored_password : User → Option String
stored_password u = elim (u.password_hash) [
  | none ↦ none
  | some h ↦ if is_empty h then none else some h
]

unfoldable pub google_payload : GoogleAnswer → M Auth GooglePayload
google_payload rejected = throw (unauthorized "Google rejected that sign-in attempt")
google_payload no_token = throw (unauthorized "Google returned no identity token")
google_payload unverifiable = throw (unauthorized "Could not verify that Google account")
google_payload (identity g) = pure g

module _ (db : Orm) (p : Platform) where
  -- `lower(u.email) = :email`
  abbrev pub has_address : String → User → Bool
  has_address email u = same_text (p.sql_lower u.email) email

  abbrev pub address_of : String → String
  address_of email = p.to_lower (trim email)

  -- `save`, under the unique index on the address.
  unfoldable pub insert_user : Failure → User → M Auth (Unit {0})
  insert_user taken u = do
    s ← get
    guard (not (any (λ (v : User). same_text v.email u.email) s.users)) taken
    modify (λ d. put_users (u ∷ d.users) d)

  abbrev pub new_user : Draw → RegisterDto → User
  new_user draw dto = record {
    id = draw.row_id;
    first_name = trim dto.first_name;
    last_name = trim dto.last_name;
    email = address_of dto.email;
    password_hash = some (p.bcrypt_hash draw.salt dto.password);
    google_id = none;
    email_verified_at = none;
  }

  unfoldable pub register : Draw → RegisterDto → M Auth (String × ℕ)
  register draw dto = do
    s ← get
    guard (is_none (db.find_one (has_address (address_of dto.email)) s.users))
        (bad_request "An account with this email already exists")
    insert_user (bad_request "duplicate key") (new_user draw dto)
    issue_email_token db p draw (new_user draw dto) verify
    pure (
      "Account created. Enter the 6-digit code we emailed you to confirm your address.",
      code_ttl_seconds,
    )

  unfoldable pub login : Draw → String → String → M Auth (User × String × String)
  login draw email password = do
    s ← get
    user ← expect (db.find_one (λ (u : User). same_text u.email email) s.users) bad_login
    hash ←
        expect (stored_password user)
          (unauthorized "This account signs in with Google — use the Google button")
    guard (p.bcrypt_compare password hash) bad_login
    guard (is_verified user) unconfirmed
    guard_ban (active_ban db user.id s)
    token ← create_refresh_token db p draw user.id draw.family
    pure (user, p.sign_access user.id user.email draw.now, token)

  abbrev pub link_google : ℕ → String → User → User
  link_google now sub u = record u {
    google_id = some sub;
    email_verified_at = elim (u.email_verified_at) [ none ↦ some now | some t ↦ some t ];
  }

  abbrev pub google_user : Draw → GooglePayload → String → User
  google_user draw g email = record {
    id = draw.row_id;
    first_name = or_else g.given_name (before_space (full_name g email));
    last_name = or_else g.family_name (or_else (after_space (full_name g email)) "-");
    email = email;
    password_hash = none;
    google_id = some g.sub;
    email_verified_at = some draw.now;
  }

  -- The account that an address belongs to is linked; an address of no account gets one.
  unfoldable pub link_or_create : Draw → GooglePayload → String → Option User → M Auth User
  link_or_create draw g email (some by_email) = do
    modify (λ d.
        put_users
          (db.update (λ (u : User). u.id == by_email.id) (link_google draw.now g.sub) d.users) d)
    pure (link_google draw.now g.sub by_email)
  link_or_create draw g email none = do
    insert_user (internal "duplicate key") (google_user draw g email)
    pure (google_user draw g email)

  unfoldable pub find_or_link : Draw → GooglePayload → String → Auth → M Auth User
  find_or_link draw g email s = elim (db.find_one (same_google g.sub) s.users) [
    | some user ↦ pure user
    | none ↦ link_or_create draw g email (db.find_one (has_address email) s.users)
  ]

  abbrev pub google_address : GooglePayload → Option String
  google_address g = elim (g.email) [
    | none ↦ none
    | some e ↦
        if not (is_empty (address_of e)) && g.email_verified then some (address_of e) else none
  ]

  unfoldable pub complete_google_login : Draw → GoogleAnswer → M Auth String
  complete_google_login draw answer = do
    g ← google_payload answer
    email ← expect (google_address g) (unauthorized "That Google account has no verified email")
    s ← get
    user ← find_or_link draw g email s
    t ← get
    guard_ban (active_ban db user.id t)
    create_refresh_token db p draw user.id draw.family
