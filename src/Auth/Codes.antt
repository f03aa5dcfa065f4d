-- ===== src/Auth/Codes.antt =====
-- The emailed codes of AuthService: issueEmailToken, redeemCode, and the flows that stand on them
-- (verifyEmailCode, resendVerification, forgotPassword, checkResetCode, resetPassword).
use itc_sharing_backend.Base.{
  ℕ, ◌+◌, ◌*◌, Bool, false, not, ◌&&◌, String, Option, none, some, ◌∷◌, ◌==◌, leb, Orm, M, pure,
  get, guard, expect, modify, halt_if, Failure, bad_request, ◌>>=◌, ◌>>◌, same_text, trim,
  six_digits, is_empty, any, if◌then◌else◌, internal,
}
use itc_sharing_backend.Auth.Types.{
  Auth, User, EmailToken, Purpose, verify, reset, Platform, Draw, same_purpose, is_none, is_banned,
  put_users, put_email_tokens, put_refresh_tokens, RefreshToken,
}
use itc_sharing_backend.Auth.Sessions.{create_refresh_token}

abbrev pub token_ttl_ms : Purpose → ℕ
token_ttl_ms verify = 3 * 60 * 1000
token_ttl_ms reset = 3 * 60 * 1000

abbrev pub max_code_attempts : ℕ
max_code_attempts = 5

abbrev pub code_ttl_seconds : ℕ
code_ttl_seconds = 180

abbrev pub generic : Failure
generic = bad_request "That code is not valid. Check it, or ask for a new one."

abbrev pub is_live : ℕ → Purpose → EmailToken → Bool
is_live user_id purpose t =
    t.user_id == user_id && same_purpose t.purpose purpose && is_none t.consumed_at

abbrev pub is_unspent : ℕ → EmailToken → Bool
is_unspent id t = t.id == id && is_none t.consumed_at

abbrev pub spend : ℕ → EmailToken → EmailToken
spend now t = record t { consumed_at = some now }

abbrev pub count_attempt : EmailToken → EmailToken
count_attempt t = record t { attempts = t.attempts + 1 }

abbrev pub has_password : User → Bool
has_password u = elim (u.password_hash) [ none ↦ false | some h ↦ not (is_empty h) ]

abbrev pub is_verified : User → Bool
is_verified u = not (is_none u.email_verified_at)

abbrev pub never : User → Bool
never u = false

-- `save`, under the unique constraint on `token_hash`.
unfoldable pub insert_email_token : EmailToken → M Auth (Unit {0})
insert_email_token t = do
  s ← get
  guard (not (any (λ (q : EmailToken). same_text q.token_hash t.token_hash) s.email_tokens))
      (internal "duplicate key")
  modify (λ d. put_email_tokens (t ∷ d.email_tokens) d)

module _ (db : Orm) (p : Platform) where
  unfoldable pub find_by_email : String → Auth → Option User
  find_by_email email s =
      db.find_one (λ (u : User). same_text (p.sql_lower u.email) (p.to_lower (trim email))) s.users

  -- Spend what is live, store the new code's hash, and mail the code.
  unfoldable pub issue_email_token : Draw → User → Purpose → M Auth (Unit {0})
  issue_email_token draw user purpose = do
    modify (λ d.
        put_email_tokens (db.update (is_live user.id purpose) (spend draw.now) d.email_tokens) d)
    insert_email_token (record {
      id = draw.row_id;
      user_id = user.id;
      purpose = purpose;
      token_hash = p.bcrypt_hash draw.salt (six_digits draw.code);
      attempts = 0;
      expires_at = draw.now + token_ttl_ms purpose;
      consumed_at = none;
    })
    modify (λ d. record d {
      mails = record { purpose = purpose; to = user.email; code = six_digits draw.code } ∷ d.mails;
    })

  abbrev pub spend_row : ℕ → ℕ → Auth → Auth
  spend_row now id d =
      put_email_tokens (db.update (λ (t : EmailToken). t.id == id) (spend now) d.email_tokens) d

  -- The checks of `redeemCode`, up to the comparison.
  unfoldable pub check_code :
      Draw → String → String → Purpose → (User → Bool) → M Auth (User × EmailToken)
  check_code draw email code purpose reject = do
    s ← get
    user ← expect (find_by_email email s) generic
    guard (not (reject user)) generic
    guard (not (is_banned db user.id s)) generic
    row ← expect (db.find_one (is_live user.id purpose) s.email_tokens) generic
    halt_if (leb row.expires_at draw.now) (spend_row draw.now row.id)
        (bad_request "That code has expired. Ask for a new one.")
    halt_if (leb max_code_attempts row.attempts) (spend_row draw.now row.id)
        (bad_request "Too many incorrect codes. Ask for a new one.")
    halt_if (not (p.bcrypt_compare code row.token_hash))
        (λ d.
          put_email_tokens
            (db.update (λ (t : EmailToken). t.id == row.id) count_attempt d.email_tokens) d)
        generic
    pure (user, row)

  -- The conditional update, which decides who spends the code.
  unfoldable pub claim_code : ℕ → ℕ → M Auth (Unit {0})
  claim_code now id = do
    s ← get
    modify (λ d. put_email_tokens (db.update (is_unspent id) (spend now) d.email_tokens) d)
    guard (db.count_by (is_unspent id) s.email_tokens == 1) generic

  unfoldable pub redeem_code : Draw → String → String → Purpose → (User → Bool) → M Auth User
  redeem_code draw email code purpose reject = do
    found ← check_code draw email code purpose reject
    claim_code draw.now (found.1).id
    pure found.0

  -- `redeemCode` with `consume` false.
  unfoldable pub check_reset_code : Draw → String → String → M Auth String
  check_reset_code draw email code = do
    found ← check_code draw email code reset never
    pure "Code accepted."

  unfoldable pub verify_email_code : Draw → String → String → M Auth (User × String × String)
  verify_email_code draw email code = do
    user ← redeem_code draw email code verify is_verified
    modify (λ d.
        put_users
          (db.update (λ (u : User). u.id == user.id && is_none u.email_verified_at)
            (λ u. record u { email_verified_at = some draw.now }) d.users)
          d)
    token ← create_refresh_token db p draw user.id draw.family
    pure (
      record user { email_verified_at = some draw.now },
      p.sign_access user.id user.email draw.now,
      token,
    )

  -- The conditional send of `resendVerification` and `forgotPassword`.
  unfoldable pub issue_if : Draw → Purpose → (User → Bool) → Option User → M Auth (Unit {0})
  issue_if draw purpose test none = pure tt
  issue_if draw purpose test (some user) =
      if test user then issue_email_token draw user purpose else pure tt

  unfoldable pub resend_verification : Draw → String → M Auth (String × ℕ)
  resend_verification draw email = do
    s ← get
    issue_if draw verify (λ u. not (is_verified u) && not (is_banned db u.id s))
        (find_by_email email s)
    pure ("If that address needs confirming, a new code is on its way to it.", code_ttl_seconds)

  unfoldable pub forgot_password : Draw → String → M Auth (String × ℕ)
  forgot_password draw email = do
    s ← get
    issue_if draw reset (λ u. has_password u && is_verified u && not (is_banned db u.id s))
        (find_by_email email s)
    pure ("If that address has an account, a reset code is on its way to it.", code_ttl_seconds)

  abbrev pub set_password : ℕ → String → User → User
  set_password now hash u = record u { password_hash = some hash; email_verified_at = some now }

  unfoldable pub reset_password : Draw → String → String → String → M Auth String
  reset_password draw email code password = do
    user ← redeem_code draw email code reset never
    modify (λ d.
        put_users
          (db.update (λ (u : User). u.id == user.id)
            (set_password draw.now (p.bcrypt_hash draw.salt password)) d.users)
          d)
    modify (λ d.
        put_refresh_tokens (db.delete (λ (r : RefreshToken). r.user_id == user.id) d.refresh_tokens)
          d)
    pure "Password changed. Sign in with your new password."
