-- ===== src/Auth/Flows.antt =====
-- Proofs on AuthService.resetPassword, resendVerification and forgotPassword.
use itc_sharing_backend.Base.{
  ℕ, ◌≡◌, refl, sym, ◌∙◌, Bool, false, not, String, Option, none, some, ◌==◌, any, arith, Orm,
  Outcome, done, fail, Bool-cases, inl, inr, bind_get, bind_guard, bind_modify, bind-Holds, Holds,
  seq_any_done, modify, pure, map, patch, keep, same_text, six_digits, any-map_same,
}
use itc_sharing_backend.Auth.Types.{
  Auth, User, EmailToken, RefreshToken, Purpose, verify, reset, Platform, Draw,
}
use itc_sharing_backend.Auth.Codes.{
  is_live, spend, insert_email_token, issue_email_token, issue_if, resend_verification,
  forgot_password, reset_password, set_password, code_ttl_seconds, never,
}
use itc_sharing_backend.Auth.Redeem.{IsRedeemed, redeem_code-Holds}

module _ (db : Orm) (p : Platform) (draw : Draw) (s : Auth) where
  -- What a reset has done: it spent a code of the account that was good, set that account's
  -- password, and removed every refresh token of the account and no other.
  pub record HasReset (email code password : String) (s' : Auth) : Type 0 where
    pub user : User
    pub middle : Auth
    pub redeemed : IsRedeemed db p draw s email code reset never user middle
    pub users :
        s'.users
        ≡ map
            (patch
              (λ (u : User). u.id == user.id)
              (set_password db p draw.now (p.bcrypt_hash draw.salt password)))
            s.users
    pub sessions :
        s'.refresh_tokens ≡ keep (λ (r : RefreshToken). not (r.user_id == user.id)) s.refresh_tokens
    pub codes : s'.email_tokens ≡ middle.email_tokens

  -- A password reset that succeeds has redeemed a reset code of the account, stored the hash of
  -- the new password for it, and deleted the refresh tokens of that account and no others.
  pub reset_password-Holds :
      (email code password : String)
      → Holds
          (λ _ s'. HasReset email code password s')
          (reset_password db p draw email code password s)
  unfolding reset_password modify pure
  reset_password-Holds email code password =
      let Q : Outcome Auth String → Type 0 = Holds (λ _ s'. HasReset email code password s') in
      bind-Holds Q _ _ _ s (redeem_code-Holds db p draw s email code reset never) (λ e t. tt)
        λ user t h. bind_modify Q _ _ t (
          bind_modify Q _ _ _ (record {
            user = user;
            middle = t;
            redeemed = h;
            users = rw (db.update_eq, h.spent) refl;
            sessions = rw (db.delete_eq, h.spent) refl;
            codes = refl;
          }))

  -- No stored code has the hash that the call drew.
  abbrev pub IsUnused : Type 0
  IsUnused =
      any
        (λ (q : EmailToken).
          same_text q.token_hash (p.bcrypt_hash draw.salt (six_digits draw.code)))
        s.email_tokens
      ≡ false

  unused_still :
      IsUnused
      → (q : EmailToken → Bool)
      → any
          (λ (q : EmailToken).
            same_text q.token_hash (p.bcrypt_hash draw.salt (six_digits draw.code)))
          (map (patch q (spend draw.now)) s.email_tokens)
        ≡ false
  unused_still unused q =
      let same_hash : EmailToken → Bool =
        λ r. same_text r.token_hash (p.bcrypt_hash draw.salt (six_digits draw.code)) in
      any-map_same same_hash (patch q (spend draw.now)) s.email_tokens
        (λ r. elim (Bool-cases (q r)) [ inl e ↦ rw e refl | inr e ↦ rw e refl ])
      ∙ unused

  -- A step that ends well.
  abbrev Succeeds : Outcome Auth (Unit {0}) → Type 0
  Succeeds o = (s' : Auth) × (o ≡ done tt s')

  issue-Succeeds :
      IsUnused
      → (user : User) (purpose : Purpose) → Succeeds (issue_email_token db p draw user purpose s)
  unfolding issue_email_token insert_email_token modify
  issue-Succeeds unused user purpose =
      let Q : Outcome Auth (Unit {0}) → Type 0 = Succeeds in
      let still = unused_still unused (is_live user.id purpose) in
      bind_modify Q _ _ s (
        rw (db.update_eq) (
          seq_any_done Q _ _ _
            (bind_get Succeeds _ _ (
              bind_guard Succeeds _ _ _ _ (λ taken. absurd (ground (arith, still)))
                (λ _. (_, refl))))
            (λ t. (_, refl))))

  issue_if-Succeeds :
      IsUnused
      → (purpose : Purpose) (test : User → Bool) (o : Option User)
      → Succeeds (issue_if db p draw purpose test o s)
  unfolding issue_if pure
  issue_if-Succeeds unused purpose test none = (s, refl)
  issue_if-Succeeds unused purpose test (some u) = elim (Bool-cases (test u)) [
    | inl e ↦ rw e (issue-Succeeds unused u purpose)
    | inr e ↦ rw e (s, refl)
  ]

  -- The answer that the caller sees.
  abbrev pub answer : {A : Type 0} → Outcome Auth A → Option A
  answer (done a t) = some a
  answer (fail e t) = none

  -- Where no stored code has the hash that the call drew, the answer to a forgotten password is
  -- the same for any two addresses.
  pub forgot_password_uniform :
      (email other : String)
      → IsUnused
      → answer (forgot_password db p draw email s) ≡ answer (forgot_password db p draw other s)
  unfolding forgot_password pure
  forgot_password_uniform email other unused = forgot email ∙ sym (forgot other)
    where
      forgot :
          (a : String)
          → answer (forgot_password db p draw a s)
            ≡ some (
              "If that address has an account, a reset code is on its way to it.", code_ttl_seconds,
            )
      forgot a =
          let Q : Outcome Auth (String × ℕ) → Type 0 = λ o.
            answer o
            ≡ some (
              "If that address has an account, a reset code is on its way to it.", code_ttl_seconds,
            ) in
          bind_get Q _ s (seq_any_done Q _ _ s (issue_if-Succeeds unused reset _ _) (λ t. refl))

  -- Where no stored code has the hash that the call drew, the answer to a request for a new
  -- verification code is the same for any two addresses.
  pub resend_verification_uniform :
      (email other : String)
      → IsUnused
      → answer (resend_verification db p draw email s)
        ≡ answer (resend_verification db p draw other s)
  unfolding resend_verification pure
  resend_verification_uniform email other unused = resend email ∙ sym (resend other)
    where
      resend :
          (a : String)
          → answer (resend_verification db p draw a s)
            ≡ some (
              "If that address needs confirming, a new code is on its way to it.", code_ttl_seconds,
            )
      resend a =
          let Q : Outcome Auth (String × ℕ) → Type 0 = λ o.
            answer o
            ≡ some (
              "If that address needs confirming, a new code is on its way to it.", code_ttl_seconds,
            ) in
          bind_get Q _ s (seq_any_done Q _ _ s (issue_if-Succeeds unused verify _ _) (λ t. refl))
