-- ===== src/Auth/Upkeep.antt =====
-- Proofs on the invariants of Auth.Entry for the flows of the emailed codes, refresh and
-- logout.
use itc_sharing_backend.Base.{
  ℕ, refl, sym, subst, Bool, not, String, Option, none, some, Orm, Outcome, after, Bool-cases, inl,
  inr, bind_get, bind_modify, bind_any, seq_any, Option-cases, ◌==◌, modify, pure,
}
use itc_sharing_backend.Auth.Types.{
  Auth, User, RefreshToken, Purpose, verify, reset, Platform, Draw,
}
use itc_sharing_backend.Auth.Sessions.{in_family, refresh, forget_family, logout, presented}
use itc_sharing_backend.Auth.Codes.{
  check_reset_code, verify_email_code, issue_if, resend_verification, forgot_password,
  reset_password, is_verified, never,
}
use itc_sharing_backend.Auth.Owners.{Owned, Owned-keep}
use itc_sharing_backend.Auth.Renewal.{refresh-Safe}
use itc_sharing_backend.Auth.Live.{Codes, Kept, check-Kept, redeem-Kept}
use itc_sharing_backend.Auth.Entry.{Sound, IsFresh, of_Kept, issues, signs_in}

module _ (db : Orm) (p : Platform) (draw : Draw) (s : Auth) (h : Sound p s)
    (fresh : IsFresh draw s) where
  abbrev Good : {A : Type 0} → Outcome Auth A → Type 0
  Good o = Sound p (after o)

  pub issue_if-Sound :
      (purpose : Purpose) (test : User → Bool) (o : Option User)
      → Good (issue_if db p draw purpose test o s)
  unfolding issue_if pure
  issue_if-Sound purpose test none = h
  issue_if-Sound purpose test (some u) = elim (Bool-cases (test u)) [
    | inl e ↦ rw e (issues db p draw s h fresh s u purpose (refl, refl))
    | inr e ↦ rw e h
  ]

  pub resend-Sound : (email : String) → Good (resend_verification db p draw email s)
  unfolding resend_verification pure
  resend-Sound email =
      let Q : Outcome Auth (String × ℕ) → Type 0 = λ o. Good o in
      bind_get Q _ s (seq_any Q (Sound p) _ _ s (issue_if-Sound verify _ _) (λ e t k. k) (λ t k. k))

  pub forgot-Sound : (email : String) → Good (forgot_password db p draw email s)
  unfolding forgot_password pure
  forgot-Sound email =
      let Q : Outcome Auth (String × ℕ) → Type 0 = λ o. Good o in
      bind_get Q _ s (seq_any Q (Sound p) _ _ s (issue_if-Sound reset _ _) (λ e t k. k) (λ t k. k))

  pub check-Sound : (email code : String) → Good (check_reset_code db p draw email code s)
  unfolding check_reset_code pure
  check-Sound email code =
      let Q : Outcome Auth String → Type 0 = λ o. Good o in
      bind_any Q (Kept s) _ _ s (check-Kept db p draw s email code reset never h.codes)
        (λ e t k. of_Kept db p draw s h fresh k) (λ a t k. of_Kept db p draw s h fresh k)

  pub verify-Sound : (email code : String) → Good (verify_email_code db p draw email code s)
  unfolding verify_email_code pure
  verify-Sound email code =
      let Q : Outcome Auth (User × String × String) → Type 0 = λ o. Good o in
      bind_any Q (Kept s) _ _ s (redeem-Kept db p draw s email code verify is_verified h.codes)
        (λ e t k. of_Kept db p draw s h fresh k)
        λ user t k. bind_modify Q _ _ t (
          bind_any Q (Sound p) _ _ _
            (signs_in db p draw s h fresh _ user.id
              (record { codes = k.codes; sessions = k.sessions }))
            (λ e t k. k) (λ a t k. k))

  pub reset-Sound :
      (email code password : String) → Good (reset_password db p draw email code password s)
  unfolding reset_password pure modify
  reset-Sound email code password =
      let Q : Outcome Auth String → Type 0 = λ o. Good o in
      bind_any Q (Kept s) _ _ s (redeem-Kept db p draw s email code reset never h.codes)
        (λ e t k. of_Kept db p draw s h fresh k)
        λ user t k. bind_modify Q _ _ t (
          bind_modify Q _ _ _ (record {
            codes = k.codes;
            owned = rw (db.delete_eq) (
                Owned-keep p (λ r. not (r.user_id == user.id))
                  (subst (Owned p) (sym k.sessions) h.owned));
          }))

  pub refresh-Sound : (raw : Option String) → Good (refresh db p draw raw s)
  refresh-Sound raw =
      let (o, e) = refresh-Safe p s.email_tokens db draw s raw (h.owned, refl) in
      record { owned = o; codes = subst Codes (sym e) h.codes }

  pub forget-Sound : (o : Option RefreshToken) → Good (forget_family db p o s)
  unfolding forget_family pure modify
  forget-Sound none = h
  forget-Sound (some r) = record {
    owned = rw (db.delete_eq) (Owned-keep p (λ q. not (in_family r.family_id q)) h.owned);
    codes = h.codes;
  }

  pub logout-Sound : (raw : Option String) → Good (logout db p raw s)
  unfolding logout pure
  logout-Sound raw = elim (Option-cases (presented raw)) [
    | inl e ↦ rw (logout, e) h
    | inr (r, e) ↦ rw (logout, e) (bind_get (λ o. Good o) _ s (forget-Sound _))
  ]
