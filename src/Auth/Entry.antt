-- ===== src/Auth/Entry.antt =====
-- The invariant of codes and sessions, and proofs on it for register, login and
-- completeGoogleLogin.
use itc_sharing_backend.Base.{
  ℕ, ◌≡◌, refl, sym, ◌∙◌, subst, String, Option, none, some, count, Orm, Outcome, after, inl, inr,
  bind_get, bind_guard, bind_expect, bind_modify, bind_any, seq_any, Option-cases, Failure, ◌==◌,
  modify, pure, throw,
}
use itc_sharing_backend.Auth.Types.{
  Auth, User, UserBan, EmailToken, Purpose, verify, Platform, Draw,
}
use itc_sharing_backend.Auth.Sessions.{in_family, create_refresh_token}
use itc_sharing_backend.Auth.Codes.{issue_email_token}
use itc_sharing_backend.Auth.Accounts.{
  RegisterDto, GoogleAnswer, GooglePayload, guard_ban, google_payload, insert_user, register, login,
  link_or_create, same_google, find_or_link, complete_google_login,
}
use itc_sharing_backend.Auth.Owners.{Owned, IsFreshFamily}
use itc_sharing_backend.Auth.Renewal.{sign_in-Safe}
use itc_sharing_backend.Auth.Live.{Codes, IsFreshCode, Kept, issue-Kept}

pub record Sound (p : Platform) (s : Auth) : Type 0 where
  pub owned : Owned p s.refresh_tokens
  pub codes : Codes s.email_tokens

abbrev pub IsFresh : Draw → Auth → Type 0
IsFresh draw s = IsFreshCode draw s × IsFreshFamily draw s

-- A call that touches neither codes nor sessions.
abbrev pub Untouched : Auth → Auth → Type 0
Untouched s s' = (s'.email_tokens ≡ s.email_tokens) × (s'.refresh_tokens ≡ s.refresh_tokens)

guard_ban-after : (b : Option UserBan) (s : Auth) → after (guard_ban b s) ≡ s
unfolding guard_ban pure throw
guard_ban-after none s = refl
guard_ban-after (some b) s = refl

google_payload-after : (a : GoogleAnswer) (s : Auth) → after (google_payload a s) ≡ s
unfolding google_payload pure throw
google_payload-after GoogleAnswer.rejected s = refl
google_payload-after GoogleAnswer.no_token s = refl
google_payload-after GoogleAnswer.unverifiable s = refl
google_payload-after (GoogleAnswer.identity g) s = refl

module _ (db : Orm) (p : Platform) where
  insert_user-Untouched :
      (e : Failure) (u : User) (s : Auth) → Untouched s (after (insert_user db p e u s))
  unfolding insert_user modify
  insert_user-Untouched e u s =
      let Q : Outcome Auth (Unit {0}) → Type 0 = λ o. Untouched s (after o) in
      bind_get Q _ s (bind_guard Q _ _ _ s (λ _. (refl, refl)) (λ _. (refl, refl)))

  link_or_create-Untouched :
      (draw : Draw) (g : GooglePayload) (email : String) (o : Option User) (s : Auth)
      → Untouched s (after (link_or_create db p draw g email o s))
  unfolding link_or_create modify pure
  link_or_create-Untouched draw g email (some u) s =
      let Q : Outcome Auth User → Type 0 = λ o. Untouched s (after o) in
      bind_modify Q _ _ s (refl, refl)
  link_or_create-Untouched draw g email none s =
      let Q : Outcome Auth User → Type 0 = λ o. Untouched s (after o) in
      seq_any Q (Untouched s) _ _ s (insert_user-Untouched _ _ s) (λ e t u. u) (λ t u. u)

  find_or_link-Untouched :
      (draw : Draw) (g : GooglePayload) (email : String) (s : Auth)
      → Untouched s (after (find_or_link db p draw g email s s))
  unfolding find_or_link pure
  find_or_link-Untouched draw g email s =
      elim (Option-cases (db.find_one (same_google g.sub) s.users)) [
        | inl e ↦ rw (find_or_link, e) (link_or_create-Untouched draw g email _ s)
        | inr (u, e) ↦ rw (find_or_link, e) (refl, refl)
      ]

module _ (db : Orm) (p : Platform) (draw : Draw) (s : Auth) (h : Sound p s)
    (fresh : IsFresh draw s) where
  abbrev Good : {A : Type 0} → Outcome Auth A → Type 0
  Good o = Sound p (after o)

  pub of_Kept : {t : Auth} → Kept s t → Sound p t
  of_Kept k = record { owned = subst (Owned p) (sym k.sessions) h.owned; codes = k.codes }

  -- A sign-in from a state that has kept the codes, and the sessions as they were.
  pub signs_in :
      (t : Auth) (user_id : ℕ)
      → Kept s t
      → Sound p (after (create_refresh_token db p draw user_id draw.family t))
  signs_in t user_id k =
      let fresh_there : IsFreshFamily draw t =
        subst (λ rs. count (in_family draw.family) rs ≡ 0) (sym k.sessions) fresh.1 in
      let (o, e) =
        sign_in-Safe p t.email_tokens db draw t user_id
          (subst (Owned p) (sym k.sessions) h.owned, refl) fresh_there in
      record { owned = o; codes = subst Codes (sym e) k.codes }

  pub login-Sound : (email password : String) → Good (login db p draw email password s)
  unfolding login pure
  login-Sound email password =
      let Q : Outcome Auth (User × String × String) → Type 0 = λ o. Good o in
      bind_get Q _ s (
        bind_expect Q _ _ _ s (λ _. h)
          λ user _.
            bind_expect Q _ _ _ s (λ _. h)
              λ hash _.
                bind_guard Q _ _ _ s (λ _. h)
                  λ _.
                    bind_guard Q _ _ _ s (λ _. h)
                      λ _.
                        seq_any Q (λ t. t ≡ s) _ _ s (guard_ban-after _ s) (λ e t same. rw same h)
                          λ t same. rw same (
                            bind_any Q (Sound p) _ _ s
                              (signs_in s user.id (record { codes = h.codes; sessions = refl }))
                              (λ e t k. k) (λ a t k. k)))

  pub of_Untouched : {t : Auth} → Untouched s t → Kept s t
  of_Untouched (codes_same, sessions_same) = record {
    codes = subst Codes (sym codes_same) h.codes;
    sessions = sessions_same;
  }

  pub issues :
      (t : Auth) (user : User) (purpose : Purpose)
      → Untouched s t
      → Sound p (after (issue_email_token db p draw user purpose t))
  issues t user purpose (codes_same, sessions_same) =
      let k = issue-Kept db p draw t user purpose (subst Codes (sym codes_same) h.codes) (
        subst (λ ts. count (λ (r : EmailToken). r.id == draw.row_id) ts ≡ 0) (sym codes_same)
          fresh.0) in
      record { codes = k.codes; owned = subst (Owned p) (sym (k.sessions ∙ sessions_same)) h.owned }

  pub register-Sound : (dto : RegisterDto) → Good (register db p draw dto s)
  unfolding register pure
  register-Sound dto =
      let Q : Outcome Auth (String × ℕ) → Type 0 = λ o. Good o in
      bind_get Q _ s (
        bind_guard Q _ _ _ s (λ _. h)
          λ _.
            seq_any Q (Untouched s) _ _ s (insert_user-Untouched db p _ _ s)
              (λ e t u. of_Kept (of_Untouched u))
              λ t u. seq_any Q (Sound p) _ _ t (issues t _ verify u) (λ e t k. k) (λ t k. k))

  pub google-Sound : (a : GoogleAnswer) → Good (complete_google_login db p draw a s)
  unfolding complete_google_login
  google-Sound a =
      let Q : Outcome Auth String → Type 0 = λ o. Good o in
      bind_any Q (λ t. t ≡ s) _ _ s (google_payload-after a s) (λ e t same. rw same h)
        λ g t same. rw same (
          bind_expect Q _ _ _ s (λ _. h)
            λ email _. bind_get Q _ s (
              bind_any Q (Untouched s) _ _ s (find_or_link-Untouched db p draw g email s)
                (λ e t u. of_Kept (of_Untouched u))
                λ user t u. bind_get Q _ t (
                  seq_any Q (λ t'. t' ≡ t) _ _ t (guard_ban-after _ t)
                    (λ e t' same. rw same (of_Kept (of_Untouched u)))
                    λ t' same. rw same (signs_in t user.id (of_Untouched u)))))
