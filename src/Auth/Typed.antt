-- ===== src/Auth/Typed.antt =====
-- Proofs on AuthService.register followed by login with the address as it was typed.
use itc_sharing_backend.Base.{
  ℕ, ◌≤◌, ◌≡◌, refl, ◌∙◌, Bool, false, String, List, ◌∷◌, count, Orm, Outcome, Holds, Holds-imp,
  after, arith, count_pos_at, bind_get, bind_guard, bind_expect, bind_modify, seq_any, seq-Holds,
  modify, pure, fail, same_text,
}
use itc_sharing_backend.Auth.Types.{Auth, User, Purpose, verify, Platform, Draw}
use itc_sharing_backend.Auth.Codes.{issue_email_token, insert_email_token}
use itc_sharing_backend.Auth.Accounts.{
  RegisterDto, address_of, new_user, insert_user, register, login, bad_login,
}

-- The accounts whose stored address is a text, character for character.
abbrev pub is_stored_as : String → User → Bool
is_stored_as email u = same_text u.email email

none_more :
    {A : Type 0} (q : A → Bool) (a : A) (xs : List A)
    → q a ≡ false
    → count q xs ≡ 0
    → count q (a ∷ xs) ≡ 0
none_more q a xs h e = ground (arith, h, e)

module _ (db : Orm) (p : Platform) (draw : Draw) where
  issue-users :
      (user : User) (purpose : Purpose) (s : Auth)
      → (after (issue_email_token db p draw user purpose s)).users ≡ s.users
  unfolding issue_email_token insert_email_token modify
  issue-users user purpose s =
      let Q : Outcome Auth (Unit {0}) → Type 0 = λ o. (after o).users ≡ s.users in
      bind_modify Q _ _ s (
        seq_any Q (λ t. t.users ≡ s.users) _ _ _
          (bind_get Q _ _ (bind_guard Q _ _ _ _ (λ _. refl) (λ _. refl))) (λ e t same. same)
          (λ t same. same))

  register-users :
      (dto : RegisterDto) (s : Auth)
      → Holds (λ _ s'. s'.users ≡ new_user db p draw dto ∷ s.users) (register db p draw dto s)
  unfolding register insert_user modify pure
  register-users dto s =
      let Q : Outcome Auth (String × ℕ) → Type 0 =
        Holds (λ _ s'. s'.users ≡ new_user db p draw dto ∷ s.users) in
      let I : Outcome Auth (Unit {0}) → Type 0 =
        Holds (λ _ s'. s'.users ≡ new_user db p draw dto ∷ s.users) in
      bind_get Q _ s (
        bind_guard Q _ _ _ s (λ _. tt)
          λ _.
            seq-Holds Q (λ _ t. t.users ≡ new_user db p draw dto ∷ s.users) _ _ s
              (bind_get I _ s (bind_guard I _ _ _ s (λ _. tt) (λ _. refl))) (λ e t. tt)
              λ t made.
                seq_any Q (λ t'. t'.users ≡ t.users) _ _ t (issue-users _ verify t)
                  (λ e t' same. tt) λ t' same. same ∙ made)

  login_unknown :
      (email password : String) (s : Auth)
      → count (is_stored_as email) s.users ≡ 0
      → login db p draw email password s ≡ fail bad_login s
  unfolding login
  login_unknown email password s unknown =
      let Q : Outcome Auth (User × String × String) → Type 0 = λ o. o ≡ fail bad_login s in
      bind_get Q _ s (
        bind_expect Q _ _ _ s (λ _. refl)
          λ u there.
            let (o, hit) = db.find_one_some _ s.users u there in
            let seen : 1 ≤ count (is_stored_as email) s.users = count_pos_at _ o hit in
            absurd (omega (arith, unknown)))

module _ (db : Orm) (p : Platform) (draw later : Draw) where
  -- Where trimming and lower case change the typed address, and no account is stored under it as
  -- typed, a registration with it that succeeds leaves a state in which signing in with the same
  -- typed address is refused as a wrong address or password, whatever the password.
  pub login-register :
      (dto : RegisterDto) (password : String) (s : Auth)
      → same_text (address_of db p dto.email) dto.email ≡ false
      → count (is_stored_as dto.email) s.users ≡ 0
      → Holds
          (λ _ s'. login db p later dto.email password s' ≡ fail bad_login s')
          (register db p draw dto s)
  login-register dto password s changed unknown =
      Holds-imp _ _ (register db p draw dto s)
        (λ _ s' made. login_unknown db p later dto.email password s' (
          rw made
            (none_more (is_stored_as dto.email) (new_user db p draw dto) s.users changed unknown)))
        (register-users db p draw dto s)
