-- ===== src/Auth/SignIn.antt =====
-- Proofs on AuthService.login and the token that createRefreshToken stores.
use itc_sharing_backend.Base.{
  ℕ, ◌≡◌, refl, true, String, Option, none, some, ◌∷◌, Occurs, Orm, Outcome, Holds, throw, bind_get,
  bind_guard, bind_expect, bind-Holds, seq-Holds, modify, pure, same_text,
}
use itc_sharing_backend.Auth.Types.{
  Auth, User, UserBan, Platform, Draw, active_ban, put_refresh_tokens,
}
use itc_sharing_backend.Auth.Sessions.{insert_refresh, new_refresh, create_refresh_token}
use itc_sharing_backend.Auth.Codes.{is_verified}
use itc_sharing_backend.Auth.Accounts.{guard_ban, stored_password, login}

guard_ban-Holds :
    (o : Option UserBan) (s : Auth) → Holds (λ _ s'. (s' ≡ s) × (o ≡ none)) (guard_ban o s)
unfolding guard_ban pure throw
guard_ban-Holds none s = (refl, refl)
guard_ban-Holds (some b) s = tt

module _ (db : Orm) (p : Platform) (draw : Draw) (s : Auth) where
  -- The state with one more refresh token.
  abbrev pub with_session : ℕ → ℕ → Auth
  with_session user_id family =
      put_refresh_tokens (new_refresh db p draw user_id family ∷ s.refresh_tokens) s

  create_refresh_token-Holds :
      (user_id family : ℕ)
      → Holds
          (λ token s'.
            (token ≡ p.sign_refresh user_id draw.jti draw.now) × (s' ≡ with_session user_id family))
          (create_refresh_token db p draw user_id family s)
  unfolding create_refresh_token insert_refresh modify pure
  create_refresh_token-Holds user_id family =
      let P : String → Auth → Type 0 = λ token s'.
        (token ≡ p.sign_refresh user_id draw.jti draw.now) × (s' ≡ with_session user_id family) in
      let I : Outcome Auth (Unit {0}) → Type 0 = Holds (λ _ s'. s' ≡ with_session user_id family) in
      seq-Holds (Holds P) (λ _ s'. s' ≡ with_session user_id family) _ _ s
        (bind_get I _ s (bind_guard I _ _ _ s (λ _. tt) (λ _. refl))) (λ e t. tt)
        (λ t same. (refl, same))

  -- Who is signed in, and what that has changed.
  pub record IsSignedIn (email password : String) (out : User × String × String) (s' : Auth)
      : Type 0 where
    pub occurs : Occurs out.0 s.users
    pub address : same_text (out.0).email email ≡ true
    pub hash : String
    pub stored : stored_password (out.0) ≡ some hash
    pub right : p.bcrypt_compare password hash ≡ true
    pub verified : is_verified (out.0) ≡ true
    pub free : active_ban db (out.0).id s ≡ none
    pub session : s' ≡ with_session (out.0).id draw.family

  -- A login that succeeds is of a stored account whose address is the typed one exactly, which
  -- has a password that matches, is verified and is not banned; it adds one refresh token, in a
  -- new family of that account, and changes nothing else.
  pub login-Holds :
      (email password : String)
      → Holds (IsSignedIn email password) (login db p draw email password s)
  unfolding login pure
  login-Holds email password =
      let Q : Outcome Auth (User × String × String) → Type 0 = Holds (IsSignedIn email password) in
      bind_get Q _ s (
        bind_expect Q _ _ _ s (λ _. tt)
          λ user there.
            bind_expect Q _ _ _ s (λ _. tt)
              λ hash stored.
                bind_guard Q _ _ _ s (λ _. tt)
                  λ right.
                    bind_guard Q _ _ _ s (λ _. tt)
                      λ verified.
                        seq-Holds Q _ _ _ s (guard_ban-Holds (active_ban db user.id s) s)
                          (λ e t. tt)
                          λ t (same, free). rw same (
                            bind-Holds Q _ _ _ s (create_refresh_token-Holds user.id draw.family)
                              (λ e t. tt)
                              λ token t (_, made).
                                let (o, hit) = db.find_one_some _ s.users user there in
                                record {
                                  occurs = o;
                                  address = hit;
                                  hash = hash;
                                  stored = stored;
                                  right = right;
                                  verified = verified;
                                  free = free;
                                  session = made;
                                }))
