-- ===== src/Auth/Guessing.antt =====
-- Proofs on the attempt cap of AuthService.redeemCode.
use itc_sharing_backend.Base.{
  ◌+◌, ◌≤◌, ◌<◌, ◌≡◌, refl, sym, ap, subst, Bool, true, false, String, some, List, [], ◌∷◌, ◌==◌,
  count, length, arith, All, Occurs, Orm, Outcome, fail, after, Option-cases, inl, inr, bind_get,
  bind_some, bind_guard, bind_halt, Occurs-unique, Occurs-map, count_pos_at, map, patch,
  bad_request, ==_refl,
}
use itc_sharing_backend.Auth.Types.{
  Auth, User, EmailToken, Purpose, Platform, Draw, is_banned, put_email_tokens,
}
use itc_sharing_backend.Auth.Codes.{
  is_live, count_attempt, find_by_email, check_code, max_code_attempts, generic, spend_row,
}
use itc_sharing_backend.Auth.Live.{Codes, Codes-attempt}

module _ (db : Orm) (p : Platform) (email : String) (purpose : Purpose) (reject : User → Bool) where
  -- An account that may redeem, and its live code.
  pub record IsAsked (user : User) (row : EmailToken) (s : Auth) : Type 0 where
    pub account : find_by_email db p email s ≡ some user
    pub wanted : reject user ≡ false
    pub free : is_banned db user.id s ≡ false
    pub occurs : Occurs row s.email_tokens
    pub live : is_live user.id purpose row ≡ true
    pub codes : Codes s.email_tokens

  unfoldable pub guesses : List (Draw × String) → Auth → Auth
  guesses [] s = s
  guesses ((draw, code) ∷ gs) s =
      guesses gs (after (check_code db p draw email code purpose reject s))

  abbrev miss : EmailToken → Auth → Auth
  miss row s =
      put_email_tokens (db.update (λ (t : EmailToken). t.id == row.id) count_attempt s.email_tokens)
        s

  module _ (user : User) (row : EmailToken) (s : Auth) (h : IsAsked user row s) where
    the_row : db.find_one (is_live user.id purpose) s.email_tokens ≡ some row
    the_row = elim (Option-cases (db.find_one (is_live user.id purpose) s.email_tokens)) [
      | inl e ↦
          let seen : 1 ≤ count (is_live user.id purpose) s.email_tokens =
            count_pos_at _ h.occurs h.live in
          absurd (omega (arith, db.find_one_none _ s.email_tokens e))
      | inr (r, e) ↦
          let (o, hit) = db.find_one_some _ s.email_tokens r e in
          rw (Occurs-unique _ h.occurs o h.live hit (h.codes.single user.id purpose)) e
    ]

    -- The run of `redeemCode` up to its expiry test.
    module _ (draw : Draw) (code : String) (in_time : draw.now < row.expires_at) where
      wrong_guess :
          row.attempts < max_code_attempts
          → p.bcrypt_compare code row.token_hash ≡ false
          → check_code db p draw email code purpose reject s ≡ fail generic (miss row s)
      unfolding check_code
      wrong_guess below wrong =
          let Q : Outcome Auth (User × EmailToken) → Type 0 = λ o. o ≡ fail generic (miss row s) in
          bind_get Q _ s (
            bind_some Q _ _ _ s h.account (
              bind_guard Q _ _ _ s (λ e. absurd (ground (arith, h.wanted)))
                λ _.
                  bind_guard Q _ _ _ s (λ e. absurd (ground (arith, h.free)))
                    λ _. bind_some Q _ _ _ s the_row (
                      bind_halt Q _ _ _ _ s (λ e. absurd (ground arith))
                        λ _.
                          bind_halt Q _ _ _ _ s (λ e. absurd (ground arith))
                            λ _. bind_halt Q _ _ _ _ s (λ _. refl) λ e. absurd (ground arith))))

      burnt_guess :
          max_code_attempts ≤ row.attempts
          → check_code db p draw email code purpose reject s
            ≡ fail
                (bad_request "Too many incorrect codes. Ask for a new one.")
                (spend_row db p draw.now row.id s)
      unfolding check_code
      burnt_guess over =
          let Q : Outcome Auth (User × EmailToken) → Type 0 = λ o.
            o
            ≡ fail (bad_request "Too many incorrect codes. Ask for a new one.")
                (spend_row db p draw.now row.id s) in
          bind_get Q _ s (
            bind_some Q _ _ _ s h.account (
              bind_guard Q _ _ _ s (λ e. absurd (ground (arith, h.wanted)))
                λ _.
                  bind_guard Q _ _ _ s (λ e. absurd (ground (arith, h.free)))
                    λ _. bind_some Q _ _ _ s the_row (
                      bind_halt Q _ _ _ _ s (λ e. absurd (ground arith))
                        λ _. bind_halt Q _ _ _ _ s (λ _. refl) λ e. absurd (ground arith))))

    counted :
        Occurs
          (count_attempt row)
          (map (patch (λ (t : EmailToken). t.id == row.id) count_attempt) s.email_tokens)
    counted =
        let p : EmailToken → Bool = λ t. t.id == row.id in
        let hit : patch p count_attempt row ≡ count_attempt row = rw (==_refl row.id) refl in
        subst (λ r. Occurs r (map (patch p count_attempt) s.email_tokens)) hit
          (Occurs-map (patch p count_attempt) h.occurs)

    still_asked : row.attempts < max_code_attempts → IsAsked user (count_attempt row) (miss row s)
    unfolding find_by_email is_banned
    still_asked below = record {
      account = h.account;
      wanted = h.wanted;
      free = h.free;
      occurs = rw (db.update_eq) counted;
      live = h.live;
      codes = rw (db.update_eq) (Codes-attempt row h.occurs below h.codes);
    }

  -- The codes of a list are wrong ones, each given while the code is alive.
  abbrev pub AllWrong : EmailToken → List (Draw × String) → Type 0
  AllWrong row gs =
      All
        (λ (g : Draw × String).
          ((g.0).now < row.expires_at) × (p.bcrypt_compare g.1 row.token_hash ≡ false))
        gs

  -- Take an account that may redeem and its live code, with a number of attempts counted, and
  -- wrong codes given in time that bring the number to five: the check then refuses every code
  -- given in time, the right one included, with the answer that there were too many, and spends
  -- the row.
  pub guesses-lock :
      (gs : List (Draw × String)) (user : User) (row : EmailToken) (s : Auth)
      → IsAsked user row s
      → AllWrong row gs
      → row.attempts + length gs ≡ max_code_attempts
      → (draw : Draw) (code : String) → draw.now < row.expires_at
      → check_code db p draw email code purpose reject (guesses gs s)
        ≡ fail
            (bad_request "Too many incorrect codes. Ask for a new one.")
            (spend_row db p draw.now row.id (guesses gs s))
  unfolding guesses
  guesses-lock [] user row s h wrong total draw code in_time =
      burnt_guess user row s h draw code in_time (omega arith)
  guesses-lock ((d, c) ∷ gs) user row s h (w, ws) total draw code in_time =
      let below : row.attempts < max_code_attempts = omega arith in
      let missed = wrong_guess user row s h d c w.0 below w.1 in
      let Locked : Auth → Type 0 = λ t.
        check_code db p draw email code purpose reject (guesses gs t)
        ≡ fail (bad_request "Too many incorrect codes. Ask for a new one.")
            (spend_row db p draw.now row.id (guesses gs t)) in
      subst Locked (sym (ap after missed)) (
        guesses-lock gs user (count_attempt row) (miss row s) (still_asked user row s h below) ws
          (omega arith) draw code in_time)
