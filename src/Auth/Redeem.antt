-- ===== src/Auth/Redeem.antt =====
-- Proofs on AuthService.redeemCode: what a redemption stands on.
use itc_sharing_backend.Base.{
  ℕ, ◌<◌, ◌≡◌, refl, sym, Bool, true, false, String, some, count, arith, Occurs, Orm, Outcome,
  bind_get, bind_guard, bind_expect, bind_modify, bind_halt, bind-Holds, seq-Holds, Holds,
  end_guard, ==_iff, modify, pure, map, patch,
}
use itc_sharing_backend.Auth.Types.{
  Auth, User, EmailToken, Purpose, Platform, Draw, is_banned, put_email_tokens,
}
use itc_sharing_backend.Auth.Codes.{
  is_live, is_unspent, spend, find_by_email, check_code, claim_code, redeem_code, max_code_attempts,
}

-- The account and the code that a redemption stands on.
pub record IsAccepted (db : Orm) (p : Platform) (draw : Draw) (email code : String)
    (purpose : Purpose) (reject : User → Bool) (s : Auth) (user : User) (row : EmailToken)
    : Type 0 where
  pub account : find_by_email db p email s ≡ some user
  pub wanted : reject user ≡ false
  pub free : is_banned db user.id s ≡ false
  pub occurs : Occurs row s.email_tokens
  pub live : is_live user.id purpose row ≡ true
  pub in_time : draw.now < row.expires_at
  pub guesses : row.attempts < max_code_attempts
  pub right : p.bcrypt_compare code row.token_hash ≡ true

module _ (db : Orm) (p : Platform) (draw : Draw) (s : Auth) where
  -- What a checked code is, and that the check leaves the state alone when it succeeds.
  abbrev pub IsChecked :
      String → String → Purpose → (User → Bool) → User × EmailToken → Auth → Type 0
  IsChecked email code purpose reject found s' =
      (s' ≡ s) × IsAccepted db p draw email code purpose reject s found.0 found.1

  pub check_code-Holds :
      (email code : String) (purpose : Purpose) (reject : User → Bool)
      → Holds
          (IsChecked email code purpose reject)
          (check_code db p draw email code purpose reject s)
  unfolding check_code pure
  check_code-Holds email code purpose reject =
      let Q : Outcome Auth (User × EmailToken) → Type 0 =
        Holds (IsChecked email code purpose reject) in
      bind_get Q _ s (
        bind_expect Q _ _ _ s (λ _. tt)
          λ user account.
            bind_guard Q _ _ _ s (λ _. tt)
              λ wanted.
                bind_guard Q _ _ _ s (λ _. tt)
                  λ free.
                    bind_expect Q _ _ _ s (λ _. tt)
                      λ row there.
                        bind_halt Q _ _ _ _ s (λ _. tt)
                          λ in_time.
                            bind_halt Q _ _ _ _ s (λ _. tt)
                              λ guesses.
                                bind_halt Q _ _ _ _ s (λ _. tt)
                                  λ right.
                                    let (o, hit) = db.find_one_some _ s.email_tokens row there in
                                    (
                                      refl,
                                      record {
                                        account = account;
                                        wanted = ground arith;
                                        free = ground arith;
                                        occurs = o;
                                        live = hit;
                                        in_time = ground arith;
                                        guesses = ground arith;
                                        right = ground arith;
                                      },
                                    ))

  -- The claim ends well where it spent exactly one row.
  claim_code-Holds :
      (now id : ℕ)
      → Holds
          (λ _ s'.
            (count (is_unspent id) s.email_tokens ≡ 1)
            × (s' ≡ put_email_tokens (db.update (is_unspent id) (spend now) s.email_tokens) s))
          (claim_code db p now id s)
  unfolding claim_code modify
  claim_code-Holds now id =
      let P : Unit {0} → Auth → Type 0 = λ _ s'.
        (count (is_unspent id) s.email_tokens ≡ 1)
        × (s' ≡ put_email_tokens (db.update (is_unspent id) (spend now) s.email_tokens) s) in
      let Q : Outcome Auth (Unit {0}) → Type 0 = Holds P in
      bind_get Q _ s (
        bind_modify Q _ _ s (
          end_guard Q _ _ _ (λ _. tt)
            (λ one. (
              (==_iff _ 1).0 (rw (sym (db.count_by_eq (is_unspent id) s.email_tokens)) one),
              refl,
            ))))

module _ (db : Orm) (p : Platform) (draw : Draw) (s : Auth) where
  -- A redemption that succeeds was of a live code, in time, below the cap and right; it has spent
  -- that code and changed nothing else.
  pub record IsRedeemed (email code : String) (purpose : Purpose) (reject : User → Bool)
      (user : User) (s' : Auth) : Type 0 where
    pub row : EmailToken
    pub accepted : IsAccepted db p draw email code purpose reject s user row
    pub once : count (is_unspent row.id) s.email_tokens ≡ 1
    pub spent :
        s' ≡ put_email_tokens (map (patch (is_unspent row.id) (spend draw.now)) s.email_tokens) s

  -- A redemption that succeeds was for an account of that address that is not banned and not
  -- rejected, of a live code of that purpose that had not expired, had fewer than five attempts
  -- and matches what was typed; it spent exactly that code and changed nothing else.
  pub redeem_code-Holds :
      (email code : String) (purpose : Purpose) (reject : User → Bool)
      → Holds
          (IsRedeemed email code purpose reject)
          (redeem_code db p draw email code purpose reject s)
  unfolding redeem_code pure
  redeem_code-Holds email code purpose reject =
      let Q : Outcome Auth User → Type 0 = Holds (IsRedeemed email code purpose reject) in
      bind-Holds Q _ _ _ s (check_code-Holds db p draw s email code purpose reject) (λ e s'. tt)
        λ found s' (same, ok). rw same (
          seq-Holds Q _ _ _ s (claim_code-Holds db p draw s draw.now (found.1).id) (λ e t. tt)
            λ t (one, eq). record {
              row = found.1;
              accepted = ok;
              once = one;
              spent =
                  rw (sym (db.update_eq (is_unspent (found.1).id) (spend draw.now) s.email_tokens))
                    eq;
            })
