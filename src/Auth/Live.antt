-- ===== src/Auth/Live.antt =====
-- The table of emailed codes: its invariant, and proofs on issueEmailToken and redeemCode.
use itc_sharing_backend.Base.{
  ℕ, ◌≤◌, ◌<◌, ◌≡◌, refl, sym, subst, Bool, true, false, String, List, ◌∷◌, ◌==◌, count, arith, map,
  patch, All, All-of_Occurs, All-at, All-map-patch, Occurs, Orm, Outcome, after, Bool-cases, inl,
  inr, Occurs-unique, count-patch_same, count-patch-le, count-patch_gone, ==_iff, ==_refl, bind_get,
  bind_guard, bind_expect, bind_modify, bind_any, bind_halt, seq_any, after-guard, ◌∙◌, get, modify,
  pure,
}
use itc_sharing_backend.Auth.Types.{
  Auth, User, EmailToken, Purpose, Platform, Draw, same_purpose, put_email_tokens,
}
use itc_sharing_backend.Auth.Codes.{
  is_live, is_unspent, spend, count_attempt, insert_email_token, issue_email_token, check_code,
  claim_code, redeem_code, max_code_attempts, spend_row,
}

pub record Codes (t : List EmailToken) : Type 0 where
  pub unique : (x : ℕ) → count (λ (r : EmailToken). r.id == x) t ≤ 1
  pub single : (user_id : ℕ) (purpose : Purpose) → count (is_live user_id purpose) t ≤ 1
  pub capped : All (λ (r : EmailToken). r.attempts ≤ max_code_attempts) t

abbrev pub IsFreshCode : Draw → Auth → Type 0
IsFreshCode draw s = count (λ (r : EmailToken). r.id == draw.row_id) s.email_tokens ≡ 0

same_purpose_iff : (p q : Purpose) → same_purpose p q ≡ true → p ≡ q
same_purpose_iff p q h = ground arith

abbrev Capped : EmailToken → Type 0
Capped r = r.attempts ≤ max_code_attempts

spent_dead :
    (u : ℕ) (purpose : Purpose) (now : ℕ) (r : EmailToken) → is_live u purpose (spend now r) ≡ false
spent_dead u purpose now r = ground arith

Codes-spend :
    (q : EmailToken → Bool) (now : ℕ) {t : List EmailToken}
    → Codes t
    → Codes (map (patch q (spend now)) t)
Codes-spend q now {t} h = record {
  unique = λ x.
      rw (count-patch_same (λ (r : EmailToken). r.id == x) q (spend now) t (λ r _. refl))
        (h.unique x);
  single = λ u purpose.
      let less : count (is_live u purpose) (map (patch q (spend now)) t)
          ≤ count (is_live u purpose) t =
        count-patch-le (is_live u purpose) q (spend now) t
          (λ r live. ground (arith, spent_dead u purpose now r)) in
      omega (arith, h.single u purpose);
  capped =
      All-map-patch Capped Capped q (spend now) t
        (λ r c. elim (Bool-cases (q r)) [ inl e ↦ rw e c | inr e ↦ rw e c ]) h.capped;
}

-- A wrong guess is counted on the one row that has the identifier, which is below the cap.
pub Codes-attempt :
    (row : EmailToken) {t : List EmailToken}
    → Occurs row t
    → row.attempts < max_code_attempts
    → Codes t
    → Codes (map (patch (λ (r : EmailToken). r.id == row.id) count_attempt) t)
Codes-attempt row {t} o below h =
    let p : EmailToken → Bool = λ r. r.id == row.id in
    record {
      unique = λ x.
          rw (count-patch_same (λ (r : EmailToken). r.id == x) p count_attempt t (λ r _. refl))
            (h.unique x);
      single = λ u purpose.
          rw (count-patch_same (is_live u purpose) p count_attempt t (λ r _. refl))
            (h.single u purpose);
      capped =
          All-map-patch (λ r. Capped r × (p r ≡ true → r.attempts < max_code_attempts)) Capped p
            count_attempt t
            (λ r (c, b). elim (Bool-cases (p r)) [
              | inl e ↦ rw e (omega (arith, b e))
              | inr e ↦ rw e c
            ])
            (All-of_Occurs _ t λ r o'. (
              All-at Capped o' h.capped,
              λ e.
                  subst (λ (r : EmailToken). r.attempts < max_code_attempts)
                    (Occurs-unique p o o' (==_refl row.id) e (h.unique row.id)) below,
            ));
    }

one_more :
    {A : Type 0} (q : A → Bool) (a : A) (t : List A)
    → (q a ≡ true → count q t ≡ 0)
    → count q t ≤ 1
    → count q (a ∷ t) ≤ 1
one_more q a t h le = ground (arith, h)

-- A code joins the table when its account has no live one of the purpose.
Codes-insert :
    (new : EmailToken) {t : List EmailToken}
    → new.attempts ≡ 0
    → count (λ (r : EmailToken). r.id == new.id) t ≡ 0
    → count (is_live new.user_id new.purpose) t ≡ 0
    → Codes t
    → Codes (new ∷ t)
Codes-insert new {t} zero_attempts fresh dead h = record {
  unique = λ x.
      one_more _ new t
        (λ e.
          subst (λ y. count (λ (r : EmailToken). r.id == y) t ≡ 0) ((==_iff new.id x).0 e) fresh)
        (h.unique x);
  single = λ u purpose.
      one_more (is_live u purpose) new t
        (λ e.
          let u_eq : new.user_id ≡ u = (==_iff new.user_id u).0 (ground arith) in
          let p_eq : new.purpose ≡ purpose = same_purpose_iff new.purpose purpose (ground arith) in
          rw (sym u_eq, sym p_eq) dead)
        (h.single u purpose);
  capped = (omega arith, h.capped);
}

-- What the codes' operations keep: the table's invariant, and every session.
pub record Kept (s s' : Auth) : Type 0 where
  pub codes : Codes s'.email_tokens
  pub sessions : s'.refresh_tokens ≡ s.refresh_tokens

module _ (db : Orm) (p : Platform) (draw : Draw) (s : Auth) where
  pub issue-Kept :
      (user : User) (purpose : Purpose)
      → Codes s.email_tokens
      → IsFreshCode draw s
      → Kept s (after (issue_email_token db p draw user purpose s))
  unfolding issue_email_token insert_email_token modify
  issue-Kept user purpose h fresh =
      let Q : Outcome Auth (Unit {0}) → Type 0 = λ o. Kept s (after o) in
      let p_live : EmailToken → Bool = is_live user.id purpose in
      let spent : Codes (map (patch p_live (spend draw.now)) s.email_tokens) =
        Codes-spend p_live draw.now h in
      let unused : count (λ (r : EmailToken). r.id == draw.row_id)
            (map (patch p_live (spend draw.now)) s.email_tokens)
          ≡ 0 =
        rw
          (count-patch_same (λ (r : EmailToken). r.id == draw.row_id) p_live (spend draw.now)
            s.email_tokens (λ r _. refl))
          fresh in
      bind_modify Q _ _ s (
        rw (db.update_eq) (
          seq_any Q (Kept s) _ _ _
            (bind_get Q _ _ (
              bind_guard Q _ _ _ _ (λ _. record { codes = spent; sessions = refl })
                (λ _. record {
                  sessions = refl;
                  codes =
                      Codes-insert _ refl unused
                        (count-patch_gone p_live (spend draw.now) s.email_tokens
                          (λ r. spent_dead user.id purpose draw.now r))
                        spent;
                })))
            (λ e s' q. q) (λ s' q. record { codes = q.codes; sessions = q.sessions })))

  pub check-Kept :
      (email code : String) (purpose : Purpose) (reject : User → Bool)
      → Codes s.email_tokens
      → Kept s (after (check_code db p draw email code purpose reject s))
  unfolding check_code pure
  check-Kept email code purpose reject h =
      let Q : Outcome Auth (User × EmailToken) → Type 0 = λ o. Kept s (after o) in
      let same : Kept s s = record { codes = h; sessions = refl } in
      bind_get Q _ s (
        bind_expect Q _ _ _ s (λ _. same)
          λ user _.
            bind_guard Q _ _ _ s (λ _. same)
              λ _.
                bind_guard Q _ _ _ s (λ _. same)
                  λ _.
                    bind_expect Q _ _ _ s (λ _. same)
                      λ row found.
                        let (o, hit) = db.find_one_some _ s.email_tokens row found in
                        let burnt : Kept s (spend_row db p draw.now row.id s) = record {
                          codes =
                              rw (db.update_eq)
                                (Codes-spend (λ (t : EmailToken). t.id == row.id) draw.now h);
                          sessions = refl;
                        } in
                        bind_halt Q _ _ _ _ s (λ _. burnt)
                          λ _.
                            bind_halt Q _ _ _ _ s (λ _. burnt)
                              λ below.
                                bind_halt Q _ _ _ _ s
                                  (λ _. record {
                                    codes =
                                        rw (db.update_eq) (Codes-attempt row o (ground arith) h);
                                    sessions = refl;
                                  })
                                  (λ _. same))

  claim-Kept : (now id : ℕ) → Codes s.email_tokens → Kept s (after (claim_code db p now id s))
  unfolding claim_code get modify
  claim-Kept now id h =
      let Q : Outcome Auth (Unit {0}) → Type 0 = λ o. Kept s (after o) in
      let spent : Kept s
          (put_email_tokens (db.update (is_unspent id) (spend now) s.email_tokens) s) =
        record { codes = rw (db.update_eq) (Codes-spend (is_unspent id) now h); sessions = refl } in
      bind_get Q _ s (bind_modify Q _ _ s (rw (after-guard) spent))

then-Kept : {s s' t : Auth} → Kept s s' → Kept s' t → Kept s t
then-Kept q w = record { codes = w.codes; sessions = w.sessions ∙ q.sessions }

module _ (db : Orm) (p : Platform) (draw : Draw) (s : Auth) where
  pub redeem-Kept :
      (email code : String) (purpose : Purpose) (reject : User → Bool)
      → Codes s.email_tokens
      → Kept s (after (redeem_code db p draw email code purpose reject s))
  unfolding redeem_code pure
  redeem-Kept email code purpose reject h =
      let Q : Outcome Auth User → Type 0 = λ o. Kept s (after o) in
      bind_any Q (Kept s) _ _ s (check-Kept db p draw s email code purpose reject h) (λ e s' q. q)
        λ found s' q.
          seq_any Q (Kept s) _ _ s'
            (then-Kept q (claim-Kept db p draw s' draw.now (found.1).id q.codes)) (λ e t w. w)
            (λ t w. w)
