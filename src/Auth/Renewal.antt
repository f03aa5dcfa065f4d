-- ===== src/Auth/Renewal.antt =====
-- Proofs on createRefreshToken and refresh with the invariant of Auth.Owners.
use itc_sharing_backend.Base.{
  ℕ, ◌≡◌, refl, sym, ◌∙◌, Bool, true, false, not, String, Option, List, ◌∷◌, All-at, Occurs, Orm,
  Outcome, done, fail, after, Bool-cases, inl, inr, bind_get, bind_guard, bind_expect, bind_any,
  bind-Ends, modify, pure, ◌>>=◌, ◌>>◌, get, ==_iff, seq_any, Ends, stopped, finished, ◌⊎◌, Failure,
  subst, halt_if, unauthorized, seq_done, seq_fail,
}
use text.Mathlib.TextEquality.{eq_iff}
use itc_sharing_backend.Auth.Types.{
  EmailToken, Auth, RefreshToken, Platform, Draw, put_refresh_tokens,
}
use itc_sharing_backend.Auth.Sessions.{
  in_family, is_unclaimed, insert_refresh, new_refresh, create_refresh_token, refresh_lookup,
  refresh_claim, settle_claim, assert_within_reuse_grace, refresh_finish, refresh, revoked,
  is_within_grace, reuse_grace_ms, consumed_at_of,
}
use itc_sharing_backend.Auth.Owners.{
  Bound, Owned, IsFreshFamily, Owned-claim, Owned-keep, Owned-heir, Owned-opening,
}

module _ (p : Platform) (codes : List EmailToken) where
  -- The sessions are sound, and the emailed codes are those of the list `codes`.
  abbrev pub Safe : Auth → Type 0
  Safe s = Owned p s.refresh_tokens × (s.email_tokens ≡ codes)

  module _ (db : Orm) (draw : Draw) (s : Auth) where
    created :
        (user_id family : ℕ)
        → Safe s
        → Owned p (new_refresh db p draw user_id family ∷ s.refresh_tokens)
        → Safe (after (create_refresh_token db p draw user_id family s))
    unfolding create_refresh_token insert_refresh pure modify
    created user_id family h k =
        seq_any (λ o. Safe (after o)) Safe _ _ s
          (bind_get (λ o. Safe (after o)) _ s
            (bind_guard (λ o. Safe (after o)) _ _ _ s (λ _. h) (λ _. (k, h.1))))
          (λ e s' q. q) (λ s' q. q)

    -- A sign-in: the family is one that was just drawn.
    pub sign_in-Safe :
        (user_id : ℕ)
        → Safe s
        → IsFreshFamily draw s
        → Safe (after (create_refresh_token db p draw user_id draw.family s))
    sign_in-Safe user_id h fresh =
        created user_id draw.family h (Owned-opening p db draw user_id h.0 fresh)

    -- A rotation: the family is of the user already.
    finish-Safe :
        (sub family : ℕ)
        → (h : Safe s) → sub ≡ h.0.owner family
        → Safe (after (refresh_finish db p draw sub family s))
    unfolding refresh_finish pure
    finish-Safe sub family h e =
        let Q : Outcome Auth (String × String) → Type 0 = λ o. Safe (after o) in
        bind_get Q _ s (
          bind_expect Q _ _ _ s (λ _. h)
            λ u found.
              bind_guard Q _ _ _ s (λ _. h)
                λ free.
                  let (o, hit) = db.find_one_some _ s.users u found in
                  let same : u.id ≡ h.0.owner family = (==_iff u.id sub).0 hit ∙ e in
                  bind_any Q Safe _ _ s
                    (created u.id family h (Owned-heir p db draw u.id family h.0 same))
                    (λ e s' q. q) (λ a s' q. q))

  module _ (db : Orm) (draw : Draw) where
    -- What the lookup found: a stored token, which verifies for its owner.
    abbrev IsMatch : Auth → ℕ × RefreshToken → Auth → Type 0
    IsMatch s found s' = (s' ≡ s) × Occurs found.1 s.refresh_tokens × (found.0 ≡ (found.1).user_id)

    lookup-Ends :
        (s : Auth) (raw_token : Option String)
        → Safe s
        → Ends s (IsMatch s) (refresh_lookup db p draw.now raw_token s)
    unfolding refresh_lookup pure
    lookup-Ends s raw_token h =
        let Q : Outcome Auth (ℕ × RefreshToken) → Type 0 = Ends s (IsMatch s) in
        bind_expect Q _ _ _ s (λ _. stopped _ refl)
          λ raw shown.
            bind_expect Q _ _ _ s (λ _. stopped _ refl)
              λ sub valid. bind_get Q _ s (
                bind_expect Q _ _ _ s (λ _. stopped _ refl)
                  λ row found.
                    let (o, hit) = db.find_one_some _ s.refresh_tokens row found in
                    let hash : p.sha256 raw ≡ row.token_hash =
                      sym ((eq_iff row.token_hash (p.sha256 raw)).0 hit) in
                    finished (sub, row) s refl
                      (refl, o, All-at (Bound p) o h.0.bound raw draw.now sub hash valid))

    settle-cases :
        (s : Auth) (row : RefreshToken) (won : Bool)
        → Safe s
        → (settle_claim db p draw.now row won s ≡ done tt s)
          ⊎ ((e : Failure) × (s' : Auth) × (settle_claim db p draw.now row won s ≡ fail e s')
              × Safe s')
    unfolding settle_claim assert_within_reuse_grace halt_if ◌>>=◌ get pure
    settle-cases s row true h = inl refl
    settle-cases s row false h =
        elim (Bool-cases
          (not (is_within_grace (reuse_grace_ms p) draw.now (consumed_at_of db p row.id s)))) [
            | inl e ↦ inr (
              unauthorized revoked,
              put_refresh_tokens (db.delete (in_family row.family_id) s.refresh_tokens) s,
              rw e refl,
              (subst (Owned p) (sym (db.delete_eq _ s.refresh_tokens)) (Owned-keep p _ h.0), h.1),
            )
            | inr e ↦ inl (rw e refl)
          ]

    -- A family's owner is the user whose token was found in it, also after the claim.
    abbrev IsHeir : ℕ → ℕ → Auth → Type 0
    IsHeir sub family s = (k : Safe s) × (sub ≡ k.0.owner family)

    claim-IsHeir :
        (s : Auth) (row : RefreshToken) (sub : ℕ)
        → Safe s
        → Occurs row s.refresh_tokens
        → sub ≡ row.user_id
        → IsHeir sub row.family_id (after (refresh_claim db p draw.now row.id s))
    unfolding refresh_claim get modify pure ◌>>=◌ ◌>>◌
    claim-IsHeir s row sub h o mine =
        let (k, same_owner) = Owned-claim p (is_unclaimed row.id) draw.now h.0 in
        let owns : sub ≡ h.0.owner row.family_id =
          mine ∙ All-at (λ (r : RefreshToken). r.user_id ≡ h.0.owner r.family_id) o h.0.owned in
        rw (db.update_eq) ((k, h.1), owns ∙ same_owner row.family_id)

    -- The rotation once the lookup has found the row.
    rotate-Safe :
        (s : Auth) (found : ℕ × RefreshToken)
        → Safe s
        → Occurs found.1 s.refresh_tokens
        → found.0 ≡ (found.1).user_id
        → Safe (
            after (
              (refresh_claim db p draw.now (found.1).id >>= λ won.
              settle_claim db p draw.now found.1 won
              >> refresh_finish db p draw found.0 (found.1).family_id)
                s))
    rotate-Safe s found h o mine =
        let Q : Outcome Auth (String × String) → Type 0 = λ o. Safe (after o) in
        bind_any Q (IsHeir found.0 (found.1).family_id) _ _ s
          (claim-IsHeir s found.1 found.0 h o mine) (λ e s' q. q.0)
          λ won s' (k, owns). elim (settle-cases s' found.1 won k) [
            | inl e ↦
                seq_done Q _ _ s' e (finish-Safe db draw s' found.0 (found.1).family_id k owns)
            | inr (f, t, e, w) ↦ seq_fail Q _ _ s' e w
          ]

    pub refresh-Safe :
        (s : Auth) (raw_token : Option String)
        → Safe s
        → Safe (after (refresh db p draw raw_token s))
    unfolding refresh
    refresh-Safe s raw_token h =
        let Q : Outcome Auth (String × String) → Type 0 = λ o. Safe (after o) in
        bind-Ends Q _ _ _ s (lookup-Ends s raw_token h) (λ e. h)
          λ found s' (same, o, mine). rw same (rotate-Safe s found h o mine)
