-- ===== src/Auth/Replay.antt =====
-- Proofs on AuthService.refresh for a token that is presented again, and on concurrent claims.
use itc_sharing_backend.Base.{
  ℕ, ◌≤◌, ◌+◌, ◌≡◌, refl, true, false, not, String, none, some, ◌==◌, count, arith, Orm, Outcome,
  done, fail, unauthorized, bind_done, bind_some, bind_get, seq_fail, map-patch_none, count_none_of,
  count-patch_gone, Occurs-unique, keep, Option-cases, inl, inr, ◌>>=◌, ◌>>◌, pure, get, modify,
  halt_if, ==_refl,
}
use itc_sharing_backend.Auth.Types.{Auth, RefreshToken, Platform, Draw, put_refresh_tokens}
use itc_sharing_backend.Auth.Sessions.{
  presented, has_hash, is_unclaimed, in_family, claimed, revoked, reuse_grace_ms, is_within_grace,
  refresh_lookup, refresh_claim, consumed_at_of, assert_within_reuse_grace, settle_claim, refresh,
}

is_within_grace_late :
    (grace now at : ℕ) → at + grace ≤ now → is_within_grace grace now (some at) ≡ false
unfolding is_within_grace
is_within_grace_late grace now at h = ground arith

claim_none :
    (db : Orm) (p : Platform) (id now : ℕ) (s : Auth)
    → count (is_unclaimed id) s.refresh_tokens ≡ 0
    → refresh_claim db p now id s ≡ done false s
unfolding refresh_claim ◌>>=◌ ◌>>◌ get modify pure
claim_none db p id now s none_left =
    rw (db.count_by_eq, none_left, db.update_eq, map-patch_none _ _ _ none_left) refl

is_within_grace-none : (grace now : ℕ) → is_within_grace grace now none ≡ false
unfolding is_within_grace
is_within_grace-none grace now = refl

module _ (db : Orm) (p : Platform) (s : Auth) where
  abbrev pub after_claim : ℕ → ℕ → Auth
  after_claim id now =
      put_refresh_tokens (db.update (is_unclaimed id) (claimed now) s.refresh_tokens) s

  -- Where one row is the unconsumed one of an identifier, of two claims of it the first wins, and
  -- the second loses and changes nothing.
  pub refresh_claim_race :
      (id now later : ℕ)
      → count (is_unclaimed id) s.refresh_tokens ≡ 1
      → (refresh_claim db p now id s ≡ done true (after_claim id now))
        × (refresh_claim db p later id (after_claim id now) ≡ done false (after_claim id now))
  unfolding refresh_claim ◌>>=◌ ◌>>◌ get modify pure
  refresh_claim_race id now later one =
      let gone : count (is_unclaimed id)
            (db.update (is_unclaimed id) (claimed now) s.refresh_tokens)
          ≡ 0 =
        rw (db.update_eq)
          (count-patch_gone (is_unclaimed id) (claimed now) s.refresh_tokens (λ r. ground arith)) in
      (rw (db.count_by_eq, one) refl, claim_none db p id later (after_claim id now) gone)

module _ (db : Orm) (p : Platform) (draw : Draw) (s : Auth) where
  -- A token redeemed at `at` and presented once the window is over.
  pub record IsReplayed (raw : String) (at : ℕ) (row : RefreshToken) : Type 0 where
    pub there : presented (some raw) ≡ some raw
    pub sub : ℕ
    pub valid : p.verify_refresh draw.now raw ≡ some sub
    pub found : db.find_one (has_hash (p.sha256 raw)) s.refresh_tokens ≡ some row
    pub consumed : row.consumed_at ≡ some at
    pub late : at + reuse_grace_ms p ≤ draw.now
    pub unique : count (λ (r : RefreshToken). r.id == row.id) s.refresh_tokens ≤ 1

  -- The state in which the family of a replayed token is gone, and every other row is kept.
  abbrev pub without_family : ℕ → Auth
  without_family family =
      put_refresh_tokens (keep (λ r. not (in_family family r)) s.refresh_tokens) s

  claim_lost :
      {raw : String} {at : ℕ} {row : RefreshToken}
      → IsReplayed raw at row
      → refresh_claim db p draw.now row.id s ≡ done false s
  claim_lost {raw} {at} {row} h =
      let (o, hit) = db.find_one_some _ s.refresh_tokens row h.found in
      let spent : is_unclaimed row.id row ≡ false = ground (arith, h.consumed) in
      claim_none db p row.id draw.now s (
        count_none_of (is_unclaimed row.id) (λ r. r.id == row.id) o (==_refl row.id) spent
          (λ x live. ground arith) h.unique)

  reread :
      {raw : String} {at : ℕ} {row : RefreshToken}
      → IsReplayed raw at row
      → is_within_grace (reuse_grace_ms p) draw.now (consumed_at_of db p row.id s) ≡ false
  unfolding consumed_at_of
  reread {raw} {at} {row} h =
      elim (Option-cases (db.find_one (λ (r : RefreshToken). r.id == row.id) s.refresh_tokens)) [
        | inl e ↦ rw (e, consumed_at_of) (is_within_grace-none (reuse_grace_ms p) draw.now)
        | inr (r, e) ↦
            let (o, hit) = db.find_one_some _ s.refresh_tokens row h.found in
            let (o', hit') = db.find_one_some _ s.refresh_tokens r e in
            let same : r ≡ row =
              Occurs-unique (λ (r : RefreshToken). r.id == row.id) o' o hit' (==_refl row.id)
                h.unique in
            rw (e, consumed_at_of, same, h.consumed)
              (is_within_grace_late (reuse_grace_ms p) draw.now at h.late)
      ]

  looked_up :
      {raw : String} {at : ℕ} {row : RefreshToken}
      → (h : IsReplayed raw at row)
      → refresh_lookup db p draw.now (some raw) s ≡ done (h.sub, row) s
  unfolding refresh_lookup pure
  looked_up {raw} {at} {row} h =
      let Q : Outcome Auth (ℕ × RefreshToken) → Type 0 = λ o. o ≡ done (h.sub, row) s in
      bind_some Q _ _ _ s h.there
        (bind_some Q _ _ _ s h.valid (bind_get Q _ s (bind_some Q _ _ _ s h.found refl)))

  refused :
      {raw : String} {at : ℕ} {row : RefreshToken}
      → IsReplayed raw at row
      → settle_claim db p draw.now row false s
        ≡ fail (unauthorized revoked) (without_family row.family_id)
  unfolding settle_claim assert_within_reuse_grace ◌>>=◌ get halt_if
  refused h = rw (reread h, db.delete_eq) refl

  -- A stored refresh token that verifies, was consumed and is presented when the grace window is
  -- over is refused as revoked, and the tokens that remain are those of the other families.
  pub refresh_replay :
      {raw : String} {at : ℕ} {row : RefreshToken}
      → IsReplayed raw at row
      → refresh db p draw (some raw) s ≡ fail (unauthorized revoked) (without_family row.family_id)
  unfolding refresh
  refresh_replay {raw} {at} {row} h =
      let Q : Outcome Auth (String × String) → Type 0 =
        λ o. o ≡ fail (unauthorized revoked) (without_family row.family_id) in
      bind_done Q _ _ s (looked_up h)
        (bind_done Q _ _ s (claim_lost h) (seq_fail Q _ _ s (refused h) refl))
