-- ===== src/Auth/Sessions.antt =====
-- The refresh-token lifecycle of AuthService: createRefreshToken, refresh, assertWithinReuseGrace,
-- logout. `refresh` is in its three steps, between which other calls may run.
use itc_sharing_backend.Base.{
  ℕ, ◌+◌, ◌*◌, min, Bool, true, false, not, ◌&&◌, String, Option, none, some, ◌∷◌, ◌==◌, ltb, any,
  Orm, M, pure, get, guard, expect, modify, halt_if, unauthorized, forbidden, internal, ◌>>=◌, ◌>>◌,
  same_text, is_empty, if◌then◌else◌,
}
use itc_sharing_backend.Auth.Types.{
  Auth, User, RefreshToken, Platform, Draw, is_none, is_banned, put_refresh_tokens,
}

-- `!rawToken`, with the empty string absent too.
abbrev pub presented : Option String → Option String
presented none = none
presented (some raw) = if is_empty raw then none else some raw

abbrev pub has_hash : String → RefreshToken → Bool
has_hash h r = same_text r.token_hash h

abbrev pub is_unclaimed : ℕ → RefreshToken → Bool
is_unclaimed id r = r.id == id && is_none r.consumed_at

abbrev pub in_family : ℕ → RefreshToken → Bool
in_family family r = r.family_id == family

abbrev pub claimed : ℕ → RefreshToken → RefreshToken
claimed now r = record r { consumed_at = some now }

abbrev pub revoked : String
revoked = "Refresh token has been revoked"

-- `min(seconds, 60) * 1000`, and ten seconds where the setting is not a number from 0 on.
unfoldable pub reuse_grace_ms : Platform → ℕ
reuse_grace_ms p = elim (p.reuse_grace_seconds) [ none ↦ 10000 | some n ↦ min n 60 * 1000 ]

-- Strictly within the window; a token that was never redeemed has an infinite age.
unfoldable pub is_within_grace : ℕ → ℕ → Option ℕ → Bool
is_within_grace grace now none = false
is_within_grace grace now (some at) = ltb now (at + grace)

-- `save`, under the unique index on `token_hash`.
unfoldable pub insert_refresh : RefreshToken → M Auth (Unit {0})
insert_refresh r = do
  s ← get
  guard (not (any (has_hash r.token_hash) s.refresh_tokens))
      (internal "Failed to issue refresh token: duplicate key")
  modify (λ d. put_refresh_tokens (r ∷ d.refresh_tokens) d)

module _ (db : Orm) (p : Platform) where
  abbrev pub new_refresh : Draw → ℕ → ℕ → RefreshToken
  new_refresh draw user_id family = record {
    id = draw.session_id;
    user_id = user_id;
    token_hash = p.sha256 (p.sign_refresh user_id draw.jti draw.now);
    family_id = family;
    consumed_at = none;
    expires_at = draw.now + p.refresh_ttl_ms;
  }

  unfoldable pub create_refresh_token : Draw → ℕ → ℕ → M Auth String
  create_refresh_token draw user_id family = do
    insert_refresh (new_refresh draw user_id family)
    pure (p.sign_refresh user_id draw.jti draw.now)

  unfoldable pub refresh_lookup : ℕ → Option String → M Auth (ℕ × RefreshToken)
  refresh_lookup now raw_token = do
    raw ← expect (presented raw_token) (unauthorized "Missing refresh token")
    sub ← expect (p.verify_refresh now raw) (unauthorized "Invalid or expired refresh token")
    s ← get
    row ← expect (db.find_one (has_hash (p.sha256 raw)) s.refresh_tokens) (unauthorized revoked)
    pure (sub, row)

  -- The conditional update, which answers whether it won.
  unfoldable pub refresh_claim : ℕ → ℕ → M Auth Bool
  refresh_claim now id = do
    s ← get
    modify (λ d. put_refresh_tokens (db.update (is_unclaimed id) (claimed now) d.refresh_tokens) d)
    pure (db.count_by (is_unclaimed id) s.refresh_tokens == 1)

  unfoldable pub consumed_at_of : ℕ → Auth → Option ℕ
  consumed_at_of id s = elim (db.find_one (λ (r : RefreshToken). r.id == id) s.refresh_tokens) [
    | none ↦ none
    | some r ↦ r.consumed_at
  ]

  unfoldable pub assert_within_reuse_grace : ℕ → RefreshToken → M Auth (Unit {0})
  assert_within_reuse_grace now row = do
    s ← get
    halt_if (not (is_within_grace (reuse_grace_ms p) now (consumed_at_of row.id s)))
        (λ d. put_refresh_tokens (db.delete (in_family row.family_id) d.refresh_tokens) d)
        (unauthorized revoked)

  -- What `refresh` does of a claim that was lost.
  unfoldable pub settle_claim : ℕ → RefreshToken → Bool → M Auth (Unit {0})
  settle_claim now row true = pure tt
  settle_claim now row false = assert_within_reuse_grace now row

  unfoldable pub refresh_finish : Draw → ℕ → ℕ → M Auth (String × String)
  refresh_finish draw sub family = do
    s ← get
    user ←
        expect (db.find_one (λ (u : User). u.id == sub) s.users)
          (unauthorized "User no longer exists")
    guard (not (is_banned db user.id s)) (forbidden "Your account has been banned")
    token ← create_refresh_token draw user.id family
    pure (p.sign_access user.id user.email draw.now, token)

  unfoldable pub refresh : Draw → Option String → M Auth (String × String)
  refresh draw raw_token = do
    found ← refresh_lookup draw.now raw_token
    won ← refresh_claim draw.now (found.1).id
    settle_claim draw.now found.1 won
    refresh_finish draw found.0 (found.1).family_id

  -- What `logout` does of the row that it found.
  unfoldable pub forget_family : Option RefreshToken → M Auth (Unit {0})
  forget_family none = pure tt
  forget_family (some row) =
      modify (λ d. put_refresh_tokens (db.delete (in_family row.family_id) d.refresh_tokens) d)

  unfoldable pub logout : Option String → M Auth (Unit {0})
  logout raw_token = elim (presented raw_token) [
    | none ↦ pure tt
    | some raw ↦ do s ← get; forget_family (db.find_one (has_hash (p.sha256 raw)) s.refresh_tokens)
  ]
