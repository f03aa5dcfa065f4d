-- ===== src/Auth/Owners.antt =====
-- The owners of refresh tokens and of their families: the invariant and the changes of the
-- table of refresh tokens.
use itc_sharing_backend.Base.{
  ℕ, ◌≡◌, refl, Bool, false, String, some, List, ◌∷◌, ◌==◌, count, arith, All, All-map-patch,
  All-keep, Orm, Bool-cases, inl, inr, patch, keep, map, if◌then◌else◌, ==_refl, [],
}
use itc_sharing_backend.Auth.Types.{Auth, RefreshToken, Platform, Draw}
use itc_sharing_backend.Auth.Sessions.{in_family, claimed, new_refresh}

abbrev pub Bound : Platform → RefreshToken → Type 0
Bound p r =
    (raw : String) (now u : ℕ)
    → p.sha256 raw ≡ r.token_hash
    → p.verify_refresh now raw ≡ some u
    → u ≡ r.user_id

pub record Owned (p : Platform) (t : List RefreshToken) : Type 0 where
  pub bound : All (Bound p) t
  pub owner : ℕ → ℕ
  pub owned : All (λ r. r.user_id ≡ owner r.family_id) t

abbrev pub IsFreshFamily : Draw → Auth → Type 0
IsFreshFamily draw s = count (in_family draw.family) s.refresh_tokens ≡ 0

module _ (p : Platform) where
  claimed_keeps :
      (P : RefreshToken → Type 0) (q : RefreshToken → Bool) (now : ℕ)
      → ((r : RefreshToken) → P r → P (claimed now r))
      → (r : RefreshToken) → P r
      → P (patch q (claimed now) r)
  claimed_keeps P q now f r h = elim (Bool-cases (q r)) [ inl e ↦ rw e (f r h) | inr e ↦ rw e h ]

  pub Owned-claim :
      (q : RefreshToken → Bool) (now : ℕ) {t : List RefreshToken}
      → (h : Owned p t)
      → (k : Owned p (map (patch q (claimed now)) t)) × ((f : ℕ) → h.owner f ≡ k.owner f)
  Owned-claim q now {t} h = (
    record {
      bound =
          All-map-patch (Bound p) (Bound p) q (claimed now) t
            (claimed_keeps (Bound p) q now (λ r b. b)) h.bound;
      owner = h.owner;
      owned =
          All-map-patch _ _ q (claimed now) t
            (claimed_keeps (λ r. r.user_id ≡ h.owner r.family_id) q now (λ r b. b)) h.owned;
    },
    λ f. refl,
  )

  pub Owned-keep :
      (q : RefreshToken → Bool) {t : List RefreshToken} → Owned p t → Owned p (keep q t)
  Owned-keep q {t} h = record {
    bound = All-keep (Bound p) (Bound p) q t (λ r _ b. b) h.bound;
    owner = h.owner;
    owned = All-keep _ (λ r. r.user_id ≡ h.owner r.family_id) q t (λ r _ b. b) h.owned;
  }

  Bound-new :
      (db : Orm) (draw : Draw) (user_id family : ℕ) → Bound p (new_refresh db p draw user_id family)
  Bound-new db draw user_id family raw now u h v =
      p.verify_of_sign user_id draw.jti draw.now now raw u h v

  -- A new token in a family of the same user.
  pub Owned-heir :
      (db : Orm) (draw : Draw) (user_id family : ℕ) {t : List RefreshToken}
      → (h : Owned p t) → user_id ≡ h.owner family
      → Owned p (new_refresh db p draw user_id family ∷ t)
  Owned-heir db draw user_id family h e = record {
    bound = (Bound-new db draw user_id family, h.bound);
    owner = h.owner;
    owned = (e, h.owned);
  }

  abbrev with_owner : (ℕ → ℕ) → ℕ → ℕ → ℕ → ℕ
  with_owner owner family user_id f = if f == family then user_id else owner f

  others_keep :
      (owner : ℕ → ℕ) (family user_id : ℕ) (t : List RefreshToken)
      → count (in_family family) t ≡ 0
      → All (λ r. r.user_id ≡ owner r.family_id) t
      → All (λ r. r.user_id ≡ with_owner owner family user_id r.family_id) t
  others_keep owner family user_id [] h a = tt
  others_keep owner family user_id (r ∷ t) h a =
      let other : (r.family_id == family) ≡ false = ground arith in
      (rw other a.0, others_keep owner family user_id t (ground arith) a.1)

  -- A token that opens a family of its own.
  pub Owned-opening :
      (db : Orm) (draw : Draw) (user_id : ℕ) {t : List RefreshToken}
      → Owned p t
      → count (in_family draw.family) t ≡ 0
      → Owned p (new_refresh db p draw user_id draw.family ∷ t)
  Owned-opening db draw user_id {t} h fresh = record {
    bound = (Bound-new db draw user_id draw.family, h.bound);
    owner = with_owner h.owner draw.family user_id;
    owned =
        (rw (==_refl draw.family) refl, others_keep h.owner draw.family user_id t fresh h.owned);
  }
