-- ===== src/Auth/Logout.antt =====
-- Proofs on AuthService.logout.
use itc_sharing_backend.Base.{
  ℕ, ◌≤◌, ◌≡◌, refl, true, String, Option, none, some, count, arith, Orm, Outcome, fail, after,
  Failure, count-keep, count_pos_at, count_none_of, bind_expect, bind_get, bind_fail, pure, get,
  modify, ◌>>=◌, ==_refl,
}
use itc_sharing_backend.Auth.Types.{Auth, RefreshToken, Platform, Draw}
use itc_sharing_backend.Auth.Sessions.{
  presented, has_hash, in_family, refresh_lookup, refresh, logout, forget_family,
}

-- A call that is refused and changes nothing.
abbrev pub IsRefused : {A : Type 0} → Auth → Outcome Auth A → Type 0
IsRefused s o = (e : Failure) × (o ≡ fail e s)

module _ (db : Orm) (p : Platform) (s : Auth) where
  -- The hash of the token that is presented, if any, is in no row.
  abbrev IsUnknown : Option String → Type 0
  IsUnknown raw_token =
      (raw : String)
      → presented raw_token ≡ some raw
      → count (has_hash (p.sha256 raw)) s.refresh_tokens ≡ 0

  lookup-IsRefused :
      (now : ℕ) (raw_token : Option String)
      → IsUnknown raw_token
      → IsRefused s (refresh_lookup db p now raw_token s)
  unfolding refresh_lookup
  lookup-IsRefused now raw_token unknown =
      let Q : Outcome Auth (ℕ × RefreshToken) → Type 0 = IsRefused s in
      bind_expect Q _ _ _ s (λ _. (_, refl))
        λ raw shown.
          bind_expect Q _ _ _ s (λ _. (_, refl))
            λ sub _. bind_get Q _ s (
              bind_expect Q _ _ _ s (λ _. (_, refl))
                λ row found.
                  let (o, hit) = db.find_one_some _ s.refresh_tokens row found in
                  let seen : 1 ≤ count (has_hash (p.sha256 raw)) s.refresh_tokens =
                    count_pos_at _ o hit in
                  absurd (omega (arith, unknown raw shown)))

  refresh_unknown :
      (draw : Draw) (raw_token : Option String)
      → IsUnknown raw_token
      → IsRefused s (refresh db p draw raw_token s)
  unfolding refresh
  refresh_unknown draw raw_token unknown =
      let (e, h) = lookup-IsRefused draw.now raw_token unknown in
      bind_fail (IsRefused s) _ _ s h (e, refl)

module _ (db : Orm) (p : Platform) (s : Auth) where
  logout_row :
      (raw : String)
      → count (has_hash (p.sha256 raw)) s.refresh_tokens ≤ 1
      → (o : Option RefreshToken) → db.find_one (has_hash (p.sha256 raw)) s.refresh_tokens ≡ o
      → count (has_hash (p.sha256 raw)) (after (forget_family db p o s)).refresh_tokens ≡ 0
  unfolding forget_family pure modify
  logout_row raw unique none e = db.find_one_none _ s.refresh_tokens e
  logout_row raw unique (some row) e =
      let (o, hit) = db.find_one_some _ s.refresh_tokens row e in
      let mine : in_family row.family_id row ≡ true = ==_refl row.family_id in
      rw (db.delete_eq, count-keep)
        (count_none_of _ (has_hash (p.sha256 raw)) o hit (rw (hit, mine) refl) (λ x h. ground arith)
          unique)

  logout_found :
      (raw_token : Option String) (raw : String)
      → presented raw_token ≡ some raw
      → logout db p raw_token s
        ≡ forget_family db p (db.find_one (has_hash (p.sha256 raw)) s.refresh_tokens) s
  unfolding logout ◌>>=◌ get
  logout_found raw_token raw h = rw (logout, h) refl

  logout_forgets :
      (raw_token : Option String) (raw : String)
      → presented raw_token ≡ some raw
      → count (has_hash (p.sha256 raw)) s.refresh_tokens ≤ 1
      → count (has_hash (p.sha256 raw)) (after (logout db p raw_token s)).refresh_tokens ≡ 0
  logout_forgets raw_token raw h unique =
      rw (logout_found raw_token raw h) (logout_row raw unique _ refl)

  -- Where at most one row has the hash of the presented token, a refresh with that token after a
  -- logout with it is refused and changes nothing.
  pub refresh-after-logout :
      (draw : Draw) (raw_token : Option String)
      → ((raw : String)
          → presented raw_token ≡ some raw
          → count (has_hash (p.sha256 raw)) s.refresh_tokens ≤ 1)
      → IsRefused
          (after (logout db p raw_token s))
          (refresh db p draw raw_token (after (logout db p raw_token s)))
  refresh-after-logout draw raw_token unique =
      refresh_unknown db p (after (logout db p raw_token s)) draw raw_token
        λ raw h. logout_forgets raw_token raw h (unique raw h)
