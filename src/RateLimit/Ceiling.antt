-- ===== src/RateLimit/Ceiling.antt =====
-- Proofs on sequences of uploads through UploadQuotaService.consumeLocally.
use itc_sharing_backend.Base.{
  ℕ, ◌+◌, ◌≡◌, refl, sym, subst, ◌∙◌, ◌<◌, ◌≤◌, false, ◌&&◌, Option, none, some, List, [], ◌∷◌, ltb,
  leb, ◌==◌, ==_refl, ==_iff, arith, Bool-cases, inl, inr, if◌then◌else◌, All,
}
use itc_sharing_backend.RateLimit.Quota.{
  QuotaDecision, Window, Windows, consume_window, consume_locally, store_window,
}

-- A call of `consume`: when, by whom, how many bytes.
pub record Upload : Type 0 where
  pub at : ℕ
  pub user : ℕ
  pub bytes : ℕ

store_window-other :
    (owner user : ℕ) (ws : Windows) (out : QuotaDecision × Option Window)
    → (owner == user) ≡ false
    → (store_window owner ws out).1 user ≡ ws user
unfolding store_window
store_window-other owner user ws (d, none) other = refl
store_window-other owner user ws (d, some w) other =
    let apart : (user == owner) ≡ false = ground arith in rw apart refl

module _ (max_bytes window_ms : ℕ) where
  -- The bytes of one user that a sequence of calls accepts.
  unfoldable pub accepted : ℕ → List Upload → Windows → ℕ
  accepted user [] ws = 0
  accepted user (c ∷ cs) ws =
      let out = consume_locally max_bytes window_ms c.at c.user c.bytes ws in
      let rest = accepted user cs out.1 in
      if c.user == user && (out.0).allowed then c.bytes + rest else rest

  other_window :
      (user : ℕ) (c : Upload) (ws : Windows)
      → (c.user == user) ≡ false
      → (consume_locally max_bytes window_ms c.at c.user c.bytes ws).1 user ≡ ws user
  unfolding consume_locally
  other_window user c ws other = store_window-other c.user user ws _ other

  -- What one call of the user does to a window that is alive.
  own_window :
      (c : Upload) (w : Window) (ws : Windows)
      → ws c.user ≡ some w
      → c.at < w.reset_at
      → w.bytes ≤ max_bytes
      → (v : Window) × ((consume_locally max_bytes window_ms c.at c.user c.bytes ws).1 c.user
          ≡ some v)
        × (v.reset_at ≡ w.reset_at)
        × (v.bytes ≤ max_bytes)
        × (v.bytes ≡ (
            if ((consume_locally max_bytes window_ms c.at c.user c.bytes ws).0).allowed
            then w.bytes + c.bytes
            else w.bytes))
  unfolding consume_locally store_window consume_window
  own_window c w ws held live below =
      let open_still : leb w.reset_at c.at ≡ false = ground arith in
      elim (Bool-cases (ltb max_bytes (w.bytes + c.bytes))) [
        | inl e ↦ (
          w,
          rw (held, open_still, e, ==_refl c.user) refl,
          refl,
          below,
          rw (held, open_still, e) refl,
        )
        | inr e ↦ (
          record { bytes = w.bytes + c.bytes; reset_at = w.reset_at },
          rw (held, open_still, e, ==_refl c.user) refl,
          refl,
          ground arith,
          rw (held, open_still, e) refl,
        )
      ]

  -- While a window of a user is alive, and whatever other users upload meanwhile, the bytes it
  -- holds and the bytes of that user which consumeLocally accepts come to no more than the
  -- maximum.
  pub accepted-le :
      (user : ℕ) (cs : List Upload) (w : Window) (ws : Windows)
      → ws user ≡ some w
      → w.bytes ≤ max_bytes
      → All (λ (c : Upload). c.at < w.reset_at) cs
      → w.bytes + accepted user cs ws ≤ max_bytes
  unfolding accepted
  accepted-le user [] w ws held below alive = omega arith
  accepted-le user (c ∷ cs) w ws held below alive = elim (Bool-cases (c.user == user)) [
    | inl own ↦
        let at_user : c.user ≡ user = (==_iff c.user user).0 own in
        let (v, there, same, le, counted) =
          own_window c w ws (subst (λ u. ws u ≡ some w) (sym at_user) held) alive.0 below in
        let rest =
          accepted-le user cs v (consume_locally max_bytes window_ms c.at c.user c.bytes ws).1
            (subst (λ u. (consume_locally max_bytes window_ms c.at c.user c.bytes ws).1 u ≡ some v)
              at_user there)
            le (subst (λ t. All (λ (c : Upload). c.at < t) cs) (sym same) alive.1) in
        rw own
          (elim (Bool-cases
            ((consume_locally max_bytes window_ms c.at c.user c.bytes ws).0).allowed) [
              | inl e ↦
                  let v_is : v.bytes ≡ w.bytes + c.bytes = rw e at counted in
                  rw e (omega (arith, rest, v_is))
              | inr e ↦
                  let v_is : v.bytes ≡ w.bytes = rw e at counted in rw e (omega (arith, rest, v_is))
            ])
    | inr other ↦
        rw other (accepted-le user cs w _ (other_window user c ws other ∙ held) below alive.1)
  ]
