-- ===== src/RateLimit/Pruning.antt =====
-- Proofs on UploadQuotaService.prune.
use itc_sharing_backend.Base.{
  ℕ, ◌≡◌, refl, ap, ◌∙◌, ◌≤◌, true, Option, none, some, leb, arith, Bool-cases, inl, inr,
}
use itc_sharing_backend.RateLimit.Quota.{
  QuotaDecision, Window, Windows, live_window, consume_window, consume_locally, store_window, prune,
}

live_window-live_window :
    (now later : ℕ) (w : Option Window)
    → now ≤ later
    → live_window later (live_window now w) ≡ live_window later w
live_window-live_window now later none le = refl
live_window-live_window now later (some w) le = elim (Bool-cases (leb w.reset_at now)) [
  | inl e ↦ let gone : leb w.reset_at later ≡ true = ground arith in rw (e, gone) refl
  | inr e ↦ rw e refl
]

store_window-decides :
    (user : ℕ) (ws vs : Windows) (out : QuotaDecision × Option Window)
    → (store_window user ws out).0 ≡ (store_window user vs out).0
unfolding store_window
store_window-decides user ws vs (d, none) = refl
store_window-decides user ws vs (d, some w) = refl

-- Dropping the expired windows of the process at a time changes no answer of consumeLocally at
-- that time or later.
pub consume_locally-prune :
    (max_bytes window_ms now later user bytes : ℕ) (ws : Windows)
    → now ≤ later
    → (consume_locally max_bytes window_ms later user bytes (prune now ws)).0
      ≡ (consume_locally max_bytes window_ms later user bytes ws).0
unfolding consume_locally prune
consume_locally-prune max_bytes window_ms now later user bytes ws le =
    ap
      (λ w. (store_window user (prune now ws) (consume_window max_bytes window_ms later bytes w)).0)
      (live_window-live_window now later (ws user) le)
    ∙ store_window-decides user (prune now ws) ws
        (consume_window max_bytes window_ms later bytes (live_window later (ws user)))
