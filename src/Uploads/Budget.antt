-- ===== src/Uploads/Budget.antt =====
-- UploadQuotaService as the documents service relies on it: the windows of a process at a time, which
-- fill the interface `Quota`.
use itc_sharing_backend.Base.{
  ℕ, ◌+◌, ◌-◌, ◌≡◌, ◌≤◌, refl, sym, ◌∙◌, Bool, true, false, Option, none, some, ◌==◌, arith,
  if◌then◌else◌, Bool-cases, inl, inr,
}
use itc_sharing_backend.RateLimit.Quota.{
  QuotaDecision, Window, Windows, set_window, live_window, consume_window, consume_locally,
  store_window, refund_locally,
}
use itc_sharing_backend.Uploads.Types.{Quota}

abbrev bytes_of : Option Window → ℕ
bytes_of none = 0
bytes_of (some w) = w.bytes

module _ (max_bytes window_ms now : ℕ) where
  abbrev pub used_now : Windows → ℕ → ℕ
  used_now ws v = bytes_of (live_window now (ws v))

  abbrev pub consume_now : ℕ → ℕ → Windows → Bool × Windows
  consume_now u n ws =
      let out = consume_locally max_bytes window_ms now u n ws in ((out.0).allowed, out.1)

  -- One window, live or not, through a call.
  abbrev spent : ℕ → Option Window → QuotaDecision × Option Window
  spent n o = consume_window max_bytes window_ms now n (live_window now o)

  abbrev kept_or : Option Window → Option Window → Option Window
  kept_or o none = o
  kept_or o (some w) = some w

  consume_now-at :
      (u n : ℕ) (ws : Windows) (v : ℕ)
      → ((consume_now u n ws).0 ≡ ((spent n (ws u)).0).allowed)
        × ((consume_now u n ws).1 v ≡ (if v == u then kept_or (ws u) (spent n (ws u)).1 else ws v))
  unfolding consume_locally store_window
  consume_now-at u n ws v = by_window (spent n (ws u))
    where
      same : (if v == u then ws u else ws v) ≡ ws v
      same = elim (Bool-cases (v == u)) [
        | inl e ↦ let at : v ≡ u = ground arith in rw (e, at) refl
        | inr e ↦ rw e refl
      ]

      by_window :
          (out : QuotaDecision × Option Window)
          → (((store_window u ws out).0).allowed ≡ (out.0).allowed)
            × ((store_window u ws out).1 v ≡ (if v == u then kept_or (ws u) out.1 else ws v))
      by_window (d, none) = (refl, sym same)
      by_window (d, some w) = (refl, refl)

  pub spent-refused :
      (n : ℕ) (o : Option Window)
      → ((spent n o).0).allowed ≡ false
      → bytes_of (live_window now (kept_or o (spent n o).1)) ≡ bytes_of (live_window now o)
  unfolding consume_window
  spent-refused n none h = ground arith
  spent-refused n (some w) h = ground arith

  pub spent-accepted :
      (n : ℕ) (o : Option Window)
      → 1 ≤ window_ms
      → ((spent n o).0).allowed ≡ true
      → bytes_of (live_window now (kept_or o (spent n o).1)) ≡ bytes_of (live_window now o) + n
  unfolding consume_window
  spent-accepted n none pos h = ground arith
  spent-accepted n (some w) pos h = ground arith

  pub refused :
      (u n : ℕ) (ws : Windows) (v : ℕ)
      → (consume_now u n ws).0 ≡ false
      → used_now (consume_now u n ws).1 v ≡ used_now ws v
  refused u n ws v h =
      let (a, w) = consume_now-at u n ws v in
      rw w (elim (Bool-cases (v == u)) [
        | inl e ↦ let at : v ≡ u = ground arith in rw (e, at) (spent-refused n (ws u) (sym a ∙ h))
        | inr e ↦ rw e refl
      ])

  pub accepted :
      1 ≤ window_ms
      → (u n : ℕ) (ws : Windows) (v : ℕ) → (consume_now u n ws).0 ≡ true
      → used_now (consume_now u n ws).1 v ≡ used_now ws v + (if v == u then n else 0)
  accepted pos u n ws v h =
      let (a, w) = consume_now-at u n ws v in
      rw w (elim (Bool-cases (v == u)) [
        | inl e ↦
            let at : v ≡ u = ground arith in rw (e, at) (spent-accepted n (ws u) pos (sym a ∙ h))
        | inr e ↦ rw e (omega arith)
      ])

  pub refunded :
      (u n : ℕ) (ws : Windows) (v : ℕ)
      → used_now (refund_locally u n ws) v ≡ used_now ws v - (if v == u then n else 0)
  unfolding refund_locally
  refunded u n ws v = at (ws u) refl
    where
      at :
          (o : Option Window)
          → ws u ≡ o
          → used_now
              (elim o [
                | none ↦ ws
                | some w ↦
                    set_window u (some (record { bytes = w.bytes - n; reset_at = w.reset_at })) ws
              ])
              v
            ≡ used_now ws v - (if v == u then n else 0)
      at none e = elim (Bool-cases (v == u)) [
        | inl t ↦ let same : v ≡ u = ground arith in rw (t, same, e) (omega arith)
        | inr t ↦ rw t (omega arith)
      ]
      at (some w) e = elim (Bool-cases (v == u)) [
        | inl t ↦ let same : v ≡ u = ground arith in rw (t, same, e) (ground arith)
        | inr t ↦ rw t (omega arith)
      ]

  -- A process is a budget, at any time, where windows last.
  abbrev pub local_quota : 1 ≤ window_ms → Quota
  local_quota pos = record {
    State = Windows;
    used = used_now;
    consume = consume_now;
    refund = refund_locally;
    refused_used = refused;
    accepted_used = accepted pos;
    refund_used = refunded;
  }
