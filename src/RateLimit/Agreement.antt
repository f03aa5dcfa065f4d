-- ===== src/RateLimit/Agreement.antt =====
-- UploadQuotaService.consumeLocally on the map of windows, beside the script CONSUME.
use itc_sharing_backend.Base.{
  ℕ, ◌+◌, ◌≡◌, refl, ◌<◌, false, Option, none, some, ltb, leb, ◌∙◌, ==_refl, arith, Bool-cases, inl,
  inr,
}
use itc_sharing_backend.RateLimit.Redis.{Redis, quota}
use itc_sharing_backend.RateLimit.Quota.{
  QuotaDecision, Window, Windows, live_window, consume_shared, consume_window, consume_locally,
  store_window,
}
use itc_sharing_backend.RateLimit.Scripts.{IsSame, IsCounting, window_agrees, IsSame-after}

-- The window that a user has after a call, and the answer, in the process.
store_window-decision :
    (user : ℕ) (ws : Windows) (out : QuotaDecision × Option Window)
    → (store_window user ws out).0 ≡ out.0
unfolding store_window
store_window-decision user ws (d, none) = refl
store_window-decision user ws (d, some w) = refl

abbrev IsOpen : ℕ → Option Window → Type 0
IsOpen now none = Unit
IsOpen now (some w) = now < w.reset_at

store_window-kept :
    (now user : ℕ) (ws : Windows) (out : QuotaDecision × Option Window)
    → (out.1 ≡ none → live_window now (ws user) ≡ none)
    → IsOpen now out.1
    → live_window now ((store_window user ws out).1 user) ≡ out.1
unfolding store_window
store_window-kept now user ws (d, none) empty live = empty refl
store_window-kept now user ws (d, some w) empty live =
    let open_still : leb w.reset_at now ≡ false = ground arith in rw (==_refl user, open_still) refl

pub data IsLive (now : ℕ) : Option Window → Type 0 where
  no_window : IsLive now none
  a_window : (w : Window) → now < w.reset_at → IsLive now (some w)

live_window-IsLive : (now : ℕ) (w : Option Window) → IsLive now (live_window now w)
live_window-IsLive now none = no_window
live_window-IsLive now (some w) = elim (Bool-cases (leb w.reset_at now)) [
  | inl e ↦ rw e no_window
  | inr e ↦ rw e (a_window w (ground arith))
]

module _ (max_bytes window_ms now bytes : ℕ) where
  out_empty :
      {w : Option Window}
      → IsLive now w
      → (consume_window max_bytes window_ms now bytes w).1 ≡ none
      → w ≡ none
  unfolding consume_window
  out_empty no_window h = refl
  out_empty (a_window w live) h = absurd (ground arith)

  out-IsOpen :
      {w : Option Window}
      → 0 < window_ms
      → IsLive now w
      → IsOpen now (consume_window max_bytes window_ms now bytes w).1
  unfolding consume_window
  out-IsOpen pos no_window = elim (Bool-cases (ltb max_bytes bytes)) [
    | inl e ↦ rw e tt
    | inr e ↦ rw e (omega arith)
  ]
  out-IsOpen pos (a_window w live) = elim (Bool-cases (ltb max_bytes (w.bytes + bytes))) [
    | inl e ↦ rw e live
    | inr e ↦ rw e live
  ]

module _ (r : Redis) (max_bytes window_ms now user bytes : ℕ) (s : r.Keys) (ws : Windows) where
  abbrev pub IsSynchronous : r.Keys → Windows → Type 0
  IsSynchronous keys windows =
      IsSame now (live_window now (windows user)) (r.view keys (quota user) now)

  -- Where the process and Redis hold the same window of a user and the window length is positive,
  -- consumeLocally and the script CONSUME answer alike; and where the count in Redis is absent or
  -- positive, they hold the same window afterwards.
  pub consume_agrees :
      0 < window_ms
      → IsSynchronous s ws
      → ((consume_locally max_bytes window_ms now user bytes ws).0
          ≡ (consume_shared r max_bytes window_ms now user bytes s).0)
        × (IsCounting (r.view s (quota user) now)
            → IsSynchronous
                (consume_shared r max_bytes window_ms now user bytes s).1
                (consume_locally max_bytes window_ms now user bytes ws).1)
  unfolding consume_locally
  consume_agrees pos h =
      let live = live_window-IsLive now (ws user) in
      (
        store_window-decision user ws _
            ∙ window_agrees r max_bytes window_ms now user bytes s refl h pos,
        λ counting.
            rw
              (store_window-kept now user ws
                (consume_window max_bytes window_ms now bytes (live_window now (ws user)))
                (out_empty max_bytes window_ms now bytes live)
                (out-IsOpen max_bytes window_ms now bytes pos live))
              (IsSame-after r max_bytes window_ms now user bytes s refl h counting pos),
      )
