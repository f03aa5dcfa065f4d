-- ===== src/RateLimit/Scripts.antt =====
-- The script CONSUME beside consumeLocally, on one window of upload-quota.service.ts.
use itc_sharing_backend.Base.{
  ℕ, ◌+◌, max, ◌≡◌, refl, subst, ◌<◌, true, false, Option, none, some, ltb, ◌==◌, ◌||◌, ==_refl,
  arith, Bool-cases, inl, inr,
}
use itc_sharing_backend.RateLimit.Redis.{Redis, quota, Entry, value_of, expiry_of, pttl}
use itc_sharing_backend.RateLimit.Quota.{
  Window, decide, allow, or_window, ceil_seconds, used_at, bound_window, consume_shared,
  consume_window,
}

-- A user's window in the process and in Redis, at a time.
pub data IsSame (now : ℕ) : Option Window → Option Entry → Type 0 where
  neither : IsSame now none none
  both :
      (b t : ℕ)
      → now < t
      → IsSame now
          (some (record { bytes = b; reset_at = t }))
          (some (record { value = b; expires_at = some t }))

-- A window that has not been refunded down to nothing.
abbrev pub IsCounting : Option Entry → Type 0
IsCounting none = Unit
IsCounting (some e) = 0 < e.value

ceil_pos : (w : ℕ) → 0 < w → max 1 (ceil_seconds w) ≡ ceil_seconds w
ceil_pos w pos = omega arith

module _ (r : Redis) (max_bytes window_ms now user bytes : ℕ) where
  bound_allows :
      (s : r.Keys)
      → (bound_window r max_bytes window_ms now user bytes s).0
        ≡ allow max_bytes window_ms (used_at r max_bytes window_ms now user s)
  unfolding bound_window
  bound_allows s =
      elim (Bool-cases (
        used_at r max_bytes window_ms now user s == bytes
        || (elim (pttl now (r.view s (quota user) now)) [ none ↦ true | some t ↦ false ]))) [
          | inl e ↦ rw (bound_window, e) refl
          | inr e ↦ rw (bound_window, e) refl
        ]

  module _ (s : r.Keys) (e : Option Entry) (held : r.view s (quota user) now ≡ e) where
    refuses :
        ltb max_bytes (value_of e + bytes) ≡ true
        → (consume_shared r max_bytes window_ms now user bytes s).0
          ≡ decide max_bytes false (value_of e) (or_window window_ms (pttl now e))
    unfolding consume_shared
    refuses over = rw (held, over) refl

    allows :
        ltb max_bytes (value_of e + bytes) ≡ false
        → (consume_shared r max_bytes window_ms now user bytes s).0
          ≡ allow max_bytes window_ms (value_of e + bytes)
    unfolding consume_shared
    allows fits = rw (held, fits, bound_allows, r.view_incr_by, held) refl

  pub window_agrees :
      {w : Option Window} (s : r.Keys) {e : Option Entry}
      → r.view s (quota user) now ≡ e
      → IsSame now w e
      → 0 < window_ms
      → (consume_window max_bytes window_ms now bytes w).0
        ≡ (consume_shared r max_bytes window_ms now user bytes s).0
  unfolding consume_window
  window_agrees s held neither pos =
      let z : 0 + bytes ≡ bytes = omega arith in
      elim (Bool-cases (ltb max_bytes bytes)) [
        | inl over ↦ rw (over, refuses s none held (rw z over), ceil_pos window_ms pos) refl
        | inr fits ↦ rw (fits, allows s none held (rw z fits), z) refl
      ]
  window_agrees s held (both b t live) pos = elim (Bool-cases (ltb max_bytes (b + bytes))) [
    | inl over ↦ rw (over, refuses s _ held over) refl
    | inr fits ↦ rw (fits, allows s _ held fits) refl
  ]

  bound_first :
      (s : r.Keys) (e : Entry)
      → r.view s (quota user) now ≡ some e
      → (e.value == bytes) ≡ true
      → 0 < window_ms
      → r.view (bound_window r max_bytes window_ms now user bytes s).1 (quota user) now
        ≡ some (record { value = e.value; expires_at = some (now + window_ms) })
  unfolding bound_window
  bound_first s e held first pos =
      rw (held, first) (r.view_pexpire now (quota user) window_ms s e pos held)

  bound_later :
      (s : r.Keys) (v t : ℕ)
      → r.view s (quota user) now ≡ some (record { value = v; expires_at = some t })
      → (v == bytes) ≡ false
      → (bound_window r max_bytes window_ms now user bytes s).1 ≡ s
  unfolding bound_window
  bound_later s v t held more = rw (held, more) refl

  module _ (s : r.Keys) (e : Option Entry) (held : r.view s (quota user) now ≡ e) where
    refused_keys :
        ltb max_bytes (value_of e + bytes) ≡ true
        → (consume_shared r max_bytes window_ms now user bytes s).1 ≡ s
    unfolding consume_shared
    refused_keys over = rw (held, over) refl

    allowed_keys :
        ltb max_bytes (value_of e + bytes) ≡ false
        → (consume_shared r max_bytes window_ms now user bytes s).1
          ≡ (bound_window r max_bytes window_ms now user bytes
              (r.incr_by now (quota user) bytes s)).1
    unfolding consume_shared
    allowed_keys fits = rw (held, fits) refl

    added :
        r.view (r.incr_by now (quota user) bytes s) (quota user) now
        ≡ some (record { value = value_of e + bytes; expires_at = expiry_of e })
    added =
        subst
          (λ o.
            r.view (r.incr_by now (quota user) bytes s) (quota user) now
            ≡ some (record { value = value_of o + bytes; expires_at = expiry_of o }))
          held (r.view_incr_by now (quota user) bytes s)

  -- Where bytes are counted already, an addition leaves the window's end alone.
  pub IsSame-after :
      {w : Option Window} (s : r.Keys) {e : Option Entry}
      → r.view s (quota user) now ≡ e
      → IsSame now w e
      → IsCounting e
      → 0 < window_ms
      → IsSame now
          (consume_window max_bytes window_ms now bytes w).1
          (r.view (consume_shared r max_bytes window_ms now user bytes s).1 (quota user) now)
  unfolding consume_window
  IsSame-after s held neither counting pos =
      let z : 0 + bytes ≡ bytes = omega arith in
      elim (Bool-cases (ltb max_bytes bytes)) [
        | inl over ↦ rw (over, refused_keys s none held (rw z over), held) neither
        | inr fits ↦
            let first : ((0 + bytes) == bytes) ≡ true = rw z (==_refl bytes) in
            rw
              (
                fits,
                allowed_keys s none held (rw z fits),
                bound_first _ _ (added s none held) first pos,
                z,
              )
              (both bytes (now + window_ms) (omega arith))
      ]
  IsSame-after s held (both b t live) counting pos = elim (Bool-cases (ltb max_bytes (b + bytes))) [
    | inl over ↦ rw (over, refused_keys s _ held over, held) (both b t live)
    | inr fits ↦
        let more : ((b + bytes) == bytes) ≡ false = ground arith in
        rw
          (
            fits,
            allowed_keys s _ held fits,
            bound_later _ (b + bytes) t (added s _ held) more,
            added s _ held,
          )
          (both (b + bytes) t live)
  ]
