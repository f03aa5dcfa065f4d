-- ===== src/RateLimit/Quota.antt =====
-- UploadQuotaService: the byte budget of a user in Redis (the scripts CONSUME and REFUND) and in the
-- process (consumeLocally, refund, prune).
use itc_sharing_backend.Base.{
  ℕ, ◌+◌, ◌-◌, ◌/◌, max, Bool, true, false, ◌||◌, Option, none, some, ltb, leb, ◌==◌, if◌then◌else◌,
}
use itc_sharing_backend.RateLimit.Redis.{Redis, quota, value_of, pttl}

pub record QuotaDecision : Type 0 where
  pub allowed : Bool
  pub retry_after_seconds : ℕ
  pub remaining : ℕ
  pub limit : ℕ

-- `Math.ceil(ms / 1000)`
abbrev pub ceil_seconds : ℕ → ℕ
ceil_seconds ms = (ms + 999) / 1000

abbrev pub or_window : ℕ → Option ℕ → ℕ
or_window window_ms none = window_ms
or_window window_ms (some ttl) = ttl

-- What `consume` makes of the script's answer.
abbrev pub decide : ℕ → Bool → ℕ → ℕ → QuotaDecision
decide max_bytes allowed used ttl = record {
  allowed = allowed;
  retry_after_seconds = if allowed then 0 else max 1 (ceil_seconds ttl);
  remaining = max_bytes - used;
  limit = max_bytes;
}

module _ (r : Redis) (max_bytes window_ms : ℕ) where
  abbrev pub used_at : ℕ → ℕ → r.Keys → ℕ
  used_at now user s = value_of (r.view s (quota user) now)

  -- The end of the script CONSUME, where the bytes have been added: the expiry of a first or of an
  -- unbounded count is set.
  unfoldable pub bound_window : ℕ → ℕ → ℕ → r.Keys → QuotaDecision × r.Keys
  bound_window now user bytes s =
      let ttl = pttl now (r.view s (quota user) now) in
      if used_at now user s == bytes || (elim ttl [ none ↦ true | some t ↦ false ])
      then (
        decide max_bytes true (used_at now user s) window_ms,
        r.pexpire now (quota user) window_ms s,
      )
      else (decide max_bytes true (used_at now user s) (or_window window_ms ttl), s)

  unfoldable pub consume_shared : ℕ → ℕ → ℕ → r.Keys → QuotaDecision × r.Keys
  consume_shared now user bytes s =
      if ltb max_bytes (used_at now user s + bytes)
      then (
        decide max_bytes false (used_at now user s)
            (or_window window_ms (pttl now (r.view s (quota user) now))),
        s,
      )
      else bound_window now user bytes (r.incr_by now (quota user) bytes s)

  -- The script REFUND.
  unfoldable pub refund_shared : ℕ → ℕ → ℕ → r.Keys → r.Keys
  refund_shared now user bytes s =
      if used_at now user s == 0
      then s
      else r.set_keep_ttl now (quota user) (used_at now user s - bytes) s

pub record Window : Type 0 where
  pub bytes : ℕ
  pub reset_at : ℕ

-- The map of a process, from users to windows.
abbrev pub Windows : Type 0
Windows = ℕ → Option Window

abbrev pub set_window : ℕ → Option Window → Windows → Windows
set_window user w ws u = if u == user then w else ws u

-- The window of a user that has not been reset by now.
abbrev pub live_window : ℕ → Option Window → Option Window
live_window now none = none
live_window now (some w) = if leb w.reset_at now then none else some w

-- The window goes into the map where there is one.
unfoldable pub store_window : ℕ → Windows → QuotaDecision × Option Window → QuotaDecision × Windows
store_window user ws (d, none) = (d, ws)
store_window user ws (d, some w) = (d, set_window user (some w) ws)

module _ (max_bytes window_ms : ℕ) where
  abbrev pub allow : ℕ → QuotaDecision
  allow used = record {
    allowed = true;
    retry_after_seconds = 0;
    remaining = max_bytes - used;
    limit = max_bytes;
  }

  abbrev pub refuse : ℕ → ℕ → QuotaDecision
  refuse seconds used = record {
    allowed = false;
    retry_after_seconds = seconds;
    remaining = max_bytes - used;
    limit = max_bytes;
  }

  -- `consumeLocally` on the window that it found.
  unfoldable pub consume_window : ℕ → ℕ → Option Window → QuotaDecision × Option Window
  consume_window now bytes none =
      if ltb max_bytes bytes
      then (refuse (ceil_seconds window_ms) 0, none)
      else (allow bytes, some (record { bytes = bytes; reset_at = now + window_ms }))
  consume_window now bytes (some w) =
      if ltb max_bytes (w.bytes + bytes)
      then (refuse (max 1 (ceil_seconds (w.reset_at - now))) w.bytes, some w)
      else (
        allow (w.bytes + bytes),
        some (record { bytes = w.bytes + bytes; reset_at = w.reset_at }),
      )

  unfoldable pub consume_locally : ℕ → ℕ → ℕ → Windows → QuotaDecision × Windows
  unfolding consume_window store_window
  consume_locally now user bytes ws =
      store_window user ws (consume_window now bytes (live_window now (ws user)))

-- The end of `refund`, in the process.
unfoldable pub refund_locally : ℕ → ℕ → Windows → Windows
refund_locally user bytes ws = elim (ws user) [
  | none ↦ ws
  | some w ↦ set_window user (some (record { bytes = w.bytes - bytes; reset_at = w.reset_at })) ws
]

unfoldable pub prune : ℕ → Windows → Windows
prune now ws user = live_window now (ws user)

-- The two places that count, of which a call uses Redis when it answers.
pub record Budget (r : Redis) : Type 0 where
  pub shared : r.Keys
  pub local : Windows

module _ (r : Redis) (max_bytes window_ms : ℕ) where
  unfoldable pub consume : Bool → ℕ → ℕ → ℕ → Budget r → QuotaDecision × Budget r
  consume true now user bytes b =
      let out = consume_shared r max_bytes window_ms now user bytes b.shared in
      (out.0, record b { shared = out.1 })
  consume false now user bytes b =
      let out = consume_locally max_bytes window_ms now user bytes b.local in
      (out.0, record b { local = out.1 })

  unfoldable pub refund : Bool → ℕ → ℕ → ℕ → Budget r → Budget r
  refund true now user bytes b = record b {
    shared = refund_shared r max_bytes window_ms now user bytes b.shared;
  }
  refund false now user bytes b = record b { local = refund_locally user bytes b.local }
