-- ===== src/RateLimit/Redis.antt =====
-- What the two Lua scripts use of Redis, as a parameter: the commands, and what the documentation
-- says of them. A script runs to completion before any other command, so it is a function on the
-- keys; `view` is what a key holds at a time, and an expired key holds nothing.
use itc_sharing_backend.Base.{
  ℕ, ◌+◌, ◌-◌, ◌≡◌, ◌≢◌, ◌≤◌, ◌<◌, Bool, false, Option, none, some, leb, if◌then◌else◌,
}

-- The keys that the services name: a user's upload window, and a bucket's hits and block.
pub data Key : Type 0 where
  quota throttle blocked : ℕ → Key

pub record Entry : Type 0 where
  pub value : ℕ
  pub expires_at : Option ℕ

abbrev pub value_of : Option Entry → ℕ
value_of none = 0
value_of (some e) = e.value

abbrev pub expiry_of : Option Entry → Option ℕ
expiry_of none = none
expiry_of (some e) = e.expires_at

abbrev pub is_past : ℕ → Option ℕ → Bool
is_past now none = false
is_past now (some t) = leb t now

-- What is left of an entry at a later time.
abbrev pub lapse : ℕ → Option Entry → Option Entry
lapse now none = none
lapse now (some e) = if is_past now e.expires_at then none else some e

-- `PTTL`: the milliseconds left, and a negative answer where the key or its expiry is missing.
abbrev pub pttl : ℕ → Option Entry → Option ℕ
pttl now none = none
pttl now (some e) = elim (e.expires_at) [ none ↦ none | some t ↦ some (t - now) ]

pub record Redis : Type 1 where
  pub Keys : Type 0
  pub view : Keys → Key → ℕ → Option Entry
  pub incr_by : ℕ → Key → ℕ → Keys → Keys
  pub pexpire : ℕ → Key → ℕ → Keys → Keys
  pub set_keep_ttl : ℕ → Key → ℕ → Keys → Keys
  pub set_px : ℕ → Key → ℕ → ℕ → Keys → Keys
  pub view_incr_by :
      (now : ℕ) (k : Key) (n : ℕ) (s : Keys)
      → view (incr_by now k n s) k now
        ≡ some
            (record { value = value_of (view s k now) + n; expires_at = expiry_of (view s k now) })
  pub view_pexpire :
      (now : ℕ) (k : Key) (ms : ℕ) (s : Keys) (e : Entry)
      → 0 < ms
      → view s k now ≡ some e
      → view (pexpire now k ms s) k now
        ≡ some (record { value = e.value; expires_at = some (now + ms) })
  pub view_set_keep_ttl :
      (now : ℕ) (k : Key) (v : ℕ) (s : Keys)
      → view (set_keep_ttl now k v s) k now
        ≡ some (record { value = v; expires_at = expiry_of (view s k now) })
  pub view_set_px :
      (now : ℕ) (k : Key) (v ms : ℕ) (s : Keys)
      → 0 < ms
      → view (set_px now k v ms s) k now ≡ some (record { value = v; expires_at = some (now + ms) })
  pub view_later :
      (now later : ℕ) (k : Key) (s : Keys)
      → now ≤ later
      → view s k later ≡ lapse later (view s k now)
  pub other_incr_by :
      (now : ℕ) (k l : Key) (n : ℕ) (s : Keys)
      → k ≢ l
      → view (incr_by now k n s) l now ≡ view s l now
  pub other_pexpire :
      (now : ℕ) (k l : Key) (ms : ℕ) (s : Keys)
      → k ≢ l
      → view (pexpire now k ms s) l now ≡ view s l now
  pub other_set_px :
      (now : ℕ) (k l : Key) (v ms : ℕ) (s : Keys)
      → k ≢ l
      → view (set_px now k v ms s) l now ≡ view s l now
