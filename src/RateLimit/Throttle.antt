-- ===== src/RateLimit/Throttle.antt =====
-- RedisThrottlerStorage: the script INCREMENT, and what RateLimitGuard.canActivate makes of its
-- answers over the rules of a tier. A bucket is the number that stands for the key of a rule.
use itc_sharing_backend.Base.{
  ℕ, max, Bool, true, false, ◌||◌, Option, none, some, List, [], ◌∷◌, ltb, ◌==◌, if◌then◌else◌,
}
use itc_sharing_backend.RateLimit.Redis.{Redis, throttle, blocked, value_of, pttl}
use itc_sharing_backend.RateLimit.Quota.{ceil_seconds}

pub record Reply : Type 0 where
  pub hits : ℕ
  pub ttl : ℕ
  pub is_blocked : Bool
  pub block_ttl : ℕ

-- The answer as the guard reads it, in seconds.
pub record StorageRecord : Type 0 where
  pub total_hits : ℕ
  pub time_to_expire : ℕ
  pub is_blocked : Bool
  pub time_to_block_expire : ℕ

pub record Rule : Type 0 where
  pub limit : ℕ
  pub ttl_ms : ℕ
  pub bucket : ℕ

abbrev pub or_zero : Option ℕ → ℕ
or_zero none = 0
or_zero (some n) = n

module _ (r : Redis) (now key ttl_ms limit block_ms : ℕ) where
  -- The block is alive: nothing is counted.
  abbrev pub held_reply : ℕ → r.Keys → Reply
  held_reply block_ttl s = record {
    hits = max (value_of (r.view s (throttle key) now)) limit;
    ttl = or_zero (pttl now (r.view s (throttle key) now));
    is_blocked = true;
    block_ttl = block_ttl;
  }

  -- The end of the script, on the hits that it counted and their time to live.
  unfoldable pub judge : ℕ → ℕ → r.Keys → Reply × r.Keys
  judge hits ttl s =
      if ltb limit hits
      then (
        record { hits = hits; ttl = ttl; is_blocked = true; block_ttl = block_ms },
        r.set_px now (blocked key) 1 block_ms s,
      )
      else (record { hits = hits; ttl = ttl; is_blocked = false; block_ttl = 0 }, s)

  -- After INCR: the expiry of a first or of an unbounded count is set.
  unfoldable pub bound_hits : r.Keys → Reply × r.Keys
  unfolding judge
  bound_hits s =
      let hits = value_of (r.view s (throttle key) now) in
      let ttl = pttl now (r.view s (throttle key) now) in
      if hits == 1 || (elim ttl [ none ↦ true | some t ↦ false ])
      then judge hits ttl_ms (r.pexpire now (throttle key) ttl_ms s)
      else judge hits (or_zero ttl) s

  unfoldable pub increment_script : r.Keys → Reply × r.Keys
  unfolding bound_hits
  increment_script s = elim (pttl now (r.view s (blocked key) now)) [
    | none ↦ bound_hits (r.incr_by now (throttle key) 1 s)
    | some b ↦
        let counted = bound_hits (r.incr_by now (throttle key) 1 s) in
        if ltb 0 b then (held_reply b s, s) else counted
  ]

  unfoldable pub increment : r.Keys → StorageRecord × r.Keys
  unfolding increment_script
  increment s =
      let out = increment_script s in
      (
        record {
          total_hits = (out.0).hits;
          time_to_expire = ceil_seconds (out.0).ttl;
          is_blocked = (out.0).is_blocked;
          time_to_block_expire = ceil_seconds (out.0).block_ttl;
        },
        out.1,
      )

module _ (r : Redis) (now : ℕ) where
  -- `canActivate` over the rules: the first that is passed its limit rejects, and the rest are not
  -- counted.
  unfoldable pub can_activate : List Rule → r.Keys → Option Rule × r.Keys
  unfolding increment
  can_activate [] s = (none, s)
  can_activate (rule ∷ rules) s =
      let out = increment r now rule.bucket rule.ttl_ms rule.limit rule.ttl_ms s in
      let rest = can_activate rules out.1 in
      if (out.0).is_blocked || ltb rule.limit (out.0).total_hits then (some rule, out.1) else rest
