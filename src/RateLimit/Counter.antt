-- ===== src/RateLimit/Counter.antt =====
-- An abstract counter for the script INCREMENT of redis-throttler.storage.ts, and the relation
-- of a bucket to it. The block is as long as the window, as the guard has it.
use itc_sharing_backend.Base.{
  ℕ, ◌+◌, ◌-◌, ◌≡◌, refl, ◌∙◌, ◌<◌, ◌≤◌, ◌≢◌, Bool, true, false, not, Option, none, some, ltb, leb,
  ◌==◌, arith, Bool-cases, inl, inr, if◌then◌else◌,
}
use itc_sharing_backend.RateLimit.Redis.{Redis, throttle, blocked, Entry}
use itc_sharing_backend.RateLimit.Throttle.{Reply, judge, bound_hits, increment_script, held_reply}

pub data Counter : Type 0 where
  idle : Counter
  counting : ℕ → ℕ → Counter
  shut : ℕ → Counter

-- A count of `h` in a window until `u`, or a block.
abbrev pub count_to : ℕ → ℕ → ℕ → ℕ → Bool × Counter
count_to limit h u block = if ltb limit h then (false, shut block) else (true, counting h u)

abbrev pub tick : ℕ → ℕ → ℕ → Counter → Bool × Counter
tick limit ttl now idle = count_to limit 1 (now + ttl) (now + ttl)
tick limit ttl now (counting h t) = count_to limit (h + 1) t (now + ttl)
tick limit ttl now (shut t) = (false, shut t)

abbrev pub wait : ℕ → Counter → Counter
wait now idle = idle
wait now (counting h t) = if leb t now then idle else counting h t
wait now (shut t) = if leb t now then idle else shut t

-- Hits that are gone when the block is.
abbrev pub EndsBy : ℕ → Option Entry → Type 0
EndsBy t none = Unit
EndsBy t (some e) = (u : ℕ) × (e.expires_at ≡ some u) × (u ≤ t)

module _ (r : Redis) (key ttl : ℕ) where
  pub data IsCounter (now : ℕ) (s : r.Keys) : Counter → Type 0 where
    is_idle :
        r.view s (blocked key) now ≡ none
        → r.view s (throttle key) now ≡ none
        → IsCounter now s idle
    is_counting :
        (h t : ℕ)
        → r.view s (blocked key) now ≡ none
        → r.view s (throttle key) now ≡ some (record { value = h; expires_at = some t })
        → 0 < h
        → now < t
        → t ≤ now + ttl
        → IsCounter now s (counting h t)
    is_shut :
        (t : ℕ)
        → r.view s (blocked key) now ≡ some (record { value = 1; expires_at = some t })
        → now < t
        → EndsBy t (r.view s (throttle key) now)
        → IsCounter now s (shut t)

apart_keys : (k : ℕ) → throttle k ≢ blocked k
apart_keys k e = cc

apart_blocks : (k : ℕ) → blocked k ≢ throttle k
apart_blocks k e = cc

module _ (r : Redis) (key ttl limit now : ℕ) (pos : 0 < ttl) where
  -- The state of the counter, and whether the reply agrees with it.
  pub record Follows (ok : Bool) (c : Counter) (out : Reply × r.Keys) : Type 0 where
    pub reply : (out.0).is_blocked ≡ not ok
    pub state : IsCounter r key ttl now out.1 c

  judge-Follows :
      (h u x : ℕ) (s : r.Keys)
      → r.view s (blocked key) now ≡ none
      → r.view s (throttle key) now ≡ some (record { value = h; expires_at = some u })
      → 0 < h
      → now < u
      → u ≤ now + ttl
      → Follows
          (not (ltb limit h))
          (if ltb limit h then shut (now + ttl) else counting h u)
          (judge r now key ttl limit ttl h x s)
  unfolding judge
  judge-Follows h u x s free held counted live within = elim (Bool-cases (ltb limit h)) [
    | inl over ↦ rw over (record {
      reply = refl;
      state = is_shut (now + ttl) (r.view_set_px now (blocked key) 1 ttl s pos) (omega arith) (
          rw (r.other_set_px now (blocked key) (throttle key) 1 ttl s (apart_blocks key), held)
            (u, refl, within));
    })
    | inr fits ↦
        rw fits (record { reply = refl; state = is_counting h u free held counted live within })
  ]

  first_hit :
      (s : r.Keys)
      → r.view s (blocked key) now ≡ none
      → r.view s (throttle key) now ≡ none
      → increment_script r now key ttl limit ttl s
        ≡ judge r now key ttl limit ttl 1 ttl
            (r.pexpire now (throttle key) ttl (r.incr_by now (throttle key) 1 s))
  unfolding increment_script bound_hits
  first_hit s free held = rw (increment_script, free, bound_hits, r.view_incr_by, held) refl

  next_hit :
      (s : r.Keys) (h t : ℕ)
      → r.view s (blocked key) now ≡ none
      → r.view s (throttle key) now ≡ some (record { value = h; expires_at = some t })
      → 0 < h
      → increment_script r now key ttl limit ttl s
        ≡ judge r now key ttl limit ttl (h + 1) (t - now) (r.incr_by now (throttle key) 1 s)
  unfolding increment_script bound_hits
  next_hit s h t free held counted =
      let more : ((h + 1) == 1) ≡ false = ground arith in
      rw (increment_script, free, bound_hits, r.view_incr_by, held, more) refl

  blocked_hit :
      (s : r.Keys) (t : ℕ)
      → r.view s (blocked key) now ≡ some (record { value = 1; expires_at = some t })
      → now < t
      → increment_script r now key ttl limit ttl s
        ≡ (held_reply r now key ttl limit ttl (t - now) s, s)
  unfolding increment_script
  blocked_hit s t held live =
      let alive : ltb 0 (t - now) ≡ true = ground arith in rw (increment_script, held, alive) refl

  -- A tick of the counter, split by its test.
  tick_at :
      (h u : ℕ) (out : Reply × r.Keys)
      → Follows (not (ltb limit h)) (if ltb limit h then shut (now + ttl) else counting h u) out
      → Follows (count_to limit h u (now + ttl)).0 (count_to limit h u (now + ttl)).1 out
  tick_at h u out f = elim (Bool-cases (ltb limit h)) [
    | inl over ↦ let g : Follows false (shut (now + ttl)) out = rw over at f in rw over g
    | inr fits ↦ let g : Follows true (counting h u) out = rw fits at f in rw fits g
  ]

  -- The script INCREMENT does on a bucket what the abstract counter does: where the bucket stands
  -- for a counter at a time, the reply is blocked exactly when the counter does not admit the
  -- request, and the bucket stands for the next counter, where the block is as long as the window
  -- and that is positive.
  pub increment-Follows :
      (s : r.Keys) (c : Counter)
      → IsCounter r key ttl now s c
      → Follows
          (tick limit ttl now c).0
          (tick limit ttl now c).1
          (increment_script r now key ttl limit ttl s)
  increment-Follows s c (is_idle free none_held) = rw (first_hit s free none_held) (
      tick_at 1 (now + ttl) _ (
        judge-Follows 1 (now + ttl) ttl _
          (r.other_pexpire now (throttle key) (blocked key) ttl _ (apart_keys key)
            ∙ r.other_incr_by now (throttle key) (blocked key) 1 s (apart_keys key)
            ∙ free)
          (r.view_pexpire now (throttle key) ttl _ (record { value = 1; expires_at = none }) pos
            (r.view_incr_by now (throttle key) 1 s ∙ rw none_held refl))
          (omega arith) (omega arith) (omega arith)))
  increment-Follows s c (is_counting h t free held counted live within) =
      rw (next_hit s h t free held counted) (
        tick_at (h + 1) t _ (
          judge-Follows (h + 1) t (t - now) _
            (r.other_incr_by now (throttle key) (blocked key) 1 s (apart_keys key) ∙ free)
            (r.view_incr_by now (throttle key) 1 s ∙ rw held refl) (omega arith) live within))
  increment-Follows s c (is_shut t held live gone) =
      rw (blocked_hit s t held live) (record { reply = refl; state = is_shut t held live gone })
