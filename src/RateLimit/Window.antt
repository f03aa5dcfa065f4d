-- ===== src/RateLimit/Window.antt =====
-- Proofs on the script INCREMENT over sequences of requests.
use itc_sharing_backend.Base.{
  ℕ, ◌+◌, ◌≡◌, refl, sym, subst, ◌∙◌, ◌<◌, ◌≤◌, true, false, Option, none, some, List, [], ◌∷◌, ltb,
  leb, arith, Bool-cases, inl, inr, if◌then◌else◌, All, All-imp,
}
use itc_sharing_backend.RateLimit.Redis.{Redis, throttle, blocked, Entry, lapse, is_past}
use itc_sharing_backend.RateLimit.Throttle.{increment_script}
use itc_sharing_backend.RateLimit.Counter.{
  Counter, idle, counting, shut, EndsBy, IsCounter, is_idle, is_counting, is_shut, Follows,
  increment-Follows,
}

lapsed :
    (now t : ℕ) (v : ℕ)
    → t ≤ now
    → lapse now (some (record { value = v; expires_at = some t })) ≡ none
lapsed now t v le = let past : leb t now ≡ true = ground arith in rw past refl

lasting :
    (now t : ℕ) (v : ℕ)
    → now < t
    → lapse now (some (record { value = v; expires_at = some t }))
      ≡ some (record { value = v; expires_at = some t })
lasting now t v live = let past : leb t now ≡ false = ground arith in rw past refl

module _ (r : Redis) (key ttl limit : ℕ) where
  abbrev At : ℕ → r.Keys → Counter → Type 0
  At now s c = IsCounter r key ttl now s c

  -- The counter stands still while its window or its block is alive.
  counting_later :
      (now later h t : ℕ) (s : r.Keys)
      → At now s (counting h t)
      → now ≤ later
      → later < t
      → At later s (counting h t)
  counting_later now later h t s (is_counting _ _ free held counted live within) le alive =
      is_counting h t (r.view_later now later (blocked key) s le ∙ rw free refl)
        (r.view_later now later (throttle key) s le ∙ rw held (lasting later t h alive)) counted
        alive (omega arith)

  shut_later :
      (now later t : ℕ) (s : r.Keys)
      → At now s (shut t)
      → now ≤ later
      → later < t
      → At later s (shut t)
  shut_later now later t s (is_shut _ held live gone) le alive =
      is_shut t (r.view_later now later (blocked key) s le ∙ rw held (lasting later t 1 alive))
        alive (subst (EndsBy t) (sym (r.view_later now later (throttle key) s le)) (ends _ gone))
    where
      ends : (e : Option Entry) → EndsBy t e → EndsBy t (lapse later e)
      ends none g = tt
      ends (some e) g = elim (Bool-cases (is_past later e.expires_at)) [
        | inl past ↦ rw past tt
        | inr past ↦ rw past g
      ]

  window_end : (now h t : ℕ) (s : r.Keys) → At now s (counting h t) → t ≤ now + ttl
  window_end now h t s (is_counting _ _ free held counted live within) = within

  -- The requests that are let through, of those at the times of a list.
  unfoldable pub admitted : List ℕ → r.Keys → ℕ
  admitted [] s = 0
  admitted (now ∷ times) s =
      let out = increment_script r now key ttl limit ttl s in
      let rest = admitted times out.1 in if (out.0).is_blocked then rest else 1 + rest

  -- Times that do not go back.
  abbrev pub IsAscending : ℕ → List ℕ → Type 0
  IsAscending now [] = Unit
  IsAscending now (t ∷ ts) = (now ≤ t) × IsAscending t ts

  shut_admits :
      (times : List ℕ) (now t : ℕ) (s : r.Keys)
      → 0 < ttl
      → At now s (shut t)
      → IsAscending now times
      → All (λ u. u < t) times
      → admitted times s ≡ 0
  unfolding admitted
  shut_admits [] now t s pos c asc before = refl
  shut_admits (u ∷ us) now t s pos c asc before =
      let f =
        increment-Follows r key ttl limit u pos s (shut t)
          (shut_later now u t s c asc.0 before.0) in
      rw (f.reply) (shut_admits us u t _ pos f.state asc.1 before.1)

  counting_admits :
      (times : List ℕ) (now h t : ℕ) (s : r.Keys)
      → 0 < ttl
      → At now s (counting h t)
      → h ≤ limit
      → IsAscending now times
      → All (λ u. u < t) times
      → h + admitted times s ≤ limit
  unfolding admitted
  counting_admits [] now h t s pos c below asc before = omega arith
  counting_admits (u ∷ us) now h t s pos c below asc before =
      let f =
        increment-Follows r key ttl limit u pos s (counting h t)
          (counting_later now u h t s c asc.0 before.0) in
      let start = counting_later now u h t s c asc.0 before.0 in
      elim (Bool-cases (ltb limit (h + 1))) [
        | inl over ↦
            let g : Follows r key ttl limit u pos false (shut (u + ttl))
                (increment_script r u key ttl limit ttl s) =
              rw over at f in
            rw
              (
                g.reply,
                shut_admits us u (u + ttl) _ pos g.state asc.1 (
                    All-imp (λ v. v < t) (λ v. v < u + ttl) us
                      (λ v early. omega (arith, window_end u h t s start)) before.1),
              )
              (omega arith)
        | inr fits ↦
            let g : Follows r key ttl limit u pos true (counting (h + 1) t)
                (increment_script r u key ttl limit ttl s) =
              rw fits at f in
            let rest = counting_admits us u (h + 1) t _ pos g.state (ground arith) asc.1 before.1 in
            rw (g.reply) (omega (arith, rest))
      ]

  -- From a bucket that holds no hits and no block, of the requests that come at times that do not
  -- go back, all within one window of the first, the script INCREMENT lets no more than the limit
  -- through, where the block is as long as the window and that is positive.
  pub admitted-le :
      (now : ℕ) (times : List ℕ) (s : r.Keys)
      → 0 < ttl
      → r.view s (blocked key) now ≡ none
      → r.view s (throttle key) now ≡ none
      → IsAscending now times
      → All (λ u. u < now + ttl) times
      → admitted (now ∷ times) s ≤ limit
  unfolding admitted
  admitted-le now times s pos free empty asc before =
      let f = increment-Follows r key ttl limit now pos s idle (is_idle free empty) in
      elim (Bool-cases (ltb limit 1)) [
        | inl over ↦
            let g : Follows r key ttl limit now pos false (shut (now + ttl))
                (increment_script r now key ttl limit ttl s) =
              rw over at f in
            rw (g.reply, shut_admits times now (now + ttl) _ pos g.state asc before) (omega arith)
        | inr fits ↦
            let g : Follows r key ttl limit now pos true (counting 1 (now + ttl))
                (increment_script r now key ttl limit ttl s) =
              rw fits at f in
            let rest =
              counting_admits times now 1 (now + ttl) _ pos g.state (ground arith) asc before in
            rw (g.reply) (omega (arith, rest))
      ]
