-- ===== src/RateLimit/Store.antt =====
-- A Redis of one process, which meets the laws of RateLimit.Redis: what a command does not touch is
-- as before, and a key that has lapsed is absent. The witnesses run on it.
use itc_sharing_backend.Base.{
  ℕ, ◌+◌, ◌≡◌, refl, ◌≢◌, ◌≤◌, ◌<◌, Bool, true, false, Option, none, some, leb, ◌==◌, ==_refl,
  ==_iff, arith, Bool-cases, inl, inr, if◌then◌else◌, ap, sym, ◌∙◌,
}
use itc_sharing_backend.RateLimit.Redis.{
  Redis, Key, quota, throttle, blocked, Entry, value_of, expiry_of, lapse, is_past,
}

abbrev same_key : Key → Key → Bool
same_key (quota a) (quota b) = a == b
same_key (throttle a) (throttle b) = a == b
same_key (blocked a) (blocked b) = a == b
same_key _ _ = false

same_key_refl : (k : Key) → same_key k k ≡ true
same_key_refl (quota a) = ==_refl a
same_key_refl (throttle a) = ==_refl a
same_key_refl (blocked a) = ==_refl a

same_key_iff : (k l : Key) → same_key k l ≡ true → k ≡ l
same_key_iff (quota a) (quota b) h = ap quota ((==_iff a b).0 h)
same_key_iff (throttle a) (throttle b) h = ap throttle ((==_iff a b).0 h)
same_key_iff (blocked a) (blocked b) h = ap blocked ((==_iff a b).0 h)
same_key_iff (quota a) (throttle b) h = cc
same_key_iff (quota a) (blocked b) h = cc
same_key_iff (throttle a) (quota b) h = cc
same_key_iff (throttle a) (blocked b) h = cc
same_key_iff (blocked a) (quota b) h = cc
same_key_iff (blocked a) (throttle b) h = cc

same_key_other : (k l : Key) → k ≢ l → same_key l k ≡ false
same_key_other k l apart = elim (Bool-cases (same_key l k)) [
  | inl e ↦ absurd (apart (sym (same_key_iff l k e)))
  | inr e ↦ e
]

abbrev Stored : Type 0
Stored = Key → Option Entry

abbrev put : Key → Option Entry → Stored → Stored
put k e s l = if same_key l k then e else s l

abbrev view : Stored → Key → ℕ → Option Entry
view s k now = lapse now (s k)

pub lapse_again :
    (now : ℕ) (e : Option Entry) (v : ℕ)
    → lapse now (some (record { value = v; expires_at = expiry_of (lapse now e) }))
      ≡ some (record { value = v; expires_at = expiry_of (lapse now e) })
lapse_again now none v = refl
lapse_again now (some x) v = elim (Bool-cases (is_past now x.expires_at)) [
  | inl e ↦ rw e refl
  | inr e ↦ rw (e, e) refl
]

pub view_put :
    (s : Stored) (k : Key) (now : ℕ) (e : Option Entry) → view (put k e s) k now ≡ lapse now e
view_put s k now e = rw (same_key_refl k) refl

pub view_other :
    (s : Stored) (k l : Key) (now : ℕ) (e : Option Entry)
    → k ≢ l
    → view (put k e s) l now ≡ view s l now
view_other s k l now e apart = rw (same_key_other k l apart) refl

pub lapse_fresh :
    (now v ms : ℕ)
    → 0 < ms
    → lapse now (some (record { value = v; expires_at = some (now + ms) }))
      ≡ some (record { value = v; expires_at = some (now + ms) })
lapse_fresh now v ms pos = let alive : leb (now + ms) now ≡ false = ground arith in rw alive refl

past_later :
    (now later : ℕ) (t : Option ℕ) → now ≤ later → is_past now t ≡ true → is_past later t ≡ true
past_later now later none le h = h
past_later now later (some t) le h = ground arith

pub lapse_later :
    (now later : ℕ) (e : Option Entry) → now ≤ later → lapse later e ≡ lapse later (lapse now e)
lapse_later now later none le = refl
lapse_later now later (some x) le = elim (Bool-cases (is_past now x.expires_at)) [
  | inl e ↦ rw (e, past_later now later x.expires_at le e) refl
  | inr e ↦ rw e refl
]

abbrev pub memory_redis : Redis
memory_redis = record {
  Keys = Stored;
  view = view;
  incr_by = λ now k n s.
      put k
        (some
          (record { value = value_of (view s k now) + n; expires_at = expiry_of (view s k now) }))
        s;
  pexpire = λ now k ms s.
      put k
        (elim (view s k now) [
          | none ↦ none
          | some e ↦ some (record { value = e.value; expires_at = some (now + ms) })
        ])
        s;
  set_keep_ttl =
      λ now k v s. put k (some (record { value = v; expires_at = expiry_of (view s k now) })) s;
  set_px = λ now k v ms s. put k (some (record { value = v; expires_at = some (now + ms) })) s;
  view_incr_by = λ now k n s. view_put s k now _ ∙ lapse_again now (s k) _;
  view_pexpire =
      λ now k ms s e pos held. rw held (view_put s k now _ ∙ lapse_fresh now e.value ms pos);
  view_set_keep_ttl = λ now k v s. view_put s k now _ ∙ lapse_again now (s k) v;
  view_set_px = λ now k v ms s pos. view_put s k now _ ∙ lapse_fresh now v ms pos;
  view_later = λ now later k s le. lapse_later now later (s k) le;
  other_incr_by = λ now k l n s apart. view_other s k l now _ apart;
  other_pexpire = λ now k l ms s apart. view_other s k l now _ apart;
  other_set_px = λ now k l v ms s apart. view_other s k l now _ apart;
}
