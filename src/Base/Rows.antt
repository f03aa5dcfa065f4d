-- ===== src/Base/Rows.antt =====
-- What the services use of TypeORM and PostgreSQL: a table is the list of its rows, a statement is
-- a field of the record `Orm`, and what the documentation promises of it is a law of the record.
-- Which row `findOne` takes when several match, and the order of `find`, are left open.
use Prim.Native.Nat.{ℕ, ◌+◌, ◌≤◌}
use mathlib.Core.Path.{◌≡◌, refl, subst}
use mathlib.Core.Bool.{Bool, true, false, not, ◌&&◌}
use mathlib.Core.Option.{Option, none, some}
use mathlib.Core.List.{◌++◌, List, [], ◌∷◌, map}
use native.Mathlib.Omega.{arith}
use itc_sharing_backend.Base.Tests.{bit, if◌then◌else◌, Bool-cases}
use mathlib.Core.Logic.{inl, inr}
use itc_sharing_backend.Base.Lists.{length, any, count, count-le-count, All, Occurs, here, there}

module _ {A : Type 0} where
  abbrev pub patch : (A → Bool) → (A → A) → A → A
  patch p f r = if p r then f r else r

  abbrev pub keep : (A → Bool) → List A → List A
  keep p [] = []
  keep p (r ∷ rs) = if p r then r ∷ keep p rs else keep p rs

  abbrev pub first : (A → Bool) → List A → Option A
  first p [] = none
  first p (r ∷ rs) = if p r then some r else first p rs

pub record Orm : Type 1 where
  pub find_one : {A : Type 0} → (A → Bool) → List A → Option A
  pub find : {A : Type 0} → (A → Bool) → List A → List A
  pub count_by : {A : Type 0} → (A → Bool) → List A → ℕ
  pub update : {A : Type 0} → (A → Bool) → (A → A) → List A → List A
  pub delete : {A : Type 0} → (A → Bool) → List A → List A
  pub find_one_some :
      {A : Type 0} (p : A → Bool) (t : List A) (r : A)
      → find_one p t ≡ some r
      → Occurs r t × (p r ≡ true)
  pub find_one_none : {A : Type 0} (p : A → Bool) (t : List A) → find_one p t ≡ none → count p t ≡ 0
  pub find_length : {A : Type 0} (p : A → Bool) (t : List A) → length (find p t) ≡ count p t
  pub find_count :
      {A : Type 0} (q p : A → Bool) (t : List A) → count q (find p t) ≡ count (λ r. q r && p r) t
  pub find_all :
      {A : Type 0} (p : A → Bool) (t : List A) → All (λ r. Occurs r t × (p r ≡ true)) (find p t)
  pub count_by_eq : {A : Type 0} (p : A → Bool) (t : List A) → count_by p t ≡ count p t
  pub update_eq :
      {A : Type 0} (p : A → Bool) (f : A → A) (t : List A) → update p f t ≡ map (patch p f) t
  pub delete_eq : {A : Type 0} (p : A → Bool) (t : List A) → delete p t ≡ keep (λ r. not (p r)) t

module _ {A : Type 0} where
  pub All-map-patch {ℓ κ} :
      (P : A → Type ℓ) (Q : A → Type κ) (p : A → Bool) (f : A → A) (t : List A)
      → ((r : A) → P r → Q (patch p f r))
      → All P t
      → All Q (map (patch p f) t)
  All-map-patch P Q p f [] h a = tt
  All-map-patch P Q p f (r ∷ t) h a = (h r a.0, All-map-patch P Q p f t h a.1)

  pub first-some :
      (p : A → Bool) (t : List A) (r : A) → first p t ≡ some r → Occurs r t × (p r ≡ true)
  first-some p [] r h = cc
  first-some p (x ∷ t) r h = elim (Bool-cases (p x)) [
    | inl e ↦
        let same : x ≡ r = ground arith in
        subst (λ y. Occurs y (x ∷ t) × (p y ≡ true)) same (here, e)
    | inr e ↦ let (o, k) = first-some p t r (ground arith) in (there o, k)
  ]

  pub count_zero_at : (p : A → Bool) {r : A} {t : List A} → Occurs r t → count p t ≡ 0 → p r ≡ false
  count_zero_at p here h = ground arith
  count_zero_at p (there o) h = count_zero_at p o (omega arith)

  pub count_pos_at : (p : A → Bool) {r : A} {t : List A} → Occurs r t → p r ≡ true → 1 ≤ count p t
  count_pos_at p here h = ground arith
  count_pos_at p (there o) h = omega (arith, count_pos_at p o h)

  -- Two rows that match a test which one row at most matches.
  pub Occurs-unique :
      (p : A → Bool) {r q : A} {t : List A}
      → Occurs r t
      → Occurs q t
      → p r ≡ true
      → p q ≡ true
      → count p t ≤ 1
      → r ≡ q
  Occurs-unique p here here hr hq u = refl
  Occurs-unique p here (there o) hr hq u = absurd (ground (arith, count_pos_at p o hq))
  Occurs-unique p (there o) here hr hq u = absurd (ground (arith, count_pos_at p o hr))
  Occurs-unique p (there o) (there o') hr hq u = Occurs-unique p o o' hr hq (omega arith)

  -- Where the one row that matches `q` does not match the narrower `p`, none does.
  pub count_none_of :
      (p q : A → Bool) {r : A} {t : List A}
      → Occurs r t
      → q r ≡ true
      → p r ≡ false
      → ((x : A) → p x ≡ true → q x ≡ true)
      → count q t ≤ 1
      → count p t ≡ 0
  count_none_of p q (here {xs = t}) hq hp h u = ground (arith, count-le-count p q t h)
  count_none_of p q (there {x = x} o) hq hp h u =
      ground (arith, count_pos_at q o hq, count_none_of p q o hq hp h, h x)

  pub count-keep : (q p : A → Bool) (t : List A) → count q (keep p t) ≡ count (λ r. q r && p r) t
  count-keep q p [] = refl
  count-keep q p (x ∷ t) = ground (arith, count-keep q p t)

  -- A deletion leaves no row that matches it.
  pub count-keep_none : (p : A → Bool) (t : List A) → count p (keep (λ r. not (p r)) t) ≡ 0
  count-keep_none p [] = refl
  count-keep_none p (r ∷ t) = ground (arith, count-keep_none p t)

  -- An update that makes no row match which did not match before.
  pub count-patch-le :
      (q p : A → Bool) (f : A → A) (t : List A)
      → ((r : A) → q (f r) ≡ true → q r ≡ true)
      → count q (map (patch p f) t) ≤ count q t
  count-patch-le q p f [] h = omega arith
  count-patch-le q p f (r ∷ t) h = ground (arith, h r, count-patch-le q p f t h)

  -- An update whose rows no longer match leaves no match.
  pub count-patch_gone :
      (p : A → Bool) (f : A → A) (t : List A)
      → ((r : A) → p (f r) ≡ false)
      → count p (map (patch p f) t) ≡ 0
  count-patch_gone p f [] h = refl
  count-patch_gone p f (r ∷ t) h = ground (arith, h r, count-patch_gone p f t h)

  pub map-patch_none :
      (p : A → Bool) (f : A → A) (t : List A) → count p t ≡ 0 → map (patch p f) t ≡ t
  map-patch_none p f [] h = refl
  map-patch_none p f (r ∷ t) h = ground (arith, map-patch_none p f t)

  -- An update that changes no row's answer to `q` changes no count of it.
  pub count-patch_same :
      (q p : A → Bool) (f : A → A) (t : List A)
      → ((r : A) → p r ≡ true → q (f r) ≡ q r)
      → count q (map (patch p f) t) ≡ count q t
  count-patch_same q p f [] h = refl
  count-patch_same q p f (r ∷ t) h = ground (arith, h r, count-patch_same q p f t h)

  pub count-patch_none :
      (q p : A → Bool) (f : A → A) (t : List A)
      → count p t ≡ 0
      → count q (map (patch p f) t) ≡ count q t
  count-patch_none q p f [] h = refl
  count-patch_none q p f (r ∷ t) h = ground (arith, count-patch_none q p f t)

  -- An update of the one row that matches moves that row alone from count to count.
  pub count-patch_one :
      (q p : A → Bool) (f : A → A) {r : A} {t : List A}
      → Occurs r t
      → p r ≡ true
      → count p t ≤ 1
      → count q (map (patch p f) t) + bit (q r) ≡ count q t + bit (q (f r))
  count-patch_one q p f (here {xs = t}) h u = ground (arith, count-patch_none q p f t)
  count-patch_one q p f (there {x = x} {xs = t} o) h u =
      ground (arith, count_pos_at p o h, count-patch_one q p f o h)

  pub any-map_same :
      (q : A → Bool) (g : A → A) (t : List A)
      → ((r : A) → q (g r) ≡ q r)
      → any q (map g t) ≡ any q t
  any-map_same q g [] h = refl
  any-map_same q g (r ∷ t) h = rw (h r, any-map_same q g t h)

  -- What a deletion leaves behind.
  pub All-keep {ℓ κ} :
      (P : A → Type ℓ) (Q : A → Type κ) (p : A → Bool) (t : List A)
      → ((r : A) → p r ≡ true → P r → Q r)
      → All P t
      → All Q (keep p t)
  All-keep P Q p [] h a = tt
  All-keep P Q p (r ∷ t) h a = elim (Bool-cases (p r)) [
    | inl e ↦ rw e (h r e a.0, All-keep P Q p t h a.1)
    | inr e ↦ rw e (All-keep P Q p t h a.1)
  ]

  pub count-keep_same :
      (q p : A → Bool) (t : List A)
      → ((r : A) → q r ≡ true → p r ≡ true)
      → count q (keep p t) ≡ count q t
  count-keep_same q p [] h = refl
  count-keep_same q p (r ∷ t) h = ground (arith, h r, count-keep_same q p t h)

  pub count-keep-le : (q p : A → Bool) (t : List A) → count q (keep p t) ≤ count q t
  count-keep-le q p [] = omega arith
  count-keep-le q p (r ∷ t) = ground (arith, count-keep-le q p t)

  pub any-keep_same :
      (q p : A → Bool) (t : List A)
      → ((r : A) → q r ≡ true → p r ≡ true)
      → any q (keep p t) ≡ any q t
  any-keep_same q p [] h = refl
  any-keep_same q p (r ∷ t) h = ground (arith, h r, any-keep_same q p t h)

pub Occurs-map :
    {A B : Type 0} (g : A → B) {a : A} {t : List A} → Occurs a t → Occurs (g a) (map g t)
Occurs-map g here = here
Occurs-map g (there o) = there (Occurs-map g o)

module _ {A : Type 0} where
  pub any_mono :
      (p q : A → Bool) (xs : List A)
      → ((x : A) → p x ≡ true → q x ≡ true)
      → any p xs ≡ true
      → any q xs ≡ true
  any_mono p q [] h e = cc
  any_mono p q (x ∷ xs) h e = ground (arith, h x, any_mono p q xs h)

  pub any-map_le :
      (q : A → Bool) (g : A → A) (xs : List A)
      → ((x : A) → q (g x) ≡ true → q x ≡ true)
      → any q (map g xs) ≡ true
      → any q xs ≡ true
  any-map_le q g [] h e = cc
  any-map_le q g (x ∷ xs) h e = ground (arith, h x, any-map_le q g xs h)

  pub any-keep_le : (q p : A → Bool) (xs : List A) → any q (keep p xs) ≡ true → any q xs ≡ true
  any-keep_le q p [] e = cc
  any-keep_le q p (x ∷ xs) e = ground (arith, any-keep_le q p xs)

  pub any-append_le :
      (q : A → Bool) (xs ys : List A) → any q xs ≡ false → any q (xs ++ ys) ≡ true → any q ys ≡ true
  any-append_le q [] ys h e = e
  any-append_le q (x ∷ xs) ys h e = ground (arith, any-append_le q xs ys)

  pub any_of_count : (p : A → Bool) (xs : List A) → count p xs ≡ 0 → any p xs ≡ false
  any_of_count p [] h = refl
  any_of_count p (x ∷ xs) h = ground (arith, any_of_count p xs)
