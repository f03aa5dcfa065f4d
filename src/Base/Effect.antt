-- ===== src/Base/Effect.antt =====
-- A handler reads and writes its state, and ends with a result or with an exception of Nest. What
-- was written before an exception stays written, unless a transaction takes it back. Each combinator
-- has a rule that carries a statement about the outcome over it.
use Prim.Native.String.{String}
use mathlib.Core.Path.{◌≡◌, refl, sym, ◌∙◌, subst}
use mathlib.Core.Bool.{Bool, true, false}
use mathlib.Core.Option.{Option, none, some}

pub data Failure : Type 0 where
  not_found forbidden bad_request unauthorized internal conflict : String → Failure
  too_many_requests service_unavailable : String → Failure

pub data Outcome (S A : Type 0) : Type 0 where
  done : A → S → Outcome S A
  fail : Failure → S → Outcome S A

abbrev pub M : Type 0 → Type 0 → Type 0
M S A = S → Outcome S A

infixl 5 ◌>>=◌ ◌>>◌
unfoldable pub ◌>>=◌ : {S A B : Type 0} → M S A → (A → M S B) → M S B
◌>>=◌ m f s = elim (m s) [ done a s' ↦ f a s' | fail e s' ↦ fail e s' ]

unfoldable pub ◌>>◌ : {S B : Type 0} → M S (Unit {0}) → M S B → M S B
◌>>◌ m k s = elim (m s) [ done a s' ↦ k s' | fail e s' ↦ fail e s' ]

unfoldable pub pure : {S A : Type 0} → A → M S A
pure a s = done a s

unfoldable pub throw : {S A : Type 0} → Failure → M S A
throw e s = fail e s

-- `if (!test) throw e`
unfoldable pub guard : {S : Type 0} → Bool → Failure → M S (Unit {0})
guard true e s = done tt s
guard false e s = fail e s

-- `if (!value) throw e`
unfoldable pub expect : {S A : Type 0} → Option A → Failure → M S A
expect (some a) e s = done a s
expect none e s = fail e s

unfoldable pub get : {S : Type 0} → M S S
get s = done s s

unfoldable pub modify : {S : Type 0} → (S → S) → M S (Unit {0})
modify f s = done tt (f s)

-- `if (test) { write; throw e }`: the write stays.
unfoldable pub halt_if : {S : Type 0} → Bool → (S → S) → Failure → M S (Unit {0})
halt_if true f e s = fail e (f s)
halt_if false f e s = done tt s

-- `dataSource.transaction`: an exception rolls the state back.
unfoldable pub transaction : {S A : Type 0} → M S A → M S A
transaction m s = elim (m s) [ done a s' ↦ done a s' | fail e s' ↦ fail e s ]

abbrev pub after : {S A : Type 0} → Outcome S A → S
after (done a s) = s
after (fail e s) = s

-- A step that leaves the state alone when it fails, and satisfies `P` when it does not.
pub data Ends {S A : Type 0} (s : S) (P : A → S → Type 0) (o : Outcome S A) : Type 0 where
  stopped : (e : Failure) → o ≡ fail e s → Ends s P o
  finished : (a : A) (s' : S) → o ≡ done a s' → P a s' → Ends s P o

-- What is true of a step if it ends well.
abbrev pub Holds : {S A : Type 0} → (A → S → Type 0) → Outcome S A → Type 0
Holds P (done a s) = P a s
Holds P (fail e s) = Unit

module _ {ℓ} {S B : Type 0} (Q : Outcome S B → Type ℓ) where
  pub bind_get : (f : S → M S B) (s : S) → Q (f s s) → Q ((get >>= f) s)
  unfolding ◌>>=◌ get
  bind_get f s h = h

  pub bind_pure : {A : Type 0} (a : A) (f : A → M S B) (s : S) → Q (f a s) → Q ((pure a >>= f) s)
  unfolding ◌>>=◌ pure
  bind_pure a f s h = h

  pub bind_modify : (g : S → S) (k : M S B) (s : S) → Q (k (g s)) → Q ((modify g >> k) s)
  unfolding ◌>>◌ modify
  bind_modify g k s h = h

  pub bind_guard :
      (b : Bool) (e : Failure) (k : M S B) (s : S)
      → (b ≡ false → Q (fail e s))
      → (b ≡ true → Q (k s))
      → Q ((guard b e >> k) s)
  unfolding ◌>>◌ guard
  bind_guard true e k s stop go = go refl
  bind_guard false e k s stop go = stop refl

  pub bind_halt :
      (b : Bool) (g : S → S) (e : Failure) (k : M S B) (s : S)
      → (b ≡ true → Q (fail e (g s)))
      → (b ≡ false → Q (k s))
      → Q ((halt_if b g e >> k) s)
  unfolding ◌>>◌ halt_if
  bind_halt true g e k s stop go = stop refl
  bind_halt false g e k s stop go = go refl

  pub bind_expect :
      {A : Type 0} (o : Option A) (e : Failure) (f : A → M S B) (s : S)
      → (o ≡ none → Q (fail e s))
      → ((a : A) → o ≡ some a → Q (f a s))
      → Q ((expect o e >>= f) s)
  unfolding ◌>>=◌ expect
  bind_expect none e f s stop go = stop refl
  bind_expect (some a) e f s stop go = go a refl

  pub bind-Ends :
      {A : Type 0} (P : A → S → Type 0) (m : M S A) (f : A → M S B) (s : S)
      → Ends s P (m s)
      → ((e : Failure) → Q (fail e s))
      → ((a : A) (s' : S) → P a s' → Q (f a s'))
      → Q ((m >>= f) s)
  unfolding ◌>>=◌
  bind-Ends P m f s (stopped e h) stop go = rw (h, ◌>>=◌) (stop e)
  bind-Ends P m f s (finished a s' h p) stop go = rw (h, ◌>>=◌) (go a s' p)

  pub seq-Ends :
      (P : Unit {0} → S → Type 0) (m : M S (Unit {0})) (k : M S B) (s : S)
      → Ends s P (m s)
      → ((e : Failure) → Q (fail e s))
      → ((s' : S) → P tt s' → Q (k s'))
      → Q ((m >> k) s)
  unfolding ◌>>◌
  seq-Ends P m k s (stopped e h) stop go = rw (h, ◌>>◌) (stop e)
  seq-Ends P m k s (finished a s' h p) stop go = rw (h, ◌>>◌) (go s' p)

  -- A step of which something is known where it ends well.
  pub bind-Holds :
      {A : Type 0} (P : A → S → Type 0) (m : M S A) (f : A → M S B) (s : S)
      → Holds P (m s)
      → ((e : Failure) (s' : S) → Q (fail e s'))
      → ((a : A) (s' : S) → P a s' → Q (f a s'))
      → Q ((m >>= f) s)
  unfolding ◌>>=◌
  bind-Holds P m f s h stop go = ends (m s) h
    where
      ends :
          (o : Outcome S _) → Holds P o → Q (elim o [ done a s' ↦ f a s' | fail e s' ↦ fail e s' ])
      ends (done a s') h = go a s' h
      ends (fail e s') h = stop e s'

  pub seq-Holds :
      (P : Unit {0} → S → Type 0) (m : M S (Unit {0})) (k : M S B) (s : S)
      → Holds P (m s)
      → ((e : Failure) (s' : S) → Q (fail e s'))
      → ((s' : S) → P tt s' → Q (k s'))
      → Q ((m >> k) s)
  unfolding ◌>>◌
  seq-Holds P m k s h stop go = ends (m s) h
    where
      ends :
          (o : Outcome S (Unit {0}))
          → Holds P o
          → Q (elim o [ done a s' ↦ k s' | fail e s' ↦ fail e s' ])
      ends (done tt s') h = go s' h
      ends (fail e s') h = stop e s'

  -- A step, by how it ends.
  pub bind_split :
      {A : Type 0} (m : M S A) (f : A → M S B) (s : S)
      → ((e : Failure) (s' : S) → m s ≡ fail e s' → Q (fail e s'))
      → ((a : A) (s' : S) → m s ≡ done a s' → Q (f a s'))
      → Q ((m >>= f) s)
  unfolding ◌>>=◌
  bind_split m f s stop go = ends (m s) refl
    where
      ends : (o : Outcome S _) → m s ≡ o → Q (elim o [ done a s' ↦ f a s' | fail e s' ↦ fail e s' ])
      ends (done a s') h = go a s' h
      ends (fail e s') h = stop e s' h

  pub seq_split :
      (m : M S (Unit {0})) (k : M S B) (s : S)
      → ((e : Failure) (s' : S) → m s ≡ fail e s' → Q (fail e s'))
      → ((s' : S) → m s ≡ done tt s' → Q (k s'))
      → Q ((m >> k) s)
  unfolding ◌>>◌
  seq_split m k s stop go = ends (m s) refl
    where
      ends :
          (o : Outcome S (Unit {0}))
          → m s ≡ o
          → Q (elim o [ done a s' ↦ k s' | fail e s' ↦ fail e s' ])
      ends (done tt s') h = go s' h
      ends (fail e s') h = stop e s' h

  -- A step of which only its invariant is known.
  pub bind_any :
      {A : Type 0} (P : S → Type 0) (m : M S A) (f : A → M S B) (s : S)
      → P (after (m s))
      → ((e : Failure) (s' : S) → P s' → Q (fail e s'))
      → ((a : A) (s' : S) → P s' → Q (f a s'))
      → Q ((m >>= f) s)
  unfolding ◌>>=◌
  bind_any P m f s h stop go = ends (m s) h
    where
      ends :
          (o : Outcome S _)
          → P (after o)
          → Q (elim o [ done a s' ↦ f a s' | fail e s' ↦ fail e s' ])
      ends (done a s') h = go a s' h
      ends (fail e s') h = stop e s' h

  pub seq_any :
      (P : S → Type 0) (m : M S (Unit {0})) (k : M S B) (s : S)
      → P (after (m s))
      → ((e : Failure) (s' : S) → P s' → Q (fail e s'))
      → ((s' : S) → P s' → Q (k s'))
      → Q ((m >> k) s)
  unfolding ◌>>◌
  seq_any P m k s h stop go = ends (m s) h
    where
      ends :
          (o : Outcome S (Unit {0}))
          → P (after o)
          → Q (elim o [ done a s' ↦ k s' | fail e s' ↦ fail e s' ])
      ends (done a s') h = go s' h
      ends (fail e s') h = stop e s' h

  pub bind_some :
      {A : Type 0} (o : Option A) (e : Failure) (f : A → M S B) (s : S) {a : A}
      → o ≡ some a
      → Q (f a s)
      → Q ((expect o e >>= f) s)
  unfolding ◌>>=◌ expect
  bind_some o e f s h go = rw (h, ◌>>=◌, expect) go

  pub bind_done :
      {A : Type 0} (m : M S A) (f : A → M S B) (s : S) {a : A} {s' : S}
      → m s ≡ done a s'
      → Q (f a s')
      → Q ((m >>= f) s)
  unfolding ◌>>=◌
  bind_done m f s h go = rw (h, ◌>>=◌) go

  pub bind_fail :
      {A : Type 0} (m : M S A) (f : A → M S B) (s : S) {e : Failure} {s' : S}
      → m s ≡ fail e s'
      → Q (fail e s')
      → Q ((m >>= f) s)
  unfolding ◌>>=◌
  bind_fail m f s h go = rw (h, ◌>>=◌) go

  pub seq_done :
      (m : M S (Unit {0})) (k : M S B) (s : S) {s' : S}
      → m s ≡ done tt s'
      → Q (k s')
      → Q ((m >> k) s)
  unfolding ◌>>◌
  seq_done m k s h go = rw (h, ◌>>◌) go

  -- A step of which only that it ends well is known.
  pub seq_any_done :
      (m : M S (Unit {0})) (k : M S B) (s : S)
      → (s' : S) × (m s ≡ done tt s')
      → ((s' : S) → Q (k s'))
      → Q ((m >> k) s)
  seq_any_done m k s (s', h) go = seq_done m k s h (go s')

  pub seq_fail :
      (m : M S (Unit {0})) (k : M S B) (s : S) {e : Failure} {s' : S}
      → m s ≡ fail e s'
      → Q (fail e s')
      → Q ((m >> k) s)
  unfolding ◌>>◌
  seq_fail m k s h go = rw (h, ◌>>◌) go

  pub end_expect :
      (o : Option B) (e : Failure) (s : S)
      → (o ≡ none → Q (fail e s))
      → ((a : B) → o ≡ some a → Q (done a s))
      → Q (expect o e s)
  unfolding expect
  end_expect none e s stop go = stop refl
  end_expect (some a) e s stop go = go a refl

pub end_guard {ℓ} :
    {S : Type 0} (Q : Outcome S (Unit {0}) → Type ℓ) (b : Bool) (e : Failure) (s : S)
    → (b ≡ false → Q (fail e s))
    → (b ≡ true → Q (done tt s))
    → Q (guard b e s)
unfolding guard
end_guard Q true e s stop go = go refl
end_guard Q false e s stop go = stop refl

-- A transaction ends as its body does.
pub transaction-Ends :
    {S A : Type 0} (P : A → S → Type 0) (m : M S A) (s : S)
    → Ends s P (m s)
    → Ends s P (transaction m s)
unfolding transaction
transaction-Ends P m s (stopped e h) = rw (h, transaction) (stopped e refl)
transaction-Ends P m s (finished a s' h p) = rw (h, transaction) (finished a s' refl p)

pub after-guard : {S : Type 0} (t : Bool) (e : Failure) (s : S) → after (guard t e s) ≡ s
unfolding guard
after-guard true e s = refl
after-guard false e s = refl

pub guard-Ends :
    {S : Type 0} (t : Bool) (e : Failure) (s : S) → Ends s (λ _ s'. s' ≡ s) (guard t e s)
unfolding guard
guard-Ends true e s = finished tt s refl refl
guard-Ends false e s = stopped e refl

-- What a step ends with, where it is known to end well.
pub Ends-done :
    {S A : Type 0} {P : A → S → Type 0} {o : Outcome S A} {s s' : S} {a : A}
    → Ends s P o
    → o ≡ done a s'
    → P a s'
Ends-done (stopped e h) k = cc
Ends-done {P} (finished a1 s1 h p) k = subst (Holds P) (sym h ∙ k) p

pub done-Holds :
    {S A : Type 0} (P : A → S → Type 0) {o : Outcome S A} {s' : S} {a : A}
    → Holds P o
    → o ≡ done a s'
    → P a s'
done-Holds P h k = subst (Holds P) k h

pub Holds-imp :
    {S A : Type 0} (P Q : A → S → Type 0) (o : Outcome S A)
    → ((a : A) (s : S) → P a s → Q a s)
    → Holds P o
    → Holds Q o
Holds-imp P Q (done a s) f h = f a s h
Holds-imp P Q (fail e s) f h = tt
