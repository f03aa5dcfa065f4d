-- ===== src/Base/Invariants.antt =====
-- Steps whose every end, result or exception, stands in a relation to the state before. The relation
-- is reflexive and transitive, so that it is proved part by part.
use mathlib.Core.Path.{◌≡◌, refl}
use mathlib.Core.Bool.{Bool, true, false}
use mathlib.Core.Option.{Option, none, some}
use itc_sharing_backend.Base.Effect.{
  Failure, Outcome, done, fail, M, ◌>>=◌, ◌>>◌, pure, throw, guard, expect, get, modify, halt_if,
  after,
}

pub record Preorder (S : Type 0) : Type 1 where
  pub Rel : S → S → Type 0
  pub same : (s : S) → Rel s s
  pub chain : (a b c : S) → Rel a b → Rel b c → Rel a c

module _ {S : Type 0} (r : Preorder S) where
  -- A record, so that no tactic looks into the step.
  pub record Keeps {A : Type 0} (m : M S A) : Type 0 where
    pub at : (s : S) → r.Rel s (after (m s))

  pub Keeps-bind :
      {A B : Type 0} (m : M S A) (f : A → M S B)
      → Keeps m
      → ((a : A) → Keeps (f a))
      → Keeps (m >>= f)
  unfolding ◌>>=◌
  Keeps-bind m f hm hf = record { at = λ s. ends s (m s) (hm.at s) }
    where
      ends :
          (s : S) (o : Outcome S _)
          → r.Rel s (after o)
          → r.Rel s (after (elim o [ done a s' ↦ f a s' | fail e s' ↦ fail e s' ]))
      ends s (done a s') h = r.chain s s' _ h ((hf a).at s')
      ends s (fail e s') h = h

  pub Keeps-seq : {B : Type 0} (m : M S (Unit {0})) (k : M S B) → Keeps m → Keeps k → Keeps (m >> k)
  unfolding ◌>>◌
  Keeps-seq m k hm hk = record { at = λ s. ends s (m s) (hm.at s) }
    where
      ends :
          (s : S) (o : Outcome S (Unit {0}))
          → r.Rel s (after o)
          → r.Rel s (after (elim o [ done a s' ↦ k s' | fail e s' ↦ fail e s' ]))
      ends s (done a s') h = r.chain s s' _ h (hk.at s')
      ends s (fail e s') h = h

  -- What is read may be used in the rest, at the state where it was read.
  pub Keeps-read :
      {B : Type 0} (f : S → M S B) → ((s : S) → r.Rel s (after (f s s))) → Keeps (get >>= f)
  unfolding ◌>>=◌ get
  Keeps-read f h = record { at = h }

  pub Keeps-get : {B : Type 0} (f : S → M S B) → ((s : S) → Keeps (f s)) → Keeps (get >>= f)
  Keeps-get f h = Keeps-read f (λ s. (h s).at s)

  pub Keeps-pure : {A : Type 0} (a : A) → Keeps (pure a)
  unfolding pure
  Keeps-pure a = record { at = r.same }

  pub Keeps-throw : {A : Type 0} (e : Failure) → Keeps (throw {A = A} e)
  unfolding throw
  Keeps-throw e = record { at = r.same }

  pub Keeps-guard : (b : Bool) (e : Failure) → Keeps (guard b e)
  unfolding guard
  Keeps-guard true e = record { at = r.same }
  Keeps-guard false e = record { at = r.same }

  pub Keeps-expect : {A : Type 0} (o : Option A) (e : Failure) → Keeps (expect o e)
  unfolding expect
  Keeps-expect none e = record { at = r.same }
  Keeps-expect (some a) e = record { at = r.same }

  -- What was found is known in the rest.
  pub Keeps-found :
      {A B : Type 0} (o : Option A) (e : Failure) (f : A → M S B)
      → ((a : A) → o ≡ some a → Keeps (f a))
      → Keeps (expect o e >>= f)
  unfolding ◌>>=◌ expect
  Keeps-found none e f h = record { at = r.same }
  Keeps-found (some a) e f h = h a refl

  -- What was tested is known in the rest.
  pub Keeps-tested :
      {B : Type 0} (b : Bool) (e : Failure) (k : M S B)
      → (b ≡ true → Keeps k)
      → Keeps (guard b e >> k)
  unfolding ◌>>◌ guard
  Keeps-tested true e k h = h refl
  Keeps-tested false e k h = record { at = r.same }

  pub Keeps-modify : (g : S → S) → ((s : S) → r.Rel s (g s)) → Keeps (modify g)
  unfolding modify
  Keeps-modify g h = record { at = h }

  pub Keeps-halt_if :
      (b : Bool) (g : S → S) (e : Failure) → ((s : S) → r.Rel s (g s)) → Keeps (halt_if b g e)
  unfolding halt_if
  Keeps-halt_if true g e h = record { at = h }
  Keeps-halt_if false g e h = record { at = r.same }

-- A step keeps what follows from the relation that it keeps.
pub Keeps-imp :
    {S A : Type 0} (r t : Preorder S) (m : M S A)
    → ((s s' : S) → r.Rel s s' → t.Rel s s')
    → Keeps r m
    → Keeps t m
Keeps-imp r t m h k = record { at = λ s. h s _ (k.at s) }
