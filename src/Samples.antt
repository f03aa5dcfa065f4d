-- ===== src/Samples.antt =====
-- A table driver over lists, which meets every law of `Orm`: the first matching row is taken, and
-- rows keep their order. The witnesses run on it.
use itc_sharing_backend.Base.{
  first-some, ◌≡◌, refl, Bool, true, not, none, List, [], ◌∷◌, map, arith, length, count, keep,
  first, patch, All, All-imp, Occurs, here, there, Orm, Bool-cases, count-keep, inl, inr,
}

module _ {A : Type 0} where
  pub first-none : (p : A → Bool) (t : List A) → first p t ≡ none → count p t ≡ 0
  first-none p [] h = refl
  first-none p (x ∷ t) h = ground (arith, first-none p t)

  pub length-keep : (p : A → Bool) (t : List A) → length (keep p t) ≡ count p t
  length-keep p [] = refl
  length-keep p (x ∷ t) = ground (arith, length-keep p t)

  pub keep-All : (p : A → Bool) (t : List A) → All (λ r. Occurs r t × (p r ≡ true)) (keep p t)
  keep-All p [] = tt
  keep-All p (x ∷ t) =
      let rest : All (λ r. Occurs r (x ∷ t) × (p r ≡ true)) (keep p t) =
        All-imp _ _ (keep p t) (λ r (o, h). (there o, h)) (keep-All p t) in
      elim (Bool-cases (p x)) [ inl e ↦ rw e ((here, e), rest) | inr e ↦ rw e rest ]

abbrev pub list_orm : Orm
list_orm = record {
  find_one = first;
  find = keep;
  count_by = count;
  update = λ p f t. map (patch p f) t;
  delete = λ p t. keep (λ r. not (p r)) t;
  find_one_some = first-some;
  find_one_none = first-none;
  find_length = length-keep;
  find_count = count-keep;
  find_all = keep-All;
  count_by_eq = λ p t. refl;
  update_eq = λ p f t. refl;
  delete_eq = λ p t. refl;
}
