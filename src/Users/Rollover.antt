-- ===== src/Users/Rollover.antt =====
-- Proofs on UsersService.applyPendingPromotion over the visits of a student.
use itc_sharing_backend.Base.{
  ℕ, ◌≡◌, refl, ap, sym, subst, ◌∙◌, ◌≤◌, ◌<◌, true, false, String, Option, none, some, List, [],
  ◌∷◌, ltb, arith, Bool-cases, Option-cases, inl, inr, if◌then◌else◌, map,
}
use itc_sharing_backend.Users.Promotion.{
  Student, is_rollover_due, first_stamp, stamp_where, needs_department_choice, promote,
  apply_pending_promotion, visits,
}

-- A student who has the stamp of this rollover or of a later one.
abbrev pub IsStamped : ℕ → Student → Type 0
IsStamped at st = (t : ℕ) × (st.promoted_rollover_at ≡ some t) × (at ≤ t)

due_not :
    (at now t : ℕ) (o : Option ℕ) → o ≡ some t → at ≤ t → is_rollover_due (some at) o now ≡ false
unfolding is_rollover_due
due_not at now t o e le =
    let done_already : ltb t at ≡ false = ground arith in rw (e, done_already) (same now)
  where
    same : (n : ℕ) → (if ltb n at then false else false) ≡ false
    same n = elim (Bool-cases (ltb n at)) [ inl b ↦ rw b refl | inr b ↦ rw b refl ]

first_stamp_kept :
    (at t : ℕ) (st : Student) → st.promoted_rollover_at ≡ some t → first_stamp (some at) st ≡ st
unfolding first_stamp stamp_where
first_stamp_kept at t st e = ap (λ o. stamp_where o at st) e

first_stamp_new :
    (at : ℕ) (st : Student)
    → st.promoted_rollover_at ≡ none
    → first_stamp (some at) st ≡ record st { promoted_rollover_at = some at }
unfolding first_stamp stamp_where
first_stamp_new at st e = ap (λ o. stamp_where o at st) e

module _ (lower : String → String) (at : ℕ) where
  not_due :
      (now : ℕ) (st : Student)
      → is_rollover_due (some at) st.promoted_rollover_at now ≡ false
      → apply_pending_promotion lower (some at) now st ≡ first_stamp (some at) st
  unfolding apply_pending_promotion
  not_due now st e = rw e refl

  stamped_stays :
      (now : ℕ) (st : Student)
      → IsStamped at st
      → apply_pending_promotion lower (some at) now st ≡ st
  stamped_stays now st (t, e, le) =
      not_due now st (due_not at now t st.promoted_rollover_at e le) ∙ first_stamp_kept at t st e

  abbrev pub scheduled : List ℕ → List (Option ℕ × ℕ)
  scheduled times = map (λ now. (some at, now)) times

  -- A student who has the stamp of a rollover is left alone by every later visit.
  visits-stamped :
      (times : List ℕ) (st : Student) → IsStamped at st → visits lower (scheduled times) st ≡ st
  unfolding visits
  visits-stamped [] st h = refl
  visits-stamped (now ∷ times) st h =
      ap (visits lower (scheduled times)) (stamped_stays now st h) ∙ visits-stamped times st h

  early_visit :
      (now : ℕ) (st : Student)
      → now < at
      → st.promoted_rollover_at ≡ none
      → apply_pending_promotion lower (some at) now st
        ≡ record st { promoted_rollover_at = some at }
  unfolding is_rollover_due
  early_visit now st early unstamped =
      let before : ltb now at ≡ true = ground arith in
      not_due now st (rw before refl) ∙ first_stamp_new at st unstamped

  -- A student without a stamp whose first visit comes before the scheduled rollover is never
  -- moved up by it, however often they visit afterwards.
  pub visits-early :
      (now : ℕ) (times : List ℕ) (st : Student)
      → now < at
      → st.promoted_rollover_at ≡ none
      → (visits lower (scheduled (now ∷ times)) st).year_level ≡ st.year_level
  unfolding visits
  visits-early now times st early unstamped =
      ap (λ v. (visits lower (scheduled times) v).year_level) (early_visit now st early unstamped)
      ∙ ap (λ v. v.year_level)
          (visits-stamped times (record st { promoted_rollover_at = some at })
            (at, refl, omega arith))

  abbrev pub stamped : Student → Student
  stamped st = record st { promoted_rollover_at = some at }

  -- What visits under one schedule have made of a student.
  pub data IsVisited (st : Student) : Student → Type 0 where
    same : IsVisited st st
    promoted_once : IsVisited st (promote lower (some at) st)
    stamped_only : IsVisited st (stamped st)

  settled :
      (times : List ℕ) (st v : Student)
      → IsStamped at v
      → IsVisited st v
      → IsVisited st (visits lower (scheduled times) v)
  settled times st v h w = subst (IsVisited st) (sym (visits-stamped times v h)) w

  -- One visit of a student who is not owed the rollover.
  unowed :
      (now : ℕ) (times : List ℕ) (st : Student)
      → is_rollover_due (some at) st.promoted_rollover_at now ≡ false
      → IsVisited st (visits lower (scheduled times) st)
      → IsVisited st
          (visits lower (scheduled times) (apply_pending_promotion lower (some at) now st))
  unowed now times st e rest = elim (Option-cases st.promoted_rollover_at) [
    | inl unstamped ↦
        subst (λ v. IsVisited st (visits lower (scheduled times) v))
          (sym (not_due now st e ∙ first_stamp_new at st unstamped))
          (settled times st (stamped st) (at, refl, omega arith) stamped_only)
    | inr (t, known) ↦
        subst (λ v. IsVisited st (visits lower (scheduled times) v))
          (sym (not_due now st e ∙ first_stamp_kept at t st known)) rest
  ]

  owed :
      (now : ℕ) (times : List ℕ) (st : Student)
      → is_rollover_due (some at) st.promoted_rollover_at now ≡ true
      → IsVisited st (visits lower (scheduled times) st)
      → IsVisited st
          (visits lower (scheduled times) (apply_pending_promotion lower (some at) now st))
  unfolding apply_pending_promotion promote
  owed now times st e rest =
      elim (Bool-cases (needs_department_choice lower st.acronym st.year_level)) [
        | inl w ↦ rw (e, w) rest
        | inr w ↦
            rw (e, w)
              (settled times st (promote lower (some at) st) (at, refl, omega arith) promoted_once)
      ]

  -- However often and whenever a student visits while one rollover is scheduled, the visits leave
  -- the student as before, or only set the stamp of the rollover, or promote the student by it
  -- once.
  pub visits-IsVisited :
      (times : List ℕ) (st : Student) → IsVisited st (visits lower (scheduled times) st)
  unfolding visits
  visits-IsVisited [] st = same
  visits-IsVisited (now ∷ times) st =
      elim (Bool-cases (is_rollover_due (some at) st.promoted_rollover_at now)) [
        | inl e ↦ owed now times st e (visits-IsVisited times st)
        | inr e ↦ unowed now times st e (visits-IsVisited times st)
      ]
