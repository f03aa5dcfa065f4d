-- ===== src/Users/Promotion.antt =====
-- The promotion of students: users/utils/promotion.ts, documents/utils/year-levels.ts, and
-- UsersService.applyPendingPromotion. `lower` is the language's toLowerCase.
use itc_sharing_backend.Base.{
  ℕ, ◌+◌, min, Bool, true, false, ◌&&◌, ◌||◌, String, Option, none, some, List, [], ◌∷◌, ◌==◌, ltb,
  same_text, if◌then◌else◌,
}

-- The columns of a user that the promotion reads and writes, with the acronym of the major.
pub record Student : Type 0 where
  pub id : ℕ
  pub acronym : Option String
  pub year_level : Option ℕ
  pub promoted_rollover_at : Option ℕ

abbrev pub text_of : Option String → String
text_of none = ""
text_of (some s) = s

-- `!appliedAt || appliedAt < rolloverAt`
abbrev pub is_unapplied : ℕ → Option ℕ → Bool
is_unapplied at none = true
is_unapplied at (some t) = ltb t at

unfoldable pub is_rollover_due : Option ℕ → Option ℕ → ℕ → Bool
is_rollover_due none applied now = false
is_rollover_due (some at) applied now = if ltb now at then false else is_unapplied at applied

unfoldable pub stamp_where : Option ℕ → ℕ → Student → Student
stamp_where none at st = record st { promoted_rollover_at = some at }
stamp_where (some t) at st = st

-- The first stamp of an account, where a schedule stands.
unfoldable pub first_stamp : Option ℕ → Student → Student
first_stamp none st = st
first_stamp (some at) st = stamp_where st.promoted_rollover_at at st

module _ (lower : String → String) where
  unfoldable pub is_foundation_major : Option String → Bool
  is_foundation_major acronym =
      same_text (lower (text_of acronym)) "tc" || same_text (lower (text_of acronym)) "foundation"

  unfoldable pub year_levels_for_major : String → List ℕ
  year_levels_for_major acronym =
      if same_text (lower acronym) "dfl"
      then 1 ∷ 2 ∷ []
      else if is_foundation_major (some (lower acronym))
      then 1 ∷ 2 ∷ []
      else 3 ∷ 4 ∷ 5 ∷ []

  abbrev pub last_of : ℕ → List ℕ → ℕ
  last_of x [] = x
  last_of x (y ∷ ys) = last_of y ys

  unfoldable pub needs_department_choice : Option String → Option ℕ → Bool
  needs_department_choice acronym none = false
  needs_department_choice acronym (some y) = is_foundation_major acronym && y == 2

  unfoldable pub advance_year_level : Option String → ℕ → ℕ → ℕ
  advance_year_level acronym year rollovers =
      min (year + rollovers) (last_of 0 (year_levels_for_major (text_of acronym)))

  -- One year on, and the stamp of the rollover.
  unfoldable pub promote : Option ℕ → Student → Student
  promote rollover_at st = record st {
    promoted_rollover_at = rollover_at;
    year_level = elim (st.year_level) [
      | none ↦ none
      | some y ↦ some (advance_year_level st.acronym y 1)
    ];
  }

  unfoldable pub apply_pending_promotion : Option ℕ → ℕ → Student → Student
  apply_pending_promotion rollover_at now st =
      if is_rollover_due rollover_at st.promoted_rollover_at now
      then (if needs_department_choice st.acronym st.year_level then st else promote rollover_at st)
      else first_stamp rollover_at st

  -- The flag of `getMe`.
  unfoldable pub asks_department : Option ℕ → ℕ → Student → Bool
  asks_department rollover_at now st =
      needs_department_choice st.acronym st.year_level
      && is_rollover_due rollover_at st.promoted_rollover_at now

  -- The visits of a student, each with the schedule that it reads and the time.
  unfoldable pub visits : List (Option ℕ × ℕ) → Student → Student
  visits [] st = st
  visits ((rollover_at, now) ∷ vs) st = visits vs (apply_pending_promotion rollover_at now st)
