-- ===== src/Documents/Resolve.antt =====
-- Proofs on DocumentsService.resolveAudience.
use itc_sharing_backend.Base.{
  ℕ, ◌≡◌, refl, Bool, true, false, String, Option, none, some, List, [], ◌∷◌, ◌==◌, any, map,
  length, arith, Bool-cases, inl, inr, All, All-at, All-imp, Occurs, Orm, first-some, Failure,
}
use itc_sharing_backend.Documents.Audience.{
  AudienceEntry, Major, unique_entries, unique_ids, check_major, or_else, check_entries,
  check_audience, resolve_audience,
}

module _ (db : Orm) (is_language : String → Bool) (year_levels : String → List ℕ) where
  -- An entry names a department that exists, is not a language course, and has that year.
  pub record IsValid (majors : List Major) (e : AudienceEntry) : Type 0 where
    pub major : Major
    pub occurs : Occurs major majors
    pub named : (major.id == e.major_id) ≡ true
    pub department : is_language major.acronym ≡ false
    pub year : any (λ y. e.year_level == y) (year_levels major.acronym) ≡ true

  major-IsValid :
      (found : List Major) (e : AudienceEntry) (o : Option Major)
      → ((m : Major) → o ≡ some m → Occurs m found × ((m.id == e.major_id) ≡ true))
      → check_major db is_language year_levels e o ≡ none
      → IsValid found e
  unfolding check_major
  major-IsValid found e none there h = absurd cc
  major-IsValid found e (some m) there h =
      let (o, hit) = there m refl in
      record { major = m; occurs = o; named = hit; department = ground arith; year = ground arith }

  or_else-none : (a b : Option Failure) → or_else a b ≡ none → (a ≡ none) × (b ≡ none)
  or_else-none none b h = (refl, h)
  or_else-none (some f) b h = absurd cc

  entries-IsValid :
      (found : List Major) (es : List AudienceEntry)
      → check_entries db is_language year_levels found es ≡ none
      → All (IsValid found) es
  unfolding check_entries
  entries-IsValid found [] h = tt
  entries-IsValid found (e ∷ es) h =
      let (now, rest) = or_else-none _ (check_entries db is_language year_levels found es) h in
      (
        major-IsValid found e _ (first-some (λ (m : Major). m.id == e.major_id) found) now,
        entries-IsValid found es rest,
      )

  -- The majors that were fetched are rows of the table.
  of_table :
      (majors : List Major) (p : Major → Bool) (e : AudienceEntry)
      → IsValid (db.find p majors) e
      → IsValid majors e
  of_table majors p e v = record {
    major = v.major;
    occurs = (All-at _ v.occurs (db.find_all p majors)).0;
    named = v.named;
    department = v.department;
    year = v.year;
  }

  audience-IsValid :
      (majors : List Major) (es : List AudienceEntry)
      → check_audience db is_language year_levels majors es ≡ none
      → All (IsValid majors) es
  unfolding check_audience
  audience-IsValid majors es h =
      let ids = unique_ids [] (map (λ (e : AudienceEntry). e.major_id) es) in
      let found = db.find (λ (m : Major). any (λ n. m.id == n) ids) majors in
      elim (Bool-cases (length found == length ids)) [
        | inl e ↦
            All-imp (IsValid found) (IsValid majors) es (of_table majors _)
              (entries-IsValid found es (rw e at h))
        | inr e ↦ absurd (let bad = rw e at h in cc)
      ]

  -- An audience that resolveAudience does not refuse stores only entries whose department is a
  -- row of the majors, is not a language course and has that year.
  pub resolve_audience-IsValid :
      (majors : List Major) (major : Major) (audience : List AudienceEntry)
      → (resolve_audience db is_language year_levels majors major audience).1 ≡ none
      → All (IsValid majors) (resolve_audience db is_language year_levels majors major audience).0
  unfolding resolve_audience
  resolve_audience-IsValid majors major audience h = elim (Bool-cases (is_language major.acronym)) [
    | inl e ↦ rw e tt
    | inr e ↦ rw e (audience-IsValid majors (unique_entries [] audience) (rw e at h))
  ]
