-- ===== src/Documents/Audience.antt =====
-- The audience of an upload in DocumentsService: canView, applyVisibility, visibleFiles, and
-- resolveAudience. The SQL condition of the feed is a test on a row, in which a comparison with NULL
-- does not hold.
use itc_sharing_backend.Base.{
  ℕ, Bool, true, false, not, ◌&&◌, ◌||◌, String, Option, none, some, List, [], ◌∷◌, ◌++◌, ◌==◌, ltb,
  leb, any, map, length, if◌then◌else◌, Orm, keep, first, Failure, bad_request, internal,
}

pub record AudienceEntry : Type 0 where
  pub major_id : ℕ
  pub year_level : ℕ

pub record Viewer : Type 0 where
  pub id : ℕ
  pub is_admin : Bool
  pub major_id : Option ℕ
  pub year_level : Option ℕ

pub record DocumentFile : Type 0 where
  pub id : ℕ
  pub is_active : Bool
  pub hidden_at : Option ℕ

pub record Upload : Type 0 where
  pub id : ℕ
  pub uploader_id : Option ℕ
  pub audience : List AudienceEntry
  pub expires_at : Option ℕ
  pub hidden_at : Option ℕ
  pub documents : List DocumentFile

abbrev pub same_id : Option ℕ → ℕ → Bool
same_id none n = false
same_id (some m) n = m == n

abbrev pub is_set : Option ℕ → Bool
is_set none = false
is_set (some t) = true

abbrev pub is_nil : List AudienceEntry → Bool
is_nil [] = true
is_nil (e ∷ es) = false

abbrev pub is_expired : ℕ → Option ℕ → Bool
is_expired now none = false
is_expired now (some t) = leb t now

-- An entry is the department and year of a viewer who has both.
abbrev pub matches : Viewer → AudienceEntry → Bool
matches v e = same_id v.major_id e.major_id && same_id v.year_level e.year_level

unfoldable pub can_view : ℕ → Upload → Viewer → Bool
can_view now u v =
    if v.is_admin
    then true
    else if same_id u.uploader_id v.id
    then true
    else if is_expired now u.expires_at
    then false
    else if is_set u.hidden_at
    then false
    else if is_nil u.audience
    then true
    else any (matches v) u.audience

-- `expires_at IS NULL OR expires_at > now()`
abbrev pub is_unexpired : ℕ → Option ℕ → Bool
is_unexpired now none = true
is_unexpired now (some t) = ltb now t

unfoldable pub apply_visibility : Bool → ℕ → Viewer → Upload → Bool
apply_visibility include_expired now v u =
    let not_expired = include_expired || is_unexpired now u.expires_at in
    let not_hidden = include_expired || not (is_set u.hidden_at) in
    if v.is_admin
    then not_expired && not_hidden
    else not_expired
      && not_hidden
      && (same_id u.uploader_id v.id || is_nil u.audience || any (matches v) u.audience)

-- Files of an upload that a viewer may see.
unfoldable pub visible_files : Upload → Viewer → List DocumentFile
visible_files u v =
    if same_id u.uploader_id v.id || v.is_admin
    then u.documents
    else keep (λ d. d.is_active && not (is_set d.hidden_at)) u.documents

pub record Major : Type 0 where
  pub id : ℕ
  pub acronym : String

abbrev pub same_entry : AudienceEntry → AudienceEntry → Bool
same_entry a b = a.major_id == b.major_id && a.year_level == b.year_level

-- `new Map(...).values()`: each pair once, at its first place.
unfoldable pub unique_entries : List AudienceEntry → List AudienceEntry → List AudienceEntry
unique_entries seen [] = seen
unique_entries seen (e ∷ es) =
    unique_entries (if any (same_entry e) seen then seen else seen ++ (e ∷ [])) es

unfoldable pub unique_ids : List ℕ → List ℕ → List ℕ
unique_ids seen [] = seen
unique_ids seen (n ∷ ns) = unique_ids (if any (λ m. n == m) seen then seen else seen ++ (n ∷ [])) ns

abbrev pub Checked : Type 0
Checked = Option Failure

-- The first failure.
abbrev pub or_else : Checked → Checked → Checked
or_else none rest = rest
or_else (some f) rest = some f

-- The majors, a test for the language department and the years of an acronym.
module _ (db : Orm) (is_language : String → Bool) (year_levels : String → List ℕ) where
  -- One round of the loop over the entries, on the major that the entry names.
  unfoldable pub check_major : AudienceEntry → Option Major → Checked
  check_major e none = some (internal "Cannot read properties of undefined")
  check_major e (some m) =
      if is_language m.acronym
      then some (bad_request "A language course cannot be an audience department")
      else if any (λ y. e.year_level == y) (year_levels m.acronym)
      then none
      else some (bad_request "The department does not have this year")

  abbrev pub check_entry : List Major → AudienceEntry → Checked
  check_entry found e = check_major e (first (λ (m : Major). m.id == e.major_id) found)

  unfoldable pub check_entries : List Major → List AudienceEntry → Checked
  check_entries found [] = none
  check_entries found (e ∷ es) =
      let rest = check_entries found es in or_else (check_entry found e) rest

  unfoldable pub check_audience : List Major → List AudienceEntry → Checked
  check_audience majors unique =
      let ids = unique_ids [] (map (λ e. e.major_id) unique) in
      let found = db.find (λ (m : Major). any (λ n. m.id == n) ids) majors in
      let entries = check_entries found unique in
      if length found == length ids
      then entries
      else some (bad_request "Unknown department in audience")

  -- The audience that is stored, or why it is refused.
  unfoldable pub resolve_audience :
      List Major → Major → List AudienceEntry → List AudienceEntry × Checked
  resolve_audience majors major audience =
      if is_language major.acronym
      then ([], none)
      else (unique_entries [] audience, check_audience majors (unique_entries [] audience))
