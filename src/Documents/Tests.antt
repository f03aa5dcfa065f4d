-- ===== src/Documents/Tests.antt =====
-- Uploads and viewers to run on, and the theorems at inputs that meet their hypotheses.
use itc_sharing_backend.Base.{
  ℕ, ◌≡◌, refl, Bool, true, false, ◌&&◌, String, Option, none, some, List, [], ◌∷◌, same_text,
  if◌then◌else◌, All, leb, length,
}
use itc_sharing_backend.Samples.{list_orm}
use itc_sharing_backend.Documents.Audience.{
  AudienceEntry, Viewer, Upload, Major, apply_visibility, resolve_audience, check_audience,
  check_entries, check_major, unique_entries, unique_ids,
}
use itc_sharing_backend.Storage.Refs.{is_some}
use itc_sharing_backend.Documents.Signature.{
  jpeg, refused, throws, mismatch, unknown_extension, validate_file_content, allowed_by_extension,
  detect_kind, first_match, check_kind, extension,
}
use itc_sharing_backend.Documents.Content.{
  accepted_as, allows, begins_as, validate_file_content-accepts, is_throw, is_inherited_name,
  validate_file_content-throws,
}
use itc_sharing_backend.Documents.Resolve.{IsValid, resolve_audience-IsValid}

abbrev third_year : Viewer
third_year = record { id = 2; is_admin = false; major_id = some 7; year_level = some 3 }

abbrev restricted : Option ℕ → Upload
restricted hidden = record {
  id = 1;
  uploader_id = some 1;
  audience = record { major_id = 7; year_level = 3 } ∷ [];
  expires_at = some 100;
  hidden_at = hidden;
  documents = [];
}

seen : apply_visibility false 50 third_year (restricted none) ≡ true
unfolding apply_visibility
seen = refl

abbrev uploader : Viewer
uploader = record { id = 1; is_admin = false; major_id = none; year_level = none }

abbrev majors : List Major
majors = record { id = 7; acronym = "gic" } ∷ record { id = 8; acronym = "dfl" } ∷ []

abbrev is_language : String → Bool
is_language a = same_text a "dfl"

abbrev years : String → List ℕ
years a = if same_text a "tc" then 1 ∷ 2 ∷ [] else 3 ∷ 4 ∷ 5 ∷ []

abbrev asked_for : List AudienceEntry
asked_for =
    record { major_id = 7; year_level = 3 }
    ∷ record { major_id = 7; year_level = 3 }
    ∷ record { major_id = 7; year_level = 4 }
    ∷ []

accepted :
    (resolve_audience list_orm is_language years majors
      (record { id = 7; acronym = "gic" })
      asked_for).1
    ≡ none
unfolding resolve_audience check_audience check_entries check_major unique_entries unique_ids
accepted = refl

resolve_audience-IsValid_example :
    All
      (IsValid list_orm is_language years majors)
      (resolve_audience list_orm is_language years majors
        (record { id = 7; acronym = "gic" })
        asked_for).0
resolve_audience-IsValid_example =
    resolve_audience-IsValid list_orm is_language years majors (record { id = 7; acronym = "gic" })
      asked_for accepted

abbrev jpeg_bytes : List ℕ
jpeg_bytes = 0xff ∷ 0xd8 ∷ 0xff ∷ 0xe0 ∷ []

mismatched : validate_file_content (λ w. w) "photo.png" jpeg_bytes ≡ refused mismatch
unfolding validate_file_content allowed_by_extension detect_kind first_match check_kind extension
mismatched = refl

unnamed : validate_file_content (λ w. w) "photo" jpeg_bytes ≡ refused unknown_extension
unfolding validate_file_content allowed_by_extension detect_kind first_match check_kind extension
unnamed = refl

crashes : validate_file_content (λ w. w) "photo.constructor" jpeg_bytes ≡ throws
unfolding validate_file_content allowed_by_extension detect_kind first_match check_kind extension
crashes = refl

validate_file_content-accepts_example :
    accepted_as jpeg (validate_file_content (λ w. w) "photo.jpg" jpeg_bytes) ≡ (
      allows (allowed_by_extension (extension (λ w. w) "photo.jpg")) jpeg
      && (leb 4 (length jpeg_bytes) && begins_as jpeg jpeg_bytes))
validate_file_content-accepts_example =
    validate_file_content-accepts (λ w. w) "photo.jpg" jpeg_bytes jpeg

validate_file_content-throws_example :
    is_throw (validate_file_content (λ w. w) "photo.constructor" jpeg_bytes) ≡ (
      is_inherited_name (extension (λ w. w) "photo.constructor")
      && is_some (detect_kind jpeg_bytes))
validate_file_content-throws_example =
    validate_file_content-throws (λ w. w) "photo.constructor" jpeg_bytes
