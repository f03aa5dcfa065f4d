-- ===== src/Uploads/Types.antt =====
-- The rows of modules/documents/entities and the tables that the documents service and the reviews
-- of the admin service share, with the object store and the upload budget.
use itc_sharing_backend.Base.{
  ℕ, ◌+◌, ◌-◌, ◌≡◌, Bool, true, false, String, Option, List, ◌∷◌, ◌==◌, if◌then◌else◌, M, modify,
}
use itc_sharing_backend.Documents.Audience.{AudienceEntry, Viewer, Major}
use itc_sharing_backend.Storage.Refs.{Objects}

pub data ReviewStatus : Type 0 where
  pending active rejected : ReviewStatus

unfoldable pub is_active : ReviewStatus → Bool
is_active active = true
is_active st = false

unfoldable pub is_pending : ReviewStatus → Bool
is_pending pending = true
is_pending st = false

pub data DocType : Type 0 where
  note td tp project lesson thesis grammar vocabulary speaking listening reading writing : DocType
  practice_exercises exam_preparation other : DocType

-- LANGUAGE_DOC_TYPES and DEPARTMENT_DOC_TYPES, as a test.
unfoldable pub offers : Bool → DocType → Bool
offers language note = if language then false else true
offers language td = if language then false else true
offers language tp = if language then false else true
offers language project = if language then false else true
offers language lesson = if language then false else true
offers language thesis = if language then false else true
offers language exam_preparation = true
offers language other = true
offers language t = language

pub record StagedRow : Type 0 where
  pub id : ℕ
  pub uploader_id : ℕ
  pub file_url : String
  pub storage_key : String
  pub preview_url : Option String
  pub preview_key : Option String
  pub original_name : String
  pub file_size_kb : ℕ
  pub created_at : ℕ

pub record FileRow : Type 0 where
  pub id : ℕ
  pub upload_id : ℕ
  pub file_url : String
  pub storage_key : Option String
  pub preview_key : Option String
  pub preview_url : Option String
  pub original_name : Option String
  pub file_size_kb : ℕ
  pub status : ReviewStatus
  pub rejection_reason : Option String
  pub reviewed_by : Option ℕ
  pub hidden_at : Option ℕ

pub record UploadRow : Type 0 where
  pub id : ℕ
  pub uploader_id : Option ℕ
  pub major_id : ℕ
  pub subject_id : Option ℕ
  pub title : String
  pub description : Option String
  pub doc_type : DocType
  pub year_level : ℕ
  pub academic_year : Option String
  pub status : ReviewStatus
  pub audience : List AudienceEntry
  pub expires_at : Option ℕ
  pub hidden_at : Option ℕ
  pub reviewed_by : Option ℕ
  pub rejection_reason : Option String
  pub rejected_at : Option ℕ
  pub uploaded_at : ℕ

pub record Pin : Type 0 where
  pub user_id : ℕ
  pub upload_id : ℕ
  pub pinned_at : ℕ

-- Whom a notice is for: a user, or the reviewers of a department but one.
pub data Recipient : Type 0 where
  user : ℕ → Recipient
  reviewers : (major_id except_user_id : ℕ) → Recipient

pub record Notice : Type 0 where
  pub to : Recipient
  pub kind : String
  pub key : String
  pub ref_id : ℕ

-- What the documents service relies on in the upload budget: a refusal charges nothing, an
-- acceptance charges the bytes to the user, and a refund takes them back.
pub record Quota : Type 1 where
  pub State : Type 0
  pub used : State → ℕ → ℕ
  pub consume : ℕ → ℕ → State → Bool × State
  pub refund : ℕ → ℕ → State → State
  pub refused_used :
      (u n : ℕ) (s : State) (v : ℕ)
      → (consume u n s).0 ≡ false
      → used (consume u n s).1 v ≡ used s v
  pub accepted_used :
      (u n : ℕ) (s : State) (v : ℕ)
      → (consume u n s).0 ≡ true
      → used (consume u n s).1 v ≡ used s v + (if v == u then n else 0)
  pub refund_used :
      (u n : ℕ) (s : State) (v : ℕ) → used (refund u n s) v ≡ used s v - (if v == u then n else 0)

pub record Shelf (q : Quota) : Type 0 where
  pub viewers : List Viewer
  pub majors : List Major
  pub subjects : List ℕ
  pub uploads : List UploadRow
  pub files : List FileRow
  pub staged : List StagedRow
  pub pins : List Pin
  pub objects : Objects
  pub budget : q.State
  pub outbox : List Notice

-- The time of a call, which buckets answer a deletion, and whether the links to claimed files can be
-- signed.
pub record Moment : Type 0 where
  pub now : ℕ
  pub reachable : String → Bool
  pub signs : Bool

module _ {q : Quota} where
  abbrev pub put_uploads : List UploadRow → Shelf q → Shelf q
  put_uploads rows s = record s { uploads = rows }

  abbrev pub put_files : List FileRow → Shelf q → Shelf q
  put_files rows s = record s { files = rows }

  abbrev pub put_staged : List StagedRow → Shelf q → Shelf q
  put_staged rows s = record s { staged = rows }

  abbrev pub put_objects : Objects → Shelf q → Shelf q
  put_objects os s = record s { objects = os }

  abbrev pub put_budget : q.State → Shelf q → Shelf q
  put_budget b s = record s { budget = b }

  unfoldable pub send : Notice → M (Shelf q) (Unit {0})
  send n = modify (λ d. record d { outbox = n ∷ d.outbox })
