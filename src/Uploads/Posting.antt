-- ===== src/Uploads/Posting.antt =====
-- DocumentsService: claimStagedFiles, uploadFile, uploadMany and addFiles.
use itc_sharing_backend.Base.{
  ℕ, Bool, true, false, not, ◌&&◌, String, Option, none, some, List, [], ◌∷◌, ◌++◌, ◌==◌, any,
  length, if◌then◌else◌, is_empty, trim, joined, first, M, pure, get, modify, guard, expect,
  halt_if, throw, Failure, bad_request, internal, not_found, forbidden, ◌>>=◌, ◌>>◌,
}
use itc_sharing_backend.Storage.Refs.{ref_of}
use itc_sharing_backend.Documents.Audience.{
  AudienceEntry, Major, unique_ids, resolve_audience, same_id,
}
use itc_sharing_backend.Uploads.Types.{
  ReviewStatus, pending, active, is_active, DocType, offers, StagedRow, FileRow, UploadRow,
  reviewers, Moment, put_uploads, put_files, put_staged, send,
}
use itc_sharing_backend.Uploads.Names.{extension_of, base_key, build_key, resolve_title}
use itc_sharing_backend.Uploads.Staging.{
  Incoming, Vetted, Preview, size_kb, document_ref, Site, Desk, vet_file, reserve_quota,
  store_object, build_preview, qualified, undo, one_of,
}

-- `dto.description?.trim() || null`
abbrev pub trimmed : Option String → Option String
trimmed none = none
trimmed (some s) = if is_empty (trim s) then none else some (trim s)

-- CreateDocumentDto, after validation.
pub record CreateDocument : Type 0 where
  pub title : Option String
  pub description : Option String
  pub doc_type : DocType
  pub major_id : ℕ
  pub subject_id : Option ℕ
  pub year_level : ℕ
  pub academic_year : Option String
  pub audience : List AudienceEntry
  pub expires_at : Option ℕ
  pub staged_file_ids : List ℕ

abbrev pub no_files : {A B : Type 0} → List A → List B → Bool
no_files [] [] = true
no_files xs ys = false

module _ (p : Site) (is_language : String → Bool) (year_levels : String → List ℕ) where
  unfoldable pub load_major : ℕ → M (Desk p) Major
  load_major major_id = do
    s ← get
    expect (p.db.find_one (λ (m : Major). m.id == major_id) s.majors)
        (bad_request "Invalid major_id")

  unfoldable pub assert_doc_type : Major → DocType → M (Desk p) (Unit {0})
  assert_doc_type major doc_type =
      guard (offers (is_language major.acronym) doc_type)
        (bad_request "This doc_type is not available for the department")

  abbrev pub check_failure : Option Failure → M (Desk p) (Unit {0})
  check_failure none = pure tt
  check_failure (some e) = throw e

  unfoldable pub audience_for : Major → List AudienceEntry → M (Desk p) (List AudienceEntry)
  audience_for major audience = do
    s ← get
    let out = resolve_audience p.db is_language year_levels s.majors major audience
    check_failure out.1
    pure out.0

module _ (p : Site) where
  abbrev pub file_row : ℕ → ReviewStatus → (ℕ → ℕ) → StagedRow → FileRow
  file_row upload_id status new_id r = record {
    id = new_id r.id;
    upload_id = upload_id;
    file_url = r.file_url;
    storage_key = some (ref_of (document_ref r.storage_key));
    preview_key = qualified p r.preview_key;
    preview_url = r.preview_url;
    original_name = some r.original_name;
    file_size_kb = r.file_size_kb;
    status = status;
    rejection_reason = none;
    reviewed_by = none;
    hidden_at = none;
  }

  abbrev pub add_row : FileRow → Option (List FileRow) → Option (List FileRow)
  add_row row none = none
  add_row row (some rows) = some (row ∷ rows)

  -- One row for each identifier, in the order of the form; a missing one is a TypeError.
  abbrev pub row_for :
      ℕ → ReviewStatus → (ℕ → ℕ) → Option StagedRow → Option (List FileRow) → Option (List FileRow)
  row_for upload_id status new_id none rest = none
  row_for upload_id status new_id (some r) rest = add_row (file_row upload_id status new_id r) rest

  unfoldable pub claimed_rows :
      ℕ → ReviewStatus → (ℕ → ℕ) → List StagedRow → List ℕ → Option (List FileRow)
  claimed_rows upload_id status new_id staged [] = some []
  claimed_rows upload_id status new_id staged (id ∷ ids) =
      row_for upload_id status new_id (first (λ (r : StagedRow). r.id == id) staged)
        (claimed_rows upload_id status new_id staged ids)

  -- `claimStagedFiles`; `new_id` draws the identifiers of the rows. An error of the signing comes
  -- after the writes, which stay.
  unfoldable pub claim_staged_files :
      Bool → ℕ → ℕ → List ℕ → ReviewStatus → (ℕ → ℕ) → M (Desk p) (Unit {0})
  claim_staged_files signs upload_id uploader_id staged_ids status new_id = do
    s ← get
    let unique = unique_ids [] staged_ids
    let staged =
        p.db.find (λ (r : StagedRow). one_of p unique r.id && r.uploader_id == uploader_id) s.staged
    guard (length staged == length unique) (bad_request "Unknown staged file")
    rows ←
        expect (claimed_rows upload_id status new_id staged unique)
          (internal "Cannot read properties of undefined")
    modify (λ d. put_files (rows ++ d.files) d)
    modify (λ d. put_staged (p.db.delete (λ (r : StagedRow). one_of p unique r.id) d.staged) d)
    guard signs (internal "Failed to sign the links")

  abbrev pub sent_row : ℕ → ReviewStatus → Incoming → String → String → Preview → Vetted → FileRow
  sent_row upload_id status f key url preview v = record {
    id = f.id;
    upload_id = upload_id;
    file_url = url;
    storage_key = some (ref_of (document_ref key));
    preview_key = qualified p preview.key;
    preview_url = preview.url;
    original_name = some f.original_name;
    file_size_kb = size_kb v.size;
    status = status;
    rejection_reason = none;
    reviewed_by = none;
    hidden_at = none;
  }

  abbrev pub object_key : ℕ → ℕ → Incoming → String
  object_key major_id uploader_id f =
      build_key p.lower (joined (p.text_of major_id ∷ "/" ∷ p.text_of uploader_id ∷ []))
        (extension_of f.original_name) f.uuid

  -- `uploadFile`: the same gate as for a staged file, then the row of the upload.
  unfoldable pub upload_file : Moment → ℕ → ℕ → ℕ → ReviewStatus → Incoming → M (Desk p) (Unit {0})
  upload_file m upload_id uploader_id major_id status f = do
    reserve_quota p uploader_id (length f.buffer)
    v ← vet_file p f
    let key = object_key major_id uploader_id f
    url ← store_object p uploader_id f key
    preview ← build_preview p (base_key key) f
    halt_if (not f.saved) (undo p m uploader_id f key preview)
        (internal "Failed to save document record")
    modify (λ d. put_files (sent_row upload_id status f key url preview v ∷ d.files) d)
    halt_if (not f.signed) (undo p m uploader_id f key preview)
        (internal "Failed to save document record")

  unfoldable pub upload_files :
      Moment → ℕ → ℕ → ℕ → ReviewStatus → List Incoming → M (Desk p) (Unit {0})
  unfolding upload_file
  upload_files m upload_id uploader_id major_id status [] = pure tt
  upload_files m upload_id uploader_id major_id status (f ∷ fs) = do
    upload_file m upload_id uploader_id major_id status f
    upload_files m upload_id uploader_id major_id status fs

  -- The staged files, if there are any, and then those of the request.
  unfoldable pub attach :
      Moment → ℕ → ℕ → ℕ → ReviewStatus → (ℕ → ℕ) → List ℕ → List Incoming → M (Desk p) (Unit {0})
  attach m upload_id uploader_id major_id status new_id [] files =
      upload_files m upload_id uploader_id major_id status files
  attach m upload_id uploader_id major_id status new_id (i ∷ is) files = do
    claim_staged_files m.signs upload_id uploader_id (i ∷ is) status new_id
    upload_files m upload_id uploader_id major_id status files

  -- `findOne({ where: { id } })`, which looks for any row where `id` is undefined.
  abbrev staged_name : List ℕ → List StagedRow → Option StagedRow
  staged_name [] rows = p.db.find_one (λ (r : StagedRow). true) rows
  staged_name (i ∷ is) rows = p.db.find_one (λ (r : StagedRow). r.id == i) rows

  abbrev name_or : Option StagedRow → String
  name_or none = "Untitled"
  name_or (some r) = r.original_name

  -- The name that the title falls back on: of the first file, or of the first staged one, whoever
  -- staged it.
  abbrev pub first_name : List Incoming → List ℕ → List StagedRow → String
  first_name [] ids rows = name_or (staged_name ids rows)
  first_name (f ∷ fs) ids rows =
      if is_empty f.original_name then name_or (staged_name ids rows) else f.original_name

module _ (p : Site) (is_language : String → Bool) (year_levels : String → List ℕ) where
  abbrev pub upload_row : ℕ → ℕ → ℕ → CreateDocument → List AudienceEntry → String → UploadRow
  upload_row id now uploader_id dto audience title = record {
    id = id;
    uploader_id = some uploader_id;
    major_id = dto.major_id;
    subject_id = dto.subject_id;
    title = title;
    description = trimmed dto.description;
    doc_type = dto.doc_type;
    year_level = dto.year_level;
    academic_year = dto.academic_year;
    status = pending;
    audience = audience;
    expires_at = dto.expires_at;
    hidden_at = none;
    reviewed_by = none;
    rejection_reason = none;
    rejected_at = none;
    uploaded_at = now;
  }

  abbrev pub is_known : Option ℕ → List ℕ → Bool
  is_known none ids = true
  is_known (some id) ids = any (λ n. n == id) ids

  -- The checks and the row of `uploadMany`.
  unfoldable pub create_upload :
      Moment → ℕ → ℕ → CreateDocument → List Incoming → M (Desk p) UploadRow
  create_upload m id uploader_id dto files = do
    guard (not (no_files files dto.staged_file_ids)) (bad_request "No files provided")
    major ← load_major p is_language year_levels dto.major_id
    assert_doc_type p is_language year_levels major dto.doc_type
    audience ← audience_for p is_language year_levels major dto.audience
    s ← get
    let title = resolve_title dto.title (first_name p files dto.staged_file_ids s.staged)
    guard (is_known dto.subject_id s.subjects) (bad_request "Invalid major_id or subject_id")
    guard (not (any (λ (u : UploadRow). u.id == id) s.uploads))
        (internal "Failed to create upload record")
    let row = upload_row id m.now uploader_id dto audience title
    modify (λ d. put_uploads (row ∷ d.uploads) d)
    pure row

  unfoldable pub upload_many :
      Moment → ℕ → (ℕ → ℕ) → ℕ → CreateDocument → List Incoming → M (Desk p) (Unit {0})
  upload_many m id new_id uploader_id dto files = do
    row ← create_upload m id uploader_id dto files
    attach p m row.id uploader_id dto.major_id active new_id dto.staged_file_ids files
    send (record {
      to = reviewers dto.major_id uploader_id;
      kind = "document_pending";
      key = "documentPending";
      ref_id = row.id;
    })

-- What the edit of an upload that is not active does to its row.
abbrev pub back_to_review : UploadRow → UploadRow
back_to_review u = record u { status = pending; rejection_reason = none }

module _ (p : Site) where
  unfoldable pub add_files :
      Moment → ℕ → (ℕ → ℕ) → ℕ → List Incoming → List ℕ → M (Desk p) (Unit {0})
  add_files m upload_id new_id user_id files staged_ids = do
    guard (not (no_files files staged_ids)) (bad_request "No files provided")
    s ← get
    upload ←
        expect (p.db.find_one (λ (u : UploadRow). u.id == upload_id) s.uploads)
          (not_found "Upload not found")
    guard (same_id upload.uploader_id user_id) (forbidden "Not your upload")
    let status = if is_active upload.status then pending else active
    attach p m upload_id user_id upload.major_id status new_id staged_ids files
    modify (λ d.
        if is_active upload.status
        then d
        else put_uploads
            (p.db.update (λ (u : UploadRow). u.id == upload_id) back_to_review d.uploads) d)
