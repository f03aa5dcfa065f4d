-- ===== src/Uploads/Review.antt =====
-- AdminService: approveDocumentGroup, rejectDocumentGroup, loadPendingFile,
-- approveFile, rejectFile and deleteDocument.
use itc_sharing_backend.Base.{
  ℕ, Bool, true, false, not, ◌&&◌, String, Option, none, some, List, [], ◌∷◌, ◌==◌, if◌then◌else◌,
  is_empty, M, pure, get, modify, guard, expect, forbidden, not_found, ◌>>=◌, ◌>>◌,
}
use itc_sharing_backend.Storage.Refs.{extract_key}
use itc_sharing_backend.Moderation.Reviewers.{Reviewer, can_moderate}
use itc_sharing_backend.Uploads.Types.{
  active, rejected, is_pending, FileRow, UploadRow, user, Moment, put_uploads, put_files, send,
}
use itc_sharing_backend.Uploads.Names.{or_empty}
use itc_sharing_backend.Uploads.Staging.{Site, Desk, drop_objects}
use itc_sharing_backend.Uploads.Owning.{delete_upload}

abbrev pub approve_upload : ℕ → UploadRow → UploadRow
approve_upload reviewer_id u = record u { status = active; reviewed_by = some reviewer_id }

abbrev pub reject_upload : ℕ → ℕ → Option String → UploadRow → UploadRow
reject_upload now reviewer_id reason u = record u {
  status = rejected;
  rejection_reason = reason;
  rejected_at = some now;
  reviewed_by = some reviewer_id;
}

abbrev pub approve_row : ℕ → FileRow → FileRow
approve_row reviewer_id f = record f {
  status = active;
  reviewed_by = some reviewer_id;
  rejection_reason = none;
}

abbrev pub reject_row : ℕ → Option String → FileRow → FileRow
reject_row reviewer_id reason f = record f {
  status = rejected;
  rejection_reason = reason;
  reviewed_by = some reviewer_id;
}

-- The truth value of a reason: JavaScript reads the empty text as false.
abbrev pub is_given : Option String → Bool
is_given reason = not (is_empty (or_empty reason))

module _ (p : Site) where
  abbrev pub pending_upload : ℕ → UploadRow → Bool
  pending_upload upload_id u = u.id == upload_id && is_pending u.status

  -- A notice to the uploader, if there is one.
  abbrev pub tell : Option ℕ → String → String → ℕ → M (Desk p) (Unit {0})
  tell none kind key ref_id = pure tt
  tell (some uploader_id) kind key ref_id =
      send (record { to = user uploader_id; kind = kind; key = key; ref_id = ref_id })

  unfoldable pub assert_can_moderate : Reviewer → ℕ → M (Desk p) (Unit {0})
  unfolding can_moderate
  assert_can_moderate reviewer major_id =
      guard (can_moderate reviewer major_id) (forbidden "You do not moderate this department")

  -- The answer is whether there was an upload to approve.
  abbrev pub approve_found : ℕ → Reviewer → Option UploadRow → M (Desk p) Bool
  approve_found upload_id reviewer none = pure false
  approve_found upload_id reviewer (some u) = do
    assert_can_moderate reviewer u.major_id
    modify (λ d.
        put_uploads
          (p.db.update (λ (r : UploadRow). r.id == upload_id) (approve_upload reviewer.id)
            d.uploads)
          d)
    s ← get
    let count = p.db.count_by (λ (f : FileRow). f.upload_id == upload_id) s.files
    tell u.uploader_id "document_approved"
        (if count == 1 then "documentApproved" else "documentsApproved") upload_id
    pure true

  unfoldable pub approve_document_group : ℕ → Reviewer → M (Desk p) Bool
  approve_document_group upload_id reviewer = do
    s ← get
    approve_found upload_id reviewer (p.db.find_one (pending_upload upload_id) s.uploads)

  abbrev pub url_keys : List FileRow → List (Option String)
  url_keys [] = []
  url_keys (f ∷ fs) = extract_key p.public_base (some f.file_url) ∷ url_keys fs

  abbrev pub rejected_key : Bool → Bool → String
  rejected_key true true = "documentsRejectedReason"
  rejected_key true false = "documentsRejected"
  rejected_key false true = "documentRejectedReason"
  rejected_key false false = "documentRejected"

  abbrev pub many : List FileRow → Bool
  many [] = false
  many (f ∷ []) = false
  many (f ∷ g ∷ fs) = true

  abbrev pub reject_found :
      Moment → ℕ → Reviewer → Option String → Option UploadRow → M (Desk p) Bool
  reject_found m upload_id reviewer reason none = pure false
  reject_found m upload_id reviewer reason (some u) = do
    assert_can_moderate reviewer u.major_id
    s ← get
    let files = p.db.find (λ (f : FileRow). f.upload_id == upload_id) s.files
    modify (drop_objects p m (url_keys files))
    modify (λ d.
        put_uploads
          (p.db.update (λ (r : UploadRow). r.id == upload_id)
            (reject_upload m.now reviewer.id reason) d.uploads)
          d)
    tell u.uploader_id "document_rejected" (rejected_key (many files) (is_given reason)) upload_id
    pure true

  unfoldable pub reject_document_group : Moment → ℕ → Reviewer → Option String → M (Desk p) Bool
  reject_document_group m upload_id reviewer reason = do
    s ← get
    reject_found m upload_id reviewer reason (p.db.find_one (pending_upload upload_id) s.uploads)

  -- `loadPendingFile` on the file, and on the upload that it joined.
  abbrev pub guard_upload :
      Reviewer → FileRow → Option UploadRow → M (Desk p) (Option (FileRow × UploadRow))
  guard_upload reviewer f none = pure none
  guard_upload reviewer f (some u) = do assert_can_moderate reviewer u.major_id; pure (some (f, u))

  abbrev pub join_upload :
      Reviewer → Option FileRow → List UploadRow → M (Desk p) (Option (FileRow × UploadRow))
  join_upload reviewer none uploads = pure none
  join_upload reviewer (some f) uploads =
      guard_upload reviewer f (p.db.find_one (λ (u : UploadRow). u.id == f.upload_id) uploads)

  unfoldable pub load_pending_file : ℕ → Reviewer → M (Desk p) (Option (FileRow × UploadRow))
  load_pending_file file_id reviewer = do
    s ← get
    join_upload reviewer
        (p.db.find_one (λ (f : FileRow). f.id == file_id && is_pending f.status) s.files) s.uploads

  abbrev pub set_file : ℕ → (FileRow → FileRow) → Desk p → Desk p
  set_file file_id f d = put_files (p.db.update (λ (r : FileRow). r.id == file_id) f d.files) d

  abbrev pub approve_loaded : ℕ → Reviewer → Option (FileRow × UploadRow) → M (Desk p) Bool
  approve_loaded file_id reviewer none = pure false
  approve_loaded file_id reviewer (some (f, u)) = do
    modify (set_file file_id (approve_row reviewer.id))
    tell u.uploader_id "document_approved" "fileApproved" f.upload_id
    pure true

  unfoldable pub approve_file : ℕ → Reviewer → M (Desk p) Bool
  approve_file file_id reviewer = do
    found ← load_pending_file file_id reviewer
    approve_loaded file_id reviewer found

  abbrev pub reject_loaded :
      ℕ → Reviewer → Option String → Option (FileRow × UploadRow) → M (Desk p) Bool
  reject_loaded file_id reviewer reason none = pure false
  reject_loaded file_id reviewer reason (some (f, u)) = do
    modify (set_file file_id (reject_row reviewer.id reason))
    tell u.uploader_id "document_rejected"
        (if is_given reason then "fileRejectedReason" else "fileRejected") f.upload_id
    pure true

  unfoldable pub reject_file : ℕ → Reviewer → Option String → M (Desk p) Bool
  reject_file file_id reviewer reason = do
    found ← load_pending_file file_id reviewer
    reject_loaded file_id reviewer reason found

  unfoldable pub delete_document : Moment → ℕ → M (Desk p) (Unit {0})
  delete_document m upload_id = do
    s ← get
    u ←
        expect (p.db.find_one (λ (r : UploadRow). r.id == upload_id) s.uploads)
          (not_found "Upload not found")
    modify (
        drop_objects p m (url_keys (p.db.find (λ (f : FileRow). f.upload_id == upload_id) s.files)))
    modify (delete_upload p upload_id)
