-- ===== src/Uploads/Pending.antt =====
-- AdminService.getPendingDocuments and flattenUpload: the review queue. The names of the uploader, the
-- department and the subject, the links and the order of the rows are left out.
use itc_sharing_backend.Base.{
  ℕ, Bool, true, false, ◌&&◌, String, Option, List, [], ◌∷◌, ◌++◌, ◌==◌, map,
}
use itc_sharing_backend.Documents.Audience.{AudienceEntry}
use itc_sharing_backend.Moderation.Reviewers.{Reviewer, scope_major_ids, in_scope}
use itc_sharing_backend.Uploads.Types.{
  ReviewStatus, is_active, is_pending, DocType, FileRow, UploadRow,
}
use itc_sharing_backend.Uploads.Staging.{Site, Desk}

-- What a review of the row acts on.
pub data ReviewScope : Type 0 where
  group file : ReviewScope

abbrev pub is_group : ReviewScope → Bool
is_group group = true
is_group file = false

pub record QueueRow : Type 0 where
  pub id : ℕ
  pub group_id : ℕ
  pub title : String
  pub doc_type : DocType
  pub uploaded_at : ℕ
  pub year_level : ℕ
  pub academic_year : Option String
  pub audience : List AudienceEntry
  pub expires_at : Option ℕ
  pub review_scope : ReviewScope
  pub file_size_kb : ℕ
  pub original_name : Option String
  pub file_status : ReviewStatus

abbrev pub queue_row : ReviewScope → UploadRow → FileRow → QueueRow
queue_row scope u f = record {
  id = f.id;
  group_id = u.id;
  title = u.title;
  doc_type = u.doc_type;
  uploaded_at = u.uploaded_at;
  year_level = u.year_level;
  academic_year = u.academic_year;
  audience = u.audience;
  expires_at = u.expires_at;
  review_scope = scope;
  file_size_kb = f.file_size_kb;
  original_name = f.original_name;
  file_status = f.status;
}

-- One row for each document that is joined to the upload.
unfoldable pub flatten_upload : ReviewScope → UploadRow → List FileRow → List QueueRow
flatten_upload scope u documents = map (queue_row scope u) documents

-- `.flat()` of the rows of each upload.
unfoldable pub flat : (UploadRow → List QueueRow) → List UploadRow → List QueueRow
flat f [] = []
flat f (u ∷ us) = f u ++ flat f us

module _ (p : Site) where
  unfoldable pub pending_groups : Reviewer → List UploadRow → List UploadRow
  pending_groups reviewer uploads =
      p.db.find
        (λ (u : UploadRow). is_pending u.status && in_scope (scope_major_ids reviewer) u.major_id)
        uploads

  abbrev pub group_of : List FileRow → UploadRow → List QueueRow
  group_of files u = flatten_upload group u (p.db.find (λ (f : FileRow). f.upload_id == u.id) files)

  unfoldable pub active_uploads : Reviewer → List UploadRow → List UploadRow
  active_uploads reviewer uploads =
      p.db.find
        (λ (u : UploadRow). is_active u.status && in_scope (scope_major_ids reviewer) u.major_id)
        uploads

  abbrev pub files_of : List FileRow → UploadRow → List QueueRow
  files_of files u =
      flatten_upload file u
        (p.db.find (λ (f : FileRow). f.upload_id == u.id && is_pending f.status) files)

  -- The files of the pending uploads, and then the pending files of the active ones.
  unfoldable pub get_pending_documents : Reviewer → Desk p → List QueueRow
  get_pending_documents reviewer s =
      flat (group_of s.files) (pending_groups reviewer s.uploads)
      ++ flat (files_of s.files) (active_uploads reviewer s.uploads)
