-- ===== src/Uploads/Calm/Edits.antt =====
-- Proofs on the edits of an uploader, and on the reviews that do not approve.
use itc_sharing_backend.Base.{
  ℕ, ◌≡◌, refl, Bool, true, false, String, Option, none, some, List, ◌==◌, if◌then◌else◌,
  Keeps-bind, Keeps-seq, Keeps-get, Keeps-pure, Keeps-throw, Keeps-guard, Keeps-expect,
  Keeps-modify, Failure, ◌>>=◌, ◌>>◌,
}
use itc_sharing_backend.Documents.Audience.{AudienceEntry, Major}
use itc_sharing_backend.Moderation.Reviewers.{Reviewer}
use itc_sharing_backend.Uploads.Types.{
  is_active, DocType, FileRow, UploadRow, Moment, send, put_uploads,
}
use itc_sharing_backend.Uploads.Staging.{Site, Desk}
use itc_sharing_backend.Uploads.Posting.{load_major, assert_doc_type, audience_for, check_failure}
use itc_sharing_backend.Uploads.Editing
use itc_sharing_backend.Uploads.Owning.{
  own_upload, delete_upload, delete, remove_last, remove_file, hide_file, hide_upload,
  set_file_hidden, set_hidden, set_pinned,
}
use itc_sharing_backend.Uploads.Editing.{
  UpdateDocument, resolve_edit, checked_audience, audience_if, assert_sent_type, next_expiry,
  patched,
}
use itc_sharing_backend.Uploads.Review.{
  assert_can_moderate, reject_upload, reject_found, reject_document_group, guard_upload,
  join_upload, load_pending_file, reject_row, reject_loaded, reject_file, delete_document, tell,
}
use itc_sharing_backend.Uploads.Clearance.{
  rest, NoMoreRows-delete, patched_uploads, patched_files, deleted_files, Calm, Calm-of,
  NoMoreUploads-delete, NoMoreFiles-delete,
}
use itc_sharing_backend.Uploads.Calm.Files.{CalmStep}

module _ (p : Site) where
  deleted_upload : (x : ℕ) (s : Desk p) → Calm s (delete_upload p x s)
  deleted_upload x s =
      Calm-of s (delete_upload p x s) (NoMoreUploads-delete p.db _ s.uploads)
        (NoMoreFiles-delete p.db s.uploads _ s.files) (NoMoreRows-delete p.db _ s.uploads)

  own_upload-Calm : (x u : ℕ) → CalmStep p (own_upload p x u)
  unfolding own_upload
  own_upload-Calm x u = Keeps-get _ _ (λ s.
      Keeps-bind _ _ _ (Keeps-expect _ _ _)
        (λ r. Keeps-seq _ _ _ (Keeps-guard _ _ _) (Keeps-pure _ _)))

  pub delete-Calm : (m : Moment) (x u : ℕ) → CalmStep p (delete p m x u)
  unfolding delete
  delete-Calm m x u = Keeps-bind _ _ _ (own_upload-Calm x u) (λ r.
      Keeps-get _ _
        (λ s. Keeps-seq _ _ _ (Keeps-modify _ _ rest) (Keeps-modify _ _ (deleted_upload x))))

  remove_last-Calm :
      (t : Bool) (m : Moment) (f : FileRow) (u : ℕ) → CalmStep p (remove_last p t m f u)
  unfolding ◌>>=◌ ◌>>◌
  remove_last-Calm true m f u = Keeps-bind _ _ _ (delete-Calm m f.upload_id u) (λ r. Keeps-pure _ _)
  remove_last-Calm false m f u =
      Keeps-seq _ _ _ (Keeps-modify _ _ rest)
        (Keeps-seq _ _ _ (Keeps-modify _ _ (deleted_files p.db _)) (Keeps-pure _ _))

  pub remove_file-Calm : (m : Moment) (id u : ℕ) → CalmStep p (remove_file p m id u)
  unfolding remove_file
  remove_file-Calm m id u = Keeps-get _ _ (λ s.
      Keeps-bind _ _ _ (Keeps-expect _ _ _)
        (λ f. Keeps-bind _ _ _ (own_upload-Calm f.upload_id u) (λ r. remove_last-Calm _ m f u)))

  hidden_if :
      (t hides : Bool) (x now : ℕ) (s : Desk p)
      → Calm s (
          if t
          then put_uploads
              (p.db.update (λ (r : UploadRow). r.id == x) (hide_upload p hides now) s.uploads)
              s
          else s)
  hidden_if true hides x now s =
      patched_uploads p.db _ (hide_upload p hides now) s (λ u. refl) (λ u hit h. h)
  hidden_if false hides x now s = rest s

  pub set_file_hidden-Calm :
      (now id u : ℕ) (hidden : Bool) → CalmStep p (set_file_hidden p now id u hidden)
  unfolding set_file_hidden
  set_file_hidden-Calm now id u hidden = Keeps-get _ _ (λ s.
      Keeps-bind _ _ _ (Keeps-expect _ _ _) (λ f.
        Keeps-bind _ _ _ (own_upload-Calm f.upload_id u) (λ r.
          Keeps-seq _ _ _
            (Keeps-modify _ _
              (λ d. patched_files p.db _ (hide_file p hidden now) d (λ q. (refl, refl)) (λ q h. h)))
            (Keeps-get _ _ (λ t.
              Keeps-seq _ _ _ (Keeps-modify _ _ (hidden_if _ _ f.upload_id now))
                (Keeps-pure _ _))))))

  pub set_hidden-Calm : (now x u : ℕ) (hidden : Bool) → CalmStep p (set_hidden p now x u hidden)
  unfolding set_hidden
  set_hidden-Calm now x u hidden = Keeps-bind _ _ _ (own_upload-Calm x u) (λ r.
      Keeps-modify _ _
        (λ d. patched_uploads p.db _ (hide_upload p hidden now) d (λ q. refl) (λ q hit h. h)))

  pub set_pinned-Calm : (now x u : ℕ) (pinned : Bool) → CalmStep p (set_pinned p now x u pinned)
  unfolding set_pinned
  set_pinned-Calm now x u pinned = Keeps-get _ _ (λ s. Keeps-bind _ _ _ (Keeps-expect _ _ _) (λ r.
      Keeps-seq _ _ _ (Keeps-guard _ _ _)
        (Keeps-seq _ _ _ (Keeps-guard _ _ _) (Keeps-modify _ _ rest))))

  assert_can_moderate-Calm : (r : Reviewer) (x : ℕ) → CalmStep p (assert_can_moderate p r x)
  unfolding assert_can_moderate
  assert_can_moderate-Calm r x = Keeps-guard _ _ _

  pub tell-Calm : (to : Option ℕ) (kind key : String) (x : ℕ) → CalmStep p (tell p to kind key x)
  unfolding send
  tell-Calm none kind key x = Keeps-pure _ tt
  tell-Calm (some u) kind key x = Keeps-modify _ _ rest

  reject_found-Calm :
      (m : Moment) (x : ℕ) (r : Reviewer) (reason : Option String) (o : Option UploadRow)
      → CalmStep p (reject_found p m x r reason o)
  unfolding is_active
  reject_found-Calm m x r reason none = Keeps-pure _ _
  reject_found-Calm m x r reason (some u) =
      Keeps-seq _ _ _ (assert_can_moderate-Calm r u.major_id) (
        Keeps-get _ _ (λ s. Keeps-seq _ _ _ (Keeps-modify _ _ rest) (
          Keeps-seq _ _ _
            (Keeps-modify _ _ (λ d.
              patched_uploads p.db _ (reject_upload m.now r.id reason) d (λ q. refl)
                (λ q hit h. cc)))
            (Keeps-seq _ _ _ (tell-Calm _ _ _ _) (Keeps-pure _ _)))))

  pub reject_document_group-Calm :
      (m : Moment) (x : ℕ) (r : Reviewer) (reason : Option String)
      → CalmStep p (reject_document_group p m x r reason)
  unfolding reject_document_group
  reject_document_group-Calm m x r reason = Keeps-get _ _ (λ s. reject_found-Calm m x r reason _)

  guard_upload-Calm :
      (r : Reviewer) (f : FileRow) (o : Option UploadRow) → CalmStep p (guard_upload p r f o)
  guard_upload-Calm r f none = Keeps-pure _ _
  guard_upload-Calm r f (some u) =
      Keeps-seq _ _ _ (assert_can_moderate-Calm r u.major_id) (Keeps-pure _ _)

  join_upload-Calm :
      (r : Reviewer) (o : Option FileRow) (us : List UploadRow) → CalmStep p (join_upload p r o us)
  join_upload-Calm r none us = Keeps-pure _ _
  join_upload-Calm r (some f) us = guard_upload-Calm r f _

  reject_loaded-Calm :
      (id : ℕ) (r : Reviewer) (reason : Option String) (o : Option (FileRow × UploadRow))
      → CalmStep p (reject_loaded p id r reason o)
  unfolding is_active
  reject_loaded-Calm id r reason none = Keeps-pure _ _
  reject_loaded-Calm id r reason (some (f, u)) =
      Keeps-seq _ _ _
        (Keeps-modify _ _
          (λ d. patched_files p.db _ (reject_row r.id reason) d (λ q. (refl, refl)) (λ q h. cc)))
        (Keeps-seq _ _ _ (tell-Calm _ _ _ _) (Keeps-pure _ _))

  pub reject_file-Calm :
      (id : ℕ) (r : Reviewer) (reason : Option String) → CalmStep p (reject_file p id r reason)
  unfolding reject_file load_pending_file
  reject_file-Calm id r reason =
      Keeps-bind _ _ _ (Keeps-get _ _ (λ s. join_upload-Calm r _ s.uploads))
        (λ o. reject_loaded-Calm id r reason o)

  pub delete_document-Calm : (m : Moment) (x : ℕ) → CalmStep p (delete_document p m x)
  unfolding delete_document
  delete_document-Calm m x = Keeps-get _ _ (λ s.
      Keeps-bind _ _ _ (Keeps-expect _ _ _)
        (λ u. Keeps-seq _ _ _ (Keeps-modify _ _ rest) (Keeps-modify _ _ (deleted_upload x))))

module _ (p : Site) (is_language : String → Bool) (year_levels : String → List ℕ) where
  load_major-Calm : (x : ℕ) → CalmStep p (load_major p is_language year_levels x)
  unfolding load_major
  load_major-Calm x = Keeps-get _ _ (λ s. Keeps-expect _ _ _)

  assert_doc_type-Calm :
      (m : Major) (t : DocType) → CalmStep p (assert_doc_type p is_language year_levels m t)
  unfolding assert_doc_type
  assert_doc_type-Calm m t = Keeps-guard _ _ _

  check_failure-Calm : (o : Option Failure) → CalmStep p (check_failure p is_language year_levels o)
  check_failure-Calm none = Keeps-pure _ tt
  check_failure-Calm (some e) = Keeps-throw _ e

  audience_for-Calm :
      (m : Major) (es : List AudienceEntry)
      → CalmStep p (audience_for p is_language year_levels m es)
  unfolding audience_for
  audience_for-Calm m es =
      Keeps-get _ _ (λ s. Keeps-seq _ _ _ (check_failure-Calm _) (Keeps-pure _ _))

  assert_sent_type-Calm :
      (m : Major) (o : Option DocType) → CalmStep p (assert_sent_type p is_language year_levels m o)
  assert_sent_type-Calm m none = Keeps-pure _ tt
  assert_sent_type-Calm m (some t) = assert_doc_type-Calm m t

  audience_if-Calm :
      (t : Bool) (m : Major) (sent old : List AudienceEntry)
      → CalmStep p (audience_if p is_language year_levels t m sent old)
  audience_if-Calm true m sent old = audience_for-Calm m sent
  audience_if-Calm false m sent old = Keeps-pure _ old

  checked_audience-Calm :
      (t : Bool) (dto : UpdateDocument) (u : UploadRow)
      → CalmStep p (checked_audience p is_language year_levels t dto u)
  checked_audience-Calm false dto u = Keeps-pure _ _
  checked_audience-Calm true dto u = Keeps-bind _ _ _ (load_major-Calm _) (λ major.
      Keeps-seq _ _ _ (assert_sent_type-Calm major dto.doc_type) (audience_if-Calm _ major _ _))

  next_expiry-Calm :
      (now : ℕ) (sent : Option (Option (Option ℕ))) (old : Option ℕ)
      → CalmStep p (next_expiry p is_language year_levels now sent old)
  unfolding next_expiry
  next_expiry-Calm now none old = Keeps-pure _ old
  next_expiry-Calm now (some none) old = Keeps-pure _ none
  next_expiry-Calm now (some (some none)) old = Keeps-throw _ _
  next_expiry-Calm now (some (some (some t))) old =
      Keeps-seq _ _ _ (Keeps-guard _ _ _) (Keeps-pure _ _)

  -- An edit leaves the status, or sends the upload back to review.
  patched-down :
      (t : Bool) (dto : UpdateDocument) (audience : List AudienceEntry) (expiry : Option ℕ)
      (u : UploadRow)
      → ((patched p is_language year_levels t dto audience expiry u).id ≡ u.id)
        × (is_active (patched p is_language year_levels t dto audience expiry u).status ≡ true
            → is_active u.status ≡ true)
  unfolding is_active
  patched-down true dto audience expiry u = (refl, λ h. h)
  patched-down false dto audience expiry u = (refl, λ h. cc)

  pub update-Calm :
      (now x u : ℕ) (dto : UpdateDocument)
      → CalmStep p (Editing.update p is_language year_levels now x u dto)
  unfolding Editing.update resolve_edit
  update-Calm now x u dto = Keeps-get _ _ (λ s. Keeps-bind _ _ _ (Keeps-expect _ _ _) (λ r.
      Keeps-seq _ _ _ (Keeps-guard _ _ _) (
        Keeps-bind _ _ _ (checked_audience-Calm _ dto r) (λ audience.
          Keeps-bind _ _ _ (next_expiry-Calm now dto.expires_at r.expires_at) (λ expiry.
            Keeps-seq _ _ _ (Keeps-guard _ _ _) (
              Keeps-modify _ _ (λ d.
                patched_uploads p.db _
                  (patched p is_language year_levels (is_active r.status) dto audience expiry) d
                  (λ q. (patched-down (is_active r.status) dto audience expiry q).0)
                  (λ q hit. (patched-down (is_active r.status) dto audience expiry q).1))))))))
