-- ===== src/Uploads/Authority/Rules.antt =====
-- Who may make which call.
use itc_sharing_backend.Base.{
  ℕ, ◌≡◌, Bool, true, false, ◌&&◌, List, [], any, ◌==◌, arith, after, Outcome, Occurs, any-eq-count,
  count_zero_at,
}
use itc_sharing_backend.Documents.Audience.{same_id, can_view}
use itc_sharing_backend.Moderation.Reviewers.{Reviewer, can_moderate}
use itc_sharing_backend.Uploads.Types.{is_active, UploadRow, FileRow, StagedRow}
use itc_sharing_backend.Uploads.Staging.{Site, Desk}
use itc_sharing_backend.Uploads.Calls.{
  Call, unstage, add, edit, take_down, take_out, hide_one, hide_all, approve_all, approve_one,
  reject_all, reject_one, pin,
}
use itc_sharing_backend.Uploads.Owning.{view_of, get_viewer}

-- The upload has this uploader.
abbrev pub owns : ℕ → ℕ → List UploadRow → Bool
owns caller x us = any (λ (u : UploadRow). u.id == x && same_id u.uploader_id caller) us

-- The reviewer moderates the department of the upload.
abbrev pub oversees : Reviewer → ℕ → List UploadRow → Bool
oversees r x us = any (λ (u : UploadRow). u.id == x && can_moderate r u.major_id) us

module _ (p : Site) where
  -- Who may make a call: the user who staged a file, the uploader, a reviewer of the department, and
  -- to pin an upload a viewer of it while it is active. Anyone may stage and post, and the deletion by
  -- an administrator names no caller: the guard of its route is what it relies on.
  abbrev pub may : Call → Desk p → Bool
  may (unstage m id caller) s =
      any (λ (r : StagedRow). r.id == id && r.uploader_id == caller) s.staged
  may (add m id new_id caller fs ids) s = owns caller id s.uploads
  may (edit now id caller dto) s = owns caller id s.uploads
  may (take_down m id caller) s = owns caller id s.uploads
  may (hide_all now id caller hidden) s = owns caller id s.uploads
  may (take_out m file_id caller) s =
      any (λ (f : FileRow). f.id == file_id && owns caller f.upload_id s.uploads) s.files
  may (hide_one now file_id caller hidden) s =
      any (λ (f : FileRow). f.id == file_id && owns caller f.upload_id s.uploads) s.files
  may (approve_all id r) s = oversees r id s.uploads
  may (reject_all m id r reason) s = oversees r id s.uploads
  may (approve_one file_id r) s =
      any (λ (f : FileRow). f.id == file_id && oversees r f.upload_id s.uploads) s.files
  may (reject_one file_id r reason) s =
      any (λ (f : FileRow). f.id == file_id && oversees r f.upload_id s.uploads) s.files
  may (pin now id caller pinned) s =
      any
        (λ (u : UploadRow).
          u.id == id
          && (is_active u.status && can_view now (view_of p u []) (get_viewer p caller s)))
        s.uploads
  may c s = true

pub not_any :
    {A : Type 0} (q : A → Bool) {r : A} {xs : List A} → any q xs ≡ false → Occurs r xs → q r ≡ false
not_any q h o = count_zero_at q o (any-eq-count q _ h)

-- The state is as it was.
abbrev pub Idle : {S A : Type 0} → S → Outcome S A → Type 0
Idle s o = after o ≡ s

-- The file that is found is in an upload of another.
pub foreign_file :
    (b : ℕ → Bool) (id : ℕ) (fs : List FileRow) (f : FileRow)
    → any (λ (r : FileRow). r.id == id && b r.upload_id) fs ≡ false
    → Occurs f fs
    → (f.id == id) ≡ true
    → b f.upload_id ≡ false
foreign_file b id fs f h o hit =
    let miss : (f.id == id && b f.upload_id) ≡ false = not_any _ h o in ground arith
