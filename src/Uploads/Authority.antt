-- ===== src/Uploads/Authority.antt =====
-- Proofs on the calls whose caller has no authority: what they leave.
pub mod Rules
pub mod Owners
pub mod Reviewers
use itc_sharing_backend.Base.{
  ℕ, ◌≡◌, refl, sym, Bool, true, false, ◌&&◌, String, Option, none, some, List, any, ◌==◌, arith,
  after, M, Outcome, Ends, stopped, finished, Failure, fail, Occurs, bind_get, bind-Ends,
  bind_guard, bind_expect, any-eq-count, count_zero_at, pure, here, there, ◌>>=◌, ◌>>◌, done,
}
use itc_sharing_backend.Documents.Audience.{same_id}
use itc_sharing_backend.Moderation.Reviewers.{Reviewer, can_moderate}
use itc_sharing_backend.Uploads.Types.{is_pending, Moment, UploadRow, FileRow, StagedRow}
use itc_sharing_backend.Uploads.Staging.{Site, Desk, Incoming, delete_staged_file}
use itc_sharing_backend.Uploads.Posting.{add_files}
use itc_sharing_backend.Uploads.Editing
use itc_sharing_backend.Uploads.Owning.{
  own_upload, delete, remove_file, set_file_hidden, set_hidden,
}
use itc_sharing_backend.Uploads.Editing.{UpdateDocument}
use itc_sharing_backend.Uploads.Review.{
  pending_upload, assert_can_moderate, approve_found, approve_document_group, reject_found,
  reject_document_group, guard_upload, join_upload, load_pending_file, approve_loaded, approve_file,
  reject_loaded, reject_file,
}
use itc_sharing_backend.Uploads.Calls.{
  Call, stage, unstage, post, add, edit, take_down, take_out, hide_one, hide_all, pin, approve_all,
  approve_one, reject_all, reject_one, purge, step,
}
use itc_sharing_backend.Uploads.Authority.Rules.{may, owns, oversees, Idle}
use itc_sharing_backend.Uploads.Authority.Owners.{
  delete-Idle, set_hidden-Idle, remove_file-Idle, set_file_hidden-Idle, delete_staged_file-Idle,
  add_files-Idle, update-Idle, set_pinned-Idle,
}
use itc_sharing_backend.Uploads.Authority.Reviewers.{
  approve_found-Idle, reject_found-Idle, approve_file-Idle, reject_file-Idle,
}

module _ (p : Site) (is_language : String → Bool) (year_levels : String → List ℕ) where
  -- Calls that change nothing, neither rows nor objects, budget or notices: to withdraw a staged file
  -- of another; to add files to, edit, hide, take a file from or delete the upload of another (other
  -- than by the deletion of an administrator, of which this says nothing); to pin an
  -- upload that is not active or that the caller may not view; to approve or reject an upload or a file
  -- of a department that the reviewer does not moderate.
  pub step-may :
      (c : Call) (s : Desk p) → may p c s ≡ false → step p is_language year_levels c s ≡ s
  unfolding step approve_document_group reject_document_group
  step-may (stage m u f) s h = absurd (cc)
  step-may (unstage m id u) s h = delete_staged_file-Idle p m id u s h
  step-may (post m id new_id u dto fs) s h = absurd (cc)
  step-may (add m id new_id u fs ids) s h = add_files-Idle p m id new_id u fs ids s h
  step-may (edit now id u dto) s h = update-Idle p is_language year_levels now id u dto s h
  step-may (take_down m id u) s h = delete-Idle p m id u s h
  step-may (take_out m id u) s h = remove_file-Idle p m id u s h
  step-may (hide_one now id u hidden) s h = set_file_hidden-Idle p now id u hidden s h
  step-may (hide_all now id u hidden) s h = set_hidden-Idle p now id u hidden s h
  step-may (pin now id u pinned) s h = set_pinned-Idle p now id u pinned s h
  step-may (approve_all id r) s h = bind_get (Idle s) _ s (approve_found-Idle p id r s _ refl h)
  step-may (approve_one id r) s h = approve_file-Idle p id r s h
  step-may (reject_all m id r reason) s h =
      bind_get (Idle s) _ s (reject_found-Idle p m id r reason s _ refl h)
  step-may (reject_one id r reason) s h = reject_file-Idle p id r reason s h
  step-may (purge m id) s h = absurd (cc)
