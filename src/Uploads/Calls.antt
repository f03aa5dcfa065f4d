-- ===== src/Uploads/Calls.antt =====
-- The calls of DocumentsService and of the reviews of AdminService, and histories of them.
use itc_sharing_backend.Base.{ℕ, Bool, String, Option, List, [], ◌∷◌, after}
use itc_sharing_backend.Moderation.Reviewers.{Reviewer}
use itc_sharing_backend.Uploads.Types.{Moment}
use itc_sharing_backend.Uploads.Staging.{Site, Desk, Incoming, stage_file, delete_staged_file}
use itc_sharing_backend.Uploads.Posting.{CreateDocument, upload_many, add_files}
use itc_sharing_backend.Uploads.Owning.{
  delete, remove_file, set_file_hidden, set_hidden, set_pinned,
}
use itc_sharing_backend.Uploads.Editing.{UpdateDocument, update}
use itc_sharing_backend.Uploads.Review.{
  approve_document_group, reject_document_group, approve_file, reject_file, delete_document,
}

-- A call with its caller; `new_id` gives the identifiers of rows that the call adds.
pub data Call : Type 0 where
  stage : (m : Moment) (caller : ℕ) (f : Incoming) → Call
  unstage : (m : Moment) (id caller : ℕ) → Call
  post :
      (m : Moment) (id : ℕ) (new_id : ℕ → ℕ) (caller : ℕ) (dto : CreateDocument)
      (fs : List Incoming)
      → Call
  add :
      (m : Moment) (id : ℕ) (new_id : ℕ → ℕ) (caller : ℕ) (fs : List Incoming) (staged_ids : List ℕ)
      → Call
  edit : (now id caller : ℕ) (dto : UpdateDocument) → Call
  take_down : (m : Moment) (id caller : ℕ) → Call
  take_out : (m : Moment) (file_id caller : ℕ) → Call
  hide_one : (now file_id caller : ℕ) (hidden : Bool) → Call
  hide_all : (now id caller : ℕ) (hidden : Bool) → Call
  pin : (now id caller : ℕ) (pinned : Bool) → Call
  approve_all : (id : ℕ) (reviewer : Reviewer) → Call
  approve_one : (file_id : ℕ) (reviewer : Reviewer) → Call
  reject_all : (m : Moment) (id : ℕ) (reviewer : Reviewer) (reason : Option String) → Call
  reject_one : (file_id : ℕ) (reviewer : Reviewer) (reason : Option String) → Call
  purge : (m : Moment) (id : ℕ) → Call

module _ (p : Site) (is_language : String → Bool) (year_levels : String → List ℕ) where
  -- The state that a call leaves, however it ends.
  unfoldable pub step : Call → Desk p → Desk p
  step (stage m caller f) s = after (stage_file p m caller f s)
  step (unstage m id caller) s = after (delete_staged_file p m id caller s)
  step (post m id new_id caller dto fs) s =
      after (upload_many p is_language year_levels m id new_id caller dto fs s)
  step (add m id new_id caller fs ids) s = after (add_files p m id new_id caller fs ids s)
  step (edit now id caller dto) s = after (update p is_language year_levels now id caller dto s)
  step (take_down m id caller) s = after (delete p m id caller s)
  step (take_out m id caller) s = after (remove_file p m id caller s)
  step (hide_one now id caller hidden) s = after (set_file_hidden p now id caller hidden s)
  step (hide_all now id caller hidden) s = after (set_hidden p now id caller hidden s)
  step (pin now id caller pinned) s = after (set_pinned p now id caller pinned s)
  step (approve_all id r) s = after (approve_document_group p id r s)
  step (approve_one id r) s = after (approve_file p id r s)
  step (reject_all m id r reason) s = after (reject_document_group p m id r reason s)
  step (reject_one id r reason) s = after (reject_file p id r reason s)
  step (purge m id) s = after (delete_document p m id s)

  unfoldable pub run : List Call → Desk p → Desk p
  run [] s = s
  run (c ∷ cs) s = run cs (step c s)
