-- ===== src/Uploads/Tests.antt =====
-- A shelf to run on, and the theorems at inputs that meet their hypotheses.
use itc_sharing_backend.Base.{
  ℕ, ◌+◌, ◌≡◌, refl, Bool, true, false, ◌&&◌, String, none, some, List, [], ◌∷◌, ◌==◌, any, arith,
  length, if◌then◌else◌, after, Bool-cases, inl, inr, ◌⊎◌, ◌>>=◌, ◌>>◌, get, modify, guard, expect,
  pure,
}
use itc_sharing_backend.Samples.{list_orm}
use itc_sharing_backend.Documents.Audience.{can_view, apply_visibility}
use itc_sharing_backend.Moderation.Reviewers.{Reviewer, can_moderate, scope_major_ids}
use itc_sharing_backend.Storage.Refs.{
  is_safe_key_segment, includes, after_prefix, has_control, is_bucket_name, are_label, split_slash,
  check_parts, parse_ref,
}
use itc_sharing_backend.Uploads.Types.{
  pending, active, note, is_active, is_pending, send, FileRow, UploadRow, Quota, Moment,
}
use itc_sharing_backend.Uploads.Staging.{Site, Desk, Incoming, clean, stage_new}
use itc_sharing_backend.Uploads.Charging.{stage_new-used, stays_charged}
use itc_sharing_backend.Uploads.Budget.{local_quota}
use itc_sharing_backend.Uploads.Owning.{sign_file_access}
use itc_sharing_backend.Uploads.Review.{approve_document_group, assert_can_moderate}
use itc_sharing_backend.Uploads.Calls.{Call, approve_all, step, run}
use itc_sharing_backend.Uploads.Clearance.{is_cleared}
use itc_sharing_backend.Uploads.Calm.Posting.{Keyed}
use itc_sharing_backend.Uploads.Publishing.{Published, run-Published}
use itc_sharing_backend.Uploads.Authority.{step-may}
use itc_sharing_backend.Uploads.Signing.{is_signed}
use itc_sharing_backend.Uploads.Queue.{
  is_yes, is_group_row, has_files, approve_document_group-get_pending_documents,
}
use itc_sharing_backend.Uploads.Pending.{
  flatten_upload, flat, pending_groups, active_uploads, get_pending_documents,
}
use itc_sharing_backend.Uploads.Browsing.{
  QueryDocuments, has_status, has_open_file, passes_filters, is_listed, find_all, find_one,
}
use itc_sharing_backend.Uploads.Feed.{is_browsed, find_all-find_one}

abbrev hourly : Quota
hourly = local_quota 500 3600000 0 (omega arith)

abbrev site : Site
site = record {
  db = list_orm;
  quota = hourly;
  public_base = "http://s3";
  lower = λ s. s;
  text_of = λ n. "7";
}

abbrev posted : UploadRow
posted = record {
  id = 1;
  uploader_id = some 7;
  major_id = 3;
  subject_id = none;
  title = "Exam";
  description = none;
  doc_type = note;
  year_level = 4;
  academic_year = none;
  status = pending;
  audience = [];
  expires_at = none;
  hidden_at = none;
  reviewed_by = none;
  rejection_reason = none;
  rejected_at = none;
  uploaded_at = 0;
}

abbrev its_file : FileRow
its_file = record {
  id = 10;
  upload_id = 1;
  file_url = "http://s3/documents/a.pdf";
  storage_key = some "documents/a.pdf";
  preview_key = none;
  preview_url = none;
  original_name = some "a.pdf";
  file_size_kb = 1;
  status = active;
  rejection_reason = none;
  reviewed_by = none;
  hidden_at = none;
}

abbrev shelf : Desk site
shelf = record {
  viewers = record { id = 8; is_admin = false; major_id = none; year_level = none } ∷ [];
  majors = record { id = 3; acronym = "gic" } ∷ [];
  subjects = [];
  uploads = posted ∷ [];
  files = its_file ∷ [];
  staged = [];
  pins = [];
  objects = [];
  budget = λ u. none;
  outbox = [];
}

abbrev of_department : ℕ → Reviewer
of_department major_id = record { id = 9; is_admin = false; major_ids = major_id ∷ [] }

shelf-Keyed : Keyed shelf
shelf-Keyed x = elim (Bool-cases (1 == x)) [ inl e ↦ ground (arith, e) | inr e ↦ ground (arith, e) ]

abbrev history : List Call
history = approve_all 1 (of_department 5) ∷ approve_all 1 (of_department 3) ∷ []

abbrev is_language : String → Bool
is_language a = false

abbrev years : String → List ℕ
years a = 3 ∷ 4 ∷ []

opened : is_cleared 10 (run site is_language years history shelf) ≡ true
unfolding run step approve_document_group assert_can_moderate can_moderate ◌>>=◌ ◌>>◌ get modify
    guard pure send is_active is_pending
opened = refl

run-Published_example :
    (is_cleared 10 shelf ≡ true) ⊎ Published site is_language years history shelf 10
run-Published_example = run-Published site is_language years history shelf 10 shelf-Keyed opened

step-may_example : step site is_language years (approve_all 1 (of_department 5)) shelf ≡ shelf
unfolding can_moderate
step-may_example = step-may site is_language years (approve_all 1 (of_department 5)) shelf refl

signed :
    is_signed (sign_file_access site 50 10 8 false (run site is_language years history shelf))
    ≡ true
unfolding sign_file_access run step approve_document_group assert_can_moderate can_moderate can_view
    parse_ref is_safe_key_segment includes after_prefix has_control check_parts is_bucket_name
    are_label split_slash ◌>>=◌ ◌>>◌ get modify guard expect pure send is_active is_pending
signed = refl

approve_document_group-get_pending_documents_example :
    any (is_group_row 1) (get_pending_documents site (of_department 3) shelf) ≡ (
      is_yes (approve_document_group site 1 (of_department 3) shelf)
      && has_files site 1 shelf.files)
approve_document_group-get_pending_documents_example =
    approve_document_group-get_pending_documents site 1 (of_department 3) shelf shelf-Keyed

queued : any (is_group_row 1) (get_pending_documents site (of_department 3) shelf) ≡ true
unfolding get_pending_documents pending_groups active_uploads flat flatten_upload scope_major_ids
    is_active is_pending
queued = refl

-- An upload that waits without a file, which can be approved and is not in the queue.
abbrev bare : Desk site
bare = record shelf { files = [] }

bare_not_queued : any (is_group_row 1) (get_pending_documents site (of_department 3) bare) ≡ false
unfolding get_pending_documents pending_groups active_uploads flat flatten_upload scope_major_ids
    is_active is_pending
bare_not_queued = refl

bare_approved : is_yes (approve_document_group site 1 (of_department 3) bare) ≡ true
unfolding approve_document_group assert_can_moderate can_moderate ◌>>=◌ ◌>>◌ get modify guard pure
    send is_pending
bare_approved = refl

abbrev on_show : Desk site
on_show = record shelf { uploads = record posted { status = active } ∷ [] }

on_show-Keyed : Keyed on_show
on_show-Keyed x = elim (Bool-cases (1 == x)) [
  | inl e ↦ ground (arith, e)
  | inr e ↦ ground (arith, e)
]

-- A reader who asks for what is pending.
abbrev browse : QueryDocuments
browse = record {
  uploader_id = none;
  status = some pending;
  major_id = some 3;
  subject_id = none;
  year_level = none;
  hidden = true;
  expired = false;
  matches = λ u. true;
}

find_all-find_one_example :
    any (λ (u : UploadRow). u.id == 1) (find_all site browse 50 8 on_show)
    ≡ is_browsed site browse 50 (find_one site 1 50 8 on_show)
find_all-find_one_example = find_all-find_one site browse 1 50 8 on_show on_show-Keyed refl

browsed : any (λ (u : UploadRow). u.id == 1) (find_all site browse 50 8 on_show) ≡ true
unfolding find_all is_listed has_status has_open_file passes_filters apply_visibility is_active
browsed = refl

not_browsed : any (λ (u : UploadRow). u.id == 1) (find_all site browse 50 8 shelf) ≡ false
unfolding find_all is_listed has_status has_open_file passes_filters apply_visibility is_active
not_browsed = refl

-- The uploader's own list, in which the upload waits for its review, hidden.
abbrev mine : QueryDocuments
mine = record browse { uploader_id = some 7; status = none; hidden = false }

abbrev hidden_shelf : Desk site
hidden_shelf = record shelf { uploads = record posted { hidden_at = some 4 } ∷ [] }

own_shown : any (λ (u : UploadRow). u.id == 1) (find_all site mine 50 7 hidden_shelf) ≡ true
unfolding find_all is_listed has_status has_open_file passes_filters apply_visibility is_active
    is_pending
own_shown = refl

abbrev incoming : Incoming
incoming = record {
  original_name = "a.pdf";
  buffer = 37 ∷ 80 ∷ 68 ∷ 70 ∷ [];
  uuid = "u1";
  id = 20;
  scan = clean;
  optimized = none;
  converted = false;
  stored = true;
  preview_stored = false;
  saved = true;
  signed = true;
}

abbrev today : Moment
today = record { now = 50; reachable = λ b. true; signs = true }

stage_new-used_example :
    hourly.used (after (stage_new site today 7 incoming shelf)).budget 7
    ≡ hourly.used shelf.budget 7
      + (if 7 == 7 && stays_charged site today 7 incoming shelf then length incoming.buffer else 0)
stage_new-used_example = stage_new-used site today 7 incoming shelf 7
