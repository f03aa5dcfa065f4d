-- ===== src/Uploads/Browsing.antt =====
-- DocumentsService.findAll and findOne: the feed, the list of one's own uploads and the detail page.
-- Order and pages of the list are left out.
use itc_sharing_backend.Base.{
  ℕ, Bool, true, false, not, ◌&&◌, ◌||◌, Option, none, some, List, [], ◌==◌, any, M, pure, get,
  guard, expect, not_found, ◌>>=◌, ◌>>◌,
}
use itc_sharing_backend.Documents.Audience.{
  Viewer, same_id, is_set, is_expired, can_view, apply_visibility,
}
use itc_sharing_backend.Uploads.Types.{
  ReviewStatus, pending, active, rejected, is_active, is_pending, FileRow, UploadRow,
}
use itc_sharing_backend.Uploads.Staging.{Site, Desk}
use itc_sharing_backend.Uploads.Owning.{view_of, get_viewer}

-- The filters of a request. `matches` tests the type, the academic year and the text searched for.
pub record QueryDocuments : Type 0 where
  pub uploader_id : Option ℕ
  pub status : Option ReviewStatus
  pub major_id : Option ℕ
  pub subject_id : Option ℕ
  pub year_level : Option ℕ
  pub hidden : Bool
  pub expired : Bool
  pub matches : UploadRow → Bool

abbrev pub is_rejected : ReviewStatus → Bool
is_rejected rejected = true
is_rejected st = false

abbrev same_status : ReviewStatus → ReviewStatus → Bool
same_status active st = is_active st
same_status pending st = is_pending st
same_status rejected st = is_rejected st

-- A status that is asked for counts on one's own list only.
unfoldable pub has_status : Bool → Option ReviewStatus → ReviewStatus → Bool
has_status false asked st = is_active st
has_status true none st = is_active st || is_pending st || is_rejected st
has_status true (some t) st = same_status t st

-- `exists (select 1 from documents …)`
unfoldable pub has_open_file : List FileRow → UploadRow → Bool
has_open_file files u =
    any (λ (f : FileRow). f.upload_id == u.id && (is_active f.status && not (is_set f.hidden_at)))
      files

-- The test of a filter, if it is given, on a column.
abbrev pub equals : Option ℕ → Option ℕ → Bool
equals none column = true
equals (some n) column = same_id column n

unfoldable pub passes_filters : QueryDocuments → UploadRow → Bool
passes_filters q u =
    equals q.major_id (some u.major_id)
    && (equals q.subject_id u.subject_id
        && (equals q.year_level (some u.year_level)
            && (q.matches u && equals q.uploader_id u.uploader_id)))

abbrev pub own_list : QueryDocuments → ℕ → Bool
own_list q viewer_id = same_id q.uploader_id viewer_id

module _ (p : Site) where
  unfoldable pub is_listed : QueryDocuments → Bool → ℕ → Viewer → List FileRow → UploadRow → Bool
  is_listed q own now v files u =
      has_status own q.status u.status
      && (has_open_file files u
          && (apply_visibility own now v (view_of p u [])
              && ((not (q.hidden && own) || is_set u.hidden_at)
                  && ((not (q.expired && own) || is_expired now u.expires_at)
                      && passes_filters q u))))

  unfoldable pub find_all : QueryDocuments → ℕ → ℕ → Desk p → List UploadRow
  find_all q now viewer_id s =
      p.db.find (is_listed q (own_list q viewer_id) now (get_viewer p viewer_id s) s.files)
        s.uploads

  -- `findOne`; the answer is the upload that the page shows.
  unfoldable pub find_one : ℕ → ℕ → ℕ → M (Desk p) UploadRow
  find_one upload_id now viewer_id = do
    s ← get
    u ←
        expect
          (p.db.find_one (λ (r : UploadRow). r.id == upload_id && is_active r.status) s.uploads)
          (not_found "Document not found")
    guard (can_view now (view_of p u []) (get_viewer p viewer_id s))
        (not_found "Document not found")
    pure u
