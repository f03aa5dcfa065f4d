-- ===== src/Uploads/Owning.antt =====
-- DocumentsService: removeFile, setFileHidden, setPinned, setHidden, delete and signFileAccess.
use itc_sharing_backend.Base.{
  ℕ, Bool, true, false, not, ◌&&◌, ◌||◌, String, Option, none, some, List, [], ◌∷◌, map, ◌==◌, leb,
  any, if◌then◌else◌, M, pure, get, modify, guard, expect, not_found, forbidden, ◌>>=◌, ◌>>◌,
}
use itc_sharing_backend.Storage.Refs.{extract_key, parse_ref, StorageRef}
use itc_sharing_backend.Documents.Audience
use itc_sharing_backend.Documents.Audience.{AudienceEntry, Viewer, Major, can_view, same_id, is_set}
use itc_sharing_backend.Uploads.Types.{
  is_active, FileRow, UploadRow, Pin, Moment, put_uploads, put_files,
}
use itc_sharing_backend.Uploads.Staging.{Site, Desk, drop_objects}

module _ (p : Site) where
  -- The upload of a call that only its uploader may make.
  unfoldable pub own_upload : ℕ → ℕ → M (Desk p) UploadRow
  own_upload upload_id user_id = do
    s ← get
    u ←
        expect (p.db.find_one (λ (r : UploadRow). r.id == upload_id) s.uploads)
          (not_found "Upload not found")
    guard (same_id u.uploader_id user_id) (forbidden "Not your upload")
    pure u

  abbrev pub keys_of : List FileRow → List (Option String)
  keys_of [] = []
  keys_of (f ∷ fs) =
      extract_key p.public_base (some f.file_url)
      ∷ extract_key p.public_base f.preview_url
      ∷ keys_of fs

  -- `uploads.delete`, which takes the files and the pins with it.
  abbrev pub delete_upload : ℕ → Desk p → Desk p
  delete_upload upload_id d = record d {
    uploads = p.db.delete (λ (r : UploadRow). r.id == upload_id) d.uploads;
    files = p.db.delete (λ (f : FileRow). f.upload_id == upload_id) d.files;
    pins = p.db.delete (λ (n : Pin). n.upload_id == upload_id) d.pins;
  }

  unfoldable pub delete : Moment → ℕ → ℕ → M (Desk p) (Unit {0})
  delete m upload_id user_id = do
    u ← own_upload upload_id user_id
    s ← get
    let files = p.db.find (λ (f : FileRow). f.upload_id == upload_id) s.files
    modify (drop_objects p m (keys_of files))
    modify (delete_upload upload_id)

  abbrev pub remove_one : Moment → FileRow → M (Desk p) Bool
  remove_one m file = do
    modify (drop_objects p m (keys_of (file ∷ [])))
    modify (λ d. put_files (p.db.delete (λ (f : FileRow). f.id == file.id) d.files) d)
    pure false

  -- The last file takes the upload with it.
  abbrev pub remove_last : Bool → Moment → FileRow → ℕ → M (Desk p) Bool
  remove_last true m file user_id = do delete m file.upload_id user_id; pure true
  remove_last false m file user_id = remove_one m file

  -- The answer is whether the upload went with its last file.
  unfoldable pub remove_file : Moment → ℕ → ℕ → M (Desk p) Bool
  remove_file m file_id user_id = do
    s ← get
    file ←
        expect (p.db.find_one (λ (f : FileRow). f.id == file_id) s.files)
          (not_found "File not found")
    u ← own_upload file.upload_id user_id
    remove_last (leb (p.db.count_by (λ (f : FileRow). f.upload_id == file.upload_id) s.files) 1) m
        file user_id

  abbrev pub stamp : Bool → ℕ → Option ℕ
  stamp hidden now = if hidden then some now else none

  abbrev pub hide_file : Bool → ℕ → FileRow → FileRow
  hide_file hidden now f = record f { hidden_at = stamp hidden now }

  abbrev pub hide_upload : Bool → ℕ → UploadRow → UploadRow
  hide_upload hidden now u = record u { hidden_at = stamp hidden now }

  -- The answer is whether the upload is hidden.
  unfoldable pub set_file_hidden : ℕ → ℕ → ℕ → Bool → M (Desk p) Bool
  set_file_hidden now file_id user_id hidden = do
    s ← get
    file ←
        expect (p.db.find_one (λ (f : FileRow). f.id == file_id) s.files)
          (not_found "File not found")
    u ← own_upload file.upload_id user_id
    modify (λ d.
        put_files (p.db.update (λ (f : FileRow). f.id == file_id) (hide_file hidden now) d.files) d)
    t ← get
    let visible =
        p.db.count_by (λ (f : FileRow). f.upload_id == file.upload_id && not (is_set f.hidden_at))
          t.files
    let hides = hidden && visible == 0 && not (is_set u.hidden_at)
    let shows = not hidden && not (visible == 0) && is_set u.hidden_at
    modify (λ d.
        if hides || shows
        then put_uploads
            (p.db.update (λ (r : UploadRow). r.id == file.upload_id) (hide_upload hides now)
              d.uploads)
            d
        else d)
    pure (if hides then true else if shows then false else is_set u.hidden_at)

  unfoldable pub set_hidden : ℕ → ℕ → ℕ → Bool → M (Desk p) (Unit {0})
  set_hidden now upload_id user_id hidden = do
    u ← own_upload upload_id user_id
    modify (λ d.
        put_uploads
          (p.db.update (λ (r : UploadRow). r.id == upload_id) (hide_upload hidden now) d.uploads) d)

  -- `getViewer`, which falls back on a viewer of no privilege.
  abbrev pub or_stranger : ℕ → Option Viewer → Viewer
  or_stranger id none = record { id = id; is_admin = false; major_id = none; year_level = none }
  or_stranger id (some v) = v

  abbrev pub get_viewer : ℕ → Desk p → Viewer
  get_viewer id s = or_stranger id (p.db.find_one (λ (v : Viewer). v.id == id) s.viewers)

  abbrev pub file_of : FileRow → Audience.DocumentFile
  file_of f = record { id = f.id; is_active = is_active f.status; hidden_at = f.hidden_at }

  -- The upload and its files as the audience rules read them.
  abbrev pub view_of : UploadRow → List FileRow → Audience.Upload
  view_of u fs = record {
    id = u.id;
    uploader_id = u.uploader_id;
    audience = u.audience;
    expires_at = u.expires_at;
    hidden_at = u.hidden_at;
    documents = map file_of fs;
  }

  abbrev pub pin_once : ℕ → ℕ → ℕ → List Pin → List Pin
  pin_once now user_id upload_id pins =
      if any (λ (n : Pin). n.user_id == user_id && n.upload_id == upload_id) pins
      then pins
      else record { user_id = user_id; upload_id = upload_id; pinned_at = now } ∷ pins

  unfoldable pub set_pinned : ℕ → ℕ → ℕ → Bool → M (Desk p) (Unit {0})
  set_pinned now upload_id user_id pinned = do
    s ← get
    u ←
        expect (p.db.find_one (λ (r : UploadRow). r.id == upload_id) s.uploads)
          (not_found "Upload not found")
    guard (is_active u.status) (not_found "Upload not found")
    guard (can_view now (view_of u []) (get_viewer user_id s)) (not_found "Upload not found")
    modify (λ d. record d {
      pins =
          if pinned
          then pin_once now user_id upload_id d.pins
          else p.db.delete (λ (n : Pin). n.user_id == user_id && n.upload_id == upload_id) d.pins;
    })

  abbrev or_original_key : Option String → Option String → Option String
  or_original_key none key = key
  or_original_key (some preview) key = some preview

  -- `signFileAccess`, which ends with the object to sign; `preview` is the variant.
  unfoldable pub sign_file_access : ℕ → ℕ → ℕ → Bool → M (Desk p) StorageRef
  sign_file_access now file_id viewer_id preview = do
    s ← get
    file ←
        expect (p.db.find_one (λ (f : FileRow). f.id == file_id) s.files)
          (not_found "File not found")
    u ←
        expect (p.db.find_one (λ (r : UploadRow). r.id == file.upload_id) s.uploads)
          (not_found "File not found")
    let v = get_viewer viewer_id s
    guard (can_view now (view_of u []) v) (not_found "File not found")
    let own = same_id u.uploader_id v.id || v.is_admin
    guard (is_active u.status || own) (not_found "File not found")
    guard ((is_active file.status && not (is_set file.hidden_at)) || own)
        (not_found "File not found")
    expect
        (parse_ref
          (if preview then or_original_key file.preview_key file.storage_key else file.storage_key))
        (not_found "File not found")
