-- ===== src/Uploads/Staging.antt =====
-- DocumentsService: vetFile, reserveQuota, buildPreview, stageFile, deleteStagedFile and
-- purgeStaleStaged. What the scanner, the converter, the image library, the object store and the
-- database answer to one file comes with the file.
use itc_sharing_backend.Base.{
  ℕ, ◌+◌, ◌*◌, ◌/◌, Bool, true, false, not, ◌&&◌, String, Option, none, some, List, [], ◌∷◌, ◌++◌,
  map, ◌==◌, ltb, any, length, if◌then◌else◌, Orm, M, pure, throw, get, modify, guard, expect,
  halt_if, not_found, forbidden, bad_request, internal, too_many_requests, service_unavailable,
  ◌>>=◌, ◌>>◌, done, fail, joined,
}
use itc_sharing_backend.Storage.Refs
use itc_sharing_backend.Storage.Refs.{Objects, StorageRef, ref_of, is_some}
use itc_sharing_backend.Documents.Signature.{
  Signature, Validation, accepted, refused, throws, validate_file_content, is_processable_image,
}
use itc_sharing_backend.Uploads.Types.{
  StagedRow, Quota, Shelf, Moment, put_objects, put_budget, put_staged,
}
use itc_sharing_backend.Uploads.Names.{extension_of, base_key, build_key}

pub data Scan : Type 0 where
  clean infected unavailable : Scan

-- A file of a request, under the name that was decoded, with the UUID that is drawn for its key, the
-- identifier of its row, and the answers of the services.
pub record Incoming : Type 0 where
  pub original_name : String
  pub buffer : List ℕ
  pub uuid : String
  pub id : ℕ
  pub scan : Scan
  pub optimized : Option (ℕ × String)
  pub converted : Bool
  pub stored : Bool
  pub preview_stored : Bool
  pub saved : Bool
  pub signed : Bool

-- What is written: the bytes, counted, and their type.
pub record Vetted : Type 0 where
  pub size : ℕ
  pub content_type : String

pub record Preview : Type 0 where
  pub url : Option String
  pub key : Option String

abbrev pub no_preview : Preview
no_preview = record { url = none; key = none }

-- `Math.round(n / 1024)`
abbrev pub size_kb : ℕ → ℕ
size_kb n = (n + 512) / 1024

abbrev pub documents_bucket : String
documents_bucket = "documents"

abbrev pub document_ref : String → StorageRef
document_ref key = record { bucket = documents_bucket; key = key }

-- The services and settings that do not change from call to call. `text_of` spells an identifier.
pub record Site : Type 1 where
  pub db : Orm
  pub quota : Quota
  pub public_base : String
  pub lower : String → String
  pub text_of : ℕ → String

module _ (p : Site) where
  abbrev pub Desk : Type 0
  Desk = Shelf p.quota

  abbrev pub check_scan : Scan → M Desk (Unit {0})
  check_scan clean = pure tt
  check_scan infected = throw (bad_request "This file was rejected by the malware scanner.")
  check_scan unavailable =
      throw
        (service_unavailable "File scanning is temporarily unavailable. Please try again shortly.")

  abbrev pub or_original : ℕ → String → Option (ℕ × String) → Vetted
  or_original size mime none = record { size = size; content_type = mime }
  or_original size mime (some (n, t)) = record { size = n; content_type = t }

  abbrev pub vetted : Incoming → Signature → Vetted
  vetted f sig =
      or_original (length f.buffer) sig.mime
        (if is_processable_image sig.kind then f.optimized else none)

  abbrev pub vet_kind : Incoming → Validation → M Desk Vetted
  vet_kind f throws = throw (internal "allowed.includes is not a function")
  vet_kind f (refused r) = throw (bad_request "Unsupported or invalid file type.")
  vet_kind f (accepted sig) = do check_scan f.scan; pure (vetted f sig)

  unfoldable pub vet_file : Incoming → M Desk Vetted
  vet_file f = vet_kind f (validate_file_content p.lower f.original_name f.buffer)

  abbrev pub charge : Bool × p.quota.State → M Desk (Unit {0})
  charge (true, b) s = done tt (put_budget b s)
  charge (false, b) s =
      fail (too_many_requests "Upload quota exceeded. Try again later.") (put_budget b s)

  unfoldable pub reserve_quota : ℕ → ℕ → M Desk (Unit {0})
  reserve_quota uploader_id bytes s = charge (p.quota.consume uploader_id bytes s.budget) s

  abbrev pub refund : ℕ → ℕ → Desk → Desk
  refund uploader_id bytes s = put_budget (p.quota.refund uploader_id bytes s.budget) s

  abbrev pub end_store : ℕ → Incoming → Option String × Objects → M Desk String
  end_store uploader_id f (none, os) s =
      fail (internal "File upload failed") (refund uploader_id (length f.buffer) s)
  end_store uploader_id f (some url, os) s = done url (put_objects os s)

  -- `storage.upload`, and its catch: the budget is given back where the object was not stored.
  unfoldable pub store_object : ℕ → Incoming → String → M Desk String
  store_object uploader_id f key s =
      end_store uploader_id f (Refs.upload p.public_base f.stored (document_ref key) s.objects) s

  abbrev pub end_preview : String → Option String × Objects → M Desk Preview
  end_preview key (none, os) s = done no_preview s
  end_preview key (some url, os) s =
      done (record { url = some url; key = some key }) (put_objects os s)

  -- `buildPreview`, which answers with nothing where it fails.
  unfoldable pub build_preview : String → Incoming → M Desk Preview
  build_preview base f s =
      let key = joined (base ∷ ".preview.pdf" ∷ []) in
      if f.converted
      then end_preview key (Refs.upload p.public_base f.preview_stored (document_ref key) s.objects)
          s
      else done no_preview s

  abbrev pub qualified : Option String → Option String
  qualified none = none
  qualified (some key) = some (ref_of (document_ref key))

  -- `stagedObjectPaths`
  abbrev pub staged_paths : String → Option String → List (Option String)
  staged_paths storage_key none = qualified (some storage_key) ∷ []
  staged_paths storage_key (some preview) =
      qualified (some storage_key) ∷ qualified (some preview) ∷ []

  abbrev pub drop_objects : Moment → List (Option String) → Desk → Desk
  drop_objects m refs s = put_objects (Refs.remove m.reachable refs s.objects) s

  -- `purgeStaleStaged`: the rows of the user that were never claimed, a day on.
  abbrev pub is_stale : ℕ → ℕ → StagedRow → Bool
  is_stale now uploader_id r =
      r.uploader_id == uploader_id && ltb (r.created_at + 24 * 60 * 60 * 1000) now

  abbrev pub paths_of : List StagedRow → List (Option String)
  paths_of [] = []
  paths_of (r ∷ rs) = staged_paths r.storage_key r.preview_key ++ paths_of rs

  abbrev pub one_of : List ℕ → ℕ → Bool
  one_of ids n = any (λ m. n == m) ids

  unfoldable pub purge_stale_staged : Moment → ℕ → M Desk (Unit {0})
  purge_stale_staged m uploader_id = do
    s ← get
    let stale = p.db.find (is_stale m.now uploader_id) s.staged
    modify (drop_objects m (paths_of stale))
    modify (λ d.
        put_staged
          (p.db.delete (λ (r : StagedRow). one_of (map (λ (x : StagedRow). x.id) stale) r.id)
            d.staged)
          d)

  abbrev pub staged_row : ℕ → ℕ → Incoming → String → String → Preview → Vetted → StagedRow
  staged_row now uploader_id f key url preview v = record {
    id = f.id;
    uploader_id = uploader_id;
    file_url = url;
    storage_key = key;
    preview_url = preview.url;
    preview_key = preview.key;
    original_name = f.original_name;
    file_size_kb = size_kb v.size;
    created_at = now;
  }

  -- The catch of the row: the objects are taken out again, and the budget is given back.
  abbrev pub undo : Moment → ℕ → Incoming → String → Preview → Desk → Desk
  undo m uploader_id f key preview s =
      refund uploader_id (length f.buffer) (drop_objects m (staged_paths key preview.key) s)

  -- `stageFile` from the point where the object is written.
  unfoldable pub stage_object : Moment → ℕ → Incoming → Vetted → M Desk ℕ
  stage_object m uploader_id f v = do
    let key =
        build_key p.lower (joined ("staged/" ∷ p.text_of uploader_id ∷ []))
          (extension_of f.original_name) f.uuid
    url ← store_object uploader_id f key
    preview ← build_preview (base_key key) f
    halt_if (not f.saved) (undo m uploader_id f key preview) (internal "Failed to stage file")
    modify (λ d. put_staged (staged_row m.now uploader_id f key url preview v ∷ d.staged) d)
    halt_if (not f.signed) (undo m uploader_id f key preview) (internal "Failed to stage file")
    pure f.id

  -- `stageFile` after the sweep.
  unfoldable pub stage_new : Moment → ℕ → Incoming → M Desk ℕ
  stage_new m uploader_id f = do
    reserve_quota uploader_id (length f.buffer)
    v ← vet_file f
    stage_object m uploader_id f v

  unfoldable pub stage_file : Moment → ℕ → Incoming → M Desk ℕ
  stage_file m uploader_id f = do purge_stale_staged m uploader_id; stage_new m uploader_id f

  unfoldable pub delete_staged_file : Moment → ℕ → ℕ → M Desk (Unit {0})
  delete_staged_file m id uploader_id = do
    s ← get
    staged ←
        expect (p.db.find_one (λ (r : StagedRow). r.id == id) s.staged)
          (not_found "Staged file not found")
    guard (staged.uploader_id == uploader_id) (forbidden "Not your file")
    modify (drop_objects m (staged_paths staged.storage_key staged.preview_key))
    modify (λ d. put_staged (p.db.delete (λ (r : StagedRow). r.id == id) d.staged) d)
