-- ===== src/Uploads/Authority/Owners.antt =====
-- Proofs on the calls of a user who is not the uploader.
use itc_sharing_backend.Base.{
  any_at, ℕ, ◌≡◌, refl, Bool, true, false, ◌&&◌, String, List, [], any, ◌==◌, arith, M, Outcome,
  Ends, stopped, finished, bind_get, bind-Ends, bind_guard, bind_expect, pure, ◌>>=◌,
}
use itc_sharing_backend.Documents.Audience.{same_id, can_view}
use itc_sharing_backend.Uploads.Types.{is_active, Moment, UploadRow, FileRow, StagedRow}
use itc_sharing_backend.Uploads.Staging.{Site, Desk, Incoming, delete_staged_file}
use itc_sharing_backend.Uploads.Posting.{add_files}
use itc_sharing_backend.Uploads.Editing
use itc_sharing_backend.Uploads.Owning.{
  own_upload, delete, remove_file, set_file_hidden, set_hidden, set_pinned, view_of, get_viewer,
}
use itc_sharing_backend.Uploads.Editing.{UpdateDocument}
use itc_sharing_backend.Uploads.Authority.Rules.{may, owns, not_any, Idle, foreign_file}
use itc_sharing_backend.Uploads.Calls.{pin}

module _ (p : Site) where
  -- Only for its uploader is the upload found.
  own_upload-Ends :
      (x u : ℕ) (s : Desk p) → Ends s (λ r s'. owns u x s.uploads ≡ true) (own_upload p x u s)
  unfolding own_upload pure
  own_upload-Ends x u s =
      let Q : Outcome (Desk p) UploadRow → Type 0 = Ends s (λ r s'. owns u x s.uploads ≡ true) in
      bind_get Q _ s (
        bind_expect Q _ _ _ s (λ _. stopped _ refl)
          (λ r found.
            let (o, hit) = p.db.find_one_some _ s.uploads r found in
            bind_guard Q _ _ _ s (λ _. stopped _ refl)
              (λ own. finished r s refl (
                any_at (λ (u' : UploadRow). u'.id == x && same_id u'.uploader_id u) o
                  (ground arith)))))

  after_own :
      {B : Type 0} (x u : ℕ) (f : UploadRow → M (Desk p) B) (s : Desk p)
      → owns u x s.uploads ≡ false
      → Idle s ((own_upload p x u >>= f) s)
  after_own x u f s h =
      bind-Ends (Idle s) (λ r s'. owns u x s.uploads ≡ true) _ f s (own_upload-Ends x u s)
        (λ e. refl) (λ r s' own. absurd (cc))

  pub delete-Idle :
      (m : Moment) (x u : ℕ) (s : Desk p) → owns u x s.uploads ≡ false → Idle s (delete p m x u s)
  unfolding delete
  delete-Idle m x u s h = after_own x u _ s h

  pub set_hidden-Idle :
      (now x u : ℕ) (hidden : Bool) (s : Desk p)
      → owns u x s.uploads ≡ false
      → Idle s (set_hidden p now x u hidden s)
  unfolding set_hidden
  set_hidden-Idle now x u hidden s h = after_own x u _ s h

  pub set_pinned-Idle :
      (now x u : ℕ) (pinned : Bool) (s : Desk p)
      → may p (pin now x u pinned) s ≡ false
      → Idle s (set_pinned p now x u pinned s)
  unfolding set_pinned
  set_pinned-Idle now x u pinned s h = bind_get (Idle s) _ s (
      bind_expect (Idle s) _ _ _ s (λ _. refl)
        (λ r found.
          let (o, hit) = p.db.find_one_some _ s.uploads r found in
          let sees = can_view now (view_of p r []) (get_viewer p u s) in
          let miss : (r.id == x && (is_active r.status && sees)) ≡ false = not_any _ h o in
          bind_guard (Idle s) _ _ _ s (λ _. refl)
            (λ up. bind_guard (Idle s) _ _ _ s (λ _. refl) (λ seen. absurd (ground arith)))))

  pub remove_file-Idle :
      (m : Moment) (id u : ℕ) (s : Desk p)
      → any (λ (f : FileRow). f.id == id && owns u f.upload_id s.uploads) s.files ≡ false
      → Idle s (remove_file p m id u s)
  unfolding remove_file
  remove_file-Idle m id u s h = bind_get (Idle s) _ s (
      bind_expect (Idle s) _ _ _ s (λ _. refl)
        (λ f found.
          let (o, hit) = p.db.find_one_some _ s.files f found in
          after_own f.upload_id u _ s
            (foreign_file (λ x. owns u x s.uploads) id s.files f h o hit)))

  pub set_file_hidden-Idle :
      (now id u : ℕ) (hidden : Bool) (s : Desk p)
      → any (λ (f : FileRow). f.id == id && owns u f.upload_id s.uploads) s.files ≡ false
      → Idle s (set_file_hidden p now id u hidden s)
  unfolding set_file_hidden
  set_file_hidden-Idle now id u hidden s h = bind_get (Idle s) _ s (
      bind_expect (Idle s) _ _ _ s (λ _. refl)
        (λ f found.
          let (o, hit) = p.db.find_one_some _ s.files f found in
          after_own f.upload_id u _ s
            (foreign_file (λ x. owns u x s.uploads) id s.files f h o hit)))

  pub delete_staged_file-Idle :
      (m : Moment) (id u : ℕ) (s : Desk p)
      → any (λ (r : StagedRow). r.id == id && r.uploader_id == u) s.staged ≡ false
      → Idle s (delete_staged_file p m id u s)
  unfolding delete_staged_file
  delete_staged_file-Idle m id u s h = bind_get (Idle s) _ s (
      bind_expect (Idle s) _ _ _ s (λ _. refl)
        (λ r found.
          let (o, hit) = p.db.find_one_some _ s.staged r found in
          let miss : (r.id == id && r.uploader_id == u) ≡ false = not_any _ h o in
          bind_guard (Idle s) _ _ _ s (λ _. refl) (λ own. absurd (ground arith))))

  pub add_files-Idle :
      (m : Moment) (x : ℕ) (new_id : ℕ → ℕ) (u : ℕ) (fs : List Incoming) (ids : List ℕ) (s : Desk p)
      → owns u x s.uploads ≡ false
      → Idle s (add_files p m x new_id u fs ids s)
  unfolding add_files
  add_files-Idle m x new_id u fs ids s h =
      bind_guard (Idle s) _ _ _ s (λ _. refl)
        (λ _. bind_get (Idle s) _ s (
          bind_expect (Idle s) _ _ _ s (λ _. refl)
            (λ r found.
              let (o, hit) = p.db.find_one_some _ s.uploads r found in
              let miss : (r.id == x && same_id r.uploader_id u) ≡ false = not_any _ h o in
              bind_guard (Idle s) _ _ _ s (λ _. refl) (λ own. absurd (ground arith)))))

  pub update-Idle :
      (is_language : String → Bool) (year_levels : String → List ℕ) (now x u : ℕ)
      (dto : UpdateDocument) (s : Desk p)
      → owns u x s.uploads ≡ false
      → Idle s (Editing.update p is_language year_levels now x u dto s)
  unfolding Editing.update
  update-Idle is_language year_levels now x u dto s h = bind_get (Idle s) _ s (
      bind_expect (Idle s) _ _ _ s (λ _. refl)
        (λ r found.
          let (o, hit) = p.db.find_one_some _ s.uploads r found in
          let miss : (r.id == x && same_id r.uploader_id u) ≡ false = not_any _ h o in
          bind_guard (Idle s) _ _ _ s (λ _. refl) (λ own. absurd (ground arith))))
