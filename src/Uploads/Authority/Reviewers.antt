-- ===== src/Uploads/Authority/Reviewers.antt =====
-- Proofs on the reviews by a reviewer of another department.
use itc_sharing_backend.Base.{
  ℕ, ◌≡◌, refl, true, false, ◌&&◌, String, Option, none, some, any, ◌==◌, arith, M, Ends, stopped,
  finished, Occurs, bind_get, bind-Ends, bind_guard, pure, ◌>>◌,
}
use itc_sharing_backend.Moderation.Reviewers.{Reviewer, can_moderate}
use itc_sharing_backend.Uploads.Types.{is_pending, Moment, UploadRow, FileRow}
use itc_sharing_backend.Uploads.Staging.{Site, Desk}
use itc_sharing_backend.Uploads.Review.{
  pending_upload, assert_can_moderate, approve_found, reject_found, guard_upload, join_upload,
  load_pending_file, approve_file, reject_file,
}
use itc_sharing_backend.Uploads.Authority.Rules.{oversees, not_any, Idle, foreign_file}

module _ (p : Site) where
  -- The guard of a review, on an upload whose department is not the reviewer's.
  after_guard :
      {B : Type 0} (r : Reviewer) (major : ℕ) (k : M (Desk p) B) (s : Desk p)
      → can_moderate r major ≡ false
      → Idle s ((assert_can_moderate p r major >> k) s)
  unfolding assert_can_moderate
  after_guard r major k s h = bind_guard (Idle s) _ _ k s (λ _. refl) (λ may. absurd (cc))

  -- The upload that is found is of a department that the reviewer does not moderate.
  foreign_upload :
      (r : Reviewer) (x : ℕ) (s : Desk p) (u : UploadRow)
      → oversees r x s.uploads ≡ false
      → Occurs u s.uploads
      → (u.id == x) ≡ true
      → can_moderate r u.major_id ≡ false
  foreign_upload r x s u h o hit =
      let miss : (u.id == x && can_moderate r u.major_id) ≡ false = not_any _ h o in ground arith

  pending_foreign :
      (r : Reviewer) (x : ℕ) (s : Desk p) (u : UploadRow)
      → oversees r x s.uploads ≡ false
      → p.db.find_one (pending_upload p x) s.uploads ≡ some u
      → can_moderate r u.major_id ≡ false
  pending_foreign r x s u h found =
      let (o, hit) = p.db.find_one_some _ s.uploads u found in
      foreign_upload r x s u h o (ground arith)

  pub approve_found-Idle :
      (x : ℕ) (r : Reviewer) (s : Desk p) (o : Option UploadRow)
      → p.db.find_one (pending_upload p x) s.uploads ≡ o
      → oversees r x s.uploads ≡ false
      → Idle s (approve_found p x r o s)
  unfolding pure
  approve_found-Idle x r s none found h = refl
  approve_found-Idle x r s (some u) found h =
      after_guard r u.major_id _ s (pending_foreign r x s u h found)

  pub reject_found-Idle :
      (m : Moment) (x : ℕ) (r : Reviewer) (reason : Option String) (s : Desk p)
      (o : Option UploadRow)
      → p.db.find_one (pending_upload p x) s.uploads ≡ o
      → oversees r x s.uploads ≡ false
      → Idle s (reject_found p m x r reason o s)
  unfolding pure
  reject_found-Idle m x r reason s none found h = refl
  reject_found-Idle m x r reason s (some u) found h =
      after_guard r u.major_id _ s (pending_foreign r x s u h found)

  -- Nothing is loaded but what the reviewer moderates.
  abbrev NoneLoaded : Desk p → Option (FileRow × UploadRow) → Desk p → Type 0
  NoneLoaded s o s' = (o ≡ none) × (s' ≡ s)

  guard_upload-Ends :
      (r : Reviewer) (f : FileRow) (s : Desk p) (o : Option UploadRow)
      → p.db.find_one (λ (u : UploadRow). u.id == f.upload_id) s.uploads ≡ o
      → oversees r f.upload_id s.uploads ≡ false
      → Ends s (NoneLoaded s) (guard_upload p r f o s)
  unfolding pure assert_can_moderate
  guard_upload-Ends r f s none joined h = finished none s refl (refl, refl)
  guard_upload-Ends r f s (some u) joined h =
      let (o, hit) = p.db.find_one_some _ s.uploads u joined in
      let no_right = foreign_upload r f.upload_id s u h o hit in
      bind_guard (Ends s (NoneLoaded s)) _ _ _ s (λ _. stopped _ refl) (λ may. absurd (cc))

  load_pending_file-Ends :
      (id : ℕ) (r : Reviewer) (s : Desk p)
      → any (λ (f : FileRow). f.id == id && oversees r f.upload_id s.uploads) s.files ≡ false
      → Ends s (NoneLoaded s) (load_pending_file p id r s)
  unfolding load_pending_file pure
  load_pending_file-Ends id r s h = bind_get (Ends s (NoneLoaded s)) _ s (joined _ refl)
    where
      joined :
          (o : Option FileRow)
          → p.db.find_one (λ (f : FileRow). f.id == id && is_pending f.status) s.files ≡ o
          → Ends s (NoneLoaded s) (join_upload p r o s.uploads s)
      joined none found = finished none s refl (refl, refl)
      joined (some f) found =
          let (o, hit) = p.db.find_one_some _ s.files f found in
          guard_upload-Ends r f s _ refl
            (foreign_file (λ x. oversees r x s.uploads) id s.files f h o (ground arith))

  pub approve_file-Idle :
      (id : ℕ) (r : Reviewer) (s : Desk p)
      → any (λ (f : FileRow). f.id == id && oversees r f.upload_id s.uploads) s.files ≡ false
      → Idle s (approve_file p id r s)
  unfolding approve_file pure
  approve_file-Idle id r s h =
      bind-Ends (Idle s) (NoneLoaded s) _ _ s (load_pending_file-Ends id r s h) (λ e. refl)
        (λ o s' (nothing, same). rw (nothing, same) refl)

  pub reject_file-Idle :
      (id : ℕ) (r : Reviewer) (reason : Option String) (s : Desk p)
      → any (λ (f : FileRow). f.id == id && oversees r f.upload_id s.uploads) s.files ≡ false
      → Idle s (reject_file p id r reason s)
  unfolding reject_file pure
  reject_file-Idle id r reason s h =
      bind-Ends (Idle s) (NoneLoaded s) _ _ s (load_pending_file-Ends id r s h) (λ e. refl)
        (λ o s' (nothing, same). rw (nothing, same) refl)
