-- ===== src/Uploads/Signing.antt =====
-- Proofs on signFileAccess, after any history of calls.
use itc_sharing_backend.Base.{
  ℕ, ◌≡◌, refl, Bool, true, false, ◌&&◌, ◌==◌, Option, none, some, any, ◌⊎◌, arith, Outcome, done,
  fail,
}
use itc_sharing_backend.Documents.Audience.{Viewer}
use itc_sharing_backend.Uploads.Types.{FileRow}
use itc_sharing_backend.Uploads.Staging.{Site, Desk}
use itc_sharing_backend.Uploads.Owning.{get_viewer, or_stranger}
use itc_sharing_backend.Uploads.Clearance.{is_cleared}
use itc_sharing_backend.Uploads.Authority.Rules.{owns}

abbrev pub is_signed : {S A : Type 0} → Outcome S A → Bool
is_signed (done a s) = true
is_signed (fail e s) = false

module _ (p : Site) where
  -- The viewer posted the upload of this file.
  abbrev pub is_own : ℕ → ℕ → Desk p → Bool
  is_own viewer_id k s =
      any (λ (f : FileRow). f.id == k && owns viewer_id f.upload_id s.uploads) s.files

  -- The three reasons to sign.
  abbrev Reasons : ℕ → ℕ → Desk p → Type 0
  Reasons k viewer_id s =
      ((get_viewer p viewer_id s).is_admin ≡ true)
      ⊎ ((is_own viewer_id k s ≡ true) ⊎ (is_cleared k s ≡ true))

  pub get_viewer-id :
      (viewer_id : ℕ) (s : Desk p) → ((get_viewer p viewer_id s).id == viewer_id) ≡ true
  get_viewer-id viewer_id s = at _ refl
    where
      at :
          (o : Option Viewer)
          → p.db.find_one (λ (v : Viewer). v.id == viewer_id) s.viewers ≡ o
          → ((or_stranger p viewer_id o).id == viewer_id) ≡ true
      at none e = ground arith
      at (some v) e = (p.db.find_one_some _ s.viewers v e).1
