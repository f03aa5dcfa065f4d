-- ===== src/Uploads/Clearance.antt =====
-- Proofs on the files that review has cleared: active files in active uploads, hidden or expired or
-- not. Which steps clear no more of them.
use itc_sharing_backend.Base.{
  any_mono, any-map_le, any-keep_le, ℕ, ◌≤◌, ◌≡◌, Bool, true, not, ◌&&◌, List, ◌==◌, arith, any,
  count, patch, Bool-cases, inl, inr, subst, Orm, sym, ap, count-patch_same, count-keep-le,
}
use itc_sharing_backend.Uploads.Types.{
  is_active, FileRow, UploadRow, Quota, Shelf, put_uploads, put_files,
}

-- An active upload has this identifier.
abbrev pub live : ℕ → List UploadRow → Bool
live x us = any (λ (u : UploadRow). u.id == x && is_active u.status) us

-- The file has this identifier, is active and is in an active upload.
abbrev pub opens : ℕ → List UploadRow → FileRow → Bool
opens k us f = f.id == k && (is_active f.status && live f.upload_id us)

abbrev pub is_cleared : {q : Quota} → ℕ → Shelf q → Bool
is_cleared k s = any (opens k s.uploads) s.files

abbrev pub NoMoreUploads : List UploadRow → List UploadRow → Type 0
NoMoreUploads us us' = (x : ℕ) → live x us' ≡ true → live x us ≡ true

-- Whatever the uploads, no more files are cleared.
abbrev pub NoMoreFiles : List UploadRow → List FileRow → List FileRow → Type 0
NoMoreFiles us fs fs' = (k : ℕ) → any (opens k us) fs' ≡ true → any (opens k us) fs ≡ true

-- Identifiers of uploads have no more rows.
abbrev pub NoMoreRows : List UploadRow → List UploadRow → Type 0
NoMoreRows us us' =
    (x : ℕ) → count (λ (u : UploadRow). u.id == x) us' ≤ count (λ (u : UploadRow). u.id == x) us

-- No file is cleared that was not before, and no upload appears.
abbrev pub Calm : {q : Quota} → Shelf q → Shelf q → Type 0
Calm s s' =
    ((k : ℕ) → is_cleared k s' ≡ true → is_cleared k s ≡ true) × NoMoreRows s.uploads s'.uploads

module _ {q : Quota} where
  pub rest : (s : Shelf q) → Calm s s
  rest s = (λ k e. e, λ x. omega arith)

  pub opens_no_more :
      (s s' : Shelf q)
      → NoMoreUploads s.uploads s'.uploads
      → NoMoreFiles s.uploads s.files s'.files
      → (k : ℕ) → is_cleared k s' ≡ true
      → is_cleared k s ≡ true
  opens_no_more s s' hu hf k e =
      hf k (any_mono (opens k s'.uploads) (opens k s.uploads) s'.files opens_le e)
    where
      opens_le : (f : FileRow) → opens k s'.uploads f ≡ true → opens k s.uploads f ≡ true
      opens_le f h = ground (arith, hu f.upload_id)

  pub Calm-of :
      (s s' : Shelf q)
      → NoMoreUploads s.uploads s'.uploads
      → NoMoreFiles s.uploads s.files s'.files
      → NoMoreRows s.uploads s'.uploads
      → Calm s s'
  Calm-of s s' hu hf hr = (opens_no_more s s' hu hf, hr)

  pub Calm-trans : (a b c : Shelf q) → Calm a b → Calm b c → Calm a c
  Calm-trans a b c h h' = (λ k e. h.0 k (h'.0 k e), λ x. omega (arith, h.1 x, h'.1 x))

pub NoMoreUploads-patch :
    (db : Orm) (p : UploadRow → Bool) (f : UploadRow → UploadRow) (us : List UploadRow)
    → ((u : UploadRow) → (f u).id ≡ u.id)
    → ((u : UploadRow) → p u ≡ true → is_active (f u).status ≡ true → is_active u.status ≡ true)
    → NoMoreUploads us (db.update p f us)
NoMoreUploads-patch db p f us same down x e =
    any-map_le (λ (u : UploadRow). u.id == x && is_active u.status) (patch p f) us
      (λ u h. ground (arith, same u, down u)) (subst (λ t. live x t ≡ true) (db.update_eq p f us) e)

pub NoMoreUploads-delete :
    (db : Orm) (p : UploadRow → Bool) (us : List UploadRow) → NoMoreUploads us (db.delete p us)
NoMoreUploads-delete db p us x e =
    any-keep_le _ (λ r. not (p r)) us (subst (λ t. live x t ≡ true) (db.delete_eq p us) e)

pub NoMoreFiles-patch :
    (db : Orm) (us : List UploadRow) (p : FileRow → Bool) (f : FileRow → FileRow)
    (fs : List FileRow)
    → ((r : FileRow) → ((f r).id ≡ r.id) × ((f r).upload_id ≡ r.upload_id))
    → ((r : FileRow) → is_active (f r).status ≡ true → is_active r.status ≡ true)
    → NoMoreFiles us fs (db.update p f fs)
NoMoreFiles-patch db us p f fs same down k e =
    any-map_le (opens k us) (patch p f) fs patched
      (subst (λ t. any (opens k us) t ≡ true) (db.update_eq p f fs) e)
  where
    patched : (r : FileRow) → opens k us (patch p f r) ≡ true → opens k us r ≡ true
    patched r h = elim (Bool-cases (p r)) [
      | inl t ↦
          let at : opens k us (f r) ≡ true = rw t at h in
          ground (arith, (same r).0, down r, ap (λ x. live x us) (same r).1)
      | inr t ↦ rw t at h
    ]

pub NoMoreFiles-delete :
    (db : Orm) (us : List UploadRow) (p : FileRow → Bool) (fs : List FileRow)
    → NoMoreFiles us fs (db.delete p fs)
NoMoreFiles-delete db us p fs k e =
    any-keep_le (opens k us) (λ r. not (p r)) fs
      (subst (λ t. any (opens k us) t ≡ true) (db.delete_eq p fs) e)

pub NoMoreRows-patch :
    (db : Orm) (p : UploadRow → Bool) (f : UploadRow → UploadRow) (us : List UploadRow)
    → ((u : UploadRow) → (f u).id ≡ u.id)
    → NoMoreRows us (db.update p f us)
NoMoreRows-patch db p f us same x =
    subst (λ t. count (λ (u : UploadRow). u.id == x) t ≤ count (λ (u : UploadRow). u.id == x) us)
      (sym (db.update_eq p f us))
      (omega (
        arith,
        count-patch_same (λ (u : UploadRow). u.id == x) p f us (λ u h. ap (λ n. n == x) (same u)),
      ))

pub NoMoreRows-delete :
    (db : Orm) (p : UploadRow → Bool) (us : List UploadRow) → NoMoreRows us (db.delete p us)
NoMoreRows-delete db p us x =
    subst (λ t. count (λ (u : UploadRow). u.id == x) t ≤ count (λ (u : UploadRow). u.id == x) us)
      (sym (db.delete_eq p us)) (count-keep-le _ _ us)

module _ {q : Quota} (db : Orm) where
  -- A write to the uploads, by an update that makes none active.
  pub patched_uploads :
      (test : UploadRow → Bool) (f : UploadRow → UploadRow) (s : Shelf q)
      → ((u : UploadRow) → (f u).id ≡ u.id)
      → ((u : UploadRow)
          → test u ≡ true
          → is_active (f u).status ≡ true
          → is_active u.status ≡ true)
      → Calm s (put_uploads (db.update test f s.uploads) s)
  patched_uploads test f s same down =
      Calm-of s (put_uploads (db.update test f s.uploads) s)
        (NoMoreUploads-patch db test f s.uploads same down) (λ k e. e)
        (NoMoreRows-patch db test f s.uploads same)

  pub patched_files :
      (test : FileRow → Bool) (f : FileRow → FileRow) (s : Shelf q)
      → ((r : FileRow) → ((f r).id ≡ r.id) × ((f r).upload_id ≡ r.upload_id))
      → ((r : FileRow) → is_active (f r).status ≡ true → is_active r.status ≡ true)
      → Calm s (put_files (db.update test f s.files) s)
  patched_files test f s same down =
      Calm-of s (put_files (db.update test f s.files) s) (λ x e. e)
        (NoMoreFiles-patch db s.uploads test f s.files same down) (rest s).1

  pub deleted_files :
      (test : FileRow → Bool) (s : Shelf q) → Calm s (put_files (db.delete test s.files) s)
  deleted_files test s =
      Calm-of s (put_files (db.delete test s.files) s) (λ x e. e)
        (NoMoreFiles-delete db s.uploads test s.files) (rest s).1
