-- ===== src/Uploads/Calm/Attaching.antt =====
-- Proofs on claimStagedFiles, uploadFile and the files that a post attaches.
use itc_sharing_backend.Base.{
  Bool, any-append_le, ℕ, ◌≡◌, refl, sym, subst, false, ◌&&◌, Option, none, some, List, [], ◌∷◌,
  ◌==◌, arith, any, M, after, Preorder, Keeps, Keeps-bind, Keeps-seq, Keeps-get, Keeps-pure,
  Keeps-guard, Keeps-modify, Keeps-halt_if, Keeps-found, Keeps-imp, first,
}
use itc_sharing_backend.Uploads.Types.{
  ReviewStatus, is_active, FileRow, StagedRow, Quota, Shelf, Moment, put_files,
}
use itc_sharing_backend.Uploads.Staging.{Site, Desk, Incoming}
use itc_sharing_backend.Uploads.Posting.{
  claim_staged_files, claimed_rows, row_for, upload_file, upload_files, attach, file_row, sent_row,
  object_key,
}
use itc_sharing_backend.Uploads.Clearance.{rest, Calm-trans, live, opens, Calm}
use itc_sharing_backend.Uploads.Calm.Files.{
  Quiet, quiet, Quiet-Calm, QuietStep, reserve_quota-Quiet, vet_file-Quiet, store_object-Quiet,
  build_preview-Quiet,
}

-- New files of this status would not be cleared in the upload of this identifier.
abbrev pub Shut : {q : Quota} → ReviewStatus → ℕ → Shelf q → Type 0
Shut st x s = (is_active st && live x s.uploads) ≡ false

abbrev closed : (q : Quota) → ReviewStatus → ℕ → Preorder (Shelf q)
closed q st x = record {
  Rel = λ s s'. Shut st x s → Shut st x s' × Calm s s';
  same = λ s h. (h, rest s);
  chain = λ a b c h h' shut.
      let (sb, cb) = h shut in let (sc, ccalm) = h' sb in (sc, Calm-trans a b c cb ccalm);
}

Quiet-closed :
    {q : Quota} (st : ReviewStatus) (x : ℕ) (s s' : Shelf q)
    → Quiet s s'
    → Shut st x s
    → Shut st x s' × Calm s s'
Quiet-closed st x s s' h shut =
    (subst (λ us. (is_active st && live x us) ≡ false) (sym h.0) shut, Quiet-Calm s s' h)

-- Rows of an upload, with one status.
abbrev AreOf : ReviewStatus → ℕ → FileRow → Type 0
AreOf st x f = (f.status ≡ st) × (f.upload_id ≡ x)

row-Shut :
    {q : Quota} (st : ReviewStatus) (x k : ℕ) (s : Shelf q) (f : FileRow)
    → AreOf st x f
    → Shut st x s
    → opens k s.uploads f ≡ false
row-Shut st x k s f (hs, hx) h = rw (hs, hx, h) (ground arith)

module _ {q : Quota} (p : Site) (st : ReviewStatus) (x k : ℕ) (s : Shelf q) (new_id : ℕ → ℕ)
    (shut : Shut st x s) where
  row_for-shut :
      (o : Option StagedRow) (rest : Option (List FileRow)) (rows : List FileRow)
      → ((rs : List FileRow) → rest ≡ some rs → any (opens k s.uploads) rs ≡ false)
      → row_for p x st new_id o rest ≡ some rows
      → any (opens k s.uploads) rows ≡ false
  row_for-shut none rest rows ih e = absurd (cc)
  row_for-shut (some r) none rows ih e = absurd (cc)
  row_for-shut (some r) (some rs) rows ih e =
      let whole : file_row p x st new_id r ∷ rs ≡ rows = cc in
      subst (λ t. any (opens k s.uploads) t ≡ false) whole
        (rw (row-Shut st x k s (file_row p x st new_id r) (refl, refl) shut) (ih rs refl))

  claimed-shut :
      (staged : List StagedRow) (ids : List ℕ) (rows : List FileRow)
      → claimed_rows p x st new_id staged ids ≡ some rows
      → any (opens k s.uploads) rows ≡ false
  unfolding claimed_rows
  claimed-shut staged [] rows e =
      let whole : [] ≡ rows = cc in subst (λ t. any (opens k s.uploads) t ≡ false) whole refl
  claimed-shut staged (i ∷ is) rows e =
      row_for-shut (first (λ (r : StagedRow). r.id == i) staged)
        (claimed_rows p x st new_id staged is) rows (claimed-shut staged is) e

module _ (p : Site) (st : ReviewStatus) (x : ℕ) where
  abbrev ClosedStep : {A : Type 0} → M (Desk p) A → Type 0
  ClosedStep m = Keeps (closed p.quota st x) m

  of_quiet : {A : Type 0} (m : M (Desk p) A) → QuietStep p m → ClosedStep m
  of_quiet m h = Keeps-imp (quiet p.quota) (closed p.quota st x) m (Quiet-closed st x) h

  claim-closed :
      (signs : Bool) (u : ℕ) (ids : List ℕ) (new_id : ℕ → ℕ)
      → ClosedStep (claim_staged_files p signs x u ids st new_id)
  unfolding claim_staged_files
  claim-closed signs u ids new_id = Keeps-get _ _ (λ s. Keeps-seq _ _ _ (Keeps-guard _ _ _) (
      Keeps-found _ _ _ _ (λ rows found.
        Keeps-seq _ _ _
          (Keeps-modify _ _ (λ d shut. (
            shut,
            (
              λ k e.
                  any-append_le (opens k d.uploads) rows d.files
                    (claimed-shut p st x k d new_id shut _ _ rows found) e,
              (rest d).1,
            ),
          )))
          (Keeps-seq _ _ _ (Keeps-modify _ _ (λ d shut. (shut, rest d))) (Keeps-guard _ _ _)))))

  added :
      (d : Desk p) (row : FileRow)
      → AreOf st x row
      → Shut st x d
      → Shut st x d × Calm d (put_files (row ∷ d.files) d)
  added d row of shut = (
    shut,
    (
      λ k e.
          any-append_le (opens k d.uploads) (row ∷ []) d.files
            (rw (row-Shut st x k d row of shut) refl) e,
      (rest d).1,
    ),
  )

  upload_file-closed :
      (m : Moment) (u major : ℕ) (f : Incoming) → ClosedStep (upload_file p m x u major st f)
  unfolding upload_file
  upload_file-closed m u major f = Keeps-seq _ _ _ (of_quiet _ (reserve_quota-Quiet p u _)) (
      Keeps-bind _ _ _ (of_quiet _ (vet_file-Quiet p f)) (λ v.
        Keeps-bind _ _ _ (of_quiet _ (store_object-Quiet p u f _)) (λ url.
          Keeps-bind _ _ _ (of_quiet _ (build_preview-Quiet p _ f)) (λ preview.
            Keeps-seq _ _ _ (Keeps-halt_if _ _ _ _ (λ d shut. (shut, rest d))) (
              Keeps-seq _ _ _
                (Keeps-modify _ _ (λ d.
                  added d (sent_row p x st f (object_key p major u f) url preview v) (refl, refl)))
                (Keeps-halt_if _ _ _ _ (λ d shut. (shut, rest d))))))))

  upload_files-closed :
      (m : Moment) (u major : ℕ) (fs : List Incoming)
      → ClosedStep (upload_files p m x u major st fs)
  unfolding upload_files
  upload_files-closed m u major [] = Keeps-pure _ tt
  upload_files-closed m u major (f ∷ fs) =
      Keeps-seq _ _ _ (upload_file-closed m u major f) (upload_files-closed m u major fs)

  attach-closed :
      (m : Moment) (u major : ℕ) (new_id : ℕ → ℕ) (ids : List ℕ) (fs : List Incoming)
      → ClosedStep (attach p m x u major st new_id ids fs)
  unfolding attach
  attach-closed m u major new_id [] fs = upload_files-closed m u major fs
  attach-closed m u major new_id (i ∷ is) fs =
      Keeps-seq _ _ _ (claim-closed m.signs u (i ∷ is) new_id) (upload_files-closed m u major fs)

module _ (p : Site) where
  -- Files that would not be cleared are attached, and nothing is cleared.
  pub attach-Calm :
      (st : ReviewStatus) (x : ℕ) (s : Desk p) (m : Moment) (u major : ℕ) (new_id : ℕ → ℕ)
      (ids : List ℕ) (fs : List Incoming)
      → Shut st x s
      → Calm s (after (attach p m x u major st new_id ids fs s))
  attach-Calm st x s m u major new_id ids fs shut =
      ((attach-closed p st x m u major new_id ids fs).at s shut).1
