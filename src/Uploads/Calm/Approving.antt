-- ===== src/Uploads/Calm/Approving.antt =====
-- Proofs on approveDocumentGroup and approveFile: which files they clear.
use itc_sharing_backend.Base.{
  ℕ, ◌≡◌, refl, sym, subst, Bool, true, ◌&&◌, ◌||◌, Option, none, some, List, [], ◌∷◌, map, ◌==◌,
  arith, any, patch, ◌⊎◌, inl, inr, Bool-cases, after, Outcome, Ends, stopped, finished, bind_get,
  bind-Ends, bind_guard, bind_modify, seq_any, pure,
}
use itc_sharing_backend.Moderation.Reviewers.{Reviewer, can_moderate}
use itc_sharing_backend.Uploads.Types.{is_pending, FileRow, UploadRow, put_uploads}
use itc_sharing_backend.Uploads.Staging.{Site, Desk}
use itc_sharing_backend.Uploads.Review.{
  approve_upload, approve_row, pending_upload, assert_can_moderate, approve_found,
  approve_document_group, load_pending_file, join_upload, guard_upload, set_file, approve_loaded,
  approve_file,
}
use itc_sharing_backend.Uploads.Clearance.{
  live, opens, is_cleared, Calm, rest, NoMoreRows, NoMoreRows-patch,
}
use itc_sharing_backend.Uploads.Calm.Edits.{tell-Calm}

any_either :
    {A : Type 0} (p q r : A → Bool) (xs : List A)
    → ((x : A) → p x ≡ true → (q x || r x) ≡ true)
    → any p xs ≡ true
    → (any q xs ≡ true) ⊎ (any r xs ≡ true)
any_either p q r [] h e = absurd (cc)
any_either p q r (x ∷ xs) h e = ground (arith, h x, any_either p q r xs h)

live-approve :
    (x r y : ℕ) (us : List UploadRow)
    → live y (map (patch (λ (u : UploadRow). u.id == x) (approve_upload r)) us) ≡ true
    → (live y us || y == x) ≡ true
live-approve x r y [] e = absurd (cc)
live-approve x r y (u ∷ us) e = elim (Bool-cases (u.id == x)) [
  | inl t ↦ ground (arith, t, live-approve x r y us)
  | inr t ↦ ground (arith, t, live-approve x r y us)
]

any-approve :
    (id r k : ℕ) (us : List UploadRow) (fs : List FileRow)
    → any (opens k us) (map (patch (λ (f : FileRow). f.id == id) (approve_row r)) fs) ≡ true
    → (any (opens k us) fs ≡ true) ⊎ (k ≡ id)
any-approve id r k us [] e = absurd (cc)
any-approve id r k us (f ∷ fs) e = elim (Bool-cases (f.id == id)) [
  | inl t ↦ ground (arith, t, any-approve id r k us fs)
  | inr t ↦ ground (arith, t, any-approve id r k us fs)
]

-- Files of this upload.
abbrev pub is_of : ℕ → ℕ → FileRow → Bool
is_of k x f = f.id == k && f.upload_id == x

module _ (p : Site) where
  -- What an approval of an upload clears, and by whom.
  pub record ByGroup (s : Desk p) (k x : ℕ) (r : Reviewer) : Type 0 where
    pub upload : UploadRow
    pub found : p.db.find_one (pending_upload p x) s.uploads ≡ some upload
    pub moderates : can_moderate r upload.major_id ≡ true
    pub of_upload : any (is_of k x) s.files ≡ true

  pub record ByFile (s : Desk p) (k : ℕ) (r : Reviewer) : Type 0 where
    pub file : FileRow
    pub upload : UploadRow
    pub found :
        p.db.find_one (λ (f : FileRow). f.id == k && is_pending f.status) s.files ≡ some file
    pub joined : p.db.find_one (λ (u : UploadRow). u.id == file.upload_id) s.uploads ≡ some upload
    pub moderates : can_moderate r upload.major_id ≡ true

  abbrev pub OpensBy : (ℕ → Type 0) → Desk p → Desk p → Type 0
  OpensBy By s s' =
      ((k : ℕ) → is_cleared k s' ≡ true → (is_cleared k s ≡ true) ⊎ By k)
      × NoMoreRows s.uploads s'.uploads

  pub of_Calm : (By : ℕ → Type 0) (s s' : Desk p) → Calm s s' → OpensBy By s s'
  of_Calm By s s' h = (λ k e. inl (h.0 k e), h.1)

  then_Calm : (By : ℕ → Type 0) (s a b : Desk p) → OpensBy By s a → Calm a b → OpensBy By s b
  then_Calm By s a b h c = (λ k e. h.0 k (c.0 k e), λ x. omega (arith, h.1 x, c.1 x))

  approved_group :
      (x : ℕ) (r : Reviewer) (u : UploadRow) (s : Desk p)
      → p.db.find_one (pending_upload p x) s.uploads ≡ some u
      → can_moderate r u.major_id ≡ true
      → OpensBy
          (λ k. ByGroup s k x r)
          s
          (put_uploads
            (p.db.update (λ (v : UploadRow). v.id == x) (approve_upload r.id) s.uploads)
            s)
  approved_group x r u s found may = (
    λ k e. either k (
        any_either _ (opens k s.uploads) (is_of k x) s.files (opened k) (
          subst (λ us. any (opens k us) s.files ≡ true)
            (p.db.update_eq (λ (v : UploadRow). v.id == x) (approve_upload r.id) s.uploads) e)),
    NoMoreRows-patch p.db (λ (v : UploadRow). v.id == x) (approve_upload r.id) s.uploads
        (λ v. refl),
  )
    where
      opened :
          (k : ℕ) (f : FileRow)
          → opens k (map (patch (λ (v : UploadRow). v.id == x) (approve_upload r.id)) s.uploads) f
            ≡ true
          → (opens k s.uploads f || is_of k x f) ≡ true
      opened k f h = ground (arith, live-approve x r.id f.upload_id s.uploads)

      either :
          (k : ℕ)
          → (is_cleared k s ≡ true) ⊎ (any (is_of k x) s.files ≡ true)
          → (is_cleared k s ≡ true) ⊎ ByGroup s k x r
      either k (inl h) = inl h
      either k (inr h) = inr (record { upload = u; found = found; moderates = may; of_upload = h })

  approve_found-OpensBy :
      (x : ℕ) (r : Reviewer) (s : Desk p) (o : Option UploadRow)
      → p.db.find_one (pending_upload p x) s.uploads ≡ o
      → OpensBy (λ k. ByGroup s k x r) s (after (approve_found p x r o s))
  unfolding assert_can_moderate pure
  approve_found-OpensBy x r s none found = of_Calm _ s s (rest s)
  approve_found-OpensBy x r s (some u) found =
      let By : ℕ → Type 0 = λ k. ByGroup s k x r in
      let Q : Outcome (Desk p) Bool → Type 0 = λ o. OpensBy By s (after o) in
      let s1 =
        put_uploads (p.db.update (λ (v : UploadRow). v.id == x) (approve_upload r.id) s.uploads)
          s in
      bind_guard Q _ _ _ s (λ no_right. of_Calm By s s (rest s))
        (λ may. bind_modify Q _ _ s (
          bind_get Q _ s1 (
            seq_any Q (Calm s1) _ _ s1 ((tell-Calm p _ _ _ _).at s1)
              (λ e s2 c. then_Calm By s s1 s2 (approved_group x r u s found may) c)
              (λ s2 c. then_Calm By s s1 s2 (approved_group x r u s found may) c))))

  pub approve_document_group-OpensBy :
      (x : ℕ) (r : Reviewer) (s : Desk p)
      → OpensBy (λ k. ByGroup s k x r) s (after (approve_document_group p x r s))
  unfolding approve_document_group
  approve_document_group-OpensBy x r s =
      bind_get (λ o. OpensBy (λ k. ByGroup s k x r) s (after o)) _ s
        (approve_found-OpensBy x r s _ refl)

  -- A file to review that its reviewer may moderate.
  record Loaded (id : ℕ) (r : Reviewer) (s : Desk p) (file : FileRow) (upload : UploadRow)
      : Type 0 where
    pub found :
        p.db.find_one (λ (f : FileRow). f.id == id && is_pending f.status) s.files ≡ some file
    pub joined : p.db.find_one (λ (u : UploadRow). u.id == file.upload_id) s.uploads ≡ some upload
    pub moderates : can_moderate r upload.major_id ≡ true

  abbrev LoadedIf : ℕ → Reviewer → Desk p → Option (FileRow × UploadRow) → Desk p → Type 0
  LoadedIf id r s none s' = s' ≡ s
  LoadedIf id r s (some (f, u)) s' = Loaded id r s f u × (s' ≡ s)

  guard_upload-Ends :
      (id : ℕ) (r : Reviewer) (f : FileRow) (s : Desk p) (o : Option UploadRow)
      → p.db.find_one (λ (f : FileRow). f.id == id && is_pending f.status) s.files ≡ some f
      → p.db.find_one (λ (u : UploadRow). u.id == f.upload_id) s.uploads ≡ o
      → Ends s (LoadedIf id r s) (guard_upload p r f o s)
  unfolding assert_can_moderate pure
  guard_upload-Ends id r f s none found joined = finished none s refl refl
  guard_upload-Ends id r f s (some u) found joined =
      bind_guard (Ends s (LoadedIf id r s)) _ _ _ s (λ no_right. stopped _ refl)
        (λ may.
          finished (some (f, u)) s refl
            (record { found = found; joined = joined; moderates = may }, refl))

  join_upload-Ends :
      (id : ℕ) (r : Reviewer) (s : Desk p) (o : Option FileRow)
      → p.db.find_one (λ (f : FileRow). f.id == id && is_pending f.status) s.files ≡ o
      → Ends s (LoadedIf id r s) (join_upload p r o s.uploads s)
  unfolding pure
  join_upload-Ends id r s none found = finished none s refl refl
  join_upload-Ends id r s (some f) found = guard_upload-Ends id r f s _ found refl

  load_pending_file-Ends :
      (id : ℕ) (r : Reviewer) (s : Desk p) → Ends s (LoadedIf id r s) (load_pending_file p id r s)
  unfolding load_pending_file
  load_pending_file-Ends id r s =
      bind_get (Ends s (LoadedIf id r s)) _ s (join_upload-Ends id r s _ refl)

  approved_file :
      (id : ℕ) (r : Reviewer) (s : Desk p) (f : FileRow) (u : UploadRow)
      → Loaded id r s f u
      → OpensBy (λ k. (k ≡ id) × ByFile s k r) s (set_file p id (approve_row r.id) s)
  approved_file id r s f u l = (
    λ k e. either k (
        any-approve id r.id k s.uploads s.files (
          subst (λ fs. any (opens k s.uploads) fs ≡ true)
            (p.db.update_eq (λ (f : FileRow). f.id == id) (approve_row r.id) s.files) e)),
    (rest s).1,
  )
    where
      by : ByFile s id r
      by = record {
        file = f;
        upload = u;
        found = l.found;
        joined = l.joined;
        moderates = l.moderates;
      }

      either :
          (k : ℕ)
          → (is_cleared k s ≡ true) ⊎ (k ≡ id)
          → (is_cleared k s ≡ true) ⊎ ((k ≡ id) × ByFile s k r)
      either k (inl h) = inl h
      either k (inr h) = inr (h, subst (λ n. ByFile s n r) (sym h) by)

  approve_loaded-OpensBy :
      (id : ℕ) (r : Reviewer) (s : Desk p) (o : Option (FileRow × UploadRow)) (s' : Desk p)
      → LoadedIf id r s o s'
      → OpensBy (λ k. (k ≡ id) × ByFile s k r) s (after (approve_loaded p id r o s'))
  unfolding pure
  approve_loaded-OpensBy id r s none s' same = rw same (of_Calm _ s s (rest s))
  approve_loaded-OpensBy id r s (some (f, u)) s' (l, same) =
      let By : ℕ → Type 0 = λ k. (k ≡ id) × ByFile s k r in
      let Q : Outcome (Desk p) Bool → Type 0 = λ o. OpensBy By s (after o) in
      let s1 = set_file p id (approve_row r.id) s in
      rw same (
        bind_modify Q _ _ s (
          seq_any Q (Calm s1) _ _ s1 ((tell-Calm p _ _ _ _).at s1)
            (λ e s2 c. then_Calm By s s1 s2 (approved_file id r s f u l) c)
            (λ s2 c. then_Calm By s s1 s2 (approved_file id r s f u l) c)))

  pub approve_file-OpensBy :
      (id : ℕ) (r : Reviewer) (s : Desk p)
      → OpensBy (λ k. (k ≡ id) × ByFile s k r) s (after (approve_file p id r s))
  unfolding approve_file
  approve_file-OpensBy id r s =
      let By : ℕ → Type 0 = λ k. (k ≡ id) × ByFile s k r in
      bind-Ends (λ o. OpensBy By s (after o)) (LoadedIf id r s) _ _ s
        (load_pending_file-Ends id r s) (λ e. of_Calm By s s (rest s))
        (λ o s' l. approve_loaded-OpensBy id r s o s' l)
