-- ===== src/Uploads/Calm/Posting.antt =====
-- Proofs on uploadMany and addFiles.
use itc_sharing_backend.Base.{
  any-append_le, any_of_count, ℕ, ◌≤◌, ◌≡◌, refl, sym, subst, Bool, true, false, ◌&&◌, String,
  Option, none, some, List, [], ◌∷◌, ◌==◌, arith, any, count, if◌then◌else◌, Bool-cases, inl, inr,
  after, modify, Outcome, Ends, stopped, finished, Failure, bind_get, bind-Ends, seq-Ends, seq_any,
  bind_guard, bind_expect, bind_modify, Occurs, count_none_of, any-eq-count, end_expect, guard-Ends,
  pure, throw, fail,
}
use itc_sharing_backend.Documents.Audience.{AudienceEntry, Major}
use itc_sharing_backend.Uploads.Types.{
  DocType, put_uploads, active, pending, is_active, UploadRow, Quota, Shelf, Moment, send,
}
use itc_sharing_backend.Uploads.Staging.{Site, Desk, Incoming}
use itc_sharing_backend.Uploads.Posting.{
  load_major, assert_doc_type, audience_for, check_failure, CreateDocument, create_upload,
  upload_many, add_files, back_to_review, attach,
}
use itc_sharing_backend.Uploads.Clearance.{
  is_cleared, rest, Calm-trans, opens_no_more, live, Calm, patched_uploads,
}
use itc_sharing_backend.Uploads.Calm.Attaching.{Shut, attach-Calm}

-- Identifiers of uploads have one row at most.
abbrev pub Keyed : {q : Quota} → Shelf q → Type 0
Keyed s = (x : ℕ) → count (λ (u : UploadRow). u.id == x) s.uploads ≤ 1

pub Keyed-Calm : {q : Quota} (s s' : Shelf q) → Calm s s' → Keyed s → Keyed s'
Keyed-Calm s s' h keyed x = omega (arith, h.1 x, keyed x)

module _ (p : Site) (is_language : String → Bool) (year_levels : String → List ℕ) where
  abbrev Still : {A : Type 0} → Desk p → Outcome (Desk p) A → Type 0
  Still s o = Ends s (λ _ s'. s' ≡ s) o

  pure-Still : {A : Type 0} (a : A) (s : Desk p) → Still s (pure a s)
  unfolding pure
  pure-Still a s = finished a s refl refl

  pub load_major-Still : (id : ℕ) (s : Desk p) → Still s (load_major p is_language year_levels id s)
  unfolding load_major
  load_major-Still id s =
      bind_get (Still s) _ s
        (end_expect (Still s) _ _ s (λ _. stopped _ refl) (λ a _. finished a s refl refl))

  pub assert_doc_type-Still :
      (m : Major) (t : DocType) (s : Desk p)
      → Still s (assert_doc_type p is_language year_levels m t s)
  unfolding assert_doc_type
  assert_doc_type-Still m t s = guard-Ends _ _ s

  check_failure-Still :
      (o : Option Failure) (s : Desk p) → Still s (check_failure p is_language year_levels o s)
  unfolding pure throw
  check_failure-Still none s = finished tt s refl refl
  check_failure-Still (some e) s = stopped e refl

  pub audience_for-Still :
      (m : Major) (es : List AudienceEntry) (s : Desk p)
      → Still s (audience_for p is_language year_levels m es s)
  unfolding audience_for
  audience_for-Still m es s = bind_get (Still s) _ s (
      seq-Ends (Still s) (λ _ s'. s' ≡ s) _ _ s (check_failure-Still _ s) (λ e. stopped e refl)
        (λ s1 same. rw same (pure-Still _ s)))

  -- What a creation that ends well has added.
  pub record Created (id u : ℕ) (s : Desk p) (row : UploadRow) (s' : Desk p) : Type 0 where
    pub added : s' ≡ put_uploads (row ∷ s.uploads) s
    pub at : row.id ≡ id
    pub inactive : row.status ≡ pending
    pub unreviewed : row.reviewed_by ≡ none
    pub free : any (λ (r : UploadRow). r.id == id) s.uploads ≡ false

  pub create_upload-Ends :
      (m : Moment) (id u : ℕ) (dto : CreateDocument) (fs : List Incoming) (s : Desk p)
      → Ends s (Created id u s) (create_upload p is_language year_levels m id u dto fs s)
  unfolding create_upload pure
  create_upload-Ends m id u dto fs s =
      let Q : Outcome (Desk p) UploadRow → Type 0 = Ends s (Created id u s) in
      let stop : (e : Failure) → Q (fail e s) = λ e. stopped e refl in
      bind_guard Q _ _ _ s (λ _. stop _)
        (λ _.
          bind-Ends Q (λ _ s'. s' ≡ s) _ _ s (load_major-Still dto.major_id s) stop
            (λ major s1 e1. rw e1 (
              seq-Ends Q (λ _ s'. s' ≡ s) _ _ s (assert_doc_type-Still major dto.doc_type s) stop
                (λ s2 e2. rw e2 (
                  bind-Ends Q (λ _ s'. s' ≡ s) _ _ s (audience_for-Still major dto.audience s) stop
                    (λ audience s3 e3. rw e3 (
                      bind_get Q _ s (
                        bind_guard Q _ _ _ s (λ _. stop _)
                          (λ _.
                            bind_guard Q _ _ _ s (λ _. stop _)
                              (λ free. bind_modify Q _ _ s (
                                finished _ _ refl (record {
                                  added = refl;
                                  at = refl;
                                  inactive = refl;
                                  unreviewed = refl;
                                  free = ground arith;
                                }))))))))))))

  live_none :
      (x : ℕ) (us : List UploadRow)
      → any (λ (r : UploadRow). r.id == x) us ≡ false
      → live x us ≡ false
  live_none x [] h = refl
  live_none x (r ∷ us) h = ground (arith, live_none x us)

  Created-Shut :
      (id u : ℕ) (s : Desk p) (row : UploadRow) (s1 : Desk p)
      → Created id u s row s1
      → Shut active row.id s1
  unfolding is_active
  Created-Shut id u s row s1 c =
      subst (λ (t : Desk p). Shut active row.id t) (sym c.added)
        (rw (c.inactive, live_none row.id s.uploads own) (ground arith))
    where
      own : any (λ (r : UploadRow). r.id == row.id) s.uploads ≡ false
      own = subst (λ x. any (λ (r : UploadRow). r.id == x) s.uploads ≡ false) (sym c.at) c.free

  Created-opens :
      (id u : ℕ) (s : Desk p) (row : UploadRow) (s1 : Desk p)
      → Created id u s row s1
      → (k : ℕ) → is_cleared k s1 ≡ true
      → is_cleared k s ≡ true
  Created-opens id u s row s1 c =
      subst (λ (t : Desk p). (k : ℕ) → is_cleared k t ≡ true → is_cleared k s ≡ true) (sym c.added)
        (opens_no_more s (put_uploads (row ∷ s.uploads) s)
          (λ x e.
            any-append_le (λ (r : UploadRow). r.id == x && is_active r.status) (row ∷ []) s.uploads
              (idle x) e)
          (λ k e. e))
    where
      idle : (x : ℕ) → any (λ (r : UploadRow). r.id == x && is_active r.status) (row ∷ []) ≡ false
      idle x = rw c.inactive (unfold is_active in ground arith)

  Created-Keyed :
      (id u : ℕ) (s : Desk p) (row : UploadRow) (s1 : Desk p)
      → Created id u s row s1
      → Keyed s
      → Keyed s1
  Created-Keyed id u s row s1 c keyed = subst (λ (t : Desk p). Keyed t) (sym c.added) one
    where
      one : Keyed (put_uploads (row ∷ s.uploads) s)
      one x =
          let none_yet : count (λ (r : UploadRow). r.id == id) s.uploads ≡ 0 =
            any-eq-count _ s.uploads c.free in
          let at : row.id ≡ id = c.at in
          elim (Bool-cases (row.id == x)) [
            | inl e ↦
                let here : id ≡ x = ground arith in
                let now : count (λ (r : UploadRow). r.id == x) s.uploads ≡ 0 =
                  subst (λ y. count (λ (r : UploadRow). r.id == y) s.uploads ≡ 0) here none_yet in
                ground (arith, e, now)
            | inr e ↦ ground (arith, e, keyed x)
          ]

  -- An upload is posted: no file is cleared, and identifiers stay unique.
  pub upload_many-opens :
      (m : Moment) (id : ℕ) (new_id : ℕ → ℕ) (u : ℕ) (dto : CreateDocument) (fs : List Incoming)
      (s : Desk p)
      → ((k : ℕ)
          → is_cleared k (after (upload_many p is_language year_levels m id new_id u dto fs s))
            ≡ true
          → is_cleared k s ≡ true)
        × (Keyed s → Keyed (after (upload_many p is_language year_levels m id new_id u dto fs s)))
  unfolding upload_many send modify
  upload_many-opens m id new_id u dto fs s =
      let Rel : Desk p → Type 0 =
        λ s'. ((k : ℕ) → is_cleared k s' ≡ true → is_cleared k s ≡ true) × (Keyed s → Keyed s') in
      let Q : Outcome (Desk p) (Unit {0}) → Type 0 = λ o. Rel (after o) in
      bind-Ends Q (Created id u s) _ _ s (create_upload-Ends m id u dto fs s)
        (λ e. (λ k h. h, λ keyed. keyed))
        (λ row s1 c.
          let calm_after =
            attach-Calm p active row.id s1 m u dto.major_id new_id dto.staged_file_ids fs
              (Created-Shut id u s row s1 c) in
          seq_any Q Rel _ _ s1
            (
              λ k e. Created-opens id u s row s1 c k (calm_after.0 k e),
              λ keyed.
                  Keyed-Calm s1
                    (after
                      (attach p m row.id u dto.major_id active new_id dto.staged_file_ids fs s1))
                    calm_after (Created-Keyed id u s row s1 c keyed),
            )
            (λ e s2 h. h) (λ s2 h. h))

module _ (p : Site) where
  -- An upload that was found and is not active: no other row with its identifier is.
  not_live :
      (s : Desk p) (u : UploadRow) (x : ℕ)
      → Keyed s
      → Occurs u s.uploads
      → (u.id == x) ≡ true
      → is_active u.status ≡ false
      → live x s.uploads ≡ false
  not_live s u x keyed o hit idle = any_of_count _ s.uploads (
      count_none_of (λ (r : UploadRow). r.id == x && is_active r.status)
        (λ (r : UploadRow). r.id == x) o hit (ground arith) (λ r h. ground arith) (keyed x))

  Shut-found :
      (s : Desk p) (u : UploadRow) (x : ℕ)
      → Keyed s
      → Occurs u s.uploads
      → (u.id == x) ≡ true
      → Shut (if is_active u.status then pending else active) x s
  Shut-found s u x keyed o hit = elim (Bool-cases (is_active u.status)) [
    | inl e ↦ rw e (unfold is_active in refl)
    | inr e ↦ rw (e, not_live s u x keyed o hit e) (ground arith)
  ]

  review_again-Calm :
      (t : Bool) (x : ℕ) (s : Desk p)
      → Calm s (
          if t
          then s
          else put_uploads (p.db.update (λ (u : UploadRow). u.id == x) back_to_review s.uploads) s)
  unfolding is_active
  review_again-Calm true x s = rest s
  review_again-Calm false x s = patched_uploads p.db _ back_to_review s (λ u. refl) (λ u hit h. cc)

  pub add_files-Calm :
      (m : Moment) (x : ℕ) (new_id : ℕ → ℕ) (u : ℕ) (fs : List Incoming) (ids : List ℕ) (s : Desk p)
      → Keyed s
      → Calm s (after (add_files p m x new_id u fs ids s))
  unfolding add_files modify
  add_files-Calm m x new_id u fs ids s keyed =
      let Q : Outcome (Desk p) (Unit {0}) → Type 0 = λ o. Calm s (after o) in
      bind_guard Q _ _ _ s (λ _. rest s)
        (λ _. bind_get Q _ s (
          bind_expect Q _ _ _ s (λ _. rest s)
            (λ up found.
              let (o, hit) = p.db.find_one_some _ s.uploads up found in
              bind_guard Q _ _ _ s (λ _. rest s)
                (λ _.
                  seq_any Q (Calm s) _ _ s
                    (attach-Calm p _ x s m u up.major_id new_id ids fs
                      (Shut-found s up x keyed o hit))
                    (λ e s2 h. h)
                    (λ s2 h.
                      Calm-trans s s2
                        (if is_active up.status
                          then s2
                          else put_uploads
                              (p.db.update (λ (u : UploadRow). u.id == x) back_to_review s2.uploads)
                              s2)
                        h (review_again-Calm (is_active up.status) x s2))))))
