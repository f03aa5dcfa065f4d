-- ===== src/Uploads/Queue.antt =====
-- Proofs on the review queue and the approvals that it offers.
use itc_sharing_backend.Base.{
  any_of_count, ℕ, ◌≤◌, ◌≡◌, refl, sym, ◌∙◌, Bool, true, false, ◌&&◌, ◌==◌, List, [], ◌∷◌, Option,
  none, some, any, count, arith, Outcome, done, fail, count_pos_at, count_none_of, count-le-count,
  bind_get, bind_guard, bind_modify, ap, ==_iff, ◌||◌, ◌++◌, Bool-cases, inl, inr, seq_any_done,
  pure, modify, String,
}
use itc_sharing_backend.Moderation.Reviewers.{Reviewer, scope_major_ids, in_scope}
use itc_sharing_backend.Moderation.Scope.{in_scope-can_moderate}
use itc_sharing_backend.Uploads.Types.{is_pending, FileRow, UploadRow, send}
use itc_sharing_backend.Uploads.Staging.{Site, Desk}
use itc_sharing_backend.Uploads.Review.{
  pending_upload, tell, assert_can_moderate, approve_found, approve_document_group,
}
use itc_sharing_backend.Uploads.Pending.{
  group, file, is_group, QueueRow, flatten_upload, flat, pending_groups, group_of, active_uploads,
  files_of, get_pending_documents,
}
use itc_sharing_backend.Uploads.Found.{any-find}
use itc_sharing_backend.Uploads.Calm.Posting.{Keyed}

-- The call answers that it approved something.
abbrev pub is_yes : {S : Type 0} → Outcome S Bool → Bool
is_yes (done b s) = b
is_yes (fail e s) = false

any_of_pos : {A : Type 0} (q : A → Bool) (xs : List A) → 1 ≤ count q xs → any q xs ≡ true
any_of_pos q [] h = absurd (omega (arith, h))
any_of_pos q (x ∷ xs) h = ground (arith, any_of_pos q xs)

any-append :
    {A : Type 0} (q : A → Bool) (xs ys : List A) → any q (xs ++ ys) ≡ (any q xs || any q ys)
any-append q [] ys = refl
any-append q (x ∷ xs) ys = ground (arith, any-append q xs ys)

-- The row is one of this upload, to be reviewed with the whole upload.
abbrev pub is_group_row : ℕ → QueueRow → Bool
is_group_row x row = row.group_id == x && is_group row.review_scope

flatten-group :
    (x : ℕ) (u : UploadRow) (fs : List FileRow)
    → any (is_group_row x) (flatten_upload group u fs) ≡ (u.id == x && any (λ f. true) fs)
unfolding flatten_upload
flatten-group x u [] = ground arith
flatten-group x u (f ∷ fs) = ground (arith, flatten-group x u fs)

flatten-file :
    (x : ℕ) (u : UploadRow) (fs : List FileRow)
    → any (is_group_row x) (flatten_upload file u fs) ≡ false
unfolding flatten_upload
flatten-file x u [] = refl
flatten-file x u (f ∷ fs) = ground (arith, flatten-file x u fs)

-- Rows of uploads of which each has such a row where it passes a test and `b` holds.
any-flat :
    (q : QueueRow → Bool) (f : UploadRow → List QueueRow) (t : UploadRow → Bool) (b : Bool)
    (us : List UploadRow)
    → ((u : UploadRow) → any q (f u) ≡ (t u && b))
    → any q (flat f us) ≡ (any t us && b)
unfolding flat
any-flat q f t b [] h = refl
any-flat q f t b (u ∷ us) h =
    any-append q (f u) (flat f us) ∙ ground (arith, h u, any-flat q f t b us h)

module _ (p : Site) where
  -- The rows of the queue with this identifier, as rows of the table.
  abbrev offered : Reviewer → ℕ → UploadRow → Bool
  offered r x u = u.id == x && (is_pending u.status && in_scope (scope_major_ids r) u.major_id)

  pending_groups-count :
      (r : Reviewer) (x : ℕ) (us : List UploadRow)
      → count (λ (u : UploadRow). u.id == x) (pending_groups p r us) ≡ count (offered r x) us
  unfolding pending_groups
  pending_groups-count r x us = p.db.find_count _ _ us

  tell-done :
      (to : Option ℕ) (kind key : String) (x : ℕ) (s : Desk p)
      → (s' : Desk p) × (tell p to kind key x s ≡ done tt s')
  unfolding pure send modify
  tell-done none kind key x s = (s, refl)
  tell-done (some u) kind key x s = (_, refl)

  -- What the queue shows, by the number of rows that it offers.
  not_shown :
      (r : Reviewer) (x : ℕ) (us : List UploadRow)
      → count (offered r x) us ≡ 0
      → any (λ (u : UploadRow). u.id == x) (pending_groups p r us) ≡ false
  not_shown r x us h = any_of_count _ _ (pending_groups-count r x us ∙ h)

  shown :
      (r : Reviewer) (x : ℕ) (us : List UploadRow)
      → 1 ≤ count (offered r x) us
      → any (λ (u : UploadRow). u.id == x) (pending_groups p r us) ≡ true
  shown r x us h =
      any_of_pos (λ (u : UploadRow). u.id == x) (pending_groups p r us)
        (omega (arith, pending_groups-count r x us))

  approve_found-yes :
      (x : ℕ) (r : Reviewer) (s : Desk p) (o : Option UploadRow)
      → Keyed s
      → p.db.find_one (pending_upload p x) s.uploads ≡ o
      → is_yes (approve_found p x r o s)
        ≡ any (λ (u : UploadRow). u.id == x) (pending_groups p r s.uploads)
  unfolding assert_can_moderate pure
  approve_found-yes x r s none keyed found = sym (
      not_shown r x s.uploads (
        omega (
          arith,
          p.db.find_one_none _ s.uploads found,
          count-le-count (offered r x) (pending_upload p x) s.uploads (λ u h. ground arith),
        )))
  approve_found-yes x r s (some u) keyed found =
      let Q : Outcome (Desk p) Bool → Type 0 =
        λ o. is_yes o ≡ any (λ (v : UploadRow). v.id == x) (pending_groups p r s.uploads) in
      let (o, hit) = p.db.find_one_some _ s.uploads u found in
      bind_guard Q _ _ _ s
        (λ no_right. sym (
          not_shown r x s.uploads (
            count_none_of (offered r x) (λ (v : UploadRow). v.id == x) o (ground arith)
              (ground (arith, in_scope-can_moderate r u.major_id)) (λ v h. ground arith)
              (keyed x))))
        (λ may. bind_modify Q _ _ s (
          bind_get Q _ _ (
            seq_any_done Q _ _ _ (tell-done _ _ _ _ _) (λ s2. sym (
              shown r x s.uploads (
                count_pos_at (offered r x) o
                  (ground (arith, in_scope-can_moderate r u.major_id))))))))

  -- Approvals are carried out for the uploads that the queue reads.
  approve_document_group-pending_groups :
      (x : ℕ) (r : Reviewer) (s : Desk p)
      → Keyed s
      → is_yes (approve_document_group p x r s)
        ≡ any (λ (u : UploadRow). u.id == x) (pending_groups p r s.uploads)
  unfolding approve_document_group
  approve_document_group-pending_groups x r s keyed =
      bind_get (λ o. is_yes o ≡ any (λ (u : UploadRow). u.id == x) (pending_groups p r s.uploads)) _
        s (approve_found-yes x r s _ keyed refl)

  -- Files of the upload.
  abbrev pub has_files : ℕ → List FileRow → Bool
  has_files x files = any (λ (f : FileRow). f.upload_id == x) files

  group_of-shows :
      (x : ℕ) (files : List FileRow) (u : UploadRow)
      → any (is_group_row x) (group_of p files u) ≡ (u.id == x && has_files x files)
  group_of-shows x files u =
      flatten-group x u _
      ∙ ap (λ b. u.id == x && b)
          (any-find p.db (λ f. true) (λ (f : FileRow). f.upload_id == u.id) files)
      ∙ elim (Bool-cases (u.id == x)) [
        | inl same ↦ ap (λ n. u.id == x && has_files n files) ((==_iff u.id x).0 same)
        | inr apart ↦ ground arith
      ]

  -- What the queue shows of an upload as a whole.
  queue-groups :
      (x : ℕ) (r : Reviewer) (s : Desk p)
      → any (is_group_row x) (get_pending_documents p r s)
        ≡ (any (λ (u : UploadRow). u.id == x) (pending_groups p r s.uploads) && has_files x s.files)
  unfolding get_pending_documents
  queue-groups x r s =
      any-append (is_group_row x) (flat (group_of p s.files) (pending_groups p r s.uploads)) _
      ∙ ground (
        arith,
        any-flat (is_group_row x) (group_of p s.files) (λ u. u.id == x) (has_files x s.files)
            (pending_groups p r s.uploads) (group_of-shows x s.files),
        any-flat (is_group_row x) (files_of p s.files) (λ u. false) false
            (active_uploads p r s.uploads) (λ u. flatten-file x u _),
      )

  -- Where identifiers are unique, the review queue of a reviewer has a row to review an upload as a
  -- whole exactly where that reviewer's approval of the upload is carried out and the upload has a file.
  pub approve_document_group-get_pending_documents :
      (x : ℕ) (r : Reviewer) (s : Desk p)
      → Keyed s
      → any (is_group_row x) (get_pending_documents p r s)
        ≡ (is_yes (approve_document_group p x r s) && has_files x s.files)
  approve_document_group-get_pending_documents x r s keyed =
      queue-groups x r s
      ∙ ap (λ b. b && has_files x s.files) (sym (approve_document_group-pending_groups x r s keyed))
