-- ===== src/Uploads/Publishing.antt =====
-- Proofs on histories of calls: which reviews clear a file.
use itc_sharing_backend.Base.{
  ℕ, ◌≡◌, Bool, true, String, List, [], ◌∷◌, ◌⊎◌, inl, inr, arith, subst,
}
use itc_sharing_backend.Moderation.Reviewers.{Reviewer}
use itc_sharing_backend.Uploads.Staging.{Site, Desk}
use itc_sharing_backend.Uploads.Calls.{
  Call, stage, unstage, post, add, edit, take_down, take_out, hide_one, hide_all, pin, approve_all,
  approve_one, reject_all, reject_one, purge, step, run,
}
use itc_sharing_backend.Uploads.Clearance.{is_cleared, Calm}
use itc_sharing_backend.Uploads.Calm.Files.{
  QuietStep-Calm, stage_file-Quiet, delete_staged_file-Quiet,
}
use itc_sharing_backend.Uploads.Calm.Posting.{Keyed, Keyed-Calm, upload_many-opens, add_files-Calm}
use itc_sharing_backend.Uploads.Calm.Edits.{
  update-Calm, delete-Calm, remove_file-Calm, set_file_hidden-Calm, set_hidden-Calm,
  set_pinned-Calm, reject_document_group-Calm, reject_file-Calm, delete_document-Calm,
}
use itc_sharing_backend.Uploads.Calm.Approving.{
  ByGroup, ByFile, OpensBy, approve_document_group-OpensBy, approve_file-OpensBy,
}

module _ (p : Site) (is_language : String → Bool) (year_levels : String → List ℕ) where
  -- Some call of the history is a reviewer's approval, of the file or of the upload that it is in.
  pub data Published : List Call → Desk p → ℕ → Type 0 where
    by_group :
        {x : ℕ} {r : Reviewer} {cs : List Call} {s : Desk p} {k : ℕ}
        → ByGroup p s k x r
        → Published (approve_all x r ∷ cs) s k
    by_file :
        {r : Reviewer} {cs : List Call} {s : Desk p} {k : ℕ}
        → ByFile p s k r
        → Published (approve_one k r ∷ cs) s k
    later :
        {c : Call} {cs : List Call} {s : Desk p} {k : ℕ}
        → Published cs (step p is_language year_levels c s) k
        → Published (c ∷ cs) s k

  -- A step clears what is published now, and keeps identifiers unique.
  Steps : Call → Desk p → Type 0
  Steps c s =
      ((cs : List Call) (k : ℕ)
        → is_cleared k (step p is_language year_levels c s) ≡ true
        → (is_cleared k s ≡ true) ⊎ Published (c ∷ cs) s k)
      × (Keyed s → Keyed (step p is_language year_levels c s))

  calm_step : (c : Call) (s : Desk p) → Calm s (step p is_language year_levels c s) → Steps c s
  unfolding Steps
  calm_step c s h = (λ cs k e. inl (h.0 k e), Keyed-Calm s (step p is_language year_levels c s) h)

  opening_step :
      (By : ℕ → Type 0) (c : Call) (s : Desk p)
      → ((cs : List Call) (k : ℕ) → By k → Published (c ∷ cs) s k)
      → OpensBy p By s (step p is_language year_levels c s)
      → Steps c s
  unfolding Steps
  opening_step By c s by h = (
    λ cs k e. elim (h.0 k e) [ inl old ↦ inl old | inr new ↦ inr (by cs k new) ],
    λ keyed x. omega (arith, h.1 x, keyed x),
  )

  step_lem : (c : Call) (s : Desk p) → Keyed s → Steps c s
  unfolding step Steps
  step_lem (stage m u f) s keyed =
      calm_step _ s ((QuietStep-Calm p _ (stage_file-Quiet p m u f)).at s)
  step_lem (unstage m id u) s keyed =
      calm_step _ s ((QuietStep-Calm p _ (delete_staged_file-Quiet p m id u)).at s)
  step_lem (post m id new_id u dto fs) s keyed =
      let (opens, keeps) = upload_many-opens p is_language year_levels m id new_id u dto fs s in
      (λ cs k e. inl (opens k e), keeps)
  step_lem (add m id new_id u fs ids) s keyed =
      calm_step _ s (add_files-Calm p m id new_id u fs ids s keyed)
  step_lem (edit now id u dto) s keyed =
      calm_step _ s ((update-Calm p is_language year_levels now id u dto).at s)
  step_lem (take_down m id u) s keyed = calm_step _ s ((delete-Calm p m id u).at s)
  step_lem (take_out m id u) s keyed = calm_step _ s ((remove_file-Calm p m id u).at s)
  step_lem (hide_one now id u hidden) s keyed =
      calm_step _ s ((set_file_hidden-Calm p now id u hidden).at s)
  step_lem (hide_all now id u hidden) s keyed =
      calm_step _ s ((set_hidden-Calm p now id u hidden).at s)
  step_lem (pin now id u pinned) s keyed = calm_step _ s ((set_pinned-Calm p now id u pinned).at s)
  step_lem (approve_all id r) s keyed =
      opening_step _ _ s (λ cs k by. by_group by) (approve_document_group-OpensBy p id r s)
  step_lem (approve_one id r) s keyed =
      opening_step _ _ s (λ cs k by. file_of cs k by) (approve_file-OpensBy p id r s)
    where
      file_of :
          (cs : List Call) (k : ℕ)
          → (k ≡ id) × ByFile p s k r
          → Published (approve_one id r ∷ cs) s k
      file_of cs k (same, by) = subst (λ n. Published (approve_one n r ∷ cs) s k) same (by_file by)
  step_lem (reject_all m id r reason) s keyed =
      calm_step _ s ((reject_document_group-Calm p m id r reason).at s)
  step_lem (reject_one id r reason) s keyed = calm_step _ s ((reject_file-Calm p id r reason).at s)
  step_lem (purge m id) s keyed = calm_step _ s ((delete_document-Calm p m id).at s)

  -- Where identifiers of uploads are unique, a file that is active in an active upload after a
  -- history (hidden or expired or not) was so before it, or some call of the history published it: a
  -- reviewer who moderates the department of its upload approved it when it was pending, or approved
  -- its upload.
  pub run-Published :
      (cs : List Call) (s : Desk p) (k : ℕ)
      → Keyed s
      → is_cleared k (run p is_language year_levels cs s) ≡ true
      → (is_cleared k s ≡ true) ⊎ Published cs s k
  unfolding run Steps
  run-Published [] s k keyed e = inl e
  run-Published (c ∷ cs) s k keyed e =
      let (opens, keeps) = step_lem c s keyed in
      elim (run-Published cs (step p is_language year_levels c s) k (keeps keyed) e) [
        | inl h ↦ opens cs k h
        | inr h ↦ inr (later h)
      ]
