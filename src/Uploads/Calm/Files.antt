-- ===== src/Uploads/Calm/Files.antt =====
-- Proofs on staging and posting: stageFile, deleteStagedFile, uploadMany and addFiles.
use itc_sharing_backend.Base.{
  ℕ, ◌≡◌, refl, Bool, true, false, String, Option, none, some, [], ◌∷◌, arith, any, if◌then◌else◌,
  M, done, after, Preorder, Keeps, Keeps-bind, Keeps-seq, Keeps-get, Keeps-pure, Keeps-throw,
  Keeps-guard, Keeps-expect, Keeps-modify, Keeps-halt_if, joined, subst, ◌∙◌, Keeps-imp,
}
use itc_sharing_backend.Storage.Refs
use itc_sharing_backend.Storage.Refs.{Objects}
use itc_sharing_backend.Documents.Signature.{Validation, accepted, refused, throws}
use itc_sharing_backend.Uploads.Types.{Quota, Shelf, Moment}
use itc_sharing_backend.Uploads.Staging.{
  Site, Desk, Incoming, Scan, clean, infected, unavailable, Vetted, document_ref, check_scan,
  vet_kind, vet_file, charge, end_store, end_preview, no_preview, reserve_quota, store_object,
  build_preview, stage_object, stage_new, stage_file, purge_stale_staged, delete_staged_file,
}
use itc_sharing_backend.Uploads.Clearance.{rest, Calm-trans, opens, Calm}

-- The uploads and their files are left as they were.
abbrev pub Quiet : {q : Quota} → Shelf q → Shelf q → Type 0
Quiet s s' = (s'.uploads ≡ s.uploads) × (s'.files ≡ s.files)

abbrev pub quiet : (q : Quota) → Preorder (Shelf q)
quiet q = record {
  Rel = Quiet;
  same = λ s. (refl, refl);
  chain = λ a b c h h'. (h'.0 ∙ h.0, h'.1 ∙ h.1);
}

abbrev pub calm : (q : Quota) → Preorder (Shelf q)
calm q = record { Rel = Calm; same = rest; chain = Calm-trans }

pub Quiet-Calm : {q : Quota} (s s' : Shelf q) → Quiet s s' → Calm s s'
Quiet-Calm s s' (hu, hf) = (
  λ k e.
      subst (λ us. any (opens k us) s.files ≡ true) hu
        (subst (λ fs. any (opens k s'.uploads) fs ≡ true) hf e),
  λ x. rw hu (omega arith),
)

module _ (p : Site) where
  abbrev pub QuietStep : {A : Type 0} → M (Desk p) A → Type 0
  QuietStep m = Keeps (quiet p.quota) m

  abbrev pub CalmStep : {A : Type 0} → M (Desk p) A → Type 0
  CalmStep m = Keeps (calm p.quota) m

  pub QuietStep-Calm : {A : Type 0} (m : M (Desk p) A) → QuietStep m → CalmStep m
  QuietStep-Calm m h = Keeps-imp (quiet p.quota) (calm p.quota) m Quiet-Calm h

  charge-Quiet : (out : Bool × p.quota.State) → QuietStep (charge p out)
  charge-Quiet (true, b) = record { at = λ s. (refl, refl) }
  charge-Quiet (false, b) = record { at = λ s. (refl, refl) }

  pub reserve_quota-Quiet : (u n : ℕ) → QuietStep (reserve_quota p u n)
  unfolding reserve_quota
  reserve_quota-Quiet u n = record { at = λ s. (charge-Quiet (p.quota.consume u n s.budget)).at s }

  check_scan-Quiet : (c : Scan) → QuietStep (check_scan p c)
  check_scan-Quiet clean = Keeps-pure _ tt
  check_scan-Quiet infected = Keeps-throw _ _
  check_scan-Quiet unavailable = Keeps-throw _ _

  vet_kind-Quiet : (f : Incoming) (v : Validation) → QuietStep (vet_kind p f v)
  vet_kind-Quiet f throws = Keeps-throw _ _
  vet_kind-Quiet f (refused r) = Keeps-throw _ _
  vet_kind-Quiet f (accepted sig) = Keeps-seq _ _ _ (check_scan-Quiet f.scan) (Keeps-pure _ _)

  pub vet_file-Quiet : (f : Incoming) → QuietStep (vet_file p f)
  unfolding vet_file
  vet_file-Quiet f = vet_kind-Quiet f _

  end_store-Quiet :
      (u : ℕ) (f : Incoming) (out : Option String × Objects) → QuietStep (end_store p u f out)
  end_store-Quiet u f (none, os) = record { at = λ s. (refl, refl) }
  end_store-Quiet u f (some url, os) = record { at = λ s. (refl, refl) }

  end_preview-Quiet :
      (key : String) (out : Option String × Objects) → QuietStep (end_preview p key out)
  end_preview-Quiet key (none, os) = record { at = λ s. (refl, refl) }
  end_preview-Quiet key (some url, os) = record { at = λ s. (refl, refl) }

  pub store_object-Quiet :
      (u : ℕ) (f : Incoming) (key : String) → QuietStep (store_object p u f key)
  unfolding store_object
  store_object-Quiet u f key = record { at = λ s. (end_store-Quiet u f _).at s }

  pub build_preview-Quiet : (base : String) (f : Incoming) → QuietStep (build_preview p base f)
  unfolding build_preview
  build_preview-Quiet base f = record { at = λ s. previewed s f.converted }
    where
      previewed :
          (s : Desk p) (t : Bool)
          → Quiet s (
              after (
                if t
                then end_preview p
                    (joined (base ∷ ".preview.pdf" ∷ []))
                    (Refs.upload p.public_base f.preview_stored
                      (document_ref (joined (base ∷ ".preview.pdf" ∷ [])))
                      s.objects)
                    s
                else done no_preview s))
      previewed s true = (end_preview-Quiet _ _).at s
      previewed s false = (refl, refl)

  stage_object-Quiet :
      (m : Moment) (u : ℕ) (f : Incoming) (v : Vetted) → QuietStep (stage_object p m u f v)
  unfolding stage_object
  stage_object-Quiet m u f v = Keeps-bind _ _ _ (store_object-Quiet u f _) (λ url.
      Keeps-bind _ _ _ (build_preview-Quiet _ f) (λ preview.
        Keeps-seq _ _ _ (Keeps-halt_if _ _ _ _ (λ s. (refl, refl))) (
          Keeps-seq _ _ _ (Keeps-modify _ _ (λ s. (refl, refl)))
            (Keeps-seq _ _ _ (Keeps-halt_if _ _ _ _ (λ s. (refl, refl))) (Keeps-pure _ _)))))

  pub stage_file-Quiet : (m : Moment) (u : ℕ) (f : Incoming) → QuietStep (stage_file p m u f)
  unfolding stage_file stage_new purge_stale_staged
  stage_file-Quiet m u f =
      Keeps-seq _ _ _
        (Keeps-get _ _ (λ s.
          Keeps-seq _ _ _ (Keeps-modify _ _ (λ s. (refl, refl)))
            (Keeps-modify _ _ (λ s. (refl, refl)))))
        (Keeps-seq _ _ _ (reserve_quota-Quiet u _)
          (Keeps-bind _ _ _ (vet_file-Quiet f) (λ v. stage_object-Quiet m u f v)))

  pub delete_staged_file-Quiet : (m : Moment) (id u : ℕ) → QuietStep (delete_staged_file p m id u)
  unfolding delete_staged_file
  delete_staged_file-Quiet m id u = Keeps-get _ _ (λ s.
      Keeps-bind _ _ _ (Keeps-expect _ _ _) (λ staged. Keeps-seq _ _ _ (Keeps-guard _ _ _) (
        Keeps-seq _ _ _ (Keeps-modify _ _ (λ s. (refl, refl)))
          (Keeps-modify _ _ (λ s. (refl, refl))))))
