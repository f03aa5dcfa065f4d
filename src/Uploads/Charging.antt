-- ===== src/Uploads/Charging.antt =====
-- Proofs on what DocumentsService.stageFile charges to the upload budget.
use itc_sharing_backend.Base.{
  ℕ, ◌+◌, ◌-◌, ◌≡◌, refl, ◌∙◌, Bool, true, false, not, ◌&&◌, ◌||◌, String, ◌==◌, arith, length,
  if◌then◌else◌, Failure, Outcome, done, fail, after, bind_split, seq_split, bind_halt, bind_modify,
  joined, ap, pure, throw, Ends, stopped, finished, [], ◌∷◌, ◌>>◌,
}
use itc_sharing_backend.Documents.Signature.{
  Validation, accepted, refused, throws, validate_file_content,
}
use itc_sharing_backend.Uploads.Types.{Moment}
use itc_sharing_backend.Uploads.Names.{extension_of, base_key, build_key}
use itc_sharing_backend.Uploads.Staging.{
  vetted, Scan, clean, infected, unavailable, Incoming, Vetted, Preview, Site, Desk, vet_file,
  vet_kind, check_scan, reserve_quota, store_object, build_preview, stage_object, stage_new,
}

abbrev is_done : {S A : Type 0} → Outcome S A → Bool
is_done (done a s) = true
is_done (fail e s) = false

abbrev pub is_accepted : Validation → Bool
is_accepted (accepted sig) = true
is_accepted (refused r) = false
is_accepted throws = false

abbrev pub is_clean : Scan → Bool
is_clean clean = true
is_clean infected = false
is_clean unavailable = false

module _ (p : Site) (m : Moment) (u : ℕ) (f : Incoming) where
  abbrev used : ℕ → Desk p → ℕ
  used v s = p.quota.used s.budget v

  abbrev share : Bool → ℕ → ℕ
  share t v = if t && v == u then length f.buffer else 0

  -- A staging that ends well from here on charges nothing more, and one that fails gives back.
  abbrev Settles : Desk p → ℕ → Outcome (Desk p) ℕ → Type 0
  Settles s v o = used v (after o) ≡ (if is_done o then used v s else used v s - share true v)

  refunded :
      (s : Desk p) (b : p.quota.State) (v : ℕ)
      → b ≡ p.quota.refund u (length f.buffer) s.budget
      → p.quota.used b v ≡ used v s - share true v
  refunded s b v h = rw h (p.quota.refund_used u (length f.buffer) s.budget v)

  store_object-fail :
      (key : String) (s s' : Desk p) (e : Failure)
      → store_object p u f key s ≡ fail e s'
      → s'.budget ≡ p.quota.refund u (length f.buffer) s.budget
  unfolding store_object
  store_object-fail key s s' e h = ground arith

  store_object-done :
      (key url : String) (s s' : Desk p)
      → store_object p u f key s ≡ done url s'
      → s'.budget ≡ s.budget
  unfolding store_object
  store_object-done key url s s' h = ground arith

  build_preview-done :
      (base : String) (r : Preview) (s s' : Desk p)
      → build_preview p base f s ≡ done r s'
      → s'.budget ≡ s.budget
  unfolding build_preview
  build_preview-done base r s s' h = ground arith

  build_preview-fail :
      (base : String) (s s' : Desk p) (e : Failure) → build_preview p base f s ≡ fail e s' → ⊥
  unfolding build_preview
  build_preview-fail base s s' e h = ground arith

  abbrev key_of : String
  key_of =
      build_key p.lower (joined ("staged/" ∷ p.text_of u ∷ [])) (extension_of f.original_name)
        f.uuid

  stage_object-Settles : (w : Vetted) (s : Desk p) (v : ℕ) → Settles s v (stage_object p m u f w s)
  unfolding stage_object pure
  stage_object-Settles w s v =
      bind_split (Settles s v) (store_object p u f key_of) _ s
        (λ e s1 h. refunded s s1.budget v (store_object-fail key_of s s1 e h))
        (λ url s1 h1.
          bind_split (Settles s v) (build_preview p (base_key key_of) f) _ s1
            (λ e s2 h. absurd (build_preview-fail (base_key key_of) s1 s2 e h))
            (λ preview s2 h2.
              let same : s2.budget ≡ s.budget =
                build_preview-done (base_key key_of) preview s1 s2 h2
                ∙ store_object-done key_of url s s1 h1 in
              bind_halt (Settles s v) (not f.saved) _ _ _ s2
                (λ _. refunded s _ v (ap (p.quota.refund u (length f.buffer)) same))
                (λ _. bind_modify (Settles s v) _ _ s2 (
                  bind_halt (Settles s v) (not f.signed) _ _ _ _
                    (λ _. refunded s _ v (ap (p.quota.refund u (length f.buffer)) same))
                    (λ _. ap (λ b. p.quota.used b v) same)))))

  -- The budget admits the bytes.
  abbrev pub admits : Desk p → Bool
  admits s = (p.quota.consume u (length f.buffer) s.budget).0

  -- The file is of an accepted kind, and the scanner finds it clean.
  abbrev pub passes : Bool
  passes = is_accepted (validate_file_content p.lower f.original_name f.buffer) && is_clean f.scan

  -- The bytes stay charged: the staging ends well, or the budget admitted a file that vetting refuses.
  abbrev pub stays_charged : Desk p → Bool
  stays_charged s = is_done (stage_new p m u f s) || (admits s && not passes)

  reserve_quota-fail :
      (s s' : Desk p) (e : Failure)
      → reserve_quota p u (length f.buffer) s ≡ fail e s'
      → (admits s ≡ false) × (s'.budget ≡ (p.quota.consume u (length f.buffer) s.budget).1)
  unfolding reserve_quota
  reserve_quota-fail s s' e h = ground arith

  reserve_quota-done :
      (s s' : Desk p)
      → reserve_quota p u (length f.buffer) s ≡ done tt s'
      → (admits s ≡ true) × (s'.budget ≡ (p.quota.consume u (length f.buffer) s.budget).1)
  unfolding reserve_quota
  reserve_quota-done s s' h = ground arith

  -- Vetting touches no table.
  abbrev Vets : Bool → Desk p → Outcome (Desk p) Vetted → Type 0
  Vets t s o = Ends s (λ x s'. s' ≡ s) o × (is_done o ≡ t)

  check_scan-Vets :
      (c : Scan) (w : Vetted) (s : Desk p) → Vets (is_clean c) s ((check_scan p c >> pure w) s)
  unfolding pure throw ◌>>◌
  check_scan-Vets clean w s = (finished w s refl refl, refl)
  check_scan-Vets infected w s = (stopped _ refl, refl)
  check_scan-Vets unavailable w s = (stopped _ refl, refl)

  vet_kind-Vets :
      (v : Validation) (s : Desk p) → Vets (is_accepted v && is_clean f.scan) s (vet_kind p f v s)
  unfolding throw
  vet_kind-Vets throws s = (stopped _ refl, refl)
  vet_kind-Vets (refused r) s = (stopped _ refl, refl)
  vet_kind-Vets (accepted sig) s = check_scan-Vets f.scan (vetted p f sig) s

  vet_file-Vets : (s : Desk p) → Vets passes s (vet_file p f s)
  unfolding vet_file
  vet_file-Vets s = vet_kind-Vets (validate_file_content p.lower f.original_name f.buffer) s

  vet_file-fail :
      (s s' : Desk p) (e : Failure) → vet_file p f s ≡ fail e s' → (s' ≡ s) × (passes ≡ false)
  vet_file-fail s s' e h = from (vet_file-Vets s)
    where
      from : Vets passes s (vet_file p f s) → (s' ≡ s) × (passes ≡ false)
      from (stopped e' k, d) = (cc, cc)
      from (finished w s1 k q, d) = absurd (cc)

  vet_file-done :
      (s s' : Desk p) (w : Vetted) → vet_file p f s ≡ done w s' → (s' ≡ s) × (passes ≡ true)
  vet_file-done s s' w h = from (vet_file-Vets s)
    where
      from : Vets passes s (vet_file p f s) → (s' ≡ s) × (passes ≡ true)
      from (stopped e' k, d) = absurd (cc)
      from (finished w s1 k q, d) = (cc, cc)

  charged :
      (s s1 : Desk p) (v : ℕ)
      → (admits s ≡ true) × (s1.budget ≡ (p.quota.consume u (length f.buffer) s.budget).1)
      → used v s1 ≡ used v s + share true v
  charged s s1 v (fits, b) = rw b (p.quota.accepted_used u (length f.buffer) s.budget v fits)

  uncharged :
      (s s1 : Desk p) (v : ℕ)
      → (admits s ≡ false) × (s1.budget ≡ (p.quota.consume u (length f.buffer) s.budget).1)
      → used v s1 ≡ used v s
  uncharged s s1 v (over, b) = rw b (p.quota.refused_used u (length f.buffer) s.budget v over)

  abbrev Charges : Desk p → ℕ → Outcome (Desk p) ℕ → Type 0
  Charges s v o =
      used v (after o)
      ≡ used v s
        + (if v == u && (is_done o || (admits s && not passes)) then length f.buffer else 0)

  -- A staging charges its caller with the bytes that it received, where it ends well or where the
  -- budget admits them and vetting refuses the file; where it fails otherwise, and to every other
  -- user, it charges nothing.
  pub stage_new-used :
      (s : Desk p) (v : ℕ)
      → p.quota.used (after (stage_new p m u f s)).budget v
        ≡ p.quota.used s.budget v + (if v == u && stays_charged s then length f.buffer else 0)
  unfolding stage_new
  stage_new-used s v =
      seq_split (Charges s v) (reserve_quota p u (length f.buffer)) _ s
        (λ e s1 h. let r = reserve_quota-fail s s1 e h in ground (arith, uncharged s s1 v r, r.0))
        (λ s1 h.
          bind_split (Charges s v) (vet_file p f) _ s1
            (λ e s2 k.
              let r = reserve_quota-done s s1 h in
              let (same, t) = vet_file-fail s1 s2 e k in
              ground (arith, charged s s1 v r, r.0, t, ap (used v) same))
            (λ w s2 k.
              let r = reserve_quota-done s s1 h in
              let (same, t) = vet_file-done s1 s2 w k in
              ground
                (arith, charged s s1 v r, r.0, t, ap (used v) same, stage_object-Settles w s2 v)))
