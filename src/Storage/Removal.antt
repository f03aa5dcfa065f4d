-- ===== src/Storage/Removal.antt =====
-- Proofs on StorageService.remove, and on upload followed by remove.
use text.Mathlib.TextEquality.{eq_iff}
use text.Mathlib.TextPositions.{eq_refl}
use itc_sharing_backend.Base.{
  ◌≡◌, refl, sym, ap, ◌∙◌, Bool, true, false, not, ◌&&◌, ◌||◌, String, Option, none, some, List, [],
  ◌∷◌, ◌++◌, arith, any, keep, if◌then◌else◌, same_text, is_empty, Bool-cases, inl, inr,
}
use itc_sharing_backend.Storage.RoundTrip.{parse_ref_iff, extract_key-public_url}
use itc_sharing_backend.Storage.Refs.{
  StorageRef, Objects, Batch, same_object, in_batch, add_key, add_parsed, by_bucket, delete_batches,
  remove, parse_ref, is_bucket_name, is_safe_key_segment, ref_of, public_url, extract_key, upload,
}

module _ {A : Type 0} where
  keep-keep : (p q : A → Bool) (xs : List A) → keep p (keep q xs) ≡ keep (λ x. q x && p x) xs
  keep-keep p q [] = refl
  keep-keep p q (x ∷ xs) = ground (arith, keep-keep p q xs)

  keep-true : (xs : List A) → keep (λ _. true) xs ≡ xs
  keep-true [] = refl
  keep-true (x ∷ xs) = ap (λ ys. x ∷ ys) (keep-true xs)

  keep_same : (p q : A → Bool) (xs : List A) → ((x : A) → p x ≡ q x) → keep p xs ≡ keep q xs
  keep_same p q [] h = refl
  keep_same p q (x ∷ xs) h = ground (arith, h x, keep_same p q xs h)

  any-append : (p : A → Bool) (xs ys : List A) → any p (xs ++ ys) ≡ (any p xs || any p ys)
  any-append p [] ys = refl
  any-append p (x ∷ xs) ys = ground (arith, any-append p xs ys)

same_text_comm : (s t : String) → same_text s t ≡ same_text t s
same_text_comm s t = ground (arith, eq_iff s t, eq_iff t s)

same_text_congr : (a b c : String) → same_text a b ≡ true → same_text a c ≡ same_text b c
same_text_congr a b c h = let e : a ≡ b = (eq_iff a b).0 h in rw e refl

abbrev pub named_by : StorageRef → Option StorageRef → Bool
named_by o none = false
named_by o (some r) = same_object o r

-- The object is one that a reference names.
abbrev pub names : StorageRef → Option String → Bool
names o ref = named_by o (parse_ref ref)

hit : StorageRef → List Batch → Bool
hit o bs = any (λ b. in_batch b o) bs

spread :
    (s old new rest : Bool)
    → ((s && (old || (new || false))) || rest) ≡ ((s && new) || ((s && old) || rest))
spread s old new rest = ground arith

regroup : (a b c : Bool) → (b || (a || c)) ≡ ((a || b) || c)
regroup a b c = ground arith

swap : (a b c : Bool) → (b || (a || c)) ≡ (a || (b || c))
swap a b c = ground arith

hit-add_key :
    (o r : StorageRef) (bs : List Batch) → hit o (add_key r bs) ≡ (same_object o r || hit o bs)
unfolding hit add_key
hit-add_key o r [] = ground (arith, same_text_comm o.bucket r.bucket, same_text_comm o.key r.key)
hit-add_key o r (b ∷ bs) = elim (Bool-cases (same_text b.bucket r.bucket)) [
  | inl e ↦
      rw
        (
          e,
          any-append (same_text o.key) b.keys (r.key ∷ []),
          same_text_congr b.bucket r.bucket o.bucket e,
          same_text_comm r.bucket o.bucket,
        )
        (spread (same_text o.bucket r.bucket) (any (same_text o.key) b.keys) (same_text o.key r.key)
          (hit o bs))
  | inr e ↦ rw (e, hit-add_key o r bs) (swap (same_object o r) (in_batch b o) (hit o bs))
]

hit-add_parsed :
    (o : StorageRef) (parsed : Option StorageRef) (bs : List Batch)
    → hit o (add_parsed parsed bs) ≡ (named_by o parsed || hit o bs)
hit-add_parsed o none bs = refl
hit-add_parsed o (some r) bs = hit-add_key o r bs

hit-by_bucket :
    (o : StorageRef) (refs : List (Option String)) (bs : List Batch)
    → hit o (by_bucket refs bs) ≡ (any (names o) refs || hit o bs)
unfolding by_bucket
hit-by_bucket o [] bs = refl
hit-by_bucket o (ref ∷ refs) bs =
    hit-by_bucket o refs _
    ∙ ap (λ b. any (names o) refs || b) (hit-add_parsed o (parse_ref ref) bs)
    ∙ regroup (named_by o (parse_ref ref)) (any (names o) refs) (hit o bs)

hidden : (b : Bool) → not (b && false) ≡ true
hidden b = ground arith

or_false : (b : Bool) → (b || false) ≡ b
or_false b = ground arith

-- One more batch, whose bucket answers or not.
batch-test :
    (reachable : String → Bool) (b : Batch) (rest : Bool) (o : StorageRef)
    → not (reachable o.bucket && (in_batch b o || rest))
      ≡ (not (reachable b.bucket && in_batch b o) && not (reachable o.bucket && rest))
batch-test reachable b rest o = elim (Bool-cases (same_text b.bucket o.bucket)) [
  | inl e ↦
      let same : b.bucket ≡ o.bucket = (eq_iff b.bucket o.bucket).0 e in rw same (ground arith)
  | inr e ↦ ground arith
]

delete_batches-keep :
    (reachable : String → Bool) (bs : List Batch) (objects : Objects)
    → delete_batches reachable bs objects ≡ keep (λ o. not (reachable o.bucket && hit o bs)) objects
unfolding delete_batches hit
delete_batches-keep reachable [] objects =
    sym (keep_same _ (λ _. true) objects (λ o. hidden (reachable o.bucket)) ∙ keep-true objects)
delete_batches-keep reachable (b ∷ bs) objects =
    delete_batches-keep reachable bs _
    ∙ one_more (reachable b.bucket) objects
    ∙ keep_same _ _ objects (λ o. sym (batch-test reachable b (hit o bs) o))
  where
    one_more :
        (t : Bool) (objects : Objects)
        → keep
            (λ o. not (reachable o.bucket && hit o bs))
            (if t then keep (λ o. not (in_batch b o)) objects else objects)
          ≡ keep (λ o. not (t && in_batch b o) && not (reachable o.bucket && hit o bs)) objects
    one_more true objects =
        keep-keep (λ o. not (reachable o.bucket && hit o bs)) (λ o. not (in_batch b o)) objects
    one_more false objects = refl

-- What is left is what no reference names, or what lies in a bucket that does not answer.
pub remove-keep :
    (reachable : String → Bool) (refs : List (Option String)) (objects : Objects)
    → remove reachable refs objects
      ≡ keep (λ o. not (reachable o.bucket && any (names o) refs)) objects
unfolding remove hit
remove-keep reachable refs objects =
    delete_batches-keep reachable (by_bucket refs []) objects
    ∙ keep_same _ (λ o. not (reachable o.bucket && any (names o) refs)) objects
        (λ o.
          ap (λ b. not (reachable o.bucket && b))
            (hit-by_bucket o refs [] ∙ or_false (any (names o) refs)))

same_object_self : (r : StorageRef) → same_object r r ≡ true
same_object_self r = rw (eq_refl r.bucket, eq_refl r.key) refl

module _ (public_base : String) (r : StorageRef) (objects : Objects) where
  abbrev others : Objects
  others = keep (λ o. not (same_object o r)) objects

  -- What is stored anew is taken out again.
  put-keep :
      (p : StorageRef → Bool)
      → ((o : StorageRef) → p o ≡ not (same_object o r))
      → keep p (r ∷ others) ≡ others
  put-keep p h =
      rw (h r, same_object_self r)
        (keep_same p (λ o. not (same_object o r)) others h
          ∙ keep-keep (λ o. not (same_object o r)) (λ o. not (same_object o r)) objects
          ∙ keep_same _ (λ o. not (same_object o r)) objects (λ o. twice (same_object o r)))
    where
      twice : (b : Bool) → (not b && not b) ≡ not b
      twice b = ground arith

  uploaded :
      (url : String)
      → (upload public_base true r objects).0 ≡ some url
      → (is_safe_key_segment r.key ≡ true)
        × (url ≡ public_url public_base r)
        × ((upload public_base true r objects).1 ≡ r ∷ others)
  unfolding upload
  uploaded url done = ground arith

  full : is_safe_key_segment r.key ≡ true → is_empty r.key ≡ false
  unfolding is_safe_key_segment
  full h = ground arith

  only :
      (reachable : String → Bool) (o : StorageRef)
      → reachable r.bucket ≡ true
      → parse_ref (some (ref_of r)) ≡ some r
      → not (reachable o.bucket && any (names o) (some (ref_of r) ∷ [])) ≡ not (same_object o r)
  only reachable o up parsed = rw parsed (at (same_text o.bucket r.bucket) refl)
    where
      at :
          (t : Bool)
          → same_text o.bucket r.bucket ≡ t
          → not (
              reachable o.bucket
              && ((same_text o.bucket r.bucket && same_text o.key r.key) || false))
            ≡ not (same_text o.bucket r.bucket && same_text o.key r.key)
      at true e =
          let same : o.bucket ≡ r.bucket = (eq_iff o.bucket r.bucket).0 e in
          ground (arith, ap reachable same)
      at false e = ground arith

  -- An upload that succeeds, under a safe key in a bucket that answers and has the name of one,
  -- followed by the removal of the reference that its URL leads back to, leaves the store as it was
  -- but for an object of the same name, which the upload replaced.
  pub upload-remove :
      (reachable : String → Bool) (url : String)
      → is_bucket_name r.bucket ≡ true
      → is_safe_key_segment (ref_of r) ≡ true
      → reachable r.bucket ≡ true
      → (upload public_base true r objects).0 ≡ some url
      → remove reachable
          (extract_key public_base (some url) ∷ [])
          (upload public_base true r objects).1
        ≡ keep (λ o. not (same_object o r)) objects
  upload-remove reachable url name safe up done =
      let (key_safe, at, held) = uploaded url done in
      let parsed : parse_ref (some (ref_of r)) ≡ some r =
        (parse_ref_iff (ref_of r) r).1 (refl, name, full key_safe, safe) in
      rw (at, held, extract_key-public_url public_base r)
        (remove-keep reachable (some (ref_of r) ∷ []) (r ∷ others)
          ∙ put-keep _ (λ o. only reachable o up parsed))
