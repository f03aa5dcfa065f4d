-- ===== src/Storage/RoundTrip.antt =====
-- Proofs on parseRef, publicUrl and extractKey.
use Prim.Native.Char.{Char, code}
use Prim.Native.String
use text.Mathlib.TextEquality.{Char-path}
use text.Mathlib.TextLemmas.{nil-append, cons-append}
use itc_sharing_backend.Base.{
  ◌≡◌, refl, ◌↔◌, true, false, String, Option, none, some, arith, ◌==◌, is_empty, Bool-cases, inl,
  inr, ==_iff, subst,
}
use itc_sharing_backend.Storage.Refs.{
  StorageRef, after_prefix, are_label, is_bucket_name, put_before, split_slash, check_parts,
  parse_ref, is_safe_key_segment, ref_of, public_url, extract_key,
}

slash-path : (c : Char) → (code c == b'/') ≡ true → c ≡ "/"
slash-path c h = Char-path c "/" ((==_iff (code c) b'/').0 h)

-- The first slash parts the text.
put_before-some :
    (c : Char) (s b k : String) (o : Option (String × String))
    → ((b' : String) → o ≡ some (b', k) → s ≡ String.◌++◌ b' (String.◌∷◌ "/" k))
    → put_before (String.◌∷◌ c) o ≡ some (b, k)
    → String.◌∷◌ c s ≡ String.◌++◌ b (String.◌∷◌ "/" k)
put_before-some c s b k none ih h = absurd (cc)
put_before-some c s b k (some (b', k')) ih h =
    let same : k' ≡ k = cc in
    let whole : s ≡ String.◌++◌ b' (String.◌∷◌ "/" k) = ih b' (cc same) in
    cc (whole, cons-append c b' (String.◌∷◌ "/" k))

split_slash-append :
    (s b k : String) → split_slash s ≡ some (b, k) → s ≡ String.◌++◌ b (String.◌∷◌ "/" k)
unfolding split_slash
split_slash-append String.[] b k h = absurd (cc)
split_slash-append (String.◌∷◌ c s) b k h = elim (Bool-cases (code c == b'/')) [
  | inl e ↦ cc (rw e at h, slash-path c e, nil-append (String.◌∷◌ "/" k))
  | inr e ↦ put_before-some c s b k (split_slash s) (λ b'. split_slash-append s b' k) (rw e at h)
]

split_slash-label :
    (b k : String)
    → are_label b ≡ true
    → split_slash (String.◌++◌ b (String.◌∷◌ "/" k)) ≡ some (b, k)
unfolding split_slash are_label
split_slash-label String.[] k h = rw nil-append refl
split_slash-label (String.◌∷◌ c b) k h = rw cons-append (ground (arith, split_slash-label b k))

abbrev Parts : String → StorageRef → Type 0
Parts ref r =
    (ref ≡ ref_of r)
    × (is_bucket_name r.bucket ≡ true)
    × (is_empty r.key ≡ false)
    × (is_safe_key_segment ref ≡ true)

check_parts-some :
    (b k : String) (r : StorageRef)
    → check_parts (some (b, k)) ≡ some r
    → (b ≡ r.bucket) × (k ≡ r.key) × (is_bucket_name b ≡ true) × (is_empty k ≡ false)
unfolding check_parts
check_parts-some b k r h = ground arith

checked :
    (ref : String) (r : StorageRef)
    → parse_ref (some ref) ≡ some r
    → (is_safe_key_segment ref ≡ true) × (check_parts (split_slash ref) ≡ some r)
unfolding parse_ref
checked ref r h = ground arith

of_parts :
    (ref : String) (r : StorageRef) (o : Option (String × String))
    → split_slash ref ≡ o
    → check_parts o ≡ some r
    → (ref ≡ ref_of r) × (is_bucket_name r.bucket ≡ true) × (is_empty r.key ≡ false)
unfolding ref_of
of_parts ref r none e h = absurd (unfold check_parts in (cc))
of_parts ref r (some (b, k)) e h =
    let (same, tail, name, full) = check_parts-some b k r h in
    (cc (split_slash-append ref b k e, same, tail), cc, cc)

parse_ref-Parts : (ref : String) (r : StorageRef) → parse_ref (some ref) ≡ some r → Parts ref r
parse_ref-Parts ref r h =
    let (safe, parts) = checked ref r h in
    let (whole, name, full) = of_parts ref r (split_slash ref) refl parts in
    (whole, name, full, safe)

is_bucket_name-label : (b : String) → is_bucket_name b ≡ true → are_label b ≡ true
unfolding is_bucket_name are_label
is_bucket_name-label String.[] h = absurd (cc)
is_bucket_name-label (String.◌∷◌ c b) h = ground arith

-- A bucket name is not empty, alone or before a slash.
named :
    (b rest : String)
    → is_bucket_name b ≡ true
    → (is_empty b ≡ false) × (is_empty (String.◌++◌ b rest) ≡ false)
unfolding is_bucket_name
named String.[] rest h = absurd (cc)
named (String.◌∷◌ c b) rest h = (refl, rw cons-append refl)

check_parts-named :
    (b k : String)
    → is_bucket_name b ≡ true
    → is_empty k ≡ false
    → check_parts (some (b, k)) ≡ some (record { bucket = b; key = k })
unfolding check_parts
check_parts-named b k h e = rw ((named b k h).0, e, h) refl

Parts-parse_ref : (r : StorageRef) → Parts (ref_of r) r → parse_ref (some (ref_of r)) ≡ some r
unfolding parse_ref
Parts-parse_ref r h =
    let filled : is_empty (ref_of r) ≡ false =
      unfold ref_of in (named r.bucket (String.◌∷◌ "/" r.key) h.1).1 in
    let parts : split_slash (ref_of r) ≡ some (r.bucket, r.key) =
      unfold ref_of in split_slash-label r.bucket r.key (is_bucket_name-label r.bucket h.1) in
    rw (filled, h.3, parts) (check_parts-named r.bucket r.key h.1 h.2)

-- A text is read as a bucket and a key exactly when it is their spelling, the bucket is spelled like a
-- bucket, the key is not empty, and the text is safe.
pub parse_ref_iff :
    (ref : String) (r : StorageRef)
    → (parse_ref (some ref) ≡ some r) ↔ (
        (ref ≡ ref_of r)
        × (is_bucket_name r.bucket ≡ true)
        × (is_empty r.key ≡ false)
        × (is_safe_key_segment ref ≡ true))
parse_ref_iff ref r = (
  parse_ref-Parts ref r,
  λ h.
      let e = h.0 in
      rw e (Parts-parse_ref r (refl, h.1, h.2, subst (λ x. is_safe_key_segment x ≡ true) e h.3)),
)

after_prefix-slash :
    (base ref : String)
    → after_prefix (String.◌++◌ base "/") (String.◌++◌ base (String.◌∷◌ "/" ref)) ≡ some ref
unfolding after_prefix
after_prefix-slash String.[] ref = rw (nil-append "/", nil-append) refl
after_prefix-slash (String.◌∷◌ c base) ref =
    rw (cons-append c base "/", cons-append) (ground (arith, after_prefix-slash base ref))

is_empty-slash : (base ref : String) → is_empty (String.◌++◌ base (String.◌∷◌ "/" ref)) ≡ false
is_empty-slash String.[] ref = rw nil-append refl
is_empty-slash (String.◌∷◌ c base) ref = rw cons-append refl

-- The URL of an object leads back to its reference.
pub extract_key-public_url :
    (public_base : String) (r : StorageRef)
    → extract_key public_base (some (public_url public_base r)) ≡ some (ref_of r)
unfolding extract_key public_url
extract_key-public_url public_base r =
    rw (is_empty-slash public_base (ref_of r)) (after_prefix-slash public_base (ref_of r))
