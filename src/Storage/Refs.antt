-- ===== src/Storage/Refs.antt =====
-- storage-ref.util (parseRef, isSafeKeySegment) and StorageService (publicUrl, extractKey, upload,
-- remove). The object store is the list of the objects that it holds; whether a request to it succeeds
-- is an argument.
use Prim.Native.Char.{code}
use Prim.Native.String
use itc_sharing_backend.Base.{
  ℕ, Bool, true, false, not, ◌&&◌, ◌||◌, String, Option, none, some, List, [], ◌∷◌, ◌++◌, ◌==◌, leb,
  any, if◌then◌else◌, is_empty, same_text, keep,
}

pub record StorageRef : Type 0 where
  pub bucket : String
  pub key : String

-- What follows a prefix of the text.
unfoldable pub after_prefix : String → String → Option String
after_prefix String.[] s = some s
after_prefix (String.◌∷◌ c p) String.[] = none
after_prefix (String.◌∷◌ c p) (String.◌∷◌ d s) =
    let rest = after_prefix p s in if code c == code d then rest else none

abbrev pub is_some {ℓ} : {A : Type ℓ} → Option A → Bool
is_some none = false
is_some (some a) = true

-- `includes`
unfoldable pub includes : String → String → Bool
unfolding after_prefix
includes sub String.[] = is_empty sub
includes sub (String.◌∷◌ c s) = is_some (after_prefix sub (String.◌∷◌ c s)) || includes sub s

abbrev pub is_control : ℕ → Bool
is_control c = leb c 31 || c == 127

unfoldable pub has_control : String → Bool
has_control String.[] = false
has_control (String.◌∷◌ c s) = is_control (code c) || has_control s

unfoldable pub is_safe_key_segment : String → Bool
unfolding includes after_prefix has_control
is_safe_key_segment value =
    if is_empty value
    then false
    else if includes ".." value
    then false
    else if is_some (after_prefix "/" value)
    then false
    else if includes "\\" value
    then false
    else if includes "//" value
    then false
    else not (has_control value)

abbrev pub is_alphanumeric : ℕ → Bool
is_alphanumeric c = (leb b'a' c && leb c b'z') || (leb b'0' c && leb c b'9')

-- `[a-z0-9.-]*`
unfoldable pub are_label : String → Bool
are_label String.[] = true
are_label (String.◌∷◌ c s) =
    (is_alphanumeric (code c) || code c == b'.' || code c == b'-') && are_label s

-- `/^[a-z0-9][a-z0-9.-]*$/`
unfoldable pub is_bucket_name : String → Bool
unfolding are_label
is_bucket_name String.[] = false
is_bucket_name (String.◌∷◌ c s) = is_alphanumeric (code c) && are_label s

abbrev pub put_before {ℓ} :
    {A : Type ℓ} → (String → String) → Option (String × A) → Option (String × A)
put_before f none = none
put_before f (some (b, a)) = some (f b, a)

-- The parts before and after the first slash.
unfoldable pub split_slash : String → Option (String × String)
split_slash String.[] = none
split_slash (String.◌∷◌ c s) =
    let rest = put_before (String.◌∷◌ c) (split_slash s) in
    if code c == b'/' then some ("", s) else rest

unfoldable pub check_parts : Option (String × String) → Option StorageRef
check_parts none = none
check_parts (some (bucket, key)) =
    if is_empty bucket || is_empty key
    then none
    else if is_bucket_name bucket
    then some (record { bucket = bucket; key = key })
    else none

unfoldable pub parse_ref : Option String → Option StorageRef
parse_ref none = none
parse_ref (some ref) =
    if is_empty ref
    then none
    else if is_safe_key_segment ref
    then check_parts (split_slash ref)
    else none

-- "<bucket>/<key>"
unfoldable pub ref_of : StorageRef → String
ref_of r = String.◌++◌ r.bucket (String.◌∷◌ "/" r.key)

module _ (public_base : String) where
  unfoldable pub public_url : StorageRef → String
  public_url r = String.◌++◌ public_base (String.◌∷◌ "/" (ref_of r))

  unfoldable pub extract_key : Option String → Option String
  extract_key none = none
  extract_key (some url) =
      if is_empty url then none else after_prefix (String.◌++◌ public_base "/") url

abbrev pub same_object : StorageRef → StorageRef → Bool
same_object a b = same_text a.bucket b.bucket && same_text a.key b.key

abbrev pub Objects : Type 0
Objects = List StorageRef

-- `upload`: it refuses an unsafe key, and otherwise answers with the URL if the store took the object.
module _ (public_base : String) where
  unfoldable pub upload : Bool → StorageRef → Objects → Option String × Objects
  upload reachable r objects =
      if is_safe_key_segment r.key && reachable
      then (some (public_url public_base r), r ∷ keep (λ o. not (same_object o r)) objects)
      else (none, objects)

-- A bucket with the keys to delete from it.
pub record Batch : Type 0 where
  pub bucket : String
  pub keys : List String

-- A key goes to the batch of its bucket, which is last where it is new.
unfoldable pub add_key : StorageRef → List Batch → List Batch
add_key r [] = record { bucket = r.bucket; keys = r.key ∷ [] } ∷ []
add_key r (b ∷ bs) =
    let rest = add_key r bs in
    if same_text b.bucket r.bucket
    then record { bucket = b.bucket; keys = b.keys ++ (r.key ∷ []) } ∷ bs
    else b ∷ rest

abbrev pub add_parsed : Option StorageRef → List Batch → List Batch
add_parsed none bs = bs
add_parsed (some r) bs = add_key r bs

unfoldable pub by_bucket : List (Option String) → List Batch → List Batch
unfolding parse_ref add_key
by_bucket [] bs = bs
by_bucket (ref ∷ refs) bs = by_bucket refs (add_parsed (parse_ref ref) bs)

abbrev pub in_batch : Batch → StorageRef → Bool
in_batch b o = same_text b.bucket o.bucket && any (same_text o.key) b.keys

-- The deletions, one request for each bucket, of which any may fail.
unfoldable pub delete_batches : (String → Bool) → List Batch → Objects → Objects
delete_batches reachable [] objects = objects
delete_batches reachable (b ∷ bs) objects =
    delete_batches reachable bs
      (if reachable b.bucket then keep (λ o. not (in_batch b o)) objects else objects)

unfoldable pub remove : (String → Bool) → List (Option String) → Objects → Objects
unfolding by_bucket delete_batches
remove reachable refs objects = delete_batches reachable (by_bucket refs []) objects
