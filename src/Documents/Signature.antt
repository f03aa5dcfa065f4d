-- ===== src/Documents/Signature.antt =====
-- documents/utils/file-signature: detectKind and validateFileContent. `lower` is the language's
-- toLowerCase. The extension is looked up in an object literal, so two lower-case names find what
-- every object inherits, on which `includes` is not a function.
use Prim.Native.Char.{code}
use itc_sharing_backend.Base.{
  ℕ, Bool, true, false, ◌&&◌, ◌||◌, String, Option, none, some, List, [], ◌∷◌, ◌==◌, ltb, any,
  length, if◌then◌else◌, same_text,
}

pub data DetectedKind : Type 0 where
  pdf jpeg png zip ole rar : DetectedKind

unfoldable pub same_kind : DetectedKind → DetectedKind → Bool
same_kind pdf pdf = true
same_kind jpeg jpeg = true
same_kind png png = true
same_kind zip zip = true
same_kind ole ole = true
same_kind rar rar = true
same_kind a b = false

pub record Signature : Type 0 where
  pub kind : DetectedKind
  pub mime : String
  pub bytes : List ℕ

abbrev pub signature : DetectedKind → String → List ℕ → Signature
signature k m bs = record { kind = k; mime = m; bytes = bs }

abbrev pub signatures : List Signature
signatures =
    signature pdf "application/pdf" (0x25 ∷ 0x50 ∷ 0x44 ∷ 0x46 ∷ 0x2d ∷ [])
    ∷ signature jpeg "image/jpeg" (0xff ∷ 0xd8 ∷ 0xff ∷ [])
    ∷ signature png "image/png" (0x89 ∷ 0x50 ∷ 0x4e ∷ 0x47 ∷ 0x0d ∷ 0x0a ∷ 0x1a ∷ 0x0a ∷ [])
    ∷ signature zip "application/zip" (0x50 ∷ 0x4b ∷ 0x03 ∷ 0x04 ∷ [])
    ∷ signature zip "application/zip" (0x50 ∷ 0x4b ∷ 0x05 ∷ 0x06 ∷ [])
    ∷ signature zip "application/zip" (0x50 ∷ 0x4b ∷ 0x07 ∷ 0x08 ∷ [])
    ∷ signature ole "application/msword"
        (0xd0 ∷ 0xcf ∷ 0x11 ∷ 0xe0 ∷ 0xa1 ∷ 0xb1 ∷ 0x1a ∷ 0xe1 ∷ [])
    ∷ signature rar "application/vnd.rar" (0x52 ∷ 0x61 ∷ 0x72 ∷ 0x21 ∷ 0x1a ∷ 0x07 ∷ 0x00 ∷ [])
    ∷ signature rar "application/vnd.rar"
        (0x52 ∷ 0x61 ∷ 0x72 ∷ 0x21 ∷ 0x1a ∷ 0x07 ∷ 0x01 ∷ 0x00 ∷ [])
    ∷ []

-- The loop over the bytes of a signature.
unfoldable pub same_bytes : List ℕ → List ℕ → Bool
same_bytes [] buffer = true
same_bytes (b ∷ bs) [] = false
same_bytes (b ∷ bs) (c ∷ buffer) = c == b && same_bytes bs buffer

unfoldable pub first_match : List ℕ → List Signature → Option Signature
unfolding same_bytes
first_match buffer [] = none
first_match buffer (sig ∷ sigs) =
    let rest = first_match buffer sigs in
    if ltb (length buffer) (length sig.bytes)
    then rest
    else if same_bytes sig.bytes buffer
    then some sig
    else rest

unfoldable pub detect_kind : List ℕ → Option Signature
detect_kind buffer =
    let found = first_match buffer signatures in if ltb (length buffer) 4 then none else found

-- What the table holds under a name.
pub data Allowed : Type 0 where
  missing inherited : Allowed
  kinds : List DetectedKind → Allowed

unfoldable pub allowed_by_extension : String → Allowed
allowed_by_extension ext =
    if same_text ext "pdf"
    then kinds (pdf ∷ [])
    else if same_text ext "jpg"
    then kinds (jpeg ∷ [])
    else if same_text ext "jpeg"
    then kinds (jpeg ∷ [])
    else if same_text ext "png"
    then kinds (png ∷ [])
    else if same_text ext "doc"
    then kinds (ole ∷ zip ∷ [])
    else if same_text ext "docx"
    then kinds (zip ∷ [])
    else if same_text ext "ppt"
    then kinds (ole ∷ zip ∷ [])
    else if same_text ext "pptx"
    then kinds (zip ∷ [])
    else if same_text ext "zip"
    then kinds (zip ∷ [])
    else if same_text ext "rar"
    then kinds (rar ∷ [])
    else if same_text ext "constructor" || same_text ext "__proto__"
    then inherited
    else missing

pub data Reason : Type 0 where
  empty unknown_extension undetectable mismatch : Reason

-- The outcome, where `throws` is the TypeError of a call of `includes` that is not there.
pub data Validation : Type 0 where
  accepted : Signature → Validation
  refused : Reason → Validation
  throws : Validation

-- `split('.').pop()`
unfoldable pub last_part : String → String → String
last_part part String.[] = part
last_part part (String.◌∷◌ c s) = last_part (if code c == b'.' then s else part) s

unfoldable pub check_kind : Allowed → Option Signature → Validation
unfolding same_kind
check_kind missing found = refused unknown_extension
check_kind inherited none = refused undetectable
check_kind inherited (some sig) = throws
check_kind (kinds ks) none = refused undetectable
check_kind (kinds ks) (some sig) =
    if any (λ k. same_kind k sig.kind) ks then accepted sig else refused mismatch

module _ (lower : String → String) where
  unfoldable pub extension : String → String
  unfolding last_part
  extension name = lower (last_part name name)

  unfoldable pub validate_file_content : String → List ℕ → Validation
  validate_file_content name [] = refused empty
  validate_file_content name (b ∷ buffer) =
      check_kind (allowed_by_extension (extension name)) (detect_kind (b ∷ buffer))

-- True for the two formats that the image pipeline handles.
unfoldable pub is_processable_image : DetectedKind → Bool
is_processable_image jpeg = true
is_processable_image png = true
is_processable_image k = false
