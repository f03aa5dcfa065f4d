-- ===== src/Uploads/Names.antt =====
-- File names and storage keys in DocumentsService: buildKey, the extension and the base of a name,
-- and resolveTitle.
use Prim.Native.Char.{code}
use itc_sharing_backend.Base.{
  ℕ, zero, suc, Bool, true, false, String, Option, none, some, [], ◌∷◌, ◌==◌, if◌then◌else◌,
  is_empty, joined, trim,
}
use itc_sharing_backend.Storage.Refs.{is_alphanumeric, put_before}

-- The parts before and after the last dot.
abbrev split_here : String → Bool → Option (String × String) → Option (String × String)
split_here s dot (some parts) = some parts
split_here s true none = some ("", s)
split_here s false none = none

unfoldable pub split_last_dot : String → Option (String × String)
split_last_dot String.[] = none
split_last_dot (String.◌∷◌ c s) =
    split_here s (code c == b'.') (put_before (String.◌∷◌ c) (split_last_dot s))

-- `originalName.includes('.') ? originalName.split('.').pop() : null`
unfoldable pub extension_of : String → Option String
unfolding split_last_dot
extension_of name = elim (split_last_dot name) [ none ↦ none | some parts ↦ some parts.1 ]

-- `key.replace(/\.[^.]*$/, '')`
unfoldable pub base_key : String → String
unfolding split_last_dot
base_key key = elim (split_last_dot key) [ none ↦ key | some parts ↦ parts.0 ]

-- `replace(/[^a-z0-9]/g, '')`
unfoldable pub keep_alphanumeric : String → String
keep_alphanumeric String.[] = ""
keep_alphanumeric (String.◌∷◌ c s) =
    let rest = keep_alphanumeric s in if is_alphanumeric (code c) then String.◌∷◌ c rest else rest

-- `slice(0, n)`, on a text of one code unit for each character
unfoldable pub take_text : ℕ → String → String
take_text zero s = ""
take_text (suc n) String.[] = ""
take_text (suc n) (String.◌∷◌ c s) = String.◌∷◌ c (take_text n s)

abbrev pub or_empty : Option String → String
or_empty none = ""
or_empty (some s) = s

module _ (lower : String → String) where
  unfoldable pub safe_ext : Option String → String
  unfolding keep_alphanumeric take_text
  safe_ext ext = take_text 8 (keep_alphanumeric (lower (or_empty ext)))

  -- The last argument is the drawn UUID.
  unfoldable pub build_key : String → Option String → String → String
  unfolding safe_ext
  build_key prefix ext uuid =
      if is_empty (safe_ext ext)
      then joined (prefix ∷ "/" ∷ uuid ∷ [])
      else joined (prefix ∷ "/" ∷ uuid ∷ "." ∷ safe_ext ext ∷ [])

-- `originalName.replace(/\.[^.]+$/, '')`
abbrev strip_part : String → Option (String × String) → String
strip_part name none = name
strip_part name (some (before, after)) = if is_empty after then name else before

unfoldable pub resolve_title : Option String → String → String
unfolding split_last_dot
resolve_title title name =
    if is_empty (trim (or_empty title))
    then strip_part name (split_last_dot name)
    else trim (or_empty title)
