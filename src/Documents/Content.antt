-- ===== src/Documents/Content.antt =====
-- Proofs on detectKind and validateFileContent.
use text.Mathlib.TextEquality.{eq_iff}
use itc_sharing_backend.Storage.Refs.{is_some}
use itc_sharing_backend.Base.{
  same_text, ℕ, ◌≡◌, refl, sym, ap, ◌∙◌, Bool, true, false, ◌&&◌, ◌||◌, String, Option, none, some,
  List, [], ◌∷◌, ltb, leb, any, arith, length, if◌then◌else◌, Bool-cases, inl, inr, All,
}
use itc_sharing_backend.Documents.Signature.{
  DetectedKind, pdf, jpeg, png, zip, ole, rar, same_kind, Signature, signatures, same_bytes,
  first_match, detect_kind, Allowed, missing, inherited, kinds, allowed_by_extension, Validation,
  accepted, refused, throws, mismatch, check_kind, extension, validate_file_content,
}

-- The buffer begins with a signature of the kind.
abbrev pub begins_as : DetectedKind → List ℕ → Bool
begins_as k buffer = any (λ s. same_kind k s.kind && same_bytes s.bytes buffer) signatures

same_bytes-length :
    (bs buffer : List ℕ) → same_bytes bs buffer ≡ true → ltb (length buffer) (length bs) ≡ false
unfolding same_bytes
same_bytes-length [] buffer h = ground arith
same_bytes-length (b ∷ bs) [] h = absurd (cc)
same_bytes-length (b ∷ bs) (c ∷ buffer) h = ground (arith, same_bytes-length bs buffer)

-- The length test of the loop changes nothing.
first_match-first :
    (buffer : List ℕ) (s : Signature) (sigs : List Signature)
    → first_match buffer (s ∷ sigs)
      ≡ (if same_bytes s.bytes buffer then some s else first_match buffer sigs)
unfolding first_match
first_match-first buffer s sigs = ground (arith, same_bytes-length s.bytes buffer)

-- The first byte of every signature of a kind.
abbrev head_of : DetectedKind → ℕ
head_of pdf = 0x25
head_of jpeg = 0xff
head_of png = 0x89
head_of zip = 0x50
head_of ole = 0xd0
head_of rar = 0x52

abbrev Headed : Signature → Type 0
Headed s = (rest : List ℕ) × (s.bytes ≡ head_of s.kind ∷ rest)

signatures-Headed : All Headed signatures
signatures-Headed = (
  (_, refl),
  (
    (_, refl),
    ((_, refl), ((_, refl), ((_, refl), ((_, refl), ((_, refl), ((_, refl), ((_, refl), tt))))))),
  ),
)

same_kind-path : (a b : DetectedKind) → same_kind a b ≡ true → a ≡ b
unfolding same_kind
same_kind-path a b h = ground arith

same_kind_refl : (a : DetectedKind) → same_kind a a ≡ true
unfolding same_kind
same_kind_refl a = ground arith

head_of_inj : (a b : DetectedKind) → head_of a ≡ head_of b → a ≡ b
head_of_inj a b h = ground arith

-- Two signatures that one buffer begins with are of one kind.
one_kind :
    (s t : Signature) (buffer : List ℕ)
    → Headed s
    → Headed t
    → same_bytes s.bytes buffer ≡ true
    → same_bytes t.bytes buffer ≡ true
    → s.kind ≡ t.kind
unfolding same_bytes
one_kind s t [] (rs, es) (rt, et) hs ht = absurd (let bad = rw es at hs in cc)
one_kind s t (b ∷ buffer) (rs, es) (rt, et) hs ht =
    let hs' = rw es at hs in let ht' = rw et at ht in head_of_inj s.kind t.kind (ground arith)

abbrev kind_is : DetectedKind → Option Signature → Bool
kind_is k none = false
kind_is k (some s) = same_kind k s.kind

abbrev begins_among : DetectedKind → List ℕ → List Signature → Bool
begins_among k buffer sigs = any (λ s. same_kind k s.kind && same_bytes s.bytes buffer) sigs

-- Past a signature that fits, no signature of another kind does.
others_unfit :
    (k : DetectedKind) (s : Signature) (buffer : List ℕ) (sigs : List Signature)
    → Headed s
    → same_bytes s.bytes buffer ≡ true
    → same_kind k s.kind ≡ false
    → All Headed sigs
    → begins_among k buffer sigs ≡ false
others_unfit k s buffer [] hs fit ne all = refl
others_unfit k s buffer (t ∷ sigs) hs fit ne (ht, rest) =
    elim (Bool-cases (same_bytes t.bytes buffer)) [
      | inl e ↦
          let same : s.kind ≡ t.kind = one_kind s t buffer hs ht fit e in
          rw (← same, ne) (others_unfit k s buffer sigs hs fit ne rest)
      | inr e ↦ ground (arith, others_unfit k s buffer sigs hs fit ne rest)
    ]

first_match-kind :
    (k : DetectedKind) (buffer : List ℕ) (sigs : List Signature)
    → All Headed sigs
    → kind_is k (first_match buffer sigs) ≡ begins_among k buffer sigs
first_match-kind k buffer [] all = unfold first_match in refl
first_match-kind k buffer (s ∷ sigs) (hs, rest) =
    rw (first_match-first buffer s sigs) (elim (Bool-cases (same_bytes s.bytes buffer)) [
      | inl e ↦ rw e (elim (Bool-cases (same_kind k s.kind)) [
        | inl f ↦ ground arith
        | inr f ↦ ground (arith, others_unfit k s buffer sigs hs e f rest)
      ])
      | inr e ↦ rw e (ground (arith, first_match-kind k buffer sigs rest))
    ])

detect_kind-begins :
    (k : DetectedKind) (buffer : List ℕ)
    → kind_is k (detect_kind buffer) ≡ (leb 4 (length buffer) && begins_as k buffer)
unfolding detect_kind
detect_kind-begins k buffer = elim (Bool-cases (ltb (length buffer) 4)) [
  | inl e ↦ let short : leb 4 (length buffer) ≡ false = ground arith in rw (e, short) refl
  | inr e ↦
      let long : leb 4 (length buffer) ≡ true = ground arith in
      rw (e, long) (first_match-kind k buffer signatures signatures-Headed)
]

-- The kinds that an extension may be.
abbrev pub allows : Allowed → DetectedKind → Bool
allows missing k = false
allows inherited k = false
allows (kinds ks) k = any (λ j. same_kind j k) ks

abbrev pub accepted_as : DetectedKind → Validation → Bool
accepted_as k (accepted s) = same_kind k s.kind
accepted_as k (refused r) = false
accepted_as k throws = false

verdict :
    (t : Bool) (k : DetectedKind) (s : Signature)
    → accepted_as k (if t then accepted s else refused mismatch) ≡ (t && same_kind k s.kind)
verdict true k s = refl
verdict false k s = refl

-- The list is asked for the kind that was detected.
asked_for :
    (k d : DetectedKind) (ks : List DetectedKind)
    → (any (λ j. same_kind j d) ks && same_kind k d)
      ≡ (any (λ j. same_kind j k) ks && same_kind k d)
asked_for k d ks = elim (Bool-cases (same_kind k d)) [
  | inl e ↦
      let same : k ≡ d = same_kind-path k d e in
      ap (λ x. any (λ j. same_kind j x) ks && same_kind k d) (sym same)
  | inr e ↦ rw e (ground arith)
]

check_kind-allows :
    (k : DetectedKind) (a : Allowed) (found : Option Signature)
    → accepted_as k (check_kind a found) ≡ (allows a k && kind_is k found)
unfolding check_kind
check_kind-allows k missing found = refl
check_kind-allows k inherited none = refl
check_kind-allows k inherited (some s) = refl
check_kind-allows k (kinds ks) none = ground arith
check_kind-allows k (kinds ks) (some s) =
    verdict (any (λ j. same_kind j s.kind) ks) k s ∙ asked_for k s.kind ks

-- A file is accepted as of a kind exactly when the table lists the kind for its extension, it has
-- four bytes or more, and it begins with a signature of the kind.
pub validate_file_content-accepts :
    (lower : String → String) (name : String) (buffer : List ℕ) (k : DetectedKind)
    → accepted_as k (validate_file_content lower name buffer) ≡ (
        allows (allowed_by_extension (extension lower name)) k
        && (leb 4 (length buffer) && begins_as k buffer))
unfolding validate_file_content
validate_file_content-accepts lower name [] k = ground arith
validate_file_content-accepts lower name (b ∷ buffer) k =
    check_kind-allows k (allowed_by_extension (extension lower name)) (detect_kind (b ∷ buffer))
    ∙ ap (λ t. allows (allowed_by_extension (extension lower name)) k && t)
        (detect_kind-begins k (b ∷ buffer))

abbrev pub is_inherited_name : String → Bool
is_inherited_name ext = same_text ext "constructor" || same_text ext "__proto__"

abbrev is_inherited : Allowed → Bool
is_inherited missing = false
is_inherited inherited = true
is_inherited (kinds ks) = false

-- One line of the table, whose name is not an inherited one.
line :
    (ext name : String) (ks : List DetectedKind) (rest : Allowed)
    → is_inherited_name name ≡ false
    → is_inherited rest ≡ is_inherited_name ext
    → is_inherited (if same_text ext name then kinds ks else rest) ≡ is_inherited_name ext
line ext name ks rest own h = elim (Bool-cases (same_text ext name)) [
  | inl e ↦
      let same : ext ≡ name = (eq_iff ext name).0 e in rw (e, ap is_inherited_name same, own) refl
  | inr e ↦ rw e h
]

last_line : (b : Bool) → is_inherited (if b then inherited else missing) ≡ b
last_line true = refl
last_line false = refl

allowed_by_extension-inherited :
    (ext : String) → is_inherited (allowed_by_extension ext) ≡ is_inherited_name ext
unfolding allowed_by_extension
allowed_by_extension-inherited ext = line ext "pdf" _ _ refl (
    line ext "jpg" _ _ refl (
      line ext "jpeg" _ _ refl (
        line ext "png" _ _ refl (
          line ext "doc" _ _ refl (
            line ext "docx" _ _ refl (
              line ext "ppt" _ _ refl (
                line ext "pptx" _ _ refl (
                  line ext "zip" _ _ refl
                    (line ext "rar" _ _ refl (last_line (is_inherited_name ext)))))))))))

abbrev pub is_throw : Validation → Bool
is_throw throws = true
is_throw v = false

detect_kind_nil : detect_kind [] ≡ none
unfolding detect_kind
detect_kind_nil = refl

and_false : (b : Bool) → false ≡ (b && false)
and_false b = ground arith

check_kind-throws :
    (a : Allowed) (found : Option Signature)
    → is_throw (check_kind a found) ≡ (is_inherited a && is_some found)
unfolding check_kind
check_kind-throws missing found = refl
check_kind-throws inherited none = refl
check_kind-throws inherited (some s) = refl
check_kind-throws (kinds ks) none = refl
check_kind-throws (kinds ks) (some s) = ground arith

-- The check ends in a TypeError exactly when the extension is `constructor` or `__proto__` and the
-- bytes are of a kind that is detected, whatever the kind.
pub validate_file_content-throws :
    (lower : String → String) (name : String) (buffer : List ℕ)
    → is_throw (validate_file_content lower name buffer)
      ≡ (is_inherited_name (extension lower name) && is_some (detect_kind buffer))
unfolding validate_file_content
validate_file_content-throws lower name [] =
    rw detect_kind_nil (and_false (is_inherited_name (extension lower name)))
validate_file_content-throws lower name (b ∷ buffer) =
    check_kind-throws (allowed_by_extension (extension lower name)) (detect_kind (b ∷ buffer))
    ∙ ap (λ t. t && is_some (detect_kind (b ∷ buffer)))
        (allowed_by_extension-inherited (extension lower name))
