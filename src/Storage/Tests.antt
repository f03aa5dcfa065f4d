-- ===== src/Storage/Tests.antt =====
-- References and objects to run on, and the theorems at inputs that meet their hypotheses.
use itc_sharing_backend.Base.{
  ◌≡◌, refl, ◌↔◌, true, false, not, String, none, some, [], ◌∷◌, is_empty, keep,
}
use itc_sharing_backend.Storage.Refs.{
  StorageRef, is_safe_key_segment, includes, after_prefix, has_control, is_bucket_name, are_label,
  split_slash, check_parts, parse_ref, ref_of, public_url, extract_key, same_object, upload, remove,
  by_bucket, add_key, delete_batches,
}
use itc_sharing_backend.Storage.RoundTrip.{parse_ref_iff}
use itc_sharing_backend.Storage.Removal.{upload-remove}

abbrev object : String → String → StorageRef
object bucket key = record { bucket = bucket; key = key }

parsed : parse_ref (some "documents/staged/7/ab.pdf") ≡ some (object "documents" "staged/7/ab.pdf")
unfolding parse_ref is_safe_key_segment includes after_prefix has_control check_parts is_bucket_name
    are_label split_slash
parsed = refl

climbing : parse_ref (some "documents/../user-avatar/x.png") ≡ none
unfolding parse_ref is_safe_key_segment includes after_prefix
climbing = refl

removed :
    remove
      (λ b. true)
      (some "documents/a.pdf" ∷ some "/documents/b.pdf" ∷ none ∷ [])
      (object "documents" "a.pdf" ∷ object "documents" "b.pdf" ∷ [])
    ≡ object "documents" "b.pdf" ∷ []
unfolding remove by_bucket delete_batches add_key parse_ref is_safe_key_segment includes
    after_prefix has_control check_parts is_bucket_name are_label split_slash
removed = refl

parse_ref_iff_example : (parse_ref (some "documents/a.pdf") ≡ some (object "documents" "a.pdf")) ↔ (
    (◌≡◌ {A = String} "documents/a.pdf" (ref_of (object "documents" "a.pdf")))
    × (is_bucket_name "documents" ≡ true)
    × (is_empty "a.pdf" ≡ false)
    × (is_safe_key_segment "documents/a.pdf" ≡ true))
parse_ref_iff_example = parse_ref_iff "documents/a.pdf" (object "documents" "a.pdf")

is_documents : is_bucket_name "documents" ≡ true
unfolding is_bucket_name are_label
is_documents = refl

is_safe : is_safe_key_segment (ref_of (object "documents" "a.pdf")) ≡ true
unfolding is_safe_key_segment includes after_prefix has_control ref_of
is_safe = refl

stored :
    (upload "http://s3" true (object "documents" "a.pdf") []).0 ≡ some "http://s3/documents/a.pdf"
unfolding upload is_safe_key_segment includes after_prefix has_control public_url ref_of
stored = refl

upload-remove_example :
    remove
      (λ b. true)
      (extract_key "http://s3" (some "http://s3/documents/a.pdf") ∷ [])
      (upload "http://s3" true (object "documents" "a.pdf") []).1
    ≡ keep (λ o. not (same_object o (object "documents" "a.pdf"))) []
upload-remove_example =
    upload-remove "http://s3" (object "documents" "a.pdf") [] (λ b. true)
      "http://s3/documents/a.pdf" is_documents is_safe refl stored
