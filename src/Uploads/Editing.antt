-- ===== src/Uploads/Editing.antt =====
-- DocumentsService: update.
use itc_sharing_backend.Base.{
  ℕ, Bool, true, false, not, ◌&&◌, ◌||◌, String, Option, none, some, List, map, ◌==◌, leb, M, pure,
  get, modify, guard, expect, throw, bad_request, not_found, forbidden, ◌>>=◌, ◌>>◌,
}
use itc_sharing_backend.Documents.Audience.{AudienceEntry, Major, same_id}
use itc_sharing_backend.Uploads.Types.{is_active, DocType, UploadRow, put_uploads}
use itc_sharing_backend.Uploads.Staging.{Site, Desk}
use itc_sharing_backend.Uploads.Posting.{
  load_major, assert_doc_type, audience_for, back_to_review, is_known, trimmed,
}

-- UpdateDocumentDto: a field that is not sent is `none`, and one that is sent as null is `some none`.
-- The date has been parsed, and `some (some none)` is one that did not parse.
pub record UpdateDocument : Type 0 where
  pub title : Option String
  pub description : Option (Option String)
  pub doc_type : Option DocType
  pub major_id : Option ℕ
  pub subject_id : Option (Option ℕ)
  pub year_level : Option ℕ
  pub academic_year : Option (Option String)
  pub audience : Option (List AudienceEntry)
  pub expires_at : Option (Option (Option ℕ))

abbrev pub or_old {ℓ} : {A : Type ℓ} → Option A → A → A
or_old none old = old
or_old (some new) old = new

abbrev pub is_sent {ℓ} : {A : Type ℓ} → Option A → Bool
is_sent none = false
is_sent (some a) = true

abbrev pub trim_sent : Option (Option String) → Option String → Option String
trim_sent none old = old
trim_sent (some sent) old = trimmed sent

abbrev pub is_past : ℕ → Option ℕ → Bool
is_past now none = false
is_past now (some t) = leb t now

abbrev pub same_time : Option ℕ → Option ℕ → Bool
same_time none none = true
same_time (some a) (some b) = a == b
same_time a b = false

module _ (p : Site) (is_language : String → Bool) (year_levels : String → List ℕ) where
  abbrev pub assert_sent_type : Major → Option DocType → M (Desk p) (Unit {0})
  assert_sent_type major none = pure tt
  assert_sent_type major (some t) = assert_doc_type p is_language year_levels major t

  -- The audience that the edit stores: as it was, where neither it nor the department is sent.
  abbrev pub audience_if :
      Bool → Major → List AudienceEntry → List AudienceEntry → M (Desk p) (List AudienceEntry)
  audience_if true major sent old = audience_for p is_language year_levels major sent
  audience_if false major sent old = pure old

  abbrev pub checked_audience : Bool → UpdateDocument → UploadRow → M (Desk p) (List AudienceEntry)
  checked_audience false dto u = pure u.audience
  checked_audience true dto u = do
    major ← load_major p is_language year_levels (or_old dto.major_id u.major_id)
    assert_sent_type major dto.doc_type
    audience_if (is_sent dto.major_id || is_sent dto.audience) major
        (or_old dto.audience u.audience) u.audience

  unfoldable pub resolve_edit : UpdateDocument → UploadRow → M (Desk p) (List AudienceEntry)
  resolve_edit dto u =
      checked_audience (is_sent dto.major_id || is_sent dto.doc_type || is_sent dto.audience) dto u

  -- The expiry that the edit stores: only a change has to lie in the future.
  unfoldable pub next_expiry : ℕ → Option (Option (Option ℕ)) → Option ℕ → M (Desk p) (Option ℕ)
  next_expiry now none old = pure old
  next_expiry now (some (some none)) old = throw (bad_request "Invalid expires_at")
  next_expiry now (some none) old = pure none
  next_expiry now (some (some (some t))) old = do
    guard (same_time (some t) old || not (leb t now))
        (bad_request "expires_at must be in the future")
    pure (some t)

  abbrev pub edited : UpdateDocument → List AudienceEntry → Option ℕ → UploadRow → UploadRow
  edited dto audience expiry u = record u {
    title = or_old dto.title u.title;
    description = trim_sent dto.description u.description;
    doc_type = or_old dto.doc_type u.doc_type;
    major_id = or_old dto.major_id u.major_id;
    subject_id = or_old dto.subject_id u.subject_id;
    year_level = or_old dto.year_level u.year_level;
    academic_year = or_old dto.academic_year u.academic_year;
    audience = audience;
    expires_at = expiry;
  }

  abbrev pub patched : Bool → UpdateDocument → List AudienceEntry → Option ℕ → UploadRow → UploadRow
  patched true dto audience expiry u = edited dto audience expiry u
  patched false dto audience expiry u = back_to_review (edited dto audience expiry u)

  unfoldable pub update : ℕ → ℕ → ℕ → UpdateDocument → M (Desk p) (Unit {0})
  update now upload_id user_id dto = do
    s ← get
    u ←
        expect (p.db.find_one (λ (r : UploadRow). r.id == upload_id) s.uploads)
          (not_found "Upload not found")
    guard (same_id u.uploader_id user_id) (forbidden "Not your upload")
    audience ← resolve_edit dto u
    expiry ← next_expiry now dto.expires_at u.expires_at
    guard
        (is_known p is_language year_levels dto.major_id (map (λ (m : Major). m.id) s.majors)
          && is_known p is_language year_levels (or_old dto.subject_id none) s.subjects)
        (bad_request "Invalid major_id or subject_id")
    modify (λ d.
        put_uploads
          (p.db.update (λ (r : UploadRow). r.id == upload_id)
            (patched (is_active u.status) dto audience expiry) d.uploads)
          d)
