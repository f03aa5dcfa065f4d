-- ===== src/Uploads/Feed.antt =====
-- Proofs on findAll and findOne: the feed and the detail page.
use itc_sharing_backend.Base.{
  ℕ, ◌≡◌, ◌≤◌, sym, ◌∙◌, Bool, true, false, ◌&&◌, ◌==◌, List, [], any, count, arith, Outcome, done,
  fail, Occurs, any_at, any_of_count, count_none_of, count-le-count, Bool-cases, inl, inr, bind_get,
  bind_expect, bind_guard, pure, ap,
}
use itc_sharing_backend.Documents.Audience.{can_view}
use itc_sharing_backend.Documents.Feed.{is_current, apply_visibility-can_view}
use itc_sharing_backend.Uploads.Types.{is_active, UploadRow}
use itc_sharing_backend.Uploads.Staging.{Site, Desk}
use itc_sharing_backend.Uploads.Owning.{view_of, get_viewer}
use itc_sharing_backend.Uploads.Browsing.{
  QueryDocuments, has_status, has_open_file, passes_filters, own_list, is_listed, find_all,
  find_one,
}
use itc_sharing_backend.Uploads.Calm.Posting.{Keyed}
use itc_sharing_backend.Uploads.Found.{any-find}

-- With the identifier of one row, a test of the rows is that of this row.
any_keyed :
    (L : UploadRow → Bool) (x : ℕ) {u : UploadRow} {us : List UploadRow}
    → Occurs u us
    → (u.id == x) ≡ true
    → count (λ (r : UploadRow). r.id == x) us ≤ 1
    → any (λ (r : UploadRow). r.id == x && L r) us ≡ L u
any_keyed L x {u} {us} o hit one = elim (Bool-cases (L u)) [
  | inl holds ↦ any_at (λ (r : UploadRow). r.id == x && L r) o (ground arith) ∙ sym holds
  | inr fails ↦
      any_of_count _ us (
        count_none_of (λ (r : UploadRow). r.id == x && L r) (λ (r : UploadRow). r.id == x) o hit
          (ground arith) (λ v h. ground arith) one)
      ∙ sym fails
]

module _ (p : Site) where
  -- What the page shows, if the list may show it.
  abbrev pub is_browsed : QueryDocuments → ℕ → Outcome (Desk p) UploadRow → Bool
  is_browsed q now (done u s) =
      is_current now (view_of p u []) && (has_open_file s.files u && passes_filters q u)
  is_browsed q now (fail e s) = false

  -- The condition of a list that is not one's own, on an upload that is active.
  listed_by :
      (q : QueryDocuments) (now viewer_id : ℕ) (s : Desk p) (u : UploadRow)
      → is_active u.status ≡ true
      → is_listed p q false now (get_viewer p viewer_id s) s.files u ≡ (
          can_view now (view_of p u []) (get_viewer p viewer_id s)
          && (is_current now (view_of p u []) && (has_open_file s.files u && passes_filters q u)))
  unfolding is_listed has_status
  listed_by q now viewer_id s u up =
      ground (arith, apply_visibility-can_view now (get_viewer p viewer_id s) (view_of p u []))

  find_all-by :
      {own : Bool} (q : QueryDocuments) (x now viewer_id : ℕ) (s : Desk p)
      → own_list q viewer_id ≡ own
      → any (λ (u : UploadRow). u.id == x) (find_all p q now viewer_id s)
        ≡ any
            (λ (u : UploadRow).
              u.id == x && is_listed p q own now (get_viewer p viewer_id s) s.files u)
            s.uploads
  unfolding find_all
  find_all-by q x now viewer_id s is_own =
      any-find p.db (λ (u : UploadRow). u.id == x)
        (is_listed p q (own_list q viewer_id) now (get_viewer p viewer_id s) s.files) s.uploads
      ∙ ap
          (λ own.
            any
              (λ (u : UploadRow).
                u.id == x && is_listed p q own now (get_viewer p viewer_id s) s.files u)
              s.uploads)
          is_own

  -- Only what is active is in such a list.
  listed-active :
      (q : QueryDocuments) (now viewer_id : ℕ) (s : Desk p) (u : UploadRow)
      → is_listed p q false now (get_viewer p viewer_id s) s.files u ≡ true
      → is_active u.status ≡ true
  unfolding is_listed has_status
  listed-active q now viewer_id s u h = ground arith

  -- Where identifiers are unique, a list that is not asked for by the viewer's own identifier shows an
  -- upload exactly when its detail page shows it to the viewer, it is neither expired nor hidden, it has
  -- an active file that is not hidden, and it passes the filters.
  pub find_all-find_one :
      (q : QueryDocuments) (x now viewer_id : ℕ) (s : Desk p)
      → Keyed s
      → own_list q viewer_id ≡ false
      → any (λ (u : UploadRow). u.id == x) (find_all p q now viewer_id s)
        ≡ is_browsed q now (find_one p x now viewer_id s)
  unfolding find_one pure
  find_all-find_one q x now viewer_id s keyed other =
      let L : UploadRow → Bool =
        λ u. is_listed p q false now (get_viewer p viewer_id s) s.files u in
      let Q : Outcome (Desk p) UploadRow → Type 0 = λ o.
        any (λ (u : UploadRow). u.id == x) (find_all p q now viewer_id s) ≡ is_browsed q now o in
      let rows = find_all-by q x now viewer_id s other in
      bind_get Q _ s (
        bind_expect Q _ _ _ s
          (λ missing.
            rows
            ∙ any_of_count _ s.uploads (
                omega (
                  arith,
                  p.db.find_one_none _ s.uploads missing,
                  count-le-count (λ (u : UploadRow). u.id == x && L u)
                      (λ (u : UploadRow). u.id == x && is_active u.status) s.uploads
                      (λ u h. ground (arith, listed-active q now viewer_id s u)),
                )))
          (λ u found.
            let (o, hit) = p.db.find_one_some _ s.uploads u found in
            let one = rows ∙ any_keyed L x o (ground arith) (keyed x) in
            let by = listed_by q now viewer_id s u (ground arith) in
            bind_guard Q _ _ _ s (λ unseen. one ∙ by ∙ ground arith)
              (λ seen. one ∙ by ∙ ground arith)))
