-- ===== src/Books/Consistency/Listing.antt =====
-- Proofs on donate, update, remove and the admin's two operations with the invariant of
-- Books.Consistency.
use itc_sharing_backend.Base.{
  ℕ, ◌≡◌, ◌≤◌, refl, sym, subst, ap, ◌∙◌, ==_iff, Bool-cases, inl, inr, guard-Ends, modify, Bool,
  true, false, not, List, [], ◌∷◌, any, count, ◌==◌, arith, Orm, Outcome, after, Option, patch,
  keep, All, All-map-patch, All-keep, All-imp, any-map_same, any-keep_same, count-keep_same,
  count-keep-le, bind_get, bind_guard, bind_expect, bind_modify, seq-Ends, Ends, stopped, pure,
}
use mathlib.Core.Bool.{false≢true}
use itc_sharing_backend.Books.Types.{
  available, RequestStatus, Book, BookRequest, Desk, is_pending, is_accepted, is_completed,
}
use itc_sharing_backend.Books.Listing
use itc_sharing_backend.Books.Listing.{
  CreateBook, UpdateBook, patch_book, donate, assert_not_locked, assert_no_pending_request,
  assert_editable, delete_book_rows, remove, set_book_hidden, delete_book,
}
use itc_sharing_backend.Books.Consistency.{IsConsistent, Consistent, Agrees, of_book}

-- An edit that keeps the identifier and the status of a book.
edit-IsConsistent :
    (db : Orm) (books : List Book) (requests : List BookRequest) (p : Book → Bool) (g : Book → Book)
    → ((b : Book) → (g b).id ≡ b.id)
    → ((b : Book) → (g b).status ≡ b.status)
    → IsConsistent books requests
    → IsConsistent (db.update p g books) requests
edit-IsConsistent db books requests p g g_id g_status v = rw (db.update_eq p g books) (record {
  shelf =
      All-map-patch (Agrees requests) (Agrees requests) p g books
        (λ b a. rw (same_id b, same_status b) a) v.shelf;
  unique = v.unique;
  linked =
      All-imp _ _ requests
        (λ r h.
          rw
            (any-map_same (λ b. b.id == r.book_id) (patch p g) books
              (λ b. ap (λ i. i == r.book_id) (same_id b)))
            h)
        v.linked;
})
  where
    same_id : (b : Book) → (patch p g b).id ≡ b.id
    same_id b = ground (arith, g_id b)

    same_status : (b : Book) → (patch p g b).status ≡ b.status
    same_status b = ground (arith, g_status b)

-- A deletion of a book takes its requests along.
drop-IsConsistent :
    (db : Orm) (books : List Book) (requests : List BookRequest) (id : ℕ)
    → IsConsistent books requests
    → IsConsistent
        (db.delete (λ (b : Book). b.id == id) books)
        (db.delete (λ (r : BookRequest). r.book_id == id) requests)
drop-IsConsistent db books requests id v =
    rw
      (
        db.delete_eq (λ (b : Book). b.id == id) books,
        db.delete_eq (λ (r : BookRequest). r.book_id == id) requests,
      )
      (record {
        shelf =
            All-keep (Agrees requests) (Agrees _) _ books
              (λ b e a. rw (stays is_pending b e, stays is_accepted b e, stays is_completed b e) a)
              v.shelf;
        unique = λ x. omega (
          arith,
          v.unique x,
          count-keep-le (λ r. r.id == x) (λ r. not (r.book_id == id)) requests,
        );
        linked =
            All-keep _ _ _ requests
              (λ r e h.
                rw
                  (any-keep_same (λ b. b.id == r.book_id) (λ b. not (b.id == id)) books
                    (λ b k. ground arith))
                  h)
              v.linked;
      })
  where
    stays :
        (is : RequestStatus → Bool) (b : Book)
        → not (b.id == id) ≡ true
        → count (of_book is b.id) (keep (λ r. not (r.book_id == id)) requests)
          ≡ count (of_book is b.id) requests
    stays is b e =
        count-keep_same (of_book is b.id) (λ r. not (r.book_id == id)) requests
          (λ r h. ground arith)

count_unlinked :
    (is : RequestStatus → Bool) (books : List Book) (id : ℕ) (requests : List BookRequest)
    → any (λ b. b.id == id) books ≡ false
    → All (λ r. any (λ b. b.id == r.book_id) books ≡ true) requests
    → count (of_book is id) requests ≡ 0
count_unlinked is books id [] h l = refl
count_unlinked is books id (r ∷ rs) h (l, ls) = elim (Bool-cases (r.book_id == id)) [
  | inl same ↦ absurd (
      false≢true
        (sym h ∙ subst (λ k. any (λ b. b.id == k) books ≡ true) ((==_iff r.book_id id).0 same) l))
  | inr other ↦ ground (arith, count_unlinked is books id rs h ls)
]

add-IsConsistent :
    (books : List Book) (requests : List BookRequest) (b : Book)
    → b.status ≡ available
    → any (λ a. a.id == b.id) books ≡ false
    → IsConsistent books requests
    → IsConsistent (b ∷ books) requests
add-IsConsistent books requests b st new v = record {
  shelf = (rw st (fits, none is_accepted, none is_completed), v.shelf);
  unique = v.unique;
  linked = All-imp _ _ requests (λ r h. ground arith) v.linked;
}
  where
    none : (is : RequestStatus → Bool) → count (of_book is b.id) requests ≡ 0
    none is = count_unlinked is books b.id requests new v.linked

    fits : count (of_book is_pending b.id) requests ≤ 1
    fits = omega (arith, none is_pending)

module _ (db : Orm) (s : Desk) (v : Consistent s) where
  pub donate-Consistent :
      (majors : List ℕ) (id now donor_id : ℕ) (dto : CreateBook)
      → Consistent (after (donate db majors id now donor_id dto s))
  unfolding donate pure
  donate-Consistent majors id now donor_id dto =
      let Q : Outcome Desk (Option Book) → Type 0 = λ o. Consistent (after o) in
      bind_guard Q _ _ _ s (λ _. v)
        λ known. bind_get Q _ s (
          bind_guard Q _ _ _ s (λ _. v)
            λ new.
              bind_modify Q _ _ s
                (bind_get Q _ _ (add-IsConsistent s.books s.requests _ refl (ground arith) v)))

  assert_editable-Ends :
      (id user_id : ℕ) → Ends s (λ _ s'. s' ≡ s) (assert_editable db id user_id s)
  unfolding assert_editable assert_not_locked assert_no_pending_request
  assert_editable-Ends id user_id =
      let Q : Outcome Desk (Unit {0}) → Type 0 = Ends s (λ _ s'. s' ≡ s) in
      bind_get Q _ s (
        bind_expect Q _ _ _ s (λ _. stopped _ refl)
          λ b found.
            bind_guard Q _ _ _ s (λ _. stopped _ refl)
              λ mine.
                seq-Ends Q (λ _ s'. s' ≡ s) _ _ s
                  (bind_guard (Ends s (λ _ s'. s' ≡ s)) _ _ _ s (λ _. stopped _ refl)
                    λ free. guard-Ends _ _ s)
                  (λ e. stopped e refl) λ s' same. rw same (bind_get Q _ s (guard-Ends _ _ s)))

  pub update-Consistent :
      (majors : List ℕ) (id user_id : ℕ) (dto : UpdateBook)
      → Consistent (after (Listing.update db majors id user_id dto s))
  unfolding Listing.update pure
  update-Consistent majors id user_id dto =
      let Q : Outcome Desk (Option Book) → Type 0 = λ o. Consistent (after o) in
      seq-Ends Q _ _ _ s (assert_editable-Ends id user_id) (λ _. v)
        λ s' same. rw same (
          bind_guard Q _ _ _ s (λ _. v)
            (λ known. bind_modify Q _ _ s (
              bind_get Q _ _ (
                edit-IsConsistent db s.books s.requests _ (patch_book dto) (patched_id dto)
                  (patched_status dto) v))))
    where
      patched_id : (dto : UpdateBook) (b : Book) → (patch_book dto b).id ≡ b.id
      patched_id dto b = unfold patch_book in refl

      patched_status : (dto : UpdateBook) (b : Book) → (patch_book dto b).status ≡ b.status
      patched_status dto b = unfold patch_book in refl

  delete_book_rows-Consistent : (id : ℕ) → Consistent (after (delete_book_rows db id s))
  unfolding delete_book_rows modify
  delete_book_rows-Consistent id =
      let Q : Outcome Desk (Unit {0}) → Type 0 = λ o. Consistent (after o) in
      bind_get Q _ s
        (bind_modify Q _ _ s (bind_modify Q _ _ _ (drop-IsConsistent db s.books s.requests id v)))

  pub remove-Consistent : (id user_id : ℕ) → Consistent (after (remove db id user_id s))
  unfolding remove
  remove-Consistent id user_id =
      seq-Ends (λ (o : Outcome Desk (Unit {0})). Consistent (after o)) _ _ _ s
        (assert_editable-Ends id user_id) (λ _. v)
        λ s' same. rw same (delete_book_rows-Consistent id)

  pub delete_book-Consistent : (id : ℕ) → Consistent (after (delete_book db id s))
  unfolding delete_book
  delete_book-Consistent id =
      let Q : Outcome Desk (Unit {0}) → Type 0 = λ o. Consistent (after o) in
      bind_get Q _ s (bind_expect Q _ _ _ s (λ _. v) λ b found. delete_book_rows-Consistent id)

  pub set_book_hidden-Consistent :
      (now id : ℕ) (hidden : Bool) → Consistent (after (set_book_hidden db now id hidden s))
  unfolding set_book_hidden modify
  set_book_hidden-Consistent now id hidden =
      let Q : Outcome Desk (Unit {0}) → Type 0 = λ o. Consistent (after o) in
      bind_get Q _ s (
        bind_expect Q _ _ _ s (λ _. v)
          λ b found. edit-IsConsistent db s.books s.requests _ _ (λ b. refl) (λ b. refl) v)
