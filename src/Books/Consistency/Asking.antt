-- ===== src/Books/Consistency/Asking.antt =====
-- Proofs on BooksService.request with the invariant of Books.Consistency.
use itc_sharing_backend.Base.{
  ℕ, ◌≤◌, ◌≡◌, refl, true, false, ◌&&◌, List, ◌∷◌, any, count, ◌==◌, ==_iff, subst, Bool-cases, inl,
  inr, count-le-count, arith, Occurs, Orm, Outcome, after, String, Option, All-at, All-imp,
  any-eq-count, modify, pure, bind_get, bind_guard, bind_expect, bind_modify, bind-Ends, seq-Ends,
  Ends, stopped, finished,
}
use itc_sharing_backend.Books.Types.{
  available, pending, Book, BookRequest, Desk, is_pending, is_accepted, is_completed, is_active,
  insert_request, send,
}
use itc_sharing_backend.Books.Requests.{new_request, request_checks, request}
use itc_sharing_backend.Books.Moves.{is_available_iff}
use itc_sharing_backend.Books.Consistency.{IsConsistent, Consistent, Agrees, FitsAt, of_book}

module _ (db : Orm) (book_id requester_id : ℕ) (s : Desk) where
  abbrev Requestable : Book → Desk → Type 0
  Requestable b s' =
      Occurs b s.books × (((b.id == book_id) ≡ true) × ((b.status ≡ available) × (s' ≡ s)))

  request_checks-Ends : Ends s Requestable (request_checks db book_id requester_id s)
  unfolding request_checks pure
  request_checks-Ends =
      let Q : Outcome Desk Book → Type 0 = Ends s Requestable in
      bind_get Q _ s (
        bind_expect Q _ _ _ s (λ _. stopped _ refl)
          λ b found.
            bind_guard Q _ _ _ s (λ _. stopped _ refl)
              λ shown.
                bind_guard Q _ _ _ s (λ _. stopped _ refl)
                  λ free.
                    bind_guard Q _ _ _ s (λ _. stopped _ refl)
                      λ other.
                        bind_guard Q _ _ _ s (λ _. stopped _ refl)
                          λ idle.
                            bind_guard Q _ _ _ s (λ _. stopped _ refl)
                              λ welcome.
                                let (o, e) = db.find_one_some _ s.books b found in
                                finished b s refl (o, (e, (is_available_iff b.status free, refl))))

-- What the constraints of the table guarantee of a row that they let in.
pub record IsInsertable (s : Desk) (row : BookRequest) : Type 0 where
  pub fresh : any (λ r. r.id == row.id) s.requests ≡ false
  pub alone : any (λ r. r.book_id == row.book_id && is_active r.status) s.requests ≡ false
  pub there : any (λ b. b.id == row.book_id) s.books ≡ true

insert_request-Ends :
    (row : BookRequest) (s : Desk)
    → Ends s
        (λ _ s'. IsInsertable s row × (s' ≡ record s { requests = row ∷ s.requests }))
        (insert_request row s)
unfolding insert_request modify
insert_request-Ends row s =
    let Q : Outcome Desk (Unit {0}) → Type 0 = Ends s _ in
    bind_get Q _ s (
      bind_guard Q _ _ _ s (λ _. stopped _ refl)
        λ fresh.
          bind_guard Q _ _ _ s (λ _. stopped _ refl)
            λ alone.
              bind_guard Q _ _ _ s (λ _. stopped _ refl)
                λ there.
                  bind_guard Q _ _ _ s (λ _. stopped _ refl)
                    λ asker.
                      finished tt _ refl (
                        record { fresh = ground arith; alone = ground arith; there = there },
                        refl,
                      ))

module _ (books : List Book) (requests : List BookRequest) (row : BookRequest)
    (v : IsConsistent books requests) (st : row.status ≡ pending)
    (fresh : any (λ r. r.id == row.id) requests ≡ false)
    (alone : any (λ r. r.book_id == row.book_id && is_active r.status) requests ≡ false) (b : Book)
    (o : Occurs b books) (e : (b.id == row.book_id) ≡ true) (free : b.status ≡ available) where
  -- No request for the book is pending, accepted or completed.
  none_open :
      FitsAt requests row.book_id available × (count (of_book is_pending row.book_id) requests ≡ 0)
  unfolding is_pending is_active
  none_open =
      let own : FitsAt requests b.id available =
        subst (FitsAt requests b.id) free (All-at (Agrees requests) o v.shelf) in
      let here : FitsAt requests row.book_id available =
        subst (λ k. FitsAt requests k available) ((==_iff b.id row.book_id).0 e) own in
      (
        here,
        omega (
          arith,
          count-le-count (of_book is_pending row.book_id)
              (λ r. r.book_id == row.book_id && is_active r.status) requests (λ x h. ground arith),
          any-eq-count _ requests alone,
        ),
      )

  shelf_new : (b' : Book) → Agrees requests b' → Agrees (row ∷ requests) b'
  unfolding is_pending is_accepted is_completed
  shelf_new b' a = elim (Bool-cases (row.book_id == b'.id)) [
    | inl same ↦
        let both =
          subst (λ k. FitsAt requests k available × (count (of_book is_pending k) requests ≡ 0))
            ((==_iff row.book_id b'.id).0 same) none_open in
        ground arith
    | inr other ↦ ground arith
  ]

  unique_new : (x : ℕ) → count (λ r. r.id == x) (row ∷ requests) ≤ 1
  unique_new x = elim (Bool-cases (row.id == x)) [
    | inl same ↦
        let zero =
          subst (λ y. count (λ r. r.id == y) requests ≡ 0) ((==_iff row.id x).0 same)
            (any-eq-count _ requests fresh) in
        ground arith
    | inr other ↦ ground (arith, v.unique x)
  ]

  insert-IsConsistent :
      any (λ a. a.id == row.book_id) books ≡ true → IsConsistent books (row ∷ requests)
  insert-IsConsistent there = record {
    shelf = All-imp (Agrees requests) (Agrees (row ∷ requests)) books shelf_new v.shelf;
    unique = unique_new;
    linked = (there, v.linked);
  }

module _ (db : Orm) (s : Desk) (v : Consistent s) where
  request_insert-Ends :
      (id now book_id requester_id : ℕ) (message : Option String) (b : Book)
      → Requestable db book_id requester_id s b s
      → Ends s
          (λ _ s'. Consistent s')
          (insert_request (new_request id now book_id requester_id message) s)
  request_insert-Ends id now book_id requester_id message b (o, (e, (free, _))) =
      ends (insert_request-Ends (new_request id now book_id requester_id message) s)
    where
      row : BookRequest
      row = new_request id now book_id requester_id message

      ends :
          {m : Outcome Desk (Unit {0})}
          → Ends s (λ _ s'. IsInsertable s row × (s' ≡ record s { requests = row ∷ s.requests })) m
          → Ends s (λ _ s'. Consistent s') m
      ends (stopped x h) = stopped x h
      ends (finished a s' h (i, same)) = finished a s' h (
          rw same
            (insert-IsConsistent s.books s.requests row v refl i.fresh i.alone b o e free i.there))

  pub request-Consistent :
      (id now book_id requester_id : ℕ) (message : Option String)
      → Consistent (after (request db id now book_id requester_id message s))
  unfolding request send pure
  request-Consistent id now book_id requester_id message =
      let Q : Outcome Desk BookRequest → Type 0 = λ o. Consistent (after o) in
      bind-Ends Q _ _ _ s (request_checks-Ends db book_id requester_id s) (λ e. v)
        λ b s1 (o, (e, (free, same))). rw same (
          bind_get Q _ s (
            seq-Ends Q _ _ _ s
              (request_insert-Ends id now book_id requester_id message b (o, (e, (free, refl))))
              (λ e. v) λ s' w. bind_modify Q _ _ s' w))
