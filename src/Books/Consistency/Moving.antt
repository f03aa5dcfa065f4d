-- ===== src/Books/Consistency/Moving.antt =====
-- Proofs on the two updates of a handover, a request's and its book's, with the invariant of
-- Books.Consistency.
use itc_sharing_backend.Base.{
  ℕ, ◌≡◌, ap, true, List, map, ◌==◌, arith, any, count, ◌≤◌, sym, subst, All-map-patch, All-imp,
  patch, Occurs, count-patch_same, any-map_same, Bool-cases, inl, inr, Orm,
}
use itc_sharing_backend.Books.Types.{BookStatus, RequestStatus, Book, BookRequest}
use itc_sharing_backend.Books.Handover.{with_status}
use itc_sharing_backend.Books.Consistency.{
  IsConsistent, Agrees, FitsAt, Moves, Agrees-own, Agrees-other,
}

module _ (db : Orm) {books : List Book} {requests : List BookRequest} (x k : ℕ) {r : BookRequest}
    (f : BookRequest → BookRequest) (to : RequestStatus)
    (f_status : (q : BookRequest) → (f q).status ≡ to)
    (f_book : (q : BookRequest) → (f q).book_id ≡ q.book_id)
    (f_id : (q : BookRequest) → (f q).id ≡ q.id) (v : IsConsistent books requests)
    (o : Occurs r requests) (hit : (r.id == x) ≡ true) (own : (r.book_id == k) ≡ true) where
  unique_after : (y : ℕ) → count (λ q. q.id == y) (map (patch (λ q. q.id == x) f) requests) ≤ 1
  unique_after y =
      rw
        (count-patch_same (λ q. q.id == y) (λ q. q.id == x) f requests
          (λ q h. ap (λ i. i == y) (f_id q)))
        (v.unique y)

  shelf_after :
      (st' : BookStatus)
      → Moves r.status to st'
      → (b : Book) → Agrees requests b
      → Agrees
          (map (patch (λ q. q.id == x) f) requests)
          (patch (λ b. b.id == k) (with_status st') b)
  shelf_after st' m b a = elim (Bool-cases (b.id == k)) [
    | inl same ↦
        rw same (Agrees-own x f o hit (v.unique x) to f_status f_book b st' m (ground arith) a)
    | inr other ↦
        rw other (Agrees-other x f o hit (v.unique x) to f_status f_book b (ground arith) a)
  ]

  patched_book : (q : BookRequest) → (patch (λ q. q.id == x) f q).book_id ≡ q.book_id
  patched_book q = ground (arith, f_book q)

  linked_after :
      (st' : BookStatus) (q : BookRequest)
      → any (λ b. b.id == q.book_id) books ≡ true
      → any
          (λ b. b.id == (patch (λ q. q.id == x) f q).book_id)
          (map (patch (λ b. b.id == k) (with_status st')) books)
        ≡ true
  linked_after st' q h =
      rw
        (
          patched_book q,
          any-map_same (λ b. b.id == q.book_id) (patch (λ b. b.id == k) (with_status st')) books
              (λ b. ground arith),
        )
        h

  -- The request and the book move together.
  pub move-IsConsistent :
      (st' : BookStatus)
      → Moves r.status to st'
      → IsConsistent
          (db.update (λ b. b.id == k) (with_status st') books)
          (db.update (λ q. q.id == x) f requests)
  move-IsConsistent st' m =
      rw
        (
          db.update_eq (λ (b : Book). b.id == k) (with_status st') books,
          db.update_eq (λ (q : BookRequest). q.id == x) f requests,
        )
        (record {
          shelf =
              All-map-patch (Agrees requests) (Agrees _) (λ b. b.id == k) (with_status st') books
                (shelf_after st' m) v.shelf;
          unique = unique_after;
          linked =
              All-map-patch (λ q. any (λ b. b.id == q.book_id) books ≡ true)
                (λ q.
                  any (λ b. b.id == q.book_id)
                    (map (patch (λ b. b.id == k) (with_status st')) books)
                  ≡ true)
                (λ q. q.id == x) f requests (linked_after st') v.linked;
        })

  shelf_kept :
      (st' : BookStatus)
      → Moves r.status to st'
      → ((b : Book) → Agrees requests b → (b.id == k) ≡ true → b.status ≡ st')
      → (b : Book) → Agrees requests b
      → Agrees (map (patch (λ q. q.id == x) f) requests) b
  shelf_kept st' m kept b a = elim (Bool-cases (b.id == k)) [
    | inl same ↦
        subst (FitsAt (map (patch (λ q. q.id == x) f) requests) b.id) (sym (kept b a same))
          (Agrees-own x f o hit (v.unique x) to f_status f_book b st' m (ground arith) a)
    | inr other ↦ Agrees-other x f o hit (v.unique x) to f_status f_book b (ground arith) a
  ]

  -- The request moves, and its book has the status already.
  pub stay-IsConsistent :
      (st' : BookStatus)
      → Moves r.status to st'
      → ((b : Book) → Agrees requests b → (b.id == k) ≡ true → b.status ≡ st')
      → IsConsistent books (db.update (λ q. q.id == x) f requests)
  stay-IsConsistent st' m kept =
      rw (db.update_eq (λ (q : BookRequest). q.id == x) f requests) (record {
        shelf = All-imp (Agrees requests) (Agrees _) books (shelf_kept st' m kept) v.shelf;
        unique = unique_after;
        linked =
            All-map-patch (λ q. any (λ b. b.id == q.book_id) books ≡ true)
              (λ q. any (λ b. b.id == q.book_id) books ≡ true) (λ q. q.id == x) f requests
              (λ q h. rw (patched_book q) h) v.linked;
      })
