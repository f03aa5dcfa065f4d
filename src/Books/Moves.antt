-- ===== src/Books/Moves.antt =====
-- What a handler of the handover does to one request and its book: the relation, and proofs on
-- complete, cancel and decline.
use itc_sharing_backend.Base.{
  ℕ, ◌≡◌, refl, true, ◌&&◌, ◌||◌, List, ◌==◌, arith, Occurs, Orm, Outcome, String, ◌>>◌, modify,
  pure, bind_get, bind_guard, bind_expect, bind_modify, bind-Ends, transaction-Ends, end_expect,
  Ends, stopped, finished, some,
}
use itc_sharing_backend.Books.Types.{
  BookStatus, available, donated, RequestStatus, pending, accepted, Book, BookRequest, Desk, Notice,
  is_pending, is_accepted, is_active, is_available, send,
}
use itc_sharing_backend.Books.Requests.{decline_checks}
use itc_sharing_backend.Books.Handover.{
  with_status, cancel_body, cancel, cancel_row, complete_checks, complete_body, complete,
  complete_row,
}

-- The request that a handler found by its identifier and its book's.
pub record IsTarget (requests : List BookRequest) (book_id request_id : ℕ) (r : BookRequest)
    : Type 0 where
  pub occurs : Occurs r requests
  pub hit : (r.id == request_id) ≡ true
  pub own : (r.book_id == book_id) ≡ true

pub is_accepted_iff : (st : RequestStatus) → is_accepted st ≡ true → st ≡ accepted
unfolding is_accepted
is_accepted_iff st h = ground arith

pub is_pending_iff : (st : RequestStatus) → is_pending st ≡ true → st ≡ pending
unfolding is_pending
is_pending_iff st h = ground arith

pub is_available_iff : (st : BookStatus) → is_available st ≡ true → st ≡ available
unfolding is_available
is_available_iff st h = ground arith

is_open_iff : (st : RequestStatus) → (is_pending st || is_accepted st) ≡ true → is_active st ≡ true
unfolding is_pending is_accepted is_active
is_open_iff st h = ground arith

-- The book that a handler found by its identifier.
pub record IsBook (books : List Book) (book_id : ℕ) (b : Book) : Type 0 where
  pub occurs : Occurs b books
  pub hit : (b.id == book_id) ≡ true

-- A handler has moved one request, by `f`, and its book, to `st`, and has changed no other row of
-- the two tables; `Before` is what its reads established of the book and the request.
pub record HasMoved (db : Orm) (book_id request_id : ℕ) (f : BookRequest → BookRequest)
    (st : BookStatus) (Before : Book → BookRequest → Type 0) (s s' : Desk) : Type 0 where
  pub held : BookRequest
  pub book : Book
  pub target : IsTarget s.requests book_id request_id held
  pub shelf : IsBook s.books book_id book
  pub before : Before book held
  pub requests : s'.requests ≡ db.update (λ q. q.id == request_id) f s.requests
  pub books : s'.books ≡ db.update (λ b. b.id == book_id) (with_status st) s.books

module _ (db : Orm) (book_id request_id : ℕ) (s : Desk) where
  pub target :
      {r : BookRequest}
      → db.find_one (λ (r : BookRequest). r.id == request_id && r.book_id == book_id) s.requests
        ≡ some r
      → IsTarget s.requests book_id request_id r
  target {r} found =
      let (o, h) = db.find_one_some _ s.requests r found in
      record { occurs = o; hit = ground arith; own = ground arith }

  pub shelf :
      {b : Book}
      → db.find_one (λ (b : Book). b.id == book_id) s.books ≡ some b
      → IsBook s.books book_id b
  shelf {b} found =
      let (o, h) = db.find_one_some _ s.books b found in record { occurs = o; hit = h }

-- Notices leave the two tables alone.
pub sent :
    {db : Orm} {book_id request_id : ℕ} {f : BookRequest → BookRequest} {st : BookStatus}
    {Before : Book → BookRequest → Type 0} {s s' : Desk}
    → HasMoved db book_id request_id f st Before s s'
    → (notices : List Notice)
    → HasMoved db book_id request_id f st Before s (record s' { outbox = notices })
sent w notices = record {
  held = w.held;
  book = w.book;
  target = w.target;
  shelf = w.shelf;
  before = w.before;
  requests = w.requests;
  books = w.books;
}

-- What the reads of `complete` and of `cancel` establish.
abbrev pub ByReceiver : ℕ → Book → BookRequest → Type 0
ByReceiver user_id b r = (r.status ≡ accepted) × ((r.requester_id == user_id) ≡ true)

abbrev pub ByEither : ℕ → Book → BookRequest → Type 0
ByEither user_id b r =
    (is_active r.status ≡ true) × ((r.requester_id == user_id || b.donor_id == user_id) ≡ true)

module _ (db : Orm) (now book_id request_id user_id : ℕ) (s : Desk) where
  abbrev Completed : Desk → Type 0
  Completed = HasMoved db book_id request_id (complete_row now) donated (ByReceiver user_id) s

  complete_body-Ends :
      Ends s (λ _ s'. Completed s') (complete_body db now book_id request_id user_id s)
  unfolding complete_body complete_checks modify ◌>>◌ pure
  complete_body-Ends =
      let Q : Outcome Desk Book → Type 0 = Ends s (λ _ s'. Completed s') in
      let R : Outcome Desk Book → Type 0 = Ends s (λ b s'.
        IsBook s.books book_id b
        × (s' ≡ s)
        × ((r : BookRequest) × IsTarget s.requests book_id request_id r
            × ByReceiver user_id b r)) in
      bind-Ends Q _ _ _ s
        (bind_get R _ s (
          bind_expect R _ _ _ s (λ _. stopped _ refl)
            λ r found.
              bind_guard R _ _ _ s (λ _. stopped _ refl)
                λ mine.
                  bind_guard R _ _ _ s (λ _. stopped _ refl)
                    λ taken.
                      end_expect R _ _ s (λ _. stopped _ refl)
                        λ b there. finished b s refl (
                          shelf db book_id request_id s there,
                          refl,
                          (
                            r,
                            target db book_id request_id s found,
                            (is_accepted_iff r.status taken, mine),
                          ),
                        )))
        (λ e. stopped e refl)
        λ b s' (h, same, (r, t, by)). rw same (
          finished b _ refl (record {
            held = r;
            book = b;
            target = t;
            shelf = h;
            before = by;
            requests = refl;
            books = refl;
          }))

  -- A confirmation of a handover either fails and leaves the desk as it was, or the caller is the
  -- requester of an accepted request, and the call has marked it completed and its book donated
  -- and changed no other request or book.
  pub complete-Ends : Ends s (λ _ s'. Completed s') (complete db now book_id request_id user_id s)
  unfolding complete send modify
  complete-Ends =
      bind-Ends (Ends s (λ _ s'. Completed s')) _ _ _ s (transaction-Ends _ _ s complete_body-Ends)
        (λ e. stopped e refl) (λ b s' w. finished tt _ refl (sent w _))

  abbrev Cancelled : Desk → Type 0
  Cancelled = HasMoved db book_id request_id (cancel_row now) available (ByEither user_id) s

  cancel_body-Ends : Ends s (λ _ s'. Cancelled s') (cancel_body db now book_id request_id user_id s)
  unfolding cancel_body pure
  cancel_body-Ends =
      let Q : Outcome Desk (String × ℕ) → Type 0 = Ends s (λ _ s'. Cancelled s') in
      bind_get Q _ s (
        bind_expect Q _ _ _ s (λ _. stopped _ refl)
          λ r found.
            bind_expect Q _ _ _ s (λ _. stopped _ refl)
              λ b there.
                bind_guard Q _ _ _ s (λ _. stopped _ refl)
                  λ mine.
                    bind_guard Q _ _ _ s (λ _. stopped _ refl)
                      λ live. bind_modify Q _ _ s (
                        bind_modify Q _ _ _ (
                          finished _ _ refl (record {
                            held = r;
                            book = b;
                            target = target db book_id request_id s found;
                            shelf = shelf db book_id request_id s there;
                            before = (is_open_iff r.status live, mine);
                            requests = refl;
                            books = refl;
                          }))))

  -- A cancellation either fails and leaves the desk as it was, or the caller is the requester or
  -- the donor of a pending or accepted request, and the call has marked it cancelled and its book
  -- available and changed no other request or book.
  pub cancel-Ends : Ends s (λ _ s'. Cancelled s') (cancel db now book_id request_id user_id s)
  unfolding cancel send modify
  cancel-Ends =
      bind-Ends (Ends s (λ _ s'. Cancelled s')) _ _ _ s (transaction-Ends _ _ s cancel_body-Ends)
        (λ e. stopped e refl) (λ b s' w. finished tt _ refl (sent w _))

  abbrev pub Declinable : Book × BookRequest → Desk → Type 0
  Declinable found s' =
      (s' ≡ s)
      × (IsBook s.books book_id found.0
          × (IsTarget s.requests book_id request_id found.1
              × ((found.1.status ≡ pending) × ((found.0.donor_id == user_id) ≡ true))))

  pub decline_checks-Ends : Ends s Declinable (decline_checks db book_id request_id user_id s)
  unfolding decline_checks pure
  decline_checks-Ends =
      let Q : Outcome Desk (Book × BookRequest) → Type 0 = Ends s Declinable in
      bind_get Q _ s (
        bind_expect Q _ _ _ s (λ _. stopped _ refl)
          λ b there.
            bind_guard Q _ _ _ s (λ _. stopped _ refl)
              λ mine.
                bind_expect Q _ _ _ s (λ _. stopped _ refl)
                  λ r found.
                    bind_guard Q _ _ _ s (λ _. stopped _ refl)
                      λ taken.
                        finished (b, r) s refl
                          (
                            refl,
                            (
                              shelf db book_id request_id s there,
                              (
                                target db book_id request_id s found,
                                (is_pending_iff r.status taken, mine),
                              ),
                            ),
                          ))
