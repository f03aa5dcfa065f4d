-- ===== src/Books/Handover.antt =====
-- BooksService.cancel, complete and expireStaleReservations, with the hourly BooksScheduler. The
-- sweep is in two parts: the rows that it fetched, and the release of each, since other calls run
-- between them.
use itc_sharing_backend.Base.{
  ℕ, ◌+◌, ◌*◌, Bool, false, ◌&&◌, ◌||◌, String, Option, none, some, List, [], ◌∷◌, ◌==◌, ltb,
  if◌then◌else◌, length, Orm, M, pure, get, guard, expect, modify, transaction, not_found,
  forbidden, bad_request, ◌>>=◌, ◌>>◌, joined,
}
use itc_sharing_backend.Books.Types.{
  BookStatus, available, donated, RequestStatus, cancelled, expired, completed, Book, BookRequest,
  Notice, Desk, to_book, to_request, is_pending, is_accepted, is_completed, send,
}
use itc_sharing_backend.Books.Requests.{put_requests, put_books}

abbrev pub cancel_row : ℕ → BookRequest → BookRequest
cancel_row now r = record r { status = cancelled; resolved_at = some now; cancelled_at = some now }

abbrev pub complete_row : ℕ → BookRequest → BookRequest
complete_row now r = record r { status = completed; completed_at = some now }

abbrev pub expire_row : ℕ → BookRequest → BookRequest
expire_row now r = record r { status = expired; resolved_at = some now; expired_at = some now }

abbrev pub with_status : BookStatus → Book → Book
with_status st b = record b { status = st }

unfoldable pub not_accepted : RequestStatus → String
unfolding is_completed
not_accepted st =
    if is_completed st
    then "This handover is already confirmed"
    else "This request has not been accepted"

-- RESERVATION_DAYS, in milliseconds.
abbrev pub reservation_ms : ℕ
reservation_ms = 3 * 24 * 60 * 60 * 1000

-- `accepted_at < now - window`, with the window on the other side.
abbrev pub is_overdue : ℕ → Option ℕ → Bool
is_overdue now none = false
is_overdue now (some t) = ltb (t + reservation_ms) now

module _ (db : Orm) where
  -- The transaction of `cancel`; it ends with the title and whom to tell.
  unfoldable pub cancel_body : ℕ → ℕ → ℕ → ℕ → M Desk (String × ℕ)
  cancel_body now book_id request_id user_id = do
    s ← get
    req ←
        expect
          (db.find_one (λ (r : BookRequest). r.id == request_id && r.book_id == book_id) s.requests)
          (not_found "Request not found")
    book ← expect (db.find_one (λ (b : Book). b.id == book_id) s.books) (not_found "Book not found")
    guard (req.requester_id == user_id || book.donor_id == user_id)
        (forbidden "This is not your request")
    guard (is_pending req.status || is_accepted req.status)
        (bad_request "This request is no longer active")
    modify (λ d. put_requests (db.update (λ r. r.id == request_id) (cancel_row now) d.requests) d)
    modify (λ d. put_books (db.update (λ b. b.id == book_id) (with_status available) d.books) d)
    pure (book.title, if req.requester_id == user_id then book.donor_id else req.requester_id)

  unfoldable pub cancel : ℕ → ℕ → ℕ → ℕ → M Desk (Unit {0})
  cancel now book_id request_id user_id = do
    told ← transaction (cancel_body now book_id request_id user_id)
    send (record {
      user_id = told.1;
      kind = "book_request_cancelled";
      message =
          joined (
            "The handover for \"" ∷ told.0 ∷ "\" was cancelled. The book is available again." ∷ []);
      key = "bookHandoverCancelled";
      ref_id = book_id;
      ref_type = to_book;
    })

  -- The reads of `complete`, which end with the book: its request is read before the book is locked.
  unfoldable pub complete_checks : ℕ → ℕ → ℕ → M Desk Book
  unfolding is_accepted
  complete_checks book_id request_id user_id = do
    s ← get
    req ←
        expect
          (db.find_one (λ (r : BookRequest). r.id == request_id && r.book_id == book_id) s.requests)
          (not_found "Request not found")
    guard (req.requester_id == user_id)
        (forbidden "Only the person receiving the book can confirm this")
    guard (is_accepted req.status) (bad_request (not_accepted req.status))
    expect (db.find_one (λ (b : Book). b.id == book_id) s.books) (not_found "Book not found")

  unfoldable pub complete_body : ℕ → ℕ → ℕ → ℕ → M Desk Book
  complete_body now book_id request_id user_id = do
    book ← complete_checks book_id request_id user_id
    modify (λ d. put_requests (db.update (λ r. r.id == request_id) (complete_row now) d.requests) d)
    modify (λ d. put_books (db.update (λ b. b.id == book_id) (with_status donated) d.books) d)
    pure book

  unfoldable pub complete : ℕ → ℕ → ℕ → ℕ → M Desk (Unit {0})
  complete now book_id request_id user_id = do
    book ← transaction (complete_body now book_id request_id user_id)
    send (record {
      user_id = book.donor_id;
      kind = "book_received";
      message = joined (
          "Your book \"" ∷ book.title ∷ "\" has been received. Thank you for giving it a new life!"
          ∷ []);
      key = "bookReceived";
      ref_id = request_id;
      ref_type = to_request;
    })

  -- The inner join of the sweep's query.
  unfoldable pub join_books : List Book → List BookRequest → List (BookRequest × Book)
  join_books books [] = []
  join_books books (r ∷ rs) =
      let rest = join_books books rs in
      elim (db.find_one (λ (b : Book). b.id == r.book_id) books) [
        | none ↦ rest
        | some b ↦ (r, b) ∷ rest
      ]

  unfoldable pub stale : ℕ → Desk → List (BookRequest × Book)
  unfolding join_books is_accepted
  stale now s = join_books s.books (
      db.find (λ (r : BookRequest). is_accepted r.status && is_overdue now r.accepted_at)
        s.requests)

  abbrev pub expiry_notice : Book → ℕ → ℕ → Notice
  expiry_notice book book_id user_id = record {
    user_id = user_id;
    kind = "book_reservation_expired";
    message = joined (
        "The reservation for \"" ∷ book.title ∷ "\" has expired. The book is available again."
        ∷ []);
    key = "bookReservationExpired";
    ref_id = book_id;
    ref_type = to_book;
  }

  -- One round of the sweep's loop.
  unfoldable pub release : ℕ → BookRequest × Book → M Desk (Unit {0})
  release now (req, book) = do
    modify (λ d. put_requests (db.update (λ r. r.id == req.id) (expire_row now) d.requests) d)
    modify (λ d. put_books (db.update (λ b. b.id == req.book_id) (with_status available) d.books) d)
    send (expiry_notice book req.book_id req.requester_id)
    send (expiry_notice book req.book_id book.donor_id)

  unfoldable pub release_all : ℕ → List (BookRequest × Book) → M Desk (Unit {0})
  release_all now [] = pure tt
  release_all now (row ∷ rows) = do release now row; release_all now rows

  unfoldable pub expire_stale : ℕ → M Desk ℕ
  expire_stale now = do s ← get; let rows = stale now s; release_all now rows; pure (length rows)
