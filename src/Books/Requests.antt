-- ===== src/Books/Requests.antt =====
-- BooksService.request, accept and decline. The clock and the identifier that the database draws
-- are arguments. `decline` is in two parts, since another call may run between its reads and its
-- write; `accept` runs under a transaction that locks the book.
use itc_sharing_backend.Base.{
  ℕ, Bool, false, not, ◌&&◌, String, Option, none, some, List, [], ◌∷◌, ◌==◌, if◌then◌else◌, Orm, M,
  pure, get, guard, expect, modify, transaction, not_found, forbidden, bad_request, ◌>>=◌, ◌>>◌,
  trim, joined,
}
use itc_sharing_backend.Books.Types.{
  BookStatus, reserved, pending, accepted, declined, Book, BookRequest, Account, Desk, to_book,
  to_request, is_available, is_reserved, is_pending, is_declined, is_active, is_some, is_filled,
  insert_request, send,
}

unfoldable pub not_available : BookStatus → String
unfolding is_reserved
not_available st =
    if is_reserved st then "This book is reserved for someone else" else "Book is not available"

unfoldable pub already_taken : BookStatus → String
unfolding is_reserved
already_taken st =
    if is_reserved st then "This book is already reserved" else "This book has already been donated"

unfoldable pub full_name : Option Account → String
full_name (some a) = joined (a.first_name ∷ " " ∷ a.last_name ∷ [])
full_name none = "Someone"

abbrev pub new_request : ℕ → ℕ → ℕ → ℕ → Option String → BookRequest
new_request id now book_id requester_id message = record {
  id = id;
  book_id = book_id;
  requester_id = requester_id;
  message = message;
  status = pending;
  requested_at = now;
  resolved_at = none;
  accepted_at = none;
  completed_at = none;
  cancelled_at = none;
  expired_at = none;
  decline_reason = none;
}

abbrev pub accept_row : ℕ → BookRequest → BookRequest
accept_row now r = record r { status = accepted; resolved_at = some now; accepted_at = some now }

abbrev pub decline_row : ℕ → String → BookRequest → BookRequest
decline_row now reason r = record r {
  status = declined;
  resolved_at = some now;
  decline_reason = some reason;
}

abbrev pub title_or : Option Book → String → String
title_or (some b) other = b.title
title_or none other = other

abbrev pub put_requests : List BookRequest → Desk → Desk
put_requests t d = record d { requests = t }

abbrev pub put_books : List Book → Desk → Desk
put_books t d = record d { books = t }

module _ (db : Orm) where
  -- The reads of `request`; they end with the book.
  unfoldable pub request_checks : ℕ → ℕ → M Desk Book
  unfolding is_available
  request_checks book_id requester_id = do
    s ← get
    book ← expect (db.find_one (λ (b : Book). b.id == book_id) s.books) (not_found "Book not found")
    guard (not (is_some book.hidden_at)) (not_found "Book not found")
    guard (is_available book.status) (bad_request (not_available book.status))
    guard (not (book.donor_id == requester_id)) (forbidden "You cannot request your own book")
    guard
        (not (
          is_some (
            db.find_one (λ (r : BookRequest). r.book_id == book_id && is_active r.status)
              s.requests)))
        (bad_request "This book already has an active request")
    guard
        (not (
          is_some (
            db.find_one
              (λ (r : BookRequest).
                r.book_id == book_id && r.requester_id == requester_id && is_declined r.status)
              s.requests)))
        (forbidden "You cannot request this book again — the owner declined your earlier request")
    pure book

  unfoldable pub request : ℕ → ℕ → ℕ → ℕ → Option String → M Desk BookRequest
  request id now book_id requester_id message = do
    book ← request_checks book_id requester_id
    s ← get
    let name = full_name (db.find_one (λ (u : Account). u.id == requester_id) s.users)
    insert_request (new_request id now book_id requester_id message)
    send (record {
      user_id = book.donor_id;
      kind = "book_request";
      message = joined (name ∷ " requested your book \"" ∷ book.title ∷ "\"." ∷ []);
      key = "bookRequest";
      ref_id = id;
      ref_type = to_request;
    })
    pure (new_request id now book_id requester_id message)

  -- The loop over the rivals: every one but the accepted request is declined.
  unfoldable pub decline_rivals : ℕ → ℕ → List BookRequest → M Desk (List ℕ)
  decline_rivals request_id now [] = pure []
  decline_rivals request_id now (rival ∷ rivals) =
      let others = decline_rivals request_id now rivals in
      if rival.id == request_id then others else (do
        modify (λ d.
            put_requests
              (db.update (λ r. r.id == rival.id)
                (decline_row now "The book was given to someone else") d.requests)
              d)
        losers ← others
        pure (rival.requester_id ∷ losers))

  unfoldable pub accept_body : ℕ → ℕ → ℕ → ℕ → M Desk (List ℕ)
  accept_body now book_id request_id user_id = do
    s ← get
    book ← expect (db.find_one (λ (b : Book). b.id == book_id) s.books) (not_found "Book not found")
    guard (book.donor_id == user_id) (forbidden "Only the donor can accept requests")
    guard (is_available book.status) (bad_request (already_taken book.status))
    req ←
        expect
          (db.find_one (λ (r : BookRequest). r.id == request_id && r.book_id == book_id) s.requests)
          (not_found "Request not found")
    guard (is_pending req.status) (bad_request "Request is no longer pending")
    modify (λ d. put_requests (db.update (λ r. r.id == request_id) (accept_row now) d.requests) d)
    modify (λ d.
        put_books (db.update (λ b. b.id == book_id) (λ b. record b { status = reserved }) d.books)
          d)
    s' ← get
    decline_rivals request_id now
        (db.find (λ (r : BookRequest). r.book_id == book_id && is_pending r.status) s'.requests)

  unfoldable pub tell_losers : ℕ → String → List ℕ → M Desk (Unit {0})
  tell_losers book_id title [] = pure tt
  tell_losers book_id title (loser ∷ losers) = do
    send (record {
      user_id = loser;
      kind = "book_declined";
      message =
          joined
            ("\"" ∷ title ∷ "\" is no longer available. It was given to another student." ∷ []);
      key = "bookGivenToAnother";
      ref_id = book_id;
      ref_type = to_book;
    })
    tell_losers book_id title losers

  unfoldable pub tell_accepted : ℕ → String → Option BookRequest → M Desk (Unit {0})
  tell_accepted request_id title none = pure tt
  tell_accepted request_id title (some req) = send (record {
    user_id = req.requester_id;
    kind = "book_accepted";
    message = joined (
        "Your request for \"" ∷ title
        ∷ "\" was accepted! Contact the book owner on Telegram to arrange the handover." ∷ []);
    key = "bookAccepted";
    ref_id = request_id;
    ref_type = to_request;
  })

  unfoldable pub has_telegram : Option Account → Bool
  has_telegram none = false
  has_telegram (some u) = is_filled u.telegram

  unfoldable pub accept : ℕ → ℕ → ℕ → ℕ → M Desk (Unit {0})
  accept now book_id request_id user_id = do
    s ← get
    guard (has_telegram (db.find_one (λ (u : Account). u.id == user_id) s.users))
        (bad_request "Add your Telegram to your profile before accepting a request")
    losers ← transaction (accept_body now book_id request_id user_id)
    s' ← get
    let book = db.find_one (λ (b : Book). b.id == book_id) s'.books
    tell_accepted request_id (title_or book "a book")
        (db.find_one (λ (r : BookRequest). r.id == request_id) s'.requests)
    tell_losers book_id (title_or book "A book") losers

  -- The reads of `decline`; they end with the book and the request.
  unfoldable pub decline_checks : ℕ → ℕ → ℕ → M Desk (Book × BookRequest)
  decline_checks book_id request_id user_id = do
    s ← get
    book ← expect (db.find_one (λ (b : Book). b.id == book_id) s.books) (not_found "Book not found")
    guard (book.donor_id == user_id) (forbidden "Only the donor can decline requests")
    req ←
        expect
          (db.find_one (λ (r : BookRequest). r.id == request_id && r.book_id == book_id) s.requests)
          (not_found "Request not found")
    guard (is_pending req.status) (bad_request "Request is no longer pending")
    pure (book, req)

  unfoldable pub decline_write : ℕ → ℕ → String → Book × BookRequest → M Desk (Unit {0})
  decline_write now request_id reason (book, req) = do
    modify (λ d.
        put_requests
          (db.update (λ r. r.id == request_id) (decline_row now (trim reason)) d.requests) d)
    send (record {
      user_id = req.requester_id;
      kind = "book_declined";
      message = joined ("Your request for \"" ∷ book.title ∷ "\" was declined." ∷ []);
      key = "bookDeclined";
      ref_id = request_id;
      ref_type = to_request;
    })

  unfoldable pub decline : ℕ → ℕ → ℕ → ℕ → String → M Desk (Unit {0})
  decline now book_id request_id user_id reason = do
    found ← decline_checks book_id request_id user_id
    decline_write now request_id reason found
