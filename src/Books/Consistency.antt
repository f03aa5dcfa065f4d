-- ===== src/Books/Consistency.antt =====
-- What ties the status of a book to the requests for it, and how one request moves.
pub mod Moving
pub mod Steps
pub mod Accepting
pub mod Asking
pub mod Listing
pub mod Sweep
use itc_sharing_backend.Base.{
  ℕ, ◌+◌, ◌≤◌, ◌≡◌, refl, Bool, true, false, ◌&&◌, List, map, ◌==◌, arith, bit, any, count, All,
  patch, Occurs, count-patch_one, count-patch_same, count_pos_at, count-patch_none, ==_iff,
}
use itc_sharing_backend.Books.Types.{
  BookStatus, available, reserved, donated, RequestStatus, pending, accepted, declined, cancelled,
  expired, completed, Book, BookRequest, Desk, is_pending, is_accepted, is_completed, is_active,
}

abbrev pub of_book : (RequestStatus → Bool) → ℕ → BookRequest → Bool
of_book is k r = r.book_id == k && is r.status

-- The statuses that the numbers of pending, accepted and completed requests allow.
abbrev pub Fits : BookStatus → ℕ → ℕ → ℕ → Type 0
Fits available p a c = (p ≤ 1) × (a ≡ 0) × (c ≡ 0)
Fits reserved p a c = (p ≡ 0) × (a ≡ 1) × (c ≡ 0)
Fits donated p a c = (p ≡ 0) × (a ≡ 0) × (c ≡ 1)

abbrev pub FitsAt : List BookRequest → ℕ → BookStatus → Type 0
FitsAt rs k st =
    Fits st (count (of_book is_pending k) rs) (count (of_book is_accepted k) rs)
      (count (of_book is_completed k) rs)

abbrev pub Agrees : List BookRequest → Book → Type 0
Agrees rs b = FitsAt rs b.id b.status

-- The tables agree: the status of each book with its requests, identifiers with at most one request
-- each, and each request with a book that is there.
pub record IsConsistent (books : List Book) (requests : List BookRequest) : Type 0 where
  pub shelf : All (Agrees requests) books
  pub unique : (x : ℕ) → count (λ r. r.id == x) requests ≤ 1
  pub linked : All (λ r. any (λ b. b.id == r.book_id) books ≡ true) requests

abbrev pub Consistent : Desk → Type 0
Consistent s = IsConsistent s.books s.requests

-- A request may go from one status to another where the book goes to `st'`.
abbrev pub Moves : RequestStatus → RequestStatus → BookStatus → Type 0
Moves from to st' =
    (st : BookStatus) (p a c p' a' c' : ℕ)
    → Fits st p a c
    → bit (is_pending from) ≤ p
    → bit (is_accepted from) ≤ a
    → p' + bit (is_pending from) ≡ p + bit (is_pending to)
    → a' + bit (is_accepted from) ≡ a + bit (is_accepted to)
    → c' + bit (is_completed from) ≡ c + bit (is_completed to)
    → Fits st' p' a' c'

pub accept-Moves : Moves pending accepted reserved
unfolding is_pending is_accepted is_completed
accept-Moves st p a c p' a' c' h = ground arith

pub complete-Moves : Moves accepted completed donated
unfolding is_pending is_accepted is_completed
complete-Moves st p a c p' a' c' h = ground arith

pub expire-Moves : Moves accepted expired available
unfolding is_pending is_accepted is_completed
expire-Moves st p a c p' a' c' h = ground arith

pub decline-Moves : Moves pending declined available
unfolding is_pending is_accepted is_completed
decline-Moves st p a c p' a' c' h = ground arith

pub cancel-Moves : (from : RequestStatus) → is_active from ≡ true → Moves from cancelled available
unfolding is_pending is_accepted is_completed is_active
cancel-Moves pending e st p a c p' a' c' h = ground arith
cancel-Moves accepted e st p a c p' a' c' h = ground arith
cancel-Moves declined e st p a c p' a' c' h = cc
cancel-Moves cancelled e st p a c p' a' c' h = cc
cancel-Moves expired e st p a c p' a' c' h = cc
cancel-Moves completed e st p a c p' a' c' h = cc

-- The update of one request, by its identifier.
module _ (x : ℕ) {r : BookRequest} {rs : List BookRequest} (f : BookRequest → BookRequest)
    (o : Occurs r rs) (hit : (r.id == x) ≡ true) (one : count (λ q. q.id == x) rs ≤ 1)
    (to : RequestStatus) (f_status : (q : BookRequest) → (f q).status ≡ to)
    (f_book : (q : BookRequest) → (f q).book_id ≡ q.book_id) where
  pub counted :
      (is : RequestStatus → Bool) (k : ℕ)
      → count (of_book is k) (map (patch (λ q. q.id == x) f) rs)
          + bit (r.book_id == k && is r.status)
        ≡ count (of_book is k) rs + bit (r.book_id == k && is to)
  counted is k =
      ground
        (arith, count-patch_one (of_book is k) (λ q. q.id == x) f o hit one, f_status r, f_book r)

  -- The book of the request gets the status that the move asks for.
  pub Agrees-own :
      (b : Book) (st' : BookStatus)
      → Moves r.status to st'
      → (b.id == r.book_id) ≡ true
      → Agrees rs b
      → FitsAt (map (patch (λ q. q.id == x) f) rs) b.id st'
  Agrees-own b st' move e a =
      move b.status (count (of_book is_pending b.id) rs) (count (of_book is_accepted b.id) rs)
        (count (of_book is_completed b.id) rs) _ _ _ a
        (ground (arith, count_pos_at (of_book is_pending b.id) o))
        (ground (arith, count_pos_at (of_book is_accepted b.id) o))
        (ground (arith, counted is_pending b.id)) (ground (arith, counted is_accepted b.id))
        (ground (arith, counted is_completed b.id))

  -- Every other book keeps its own.
  pub Agrees-other :
      (b : Book)
      → (b.id == r.book_id) ≡ false
      → Agrees rs b
      → Agrees (map (patch (λ q. q.id == x) f) rs) b
  Agrees-other b e a =
      ground (arith, counted is_pending b.id, counted is_accepted b.id, counted is_completed b.id)
