-- ===== src/Books/Desk.antt =====
-- The desk as a whole: the calls that the controllers, the scheduler and the admin make, each run to
-- its end, and the states that they reach.
use itc_sharing_backend.Base.{ℕ, Bool, String, Option, List, [], ◌∷◌, arith, Orm, after}
use itc_sharing_backend.Books.Types.{Desk, Account}
use itc_sharing_backend.Books.Listing
use itc_sharing_backend.Books.Listing.{
  CreateBook, UpdateBook, donate, remove, set_book_hidden, delete_book,
}
use itc_sharing_backend.Books.Requests.{request, accept, decline}
use itc_sharing_backend.Books.Handover.{cancel, complete, expire_stale}
use itc_sharing_backend.Books.Consistency.{Consistent}
use itc_sharing_backend.Books.Consistency.Steps.{
  complete-Consistent, cancel-Consistent, decline-Consistent,
}
use itc_sharing_backend.Books.Consistency.Accepting.{accept-Consistent}
use itc_sharing_backend.Books.Consistency.Asking.{request-Consistent}
use itc_sharing_backend.Books.Consistency.Listing.{
  donate-Consistent, update-Consistent, remove-Consistent, delete_book-Consistent,
  set_book_hidden-Consistent,
}
use itc_sharing_backend.Books.Consistency.Sweep.{expire_stale-Consistent}

-- Each call carries the moment at which it runs, and a new row its identifier.
pub data Call : Type 0 where
  donates : (majors : List ℕ) (id now donor_id : ℕ) → CreateBook → Call
  updates : (majors : List ℕ) (id user_id : ℕ) → UpdateBook → Call
  removes : (id user_id : ℕ) → Call
  hides : (now id : ℕ) → Bool → Call
  deletes : (id : ℕ) → Call
  requests : (id now book_id requester_id : ℕ) → Option String → Call
  accepts : (now book_id request_id user_id : ℕ) → Call
  declines : (now book_id request_id user_id : ℕ) → String → Call
  cancels : (now book_id request_id user_id : ℕ) → Call
  completes : (now book_id request_id user_id : ℕ) → Call
  sweeps : (now : ℕ) → Call

module _ (db : Orm) where
  unfoldable pub step : Call → Desk → Desk
  step (donates majors id now donor_id dto) s = after (donate db majors id now donor_id dto s)
  step (updates majors id user_id dto) s = after (Listing.update db majors id user_id dto s)
  step (removes id user_id) s = after (remove db id user_id s)
  step (hides now id hidden) s = after (set_book_hidden db now id hidden s)
  step (deletes id) s = after (delete_book db id s)
  step (requests id now book_id requester_id message) s =
      after (request db id now book_id requester_id message s)
  step (accepts now book_id request_id user_id) s =
      after (accept db now book_id request_id user_id s)
  step (declines now book_id request_id user_id reason) s =
      after (decline db now book_id request_id user_id reason s)
  step (cancels now book_id request_id user_id) s =
      after (cancel db now book_id request_id user_id s)
  step (completes now book_id request_id user_id) s =
      after (complete db now book_id request_id user_id s)
  step (sweeps now) s = after (expire_stale db now s)

  unfoldable pub run : List Call → Desk → Desk
  run [] s = s
  run (c ∷ cs) s = run cs (step c s)

  -- Every call, failed or not, keeps the tables consistent: each book's status says what its
  -- requests say, identifiers of requests are unique, and no request lacks its book.
  pub step-Consistent : (c : Call) (s : Desk) → Consistent s → Consistent (step c s)
  unfolding step
  step-Consistent (donates majors id now donor_id dto) s v =
      donate-Consistent db s v majors id now donor_id dto
  step-Consistent (updates majors id user_id dto) s v =
      update-Consistent db s v majors id user_id dto
  step-Consistent (removes id user_id) s v = remove-Consistent db s v id user_id
  step-Consistent (hides now id hidden) s v = set_book_hidden-Consistent db s v now id hidden
  step-Consistent (deletes id) s v = delete_book-Consistent db s v id
  step-Consistent (requests id now book_id requester_id message) s v =
      request-Consistent db s v id now book_id requester_id message
  step-Consistent (accepts now book_id request_id user_id) s v =
      accept-Consistent db now book_id request_id user_id s v
  step-Consistent (declines now book_id request_id user_id reason) s v =
      decline-Consistent db now book_id request_id user_id s v reason
  step-Consistent (cancels now book_id request_id user_id) s v =
      cancel-Consistent db now book_id request_id user_id s v
  step-Consistent (completes now book_id request_id user_id) s v =
      complete-Consistent db now book_id request_id user_id s v
  step-Consistent (sweeps now) s v = expire_stale-Consistent db now s v

  run-keeps : (cs : List Call) (s : Desk) → Consistent s → Consistent (run cs s)
  unfolding run
  run-keeps [] s v = v
  run-keeps (c ∷ cs) s v = run-keeps cs (step c s) (step-Consistent c s v)

abbrev pub opening : List Account → Desk
opening users = record { users = users; books = []; requests = []; notifications = []; outbox = [] }

opening-Consistent : (users : List Account) → Consistent (opening users)
opening-Consistent users = record { shelf = tt; unique = λ x. omega arith; linked = tt }

-- From a desk with no books, any history of calls, each run to its end, leads to consistent tables.
pub run-Consistent :
    (db : Orm) (users : List Account) (cs : List Call) → Consistent (run db cs (opening users))
run-Consistent db users cs = run-keeps db cs (opening users) (opening-Consistent users)
