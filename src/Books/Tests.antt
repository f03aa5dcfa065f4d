-- ===== src/Books/Tests.antt =====
-- The desk on concrete rows: tests of the handlers, and the theorems at inputs that meet their
-- hypotheses.
use itc_sharing_backend.Base.{
  Ends, ℕ, ◌≡◌, ◌≤◌, refl, true, none, some, List, [], ◌∷◌, ◌==◌, arith, count, All, here, fail,
  after, ◌>>=◌, ◌>>◌, pure, get, modify, guard, expect, transaction, bad_request,
}
use itc_sharing_backend.Samples.{list_orm}
use itc_sharing_backend.Books.Types.{
  BookStatus, available, reserved, donated, Book, BookRequest, Account, Desk, is_pending,
  is_accepted, is_completed, is_active, is_available, send,
}
use itc_sharing_backend.Books.Requests.{
  new_request, request_checks, request, accept_row, accept_body, accept, decline_rivals,
  tell_accepted, tell_losers, has_telegram, decline_checks, decline_write,
}
use itc_sharing_backend.Books.Handover.{
  complete_checks, complete_body, complete, release, complete_row, cancel, cancel_row,
}
use itc_sharing_backend.Books.Consistency.{Consistent}
use itc_sharing_backend.Books.Listing.{CreateBook}
use itc_sharing_backend.Books.Desk.{
  Call, requests, accepts, completes, step, run, opening, run-Consistent, step-Consistent,
}
use itc_sharing_backend.Books.Moves.{HasMoved, ByReceiver, ByEither, complete-Ends, cancel-Ends}
use itc_sharing_backend.Books.Consistency.Accepting.{Accepted, accept-Ends}
use itc_sharing_backend.Books.Races.{NoneHolds, decline_after-accept, release-after-complete}

abbrev ann : Account
ann = record { id = 1; first_name = "Ann"; last_name = "Sok"; telegram = some "@ann_sok" }

abbrev bob : Account
bob = record { id = 2; first_name = "Bob"; last_name = "Chan"; telegram = none }

abbrev book : BookStatus → Book
book st = record {
  id = 10;
  donor_id = 1;
  major_id = none;
  title = "Calculus";
  description = none;
  cover_image_url = none;
  status = st;
  hidden_at = none;
  created_at = 5;
}

abbrev asked : BookRequest
asked = new_request 100 7 10 2 none

abbrev desk_with : BookStatus → List BookRequest → Desk
desk_with st rs = record {
  users = ann ∷ bob ∷ [];
  books = book st ∷ [];
  requests = rs;
  notifications = [];
  outbox = [];
}

abbrev waiting : Desk
waiting = desk_with available (asked ∷ [])

abbrev held : Desk
held = desk_with reserved (accept_row 8 asked ∷ [])

unique_one : (r : BookRequest) (x : ℕ) → count (λ q. q.id == x) (r ∷ []) ≤ 1
unique_one r x = ground arith

waiting-Consistent : Consistent waiting
unfolding is_pending is_accepted is_completed
waiting-Consistent = record {
  shelf = (omega arith, tt);
  unique = unique_one asked;
  linked = (refl, tt);
}

held-Consistent : Consistent held
unfolding is_pending is_accepted is_completed
held-Consistent = record {
  shelf = (omega arith, tt);
  unique = unique_one (accept_row 8 asked);
  linked = (refl, tt);
}

-- A second request is refused while the first is open.
request_twice :
    request list_orm 101 9 10 2 none waiting
    ≡ fail (bad_request "This book already has an active request") waiting
unfolding request request_checks ◌>>=◌ ◌>>◌ get expect guard is_active
request_twice = refl

step-Consistent_example : Consistent (step list_orm (accepts 8 10 100 1) waiting)
step-Consistent_example = step-Consistent list_orm (accepts 8 10 100 1) waiting waiting-Consistent

abbrev history : List Call
history = requests 100 7 10 2 none ∷ accepts 8 10 100 1 ∷ completes 9 10 100 2 ∷ []

run-Consistent_example : Consistent (run list_orm history (opening (ann ∷ bob ∷ [])))
run-Consistent_example = run-Consistent list_orm (ann ∷ bob ∷ []) history

decline_after-accept_example :
    let s2 = after (
      decline_write list_orm 9 100 "no"
        (book available, asked)
        (after (accept list_orm 8 10 100 1 waiting))) in
    (reserved ≡ reserved) × NoneHolds s2.requests 10
unfolding accept accept_body decline_rivals tell_accepted tell_losers has_telegram decline_checks
    decline_write transaction ◌>>=◌ ◌>>◌ get expect guard modify pure send is_available is_pending
decline_after-accept_example =
    decline_after-accept list_orm 10 100 waiting (after (accept list_orm 8 10 100 1 waiting))
      waiting-Consistent 8 9 1 "no" (book available, asked) refl refl (book reserved) here refl

release-after-complete_example :
    let s2 = after (
      release list_orm 9
        (accept_row 8 asked, book reserved)
        (after (complete list_orm 9 10 100 2 held))) in
    (donated ≡ donated)
    × NoneHolds s2.requests 10
    × All (λ c. (c.id == 10) ≡ true → c.status ≡ available) s2.books
unfolding complete complete_body complete_checks transaction ◌>>=◌ ◌>>◌ get expect guard modify pure
    send is_accepted
release-after-complete_example =
    release-after-complete list_orm 9 9 2 (accept_row 8 asked, book reserved) held
      (after (complete list_orm 9 10 100 2 held)) held-Consistent refl
      (record { occurs = here; hit = refl; own = refl }) refl (book donated) here refl

abbrev calculus : CreateBook
calculus = record {
  title = "Calculus";
  department = none;
  description = none;
  cover_image_url = "c";
}

complete-Ends_example :
    Ends held
      (λ _ s'. HasMoved list_orm 10 100 (complete_row 9) donated (ByReceiver 2) held s')
      (complete list_orm 9 10 100 2 held)
complete-Ends_example = complete-Ends list_orm 9 10 100 2 held

cancel-Ends_example :
    Ends held
      (λ _ s'. HasMoved list_orm 10 100 (cancel_row 9) available (ByEither 1) held s')
      (cancel list_orm 9 10 100 1 held)
cancel-Ends_example = cancel-Ends list_orm 9 10 100 1 held

accept-Ends_example :
    Ends waiting
      (λ _ s'. Accepted list_orm 8 10 100 1 waiting waiting-Consistent s')
      (accept list_orm 8 10 100 1 waiting)
accept-Ends_example = accept-Ends list_orm 8 10 100 1 waiting waiting-Consistent
