-- ===== src/Books/Consistency/Steps.antt =====
-- Proofs on the handlers of a handover, run to their ends, with the invariant of
-- Books.Consistency.
use itc_sharing_backend.Base.{
  ℕ, ◌≡◌, refl, true, ◌==◌, arith, count_pos_at, Orm, Outcome, after, String, trim, ◌>>◌, modify,
  bind-Ends, Ends, stopped, finished,
}
use itc_sharing_backend.Books.Types.{
  BookStatus, available, donated, RequestStatus, pending, declined, cancelled, completed, Book,
  BookRequest, Desk, is_pending, send,
}
use itc_sharing_backend.Books.Requests.{decline_write, decline, decline_row}
use itc_sharing_backend.Books.Handover.{with_status, cancel, cancel_row, complete, complete_row}
use itc_sharing_backend.Books.Moves.{
  IsTarget, HasMoved, complete-Ends, cancel-Ends, decline_checks-Ends,
}
use itc_sharing_backend.Books.Consistency.{
  IsConsistent, Consistent, of_book, complete-Moves, cancel-Moves, decline-Moves, Moves, Agrees,
}
use itc_sharing_backend.Books.Consistency.Moving.{move-IsConsistent, stay-IsConsistent}

module _ (db : Orm) (book_id request_id : ℕ) (s : Desk) where
  pub moved :
      (f : BookRequest → BookRequest) (to : RequestStatus) (r : BookRequest)
      → ((q : BookRequest) → (f q).status ≡ to)
      → ((q : BookRequest) → (f q).book_id ≡ q.book_id)
      → ((q : BookRequest) → (f q).id ≡ q.id)
      → Consistent s
      → IsTarget s.requests book_id request_id r
      → (st' : BookStatus) → Moves r.status to st'
      → IsConsistent
          (db.update (λ b. b.id == book_id) (with_status st') s.books)
          (db.update (λ q. q.id == request_id) f s.requests)
  moved f to r f_status f_book f_id v t st' m =
      move-IsConsistent db request_id book_id f to f_status f_book f_id v t.occurs t.hit t.own st' m

  pub moved-Consistent :
      (f : BookRequest → BookRequest) (to : RequestStatus)
      → ((q : BookRequest) → (f q).status ≡ to)
      → ((q : BookRequest) → (f q).book_id ≡ q.book_id)
      → ((q : BookRequest) → (f q).id ≡ q.id)
      → (st : BookStatus) (Before : Book → BookRequest → Type 0) (s' : Desk) → Consistent s
      → (w : HasMoved db book_id request_id f st Before s s') → Moves w.held.status to st
      → Consistent s'
  moved-Consistent f to f_status f_book f_id st Before s' v w m =
      rw (w.requests, w.books) (moved f to w.held f_status f_book f_id v w.target st m)

module _ (db : Orm) (now book_id request_id user_id : ℕ) (s : Desk) (v : Consistent s) where
  pub of_Ends :
      {A : Type 0} {P : Desk → Type 0} {o : Outcome Desk A}
      → ((s' : Desk) → P s' → Consistent s')
      → Ends s (λ _ s'. P s') o
      → Consistent (after o)
  of_Ends f (stopped e h) = rw h v
  of_Ends f (finished a s' h p) = rw h (f s' p)

  pub complete-Consistent : Consistent (after (complete db now book_id request_id user_id s))
  complete-Consistent =
      of_Ends
        (λ s' w.
          moved-Consistent db book_id request_id s (complete_row now) completed (λ q. refl)
            (λ q. refl) (λ q. refl) donated _ s' v w (rw w.before.0 complete-Moves))
        (complete-Ends db now book_id request_id user_id s)

  pub cancel-Consistent : Consistent (after (cancel db now book_id request_id user_id s))
  cancel-Consistent =
      of_Ends
        (λ s' w.
          moved-Consistent db book_id request_id s (cancel_row now) cancelled (λ q. refl)
            (λ q. refl) (λ q. refl) available _ s' v w (cancel-Moves w.held.status w.before.0))
        (cancel-Ends db now book_id request_id user_id s)

  -- A book with a pending request is available.
  pending_available :
      {r : BookRequest}
      → IsTarget s.requests book_id request_id r
      → r.status ≡ pending
      → (b : Book) → Agrees s.requests b
      → (b.id == book_id) ≡ true
      → b.status ≡ available
  unfolding is_pending
  pending_available t st b a e = ground (arith, count_pos_at (of_book is_pending b.id) t.occurs)

  pub decline-Consistent :
      (reason : String) → Consistent (after (decline db now book_id request_id user_id reason s))
  unfolding decline decline_write send modify ◌>>◌
  decline-Consistent reason =
      bind-Ends (λ (o : Outcome Desk (Unit {0})). Consistent (after o)) _ _ _ s
        (decline_checks-Ends db now book_id request_id user_id s) (λ e. v)
        λ (b, r) s' (same, (h, (t, (st, mine)))). rw same (
          stay-IsConsistent db request_id book_id (decline_row now (trim reason)) declined
            (λ q. refl) (λ q. refl) (λ q. refl) v t.occurs t.hit t.own available
            (rw st decline-Moves) (pending_available t st))
