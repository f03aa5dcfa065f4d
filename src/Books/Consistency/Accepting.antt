-- ===== src/Books/Consistency/Accepting.antt =====
-- `accept`: the transaction with its loop over the rivals, and the notices after it.
use itc_sharing_backend.Base.{
  ℕ, ◌≡◌, refl, ◌∙◌, ==_iff, true, ◌&&◌, List, [], ◌∷◌, ◌==◌, arith, Occurs, Orm, Outcome, done,
  after, M, String, Option, none, some, map, patch, All-at, nil_of_length, ◌>>◌, modify, pure,
  bind_get, bind_guard, bind_expect, bind_modify, bind-Ends, transaction-Ends, Ends, stopped,
  finished,
}
use itc_sharing_backend.Books.Types.{
  available, reserved, pending, accepted, Book, BookRequest, Desk, is_pending, send,
}
use itc_sharing_backend.Books.Requests.{
  accept_row, accept_body, accept, decline_rivals, tell_accepted, tell_losers,
}
use itc_sharing_backend.Books.Consistency.{Consistent, Agrees, FitsAt, accept-Moves, Agrees-own}
use itc_sharing_backend.Books.Moves.{
  IsTarget, HasMoved, is_pending_iff, is_available_iff, target, shelf,
}
use itc_sharing_backend.Books.Consistency.Steps.{moved-Consistent, of_Ends}

-- The notices leave the two tables alone.
abbrev SameTables : Desk → Desk → Type 0
SameTables s s' = (s'.requests ≡ s.requests) × (s'.books ≡ s.books)

tell_losers_lem :
    (db : Orm) (book_id : ℕ) (title : String) (losers : List ℕ) (s : Desk)
    → (s' : Desk) × (tell_losers db book_id title losers s ≡ done tt s') × SameTables s s'
unfolding tell_losers pure send modify ◌>>◌
tell_losers_lem db book_id title [] s = (s, refl, (refl, refl))
tell_losers_lem db book_id title (l ∷ ls) s = tell_losers_lem db book_id title ls _

tell_accepted_lem :
    (db : Orm) (request_id : ℕ) (title : String) (req : Option BookRequest) (s : Desk)
    → (s' : Desk) × (tell_accepted db request_id title req s ≡ done tt s') × SameTables s s'
unfolding tell_accepted pure send modify
tell_accepted_lem db request_id title none s = (s, refl, (refl, refl))
tell_accepted_lem db request_id title (some r) s = (_, refl, (refl, refl))

same_book : (k x y : ℕ) → (x == k) ≡ true → (y == k) ≡ true → (x == y) ≡ true
same_book k x y p q = ground arith

module _ (db : Orm) (now book_id request_id user_id : ℕ) (s : Desk) (v : Consistent s) where
  -- Once the book is reserved no request for it is pending.
  no_rivals :
      {b : Book} {r : BookRequest}
      → Occurs b s.books
      → (b.id == book_id) ≡ true
      → IsTarget s.requests book_id request_id r
      → r.status ≡ pending
      → db.find
          (λ (q : BookRequest). q.book_id == book_id && is_pending q.status)
          (db.update (λ q. q.id == request_id) (accept_row now) s.requests)
        ≡ []
  no_rivals {b} {r} o e t st =
      let fits : FitsAt (map (patch (λ q. q.id == request_id) (accept_row now)) s.requests) b.id
          reserved =
        Agrees-own request_id (accept_row now) t.occurs t.hit (v.unique request_id) accepted
          (λ q. refl) (λ q. refl) b reserved (rw st accept-Moves)
          (same_book book_id b.id r.book_id e t.own) (All-at (Agrees s.requests) o v.shelf) in
      let same : b.id ≡ book_id = (==_iff b.id book_id).0 e in
      nil_of_length _ (
        db.find_length _ _
        ∙ rw
            (
              db.update_eq (λ (q : BookRequest). q.id == request_id) (accept_row now) s.requests,
              ← same,
            )
            fits.0)

  abbrev pub ByDonor : Book → BookRequest → Type 0
  ByDonor b r = (r.status ≡ pending) × ((b.status ≡ available) × ((b.donor_id == user_id) ≡ true))

  abbrev pub Accepted : Desk → Type 0
  Accepted = HasMoved db book_id request_id (accept_row now) reserved ByDonor s

  accept_end :
      {rivals : List BookRequest} (s' : Desk)
      → rivals ≡ []
      → Accepted s'
      → Ends s (λ _ s'. Accepted s') (decline_rivals db request_id now rivals s')
  unfolding decline_rivals pure
  accept_end s' e w = rw (e, decline_rivals) (finished _ _ refl w)

  accept_body-Ends : Ends s (λ _ s'. Accepted s') (accept_body db now book_id request_id user_id s)
  unfolding accept_body
  accept_body-Ends =
      let Q : Outcome Desk (List ℕ) → Type 0 = Ends s (λ _ s'. Accepted s') in
      bind_get Q _ s (
        bind_expect Q _ _ _ s (λ _. stopped _ refl)
          λ b there.
            bind_guard Q _ _ _ s (λ _. stopped _ refl)
              λ mine.
                bind_guard Q _ _ _ s (λ _. stopped _ refl)
                  λ free.
                    bind_expect Q _ _ _ s (λ _. stopped _ refl)
                      λ r found.
                        bind_guard Q _ _ _ s (λ _. stopped _ refl)
                          λ asked.
                            let t = target db book_id request_id s found in
                            let st = is_pending_iff r.status asked in
                            let h = shelf db book_id request_id s there in
                            bind_modify Q _ _ s (
                              bind_modify Q _ _ _ (
                                bind_get Q _ _ (
                                  accept_end _ (no_rivals h.occurs h.hit t st) (record {
                                    held = r;
                                    book = b;
                                    target = t;
                                    shelf = h;
                                    before = (st, (is_available_iff b.status free, mine));
                                    requests = refl;
                                    books = refl;
                                  })))))

  -- On a consistent desk an accept either fails and leaves the desk as it was, or the caller is
  -- the donor of an available book, the request was pending, and the call has marked that request
  -- accepted and the book reserved and changed no other request or book.
  pub accept-Ends : Ends s (λ _ s'. Accepted s') (accept db now book_id request_id user_id s)
  unfolding accept
  accept-Ends =
      let Q : Outcome Desk (Unit {0}) → Type 0 = Ends s (λ _ s'. Accepted s') in
      bind_get Q _ s (
        bind_guard Q _ _ _ s (λ _. stopped _ refl)
          λ handle.
            bind-Ends Q _ _ _ s (transaction-Ends _ _ s accept_body-Ends) (λ e. stopped e refl)
              λ losers s1 w. bind_get Q _ s1 (
                told _ _ (tell_accepted_lem db request_id _ _ s1)
                  (λ s2. tell_losers_lem db book_id _ losers s2) w))
    where
      told :
          {s1 : Desk} (m k : M Desk (Unit {0}))
          → (s2 : Desk) × (m s1 ≡ done tt s2) × SameTables s1 s2
          → ((s2 : Desk) → (s3 : Desk) × (k s2 ≡ done tt s3) × SameTables s2 s3)
          → Accepted s1
          → Ends s (λ _ s'. Accepted s') ((m >> k) s1)
      told m k (s2, e2, (p, q)) f w =
          let (s3, e3, (p', q')) = f s2 in
          finished tt s3 (unfold ◌>>◌ in rw (e2, ◌>>◌) e3) (record {
            held = w.held;
            book = w.book;
            target = w.target;
            shelf = w.shelf;
            before = w.before;
            requests = p' ∙ p ∙ w.requests;
            books = q' ∙ q ∙ w.books;
          })

  pub accept-Consistent : Consistent (after (accept db now book_id request_id user_id s))
  accept-Consistent =
      of_Ends db now book_id request_id user_id s v
        (λ s' w.
          moved-Consistent db book_id request_id s (accept_row now) accepted (λ q. refl) (λ q. refl)
            (λ q. refl) reserved _ s' v w (rw w.before.0 accept-Moves))
        accept-Ends
