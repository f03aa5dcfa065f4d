-- ===== src/Books/Races.antt =====
-- What happens where another call runs between a handler's reads and its writes. `accept` holds a
-- lock on the book from its reads on; `decline` and the sweep hold none.
use itc_sharing_backend.Base.{
  ℕ, ◌≡◌, refl, subst, true, String, List, map, ◌==◌, arith, count, All, All-at, All-map-patch,
  patch, Orm, Outcome, done, after, Occurs, Occurs-map, Ends-done, trim, count_pos_at, ◌≤◌, ◌>>◌,
  modify,
}
use itc_sharing_backend.Books.Types.{
  available, reserved, donated, accepted, declined, expired, completed, Book, BookRequest, Desk,
  is_pending, is_accepted, is_completed, send,
}
use itc_sharing_backend.Books.Requests.{
  accept, accept_row, decline_checks, decline_write, decline_row,
}
use itc_sharing_backend.Books.Handover.{with_status, complete, complete_row, release, expire_row}
use itc_sharing_backend.Books.Moves.{IsTarget, complete-Ends}
use itc_sharing_backend.Books.Consistency.{Consistent, Agrees, of_book, counted}
use itc_sharing_backend.Books.Consistency.Accepting.{accept-Ends, accept-Consistent}
use itc_sharing_backend.Books.Consistency.Steps.{complete-Consistent}

-- No request for the book is pending, accepted or completed.
abbrev pub NoneHolds : List BookRequest → ℕ → Type 0
NoneHolds rs k =
    (count (of_book is_pending k) rs ≡ 0)
    × (count (of_book is_accepted k) rs ≡ 0)
    × (count (of_book is_completed k) rs ≡ 0)

-- The row that an update by identifier has written.
IsTarget-after :
    (db : Orm) (f : BookRequest → BookRequest) (book_id request_id : ℕ) {r : BookRequest}
    {rs : List BookRequest}
    → ((q : BookRequest) → (f q).book_id ≡ q.book_id)
    → ((q : BookRequest) → (f q).id ≡ q.id)
    → IsTarget rs book_id request_id r
    → IsTarget (db.update (λ q. q.id == request_id) f rs) book_id request_id (f r)
IsTarget-after db f book_id request_id {r} {rs} f_book f_id t = record {
  occurs = rw (db.update_eq (λ (q : BookRequest). q.id == request_id) f rs) (
      subst (λ q. Occurs q (map (patch (λ (q : BookRequest). q.id == request_id) f) rs))
        (ground (arith, t.hit))
        (Occurs-map (patch (λ (q : BookRequest). q.id == request_id) f) t.occurs));
  hit = rw (f_id r) t.hit;
  own = rw (f_book r) t.own;
}

-- An accepted request that is declined leaves a reserved book that nobody holds.
orphaned :
    (rs : List BookRequest) (k x now : ℕ) (reason : String) (r : BookRequest)
    → IsTarget rs k x r
    → r.status ≡ accepted
    → count (λ q. q.id == x) rs ≤ 1
    → (b : Book) → Agrees rs b
    → (b.id == k) ≡ true
    → (b.status ≡ reserved)
      × NoneHolds (map (patch (λ q. q.id == x) (decline_row now reason)) rs) b.id
unfolding is_pending is_accepted is_completed
orphaned rs k x now reason r t st one b a e =
    let p =
      counted x (decline_row now reason) t.occurs t.hit one declined (λ q. refl) (λ q. refl)
        is_pending b.id in
    let c =
      counted x (decline_row now reason) t.occurs t.hit one declined (λ q. refl) (λ q. refl)
        is_accepted b.id in
    let d =
      counted x (decline_row now reason) t.occurs t.hit one declined (λ q. refl) (λ q. refl)
        is_completed b.id in
    ground (arith, count_pos_at (of_book is_accepted b.id) t.occurs)

module _ (db : Orm) (book_id request_id : ℕ) (s s1 : Desk) (v : Consistent s) where
  -- `decline` reads a pending request, `accept` accepts it, and only then does `decline` write: after
  -- that write the book is reserved, and no request for it is pending, accepted or completed.
  pub decline_after-accept :
      (now later user_id : ℕ) (reason : String) (found : Book × BookRequest)
      → decline_checks db book_id request_id user_id s ≡ done found s
      → accept db now book_id request_id user_id s ≡ done tt s1
      → let s2 = after (decline_write db later request_id reason found s1) in
        (b : Book)
        → Occurs b s2.books
        → (b.id == book_id) ≡ true
        → (b.status ≡ reserved) × NoneHolds s2.requests b.id
  unfolding decline_write send modify ◌>>◌
  decline_after-accept now later user_id reason found read taken b o e =
      let w = Ends-done (accept-Ends db now book_id request_id user_id s v) taken in
      let v1 : Consistent s1 =
        subst (λ (x : Outcome Desk (Unit {0})). Consistent (after x)) taken
          (accept-Consistent db now book_id request_id user_id s v) in
      let t =
        IsTarget-after db (accept_row now) book_id request_id (λ q. refl) (λ q. refl) w.target in
      let t1 : IsTarget s1.requests book_id request_id (accept_row now w.held) = rw w.requests t in
      rw
        (db.update_eq (λ (q : BookRequest). q.id == request_id) (decline_row later (trim reason))
          s1.requests)
        (orphaned s1.requests book_id request_id later (trim reason) (accept_row now w.held) t1 refl
          (v1.unique request_id) b (All-at (Agrees s1.requests) o v1.shelf) e)

-- A completed request that expires: its book had been donated, and nobody's request says so now.
undone :
    (rs : List BookRequest) (k x now : ℕ) (r : BookRequest)
    → IsTarget rs k x r
    → r.status ≡ completed
    → count (λ q. q.id == x) rs ≤ 1
    → (b : Book) → Agrees rs b
    → (b.id == k) ≡ true
    → (b.status ≡ donated) × NoneHolds (map (patch (λ q. q.id == x) (expire_row now)) rs) b.id
unfolding is_pending is_accepted is_completed
undone rs k x now r t st one b a e =
    let p =
      counted x (expire_row now) t.occurs t.hit one expired (λ q. refl) (λ q. refl) is_pending
        b.id in
    let c =
      counted x (expire_row now) t.occurs t.hit one expired (λ q. refl) (λ q. refl) is_accepted
        b.id in
    let d =
      counted x (expire_row now) t.occurs t.hit one expired (λ q. refl) (λ q. refl) is_completed
        b.id in
    ground (arith, count_pos_at (of_book is_completed b.id) t.occurs)

-- The sweep fetches an accepted request, its receiver confirms the handover, and then the sweep
-- releases the row: the book had been donated, every row of it is available again, and no request
-- for it is completed, accepted or pending.
pub release-after-complete :
    (db : Orm) (now later user_id : ℕ) (row : BookRequest × Book) (s s1 : Desk)
    → Consistent s
    → row.0.status ≡ accepted
    → IsTarget s.requests row.0.book_id row.0.id row.0
    → complete db now row.0.book_id row.0.id user_id s ≡ done tt s1
    → (b : Book) → Occurs b s1.books
    → (b.id == row.0.book_id) ≡ true
    → let s2 = after (release db later row s1) in
      (b.status ≡ donated)
      × NoneHolds s2.requests b.id
      × All (λ c. (c.id == row.0.book_id) ≡ true → c.status ≡ available) s2.books
unfolding release send modify ◌>>◌
release-after-complete db now later user_id row s s1 v st t0 closed b o e =
    let k = row.0.book_id in
    let x = row.0.id in
    let w = Ends-done (complete-Ends db now k x user_id s) closed in
    let v1 : Consistent s1 =
      subst (λ (z : Outcome Desk (Unit {0})). Consistent (after z)) closed
        (complete-Consistent db now k x user_id s v) in
    let t1 : IsTarget s1.requests k x (complete_row now w.held) =
      rw w.requests (IsTarget-after db (complete_row now) k x (λ q. refl) (λ q. refl) w.target) in
    let (gone, free) =
      undone s1.requests k x later (complete_row now w.held) t1 refl (v1.unique x) b
        (All-at (Agrees s1.requests) o v1.shelf) e in
    (
      gone,
      rw (db.update_eq (λ (q : BookRequest). q.id == x) (expire_row later) s1.requests) free,
      rw (db.update_eq (λ (c : Book). c.id == k) (with_status available) s1.books) (
          All-map-patch (Agrees s1.requests) (λ c. (c.id == k) ≡ true → c.status ≡ available)
            (λ c. c.id == k) (with_status available) s1.books (λ c _. ground arith) v1.shelf),
    )
