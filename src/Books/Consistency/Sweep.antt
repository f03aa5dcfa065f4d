-- ===== src/Books/Consistency/Sweep.antt =====
-- Proofs on the hourly sweep, run with no other call between its reads and its writes.
use itc_sharing_backend.Base.{
  ℕ, ◌≡◌, ◌≤◌, refl, subst, Bool, ◌&&◌, List, [], ◌∷◌, count, count-le-count, ◌==◌, ==_refl, arith,
  Occurs, Occurs-map, Orm, Outcome, done, after, Option-cases, inl, inr, map, patch, All, All-imp,
  ◌>>◌, pure, modify, bind_get,
}
use itc_sharing_backend.Books.Types.{
  available, accepted, expired, Book, BookRequest, Desk, is_accepted, send,
}
use itc_sharing_backend.Books.Handover.{
  expire_row, is_overdue, join_books, stale, release, release_all, expire_stale,
}
use itc_sharing_backend.Books.Consistency.{Consistent, expire-Moves}
use itc_sharing_backend.Books.Moves.{IsTarget, is_accepted_iff}
use itc_sharing_backend.Books.Consistency.Steps.{moved}

-- A fetched row still stands for a request that is accepted.
record IsReady (requests : List BookRequest) (row : BookRequest × Book) : Type 0 where
  held : BookRequest
  target : IsTarget requests row.0.book_id row.0.id held
  status : held.status ≡ accepted

abbrev same_id : ℕ → BookRequest × Book → Bool
same_id x row = row.0.id == x

module _ (db : Orm) where
  join-IsReady :
      (books : List Book) (requests rs : List BookRequest)
      → All (λ r. IsTarget requests r.book_id r.id r × (r.status ≡ accepted)) rs
      → All (IsReady requests) (join_books db books rs)
  unfolding join_books
  join-IsReady books requests [] a = tt
  join-IsReady books requests (r ∷ rs) ((t, e), a) =
      elim (Option-cases (db.find_one (λ (b : Book). b.id == r.book_id) books)) [
        | inl missing ↦ rw (missing, join_books) (join-IsReady books requests rs a)
        | inr (b, found) ↦
            rw (found, join_books)
              (record { held = r; target = t; status = e }, join-IsReady books requests rs a)
      ]

  count-join-le :
      (books : List Book) (x : ℕ) (rs : List BookRequest)
      → count (same_id x) (join_books db books rs) ≤ count (λ r. r.id == x) rs
  unfolding join_books
  count-join-le books x [] = omega arith
  count-join-le books x (r ∷ rs) =
      elim (Option-cases (db.find_one (λ (b : Book). b.id == r.book_id) books)) [
        | inl missing ↦ rw (missing, join_books) (omega (arith, count-join-le books x rs))
        | inr (b, found) ↦ rw (found, join_books) (omega (arith, count-join-le books x rs))
      ]

  module _ (now : ℕ) (row : BookRequest × Book) (s : Desk) where
    abbrev released : List BookRequest
    released = db.update (λ (r : BookRequest). r.id == row.0.id) (expire_row now) s.requests

    -- A row of another request is ready afterwards too.
    IsReady-kept :
        (rows : List (BookRequest × Book))
        → count (same_id row.0.id) rows ≡ 0
        → All (IsReady s.requests) rows
        → All (IsReady released) rows
    IsReady-kept [] h a = tt
    IsReady-kept (r ∷ rows) h (a, rest) = (ready_one, IsReady-kept rows (ground arith) rest)
      where
        untouched : patch (λ (q : BookRequest). q.id == row.0.id) (expire_row now) a.held ≡ a.held
        untouched = ground (arith, a.target.hit)

        ready_one : IsReady released r
        ready_one = record {
          held = a.held;
          target = record {
            occurs =
                rw
                  (db.update_eq (λ (q : BookRequest). q.id == row.0.id) (expire_row now) s.requests)
                  (subst
                    (λ q. Occurs q (
                      map (patch (λ (q : BookRequest). q.id == row.0.id) (expire_row now))
                        s.requests))
                    untouched (Occurs-map _ a.target.occurs));
            hit = a.target.hit;
            own = a.target.own;
          };
          status = a.status;
        }

    release_lem :
        Consistent s
        → IsReady s.requests row
        → (s' : Desk) × (release db now row s ≡ done tt s')
          × Consistent s'
          × (s'.requests ≡ released)
    unfolding release send modify ◌>>◌
    release_lem v a = (
      _,
      refl,
      moved db row.0.book_id row.0.id s (expire_row now) expired a.held (λ q. refl) (λ q. refl)
          (λ q. refl) v a.target available (rw a.status expire-Moves),
      refl,
    )

  -- The loop ends with every fetched row released.
  release_all_lem :
      (now : ℕ) (rows : List (BookRequest × Book)) (s : Desk)
      → Consistent s
      → All (IsReady s.requests) rows
      → ((x : ℕ) → count (same_id x) rows ≤ 1)
      → (s' : Desk) × (release_all db now rows s ≡ done tt s') × Consistent s'
  unfolding release_all pure ◌>>◌
  release_all_lem now [] s v a u = (s, refl, v)
  release_all_lem now (row ∷ rows) s v (a, rest) u =
      let (s1, e1, v1, kept) = release_lem now row s v a in
      let others : count (same_id row.0.id) rows ≡ 0 =
        ground (arith, u row.0.id, ==_refl row.0.id) in
      let ready : All (IsReady s1.requests) rows =
        rw kept (IsReady-kept now row s rows others rest) in
      let (s2, e2, v2) = release_all_lem now rows s1 v1 ready (λ x. omega (arith, u x)) in
      (s2, rw (e1, ◌>>◌) e2, v2)

  pub expire_stale-Consistent :
      (now : ℕ) (s : Desk) → Consistent s → Consistent (after (expire_stale db now s))
  unfolding expire_stale stale pure ◌>>◌
  expire_stale-Consistent now s v =
      let (s', e, w) =
        release_all_lem now _ s v (join-IsReady s.books s.requests _ fetched) one_each in
      bind_get (λ (o : Outcome Desk ℕ). Consistent (after o)) _ s (rw (e, ◌>>◌) w)
    where
      overdue : BookRequest → Bool
      overdue r = is_accepted r.status && is_overdue now r.accepted_at

      fetched :
          All
            (λ r. IsTarget s.requests r.book_id r.id r × (r.status ≡ accepted))
            (db.find overdue s.requests)
      fetched =
          All-imp _ _ _
            (λ r (o, h). (
              record { occurs = o; hit = ==_refl r.id; own = ==_refl r.book_id },
              is_accepted_iff r.status (ground arith),
            ))
            (db.find_all overdue s.requests)

      one_each :
          (x : ℕ) → count (same_id x) (join_books db s.books (db.find overdue s.requests)) ≤ 1
      one_each x = omega (
        arith,
        count-join-le s.books x (db.find overdue s.requests),
        db.find_count (λ r. r.id == x) overdue s.requests,
        count-le-count (λ (r : BookRequest). r.id == x && overdue r) (λ r. r.id == x) s.requests
            (λ r h. ground arith),
        v.unique x,
      )
