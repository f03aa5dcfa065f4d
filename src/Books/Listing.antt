-- ===== src/Books/Listing.antt =====
-- BooksService.donate, update and remove, and the admin's setBookHidden and deleteBook. A
-- department is an identifier, and the empty text of the form, "Other", is `none`.
use itc_sharing_backend.Base.{
  ℕ, Bool, not, ◌&&◌, String, Option, none, some, List, ◌∷◌, ◌==◌, if◌then◌else◌, ltb, map, any,
  Orm, M, pure, get, guard, expect, modify, not_found, forbidden, bad_request, internal, ◌>>=◌,
  ◌>>◌,
}
use itc_sharing_backend.Books.Types.{
  BookStatus, available, Book, BookRequest, NotificationRow, RefType, to_book, to_request, Desk,
  is_pending, is_reserved, is_donated,
}
use itc_sharing_backend.Books.Requests.{put_requests, put_books}

pub record CreateBook : Type 0 where
  pub title : String
  pub department : Option ℕ
  pub description : Option String
  pub cover_image_url : String

-- An absent field is `none`; a department that is sent is `some`, the empty text `some none`.
pub record UpdateBook : Type 0 where
  pub title : Option String
  pub department : Option (Option ℕ)
  pub description : Option String
  pub cover_image_url : Option String

abbrev or_old {ℓ} : {A : Type ℓ} → Option A → A → A
or_old none old = old
or_old (some new) old = new

abbrev or_kept {ℓ} : {A : Type ℓ} → Option A → Option A → Option A
or_kept none old = old
or_kept (some new) old = some new

unfoldable pub patch_book : UpdateBook → Book → Book
patch_book dto b = record b {
  title = or_old dto.title b.title;
  major_id = or_old dto.department b.major_id;
  description = or_kept dto.description b.description;
  cover_image_url = or_kept dto.cover_image_url b.cover_image_url;
}

is_to_request : RefType → Bool
is_to_request to_request = Bool.true
is_to_request to_book = Bool.false

-- The foreign key from `books` to `majors`.
is_known_department : List ℕ → Option ℕ → Bool
is_known_department majors none = Bool.true
is_known_department majors (some m) = any (λ k. k == m) majors

module _ (db : Orm) where
  unfoldable pub donate : (List ℕ) → ℕ → ℕ → ℕ → CreateBook → M Desk (Option Book)
  unfolding is_known_department
  donate majors id now donor_id dto = do
    guard (is_known_department majors dto.department) (bad_request "Invalid department")
    old ← get
    guard (not (any (λ (b : Book). b.id == id) old.books)) (internal "Failed to list book")
    modify (λ d.
        put_books
          ((record {
            id = id;
            donor_id = donor_id;
            major_id = dto.department;
            title = dto.title;
            description = dto.description;
            cover_image_url = some dto.cover_image_url;
            status = available;
            hidden_at = none;
            created_at = now;
          })
            ∷ d.books)
          d)
    s ← get
    pure (db.find_one (λ (b : Book). b.id == id) s.books)

  unfoldable pub assert_not_locked : BookStatus → M Desk (Unit {0})
  unfolding is_reserved is_donated
  assert_not_locked st = do
    guard (not (is_reserved st))
        (bad_request "This book is reserved for someone — decline the request first")
    guard (not (is_donated st)) (bad_request "Donated books cannot be changed")

  unfoldable pub assert_no_pending_request : ℕ → M Desk (Unit {0})
  assert_no_pending_request book_id = do
    s ← get
    guard
        (not (
          ltb 0 (
            db.count_by (λ (r : BookRequest). r.book_id == book_id && is_pending r.status)
              s.requests)))
        (bad_request "This book has a pending request — answer it first")

  -- What `update` and `remove` test before they write.
  unfoldable pub assert_editable : ℕ → ℕ → M Desk (Unit {0})
  assert_editable id user_id = do
    s ← get
    book ← expect (db.find_one (λ (b : Book). b.id == id) s.books) (not_found "Book not found")
    guard (book.donor_id == user_id) (forbidden "Not your book")
    assert_not_locked book.status
    assert_no_pending_request id

  unfoldable pub update : List ℕ → ℕ → ℕ → UpdateBook → M Desk (Option Book)
  unfolding is_known_department
  update majors id user_id dto = do
    assert_editable id user_id
    guard (is_known_department majors (or_old dto.department none))
        (internal "Failed to update book")
    modify (λ d. put_books (db.update (λ b. b.id == id) (patch_book dto) d.books) d)
    s ← get
    pure (db.find_one (λ (b : Book). b.id == id) s.books)

  -- The deletion of a book with its dead notifications; its requests go by `on delete cascade`.
  unfoldable pub delete_book_rows : ℕ → M Desk (Unit {0})
  unfolding is_to_request
  delete_book_rows id = do
    s ← get
    let ids =
        map (λ (r : BookRequest). r.id) (db.find (λ (r : BookRequest). r.book_id == id) s.requests)
    modify (λ d. record d {
      notifications =
          db.delete
            (λ (n : NotificationRow). is_to_request n.ref_type && any (λ i. i == n.ref_id) ids)
            d.notifications;
    })
    modify (λ d. put_books (db.delete (λ (b : Book). b.id == id) d.books) d)
    modify (λ d. put_requests (db.delete (λ (r : BookRequest). r.book_id == id) d.requests) d)

  unfoldable pub remove : ℕ → ℕ → M Desk (Unit {0})
  remove id user_id = do assert_editable id user_id; delete_book_rows id

  -- AdminService.setBookHidden and deleteBook.
  unfoldable pub set_book_hidden : ℕ → ℕ → Bool → M Desk (Unit {0})
  set_book_hidden now id hidden = do
    s ← get
    book ← expect (db.find_one (λ (b : Book). b.id == id) s.books) (not_found "Book not found")
    modify (λ d.
        put_books
          (db.update (λ (b : Book). b.id == id)
            (λ b. record b { hidden_at = if hidden then some now else none }) d.books)
          d)

  unfoldable pub delete_book : ℕ → M Desk (Unit {0})
  delete_book id = do
    s ← get
    book ← expect (db.find_one (λ (b : Book). b.id == id) s.books) (not_found "Book not found")
    delete_book_rows id
