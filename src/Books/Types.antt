-- ===== src/Books/Types.antt =====
-- The rows and enumerations of modules/books/entities, the desk's part of the database, and the
-- constraints that the migrations put on `book_requests`.
use itc_sharing_backend.Base.{
  ℕ, Bool, true, false, not, ◌&&◌, String, Option, none, some, List, ◌∷◌, ◌==◌, any, M, get,
  is_empty, guard, modify, internal, ◌>>=◌, ◌>>◌,
}

pub data BookStatus : Type 0 where
  available reserved donated : BookStatus

pub data RequestStatus : Type 0 where
  pending accepted declined cancelled expired completed : RequestStatus

pub record Book : Type 0 where
  pub id : ℕ
  pub donor_id : ℕ
  pub major_id : Option ℕ
  pub title : String
  pub description : Option String
  pub cover_image_url : Option String
  pub status : BookStatus
  pub hidden_at : Option ℕ
  pub created_at : ℕ

pub record BookRequest : Type 0 where
  pub id : ℕ
  pub book_id : ℕ
  pub requester_id : ℕ
  pub message : Option String
  pub status : RequestStatus
  pub requested_at : ℕ
  pub resolved_at : Option ℕ
  pub accepted_at : Option ℕ
  pub completed_at : Option ℕ
  pub cancelled_at : Option ℕ
  pub expired_at : Option ℕ
  pub decline_reason : Option String

-- The columns of `users` that the desk reads.
pub record Account : Type 0 where
  pub id : ℕ
  pub first_name : String
  pub last_name : String
  pub telegram : Option String

pub data RefType : Type 0 where
  to_book to_request : RefType

-- A row of `notifications`, as far as `remove` looks at it.
pub record NotificationRow : Type 0 where
  pub id : ℕ
  pub ref_type : RefType
  pub ref_id : ℕ

-- The payload of `NotificationsService.create`.
pub record Notice : Type 0 where
  pub user_id : ℕ
  pub kind : String
  pub message : String
  pub key : String
  pub ref_id : ℕ
  pub ref_type : RefType

-- The tables, and the notices handed to the notification service, newest first.
pub record Desk : Type 0 where
  pub users : List Account
  pub books : List Book
  pub requests : List BookRequest
  pub notifications : List NotificationRow
  pub outbox : List Notice

unfoldable pub is_available : BookStatus → Bool
is_available available = true
is_available _ = false

unfoldable pub is_reserved : BookStatus → Bool
is_reserved reserved = true
is_reserved _ = false

unfoldable pub is_donated : BookStatus → Bool
is_donated donated = true
is_donated _ = false

unfoldable pub is_pending : RequestStatus → Bool
is_pending pending = true
is_pending _ = false

unfoldable pub is_accepted : RequestStatus → Bool
is_accepted accepted = true
is_accepted _ = false

unfoldable pub is_declined : RequestStatus → Bool
is_declined declined = true
is_declined _ = false

unfoldable pub is_completed : RequestStatus → Bool
is_completed completed = true
is_completed _ = false

-- `In(['pending', 'accepted'])`
unfoldable pub is_active : RequestStatus → Bool
is_active pending = true
is_active accepted = true
is_active _ = false

abbrev pub is_some {ℓ} : {A : Type ℓ} → Option A → Bool
is_some (some a) = true
is_some none = false

-- The truth value of an optional text: JavaScript reads the empty text as false.
abbrev pub is_filled : Option String → Bool
is_filled (some s) = not (is_empty s)
is_filled none = false

-- `insert into book_requests`, under its primary key, the partial unique index
-- idx_book_requests_one_active and the foreign keys to `books` and `users`. The service answers
-- every refusal of the database in the same words.
unfoldable pub insert_request : BookRequest → M Desk (Unit {0})
insert_request row = do
  s ← get
  guard (not (any (λ r. r.id == row.id) s.requests)) (internal "Failed to create request")
  guard (not (any (λ r. r.book_id == row.book_id && is_active r.status) s.requests))
      (internal "Failed to create request")
  guard (any (λ b. b.id == row.book_id) s.books) (internal "Failed to create request")
  guard (any (λ u. u.id == row.requester_id) s.users) (internal "Failed to create request")
  modify (λ d. record d { requests = row ∷ d.requests })

unfoldable pub send : Notice → M Desk (Unit {0})
send n = modify (λ d. record d { outbox = n ∷ d.outbox })
