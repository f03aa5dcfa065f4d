-- ===== src/Notifications/Delivery.antt =====
-- NotificationsService: create, createForReviewers and markAllRead.
use itc_sharing_backend.Base.{
  ℕ, Bool, true, false, not, ◌&&◌, ◌||◌, String, Option, List, [], ◌∷◌, ◌==◌, any, if◌then◌else◌,
  same_text, Orm, M, pure, modify, throw, internal, ◌>>◌, done, fail,
}
use itc_sharing_backend.Documents.Audience.{same_id}
use itc_sharing_backend.Moderation.Reviewers.{Staff, DepartmentModerator}
use itc_sharing_backend.Moderation.Accounts.{Ban, bars}

pub record Notification : Type 0 where
  pub user_id : ℕ
  pub kind : String
  pub message : String
  pub ref_id : Option ℕ
  pub is_read : Bool

pub record Inbox : Type 0 where
  pub users : List Staff
  pub bans : List Ban
  pub moderators : List DepartmentModerator
  pub notifications : List Notification

-- ReviewerNotificationPayload
pub record ReviewerPayload : Type 0 where
  pub major_id : Option ℕ
  pub kind : String
  pub message : String
  pub ref_id : Option ℕ
  pub except_user_id : Option ℕ

abbrev pub put_notifications : List Notification → Inbox → Inbox
put_notifications ns s = record s { notifications = ns }

abbrev pub notification : ℕ → ReviewerPayload → Notification
notification user_id p = record {
  user_id = user_id;
  kind = p.kind;
  message = p.message;
  ref_id = p.ref_id;
  is_read = false;
}

-- `create` up to the row; the socket and the messenger come after it. `saved` tells whether the row of
-- a user was saved.
unfoldable pub create_notification : (ℕ → Bool) → Notification → M Inbox (Unit {0})
create_notification saved n =
    if saved n.user_id
    then modify (λ d. put_notifications (n ∷ d.notifications) d)
    else throw (internal "Failed to create notification")

abbrev pub moderates : Option ℕ → ℕ → DepartmentModerator → Bool
moderates major_id user_id m = m.user_id == user_id && same_id major_id m.major_id

-- The condition of the query on a row of `users`. `lower` is the case mapping of the database.
abbrev pub is_recipient : (String → String) → Option ℕ → Inbox → Staff → Bool
is_recipient lower major_id s u =
    not (any (bars u.id) s.bans)
    && (same_text (lower u.role) "admin" || any (moderates major_id u.id) s.moderators)

-- An exception of one recipient is caught, with what was written before it.
abbrev pub swallow : {S : Type 0} → M S (Unit {0}) → M S (Unit {0})
swallow m s = elim (m s) [ done a t ↦ done tt t | fail e t ↦ done tt t ]

unfoldable pub notify_all : (ℕ → Bool) → ReviewerPayload → List Staff → M Inbox (Unit {0})
notify_all saved p [] = pure tt
notify_all saved p (u ∷ us) =
    (if same_id p.except_user_id u.id
      then pure tt
      else swallow (create_notification saved (notification u.id p)))
    >> notify_all saved p us

module _ (db : Orm) (lower : String → String) where
  unfoldable pub create_for_reviewers : (ℕ → Bool) → ReviewerPayload → M Inbox (Unit {0})
  create_for_reviewers saved p s =
      notify_all saved p (db.find (is_recipient lower p.major_id s) s.users) s

abbrev pub read : Notification → Notification
read n = record n { is_read = true }

module _ (db : Orm) where
  unfoldable pub mark_all_read : ℕ → M Inbox (Unit {0})
  mark_all_read user_id = modify (λ d.
      put_notifications
        (db.update (λ (n : Notification). n.user_id == user_id && not n.is_read) read
          d.notifications)
        d)
