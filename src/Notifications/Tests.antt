-- ===== src/Notifications/Tests.antt =====
-- A submission to tell of, and the theorem at an input that meets its hypotheses.
use itc_sharing_backend.Base.{
  ℕ, ◌+◌, ◌≤◌, ◌≡◌, refl, true, not, ◌&&◌, some, List, [], ◌∷◌, ◌==◌, any, count, arith,
  if◌then◌else◌, after, Bool-cases, inl, inr, ◌>>◌, modify, pure,
}
use itc_sharing_backend.Samples.{list_orm}
use itc_sharing_backend.Documents.Audience.{same_id}
use itc_sharing_backend.Moderation.Reviewers.{Staff, resolve_reviewer, can_moderate}
use itc_sharing_backend.Moderation.Accounts.{bars}
use itc_sharing_backend.Notifications.Delivery.{
  Inbox, ReviewerPayload, notification, create_notification, notify_all, create_for_reviewers,
}
use itc_sharing_backend.Notifications.Reviewing.{told, create_for_reviewers-told}

abbrev staff : List Staff
staff =
    record { id = 1; role = "admin" }
    ∷ record { id = 2; role = "user" }
    ∷ record { id = 3; role = "user" }
    ∷ []

abbrev inbox : Inbox
inbox = record {
  users = staff;
  bans = [];
  moderators = record { user_id = 2; major_id = 7 } ∷ record { user_id = 3; major_id = 7 } ∷ [];
  notifications = [];
}

abbrev submission : ReviewerPayload
submission = record {
  major_id = some 7;
  kind = "document_pending";
  message = "Ann submitted a document.";
  ref_id = some 4;
  except_user_id = some 3;
}

staff_once : (x : ℕ) → count (λ (v : Staff). v.id == x) staff ≤ 1
staff_once x = elim (Bool-cases (1 == x)) [
  | inl e ↦ ground (arith, e)
  | inr e ↦ elim (Bool-cases (2 == x)) [
    | inl h ↦ ground (arith, e, h)
    | inr h ↦ ground (arith, e, h)
  ]
]

create_for_reviewers-told_example :
    told 2
      (after (create_for_reviewers list_orm (λ r. r) (λ u. true) submission inbox)).notifications
    ≡ told 2 inbox.notifications
      + (if any (λ (v : Staff). v.id == 2) inbox.users
            && (not (any (bars 2) inbox.bans)
                && (can_moderate
                      (resolve_reviewer list_orm (λ r. r) inbox.users inbox.moderators 2)
                      7
                    && (not (same_id submission.except_user_id 2) && true)))
          then 1
          else 0)
create_for_reviewers-told_example =
    create_for_reviewers-told list_orm (λ r. r) (λ u. true) submission 7 inbox 2 staff_once refl

two_told :
    (after (create_for_reviewers list_orm (λ r. r) (λ u. true) submission inbox)).notifications
    ≡ notification 2 submission ∷ notification 1 submission ∷ []
unfolding create_for_reviewers notify_all create_notification ◌>>◌ modify pure
two_told = refl
