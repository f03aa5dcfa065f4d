-- ===== src/Moderation/Reviewers.antt =====
-- ModerationService: the reviewers of a department and their assignments.
use itc_sharing_backend.Base.{
  ℕ, Bool, true, false, ◌&&◌, ◌||◌, String, Option, none, some, List, ◌∷◌, map, ◌==◌, any,
  if◌then◌else◌, same_text, Orm,
}

-- The columns of `users` that are read here. `role` is as stored.
pub record Staff : Type 0 where
  pub id : ℕ
  pub role : String

pub record DepartmentModerator : Type 0 where
  pub user_id : ℕ
  pub major_id : ℕ

pub record Reviewer : Type 0 where
  pub id : ℕ
  pub is_admin : Bool
  pub major_ids : List ℕ

abbrev pub has_admin_role : (String → String) → Option Staff → Bool
has_admin_role lower none = false
has_admin_role lower (some u) = same_text (lower u.role) "admin"

-- `lower` is the language's toLowerCase.
module _ (db : Orm) (lower : String → String) where
  unfoldable pub resolve_reviewer : List Staff → List DepartmentModerator → ℕ → Reviewer
  resolve_reviewer users moderators user_id = record {
    id = user_id;
    is_admin = has_admin_role lower (db.find_one (λ (u : Staff). u.id == user_id) users);
    major_ids =
        map (λ (r : DepartmentModerator). r.major_id)
          (db.find (λ (r : DepartmentModerator). r.user_id == user_id) moderators);
  }

unfoldable pub can_moderate : Reviewer → ℕ → Bool
can_moderate reviewer major_id = reviewer.is_admin || any (λ m. m == major_id) reviewer.major_ids

-- The departments of a review queue, or none for no limit.
unfoldable pub scope_major_ids : Reviewer → Option (List ℕ)
scope_major_ids reviewer = if reviewer.is_admin then none else some reviewer.major_ids

abbrev pub in_scope : Option (List ℕ) → ℕ → Bool
in_scope none major_id = true
in_scope (some ids) major_id = any (λ m. m == major_id) ids

abbrev pub same_assignment : ℕ → ℕ → DepartmentModerator → Bool
same_assignment user_id major_id r = r.user_id == user_id && r.major_id == major_id

-- `insert … on conflict do nothing`, under the primary key of the pair.
unfoldable pub assign : ℕ → ℕ → List DepartmentModerator → List DepartmentModerator
assign user_id major_id rows =
    if any (same_assignment user_id major_id) rows
    then rows
    else record { user_id = user_id; major_id = major_id } ∷ rows

module _ (db : Orm) where
  unfoldable pub unassign : ℕ → ℕ → List DepartmentModerator → List DepartmentModerator
  unassign user_id major_id rows = db.delete (same_assignment user_id major_id) rows

  unfoldable pub unassign_all : ℕ → List DepartmentModerator → List DepartmentModerator
  unassign_all user_id rows = db.delete (λ (r : DepartmentModerator). r.user_id == user_id) rows
