-- ===== src/Moderation/Scope.antt =====
-- Proofs on the departments of a review queue.
use itc_sharing_backend.Base.{ℕ, ◌≡◌, refl, Bool-cases, inl, inr}
use itc_sharing_backend.Moderation.Reviewers.{Reviewer, can_moderate, scope_major_ids, in_scope}

pub in_scope-can_moderate :
    (r : Reviewer) (m : ℕ) → in_scope (scope_major_ids r) m ≡ can_moderate r m
unfolding can_moderate scope_major_ids
in_scope-can_moderate r m = elim (Bool-cases r.is_admin) [ inl e ↦ rw e refl | inr e ↦ rw e refl ]
