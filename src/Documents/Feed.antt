-- ===== src/Documents/Feed.antt =====
-- Proofs on DocumentsService.canView and applyVisibility: the two ways to ask who sees an
-- upload.
use itc_sharing_backend.Base.{
  ℕ, ◌≡◌, refl, Bool, true, false, not, ◌&&◌, ◌||◌, Option, none, some, any, arith, if◌then◌else◌,
}
use itc_sharing_backend.Documents.Audience.{
  Upload, Viewer, same_id, is_set, is_nil, is_expired, is_unexpired, matches, can_view,
  apply_visibility,
}

-- Neither expired nor hidden.
abbrev pub is_current : ℕ → Upload → Bool
is_current now u = not (is_expired now u.expires_at) && not (is_set u.hidden_at)

is_unexpired-is_expired : (now : ℕ) (o : Option ℕ) → is_unexpired now o ≡ not (is_expired now o)
is_unexpired-is_expired now none = refl
is_unexpired-is_expired now (some t) = ground arith

-- The decision table of the two tests, on their conditions.
decide :
    (admin owner expired hidden nil hit : Bool)
    → (if admin
        then not expired && not hidden
        else (not expired && not hidden && (owner || nil || hit)))
      ≡ ((if admin
            then true
            else if owner
            then true
            else if expired
            then false
            else if hidden
            then false
            else if nil
            then true
            else hit)
          && (not expired && not hidden))
decide admin owner expired hidden nil hit = ground arith

-- The visibility clause of the feed holds exactly when `canView` does and the upload is neither
-- expired nor hidden.
pub apply_visibility-can_view :
    (now : ℕ) (v : Viewer) (u : Upload)
    → apply_visibility false now v u ≡ (can_view now u v && is_current now u)
unfolding apply_visibility can_view
apply_visibility-can_view now v u = rw (is_unexpired-is_expired now u.expires_at) (
    decide v.is_admin (same_id u.uploader_id v.id) (is_expired now u.expires_at)
      (is_set u.hidden_at) (is_nil u.audience) (any (matches v) u.audience))
