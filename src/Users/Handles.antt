-- ===== src/Users/Handles.antt =====
-- The Telegram accounts of a profile, as UsersService.updateMe settles them.
use itc_sharing_backend.Base.{
  Bool, not, ◌&&◌, String, Option, none, some, List, [], ◌∷◌, ◌++◌, any, same_text, trim, is_empty,
  if◌then◌else◌,
}

-- The columns `telegram` and `telegram_handles`.
pub record Contact : Type 0 where
  pub telegram : Option String
  pub handles : List String

-- The two fields of UpdateUserDto, where they were sent.
pub record ContactDto : Type 0 where
  pub telegram : Option String
  pub handles : Option (List String)

abbrev pub includes : String → List String → Bool
includes t hs = any (same_text t) hs

-- `telegram.trim() || null`
unfoldable pub cleared_or : String → Option String
cleared_or t = if is_empty (trim t) then none else some (trim t)

-- One round of the loop that trims and de-duplicates.
unfoldable pub push_handle : List String → String → List String
push_handle acc handle =
    if not (is_empty handle) && not (includes handle acc) then acc ++ (handle ∷ []) else acc

unfoldable pub push_handles : List String → List String → List String
push_handles acc [] = acc
push_handles acc (raw ∷ raws) = push_handles (push_handle acc (trim raw)) raws

-- `if (selected && !handles.includes(selected)) selected = null`
unfoldable pub keep_selected : Option String → List String → Option String
keep_selected none hs = none
keep_selected (some t) hs = if not (is_empty t) && not (includes t hs) then none else some t

-- `selected ?? handles[0] ?? null`
unfoldable pub selected_or_first : Option String → List String → Option String
selected_or_first (some t) hs = some t
selected_or_first none [] = none
selected_or_first none (h ∷ hs) = some h

-- The selection that was sent, or else the stored one.
unfoldable pub sent_or_stored : Option String → Option String → Option String
sent_or_stored none stored = stored
sent_or_stored (some t) stored = cleared_or t

-- A list was sent.
unfoldable pub settle_list : Option String → Contact → List String → Contact
settle_list telegram current handles = record {
  telegram =
      selected_or_first (keep_selected (sent_or_stored telegram current.telegram) handles) handles;
  handles = handles;
}

-- A selection was sent without a list.
unfoldable pub settle_selection : Option String → Contact → Contact
settle_selection none current = record current { telegram = none }
settle_selection (some t) current = record {
  telegram = some t;
  handles = if includes t current.handles then current.handles else current.handles ++ (t ∷ []);
}

unfoldable pub settle_contact : ContactDto → Contact → Contact
settle_contact dto current = elim (dto.handles) [
  | some raws ↦ settle_list dto.telegram current (push_handles [] raws)
  | none ↦ elim (dto.telegram) [ none ↦ current | some t ↦ settle_selection (cleared_or t) current ]
]
