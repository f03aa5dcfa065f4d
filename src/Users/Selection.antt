-- ===== src/Users/Selection.antt =====
-- Proofs on the Telegram contact of UsersService.updateMe.
use text.Mathlib.TextEquality.{eq_iff}
use text.Mathlib.TextPositions.{eq_refl}
use itc_sharing_backend.Base.{
  ◌≡◌, refl, sym, true, false, not, ◌&&◌, ◌||◌, String, Option, none, some, List, [], ◌∷◌, ◌++◌,
  same_text, trim, is_empty, All, arith, Bool-cases, inl, inr,
}
use itc_sharing_backend.Users.Handles.{
  Contact, ContactDto, includes, cleared_or, push_handle, push_handles, keep_selected,
  selected_or_first, sent_or_stored, settle_list, settle_selection, settle_contact,
}

abbrev pub IsDistinct : List String → Type 0
IsDistinct [] = Unit
IsDistinct (h ∷ hs) = (includes h hs ≡ false) × IsDistinct hs

-- Handles are not empty, and each occurs once.
pub record AreHandles (hs : List String) : Type 0 where
  pub filled : All (λ h. is_empty h ≡ false) hs
  pub distinct : IsDistinct hs

-- The selection, if any, is a handle of the list.
abbrev pub IsSelected : Option String → List String → Type 0
IsSelected none hs = Unit
IsSelected (some t) hs = (includes t hs ≡ true) × (is_empty t ≡ false)

pub record IsSettled (c : Contact) : Type 0 where
  pub handles : AreHandles c.handles
  pub selected : IsSelected c.telegram c.handles

same_text_sym : (s t : String) → same_text s t ≡ false → same_text t s ≡ false
same_text_sym s t h = elim (Bool-cases (same_text t s)) [
  | inr e ↦ e
  | inl e ↦ let yes : same_text s t ≡ true = (eq_iff s t).1 (sym ((eq_iff t s).0 e)) in cc
]

includes-append :
    (x h : String) (hs : List String)
    → includes x (hs ++ (h ∷ [])) ≡ (includes x hs || same_text x h)
includes-append x h [] = ground arith
includes-append x h (y ∷ hs) = ground (arith, includes-append x h hs)

IsDistinct-snoc :
    (h : String) (hs : List String)
    → includes h hs ≡ false
    → IsDistinct hs
    → IsDistinct (hs ++ (h ∷ []))
IsDistinct-snoc h [] new d = (refl, tt)
IsDistinct-snoc h (y ∷ hs) new d =
    let y_new : same_text y h ≡ false = same_text_sym h y (ground arith) in
    (rw (includes-append y h hs, d.0) y_new, IsDistinct-snoc h hs (ground arith) d.1)

filled_snoc :
    (h : String) (hs : List String)
    → is_empty h ≡ false
    → All (λ x. is_empty x ≡ false) hs
    → All (λ x. is_empty x ≡ false) (hs ++ (h ∷ []))
filled_snoc h [] e a = (e, tt)
filled_snoc h (y ∷ hs) e a = (a.0, filled_snoc h hs e a.1)

AreHandles-snoc :
    (h : String) (hs : List String)
    → is_empty h ≡ false
    → includes h hs ≡ false
    → AreHandles hs
    → AreHandles (hs ++ (h ∷ []))
AreHandles-snoc h hs e new a = record {
  filled = filled_snoc h hs e a.filled;
  distinct = IsDistinct-snoc h hs new a.distinct;
}

push_handle-AreHandles :
    (acc : List String) (h : String) → AreHandles acc → AreHandles (push_handle acc h)
unfolding push_handle
push_handle-AreHandles acc h a = elim (Bool-cases (not (is_empty h) && not (includes h acc))) [
  | inr e ↦ rw e a
  | inl e ↦ rw e (AreHandles-snoc h acc (ground arith) (ground arith) a)
]

push_handles-AreHandles :
    (acc raws : List String) → AreHandles acc → AreHandles (push_handles acc raws)
unfolding push_handles
push_handles-AreHandles acc [] a = a
push_handles-AreHandles acc (raw ∷ raws) a =
    push_handles-AreHandles (push_handle acc (trim raw)) raws
      (push_handle-AreHandles acc (trim raw) a)

abbrev IsFilled : Option String → Type 0
IsFilled none = Unit
IsFilled (some t) = is_empty t ≡ false

cleared_or-IsFilled : (t : String) → IsFilled (cleared_or t)
unfolding cleared_or
cleared_or-IsFilled t = elim (Bool-cases (is_empty (trim t))) [ inl e ↦ rw e tt | inr e ↦ rw e e ]

first-IsSelected : (hs : List String) → AreHandles hs → IsSelected (selected_or_first none hs) hs
unfolding selected_or_first
first-IsSelected [] a = tt
first-IsSelected (h ∷ hs) a = (rw (eq_refl h) refl, a.filled.0)

chosen-IsSelected :
    (t : String) (hs : List String)
    → includes t hs ≡ true
    → is_empty t ≡ false
    → IsSelected (selected_or_first (some t) hs) hs
unfolding selected_or_first
chosen-IsSelected t hs e f = (e, f)

kept-IsSelected :
    (o : Option String) (hs : List String)
    → IsFilled o
    → AreHandles hs
    → IsSelected (selected_or_first (keep_selected o hs) hs) hs
unfolding keep_selected
kept-IsSelected none hs f a = first-IsSelected hs a
kept-IsSelected (some t) hs f a = elim (Bool-cases (includes t hs)) [
  | inl e ↦ rw (f, e) (chosen-IsSelected t hs e f)
  | inr e ↦ rw (f, e) (first-IsSelected hs a)
]

stored-IsFilled : (c : Contact) → IsSettled c → IsFilled c.telegram
stored-IsFilled c h = of c.telegram c.handles h.selected
  where
    of : (o : Option String) (hs : List String) → IsSelected o hs → IsFilled o
    of none hs w = tt
    of (some t) hs w = w.1

sent-IsFilled :
    (o : Option String) (c : Contact) → IsSettled c → IsFilled (sent_or_stored o c.telegram)
unfolding sent_or_stored
sent-IsFilled none c h = stored-IsFilled c h
sent-IsFilled (some t) c h = cleared_or-IsFilled t

selection-IsSettled :
    (o : Option String) (c : Contact) → IsFilled o → IsSettled c → IsSettled (settle_selection o c)
unfolding settle_selection
selection-IsSettled none c f h = record { handles = h.handles; selected = tt }
selection-IsSettled (some t) c f h = elim (Bool-cases (includes t c.handles)) [
  | inl e ↦ record { handles = rw e h.handles; selected = rw (e, e) (refl, f) }
  | inr e ↦ record {
    handles = rw e (AreHandles-snoc t c.handles f e h.handles);
    selected = rw (e, includes-append t t c.handles, e, eq_refl t) (refl, f);
  }
]

-- Whatever fields of the Telegram contact an update sends, if the stored handles were not empty
-- strings, were distinct, and included the selected one, if any, then so they are after it.
pub settle_contact-IsSettled :
    (dto : ContactDto) (c : Contact) → IsSettled c → IsSettled (settle_contact dto c)
unfolding settle_contact settle_list
settle_contact-IsSettled dto c h = by dto.handles dto.telegram
  where
    by :
        (hs : Option (List String)) (t : Option String)
        → IsSettled (settle_contact (record { telegram = t; handles = hs }) c)
    by (some raws) t =
        let a = push_handles-AreHandles [] raws (record { filled = tt; distinct = tt }) in
        record {
          handles = a;
          selected =
              kept-IsSelected (sent_or_stored t c.telegram) (push_handles [] raws)
                (sent-IsFilled t c h) a;
        }
    by none none = h
    by none (some t) = selection-IsSettled (cleared_or t) c (cleared_or-IsFilled t) h
