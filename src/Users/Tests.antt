-- ===== src/Users/Tests.antt =====
-- A student and a profile to run on, and the theorems at inputs that meet their hypotheses.
use itc_sharing_backend.Base.{
  ℕ, ◌≡◌, refl, String, Option, none, some, [], ◌∷◌, arith, trim, trim_start, trim_end, is_space,
}
use itc_sharing_backend.Users.Promotion.{
  Student, visits, apply_pending_promotion, is_rollover_due, needs_department_choice,
  is_foundation_major, promote, advance_year_level, year_levels_for_major, first_stamp, stamp_where,
}
use itc_sharing_backend.Users.Rollover.{scheduled, IsVisited, visits-IsVisited, visits-early}
use itc_sharing_backend.Users.Handles.{
  Contact, ContactDto, settle_contact, settle_list, push_handles, push_handle, keep_selected,
  selected_or_first, sent_or_stored,
}
use itc_sharing_backend.Users.Selection.{IsSettled, settle_contact-IsSettled}

abbrev as_typed : String → String
as_typed s = s

abbrev student : Option ℕ → Student
student stamp = record {
  id = 1;
  acronym = some "gic";
  year_level = some 3;
  promoted_rollover_at = stamp;
}

-- Stamped by an earlier rollover: one year, at the first visit after the date.
third_to_fourth :
    (visits as_typed (scheduled as_typed 100 (90 ∷ 110 ∷ 120 ∷ [])) (student (some 50))).year_level
    ≡ some 4
unfolding visits apply_pending_promotion is_rollover_due needs_department_choice is_foundation_major
    promote advance_year_level year_levels_for_major first_stamp stamp_where
third_to_fourth = refl

visits-IsVisited_example :
    IsVisited as_typed 100
      (student (some 50))
      (visits as_typed (scheduled as_typed 100 (90 ∷ 110 ∷ 120 ∷ [])) (student (some 50)))
visits-IsVisited_example = visits-IsVisited as_typed 100 (90 ∷ 110 ∷ 120 ∷ []) (student (some 50))

visits-early_example :
    (visits as_typed (scheduled as_typed 100 (90 ∷ 110 ∷ 120 ∷ [])) (student none)).year_level
    ≡ some 3
visits-early_example =
    visits-early as_typed 100 90 (110 ∷ 120 ∷ []) (student none) (omega arith) refl

abbrev profile : Contact
profile = record { telegram = some "@ann"; handles = "@ann" ∷ "@ann_sok" ∷ [] }

profile-IsSettled : IsSettled profile
profile-IsSettled = record {
  handles = record { filled = (refl, (refl, tt)); distinct = (refl, (refl, tt)) };
  selected = (refl, refl);
}

abbrev new_list : ContactDto
new_list = record { telegram = none; handles = some (" @bob" ∷ "" ∷ "@bob" ∷ []) }

first_of_new_list :
    settle_contact new_list profile ≡ record { telegram = some "@bob"; handles = "@bob" ∷ [] }
unfolding settle_contact settle_list push_handles push_handle keep_selected selected_or_first
    sent_or_stored trim trim_start trim_end is_space
first_of_new_list = refl

settle_contact-IsSettled_example : IsSettled (settle_contact new_list profile)
settle_contact-IsSettled_example = settle_contact-IsSettled new_list profile profile-IsSettled
