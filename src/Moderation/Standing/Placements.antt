-- ===== src/Moderation/Standing/Placements.antt =====
-- Proofs on setUserPlacement and the assignment of moderators.
use itc_sharing_backend.Base.{
  any_at, ℕ, ◌≤◌, ◌≡◌, refl, sym, subst, Bool, true, false, ◌&&◌, String, Option, ◌∷◌, ◌==◌, any,
  count, arith, if◌then◌else◌, Bool-cases, inl, inr, ◌⊎◌, Outcome, after, All, All-map-patch, Orm,
  bind_get, bind_guard, bind_expect, bind_modify, modify, count-patch_same, any-eq-count,
}
use itc_sharing_backend.Documents.Audience.{Major}
use itc_sharing_backend.Moderation.Reviewers.{assign, same_assignment}
use itc_sharing_backend.Moderation.Accounts.{
  is_admin, Member, Accounts, placed_at, offers_year, set_user_placement,
}
use itc_sharing_backend.Moderation.Standing.Invariant.{
  is_placed, Sound, with_users, aside, same_ids,
}

module _ (db : Orm) (lower : String → String) where
  abbrev Q : {A : Type 0} → Outcome Accounts A → Type 0
  Q o = Sound lower (after o)

  pub set_user_placement-Sound :
      (rollover : Option ℕ) (t major year : ℕ) (s : Accounts)
      → Sound lower s
      → Sound lower (after (set_user_placement db lower rollover t major year s))
  unfolding set_user_placement modify
  set_user_placement-Sound rollover t major year s sound = bind_get Q _ s (
      bind_expect Q _ _ _ s (λ _. sound)
        (λ u found.
          bind_expect Q _ _ _ s (λ _. sound)
            (λ m there_is.
              let (o, hit) = db.find_one_some _ s.majors m there_is in
              bind_guard Q _ _ _ s (λ _. sound)
                (λ has. bind_modify Q _ _ s (
                  aside lower _ _ _ (
                    with_users lower s _ sound
                      (subst (λ us. 1 ≤ count (λ (v : Member). is_admin v.role) us)
                        (sym (db.update_eq _ _ s.users))
                        (omega (
                          arith,
                          sound.led,
                          count-patch_same (λ (v : Member). is_admin v.role)
                              (λ (v : Member). v.id == t) (placed_at major year rollover) s.users
                              (λ v h. refl),
                        )))
                      (λ x.
                        subst (λ us. count (λ (v : Member). v.id == x) us ≤ 1)
                          (sym (db.update_eq _ _ s.users))
                          (same_ids lower t (placed_at major year rollover) s (λ v. refl) sound x))
                      (subst
                        (λ us.
                          All
                            (λ (v : Member).
                              is_placed lower s.majors v.major_id v.year_level ≡ true)
                            us)
                        (sym (db.update_eq _ _ s.users))
                        (All-map-patch _ _ _ (placed_at major year rollover) s.users
                          (λ v h'.
                            kept
                              (any_at
                                (λ (r : Major). r.id == major && offers_year lower r.acronym year) o
                                (ground arith))
                              (v.id == t) v h')
                          sound.placed))))))))
    where
      kept :
          any (λ (r : Major). r.id == major && offers_year lower r.acronym year) s.majors ≡ true
          → (b : Bool) (v : Member) → is_placed lower s.majors v.major_id v.year_level ≡ true
          → is_placed lower s.majors
              (if b then placed_at major year rollover v else v).major_id
              (if b then placed_at major year rollover v else v).year_level
            ≡ true
      kept fits true v h = fits
      kept fits false v h = h

  pub assign_unique :
      (u m : ℕ) (s : Accounts)
      → Sound lower s
      → (x y : ℕ) → count (same_assignment x y) (assign u m s.moderators) ≤ 1
  unfolding assign
  assign_unique u m s sound x y = elim (Bool-cases (any (same_assignment u m) s.moderators)) [
    | inl e ↦ rw e (sound.appointed x y)
    | inr e ↦ rw e (added (any-eq-count _ s.moderators e) (Bool-cases (u == x && m == y)))
  ]
    where
      added :
          count (same_assignment u m) s.moderators ≡ 0
          → ((u == x && m == y) ≡ true) ⊎ ((u == x && m == y) ≡ false)
          → count (same_assignment x y) (record { user_id = u; major_id = m } ∷ s.moderators) ≤ 1
      added free (inl h) =
          let at_x : u ≡ x = ground arith in
          let at_y : m ≡ y = ground arith in
          let now : count (same_assignment x y) s.moderators ≡ 0 =
            subst (λ a. count (same_assignment a y) s.moderators ≡ 0) at_x
              (subst (λ c. count (same_assignment u c) s.moderators ≡ 0) at_y free) in
          ground (arith, now)
      added free (inr h) = ground (arith, sound.appointed x y)
