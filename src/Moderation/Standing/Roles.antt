-- ===== src/Moderation/Standing/Roles.antt =====
-- Proofs on setUserRole.
use itc_sharing_backend.Base.{
  ℕ, ◌+◌, ◌≤◌, ◌≡◌, refl, sym, subst, Bool, true, false, not, ◌&&◌, String, List, [], ◌∷◌, map,
  ◌==◌, leb, count, patch, arith, if◌then◌else◌, Bool-cases, inl, inr, Outcome, after, Occurs, All,
  All-map-patch, Orm, bind_get, bind_guard, bind_expect, bind_modify, modify, count_none_of,
  count-le-count,
}
use itc_sharing_backend.Moderation.Accounts.{
  Role, plain, admin, is_admin, Member, Accounts, with_role, set_user_role,
}
use itc_sharing_backend.Moderation.Standing.Invariant.{
  is_placed, Sound, with_users, aside, same_ids,
}

-- An update of roles costs no more administrators than the rows it matches have.
count-with_role :
    (t : ℕ) (role : Role) (us : List Member)
    → count (λ (u : Member). is_admin u.role) us
      ≤ count
          (λ (u : Member). is_admin u.role)
          (map (patch (λ (u : Member). u.id == t) (with_role role)) us)
        + count (λ (u : Member). u.id == t && is_admin u.role) us
count-with_role t role [] = omega arith
count-with_role t role (u ∷ us) = elim (Bool-cases (u.id == t)) [
  | inl e ↦ ground (arith, e, count-with_role t role us)
  | inr e ↦ ground (arith, e, count-with_role t role us)
]

count-with_admin :
    (t : ℕ) (us : List Member)
    → count (λ (u : Member). is_admin u.role) us
      ≤ count
          (λ (u : Member). is_admin u.role)
          (map (patch (λ (u : Member). u.id == t) (with_role admin)) us)
unfolding is_admin
count-with_admin t [] = omega arith
count-with_admin t (u ∷ us) = elim (Bool-cases (u.id == t)) [
  | inl e ↦ ground (arith, e, count-with_admin t us)
  | inr e ↦ ground (arith, e, count-with_admin t us)
]

module _ (db : Orm) (lower : String → String) where
  abbrev Q : {A : Type 0} → Outcome Accounts A → Type 0
  Q o = Sound lower (after o)

  -- What an update of a role must leave: an administrator.
  led_after :
      (t : ℕ) (role : Role) (u : Member) (s : Accounts)
      → Sound lower s
      → Occurs u s.users
      → (u.id == t) ≡ true
      → not (
          is_admin u.role
          && not (is_admin role)
          && leb (count (λ (v : Member). is_admin v.role) s.users) 1)
        ≡ true
      → 1
        ≤ count
            (λ (v : Member). is_admin v.role)
            (map (patch (λ (v : Member). v.id == t) (with_role role)) s.users)
  led_after t admin u s sound o hit h = omega (arith, sound.led, count-with_admin t s.users)
  led_after t plain u s sound o hit h = elim (Bool-cases (is_admin u.role)) [
    | inl was ↦
        let many : leb (count (λ (v : Member). is_admin v.role) s.users) 1 ≡ false =
          unfold is_admin in ground arith in
        ground (arith, count-with_role t plain s.users, sound.unique t, few)
    | inr was ↦
        let spared : count (λ (v : Member). v.id == t && is_admin v.role) s.users ≡ 0 =
          count_none_of (λ (v : Member). v.id == t && is_admin v.role) (λ (v : Member). v.id == t) o
            hit (ground arith) (λ v e. ground arith) (sound.unique t) in
        omega (arith, sound.led, count-with_role t plain s.users, spared)
  ]
    where
      few :
          count (λ (v : Member). v.id == t && is_admin v.role) s.users
          ≤ count (λ (v : Member). v.id == t) s.users
      few = count-le-count _ _ s.users (λ v e. ground arith)

  pub set_user_role-Sound :
      (t : ℕ) (role : Role) (actor : ℕ) (s : Accounts)
      → Sound lower s
      → Sound lower (after (set_user_role db lower t role actor s))
  unfolding set_user_role modify
  set_user_role-Sound t role actor s sound =
      bind_guard Q _ _ _ s (λ _. sound)
        (λ _. bind_get Q _ s (
          bind_expect Q _ _ _ s (λ _. sound)
            (λ u found.
              let (o, hit) = db.find_one_some _ s.users u found in
              bind_guard Q _ _ _ s (λ _. sound)
                (λ h. bind_modify Q _ _ s (
                  aside lower _ _ _ (
                    with_users lower s _ sound
                      (subst (λ us. 1 ≤ count (λ (v : Member). is_admin v.role) us)
                        (sym (db.update_eq _ _ s.users))
                        (led_after t role u s sound o hit (
                          subst
                            (λ n. not (is_admin u.role && not (is_admin role) && leb n 1) ≡ true)
                            (db.count_by_eq _ s.users) h)))
                      (λ x.
                        subst (λ us. count (λ (v : Member). v.id == x) us ≤ 1)
                          (sym (db.update_eq _ _ s.users))
                          (same_ids lower t (with_role role) s (λ v. refl) sound x))
                      (subst
                        (λ us.
                          All
                            (λ (v : Member).
                              is_placed lower s.majors v.major_id v.year_level ≡ true)
                            us)
                        (sym (db.update_eq _ _ s.users))
                        (All-map-patch _ _ _ (with_role role) s.users
                          (λ v h'. kept (v.id == t) v h') sound.placed))))))))
    where
      kept :
          (b : Bool) (v : Member)
          → is_placed lower s.majors v.major_id v.year_level ≡ true
          → is_placed lower s.majors
              (if b then with_role role v else v).major_id
              (if b then with_role role v else v).year_level
            ≡ true
      kept true v h = h
      kept false v h = h
