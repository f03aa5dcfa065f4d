-- ===== src/Moderation/Standing/Bans.antt =====
-- Proofs on banUser and unbanUser.
use itc_sharing_backend.Base.{
  ℕ, ◌≤◌, ◌≡◌, refl, sym, subst, true, not, String, Option, none, some, ◌∷◌, ◌==◌, ltb, count,
  arith, Bool-cases, inl, inr, Outcome, after, Orm, bind_get, bind_guard, bind_expect, bind_modify,
  modify, count-patch-le, count-keep-le,
}
use itc_sharing_backend.Moderation.Reviewers.{unassign_all, same_assignment}
use itc_sharing_backend.Moderation.Accounts.{
  Ban, Accounts, kept_reason, bars, lift, ban_user, unban_user,
}
use itc_sharing_backend.Moderation.Standing.Invariant.{Sound, aside, with_bans, with_moderators}

module _ (db : Orm) (lower : String → String) where
  abbrev Q : {A : Type 0} → Outcome Accounts A → Type 0
  Q o = Sound lower (after o)

  -- One more ban of a user who has none in force.
  ban_one :
      (s : Accounts) (t : ℕ) (b : Ban)
      → Sound lower s
      → b.user_id ≡ t
      → count (bars t) s.bans ≡ 0
      → (x : ℕ) → count (bars x) (b ∷ s.bans) ≤ 1
  ban_one s t b sound of_t unbarred x = elim (Bool-cases (t == x)) [
    | inl e ↦
        let here : t ≡ x = ground arith in
        let now : count (bars x) s.bans ≡ 0 =
          subst (λ y. count (bars y) s.bans ≡ 0) here unbarred in
        ground (arith, now)
    | inr e ↦ ground (arith, sound.barred x, of_t, e)
  ]

  pub ban_user-Sound :
      (now t actor : ℕ) (reason : Option String) (s : Accounts)
      → Sound lower s
      → Sound lower (after (ban_user db lower now t actor reason s))
  unfolding ban_user modify unassign_all
  ban_user-Sound now t actor reason s sound =
      bind_guard Q _ _ _ s (λ _. sound)
        (λ _. bind_get Q _ s (
          bind_expect Q _ _ _ s (λ _. sound)
            (λ u found.
              bind_guard Q _ _ _ s (λ _. sound)
                (λ _.
                  bind_guard Q _ _ _ s (λ _. sound)
                    (λ free. bind_modify Q _ _ s (
                      bind_modify Q _ _ _ (
                        with_moderators lower _ _
                          (aside lower _ _ _ (
                            with_bans lower s _ sound (λ x.
                              ban_one s t
                                (record {
                                  user_id = t;
                                  reason = kept_reason reason;
                                  banned_by = some actor;
                                  banned_at = now;
                                  lifted_at = none;
                                  lifted_by = none;
                                })
                                sound refl (unbarred free) x)))
                          (λ x y.
                            subst (λ ms. count (same_assignment x y) ms ≤ 1)
                              (sym (db.delete_eq _ s.moderators))
                              (omega (
                                arith,
                                sound.appointed x y,
                                count-keep-le (same_assignment x y) (λ r. not (r.user_id == t))
                                    s.moderators,
                              ))))))))))
    where
      unbarred : not (ltb 0 (db.count_by (bars t) s.bans)) ≡ true → count (bars t) s.bans ≡ 0
      unbarred free = ground (arith, db.count_by_eq (bars t) s.bans)

  pub unban_user-Sound :
      (now t actor : ℕ) (s : Accounts)
      → Sound lower s
      → Sound lower (after (unban_user db lower now t actor s))
  unfolding unban_user modify
  unban_user-Sound now t actor s sound = bind_get Q _ s (
      bind_expect Q _ _ _ s (λ _. sound)
        (λ u found. bind_modify Q _ _ s (
          aside lower _ _ _ (
            with_bans lower s _ sound (λ x.
              subst (λ bs. count (bars x) bs ≤ 1) (sym (db.update_eq _ _ s.bans))
                (omega (
                  arith,
                  sound.barred x,
                  count-patch-le (bars x) (bars t) (lift now actor) s.bans (λ b h. ground arith),
                )))))))
