-- ===== src/Notifications/Reviewing.antt =====
-- Proofs on createForReviewers: who is told of a submission.
use itc_sharing_backend.Base.{
  ℕ, ◌+◌, ◌≤◌, ◌≡◌, refl, sym, ◌∙◌, subst, Bool, true, false, not, ◌&&◌, String, Option, none, some,
  List, [], ◌∷◌, map, ◌==◌, any, count, bit, arith, if◌then◌else◌, Bool-cases, inl, inr, Orm, after,
  Outcome, done, pure, modify, throw, any_of_count, seq_done, Occurs, ltb, ap, count_pos_at,
  count-le-count, count_none_of, Occurs-unique, ==_refl, ==_iff, any_at,
}
use itc_sharing_backend.Documents.Audience.{same_id}
use itc_sharing_backend.Moderation.Reviewers.{
  Staff, DepartmentModerator, resolve_reviewer, can_moderate,
}
use itc_sharing_backend.Moderation.Accounts.{bars}
use itc_sharing_backend.Notifications.Delivery.{
  Notification, Inbox, ReviewerPayload, put_notifications, notification, create_notification,
  moderates, is_recipient, swallow, notify_all, create_for_reviewers,
}

-- The notifications of a user.
abbrev pub told : ℕ → List Notification → ℕ
told u ns = count (λ (n : Notification). n.user_id == u) ns

module _ (saved : ℕ → Bool) (p : ReviewerPayload) where
  abbrev gets : ℕ → Bool
  gets u = not (same_id p.except_user_id u) && saved u

  -- What one recipient adds.
  abbrev next : Staff → Inbox → Inbox
  next v s = if gets v.id then put_notifications (notification v.id p ∷ s.notifications) s else s

  tell_one :
      (v : Staff) (s : Inbox)
      → (if same_id p.except_user_id v.id
            then pure tt
            else swallow (create_notification saved (notification v.id p)))
          s
        ≡ done tt (next v s)
  unfolding create_notification pure modify throw
  tell_one v s = elim (Bool-cases (same_id p.except_user_id v.id)) [
    | inl e ↦ rw e refl
    | inr e ↦ elim (Bool-cases (saved v.id)) [ inl h ↦ rw (e, h) refl | inr h ↦ rw (e, h) refl ]
  ]

  next-told :
      (v : Staff) (s : Inbox) (u : ℕ)
      → told u (next v s).notifications
        ≡ told u s.notifications + (if gets u then bit (v.id == u) else 0)
  next-told v s u = elim (Bool-cases (v.id == u)) [
    | inl e ↦ let same : v.id ≡ u = ground arith in rw same (ground arith)
    | inr e ↦ ground (arith, e)
  ]

  notify_all-told :
      (us : List Staff) (s : Inbox) (u : ℕ)
      → told u (after (notify_all saved p us s)).notifications
        ≡ told u s.notifications + (if gets u then count (λ (v : Staff). v.id == u) us else 0)
  unfolding notify_all pure
  notify_all-told [] s u = ground arith
  notify_all-told (v ∷ us) s u =
      seq_done
        (λ (o : Outcome Inbox (Unit {0})).
          told u (after o).notifications
          ≡ told u s.notifications
            + (if gets u then count (λ (v : Staff). v.id == u) (v ∷ us) else 0))
        _ _ s (tell_one v s) (ground (arith, notify_all-told us (next v s) u, next-told v s u))

any-count : {A : Type 0} (q : A → Bool) (xs : List A) → any q xs ≡ ltb 0 (count q xs)
any-count q [] = refl
any-count q (x ∷ xs) = ground (arith, any-count q xs)

any-map :
    {A B : Type 0} (q : B → Bool) (f : A → B) (xs : List A)
    → any q (map f xs) ≡ any (λ x. q (f x)) xs
any-map q f [] = refl
any-map q f (x ∷ xs) = ground (arith, any-map q f xs)

count-same :
    {A : Type 0} (q r : A → Bool) (xs : List A) → ((x : A) → q x ≡ r x) → count q xs ≡ count r xs
count-same q r [] h = refl
count-same q r (x ∷ xs) h = ground (arith, h x, count-same q r xs h)

module _ (db : Orm) (lower : String → String) where
  -- The assignments of a reviewer, as the query reads them.
  assigned :
      (major u : ℕ) (ms : List DepartmentModerator)
      → any
          (λ m. m == major)
          (map
            (λ (r : DepartmentModerator). r.major_id)
            (db.find (λ (r : DepartmentModerator). r.user_id == u) ms))
        ≡ any (moderates (some major) u) ms
  assigned major u ms =
      any-map (λ m. m == major) (λ (r : DepartmentModerator). r.major_id)
        (db.find (λ (r : DepartmentModerator). r.user_id == u) ms)
      ∙ any-count (λ (r : DepartmentModerator). r.major_id == major)
          (db.find (λ (r : DepartmentModerator). r.user_id == u) ms)
      ∙ ap (ltb 0) (
          db.find_count (λ (r : DepartmentModerator). r.major_id == major)
            (λ (r : DepartmentModerator). r.user_id == u) ms
          ∙ count-same (λ (r : DepartmentModerator). r.major_id == major && r.user_id == u)
              (moderates (some major) u) ms (λ r. ground arith))
      ∙ sym (any-count (moderates (some major) u) ms)

  -- Where identifiers are unique, a stored user is the one that is found.
  found_one :
      (us : List Staff) (u : Staff)
      → count (λ (v : Staff). v.id == u.id) us ≤ 1
      → Occurs u us
      → db.find_one (λ (v : Staff). v.id == u.id) us ≡ some u
  found_one us u once o = at _ refl
    where
      at :
          (r : Option Staff)
          → db.find_one (λ (v : Staff). v.id == u.id) us ≡ r
          → db.find_one (λ (v : Staff). v.id == u.id) us ≡ some u
      at none e = absurd (
          ground (
            arith,
            db.find_one_none (λ (v : Staff). v.id == u.id) us e,
            count_pos_at (λ (v : Staff). v.id == u.id) o (==_refl u.id),
          ))
      at (some v) e =
          let (ov, hit) = db.find_one_some (λ (v : Staff). v.id == u.id) us v e in
          e ∙ ap some (Occurs-unique (λ (v : Staff). v.id == u.id) ov o hit (==_refl u.id) once)

  -- The query finds whom the review lets in, of those who are not banned.
  is_recipient-can_moderate :
      (s : Inbox) (major : ℕ) (u : Staff)
      → count (λ (v : Staff). v.id == u.id) s.users ≤ 1
      → Occurs u s.users
      → is_recipient lower (some major) s u ≡ (
          not (any (bars u.id) s.bans)
          && can_moderate (resolve_reviewer db lower s.users s.moderators u.id) major)
  unfolding can_moderate resolve_reviewer
  is_recipient-can_moderate s major u once o =
      rw (found_one s.users u once o, assigned major u.id s.moderators) refl

  -- How often a user is among the recipients.
  abbrev may_review : ℕ → Inbox → ℕ → Bool
  may_review major s u =
      not (any (bars u) s.bans)
      && can_moderate (resolve_reviewer db lower s.users s.moderators u) major

  recipients-count :
      (major : ℕ) (s : Inbox) (u : ℕ)
      → ((x : ℕ) → count (λ (v : Staff). v.id == x) s.users ≤ 1)
      → count (λ (v : Staff). v.id == u) (db.find (is_recipient lower (some major) s) s.users)
        ≡ (if any (λ (v : Staff). v.id == u) s.users && may_review major s u then 1 else 0)
  recipients-count major s u unique =
      db.find_count (λ (v : Staff). v.id == u) (is_recipient lower (some major) s) s.users
      ∙ at _ refl
    where
      at :
          (r : Option Staff)
          → db.find_one (λ (v : Staff). v.id == u) s.users ≡ r
          → count (λ (v : Staff). v.id == u && is_recipient lower (some major) s v) s.users
            ≡ (if any (λ (v : Staff). v.id == u) s.users && may_review major s u then 1 else 0)
      at none e =
          let zero_of : count (λ (v : Staff). v.id == u) s.users ≡ 0 =
            db.find_one_none _ s.users e in
          let nobody : any (λ (v : Staff). v.id == u) s.users ≡ false =
            any_of_count _ s.users zero_of in
          ground (
            arith,
            nobody,
            zero_of,
            count-le-count (λ (v : Staff). v.id == u && is_recipient lower (some major) s v)
                (λ (v : Staff). v.id == u) s.users (λ v h. ground arith),
          )
      at (some v) e =
          let (o, hit) = db.find_one_some (λ (v : Staff). v.id == u) s.users v e in
          let same : v.id ≡ u = (==_iff v.id u).0 hit in
          let somebody : any (λ (v : Staff). v.id == u) s.users ≡ true =
            any_at (λ (v : Staff). v.id == u) o hit in
          let asked : is_recipient lower (some major) s v ≡ may_review major s u =
            subst (λ x. is_recipient lower (some major) s v ≡ may_review major s x) same
              (is_recipient-can_moderate s major v (unique v.id) o) in
          elim (Bool-cases (is_recipient lower (some major) s v)) [
            | inl h ↦
                let many : 1
                    ≤ count (λ (v : Staff). v.id == u && is_recipient lower (some major) s v)
                        s.users =
                  count_pos_at (λ (v : Staff). v.id == u && is_recipient lower (some major) s v) o
                    (rw (hit, h) refl) in
                rw (somebody, sym asked ∙ h)
                  (omega (
                    arith,
                    many,
                    unique u,
                    count-le-count (λ (v : Staff). v.id == u && is_recipient lower (some major) s v)
                        (λ (v : Staff). v.id == u) s.users (λ v h. ground arith),
                  ))
            | inr h ↦
                rw (somebody, sym asked ∙ h)
                  (count_none_of (λ (v : Staff). v.id == u && is_recipient lower (some major) s v)
                    (λ (v : Staff). v.id == u) o hit (rw (hit, h) refl) (λ v h. ground arith)
                    (unique u))
          ]

  -- Where identifiers of users are unique, a submission of a department tells a user once where the
  -- user is stored, is not banned, may moderate the department,
  -- did not submit it and the row is saved; and otherwise not at all.
  pub create_for_reviewers-told :
      (saved : ℕ → Bool) (p : ReviewerPayload) (major : ℕ) (s : Inbox) (u : ℕ)
      → ((x : ℕ) → count (λ (v : Staff). v.id == x) s.users ≤ 1)
      → p.major_id ≡ some major
      → told u (after (create_for_reviewers db lower saved p s)).notifications
        ≡ told u s.notifications
          + (if any (λ (v : Staff). v.id == u) s.users
                && (not (any (bars u) s.bans)
                    && (can_moderate (resolve_reviewer db lower s.users s.moderators u) major
                        && (not (same_id p.except_user_id u) && saved u)))
              then 1
              else 0)
  unfolding create_for_reviewers
  create_for_reviewers-told saved p major s u unique at =
      let those : count (λ (v : Staff). v.id == u)
            (db.find (is_recipient lower p.major_id s) s.users)
          ≡ (if any (λ (v : Staff). v.id == u) s.users && may_review major s u then 1 else 0) =
        subst
          (λ o.
            count (λ (v : Staff). v.id == u) (db.find (is_recipient lower o s) s.users)
            ≡ (if any (λ (v : Staff). v.id == u) s.users && may_review major s u then 1 else 0))
          (sym at) (recipients-count major s u unique) in
      ground (
        arith,
        those,
        notify_all-told saved p (db.find (is_recipient lower p.major_id s) s.users) s u,
      )
