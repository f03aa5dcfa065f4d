-- ===== src/Telegram/Asked.antt =====
-- Proofs on histories of links: who asked for them, and that the secret of a link serves once.
use itc_sharing_backend.Base.{
  ℕ, ◌≡◌, sym, ◌∙◌, subst, Bool, true, false, not, ◌&&◌, ◌||◌, String, Option, none, some, List, [],
  ◌∷◌, map, ◌==◌, any, count, patch, arith, if◌then◌else◌, Bool-cases, inl, inr, ◌⊎◌, Outcome,
  after, Orm, any-map_le, any-eq-count, any_of_count, bind_get, bind_guard, bind_modify, pure,
  modify,
}
use itc_sharing_backend.Telegram.Linking.{
  LinkToken, Contact, Telegram, LinkResult, put_contacts, put_tokens, has_token_shape, is_live,
  spend, has_chat, connect, disconnect, create_link_token, link_user, redeem_shaped, redeem, unlink,
  deliver, notify_user, LinkCall, create, start, leave, notify, link_step, link_run,
}

-- Notifications of the account go to the chat.
abbrev pub goes_to : ℕ → ℕ → Contact → Bool
goes_to x c u = u.id == x && has_chat c u

abbrev pub Reaches : ℕ → ℕ → Telegram → Type 0
Reaches x c s = any (goes_to x c) s.users ≡ true

-- A token of the account that its secret redeems.
abbrev pub serves : ℕ → String → ℕ → LinkToken → Bool
serves x hash now t = t.user_id == x && is_live hash now t

any-connect :
    (x c now t c' : ℕ) (us : List Contact)
    → any (goes_to x c) (map (patch (λ (u : Contact). u.id == t) (connect now c')) us) ≡ true
    → (any (goes_to x c) us ≡ true) ⊎ ((t == x && c' == c) ≡ true)
any-connect x c now t c' [] h = absurd (cc)
any-connect x c now t c' (u ∷ us) h = elim (Bool-cases (u.id == t)) [
  | inl e ↦ ground (arith, e, any-connect x c now t c' us)
  | inr e ↦ ground (arith, e, any-connect x c now t c' us)
]

module _ (db : Orm) (sha256 : String → String) where
  -- The chat sent the secret of a token that the account had then, unused and in time.
  pub data Asked : List LinkCall → Telegram → ℕ → ℕ → Type 0 where
    by_start :
        {now x c : ℕ} {raw : String} {cs : List LinkCall} {s : Telegram}
        → any (serves x (sha256 raw) now) s.tokens ≡ true
        → Asked (start now raw c ∷ cs) s x c
    later :
        {call : LinkCall} {cs : List LinkCall} {s : Telegram} {x c : ℕ}
        → Asked cs (link_step db sha256 call s) x c
        → Asked (call ∷ cs) s x c

  disconnected :
      (test : Contact → Bool) (x c : ℕ) (us : List Contact)
      → any (goes_to x c) (db.update test disconnect us) ≡ true
      → any (goes_to x c) us ≡ true
  disconnected test x c us h =
      any-map_le (goes_to x c) (patch test disconnect) us
        (λ u e. elim (Bool-cases (test u)) [
          | inl t ↦
              let gone : goes_to x c (disconnect u) ≡ true = rw t at e in absurd (ground arith)
          | inr t ↦ rw t at e
        ])
        (subst (λ us'. any (goes_to x c) us' ≡ true) (db.update_eq test disconnect us) h)

  create-Reaches :
      (is_configured : Bool) (now u : ℕ) (raw : String) (x c : ℕ) (s : Telegram)
      → Reaches x c (after (create_link_token db sha256 is_configured now u raw s))
      → Reaches x c s
  unfolding create_link_token modify pure
  create-Reaches is_configured now u raw x c s =
      let Q : Outcome Telegram String → Type 0 = λ o. Reaches x c (after o) → Reaches x c s in
      bind_guard Q _ _ _ s (λ _ h. h)
        (λ _.
          bind_modify Q _ _ s
            (bind_get Q _ _ (bind_guard Q _ _ _ _ (λ _ h. h) (λ _. bind_modify Q _ _ _ (λ h. h)))))

  unlink-Reaches :
      (now u x c : ℕ) (s : Telegram)
      → Reaches x c (after (unlink db sha256 now u s))
      → Reaches x c s
  unfolding unlink modify
  unlink-Reaches now u x c s =
      bind_modify (λ o. Reaches x c (after o) → Reaches x c s) _ _ s (disconnected _ x c s.users)

  deliver-Reaches :
      (sent reachable : Bool) (o : Option ℕ) (x c : ℕ) (s : Telegram)
      → Reaches x c (after (deliver db sha256 sent reachable o s))
      → Reaches x c s
  unfolding modify pure
  deliver-Reaches sent reachable none x c s h = h
  deliver-Reaches sent reachable (some chat) x c s h =
      bind_modify (λ o. Reaches x c (after o) → Reaches x c s) _ _ s (dropped (sent || reachable)) h
    where
      dropped :
          (b : Bool)
          → Reaches x c
              (if b then s else put_contacts (db.update (has_chat chat) disconnect s.users) s)
          → Reaches x c s
      dropped true h = h
      dropped false h = disconnected (has_chat chat) x c s.users h

  -- The user of the first token that was spent.
  link_user-Reaches :
      (now c' : ℕ) (ts : List LinkToken) (x c : ℕ) (s : Telegram)
      → Reaches x c (after (link_user db sha256 now c' ts s))
      → Reaches x c s ⊎ ((c' ≡ c) × any (λ (t : LinkToken). t.user_id == x) ts ≡ true)
  unfolding modify pure
  link_user-Reaches now c' [] x c s h = inl h
  link_user-Reaches now c' (t ∷ ts) x c s h =
      let Q : Outcome Telegram LinkResult → Type 0 = λ o.
        Reaches x c (after o)
        → Reaches x c s ⊎ ((c' ≡ c) × any (λ (t : LinkToken). t.user_id == x) (t ∷ ts) ≡ true) in
      bind_get Q _ s
        (bind_modify Q _ _ s
          (joined (any (λ (u : Contact). has_chat c' u && not (u.id == t.user_id)) s.users)))
        h
    where
      from :
          (any (goes_to x c) s.users ≡ true) ⊎ ((t.user_id == x && c' == c) ≡ true)
          → Reaches x c s ⊎ ((c' ≡ c) × any (λ (t : LinkToken). t.user_id == x) (t ∷ ts) ≡ true)
      from (inl h) = inl h
      from (inr h) = inr (ground arith, ground arith)

      joined :
          (b : Bool)
          → Reaches x c (
              if b
              then s
              else put_contacts
                  (db.update (λ (u : Contact). u.id == t.user_id) (connect now c') s.users)
                  s)
          → Reaches x c s ⊎ ((c' ≡ c) × any (λ (t : LinkToken). t.user_id == x) (t ∷ ts) ≡ true)
      joined true h = inl h
      joined false h = from (
          any-connect x c now t.user_id c' s.users
            (subst (λ us. any (goes_to x c) us ≡ true) (db.update_eq _ _ s.users) h))

  -- A spent token of the account was one that the secret redeems.
  found_serves :
      (hash : String) (now x : ℕ) (ts : List LinkToken)
      → any (λ (t : LinkToken). t.user_id == x) (db.find (is_live hash now) ts) ≡ true
      → any (serves x hash now) ts ≡ true
  found_serves hash now x ts h = elim (Bool-cases (any (serves x hash now) ts)) [
    | inl e ↦ e
    | inr e ↦
        let zero_of : count (λ (t : LinkToken). t.user_id == x) (db.find (is_live hash now) ts)
            ≡ 0 =
          db.find_count (λ (t : LinkToken). t.user_id == x) (is_live hash now) ts
          ∙ any-eq-count (serves x hash now) ts e in
        let nothing : any (λ (t : LinkToken). t.user_id == x) (db.find (is_live hash now) ts)
            ≡ false =
          any_of_count _ _ zero_of in
        absurd (cc)
  ]

  redeem_shaped-Reaches :
      (b : Bool) (now : ℕ) (raw : String) (c' x c : ℕ) (s : Telegram)
      → Reaches x c (after (redeem_shaped db sha256 b now raw c' s))
      → Reaches x c s ⊎ ((c' ≡ c) × any (serves x (sha256 raw) now) s.tokens ≡ true)
  unfolding pure
  redeem_shaped-Reaches false now raw c' x c s h = inl h
  redeem_shaped-Reaches true now raw c' x c s h =
      let Q : Outcome Telegram LinkResult → Type 0 = λ o.
        Reaches x c (after o)
        → Reaches x c s ⊎ ((c' ≡ c) × any (serves x (sha256 raw) now) s.tokens ≡ true) in
      bind_get Q _ s
        (bind_modify Q _ _ s (λ h1.
          elim (link_user-Reaches now c' (db.find (is_live (sha256 raw) now) s.tokens) x c
            (put_tokens (db.update (is_live (sha256 raw) now) (spend now) s.tokens) s) h1) [
              | inl old ↦ inl old
              | inr new ↦ inr (new.0, found_serves (sha256 raw) now x s.tokens new.1)
            ]))
        h

  link_step-Asked :
      (call : LinkCall) (cs : List LinkCall) (s : Telegram) (x c : ℕ)
      → Reaches x c (link_step db sha256 call s)
      → Reaches x c s ⊎ Asked (call ∷ cs) s x c
  unfolding link_step redeem notify_user
  link_step-Asked (create is_configured now u raw) cs s x c h =
      inl (create-Reaches is_configured now u raw x c s h)
  link_step-Asked (start now raw c') cs s x c h =
      elim (redeem_shaped-Reaches (has_token_shape raw) now raw c' x c s h) [
        | inl old ↦ inl old
        | inr new ↦
            inr (subst (λ k. Asked (start now raw k ∷ cs) s x c) (sym new.0) (by_start new.1))
      ]
  link_step-Asked (leave now u) cs s x c h = inl (unlink-Reaches now u x c s h)
  link_step-Asked (notify is_configured u sent reachable) cs s x c h = inl (
      bind_get (λ o. Reaches x c (after o) → Reaches x c s) _ s
        (deliver-Reaches sent reachable _ x c s) h)

  -- After any history, the notifications of an account go to a chat only where they did before, or
  -- where that chat sent, in the history, the secret of a token that was the account's, unused and in
  -- time when it was sent.
  pub link_run-Asked :
      (cs : List LinkCall) (s : Telegram) (x c : ℕ)
      → Reaches x c (link_run db sha256 cs s)
      → Reaches x c s ⊎ Asked cs s x c
  unfolding link_run
  link_run-Asked [] s x c h = inl h
  link_run-Asked (call ∷ cs) s x c h = elim (link_run-Asked cs (link_step db sha256 call s) x c h) [
    | inl old ↦ link_step-Asked call cs s x c old
    | inr new ↦ inr (later new)
  ]
