-- ===== src/Telegram/Once.antt =====
-- Proofs on redeem: a secret that was sent twice.
use itc_sharing_backend.Base.{
  ℕ, ◌≤◌, ◌≡◌, refl, sym, ◌∙◌, subst, Bool, true, false, String, List, [], ◌∷◌, map, count, length,
  patch, arith, Bool-cases, inl, inr, Outcome, after, done, Orm, map-patch_none, bind_get,
  bind_modify, pure, modify,
}
use itc_sharing_backend.Telegram.Linking.{
  LinkToken, Telegram, LinkResult, invalid, put_tokens, has_token_shape, is_live, spend, link_user,
  redeem_shaped, redeem,
}

no_rows : {A : Type 0} (xs : List A) → length xs ≡ 0 → xs ≡ []
no_rows [] h = refl
no_rows (x ∷ xs) h = absurd (ground arith)

-- Nothing that was live is live later.
count-spent :
    (hash : String) (now now' : ℕ) (ts : List LinkToken)
    → now ≤ now'
    → count (is_live hash now') (map (patch (is_live hash now) (spend now)) ts) ≡ 0
count-spent hash now now' [] h = refl
count-spent hash now now' (t ∷ ts) h = elim (Bool-cases (is_live hash now t)) [
  | inl e ↦ ground (arith, e, h, count-spent hash now now' ts)
  | inr e ↦ ground (arith, e, h, count-spent hash now now' ts)
]

module _ (db : Orm) (sha256 : String → String) where
  link_user-tokens :
      (now c : ℕ) (ts : List LinkToken) (s : Telegram)
      → (after (link_user db sha256 now c ts s)).tokens ≡ s.tokens
  unfolding modify pure
  link_user-tokens now c [] s = refl
  link_user-tokens now c (t ∷ ts) s =
      let Q : Outcome Telegram LinkResult → Type 0 = λ o. (after o).tokens ≡ s.tokens in
      bind_get Q _ s (bind_modify Q _ _ s (ground arith))

  left_none :
      (now now' : ℕ) (raw : String) (c : ℕ) (s : Telegram)
      → now ≤ now'
      → count (is_live (sha256 raw) now') (after (redeem_shaped db sha256 true now raw c s)).tokens
        ≡ 0
  left_none now now' raw c s h =
      let Q : Outcome Telegram LinkResult → Type 0 =
        λ o. count (is_live (sha256 raw) now') (after o).tokens ≡ 0 in
      bind_get Q _ s (
        bind_modify Q _ _ s (
          subst (λ ts. count (is_live (sha256 raw) now') ts ≡ 0)
            (sym (
              link_user-tokens now c (db.find (is_live (sha256 raw) now) s.tokens)
                (put_tokens (db.update (is_live (sha256 raw) now) (spend now) s.tokens) s)
              ∙ db.update_eq (is_live (sha256 raw) now) (spend now) s.tokens))
            (count-spent (sha256 raw) now now' s.tokens h)))

  refused :
      (now : ℕ) (raw : String) (c : ℕ) (s : Telegram)
      → count (is_live (sha256 raw) now) s.tokens ≡ 0
      → redeem_shaped db sha256 true now raw c s ≡ done invalid s
  unfolding pure
  refused now raw c s h =
      let Q : Outcome Telegram LinkResult → Type 0 = λ o. o ≡ done invalid s in
      let nothing : db.find (is_live (sha256 raw) now) s.tokens ≡ [] =
        no_rows _ (db.find_length (is_live (sha256 raw) now) s.tokens ∙ h) in
      let same : db.update (is_live (sha256 raw) now) (spend now) s.tokens ≡ s.tokens =
        db.update_eq (is_live (sha256 raw) now) (spend now) s.tokens
        ∙ map-patch_none (is_live (sha256 raw) now) (spend now) s.tokens h in
      bind_get Q _ s (bind_modify Q _ _ s (rw (nothing, same) refl))

  again :
      (b : Bool) (now now' : ℕ) (raw : String) (c c' : ℕ) (s : Telegram)
      → now ≤ now'
      → redeem_shaped db sha256 b now' raw c' (after (redeem_shaped db sha256 b now raw c s))
        ≡ done invalid (after (redeem_shaped db sha256 b now raw c s))
  unfolding pure
  again false now now' raw c c' s h = refl
  again true now now' raw c c' s h =
      refused now' raw c' (after (redeem_shaped db sha256 true now raw c s))
        (left_none now now' raw c s h)

  -- A secret that was sent once, whatever came of it, is refused when it is sent again at that time or
  -- later, from whichever chat, and the second message changes nothing.
  pub redeem_once :
      (now now' : ℕ) (raw : String) (c c' : ℕ) (s : Telegram)
      → now ≤ now'
      → redeem db sha256 now' raw c' (after (redeem db sha256 now raw c s))
        ≡ done invalid (after (redeem db sha256 now raw c s))
  unfolding redeem
  redeem_once now now' raw c c' s h = again (has_token_shape raw) now now' raw c c' s h
