-- ===== src/Uploads/Found.antt =====
-- Proofs on tests of the rows that a query finds.
use itc_sharing_backend.Base.{
  ◌≡◌, refl, sym, ◌∙◌, ap, Bool, ◌&&◌, List, [], ◌∷◌, any, count, ltb, arith, Orm,
}

any-count : {A : Type 0} (q : A → Bool) (xs : List A) → any q xs ≡ ltb 0 (count q xs)
any-count q [] = refl
any-count q (x ∷ xs) = ground (arith, any-count q xs)

-- A test holds of a row that is found, where it holds of a row of the table that the query takes.
pub any-find :
    {A : Type 0} (db : Orm) (q p : A → Bool) (t : List A)
    → any q (db.find p t) ≡ any (λ r. q r && p r) t
any-find db q p t =
    any-count q (db.find p t) ∙ ap (ltb 0) (db.find_count q p t) ∙ sym (any-count _ t)
