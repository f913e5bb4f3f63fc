-- ===== src/Derivre/Sound/Sort.antt =====
-- `sort_unstable` on the arguments of `mk_and` and `mk_or` of controllers/derivre/src/simplify.rs.
use aici.Prelude.{ℕ, ◌≡◌, refl, sym, ◌∙◌, ap, ltb, Bool-cases, inl, inr, List, [], ◌∷◌}
use aici.Derivre.Ast.{ExprSet}
use aici.Derivre.Simplify.{insert_id, sort_ids}
use aici.Derivre.Language.{Lang}
use aici.Derivre.Denotes.{Denotes, DenotesAll, none_denoted, one_denoted}

-- An operation that does not heed the order.
module _ (s : ExprSet) (op : List Lang → Lang) (glue : Lang → Lang → Lang)
    (cons : (l : Lang) (ls : List Lang) → op (l ∷ ls) ≡ glue l (op ls))
    (swap : (l m k : Lang) → glue l (glue m k) ≡ glue m (glue l k)) where
  pub insert_id-DenotesAll :
      {e : ℕ} {l : Lang} {es : List ℕ} {ls : List Lang}
      → Denotes s e l
      → DenotesAll s es ls
      → (ks : List Lang) × DenotesAll s (insert_id e es) ks × (op ks ≡ op (l ∷ ls))
  insert_id-DenotesAll {l = l} d none_denoted = (l ∷ [], one_denoted d none_denoted, refl)
  insert_id-DenotesAll {e} {l} d (one_denoted {e = x} {l = m} {es} {ls} d2 ds) =
      let rest = insert_id-DenotesAll d ds in
      elim (Bool-cases (ltb x e)) [
        | inl less ↦ rw less (
          m ∷ rest.0,
          one_denoted d2 rest.1,
          cons m rest.0
              ∙ ap (glue m) (rest.2 ∙ cons l ls)
              ∙ swap m l (op ls)
              ∙ ap (glue l) (sym (cons m ls))
              ∙ sym (cons l (m ∷ ls)),
        )
        | inr more ↦ rw more (l ∷ m ∷ ls, one_denoted d (one_denoted d2 ds), refl)
      ]

  pub sort_ids-DenotesAll :
      {es : List ℕ} {ls : List Lang}
      → DenotesAll s es ls
      → (ks : List Lang) × DenotesAll s (sort_ids es) ks × (op ks ≡ op ls)
  sort_ids-DenotesAll none_denoted = ([], none_denoted, refl)
  sort_ids-DenotesAll (one_denoted {l = l} {ls = ls} d ds) =
      let rest = sort_ids-DenotesAll ds in
      let put = insert_id-DenotesAll d rest.1 in
      (put.0, put.1, put.2 ∙ cons l rest.0 ∙ ap (glue l) rest.2 ∙ sym (cons l ls))
