-- ===== src/Derivre/Sound/Flatten.antt =====
-- `flatten_tag` of controllers/derivre/src/simplify.rs, for an operation that arguments of its own
-- join.
use aici.Prelude.{ℕ, ◌≡◌, refl, sym, ◌∙◌, ap, true, some, List, [], ◌∷◌, ◌++◌, if◌then◌else◌}
use aici.Prelude.Results.{Ensures, returns, Ensures-bind, Ensures-if}
use aici.Derivre.Ast.{Expr, ExprSet, ExprTag, args, get_tag}
use aici.Derivre.Simplify.{same_tag, get_args, flatten_rest, flatten_tag}
use aici.Derivre.Language.{Lang}
use aici.Derivre.Denotes.{Denotes, DenotesAll, Means, Ready, node, none_denoted, one_denoted}
use aici.Derivre.Denotes.Nodes.{tag_of, get_tag-stored, get_args-stored}

pub DenotesAll-append :
    (s : ExprSet) {es fs : List ℕ} {ls ms : List Lang}
    → DenotesAll s es ls
    → DenotesAll s fs ms
    → DenotesAll s (es ++ fs) (ls ++ ms)
DenotesAll-append s none_denoted q = q
DenotesAll-append s (one_denoted d ds) q = one_denoted d (DenotesAll-append s ds q)

-- What the set has under the id.
abbrev pub View : ExprSet → ℕ → Lang → Type 0
View s a l =
    (e : Expr) × (get_tag s a ≡ some (tag_of e)) × (get_args s a ≡ some (args e)) × Means s e l

pub Denotes-View : (s : ExprSet) {a : ℕ} {l : Lang} → Ready s → Denotes s a l → View s a l
Denotes-View s {a = a} r (node e st w n m) =
    (e, get_tag-stored s a e st w r, get_args-stored s a e st w r, m)

-- An operation on languages, and the expressions that stand for it.
pub record Joins (s : ExprSet) (tag : ExprTag) (op : List Lang → Lang) (glue : Lang → Lang → Lang)
    : Type 0 where
  pub cons : (l : Lang) (ls : List Lang) → op (l ∷ ls) ≡ glue l (op ls)
  pub append : (ls ms : List Lang) → op (ls ++ ms) ≡ glue (op ls) (op ms)
  pub inverts :
      (e : Expr) (l : Lang)
      → Means s e l
      → same_tag (tag_of e) tag ≡ true
      → (ks : List Lang) × DenotesAll s (args e) ks × (l ≡ op ks)

module _ (s : ExprSet) (r : Ready s) (tag : ExprTag) (op : List Lang → Lang)
    (glue : Lang → Lang → Lang) (j : Joins s tag op glue) where
  -- The arguments are as good as the languages.
  abbrev pub Flat : List Lang → List ℕ → Type 0
  Flat ls es = (ks : List Lang) × DenotesAll s es ks × (op ks ≡ op ls)

  abbrev pub Piece : Lang → List ℕ → Type 0
  Piece l es =
      (ks : List Lang) × DenotesAll s es ks × ((ms : List Lang) → op (ks ++ ms) ≡ glue l (op ms))

  piece :
      {a : ℕ} {l : Lang} (e : Expr)
      → Denotes s a l
      → get_args s a ≡ some (args e)
      → Means s e l
      → Ensures (Piece l) (if same_tag (tag_of e) tag then get_args s a else some (a ∷ []))
  piece {a} {l} e d read m =
      Ensures-if (same_tag (tag_of e) tag)
        (λ same.
          let v = j.inverts e l m same in
          rw read (returns (v.0, v.1, λ ms. j.append v.0 ms ∙ ap (λ k. glue k (op ms)) (sym v.2))))
        λ other. returns (l ∷ [], one_denoted d none_denoted, λ ms. j.cons l ms)

  flatten_rest-Flat :
      {es : List ℕ} {ls : List Lang}
      → DenotesAll s es ls
      → Ensures (Flat ls) (flatten_rest s tag es)
  unfolding flatten_rest
  flatten_rest-Flat none_denoted = returns ([], none_denoted, refl)
  flatten_rest-Flat (one_denoted {e} {l} {es} {ls} d ds) =
      let v = Denotes-View s r d in
      rw v.1 (
        Ensures-bind (piece v.0 d v.2 v.3) λ first p. Ensures-bind (flatten_rest-Flat ds) λ rest q.
          returns (
            p.0 ++ q.0,
            DenotesAll-append s p.1 q.1,
            p.2 q.0 ∙ ap (glue l) q.2 ∙ sym (j.cons l ls),
          ))

  pub flatten_tag-Flat :
      {es : List ℕ} {ls : List Lang} → DenotesAll s es ls → Ensures (Flat ls) (flatten_tag s tag es)
  unfolding flatten_tag
  flatten_tag-Flat none_denoted = returns ([], none_denoted, refl)
  flatten_tag-Flat (one_denoted {e} {l} {es} {ls} d ds) =
      let v = Denotes-View s r d in
      rw v.1 (
        Ensures-if (same_tag (tag_of v.0) tag) (λ same. flatten_rest-Flat (one_denoted d ds))
          λ other. Ensures-bind (flatten_tag-Flat ds) λ rest q.
            returns
              (l ∷ q.0, one_denoted d q.1, j.cons l q.0 ∙ ap (glue l) q.2 ∙ sym (j.cons l ls)))
