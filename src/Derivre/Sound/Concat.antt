-- ===== src/Derivre/Sound/Concat.antt =====
-- `mk_concat` and `mk_byte_literal` of controllers/derivre/src/simplify.rs.
use mathlib.Core.Path.{subst}
use aici.Prelude.{
  ℕ, ◌≡◌, refl, sym, ◌∙◌, ap, arith, ◌==◌, true, not, Bool-cases, inl, inr, some, List, [], ◌∷◌,
  length,
}
use aici.Prelude.Results.{Ensures-bind}
use aici.Derivre.Ast.{
  Expr, ExprSet, concat, concat_tag, args, from_nullable, empty_string_id, no_match_id,
}
use aici.Derivre.Simplify.{pay, same_tag, all_nullable, retain, any_is, concat_of, mk_concat}
use aici.Derivre.Language.{Lang, nothing, eps, cat, cat_all}
use aici.Derivre.Language.Cat.{
  cat_all-append, cat-eps_left, cat-eps_right, cat-nothing_left, cat-nothing_right,
}
use aici.Derivre.Denotes.{
  Denotes, DenotesAll, Means, Ready, none_denoted, one_denoted, means_empty, means_nothing,
  means_byte, means_set, means_ahead, means_not, means_repeat, means_concat, means_or, means_and,
}
use aici.Derivre.Denotes.Nodes.{tag_of}
use aici.Derivre.Denotes.Laws.{Denotes-same, DenotesAll-Grows}
use aici.Derivre.Denotes.Base.{Denotes-eps, Denotes-nothing, Denotes-is_nullable}
use aici.Derivre.Sound.{
  Makes, Makes-same, Makes-if, Makes-new, Makes-from, from_nullable-AreFlags, is_nullable_flag-from,
}
use aici.Derivre.Sound.Flatten.{Joins, flatten_tag-Flat}

pub concat-Joins : (s : ExprSet) → Joins s concat_tag cat_all cat
concat-Joins s = record { cons = λ l ls. refl; append = cat_all-append; inverts = invert }
  where
    invert :
        (e : Expr) (l : Lang)
        → Means s e l
        → same_tag (tag_of e) concat_tag ≡ true
        → (ks : List Lang) × DenotesAll s (args e) ks × (l ≡ cat_all ks)
    invert e l (means_concat f es ks ds p) same = (ks, ds, p)
    invert e l (means_empty p) same = absurd (cc same)
    invert e l (means_nothing p) same = absurd (cc same)
    invert e l (means_byte b lt p) same = absurd (cc same)
    invert e l (means_set bs len p) same = absurd (cc same)
    invert e l (means_ahead f e2 k m d2 t p) same = absurd (cc same)
    invert e l (means_not f e2 m d2 p) same = absurd (cc same)
    invert e l (means_repeat f e2 lo hi m d2 o a b c p) same = absurd (cc same)
    invert e l (means_or f es ks ds p) same = absurd (cc same)
    invert e l (means_and f es ks ds p) same = absurd (cc same)

module _ (s : ExprSet) (r : Ready s) where
  pub Denotes-unique :
      {e id : ℕ} {l m : Lang} → Denotes s e l → Denotes s id m → (e == id) ≡ true → l ≡ m
  Denotes-unique {e} {id} {l} {m} d k at_id =
      let same : id ≡ e = ground arith in Denotes-same s e l m d (subst (λ i. Denotes s i m) same k)

  retain-cat_all :
      {es : List ℕ} {ls : List Lang}
      → DenotesAll s es ls
      → (ks : List Lang) × DenotesAll s (retain (λ e. not (e == empty_string_id)) es) ks
        × (cat_all ks ≡ cat_all ls)
  retain-cat_all none_denoted = ([], none_denoted, refl)
  retain-cat_all (one_denoted {e} {l} {es} {ls} d ds) =
      let rest = retain-cat_all ds in
      elim (Bool-cases (e == empty_string_id)) [
        | inl blank ↦
            let same = Denotes-unique d (Denotes-eps s r) blank in
            rw blank (rest.0, rest.1, rest.2 ∙ sym (rw same (cat-eps_left (cat_all ls))))
        | inr kept ↦ rw kept (l ∷ rest.0, one_denoted d rest.1, ap (cat l) rest.2)
      ]

  any_is-nothing :
      {es : List ℕ} {ls : List Lang}
      → DenotesAll s es ls
      → any_is no_match_id es ≡ true
      → cat_all ls ≡ nothing
  any_is-nothing none_denoted has = absurd (cc has)
  any_is-nothing (one_denoted {e} {l} {es} {ls} d ds) has = elim (Bool-cases (e == no_match_id)) [
    | inl here ↦
        let same = Denotes-unique d (Denotes-nothing s r) here in
        rw same (cat-nothing_left (cat_all ls))
    | inr later ↦
        let none_after = any_is-nothing ds (ground (arith, has, later)) in
        rw none_after (cat-nothing_right l)
  ]

  all_nullable-cat_all :
      {es : List ℕ} {ls : List Lang} → DenotesAll s es ls → all_nullable s es ≡ some (cat_all ls [])
  unfolding cat
  all_nullable-cat_all none_denoted = refl
  all_nullable-cat_all (one_denoted {e} {l} {es} {ls} d ds) =
      let here = Denotes-is_nullable s r d in
      let rest = all_nullable-cat_all ds in
      elim (Bool-cases (l [])) [
        | inl yes_null ↦ rw (here, yes_null) rest
        | inr no_null ↦ rw (here, no_null) refl
      ]

concat_of-Makes :
    (s : ExprSet) {es : List ℕ} {ls : List Lang}
    → DenotesAll s es ls
    → Makes s (cat_all ls) (concat_of s es)
concat_of-Makes s none_denoted r = Makes-same s eps 1 (Denotes-eps s r) r
concat_of-Makes s (one_denoted {e} {l} d none_denoted) r =
    rw (cat-eps_right l) (Makes-same s l e d r)
concat_of-Makes s (one_denoted {e} {l} {ls = ls} d (one_denoted {e = e2} {es = es} d2 ds)) r =
    let all = one_denoted d (one_denoted d2 ds) in
    Makes-if s _ (any_is no_match_id (e ∷ e2 ∷ es))
      (λ has r. Makes-same s _ 2 (rw (any_is-nothing s r all has) (Denotes-nothing s r)) r)
      (λ _ r. rw (all_nullable-cat_all s r all) (
        Makes-new s _ (concat (from_nullable (cat_all (l ∷ ls) [])) (e ∷ e2 ∷ es))
          (from_nullable-AreFlags (cat_all (l ∷ ls) []))
          (is_nullable_flag-from (cat_all (l ∷ ls) []))
          (means_concat _ (e ∷ e2 ∷ es) (l ∷ ls) all refl) r))
      r

pub mk_concat-Makes :
    (s : ExprSet) {es : List ℕ} {ls : List Lang}
    → DenotesAll s es ls
    → Makes s (cat_all ls) (mk_concat s es)
unfolding mk_concat
mk_concat-Makes s {ls = ls} ds r =
    Ensures-bind (flatten_tag-Flat s r concat_tag cat_all cat (concat-Joins s) ds) λ args flat.
      Makes-from s (cat_all ls) (pay s (length args)) refl refl refl
        (λ g r1.
          let kept = retain-cat_all (pay s (length args)) r1 (DenotesAll-Grows s _ g flat.1) in
          rw (sym (kept.2 ∙ flat.2)) (concat_of-Makes (pay s (length args)) kept.1 r1))
        r
