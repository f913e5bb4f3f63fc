-- ===== src/Derivre/Sound/Or/Result.antt =====
-- `mk_or` of controllers/derivre/src/simplify.rs, up to its last step.
use mathlib.Core.Path.{fun_ext, subst}
use aici.Prelude.{
  ℕ, ◌≡◌, refl, sym, ◌∙◌, ap, arith, Bool, false, Option, none, some, List, [], ◌∷◌, length,
}
use aici.Prelude.Results.{Ensures-bind, Ensures-weaken}
use aici.Derivre.Ast.{ExprSet, or_of, or_tag, from_nullable, no_match_id, mk}
use aici.Derivre.Simplify.{Made, pay}
use aici.Derivre.Simplify.Union.{OrScan, or_kept, or_scanned, mk_or_with, mk_or_plain}
use aici.Derivre.Simplify.Grows.{Grows-trans}
use aici.Derivre.Language.{Lang, nothing, letters, either, any_of}
use aici.Derivre.Denotes.{Denotes, DenotesAll, Ready, none_denoted, one_denoted, means_or, alphabet}
use aici.Derivre.Denotes.Laws.{DenotesAll-Grows}
use aici.Derivre.Denotes.Base.{Denotes-nothing, Denotes-letters, Ready-Grows}
use aici.Derivre.Sound.{
  Makes, Makes-same, Makes-new, Makes-from, from_nullable-AreFlags, is_nullable_flag-from,
}
use aici.Derivre.Sound.Flatten.{flatten_tag-Flat}
use aici.Derivre.Sound.Sort.{sort_ids-DenotesAll}
use aici.Derivre.Sound.Or.{or-Joins, swap_either, Scanned, scan_or-Scanned}
use aici.Derivre.Sound.Or.Bytes.{join_bytes-Joined}
use aici.Derivre.Sound.Or.Lookaheads.{join_ahead-DenotesAll}

-- The last step, with the flag of the union.
abbrev pub Finishes : (ExprSet → Bool → List ℕ → Made) → Type 0
Finishes finish =
    (s : ExprSet) (n : Bool) (es : List ℕ) (ls : List Lang)
    → DenotesAll s es ls
    → n ≡ any_of ls []
    → Makes s (any_of ls) (finish s n es)

pub new_or : Finishes (λ s n es. mk s (or_of (from_nullable n) es))
new_or s n es ls ds flag =
    Makes-new s (any_of ls) (or_of (from_nullable n) es) (from_nullable-AreFlags n)
      (is_nullable_flag-from n ∙ flag) (means_or _ es ls ds refl)

module _ (finish : ExprSet → Bool → List ℕ → Made) (finishes : Finishes finish) where
  or_kept-Makes :
      (s : ExprSet) (n : Bool) {es : List ℕ} {ls : List Lang}
      → DenotesAll s es ls
      → n ≡ any_of ls []
      → Makes s (any_of ls) (or_kept finish s n es)
  or_kept-Makes s n none_denoted flag r = Makes-same s _ 2 (Denotes-nothing s r) r
  or_kept-Makes s n (one_denoted {e} {l} d none_denoted) flag r =
      let same : any_of (l ∷ []) ≡ l = fun_ext λ w. ground arith in rw same (Makes-same s l e d r)
  or_kept-Makes s n (one_denoted d (one_denoted d2 ds)) flag r =
      finishes s n _ _ (one_denoted d (one_denoted d2 ds)) flag r

  or_scanned-Makes :
      (s : ExprSet) (r : Ready s) (ls : List Lang) (x : Option OrScan)
      → Scanned s r nothing false ls x
      → Makes s (any_of ls) (or_scanned finish s x)
  or_scanned-Makes s r ls none k r' =
      rw k (Makes-same s (letters (alphabet s)) 4 (Denotes-letters s r') r')
  or_scanned-Makes s r ls (some x) k r' = Ensures-bind (join_bytes-Joined s x r k.denoted) λ y j.
      let r1 = Ready-Grows s y.1 j.0 r in
      Ensures-bind (join_ahead-DenotesAll y.1 r1 x.num_lookahead j.1.1) λ args a.
        let same : any_of a.0 ≡ any_of ls = a.2 ∙ j.1.2 ∙ sym k.same in
        let flag : x.nullable ≡ any_of a.0 [] = k.flag ∙ ap (λ l. l []) (sym (a.2 ∙ j.1.2)) in
        Ensures-weaken
          (λ z h. (Grows-trans s y.1 z.1 j.0 h.0, subst (λ l. Denotes z.1 z.0 l) same h.1))
          (or_kept-Makes y.1 x.nullable a.1 flag r1)

  pub mk_or_with-Makes :
      (s : ExprSet) {es : List ℕ} {ls : List Lang}
      → DenotesAll s es ls
      → Makes s (any_of ls) (mk_or_with finish s es)
  unfolding mk_or_with
  mk_or_with-Makes s {ls = ls} ds r =
      Ensures-bind (flatten_tag-Flat s r or_tag any_of either (or-Joins s) ds) λ args flat.
        Makes-from s (any_of ls) (pay s (length args)) refl refl refl
          (λ g r1.
            let s1 = pay s (length args) in
            let sorted =
              sort_ids-DenotesAll s1 any_of either (λ l ls. refl) swap_either
                (DenotesAll-Grows s s1 g flat.1) in
            Ensures-bind
              (scan_or-Scanned s1 r1 no_match_id nothing false (Denotes-nothing s1 r1) sorted.1)
              λ x k. rw (sym (sorted.2 ∙ flat.2)) (or_scanned-Makes s1 r1 sorted.0 x k r1))
          r

pub mk_or_plain-Makes :
    (s : ExprSet) {es : List ℕ} {ls : List Lang}
    → DenotesAll s es ls
    → Makes s (any_of ls) (mk_or_plain s es)
mk_or_plain-Makes = mk_or_with-Makes _ new_or
