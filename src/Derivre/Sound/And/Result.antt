-- ===== src/Derivre/Sound/And/Result.antt =====
-- `mk_and` of controllers/derivre/src/simplify.rs, from what its loop keeps.
use mathlib.Core.Path.{fun_ext}
use aici.Prelude.{
  ℕ, ◌≡◌, refl, sym, ◌∙◌, arith, Bool, true, false, inl, inr, Option, none, some, List, [], ◌∷◌,
  length, if◌then◌else◌,
}
use aici.Prelude.Results.{Ensures-bind}
use aici.Derivre.Ast.{
  ExprSet, and_of, and_tag, from_nullable, empty_string_id, no_match_id, any_string_id,
}
use aici.Derivre.Simplify.{pay, AndScan, and_kept, and_scanned, mk_and}
use aici.Derivre.Language.{Lang, nothing, eps, letters, all_of}
use aici.Derivre.Language.Cat.{bool_ext}
use aici.Derivre.Denotes.{
  Denotes, DenotesAll, Ready, none_denoted, one_denoted, means_and, alphabet,
}
use aici.Derivre.Denotes.Laws.{DenotesAll-Grows}
use aici.Derivre.Denotes.Within.{all_of-Within, Denotes-Within}
use aici.Derivre.Denotes.Base.{Denotes-eps, Denotes-nothing, Denotes-letters}
use aici.Derivre.Sound.{
  Makes, Makes-same, Makes-if, Makes-new, Makes-from, from_nullable-AreFlags, is_nullable_flag-from,
}
use aici.Derivre.Sound.Flatten.{flatten_tag-Flat}
use aici.Derivre.Sound.Sort.{sort_ids-DenotesAll}
use aici.Derivre.Sound.And.{both, and-Joins, Scanned, scan_and-Scanned}

and_kept-Makes :
    (s : ExprSet) (had n : Bool) {es : List ℕ} {ls : List Lang}
    → DenotesAll s es ls
    → n ≡ all_of (alphabet s) ls []
    → (had ≡ true → (w : List ℕ) → all_of (alphabet s) ls w ≡ true → eps w ≡ true)
    → Makes s (all_of (alphabet s) ls) (and_kept s had n es)
and_kept-Makes s had n none_denoted flag blank r = Makes-same s _ 4 (Denotes-letters s r) r
and_kept-Makes s had n (one_denoted {e} {l} d none_denoted) flag blank r =
    let same : all_of (alphabet s) (l ∷ []) ≡ l =
      fun_ext λ w. let inside = Denotes-Within s d w in ground (arith, inside) in
    rw same (Makes-same s l e d r)
and_kept-Makes s had n (one_denoted {e} {l} {ls = ls} d (one_denoted {e = e2} {es = es} d2 ds)) flag
      blank r =
    let all = one_denoted d (one_denoted d2 ds) in
    let k = all_of (alphabet s) (l ∷ ls) in
    Makes-if s k had (λ has r. Makes-same s k _ (only_blank s r k n flag (blank has)) r)
      (λ _ r.
        Makes-new s k (and_of (from_nullable n) (e ∷ e2 ∷ es)) (from_nullable-AreFlags n)
          (is_nullable_flag-from n ∙ flag) (means_and _ (e ∷ e2 ∷ es) (l ∷ ls) all refl) r)
      r
  where
    only_blank :
        (s : ExprSet)
        → Ready s
        → (k : Lang) (n : Bool) → n ≡ k []
        → ((w : List ℕ) → k w ≡ true → eps w ≡ true)
        → Denotes s (if n then empty_string_id else no_match_id) k
    only_blank s r k true flag blank =
        let same : k ≡ eps = fun_ext λ w. bool_ext (k w) (eps w) (blank w) (back w) in
        rw same (Denotes-eps s r)
      where
        back : (w : List ℕ) → eps w ≡ true → k w ≡ true
        back [] e = sym flag
        back (b ∷ w) e = absurd (cc e)
    only_blank s r k false flag blank =
        let same : k ≡ nothing = fun_ext λ w. bool_ext (k w) false (none_there w) (λ e. cc e) in
        rw same (Denotes-nothing s r)
      where
        none_there : (w : List ℕ) → k w ≡ true → false ≡ true
        none_there [] e = flag ∙ e
        none_there (b ∷ w) e = blank (b ∷ w) e

inside : (n : ℕ) (ls : List Lang) → all_of n ls ≡ both (letters n) (all_of n ls)
inside n ls = fun_ext λ w. let h = all_of-Within n ls w in ground (arith, h)

and_scanned-Makes :
    (s : ExprSet) (r : Ready s) (ls : List Lang) (x : Option AndScan)
    → Scanned s r (letters (alphabet s)) false true ls x
    → Makes s (all_of (alphabet s) ls) (and_scanned s x)
and_scanned-Makes s r ls none k r' =
    let same : all_of (alphabet s) ls ≡ nothing = inside (alphabet s) ls ∙ k in
    rw same (Makes-same s nothing 2 (Denotes-nothing s r') r')
and_scanned-Makes s r ls (some x) k r' =
    let n = alphabet s in
    let same : all_of n ls ≡ all_of n k.langs = inside n ls ∙ k.same ∙ sym (inside n k.langs) in
    rw same (
      and_kept-Makes s x.had_empty x.nullable k.denoted k.flag
        (λ has. elim (k.blank has) [ inl early ↦ cc early | inr all_blank ↦ all_blank ]) r')

pub mk_and-Makes :
    (s : ExprSet) {es : List ℕ} {ls : List Lang}
    → DenotesAll s es ls
    → Makes s (all_of (alphabet s) ls) (mk_and s es)
unfolding mk_and
mk_and-Makes s {ls = ls} ds r =
    let n = alphabet s in
    Ensures-bind (flatten_tag-Flat s r and_tag (all_of n) both (and-Joins s) ds) λ args flat.
      Makes-from s (all_of n ls) (pay s (length args)) refl refl refl
        (λ g r1.
          let s1 = pay s (length args) in
          let sorted =
            sort_ids-DenotesAll s1 (all_of n) both (λ l ls. refl) swap
              (DenotesAll-Grows s s1 g flat.1) in
          Ensures-bind
            (scan_and-Scanned s1 r1 any_string_id (letters n) false true (Denotes-letters s1 r1)
              sorted.1)
            λ x k. rw (sym (sorted.2 ∙ flat.2)) (and_scanned-Makes s1 r1 sorted.0 x k r1))
        r
  where
    swap : (l m k : Lang) → both l (both m k) ≡ both m (both l k)
    swap l m k = fun_ext λ w. ground arith
