-- ===== src/Derivre/Sound/Trie/Fronts.antt =====
-- The front that the vectors of `trie_rec` in controllers/derivre/src/simplify.rs share.
use mathlib.Core.Path.{fun_ext, subst}
use aici.Prelude.{
  ℕ, zero, suc, ◌+◌, ◌≡◌, refl, sym, ◌∙◌, ap, arith, false, List, [], ◌∷◌, ◌++◌, take, drop,
}
use aici.Derivre.Ast.{ExprSet}
use aici.Derivre.Simplify.Prefixes.{common, last_of, before_ids}
use aici.Derivre.Language.{Lang, cat, cat_all, either, any_of}
use aici.Derivre.Language.Cat.{cat-any_of, cat-nothing_right, cat_all-append}
use aici.Derivre.Denotes.{DenotesAll, none_denoted, one_denoted}
use aici.Derivre.Denotes.Laws.{DenotesAll-same}
use aici.Derivre.Sound.Order.{AllAfter, Sorted, between, drop-before_ids, first-last, le_refl}
use aici.Derivre.Sound.Groups.{Rests, no_rest, one_rest}

drop_nil : (n : ℕ) → drop {A = ℕ} n [] ≡ []
drop_nil zero = refl
drop_nil (suc n) = refl

drop_step : (n m x : ℕ) (v : List ℕ) → n ≡ suc m → drop n (x ∷ v) ≡ drop m v
drop_step n m x v e = ap (λ k. drop k (x ∷ v)) e

drop-add : (o k : ℕ) (v : List ℕ) → drop (o + k) v ≡ drop k (drop o v)
drop-add zero k v = ap (λ n. drop n v) (omega arith)
drop-add (suc o) k [] = drop_nil (suc o + k) ∙ sym (drop_nil k)
drop-add (suc o) k (x ∷ v) = drop_step (suc o + k) (o + k) x v (omega arith) ∙ drop-add o k v

split_denoted :
    (s : ExprSet) (k : ℕ) {es : List ℕ} {ls : List Lang}
    → DenotesAll s es ls
    → (ps : List Lang) × (rs : List Lang) × DenotesAll s (take k es) ps
      × DenotesAll s (drop k es) rs
      × (ls ≡ ps ++ rs)
split_denoted s zero {ls = ls} ds = ([], ls, none_denoted, ds, refl)
split_denoted s (suc k) none_denoted = ([], [], none_denoted, none_denoted, refl)
split_denoted s (suc k) (one_denoted {l = l} d ds) =
    let q = split_denoted s k ds in (l ∷ q.0, q.1, one_denoted d q.2, q.3, ap (◌∷◌ l) q.4)

-- The vectors go on with the front, then with their rests.
pub record Fronted (s : ExprSet) (o k : ℕ) (first : List ℕ) (vs : List (List ℕ)) (ls : List Lang)
    : Type 0 where
  pub front : List Lang
  pub rests : List Lang
  pub denoted : DenotesAll s (take k (drop o first)) front
  pub left : Rests s (o + k) vs rests
  pub sorted : Sorted (o + k) vs
  pub same : any_of ls ≡ cat (cat_all front) (any_of rests)

-- All have the front of `a`.
abbrev pub AllFront : ℕ → ℕ → List ℕ → List (List ℕ) → Type 0
AllFront o k a [] = Unit
AllFront o k a (v ∷ vs) = (take k (drop o v) ≡ take k a) × AllFront o k a vs

AllFront-Fronted :
    (s : ExprSet) (o k : ℕ) (first : List ℕ) (ps : List Lang) (vs : List (List ℕ)) {ls : List Lang}
    → DenotesAll s (take k (drop o first)) ps
    → AllFront o k (drop o first) vs
    → Rests s o vs ls
    → (ms : List Lang) × Rests s (o + k) vs ms × (any_of ls ≡ cat (cat_all ps) (any_of ms))
AllFront-Fronted s o k first ps [] dp all no_rest =
    ([], no_rest, sym (cat-nothing_right (cat_all ps)))
AllFront-Fronted s o k first ps (v ∷ vs) dp all (one_rest {ks} {ls} ds rs) =
    let q = split_denoted s k ds in
    let rest = AllFront-Fronted s o k first ps vs dp all.1 rs in
    let same : q.0 ≡ ps =
      DenotesAll-same s (take k (drop o first)) q.0 ps (subst (λ es. DenotesAll s es q.0) all.0 q.2)
        dp in
    let whole : cat_all ks ≡ cat (cat_all ps) (cat_all q.1) =
      ap cat_all q.4 ∙ cat_all-append q.0 q.1 ∙ ap (λ x. cat (cat_all x) (cat_all q.1)) same in
    (
      cat_all q.1 ∷ rest.0,
      one_rest (subst (λ es. DenotesAll s es q.1) (sym (drop-add o k v)) q.3) rest.1,
      ap (λ x. either x (any_of ls)) whole
          ∙ ap (either (cat (cat_all ps) (cat_all q.1))) rest.2
          ∙ sym (fun_ext (cat-any_of (cat_all ps) (cat_all q.1) (any_of rest.0))),
    )

AllFront-AllAfter :
    (o k : ℕ) (a v : List ℕ) (vs : List (List ℕ))
    → take k (drop o v) ≡ take k a
    → AllFront o k a vs
    → AllAfter o v vs
    → AllAfter (o + k) v vs
AllFront-AllAfter o k a v [] e all after = tt
AllFront-AllAfter o k a v (w ∷ vs) e all after =
    let p = drop-before_ids k (drop o w) (drop o v) (all.0 ∙ sym e) after.0 in
    (rw (drop-add o k w, drop-add o k v) p, AllFront-AllAfter o k a v vs e all.1 after.1)

AllFront-Sorted :
    (o k : ℕ) (a : List ℕ) (vs : List (List ℕ))
    → AllFront o k a vs
    → Sorted o vs
    → Sorted (o + k) vs
AllFront-Sorted o k a [] all sorted = tt
AllFront-Sorted o k a (v ∷ vs) all sorted =
    (AllFront-AllAfter o k a v vs all.0 all.1 sorted.0, AllFront-Sorted o k a vs all.1 sorted.1)

-- None comes behind `b`.
abbrev pub AllUpto : ℕ → List ℕ → List (List ℕ) → Type 0
AllUpto o b [] = Unit
AllUpto o b (v ∷ vs) = (before_ids b (drop o v) ≡ false) × AllUpto o b vs

Sorted-AllUpto :
    (o : ℕ) (v : List ℕ) (vs : List (List ℕ))
    → Sorted o (v ∷ vs)
    → AllUpto o (drop o (last_of v vs)) (v ∷ vs)
Sorted-AllUpto o v [] sorted = (le_refl (drop o v), tt)
Sorted-AllUpto o v (w ∷ vs) sorted =
    (first-last o v (w ∷ vs) sorted.0, Sorted-AllUpto o w vs sorted.1)

between-AllFront :
    (o : ℕ) (first b : List ℕ) (vs : List (List ℕ))
    → AllAfter o first vs
    → AllUpto o b vs
    → AllFront o (common (drop o first) b) (drop o first) vs
between-AllFront o first b [] after upto = tt
between-AllFront o first b (v ∷ vs) after upto = (
  between (drop o first) (drop o v) b after.0 upto.0,
  between-AllFront o first b vs after.1 upto.1,
)

first_front :
    (s : ExprSet) (o k : ℕ) {v : List ℕ} {vs : List (List ℕ)} {ls : List Lang}
    → Rests s o (v ∷ vs) ls
    → (ps : List Lang) × DenotesAll s (take k (drop o v)) ps
first_front s o k (one_rest ds rs) = let q = split_denoted s k ds in (q.0, q.2)

pub Rests-Fronted :
    (s : ExprSet) (o : ℕ) (first : List ℕ) (vs : List (List ℕ)) {ls : List Lang}
    → Rests s o (first ∷ vs) ls
    → Sorted o (first ∷ vs)
    → Fronted s o (common (drop o first) (drop o (last_of first vs))) first (first ∷ vs) ls
Rests-Fronted s o first vs rs sorted =
    let k = common (drop o first) (drop o (last_of first vs)) in
    let all =
      between-AllFront o first (drop o (last_of first vs)) (first ∷ vs)
        (le_refl (drop o first), sorted.0) (Sorted-AllUpto o first vs sorted) in
    let front = first_front s o k rs in
    let q = AllFront-Fronted s o k first front.0 (first ∷ vs) front.1 all rs in
    record {
      front = front.0;
      rests = q.0;
      denoted = front.1;
      left = q.1;
      sorted = AllFront-Sorted o k (drop o first) (first ∷ vs) all sorted;
      same = q.2;
    }
