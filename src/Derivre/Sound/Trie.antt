-- ===== src/Derivre/Sound/Trie.antt =====
-- The sharing of fronts by `trie_rec` and `or_optimized` of controllers/derivre/src/simplify.rs, and
-- `mk_or`.
pub mod Fronts
use mathlib.Core.Path.{fun_ext, subst}
use aici.Prelude.{
  ℕ, zero, suc, ◌+◌, ◌-◌, ◌≤◌, ◌<◌, ◌≡◌, refl, sym, ◌∙◌, ap, arith, ◌==◌, ltb, leb, Bool, true,
  false, ◌&&◌, ◌||◌, Bool-cases, inl, inr, Option, none, some, List, [], ◌∷◌, ◌++◌, take, drop,
  length, guard, ◌>>=◌,
}
use aici.Prelude.Results.{
  Ensures, panics, returns, Ensures-bind, Ensures-weaken, Ensures-if, Ensures-after,
}
use aici.Derivre.Ast.{ExprSet, concat_tag, or_of, from_nullable, mk}
use aici.Derivre.Ast.Overflow.{Grows}
use aici.Derivre.Simplify.{Made, flatten_tag, mk_concat}
use aici.Derivre.Simplify.Grows.{Grows-refl, Grows-trans, Grows-same}
use aici.Derivre.Simplify.Union.{mk_or_plain}
use aici.Derivre.Simplify.Prefixes.{
  Group, groups, common, last_of, alternative, alternatives, concat_rests, trie_node, trie_rec,
  flatten_each, has_double, share, or_optimized, mk_or, sort_vectors, insert_ids, before_ids,
}
use aici.Derivre.Language.{Lang, eps, cat, cat_all, either, any_of}
use aici.Derivre.Language.Cat.{cat-eps_right, cat_all-append}
use aici.Derivre.Denotes.{Denotes, DenotesAll, Ready, none_denoted, one_denoted}
use aici.Derivre.Denotes.Laws.{Denotes-Grows, DenotesAll-Grows}
use aici.Derivre.Denotes.Base.{Denotes-eps, Ready-Grows}
use aici.Derivre.Sound.{Holds, Makes, Makes-same, Makes-if, Makes-from}
use aici.Derivre.Sound.Concat.{mk_concat-Makes, concat-Joins}
use aici.Derivre.Sound.Flatten.{DenotesAll-append, flatten_tag-Flat}
use aici.Derivre.Sound.Or.{swap_either}
use aici.Derivre.Sound.Or.Result.{Finishes, new_or, mk_or_with-Makes, mk_or_plain-Makes}
use aici.Derivre.Sound.Order.{Sorted, sort_vectors-Sorted}
use aici.Derivre.Sound.Groups.{
  Rests, no_rest, one_rest, Rests-Grows, Grouped, no_group, one_group, Grouped-Grows, Ended,
  groups-Grouped,
}
use aici.Derivre.Sound.Trie.Fronts.{Fronted, Rests-Fronted}

-- The set has grown, and the expressions have the languages.
abbrev pub HoldAll : ExprSet → List Lang → List ℕ × ExprSet → Type 0
HoldAll s ls x = Grows s x.1 × DenotesAll x.1 x.0 ls

concat_rests-HoldAll :
    (o : ℕ) (vs : List (List ℕ)) (s : ExprSet) {ls : List Lang}
    → Ready s
    → Rests s o vs ls
    → Ensures (HoldAll s ls) (concat_rests o vs s)
unfolding concat_rests
concat_rests-HoldAll o [] s r no_rest = returns (Grows-refl s r.valid, none_denoted)
concat_rests-HoldAll o (v ∷ vs) s r (one_rest ds rs) = Ensures-after (guard (leb o (length v))) λ _.
    Ensures-bind (mk_concat-Makes s ds r) λ x h.
      Ensures-bind
        (concat_rests-HoldAll o vs x.1 (Ready-Grows s x.1 h.0 r) (Rests-Grows s x.1 h.0 rs))
        λ y k.
          returns (Grows-trans s x.1 y.1 h.0 k.0, one_denoted (Denotes-Grows x.1 y.1 k.0 h.1) k.1)

-- A step on sorted vectors that makes the union of their rests.
abbrev pub Unites : ℕ → (List (List ℕ) → ExprSet → Made) → Type 0
Unites o next =
    (s : ExprSet) (vs : List (List ℕ)) (ls : List Lang)
    → Rests s o vs ls
    → Sorted o vs
    → Makes s (any_of ls) (next vs s)

alternative-Makes :
    (o : ℕ) (next : List (List ℕ) → ExprSet → Made)
    → Unites o next
    → (s : ExprSet) (g : Group) (cur : Option ℕ) {ls : List Lang} → Rests s o g.members ls
    → Sorted o g.members
    → Ended cur (any_of ls)
    → Makes s (any_of ls) (alternative next g s cur)
alternative-Makes o next unites s g none rs sorted ended r =
    rw ended (Makes-same s eps 1 (Denotes-eps s r) r)
alternative-Makes o next unites s g (some id) {ls} rs sorted ended r =
    unites s g.members ls rs sorted r

alternatives-HoldAll :
    (o : ℕ) (next : List (List ℕ) → ExprSet → Made)
    → Unites o next
    → (gs : List Group) (s : ExprSet) {ls : List Lang} → Ready s
    → Grouped s o gs ls
    → Ensures (HoldAll s ls) (alternatives next gs s)
unfolding alternatives
alternatives-HoldAll o next unites [] s r no_group = returns (Grows-refl s r.valid, none_denoted)
alternatives-HoldAll o next unites (g ∷ gs) s r (one_group rs sorted ended rest) =
    Ensures-bind (alternative-Makes o next unites s g g.cur rs sorted ended r) λ x h.
      Ensures-bind
        (alternatives-HoldAll o next unites gs x.1 (Ready-Grows s x.1 h.0 r)
          (Grouped-Grows s x.1 h.0 rest))
        λ y k.
          returns (Grows-trans s x.1 y.1 h.0 k.0, one_denoted (Denotes-Grows x.1 y.1 k.0 h.1) k.1)

trie_node-Makes :
    (next : ℕ → List (List ℕ) → ExprSet → Made)
    → ((o : ℕ) → Unites o (next o))
    → (o : ℕ) → Unites o (trie_node next o)
trie_node-Makes next unites o s [] ls rs sorted r = panics
trie_node-Makes next unites o s (first ∷ vs) ls rs sorted r =
    let k = common (drop o first) (drop o (last_of first vs)) in
    let f = Rests-Fronted s o first vs rs sorted in
    Ensures-after (guard (o == 0 || ltb o (o + k))) λ _.
      let parts = groups-Grouped s (o + k) f.left f.sorted in
      Ensures-bind
        (alternatives-HoldAll (o + k) (next (o + k)) (unites (o + k)) (groups (o + k) (first ∷ vs))
          s r parts.1)
        λ x h.
          let r1 = Ready-Grows s x.1 h.0 r in
          Ensures-bind (mk_or_plain-Makes x.1 h.1 r1) λ y m.
            let grown = Grows-trans s x.1 y.1 h.0 m.0 in
            let span : o + k - o ≡ k = omega arith in
            let all =
              DenotesAll-append y.1 (DenotesAll-Grows s y.1 grown f.denoted)
                (one_denoted m.1 none_denoted) in
            rw span (
              Ensures-weaken
                (λ z c. (
                  Grows-trans s y.1 z.1 grown c.0,
                  subst (λ l. Denotes z.1 z.0 l)
                      (whole f.front (any_of parts.0) (any_of f.rests) parts.2 ∙ sym f.same) c.1,
                ))
                (mk_concat-Makes y.1 all (Ready-Grows s y.1 grown r)))
  where
    whole : (ps : List Lang) (l m : Lang) → l ≡ m → cat_all (ps ++ l ∷ []) ≡ cat (cat_all ps) m
    whole ps l m same = cat_all-append ps (l ∷ []) ∙ ap (cat (cat_all ps)) (cat-eps_right l ∙ same)

pub trie_rec-Makes : (levels o : ℕ) → Unites o (trie_rec levels o)
unfolding trie_rec
trie_rec-Makes zero o s vs ls rs sorted r = Ensures-bind (concat_rests-HoldAll o vs s r rs) λ x h.
    Ensures-weaken (λ y k. (Grows-trans s x.1 y.1 h.0 k.0, k.1))
      (mk_or_plain-Makes x.1 h.1 (Ready-Grows s x.1 h.0 r))
trie_rec-Makes (suc levels) o s vs ls rs sorted r =
    trie_node-Makes (trie_rec levels) (trie_rec-Makes levels) o s vs ls rs sorted r

insert_ids-Rests :
    (s : ExprSet) {v : List ℕ} {ks : List Lang} {vs : List (List ℕ)} {ls : List Lang}
    → DenotesAll s v ks
    → Rests s 0 vs ls
    → (ms : List Lang) × Rests s 0 (insert_ids v vs) ms
      × (any_of ms ≡ either (cat_all ks) (any_of ls))
insert_ids-Rests s {ks = ks} ds no_rest = (cat_all ks ∷ [], one_rest ds no_rest, refl)
insert_ids-Rests s {v} {ks} ds (one_rest {v = x} {ks = js} {vs} {ls} ds2 rs) =
    elim (Bool-cases (before_ids x v)) [
      | inl less ↦
          let rest = insert_ids-Rests s ds rs in
          rw less (
            cat_all js ∷ rest.0,
            one_rest ds2 rest.1,
            ap (either (cat_all js)) rest.2 ∙ swap_either (cat_all js) (cat_all ks) (any_of ls),
          )
      | inr more ↦ rw more (cat_all ks ∷ cat_all js ∷ ls, one_rest ds (one_rest ds2 rs), refl)
    ]

sort_vectors-Rests :
    (s : ExprSet) {vs : List (List ℕ)} {ls : List Lang}
    → Rests s 0 vs ls
    → (ms : List Lang) × Rests s 0 (sort_vectors vs) ms × (any_of ms ≡ any_of ls)
sort_vectors-Rests s no_rest = ([], no_rest, refl)
sort_vectors-Rests s (one_rest {ks} ds rs) =
    let rest = sort_vectors-Rests s rs in
    let put = insert_ids-Rests s ds rest.1 in
    (put.0, put.1, put.2 ∙ ap (either (cat_all ks)) rest.2)

flatten_each-Rests :
    (s : ExprSet) {es : List ℕ} {ls : List Lang}
    → Ready s
    → DenotesAll s es ls
    → Ensures
        (λ vs. (ms : List Lang) × Rests s 0 vs ms × (any_of ms ≡ any_of ls))
        (flatten_each s es)
flatten_each-Rests s r none_denoted = returns ([], no_rest, refl)
flatten_each-Rests s r (one_denoted {l} {ls} d ds) =
    Ensures-bind
      (flatten_tag-Flat s r concat_tag cat_all cat (concat-Joins s) (one_denoted d none_denoted))
      λ v flat. Ensures-bind (flatten_each-Rests s r ds) λ vs rest. returns (
        cat_all flat.0 ∷ rest.0,
        one_rest flat.1 rest.1,
        ap (λ x. either x (any_of rest.0)) (flat.2 ∙ cat-eps_right l) ∙ ap (either l) rest.2,
      )

share-Makes :
    (s : ExprSet) (vs : List (List ℕ)) {ls : List Lang}
    → Rests s 0 vs ls
    → Sorted 0 vs
    → Makes s (any_of ls) (share s vs)
share-Makes s vs {ls} rs sorted =
    let off : ExprSet = record s { optimize = false } in
    Makes-from s (any_of ls) off refl refl refl λ g r.
      Ensures-bind (trie_rec-Makes 101 0 off vs ls (Rests-Grows s off g rs) sorted r) λ x h.
        let on : ExprSet = record x.1 { optimize = true } in
        let back = Grows-same x.1 on refl refl refl h.0.valid in
        returns (Grows-trans off x.1 on h.0 back, Denotes-Grows x.1 on back h.1)

or_optimized-Finishes : Finishes or_optimized
unfolding or_optimized
or_optimized-Finishes s n es ls ds flag r = Ensures-bind (flatten_each-Rests s r ds) λ vs rest.
    let sorted = sort_vectors-Rests s rest.1 in
    Ensures-after (has_double 0 (sort_vectors vs)) λ double.
      Makes-if s (any_of ls) double
        (λ _.
          rw (sym (sorted.2 ∙ rest.2))
            (share-Makes s (sort_vectors vs) sorted.1 (sort_vectors-Sorted vs)))
        (λ _. new_or s n es ls ds flag) r

pub mk_or-Makes :
    (s : ExprSet) {es : List ℕ} {ls : List Lang}
    → DenotesAll s es ls
    → Makes s (any_of ls) (mk_or s es)
unfolding mk_or
mk_or-Makes = mk_or_with-Makes _ λ s n es ls ds flag.
    Makes-if s (any_of ls) s.optimize (λ _. or_optimized-Finishes s n es ls ds flag)
      λ _. new_or s n es ls ds flag
