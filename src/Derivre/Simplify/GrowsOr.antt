-- ===== src/Derivre/Simplify/GrowsOr.antt =====
-- `mk_or` of controllers/derivre/src/simplify.rs keeps the set of expressions valid, and every
-- expression in its place.
use aici.Prelude.{
  ℕ, zero, suc, ◌+◌, refl, ◌==◌, ltb, leb, Bool, true, false, ◌||◌, Option, none, some, List, [],
  ◌∷◌, length, drop, replicate, guard,
}
use aici.Prelude.Results.{panics}
use aici.Derivre.Ast.{ExprSet, no_match_id, or_tag}
use aici.Derivre.Ast.Overflow.{mk-Grows}
use aici.Derivre.Simplify.{Made, pay, flatten_tag, sort_ids}
use aici.Derivre.Simplify.Union.{
  OrScan, scan_or, retain_bytes, add_to_sorted, join_bytes, join_ahead, or_kept, or_scanned,
  mk_or_with, mk_or_plain,
}
use aici.Derivre.Simplify.Prefixes.{
  Group, sort_vectors, groups, common, last_of, alternative, alternatives, concat_rests, trie_node,
  trie_rec, flatten_each, has_double, or_optimized, mk_or,
}
use aici.Derivre.Simplify.Grows.{
  Growing, Growing-same, Growing-if, Growing-after, Growing-then, Growing-from, mk_byte_set-Growing,
  mk_concat-Growing,
}

join_bytes-Growing : (s : ExprSet) (x : OrScan) → Growing s (join_bytes s x)
join_bytes-Growing s x =
    Growing-if s (ltb 1 x.num_bytes)
      (Growing-after s (retain_bytes s x.kept (replicate s.alphabet_words 0)) λ r.
        Growing-then s (mk_byte_set-Growing s r.1)
          λ n. Growing-after n.1 (add_to_sorted r.0 n.0) λ es. Growing-same n.1 es)
      (Growing-same s x.kept)

module _ (finish : ExprSet → Bool → List ℕ → Made)
    (finishes : (s : ExprSet) (n : Bool) (es : List ℕ) → Growing s (finish s n es)) where
  or_kept-Growing : (s : ExprSet) (n : Bool) (es : List ℕ) → Growing s (or_kept finish s n es)
  or_kept-Growing s n [] = Growing-same s _
  or_kept-Growing s n (e ∷ []) = Growing-same s e
  or_kept-Growing s n (e ∷ e2 ∷ es) = finishes s n (e ∷ e2 ∷ es)

  or_scanned-Growing : (s : ExprSet) (r : Option OrScan) → Growing s (or_scanned finish s r)
  or_scanned-Growing s none = Growing-same s _
  or_scanned-Growing s (some x) = Growing-then s (join_bytes-Growing s x) λ r.
      Growing-after r.1 (join_ahead r.1 x.num_lookahead r.0)
        λ args. or_kept-Growing r.1 x.nullable args

  mk_or_with-Growing : (s : ExprSet) (args : List ℕ) → Growing s (mk_or_with finish s args)
  unfolding mk_or_with
  mk_or_with-Growing s args0 = Growing-after s (flatten_tag s or_tag args0) λ args.
      let s1 = pay s (length args) in
      Growing-from s s1 refl refl refl (
        Growing-after s1 (scan_or s1 no_match_id false (sort_ids args))
          λ r. or_scanned-Growing s1 r)

mk_or_plain-Growing : (s : ExprSet) (args : List ℕ) → Growing s (mk_or_plain s args)
mk_or_plain-Growing = mk_or_with-Growing _ (λ s n es. mk-Grows s _)

concat_rests-Growing :
    (offset : ℕ) (vs : List (List ℕ)) (s : ExprSet) → Growing s (concat_rests offset vs s)
unfolding concat_rests
concat_rests-Growing offset [] s = Growing-same s []
concat_rests-Growing offset (v ∷ vs) s = Growing-after s (guard (leb offset (length v))) λ _.
    Growing-then s (mk_concat-Growing s (drop offset v))
      λ x. Growing-then x.1 (concat_rests-Growing offset vs x.1) λ y. Growing-same y.1 _

module _ (next : List (List ℕ) → ExprSet → Made)
    (nexts : (vs : List (List ℕ)) (s : ExprSet) → Growing s (next vs s)) where
  alternative-Growing :
      (g : Group) (s : ExprSet) (cur : Option ℕ) → Growing s (alternative next g s cur)
  alternative-Growing g s none = Growing-same s _
  alternative-Growing g s (some id) = nexts g.members s

  alternatives-Growing : (gs : List Group) (s : ExprSet) → Growing s (alternatives next gs s)
  unfolding alternatives
  alternatives-Growing [] s = Growing-same s []
  alternatives-Growing (g ∷ gs) s =
      Growing-then s (alternative-Growing g s g.cur)
        λ x. Growing-then x.1 (alternatives-Growing gs x.1) λ y. Growing-same y.1 _

trie_node-Growing :
    (next : ℕ → List (List ℕ) → ExprSet → Made)
    → ((offset : ℕ) (vs : List (List ℕ)) (s : ExprSet) → Growing s (next offset vs s))
    → (offset : ℕ) (vs : List (List ℕ)) (s : ExprSet) → Growing s (trie_node next offset vs s)
trie_node-Growing next nexts offset [] s = λ v. panics
trie_node-Growing next nexts offset (first ∷ vs) s =
    let end_offset = offset + common (drop offset first) (drop offset (last_of first vs)) in
    Growing-after s (guard (offset == 0 || ltb offset end_offset)) λ _.
      Growing-then s
        (alternatives-Growing (next end_offset) (nexts end_offset) (groups end_offset (first ∷ vs))
          s)
        λ x. Growing-then x.1 (mk_or_plain-Growing x.1 x.0) λ y. mk_concat-Growing y.1 _

trie_rec-Growing :
    (levels offset : ℕ) (vs : List (List ℕ)) (s : ExprSet) → Growing s (trie_rec levels offset vs s)
unfolding trie_rec
trie_rec-Growing zero offset vs s =
    Growing-then s (concat_rests-Growing offset vs s) λ x. mk_or_plain-Growing x.1 x.0
trie_rec-Growing (suc levels) offset vs s =
    trie_node-Growing (trie_rec levels) (trie_rec-Growing levels) offset vs s

or_optimized-Growing : (s : ExprSet) (n : Bool) (args : List ℕ) → Growing s (or_optimized s n args)
unfolding or_optimized
or_optimized-Growing s n args = Growing-after s (flatten_each s args) λ vs.
    Growing-after s (has_double 0 (sort_vectors vs)) λ double.
      Growing-if s double
        (let off : ExprSet = record s { optimize = false } in
          Growing-from s off refl refl refl (
            Growing-then off (trie_rec-Growing 101 0 (sort_vectors vs) off) λ x.
              Growing-from x.1 (record x.1 { optimize = true }) refl refl refl
                (Growing-same _ x.0)))
        (mk-Grows s _)

pub mk_or-Growing : (s : ExprSet) (args : List ℕ) → Growing s (mk_or s args)
unfolding mk_or
mk_or-Growing =
    mk_or_with-Growing _
      λ s n es. Growing-if s s.optimize (or_optimized-Growing s n es) (mk-Grows s _)
