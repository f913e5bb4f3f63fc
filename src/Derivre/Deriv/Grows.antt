-- ===== src/Derivre/Deriv/Grows.antt =====
-- Derivatives of controllers/derivre/src/deriv.rs keep the set of expressions valid, and every
-- expression in its place.
use aici.Prelude.{
  ℕ, zero, suc, ◌+◌, ◌-◌, ◌%◌, ◌^◌, ◌==◌, Option, none, some, List, [], ◌∷◌, get_elem?,
}
use aici.Prelude.Results.{panics}
use aici.Derivre.Ast.{
  Expr, ExprSet, empty_string_id, empty_string, no_match, byte, byte_set, lookahead, complement,
  repeat, concat, or_of, and_of, matches_byte, args, get, is_nullable,
}
use aici.Derivre.Simplify.Grows.{
  Growing, Growing-same, Growing-if, Growing-after, Growing-then, mk_repeat-Growing,
  mk_concat-Growing, mk_not-Growing, mk_lookahead-Growing, mk_and-Growing,
}
use aici.Derivre.Simplify.GrowsOr.{mk_or-Growing}
use aici.Derivre.Deriv.{
  DerivCache, lookup_entry, is_concat, map_args, concat_branches, matched, derive, visit, visit_top,
  map_loop, add_entry,
}

concat_branches-Growing : (s : ExprSet) (es deriv : List ℕ) → Growing s (concat_branches s es deriv)
unfolding concat_branches
concat_branches-Growing s [] deriv = Growing-same s []
concat_branches-Growing s (a ∷ es) [] = λ v. panics
concat_branches-Growing s (a ∷ es) (d ∷ ds) = Growing-after s (is_nullable s a) λ n.
    Growing-then s (mk_concat-Growing s (d ∷ es)) λ x.
      Growing-if x.1 n
        (Growing-then x.1 (concat_branches-Growing x.1 es ds) λ y. Growing-same y.1 _)
        (Growing-same x.1 _)

matched-Growing : (s : ExprSet) (e : Expr) (b : ℕ) → Growing s (matched s e b)
matched-Growing s e b = Growing-after s (matches_byte e b) λ yes_matches. Growing-same s _

pub derive-Growing :
    (s : ExprSet) (b : ℕ) (deriv : List ℕ) (e : Expr) → Growing s (derive s b deriv e)
unfolding derive
derive-Growing s b deriv empty_string = matched-Growing s empty_string b
derive-Growing s b deriv no_match = matched-Growing s no_match b
derive-Growing s b deriv (byte b2) = matched-Growing s (byte b2) b
derive-Growing s b deriv (byte_set bs) = matched-Growing s (byte_set bs) b
derive-Growing s b deriv (and_of f es) = mk_and-Growing s deriv
derive-Growing s b deriv (or_of f es) = mk_or-Growing s deriv
derive-Growing s b deriv (complement f e) =
    Growing-after s (get_elem? deriv 0) λ d. mk_not-Growing s d
derive-Growing s b deriv (repeat f e lo hi) =
    Growing-then s (mk_repeat-Growing s e (lo - 1) _)
      λ x. Growing-after x.1 (get_elem? deriv 0) λ d. mk_concat-Growing x.1 (d ∷ x.0 ∷ [])
derive-Growing s b deriv (concat f es) =
    Growing-then s (concat_branches-Growing s es deriv) λ x. mk_or-Growing x.1 x.0
derive-Growing s b deriv (lookahead f e offset) =
    Growing-if s (e == empty_string_id) (Growing-same s _)
      (Growing-after s (get_elem? deriv 0) λ d. mk_lookahead-Growing s d ((offset + 1) % 2 ^ 32))

module _ (next : List ℕ → DerivCache → ExprSet → Option (DerivCache × ExprSet))
    (nexts : (todo : List ℕ) (cache : DerivCache) (s : ExprSet) → Growing s (next todo cache s))
    (b r : ℕ) (todo : List ℕ) (cache : DerivCache) (s : ExprSet) where
  visit-Growing :
      (e : Expr) (ds missing : List ℕ) → Growing s (visit next b r todo cache s e ds missing)
  visit-Growing e ds [] =
      Growing-then s (derive-Growing s b ds e) λ x. nexts todo (add_entry r b x.0 cache) x.1
  visit-Growing e ds (a ∷ more) = nexts _ cache s

  visit_top-Growing : (found : Option ℕ) → Growing s (visit_top next b r todo cache s found)
  visit_top-Growing (some d) = nexts todo cache s
  visit_top-Growing none = Growing-after s (get s r) λ e.
      Growing-after s (map_args s cache.state_table b (is_concat e) (args e))
        λ m. visit-Growing e m.mapped m.missing

pub map_loop-Growing :
    (fuel b : ℕ) (todo : List ℕ) (cache : DerivCache) (s : ExprSet)
    → Growing s (map_loop fuel b todo cache s)
unfolding map_loop
map_loop-Growing zero b [] cache s = Growing-same s cache
map_loop-Growing (suc fuel) b [] cache s = Growing-same s cache
map_loop-Growing zero b (r ∷ todo) cache s = λ v. panics
map_loop-Growing (suc fuel) b (r ∷ todo) cache s =
    visit_top-Growing (map_loop fuel b) (map_loop-Growing fuel b) b r todo cache s
      (lookup_entry cache.state_table r b)
