-- ===== src/Derivre/Deriv.antt =====
-- Derivatives by a byte: controllers/derivre/src/deriv.rs, with `ExprSet::map` of
-- controllers/derivre/src/ast.rs. The cache is an association list; the rounds of `map` are fuel.
pub mod Grows
pub mod Reaches
use aici.Prelude.{
  ℕ, zero, suc, ◌+◌, ◌-◌, ◌%◌, ◌^◌, ◌==◌, Bool, true, false, not, ◌&&◌, Option, none, some, List,
  [], ◌∷◌, ◌++◌, get_elem?, ◌>>=◌, ◌>>◌, guard, if◌then◌else◌,
}
use aici.Derivre.Ast.{
  Expr, ExprSet, empty_string_id, no_match_id, empty_string, no_match, byte, byte_set, lookahead,
  complement, repeat, concat, or_of, and_of, u32_max, matches_byte, args, get, is_nullable,
}
use aici.Derivre.Simplify.{Made, mk_repeat, mk_concat, mk_not, mk_lookahead, mk_and}
use aici.Derivre.Simplify.Prefixes.{mk_or}

-- The derivatives that `state_table` has.
pub record Entry : Type 0 where
  pub expr : ℕ
  pub by_byte : ℕ
  pub derivative_id : ℕ

pub record DerivCache : Type 0 where
  pub num_deriv : ℕ
  pub state_table : List Entry

abbrev pub lookup_entry : List Entry → ℕ → ℕ → Option ℕ
lookup_entry [] r b = none
lookup_entry (x ∷ xs) r b =
    let rest = lookup_entry xs r b in
    if x.expr == r && x.by_byte == b then some x.derivative_id else rest

abbrev pub is_concat : Expr → Bool
is_concat (concat f es) = true
is_concat empty_string = false
is_concat no_match = false
is_concat (byte b) = false
is_concat (byte_set s) = false
is_concat (lookahead f e n) = false
is_concat (complement f e) = false
is_concat (repeat f e lo hi) = false
is_concat (or_of f es) = false
is_concat (and_of f es) = false

-- The derivatives of the arguments, and the arguments that have none yet, last one first.
pub record Mapped : Type 0 where
  pub mapped : List ℕ
  pub missing : List ℕ

abbrev pub note_arg : ℕ → Option ℕ → Mapped → Mapped
note_arg a none m = record m { missing = m.missing ++ (a ∷ []) }
note_arg a (some d) m = record m { mapped = d ∷ m.mapped }

unfoldable pub map_args : ExprSet → List Entry → ℕ → Bool → List ℕ → Option Mapped
map_args s table b concats [] = some (record { mapped = []; missing = [] })
map_args s table b concats (a ∷ es) =
    let rest = map_args s table b concats es in
    (if concats then (is_nullable s a >>= λ n. some (not n)) else some false) >>= λ brk.
    if brk
    then some (note_arg a (lookup_entry table a b) (record { mapped = []; missing = [] }))
    else (rest >>= λ m. some (note_arg a (lookup_entry table a b) m))

-- The branches of the derivative of a concatenation.
unfoldable pub concat_branches : ExprSet → List ℕ → List ℕ → Option (List ℕ × ExprSet)
concat_branches s [] deriv = some ([], s)
concat_branches s (a ∷ es) [] = none
concat_branches s (a ∷ es) (d ∷ ds) = is_nullable s a >>= λ n.
    mk_concat s (d ∷ es) >>= λ (branch, s1).
    if n
    then (concat_branches s1 es ds >>= λ (branches, s2). some (branch ∷ branches, s2))
    else some (branch ∷ [], s1)

abbrev pub matched : ExprSet → Expr → ℕ → Made
matched s e b = matches_byte e b >>= λ yes. some ((if yes then empty_string_id else no_match_id), s)

-- The derivative of an expression, from those of its arguments.
unfoldable pub derive : ExprSet → ℕ → List ℕ → Expr → Made
derive s b deriv empty_string = matched s empty_string b
derive s b deriv no_match = matched s no_match b
derive s b deriv (byte b2) = matched s (byte b2) b
derive s b deriv (byte_set bs) = matched s (byte_set bs) b
derive s b deriv (and_of f es) = mk_and s deriv
derive s b deriv (or_of f es) = mk_or s deriv
derive s b deriv (complement f e) = get_elem? deriv 0 >>= λ d. mk_not s d
derive s b deriv (repeat f e lo hi) =
    mk_repeat s e (lo - 1) (if hi == u32_max then u32_max else hi - 1) >>= λ (tail, s1).
    get_elem? deriv 0 >>= λ d. mk_concat s1 (d ∷ tail ∷ [])
derive s b deriv (concat f es) = concat_branches s es deriv >>= λ (branches, s1). mk_or s1 branches
derive s b deriv (lookahead f e offset) =
    if e == empty_string_id
    then some (no_match_id, s)
    else (get_elem? deriv 0 >>= λ d. mk_lookahead s d ((offset + 1) % 2 ^ 32))

abbrev pub add_entry : ℕ → ℕ → ℕ → DerivCache → DerivCache
add_entry r b d cache = record {
  num_deriv = suc cache.num_deriv;
  state_table = record { expr = r; by_byte = b; derivative_id = d } ∷ cache.state_table;
}

-- What `map` does with the expression on top: its arguments first, or its derivative.
abbrev pub visit :
    (List ℕ → DerivCache → ExprSet → Option (DerivCache × ExprSet))
    → ℕ
    → ℕ
    → List ℕ
    → DerivCache
    → ExprSet
    → Expr
    → List ℕ
    → List ℕ
    → Option (DerivCache × ExprSet)
visit next b r todo cache s e ds [] =
    derive s b ds e >>= λ (d, s1). next todo (add_entry r b d cache) s1
visit next b r todo cache s e ds (a ∷ more) = next ((a ∷ more) ++ (r ∷ todo)) cache s

abbrev pub visit_top :
    (List ℕ → DerivCache → ExprSet → Option (DerivCache × ExprSet))
    → ℕ
    → ℕ
    → List ℕ
    → DerivCache
    → ExprSet
    → Option ℕ
    → Option (DerivCache × ExprSet)
visit_top next b r todo cache s (some d) = next todo cache s
visit_top next b r todo cache s none = do
  e ← get s r
  m ← map_args s cache.state_table b (is_concat e) (args e)
  visit next b r todo cache s e m.mapped m.missing

unfoldable pub map_loop : ℕ → ℕ → List ℕ → DerivCache → ExprSet → Option (DerivCache × ExprSet)
map_loop fuel b [] cache s = some (cache, s)
map_loop zero b (r ∷ todo) cache s = none
map_loop (suc fuel) b (r ∷ todo) cache s =
    visit_top (map_loop fuel b) b r todo cache s (lookup_entry cache.state_table r b)

unfoldable pub derivative : ℕ → DerivCache → ExprSet → ℕ → ℕ → Option (ℕ × DerivCache × ExprSet)
derivative fuel cache s r b = map_loop fuel b (r ∷ []) cache s >>= λ (cache', s').
    lookup_entry cache'.state_table r b >>= λ d. some (d, cache', s')
