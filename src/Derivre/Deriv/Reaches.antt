-- ===== src/Derivre/Deriv/Reaches.antt =====
-- The sets of expressions that the constructors of controllers/derivre/src/simplify.rs and the
-- derivatives of controllers/derivre/src/deriv.rs lead to.
use aici.Prelude.{ℕ, ◌≡◌, Option, some, List, [], ◌∷◌}
use aici.Prelude.Results.{Ensures, Ensures-some, Ensures-bind, Ensures-after, returns}
use aici.Derivre.HashCons.Inserting.{IsValid}
use aici.Derivre.Ast.{Expr, ExprSet, get}
use aici.Derivre.Ast.Overflow.{Grows}
use aici.Derivre.Simplify.{
  mk_byte, mk_byte_set, mk_repeat, mk_concat, mk_byte_literal, mk_not, mk_lookahead, mk_and,
}
use aici.Derivre.Simplify.Prefixes.{mk_or}
use aici.Derivre.Simplify.Grows.{
  Growing, Grows-refl, Grows-trans, mk_byte-Growing, mk_byte_set-Growing, mk_repeat-Growing,
  mk_concat-Growing, mk_byte_literal-Growing, mk_not-Growing, mk_lookahead-Growing, mk_and-Growing,
}
use aici.Derivre.Simplify.GrowsOr.{mk_or-Growing}
use aici.Derivre.Deriv.{DerivCache, lookup_entry, derivative}
use aici.Derivre.Deriv.Grows.{map_loop-Growing}

-- One call that returns.
pub data Step (s : ExprSet) : ExprSet → Type 0 where
  byte_step : (b id : ℕ) (s' : ExprSet) → mk_byte s b ≡ some (id, s') → Step s s'
  byte_set_step :
      (bytes : List ℕ) (id : ℕ) (s' : ExprSet) → mk_byte_set s bytes ≡ some (id, s') → Step s s'
  repeat_step : (e lo hi id : ℕ) (s' : ExprSet) → mk_repeat s e lo hi ≡ some (id, s') → Step s s'
  concat_step : (es : List ℕ) (id : ℕ) (s' : ExprSet) → mk_concat s es ≡ some (id, s') → Step s s'
  byte_literal_step :
      (bytes : List ℕ) (id : ℕ) (s' : ExprSet) → mk_byte_literal s bytes ≡ some (id, s') → Step s s'
  not_step : (e id : ℕ) (s' : ExprSet) → mk_not s e ≡ some (id, s') → Step s s'
  lookahead_step :
      (e offset id : ℕ) (s' : ExprSet) → mk_lookahead s e offset ≡ some (id, s') → Step s s'
  and_step : (es : List ℕ) (id : ℕ) (s' : ExprSet) → mk_and s es ≡ some (id, s') → Step s s'
  or_step : (es : List ℕ) (id : ℕ) (s' : ExprSet) → mk_or s es ≡ some (id, s') → Step s s'
  derivative_step :
      (fuel : ℕ) (cache : DerivCache) (r b id : ℕ) (cache' : DerivCache) (s' : ExprSet)
      → derivative fuel cache s r b ≡ some (id, cache', s')
      → Step s s'

pub data Reaches : ExprSet → ExprSet → Type 0 where
  here : {s : ExprSet} → Reaches s s
  after : {s t u : ExprSet} → Reaches s t → Step t u → Reaches s u

made :
    (s s' : ExprSet) (id : ℕ) {m : Option (ℕ × ExprSet)}
    → Growing s m
    → IsValid s.exprs
    → m ≡ some (id, s')
    → Grows s s'
made s s' id g v e = Ensures-some (g v) e

derivative-Grows :
    (fuel : ℕ) (cache : DerivCache) (s : ExprSet) (r b : ℕ)
    → IsValid s.exprs
    → Ensures (λ x. Grows s x.2) (derivative fuel cache s r b)
unfolding derivative
derivative-Grows fuel cache s r b v =
    Ensures-bind (map_loop-Growing fuel b (r ∷ []) cache s v)
      λ x g. Ensures-after (lookup_entry x.0.state_table r b) λ d. returns g

Step-Grows : (s s' : ExprSet) → IsValid s.exprs → Step s s' → Grows s s'
Step-Grows s s' v (byte_step b id t e) = made s s' id (mk_byte-Growing s b) v e
Step-Grows s s' v (byte_set_step bytes id t e) = made s s' id (mk_byte_set-Growing s bytes) v e
Step-Grows s s' v (repeat_step x lo hi id t e) = made s s' id (mk_repeat-Growing s x lo hi) v e
Step-Grows s s' v (concat_step es id t e) = made s s' id (mk_concat-Growing s es) v e
Step-Grows s s' v (byte_literal_step bytes id t e) =
    made s s' id (mk_byte_literal-Growing s bytes) v e
Step-Grows s s' v (not_step x id t e) = made s s' id (mk_not-Growing s x) v e
Step-Grows s s' v (lookahead_step x offset id t e) =
    made s s' id (mk_lookahead-Growing s x offset) v e
Step-Grows s s' v (and_step es id t e) = made s s' id (mk_and-Growing s es) v e
Step-Grows s s' v (or_step es id t e) = made s s' id (mk_or-Growing s es) v e
Step-Grows s s' v (derivative_step fuel cache r b id cache' t e) =
    Ensures-some (derivative-Grows fuel cache s r b v) e

Reaches-Grows : (s s' : ExprSet) → IsValid s.exprs → Reaches s s' → Grows s s'
Reaches-Grows s s' v here = Grows-refl s v
Reaches-Grows s u v (after {t = t} path step) =
    let g = Reaches-Grows s t v path in Grows-trans s t u g (Step-Grows t u g.valid step)

-- From a valid set of expressions, any sequence of calls of the constructors and of `derivative`
-- that return leads to a valid set, in which every expression that the first one has is still
-- under its id.
pub get-Reaches :
    (s s' : ExprSet) (j : ℕ) (x : Expr)
    → IsValid s.exprs
    → Reaches s s'
    → get s j ≡ some x
    → IsValid s'.exprs × (get s' j ≡ some x)
get-Reaches s s' j x v path e = let g = Reaches-Grows s s' v path in (g.valid, g.keeps j x e)
