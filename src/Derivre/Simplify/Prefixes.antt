-- ===== src/Derivre/Simplify/Prefixes.antt =====
-- `or_optimized`, `trie_rec` and `mk_or` in controllers/derivre/src/simplify.rs.
use aici.Prelude.{
  ℕ, zero, suc, ◌+◌, ◌-◌, ◌==◌, ltb, leb, Bool, true, false, ◌&&◌, ◌||◌, Option, none, some, List,
  [], ◌∷◌, ◌++◌, length, take, drop, get_elem?, ◌>>=◌, ◌>>◌, guard, if◌then◌else◌,
}
use aici.Derivre.Ast.{ExprSet, empty_string_id, concat_tag, or_of, from_nullable, mk}
use aici.Derivre.Simplify.{Made, flatten_tag, mk_concat}
use aici.Derivre.Simplify.Union.{mk_or_with, mk_or_plain}

-- The order of vectors of ids.
abbrev pub before_ids : List ℕ → List ℕ → Bool
before_ids [] [] = false
before_ids [] (y ∷ ys) = true
before_ids (x ∷ xs) [] = false
before_ids (x ∷ xs) (y ∷ ys) = ltb x y || (x == y && before_ids xs ys)

abbrev pub insert_ids : List ℕ → List (List ℕ) → List (List ℕ)
insert_ids v [] = v ∷ []
insert_ids v (x ∷ xs) =
    let rest = insert_ids v xs in if before_ids x v then x ∷ rest else v ∷ x ∷ xs

abbrev pub sort_vectors : List (List ℕ) → List (List ℕ)
sort_vectors [] = []
sort_vectors (v ∷ vs) = insert_ids v (sort_vectors vs)

-- How far two vectors agree.
abbrev pub common : List ℕ → List ℕ → ℕ
common [] ys = 0
common (x ∷ xs) [] = 0
common (x ∷ xs) (y ∷ ys) = let rest = common xs ys in if x == y then suc rest else 0

abbrev pub last_of : List ℕ → List (List ℕ) → List ℕ
last_of v [] = v
last_of v (w ∷ vs) = last_of w vs

abbrev pub same_key : Option ℕ → Option ℕ → Bool
same_key none none = true
same_key none (some y) = false
same_key (some x) none = false
same_key (some x) (some y) = x == y

-- Neighbours that agree at the offset: `args[idx..next]`, with `cur`.
pub record Group : Type 0 where
  pub cur : Option ℕ
  pub members : List (List ℕ)

abbrev pub join_group : Option ℕ → List ℕ → List Group → List Group
join_group cur v [] = record { cur = cur; members = v ∷ [] } ∷ []
join_group cur v (g ∷ gs) =
    if same_key cur g.cur
    then record g { members = v ∷ g.members } ∷ gs
    else record { cur = cur; members = v ∷ [] } ∷ g ∷ gs

abbrev pub groups : ℕ → List (List ℕ) → List Group
groups end_offset [] = []
groups end_offset (v ∷ vs) = join_group (get_elem? v end_offset) v (groups end_offset vs)

abbrev pub alternative : (List (List ℕ) → ExprSet → Made) → Group → ExprSet → Option ℕ → Made
alternative next g s none = some (empty_string_id, s)
alternative next g s (some id) = next g.members s

unfoldable pub alternatives :
    (List (List ℕ) → ExprSet → Made) → List Group → ExprSet → Option (List ℕ × ExprSet)
alternatives next [] s = some ([], s)
alternatives next (g ∷ gs) s = do
  (e, s1) ← alternative next g s g.cur
  (es, s2) ← alternatives next gs s1
  some (e ∷ es, s2)

-- The rests of the vectors as concatenations.
unfoldable pub concat_rests : ℕ → List (List ℕ) → ExprSet → Option (List ℕ × ExprSet)
concat_rests offset [] s = some ([], s)
concat_rests offset (v ∷ vs) s = do
  guard (leb offset (length v))
  (e, s1) ← mk_concat s (drop offset v)
  (es, s2) ← concat_rests offset vs s1
  some (e ∷ es, s2)

abbrev pub trie_node : (ℕ → List (List ℕ) → ExprSet → Made) → ℕ → List (List ℕ) → ExprSet → Made
trie_node next offset [] s = none
trie_node next offset (first ∷ vs) s =
    let end_offset = offset + common (drop offset first) (drop offset (last_of first vs)) in
    guard (offset == 0 || ltb offset end_offset) >> (do
      (alts, s1) ← alternatives (next end_offset) (groups end_offset (first ∷ vs)) s
      (e, s2) ← mk_or_plain s1 alts
      mk_concat s2 (take (end_offset - offset) (drop offset first) ++ (e ∷ [])))

-- `levels` is 101 less the depth.
unfoldable pub trie_rec : ℕ → ℕ → List (List ℕ) → ExprSet → Made
trie_rec zero offset args s = concat_rests offset args s >>= λ (es, s1). mk_or_plain s1 es
trie_rec (suc levels) offset args s = trie_node (trie_rec levels) offset args s

abbrev pub flatten_each : ExprSet → List ℕ → Option (List (List ℕ))
flatten_each s [] = some []
flatten_each s (e ∷ es) = do
  v ← flatten_tag s concat_tag (e ∷ [])
  vs ← flatten_each s es
  some (v ∷ vs)

abbrev pub has_double : ℕ → List (List ℕ) → Option Bool
has_double prev [] = some false
has_double prev (v ∷ vs) = get_elem? v 0 >>= λ x. if x == prev then some true else has_double x vs

-- The switch is off while the trie is made.
abbrev pub share : ExprSet → List (List ℕ) → Made
share s concats = trie_rec 101 0 concats (record s { optimize = false }) >>= λ (r, s1).
    some (r, record s1 { optimize = true })

unfoldable pub or_optimized : ExprSet → Bool → List ℕ → Made
or_optimized s nullable args = flatten_each s args >>= λ vs.
    has_double 0 (sort_vectors vs) >>= λ double.
    if double then share s (sort_vectors vs) else mk s (or_of (from_nullable nullable) args)

unfoldable pub mk_or : ExprSet → List ℕ → Made
mk_or = mk_or_with (λ s nullable args.
    if s.optimize then or_optimized s nullable args else mk s (or_of (from_nullable nullable) args))
