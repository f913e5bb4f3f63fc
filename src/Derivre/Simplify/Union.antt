-- ===== src/Derivre/Simplify/Union.antt =====
-- `mk_or` and the sharing of prefixes in controllers/derivre/src/simplify.rs.
use aici.Prelude.{
  ℕ, ◌+◌, ◌==◌, ltb, Bool, true, false, ◌&&◌, ◌||◌, Option, none, some, List, [], ◌∷◌, ◌++◌, length,
  replicate, ◌>>=◌, if◌then◌else◌,
}
use aici.Derivre.Ast.{
  Expr, ExprSet, no_match_id, any_string_id, empty_string, no_match, byte, byte_set, lookahead,
  complement, repeat, concat, or_of, and_of, or_tag, from_nullable, byteset_set, byteset_union, mk,
  get, is_nullable,
}
use aici.Derivre.Simplify.{Made, pay, mk_byte_set, flatten_tag, sort_ids}

abbrev pub is_bytes : Expr → Bool
is_bytes (byte b) = true
is_bytes (byte_set s) = true
is_bytes empty_string = false
is_bytes no_match = false
is_bytes (lookahead f e n) = false
is_bytes (complement f e) = false
is_bytes (repeat f e lo hi) = false
is_bytes (concat f es) = false
is_bytes (or_of f es) = false
is_bytes (and_of f es) = false

-- The parts of a lookahead: its expression and its offset.
abbrev pub lookahead_parts : Expr → Option (ℕ × ℕ)
lookahead_parts (lookahead f e n) = some (e, n)
lookahead_parts (byte b) = none
lookahead_parts (byte_set s) = none
lookahead_parts empty_string = none
lookahead_parts no_match = none
lookahead_parts (complement f e) = none
lookahead_parts (repeat f e lo hi) = none
lookahead_parts (concat f es) = none
lookahead_parts (or_of f es) = none
lookahead_parts (and_of f es) = none

-- What the loop of `mk_or` keeps.
pub record OrScan : Type 0 where
  pub kept : List ℕ
  pub nullable : Bool
  pub num_bytes : ℕ
  pub num_lookahead : ℕ

abbrev pub one_if : Bool → ℕ
one_if b = if b then 1 else 0

abbrev pub is_some : {A : Type 0} → Option A → Bool
is_some none = false
is_some (some a) = true

abbrev pub keep_arg : ℕ → Expr → Option OrScan → Option OrScan
keep_arg arg e none = none
keep_arg arg e (some x) = some (record x {
  kept = arg ∷ x.kept;
  num_bytes = one_if (is_bytes e) + x.num_bytes;
  num_lookahead = one_if (is_some (lookahead_parts e)) + x.num_lookahead;
})

-- The early return of ANY_STRING is the inner `none`.
unfoldable pub scan_or : ExprSet → ℕ → Bool → List ℕ → Option (Option OrScan)
scan_or s prev nullable [] =
    some (some (record { kept = []; nullable = nullable; num_bytes = 0; num_lookahead = 0 }))
scan_or s prev nullable (arg ∷ args) =
    let skip = scan_or s prev nullable args in
    if arg == prev || arg == no_match_id
    then skip
    else if arg == any_string_id
    then some none
    else (do
      e ← get s arg
      n ← (if nullable then some true else is_nullable s arg)
      r ← scan_or s arg n args
      some (keep_arg arg e r))

-- The bytes of an expression that is one byte of a set; any other keeps its place.
abbrev pub take_bytes : List ℕ → Expr → Option (Option (List ℕ))
take_bytes set (byte b) = byteset_set set b >>= λ set'. some (some set')
take_bytes set (byte_set s) = byteset_union set s >>= λ set'. some (some set')
take_bytes set empty_string = some none
take_bytes set no_match = some none
take_bytes set (lookahead f e n) = some none
take_bytes set (complement f e) = some none
take_bytes set (repeat f e lo hi) = some none
take_bytes set (concat f es) = some none
take_bytes set (or_of f es) = some none
take_bytes set (and_of f es) = some none

abbrev pub put_bytes :
    ℕ → Option (List ℕ) → (List ℕ → Option (List ℕ × List ℕ)) → List ℕ → Option (List ℕ × List ℕ)
put_bytes e none next set = next set >>= λ (es, set'). some (e ∷ es, set')
put_bytes e (some set') next set = next set'

-- The arguments that are left, and the union of the sets.
unfoldable pub retain_bytes : ExprSet → List ℕ → List ℕ → Option (List ℕ × List ℕ)
retain_bytes s [] set = some ([], set)
retain_bytes s (e ∷ es) set = do
  n ← get s e
  taken ← take_bytes set n
  put_bytes e taken (retain_bytes s es) set

-- The insertion keeps the order, and panics on an argument that is there.
abbrev pub add_to_sorted : List ℕ → ℕ → Option (List ℕ)
add_to_sorted [] e = some (e ∷ [])
add_to_sorted (x ∷ xs) e =
    let rest = add_to_sorted xs e in
    if x == e then none else if ltb e x then some (e ∷ x ∷ xs) else (rest >>= λ ys. some (x ∷ ys))

abbrev pub join_bytes : ExprSet → OrScan → Option (List ℕ × ExprSet)
join_bytes s x =
    if ltb 1 x.num_bytes
    then (do
      (es, set) ← retain_bytes s x.kept (replicate s.alphabet_words 0)
      (node, s1) ← mk_byte_set s set
      es' ← add_to_sorted es node
      some (es', s1))
    else some (x.kept, s)

-- A lookahead with its expression and its offset.
pub record Ahead : Type 0 where
  pub whole : ℕ
  pub inner : ℕ
  pub offset : ℕ

abbrev pub split_ahead : ℕ → Option (ℕ × ℕ) → List ℕ × List Ahead → List ℕ × List Ahead
split_ahead e none r = (e ∷ r.0, r.1)
split_ahead e (some p) r = (r.0, record { whole = e; inner = p.0; offset = p.1 } ∷ r.1)

unfoldable pub retain_ahead : ExprSet → List ℕ → Option (List ℕ × List Ahead)
retain_ahead s [] = some ([], [])
retain_ahead s (e ∷ es) = do
  n ← get s e
  r ← retain_ahead s es
  some (split_ahead e (lookahead_parts n) r)

abbrev pub before : Ahead → Ahead → Bool
before a b = ltb a.inner b.inner || (a.inner == b.inner && ltb a.offset b.offset)

abbrev pub insert_ahead : Ahead → List Ahead → List Ahead
insert_ahead a [] = a ∷ []
insert_ahead a (x ∷ xs) =
    let rest = insert_ahead a xs in if before x a then x ∷ rest else a ∷ x ∷ xs

abbrev pub sort_ahead : List Ahead → List Ahead
sort_ahead [] = []
sort_ahead (x ∷ xs) = insert_ahead x (sort_ahead xs)

-- Of the lookaheads at one expression the first.
abbrev pub first_ahead : ℕ → List Ahead → List ℕ
first_ahead prev [] = []
first_ahead prev (a ∷ as') =
    if a.inner == prev then first_ahead prev as' else a.whole ∷ first_ahead a.inner as'

abbrev pub join_ahead : ExprSet → ℕ → List ℕ → Option (List ℕ)
join_ahead s num_lookahead args =
    if ltb 1 num_lookahead
    then (retain_ahead s args >>= λ (es, ahead).
        some (sort_ids (es ++ first_ahead 0 (sort_ahead ahead))))
    else some args

abbrev pub or_kept : (ExprSet → Bool → List ℕ → Made) → ExprSet → Bool → List ℕ → Made
or_kept finish s nullable [] = some (no_match_id, s)
or_kept finish s nullable (e ∷ []) = some (e, s)
or_kept finish s nullable (e ∷ e2 ∷ es) = finish s nullable (e ∷ e2 ∷ es)

abbrev pub or_scanned : (ExprSet → Bool → List ℕ → Made) → ExprSet → Option OrScan → Made
or_scanned finish s none = some (any_string_id, s)
or_scanned finish s (some x) = do
  (args, s1) ← join_bytes s x
  args' ← join_ahead s1 x.num_lookahead args
  or_kept finish s1 x.nullable args'

-- `mk_or` up to its last step.
unfoldable pub mk_or_with : (ExprSet → Bool → List ℕ → Made) → ExprSet → List ℕ → Made
mk_or_with finish s args0 = flatten_tag s or_tag args0 >>= λ args.
    let s1 = pay s (length args) in
    scan_or s1 no_match_id false (sort_ids args) >>= λ r. or_scanned finish s1 r

-- `mk_or` while `optimize` is off, as it is inside `trie_rec`.
abbrev pub mk_or_plain : ExprSet → List ℕ → Made
mk_or_plain = mk_or_with (λ s nullable args. mk s (or_of (from_nullable nullable) args))
