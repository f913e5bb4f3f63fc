-- ===== src/Derivre/Simplify.antt =====
-- The constructors that simplify: controllers/derivre/src/simplify.rs. Each returns the id of the
-- expression and the set that holds it.
pub mod Union
pub mod Prefixes
pub mod Grows
pub mod GrowsOr
use aici.Prelude.{
  ℕ, zero, suc, ◌+◌, ◌-◌, ◌%◌, ◌^◌, ◌==◌, ltb, leb, Bool, true, false, not, ◌&&◌, ◌||◌, Option,
  none, some, List, [], ◌∷◌, ◌++◌, length, take, drop, ◌>>=◌, ◌>>◌, guard, if◌then◌else◌,
}
use aici.Derivre.HashCons.{get as get_vec}
use aici.Derivre.Ast.{
  Expr, ExprTag, ExprSet, empty_string_id, no_match_id, any_string_id, non_empty_string_id, byte,
  byte_set, lookahead, complement, repeat, concat, or_of, and_of, empty_string, no_match,
  empty_string_tag, no_match_tag, byte_tag, byte_set_tag, lookahead_tag, complement_tag, repeat_tag,
  concat_tag, or_tag, and_tag, tag_value, from_u8, from_nullable, nullable_flag, nullable,
  byteset_contains, mk, get, get_tag, is_nullable, first_word,
}
use aici.Vob.{count_ones}

abbrev pub Made : Type 0
Made = Option (ℕ × ExprSet)

abbrev pub pay : ExprSet → ℕ → ExprSet
pay s cost = record s { cost = s.cost + cost }

unfoldable pub mk_byte : ExprSet → ℕ → Made
mk_byte s b = mk (pay s 1) (byte b)

abbrev pub bits_set : List ℕ → ℕ
bits_set [] = 0
bits_set (x ∷ s) = count_ones 32 x + bits_set s

-- The first byte of the set among `n` bytes from `i` on.
abbrev pub first_byte : List ℕ → ℕ → ℕ → Option ℕ
first_byte s i zero = none
first_byte s i (suc n) =
    let rest = first_byte s (suc i) n in
    byteset_contains s i >>= λ here. if here then some i else rest

unfoldable pub mk_byte_set : ExprSet → List ℕ → Made
mk_byte_set s bytes =
    guard (length bytes == s.alphabet_words)
    >> (let s1 = pay s s.alphabet_words in
        if bits_set bytes == 0
        then some (no_match_id, s1)
        else if bits_set bytes == 1
        then (first_byte bytes 0 s1.alphabet_size >>= λ i. mk_byte s1 (i % 2 ^ 8))
        else mk s1 (byte_set bytes))

unfoldable pub mk_repeat : ExprSet → ℕ → ℕ → ℕ → Made
mk_repeat s0 e lo hi =
    let s = pay s0 1 in
    if e == no_match_id
    then some ((if lo == 0 then empty_string_id else no_match_id), s)
    else if e == empty_string_id
    then some (empty_string_id, s)
    else if ltb hi lo
    then none
    else if hi == 0
    then some (empty_string_id, s)
    else if lo == 1 && hi == 1
    then some (e, s)
    else (is_nullable s e >>= λ n.
        let lo' = if n then 0 else lo in mk s (repeat (from_nullable (lo' == 0)) e lo' hi))

abbrev pub same_tag : ExprTag → ExprTag → Bool
same_tag t u = tag_value t == tag_value u

-- `get_args` on the words behind the first.
abbrev pub args_of : ExprTag → List ℕ → List ℕ
args_of concat_tag s = s
args_of or_tag s = s
args_of and_tag s = s
args_of complement_tag s = take 1 s
args_of repeat_tag s = take 1 s
args_of lookahead_tag s = take 1 s
args_of empty_string_tag s = []
args_of no_match_tag s = []
args_of byte_tag s = []
args_of byte_set_tag s = []

unfoldable pub get_args : ExprSet → ℕ → Option (List ℕ)
get_args s id = do v ← get_vec s.exprs id; tag ← get_tag s id; some (args_of tag (drop 1 v))

-- From the first argument with the tag on.
unfoldable pub flatten_rest : ExprSet → ExprTag → List ℕ → Option (List ℕ)
flatten_rest s exp_tag [] = some []
flatten_rest s exp_tag (a ∷ args) = do
  tag ← get_tag s a
  first ← (if same_tag tag exp_tag then get_args s a else some (a ∷ []))
  rest ← flatten_rest s exp_tag args
  some (first ++ rest)

unfoldable pub flatten_tag : ExprSet → ExprTag → List ℕ → Option (List ℕ)
flatten_tag s exp_tag [] = some []
flatten_tag s exp_tag (a ∷ args) =
    let later = flatten_tag s exp_tag args in
    get_tag s a >>= λ tag.
    if same_tag tag exp_tag
    then flatten_rest s exp_tag (a ∷ args)
    else (later >>= λ rest. some (a ∷ rest))

abbrev pub insert_id : ℕ → List ℕ → List ℕ
insert_id e [] = e ∷ []
insert_id e (x ∷ xs) = let rest = insert_id e xs in if ltb x e then x ∷ rest else e ∷ x ∷ xs

-- `sort_unstable` on ids.
abbrev pub sort_ids : List ℕ → List ℕ
sort_ids [] = []
sort_ids (x ∷ xs) = insert_id x (sort_ids xs)

abbrev pub all_nullable : ExprSet → List ℕ → Option Bool
all_nullable s [] = some true
all_nullable s (e ∷ es) =
    let rest = all_nullable s es in is_nullable s e >>= λ n. if n then rest else some false

abbrev pub retain : (ℕ → Bool) → List ℕ → List ℕ
retain p [] = []
retain p (e ∷ es) = if p e then e ∷ retain p es else retain p es

abbrev pub any_is : ℕ → List ℕ → Bool
any_is id [] = false
any_is id (e ∷ es) = e == id || any_is id es

-- `mk_concat` on the arguments that are left.
abbrev pub concat_of : ExprSet → List ℕ → Made
concat_of s [] = some (empty_string_id, s)
concat_of s (e ∷ []) = some (e, s)
concat_of s (e ∷ e2 ∷ es) =
    if any_is no_match_id (e ∷ e2 ∷ es)
    then some (no_match_id, s)
    else (all_nullable s (e ∷ e2 ∷ es) >>= λ n. mk s (concat (from_nullable n) (e ∷ e2 ∷ es)))

unfoldable pub mk_concat : ExprSet → List ℕ → Made
mk_concat s args0 = flatten_tag s concat_tag args0 >>= λ args.
    concat_of (pay s (length args)) (retain (λ e. not (e == empty_string_id)) args)

abbrev pub mk_bytes : ExprSet → List ℕ → Option (List ℕ × ExprSet)
mk_bytes s [] = some ([], s)
mk_bytes s (b ∷ bs) = do (e, s1) ← mk_byte s b; (es, s2) ← mk_bytes s1 bs; some (e ∷ es, s2)

unfoldable pub mk_byte_literal : ExprSet → List ℕ → Made
mk_byte_literal s bytes = do (es, s1) ← mk_bytes (pay s (length bytes)) bytes; mk_concat s1 es

-- The last part of `mk_not`.
abbrev pub not_of : ExprSet → ℕ → Expr → Made
not_of s e (complement f e2) = some (e2, s)
not_of s e empty_string = mk s (complement (from_nullable (not (nullable empty_string))) e)
not_of s e no_match = mk s (complement (from_nullable (not (nullable no_match))) e)
not_of s e (byte b) = mk s (complement (from_nullable (not (nullable (byte b)))) e)
not_of s e (byte_set bs) = mk s (complement (from_nullable (not (nullable (byte_set bs)))) e)
not_of s e (lookahead f e2 n) =
    mk s (complement (from_nullable (not (nullable (lookahead f e2 n)))) e)
not_of s e (repeat f e2 lo hi) =
    mk s (complement (from_nullable (not (nullable (repeat f e2 lo hi)))) e)
not_of s e (concat f es) = mk s (complement (from_nullable (not (nullable (concat f es)))) e)
not_of s e (or_of f es) = mk s (complement (from_nullable (not (nullable (or_of f es)))) e)
not_of s e (and_of f es) = mk s (complement (from_nullable (not (nullable (and_of f es)))) e)

unfoldable pub mk_not : ExprSet → ℕ → Made
mk_not s0 e =
    let s = pay s0 1 in
    if e == empty_string_id
    then some (non_empty_string_id, s)
    else if e == non_empty_string_id
    then some (empty_string_id, s)
    else if e == any_string_id
    then some (no_match_id, s)
    else if e == no_match_id
    then some (any_string_id, s)
    else (get s e >>= λ n. not_of s e n)

unfoldable pub mk_lookahead : ExprSet → ℕ → ℕ → Made
mk_lookahead s0 e offset =
    let s = pay s0 1 in
    if e == no_match_id
    then some (no_match_id, s)
    else (is_nullable s e >>= λ n.
        if n
        then mk s (lookahead nullable_flag empty_string_id offset)
        else mk s (lookahead 0 e offset))

-- What the loop of `mk_and` keeps: the early return of NO_MATCH is `none`.
pub record AndScan : Type 0 where
  pub kept : List ℕ
  pub had_empty : Bool
  pub nullable : Bool

abbrev pub keep_arg : ℕ → Option AndScan → Option AndScan
keep_arg arg none = none
keep_arg arg (some x) = some (record x { kept = arg ∷ x.kept })

unfoldable pub scan_and : ExprSet → ℕ → Bool → Bool → List ℕ → Option (Option AndScan)
scan_and s prev had_empty nullable [] =
    some (some (record { kept = []; had_empty = had_empty; nullable = nullable }))
scan_and s prev had_empty nullable (arg ∷ args) =
    let skip = scan_and s prev had_empty nullable args in
    if arg == prev || arg == any_string_id
    then skip
    else if arg == no_match_id
    then some none
    else ((if nullable then is_nullable s arg else some false) >>= λ n.
        scan_and s arg (had_empty || arg == empty_string_id) n args >>= λ r. some (keep_arg arg r))

abbrev pub and_kept : ExprSet → Bool → Bool → List ℕ → Made
and_kept s had_empty nullable [] = some (any_string_id, s)
and_kept s had_empty nullable (e ∷ []) = some (e, s)
and_kept s had_empty nullable (e ∷ e2 ∷ es) =
    if had_empty
    then some ((if nullable then empty_string_id else no_match_id), s)
    else mk s (and_of (from_nullable nullable) (e ∷ e2 ∷ es))

abbrev pub and_scanned : ExprSet → Option AndScan → Made
and_scanned s none = some (no_match_id, s)
and_scanned s (some x) = and_kept s x.had_empty x.nullable x.kept

unfoldable pub mk_and : ExprSet → List ℕ → Made
mk_and s args0 = flatten_tag s and_tag args0 >>= λ args.
    let s1 = pay s (length args) in
    scan_and s1 any_string_id false true (sort_ids args) >>= λ r. and_scanned s1 r
