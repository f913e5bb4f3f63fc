-- ===== src/Derivre/NextByte.antt =====
-- What byte can come next: controllers/derivre/src/nextbyte.rs, with `NextByte` and the lengths of
-- lookaheads of controllers/derivre/src/ast.rs. The loop over first arguments is fuel.
use aici.Prelude.{
  ℕ, zero, suc, ◌==◌, min, Bool, true, false, Option, none, some, List, [], ◌∷◌, get_elem?, ◌>>=◌,
  if◌then◌else◌,
}
use aici.Derivre.Ast.{
  Expr, ExprSet, empty_string_id, empty_string, no_match, byte, byte_set, lookahead, complement,
  repeat, concat, or_of, and_of, get, is_nullable,
}

pub data NextByte : Type 0 where
  forced_byte : ℕ → NextByte
  forced_eoi : NextByte
  some_bytes : NextByte
  dead : NextByte

abbrev pub same_next : NextByte → NextByte → Bool
same_next (forced_byte a) (forced_byte b) = a == b
same_next (forced_byte a) forced_eoi = false
same_next (forced_byte a) some_bytes = false
same_next (forced_byte a) dead = false
same_next forced_eoi (forced_byte b) = false
same_next forced_eoi forced_eoi = true
same_next forced_eoi some_bytes = false
same_next forced_eoi dead = false
same_next some_bytes (forced_byte b) = false
same_next some_bytes forced_eoi = false
same_next some_bytes some_bytes = true
same_next some_bytes dead = false
same_next dead (forced_byte b) = false
same_next dead forced_eoi = false
same_next dead some_bytes = false
same_next dead dead = true

abbrev pub bitand : NextByte → NextByte → NextByte
bitand x y =
    if same_next x y
    then x
    else if same_next x some_bytes
    then y
    else if same_next y some_bytes
    then x
    else dead

abbrev pub bitor : NextByte → NextByte → NextByte
bitor x y =
    if same_next x y
    then x
    else if same_next x dead
    then y
    else if same_next y dead
    then x
    else some_bytes

-- The argument that decides, where an expression leaves it to one.
abbrev pub next_of : ExprSet → (ℕ → Option NextByte) → Expr → Option NextByte
next_of s next empty_string = some forced_eoi
next_of s next no_match = some dead
next_of s next (byte_set bs) = some some_bytes
next_of s next (byte b) = some (forced_byte b)
next_of s next (and_of f es) = some some_bytes
next_of s next (complement f e) = some some_bytes
next_of s next (lookahead f e n) = next e
next_of s next (repeat f e lo hi) = if lo == 0 then some some_bytes else next e
next_of s next (concat f es) = do
  e ← get_elem? es 0
  n ← is_nullable s e
  if n then some some_bytes else next e
next_of s next (or_of f es) = some some_bytes

unfoldable pub next_byte_simple : ℕ → ExprSet → ℕ → Option NextByte
next_byte_simple zero s r = none
next_byte_simple (suc fuel) s r = get s r >>= λ e. next_of s (next_byte_simple fuel s) e

-- The arguments of a union behind the first: the loop ends when any byte may come.
unfoldable pub next_or : ℕ → ExprSet → NextByte → List ℕ → Option NextByte
next_or fuel s found [] = some found
next_or fuel s found (child ∷ es) = next_byte_simple fuel s child >>= λ n.
    if same_next (bitor found n) some_bytes
    then some (bitor found n)
    else next_or fuel s (bitor found n) es

abbrev pub next_top : ℕ → ExprSet → ℕ → Expr → Option NextByte
next_top fuel s r (or_of f []) = none
next_top fuel s r (or_of f (e ∷ es)) =
    next_byte_simple fuel s e >>= λ found. next_or fuel s found es
next_top fuel s r empty_string = next_byte_simple fuel s r
next_top fuel s r no_match = next_byte_simple fuel s r
next_top fuel s r (byte b) = next_byte_simple fuel s r
next_top fuel s r (byte_set bs) = next_byte_simple fuel s r
next_top fuel s r (lookahead f e n) = next_byte_simple fuel s r
next_top fuel s r (complement f e) = next_byte_simple fuel s r
next_top fuel s r (repeat f e lo hi) = next_byte_simple fuel s r
next_top fuel s r (concat f es) = next_byte_simple fuel s r
next_top fuel s r (and_of f es) = next_byte_simple fuel s r

-- `NextByteCache`, as an association list.
pub record Known : Type 0 where
  pub expr : ℕ
  pub next : NextByte

abbrev pub lookup_next : List Known → ℕ → Option NextByte
lookup_next [] r = none
lookup_next (x ∷ xs) r = let rest = lookup_next xs r in if x.expr == r then some x.next else rest

abbrev pub next_cached :
    ℕ → ExprSet → ℕ → List Known → Option NextByte → Option (NextByte × List Known)
next_cached fuel s r cache (some found) = some (found, cache)
next_cached fuel s r cache none = do
  e ← get s r
  n ← next_top fuel s r e
  some (n, record { expr = r; next = n } ∷ cache)

unfoldable pub next_byte : ℕ → List Known → ExprSet → ℕ → Option (NextByte × List Known)
next_byte fuel cache s r = next_cached fuel s r cache (lookup_next cache r)

abbrev pub lookahead_of : Expr → Option ℕ
lookahead_of (lookahead f e n) = if e == empty_string_id then some n else none
lookahead_of empty_string = none
lookahead_of no_match = none
lookahead_of (byte b) = none
lookahead_of (byte_set bs) = none
lookahead_of (complement f e) = none
lookahead_of (repeat f e lo hi) = none
lookahead_of (concat f es) = none
lookahead_of (or_of f es) = none
lookahead_of (and_of f es) = none

unfoldable pub lookahead_len_inner : ExprSet → ℕ → Option (Option ℕ)
lookahead_len_inner s e = get s e >>= λ x. some (lookahead_of x)

abbrev pub least : Option ℕ → Option ℕ → Option ℕ
least none y = y
least (some a) none = some a
least (some a) (some b) = some (min a b)

unfoldable pub least_lookahead : ExprSet → List ℕ → Option (Option ℕ)
least_lookahead s [] = some none
least_lookahead s (e ∷ es) = do
  x ← lookahead_len_inner s e
  y ← least_lookahead s es
  some (least x y)

abbrev pub lookahead_top : ExprSet → ℕ → Expr → Option (Option ℕ)
lookahead_top s e (or_of f es) = least_lookahead s es
lookahead_top s e empty_string = lookahead_len_inner s e
lookahead_top s e no_match = lookahead_len_inner s e
lookahead_top s e (byte b) = lookahead_len_inner s e
lookahead_top s e (byte_set bs) = lookahead_len_inner s e
lookahead_top s e (lookahead f x n) = lookahead_len_inner s e
lookahead_top s e (complement f x) = lookahead_len_inner s e
lookahead_top s e (repeat f x lo hi) = lookahead_len_inner s e
lookahead_top s e (concat f es) = lookahead_len_inner s e
lookahead_top s e (and_of f es) = lookahead_len_inner s e

unfoldable pub lookahead_len : ExprSet → ℕ → Option (Option ℕ)
lookahead_len s e = get s e >>= λ x. lookahead_top s e x
