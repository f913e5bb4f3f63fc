-- ===== src/Derivre/Ast.antt =====
-- Expressions, their encoding and the set of expressions: controllers/derivre/src/ast.rs. An
-- `ExprRef` is the id of its expression, flags are a u32, and `none` is a panic. The pretty printer
-- is left out.
pub mod Encode
pub mod Store
pub mod Overflow
use aici.Prelude.{
  ℕ, zero, suc, ◌+◌, ◌-◌, ◌/◌, ◌%◌, ◌^◌, ◌==◌, ltb, leb, Bool, true, false, not, ◌&&◌, ◌||◌, Option,
  none, some, List, [], ◌∷◌, ◌++◌, take, set, replicate, get_elem?, bit_and, bit_or, min, max,
  ◌>>=◌, ◌>>◌, guard, if◌then◌else◌,
}
use aici.Derivre.HashCons.{
  VecHashCons, start_insert, push_u32, push_slice, finish_insert, insert, new as new_store,
  get as get_vec, is_valid as is_stored,
}

-- The ids that `ExprSet::new` gives to its first expressions.
abbrev pub empty_string_id : ℕ
empty_string_id = 1

abbrev pub no_match_id : ℕ
no_match_id = 2

abbrev pub any_byte_id : ℕ
any_byte_id = 3

abbrev pub any_string_id : ℕ
any_string_id = 4

abbrev pub non_empty_string_id : ℕ
non_empty_string_id = 5

-- `u32::MAX`.
abbrev pub u32_max : ℕ
u32_max = 4294967295

pub data Expr : Type 0 where
  empty_string : Expr
  no_match : Expr
  byte : ℕ → Expr
  byte_set : List ℕ → Expr
  lookahead : ℕ → ℕ → ℕ → Expr
  complement : ℕ → ℕ → Expr
  repeat : ℕ → ℕ → ℕ → ℕ → Expr
  concat : ℕ → List ℕ → Expr
  or_of : ℕ → List ℕ → Expr
  and_of : ℕ → List ℕ → Expr

pub data ExprTag : Type 0 where
  empty_string_tag no_match_tag byte_tag byte_set_tag lookahead_tag : ExprTag
  complement_tag repeat_tag concat_tag or_tag and_tag : ExprTag

-- `ExprFlags::NULLABLE`.
abbrev pub nullable_flag : ℕ
nullable_flag = 256

abbrev pub is_nullable_flag : ℕ → Bool
is_nullable_flag flags = not (bit_and flags nullable_flag == 0)

abbrev pub from_nullable : Bool → ℕ
from_nullable nullable = if nullable then nullable_flag else 0

abbrev pub tag_value : ExprTag → ℕ
tag_value empty_string_tag = 1
tag_value no_match_tag = 2
tag_value byte_tag = 3
tag_value byte_set_tag = 4
tag_value lookahead_tag = 5
tag_value complement_tag = 6
tag_value repeat_tag = 7
tag_value concat_tag = 8
tag_value or_tag = 9
tag_value and_tag = 10

abbrev pub encode : ℕ → ExprTag → ℕ
encode flags tag = bit_or flags (tag_value tag)

abbrev pub all_tags : List ExprTag
all_tags =
    empty_string_tag ∷ no_match_tag ∷ byte_tag ∷ byte_set_tag ∷ lookahead_tag ∷ complement_tag
    ∷ repeat_tag ∷ concat_tag ∷ or_tag ∷ and_tag ∷ []

-- `ExprTag::from_u8`, with its panic.
abbrev pub from_u8 : ℕ → Option ExprTag
from_u8 zero = none
from_u8 (suc x) = get_elem? all_tags x

abbrev pub byteset_contains : List ℕ → ℕ → Option Bool
byteset_contains s b =
    get_elem? s (b / 32) >>= λ word. some (not (bit_and word (2 ^ (b % 32)) == 0))

abbrev pub byteset_set : List ℕ → ℕ → Option (List ℕ)
byteset_set s b =
    get_elem? s (b / 32) >>= λ word. some (set s (b / 32) (bit_or word (2 ^ (b % 32))))

abbrev pub byteset_union : List ℕ → List ℕ → Option (List ℕ)
byteset_union [] other = some []
byteset_union (x ∷ s) [] = none
byteset_union (x ∷ s) (y ∷ other) = byteset_union s other >>= λ rest. some (bit_or x y ∷ rest)

abbrev pub matches_byte : Expr → ℕ → Option Bool
matches_byte empty_string b = some false
matches_byte no_match b = some false
matches_byte (byte b2) b = some (b == b2)
matches_byte (byte_set s) b = byteset_contains s b
matches_byte (lookahead f e n) b = none
matches_byte (complement f e) b = none
matches_byte (repeat f e lo hi) b = none
matches_byte (concat f es) b = none
matches_byte (or_of f es) b = none
matches_byte (and_of f es) b = none

abbrev pub args : Expr → List ℕ
args empty_string = []
args no_match = []
args (byte b) = []
args (byte_set s) = []
args (lookahead f e n) = e ∷ []
args (complement f e) = e ∷ []
args (repeat f e lo hi) = e ∷ []
args (concat f es) = es
args (or_of f es) = es
args (and_of f es) = es

abbrev pub get_flags : Expr → ℕ
get_flags empty_string = nullable_flag
get_flags no_match = 0
get_flags (byte b) = 0
get_flags (byte_set s) = 0
get_flags (lookahead f e n) = f
get_flags (complement f e) = f
get_flags (repeat f e lo hi) = f
get_flags (concat f es) = f
get_flags (or_of f es) = f
get_flags (and_of f es) = f

abbrev pub nullable : Expr → Bool
nullable e = is_nullable_flag (get_flags e)

-- `ExprRef::new`.
abbrev pub new_ref : ℕ → Option ℕ
new_ref id = guard (not (id == 0)) >> some id

-- The words behind the first.
abbrev pub decode : ℕ → List ℕ → ExprTag → Option Expr
decode flags s empty_string_tag = some empty_string
decode flags s no_match_tag = some no_match
decode flags s byte_tag = get_elem? s 0 >>= λ b. some (byte (b % 2 ^ 8))
decode flags s byte_set_tag = some (byte_set s)
decode flags s lookahead_tag = do
  id ← get_elem? s 0
  e ← new_ref id
  n ← get_elem? s 1
  some (lookahead flags e n)
decode flags s complement_tag = do id ← get_elem? s 0; e ← new_ref id; some (complement flags e)
decode flags s repeat_tag = do
  id ← get_elem? s 0
  e ← new_ref id
  lo ← get_elem? s 1
  hi ← get_elem? s 2
  some (repeat flags e lo hi)
decode flags s concat_tag = some (concat flags s)
decode flags s or_tag = some (or_of flags s)
decode flags s and_tag = some (and_of flags s)

-- `!0xff` on u32 is 4294967040.
unfoldable pub from_slice : List ℕ → Option Expr
from_slice [] = none
from_slice (first ∷ s) =
    from_u8 (bit_and first 255 % 2 ^ 8) >>= λ tag. decode (bit_and first 4294967040) s tag

abbrev pub nary_serialize : VecHashCons → ℕ → List ℕ → Option VecHashCons
nary_serialize trg tag es = push_u32 trg tag >>= λ trg'. push_slice trg' es

unfoldable pub serialize : Expr → VecHashCons → Option VecHashCons
serialize empty_string trg = push_u32 trg (encode 0 empty_string_tag)
serialize no_match trg = push_u32 trg (encode 0 no_match_tag)
serialize (byte b) trg = push_slice trg (encode 0 byte_tag ∷ b ∷ [])
serialize (byte_set s) trg = push_u32 trg (encode 0 byte_set_tag) >>= λ trg'. push_slice trg' s
serialize (lookahead flags e n) trg = push_slice trg (encode flags lookahead_tag ∷ e ∷ n ∷ [])
serialize (complement flags e) trg = push_slice trg (encode flags complement_tag ∷ e ∷ [])
serialize (repeat flags e a b) trg = push_slice trg (encode flags repeat_tag ∷ e ∷ a ∷ b ∷ [])
serialize (concat flags es) trg = nary_serialize trg (encode flags concat_tag) es
serialize (or_of flags es) trg = nary_serialize trg (encode flags or_tag) es
serialize (and_of flags es) trg = nary_serialize trg (encode flags and_tag) es

pub record ExprSet : Type 0 where
  pub exprs : VecHashCons
  pub alphabet_size : ℕ
  pub alphabet_words : ℕ
  pub cost : ℕ
  pub optimize : Bool

unfoldable pub mk : ExprSet → Expr → Option (ℕ × ExprSet)
mk s e = do
  h ← start_insert s.exprs
  h1 ← serialize e h
  (id, h2) ← finish_insert h1
  some (id, record s { exprs = h2 })

-- `mk`, with the assertion on the id.
abbrev pub mk_at : ℕ → Expr → ExprSet → Option ExprSet
mk_at id e s = mk s e >>= λ (id', s'). guard (id' == id) >> some s'

unfoldable pub new : ℕ → Option ExprSet
new alphabet_size = do
  (id, h) ← insert new_store []
  guard (id == 0)
  let words = (alphabet_size + 31) / 32
  s1 ← mk_at empty_string_id empty_string (record {
    exprs = h;
    alphabet_size = alphabet_size;
    alphabet_words = words;
    cost = 0;
    optimize = true;
  })
  s2 ← mk_at no_match_id no_match s1
  s3 ← mk_at any_byte_id (byte_set (replicate words u32_max)) s2
  s4 ← mk_at any_string_id (repeat nullable_flag any_byte_id 0 u32_max) s3
  mk_at non_empty_string_id (repeat 0 any_byte_id 1 u32_max) s4

unfoldable pub get : ExprSet → ℕ → Option Expr
get s id = get_vec s.exprs id >>= λ v. from_slice v

abbrev pub is_valid : ExprSet → ℕ → Bool
is_valid s id = not (id == 0) && is_stored s.exprs id

-- The first word of an encoding.
abbrev pub first_word : ExprSet → ℕ → Option ℕ
first_word s id = guard (not (id == 0)) >> get_vec s.exprs id >>= λ v. get_elem? v 0

unfoldable pub is_nullable : ExprSet → ℕ → Option Bool
is_nullable s id =
    if id == empty_string_id
    then some (is_nullable_flag nullable_flag)
    else (first_word s id >>= λ first. some (is_nullable_flag (bit_and first 4294967040)))

unfoldable pub get_tag : ExprSet → ℕ → Option ExprTag
get_tag s id = first_word s id >>= λ first. from_u8 (bit_and first 255 % 2 ^ 8)
