-- ===== src/Vob.antt =====
-- The token masks: `SimpleVob` of controllers/aici_abi/src/svob.rs, a vector of bits in words of
-- 32 bits. A token id and an index are numbers, and `as TokenId` and `as u32` of an index keep its
-- lowest 32 bits; `none` is a panic.
pub mod Bits
pub mod Update
pub mod Entries
pub mod OrMinus
pub mod Search
pub mod Iter
pub mod Count
mod Examples
use aici.Prelude.{
  ℕ, zero, suc, ◌+◌, ◌-◌, ◌*◌, ◌/◌, ◌%◌, ◌^◌, ◌==◌, leb, Bool, true, false, not, ◌&&◌, Option, none,
  some, List, [], ◌∷◌, ◌++◌, map, bit_and, bit_or, length, get_elem?, set, drop, replicate,
  range_from, if◌then◌else◌, ◌>>=◌, ◌>>◌, guard,
}
use aici.Prelude.Loops.{for_each, collect}

-- `bits`, the constant BITS, and the greatest u32.
abbrev pub bits : ℕ
bits = 32

abbrev pub u32_max : ℕ
u32_max = 2 ^ 32 - 1

pub record SimpleVob : Type 0 where
  pub words : List ℕ
  pub size : ℕ

pub new : SimpleVob
new = record { words = []; size = 0 }

-- `data.resize(new_size, 0)`, behind the assertion that it does not shrink.
pub resize : SimpleVob → ℕ → Option SimpleVob
resize v size =
    let new_size = size / bits + 1 in
    guard (leb (length v.words) new_size)
    >> some (record { words = v.words ++ replicate (new_size - length v.words) 0; size = size })

pub alloc : ℕ → Option SimpleVob
unfolding new resize
alloc size = resize new size

-- `data[idx / 32] |= 1 << (idx % 32)`, or `&= !(1 << (idx % 32))`.
unfoldable pub set_bit : SimpleVob → ℕ → Bool → Option SimpleVob
set_bit v idx val = do
  w ← get_elem? v.words (idx / bits)
  let one = 2 ^ (idx % bits)
  some (record v {
    words = set v.words (idx / bits) (if val then bit_or w one else bit_and w (u32_max - one));
  })

unfoldable pub allow_token : SimpleVob → ℕ → Option SimpleVob
unfolding set_bit
allow_token v tok = set_bit v tok true

unfoldable pub disallow_token : SimpleVob → ℕ → Option SimpleVob
unfolding set_bit
disallow_token v tok = set_bit v tok false

pub get : SimpleVob → ℕ → Option Bool
get v idx = do w ← get_elem? v.words (idx / 32); some (not (bit_and w (2 ^ (idx % 32)) == 0))

pub is_allowed : SimpleVob → ℕ → Option Bool
unfolding get
is_allowed v tok = get v tok

-- for i in size..data.len() * 32 { disallow_token(i as TokenId) }
pub clear_excessive_bits : SimpleVob → Option SimpleVob
clear_excessive_bits v =
    for_each (range_from v.size (length v.words * 32 - v.size))
      (λ i s. disallow_token s (i % 2 ^ 32)) v

pub set_all : SimpleVob → Bool → Option SimpleVob
set_all v val =
    clear_excessive_bits (record v { words = map (λ x. if val then u32_max else 0) v.words })

pub all_true : ℕ → Option SimpleVob
all_true size = do r ← alloc size; set_all r true

pub negated : SimpleVob → Option SimpleVob
negated v = clear_excessive_bits (record { words = map (λ x. u32_max - x) v.words; size = v.size })

-- `iter_mut().zip(other)`: what stands past the end of the shorter list is left as it is.
zip_update : (ℕ → ℕ → ℕ) → List ℕ → List ℕ → List ℕ
zip_update f [] ys = []
zip_update f (x ∷ xs) [] = x ∷ xs
zip_update f (x ∷ xs) (y ∷ ys) = f x y ∷ zip_update f xs ys

pub or : SimpleVob → SimpleVob → Option SimpleVob
unfolding zip_update
or v other =
    guard (v.size == other.size)
    >> some (record v { words = zip_update bit_or v.words other.words })

pub and : SimpleVob → SimpleVob → Option SimpleVob
unfolding zip_update
and v other =
    guard (v.size == other.size)
    >> some (record v { words = zip_update bit_and v.words other.words })

-- self |= other & !minus, over the words that all three have.
pub zip_or_minus : List ℕ → List ℕ → List ℕ → List ℕ
zip_or_minus [] ys zs = []
zip_or_minus (x ∷ xs) [] zs = x ∷ xs
zip_or_minus (x ∷ xs) (y ∷ ys) [] = x ∷ xs
zip_or_minus (x ∷ xs) (y ∷ ys) (z ∷ zs) = bit_or x (bit_and y (u32_max - z)) ∷ zip_or_minus xs ys zs

pub or_minus : SimpleVob → SimpleVob → SimpleVob → Option SimpleVob
unfolding zip_or_minus
or_minus v other minus =
    guard (v.size == other.size)
    >> guard (v.size == minus.size)
    >> some (record v { words = zip_or_minus v.words other.words minus.words })

all_zero : List ℕ → Bool
all_zero [] = true
all_zero (x ∷ xs) = x == 0 && all_zero xs

pub is_zero : SimpleVob → Bool
unfolding all_zero
is_zero v = all_zero v.words

zip_is_zero : List ℕ → List ℕ → Bool
zip_is_zero [] ys = true
zip_is_zero (x ∷ xs) [] = true
zip_is_zero (x ∷ xs) (y ∷ ys) = bit_and x y == 0 && zip_is_zero xs ys

pub and_is_zero : SimpleVob → SimpleVob → Option Bool
unfolding zip_is_zero
and_is_zero v other = guard (v.size == other.size) >> some (zip_is_zero v.words other.words)

-- The library's u32::count_ones and u32::trailing_zeros, over the `n` lowest bits.
unfoldable pub count_ones : ℕ → ℕ → ℕ
count_ones zero x = 0
count_ones (suc n) x = x % 2 + count_ones n (x / 2)

pub trailing_zeros : ℕ → ℕ → ℕ
trailing_zeros zero x = 0
trailing_zeros (suc n) x = let rest = trailing_zeros n (x / 2) in if x % 2 == 1 then 0 else suc rest

sum_ones : List ℕ → ℕ
sum_ones [] = 0
sum_ones (x ∷ xs) = count_ones bits x + sum_ones xs

pub num_set : SimpleVob → ℕ
unfolding sum_ones count_ones
num_set v = sum_ones v.words

-- The words from number `idx` on.
first_from : ℕ → List ℕ → Option ℕ
first_from idx [] = none
first_from idx (v ∷ vs) =
    let rest = first_from (suc idx) vs in
    if v == 0 then rest else some (idx * bits + trailing_zeros bits v)

pub first_bit_set : SimpleVob → Option ℕ
unfolding first_from trailing_zeros
first_bit_set v = first_from 0 v.words

-- The loop of `SimpleVobIter::next`: the words from number `dataoff` on, the first of them from bit
-- `bitoff` on.
pub next_from : ℕ → ℕ → List ℕ → Option ℕ
next_from bitoff dataoff [] = none
next_from bitoff dataoff (v ∷ vs) =
    let rest = next_from 0 (suc dataoff) vs in
    let d = v / 2 ^ bitoff in
    if d == 0 then rest else some (dataoff * bits + trailing_zeros bits d + bitoff)

pub record SimpleVobIter : Type 0 where
  pub vob : SimpleVob
  pub idx : ℕ

abbrev pub advance : SimpleVobIter → Option ℕ → Option ℕ × SimpleVobIter
advance it none = (none, it)
advance it (some idx) = (some (idx % 2 ^ 32), record it { idx = idx + 1 })

-- `SimpleVobIter::next`.
pub next : SimpleVobIter → Option ℕ × SimpleVobIter
unfolding next_from trailing_zeros
next it = advance it (next_from (it.idx % bits) (it.idx / bits) (drop (it.idx / bits) it.vob.words))

first_common : ℕ → List ℕ → List ℕ → Option ℕ
first_common idx [] ys = none
first_common idx (x ∷ xs) [] = none
first_common idx (x ∷ xs) (y ∷ ys) =
    let rest = first_common (suc idx) xs ys in
    let v = bit_and x y in if v == 0 then rest else some (idx * bits + trailing_zeros bits v)

pub first_bit_set_here_and_in : SimpleVob → SimpleVob → Option (Option ℕ)
unfolding first_common trailing_zeros
first_bit_set_here_and_in v other =
    guard (v.size == other.size) >> some (first_common 0 v.words other.words)

-- The calls that `iter_entries` makes, in order: each flag with its index. A word of zeros and a
-- word of ones are not tested bit by bit.
word_entries : ℕ → ℕ → List (Bool × ℕ)
word_entries idx d =
    if d == 0
    then map (λ bit. (false, idx * 32 + bit)) (range_from 0 32)
    else if d == u32_max
    then map (λ bit. (true, idx * 32 + bit)) (range_from 0 32)
    else map (λ bit. (not (bit_and d (2 ^ bit) == 0), idx * 32 + bit)) (range_from 0 32)

pub iter_entries : SimpleVob → Option (List (Bool × ℕ))
unfolding word_entries
iter_entries v = do
  let max_len = v.size / 32
  full ←
      collect (range_from 0 max_len)
        (λ idx. do d ← get_elem? v.words idx; some (word_entries idx d))
  last ←
      collect (range_from (max_len * 32) (v.size - max_len * 32))
        (λ idx. do b ← is_allowed v (idx % 2 ^ 32); some ((b, idx) ∷ []))
  some (full ++ last)

-- The list `xs` without the elements that fail the test.
abbrev pub keep : (ℕ → Bool) → List ℕ → List ℕ
keep p [] = []
keep p (x ∷ xs) = if p x then x ∷ keep p xs else keep p xs

word_set_entries : ℕ → ℕ → List ℕ
word_set_entries idx d =
    if d == 0
    then []
    else if d == u32_max
    then map (λ bit. idx * 32 + bit) (range_from 0 32)
    else map (λ bit. idx * 32 + bit)
        (keep (λ bit. not (bit_and d (2 ^ bit) == 0)) (range_from 0 32))

pub iter_set_entries : SimpleVob → Option (List ℕ)
unfolding word_set_entries
iter_set_entries v = do
  let max_len = v.size / 32
  full ←
      collect (range_from 0 max_len)
        (λ idx. do d ← get_elem? v.words idx; some (word_set_entries idx d))
  last ←
      collect (range_from (max_len * 32) (v.size - max_len * 32))
        (λ idx. do b ← is_allowed v (idx % 2 ^ 32); some (if b then idx ∷ [] else []))
  some (full ++ last)

word_unset_entries : ℕ → ℕ → List ℕ
word_unset_entries idx d =
    if d == 0
    then map (λ bit. idx * 32 + bit) (range_from 0 32)
    else if d == u32_max
    then []
    else map (λ bit. idx * 32 + bit) (keep (λ bit. bit_and d (2 ^ bit) == 0) (range_from 0 32))

pub iter_unset_entries : SimpleVob → Option (List ℕ)
unfolding word_unset_entries
iter_unset_entries v = do
  let max_len = v.size / 32
  full ←
      collect (range_from 0 max_len)
        (λ idx. do d ← get_elem? v.words idx; some (word_unset_entries idx d))
  last ←
      collect (range_from (max_len * 32) (v.size - max_len * 32))
        (λ idx. do b ← is_allowed v (idx % 2 ^ 32); some (if b then [] else idx ∷ []))
  some (full ++ last)

-- Writes a bit for each flag, from `idx` on.
set_flags : ℕ → List Bool → SimpleVob → Option SimpleVob
set_flags idx [] v = some v
set_flags idx (b ∷ bs) v = set_bit v idx b >>= set_flags (suc idx) bs

pub from_slice : List Bool → Option SimpleVob
unfolding set_flags alloc
from_slice flags = alloc (length flags) >>= set_flags 0 flags
