-- ===== src/Vob/Examples.antt =====
-- Masks of 40 flags, in two words, on which the theorems about controllers/aici_abi/src/svob.rs apply.
use native.Mathlib.Decide.{ℕ_discrete}
use aici.Prelude.{suc, ◌-◌, ◌/◌, ◌%◌, ◌≡◌, refl, arith, false, ◌&&◌, some, [], ◌∷◌, range_from}
use aici.Prelude.Bits.{test_bit_pow}
use aici.Vob.{
  SimpleVob, SimpleVobIter, next, is_allowed, iter_set_entries, word_set_entries, keep,
  first_bit_set, first_bit_set_here_and_in, num_set,
}
use aici.Vob.Bits.{bit, IsSized, IsValid, IsWritten, set_bit-IsWritten}
use aici.Vob.Entries.{iter_set_entries_lem}
use aici.Vob.Search.{IsFirst, Finds, first_bit_set-IsFirst, first_bit_set_here_and_in-Finds}
use aici.Vob.Iter.{Advances, next-Advances}
use aici.Vob.Count.{num_set-iter_set_entries}

-- Flags 0, 2 and 39 of 40.
abbrev mask_a : SimpleVob
mask_a = record { words = 5 ∷ 128 ∷ []; size = 40 }

-- Flags 1, 2 and 36 of 40.
abbrev mask_b : SimpleVob
mask_b = record { words = 6 ∷ 16 ∷ []; size = 40 }

mask_a-IsSized : IsSized mask_a
mask_a-IsSized = record { room = refl; are_words = (omega arith, (omega arith, tt)) }

mask_b-IsSized : IsSized mask_b
mask_b-IsSized = record { room = refl; are_words = (omega arith, (omega arith, tt)) }

mask_a-IsValid : IsValid mask_a
mask_a-IsValid = record {
  sized = mask_a-IsSized;
  clean = λ i h. elim (ℕ_discrete (i / 32) 1) [
    | yes same ↦ rw same (ground (arith, test_bit_pow 7 (i % 32)))
    | no differ ↦ let far : i / 32 ≡ suc (suc (i / 32 - 2)) = omega arith in rw far refl
  ];
}

mask_b-IsValid : IsValid mask_b
mask_b-IsValid = record {
  sized = mask_b-IsSized;
  clean = λ i h. elim (ℕ_discrete (i / 32) 1) [
    | yes same ↦ rw same (ground (arith, test_bit_pow 4 (i % 32)))
    | no differ ↦ let far : i / 32 ≡ suc (suc (i / 32 - 2)) = omega arith in rw far refl
  ];
}

set_bit-IsWritten_example : IsWritten mask_a 39 false
set_bit-IsWritten_example = set_bit-IsWritten mask_a 39 false mask_a-IsSized (omega arith)

iter_set_entries_lem_example : iter_set_entries mask_a ≡ some (keep (bit mask_a) (range_from 0 40))
iter_set_entries_lem_example = iter_set_entries_lem mask_a mask_a-IsSized (omega arith)

first_bit_set-IsFirst_example : IsFirst 0 (bit mask_b) (first_bit_set mask_b)
first_bit_set-IsFirst_example = first_bit_set-IsFirst mask_b mask_b-IsSized

first_bit_set_here_and_in-Finds_example :
    Finds (λ i. bit mask_a i && bit mask_b i) (first_bit_set_here_and_in mask_a mask_b)
first_bit_set_here_and_in-Finds_example =
    first_bit_set_here_and_in-Finds mask_a mask_b mask_a-IsSized refl

set_entries_a : iter_set_entries mask_a ≡ some (0 ∷ 2 ∷ 39 ∷ [])
unfolding iter_set_entries word_set_entries is_allowed
set_entries_a = refl

num_set-iter_set_entries_example : num_set mask_a ≡ 3
num_set-iter_set_entries_example =
    num_set-iter_set_entries mask_a (0 ∷ 2 ∷ 39 ∷ []) mask_a-IsValid (omega arith) set_entries_a

-- Past the flags of the first word.
abbrev iter_b : SimpleVobIter
iter_b = record { vob = mask_b; idx = 3 }

next-Advances_example : Advances iter_b (next iter_b)
next-Advances_example = next-Advances iter_b mask_b-IsSized (omega arith)
