-- ===== src/Vob/Bits.antt =====
-- The reading of a mask as a function from indices to flags, and what single reads and writes of
-- controllers/aici_abi/src/svob.rs do to it.
use native.Mathlib.Nat.{pow-le-pow_right, one-le-pow}
use native.Mathlib.Decide.{ℕ_discrete}
use aici.Prelude.{
  ℕ, zero, suc, ◌+◌, ◌-◌, ◌/◌, ◌%◌, ◌^◌, ◌≤◌, ◌<◌, ◌≡◌, inl, inr, refl, ap, ◌∙◌, arith, ◌==◌, Bool,
  true, false, not, Option, none, some, List, [], ◌∷◌, bit_and, bit_or, length, get_elem?, set,
  if◌then◌else◌, get_elem?-set_self, get_elem?-set_ne, get_elem?-lt, length-set, Bool-cases,
}
use aici.Prelude.Bits.{
  test_bit, test_bit-bit_or, test_bit-bit_and, test_bit_pow, test_bit-not, bit_and_pow, bit_or-lt,
  bit_and-lt,
}
use aici.Vob.{SimpleVob, u32_max, set_bit, get}

abbrev pub word_bit : Option ℕ → ℕ → Bool
word_bit none k = false
word_bit (some w) k = test_bit w k

abbrev pub words_bit : List ℕ → ℕ → Bool
words_bit ws i = word_bit (get_elem? ws (i / 32)) (i % 32)

-- The flag at an index; there is none past the last word.
abbrev pub bit : SimpleVob → ℕ → Bool
bit v i = words_bit v.words i

abbrev pub AreWords : List ℕ → Type 0
AreWords [] = Unit {0}
AreWords (w ∷ ws) = (w < 2 ^ 32) × AreWords ws

-- As the constructors make it: room for one flag more than `size`, and every word a u32.
pub record IsSized (v : SimpleVob) : Type 0 where
  pub room : length v.words ≡ v.size / 32 + 1
  pub are_words : AreWords v.words

-- And no flag is set at `size` or past it.
pub record IsValid (v : SimpleVob) : Type 0 where
  pub sized : IsSized v
  pub clean : (i : ℕ) → v.size ≤ i → bit v i ≡ false

pub AreWords-get : (ws : List ℕ) (i w : ℕ) → AreWords ws → get_elem? ws i ≡ some w → w < 2 ^ 32
AreWords-get [] i w h e = cc
AreWords-get (x ∷ ws) zero w h e = ground (arith, h.0)
AreWords-get (x ∷ ws) (suc i) w h e = AreWords-get ws i w h.1 e

pub AreWords-set : (ws : List ℕ) (i w : ℕ) → AreWords ws → w < 2 ^ 32 → AreWords (set ws i w)
AreWords-set [] i w h l = tt
AreWords-set (x ∷ ws) zero w h l = (l, h.1)
AreWords-set (x ∷ ws) (suc i) w h l = (h.0, AreWords-set ws i w h.1 l)

written : Bool → ℕ → ℕ → ℕ
written val w k = if val then bit_or w (2 ^ k) else bit_and w (u32_max - 2 ^ k)

pow-lt : (k : ℕ) → k < 32 → 2 ^ k < 2 ^ 32
pow-lt k h =
    let step : 2 ^ k ≤ 2 ^ 31 = pow-le-pow_right (omega arith) {j = 31} (omega arith) in omega arith

test_bit-written :
    (val : Bool) (w k j : ℕ)
    → k < 32
    → j < 32
    → test_bit (written val w k) j ≡ (if k == j then val else test_bit w j)
unfolding written
test_bit-written true w k j h l = ground (arith, test_bit-bit_or j w (2 ^ k), test_bit_pow k j)
test_bit-written false w k j h l = ground (
  arith,
  test_bit-bit_and j w (u32_max - 2 ^ k),
  test_bit-not 32 j (2 ^ k) (pow-lt k h) l,
  test_bit_pow k j,
)

written-lt : (val : Bool) (w k : ℕ) → k < 32 → w < 2 ^ 32 → written val w k < 2 ^ 32
unfolding written
written-lt true w k h l = bit_or-lt 32 w (2 ^ k) l (pow-lt k h)
written-lt false w k h l = bit_and-lt 32 w (u32_max - 2 ^ k) l

words_bit-set :
    (val : Bool) (ws : List ℕ) (i w j : ℕ)
    → get_elem? ws (i / 32) ≡ some w
    → i / 32 < length ws
    → words_bit (set ws (i / 32) (written val w (i % 32))) j
      ≡ (if i == j then val else words_bit ws j)
words_bit-set val ws i w j e h = elim (ℕ_discrete (i / 32) (j / 32)) [
  | yes same ↦
      rw (← same, get_elem?-set_self ws (i / 32) (written val w (i % 32)) h, e)
        (test_bit-written val w (i % 32) (j % 32) (omega arith) (omega arith) ∙ ground arith)
  | no differ ↦
      rw (get_elem?-set_ne ws (i / 32) (j / 32) (written val w (i % 32)) differ) (ground arith)
]

-- `w & (1 << k) != 0` is the test of bit `k`.
pub masked : (w k : ℕ) → not (bit_and w (2 ^ k) == 0) ≡ test_bit w k
masked w k = elim (Bool-cases (test_bit w k)) [
  | inl e ↦ rw (bit_and_pow k w, e) (ground (arith, one-le-pow k 2))
  | inr e ↦ rw (bit_and_pow k w, e) refl
]

-- A read in the words gives the flag.
pub get-bit : (v : SimpleVob) (i : ℕ) → i / 32 < length v.words → get v i ≡ some (bit v i)
unfolding get
get-bit v i h = let (w, e) = get_elem?-lt v.words (i / 32) h in rw e (ap some (masked w (i % 32)))

-- What a write in the words does: it is total, changes the flag at its index and no other, and
-- keeps the size and the words.
pub record IsWritten (v : SimpleVob) (i : ℕ) (val : Bool) : Type 0 where
  pub out : SimpleVob
  pub returns : set_bit v i val ≡ some out
  pub same_size : out.size ≡ v.size
  pub sized : IsSized out
  pub flags : (j : ℕ) → bit out j ≡ (if i == j then val else bit v j)

-- On a sized mask, a write at an index inside its words returns a sized mask of the same size,
-- in which the flag at the index has the value and every other flag is as before.
pub set_bit-IsWritten :
    (v : SimpleVob) (i : ℕ) (val : Bool) → IsSized v → i / 32 < length v.words → IsWritten v i val
set_bit-IsWritten v i val s h =
    let (w, e) = get_elem?-lt v.words (i / 32) h in
    record {
      out = record v { words = set v.words (i / 32) (written val w (i % 32)) };
      returns = unfold set_bit written in rw e;
      same_size = refl;
      sized = record {
        room = length-set v.words (i / 32) _ ∙ s.room;
        are_words =
            AreWords-set v.words (i / 32) _ s.are_words
              (written-lt val w (i % 32) (omega arith) (AreWords-get v.words _ w s.are_words e));
      };
      flags = λ j. words_bit-set val v.words i w j e h;
    }
