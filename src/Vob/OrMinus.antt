-- ===== src/Vob/OrMinus.antt =====
-- `SimpleVob::or_minus` of controllers/aici_abi/src/svob.rs: the union with the difference of two masks.
use aici.Prelude.{
  ℕ, zero, suc, ◌-◌, ◌/◌, ◌%◌, ◌<◌, ◌≡◌, refl, ap, ◌∙◌, arith, ==_iff, not, ◌&&◌, ◌||◌, List, [],
  ◌∷◌, bit_and, length, get_elem?,
}
use aici.Prelude.Bits.{test_bit-bit_or, test_bit-bit_and, test_bit-not, bit_or-lt, bit_and-lt}
use aici.Vob.{SimpleVob, u32_max, or_minus, zip_or_minus}
use aici.Vob.Bits.{word_bit, bit, AreWords, IsValid}
use aici.Vob.Update.{Gives}

length-zip_or_minus : (xs ys zs : List ℕ) → length (zip_or_minus xs ys zs) ≡ length xs
unfolding zip_or_minus
length-zip_or_minus [] ys zs = refl
length-zip_or_minus (x ∷ xs) [] zs = refl
length-zip_or_minus (x ∷ xs) (y ∷ ys) [] = refl
length-zip_or_minus (x ∷ xs) (y ∷ ys) (z ∷ zs) = ap suc (length-zip_or_minus xs ys zs)

AreWords-zip_or_minus :
    (xs ys zs : List ℕ) → AreWords xs → AreWords ys → AreWords (zip_or_minus xs ys zs)
unfolding zip_or_minus
AreWords-zip_or_minus [] ys zs p q = tt
AreWords-zip_or_minus (x ∷ xs) [] zs p q = p
AreWords-zip_or_minus (x ∷ xs) (y ∷ ys) [] p q = p
AreWords-zip_or_minus (x ∷ xs) (y ∷ ys) (z ∷ zs) p q = (
  bit_or-lt 32 x (bit_and y (u32_max - z)) p.0 (bit_and-lt 32 y (u32_max - z) q.0),
  AreWords-zip_or_minus xs ys zs p.1 q.1,
)

word_bit-zip_or_minus :
    (xs ys zs : List ℕ) (i k : ℕ)
    → length xs ≡ length ys
    → length xs ≡ length zs
    → AreWords zs
    → k < 32
    → word_bit (get_elem? (zip_or_minus xs ys zs) i) k ≡ (
        word_bit (get_elem? xs i) k
        || (word_bit (get_elem? ys i) k && not (word_bit (get_elem? zs i) k)))
unfolding zip_or_minus
word_bit-zip_or_minus [] [] zs i k e f h l = refl
word_bit-zip_or_minus [] (y ∷ ys) zs i k e f h l = absurd (omega arith)
word_bit-zip_or_minus (x ∷ xs) [] zs i k e f h l = absurd (omega arith)
word_bit-zip_or_minus (x ∷ xs) (y ∷ ys) [] i k e f h l = absurd (omega arith)
word_bit-zip_or_minus (x ∷ xs) (y ∷ ys) (z ∷ zs) zero k e f h l = ground (
  arith,
  test_bit-bit_or k x (bit_and y (u32_max - z)),
  test_bit-bit_and k y (u32_max - z),
  test_bit-not 32 k z h.0 l,
)
word_bit-zip_or_minus (x ∷ xs) (y ∷ ys) (z ∷ zs) (suc i) k e f h l =
    word_bit-zip_or_minus xs ys zs i k (omega arith) (omega arith) h.1 l

-- For three valid masks of one size, `or_minus` returns a valid mask of that size with the flags
-- that are set in the first, or in the second and not in the third.
pub or_minus-Gives :
    (v o m : SimpleVob)
    → IsValid v
    → IsValid o
    → IsValid m
    → v.size ≡ o.size
    → v.size ≡ m.size
    → Gives v.size (or_minus v o m) (λ j. bit v j || (bit o j && not (bit m j)))
unfolding or_minus
or_minus-Gives v o m p q r e f =
    let flags : (j : ℕ)
        → word_bit (get_elem? (zip_or_minus v.words o.words m.words) (j / 32)) (j % 32)
          ≡ (bit v j || (bit o j && not (bit m j))) =
      λ j.
        word_bit-zip_or_minus v.words o.words m.words (j / 32) (j % 32)
          (omega (arith, p.sized.room, q.sized.room)) (omega (arith, p.sized.room, r.sized.room))
          r.sized.are_words (omega arith) in
    record {
      out = record v { words = zip_or_minus v.words o.words m.words };
      returns = rw ((==_iff v.size o.size).1 e, (==_iff v.size m.size).1 f);
      same_size = refl;
      valid = record {
        sized = record {
          room = length-zip_or_minus v.words o.words m.words ∙ p.sized.room;
          are_words =
              AreWords-zip_or_minus v.words o.words m.words p.sized.are_words q.sized.are_words;
        };
        clean = λ i h. flags i ∙ rw (p.clean i h, q.clean i (omega arith)) refl;
      };
      flags = flags;
    }
