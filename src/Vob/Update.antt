-- ===== src/Vob/Update.antt =====
-- What the constructors and the operations on whole masks of controllers/aici_abi/src/svob.rs do,
-- flag by flag.
use native.Mathlib.Decide.{dec_lt}
use aici.Prelude.{
  ℕ, zero, suc, ◌+◌, ◌-◌, ◌*◌, ◌/◌, ◌%◌, ◌^◌, ◌≤◌, ◌<◌, ◌≡◌, refl, ap, sym, ◌∙◌, arith, ltb, leb,
  Bool, true, false, not, ◌&&◌, ◌||◌, Option, none, some, List, [], ◌∷◌, map, bit_and, bit_or,
  length, get_elem?, replicate, if◌then◌else◌, range_from, length-map, ==_iff, length-replicate,
}
use aici.Prelude.Bits.{
  test_bit, test_bit-bit_or, test_bit-bit_and, test_bit_zero, test_bit-not, bit_or-lt, bit_and-lt,
}
use aici.Prelude.Loops.{for_each}
use aici.Vob.{
  SimpleVob, u32_max, new, resize, alloc, disallow_token, clear_excessive_bits, set_all, negated,
  zip_update, or, and,
}
use aici.Vob.Bits.{word_bit, words_bit, bit, AreWords, IsSized, IsValid, set_bit-IsWritten}

-- `out` has, in place of the flags of `v`, those of `flag`.
pub record Gives (size : ℕ) (result : Option SimpleVob) (flag : ℕ → Bool) : Type 0 where
  pub out : SimpleVob
  pub returns : result ≡ some out
  pub same_size : out.size ≡ size
  pub valid : IsValid out
  pub flags : (j : ℕ) → bit out j ≡ flag j

-- Clearing `n` flags from `i` on.
record IsCleared (v : SimpleVob) (i n : ℕ) : Type 0 where
  out : SimpleVob
  returns : for_each (range_from i n) (λ k s. disallow_token s (k % 2 ^ 32)) v ≡ some out
  same_size : out.size ≡ v.size
  sized : IsSized out
  flags : (j : ℕ) → bit out j ≡ (if leb i j && ltb j (i + n) then false else bit v j)

clear-IsCleared :
    (n i : ℕ) (v : SimpleVob)
    → IsSized v
    → i + n ≤ length v.words * 32
    → i + n ≤ 2 ^ 32
    → IsCleared v i n
unfolding disallow_token
clear-IsCleared zero i v s h fits = record {
  out = v;
  returns = refl;
  same_size = refl;
  sized = s;
  flags = λ j. ground arith;
}
clear-IsCleared (suc n) i v s h fits =
    let w = set_bit-IsWritten v i false s (omega arith) in
    let rest =
      clear-IsCleared n (suc i) w.out w.sized (omega (arith, w.sized.room, s.room, w.same_size))
        (omega (arith, fits)) in
    let same : i % 2 ^ 32 ≡ i = omega (arith, fits) in
    record {
      out = rest.out;
      returns = rw (same, w.returns) rest.returns;
      same_size = rest.same_size ∙ w.same_size;
      sized = rest.sized;
      flags = λ j. ground (arith, rest.flags j, w.flags j);
    }

pub outside : (ws : List ℕ) (i : ℕ) → length ws ≤ i → get_elem? ws i ≡ none
outside [] i h = refl
outside (w ∷ ws) zero h = absurd (omega arith)
outside (w ∷ ws) (suc i) h = outside ws i (omega arith)

clear_excessive_bits-Gives :
    (v : SimpleVob)
    → IsSized v
    → v.size < 2 ^ 32
    → Gives v.size (clear_excessive_bits v) (λ j. ltb j v.size && bit v j)
unfolding clear_excessive_bits
clear_excessive_bits-Gives v s fits =
    let c =
      clear-IsCleared (length v.words * 32 - v.size) v.size v s (omega (arith, s.room))
        (omega (arith, s.room, fits)) in
    let flags : (j : ℕ) → bit c.out j ≡ (ltb j v.size && bit v j) = λ j.
      elim (dec_lt j (length v.words * 32)) [
        | yes p ↦ ground (arith, c.flags j, s.room)
        | no p ↦
            rw (outside c.out.words (j / 32) (omega (arith, c.sized.room, c.same_size, s.room)))
              (ground (arith, s.room))
      ] in
    record {
      out = c.out;
      returns = c.returns;
      same_size = c.same_size;
      valid = record { sized = c.sized; clean = λ i h. ground (arith, flags i, c.same_size) };
      flags = flags;
    }

replicate-AreWords : (n : ℕ) → AreWords (replicate n 0)
replicate-AreWords zero = tt
replicate-AreWords (suc n) = (omega arith, replicate-AreWords n)

words_bit-replicate : (n i k : ℕ) → word_bit (get_elem? (replicate n 0) i) k ≡ false
words_bit-replicate zero i k = refl
words_bit-replicate (suc n) zero k = test_bit_zero k
words_bit-replicate (suc n) (suc i) k = words_bit-replicate n i k

-- `alloc` of any size returns a valid mask of that size with no flag set.
pub alloc-Gives : (size : ℕ) → Gives size (alloc size) (λ j. false)
unfolding alloc resize new
alloc-Gives size =
    let flags : (j : ℕ) → words_bit (replicate (size / 32 + 1) 0) j ≡ false =
      λ j. words_bit-replicate (size / 32 + 1) (j / 32) (j % 32) in
    record {
      out = record { words = replicate (size / 32 + 1) 0; size = size };
      returns = ground arith;
      same_size = refl;
      valid = record {
        sized = record {
          room = length-replicate (size / 32 + 1) 0;
          are_words = replicate-AreWords (size / 32 + 1);
        };
        clean = λ i h. flags i;
      };
      flags = flags;
    }

-- A word-wise operation, read flag by flag.
module _ (f : ℕ → ℕ) (g : Bool → Bool) (bound : (x : ℕ) → x < 2 ^ 32 → f x < 2 ^ 32)
    (bits : (x k : ℕ) → x < 2 ^ 32 → k < 32 → test_bit (f x) k ≡ g (test_bit x k)) where
  map-AreWords : (ws : List ℕ) → AreWords ws → AreWords (map f ws)
  map-AreWords [] h = tt
  map-AreWords (w ∷ ws) h = (bound w h.0, map-AreWords ws h.1)

  word_bit-map :
      (ws : List ℕ) (i k : ℕ)
      → AreWords ws
      → i < length ws
      → k < 32
      → word_bit (get_elem? (map f ws) i) k ≡ g (word_bit (get_elem? ws i) k)
  word_bit-map [] i k h l m = elim l [ ]
  word_bit-map (w ∷ ws) zero k h l m = bits w k h.0 m
  word_bit-map (w ∷ ws) (suc i) k h l m = word_bit-map ws i k h.1 (omega arith) m

  mapped : SimpleVob → SimpleVob
  mapped v = record v { words = map f v.words }

  mapped-IsSized : (v : SimpleVob) → IsSized v → IsSized (mapped v)
  unfolding mapped
  mapped-IsSized v s = record {
    room = length-map f v.words ∙ s.room;
    are_words = map-AreWords v.words s.are_words;
  }

  mapped-Gives :
      (v : SimpleVob)
      → IsSized v
      → v.size < 2 ^ 32
      → Gives v.size (clear_excessive_bits (mapped v)) (λ j. ltb j v.size && g (bit v j))
  unfolding mapped
  mapped-Gives v s fits =
      let c = clear_excessive_bits-Gives (mapped v) (mapped-IsSized v s) fits in
      record {
        out = c.out;
        returns = c.returns;
        same_size = c.same_size;
        valid = c.valid;
        flags = λ j. elim (dec_lt j v.size) [
          | yes p ↦ rw (
            c.flags j,
            word_bit-map v.words (j / 32) (j % 32) s.are_words (omega (arith, s.room))
                (omega arith),
          )
          | no p ↦ ground (arith, c.flags j)
        ];
      }

-- On a sized mask of less than 2 ^ 32 flags, `set_all` returns a valid mask of the same size, whose flags below the size
-- have the value and whose others are clear.
pub set_all-Gives :
    (v : SimpleVob) (val : Bool)
    → IsSized v
    → v.size < 2 ^ 32
    → Gives v.size (set_all v val) (λ j. ltb j v.size && val)
unfolding set_all mapped
set_all-Gives v true s fits =
    mapped-Gives (λ x. u32_max) (λ b. true) (λ x h. omega arith)
      (λ x k h l. test_bit-not 32 k 0 (omega arith) l ∙ ap not (test_bit_zero k)) v s fits
set_all-Gives v false s fits =
    mapped-Gives (λ x. 0) (λ b. false) (λ x h. omega arith) (λ x k h l. test_bit_zero k) v s fits

-- On a sized mask of less than 2 ^ 32 flags, `negated` returns a valid mask of the same size, in which each flag below the
-- size is turned over and the others are clear.
pub negated-Gives :
    (v : SimpleVob)
    → IsSized v
    → v.size < 2 ^ 32
    → Gives v.size (negated v) (λ j. ltb j v.size && not (bit v j))
unfolding negated mapped
negated-Gives v s fits =
    mapped-Gives (λ x. u32_max - x) not (λ x h. omega arith) (λ x k h l. test_bit-not 32 k x h l) v
      s fits

module _ (f : ℕ → ℕ → ℕ) (g : Bool → Bool → Bool)
    (bound : (x y : ℕ) → x < 2 ^ 32 → y < 2 ^ 32 → f x y < 2 ^ 32)
    (bits : (x y k : ℕ) → test_bit (f x y) k ≡ g (test_bit x k) (test_bit y k))
    (none_set : g false false ≡ false) where
  zip-AreWords : (xs ys : List ℕ) → AreWords xs → AreWords ys → AreWords (zip_update f xs ys)
  unfolding zip_update
  zip-AreWords [] ys p q = tt
  zip-AreWords (x ∷ xs) [] p q = p
  zip-AreWords (x ∷ xs) (y ∷ ys) p q = (bound x y p.0 q.0, zip-AreWords xs ys p.1 q.1)

  length-zip : (xs ys : List ℕ) → length (zip_update f xs ys) ≡ length xs
  unfolding zip_update
  length-zip [] ys = refl
  length-zip (x ∷ xs) [] = refl
  length-zip (x ∷ xs) (y ∷ ys) = ap suc (length-zip xs ys)

  word_bit-zip :
      (xs ys : List ℕ) (i k : ℕ)
      → length xs ≡ length ys
      → word_bit (get_elem? (zip_update f xs ys) i) k
        ≡ g (word_bit (get_elem? xs i) k) (word_bit (get_elem? ys i) k)
  unfolding zip_update
  word_bit-zip [] [] i k e = sym none_set
  word_bit-zip [] (y ∷ ys) i k e = absurd (omega arith)
  word_bit-zip (x ∷ xs) [] i k e = absurd (omega arith)
  word_bit-zip (x ∷ xs) (y ∷ ys) zero k e = bits x y k
  word_bit-zip (x ∷ xs) (y ∷ ys) (suc i) k e = word_bit-zip xs ys i k (omega arith)

  zipped-Gives :
      (v o : SimpleVob)
      → IsValid v
      → IsValid o
      → v.size ≡ o.size
      → Gives v.size
          (some (record v { words = zip_update f v.words o.words }))
          (λ j. g (bit v j) (bit o j))
  zipped-Gives v o p q e =
      let flags : (j : ℕ) → words_bit (zip_update f v.words o.words) j ≡ g (bit v j) (bit o j) =
        λ j.
          word_bit-zip v.words o.words (j / 32) (j % 32)
            (omega (arith, p.sized.room, q.sized.room)) in
      record {
        out = record v { words = zip_update f v.words o.words };
        returns = refl;
        same_size = refl;
        valid = record {
          sized = record {
            room = length-zip v.words o.words ∙ p.sized.room;
            are_words = zip-AreWords v.words o.words p.sized.are_words q.sized.are_words;
          };
          clean = λ i h. flags i ∙ rw (p.clean i h, q.clean i (omega arith)) none_set;
        };
        flags = flags;
      }

module _ (v o : SimpleVob) (p : IsValid v) (q : IsValid o) (e : v.size ≡ o.size) where
  -- For two valid masks of one size, `or` returns a valid mask of that size with the flags that
  -- are set in one of them.
  pub or-Gives : Gives v.size (or v o) (λ j. bit v j || bit o j)
  unfolding or
  or-Gives =
      rw ((==_iff v.size o.size).1 e)
        (zipped-Gives bit_or ◌||◌ (bit_or-lt 32) (λ x y k. test_bit-bit_or k x y) refl v o p q e)

  -- For two valid masks of one size, `and` returns a valid mask of that size with the flags that
  -- are set in both.
  pub and-Gives : Gives v.size (and v o) (λ j. bit v j && bit o j)
  unfolding and
  and-Gives = rw ((==_iff v.size o.size).1 e) (
      zipped-Gives bit_and ◌&&◌ (λ x y h l. bit_and-lt 32 x y h) (λ x y k. test_bit-bit_and k x y)
        refl v o p q e)
