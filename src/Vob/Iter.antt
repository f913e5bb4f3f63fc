-- ===== src/Vob/Iter.antt =====
-- `SimpleVobIter` of controllers/aici_abi/src/svob.rs: the next index whose flag is set.
use native.Mathlib.Nat.{pow-suc, div-div-eq-div-mul, div-le_self}
use mathlib.Core.Path.{subst}
use aici.Prelude.{
  ℕ, zero, suc, ◌+◌, ◌-◌, ◌*◌, ◌/◌, ◌%◌, ◌^◌, ◌≤◌, ◌<◌, ◌≡◌, refl, sym, ap, ◌∙◌, arith, ◌==◌,
  ==_iff, ltb, ltb→lt, Bool, true, false, Bool-cases, inl, inr, Option, none, some, List, [], ◌∷◌,
  get_elem?, drop, length,
}
use aici.Prelude.Bits.{test_bit, test_bit_zero}
use aici.Vob.{SimpleVobIter, next_from, next, advance, trailing_zeros}
use aici.Vob.Bits.{bit, word_bit, AreWords, IsSized}
use aici.Vob.Update.{outside}
use aici.Vob.Search.{IsFirst, trailing_zeros-IsLowest, IsFirst-skip}

test_bit-shifted : (b x k : ℕ) → test_bit (x / 2 ^ b) k ≡ test_bit x (b + k)
test_bit-shifted zero x k =
    let e : x / 2 ^ 0 ≡ x = omega arith in let f : 0 + k ≡ k = omega arith in rw (e, f) refl
test_bit-shifted (suc b) x k =
    let e : x / 2 ^ suc b ≡ x / 2 / 2 ^ b =
      ap (λ d. x / d) (omega (arith, pow-suc 2 b)) ∙ sym (div-div-eq-div-mul x 2 (2 ^ b)) in
    let f : suc b + k ≡ suc (b + k) = omega arith in rw (e, f) (test_bit-shifted b (x / 2) k)

test_bit_high : (n k x : ℕ) → x < 2 ^ n → n ≤ k → test_bit x k ≡ false
test_bit_high zero k x h l = let e : x ≡ 0 = omega arith in rw e (test_bit_zero k)
test_bit_high (suc n) zero x h l = absurd (omega arith)
test_bit_high (suc n) (suc k) x h l =
    test_bit_high n k (x / 2) (omega (arith, pow-suc 2 n)) (omega arith)

set_inside : (w k : ℕ) → w < 2 ^ 32 → test_bit w k ≡ true → k < 32
set_inside w k h e = elim (Bool-cases (ltb k 32)) [
  | inl below ↦ ltb→lt k 32 below
  | inr above ↦ absurd (ground (arith, test_bit_high 32 k w h))
]

module _ (p : ℕ → Bool) where
  -- A word that holds the flags of `idx`, from bit `b` on.
  shifted_word-IsFirst :
      (w b idx : ℕ)
      → w < 2 ^ 32
      → (w / 2 ^ b == 0) ≡ false
      → ((i : ℕ) → i / 32 ≡ idx → p i ≡ test_bit w (i % 32))
      → IsFirst (idx * 32 + b) p (some (idx * 32 + trailing_zeros 32 (w / 2 ^ b) + b))
  shifted_word-IsFirst w b idx h e agree =
      let t = trailing_zeros-IsLowest 32 (w / 2 ^ b) (omega (arith, div-le_self w (2 ^ b))) e in
      let tz = trailing_zeros 32 (w / 2 ^ b) in
      let top : test_bit w (b + tz) ≡ true = sym (test_bit-shifted b w tz) ∙ t.set in
      let inside : b + tz < 32 = set_inside w (b + tz) h top in
      (
        omega arith,
        agree (idx * 32 + tz + b) (omega arith)
            ∙ ap (test_bit w) (offset (idx * 32 + tz + b) (b + tz) (omega arith) inside)
            ∙ top,
        λ j l m.
            agree j (omega arith)
            ∙ ap (test_bit w) (offset j (b + (j % 32 - b)) (omega arith) (omega arith))
            ∙ sym (test_bit-shifted b w (j % 32 - b))
            ∙ t.below (j % 32 - b) (omega arith),
      )
    where
      offset : (j k : ℕ) → j ≡ idx * 32 + k → k < 32 → j % 32 ≡ k
      offset j k e l = omega arith

  -- No flag of a word from bit `b` on is set when the shifted word is zero.
  zero_bits :
      (w b idx i : ℕ)
      → (w / 2 ^ b == 0) ≡ true
      → ((i : ℕ) → i / 32 ≡ idx → p i ≡ test_bit w (i % 32))
      → idx * 32 + b ≤ i
      → i < suc idx * 32
      → p i ≡ false
  zero_bits w b idx i z agree l m =
      let d : i % 32 ≡ b + (i % 32 - b) = omega arith in
      let zero_word : w / 2 ^ b ≡ 0 = (==_iff (w / 2 ^ b) 0).0 z in
      agree i (omega arith)
      ∙ ap (test_bit w) d
      ∙ sym (test_bit-shifted b w (i % 32 - b))
      ∙ ap (λ x. test_bit x (i % 32 - b)) zero_word
      ∙ test_bit_zero (i % 32 - b)

  next_from-IsFirst :
      (ws : List ℕ) (b idx : ℕ)
      → b < 32
      → AreWords ws
      → ((i : ℕ) → idx * 32 ≤ i → p i ≡ word_bit (get_elem? ws (i / 32 - idx)) (i % 32))
      → IsFirst (idx * 32 + b) p (next_from b idx ws)
  unfolding next_from
  next_from-IsFirst [] b idx lt h agree = λ i l. agree i (omega arith)
  next_from-IsFirst (w ∷ ws) b idx lt h agree = elim (Bool-cases (w / 2 ^ b == 0)) [
    | inl z ↦ rw z (
        IsFirst-skip p _ (idx * 32 + b) (suc idx * 32 + 0) (omega arith)
          (λ i l m. zero_bits w b idx i z now l (omega arith))
          (next_from-IsFirst ws 0 (suc idx) (omega arith) h.1 later))
    | inr nz ↦ rw nz (shifted_word-IsFirst w b idx h.0 nz now)
  ]
    where
      now : (i : ℕ) → i / 32 ≡ idx → p i ≡ test_bit w (i % 32)
      now i e = let d : i / 32 - idx ≡ 0 = omega arith in agree i (omega arith) ∙ rw d

      later : (i : ℕ) → suc idx * 32 ≤ i → p i ≡ word_bit (get_elem? ws (i / 32 - suc idx)) (i % 32)
      later i l =
          let d : i / 32 - idx ≡ suc (i / 32 - suc idx) = omega arith in
          agree i (omega arith) ∙ rw d

-- What `next` returns, and the iterator after it.
pub record Advances (it : SimpleVobIter) (result : Option ℕ × SimpleVobIter) : Type 0 where
  pub least : IsFirst it.idx (bit it.vob) result.0
  pub same_vob : result.1.vob ≡ it.vob
  pub moved : result.1.idx ≡ (elim result.0 [ none ↦ it.idx | some i ↦ i + 1 ])

-- A flag past the words is not set, so the index of one that is fits in 32 bits.
set_below :
    (ws : List ℕ) (i : ℕ) → word_bit (get_elem? ws (i / 32)) (i % 32) ≡ true → i < length ws * 32
set_below ws i e = elim (Bool-cases (ltb (i / 32) (length ws))) [
  | inl below ↦ ground (arith, below)
  | inr above ↦ absurd (
      ground
        (arith, e, ap (λ o. word_bit o (i % 32)) (outside ws (i / 32) (ground (arith, above)))))
]

advance-Advances :
    (it : SimpleVobIter) (o : Option ℕ)
    → length it.vob.words * 32 ≤ 2 ^ 32
    → IsFirst it.idx (bit it.vob) o
    → Advances it (advance it o)
advance-Advances it none fits first = record { least = first; same_vob = refl; moved = refl }
advance-Advances it (some i) fits first =
    let same : i % 2 ^ 32 ≡ i = omega (arith, set_below it.vob.words i first.1, fits) in
    record { least = rw same first; same_vob = refl; moved = rw same refl }

AreWords-drop : (n : ℕ) (ws : List ℕ) → AreWords ws → AreWords (drop n ws)
AreWords-drop zero ws h = h
AreWords-drop (suc n) [] h = tt
AreWords-drop (suc n) (w ∷ ws) h = AreWords-drop n ws h.1

get_elem?-drop : (n : ℕ) (ws : List ℕ) (k : ℕ) → get_elem? (drop n ws) k ≡ get_elem? ws (n + k)
get_elem?-drop zero ws k = ap (get_elem? ws) (omega arith)
get_elem?-drop (suc n) [] k = refl
get_elem?-drop (suc n) (w ∷ ws) k =
    let next_place : suc n + k ≡ suc (n + k) = omega arith in rw next_place (get_elem?-drop n ws k)

-- On a sized mask of less than 2 ^ 32 flags, `SimpleVobIter::next` returns the least index from
-- its position on whose flag is set, and moves past it, or nothing when there is none, and
-- stays; the mask is the same.
pub next-Advances :
    (it : SimpleVobIter) → IsSized it.vob → it.vob.size < 2 ^ 32 → Advances it (next it)
unfolding next
next-Advances it s fits =
    let n = it.idx / 32 in
    let ws = it.vob.words in
    let start : n * 32 + it.idx % 32 ≡ it.idx = omega arith in
    advance-Advances it (next_from (it.idx % 32) n (drop n ws)) (omega (arith, s.room, fits)) (
      subst (λ b. IsFirst b (bit it.vob) (next_from (it.idx % 32) n (drop n ws))) start
        (next_from-IsFirst (bit it.vob) (drop n ws) (it.idx % 32) n (omega arith)
          (AreWords-drop n ws s.are_words)
          (λ j l.
            ap (λ k. word_bit (get_elem? ws k) (j % 32)) (omega arith)
            ∙ ap (λ o. word_bit o (j % 32)) (sym (get_elem?-drop n ws (j / 32 - n))))))
