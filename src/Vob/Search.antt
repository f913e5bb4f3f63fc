-- ===== src/Vob/Search.antt =====
-- The searches and counts of controllers/aici_abi/src/svob.rs against the flags of the mask.
use native.Mathlib.Nat.{pow-suc}
use aici.Prelude.{
  ℕ, zero, suc, ◌+◌, ◌-◌, ◌*◌, ◌/◌, ◌%◌, ◌^◌, ◌≤◌, ◌<◌, ◌≡◌, ◌↔◌, refl, ap, sym, ◌∙◌, arith, ◌==◌,
  Bool, true, false, ◌&&◌, Option, none, some, List, [], ◌∷◌, bit_and, get_elem?, ==_iff,
  Bool-cases, inl, inr,
}
use aici.Prelude.Bits.{test_bit, test_bit_zero, test_bit-bit_and, bit_and-lt}
use aici.Vob.{
  SimpleVob, trailing_zeros, first_from, first_bit_set, first_common, first_bit_set_here_and_in,
  all_zero, is_zero, zip_is_zero, and_is_zero,
}
use aici.Vob.Bits.{bit, word_bit, AreWords, IsSized}

-- The search from `base` on finds the least index at which `p` holds, and nothing only when there
-- is none.
abbrev pub IsFirst : ℕ → (ℕ → Bool) → Option ℕ → Type 0
IsFirst base p none = (i : ℕ) → base ≤ i → p i ≡ false
IsFirst base p (some i) = (base ≤ i) × (p i ≡ true) × ((j : ℕ) → base ≤ j → j < i → p j ≡ false)

pub record IsLowest (n x t : ℕ) : Type 0 where
  pub inside : t < n
  pub set : test_bit x t ≡ true
  pub below : (k : ℕ) → k < t → test_bit x k ≡ false

pub trailing_zeros-IsLowest :
    (n x : ℕ) → x < 2 ^ n → (x == 0) ≡ false → IsLowest n x (trailing_zeros n x)
unfolding trailing_zeros
trailing_zeros-IsLowest zero x h e = absurd (ground arith)
trailing_zeros-IsLowest (suc n) x h e = elim (Bool-cases (x % 2 == 1)) [
  | inl odd ↦ rw odd (record { inside = omega arith; set = odd; below = λ k l. elim l [ ] })
  | inr even ↦
      let rest = trailing_zeros-IsLowest n (x / 2) (omega (arith, pow-suc 2 n)) (ground arith) in
      rw even (record {
        inside = omega (arith, rest.inside);
        set = rest.set;
        below = elim [ zero ↦ λ l. even | suc k ↦ λ l. rest.below k (omega arith) ];
      })
]

module _ (p : ℕ → Bool) where
  -- A word that holds the flags from `base` on.
  word-IsFirst :
      (w idx : ℕ)
      → w < 2 ^ 32
      → (w == 0) ≡ false
      → ((i : ℕ) → i / 32 ≡ idx → p i ≡ test_bit w (i % 32))
      → IsFirst (idx * 32) p (some (idx * 32 + trailing_zeros 32 w))
  word-IsFirst w idx h e agree =
      let t = trailing_zeros-IsLowest 32 w h e in
      (
        omega arith,
        agree (idx * 32 + trailing_zeros 32 w) (omega (arith, t.inside))
            ∙ rw (rest (trailing_zeros 32 w) t.inside) t.set,
        λ j l m. agree j (omega (arith, t.inside)) ∙ t.below (j % 32) (omega (arith, t.inside)),
      )
    where
      rest : (k : ℕ) → k < 32 → (idx * 32 + k) % 32 ≡ k
      rest k l = omega arith

  pub IsFirst-skip :
      (o : Option ℕ) (b c : ℕ)
      → b ≤ c
      → ((i : ℕ) → b ≤ i → i < c → p i ≡ false)
      → IsFirst c p o
      → IsFirst b p o
  IsFirst-skip none b c h before f = λ i l. ground (arith, before i, f i)
  IsFirst-skip (some i) b c h before (x, y, z) =
      (omega arith, y, λ j l m. ground (arith, before j, z j))

  zero-word :
      (w idx i : ℕ)
      → (w == 0) ≡ true
      → ((i : ℕ) → i / 32 ≡ idx → p i ≡ test_bit w (i % 32))
      → i / 32 ≡ idx
      → p i ≡ false
  zero-word w idx i z agree h = agree i h ∙ rw ((==_iff w 0).0 z) (test_bit_zero (i % 32))

  first_from-IsFirst :
      (ws : List ℕ) (idx : ℕ)
      → AreWords ws
      → ((i : ℕ) → idx * 32 ≤ i → p i ≡ word_bit (get_elem? ws (i / 32 - idx)) (i % 32))
      → IsFirst (idx * 32) p (first_from idx ws)
  unfolding first_from
  first_from-IsFirst [] idx h agree = agree
  first_from-IsFirst (w ∷ ws) idx h agree = elim (Bool-cases (w == 0)) [
    | inl z ↦ rw z (
        IsFirst-skip _ (idx * 32) (suc idx * 32) (omega arith)
          (λ i l m. zero-word w idx i z now (omega arith))
          (first_from-IsFirst ws (suc idx) h.1 later))
    | inr nz ↦ rw nz (word-IsFirst w idx h.0 nz now)
  ]
    where
      now : (i : ℕ) → i / 32 ≡ idx → p i ≡ test_bit w (i % 32)
      now i e = let d : i / 32 - idx ≡ 0 = omega arith in agree i (omega arith) ∙ rw d

      later : (i : ℕ) → suc idx * 32 ≤ i → p i ≡ word_bit (get_elem? ws (i / 32 - suc idx)) (i % 32)
      later i l =
          let d : i / 32 - idx ≡ suc (i / 32 - suc idx) = omega arith in
          agree i (omega arith) ∙ rw d

-- On a sized mask, `first_bit_set` is the least index whose flag is set, or nothing when there
-- is none.
pub first_bit_set-IsFirst : (v : SimpleVob) → IsSized v → IsFirst 0 (bit v) (first_bit_set v)
unfolding first_bit_set
first_bit_set-IsFirst v s =
    first_from-IsFirst (bit v) v.words 0 s.are_words
      (λ i l. ap (λ k. word_bit (get_elem? v.words k) (i % 32)) (omega arith))

zip_and : List ℕ → List ℕ → List ℕ
zip_and [] ys = []
zip_and (x ∷ xs) [] = []
zip_and (x ∷ xs) (y ∷ ys) = bit_and x y ∷ zip_and xs ys

first_common-first_from :
    (idx : ℕ) (xs ys : List ℕ) → first_common idx xs ys ≡ first_from idx (zip_and xs ys)
unfolding first_common first_from zip_and
first_common-first_from idx [] ys = refl
first_common-first_from idx (x ∷ xs) [] = refl
first_common-first_from idx (x ∷ xs) (y ∷ ys) = rw (first_common-first_from (suc idx) xs ys)

zip_and-AreWords : (xs ys : List ℕ) → AreWords xs → AreWords (zip_and xs ys)
unfolding zip_and
zip_and-AreWords [] ys h = tt
zip_and-AreWords (x ∷ xs) [] h = tt
zip_and-AreWords (x ∷ xs) (y ∷ ys) h = (bit_and-lt 32 x y h.0, zip_and-AreWords xs ys h.1)

word_bit-zip_and :
    (xs ys : List ℕ) (i k : ℕ)
    → word_bit (get_elem? (zip_and xs ys) i) k
      ≡ (word_bit (get_elem? xs i) k && word_bit (get_elem? ys i) k)
unfolding zip_and
word_bit-zip_and [] ys i k = refl
word_bit-zip_and (x ∷ xs) [] i k = ground arith
word_bit-zip_and (x ∷ xs) (y ∷ ys) zero k = test_bit-bit_and k x y
word_bit-zip_and (x ∷ xs) (y ∷ ys) (suc i) k = word_bit-zip_and xs ys i k

-- The result of a search behind an assertion.
abbrev pub Finds : (ℕ → Bool) → Option (Option ℕ) → Type 0
Finds p none = ⊥
Finds p (some r) = IsFirst 0 p r

-- For two masks of one size, the first of them sized, `first_bit_set_here_and_in` returns, and
-- its result is the least index whose flag is set in both, or nothing when there is none.
pub first_bit_set_here_and_in-Finds :
    (v o : SimpleVob)
    → IsSized v
    → v.size ≡ o.size
    → Finds (λ i. bit v i && bit o i) (first_bit_set_here_and_in v o)
unfolding first_bit_set_here_and_in
first_bit_set_here_and_in-Finds v o s e =
    rw ((==_iff v.size o.size).1 e, first_common-first_from 0 v.words o.words)
      (first_from-IsFirst (λ i. bit v i && bit o i) (zip_and v.words o.words) 0
        (zip_and-AreWords v.words o.words s.are_words)
        (λ i l.
          sym (word_bit-zip_and v.words o.words (i / 32) (i % 32))
          ∙ ap (λ k. word_bit (get_elem? (zip_and v.words o.words) k) (i % 32)) (omega arith)))

all_zero-first_from : (idx : ℕ) (ws : List ℕ) → all_zero ws ≡ true → first_from idx ws ≡ none
unfolding all_zero first_from
all_zero-first_from idx [] h = refl
all_zero-first_from idx (w ∷ ws) h = ground (arith, all_zero-first_from (suc idx) ws)

first_from-all_zero : (idx : ℕ) (ws : List ℕ) → first_from idx ws ≡ none → all_zero ws ≡ true
unfolding all_zero first_from
first_from-all_zero idx [] h = refl
first_from-all_zero idx (w ∷ ws) h = ground (arith, first_from-all_zero (suc idx) ws)

-- A search that finds nothing at which `p` holds has found nothing.
IsFirst-none : (p : ℕ → Bool) (o : Option ℕ) → IsFirst 0 p o → ((i : ℕ) → p i ≡ false) → o ≡ none
IsFirst-none p none f h = refl
IsFirst-none p (some i) f h = absurd (ground (arith, h i, f.1))

none-IsFirst : (p : ℕ → Bool) (o : Option ℕ) → IsFirst 0 p o → o ≡ none → (i : ℕ) → p i ≡ false
none-IsFirst p none f e i = f i (omega arith)
none-IsFirst p (some i) f e j = cc

-- On a sized mask, `is_zero` holds exactly when no flag is set.
pub is_zero_iff : (v : SimpleVob) → IsSized v → (is_zero v ≡ true) ↔ ((i : ℕ) → bit v i ≡ false)
unfolding is_zero first_bit_set
is_zero_iff v s = (
  λ h. none-IsFirst (bit v) _ (first_bit_set-IsFirst v s) (all_zero-first_from 0 v.words h),
  λ h. first_from-all_zero 0 v.words (IsFirst-none (bit v) _ (first_bit_set-IsFirst v s) h),
)

zip_is_zero-all_zero : (xs ys : List ℕ) → zip_is_zero xs ys ≡ all_zero (zip_and xs ys)
unfolding zip_is_zero all_zero zip_and
zip_is_zero-all_zero [] ys = refl
zip_is_zero-all_zero (x ∷ xs) [] = refl
zip_is_zero-all_zero (x ∷ xs) (y ∷ ys) = rw (zip_is_zero-all_zero xs ys)

-- For two masks of one size, the first of them sized, `and_is_zero` returns true exactly when no
-- index has its flag set in both.
pub and_is_zero_iff :
    (v o : SimpleVob)
    → IsSized v
    → v.size ≡ o.size
    → (and_is_zero v o ≡ some true) ↔ ((i : ℕ) → (bit v i && bit o i) ≡ false)
unfolding and_is_zero first_bit_set_here_and_in
and_is_zero_iff v o s e =
    let common = λ (i : ℕ). bit v i && bit o i in
    let first : IsFirst 0 common (first_common 0 v.words o.words) =
      rw ((==_iff v.size o.size).1 e) at (first_bit_set_here_and_in-Finds v o s e) in
    let zero = zip_is_zero-all_zero v.words o.words in
    let link = first_common-first_from 0 v.words o.words in
    rw ((==_iff v.size o.size).1 e) (
      λ h.
          none-IsFirst common _ first
            (link ∙ all_zero-first_from 0 (zip_and v.words o.words) (cc zero)),
      λ h. ap some (
          zero
          ∙ first_from-all_zero 0 (zip_and v.words o.words)
              (sym link ∙ IsFirst-none common _ first h)),
    )
