-- ===== src/Derivre/Language/Rep.antt =====
-- Repetition, and what may follow a byte in it.
pub mod Laws
use mathlib.Core.Path.{fun_ext, subst}
use aici.Prelude.{
  ℕ, zero, suc, ◌+◌, ◌-◌, ◌≤◌, ◌<◌, ◌≡◌, ◌≢◌, refl, sym, ◌∙◌, ap, arith, ◌==◌, leb, Bool, true,
  false, not, ◌&&◌, ◌||◌, Bool-cases, ◌⊎◌, inl, inr, List, [], ◌∷◌, ◌++◌, length, length-append,
}
use aici.Derivre.Language.{Lang, nothing, eps, after_byte, cat, pow, AtMost, InRep}
use aici.Derivre.Language.Cat.{
  bool_ext, Split, cat-Split, cat-append, cat-nothing_left, cat-eps_left, cat-eps_right,
}

front_cases : (u : List ℕ) → (u ≡ []) ⊎ ((b : ℕ) × (v : List ℕ) × (u ≡ b ∷ v))
front_cases [] = inl refl
front_cases (b ∷ v) = inr (b, v, refl)

pub pow_at : (l : Lang) (n m : ℕ) (w : List ℕ) → n ≡ m → pow l n w ≡ true → pow l m w ≡ true
pow_at l n m w same p = subst (λ k. pow l k w ≡ true) same p

-- More factors, where the empty word is one.
pub pow_grows :
    (l : Lang) (n m : ℕ) (w : List ℕ) → l [] ≡ true → n ≤ m → pow l n w ≡ true → pow l m w ≡ true
pow_grows l n zero w e le p = pow_at l n 0 w (omega arith) p
pow_grows l n (suc m) w e le p = elim (Bool-cases (leb n m)) [
  | inl below ↦ cat-append l (pow l m) [] w e (pow_grows l n m w e (ground arith) p)
  | inr above ↦ pow_at l n (suc m) w (ground arith) p
]

-- A word with more factors than bytes has an empty factor.
pow_shrinks :
    (l : Lang) (n : ℕ) (w : List ℕ)
    → length w ≤ n
    → pow l (suc n) w ≡ true
    → (l [] ≡ true) × (pow l n w ≡ true)
unfolding cat
pow_shrinks l zero [] short e = (ground arith, refl)
pow_shrinks l zero (b ∷ w) short e = absurd (omega arith)
pow_shrinks l (suc n) w short e =
    let s = cat-Split l (pow l (suc n)) w e in
    elim (front_cases s.front) [
      | inl blank ↦
          let all_back : w ≡ s.back = rw (s.whole, blank) refl in
          (rw (← blank) s.in_front, rw all_back s.in_back)
      | inr (b, v, more) ↦
          let split : w ≡ b ∷ (v ++ s.back) = rw (s.whole, more) refl in
          let shorter : length s.back ≤ n =
            omega (arith, short, ap length split, length-append v s.back) in
          let r = pow_shrinks l n s.back shorter s.in_back in
          (r.0, rw s.whole (cat-append l (pow l n) s.front s.back s.in_front r.1))
    ]

abbrev pub some_below : ℕ → (ℕ → Bool) → Bool
some_below zero p = false
some_below (suc n) p = p n || some_below n p

some_below-intro : (n k : ℕ) (p : ℕ → Bool) → k < n → p k ≡ true → some_below n p ≡ true
some_below-intro zero k p h e = absurd (omega arith)
some_below-intro (suc n) k p h e = elim (Bool-cases (k == n)) [
  | inl last ↦ let at_n : k ≡ n = ground arith in rw (← at_n) (ground arith)
  | inr other ↦ ground (arith, some_below-intro n k p)
]

some_below-elim : (n : ℕ) (p : ℕ → Bool) → some_below n p ≡ true → (k : ℕ) × (k < n) × (p k ≡ true)
some_below-elim zero p e = cc
some_below-elim (suc n) p e = elim (Bool-cases (p n)) [
  | inl here ↦ (n, omega arith, here)
  | inr later ↦ let r = some_below-elim n p (ground arith) in (r.0, omega arith, r.2)
]

abbrev pub at_most : ℕ → ℕ → Bool
at_most n hi = leb n hi || hi == 4294967295

at_most_iff : (n hi : ℕ) → (at_most n hi ≡ true → AtMost n hi) × (AtMost n hi → at_most n hi ≡ true)
at_most_iff n hi = (
  λ e. elim (Bool-cases (leb n hi)) [ inl le ↦ inl (ground arith) | inr gt ↦ inr (ground arith) ],
  λ b. elim b [ inl le ↦ ground arith | inr top ↦ ground arith ],
)

pow_descends :
    (l : Lang) (n m : ℕ) (w : List ℕ) → length w ≤ m → m ≤ n → pow l n w ≡ true → pow l m w ≡ true
pow_descends l zero m w short le p = pow_at l 0 m w (omega arith) p
pow_descends l (suc n) m w short le p = elim (Bool-cases (leb m n)) [
  | inl below ↦
      pow_descends l n m w short (ground arith)
        (pow_shrinks l n w (ground (arith, below, short)) p).1
  | inr above ↦ pow_at l (suc n) m w (ground arith) p
]

abbrev pub is_power : Lang → ℕ → ℕ → List ℕ → ℕ → Bool
is_power l lo hi w k = at_most (lo + k) hi && pow l (lo + k) w

-- Powers above the bytes of the word say nothing more.
unfoldable pub rep : Lang → ℕ → ℕ → Lang
rep l lo hi w = some_below (suc (length w)) (is_power l lo hi w)

pub rep-intro : (l : Lang) (lo hi : ℕ) (w : List ℕ) → InRep l lo hi w → rep l lo hi w ≡ true
unfolding rep
rep-intro l lo hi w (n, above, below, p) = elim (Bool-cases (leb n (lo + length w))) [
  | inl near ↦ some_below-intro (suc (length w)) (n - lo) (is_power l lo hi w) (ground arith) (
      let back : lo + (n - lo) ≡ n = omega (arith, above) in
      let fits = (at_most_iff n hi).1 below in rw (back, fits, p) refl)
  | inr far ↦
      let nearer : AtMost (lo + length w) hi = elim below [
        | inl le ↦ inl (ground arith)
        | inr top ↦ inr top
      ] in
      some_below-intro (suc (length w)) (length w) (is_power l lo hi w) (omega arith) (
        let fits = (at_most_iff (lo + length w) hi).1 nearer in
        let q = pow_descends l n (lo + length w) w (omega arith) (ground arith) p in
        rw (fits, q) refl)
]

pub rep-InRep : (l : Lang) (lo hi : ℕ) (w : List ℕ) → rep l lo hi w ≡ true → InRep l lo hi w
unfolding rep
rep-InRep l lo hi w e =
    let r = some_below-elim (suc (length w)) (is_power l lo hi w) e in
    (lo + r.0, omega arith, (at_most_iff (lo + r.0) hi).0 (ground arith), ground arith)

pub rep_ext :
    (l : Lang) (lo hi : ℕ) (m : Lang)
    → ((w : List ℕ) → InRep l lo hi w → m w ≡ true)
    → ((w : List ℕ) → m w ≡ true → InRep l lo hi w)
    → rep l lo hi ≡ m
rep_ext l lo hi m f g = fun_ext λ w.
    bool_ext (rep l lo hi w) (m w) (λ e. f w (rep-InRep l lo hi w e))
      (λ e. rep-intro l lo hi w (g w e))
