-- ===== src/Derivre/Sound/ByteSet/Ones.antt =====
-- The bits that are set in the words of a byte set of controllers/derivre/src/ast.rs.
use aici.Prelude.{
  ℕ, zero, suc, ◌+◌, ◌/◌, ◌%◌, ◌^◌, ◌<◌, ◌≡◌, refl, ap, arith, ◌==◌, Bool, true, false, not,
  Bool-cases, inl, inr, some, List, [], ◌∷◌, get_elem?, bit_and, ◌>>=◌,
}
use aici.Prelude.Bits.{test_bit}
use aici.Vob.{count_ones}
use aici.Vob.Bits.{masked}
use aici.Derivre.Simplify.{bits_set}
use aici.Derivre.Denotes.{in_set, holds}

ones_zero : (n x k : ℕ) → count_ones n x ≡ 0 → k < n → test_bit x k ≡ false
unfolding count_ones
ones_zero zero x k e lt = absurd (omega arith)
ones_zero (suc n) x zero e lt = ground (arith, e)
ones_zero (suc n) x (suc k) e lt = ones_zero n (x / 2) k (omega arith) (omega arith)

ones_left :
    (n x k : ℕ)
    → x % 2 + count_ones n (x / 2) ≡ 1
    → k < n
    → test_bit (x / 2) k ≡ true
    → count_ones n (x / 2) ≡ 1
ones_left n x k e lt p = elim (Bool-cases (count_ones n (x / 2) == 0)) [
  | inl blank ↦ absurd (cc (ones_zero n (x / 2) k (ground (arith, blank)) lt, p))
  | inr some_set ↦ ground (arith, e, some_set)
]

ones_one :
    (n x j k : ℕ)
    → count_ones n x ≡ 1
    → j < n
    → k < n
    → test_bit x j ≡ true
    → test_bit x k ≡ true
    → j ≡ k
unfolding count_ones
ones_one zero x j k e lj lk p q = absurd (omega arith)
ones_one (suc n) x zero zero e lj lk p q = refl
ones_one (suc n) x zero (suc k) e lj lk p q =
    let none_after = ones_zero n (x / 2) k (ground (arith, e, p)) (omega arith) in
    absurd (cc (none_after, q))
ones_one (suc n) x (suc j) zero e lj lk p q =
    let none_after = ones_zero n (x / 2) j (ground (arith, e, q)) (omega arith) in
    absurd (cc (none_after, p))
ones_one (suc n) x (suc j) (suc k) e lj lk p q =
    let r = ones_left n x j e (omega arith) p in
    ap suc (ones_one n (x / 2) j k r (omega arith) (omega arith) p q)

-- The flag in a word of the set.
abbrev pub at : List ℕ → ℕ → ℕ → Bool
at [] i k = false
at (x ∷ bs) zero k = test_bit x k
at (x ∷ bs) (suc i) k = at bs i k

pub in_set-at : (bs : List ℕ) (c : ℕ) → in_set bs c ≡ at bs (c / 32) (c % 32)
in_set-at bs c = go bs (c / 32) (c % 32)
  where
    go :
        (bs : List ℕ) (i k : ℕ)
        → holds (get_elem? bs i >>= λ word. some (not (bit_and word (2 ^ k) == 0))) ≡ at bs i k
    go [] i k = refl
    go (x ∷ bs) zero k = masked x k
    go (x ∷ bs) (suc i) k = go bs i k

pub at_none : (bs : List ℕ) (i k : ℕ) → bits_set bs ≡ 0 → k < 32 → at bs i k ≡ false
at_none [] i k e lt = refl
at_none (x ∷ bs) zero k e lt = ones_zero 32 x k (omega arith) lt
at_none (x ∷ bs) (suc i) k e lt = at_none bs i k (omega arith) lt

only_here :
    (x : ℕ) (bs : List ℕ) (k : ℕ)
    → bits_set (x ∷ bs) ≡ 1
    → k < 32
    → test_bit x k ≡ true
    → count_ones 32 x ≡ 1
only_here x bs k e lt p = elim (Bool-cases (count_ones 32 x == 0)) [
  | inl blank ↦ absurd (cc (ones_zero 32 x k (ground (arith, blank)) lt, p))
  | inr some_set ↦ ground (arith, e, some_set)
]

only_later :
    (x : ℕ) (bs : List ℕ) (i k : ℕ)
    → bits_set (x ∷ bs) ≡ 1
    → k < 32
    → at bs i k ≡ true
    → bits_set bs ≡ 1
only_later x bs i k e lt p = elim (Bool-cases (bits_set bs == 0)) [
  | inl blank ↦ absurd (cc (at_none bs i k (ground (arith, blank)) lt, p))
  | inr some_set ↦ ground (arith, e, some_set)
]

pub at_one :
    (bs : List ℕ) (i j k l : ℕ)
    → bits_set bs ≡ 1
    → k < 32
    → l < 32
    → at bs i k ≡ true
    → at bs j l ≡ true
    → (i ≡ j) × (k ≡ l)
at_one [] i j k l e lk ll p q = absurd (cc p)
at_one (x ∷ bs) zero zero k l e lk ll p q =
    (refl, ones_one 32 x k l (only_here x bs k e lk p) lk ll p q)
at_one (x ∷ bs) zero (suc j) k l e lk ll p q =
    let here = only_here x bs k e lk p in absurd (cc (at_none bs j l (omega arith) ll, q))
at_one (x ∷ bs) (suc i) zero k l e lk ll p q =
    let here = only_here x bs l e ll q in absurd (cc (at_none bs i k (omega arith) lk, p))
at_one (x ∷ bs) (suc i) (suc j) k l e lk ll p q =
    let r = at_one bs i j k l (only_later x bs i k e lk p) lk ll p q in (ap suc r.0, r.1)
