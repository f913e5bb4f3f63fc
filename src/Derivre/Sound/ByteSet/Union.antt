-- ===== src/Derivre/Sound/ByteSet/Union.antt =====
-- `byteset_set` and `byteset_union` of controllers/derivre/src/ast.rs.
use aici.Prelude.{
  ℕ, zero, suc, ◌/◌, ◌%◌, ◌^◌, ◌≡◌, refl, ◌∙◌, ap, arith, ◌==◌, Bool, false, ◌&&◌, ◌||◌, some, List,
  [], ◌∷◌, length, length-set, set, get_elem?, replicate, bit_or,
}
use aici.Prelude.Bits.{test_bit-bit_or, test_bit_pow, test_bit_zero}
use aici.Prelude.Results.{Ensures, panics, returns, Ensures-bind, Ensures-weaken, Ensures-self}
use aici.Derivre.Ast.{byteset_set, byteset_union}
use aici.Derivre.Denotes.{in_set}
use aici.Derivre.Sound.ByteSet.Ones.{at, in_set-at}

-- The set has the room, and the bytes with the property.
abbrev pub HasBytes : ℕ → (ℕ → Bool) → List ℕ → Type 0
HasBytes n p bs = (length bs ≡ n) × ((c : ℕ) → in_set bs c ≡ p c)

pub in_set-replicate : (n c : ℕ) → in_set (replicate n 0) c ≡ false
in_set-replicate n c = in_set-at (replicate n 0) c ∙ go n (c / 32) (c % 32)
  where
    go : (n i k : ℕ) → at (replicate n 0) i k ≡ false
    go zero i k = refl
    go (suc n) zero k = test_bit_zero k
    go (suc n) (suc i) k = go n i k

at-set :
    (bs : List ℕ) (i j k l w : ℕ)
    → get_elem? bs i ≡ some w
    → at (set bs i (bit_or w (2 ^ k))) j l ≡ (at bs j l || (i == j && k == l))
at-set [] i j k l w e = absurd (cc e)
at-set (x ∷ bs) zero zero k l w e =
    let same : x ≡ w = cc e in rw (test_bit-bit_or l w (2 ^ k), test_bit_pow k l, same) refl
at-set (x ∷ bs) zero (suc j) k l w e = ground arith
at-set (x ∷ bs) (suc i) zero k l w e = ground arith
at-set (x ∷ bs) (suc i) (suc j) k l w e = ground (arith, at-set bs i j k l w e)

pub byteset_set-HasBytes :
    (bs : List ℕ) (b : ℕ)
    → Ensures (HasBytes (length bs) (λ c. in_set bs c || (b == c))) (byteset_set bs b)
byteset_set-HasBytes bs b = Ensures-bind (Ensures-self (get_elem? bs (b / 32))) λ w got. returns (
  length-set bs (b / 32) (bit_or w (2 ^ (b % 32))),
  λ c.
      let written =
        in_set-at (set bs (b / 32) (bit_or w (2 ^ (b % 32)))) c
        ∙ at-set bs (b / 32) (c / 32) (b % 32) (c % 32) w got in
      let same_byte : (b / 32 == c / 32 && b % 32 == c % 32) ≡ (b == c) = ground arith in
      let before = in_set-at bs c in rw (before, ← same_byte) written,
)

at-union :
    (bs cs : List ℕ)
    → length bs ≡ length cs
    → Ensures
        (λ ds. (length ds ≡ length bs) × ((i k : ℕ) → at ds i k ≡ (at bs i k || at cs i k)))
        (byteset_union bs cs)
at-union [] [] e = returns (refl, λ i k. refl)
at-union [] (y ∷ cs) e = absurd (omega (arith, e))
at-union (x ∷ bs) [] e = panics
at-union (x ∷ bs) (y ∷ cs) e =
    Ensures-bind (at-union bs cs (omega (arith, e))) λ ds p. returns (ap suc p.0, flags ds p.1)
  where
    flags :
        (ds : List ℕ)
        → ((i k : ℕ) → at ds i k ≡ (at bs i k || at cs i k))
        → (i k : ℕ) → at (bit_or x y ∷ ds) i k ≡ (at (x ∷ bs) i k || at (y ∷ cs) i k)
    flags ds h zero k = test_bit-bit_or k x y
    flags ds h (suc i) k = h i k

pub byteset_union-HasBytes :
    (bs cs : List ℕ)
    → length bs ≡ length cs
    → Ensures (HasBytes (length bs) (λ c. in_set bs c || in_set cs c)) (byteset_union bs cs)
byteset_union-HasBytes bs cs e =
    Ensures-weaken
      (λ ds p. (
        p.0,
        λ c.
            let left = in_set-at bs c in
            let right = in_set-at cs c in rw (left, right) (in_set-at ds c ∙ p.1 (c / 32) (c % 32)),
      ))
      (at-union bs cs e)
