-- ===== src/Derivre/Language/After.antt =====
-- What may follow a byte in the languages of the operations.
use mathlib.Core.Path.{fun_ext}
use aici.Prelude.{
  ℕ, ◌-◌, ◌^◌, ◌≤◌, ◌<◌, ◌≡◌, refl, ap, arith, ◌==◌, Bool, true, false, List, [], ◌∷◌,
  if◌then◌else◌,
}
use aici.Derivre.Language.{
  Lang, nothing, eps, after_byte, one_byte, cat, any_of, all_of, outside, first_match,
}
use aici.Derivre.Language.Rep.Laws.{less_one}

abbrev pub after_all : ℕ → List Lang → List Lang
after_all b [] = []
after_all b (l ∷ ls) = after_byte b l ∷ after_all b ls

pub after-any_of : (b : ℕ) (ls : List Lang) → after_byte b (any_of ls) ≡ any_of (after_all b ls)
after-any_of b [] = refl
after-any_of b (l ∷ ls) =
    fun_ext λ w. let h = ap (λ k. k w) (after-any_of b ls) in ground (arith, h)

pub after-all_of :
    (n b : ℕ) (ls : List Lang) → b < n → after_byte b (all_of n ls) ≡ all_of n (after_all b ls)
after-all_of n b [] lt = fun_ext λ w. ground (arith, lt)
after-all_of n b (l ∷ ls) lt =
    fun_ext λ w. let h = ap (λ k. k w) (after-all_of n b ls lt) in ground (arith, h)

pub after-outside :
    (n b : ℕ) (l : Lang) → b < n → after_byte b (outside n l) ≡ outside n (after_byte b l)
after-outside n b l lt = fun_ext λ w. ground (arith, lt)

pub after-first_match :
    (b : ℕ) (l : Lang) → l [] ≡ false → after_byte b (first_match l) ≡ first_match (after_byte b l)
after-first_match b l e = fun_ext λ w. ground (arith, e)

pub after-one_byte :
    (b : ℕ) (p : ℕ → Bool) → after_byte b (one_byte p) ≡ (if p b then eps else nothing)
after-one_byte b p = fun_ext λ w. by_word w (p b) refl
  where
    by_word :
        (w : List ℕ) (c : Bool) → p b ≡ c → one_byte p (b ∷ w) ≡ (if c then eps else nothing) w
    by_word [] true e = e
    by_word [] false e = e
    by_word (c ∷ w) true e = refl
    by_word (c ∷ w) false e = refl

-- The branches of a concatenation.
pub last_branch :
    (b : ℕ) (l m : Lang)
    → l [] ≡ false
    → any_of (cat (after_byte b l) m ∷ []) ≡ after_byte b (cat l m)
unfolding cat
last_branch b l m n = fun_ext λ w. ground (arith, n)

pub one_more_branch :
    (b : ℕ) (l m : Lang) (ks : List Lang)
    → l [] ≡ true
    → any_of ks ≡ after_byte b m
    → any_of (cat (after_byte b l) m ∷ ks) ≡ after_byte b (cat l m)
unfolding cat
one_more_branch b l m ks n e = fun_ext λ w. let h = ap (λ k. k w) e in ground (arith, n, h)

pub less_one-le : (lo hi : ℕ) → lo ≤ hi → hi < 2 ^ 32 → lo - 1 ≤ less_one hi
less_one-le lo hi le small = ground (arith, le, small)

pub less_one-lt : (hi : ℕ) → hi < 2 ^ 32 → less_one hi < 2 ^ 32
less_one-lt hi small = ground (arith, small)

pub same_test : (c b : ℕ) → (c == b) ≡ (b == c)
same_test c b = ground arith

-- The empty word is all that a first match can be.
pub after_blank : (b : ℕ) → after_byte b (first_match eps) ≡ nothing
after_blank b = fun_ext λ w. ground arith
