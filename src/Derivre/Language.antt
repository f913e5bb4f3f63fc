-- ===== src/Derivre/Language.antt =====
-- Languages over bytes as tests on words, with the operations that the expressions of
-- controllers/derivre/src/ast.rs stand for.
pub mod Cat
pub mod Rep
pub mod After
use aici.Prelude.{
  ℕ, zero, suc, ◌+◌, ◌≤◌, ◌≡◌, ◌==◌, ltb, leb, Bool, true, false, not, ◌&&◌, ◌||◌, ◌⊎◌, List, [],
  ◌∷◌, if◌then◌else◌,
}

abbrev pub Lang : Type 0
Lang = List ℕ → Bool

abbrev pub nothing : Lang
nothing w = false

abbrev pub eps : Lang
eps [] = true
eps (b ∷ w) = false

-- What may follow a byte.
abbrev pub after_byte : ℕ → Lang → Lang
after_byte b l w = l (b ∷ w)

-- The words of one byte with the property.
abbrev pub one_byte : (ℕ → Bool) → Lang
one_byte p [] = false
one_byte p (b ∷ []) = p b
one_byte p (b ∷ c ∷ w) = false

-- A word of the first language followed by one of the second.
unfoldable pub cat : Lang → Lang → Lang
cat l m [] = l [] && m []
cat l m (b ∷ w) = (l [] && m (b ∷ w)) || cat (after_byte b l) m w

abbrev pub cat_all : List Lang → Lang
cat_all [] = eps
cat_all (l ∷ ls) = cat l (cat_all ls)

abbrev pub either : Lang → Lang → Lang
either l m w = l w || m w

abbrev pub any_of : List Lang → Lang
any_of [] w = false
any_of (l ∷ ls) w = l w || any_of ls w

-- The words over the first `n` bytes.
abbrev pub letters : ℕ → Lang
letters n [] = true
letters n (b ∷ w) = ltb b n && letters n w

-- Of those, the words of all the languages.
abbrev pub all_of : ℕ → List Lang → Lang
all_of n [] w = letters n w
all_of n (l ∷ ls) w = l w && all_of n ls w

abbrev pub outside : ℕ → Lang → Lang
outside n l w = letters n w && not (l w)

-- The words that have no shorter prefix in the language.
abbrev pub first_match : Lang → Lang
first_match l [] = l []
first_match l (b ∷ w) = not (l []) && first_match (after_byte b l) w

abbrev pub pow : Lang → ℕ → Lang
pow l zero = eps
pow l (suc n) = cat l (pow l n)

-- `u32::MAX` is no bound.
abbrev pub AtMost : ℕ → ℕ → Type 0
AtMost n hi = (n ≤ hi) ⊎ (hi ≡ 4294967295)

-- The word is in a power of the language between the bounds.
abbrev pub InRep : Lang → ℕ → ℕ → List ℕ → Type 0
InRep l lo hi w = (n : ℕ) × (lo ≤ n) × AtMost n hi × (pow l n w ≡ true)
