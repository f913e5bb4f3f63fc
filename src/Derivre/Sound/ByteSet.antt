-- ===== src/Derivre/Sound/ByteSet.antt =====
-- The byte sets of controllers/derivre/src/ast.rs, and `mk_byte_set` of
-- controllers/derivre/src/simplify.rs.
pub mod Ones
pub mod Union
use mathlib.Core.Path.{fun_ext, subst}
use aici.Prelude.{
  ℕ, zero, suc, ◌+◌, ◌*◌, ◌/◌, ◌%◌, ◌^◌, ◌≤◌, ◌<◌, ◌≡◌, ◌≢◌, refl, sym, ◌∙◌, ap, arith, ◌==◌, Bool,
  true, false, not, ◌&&◌, ◌||◌, Bool-cases, ◌⊎◌, inl, inr, Option, none, some, List, [], ◌∷◌,
  length, set, get_elem?, replicate, get_elem?-set_self, get_elem?-set_ne, lt_of_get_elem?, bit_and,
  bit_or, ◌>>=◌, if◌then◌else◌, guard,
}
use aici.Prelude.Bits.{test_bit, test_bit-bit_or, test_bit_pow, test_bit_zero}
use aici.Prelude.Results.{
  Ensures, panics, returns, Ensures-bind, Ensures-if, Ensures-after, Ensures-weaken, guard-true,
  Ensures-self,
}
use aici.Vob.{count_ones}
use aici.Vob.Bits.{masked}
use aici.Derivre.Ast.{ExprSet, byte_set, byteset_contains, byteset_set, byteset_union}
use aici.Derivre.Simplify.{pay, bits_set, first_byte, mk_byte, mk_byte_set}
use aici.Derivre.Language.{Lang, nothing, one_byte}
use aici.Derivre.Denotes.{Ready, alphabet, in_set, holds, means_set}
use aici.Derivre.Denotes.Within.{in_set-lt}
use aici.Derivre.Language.Cat.{bool_ext}
use aici.Derivre.Denotes.Base.{Denotes-nothing}
use aici.Derivre.Sound.{Holds, Makes, Makes-same, Makes-if, Makes-new, Makes-from}
use aici.Derivre.Sound.Simple.{mk_byte-Makes}
use aici.Derivre.Sound.ByteSet.Ones.{at, in_set-at, at_none, at_one}

in_set_none : (bs : List ℕ) (c : ℕ) → bits_set bs ≡ 0 → in_set bs c ≡ false
in_set_none bs c e = in_set-at bs c ∙ at_none bs (c / 32) (c % 32) e (omega arith)

in_set_one :
    (bs : List ℕ) (b c : ℕ) → bits_set bs ≡ 1 → in_set bs b ≡ true → in_set bs c ≡ true → b ≡ c
in_set_one bs b c e p q =
    let r =
      at_one bs (b / 32) (c / 32) (b % 32) (c % 32) e (omega arith) (omega arith)
        (sym (in_set-at bs b) ∙ p) (sym (in_set-at bs c) ∙ q) in
    omega (arith, r.0, r.1)

first_byte-in_set :
    (bs : List ℕ) (i n : ℕ) → Ensures (λ b. (in_set bs b ≡ true) × (b < i + n)) (first_byte bs i n)
first_byte-in_set bs i zero = panics
first_byte-in_set bs i (suc n) = Ensures-bind (Ensures-self (byteset_contains bs i)) λ here got.
    Ensures-if here (λ yes_here. returns (ap holds got ∙ yes_here, omega arith))
      λ _.
        Ensures-weaken (λ b p. (p.0, let lt = p.1 in omega (arith, lt)))
          (first_byte-in_set bs (suc i) n)

pub one_byte-cong : (p q : ℕ → Bool) → ((c : ℕ) → p c ≡ q c) → one_byte p ≡ one_byte q
one_byte-cong p q h = ap one_byte (fun_ext h)

one_byte_none : (p : ℕ → Bool) → ((c : ℕ) → p c ≡ false) → one_byte p ≡ nothing
one_byte_none p h = fun_ext blank
  where
    blank : (w : List ℕ) → one_byte p w ≡ false
    blank [] = refl
    blank (b ∷ []) = h b
    blank (b ∷ c ∷ w) = refl

pub mk_byte_set-Makes :
    (s : ExprSet) (bs : List ℕ) → Makes s (one_byte (in_set bs)) (mk_byte_set s bs)
unfolding mk_byte_set
mk_byte_set-Makes s bs r =
    let l = one_byte (in_set bs) in
    Ensures-bind (guard-true (length bs == s.alphabet_words)) λ _ sized.
      Makes-from s l (pay s s.alphabet_words) refl refl refl
        (λ g.
          let s1 = pay s s.alphabet_words in
          Makes-if s1 l (bits_set bs == 0)
            (λ blank r1.
              let same = one_byte_none (in_set bs) λ c. in_set_none bs c (ground (arith, blank)) in
              Makes-same s1 l 2 (rw same (Denotes-nothing s1 r1)) r1)
            λ _.
              Makes-if s1 l (bits_set bs == 1)
                (λ one r1. Ensures-bind (first_byte-in_set bs 0 s1.alphabet_size) λ b found_it.
                  single s1 r1 b (ground (arith, sized)) (ground (arith, one)) found_it.0
                    (let lt = found_it.1 in omega (arith, lt)))
                λ _.
                  Makes-new s1 l (byte_set bs) tt refl (means_set bs (ground (arith, sized)) refl))
        r
  where
    single :
        (s : ExprSet)
        → Ready s
        → (b : ℕ) → length bs ≡ s.alphabet_words
        → bits_set bs ≡ 1
        → in_set bs b ≡ true
        → b < s.alphabet_size
        → Ensures (Holds s (one_byte (in_set bs))) (mk_byte s (b % 2 ^ 8))
    single s r b len one has lt =
        let few = r.few_bytes in
        let small : b % 2 ^ 8 ≡ b = omega (arith, few, lt) in
        let only : (c : ℕ) → in_set bs c ≡ (b == c) = λ c.
          bool_ext (in_set bs c) (b == c)
            (λ q. let same = in_set_one bs b c one has q in ground (arith, same))
            λ q. let same : b ≡ c = ground (arith, q) in rw (← same) has in
        let inside = in_set-lt bs s.alphabet_words b len has in
        rw (small, one_byte-cong (in_set bs) (λ c. b == c) only)
          (mk_byte-Makes s b (omega (arith, few, lt)) inside r)
