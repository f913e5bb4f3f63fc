-- ===== src/Derivre/Ast/Encode.antt =====
-- `serialize` and `from_slice` of controllers/derivre/src/ast.rs are inverse, and `mk` stores an
-- expression under an id.
use aici.Prelude.{
  ℕ, zero, suc, ◌<◌, ◌^◌, ◌%◌, ◌≡◌, ◌≢◌, refl, ◌∙◌, arith, ◌==◌, false, some, List, [], ◌∷◌, ◌>>=◌,
  ◌⊎◌, inl, inr, bit_and,
}
use aici.Derivre.Ast.{
  Expr, ExprTag, empty_string, no_match, byte, byte_set, lookahead, complement, repeat, concat,
  or_of, and_of, empty_string_tag, no_match_tag, byte_tag, byte_set_tag, lookahead_tag,
  complement_tag, repeat_tag, concat_tag, or_tag, and_tag, encode, from_u8, decode, from_slice,
  new_ref,
}

-- The flags are those of `from_nullable`.
abbrev pub AreFlags : ℕ → Type 0
AreFlags flags = (flags ≡ 0) ⊎ (flags ≡ 256)

-- The parts of an expression fit its encoding.
abbrev pub IsWellFormed : Expr → Type 0
IsWellFormed empty_string = Unit
IsWellFormed no_match = Unit
IsWellFormed (byte b) = b < 2 ^ 8
IsWellFormed (byte_set s) = Unit
IsWellFormed (lookahead flags e n) = AreFlags flags × (e ≢ 0)
IsWellFormed (complement flags e) = AreFlags flags × (e ≢ 0)
IsWellFormed (repeat flags e lo hi) = AreFlags flags × (e ≢ 0)
IsWellFormed (concat flags es) = AreFlags flags
IsWellFormed (or_of flags es) = AreFlags flags
IsWellFormed (and_of flags es) = AreFlags flags

-- The words that `serialize` pushes.
abbrev pub words : Expr → List ℕ
words empty_string = encode 0 empty_string_tag ∷ []
words no_match = encode 0 no_match_tag ∷ []
words (byte b) = encode 0 byte_tag ∷ b ∷ []
words (byte_set s) = encode 0 byte_set_tag ∷ s
words (lookahead flags e n) = encode flags lookahead_tag ∷ e ∷ n ∷ []
words (complement flags e) = encode flags complement_tag ∷ e ∷ []
words (repeat flags e lo hi) = encode flags repeat_tag ∷ e ∷ lo ∷ hi ∷ []
words (concat flags es) = encode flags concat_tag ∷ es
words (or_of flags es) = encode flags or_tag ∷ es
words (and_of flags es) = encode flags and_tag ∷ es

from_slice-encode :
    (flags : ℕ) (tag : ExprTag) (s : List ℕ)
    → AreFlags flags
    → from_slice (encode flags tag ∷ s) ≡ decode flags s tag
unfolding from_slice
from_slice-encode flags tag s (inl none_set) = rw none_set (by_tag tag)
  where
    by_tag :
        (tag : ExprTag)
        → (from_u8 (bit_and (encode 0 tag) 255 % 2 ^ 8) >>= λ t.
            decode (bit_and (encode 0 tag) 4294967040) s t)
          ≡ decode 0 s tag
    by_tag empty_string_tag = refl
    by_tag no_match_tag = refl
    by_tag byte_tag = refl
    by_tag byte_set_tag = refl
    by_tag lookahead_tag = refl
    by_tag complement_tag = refl
    by_tag repeat_tag = refl
    by_tag concat_tag = refl
    by_tag or_tag = refl
    by_tag and_tag = refl
from_slice-encode flags tag s (inr nullable) = rw nullable (by_tag tag)
  where
    by_tag :
        (tag : ExprTag)
        → (from_u8 (bit_and (encode 256 tag) 255 % 2 ^ 8) >>= λ t.
            decode (bit_and (encode 256 tag) 4294967040) s t)
          ≡ decode 256 s tag
    by_tag empty_string_tag = refl
    by_tag no_match_tag = refl
    by_tag byte_tag = refl
    by_tag byte_set_tag = refl
    by_tag lookahead_tag = refl
    by_tag complement_tag = refl
    by_tag repeat_tag = refl
    by_tag concat_tag = refl
    by_tag or_tag = refl
    by_tag and_tag = refl

is_ref : (e : ℕ) → e ≢ 0 → new_ref e ≡ some e
is_ref zero h = absurd (h refl)
is_ref (suc e) h = let positive : (suc e == 0) ≡ false = ground arith in rw positive refl

pub from_slice-words : (e : Expr) → IsWellFormed e → from_slice (words e) ≡ some e
from_slice-words empty_string w = from_slice-encode 0 empty_string_tag [] (inl refl)
from_slice-words no_match w = from_slice-encode 0 no_match_tag [] (inl refl)
from_slice-words (byte b) w =
    let small : b % 2 ^ 8 ≡ b = omega (arith, w) in
    from_slice-encode 0 byte_tag (b ∷ []) (inl refl) ∙ rw small refl
from_slice-words (byte_set s) w = from_slice-encode 0 byte_set_tag s (inl refl)
from_slice-words (lookahead flags e n) w =
    from_slice-encode flags lookahead_tag (e ∷ n ∷ []) w.0 ∙ rw (is_ref e w.1) refl
from_slice-words (complement flags e) w =
    from_slice-encode flags complement_tag (e ∷ []) w.0 ∙ rw (is_ref e w.1) refl
from_slice-words (repeat flags e lo hi) w =
    from_slice-encode flags repeat_tag (e ∷ lo ∷ hi ∷ []) w.0 ∙ rw (is_ref e w.1) refl
from_slice-words (concat flags es) w = from_slice-encode flags concat_tag es w
from_slice-words (or_of flags es) w = from_slice-encode flags or_tag es w
from_slice-words (and_of flags es) w = from_slice-encode flags and_tag es w
