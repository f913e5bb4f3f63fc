-- ===== src/Derivre/Denotes/Nodes.antt =====
-- What `get`, `get_tag`, `get_args` and `is_nullable` of controllers/derivre/src read of an
-- expression that stands for a language.
use mathlib.Core.Path.{subst}
use aici.Prelude.{
  ℕ, ◌≡◌, ◌≢◌, refl, sym, ◌∙◌, ap, arith, ◌==◌, false, some, List, [], ◌∷◌, Bool-cases, ◌⊎◌, inl,
  inr, bit_and, ◌%◌, ◌^◌,
}
use aici.Derivre.HashCons.{get as get_vec}
use aici.Derivre.Ast.{
  Expr, empty_string, no_match, byte, byte_set, lookahead, complement, repeat, concat, or_of,
  and_of, ExprTag, empty_string_tag, no_match_tag, byte_tag, byte_set_tag, lookahead_tag,
  complement_tag, repeat_tag, concat_tag, or_tag, and_tag, encode, from_u8, ExprSet, nullable,
  is_nullable, is_nullable_flag, get, get_tag, args, from_slice,
}
use aici.Derivre.Ast.Encode.{IsWellFormed, AreFlags, words, from_slice-words}
use aici.Derivre.Simplify.{args_of, get_args}
use aici.Derivre.Denotes.{Ready}

abbrev pub tag_of : Expr → ExprTag
tag_of empty_string = empty_string_tag
tag_of no_match = no_match_tag
tag_of (byte b) = byte_tag
tag_of (byte_set s) = byte_set_tag
tag_of (lookahead f e n) = lookahead_tag
tag_of (complement f e) = complement_tag
tag_of (repeat f e lo hi) = repeat_tag
tag_of (concat f es) = concat_tag
tag_of (or_of f es) = or_tag
tag_of (and_of f es) = and_tag

encode-tag :
    (flags : ℕ) (tag : ExprTag)
    → AreFlags flags
    → from_u8 (bit_and (encode flags tag) 255 % 2 ^ 8) ≡ some tag
encode-tag flags tag (inl none_set) = rw none_set (by_tag tag)
  where
    by_tag : (tag : ExprTag) → from_u8 (bit_and (encode 0 tag) 255 % 2 ^ 8) ≡ some tag
    by_tag empty_string_tag = refl
    by_tag no_match_tag = refl
    by_tag byte_tag = refl
    by_tag byte_set_tag = refl
    by_tag lookahead_tag = refl
    by_tag complement_tag = refl
    by_tag repeat_tag = refl
    by_tag concat_tag = refl
    by_tag or_tag = refl
    by_tag and_tag = refl
encode-tag flags tag (inr set) = rw set (by_tag tag)
  where
    by_tag : (tag : ExprTag) → from_u8 (bit_and (encode 256 tag) 255 % 2 ^ 8) ≡ some tag
    by_tag empty_string_tag = refl
    by_tag no_match_tag = refl
    by_tag byte_tag = refl
    by_tag byte_set_tag = refl
    by_tag lookahead_tag = refl
    by_tag complement_tag = refl
    by_tag repeat_tag = refl
    by_tag concat_tag = refl
    by_tag or_tag = refl
    by_tag and_tag = refl

encode-flags :
    (flags : ℕ) (tag : ExprTag) → AreFlags flags → bit_and (encode flags tag) 4294967040 ≡ flags
encode-flags flags tag (inl none_set) = rw none_set (by_tag tag)
  where
    by_tag : (tag : ExprTag) → bit_and (encode 0 tag) 4294967040 ≡ 0
    by_tag empty_string_tag = refl
    by_tag no_match_tag = refl
    by_tag byte_tag = refl
    by_tag byte_set_tag = refl
    by_tag lookahead_tag = refl
    by_tag complement_tag = refl
    by_tag repeat_tag = refl
    by_tag concat_tag = refl
    by_tag or_tag = refl
    by_tag and_tag = refl
encode-flags flags tag (inr set) = rw set (by_tag tag)
  where
    by_tag : (tag : ExprTag) → bit_and (encode 256 tag) 4294967040 ≡ 256
    by_tag empty_string_tag = refl
    by_tag no_match_tag = refl
    by_tag byte_tag = refl
    by_tag byte_set_tag = refl
    by_tag lookahead_tag = refl
    by_tag complement_tag = refl
    by_tag repeat_tag = refl
    by_tag concat_tag = refl
    by_tag or_tag = refl
    by_tag and_tag = refl

-- The flags that are stored: EMPTY_STRING has none.
abbrev pub raw_flags : Expr → ℕ
raw_flags empty_string = 0
raw_flags no_match = 0
raw_flags (byte b) = 0
raw_flags (byte_set s) = 0
raw_flags (lookahead f e n) = f
raw_flags (complement f e) = f
raw_flags (repeat f e lo hi) = f
raw_flags (concat f es) = f
raw_flags (or_of f es) = f
raw_flags (and_of f es) = f

raw_flags-AreFlags : (e : Expr) → IsWellFormed e → AreFlags (raw_flags e)
raw_flags-AreFlags empty_string w = inl refl
raw_flags-AreFlags no_match w = inl refl
raw_flags-AreFlags (byte b) w = inl refl
raw_flags-AreFlags (byte_set s) w = inl refl
raw_flags-AreFlags (lookahead f e n) w = w.0
raw_flags-AreFlags (complement f e) w = w.0
raw_flags-AreFlags (repeat f e lo hi) w = w.0
raw_flags-AreFlags (concat f es) w = w
raw_flags-AreFlags (or_of f es) w = w
raw_flags-AreFlags (and_of f es) w = w

-- The first word, and the arguments among the others.
words-first :
    (e : Expr)
    → (ws : List ℕ) × (words e ≡ encode (raw_flags e) (tag_of e) ∷ ws)
      × (args_of (tag_of e) ws ≡ args e)
words-first empty_string = ([], refl, refl)
words-first no_match = ([], refl, refl)
words-first (byte b) = (b ∷ [], refl, refl)
words-first (byte_set s) = (s, refl, refl)
words-first (lookahead f e n) = (e ∷ n ∷ [], refl, refl)
words-first (complement f e) = (e ∷ [], refl, refl)
words-first (repeat f e lo hi) = (e ∷ lo ∷ hi ∷ [], refl, refl)
words-first (concat f es) = (es, refl, refl)
words-first (or_of f es) = (es, refl, refl)
words-first (and_of f es) = (es, refl, refl)

nullable-raw : (e : Expr) → (e ≡ empty_string) ⊎ (nullable e ≡ is_nullable_flag (raw_flags e))
nullable-raw empty_string = inl refl
nullable-raw no_match = inr refl
nullable-raw (byte b) = inr refl
nullable-raw (byte_set s) = inr refl
nullable-raw (lookahead f e n) = inr refl
nullable-raw (complement f e) = inr refl
nullable-raw (repeat f e lo hi) = inr refl
nullable-raw (concat f es) = inr refl
nullable-raw (or_of f es) = inr refl
nullable-raw (and_of f es) = inr refl

pub words-cancel : (e e' : Expr) → IsWellFormed e → IsWellFormed e' → words e ≡ words e' → e ≡ e'
words-cancel e e' w w' same =
    let left = from_slice-words e w in
    let right = from_slice-words e' w' in
    let both : some e ≡ some e' = sym left ∙ ap from_slice same ∙ right in cc both

module _ (s : ExprSet) (id : ℕ) (e : Expr) (stored : get_vec s.exprs id ≡ some (words e))
    (fits : IsWellFormed e) where
  pub get-stored : get s id ≡ some e
  unfolding get
  get-stored = rw stored (from_slice-words e fits)

  pub stored_ref : Ready s → id ≢ 0
  stored_ref r zero_id =
      let first = words-first e in
      let here : get_vec s.exprs id ≡ some [] = rw zero_id r.blank_at in cc (stored, here, first.1)

  pub get_tag-stored : Ready s → get_tag s id ≡ some (tag_of e)
  unfolding get_tag
  get_tag-stored r =
      let first = words-first e in
      let not_zero : (id == 0) ≡ false = let p = stored_ref r in ground (arith, p) in
      rw (not_zero, stored, first.1)
        (encode-tag (raw_flags e) (tag_of e) (raw_flags-AreFlags e fits))

  pub get_args-stored : Ready s → get_args s id ≡ some (args e)
  unfolding get_args
  get_args-stored r =
      let first = words-first e in rw (stored, get_tag-stored r, first.1) (ap some first.2)

  pub is_nullable-stored : Ready s → is_nullable s id ≡ some (nullable e)
  unfolding is_nullable
  is_nullable-stored r =
      let first = words-first e in
      let not_zero : (id == 0) ≡ false = let p = stored_ref r in ground (arith, p) in
      let flags = encode-flags (raw_flags e) (tag_of e) (raw_flags-AreFlags e fits) in
      elim (Bool-cases (id == 1)) [
        | inl at_one ↦
            let one : id ≡ 1 = ground arith in
            let same_words : words e ≡ words empty_string = cc (stored, r.empty_at, one) in
            let same : e ≡ empty_string = words-cancel e empty_string fits tt same_words in
            rw (at_one, same) refl
        | inr elsewhere ↦ elim (nullable-raw e) [
          | inl same ↦
              let here = subst (λ x. get_vec s.exprs id ≡ some (words x)) same stored in
              let one = r.valid.distinct id 1 (words empty_string) here r.empty_at in
              absurd (ground (arith, one, elsewhere))
          | inr raw ↦ rw (elsewhere, not_zero, stored, first.1, flags, raw) refl
        ]
      ]
