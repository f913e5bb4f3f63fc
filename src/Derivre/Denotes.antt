-- ===== src/Derivre/Denotes.antt =====
-- The language that an expression of controllers/derivre/src/ast.rs stands for in a set of
-- expressions.
pub mod Nodes
pub mod Laws
pub mod Within
pub mod Base
use aici.Prelude.{
  ℕ, ◌+◌, ◌*◌, ◌-◌, ◌/◌, ◌≤◌, ◌<◌, ◌^◌, ◌≡◌, ◌≢◌, refl, ◌==◌, Bool, true, false, Option, none, some,
  List, [], ◌∷◌, length, replicate,
}
use aici.Derivre.HashCons.{get as get_vec}
use aici.Derivre.HashCons.Inserting.{IsValid}
use aici.Derivre.Ast.{
  Expr, empty_string, no_match, byte, byte_set, lookahead, complement, repeat, concat, or_of,
  and_of, ExprSet, nullable, u32_max, byteset_contains, any_byte_id,
}
use aici.Derivre.Ast.Encode.{IsWellFormed, words}
use aici.Derivre.Language.{
  Lang, nothing, eps, one_byte, cat_all, any_of, all_of, outside, first_match,
}
use aici.Derivre.Language.Rep.{rep}

-- The bytes that a byte set has room for.
abbrev pub alphabet : ExprSet → ℕ
alphabet s = s.alphabet_words * 32

abbrev pub holds : Option Bool → Bool
holds none = false
holds (some b) = b

abbrev pub in_set : List ℕ → ℕ → Bool
in_set bs b = holds (byteset_contains bs b)

-- The expression is stored under the id, its flag is right, and its arguments mean what they should.
mutual
  pub data Denotes (s : ExprSet) : ℕ → Lang → Type 0 where
    node :
        {id : ℕ} {l : Lang} (e : Expr)
        → get_vec s.exprs id ≡ some (words e)
        → IsWellFormed e
        → nullable e ≡ l []
        → Means s e l
        → Denotes s id l

  pub data Means (s : ExprSet) : Expr → Lang → Type 0 where
    means_empty : {l : Lang} → l ≡ eps → Means s empty_string l
    means_nothing : {l : Lang} → l ≡ nothing → Means s no_match l
    means_byte :
        {l : Lang} (b : ℕ) → b < alphabet s → l ≡ one_byte (λ c. b == c) → Means s (byte b) l
    means_set :
        {l : Lang} (bs : List ℕ)
        → length bs ≡ s.alphabet_words
        → l ≡ one_byte (in_set bs)
        → Means s (byte_set bs) l
    means_ahead :
        {l : Lang} (f e n : ℕ) (m : Lang)
        → Denotes s e m
        → (m [] ≡ true → e ≡ 1)
        → l ≡ first_match m
        → Means s (lookahead f e n) l
    means_not :
        {l : Lang} (f e : ℕ) (m : Lang)
        → Denotes s e m
        → l ≡ outside (alphabet s) m
        → Means s (complement f e) l
    means_repeat :
        {l : Lang} (f e lo hi : ℕ) (m : Lang)
        → Denotes s e m
        → lo ≤ hi
        → hi ≢ 0
        → hi < 2 ^ 32
        → (m [] ≡ true → lo ≡ 0)
        → l ≡ rep m lo hi
        → Means s (repeat f e lo hi) l
    means_concat :
        {l : Lang} (f : ℕ) (es : List ℕ) (ms : List Lang)
        → DenotesAll s es ms
        → l ≡ cat_all ms
        → Means s (concat f es) l
    means_or :
        {l : Lang} (f : ℕ) (es : List ℕ) (ms : List Lang)
        → DenotesAll s es ms
        → l ≡ any_of ms
        → Means s (or_of f es) l
    means_and :
        {l : Lang} (f : ℕ) (es : List ℕ) (ms : List Lang)
        → DenotesAll s es ms
        → l ≡ all_of (alphabet s) ms
        → Means s (and_of f es) l

  pub data DenotesAll (s : ExprSet) : List ℕ → List Lang → Type 0 where
    none_denoted : DenotesAll s [] []
    one_denoted :
        {e : ℕ} {l : Lang} {es : List ℕ} {ls : List Lang}
        → Denotes s e l
        → DenotesAll s es ls
        → DenotesAll s (e ∷ es) (l ∷ ls)

-- The set has the expressions that `ExprSet::new` puts first, over bytes.
pub record Ready (s : ExprSet) : Type 0 where
  pub valid : IsValid s.exprs
  pub few_bytes : s.alphabet_size ≤ 256
  pub blank_at : get_vec s.exprs 0 ≡ some []
  pub empty_at : get_vec s.exprs 1 ≡ some (words empty_string)
  pub nothing_at : get_vec s.exprs 2 ≡ some (words no_match)
  pub byte_at : get_vec s.exprs 3 ≡ some (words (byte_set (replicate s.alphabet_words u32_max)))
  pub any_at : get_vec s.exprs 4 ≡ some (words (repeat 256 any_byte_id 0 u32_max))
  pub more_at : get_vec s.exprs 5 ≡ some (words (repeat 0 any_byte_id 1 u32_max))
