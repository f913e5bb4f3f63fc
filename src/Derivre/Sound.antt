-- ===== src/Derivre/Sound.antt =====
-- Steps that make an expression for a language.
pub mod Simple
pub mod Flatten
pub mod Concat
pub mod Sort
pub mod And
pub mod ByteSet
pub mod Or
pub mod Order
pub mod Groups
pub mod Trie
pub mod Derive
pub mod Derivative
pub mod Walk
pub mod New
pub mod Rounds
pub mod Constructors
use aici.Prelude.{
  ℕ, ◌≡◌, ◌≢◌, refl, arith, ◌==◌, Bool, true, false, not, Option, none, some, List, [], ◌∷◌, ◌>>=◌,
  if◌then◌else◌, inl, inr,
}
use aici.Prelude.Results.{
  Ensures, panics, returns, Ensures-bind, Ensures-after, Ensures-weaken, Ensures-both,
}
use aici.Derivre.HashCons.Inserting.{IsValid}
use aici.Derivre.Ast.{Expr, ExprSet, mk, is_nullable, nullable, from_nullable, is_nullable_flag}
use aici.Derivre.Ast.Encode.{IsWellFormed, AreFlags}
use aici.Derivre.Ast.Overflow.{Grows, mk-Stores}
use aici.Derivre.Simplify.{Made}
use aici.Derivre.Simplify.Grows.{Grows-refl, Grows-trans, Grows-same}
use aici.Derivre.Language.{Lang}
use aici.Derivre.Denotes.{Denotes, DenotesAll, Means, Ready, node}
use aici.Derivre.Denotes.Laws.{Denotes-Grows, Means-Grows}
use aici.Derivre.Denotes.Base.{Denotes-is_nullable, Ready-Grows}

-- The set has grown, and the result is an expression for the language.
abbrev pub Holds : ExprSet → Lang → ℕ × ExprSet → Type 0
Holds s l x = Grows s x.1 × Denotes x.1 x.0 l

-- Where the step returns.
abbrev pub Makes : ExprSet → Lang → Made → Type 0
Makes s l m = Ready s → Ensures (Holds s l) m

pub from_nullable-AreFlags : (b : Bool) → AreFlags (from_nullable b)
from_nullable-AreFlags true = inr refl
from_nullable-AreFlags false = inl refl

pub is_nullable_flag-from : (b : Bool) → is_nullable_flag (from_nullable b) ≡ b
is_nullable_flag-from true = refl
is_nullable_flag-from false = refl

module _ (s : ExprSet) (l : Lang) where
  pub Makes-same : (id : ℕ) → Denotes s id l → Makes s l (some (id, s))
  Makes-same id d r = returns (Grows-refl s r.valid, d)

  pub Makes-if :
      (b : Bool) {m n : Made}
      → (b ≡ true → Makes s l m)
      → (b ≡ false → Makes s l n)
      → Makes s l (if b then m else n)
  Makes-if true g h = g refl
  Makes-if false g h = h refl

  pub Makes-new : (e : Expr) → IsWellFormed e → nullable e ≡ l [] → Means s e l → Makes s l (mk s e)
  Makes-new e w n d r =
      Ensures-weaken (λ x k. (k.0, node e k.1 w n (Means-Grows s x.1 k.0 d)))
        (mk-Stores s e r.valid)

  pub Makes-nullable :
      (e : ℕ) (k : Lang) (f : Bool → Made)
      → Denotes s e k
      → Makes s l (f (k []))
      → Makes s l (is_nullable s e >>= f)
  Makes-nullable e k f d h r = rw (Denotes-is_nullable s r d) (h r)

  pub Makes-then :
      {B : Type 0} (P : ExprSet → B → Type 0) {m : Option (B × ExprSet)} {f : B × ExprSet → Made}
      → (Ready s → Ensures (λ x. Grows s x.1 × P x.1 x.0) m)
      → ((x : B × ExprSet) → Grows s x.1 → P x.1 x.0 → Makes x.1 l (f x))
      → Makes s l (m >>= f)
  Makes-then P g h r = Ensures-bind (g r) λ x p.
      Ensures-weaken (λ y q. (Grows-trans s x.1 y.1 p.0 q.0, q.1))
        (h x p.0 p.1 (Ready-Grows s x.1 p.0 r))

  -- The cost and the switch are no part of what is stored.
  pub Makes-from :
      (s1 : ExprSet) {m : Made}
      → s1.exprs ≡ s.exprs
      → s1.alphabet_words ≡ s.alphabet_words
      → s1.alphabet_size ≡ s.alphabet_size
      → (Grows s s1 → Makes s1 l m)
      → Makes s l m
  Makes-from s1 same alike size h r =
      let g = Grows-same s s1 same alike size r.valid in
      Ensures-weaken (λ y q. (Grows-trans s s1 y.1 g q.0, q.1)) (h g (Ready-Grows s s1 g r))
