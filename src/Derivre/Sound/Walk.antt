-- ===== src/Derivre/Sound/Walk.antt =====
-- The derivatives of controllers/derivre/src/deriv.rs along a word.
use aici.Prelude.{ℕ, ◌<◌, ◌≡◌, Option, some, List, [], ◌∷◌, ◌>>=◌}
use aici.Prelude.Results.{Ensures, returns, Ensures-bind}
use aici.Derivre.Ast.{ExprSet, is_nullable}
use aici.Derivre.Ast.Overflow.{Grows}
use aici.Derivre.Deriv.{DerivCache, derivative}
use aici.Derivre.Language.{Lang, after_byte}
use aici.Derivre.Denotes.{Denotes, Ready, alphabet}
use aici.Derivre.Denotes.Base.{Denotes-is_nullable, Ready-Grows}
use aici.Derivre.Sound.Derivative.{AreDerivatives, derivative-Denotes}

-- The derivatives by the bytes of a word, one after the other.
unfoldable pub derivatives :
    ℕ → DerivCache → ExprSet → ℕ → List ℕ → Option (ℕ × DerivCache × ExprSet)
derivatives fuel cache s e [] = some (e, cache, s)
derivatives fuel cache s e (b ∷ w) =
    derivative fuel cache s e b >>= λ (d, cache', s'). derivatives fuel cache' s' d w

abbrev pub AllBelow : ℕ → List ℕ → Type 0
AllBelow n [] = Unit
AllBelow n (b ∷ w) = (b < n) × AllBelow n w

AllBelow-Grows :
    (s t : ExprSet) (w : List ℕ) → Grows s t → AllBelow (alphabet s) w → AllBelow (alphabet t) w
AllBelow-Grows s t w g all = rw g.same_words all

-- On a set of expressions that `ExprSet::new` began, with a cache whose entries are right, an
-- expression that stands for a language, and a word of bytes of the alphabet: where the
-- derivatives by the bytes of the word, each taken with `derivative`, return, the last one is
-- nullable just if the word is in the language.
pub derivatives-is_nullable :
    (fuel : ℕ) (cache : DerivCache) (s : ExprSet) (e : ℕ) (w : List ℕ) (l : Lang)
    → Ready s
    → AreDerivatives s cache.state_table
    → Denotes s e l
    → AllBelow (alphabet s) w
    → Ensures (λ x. is_nullable x.2 x.0 ≡ some (l w)) (derivatives fuel cache s e w)
unfolding derivatives
derivatives-is_nullable fuel cache s e [] l r all d below = returns (Denotes-is_nullable s r d)
derivatives-is_nullable fuel cache s e (b ∷ w) l r all d below =
    Ensures-bind (derivative-Denotes fuel cache s e b l r all d below.0) λ x k.
      derivatives-is_nullable fuel x.1 x.2 x.0 w (after_byte b l) (Ready-Grows s x.2 k.1 r) k.2 k.0
        (AllBelow-Grows s x.2 w k.1 below.1)
