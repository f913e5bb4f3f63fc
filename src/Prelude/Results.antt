-- ===== src/Prelude/Results.antt =====
-- What a chain of partial steps ensures, when it returns.
use mathlib.Core.Path.{◌≡◌, refl}
use mathlib.Core.Bool.{Bool, true, false}
use mathlib.Core.Option.{Option, none, some}
use aici.Prelude.Tests.{◌>>=◌, guard, if◌then◌else◌}

-- The step panics, or its result has the property.
pub data Ensures {A : Type 0} (P : A → Type 0) : Option A → Type 0 where
  panics : Ensures P none
  returns : {a : A} → P a → Ensures P (some a)

pub guard-true : (b : Bool) → Ensures (λ _. b ≡ true) (guard b)
guard-true true = returns refl
guard-true false = panics

module _ {A : Type 0} where
  pub Ensures-weaken :
      {P Q : A → Type 0} {m : Option A} → ((a : A) → P a → Q a) → Ensures P m → Ensures Q m
  Ensures-weaken h panics = panics
  Ensures-weaken h (returns {a = a} p) = returns (h a p)

  pub Ensures-if :
      {P : A → Type 0} (b : Bool) {m n : Option A}
      → (b ≡ true → Ensures P m)
      → (b ≡ false → Ensures P n)
      → Ensures P (if b then m else n)
  Ensures-if true p q = p refl
  Ensures-if false p q = q refl

  pub Ensures-some : {P : A → Type 0} {m : Option A} {a : A} → Ensures P m → m ≡ some a → P a
  Ensures-some {P} {a = a} panics e = absurd (cc e)
  Ensures-some {P} {a = a} (returns {a = b} p) e = let same : b ≡ a = cc e in rw (← same) p

  pub Ensures-self : (m : Option A) → Ensures (λ a. m ≡ some a) m
  Ensures-self none = panics
  Ensures-self (some a) = returns refl

  pub Ensures-bind :
      {B : Type 0} {P : A → Type 0} {Q : B → Type 0} {m : Option A} {f : A → Option B}
      → Ensures P m
      → ((a : A) → P a → Ensures Q (f a))
      → Ensures Q (m >>= f)
  Ensures-bind panics h = panics
  Ensures-bind (returns {a = a} p) h = h a p

  -- Whatever the first step gives.
  pub Ensures-after :
      {B : Type 0} {Q : B → Type 0} (m : Option A) {f : A → Option B}
      → ((a : A) → Ensures Q (f a))
      → Ensures Q (m >>= f)
  Ensures-after none h = panics
  Ensures-after (some a) h = h a

  pub Ensures-both :
      {P Q : A → Type 0} {m : Option A} → Ensures P m → Ensures Q m → Ensures (λ a. P a × Q a) m
  Ensures-both panics q = panics
  Ensures-both {P} {Q} (returns {a = a} p) q = returns (p, Ensures-some q refl)

  pub Ensures-given :
      {H : Type 0} {P : A → Type 0} (m : Option A) → (H → Ensures P m) → Ensures (λ a. H → P a) m
  Ensures-given none f = panics
  Ensures-given (some a) f = returns λ h. Ensures-some (f h) refl
