-- ===== src/Prelude/Loops.antt =====
-- Loops whose body may panic: over a list, collecting what a body emits, and `while` on fuel.
use Prim.Native.Nat.{ℕ, zero, suc, ◌+◌, ◌<◌}
use mathlib.Core.Path.{◌≡◌}
use mathlib.Core.List.{List, [], ◌∷◌, ◌++◌}
use mathlib.Core.Bool.{Bool, true, false}
use mathlib.Core.Option.{Option, none, some}
use native.Mathlib.Nat.{zero-add, suc-add}
use native.Mathlib.Omega.{arith}
use aici.Prelude.Tests.{◌>>=◌}

module _ {ℓ} {S : Type ℓ} (test : S → Bool) (body : S → Option S) where
  -- `none`: the body panics, or the fuel runs out.
  unfoldable pub while : ℕ → S → Option S
  while zero s = none
  while (suc fuel) s = elim (test s) [ true ↦ body s >>= while fuel | false ↦ some s ]

  -- `n` rounds lead from one state to another.
  pub data Steps : ℕ → S → S → Type ℓ where
    here : {s : S} → Steps zero s s
    more : {n : ℕ} {s t u : S} → test s ≡ true → body s ≡ some t → Steps n t u → Steps (suc n) s u

  pub Steps-trans : {m n : ℕ} {s t u : S} → Steps m s t → Steps n t u → Steps (m + n) s u
  Steps-trans {n} {s} {u} here q = rw (zero-add n) q
  Steps-trans {n} (more {n = m} p e r) q = rw (suc-add m n) (more p e (Steps-trans r q))

  pub Steps-while :
      {n : ℕ} {s t : S} (fuel : ℕ) → Steps n s t → test t ≡ false → n < fuel → while fuel s ≡ some t
  unfolding while
  Steps-while zero r e h = absurd (omega arith)
  Steps-while (suc fuel) here e h = rw (e, while)
  Steps-while {t = t} (suc fuel) (more {n = n} {t = m} p b r) e h =
      rw (p, while, b) (Steps-while {n = n} {s = m} {t = t} fuel r e (omega arith))

-- `for x in xs { body }` over the variables that the body changes.
abbrev pub for_each {ℓ κ} : {A : Type ℓ} {S : Type κ} → List A → (A → S → Option S) → S → Option S
for_each [] body s = some s
for_each (x ∷ xs) body s = body x s >>= for_each xs body

-- The same, for a body that emits values in order.
abbrev pub collect {ℓ κ} :
    {A : Type ℓ} {B : Type κ} → List A → (A → Option (List B)) → Option (List B)
collect [] body = some []
collect (x ∷ xs) body = do head ← body x; rest ← collect xs body; some (head ++ rest)
