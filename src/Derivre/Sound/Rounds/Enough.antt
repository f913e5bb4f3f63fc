-- ===== src/Derivre/Sound/Rounds/Enough.antt =====
-- Enough rounds for `derivative` of controllers/derivre/src/deriv.rs.
use aici.Prelude.{
  ℕ, zero, suc, ◌+◌, ◌≤◌, ◌<◌, ◌≡◌, refl, ◌∙◌, arith, ◌⊎◌, inl, inr, Option, some, List, [], ◌∷◌,
  ◌++◌,
}
use aici.Prelude.Results.{Ensures-some}
use aici.Derivre.Ast.{ExprSet}
use aici.Derivre.Simplify.Grows.{Grows-refl}
use aici.Derivre.Deriv.{DerivCache, add_entry, map_loop, derivative, visit_top, lookup_entry}
use aici.Derivre.Language.{Lang, after_byte}
use aici.Derivre.Denotes.{Denotes, Ready, alphabet}
use aici.Derivre.Denotes.Base.{Ready-Grows}
use aici.Derivre.Sound.Derivative.{AreDerivatives, derivative-Denotes}
use aici.Derivre.Sound.Rounds.{Has}
use aici.Derivre.Sound.Rounds.Ends.{
  Panics, now, later, Halts, work_done, was_there, args_first, was_derived, derive_panics,
  Denotes-GetsOver,
}

-- The result of the loop, with the property, or a panic that its run comes to.
abbrev pub Ended :
    (DerivCache → Type 0)
    → ℕ
    → List ℕ
    → DerivCache
    → ExprSet
    → Option (DerivCache × ExprSet)
    → Type 0
Ended Q b todo cache s m =
    ((x : DerivCache × ExprSet) × (m ≡ some x) × Q x.0) ⊎ Panics b todo cache s

-- With `n` rounds or more.
abbrev pub Enough : (DerivCache → Type 0) → ℕ → List ℕ → DerivCache → ExprSet → ℕ → Type 0
Enough Q b todo cache s n =
    (fuel : ℕ) → n ≤ fuel → Ended Q b todo cache s (map_loop fuel b todo cache s)

module _ (Q : DerivCache → Type 0) (b : ℕ) where
  no_work : (cache : DerivCache) (s : ExprSet) → Q cache → Enough Q b [] cache s 0
  unfolding map_loop
  no_work cache s q zero le = inl ((cache, s), refl, q)
  no_work cache s q (suc fuel) le = inl ((cache, s), refl, q)

  -- One round more.
  one_more :
      (e : ℕ) (todo todo' : List ℕ) (cache cache' : DerivCache) (s t : ExprSet) (n : ℕ)
      → ((next : List ℕ → DerivCache → ExprSet → Option (DerivCache × ExprSet))
          → visit_top next b e todo cache s (lookup_entry cache.state_table e b)
            ≡ next todo' cache' t)
      → Enough Q b todo' cache' t n
      → Enough Q b (e ∷ todo) cache s (suc n)
  unfolding map_loop
  one_more e todo todo' cache cache' s t n step enough zero le = absurd (omega (arith, le))
  one_more e todo todo' cache cache' s t n step enough (suc fuel) le =
      elim (enough fuel (omega (arith, le))) [
        | inl (x, ends, q) ↦ inl (x, step (map_loop fuel b) ∙ ends, q)
        | inr stuck ↦ inr (later step stuck)
      ]

  Halts-Enough :
      {todo : List ℕ} {cache : DerivCache} {s : ExprSet}
      → Ready s
      → Halts Q b todo cache s
      → (n : ℕ) × Enough Q b todo cache s n
  unfolding map_loop
  Halts-Enough {todo} {cache} {s} r (work_done q) = (0, no_work cache s q)
  Halts-Enough {todo} {cache} {s} r (was_there {e} {todo = rest} has more) =
      let rest_enough = Halts-Enough r more in
      (
        suc rest_enough.0,
        one_more e rest rest cache cache s s rest_enough.0 (λ next. rw has.1 refl) rest_enough.1,
      )
  Halts-Enough {todo} {cache} {s} r
        (args_first {e} {todo = rest} x m a tail absent read mapped some_missing more) =
      let rest_enough = Halts-Enough r more in
      (
        suc rest_enough.0,
        one_more e rest ((a ∷ tail) ++ (e ∷ rest)) cache cache s s rest_enough.0
            (λ next. rw (absent, read, mapped, some_missing) refl) rest_enough.1,
      )
  Halts-Enough {todo} {cache} {s} r
        (was_derived {e} {todo = rest} x m d t absent read mapped blank made g more) =
      let rest_enough = Halts-Enough (Ready-Grows s t g r) more in
      (
        suc rest_enough.0,
        one_more e rest rest cache (add_entry e b d cache) s t rest_enough.0
            (λ next. rw (absent, read, mapped, blank, made) refl) rest_enough.1,
      )
  Halts-Enough {todo} {cache} {s} r (derive_panics x m absent read mapped blank stuck) =
      (0, λ fuel le. inr (now x m absent read mapped blank stuck))

-- On a set of expressions that `ExprSet::new` began, with a cache whose entries are right, an
-- expression that stands for a language, and a byte of the alphabet, there is a number of rounds
-- with which, and with any greater number of which, `derivative` returns an expression for what
-- may follow the byte in the language, unless the run of its loop from that expression comes, in
-- a number of rounds, to a step of the derivative that panics.
pub derivative-returns :
    (cache : DerivCache) (s : ExprSet) (e b : ℕ) (l : Lang)
    → Ready s
    → AreDerivatives s cache.state_table
    → Denotes s e l
    → b < alphabet s
    → (n : ℕ) × ((k : ℕ)
        → ((x : ℕ × DerivCache × ExprSet) × (derivative (n + k) cache s e b ≡ some x)
            × Denotes x.2 x.0 (after_byte b l))
          ⊎ Panics b (e ∷ []) cache s)
unfolding derivative
derivative-returns cache s e b l r all d lt =
    let Q = λ (c : DerivCache). Has c.state_table e b in
    let halts =
      Denotes-GetsOver Q b s d s cache [] (Grows-refl s r.valid) (r, lt, all)
        λ t c g k x have. work_done have.0 in
    let enough = Halts-Enough Q b r halts in
    (
      enough.0,
      λ k. elim (enough.1 (enough.0 + k) (omega arith)) [
        | inl (x, ends, q) ↦
            let whole : derivative (enough.0 + k) cache s e b ≡ some (q.0, x.0, x.1) =
              rw (ends, q.1) refl in
            inl (
              (q.0, x.0, x.1),
              whole,
              (Ensures-some (derivative-Denotes (enough.0 + k) cache s e b l r all d lt) whole).0,
            )
        | inr stuck ↦ inr stuck
      ],
    )
