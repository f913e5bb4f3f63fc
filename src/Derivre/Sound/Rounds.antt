-- ===== src/Derivre/Sound/Rounds.antt =====
-- The entries that `map` of controllers/derivre/src/ast.rs looks up, and the arguments that it finds
-- missing.
pub mod Ends
pub mod Enough
use aici.Prelude.{
  ℕ, zero, suc, ◌+◌, ◌<◌, ◌≡◌, refl, sym, ◌∙◌, ap, arith, ◌==◌, Bool, true, false, not, ◌&&◌,
  Bool-cases, inl, inr, Option, none, some, List, [], ◌∷◌, ◌++◌, ◌>>=◌, if◌then◌else◌,
}
use aici.Prelude.Results.{
  Ensures, panics, returns, Ensures-bind, Ensures-weaken, Ensures-if, Ensures-some, Ensures-self,
}
use aici.Derivre.Ast.{Expr, ExprSet, nullable, is_nullable, get, args}
use aici.Derivre.Ast.Overflow.{Grows}
use aici.Derivre.Simplify.Grows.{Grows-refl, Grows-trans}
use aici.Derivre.Deriv.{
  Entry, DerivCache, lookup_entry, is_concat, Mapped, note_arg, map_args, derive, add_entry, visit,
  visit_top, map_loop,
}
use aici.Derivre.Language.{Lang, after_byte}
use aici.Derivre.Denotes.{
  Denotes, DenotesAll, Means, Ready, node, none_denoted, one_denoted, means_empty, means_nothing,
  means_byte, means_set, means_ahead, means_not, means_repeat, means_concat, means_or, means_and,
  alphabet,
}
use aici.Derivre.HashCons.{get as get_vec}
use aici.Derivre.Ast.Encode.{IsWellFormed, words}
use aici.Derivre.Denotes.Nodes.{get-stored}
use aici.Derivre.Simplify.{Made}
use aici.Derivre.Sound.{Holds}
use aici.Derivre.Denotes.Laws.{Denotes-Grows, DenotesAll-Grows, Means-Grows}
use aici.Derivre.Sound.Derive.{Given, derive-Makes}
use aici.Derivre.Sound.Derivative.{
  AreDerivatives, AreDerivatives-Grows, AllDenote, map_args-Given, alphabet-Grows,
}
use aici.Derivre.HashCons.Laws.{bind_some}
use aici.Derivre.Denotes.Base.{Denotes-is_nullable, Ready-Grows}

-- The cache has an entry.
abbrev pub Has : List Entry → ℕ → ℕ → Type 0
Has table e b = (d : ℕ) × (lookup_entry table e b ≡ some d)

-- Every entry stays.
abbrev pub Extends : List Entry → List Entry → Type 0
Extends table table' = (e b : ℕ) → Has table e b → Has table' e b

abbrev pub AllHave : List Entry → ℕ → List ℕ → Type 0
AllHave table b [] = Unit
AllHave table b (e ∷ es) = Has table e b × AllHave table b es

pub Extends-AllHave :
    (table table' : List Entry) (b : ℕ) (es : List ℕ)
    → Extends table table'
    → AllHave table b es
    → AllHave table' b es
Extends-AllHave table table' b [] x all = tt
Extends-AllHave table table' b (e ∷ es) x all =
    (x e b all.0, Extends-AllHave table table' b es x all.1)

AllHave-snoc :
    (table : List Entry) (b : ℕ) (es : List ℕ) (a : ℕ)
    → AllHave table b (es ++ (a ∷ []))
    → AllHave table b es × Has table a b
AllHave-snoc table b [] a all = (tt, all.0)
AllHave-snoc table b (e ∷ es) a all = let r = AllHave-snoc table b es a all.1 in ((all.0, r.0), r.1)

pub Extends-add :
    (e b d : ℕ) (cache : DerivCache) → Extends cache.state_table (add_entry e b d cache).state_table
Extends-add e b d cache e2 b2 (x, there) = elim (Bool-cases (e == e2 && b == b2)) [
  | inl here ↦ (d, rw here refl)
  | inr other ↦ (x, rw other there)
]

pub Has-add : (e b d : ℕ) (cache : DerivCache) → Has (add_entry e b d cache).state_table e b
Has-add e b d cache = let here : (e == e && b == b) ≡ true = ground arith in (d, rw here refl)

abbrev pub All : (ℕ → Type 0) → List ℕ → Type 0
All P [] = Unit
All P (e ∷ es) = P e × All P es

All-snoc : (P : ℕ → Type 0) (es : List ℕ) (a : ℕ) → All P es → P a → All P (es ++ (a ∷ []))
All-snoc P [] a all p = (p, tt)
All-snoc P (e ∷ es) a all p = (all.0, All-snoc P es a all.1 p)

note_arg-All :
    (P : ℕ → Type 0) (a : ℕ) (x : Option ℕ) (m : Mapped)
    → All P m.missing
    → P a
    → All P (note_arg a x m).missing
note_arg-All P a none m all p = All-snoc P m.missing a all p
note_arg-All P a (some d) m all p = all

stops :
    (s : ExprSet) (r : Ready s) (c : Bool) {e : ℕ} {l : Lang}
    → Denotes s e l
    → (if c then (is_nullable s e >>= λ n. some (not n)) else some false) ≡ some (c && not (l []))
stops s r true d = rw (Denotes-is_nullable s r d) refl
stops s r false d = refl

-- The missing arguments are among the arguments.
pub map_args-All :
    (s : ExprSet) (r : Ready s) (table : List Entry) (b : ℕ) (c : Bool) (P : ℕ → Type 0)
    {es : List ℕ} {ls : List Lang}
    → DenotesAll s es ls
    → All P es
    → (m : Mapped) × (map_args s table b c es ≡ some m) × All P m.missing
unfolding map_args
map_args-All s r table b c P none_denoted all = (record { mapped = []; missing = [] }, refl, tt)
map_args-All s r table b c P (one_denoted {e} {l} {es} {ls} d ds) all =
    let brk = stops s r c d in
    let blank : Mapped = record { mapped = []; missing = [] } in
    elim (Bool-cases (c && not (l []))) [
      | inl ends ↦ (
        note_arg e (lookup_entry table e b) blank,
        rw (brk, ends) refl,
        note_arg-All P e (lookup_entry table e b) blank tt all.0,
      )
      | inr goes_on ↦
          let rest = map_args-All s r table b c P ds all.1 in
          (
            note_arg e (lookup_entry table e b) rest.0,
            rw (brk, goes_on, rest.1) refl,
            note_arg-All P e (lookup_entry table e b) rest.0 rest.2 all.0,
          )
    ]

now_there :
    (a b : ℕ) (table table' : List Entry) (m : Mapped)
    → Extends table table'
    → (x : Option ℕ) → lookup_entry table a b ≡ x
    → AllHave table' b (note_arg a x m).missing
    → Has table' a b × AllHave table' b m.missing
now_there a b table table' m x none e all =
    let r = AllHave-snoc table' b m.missing a all in (r.1, r.0)
now_there a b table table' m x (some d) e all = (x a b (d, e), all)

-- What was missing is there now.
pub map_args-again :
    (s t : ExprSet) (r : Ready s) (r' : Ready t) (table table' : List Entry) (b : ℕ) (c : Bool)
    {es : List ℕ} {ls : List Lang}
    → DenotesAll s es ls
    → DenotesAll t es ls
    → Extends table table'
    → (m : Mapped) → map_args s table b c es ≡ some m
    → AllHave table' b m.missing
    → (m' : Mapped) × (map_args t table' b c es ≡ some m') × (m'.missing ≡ [])
unfolding map_args
map_args-again s t r r' table table' b c none_denoted none_denoted x m e all =
    (record { mapped = []; missing = [] }, refl, refl)
map_args-again s t r r' table table' b c (one_denoted {e = a} {l} {es} {ls} d ds)
      (one_denoted d' ds') x m e all =
    let here = stops s r c d in
    let there = stops t r' c d' in
    let blank : Mapped = record { mapped = []; missing = [] } in
    let old = lookup_entry table a b in
    elim (Bool-cases (c && not (l []))) [
      | inl ends ↦
          let made : note_arg a old blank ≡ m = cc (rw (here, ends) at e) in
          let have = now_there a b table table' blank x old refl (rw (sym made) at all) in
          (note_arg a (lookup_entry table' a b) blank, rw (there, ends) refl, rw have.0.1 refl)
      | inr goes_on ↦
          let f =
            bind_some (map_args s table b c es) (λ m0. some (note_arg a old m0)) m
              (rw (here, goes_on) at e) in
          let made : note_arg a old f.0 ≡ m = cc f.2 in
          let have = now_there a b table table' f.0 x old refl (rw (sym made) at all) in
          let rest = map_args-again s t r r' table table' b c ds ds' x f.0 f.1 have.1 in
          (
            note_arg a (lookup_entry table' a b) rest.0,
            rw (there, goes_on, rest.1) refl,
            rw have.0.1 rest.2,
          )
    ]
