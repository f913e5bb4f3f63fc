-- ===== src/Derivre/Sound/Derivative.antt =====
-- `derivative` of controllers/derivre/src/deriv.rs: the work list and the cache.
use mathlib.Core.Path.{subst}
use aici.Prelude.{
  ℕ, zero, suc, ◌<◌, ◌≡◌, refl, arith, ◌==◌, true, false, ◌&&◌, Bool-cases, inl, inr, Option, none,
  some, List, [], ◌∷◌, ◌++◌,
}
use aici.Prelude.Results.{Ensures, panics, returns, Ensures-bind, Ensures-weaken, Ensures-if}
use aici.Derivre.Ast.{Expr, ExprSet, args}
use aici.Derivre.Ast.Overflow.{Grows}
use aici.Derivre.Simplify.Grows.{Grows-refl, Grows-trans}
use aici.Derivre.Deriv.{
  Entry, DerivCache, lookup_entry, is_concat, Mapped, note_arg, map_args, add_entry, visit,
  visit_top, map_loop, derivative,
}
use aici.Derivre.Language.{Lang, after_byte}
use aici.Derivre.Denotes.{
  Denotes, DenotesAll, Means, Ready, none_denoted, one_denoted, means_empty, means_nothing,
  means_byte, means_set, means_ahead, means_not, means_repeat, means_concat, means_or, means_and,
  alphabet,
}
use aici.Derivre.Denotes.Laws.{Denotes-same, Denotes-Grows, DenotesAll-Grows}
use aici.Derivre.Denotes.Base.{Denotes-is_nullable, Ready-Grows}
use aici.Derivre.Sound.Or.{get-Denotes}
use aici.Derivre.Sound.Flatten.{DenotesAll-append}
use aici.Derivre.Language.After.{after_all}
use aici.Derivre.Sound.Derive.{
  Branched, branched_end, branched_last, branched_more, Given, derive-Makes,
}

-- The entries are derivatives.
abbrev pub AreDerivatives : ExprSet → List Entry → Type 0
AreDerivatives s [] = Unit
AreDerivatives s (x ∷ table) =
    ((l : Lang) × Denotes s x.expr l × Denotes s x.derivative_id (after_byte x.by_byte l))
    × AreDerivatives s table

pub AreDerivatives-Grows :
    (s t : ExprSet) (table : List Entry)
    → Grows s t
    → AreDerivatives s table
    → AreDerivatives t table
AreDerivatives-Grows s t [] g all = tt
AreDerivatives-Grows s t (x ∷ table) g all = (
  (all.0.0, Denotes-Grows s t g all.0.1, Denotes-Grows s t g all.0.2),
  AreDerivatives-Grows s t table g all.1,
)

lookup_entry-Denotes :
    (s : ExprSet) (table : List Entry) (e b : ℕ) {l : Lang}
    → AreDerivatives s table
    → Denotes s e l
    → Ensures (λ d. Denotes s d (after_byte b l)) (lookup_entry table e b)
lookup_entry-Denotes s [] e b all d = panics
lookup_entry-Denotes s (x ∷ table) e b {l} all d =
    Ensures-if (x.expr == e && x.by_byte == b)
      (λ hit.
        let at_expr : x.expr ≡ e = ground arith in
        let at_byte : x.by_byte ≡ b = ground arith in
        let same : all.0.0 ≡ l =
          Denotes-same s e all.0.0 l (subst (λ i. Denotes s i all.0.0) at_expr all.0.1) d in
        returns (rw (← same, ← at_byte) all.0.2))
      λ _. lookup_entry-Denotes s table e b all.1 d

not_snoc : (es : List ℕ) (a : ℕ) → es ++ (a ∷ []) ≡ [] → ⊥
not_snoc [] a e = cc e
not_snoc (x ∷ es) a e = cc e

-- The expressions stand for languages.
abbrev pub AllDenote : ExprSet → List ℕ → Type 0
AllDenote s es = (ls : List Lang) × DenotesAll s es ls

-- The arguments that are missing, and what is mapped where none is.
abbrev pub Looked : ExprSet → (List ℕ → Type 0) → Mapped → Type 0
Looked s P m = AllDenote s m.missing × (m.missing ≡ [] → P m.mapped)

note_arg-Looked :
    (s : ExprSet) {a : ℕ} {l k : Lang} (P Q : List ℕ → Type 0)
    → Denotes s a l
    → ((d : ℕ) (ds : List ℕ) → Denotes s d k → P ds → Q (d ∷ ds))
    → (x : Option ℕ) → Ensures (λ d. Denotes s d k) x
    → (m : Mapped) → Looked s P m
    → Looked s Q (note_arg a x m)
note_arg-Looked s {a} {l} P Q d put none e m looked = (
  (looked.0.0 ++ (l ∷ []), DenotesAll-append s looked.0.1 (one_denoted d none_denoted)),
  λ blank. absurd (not_snoc m.missing a blank),
)
note_arg-Looked s {a} P Q d put (some x) (returns k) m looked =
    (looked.0, λ blank. put x m.mapped k (looked.1 blank))

module _ (s : ExprSet) (r : Ready s) (table : List Entry) (all : AreDerivatives s table)
    (b : ℕ) where
  map_args-Plain :
      {es : List ℕ} {ls : List Lang}
      → DenotesAll s es ls
      → Ensures (Looked s (λ ds. DenotesAll s ds (after_all b ls))) (map_args s table b false es)
  unfolding map_args
  map_args-Plain none_denoted = returns (([], none_denoted), λ _. none_denoted)
  map_args-Plain (one_denoted {e} {l} {es} {ls} d ds) = Ensures-bind (map_args-Plain ds) λ m looked.
      returns (
        note_arg-Looked s (λ ds. DenotesAll s ds (after_all b ls))
          (λ ds. DenotesAll s ds (after_all b (l ∷ ls))) d (λ x ds k rest. one_denoted k rest)
          (lookup_entry table e b) (lookup_entry-Denotes s table e b all d) m looked)

  map_args-Branched :
      {es : List ℕ} {ls : List Lang}
      → DenotesAll s es ls
      → Ensures (Looked s (Branched s b es ls)) (map_args s table b true es)
  unfolding map_args
  map_args-Branched none_denoted = returns (([], none_denoted), λ _. branched_end)
  map_args-Branched (one_denoted {e} {l} {es} {ls} d ds) =
      let read = Denotes-is_nullable s r d in
      let known = lookup_entry-Denotes s table e b all d in
      elim (Bool-cases (l [])) [
        | inl null ↦
            rw (read, null)
              (Ensures-bind (map_args-Branched ds) λ m looked. returns (
                note_arg-Looked s (Branched s b es ls) (Branched s b (e ∷ es) (l ∷ ls)) d
                  (λ x xs k rest. branched_more d ds null k rest) (lookup_entry table e b) known m
                  looked))
        | inr not_null ↦
            rw (read, not_null)
              (returns (
                note_arg-Looked s (λ xs. xs ≡ []) (Branched s b (e ∷ es) (l ∷ ls)) d
                  (λ x xs k blank. rw blank (branched_last d ds not_null k))
                  (lookup_entry table e b) known (record { mapped = []; missing = [] })
                  (([], none_denoted), λ _. refl)))
      ]

  pub map_args-Given :
      {e : Expr} {l : Lang} (m : Means s e l)
      → Ensures (Looked s (Given s b m)) (map_args s table b (is_concat e) (args e))
  unfolding map_args
  map_args-Given (means_empty p) = returns (([], none_denoted), λ _. tt)
  map_args-Given (means_nothing p) = returns (([], none_denoted), λ _. tt)
  map_args-Given (means_byte c lt p) = returns (([], none_denoted), λ _. tt)
  map_args-Given (means_set bs len p) = returns (([], none_denoted), λ _. tt)
  map_args-Given (means_ahead f e n m d t p) = map_args-Plain (one_denoted d none_denoted)
  map_args-Given (means_not f e m d p) = map_args-Plain (one_denoted d none_denoted)
  map_args-Given (means_repeat f e lo hi m d o x y z p) =
      map_args-Plain (one_denoted d none_denoted)
  map_args-Given (means_concat f es ms as' p) = map_args-Branched as'
  map_args-Given (means_or f es ms as' p) = map_args-Plain as'
  map_args-Given (means_and f es ms as' p) = map_args-Plain as'

-- The set has grown, and the cache is right.
abbrev pub Cached : ExprSet → DerivCache × ExprSet → Type 0
Cached s x = Grows s x.1 × AreDerivatives x.1 x.0.state_table

pub alphabet-Grows : (s t : ExprSet) (b : ℕ) → Grows s t → b < alphabet s → b < alphabet t
alphabet-Grows s t b g lt = rw g.same_words lt

-- The rest of the work, from any work list.
abbrev pub Works : ℕ → (List ℕ → DerivCache → ExprSet → Option (DerivCache × ExprSet)) → Type 0
Works b next =
    (todo : List ℕ) (cache : DerivCache) (s : ExprSet)
    → Ready s
    → b < alphabet s
    → AreDerivatives s cache.state_table
    → AllDenote s todo
    → Ensures (Cached s) (next todo cache s)

module _ (b : ℕ) (next : List ℕ → DerivCache → ExprSet → Option (DerivCache × ExprSet))
    (works : Works b next) (e : ℕ) (todo : List ℕ) (cache : DerivCache) (s : ExprSet) (r : Ready s)
    (lt : b < alphabet s) (all : AreDerivatives s cache.state_table) (rest : AllDenote s todo) where
  visit-Cached :
      {x : Expr} {l : Lang}
      → Denotes s e l
      → (m : Means s x l) (ds missing : List ℕ) → AllDenote s missing
      → (missing ≡ [] → Given s b m ds)
      → Ensures (Cached s) (visit next b e todo cache s x ds missing)
  visit-Cached {l = l} d m ds [] left given =
      Ensures-bind (derive-Makes s b ds m lt (given refl) r) λ y h.
        let t = y.1 in
        Ensures-weaken (λ z k. (Grows-trans s t z.1 h.0 k.0, k.1))
          (works todo (add_entry e b y.0 cache) t (Ready-Grows s t h.0 r)
            (alphabet-Grows s t b h.0 lt)
            ((l, Denotes-Grows s t h.0 d, h.1), AreDerivatives-Grows s t cache.state_table h.0 all)
            (rest.0, DenotesAll-Grows s t h.0 rest.1))
  visit-Cached {l = l} d m ds (a ∷ more) left given =
      works _ cache s r lt all
        (left.0 ++ (l ∷ rest.0), DenotesAll-append s left.1 (one_denoted d rest.1))

  visit_top-Cached :
      {l : Lang}
      → Denotes s e l
      → (known : Option ℕ) → Ensures (Cached s) (visit_top next b e todo cache s known)
  visit_top-Cached d (some x) = works todo cache s r lt all rest
  visit_top-Cached d none =
      let read = get-Denotes s d in
      rw read.1 (
        Ensures-bind (map_args-Given s r cache.state_table all b read.2)
          λ m looked. visit-Cached d read.2 m.mapped m.missing looked.0 looked.1)

map_loop-Works : (fuel b : ℕ) → Works b (map_loop fuel b)
unfolding map_loop
map_loop-Works zero b [] cache s r lt all rest = returns (Grows-refl s r.valid, all)
map_loop-Works (suc fuel) b [] cache s r lt all rest = returns (Grows-refl s r.valid, all)
map_loop-Works zero b (e ∷ todo) cache s r lt all rest = panics
map_loop-Works (suc fuel) b (e ∷ todo) cache s r lt all ([], no_one) = elim no_one [ ]
map_loop-Works (suc fuel) b (e ∷ todo) cache s r lt all (l ∷ ls, one_denoted d ds) =
    visit_top-Cached b (map_loop fuel b) (map_loop-Works fuel b) e todo cache s r lt all (ls, ds) d
      (lookup_entry cache.state_table e b)

-- P
pub derivative-Denotes :
    (fuel : ℕ) (cache : DerivCache) (s : ExprSet) (e b : ℕ) (l : Lang)
    → Ready s
    → AreDerivatives s cache.state_table
    → Denotes s e l
    → b < alphabet s
    → Ensures
        (λ x. Denotes x.2 x.0 (after_byte b l) × Grows s x.2 × AreDerivatives x.2 x.1.state_table)
        (derivative fuel cache s e b)
unfolding derivative
derivative-Denotes fuel cache s e b l r all d lt =
    Ensures-bind
      (map_loop-Works fuel b (e ∷ []) cache s r lt all (l ∷ [], one_denoted d none_denoted))
      λ x k.
        Ensures-bind (lookup_entry-Denotes x.1 x.0.state_table e b k.1 (Denotes-Grows s x.1 k.0 d))
          λ y h. returns (h, k.0, k.1)
