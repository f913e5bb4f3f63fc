-- ===== src/Derivre/Sound/Rounds/Ends.antt =====
-- The loop of `map` in controllers/derivre/src/ast.rs, as the derivative calls it, comes to an end.
use aici.Prelude.{ℕ, ◌<◌, ◌≡◌, refl, Option, none, some, List, [], ◌∷◌, ◌++◌}
use aici.Prelude.Results.{Ensures, returns, Ensures-some}
use aici.Derivre.Ast.{Expr, ExprSet, nullable, get, args}
use aici.Derivre.Ast.Overflow.{Grows}
use aici.Derivre.Simplify.Grows.{Grows-refl, Grows-trans}
use aici.Derivre.Deriv.{
  DerivCache, lookup_entry, is_concat, Mapped, map_args, derive, add_entry, visit_top,
}
use aici.Derivre.Language.{Lang, after_byte}
use aici.Derivre.Denotes.{
  Denotes, DenotesAll, Means, Ready, node, none_denoted, one_denoted, means_empty, means_nothing,
  means_byte, means_set, means_ahead, means_not, means_repeat, means_concat, means_or, means_and,
  alphabet,
}
use aici.Derivre.HashCons.{get as get_vec}
use aici.Derivre.Ast.Encode.{IsWellFormed, words}
use aici.Derivre.Denotes.Nodes.{get-stored}
use aici.Derivre.Simplify.{Made}
use aici.Derivre.Sound.{Holds}
use aici.Derivre.Denotes.Laws.{Denotes-Grows, DenotesAll-Grows, Means-Grows}
use aici.Derivre.Sound.Derive.{derive-Makes}
use aici.Derivre.Sound.Derivative.{
  AreDerivatives, AreDerivatives-Grows, AllDenote, map_args-Given, alphabet-Grows,
}
use aici.Derivre.Denotes.Base.{Ready-Grows}
use aici.Derivre.Sound.Rounds.{
  Has, Extends, AllHave, Extends-add, Has-add, All, map_args-All, map_args-again,
}

-- The run of the loop from this work list, cache and set comes to a step of the derivative that
-- panics: it is the next one, on the expression on top, whose arguments have their derivatives, or
-- the next round goes on, whatever the rest of the loop is, from where the run comes to one.
pub data Panics (b : ℕ) : List ℕ → DerivCache → ExprSet → Type 0 where
  now :
      {e : ℕ} {todo : List ℕ} {cache : DerivCache} {s : ExprSet} (x : Expr) (m : Mapped)
      → lookup_entry cache.state_table e b ≡ none
      → get s e ≡ some x
      → map_args s cache.state_table b (is_concat x) (args x) ≡ some m
      → m.missing ≡ []
      → derive s b m.mapped x ≡ none
      → Panics b (e ∷ todo) cache s
  later :
      {e : ℕ} {todo todo' : List ℕ} {cache cache' : DerivCache} {s t : ExprSet}
      → ((next : List ℕ → DerivCache → ExprSet → Option (DerivCache × ExprSet))
          → visit_top next b e todo cache s (lookup_entry cache.state_table e b)
            ≡ next todo' cache' t)
      → Panics b todo' cache' t
      → Panics b (e ∷ todo) cache s

-- The loop comes to an end: the work is done, with the property, or a derivative panics.
pub data Halts (Q : DerivCache → Type 0) (b : ℕ) : List ℕ → DerivCache → ExprSet → Type 0 where
  work_done : {cache : DerivCache} {s : ExprSet} → Q cache → Halts Q b [] cache s
  was_there :
      {e : ℕ} {todo : List ℕ} {cache : DerivCache} {s : ExprSet}
      → Has cache.state_table e b
      → Halts Q b todo cache s
      → Halts Q b (e ∷ todo) cache s
  args_first :
      {e : ℕ} {todo : List ℕ} {cache : DerivCache} {s : ExprSet} (x : Expr) (m : Mapped) (a : ℕ)
      (more : List ℕ)
      → lookup_entry cache.state_table e b ≡ none
      → get s e ≡ some x
      → map_args s cache.state_table b (is_concat x) (args x) ≡ some m
      → m.missing ≡ a ∷ more
      → Halts Q b ((a ∷ more) ++ (e ∷ todo)) cache s
      → Halts Q b (e ∷ todo) cache s
  was_derived :
      {e : ℕ} {todo : List ℕ} {cache : DerivCache} {s : ExprSet} (x : Expr) (m : Mapped) (d : ℕ)
      (t : ExprSet)
      → lookup_entry cache.state_table e b ≡ none
      → get s e ≡ some x
      → map_args s cache.state_table b (is_concat x) (args x) ≡ some m
      → m.missing ≡ []
      → derive s b m.mapped x ≡ some (d, t)
      → Grows s t
      → Halts Q b todo (add_entry e b d cache) t
      → Halts Q b (e ∷ todo) cache s
  derive_panics :
      {e : ℕ} {todo : List ℕ} {cache : DerivCache} {s : ExprSet} (x : Expr) (m : Mapped)
      → lookup_entry cache.state_table e b ≡ none
      → get s e ≡ some x
      → map_args s cache.state_table b (is_concat x) (args x) ≡ some m
      → m.missing ≡ []
      → derive s b m.mapped x ≡ none
      → Halts Q b (e ∷ todo) cache s

module _ (Q : DerivCache → Type 0) where
  -- The cache is right for the set.
  abbrev pub Sound : ℕ → DerivCache → ExprSet → Type 0
  Sound b cache t = Ready t × (b < alphabet t) × AreDerivatives t cache.state_table

  -- What comes after an expression has its derivative.
  abbrev pub GoesOn : ℕ → List ℕ → List ℕ → DerivCache → ExprSet → Type 0
  GoesOn b es todo cache t =
      (t' : ExprSet) (cache' : DerivCache)
      → Grows t t'
      → Sound b cache' t'
      → Extends cache.state_table cache'.state_table
      → AllHave cache'.state_table b es
      → Halts Q b todo cache' t'

  -- From any set that has grown, the loop gets over the expression.
  abbrev pub GetsOver : ℕ → ExprSet → ℕ → Type 0
  GetsOver b s e =
      (t : ExprSet) (cache : DerivCache) (todo : List ℕ)
      → Grows s t
      → Sound b cache t
      → GoesOn b (e ∷ []) todo cache t
      → Halts Q b (e ∷ todo) cache t

  All-GetsOver :
      (b : ℕ) (s : ExprSet) (es : List ℕ)
      → All (GetsOver b s) es
      → (t : ExprSet) (cache : DerivCache) (todo : List ℕ) → Grows s t
      → Sound b cache t
      → GoesOn b es todo cache t
      → Halts Q b (es ++ todo) cache t
  All-GetsOver b s [] all t cache todo g k next =
      next t cache (Grows-refl t k.0.valid) k (λ e c h. h) tt
  All-GetsOver b s (e ∷ es) all t cache todo g k next =
      all.0 t cache (es ++ todo) g k λ t1 cache1 g1 k1 x1 have1.
        All-GetsOver b s es all.1 t1 cache1 todo (Grows-trans s t t1 g g1) k1
          λ t2 cache2 g2 k2 x2 have2.
            next t2 cache2 (Grows-trans t t1 t2 g1 g2) k2 (λ e c h. x2 e c (x1 e c h))
              (x2 e b have1.0, have2)

  -- Where no argument is missing.
  derives :
      (b : ℕ) (t : ExprSet) (cache : DerivCache) (todo : List ℕ) {e : ℕ} {x : Expr} {l : Lang}
      → Sound b cache t
      → Denotes t e l
      → lookup_entry cache.state_table e b ≡ none
      → get t e ≡ some x
      → (d : Means t x l) (m : Mapped)
      → map_args t cache.state_table b (is_concat x) (args x) ≡ some m
      → m.missing ≡ []
      → GoesOn b (e ∷ []) todo cache t
      → Halts Q b (e ∷ todo) cache t
  derives b t cache todo {e} {x} {l} k de absent read d m mapped blank next =
      let looked = Ensures-some (map_args-Given t k.0 cache.state_table k.2 b d) mapped in
      by_result (derive t b m.mapped x) refl (derive-Makes t b m.mapped d k.1 (looked.1 blank) k.0)
    where
      by_result :
          (y : Made)
          → derive t b m.mapped x ≡ y
          → Ensures (Holds t (after_byte b l)) y
          → Halts Q b (e ∷ todo) cache t
      by_result none stuck h = derive_panics x m absent read mapped blank stuck
      by_result (some (d', t1)) made (returns h) =
          was_derived x m d' t1 absent read mapped blank made h.0 (
            next t1 (add_entry e b d' cache) h.0
              (
                Ready-Grows t t1 h.0 k.0,
                alphabet-Grows t t1 b h.0 k.1,
                (
                  (l, Denotes-Grows t t1 h.0 de, h.1),
                  AreDerivatives-Grows t t1 cache.state_table h.0 k.2,
                ),
              )
              (Extends-add e b d' cache) (Has-add e b d' cache, tt))

  args_denoted : (s : ExprSet) {x : Expr} {l : Lang} → Means s x l → AllDenote s (args x)
  args_denoted s (means_empty p) = ([], none_denoted)
  args_denoted s (means_nothing p) = ([], none_denoted)
  args_denoted s (means_byte c lt p) = ([], none_denoted)
  args_denoted s (means_set bs len p) = ([], none_denoted)
  args_denoted s (means_ahead f e n m d t p) = (m ∷ [], one_denoted d none_denoted)
  args_denoted s (means_not f e m d p) = (m ∷ [], one_denoted d none_denoted)
  args_denoted s (means_repeat f e lo hi m d o x y z p) = (m ∷ [], one_denoted d none_denoted)
  args_denoted s (means_concat f es ms ds p) = (ms, ds)
  args_denoted s (means_or f es ms ds p) = (ms, ds)
  args_denoted s (means_and f es ms ds p) = (ms, ds)

  -- Behind the arguments, the expression itself.
  revisit :
      (b : ℕ) (s t : ExprSet) (cache : DerivCache) (todo : List ℕ) {e : ℕ} {x : Expr} {l : Lang}
      → get_vec s.exprs e ≡ some (words x)
      → IsWellFormed x
      → nullable x ≡ l []
      → (d : Means s x l) → Grows s t
      → Sound b cache t
      → (m : Mapped) → map_args t cache.state_table b (is_concat x) (args x) ≡ some m
      → (t' : ExprSet) (cache' : DerivCache) → Grows t t'
      → Sound b cache' t'
      → Extends cache.state_table cache'.state_table
      → AllHave cache'.state_table b m.missing
      → GoesOn b (e ∷ []) todo cache' t'
      → Halts Q b (e ∷ todo) cache' t'
  revisit b s t cache todo {e} {x} {l} st w n d g k m mapped t' cache' g' k' x' have next =
      let far = Grows-trans s t t' g g' in
      let here = Means-Grows s t g d in
      let there = Means-Grows s t' far d in
      let stored = far.keeps_words e (words x) st in
      let args_now = args_denoted t here in
      let again =
        map_args-again t t' k.0 k'.0 cache.state_table cache'.state_table b (is_concat x) args_now.1
          (DenotesAll-Grows t t' g' args_now.1) x' m mapped have in
      by_entry (lookup_entry cache'.state_table e b) refl there stored again
    where
      by_entry :
          (y : Option ℕ)
          → lookup_entry cache'.state_table e b ≡ y
          → Means t' x l
          → get_vec t'.exprs e ≡ some (words x)
          → (m' : Mapped) × (map_args t' cache'.state_table b (is_concat x) (args x) ≡ some m')
            × (m'.missing ≡ [])
          → Halts Q b (e ∷ todo) cache' t'
      by_entry (some dd) hit there stored again =
          was_there (dd, hit)
            (next t' cache' (Grows-refl t' k'.0.valid) k' (λ e c h. h) ((dd, hit), tt))
      by_entry none absent there stored again =
          derives b t' cache' todo k' (node x stored w n there) absent (get-stored t' e x stored w)
            there again.0 again.1 again.2 next

  mutual
    pub Denotes-GetsOver : (b : ℕ) (s : ExprSet) {e : ℕ} {l : Lang} → Denotes s e l → GetsOver b s e
    Denotes-GetsOver b s {e} {l} (node x st w n d) t cache todo g k next =
        let there = Means-Grows s t g d in
        let stored = g.keeps_words e (words x) st in
        let found_args =
          map_args-All t k.0 cache.state_table b (is_concat x) (GetsOver b s)
            (args_denoted t there).1 (Means-GetsOver b s d) in
        by_entry (lookup_entry cache.state_table e b) refl there stored found_args.0 found_args.1
          found_args.2
      where
        by_missing :
            (m : Mapped) (ms : List ℕ)
            → m.missing ≡ ms
            → lookup_entry cache.state_table e b ≡ none
            → Means t x l
            → get_vec t.exprs e ≡ some (words x)
            → map_args t cache.state_table b (is_concat x) (args x) ≡ some m
            → All (GetsOver b s) ms
            → Halts Q b (e ∷ todo) cache t
        by_missing m [] blank absent there stored mapped all =
            derives b t cache todo k (node x stored w n there) absent (get-stored t e x stored w)
              there m mapped blank next
        by_missing m (a ∷ more) some_missing absent there stored mapped all =
            args_first x m a more absent (get-stored t e x stored w) mapped some_missing (
              All-GetsOver b s (a ∷ more) all t cache (e ∷ todo) g k λ t' cache' g' k' x' have.
                revisit b s t cache todo st w n d g k m mapped t' cache' g' k' x'
                  (rw some_missing have)
                  λ t2 cache2 g2 k2 x2 have2.
                    next t2 cache2 (Grows-trans t t' t2 g' g2) k2 (λ i c h. x2 i c (x' i c h))
                      have2)

        by_entry :
            (y : Option ℕ)
            → lookup_entry cache.state_table e b ≡ y
            → Means t x l
            → get_vec t.exprs e ≡ some (words x)
            → (m : Mapped) → map_args t cache.state_table b (is_concat x) (args x) ≡ some m
            → All (GetsOver b s) m.missing
            → Halts Q b (e ∷ todo) cache t
        by_entry (some dd) hit there stored m mapped all =
            was_there (dd, hit)
              (next t cache (Grows-refl t k.0.valid) k (λ i c h. h) ((dd, hit), tt))
        by_entry none absent there stored m mapped all =
            by_missing m m.missing refl absent there stored mapped all

    Means-GetsOver :
        (b : ℕ) (s : ExprSet) {x : Expr} {l : Lang} → Means s x l → All (GetsOver b s) (args x)
    Means-GetsOver b s (means_empty p) = tt
    Means-GetsOver b s (means_nothing p) = tt
    Means-GetsOver b s (means_byte c lt p) = tt
    Means-GetsOver b s (means_set bs len p) = tt
    Means-GetsOver b s (means_ahead f e n m d t p) = (Denotes-GetsOver b s d, tt)
    Means-GetsOver b s (means_not f e m d p) = (Denotes-GetsOver b s d, tt)
    Means-GetsOver b s (means_repeat f e lo hi m d o x y z p) = (Denotes-GetsOver b s d, tt)
    Means-GetsOver b s (means_concat f es ms ds p) = DenotesAll-GetsOver b s ds
    Means-GetsOver b s (means_or f es ms ds p) = DenotesAll-GetsOver b s ds
    Means-GetsOver b s (means_and f es ms ds p) = DenotesAll-GetsOver b s ds

    DenotesAll-GetsOver :
        (b : ℕ) (s : ExprSet) {es : List ℕ} {ls : List Lang}
        → DenotesAll s es ls
        → All (GetsOver b s) es
    DenotesAll-GetsOver b s none_denoted = tt
    DenotesAll-GetsOver b s (one_denoted d ds) =
        (Denotes-GetsOver b s d, DenotesAll-GetsOver b s ds)
