-- ===== src/Derivre/Sound/Or/Lookaheads.antt =====
-- The lookaheads that `mk_or` of controllers/derivre/src/simplify.rs joins.
use mathlib.Core.Path.{fun_ext, subst}
use aici.Prelude.{
  ℕ, ◌≡◌, refl, sym, ◌∙◌, ap, arith, ◌==◌, ltb, true, Bool-cases, inl, inr, List, [], ◌∷◌, ◌++◌,
}
use aici.Prelude.Results.{Ensures, returns, Ensures-bind, Ensures-if}
use aici.Derivre.Ast.{Expr, ExprSet}
use aici.Derivre.Simplify.Union.{
  Ahead, lookahead_parts, split_ahead, retain_ahead, before, insert_ahead, sort_ahead, first_ahead,
  join_ahead,
}
use aici.Derivre.Language.{Lang, nothing, either, any_of, first_match}
use aici.Derivre.Denotes.{
  Denotes, DenotesAll, Means, Ready, none_denoted, one_denoted, means_empty, means_nothing,
  means_byte, means_set, means_ahead, means_not, means_repeat, means_concat, means_or, means_and,
}
use aici.Derivre.Denotes.Laws.{Denotes-same}
use aici.Derivre.Denotes.Base.{Denotes-ref}
use aici.Derivre.Sound.Flatten.{DenotesAll-append}
use aici.Derivre.Sound.Sort.{sort_ids-DenotesAll}
use aici.Derivre.Sound.Or.{any_of-append, get-Denotes, swap_either}

pub data AheadAll (s : ExprSet) : List Ahead → List Lang → Type 0 where
  none_ahead : AheadAll s [] []
  one_ahead :
      {a : Ahead} {m : Lang} {as' : List Ahead} {ms : List Lang}
      → Denotes s a.whole (first_match m)
      → Denotes s a.inner m
      → AheadAll s as' ms
      → AheadAll s (a ∷ as') (first_match m ∷ ms)

module _ (s : ExprSet) (r : Ready s) where
  abbrev pub Apart : List Lang → List ℕ × List Ahead → Type 0
  Apart ls x =
      (ks : List Lang) × (ms : List Lang) × DenotesAll s x.0 ks
      × AheadAll s x.1 ms
      × (any_of ls ≡ either (any_of ks) (any_of ms))

  stays :
      {e : ℕ} {l : Lang} (ls : List Lang)
      → Denotes s e l
      → (y : List ℕ × List Ahead) → Apart ls y
      → Apart (l ∷ ls) (e ∷ y.0, y.1)
  stays {l = l} ls d y q = (
    l ∷ q.0,
    q.1,
    one_denoted d q.2,
    q.3,
    fun_ext λ w. let h = ap (λ k. k w) q.4 in ground (arith, h),
  )

  split_ahead-Apart :
      {e : ℕ} {l : Lang} {x : Expr} (ls : List Lang)
      → Denotes s e l
      → Means s x l
      → (y : List ℕ × List Ahead) → Apart ls y
      → Apart (l ∷ ls) (split_ahead e (lookahead_parts x) y)
  split_ahead-Apart {e} ls d (means_ahead f e2 k m d2 t p) y q = (
    q.0,
    first_match m ∷ q.1,
    q.2,
    one_ahead {a = record { whole = e; inner = e2; offset = k }} (subst (λ l. Denotes s e l) p d) d2
        q.3,
    fun_ext λ w. let h = ap (λ l. l w) q.4 in let i = ap (λ l. l w) p in ground (arith, h, i),
  )
  split_ahead-Apart ls d (means_empty p) y q = stays ls d y q
  split_ahead-Apart ls d (means_nothing p) y q = stays ls d y q
  split_ahead-Apart ls d (means_byte b lt p) y q = stays ls d y q
  split_ahead-Apart ls d (means_set bs len p) y q = stays ls d y q
  split_ahead-Apart ls d (means_not f e2 m d2 p) y q = stays ls d y q
  split_ahead-Apart ls d (means_repeat f e2 lo hi m d2 o a b c p) y q = stays ls d y q
  split_ahead-Apart ls d (means_concat f es ks ds p) y q = stays ls d y q
  split_ahead-Apart ls d (means_or f es ks ds p) y q = stays ls d y q
  split_ahead-Apart ls d (means_and f es ks ds p) y q = stays ls d y q

  retain_ahead-Apart :
      {es : List ℕ} {ls : List Lang} → DenotesAll s es ls → Ensures (Apart ls) (retain_ahead s es)
  unfolding retain_ahead
  retain_ahead-Apart none_denoted = returns ([], [], none_denoted, none_ahead, refl)
  retain_ahead-Apart (one_denoted {e} {l} {es} {ls} d ds) =
      let read = get-Denotes s d in
      rw read.1
        (Ensures-bind (retain_ahead-Apart ds) λ y k. returns (split_ahead-Apart ls d read.2 y k))

  insert_ahead-AheadAll :
      (a : Ahead) {m : Lang} {as' : List Ahead} {ms : List Lang}
      → Denotes s a.whole (first_match m)
      → Denotes s a.inner m
      → AheadAll s as' ms
      → (ks : List Lang) × AheadAll s (insert_ahead a as') ks
        × (any_of ks ≡ any_of (first_match m ∷ ms))
  insert_ahead-AheadAll a {m} d i none_ahead =
      (first_match m ∷ [], one_ahead {a = a} d i none_ahead, refl)
  insert_ahead-AheadAll a {m} d i (one_ahead {a = x} {m = m2} {as'} {ms} d2 i2 ds) =
      let rest = insert_ahead-AheadAll a d i ds in
      elim (Bool-cases (before x a)) [
        | inl less ↦ rw less (
          first_match m2 ∷ rest.0,
          one_ahead d2 i2 rest.1,
          ap (either (first_match m2)) rest.2
              ∙ swap_either (first_match m2) (first_match m) (any_of ms),
        )
        | inr more ↦
            rw more (first_match m ∷ first_match m2 ∷ ms, one_ahead d i (one_ahead d2 i2 ds), refl)
      ]

  sort_ahead-AheadAll :
      {as' : List Ahead} {ms : List Lang}
      → AheadAll s as' ms
      → (ks : List Lang) × AheadAll s (sort_ahead as') ks × (any_of ks ≡ any_of ms)
  sort_ahead-AheadAll none_ahead = ([], none_ahead, refl)
  sort_ahead-AheadAll (one_ahead {a} {m = m} {ms = ms} d i ds) =
      let rest = sort_ahead-AheadAll ds in
      let put = insert_ahead-AheadAll a d i rest.1 in
      (put.0, put.1, put.2 ∙ ap (either (first_match m)) rest.2)

  -- What a lookahead at the expression before it adds is there.
  abbrev pub Had : ℕ → Lang → Type 0
  Had prev p = (m : Lang) → Denotes s prev m → (w : List ℕ) → first_match m w ≡ true → p w ≡ true

  first_ahead-DenotesAll :
      (prev : ℕ) (p : Lang) {as' : List Ahead} {ms : List Lang}
      → Had prev p
      → AheadAll s as' ms
      → (ks : List Lang) × DenotesAll s (first_ahead prev as') ks
        × (either p (any_of ms) ≡ either p (any_of ks))
  first_ahead-DenotesAll prev p had none_ahead = ([], none_denoted, refl)
  first_ahead-DenotesAll prev p had (one_ahead {a} {m} {as'} {ms} d i ds) =
      elim (Bool-cases (a.inner == prev)) [
        | inl again ↦
            let at_prev : a.inner ≡ prev = ground arith in
            let rest = first_ahead-DenotesAll prev p had ds in
            let covered = had m (subst (λ j. Denotes s j m) at_prev i) in
            rw again (
              rest.0,
              rest.1,
              fun_ext
                  λ w. let h = ap (λ k. k w) rest.2 in let c = covered w in ground (arith, h, c),
            )
        | inr new_one ↦
            let rest = first_ahead-DenotesAll a.inner (first_match m) (own m i) ds in
            rw new_one (
              first_match m ∷ rest.0,
              one_denoted d rest.1,
              fun_ext λ w. let h = ap (λ k. k w) rest.2 in ground (arith, h),
            )
      ]
    where
      own : (m : Lang) {j : ℕ} → Denotes s j m → Had j (first_match m)
      own m {j} i m2 i2 w e =
          let same = Denotes-same s j m2 m i2 i in subst (λ k. first_match k w ≡ true) same e

  pub join_ahead-DenotesAll :
      (num_lookahead : ℕ) {es : List ℕ} {ls : List Lang}
      → DenotesAll s es ls
      → Ensures
          (λ fs. (ks : List Lang) × DenotesAll s fs ks × (any_of ks ≡ any_of ls))
          (join_ahead s num_lookahead es)
  join_ahead-DenotesAll num_lookahead {es} {ls} ds =
      Ensures-if (ltb 1 num_lookahead)
        (λ _. Ensures-bind (retain_ahead-Apart ds) λ y q.
          let sorted = sort_ahead-AheadAll q.3 in
          let firsts = first_ahead-DenotesAll 0 nothing no_zero sorted.1 in
          let all =
            sort_ids-DenotesAll s any_of either (λ l ls. refl) swap_either
              (DenotesAll-append s q.2 firsts.1) in
          returns (all.0, all.1, all.2 ∙ together q.0 firsts.0 q.1 sorted.0 q.4 sorted.2 firsts.2))
        λ _. returns (ls, ds, refl)
    where
      no_zero : Had 0 nothing
      no_zero m d w e = absurd (Denotes-ref s r d refl)

      together :
          (ks fs ms ns : List Lang)
          → any_of ls ≡ either (any_of ks) (any_of ms)
          → any_of ns ≡ any_of ms
          → either nothing (any_of ns) ≡ either nothing (any_of fs)
          → any_of (ks ++ fs) ≡ any_of ls
      together ks fs ms ns p q r2 =
          any_of-append ks fs ∙ ap (either (any_of ks)) (sym r2 ∙ q) ∙ sym p
