-- ===== src/Derivre/Denotes/Laws.antt =====
-- An expression stands for one language, and for the same one in a set that has grown.
use mathlib.Core.Path.{subst}
use aici.Prelude.{ℕ, ◌≡◌, refl, sym, ◌∙◌, ap, List}
use aici.Derivre.Ast.{Expr, ExprSet}
use aici.Derivre.Ast.Encode.{words}
use aici.Derivre.Ast.Overflow.{Grows}
use aici.Derivre.Language.{Lang, cat_all, any_of, all_of, outside, first_match}
use aici.Derivre.Language.Rep.{rep}
use aici.Derivre.Denotes.{
  Denotes, Means, DenotesAll, node, means_empty, means_nothing, means_byte, means_set, means_ahead,
  means_not, means_repeat, means_concat, means_or, means_and, none_denoted, one_denoted, alphabet,
}
use aici.Derivre.Denotes.Nodes.{words-cancel}

mutual
  pub Denotes-same : (s : ExprSet) (id : ℕ) (l m : Lang) → Denotes s id l → Denotes s id m → l ≡ m
  Denotes-same s id l m (node e st w n d) (node e' st' w' n' d') =
      let words_same : words e' ≡ words e = cc (st, st') in
      let same : e' ≡ e = words-cancel e' e w' w words_same in
      Means-same s e l m d (subst (λ x. Means s x m) same d')

  Means-same : (s : ExprSet) (e : Expr) (l m : Lang) → Means s e l → Means s e m → l ≡ m
  Means-same s e l m (means_empty p) (means_empty q) = p ∙ sym q
  Means-same s e l m (means_nothing p) (means_nothing q) = p ∙ sym q
  Means-same s e l m (means_byte b r p) (means_byte _ r' q) = p ∙ sym q
  Means-same s e l m (means_set bs r p) (means_set _ r' q) = p ∙ sym q
  Means-same s e l m (means_ahead _ e2 _ k d t p) (means_ahead _ _ _ k' d' t' q) =
      p ∙ ap first_match (Denotes-same s e2 k k' d d') ∙ sym q
  Means-same s e l m (means_not _ e2 k d p) (means_not _ _ k' d' q) =
      p ∙ ap (outside (alphabet s)) (Denotes-same s e2 k k' d d') ∙ sym q
  Means-same s e l m (means_repeat _ e2 lo hi k d o a b c p)
        (means_repeat _ _ _ _ k' d' o' a' b' c' q) =
      p ∙ ap (λ x. rep x lo hi) (Denotes-same s e2 k k' d d') ∙ sym q
  Means-same s e l m (means_concat _ es ks d p) (means_concat _ _ ks' d' q) =
      p ∙ ap cat_all (DenotesAll-same s es ks ks' d d') ∙ sym q
  Means-same s e l m (means_or _ es ks d p) (means_or _ _ ks' d' q) =
      p ∙ ap any_of (DenotesAll-same s es ks ks' d d') ∙ sym q
  Means-same s e l m (means_and _ es ks d p) (means_and _ _ ks' d' q) =
      p ∙ ap (all_of (alphabet s)) (DenotesAll-same s es ks ks' d d') ∙ sym q

  pub DenotesAll-same :
      (s : ExprSet) (es : List ℕ) (ls ms : List Lang)
      → DenotesAll s es ls
      → DenotesAll s es ms
      → ls ≡ ms
  DenotesAll-same s es ls ms none_denoted none_denoted = refl
  DenotesAll-same s es ls ms (one_denoted {e} {l} {es = fs} {ls = ks} d ds)
        (one_denoted {l = m} {ls = ns} d' ds') =
      cc (Denotes-same s e l m d d', DenotesAll-same s fs ks ns ds ds')

mutual
  pub Denotes-Grows :
      (s t : ExprSet) {id : ℕ} {l : Lang} → Grows s t → Denotes s id l → Denotes t id l
  Denotes-Grows s t {id = id} g (node e st w n d) =
      node e (g.keeps_words id (words e) st) w n (Means-Grows s t g d)

  pub Means-Grows : (s t : ExprSet) {e : Expr} {l : Lang} → Grows s t → Means s e l → Means t e l
  Means-Grows s t g (means_empty p) = means_empty p
  Means-Grows s t g (means_nothing p) = means_nothing p
  Means-Grows s t g (means_byte b lt p) = means_byte b (rw g.same_words lt) p
  Means-Grows s t g (means_set bs len p) = means_set bs (len ∙ sym g.same_words) p
  Means-Grows s t g (means_ahead f e n m d c p) = means_ahead f e n m (Denotes-Grows s t g d) c p
  Means-Grows s t g (means_not f e m d p) =
      means_not f e m (Denotes-Grows s t g d) (rw g.same_words p)
  Means-Grows s t g (means_repeat f e lo hi m d o a b c p) =
      means_repeat f e lo hi m (Denotes-Grows s t g d) o a b c p
  Means-Grows s t g (means_concat f es ms ds p) = means_concat f es ms (DenotesAll-Grows s t g ds) p
  Means-Grows s t g (means_or f es ms ds p) = means_or f es ms (DenotesAll-Grows s t g ds) p
  Means-Grows s t g (means_and f es ms ds p) =
      means_and f es ms (DenotesAll-Grows s t g ds) (rw g.same_words p)

  pub DenotesAll-Grows :
      (s t : ExprSet) {es : List ℕ} {ls : List Lang}
      → Grows s t
      → DenotesAll s es ls
      → DenotesAll t es ls
  DenotesAll-Grows s t g none_denoted = none_denoted
  DenotesAll-Grows s t g (one_denoted d ds) =
      one_denoted (Denotes-Grows s t g d) (DenotesAll-Grows s t g ds)
