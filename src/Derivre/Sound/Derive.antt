-- ===== src/Derivre/Sound/Derive.antt =====
-- One step of the derivative in controllers/derivre/src/deriv.rs, from the derivatives of the
-- arguments.
use mathlib.Core.Path.{subst}
use aici.Prelude.{
  ℕ, ◌-◌, ◌<◌, ◌≡◌, refl, sym, ◌∙◌, ap, arith, ◌==◌, Bool, true, false, Option, List, [], ◌∷◌,
  get_elem?, ◌>>=◌, if◌then◌else◌,
}
use aici.Prelude.Results.{Ensures, returns, Ensures-bind, Ensures-weaken, Ensures-self}
use aici.Derivre.Ast.{
  Expr, ExprSet, empty_string, no_match, byte, byte_set, empty_string_id, no_match_id,
  byteset_contains, matches_byte,
}
use aici.Derivre.Ast.Overflow.{Grows}
use aici.Derivre.Simplify.Grows.{Grows-refl, Grows-trans}
use aici.Derivre.Deriv.{concat_branches, matched, derive}
use aici.Derivre.Language.{Lang, nothing, eps, after_byte, cat, cat_all, any_of, first_match}
use aici.Derivre.Language.Cat.{cat-eps_right}
use aici.Derivre.Language.Rep.{rep}
use aici.Derivre.Language.Rep.Laws.{less_one, after_byte-rep}
use aici.Derivre.Denotes.{
  Denotes, DenotesAll, Means, Ready, none_denoted, one_denoted, means_empty, means_nothing,
  means_byte, means_set, means_ahead, means_not, means_repeat, means_concat, means_or, means_and,
  alphabet, in_set, holds,
}
use aici.Derivre.Denotes.Laws.{Denotes-Grows, DenotesAll-Grows}
use aici.Derivre.Denotes.Base.{Denotes-eps, Denotes-nothing, Denotes-is_nullable, Ready-Grows}
use aici.Derivre.Sound.{Makes, Makes-same, Makes-if}
use aici.Derivre.Sound.Simple.{mk_repeat-Makes, mk_not-Makes, mk_lookahead-Makes}
use aici.Derivre.Sound.Concat.{mk_concat-Makes, Denotes-unique}
use aici.Derivre.Sound.And.Result.{mk_and-Makes}
use aici.Derivre.Sound.Trie.{mk_or-Makes}
use aici.Derivre.Language.After.{
  after_all, after-any_of, after-all_of, after-outside, after-first_match, after-one_byte,
  last_branch, one_more_branch, less_one-le, less_one-lt, same_test, after_blank,
}

-- The derivatives up to the first argument that is not nullable.
pub data Branched (s : ExprSet) (b : ℕ) : List ℕ → List Lang → List ℕ → Type 0 where
  branched_end : Branched s b [] [] []
  branched_last :
      {e : ℕ} {l : Lang} {es : List ℕ} {ls : List Lang} {d : ℕ}
      → Denotes s e l
      → DenotesAll s es ls
      → l [] ≡ false
      → Denotes s d (after_byte b l)
      → Branched s b (e ∷ es) (l ∷ ls) (d ∷ [])
  branched_more :
      {e : ℕ} {l : Lang} {es : List ℕ} {ls : List Lang} {d : ℕ} {ds : List ℕ}
      → Denotes s e l
      → DenotesAll s es ls
      → l [] ≡ true
      → Denotes s d (after_byte b l)
      → Branched s b es ls ds
      → Branched s b (e ∷ es) (l ∷ ls) (d ∷ ds)

-- What the arguments of an expression have given.
abbrev pub Given : (s : ExprSet) (b : ℕ) {e : Expr} {l : Lang} → Means s e l → List ℕ → Type 0
Given s b (means_empty p) ds = Unit
Given s b (means_nothing p) ds = Unit
Given s b (means_byte c lt p) ds = Unit
Given s b (means_set bs len p) ds = Unit
Given s b (means_ahead f e n m d t p) ds = DenotesAll s ds (after_byte b m ∷ [])
Given s b (means_not f e m d p) ds = DenotesAll s ds (after_byte b m ∷ [])
Given s b (means_repeat f e lo hi m d o x y z p) ds = DenotesAll s ds (after_byte b m ∷ [])
Given s b (means_concat f es ms as' p) ds = Branched s b es ms ds
Given s b (means_or f es ms as' p) ds = DenotesAll s ds (after_all b ms)
Given s b (means_and f es ms as' p) ds = DenotesAll s ds (after_all b ms)

matched-Makes :
    (s : ExprSet) (e : Expr) (b : ℕ) (l : Lang)
    → Ensures (λ c. l ≡ (if c then eps else nothing)) (matches_byte e b)
    → Makes s l (matched s e b)
matched-Makes s e b l h r = Ensures-bind h λ c same. Makes-same s l _ (rw same (at c)) r
  where
    at :
        (c : Bool)
        → Denotes s (if c then empty_string_id else no_match_id) (if c then eps else nothing)
    at true = Denotes-eps s r
    at false = Denotes-nothing s r

Branched-Grows :
    (s t : ExprSet) {b : ℕ} {es : List ℕ} {ls : List Lang} {ds : List ℕ}
    → Grows s t
    → Branched s b es ls ds
    → Branched t b es ls ds
Branched-Grows s t g branched_end = branched_end
Branched-Grows s t g (branched_last d as' n k) =
    branched_last (Denotes-Grows s t g d) (DenotesAll-Grows s t g as') n (Denotes-Grows s t g k)
Branched-Grows s t g (branched_more d as' n k rest) =
    branched_more (Denotes-Grows s t g d) (DenotesAll-Grows s t g as') n (Denotes-Grows s t g k)
      (Branched-Grows s t g rest)

concat_branches-HoldAll :
    (b : ℕ) (es : List ℕ) (s : ExprSet) {ls : List Lang} {ds : List ℕ}
    → Ready s
    → Branched s b es ls ds
    → Ensures
        (λ x.
          Grows s x.1
          × ((ks : List Lang) × DenotesAll x.1 x.0 ks × (any_of ks ≡ after_byte b (cat_all ls))))
        (concat_branches s es ds)
unfolding concat_branches
concat_branches-HoldAll b [] s r branched_end =
    returns (Grows-refl s r.valid, ([], none_denoted, refl))
concat_branches-HoldAll b (e ∷ es) s r (branched_last {l} {ls} de as' n k) =
    rw (Denotes-is_nullable s r de, n)
      (Ensures-bind (mk_concat-Makes s (one_denoted k as') r) λ x h. returns (
        h.0,
        (
          cat_all (after_byte b l ∷ ls) ∷ [],
          one_denoted h.1 none_denoted,
          last_branch b l (cat_all ls) n,
        ),
      ))
concat_branches-HoldAll b (e ∷ es) s r (branched_more {l} {ls} {ds} de as' n k rest) =
    rw (Denotes-is_nullable s r de, n)
      (Ensures-bind (mk_concat-Makes s (one_denoted k as') r) λ x h.
        Ensures-bind
          (concat_branches-HoldAll b es x.1 (Ready-Grows s x.1 h.0 r)
            (Branched-Grows s x.1 h.0 rest))
          λ y q. returns (
            Grows-trans s x.1 y.1 h.0 q.0,
            (
              cat_all (after_byte b l ∷ ls) ∷ q.1.0,
              one_denoted (Denotes-Grows x.1 y.1 q.0 h.1) q.1.1,
              one_more_branch b l (cat_all ls) q.1.0 n q.1.2,
            ),
          ))

-- Of one argument.
given_one :
    (s : ExprSet) {ds : List ℕ} {l : Lang} {A : Type 0}
    → DenotesAll s ds (l ∷ [])
    → (f : ℕ → Option A) (P : A → Type 0) → ((d : ℕ) → Denotes s d l → Ensures P (f d))
    → Ensures P (get_elem? ds 0 >>= f)
given_one s (one_denoted {e} d rest) f P h = h e d

pub derive-Makes :
    (s : ExprSet) (b : ℕ) (ds : List ℕ) {e : Expr} {l : Lang} (m : Means s e l)
    → b < alphabet s
    → Given s b m ds
    → Makes s (after_byte b l) (derive s b ds e)
unfolding derive
derive-Makes s b ds {l} (means_empty p) lt given r =
    rw p (matched-Makes s empty_string b (after_byte b eps) (returns refl) r)
derive-Makes s b ds {l} (means_nothing p) lt given r =
    rw p (matched-Makes s no_match b (after_byte b nothing) (returns refl) r)
derive-Makes s b ds {l} (means_byte c inside p) lt given r = rw p (
    matched-Makes s (byte c) b _
      (returns
        (after-one_byte b (λ x. c == x) ∙ ap (λ x. if x then eps else nothing) (same_test c b)))
      r)
derive-Makes s b ds {l} (means_set bs len p) lt given r = rw p (
    matched-Makes s (byte_set bs) b _
      (Ensures-weaken
        (λ c got. after-one_byte b (in_set bs) ∙ ap (λ x. if holds x then eps else nothing) got)
        (Ensures-self (byteset_contains bs b)))
      r)
derive-Makes s b ds {l} (means_ahead f e n m d t p) lt given r =
    Makes-if s (after_byte b l) (e == empty_string_id)
      (λ at_id r.
        let same : l ≡ first_match eps =
          p ∙ ap first_match (Denotes-unique s r d (Denotes-eps s r) at_id) in
        Makes-same s _ 2 (rw (same, after_blank b) (Denotes-nothing s r)) r)
      (λ other r. given_one s given _ _ λ dd k.
        let not_blank : m [] ≡ false = later_blank (m []) other t in
        rw (p, after-first_match b m not_blank) (mk_lookahead-Makes s k _ r))
      r
  where
    later_blank : (c : Bool) → (e == empty_string_id) ≡ false → (c ≡ true → e ≡ 1) → c ≡ false
    later_blank true other t = let at_one = t refl in ground (arith, other, at_one)
    later_blank false other t = refl
derive-Makes s b ds {l} (means_not f e m d p) lt given r =
    given_one s given _ _ λ dd k. rw (p, after-outside (alphabet s) b m lt) (mk_not-Makes s k r)
derive-Makes s b ds {l} (means_repeat f e lo hi m d o x y z p) lt given r =
    Ensures-bind
      (mk_repeat-Makes s d (lo - 1) (less_one hi) (less_one-le lo hi o y) (less_one-lt hi y) r)
      λ tail h. given_one s given _ _ λ dd k.
        let r1 = Ready-Grows s tail.1 h.0 r in
        let both_args = one_denoted (Denotes-Grows s tail.1 h.0 k) (one_denoted h.1 none_denoted) in
        let rest = rep m (lo - 1) (less_one hi) in
        let same : cat_all (after_byte b m ∷ rest ∷ []) ≡ after_byte b l =
          ap (cat (after_byte b m)) (cat-eps_right rest)
          ∙ sym (after_byte-rep m lo hi b x y z)
          ∙ sym (ap (after_byte b) p) in
        Ensures-weaken
          (λ u c. (Grows-trans s tail.1 u.1 h.0 c.0, subst (λ q. Denotes u.1 u.0 q) same c.1))
          (mk_concat-Makes tail.1 both_args r1)
derive-Makes s b ds {l} (means_concat f es ms as' p) lt given r =
    Ensures-bind (concat_branches-HoldAll b es s r given) λ x h.
      Ensures-weaken
        (λ u c. (
          Grows-trans s x.1 u.1 h.0 c.0,
          subst (λ q. Denotes u.1 u.0 q) (h.1.2 ∙ sym (ap (after_byte b) p)) c.1,
        ))
        (mk_or-Makes x.1 h.1.1 (Ready-Grows s x.1 h.0 r))
derive-Makes s b ds {l} (means_or f es ms as' p) lt given r =
    rw (p, after-any_of b ms) (mk_or-Makes s given r)
derive-Makes s b ds {l} (means_and f es ms as' p) lt given r =
    rw (p, after-all_of (alphabet s) b ms lt) (mk_and-Makes s given r)
