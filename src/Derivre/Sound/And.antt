-- ===== src/Derivre/Sound/And.antt =====
-- What the loop of `mk_and` of controllers/derivre/src/simplify.rs keeps.
pub mod Result
use mathlib.Core.Path.{fun_ext, subst}
use aici.Prelude.{
  ℕ, ◌≡◌, ◌≢◌, refl, sym, ◌∙◌, ap, arith, ◌==◌, Bool, true, false, not, ◌&&◌, ◌||◌, Bool-cases, ◌⊎◌,
  inl, inr, Option, none, some, List, [], ◌∷◌, ◌++◌, length, ◌>>=◌, if◌then◌else◌,
}
use aici.Prelude.Results.{Ensures, returns, Ensures-bind, Ensures-weaken, Ensures-if}
use aici.Derivre.Ast.{
  Expr, ExprSet, ExprTag, and_of, and_tag, args, from_nullable, empty_string_id, no_match_id,
  any_string_id, is_nullable,
}
use aici.Derivre.Simplify.{
  pay, same_tag, flatten_tag, sort_ids, AndScan, keep_arg, scan_and, and_kept, and_scanned, mk_and,
}
use aici.Derivre.Language.{Lang, nothing, eps, letters, all_of}
use aici.Derivre.Language.Cat.{bool_ext}
use aici.Derivre.Denotes.{
  Denotes, DenotesAll, Means, Ready, node, none_denoted, one_denoted, means_empty, means_nothing,
  means_byte, means_set, means_ahead, means_not, means_repeat, means_concat, means_or, means_and,
  alphabet,
}
use aici.Derivre.Denotes.Nodes.{tag_of}
use aici.Derivre.Denotes.Laws.{DenotesAll-Grows}
use aici.Derivre.Denotes.Within.{Within, all_of-Within, Denotes-Within}
use aici.Derivre.Denotes.Base.{Denotes-eps, Denotes-nothing, Denotes-letters, Denotes-is_nullable}
use aici.Derivre.Sound.{
  Makes, Makes-same, Makes-if, Makes-new, Makes-from, from_nullable-AreFlags, is_nullable_flag-from,
}
use aici.Derivre.Sound.Concat.{Denotes-unique}
use aici.Derivre.Sound.Flatten.{Joins, flatten_tag-Flat}
use aici.Derivre.Sound.Sort.{sort_ids-DenotesAll}

abbrev pub both : Lang → Lang → Lang
both l m w = l w && m w

all_of-append : (n : ℕ) (ls ms : List Lang) → all_of n (ls ++ ms) ≡ both (all_of n ls) (all_of n ms)
all_of-append n [] ms = fun_ext λ w. let h = all_of-Within n ms w in ground (arith, h)
all_of-append n (l ∷ ls) ms =
    fun_ext λ w. let h = ap (λ k. k w) (all_of-append n ls ms) in ground (arith, h)

pub and-Joins : (s : ExprSet) → Joins s and_tag (all_of (alphabet s)) both
and-Joins s = record { cons = λ l ls. refl; append = all_of-append (alphabet s); inverts = invert }
  where
    invert :
        (e : Expr) (l : Lang)
        → Means s e l
        → same_tag (tag_of e) and_tag ≡ true
        → (ks : List Lang) × DenotesAll s (args e) ks × (l ≡ all_of (alphabet s) ks)
    invert e l (means_and f es ks ds p) same = (ks, ds, p)
    invert e l (means_empty p) same = absurd (cc same)
    invert e l (means_nothing p) same = absurd (cc same)
    invert e l (means_byte b lt p) same = absurd (cc same)
    invert e l (means_set bs len p) same = absurd (cc same)
    invert e l (means_ahead f e2 k m d2 t p) same = absurd (cc same)
    invert e l (means_not f e2 m d2 p) same = absurd (cc same)
    invert e l (means_repeat f e2 lo hi m d2 o a b c p) same = absurd (cc same)
    invert e l (means_or f es ks ds p) same = absurd (cc same)
    invert e l (means_concat f es ks ds p) same = absurd (cc same)

module _ (s : ExprSet) (r : Ready s) where
  -- What is kept has the same words under the language before it.
  pub record Kept (p : Lang) (had n : Bool) (ls : List Lang) (x : AndScan) : Type 0 where
    pub langs : List Lang
    pub denoted : DenotesAll s x.kept langs
    pub same : both p (all_of (alphabet s) ls) ≡ both p (all_of (alphabet s) langs)
    pub flag : x.nullable ≡ (n && all_of (alphabet s) langs [])
    pub blank :
        x.had_empty ≡ true
        → (had ≡ true) ⊎ ((w : List ℕ) → all_of (alphabet s) langs w ≡ true → eps w ≡ true)

  abbrev pub Scanned : Lang → Bool → Bool → List Lang → Option AndScan → Type 0
  Scanned p had n ls none = both p (all_of (alphabet s) ls) ≡ nothing
  Scanned p had n ls (some x) = Kept p had n ls x

  alike :
      (p : Lang) (had n : Bool) (ls ks : List Lang)
      → both p (all_of (alphabet s) ls) ≡ both p (all_of (alphabet s) ks)
      → (x : Option AndScan) → Scanned p had n ks x
      → Scanned p had n ls x
  alike p had n ls ks same none k = same ∙ k
  alike p had n ls ks same (some x) k = record {
    langs = k.langs;
    denoted = k.denoted;
    same = same ∙ k.same;
    flag = k.flag;
    blank = k.blank;
  }

  after_arg :
      (p l : Lang) (had n : Bool) {e : ℕ} (ls : List Lang)
      → Denotes s e l
      → (x : Option AndScan) → Scanned l (had || e == empty_string_id) (n && l []) ls x
      → Scanned p had n (l ∷ ls) (keep_arg e x)
  after_arg p l had n {e} ls d none k = fun_ext λ w. let h = ap (λ m. m w) k in ground (arith, h)
  after_arg p l had n {e} ls d (some x) k = record {
    langs = l ∷ k.langs;
    denoted = one_denoted d k.denoted;
    same = fun_ext λ w. let h = ap (λ m. m w) k.same in ground (arith, h);
    flag = let h = k.flag in ground (arith, h);
    blank = λ has. elim (k.blank has) [
      | inl earlier ↦ elim (Bool-cases had) [
        | inl before ↦ inl before
        | inr here ↦
            let blank_arg =
              Denotes-unique s r d (Denotes-eps s r) (ground (arith, earlier, here)) in
            inr λ w q. let h = ap (λ m. m w) blank_arg in ground (arith, h, q)
      ]
      | inr later ↦ inr λ w q. later w (ground arith)
    ];
  }

  skips :
      (prev : ℕ) (p : Lang) {e : ℕ} {l : Lang}
      → Denotes s prev p
      → Denotes s e l
      → (ls : List Lang) → (e == prev || e == any_string_id) ≡ true
      → both p (all_of (alphabet s) (l ∷ ls)) ≡ both p (all_of (alphabet s) ls)
  skips prev p {e} {l} dp d ls skipped = elim (Bool-cases (e == prev)) [
    | inl again ↦
        let same = Denotes-unique s r d dp again in
        fun_ext λ w. let h = ap (λ m. m w) same in ground (arith, h)
    | inr other ↦
        let same = Denotes-unique s r d (Denotes-letters s r) (ground (arith, skipped, other)) in
        fun_ext λ w.
          let h = ap (λ m. m w) same in
          let inside = all_of-Within (alphabet s) ls w in ground (arith, h, inside)
  ]

  nullable_so_far :
      (n : Bool) {e : ℕ} {l : Lang}
      → Denotes s e l
      → (if n then is_nullable s e else some false) ≡ some (n && l [])
  nullable_so_far true d = Denotes-is_nullable s r d
  nullable_so_far false d = refl

  pub scan_and-Scanned :
      (prev : ℕ) (p : Lang) (had n : Bool) {es : List ℕ} {ls : List Lang}
      → Denotes s prev p
      → DenotesAll s es ls
      → Ensures (Scanned p had n ls) (scan_and s prev had n es)
  unfolding scan_and
  scan_and-Scanned prev p had n dp none_denoted =
      returns (record {
        langs = [];
        denoted = none_denoted;
        same = refl;
        flag = ground arith;
        blank = inl;
      })
  scan_and-Scanned prev p had n dp (one_denoted {e} {l} {es} {ls} d ds) =
      let a = alphabet s in
      Ensures-if (e == prev || e == any_string_id)
        (λ skipped.
          Ensures-weaken (alike p had n (l ∷ ls) ls (skips prev p dp d ls skipped))
            (scan_and-Scanned prev p had n dp ds))
        λ _.
          Ensures-if (e == no_match_id)
            (λ at_none.
              let same = Denotes-unique s r d (Denotes-nothing s r) at_none in
              returns (fun_ext λ w. let h = ap (λ m. m w) same in ground (arith, h)))
            λ _. rw (nullable_so_far n d) (
              Ensures-bind (scan_and-Scanned e l (had || e == empty_string_id) (n && l []) d ds)
                λ x k. returns (after_arg p l had n ls d x k))
