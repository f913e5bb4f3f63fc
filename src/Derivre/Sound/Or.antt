-- ===== src/Derivre/Sound/Or.antt =====
-- What the loop of `mk_or` of controllers/derivre/src/simplify.rs keeps.
pub mod Bytes
pub mod Lookaheads
pub mod Result
use mathlib.Core.Path.{fun_ext, subst}
use aici.Prelude.{
  ℕ, zero, suc, ◌+◌, ◌<◌, ◌≡◌, ◌≢◌, refl, sym, ◌∙◌, ap, arith, ◌==◌, ltb, Bool, true, false, not,
  ◌&&◌, ◌||◌, Bool-cases, ◌⊎◌, inl, inr, Option, none, some, List, [], ◌∷◌, ◌++◌, length,
  length-replicate, replicate, ◌>>=◌, if◌then◌else◌,
}
use aici.Prelude.Results.{
  Ensures, panics, returns, Ensures-bind, Ensures-weaken, Ensures-if, Ensures-after,
}
use aici.Derivre.Ast.{
  Expr, ExprSet, ExprTag, empty_string, no_match, byte, byte_set, lookahead, complement, repeat,
  concat, or_of, and_of, or_tag, args, from_nullable, empty_string_id, no_match_id, any_string_id,
  is_nullable, get, mk, byteset_set, byteset_union,
}
use aici.Derivre.Ast.Encode.{words, IsWellFormed}
use aici.Derivre.Ast.Overflow.{Grows}
use aici.Derivre.Simplify.{Made, pay, same_tag, flatten_tag, sort_ids, mk_byte_set}
use aici.Derivre.Simplify.Union.{
  OrScan, keep_arg, scan_or, take_bytes, put_bytes, retain_bytes, add_to_sorted, join_bytes, Ahead,
  lookahead_parts, split_ahead, retain_ahead, before, insert_ahead, sort_ahead, first_ahead,
  join_ahead, or_kept, or_scanned, mk_or_with, mk_or_plain,
}
use aici.Derivre.Simplify.Grows.{Grows-refl, Grows-trans}
use aici.Derivre.Language.{Lang, nothing, eps, one_byte, letters, either, any_of, first_match}
use aici.Derivre.Language.Cat.{bool_ext}
use aici.Derivre.Denotes.{
  Denotes, DenotesAll, Means, Ready, node, none_denoted, one_denoted, means_empty, means_nothing,
  means_byte, means_set, means_ahead, means_not, means_repeat, means_concat, means_or, means_and,
  alphabet, in_set,
}
use aici.Derivre.Denotes.Nodes.{tag_of, get-stored}
use aici.Derivre.Denotes.Laws.{Denotes-same, Denotes-Grows, DenotesAll-Grows}
use aici.Derivre.Denotes.Within.{Within, Denotes-Within, DenotesAll-any_of}
use aici.Derivre.Denotes.Base.{
  Denotes-eps, Denotes-nothing, Denotes-letters, Denotes-is_nullable, Denotes-ref, Ready-Grows,
}
use aici.Derivre.Sound.{
  Holds, Makes, Makes-same, Makes-if, Makes-new, Makes-from, from_nullable-AreFlags,
  is_nullable_flag-from,
}
use aici.Derivre.Sound.ByteSet.{mk_byte_set-Makes, one_byte-cong}
use aici.Derivre.Sound.ByteSet.Union.{
  HasBytes, in_set-replicate, byteset_set-HasBytes, byteset_union-HasBytes,
}
use aici.Derivre.Sound.Concat.{Denotes-unique}
use aici.Derivre.Sound.Flatten.{Joins, flatten_tag-Flat, DenotesAll-append}
use aici.Derivre.Sound.Sort.{sort_ids-DenotesAll, insert_id-DenotesAll}

pub any_of-append : (ls ms : List Lang) → any_of (ls ++ ms) ≡ either (any_of ls) (any_of ms)
any_of-append [] ms = refl
any_of-append (l ∷ ls) ms =
    fun_ext λ w. let h = ap (λ k. k w) (any_of-append ls ms) in ground (arith, h)

pub or-Joins : (s : ExprSet) → Joins s or_tag any_of either
or-Joins s = record { cons = λ l ls. refl; append = any_of-append; inverts = invert }
  where
    invert :
        (e : Expr) (l : Lang)
        → Means s e l
        → same_tag (tag_of e) or_tag ≡ true
        → (ks : List Lang) × DenotesAll s (args e) ks × (l ≡ any_of ks)
    invert e l (means_or f es ks ds p) same = (ks, ds, p)
    invert e l (means_empty p) same = absurd (cc same)
    invert e l (means_nothing p) same = absurd (cc same)
    invert e l (means_byte b lt p) same = absurd (cc same)
    invert e l (means_set bs len p) same = absurd (cc same)
    invert e l (means_ahead f e2 k m d2 t p) same = absurd (cc same)
    invert e l (means_not f e2 m d2 p) same = absurd (cc same)
    invert e l (means_repeat f e2 lo hi m d2 o a b c p) same = absurd (cc same)
    invert e l (means_and f es ks ds p) same = absurd (cc same)
    invert e l (means_concat f es ks ds p) same = absurd (cc same)

pub swap_either : (l m k : Lang) → either l (either m k) ≡ either m (either l k)
swap_either l m k = fun_ext λ w. ground arith

pub get-Denotes :
    (s : ExprSet) {e : ℕ} {l : Lang} → Denotes s e l → (x : Expr) × (get s e ≡ some x) × Means s x l
get-Denotes s {e} (node x st w n d) = (x, get-stored s e x st w, d)

module _ (s : ExprSet) (r : Ready s) where
  -- What is kept has the same words beside the language before it.
  pub record Kept (p : Lang) (n : Bool) (ls : List Lang) (x : OrScan) : Type 0 where
    pub langs : List Lang
    pub denoted : DenotesAll s x.kept langs
    pub same : either p (any_of ls) ≡ either p (any_of langs)
    pub flag : x.nullable ≡ (n || any_of langs [])

  abbrev pub Scanned : Lang → Bool → List Lang → Option OrScan → Type 0
  Scanned p n ls none = either p (any_of ls) ≡ letters (alphabet s)
  Scanned p n ls (some x) = Kept p n ls x

  alike :
      (p : Lang) (n : Bool) (ls ks : List Lang)
      → either p (any_of ls) ≡ either p (any_of ks)
      → (x : Option OrScan) → Scanned p n ks x
      → Scanned p n ls x
  alike p n ls ks same none k = same ∙ k
  alike p n ls ks same (some x) k = record {
    langs = k.langs;
    denoted = k.denoted;
    same = same ∙ k.same;
    flag = k.flag;
  }

  after_arg :
      (p l : Lang) (n : Bool) {e : ℕ} (ls : List Lang) (expr : Expr)
      → Within (alphabet s) p
      → Denotes s e l
      → (x : Option OrScan) → Scanned l (n || l []) ls x
      → Scanned p n (l ∷ ls) (keep_arg e expr x)
  after_arg p l n {e} ls expr inside d none k =
      fun_ext λ w. let h = ap (λ m. m w) k in let i = inside w in ground (arith, h, i)
  after_arg p l n {e} ls expr inside d (some x) k = record {
    langs = l ∷ k.langs;
    denoted = one_denoted d k.denoted;
    same = fun_ext λ w. let h = ap (λ m. m w) k.same in ground (arith, h);
    flag = let h = k.flag in ground (arith, h);
  }

  nullable_so_far :
      (n : Bool) {e : ℕ} {l : Lang}
      → Denotes s e l
      → (if n then some true else is_nullable s e) ≡ some (n || l [])
  nullable_so_far true d = refl
  nullable_so_far false d = Denotes-is_nullable s r d

  skips :
      (prev : ℕ) (p : Lang) {e : ℕ} {l : Lang}
      → Denotes s prev p
      → Denotes s e l
      → (ls : List Lang) → (e == prev || e == no_match_id) ≡ true
      → either p (any_of (l ∷ ls)) ≡ either p (any_of ls)
  skips prev p {e} {l} dp d ls skipped = elim (Bool-cases (e == prev)) [
    | inl again ↦
        let same = Denotes-unique s r d dp again in
        fun_ext λ w. let h = ap (λ m. m w) same in ground (arith, h)
    | inr other ↦
        let same = Denotes-unique s r d (Denotes-nothing s r) (ground (arith, skipped, other)) in
        fun_ext λ w. let h = ap (λ m. m w) same in ground (arith, h)
  ]

  full :
      (p : Lang) {e : ℕ} {l : Lang} {es : List ℕ} (ls : List Lang)
      → Within (alphabet s) p
      → Denotes s e l
      → DenotesAll s es ls
      → (e == any_string_id) ≡ true
      → either p (any_of (l ∷ ls)) ≡ letters (alphabet s)
  full p {l = l} ls inside d ds at_any =
      let same = Denotes-unique s r d (Denotes-letters s r) at_any in
      fun_ext λ w.
        let h = ap (λ m. m w) same in
        let i = inside w in let rest = DenotesAll-any_of s ds w in ground (arith, h, i, rest)

  pub scan_or-Scanned :
      (prev : ℕ) (p : Lang) (n : Bool) {es : List ℕ} {ls : List Lang}
      → Denotes s prev p
      → DenotesAll s es ls
      → Ensures (Scanned p n ls) (scan_or s prev n es)
  unfolding scan_or
  scan_or-Scanned prev p n dp none_denoted =
      returns (record { langs = []; denoted = none_denoted; same = refl; flag = ground arith })
  scan_or-Scanned prev p n dp (one_denoted {e} {l} {es} {ls} d ds) =
      let inside = Denotes-Within s dp in
      let read = get-Denotes s d in
      Ensures-if (e == prev || e == no_match_id)
        (λ skipped.
          Ensures-weaken (alike p n (l ∷ ls) ls (skips prev p dp d ls skipped))
            (scan_or-Scanned prev p n dp ds))
        λ _.
          Ensures-if (e == any_string_id) (λ at_any. returns (full p ls inside d ds at_any))
            λ _.
              rw (read.1, nullable_so_far n d)
                (Ensures-bind (scan_or-Scanned e l (n || l []) d ds)
                  λ x k. returns (after_arg p l n ls read.0 inside d x k))
