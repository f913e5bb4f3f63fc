-- ===== src/Derivre/Simplify/Grows.antt =====
-- The constructors of controllers/derivre/src/simplify.rs keep the set of expressions valid, and every
-- expression in its place.
use aici.Prelude.{
  ℕ, ◌%◌, ◌^◌, ◌≡◌, refl, ◌∙◌, ◌==◌, ltb, Bool, true, false, not, ◌&&◌, Option, none, some, List,
  [], ◌∷◌, length, ◌>>=◌, guard, if◌then◌else◌,
}
use aici.Prelude.Results.{Ensures, panics, returns, Ensures-after, Ensures-bind, Ensures-weaken}
use aici.Derivre.HashCons.Inserting.{IsValid}
use aici.Derivre.Ast.{
  Expr, ExprSet, empty_string_id, no_match_id, any_string_id, non_empty_string_id, byte, byte_set,
  lookahead, complement, repeat, concat, or_of, and_of, empty_string, no_match, concat_tag, and_tag,
  get, is_nullable,
}
use aici.Derivre.Ast.Overflow.{Grows, mk-Grows}
use aici.Derivre.Simplify.{
  pay, mk_byte, bits_set, first_byte, mk_byte_set, mk_repeat, flatten_tag, sort_ids, all_nullable,
  retain, any_is, concat_of, mk_concat, mk_bytes, mk_byte_literal, not_of, mk_not, mk_lookahead,
  AndScan, scan_and, and_kept, and_scanned, mk_and,
}

pub Grows-refl : (s : ExprSet) → IsValid s.exprs → Grows s s
Grows-refl s v = record {
  valid = v;
  keeps = λ j x e. e;
  keeps_words = λ j x e. e;
  same_words = refl;
  same_size = refl;
}

pub Grows-trans : (s t u : ExprSet) → Grows s t → Grows t u → Grows s u
Grows-trans s t u g h = record {
  valid = h.valid;
  keeps = λ j x e. h.keeps j x (g.keeps j x e);
  keeps_words = λ j x e. h.keeps_words j x (g.keeps_words j x e);
  same_words = h.same_words ∙ g.same_words;
  same_size = h.same_size ∙ g.same_size;
}

pub Grows-same :
    (s s1 : ExprSet)
    → s1.exprs ≡ s.exprs
    → s1.alphabet_words ≡ s.alphabet_words
    → s1.alphabet_size ≡ s.alphabet_size
    → IsValid s.exprs
    → Grows s s1
unfolding get
Grows-same s s1 same alike size v = record {
  valid = rw same v;
  keeps = λ j y e. rw same e;
  keeps_words = λ j y e. rw same e;
  same_words = alike;
  same_size = size;
}

-- A step from a valid set grows it, where it returns.
abbrev pub Growing : {A : Type 0} → ExprSet → Option (A × ExprSet) → Type 0
Growing s m = IsValid s.exprs → Ensures (λ x. Grows s x.1) m

module _ {A : Type 0} (s : ExprSet) where
  pub Growing-same : (a : A) → Growing s (some (a, s))
  Growing-same a v = returns (Grows-refl s v)

  pub Growing-if :
      (b : Bool) {m n : Option (A × ExprSet)}
      → Growing s m
      → Growing s n
      → Growing s (if b then m else n)
  Growing-if true g h = g
  Growing-if false g h = h

  pub Growing-after :
      {B : Type 0} (m : Option B) {f : B → Option (A × ExprSet)}
      → ((b : B) → Growing s (f b))
      → Growing s (m >>= f)
  Growing-after m h v = Ensures-after m (λ b. h b v)

  pub Growing-then :
      {B : Type 0} {m : Option (B × ExprSet)} {f : B × ExprSet → Option (A × ExprSet)}
      → Growing s m
      → ((x : B × ExprSet) → Growing x.1 (f x))
      → Growing s (m >>= f)
  Growing-then g h v =
      Ensures-bind (g v) λ x gx. Ensures-weaken (λ y gy. Grows-trans s x.1 y.1 gx gy) (h x gx.valid)

  -- The cost and the switch are no part of what is stored.
  pub Growing-from :
      (s1 : ExprSet) {m : Option (A × ExprSet)}
      → s1.exprs ≡ s.exprs
      → s1.alphabet_words ≡ s.alphabet_words
      → s1.alphabet_size ≡ s.alphabet_size
      → Growing s1 m
      → Growing s m
  Growing-from s1 same alike size g v =
      Ensures-weaken (λ x gx. Grows-trans s s1 x.1 (Grows-same s s1 same alike size v) gx)
        (g (rw same v))

pub mk_byte-Growing : (s : ExprSet) (b : ℕ) → Growing s (mk_byte s b)
unfolding mk_byte
mk_byte-Growing s b = Growing-from s (pay s 1) refl refl refl (mk-Grows (pay s 1) (byte b))

pub mk_byte_set-Growing : (s : ExprSet) (bytes : List ℕ) → Growing s (mk_byte_set s bytes)
unfolding mk_byte_set
mk_byte_set-Growing s bytes =
    let s1 = pay s s.alphabet_words in
    Growing-after s (guard (length bytes == s.alphabet_words)) λ _.
      Growing-from s s1 refl refl refl (
        Growing-if s1 (bits_set bytes == 0) (Growing-same s1 no_match_id) (
          Growing-if s1 (bits_set bytes == 1)
            (Growing-after s1 (first_byte bytes 0 s1.alphabet_size)
              λ i. mk_byte-Growing s1 (i % 2 ^ 8))
            (mk-Grows s1 (byte_set bytes))))

pub mk_repeat-Growing : (s : ExprSet) (e lo hi : ℕ) → Growing s (mk_repeat s e lo hi)
unfolding mk_repeat
mk_repeat-Growing s0 e lo hi =
    let s = pay s0 1 in
    Growing-from s0 s refl refl refl (
      Growing-if s (e == no_match_id) (Growing-same s _) (
        Growing-if s (e == empty_string_id) (Growing-same s _) (
          Growing-if s (ltb hi lo) (λ v. panics)
            (Growing-if s (hi == 0) (Growing-same s _) (
              Growing-if s (lo == 1 && hi == 1) (Growing-same s e)
                (Growing-after s (is_nullable s e) λ n. mk-Grows s _))))))

concat_of-Growing : (s : ExprSet) (es : List ℕ) → Growing s (concat_of s es)
concat_of-Growing s [] = Growing-same s empty_string_id
concat_of-Growing s (e ∷ []) = Growing-same s e
concat_of-Growing s (e ∷ e2 ∷ es) =
    Growing-if s (any_is no_match_id (e ∷ e2 ∷ es)) (Growing-same s no_match_id)
      (Growing-after s (all_nullable s (e ∷ e2 ∷ es)) λ n. mk-Grows s _)

pub mk_concat-Growing : (s : ExprSet) (args : List ℕ) → Growing s (mk_concat s args)
unfolding mk_concat
mk_concat-Growing s args0 = Growing-after s (flatten_tag s concat_tag args0) λ args.
    Growing-from s (pay s (length args)) refl refl refl
      (concat_of-Growing (pay s (length args)) (retain (λ e. not (e == empty_string_id)) args))

mk_bytes-Growing : (s : ExprSet) (bs : List ℕ) → Growing s (mk_bytes s bs)
mk_bytes-Growing s [] = Growing-same s []
mk_bytes-Growing s (b ∷ bs) =
    Growing-then s (mk_byte-Growing s b)
      λ x. Growing-then x.1 (mk_bytes-Growing x.1 bs) λ y. Growing-same y.1 _

pub mk_byte_literal-Growing : (s : ExprSet) (bs : List ℕ) → Growing s (mk_byte_literal s bs)
unfolding mk_byte_literal
mk_byte_literal-Growing s bs =
    let s1 = pay s (length bs) in
    Growing-from s s1 refl refl refl
      (Growing-then s1 (mk_bytes-Growing s1 bs) λ x. mk_concat-Growing x.1 x.0)

not_of-Growing : (s : ExprSet) (e : ℕ) (n : Expr) → Growing s (not_of s e n)
not_of-Growing s e (complement f e2) = Growing-same s e2
not_of-Growing s e empty_string = mk-Grows s _
not_of-Growing s e no_match = mk-Grows s _
not_of-Growing s e (byte b) = mk-Grows s _
not_of-Growing s e (byte_set bs) = mk-Grows s _
not_of-Growing s e (lookahead f e2 n) = mk-Grows s _
not_of-Growing s e (repeat f e2 lo hi) = mk-Grows s _
not_of-Growing s e (concat f es) = mk-Grows s _
not_of-Growing s e (or_of f es) = mk-Grows s _
not_of-Growing s e (and_of f es) = mk-Grows s _

pub mk_not-Growing : (s : ExprSet) (e : ℕ) → Growing s (mk_not s e)
unfolding mk_not
mk_not-Growing s0 e =
    let s = pay s0 1 in
    Growing-from s0 s refl refl refl (
      Growing-if s (e == empty_string_id) (Growing-same s _) (
        Growing-if s (e == non_empty_string_id) (Growing-same s _) (
          Growing-if s (e == any_string_id) (Growing-same s _) (
            Growing-if s (e == no_match_id) (Growing-same s _)
              (Growing-after s (get s e) λ n. not_of-Growing s e n)))))

pub mk_lookahead-Growing : (s : ExprSet) (e offset : ℕ) → Growing s (mk_lookahead s e offset)
unfolding mk_lookahead
mk_lookahead-Growing s0 e offset =
    let s = pay s0 1 in
    Growing-from s0 s refl refl refl (
      Growing-if s (e == no_match_id) (Growing-same s _)
        (Growing-after s (is_nullable s e) λ n. Growing-if s n (mk-Grows s _) (mk-Grows s _)))

and_kept-Growing :
    (s : ExprSet) (had_empty n : Bool) (es : List ℕ) → Growing s (and_kept s had_empty n es)
and_kept-Growing s had_empty n [] = Growing-same s _
and_kept-Growing s had_empty n (e ∷ []) = Growing-same s e
and_kept-Growing s had_empty n (e ∷ e2 ∷ es) =
    Growing-if s had_empty (Growing-same s _) (mk-Grows s _)

and_scanned-Growing : (s : ExprSet) (r : Option AndScan) → Growing s (and_scanned s r)
and_scanned-Growing s none = Growing-same s _
and_scanned-Growing s (some x) = and_kept-Growing s x.had_empty x.nullable x.kept

pub mk_and-Growing : (s : ExprSet) (args : List ℕ) → Growing s (mk_and s args)
unfolding mk_and
mk_and-Growing s args0 = Growing-after s (flatten_tag s and_tag args0) λ args.
    let s1 = pay s (length args) in
    Growing-from s s1 refl refl refl (
      Growing-after s1 (scan_and s1 any_string_id false true (sort_ids args))
        λ r. and_scanned-Growing s1 r)
