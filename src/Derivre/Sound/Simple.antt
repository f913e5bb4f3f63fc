-- ===== src/Derivre/Sound/Simple.antt =====
-- `mk_byte`, `mk_repeat`, `mk_not` and `mk_lookahead` of controllers/derivre/src/simplify.rs.
use mathlib.Core.Path.{fun_ext, subst}
use aici.Prelude.{
  ℕ, ◌≤◌, ◌<◌, ◌^◌, ◌≡◌, ◌≢◌, refl, sym, ◌∙◌, ap, arith, ◌==◌, Bool, true, false, ltb, not, ◌&&◌,
  Bool-cases, ◌⊎◌, inl, inr, List, [], ◌∷◌, ◌>>=◌, if◌then◌else◌,
}
use aici.Prelude.Results.{panics}
use aici.Derivre.Ast.{
  Expr, ExprSet, empty_string, no_match, byte, byte_set, lookahead, complement, repeat, concat,
  or_of, and_of, nullable, from_nullable, is_nullable, get, no_match_id, empty_string_id,
  any_string_id, non_empty_string_id, mk,
}
use aici.Derivre.Simplify.{pay, mk_byte, mk_repeat, not_of, mk_not, mk_lookahead}
use aici.Derivre.Language.{Lang, nothing, eps, one_byte, letters, outside, first_match}
use aici.Derivre.Language.Rep.{rep}
use aici.Derivre.Language.Rep.Laws.{
  rep-eps, rep-nothing_zero, rep-nothing_more, rep_none, rep_once, rep_from_zero, rep-blank,
}
use aici.Derivre.Denotes.{
  Denotes, Means, Ready, node, means_byte, means_ahead, means_not, means_repeat, alphabet,
  means_empty, means_nothing, means_set, means_concat, means_or, means_and,
}
use aici.Derivre.Denotes.Nodes.{get-stored}
use aici.Derivre.Denotes.Laws.{Denotes-same, Denotes-Grows}
use aici.Derivre.Denotes.Within.{Within, Denotes-Within}
use aici.Derivre.Denotes.Base.{
  Denotes-eps, Denotes-nothing, Denotes-letters, Denotes-more, Denotes-ref,
}
use aici.Derivre.Sound.{
  Makes, Makes-same, Makes-if, Makes-new, Makes-nullable, Makes-from, from_nullable-AreFlags,
  is_nullable_flag-from,
}

-- P
pub mk_byte-Makes :
    (s : ExprSet) (b : ℕ)
    → b < 2 ^ 8
    → b < alphabet s
    → Makes s (one_byte (λ c. b == c)) (mk_byte s b)
unfolding mk_byte
mk_byte-Makes s b small inside =
    Makes-from s _ (pay s 1) refl refl refl
      λ g. Makes-new (pay s 1) _ (byte b) small refl (means_byte b inside refl)

first_match-nothing : first_match nothing ≡ nothing
first_match-nothing = fun_ext never
  where
    never : (w : List ℕ) → first_match nothing w ≡ nothing w
    never [] = refl
    never (b ∷ w) = ground (arith, never w)

-- Where the empty word matches, it is the first match.
first_match-blank : (l m : Lang) → l [] ≡ true → m [] ≡ true → first_match l ≡ first_match m
first_match-blank l m p q = fun_ext same
  where
    same : (w : List ℕ) → first_match l w ≡ first_match m w
    same [] = p ∙ sym q
    same (b ∷ w) = ground (arith, p, q)

outside-outside : (n : ℕ) (l : Lang) → Within n l → outside n (outside n l) ≡ l
outside-outside n l f = fun_ext λ w. let g = f w in ground (arith, g)

outside-letters : (n : ℕ) → outside n (letters n) ≡ nothing
outside-letters n = fun_ext λ w. ground arith

outside-nothing : (n : ℕ) → outside n nothing ≡ letters n
outside-nothing n = fun_ext λ w. ground arith

tighter-rep :
    (l : Lang) (lo hi : ℕ)
    → lo ≤ hi
    → (b : Bool) → l [] ≡ b
    → ((if b then 0 else lo) ≤ hi) × (rep l lo hi ≡ rep l (if b then 0 else lo) hi)
tighter-rep l lo hi le true n = (omega arith, sym (rep_from_zero l lo hi le n))
tighter-rep l lo hi le false n = (le, refl)

module _ (s0 : ExprSet) {e : ℕ} {m : Lang} (d0 : Denotes s0 e m) where
  -- The expression is the one with the id.
  is_it :
      (s : ExprSet) (l : Lang) (id : ℕ) → Denotes s e m → Denotes s id l → (e == id) ≡ true → m ≡ l
  is_it s l id d k at_id =
      let same : id ≡ e = ground arith in Denotes-same s e m l d (subst (λ i. Denotes s i l) same k)

  new_repeat :
      (s : ExprSet)
      → Denotes s e m
      → (lo hi : ℕ) → lo ≤ hi
      → hi ≢ 0
      → hi < 2 ^ 32
      → Makes s (rep m lo hi) (
          is_nullable s e >>= λ n.
          let lo' = if n then 0 else lo in mk s (repeat (from_nullable (lo' == 0)) e lo' hi))
  new_repeat s d lo hi le more small r =
      Makes-nullable s (rep m lo hi) e m _ d
        (λ r.
          let lo' = if m [] then 0 else lo in
          let tight : m [] ≡ true → lo' ≡ 0 = λ n. rw n refl in
          let t = tighter-rep m lo hi le (m []) refl in
          Makes-new s (rep m lo hi) (repeat (from_nullable (lo' == 0)) e lo' hi)
            (from_nullable-AreFlags (lo' == 0), Denotes-ref s r d)
            (is_nullable_flag-from (lo' == 0) ∙ sym (rw t.1 (rep-blank m lo' hi tight)))
            (means_repeat _ e lo' hi m d t.0 more small tight t.1) r)
        r

  pub mk_repeat-Makes :
      (lo hi : ℕ) → lo ≤ hi → hi < 2 ^ 32 → Makes s0 (rep m lo hi) (mk_repeat s0 e lo hi)
  unfolding mk_repeat
  mk_repeat-Makes lo hi le small =
      let s = pay s0 1 in
      let l = rep m lo hi in
      Makes-from s0 l s refl refl refl λ g.
        let d = Denotes-Grows s0 s g d0 in
        Makes-if s l (e == no_match_id)
          (λ at_none r.
            let same = is_it s nothing 2 d (Denotes-nothing s r) at_none in
            Makes-same s l _ (rw same (no_match_rep s r (Bool-cases (lo == 0)))) r)
          λ _.
            Makes-if s l (e == empty_string_id)
              (λ at_eps r.
                let same = is_it s eps 1 d (Denotes-eps s r) at_eps in
                Makes-same s l 1 (rw (same, rep-eps lo hi le) (Denotes-eps s r)) r)
              λ _.
                Makes-if s l (ltb hi lo) (λ _ r. panics)
                  λ _.
                    Makes-if s l (hi == 0)
                      (λ none_left r.
                        let z : hi ≡ 0 = ground arith in
                        let y : lo ≡ 0 = omega arith in
                        Makes-same s l 1 (rw (z, y, rep_none m) (Denotes-eps s r)) r)
                      λ more.
                        Makes-if s l (lo == 1 && hi == 1)
                          (λ once r.
                            let y : lo ≡ 1 = ground arith in
                            let z : hi ≡ 1 = ground arith in
                            Makes-same s l e (rw (y, z, rep_once m) d) r)
                          λ _. new_repeat s d lo hi le (ground (arith, more)) small
    where
      no_match_rep :
          (s : ExprSet)
          → Ready s
          → ((lo == 0) ≡ true) ⊎ ((lo == 0) ≡ false)
          → Denotes s (if lo == 0 then empty_string_id else no_match_id) (rep nothing lo hi)
      no_match_rep s r (inl z) =
          let zero_lo : lo ≡ 0 = ground arith in rw (zero_lo, rep-nothing_zero hi) (Denotes-eps s r)
      no_match_rep s r (inr p) =
          rw (p, rep-nothing_more lo hi (ground (arith, p))) (Denotes-nothing s r)

  pub mk_lookahead-Makes : (offset : ℕ) → Makes s0 (first_match m) (mk_lookahead s0 e offset)
  unfolding mk_lookahead
  mk_lookahead-Makes offset =
      let s = pay s0 1 in
      let l = first_match m in
      Makes-from s0 l s refl refl refl λ g.
        let d = Denotes-Grows s0 s g d0 in
        Makes-if s l (e == no_match_id)
          (λ at_none r.
            let same = is_it s nothing 2 d (Denotes-nothing s r) at_none in
            Makes-same s l 2 (rw (same, first_match-nothing) (Denotes-nothing s r)) r)
          λ _ r.
            Makes-nullable s l e m _ d
              (Makes-if s l (m [])
                (λ here r.
                  Makes-new s l (lookahead 256 1 offset) (inr refl, λ z. cc z) (sym here)
                    (means_ahead 256 1 offset eps (Denotes-eps s r) (λ _. refl)
                      (first_match-blank m eps here refl))
                    r)
                λ later r.
                  Makes-new s l (lookahead 0 e offset) (inl refl, Denotes-ref s r d) (sym later)
                    (means_ahead 0 e offset m d (λ h. absurd (cc (h, later))) refl) r)
              r

  new_not :
      (s : ExprSet) (x : Expr)
      → Denotes s e m
      → nullable x ≡ m []
      → Makes s (outside (alphabet s) m) (mk s (complement (from_nullable (not (nullable x))) e))
  new_not s x d n r =
      Makes-new s (outside (alphabet s) m) (complement (from_nullable (not (nullable x))) e)
        (from_nullable-AreFlags (not (nullable x)), Denotes-ref s r d)
        (is_nullable_flag-from (not (nullable x)) ∙ ap not n) (means_not _ e m d refl) r

  not_of-Makes :
      (s : ExprSet) {x : Expr}
      → Denotes s e m
      → nullable x ≡ m []
      → Means s x m
      → Makes s (outside (alphabet s) m) (not_of s e x)
  not_of-Makes s d n (means_not f e2 k d2 p) =
      Makes-same s _ e2 (rw (p, outside-outside (alphabet s) k (Denotes-Within s d2)) d2)
  not_of-Makes s d n (means_empty p) = new_not s empty_string d n
  not_of-Makes s d n (means_nothing p) = new_not s no_match d n
  not_of-Makes s d n (means_byte b lt p) = new_not s (byte b) d n
  not_of-Makes s d n (means_set bs len p) = new_not s (byte_set bs) d n
  not_of-Makes s d n (means_ahead f e2 k l d2 t p) = new_not s (lookahead f e2 k) d n
  not_of-Makes s d n (means_repeat f e2 lo hi k d2 o a b c p) = new_not s (repeat f e2 lo hi) d n
  not_of-Makes s d n (means_concat f es ks ds p) = new_not s (concat f es) d n
  not_of-Makes s d n (means_or f es ks ds p) = new_not s (or_of f es) d n
  not_of-Makes s d n (means_and f es ks ds p) = new_not s (and_of f es) d n

  not_get :
      (s : ExprSet)
      → Denotes s e m
      → Makes s (outside (alphabet s) m) (get s e >>= λ n. not_of s e n)
  not_get s (node x st w n d) = rw (get-stored s e x st w) (not_of-Makes s (node x st w n d) n d)

  pub mk_not-Makes : Makes s0 (outside (alphabet s0) m) (mk_not s0 e)
  unfolding mk_not
  mk_not-Makes =
      let s = pay s0 1 in
      let n = alphabet s0 in
      let l = outside n m in
      Makes-from s0 l s refl refl refl λ g.
        let d = Denotes-Grows s0 s g d0 in
        Makes-if s l (e == empty_string_id)
          (λ at_id r.
            let same = is_it s eps 1 d (Denotes-eps s r) at_id in
            Makes-same s l 5 (rw same (Denotes-more s r)) r)
          λ _.
            Makes-if s l (e == non_empty_string_id)
              (λ at_id r.
                let same = is_it s (outside n eps) 5 d (Denotes-more s r) at_id in
                Makes-same s l 1
                  (rw (same, outside-outside n eps (Denotes-Within s (Denotes-eps s r)))
                    (Denotes-eps s r))
                  r)
              λ _.
                Makes-if s l (e == any_string_id)
                  (λ at_id r.
                    let same = is_it s (letters n) 4 d (Denotes-letters s r) at_id in
                    Makes-same s l 2 (rw (same, outside-letters n) (Denotes-nothing s r)) r)
                  λ _.
                    Makes-if s l (e == no_match_id)
                      (λ at_id r.
                        let same = is_it s nothing 2 d (Denotes-nothing s r) at_id in
                        Makes-same s l 4 (rw (same, outside-nothing n) (Denotes-letters s r)) r)
                      λ _. not_get s d
