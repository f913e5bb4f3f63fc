-- ===== src/Derivre/Ast/Overflow.antt =====
-- Where the backing of a set would pass 2 ^ 32 words, `ExprSet::mk` of controllers/derivre/src/ast.rs
-- panics, and where it returns, the set has grown.
use aici.Prelude.{
  ℕ, suc, ◌+◌, ◌%◌, ◌≤◌, ◌^◌, ◌≡◌, refl, arith, ◌==◌, ltb, leb, false, Bool-cases, inl, inr, none,
  some, List, [], length,
}
use aici.Prelude.Results.{Ensures, panics, returns, Ensures-weaken}
use aici.Derivre.HashCons.{VecHashCons, ensure_size, push_u32, push_slice, get as get_vec}
use aici.Derivre.HashCons.Inserting.{IsValid, Inserting, start_insert-Inserting}
use aici.Derivre.HashCons.Laws.{finish_insert-Interned}
use aici.Derivre.Ast.{
  Expr, empty_string, no_match, byte, byte_set, lookahead, complement, repeat, concat, or_of,
  and_of, byte_set_tag, concat_tag, or_tag, and_tag, encode, serialize, nary_serialize, ExprSet, mk,
  get,
}
use aici.Derivre.Ast.Encode.{words}
use aici.Derivre.Ast.Store.{push_u32-Pushes, serialize-Pushes, get_vec-keeps, get-keeps}

push_u32-overflow :
    (h : VecHashCons) (x : ℕ)
    → h.curr_elt.backing_end ≡ h.curr_elt.backing_start
    → 2 ^ 32 ≤ h.curr_elt.backing_start + 1
    → push_u32 h x ≡ none
unfolding push_u32 ensure_size
push_u32-overflow h x e big =
    let wraps : leb h.curr_elt.backing_start ((h.curr_elt.backing_end + 1) % 2 ^ 32) ≡ false =
      ground (arith, e, big) in
    rw wraps refl

push_slice-overflow :
    (h : VecHashCons) (vec : List ℕ)
    → 2 ^ 32 ≤ h.curr_elt.backing_end + length vec
    → push_slice h vec ≡ none
unfolding push_slice ensure_size
push_slice-overflow h vec big =
    let stop' = (h.curr_elt.backing_end + length vec) % 2 ^ 32 in
    let wraps : (h.curr_elt.backing_end + length vec == stop') ≡ false = ground (arith, big) in
    elim (Bool-cases (leb h.curr_elt.backing_start stop')) [
      | inl ordered ↦ rw (ordered, wraps) refl
      | inr unordered ↦ rw unordered refl
    ]

module _ (h0 h : VecHashCons) (i : Inserting h0 h []) where
  nary_serialize-overflow :
      (x : ℕ) (es : List ℕ)
      → 2 ^ 32 ≤ h0.curr_elt.backing_start + suc (length es)
      → nary_serialize h x es ≡ none
  nary_serialize-overflow x es big =
      elim (Bool-cases (ltb (h0.curr_elt.backing_start + 1) (2 ^ 32))) [
        | inl fits ↦
            let p = push_u32-Pushes h0 h i x (ground (arith, fits)) in
            let at_end = p.2.end_at in
            rw p.1 (push_slice-overflow p.0 es (omega (arith, at_end, big)))
        | inr full ↦
            let first =
              push_u32-overflow h x (omega (arith, i.end_at, i.same_start))
                (ground (arith, full, i.same_start)) in
            rw first refl
      ]

  serialize-overflow :
      (e : Expr) → 2 ^ 32 ≤ h0.curr_elt.backing_start + length (words e) → serialize e h ≡ none
  unfolding serialize
  serialize-overflow empty_string big =
      push_u32-overflow h _ (omega (arith, i.end_at, i.same_start))
        (omega (arith, big, i.same_start))
  serialize-overflow no_match big =
      push_u32-overflow h _ (omega (arith, i.end_at, i.same_start))
        (omega (arith, big, i.same_start))
  serialize-overflow (byte b) big =
      push_slice-overflow h (words (byte b)) (omega (arith, big, i.end_at))
  serialize-overflow (byte_set s) big = nary_serialize-overflow (encode 0 byte_set_tag) s big
  serialize-overflow (lookahead f e n) big =
      push_slice-overflow h (words (lookahead f e n)) (omega (arith, big, i.end_at))
  serialize-overflow (complement f e) big =
      push_slice-overflow h (words (complement f e)) (omega (arith, big, i.end_at))
  serialize-overflow (repeat f e lo hi) big =
      push_slice-overflow h (words (repeat f e lo hi)) (omega (arith, big, i.end_at))
  serialize-overflow (concat f es) big = nary_serialize-overflow (encode f concat_tag) es big
  serialize-overflow (or_of f es) big = nary_serialize-overflow (encode f or_tag) es big
  serialize-overflow (and_of f es) big = nary_serialize-overflow (encode f and_tag) es big

-- The set is valid, each expression of the first one is where it was, and the alphabet is the same.
pub record Grows (s s' : ExprSet) : Type 0 where
  pub valid : IsValid s'.exprs
  pub keeps : (j : ℕ) (x : Expr) → get s j ≡ some x → get s' j ≡ some x
  pub keeps_words : (j : ℕ) (v : List ℕ) → get_vec s.exprs j ≡ some v → get_vec s'.exprs j ≡ some v
  pub same_words : s'.alphabet_words ≡ s.alphabet_words
  pub same_size : s'.alphabet_size ≡ s.alphabet_size

-- The encoding is under the id.
abbrev pub Stores : ExprSet → Expr → ℕ × ExprSet → Type 0
Stores s e x = Grows s x.1 × (get_vec x.1.exprs x.0 ≡ some (words e))

pub mk-Stores : (s : ExprSet) (e : Expr) → IsValid s.exprs → Ensures (Stores s e) (mk s e)
unfolding mk
mk-Stores s e v =
    let started = start_insert-Inserting s.exprs v.idle in
    elim (Bool-cases (ltb (s.exprs.curr_elt.backing_start + length (words e)) (2 ^ 32))) [
      | inl fits ↦
          let pushed = serialize-Pushes s.exprs started.0 started.2 e (ground (arith, fits)) in
          let ended = finish_insert-Interned s.exprs pushed.0 (words e) v pushed.2 pushed.3 in
          let s' : ExprSet = record s { exprs = ended.1 } in
          let grown : Grows s s' = record {
            valid = ended.3.valid;
            keeps = get-keeps s s' (words e) ended.0 ended.3;
            keeps_words = get_vec-keeps s s' (words e) ended.0 ended.3;
            same_words = refl;
            same_size = refl;
          } in
          rw (started.1, pushed.1, ended.2) (returns (grown, ended.3.reads))
      | inr full ↦
          let stuck = serialize-overflow s.exprs started.0 started.2 e (ground (arith, full)) in
          rw (started.1, stuck) panics
    ]

pub mk-Grows : (s : ExprSet) (e : Expr) → IsValid s.exprs → Ensures (λ x. Grows s x.1) (mk s e)
mk-Grows s e v = Ensures-weaken (λ x k. k.0) (mk-Stores s e v)
