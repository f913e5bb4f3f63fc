-- ===== src/Derivre/Ast/Store.antt =====
-- `ExprSet::mk` and `ExprSet::get` of controllers/derivre/src/ast.rs.
use aici.Prelude.{
  ℕ, suc, ◌+◌, ◌≤◌, ◌<◌, ◌^◌, ◌≡◌, refl, ◌∙◌, arith, Option, some, List, [], ◌∷◌, length,
}
use aici.Derivre.HashCons.{VecHashCons, push_u32, push_slice, get as get_vec}
use aici.Derivre.HashCons.Inserting.{
  IsValid, Inserting, start_insert-Inserting, push_slice-Inserting, push_u32-slice,
}
use aici.Derivre.HashCons.Laws.{Interned, finish_insert-Interned, lt_of_get, bind_some}
use aici.Derivre.Ast.{
  Expr, empty_string, no_match, byte, byte_set, lookahead, complement, repeat, concat, or_of,
  and_of, empty_string_tag, no_match_tag, byte_set_tag, concat_tag, or_tag, and_tag, encode,
  from_slice, serialize, nary_serialize, ExprSet, mk, get,
}
use aici.Derivre.Ast.Encode.{IsWellFormed, words, from_slice-words}

-- Pushes that return, with the vector in place.
abbrev pub Pushes : VecHashCons → Option VecHashCons → List ℕ → Type 0
Pushes h0 m vec =
    (h1 : VecHashCons) × (m ≡ some h1)
    × Inserting h0 h1 vec
    × (h1.curr_elt.backing_end ≤ length h1.backing)

module _ (h0 h : VecHashCons) (i : Inserting h0 h []) where
  push_slice-Pushes :
      (vec : List ℕ)
      → h0.curr_elt.backing_start + length vec < 2 ^ 32
      → Pushes h0 (push_slice h vec) vec
  push_slice-Pushes vec small = push_slice-Inserting h0 h [] vec i (omega (arith, small))

  pub push_u32-Pushes :
      (x : ℕ) → h0.curr_elt.backing_start + 1 < 2 ^ 32 → Pushes h0 (push_u32 h x) (x ∷ [])
  push_u32-Pushes x small =
      let p = push_slice-Pushes (x ∷ []) small in
      (p.0, push_u32-slice h x (omega (arith, small, i.end_at)) ∙ p.1, p.2, p.3)

  nary_serialize-Pushes :
      (x : ℕ) (es : List ℕ)
      → h0.curr_elt.backing_start + suc (length es) < 2 ^ 32
      → Pushes h0 (nary_serialize h x es) (x ∷ es)
  nary_serialize-Pushes x es small =
      let p = push_u32-Pushes x (omega (arith, small)) in
      let q = push_slice-Inserting h0 p.0 (x ∷ []) es p.2 (omega (arith, small)) in
      (q.0, rw p.1 q.1, q.2, q.3)

  pub serialize-Pushes :
      (e : Expr)
      → h0.curr_elt.backing_start + length (words e) < 2 ^ 32
      → Pushes h0 (serialize e h) (words e)
  unfolding serialize
  serialize-Pushes empty_string small = push_u32-Pushes (encode 0 empty_string_tag) small
  serialize-Pushes no_match small = push_u32-Pushes (encode 0 no_match_tag) small
  serialize-Pushes (byte b) small = push_slice-Pushes (words (byte b)) small
  serialize-Pushes (byte_set s) small = nary_serialize-Pushes (encode 0 byte_set_tag) s small
  serialize-Pushes (lookahead f e n) small = push_slice-Pushes (words (lookahead f e n)) small
  serialize-Pushes (complement f e) small = push_slice-Pushes (words (complement f e)) small
  serialize-Pushes (repeat f e lo hi) small = push_slice-Pushes (words (repeat f e lo hi)) small
  serialize-Pushes (concat f es) small = nary_serialize-Pushes (encode f concat_tag) es small
  serialize-Pushes (or_of f es) small = nary_serialize-Pushes (encode f or_tag) es small
  serialize-Pushes (and_of f es) small = nary_serialize-Pushes (encode f and_tag) es small

-- The expression is in the set under the id, alone, and the others are where they were.
pub record Added (s : ExprSet) (e : Expr) (id : ℕ) (s' : ExprSet) : Type 0 where
  pub valid : IsValid s'.exprs
  pub reads : get s' id ≡ some e
  pub keeps : (j : ℕ) (x : Expr) → get s j ≡ some x → get s' j ≡ some x
  pub shared : (j : ℕ) → get_vec s.exprs j ≡ some (words e) → j ≡ id
  pub same_alphabet : s'.alphabet_size ≡ s.alphabet_size

pub get_vec-keeps :
    (s s' : ExprSet) (vec : List ℕ) (id : ℕ)
    → Interned s.exprs vec id s'.exprs
    → (j : ℕ) (v : List ℕ) → get_vec s.exprs j ≡ some v
    → get_vec s'.exprs j ≡ some v
get_vec-keeps s s' vec id n j v e = n.keeps j v (lt_of_get s.exprs j v e) e

pub get-keeps :
    (s s' : ExprSet) (vec : List ℕ) (id : ℕ)
    → Interned s.exprs vec id s'.exprs
    → (j : ℕ) (x : Expr) → get s j ≡ some x
    → get s' j ≡ some x
unfolding get
get-keeps s s' vec id n j x e =
    let f = bind_some (get_vec s.exprs j) from_slice x e in
    let stored = get_vec-keeps s s' vec id n j f.0 f.1 in rw stored f.2

-- On a valid set, `mk` of an expression whose flags, byte and references are in range, and whose
-- encoding ends below 2 ^ 32, returns a valid set in which `get` of the id reads that expression
-- back; the other expressions are under their ids, and an id that had the same encoding is the
-- returned one.
pub mk-Added :
    (s : ExprSet) (e : Expr)
    → IsValid s.exprs
    → IsWellFormed e
    → s.exprs.curr_elt.backing_start + length (words e) < 2 ^ 32
    → (id : ℕ) × (s' : ExprSet) × (mk s e ≡ some (id, s')) × Added s e id s'
unfolding mk get
mk-Added s e v w small =
    let started = start_insert-Inserting s.exprs v.idle in
    let pushed = serialize-Pushes s.exprs started.0 started.2 e small in
    let ended = finish_insert-Interned s.exprs pushed.0 (words e) v pushed.2 pushed.3 in
    let s' : ExprSet = record s { exprs = ended.1 } in
    let n = ended.3 in
    (
      ended.0,
      s',
      rw (started.1, pushed.1, ended.2) refl,
      record {
        valid = n.valid;
        reads = let stored = n.reads in rw stored (from_slice-words e w);
        keeps = get-keeps s s' (words e) ended.0 n;
        shared = λ j e'.
            n.valid.distinct j ended.0 (words e)
              (get_vec-keeps s s' (words e) ended.0 n j (words e) e') n.reads;
        same_alphabet = refl;
      },
    )
