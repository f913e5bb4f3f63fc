-- ===== src/Trie/Tok/Bias/Mask.antt =====
-- `add_bias` of controllers/aici_abi/src/toktree.rs, from the root of a serialised trie: what it
-- writes in the mask, and that it gives the recognizer back as it was.
use aici.Prelude.{
  ℕ, suc, ◌+◌, ◌≤◌, ◌<◌, ◌≡◌, refl, ap, sym, ◌∙◌, arith, ◌==◌, Bool, true, false, ◌||◌, Option,
  some, List, [], ◌∷◌, append-nil, length, if◌then◌else◌,
}
use native.Mathlib.Nat.{zero-add}
use aici.Prelude.Loops.{Steps-while, here}
use aici.Trie.Node.{packed, subtree_size-packed}
use aici.Trie.Hash.{Children, node, nil, cons, serialize_sorted}
use aici.Trie.Hash.Flat.{
  size_children, flat, flat_children, Fits, length-flat_children, serialize_sorted-flat,
}
use aici.Trie.Recognizer.{Recognizer, Contract}
use aici.Trie.Tok.{child_at_bytes}
use aici.Trie.Tok.Bias.{Walk, bias_loop, add_bias}
use aici.Trie.Tok.Bias.Visit.{depth_children, visit_children, allow_all}
use aici.Trie.Tok.Bias.Loop.{Reaches, walk_children}
use aici.Vob.{SimpleVob, allow_token, disallow_token}
use aici.Vob.Bits.{bit, IsSized, set_bit-IsWritten}

-- A list of numbers as a set.
abbrev pub contains : List ℕ → ℕ → Bool
contains [] j = false
contains (t ∷ ts) j = t == j || contains ts j

abbrev pub AllBelow : ℕ → List ℕ → Type 0
AllBelow n [] = Unit {0}
AllBelow n (t ∷ ts) = (t < n) × AllBelow n ts

record Allowed (v : SimpleVob) (ts : List ℕ) : Type 0 where
  out : SimpleVob
  returns : allow_all ts v ≡ some out
  same_size : out.size ≡ v.size
  sized : IsSized out
  flags : (j : ℕ) → bit out j ≡ (contains ts j || bit v j)

allow_all-Allowed : (ts : List ℕ) (v : SimpleVob) → IsSized v → AllBelow v.size ts → Allowed v ts
unfolding allow_token
allow_all-Allowed [] v s h = record {
  out = v;
  returns = refl;
  same_size = refl;
  sized = s;
  flags = λ j. refl;
}
allow_all-Allowed (t ∷ ts) v s h =
    let w = set_bit-IsWritten v t true s (omega (arith, s.room, h.0)) in
    let rest = allow_all-Allowed ts w.out w.sized (rw w.same_size h.1) in
    record {
      out = rest.out;
      returns = rw w.returns rest.returns;
      same_size = rest.same_size ∙ w.same_size;
      sized = rest.sized;
      flags = λ j. ground (arith, rest.flags j, w.flags j);
    }

-- The result of `add_bias`: the mask has the tokens of `ts` added and `defl` removed, and the
-- recognizer has the single state `a` on its stack.
pub record Biased (r : Recognizer) (c : Contract r) (a : c.Abstract) (toks : SimpleVob) (defl : ℕ)
    (ts : List ℕ) (result : Option (r.State × SimpleVob)) : Type 0 where
  pub rec : r.State
  pub mask : SimpleVob
  pub returns : result ≡ some (rec, mask)
  pub restored : c.Holds rec (a ∷ [])
  pub same_size : mask.size ≡ toks.size
  pub sized : IsSized mask
  pub flags : (j : ℕ) → bit mask j ≡ (if defl == j then false else contains ts j || bit toks j)

module _ (r : Recognizer) (c : Contract r) (vocab_size t b : ℕ) where
  abbrev from_root : r.State → SimpleVob → Walk r
  from_root x toks = record { rec = x; toks = toks; p = 1; next_pop = 0 }

  -- The loop of `add_bias` goes through all nodes below the root.
  from_root-Reaches :
      (ch : Children) (x : r.State) (a : c.Abstract) (toks toks' : SimpleVob)
      → Fits (node t b ch) 0
      → depth_children ch ≤ c.limit
      → c.Holds x (a ∷ [])
      → allow_all (visit_children c.next vocab_size ch a) toks ≡ some toks'
      → Reaches r c
          (flat (node t b ch) 0)
          vocab_size
          (suc (size_children ch))
          (from_root x toks)
          (size_children ch)
          (suc (size_children ch))
          toks'
          (a ∷ [])
  from_root-Reaches nil x a toks toks' fits shallow h ok = record {
    rounds = 0;
    w' = from_root x toks;
    gone = [];
    steps = here;
    few = omega arith;
    moved = refl;
    mask = cc ok;
    popped = refl;
    holds = h;
  }
  from_root-Reaches (cons y ys) x a toks toks' fits shallow h ok =
      let e : 1 + size_children (cons y ys) ≡ suc (size_children (cons y ys)) = omega arith in
      rw e at (
        walk_children r c (flat (node t b (cons y ys)) 0) vocab_size
          (suc (size_children (cons y ys))) (cons y ys) 0
          (packed b t 0 (suc (size_children (cons y ys))) ∷ []) [] (from_root x toks) a [] a []
          toks' (omega arith) fits.4
          (record {
            layout =
                ap (◌∷◌ (packed b t 0 (suc (size_children (cons y ys)))))
                  (sym (append-nil (flat_children (cons y ys) 0)));
            offset = refl;
            inside = omega arith;
          })
          (record { gone = []; popped = refl; holds = h })
          (record { ups = []; split = refl; counted = refl }) (omega arith) ok)

  module _ (ch : Children) (fits : Fits (node t b ch) 0)
      (shallow : depth_children ch ≤ c.limit) where
    loop_ends :
        (x : r.State) (a : c.Abstract) (toks toks' : SimpleVob)
        → (s : Reaches r c
            (flat (node t b ch) 0)
            vocab_size
            (suc (size_children ch))
            (from_root x toks)
            (size_children ch)
            (suc (size_children ch))
            toks'
            (a ∷ []))
        → bias_loop r
            (suc (length (flat (node t b ch) 0)))
            (flat (node t b ch) 0)
            vocab_size
            (suc (size_children ch))
            (from_root x toks)
          ≡ some s.w'
    unfolding bias_loop
    loop_ends x a toks toks' s =
        Steps-while _ _ (suc (length (flat (node t b ch) 0))) s.steps (ground (arith, s.moved))
          (omega (arith, s.few, length-flat_children ch 0))

    -- `add_bias` from the root allows exactly the tokens of `visit_children`, in any mask with room
    -- for them, and leaves the recognizer on its one state.
    pub add_bias-Biased :
        (rec : r.State) (a : c.Abstract) (toks : SimpleVob)
        → c.Holds rec (a ∷ [])
        → IsSized toks
        → vocab_size < toks.size
        → AllBelow toks.size (visit_children c.next vocab_size ch a)
        → Biased r c a toks vocab_size
            (visit_children c.next vocab_size ch a)
            (add_bias r (serialize_sorted (node t b ch) [] 0) vocab_size rec toks [])
    unfolding add_bias child_at_bytes disallow_token
    add_bias-Biased rec a toks h sized room below =
        let layout : serialize_sorted (node t b ch) [] 0 ≡ flat (node t b ch) 0 =
          serialize_sorted-flat (node t b ch) [] 0 fits in
        let (x, started, hx) = c.starts rec a h in
        let allowed = allow_all-Allowed (visit_children c.next vocab_size ch a) toks sized below in
        let s = from_root-Reaches ch x a toks allowed.out fits shallow hx allowed.returns in
        let (x1, popped, hx1) = c.pops s.w'.rec s.gone a [] s.holds in
        let (x2, finished, hx2) = c.finishes x1 a hx1 in
        let cleared =
          set_bit-IsWritten allowed.out vocab_size false allowed.sized
            (omega (arith, allowed.sized.room, allowed.same_size)) in
        let popped' : r.pop_bytes s.w'.rec s.w'.next_pop ≡ some x1 = rw (← s.popped) popped in
        record {
          rec = x2;
          mask = cleared.out;
          returns = rw (
            layout,
            started,
            subtree_size-packed b t 0 (suc (size_children ch)) fits.0 fits.2,
            zero-add (suc (size_children ch)),
            loop_ends x a toks allowed.out s,
            popped',
            finished,
            s.mask,
            cleared.returns,
          );
          restored = hx2;
          same_size = cleared.same_size ∙ allowed.same_size;
          sized = cleared.sized;
          flags = λ j. ground (arith, cleared.flags j, allowed.flags j);
        }
