-- ===== src/Trie/Tok/Bias/Loop.antt =====
-- The loop of `add_bias` of controllers/aici_abi/src/toktree.rs over a serialised subtree does what
-- the recursion on the tree does, and leaves on the recognizer's stack what the node's count of
-- levels says.
use aici.Prelude.{
  ℕ, suc, ◌+◌, ◌-◌, ◌≤◌, ◌<◌, ◌≡◌, refl, ap, sym, ◌∙◌, arith, ◌==◌, ltb, none, some, List, [], ◌∷◌,
  ◌++◌, append_assoc, append-nil, length, length-append, get_elem?, get_elem?-middle, if◌then◌else◌,
  lt→ltb, Option-cases, inl, inr, ◌^◌,
}
use aici.Prelude.Loops.{Steps, here, more, Steps-trans}
use aici.Trie.Node.{
  TrieNode, packed, no_token, byte-packed, num_parents-packed, subtree_size-packed, token_id-packed,
}
use aici.Trie.Hash.{TrieHash, Children, node, nil, cons, count}
use aici.Trie.Hash.Flat.{size, size_children, flat, flat_children, Fits, FitsChildren, length-flat}
use aici.Trie.Recognizer.{Recognizer, Contract}
use aici.Trie.Tok.Bias.{Walk, bias_step, unwrap_or}
use aici.Trie.Tok.Bias.Visit.{
  depth, depth_children, or_default, visit, visit_children, allow_all, allow_all-append,
  Option-split,
}
use aici.Vob.{SimpleVob, allow_token}

unwrap_token :
    (t defl : ℕ) → unwrap_or (if t == no_token then none else some t) defl ≡ or_default defl t
unwrap_token t defl = ground arith

size_pos : (t : TrieHash) → 0 < size t
size_pos (node t b ch) = omega arith

module _ (r : Recognizer) (c : Contract r) (nodes : List TrieNode) (defl endp : ℕ) where
  -- From `w` the loop runs through `n` nodes: it comes to offset `to`, the mask is `toks`, and the
  -- next pop will leave the states `left`.
  pub record Reaches (w : Walk r) (n to : ℕ) (toks : SimpleVob) (left : List c.Abstract)
      : Type 0 where
    pub rounds : ℕ
    pub w' : Walk r
    pub gone : List c.Abstract
    pub steps : Steps (λ v. ltb v.p endp) (λ v. bias_step r nodes defl v) rounds w w'
    pub few : rounds ≤ n
    pub moved : w'.p ≡ to
    pub mask : w'.toks ≡ toks
    pub popped : length gone ≡ w'.next_pop
    pub holds : c.Holds w'.rec (gone ++ left)

  -- The next pop leaves the abstract state `a` on top of `below`.
  pub record Ready (w : Walk r) (a : c.Abstract) (below : List c.Abstract) : Type 0 where
    pub gone : List c.Abstract
    pub popped : length gone ≡ w.next_pop
    pub holds : c.Holds w.rec (gone ++ a ∷ below)

  Reaches-cast :
      {w : Walk r} {m n to to' : ℕ} {toks : SimpleVob} {left : List c.Abstract}
      → m ≡ n
      → to ≡ to'
      → Reaches w m to toks left
      → Reaches w n to' toks left
  Reaches-cast e f s = record {
    rounds = s.rounds;
    w' = s.w';
    gone = s.gone;
    steps = s.steps;
    few = omega (arith, s.few);
    moved = s.moved ∙ f;
    mask = s.mask;
    popped = s.popped;
    holds = s.holds;
  }

  Reaches-mask :
      {w : Walk r} {n to : ℕ} {toks toks' : SimpleVob} {left : List c.Abstract}
      → toks ≡ toks'
      → Reaches w n to toks left
      → Reaches w n to toks' left
  Reaches-mask e s = rw (← e) s

  Reaches-trans :
      {w : Walk r} {m n to to' : ℕ} {toks toks' : SimpleVob} {left left' : List c.Abstract}
      → (s : Reaches w m to toks left) → Reaches s.w' n to' toks' left'
      → Reaches w (m + n) to' toks' left'
  Reaches-trans s t = record {
    rounds = s.rounds + t.rounds;
    w' = t.w';
    gone = t.gone;
    steps = Steps-trans _ _ s.steps t.steps;
    few = omega (arith, s.few, t.few);
    moved = t.moved;
    mask = t.mask;
    popped = t.popped;
    holds = t.holds;
  }

  module _ (w : Walk r) (t b k s : ℕ) (fits_b : b < 2 ^ 8) (fits_k : k < 2 ^ 8)
      (inside : w.p < endp) (at_p : get_elem? nodes w.p ≡ some (packed b t k s)) (a : c.Abstract)
      (below : List c.Abstract) (ready : Ready w a below) where
    -- A round at a node whose byte is refused skips its subtree.
    step_refused :
        c.next a b ≡ none
        → 0 < k
        → (x : r.State) × (bias_step r nodes defl w
            ≡ some (record { rec = x; toks = w.toks; p = w.p + s; next_pop = k - 1 }))
          × c.Holds x (a ∷ below)
    unfolding bias_step
    step_refused e pos =
        let (x, px, hx) = c.pops w.rec ready.gone a below ready.holds in
        let (y, py, hy) = c.push_refused x a below b hx e in
        let px' : r.pop_bytes w.rec w.next_pop ≡ some x = rw (← ready.popped) px in
        (
          y,
          rw
              (
                px',
                at_p,
                byte-packed b t k s fits_b fits_k,
                py,
                num_parents-packed b t k s fits_b fits_k,
                subtree_size-packed b t k s fits_b fits_k,
              )
              (ground arith),
          hy,
        )

    -- A round at a node whose byte is allowed allows its token and goes to the next node.
    step_allowed :
        (a' : c.Abstract) (toks : SimpleVob)
        → c.next a b ≡ some a'
        → length below < c.limit
        → allow_token w.toks (or_default defl t) ≡ some toks
        → (x : r.State) × (bias_step r nodes defl w
            ≡ some
                (record { rec = x; toks = toks; p = w.p + 1; next_pop = if s == 1 then k else 0 }))
          × c.Holds x (a' ∷ a ∷ below)
    unfolding bias_step
    step_allowed a' toks e room ok =
        let (x, px, hx) = c.pops w.rec ready.gone a below ready.holds in
        let (y, py, hy) = c.push_allowed x a a' below b hx room e in
        let px' : r.pop_bytes w.rec w.next_pop ≡ some x = rw (← ready.popped) px in
        (
          y,
          rw (
            px',
            at_p,
            byte-packed b t k s fits_b fits_k,
            py,
            num_parents-packed b t k s fits_b fits_k,
            subtree_size-packed b t k s fits_b fits_k,
            token_id-packed b t k s fits_b fits_k,
            unwrap_token t defl,
            ok,
          ),
          hy,
        )

  -- A state `a` on top of `below`, of which `ups` is popped after the subtree, down to `left`.
  pub record Leaves (a : c.Abstract) (below : List c.Abstract) (k : ℕ) (left : List c.Abstract)
      : Type 0 where
    pub ups : List c.Abstract
    pub split : a ∷ below ≡ ups ++ left
    pub counted : suc (length ups) ≡ k

  -- The subtree `t` stands at offset `w.p`, and its words are allowed in the mask.
  pub record Stands (f : List TrieNode) (n : ℕ) (w : Walk r) (pre post : List TrieNode)
      : Type 0 where
    pub layout : nodes ≡ pre ++ (f ++ post)
    pub offset : w.p ≡ length pre
    pub inside : w.p + n ≤ endp

  node_at :
      (t b : ℕ) (ch : Children) (k : ℕ) (pre post : List TrieNode) (w : Walk r)
      → Stands (flat (node t b ch) k) (size (node t b ch)) w pre post
      → get_elem? nodes w.p ≡ some (packed b t k (suc (size_children ch)))
  node_at t b ch k pre post w st = rw st.layout (
      get_elem?-middle pre (flat_children ch k ++ post) (packed b t k (suc (size_children ch))) w.p
        st.offset)

  walk_refused :
      (t b : ℕ) (ch : Children) (k : ℕ) (pre post : List TrieNode) (w : Walk r) (a : c.Abstract)
      (below : List c.Abstract) (l : c.Abstract) (rest : List c.Abstract)
      → Fits (node t b ch) k
      → Stands (flat (node t b ch) k) (size (node t b ch)) w pre post
      → Ready w a below
      → Leaves a below k (l ∷ rest)
      → c.next a b ≡ none
      → Reaches w (size (node t b ch)) (w.p + size (node t b ch)) w.toks (l ∷ rest)
  walk_refused t b ch k pre post w a below l rest fits st ready leaves e =
      let (x, step, holds) =
        step_refused w t b k (suc (size_children ch)) fits.0 fits.2 (omega (arith, st.inside))
          (node_at t b ch k pre post w st) a below ready e (omega (arith, leaves.counted)) in
      record {
        rounds = 1;
        w' = record { rec = x; toks = w.toks; p = w.p + suc (size_children ch); next_pop = k - 1 };
        gone = leaves.ups;
        steps = more (lt→ltb w.p endp (omega (arith, st.inside))) step here;
        few = omega arith;
        moved = refl;
        mask = refl;
        popped = omega (arith, leaves.counted);
        holds = rw (← leaves.split) holds;
      }

  -- A round at a node that is allowed comes to the next node, with its own state on top.
  record Enters (w : Walk r) (k s : ℕ) (a' a : c.Abstract) (below : List c.Abstract)
      (toks : SimpleVob) : Type 0 where
    x : r.State
    steps :
        Steps
          (λ v. ltb v.p endp)
          (λ v. bias_step r nodes defl v)
          1
          w
          (record { rec = x; toks = toks; p = w.p + 1; next_pop = if s == 1 then k else 0 })
    holds : c.Holds x (a' ∷ a ∷ below)

  enter :
      (t b : ℕ) (ch : Children) (k : ℕ) (pre post : List TrieNode) (w : Walk r) (a a' : c.Abstract)
      (below : List c.Abstract) (toks : SimpleVob)
      → Fits (node t b ch) k
      → Stands (flat (node t b ch) k) (size (node t b ch)) w pre post
      → Ready w a below
      → c.next a b ≡ some a'
      → length below < c.limit
      → allow_token w.toks (or_default defl t) ≡ some toks
      → Enters w k (suc (size_children ch)) a' a below toks
  enter t b ch k pre post w a a' below toks fits st ready e room ok =
      let (x, step, holds) =
        step_allowed w t b k (suc (size_children ch)) fits.0 fits.2 (omega (arith, st.inside))
          (node_at t b ch k pre post w st) a below ready a' toks e room ok in
      record {
        x = x;
        steps = more (lt→ltb w.p endp (omega (arith, st.inside))) step here;
        holds = holds;
      }

  mutual
    -- The loop runs through a subtree.
    pub walk_tree :
        (t : TrieHash) (k : ℕ) (pre post : List TrieNode) (w : Walk r) (a : c.Abstract)
        (below : List c.Abstract) (l : c.Abstract) (rest : List c.Abstract) (toks : SimpleVob)
        → Fits t k
        → Stands (flat t k) (size t) w pre post
        → Ready w a below
        → Leaves a below k (l ∷ rest)
        → length below + depth t ≤ c.limit
        → allow_all (visit c.next defl t a) w.toks ≡ some toks
        → Reaches w (size t) (w.p + size t) toks (l ∷ rest)
    walk_tree (node t b nil) k pre post w a below l rest toks fits st ready leaves room ok =
        elim (Option-cases (c.next a b)) [
          | inl e ↦
              Reaches-mask (cc (rw e at ok))
                (walk_refused t b nil k pre post w a below l rest fits st ready leaves e)
          | inr (a', e) ↦
              let (toks1, ok1, ok2) =
                Option-split (allow_token w.toks (or_default defl t)) some toks (rw e at ok) in
              let here' =
                enter t b nil k pre post w a a' below toks1 fits st ready e (omega arith) ok1 in
              record {
                rounds = 1;
                w' = record { rec = here'.x; toks = toks1; p = w.p + 1; next_pop = k };
                gone = a' ∷ leaves.ups;
                steps = here'.steps;
                few = omega arith;
                moved = refl;
                mask = cc ok2;
                popped = leaves.counted;
                holds = rw (← leaves.split) here'.holds;
              }
        ]
    walk_tree (node t b (cons y ys)) k pre post w a below l rest toks fits st ready leaves room ok =
        elim (Option-cases (c.next a b)) [
          | inl e ↦
              Reaches-mask (cc (rw e at ok))
                (walk_refused t b (cons y ys) k pre post w a below l rest fits st ready leaves e)
          | inr (a', e) ↦
              let (toks1, ok1, ok2) =
                Option-split (allow_token w.toks (or_default defl t))
                  (allow_all (visit_children c.next defl (cons y ys) a')) toks (rw e at ok) in
              let enters =
                enter t b (cons y ys) k pre post w a a' below toks1 fits st ready e (omega arith)
                  ok1 in
              let w1 : Walk r = record {
                rec = enters.x;
                toks = toks1;
                p = w.p + 1;
                next_pop = if suc (size_children (cons y ys)) == 1 then k else 0;
              } in
              let inner =
                walk_children (cons y ys) k
                  (pre ++ packed b t k (suc (size_children (cons y ys))) ∷ []) post w1 a'
                  (a ∷ below) l rest toks (omega arith) fits.4
                  (record {
                    layout =
                        st.layout
                        ∙ sym (
                            append_assoc pre (packed b t k (suc (size_children (cons y ys))) ∷ [])
                              (flat_children (cons y ys) k ++ post));
                    offset = omega (
                      arith,
                      st.offset,
                      length-append pre (packed b t k (suc (size_children (cons y ys))) ∷ []),
                    );
                    inside = omega (arith, st.inside);
                  })
                  (record { gone = []; popped = ground (arith, size_pos y); holds = enters.holds })
                  (record {
                    ups = a' ∷ leaves.ups;
                    split = ap (◌∷◌ a') leaves.split;
                    counted = ap suc leaves.counted;
                  })
                  (omega arith) ok2 in
              record {
                rounds = 1 + inner.rounds;
                w' = inner.w';
                gone = inner.gone;
                steps = Steps-trans _ _ enters.steps inner.steps;
                few = omega (arith, inner.few);
                moved = inner.moved ∙ omega arith;
                mask = inner.mask;
                popped = inner.popped;
                holds = inner.holds;
              }
        ]

    pub walk_children :
        (ch : Children) (k : ℕ) (pre post : List TrieNode) (w : Walk r) (a : c.Abstract)
        (below : List c.Abstract) (l : c.Abstract) (rest : List c.Abstract) (toks : SimpleVob)
        → 0 < count ch
        → FitsChildren ch k
        → Stands (flat_children ch k) (size_children ch) w pre post
        → Ready w a below
        → Leaves a below (suc k) (l ∷ rest)
        → length below + depth_children ch ≤ c.limit
        → allow_all (visit_children c.next defl ch a) w.toks ≡ some toks
        → Reaches w (size_children ch) (w.p + size_children ch) toks (l ∷ rest)
    walk_children nil k pre post w a below l rest toks some_child fits st ready leaves room ok =
        elim some_child [ ]
    walk_children (cons x nil) k pre post w a below l rest toks some_child fits st ready leaves room
          ok =
        Reaches-cast (omega arith) (omega arith) (
          walk_tree x (suc k) pre post w a below l rest toks fits.0
            (record {
              layout = st.layout ∙ ap (λ f. pre ++ (f ++ post)) (append-nil (flat x (suc k)));
              offset = st.offset;
              inside = omega (arith, st.inside);
            })
            ready leaves (omega arith) (rw append-nil at ok))
    walk_children (cons x (cons y ys)) k pre post w a below l rest toks some_child fits st ready
          leaves room ok =
        let (toks1, ok1, ok2) =
          Option-split (allow_all (visit c.next defl x a) w.toks)
            (allow_all (visit_children c.next defl (cons y ys) a)) toks
            (sym (
                allow_all-append (visit c.next defl x a) (visit_children c.next defl (cons y ys) a)
                  w.toks)
              ∙ ok) in
        let first =
          walk_tree x 1 pre (flat_children (cons y ys) k ++ post) w a below a below toks1 fits.0
            (record {
              layout =
                  st.layout
                  ∙ ap (◌++◌ pre) (append_assoc (flat x 1) (flat_children (cons y ys) k) post);
              offset = st.offset;
              inside = omega (arith, st.inside);
            })
            ready (record { ups = []; split = refl; counted = refl }) (omega arith) ok1 in
        let second =
          walk_children (cons y ys) k (pre ++ flat x 1) post first.w' a below l rest toks
            (omega arith) fits.1
            (record {
              layout =
                  st.layout
                  ∙ ap (◌++◌ pre) (append_assoc (flat x 1) (flat_children (cons y ys) k) post)
                  ∙ sym (append_assoc pre (flat x 1) (flat_children (cons y ys) k ++ post));
              offset =
                  omega
                    (arith, first.moved, st.offset, length-append pre (flat x 1), length-flat x 1);
              inside = omega (arith, first.moved, st.inside);
            })
            (record { gone = first.gone; popped = first.popped; holds = first.holds }) leaves
            (omega arith) (rw first.mask ok2) in
        Reaches-cast refl (omega (arith, first.moved)) (Reaches-trans first second)
