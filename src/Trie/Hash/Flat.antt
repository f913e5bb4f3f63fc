-- ===== src/Trie/Hash/Flat.antt =====
-- The array of nodes that `TrieHash::serialize` of controllers/aici_abi/src/toktree.rs appends,
-- described without the mutation: each subtree is its own node, with its size, before its children.
use aici.Prelude.{
  ℕ, suc, ◌+◌, ◌-◌, ◌%◌, ◌^◌, ◌<◌, ◌≡◌, refl, ap, sym, arith, ◌==◌, List, [], ◌∷◌, ◌++◌,
  append_assoc, append-nil, length, if◌then◌else◌, length-append, get_elem?-middle, set-middle,
}
use aici.Trie.Node.{TrieNode, packed, add_size-new}
use aici.Trie.Node
use aici.Trie.Hash.{
  TrieHash, Children, node, nil, cons, count, serialize_sorted, serialize_each, set_size, sorted,
  serialize,
}

abbrev mutual
  pub size : TrieHash → ℕ
  size (node t b ch) = suc (size_children ch)

  pub size_children : Children → ℕ
  size_children nil = 0
  size_children (cons c cs) = size c + size_children cs

-- The levels to leave after a child: the last one leaves its parent's too.
abbrev pub levels : Children → ℕ → ℕ
levels nil k = suc k
levels (cons c cs) k = 1

abbrev mutual
  pub flat : TrieHash → ℕ → List TrieNode
  flat (node t b ch) k = packed b t k (suc (size_children ch)) ∷ flat_children ch k

  pub flat_children : Children → ℕ → List TrieNode
  flat_children nil k = []
  flat_children (cons c cs) k = flat c (levels cs k) ++ flat_children cs k

-- Every field of every node fits its bits: bytes, tokens below 2 ^ 24, sizes below 2 ^ 24, and
-- levels below 256.
abbrev mutual
  pub Fits : TrieHash → ℕ → Type 0
  Fits (node t b ch) k =
      (b < 2 ^ 8)
      × (t < 2 ^ 24)
      × (k < 2 ^ 8)
      × (suc (size_children ch) < 2 ^ 24)
      × FitsChildren ch k

  pub FitsChildren : Children → ℕ → Type 0
  FitsChildren nil k = Unit {0}
  FitsChildren (cons c cs) k = Fits c (levels cs k) × FitsChildren cs k

mutual
  pub length-flat : (t : TrieHash) (k : ℕ) → length (flat t k) ≡ size t
  length-flat (node t b ch) k = ap suc (length-flat_children ch k)

  pub length-flat_children :
      (ch : Children) (k : ℕ) → length (flat_children ch k) ≡ size_children ch
  length-flat_children nil k = refl
  length-flat_children (cons c cs) k = omega (
    arith,
    length-append (flat c (levels cs k)) (flat_children cs k),
    length-flat c (levels cs k),
    length-flat_children cs k,
  )

set_size-middle :
    (xs ys : List TrieNode) (b t k s : ℕ)
    → b < 2 ^ 8
    → k < 2 ^ 8
    → t < 2 ^ 24
    → s < 2 ^ 24
    → s ≡ suc (length ys)
    → set_size (xs ++ Node.new b t k ∷ ys) (length xs) ≡ xs ++ packed b t k s ∷ ys
set_size-middle xs ys b t k s hb hk ht hs e =
    let grown : length (xs ++ Node.new b t k ∷ ys) - length xs ≡ s =
      omega (arith, length-append xs (Node.new b t k ∷ ys)) in
    rw (
      get_elem?-middle xs ys (Node.new b t k) (length xs) refl,
      set_size,
      set-middle xs ys (Node.new b t k) _ (length xs) refl,
      grown,
      add_size-new b t k s hb hk ht hs,
    )

level_test :
    (cs : Children) (k : ℕ)
    → levels cs k < 2 ^ 8
    → (if count cs == 0 then (k + 1) % 256 else 1) ≡ levels cs k
level_test nil k h = omega arith
level_test (cons c cs) k h = ground arith

Fits-level : (t : TrieHash) (k : ℕ) → Fits t k → k < 2 ^ 8
Fits-level (node t b ch) k h = h.2

mutual
  unfolding serialize_sorted

  -- If every field of every node fits its bits, the recursive serialisation of a sorted tree,
  -- which pushes nodes and patches their sizes in place, appends the flat form of the tree: each
  -- node packed with its byte, token, levels to leave and subtree size, before its children in
  -- order.
  pub serialize_sorted-flat :
      (t : TrieHash) (nodes : List TrieNode) (k : ℕ)
      → Fits t k
      → serialize_sorted t nodes k ≡ nodes ++ flat t k
  serialize_sorted-flat (node t b ch) nodes k h =
      rw (serialize_each-flat ch (nodes ++ Node.new b t k ∷ []) k (count ch) refl h.4) (
        rw (append_assoc nodes (Node.new b t k ∷ []) (flat_children ch k)) (
          set_size-middle nodes (flat_children ch k) b t k (suc (size_children ch)) h.0 h.2 h.1 h.3
            (ap suc (sym (length-flat_children ch k)))))

  serialize_each-flat :
      (ch : Children) (nodes : List TrieNode) (k num_ch : ℕ)
      → num_ch ≡ count ch
      → FitsChildren ch k
      → serialize_each ch nodes k num_ch ≡ nodes ++ flat_children ch k
  serialize_each-flat nil nodes k num_ch e h = sym (append-nil nodes)
  serialize_each-flat (cons c cs) nodes k num_ch e h =
      let e' : num_ch - 1 ≡ count cs = omega arith in
      rw
        (
          e',
          level_test cs k (Fits-level c (levels cs k) h.0),
          serialize_sorted-flat c nodes (levels cs k) h.0,
          serialize_each-flat cs (nodes ++ flat c (levels cs k)) k (count cs) refl h.1,
        )
        (append_assoc nodes (flat c (levels cs k)) (flat_children cs k))

-- If every field of every node of the sorted tree fits its bits, `serialize`, which sorts the
-- children, pushes nodes and patches their sizes in place, appends the flat form of the sorted
-- tree: each node packed with its byte, token, levels to leave and subtree size, before its
-- children in order.
pub serialize-flat :
    (t : TrieHash) (nodes : List TrieNode) (k : ℕ)
    → Fits (sorted t) k
    → serialize t nodes k ≡ nodes ++ flat (sorted t) k
unfolding serialize
serialize-flat t nodes k h = serialize_sorted-flat (sorted t) nodes k h
