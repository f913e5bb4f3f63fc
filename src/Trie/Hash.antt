-- ===== src/Trie/Hash.antt =====
-- `TrieHash` of controllers/aici_abi/src/toktree.rs: the tree that the words are put in, and its
-- serialisation into the array of nodes.
pub mod Spells
pub mod Flat
pub mod Order
use aici.Prelude.{
  ℕ, zero, suc, ◌+◌, ◌-◌, ◌*◌, ◌%◌, ◌^◌, ◌==◌, ltb, leb, Option, none, some, List, [], ◌∷◌, ◌++◌,
  length, get_elem?, set, range_from, if◌then◌else◌,
}
use aici.Trie.Node.{TrieNode, no_token}
use aici.Trie.Node

-- The token comes first, then the byte.
mutual
  pub data TrieHash : Type 0 where
    node : ℕ → ℕ → Children → TrieHash

  pub data Children : Type 0 where
    nil : Children
    cons : TrieHash → Children → Children

abbrev pub byte_of : TrieHash → ℕ
byte_of (node t b ch) = b

abbrev pub token_of : TrieHash → ℕ
token_of (node t b ch) = t

abbrev pub children_of : TrieHash → Children
children_of (node t b ch) = ch

unfoldable pub new : ℕ → TrieHash
new byte = node no_token byte nil

abbrev pub count : Children → ℕ
count nil = 0
count (cons c cs) = suc (count cs)

-- `children[i] = f(children[i])`; a byte is always in range of 256 children.
abbrev pub update_at : ℕ → (TrieHash → TrieHash) → Children → Children
update_at i f nil = nil
update_at zero f (cons c cs) = cons (f c) cs
update_at (suc i) f (cons c cs) = cons c (update_at i f cs)

-- The first child with the byte, changed in place; `none` when there is no such child.
abbrev pub update_byte : ℕ → (TrieHash → TrieHash) → Children → Option Children
update_byte b f nil = none
update_byte b f (cons c cs) =
    let rest = update_byte b f cs in
    if byte_of c == b
    then some (cons (f c) cs)
    else (elim rest [ none ↦ none | some cs' ↦ some (cons c cs') ])

abbrev pub push : Children → TrieHash → Children
push nil x = cons x nil
push (cons c cs) x = cons c (push cs x)

-- `(from..from + n).map(TrieHash::new)`.
abbrev pub fresh : ℕ → ℕ → Children
fresh from zero = nil
fresh from (suc n) = cons (node no_token from nil) (fresh (suc from) n)

-- for ch in self.children.drain(..) { v2[ch.byte] = ch }
abbrev pub place : Children → Children → Children
place nil v2 = v2
place (cons c cs) v2 = place cs (update_at (byte_of c) (λ _. c) v2)

abbrev pub densify : Children → Children
densify ch = if ltb 250 (count ch) then place ch (fresh 0 256) else ch

abbrev pub insert_child : ℕ → (TrieHash → TrieHash) → Children → Children
insert_child b f ch = if count ch == 0x100 then update_at b f ch else (elim (update_byte b f ch) [
  | some ch' ↦ ch'
  | none ↦ densify (push ch (f (node no_token b nil)))
])

unfoldable pub insert : List ℕ → ℕ → TrieHash → TrieHash
insert [] token_id (node t b ch) = node token_id b ch
insert (c ∷ word) token_id (node t b ch) = node t b (insert_child c (insert word token_id) ch)

-- `sort_by_key(|e| e.byte)`, which is stable.
unfoldable pub insert_sorted : TrieHash → Children → Children
insert_sorted x nil = cons x nil
insert_sorted x (cons c cs) =
    if leb (byte_of x) (byte_of c) then cons x (cons c cs) else cons c (insert_sorted x cs)

-- The sort that `serialize` does at every level. It reads the bytes of one level's children, which
-- serialising them leaves alone, so it is done first here, level by level.
unfoldable mutual
  unfolding insert_sorted

  pub sorted : TrieHash → TrieHash
  sorted (node t b ch) = node t b (sorted_children ch)

  pub sorted_children : Children → Children
  sorted_children nil = nil
  sorted_children (cons c cs) = insert_sorted (sorted c) (sorted_children cs)

abbrev pub set_size : List TrieNode → ℕ → List TrieNode
set_size data1 idx = elim (get_elem? data1 idx) [
  | none ↦ data1
  | some n ↦ set data1 idx (Node.add_size n (length data1 - idx))
]

-- `serialize` of a tree that is sorted; `num_parents + 1` is a sum of bytes.
mutual
  pub serialize_sorted : TrieHash → List TrieNode → ℕ → List TrieNode
  serialize_sorted (node t b ch) nodes num_parents =
      set_size (serialize_each ch (nodes ++ Node.new b t num_parents ∷ []) num_parents (count ch))
        (length nodes)

  pub serialize_each : Children → List TrieNode → ℕ → ℕ → List TrieNode
  serialize_each nil nodes num_parents num_ch = nodes
  serialize_each (cons c cs) nodes num_parents num_ch =
      serialize_each cs
        (serialize_sorted c nodes (if num_ch - 1 == 0 then (num_parents + 1) % 256 else 1))
        num_parents (num_ch - 1)

unfoldable pub serialize : TrieHash → List TrieNode → ℕ → List TrieNode
unfolding sorted serialize_sorted
serialize t nodes num_parents = serialize_sorted (sorted t) nodes num_parents
