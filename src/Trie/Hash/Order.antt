-- ===== src/Trie/Hash/Order.antt =====
-- The sort of the children in `serialize` of controllers/aici_abi/src/toktree.rs.
use aici.Prelude.{ℕ, ◌≤◌, ◌↔◌, arith, leb, List, Bool-cases, inl, inr}
use aici.Trie.Hash.{
  TrieHash, Children, node, nil, cons, byte_of, insert_sorted, sorted, sorted_children,
}
use aici.Trie.Hash.Spells.{Spells, sorted-Spells}

abbrev pub AtLeast : ℕ → Children → Type 0
AtLeast b nil = Unit {0}
AtLeast b (cons c cs) = (b ≤ byte_of c) × AtLeast b cs

-- The children of each node stand in the order of their bytes, at every level.
pub data InOrder : Children → Type 0 where
  no_child : InOrder nil
  first_child :
      {t b : ℕ} {ch cs : Children}
      → InOrder ch
      → AtLeast b cs
      → InOrder cs
      → InOrder (cons (node t b ch) cs)

AtLeast-insert_sorted :
    (d : ℕ) (x : TrieHash) (cs : Children)
    → d ≤ byte_of x
    → AtLeast d cs
    → AtLeast d (insert_sorted x cs)
unfolding insert_sorted
AtLeast-insert_sorted d x nil le h = (le, tt)
AtLeast-insert_sorted d x (cons c cs) le h = elim (Bool-cases (leb (byte_of x) (byte_of c))) [
  | inl e ↦ rw e (le, h)
  | inr e ↦ rw e (h.0, AtLeast-insert_sorted d x cs le h.1)
]

AtLeast-weaken : (d b : ℕ) (cs : Children) → d ≤ b → AtLeast b cs → AtLeast d cs
AtLeast-weaken d b nil le h = tt
AtLeast-weaken d b (cons c cs) le h = (omega (arith, le, h.0), AtLeast-weaken d b cs le h.1)

insert_sorted-InOrder :
    (t b : ℕ) (ch cs : Children)
    → InOrder ch
    → InOrder cs
    → InOrder (insert_sorted (node t b ch) cs)
unfolding insert_sorted
insert_sorted-InOrder t b ch nil below no_child = first_child below tt no_child
insert_sorted-InOrder t b ch (cons (node t' b' ch') cs) below (first_child below' after rest) =
    elim (Bool-cases (leb b b')) [
      | inl e ↦
          let le : b ≤ b' = ground (arith, e) in
          rw e (
            first_child below (le, AtLeast-weaken b b' cs le after) (first_child below' after rest))
      | inr e ↦ rw e (
          first_child below' (AtLeast-insert_sorted b' (node t b ch) cs (ground (arith, e)) after)
            (insert_sorted-InOrder t b ch cs below rest))
    ]

sorted_children-InOrder : (ch : Children) → InOrder (sorted_children ch)
unfolding sorted
sorted_children-InOrder nil = no_child
sorted_children-InOrder (cons (node t b ch) cs) =
    insert_sorted-InOrder t b (sorted_children ch) (sorted_children cs) (sorted_children-InOrder ch)
      (sorted_children-InOrder cs)

-- Sorting the children at every level puts the children of each node in the order of their
-- bytes, and keeps the words that the tree spells and their tokens, in both directions.
pub sorted-InOrder :
    (ch : Children)
    → InOrder (sorted_children ch)
      × ((w : List ℕ) (j : ℕ) → Spells (sorted_children ch) w j ↔ Spells ch w j)
sorted-InOrder ch = (sorted_children-InOrder ch, sorted-Spells ch)
