-- ===== src/Trie/Hash/Spells.antt =====
-- The words of a tree of controllers/aici_abi/src/toktree.rs, as paths from the root, and that
-- sorting the children keeps them.
use aici.Prelude.{ℕ, ◌↔◌, leb, List, [], ◌∷◌, Bool-cases, inl, inr}
use aici.Trie.Hash.{
  TrieHash, Children, node, nil, cons, byte_of, insert_sorted, sorted, sorted_children,
}

-- A path below a node with children `ch` spells `w` and ends at a node with token `j`.
pub data Spells : Children → List ℕ → ℕ → Type 0 where
  here : {t b : ℕ} {ch cs : Children} → Spells (cons (node t b ch) cs) (b ∷ []) t
  down :
      {t b j : ℕ} {ch cs : Children} {w : List ℕ}
      → Spells ch w j
      → Spells (cons (node t b ch) cs) (b ∷ w) j
  aside :
      {c : TrieHash} {cs : Children} {w : List ℕ} {j : ℕ} → Spells cs w j → Spells (cons c cs) w j

insert_sorted-Spells :
    (x : TrieHash) (cs : Children) {w : List ℕ} {j : ℕ}
    → Spells (insert_sorted x cs) w j ↔ Spells (cons x cs) w j
unfolding insert_sorted
insert_sorted-Spells x nil = (λ s. s, λ s. s)
insert_sorted-Spells x (cons c cs) {w = w} {j = j} =
    elim (Bool-cases (leb (byte_of x) (byte_of c))) [
      | inl e ↦ rw e (λ s. s, λ s. s)
      | inr e ↦ rw e (
        λ s. swap (map_tail c (λ s'. (insert_sorted-Spells x cs).0 s') s),
        λ s. map_tail c (λ s'. (insert_sorted-Spells x cs).1 s') (swap s),
      )
    ]
  where
    swap :
        {c d : TrieHash} {cs : Children} {w : List ℕ} {j : ℕ}
        → Spells (cons c (cons d cs)) w j
        → Spells (cons d (cons c cs)) w j
    swap here = aside here
    swap (down s) = aside (down s)
    swap (aside here) = here
    swap (aside (down s)) = down s
    swap (aside (aside s)) = aside (aside s)

    map_tail :
        (c : TrieHash) {cs ds : Children} {w : List ℕ} {j : ℕ}
        → (Spells cs w j → Spells ds w j)
        → Spells (cons c cs) w j
        → Spells (cons c ds) w j
    map_tail c f here = here
    map_tail c f (down s) = down s
    map_tail c f (aside s) = aside (f s)

replace :
    {t b j : ℕ} {ch ch' cs cs' : Children} {w : List ℕ}
    → ((w' : List ℕ) → Spells ch w' j → Spells ch' w' j)
    → (Spells cs w j → Spells cs' w j)
    → Spells (cons (node t b ch) cs) w j
    → Spells (cons (node t b ch') cs') w j
replace f g here = here
replace f g (down {w = w} s) = down (f w s)
replace f g (aside s) = aside (g s)

unsort : (ch : Children) (w : List ℕ) {j : ℕ} → Spells (sorted_children ch) w j → Spells ch w j
unfolding sorted
unsort nil w s = s
unsort (cons (node t b ch) cs) w s =
    replace (λ w' s'. unsort ch w' s') (λ s'. unsort cs w s')
      ((insert_sorted-Spells (node t b (sorted_children ch)) (sorted_children cs)).0 s)

sort : (ch : Children) (w : List ℕ) {j : ℕ} → Spells ch w j → Spells (sorted_children ch) w j
unfolding sorted
sort nil w s = s
sort (cons (node t b ch) cs) w s =
    (insert_sorted-Spells (node t b (sorted_children ch)) (sorted_children cs)).1
      (replace (λ w' s'. sort ch w' s') (λ s'. sort cs w s') s)

-- Sorting the children at every level keeps the words that the tree spells and their tokens, in
-- both directions.
pub sorted-Spells :
    (ch : Children) (w : List ℕ) (j : ℕ) → Spells (sorted_children ch) w j ↔ Spells ch w j
sorted-Spells ch w j = (unsort ch w, sort ch w)
