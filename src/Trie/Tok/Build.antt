-- ===== src/Trie/Tok/Build.antt =====
-- The construction of a `TokTrie` of controllers/aici_abi/src/toktree.rs from a vocabulary, its
-- checks, and `chop_tokens`.
pub mod Words
use mathlib.Core.List.{reverse}
use aici.Prelude.{
  ℕ, zero, suc, ◌+◌, ◌-◌, ◌*◌, ◌%◌, ◌^◌, ◌==◌, ltb, leb, Bool, true, false, not, ◌&&◌, Option, none,
  some, List, [], ◌∷◌, ◌++◌, max, bit_or, length, get_elem?, set, replicate, range_from, ◌>>=◌,
  ◌>>◌, guard, if◌then◌else◌,
}
use aici.Prelude.Loops.{for_each}
use aici.Trie.Node.{TrieNode, subtree_size, token_id}
use aici.Trie.Hash.{TrieHash, insert, serialize}
use aici.Trie.Hash
use aici.Trie.Recognizer.{Recognizer}
use aici.Trie.Tok.{
  TokRxInfo, TokTrie, len_bits, next_child, child_at_bytes, token, token_at, greedy_tokenize,
}
use aici.Trie.Tok.Bias.{has_valid_extensions}

-- The variables of the loop in `from`.
pub record Building : Type 0 where
  pub trie : TrieHash
  pub token_offsets : List ℕ
  pub token_data : List ℕ

-- The descriptor of a word that is put at `start`: its length in the low bits, and `start` above.
abbrev pub desc : ℕ → List ℕ → ℕ
desc start word = bit_or (length word % 2 ^ 32) (start % 2 ^ 32 * 2 ^ len_bits % 2 ^ 32)

-- The round for the word with number `idx`.
unfoldable pub add_word : Building → ℕ → List ℕ → Option Building
add_word s idx word = do
  guard (ltb (length word) (2 ^ len_bits))
  guard (ltb (length s.token_data) (2 ^ (32 - len_bits)))
  some (record {
    trie = if length word == 0 then s.trie else insert word (idx % 2 ^ 32) s.trie;
    token_offsets = s.token_offsets ++ desc (length s.token_data) word ∷ [];
    token_data = s.token_data ++ word;
  })

unfoldable pub add_words : Building → ℕ → List (List ℕ) → Option Building
unfolding add_word
add_words s idx [] = some s
add_words s idx (word ∷ words) = add_word s idx word >>= λ s'. add_words s' (suc idx) words

-- `entry(tok).or_insert_with(Vec::new).push(dup)`.
abbrev pub push_duplicate : ℕ → ℕ → List (ℕ × List ℕ) → List (ℕ × List ℕ)
push_duplicate tok dup [] = (tok, dup ∷ []) ∷ []
push_duplicate tok dup ((k, dups) ∷ rest) =
    if k == tok then (k, dups ++ dup ∷ []) ∷ rest else (k, dups) ∷ push_duplicate tok dup rest

abbrev pub duplicates_of : ℕ → List (ℕ × List ℕ) → Option (List ℕ)
duplicates_of tok [] = none
duplicates_of tok ((k, dups) ∷ rest) = if k == tok then some dups else duplicates_of tok rest

abbrev pub add_duplicate : ℕ → List ℕ → List (ℕ × List ℕ) → List (ℕ × List ℕ)
add_duplicate tok_id [] m = m
add_duplicate tok_id (t ∷ []) m = if t == tok_id then m else push_duplicate t tok_id m
add_duplicate tok_id (t ∷ u ∷ rest) m = m

mutual
  -- The subtree at `off` ends by `ep`, and no token occurs twice. The fuel bounds the nodes.
  pub validate_node : ℕ → List TrieNode → ℕ → ℕ → ℕ → List Bool → Option (List Bool)
  validate_node zero nodes vocab_size off ep used = none
  validate_node (suc fuel) nodes vocab_size off ep used = do
    n ← get_elem? nodes off
    used' ← elim (token_id n) [
      | none ↦ some used
      | some tok ↦ do
        guard (ltb tok vocab_size)
        seen ← get_elem? used tok
        guard (not seen)
        some (set used tok true)
    ]
    guard (leb (off + subtree_size n) ep)
    validate_children fuel nodes vocab_size (off + 1) (off + subtree_size n) used'

  pub validate_children : ℕ → List TrieNode → ℕ → ℕ → ℕ → List Bool → Option (List Bool)
  validate_children zero nodes vocab_size current endp used = none
  validate_children (suc fuel) nodes vocab_size current endp used =
      next_child nodes current endp >>= elim [
        | none ↦ some used
        | some (child, current') ↦ validate_node fuel nodes vocab_size child endp used >>= λ used'.
            validate_children fuel nodes vocab_size current' endp used'
      ]

-- Twice as many rounds as nodes are enough: each child is a node and a round.
pub validate : TokTrie → Option TokTrie
unfolding validate_node
validate t = do
  root ← get_elem? t.nodes 0
  used ←
      validate_node (2 * suc (length t.nodes)) t.nodes t.info.vocab_size 0 (subtree_size root)
        (replicate t.info.vocab_size false)
  for_each (range_from 0 t.info.vocab_size) (λ idx u. token u idx >>= λ bytes. some u) t

-- The round of `finalize_ctor` for one token; `fuel` is that of `greedy_tokenize`.
pub finalize_token : ℕ → ℕ → TokTrie → Option TokTrie
finalize_token fuel tok_id t = do
  bytes ← token t tok_id
  tok_ids ← greedy_tokenize fuel t.nodes bytes
  some (record t {
    max_token_len = max t.max_token_len (length bytes);
    token_duplicates = add_duplicate tok_id tok_ids t.token_duplicates;
  })

pub finalize_ctor : ℕ → TokTrie → Option TokTrie
unfolding finalize_token validate
finalize_ctor fuel t =
    for_each (range_from 0 t.info.vocab_size) (λ tok_id u. finalize_token fuel tok_id u) t
    >>= validate

-- `TokTrie::from`.
pub from : ℕ → TokRxInfo → List (List ℕ) → Option TokTrie
unfolding add_words finalize_ctor
from fuel info words = do
  guard (info.vocab_size == length words % 2 ^ 32)
  built ← add_words (record { trie = Hash.new 0xff; token_offsets = []; token_data = [] }) 0 words
  finalize_ctor fuel (record {
    info = info;
    token_offsets = built.token_offsets;
    token_data = built.token_data;
    nodes = serialize built.trie [] 0;
    max_token_len = 0;
    token_duplicates = [];
  })

abbrev pub equal_bytes : List ℕ → List ℕ → Bool
equal_bytes [] [] = true
equal_bytes [] (y ∷ ys) = false
equal_bytes (x ∷ xs) [] = false
equal_bytes (x ∷ xs) (y ∷ ys) = x == y && equal_bytes xs ys

abbrev pub is_member : ℕ → List ℕ → Bool
is_member x [] = false
is_member x (y ∷ ys) = if y == x then true else is_member x ys

-- The round of `check_against` for one token.
pub check_token : TokTrie → ℕ → List ℕ → Option (Unit {0})
check_token t tid bytes = do
  own ← token t tid
  guard (equal_bytes bytes own)
  if length bytes == 0 then some tt else (do
    found ← child_at_bytes t.nodes 0 bytes
    off ← found
    tok ← token_at t.nodes off
    tid2 ← tok
    if tid == tid2
        then some tt
        else (duplicates_of tid2 t.token_duplicates >>= λ dups. guard (is_member tid dups)))

pub check_against : TokTrie → ℕ → List (List ℕ) → Option (Unit {0})
unfolding check_token
check_against t tid [] = some tt
check_against t tid (bytes ∷ rest) = check_token t tid bytes >> check_against t (suc tid) rest

module _ (r : Recognizer) (t : TokTrie) where
  -- The tokens from the last one on, with the suffix that they make.
  pub chop_from : r.State → ℕ → List ℕ → ℕ × ℕ → List ℕ → Option ((ℕ × ℕ) × r.State)
  chop_from rec idx suff chopped [] = some (chopped, rec)
  chop_from rec idx suff chopped (tok ∷ toks) = token t tok >>= λ bytes.
      if ltb t.max_token_len (length (bytes ++ suff))
      then some (chopped, rec)
      else (has_valid_extensions r t.nodes rec (bytes ++ suff) >>= λ (ok, rec').
          chop_from rec' (idx + 1) (bytes ++ suff)
            (if ok then (idx + 1, length (bytes ++ suff)) else chopped) toks)

  pub chop_tokens : r.State → List ℕ → Option ((ℕ × ℕ) × r.State)
  unfolding chop_from
  chop_tokens rec tokens = chop_from rec 0 [] (0, 0) (reverse tokens)
