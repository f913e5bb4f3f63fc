-- ===== src/Trie/Tok.antt =====
-- `TokTrie` of controllers/aici_abi/src/toktree.rs: navigation in the array of nodes and the tokens'
-- bytes. A reference to a node is its offset in the array; the results are `none` on a panic.
pub mod Bias
pub mod Build
use aici.Prelude.{
  ℕ, zero, suc, ◌+◌, ◌-◌, ◌*◌, ◌/◌, ◌^◌, ◌==◌, ltb, leb, Bool, true, false, Option, none, some,
  List, [], ◌∷◌, ◌++◌, bit_and, length, get_elem?, take, drop, ◌>>=◌, ◌>>◌, guard, if◌then◌else◌,
}
use aici.Trie.Node.{TrieNode, byte, subtree_size, token_id}

-- `TokRxInfo` of bytes.rs.
pub record TokRxInfo : Type 0 where
  pub vocab_size : ℕ
  pub tok_eos : ℕ

pub record TokTrie : Type 0 where
  pub info : TokRxInfo
  pub token_offsets : List ℕ
  pub token_data : List ℕ
  pub nodes : List TrieNode
  pub max_token_len : ℕ
  pub token_duplicates : List (ℕ × List ℕ)

-- max length of token is 1023 bytes
abbrev pub len_bits : ℕ
len_bits = 10

-- `NodeChildren::next`: the offset of the child, and the iterator's new `current_offset`.
unfoldable pub next_child : List TrieNode → ℕ → ℕ → Option (Option (ℕ × ℕ))
next_child nodes current_offset end_offset =
    if ltb current_offset end_offset
    then (get_elem? nodes current_offset >>= λ node.
        some (some (current_offset, current_offset + subtree_size node)))
    else some none

-- The loop over `node_children(n)`. The fuel bounds the number of children.
unfoldable pub find_child : List TrieNode → ℕ → ℕ → ℕ → ℕ → Option (Option ℕ)
find_child nodes zero current end_offset b = none
find_child nodes (suc fuel) current end_offset b = next_child nodes current end_offset >>= elim [
  | none ↦ some none
  | some (child, current') ↦
      let rest = find_child nodes fuel current' end_offset b in
      get_elem? nodes child >>= λ n. if byte n == b then some (some child) else rest
]

unfoldable pub child_at_byte : List TrieNode → ℕ → ℕ → Option (Option ℕ)
unfolding find_child next_child
child_at_byte nodes off b = do
  n ← get_elem? nodes off
  find_child nodes (suc (length nodes)) (off + 1) (off + subtree_size n) b

unfoldable pub child_at_bytes : List TrieNode → ℕ → List ℕ → Option (Option ℕ)
child_at_bytes nodes off [] = some (some off)
child_at_bytes nodes off (b ∷ bytes) =
    child_at_byte nodes off b
    >>= elim [ none ↦ some none | some child ↦ child_at_bytes nodes child bytes ]

-- `data[from..to]`.
abbrev pub slice : List ℕ → ℕ → ℕ → Option (List ℕ)
slice bytes from to =
    guard (leb from to)
    >> guard (leb to (length bytes))
    >> some (take (to - from) (drop from bytes))

-- The bytes of a token.
unfoldable pub token : TokTrie → ℕ → Option (List ℕ)
token t idx = do
  off ← get_elem? t.token_offsets idx
  let len = bit_and off (2 ^ len_bits - 1)
  let start = off / 2 ^ len_bits
  slice t.token_data start (start + len)

pub decode : TokTrie → List ℕ → Option (List ℕ)
decode t [] = some []
decode t (tok ∷ toks) = do bytes ← token t tok; rest ← decode t toks; some (bytes ++ rest)

unfoldable pub token_at : List TrieNode → ℕ → Option (Option ℕ)
token_at nodes off = get_elem? nodes off >>= λ n. some (token_id n)

-- The variables of the loop in `greedy_tokenize`.
pub record Greedy : Type 0 where
  pub out : List ℕ
  pub n : ℕ
  pub last_tok : Option ℕ
  pub last_idx : ℕ
  pub idx : ℕ

-- One round; `idx` is below the number of bytes.
unfoldable pub greedy_step : List TrieNode → List ℕ → Greedy → Option Greedy
greedy_step nodes bytes g = do
  b ← get_elem? bytes g.idx
  child ← child_at_byte nodes g.n b
  elim child [
    | some c ↦ token_at nodes c >>= elim [
      | some tok ↦
          some
            (record { out = g.out; n = c; last_tok = some tok; last_idx = g.idx; idx = g.idx + 1 })
      | none ↦ some (record g { n = c; idx = g.idx + 1 })
    ]
    | none ↦ g.last_tok >>= λ tok.
        some (record g { out = g.out ++ tok ∷ []; n = 0; idx = g.last_idx + 1 })
  ]

-- `none` also when the fuel runs out: the loop steps back after each token, and need not end.
unfoldable pub greedy_loop : ℕ → List TrieNode → List ℕ → Greedy → Option Greedy
greedy_loop zero nodes bytes g = none
greedy_loop (suc fuel) nodes bytes g = elim (ltb g.idx (length bytes)) [
  | true ↦ greedy_step nodes bytes g >>= greedy_loop fuel nodes bytes
  | false ↦ some g
]

unfoldable pub greedy_tokenize : ℕ → List TrieNode → List ℕ → Option (List ℕ)
unfolding greedy_loop greedy_step token_at
greedy_tokenize fuel nodes [] = some []
greedy_tokenize fuel nodes (b ∷ bytes) = do
  g ←
      greedy_loop fuel nodes (b ∷ bytes)
        (record { out = []; n = 0; last_tok = none; last_idx = 0; idx = 0 })
  tok ← g.last_tok
  some (g.out ++ tok ∷ [])

pub has_extensions : List TrieNode → List ℕ → Option Bool
has_extensions nodes bytes = child_at_bytes nodes 0 bytes >>= elim [
  | none ↦ some false
  | some off ↦ get_elem? nodes off >>= λ n. some (ltb 1 (subtree_size n))
]

-- The walk from node `off`, at index `idx`, with the last token found.
unfoldable pub prefix_from : List TrieNode → ℕ → ℕ → ℕ × ℕ → List ℕ → Option (ℕ × ℕ)
prefix_from nodes off idx last [] = some last
prefix_from nodes off idx last (b ∷ bytes) = child_at_byte nodes off b >>= elim [
  | none ↦ some last
  | some c ↦ token_at nodes c >>= λ tok.
      prefix_from nodes c (idx + 1) (elim tok [ none ↦ last | some id ↦ (id, idx + 1) ]) bytes
]

unfoldable pub prefix_token_id : List TrieNode → List ℕ → Option (ℕ × ℕ)
unfolding prefix_from token_at
prefix_token_id nodes bytes = guard (ltb 0 (length bytes)) >> prefix_from nodes 0 0 (0, 0) bytes

-- `token_id(bytes)`: the token whose bytes are all of `bytes`.
unfoldable pub token_of_bytes : List TrieNode → List ℕ → Option (Option ℕ)
unfolding prefix_token_id
token_of_bytes nodes bytes = do
  (tok, len) ← prefix_token_id nodes bytes
  some (if len == length bytes then some tok else none)

-- The tokens on the walk from node `off`.
subtokens_from : List TrieNode → ℕ → List ℕ → Option (List ℕ)
subtokens_from nodes off [] = some []
subtokens_from nodes off (b ∷ bytes) = child_at_byte nodes off b >>= elim [
  | none ↦ some []
  | some c ↦ do
    tok ← token_at nodes c
    rest ← subtokens_from nodes c bytes
    some (elim tok [ none ↦ rest | some id ↦ id ∷ rest ])
]

pub all_subtokens : List TrieNode → List ℕ → Option (List ℕ)
unfolding subtokens_from
all_subtokens nodes [] = some []
all_subtokens nodes (b ∷ bytes) = do
  first ← subtokens_from nodes 0 (b ∷ bytes)
  rest ← all_subtokens nodes bytes
  some (first ++ rest)
