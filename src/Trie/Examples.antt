-- ===== src/Trie/Examples.antt =====
-- A trie with the words `b`, `a` and `ac`, and a recognizer of `ac`, on which the theorems about
-- controllers/aici_abi/src/toktree.rs apply.
use aici.Prelude.{
  ℕ, suc, ◌+◌, ◌*◌, ◌<◌, ◌≡◌, ◌≢◌, ◌↔◌, refl, arith, ◌==◌, false, none, some, List, [], ◌∷◌, ◌++◌,
  if◌then◌else◌,
}
use aici.Trie.Node.{no_token}
use aici.Trie.Hash.{
  Children, node, nil, cons, sorted_children, insert_sorted, serialize, sorted, TrieHash,
}
use aici.Trie.Hash.Flat.{Fits, flat, serialize-flat}
use aici.Trie.Hash.Order.{InOrder, sorted-InOrder}
use aici.Trie.Hash.Spells.{Spells, here, down, aside}
use aici.Trie.Recognizer.{FunctionalRecognizer, stack_recognizer, from}
use aici.Trie.Recognizer.Stack.{stack_recognizer-Contract, from-Holds}
use aici.Trie.Tok.{TokTrie, token}
use aici.Trie.Tok.Build.{Building, add_words}
use aici.Trie.Tok.Build.Words.{token-add_words}
use aici.Trie.Tok.Bias.{add_bias}
use aici.Trie.Tok.Bias.Laws.{IsSerialisable, Allows, add_bias-Allows, add_bias-from}
use aici.Vob.{SimpleVob}
use aici.Vob.Bits.{IsSized}

-- Not in the order of the bytes.
abbrev words : Children
words = cons (node 1 98 nil) (cons (node 0 97 (cons (node 2 99 nil) nil)) nil)

abbrev sorted_words : Children
sorted_words = cons (node 0 97 (cons (node 2 99 nil) nil)) (cons (node 1 98 nil) nil)

words-sorted : sorted_children words ≡ sorted_words
unfolding sorted_children insert_sorted
words-sorted = refl

sorted_words-Fits : Fits (node no_token 0 sorted_words) 0
sorted_words-Fits = (
  omega arith,
  omega arith,
  omega arith,
  omega arith,
  (
    (
      omega arith,
      omega arith,
      omega arith,
      omega arith,
      ((omega arith, omega arith, omega arith, omega arith, tt), tt),
    ),
    ((omega arith, omega arith, omega arith, omega arith, tt), tt),
  ),
)

abbrev TokensBelow : ℕ → Children → Type 0
TokensBelow n nil = Unit {0}
TokensBelow n (cons (node t b ch) cs) = (t < n) × TokensBelow n ch × TokensBelow n cs

spelled_below :
    (n : ℕ) {ch : Children} {w : List ℕ} {j : ℕ} → Spells ch w j → TokensBelow n ch → j < n
spelled_below n here h = h.0
spelled_below n (down s) h = spelled_below n s h.1
spelled_below n (aside {c = node t b ch} s) h = spelled_below n s h.2

tokens_of_words : (w : List ℕ) (j : ℕ) → Spells words w j → j ≢ no_token → j < 3
tokens_of_words w j s ne =
    spelled_below 3 s (omega arith, tt, (omega arith, (omega arith, tt, tt), tt))

words-IsSerialisable : IsSerialisable words 3 no_token 0
words-IsSerialisable = record { fits = rw words-sorted sorted_words-Fits; tokens = tokens_of_words }

abbrev only_ac : FunctionalRecognizer ℕ
only_ac = record {
  initial = 0;
  try_append = λ state byte. if byte == 97 + 2 * state then some (suc state) else none;
  special_allowed = λ _ _. false;
}

abbrev no_tokens : SimpleVob
no_tokens = record { words = 0 ∷ []; size = 4 }

no_tokens-IsSized : IsSized no_tokens
no_tokens-IsSized = record { room = refl; are_words = (omega arith, tt) }

add_bias-Allows_example :
    Allows (stack_recognizer only_ac) (stack_recognizer-Contract only_ac) words 3 0 no_tokens (
      add_bias
        (stack_recognizer only_ac)
        (serialize (node no_token 0 words) [] 0)
        3
        (from only_ac)
        no_tokens
        [])
add_bias-Allows_example =
    add_bias-Allows (stack_recognizer only_ac) (stack_recognizer-Contract only_ac) no_token 0 3
      words words-IsSerialisable (rw words-sorted (omega arith)) (from only_ac) 0 no_tokens
      (from-Holds only_ac) no_tokens-IsSized (omega arith)

add_bias-from_example :
    Allows (stack_recognizer only_ac) (stack_recognizer-Contract only_ac) words 3 0 no_tokens (
      add_bias
        (stack_recognizer only_ac)
        (serialize (node no_token 0 words) [] 0)
        3
        (from only_ac)
        no_tokens
        [])
add_bias-from_example =
    add_bias-from only_ac no_token 0 3 words no_tokens words-IsSerialisable
      (rw words-sorted (omega arith)) no_tokens-IsSized (omega arith)

abbrev words_tree : TrieHash
words_tree = node no_token 0 words

words_tree-sorted : sorted words_tree ≡ node no_token 0 sorted_words
unfolding sorted insert_sorted
words_tree-sorted = refl

serialize-flat_example : serialize words_tree [] 0 ≡ [] ++ flat (sorted words_tree) 0
serialize-flat_example = serialize-flat words_tree [] 0 (rw words_tree-sorted sorted_words-Fits)

sorted-InOrder_example :
    InOrder (sorted_children words)
    × ((w : List ℕ) (j : ℕ) → Spells (sorted_children words) w j ↔ Spells words w j)
sorted-InOrder_example = sorted-InOrder words

-- The words `b`, none at all, and `ac`.
abbrev vocabulary : List (List ℕ)
vocabulary = (98 ∷ []) ∷ [] ∷ (97 ∷ 99 ∷ []) ∷ []

abbrev empty_building : Building
empty_building = record { trie = node no_token 0xff nil; token_offsets = []; token_data = [] }

abbrev no_trie : TokTrie
no_trie = record {
  info = record { vocab_size = 3; tok_eos = 0 };
  token_offsets = [];
  token_data = [];
  nodes = [];
  max_token_len = 0;
  token_duplicates = [];
}

token-add_words_example :
    (built : Building) × (add_words empty_building 0 vocabulary ≡ some built)
    × (token
          (record no_trie { token_offsets = built.token_offsets; token_data = built.token_data })
          2
        ≡ some (97 ∷ 99 ∷ []))
token-add_words_example =
    token-add_words vocabulary empty_building no_trie 2 (97 ∷ 99 ∷ []) refl refl
      (omega arith, omega arith, (omega arith, omega arith, (omega arith, omega arith, tt))) refl
