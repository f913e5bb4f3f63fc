-- ===== src/Trie/Tok/Bias.antt =====
-- The walks of controllers/aici_abi/src/toktree.rs that ask a recognizer which tokens it allows.
pub mod Visit
pub mod Loop
pub mod Mask
pub mod Words
pub mod Laws
use aici.Prelude.{
  ℕ, zero, suc, ◌+◌, ◌-◌, ◌==◌, ltb, leb, Bool, true, false, Option, none, some, List, [], ◌∷◌,
  ◌++◌, length, get_elem?, take, range_from, ◌>>=◌, ◌>>◌, guard, if◌then◌else◌,
}
use aici.Prelude.Loops.{for_each, while}
use aici.Trie.Node.{TrieNode, byte, subtree_size, num_parents, token_id}
use aici.Trie.Recognizer.{Recognizer, end_of_sentence}
use aici.Trie.Tok.{TokTrie, child_at_bytes, token, token_of_bytes}
use aici.Vob.{SimpleVob, allow_token, disallow_token, set_all, is_allowed, new, resize}

abbrev pub unwrap_or : Option ℕ → ℕ → ℕ
unwrap_or none d = d
unwrap_or (some x) d = x

module _ (r : Recognizer) where
  -- The variables of the loop in `add_bias`.
  pub record Walk : Type 0 where
    pub rec : r.State
    pub toks : SimpleVob
    pub p : ℕ
    pub next_pop : ℕ

  -- One round of the loop at the node with offset `p`.
  unfoldable pub bias_step : List TrieNode → ℕ → Walk → Option Walk
  bias_step nodes defl_tok w = do
    x ← r.pop_bytes w.rec w.next_pop
    n ← get_elem? nodes w.p
    (allowed, x') ← r.try_push_byte x (byte n)
    if allowed
        then (allow_token w.toks (unwrap_or (token_id n) defl_tok) >>= λ toks. some (record {
          rec = x';
          toks = toks;
          p = w.p + 1;
          next_pop = if subtree_size n == 1 then num_parents n else 0;
        }))
        else (guard (leb 1 (num_parents n))
            >> some (record {
              rec = x';
              toks = w.toks;
              p = w.p + subtree_size n;
              next_pop = num_parents n - 1;
            }))

  -- while p < endp { … }
  unfoldable pub bias_loop : ℕ → List TrieNode → ℕ → ℕ → Walk → Option Walk
  bias_loop fuel nodes defl_tok endp =
      while (λ w. ltb w.p endp) (λ w. bias_step nodes defl_tok w) fuel

  -- A round moves `p` forward, so as many rounds as nodes are enough.
  unfoldable pub add_bias :
      List TrieNode → ℕ → r.State → SimpleVob → List ℕ → Option (r.State × SimpleVob)
  add_bias nodes vocab_size rec toks start = do
    x ← r.trie_started rec
    found ← child_at_bytes nodes 0 start
    off ← found
    n ← get_elem? nodes off
    w ←
        bias_loop (suc (length nodes)) nodes vocab_size (off + subtree_size n)
          (record { rec = x; toks = toks; p = off + 1; next_pop = 0 })
    x1 ← (if length start == 0 then r.pop_bytes w.rec w.next_pop else some w.rec)
    x2 ← r.trie_finished x1
    toks' ← disallow_token w.toks vocab_size
    some (x2, toks')

  -- `for (tok, dups) in &token_duplicates`.
  unfoldable pub apply_duplicates : List (ℕ × List ℕ) → SimpleVob → Option SimpleVob
  apply_duplicates [] logits = some logits
  apply_duplicates ((tok, dups) ∷ rest) logits = do
    allowed ← is_allowed logits tok
    logits' ← (if allowed then for_each dups (λ dup s. allow_token s dup) logits else some logits)
    apply_duplicates rest logits'

  -- All prefixes of `start` that are tokens.
  unfoldable pub allow_prefixes : List TrieNode → List ℕ → SimpleVob → Option SimpleVob
  allow_prefixes nodes start = for_each (range_from 1 (length start)) λ len logits.
      token_of_bytes nodes (take len start)
      >>= elim [ none ↦ some logits | some tok ↦ allow_token logits tok ]

  unfoldable pub compute_bias_ext :
      TokTrie → r.State → SimpleVob → List ℕ → Option (r.State × SimpleVob)
  unfolding add_bias apply_duplicates allow_prefixes
  compute_bias_ext t rec logits start = do
    cleared ← set_all logits false
    (x, with_eos) ←
        (if length start == 0
          then (r.special_allowed rec end_of_sentence >>= λ (allowed, x).
              if allowed
              then (allow_token cleared t.info.tok_eos >>= λ l. some (x, l))
              else some (x, cleared))
          else some (rec, cleared))
    with_prefixes ← allow_prefixes t.nodes start with_eos
    (x', biased) ← add_bias t.nodes t.info.vocab_size x with_prefixes start
    result ← apply_duplicates t.token_duplicates biased
    some (x', result)

  unfoldable pub compute_bias : TokTrie → r.State → SimpleVob → Option (r.State × SimpleVob)
  unfolding compute_bias_ext
  compute_bias t rec logits = compute_bias_ext t rec logits []

  -- The bytes of a token pushed in order, up to the first that is refused: whether all were allowed,
  -- and how many were pushed.
  unfoldable pub push_all : r.State → List ℕ → Option (Bool × ℕ × r.State)
  push_all x [] = some (true, 0, x)
  push_all x (b ∷ bytes) = r.try_push_byte x b >>= λ (allowed, x').
      if allowed
      then (push_all x' bytes >>= λ (ok, num, x''). some (ok, suc num, x''))
      else some (false, 0, x')

  -- The result is `Ok` or `Err`, with the new state of the recognizer.
  unfoldable pub append_token : TokTrie → r.State → ℕ → Option (Bool × r.State)
  unfolding push_all
  append_token t rec tok = do
    bytes ← token t tok
    (ok, num, x) ← push_all rec bytes
    x' ← r.collapse x
    some (ok, x')

  unfoldable pub append_tokens : TokTrie → r.State → List ℕ → Option (Bool × r.State)
  unfolding append_token
  append_tokens t rec [] = some (true, rec)
  append_tokens t rec (tok ∷ ts) =
      append_token t rec tok >>= λ (ok, x). if ok then append_tokens t x ts else some (false, x)

  unfoldable pub token_allowed : TokTrie → r.State → ℕ → Option (Bool × r.State)
  unfolding push_all
  token_allowed t rec tok = do
    bytes ← token t tok
    x ← r.trie_started rec
    (ok, num, x1) ← push_all x bytes
    x2 ← r.pop_bytes x1 num
    x3 ← r.trie_finished x2
    some (ok, x3)

  -- The variables of the loop in `has_valid_extensions`.
  pub record Probe : Type 0 where
    pub rec : r.State
    pub p : ℕ
    pub next_pop : ℕ
    pub ok : Bool

  unfoldable pub probe_step : List TrieNode → Probe → Option Probe
  probe_step nodes w = do
    x ← r.pop_bytes w.rec w.next_pop
    n ← get_elem? nodes w.p
    (allowed, x') ← r.try_push_byte x (byte n)
    if allowed
        then (elim (token_id n) [
          | some id ↦ some (record { rec = x'; p = w.p; next_pop = w.next_pop; ok = true })
          | none ↦ some (record {
            rec = x';
            p = w.p + 1;
            next_pop = if subtree_size n == 1 then num_parents n else 0;
            ok = false;
          })
        ])
        else (guard (leb 1 (num_parents n))
            >> some (record {
              rec = x';
              p = w.p + subtree_size n;
              next_pop = num_parents n - 1;
              ok = false;
            }))

  -- The loop ends at the first token found (`break`).
  unfoldable pub has_valid_extensions : List TrieNode → r.State → List ℕ → Option (Bool × r.State)
  unfolding probe_step while
  has_valid_extensions nodes rec start = child_at_bytes nodes 0 start >>= elim [
    | none ↦ some (false, rec)
    | some off ↦ do
      x ← r.trie_started rec
      n ← get_elem? nodes off
      w ←
          while (λ w. if w.ok then false else ltb w.p (off + subtree_size n))
            (λ w. probe_step nodes w) (suc (length nodes))
            (record { rec = x; p = off + 1; next_pop = 0; ok = false })
      x1 ← (if length start == 0 then r.pop_bytes w.rec w.next_pop else some w.rec)
      x2 ← r.trie_finished x1
      some (w.ok, x2)
  ]

-- `alloc_token_set`.
pub alloc_token_set : TokTrie → Option SimpleVob
alloc_token_set t = resize new (t.info.vocab_size + 1)
