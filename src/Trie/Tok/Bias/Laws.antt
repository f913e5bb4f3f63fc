-- ===== src/Trie/Tok/Bias/Laws.antt =====
-- `add_bias` of controllers/aici_abi/src/toktree.rs on a serialised trie against the words of the
-- trie and the recognizer, with no mention of nodes, levels or pops.
use native.Mathlib.Decide.{ℕ_discrete}
use aici.Prelude.{
  ℕ, ◌≤◌, ◌<◌, ◌≡◌, ◌≢◌, ◌↔◌, arith, true, Option, some, List, [], ◌∷◌, inl, inr, ◌⊎◌, Bool-cases,
  ==_refl,
}
use aici.Trie.Node.{no_token}
use aici.Trie.Hash.{Children, node, serialize, sorted_children}
use aici.Trie.Hash.Flat.{Fits}
use aici.Trie.Hash.Spells.{Spells, sorted-Spells}
use aici.Trie.Recognizer.{Recognizer, Contract, FunctionalRecognizer, from, stack_recognizer}
use aici.Trie.Recognizer.Stack.{stack_recognizer-Contract, from-Holds}
use aici.Trie.Tok.Bias.{add_bias}
use aici.Trie.Tok.Bias.Visit.{depth_children, visit_children}
use aici.Trie.Tok.Bias.Mask.{contains, AllBelow, add_bias-Biased}
use aici.Trie.Tok.Bias.Words.{HasWord, visit-HasWord, Spells-visit}
use aici.Vob.{SimpleVob}
use aici.Vob.Bits.{bit, IsSized}

contains-AllBelow : (n : ℕ) (ts : List ℕ) → ((j : ℕ) → contains ts j ≡ true → j < n) → AllBelow n ts
contains-AllBelow n [] h = tt
contains-AllBelow n (t ∷ ts) h =
    (h t (rw (==_refl t)), contains-AllBelow n ts (λ j e. h j (rw e (ground arith))))

-- A trie whose words have tokens of the vocabulary, and whose nodes fit their bits: the conditions
-- under which the serialised form stands for it.
pub record IsSerialisable (ch : Children) (vocab_size root_token root_byte : ℕ) : Type 0 where
  pub fits : Fits (node root_token root_byte (sorted_children ch)) 0
  pub tokens : (w : List ℕ) (j : ℕ) → Spells ch w j → j ≢ no_token → j < vocab_size

module _ (r : Recognizer) (c : Contract r) where
  -- The result of `add_bias` read word by word.
  pub record Allows (ch : Children) (vocab_size : ℕ) (a : c.Abstract) (toks : SimpleVob)
      (result : Option (r.State × SimpleVob)) : Type 0 where
    pub rec : r.State
    pub mask : SimpleVob
    pub returns : result ≡ some (rec, mask)
    pub restored : c.Holds rec (a ∷ [])
    pub same_size : mask.size ≡ toks.size
    pub sized : IsSized mask
    pub allowed :
        (j : ℕ)
        → (bit mask j ≡ true) ↔ ((j ≢ vocab_size) × ((bit toks j ≡ true) ⊎ HasWord c.next ch a j))

  module _ (t b vocab_size : ℕ) (ch : Children) (s : IsSerialisable ch vocab_size t b)
      (shallow : depth_children (sorted_children ch) ≤ c.limit) where
    visited_word :
        (a : c.Abstract) (j : ℕ)
        → j ≢ vocab_size
        → contains (visit_children c.next vocab_size (sorted_children ch) a) j ≡ true
        → HasWord c.next ch a j
    visited_word a j ne e =
        let h = visit-HasWord c.next vocab_size j ne (sorted_children ch) a e in
        record {
          word = h.word;
          spelled = (sorted-Spells ch h.word j).0 h.spelled;
          accepted = h.accepted;
          real = h.real;
        }

    visited_below :
        (a : c.Abstract) (n j : ℕ)
        → vocab_size < n
        → contains (visit_children c.next vocab_size (sorted_children ch) a) j ≡ true
        → j < n
    visited_below a n j l e = elim (ℕ_discrete j vocab_size) [
      | yes same ↦ omega arith
      | no differ ↦
          let h = visited_word a j differ e in omega (arith, s.tokens h.word j h.spelled h.real)
    ]

    -- For a recognizer that keeps its contract, and a serialisable trie no deeper than the
    -- recognizer's stack, `add_bias` on the serialised trie from a state of depth one, with no
    -- start bytes and a mask with room for the flag of `vocab_size`, returns. A flag other than
    -- that of `vocab_size` is set in the resulting mask exactly when it was set before or the
    -- recognizer accepts, byte by byte from its state, a word of the trie with that token; the
    -- flag of `vocab_size` is clear. The recognizer comes back with the same state.
    pub add_bias-Allows :
        (rec : r.State) (a : c.Abstract) (toks : SimpleVob)
        → c.Holds rec (a ∷ [])
        → IsSized toks
        → vocab_size < toks.size
        → Allows ch vocab_size a toks
            (add_bias r (serialize (node t b ch) [] 0) vocab_size rec toks [])
    unfolding serialize
    add_bias-Allows rec a toks h sized room =
        let ts = visit_children c.next vocab_size (sorted_children ch) a in
        let done =
          add_bias-Biased r c vocab_size t b (sorted_children ch) s.fits shallow rec a toks h sized
            room (contains-AllBelow toks.size ts (λ j e. visited_below a toks.size j room e)) in
        record {
          rec = done.rec;
          mask = done.mask;
          returns = done.returns;
          restored = done.restored;
          same_size = done.same_size;
          sized = done.sized;
          allowed = λ j. (
            λ e. (
              λ same. absurd (ground (arith, done.flags j)),
              elim (Bool-cases (contains ts j)) [
                | inl met ↦
                    inr (visited_word a j (λ same. absurd (ground (arith, done.flags j))) met)
                | inr unmet ↦ inl (ground (arith, done.flags j))
              ],
            ),
            λ h. elim h.1 [
              | inl old ↦ ground (arith, done.flags j, h.0)
              | inr w ↦ ground (
                arith,
                h.0,
                done.flags j,
                Spells-visit c.next vocab_size a ((sorted-Spells ch w.word j).1 w.spelled) w.real
                    w.accepted,
              )
            ],
          );
        }

-- On a serialisable trie with no word longer than 299 bytes, `add_bias` with a fresh
-- `StackRecognizer` and no start bytes returns, and allows exactly the tokens that the mask
-- allowed before and those of the words that the functional recognizer accepts from its initial
-- state; the flag of `vocab_size` is clear, and the recognizer holds its initial state again.
pub add_bias-from :
    {S : Type 0} (rec : FunctionalRecognizer S) (t b vocab_size : ℕ) (ch : Children)
    (toks : SimpleVob)
    → IsSerialisable ch vocab_size t b
    → depth_children (sorted_children ch) ≤ 299
    → IsSized toks
    → vocab_size < toks.size
    → Allows (stack_recognizer rec) (stack_recognizer-Contract rec) ch vocab_size rec.initial toks (
        add_bias
          (stack_recognizer rec)
          (serialize (node t b ch) [] 0)
          vocab_size
          (from rec)
          toks
          [])
add_bias-from rec t b vocab_size ch toks s shallow sized room =
    add_bias-Allows (stack_recognizer rec) (stack_recognizer-Contract rec) t b vocab_size ch s
      shallow (from rec) rec.initial toks (from-Holds rec) sized room
