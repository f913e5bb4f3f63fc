-- ===== src/Trie/Recognizer/Stack.antt =====
-- `StackRecognizer` of controllers/aici_abi/src/recognizer.rs keeps the contract of `Recognizer`.
use aici.Prelude.{
  ℕ, suc, ◌+◌, ◌-◌, ◌≤◌, ◌<◌, ◌≡◌, refl, ◌∙◌, arith, true, false, none, some, List, [], ◌∷◌, ◌++◌,
  length, get_elem?, set, length-set, length-append, get_elem?-set_self, get_elem?-set_ne, lt→ltb,
}
use aici.Trie.Recognizer.{
  Contract, Answers, Leads, SpecialToken, FunctionalRecognizer, StackRecognizer, from,
  try_push_byte, special_allowed, pop_bytes, trie_finished, collapse, stack_recognizer,
}

-- The states `below`, top first, fill the places from `length below` down to 0.
abbrev pub Entries : {S : Type 0} → List S → List S → Type 0
Entries stack [] = Unit {0}
Entries stack (a ∷ below) = (get_elem? stack (length below) ≡ some a) × Entries stack below

-- The places up to `stack_ptr` hold the abstract stack, in an array of 300.
pub record Holds {S : Type 0} (x : StackRecognizer S) (below : List S) : Type 0 where
  pub depth : length below ≡ suc x.stack_ptr
  pub room : length x.stack ≡ 300
  pub entries : Entries x.stack below

module _ {S : Type 0} where
  pub Entries-set :
      (stack below : List S) (i : ℕ) (s : S)
      → length below ≤ i
      → Entries stack below
      → Entries (set stack i s) below
  Entries-set stack [] i s h e = tt
  Entries-set stack (a ∷ below) i s h e = (
    get_elem?-set_ne stack i (length below) s (omega arith) ∙ e.0,
    Entries-set stack below i s (omega arith) e.1,
  )

  pub Entries-drop :
      (stack gone below : List S) → Entries stack (gone ++ below) → Entries stack below
  Entries-drop stack [] below e = e
  Entries-drop stack (g ∷ gone) below e = Entries-drop stack gone below e.1

module _ {S : Type 0} (rec : FunctionalRecognizer S) where
  pub top :
      (x : StackRecognizer S) (a : S) (below : List S)
      → Holds x (a ∷ below)
      → get_elem? x.stack x.stack_ptr ≡ some a
  top x a below h = let e : x.stack_ptr ≡ length below = omega (arith, h.depth) in rw e h.entries.0

  pub try_push_byte-allowed :
      (x : StackRecognizer S) (a a' : S) (below : List S) (b : ℕ)
      → Holds x (a ∷ below)
      → length below < 299
      → rec.try_append a b ≡ some a'
      → Answers (try_push_byte rec x b) true (λ x'. Holds x' (a' ∷ a ∷ below))
  unfolding try_push_byte
  try_push_byte-allowed x a a' below b h l e =
      let room : x.stack_ptr + 1 < length x.stack = omega (arith, h.depth, h.room) in
      let place : length (a ∷ below) ≡ x.stack_ptr + 1 = omega (arith, h.depth) in
      (
        record { stack = set x.stack (x.stack_ptr + 1) a'; stack_ptr = x.stack_ptr + 1 },
        rw (top x a below h, e, lt→ltb (x.stack_ptr + 1) (length x.stack) room),
        record {
          depth = omega (arith, h.depth);
          room = length-set x.stack (x.stack_ptr + 1) a' ∙ h.room;
          entries = (
            rw place (get_elem?-set_self x.stack (x.stack_ptr + 1) a' room),
            Entries-set x.stack (a ∷ below) (x.stack_ptr + 1) a' (omega arith) h.entries,
          );
        },
      )

  pub try_push_byte-refused :
      (x : StackRecognizer S) (a : S) (below : List S) (b : ℕ)
      → Holds x (a ∷ below)
      → rec.try_append a b ≡ none
      → Answers (try_push_byte rec x b) false (λ x'. Holds x' (a ∷ below))
  unfolding try_push_byte
  try_push_byte-refused x a below b h e = (x, rw (top x a below h, e), h)

  pub special_allowed-Answers :
      (x : StackRecognizer S) (a : S) (below : List S) (tok : SpecialToken)
      → Holds x (a ∷ below)
      → Answers (special_allowed rec x tok) (rec.special_allowed a tok) (λ x'. Holds x' (a ∷ below))
  unfolding special_allowed
  special_allowed-Answers x a below tok h = (x, rw (top x a below h), h)

  pub collapse-Leads :
      (x : StackRecognizer S) (a : S) (below : List S)
      → Holds x (a ∷ below)
      → Leads (collapse x) (λ x'. Holds x' (a ∷ []))
  unfolding collapse
  collapse-Leads x a below h = (
    record { stack = set x.stack 0 a; stack_ptr = 0 },
    rw (top x a below h),
    record {
      depth = refl;
      room = length-set x.stack 0 a ∙ h.room;
      entries = (get_elem?-set_self x.stack 0 a (omega (arith, h.room)), tt);
    },
  )

  pub pop_bytes-Leads :
      (x : StackRecognizer S) (gone : List S) (a : S) (below : List S)
      → Holds x (gone ++ a ∷ below)
      → Leads (pop_bytes x (length gone)) (λ x'. Holds x' (a ∷ below))
  unfolding pop_bytes
  pop_bytes-Leads x gone a below h =
      let deep : length gone + suc (length below) ≡ suc x.stack_ptr =
        omega (arith, length-append gone (a ∷ below), h.depth) in
      (
        record x { stack_ptr = x.stack_ptr - length gone },
        ground arith,
        record {
          depth = omega arith;
          room = h.room;
          entries = Entries-drop x.stack gone (a ∷ below) h.entries;
        },
      )

  pub trie_finished-Leads :
      (x : StackRecognizer S) (a : S)
      → Holds x (a ∷ [])
      → Leads (trie_finished x) (λ x'. Holds x' (a ∷ []))
  unfolding trie_finished
  trie_finished-Leads x a h = (x, ground (arith, h.depth), h)

  -- The stack keeps the contract, with room for 299 bytes.
  abbrev pub stack_recognizer-Contract : Contract (stack_recognizer rec)
  stack_recognizer-Contract = record {
    Abstract = S;
    next = rec.try_append;
    special = rec.special_allowed;
    limit = 299;
    Holds = Holds;
    push_allowed = try_push_byte-allowed;
    push_refused = try_push_byte-refused;
    pops = pop_bytes-Leads;
    collapses = collapse-Leads;
    asks = special_allowed-Answers;
    starts = λ x a h. (x, refl, h);
    finishes = trie_finished-Leads;
  }

  -- A fresh recognizer holds the initial state alone.
  pub from-Holds : Holds (from rec) (rec.initial ∷ [])
  unfolding from
  from-Holds = record { depth = refl; room = refl; entries = (refl, tt) }
