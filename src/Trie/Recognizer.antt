-- ===== src/Trie/Recognizer.antt =====
-- The trait `Recognizer` of controllers/aici_abi/src/toktree.rs as an interface with the contract
-- that its comments state, and its implementation by a stack in controllers/aici_abi/src/recognizer.rs.
pub mod Stack
use aici.Prelude.{
  ℕ, suc, ◌+◌, ◌-◌, ◌<◌, ◌≡◌, ◌==◌, ltb, leb, Bool, true, false, Option, none, some, List, [], ◌∷◌,
  ◌++◌, length, get_elem?, set, replicate, ◌>>=◌, ◌>>◌, guard, if◌then◌else◌,
}

pub data SpecialToken : Type 0 where
  unknown padding separator beginning_of_sentence end_of_sentence : SpecialToken

-- The methods that the trie calls. A method takes the object's state, and returns its result, if
-- it has one, with the new state.
pub record Recognizer : Type 1 where
  pub State : Type 0
  pub pop_bytes : State → ℕ → Option State
  pub collapse : State → Option State
  pub special_allowed : State → SpecialToken → Option (Bool × State)
  pub trie_finished : State → Option State
  pub trie_started : State → Option State
  pub try_push_byte : State → ℕ → Option (Bool × State)

-- `byte_allowed`, the method that the trait provides.
pub byte_allowed : (r : Recognizer) → r.State → ℕ → Option (Bool × r.State)
byte_allowed r x b = do
  (ok, x') ← r.try_push_byte x b
  if ok then (r.pop_bytes x' 1 >>= λ x''. some (true, x'')) else some (false, x')

abbrev pub Leads : {A : Type 0} → Option A → (A → Type 0) → Type 0
Leads {A} m P = (x : A) × (m ≡ some x) × P x

abbrev pub Answers : {A B : Type 0} → Option (B × A) → B → (A → Type 0) → Type 0
Answers {A} m b P = (x : A) × (m ≡ some (b, x)) × P x

-- What the comments of the trait promise: the object is a stack of abstract states, top first, with
-- room for `limit` states above the lowest.
pub record Contract (r : Recognizer) : Type 1 where
  pub Abstract : Type 0
  pub next : Abstract → ℕ → Option Abstract
  pub special : Abstract → SpecialToken → Bool
  pub limit : ℕ
  pub Holds : r.State → List Abstract → Type 0
  pub push_allowed :
      (x : r.State) (a a' : Abstract) (below : List Abstract) (b : ℕ)
      → Holds x (a ∷ below)
      → length below < limit
      → next a b ≡ some a'
      → Answers (r.try_push_byte x b) true (λ x'. Holds x' (a' ∷ a ∷ below))
  pub push_refused :
      (x : r.State) (a : Abstract) (below : List Abstract) (b : ℕ)
      → Holds x (a ∷ below)
      → next a b ≡ none
      → Answers (r.try_push_byte x b) false (λ x'. Holds x' (a ∷ below))
  pub pops :
      (x : r.State) (gone : List Abstract) (a : Abstract) (below : List Abstract)
      → Holds x (gone ++ a ∷ below)
      → Leads (r.pop_bytes x (length gone)) (λ x'. Holds x' (a ∷ below))
  pub collapses :
      (x : r.State) (a : Abstract) (below : List Abstract)
      → Holds x (a ∷ below)
      → Leads (r.collapse x) (λ x'. Holds x' (a ∷ []))
  pub asks :
      (x : r.State) (a : Abstract) (below : List Abstract) (tok : SpecialToken)
      → Holds x (a ∷ below)
      → Answers (r.special_allowed x tok) (special a tok) (λ x'. Holds x' (a ∷ below))
  pub starts :
      (x : r.State) (a : Abstract)
      → Holds x (a ∷ [])
      → Leads (r.trie_started x) (λ x'. Holds x' (a ∷ []))
  pub finishes :
      (x : r.State) (a : Abstract)
      → Holds x (a ∷ [])
      → Leads (r.trie_finished x) (λ x'. Holds x' (a ∷ []))

pub record FunctionalRecognizer (S : Type 0) : Type 0 where
  pub initial : S
  pub try_append : S → ℕ → Option S
  pub special_allowed : S → SpecialToken → Bool

pub record StackRecognizer (S : Type 0) : Type 0 where
  pub stack : List S
  pub stack_ptr : ℕ

module _ {S : Type 0} (rec : FunctionalRecognizer S) where
  pub from : StackRecognizer S
  from = record { stack = replicate 300 rec.initial; stack_ptr = 0 }

  pub reset : StackRecognizer S → Option (StackRecognizer S)
  reset x = get_elem? x.stack 0 >>= λ _.
      some (record { stack = set x.stack 0 rec.initial; stack_ptr = 0 })

  unfoldable pub try_push_byte : StackRecognizer S → ℕ → Option (Bool × StackRecognizer S)
  try_push_byte x byte = do
    top ← get_elem? x.stack x.stack_ptr
    elim (rec.try_append top byte) [
      | none ↦ some (false, x)
      | some state ↦
          guard (ltb (x.stack_ptr + 1) (length x.stack))
          >> some (
            true,
            record { stack = set x.stack (x.stack_ptr + 1) state; stack_ptr = x.stack_ptr + 1 },
          )
    ]

  unfoldable pub special_allowed :
      StackRecognizer S → SpecialToken → Option (Bool × StackRecognizer S)
  special_allowed x tok = do
    top ← get_elem? x.stack x.stack_ptr
    some (rec.special_allowed top tok, x)

module _ {S : Type 0} where
  unfoldable pub pop_bytes : StackRecognizer S → ℕ → Option (StackRecognizer S)
  pop_bytes x num = guard (leb num x.stack_ptr) >> some (record x { stack_ptr = x.stack_ptr - num })

  unfoldable pub trie_finished : StackRecognizer S → Option (StackRecognizer S)
  trie_finished x = guard (x.stack_ptr == 0) >> some x

  unfoldable pub collapse : StackRecognizer S → Option (StackRecognizer S)
  collapse x = do
    top ← get_elem? x.stack x.stack_ptr
    some (record { stack = set x.stack 0 top; stack_ptr = 0 })

-- The implementation of the trait.
abbrev pub stack_recognizer : {S : Type 0} → FunctionalRecognizer S → Recognizer
stack_recognizer {S} rec = record {
  State = StackRecognizer S;
  pop_bytes = pop_bytes;
  collapse = collapse;
  special_allowed = special_allowed rec;
  trie_finished = trie_finished;
  trie_started = some;
  try_push_byte = try_push_byte rec;
}

-- The recognizer that allows all bytes.
abbrev pub anything_goes : FunctionalRecognizer (Unit {0})
anything_goes = record {
  initial = tt;
  try_append = λ state _. some state;
  special_allowed = λ _ _. true;
}
