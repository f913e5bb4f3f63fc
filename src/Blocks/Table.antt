-- ===== src/Blocks/Table.antt =====
-- A hash map from sequence ids to block lists, as an association list, and the references in it.
use native.Mathlib.Decide.{ℕ_discrete}
use aici.Prelude.{
  ==_refl, ℕ, ◌+◌, ◌≡◌, ◌≢◌, refl, arith, ◌==◌, Option, none, some, List, [], ◌∷◌, ◌++◌,
  if◌then◌else◌,
}
use aici.Blocks.Allocator.Laws.{count, count-append}

abbrev pub Table : Type 0
Table = List (ℕ × List ℕ)

abbrev pub lookup : ℕ → Table → Option (List ℕ)
lookup k [] = none
lookup k ((j, v) ∷ m) = if j == k then some v else lookup k m

abbrev pub insert : ℕ → List ℕ → Table → Table
insert k v [] = (k, v) ∷ []
insert k v ((j, u) ∷ m) = if j == k then (k, v) ∷ m else (j, u) ∷ insert k v m

abbrev pub remove : ℕ → Table → Table
remove k [] = []
remove k ((j, v) ∷ m) = if j == k then m else (j, v) ∷ remove k m

abbrev pub or_nil : Option (List ℕ) → List ℕ
or_nil none = []
or_nil (some v) = v

-- All references that the lists of the map hold.
abbrev pub held : Table → List ℕ
held [] = []
held ((j, v) ∷ m) = v ++ held m

pub lookup-insert :
    (k j : ℕ) (v : List ℕ) (m : Table)
    → lookup j (insert k v m) ≡ (if k == j then some v else lookup j m)
lookup-insert k j v [] = refl
lookup-insert k j v ((i, u) ∷ m) = ground (arith, lookup-insert k j v m)

pub lookup-remove_ne : (k j : ℕ) (m : Table) → k ≢ j → lookup j (remove k m) ≡ lookup j m
lookup-remove_ne k j [] h = refl
lookup-remove_ne k j ((i, u) ∷ m) h = ground (arith, lookup-remove_ne k j m)

pub count-held-insert :
    (b k : ℕ) (v : List ℕ) (m : Table)
    → count b (held (insert k v m)) + count b (or_nil (lookup k m)) ≡ count b v + count b (held m)
count-held-insert b k v [] = omega (arith, count-append b v [])
count-held-insert b k v ((j, u) ∷ m) = ground (
  arith,
  count-held-insert b k v m,
  count-append b v (held m),
  count-append b u (held m),
  count-append b u (held (insert k v m)),
)

pub count-held-remove :
    (b k : ℕ) (m : Table)
    → count b (held (remove k m)) + count b (or_nil (lookup k m)) ≡ count b (held m)
count-held-remove b k [] = omega arith
count-held-remove b k ((j, u) ∷ m) = ground (
  arith,
  count-held-remove b k m,
  count-append b u (held m),
  count-append b u (held (remove k m)),
)

-- A key occurs once when removing it leaves no value for it; `insert` and `remove` keep this.
abbrev pub Unique : Table → Type 0
Unique m = (k : ℕ) → lookup k (remove k m) ≡ none

lookup-remove-insert :
    (j k : ℕ) (v : List ℕ) (m : Table)
    → lookup j (remove j m) ≡ none
    → lookup j (remove j (insert k v m)) ≡ none
lookup-remove-insert j k v [] h = ground arith
lookup-remove-insert j k v ((i, u) ∷ m) h =
    ground (arith, lookup-remove-insert j k v m, lookup-insert k j v m)

pub insert-Unique : (k : ℕ) (v : List ℕ) (m : Table) → Unique m → Unique (insert k v m)
insert-Unique k v m h j = lookup-remove-insert j k v m (h j)

lookup-remove_absent : (j k : ℕ) (m : Table) → lookup j m ≡ none → lookup j (remove k m) ≡ none
lookup-remove_absent j k [] h = refl
lookup-remove_absent j k ((i, u) ∷ m) h = ground (arith, lookup-remove_absent j k m)

lookup-remove-remove :
    (j k : ℕ) (m : Table) → lookup j (remove j m) ≡ none → lookup j (remove j (remove k m)) ≡ none
lookup-remove-remove j k [] h = refl
lookup-remove-remove j k ((i, u) ∷ m) h =
    ground
      (arith, lookup-remove-remove j k m, lookup-remove_absent j k m, lookup-remove_absent j j m)

pub remove-Unique : (k : ℕ) (m : Table) → Unique m → Unique (remove k m)
remove-Unique k m h j = lookup-remove-remove j k m (h j)

pub lookup-remove :
    (k j : ℕ) (m : Table) → Unique m → lookup j (remove k m) ≡ (if k == j then none else lookup j m)
lookup-remove k j m h = elim (ℕ_discrete k j) [
  | yes same ↦ rw (← same, ==_refl k) (h k)
  | no differ ↦ rw (lookup-remove_ne k j m differ) (ground arith)
]
