-- ===== src/Derivre/HashCons.antt =====
-- The store of vectors in controllers/derivre/src/hashcons.rs: each vector once, under its id. The
-- hash table is the list of its ids, in which `entry` finds the one whose vector is equal; `none` is
-- a panic.
pub mod Windows
pub mod Inserting
pub mod Search
pub mod Laws
use aici.Prelude.{
  ℕ, zero, suc, ◌+◌, ◌-◌, ◌%◌, ◌^◌, ◌==◌, ltb, leb, Bool, true, false, ◌&&◌, Option, none, some,
  List, [], ◌∷◌, ◌++◌, length, take, drop, set, replicate, get_elem?, ◌>>=◌, ◌>>◌, guard,
  if◌then◌else◌,
}

pub record Element : Type 0 where
  pub backing_start : ℕ
  pub backing_end : ℕ

pub record VecHashCons : Type 0 where
  pub backing : List ℕ
  pub elements : List Element
  pub table : List ℕ
  pub curr_elt : Element

unfoldable pub new : VecHashCons
new = record {
  backing = [];
  elements = [];
  table = [];
  curr_elt = record { backing_start = 4; backing_end = 0 };
}

-- `xs[a..a + n]` where it exists.
abbrev pub window : ℕ → ℕ → List ℕ → List ℕ
window a n xs = take n (drop a xs)

-- `xs[a..b]`.
abbrev pub slice : Element → List ℕ → Option (List ℕ)
slice e xs =
    guard (leb e.backing_start e.backing_end && leb e.backing_end (length xs))
    >> some (window e.backing_start (e.backing_end - e.backing_start) xs)

abbrev pub get : VecHashCons → ℕ → Option (List ℕ)
get h id = get_elem? h.elements id >>= λ e. slice e h.backing

abbrev pub is_valid : VecHashCons → ℕ → Bool
is_valid h id = ltb id (length h.elements)

unfoldable pub start_insert : VecHashCons → Option VecHashCons
start_insert h =
    guard (h.curr_elt.backing_end == 0)
    >> some (record h {
      curr_elt = record {
        backing_start = h.curr_elt.backing_start;
        backing_end = h.curr_elt.backing_start;
      };
    })

-- `backing.resize(size + 128, 0)` when it is shorter than the size.
abbrev pub resized : ℕ → List ℕ → List ℕ
resized size backing =
    if ltb (length backing) size
    then backing ++ replicate (size + 128 - length backing) 0
    else backing

unfoldable pub ensure_size : VecHashCons → Option VecHashCons
ensure_size h =
    guard (leb h.curr_elt.backing_start h.curr_elt.backing_end)
    >> some (record h { backing = resized h.curr_elt.backing_end h.backing })

-- The vector being inserted is longer by `n`, modulo 2 ^ 32.
abbrev pub grow : VecHashCons → ℕ → VecHashCons
grow h n = record h {
  curr_elt = record {
    backing_start = h.curr_elt.backing_start;
    backing_end = (h.curr_elt.backing_end + n) % 2 ^ 32;
  };
}

unfoldable pub push_u32 : VecHashCons → ℕ → Option VecHashCons
push_u32 h head = ensure_size (grow h 1) >>= λ h1.
    guard (ltb 0 h1.curr_elt.backing_end)
    >> some (record h1 { backing = set h1.backing (h1.curr_elt.backing_end - 1) head })

-- `xs[a..a + elts.len()].copy_from_slice(elts)`.
abbrev pub write : ℕ → List ℕ → List ℕ → List ℕ
write a elts xs = take a xs ++ (elts ++ drop (a + length elts) xs)

-- The slice that is written must have the length of the elements, so an end that wraps panics.
unfoldable pub push_slice : VecHashCons → List ℕ → Option VecHashCons
push_slice h elts = ensure_size (grow h (length elts)) >>= λ h1.
    guard (h.curr_elt.backing_end + length elts == h1.curr_elt.backing_end)
    >> some (record h1 { backing = write h.curr_elt.backing_end elts h1.backing })

abbrev pub same : List ℕ → List ℕ → Bool
same [] [] = true
same [] (y ∷ ys) = false
same (x ∷ xs) [] = false
same (x ∷ xs) (y ∷ ys) = x == y && same xs ys

-- `table.entry` for the vector.
unfoldable pub entry : VecHashCons → List ℕ → List ℕ → Option (Option ℕ)
entry h vec [] = some none
entry h vec (x ∷ xs) =
    let rest = entry h vec xs in get h x >>= λ v. if same v vec then some (some x) else rest

abbrev pub vacant : VecHashCons → ℕ × VecHashCons
vacant h = (
  length h.elements,
  record {
    backing = h.backing;
    elements = h.elements ++ (h.curr_elt ∷ []);
    table = length h.elements ∷ h.table;
    curr_elt = record { backing_start = h.curr_elt.backing_end; backing_end = 0 };
  },
)

abbrev pub occupied : VecHashCons → ℕ → ℕ × VecHashCons
occupied h id = (
  id,
  record h { curr_elt = record { backing_start = h.curr_elt.backing_start; backing_end = 0 } },
)

abbrev pub settle : VecHashCons → Option ℕ → ℕ × VecHashCons
settle h none = vacant h
settle h (some id) = occupied h id

unfoldable pub finish_insert : VecHashCons → Option (ℕ × VecHashCons)
finish_insert h = do
  curr_backing ← slice h.curr_elt h.backing
  found ← entry h curr_backing h.table
  some (settle h found)

unfoldable pub insert : VecHashCons → List ℕ → Option (ℕ × VecHashCons)
insert h vec = do h1 ← start_insert h; h2 ← push_slice h1 vec; finish_insert h2
