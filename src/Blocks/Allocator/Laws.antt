-- ===== src/Blocks/Allocator/Laws.antt =====
-- The counts of an allocator are the number of references that are held, and the free blocks are
-- those without one: kept by each operation of rllm/rllm-cuda/src/llm/paged/blocks.rs.
use native.Mathlib.Decide.{ℕ_discrete}
use aici.Prelude.{
  ℕ, zero, suc, ◌+◌, ◌-◌, ◌<◌, ◌≡◌, refl, ap, sym, ◌∙◌, arith, ◌==◌, ltb, Bool, true, false, ◌&&◌,
  Option, none, some, List, [], ◌∷◌, ◌++◌, length, get_elem?, set, replicate, range_from,
  if◌then◌else◌, get_elem?-set_self, get_elem?-set_ne, length-set, length-replicate, Option-cases,
  inl, inr, lt→ltb, lt_of_get_elem?, get_elem?-lt, leb,
}
use aici.Blocks.Allocator.{Allocator, free, fork, allocate, is_singular, new}

abbrev pub one_if : Bool → ℕ
one_if true = 1
one_if false = 0

abbrev pub count : ℕ → List ℕ → ℕ
count b [] = 0
count b (x ∷ xs) = one_if (x == b) + count b xs

pub count-append : (b : ℕ) (xs ys : List ℕ) → count b (xs ++ ys) ≡ count b xs + count b ys
count-append b [] ys = omega arith
count-append b (x ∷ xs) ys = omega (arith, count-append b xs ys)

abbrev or_zero : Option ℕ → ℕ
or_zero none = 0
or_zero (some n) = n

abbrev pub refs : Allocator → ℕ → ℕ
refs a b = or_zero (get_elem? a.ref_counts b)

-- `held` lists the references that exist, as often as each exists.
pub record Inv (a : Allocator) (held : List ℕ) : Type 0 where
  pub counted : (b : ℕ) → refs a b ≡ count b held
  pub free_once :
      (b : ℕ) → count b a.free_list ≡ one_if (ltb b (length a.ref_counts) && refs a b == 0)

pub Inv-same :
    {a : Allocator} (xs ys : List ℕ) → ((b : ℕ) → count b xs ≡ count b ys) → Inv a xs → Inv a ys
Inv-same xs ys same v = record { counted = λ b. v.counted b ∙ same b; free_once = v.free_once }

refs-set :
    (counts : List ℕ) (i n b : ℕ)
    → i < length counts
    → or_zero (get_elem? (set counts i n) b) ≡ (if i == b then n else or_zero (get_elem? counts b))
refs-set counts i n b h = elim (ℕ_discrete i b) [
  | yes same ↦ rw (← same, get_elem?-set_self counts i n h) (ground arith)
  | no differ ↦ rw (get_elem?-set_ne counts i b n differ) (ground arith)
]

stored : (a : Allocator) (b n : ℕ) → refs a b ≡ suc n → get_elem? a.ref_counts b ≡ some (suc n)
stored a b n e = elim (Option-cases (get_elem? a.ref_counts b)) [
  | inl missing ↦ absurd (ground arith)
  | inr (m, there) ↦ there ∙ ap some (ground arith)
]

-- If the counts of an allocator match the held references, freeing one of these returns an
-- allocator whose counts match the others, with the same block size and number of blocks.
pub free-Inv :
    (a : Allocator) (b : ℕ) (held : List ℕ)
    → Inv a (b ∷ held)
    → (a' : Allocator) × (free a b ≡ some a')
      × Inv a' held
      × (a'.block_size ≡ a.block_size)
      × (length a'.ref_counts ≡ length a.ref_counts)
unfolding free
free-Inv a b held v =
    let e : refs a b ≡ suc (count b held) = v.counted b ∙ ground arith in
    let there = stored a b (count b held) e in
    let less : suc (count b held) - 1 ≡ count b held = omega arith in
    let inside = lt_of_get_elem? a.ref_counts b (suc (count b held)) there in
    (
      record a {
        ref_counts = set a.ref_counts b (count b held);
        free_list = if count b held == 0 then b ∷ a.free_list else a.free_list;
      },
      rw (there, less, lt→ltb 0 (suc (count b held)) (omega arith)),
      record {
        counted =
            λ x. refs-set a.ref_counts b (count b held) x inside ∙ ground (arith, v.counted x);
        free_once = λ x. ground (
          arith,
          refs-set a.ref_counts b (count b held) x inside,
          length-set a.ref_counts b (count b held),
          v.free_once x,
          v.counted x,
        );
      },
      refl,
      length-set a.ref_counts b (count b held),
    )

-- If the counts of an allocator match the held references, forking a block that is held returns
-- that block and an allocator whose counts match with one more reference to it, with the same
-- block size and number of blocks.
pub fork-Inv :
    (a : Allocator) (b : ℕ) (held : List ℕ)
    → Inv a held
    → 0 < count b held
    → (a' : Allocator) × (fork a b ≡ some (b, a'))
      × Inv a' (b ∷ held)
      × (a'.block_size ≡ a.block_size)
      × (length a'.ref_counts ≡ length a.ref_counts)
unfolding fork
fork-Inv a b held v used =
    let e : refs a b ≡ suc (count b held - 1) = v.counted b ∙ omega arith in
    let there = stored a b (count b held - 1) e in
    let inside = lt_of_get_elem? a.ref_counts b (suc (count b held - 1)) there in
    (
      record a { ref_counts = set a.ref_counts b (suc (count b held - 1) + 1) },
      rw (there, lt→ltb 0 (suc (count b held - 1)) (omega arith)),
      record {
        counted = λ x.
            refs-set a.ref_counts b (suc (count b held - 1) + 1) x inside
            ∙ ground (arith, v.counted x);
        free_once = λ x. ground (
          arith,
          refs-set a.ref_counts b (suc (count b held - 1) + 1) x inside,
          length-set a.ref_counts b (suc (count b held - 1) + 1),
          v.free_once x,
          v.counted x,
        );
      },
      refl,
      length-set a.ref_counts b (suc (count b held - 1) + 1),
    )

-- If the counts of an allocator match the held references and a block is free, `allocate`
-- returns the front block of the free list, to which no reference was held, and an allocator
-- whose counts match with that reference added and which has the rest of the free list.
pub allocate-Inv :
    (a : Allocator) (b : ℕ) (rest held : List ℕ)
    → Inv a held
    → a.free_list ≡ b ∷ rest
    → (a' : Allocator) × (allocate a ≡ some (b, a'))
      × Inv a' (b ∷ held)
      × (count b held ≡ 0)
      × (a'.block_size ≡ a.block_size)
      × (a'.free_list ≡ rest)
      × (length a'.ref_counts ≡ length a.ref_counts)
unfolding allocate
allocate-Inv a b rest held v e =
    let once : count b (b ∷ rest) ≡ one_if (ltb b (length a.ref_counts) && refs a b == 0) =
      ap (count b) (sym e) ∙ v.free_once b in
    let inside : b < length a.ref_counts = ground arith in
    let none_held : count b held ≡ 0 = ground (arith, v.counted b) in
    let (m, there) = get_elem?-lt a.ref_counts b inside in
    let zero_count : m ≡ 0 = ground (arith, v.counted b) in
    let there' : get_elem? a.ref_counts b ≡ some 0 = there ∙ ap some zero_count in
    (
      record a { free_list = rest; ref_counts = set a.ref_counts b (0 + 1) },
      rw (e, there'),
      record {
        counted = λ x. refs-set a.ref_counts b (0 + 1) x inside ∙ ground (arith, v.counted x);
        free_once = λ x. ground (
          arith,
          refs-set a.ref_counts b (0 + 1) x inside,
          length-set a.ref_counts b (0 + 1),
          v.free_once x,
          ap (count x) e,
        );
      },
      none_held,
      refl,
      refl,
      length-set a.ref_counts b (0 + 1),
    )

-- Without a free block `allocate` panics.
pub allocate-empty : (a : Allocator) → a.free_list ≡ [] → allocate a ≡ none
unfolding allocate
allocate-empty a e = rw e

-- If the counts of an allocator match the held references, `is_singular` of one of these returns
-- whether it is the only one to its block.
pub is_singular_lem :
    (a : Allocator) (b : ℕ) (held : List ℕ)
    → Inv a (b ∷ held)
    → is_singular a b ≡ some (count b held == 0)
unfolding is_singular
is_singular_lem a b held v =
    let e : refs a b ≡ suc (count b held) = v.counted b ∙ ground arith in
    rw (stored a b (count b held) e, lt→ltb 0 (suc (count b held)) (omega arith)) (ground arith)

count-range : (b i n : ℕ) → count b (range_from i n) ≡ one_if (leb i b && ltb b (i + n))
count-range b i zero = ground arith
count-range b i (suc n) = ground (arith, count-range b (suc i) n)

refs-replicate : (n b : ℕ) → or_zero (get_elem? (replicate n 0) b) ≡ 0
refs-replicate zero b = refl
refs-replicate (suc n) zero = refl
refs-replicate (suc n) (suc b) = refs-replicate n b

-- The counts of a new allocator match no references at all, and each of its blocks is free once.
pub new-Inv : (block_size n : ℕ) → Inv (new block_size n) []
unfolding new
new-Inv block_size n = record {
  counted = refs-replicate n;
  free_once = λ b. ground (arith, count-range b 0 n, refs-replicate n b, length-replicate n (zero));
}
