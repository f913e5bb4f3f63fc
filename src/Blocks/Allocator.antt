-- ===== src/Blocks/Allocator.antt =====
-- `Allocator` of rllm/rllm-cuda/src/llm/paged/blocks.rs: reference counts and the list of free
-- blocks. A `BlockRef` is the number of its block; the head of `free_list` is the back of the vector.
pub mod Laws
use aici.Prelude.{
  ℕ, suc, ◌+◌, ◌-◌, ◌/◌, ◌==◌, ltb, Bool, Option, none, some, List, [], ◌∷◌, get_elem?, set,
  replicate, range_from, ◌>>=◌, ◌>>◌, guard, if◌then◌else◌,
}

pub record Allocator : Type 0 where
  pub free_list : List ℕ
  -- The `ref_count` of each of `all_blocks`.
  pub ref_counts : List ℕ
  pub block_size : ℕ

abbrev pub num_blocks : Allocator → ℕ → ℕ
num_blocks a length = (length + a.block_size - 1) / a.block_size

unfoldable pub free : Allocator → ℕ → Option Allocator
free a block = do
  count ← get_elem? a.ref_counts block
  guard (ltb 0 count)
  some (record a {
    ref_counts = set a.ref_counts block (count - 1);
    free_list = if count - 1 == 0 then block ∷ a.free_list else a.free_list;
  })

unfoldable pub fork : Allocator → ℕ → Option (ℕ × Allocator)
fork a block = do
  count ← get_elem? a.ref_counts block
  guard (ltb 0 count)
  some (block, record a { ref_counts = set a.ref_counts block (count + 1) })

unfoldable pub allocate_from : Allocator → List ℕ → Option (ℕ × Allocator)
allocate_from a [] = none
allocate_from a (block ∷ rest) = do
  count ← get_elem? a.ref_counts block
  guard (count == 0)
  some (block, record a { free_list = rest; ref_counts = set a.ref_counts block (count + 1) })

unfoldable pub allocate : Allocator → Option (ℕ × Allocator)
unfolding allocate_from
allocate a = allocate_from a a.free_list

unfoldable pub is_singular : Allocator → ℕ → Option Bool
is_singular a block = do
  count ← get_elem? a.ref_counts block
  guard (ltb 0 count)
  some (count == 1)

-- `BlockAllocator::new`: block 0 is the first to be allocated.
unfoldable pub new : ℕ → ℕ → Allocator
new block_size num_blocks = record {
  free_list = range_from 0 num_blocks;
  ref_counts = replicate num_blocks 0;
  block_size = block_size;
}
