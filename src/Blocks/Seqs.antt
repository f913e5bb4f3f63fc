-- ===== src/Blocks/Seqs.antt =====
-- `BlockAllocatorInner` and `BlockAllocator` of rllm/rllm-cuda/src/llm/paged/blocks.rs: the blocks of
-- each sequence. The mutex makes each operation one step.
pub mod Batch
pub mod Trim
pub mod Copy
use aici.Prelude.{
  ℕ, zero, suc, ◌+◌, ◌-◌, ◌*◌, ◌/◌, ◌%◌, ◌==◌, ltb, leb, Bool, true, false, Option, none, some,
  List, [], ◌∷◌, ◌++◌, length, get_elem?, set, take, drop, range_from, ◌>>=◌, ◌>>◌, guard,
  if◌then◌else◌,
}
use aici.Prelude.Loops.{for_each, collect, while}
use aici.Blocks.Allocator.{Allocator, num_blocks, free, fork, allocate, is_singular}
use aici.Blocks.Table.{Table, lookup, insert, remove, or_nil}

pub record Inner : Type 0 where
  pub alloc : Allocator
  pub seq_blocks : Table

-- What the operations read of a `Sequence`: `len` is `get_len()`.
pub record Seq : Type 0 where
  pub seq_id : ℕ
  pub len : ℕ
  pub num_kv_computed : ℕ

unfoldable pub free_all : List ℕ → Allocator → Option Allocator
free_all [] a = some a
free_all (b ∷ bs) a = free a b >>= free_all bs

unfoldable pub fork_all : List ℕ → Allocator → Option (List ℕ × Allocator)
fork_all [] a = some ([], a)
fork_all (b ∷ bs) a = do (new, a1) ← fork a b; (rest, a2) ← fork_all bs a1; some (new ∷ rest, a2)

unfoldable pub allocate_n : ℕ → Allocator → Option (List ℕ × Allocator)
allocate_n zero a = some ([], a)
allocate_n (suc n) a = do
  (new, a1) ← allocate a
  (rest, a2) ← allocate_n n a1
  some (new ∷ rest, a2)

abbrev pub copy_found : Inner → ℕ → ℕ → Option (List ℕ) → Option Inner
copy_found s dst length none = some s
copy_found s dst length (some v) = do
  (new_v, a) ← fork_all (take (num_blocks s.alloc length) v) s.alloc
  some (record { alloc = a; seq_blocks = insert dst new_v s.seq_blocks })

unfoldable pub copy_inner : Inner → ℕ → ℕ → ℕ → Option Inner
copy_inner s src dst length = copy_found s dst length (lookup src s.seq_blocks)

-- `drain(length..)` panics when the list is shorter.
abbrev pub trim_found : Inner → ℕ → ℕ → Option (List ℕ) → Option Inner
trim_found s seq n none = some s
trim_found s seq n (some v) = do
  guard (leb n (length v))
  a ← free_all (drop n v) s.alloc
  some (record { alloc = a; seq_blocks = insert seq (take n v) s.seq_blocks })

unfoldable pub trim_list : Inner → ℕ → ℕ → Option Inner
trim_list s seq n = trim_found s seq n (lookup seq s.seq_blocks)

unfoldable pub trim : Inner → ℕ → ℕ → Option Inner
trim s seq length =
    let n = num_blocks s.alloc length in
    trim_list s seq n >>= λ s'.
    some (if n == 0 then record s' { seq_blocks = remove seq s'.seq_blocks } else s')

pub get_block_idx : Inner → ℕ → ℕ → Option ℕ
get_block_idx s seq position = do
  blocks ← lookup seq s.seq_blocks
  let block_offset = position % s.alloc.block_size
  block ← get_elem? blocks (position / s.alloc.block_size)
  some (block * s.alloc.block_size + block_offset)

pub get_block_idxes : Inner → ℕ → ℕ → Option (List ℕ)
unfolding get_block_idx
get_block_idxes s seq len =
    collect (range_from 0 len) (λ k. get_block_idx s seq k >>= λ i. some (i ∷ []))

abbrev pub get_num_free_blocks : Inner → ℕ
get_num_free_blocks s = length s.alloc.free_list

abbrev pub num_needed_blocks : Inner → Seq → ℕ
num_needed_blocks s seq = num_blocks s.alloc seq.len

abbrev pub num_allocated_blocks : Inner → Seq → ℕ
num_allocated_blocks s seq = length (or_nil (lookup seq.seq_id s.seq_blocks))

unfoldable pub alloc_seq : Inner → Seq → Option Inner
alloc_seq s seq = do
  guard (num_allocated_blocks s seq == 0)
  (v, a) ← allocate_n (num_blocks s.alloc seq.len) s.alloc
  some (record { alloc = a; seq_blocks = insert seq.seq_id v s.seq_blocks })

unfoldable pub swap_out : Inner → Seq → Option (List ℕ × Inner)
swap_out s seq = trim s seq.seq_id 0 >>= λ s'. some (or_nil (lookup seq.seq_id s.seq_blocks), s')

-- The map from old to new block numbers.
abbrev pub Mapping : Type 0
Mapping = List (ℕ × ℕ)

abbrev pub find : ℕ → Mapping → Option ℕ
find k [] = none
find k ((j, v) ∷ m) = if j == k then some v else find k m

unfoldable pub swap_in_each : List ℕ → Mapping → Allocator → Option (List ℕ × Mapping × Allocator)
swap_in_each [] mapping a = some ([], mapping, a)
swap_in_each (bidx ∷ bidxs) mapping a = elim (find bidx mapping) [
  | some new_bidx ↦ do
    (b, a1) ← fork a new_bidx
    (v, mapping', a2) ← swap_in_each bidxs mapping a1
    some (b ∷ v, mapping', a2)
  | none ↦ do
    (b, a1) ← allocate a
    (v, mapping', a2) ← swap_in_each bidxs ((bidx, b) ∷ mapping) a1
    some (b ∷ v, mapping', a2)
]

unfoldable pub swap_in : Inner → Seq → List ℕ → Mapping → Option (Mapping × Inner)
swap_in s seq block_idxs mapping = do
  guard (num_allocated_blocks s seq == 0)
  (v, mapping', a) ← swap_in_each block_idxs mapping s.alloc
  some (mapping', record { alloc = a; seq_blocks = insert seq.seq_id v s.seq_blocks })

-- `SchedulerOutputs::copy_block`: the copies to make, by source block.
abbrev pub copy_block : ℕ → ℕ → Table → Table
copy_block src dst copies = insert src (or_nil (lookup src copies) ++ dst ∷ []) copies

-- The variables of the loop in `append_slots`.
pub record Slots : Type 0 where
  pub alloc : Allocator
  pub block_table : List ℕ
  pub blocks_to_copy : Table
  pub ptr : ℕ

-- A block that is shared is replaced by a copy; past the end a block is added.
unfoldable pub slot_step : Slots → Option Slots
slot_step s =
    let block_size = s.alloc.block_size in
    let block_idx = s.ptr / block_size in
    let next = (block_idx + 1) * block_size in
    if ltb block_idx (length s.block_table)
    then (do
      curr_block ← get_elem? s.block_table block_idx
      singular ← is_singular s.alloc curr_block
      if singular then some (record s { ptr = next }) else (do
        (new_block, a1) ← allocate s.alloc
        a2 ← free a1 curr_block
        some (record {
          alloc = a2;
          block_table = set s.block_table block_idx new_block;
          blocks_to_copy = copy_block curr_block new_block s.blocks_to_copy;
          ptr = next;
        })))
    else (do
      guard (length s.block_table == block_idx)
      (new_block, a) ← allocate s.alloc
      some (record s { alloc = a; block_table = s.block_table ++ new_block ∷ []; ptr = next }))

-- One round for each block is enough.
unfoldable pub append_slots : Inner → Seq → Table → Option (Inner × Table)
append_slots s seq blocks_to_copy = do
  block_table ← lookup seq.seq_id s.seq_blocks
  guard (ltb 0 (length block_table))
  guard (leb seq.num_kv_computed (length block_table * s.alloc.block_size))
  done ←
      while (λ (w : Slots). ltb w.ptr seq.len) slot_step (suc (num_blocks s.alloc seq.len))
        (record {
          alloc = s.alloc;
          block_table = block_table;
          blocks_to_copy = blocks_to_copy;
          ptr = seq.num_kv_computed;
        })
  guard (length done.block_table == num_blocks done.alloc seq.len)
  some (
    record {
      alloc = done.alloc;
      seq_blocks = insert seq.seq_id done.block_table (remove seq.seq_id s.seq_blocks);
    },
    done.blocks_to_copy,
  )

unfoldable pub copy : Inner → ℕ → ℕ → ℕ → Option Inner
copy s src dst length = trim s dst 0 >>= λ s'. copy_inner s' src dst length

unfoldable pub delete : Inner → ℕ → Option Inner
delete s seq = trim s seq 0
