-- ===== src/Blocks/Manager.antt =====
-- `BlockSpaceManager` of rllm/rllm-cuda/src/llm/paged/blocks.rs: the blocks on the GPU and those on
-- the CPU. A group is the list of its sequences with their phases; `none` is a panic.
pub mod Laws
use aici.Prelude.{
  ℕ, ◌+◌, ◌==◌, leb, ltb, Bool, true, false, Option, none, some, List, [], ◌∷◌, length, ◌>>=◌, ◌>>◌,
  guard, if◌then◌else◌,
}
use aici.Seq.{SchedulingPhase, running, swapped, is_running, is_swapped}
use aici.Blocks.Table.{Table}
use aici.Blocks.Seqs.{
  Inner, Seq, Mapping, get_num_free_blocks, num_needed_blocks, num_allocated_blocks, alloc_seq,
  swap_in, swap_out, append_slots, copy, trim, delete,
}

-- A sequence of a group: its phase, and what the allocators read of it.
pub record Member : Type 0 where
  pub seq : Seq
  pub sched_phase : SchedulingPhase

pub record BlockSpaceManager : Type 0 where
  pub watermark_blocks : ℕ
  pub gpu_allocator : Inner
  pub cpu_allocator : Inner

abbrev pub can_alloc_gpu : BlockSpaceManager → ℕ → Bool
can_alloc_gpu m num_required_blocks = leb num_required_blocks (get_num_free_blocks m.gpu_allocator)

-- `only_seq` panics unless the group is one sequence.
abbrev pub only_seq : List Member → Option Seq
only_seq (w ∷ []) = some w.seq
only_seq [] = none
only_seq (w ∷ x ∷ rest) = none

unfoldable pub can_allocate : BlockSpaceManager → List Member → Option Bool
can_allocate m group = only_seq group >>= λ seq.
    some (can_alloc_gpu m (num_needed_blocks m.gpu_allocator seq + m.watermark_blocks))

unfoldable pub allocate : BlockSpaceManager → List Member → Option BlockSpaceManager
allocate m group = do
  seq ← only_seq group
  guard (seq.num_kv_computed == 0)
  gpu ← alloc_seq m.gpu_allocator seq
  some (record m { gpu_allocator = gpu })

abbrev pub num_seqs : (SchedulingPhase → Bool) → List Member → ℕ
num_seqs is_phase [] = 0
num_seqs is_phase (w ∷ rest) = (if is_phase w.sched_phase then 1 else 0) + num_seqs is_phase rest

pub can_append_slot : BlockSpaceManager → List Member → Bool
can_append_slot m group = can_alloc_gpu m (num_seqs is_running group)

-- The blocks of a sequence are all on one side.
abbrev pub num_phys_blocks : BlockSpaceManager → List Member → Option ℕ
num_phys_blocks m [] = some 0
num_phys_blocks m (w ∷ rest) =
    let n = num_allocated_blocks m.gpu_allocator w.seq in
    let on_cpu = num_allocated_blocks m.cpu_allocator w.seq in
    do
      guard (if n == 0 then true else on_cpu == 0)
      sum ← num_phys_blocks m rest
      some ((if n == 0 then on_cpu else n) + sum)

pub can_swap_in : BlockSpaceManager → List Member → Option Bool
can_swap_in m group = num_phys_blocks m group >>= λ blocks.
    some (can_alloc_gpu m (blocks + num_seqs is_swapped group + m.watermark_blocks))

pub can_swap_out : BlockSpaceManager → List Member → Option Bool
can_swap_out m group =
    num_phys_blocks m group >>= λ blocks. some (leb blocks (get_num_free_blocks m.cpu_allocator))

-- The blocks of `seq` move from `from` to `to`.
unfoldable pub move : Inner → Inner → Seq → Mapping → Option (Mapping × Inner × Inner)
move from to seq mapping = do
  (block_idxs, from') ← swap_out from seq
  (mapping', to') ← swap_in to seq block_idxs mapping
  some (mapping', from', to')

unfoldable pub swap_in_seqs :
    BlockSpaceManager → List Member → Mapping → Option (Mapping × List Member × BlockSpaceManager)
swap_in_seqs m [] mapping = some (mapping, [], m)
swap_in_seqs m (w ∷ rest) mapping =
    if is_swapped w.sched_phase
    then (do
      (mapping1, gpu, cpu) ← move m.gpu_allocator m.cpu_allocator w.seq mapping
      (mapping2, rest', m') ←
          swap_in_seqs (record m { gpu_allocator = gpu; cpu_allocator = cpu }) rest mapping1
      some (mapping2, record w { sched_phase = running } ∷ rest', m'))
    else (do (mapping2, rest', m') ← swap_in_seqs m rest mapping; some (mapping2, w ∷ rest', m'))

unfoldable pub swap_out_seqs :
    BlockSpaceManager → List Member → Mapping → Option (Mapping × List Member × BlockSpaceManager)
swap_out_seqs m [] mapping = some (mapping, [], m)
swap_out_seqs m (w ∷ rest) mapping =
    if is_running w.sched_phase
    then (do
      (mapping1, cpu, gpu) ← move m.cpu_allocator m.gpu_allocator w.seq mapping
      (mapping2, rest', m') ←
          swap_out_seqs (record m { gpu_allocator = gpu; cpu_allocator = cpu }) rest mapping1
      some (mapping2, record w { sched_phase = swapped } ∷ rest', m'))
    else (do (mapping2, rest', m') ← swap_out_seqs m rest mapping; some (mapping2, w ∷ rest', m'))

abbrev pub swap_in_group :
    BlockSpaceManager → List Member → Option (Mapping × List Member × BlockSpaceManager)
swap_in_group m group = swap_in_seqs m group []

abbrev pub swap_out_group :
    BlockSpaceManager → List Member → Option (Mapping × List Member × BlockSpaceManager)
swap_out_group m group = swap_out_seqs m group []

-- `append_slots` of the manager, for one sequence and the copies that a step collects.
pub append_slots_gpu : BlockSpaceManager → Seq → Table → Option (BlockSpaceManager × Table)
append_slots_gpu m seq blocks_to_copy =
    append_slots m.gpu_allocator seq blocks_to_copy >>= λ (gpu, blocks_to_copy').
    some (record m { gpu_allocator = gpu }, blocks_to_copy')

-- `TchSeqMgr`: the sequences that a controller makes, copies and removes, on both allocators.
pub record TchSeqMgr : Type 0 where
  pub next : ℕ
  pub cpu_allocator : Inner
  pub gpu_allocator : Inner

pub new_sequence : TchSeqMgr → ℕ × TchSeqMgr
new_sequence m = (m.next, record m { next = m.next + 1 })

unfoldable pub copy_both : TchSeqMgr → ℕ → ℕ → ℕ → Option TchSeqMgr
copy_both m src dst length = do
  cpu ← copy m.cpu_allocator src dst length
  gpu ← copy m.gpu_allocator src dst length
  some (record m { cpu_allocator = cpu; gpu_allocator = gpu })

unfoldable pub trim_both : TchSeqMgr → ℕ → ℕ → Option TchSeqMgr
trim_both m seq length = do
  cpu ← trim m.cpu_allocator seq length
  gpu ← trim m.gpu_allocator seq length
  some (record m { cpu_allocator = cpu; gpu_allocator = gpu })

unfoldable pub delete_both : TchSeqMgr → ℕ → Option TchSeqMgr
delete_both m seq = do
  cpu ← delete m.cpu_allocator seq
  gpu ← delete m.gpu_allocator seq
  some (record m { cpu_allocator = cpu; gpu_allocator = gpu })
