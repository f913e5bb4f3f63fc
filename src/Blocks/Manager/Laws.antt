-- ===== src/Blocks/Manager/Laws.antt =====
-- What the scheduler can rely on in rllm/rllm-cuda/src/llm/paged/blocks.rs.
use aici.Prelude.{
  ◌≢◌, ℕ, ◌+◌, ◌≤◌, ◌<◌, ◌≡◌, ap, arith, ◌==◌, leb→le, true, false, none, some, List, [], ◌∷◌,
  length, inl, inr, Option-cases,
}
use aici.Blocks.Allocator.{num_blocks}
use aici.Blocks.Table.{lookup, or_nil}
use aici.Blocks.Seqs.{Inner, Seq, alloc_seq, swap_in, swap_out, trim, num_allocated_blocks}
use aici.Blocks.Seqs.Trim.{IsValid, Sets, alloc_seq-IsValid}
use aici.Blocks.Seqs.Copy.{prefix, copy-IsValid}
use aici.Seq.{running}
use aici.Blocks.Manager.{
  TchSeqMgr, copy_both, BlockSpaceManager, Member, can_allocate, allocate, swap_out_group,
  swap_out_seqs, move,
}

allocate_lem :
    (m : BlockSpaceManager) (w : Member) (gpu : Inner)
    → w.seq.num_kv_computed ≡ 0
    → alloc_seq m.gpu_allocator w.seq ≡ some gpu
    → allocate m (w ∷ []) ≡ some (record m { gpu_allocator = gpu })
unfolding allocate
allocate_lem m w gpu fresh e = rw (ap (λ k. k == 0) fresh, e)

-- If `can_allocate` holds for a single new sequence without blocks, and the GPU allocator is
-- valid, `allocate` returns with a valid GPU allocator in which the sequence has the blocks for
-- its length and at least `watermark_blocks` blocks stay free.
pub allocate-can_allocate :
    (m : BlockSpaceManager) (w : Member)
    → IsValid m.gpu_allocator
    → or_nil (lookup w.seq.seq_id m.gpu_allocator.seq_blocks) ≡ []
    → w.seq.num_kv_computed ≡ 0
    → can_allocate m (w ∷ []) ≡ some true
    → (gpu : Inner) × (v : List ℕ) × (allocate m (w ∷ []) ≡ some (record m { gpu_allocator = gpu }))
      × IsValid gpu
      × Sets w.seq.seq_id (some v) m.gpu_allocator gpu
      × (length v ≡ num_blocks m.gpu_allocator.alloc w.seq.len)
      × (m.watermark_blocks ≤ length gpu.alloc.free_list)
unfolding can_allocate
allocate-can_allocate m w valid empty fresh can =
    let n = num_blocks m.gpu_allocator.alloc w.seq.len in
    let free = length m.gpu_allocator.alloc.free_list in
    let enough : n + m.watermark_blocks ≤ free = leb→le (n + m.watermark_blocks) free (cc can) in
    let (gpu, v, e, valid', sets, long, left) =
      alloc_seq-IsValid m.gpu_allocator w.seq valid empty (omega arith) in
    (gpu, v, allocate_lem m w gpu fresh e, valid', sets, long, omega arith)

-- `swap_out` of a group whose first sequence is running and has blocks on the GPU panics.
pub swap_out-running :
    (m : BlockSpaceManager) (seq : Seq) (rest : List Member)
    → 0 < num_allocated_blocks m.gpu_allocator seq
    → swap_out_group m (record { seq = seq; sched_phase = running } ∷ rest) ≡ none
unfolding swap_out_seqs move swap_in swap_out
swap_out-running m seq rest on_gpu =
    let used : (num_allocated_blocks m.gpu_allocator seq == 0) ≡ false = ground arith in
    elim (Option-cases (trim m.cpu_allocator seq.seq_id 0)) [
      | inl panics ↦ rw panics
      | inr (cpu, e) ↦ rw (e, used)
    ]

-- If both allocators of the sequence manager are valid, `copy` between two different sequences
-- returns, and leaves both valid: in each the target has the first blocks that the source has
-- there, as many as the length needs, and no other list changes.
pub copy_both-IsValid :
    (m : TchSeqMgr) (src dst length_ : ℕ)
    → IsValid m.cpu_allocator
    → IsValid m.gpu_allocator
    → src ≢ dst
    → (cpu gpu : Inner) × (copy_both m src dst length_
        ≡ some (record m { cpu_allocator = cpu; gpu_allocator = gpu }))
      × IsValid cpu
      × IsValid gpu
      × Sets dst
          (prefix
            (num_blocks m.cpu_allocator.alloc length_)
            (lookup src m.cpu_allocator.seq_blocks))
          m.cpu_allocator
          cpu
      × Sets dst
          (prefix
            (num_blocks m.gpu_allocator.alloc length_)
            (lookup src m.gpu_allocator.seq_blocks))
          m.gpu_allocator
          gpu
unfolding copy_both
copy_both-IsValid m src dst length_ valid_cpu valid_gpu differ =
    let (cpu, e, valid_cpu', sets_cpu) =
      copy-IsValid m.cpu_allocator src dst length_ valid_cpu differ in
    let (gpu, f, valid_gpu', sets_gpu) =
      copy-IsValid m.gpu_allocator src dst length_ valid_gpu differ in
    (cpu, gpu, rw (e, f), valid_cpu', valid_gpu', sets_cpu, sets_gpu)
