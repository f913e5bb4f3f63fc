-- ===== src/Blocks/Examples.antt =====
-- Four blocks of 16 tokens, two of them in use by sequence 7: a state on which the theorems about
-- rllm/rllm-cuda/src/llm/paged/blocks.rs apply.
use aici.Prelude.{
  ℕ, zero, suc, ◌+◌, ◌≤◌, ◌≡◌, refl, arith, ◌==◌, true, none, some, List, [], ◌∷◌, ltb, ◌&&◌,
  length,
}
use aici.Blocks.Allocator.{Allocator, free, fork, allocate}
use aici.Blocks.Allocator.Laws.{Inv, count, refs, one_if, free-Inv, fork-Inv, allocate-Inv}
use aici.Blocks.Seqs.{Inner, Seq, trim, delete, copy, alloc_seq}
use aici.Blocks.Seqs.Trim.{IsValid, Sets, trim-IsValid, delete-IsValid, alloc_seq-IsValid}
use aici.Blocks.Seqs.Copy.{copy-IsValid}
use aici.Seq.{waiting, running}
use aici.Blocks.Manager.{
  TchSeqMgr, copy_both, BlockSpaceManager, Member, can_allocate, swap_out_group,
}
use aici.Blocks.Manager
use aici.Blocks.Manager.Laws.{copy_both-IsValid, allocate-can_allocate, swap_out-running}

abbrev two_used : Allocator
two_used = record { free_list = 2 ∷ 3 ∷ []; ref_counts = 1 ∷ 1 ∷ 0 ∷ 0 ∷ []; block_size = 16 }

abbrev both : List ℕ
both = 0 ∷ 1 ∷ []

two_used_counted : (b : ℕ) → refs two_used b ≡ count b both
two_used_counted zero = refl
two_used_counted (suc zero) = refl
two_used_counted (suc (suc zero)) = refl
two_used_counted (suc (suc (suc zero))) = refl
two_used_counted (suc (suc (suc (suc n)))) = ground arith

two_used_free : (b : ℕ) → count b two_used.free_list ≡ one_if (ltb b 4 && refs two_used b == 0)
two_used_free zero = refl
two_used_free (suc zero) = refl
two_used_free (suc (suc zero)) = refl
two_used_free (suc (suc (suc zero))) = refl
two_used_free (suc (suc (suc (suc n)))) = ground arith

two_used-Inv : Inv two_used both
two_used-Inv = record { counted = two_used_counted; free_once = two_used_free }

abbrev seven : Inner
seven = record { alloc = two_used; seq_blocks = (7, both) ∷ [] }

seven-IsValid : IsValid seven
seven-IsValid = record {
  counted = two_used-Inv;
  unique = λ k. ground arith;
  positive = omega arith;
}

free-Inv_example :
    (a' : Allocator) × (free two_used 0 ≡ some a')
    × Inv a' (1 ∷ [])
    × (a'.block_size ≡ 16)
    × (length a'.ref_counts ≡ 4)
free-Inv_example = free-Inv two_used 0 (1 ∷ []) two_used-Inv

fork-Inv_example :
    (a' : Allocator) × (fork two_used 1 ≡ some (1, a'))
    × Inv a' (1 ∷ both)
    × (a'.block_size ≡ 16)
    × (length a'.ref_counts ≡ 4)
fork-Inv_example = fork-Inv two_used 1 both two_used-Inv (omega arith)

allocate-Inv_example :
    (a' : Allocator) × (allocate two_used ≡ some (2, a'))
    × Inv a' (2 ∷ both)
    × (count 2 both ≡ 0)
    × (a'.block_size ≡ 16)
    × (a'.free_list ≡ 3 ∷ [])
    × (length a'.ref_counts ≡ 4)
allocate-Inv_example = allocate-Inv two_used 2 (3 ∷ []) both two_used-Inv refl

trim-IsValid_example :
    (s' : Inner) × (trim seven 7 5 ≡ some s')
    × IsValid s'
    × Sets 7 (some (0 ∷ [])) seven s'
    × (s'.alloc.block_size ≡ 16)
trim-IsValid_example = trim-IsValid seven 7 5 both seven-IsValid refl (omega arith)

delete-IsValid_example :
    (s' : Inner) × (delete seven 7 ≡ some s')
    × IsValid s'
    × Sets 7 none seven s'
    × (s'.alloc.block_size ≡ 16)
delete-IsValid_example = delete-IsValid seven 7 seven-IsValid

copy-IsValid_example :
    (s' : Inner) × (copy seven 7 8 20 ≡ some s') × IsValid s' × Sets 8 (some both) seven s'
copy-IsValid_example = copy-IsValid seven 7 8 20 seven-IsValid (λ e. omega arith)

-- A sequence of the length that has not run.
abbrev fresh_seq : ℕ → Seq
fresh_seq len = record { seq_id = 9; len = len; num_kv_computed = 0 }

alloc_seq-IsValid_example :
    (s' : Inner) × (v : List ℕ) × (alloc_seq seven (fresh_seq 20) ≡ some s')
    × IsValid s'
    × Sets 9 (some v) seven s'
    × (length v ≡ 2)
    × (length s'.alloc.free_list + 2 ≡ 2)
alloc_seq-IsValid_example = alloc_seq-IsValid seven (fresh_seq 20) seven-IsValid refl (omega arith)

abbrev unused : Inner
unused = record {
  alloc = record { free_list = 0 ∷ 1 ∷ []; ref_counts = 0 ∷ 0 ∷ []; block_size = 16 };
  seq_blocks = [];
}

abbrev manager : BlockSpaceManager
manager = record { watermark_blocks = 1; gpu_allocator = seven; cpu_allocator = unused }

can_allocate_one :
    can_allocate manager (record { seq = fresh_seq 10; sched_phase = waiting } ∷ []) ≡ some true
unfolding can_allocate
can_allocate_one = refl

allocate-can_allocate_example :
    (gpu : Inner) × (v : List ℕ) × (aici.Blocks.Manager.allocate manager
        (record { seq = fresh_seq 10; sched_phase = waiting } ∷ [])
      ≡ some (record manager { gpu_allocator = gpu }))
    × IsValid gpu
    × Sets 9 (some v) seven gpu
    × (length v ≡ 1)
    × (1 ≤ length gpu.alloc.free_list)
allocate-can_allocate_example =
    allocate-can_allocate manager (record { seq = fresh_seq 10; sched_phase = waiting })
      seven-IsValid refl refl can_allocate_one

abbrev running_seven : Seq
running_seven = record { seq_id = 7; len = 20; num_kv_computed = 20 }

swap_out-running_example :
    swap_out_group manager (record { seq = running_seven; sched_phase = running } ∷ []) ≡ none
swap_out-running_example = swap_out-running manager running_seven [] (omega arith)

abbrev seq_mgr : TchSeqMgr
seq_mgr = record { next = 8; cpu_allocator = seven; gpu_allocator = seven }

copy_both-IsValid_example :
    (cpu gpu : Inner) × (copy_both seq_mgr 7 8 20
      ≡ some (record seq_mgr { cpu_allocator = cpu; gpu_allocator = gpu }))
    × IsValid cpu
    × IsValid gpu
    × Sets 8 (some both) seven cpu
    × Sets 8 (some both) seven gpu
copy_both-IsValid_example =
    copy_both-IsValid seq_mgr 7 8 20 seven-IsValid seven-IsValid (λ e. omega arith)
