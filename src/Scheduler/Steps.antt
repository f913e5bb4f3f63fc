-- ===== src/Scheduler/Steps.antt =====
-- The steps of `schedule` in rllm/rllm-base/src/scheduler.rs. The block manager answers for the
-- memory as it then is.

use aici.Prelude.{
  ℕ, ◌+◌, ◌==◌, ltb, leb, Bool, true, false, not, ◌&&◌, Option, some, List, [], ◌∷◌, ◌++◌, ◌>>=◌,
  ◌>>◌, guard, if◌then◌else◌,
}
use mathlib.Core.List.{reverse}
use aici.Seq.{
  Sequence, SequenceGroup, waiting, running, is_running, is_finished, get_len,
  get_max_num_running_seqs, only_seq,
}
use aici.Scheduler.{
  Swaps, Copies, Memory, Config, SchedulerOutputs, Freed, Scheduler, set_phase, each_group,
  each_queue, check_fuel, check_prompt,
}

abbrev pub keep_groups : (SequenceGroup → Bool) → List SequenceGroup → List SequenceGroup
keep_groups p [] = []
keep_groups p (sg ∷ q) = if p sg then sg ∷ keep_groups p q else keep_groups p q

-- The finished groups of a queue go to the outputs.
abbrev pub drop_finished :
    SchedulerOutputs → List SequenceGroup → SchedulerOutputs × List SequenceGroup
drop_finished outputs q = (
  record outputs { dropped_seq_groups = keep_groups is_finished q ++ outputs.dropped_seq_groups },
  keep_groups (λ sg. not (is_finished sg)) q,
)

-- The stable sort by `arrival_time`, then `reverse`: the first to arrive is at the back.
unfoldable pub insert_by_arrival : SequenceGroup → List SequenceGroup → List SequenceGroup
insert_by_arrival sg [] = sg ∷ []
insert_by_arrival sg (x ∷ q) =
    let rest = insert_by_arrival sg q in
    if ltb x.arrival_time sg.arrival_time then x ∷ rest else sg ∷ x ∷ q

unfoldable pub sort_groups : List SequenceGroup → List SequenceGroup
sort_groups [] = []
sort_groups (sg ∷ q) = insert_by_arrival sg (sort_groups q)

unfoldable pub sort_by_priority : List SequenceGroup → List SequenceGroup
sort_by_priority q = sort_groups (reverse q)

abbrev pub max_num_running_seq : List SequenceGroup → ℕ
max_num_running_seq [] = 0
max_num_running_seq (sg ∷ q) = get_max_num_running_seqs sg + max_num_running_seq q

-- `q.remove(0)`: the element at the front of the vector, and the others.
abbrev pub remove_front : SequenceGroup → List SequenceGroup → SequenceGroup × List SequenceGroup
remove_front sg [] = (sg, [])
remove_front sg (x ∷ q) = let r = remove_front x q in (r.0, sg ∷ r.1)

abbrev pub running_tokens : List Sequence → ℕ
running_tokens [] = 0
running_tokens (seq ∷ seqs) =
    (if is_running seq.sched_phase then get_len seq else 0) + running_tokens seqs

abbrev pub batched_tokens : List SequenceGroup → ℕ
batched_tokens [] = 0
batched_tokens (sg ∷ q) = running_tokens sg.seqs + batched_tokens q

abbrev pub is_nil : {A : Type 0} → List A → Bool
is_nil [] = true
is_nil (x ∷ xs) = false

abbrev pub all_groups : (SequenceGroup → Bool) → List SequenceGroup → Bool
all_groups p [] = true
all_groups p (sg ∷ q) = p sg && all_groups p q

-- `SchedulerOutputs::validate`, of which nothing is left when its assertions hold.
unfoldable pub validate : SchedulerOutputs → Option SchedulerOutputs
validate o = do
  guard (is_nil o.blocks_to_swap_in)
  guard (is_nil o.blocks_to_swap_out)
  guard (all_groups is_finished o.dropped_seq_groups)
  guard (all_groups (λ sg. not (is_finished sg)) o.next_seq_groups)
  some o

unfoldable pub is_empty : SchedulerOutputs → Bool
is_empty o =
    is_nil o.next_seq_groups
    && is_nil o.blocks_to_swap_in
    && is_nil o.blocks_to_swap_out
    && is_nil o.blocks_to_copy

-- `blocks_to_swap_in.extend(map)`: a later entry replaces an earlier one.
abbrev pub extend : Swaps → Swaps → Swaps
extend swaps more = more ++ swaps

module _ {S : Type 0} (mem : Memory S) (c : Config) where
  unfoldable pub step_drop_finished :
      SchedulerOutputs → Scheduler S → Option (SchedulerOutputs × Scheduler S)
  step_drop_finished outputs s = do
    s1 ← each_queue mem (check_fuel mem c) s
    (w, st) ← each_group mem (check_prompt mem c) s1.waiting s1.freed
    let (o1, w') = drop_finished outputs w
    let (o2, g') = drop_finished o1 s1.on_gpu
    let (o3, x') = drop_finished o2 s1.swapped
    some (o3, record { waiting = w'; on_gpu = g'; swapped = x'; freed = st })

  -- Whether the group can run besides those that are chosen.
  unfoldable pub fits_prompt : SchedulerOutputs → ℕ → SequenceGroup → S → Option Bool
  fits_prompt outputs num_curr_seqs sg m = do
    seq ← only_seq sg
    can ← mem.can_allocate m sg
    some (
        can
        && leb (outputs.num_batched_tokens + get_len seq) c.max_num_batched_tokens
        && leb (num_curr_seqs + get_max_num_running_seqs sg) c.max_num_seqs)

  -- `_allocate` of the group, which then runs.
  unfoldable pub run_prompt :
      SchedulerOutputs → SequenceGroup → Freed S → Option (SchedulerOutputs × Freed S)
  run_prompt outputs sg st = do
    seq ← only_seq sg
    m ← mem.allocate st.memory sg
    (sg', st') ← set_phase mem running sg (record st { memory = m })
    some (
      record outputs {
        next_seq_groups = sg' ∷ outputs.next_seq_groups;
        num_batched_tokens = outputs.num_batched_tokens + get_len seq;
      },
      st',
    )

  unfoldable pub prompts_loop :
      SchedulerOutputs
      → ℕ
      → List SequenceGroup
      → Freed S
      → Option (SchedulerOutputs × List SequenceGroup × Freed S)
  prompts_loop outputs num_curr_seqs [] st = some (outputs, [], st)
  prompts_loop outputs num_curr_seqs (sg ∷ q) st =
      fits_prompt outputs num_curr_seqs sg st.memory >>= λ fits.
      if fits
      then (run_prompt outputs sg st >>= λ (outputs', st').
          prompts_loop outputs' (num_curr_seqs + get_max_num_running_seqs sg) q st')
      else some (outputs, sg ∷ q, st)

  unfoldable pub step_prompts :
      SchedulerOutputs → Scheduler S → Option (SchedulerOutputs × Scheduler S)
  step_prompts outputs s =
      prompts_loop outputs (max_num_running_seq s.on_gpu) (sort_by_priority s.waiting) s.freed
      >>= λ (outputs', w, st). some (outputs', record s { waiting = w; freed = st })

  unfoldable pub append_slots_to : List Sequence → S → Copies → Option (S × Copies)
  append_slots_to [] m copies = some (m, copies)
  append_slots_to (seq ∷ seqs) m copies =
      (if is_running seq.sched_phase then mem.append_slots m seq copies else some (m, copies))
      >>= λ (m', copies'). append_slots_to seqs m' copies'

  -- `_append_slots`.
  abbrev pub append_group :
      SequenceGroup → SchedulerOutputs → Freed S → Option (SchedulerOutputs × Freed S)
  append_group sg outputs st =
      append_slots_to sg.seqs st.memory outputs.blocks_to_copy >>= λ (m, copies).
      some (record outputs { blocks_to_copy = copies }, record st { memory = m })

  -- `_preempt`: a group of one sequence is computed again, any other is swapped out.
  unfoldable pub preempt :
      SequenceGroup → SchedulerOutputs → Scheduler S → Option (SchedulerOutputs × Scheduler S)
  preempt sg outputs s =
      if get_max_num_running_seqs sg == 1
      then (set_phase mem waiting sg s.freed >>= λ (sg', st).
          some (outputs, record s { waiting = sg' ∷ s.waiting; freed = st }))
      else (do
        can ← mem.can_swap_out s.freed.memory sg
        guard can
        (swaps, sg', m) ← mem.swap_out s.freed.memory sg
        some (
          record outputs { blocks_to_swap_out = extend outputs.blocks_to_swap_out swaps },
          record s {
            swapped = sg' ∷ s.swapped;
            freed = record { memory = m; freed_seq_ids = s.freed.freed_seq_ids };
          },
        ))
