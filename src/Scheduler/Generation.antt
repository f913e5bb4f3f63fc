-- ===== src/Scheduler/Generation.antt =====
-- `step_generation`, `step_swap_in`, `step_finished` and `schedule` of
-- rllm/rllm-base/src/scheduler.rs.
use aici.Prelude.{
  ℕ, zero, suc, ◌+◌, leb, Bool, true, false, ◌&&◌, Option, none, some, List, [], ◌∷◌, ◌++◌, length,
  ◌>>=◌, if◌then◌else◌, map,
}
use aici.Seq.{
  Sequence, SequenceGroup, running, is_suspended_phase, is_suspended, get_max_num_running_seqs,
}
use aici.Scheduler.{Memory, Config, SchedulerOutputs, no_outputs, Freed, Scheduler, set_seq_phase}
use aici.Scheduler.Steps.{
  sort_by_priority, max_num_running_seq, remove_front, batched_tokens, is_nil, validate, extend,
  step_drop_finished, step_prompts, append_group, preempt,
}

-- How the inner loop of `step_generation` ends: with room for the group, or with the return.
pub record Room (S : Type 0) : Type 0 where
  pub stopped : Bool
  pub did_preempt : Bool
  pub outputs : SchedulerOutputs
  pub sched : Scheduler S

-- How the outer loop ends, with the suspended groups that it has set aside.
pub record Generation (S : Type 0) : Type 0 where
  pub room : Room S
  pub set_aside : List SequenceGroup

module _ {S : Type 0} (mem : Memory S) (c : Config) where
  -- Another group of the queue is preempted, or this one when there is none.
  abbrev pub evict :
      (SchedulerOutputs → Scheduler S → Option (Room S))
      → SequenceGroup
      → SchedulerOutputs
      → Scheduler S
      → List SequenceGroup
      → Option (Room S)
  evict next sg outputs s [] = preempt mem c sg outputs s >>= λ (outputs', s').
      some (record { stopped = true; did_preempt = true; outputs = outputs'; sched = s' })
  evict next sg outputs s (x ∷ q) =
      preempt mem c (remove_front x q).0 outputs (record s { on_gpu = (remove_front x q).1 })
      >>= λ (outputs', s'). next outputs' s'

  unfoldable pub make_room :
      ℕ → SequenceGroup → Bool → SchedulerOutputs → Scheduler S → Option (Room S)
  make_room zero sg did_preempt outputs s = none
  make_room (suc fuel) sg did_preempt outputs s = mem.can_append_slot s.freed.memory sg >>= λ can.
      if can
      then some
          (record { stopped = false; did_preempt = did_preempt; outputs = outputs; sched = s })
      else evict (make_room fuel sg true) sg outputs s s.on_gpu

  -- The group gets its slots and is chosen.
  abbrev pub choose :
      (Bool → SchedulerOutputs → List SequenceGroup → Scheduler S → Option (Generation S))
      → SequenceGroup
      → List SequenceGroup
      → Room S
      → Option (Generation S)
  choose next sg aside r =
      if r.stopped
      then some (record { room = r; set_aside = aside })
      else (append_group mem c sg r.outputs r.sched.freed >>= λ (outputs', st).
          next r.did_preempt (record outputs' { next_seq_groups = sg ∷ outputs'.next_seq_groups })
            aside (record r.sched { freed = st }))

  abbrev pub generation_round :
      (Bool → SchedulerOutputs → List SequenceGroup → Scheduler S → Option (Generation S))
      → Bool
      → SchedulerOutputs
      → List SequenceGroup
      → Scheduler S
      → List SequenceGroup
      → Option (Generation S)
  generation_round next did_preempt outputs aside s [] = some (record {
    room = record { stopped = false; did_preempt = did_preempt; outputs = outputs; sched = s };
    set_aside = aside;
  })
  generation_round next did_preempt outputs aside s (sg ∷ q) =
      if is_suspended sg
      then next did_preempt outputs (sg ∷ aside) (record s { on_gpu = q })
      else (make_room (suc (length q)) sg did_preempt outputs (record s { on_gpu = q }) >>= λ r.
          choose next sg aside r)

  unfoldable pub generation_loop :
      ℕ → Bool → SchedulerOutputs → List SequenceGroup → Scheduler S → Option (Generation S)
  generation_loop zero did_preempt outputs aside s = none
  generation_loop (suc fuel) did_preempt outputs aside s =
      generation_round (generation_loop fuel) did_preempt outputs aside s s.on_gpu

  -- On the early return the suspended groups are not put back.
  abbrev pub put_back : Generation S → Bool × SchedulerOutputs × Scheduler S
  put_back g = (
    g.room.did_preempt,
    g.room.outputs,
    if g.room.stopped
        then g.room.sched
        else record g.room.sched { on_gpu = g.set_aside ++ g.room.sched.on_gpu },
  )

  -- Each round takes a group from the queue, so one more round than groups is enough.
  unfoldable pub step_generation :
      SchedulerOutputs → Scheduler S → Option (Bool × SchedulerOutputs × Scheduler S)
  step_generation outputs s =
      generation_loop (suc (length s.on_gpu)) false outputs []
        (record s { on_gpu = sort_by_priority s.on_gpu })
      >>= λ g. some (put_back g)

  -- The swapped groups from the back of the queue on, with the groups that come to the GPU.
  unfoldable pub swap_in_loop :
      ℕ
      → List SequenceGroup
      → List SequenceGroup
      → SchedulerOutputs
      → Freed S
      → Option (List SequenceGroup × List SequenceGroup × SchedulerOutputs × Freed S)
  swap_in_loop num_curr_seqs [] on_gpu outputs st = some ([], on_gpu, outputs, st)
  swap_in_loop num_curr_seqs (sg ∷ q) on_gpu outputs st = mem.can_swap_in st.memory sg >>= λ can.
      if can && leb (num_curr_seqs + get_max_num_running_seqs sg) c.max_num_seqs
      then (do
        (swaps, sg', m) ← mem.swap_in st.memory sg
        (outputs', st') ←
            append_group mem c sg'
              (record outputs { blocks_to_swap_in = extend outputs.blocks_to_swap_in swaps })
              (record st { memory = m })
        swap_in_loop (num_curr_seqs + get_max_num_running_seqs sg) q (sg' ∷ on_gpu) outputs' st')
      else some (sg ∷ q, on_gpu, outputs, st)

  unfoldable pub step_swap_in :
      SchedulerOutputs → Scheduler S → Option (SchedulerOutputs × Scheduler S)
  step_swap_in outputs s =
      swap_in_loop (max_num_running_seq s.on_gpu) (sort_by_priority s.swapped) s.on_gpu outputs
        s.freed
      >>= λ (x, g, outputs', st). some (outputs', record s { swapped = x; on_gpu = g; freed = st })

  -- What `schedule` does when no prompt was chosen.
  unfoldable pub step_running :
      SchedulerOutputs → Scheduler S → Option (SchedulerOutputs × Scheduler S)
  step_running outputs s = do
    (did_preempt, o1, s1) ← step_generation outputs s
    (o2, s2) ← (if did_preempt then some (o1, s1) else step_swap_in o1 s1)
    some (record o2 { num_batched_tokens = batched_tokens s2.on_gpu }, s2)

  unfoldable pub schedule : Scheduler S → Option (SchedulerOutputs × Scheduler S)
  schedule s = do
    (o1, s1) ← step_drop_finished mem c no_outputs s
    (o2, s2) ← (if is_nil s1.swapped then step_prompts mem c o1 s1 else some (o1, s1))
    (o3, s3) ← (if is_nil o2.next_seq_groups then step_running o2 s2 else some (o2, s2))
    o4 ← validate o3
    some (o4, s3)

abbrev pub resume_seq : Sequence → Sequence
resume_seq seq = if is_suspended_phase seq.sched_phase then set_seq_phase seq running else seq

abbrev pub resume : SequenceGroup → SequenceGroup
resume sg = record sg { seqs = map resume_seq sg.seqs }

-- `step_finished`: the chosen groups are on the GPU, and no sequence stays suspended.
unfoldable pub step_finished : {S : Type 0} → SchedulerOutputs → Scheduler S → Scheduler S
step_finished outputs s = record s {
  waiting = map resume s.waiting;
  on_gpu = map resume (outputs.next_seq_groups ++ s.on_gpu);
  swapped = map resume s.swapped;
}
