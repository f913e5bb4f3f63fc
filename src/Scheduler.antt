-- ===== src/Scheduler.antt =====
-- The scheduler of rllm/rllm-base/src/scheduler.rs: three queues of sequence groups, and the steps
-- that choose the groups to run. The head of a list of groups is the back of its vector; `none` is a
-- panic.
pub mod Steps
pub mod Generation
pub mod Budget
pub mod Order
pub mod Fuel
pub mod Conserve
mod Examples
use aici.Prelude.{
  ℕ, zero, suc, ◌+◌, ◌-◌, ◌*◌, ◌==◌, ltb, leb, Bool, true, false, not, ◌&&◌, ◌||◌, Option, none,
  some, List, [], ◌∷◌, ◌++◌, min, length, ◌>>=◌, ◌>>◌, guard, if◌then◌else◌,
}
use aici.Seq.{
  SchedulingPhase, FinishReason, Sequence, SequenceGroup, SequenceManager, finished, waiting,
  running, suspended, swapped, aborted, failed, aici_out_of_fuel, is_running, is_suspended_phase,
  is_finished, is_finished_seq, is_suspended, is_finished_phase, get_len, fuel_tokens,
  clear_computed_kv, get_max_num_running_seqs, only_seq,
}

-- The map from source blocks to target blocks, and the copies by source block.
abbrev pub Swaps : Type 0
Swaps = List (ℕ × ℕ)

abbrev pub Copies : Type 0
Copies = List (ℕ × List ℕ)

-- The traits `TBlockSpaceManager` and `SequenceManager` of rllm/rllm-base/src/exec.rs, on one memory.
-- `allocate` and `append_slots` leave the group as it is.
pub record Memory (S : Type 0) : Type 0 where
  pub can_allocate : S → SequenceGroup → Option Bool
  pub allocate : S → SequenceGroup → Option S
  pub can_append_slot : S → SequenceGroup → Option Bool
  pub append_slots : S → Sequence → Copies → Option (S × Copies)
  pub can_swap_in : S → SequenceGroup → Option Bool
  pub swap_in : S → SequenceGroup → Option (Swaps × SequenceGroup × S)
  pub can_swap_out : S → SequenceGroup → Option Bool
  pub swap_out : S → SequenceGroup → Option (Swaps × SequenceGroup × S)
  pub seq_mgr : SequenceManager S

-- `SchedulerConfig` with the fuel of the controllers, and the `prompt_limit` of `Scheduler::new`.
pub record Config : Type 0 where
  pub max_num_batched_tokens : ℕ
  pub max_num_seqs : ℕ
  pub max_model_len : ℕ
  pub max_fuel : ℕ

abbrev pub prompt_limit : Config → ℕ
prompt_limit c = min c.max_model_len c.max_num_batched_tokens

pub record SchedulerOutputs : Type 0 where
  pub num_batched_tokens : ℕ
  pub blocks_to_swap_in : Swaps
  pub blocks_to_swap_out : Swaps
  pub blocks_to_copy : Copies
  pub next_seq_groups : List SequenceGroup
  pub dropped_seq_groups : List SequenceGroup

unfoldable pub no_outputs : SchedulerOutputs
no_outputs = record {
  num_batched_tokens = 0;
  blocks_to_swap_in = [];
  blocks_to_swap_out = [];
  blocks_to_copy = [];
  next_seq_groups = [];
  dropped_seq_groups = [];
}

-- The memory, and the ids that `get_freed_seq_ids` gives out, last one first.
pub record Freed (S : Type 0) : Type 0 where
  pub memory : S
  pub freed_seq_ids : List ℕ

pub record Scheduler (S : Type 0) : Type 0 where
  pub waiting : List SequenceGroup
  pub on_gpu : List SequenceGroup
  pub swapped : List SequenceGroup
  pub freed : Freed S

abbrev pub set_seq_phase : Sequence → SchedulingPhase → Sequence
set_seq_phase seq phase = record seq { sched_phase = phase }

abbrev pub is_waiting : SchedulingPhase → Bool
is_waiting waiting = true
is_waiting running = false
is_waiting suspended = false
is_waiting swapped = false
is_waiting (finished r) = false

module _ {S : Type 0} (mem : Memory S) where
  unfoldable pub finish_seq : FinishReason → Sequence → Freed S → Option (Sequence × Freed S)
  finish_seq reason seq st =
      if is_finished_seq seq
      then some (seq, st)
      else (mem.seq_mgr.delete st.memory seq.seq_id >>= λ m. some (
        set_seq_phase seq (finished reason),
        record { memory = m; freed_seq_ids = seq.seq_id ∷ st.freed_seq_ids },
      ))

  -- The other phases: the sequence must not be finished, and loses its KV entries when it waits.
  unfoldable pub move_seq : SchedulingPhase → Sequence → Freed S → Option (Sequence × Freed S)
  move_seq phase seq st =
      guard (not (is_finished_seq seq))
      >> (if is_waiting phase
          then (clear_computed_kv mem.seq_mgr (set_seq_phase seq phase) st.memory >>= λ (seq', m).
              some (seq', record st { memory = m }))
          else some (set_seq_phase seq phase, st))

  unfoldable pub set_seq : SchedulingPhase → Sequence → Freed S → Option (Sequence × Freed S)
  set_seq (finished reason) = finish_seq reason
  set_seq waiting = move_seq waiting
  set_seq running = move_seq running
  set_seq suspended = move_seq suspended
  set_seq swapped = move_seq swapped

  unfoldable pub set_seqs :
      SchedulingPhase → List Sequence → Freed S → Option (List Sequence × Freed S)
  set_seqs phase [] st = some ([], st)
  set_seqs phase (seq ∷ seqs) st = do
    (seq', st1) ← set_seq phase seq st
    (seqs', st2) ← set_seqs phase seqs st1
    some (seq' ∷ seqs', st2)

  unfoldable pub set_phase :
      SchedulingPhase → SequenceGroup → Freed S → Option (SequenceGroup × Freed S)
  set_phase phase sg st =
      set_seqs phase sg.seqs st >>= λ (seqs, st'). some (record sg { seqs = seqs }, st')

  -- `q.iter_mut().for_each(f)`, from the front of the vector on.
  unfoldable pub each_group :
      (SequenceGroup → Freed S → Option (SequenceGroup × Freed S))
      → List SequenceGroup
      → Freed S
      → Option (List SequenceGroup × Freed S)
  each_group f [] st = some ([], st)
  each_group f (sg ∷ q) st = do
    (q', st1) ← each_group f q st
    (sg', st2) ← f sg st1
    some (sg' ∷ q', st2)

  abbrev pub each_queue :
      (SequenceGroup → Freed S → Option (SequenceGroup × Freed S))
      → Scheduler S
      → Option (Scheduler S)
  each_queue f s = do
    (w, st1) ← each_group f s.waiting s.freed
    (g, st2) ← each_group f s.on_gpu st1
    (x, st3) ← each_group f s.swapped st2
    some (record { waiting = w; on_gpu = g; swapped = x; freed = st3 })

  abbrev pub abort_group : ℕ → SequenceGroup → Freed S → Option (SequenceGroup × Freed S)
  abort_group request_id sg st =
      if sg.request_id == request_id then set_phase (finished aborted) sg st else some (sg, st)

  unfoldable pub abort_seq_group : ℕ → Scheduler S → Option (Scheduler S)
  abort_seq_group request_id s = each_queue (abort_group request_id) s

  unfoldable pub add_seq_group : SequenceGroup → Scheduler S → Scheduler S
  add_seq_group sg s = record s { waiting = sg ∷ s.waiting }

  abbrev pub get_num_unfinished_seq_groups : Scheduler S → ℕ
  get_num_unfinished_seq_groups s = length s.waiting + length s.on_gpu + length s.swapped

  -- `aici_fuel.unwrap_or(usize::MAX)` above a bound that is itself a usize.
  abbrev pub fuel_limit : Config → Option ℕ → ℕ
  fuel_limit c none = c.max_fuel
  fuel_limit c (some fuel) = min fuel c.max_fuel

  unfoldable pub check_fuel : Config → SequenceGroup → Freed S → Option (SequenceGroup × Freed S)
  check_fuel c sg st =
      if sg.sampling_params.has_controller
        && ltb (fuel_limit c sg.sampling_params.aici_fuel) (fuel_tokens sg.usage)
      then set_phase (finished aici_out_of_fuel) sg st
      else some (sg, st)

  unfoldable pub check_prompt : Config → SequenceGroup → Freed S → Option (SequenceGroup × Freed S)
  check_prompt c sg st = only_seq sg >>= λ seq.
      if ltb (prompt_limit c) (get_len seq)
      then set_phase (finished failed) sg st
      else some (sg, st)
