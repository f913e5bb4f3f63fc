-- ===== src/Seq.antt =====
-- Sequences and groups of them: rllm/rllm-base/src/seq.rs. `none` is a panic. The memory of the
-- KV cache is the parameter of the operations that change it.
pub mod Splice
mod Examples
use aici.Prelude.{
  ℕ, zero, suc, ◌+◌, ◌-◌, ◌*◌, ◌%◌, ◌^◌, ◌==◌, ltb, leb, Bool, true, false, ◌&&◌, ◌||◌, Option,
  none, some, List, [], ◌∷◌, ◌++◌, min, length, take, ◌>>=◌, ◌>>◌, guard, if◌then◌else◌,
}

pub data FinishReason : Type 0 where
  found_eos max_tokens_reached aborted failed aici_stop deadlock aici_out_of_fuel : FinishReason

pub data SchedulingPhase : Type 0 where
  waiting : SchedulingPhase
  running : SchedulingPhase
  suspended : SchedulingPhase
  swapped : SchedulingPhase
  finished : FinishReason → SchedulingPhase

abbrev pub is_running : SchedulingPhase → Bool
is_running running = true
is_running waiting = false
is_running suspended = false
is_running swapped = false
is_running (finished r) = false

abbrev pub is_swapped : SchedulingPhase → Bool
is_swapped swapped = true
is_swapped waiting = false
is_swapped running = false
is_swapped suspended = false
is_swapped (finished r) = false

abbrev pub is_suspended_phase : SchedulingPhase → Bool
is_suspended_phase suspended = true
is_suspended_phase waiting = false
is_suspended_phase running = false
is_suspended_phase swapped = false
is_suspended_phase (finished r) = false

abbrev pub is_finished_phase : SchedulingPhase → Bool
is_finished_phase (finished r) = true
is_finished_phase waiting = false
is_finished_phase running = false
is_finished_phase suspended = false
is_finished_phase swapped = false

-- The fields that the scheduler and the operations below use.
pub record Sequence : Type 0 where
  pub seq_id : ℕ
  pub index : ℕ
  pub tokens : List ℕ
  pub prompt_len : ℕ
  pub output_ptr : ℕ
  pub output_pending : List ℕ
  pub num_kv_computed : ℕ
  pub has_aici : Bool
  pub sched_phase : SchedulingPhase

-- `TokenUsage`.
pub record TokenUsage : Type 0 where
  pub gen_tokens : ℕ
  pub prompt_tokens : ℕ

-- Of the sampling parameters: whether there is a controller, its fuel, and the beam search.
pub record SamplingParams : Type 0 where
  pub has_controller : Bool
  pub aici_fuel : Option ℕ
  pub use_beam_search : Bool
  pub best_of : ℕ

pub record SequenceGroup : Type 0 where
  pub request_id : ℕ
  pub seqs : List Sequence
  pub sampling_params : SamplingParams
  pub arrival_time : ℕ
  pub usage : TokenUsage

-- The trait `SequenceManager` of rllm/rllm-base/src/exec.rs, on the state of the memory.
pub record SequenceManager (S : Type 0) : Type 0 where
  pub new_sequence : S → ℕ × S
  pub copy : S → ℕ → ℕ → ℕ → Option S
  pub trim : S → ℕ → ℕ → Option S
  pub delete : S → ℕ → Option S

abbrev pub fuel_tokens : TokenUsage → ℕ
fuel_tokens u = 2 * u.gen_tokens + u.prompt_tokens

abbrev pub total_tokens : TokenUsage → ℕ
total_tokens u = u.gen_tokens + u.prompt_tokens

abbrev pub get_len : Sequence → ℕ
get_len seq = length seq.tokens

abbrev pub is_finished_seq : Sequence → Bool
is_finished_seq seq = is_finished_phase seq.sched_phase

abbrev pub finish_reason : SchedulingPhase → Option FinishReason
finish_reason (finished r) = some r
finish_reason waiting = none
finish_reason running = none
finish_reason suspended = none
finish_reason swapped = none

unfoldable pub new : ℕ → List ℕ → Sequence
new seq_id tokens = record {
  seq_id = seq_id;
  index = 0;
  tokens = tokens;
  prompt_len = length tokens;
  output_ptr = length tokens;
  output_pending = [];
  num_kv_computed = 0;
  has_aici = false;
  sched_phase = waiting;
}

unfoldable pub sync_computed_kv : Sequence → Sequence
sync_computed_kv seq = record seq { num_kv_computed = get_len seq }

abbrev pub append_tokens : Sequence → List ℕ → Sequence
append_tokens seq tokens = record seq { tokens = seq.tokens ++ tokens }

-- `a - b` of two `usize`, which a release build does not check.
unfoldable pub sub_usize : ℕ → ℕ → ℕ
sub_usize a b = (a + 2 ^ 64 - b) % 2 ^ 64

pub get_gen_len : Sequence → ℕ
unfolding sub_usize
get_gen_len seq = sub_usize (get_len seq) seq.prompt_len

-- The bytes of " ↩ ".
abbrev pub backtrack_mark : List ℕ
backtrack_mark = 32 ∷ 226 ∷ 134 ∷ 169 ∷ 32 ∷ []

module _ {S : Type 0} (mgr : SequenceManager S) where
  unfoldable pub trim_computed_kv : Sequence → ℕ → S → Option (Sequence × S)
  trim_computed_kv seq v m =
      if seq.num_kv_computed == v
      then some (seq, m)
      else (guard (ltb v seq.num_kv_computed) >> mgr.trim m seq.seq_id v >>= λ m'.
          some (record seq { num_kv_computed = v }, m'))

  abbrev pub clear_computed_kv : Sequence → S → Option (Sequence × S)
  clear_computed_kv seq m = trim_computed_kv seq 0 m

  abbrev pub trim_physical_blocks : Sequence → S → Option (Sequence × S)
  trim_physical_blocks seq m = trim_computed_kv seq (min seq.num_kv_computed (get_len seq)) m

  -- What `splice_tokens` does to the sequence itself when it goes back.
  unfoldable pub backtracked : Sequence → ℕ → Sequence
  unfolding sub_usize
  backtracked seq backtrack =
      let kept = take (sub_usize (get_len seq) backtrack) seq.tokens in
      record seq {
        tokens = kept;
        output_ptr = min seq.output_ptr (length kept);
        prompt_len = min seq.prompt_len (length kept);
        output_pending = backtrack_mark;
      }

  unfoldable pub splice_tokens : Sequence → ℕ → List ℕ → S → Option (Sequence × S)
  unfolding backtracked
  splice_tokens seq backtrack tokens m =
      if ltb 0 backtrack
      then (trim_physical_blocks (backtracked seq backtrack) m >>= λ (seq', m').
          some (append_tokens seq' tokens, m'))
      else some (append_tokens seq tokens, m)

  unfoldable pub fork_as : Sequence → ℕ → ℕ → S → Option (Sequence × S)
  fork_as seq seq_id index m = mgr.copy m seq.seq_id seq_id seq.num_kv_computed >>= λ m'. some (
    record seq { seq_id = seq_id; index = index; output_ptr = seq.prompt_len; output_pending = [] },
    m',
  )

-- The sequences of a group in the phase, or all.
abbrev pub num_seqs : (SchedulingPhase → Bool) → List Sequence → ℕ
num_seqs is_phase [] = 0
num_seqs is_phase (seq ∷ seqs) =
    (if is_phase seq.sched_phase then 1 else 0) + num_seqs is_phase seqs

abbrev pub get_max_num_running_seqs : SequenceGroup → ℕ
get_max_num_running_seqs sg =
    if sg.sampling_params.use_beam_search
    then sg.sampling_params.best_of
    else if ltb (length sg.seqs) sg.sampling_params.best_of
    then sg.sampling_params.best_of
    else num_seqs is_running sg.seqs

abbrev pub only_of : List Sequence → Option Sequence
only_of [] = none
only_of (seq ∷ []) = some seq
only_of (seq ∷ other ∷ seqs) = none

abbrev pub only_seq : SequenceGroup → Option Sequence
only_seq sg = only_of sg.seqs

abbrev pub all_seqs : (Sequence → Bool) → List Sequence → Bool
all_seqs p [] = true
all_seqs p (seq ∷ seqs) = p seq && all_seqs p seqs

abbrev pub is_finished : SequenceGroup → Bool
is_finished sg = all_seqs is_finished_seq sg.seqs

abbrev pub is_suspended : SequenceGroup → Bool
is_suspended sg =
    all_seqs (λ seq. is_suspended_phase seq.sched_phase || is_finished_seq seq) sg.seqs
