-- ===== src/Scheduler/Examples.antt =====
-- A small scheduler on a memory that counts its free blocks.
use aici.Prelude.{
  ℕ, suc, length, Bool, ◌+◌, ◌-◌, ◌≤◌, ◌≡◌, refl, arith, ltb, false, none, some, List, [], ◌∷◌,
}
use aici.Prelude.Results.{panics}
use aici.Seq.{
  SchedulingPhase, SequenceGroup, waiting, running, finished, found_eos, trim_computed_kv,
}
use aici.Scheduler.{
  Memory, Config, SchedulerOutputs, no_outputs, Scheduler, move_seq, set_seq, set_seqs, set_phase,
  each_group, check_fuel, check_prompt,
}
use aici.Scheduler.Steps.{
  insert_by_arrival, sort_groups, sort_by_priority, validate, step_drop_finished, fits_prompt,
  run_prompt, prompts_loop, step_prompts, append_slots_to, preempt,
}
use aici.Scheduler.Generation.{make_room, generation_loop, step_generation, step_running, schedule}
use aici.Scheduler.Conserve.{queued, given, KeepsGroups}
use aici.Scheduler.Conserve.Schedule.{schedule-never_doubles, schedule-loses_none}
use aici.Scheduler.Budget.{groups_tokens, step_prompts-within_budget}
use aici.Scheduler.Order.{NoLater, step_prompts-first_come}
use aici.Scheduler.Fuel.{outer_round, generation_loop-Ends}
use aici.Scheduler.Fuel.Evict.{Ends, make_room_round}

abbrev counter : Memory ℕ
counter = record {
  can_allocate = λ m sg. some (ltb 1 m);
  allocate = λ m sg. some (m - 1);
  can_append_slot = λ m sg. some (ltb 0 m);
  append_slots = λ m seq copies. some (m - 1, copies);
  can_swap_in = λ m sg. some false;
  swap_in = λ m sg. none;
  can_swap_out = λ m sg. some false;
  swap_out = λ m sg. none;
  seq_mgr = record {
    new_sequence = λ m. (0, m);
    copy = λ m src dst n. some m;
    trim = λ m id n. some m;
    delete = λ m id. some m;
  };
}

abbrev config : Config
config = record { max_num_batched_tokens = 5; max_num_seqs = 4; max_model_len = 9; max_fuel = 100 }

abbrev group : ℕ → ℕ → List ℕ → SchedulingPhase → SequenceGroup
group id time tokens phase = record {
  request_id = id;
  seqs =
      record {
        seq_id = id;
        index = 0;
        tokens = tokens;
        prompt_len = 1;
        output_ptr = 1;
        output_pending = [];
        num_kv_computed = 0;
        has_aici = false;
        sched_phase = phase;
      }
      ∷ [];
  sampling_params = record {
    has_controller = false;
    aici_fuel = none;
    use_beam_search = false;
    best_of = 1;
  };
  arrival_time = time;
  usage = record { gen_tokens = 0; prompt_tokens = 1 };
}

abbrev three : List ℕ
three = 7 ∷ 7 ∷ 7 ∷ []

counter-KeepsGroups : KeepsGroups counter
counter-KeepsGroups = record { swap_in_keeps = λ m sg. panics; swap_out_keeps = λ m sg. panics }

-- Two groups run, with one free block; a third is finished.
abbrev busy : Scheduler ℕ
busy = record {
  waiting = [];
  on_gpu =
      group 2 20 three running
      ∷ group 3 5 three (finished found_eos)
      ∷ group 1 10 three running
      ∷ [];
  swapped = [];
  freed = record { memory = 1; freed_seq_ids = [] };
}

abbrev busy_outputs : SchedulerOutputs
busy_outputs = record {
  num_batched_tokens = 0;
  blocks_to_swap_in = [];
  blocks_to_swap_out = [];
  blocks_to_copy = [];
  next_seq_groups = group 1 10 three running ∷ [];
  dropped_seq_groups = group 3 5 three (finished found_eos) ∷ [];
}

abbrev busy_after : Scheduler ℕ
busy_after = record {
  waiting = group 2 20 three waiting ∷ [];
  on_gpu = [];
  swapped = [];
  freed = record { memory = 0; freed_seq_ids = [] };
}

schedule-busy : schedule counter config busy ≡ some (busy_outputs, busy_after)
unfolding schedule step_drop_finished each_group check_fuel check_prompt no_outputs step_prompts
    prompts_loop sort_by_priority sort_groups insert_by_arrival step_running step_generation
    generation_loop make_room preempt set_phase set_seqs set_seq move_seq append_slots_to validate
    trim_computed_kv
schedule-busy = refl

schedule-never_doubles_example : given 2 busy_outputs + queued 2 busy_after ≤ queued 2 busy
schedule-never_doubles_example =
    schedule-never_doubles 2 counter config counter-KeepsGroups busy busy_after busy_outputs
      schedule-busy

schedule-loses_none_example : given 2 busy_outputs + queued 2 busy_after ≡ queued 2 busy
schedule-loses_none_example =
    schedule-loses_none 2 counter config counter-KeepsGroups busy busy_after busy_outputs refl
      schedule-busy

-- Two prompts fit the memory, and the third does not.
abbrev prompts : Scheduler ℕ
prompts = record {
  waiting =
      group 2 20 (7 ∷ 7 ∷ []) waiting ∷ group 1 10 three waiting ∷ group 3 30 three waiting ∷ [];
  on_gpu = [];
  swapped = [];
  freed = record { memory = 9; freed_seq_ids = [] };
}

abbrev prompts_outputs : SchedulerOutputs
prompts_outputs = record {
  num_batched_tokens = 5;
  blocks_to_swap_in = [];
  blocks_to_swap_out = [];
  blocks_to_copy = [];
  next_seq_groups = group 2 20 (7 ∷ 7 ∷ []) running ∷ group 1 10 three running ∷ [];
  dropped_seq_groups = [];
}

abbrev prompts_after : Scheduler ℕ
prompts_after = record {
  waiting = group 3 30 three waiting ∷ [];
  on_gpu = [];
  swapped = [];
  freed = record { memory = 7; freed_seq_ids = [] };
}

step_prompts_example :
    step_prompts counter config no_outputs prompts ≡ some (prompts_outputs, prompts_after)
unfolding no_outputs step_prompts prompts_loop fits_prompt run_prompt sort_by_priority sort_groups
    insert_by_arrival set_phase set_seqs set_seq move_seq
step_prompts_example = refl

step_prompts-within_budget_example :
    (groups_tokens prompts_outputs.next_seq_groups ≡ 5)
    × (prompts_outputs.num_batched_tokens ≤ config.max_num_batched_tokens)
unfolding no_outputs
step_prompts-within_budget_example =
    step_prompts-within_budget counter config no_outputs prompts_outputs prompts prompts_after refl
      (omega arith) step_prompts_example

step_prompts-first_come_example : NoLater prompts_outputs.next_seq_groups prompts_after.waiting
unfolding no_outputs
step_prompts-first_come_example =
    step_prompts-first_come counter config no_outputs prompts_outputs prompts prompts_after refl
      step_prompts_example

generation_loop-Ends_example :
    Ends
      (outer_round counter config)
      (false, no_outputs, [], busy)
      (generation_loop counter config 4 false no_outputs [] busy)
    × ((sg : SequenceGroup) (d : Bool) (o : SchedulerOutputs) (s : Scheduler ℕ)
        → Ends
            (make_room_round counter config sg)
            (d, o, s)
            (make_room counter config (suc (length s.on_gpu)) sg d o s))
generation_loop-Ends_example =
    generation_loop-Ends counter config 4 false no_outputs [] busy (omega arith)
