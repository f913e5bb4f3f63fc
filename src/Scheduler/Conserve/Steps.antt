-- ===== src/Scheduler/Conserve/Steps.antt =====
-- The steps that drop groups, choose prompts and preempt, in rllm/rllm-base/src/scheduler.rs.
use aici.Prelude.{ℕ, ◌+◌, ◌≡◌, refl, ap, arith, ◌==◌, ◌&&◌, ltb, List, [], ◌∷◌, guard}
use aici.Prelude.Results.{Ensures, returns, Ensures-after, Ensures-bind, Ensures-if, Ensures-weaken}
use aici.Seq.{
  SequenceGroup, is_finished, finished, failed, aici_out_of_fuel, running, waiting, only_seq,
  get_max_num_running_seqs, get_len, fuel_tokens,
}
use aici.Scheduler.{
  Memory, Config, SchedulerOutputs, Freed, Scheduler, check_fuel, check_prompt, fuel_limit,
  prompt_limit,
}
use aici.Scheduler.Steps.{
  keep_groups, drop_finished, sort_by_priority, step_drop_finished, fits_prompt, run_prompt,
  prompts_loop, step_prompts, append_slots_to, append_group, preempt, max_num_running_seq,
}
use aici.Scheduler.Conserve.{
  one_copy, copies, queued, given, copies-append, copies-keep_groups, copies-sort_by_priority,
  KeepsGroups, set_phase-keeps, each_group-keeps, each_queue-keeps,
}

module _ (r : ℕ) where
  -- As often in the queue and among the dropped as before.
  given-drop_finished :
      (o : SchedulerOutputs) (q : List SequenceGroup)
      → given r (drop_finished o q).0 + copies r (drop_finished o q).1 ≡ given r o + copies r q
  given-drop_finished o q = omega (
    arith,
    copies-append r (keep_groups is_finished q) o.dropped_seq_groups,
    copies-keep_groups r is_finished q,
  )

  module _ {S : Type 0} (mem : Memory S) (c : Config) where
    check_fuel-keeps :
        (sg : SequenceGroup) (st : Freed S)
        → Ensures (λ x. x.0.request_id ≡ sg.request_id) (check_fuel mem c sg st)
    unfolding check_fuel
    check_fuel-keeps sg st =
        Ensures-if
          (sg.sampling_params.has_controller
            && ltb (fuel_limit mem c sg.sampling_params.aici_fuel) (fuel_tokens sg.usage))
          (λ _. set_phase-keeps mem (finished aici_out_of_fuel) sg st) (λ _. returns refl)

    check_prompt-keeps :
        (sg : SequenceGroup) (st : Freed S)
        → Ensures (λ x. x.0.request_id ≡ sg.request_id) (check_prompt mem c sg st)
    unfolding check_prompt
    check_prompt-keeps sg st = Ensures-after (only_seq sg) λ seq.
        Ensures-if (ltb (prompt_limit c) (get_len seq))
          (λ _. set_phase-keeps mem (finished failed) sg st) (λ _. returns refl)

    pub step_drop_finished-keeps :
        (o : SchedulerOutputs) (s : Scheduler S)
        → Ensures
            (λ x. given r x.0 + queued r x.1 ≡ given r o + queued r s)
            (step_drop_finished mem c o s)
    unfolding step_drop_finished
    step_drop_finished-keeps o s =
        Ensures-bind (each_queue-keeps mem (check_fuel mem c) check_fuel-keeps r s) λ s1 h1.
          Ensures-bind
            (each_group-keeps mem (check_prompt mem c) check_prompt-keeps r s1.waiting s1.freed)
            λ w hw.
              let o1 = drop_finished o w.0 in
              let o2 = drop_finished o1.0 s1.on_gpu in
              returns (
                omega (
                  arith,
                  h1,
                  hw,
                  given-drop_finished o w.0,
                  given-drop_finished o1.0 s1.on_gpu,
                  given-drop_finished o2.0 s1.swapped,
                ))

    run_prompt-keeps :
        (o : SchedulerOutputs) (sg : SequenceGroup) (st : Freed S)
        → Ensures
            (λ x. given r x.0 ≡ one_copy r sg.request_id + given r o)
            (run_prompt mem c o sg st)
    unfolding run_prompt
    run_prompt-keeps o sg st = Ensures-after (only_seq sg) λ seq.
        Ensures-after (mem.allocate st.memory sg) λ m.
          Ensures-bind (set_phase-keeps mem running sg (record st { memory = m }))
            λ x h. returns (omega (arith, ap (one_copy r) h))

    prompts_loop-keeps :
        (o : SchedulerOutputs) (n : ℕ) (q : List SequenceGroup) (st : Freed S)
        → Ensures
            (λ x. given r x.0 + copies r x.1 ≡ given r o + copies r q)
            (prompts_loop mem c o n q st)
    unfolding prompts_loop
    prompts_loop-keeps o n [] st = returns refl
    prompts_loop-keeps o n (sg ∷ q) st = Ensures-after (fits_prompt mem c o n sg st.memory) λ fits.
        Ensures-if fits
          (λ _. Ensures-bind (run_prompt-keeps o sg st) λ x h.
            Ensures-weaken (λ y e. omega (arith, e, h))
              (prompts_loop-keeps x.0 (n + get_max_num_running_seqs sg) q x.1))
          (λ _. returns refl)

    pub step_prompts-keeps :
        (o : SchedulerOutputs) (s : Scheduler S)
        → Ensures
            (λ x. given r x.0 + queued r x.1 ≡ given r o + queued r s)
            (step_prompts mem c o s)
    unfolding step_prompts
    step_prompts-keeps o s =
        let q = sort_by_priority s.waiting in
        Ensures-bind (prompts_loop-keeps o (max_num_running_seq s.on_gpu) q s.freed)
          λ x h. returns (omega (arith, h, copies-sort_by_priority r s.waiting))

    pub append_group-keeps :
        (sg : SequenceGroup) (o : SchedulerOutputs) (st : Freed S)
        → Ensures (λ x. given r x.0 ≡ given r o) (append_group mem c sg o st)
    append_group-keeps sg o st =
        Ensures-after (append_slots_to mem c sg.seqs st.memory o.blocks_to_copy) λ x. returns refl

    pub preempt-keeps :
        (k : KeepsGroups mem) (sg : SequenceGroup) (o : SchedulerOutputs) (s : Scheduler S)
        → Ensures
            (λ x.
              (given r x.0 ≡ given r o)
              × (x.1.on_gpu ≡ s.on_gpu)
              × (queued r x.1 ≡ one_copy r sg.request_id + queued r s))
            (preempt mem c sg o s)
    unfolding preempt
    preempt-keeps k sg o s =
        Ensures-if (get_max_num_running_seqs sg == 1)
          (λ _.
            Ensures-bind (set_phase-keeps mem waiting sg s.freed)
              λ x h. returns (refl, refl, omega (arith, ap (one_copy r) h)))
          (λ _. Ensures-after (mem.can_swap_out s.freed.memory sg) λ can.
            Ensures-after (guard can) λ _.
              Ensures-bind (k.swap_out_keeps s.freed.memory sg)
                λ x h. returns (refl, refl, omega (arith, ap (one_copy r) h)))
