-- ===== src/Scheduler/Conserve/Schedule.antt =====
-- `schedule` of rllm/rllm-base/src/scheduler.rs gives out the groups of its queues once each.
use aici.Prelude.{
  ℕ, suc, ◌+◌, ◌≤◌, ◌≡◌, refl, ◌∙◌, ap, arith, true, false, not, ◌&&◌, leb, some, List, [], ◌∷◌,
  length, guard, Bool-cases, inl, inr,
}
use aici.Prelude.Results.{
  Ensures, returns, Ensures-after, Ensures-bind, Ensures-if, Ensures-weaken, Ensures-both,
  Ensures-given, Ensures-some,
}
use aici.Seq.{SequenceGroup, is_finished, get_max_num_running_seqs}
use aici.Scheduler.{Memory, Config, SchedulerOutputs, no_outputs, Freed, Scheduler}
use aici.Scheduler.Steps.{
  sort_by_priority, extend, step_drop_finished, step_prompts, prompts_loop, validate, is_nil,
  all_groups, max_num_running_seq,
}
use aici.Scheduler.Generation.{
  Generation, generation_loop, put_back, step_generation, swap_in_loop, step_swap_in, step_running,
  schedule,
}
use aici.Scheduler.Conserve.{
  one_copy, copies, queued, given, copies-append, copies-sort_by_priority, KeepsGroups,
}
use aici.Scheduler.Conserve.Steps.{step_drop_finished-keeps, step_prompts-keeps, append_group-keeps}
use aici.Scheduler.Conserve.Active.{
  is_active, all_groups-sort_by_priority, generation_loop-active, is_settled,
  step_drop_finished-active,
}
use aici.Scheduler.Conserve.Generation.{Gathers, generation_loop-keeps}

-- Never more than before, and as many as before under the condition.
abbrev Keeps : Type 0 → ℕ → ℕ → Type 0
Keeps H n m = (m ≤ n) × (H → m ≡ n)

validate-same : (o : SchedulerOutputs) → Ensures (λ o'. o' ≡ o) (validate o)
unfolding validate
validate-same o = Ensures-after (guard (is_nil o.blocks_to_swap_in)) λ _.
    Ensures-after (guard (is_nil o.blocks_to_swap_out)) λ _.
      Ensures-after (guard (all_groups is_finished o.dropped_seq_groups)) λ _.
        Ensures-after (guard (all_groups (λ sg. not (is_finished sg)) o.next_seq_groups))
          λ _. returns refl

step_prompts-on_gpu :
    {S : Type 0} (mem : Memory S) (c : Config) (o : SchedulerOutputs) (s : Scheduler S)
    → Ensures (λ x. x.1.on_gpu ≡ s.on_gpu) (step_prompts mem c o s)
unfolding step_prompts
step_prompts-on_gpu mem c o s =
    Ensures-after
      (prompts_loop mem c o (max_num_running_seq s.on_gpu) (sort_by_priority s.waiting) s.freed)
      λ x. returns refl

module _ (r : ℕ) {S : Type 0} (mem : Memory S) (c : Config) (k : KeepsGroups mem) where
  put_back-Keeps :
      {H : Type 0} (g : Generation S) (n : ℕ)
      → Gathers r mem c k n g
      → (H → g.set_aside ≡ [])
      → Keeps H n (given r (put_back mem c g).1 + queued r (put_back mem c g).2)
  put_back-Keeps g n h none_aside = elim (Bool-cases g.room.stopped) [
    | inl stopped ↦
        rw stopped (omega (arith, h), λ a. omega (arith, h, ap (copies r) (none_aside a)))
    | inr not_stopped ↦ rw not_stopped (
      omega (arith, h, copies-append r g.set_aside g.room.sched.on_gpu),
      λ a. omega (arith, h, copies-append r g.set_aside g.room.sched.on_gpu),
    )
  ]

  step_generation-Keeps :
      (o : SchedulerOutputs) (s : Scheduler S)
      → Ensures
          (λ x.
            Keeps
              (all_groups is_active s.on_gpu ≡ true)
              (given r o + queued r s)
              (given r x.1 + queued r x.2))
          (step_generation mem c o s)
  unfolding step_generation
  step_generation-Keeps o s =
      let s1 : Scheduler S = record s { on_gpu = sort_by_priority s.on_gpu } in
      Ensures-bind
        (Ensures-both (generation_loop-keeps r mem c k (suc (length s.on_gpu)) false o [] s1) (
          Ensures-given (generation_loop mem c (suc (length s.on_gpu)) false o [] s1) λ active.
            generation_loop-active mem c k (suc (length s.on_gpu)) false o [] s1
              (all_groups-sort_by_priority is_active s.on_gpu ∙ active)))
        λ g h.
          returns (put_back-Keeps g _ (h.0 ∙ omega (arith, copies-sort_by_priority r s.on_gpu)) h.1)

  swap_in_loop-keeps :
      (n : ℕ) (q on_gpu : List SequenceGroup) (o : SchedulerOutputs) (st : Freed S)
      → Ensures
          (λ x.
            given r x.2 + (copies r x.0 + copies r x.1)
            ≡ given r o + (copies r q + copies r on_gpu))
          (swap_in_loop mem c n q on_gpu o st)
  unfolding swap_in_loop
  swap_in_loop-keeps n [] on_gpu o st = returns refl
  swap_in_loop-keeps n (sg ∷ q) on_gpu o st = Ensures-after (mem.can_swap_in st.memory sg) λ can.
      Ensures-if (can && leb (n + get_max_num_running_seqs sg) c.max_num_seqs)
        (λ _. Ensures-bind (k.swap_in_keeps st.memory sg) λ x i.
          Ensures-bind
            (append_group-keeps r mem c x.1
              (record o { blocks_to_swap_in = extend o.blocks_to_swap_in x.0 })
              (record st { memory = x.2 }))
            λ y j.
              Ensures-weaken (λ z e. omega (arith, e, j, ap (one_copy r) i))
                (swap_in_loop-keeps (n + get_max_num_running_seqs sg) q (x.1 ∷ on_gpu) y.0 y.1))
        (λ _. returns refl)

  step_swap_in-keeps :
      (o : SchedulerOutputs) (s : Scheduler S)
      → Ensures (λ x. given r x.0 + queued r x.1 ≡ given r o + queued r s) (step_swap_in mem c o s)
  unfolding step_swap_in
  step_swap_in-keeps o s =
      Ensures-bind
        (swap_in_loop-keeps (max_num_running_seq s.on_gpu) (sort_by_priority s.swapped) s.on_gpu o
          s.freed)
        λ x h. returns (omega (arith, h, copies-sort_by_priority r s.swapped))

  step_running-Keeps :
      (o : SchedulerOutputs) (s : Scheduler S)
      → Ensures
          (λ x.
            Keeps
              (all_groups is_active s.on_gpu ≡ true)
              (given r o + queued r s)
              (given r x.0 + queued r x.1))
          (step_running mem c o s)
  unfolding step_running
  step_running-Keeps o s = Ensures-bind (step_generation-Keeps o s) λ x h.
      Ensures-bind {P = λ y. given r y.0 + queued r y.1 ≡ given r x.1 + queued r x.2}
        (Ensures-if x.0 (λ _. returns refl) (λ _. step_swap_in-keeps x.1 x.2))
        λ y i. returns (omega (arith, h.0, i), λ a. i ∙ h.1 a)

  schedule-Keeps :
      (s : Scheduler S)
      → Ensures
          (λ x.
            Keeps
              (all_groups (is_settled mem c) s.on_gpu ≡ true)
              (queued r s)
              (given r x.0 + queued r x.1))
          (schedule mem c s)
  unfolding schedule no_outputs
  schedule-Keeps s =
      Ensures-bind
        (Ensures-both (step_drop_finished-keeps r mem c no_outputs s) (
          Ensures-given (step_drop_finished mem c no_outputs s)
            (step_drop_finished-active mem c no_outputs s)))
        λ x h.
          Ensures-bind
            {P = λ y. (given r y.0 + queued r y.1 ≡ queued r s) × (y.1.on_gpu ≡ x.1.on_gpu)}
            (Ensures-if (is_nil x.1.swapped)
              (λ _.
                Ensures-weaken (λ y i. (omega (arith, i.0, h.0), i.1))
                  (Ensures-both (step_prompts-keeps r mem c x.0 x.1)
                    (step_prompts-on_gpu mem c x.0 x.1)))
              (λ _. returns (omega (arith, h.0), refl)))
            λ y i.
              Ensures-bind
                {P = λ z.
                  Keeps (all_groups (is_settled mem c) s.on_gpu ≡ true) (queued r s)
                    (given r z.0 + queued r z.1)}
                (Ensures-if (is_nil y.0.next_seq_groups)
                  (λ _.
                    Ensures-weaken
                      (λ z j. (
                        omega (arith, j.0, i.0),
                        λ a. j.1 (ap (all_groups is_active) i.1 ∙ h.1 a) ∙ i.0,
                      ))
                      (step_running-Keeps y.0 y.1))
                  (λ _. returns (omega (arith, i.0), λ a. i.0)))
                λ z j. Ensures-bind (validate-same z.0) λ o4 same. returns (rw same j)

  -- If the block manager gives back the group that it swaps, then after `schedule` returns,
  -- whatever the phases of the groups are, no request is more often among the groups that run
  -- next, the dropped ones and the three queues together than it was in the queues before.
  pub schedule-never_doubles :
      (s s' : Scheduler S) (o : SchedulerOutputs)
      → schedule mem c s ≡ some (o, s')
      → given r o + queued r s' ≤ queued r s
  schedule-never_doubles s s' o e = (Ensures-some (schedule-Keeps s) e).0

  -- If the block manager gives back the group that it swaps, and every group on the GPU is
  -- finished or not suspended, then after `schedule` returns each request is as often among the
  -- groups that run next, the dropped ones and the three queues together as it was in the queues
  -- before.
  pub schedule-loses_none :
      (s s' : Scheduler S) (o : SchedulerOutputs)
      → all_groups (is_settled mem c) s.on_gpu ≡ true
      → schedule mem c s ≡ some (o, s')
      → given r o + queued r s' ≡ queued r s
  schedule-loses_none s s' o settled e = (Ensures-some (schedule-Keeps s) e).1 settled
