-- ===== src/Scheduler/Conserve/Active.antt =====
-- When no group on the GPU is suspended, `step_generation` of rllm/rllm-base/src/scheduler.rs sets no
-- group aside.
use aici.Prelude.{
  ℕ, zero, suc, ◌≡◌, refl, ◌∙◌, ap, arith, ltb, Bool, true, not, ◌&&◌, Option, List, [], ◌∷◌, ◌++◌,
  length, if◌then◌else◌, Bool-cases, inl, inr,
}
use aici.Prelude.Results.{Ensures, panics, returns, Ensures-after, Ensures-bind, Ensures-if}
use mathlib.Core.List.{reverse, reverse-cons}
use aici.Seq.{
  Sequence, SequenceGroup, FinishReason, is_suspended, is_finished, is_finished_seq, all_seqs,
  finished, aici_out_of_fuel, fuel_tokens,
}
use aici.Scheduler.{
  Memory, Config, SchedulerOutputs, Freed, Scheduler, set_phase, set_seqs, set_seq, finish_seq,
  each_group, check_fuel, check_prompt, fuel_limit,
}
use aici.Scheduler.Steps.{
  keep_groups, insert_by_arrival, sort_groups, sort_by_priority, remove_front, append_group,
  all_groups, step_drop_finished,
}
use aici.Scheduler.Generation.{
  Room, Generation, evict, make_room, generation_round, generation_loop,
}
use aici.Scheduler.Conserve.{KeepsGroups}
use aici.Scheduler.Conserve.Steps.{preempt-keeps}

abbrev pub is_active : SequenceGroup → Bool
is_active sg = not (is_suspended sg)

module _ (p : SequenceGroup → Bool) where
  all_groups-append :
      (q t : List SequenceGroup) → all_groups p (q ++ t) ≡ (all_groups p q && all_groups p t)
  all_groups-append [] t = refl
  all_groups-append (sg ∷ q) t = ground (arith, all_groups-append q t)

  all_groups-insert_by_arrival :
      (sg : SequenceGroup) (q : List SequenceGroup)
      → all_groups p (insert_by_arrival sg q) ≡ (p sg && all_groups p q)
  unfolding insert_by_arrival
  all_groups-insert_by_arrival sg [] = refl
  all_groups-insert_by_arrival sg (x ∷ q) = elim (Bool-cases (ltb x.arrival_time sg.arrival_time)) [
    | inl before ↦ rw (before, all_groups-insert_by_arrival sg q) (ground arith)
    | inr after ↦ rw after
  ]

  all_groups-sort_groups : (q : List SequenceGroup) → all_groups p (sort_groups q) ≡ all_groups p q
  unfolding sort_groups
  all_groups-sort_groups [] = refl
  all_groups-sort_groups (sg ∷ q) =
      all_groups-insert_by_arrival sg (sort_groups q) ∙ rw (all_groups-sort_groups q) refl

  all_groups-reverse : (q : List SequenceGroup) → all_groups p (reverse q) ≡ all_groups p q
  all_groups-reverse [] = refl
  all_groups-reverse (sg ∷ q) =
      rw (reverse-cons sg q, all_groups-append (reverse q) (sg ∷ []), all_groups-reverse q)
        (ground arith)

  pub all_groups-sort_by_priority :
      (q : List SequenceGroup) → all_groups p (sort_by_priority q) ≡ all_groups p q
  unfolding sort_by_priority
  all_groups-sort_by_priority q = all_groups-sort_groups (reverse q) ∙ all_groups-reverse q

  all_groups-remove_front :
      (sg : SequenceGroup) (q : List SequenceGroup)
      → all_groups p (sg ∷ q) ≡ true
      → all_groups p (remove_front sg q).1 ≡ true
  all_groups-remove_front sg [] h = refl
  all_groups-remove_front sg (x ∷ q) h = ground (arith, all_groups-remove_front x q)

module _ {S : Type 0} (mem : Memory S) (c : Config) (k : KeepsGroups mem) where
  abbrev AllActive : Room S → Type 0
  AllActive x = all_groups is_active x.sched.on_gpu ≡ true

  evict-active :
      (next : SchedulerOutputs → Scheduler S → Option (Room S))
      → ((o : SchedulerOutputs) (s : Scheduler S)
          → all_groups is_active s.on_gpu ≡ true
          → Ensures AllActive (next o s))
      → (sg : SequenceGroup) (o : SchedulerOutputs) (s : Scheduler S) (q : List SequenceGroup)
      → s.on_gpu ≡ q
      → all_groups is_active q ≡ true
      → Ensures AllActive (evict mem c next sg o s q)
  evict-active next keeps sg o s [] e h =
      Ensures-bind (preempt-keeps 0 mem c k sg o s)
        λ x i. returns (ap (all_groups is_active) (i.1 ∙ e))
  evict-active next keeps sg o s (y ∷ q) e h =
      let s1 : Scheduler S = record s { on_gpu = (remove_front y q).1 } in
      Ensures-bind (preempt-keeps 0 mem c k (remove_front y q).0 o s1) λ x i.
        keeps x.0 x.1 (ap (all_groups is_active) i.1 ∙ all_groups-remove_front is_active y q h)

  make_room-active :
      (fuel : ℕ) (sg : SequenceGroup) (d : Bool) (o : SchedulerOutputs) (s : Scheduler S)
      → all_groups is_active s.on_gpu ≡ true
      → Ensures AllActive (make_room mem c fuel sg d o s)
  unfolding make_room
  make_room-active zero sg d o s h = panics
  make_room-active (suc fuel) sg d o s h =
      Ensures-after (mem.can_append_slot s.freed.memory sg) λ can.
        Ensures-if can (λ _. returns h)
          (λ _.
            evict-active (make_room mem c fuel sg true) (make_room-active fuel sg true) sg o s
              s.on_gpu refl h)

  generation_round-active :
      (next : Bool → SchedulerOutputs → List SequenceGroup → Scheduler S → Option (Generation S))
      → ((d : Bool) (o : SchedulerOutputs) (aside : List SequenceGroup) (s : Scheduler S)
          → all_groups is_active s.on_gpu ≡ true
          → Ensures (λ g. g.set_aside ≡ aside) (next d o aside s))
      → (d : Bool) (o : SchedulerOutputs) (aside : List SequenceGroup) (s : Scheduler S)
      → (q : List SequenceGroup) → all_groups is_active q ≡ true
      → Ensures (λ g. g.set_aside ≡ aside) (generation_round mem c next d o aside s q)
  generation_round-active next keeps d o aside s [] h = returns refl
  generation_round-active next keeps d o aside s (sg ∷ q) h =
      let s1 : Scheduler S = record s { on_gpu = q } in
      Ensures-if (is_suspended sg) (λ e. absurd (ground arith))
        (λ _. Ensures-bind (make_room-active (suc (length q)) sg d o s1 (ground arith)) λ x i.
          Ensures-if x.stopped (λ _. returns refl)
            (λ _.
              Ensures-after (append_group mem c sg x.outputs x.sched.freed) λ y. keeps _ _ _ _ i))

  pub generation_loop-active :
      (fuel : ℕ) (d : Bool) (o : SchedulerOutputs) (aside : List SequenceGroup) (s : Scheduler S)
      → all_groups is_active s.on_gpu ≡ true
      → Ensures (λ g. g.set_aside ≡ aside) (generation_loop mem c fuel d o aside s)
  unfolding generation_loop
  generation_loop-active zero d o aside s h = panics
  generation_loop-active (suc fuel) d o aside s h =
      generation_round-active (generation_loop mem c fuel) (generation_loop-active fuel) d o aside s
        s.on_gpu h

module _ {S : Type 0} (mem : Memory S) (c : Config) where
  -- A finished group is dropped, and any other is active.
  abbrev pub is_settled : SequenceGroup → Bool
  is_settled sg = if is_finished sg then true else is_active sg

  finish_seqs-finished :
      (reason : FinishReason) (seqs : List Sequence) (st : Freed S)
      → Ensures (λ x. all_seqs is_finished_seq x.0 ≡ true) (set_seqs mem (finished reason) seqs st)
  unfolding set_seqs set_seq finish_seq
  finish_seqs-finished reason [] st = returns refl
  finish_seqs-finished reason (seq ∷ seqs) st =
      Ensures-bind {P = λ x. is_finished_seq x.0 ≡ true}
        (Ensures-if (is_finished_seq seq) (λ e. returns e)
          (λ _. Ensures-after (mem.seq_mgr.delete st.memory seq.seq_id) λ m. returns refl))
        λ x h.
          Ensures-bind (finish_seqs-finished reason seqs x.1) λ y i. returns (ground (arith, h, i))

  check_fuel-settled :
      (sg : SequenceGroup) (st : Freed S)
      → is_settled sg ≡ true
      → Ensures (λ x. is_settled x.0 ≡ true) (check_fuel mem c sg st)
  unfolding check_fuel set_phase
  check_fuel-settled sg st h =
      Ensures-if
        (sg.sampling_params.has_controller
          && ltb (fuel_limit mem c sg.sampling_params.aici_fuel) (fuel_tokens sg.usage))
        (λ _.
          Ensures-bind (finish_seqs-finished aici_out_of_fuel sg.seqs st)
            λ x i. returns (rw i refl))
        (λ _. returns h)

  each_group-settled :
      (q : List SequenceGroup) (st : Freed S)
      → all_groups is_settled q ≡ true
      → Ensures (λ x. all_groups is_settled x.0 ≡ true) (each_group mem (check_fuel mem c) q st)
  unfolding each_group
  each_group-settled [] st h = returns refl
  each_group-settled (sg ∷ q) st h = Ensures-bind (each_group-settled q st (ground arith)) λ x i.
      Ensures-bind (check_fuel-settled sg x.1 (ground arith)) λ y j. returns (ground (arith, i, j))

  active_of_settled :
      (q : List SequenceGroup)
      → all_groups is_settled q ≡ true
      → all_groups is_active (keep_groups (λ sg. not (is_finished sg)) q) ≡ true
  active_of_settled [] h = refl
  active_of_settled (sg ∷ q) h = elim (Bool-cases (is_finished sg)) [
    | inl done ↦ rw done (active_of_settled q (ground arith))
    | inr live ↦ rw live (ground (arith, active_of_settled q))
  ]

  pub step_drop_finished-active :
      (o : SchedulerOutputs) (s : Scheduler S)
      → all_groups is_settled s.on_gpu ≡ true
      → Ensures (λ x. all_groups is_active x.1.on_gpu ≡ true) (step_drop_finished mem c o s)
  unfolding step_drop_finished
  step_drop_finished-active o s h =
      Ensures-bind {P = λ s1. all_groups is_settled s1.on_gpu ≡ true}
        (Ensures-after (each_group mem (check_fuel mem c) s.waiting s.freed) λ w.
          Ensures-bind (each_group-settled s.on_gpu w.1 h)
            λ g i. Ensures-after (each_group mem (check_fuel mem c) s.swapped g.1) λ x. returns i)
        λ s1 i.
          Ensures-after (each_group mem (check_prompt mem c) s1.waiting s1.freed)
            λ w. returns (active_of_settled s1.on_gpu i)
