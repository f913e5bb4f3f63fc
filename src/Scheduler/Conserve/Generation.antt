-- ===== src/Scheduler/Conserve/Generation.antt =====
-- The steps that preempt, run and swap in groups, and `schedule`, in
-- rllm/rllm-base/src/scheduler.rs.
use aici.Prelude.{
  ℕ, zero, suc, ◌+◌, ◌≡◌, refl, ◌∙◌, ap, arith, Bool, true, Option, List, [], ◌∷◌, length,
  if◌then◌else◌,
}
use aici.Prelude.Results.{
  Ensures, panics, returns, Ensures-after, Ensures-bind, Ensures-if, Ensures-weaken,
}
use aici.Seq.{SequenceGroup, is_suspended}
use aici.Scheduler.{Memory, Config, SchedulerOutputs, Scheduler}
use aici.Scheduler.Steps.{remove_front}
use aici.Scheduler.Generation.{
  Room, Generation, evict, make_room, choose, generation_round, generation_loop,
}
use aici.Scheduler.Conserve.{one_copy, copies, queued, given, copies-remove_front, KeepsGroups}
use aici.Scheduler.Conserve.Steps.{append_group-keeps, preempt-keeps}

module _ (r : ℕ) {S : Type 0} (mem : Memory S) (c : Config) (k : KeepsGroups mem) where
  -- A group that finds no room is itself in a queue again.
  abbrev Roomy : SequenceGroup → SchedulerOutputs → Scheduler S → Room S → Type 0
  Roomy sg o s x =
      given r x.outputs + queued r x.sched
      ≡ (if x.stopped then one_copy r sg.request_id else 0) + (given r o + queued r s)

  evict-keeps :
      (next : SchedulerOutputs → Scheduler S → Option (Room S)) (sg : SequenceGroup)
      → ((o : SchedulerOutputs) (s : Scheduler S) → Ensures (Roomy sg o s) (next o s))
      → (o : SchedulerOutputs) (s : Scheduler S) (q : List SequenceGroup) → s.on_gpu ≡ q
      → Ensures (Roomy sg o s) (evict mem c next sg o s q)
  evict-keeps next sg keeps o s [] e =
      Ensures-bind (preempt-keeps r mem c k sg o s) λ x h. returns (omega (arith, h.0, h.2))
  evict-keeps next sg keeps o s (y ∷ q) e =
      let s1 : Scheduler S = record s { on_gpu = (remove_front y q).1 } in
      Ensures-bind (preempt-keeps r mem c k (remove_front y q).0 o s1) λ x h.
        Ensures-weaken
          (λ z i. omega (arith, i, h.0, h.2, copies-remove_front r y q, ap (copies r) e))
          (keeps x.0 x.1)

  make_room-keeps :
      (fuel : ℕ) (sg : SequenceGroup) (did_preempt : Bool) (o : SchedulerOutputs) (s : Scheduler S)
      → Ensures (Roomy sg o s) (make_room mem c fuel sg did_preempt o s)
  unfolding make_room
  make_room-keeps zero sg did_preempt o s = panics
  make_room-keeps (suc fuel) sg did_preempt o s =
      Ensures-after (mem.can_append_slot s.freed.memory sg) λ can.
        Ensures-if can (λ _. returns (omega arith))
          (λ _.
            evict-keeps (make_room mem c fuel sg true) sg (make_room-keeps fuel sg true) o s
              s.on_gpu refl)

  -- With the suspended groups, as many as before.
  abbrev pub Gathers : ℕ → Generation S → Type 0
  Gathers n g = given r g.room.outputs + queued r g.room.sched + copies r g.set_aside ≡ n

  choose-keeps :
      (next : Bool → SchedulerOutputs → List SequenceGroup → Scheduler S → Option (Generation S))
      (keeps : (d : Bool) (o : SchedulerOutputs) (aside : List SequenceGroup) (s : Scheduler S)
        → Ensures (Gathers (given r o + queued r s + copies r aside)) (next d o aside s))
      (sg : SequenceGroup) (aside : List SequenceGroup) (n : ℕ) (x : Room S)
      → given r x.outputs + queued r x.sched + copies r aside
        ≡ (if x.stopped then one_copy r sg.request_id else 0) + n
      → Ensures (Gathers (one_copy r sg.request_id + n)) (choose mem c next sg aside x)
  choose-keeps next keeps sg aside n x e =
      Ensures-if x.stopped (λ yes_stopped. returns (e ∙ rw yes_stopped refl))
        (λ not_stopped.
          let e' : given r x.outputs + queued r x.sched + copies r aside ≡ 0 + n =
            e ∙ rw not_stopped refl in
          Ensures-bind (append_group-keeps r mem c sg x.outputs x.sched.freed)
            λ y h. Ensures-weaken (λ g i. omega (arith, i, h, e')) (keeps _ _ _ _))

  generation_round-keeps :
      (next : Bool → SchedulerOutputs → List SequenceGroup → Scheduler S → Option (Generation S))
      (keeps : (d : Bool) (o : SchedulerOutputs) (aside : List SequenceGroup) (s : Scheduler S)
        → Ensures (Gathers (given r o + queued r s + copies r aside)) (next d o aside s))
      (d : Bool) (o : SchedulerOutputs) (aside : List SequenceGroup) (s : Scheduler S)
      (q : List SequenceGroup)
      → s.on_gpu ≡ q
      → Ensures
          (Gathers (given r o + queued r s + copies r aside))
          (generation_round mem c next d o aside s q)
  generation_round-keeps next keeps d o aside s [] e = returns refl
  generation_round-keeps next keeps d o aside s (sg ∷ q) e =
      let s1 : Scheduler S = record s { on_gpu = q } in
      let n = given r o + queued r s1 + copies r aside in
      let whole : one_copy r sg.request_id + n ≡ given r o + queued r s + copies r aside =
        omega (arith, ap (copies r) e) in
      Ensures-if (is_suspended sg)
        (λ _. Ensures-weaken (λ g i. omega (arith, i, whole)) (keeps d o (sg ∷ aside) s1))
        (λ _. Ensures-bind (make_room-keeps (suc (length q)) sg d o s1) λ x h.
          Ensures-weaken (λ g i. i ∙ whole)
            (choose-keeps next keeps sg aside n x (omega (arith, h))))

  pub generation_loop-keeps :
      (fuel : ℕ) (d : Bool) (o : SchedulerOutputs) (aside : List SequenceGroup) (s : Scheduler S)
      → Ensures
          (Gathers (given r o + queued r s + copies r aside))
          (generation_loop mem c fuel d o aside s)
  unfolding generation_loop
  generation_loop-keeps zero d o aside s = panics
  generation_loop-keeps (suc fuel) d o aside s =
      generation_round-keeps (generation_loop mem c fuel) (generation_loop-keeps fuel) d o aside s
        s.on_gpu refl
