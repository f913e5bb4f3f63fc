-- ===== src/Scheduler/Fuel/Evict.antt =====
-- The inner loop of `step_generation` in rllm/rllm-base/src/scheduler.rs, which preempts groups
-- until there is room for one, and what it means that a loop comes to an end.
use aici.Prelude.{
  ℕ, zero, suc, ◌≤◌, ◌<◌, ◌≡◌, refl, ap, ◌∙◌, arith, Bool, true, false, Option, none, some, ◌==◌,
  guard, List, [], ◌∷◌, length, if◌then◌else◌, ◌>>=◌,
}
use aici.Prelude.Results.{
  Ensures, panics, returns, Ensures-after, Ensures-bind, Ensures-if, Ensures-weaken,
}
use aici.Seq.{SequenceGroup, waiting, get_max_num_running_seqs}
use aici.Scheduler.{Memory, Config, SchedulerOutputs, Scheduler, set_phase}
use aici.Scheduler.Steps.{remove_front, preempt}
use aici.Scheduler.Generation.{Room, evict, make_room}

length-remove_front :
    (sg : SequenceGroup) (q : List SequenceGroup) → length (remove_front sg q).1 ≡ length q
length-remove_front sg [] = refl
length-remove_front sg (x ∷ q) = omega (arith, length-remove_front x q)

-- A loop whose body is `round`, given the rest of the loop, comes to an end with the result: a round
-- has it whatever the rest of the loop is, after finitely many that go on with the rest of the loop.
pub data Ends {A R : Type 0} (round : (A → R) → A → R) : A → R → Type 0 where
  stops : {a : A} {r : R} → ((next : A → R) → round next a ≡ r) → Ends round a r
  goes_on :
      {a : A} {r : R} (a' : A)
      → ((next : A → R) → round next a ≡ next a')
      → Ends round a' r
      → Ends round a r

module _ {S : Type 0} (mem : Memory S) (c : Config) where
  preempt-on_gpu :
      (sg : SequenceGroup) (o : SchedulerOutputs) (s : Scheduler S)
      → Ensures (λ x. x.1.on_gpu ≡ s.on_gpu) (preempt mem c sg o s)
  unfolding preempt
  preempt-on_gpu sg o s =
      Ensures-if (get_max_num_running_seqs sg == 1)
        (λ _. Ensures-after (set_phase mem waiting sg s.freed) λ x. returns refl)
        (λ _. Ensures-after (mem.can_swap_out s.freed.memory sg) λ can.
          Ensures-after (guard can)
            λ _. Ensures-after (mem.swap_out s.freed.memory sg) λ x. returns refl)

  evict-length :
      (next : SchedulerOutputs → Scheduler S → Option (Room S)) (sg : SequenceGroup)
      → ((o : SchedulerOutputs) (s : Scheduler S)
          → Ensures (λ x. length x.sched.on_gpu ≤ length s.on_gpu) (next o s))
      → (o : SchedulerOutputs) (s : Scheduler S) (q : List SequenceGroup) → s.on_gpu ≡ q
      → Ensures (λ x. length x.sched.on_gpu ≤ length q) (evict mem c next sg o s q)
  evict-length next sg shorter o s [] e =
      Ensures-bind (preempt-on_gpu sg o s) λ x h. returns (omega (arith, ap length h, ap length e))
  evict-length next sg shorter o s (y ∷ q) e =
      let s1 : Scheduler S = record s { on_gpu = (remove_front y q).1 } in
      Ensures-bind (preempt-on_gpu (remove_front y q).0 o s1) λ x h.
        Ensures-weaken (λ z i. omega (arith, i, ap length h, length-remove_front y q))
          (shorter x.0 x.1)

  pub make_room-length :
      (fuel : ℕ) (sg : SequenceGroup) (d : Bool) (o : SchedulerOutputs) (s : Scheduler S)
      → Ensures (λ x. length x.sched.on_gpu ≤ length s.on_gpu) (make_room mem c fuel sg d o s)
  unfolding make_room
  make_room-length zero sg d o s = panics
  make_room-length (suc fuel) sg d o s =
      Ensures-after (mem.can_append_slot s.freed.memory sg) λ can.
        Ensures-if can (λ _. returns (omega arith))
          (λ _.
            evict-length (make_room mem c fuel sg true) sg (make_room-length fuel sg true) o s
              s.on_gpu refl)

  -- A round of the inner loop, before the rest of the loop.
  abbrev pub make_room_round :
      SequenceGroup
      → (Bool × SchedulerOutputs × Scheduler S → Option (Room S))
      → Bool × SchedulerOutputs × Scheduler S
      → Option (Room S)
  make_room_round sg next (d, o, s) = mem.can_append_slot s.freed.memory sg >>= λ can.
      if can
      then some (record { stopped = false; did_preempt = d; outputs = o; sched = s })
      else evict mem c (λ o' s'. next (true, o', s')) sg o s s.on_gpu

  evict-Ends :
      (fuel : ℕ) (sg : SequenceGroup) (d : Bool) (o : SchedulerOutputs) (s : Scheduler S)
      (q : List SequenceGroup)
      → ((next : Bool × SchedulerOutputs × Scheduler S → Option (Room S))
          → make_room_round sg next (d, o, s) ≡ evict mem c (λ o' s'. next (true, o', s')) sg o s q)
      → ((o' : SchedulerOutputs) (s' : Scheduler S)
          → length s'.on_gpu < length q
          → Ends (make_room_round sg) (true, o', s') (make_room mem c fuel sg true o' s'))
      → Ends (make_room_round sg) (d, o, s) (evict mem c (make_room mem c fuel sg true) sg o s q)
  evict-Ends fuel sg d o s [] step rest = stops step
  evict-Ends fuel sg d o s (y ∷ q) step rest =
      let s1 : Scheduler S = record s { on_gpu = (remove_front y q).1 } in
      by_result (preempt mem c (remove_front y q).0 o s1) refl
        (preempt-on_gpu (remove_front y q).0 o s1)
    where
      by_result :
          (p : Option (SchedulerOutputs × Scheduler S))
          → preempt mem c (remove_front y q).0 o (record s { on_gpu = (remove_front y q).1 }) ≡ p
          → Ensures (λ x. x.1.on_gpu ≡ (remove_front y q).1) p
          → Ends
              (make_room_round sg)
              (d, o, s)
              (p >>= λ (o', s'). make_room mem c fuel sg true o' s')
      by_result none e h = stops (λ next. step next ∙ rw e refl)
      by_result (some (o', s')) e (returns h) =
          goes_on (true, o', s') (λ next. step next ∙ rw e refl)
            (rest o' s' (omega (arith, ap length h, length-remove_front y q)))

  -- The inner loop, which preempts groups until there is room.
  pub make_room-Ends :
      (fuel : ℕ) (sg : SequenceGroup) (d : Bool) (o : SchedulerOutputs) (s : Scheduler S)
      → length s.on_gpu < fuel
      → Ends (make_room_round sg) (d, o, s) (make_room mem c fuel sg d o s)
  unfolding make_room
  make_room-Ends zero sg d o s h = absurd (omega (arith, h))
  make_room-Ends (suc fuel) sg d o s h =
      by_can (mem.can_append_slot s.freed.memory sg) refl
        λ o' s' shorter. make_room-Ends fuel sg true o' s' (omega (arith, shorter, h))
    where
      by_can :
          (p : Option Bool)
          → mem.can_append_slot s.freed.memory sg ≡ p
          → ((o' : SchedulerOutputs) (s' : Scheduler S)
              → length s'.on_gpu < length s.on_gpu
              → Ends (make_room_round sg) (true, o', s') (make_room mem c fuel sg true o' s'))
          → Ends
              (make_room_round sg)
              (d, o, s)
              (p >>= λ can.
                if can
                then some (record { stopped = false; did_preempt = d; outputs = o; sched = s })
                else evict mem c (make_room mem c fuel sg true) sg o s s.on_gpu)
      by_can none e rest = stops (λ next. rw e refl)
      by_can (some true) e rest = stops (λ next. rw e refl)
      by_can (some false) e rest = evict-Ends fuel sg d o s s.on_gpu (λ next. rw e refl) rest
