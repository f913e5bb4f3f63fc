-- ===== src/Scheduler/Fuel.antt =====
-- The loops of `step_generation` in rllm/rllm-base/src/scheduler.rs end: a round for each group on
-- the GPU, and one more, is enough.
pub mod Evict
use aici.Prelude.{
  ℕ, zero, suc, ◌≤◌, ◌<◌, ◌≡◌, refl, ap, ◌∙◌, arith, Bool, true, false, Option, none, some, ◌==◌,
  guard, List, [], ◌∷◌, length, if◌then◌else◌, ◌>>=◌,
}
use aici.Prelude.Results.{
  Ensures, panics, returns, Ensures-after, Ensures-bind, Ensures-if, Ensures-weaken,
}
use aici.Seq.{SequenceGroup, is_suspended, waiting, get_max_num_running_seqs}
use aici.Scheduler.{Memory, Config, SchedulerOutputs, Scheduler, Freed, set_phase}
use aici.Scheduler.Steps.{remove_front, append_group, preempt}
use aici.Scheduler.Generation.{
  Room, Generation, evict, make_room, choose, generation_round, generation_loop,
}
use aici.Scheduler.Fuel.Evict.{
  Ends, stops, goes_on, make_room_round, make_room-length, make_room-Ends,
}

module _ {S : Type 0} (mem : Memory S) (c : Config) where
  -- What a round of the loop of `step_generation` starts from.
  abbrev pub Start : Type 0
  Start = Bool × SchedulerOutputs × List SequenceGroup × Scheduler S

  -- A round of the loop, before the rest of the loop.
  abbrev pub outer_round : (Start → Option (Generation S)) → Start → Option (Generation S)
  outer_round next (d, o, aside, s) =
      generation_round mem c (λ d' o' aside' s'. next (d', o', aside', s')) d o aside s s.on_gpu

  generation_round-Ends :
      (fuel : ℕ) (d : Bool) (o : SchedulerOutputs) (aside : List SequenceGroup) (s : Scheduler S)
      (q : List SequenceGroup)
      → ((next : Start → Option (Generation S))
          → outer_round next (d, o, aside, s)
            ≡ generation_round mem c (λ d' o' aside' s'. next (d', o', aside', s')) d o aside s q)
      → ((d' : Bool) (o' : SchedulerOutputs) (aside' : List SequenceGroup) (s' : Scheduler S)
          → length s'.on_gpu < length q
          → Ends outer_round (d', o', aside', s') (generation_loop mem c fuel d' o' aside' s'))
      → Ends outer_round
          (d, o, aside, s)
          (generation_round mem c (generation_loop mem c fuel) d o aside s q)
  generation_round-Ends fuel d o aside s [] step rest = stops step
  generation_round-Ends fuel d o aside s (sg ∷ q) step rest = by_suspended (is_suspended sg) refl
    where
      s1 : Scheduler S
      s1 = record s { on_gpu = q }

      by_slots :
          (r : Room S) (p : Option (SchedulerOutputs × Freed S))
          → length r.sched.on_gpu ≤ length q
          → append_group mem c sg r.outputs r.sched.freed ≡ p
          → ((next : Start → Option (Generation S))
              → outer_round next (d, o, aside, s) ≡ (
                  append_group mem c sg r.outputs r.sched.freed >>= λ (o', st). next (
                    r.did_preempt,
                    record o' { next_seq_groups = sg ∷ o'.next_seq_groups },
                    aside,
                    record r.sched { freed = st },
                  )))
          → Ends outer_round
              (d, o, aside, s)
              (p >>= λ (o', st).
                generation_loop mem c fuel r.did_preempt
                  (record o' { next_seq_groups = sg ∷ o'.next_seq_groups })
                  aside
                  (record r.sched { freed = st }))
      by_slots r none shorter e step' = stops (λ next. step' next ∙ rw e refl)
      by_slots r (some (o', st)) shorter e step' =
          goes_on _ (λ next. step' next ∙ rw e refl) (rest _ _ _ _ (omega (arith, shorter)))

      by_stopped :
          (b : Bool) (r : Room S)
          → r.stopped ≡ b
          → length r.sched.on_gpu ≤ length q
          → ((next : Start → Option (Generation S))
              → outer_round next (d, o, aside, s)
                ≡ choose mem c (λ d' o' aside' s'. next (d', o', aside', s')) sg aside r)
          → Ends outer_round (d, o, aside, s) (choose mem c (generation_loop mem c fuel) sg aside r)
      by_stopped true r e shorter step' = stops (λ next. step' next ∙ rw e refl)
      by_stopped false r e shorter step' = rw e (
          by_slots r (append_group mem c sg r.outputs r.sched.freed) shorter refl
            λ next. step' next ∙ rw e refl)

      by_room :
          (p : Option (Room S))
          → make_room mem c (suc (length q)) sg d o s1 ≡ p
          → Ensures (λ x. length x.sched.on_gpu ≤ length q) p
          → ((next : Start → Option (Generation S))
              → outer_round next (d, o, aside, s) ≡ (
                  make_room mem c (suc (length q)) sg d o s1 >>= λ r.
                  choose mem c (λ d' o' aside' s'. next (d', o', aside', s')) sg aside r))
          → Ends outer_round
              (d, o, aside, s)
              (p >>= λ r. choose mem c (generation_loop mem c fuel) sg aside r)
      by_room none e h step' = stops (λ next. step' next ∙ rw e refl)
      by_room (some r) e (returns shorter) step' =
          by_stopped r.stopped r refl shorter λ next. step' next ∙ rw e refl

      by_suspended :
          (b : Bool)
          → is_suspended sg ≡ b
          → Ends outer_round
              (d, o, aside, s)
              (if b
                then generation_loop mem c fuel d o (sg ∷ aside) s1
                else (make_room mem c (suc (length q)) sg d o s1 >>= λ r.
                    choose mem c (generation_loop mem c fuel) sg aside r))
      by_suspended true e =
          goes_on (d, o, sg ∷ aside, s1) (λ next. step next ∙ rw e refl)
            (rest d o (sg ∷ aside) s1 (omega arith))
      by_suspended false e =
          by_room (make_room mem c (suc (length q)) sg d o s1) refl
            (make_room-length mem c (suc (length q)) sg d o s1) λ next. step next ∙ rw e refl

  outer_loop-Ends :
      (fuel : ℕ) (d : Bool) (o : SchedulerOutputs) (aside : List SequenceGroup) (s : Scheduler S)
      → length s.on_gpu < fuel
      → Ends outer_round (d, o, aside, s) (generation_loop mem c fuel d o aside s)
  unfolding generation_loop
  outer_loop-Ends zero d o aside s h = absurd (omega (arith, h))
  outer_loop-Ends (suc fuel) d o aside s h =
      generation_round-Ends fuel d o aside s s.on_gpu (λ next. refl)
        λ d' o' aside' s' shorter. outer_loop-Ends fuel d' o' aside' s' (omega (arith, shorter, h))

  -- With more rounds than groups on the GPU, the loop of `step_generation` comes to an end with
  -- the result of `generation_loop`: a number of rounds each hand over to the next one, and the
  -- last one returns or panics without the rest of the loop. In this sense the inner loop too,
  -- which preempts groups until there is room, comes to an end with the result of `make_room`,
  -- with one more round than groups on the GPU, as a round of the outer loop calls it.
  pub generation_loop-Ends :
      (fuel : ℕ) (d : Bool) (o : SchedulerOutputs) (aside : List SequenceGroup) (s : Scheduler S)
      → length s.on_gpu < fuel
      → Ends outer_round (d, o, aside, s) (generation_loop mem c fuel d o aside s)
        × ((sg : SequenceGroup) (d' : Bool) (o' : SchedulerOutputs) (s' : Scheduler S)
            → Ends
                (make_room_round mem c sg)
                (d', o', s')
                (make_room mem c (suc (length s'.on_gpu)) sg d' o' s'))
  generation_loop-Ends fuel d o aside s h = (
    outer_loop-Ends fuel d o aside s h,
    λ sg d' o' s'. make_room-Ends mem c (suc (length s'.on_gpu)) sg d' o' s' (omega arith),
  )
