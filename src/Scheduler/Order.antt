-- ===== src/Scheduler/Order.antt =====
-- `sort_by_priority` and the order in which `step_prompts` takes the groups, in
-- rllm/rllm-base/src/scheduler.rs.
use aici.Prelude.{ℕ, ◌+◌, ◌≤◌, ◌≡◌, refl, arith, ltb, some, List, [], ◌∷◌, Bool-cases, inl, inr}
use mathlib.Core.List.{reverse}
use aici.Prelude.Results.{Ensures, returns, Ensures-after, Ensures-bind, Ensures-if, Ensures-some}
use aici.Seq.{SequenceGroup, running, only_seq, get_max_num_running_seqs}
use aici.Scheduler.{Memory, Config, SchedulerOutputs, Freed, Scheduler, set_phase, set_seqs}
use aici.Scheduler.Steps.{
  insert_by_arrival, sort_groups, sort_by_priority, max_num_running_seq, fits_prompt, run_prompt,
  prompts_loop, step_prompts,
}

-- Every group arrives at the time or later.
abbrev pub NotBefore : ℕ → List SequenceGroup → Type 0
NotBefore t [] = Unit
NotBefore t (sg ∷ q) = (t ≤ sg.arrival_time) × NotBefore t q

-- The first to arrive is at the head.
abbrev pub InOrder : List SequenceGroup → Type 0
InOrder [] = Unit
InOrder (sg ∷ q) = NotBefore sg.arrival_time q × InOrder q

-- Every group of the first list arrives no later than those of the second.
abbrev pub NoLater : List SequenceGroup → List SequenceGroup → Type 0
NoLater [] w = Unit
NoLater (sg ∷ q) w = NotBefore sg.arrival_time w × NoLater q w

NotBefore-weaken : (t u : ℕ) (q : List SequenceGroup) → t ≤ u → NotBefore u q → NotBefore t q
NotBefore-weaken t u [] h a = tt
NotBefore-weaken t u (sg ∷ q) h a = (omega (arith, h, a.0), NotBefore-weaken t u q h a.1)

NotBefore-insert_by_arrival :
    (t : ℕ) (sg : SequenceGroup) (q : List SequenceGroup)
    → t ≤ sg.arrival_time
    → NotBefore t q
    → NotBefore t (insert_by_arrival sg q)
unfolding insert_by_arrival
NotBefore-insert_by_arrival t sg [] h a = (h, tt)
NotBefore-insert_by_arrival t sg (x ∷ q) h a =
    elim (Bool-cases (ltb x.arrival_time sg.arrival_time)) [
      | inl before ↦ rw before (a.0, NotBefore-insert_by_arrival t sg q h a.1)
      | inr after ↦ rw after (h, a)
    ]

InOrder-insert_by_arrival :
    (sg : SequenceGroup) (q : List SequenceGroup) → InOrder q → InOrder (insert_by_arrival sg q)
unfolding insert_by_arrival
InOrder-insert_by_arrival sg [] a = (tt, tt)
InOrder-insert_by_arrival sg (x ∷ q) a = elim (Bool-cases (ltb x.arrival_time sg.arrival_time)) [
  | inl before ↦ rw before (
    NotBefore-insert_by_arrival x.arrival_time sg q (ground (arith, before)) a.0,
    InOrder-insert_by_arrival sg q a.1,
  )
  | inr after ↦
      let first : sg.arrival_time ≤ x.arrival_time = ground (arith, after) in
      rw after ((first, NotBefore-weaken sg.arrival_time x.arrival_time q first a.0), a)
]

sort_groups-InOrder : (q : List SequenceGroup) → InOrder (sort_groups q)
unfolding sort_groups
sort_groups-InOrder [] = tt
sort_groups-InOrder (sg ∷ q) = InOrder-insert_by_arrival sg (sort_groups q) (sort_groups-InOrder q)

pub sort_by_priority-InOrder : (q : List SequenceGroup) → InOrder (sort_by_priority q)
unfolding sort_by_priority
sort_by_priority-InOrder q = sort_groups-InOrder (reverse q)

NoLater-rest :
    (p : List SequenceGroup) (sg : SequenceGroup) (q : List SequenceGroup)
    → NoLater p (sg ∷ q)
    → NoLater p q
NoLater-rest [] sg q a = tt
NoLater-rest (x ∷ p) sg q a = (a.0.1, NoLater-rest p sg q a.1)

module _ {S : Type 0} (mem : Memory S) (c : Config) where
  run_prompt-NoLater :
      (o : SchedulerOutputs) (sg : SequenceGroup) (q : List SequenceGroup) (st : Freed S)
      → NotBefore sg.arrival_time q
      → NoLater o.next_seq_groups q
      → Ensures (λ x. NoLater x.0.next_seq_groups q) (run_prompt mem c o sg st)
  unfolding run_prompt set_phase
  run_prompt-NoLater o sg q st first a = Ensures-after (only_seq sg) λ seq.
      Ensures-after (mem.allocate st.memory sg) λ m.
        Ensures-bind {P = λ x. x.0.arrival_time ≡ sg.arrival_time}
          (Ensures-after (set_seqs mem running sg.seqs (record st { memory = m }))
            λ x. returns refl)
          λ x same. returns (rw same first, a)

  prompts_loop-NoLater :
      (o : SchedulerOutputs) (n : ℕ) (q : List SequenceGroup) (st : Freed S)
      → InOrder q
      → NoLater o.next_seq_groups q
      → Ensures (λ x. NoLater x.0.next_seq_groups x.1) (prompts_loop mem c o n q st)
  unfolding prompts_loop
  prompts_loop-NoLater o n [] st ordered a = returns a
  prompts_loop-NoLater o n (sg ∷ q) st ordered a =
      Ensures-after (fits_prompt mem c o n sg st.memory) λ fits.
        Ensures-if fits
          (λ _.
            Ensures-bind
              (run_prompt-NoLater o sg q st ordered.0 (NoLater-rest o.next_seq_groups sg q a))
              λ x a'. prompts_loop-NoLater x.0 (n + get_max_num_running_seqs sg) q x.1 ordered.1 a')
          (λ _. returns a)

  step_prompts-NoLater :
      (o : SchedulerOutputs) (s : Scheduler S)
      → o.next_seq_groups ≡ []
      → Ensures (λ x. NoLater x.0.next_seq_groups x.1.waiting) (step_prompts mem c o s)
  unfolding step_prompts
  step_prompts-NoLater o s empty =
      Ensures-bind
        (prompts_loop-NoLater o (max_num_running_seq s.on_gpu) (sort_by_priority s.waiting) s.freed
          (sort_by_priority-InOrder s.waiting) (rw empty tt))
        λ x a. returns a

  -- If no group is chosen yet, then when `step_prompts` returns every chosen group arrived no
  -- later than every group that is still waiting.
  pub step_prompts-first_come :
      (o o' : SchedulerOutputs) (s s' : Scheduler S)
      → o.next_seq_groups ≡ []
      → step_prompts mem c o s ≡ some (o', s')
      → NoLater o'.next_seq_groups s'.waiting
  step_prompts-first_come o o' s s' empty e = Ensures-some (step_prompts-NoLater o s empty) e
