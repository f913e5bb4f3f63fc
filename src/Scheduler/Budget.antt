-- ===== src/Scheduler/Budget.antt =====
-- The token budget of `step_prompts` in rllm/rllm-base/src/scheduler.rs.
use aici.Prelude.{ℕ, ◌+◌, ◌≤◌, ◌≡◌, refl, arith, true, not, some, List, [], ◌∷◌, guard}
use aici.Prelude.Results.{
  Ensures, panics, returns, Ensures-after, Ensures-bind, Ensures-if, Ensures-some,
}
use aici.Seq.{
  Sequence, SequenceGroup, running, is_finished_seq, only_of, get_len, get_max_num_running_seqs,
}
use aici.Scheduler.{
  Memory, Config, SchedulerOutputs, Freed, Scheduler, set_phase, set_seqs, set_seq, move_seq,
}
use aici.Scheduler.Steps.{
  sort_by_priority, max_num_running_seq, fits_prompt, run_prompt, prompts_loop, step_prompts,
}

abbrev pub seqs_tokens : List Sequence → ℕ
seqs_tokens [] = 0
seqs_tokens (seq ∷ seqs) = get_len seq + seqs_tokens seqs

-- The tokens of all sequences of the groups.
abbrev pub groups_tokens : List SequenceGroup → ℕ
groups_tokens [] = 0
groups_tokens (sg ∷ q) = seqs_tokens sg.seqs + groups_tokens q

only_of-tokens :
    (seqs : List Sequence) → Ensures (λ seq. seqs_tokens seqs ≡ get_len seq) (only_of seqs)
only_of-tokens [] = panics
only_of-tokens (seq ∷ []) = returns (omega arith)
only_of-tokens (seq ∷ other ∷ seqs) = panics

module _ {S : Type 0} (mem : Memory S) where
  run_seqs-tokens :
      (seqs : List Sequence) (st : Freed S)
      → Ensures (λ x. seqs_tokens x.0 ≡ seqs_tokens seqs) (set_seqs mem running seqs st)
  unfolding set_seqs set_seq move_seq
  run_seqs-tokens [] st = returns refl
  run_seqs-tokens (seq ∷ seqs) st =
      Ensures-bind {P = λ x. get_len x.0 ≡ get_len seq}
        (Ensures-after (guard (not (is_finished_seq seq))) λ _. returns refl)
        λ x h. Ensures-bind (run_seqs-tokens seqs x.1) λ y i. returns (omega (arith, h, i))

module _ {S : Type 0} (mem : Memory S) (c : Config) where
  abbrev Budget : SchedulerOutputs → Type 0
  Budget o =
      (groups_tokens o.next_seq_groups ≡ o.num_batched_tokens)
      × (o.num_batched_tokens ≤ c.max_num_batched_tokens)

  fits_prompt-budget :
      (o : SchedulerOutputs) (n : ℕ) (sg : SequenceGroup) (m : S)
      → Ensures
          (λ fits.
            fits ≡ true → o.num_batched_tokens + seqs_tokens sg.seqs ≤ c.max_num_batched_tokens)
          (fits_prompt mem c o n sg m)
  unfolding fits_prompt
  fits_prompt-budget o n sg m = Ensures-bind (only_of-tokens sg.seqs) λ seq one.
      Ensures-after (mem.can_allocate m sg) λ can. returns λ fits. ground (arith, one, fits)

  run_prompt-Budget :
      (o : SchedulerOutputs) (sg : SequenceGroup) (st : Freed S)
      → Budget o
      → o.num_batched_tokens + seqs_tokens sg.seqs ≤ c.max_num_batched_tokens
      → Ensures (λ x. Budget x.0) (run_prompt mem c o sg st)
  unfolding run_prompt set_phase
  run_prompt-Budget o sg st b fits = Ensures-bind (only_of-tokens sg.seqs) λ seq one.
      Ensures-after (mem.allocate st.memory sg) λ m.
        Ensures-bind {P = λ x. seqs_tokens x.0.seqs ≡ seqs_tokens sg.seqs}
          (Ensures-bind (run_seqs-tokens mem sg.seqs (record st { memory = m })) λ x i. returns i)
          λ x i. returns (omega (arith, b.0, i, one), omega (arith, fits, one))

  prompts_loop-Budget :
      (o : SchedulerOutputs) (n : ℕ) (q : List SequenceGroup) (st : Freed S)
      → Budget o
      → Ensures (λ x. Budget x.0) (prompts_loop mem c o n q st)
  unfolding prompts_loop
  prompts_loop-Budget o n [] st b = returns b
  prompts_loop-Budget o n (sg ∷ q) st b =
      Ensures-bind (fits_prompt-budget o n sg st.memory) λ fits room.
        Ensures-if fits
          (λ yes_fits.
            Ensures-bind (run_prompt-Budget o sg st b (room yes_fits))
              λ x b'. prompts_loop-Budget x.0 (n + get_max_num_running_seqs sg) q x.1 b')
          (λ _. returns b)

  step_prompts-Ensures :
      (o : SchedulerOutputs) (s : Scheduler S)
      → Budget o
      → Ensures (λ x. Budget x.0) (step_prompts mem c o s)
  unfolding step_prompts
  step_prompts-Ensures o s b =
      Ensures-bind
        (prompts_loop-Budget o (max_num_running_seq s.on_gpu) (sort_by_priority s.waiting) s.freed
          b)
        λ x b'. returns b'

  -- If the number of batched tokens in the outputs is the number of tokens of the chosen groups
  -- and within `max_num_batched_tokens`, both still hold when `step_prompts` returns.
  pub step_prompts-within_budget :
      (o o' : SchedulerOutputs) (s s' : Scheduler S)
      → groups_tokens o.next_seq_groups ≡ o.num_batched_tokens
      → o.num_batched_tokens ≤ c.max_num_batched_tokens
      → step_prompts mem c o s ≡ some (o', s')
      → (groups_tokens o'.next_seq_groups ≡ o'.num_batched_tokens)
        × (o'.num_batched_tokens ≤ c.max_num_batched_tokens)
  step_prompts-within_budget o o' s s' sum small e =
      Ensures-some (step_prompts-Ensures o s (sum, small)) e
