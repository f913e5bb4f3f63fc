-- ===== src/Scheduler/Conserve.antt =====
-- No sequence group is lost or doubled by the steps of rllm/rllm-base/src/scheduler.rs.
pub mod Steps
pub mod Active
pub mod Generation
pub mod Schedule
use aici.Prelude.{
  ℕ, zero, suc, ◌+◌, ◌≡◌, refl, sym, ◌∙◌, ap, arith, ◌==◌, ltb, Bool, true, false, not, Option,
  none, some, List, [], ◌∷◌, ◌++◌, Bool-cases, inl, inr, ◌⊎◌, if◌then◌else◌, ◌>>=◌,
}
use aici.Prelude.Results.{Ensures, panics, returns, Ensures-after, Ensures-bind}
use mathlib.Core.List.{reverse, reverse-cons}
use aici.Seq.{SchedulingPhase, SequenceGroup, is_finished}
use aici.Scheduler.{
  Swaps, Memory, SchedulerOutputs, Freed, Scheduler, set_phase, set_seqs, each_group, each_queue,
}
use aici.Scheduler.Steps.{
  keep_groups, insert_by_arrival, sort_groups, sort_by_priority, remove_front,
}

abbrev pub one_copy : ℕ → ℕ → ℕ
one_copy r id = if id == r then 1 else 0

-- How often a request is in a queue.
abbrev pub copies : ℕ → List SequenceGroup → ℕ
copies r [] = 0
copies r (sg ∷ q) = one_copy r sg.request_id + copies r q

-- How often it is in the queues.
abbrev pub queued : {S : Type 0} → ℕ → Scheduler S → ℕ
queued r s = copies r s.waiting + copies r s.on_gpu + copies r s.swapped

-- How often it is among the groups that were chosen or dropped.
abbrev pub given : ℕ → SchedulerOutputs → ℕ
given r o = copies r o.next_seq_groups + copies r o.dropped_seq_groups

pub copies-append : (r : ℕ) (p q : List SequenceGroup) → copies r (p ++ q) ≡ copies r p + copies r q
copies-append r [] q = omega arith
copies-append r (sg ∷ p) q = omega (arith, copies-append r p q)

pub copies-keep_groups :
    (r : ℕ) (p : SequenceGroup → Bool) (q : List SequenceGroup)
    → copies r (keep_groups p q) + copies r (keep_groups (λ sg. not (p sg)) q) ≡ copies r q
copies-keep_groups r p [] = refl
copies-keep_groups r p (sg ∷ q) = elim (Bool-cases (p sg)) [
  | inl kept ↦ rw kept (omega (arith, copies-keep_groups r p q))
  | inr dropped ↦ rw dropped (omega (arith, copies-keep_groups r p q))
]

copies-insert_by_arrival :
    (r : ℕ) (sg : SequenceGroup) (q : List SequenceGroup)
    → copies r (insert_by_arrival sg q) ≡ copies r (sg ∷ q)
unfolding insert_by_arrival
copies-insert_by_arrival r sg [] = refl
copies-insert_by_arrival r sg (x ∷ q) = elim (Bool-cases (ltb x.arrival_time sg.arrival_time)) [
  | inl before ↦ rw before (omega (arith, copies-insert_by_arrival r sg q))
  | inr after ↦ rw after
]

copies-sort_groups : (r : ℕ) (q : List SequenceGroup) → copies r (sort_groups q) ≡ copies r q
unfolding sort_groups
copies-sort_groups r [] = refl
copies-sort_groups r (sg ∷ q) =
    omega (arith, copies-insert_by_arrival r sg (sort_groups q), copies-sort_groups r q)

copies-reverse : (r : ℕ) (q : List SequenceGroup) → copies r (reverse q) ≡ copies r q
copies-reverse r [] = refl
copies-reverse r (sg ∷ q) =
    rw (reverse-cons sg q)
      (omega (arith, copies-append r (reverse q) (sg ∷ []), copies-reverse r q))

pub copies-sort_by_priority :
    (r : ℕ) (q : List SequenceGroup) → copies r (sort_by_priority q) ≡ copies r q
unfolding sort_by_priority
copies-sort_by_priority r q = copies-sort_groups r (reverse q) ∙ copies-reverse r q

pub copies-remove_front :
    (r : ℕ) (sg : SequenceGroup) (q : List SequenceGroup)
    → one_copy r (remove_front sg q).0.request_id + copies r (remove_front sg q).1
      ≡ copies r (sg ∷ q)
copies-remove_front r sg [] = refl
copies-remove_front r sg (x ∷ q) = omega (arith, copies-remove_front r x q)

-- A block manager moves the blocks of a group, and gives the same group back.
pub record KeepsGroups {S : Type 0} (mem : Memory S) : Type 0 where
  pub swap_in_keeps :
      (m : S) (sg : SequenceGroup)
      → Ensures
          (λ (x : Swaps × SequenceGroup × S). x.1.request_id ≡ sg.request_id)
          (mem.swap_in m sg)
  pub swap_out_keeps :
      (m : S) (sg : SequenceGroup)
      → Ensures
          (λ (x : Swaps × SequenceGroup × S). x.1.request_id ≡ sg.request_id)
          (mem.swap_out m sg)

module _ {S : Type 0} (mem : Memory S) where
  pub set_phase-keeps :
      (phase : SchedulingPhase) (sg : SequenceGroup) (st : Freed S)
      → Ensures (λ x. x.0.request_id ≡ sg.request_id) (set_phase mem phase sg st)
  unfolding set_phase
  set_phase-keeps phase sg st = Ensures-after (set_seqs mem phase sg.seqs st) (λ x. returns refl)

  module _ (f : SequenceGroup → Freed S → Option (SequenceGroup × Freed S))
      (keeps : (sg : SequenceGroup) (st : Freed S)
        → Ensures (λ x. x.0.request_id ≡ sg.request_id) (f sg st))
      (r : ℕ) where
    pub each_group-keeps :
        (q : List SequenceGroup) (st : Freed S)
        → Ensures (λ x. copies r x.0 ≡ copies r q) (each_group mem f q st)
    unfolding each_group
    each_group-keeps [] st = returns refl
    each_group-keeps (sg ∷ q) st =
        Ensures-bind (each_group-keeps q st)
          λ x h. Ensures-bind (keeps sg x.1) λ y e. returns (omega (arith, h, ap (one_copy r) e))

    pub each_queue-keeps :
        (s : Scheduler S) → Ensures (λ s'. queued r s' ≡ queued r s) (each_queue mem f s)
    each_queue-keeps s = Ensures-bind (each_group-keeps s.waiting s.freed) λ w hw.
        Ensures-bind (each_group-keeps s.on_gpu w.1) λ g hg.
          Ensures-bind (each_group-keeps s.swapped g.1) λ x hx. returns (omega (arith, hw, hg, hx))
