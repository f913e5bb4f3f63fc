-- ===== src/Blocks/Seqs/Copy.antt =====
-- `BlockAllocator::copy` of rllm/rllm-cuda/src/llm/paged/blocks.rs: a sequence shares the first
-- blocks of another.
use aici.Prelude.{
  ℕ, ◌+◌, ◌-◌, ◌/◌, ◌≤◌, ◌≡◌, ◌≢◌, ap, arith, Option, none, some, List, [], ◌++◌, take, inl, inr,
  Option-cases,
}
use aici.Blocks.Allocator.{num_blocks}
use aici.Blocks.Allocator.Laws.{count, count-append, Inv-same}
use aici.Blocks.Table.{
  lookup, insert, or_nil, held, insert-Unique, lookup-insert, count-held-insert, count-held-remove,
}
use aici.Blocks.Seqs.{Inner, copy_inner, copy_found, delete, copy}
use aici.Blocks.Seqs.Batch.{fork_all-Inv}
use aici.Blocks.Seqs.Trim.{IsValid, Sets, count-take-drop, delete-IsValid}

-- The first `n` of the blocks of a list, if there is one.
abbrev pub prefix : ℕ → Option (List ℕ) → Option (List ℕ)
prefix n none = none
prefix n (some v) = some (take n v)

module _ (s : Inner) (src dst length_ : ℕ) (valid : IsValid s) where
  -- The references of one list are among all.
  count-lookup_le :
      (v : List ℕ) (b : ℕ)
      → lookup src s.seq_blocks ≡ some v
      → count b v ≤ count b (held s.seq_blocks)
  count-lookup_le v b there =
      omega (arith, count-held-remove b src s.seq_blocks, ap (λ o. count b (or_nil o)) there)

  copy_found-IsValid :
      (v : List ℕ)
      → lookup src s.seq_blocks ≡ some v
      → or_nil (lookup dst s.seq_blocks) ≡ []
      → (s' : Inner) × (copy_found s dst length_ (some v) ≡ some s')
        × IsValid s'
        × Sets dst (some (take (num_blocks s.alloc length_) v)) s s'
  copy_found-IsValid v there empty =
      let front = take (num_blocks s.alloc length_) v in
      let (a, e, inv, same) = fork_all-Inv front s.alloc (held s.seq_blocks) valid.counted (λ b h.
        omega (
          arith,
          count-take-drop b (num_blocks s.alloc length_) v,
          count-lookup_le v b there,
          h,
        )) in
      (
        record { alloc = a; seq_blocks = insert dst front s.seq_blocks },
        rw e,
        record {
          counted =
              Inv-same (front ++ held s.seq_blocks) (held (insert dst front s.seq_blocks))
                (λ b. omega (
                  arith,
                  count-append b front (held s.seq_blocks),
                  count-held-insert b dst front s.seq_blocks,
                  ap (count b) empty,
                ))
                inv;
          unique = insert-Unique dst front s.seq_blocks valid.unique;
          positive = omega (arith, same, valid.positive);
        },
        λ j. lookup-insert dst j front s.seq_blocks,
      )

  copy_inner-IsValid :
      lookup dst s.seq_blocks ≡ none
      → (s' : Inner) × (copy_inner s src dst length_ ≡ some s')
        × IsValid s'
        × Sets dst (prefix (num_blocks s.alloc length_) (lookup src s.seq_blocks)) s s'
  unfolding copy_inner
  copy_inner-IsValid absent = elim (Option-cases (lookup src s.seq_blocks)) [
    | inl missing ↦ (s, rw missing, valid, λ j. ground (arith, missing, absent))
    | inr (v, there) ↦
        let (s', e, valid', sets) = copy_found-IsValid v there (ap or_nil absent) in
        (s', rw there e, valid', λ j. rw there (sets j))
  ]

-- On a valid allocator, `copy` between two different sequences returns a valid allocator, in
-- which the target has the first blocks of the source, as many as the length needs, or no list
-- if the source has none; no other list changes.
pub copy-IsValid :
    (s : Inner) (src dst length_ : ℕ)
    → IsValid s
    → src ≢ dst
    → (s' : Inner) × (copy s src dst length_ ≡ some s')
      × IsValid s'
      × Sets dst (prefix (num_blocks s.alloc length_) (lookup src s.seq_blocks)) s s'
unfolding copy delete
copy-IsValid s src dst length_ valid differ =
    let (s1, e1, valid1, sets1, same) = delete-IsValid s dst valid in
    let kept : lookup src s1.seq_blocks ≡ lookup src s.seq_blocks = ground (arith, sets1 src) in
    let absent : lookup dst s1.seq_blocks ≡ none = ground (arith, sets1 dst) in
    let (s2, e2, valid2, sets2) = copy_inner-IsValid s1 src dst length_ valid1 absent in
    (
      s2,
      rw (e1, e2),
      valid2,
      λ j. ground (
        arith,
        sets1 j,
        sets2 j,
        ap (prefix (num_blocks s1.alloc length_)) kept,
        ap (λ size. (length_ + size - 1) / size) same,
      ),
    )
