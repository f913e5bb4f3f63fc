-- ===== src/Blocks/Seqs/Trim.antt =====
-- Sequences come and go: `trim`, `delete`, `alloc_seq` and `copy` of
-- rllm/rllm-cuda/src/llm/paged/blocks.rs keep the counts of the allocator right.
use native.Mathlib.Nat.{div-lt_iff_lt-mul}
use aici.Prelude.{
  ℕ, zero, suc, ◌+◌, ◌-◌, ◌/◌, ◌≤◌, ◌<◌, ◌≡◌, refl, ◌∙◌, ap, arith, ◌==◌, ==_refl, le→leb,
  Bool-cases, Option, none, some, List, [], ◌∷◌, ◌++◌, length, take, drop, if◌then◌else◌, inl, inr,
  Option-cases,
}
use aici.Blocks.Allocator.{Allocator, num_blocks}
use aici.Blocks.Allocator.Laws.{count, count-append, Inv, Inv-same}
use aici.Blocks.Table.{
  lookup, insert, remove, or_nil, held, Unique, insert-Unique, remove-Unique, lookup-insert,
  lookup-remove, count-held-insert, count-held-remove,
}
use aici.Blocks.Seqs.{Inner, Seq, free_all, trim_list, trim, delete, alloc_seq}
use aici.Blocks.Seqs.Batch.{free_all-Inv, allocate_n-Inv, allocate_n-short}

-- Each reference in the lists is counted, and the keys are those of a map.
pub record IsValid (s : Inner) : Type 0 where
  pub counted : Inv s.alloc (held s.seq_blocks)
  pub unique : Unique s.seq_blocks
  pub positive : 0 < s.alloc.block_size

pub count-take-drop : (b n : ℕ) (v : List ℕ) → count b (take n v) + count b (drop n v) ≡ count b v
count-take-drop b zero v = omega arith
count-take-drop b (suc n) [] = refl
count-take-drop b (suc n) (x ∷ v) = omega (arith, count-take-drop b n v)

pub num_blocks-zero : (a : Allocator) → 0 < a.block_size → num_blocks a 0 ≡ 0
num_blocks-zero a h =
    let below : (0 + a.block_size - 1) / a.block_size < 1 = (div-lt_iff_lt-mul h).1 (omega arith) in
    omega (arith, below)

-- Only the list of one sequence differs.
abbrev pub Sets : ℕ → Option (List ℕ) → Inner → Inner → Type 0
Sets seq v s s' = (j : ℕ) → lookup j s'.seq_blocks ≡ (if seq == j then v else lookup j s.seq_blocks)

module _ (s : Inner) (seq n : ℕ) (valid : IsValid s) where
  trim_list_lem :
      (v : List ℕ) (a : Allocator)
      → lookup seq s.seq_blocks ≡ some v
      → n ≤ length v
      → free_all (drop n v) s.alloc ≡ some a
      → trim_list s seq n
        ≡ some (record { alloc = a; seq_blocks = insert seq (take n v) s.seq_blocks })
  unfolding trim_list
  trim_list_lem v a there short e = rw (there, le→leb n (length v) short, e)

  trim_list-IsValid :
      (v : List ℕ)
      → lookup seq s.seq_blocks ≡ some v
      → n ≤ length v
      → (s' : Inner) × (trim_list s seq n ≡ some s')
        × IsValid s'
        × Sets seq (some (take n v)) s s'
        × (s'.alloc.block_size ≡ s.alloc.block_size)
  trim_list-IsValid v there short =
      let kept = held (insert seq (take n v) s.seq_blocks) in
      let moved : (b : ℕ) → count b (held s.seq_blocks) ≡ count b (drop n v ++ kept) = λ b. omega (
        arith,
        count-append b (drop n v) kept,
        count-held-insert b seq (take n v) s.seq_blocks,
        ap (λ o. count b (or_nil o)) there,
        count-take-drop b n v,
      ) in
      let (a, e, inv, same) =
        free_all-Inv (drop n v) s.alloc kept
          (Inv-same (held s.seq_blocks) (drop n v ++ kept) moved valid.counted) in
      (
        record { alloc = a; seq_blocks = insert seq (take n v) s.seq_blocks },
        trim_list_lem v a there short e,
        record {
          counted = inv;
          unique = insert-Unique seq (take n v) s.seq_blocks valid.unique;
          positive = omega (arith, same, valid.positive);
        },
        λ j. lookup-insert seq j (take n v) s.seq_blocks,
        same,
      )

  remove-IsValid :
      or_nil (lookup seq s.seq_blocks) ≡ []
      → IsValid (record s { seq_blocks = remove seq s.seq_blocks })
        × Sets seq none s (record s { seq_blocks = remove seq s.seq_blocks })
  remove-IsValid empty = (
    record {
      counted =
          Inv-same (held s.seq_blocks) (held (remove seq s.seq_blocks))
            (λ b. omega (arith, count-held-remove b seq s.seq_blocks, ap (count b) empty))
            valid.counted;
      unique = remove-Unique seq s.seq_blocks valid.unique;
      positive = valid.positive;
    },
    λ j. lookup-remove seq j s.seq_blocks valid.unique,
  )

-- On a valid allocator with a list of blocks for the sequence, not shorter than the blocks of
-- the new length, `trim` returns a valid allocator: the reference counts still match the
-- references held, the list is cut to the blocks of the new length, or goes with its key when
-- that is none, and no other list changes.
pub trim-IsValid :
    (s : Inner) (seq length_ : ℕ) (v : List ℕ)
    → IsValid s
    → lookup seq s.seq_blocks ≡ some v
    → num_blocks s.alloc length_ ≤ length v
    → (s' : Inner) × (trim s seq length_ ≡ some s')
      × IsValid s'
      × Sets seq
          (if num_blocks s.alloc length_ == 0
            then none
            else some (take (num_blocks s.alloc length_) v))
          s
          s'
      × (s'.alloc.block_size ≡ s.alloc.block_size)
unfolding trim
trim-IsValid s seq length_ v valid there short =
    let n = num_blocks s.alloc length_ in
    let (s1, e, valid1, sets, same) = trim_list-IsValid s seq n valid v there short in
    elim (Bool-cases (n == 0)) [
      | inl is_zero ↦
          let empty : or_nil (lookup seq s1.seq_blocks) ≡ [] =
            ground (arith, sets seq, ==_refl seq) in
          let (valid2, sets2) = remove-IsValid s1 seq n valid1 empty in
          (
            record s1 { seq_blocks = remove seq s1.seq_blocks },
            rw (e, is_zero),
            valid2,
            λ j. ground (arith, sets j, sets2 j),
            same,
          )
      | inr positive ↦ (s1, rw (e, positive), valid1, λ j. sets j ∙ rw positive, same)
    ]

trim_missing :
    (s : Inner) (seq : ℕ)
    → IsValid s
    → lookup seq s.seq_blocks ≡ none
    → trim s seq 0 ≡ some (record s { seq_blocks = remove seq s.seq_blocks })
unfolding trim trim_list
trim_missing s seq valid e = rw (e, num_blocks-zero s.alloc valid.positive)

-- On a valid allocator, `delete` of any sequence returns a valid allocator without a list for
-- it, in which no other list changes.
pub delete-IsValid :
    (s : Inner) (seq : ℕ)
    → IsValid s
    → (s' : Inner) × (delete s seq ≡ some s')
      × IsValid s'
      × Sets seq none s s'
      × (s'.alloc.block_size ≡ s.alloc.block_size)
unfolding delete
delete-IsValid s seq valid = elim (Option-cases (lookup seq s.seq_blocks)) [
  | inl missing ↦
      let (valid', sets) = remove-IsValid s seq 0 valid (ap or_nil missing) in
      (
        record s { seq_blocks = remove seq s.seq_blocks },
        trim_missing s seq valid missing,
        valid',
        sets,
        refl,
      )
  | inr (v, there) ↦
      let zero_blocks = num_blocks-zero s.alloc valid.positive in
      let (s', e, valid', sets, same) =
        trim-IsValid s seq 0 v valid there (omega (arith, zero_blocks)) in
      (s', e, valid', λ j. ground (arith, sets j, zero_blocks), same)
]

-- On a valid allocator, `alloc_seq` of a sequence without blocks, for whose length enough blocks
-- are free, returns a valid allocator in which the sequence has as many blocks as its length
-- needs and that many fewer are free; no other list changes.
pub alloc_seq-IsValid :
    (s : Inner) (seq : Seq)
    → IsValid s
    → or_nil (lookup seq.seq_id s.seq_blocks) ≡ []
    → num_blocks s.alloc seq.len ≤ length s.alloc.free_list
    → (s' : Inner) × (v : List ℕ) × (alloc_seq s seq ≡ some s')
      × IsValid s'
      × Sets seq.seq_id (some v) s s'
      × (length v ≡ num_blocks s.alloc seq.len)
      × (length s'.alloc.free_list + num_blocks s.alloc seq.len ≡ length s.alloc.free_list)
unfolding alloc_seq
alloc_seq-IsValid s seq valid empty enough =
    let n = num_blocks s.alloc seq.len in
    let (v, a, e, inv, long, left, same) =
      allocate_n-Inv n s.alloc (held s.seq_blocks) valid.counted enough in
    (
      record { alloc = a; seq_blocks = insert seq.seq_id v s.seq_blocks },
      v,
      rw (empty, e),
      record {
        counted =
            Inv-same (v ++ held s.seq_blocks) (held (insert seq.seq_id v s.seq_blocks))
              (λ b. omega (
                arith,
                count-append b v (held s.seq_blocks),
                count-held-insert b seq.seq_id v s.seq_blocks,
                ap (count b) empty,
              ))
              inv;
        unique = insert-Unique seq.seq_id v s.seq_blocks valid.unique;
        positive = omega (arith, same, valid.positive);
      },
      λ j. lookup-insert seq.seq_id j v s.seq_blocks,
      long,
      left,
    )

-- On a valid allocator, `alloc_seq` of a sequence without blocks panics if fewer blocks are free
-- than its length needs.
pub alloc_seq-short :
    (s : Inner) (seq : Seq)
    → IsValid s
    → or_nil (lookup seq.seq_id s.seq_blocks) ≡ []
    → length s.alloc.free_list < num_blocks s.alloc seq.len
    → alloc_seq s seq ≡ none
unfolding alloc_seq
alloc_seq-short s seq valid empty few = rw (
  empty,
  allocate_n-short (num_blocks s.alloc seq.len) s.alloc (held s.seq_blocks) valid.counted few,
)
