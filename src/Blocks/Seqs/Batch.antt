-- ===== src/Blocks/Seqs/Batch.antt =====
-- The loops of rllm/rllm-cuda/src/llm/paged/blocks.rs that free, fork and allocate several blocks:
-- `free_all`, `fork_all` and `allocate_n` of Blocks/Seqs.
use aici.Prelude.{
  ℕ, zero, suc, ◌+◌, ◌≤◌, ◌<◌, ◌≡◌, refl, sym, ◌∙◌, ap, arith, none, some, List, [], ◌∷◌, ◌++◌,
  length, ◌⊎◌, inl, inr,
}
use aici.Blocks.Allocator.{Allocator}
use aici.Blocks.Allocator.Laws.{
  count, count-append, Inv, Inv-same, free-Inv, fork-Inv, allocate-Inv, allocate-empty,
}
use aici.Blocks.Seqs.{free_all, fork_all, allocate_n}

pub free_all-Inv :
    (bs : List ℕ) (a : Allocator) (held : List ℕ)
    → Inv a (bs ++ held)
    → (a' : Allocator) × (free_all bs a ≡ some a') × Inv a' held × (a'.block_size ≡ a.block_size)
unfolding free_all
free_all-Inv [] a held v = (a, refl, v, refl)
free_all-Inv (b ∷ bs) a held v =
    let (a1, e1, v1, s1, _) = free-Inv a b (bs ++ held) v in
    let (a2, e2, v2, s2) = free_all-Inv bs a1 held v1 in (a2, rw (e1, e2), v2, s2 ∙ s1)

pub fork_all-Inv :
    (bs : List ℕ) (a : Allocator) (held : List ℕ)
    → Inv a held
    → ((b : ℕ) → 0 < count b bs → 0 < count b held)
    → (a' : Allocator) × (fork_all bs a ≡ some (bs, a'))
      × Inv a' (bs ++ held)
      × (a'.block_size ≡ a.block_size)
unfolding fork_all
fork_all-Inv [] a held v used = (a, refl, v, refl)
fork_all-Inv (b ∷ bs) a held v used =
    let (a1, e1, v1, s1, _) = fork-Inv a b held v (used b (ground arith)) in
    let (a2, e2, v2, s2) = fork_all-Inv bs a1 (b ∷ held) v1 (λ x h. ground (arith, used x)) in
    (
      a2,
      rw (e1, e2),
      Inv-same (bs ++ (b ∷ held)) (b ∷ (bs ++ held))
          (λ x. omega (arith, count-append x bs (b ∷ held), count-append x bs held)) v2,
      s2 ∙ s1,
    )

-- A list that is not shorter than `suc n` has a front.
pub front : (n : ℕ) (xs : List ℕ) → suc n ≤ length xs → (x : ℕ) × (rest : List ℕ) × (xs ≡ x ∷ rest)
front n [] h = absurd (omega arith)
front n (x ∷ rest) h = (x, rest, refl)

pub allocate_n-Inv :
    (n : ℕ) (a : Allocator) (held : List ℕ)
    → Inv a held
    → n ≤ length a.free_list
    → (bs : List ℕ) × (a' : Allocator) × (allocate_n n a ≡ some (bs, a'))
      × Inv a' (bs ++ held)
      × (length bs ≡ n)
      × (length a'.free_list + n ≡ length a.free_list)
      × (a'.block_size ≡ a.block_size)
unfolding allocate_n
allocate_n-Inv zero a held v h = ([], a, refl, v, refl, omega arith, refl)
allocate_n-Inv (suc n) a held v h =
    let (b, rest, e) = front n a.free_list h in
    let (a1, e1, v1, _, s1, f1, _) = allocate-Inv a b rest held v e in
    let shorter : suc (length a1.free_list) ≡ length a.free_list =
      ap (λ xs. suc (length xs)) f1 ∙ ap length (sym e) in
    let (bs, a2, e2, v2, n2, f2, s2) = allocate_n-Inv n a1 (b ∷ held) v1 (omega arith) in
    (
      b ∷ bs,
      a2,
      rw (e1, e2),
      Inv-same (bs ++ (b ∷ held)) (b ∷ (bs ++ held))
          (λ x. omega (arith, count-append x bs (b ∷ held), count-append x bs held)) v2,
      ap suc n2,
      omega arith,
      s2 ∙ s1,
    )

nil_or_front : (xs : List ℕ) → (xs ≡ []) ⊎ ((x : ℕ) × (rest : List ℕ) × (xs ≡ x ∷ rest))
nil_or_front [] = inl refl
nil_or_front (x ∷ rest) = inr (x, rest, refl)

-- With fewer free blocks than asked for, the loop panics.
pub allocate_n-short :
    (n : ℕ) (a : Allocator) (held : List ℕ)
    → Inv a held
    → length a.free_list < n
    → allocate_n n a ≡ none
unfolding allocate_n
allocate_n-short zero a held v h = absurd (omega arith)
allocate_n-short (suc n) a held v h = elim (nil_or_front a.free_list) [
  | inl e ↦ rw (allocate-empty a e)
  | inr (b, rest, e) ↦
      let (a1, e1, v1, _, s1, f1, _) = allocate-Inv a b rest held v e in
      let shorter : suc (length a1.free_list) ≡ length a.free_list =
        ap (λ xs. suc (length xs)) f1 ∙ ap length (sym e) in
      rw (e1, allocate_n-short n a1 (b ∷ held) v1 (omega arith))
]
