-- ===== src/Vob/Entries.antt =====
-- The three walks over a mask in controllers/aici_abi/src/svob.rs visit the indices below `size`
-- in order, whatever shortcut a word takes.
use aici.Prelude.{
  ℕ, zero, suc, ◌+◌, ◌-◌, ◌*◌, ◌/◌, ◌%◌, ◌^◌, ◌≤◌, ◌<◌, ◌≡◌, refl, ap, sym, ◌∙◌, arith, ◌==◌, Bool,
  true, false, not, Option, some, List, [], ◌∷◌, ◌++◌, map, append_assoc, bit_and, get_elem?,
  if◌then◌else◌, ◌>>=◌, range_from, get_elem?-lt, ==_iff, Bool-cases, inl, inr,
}
use aici.Prelude.Bits.{test_bit, test_bit_zero, test_bit-not}
use aici.Prelude.Loops.{collect}
use aici.Vob.{
  SimpleVob, u32_max, is_allowed, word_entries, iter_entries, keep, word_set_entries,
  iter_set_entries, word_unset_entries, iter_unset_entries,
}
use aici.Vob.Bits.{bit, IsSized, masked, get-bit}

-- What a body emits at each index, in order.
abbrev pub gather {ℓ} : {B : Type ℓ} → (ℕ → List B) → List ℕ → List B
gather e [] = []
gather e (i ∷ is) = e i ++ gather e is

abbrev pub set_at : (ℕ → Bool) → ℕ → List ℕ
set_at p i = if p i then i ∷ [] else []

abbrev pub flag_at : (ℕ → Bool) → ℕ → List (Bool × ℕ)
flag_at p i = (p i, i) ∷ []

pub gather-set_at : (p : ℕ → Bool) (is : List ℕ) → gather (set_at p) is ≡ keep p is
gather-set_at p [] = refl
gather-set_at p (i ∷ is) = ground (arith, gather-set_at p is)

gather-flag_at : (p : ℕ → Bool) (is : List ℕ) → gather (flag_at p) is ≡ map (λ i. (p i, i)) is
gather-flag_at p [] = refl
gather-flag_at p (i ∷ is) = rw (gather-flag_at p is)

module _ {ℓ} {B : Type ℓ} (e : ℕ → List B) where
  gather-range :
      (m n i j k : ℕ)
      → i + m ≡ j
      → m + n ≡ k
      → gather e (range_from i m) ++ gather e (range_from j n) ≡ gather e (range_from i k)
  gather-range zero n i j k p q =
      let p' : j ≡ i = omega arith in let q' : k ≡ n = omega arith in rw (p', q')
  gather-range (suc m) n i j zero p q = absurd (omega arith)
  gather-range (suc m) n i j (suc k) p q =
      append_assoc (e i) _ _
      ∙ ap (◌++◌ (e i)) (gather-range m n (suc i) j k (omega arith) (omega arith))

  -- The loop over the full words.
  collect-words :
      (body : ℕ → Option (List B)) (n i j k : ℕ)
      → ((idx : ℕ) → idx < i + n → body idx ≡ some (gather e (range_from (idx * 32) 32)))
      → j ≡ i * 32
      → k ≡ n * 32
      → collect (range_from i n) body ≡ some (gather e (range_from j k))
  collect-words body zero i j k h p q = let q' : k ≡ 0 = omega arith in rw q'
  collect-words body (suc n) i j k h p q =
      rw
        (
          h i (omega arith),
          collect-words body n (suc i) (suc i * 32) (n * 32) (λ idx l. h idx (omega arith)) refl
              refl,
        )
        (rw (← p) (ap some (gather-range 32 (n * 32) j (suc i * 32) k (omega arith) (omega arith))))

  -- The loop over the flags past the last full word.
  collect-rest :
      (body : ℕ → Option (List B)) (n i : ℕ)
      → ((idx : ℕ) → idx < i + n → body idx ≡ some (e idx))
      → collect (range_from i n) body ≡ some (gather e (range_from i n))
  collect-rest body zero i h = refl
  collect-rest body (suc n) i h =
      rw (h i (omega arith), collect-rest body n (suc i) (λ idx l. h idx (omega arith)))

module _ (p q : ℕ → Bool) (a : ℕ) (agree : (k : ℕ) → k < 32 → q k ≡ p (a + k)) where
  flags-word :
      (n i j : ℕ)
      → i + n ≤ 32
      → j ≡ a + i
      → map (λ k. (q k, a + k)) (range_from i n) ≡ gather (flag_at p) (range_from j n)
  flags-word zero i j h e = refl
  flags-word (suc n) i j h e =
      rw (agree i (omega arith), ← e, flags-word n (suc i) (suc j) (omega arith) (omega arith))

  set-word :
      (n i j : ℕ)
      → i + n ≤ 32
      → j ≡ a + i
      → map (λ k. a + k) (keep q (range_from i n)) ≡ gather (set_at p) (range_from j n)
  set-word zero i j h e = refl
  set-word (suc n) i j h e = elim (Bool-cases (p j)) [
    | inl y ↦
        let y' : q i ≡ true = agree i (omega arith) ∙ rw (← e) y in
        rw (y', y, ← e, set-word n (suc i) (suc j) (omega arith) (omega arith))
    | inr n' ↦
        let y' : q i ≡ false = agree i (omega arith) ∙ rw (← e) n' in
        rw (y', n') (set-word n (suc i) (suc j) (omega arith) (omega arith))
  ]

module _ (v : SimpleVob) (s : IsSized v) (fits : v.size ≤ 2 ^ 32) where
  -- The flags of one word.
  word_flags :
      (idx d k : ℕ) → get_elem? v.words idx ≡ some d → k < 32 → test_bit d k ≡ bit v (idx * 32 + k)
  word_flags idx d k e l =
      let q : (idx * 32 + k) / 32 ≡ idx = omega arith in
      let r : (idx * 32 + k) % 32 ≡ k = omega arith in rw (q, r, e)

  zero_flags :
      (idx d : ℕ)
      → get_elem? v.words idx ≡ some d
      → (d == 0) ≡ true
      → (k : ℕ) → k < 32
      → false ≡ bit v (idx * 32 + k)
  zero_flags idx d e z k l =
      sym (test_bit_zero k) ∙ rw (← ((==_iff d 0).0 z)) (word_flags idx d k e l)

  full_flags :
      (idx d : ℕ)
      → get_elem? v.words idx ≡ some d
      → (d == u32_max) ≡ true
      → (k : ℕ) → k < 32
      → true ≡ bit v (idx * 32 + k)
  full_flags idx d e f k l =
      sym (test_bit-not 32 k 0 (omega arith) l ∙ ap not (test_bit_zero k))
      ∙ rw (← ((==_iff d u32_max).0 f)) (word_flags idx d k e l)

  plain_flags :
      (idx d : ℕ)
      → get_elem? v.words idx ≡ some d
      → (k : ℕ) → k < 32
      → not (bit_and d (2 ^ k) == 0) ≡ bit v (idx * 32 + k)
  plain_flags idx d e k l = masked d k ∙ word_flags idx d k e l

  word_entries_lem :
      (idx d : ℕ)
      → get_elem? v.words idx ≡ some d
      → word_entries idx d ≡ gather (flag_at (bit v)) (range_from (idx * 32) 32)
  unfolding word_entries
  word_entries_lem idx d e = elim (Bool-cases (d == 0)) [
    | inl z ↦ rw z (same (λ k. false) (zero_flags idx d e z))
    | inr nz ↦ elim (Bool-cases (d == u32_max)) [
      | inl f ↦ rw (nz, f) (same (λ k. true) (full_flags idx d e f))
      | inr nf ↦ rw (nz, nf) (same (λ k. not (bit_and d (2 ^ k) == 0)) (plain_flags idx d e))
    ]
  ]
    where
      same :
          (q : ℕ → Bool)
          → ((k : ℕ) → k < 32 → q k ≡ bit v (idx * 32 + k))
          → map (λ k. (q k, idx * 32 + k)) (range_from 0 32)
            ≡ gather (flag_at (bit v)) (range_from (idx * 32) 32)
      same q h = flags-word (bit v) q (idx * 32) h 32 0 (idx * 32) (omega arith) (omega arith)

  word_set_entries_lem :
      (idx d : ℕ)
      → get_elem? v.words idx ≡ some d
      → word_set_entries idx d ≡ gather (set_at (bit v)) (range_from (idx * 32) 32)
  unfolding word_set_entries
  word_set_entries_lem idx d e = elim (Bool-cases (d == 0)) [
    | inl z ↦ rw z (same (λ k. false) (zero_flags idx d e z))
    | inr nz ↦ elim (Bool-cases (d == u32_max)) [
      | inl f ↦ rw (nz, f) (same (λ k. true) (full_flags idx d e f))
      | inr nf ↦ rw (nz, nf) (same (λ k. not (bit_and d (2 ^ k) == 0)) (plain_flags idx d e))
    ]
  ]
    where
      same :
          (q : ℕ → Bool)
          → ((k : ℕ) → k < 32 → q k ≡ bit v (idx * 32 + k))
          → map (λ k. idx * 32 + k) (keep q (range_from 0 32))
            ≡ gather (set_at (bit v)) (range_from (idx * 32) 32)
      same q h = set-word (bit v) q (idx * 32) h 32 0 (idx * 32) (omega arith) (omega arith)

  word_unset_entries_lem :
      (idx d : ℕ)
      → get_elem? v.words idx ≡ some d
      → word_unset_entries idx d ≡ gather (set_at (λ i. not (bit v i))) (range_from (idx * 32) 32)
  unfolding word_unset_entries
  word_unset_entries_lem idx d e = elim (Bool-cases (d == 0)) [
    | inl z ↦ rw z (same (λ k. true) (λ k l. ap not (zero_flags idx d e z k l)))
    | inr nz ↦ elim (Bool-cases (d == u32_max)) [
      | inl f ↦ rw (nz, f) (same (λ k. false) (λ k l. ap not (full_flags idx d e f k l)))
      | inr nf ↦
          rw (nz, nf)
            (same (λ k. bit_and d (2 ^ k) == 0)
              (λ k l. sym (not_not _) ∙ ap not (plain_flags idx d e k l)))
    ]
  ]
    where
      not_not : (b : Bool) → not (not b) ≡ b
      not_not b = ground arith

      same :
          (q : ℕ → Bool)
          → ((k : ℕ) → k < 32 → q k ≡ not (bit v (idx * 32 + k)))
          → map (λ k. idx * 32 + k) (keep q (range_from 0 32))
            ≡ gather (set_at (λ i. not (bit v i))) (range_from (idx * 32) 32)
      same q h =
          set-word (λ i. not (bit v i)) q (idx * 32) h 32 0 (idx * 32) (omega arith) (omega arith)

  -- Both loops of a walk, for a body that emits `e` at each index.
  walk {ℓ} :
      {B : Type ℓ} (e : ℕ → List B) (word : ℕ → ℕ → List B)
      → ((idx d : ℕ)
          → get_elem? v.words idx ≡ some d
          → word idx d ≡ gather e (range_from (idx * 32) 32))
      → (one : Bool → ℕ → List B) → ((i : ℕ) → one (bit v i) i ≡ e i)
      → (collect
            (range_from 0 (v.size / 32))
            (λ idx. do d ← get_elem? v.words idx; some (word idx d))
          >>= λ full.
              collect
                (range_from (v.size / 32 * 32) (v.size - v.size / 32 * 32))
                (λ idx. do b ← is_allowed v (idx % 2 ^ 32); some (one b idx))
              >>= λ last. some (full ++ last))
        ≡ some (gather e (range_from 0 v.size))
  unfolding is_allowed
  walk e word h one k =
      let full =
        collect-words e (λ idx. do d ← get_elem? v.words idx; some (word idx d)) (v.size / 32) 0 0
          (v.size / 32 * 32)
          (λ idx l.
            let (d, x) = get_elem?-lt v.words idx (omega (arith, s.room)) in
            rw x (ap some (h idx d x)))
          refl refl in
      let last =
        collect-rest e (λ idx. do b ← is_allowed v (idx % 2 ^ 32); some (one b idx))
          (v.size - v.size / 32 * 32) (v.size / 32 * 32)
          (λ idx l.
            let same : idx % 2 ^ 32 ≡ idx = omega (arith, fits) in
            rw (same, get-bit v idx (omega (arith, s.room))) (ap some (k idx))) in
      rw (full, last)
        (ap some (
          gather-range e (v.size / 32 * 32) (v.size - v.size / 32 * 32) 0 (v.size / 32 * 32) v.size
            (omega arith) (omega arith)))

  -- On a sized mask of at most 2 ^ 32 flags, `iter_entries` visits every index below the size once, in order, with its
  -- flag.
  pub iter_entries_lem : iter_entries v ≡ some (map (λ i. (bit v i, i)) (range_from 0 v.size))
  unfolding iter_entries
  iter_entries_lem =
      walk (flag_at (bit v)) word_entries word_entries_lem (λ b i. (b, i) ∷ []) (λ i. refl)
      ∙ ap some (gather-flag_at (bit v) (range_from 0 v.size))

  -- On a sized mask of at most 2 ^ 32 flags, `iter_set_entries` visits the indices below the
  -- size whose flag is set, each once and in order, although it goes word by word and skips
  -- words of zeros.
  pub iter_set_entries_lem : iter_set_entries v ≡ some (keep (bit v) (range_from 0 v.size))
  unfolding iter_set_entries
  iter_set_entries_lem =
      walk (set_at (bit v)) word_set_entries word_set_entries_lem (λ b i. if b then i ∷ [] else [])
        (λ i. refl)
      ∙ ap some (gather-set_at (bit v) (range_from 0 v.size))

  -- On a sized mask of at most 2 ^ 32 flags, `iter_unset_entries` visits the indices below the size whose flag is not
  -- set, each once and in order.
  pub iter_unset_entries_lem :
      iter_unset_entries v ≡ some (keep (λ i. not (bit v i)) (range_from 0 v.size))
  unfolding iter_unset_entries
  iter_unset_entries_lem =
      walk (set_at (λ i. not (bit v i))) word_unset_entries word_unset_entries_lem
        (λ b i. if b then [] else i ∷ []) (λ i. ground arith)
      ∙ ap some (gather-set_at (λ i. not (bit v i)) (range_from 0 v.size))
