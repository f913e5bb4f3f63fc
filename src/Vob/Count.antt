-- ===== src/Vob/Count.antt =====
-- The number of flags set: `num_set` of controllers/aici_abi/src/svob.rs.
use aici.Prelude.{
  ℕ, zero, suc, ◌+◌, ◌-◌, ◌*◌, ◌/◌, ◌%◌, ◌^◌, ◌≤◌, ◌<◌, ◌≡◌, refl, ap, ◌∙◌, arith, ◌==◌, Bool,
  false, some, List, [], ◌∷◌, ◌++◌, length, get_elem?, range_from, append-nil, length-append,
}
use aici.Prelude.Bits.{test_bit}
use aici.Vob.{SimpleVob, count_ones, sum_ones, num_set, keep, iter_set_entries}
use aici.Vob.Bits.{bit, word_bit, IsValid}
use aici.Vob.Entries.{iter_set_entries_lem}

count_ones-keep :
    (p : ℕ → Bool) (n x i : ℕ)
    → ((k : ℕ) → k < n → p (i + k) ≡ test_bit x k)
    → count_ones n x ≡ length (keep p (range_from i n))
unfolding count_ones
count_ones-keep p zero x i h = refl
count_ones-keep p (suc n) x i h =
    let now : p i ≡ (x % 2 == 1) = ap p (omega arith) ∙ h 0 (omega arith) in
    let rest =
      count_ones-keep p n (x / 2) (suc i) (λ k l. ap p (omega arith) ∙ h (suc k) (omega arith)) in
    ground (arith, now, rest)

keep-append : (p : ℕ → Bool) (xs ys : List ℕ) → keep p (xs ++ ys) ≡ keep p xs ++ keep p ys
keep-append p [] ys = refl
keep-append p (x ∷ xs) ys = ground (arith, keep-append p xs ys)

range-append :
    (m n i j k : ℕ) → i + m ≡ j → m + n ≡ k → range_from i k ≡ range_from i m ++ range_from j n
range-append zero n i j k p q =
    let p' : j ≡ i = omega arith in let q' : k ≡ n = omega arith in rw (p', q')
range-append (suc m) n i j zero p q = absurd (omega arith)
range-append (suc m) n i j (suc k) p q =
    ap (◌∷◌ i) (range-append m n (suc i) j k (omega arith) (omega arith))

keep-none :
    (p : ℕ → Bool) (n i : ℕ) → ((j : ℕ) → i ≤ j → p j ≡ false) → keep p (range_from i n) ≡ []
keep-none p zero i h = refl
keep-none p (suc n) i h = rw (h i (omega arith)) (keep-none p n (suc i) (λ j l. h j (omega arith)))

sum_ones-keep :
    (p : ℕ → Bool) (ws : List ℕ) (idx n : ℕ)
    → n ≡ length ws * 32
    → ((i : ℕ) → idx * 32 ≤ i → p i ≡ word_bit (get_elem? ws (i / 32 - idx)) (i % 32))
    → sum_ones ws ≡ length (keep p (range_from (idx * 32) n))
unfolding sum_ones
sum_ones-keep p [] idx n e agree = let z : n ≡ 0 = omega arith in rw z
sum_ones-keep p (w ∷ ws) idx n e agree =
    rw
      (
        range-append 32 (length ws * 32) (idx * 32) (suc idx * 32) n (omega arith) (omega arith),
        keep-append p (range_from (idx * 32) 32) (range_from (suc idx * 32) (length ws * 32)),
        length-append (keep p (range_from (idx * 32) 32))
            (keep p (range_from (suc idx * 32) (length ws * 32))),
      )
      (omega (
        arith,
        count_ones-keep p 32 w (idx * 32) now,
        sum_ones-keep p ws (suc idx) (length ws * 32) refl later,
      ))
  where
    now : (k : ℕ) → k < 32 → p (idx * 32 + k) ≡ test_bit w k
    now k l =
        let d : (idx * 32 + k) / 32 - idx ≡ 0 = omega arith in
        let r : (idx * 32 + k) % 32 ≡ k = omega arith in
        agree (idx * 32 + k) (omega arith) ∙ rw (d, r)

    later : (i : ℕ) → suc idx * 32 ≤ i → p i ≡ word_bit (get_elem? ws (i / 32 - suc idx)) (i % 32)
    later i l =
        let d : i / 32 - idx ≡ suc (i / 32 - suc idx) = omega arith in agree i (omega arith) ∙ rw d

-- On a valid mask of at most 2 ^ 32 flags, `num_set`, a sum of the words' population counts, is
-- the number of indices that `iter_set_entries` visits.
pub num_set-iter_set_entries :
    (v : SimpleVob) (xs : List ℕ)
    → IsValid v
    → v.size ≤ 2 ^ 32
    → iter_set_entries v ≡ some xs
    → num_set v ≡ length xs
unfolding num_set
num_set-iter_set_entries v xs h fits e =
    let n = length v.words * 32 in
    sum_ones-keep (bit v) v.words 0 n refl
      (λ i l. ap (λ k. word_bit (get_elem? v.words k) (i % 32)) (omega arith))
    ∙ ap length (
        rw
          (
            range-append v.size (n - v.size) 0 v.size n (omega arith) (omega (arith, h.sized.room)),
            keep-append (bit v) (range_from 0 v.size) (range_from v.size (n - v.size)),
            keep-none (bit v) (n - v.size) v.size h.clean,
            append-nil (keep (bit v) (range_from 0 v.size)),
          )
          (cc (iter_set_entries_lem v h.sized fits)))
