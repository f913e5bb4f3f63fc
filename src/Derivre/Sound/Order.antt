-- ===== src/Derivre/Sound/Order.antt =====
-- The order of vectors of ids in `or_optimized` of controllers/derivre/src/simplify.rs, and the front
-- that neighbours share.
use aici.Prelude.{
  ℕ, zero, suc, ◌≡◌, refl, ap, arith, ◌==◌, true, false, Bool-cases, inl, inr, List, [], ◌∷◌, take,
  drop,
}
use aici.Derivre.Simplify.Prefixes.{before_ids, insert_ids, sort_vectors, common, last_of}

le_trans :
    (a b c : List ℕ) → before_ids b a ≡ false → before_ids c b ≡ false → before_ids c a ≡ false
le_trans [] [] [] p q = refl
le_trans [] [] (z ∷ c) p q = refl
le_trans [] (y ∷ b) [] p q = refl
le_trans [] (y ∷ b) (z ∷ c) p q = refl
le_trans (x ∷ a) [] c p q = absurd (cc p)
le_trans (x ∷ a) (y ∷ b) [] p q = absurd (cc q)
le_trans (x ∷ a) (y ∷ b) (z ∷ c) p q = ground (arith, le_trans a b c)

pub le_refl : (a : List ℕ) → before_ids a a ≡ false
le_refl [] = refl
le_refl (x ∷ a) = ground (arith, le_refl a)

asym : (a b : List ℕ) → before_ids a b ≡ true → before_ids b a ≡ false
asym [] [] p = refl
asym [] (y ∷ b) p = refl
asym (x ∷ a) [] p = absurd (cc p)
asym (x ∷ a) (y ∷ b) p = ground (arith, asym a b)

-- What stands between two vectors starts as they both do.
pub between :
    (a v b : List ℕ)
    → before_ids v a ≡ false
    → before_ids b v ≡ false
    → take (common a b) v ≡ take (common a b) a
between [] v b p q = refl
between (x ∷ a) v [] p q = refl
between (x ∷ a) [] (y ∷ b) p q = absurd (cc p)
between (x ∷ a) (z ∷ v) (y ∷ b) p q = elim (Bool-cases (x == y)) [
  | inl alike ↦
      let same : z ≡ x = ground (arith, p, q, alike) in
      let rest = between a v b (ground (arith, p, same)) (ground (arith, q, same, alike)) in
      rw (alike, same) (ap (◌∷◌ x) rest)
  | inr apart ↦ rw apart refl
]

-- Behind a front that two vectors share, their order is the same.
pub drop-before_ids :
    (k : ℕ) (a b : List ℕ)
    → take k a ≡ take k b
    → before_ids a b ≡ false
    → before_ids (drop k a) (drop k b) ≡ false
drop-before_ids zero a b e p = p
drop-before_ids (suc k) [] [] e p = refl
drop-before_ids (suc k) [] (y ∷ b) e p = absurd (cc e)
drop-before_ids (suc k) (x ∷ a) [] e p = absurd (cc e)
drop-before_ids (suc k) (x ∷ a) (y ∷ b) e p =
    let heads : x ≡ y = cc e in
    let tails : take k a ≡ take k b = cc e in drop-before_ids k a b tails (ground (arith, p, heads))

-- No vector behind comes before this one, past the offset.
abbrev pub AllAfter : ℕ → List ℕ → List (List ℕ) → Type 0
AllAfter o v [] = Unit
AllAfter o v (w ∷ vs) = (before_ids (drop o w) (drop o v) ≡ false) × AllAfter o v vs

abbrev pub Sorted : ℕ → List (List ℕ) → Type 0
Sorted o [] = Unit
Sorted o (v ∷ vs) = AllAfter o v vs × Sorted o vs

AllAfter-trans :
    (o : ℕ) (u v : List ℕ) (vs : List (List ℕ))
    → before_ids (drop o v) (drop o u) ≡ false
    → AllAfter o v vs
    → AllAfter o u vs
AllAfter-trans o u v [] p all = tt
AllAfter-trans o u v (w ∷ vs) p all =
    (le_trans (drop o u) (drop o v) (drop o w) p all.0, AllAfter-trans o u v vs p all.1)

insert_ids-AllAfter :
    (o : ℕ) (u v : List ℕ) (vs : List (List ℕ))
    → before_ids (drop o v) (drop o u) ≡ false
    → AllAfter o u vs
    → AllAfter o u (insert_ids v vs)
insert_ids-AllAfter o u v [] p all = (p, tt)
insert_ids-AllAfter o u v (x ∷ vs) p all = elim (Bool-cases (before_ids x v)) [
  | inl less ↦ rw less (all.0, insert_ids-AllAfter o u v vs p all.1)
  | inr more ↦ rw more (p, all)
]

insert_ids-Sorted : (v : List ℕ) (vs : List (List ℕ)) → Sorted 0 vs → Sorted 0 (insert_ids v vs)
insert_ids-Sorted v [] all = (tt, tt)
insert_ids-Sorted v (x ∷ vs) all = elim (Bool-cases (before_ids x v)) [
  | inl less ↦
      rw less (insert_ids-AllAfter 0 x v vs (asym x v less) all.0, insert_ids-Sorted v vs all.1)
  | inr more ↦ rw more ((more, AllAfter-trans 0 v x vs more all.0), all)
]

pub sort_vectors-Sorted : (vs : List (List ℕ)) → Sorted 0 (sort_vectors vs)
sort_vectors-Sorted [] = tt
sort_vectors-Sorted (v ∷ vs) = insert_ids-Sorted v (sort_vectors vs) (sort_vectors-Sorted vs)

-- The last one is behind all.
AllAfter-last :
    (o : ℕ) (u v : List ℕ) (vs : List (List ℕ))
    → before_ids (drop o v) (drop o u) ≡ false
    → AllAfter o u vs
    → before_ids (drop o (last_of v vs)) (drop o u) ≡ false
AllAfter-last o u v [] p all = p
AllAfter-last o u v (w ∷ vs) p all = AllAfter-last o u w vs all.0 all.1

pub first-last :
    (o : ℕ) (v : List ℕ) (vs : List (List ℕ))
    → AllAfter o v vs
    → before_ids (drop o (last_of v vs)) (drop o v) ≡ false
first-last o v vs all = AllAfter-last o v v vs (le_refl (drop o v)) all
