-- ===== src/Derivre/HashCons/Windows.antt =====
-- Windows of the vectors that back the store of controllers/derivre/src/hashcons.rs.
use aici.Prelude.{
  ℕ, zero, suc, ◌+◌, ◌-◌, ◌≤◌, ◌<◌, ◌≡◌, refl, sym, ◌∙◌, ap, arith, ltb, true, Bool-cases, inl, inr,
  List, [], ◌∷◌, ◌++◌, length, take, drop, set, replicate, length-append, length-replicate,
}
use aici.Derivre.HashCons.{window, write, resized, same}

pub window_left :
    (a n : ℕ) (xs ys : List ℕ) → a + n ≤ length xs → window a n (xs ++ ys) ≡ window a n xs
window_left zero zero xs ys h = refl
window_left zero (suc n) [] ys h = absurd (omega (arith, h))
window_left zero (suc n) (x ∷ xs) ys h = ap (◌∷◌ x) (window_left zero n xs ys (omega (arith, h)))
window_left (suc a) zero xs ys h = refl
window_left (suc a) (suc n) [] ys h = absurd (omega (arith, h))
window_left (suc a) (suc n) (x ∷ xs) ys h = window_left a (suc n) xs ys (omega (arith, h))

-- The window that begins after a prefix.
pub window_right :
    (a n : ℕ) (xs ys : List ℕ) → a ≡ length xs → window a n (xs ++ ys) ≡ window 0 n ys
window_right zero n [] ys e = refl
window_right zero n (x ∷ xs) ys e = absurd (omega (arith, e))
window_right (suc a) n [] ys e = absurd (omega (arith, e))
window_right (suc a) n (x ∷ xs) ys e = window_right a n xs ys (omega (arith, e))

pub window_whole : (xs ys : List ℕ) → window 0 (length xs) (xs ++ ys) ≡ xs
window_whole [] ys = refl
window_whole (x ∷ xs) ys = ap (◌∷◌ x) (window_whole xs ys)

pub window_split :
    (a n m : ℕ) (xs : List ℕ)
    → a + n ≤ length xs
    → window a (n + m) xs ≡ window a n xs ++ window (a + n) m xs
window_split zero zero m xs h = ap (λ (k : ℕ). window 0 k xs) (omega arith)
window_split zero (suc n) m [] h = absurd (omega (arith, h))
window_split zero (suc n) m (x ∷ xs) h =
    let e1 : suc n + m ≡ suc (n + m) = omega arith in
    let e2 : 0 + suc n ≡ suc (0 + n) = omega arith in
    rw (e1, e2) (ap (◌∷◌ x) (window_split zero n m xs (omega (arith, h))))
window_split (suc a) n m [] h = absurd (omega (arith, h))
window_split (suc a) n m (x ∷ xs) h =
    let e3 : suc a + n ≡ suc (a + n) = omega arith in
    rw e3 (window_split a n m xs (omega (arith, h)))

pub length-take : (n : ℕ) (xs : List ℕ) → n ≤ length xs → length (take n xs) ≡ n
length-take zero xs h = refl
length-take (suc n) [] h = absurd (omega (arith, h))
length-take (suc n) (x ∷ xs) h = omega (arith, length-take n xs (omega (arith, h)))

take-drop : (n : ℕ) (xs : List ℕ) → take n xs ++ drop n xs ≡ xs
take-drop zero xs = refl
take-drop (suc n) [] = refl
take-drop (suc n) (x ∷ xs) = ap (◌∷◌ x) (take-drop n xs)

length-drop : (n : ℕ) (xs : List ℕ) → length (drop n xs) ≡ length xs - n
length-drop zero xs = omega arith
length-drop (suc n) [] = omega arith
length-drop (suc n) (x ∷ xs) = omega (arith, length-drop n xs)

-- A window before the place that is written.
pub window-write :
    (a n s : ℕ) (elts xs : List ℕ)
    → a + n ≤ s
    → s ≤ length xs
    → window a n (write s elts xs) ≡ window a n xs
window-write a n s elts xs before inside =
    let shown : window a n (take s xs ++ drop s xs) ≡ window a n xs =
      ap (window a n) (take-drop s xs) in
    let short : a + n ≤ length (take s xs) = omega (arith, before, length-take s xs inside) in
    window_left a n (take s xs) (elts ++ drop (s + length elts) xs) short
    ∙ (sym (window_left a n (take s xs) (drop s xs) short) ∙ shown)

pub window-write_self :
    (s : ℕ) (elts xs : List ℕ) → s ≤ length xs → window s (length elts) (write s elts xs) ≡ elts
window-write_self s elts xs inside =
    window_right s (length elts) (take s xs) (elts ++ drop (s + length elts) xs)
      (sym (length-take s xs inside))
    ∙ window_whole elts (drop (s + length elts) xs)

pub length-write :
    (s : ℕ) (elts xs : List ℕ) → s + length elts ≤ length xs → length (write s elts xs) ≡ length xs
length-write s elts xs inside = omega (
  arith,
  inside,
  length-append (take s xs) (elts ++ drop (s + length elts) xs),
  length-append elts (drop (s + length elts) xs),
  length-take s xs (omega (arith, inside)),
  length-drop (s + length elts) xs,
)

-- What is written behind a vector extends it.
pub window-write_after :
    (s : ℕ) (vec elts xs : List ℕ)
    → s + length vec + length elts ≤ length xs
    → window s (length vec) xs ≡ vec
    → window s (length (vec ++ elts)) (write (s + length vec) elts xs) ≡ vec ++ elts
window-write_after s vec elts xs inside before =
    let w = write (s + length vec) elts xs in
    let e : length (vec ++ elts) ≡ length vec + length elts = length-append vec elts in
    let long : length w ≡ length xs = length-write (s + length vec) elts xs inside in
    ap (λ (n : ℕ). window s n w) e
    ∙ (window_split s (length vec) (length elts) w (omega (arith, long, inside))
        ∙ (ap (λ (v : List ℕ). v ++ window (s + length vec) (length elts) w)
              (window-write s (length vec) (s + length vec) elts xs (omega arith)
                  (omega (arith, inside))
                ∙ before)
            ∙ ap (λ (v : List ℕ). vec ++ v)
                (window-write_self (s + length vec) elts xs (omega (arith, inside)))))

-- To set one element is to write a vector of one.
pub set-write : (i v : ℕ) (xs : List ℕ) → i < length xs → set xs i v ≡ write i (v ∷ []) xs
set-write i v [] h = absurd (omega (arith, h))
set-write zero v (x ∷ xs) h = refl
set-write (suc i) v (x ∷ xs) h =
    let e : suc i + 1 ≡ suc (i + 1) = omega arith in
    rw e (ap (◌∷◌ x) (set-write i v xs (omega (arith, h))))

pub length-resized :
    (n : ℕ) (xs : List ℕ) → (n ≤ length (resized n xs)) × (length xs ≤ length (resized n xs))
length-resized n xs = elim (Bool-cases (ltb (length xs) n)) [
  | inl short ↦ rw short (
    omega (
      arith,
      length-append xs (replicate (n + 128 - length xs) 0),
      length-replicate {A = ℕ} (n + 128 - length xs) 0,
    ),
    omega (arith, length-append xs (replicate (n + 128 - length xs) 0)),
  )
  | inr long ↦ rw long (ground (arith, long), omega arith)
]

pub window-resized :
    (a n size : ℕ) (xs : List ℕ) → a + n ≤ length xs → window a n (resized size xs) ≡ window a n xs
window-resized a n size xs h = elim (Bool-cases (ltb (length xs) size)) [
  | inl short ↦ rw short (window_left a n xs (replicate (size + 128 - length xs) 0) h)
  | inr long ↦ rw long refl
]

pub eq_of_same : (xs ys : List ℕ) → same xs ys ≡ true → xs ≡ ys
eq_of_same [] [] e = refl
eq_of_same [] (y ∷ ys) e = cc
eq_of_same (x ∷ xs) [] e = cc
eq_of_same (x ∷ xs) (y ∷ ys) e =
    let heads : x ≡ y = ground (arith, e) in
    let tails : xs ≡ ys = eq_of_same xs ys (ground (arith, e)) in rw (heads, tails) refl

pub same_refl : (xs : List ℕ) → same xs xs ≡ true
same_refl [] = refl
same_refl (x ∷ xs) = ground (arith, same_refl xs)
