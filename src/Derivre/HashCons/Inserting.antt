-- ===== src/Derivre/HashCons/Inserting.antt =====
-- The vector that is being inserted into the store of controllers/derivre/src/hashcons.rs.
use aici.Prelude.{
  ℕ, zero, suc, ◌+◌, ◌-◌, ◌%◌, ◌^◌, ◌≤◌, ◌<◌, ◌≡◌, refl, ◌∙◌, ap, arith, ◌==◌, ltb, leb, true,
  Bool-cases, ◌⊎◌, inl, inr, some, List, [], ◌∷◌, ◌++◌, length, get_elem?, length-append,
}
use aici.Derivre.HashCons.{
  Element, VecHashCons, window, get, start_insert, ensure_size, resized, push_u32, write,
  push_slice,
}
use aici.Derivre.HashCons.Windows.{
  window-write, window-write_after, length-write, set-write, length-resized, window-resized,
}

-- The ids below `n`, the last one first.
abbrev pub ids_below : ℕ → List ℕ
ids_below zero = []
ids_below (suc n) = n ∷ ids_below n

-- The elements lie below the place where the next one starts.
abbrev pub Lies : Element → VecHashCons → Type 0
Lies e h =
    (e.backing_start ≤ e.backing_end)
    × (e.backing_end ≤ h.curr_elt.backing_start)
    × (e.backing_end ≤ length h.backing)

pub record IsValid (h : VecHashCons) : Type 0 where
  pub idle : h.curr_elt.backing_end ≡ 0
  pub ids : h.table ≡ ids_below (length h.elements)
  pub stored : (id : ℕ) (e : Element) → get_elem? h.elements id ≡ some e → Lies e h
  pub distinct : (i j : ℕ) (vec : List ℕ) → get h i ≡ some vec → get h j ≡ some vec → i ≡ j

-- Between `start_insert` on `h0` and `finish_insert`, with the vector pushed so far.
pub record Inserting (h0 h : VecHashCons) (vec : List ℕ) : Type 0 where
  pub same_elements : h.elements ≡ h0.elements
  pub same_table : h.table ≡ h0.table
  pub same_start : h.curr_elt.backing_start ≡ h0.curr_elt.backing_start
  pub end_at : h.curr_elt.backing_end ≡ h0.curr_elt.backing_start + length vec
  pub room : (length vec ≡ 0) ⊎ (h.curr_elt.backing_end ≤ length h.backing)
  pub longer : length h0.backing ≤ length h.backing
  pub written : window h0.curr_elt.backing_start (length vec) h.backing ≡ vec
  pub kept :
      (a n : ℕ)
      → a + n ≤ h0.curr_elt.backing_start
      → a + n ≤ length h0.backing
      → window a n h.backing ≡ window a n h0.backing

pub start_insert-Inserting :
    (h : VecHashCons)
    → h.curr_elt.backing_end ≡ 0
    → (h1 : VecHashCons) × (start_insert h ≡ some h1) × Inserting h h1 []
unfolding start_insert
start_insert-Inserting h idle = (
  record h {
    curr_elt = record {
      backing_start = h.curr_elt.backing_start;
      backing_end = h.curr_elt.backing_start;
    };
  },
  rw idle refl,
  record {
    same_elements = refl;
    same_table = refl;
    same_start = refl;
    end_at = omega arith;
    room = inl refl;
    longer = omega arith;
    written = refl;
    kept = λ a n _ _. refl;
  },
)

-- Where the pushed vector has room, it is still there when the backing grows.
written-resized :
    (h0 h : VecHashCons) (vec : List ℕ) (size : ℕ)
    → Inserting h0 h vec
    → window h0.curr_elt.backing_start (length vec) (resized size h.backing) ≡ vec
written-resized h0 h [] size i = refl
written-resized h0 h (x ∷ vec) size i = elim i.room [
  | inl empty ↦ absurd (omega (arith, empty))
  | inr fits ↦
      window-resized h0.curr_elt.backing_start (length (x ∷ vec)) size h.backing
        (omega (arith, fits, i.end_at))
      ∙ i.written
]

pub push_slice-Inserting :
    (h0 h : VecHashCons) (vec elts : List ℕ)
    → Inserting h0 h vec
    → h0.curr_elt.backing_start + length vec + length elts < 2 ^ 32
    → (h1 : VecHashCons) × (push_slice h elts ≡ some h1)
      × Inserting h0 h1 (vec ++ elts)
      × (h1.curr_elt.backing_end ≤ length h1.backing)
unfolding push_slice ensure_size
push_slice-Inserting h0 h vec elts i small =
    let start = h0.curr_elt.backing_start in
    let stop = h.curr_elt.backing_end in
    let stop' = stop + length elts in
    let no_wrap : stop' % 2 ^ 32 ≡ stop' = omega (arith, i.end_at, small) in
    let grown = resized stop' h.backing in
    let long : (stop' ≤ length grown) × (length h.backing ≤ length grown) =
      length-resized stop' h.backing in
    let ordered : leb h.curr_elt.backing_start stop' ≡ true =
      ground (arith, i.end_at, i.same_start) in
    let agrees : (stop' == stop') ≡ true = ground arith in
    let same_length : length (write stop elts grown) ≡ length grown =
      length-write stop elts grown long.0 in
    (
      record h {
        backing = write stop elts grown;
        curr_elt = record { backing_start = h.curr_elt.backing_start; backing_end = stop' };
      },
      rw (no_wrap, ordered, agrees) refl,
      record {
        same_elements = i.same_elements;
        same_table = i.same_table;
        same_start = i.same_start;
        end_at = omega (arith, i.end_at, length-append vec elts);
        room = inr (omega (arith, same_length, long.0));
        longer = omega (arith, same_length, long.1, i.longer);
        written =
            ap (λ (k : ℕ). window start (length (vec ++ elts)) (write k elts grown)) i.end_at
            ∙ window-write_after start vec elts grown (omega (arith, long.0, i.end_at))
                (written-resized h0 h vec stop' i);
        kept = λ a n before inside.
            window-write a n stop elts grown (omega (arith, before, i.end_at))
              (omega (arith, long.0))
            ∙ (window-resized a n stop' h.backing (omega (arith, inside, i.longer))
                ∙ i.kept a n before inside);
      },
      omega (arith, same_length, long.0),
    )

-- One element is pushed as a slice of one.
pub push_u32-slice :
    (h : VecHashCons) (head : ℕ)
    → h.curr_elt.backing_end + 1 < 2 ^ 32
    → push_u32 h head ≡ push_slice h (head ∷ [])
unfolding push_u32 push_slice ensure_size
push_u32-slice h head small =
    let stop = h.curr_elt.backing_end in
    let no_wrap : (stop + 1) % 2 ^ 32 ≡ stop + 1 = omega (arith, small) in
    let grown = resized (stop + 1) h.backing in
    let long : (stop + 1 ≤ length grown) × (length h.backing ≤ length grown) =
      length-resized (stop + 1) h.backing in
    elim (Bool-cases (leb h.curr_elt.backing_start (stop + 1))) [
      | inl ordered ↦
          let positive : ltb 0 (stop + 1) ≡ true = ground arith in
          let agrees : (stop + 1 == stop + 1) ≡ true = ground arith in
          let back : (stop + 1) - 1 ≡ stop = omega arith in
          rw (no_wrap, ordered, positive, agrees, back)
            (ap
              (λ (b : List ℕ). some (record h {
                backing = b;
                curr_elt = record {
                  backing_start = h.curr_elt.backing_start;
                  backing_end = stop + 1;
                };
              }))
              (set-write stop head grown (omega (arith, long.0))))
      | inr unordered ↦ rw (no_wrap, unordered) refl
    ]
