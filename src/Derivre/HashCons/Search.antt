-- ===== src/Derivre/HashCons/Search.antt =====
-- The vectors that the store of controllers/derivre/src/hashcons.rs has, and the search for one of
-- them.
use aici.Prelude.{
  ℕ, zero, suc, ◌-◌, ◌≤◌, ◌<◌, ◌≡◌, ◌≢◌, refl, sym, ◌∙◌, ap, arith, ◌==◌, leb, true, false, ◌&&◌,
  Bool-cases, ◌⊎◌, inl, inr, none, some, List, [], ◌∷◌, ◌++◌, length, get_elem?, get_elem?-lt,
}
use aici.Derivre.HashCons.{Element, VecHashCons, window, slice, get, same, entry}
use aici.Derivre.HashCons.Windows.{eq_of_same, same_refl}
use aici.Derivre.HashCons.Inserting.{ids_below, Lies, IsValid, Inserting}

pub get_elem?-left :
    (xs ys : List Element) (i : ℕ) (e : Element)
    → get_elem? xs i ≡ some e
    → get_elem? (xs ++ ys) i ≡ some e
get_elem?-left [] ys i e h = cc
get_elem?-left (x ∷ xs) ys zero e h = h
get_elem?-left (x ∷ xs) ys (suc i) e h = get_elem?-left xs ys i e h

pub get_elem?-snoc :
    (xs : List Element) (a : Element) (i : ℕ) (e : Element)
    → get_elem? (xs ++ a ∷ []) i ≡ some e
    → (get_elem? xs i ≡ some e) ⊎ ((i ≡ length xs) × (e ≡ a))
get_elem?-snoc [] a zero e h = inr (refl, cc)
get_elem?-snoc [] a (suc i) e h = cc
get_elem?-snoc (x ∷ xs) a zero e h = inl h
get_elem?-snoc (x ∷ xs) a (suc i) e h = elim (get_elem?-snoc xs a i e h) [
  | inl old ↦ inl old
  | inr last ↦ inr (ap suc last.0, last.1)
]

-- The slice of a stored element.
pub slice-Lies :
    (e : Element) (xs : List ℕ)
    → e.backing_start ≤ e.backing_end
    → e.backing_end ≤ length xs
    → slice e xs ≡ some (window e.backing_start (e.backing_end - e.backing_start) xs)
slice-Lies e xs ordered inside =
    let both : (leb e.backing_start e.backing_end && leb e.backing_end (length xs)) ≡ true =
      ground (arith, ordered, inside) in
    rw both refl

pub get-Lies :
    (h : VecHashCons) (id : ℕ) (e : Element)
    → get_elem? h.elements id ≡ some e
    → Lies e h
    → get h id ≡ some (window e.backing_start (e.backing_end - e.backing_start) h.backing)
get-Lies h id e found l = rw found (slice-Lies e h.backing l.0 l.2)

-- What is pushed does not change the vectors that are stored.
pub get-Inserting :
    (h0 h : VecHashCons) (vec : List ℕ)
    → IsValid h0
    → Inserting h0 h vec
    → (id : ℕ) → id < length h0.elements
    → get h id ≡ get h0 id
get-Inserting h0 h vec v i id inside =
    let found = get_elem?-lt h0.elements id inside in
    let e = found.0 in
    let l = v.stored id e found.1 in
    let l' : Lies e h = (l.0, omega (arith, l.1, i.same_start), omega (arith, l.2, i.longer)) in
    get-Lies h id e (rw i.same_elements found.1) l'
    ∙ (ap (λ (w : List ℕ). some w)
          (i.kept e.backing_start (e.backing_end - e.backing_start) (omega (arith, l.0, l.1))
            (omega (arith, l.0, l.2)))
        ∙ sym (get-Lies h0 id e found.1 l))

-- How the search among the first ids ends.
pub data Search (h : VecHashCons) (vec : List ℕ) (n : ℕ) : Type 0 where
  at_id :
      (id : ℕ)
      → id < n
      → entry h vec (ids_below n) ≡ some (some id)
      → get h id ≡ some vec
      → Search h vec n
  nowhere :
      entry h vec (ids_below n) ≡ some none
      → ((id : ℕ) → id < n → get h id ≢ some vec)
      → Search h vec n

none_up_to :
    (h : VecHashCons) (vec : List ℕ) (n : ℕ) (v : List ℕ)
    → get h n ≡ some v
    → same v vec ≡ false
    → ((id : ℕ) → id < n → get h id ≢ some vec)
    → (id : ℕ) → id < suc n
    → get h id ≢ some vec
none_up_to h vec n v reads different none_below id below e = elim (Bool-cases (id == n)) [
  | inl here ↦
      let at_n : id ≡ n = ground (arith, here) in
      let equal : v ≡ vec = cc (reads, e, at_n) in
      let agree : same v vec ≡ true = rw equal (same_refl vec) in cc (agree, different)
  | inr elsewhere ↦ none_below id (ground (arith, elsewhere, below)) e
]

pub Search-ids_below :
    (h : VecHashCons) (vec : List ℕ) (n : ℕ)
    → ((id : ℕ) → id < n → (v : List ℕ) × (get h id ≡ some v))
    → Search h vec n
unfolding entry
Search-ids_below h vec zero stored = nowhere refl (λ id below _. omega (arith, below))
Search-ids_below h vec (suc n) stored =
    let top = stored n (omega arith) in
    elim (Bool-cases (same top.0 vec)) [
      | inl equal ↦
          at_id n (omega arith) (rw (top.1, equal) refl)
            (top.1 ∙ ap (λ (w : List ℕ). some w) (eq_of_same top.0 vec equal))
      | inr different ↦
          elim (Search-ids_below h vec n (λ id below. stored id (omega (arith, below)))) [
            | at_id id below e reads ↦
                at_id id (omega (arith, below)) (rw (top.1, different, e) refl) reads
            | nowhere e none_below ↦
                nowhere (rw (top.1, different, e) refl)
                  (none_up_to h vec n top.0 top.1 different none_below)
          ]
    ]
