-- ===== src/Derivre/HashCons/Laws.antt =====
-- The store of controllers/derivre/src/hashcons.rs keeps each vector under one id.
use aici.Prelude.{
  ℕ, suc, ◌+◌, ◌-◌, ◌^◌, ◌≤◌, ◌<◌, ◌≡◌, ◌≢◌, refl, sym, ◌∙◌, ap, arith, ◌⊎◌, inl, inr, Option, none,
  some, List, [], ◌∷◌, ◌++◌, length, get_elem?, ◌>>=◌, length-append, get_elem?-lt, lt_of_get_elem?,
  get_elem?-middle,
}
use aici.Derivre.HashCons.{
  Element, VecHashCons, new, window, slice, get, entry, vacant, occupied, finish_insert, insert,
}
use aici.Derivre.HashCons.Inserting.{
  ids_below, Lies, IsValid, Inserting, start_insert-Inserting, push_slice-Inserting,
}
use aici.Derivre.HashCons.Search.{
  get_elem?-left, get_elem?-snoc, slice-Lies, get-Lies, get-Inserting, at_id, nowhere,
  Search-ids_below,
}

-- The vector is in the store under the id, and the other vectors are where they were.
pub record Interned (h : VecHashCons) (vec : List ℕ) (id : ℕ) (h' : VecHashCons) : Type 0 where
  pub valid : IsValid h'
  pub reads : get h' id ≡ some vec
  pub keeps : (j : ℕ) (v : List ℕ) → j < length h.elements → get h j ≡ some v → get h' j ≡ some v
  pub size :
      ((id < length h.elements) × (length h'.elements ≡ length h.elements))
      ⊎ ((id ≡ length h.elements) × (length h'.elements ≡ suc (length h.elements)))

pub bind_some :
    {A B : Type 0} (m : Option A) (f : A → Option B) (b : B)
    → (m >>= f) ≡ some b
    → (a : A) × (m ≡ some a) × (f a ≡ some b)
bind_some none f b e = cc
bind_some (some a) f b e = (a, refl, e)

pub lt_of_get :
    (h : VecHashCons) (id : ℕ) (vec : List ℕ) → get h id ≡ some vec → id < length h.elements
lt_of_get h id vec e =
    let found = bind_some (get_elem? h.elements id) (λ x. slice x h.backing) vec e in
    lt_of_get_elem? h.elements id found.0 found.1

module _ (h0 h : VecHashCons) (vec : List ℕ) (v : IsValid h0) (i : Inserting h0 h vec) where
  same_length : length h.elements ≡ length h0.elements
  same_length = ap length i.same_elements

  get-inside : (id : ℕ) (w : List ℕ) → get h id ≡ some w → get h0 id ≡ some w
  get-inside id w e =
      sym (get-Inserting h0 h vec v i id (omega (arith, same_length, lt_of_get h id w e))) ∙ e

  occupied-Interned :
      (id : ℕ)
      → id < length h0.elements
      → get h id ≡ some vec
      → Interned h0 vec id (occupied h id).1
  occupied-Interned id below reads = record {
    valid = record {
      idle = refl;
      ids = i.same_table ∙ (v.ids ∙ ap ids_below (sym same_length));
      stored = λ j e found.
          let l = v.stored j e (rw (← i.same_elements) found) in
          (l.0, omega (arith, l.1, i.same_start), omega (arith, l.2, i.longer));
      distinct = λ j k w ej ek. v.distinct j k w (get-inside j w ej) (get-inside k w ek);
    };
    reads = reads;
    keeps = λ j w inside e. get-Inserting h0 h vec v i j inside ∙ e;
    size = inl (below, same_length);
  }

  current_slice : h.curr_elt.backing_end ≤ length h.backing → slice h.curr_elt h.backing ≡ some vec
  current_slice full =
      let n : h.curr_elt.backing_end - h.curr_elt.backing_start ≡ length vec =
        omega (arith, i.end_at, i.same_start) in
      slice-Lies h.curr_elt h.backing (omega (arith, i.end_at, i.same_start)) full
      ∙ ap (λ (w : List ℕ). some w)
          (ap (λ (k : ℕ). window h.curr_elt.backing_start k h.backing) n
            ∙ (ap (λ (k : ℕ). window k (length vec) h.backing) i.same_start ∙ i.written))

  module _ (full : h.curr_elt.backing_end ≤ length h.backing)
      (missing_before : (id : ℕ) → id < length h0.elements → get h id ≢ some vec) where
    vacant-reads : get (vacant h).1 (length h.elements) ≡ some vec
    vacant-reads =
        let found : get_elem? (h.elements ++ h.curr_elt ∷ []) (length h.elements)
            ≡ some h.curr_elt =
          get_elem?-middle h.elements [] h.curr_elt (length h.elements) refl in
        rw found (current_slice full)

    vacant-keeps : (j : ℕ) (w : List ℕ) → get h j ≡ some w → get (vacant h).1 j ≡ some w
    vacant-keeps j w e =
        let found = bind_some (get_elem? h.elements j) (λ x. slice x h.backing) w e in
        let left = get_elem?-left h.elements (h.curr_elt ∷ []) j found.0 found.1 in rw left found.2

    get-vacant :
        (j : ℕ) (w : List ℕ)
        → get (vacant h).1 j ≡ some w
        → (get h0 j ≡ some w) ⊎ ((j ≡ length h.elements) × (w ≡ vec))
    get-vacant j w e =
        let f =
          bind_some (get_elem? (h.elements ++ h.curr_elt ∷ []) j) (λ x. slice x h.backing) w e in
        elim (get_elem?-snoc h.elements h.curr_elt j f.0 f.1) [
          | inl old ↦ inl (get-inside j w (rw old f.2))
          | inr last ↦
              let at_end : slice h.curr_elt h.backing ≡ some w = rw (← last.1) f.2 in
              inr (last.0, cc (at_end, current_slice full))
        ]

    -- The new vector is under no other id.
    not_before : (j : ℕ) → get h0 j ≢ some vec
    not_before j e =
        let inside = lt_of_get h0 j vec e in
        missing_before j inside (get-Inserting h0 h vec v i j inside ∙ e)

    vacant-distinct :
        (j k : ℕ) (w : List ℕ) → get (vacant h).1 j ≡ some w → get (vacant h).1 k ≡ some w → j ≡ k
    vacant-distinct j k w ej ek = elim (get-vacant j w ej) [
      | inl old_j ↦ elim (get-vacant k w ek) [
        | inl old_k ↦ v.distinct j k w old_j old_k
        | inr new_k ↦ absurd (not_before j (old_j ∙ ap (λ (x : List ℕ). some x) new_k.1))
      ]
      | inr new_j ↦ elim (get-vacant k w ek) [
        | inl old_k ↦ absurd (not_before k (old_k ∙ ap (λ (x : List ℕ). some x) new_j.1))
        | inr new_k ↦ new_j.0 ∙ sym new_k.0
      ]
    ]

    vacant-stored :
        (j : ℕ) (e : Element)
        → get_elem? (h.elements ++ h.curr_elt ∷ []) j ≡ some e
        → Lies e (vacant h).1
    vacant-stored j e found = elim (get_elem?-snoc h.elements h.curr_elt j e found) [
      | inl old ↦
          let l = v.stored j e (rw (← i.same_elements) old) in
          (l.0, omega (arith, l.1, i.end_at), omega (arith, l.2, i.longer))
      | inr last ↦ rw last.1 (omega (arith, i.end_at, i.same_start), omega arith, full)
    ]

    vacant-Interned : Interned h0 vec (length h.elements) (vacant h).1
    vacant-Interned =
        let longer : length (h.elements ++ h.curr_elt ∷ []) ≡ suc (length h.elements) =
          omega (arith, length-append h.elements (h.curr_elt ∷ [])) in
        record {
          valid = record {
            idle = refl;
            ids =
                rw (longer, i.same_table, v.ids)
                  (ap (λ (n : ℕ). length h.elements ∷ ids_below n) (sym same_length));
            stored = vacant-stored;
            distinct = vacant-distinct;
          };
          reads = vacant-reads;
          keeps = λ j w inside e. vacant-keeps j w (get-Inserting h0 h vec v i j inside ∙ e);
          size = inr (same_length, omega (arith, longer, same_length));
        }

  get-some : (id : ℕ) → id < length h0.elements → (w : List ℕ) × (get h id ≡ some w)
  get-some id below =
      let e = get_elem?-lt h0.elements id below in
      (_, get-Inserting h0 h vec v i id below ∙ get-Lies h0 id e.0 e.1 (v.stored id e.0 e.1))

  pub finish_insert-Interned :
      h.curr_elt.backing_end ≤ length h.backing
      → (id : ℕ) × (h' : VecHashCons) × (finish_insert h ≡ some (id, h')) × Interned h0 vec id h'
  unfolding finish_insert entry
  finish_insert-Interned full =
      let in_table : h.table ≡ ids_below (length h0.elements) = i.same_table ∙ v.ids in
      elim (Search-ids_below h vec (length h0.elements) get-some) [
        | at_id id below e reads ↦ (
          id,
          (occupied h id).1,
          rw (current_slice full, in_table, e) refl,
          occupied-Interned id below reads,
        )
        | nowhere e none_below ↦ (
          length h.elements,
          (vacant h).1,
          rw (current_slice full, in_table, e) refl,
          vacant-Interned full none_below,
        )
      ]

-- On a valid store, `insert` of a vector that ends below 2 ^ 32 returns a valid store, in which
-- the vector is under the returned id and the others are under theirs; the id is one of before,
-- and the number of vectors the same, or the id is the next one.
pub insert-Interned :
    (h : VecHashCons) (vec : List ℕ)
    → IsValid h
    → h.curr_elt.backing_start + length vec < 2 ^ 32
    → (id : ℕ) × (h' : VecHashCons) × (insert h vec ≡ some (id, h')) × Interned h vec id h'
unfolding insert
insert-Interned h vec v small =
    let started = start_insert-Inserting h v.idle in
    let pushed = push_slice-Inserting h started.0 [] vec started.2 (omega (arith, small)) in
    let ended = finish_insert-Interned h pushed.0 vec v pushed.2 pushed.3 in
    (ended.0, ended.1, rw (started.1, pushed.1) ended.2, ended.3)

pub new-IsValid : IsValid new
unfolding new
new-IsValid = record {
  idle = refl;
  ids = refl;
  stored = λ id e found. cc found;
  distinct = λ i j vec e. absurd (cc e);
}
