-- ===== src/Variables/Laws.antt =====
-- What the commands of controllers/aici_native/src/variables.rs promise to concurrent sequences.
use aici.Prelude.{
  ℕ, ◌+◌, ◌%◌, ◌^◌, ◌≡◌, refl, sym, ap, ◌∙◌, arith, ◌==◌, ==_refl, Bool, true, false, Option, none,
  some, List, [], ◌∷◌, if◌then◌else◌, Bool-cases, inl, inr,
}
use aici.Variables.{
  same_name, Store, get, put, StorageOp, read_var, write_var, read, written, read_resp, combine,
  write_var_to, process_cmd,
}

same_name_refl : (xs : List ℕ) → same_name xs xs ≡ true
same_name_refl [] = refl
same_name_refl (x ∷ xs) = ground (arith, same_name_refl xs, ==_refl x)

same_name_eq : (xs ys : List ℕ) → same_name xs ys ≡ true → xs ≡ ys
same_name_eq [] [] h = refl
same_name_eq [] (y ∷ ys) h = cc h
same_name_eq (x ∷ xs) [] h = cc h
same_name_eq (x ∷ xs) (y ∷ ys) h =
    let head : x ≡ y = ground arith in
    let tail : xs ≡ ys = same_name_eq xs ys (ground arith) in rw (head, tail)

-- A name that is equal to one of two is equal to the other just when these are equal.
same_name_trans : (a b c : List ℕ) → same_name a b ≡ true → same_name a c ≡ same_name b c
same_name_trans a b c h = rw (same_name_eq a b h)

same_name-other :
    (k name other : List ℕ)
    → same_name k name ≡ false
    → same_name k other ≡ true
    → same_name name other ≡ false
same_name-other k name other differ is_other = elim (Bool-cases (same_name name other)) [
  | inl same ↦
      let name_other : name ≡ other = same_name_eq name other same in
      absurd (cc (sym differ ∙ ap (same_name k) name_other ∙ is_other))
  | inr differs_too ↦ differs_too
]

get-put :
    (name other : List ℕ) (v : ℕ × List ℕ) (s : Store)
    → get other (put name v s) ≡ (if same_name name other then some v else get other s)
get-put name other v [] = refl
get-put name other v ((k, u) ∷ s) = elim (Bool-cases (same_name k name)) [
  | inl same ↦ rw (same, same_name_trans k name other same) (ground arith)
  | inr differ ↦ elim (Bool-cases (same_name k other)) [
    | inl is_other ↦ rw (differ, is_other, same_name-other k name other differ is_other) refl
    | inr not_other ↦ rw (differ, not_other) (get-put name other v s)
  ]
]

-- What a write stores, by what the variable was.
abbrev pub new_value : StorageOp → List ℕ → Option (ℕ × List ℕ) → List ℕ
new_value op value none = value
new_value op value (some (version, prev_val)) = combine op prev_val value

abbrev pub new_version : Option (ℕ × List ℕ) → ℕ
new_version none = 1
new_version (some (version, prev_val)) = (version + 1) % 2 ^ 64

-- A write is done unless it names a version that the variable does not have.
abbrev pub may_write : Option ℕ → Option (ℕ × List ℕ) → Bool
may_write none current = true
may_write (some v) none = false
may_write (some v) (some (version, value)) = v == version

module _ (s : Store) (name value : List ℕ) (op : StorageOp) where
  write_var-done :
      (when : Option ℕ) (current : Option (ℕ × List ℕ))
      → may_write when current ≡ true
      → write_var_to s name value when op current ≡ (
        written (new_version current),
        put name (new_version current, new_value op value current) s,
      )
  write_var-done none none h = refl
  write_var-done none (some (version, prev_val)) h = refl
  write_var-done (some v) none h = cc h
  write_var-done (some v) (some (version, prev_val)) h = rw h refl

  write_var-refused :
      (when : Option ℕ) (current : Option (ℕ × List ℕ))
      → may_write when current ≡ false
      → write_var_to s name value when op current ≡ (read_resp current, s)
  write_var-refused none current h = cc h
  write_var-refused (some v) none h = refl
  write_var-refused (some v) (some (version, prev_val)) h = rw h refl

read_resp-if :
    (b : Bool) (v : ℕ × List ℕ) (o : Option (ℕ × List ℕ))
    → read_resp (if b then some v else o) ≡ (if b then read v.0 v.1 else read_resp o)
read_resp-if true v o = refl
read_resp-if false v o = refl

-- A write that names no version, or the version that the variable has, is done: it returns the
-- version 1 for a new variable and the next version, modulo 2 ^ 64, for another, and after it a
-- read of the variable gives that version with the value written or appended, while a read of
-- any other name gives what it gave before.
pub write-read :
    (s : Store) (name value : List ℕ) (when : Option ℕ) (op : StorageOp) (other : List ℕ)
    → may_write when (get name s) ≡ true
    → (s' : Store) × (process_cmd s (write_var name value when op)
        ≡ (written (new_version (get name s)), s'))
      × ((process_cmd s' (read_var other)).0 ≡ (
          if same_name name other
          then read (new_version (get name s)) (new_value op value (get name s))
          else (process_cmd s (read_var other)).0))
unfolding process_cmd
write-read s name value when op other may =
    let current = get name s in
    let stored : ℕ × List ℕ = (new_version current, new_value op value current) in
    (
      put name stored s,
      write_var-done s name value op when current may,
      ap read_resp (get-put name other stored s)
          ∙ read_resp-if (same_name name other) stored (get other s),
    )

-- A write that names a version which the variable does not have, or a version of a missing
-- variable, does just what a read of the variable does: it leaves the store and returns the
-- present version and value, or that the variable is missing.
pub write-conflict :
    (s : Store) (name value : List ℕ) (when : Option ℕ) (op : StorageOp)
    → may_write when (get name s) ≡ false
    → process_cmd s (write_var name value when op) ≡ process_cmd s (read_var name)
unfolding process_cmd
write-conflict s name value when op may_not =
    write_var-refused s name value op when (get name s) may_not

new_version_ne :
    (v : ℕ) (current : Option (ℕ × List ℕ))
    → may_write (some v) current ≡ true
    → (v == new_version current) ≡ false
new_version_ne v none h = cc h
new_version_ne v (some (version, value)) h = ground arith

-- Of two writes one after the other that name the same version of a variable, where the variable
-- has this version before them, the first is done, and the second does just what a read does, so
-- what the first wrote is not lost.
pub write-write :
    (s : Store) (name : List ℕ) (v : ℕ) (value value' : List ℕ) (op op' : StorageOp)
    → may_write (some v) (get name s) ≡ true
    → (version : ℕ) × (s' : Store) × (process_cmd s (write_var name value (some v) op)
        ≡ (written version, s'))
      × (process_cmd s' (write_var name value' (some v) op') ≡ process_cmd s' (read_var name))
unfolding process_cmd
write-write s name v value value' op op' may =
    let current = get name s in
    let stored : ℕ × List ℕ = (new_version current, new_value op value current) in
    let now : get name (put name stored s) ≡ some stored =
      get-put name name stored s ∙ rw (same_name_refl name) refl in
    (
      new_version current,
      put name stored s,
      write_var-done s name value op (some v) current may,
      write-conflict (put name stored s) name value' (some v) op'
          (ap (may_write (some v)) now ∙ new_version_ne v current may),
    )
