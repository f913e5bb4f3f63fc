-- ===== src/Variables/Examples.antt =====
-- A store with one variable, on which the theorems about controllers/aici_native/src/variables.rs
-- apply.
use aici.Prelude.{ℕ, ◌≡◌, refl, [], ◌∷◌, some}
use aici.Variables.{Store, append, set, read_var, write_var, read, written, process_cmd}
use aici.Variables.Laws.{write-read, write-conflict, write-write}

-- The variable `x`, at version 3.
abbrev one_variable : Store
one_variable = ((120 ∷ []), (3, 7 ∷ [])) ∷ []

write-read_example :
    (s' : Store) × (process_cmd one_variable (write_var (120 ∷ []) (8 ∷ []) (some 3) append)
      ≡ (written 4, s'))
    × ((process_cmd s' (read_var (120 ∷ []))).0 ≡ read 4 (7 ∷ 8 ∷ []))
write-read_example = write-read one_variable (120 ∷ []) (8 ∷ []) (some 3) append (120 ∷ []) refl

write-conflict_example :
    process_cmd one_variable (write_var (120 ∷ []) (8 ∷ []) (some 2) set)
    ≡ process_cmd one_variable (read_var (120 ∷ []))
write-conflict_example = write-conflict one_variable (120 ∷ []) (8 ∷ []) (some 2) set refl

write-write_example :
    (version : ℕ) × (s' : Store) × (process_cmd one_variable
        (write_var (120 ∷ []) (8 ∷ []) (some 3) set)
      ≡ (written version, s'))
    × (process_cmd s' (write_var (120 ∷ []) (9 ∷ []) (some 3) append)
        ≡ process_cmd s' (read_var (120 ∷ [])))
write-write_example = write-write one_variable (120 ∷ []) 3 (8 ∷ []) (9 ∷ []) set append refl
