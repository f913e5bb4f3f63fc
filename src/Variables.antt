-- ===== src/Variables.antt =====
-- `Variables` of controllers/aici_native/src/variables.rs: the store of versioned variables that the
-- sequences share. A name is the list of its bytes, and the hash map an association list.
pub mod Laws
mod Examples
use aici.Prelude.{
  ℕ, ◌+◌, ◌%◌, ◌^◌, ◌==◌, Bool, true, false, ◌&&◌, Option, none, some, List, [], ◌∷◌, ◌++◌,
  if◌then◌else◌,
}

abbrev pub same_name : List ℕ → List ℕ → Bool
same_name [] [] = true
same_name [] (y ∷ ys) = false
same_name (x ∷ xs) [] = false
same_name (x ∷ xs) (y ∷ ys) = x == y && same_name xs ys

-- The version and the value of each variable.
abbrev pub Store : Type 0
Store = List (List ℕ × (ℕ × List ℕ))

abbrev pub get : List ℕ → Store → Option (ℕ × List ℕ)
get name [] = none
get name ((k, v) ∷ s) = if same_name k name then some v else get name s

abbrev pub put : List ℕ → ℕ × List ℕ → Store → Store
put name v [] = (name, v) ∷ []
put name v ((k, u) ∷ s) = if same_name k name then (k, v) ∷ s else (k, u) ∷ put name v s

pub data StorageOp : Type 0 where
  append set : StorageOp

pub data StorageCmd : Type 0 where
  read_var : List ℕ → StorageCmd
  -- The name, the value, `when_version_is` and the operation.
  write_var : List ℕ → List ℕ → Option ℕ → StorageOp → StorageCmd

pub data StorageResp : Type 0 where
  -- The version comes first.
  read : ℕ → List ℕ → StorageResp
  variable_missing : StorageResp
  written : ℕ → StorageResp

abbrev pub read_resp : Option (ℕ × List ℕ) → StorageResp
read_resp none = variable_missing
read_resp (some (version, value)) = read version value

abbrev pub combine : StorageOp → List ℕ → List ℕ → List ℕ
combine append prev_val value = prev_val ++ value
combine set prev_val value = value

-- `Some(v) if v != prev_version`.
abbrev pub differs : Option ℕ → ℕ → Bool
differs none prev_version = false
differs (some v) prev_version = if v == prev_version then false else true

abbrev pub write_existing :
    Store → List ℕ → List ℕ → Option ℕ → StorageOp → ℕ → List ℕ → StorageResp × Store
write_existing s name value when_version_is op prev_version prev_val =
    if differs when_version_is prev_version then (read prev_version prev_val, s) else (
      written ((prev_version + 1) % 2 ^ 64),
      put name ((prev_version + 1) % 2 ^ 64, combine op prev_val value) s,
    )

abbrev pub write_missing : Store → List ℕ → List ℕ → Option ℕ → StorageResp × Store
write_missing s name value none = (written 1, put name (1, value) s)
write_missing s name value (some v) = (variable_missing, s)

abbrev pub write_var_to :
    Store → List ℕ → List ℕ → Option ℕ → StorageOp → Option (ℕ × List ℕ) → StorageResp × Store
write_var_to s name value when_version_is op none = write_missing s name value when_version_is
write_var_to s name value when_version_is op (some (prev_version, prev_val)) =
    write_existing s name value when_version_is op prev_version prev_val

unfoldable pub process_cmd : Store → StorageCmd → StorageResp × Store
process_cmd s (read_var name) = (read_resp (get name s), s)
process_cmd s (write_var name value when_version_is op) =
    write_var_to s name value when_version_is op (get name s)
