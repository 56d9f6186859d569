-- ===== src/Ocalls.antt =====
-- The calls out of the worker's enclave, on the side of the host: enigma-core/app/src/esgx/ocalls_u.rs,
-- over the database and an LRU cache. `db_ptr` points to the database.
pub mod Calls
pub mod Reference
pub mod Splitting
pub mod Reading
pub mod Refinement
pub mod Stored
use Prim.Native.String.{String}
use enigma_core.Prelude.{
  ℕ, ◌+◌, ◌-◌, ◌%◌, ◌^◌, Bool, true, false, Option, none, some, List, [], ◌∷◌, ◌++◌, map, length,
  drop, ltb, ◌==◌, if◌then◌else◌, to_be_bytes, Outcome, ok, err, panic,
}
use enigma_core.Errors.{EnclaveError}
use enigma_core.Errors.Codes.{EnclaveReturn, success, ocall_error, ocall_db_error}
use enigma_core.Exec.{Run, check, lift, pure, modify, ◌>>=◌, ◌>>◌}
use enigma_core.Database.{DbError, db_err, Rocks, Hex}
use enigma_core.Database.Key.{Stype, DeltaKey, delta_key, delta, state}
use enigma_core.Database.Crud as Crud
use enigma_core.Database.Queries as Db
use enigma_core.Database.Queries.{ResultType, full, partial, nothing}

-- `LruCache` of another crate.
pub record Lru (C : Type 0) : Type 0 where
  pub insert : List ℕ → List (List ℕ) → C → C
  pub remove : List ℕ → C → Option (List (List ℕ)) × C

-- The database of the host, and `DELTAS_CACHE`.
pub record Backing (D C : Type 0) : Type 0 where
  pub database : D
  pub deltas_cache : C

-- `crosses` says whether a call gets to the host and back.
pub record OcallCrates (D C : Type 0) : Type 0 where
  pub rocks : Rocks D
  pub hex : Hex
  pub lru : Lru C
  pub sha256 : List ℕ → List ℕ
  pub crosses : String → Backing D C → Bool

-- An ocall leaves no error of its own, but it may panic.
abbrev pub Ocall : Type 0 → Type 0 → Type 0 → Type 0
Ocall D C = Run EnclaveError (Backing D C)

abbrev pub key_of : List ℕ → Stype → DeltaKey
key_of address key_type = record { contract_address = address; key_type = key_type }

-- The length of `start..end`, whose subtraction wraps.
abbrev pub span : ℕ → ℕ → ℕ
span start end = (end + 2 ^ 32 - start) % 2 ^ 32

-- `write_ptr`: the source goes to the start of the buffer; a longer source panics.
unfoldable pub write_ptr : List ℕ → List ℕ → Outcome EnclaveError (List ℕ)
write_ptr src buffer =
    if ltb (length buffer) (length src) then panic else ok (src ++ drop (length src) buffer)

abbrev pub code_of : Outcome DbError (Unit {0}) → Outcome EnclaveError (EnclaveReturn × Unit {0})
code_of (ok u) = ok (success, tt)
code_of (err e) = ok (ocall_db_error, tt)
code_of panic = panic

-- A missing key counts as removed.
abbrev pub removal_code :
    Outcome DbError (Unit {0}) → Outcome EnclaveError (EnclaveReturn × Unit {0})
removal_code (ok u) = ok (success, tt)
removal_code (err (db_err command kind)) = ok (success, tt)
removal_code (err _) = ok (ocall_db_error, tt)
removal_code panic = panic

abbrev pub values : List (DeltaKey × List ℕ) → List (List ℕ)
values kvs = map (λ kv. kv.1) kvs

-- The deltas that were found; `none` for an error and for no deltas at all.
abbrev pub deltas_of :
    Outcome DbError (ResultType (List (DeltaKey × List ℕ)))
    → Outcome EnclaveError (Option (List (List ℕ)))
deltas_of (ok (full deltas)) = ok (some (values deltas))
deltas_of (ok (partial deltas)) = ok (some (values deltas))
deltas_of (ok nothing) = ok none
deltas_of (err e) = ok none
deltas_of panic = panic

unfoldable pub flatten : List (List ℕ) → List ℕ
flatten [] = []
flatten (x ∷ xs) = x ++ flatten xs

abbrev pub state_id : List ℕ → ℕ → List ℕ
state_id addr size = addr ++ to_be_bytes 8 size

abbrev pub deltas_id : List ℕ → ℕ → ℕ → List ℕ
deltas_id addr start end = (addr ++ to_be_bytes 4 start) ++ to_be_bytes 4 end

module _ {D C : Type 0} (c : OcallCrates D C) where
  abbrev pub write_database :
      (D → Outcome DbError (Unit {0}) × D) → Ocall D C (Outcome DbError (Unit {0}))
  write_database action st =
      let (result, db) = action st.database in (ok result, record st { database = db })

  unfoldable pub ocall_update_state : List ℕ → List ℕ → Ocall D C (EnclaveReturn × Unit {0})
  ocall_update_state id enc_state =
      write_database (Crud.force_update c.rocks (delta_key c.hex) (key_of id state) enc_state)
      >>= λ result. lift (code_of result)

  unfoldable pub ocall_new_delta : List ℕ → List ℕ → ℕ → Ocall D C (EnclaveReturn × Unit {0})
  ocall_new_delta enc_delta contract_address delta_index =
      write_database (
        Crud.force_update c.rocks (delta_key c.hex) (key_of contract_address (delta delta_index))
          enc_delta)
      >>= λ result. lift (code_of result)

  unfoldable pub ocall_remove_delta : List ℕ → ℕ → Ocall D C (EnclaveReturn × Unit {0})
  ocall_remove_delta contract_address delta_index =
      write_database
        (Crud.delete c.rocks (delta_key c.hex) (key_of contract_address (delta delta_index)))
      >>= λ result. lift (removal_code result)

  abbrev pub keep_cached : List ℕ → List (List ℕ) → Ocall D C (Unit {0})
  keep_cached id contents =
      modify
        (λ st. record st { deltas_cache = c.lru.insert (c.sha256 id) contents st.deltas_cache })

  abbrev pub take_cached : List ℕ → Ocall D C (Option (List (List ℕ)))
  take_cached id st =
      let (found, left) = c.lru.remove (c.sha256 id) st.deltas_cache in
      (ok found, record st { deltas_cache = left })

  abbrev pub read_state : List ℕ → D → Outcome DbError (List ℕ)
  read_state addr db = Crud.read c.rocks (delta_key c.hex) (key_of addr state) db

  abbrev pub size_answer : List ℕ → Outcome DbError (List ℕ) → Ocall D C (EnclaveReturn × ℕ)
  size_answer addr (ok s) =
      keep_cached (state_id addr (length s)) (s ∷ []) >>= λ _. pure (success, length s)
  size_answer addr (err e) = pure (ocall_db_error, 0)
  size_answer addr panic = lift panic

  -- The state goes to the cache until it is fetched.
  unfoldable pub ocall_get_state_size : List ℕ → Ocall D C (EnclaveReturn × ℕ)
  ocall_get_state_size addr = check (λ st. ok (read_state addr st.database)) >>= size_answer addr

  abbrev pub copied : List ℕ → List ℕ → Ocall D C (EnclaveReturn × List ℕ)
  copied src buffer = lift (write_ptr src buffer) >>= λ buf. pure (success, buf)

  abbrev pub read_answer : List ℕ → Outcome DbError (List ℕ) → Ocall D C (EnclaveReturn × List ℕ)
  read_answer buffer (ok s) = copied s buffer
  read_answer buffer (err e) = pure (ocall_db_error, buffer)
  read_answer buffer panic = lift panic

  -- `state[0]` panics where the entry is empty.
  abbrev pub state_answer :
      List ℕ → List ℕ → Option (List (List ℕ)) → Ocall D C (EnclaveReturn × List ℕ)
  state_answer addr buffer (some (s ∷ _)) = copied s buffer
  state_answer addr buffer (some []) = lift panic
  state_answer addr buffer none =
      check (λ st. ok (read_state addr st.database)) >>= read_answer buffer

  unfoldable pub ocall_get_state : List ℕ → List ℕ → Ocall D C (EnclaveReturn × List ℕ)
  ocall_get_state addr buffer =
      take_cached (state_id addr (length buffer)) >>= state_answer addr buffer

  -- `get_deltas` of the database.
  abbrev pub find_deltas : List ℕ → ℕ → ℕ → D → Outcome EnclaveError (Option (List (List ℕ)))
  find_deltas addr start end db = deltas_of (
      Db.get_deltas c.rocks c.hex (delta_key c.hex) (key_of addr (delta start))
        (key_of addr (delta end)) db)

  abbrev pub sizes_answer :
      List ℕ → List ℕ → Option (List (List ℕ)) → Ocall D C (EnclaveReturn × List ℕ)
  sizes_answer id buffer none = pure (ocall_db_error, buffer)
  sizes_answer id buffer (some deltas) =
      keep_cached id deltas >>= λ _. copied (map length deltas) buffer

  unfoldable pub ocall_get_deltas_sizes :
      List ℕ → ℕ → ℕ → List ℕ → Ocall D C (EnclaveReturn × List ℕ)
  ocall_get_deltas_sizes addr start end buffer =
      if span start end == length buffer
      then (check (λ st. find_deltas addr start end st.database)
          >>= sizes_answer (deltas_id addr start end) buffer)
      else pure (ocall_error, buffer)

  abbrev pub found_answer : List ℕ → Option (List (List ℕ)) → Ocall D C (EnclaveReturn × List ℕ)
  found_answer buffer none = pure (ocall_db_error, buffer)
  found_answer buffer (some deltas) = copied (flatten deltas) buffer

  abbrev pub deltas_answer :
      List ℕ → ℕ → ℕ → List ℕ → Option (List (List ℕ)) → Ocall D C (EnclaveReturn × List ℕ)
  deltas_answer addr start end buffer (some deltas) = copied (flatten deltas) buffer
  deltas_answer addr start end buffer none =
      check (λ st. find_deltas addr start end st.database) >>= found_answer buffer

  unfoldable pub ocall_get_deltas : List ℕ → ℕ → ℕ → List ℕ → Ocall D C (EnclaveReturn × List ℕ)
  ocall_get_deltas addr start end buffer =
      take_cached (deltas_id addr start end) >>= deltas_answer addr start end buffer
