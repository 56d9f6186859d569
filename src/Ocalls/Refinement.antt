-- ===== src/Ocalls/Refinement.antt =====
-- The calls of the enclave, through the cache of the host, do what a host whose store is the
-- database does.
use Prim.Native.String.{String}
use enigma_core.Prelude.{ℕ, ◌≡◌, refl, List, Outcome, ok, err, panic}
use enigma_core.Errors.{EnclaveError}
use enigma_core.Database.Key.{delta_key, delta, state}
use enigma_core.Database.Crud as Crud
use enigma_core.Exec.{Exec as Handler}
use enigma_core.Exec.{pure, lift, check, ◌>>=◌, and_next}
use enigma_core.ContractState.{EncryptedContractState, EncryptedPatch}
use enigma_core.Database.{DbError, db_err}
use enigma_core.Ocalls.{
  key_of, code_of, removal_code, Backing, OcallCrates, read_state, find_deltas, ocall_update_state,
  ocall_new_delta, ocall_remove_delta,
}
use enigma_core.Ocalls.Calls.{
  crossed_over, accepted, save_state, save_delta, remove_delta, get_state, get_deltas,
}
use enigma_core.Ocalls.Reference.{written_as, removed_as, database_host, database_tasks}
use enigma_core.Ocalls.Reading.{LruLaws, AllCross, over, Reads, get_state_of, get_deltas_of}

module _ {D C : Type 0} (c : OcallCrates D C) (laws : LruLaws c.lru) (crossing : AllCross c)
    (db : D) (lru : C) where
  abbrev Writes :
      Outcome EnclaveError (Unit {0}) × D → Outcome EnclaveError (Unit {0}) × Backing D C → Type 0
  Writes expected p = p ≡ (expected.0, over expected.1 lru)

  abbrev lay :
      Outcome DbError (Unit {0}) × D
      → Outcome EnclaveError (Outcome DbError (Unit {0})) × Backing D C
  lay p = (ok p.0, over p.1 lru)

  answered :
      (command : String) (p : Outcome DbError (Unit {0}) × D)
      → Writes (written_as command p) (
          and_next
            (λ answer. lift (accepted command answer.0))
            (crossed_over (and_next (λ result. lift (code_of result)) (lay p))))
  unfolding lift
  answered command (ok u, left) = refl
  answered command (err e, left) = refl
  answered command (panic, left) = refl

  removed :
      (command : String) (p : Outcome DbError (Unit {0}) × D)
      → Writes (removed_as command p) (
          and_next
            (λ answer. lift (accepted command answer.0))
            (crossed_over (and_next (λ result. lift (removal_code result)) (lay p))))
  unfolding lift
  removed command (ok u, left) = refl
  removed command (err (db_err name kind), left) = refl
  removed command (err _, left) = refl
  removed command (panic, left) = refl

  save_state-database_host :
      (enc : EncryptedContractState)
      → Writes ((database_host c).save_state enc db) (save_state c enc (over db lru))
  unfolding save_state ocall_update_state ◌>>=◌ pure lift check
  save_state-database_host enc = rw (crossing "ocall_update_state" (over db lru)) (
      answered "ocall_update_state" (
        Crud.force_update c.rocks (delta_key c.hex) (key_of enc.contract_address state) enc.json
          db))

  module _ (pointer : List ℕ → Handler D ℕ) where
    save_delta-database_tasks :
        (enc : EncryptedPatch)
        → Writes ((database_tasks c pointer).save_delta enc db) (save_delta c enc (over db lru))
    unfolding save_delta ocall_new_delta ◌>>=◌ pure lift check
    save_delta-database_tasks enc = rw (crossing "ocall_new_delta" (over db lru)) (
        answered "ocall_new_delta" (
          Crud.force_update c.rocks (delta_key c.hex)
            (key_of enc.contract_address (delta enc.index)) enc.ciphertext db))

    remove_delta-database_tasks :
        (enc : EncryptedPatch)
        → Writes ((database_tasks c pointer).remove_delta enc db) (remove_delta c enc (over db lru))
    unfolding remove_delta ocall_remove_delta ◌>>=◌ pure lift check
    remove_delta-database_tasks enc = rw (crossing "ocall_remove_delta" (over db lru)) (
        removed "ocall_remove_delta" (
          Crud.delete c.rocks (delta_key c.hex) (key_of enc.contract_address (delta enc.index)) db))

    -- When every call crosses and the cache has what was inserted last, the calls over the database
    -- and the cache do what the host of the database does, whatever the cache held: `get_state` and
    -- `get_deltas` have its outcome, panics included, and leave the database as it was; `save_state`,
    -- `save_delta` and `remove_delta` have its outcome, leave the same database, and the cache as it
    -- was.
    pub calls-database_tasks :
        (address : List ℕ) (start end : ℕ) (enc : EncryptedContractState) (patch : EncryptedPatch)
        → Reads db ((database_host c).get_state address db) (get_state c address (over db lru))
          × Reads db
              ((database_host c).get_deltas address start end db)
              (get_deltas c address start end (over db lru))
          × Writes ((database_host c).save_state enc db) (save_state c enc (over db lru))
          × Writes
              ((database_tasks c pointer).save_delta patch db)
              (save_delta c patch (over db lru))
          × Writes
              ((database_tasks c pointer).remove_delta patch db)
              (remove_delta c patch (over db lru))
    calls-database_tasks address start end enc patch = (
      get_state_of c laws crossing db lru address (read_state c address db) refl,
      get_deltas_of c laws crossing db lru address start end (find_deltas c address start end db)
          refl,
      save_state-database_host enc,
      save_delta-database_tasks patch,
      remove_delta-database_tasks patch,
    )
