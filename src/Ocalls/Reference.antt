-- ===== src/Ocalls/Reference.antt =====
-- What the calls stand for: a host whose store is the database.
use Prim.Native.String.{String}
use enigma_core.Prelude.{
  ℕ, ◌+◌, ◌%◌, ◌^◌, Option, none, some, List, [], ◌∷◌, length, ltb, if◌then◌else◌, Outcome, ok, err,
  panic,
}
use enigma_core.Errors.{EnclaveError}
use enigma_core.Exec.{Exec as Handler}
use enigma_core.ContractState.{EncryptedContractState, EncryptedPatch}
use enigma_core.Database.{DbError, db_err}
use enigma_core.Database.Key.{delta_key, delta, state}
use enigma_core.Database.Crud as Crud
use enigma_core.Worker.Build.{Host}
use enigma_core.Task.{TaskHost}
use enigma_core.Ocalls.{OcallCrates, key_of, span, read_state, find_deltas}
use enigma_core.Ocalls.Calls.{as_patch, ocall_failed}

-- The state that is stored.
abbrev pub as_state :
    List ℕ → Outcome DbError (List ℕ) → Outcome EnclaveError EncryptedContractState
as_state address (ok bytes) = ok (record { contract_address = address; json = bytes })
as_state address (err e) = ocall_failed "get_state_size"
as_state address panic = panic

-- Each delta under the index of its place.
unfoldable pub patches : List ℕ → ℕ → List (List ℕ) → List EncryptedPatch
patches address index [] = []
patches address index ([] ∷ deltas) = patches address ((index + 1) % 2 ^ 32) deltas
patches address index ((b ∷ bytes) ∷ deltas) =
    as_patch address index (b ∷ bytes) ∷ patches address ((index + 1) % 2 ^ 32) deltas

-- More deltas than indices panic.
abbrev pub as_deltas :
    List ℕ
    → ℕ
    → ℕ
    → Outcome EnclaveError (Option (List (List ℕ)))
    → Outcome EnclaveError (List EncryptedPatch)
as_deltas address start end (ok (some deltas)) =
    if ltb (span start end) (length deltas) then panic else ok (patches address start deltas)
as_deltas address start end (ok none) = ocall_failed "get_deltas"
as_deltas address start end (err e) = err e
as_deltas address start end panic = panic

abbrev pub written_as :
    {D : Type 0} → String → Outcome DbError (Unit {0}) × D → Outcome EnclaveError (Unit {0}) × D
written_as command (ok u, db) = (ok tt, db)
written_as command (err e, db) = (ocall_failed command, db)
written_as command (panic, db) = (panic, db)

abbrev pub removed_as :
    {D : Type 0} → String → Outcome DbError (Unit {0}) × D → Outcome EnclaveError (Unit {0}) × D
removed_as command (ok u, db) = (ok tt, db)
removed_as command (err (db_err name kind), db) = (ok tt, db)
removed_as command (err _, db) = (ocall_failed command, db)
removed_as command (panic, db) = (panic, db)

module _ {D C : Type 0} (c : OcallCrates D C) where
  abbrev pub database_host : Host D
  database_host = record {
    get_state = λ address db. as_state address (read_state c address db);
    get_deltas =
        λ address start end db. as_deltas address start end (find_deltas c address start end db);
    save_state = λ enc db. written_as "ocall_update_state" (
        Crud.force_update c.rocks (delta_key c.hex) (key_of enc.contract_address state) enc.json
          db);
  }

  -- `pointer` is what `save_to_untrusted_memory` answers.
  abbrev pub database_tasks : (List ℕ → Handler D ℕ) → TaskHost D
  database_tasks pointer = record {
    worker = database_host;
    save_delta = λ enc db. written_as "ocall_new_delta" (
        Crud.force_update c.rocks (delta_key c.hex) (key_of enc.contract_address (delta enc.index))
          enc.ciphertext db);
    remove_delta = λ enc db.
        removed_as "ocall_remove_delta" (
          Crud.delete c.rocks (delta_key c.hex) (key_of enc.contract_address (delta enc.index)) db);
    save_to_untrusted_memory = pointer;
  }
