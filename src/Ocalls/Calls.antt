-- ===== src/Ocalls/Calls.antt =====
-- The same calls on the side of the enclave: enigma-runtime-t/src/ocalls_t.rs.
use Prim.Native.String.{String}
use enigma_core.Prelude.{
  ℕ, ◌+◌, ◌%◌, ◌^◌, Bool, true, false, ◌&&◌, List, [], ◌∷◌, length, take, drop, replicate, ltb,
  if◌then◌else◌, Outcome, ok, err, panic,
}
use enigma_core.Errors.{EnclaveError, EnclaveSystemError, system_error}
use enigma_core.Errors.Codes.{EnclaveReturn, is_success, success}
use enigma_core.Exec.{lift, pure, ◌>>=◌}
use enigma_core.ContractState.{EncryptedContractState, EncryptedPatch}
use enigma_core.Ocalls.{
  Backing, OcallCrates, Ocall, span, ocall_update_state, ocall_new_delta, ocall_remove_delta,
  ocall_get_state_size, ocall_get_state, ocall_get_deltas_sizes, ocall_get_deltas,
}

-- The code of a call, and whether it went through: one that does not leaves the default code,
-- `Success`, and the output as it was.
abbrev pub OcallAnswer : Type 0 → Type 0
OcallAnswer A = (EnclaveReturn × Bool) × A

abbrev pub crossed_over :
    {A D C : Type 0}
    → Outcome EnclaveError (EnclaveReturn × A) × Backing D C
    → Outcome EnclaveError (OcallAnswer A) × Backing D C
crossed_over (ok (code, a), st) = (ok ((code, true), a), st)
crossed_over (err e, st) = (err e, st)
crossed_over (panic, st) = (panic, st)

abbrev pub ocall_failed : {A : Type 0} → String → Outcome EnclaveError A
ocall_failed command = err (system_error (EnclaveSystemError.ocall_error command))

abbrev pub accepted : String → EnclaveReturn × Bool → Outcome EnclaveError (Unit {0})
accepted command (code, crossed) =
    if is_success code && crossed then ok tt else ocall_failed command

unfoldable pub total_size : List ℕ → ℕ
total_size [] = 0
total_size (size ∷ sizes) = size + total_size sizes

abbrev pub as_patch : List ℕ → ℕ → List ℕ → EncryptedPatch
as_patch contract_address index bytes = record {
  ciphertext = bytes;
  contract_address = contract_address;
  index = index;
}

-- A delta unless it is empty.
abbrev pub with_patch :
    List ℕ
    → ℕ
    → List ℕ
    → Outcome EnclaveError (List EncryptedPatch)
    → Outcome EnclaveError (List EncryptedPatch)
with_patch contract_address index [] rest = rest
with_patch contract_address index (b ∷ bytes) (ok rest) =
    ok (as_patch contract_address index (b ∷ bytes) ∷ rest)
with_patch contract_address index (b ∷ bytes) (err e) = err e
with_patch contract_address index (b ∷ bytes) panic = panic

-- The bytes split at the sizes; `split_at` panics past the end. The index of a delta is `start` and
-- its position, empty ones counted.
unfoldable pub split_deltas :
    List ℕ → ℕ → List ℕ → List ℕ → Outcome EnclaveError (List EncryptedPatch)
split_deltas contract_address index [] bytes = ok []
split_deltas contract_address index (size ∷ sizes) bytes =
    let rest = split_deltas contract_address ((index + 1) % 2 ^ 32) sizes (drop size bytes) in
    if ltb (length bytes) size
    then panic
    else with_patch contract_address index (take size bytes) rest

module _ {D C : Type 0} (c : OcallCrates D C) where
  abbrev pub cross :
      {A : Type 0} → String → A → Ocall D C (EnclaveReturn × A) → Ocall D C (OcallAnswer A)
  cross name out call st =
      if c.crosses name st then crossed_over (call st) else (ok ((success, false), out), st)

  unfoldable pub save_state : EncryptedContractState → Ocall D C (Unit {0})
  save_state enc = do
    answer ← cross "ocall_update_state" tt (ocall_update_state c enc.contract_address enc.json)
    lift (accepted "ocall_update_state" answer.0)

  unfoldable pub save_delta : EncryptedPatch → Ocall D C (Unit {0})
  save_delta enc = do
    answer ←
        cross "ocall_new_delta" tt (ocall_new_delta c enc.ciphertext enc.contract_address enc.index)
    lift (accepted "ocall_new_delta" answer.0)

  unfoldable pub remove_delta : EncryptedPatch → Ocall D C (Unit {0})
  remove_delta enc = do
    answer ← cross "ocall_remove_delta" tt (ocall_remove_delta c enc.contract_address enc.index)
    lift (accepted "ocall_remove_delta" answer.0)

  unfoldable pub get_state : List ℕ → Ocall D C EncryptedContractState
  get_state contract_address = do
    size ← cross "ocall_get_state_size" 0 (ocall_get_state_size c contract_address)
    _ ← lift (accepted "get_state_size" size.0)
    bytes ←
        cross "ocall_get_state" (replicate size.1 0)
          (ocall_get_state c contract_address (replicate size.1 0))
    _ ← lift (accepted "get_state" bytes.0)
    pure (record { contract_address = contract_address; json = bytes.1 })

  unfoldable pub get_deltas : List ℕ → ℕ → ℕ → Ocall D C (List EncryptedPatch)
  get_deltas contract_address start end = do
    sizes ←
        cross "ocall_get_deltas_sizes" (replicate (span start end) 0)
          (ocall_get_deltas_sizes c contract_address start end (replicate (span start end) 0))
    _ ← lift (accepted "get_deltas" sizes.0)
    bytes ←
        cross "ocall_get_deltas" (replicate (total_size sizes.1) 0)
          (ocall_get_deltas c contract_address start end (replicate (total_size sizes.1) 0))
    _ ← lift (accepted "get_deltas" bytes.0)
    lift (split_deltas contract_address start sizes.1 bytes.1)
