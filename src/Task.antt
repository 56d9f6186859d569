-- ===== src/Task.antt =====
-- The execution of tasks: `ecall_execute` and `ecall_deploy` of enigma-core/enclave/src/lib.rs, with
-- `Runtime::into_result` of enigma-runtime-t/src/lib.rs. The engine that runs wasm is a parameter, and
-- so are the calls to the host.

pub mod Run
pub mod Storing
pub mod Keeping
pub mod Once
pub mod Signing
pub mod Computed
pub mod Finished
pub mod Outcomes
pub mod Errors
pub mod Failures
pub mod Runtime
use enigma_core.Prelude.{
  ℕ, Bool, true, false, not, ◌&&◌, ◌||◌, Option, none, some, List, [], ◌∷◌, ◌++◌, replicate,
  bytes_eq, ◌==◌, if◌then◌else◌, to_be_bytes, Outcome, ok, err, panic, ◌>>=◌,
}
use enigma_core.Crypto.Errors.{CryptoError}
use enigma_core.Crypto.Hash.{prepare_hash_multiple}
use enigma_core.Crypto.Symmetric as Symmetric
use enigma_core.Errors.{EnclaveError, failed_task_error, failed_task_error_with_gas, system_error}
use enigma_core.Errors.Codes.{EnclaveReturn, from_result}
use enigma_core.Exec as Exec
use enigma_core.Exec.{Exec as Handler, pure, lift, check, modify}
use enigma_core.ContractState.{
  ContractState, EncryptedContractState, EncryptedPatch, StateCrates, is_initial, zero_hash,
  keccak256_patch, generate_delta_and_update_state, new,
}
use enigma_core.Gas.{RuntimeGas, used_gas}
use enigma_core.StateKeys.Store.{get, remove}
use enigma_core.StateKeys.Request.{from_crypto}
use enigma_core.Worker.{WorkerKeys, or_missing_key, worker_state_key}
use enigma_core.Worker.Build as Build
use enigma_core.Worker.Build.{encrypt_known, get_known}
use enigma_core.Arguments.{decrypt_inputs}

pub record EthereumData : Type 0 where
  pub ethereum_payload : List ℕ
  pub ethereum_contract_addr : List ℕ

-- What a run of the engine leaves in its runtime.
pub record Executed (J : Type 0) : Type 0 where
  pub post_execution_state : ContractState J
  pub output : List ℕ
  pub ethereum_bridge : Option EthereumData
  pub gas : RuntimeGas

pub record RuntimeResult (J : Type 0) : Type 0 where
  pub state_delta : Option EncryptedPatch
  pub updated_state : ContractState J
  pub output : List ℕ
  pub ethereum_bridge : Option EthereumData
  pub used_gas : ℕ

-- `ExecuteResult` of enigma-types, whose pointers are numbers.
pub record ExecuteResult : Type 0 where
  pub output : ℕ
  pub delta_ptr : ℕ
  pub delta_index : ℕ
  pub ethereum_payload_ptr : ℕ
  pub ethereum_address : List ℕ
  pub signature : List ℕ
  pub used_gas : ℕ

-- `new_compute` and `compute`, or `new_deploy` and `deploy`, of `WasmEngine`: the code, the gas limit,
-- the arguments, the state, the name of the function and the state key.
abbrev pub Engine : Type 0 → Type 0
Engine J =
    List ℕ → ℕ → List ℕ → ContractState J → List ℕ → List ℕ → Outcome EnclaveError (Executed J)

-- The other crates, the equality of JSON values, the signing key, the text of an error, UTF-8, and
-- the nonces that the encryptions draw (of the delta, the output or error, and the state).
pub record TaskCrates (J P : Type 0) : Type 0 where
  pub states : StateCrates J P
  pub json_eq : J → J → Bool
  pub sign : List ℕ → Outcome CryptoError (List ℕ)
  pub error_text : EnclaveError → List ℕ
  pub is_utf8 : List ℕ → Bool
  pub delta_draw : Option (List ℕ)
  pub output_draw : Option (List ℕ)
  pub state_draw : Option (List ℕ)

-- The ocalls, on the store of the host.
pub record TaskHost (D : Type 0) : Type 0 where
  pub worker : Build.Host D
  pub save_delta : EncryptedPatch → Handler D (Unit {0})
  pub remove_delta : EncryptedPatch → Handler D (Unit {0})
  pub save_to_untrusted_memory : List ℕ → Handler D ℕ

-- The state of a call: the worker's keys, the host's store, and the two out-parameters.
pub record Task (K D : Type 0) : Type 0 where
  pub keys : WorkerKeys K
  pub db : D
  pub pre_execution_data : List (List ℕ)
  pub result : ExecuteResult

-- `ResultStatus`, as a byte.
abbrev pub success_byte : List ℕ
success_byte = 1 ∷ []

abbrev pub failure_byte : List ℕ
failure_byte = 0 ∷ []

-- `u64::to_be_bytes`.
abbrev pub be_bytes : ℕ → List ℕ
be_bytes n = to_be_bytes 8 n

unfoldable pub create_eth_data_to_sign : Option EthereumData → List ℕ × List ℕ
create_eth_data_to_sign none = ([], replicate 20 0)
create_eth_data_to_sign (some bridge) = (bridge.ethereum_payload, bridge.ethereum_contract_addr)

abbrev pub delta_bytes : Option EncryptedPatch → List ℕ × ℕ
delta_bytes none = ([], 0)
delta_bytes (some d) = (d.ciphertext, d.index)

-- After a failure: what was known before the execution, the gas and the failure.
abbrev pub failure_parts : List (List ℕ) → ℕ → ℕ → List (List ℕ)
failure_parts pre_execution_data gas_limit used =
    pre_execution_data ++ be_bytes gas_limit ∷ be_bytes used ∷ failure_byte ∷ []

-- The error and the gas of a failed task; a system error is passed on.
abbrev pub task_failure : EnclaveError → Outcome EnclaveError (EnclaveError × ℕ)
task_failure (failed_task_error e) = ok (failed_task_error e, 0)
task_failure (failed_task_error_with_gas used e) = ok (failed_task_error e, used)
task_failure (system_error e) = err (system_error e)

module _ {J P : Type 0} (c : TaskCrates J P) where
  unfoldable pub get_enc_delta : Option EncryptedPatch → List ℕ
  get_enc_delta none = zero_hash
  get_enc_delta (some delta) = keccak256_patch c.states delta

  -- `PartialEq` of `ContractState`.
  unfoldable pub states_eq : ContractState J → ContractState J → Bool
  states_eq a b =
      bytes_eq a.contract_address b.contract_address
      && c.json_eq a.json b.json
      && bytes_eq a.delta_hash b.delta_hash
      && (a.delta_index == b.delta_index)

  abbrev pub with_delta :
      Executed J
      → Outcome EnclaveError EncryptedPatch × ContractState J
      → Outcome EnclaveError (RuntimeResult J)
  with_delta e (ok delta, post) = ok (record {
    state_delta = some delta;
    updated_state = post;
    output = e.output;
    ethereum_bridge = e.ethereum_bridge;
    used_gas = used_gas e.gas;
  })
  with_delta e (err x, post) = err x
  with_delta e (panic, post) = panic

  -- `Runtime::into_result`: the delta from the state before, if that changed or was initial.
  unfoldable pub into_result :
      List ℕ → ContractState J → Executed J → Outcome EnclaveError (RuntimeResult J)
  into_result key pre e =
      if not (states_eq pre e.post_execution_state) || is_initial pre
      then with_delta e
          (generate_delta_and_update_state c.states pre key c.delta_draw e.post_execution_state)
      else ok (record {
        state_delta = none;
        updated_state = e.post_execution_state;
        output = e.output;
        ethereum_bridge = e.ethereum_bridge;
        used_gas = used_gas e.gas;
      })

  -- `sign_multiple` of `SIGNING_KEY`.
  unfoldable pub sign_multiple : List (List ℕ) → Outcome EnclaveError (List ℕ)
  sign_multiple messages = from_crypto (c.sign (prepare_hash_multiple messages))

  abbrev pub encrypted : List ℕ → List ℕ → Outcome EnclaveError (List ℕ)
  encrypted message key =
      from_crypto (Symmetric.encrypt_with_nonce c.states.aead message key none c.output_draw)

  -- What is signed after a success, an execution and a deployment.
  abbrev pub execution_parts :
      List ℕ → List ℕ → ContractState J → RuntimeResult J → List ℕ → ℕ → List (List ℕ)
  execution_parts exe_code_hash inputs_hash pre exec_res encrypted_output gas_limit =
      let (payload, address) = create_eth_data_to_sign exec_res.ethereum_bridge in
      exe_code_hash
      ∷ inputs_hash
      ∷ pre.delta_hash
      ∷ get_enc_delta exec_res.state_delta
      ∷ c.states.keccak256 encrypted_output
      ∷ be_bytes gas_limit
      ∷ be_bytes exec_res.used_gas
      ∷ payload
      ∷ address
      ∷ success_byte
      ∷ []

  abbrev pub deployment_parts : List ℕ → RuntimeResult J → ℕ → List (List ℕ)
  deployment_parts inputs_hash exec_res gas_limit =
      let (payload, address) = create_eth_data_to_sign exec_res.ethereum_bridge in
      inputs_hash
      ∷ c.states.keccak256 exec_res.output
      ∷ get_enc_delta exec_res.state_delta
      ∷ be_bytes gas_limit
      ∷ be_bytes exec_res.used_gas
      ∷ payload
      ∷ address
      ∷ success_byte
      ∷ []
