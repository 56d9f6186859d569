-- ===== src/Tests/Task.antt =====
-- Tasks at concrete inputs: an engine that answers at once, and a host that refuses the state.
use enigma_core.Prelude.{
  ℕ, ◌+◌, ◌-◌, ◌≡◌, ◌≢◌, refl, none, some, List, [], ◌∷◌, ◌++◌, replicate, arith, true, to_be_bytes,
  ◌==◌, ok, err,
}
use enigma_core.Crypto.Hash.{prepare_hash_multiple}
use enigma_core.Crypto.Symmetric.{decrypt, encrypt_with_nonce}
use enigma_core.Errors.{
  system_error, failed_task_error_with_gas, gas_limit_error, EnclaveSystemError,
}
use enigma_core.Errors.Codes.{
  from_result, into_enclave_return, success, keys_error, task_failure as task_failure_code,
}
use enigma_core.Exec as Exec
use enigma_core.Exec.{modify, pure, lift, check}
use enigma_core.ContractState.{
  EncryptedContractState, generate_delta_and_update_state, encrypt_patch, keccak256_patch,
  encrypt_state, decrypt_state, is_initial,
}
use enigma_core.Gas.{default_costs}
use enigma_core.StateKeys.Store.{get, remove}
use enigma_core.Worker.{worker_state_key}
use enigma_core.Worker.Build.{encrypt_known, get_known}
use enigma_core.Arguments.{find, get_types, decrypt_args, decrypt_callable, decrypt_inputs}
use enigma_core.Task.{
  RuntimeResult, ExecuteResult, Engine, TaskCrates, TaskHost, Task, create_eth_data_to_sign,
  get_enc_delta, states_eq, into_result, sign_multiple, failure_parts, execution_parts,
  deployment_parts,
}
use enigma_core.Task.Run.{
  get_io_key, store_delta_and_state, prepare_wasm_result, output_task_failure, compute,
  ecall_execute_internal, run_task, ecall_execute,
}
use enigma_core.Task.Once.{execute, deploy, serve, serve_once}
use enigma_core.Task.Computed.{IsExecuted}
use enigma_core.Task.Outcomes.{ecall_execute-IsExecuted}
use enigma_core.Task.Failures.{known_before, ecall_execute-signs_failure}
use enigma_core.Task.Signing.{failure_parts-ne-success}
use enigma_core.Tests.ContractState as ContractState
use enigma_core.Tests.ContractState.{iv, address, key, at, second, first_delta}

abbrev pub crates : TaskCrates ℕ ℕ
crates = record {
  states = ContractState.crates;
  json_eq = λ a b. a == b;
  sign = λ image. ok (7 ∷ []);
  error_text = λ e. 69 ∷ [];
  is_utf8 = λ text. true;
  delta_draw = some iv;
  output_draw = some iv;
  state_draw = some iv;
}

abbrev stored_state : EncryptedContractState
stored_state = record {
  json = (10 ∷ 0 ∷ replicate 32 0) ++ replicate 16 0 ++ iv;
  contract_address = address;
}

-- The number of deltas in the store.
abbrev pub host : TaskHost ℕ
host = record {
  worker = record {
    get_state = λ addr deltas. ok stored_state;
    get_deltas = λ addr from to deltas. ok [];
    save_state = λ state deltas. (err (system_error EnclaveSystemError.state_error), deltas);
  };
  save_delta = λ d deltas. (ok tt, deltas + 1);
  remove_delta = λ d deltas. (ok tt, deltas - 1);
  save_to_untrusted_memory = λ bytes deltas. (ok 3, deltas);
}

abbrev pub blank : ExecuteResult
blank = record {
  output = 0;
  delta_ptr = 0;
  delta_index = 0;
  ethereum_payload_ptr = 0;
  ethereum_address = [];
  signature = [];
  used_gas = 0;
}

abbrev pub user : List ℕ
user = 9 ∷ []

abbrev pub start : Task ℕ ℕ
start = record {
  keys = record { state_keys = (address, key) ∷ []; dh_keys = []; user_keys = (user, key) ∷ [] };
  db = 0;
  pre_execution_data = [];
  result = blank;
}

-- It is run with the text "f()".
abbrev pub callable : List ℕ
callable = (102 ∷ 40 ∷ 41 ∷ []) ++ replicate 16 0 ++ iv

abbrev engine : Engine ℕ
engine bytecode gas_limit args state name state_key = ok (record {
  post_execution_state = record state { json = state.json + 10 };
  output = 8 ∷ [];
  ethereum_bridge = none;
  gas = record { counter = 60; limit = gas_limit; refund = 20; costs = default_costs };
})

-- It runs out of gas.
abbrev failing_engine : Engine ℕ
failing_engine bytecode gas_limit args state name state_key =
    err (failed_task_error_with_gas gas_limit gas_limit_error)

abbrev pub bytecode : List ℕ
bytecode = 1 ∷ 2 ∷ []

abbrev executed : Task ℕ ℕ
executed = (ecall_execute crates host engine bytecode callable [] user address 100 start).1

executes :
    ecall_execute crates host engine bytecode callable [] user address 100 start
    ≡ (ok success, executed)
unfolding ecall_execute run_task get_io_key ecall_execute_internal compute decrypt_inputs get_types
    find decrypt_args decrypt_callable decrypt get_known decrypt_state into_result states_eq
    generate_delta_and_update_state encrypt_patch encrypt_with_nonce keccak256_patch
    prepare_wasm_result store_delta_and_state encrypt_known encrypt_state sign_multiple
    create_eth_data_to_sign get_enc_delta from_result Exec.◌>>=◌ modify pure lift check get remove
    is_initial worker_state_key
executes = refl

ecall_execute-IsExecuted_example :
    (io_key : List ℕ) × (get user (start.keys.user_keys) ≡ some io_key)
    × IsExecuted crates host engine bytecode callable [] user io_key address 100
        (start.keys.state_keys)
        (start.db)
        (executed.result)
ecall_execute-IsExecuted_example =
    ecall_execute-IsExecuted crates host engine bytecode callable [] address user 100 start executed
      executes

abbrev failed : Task ℕ ℕ
failed = (ecall_execute crates host failing_engine bytecode callable [] user address 100 start).1

fails :
    ecall_execute crates host failing_engine bytecode callable [] user address 100 start
    ≡ (ok task_failure_code, failed)
unfolding ecall_execute run_task get_io_key ecall_execute_internal compute decrypt_inputs get_types
    find decrypt_args decrypt_callable decrypt get_known decrypt_state encrypt_with_nonce
    sign_multiple output_task_failure from_result into_enclave_return Exec.◌>>=◌ modify pure lift
    check get remove worker_state_key
fails = refl

ecall_execute-signs_failure_example :
    sign_multiple crates (
      failure_parts
        (known_before crates bytecode callable [] address user)
        100
        (failed.result.used_gas))
    ≡ ok (failed.result.signature)
ecall_execute-signs_failure_example =
    ecall_execute-signs_failure crates host failing_engine bytecode callable [] address user 100
      start failed fails

serve_once_example :
    serve crates host user
      (deploy engine bytecode callable [] address 100)
      (serve crates host user (execute engine bytecode callable [] address 100) start).1
    ≡ (
      ok keys_error,
      record ((serve crates host user (execute engine bytecode callable [] address 100) start).1) {
        pre_execution_data = [];
      },
    )
serve_once_example =
    serve_once crates host user (execute engine bytecode callable [] address 100)
      (deploy engine bytecode callable [] address 100) start

abbrev run_result : RuntimeResult ℕ
run_result = record {
  state_delta = some first_delta;
  updated_state = second;
  output = 8 ∷ [];
  ethereum_bridge = none;
  used_gas = 40;
}

abbrev hash : List ℕ
hash = replicate 32 1

failure_parts-ne-success_example :
    (prepare_hash_multiple (failure_parts (hash ∷ []) 100 40)
      ≢ prepare_hash_multiple (execution_parts crates hash hash (at 10) run_result (8 ∷ []) 100))
    × (prepare_hash_multiple (failure_parts (hash ∷ []) 100 40)
        ≢ prepare_hash_multiple (deployment_parts crates hash run_result 100))
unfolding get_enc_delta create_eth_data_to_sign keccak256_patch to_be_bytes
failure_parts-ne-success_example =
    failure_parts-ne-success crates (hash ∷ []) 100 40 hash hash (8 ∷ []) (at 10) run_result 100
      (omega arith, (omega arith, (omega arith, (omega arith, tt))))
      (
        omega arith,
        (
          omega arith,
          (
            omega arith,
            (
              omega arith,
              (
                omega arith,
                (omega arith, (omega arith, (omega arith, (omega arith, (omega arith, tt))))),
              ),
            ),
          ),
        ),
      )
      (
        omega arith,
        (
          omega arith,
          (
            omega arith,
            (omega arith, (omega arith, (omega arith, (omega arith, (omega arith, tt))))),
          ),
        ),
      )
