-- ===== src/Task/Run.antt =====
-- The calls of a task, `ecall_execute` and `ecall_deploy` of enigma-core/enclave/src/lib.rs, and what
-- they are made of.
use enigma_core.Prelude.{ℕ, Option, none, some, List, [], ◌∷◌, ◌++◌, Outcome, ok, err, panic}
use enigma_core.Crypto.Hash.{prepare_hash_multiple}
use enigma_core.Errors.{EnclaveError}
use enigma_core.Errors.Codes.{EnclaveReturn, from_result}
use enigma_core.Exec as Exec
use enigma_core.Exec.{Exec as Handler, pure, lift, check, modify}
use enigma_core.ContractState.{ContractState, EncryptedPatch, new}
use enigma_core.StateKeys.Store.{get, remove}
use enigma_core.Worker.{or_missing_key, worker_state_key}
use enigma_core.Worker.Build.{encrypt_known, get_known}
use enigma_core.Arguments.{decrypt_inputs}
use enigma_core.Task.{
  EthereumData, RuntimeResult, ExecuteResult, Engine, TaskCrates, TaskHost, Task,
  create_eth_data_to_sign, delta_bytes, into_result, sign_multiple, encrypted, execution_parts,
  deployment_parts, failure_parts, task_failure,
}

module _ {J P K D : Type 0} (c : TaskCrates J P) (host : TaskHost D) where
  -- An ocall of a task.
  abbrev pub ocall : {A : Type 0} → Handler D A → Handler (Task K D) A
  ocall action t = let (outcome, db) = action t.db in (outcome, record t { db = db })

  abbrev pub set_result : (ExecuteResult → ExecuteResult) → Handler (Task K D) (Unit {0})
  set_result change = modify (λ t. record t { result = change t.result })

  -- Removes the key: a failure leaves it removed.
  unfoldable pub get_io_key : List ℕ → Handler (Task K D) (List ℕ)
  get_io_key user_key =
      Exec.◌>>=◌ (check (λ t. or_missing_key "DH Key" (get user_key t.keys.user_keys))) (λ io_key.
        Exec.◌>>=◌
          (modify (λ t. record t {
            keys = record (t.keys) { user_keys = remove user_key t.keys.user_keys };
          }))
          (λ _. pure io_key))

  -- `or_else`: the second action answers for a failed first one.
  abbrev pub or_else :
      {A : Type 0}
      → (Outcome EnclaveError A × Task K D)
      → Handler (Task K D) A
      → Outcome EnclaveError A × Task K D
  or_else (ok a, t) other = (ok a, t)
  or_else (err e, t) other = other t
  or_else (panic, t) other = (panic, t)

  -- The delta, and then the state; a state that is not saved takes the delta back.
  unfoldable pub store_delta_and_state :
      Option EncryptedPatch → ContractState J → Handler (Task K D) (Unit {0})
  store_delta_and_state none state = pure tt
  store_delta_and_state (some d) state =
      Exec.◌>>=◌
        (check (λ t. encrypt_known c.states host.worker t.keys.state_keys state c.state_draw))
        (λ enc_state. Exec.◌>>=◌ (ocall (host.save_delta d)) (λ _.
          λ t. or_else (ocall (host.worker.save_state enc_state) t) (ocall (host.remove_delta d))))

  -- `prepare_wasm_result`. What is written before a failure stays.
  unfoldable pub prepare_wasm_result :
      Option EncryptedPatch → List ℕ → Option EthereumData → ℕ → Handler (Task K D) (Unit {0})
  prepare_wasm_result delta_option execute_result bridge gas =
      let (delta, index) = delta_bytes delta_option in
      let (payload, address) = create_eth_data_to_sign bridge in
      Exec.◌>>=◌ (ocall (host.save_to_untrusted_memory execute_result)) (λ output.
        Exec.◌>>=◌ (set_result (λ r. record r { output = output; used_gas = gas })) (λ _.
          Exec.◌>>=◌ (ocall (host.save_to_untrusted_memory delta)) (λ delta_ptr.
            Exec.◌>>=◌ (set_result (λ r. record r { delta_ptr = delta_ptr; delta_index = index }))
              (λ _. Exec.◌>>=◌ (ocall (host.save_to_untrusted_memory payload)) (λ payload_ptr.
                set_result (λ r. record r {
                  ethereum_payload_ptr = payload_ptr;
                  ethereum_address = address;
                }))))))

  abbrev pub push : List ℕ → Handler (Task K D) (Unit {0})
  push x = modify (λ t. record t { pre_execution_data = t.pre_execution_data ++ x ∷ [] })

  unfoldable pub output_task_failure : ℕ → EnclaveError → List ℕ → Handler (Task K D) (Unit {0})
  output_task_failure gas_limit e key =
      Exec.◌>>=◌ (set_result (λ r. record r { used_gas = 0 })) (λ _.
        Exec.◌>>=◌ (lift (task_failure e)) (λ failure.
          Exec.◌>>=◌ (set_result (λ r. record r { used_gas = failure.1 })) (λ _.
            Exec.◌>>=◌
              (check (λ t.
                sign_multiple c (failure_parts t.pre_execution_data gas_limit t.result.used_gas)))
              (λ signature. Exec.◌>>=◌ (set_result (λ r. record r { signature = signature })) (λ _.
                Exec.◌>>=◌ (lift (encrypted c (c.error_text failure.0) key)) (λ encrypted_result.
                  Exec.◌>>=◌ (ocall (host.save_to_untrusted_memory encrypted_result)) (λ output.
                    Exec.◌>>=◌ (set_result (λ r. record r { output = output }))
                      (λ _. lift (err failure.0)))))))))

  -- What a successful run leaves: the result, the signature and the stored state.
  abbrev pub finish : RuntimeResult J → List ℕ → List (List ℕ) → Handler (Task K D) (Unit {0})
  finish exec_res output parts =
      Exec.◌>>=◌
        (prepare_wasm_result exec_res.state_delta output exec_res.ethereum_bridge exec_res.used_gas)
        (λ _. Exec.◌>>=◌ (lift (sign_multiple c parts)) (λ signature.
          Exec.◌>>=◌ (set_result (λ r. record r { signature = signature }))
            (λ _. store_delta_and_state exec_res.state_delta exec_res.updated_state)))

  -- What the executions and the deployments have in common: the inputs, the engine and its result.
  unfoldable pub compute :
      Engine J
      → List ℕ
      → List ℕ
      → List ℕ
      → List ℕ
      → List ℕ
      → ℕ
      → ContractState J
      → Handler (Task K D) (RuntimeResult J)
  compute engine bytecode callable args io_key address gas_limit pre =
      Exec.◌>>=◌ (lift (decrypt_inputs c.states.aead c.is_utf8 callable args io_key)) (λ inputs.
        Exec.◌>>=◌ (check (λ t. worker_state_key address t.keys)) (λ state_key.
          Exec.◌>>=◌ (lift (engine bytecode gas_limit inputs.0 pre inputs.1 state_key))
            (λ executed. lift (into_result c state_key pre executed))))

  unfoldable pub ecall_execute_internal :
      Engine J
      → List ℕ
      → List ℕ
      → List ℕ
      → List ℕ
      → List ℕ
      → List ℕ
      → ℕ
      → Handler (Task K D) (Unit {0})
  ecall_execute_internal engine bytecode callable args user_key io_key address gas_limit =
      let inputs_hash =
        c.states.keccak256 (prepare_hash_multiple (callable ∷ args ∷ address ∷ user_key ∷ [])) in
      let exe_code_hash = c.states.keccak256 bytecode in
      Exec.◌>>=◌ (push inputs_hash) (λ _. Exec.◌>>=◌ (push exe_code_hash) (λ _.
        Exec.◌>>=◌ (check (λ t. get_known c.states host.worker t.keys.state_keys address t.db))
          (λ pre.
            Exec.◌>>=◌ (compute engine bytecode callable args io_key address gas_limit pre)
              (λ exec_res.
                Exec.◌>>=◌ (lift (encrypted c exec_res.output io_key)) (λ encrypted_output.
                  finish exec_res encrypted_output (
                    execution_parts c exe_code_hash inputs_hash pre exec_res encrypted_output
                      gas_limit))))))

  unfoldable pub ecall_deploy_internal :
      Engine J
      → List ℕ
      → List ℕ
      → List ℕ
      → List ℕ
      → List ℕ
      → List ℕ
      → ℕ
      → Handler (Task K D) (Unit {0})
  ecall_deploy_internal engine bytecode constructor args user_key io_key address gas_limit =
      let pre_code_hash = c.states.keccak256 bytecode in
      let inputs_hash =
        c.states.keccak256
          (prepare_hash_multiple (constructor ∷ args ∷ pre_code_hash ∷ user_key ∷ [])) in
      Exec.◌>>=◌ (push inputs_hash) (λ _.
        Exec.◌>>=◌
          (compute engine bytecode constructor args io_key address gas_limit (new c.states address))
          (λ exec_res.
            finish exec_res exec_res.output (deployment_parts c inputs_hash exec_res gas_limit)))

  -- The task, and what is made of its error.
  abbrev pub with_failure :
      ℕ
      → List ℕ
      → Outcome EnclaveError (Unit {0}) × Task K D
      → Outcome EnclaveError (Unit {0}) × Task K D
  with_failure gas_limit io_key (ok u, t) = (ok u, t)
  with_failure gas_limit io_key (err e, t) = output_task_failure gas_limit e io_key t
  with_failure gas_limit io_key (panic, t) = (panic, t)

  unfoldable pub run_task :
      List ℕ → ℕ → (List ℕ → Handler (Task K D) (Unit {0})) → Handler (Task K D) (Unit {0})
  run_task user_key gas_limit internal =
      Exec.◌>>=◌ (get_io_key user_key)
        (λ io_key. λ t. with_failure gas_limit io_key (internal io_key t))

  abbrev pub with_code :
      Outcome EnclaveError (Unit {0}) × Task K D → Outcome EnclaveError EnclaveReturn × Task K D
  with_code (outcome, t) = (from_result outcome, t)

  -- The code and the state after the call.
  unfoldable pub ecall_execute :
      Engine J → List ℕ → List ℕ → List ℕ → List ℕ → List ℕ → ℕ → Handler (Task K D) EnclaveReturn
  ecall_execute engine bytecode callable args user_key address gas_limit t = with_code (
      run_task user_key gas_limit
        (λ io_key.
          ecall_execute_internal engine bytecode callable args user_key io_key address gas_limit)
        (record t { pre_execution_data = [] }))

  unfoldable pub ecall_deploy :
      Engine J → List ℕ → List ℕ → List ℕ → List ℕ → List ℕ → ℕ → Handler (Task K D) EnclaveReturn
  ecall_deploy engine bytecode constructor args address user_key gas_limit t = with_code (
      run_task user_key gas_limit
        (λ io_key.
          ecall_deploy_internal engine bytecode constructor args user_key io_key address gas_limit)
        (record t { pre_execution_data = [] }))
