-- ===== src/Task/Runtime/Engine.antt =====
-- The engine of enigma-runtime-t/src/wasm_execution.rs, with a contract as a tree of its calls.
use enigma_core.Prelude.{ℕ, Option, List, Outcome, ok, err, panic}
use enigma_core.Errors.{
  EnclaveError, FailedTaskError, failed_task_error, failed_task_error_with_gas, system_error,
  wasm_code_execution_error, gas_limit_error,
}
use enigma_core.Exec.{◌>>=◌, check, lift, modify}
use enigma_core.ContractState.{ContractState}
use enigma_core.Gas as Gas
use enigma_core.Gas.{default_costs}
use enigma_core.Task.{Engine, Executed}
use enigma_core.Task.Runtime.{
  WasmError, gas_limit, wasmi_error, enclave_error, RuntimeCrates, Runtime, Handler, HostFunction,
  new_runtime, on_gas,
}
use enigma_core.Task.Runtime.Calls.{invoke_index}

-- What the interpreter does of a contract's code: it ends, it traps, or it calls a function of the
-- runtime, with the memory as it is then, the random bytes that the call draws and the arguments,
-- and goes on with the memory after the call and its value.
pub data Code (M : Type 0) : Type 0 where
  finished trapped : Code M
  call : M → HostFunction → Option (List ℕ) → List ℕ → (M → Option ℕ → Code M) → Code M

-- The other crates: the module of a code with its memory, instrumented to charge gas, and the
-- constructor of a code.
pub record Interpreter (M : Type 0) : Type 0 where
  pub create_module : List ℕ → Outcome FailedTaskError (M × Code M)
  pub build_constructor : List ℕ → Outcome FailedTaskError (List ℕ)

-- `From<wasmi::Error> for EnclaveError`.
abbrev pub from_wasm : {A : Type 0} → Outcome WasmError A → Outcome EnclaveError A
from_wasm (ok a) = ok a
from_wasm (err gas_limit) = err (failed_task_error gas_limit_error)
from_wasm (err wasmi_error) = err (failed_task_error wasm_code_execution_error)
from_wasm (err (enclave_error e)) = err (system_error e)
from_wasm panic = panic

abbrev pub EngineRun : Type 0 → Type 0 → Type 0 → Type 0
EngineRun J M A = Runtime J M → Outcome EnclaveError A × Runtime J M

-- `treat_failed_task_error`: the gas that was used goes with the error.
abbrev pub treat_failed_task_error :
    {A J M : Type 0} → Outcome EnclaveError A × Runtime J M → Outcome EnclaveError A × Runtime J M
treat_failed_task_error (err (failed_task_error e), st) =
    (err (failed_task_error_with_gas st.gas.counter e), st)
treat_failed_task_error (err (failed_task_error_with_gas used e), st) =
    (err (failed_task_error_with_gas used e), st)
treat_failed_task_error (err (system_error e), st) = (err (system_error e), st)
treat_failed_task_error (ok a, st) = (ok a, st)
treat_failed_task_error (panic, st) = (panic, st)

abbrev pub as_enclave :
    {A J M : Type 0} → Outcome WasmError A × Runtime J M → Outcome EnclaveError A × Runtime J M
as_enclave (outcome, st) = (from_wasm outcome, st)

module _ {J M : Type 0} (c : RuntimeCrates J M) where
  -- `execute_function`.
  unfoldable pub run_code : Code M → Handler J M (Unit {0})
  run_code finished = lift (ok tt)
  run_code trapped = lift (err wasmi_error)
  run_code (call memory function drawn args next) =
      modify (λ st. record st { memory = memory }) >>= λ _.
      invoke_index c function drawn args >>= λ value.
      check (λ st. ok st.memory) >>= λ after. run_code (next after value)

  unfoldable pub execute_code : Code M → EngineRun J M (Unit {0})
  execute_code code st = treat_failed_task_error (as_enclave (run_code code st))

  -- `compute`, and `deploy` with another charge.
  abbrev pub charged_after : Handler J M (Unit {0}) → Code M → EngineRun J M (Unit {0})
  charged_after charge code =
      execute_code code >>= λ _. λ st. treat_failed_task_error (as_enclave (charge st))

  unfoldable pub compute_code : Code M → EngineRun J M (Unit {0})
  compute_code code = charged_after (on_gas Gas.charge_execution) code

  unfoldable pub deploy_code : Code M → EngineRun J M (Unit {0})
  deploy_code code = charged_after (λ st. on_gas (Gas.charge_deployment st.output) st) code

  abbrev pub executed_of :
      Outcome EnclaveError (Unit {0}) × Runtime J M → Outcome EnclaveError (Executed J)
  executed_of (ok u, st) = ok (record {
    post_execution_state = st.post_execution_state;
    output = st.output;
    ethereum_bridge = st.bridge;
    gas = st.gas;
  })
  executed_of (err e, st) = err e
  executed_of (panic, st) = panic

  module _ (w : Interpreter M) where
    abbrev pub run_module :
        (Code M → EngineRun J M (Unit {0}))
        → ℕ
        → List ℕ
        → ContractState J
        → List ℕ
        → List ℕ
        → Outcome FailedTaskError (M × Code M)
        → Outcome EnclaveError (Executed J)
    run_module run limit args state function_name key (ok (memory, code)) =
        executed_of (run code (new_runtime memory limit args state function_name key default_costs))
    run_module run limit args state function_name key (err e) = err (failed_task_error e)
    run_module run limit args state function_name key panic = panic

    -- `new_compute` and `compute`.
    unfoldable pub compute_engine : Engine J
    compute_engine code limit args state function_name key =
        run_module compute_code limit args state function_name key (w.create_module code)

    abbrev pub create_constructor :
        Outcome FailedTaskError (List ℕ) → Outcome FailedTaskError (M × Code M)
    create_constructor (ok code) = w.create_module code
    create_constructor (err e) = err e
    create_constructor panic = panic

    -- `new_deploy` and `deploy`.
    unfoldable pub deploy_engine : Engine J
    deploy_engine code limit args state function_name key =
        run_module deploy_code limit args state function_name key
          (create_constructor (w.build_constructor code))
