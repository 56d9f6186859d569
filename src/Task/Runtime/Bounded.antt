-- ===== src/Task/Runtime/Bounded.antt =====
-- The engines keep to the gas limit.
use enigma_core.Prelude.{ℕ, ◌≤◌, ◌≡◌, refl, subst, ap, ◌∙◌, List, Outcome, ok, err, panic, arith}
use enigma_core.Errors.{
  EnclaveError, FailedTaskError, failed_task_error, failed_task_error_with_gas, system_error,
}
use enigma_core.Exec.{◌>>=◌, and_next, Keeps}
use enigma_core.ContractState.{ContractState}
use enigma_core.Gas.{default_costs}
use enigma_core.Task.{Executed}
use enigma_core.Task.Runtime.{
  WasmError, gas_limit, wasmi_error, enclave_error, RuntimeCrates, Runtime, Handler, new_runtime,
}
use enigma_core.Task.Runtime.Engine.{
  Code, Interpreter, EngineRun, treat_failed_task_error, as_enclave, run_code, execute_code,
  charged_after, compute_code, deploy_code, executed_of, run_module, compute_engine,
  create_constructor, deploy_engine,
}
use enigma_core.Task.Runtime.Limits.{
  IsFrom, run_code-Keeps, charge_execution-Keeps, charge_deployment-Keeps,
}

-- The gas that goes with an error is within the limit.
abbrev pub IsBounded : {A : Type 0} → ℕ → Outcome EnclaveError A → Type 0
IsBounded limit (err (failed_task_error_with_gas used e)) = used ≤ limit
IsBounded limit (err (failed_task_error e)) = Unit {0}
IsBounded limit (err (system_error e)) = Unit {0}
IsBounded limit (ok a) = Unit {0}
IsBounded limit panic = Unit {0}

-- What a run leaves: the gas is within the limit, and of the state only the value may have changed.
pub record IsRun {J : Type 0} (limit : ℕ) (state : ContractState J) (e : Executed J) : Type 0 where
  pub gas_limit : e.gas.limit ≡ limit
  pub within : e.gas.counter ≤ limit
  pub address : e.post_execution_state.contract_address ≡ state.contract_address
  pub delta_hash : e.post_execution_state.delta_hash ≡ state.delta_hash
  pub delta_index : e.post_execution_state.delta_index ≡ state.delta_index

abbrev pub IsLimited :
    {J : Type 0} → ℕ → ContractState J → Outcome EnclaveError (Executed J) → Type 0
IsLimited limit state (ok e) = IsRun limit state e
IsLimited {J} limit state (err e) = IsBounded {A = Executed J} limit (err e)
IsLimited limit state panic = Unit {0}

-- A run from `start` that may have failed.
abbrev RanFrom : {J M A : Type 0} → Runtime J M → Outcome EnclaveError A × Runtime J M → Type 0
RanFrom start p = IsFrom start p.1 × IsBounded start.gas.limit p.0

module _ {J M : Type 0} (start : Runtime J M) where
  treated :
      {A : Type 0} (q : Outcome WasmError A × Runtime J M)
      → IsFrom start q.1
      → RanFrom start (treat_failed_task_error (as_enclave q))
  treated (ok a, st) h = (h, tt)
  treated (err gas_limit, st) h = (h, omega (arith, h.0.within, h.0.limit))
  treated (err wasmi_error, st) h = (h, omega (arith, h.0.within, h.0.limit))
  treated (err (enclave_error e), st) h = (h, tt)
  treated (panic, st) h = (h, tt)

  then_charged :
      (charge : Handler J M (Unit {0}))
      → Keeps (IsFrom start) charge
      → (p : Outcome EnclaveError (Unit {0}) × Runtime J M) → RanFrom start p
      → RanFrom start (and_next (λ _. λ st. treat_failed_task_error (as_enclave (charge st))) p)
  then_charged charge keep (ok u, st) h = treated (charge st) (keep.after st h.0)
  then_charged charge keep (err e, st) h = h
  then_charged charge keep (panic, st) h = h

  module _ (c : RuntimeCrates J M) where
    charged_after-RanFrom :
        (charge : Handler J M (Unit {0}))
        → Keeps (IsFrom start) charge
        → (code : Code M) (st : Runtime J M) → IsFrom start st
        → RanFrom start (charged_after c charge code st)
    unfolding execute_code ◌>>=◌
    charged_after-RanFrom charge keep code st h =
        then_charged charge keep (execute_code c code st)
          (treated (run_code c code st) ((run_code-Keeps c start code).after st h))

    executed_of-IsLimited :
        (limit : ℕ) (state : ContractState J)
        → start.gas.limit ≡ limit
        → start.post_execution_state ≡ state
        → (p : Outcome EnclaveError (Unit {0}) × Runtime J M) → RanFrom start p
        → IsLimited limit state (executed_of c p)
    executed_of-IsLimited limit state l same (ok u, st) h = record {
      gas_limit = h.0.0.limit ∙ l;
      within = omega (arith, h.0.0.within, h.0.0.limit, l);
      address = ap (λ k. k.1.1.1.1.0) h.0.1 ∙ ap (λ s. s.contract_address) same;
      delta_hash = ap (λ k. k.1.1.1.1.1.0) h.0.1 ∙ ap (λ s. s.delta_hash) same;
      delta_index = ap (λ k. k.1.1.1.1.1.1) h.0.1 ∙ ap (λ s. s.delta_index) same;
    }
    executed_of-IsLimited limit state l same (err e, st) h =
        subst (λ n. IsBounded {A = Executed J} n (err e)) l (bounded e h.1)
      where
        bounded :
            (x : EnclaveError)
            → IsBounded {A = Unit {0}} start.gas.limit (err x)
            → IsBounded {A = Executed J} start.gas.limit (err x)
        bounded (failed_task_error_with_gas used x) k = k
        bounded (failed_task_error x) k = tt
        bounded (system_error x) k = tt
    executed_of-IsLimited limit state l same (panic, st) h = tt

module _ {J M : Type 0} (c : RuntimeCrates J M) (w : Interpreter M) (limit : ℕ) (args : List ℕ)
    (state : ContractState J) (function_name key : List ℕ) where
  abbrev first_runtime : M → Runtime J M
  first_runtime memory = new_runtime memory limit args state function_name key default_costs

  starts : (memory : M) → IsFrom (first_runtime memory) (first_runtime memory)
  starts memory =
      (record { within = omega arith; grown = omega arith; limit = refl; costs = refl }, refl)

  run_module-IsLimited :
      (run : Code M → EngineRun J M (Unit {0}))
      → ((memory : M) (code : Code M)
          → RanFrom (first_runtime memory) (run code (first_runtime memory)))
      → (module_of : Outcome FailedTaskError (M × Code M))
      → IsLimited limit state (run_module c w run limit args state function_name key module_of)
  run_module-IsLimited run ran (ok (memory, code)) =
      executed_of-IsLimited (first_runtime memory) c limit state refl refl _ (ran memory code)
  run_module-IsLimited run ran (err e) = tt
  run_module-IsLimited run ran panic = tt

  -- Whatever the contract does, an execution and a deployment that succeed used no more gas than the
  -- limit and left the address, the hash and the index of the state; an error that carries the gas
  -- that was used carries no more than the limit.
  pub engines-IsLimited :
      (code : List ℕ)
      → IsLimited limit state (compute_engine c w code limit args state function_name key)
        × IsLimited limit state (deploy_engine c w code limit args state function_name key)
  unfolding compute_engine deploy_engine compute_code deploy_code
  engines-IsLimited code = (
    run_module-IsLimited (compute_code c)
        (λ memory body.
          charged_after-RanFrom (first_runtime memory) c _
            (charge_execution-Keeps c (first_runtime memory)) body _ (starts memory))
        (w.create_module code),
    run_module-IsLimited (deploy_code c)
        (λ memory body.
          charged_after-RanFrom (first_runtime memory) c _
            (charge_deployment-Keeps c (first_runtime memory)) body _ (starts memory))
        (create_constructor c w (w.build_constructor code)),
  )
