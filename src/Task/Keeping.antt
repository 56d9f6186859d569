-- ===== src/Task/Keeping.antt =====
-- What the parts of a task leave alone: the keys, and what was known before the execution.
use enigma_core.Prelude.{ℕ, Option, none, some, List, Outcome, ok, err, panic}
use enigma_core.Errors.{EnclaveError}
use enigma_core.Exec as Exec
use enigma_core.Exec.{Exec as Handler, Keeps, keeps_rules, check, lift, pure, modify, chain-after}
use enigma_core.ContractState.{ContractState, EncryptedPatch}
use enigma_core.Worker.{WorkerKeys}
use enigma_core.Task.{Engine, RuntimeResult, TaskCrates, TaskHost, Task, EthereumData}
use enigma_core.Task.Run.{
  ocall, set_result, or_else, store_delta_and_state, prepare_wasm_result, output_task_failure,
  finish, compute,
}

module _ {J P K D : Type 0} (c : TaskCrates J P) (host : TaskHost D)
    (Q : WorkerKeys K → List (List ℕ) → Type 0) where
  abbrev pub Left : Task K D → Type 0
  Left t = Q t.keys t.pre_execution_data

  pub ocall-Keeps : {A : Type 0} (action : Handler D A) → Keeps Left (ocall c host action)
  ocall-Keeps action = record { after = λ t s. s }

  pub set_result-Keeps : (change : _) → Keeps Left (set_result c host change)
  unfolding modify
  set_result-Keeps change = record { after = λ t s. s }

  pub or_else-Keeps :
      {A : Type 0} (x : Outcome EnclaveError A × Task K D) (other : Handler (Task K D) A)
      → Keeps Left other
      → Left x.1
      → Left (or_else c host x other).1
  or_else-Keeps (ok a, t) other keep s = s
  or_else-Keeps (err e, t) other keep s = keep.after t s
  or_else-Keeps (panic, t) other keep s = s

  pub store_delta_and_state-Keeps :
      (delta : Option EncryptedPatch) (state : ContractState J)
      → Keeps Left (store_delta_and_state c host delta state)
  unfolding store_delta_and_state
  store_delta_and_state-Keeps none state = search (keeps_rules)
  store_delta_and_state-Keeps (some d) state = Exec.chain-Keeps _ _ (Exec.check-Keeps _) (λ enc.
      Exec.chain-Keeps _ _ (ocall-Keeps _) (λ u. record {
        after = λ t s.
            or_else-Keeps (ocall c host (host.worker.save_state enc) t) _
              (ocall-Keeps (host.remove_delta d)) s;
      }))

  pub prepare_wasm_result-Keeps :
      (delta : Option EncryptedPatch) (output : List ℕ) (bridge : Option EthereumData) (gas : ℕ)
      → Keeps Left (prepare_wasm_result c host delta output bridge gas)
  unfolding prepare_wasm_result
  prepare_wasm_result-Keeps delta output bridge gas =
      search (ocall-Keeps, set_result-Keeps, keeps_rules) depth 9

  pub output_task_failure-Keeps :
      (gas_limit : ℕ) (e : EnclaveError) (key : List ℕ)
      → Keeps Left (output_task_failure c host gas_limit e key)
  unfolding output_task_failure
  output_task_failure-Keeps gas_limit e key =
      search (ocall-Keeps, set_result-Keeps, keeps_rules) depth 12

  pub finish-Keeps :
      (exec_res : RuntimeResult J) (output : List ℕ) (parts : List (List ℕ))
      → Keeps Left (finish c host exec_res output parts)
  finish-Keeps exec_res output parts =
      search (prepare_wasm_result-Keeps, store_delta_and_state-Keeps, set_result-Keeps, keeps_rules)
        depth 8

  pub compute-Keeps :
      (engine : Engine J) (bytecode callable args io_key address : List ℕ) (gas_limit : ℕ)
      (pre : ContractState J)
      → Keeps Left (compute c host engine bytecode callable args io_key address gas_limit pre)
  unfolding compute
  compute-Keeps engine bytecode callable args io_key address gas_limit pre =
      search (keeps_rules) depth 9
