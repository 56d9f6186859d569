-- ===== src/Task/Once.antt =====
-- A key for inputs and outputs serves one task.
use enigma_core.Prelude.{
  ℕ, ◌≡◌, refl, subst, [], none, List, Outcome, ok, err, panic, Option-cases, inl, inr,
}
use enigma_core.Errors.{EnclaveError}
use enigma_core.Errors.Codes.{EnclaveReturn, keys_error, from_result, into_enclave_return}
use enigma_core.Exec as Exec
use enigma_core.Exec.{Exec as Handler, Keeps, keeps_rules, check, lift, pure, modify, chain-after}
use enigma_core.StateKeys.Store.{get, get-remove_self}
use enigma_core.Worker.{WorkerKeys}
use enigma_core.Task.{Engine, TaskCrates, TaskHost, Task}
use enigma_core.Task.Keeping.{compute-Keeps, finish-Keeps, output_task_failure-Keeps}
use enigma_core.Task.Run.{
  get_io_key, push, ecall_execute_internal, ecall_deploy_internal, with_failure, with_code,
  run_task, ecall_execute, ecall_deploy,
}

-- The tasks of a user.
pub data Call (J : Type 0) : Type 0 where
  execute deploy : Engine J → List ℕ → List ℕ → List ℕ → List ℕ → ℕ → Call J

module _ {J P K D : Type 0} (c : TaskCrates J P) (host : TaskHost D) (user_key : List ℕ) where
  -- The key of the user is not there.
  abbrev pub IsSpent : Task K D → Type 0
  IsSpent t = get user_key t.keys.user_keys ≡ none

  abbrev Spent : WorkerKeys K → List (List ℕ) → Type 0
  Spent keys _ = get user_key keys.user_keys ≡ none

  push-Keeps : (x : List ℕ) → Keeps IsSpent (push c host x)
  unfolding modify
  push-Keeps x = record { after = λ t s. s }

  ecall_execute_internal-Keeps :
      (engine : Engine J) (bytecode callable args user io_key address : List ℕ) (gas_limit : ℕ)
      → Keeps IsSpent (
          ecall_execute_internal c host engine bytecode callable args user io_key address gas_limit)
  unfolding ecall_execute_internal
  ecall_execute_internal-Keeps engine bytecode callable args user io_key address gas_limit =
      search (push-Keeps, (compute-Keeps c host Spent), (finish-Keeps c host Spent), keeps_rules)
        depth 12

  ecall_deploy_internal-Keeps :
      (engine : Engine J) (bytecode callable args user io_key address : List ℕ) (gas_limit : ℕ)
      → Keeps IsSpent
          (ecall_deploy_internal c host engine bytecode callable args user io_key address gas_limit)
  unfolding ecall_deploy_internal
  ecall_deploy_internal-Keeps engine bytecode callable args user io_key address gas_limit =
      search (push-Keeps, (compute-Keeps c host Spent), (finish-Keeps c host Spent), keeps_rules)
        depth 10

  get_io_key-IsSpent : (t : Task K D) → IsSpent (get_io_key c host user_key t).1
  unfolding get_io_key check modify pure Exec.◌>>=◌
  get_io_key-IsSpent t = elim (Option-cases (get user_key t.keys.user_keys)) [
    | inl f ↦ rw f f
    | inr (key, f) ↦ rw f (get-remove_self user_key t.keys.user_keys)
  ]

  with_failure-IsSpent :
      (gas_limit : ℕ) (io_key : List ℕ) (x : Outcome EnclaveError (Unit {0}) × Task K D)
      → IsSpent x.1
      → IsSpent (with_failure c host gas_limit io_key x).1
  with_failure-IsSpent gas_limit io_key (ok u, t) s = s
  with_failure-IsSpent gas_limit io_key (err e, t) s =
      ((output_task_failure-Keeps c host Spent) gas_limit e io_key).after t s
  with_failure-IsSpent gas_limit io_key (panic, t) s = s

  run_task-IsSpent :
      (gas_limit : ℕ) (internal : List ℕ → Handler (Task K D) (Unit {0}))
      → ((io_key : List ℕ) → Keeps IsSpent (internal io_key))
      → (t : Task K D) → IsSpent (run_task c host user_key gas_limit internal t).1
  unfolding run_task
  run_task-IsSpent gas_limit internal keep t =
      chain-after IsSpent (get_io_key c host user_key) _ t (get_io_key-IsSpent t) (λ io_key t₁ e.
        with_failure-IsSpent gas_limit io_key (internal io_key t₁)
          ((keep io_key).after t₁ (subst (λ x. IsSpent x.1) e (get_io_key-IsSpent t))))

  run_task_spent :
      (gas_limit : ℕ) (internal : List ℕ → Handler (Task K D) (Unit {0})) (t : Task K D)
      → IsSpent t
      → with_code c host (run_task c host user_key gas_limit internal t) ≡ (ok keys_error, t)
  unfolding run_task get_io_key check from_result into_enclave_return Exec.◌>>=◌
  run_task_spent gas_limit internal t s = rw s refl

  abbrev pub serve : Call J → Handler (Task K D) EnclaveReturn
  serve (execute engine bytecode callable args address gas_limit) =
      ecall_execute c host engine bytecode callable args user_key address gas_limit
  serve (deploy engine bytecode constructor args address gas_limit) =
      ecall_deploy c host engine bytecode constructor args address user_key gas_limit

  serve-IsSpent : (call : Call J) (t : Task K D) → IsSpent (serve call t).1
  unfolding ecall_execute ecall_deploy
  serve-IsSpent (execute engine bytecode callable args address gas_limit) t =
      run_task-IsSpent gas_limit _
        (λ io_key.
          ecall_execute_internal-Keeps engine bytecode callable args user_key io_key address
            gas_limit)
        _
  serve-IsSpent (deploy engine bytecode constructor args address gas_limit) t =
      run_task-IsSpent gas_limit _
        (λ io_key.
          ecall_deploy_internal-Keeps engine bytecode constructor args user_key io_key address
            gas_limit)
        _

  serve_spent :
      (call : Call J) (t : Task K D)
      → IsSpent t
      → serve call t ≡ (ok keys_error, record t { pre_execution_data = [] })
  unfolding ecall_execute ecall_deploy
  serve_spent (execute engine bytecode callable args address gas_limit) t s =
      run_task_spent gas_limit _ (record t { pre_execution_data = [] }) s
  serve_spent (deploy engine bytecode constructor args address gas_limit) t s =
      run_task_spent gas_limit _ (record t { pre_execution_data = [] }) s

  -- A key serves one task: after an execution or a deployment for a user, however it ended, the next
  -- one for that user is refused with the code of a missing key, and the store, the keys and the
  -- result stay as they were, until a new key is agreed.
  pub serve_once :
      (first second : Call J) (t : Task K D)
      → serve second (serve first t).1
        ≡ (ok keys_error, record ((serve first t).1) { pre_execution_data = [] })
  serve_once first second t = serve_spent second (serve first t).1 (serve-IsSpent first t)
