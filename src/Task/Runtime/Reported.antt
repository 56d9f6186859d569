-- ===== src/Task/Runtime/Reported.antt =====
-- What an execution reports that ran in the engine.
use enigma_core.Prelude.{
  ℕ, ◌≤◌, ◌≡◌, refl, subst, ◌∙◌, Bool-cases, inl, inr, Option, List, Outcome, ok, err, panic, arith,
  not, ◌||◌,
}
use enigma_core.Errors.{EnclaveError}
use enigma_core.Errors.Codes.{success}
use enigma_core.ContractState.{
  ContractState, EncryptedPatch, is_initial, generate_delta_and_update_state,
}
use enigma_core.Exec.{Keeps, chain-Keeps, check-Keeps, modify-Keeps, pure-Keeps}
use enigma_core.Gas.{RuntimeGas, used_gas}
use enigma_core.Task.{
  Executed, RuntimeResult, TaskCrates, TaskHost, Task, states_eq, into_result, with_delta,
}
use enigma_core.Task.Computed.{IsExecuted}
use enigma_core.Task.Outcomes.{ecall_execute-IsExecuted}
use enigma_core.Task.Run.{ecall_execute}
use enigma_core.Task.Runtime.{RuntimeCrates}
use enigma_core.Task.Runtime.Engine.{Interpreter, compute_engine}
use enigma_core.Task.Runtime.Bounded.{IsRun, IsLimited, engines-IsLimited}

used_gas-le : (g : RuntimeGas) → used_gas g ≤ g.counter
unfolding used_gas
used_gas-le g = ground arith

module _ {J P : Type 0} (c : TaskCrates J P) where
  -- The gas and the contract of a result.
  abbrev IsOf : Executed J → RuntimeResult J → Type 0
  IsOf e res =
      (res.used_gas ≡ used_gas e.gas)
      × (res.updated_state.contract_address ≡ e.post_execution_state.contract_address)

  with_delta-IsOf :
      (e : Executed J) (p : Outcome EnclaveError EncryptedPatch × ContractState J)
      (res : RuntimeResult J)
      → p.1.contract_address ≡ e.post_execution_state.contract_address
      → with_delta c e p ≡ ok res
      → IsOf e res
  with_delta-IsOf e (ok d, post) res same h = ground arith
  with_delta-IsOf e (err x, post) res same h = cc
  with_delta-IsOf e (panic, post) res same h = cc

  generate-address :
      (address : List ℕ) (old : ContractState J) (key : List ℕ) (drawn : Option (List ℕ))
      → Keeps
          (λ (new : ContractState J). new.contract_address ≡ address)
          (generate_delta_and_update_state c.states old key drawn)
  unfolding generate_delta_and_update_state
  generate-address address old key drawn = chain-Keeps _ _ (modify-Keeps _ (λ new same. same)) (λ u.
      chain-Keeps _ _ (check-Keeps _)
        (λ enc_delta. chain-Keeps _ _ (modify-Keeps _ (λ new same. same)) (λ v. pure-Keeps _)))

  into_result-IsOf :
      (key : List ℕ) (pre : ContractState J) (e : Executed J) (res : RuntimeResult J)
      → into_result c key pre e ≡ ok res
      → IsOf e res
  unfolding into_result
  into_result-IsOf key pre e res h =
      elim (Bool-cases (not (states_eq c pre e.post_execution_state) || is_initial pre)) [
        | inl changed ↦
            with_delta-IsOf e _ res
              ((generate-address e.post_execution_state.contract_address pre key c.delta_draw).after
                e.post_execution_state refl)
              (rw changed at h)
        | inr same ↦ ground arith
      ]

module _ {J P K D M : Type 0} (c : TaskCrates J P) (host : TaskHost D) (r : RuntimeCrates J M)
    (w : Interpreter M) where
  -- An execution with the engine of wasm that answers `Success` reports no more gas than the limit,
  -- is an execution as `IsExecuted` describes it, and leaves a state of the contract whose state it
  -- ran on.
  pub ecall_execute-used_gas :
      (bytecode callable args address user_key : List ℕ) (gas_limit : ℕ) (t t' : Task K D)
      → ecall_execute c host
          (compute_engine r w)
          bytecode
          callable
          args
          user_key
          address
          gas_limit
          t
        ≡ (ok success, t')
      → (t'.result.used_gas ≤ gas_limit)
        × (io_key : List ℕ) × (done : IsExecuted c host
            (compute_engine r w)
            bytecode
            callable
            args
            user_key
            io_key
            address
            gas_limit
            t.keys.state_keys
            t.db
            t'.result)
        × (done.exec_res.updated_state.contract_address ≡ done.pre.contract_address)
  ecall_execute-used_gas bytecode callable args address user_key gas_limit t t' k =
      let (io_key, _, done) =
        ecall_execute-IsExecuted c host (compute_engine r w) bytecode callable args address user_key
          gas_limit t t' k in
      let run = done.computed in
      let (gas_of, same) =
        into_result-IsOf c run.state_key done.pre run.executed done.exec_res run.results in
      let ran : IsRun gas_limit done.pre run.executed =
        subst (IsLimited gas_limit done.pre) run.runs
          (engines-IsLimited r w gas_limit run.inputs.0 done.pre run.inputs.1 run.state_key
            bytecode).0 in
      (
        omega (arith, ran.within, done.gas, gas_of, used_gas-le run.executed.gas),
        io_key,
        done,
        same ∙ ran.address,
      )
