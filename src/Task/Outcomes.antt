-- ===== src/Task/Outcomes.antt =====
-- What a task that answers a code leaves in its result.
use enigma_core.Prelude.{
  ℕ, ◌≡◌, sym, ap, ap₂, ◌∙◌, subst, Option, some, List, [], Outcome, ok, err, panic, arith,
}
use enigma_core.Errors.{EnclaveError}
use enigma_core.Errors.Codes.{EnclaveReturn, success, from_result, from_result-success_iff}
use enigma_core.Exec.{
  Exec as Handler, Keeps, Refuses, check, lift, pure, modify, >>=-eq-ok, next-Refuses,
}
use enigma_core.ContractState.{ContractState}
use enigma_core.StateKeys.Store.{get}
use enigma_core.Worker.{worker_state_key, or_missing_key}
use enigma_core.Worker.Build.{get_known}
use enigma_core.Task.{Engine, RuntimeResult, TaskCrates, TaskHost, Task}
use enigma_core.Task.Finished.{finish-ok}
use enigma_core.Task.Computed.{IsComputed, IsExecuted}
use enigma_core.Task.Run.{
  get_io_key, output_task_failure, compute, ecall_execute_internal, with_failure, with_code,
  run_task, ecall_execute,
}

or_missing_key-ok :
    (key_type : _) (o : Option (List ℕ)) (a : List ℕ)
    → ◌≡◌ {A = Outcome EnclaveError (List ℕ)} (or_missing_key key_type o) (ok a)
    → o ≡ some a
or_missing_key-ok key_type o a h = ground arith

module _ {J P K D : Type 0} (c : TaskCrates J P) (host : TaskHost D) where
  compute-ok :
      (engine : Engine J) (bytecode callable args io_key address : List ℕ) (gas_limit : ℕ)
      (pre : ContractState J) (t t' : Task K D) (exec_res : RuntimeResult J)
      → compute c host engine bytecode callable args io_key address gas_limit pre t
        ≡ (ok exec_res, t')
      → IsComputed c engine bytecode callable args io_key address gas_limit pre t.keys.state_keys
          exec_res
  unfolding compute lift check worker_state_key
  compute-ok engine bytecode callable args io_key address gas_limit pre t t' exec_res k =
      let (inputs, t₁, dec, k₁) = >>=-eq-ok _ _ t t' exec_res k in
      let (key, t₂, has, k₂) = >>=-eq-ok _ _ t₁ t' exec_res k₁ in
      let (executed, t₃, runs, k₃) = >>=-eq-ok _ _ t₂ t' exec_res k₂ in
      record {
        inputs = inputs;
        decrypted = ap (λ x. x.0) dec;
        state_key = key;
        has_key =
            ap (λ x. get address x.1.keys.state_keys) dec
            ∙ or_missing_key-ok "State Key" (get address t₁.keys.state_keys) key
                (ap (λ x. x.0) has);
        executed = executed;
        runs = ap (λ x. x.0) runs;
        results = ap (λ x. x.0) k₃;
      }

  ecall_execute_internal-ok :
      (engine : Engine J) (bytecode callable args user_key io_key address : List ℕ) (gas_limit : ℕ)
      (t t' : Task K D)
      → ecall_execute_internal c host engine bytecode callable args user_key io_key address
          gas_limit t
        ≡ (ok tt, t')
      → IsExecuted c host engine bytecode callable args user_key io_key address gas_limit
          t.keys.state_keys t.db t'.result
  unfolding ecall_execute_internal lift check modify
  ecall_execute_internal-ok engine bytecode callable args user_key io_key address gas_limit t t' k =
      let (u₁, t₁, pushed, k₁) = >>=-eq-ok _ _ t t' tt k in
      let (u₂, t₂, pushed', k₂) = >>=-eq-ok _ _ t₁ t' tt k₁ in
      let (pre, t₃, known, k₃) = >>=-eq-ok _ _ t₂ t' tt k₂ in
      let (res, t₄, computed, k₄) = >>=-eq-ok _ _ t₃ t' tt k₃ in
      let (out, t₅, enc, k₅) = >>=-eq-ok _ _ t₄ t' tt k₄ in
      let (signed, gas) = finish-ok c host res out _ t₅ t' k₅ in
      let keys : t₂.keys.state_keys ≡ t.keys.state_keys =
        sym (ap (λ x. x.1.keys.state_keys) pushed') ∙ sym (ap (λ x. x.1.keys.state_keys) pushed) in
      let db : t₂.db ≡ t.db = sym (ap (λ x. x.1.db) pushed') ∙ sym (ap (λ x. x.1.db) pushed) in
      let keys' : t₃.keys.state_keys ≡ t.keys.state_keys =
        sym (ap (λ x. x.1.keys.state_keys) known) ∙ keys in
      record {
        pre = pre;
        known =
            ap (λ ks. get_known c.states host.worker ks address t.db) (sym keys)
            ∙ ap (λ db. get_known c.states host.worker t₂.keys.state_keys address db) (sym db)
            ∙ ap (λ x. x.0) known;
        exec_res = res;
        computed =
            subst
              (λ ks. IsComputed c engine bytecode callable args io_key address gas_limit pre ks res)
              keys'
              (compute-ok engine bytecode callable args io_key address gas_limit pre t₃ t₄ res
                computed);
        encrypted_output = out;
        encrypts = ap (λ x. x.0) enc;
        signed = signed;
        gas = gas;
      }

  any-Keeps : {A : Type 0} (action : Handler (Task K D) A) → Keeps (λ t. Unit {0}) action
  any-Keeps action = record { after = λ t u. tt }

  lift_err-Refuses :
      {A : Type 0} (e : EnclaveError) → Refuses {R = A} (λ (t : Task K D). Unit {0}) (lift (err e))
  unfolding lift
  lift_err-Refuses e = record { never = λ t u r h. cc h; keeps = λ t u. tt }

  output_task_failure-Refuses :
      (gas_limit : ℕ) (e : EnclaveError) (key : List ℕ)
      → Refuses (λ (t : Task K D). Unit {0}) (output_task_failure c host gas_limit e key)
  unfolding output_task_failure
  output_task_failure-Refuses gas_limit e key =
      search (any-Keeps, next-Refuses, lift_err-Refuses) depth 12

  with_failure-ok :
      (gas_limit : ℕ) (io_key : List ℕ) (x : Outcome EnclaveError (Unit {0}) × Task K D)
      (t' : Task K D)
      → with_failure c host gas_limit io_key x ≡ (ok tt, t')
      → x ≡ (ok tt, t')
  with_failure-ok gas_limit io_key (ok u, t) t' k = k
  with_failure-ok gas_limit io_key (err e, t) t' k =
      absurd ((output_task_failure-Refuses gas_limit e io_key).never t tt tt (ap (λ x. x.0) k))
  with_failure-ok gas_limit io_key (panic, t) t' k = cc

  get_io_key-ok :
      (user_key io_key : List ℕ) (t t' : Task K D)
      → get_io_key c host user_key t ≡ (ok io_key, t')
      → (get user_key t.keys.user_keys ≡ some io_key)
        × (t'.db ≡ t.db)
        × (t'.keys.state_keys ≡ t.keys.state_keys)
  unfolding get_io_key check modify pure
  get_io_key-ok user_key io_key t t' k =
      let (key, t₁, found, k₁) = >>=-eq-ok _ _ t t' io_key k in
      let (u, t₂, removed, k₂) = >>=-eq-ok _ _ t₁ t' io_key k₁ in
      let same : key ≡ io_key = cc (ap (λ x. x.0) k₂) in
      let stay : t₁ ≡ t = sym (ap (λ x. x.1) found) in
      let end : t' ≡ t₂ = sym (ap (λ x. x.1) k₂) in
      (
        or_missing_key-ok _ _ io_key (ap (λ x. x.0) found ∙ ap ok same),
        ap (λ x. x.db) end ∙ sym (ap (λ x. x.1.db) removed) ∙ ap (λ x. x.db) stay,
        ap (λ x. x.keys.state_keys) end
            ∙ sym (ap (λ x. x.1.keys.state_keys) removed)
            ∙ ap (λ x. x.keys.state_keys) stay,
      )

  with_code-ok :
      (x : Outcome EnclaveError (Unit {0}) × Task K D) (code : EnclaveReturn) (t' : Task K D)
      → with_code c host x ≡ (ok code, t')
      → (from_result x.0 ≡ ok code) × (x.1 ≡ t')
  with_code-ok x code t' k = (ap (λ y. y.0) k, ap (λ y. y.1) k)

  -- An execution answers `Success` only for an agreed key of the user, and only if it computed: the
  -- stored state of the contract decrypts, the inputs decrypt with that key, the engine ran on both
  -- and its output is encrypted with that key; the signature in the result is over the code, the
  -- inputs, the hashes of the old and the new delta and of the output, the gas and the payload, and
  -- the gas in the result is that of the run.
  pub ecall_execute-IsExecuted :
      (engine : Engine J) (bytecode callable args address user_key : List ℕ) (gas_limit : ℕ)
      (t t' : Task K D)
      → ecall_execute c host engine bytecode callable args user_key address gas_limit t
        ≡ (ok success, t')
      → (io_key : List ℕ) × (get user_key t.keys.user_keys ≡ some io_key)
        × IsExecuted c host engine bytecode callable args user_key io_key address gas_limit
            t.keys.state_keys t.db t'.result
  unfolding ecall_execute run_task
  ecall_execute-IsExecuted engine bytecode callable args address user_key gas_limit t t' k =
      let (code, same) = with_code-ok _ success t' k in
      let done = (from_result-success_iff _).0 code in
      let (io_key, t₁, got, k₁) =
        >>=-eq-ok _ _ (record t { pre_execution_data = [] }) t' tt
          (ap₂ (λ o s. (o, s)) done same) in
      let (found, db, keys) = get_io_key-ok user_key io_key _ t₁ got in
      let ran =
        ecall_execute_internal-ok engine bytecode callable args user_key io_key address gas_limit t₁
          t' (with_failure-ok gas_limit io_key _ t' k₁) in
      (
        io_key,
        found,
        subst
            (λ m.
              IsExecuted c host engine bytecode callable args user_key io_key address gas_limit m
                t.db t'.result)
            keys
            (subst
              (λ d.
                IsExecuted c host engine bytecode callable args user_key io_key address gas_limit
                  t₁.keys.state_keys d t'.result)
              db ran),
      )
