-- ===== src/Task/Failures.antt =====
-- What a task that failed leaves in its result.
use enigma_core.Prelude.{
  ℕ, ◌≡◌, inl, inr, refl, ap, ap₂, subst, List, [], ◌∷◌, Outcome, ok, err, panic,
}
use enigma_core.Errors.{EnclaveError}
use enigma_core.Errors.Codes.{task_failure as task_failure_code}
use enigma_core.Exec as Exec
use enigma_core.Exec.{
  Exec as Handler, Keeps, keeps_rules, check, lift, pure, modify, >>=-eq-ok, >>=-eq-err,
}
use enigma_core.Worker.Build.{get_known}
use enigma_core.Worker.{WorkerKeys}
use enigma_core.Task.{
  execution_parts, Engine, TaskCrates, TaskHost, Task, sign_multiple, encrypted, failure_parts,
}
use enigma_core.Task.Computed.{inputs_hash}
use enigma_core.Task.Keeping.{compute-Keeps, finish-Keeps, output_task_failure-Keeps}
use enigma_core.Task.Run.{
  ocall, set_result, get_io_key, output_task_failure, finish, compute, ecall_execute_internal,
  with_failure, run_task, ecall_execute,
}
use enigma_core.Task.Errors.{
  IsTaskError, from_crypto-error, or_missing_key-error, task_failure-error, from_result-IsTaskError,
}

-- What is known of an execution before it runs.
abbrev pub known_before :
    {J P : Type 0} → TaskCrates J P → List ℕ → List ℕ → List ℕ → List ℕ → List ℕ → List (List ℕ)
known_before c bytecode callable args address user_key =
    inputs_hash c callable args address user_key ∷ c.states.keccak256 bytecode ∷ []

module _ {J P K D : Type 0} (c : TaskCrates J P) (host : TaskHost D) where
  -- The signature in the result is that of a failure with the gas in the result.
  abbrev pub SignsFailure : ℕ → Task K D → Type 0
  SignsFailure gas_limit t =
      sign_multiple c (failure_parts t.pre_execution_data gas_limit t.result.used_gas)
      ≡ ok t.result.signature

  ocall_signed-Keeps :
      (gas_limit : ℕ) {A : Type 0} (action : Handler D A)
      → Keeps (SignsFailure gas_limit) (ocall c host action)
  ocall_signed-Keeps gas_limit action = record { after = λ t s. s }

  -- The output is written after the signature.
  failure_output-Keeps :
      (gas_limit : ℕ) (key : List ℕ) (failure : EnclaveError)
      → Keeps (SignsFailure gas_limit) (
          Exec.◌>>=◌ (lift (encrypted c (c.error_text failure) key)) (λ encrypted_result.
            Exec.◌>>=◌ (ocall c host (host.save_to_untrusted_memory encrypted_result)) (λ output.
              Exec.◌>>=◌
                (set_result c host (λ r. record r { output = output }))
                (λ _. lift {R = Unit {0}} (err failure)))))
  failure_output-Keeps gas_limit key failure = search (ocall_signed-Keeps, keeps_rules) depth 9

  output_task_failure-signs :
      (gas_limit : ℕ) (e x : EnclaveError) (key : List ℕ) (t t' : Task K D)
      → output_task_failure c host gas_limit e key t ≡ (err x, t')
      → IsTaskError x
      → SignsFailure gas_limit t'
  unfolding output_task_failure lift check modify sign_multiple
  output_task_failure-signs gas_limit e x key t t' k is = elim (>>=-eq-err _ _ t t' x k) [
    | inl f ↦ absurd (cc f)
    | inr (u, t₁, s₁, k₁) ↦ elim (>>=-eq-err _ _ t₁ t' x k₁) [
      | inl f ↦ absurd (task_failure-error e x (ap (λ y. y.0) f) is)
      | inr (failure, t₂, s₂, k₂) ↦ elim (>>=-eq-err _ _ t₂ t' x k₂) [
        | inl f ↦ absurd (cc f)
        | inr (u', t₃, s₃, k₃) ↦ elim (>>=-eq-err _ _ t₃ t' x k₃) [
          | inl f ↦ absurd (from_crypto-error _ x (ap (λ y. y.0) f) is)
          | inr (sig, t₄, s₄, k₄) ↦ elim (>>=-eq-err _ _ t₄ t' x k₄) [
            | inl f ↦ absurd (cc f)
            | inr (u'', t₅, s₅, k₅) ↦
                let made : SignsFailure gas_limit
                    (record t₄ { result = record (t₄.result) { signature = sig } }) =
                  subst
                    (λ s.
                      sign_multiple c
                        (failure_parts s.pre_execution_data gas_limit s.result.used_gas)
                      ≡ ok sig)
                    (ap (λ y. y.1) s₄) (ap (λ y. y.0) s₄) in
                subst (SignsFailure gas_limit) (ap (λ y. y.1) k₅) (
                  (failure_output-Keeps gas_limit key failure.0).after t₅
                    (subst (SignsFailure gas_limit) (ap (λ y. y.1) s₅) made))
          ]
        ]
      ]
    ]
  ]

  with_failure-signs :
      (gas_limit : ℕ) (io_key : List ℕ) (o : Outcome EnclaveError (Unit {0}) × Task K D)
      (x : EnclaveError) (t' : Task K D)
      → with_failure c host gas_limit io_key o ≡ (err x, t')
      → IsTaskError x
      → SignsFailure gas_limit t'
  with_failure-signs gas_limit io_key (ok u, t) x t' k is = cc k
  with_failure-signs gas_limit io_key (err e, t) x t' k is =
      output_task_failure-signs gas_limit e x io_key t t' k is
  with_failure-signs gas_limit io_key (panic, t) x t' k is = cc k

  abbrev Known : List (List ℕ) → WorkerKeys K → List (List ℕ) → Type 0
  Known known _ pre_execution_data = pre_execution_data ≡ known

  with_failure-knows :
      (known : List (List ℕ)) (gas_limit : ℕ) (io_key : List ℕ)
      (o : Outcome EnclaveError (Unit {0}) × Task K D)
      → o.1.pre_execution_data ≡ known
      → (with_failure c host gas_limit io_key o).1.pre_execution_data ≡ known
  with_failure-knows known gas_limit io_key (ok u, t) s = s
  with_failure-knows known gas_limit io_key (err e, t) s =
      (output_task_failure-Keeps c host (Known known) gas_limit e io_key).after t s
  with_failure-knows known gas_limit io_key (panic, t) s = s

  known-after :
      (known : List (List ℕ)) (action : Handler (Task K D) (Unit {0})) (t : Task K D)
      → Keeps (λ t. t.pre_execution_data ≡ known) action
      → t.pre_execution_data ≡ known
      → (action t).1.pre_execution_data ≡ known
  known-after known action t keep s = keep.after t s

  executed-knows :
      (engine : Engine J) (bytecode callable args user_key io_key address : List ℕ) (gas_limit : ℕ)
      (t : Task K D)
      → t.pre_execution_data ≡ []
      → (ecall_execute_internal c host engine bytecode callable args user_key io_key address
          gas_limit t).1.pre_execution_data
        ≡ known_before c bytecode callable args address user_key
  unfolding ecall_execute_internal modify Exec.◌>>=◌
  executed-knows engine bytecode callable args user_key io_key address gas_limit t s =
      known-after (known_before c bytecode callable args address user_key)
        (Exec.◌>>=◌ (check (λ t. get_known c.states host.worker t.keys.state_keys address t.db))
          (λ pre.
            Exec.◌>>=◌ (compute c host engine bytecode callable args io_key address gas_limit pre)
              (λ exec_res.
                Exec.◌>>=◌ (lift (encrypted c exec_res.output io_key)) (λ encrypted_output.
                  finish c host exec_res encrypted_output (
                    execution_parts c (c.states.keccak256 bytecode)
                      (inputs_hash c callable args address user_key) pre exec_res encrypted_output
                      gas_limit)))))
        _
        (search (compute-Keeps c host (Known _), finish-Keeps c host (Known _), keeps_rules) depth
          8)
        (rw s refl)

  get_io_key-err :
      (user_key : List ℕ) (x : EnclaveError) (t t' : Task K D)
      → get_io_key c host user_key t ≡ (err x, t')
      → ¬ IsTaskError x
  unfolding get_io_key check modify pure
  get_io_key-err user_key x t t' k = elim (>>=-eq-err _ _ t t' x k) [
    | inl f ↦ or_missing_key-error _ _ x (ap (λ y. y.0) f)
    | inr (io_key, t₁, s₁, k₁) ↦ elim (>>=-eq-err _ _ t₁ t' x k₁) [
      | inl f ↦ absurd (cc f)
      | inr (u, t₂, s₂, k₂) ↦ absurd (cc k₂)
    ]
  ]

  get_io_key-knows :
      (known : List (List ℕ)) (user_key : List ℕ)
      → Keeps (λ (t : Task K D). t.pre_execution_data ≡ known) (get_io_key c host user_key)
  unfolding get_io_key
  get_io_key-knows known user_key =
      Exec.chain-Keeps _ _ (Exec.check-Keeps _)
        (λ key. Exec.chain-Keeps _ _ (Exec.modify-Keeps _ (λ t s. s)) (λ u. Exec.pure-Keeps _))

  -- An execution that answers `TaskFailure` has left in its result the signature over the hashes of
  -- the encrypted inputs and of the code, the gas limit, the gas that it reports as used, and the
  -- mark of a failure; whatever failed, and whatever the host answered.
  pub ecall_execute-signs_failure :
      (engine : Engine J) (bytecode callable args address user_key : List ℕ) (gas_limit : ℕ)
      (t t' : Task K D)
      → ecall_execute c host engine bytecode callable args user_key address gas_limit t
        ≡ (ok task_failure_code, t')
      → sign_multiple c (
          failure_parts
            (known_before c bytecode callable args address user_key)
            gas_limit
            t'.result.used_gas)
        ≡ ok t'.result.signature
  unfolding ecall_execute run_task
  ecall_execute-signs_failure engine bytecode callable args address user_key gas_limit t t' k =
      let (x, failed, is) = from_result-IsTaskError _ (ap (λ y. y.0) k) in
      elim (>>=-eq-err _ _ (record t { pre_execution_data = [] }) t' x
        (ap₂ (λ o s. (o, s)) failed (ap (λ y. y.1) k))) [
          | inl f ↦ absurd (get_io_key-err user_key x _ t' f is)
          | inr (io_key, t₁, got, k₁) ↦
              let empty : t₁.pre_execution_data ≡ [] =
                subst (λ y. y.1.pre_execution_data ≡ []) got
                  ((get_io_key-knows [] user_key).after (record t { pre_execution_data = [] })
                    refl) in
              let known : t'.pre_execution_data
                  ≡ known_before c bytecode callable args address user_key =
                subst
                  (λ y.
                    y.1.pre_execution_data ≡ known_before c bytecode callable args address user_key)
                  k₁
                  (with_failure-knows _ gas_limit io_key _ (
                    executed-knows engine bytecode callable args user_key io_key address gas_limit
                      t₁ empty)) in
              subst
                (λ ps.
                  sign_multiple c (failure_parts ps gas_limit t'.result.used_gas)
                  ≡ ok t'.result.signature)
                known (with_failure-signs gas_limit io_key _ x t' k₁ is)
        ]
