-- ===== src/Task/Finished.antt =====
-- What `finish` leaves in the result of a task that succeeded.
use enigma_core.Prelude.{
  ℕ, ◌≡◌, refl, sym, ap, ◌∙◌, subst, Option, none, some, List, Outcome, ok, err, panic,
}
use enigma_core.Errors.{EnclaveError}
use enigma_core.Exec as Exec
use enigma_core.Exec.{
  Exec as Handler, Keeps, Refuses, keeps_rules, check, lift, pure, modify, >>=-eq-ok, >>=-eq-err,
  next-Refuses,
}
use enigma_core.ContractState.{ContractState, EncryptedPatch}
use enigma_core.Task.{
  ExecuteResult, RuntimeResult, TaskCrates, TaskHost, Task, EthereumData, sign_multiple,
}
use enigma_core.Task.Run.{ocall, or_else, store_delta_and_state, prepare_wasm_result, finish}

module _ {J P K D : Type 0} (c : TaskCrates J P) (host : TaskHost D) where
  -- The ocalls keep what is said of the result only.
  ocall-Keeps :
      (Q : ExecuteResult → Type 0) {A : Type 0} (action : Handler D A)
      → Keeps {State = Task K D} (λ t. Q t.result) (ocall c host action)
  ocall-Keeps Q action = record { after = λ t q. q }

  or_else-after :
      (Q : ExecuteResult → Type 0) (x : Outcome EnclaveError (Unit {0}) × Task K D)
      (other : Handler D (Unit {0}))
      → Q x.1.result
      → Q (or_else c host x (ocall c host other)).1.result
  or_else-after Q (ok a, t) other q = q
  or_else-after Q (err e, t) other q = q
  or_else-after Q (panic, t) other q = q

  store_delta_and_state-Keeps :
      (Q : ExecuteResult → Type 0) (delta : Option EncryptedPatch) (state : ContractState J)
      → Keeps {State = Task K D} (λ t. Q t.result) (store_delta_and_state c host delta state)
  unfolding store_delta_and_state
  store_delta_and_state-Keeps Q none state = search (keeps_rules)
  store_delta_and_state-Keeps Q (some d) state = Exec.chain-Keeps _ _ (Exec.check-Keeps _) (λ enc.
      Exec.chain-Keeps _ _ (ocall-Keeps Q (host.save_delta d)) (λ u. record {
        after = λ t q.
            or_else-after Q (ocall c host (host.worker.save_state enc) t) (host.remove_delta d) q;
      }))

  -- The gas in the result is the given one.
  prepare_wasm_result-used_gas :
      (delta : Option EncryptedPatch) (output : List ℕ) (bridge : Option EthereumData) (gas : ℕ)
      (t t' : Task K D)
      → prepare_wasm_result c host delta output bridge gas t ≡ (ok tt, t')
      → t'.result.used_gas ≡ gas
  unfolding prepare_wasm_result modify
  prepare_wasm_result-used_gas delta output bridge gas t t' k =
      let (o, t₁, saved, k₁) = >>=-eq-ok _ _ t t' tt k in
      let (u, t₂, set, k₂) = >>=-eq-ok _ _ t₁ t' tt k₁ in
      let (d, t₃, saved', k₃) = >>=-eq-ok _ _ t₂ t' tt k₂ in
      let (u', t₄, set', k₄) = >>=-eq-ok _ _ t₃ t' tt k₃ in
      let (e, t₅, saved'', k₅) = >>=-eq-ok _ _ t₄ t' tt k₄ in
      sym (ap (λ x. x.1.result.used_gas) k₅)
      ∙ sym (ap (λ x. x.1.result.used_gas) saved'')
      ∙ sym (ap (λ x. x.1.result.used_gas) set')
      ∙ sym (ap (λ x. x.1.result.used_gas) saved')
      ∙ sym (ap (λ x. x.1.result.used_gas) set)

  pub finish-ok :
      (exec_res : RuntimeResult J) (output : List ℕ) (parts : List (List ℕ)) (t t' : Task K D)
      → finish c host exec_res output parts t ≡ (ok tt, t')
      → (sign_multiple c parts ≡ ok t'.result.signature) × (t'.result.used_gas ≡ exec_res.used_gas)
  unfolding lift modify
  finish-ok exec_res output parts t t' k =
      let (u, t₁, prepared, k₁) = >>=-eq-ok _ _ t t' tt k in
      let (sig, t₂, signed, k₂) = >>=-eq-ok _ _ t₁ t' tt k₁ in
      let (u', t₃, set, k₃) = >>=-eq-ok _ _ t₂ t' tt k₂ in
      let gas =
        prepare_wasm_result-used_gas exec_res.state_delta output exec_res.ethereum_bridge
          exec_res.used_gas t t₁ prepared in
      let kept : t'.result ≡ t₃.result =
        subst (λ x. x.1.result ≡ t₃.result) k₃
          ((store_delta_and_state-Keeps (λ r. r ≡ t₃.result) exec_res.state_delta
              exec_res.updated_state).after
            t₃ refl) in
      (
        ap (λ x. x.0) signed
            ∙ ap ok (ap (λ x. x.1.result.signature) set ∙ ap (λ r. r.signature) (sym kept)),
        ap (λ r. r.used_gas) kept
            ∙ sym (ap (λ x. x.1.result.used_gas) set)
            ∙ sym (ap (λ x. x.1.result.used_gas) signed)
            ∙ gas,
      )
