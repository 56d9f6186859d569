-- ===== src/Task/Storing.antt =====
-- What `store_delta_and_state` stores.
use enigma_core.Prelude.{
  ◌≡◌, ◌⊎◌, inl, inr, refl, sym, ap, ◌∙◌, Option, none, some, Outcome, ok, err, panic,
}
use enigma_core.Errors.{EnclaveError}
use enigma_core.Exec.{Exec as Handler, check, pure, >>=-eq-ok}
use enigma_core.ContractState.{ContractState, EncryptedContractState, EncryptedPatch}
use enigma_core.Worker.Build.{encrypt_known}
use enigma_core.Task.{TaskCrates, TaskHost, Task}
use enigma_core.Task.Run.{ocall, or_else, store_delta_and_state}

module _ {J P K D : Type 0} (c : TaskCrates J P) (host : TaskHost D) where
  -- The delta and the state are stored.
  pub record IsStored (d : EncryptedPatch) (state : ContractState J) (t t' : Task K D)
      : Type 0 where
    pub enc_state : EncryptedContractState
    pub encrypted :
        encrypt_known c.states host.worker t.keys.state_keys state c.state_draw ≡ ok enc_state
    pub between : D
    pub delta_saved : host.save_delta d t.db ≡ (ok tt, between)
    pub state_saved : host.worker.save_state enc_state between ≡ (ok tt, t'.db)

  -- The state was not stored, and the delta was taken back.
  pub record IsTakenBack (d : EncryptedPatch) (state : ContractState J) (t t' : Task K D)
      : Type 0 where
    pub enc_state : EncryptedContractState
    pub encrypted :
        encrypt_known c.states host.worker t.keys.state_keys state c.state_draw ≡ ok enc_state
    pub between : D
    pub delta_saved : host.save_delta d t.db ≡ (ok tt, between)
    pub failed : D
    pub error : EnclaveError
    pub state_refused : host.worker.save_state enc_state between ≡ (err error, failed)
    pub delta_removed : host.remove_delta d failed ≡ (ok tt, t'.db)

  ocall-ok :
      (action : Handler D (Unit {0})) (t t' : Task K D)
      → ocall c host action t ≡ (ok tt, t')
      → action t.db ≡ (ok tt, t'.db)
  ocall-ok action t t' k = ap (λ x. (x.0, x.1.db)) k

  or_else-ok :
      (x : Outcome EnclaveError (Unit {0}) × Task K D) (other : _) (t' : Task K D)
      → or_else c host x other ≡ (ok tt, t')
      → (x ≡ (ok tt, t')) ⊎ ((e : EnclaveError) × (x.0 ≡ err e) × (other x.1 ≡ (ok tt, t')))
  or_else-ok (ok u, t) other t' k = inl k
  or_else-ok (err e, t) other t' k = inr (e, refl, k)
  or_else-ok (panic, t) other t' k = cc

  -- When `store_delta_and_state` succeeds there was no delta and nothing changed, or the delta and
  -- the state are stored, or the host refused the state and took the delta back, so that neither is
  -- stored: in that case too the task goes on as a success.
  pub store_delta_and_state-outcome :
      (delta : Option EncryptedPatch) (state : ContractState J) (t t' : Task K D)
      → store_delta_and_state c host delta state t ≡ (ok tt, t')
      → ((delta ≡ none) × (t' ≡ t))
        ⊎ ((d : EncryptedPatch) × (delta ≡ some d)
            × (IsStored d state t t' ⊎ IsTakenBack d state t t'))
  unfolding store_delta_and_state pure check
  store_delta_and_state-outcome none state t t' k = inl (refl, ap (λ x. x.1) (sym k))
  store_delta_and_state-outcome (some d) state t t' k =
      let (enc, t₁, made, k₁) = >>=-eq-ok _ _ t t' tt k in
      let (u, t₂, saved, k₂) = >>=-eq-ok _ _ t₁ t' tt k₁ in
      let stay : t₁ ≡ t = ap (λ x. x.1) (sym made) in
      let first : encrypt_known c.states host.worker t.keys.state_keys state c.state_draw ≡ ok enc =
        ap (λ x. x.0) made in
      let delta_saved : host.save_delta d t.db ≡ (ok tt, t₂.db) =
        ap (λ x. host.save_delta d x.db) (sym stay) ∙ ocall-ok (host.save_delta d) t₁ t₂ saved in
      inr (
        d,
        refl,
        elim (or_else-ok (ocall c host (host.worker.save_state enc) t₂) _ t' k₂) [
          | inl stored ↦ inl (record {
            enc_state = enc;
            encrypted = first;
            between = t₂.db;
            delta_saved = delta_saved;
            state_saved = ocall-ok (host.worker.save_state enc) t₂ t' stored;
          })
          | inr (e, refused, removed) ↦ inr (record {
            enc_state = enc;
            encrypted = first;
            between = t₂.db;
            delta_saved = delta_saved;
            failed = (host.worker.save_state enc t₂.db).1;
            error = e;
            state_refused = ap (λ o. (o, (host.worker.save_state enc t₂.db).1)) refused;
            delta_removed =
                ocall-ok (host.remove_delta d) (ocall c host (host.worker.save_state enc) t₂).1 t'
                  removed;
          })
        ],
      )
