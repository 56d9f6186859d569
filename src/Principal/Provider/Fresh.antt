-- ===== src/Principal/Provider/Fresh.antt =====
-- A new epoch: what the host stores of it, and the enclave's answers.
use mathlib.Core.List.Memᴰ.{Memᴰ}
use enigma_core.Prelude.{
  ℕ, ◌≤◌, ◌≡◌, ◌↔◌, refl, sym, ap, ◌∙◌, subst, Option, none, some, List, inl, inr, Outcome, ok,
  arith, replicate,
}
use enigma_core.Errors.{EnclaveError}
use enigma_core.Errors.Codes.{EnclaveReturn, from_result, from_result-success_iff}
use enigma_core.Exec.{check, >>=-eq-ok}
use enigma_core.Epoch.{InputWorkerParams, Epoch, IsU256, Uint256Laws}
use enigma_core.Epoch.Cache.{get, max_key}
use enigma_core.Epoch.Cache.Laws.{get-insert_self}
use enigma_core.Epoch.Selection.{
  Hashing, or_nothing, get_selected_worker, epoch_get_selected_worker,
}
use enigma_core.Epoch.Keeper as Enclave
use enigma_core.Epoch.Keeper.Steps.{set_worker_params-ok}
use enigma_core.Epoch.Keeper.Fresh.{next_nonce-U256, existing_epoch_empty}
use enigma_core.Epoch.Keeper.Workers.{get_epoch_worker-cached}
use enigma_core.Principal.{EpochState, new_state, ConfirmedEpochState, get_contract_addresses}
use enigma_core.Principal.Selected.{Selects, confirm-ok, get_contract_addresses-confirm}
use enigma_core.Principal.Provider.Published.{IsPublished, publish-ok}
use enigma_core.Principal.Provider.{
  Host, Node, empty_outputs, next_draw, active_params, request_of, ecall_result,
  ecall_set_worker_params, set_or_verify_worker_params, epoch_state_out, get_active_workers,
  set_worker_params_internal, set_worker_params, find_last_epoch,
}

ecall_result-ok :
    (o : Outcome EnclaveError (Unit {0})) → ecall_result (from_result o) ≡ ok tt → o ≡ ok tt
unfolding ecall_result
ecall_result-ok o e = (from_result-success_iff o).0 (success (from_result o) e)
  where
    success :
        (o : Outcome EnclaveError EnclaveReturn)
        → ecall_result o ≡ ok tt
        → o ≡ ok EnclaveReturn.success
    success o e = ground arith

-- `Epoch::get_selected_worker` of what the selection gave.
abbrev after_selection :
    Option (Outcome EnclaveError (Option (List ℕ))) → Option (Outcome EnclaveError (List ℕ))
after_selection none = none
after_selection (some r) = some (or_nothing r)

or_nothing-ok :
    (o : Option (Outcome EnclaveError (Option (List ℕ)))) (w : List ℕ)
    → (o ≡ some (ok (some w))) ↔ (after_selection o ≡ some (ok w))
or_nothing-ok o w = (λ e. ground arith, λ e. ground arith)

Selects-epoch :
    (hs : Hashing) (e : Epoch) (a w : List ℕ)
    → Selects hs e.worker_params e.seed a w ↔ (epoch_get_selected_worker hs e a ≡ some (ok w))
unfolding epoch_get_selected_worker
Selects-epoch hs e a w = or_nothing-ok (get_selected_worker hs e.worker_params a e.seed) w

with_answer : {A B C D : Type 0} → A ↔ (B × C) → C ↔ D → A ↔ (B × D)
with_answer (f, g) (u, v) = (λ a. ((f a).0, u (f a).1), λ (b, d). g (b, v d))

module _ {S K Eth : Type 0} (h : Host S K Eth) where
  -- What a successful ecall was, with the drawn bytes.
  ecall_set_worker_params-ok :
      (p : InputWorkerParams) (o : Option EpochState) (n n' : Node S K Eth)
      → ecall_set_worker_params h p o n ≡ (ok tt, n')
      → (Enclave.set_worker_params h.enclave h.enclave_files
            (request_of h p o (next_draw n.draws).0)
            (record (n.keeper) { out = empty_outputs })
          ≡ (ok tt, n'.keeper))
        × (n'.manager ≡ n.manager)
        × (n'.eth ≡ n.eth)
  unfolding ecall_set_worker_params
  ecall_set_worker_params-ok p o n n' e =
      let call =
        Enclave.set_worker_params h.enclave h.enclave_files (request_of h p o (next_draw n.draws).0)
          (record (n.keeper) { out = empty_outputs }) in
      let fine = ecall_result-ok call.0 (ap (λ x. x.0) e) in
      (
        ap (λ r. (r, call.1)) fine ∙ ap (λ k. (ok tt, k)) (ap (λ x. x.1.keeper) e),
        sym (ap (λ x. x.1.manager) e),
        sym (ap (λ x. x.1.eth) e),
      )

  -- The epoch that the enclave's outputs announce.
  record IsAnnounced (p : InputWorkerParams) (k : Enclave.Keeper K) : Type 0 where
    pub epoch : Epoch
    pub cached : get epoch.nonce k.cache ≡ some epoch
    pub bounded : IsU256 epoch.nonce
    pub nonce : h.enclave.hashing.uint256.from_big_endian k.out.nonce_out ≡ epoch.nonce
    pub seed : h.enclave.hashing.uint256.from_big_endian k.out.rand_out ≡ epoch.seed
    pub params : epoch.worker_params ≡ p

  set_worker_params-IsAnnounced :
      (laws : Uint256Laws h.enclave.hashing.uint256) (p : InputWorkerParams) (r : Enclave.Request)
      (k k' : Enclave.Keeper K)
      → h.enclave.decode r.worker_params_rlp ≡ some p
      → r.seed_in ≡ replicate 32 0
      → Enclave.set_worker_params h.enclave h.enclave_files r k ≡ (ok tt, k')
      → IsAnnounced p k'
  set_worker_params-IsAnnounced laws p r k k' coding empty set =
      let g = set_worker_params-ok h.enclave h.enclave_files r k k' set in
      elim g.origin [
        | inl (found, _) ↦ absurd (
            cc
              (found, existing_epoch_empty h.enclave h.enclave_files laws g.params r k.files empty))
        | inr (_, made) ↦ record {
          epoch = g.epoch;
          cached = rw g.signed.cache (get-insert_self g.signed.room g.epoch);
          bounded = next_nonce-U256 (max_key k.cache) g.epoch.nonce made.nonce;
          nonce =
              ap h.enclave.hashing.uint256.from_big_endian (g.signed.nonce_out ∙ made.nonce_out)
              ∙ laws.from-to g.epoch.nonce
                  (next_nonce-U256 (max_key k.cache) g.epoch.nonce made.nonce);
          seed =
              ap h.enclave.hashing.uint256.from_big_endian (g.signed.rand_out ∙ made.rand_out)
              ∙ sym made.seed;
          params = made.params ∙ cc (g.decoded, coding);
        }
      ]

  set_or_verify_worker_params-ok :
      (laws : Uint256Laws h.enclave.hashing.uint256)
      → ((p : InputWorkerParams) → h.enclave.decode (h.encode p) ≡ some p)
      → (p : InputWorkerParams) (n n' : Node S K Eth) (s : EpochState)
      → set_or_verify_worker_params h p none n ≡ (ok s, n')
      → IsAnnounced p n'.keeper
        × (epoch_state_out h p none n'.keeper.out ≡ s)
        × (n'.manager ≡ n.manager)
        × (n'.eth ≡ n.eth)
  unfolding set_or_verify_worker_params check
  set_or_verify_worker_params-ok laws coding p n n' s e =
      let (u, n₁, called, out) = >>=-eq-ok _ _ n n' s e in
      let (set, manager, eth) = ecall_set_worker_params-ok p none n n₁ called in
      let made =
        set_worker_params-IsAnnounced laws p (request_of h p none (next_draw n.draws).0) _ n₁.keeper
          (coding p) refl set in
      let made_state : epoch_state_out h p none n₁.keeper.out ≡ s = cc (ap (λ x. x.0) out) in
      subst
        (λ n'.
          IsAnnounced p n'.keeper
          × (epoch_state_out h p none n'.keeper.out ≡ s)
          × (n'.manager ≡ n.manager)
          × (n'.eth ≡ n.eth))
        (ap (λ x. x.1) out) (made, made_state, manager, eth)

  active_params-ok :
      (km : ℕ) (p : InputWorkerParams) (o : Option (List (List ℕ) × List ℕ))
      → active_params km o ≡ ok p
      → (o ≡ some (p.workers, p.stakes)) × (p.km_block_number ≡ km)
  active_params-ok km p none k = cc
  active_params-ok km p (some (ws, stakes)) k =
      let same : record { km_block_number = km; workers = ws; stakes = stakes } ≡ p = cc k in
      (ap (λ q. some (q.workers, q.stakes)) same, ap (λ q. q.km_block_number) (sym same))

  -- The worker that the enclave selects for a contract is the one that the host selects.
  Selects-get_epoch_worker :
      (p : InputWorkerParams) (k : Enclave.Keeper K) (a worker : List ℕ)
      → (made : IsAnnounced p k)
      → Selects h.enclave.hashing p made.epoch.seed a worker ↔ (
          Enclave.get_epoch_worker h.enclave h.enclave_files a made.epoch.nonce k
          ≡ some (ok worker))
  Selects-get_epoch_worker p k a worker made =
      let answer =
        get_epoch_worker-cached h.enclave h.enclave_files a made.epoch.nonce k made.epoch
          made.cached in
      let (to, from) = Selects-epoch h.enclave.hashing made.epoch a worker in
      let same = ap (λ q. Selects h.enclave.hashing q made.epoch.seed a worker) made.params in
      (
        λ sel. answer ∙ to (subst (λ X. X) (sym same) sel),
        λ e. subst (λ X. X) same (from (sym answer ∙ e)),
      )

  same_answer :
      (p : InputWorkerParams) (k k' : Enclave.Keeper K) (seed nonce : ℕ) (a worker : List ℕ)
      → (made : IsAnnounced p k) → seed ≡ made.epoch.seed
      → nonce ≡ made.epoch.nonce
      → k ≡ k'
      → Selects h.enclave.hashing p seed a worker
        ↔ (Enclave.get_epoch_worker h.enclave h.enclave_files a nonce k' ≡ some (ok worker))
  same_answer p k k' seed nonce a worker made s o kept =
      let (to, from) = Selects-get_epoch_worker p k a worker made in
      let answer =
        ap (λ x. Enclave.get_epoch_worker h.enclave h.enclave_files a nonce x) (sym kept)
        ∙ ap (λ x. Enclave.get_epoch_worker h.enclave h.enclave_files a x k) o in
      (
        λ sel. answer ∙ to (subst (λ x. Selects h.enclave.hashing p x a worker) s sel),
        λ e. subst (λ x. Selects h.enclave.hashing p x a worker) (sym s) (from (sym answer ∙ e)),
      )

  -- What a successful call leaves on the host and in the enclave.
  pub record IsAgreed (km_block_number : ℕ) (n n' : Node S K Eth) : Type 0 where
    pub params : InputWorkerParams
    pub active :
        h.contract.get_active_workers km_block_number n.eth ≡ some (params.workers, params.stakes)
    pub state : EpochState
    pub found : find_last_epoch h n' ≡ ok state
    pub nonce : IsU256 state.nonce
    pub same_block : state.km_block_number ≡ km_block_number
    pub confirmed : ConfirmedEpochState
    pub is_confirmed : state.confirmed_state ≡ some confirmed
    pub not_earlier : km_block_number ≤ confirmed.ether_block_number
    pub sc_addresses : List (List ℕ)
    pub listed : h.contract.get_all_secret_contract_addresses n'.eth ≡ some sc_addresses
    pub agrees :
        (worker : List ℕ)
        → (addrs : List (List ℕ)) × (get_contract_addresses worker state ≡ ok addrs)
          × ((a : List ℕ)
              → Memᴰ a addrs ↔ (
                  Memᴰ a sc_addresses
                  × (Enclave.get_epoch_worker h.enclave h.enclave_files a state.nonce n'.keeper
                      ≡ some (ok worker))))

  IsAgreed-made :
      (km : ℕ) (p : InputWorkerParams) (e : EpochState) (n n₁ n₂ n' : Node S K Eth)
      → active_params km (h.contract.get_active_workers km n.eth) ≡ ok p
      → (made : IsAnnounced p n₁.keeper) → epoch_state_out h p none n₁.keeper.out ≡ e
      → n₂.keeper ≡ n₁.keeper
      → IsPublished h km p e n₂ n'
      → IsAgreed km n n'
  unfolding new_state
  IsAgreed-made km p e n n₁ n₂ n' active made out kept done =
      let (workers, block) = active_params-ok km p _ active in
      let c =
        confirm-ok h.enclave.hashing done.block p done.sc_addresses e done.state done.confirmed in
      let nonce : done.state.nonce ≡ made.epoch.nonce =
        ap (λ s. s.nonce) c.result ∙ ap (λ s. s.nonce) (sym out) ∙ made.nonce in
      let seed : e.seed ≡ made.epoch.seed = ap (λ s. s.seed) (sym out) ∙ made.seed in
      let keeper : n₁.keeper ≡ n'.keeper = sym (done.keeper ∙ kept) in
      record {
        params = p;
        active = workers;
        state = done.state;
        found = done.found;
        nonce = subst IsU256 (sym nonce) made.bounded;
        same_block =
            ap (λ s. s.km_block_number) c.result ∙ ap (λ s. s.km_block_number) (sym out) ∙ block;
        confirmed = record {
          selected_workers = c.selected_workers;
          ether_block_number = done.block;
        };
        is_confirmed = ap (λ s. s.confirmed_state) c.result;
        not_earlier = done.not_earlier;
        sc_addresses = done.sc_addresses;
        listed = done.listed;
        agrees = λ worker.
            let (addrs, got, parts) =
              get_contract_addresses-confirm h.enclave.hashing done.block p done.sc_addresses e
                done.state done.confirmed worker in
            (
              addrs,
              got,
              λ a. with_answer (parts a) (
                  same_answer p n₁.keeper n'.keeper e.seed done.state.nonce a worker made seed nonce
                    keeper),
            );
      }

  -- The enclave's epoch of a successful call is the host's: when `set_worker_params` of a block
  -- succeeds, the host's last state is confirmed, at no earlier block, and the contracts that it
  -- assigns to a worker are those of Ethereum for which the enclave, asked with the state's nonce,
  -- answers that worker. `rlp` is taken to decode what it encodes.
  pub set_worker_params-IsAgreed :
      Uint256Laws h.enclave.hashing.uint256
      → ((p : InputWorkerParams) → h.enclave.decode (h.encode p) ≡ some p)
      → (block_number gas_limit confirmations : ℕ) (n n' : Node S K Eth) (hash : List ℕ)
      → set_worker_params h block_number gas_limit confirmations n ≡ (ok hash, n')
      → IsAgreed block_number n n'
  unfolding set_worker_params set_worker_params_internal get_active_workers check
  set_worker_params-IsAgreed laws coding km gas confirmations n n' hash k =
      let (p, n₀, active, k₁) = >>=-eq-ok _ _ n n' hash k in
      let (e, n₁, set, k₂) = >>=-eq-ok _ _ n₀ n' hash k₁ in
      let (u, n₂, appended, k₃) = >>=-eq-ok _ _ n₁ n' hash k₂ in
      let (made, out, _, _) = set_or_verify_worker_params-ok laws coding p n₀ n₁ e set in
      IsAgreed-made km p e n n₁ n₂ n' (ap (λ x. x.0) active) made out
        (sym (ap (λ x. x.1.keeper) appended)) (publish-ok h km gas confirmations p e n₂ n' hash k₃)
