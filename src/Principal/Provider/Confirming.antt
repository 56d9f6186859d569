-- ===== src/Principal/Provider/Confirming.antt =====
-- `confirm_worker_params` of the provider.
use enigma_core.Prelude.{
  ℕ, ◌≡◌, ◌≢◌, refl, ap, ◌∙◌, true, false, Option, some, List, Bool-cases, inl, inr, ok, err,
}
use enigma_core.Exec.{
  Keeps, Refuses, keeps_rules, check-Keeps, first-Refuses, next-Refuses, check, ◌>>=◌,
}
use enigma_core.Principal.{bail_error, EpochState}
use enigma_core.Principal.States.{
  HostFiles, ManagerCrates, Manager, is_last_unconfirmed, append_unconfirmed,
}
use enigma_core.Principal.Provider.{
  Host, Node, ecall_set_worker_params, set_or_verify_worker_params, in_manager, get_active_workers,
  set_worker_params_internal, confirm_worker_params,
}

-- A second unconfirmed state is refused.
append_unconfirmed_waiting :
    {S : Type 0} (c : ManagerCrates) (fs : HostFiles S) (e : EpochState) (st : Manager S)
    → is_last_unconfirmed st.epoch_state_list ≡ true
    → append_unconfirmed c fs e st ≡ (err bail_error, st)
unfolding append_unconfirmed check ◌>>=◌
append_unconfirmed_waiting c fs e st w = rw w refl

module _ {S K Eth : Type 0} (h : Host S K Eth) (n₀ : Node S K Eth) where
  -- The manager and the chain are those of `n₀`, and its last state awaits confirmation.
  pub record IsWaiting (n : Node S K Eth) : Type 0 where
    pub waiting : is_last_unconfirmed n.manager.epoch_state_list ≡ true
    pub manager : n.manager ≡ n₀.manager
    pub eth : n.eth ≡ n₀.eth

  ecall_set_worker_params-Keeps :
      (p : _) (o : Option EpochState) → Keeps IsWaiting (ecall_set_worker_params h p o)
  unfolding ecall_set_worker_params
  ecall_set_worker_params-Keeps p o = record {
    after = λ n w. record { waiting = w.waiting; manager = w.manager; eth = w.eth };
  }

  set_or_verify_worker_params-Keeps :
      (p : _) (o : Option EpochState) → Keeps IsWaiting (set_or_verify_worker_params h p o)
  unfolding set_or_verify_worker_params
  set_or_verify_worker_params-Keeps p o = search (ecall_set_worker_params-Keeps, keeps_rules)

  get_active_workers-Keeps : (b : ℕ) → Keeps IsWaiting (get_active_workers h b)
  unfolding get_active_workers
  get_active_workers-Keeps b = check-Keeps _

  append_unconfirmed-Refuses :
      (e : EpochState)
      → Refuses IsWaiting (in_manager h (append_unconfirmed h.crates h.host_files e))
  append_unconfirmed-Refuses e = record {
    never = λ n w r k.
        cc (
          k,
          ap (λ x. x.0) (append_unconfirmed_waiting h.crates h.host_files e n.manager w.waiting),
        );
    keeps = λ n w.
        let same =
          ap (λ x. x.1) (append_unconfirmed_waiting h.crates h.host_files e n.manager w.waiting) in
        record { waiting = rw same w.waiting; manager = same ∙ w.manager; eth = w.eth };
  }

  pub set_worker_params_internal-Refuses :
      (b gas confirmations : ℕ) (o : Option EpochState)
      → Refuses IsWaiting (set_worker_params_internal h b gas confirmations o)
  unfolding set_worker_params_internal
  set_worker_params_internal-Refuses b gas confirmations o =
      next-Refuses _ _ (get_active_workers-Keeps b) (λ p.
        next-Refuses _ _ (set_or_verify_worker_params-Keeps p o)
          (λ e. first-Refuses _ _ (append_unconfirmed-Refuses e)))

confirmed_refused :
    {S K Eth : Type 0} (h : Host S K Eth) (b gas confirmations : ℕ) (n : Node S K Eth)
    → is_last_unconfirmed n.manager.epoch_state_list ≡ false
    → confirm_worker_params h b gas confirmations n ≡ (err bail_error, n)
unfolding confirm_worker_params check ◌>>=◌
confirmed_refused h b gas confirmations n w = rw w refl

-- `confirm_worker_params` cannot succeed: whatever the enclave, the chain and the files answer, it
-- returns no transaction, sends none, and leaves the list of epoch states and the files as they
-- were. The enclave's keeper is not among what is left as it was: it may have cached the epoch again.
pub confirm_worker_params-Refuses :
    {S K Eth : Type 0} (h : Host S K Eth) (block_number gas_limit confirmations : ℕ)
    (n : Node S K Eth)
    → ((hash : List ℕ)
        → (confirm_worker_params h block_number gas_limit confirmations n).0 ≢ ok hash)
      × ((confirm_worker_params h block_number gas_limit confirmations n).1.manager ≡ n.manager)
      × ((confirm_worker_params h block_number gas_limit confirmations n).1.eth ≡ n.eth)
unfolding confirm_worker_params
confirm_worker_params-Refuses h b gas confirmations n =
    elim (Bool-cases (is_last_unconfirmed n.manager.epoch_state_list)) [
      | inl w ↦
          let refused : Refuses (IsWaiting h n) (confirm_worker_params h b gas confirmations) =
            next-Refuses _ _ (check-Keeps _) (λ u.
              next-Refuses _ _ (check-Keeps _)
                (λ e. set_worker_params_internal-Refuses h n b gas confirmations (some e))) in
          let here : IsWaiting h n n = record { waiting = w; manager = refl; eth = refl } in
          let left = refused.keeps n here in (refused.never n here, left.manager, left.eth)
      | inr w ↦
          let out = confirmed_refused h b gas confirmations n w in
          (λ hash k. cc (k, ap (λ x. x.0) out), ap (λ x. x.1.manager) out, ap (λ x. x.1.eth) out)
    ]
