-- ===== src/Principal/Provider/Safety.antt =====
-- What every call of the provider keeps, also one that fails.
use enigma_core.Prelude.{
  ℕ, Bool, true, false, if◌then◌else◌, ◌<◌, Option, none, some, List, [], ◌∷◌,
}
use enigma_core.Exec.{Run, Keeps, keeps_rules, check-Keeps, chain-Keeps, pure-Keeps}
use enigma_core.Epoch.{InputWorkerParams}
use enigma_core.Epoch.Cache.Laws.{IsCache}
use enigma_core.Epoch.Keeper.Invariant.{set_worker_params-IsCache}
use enigma_core.Principal.{HostError, EpochState}
use enigma_core.Principal.States.{is_confirmed, get_all_confirmed, append_unconfirmed, confirm_last}
use enigma_core.Principal.States.Invariant.{IsStates}
use enigma_core.Principal.States.Queue.{append, confirm_with}
use enigma_core.Principal.States.Failing.{apply-IsStates}
use enigma_core.Principal.Provider.{
  Host, Node, empty_outputs, next_draw, request_of, ecall_set_worker_params,
  set_or_verify_worker_params, in_manager, get_active_workers, set_workers_params, confirm_epoch,
  publish, set_worker_params_internal, set_worker_params, confirm_worker_params, verify_all,
  verify_worker_params,
}

module _ {S K Eth : Type 0} (h : Host S K Eth) where
  -- The host's list and the enclave's cache are valid.
  pub record IsSound (n : Node S K Eth) : Type 0 where
    pub states : IsStates h.crates.cap n.manager.epoch_state_list
    pub cache : IsCache n.keeper.cache

  ecall_set_worker_params-Keeps :
      (p : InputWorkerParams) (o : Option EpochState)
      → Keeps IsSound (ecall_set_worker_params h p o)
  unfolding ecall_set_worker_params
  ecall_set_worker_params-Keeps p o = record {
    after = λ n s. record {
      states = s.states;
      cache =
          set_worker_params-IsCache h.enclave h.enclave_files
            (request_of h p o (next_draw n.draws).0) (record (n.keeper) { out = empty_outputs })
            s.cache;
    };
  }

  set_or_verify_worker_params-Keeps :
      (p : InputWorkerParams) (o : Option EpochState)
      → Keeps IsSound (set_or_verify_worker_params h p o)
  unfolding set_or_verify_worker_params
  set_or_verify_worker_params-Keeps p o = search (ecall_set_worker_params-Keeps, keeps_rules)

  get_active_workers-Keeps : (b : ℕ) → Keeps IsSound (get_active_workers h b)
  unfolding get_active_workers
  get_active_workers-Keeps b = check-Keeps _

  append_unconfirmed-Keeps :
      (e : EpochState)
      → 0 < h.crates.cap
      → Keeps IsSound (in_manager h (append_unconfirmed h.crates h.host_files e))
  append_unconfirmed-Keeps e pos = record {
    after = λ n s. record {
      states = apply-IsStates h.crates h.host_files (append e) n.manager pos s.states;
      cache = s.cache;
    };
  }

  confirm_last-Keeps :
      (e : EpochState)
      → 0 < h.crates.cap
      → Keeps IsSound (in_manager h (confirm_last h.crates h.host_files e))
  confirm_last-Keeps e pos = record {
    after = λ n s. record {
      states = apply-IsStates h.crates h.host_files (confirm_with e) n.manager pos s.states;
      cache = s.cache;
    };
  }

  set_workers_params-Keeps :
      (km : ℕ) (e : EpochState) (gas confirmations : ℕ)
      → Keeps IsSound (set_workers_params h km e gas confirmations)
  unfolding set_workers_params
  set_workers_params-Keeps km e gas confirmations = record {
    after = λ n s. record { states = s.states; cache = s.cache };
  }

  confirm_epoch-Keeps :
      (e : EpochState) (b : ℕ) (p : InputWorkerParams) → Keeps IsSound (confirm_epoch h e b p)
  unfolding confirm_epoch
  confirm_epoch-Keeps e b p = check-Keeps _

  publish-Keeps :
      (km : ℕ) (p : InputWorkerParams) (e : EpochState) (gas confirmations : ℕ)
      → 0 < h.crates.cap
      → Keeps IsSound (publish h km p e gas confirmations)
  unfolding publish
  publish-Keeps km p e gas confirmations pos =
      search (set_workers_params-Keeps, confirm_epoch-Keeps, confirm_last-Keeps, pos, keeps_rules)
        depth 9

  set_worker_params_internal-Keeps :
      (km gas confirmations : ℕ) (o : Option EpochState)
      → 0 < h.crates.cap
      → Keeps IsSound (set_worker_params_internal h km gas confirmations o)
  unfolding set_worker_params_internal
  set_worker_params_internal-Keeps km gas confirmations o pos = search (
    get_active_workers-Keeps, set_or_verify_worker_params-Keeps, append_unconfirmed-Keeps,
    publish-Keeps, pos, keeps_rules,
  )

  if-Keeps :
      {R : Type 0} {x y : Run HostError (Node S K Eth) R} (b : Bool)
      → Keeps IsSound x
      → Keeps IsSound y
      → Keeps IsSound (if b then x else y)
  if-Keeps true u v = u
  if-Keeps false u v = v

  verify_all-Keeps : (states : List EpochState) → Keeps IsSound (verify_all h states)
  unfolding verify_all
  verify_all-Keeps [] = pure-Keeps tt
  verify_all-Keeps (e ∷ states) =
      let rest = verify_all-Keeps states in
      if-Keeps (is_confirmed e)
        (chain-Keeps _ _ (get_active_workers-Keeps e.km_block_number)
          (λ p. chain-Keeps _ _ (set_or_verify_worker_params-Keeps p (some e)) (λ u. rest)))
        rest

-- The requests that a provider serves.
pub data Demand : Type 0 where
  set_params confirm_params : ℕ → ℕ → ℕ → Demand
  verify : Demand

module _ {S K Eth : Type 0} (h : Host S K Eth) where
  abbrev pub serve : Demand → Node S K Eth → Node S K Eth
  serve (set_params km gas confirmations) n = (set_worker_params h km gas confirmations n).1
  serve (confirm_params km gas confirmations) n = (confirm_worker_params h km gas confirmations n).1
  serve verify n = (verify_worker_params h n).1

  abbrev pub serve_all : List Demand → Node S K Eth → Node S K Eth
  serve_all [] n = n
  serve_all (d ∷ demands) n = serve_all demands (serve d n)

  serve-IsSound :
      (d : Demand) (n : Node S K Eth) → 0 < h.crates.cap → IsSound h n → IsSound h (serve d n)
  unfolding set_worker_params confirm_worker_params verify_worker_params
  serve-IsSound (set_params km gas confirmations) n pos s =
      (set_worker_params_internal-Keeps h km gas confirmations none pos).after n s
  serve-IsSound (confirm_params km gas confirmations) n pos s =
      (chain-Keeps _ _ (check-Keeps _) (λ u.
          chain-Keeps _ _ (check-Keeps _)
            (λ e. set_worker_params_internal-Keeps h km gas confirmations (some e) pos))).after
        n s
  serve-IsSound verify n pos s =
      (verify_all-Keeps h (get_all_confirmed n.manager.epoch_state_list)).after n s

  -- After any requests to set, confirm or verify parameters, whatever the chain, the enclave's draws
  -- and the files answer and whichever of them fail, the host's list stays within a positive cap
  -- with all states but the last confirmed, and the enclave's cache stays valid.
  pub serve_all-IsSound :
      (demands : List Demand) (n : Node S K Eth)
      → 0 < h.crates.cap
      → IsSound h n
      → IsSound h (serve_all demands n)
  serve_all-IsSound [] n pos s = s
  serve_all-IsSound (d ∷ demands) n pos s =
      serve_all-IsSound demands (serve d n) pos (serve-IsSound d n pos s)
