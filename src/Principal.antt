-- ===== src/Principal.antt =====
-- The host of the key-management node: enigma-principal/app/src. An `EpochState` is what the host
-- keeps of an epoch (epoch_u/epoch_types.rs).
pub mod States
pub mod Selected
pub mod Provider
pub mod Server
pub mod Watch
use enigma_core.Prelude.{
  ℕ, Option, none, some, List, [], ◌∷◌, bytes_eq, if◌then◌else◌, Outcome, ok, err, panic,
}
use enigma_core.Errors.{EnclaveError}
use enigma_core.Errors.Codes.{EnclaveReturn}
use enigma_core.Epoch.{InputWorkerParams}
use enigma_core.Epoch.Selection.{Hashing, get_selected_worker}
use enigma_core.StateKeys.Store.{KeyMap, insert}

-- What a `failure::Error` of this program may be: one of common_u/errors.rs, one of the calls to
-- Ethereum, one of other crates, or a message of `bail!`. An ecall that crashes has no code.
pub data HostError : Type 0 where
  enclave_fail : EnclaveReturn → HostError
  enclave_crash : HostError
  epoch_state_transition epoch_state_io epoch_state_undefined request_value : HostError
  web3_error bail_error other_error : HostError

pub record ConfirmedEpochState : Type 0 where
  pub selected_workers : KeyMap
  pub ether_block_number : ℕ

pub record EpochState : Type 0 where
  pub seed : ℕ
  pub sig : List ℕ
  pub nonce : ℕ
  pub km_block_number : ℕ
  pub confirmed_state : Option ConfirmedEpochState

-- `EpochState::new`.
unfoldable pub new_state : ℕ → List ℕ → ℕ → ℕ → EpochState
new_state seed sig nonce km_block_number = record {
  seed = seed;
  sig = sig;
  nonce = nonce;
  km_block_number = km_block_number;
  confirmed_state = none;
}

-- The selection on the host, which has no errors; its fuel suffices.
abbrev pub on_host :
    Option (Outcome EnclaveError (Option (List ℕ))) → Outcome HostError (Option (List ℕ))
on_host (some (ok worker)) = ok worker
on_host (some (err _)) = panic
on_host (some panic) = panic
on_host none = panic

-- The loop of `confirm`: the worker of each contract that has one.
unfoldable pub select_all :
    Hashing → InputWorkerParams → ℕ → List (List ℕ) → KeyMap → Outcome HostError KeyMap
select_all h p seed [] selected_workers = ok selected_workers
select_all h p seed (sc_address ∷ rest) selected_workers =
    elim (on_host (get_selected_worker h p sc_address seed)) [
      | ok (some worker) ↦ select_all h p seed rest (insert sc_address worker selected_workers)
      | ok none ↦ select_all h p seed rest selected_workers
      | err e ↦ err e
      | panic ↦ panic
    ]

abbrev confirmed_by : ℕ → EpochState → Outcome HostError KeyMap → Outcome HostError EpochState
confirmed_by ether_block_number e (ok selected_workers) = ok (record e {
  confirmed_state =
      some
        (record { selected_workers = selected_workers; ether_block_number = ether_block_number });
})
confirmed_by ether_block_number e (err x) = err x
confirmed_by ether_block_number e panic = panic

-- `EpochState::confirm`, the confirmed state as the result.
unfoldable pub confirm :
    Hashing → ℕ → InputWorkerParams → List (List ℕ) → EpochState → Outcome HostError EpochState
confirm h ether_block_number p sc_addresses e =
    confirmed_by ether_block_number e (select_all h p e.seed sc_addresses [])

-- The contracts of a worker.
unfoldable pub addresses_for : List ℕ → KeyMap → List (List ℕ)
addresses_for worker [] = []
addresses_for worker ((addr, account) ∷ rest) =
    let addrs = addresses_for worker rest in if bytes_eq account worker then addr ∷ addrs else addrs

abbrev assigned : List ℕ → Option ConfirmedEpochState → Outcome HostError (List (List ℕ))
assigned worker none = err epoch_state_transition
assigned worker (some state) = ok (addresses_for worker state.selected_workers)

unfoldable pub get_contract_addresses : List ℕ → EpochState → Outcome HostError (List (List ℕ))
get_contract_addresses worker e = assigned worker e.confirmed_state
