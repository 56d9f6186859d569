-- ===== src/Principal/Provider.antt =====
-- `EpochProvider` of epoch_u/epoch_provider.rs, with the call into the enclave of
-- esgx/epoch_keeper_u.rs. The Enigma contract is a parameter: its queries and its transaction.
pub mod Published
pub mod Fresh
pub mod Confirming
pub mod Safety
use Prim.Native.String.{String}
use text.Mathlib.Text.{◌==◌ as str_eq}
use enigma_core.Prelude.{
  ℕ, true, false, Option, none, some, List, [], ◌∷◌, ltb, if◌then◌else◌, replicate, Outcome, ok,
  err, panic,
}
use enigma_core.Errors.{EnclaveError}
use enigma_core.Errors.Codes.{EnclaveReturn, from_result}
use enigma_core.Exec.{Run, pure, lift, check, modify, ◌>>=◌, ◌>>◌}
use enigma_core.Storage.{FileSystem}
use enigma_core.Epoch.{InputWorkerParams}
use enigma_core.Epoch.Keeper as Enclave
use enigma_core.Principal.{
  HostError, enclave_fail, enclave_crash, web3_error, bail_error, epoch_state_transition,
  EpochState, new_state, confirm,
}
use enigma_core.Principal.States.{
  HostFiles, ManagerCrates, Manager, is_confirmed, get_all_confirmed, get_confirmed_by_block_number,
  is_last_unconfirmed, last, new_manager, append_unconfirmed, confirm_last,
}

pub record RawLog : Type 0 where
  pub topics : List (List ℕ)
  pub log_data : List ℕ

pub record TransactionReceipt : Type 0 where
  pub transaction_hash : List ℕ
  pub logs : List RawLog

-- A parameter of a log, with what `to_uint` makes of its value.
pub record LogParam : Type 0 where
  pub name : String
  pub to_uint : Option ℕ

-- The contract on Ethereum, whose calls may fail: the workers and stakes at a block, the
-- transaction (block, seed, signature, gas, confirmations), the secret contracts; `parse_log` reads
-- a `WorkersParameterized` event.
pub record EnigmaContract (Eth : Type 0) : Type 0 where
  pub get_active_workers : ℕ → Eth → Option (List (List ℕ) × List ℕ)
  pub set_workers_params : ℕ → ℕ → List ℕ → ℕ → ℕ → Eth → Option TransactionReceipt × Eth
  pub get_all_secret_contract_addresses : Eth → Option (List (List ℕ))
  pub parse_log : RawLog → Option (List LogParam)

-- The node: the host's manager, the enclave, the chain, and what the enclave's next calls would
-- draw, one entry for a call.
pub record Node (S K Eth : Type 0) : Type 0 where
  pub manager : Manager S
  pub keeper : Enclave.Keeper K
  pub eth : Eth
  pub draws : List (Option (List ℕ))

unfoldable pub empty_outputs : Enclave.Outputs
empty_outputs = record {
  rand_out = replicate 32 0;
  nonce_out = replicate 32 0;
  sig_out = replicate 65 0;
}

abbrev pub next_draw : List (Option (List ℕ)) → Option (List ℕ) × List (Option (List ℕ))
next_draw [] = (none, [])
next_draw (drawn ∷ draws) = (drawn, draws)

-- What the host makes of the outcome of an ecall: any code but `Success` is an error.
unfoldable pub ecall_result : Outcome EnclaveError EnclaveReturn → Outcome HostError (Unit {0})
ecall_result (ok EnclaveReturn.success) = ok tt
ecall_result (ok code) = err (enclave_fail code)
ecall_result (err _) = err enclave_crash
ecall_result panic = err enclave_crash

abbrev pub queried : {A : Type 0} → Option A → Outcome HostError A
queried none = err web3_error
queried (some a) = ok a

abbrev pub active_params : ℕ → Option (List (List ℕ) × List ℕ) → Outcome HostError InputWorkerParams
active_params km_block_number none = err web3_error
active_params km_block_number (some (workers, stakes)) =
    ok (record { km_block_number = km_block_number; workers = workers; stakes = stakes })

-- The first parameter named `firstBlockNumber`, and its `to_uint().unwrap()`.
abbrev pub uint_of : Option ℕ → Outcome HostError ℕ
uint_of none = panic
uint_of (some n) = ok n

unfoldable pub first_block_number : List LogParam → Outcome HostError ℕ
first_block_number [] = err web3_error
first_block_number (x ∷ params) =
    let rest = first_block_number params in
    if str_eq x.name "firstBlockNumber" then uint_of x.to_uint else rest

-- The check of the block that Ethereum gave.
abbrev pub not_before : ℕ → ℕ → Outcome HostError ℕ
not_before km_block_number n = if ltb n km_block_number then err web3_error else ok n

-- The enclave's crates and files, `rlp::encode` of the host, the manager's, and the contract.
pub record Host (S K Eth : Type 0) : Type 0 where
  pub enclave : Enclave.Crates
  pub enclave_files : FileSystem K
  pub encode : InputWorkerParams → List ℕ
  pub crates : ManagerCrates
  pub host_files : HostFiles S
  pub contract : EnigmaContract Eth

module _ {S K Eth : Type 0} (h : Host S K Eth) where
  abbrev pub seed_in : Option EpochState → List ℕ
  seed_in none = replicate 32 0
  seed_in (some e) = h.enclave.hashing.uint256.to_big_endian e.seed

  abbrev pub nonce_in : Option EpochState → List ℕ
  nonce_in none = replicate 32 0
  nonce_in (some e) = h.enclave.hashing.uint256.to_big_endian e.nonce

  abbrev pub request_of : InputWorkerParams → Option EpochState → Option (List ℕ) → Enclave.Request
  request_of p epoch_state drawn = record {
    worker_params_rlp = h.encode p;
    seed_in = seed_in epoch_state;
    nonce_in = nonce_in epoch_state;
    drawn = drawn;
  }

  -- `ecall_set_worker_params`, with fresh buffers for what the enclave writes.
  unfoldable pub ecall_set_worker_params :
      InputWorkerParams → Option EpochState → Run HostError (Node S K Eth) (Unit {0})
  ecall_set_worker_params p epoch_state n =
      let (drawn, draws) = next_draw n.draws in
      let (outcome, keeper) =
        Enclave.set_worker_params h.enclave h.enclave_files (request_of p epoch_state drawn)
          (record (n.keeper) { out = empty_outputs }) in
      (ecall_result (from_result outcome), record n { keeper = keeper; draws = draws })

  -- The given state, which the enclave verified, or the new one.
  abbrev pub epoch_state_out : InputWorkerParams → Option EpochState → Enclave.Outputs → EpochState
  epoch_state_out p (some e) out = e
  epoch_state_out p none out =
      new_state (h.enclave.hashing.uint256.from_big_endian out.rand_out) out.sig_out
        (h.enclave.hashing.uint256.from_big_endian out.nonce_out) p.km_block_number

  unfoldable pub set_or_verify_worker_params :
      InputWorkerParams → Option EpochState → Run HostError (Node S K Eth) EpochState
  set_or_verify_worker_params p epoch_state = do
    ecall_set_worker_params p epoch_state
    check (λ n. ok (epoch_state_out p epoch_state n.keeper.out))

  -- A call of the manager.
  abbrev pub in_manager :
      {A : Type 0} → Run HostError (Manager S) A → Run HostError (Node S K Eth) A
  in_manager action n =
      let (outcome, manager) = action n.manager in (outcome, record n { manager = manager })

  unfoldable pub get_active_workers : ℕ → Run HostError (Node S K Eth) InputWorkerParams
  get_active_workers km_block_number =
      check
        (λ n. active_params km_block_number (h.contract.get_active_workers km_block_number n.eth))

  unfoldable pub set_workers_params :
      ℕ → EpochState → ℕ → ℕ → Run HostError (Node S K Eth) TransactionReceipt
  set_workers_params km_block_number e gas_limit confirmations n =
      let (receipt, eth) =
        h.contract.set_workers_params km_block_number e.seed e.sig gas_limit confirmations n.eth in
      (queried receipt, record n { eth = eth })

  -- `logs[0]` of a receipt without logs panics.
  unfoldable pub parse_worker_parameterized : TransactionReceipt → Outcome HostError (List LogParam)
  parse_worker_parameterized receipt = elim receipt.logs [
    | [] ↦ panic
    | log ∷ _ ↦ queried (h.contract.parse_log log)
  ]

  -- `confirm_epoch`, the confirmed state as the result.
  abbrev pub confirmed_with :
      ℕ → InputWorkerParams → EpochState → Option (List (List ℕ)) → Outcome HostError EpochState
  confirmed_with ether_block_number p e none = err web3_error
  confirmed_with ether_block_number p e (some sc_addresses) =
      confirm h.enclave.hashing ether_block_number p sc_addresses e

  unfoldable pub confirm_epoch :
      EpochState → ℕ → InputWorkerParams → Run HostError (Node S K Eth) EpochState
  confirm_epoch e ether_block_number p = check (λ n.
      confirmed_with ether_block_number p e (h.contract.get_all_secret_contract_addresses n.eth))

  -- After the epoch's state is stored unconfirmed: the transaction and what it logged.
  unfoldable pub publish :
      ℕ → InputWorkerParams → EpochState → ℕ → ℕ → Run HostError (Node S K Eth) (List ℕ)
  publish km_block_number p e gas_limit confirmations = do
    receipt ← set_workers_params km_block_number e gas_limit confirmations
    params ← lift (parse_worker_parameterized receipt)
    given ← lift (first_block_number params)
    ether_block_number ← lift (not_before km_block_number given)
    confirmed ← confirm_epoch e ether_block_number p
    in_manager (confirm_last h.crates h.host_files confirmed)
    pure receipt.transaction_hash

  unfoldable pub set_worker_params_internal :
      ℕ → ℕ → ℕ → Option EpochState → Run HostError (Node S K Eth) (List ℕ)
  set_worker_params_internal km_block_number gas_limit confirmations epoch_state = do
    p ← get_active_workers km_block_number
    e ← set_or_verify_worker_params p epoch_state
    in_manager (append_unconfirmed h.crates h.host_files e)
    publish km_block_number p e gas_limit confirmations

  unfoldable pub set_worker_params : ℕ → ℕ → ℕ → Run HostError (Node S K Eth) (List ℕ)
  set_worker_params block_number gas_limit confirmations =
      set_worker_params_internal block_number gas_limit confirmations none

  abbrev pub required_unconfirmed : List EpochState → Outcome HostError (Unit {0})
  required_unconfirmed states = if is_last_unconfirmed states then ok tt else err bail_error

  unfoldable pub confirm_worker_params : ℕ → ℕ → ℕ → Run HostError (Node S K Eth) (List ℕ)
  confirm_worker_params block_number gas_limit confirmations = do
    check (λ n. required_unconfirmed n.manager.epoch_state_list)
    epoch_state ← check (λ n. last false n.manager.epoch_state_list)
    set_worker_params_internal block_number gas_limit confirmations (some epoch_state)

  -- The loop of `verify_worker_params`.
  unfoldable pub verify_all : List EpochState → Run HostError (Node S K Eth) (Unit {0})
  verify_all [] = pure tt
  verify_all (e ∷ states) =
      let rest = verify_all states in
      if is_confirmed e
      then (do
        p ← get_active_workers e.km_block_number
        set_or_verify_worker_params p (some e)
        rest)
      else rest

  unfoldable pub verify_worker_params : Run HostError (Node S K Eth) (Unit {0})
  verify_worker_params n = verify_all (get_all_confirmed n.manager.epoch_state_list) n

  abbrev started : Outcome HostError (Manager S) → Run HostError (Node S K Eth) (Unit {0})
  started (ok manager) n = (ok tt, record n { manager = manager })
  started (err x) n = (err x, n)
  started panic n = (panic, n)

  -- `EpochProvider::new`: the manager from the files, verified in the enclave.
  unfoldable pub new_provider : Run HostError (Node S K Eth) (Unit {0})
  new_provider = do
    (λ n. started (new_manager h.crates h.host_files n.manager.files) n)
    verify_worker_params

  unfoldable pub find_epoch : ℕ → Node S K Eth → Outcome HostError EpochState
  find_epoch block_number n = get_confirmed_by_block_number block_number n.manager.epoch_state_list

  unfoldable pub find_last_epoch : Node S K Eth → Outcome HostError EpochState
  find_last_epoch n =
      let states = n.manager.epoch_state_list in
      if is_last_unconfirmed states then err epoch_state_transition else last true states
