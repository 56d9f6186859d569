-- ===== src/Tests/Provider.antt =====
-- The provider and its server: an epoch is set, published and confirmed, and its worker served.
use mathlib.Core.List.Memᴰ.{}
use enigma_core.Prelude.{
  Option, ℕ, suc, zero, ◌≡◌, ◌≢◌, refl, ap, Option, none, some, List, [], ◌∷◌, ◌++◌, arith, ok,
  panic, true, false, replicate, length, take, drop, take_append, drop_append, to_be_bytes,
  from_be_bytes,
}
use enigma_core.Exec.{◌>>=◌}
use enigma_core.Epoch.{InputWorkerParams}
use enigma_core.Epoch.Keeper as Enclave
use enigma_core.Epoch.Keeper.{Crates}
use enigma_core.StateKeys.{KeyStore}
use enigma_core.Principal.{HostError, EpochState}
use enigma_core.Principal.States.{
  last, last_where, is_last_unconfirmed, append_unconfirmed, confirm_last, store_epoch_state,
}
use enigma_core.Principal.Provider.{
  EnigmaContract, Host, Node, TransactionReceipt, set_worker_params, confirm_worker_params,
}
use enigma_core.Principal.Provider.Fresh.{IsAgreed, set_worker_params-IsAgreed}
use enigma_core.Principal.Provider.Confirming.{confirm_worker_params-Refuses}
use enigma_core.Principal.Provider.Safety.{
  Demand, set_params, confirm_params, verify, IsSound, serve_all, serve_all-IsSound,
}
use enigma_core.Principal.Watch.{prev_block, is_due, watch_block, watch_blocks, watch_block_waiting}
use enigma_core.Principal.Watch.Running.{Ends, IsStopped, watch_blocks-Ends}
use enigma_core.Tests.Crates.{uint256_laws, hashing, sgx, Files, files}
use enigma_core.Tests.Principal.{host_files, manager_crates}

-- Parameters as numbers: the block, the number of workers, each with its length, the stakes.
abbrev frame : List (List ℕ) → List ℕ
frame [] = []
frame (w ∷ ws) = length w ∷ w ++ frame ws

abbrev unframe : ℕ → List ℕ → List (List ℕ) × List ℕ
unframe zero b = ([], b)
unframe (suc n) [] = ([], [])
unframe (suc n) (k ∷ b) = let (ws, rest) = unframe n (drop k b) in (take k b ∷ ws, rest)

append_assoc : (xs ys zs : List ℕ) → (xs ++ ys) ++ zs ≡ xs ++ (ys ++ zs)
append_assoc [] ys zs = refl
append_assoc (x ∷ xs) ys zs = ap (◌∷◌ x) (append_assoc xs ys zs)

unframe-frame : (ws : List (List ℕ)) (b : List ℕ) → unframe (length ws) (frame ws ++ b) ≡ (ws, b)
unframe-frame [] b = refl
unframe-frame (w ∷ ws) b =
    rw
      (
        append_assoc w (frame ws) b,
        take_append w (frame ws ++ b),
        drop_append w (frame ws ++ b),
        unframe-frame ws b,
      )
      refl

abbrev encode : InputWorkerParams → List ℕ
encode p = p.km_block_number ∷ length p.workers ∷ frame p.workers ++ p.stakes

abbrev decode : List ℕ → Option InputWorkerParams
decode (block ∷ n ∷ b) =
    let (ws, stakes) = unframe n b in
    some (record { km_block_number = block; workers = ws; stakes = stakes })
decode _ = none

pub decode-encode : (p : InputWorkerParams) → decode (encode p) ≡ some p
decode-encode p = rw (unframe-frame p.workers p.stakes) refl

abbrev pub crates : Crates
crates = record {
  hashing = hashing;
  decode = decode;
  sign = λ m. some (1 ∷ []);
  marker_path = λ n. "epoch";
  sgx = sgx;
}

abbrev pub worker : List ℕ
worker = 8 ∷ []

-- One worker with all of the stake, one secret contract; the parameters count from block 9.
abbrev contract : EnigmaContract (Unit {0})
contract = record {
  get_active_workers = λ b eth. some (worker ∷ [], 1 ∷ []);
  set_workers_params = λ b seed sig gas n eth. (
    some (record {
      transaction_hash = 6 ∷ [];
      logs = record { topics = []; log_data = 9 ∷ [] } ∷ [];
    }),
    eth,
  );
  get_all_secret_contract_addresses = λ eth. some ((5 ∷ []) ∷ []);
  parse_log = λ log. some (record { name = "firstBlockNumber"; to_uint = some 9 } ∷ []);
}

abbrev pub host : Host Files Files (Unit {0})
host = record {
  enclave = crates;
  enclave_files = files;
  encode = encode;
  crates = record manager_crates { pack = λ states. some [] };
  host_files = host_files;
  contract = contract;
}

abbrev no_files : Files
no_files p = none

abbrev pub fresh : Node Files Files (Unit {0})
fresh = record {
  manager = record { epoch_state_list = []; files = no_files };
  keeper = record {
    cache = [];
    files = no_files;
    out = record { rand_out = []; nonce_out = []; sig_out = [] };
  };
  eth = tt;
  draws = some (7 ∷ replicate 31 0) ∷ [];
}

abbrev pub published : Node Files Files (Unit {0})
published = (set_worker_params host 7 100 0 fresh).1

pub publishes : set_worker_params host 7 100 0 fresh ≡ (ok (6 ∷ []), published)
unfolding set_worker_params enigma_core.Principal.Provider.set_worker_params_internal ◌>>=◌
    enigma_core.Principal.Provider.get_active_workers
    enigma_core.Principal.Provider.set_or_verify_worker_params
    enigma_core.Principal.Provider.ecall_set_worker_params
    enigma_core.Principal.Provider.ecall_result enigma_core.Errors.Codes.from_result
    Enclave.set_worker_params Enclave.existing_epoch Enclave.create_epoch
    enigma_core.Epoch.Cache.max_key enigma_core.Storage.seal
    enigma_core.Storage.save_sealed_document Enclave.cache_and_sign enigma_core.Epoch.Cache.evict
    append_unconfirmed is_last_unconfirmed enigma_core.Epoch.Cache.insert
    enigma_core.Epoch.Selection.contains enigma_core.Epoch.Selection.draw_worker
    enigma_core.Epoch.Selection.get_selected_worker enigma_core.Epoch.Selection.get_selected_workers
    enigma_core.Epoch.Selection.pick_worker enigma_core.Epoch.Selection.raw_encode
    enigma_core.Epoch.Selection.rem_u256 enigma_core.Epoch.Selection.select_loop
    enigma_core.Epoch.Selection.sum_stakes enigma_core.Errors.Codes.into_enclave_return
    from_be_bytes to_be_bytes enigma_core.Principal.Provider.confirm_epoch
    enigma_core.Principal.Provider.first_block_number
    enigma_core.Principal.Provider.parse_worker_parameterized enigma_core.Principal.Provider.publish
    enigma_core.Principal.Provider.set_workers_params confirm_last store_epoch_state
    enigma_core.Principal.confirm enigma_core.Principal.new_state enigma_core.Principal.select_all
    enigma_core.StateKeys.Store.insert
publishes = refl

set_worker_params-IsAgreed_example : IsAgreed host 7 fresh published
set_worker_params-IsAgreed_example =
    set_worker_params-IsAgreed host uint256_laws decode-encode 7 100 0 fresh published (6 ∷ [])
      publishes

fresh-IsSound : IsSound host fresh
fresh-IsSound = record {
  states = record { bounded = omega arith; chain = tt };
  cache = record { bounded = omega arith; distinct = tt; keyed = tt };
}

abbrev demands : List Demand
demands = set_params 7 100 0 ∷ confirm_params 7 100 0 ∷ verify ∷ set_params 8 100 0 ∷ []

serve_all-IsSound_example : IsSound host (serve_all host demands fresh)
serve_all-IsSound_example = serve_all-IsSound host demands fresh (omega arith) fresh-IsSound

-- A node that stopped before the transaction was confirmed.
abbrev pub stopped : Node Files Files (Unit {0})
stopped = record fresh {
  manager = record {
    epoch_state_list =
        record { seed = 4; sig = []; nonce = 0; km_block_number = 7; confirmed_state = none } ∷ [];
    files = no_files;
  };
}

confirm_worker_params-Refuses_example :
    ((hash : List ℕ) → (confirm_worker_params host 7 100 0 stopped).0 ≢ ok hash)
    × ((confirm_worker_params host 7 100 0 stopped).1.manager ≡ stopped.manager)
    × ((confirm_worker_params host 7 100 0 stopped).1.eth ≡ stopped.eth)
confirm_worker_params-Refuses_example = confirm_worker_params-Refuses host 7 100 0 stopped

waits : is_last_unconfirmed stopped.manager.epoch_state_list ≡ true
unfolding is_last_unconfirmed
waits = refl

due : is_due 100 0 8 ≡ true
unfolding is_due
due = refl

no_previous : prev_block (last true stopped.manager.epoch_state_list) ≡ ok 0
unfolding last last_where
no_previous = refl

watch_block_waiting_example :
    ((watch_block host 100 50 0 8 stopped).0 ≡ panic)
    × ((watch_block host 100 50 0 8 stopped).1.manager ≡ stopped.manager)
    × ((watch_block host 100 50 0 8 stopped).1.eth ≡ stopped.eth)
watch_block_waiting_example = watch_block_waiting host 100 50 0 8 0 stopped waits no_previous due

-- A failed fetch, a block at which an epoch is due, and one at which none is.
abbrev rounds : List (Option ℕ)
rounds = none ∷ some 7 ∷ some 8 ∷ []

starts_confirmed : is_last_unconfirmed fresh.manager.epoch_state_list ≡ false
unfolding is_last_unconfirmed
starts_confirmed = refl

watch_blocks-Ends_example :
    Ends host 100 100 0
      (IsStopped host 100 100 0 (watch_blocks host 100 100 0 2 0) rounds fresh)
      (watch_blocks host 100 100 0 2 0 rounds fresh)
watch_blocks-Ends_example = watch_blocks-Ends host 100 100 0 2 0 rounds fresh starts_confirmed
