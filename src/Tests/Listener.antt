-- ===== src/Tests/Listener.antt =====
-- Requests to the worker's host at concrete inputs: a database that counts its entries, and an
-- enclave that counts its builds.
use enigma_core.Prelude.{
  ℕ, ◌+◌, ◌-◌, ◌≡◌, refl, true, false, Option, none, some, List, [], ◌∷◌, map, length, replicate,
  ok, err,
}
use enigma_core.Errors.Codes.{success}
use enigma_core.Exec.{lift, check, pure, ◌>>=◌}
use enigma_core.Database.{Rocks, hex_error}
use enigma_core.Database.Key.{hash_from_hex, delta_as_split, type_key, unwrap_delta}
use enigma_core.Database.Crud as Crud
use enigma_core.Database.Queries as Db
use enigma_core.Task.{ExecuteResult}
use enigma_core.Listener as Listener
use enigma_core.Listener.{
  IpcDelta, IpcDeltasRange, IpcRequest, IpcResponse, IpcStatusResult, IpcTask, Message, Worker,
  database_error, passed, from_delta, deleted_status,
}
use enigma_core.Listener.Enclave.{Answer, Ecalls, ptt_build_state, execute, try_from, chunks}
use enigma_core.Listener.Queries as Queries
use enigma_core.Listener.Updates.{
  indices, delta_tuples, statuses, update_deltas, delete_data_from_db, remove_keys, remove_ranges,
  remove_deltas, remove_contract,
}
use enigma_core.Listener.Tasks.{
  ListenerCrates, compute_task, build_if_needed, into_execute_response,
}
use enigma_core.Listener.Dispatch.{handle, handle_message}
use enigma_core.Listener.Dispatch.Rebuilding.{IsRebuilt, updates, change-rebuilds}
use enigma_core.Listener.Dispatch.Answering.{id_of, handle_message-ids}
use enigma_core.Listener.Dispatch.Removing.{remove_deltas_partial, remove_contract_passed}
use enigma_core.Tests.Database.{hex, name}
use enigma_core.Tests.Paths.{path_of}

abbrev crates : ListenerCrates
crates = record {
  hex = hex;
  keccak256 = λ b. replicate 32 (length b);
  pubkey_of = λ b. some (some b);
  signing_address = ok (1 ∷ []);
  retry_quote = ok "q";
  is_simulation = true;
  get_report = λ q. ok (q, q);
  as_bytes = λ s. 1 ∷ [];
}

abbrev rocks : Rocks ℕ
rocks = record {
  cf_handle = λ c db. true;
  create_cf = λ c db. some db;
  drop_cf = λ c db. none;
  get_cf = λ c k db. some (some (7 ∷ []));
  put_cf = λ c k v db. some (db + 1);
  delete_cf = λ c k db. some (db - 1);
  prefix_iterator = λ c k db. none;
  range_iterator = λ c k k' db. none;
  write = λ batch db. some (db + length batch);
  list_cf = λ db. none;
}

abbrev left : ExecuteResult
left = record {
  output = 1;
  delta_ptr = 2;
  delta_index = 4;
  ethereum_payload_ptr = 3;
  ethereum_address = replicate 20 0;
  signature = 7 ∷ [];
  used_gas = 40;
}

abbrev ecalls : Ecalls ℕ ℕ
ecalls = record {
  ecall_build_state =
      λ st. (record { code = success; sgx_success = true; output = [] }, (st.0 + 1, st.1));
  ecall_ptt_req = λ s. (record { code = success; sgx_success = true; output = ([], []) }, s);
  ecall_ptt_res = λ msg s. (record { code = success; sgx_success = true; output = tt }, s);
  ecall_get_user_key = λ k s. (record { code = success; sgx_success = true; output = (k, []) }, s);
  ecall_deploy =
      λ b c a address k g st. (record { code = success; sgx_success = true; output = left }, st);
  ecall_execute =
      λ b c a k address g st. (record { code = success; sgx_success = true; output = left }, st);
  boxed = λ p st. p ∷ [];
}

abbrev start : Worker ℕ ℕ
start = record { database = 10; state_updated = true; enclave = 0 }

abbrev change : IpcRequest
change =
    Listener.update_deltas
      (record { contract_address = some name; key = 1; bytes = some (5 ∷ []) } ∷ [])

abbrev task : IpcTask
task = record {
  pre_code = none;
  encrypted_args = "";
  encrypted_fn = path_of (3 ∷ []);
  user_dhkey = path_of (replicate 64 0);
  gas_limit = 100;
  address = name;
}

abbrev changed : Worker ℕ ℕ
changed = record { database = 11; state_updated = false; enclave = 0 }

abbrev change_response : IpcResponse
change_response = Listener.update_deltas_response (
    Listener.deltas_result passed
      (record { address = name; key = some (Listener.ℤ.pos 1); status = passed } ∷ []))

changes : handle crates rocks ecalls change start ≡ (ok change_response, changed)
unfolding handle update_deltas delta_tuples hash_from_hex Db.insert_tuples Db.collect statuses
    unwrap_delta lift pure ◌>>=◌ delta_as_split type_key
changes = refl

abbrev computed : Worker ℕ ℕ
computed = record { database = 11; state_updated = true; enclave = 1 }

abbrev task_response : IpcResponse
task_response = Listener.compute_task_response (
    Listener.compute_result (record {
      used_gas = 40;
      output = path_of (1 ∷ []);
      delta = record { contract_address = none; key = 4; bytes = some (2 ∷ []) };
      ethereum_address = path_of (replicate 20 0);
      ethereum_payload = path_of (3 ∷ []);
      signature = path_of (7 ∷ []);
    }))

computes :
    handle crates rocks ecalls (Listener.compute_task task) changed ≡ (ok task_response, computed)
unfolding handle compute_task build_if_needed ptt_build_state chunks hash_from_hex Db.get_contract
    Crud.read execute try_from into_execute_response from_delta unwrap_delta lift check pure ◌>>=◌
    delta_as_split type_key
computes = refl

change-rebuilds_example : IsRebuilt crates rocks ecalls 100 changed computed
change-rebuilds_example =
    change-rebuilds crates rocks ecalls change task change_response task_response start changed
      computed (updates _) changes computes

abbrev queries : List (Option (Message IpcRequest))
queries =
    some (record { id = "a"; body = Listener.get_all_addrs })
    ∷ some (record { id = "b"; body = Listener.get_contract "" })
    ∷ []

abbrev answers : List (Message IpcResponse)
answers =
    record { id = "a"; body = Listener.get_all_addrs_response (Listener.addresses []) }
    ∷ record { id = "b"; body = Listener.error_response (database_error hex_error) }
    ∷ []

served : handle_message crates rocks ecalls queries start ≡ (ok answers, start)
unfolding handle_message handle Queries.get_all_addrs Queries.get_contract Db.get_all_addresses
    hash_from_hex lift check pure ◌>>=◌
served = refl

handle_message-ids_example : map id_of queries ≡ map (λ m. some m.id) answers
handle_message-ids_example =
    handle_message-ids crates rocks ecalls queries answers start start served

abbrev good : IpcDeltasRange
good = record { address = name; from = 0; to = 2 }

abbrev bad : IpcDeltasRange
bad = record { address = "z"; from = 0; to = 2 }

abbrev removed : Worker ℕ ℕ
removed = record { database = 7; state_updated = true; enclave = 0 }

removes : remove_ranges rocks hex (good ∷ []) start ≡ (ok [], removed)
unfolding remove_ranges remove_keys indices delete_data_from_db hash_from_hex Crud.delete
    deleted_status lift pure ◌>>=◌ delta_as_split type_key
removes = refl

malformed : hash_from_hex hex "z" ≡ err hex_error
unfolding hash_from_hex
malformed = refl

-- A build that fails.
abbrev refused_build : ℕ × ℕ → Answer (List ℕ) × (ℕ × ℕ)
refused_build st = (record { code = success; sgx_success = false; output = [] }, st)

remove_deltas_partial_example :
    (remove_deltas rocks hex (good ∷ bad ∷ []) start ≡ (err (database_error hex_error), removed))
    × (true ≡ true)
    × (compute_task crates rocks ecalls task removed
        ≡ compute_task crates rocks
            (record ecalls { ecall_build_state = refused_build })
            task
            removed)
remove_deltas_partial_example =
    remove_deltas_partial rocks hex crates ecalls refused_build task (good ∷ []) [] bad hex_error []
      start removed malformed removes

decodes : hash_from_hex hex name ≡ ok (replicate 32 1)
unfolding hash_from_hex
decodes = refl

remove_contract_passed_example :
    remove_contract rocks hex name start
    ≡ (ok (Listener.remove_contract_response name (Listener.one_status passed)), start)
remove_contract_passed_example =
    remove_contract_passed rocks hex name (replicate 32 1) start decodes
