-- ===== src/Tests/Runtime.antt =====
-- The engine at concrete inputs: a contract that writes a value and returns it, over a memory of bytes.
use mathlib.Core.Path.{fun_ext}
use enigma_core.Prelude.{
  ℕ, ◌+◌, ◌≤◌, ◌≡◌, ◌≢◌, refl, ap, ◌∙◌, true, false, Bool-cases, inl, inr, Option, none, some, List,
  [], ◌∷◌, ◌++◌, length, take, drop, leb, ◌==◌, if◌then◌else◌, bytes_eq, bytes_eq_iff,
  bytes_eq_refl, ok,
}
use enigma_core.Errors.Codes.{from_result, success}
use enigma_core.Exec as Exec
use enigma_core.Exec.{modify, pure, lift, check}
use enigma_core.ContractState.{
  generate_delta_and_update_state, encrypt_patch, keccak256_patch, encrypt_state, decrypt_state,
  is_initial,
}
use enigma_core.Crypto.Symmetric.{decrypt, encrypt_with_nonce}
use enigma_core.Arguments.{find, get_types, decrypt_args, decrypt_callable, decrypt_inputs}
use enigma_core.Gas.{
  charge_gas, charge_gas_if_enough, charge_execution, calculate_gas_for_writing, used_gas,
  default_costs,
}
use enigma_core.StateKeys.Store.{get, remove}
use enigma_core.Worker.{worker_state_key}
use enigma_core.Worker.Build.{encrypt_known, get_known}
use enigma_core.Task.{
  Task, create_eth_data_to_sign, get_enc_delta, states_eq, into_result, sign_multiple,
}
use enigma_core.Task.Run.{
  get_io_key, store_delta_and_state, prepare_wasm_result, compute, ecall_execute_internal, run_task,
  ecall_execute,
}
use enigma_core.Task.Computed.{IsExecuted}
use enigma_core.Task.Runtime.{RuntimeCrates, Runtime, HostFunction, new_runtime, as_i32, on_gas}
use enigma_core.Task.Runtime.Calls.{
  invoke_index, read_state_key_from_memory, call_write_state, call_read_state_len, call_read_state,
  set_memory, call_ret, value_vec,
}
use enigma_core.Task.Runtime.Engine as Engine
use enigma_core.Task.Runtime.Engine.{
  Code, finished, call, Interpreter, run_code, execute_code, compute_engine, deploy_engine,
}
use enigma_core.Task.Runtime.Bounded.{IsLimited, engines-IsLimited}
use enigma_core.Task.Runtime.Reported.{ecall_execute-used_gas}
use enigma_core.Task.Runtime.Values.{ValueLaws, IsWritten, call_read_state_len-call_write_state}
use enigma_core.Tests.ContractState as ContractState
use enigma_core.Tests.ContractState.{address, key, at}
use enigma_core.Tests.Task.{crates, host, user, start, callable, bytecode}

abbrev Memory : Type 0
Memory = List ℕ

abbrev get_bytes : ℕ → ℕ → Memory → Option (List ℕ)
get_bytes ptr len memory =
    if leb (ptr + len) (length memory) then some (take len (drop ptr memory)) else none

abbrev set_bytes : ℕ → List ℕ → Memory → Option Memory
set_bytes ptr bytes memory =
    if leb (ptr + length bytes) (length memory)
    then some (take ptr memory ++ bytes ++ drop (ptr + length bytes) memory)
    else none

abbrev byte_of : List ℕ → Option ℕ
byte_of (b ∷ []) = some b
byte_of _ = none

-- A state of one number.
abbrev runtime : RuntimeCrates ℕ Memory
runtime = record {
  get = get_bytes;
  set = set_bytes;
  value_of = λ k json. json;
  is_null = λ json. json == 0;
  to_vec = λ json. json ∷ [];
  from_slice = byte_of;
  write_key = λ k value json. some value;
  remove_key = λ k json. 0;
  is_utf8 = λ bytes. true;
  aead = ContractState.crates.aead;
}

-- The key "a" and the value 8, written and then returned.
abbrev contract : Code Memory
contract =
    call (97 ∷ 8 ∷ []) HostFunction.write_state none (0 ∷ 1 ∷ 1 ∷ 1 ∷ [])
      (λ memory value. call memory HostFunction.ret none (1 ∷ 1 ∷ []) (λ memory' value'. finished))

abbrev interpreter : Interpreter Memory
interpreter = record {
  create_module = λ code. ok ([], contract);
  build_constructor = λ code. ok code;
}

engines-IsLimited_example :
    IsLimited 20000 (at 10) (compute_engine runtime interpreter bytecode 20000 [] (at 10) [] key)
    × IsLimited 20000 (at 10) (deploy_engine runtime interpreter bytecode 20000 [] (at 10) [] key)
engines-IsLimited_example = engines-IsLimited runtime interpreter 20000 [] (at 10) [] key bytecode

abbrev executed : Task ℕ ℕ
executed =
    (ecall_execute crates host (compute_engine runtime interpreter) bytecode callable [] user
      address 20000 start).1

executes :
    ecall_execute crates host
      (compute_engine runtime interpreter)
      bytecode
      callable
      []
      user
      address
      20000
      start
    ≡ (ok success, executed)
unfolding ecall_execute run_task get_io_key ecall_execute_internal compute decrypt_inputs get_types
    find decrypt_args decrypt_callable decrypt get_known decrypt_state into_result states_eq
    generate_delta_and_update_state encrypt_patch encrypt_with_nonce keccak256_patch
    prepare_wasm_result store_delta_and_state encrypt_known encrypt_state sign_multiple
    create_eth_data_to_sign get_enc_delta from_result Exec.◌>>=◌ modify pure lift check get remove
    is_initial worker_state_key compute_engine Engine.compute_code execute_code run_code
    invoke_index call_write_state call_ret read_state_key_from_memory on_gas
    calculate_gas_for_writing charge_gas charge_gas_if_enough charge_execution used_gas
executes = refl

ecall_execute-used_gas_example :
    (executed.result.used_gas ≤ 20000)
    × (io_key : List ℕ) × (done : IsExecuted crates host
        (compute_engine runtime interpreter)
        bytecode
        callable
        []
        user
        io_key
        address
        20000
        (start.keys.state_keys)
        (start.db)
        (executed.result))
    × (done.exec_res.updated_state.contract_address ≡ done.pre.contract_address)
ecall_execute-used_gas_example =
    ecall_execute-used_gas crates host runtime interpreter bytecode callable [] address user 20000
      start executed executes

-- A value is a function of the keys that lead into it.
abbrev Tree : Type 0
Tree = List (List ℕ) → ℕ

abbrev written_at : List ℕ → Tree → Tree → Tree
written_at k value json [] = json []
written_at k value json (k' ∷ path) = if bytes_eq k' k then value path else json (k' ∷ path)

abbrev trees : RuntimeCrates Tree Memory
trees = record {
  get = get_bytes;
  set = set_bytes;
  value_of = λ k json path. json (k ∷ path);
  is_null = λ json. json [] == 0;
  to_vec = λ json. json [] ∷ [];
  from_slice = λ bytes. elim (byte_of bytes) [ none ↦ none | some b ↦ some (λ path. b) ];
  write_key = λ k value json. some (written_at k value json);
  remove_key = λ k json. json;
  is_utf8 = λ bytes. true;
  aead = ContractState.crates.aead;
}

made : (k : List ℕ) (v j j' : Tree) → trees.write_key k v j ≡ some j' → j' ≡ written_at k v j
made k v j j' h = cc

unequal : (a b : List ℕ) → a ≢ b → bytes_eq a b ≡ false
unequal a b ne = elim (Bool-cases (bytes_eq a b)) [
  | inl e ↦ absurd (ne ((bytes_eq_iff a b).0 e))
  | inr e ↦ e
]

tree_laws : ValueLaws trees
tree_laws = record {
  value_of-write_key = λ k v j j' h.
      ap (trees.value_of k) (made k v j j' h) ∙ fun_ext (λ path. rw (bytes_eq_refl k) refl);
  value_of-write_key_ne = λ k k' v j j' ne h.
      ap (trees.value_of k') (made k v j j' h) ∙ fun_ext (λ path. rw (unequal k' k ne) refl);
}

abbrev before : Runtime Tree Memory
before =
    new_runtime (97 ∷ 8 ∷ []) 20000 []
      (record { contract_address = address; json = λ path. 0; delta_hash = []; delta_index = 0 }) []
      key default_costs

abbrev call_args : List ℕ
call_args = 0 ∷ 1 ∷ 1 ∷ 1 ∷ []

abbrev after : Runtime Tree Memory
after = (call_write_state trees call_args before).1

writes : call_write_state trees call_args before ≡ (ok tt, after)
unfolding call_write_state read_state_key_from_memory Exec.◌>>=◌ modify pure lift check on_gas
    calculate_gas_for_writing charge_gas charge_gas_if_enough
writes = refl

call_read_state_len-call_write_state_example :
    (w : IsWritten trees tree_laws call_args before after) × (call_read_state_len trees call_args
        after
      ≡ (ok (as_i32 (length (trees.to_vec w.value))), after))
    × (call_read_state trees call_args after ≡ set_memory trees w.ptr (trees.to_vec w.value) after)
    × (value_vec trees (98 ∷ []) after ≡ (
        if bytes_eq (98 ∷ []) w.key
        then trees.to_vec w.value
        else value_vec trees (98 ∷ []) before))
call_read_state_len-call_write_state_example =
    call_read_state_len-call_write_state trees tree_laws call_args before after (98 ∷ []) writes
