-- ===== src/Task/Runtime/Calls.antt =====
-- The functions that a contract may call, of `Runtime` of enigma-runtime-t/src/lib.rs.
use enigma_core.Prelude.{ℕ, Option, none, some, List, [], length, if◌then◌else◌, ok}
use enigma_core.Crypto.Symmetric as Symmetric
use enigma_core.Crypto.Symmetric.{Aead}
use enigma_core.Exec.{check, lift, modify, pure, ◌>>=◌}
use enigma_core.Gas as Gas
use enigma_core.Gas.{RuntimeGas, RuntimeWasmCosts, Charged, calculate_gas_for_writing}
use enigma_core.Task.Runtime.{
  RuntimeCrates, Runtime, Handler, HostFunction, ret, write_state, read_state, read_state_len,
  eprint, name_length, name, fetch_args, args_length, write_eth_bridge, remove_state, gas, rand,
  encrypt, decrypt, or_wasmi, expect, crypto_result, or_sgx, as_i32, nth_checked, on_gas, set_json,
}

module _ {J M : Type 0} (c : RuntimeCrates J M) where
  abbrev pub get_memory : ℕ → ℕ → Handler J M (List ℕ)
  get_memory ptr len = check (λ st. or_wasmi (c.get ptr len st.memory))

  unfoldable pub set_memory : ℕ → List ℕ → Handler J M (Unit {0})
  set_memory ptr bytes = do
    memory ← check (λ st. or_wasmi (c.set ptr bytes st.memory))
    modify (λ st. record st { memory = memory })

  -- A key that is not UTF-8 is the empty one.
  abbrev pub as_key : List ℕ → List ℕ
  as_key buf = if c.is_utf8 buf then buf else []

  unfoldable pub read_state_key_from_memory : List ℕ → Handler J M (List ℕ)
  read_state_key_from_memory args = do
    key ← nth_checked 0 args
    key_len ← nth_checked 1 args
    buf ← get_memory key key_len
    pure (as_key buf)

  abbrev pub value_vec : List ℕ → Runtime J M → List ℕ
  value_vec key st = c.to_vec (c.value_of key st.post_execution_state.json)

  unfoldable pub call_read_state_len : List ℕ → Handler J M ℕ
  call_read_state_len args = do
    key ← read_state_key_from_memory args
    bytes ← check (λ st. ok (value_vec key st))
    pure (as_i32 (length bytes))

  unfoldable pub call_read_state : List ℕ → Handler J M (Unit {0})
  call_read_state args = do
    key ← read_state_key_from_memory args
    value_holder ← nth_checked 2 args
    bytes ← check (λ st. ok (value_vec key st))
    set_memory value_holder bytes

  unfoldable pub call_remove_from_state : List ℕ → Handler J M (Unit {0})
  call_remove_from_state args = do
    key ← read_state_key_from_memory args
    json ← check (λ st. ok (c.remove_key key st.post_execution_state.json))
    set_json json

  -- The length of the value at the key, 0 for `Null`.
  abbrev pub old_value_len : List ℕ → Runtime J M → ℕ
  old_value_len key st =
      if c.is_null (c.value_of key st.post_execution_state.json)
      then 0
      else length (value_vec key st)

  -- A value that is not JSON panics.
  unfoldable pub call_write_state : List ℕ → Handler J M (Unit {0})
  call_write_state args = do
    key ← read_state_key_from_memory args
    value ← nth_checked 2 args
    value_len ← nth_checked 3 args
    old_len ← check (λ st. ok (old_value_len key st))
    gas_amount ← on_gas (calculate_gas_for_writing value_len old_len)
    _ ← on_gas (Gas.charge_gas gas_amount)
    val ← get_memory value value_len
    json ← lift (expect (c.from_slice val))
    new_json ← check (λ st. expect (c.write_key key json st.post_execution_state.json))
    set_json new_json

  unfoldable pub call_write_eth_bridge : List ℕ → Handler J M (Unit {0})
  call_write_eth_bridge args = do
    payload ← nth_checked 0 args
    payload_len ← nth_checked 1 args
    address ← nth_checked 2 args
    ethereum_payload ← get_memory payload payload_len
    ethereum_contract_addr ← get_memory address 20
    modify (λ st. record st {
      bridge = some (record {
        ethereum_payload = ethereum_payload;
        ethereum_contract_addr = ethereum_contract_addr;
      });
    })

  unfoldable pub call_ret : List ℕ → Handler J M (Unit {0})
  call_ret args = do
    ptr ← nth_checked 0 args
    len ← nth_checked 1 args
    output ← get_memory ptr len
    modify (λ st. record st { output = output })

  unfoldable pub call_rand : Option (List ℕ) → List ℕ → Handler J M (Unit {0})
  call_rand drawn args = do
    ptr ← nth_checked 0 args
    len ← nth_checked 1 args
    buf ← lift (or_sgx drawn)
    set_memory ptr buf

  unfoldable pub call_eprint : List ℕ → Handler J M (Unit {0})
  call_eprint args = do
    ptr ← nth_checked 0 args
    len ← nth_checked 1 args
    _ ← get_memory ptr len
    pure tt

  unfoldable pub call_gas : List ℕ → Handler J M (Unit {0})
  call_gas args = do amount ← nth_checked 0 args; on_gas (Gas.charge_gas amount)

  unfoldable pub call_encrypt : Option (List ℕ) → List ℕ → Handler J M (Unit {0})
  call_encrypt drawn args = do
    message_ptr ← nth_checked 0 args
    message_len ← nth_checked 1 args
    message ← get_memory message_ptr message_len
    key_ptr ← nth_checked 2 args
    key ← get_memory key_ptr 32
    ptr ← nth_checked 3 args
    enc_message ← lift (crypto_result (Symmetric.encrypt c.aead message key drawn))
    set_memory ptr enc_message

  unfoldable pub call_decrypt : List ℕ → Handler J M (Unit {0})
  call_decrypt args = do
    cipheriv_ptr ← nth_checked 0 args
    cipheriv_len ← nth_checked 1 args
    cipheriv ← get_memory cipheriv_ptr cipheriv_len
    key_ptr ← nth_checked 2 args
    key ← get_memory key_ptr 32
    ptr ← nth_checked 3 args
    message ← lift (crypto_result (Symmetric.decrypt c.aead cipheriv key))
    set_memory ptr message

  -- Copies a field into memory: `fetch_args` and `fetch_function_name`.
  unfoldable pub call_fetch : (Runtime J M → List ℕ) → List ℕ → Handler J M (Unit {0})
  call_fetch field args = do
    ptr ← nth_checked 0 args
    bytes ← check (λ st. ok (field st))
    set_memory ptr bytes

  abbrev pub no_value : Handler J M (Unit {0}) → Handler J M (Option ℕ)
  no_value call = do _ ← call; pure none

  abbrev pub a_value : Handler J M ℕ → Handler J M (Option ℕ)
  a_value call = do n ← call; pure (some n)

  -- `drawn` is what a call draws of random bytes.
  unfoldable pub invoke_index : HostFunction → Option (List ℕ) → List ℕ → Handler J M (Option ℕ)
  invoke_index ret drawn args = no_value (call_ret args)
  invoke_index write_state drawn args = no_value (call_write_state args)
  invoke_index read_state_len drawn args = a_value (call_read_state_len args)
  invoke_index read_state drawn args = no_value (call_read_state args)
  invoke_index remove_state drawn args = no_value (call_remove_from_state args)
  invoke_index eprint drawn args = no_value (call_eprint args)
  invoke_index name_length drawn args =
      a_value (check (λ st. ok (as_i32 (length st.function_name))))
  invoke_index name drawn args = no_value (call_fetch (λ st. st.function_name) args)
  invoke_index args_length drawn args = a_value (check (λ st. ok (as_i32 (length st.args))))
  invoke_index fetch_args drawn args = no_value (call_fetch (λ st. st.args) args)
  invoke_index write_eth_bridge drawn args = no_value (call_write_eth_bridge args)
  invoke_index gas drawn args = no_value (call_gas args)
  invoke_index rand drawn args = no_value (call_rand drawn args)
  invoke_index encrypt drawn args = no_value (call_encrypt drawn args)
  invoke_index decrypt drawn args = no_value (call_decrypt args)
