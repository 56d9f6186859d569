-- ===== src/Task/Runtime/Limits.antt =====
-- What a contract cannot do: use more gas than the limit, or change more of the state than its value.
use enigma_core.Prelude.{ℕ, ◌≤◌, ◌≡◌, Option, List, arith}
use enigma_core.Exec.{Keeps, keeps_rules, chain-Keeps, check-Keeps, lift-Keeps, modify-Keeps}
use enigma_core.ContractState.{ContractState}
use enigma_core.Gas.{
  RuntimeGas, Charged, charge_gas, charge_gas_if_enough, charge_execution, charge_deployment,
  calculate_gas_for_writing,
}
use enigma_core.Task.Runtime.Engine.{Code, finished, trapped, call, run_code}
use enigma_core.Task.Runtime.{
  RuntimeCrates, Runtime, HostFunction, ret, write_state, read_state, read_state_len, eprint,
  name_length, name, fetch_args, args_length, write_eth_bridge, remove_state, gas, rand, encrypt,
  decrypt, on_gas, set_json,
}
use enigma_core.Task.Runtime.Calls.{
  invoke_index, set_memory, read_state_key_from_memory, call_read_state_len, call_read_state,
  call_remove_from_state, call_write_state, call_write_eth_bridge, call_ret, call_rand, call_eprint,
  call_gas, call_encrypt, call_decrypt, call_fetch,
}

-- A gas state within its limit, which a run from `start` may have come to.
pub record IsGasFrom (start g : RuntimeGas) : Type 0 where
  pub within : g.counter ≤ g.limit
  pub grown : start.counter ≤ g.counter
  pub limit : g.limit ≡ start.limit
  pub costs : g.costs ≡ start.costs

-- All but the memory, the gas, the output, the bridge and the value of the state.
abbrev pub kept :
    {J M : Type 0}
    → Runtime J M
    → List ℕ × (List ℕ × (List ℕ × (ContractState J × (List ℕ × (List ℕ × ℕ)))))
kept st = (
  st.function_name,
  (
    st.args,
    (
      st.key,
      (
        st.pre_execution_state,
        (
          st.post_execution_state.contract_address,
          (st.post_execution_state.delta_hash, st.post_execution_state.delta_index),
        ),
      ),
    ),
  ),
)

-- What a run from `start` may have come to.
abbrev pub IsFrom : {J M : Type 0} → Runtime J M → Runtime J M → Type 0
IsFrom start st = IsGasFrom start.gas st.gas × (kept st ≡ kept start)

charge_gas-IsGasFrom :
    (start : RuntimeGas) (amount : ℕ) (g : RuntimeGas)
    → IsGasFrom start g
    → IsGasFrom start (charge_gas amount g).1
unfolding charge_gas charge_gas_if_enough
charge_gas-IsGasFrom start amount g h = ground arith

charge_execution-IsGasFrom :
    (start g : RuntimeGas) → IsGasFrom start g → IsGasFrom start (charge_execution g).1
unfolding charge_execution
charge_execution-IsGasFrom start g h = charge_gas-IsGasFrom start g.costs.execution g h

charge_deployment-IsGasFrom :
    (start : RuntimeGas) (bytecode : List ℕ) (g : RuntimeGas)
    → IsGasFrom start g
    → IsGasFrom start (charge_deployment bytecode g).1
unfolding charge_deployment
charge_deployment-IsGasFrom start bytecode g h = charge_gas-IsGasFrom start _ g h

calculate_gas_for_writing-IsGasFrom :
    (start : RuntimeGas) (new old : ℕ) (g : RuntimeGas)
    → IsGasFrom start g
    → IsGasFrom start (calculate_gas_for_writing new old g).1
unfolding calculate_gas_for_writing
calculate_gas_for_writing-IsGasFrom start new old g h = ground arith

module _ {J M : Type 0} (start : Runtime J M) where
  on_gas-Keeps :
      {A : Type 0} (f : RuntimeGas → Charged A)
      → ((g : RuntimeGas) → IsGasFrom start.gas g → IsGasFrom start.gas (f g).1)
      → Keeps (IsFrom start) (on_gas f)
  unfolding on_gas
  on_gas-Keeps f keep = record { after = λ st h. (keep st.gas h.0, h.1) }

  set_json-Keeps : (json : J) → Keeps (IsFrom start) (set_json json)
  set_json-Keeps json = modify-Keeps _ (λ st h. h)

module _ {J M : Type 0} (c : RuntimeCrates J M) (start : Runtime J M) where
  set_memory-Keeps : (ptr : ℕ) (bytes : List ℕ) → Keeps (IsFrom start) (set_memory c ptr bytes)
  unfolding set_memory
  set_memory-Keeps ptr bytes =
      chain-Keeps _ _ (check-Keeps _) (λ memory. modify-Keeps _ (λ st h. h))

  key-Keeps : (args : List ℕ) → Keeps (IsFrom start) (read_state_key_from_memory c args)
  unfolding read_state_key_from_memory
  key-Keeps args = search keeps_rules

  charge-Keeps : (amount : ℕ) → Keeps (IsFrom start) (on_gas (charge_gas amount))
  charge-Keeps amount = on_gas-Keeps start _ (λ g h. charge_gas-IsGasFrom start.gas amount g h)

  writing-Keeps : (new old : ℕ) → Keeps (IsFrom start) (on_gas (calculate_gas_for_writing new old))
  writing-Keeps new old =
      on_gas-Keeps start _ (λ g h. calculate_gas_for_writing-IsGasFrom start.gas new old g h)

  pub charge_execution-Keeps : Keeps (IsFrom start) (on_gas charge_execution)
  charge_execution-Keeps = on_gas-Keeps start _ (λ g h. charge_execution-IsGasFrom start.gas g h)

  pub charge_deployment-Keeps : Keeps (IsFrom start) (λ st. on_gas (charge_deployment st.output) st)
  charge_deployment-Keeps = record {
    after = λ st h.
        (on_gas-Keeps start (charge_deployment st.output)
            (λ g k. charge_deployment-IsGasFrom start.gas st.output g k)).after
          st h;
  }

  call_write_state-Keeps : (args : List ℕ) → Keeps (IsFrom start) (call_write_state c args)
  unfolding call_write_state
  call_write_state-Keeps args =
      search (keeps_rules, key-Keeps, charge-Keeps, writing-Keeps, set_json-Keeps start) depth 16

  call_encrypt-Keeps :
      (drawn : Option (List ℕ)) (args : List ℕ) → Keeps (IsFrom start) (call_encrypt c drawn args)
  unfolding call_encrypt
  call_encrypt-Keeps drawn args = search (keeps_rules, set_memory-Keeps) depth 16

  call_fetch-Keeps :
      (field : Runtime J M → List ℕ) (args : List ℕ)
      → Keeps (IsFrom start) (call_fetch c field args)
  unfolding call_fetch
  call_fetch-Keeps field args = search (keeps_rules, set_memory-Keeps)

  invoke_index-Keeps :
      (f : HostFunction) (drawn : Option (List ℕ)) (args : List ℕ)
      → Keeps (IsFrom start) (invoke_index c f drawn args)
  unfolding invoke_index call_ret call_read_state_len call_read_state call_remove_from_state
      call_write_eth_bridge call_rand call_eprint call_gas call_decrypt
  invoke_index-Keeps ret drawn args = search keeps_rules
  invoke_index-Keeps write_state drawn args = search (keeps_rules, call_write_state-Keeps)
  invoke_index-Keeps read_state drawn args = search (keeps_rules, key-Keeps, set_memory-Keeps)
  invoke_index-Keeps read_state_len drawn args = search (keeps_rules, key-Keeps)
  invoke_index-Keeps eprint drawn args = search keeps_rules
  invoke_index-Keeps name_length drawn args = search keeps_rules
  invoke_index-Keeps name drawn args = search (keeps_rules, call_fetch-Keeps)
  invoke_index-Keeps fetch_args drawn args = search (keeps_rules, call_fetch-Keeps)
  invoke_index-Keeps args_length drawn args = search keeps_rules
  invoke_index-Keeps write_eth_bridge drawn args = search keeps_rules depth 16
  invoke_index-Keeps remove_state drawn args = search (keeps_rules, key-Keeps, set_json-Keeps start)
  invoke_index-Keeps gas drawn args = search (keeps_rules, charge-Keeps)
  invoke_index-Keeps rand drawn args = search (keeps_rules, set_memory-Keeps)
  invoke_index-Keeps encrypt drawn args = search (keeps_rules, call_encrypt-Keeps)
  invoke_index-Keeps decrypt drawn args = search (keeps_rules, set_memory-Keeps) depth 16

  pub run_code-Keeps : (code : Code M) → Keeps (IsFrom start) (run_code c code)
  unfolding run_code
  run_code-Keeps finished = lift-Keeps _
  run_code-Keeps trapped = lift-Keeps _
  run_code-Keeps (call memory function drawn args next) =
      chain-Keeps _ _ (modify-Keeps _ (λ st h. h)) (λ u.
        chain-Keeps _ _ (invoke_index-Keeps function drawn args)
          (λ value. chain-Keeps _ _ (check-Keeps _) (λ after. run_code-Keeps (next after value))))
