-- ===== src/Listener/Enclave.antt =====
-- The calls of the worker's enclave by its host: km_u.rs and wasm_u.
use enigma_core.Prelude.{
  ℕ, zero, suc, Bool, true, false, not, ◌&&◌, ◌||◌, List, [], ◌∷◌, take, drop, length, ◌==◌,
  if◌then◌else◌, Outcome, ok, err, panic,
}
use enigma_core.Errors.Codes.{is_success, EnclaveReturn}
use enigma_core.Database.Key.{DeltaKey, delta}
use enigma_core.Task.{ExecuteResult}
use enigma_core.Listener.{ListenerError, enclave_fail, bail_error, Handler}

pub record WasmTaskResult : Type 0 where
  pub output : List ℕ
  pub delta_key : DeltaKey
  pub delta_value : List ℕ
  pub eth_payload : List ℕ
  pub eth_contract_addr : List ℕ
  pub signature : List ℕ
  pub used_gas : ℕ

pub record WasmTaskFailure : Type 0 where
  pub output : List ℕ
  pub signature : List ℕ
  pub used_gas : ℕ

pub data WasmResult : Type 0 where
  wasm_task_result : WasmTaskResult → WasmResult
  wasm_task_failure : WasmTaskFailure → WasmResult

-- What an ecall leaves: its code, whether the call itself succeeded, and an output.
pub record Answer (A : Type 0) : Type 0 where
  pub code : EnclaveReturn
  pub sgx_success : Bool
  pub output : A

-- The ecalls, on the enclave and the database of its host. `boxed` is what a pointer points to.
pub record Ecalls (S D : Type 0) : Type 0 where
  pub ecall_build_state : S × D → Answer (List ℕ) × (S × D)
  pub ecall_ptt_req : S → Answer (List ℕ × List ℕ) × S
  pub ecall_ptt_res : List ℕ → S → Answer (Unit {0}) × S
  pub ecall_get_user_key : List ℕ → S → Answer (List ℕ × List ℕ) × S
  pub ecall_deploy :
      List ℕ → List ℕ → List ℕ → List ℕ → List ℕ → ℕ → S × D → Answer ExecuteResult × (S × D)
  pub ecall_execute :
      List ℕ → List ℕ → List ℕ → List ℕ → List ℕ → ℕ → S × D → Answer ExecuteResult × (S × D)
  pub boxed : ℕ → S × D → List ℕ

abbrev pub is_task_failure : EnclaveReturn → Bool
is_task_failure EnclaveReturn.task_failure = true
is_task_failure _ = false

abbrev pub succeeded : {A : Type 0} → Answer A → Outcome ListenerError A
succeeded a =
    if is_success a.code && a.sgx_success
    then ok a.output
    else err (enclave_fail a.code a.sgx_success)

-- The chunks of 32 bytes; `copy_from_slice` panics on a shorter one. There are fewer than bytes.
unfoldable pub chunks : ℕ → List ℕ → Outcome ListenerError (List (List ℕ))
chunks _ [] = ok []
chunks zero (b ∷ bytes) = panic
chunks (suc fuel) (b ∷ bytes) =
    let rest = chunks fuel (drop 32 (b ∷ bytes)) in
    if length (take 32 (b ∷ bytes)) == 32
    then elim rest [ ok cs ↦ ok (take 32 (b ∷ bytes) ∷ cs) | err e ↦ err e | panic ↦ panic ]
    else panic

abbrev pub addresses_in : Outcome ListenerError (List ℕ) → Outcome ListenerError (List (List ℕ))
addresses_in (ok part) = chunks (length part) part
addresses_in (err x) = err x
addresses_in panic = panic

module _ {S D : Type 0} (e : Ecalls S D) where
  -- An ecall on the enclave alone.
  abbrev pub in_enclave : {A : Type 0} → (S → Answer A × S) → Handler S D A
  in_enclave call st =
      let (answer, enclave) = call st.enclave in (succeeded answer, record st { enclave = enclave })

  unfoldable pub ptt_build_state : Handler S D (List (List ℕ))
  ptt_build_state st =
      let (answer, (enclave, db)) = e.ecall_build_state (st.enclave, st.database) in
      let st' = record st { enclave = enclave; database = db } in
      (addresses_in (succeeded answer), st')

  abbrev pub ptt_res : List ℕ → Handler S D (Unit {0})
  ptt_res msg = in_enclave (e.ecall_ptt_res msg)

  abbrev pub ptt_req : Handler S D (List ℕ × List ℕ)
  ptt_req = in_enclave e.ecall_ptt_req

  abbrev pub get_user_key : List ℕ → Handler S D (List ℕ × List ℕ)
  get_user_key user_pubkey = in_enclave (e.ecall_get_user_key user_pubkey)

  -- A null pointer is an error.
  abbrev pub get_output : ExecuteResult → S × D → Outcome ListenerError (List ℕ)
  get_output r st = if r.output == 0 then err bail_error else ok (e.boxed r.output st)

  abbrev pub as_failure :
      ExecuteResult → Outcome ListenerError (List ℕ) → Outcome ListenerError WasmResult
  as_failure r (ok output) = ok (
      wasm_task_failure
        (record { output = output; signature = r.signature; used_gas = r.used_gas }))
  as_failure r (err x) = err x
  as_failure r panic = panic

  abbrev pub as_result :
      ExecuteResult
      → List ℕ
      → S × D
      → Outcome ListenerError (List ℕ)
      → Outcome ListenerError WasmResult
  as_result r address st (ok output) = ok (
      wasm_task_result (record {
        output = output;
        delta_key = record { contract_address = address; key_type = delta r.delta_index };
        delta_value = e.boxed r.delta_ptr st;
        eth_payload = e.boxed r.ethereum_payload_ptr st;
        eth_contract_addr = r.ethereum_address;
        signature = r.signature;
        used_gas = r.used_gas;
      }))
  as_result r address st (err x) = err x
  as_result r address st panic = panic

  -- `TryFrom` for `WasmResult`.
  unfoldable pub try_from : Answer ExecuteResult → List ℕ → S × D → Outcome ListenerError WasmResult
  try_from a address st =
      let r = a.output in
      if is_task_failure a.code
      then as_failure r (get_output r st)
      else if not (is_success a.code) || not a.sgx_success
      then err (enclave_fail a.code a.sgx_success)
      else if r.ethereum_payload_ptr == 0 || (r.delta_ptr == 0)
      then err bail_error
      else as_result r address st (get_output r st)

  abbrev pub run_wasm : List ℕ → (S × D → Answer ExecuteResult × (S × D)) → Handler S D WasmResult
  run_wasm address call st =
      let (answer, (enclave, db)) = call (st.enclave, st.database) in
      (try_from answer address (enclave, db), record st { enclave = enclave; database = db })

  -- `deploy` and `execute` of wasm.rs.
  unfoldable pub deploy : List ℕ → List ℕ → List ℕ → List ℕ → List ℕ → ℕ → Handler S D WasmResult
  deploy bytecode constructor args contract_address user_pubkey gas_limit =
      run_wasm contract_address
        (e.ecall_deploy bytecode constructor args contract_address user_pubkey gas_limit)

  unfoldable pub execute : List ℕ → List ℕ → List ℕ → List ℕ → List ℕ → ℕ → Handler S D WasmResult
  execute bytecode callable args user_pubkey contract_address gas_limit =
      run_wasm contract_address
        (e.ecall_execute bytecode callable args user_pubkey contract_address gas_limit)
