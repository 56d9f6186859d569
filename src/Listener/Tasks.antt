-- ===== src/Listener/Tasks.antt =====
-- The requests that call the enclave.
use Prim.Native.String.{String}
use enigma_core.Prelude.{
  ℕ, Bool, true, false, Option, none, some, List, [], ◌∷◌, map, length, ◌==◌, if◌then◌else◌,
  Outcome, ok, err, panic,
}
use enigma_core.Prelude as Prelude
use enigma_core.Exec.{check, lift, pure, ◌>>=◌}
use enigma_core.Database.{Rocks, Hex}
use enigma_core.Database.Key.{delta_key, byte_code}
use enigma_core.Database.Crud as Crud
use enigma_core.Database.Queries as Db
use enigma_core.Listener as Listener
use enigma_core.Listener.{
  failed, IpcTask, IpcStatusResult, IpcResponse, TaskOutput, ListenerError, json_error, Handler,
  or_database, or_hex_error, expected, contract_address_from_hex, on_database, update_state_status,
  from_delta,
}
use enigma_core.Listener.Enclave as Enclave
use enigma_core.Listener.Enclave.{
  Ecalls, WasmTaskResult, WasmTaskFailure, WasmResult, wasm_task_result, wasm_task_failure,
}

-- What the requests use besides: Keccak-256, the public key in a message (`none` where it does not
-- decode, which panics, and `some none` where it is not a list of bytes), and the registration: the
-- signing address, a quote, and the report and signature of the attestation service, if not in
-- simulation mode. `as_bytes` are the bytes of a text.
pub record ListenerCrates : Type 0 where
  pub hex : Hex
  pub keccak256 : List ℕ → List ℕ
  pub pubkey_of : List ℕ → Option (Option (List ℕ))
  pub signing_address : Outcome ListenerError (List ℕ)
  pub retry_quote : Outcome ListenerError String
  pub is_simulation : Bool
  pub get_report : String → Outcome ListenerError (String × String)
  pub as_bytes : String → List ℕ

-- `clone_from_slice` into 64 bytes panics on another length.
abbrev sized_pubkey : List ℕ → Outcome ListenerError (List ℕ)
sized_pubkey key = if length key == 64 then ok key else panic

abbrev decoded_pubkey : Option (Option (List ℕ)) → Outcome ListenerError (List ℕ)
decoded_pubkey none = panic
decoded_pubkey (some none) = err json_error
decoded_pubkey (some (some key)) = ok key

abbrev failed_contract : Hex → List ℕ → IpcStatusResult
failed_contract h a = record { address = h.to_hex a; key = none; status = failed }

module _ (c : ListenerCrates) where
  abbrev reported : String → Outcome ListenerError (String × String)
  reported enc_quote =
      if c.is_simulation
      then ok (c.hex.to_hex (c.as_bytes enc_quote), "")
      else Prelude.◌>>=◌ (c.get_report enc_quote)
          (λ response. ok (c.hex.to_hex (c.as_bytes response.0), response.1))

  unfoldable pub get_registration_params : Outcome ListenerError IpcResponse
  get_registration_params = Prelude.◌>>=◌ c.signing_address (λ signing_key.
      Prelude.◌>>=◌ c.retry_quote (λ enc_quote. Prelude.◌>>=◌ (reported enc_quote) (λ report. ok (
        Listener.get_registration_params_response
          (Listener.registration_params (c.hex.to_hex signing_key) report.0 report.1)))))

  -- The response of a task that failed.
  abbrev pub into_failed : WasmTaskFailure → IpcResponse
  into_failed v =
      Listener.failed_task_response
        (Listener.failed_task (c.hex.to_hex v.output) v.used_gas (c.hex.to_hex v.signature))

  abbrev task_output : WasmTaskResult → Outcome ListenerError TaskOutput
  task_output v = Prelude.◌>>=◌ (from_delta v.delta_key v.delta_value) (λ d. ok (record {
    used_gas = v.used_gas;
    output = c.hex.to_hex v.output;
    delta = d;
    ethereum_address = c.hex.to_hex v.eth_contract_addr;
    ethereum_payload = c.hex.to_hex v.eth_payload;
    signature = c.hex.to_hex v.signature;
  }))

  unfoldable pub into_execute_response : WasmTaskResult → Outcome ListenerError IpcResponse
  into_execute_response v =
      Prelude.◌>>=◌ (task_output v)
        (λ o. ok (Listener.compute_task_response (Listener.compute_result o)))

  unfoldable pub into_deploy_response : WasmTaskResult → List ℕ → Outcome ListenerError IpcResponse
  into_deploy_response v bytecode = Prelude.◌>>=◌ (task_output v) (λ o. ok (
      Listener.deploy_secret_contract_response
        (Listener.deploy_result (c.hex.to_hex (c.keccak256 bytecode)) o)))

  module _ {S D : Type 0} (r : Rocks D) (e : Ecalls S D) where
    unfoldable pub get_dh_user_key : String → Handler S D IpcResponse
    get_dh_user_key user_pubkey = do
      bytes ← lift (expected (c.hex.from_hex user_pubkey))
      key ← lift (sized_pubkey bytes)
      answer ← Enclave.get_user_key e key
      pubkey ← lift (decoded_pubkey (c.pubkey_of answer.0))
      pure (
          Listener.new_task_encryption_key_response
            (Listener.dh_key (c.hex.to_hex pubkey) (c.hex.to_hex answer.1)))

    unfoldable pub get_ptt_req : Handler S D IpcResponse
    get_ptt_req = do
      answer ← Enclave.ptt_req e
      pure (
          Listener.get_ptt_request_response
            (Listener.request (c.hex.to_hex answer.0) (c.hex.to_hex answer.1)))

    unfoldable pub ptt_response : String → Handler S D IpcResponse
    ptt_response response = do
      msg ← lift (or_hex_error (c.hex.from_hex response))
      _ ← Enclave.ptt_res e msg
      res ← Enclave.ptt_build_state e
      _ ← update_state_status true
      pure (Listener.ptt_response_response (Listener.errors (map (failed_contract c.hex) res)))

    -- The address, the arguments, the function and the key of the user, in the order of a deployment.
    abbrev deploy_inputs : IpcTask → Outcome ListenerError (List ℕ × (List ℕ × (List ℕ × List ℕ)))
    deploy_inputs input =
        Prelude.◌>>=◌ (contract_address_from_hex c.hex input.address) (λ contract_address.
          Prelude.◌>>=◌ (or_hex_error (c.hex.from_hex input.encrypted_args)) (λ enc_args.
            Prelude.◌>>=◌ (or_hex_error (c.hex.from_hex input.encrypted_fn)) (λ constructor.
              Prelude.◌>>=◌ (or_hex_error (c.hex.from_hex input.user_dhkey)) (λ user_key.
                Prelude.◌>>=◌ (sized_pubkey user_key)
                  (λ user_pubkey. ok (contract_address, (enc_args, (constructor, user_pubkey))))))))

    abbrev deployed : List ℕ → List ℕ → WasmResult → Handler S D IpcResponse
    deployed bytecode contract_address (wasm_task_result v) = do
      _ ← on_database (
          Crud.create r (delta_key c.hex)
            (record { contract_address = contract_address; key_type = byte_code }) v.output)
      lift (into_deploy_response v bytecode)
    deployed bytecode contract_address (wasm_task_failure v) = pure (into_failed v)

    unfoldable pub deploy_contract : IpcTask → Handler S D IpcResponse
    deploy_contract input = do
      bytecode ← lift (expected input.pre_code)
      (contract_address, (enc_args, (constructor, user_pubkey))) ← lift (deploy_inputs input)
      result ←
          Enclave.deploy e bytecode constructor enc_args contract_address user_pubkey
            input.gas_limit
      deployed bytecode contract_address result

    -- The arguments, the address, the function and the key, in the order of an execution.
    abbrev pub compute_inputs :
        IpcTask → Outcome ListenerError (List ℕ × (List ℕ × (List ℕ × List ℕ)))
    compute_inputs input =
        Prelude.◌>>=◌ (or_hex_error (c.hex.from_hex input.encrypted_args)) (λ enc_args.
          Prelude.◌>>=◌ (contract_address_from_hex c.hex input.address) (λ address.
            Prelude.◌>>=◌ (or_hex_error (c.hex.from_hex input.encrypted_fn)) (λ callable.
              Prelude.◌>>=◌ (or_hex_error (c.hex.from_hex input.user_dhkey)) (λ user_key.
                Prelude.◌>>=◌ (sized_pubkey user_key)
                  (λ user_pubkey. ok (enc_args, (address, (callable, user_pubkey))))))))

    -- The states are built if the flag is not set; the contracts that failed are not looked at.
    unfoldable pub build_if_needed : Handler S D (Unit {0})
    build_if_needed st =
        if st.state_updated
        then (ok tt, st)
        else (do _ ← Enclave.ptt_build_state e; update_state_status true) st

    abbrev executed : WasmResult → Outcome ListenerError IpcResponse
    executed (wasm_task_result v) = into_execute_response v
    executed (wasm_task_failure v) = ok (into_failed v)

    unfoldable pub compute_task : IpcTask → Handler S D IpcResponse
    compute_task input = do
      (enc_args, (address, (callable, user_pubkey))) ← lift (compute_inputs input)
      _ ← build_if_needed
      bytecode ←
          check (λ st. or_database (Db.get_contract r c.hex (delta_key c.hex) address st.database))
      result ← Enclave.execute e bytecode callable enc_args user_pubkey address input.gas_limit
      lift (executed result)
