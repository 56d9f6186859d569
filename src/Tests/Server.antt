-- ===== src/Tests/Server.antt =====
-- The server of the key-management node: the worker of the published epoch is served.
use text.Mathlib.Text.{◌==◌ as str_eq}
use enigma_core.Prelude.{
  ℕ, ◌≡◌, ◌↔◌, err, refl, none, some, List, [], ◌∷◌, ◌++◌, if◌then◌else◌, ok, replicate, take,
  to_be_bytes, from_be_bytes,
}
use enigma_core.Exec.{◌>>=◌}
use enigma_core.StateKeys.{KeyStore, build_response}
use enigma_core.StateKeys.Request.{RequestCrates, KeysRequest, Opened, open_request, answer}
use enigma_core.StateKeys.Authorized.{AllSelected}
use enigma_core.Messages.{request}
use enigma_core.Principal.{HostError, EpochState, get_contract_addresses}
use enigma_core.Principal.States.{is_last_unconfirmed}
use enigma_core.Principal.Provider.Fresh.{IsAgreed, set_worker_params-IsAgreed}
use enigma_core.Principal.Server.{
  StateKeyRequest, StateKeyResponse, ServerCrates, illegal_state, handle_error, keys_request,
  epoch_of, addresses_of, get_data, get_sig, answered, get_state_keys,
}
use enigma_core.Principal.Server.Serving.{IsWorkers, get_state_keys-IsAgreed}
use enigma_core.Principal.Server.Refusing.{get_state_keys-AllSelected}
use enigma_core.Principal.Server.Waiting.{IsEarly, get_state_keys-illegal_state}
use enigma_core.Tests.Crates.{uint256_laws, Files, files}
use enigma_core.Tests.StateKeys.{empty}
use enigma_core.Tests.Request.{request_crates}
use enigma_core.Tests.Provider.{
  crates, worker, host, fresh, published, publishes, stopped, decode-encode,
}

abbrev msg_bytes : List ℕ
msg_bytes = 0 ∷ 0 ∷ 64 ∷ replicate 64 2 ++ replicate 12 4

-- The key is the first byte of a signature, and two texts are read.
abbrev server_crates : ServerCrates ℕ
server_crates = record {
  from_hex = λ s. if str_eq s "message" then some msg_bytes else some (8 ∷ replicate 64 0);
  to_hex = λ b. "hex";
  from_dec_str = λ s. none;
  len = λ s. 64;
  enclave = record request_crates { epoch = crates; recover = λ image sig. ok (take 1 sig) };
}

abbrev asks : StateKeyRequest
asks = record { request_data = "message"; sig = "signature"; block_number = none; addresses = none }

abbrev opened : Opened
opened = record {
  msg = record { body = request; pubkey = replicate 64 2; id = replicate 12 4 };
  user_pubkey = replicate 64 2;
  signer = worker;
}

asks-IsWorkers : IsWorkers host server_crates asks opened
unfolding open_request enigma_core.Messages.from_message enigma_core.Messages.get_pubkey
    enigma_core.Messages.to_sign
asks-IsWorkers = record {
  msg_bytes = msg_bytes;
  sig = 8 ∷ replicate 64 0;
  of_data = refl;
  of_sig = refl;
  sized = refl;
  no_block = refl;
  no_addresses = refl;
  opened = refl;
}

agreed : IsAgreed host 7 fresh published
agreed =
    set_worker_params-IsAgreed host uint256_laws decode-encode 7 100 0 fresh published (6 ∷ [])
      publishes

get_state_keys-IsAgreed_example :
    (addrs : List (List ℕ)) × (get_contract_addresses worker agreed.state ≡ ok addrs)
    × (get_state_keys host server_crates published asks (some 11) (some (replicate 12 9)) empty
        ≡ answered host server_crates empty (
            some (
              answer server_crates.enclave files
                (keys_request host server_crates msg_bytes
                  (8 ∷ replicate 64 0)
                  addrs
                  agreed.state.nonce
                  (some 11)
                  (some (replicate 12 9)))
                opened
                empty)))
unfolding asks-IsWorkers
get_state_keys-IsAgreed_example =
    get_state_keys-IsAgreed host server_crates 7 fresh published agreed uint256_laws refl asks
      opened asks-IsWorkers (some 11) (some (replicate 12 9)) empty

get_state_keys-illegal_state_example :
    ((e : HostError) × ((get_state_keys host server_crates stopped asks none none empty).0 ≡ err e)
      × (handle_error e ≡ illegal_state))
    ↔ IsEarly host server_crates none stopped
get_state_keys-illegal_state_example =
    get_state_keys-illegal_state host server_crates stopped asks none none empty

abbrev served : KeyStore Files
served =
    (get_state_keys host server_crates published asks (some 11) (some (replicate 12 9)) empty).1

abbrev response : StateKeyResponse
response = record { response_data = "hex"; sig = "hex" }

serves :
    get_state_keys host server_crates published asks (some 11) (some (replicate 12 9)) empty
    ≡ (ok response, served)
unfolding get_state_keys enigma_core.Principal.Provider.set_worker_params
    enigma_core.Principal.Server.prepared enigma_core.Principal.Server.arguments epoch_of
    addresses_of enigma_core.Principal.Server.get_data enigma_core.Principal.Server.get_sig
    enigma_core.Principal.Server.find_epoch_contract_addresses get_contract_addresses
    enigma_core.Principal.addresses_for enigma_core.Principal.Provider.find_last_epoch
    enigma_core.Principal.States.last enigma_core.Principal.States.last_where
    enigma_core.StateKeys.Request.open_request enigma_core.StateKeys.Request.check_workers
    enigma_core.Principal.Provider.set_worker_params_internal ◌>>=◌
    enigma_core.Principal.Provider.get_active_workers
    enigma_core.Principal.Provider.set_or_verify_worker_params
    enigma_core.Principal.Provider.ecall_set_worker_params
    enigma_core.Principal.Provider.ecall_result enigma_core.Errors.Codes.from_result
    enigma_core.Epoch.Keeper.set_worker_params enigma_core.Epoch.Keeper.existing_epoch
    enigma_core.Epoch.Keeper.create_epoch enigma_core.Epoch.Cache.max_key enigma_core.Storage.seal
    enigma_core.Storage.save_sealed_document enigma_core.Epoch.Keeper.cache_and_sign
    enigma_core.Epoch.Cache.evict enigma_core.Principal.States.append_unconfirmed
    is_last_unconfirmed enigma_core.Epoch.Cache.insert enigma_core.Epoch.Selection.contains
    enigma_core.Epoch.Selection.draw_worker enigma_core.Epoch.Selection.get_selected_worker
    enigma_core.Epoch.Selection.get_selected_workers enigma_core.Epoch.Selection.pick_worker
    enigma_core.Epoch.Selection.raw_encode enigma_core.Epoch.Selection.rem_u256
    enigma_core.Epoch.Selection.select_loop enigma_core.Epoch.Selection.sum_stakes
    enigma_core.Errors.Codes.into_enclave_return from_be_bytes to_be_bytes
    enigma_core.Principal.Provider.confirm_epoch enigma_core.Principal.Provider.first_block_number
    enigma_core.Principal.Provider.parse_worker_parameterized enigma_core.Principal.Provider.publish
    enigma_core.Principal.Provider.set_workers_params enigma_core.Principal.States.confirm_last
    enigma_core.Principal.States.store_epoch_state enigma_core.Principal.confirm
    enigma_core.Principal.new_state enigma_core.Principal.select_all
    enigma_core.StateKeys.Store.insert enigma_core.StateKeys.Request.get_enc_state_keys
    enigma_core.Messages.from_message enigma_core.Messages.get_pubkey enigma_core.Messages.to_sign
    enigma_core.Epoch.Keeper.get_epoch_worker enigma_core.Epoch.Cache.get
    enigma_core.Epoch.Selection.epoch_get_selected_worker enigma_core.Messages.encrypt_with_nonce
    enigma_core.Messages.into_message enigma_core.Messages.new_id
    enigma_core.Crypto.Symmetric.encrypt_with_nonce enigma_core.StateKeys.Request.answer
    build_response enigma_core.StateKeys.get_state_keys enigma_core.StateKeys.get_state_key
    enigma_core.StateKeys.Store.get enigma_core.Storage.is_document enigma_core.StateKeys.new_addrs
    enigma_core.StateKeys.new_state_keys enigma_core.StateKeys.new_state_key
    enigma_core.StateKeys.respond
serves = refl

get_state_keys-AllSelected_example :
    (e : EpochState) × (r : KeysRequest ℕ) × (o : Opened) × (epoch_of host server_crates none
        published
      ≡ ok e)
    × (addresses_of host server_crates asks none e ≡ ok r.sc_addrs)
    × (r.epoch_nonce ≡ to_be_bytes 32 e.nonce)
    × (get_data host server_crates asks ≡ ok r.msg_bytes)
    × (get_sig host server_crates asks ≡ ok r.sig)
    × (open_request server_crates.enclave files r ≡ ok o)
    × AllSelected server_crates.enclave files o.signer
        (from_be_bytes r.epoch_nonce)
        r.sc_addrs
        published.keeper
get_state_keys-AllSelected_example =
    get_state_keys-AllSelected host server_crates published asks (some 11) (some (replicate 12 9))
      empty served response serves
