-- ===== src/Principal/Server.antt =====
-- `PrincipalHttpServer` of boot_network/keys_provider_http.rs, with the call into the enclave of
-- esgx/keys_keeper_u.rs. The conversions of hexadecimal and decimal strings are parameters.
pub mod Serving
pub mod Refusing
pub mod Transition
pub mod Waiting
use Prim.Native.String.{String}
use enigma_core.Prelude.{
  ℕ, Bool, false, Option, none, some, List, [], ◌∷◌, length, bytes_eq, ◌==◌, if◌then◌else◌, Outcome,
  ok, err, panic, ◌>>=◌,
}
use enigma_core.Crypto.Errors.{CryptoError}
use enigma_core.Errors.{EnclaveError}
use enigma_core.Errors.Codes.{EnclaveReturn, into_enclave_return}
use enigma_core.Messages.{ToolsError, PrincipalMessage, to_sign, from_message}
use enigma_core.StateKeys.{KeyStore}
use enigma_core.StateKeys.Request as Enclave
use enigma_core.Principal.{
  HostError, enclave_fail, enclave_crash, epoch_state_transition, request_value, other_error,
  EpochState, get_contract_addresses,
}
use enigma_core.Principal.Provider.{Host, Node, find_epoch, find_last_epoch}

pub record StateKeyRequest : Type 0 where
  pub request_data : String
  pub sig : String
  pub block_number : Option String
  pub addresses : Option (List String)

pub record StateKeyResponse : Type 0 where
  pub response_data : String
  pub sig : String

-- `FromHex`, `ToHex`, `U256::from_dec_str`, the length of a string in bytes, and the enclave's
-- crates, some of which the host uses too.
pub record ServerCrates (K : Type 0) : Type 0 where
  pub from_hex : String → Option (List ℕ)
  pub to_hex : List ℕ → String
  pub from_dec_str : String → Option ℕ
  pub len : String → ℕ
  pub enclave : Enclave.RequestCrates K

abbrev pub or_other : {A : Type 0} → Option A → Outcome HostError A
or_other none = err other_error
or_other (some a) = ok a

-- The conversions of `?` from the errors of the messages and of the keys.
abbrev pub other_from : {E A : Type 0} → Outcome E A → Outcome HostError A
other_from (ok a) = ok a
other_from (err _) = err other_error
other_from panic = panic

abbrev pub sized_sig : List ℕ → Outcome HostError (List ℕ)
sized_sig bytes = if length bytes == 65 then ok bytes else err request_value

abbrev pub or_request_value : Option ℕ → Outcome HostError ℕ
or_request_value none = err request_value
or_request_value (some n) = ok n

-- What the host makes of the enclave's answer: any code but `Success` is an error.
abbrev pub ecall_answer : {A : Type 0} → Outcome EnclaveError A → Outcome HostError A
ecall_answer (ok a) = ok a
ecall_answer (err e) = err (enclave_fail (into_enclave_return e))
ecall_answer panic = err enclave_crash

-- The codes of the JSON-RPC errors.
pub data ErrorCode : Type 0 where
  worker_not_authorized illegal_state internal_error : ErrorCode

unfoldable pub handle_error : HostError → ErrorCode
handle_error (enclave_fail EnclaveReturn.worker_auth_error) = worker_not_authorized
handle_error (enclave_fail _) = internal_error
handle_error epoch_state_transition = illegal_state
handle_error _ = internal_error

abbrev same_address : List ℕ → Option (List ℕ) → Bool
same_address contract none = false
same_address contract (some enclave) = bytes_eq contract enclave

-- The signing address on Ethereum against the enclave's.
unfoldable pub health_check : Option (List ℕ) → Option (List ℕ) → Bool
health_check none enclave_signing_address = false
health_check (some contract) enclave_signing_address = same_address contract enclave_signing_address

module _ {K S F Eth : Type 0} (h : Host S F Eth) (c : ServerCrates K) where
  unfoldable pub get_data : StateKeyRequest → Outcome HostError (List ℕ)
  get_data request = or_other (c.from_hex request.request_data)

  unfoldable pub get_sig : StateKeyRequest → Outcome HostError (List ℕ)
  get_sig request = do bytes ← or_other (c.from_hex request.sig); sized_sig bytes

  -- `Hash256::from_hex`.
  abbrev pub address_from_hex : String → Outcome HostError (List ℕ)
  address_from_hex item = if c.len item == 64 then or_other (c.from_hex item) else err other_error

  unfoldable pub addresses_from_hex : List String → Outcome HostError (List (List ℕ))
  addresses_from_hex [] = ok []
  addresses_from_hex (item ∷ items) = do
    addr ← address_from_hex item
    addrs ← addresses_from_hex items
    ok (addr ∷ addrs)

  unfoldable pub find_epoch_contract_addresses :
      StateKeyRequest → PrincipalMessage → EpochState → Outcome HostError (List (List ℕ))
  find_epoch_contract_addresses request msg epoch_state = do
    image ← other_from (to_sign msg)
    sig ← get_sig request
    key ← other_from (c.enclave.recover image sig)
    get_contract_addresses (c.enclave.address key) epoch_state

  -- The epoch that a request is about.
  unfoldable pub epoch_of : Option String → Node S F Eth → Outcome HostError EpochState
  epoch_of none n = find_last_epoch h n
  epoch_of (some block_number) n = do
    b ← or_request_value (c.from_dec_str block_number)
    find_epoch h b n

  -- The contracts that it is about.
  unfoldable pub addresses_of :
      StateKeyRequest → Option (List String) → EpochState → Outcome HostError (List (List ℕ))
  addresses_of request (some items) epoch_state = addresses_from_hex items
  addresses_of request none epoch_state = do
    bytes ← get_data request
    msg ← other_from (from_message c.enclave.formats bytes)
    find_epoch_contract_addresses request msg epoch_state

  abbrev pub hex_response : Outcome HostError (List ℕ × List ℕ) → Outcome HostError StateKeyResponse
  hex_response (ok (response, sig_out)) =
      ok (record { response_data = c.to_hex response; sig = c.to_hex sig_out })
  hex_response (err e) = err e
  hex_response panic = panic

  -- The fuel of the enclave's selection suffices: a call without an answer would be a crash.
  abbrev pub answered :
      KeyStore F
      → Option (Outcome EnclaveError (List ℕ × List ℕ) × KeyStore F)
      → Outcome HostError StateKeyResponse × KeyStore F
  answered store none = (err enclave_crash, store)
  answered store (some (outcome, store')) = (hex_response (ecall_answer outcome), store')

  -- The arguments of the ecall, with what the enclave will draw.
  abbrev pub keys_request :
      List ℕ → List ℕ → List (List ℕ) → ℕ → Option K → Option (List ℕ) → Enclave.KeysRequest K
  keys_request msg_bytes sig addrs nonce new_pair iv = record {
    msg_bytes = msg_bytes;
    sc_addrs = addrs;
    sig = sig;
    epoch_nonce = h.enclave.hashing.uint256.to_big_endian nonce;
    new_pair = new_pair;
    iv = iv;
  }

  -- What the call needs of the request, and then the call.
  abbrev pub call_with :
      Node S F Eth
      → KeyStore F
      → Outcome HostError (Enclave.KeysRequest K)
      → Outcome HostError StateKeyResponse × KeyStore F
  call_with n store (ok r) =
      answered store (Enclave.get_enc_state_keys c.enclave h.enclave_files n.keeper r store)
  call_with n store (err e) = (err e, store)
  call_with n store panic = (panic, store)

  -- `get_enc_state_keys` of the host.
  unfoldable pub arguments :
      StateKeyRequest
      → ℕ
      → List (List ℕ)
      → Option K
      → Option (List ℕ)
      → Outcome HostError (Enclave.KeysRequest K)
  arguments request nonce addrs new_pair iv = do
    msg_bytes ← get_data request
    sig ← get_sig request
    ok (keys_request msg_bytes sig addrs nonce new_pair iv)

  unfoldable pub prepared :
      Node S F Eth
      → StateKeyRequest
      → Option K
      → Option (List ℕ)
      → Outcome HostError (Enclave.KeysRequest K)
  prepared n request new_pair iv = do
    epoch_state ← epoch_of request.block_number n
    addrs ← addresses_of request request.addresses epoch_state
    arguments request epoch_state.nonce addrs new_pair iv

  -- `PrincipalHttpServer::get_state_keys`.
  unfoldable pub get_state_keys :
      Node S F Eth
      → StateKeyRequest
      → Option K
      → Option (List ℕ)
      → KeyStore F
      → Outcome HostError StateKeyResponse × KeyStore F
  get_state_keys n request new_pair iv store = call_with n store (prepared n request new_pair iv)
