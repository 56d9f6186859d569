-- ===== src/Listener.antt =====
-- The requests to the worker's host: enigma-core/app/src/networking, messages.rs and
-- ipc_listener.rs, with the calls of the enclave in km_u.rs and wasm_u.
pub mod Enclave
pub mod Queries
pub mod Updates
pub mod Tasks
pub mod Dispatch
use Prim.Native.String.{String}
use enigma_core.Prelude.{ℕ, Bool, Option, none, some, List, [], ◌∷◌, Outcome, ok, err, panic, ◌>>=◌}
use enigma_core.Errors.Codes.{EnclaveReturn}
use enigma_core.Exec.{Run, check, lift}
use enigma_core.Database.{DbError, db_err, rocks_error, hex_error, Hex}
use enigma_core.Database.Key.{Stype, delta, state, byte_code, DeltaKey, hash_from_hex, unwrap_delta}

-- `i64`.
pub data ℤ : Type 0 where
  pos negsuc : ℕ → ℤ

pub data Status : Type 0 where
  failed passed : Status

pub record IpcDelta : Type 0 where
  pub contract_address : Option String
  pub key : ℕ
  pub bytes : Option (List ℕ)

pub record IpcDeltasRange : Type 0 where
  pub address : String
  pub from : ℕ
  pub to : ℕ

pub record IpcStatusResult : Type 0 where
  pub address : String
  pub key : Option ℤ
  pub status : Status

pub record IpcTask : Type 0 where
  pub pre_code : Option (List ℕ)
  pub encrypted_args : String
  pub encrypted_fn : String
  pub user_dhkey : String
  pub gas_limit : ℕ
  pub address : String

pub record TaskOutput : Type 0 where
  pub used_gas : ℕ
  pub output : String
  pub delta : IpcDelta
  pub ethereum_address : String
  pub ethereum_payload : String
  pub signature : String

pub data IpcResults : Type 0 where
  errors : List IpcStatusResult → IpcResults
  request : String → String → IpcResults
  addresses : List String → IpcResults
  one_delta : String → IpcResults
  deltas : List IpcDelta → IpcResults
  contract : String → List ℕ → IpcResults
  one_status : Status → IpcResults
  tips : List IpcDelta → IpcResults
  deltas_result : Status → List IpcStatusResult → IpcResults
  dh_key : String → String → IpcResults
  registration_params : String → String → String → IpcResults
  compute_result : TaskOutput → IpcResults
  deploy_result : String → TaskOutput → IpcResults
  failed_task : String → ℕ → String → IpcResults

-- The errors of the handlers, whose texts go into the response.
pub data ListenerError : Type 0 where
  database_error : DbError → ListenerError
  p2p_err : String → String → ListenerError
  enclave_fail : EnclaveReturn → Bool → ListenerError
  bail_error json_error quote_error : ListenerError

pub data IpcResponse : Type 0 where
  get_registration_params_response get_tips_response get_all_tips_response :
      IpcResults → IpcResponse
  get_all_addrs_response get_delta_response get_deltas_response : IpcResults → IpcResponse
  get_contract_response update_deltas_response remove_deltas_response : IpcResults → IpcResponse
  new_task_encryption_key_response deploy_secret_contract_response : IpcResults → IpcResponse
  compute_task_response failed_task_response get_ptt_request_response : IpcResults → IpcResponse
  ptt_response_response : IpcResults → IpcResponse
  get_tip_response : IpcDelta → IpcResponse
  update_new_contract_response update_new_contract_on_deployment_response :
      String → IpcResults → IpcResponse
  remove_contract_response : String → IpcResults → IpcResponse
  error_response : ListenerError → IpcResponse

pub data IpcRequest : Type 0 where
  get_registration_params get_all_tips get_all_addrs get_ptt_request : IpcRequest
  get_tip get_contract : String → IpcRequest
  get_tips : List String → IpcRequest
  get_delta : IpcDelta → IpcRequest
  get_deltas remove_deltas : List IpcDeltasRange → IpcRequest
  update_new_contract : String → List ℕ → IpcRequest
  update_new_contract_on_deployment : String → String → IpcDelta → IpcRequest
  remove_contract new_task_encryption_key : String → IpcRequest
  update_deltas : List IpcDelta → IpcRequest
  deploy_secret_contract compute_task : IpcTask → IpcRequest
  ptt_response : String → IpcRequest

-- `IpcMessageRequest` and `IpcMessageResponse`.
pub record Message (A : Type 0) : Type 0 where
  pub id : String
  pub body : A

-- The handle of the database, with its flag, and the enclave.
pub record Worker (S D : Type 0) : Type 0 where
  pub database : D
  pub state_updated : Bool
  pub enclave : S

abbrev pub Handler : Type 0 → Type 0 → Type 0 → Type 0
Handler S D = Run ListenerError (Worker S D)

-- The `?` of a result of the database.
abbrev pub or_database : {A : Type 0} → Outcome DbError A → Outcome ListenerError A
or_database (ok a) = ok a
or_database (err e) = err (database_error e)
or_database panic = panic

abbrev pub or_hex_error : {A : Type 0} → Option A → Outcome ListenerError A
or_hex_error none = err (database_error hex_error)
or_hex_error (some a) = ok a

abbrev pub or_p2p : {A : Type 0} → String → String → Option A → Outcome ListenerError A
or_p2p cmd msg none = err (p2p_err cmd msg)
or_p2p cmd msg (some a) = ok a

-- `unwrap` or `expect` of an optional value.
abbrev pub expected : {A : Type 0} → Option A → Outcome ListenerError A
expected none = panic
expected (some a) = ok a

abbrev pub contract_address_from_hex : Hex → String → Outcome ListenerError (List ℕ)
contract_address_from_hex h s = or_database (hash_from_hex h s)

-- What an operation on the database answers, error or not, and its effect; a panic goes on.
abbrev pub answered : {S D A : Type 0} → (D → A × D) → Handler S D A
answered action st =
    let (answer, db) = action st.database in (ok answer, record st { database = db })

abbrev pub on_database : {S D A : Type 0} → (D → Outcome DbError A × D) → Handler S D A
on_database action st =
    let (outcome, db) = action st.database in (or_database outcome, record st { database = db })

unfoldable pub from_delta_key : Hex → DeltaKey → List ℕ → Outcome ListenerError IpcDelta
from_delta_key h k v = elim k.key_type [
  | delta index ↦ ok (record {
    contract_address = some (h.to_hex k.contract_address);
    key = index;
    bytes = some v;
  })
  | state ↦ err bail_error
  | byte_code ↦ err bail_error
]

-- `IpcDelta::from` of a delta: empty data is left out.
abbrev pub or_empty : List ℕ → Option (List ℕ)
or_empty [] = none
or_empty (b ∷ bytes) = some (b ∷ bytes)

unfoldable pub from_delta : DeltaKey → List ℕ → Outcome ListenerError IpcDelta
from_delta k value = do
  index ← or_database (unwrap_delta k.key_type)
  ok (record { contract_address = none; key = index; bytes = or_empty value })

-- `update_state_status`.
abbrev pub update_state_status : {S D : Type 0} → Bool → Handler S D (Unit {0})
update_state_status updated st = (ok tt, record st { state_updated = updated })

-- `is_db_err_type`: an error of the database's own is a missing key, which counts as deleted.
unfoldable pub deleted_status : Outcome DbError (Unit {0}) → Outcome ListenerError Status
deleted_status (ok u) = ok passed
deleted_status (err (db_err command kind)) = ok passed
deleted_status (err _) = ok failed
deleted_status panic = panic
