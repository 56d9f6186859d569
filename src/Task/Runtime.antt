-- ===== src/Task/Runtime.antt =====
-- `Runtime` of enigma-runtime-t/src/lib.rs: what a contract may call while the interpreter runs it.
-- The interpreter, its memory and the JSON crate are parameters; text is its bytes.
pub mod Calls
pub mod Engine
pub mod Limits
pub mod Bounded
pub mod Reported
pub mod Values
use enigma_core.Prelude.{
  ℕ, zero, suc, ◌%◌, ◌^◌, Bool, Option, none, some, List, [], ◌∷◌, length, if◌then◌else◌, Outcome,
  ok, err, panic,
}
use enigma_core.Crypto.Errors.{CryptoError}
use enigma_core.Crypto.Symmetric as Symmetric
use enigma_core.Crypto.Symmetric.{Aead}
use enigma_core.Errors.{EnclaveSystemError, crypto_error, sgx_error}
use enigma_core.Exec.{Run, check, lift, modify, pure, ◌>>=◌}
use enigma_core.ContractState.{ContractState}
use enigma_core.Gas as Gas
use enigma_core.Gas.{RuntimeGas, RuntimeWasmCosts, Charged, calculate_gas_for_writing}
use enigma_core.Task.{EthereumData}

-- `WasmError`: the errors of the interpreter are one, those of the enclave are of its system.
pub data WasmError : Type 0 where
  gas_limit wasmi_error : WasmError
  enclave_error : EnclaveSystemError → WasmError

-- The memory of wasmi; `none` is an access out of bounds. Of serde_json: `value_of` is the value at
-- a key, `Null` where there is none; `write_key` panics, here `none`, where there are no keys.
pub record RuntimeCrates (J M : Type 0) : Type 0 where
  pub get : ℕ → ℕ → M → Option (List ℕ)
  pub set : ℕ → List ℕ → M → Option M
  pub value_of : List ℕ → J → J
  pub is_null : J → Bool
  pub to_vec : J → List ℕ
  pub from_slice : List ℕ → Option J
  pub write_key : List ℕ → J → J → Option J
  pub remove_key : List ℕ → J → J
  pub is_utf8 : List ℕ → Bool
  pub aead : Aead

-- `output` and `bridge` are fields of the result.
pub record Runtime (J M : Type 0) : Type 0 where
  pub memory : M
  pub function_name : List ℕ
  pub args : List ℕ
  pub output : List ℕ
  pub bridge : Option EthereumData
  pub pre_execution_state : ContractState J
  pub post_execution_state : ContractState J
  pub key : List ℕ
  pub gas : RuntimeGas

abbrev pub Handler : Type 0 → Type 0 → Type 0 → Type 0
Handler J M = Run WasmError (Runtime J M)

abbrev pub new_runtime :
    {J M : Type 0}
    → M
    → ℕ
    → List ℕ
    → ContractState J
    → List ℕ
    → List ℕ
    → RuntimeWasmCosts
    → Runtime J M
new_runtime memory limit args state function_name key costs = record {
  memory = memory;
  function_name = function_name;
  args = args;
  output = [];
  bridge = none;
  pre_execution_state = state;
  post_execution_state = state;
  key = key;
  gas = record { counter = 0; limit = limit; refund = 0; costs = costs };
}

-- The functions that the import resolver knows, for their numbers in `eng_resolver::ids`.
pub data HostFunction : Type 0 where
  ret write_state read_state read_state_len eprint name_length name : HostFunction
  fetch_args args_length write_eth_bridge remove_state gas rand encrypt decrypt : HostFunction

abbrev pub or_wasmi : {A : Type 0} → Option A → Outcome WasmError A
or_wasmi none = err wasmi_error
or_wasmi (some a) = ok a

-- `expect`.
abbrev pub expect : {A : Type 0} → Option A → Outcome WasmError A
expect none = panic
expect (some a) = ok a

abbrev pub crypto_result : {A : Type 0} → Outcome CryptoError A → Outcome WasmError A
crypto_result (ok a) = ok a
crypto_result (err e) = err (enclave_error (crypto_error e))
crypto_result panic = panic

-- A failed draw of `rsgx_read_rand`.
abbrev pub or_sgx : {A : Type 0} → Option A → Outcome WasmError A
or_sgx none = err (enclave_error sgx_error)
or_sgx (some a) = ok a

abbrev pub or_gas_limit : {A : Type 0} → Option A → Outcome WasmError A
or_gas_limit none = err gas_limit
or_gas_limit (some a) = ok a

abbrev pub nth : ℕ → List ℕ → Option ℕ
nth i [] = none
nth zero (x ∷ xs) = some x
nth (suc i) (x ∷ xs) = nth i xs

-- The bit pattern of an `i32`.
abbrev pub as_i32 : ℕ → ℕ
as_i32 n = n % 2 ^ 32

module _ {J M : Type 0} where
  abbrev pub nth_checked : ℕ → List ℕ → Handler J M ℕ
  nth_checked i args = lift (or_wasmi (nth i args))

  -- A call that changes the gas.
  unfoldable pub on_gas : {A : Type 0} → (RuntimeGas → Charged A) → Handler J M A
  on_gas call st =
      let (charged, left) = call st.gas in (or_gas_limit charged, record st { gas = left })

  abbrev pub set_json : J → Handler J M (Unit {0})
  set_json json =
      modify (λ st. record st {
        post_execution_state = record (st.post_execution_state) { json = json };
      })
