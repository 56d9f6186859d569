-- ===== src/Errors.antt =====
-- The errors of the enclaves, enigma-tools-t/src/common/errors_t.rs, and the codes in which they
-- leave an enclave, enigma-types/src/types.rs. The texts of the errors are left out, but for the
-- command of a failed ocall.
pub mod Codes
use Prim.Native.String.{String}
use enigma_core.Prelude.{ℕ}
use enigma_core.Crypto.Errors.{CryptoError}

pub data FailedTaskError : Type 0 where
  input_error wasm_module_creation_error wasm_code_execution_error gas_limit_error : FailedTaskError

pub data EnclaveSystemError : Type 0 where
  crypto_error : CryptoError → EnclaveSystemError
  permission_error : EnclaveSystemError
  sgx_error : EnclaveSystemError
  state_error : EnclaveSystemError
  ocall_error : String → EnclaveSystemError
  messaging_error : EnclaveSystemError
  worker_auth_error : EnclaveSystemError
  key_provision_error : EnclaveSystemError

pub data EnclaveError : Type 0 where
  failed_task_error : FailedTaskError → EnclaveError
  failed_task_error_with_gas : ℕ → FailedTaskError → EnclaveError
  system_error : EnclaveSystemError → EnclaveError
