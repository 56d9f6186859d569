-- ===== src/Errors/Codes.antt =====
-- `EnclaveReturn` of enigma-types/src/types.rs, and the conversions of errors and results into it
-- (`Into<EnclaveReturn>` of errors_t.rs, `From<Result>` of types.rs).
use enigma_core.Prelude.{Bool, true, false, ◌≡◌, ◌↔◌, refl, Outcome, ok, err, arith}
use enigma_core.Crypto.Errors.{CryptoError}
use enigma_core.Errors.{EnclaveError, EnclaveSystemError}

pub data EnclaveReturn : Type 0 where
  success task_failure keys_error encryption_error signing_error recovering_error : EnclaveReturn
  permission_error sgx_error state_error ocall_error ocall_db_error messaging_error : EnclaveReturn
  worker_auth_error key_provision_error other : EnclaveReturn

abbrev pub is_success : EnclaveReturn → Bool
is_success EnclaveReturn.success = true
is_success _ = false

crypto_code : CryptoError → EnclaveReturn
crypto_code CryptoError.random_error = EnclaveReturn.sgx_error
crypto_code CryptoError.deriving_key_error = EnclaveReturn.keys_error
crypto_code (CryptoError.key_error _) = EnclaveReturn.keys_error
crypto_code (CryptoError.missing_key_error _) = EnclaveReturn.keys_error
crypto_code CryptoError.decryption_error = EnclaveReturn.encryption_error
crypto_code CryptoError.encryption_error = EnclaveReturn.encryption_error
crypto_code CryptoError.signing_error = EnclaveReturn.encryption_error
crypto_code CryptoError.improper_encryption = EnclaveReturn.encryption_error
crypto_code CryptoError.parsing_error = EnclaveReturn.encryption_error
crypto_code CryptoError.recovery_error = EnclaveReturn.encryption_error

system_code : EnclaveSystemError → EnclaveReturn
unfolding crypto_code
system_code EnclaveSystemError.permission_error = EnclaveReturn.permission_error
system_code EnclaveSystemError.sgx_error = EnclaveReturn.sgx_error
system_code EnclaveSystemError.state_error = EnclaveReturn.state_error
system_code (EnclaveSystemError.ocall_error _) = EnclaveReturn.ocall_error
system_code EnclaveSystemError.messaging_error = EnclaveReturn.messaging_error
system_code (EnclaveSystemError.crypto_error e) = crypto_code e
system_code EnclaveSystemError.worker_auth_error = EnclaveReturn.worker_auth_error
system_code EnclaveSystemError.key_provision_error = EnclaveReturn.key_provision_error

unfoldable pub into_enclave_return : EnclaveError → EnclaveReturn
unfolding system_code
into_enclave_return (EnclaveError.failed_task_error _) = EnclaveReturn.task_failure
into_enclave_return (EnclaveError.failed_task_error_with_gas _ _) = EnclaveReturn.task_failure
into_enclave_return (EnclaveError.system_error e) = system_code e

-- `From<Result<(), T>> for EnclaveReturn`; a panic leaves the enclave with no code.
unfoldable pub from_result : Outcome EnclaveError (Unit {0}) → Outcome EnclaveError EnclaveReturn
unfolding into_enclave_return
from_result (ok tt) = ok EnclaveReturn.success
from_result (err e) = ok (into_enclave_return e)
from_result Outcome.panic = Outcome.panic

crypto_code-ne-success : (e : CryptoError) → ¬ (crypto_code e ≡ EnclaveReturn.success)
unfolding crypto_code
crypto_code-ne-success e = ground arith

system_code-ne-success : (e : EnclaveSystemError) → ¬ (system_code e ≡ EnclaveReturn.success)
unfolding system_code
system_code-ne-success (EnclaveSystemError.crypto_error e) = crypto_code-ne-success e
system_code-ne-success _ = λ h. cc

pub system_code-ne-task_failure :
    (e : EnclaveSystemError)
    → ¬ (into_enclave_return (EnclaveError.system_error e) ≡ EnclaveReturn.task_failure)
unfolding into_enclave_return system_code crypto_code
system_code-ne-task_failure e = ground arith

-- The code that a call leaves is `Success` exactly if the call succeeded: no error is lost.
pub from_result-success_iff :
    (r : Outcome EnclaveError (Unit {0})) → (from_result r ≡ ok EnclaveReturn.success) ↔ (r ≡ ok tt)
unfolding from_result
from_result-success_iff (ok tt) = (λ h. refl, λ h. refl)
from_result-success_iff (err (EnclaveError.system_error e)) =
    (λ h. absurd (system_code-ne-success e (cc h)), λ h. cc)
from_result-success_iff _ = (λ h. cc, λ h. cc)
