-- ===== src/Task/Errors.antt =====
-- Which errors are the task's own, and where they can come from.
use enigma_core.Prelude.{◌≡◌, refl, subst, Option, none, some, Outcome, ok, err, panic}
use enigma_core.Crypto.Errors.{CryptoError, missing_key_error}
use enigma_core.Errors.{
  EnclaveError, failed_task_error, failed_task_error_with_gas, system_error, EnclaveSystemError,
}
use enigma_core.Errors.Codes.{
  system_code-ne-task_failure, task_failure as task_failure_code, from_result, into_enclave_return,
}
use enigma_core.StateKeys.Request.{from_crypto}
use enigma_core.Worker.{or_missing_key}
use enigma_core.Task.{task_failure}

-- The error of the task itself, and not of the enclave or its host.
abbrev pub IsTaskError : EnclaveError → Type 0
IsTaskError (failed_task_error _) = Unit
IsTaskError (failed_task_error_with_gas _ _) = Unit
IsTaskError (system_error _) = ⊥

pub from_crypto-error :
    {A : Type 0} (o : Outcome CryptoError A) (e : EnclaveError)
    → from_crypto o ≡ err e
    → ¬ IsTaskError e
from_crypto-error (ok a) e h = cc h
from_crypto-error (err x) e h =
    let same : system_error (EnclaveSystemError.crypto_error x) ≡ e = cc h in
    subst (λ y. ¬ IsTaskError y) same (λ z. z)
from_crypto-error panic e h = cc h

pub or_missing_key-error :
    {A : Type 0} (key_type : _) (o : Option A) (e : EnclaveError)
    → or_missing_key key_type o ≡ err e
    → ¬ IsTaskError e
or_missing_key-error {A} key_type none e h =
    from_crypto-error {A = A} (err (missing_key_error key_type)) e h
or_missing_key-error key_type (some a) e h = cc h

pub task_failure-error : (e x : EnclaveError) → task_failure e ≡ err x → ¬ IsTaskError x
task_failure-error (failed_task_error y) x h = cc h
task_failure-error (failed_task_error_with_gas u y) x h = cc h
task_failure-error (system_error y) x h =
    let same : system_error y ≡ x = cc h in subst (λ z. ¬ IsTaskError z) same (λ z. z)

-- Only the errors of tasks have the code `TaskFailure`.
pub from_result-IsTaskError :
    (r : Outcome EnclaveError (Unit {0}))
    → from_result r ≡ ok task_failure_code
    → (x : EnclaveError) × (r ≡ err x) × IsTaskError x
unfolding from_result into_enclave_return
from_result-IsTaskError (ok u) h = cc h
from_result-IsTaskError panic h = cc h
from_result-IsTaskError (err (failed_task_error y)) h = (failed_task_error y, refl, tt)
from_result-IsTaskError (err (failed_task_error_with_gas u y)) h =
    (failed_task_error_with_gas u y, refl, tt)
from_result-IsTaskError (err (system_error y)) h = absurd (system_code-ne-task_failure y (cc h))
