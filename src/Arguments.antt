-- ===== src/Arguments.antt =====
-- The inputs of a task: `decrypt_inputs` of enigma-core/enclave/src/lib.rs over
-- enigma-tools-t/src/build_arguments_g/mod.rs. A text is its bytes in UTF-8.
use enigma_core.Prelude.{
  ℕ, suc, ◌+◌, ◌-◌, Bool, true, false, Option, none, some, List, [], ◌∷◌, take, drop, ltb, ◌==◌,
  if◌then◌else◌, Outcome, ok, err, panic, ◌>>=◌,
}
use enigma_core.Crypto.Symmetric.{Aead, decrypt}
use enigma_core.Errors.{EnclaveError, failed_task_error, input_error}
use enigma_core.StateKeys.Request.{from_crypto}

-- `str::find` of an ASCII character.
unfoldable pub find : ℕ → List ℕ → Option ℕ
find x [] = none
find x (b ∷ bytes) =
    if b == x then some 0 else elim (find x bytes) [ none ↦ none | some n ↦ some (suc n) ]

abbrev illegal : {A : Type 0} → Outcome EnclaveError A
illegal = err (failed_task_error input_error)

-- The slice between the parentheses panics if the first `)` is before the first `(`.
abbrev sliced : List ℕ → Option ℕ → Option ℕ → Outcome EnclaveError (List ℕ × List ℕ)
sliced function none _ = illegal
sliced function (some start) none = illegal
sliced function (some start) (some end) =
    if ltb end (start + 1)
    then panic
    else ok (take (end - (start + 1)) (drop (start + 1) function), take start function)

-- The types of the arguments and the name of the function.
unfoldable pub get_types : List ℕ → Outcome EnclaveError (List ℕ × List ℕ)
get_types function = sliced function (find 40 function) (find 41 function)

-- Empty arguments are not encrypted.
unfoldable pub decrypt_args : Aead → List ℕ → List ℕ → Outcome EnclaveError (List ℕ)
decrypt_args aead [] key = ok []
decrypt_args aead (b ∷ callable_args) key = from_crypto (decrypt aead (b ∷ callable_args) key)

unfoldable pub decrypt_callable : Aead → List ℕ → List ℕ → Outcome EnclaveError (List ℕ)
decrypt_callable aead [] key = illegal
decrypt_callable aead (b ∷ callable) key = from_crypto (decrypt aead (b ∷ callable) key)

abbrev valid_utf8 : Bool → Outcome EnclaveError (Unit {0})
valid_utf8 true = ok tt
valid_utf8 false = illegal

-- Every error is an `InputError`.
abbrev as_input_error : {A : Type 0} → Outcome EnclaveError A → Outcome EnclaveError A
as_input_error (ok a) = ok a
as_input_error (err _) = illegal
as_input_error panic = panic

-- The arguments and the name of the function, with the `map_err` of its callers.
unfoldable pub decrypt_inputs :
    Aead → (List ℕ → Bool) → List ℕ → List ℕ → List ℕ → Outcome EnclaveError (List ℕ × List ℕ)
decrypt_inputs aead is_utf8 callable args inputs_key = as_input_error (do
  decrypted_callable ← decrypt_callable aead callable inputs_key
  decrypted_args ← decrypt_args aead args inputs_key
  _ ← valid_utf8 (is_utf8 decrypted_callable)
  types ← get_types decrypted_callable
  ok (decrypted_args, types.1))
