-- ===== src/Task/Signing.antt =====
-- The images of successes and failures.
use enigma_core.Prelude.{ℕ, ◌≡◌, ◌≢◌, refl, ap, List, [], ◌∷◌, ◌++◌, All}
use mathlib.Core.List.{get_last?}
use enigma_core.Prelude.{some}
use enigma_core.Crypto.Hash.{prepare_hash_multiple}
use enigma_core.Crypto.Hash.Framing.{IsShort, prepare_hash_multiple-injective}
use enigma_core.ContractState.{ContractState}
use enigma_core.Task.{
  TaskCrates, RuntimeResult, be_bytes, success_byte, failure_byte, execution_parts,
  deployment_parts, failure_parts,
}

last-append : (xs : List (List ℕ)) (y z w : List ℕ) → get_last? (xs ++ y ∷ z ∷ w ∷ []) ≡ some w
last-append [] y z w = refl
last-append (x ∷ []) y z w = refl
last-append (x ∷ x' ∷ xs) y z w = last-append (x' ∷ xs) y z w

module _ {J P : Type 0} (c : TaskCrates J P) where
  -- The signed image of a failed task is not that of any successful execution or deployment,
  -- whatever the hashes, the gas, the payload and what was known before the failure. Parts are
  -- shorter than 2 ^ 64 bytes.
  pub failure_parts-ne-success :
      (pre_execution_data : List (List ℕ)) (failed_limit used : ℕ)
      (exe_code_hash inputs_hash encrypted_output : List ℕ) (pre : ContractState J)
      (exec_res : RuntimeResult J) (gas_limit : ℕ)
      → All IsShort (failure_parts pre_execution_data failed_limit used)
      → All IsShort
          (execution_parts c exe_code_hash inputs_hash pre exec_res encrypted_output gas_limit)
      → All IsShort (deployment_parts c inputs_hash exec_res gas_limit)
      → (prepare_hash_multiple (failure_parts pre_execution_data failed_limit used)
          ≢ prepare_hash_multiple
              (execution_parts c exe_code_hash inputs_hash pre exec_res encrypted_output gas_limit))
        × (prepare_hash_multiple (failure_parts pre_execution_data failed_limit used)
            ≢ prepare_hash_multiple (deployment_parts c inputs_hash exec_res gas_limit))
  failure_parts-ne-success pre_data failed_limit used exe_code_hash inputs_hash encrypted_output pre
        exec_res gas_limit short short₁ short₂ =
      (
        λ e. apart (prepare_hash_multiple-injective _ _ short short₁ e) refl,
        λ e. apart (prepare_hash_multiple-injective _ _ short short₂ e) refl,
      )
    where
      apart :
          {parts : List (List ℕ)}
          → failure_parts pre_data failed_limit used ≡ parts
          → get_last? parts ≡ some success_byte
          → ⊥
      apart e k = cc (
        last-append pre_data (be_bytes failed_limit) (be_bytes used) failure_byte,
        ap get_last? e,
        k,
      )
