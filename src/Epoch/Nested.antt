-- ===== src/Epoch/Nested.antt =====
-- epoch_keeper_t/nested_encoding.rs, and `Epoch::encode_for_hashing` of epoch_t.rs.
pub mod PrefixFree
pub mod Injective
use enigma_core.Prelude.{ℕ, ◌+◌, List, [], ◌∷◌, ◌++◌, length, to_be_bytes}
use enigma_core.Epoch.{Epoch, Uint256}

abbrev pub one : ℕ
one = 1

abbrev pub zero_tag : ℕ
zero_tag = 0

-- `hash_encode` of `U256`.
unfoldable pub hash_encode_u256 : Uint256 → ℕ → List ℕ
hash_encode_u256 u n = let msg = u.to_big_endian n in zero_tag ∷ to_be_bytes 8 (length msg) ++ msg

-- `hash_encode` of `H160`.
unfoldable pub hash_encode_h160 : List ℕ → List ℕ
hash_encode_h160 msg = zero_tag ∷ to_be_bytes 8 (length msg) ++ msg

module _ {ℓ} {A : Type ℓ} (hash_encode : A → List ℕ) where
  -- The loop over the vector, with the length and the bytes so far.
  unfoldable pub encode_values : ℕ → List ℕ → List A → ℕ × List ℕ
  encode_values res_len messages [] = (res_len, messages)
  encode_values res_len messages (value ∷ values) =
      let msg = hash_encode value in encode_values (res_len + length msg) (messages ++ msg) values

  -- `hash_encode` of a vector, over that of its elements.
  unfoldable pub hash_encode_vec : List A → List ℕ
  unfolding encode_values
  hash_encode_vec values =
      let (res_len, messages) = encode_values 0 [] values in one ∷ to_be_bytes 8 res_len ++ messages

-- `Epoch::encode_for_hashing`.
unfoldable pub encode_for_hashing : Uint256 → Epoch → List ℕ
encode_for_hashing u e =
    ((hash_encode_u256 u e.seed ++ hash_encode_u256 u e.nonce)
      ++ hash_encode_vec hash_encode_h160 e.worker_params.workers)
    ++ hash_encode_vec (hash_encode_u256 u) e.worker_params.stakes
