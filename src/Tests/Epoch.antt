-- ===== src/Tests/Epoch.antt =====
-- The images and the worker selection of epochs at concrete inputs; the images are those that
-- nested_encoding.rs tests.
use enigma_core.Prelude.{
  ℕ, ◌≡◌, ◌↔◌, refl, List, [], ◌∷◌, arith, replicate, to_be_bytes, from_be_bytes,
}
use enigma_core.Epoch.{InputWorkerParams, Epoch, IsTyped}
use enigma_core.Epoch.Nested.{encode_for_hashing}
use enigma_core.Epoch.Nested.Injective.{encode_for_hashing_iff}
use enigma_core.Epoch.Selection.{raw_encode}
use enigma_core.Epoch.Selection.Total.{draw}
use enigma_core.Tests.Crates.{uint256, uint256_laws, hashing}

-- Two epochs that differ in their block number.
abbrev worker : ℕ → List ℕ
worker n = replicate 20 n

abbrev params : ℕ → List ℕ → InputWorkerParams
params block stakes = record {
  km_block_number = block;
  workers = worker 1 ∷ worker 2 ∷ [];
  stakes = stakes;
}

abbrev epoch : ℕ → List ℕ → Epoch
epoch block stakes = record { nonce = 3; seed = 7; worker_params = params block stakes }

epoch-IsTyped : (block : ℕ) → IsTyped (epoch block (4 ∷ 9 ∷ []))
epoch-IsTyped block = record {
  nonce = omega arith;
  seed = omega arith;
  workers = (refl, (refl, tt));
  stakes = (omega arith, (omega arith, tt));
  few_workers = omega arith;
  few_stakes = omega arith;
}

encode_for_hashing_iff_example :
    (encode_for_hashing uint256 (epoch 10 (4 ∷ 9 ∷ []))
      ≡ encode_for_hashing uint256 (epoch 11 (4 ∷ 9 ∷ [])))
    ↔ ((◌≡◌ {A = ℕ} 7 7)
        × (◌≡◌ {A = ℕ} 3 3)
        × (◌≡◌ {A = List (List ℕ)} (worker 1 ∷ worker 2 ∷ []) (worker 1 ∷ worker 2 ∷ []))
        × (◌≡◌ {A = List ℕ} (4 ∷ 9 ∷ []) (4 ∷ 9 ∷ [])))
encode_for_hashing_iff_example =
    encode_for_hashing_iff uint256_laws (epoch 10 (4 ∷ 9 ∷ [])) (epoch 11 (4 ∷ 9 ∷ []))
      (epoch-IsTyped 10) (epoch-IsTyped 11)

-- The toy hash draws the last byte of the encoded tokens' sum.
abbrev sc_addr : List ℕ
sc_addr = 5 ∷ []

drawn : draw hashing (params 1 (4 ∷ 9 ∷ [])) sc_addr 7 0 ≡ 12
unfolding raw_encode from_be_bytes to_be_bytes
drawn = refl
