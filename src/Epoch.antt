-- ===== src/Epoch.antt =====
-- The epochs of the key-management node: enigma-principal/enclave/src/epoch_keeper_t and
-- enigma-tools-m/src/keeper_types.rs. `U256` is a number, `H160` and `Hash256` are byte lists.
pub mod Nested
pub mod Selection
pub mod Cache
pub mod Keeper
use enigma_core.Prelude.{ℕ, ◌^◌, ◌*◌, ◌<◌, ◌≡◌, List, All, length}

-- A block number, the workers' addresses and their stakes.
pub record InputWorkerParams : Type 0 where
  pub km_block_number : ℕ
  pub workers : List (List ℕ)
  pub stakes : List ℕ

pub record Epoch : Type 0 where
  pub nonce : ℕ
  pub seed : ℕ
  pub worker_params : InputWorkerParams

-- The conversions of `ethereum_types::U256` to and from 32 bytes.
pub record Uint256 : Type 0 where
  pub to_big_endian : ℕ → List ℕ
  pub from_big_endian : List ℕ → ℕ

abbrev pub IsU256 : ℕ → Type 0
IsU256 n = n < 2 ^ 256

-- What the crate documents of them.
pub record Uint256Laws (u : Uint256) : Type 0 where
  pub length-to_big_endian : (n : ℕ) → length (u.to_big_endian n) ≡ 32
  pub from-to : (n : ℕ) → IsU256 n → u.from_big_endian (u.to_big_endian n) ≡ n

abbrev pub IsH160 : List ℕ → Type 0
IsH160 a = length a ≡ 20

-- What the types of the fields say, and that the lists are no longer than memory allows.
pub record IsTyped (e : Epoch) : Type 0 where
  pub nonce : IsU256 e.nonce
  pub seed : IsU256 e.seed
  pub workers : All IsH160 e.worker_params.workers
  pub stakes : All IsU256 e.worker_params.stakes
  pub few_workers : length e.worker_params.workers * 29 < 256 ^ 8
  pub few_stakes : length e.worker_params.stakes * 41 < 256 ^ 8
