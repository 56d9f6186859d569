-- ===== src/Epoch/Cache.antt =====
-- `EPOCH`, the map from nonces to epochs of epoch_keeper_t/mod.rs. A `HashMap` is a list of
-- entries with distinct keys; the code never depends on their order.
pub mod Laws
use enigma_core.Prelude.{
  ℕ, Option, none, some, List, [], ◌∷◌, length, ltb, ◌==◌, if◌then◌else◌, Outcome, ok, panic,
}
use enigma_core.Errors.{EnclaveError}
use enigma_core.Epoch.{Epoch}

abbrev pub EpochMap : Type 0
EpochMap = List (ℕ × Epoch)

unfoldable pub get : ℕ → EpochMap → Option Epoch
get k [] = none
get k ((j, e) ∷ m) = if j == k then some e else get k m

unfoldable pub remove : ℕ → EpochMap → EpochMap
remove k [] = []
remove k ((j, e) ∷ m) = let rest = remove k m in if j == k then rest else (j, e) ∷ rest

unfoldable pub insert : ℕ → Epoch → EpochMap → EpochMap
unfolding remove
insert k e m = (k, e) ∷ remove k m

abbrev pub larger : ℕ → Option ℕ → ℕ
larger k none = k
larger k (some j) = if ltb k j then j else k

-- `keys().max()`
unfoldable pub max_key : EpochMap → Option ℕ
max_key [] = none
max_key ((k, e) ∷ m) = some (larger k (max_key m))

abbrev pub smaller : ℕ → Option ℕ → ℕ
smaller k none = k
smaller k (some j) = if ltb j k then j else k

-- `keys().min()`
unfoldable pub min_key : EpochMap → Option ℕ
min_key [] = none
min_key ((k, e) ∷ m) = some (smaller k (min_key m))

abbrev pub epoch_cap : ℕ
epoch_cap = 2

-- Makes room when the cache is full: drops the entry with the lowest nonce. The `unwrap` of the
-- minimum panics on an empty map.
unfoldable pub evict : EpochMap → Outcome EnclaveError EpochMap
unfolding min_key remove
evict m = elim (min_key m) [
  | none ↦ if length m == epoch_cap then panic else ok m
  | some key ↦ if length m == epoch_cap then ok (remove key m) else ok m
]
