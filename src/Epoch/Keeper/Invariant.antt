-- ===== src/Epoch/Keeper/Invariant.antt =====
-- The cache invariant holds through every call, successful or not, and the highest cached nonce
-- never falls.
use enigma_core.Prelude.{ℕ, ◌≡◌, Option, none, some, arith, ok}
use enigma_core.Exec.{Keeps, pure-Keeps, keeps_rules, ◌>>=◌}
use enigma_core.Storage.{FileSystem}
use enigma_core.Epoch.{InputWorkerParams, Epoch}
use enigma_core.Epoch.Cache.{EpochMap, evict, insert}
use enigma_core.Epoch.Cache.Laws.{
  IsCache, Reaches, IsRoom, evict-IsRoom, insert-IsCache, insert-Reaches,
}
use enigma_core.Epoch.Keeper.{
  Crates, Keeper, Request, store_epoch, create_epoch, or_create, cache_and_sign, set_worker_params,
}

module _ {S : Type 0} (c : Crates) (fs : FileSystem S) where
  cache-create_epoch :
      (p : InputWorkerParams) (r : Request) (s : Keeper S)
      → (create_epoch c fs p r s).1.cache ≡ s.cache
  unfolding create_epoch store_epoch ◌>>=◌
  cache-create_epoch p r s = ground arith

  cache-cache_and_sign :
      (e : Epoch) (s : Keeper S) (room : EpochMap)
      → evict s.cache ≡ ok room
      → (cache_and_sign c fs e s).1.cache ≡ insert e.nonce e room
  unfolding cache_and_sign ◌>>=◌
  cache-cache_and_sign e s room h = ground arith

  module _ {P : EpochMap → Type 0}
      (keep : (e : Epoch) (m room : EpochMap) → IsRoom m room → P m → P (insert e.nonce e room))
      (valid : (m : EpochMap) → P m → IsCache m) where
    cache_and_sign-Keeps : (e : Epoch) → Keeps (λ s. P s.cache) (cache_and_sign c fs e)
    cache_and_sign-Keeps e = record {
      after = λ s h.
          let (room, r) = evict-IsRoom s.cache (valid s.cache h) in
          rw (cache-cache_and_sign e s room r.evicted) (keep e s.cache room r h);
    }

    create_epoch-Keeps :
        (p : InputWorkerParams) (r : Request) → Keeps (λ s. P s.cache) (create_epoch c fs p r)
    create_epoch-Keeps p r = record { after = λ s h. rw (cache-create_epoch p r s) h }

    or_create-Keeps :
        (p : InputWorkerParams) (r : Request) (o : Option Epoch)
        → Keeps (λ s. P s.cache) (or_create c fs p r o)
    or_create-Keeps p r none = create_epoch-Keeps p r
    or_create-Keeps p r (some e) = pure-Keeps e

    set_worker_params-Keeps : (r : Request) → Keeps (λ s. P s.cache) (set_worker_params c fs r)
    unfolding set_worker_params
    set_worker_params-Keeps r = search (keeps_rules, or_create-Keeps, cache_and_sign-Keeps)

  -- Every call, failed or not, leaves at most two cached epochs, no nonce twice, and each epoch
  -- under its own nonce.
  pub set_worker_params-IsCache :
      (r : Request) (s : Keeper S) → IsCache s.cache → IsCache (set_worker_params c fs r s).1.cache
  set_worker_params-IsCache r s v =
      (set_worker_params-Keeps {P = IsCache} (λ e m room h k. insert-IsCache room e h.small h.valid)
          (λ m h. h) r).after
        s v

  -- No call lowers the highest cached nonce.
  pub set_worker_params-Reaches :
      (k : ℕ) (r : Request) (s : Keeper S)
      → IsCache s.cache
      → Reaches k s.cache
      → Reaches k (set_worker_params c fs r s).1.cache
  set_worker_params-Reaches k r s v h =
      ((set_worker_params-Keeps {P = λ m. IsCache m × Reaches k m}
          (λ e m room h' k'. (
            insert-IsCache room e h'.small h'.valid,
            insert-Reaches m room e k k'.0 h'.evicted k'.1,
          ))
          (λ m h'. h'.0) r).after
        s (v, h)).1
