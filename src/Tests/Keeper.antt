-- ===== src/Tests/Keeper.antt =====
-- The epoch keeper at concrete calls: an epoch is created, then recovered after a restart.
use enigma_core.Prelude.{
  ℕ, ◌∙◌, ◌*◌, ◌^◌, sym, subst, ◌≡◌, ◌≢◌, refl, ap, none, some, List, [], ◌∷◌, ◌++◌, arith,
  replicate, ok, from_be_bytes, to_be_bytes, length-to_be_bytes, ◌==◌, if◌then◌else◌,
}
use enigma_core.Exec.{◌>>=◌}
use enigma_core.Storage.{seal, save_sealed_document, unseal, is_document, load_sealed_document}
use enigma_core.Storage.RoundTrip.{zero_log}
use enigma_core.Epoch.{InputWorkerParams, Epoch, IsTyped}
use enigma_core.Epoch.Nested.{
  encode_for_hashing, hash_encode_u256, hash_encode_h160, hash_encode_vec,
}
use enigma_core.Epoch.Cache.{get, insert, max_key, evict}
use enigma_core.Epoch.Cache.Laws.{IsCache}
use enigma_core.Epoch.Selection.Weights.{IsPicked}
use enigma_core.Epoch.Selection.Total.{IsSelectable, draw}
use enigma_core.Epoch.Keeper.{
  Crates, Outputs, Keeper, Request, empty_slice, requested_epoch, epoch_hash, get_epoch_marker,
  marker_doc, set_worker_params, create_epoch, store_epoch, existing_epoch, cache_and_sign,
  get_epoch_worker,
}
use enigma_core.Epoch.Keeper.Fresh.{start, creates, calls, Decreasing, Trace-Decreasing}
use enigma_core.Epoch.Keeper.Restore.{Laws, HasMarker, recover, set_worker_params-recover}
use enigma_core.Epoch.Keeper.Authentic.{set_worker_params-authentic}
use enigma_core.Epoch.Keeper.Workers.{IsRequested, get_epoch_worker-set_worker_params}
use enigma_core.Tests.Crates.{uint256_laws, hashing, sgx, sgx_laws, Files, files, files_laws}

abbrev params : InputWorkerParams
params = record {
  km_block_number = 8;
  workers = replicate 20 1 ∷ replicate 20 2 ∷ [];
  stakes = 4 ∷ 9 ∷ [];
}

abbrev crates : Crates
crates = record {
  hashing = hashing;
  decode = λ b. some params;
  sign = λ m. some (1 ∷ []);
  marker_path = λ n. if n == 0 then "epoch0" else "epoch";
  sgx = sgx;
}

laws : Laws crates files
laws = record {
  uint256 = uint256_laws;
  length-keccak256 = λ b. length-to_be_bytes 32 (from_be_bytes b);
  sgx = sgx_laws;
  files = files_laws;
}

abbrev no_out : Outputs
no_out = record { rand_out = []; nonce_out = []; sig_out = [] }

abbrev no_files : Files
no_files p = none

abbrev fresh : Keeper Files
fresh = record { cache = []; files = no_files; out = no_out }

fresh-IsCache : IsCache []
fresh-IsCache = record { bounded = omega arith; distinct = tt; keyed = tt }

abbrev random : List ℕ
random = 7 ∷ replicate 31 0

abbrev create : Request
create = record {
  worker_params_rlp = [];
  seed_in = empty_slice;
  nonce_in = empty_slice;
  drawn = some random;
}

abbrev created : Keeper Files
created = (set_worker_params crates files create fresh).1

abbrev create_again : Request
create_again = record create { drawn = some (3 ∷ random) }

abbrev no_randomness : Request
no_randomness = record create { drawn = none }

-- The states after a creation, a failure, a recovery and a second creation.
abbrev failed : Keeper Files
failed = (set_worker_params crates files no_randomness created).1

abbrev recovery : Request
recovery = recover crates files laws create created

abbrev recovered : Keeper Files
recovered = (set_worker_params crates files recovery failed).1

abbrev twice_created : Keeper Files
twice_created = (set_worker_params crates files create_again recovered).1

creates_epoch : set_worker_params crates files create fresh ≡ (ok tt, created)
unfolding set_worker_params create_epoch existing_epoch cache_and_sign ◌>>=◌ marker_doc seal
    save_sealed_document evict from_be_bytes store_epoch max_key get_epoch_marker is_document insert
    to_be_bytes load_sealed_document unseal encode_for_hashing hash_encode_u256 hash_encode_vec
    hash_encode_h160
creates_epoch = refl

random_drawn : created.out.rand_out ≢ empty_slice
unfolding set_worker_params create_epoch existing_epoch cache_and_sign ◌>>=◌ marker_doc seal
    save_sealed_document evict from_be_bytes store_epoch max_key get_epoch_marker is_document insert
    to_be_bytes load_sealed_document unseal encode_for_hashing hash_encode_u256 hash_encode_vec
    hash_encode_h160
random_drawn h = cc

recovers : set_worker_params crates files recovery failed ≡ (ok tt, recovered)
unfolding set_worker_params create_epoch existing_epoch cache_and_sign ◌>>=◌ marker_doc seal
    save_sealed_document evict from_be_bytes store_epoch max_key get_epoch_marker is_document insert
    to_be_bytes load_sealed_document unseal encode_for_hashing hash_encode_u256 hash_encode_vec
    hash_encode_h160
recovers = refl

creates_another : set_worker_params crates files create_again recovered ≡ (ok tt, twice_created)
unfolding set_worker_params create_epoch existing_epoch cache_and_sign ◌>>=◌ marker_doc seal
    save_sealed_document evict from_be_bytes store_epoch max_key get_epoch_marker is_document insert
    to_be_bytes load_sealed_document unseal encode_for_hashing hash_encode_u256 hash_encode_vec
    hash_encode_h160
creates_another = refl

nonce_zero : from_be_bytes created.out.nonce_out ≡ 0
unfolding set_worker_params create_epoch existing_epoch cache_and_sign ◌>>=◌ marker_doc seal
    save_sealed_document evict from_be_bytes store_epoch max_key get_epoch_marker is_document insert
    to_be_bytes load_sealed_document unseal encode_for_hashing hash_encode_u256 hash_encode_vec
    hash_encode_h160
nonce_zero = refl

nonce_one : from_be_bytes twice_created.out.nonce_out ≡ 1
unfolding set_worker_params create_epoch existing_epoch cache_and_sign ◌>>=◌ marker_doc seal
    save_sealed_document evict from_be_bytes store_epoch max_key get_epoch_marker is_document insert
    to_be_bytes load_sealed_document unseal encode_for_hashing hash_encode_u256 hash_encode_vec
    hash_encode_h160
nonce_one = refl

Trace-Decreasing_example : Decreasing (1 ∷ 0 ∷ [])
Trace-Decreasing_example = Trace-Decreasing crates files uint256_laws fresh-IsCache (
    creates
      (calls
        (calls (creates start create created 0 creates_epoch refl nonce_zero) no_randomness failed
          refl)
        recovery recovered refl)
      create_again twice_created 1 creates_another refl nonce_one)

set_worker_params-recover_example :
    (e : Epoch) × (t' : Keeper Files) × (from_be_bytes created.out.nonce_out ≡ e.nonce)
    × (get e.nonce created.cache ≡ some e)
    × (set_worker_params crates files recovery (record fresh { files = created.files })
        ≡ (ok tt, t'))
    × (get e.nonce t'.cache ≡ some e)
    × (t'.out.sig_out ≡ created.out.sig_out)
set_worker_params-recover_example =
    set_worker_params-recover crates files laws create fresh created
      (record fresh { files = created.files }) creates_epoch refl random_drawn refl fresh-IsCache

abbrev other_block : Epoch
other_block = record {
  nonce = 0;
  seed = 7 * 256 ^ 31;
  worker_params = record params { km_block_number = 2 };
}

other_block-HasMarker : HasMarker crates files laws other_block failed.files
unfolding set_worker_params create_epoch existing_epoch cache_and_sign ◌>>=◌ marker_doc seal
    save_sealed_document evict from_be_bytes store_epoch max_key get_epoch_marker is_document insert
    to_be_bytes load_sealed_document unseal encode_for_hashing hash_encode_u256 hash_encode_vec
    hash_encode_h160 zero_log
other_block-HasMarker = record {
  found = refl;
  log = (0x1234 ∷ 64 ∷ (marker_doc crates files other_block).content) ++ replicate 1982 0;
  loaded = refl;
  unsealed = refl;
}

other_block-IsTyped :
    (block : ℕ)
    → IsTyped (record other_block { worker_params = record params { km_block_number = block } })
other_block-IsTyped block = record {
  nonce = omega arith;
  seed = omega arith;
  workers = (refl, (refl, tt));
  stakes = (omega arith, (omega arith, tt));
  few_workers = omega arith;
  few_stakes = omega arith;
}

Admits : InputWorkerParams → Type 0
Admits p =
    IsTyped (requested_epoch crates files p recovery)
    × (epoch_hash crates files (requested_epoch crates files p recovery)
          ≡ epoch_hash crates files other_block
        → encode_for_hashing hashing.uint256 (requested_epoch crates files p recovery)
          ≡ encode_for_hashing hashing.uint256 other_block)

requested_params :
    requested_epoch crates files params recovery ≡ record other_block { worker_params = params }
unfolding set_worker_params create_epoch existing_epoch cache_and_sign ◌>>=◌ marker_doc seal
    save_sealed_document evict from_be_bytes store_epoch max_key get_epoch_marker is_document insert
    to_be_bytes load_sealed_document unseal encode_for_hashing hash_encode_u256 hash_encode_vec
    hash_encode_h160
requested_params = refl

same_image :
    encode_for_hashing hashing.uint256 (record other_block { worker_params = params })
    ≡ encode_for_hashing hashing.uint256 other_block
unfolding encode_for_hashing
same_image = refl

params-Admits : Admits params
unfolding Admits encode_for_hashing
params-Admits = (
  subst IsTyped (sym requested_params) (other_block-IsTyped 8),
  λ h. ap (encode_for_hashing hashing.uint256) requested_params ∙ same_image,
)

some_params-Admits :
    (p : InputWorkerParams) → crates.decode recovery.worker_params_rlp ≡ some p → Admits p
some_params-Admits p d = subst Admits (cc d) params-Admits

set_worker_params-authentic_example :
    (x : Epoch) × (get 0 recovered.cache ≡ some x)
    × (x.seed ≡ 7 * 256 ^ 31)
    × (x.nonce ≡ 0)
    × (x.worker_params.workers ≡ params.workers)
    × (x.worker_params.stakes ≡ params.stakes)
unfolding Admits
set_worker_params-authentic_example =
    set_worker_params-authentic crates files laws recovery failed recovered other_block
      other_block-HasMarker (other_block-IsTyped 2) some_params-Admits recovers random_drawn
      nonce_zero

get_epoch_worker-set_worker_params_example :
    (e : Epoch) × IsRequested crates files create fresh created e
    × (get e.nonce created.cache ≡ some e)
    × (some (1 ∷ []) ≡ some created.out.sig_out)
    × ((sc_addr : List ℕ)
        → IsSelectable e.worker_params
        → (i : ℕ) × (w : List ℕ) × (get_epoch_worker crates files sc_addr e.nonce created
            ≡ some (ok w))
          × IsPicked e.worker_params.stakes e.worker_params.workers
              (draw hashing e.worker_params sc_addr e.seed 0)
              i
              w)
get_epoch_worker-set_worker_params_example =
    get_epoch_worker-set_worker_params crates files create fresh created creates_epoch
