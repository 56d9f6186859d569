-- ===== src/Epoch/Keeper.antt =====
-- The epoch keeper: epoch_keeper_t/mod.rs. A state holds the cache and the host's files, and the
-- output buffers of the running call. The lock of the cache makes each call one step.
pub mod Steps
pub mod Invariant
pub mod Fresh
pub mod Restore
pub mod Workers
pub mod Authentic
use Prim.Native.String.{String}
use enigma_core.Prelude.{
  ℕ, ◌+◌, ◌^◌, Bool, Option, none, some, List, ◌++◌, ◌≡◌, length, take, drop, replicate, ltb, leb,
  bytes_eq, if◌then◌else◌, Outcome, ok, err, panic,
}
use enigma_core.Crypto.Errors.{signing_error}
use enigma_core.Errors.{EnclaveError, system_error, crypto_error, sgx_error, worker_auth_error}
use enigma_core.Exec.{Exec, pure, lift, check, modify, ◌>>=◌, ◌>>◌}
use enigma_core.Storage.{
  Sgx, FileSystem, SealedDocumentStorage, seal, unseal, save_sealed_document, is_document,
  load_sealed_document,
}
use enigma_core.Storage.RoundTrip.{zero_log}
use enigma_core.Epoch.{InputWorkerParams, Epoch, Uint256}
use enigma_core.Epoch.Nested.{encode_for_hashing}
use enigma_core.Epoch.Cache.{EpochMap, get, insert, max_key, evict}
use enigma_core.Epoch.Selection.{Hashing, epoch_get_selected_worker}

-- What the keeper calls in other crates: hashing, `rlp::decode` (which panics on bad input), the
-- signing key, the path of a marker's file, and sealing.
pub record Crates : Type 0 where
  pub hashing : Hashing
  pub decode : List ℕ → Option InputWorkerParams
  pub sign : List ℕ → Option (List ℕ)
  pub marker_path : ℕ → String
  pub sgx : Sgx

pub record Outputs : Type 0 where
  pub rand_out : List ℕ
  pub nonce_out : List ℕ
  pub sig_out : List ℕ

pub record Keeper (S : Type 0) : Type 0 where
  pub cache : EpochMap
  pub files : S
  pub out : Outputs

-- The arguments of `ecall_set_worker_params_internal`, and what `rsgx_read_rand` would draw (32
-- bytes, or `none` for its failure).
pub record Request : Type 0 where
  pub worker_params_rlp : List ℕ
  pub seed_in : List ℕ
  pub nonce_in : List ℕ
  pub drawn : Option (List ℕ)

abbrev pub auth_error : {A : Type 0} → Outcome EnclaveError A
auth_error = err (system_error worker_auth_error)

abbrev pub empty_slice : List ℕ
empty_slice = replicate 32 0

abbrev pub marker_hash : Option SealedDocumentStorage → Outcome EnclaveError (Option (List ℕ))
marker_hash none = auth_error
marker_hash (some doc) = ok (some (drop 32 doc.content))

abbrev pub next_nonce_after : Option ℕ → Outcome EnclaveError ℕ
next_nonce_after none = ok 0
next_nonce_after (some last) = if ltb (last + 1) (2 ^ 256) then ok (last + 1) else panic

abbrev pub drawn_bytes : Option (List ℕ) → Outcome EnclaveError (List ℕ)
drawn_bytes none = err (system_error sgx_error)
drawn_bytes (some bytes) = ok bytes

abbrev pub signed : Option (List ℕ) → Outcome EnclaveError (List ℕ)
signed none = err (system_error (crypto_error signing_error))
signed (some sig) = ok sig

abbrev pub decoded : Option InputWorkerParams → Outcome EnclaveError InputWorkerParams
decoded none = panic
decoded (some params) = ok params

module _ {S : Type 0} (c : Crates) (fs : FileSystem S) where
  abbrev pub after_load : Outcome EnclaveError (List ℕ) → Outcome EnclaveError (Option (List ℕ))
  after_load (ok log) = elim (unseal c.sgx log) [
    | ok doc ↦ marker_hash doc
    | err e ↦ err e
    | panic ↦ panic
  ]
  after_load (err e) = err e
  after_load panic = panic

  -- The hash in the sealed marker of an epoch, if there is a marker.
  unfoldable pub get_epoch_marker : ℕ → S → Outcome EnclaveError (Option (List ℕ))
  get_epoch_marker nonce files =
      if is_document fs (c.marker_path nonce) files
      then after_load (load_sealed_document fs (c.marker_path nonce) zero_log files)
      else ok none

  unfoldable pub epoch_hash : Epoch → List ℕ
  epoch_hash e = c.hashing.keccak256 (encode_for_hashing c.hashing.uint256 e)

  -- The nonce and the hash of an epoch, 64 bytes.
  unfoldable pub marker_doc : Epoch → SealedDocumentStorage
  unfolding epoch_hash
  marker_doc e = record {
    version = 0x1234;
    content = c.hashing.uint256.to_big_endian e.nonce ++ epoch_hash e;
  }

  abbrev in_files : {A : Type 0} → (S → Outcome EnclaveError A × S) → Exec (Keeper S) A
  in_files f s = let (r, files') = f s.files in (r, record s { files = files' })

  unfoldable pub store_epoch : Epoch → Exec (Keeper S) (Unit {0})
  store_epoch e = do
    sealed_log_in ← lift (seal c.sgx (marker_doc e) zero_log)
    in_files (save_sealed_document fs (c.marker_path e.nonce) sealed_log_in)

  abbrev pub against_marker :
      Epoch → Outcome EnclaveError (Option (List ℕ)) → Outcome EnclaveError (Option Epoch)
  against_marker epoch (ok none) = auth_error
  against_marker epoch (ok (some hash)) =
      if bytes_eq (epoch_hash epoch) hash then ok (some epoch) else auth_error
  against_marker epoch (err e) = err e
  against_marker epoch panic = panic

  abbrev pub requested_epoch : InputWorkerParams → Request → Epoch
  requested_epoch params r = record {
    nonce = c.hashing.uint256.from_big_endian r.nonce_in;
    seed = c.hashing.uint256.from_big_endian r.seed_in;
    worker_params = params;
  }

  -- The epoch that the inputs recover, verified against its marker; `none` if the seed is empty.
  unfoldable pub existing_epoch :
      InputWorkerParams → Request → S → Outcome EnclaveError (Option Epoch)
  existing_epoch params r files =
      if bytes_eq r.seed_in empty_slice
      then ok none
      else let epoch = requested_epoch params r in
        against_marker epoch (get_epoch_marker epoch.nonce files)

  -- The `None` arm: the next nonce, a random seed, the marker.
  unfoldable pub create_epoch : InputWorkerParams → Request → Exec (Keeper S) Epoch
  unfolding store_epoch
  create_epoch params r = do
    nonce ← check (λ s. next_nonce_after (max_key s.cache))
    modify (λ s. record s {
      out = record (s.out) { nonce_out = c.hashing.uint256.to_big_endian nonce };
    })
    rand ← lift (drawn_bytes r.drawn)
    modify (λ s. record s { out = record (s.out) { rand_out = rand } })
    let epoch : Epoch = record {
      nonce = nonce;
      seed = c.hashing.uint256.from_big_endian rand;
      worker_params = params;
    }
    store_epoch epoch
    pure epoch

  abbrev pub or_create : InputWorkerParams → Request → Option Epoch → Exec (Keeper S) Epoch
  or_create params r none = create_epoch params r
  or_create params r (some epoch) = pure epoch

  -- From the choice of the epoch on: room in the cache, the insertion, the signature.
  unfoldable pub cache_and_sign : Epoch → Exec (Keeper S) (Unit {0})
  cache_and_sign epoch = do
    room ← check (λ s. evict s.cache)
    modify (λ s. record s { cache = insert epoch.nonce epoch room })
    sig ← lift (signed (c.sign (encode_for_hashing c.hashing.uint256 epoch)))
    modify (λ s. record s { out = record (s.out) { sig_out = sig } })

  -- `ecall_set_worker_params_internal`.
  unfoldable pub set_worker_params : Request → Exec (Keeper S) (Unit {0})
  set_worker_params r = do
    params ← lift (decoded (c.decode r.worker_params_rlp))
    existing ← check (λ s. existing_epoch params r s.files)
    epoch ← or_create params r existing
    cache_and_sign epoch

  unfoldable pub get_epoch_from_cache : EpochMap → ℕ → Outcome EnclaveError Epoch
  get_epoch_from_cache m nonce = elim (get nonce m) [ some epoch ↦ ok epoch | none ↦ auth_error ]

  abbrev selected_for : List ℕ → Outcome EnclaveError Epoch → Option (Outcome EnclaveError (List ℕ))
  selected_for sc_addr (ok epoch) = epoch_get_selected_worker c.hashing epoch sc_addr
  selected_for sc_addr (err e) = some (err e)
  selected_for sc_addr panic = some panic

  -- `ecall_get_epoch_worker_internal`.
  unfoldable pub get_epoch_worker : List ℕ → ℕ → Keeper S → Option (Outcome EnclaveError (List ℕ))
  unfolding get_epoch_from_cache
  get_epoch_worker sc_addr nonce s = selected_for sc_addr (get_epoch_from_cache s.cache nonce)
