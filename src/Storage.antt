-- ===== src/Storage.antt =====
-- Sealed documents: enigma-tools-t/src/document_storage_t.rs. The file system of the host and the
-- sealing of the SGX SDK are parameters.
pub mod RoundTrip
use Prim.Native.String.{String}
use enigma_core.Prelude.{
  ℕ, Bool, List, ◌++◌, Option, none, some, length, drop, replicate, Outcome, ok, err, panic,
  if◌then◌else◌,
}
use enigma_core.Errors.{EnclaveError, system_error, sgx_error, ocall_error}

abbrev pub seal_log_size : ℕ
seal_log_size = 2048

-- `SealedDocumentStorage<T>` at a type `T` of bytes.
pub record SealedDocumentStorage : Type 0 where
  pub version : ℕ
  pub content : List ℕ

-- What `SgxSealedData::unseal_data` may answer.
pub data Unsealed : Type 0 where
  document : SealedDocumentStorage → Unsealed
  mac_mismatch : Unsealed
  other_status : Unsealed

-- The SDK: `seal_data_ex`, and the casts between sealed data and its raw bytes in a log.
pub record Sgx : Type 0 where
  pub seal_data_ex : SealedDocumentStorage → Option (List ℕ)
  pub to_raw_sealed_data : List ℕ → ℕ → Option (List ℕ)
  pub from_raw_sealed_data : List ℕ → ℕ → Option (List ℕ)
  pub unseal_data : List ℕ → Unsealed

-- The host's files, in states of type `S`. `create` makes an empty file; `write_all` and `read`
-- work on the file at the path; `open_read` opens it and makes one `read` into a buffer of a log's
-- size, with one error for both. `none` is an I/O error.
pub record FileSystem (S : Type 0) : Type 0 where
  pub create : String → S → Option S
  pub write_all : String → List ℕ → S → Option S
  pub is_file : String → S → Bool
  pub open_read : String → S → Option (List ℕ)

module _ (sgx : Sgx) where
  -- The log after `to_sealed_log`, whose result is dropped: if the cast fails the log stays.
  abbrev pub log_after : List ℕ → Option (List ℕ) → List ℕ
  log_after sealed_log_out none = sealed_log_out
  log_after sealed_log_out (some raw) = raw

  unfoldable pub seal : SealedDocumentStorage → List ℕ → Outcome EnclaveError (List ℕ)
  seal doc sealed_log_out = elim (sgx.seal_data_ex doc) [
    | none ↦ err (system_error sgx_error)
    | some sealed ↦ ok (log_after sealed_log_out (sgx.to_raw_sealed_data sealed seal_log_size))
  ]

  abbrev after_unseal : Unsealed → Outcome EnclaveError (Option SealedDocumentStorage)
  after_unseal (document d) = ok (some d)
  after_unseal mac_mismatch = ok none
  after_unseal other_status = err (system_error (ocall_error "unseal"))

  unfoldable pub unseal : List ℕ → Outcome EnclaveError (Option SealedDocumentStorage)
  unseal sealed_log_in = elim (sgx.from_raw_sealed_data sealed_log_in seal_log_size) [
    | none ↦ err (system_error (ocall_error "unseal"))
    | some sealed_data ↦ after_unseal (sgx.unseal_data sealed_data)
  ]

module _ {S : Type 0} (fs : FileSystem S) where
  -- A failed write leaves the file that `create` made.
  abbrev after_create : String → List ℕ → S → Option S → Outcome EnclaveError (Unit {0}) × S
  after_create path doc s none = (err (system_error (ocall_error "save_sealed_document")), s)
  after_create path doc s (some s') = elim (fs.write_all path doc s') [
    | none ↦ (err (system_error (ocall_error "sealed_document")), s')
    | some s'' ↦ (ok tt, s'')
  ]

  unfoldable pub save_sealed_document : String → List ℕ → S → Outcome EnclaveError (Unit {0}) × S
  save_sealed_document path doc s = after_create path doc s (fs.create path s)

  unfoldable pub is_document : String → S → Bool
  is_document path s = fs.is_file path s

  -- The buffer after one `read`: the bytes that came, before what was there.
  unfoldable pub load_sealed_document : String → List ℕ → S → Outcome EnclaveError (List ℕ)
  load_sealed_document path buffer s = elim (fs.open_read path s) [
    | none ↦ err (system_error (ocall_error "load_sealed_document"))
    | some bytes ↦ ok (bytes ++ drop (length bytes) buffer)
  ]
