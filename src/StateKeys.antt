-- ===== src/StateKeys.antt =====
-- The state keys of contracts: enigma-principal/enclave/src/keys_keeper_t/mod.rs. A `HashMap` is a
-- list of entries with distinct keys. The lock of the cache makes each call one step.
pub mod Store
pub mod Provision
pub mod Known
pub mod Answers
pub mod Invariant
pub mod Restart
pub mod Request
pub mod Authorized
pub mod Delivered
use Prim.Native.String.{String}
use enigma_core.Prelude.{
  ℕ, suc, ◌+◌, Bool, Option, none, some, List, [], ◌∷◌, length, ◌==◌, if◌then◌else◌, Outcome, ok,
  err, panic,
}
use enigma_core.Errors.{EnclaveError, system_error, sgx_error, key_provision_error}
use enigma_core.Exec.{Exec, pure, lift, check, modify, ◌>>=◌, ◌>>◌}
use enigma_core.Storage.{
  Sgx, FileSystem, SealedDocumentStorage, seal, unseal, save_sealed_document, is_document,
  load_sealed_document,
}
use enigma_core.Storage.RoundTrip.{zero_log}
use enigma_core.StateKeys.Store.{KeyMap, get, insert}

-- The path of a contract's document, sealing, and the successive results of `rsgx_read_rand` (32
-- bytes, or `none` for its failure).
pub record KeyCrates : Type 0 where
  pub document_path : List ℕ → String
  pub sgx : Sgx
  pub draws : ℕ → Option (List ℕ)

-- The cache, the host's files, and the number of draws so far.
pub record KeyStore (S : Type 0) : Type 0 where
  pub keys : KeyMap
  pub files : S
  pub drawn : ℕ

abbrev pub key_doc : List ℕ → SealedDocumentStorage
key_doc key = record { version = 0x1234; content = key }

abbrev pub random_key : Option (List ℕ) → Outcome EnclaveError (List ℕ)
random_key none = err (system_error sgx_error)
random_key (some key) = ok key

-- The addresses whose key is missing; `sc_addrs[i]` panics past the end.
unfoldable pub new_addrs :
    List (List ℕ) → List (Option (List ℕ)) → Outcome EnclaveError (List (List ℕ))
new_addrs sc_addrs [] = ok []
new_addrs [] (some _ ∷ keys) = new_addrs [] keys
new_addrs [] (none ∷ keys) = panic
new_addrs (addr ∷ addrs) (some _ ∷ keys) = new_addrs addrs keys
new_addrs (addr ∷ addrs) (none ∷ keys) = elim (new_addrs addrs keys) [
  | ok rest ↦ ok (addr ∷ rest)
  | err e ↦ err e
  | panic ↦ panic
]

-- The last loop: each address with its cached key.
unfoldable pub respond : KeyMap → List (List ℕ) → Outcome EnclaveError (List (List ℕ × List ℕ))
respond m [] = ok []
respond m (addr ∷ addrs) = elim (get addr m) [
  | none ↦ err (system_error key_provision_error)
  | some key ↦ elim (respond m addrs) [
    | ok rest ↦ ok ((addr, key) ∷ rest)
    | err e ↦ err e
    | panic ↦ panic
  ]
]

module _ {S : Type 0} (c : KeyCrates) (fs : FileSystem S) where
  -- The arms of the match on the unsealed document.
  abbrev pub cache_unsealed :
      List ℕ → Option SealedDocumentStorage → Exec (KeyStore S) (Option (List ℕ))
  cache_unsealed addr none = pure none
  cache_unsealed addr (some doc) = do
    modify (λ s. record s { keys = insert addr doc.content s.keys })
    pure (some doc.content)

  -- A key that is not cached.
  unfoldable pub unseal_key : List ℕ → Exec (KeyStore S) (Option (List ℕ))
  unseal_key addr = do
    log ← check (λ s. load_sealed_document fs (c.document_path addr) zero_log s.files)
    doc ← lift (unseal c.sgx log)
    cache_unsealed addr doc

  unfoldable pub get_state_key : List ℕ → Exec (KeyStore S) (Option (List ℕ))
  unfolding unseal_key
  get_state_key addr s = elim (get addr s.keys) [
    | some key ↦ (ok (some key), s)
    | none ↦
        if is_document fs (c.document_path addr) s.files then unseal_key addr s else (ok none, s)
  ]

  unfoldable pub get_state_keys : List (List ℕ) → Exec (KeyStore S) (List (Option (List ℕ)))
  get_state_keys [] = pure []
  get_state_keys (addr ∷ addrs) = do
    key ← get_state_key addr
    keys ← get_state_keys addrs
    pure (key ∷ keys)

  unfoldable pub read_rand : Exec (KeyStore S) (List ℕ)
  read_rand s = (random_key (c.draws s.drawn), record s { drawn = suc s.drawn })

  abbrev save_key : List ℕ → List ℕ → Exec (KeyStore S) (Unit {0})
  save_key addr log s =
      let (r, files) = save_sealed_document fs (c.document_path addr) log s.files in
      (r, record s { files = files })

  -- The body of the loop of `new_state_keys`.
  unfoldable pub new_state_key : List ℕ → Exec (KeyStore S) (List ℕ)
  unfolding read_rand
  new_state_key addr = do
    key ← read_rand
    log ← lift (seal c.sgx (key_doc key) zero_log)
    save_key addr log
    modify (λ s. record s { keys = insert addr key s.keys })
    pure key

  unfoldable pub new_state_keys : List (List ℕ) → Exec (KeyStore S) (List (List ℕ))
  new_state_keys [] = pure []
  new_state_keys (addr ∷ addrs) = do
    key ← new_state_key addr
    keys ← new_state_keys addrs
    pure (key ∷ keys)

  -- `build_get_state_keys_response`.
  unfoldable pub build_response : List (List ℕ) → Exec (KeyStore S) (List (List ℕ × List ℕ))
  build_response [] = pure []
  build_response (addr ∷ rest) = do
    let sc_addrs = addr ∷ rest
    keys ← get_state_keys sc_addrs
    addrs ← lift (new_addrs sc_addrs keys)
    _ ← new_state_keys addrs
    check (λ s. respond s.keys sc_addrs)
