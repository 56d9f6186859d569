-- ===== src/StateKeys/Request.antt =====
-- `ecall_get_enc_state_keys_internal` of keys_keeper_t/mod.rs. The epochs are only read; elliptic
-- curves are another crate's and are parameters, with `K` for its pairs of keys.
use enigma_core.Prelude.{
  ℕ, Option, none, some, List, [], ◌∷◌, bytes_eq, if◌then◌else◌, Outcome, ok, err, panic, ◌>>=◌,
}
use enigma_core.Crypto.Errors.{CryptoError, random_error}
use enigma_core.Crypto.Symmetric.{Aead}
use enigma_core.Errors.{EnclaveError, system_error, crypto_error, messaging_error}
use enigma_core.Exec as Exec
use enigma_core.Exec.{Exec as Handler}
use enigma_core.Storage.{FileSystem}
use enigma_core.Messages.{
  ToolsError, Formats, PrincipalMessage, response, new_id, to_sign, get_pubkey, into_message,
  from_message, encrypt_with_nonce,
}
use enigma_core.Epoch.Keeper.{Crates, Keeper, auth_error, signed, get_epoch_worker}
use enigma_core.StateKeys.{KeyCrates, KeyStore, build_response}

-- `recover` gives the public key that made a signature of an image.
pub record RequestCrates (K : Type 0) : Type 0 where
  pub epoch : Crates
  pub keys : KeyCrates
  pub formats : Formats
  pub aead : Aead
  pub recover : List ℕ → List ℕ → Outcome CryptoError (List ℕ)
  pub address : List ℕ → List ℕ
  pub derive_key : K → List ℕ → Outcome CryptoError (List ℕ)
  pub pair_pubkey : K → List ℕ

-- The arguments of the ecall, the pair that `KeyPair::new` makes and the nonce that the encryption
-- draws (`none` is a failure of the source of randomness).
pub record KeysRequest (K : Type 0) : Type 0 where
  pub msg_bytes : List ℕ
  pub sc_addrs : List (List ℕ)
  pub sig : List ℕ
  pub epoch_nonce : List ℕ
  pub new_pair : Option K
  pub iv : Option (List ℕ)

-- The conversions of `?`.
abbrev pub from_tools : {A : Type 0} → Outcome ToolsError A → Outcome EnclaveError A
from_tools (ok a) = ok a
from_tools (err e) = err (system_error messaging_error)
from_tools panic = panic

abbrev pub from_crypto : {A : Type 0} → Outcome CryptoError A → Outcome EnclaveError A
from_crypto (ok a) = ok a
from_crypto (err e) = err (system_error (crypto_error e))
from_crypto panic = panic

abbrev pub made_pair : {K : Type 0} → Option K → Outcome CryptoError K
made_pair none = err random_error
made_pair (some pair) = ok pair

-- The check of one contract's worker, before the rest of the loop.
abbrev pub worker_is :
    List ℕ
    → Outcome EnclaveError (List ℕ)
    → Option (Outcome EnclaveError (Unit {0}))
    → Option (Outcome EnclaveError (Unit {0}))
worker_is signer (ok worker) rest = if bytes_eq worker signer then rest else some auth_error
worker_is signer (err e) rest = some (err e)
worker_is signer panic rest = some panic

-- What a request that is well-formed says: its message, and the address that signed it.
pub record Opened : Type 0 where
  pub msg : PrincipalMessage
  pub user_pubkey : List ℕ
  pub signer : List ℕ

module _ {K S : Type 0} (c : RequestCrates K) (fs : FileSystem S) where
  unfoldable pub open_request : KeysRequest K → Outcome EnclaveError Opened
  open_request r = do
    msg ← from_tools (from_message c.formats r.msg_bytes)
    user_pubkey ← from_tools (get_pubkey msg)
    image ← from_tools (to_sign msg)
    key ← from_crypto (c.recover image r.sig)
    ok (record { msg = msg; user_pubkey = user_pubkey; signer = c.address key })

  -- The loop over the contracts.
  unfoldable pub check_workers :
      List ℕ → ℕ → List (List ℕ) → Keeper S → Option (Outcome EnclaveError (Unit {0}))
  check_workers signer nonce [] epochs = some (ok tt)
  check_workers signer nonce (sc_addr ∷ sc_addrs) epochs =
      let rest = check_workers signer nonce sc_addrs epochs in
      elim (get_epoch_worker c.epoch fs sc_addr nonce epochs) [
        | none ↦ none
        | some worker ↦ worker_is signer worker rest
      ]

  -- The pair, the derived key, the encryption and the signature: the response and `sig_out`.
  unfoldable pub seal_response :
      KeysRequest K → Opened → List (List ℕ × List ℕ) → Outcome EnclaveError (List ℕ × List ℕ)
  seal_response r o response_data = do
    key_pair ← from_crypto (made_pair r.new_pair)
    derived_key ← from_crypto (c.derive_key key_pair o.user_pubkey)
    let response_msg = new_id (response response_data) o.msg.id (c.pair_pubkey key_pair)
    enc ← from_crypto (encrypt_with_nonce c.formats c.aead response_msg derived_key none r.iv)
    bytes ← from_tools (into_message c.formats enc)
    sig_out ← signed (c.epoch.sign bytes)
    ok (bytes, sig_out)

  -- What follows the checks.
  unfoldable pub answer : KeysRequest K → Opened → Handler (KeyStore S) (List ℕ × List ℕ)
  unfolding seal_response
  answer r o =
      Exec.◌>>=◌ (build_response c.keys fs r.sc_addrs)
        (λ response_data. Exec.lift (seal_response r o response_data))

  abbrev answer_if :
      KeysRequest K
      → Opened
      → KeyStore S
      → Option (Outcome EnclaveError (Unit {0}))
      → Option (Outcome EnclaveError (List ℕ × List ℕ) × KeyStore S)
  answer_if r o s none = none
  answer_if r o s (some (ok tt)) = some (answer r o s)
  answer_if r o s (some (err e)) = some (err e, s)
  answer_if r o s (some panic) = some (panic, s)

  -- The handler; `none` means that the fuel of the worker selection ran out.
  unfoldable pub get_enc_state_keys :
      Keeper S
      → KeysRequest K
      → KeyStore S
      → Option (Outcome EnclaveError (List ℕ × List ℕ) × KeyStore S)
  unfolding open_request check_workers
  get_enc_state_keys epochs r s = elim (open_request r) [
    | err e ↦ some (err e, s)
    | panic ↦ some (panic, s)
    | ok o ↦ answer_if r o s (
        check_workers o.signer (c.epoch.hashing.uint256.from_big_endian r.epoch_nonce) r.sc_addrs
          epochs)
  ]
