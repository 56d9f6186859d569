-- ===== src/Worker.antt =====
-- The keys of a worker: enigma-core/enclave/src/km_t, mod.rs and users.rs, and the two calls on keys
-- of principal.rs. `KeyPair` is a parameter, and so are the codings of messages.
pub mod Answered
pub mod Build
use Prim.Native.String.{String}
use enigma_core.Prelude.{
  ℕ, Option, none, some, List, [], ◌∷◌, bytes_eq, if◌then◌else◌, Outcome, ok, err, panic, ◌>>=◌,
}
use enigma_core.Crypto.Errors.{CryptoError, missing_key_error}
use enigma_core.Crypto.Symmetric.{Aead}
use enigma_core.Errors.{EnclaveError}
use enigma_core.Exec as Exec
use enigma_core.Exec.{Exec as Handler, pure, lift, check, modify}
use enigma_core.Messages.{
  AddressedKey, PrincipalMessageType, response, request, encrypted_response, PrincipalMessage,
  Formats, new, to_sign, get_pubkey, into_message, from_message, decrypt,
}
use enigma_core.Messages.User as User
use enigma_core.Messages.User.{UserMessage, UserFormats}
use enigma_core.StateKeys.Store.{KeyMap, get, insert}
use enigma_core.StateKeys.Request.{from_tools, from_crypto, made_pair}

-- `DH_KEYS` of principal.rs: the pairs of the requests that wait for a response, by their ids.
abbrev pub PairMap : Type 0 → Type 0
PairMap K = List (List ℕ × K)

module _ {K : Type 0} where
  unfoldable pub find_pair : List ℕ → PairMap K → Option K
  find_pair id [] = none
  find_pair id ((i, pair) ∷ m) = if bytes_eq i id then some pair else find_pair id m

  unfoldable pub drop_pair : List ℕ → PairMap K → PairMap K
  drop_pair id [] = []
  drop_pair id ((i, pair) ∷ m) =
      let rest = drop_pair id m in if bytes_eq i id then rest else (i, pair) ∷ rest

-- `STATE_KEYS`, and the two maps `DH_KEYS`; that of users.rs is from public keys to shared keys.
pub record WorkerKeys (K : Type 0) : Type 0 where
  pub state_keys : KeyMap
  pub dh_keys : PairMap K
  pub user_keys : KeyMap

-- `sign` is that of `SIGNING_KEY`.
pub record WorkerCrates (K : Type 0) : Type 0 where
  pub formats : Formats
  pub user_formats : UserFormats
  pub aead : Aead
  pub sign : List ℕ → Outcome CryptoError (List ℕ)
  pub derive_key : K → List ℕ → Outcome CryptoError (List ℕ)
  pub pair_pubkey : K → List ℕ

abbrev pub or_missing_key : {A : Type 0} → String → Option A → Outcome EnclaveError A
or_missing_key key_type none = from_crypto (err (missing_key_error key_type))
or_missing_key key_type (some a) = ok a

unfoldable pub insert_all : List AddressedKey → KeyMap → KeyMap
insert_all [] m = m
insert_all ((addr, key) ∷ v) m = insert_all v (insert addr key m)

-- Anything but a response is `unreachable!`.
abbrev pub response_of : PrincipalMessageType → Outcome EnclaveError (List AddressedKey)
response_of (response v) = ok v
response_of request = panic
response_of (encrypted_response _) = panic

module _ {K : Type 0} (c : WorkerCrates K) where
  -- The pair, the id, the message and its signature.
  unfoldable pub make_request :
      Option K → Option (List ℕ) → Outcome EnclaveError (K × (List ℕ × (List ℕ × List ℕ)))
  make_request new_pair drawn = do
    keys ← from_crypto (made_pair new_pair)
    req ← from_crypto (new request (c.pair_pubkey keys) drawn)
    image ← from_tools (to_sign req)
    sig ← from_crypto (c.sign image)
    msg ← from_tools (into_message c.formats req)
    ok (keys, (req.id, (msg, sig)))

  -- `ecall_ptt_req_internal`; the result is the message and the signature.
  unfoldable pub ptt_req : Option K → Option (List ℕ) → Handler (WorkerKeys K) (List ℕ × List ℕ)
  unfolding make_request
  ptt_req new_pair drawn = Exec.◌>>=◌ (lift (make_request new_pair drawn)) (λ made.
      Exec.◌>>=◌
        (modify (λ st. record st { dh_keys = (made.1.0, made.0) ∷ drop_pair made.1.0 st.dh_keys }))
        (λ _. pure made.1.1))

  -- The id of a response and the keys in it.
  unfoldable pub read_response :
      List ℕ → WorkerKeys K → Outcome EnclaveError (List ℕ × List AddressedKey)
  read_response msg_slice st = do
    res ← from_tools (from_message c.formats msg_slice)
    keys ← or_missing_key "DH Keys" (find_pair res.id st.dh_keys)
    pubkey ← from_tools (get_pubkey res)
    aes ← from_crypto (c.derive_key keys pubkey)
    msg ← from_crypto (decrypt c.formats c.aead res aes)
    v ← response_of msg.body
    ok (res.id, v)

  -- `ecall_ptt_res_internal`.
  unfoldable pub ptt_res : List ℕ → Handler (WorkerKeys K) (Unit {0})
  unfolding read_response
  ptt_res msg_slice = Exec.◌>>=◌ (check (read_response msg_slice)) (λ answer. modify (λ st.
      record st {
        state_keys = insert_all answer.1 st.state_keys;
        dh_keys = drop_pair answer.0 st.dh_keys;
      }))

  -- The message for a user, its signature, and the key that is shared with that user.
  unfoldable pub make_user_key :
      List ℕ → Option K → Outcome EnclaveError (List ℕ × (List ℕ × List ℕ))
  make_user_key user_pubkey new_pair = do
    keys ← from_crypto (made_pair new_pair)
    let req : UserMessage = record { pubkey = c.pair_pubkey keys }
    sig ← from_crypto (c.sign (User.to_sign req))
    msg ← from_tools (User.into_message c.user_formats req)
    enc_key ← from_crypto (c.derive_key keys user_pubkey)
    ok (enc_key, (msg, sig))

  -- `ecall_get_user_key_internal`.
  unfoldable pub get_user_key : List ℕ → Option K → Handler (WorkerKeys K) (List ℕ × List ℕ)
  unfolding make_user_key
  get_user_key user_pubkey new_pair =
      Exec.◌>>=◌ (lift (make_user_key user_pubkey new_pair)) (λ made.
        Exec.◌>>=◌ (modify (λ st. record st { user_keys = insert user_pubkey made.0 st.user_keys }))
          (λ _. pure made.1))

-- `get_state_key` of mod.rs.
unfoldable pub worker_state_key :
    {K : Type 0} → List ℕ → WorkerKeys K → Outcome EnclaveError (List ℕ)
worker_state_key address st = or_missing_key "State Key" (get address st.state_keys)
