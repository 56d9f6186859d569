-- ===== src/Messages.antt =====
-- The messages between workers and the key-management node:
-- enigma-tools-m/src/primitives/km_primitives.rs. The codings of serde and MessagePack are
-- parameters.
pub mod User
pub mod Signing
pub mod RoundTrip
use Prim.Native.String.{String}
use enigma_core.Prelude.{
  ℕ, Bool, true, false, Option, none, some, List, [], ◌∷◌, ◌++◌, length, ◌==◌, if◌then◌else◌,
  Outcome, ok, err, panic, ◌>>=◌,
}
use enigma_core.Crypto.Errors.{CryptoError, decryption_error, encryption_error, random_error}
use enigma_core.Crypto.Hash.{prepare_hash_multiple}
use enigma_core.Crypto.Symmetric as Symmetric
use enigma_core.Crypto.Symmetric.{Aead}

pub data ToolsError : Type 0 where
  messaging_error : String → ToolsError

abbrev pub pub_key_size : ℕ
pub_key_size = 64

unfoldable pub verify_key_size : List ℕ → Outcome ToolsError (Unit {0})
verify_key_size pubkey =
    if length pubkey == pub_key_size
    then ok tt
    else err (messaging_error "the pub key is not of the right length")

-- A contract's address with its state key.
abbrev pub AddressedKey : Type 0
AddressedKey = List ℕ × List ℕ

pub data PrincipalMessageType : Type 0 where
  response : List AddressedKey → PrincipalMessageType
  request : PrincipalMessageType
  encrypted_response : List ℕ → PrincipalMessageType

-- `body` is the field `data`.
pub record PrincipalMessage : Type 0 where
  pub body : PrincipalMessageType
  pub pubkey : List ℕ
  pub id : List ℕ

-- A conversion to a JSON value and on into MessagePack, and back; the list of keys goes into
-- MessagePack at once. `none` is an error of either step.
pub record Formats : Type 0 where
  pub pack : PrincipalMessage → Option (List ℕ)
  pub unpack : List ℕ → Option PrincipalMessage
  pub pack_keys : List AddressedKey → Option (List ℕ)
  pub unpack_keys : List ℕ → Option (List AddressedKey)

unfoldable pub new :
    PrincipalMessageType → List ℕ → Option (List ℕ) → Outcome CryptoError PrincipalMessage
new body pubkey none = err random_error
new body pubkey (some id) = ok (record { body = body; pubkey = pubkey; id = id })

unfoldable pub new_id : PrincipalMessageType → List ℕ → List ℕ → PrincipalMessage
new_id body id pubkey = record { body = body; pubkey = pubkey; id = id }

abbrev pub is_response_body : PrincipalMessageType → Bool
is_response_body (response _) = true
is_response_body request = false
is_response_body (encrypted_response _) = false

unfoldable pub is_response : PrincipalMessage → Bool
is_response m = is_response_body m.body

abbrev pub not_encrypted : {A : Type 0} → Outcome ToolsError A
not_encrypted = err (messaging_error "can't serialize non encrypted response")

-- The first message to sign: the ciphertext, if there is one. A response is `unreachable!`.
abbrev pub body_to_sign : PrincipalMessageType → Outcome ToolsError (List (List ℕ))
body_to_sign (encrypted_response v) = ok (v ∷ [])
body_to_sign request = ok []
body_to_sign (response _) = panic

unfoldable pub to_sign : PrincipalMessage → Outcome ToolsError (List ℕ)
unfolding is_response
to_sign m =
    let image = do
      body ← body_to_sign m.body
      ok (prepare_hash_multiple (body ++ m.pubkey ∷ m.id ∷ []))
    in if is_response m then not_encrypted else image

-- `copy_from_slice` panics on a key of another length.
unfoldable pub get_pubkey : PrincipalMessage → Outcome ToolsError (List ℕ)
get_pubkey m = if length m.pubkey == pub_key_size then ok m.pubkey else panic

abbrev pub or_messaging : {A : Type 0} → String → Option A → Outcome ToolsError A
or_messaging text none = err (messaging_error text)
or_messaging text (some a) = ok a

abbrev pub or_crypto : {A : Type 0} → CryptoError → Option A → Outcome CryptoError A
or_crypto e none = err e
or_crypto e (some a) = ok a

module _ (fmt : Formats) where
  unfoldable pub into_message : PrincipalMessage → Outcome ToolsError (List ℕ)
  unfolding is_response
  into_message m =
      if is_response m
      then not_encrypted
      else or_messaging "can't serialize the message" (fmt.pack m)

  unfoldable pub from_message : List ℕ → Outcome ToolsError PrincipalMessage
  unfolding verify_key_size
  from_message msg = do
    m ← or_messaging "can't deserialize the message" (fmt.unpack msg)
    _ ← verify_key_size m.pubkey
    ok m

module _ (fmt : Formats) (aead : Aead) where
  abbrev encrypted_body :
      PrincipalMessageType
      → List ℕ
      → Option (List ℕ)
      → Option (List ℕ)
      → Outcome CryptoError PrincipalMessageType
  encrypted_body (response keys) key given drawn = do
    buf ← or_crypto encryption_error (fmt.pack_keys keys)
    enc ← Symmetric.encrypt_with_nonce aead buf key given drawn
    ok (encrypted_response enc)
  encrypted_body request key given drawn = err encryption_error
  encrypted_body (encrypted_response _) key given drawn = err encryption_error

  unfoldable pub encrypt_with_nonce :
      PrincipalMessage
      → List ℕ
      → Option (List ℕ)
      → Option (List ℕ)
      → Outcome CryptoError PrincipalMessage
  encrypt_with_nonce m key given drawn = do
    body ← encrypted_body m.body key given drawn
    ok (record m { body = body })

  abbrev decrypted_body : PrincipalMessageType → List ℕ → Outcome CryptoError PrincipalMessageType
  decrypted_body (encrypted_response enc) key = do
    dec ← Symmetric.decrypt aead enc key
    keys ← or_crypto decryption_error (fmt.unpack_keys dec)
    ok (response keys)
  decrypted_body request key = err encryption_error
  decrypted_body (response _) key = err encryption_error

  unfoldable pub decrypt : PrincipalMessage → List ℕ → Outcome CryptoError PrincipalMessage
  decrypt enc key = do body ← decrypted_body enc.body key; ok (record enc { body = body })
