-- ===== src/Crypto/Symmetric.antt =====
-- enigma-crypto/src/symmetric.rs: AES-256-GCM with the nonce behind the ciphertext. The cipher of
-- the ring crate is a parameter.
pub mod RoundTrip
use enigma_core.Prelude.{
  ℕ, ◌-◌, List, ◌++◌, Option, none, some, Bool, length, take, drop, replicate, ltb, if◌then◌else◌,
  Outcome, ok, err, ◌>>=◌,
}
use enigma_core.Crypto.Errors.{
  CryptoError, decryption_error, improper_encryption, encryption_error, key_error, random_error,
}

-- The calls of `ring::aead` that the module makes, at the algorithm AES_256_GCM and with no
-- additional data. `seal_in_place key nonce in_out suffix` returns the buffer as the call leaves
-- it and the size of what was sealed.
pub record Aead : Type 0 where
  pub tag_len : ℕ
  pub is_key : List ℕ → Bool
  pub seal_in_place : List ℕ → List ℕ → List ℕ → ℕ → Option (List ℕ × ℕ)
  pub open_in_place : List ℕ → List ℕ → List ℕ → Option (List ℕ)

abbrev pub iv_size : ℕ
iv_size = 12

module _ (aead : Aead) where
  -- The nonce: the given one, or what `rand::random` draws (`none` is a failure of the source).
  choose_iv : Option (List ℕ) → Option (List ℕ) → Outcome CryptoError (List ℕ)
  choose_iv (some x) drawn = ok x
  choose_iv none (some x) = ok x
  choose_iv none none = err random_error

  append_iv : List ℕ → Option (List ℕ × ℕ) → Outcome CryptoError (List ℕ)
  append_iv iv none = err encryption_error
  append_iv iv (some (in_out, seal_size)) = ok (take seal_size in_out ++ iv)

  unfoldable pub encrypt_with_nonce :
      List ℕ → List ℕ → Option (List ℕ) → Option (List ℕ) → Outcome CryptoError (List ℕ)
  unfolding choose_iv append_iv
  encrypt_with_nonce message key given drawn = do
    iv ← choose_iv given drawn
    let in_out = message ++ replicate aead.tag_len 0
    if aead.is_key key
        then append_iv iv (aead.seal_in_place key iv in_out aead.tag_len)
        else err (key_error "Encryption")

  -- `encrypt` draws the nonce.
  unfoldable pub encrypt : List ℕ → List ℕ → Option (List ℕ) → Outcome CryptoError (List ℕ)
  unfolding encrypt_with_nonce
  encrypt message key drawn = encrypt_with_nonce message key none drawn

  opened : Option (List ℕ) → Outcome CryptoError (List ℕ)
  opened none = err decryption_error
  opened (some decrypted_data) = ok decrypted_data

  unfoldable pub decrypt : List ℕ → List ℕ → Outcome CryptoError (List ℕ)
  unfolding opened
  decrypt cipheriv key =
      let split = length cipheriv - 12 in
      if ltb (length cipheriv) iv_size
      then err improper_encryption
      else if aead.is_key key
      then opened (aead.open_in_place key (drop split cipheriv) (take split cipheriv))
      else err (key_error "Decryption")
