-- ===== src/Messages/RoundTrip.antt =====
-- Messages survive their encryption and their coding.
use enigma_core.Prelude.{
  ℕ, ◌≤◌, ◌≡◌, ◌⊎◌, inl, inr, refl, Option, none, some, List, ◌++◌, arith, length, ok, true,
  Option-cases,
}
use enigma_core.Crypto.Symmetric.{Aead, iv_size}
use enigma_core.Crypto.Symmetric.RoundTrip.{AeadLaws, decrypt-encrypt_with_nonce}
use enigma_core.Messages.{
  AddressedKey, response, encrypted_response, PrincipalMessage, Formats, into_message, from_message,
  get_pubkey, encrypt_with_nonce, decrypt,
}

-- What the code relies on in the codings: what is packed is unpacked.
pub record FormatsLaws (fmt : Formats) : Type 0 where
  pub unpack-pack :
      (m : PrincipalMessage) (b : List ℕ) → fmt.pack m ≡ some b → fmt.unpack b ≡ some m
  pub unpack_keys-pack_keys :
      (keys : List AddressedKey) (b : List ℕ)
      → fmt.pack_keys keys ≡ some b
      → fmt.unpack_keys b ≡ some keys

module _ (fmt : Formats) where
  -- A message that is received has a key of 64 bytes, so that `get_pubkey` does not panic on it.
  pub get_pubkey-from_message :
      (b : List ℕ) (m : PrincipalMessage)
      → from_message fmt b ≡ ok m
      → (get_pubkey m ≡ ok m.pubkey) × (length m.pubkey ≡ 64)
  unfolding from_message get_pubkey
  get_pubkey-from_message b m h = elim (Option-cases (fmt.unpack b)) [
    | inl e ↦ absurd (ground arith)
    | inr (m', e) ↦ ground arith
  ]

  -- What is sent is received, if the key has 64 bytes.
  pub from_message-into_message :
      (laws : FormatsLaws fmt) (m : PrincipalMessage) (b : List ℕ)
      → length m.pubkey ≡ 64
      → into_message fmt m ≡ ok b
      → from_message fmt b ≡ ok m
  unfolding from_message into_message
  from_message-into_message laws m b k h = ground (arith, laws.unpack-pack m b)

  module _ (aead : Aead) where
    -- A response that can be packed within the cipher's limit is encrypted, with a valid key and a
    -- nonce of 12 bytes, and decrypts to itself; its public key and id stay readable.
    pub decrypt-encrypted :
        (laws : FormatsLaws fmt) (al : AeadLaws aead) (keys : List AddressedKey)
        (pubkey id key iv buf : List ℕ) (given drawn : Option (List ℕ))
        → fmt.pack_keys keys ≡ some buf
        → length buf ≤ al.max_message
        → aead.is_key key ≡ true
        → length iv ≡ iv_size
        → (given ≡ some iv) ⊎ ((given ≡ none) × (drawn ≡ some iv))
        → (enc : List ℕ) × (encrypt_with_nonce fmt aead
              (record { body = response keys; pubkey = pubkey; id = id })
              key
              given
              drawn
            ≡ ok (record { body = encrypted_response enc; pubkey = pubkey; id = id }))
          × (decrypt fmt aead
                (record { body = encrypted_response enc; pubkey = pubkey; id = id })
                key
              ≡ ok (record { body = response keys; pubkey = pubkey; id = id }))
    unfolding encrypt_with_nonce decrypt
    decrypt-encrypted laws al keys pubkey id key iv buf given drawn p m k i g =
        let (c, e, d) = decrypt-encrypt_with_nonce aead al buf key iv given drawn k i m g in
        (c ++ iv, rw (p, e) refl, rw (d, laws.unpack_keys-pack_keys keys buf p) refl)
