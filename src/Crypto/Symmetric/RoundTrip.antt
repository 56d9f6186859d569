-- ===== src/Crypto/Symmetric/RoundTrip.antt =====
-- Decryption undoes encryption, and reports what it cannot read.
use enigma_core.Prelude.{
  ℕ, ◌-◌, ◌≤◌, ◌≡◌, ◌⊎◌, List, ◌++◌, Option, none, some, true, arith, length, length-append, take,
  drop, replicate, take_append, drop_append, ok,
}
use enigma_core.Crypto.Symmetric.{Aead, iv_size, encrypt_with_nonce, decrypt}

-- What ring documents of an AEAD: sealing a message within its limit, with a valid key and a
-- nonce of 12 bytes, succeeds, and opening what was sealed returns the message.
pub record AeadLaws (aead : Aead) : Type 0 where
  pub max_message : ℕ
  pub open-seal :
      (key iv message : List ℕ)
      → aead.is_key key ≡ true
      → length iv ≡ iv_size
      → length message ≤ max_message
      → (sealed : List ℕ × ℕ) × (aead.seal_in_place key iv
            (message ++ replicate aead.tag_len 0)
            aead.tag_len
          ≡ some sealed)
        × (aead.open_in_place key iv (take sealed.1 sealed.0) ≡ some message)

module _ (aead : Aead) where
  split_iv :
      (c iv : List ℕ)
      → length iv ≡ iv_size
      → (take (length (c ++ iv) - 12) (c ++ iv) ≡ c) × (drop (length (c ++ iv) - 12) (c ++ iv) ≡ iv)
  split_iv c iv h =
      let e : length (c ++ iv) - 12 ≡ length c = omega (arith, length-append c iv) in
      (rw e (take_append c iv), rw e (drop_append c iv))

  decrypt-append_iv :
      (c iv key message : List ℕ)
      → length iv ≡ iv_size
      → aead.is_key key ≡ true
      → aead.open_in_place key iv c ≡ some message
      → decrypt aead (c ++ iv) key ≡ ok message
  unfolding decrypt
  decrypt-append_iv c iv key message h k o = ground (arith, split_iv c iv h, length-append c iv)

  -- With a valid key, a nonce of 12 bytes (given, or drawn where none is given) and a message
  -- within the cipher's limit, encryption succeeds, ends in the nonce, and decrypts to the message.
  pub decrypt-encrypt_with_nonce :
      (laws : AeadLaws aead) (message key iv : List ℕ) (given drawn : Option (List ℕ))
      → aead.is_key key ≡ true
      → length iv ≡ iv_size
      → length message ≤ laws.max_message
      → (given ≡ some iv) ⊎ ((given ≡ none) × (drawn ≡ some iv))
      → (c : List ℕ) × (encrypt_with_nonce aead message key given drawn ≡ ok (c ++ iv))
        × (decrypt aead (c ++ iv) key ≡ ok message)
  unfolding encrypt_with_nonce
  decrypt-encrypt_with_nonce laws message key iv given drawn k h m choice =
      let (sealed, s, o) = laws.open-seal key iv message k h m in
      (take sealed.1 sealed.0, ground arith, decrypt-append_iv _ iv key message h k o)
