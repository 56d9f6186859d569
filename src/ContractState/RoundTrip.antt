-- ===== src/ContractState/RoundTrip.antt =====
-- An encrypted state is decrypted to itself.
use enigma_core.Prelude.{
  ℕ, ◌≡◌, ◌⊎◌, refl, Option, none, some, List, ◌++◌, length, true, arith, ok, Option-some_of, subst,
}
use enigma_core.Crypto.Symmetric.{iv_size}
use enigma_core.Crypto.Symmetric.RoundTrip.{decrypt-encrypt_with_nonce}
use enigma_core.ContractState.{
  ContractState, EncryptedContractState, StateCrates, encrypt_state, decrypt_state,
}
use enigma_core.ContractState.Deltas.{StateLaws}

module _ {J P : Type 0} (c : StateCrates J P) where
  -- A state that was encrypted with a valid key and a nonce of 12 bytes, given or drawn, decrypts
  -- to itself: the address, the value, the hash and the index.
  pub decrypt_state-encrypt_state :
      (laws : StateLaws c) (s : ContractState J) (key iv : List ℕ) (given drawn : Option (List ℕ))
      (enc : EncryptedContractState)
      → c.aead.is_key key ≡ true
      → length iv ≡ iv_size
      → (given ≡ some iv) ⊎ ((given ≡ none) × (drawn ≡ some iv))
      → encrypt_state c s key given drawn ≡ ok enc
      → decrypt_state c enc key ≡ ok s
  unfolding encrypt_state decrypt_state
  decrypt_state-encrypt_state laws s key iv given drawn enc k len choice h =
      let fields : J × (List ℕ × ℕ) = (s.json, (s.delta_hash, s.delta_index)) in
      let (buf, packed) = Option-some_of (c.pack_state fields) (λ q. ground arith) in
      let (unpacked, small) = laws.unpack-pack_state fields buf packed in
      let (sealed, encrypted, decrypted) =
        decrypt-encrypt_with_nonce c.aead laws.aead buf key iv given drawn k len small choice in
      let made : EncryptedContractState = record {
        contract_address = s.contract_address;
        json = sealed ++ iv;
      } in
      let same : made ≡ enc = ground arith in
      subst (λ x. decrypt_state c x key ≡ ok s) same (rw (decrypted, unpacked) refl)
