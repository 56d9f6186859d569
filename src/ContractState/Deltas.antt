-- ===== src/ContractState/Deltas.antt =====
-- A delta takes the old state to the new one, and no other delta is accepted.
use enigma_core.Prelude.{
  ℕ, ◌≤◌, ◌≡◌, ◌⊎◌, inl, inr, refl, sym, ap, ◌∙◌, subst, Option, none, some, List, ◌++◌, arith,
  length, true, bytes_eq, bytes_eq_iff, bytes_eq_refl, ok, Outcome-cases, Outcome-ok_of,
  Option-cases, Option-some_of, Bool-cases,
}
use enigma_core.Crypto.Symmetric.{iv_size}
use enigma_core.Crypto.Symmetric.RoundTrip.{AeadLaws, decrypt-encrypt_with_nonce}
use enigma_core.Exec as Exec
use enigma_core.Exec.{pure, lift, check, modify}
use enigma_core.ContractState.{
  ContractState, StatePatch, EncryptedPatch, StateCrates, keccak256_patch, encrypt_patch,
  decrypt_patch, apply_delta, delta_between, generate_delta_and_update_state, next_index,
}

-- What the deltas rely on: patching by the difference gives the new value, what is serialized is
-- deserialized and is within the cipher's limit, and the cipher.
pub record StateLaws {J P : Type 0} (c : StateCrates J P) : Type 0 where
  pub aead : AeadLaws c.aead
  pub patch-diff : (old new : J) → c.patch (c.diff old new) old ≡ some new
  pub unpack-pack :
      (p : P × List ℕ) (buf : List ℕ)
      → c.pack_patch p ≡ some buf
      → (c.unpack_patch buf ≡ some p) × (length buf ≤ aead.max_message)
  pub unpack-pack_state :
      (s : J × (List ℕ × ℕ)) (buf : List ℕ)
      → c.pack_state s ≡ some buf
      → (c.unpack_state buf ≡ some s) × (length buf ≤ aead.max_message)

module _ {J P : Type 0} (c : StateCrates J P) where
  -- Decryption undoes encryption of a patch, for a valid key and a nonce of 12 bytes.
  pub decrypt_patch-encrypt_patch :
      (laws : StateLaws c) (p : StatePatch P) (key iv : List ℕ) (given drawn : Option (List ℕ))
      (enc : EncryptedPatch)
      → c.aead.is_key key ≡ true
      → length iv ≡ iv_size
      → (given ≡ some iv) ⊎ ((given ≡ none) × (drawn ≡ some iv))
      → encrypt_patch c p key given drawn ≡ ok enc
      → decrypt_patch c enc key ≡ ok p
  unfolding encrypt_patch decrypt_patch
  decrypt_patch-encrypt_patch laws p key iv given drawn enc k len choice h =
      let (buf, packed) =
        Option-some_of (c.pack_patch (p.patch, p.previous_hash)) (λ q. ground arith) in
      let (unpacked, small) = laws.unpack-pack (p.patch, p.previous_hash) buf packed in
      let (sealed, encrypted, decrypted) =
        decrypt-encrypt_with_nonce c.aead laws.aead buf key iv given drawn k len small choice in
      let made : EncryptedPatch = record {
        ciphertext = sealed ++ iv;
        contract_address = p.contract_address;
        index = p.index;
      } in
      let same : made ≡ enc = ground arith in
      subst (λ x. decrypt_patch c x key ≡ ok p) same (rw (decrypted, unpacked) refl)

  -- A delta that is applied was made after the state's last one; a delta that is not leaves the
  -- state as it was.
  pub apply_delta-outcome :
      (delta : EncryptedPatch) (key : List ℕ) (s : ContractState J)
      → (((apply_delta c delta key s).0 ≡ ok tt)
          × (dec : StatePatch P) × (decrypt_patch c delta key ≡ ok dec)
          × (dec.previous_hash ≡ s.delta_hash)
          × ((apply_delta c delta key s).1.delta_hash ≡ keccak256_patch c delta)
          × (c.patch dec.patch s.json ≡ some (apply_delta c delta key s).1.json))
        ⊎ (¬ ((apply_delta c delta key s).0 ≡ ok tt) × ((apply_delta c delta key s).1 ≡ s))
  unfolding apply_delta Exec.◌>>=◌
  apply_delta-outcome delta key s = elim (Outcome-cases (decrypt_patch c delta key)) [
    | inr (inl (e, f)) ↦ inr (ground arith, ground arith)
    | inr (inr f) ↦ inr (ground arith, ground arith)
    | inl (dec, f) ↦ elim (Bool-cases (bytes_eq dec.previous_hash s.delta_hash)) [
      | inr g ↦ inr (ground arith, ground arith)
      | inl g ↦ elim (Option-cases (c.patch dec.patch s.json)) [
        | inl k ↦ inr (ground arith, ground arith)
        | inr (json, k) ↦
            inl (ground arith, dec, f, (bytes_eq_iff _ _).0 g, ground arith, ground arith)
      ]
    ]
  ]

  generate-ok :
      (old new new' : ContractState J) (key : List ℕ) (drawn : Option (List ℕ))
      (enc : EncryptedPatch)
      → generate_delta_and_update_state c old key drawn new ≡ (ok enc, new')
      → (encrypt_patch c
            (delta_between c old (record new { delta_index = next_index old }))
            key
            none
            drawn
          ≡ ok enc)
        × (new' ≡ record new { delta_index = next_index old; delta_hash = keccak256_patch c enc })
  unfolding generate_delta_and_update_state Exec.◌>>=◌
  generate-ok old new new' key drawn enc h =
      let (enc', e) =
        Outcome-ok_of
          (encrypt_patch c (delta_between c old (record new { delta_index = next_index old })) key
            none drawn)
          (λ x k. ground arith) (λ k. ground arith) in
      let same : enc' ≡ enc = ground arith in (e ∙ ap ok same, ground arith)

  -- A delta that was generated from an old state to a new one of the same contract, with a valid key
  -- and a nonce of 12 bytes, takes the old state to the new one when it is applied: value, hash and
  -- index.
  pub apply_delta-generate :
      (laws : StateLaws c) (old new new' : ContractState J) (key iv : List ℕ) (enc : EncryptedPatch)
      → c.aead.is_key key ≡ true
      → length iv ≡ iv_size
      → new.contract_address ≡ old.contract_address
      → generate_delta_and_update_state c old key (some iv) new ≡ (ok enc, new')
      → apply_delta c enc key old ≡ (ok tt, new')
  unfolding apply_delta Exec.◌>>=◌
  apply_delta-generate laws old new new' key iv enc k len same h =
      let (encrypted, e) = generate-ok old new new' key (some iv) enc h in
      let delta = delta_between c old (record new { delta_index = next_index old }) in
      let decrypted : decrypt_patch c enc key ≡ ok delta =
        decrypt_patch-encrypt_patch laws delta key iv none (some iv) enc k len (inr (refl, refl))
          encrypted in
      rw (decrypted, bytes_eq_refl old.delta_hash, laws.patch-diff old.json new.json, e)
        (λ i. (
          ok tt,
          record new {
            contract_address = sym same i;
            delta_index = next_index old;
            delta_hash = keccak256_patch c enc;
          },
        ))
