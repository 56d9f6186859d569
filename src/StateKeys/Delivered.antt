-- ===== src/StateKeys/Delivered.antt =====
-- A response reaches the worker that asked for it.
use enigma_core.Prelude.{
  ℕ, ◌≤◌, ◌≡◌, inl, inr, refl, sym, ap, ◌∙◌, subst, Option, none, some, List, arith, length, true,
  ok, Outcome-cases, Outcome-ok_of, Option-cases, Option-some_of,
}
use enigma_core.Crypto.Symmetric.{iv_size}
use enigma_core.Crypto.Symmetric.RoundTrip.{AeadLaws}
use enigma_core.Exec as Exec
use enigma_core.Storage.{FileSystem}
use enigma_core.Messages.{
  PrincipalMessage, AddressedKey, response, encrypted_response, into_message, from_message,
  encrypt_with_nonce, decrypt, new_id,
}
use enigma_core.Messages.RoundTrip.{FormatsLaws, from_message-into_message, decrypt-encrypted}
use enigma_core.Epoch.Keeper.{Keeper}
use enigma_core.StateKeys.{KeyStore}
use enigma_core.StateKeys.Answers.{addresses, Cached, build_response-ok}
use enigma_core.StateKeys.Request.{
  RequestCrates, KeysRequest, Opened, open_request, check_workers, seal_response, answer,
  get_enc_state_keys,
}

-- What a delivery relies on: the codings, the cipher, and the agreement of keys.
pub record DeliveryLaws {K : Type 0} (c : RequestCrates K) : Type 0 where
  pub formats : FormatsLaws c.formats
  pub aead : AeadLaws c.aead
  pub agreement : (k k' : K) → c.derive_key k (c.pair_pubkey k') ≡ c.derive_key k' (c.pair_pubkey k)
  pub is_key : (k : K) (p key : List ℕ) → c.derive_key k p ≡ ok key → c.aead.is_key key ≡ true
  pub length-pubkey : (k : K) → length (c.pair_pubkey k) ≡ 64

module _ {K S : Type 0} (c : RequestCrates K) (fs : FileSystem S) where
  -- What a successful sealing was made of.
  record IsSealed (r : KeysRequest K) (o : Opened) (keys : List AddressedKey) (bytes : List ℕ)
      : Type 0 where
    pair : K
    derived : List ℕ
    derived-eq : c.derive_key pair o.user_pubkey ≡ ok derived
    enc : PrincipalMessage
    enc-eq :
        encrypt_with_nonce c.formats c.aead
          (new_id (response keys) o.msg.id (c.pair_pubkey pair))
          derived
          none
          r.iv
        ≡ ok enc
    sent : into_message c.formats enc ≡ ok bytes

  seal_response-ok :
      (r : KeysRequest K) (o : Opened) (keys : List AddressedKey) (bytes sig : List ℕ)
      → seal_response c fs r o keys ≡ ok (bytes, sig)
      → IsSealed r o keys bytes
  unfolding seal_response
  seal_response-ok r o keys bytes sig h =
      let (pair, p) = Option-some_of r.new_pair (λ k. ground arith) in
      let (derived, d) =
        Outcome-ok_of (c.derive_key pair o.user_pubkey) (λ x k. ground arith) (λ k. ground arith) in
      let msg = new_id (response keys) o.msg.id (c.pair_pubkey pair) in
      let (enc, e) =
        Outcome-ok_of (encrypt_with_nonce c.formats c.aead msg derived none r.iv)
          (λ x k. ground arith) (λ k. ground arith) in
      let (bytes', m) =
        Outcome-ok_of (into_message c.formats enc) (λ x k. ground arith) (λ k. ground arith) in
      record {
        pair = pair;
        derived = derived;
        derived-eq = d;
        enc = enc;
        enc-eq = e;
        sent = ground arith;
      }

  answer-ok :
      (epochs : Keeper S) (r : KeysRequest K) (o : Opened) (s s' : KeyStore S) (x : List ℕ × List ℕ)
      → open_request c fs r ≡ ok o
      → get_enc_state_keys c fs epochs r s ≡ some (ok x, s')
      → answer c fs r o s ≡ (ok x, s')
  unfolding get_enc_state_keys
  answer-ok epochs r o s s' x h run =
      let nonce = c.epoch.hashing.uint256.from_big_endian r.epoch_nonce in
      elim (Option-cases (check_workers c fs o.signer nonce r.sc_addrs epochs)) [
        | inl f ↦ absurd (ground arith)
        | inr (w, f) ↦ elim (Outcome-cases w) [
          | inl (u, g) ↦ ground arith
          | inr failed ↦ absurd (ground arith)
        ]
      ]

  -- The response of a served request, for the worker whose public key the request carries: it is a
  -- message with the request's id, and the key that the worker derives from the message's public key
  -- decrypts it to the requested addresses with their cached keys. The packing of these keys
  -- must be within the cipher's limit and the drawn nonce of 12 bytes.
  pub get_enc_state_keys-delivered :
      (laws : DeliveryLaws c) (epochs : Keeper S) (r : KeysRequest K) (o : Opened) (worker : K)
      (s s' : KeyStore S) (bytes sig iv : List ℕ)
      → open_request c fs r ≡ ok o
      → o.user_pubkey ≡ c.pair_pubkey worker
      → r.iv ≡ some iv
      → length iv ≡ iv_size
      → ((keys : List AddressedKey) (buf : List ℕ)
          → addresses keys ≡ r.sc_addrs
          → Cached s'.keys keys
          → c.formats.pack_keys keys ≡ some buf
          → length buf ≤ laws.aead.max_message)
      → get_enc_state_keys c fs epochs r s ≡ some (ok (bytes, sig), s')
      → (keys : List AddressedKey) × (m : PrincipalMessage) × (key : List ℕ) × (addresses keys
          ≡ r.sc_addrs)
        × Cached s'.keys keys
        × (from_message c.formats bytes ≡ ok m)
        × (m.id ≡ o.msg.id)
        × (c.derive_key worker m.pubkey ≡ ok key)
        × (decrypt c.formats c.aead m key ≡ ok (record m { body = response keys }))
  unfolding answer new_id
  get_enc_state_keys-delivered laws epochs r o worker s s' bytes sig iv opened from drawn len fits
        run =
      let (keys, s₁, built, sealing) =
        Exec.>>=-eq-ok _ _ s s' (bytes, sig) (answer-ok epochs r o s s' (bytes, sig) opened run) in
      let stay : s₁ ≡ s' = unfold Exec.lift in ap (λ p. p.1) sealing in
      let g = seal_response-ok r o keys bytes sig (unfold Exec.lift in ap (λ p. p.0) sealing) in
      let (asked, cached) = build_response-ok c.keys fs r.sc_addrs s s₁ keys built in
      let (buf, packed) =
        pack_keys-ok keys o.msg.id (c.pair_pubkey g.pair) g.derived r.iv g.enc g.enc-eq in
      let (enc, encrypted, decrypted) =
        decrypt-encrypted c.formats c.aead laws.formats laws.aead keys (c.pair_pubkey g.pair)
          o.msg.id g.derived iv buf none r.iv packed
          (fits keys buf asked (subst (λ t. Cached t.keys keys) stay cached) packed)
          (laws.is_key g.pair o.user_pubkey g.derived g.derived-eq) len (inr (refl, drawn)) in
      let same : g.enc
          ≡ record { body = encrypted_response enc; pubkey = c.pair_pubkey g.pair; id = o.msg.id } =
        cc (g.enc-eq, encrypted) in
      (
        keys,
        record { body = encrypted_response enc; pubkey = c.pair_pubkey g.pair; id = o.msg.id },
        g.derived,
        asked,
        subst (λ t. Cached t.keys keys) stay cached,
        from_message-into_message c.formats laws.formats _ bytes (laws.length-pubkey g.pair)
            (subst (λ x. into_message c.formats x ≡ ok bytes) same g.sent),
        refl,
        laws.agreement worker g.pair ∙ sym (ap (c.derive_key g.pair) from) ∙ g.derived-eq,
        decrypted,
      )
    where
      pack_keys-ok :
          (keys : List AddressedKey) (id pubkey key : List ℕ) (drawn : Option (List ℕ))
          (enc : PrincipalMessage)
          → encrypt_with_nonce c.formats c.aead (new_id (response keys) id pubkey) key none drawn
            ≡ ok enc
          → (buf : List ℕ) × (c.formats.pack_keys keys ≡ some buf)
      pack_keys-ok keys id pubkey key drawn enc h =
          unfold encrypt_with_nonce new_id in
          Option-some_of (c.formats.pack_keys keys) (λ k. ground arith)
