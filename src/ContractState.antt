-- ===== src/ContractState.antt =====
-- The state of a contract and its deltas: enigma-runtime-t/src/data/state.rs and delta.rs. JSON
-- values, their patches, MessagePack and Keccak are other crates' and are parameters.
pub mod Deltas
pub mod Replay
pub mod RoundTrip
use enigma_core.Prelude.{
  ℕ, ◌+◌, ◌%◌, ◌^◌, Bool, ◌&&◌, Option, none, some, List, [], ◌∷◌, replicate, bytes_eq, ◌==◌,
  if◌then◌else◌, Outcome, ok, err, panic, ◌>>=◌,
}
use enigma_core.Crypto.Symmetric as Symmetric
use enigma_core.Crypto.Symmetric.{Aead}
use enigma_core.Errors.{EnclaveError, system_error, state_error}
use enigma_core.Exec as Exec
use enigma_core.Exec.{Exec as Handler, pure, lift, check, modify}
use enigma_core.StateKeys.Request.{from_crypto}

-- `json` is `serde_json::Value`.
pub record ContractState (J : Type 0) : Type 0 where
  pub contract_address : List ℕ
  pub json : J
  pub delta_hash : List ℕ
  pub delta_index : ℕ

pub record EncryptedContractState : Type 0 where
  pub contract_address : List ℕ
  pub json : List ℕ

pub record StatePatch (P : Type 0) : Type 0 where
  pub patch : P
  pub previous_hash : List ℕ
  pub contract_address : List ℕ
  pub index : ℕ

-- `ciphertext` is the field `data`.
pub record EncryptedPatch : Type 0 where
  pub ciphertext : List ℕ
  pub contract_address : List ℕ
  pub index : ℕ

-- `diff` and `patch` of json_patch (a failed patch changes nothing), and the serialization of the
-- fields that are not skipped.
pub record StateCrates (J P : Type 0) : Type 0 where
  pub empty : J
  pub diff : J → J → P
  pub patch : P → J → Option J
  pub pack_patch : P × List ℕ → Option (List ℕ)
  pub unpack_patch : List ℕ → Option (P × List ℕ)
  pub pack_state : J × (List ℕ × ℕ) → Option (List ℕ)
  pub unpack_state : List ℕ → Option (J × (List ℕ × ℕ))
  pub keccak256 : List ℕ → List ℕ
  pub aead : Aead

abbrev pub zero_hash : List ℕ
zero_hash = replicate 32 0

abbrev pub or_state_error : {A : Type 0} → Option A → Outcome EnclaveError A
or_state_error none = err (system_error state_error)
or_state_error (some a) = ok a

-- The next index; `u32` wraps.
abbrev pub next_index : {J : Type 0} → ContractState J → ℕ
next_index old = if bytes_eq old.delta_hash zero_hash then 0 else (old.delta_index + 1) % 2 ^ 32

unfoldable pub is_initial : {J : Type 0} → ContractState J → Bool
is_initial s = (s.delta_index == 0) && bytes_eq s.delta_hash zero_hash

module _ {J P : Type 0} (c : StateCrates J P) where
  unfoldable pub new : List ℕ → ContractState J
  new contract_address = record {
    contract_address = contract_address;
    json = c.empty;
    delta_hash = zero_hash;
    delta_index = 0;
  }

  unfoldable pub keccak256_patch : EncryptedPatch → List ℕ
  keccak256_patch delta = c.keccak256 delta.ciphertext

  -- `Encryption` of `StatePatch`, with the given nonce, or the drawn one where none is given.
  unfoldable pub encrypt_patch :
      StatePatch P
      → List ℕ
      → Option (List ℕ)
      → Option (List ℕ)
      → Outcome EnclaveError EncryptedPatch
  encrypt_patch p key given drawn = do
    buf ← or_state_error (c.pack_patch (p.patch, p.previous_hash))
    ciphertext ← from_crypto (Symmetric.encrypt_with_nonce c.aead buf key given drawn)
    ok (record { ciphertext = ciphertext; contract_address = p.contract_address; index = p.index })

  unfoldable pub decrypt_patch : EncryptedPatch → List ℕ → Outcome EnclaveError (StatePatch P)
  decrypt_patch enc key = do
    dec ← from_crypto (Symmetric.decrypt c.aead enc.ciphertext key)
    back ← or_state_error (c.unpack_patch dec)
    ok (record {
      patch = back.0;
      previous_hash = back.1;
      contract_address = enc.contract_address;
      index = enc.index;
    })

  -- The comparison of the hashes.
  abbrev pub follows : StatePatch P → ContractState J → Outcome EnclaveError (Unit {0})
  follows dec s =
      if bytes_eq dec.previous_hash s.delta_hash then ok tt else err (system_error state_error)

  unfoldable pub apply_delta : EncryptedPatch → List ℕ → Handler (ContractState J) (Unit {0})
  apply_delta delta key = Exec.◌>>=◌ (lift (decrypt_patch delta key)) (λ dec.
      Exec.◌>>=◌ (check (follows dec)) (λ _.
        Exec.◌>>=◌ (check (λ s. or_state_error (c.patch dec.patch s.json))) (λ json. modify (λ s.
          record s { json = json; delta_hash = keccak256_patch delta; delta_index = dec.index }))))

  abbrev delta_between : ContractState J → ContractState J → StatePatch P
  delta_between old new = record {
    patch = c.diff old.json new.json;
    previous_hash = old.delta_hash;
    contract_address = old.contract_address;
    index = new.delta_index;
  }

  -- The state of the handler is `new`; `drawn` is the nonce that the encryption draws.
  unfoldable pub generate_delta_and_update_state :
      ContractState J → List ℕ → Option (List ℕ) → Handler (ContractState J) EncryptedPatch
  generate_delta_and_update_state old key drawn =
      Exec.◌>>=◌ (modify (λ new. record new { delta_index = next_index old })) (λ _.
        Exec.◌>>=◌ (check (λ new. encrypt_patch (delta_between old new) key none drawn))
          (λ enc_delta.
            Exec.◌>>=◌ (modify (λ new. record new { delta_hash = keccak256_patch enc_delta }))
              (λ _. pure enc_delta)))

  -- `Encryption` of `ContractState`.
  unfoldable pub encrypt_state :
      ContractState J
      → List ℕ
      → Option (List ℕ)
      → Option (List ℕ)
      → Outcome EnclaveError EncryptedContractState
  encrypt_state s key given drawn = do
    buf ← or_state_error (c.pack_state (s.json, (s.delta_hash, s.delta_index)))
    enc ← from_crypto (Symmetric.encrypt_with_nonce c.aead buf key given drawn)
    ok (record { contract_address = s.contract_address; json = enc })

  unfoldable pub decrypt_state :
      EncryptedContractState → List ℕ → Outcome EnclaveError (ContractState J)
  decrypt_state enc key = do
    dec ← from_crypto (Symmetric.decrypt c.aead enc.json key)
    back ← or_state_error (c.unpack_state dec)
    ok (record {
      contract_address = enc.contract_address;
      json = back.0;
      delta_hash = back.1.0;
      delta_index = back.1.1;
    })
