-- ===== src/Tests/ContractState.antt =====
-- Contract states at concrete values: a value is a number, and its patch the new number.
use enigma_core.Prelude.{
  ℕ, ◌≤◌, ◌≡◌, ◌⊎◌, refl, subst, inl, inr, Option, none, some, List, [], ◌∷◌, ◌++◌, arith, length,
  replicate, ltb, if◌then◌else◌, ok, Bool-cases,
}
use enigma_core.ContractState.{
  ContractState, EncryptedContractState, StatePatch, EncryptedPatch, StateCrates, encrypt_patch,
  decrypt_patch, encrypt_state, apply_delta, generate_delta_and_update_state, keccak256_patch,
}
use enigma_core.ContractState.Deltas.{StateLaws, apply_delta-outcome}
use enigma_core.ContractState.Replay.{apply_deltas, start, step, apply_deltas-Generated}
use enigma_core.Tests.Crates.{toy_aead, toy_aead_laws}

abbrev pack_patch : ℕ × List ℕ → Option (List ℕ)
pack_patch p = if ltb (length p.1) 100 then some (p.0 ∷ p.1) else none

abbrev unpack_patch : List ℕ → Option (ℕ × List ℕ)
unpack_patch [] = none
unpack_patch (n ∷ h) = some (n, h)

abbrev pack_state : ℕ × (List ℕ × ℕ) → Option (List ℕ)
pack_state s = if ltb (length s.1.0) 100 then some (s.0 ∷ s.1.1 ∷ s.1.0) else none

abbrev unpack_state : List ℕ → Option (ℕ × (List ℕ × ℕ))
unpack_state [] = none
unpack_state (n ∷ []) = none
unpack_state (n ∷ i ∷ h) = some (n, (h, i))

abbrev pub crates : StateCrates ℕ ℕ
crates = record {
  empty = 0;
  diff = λ old new. new;
  patch = λ p old. some p;
  pack_patch = pack_patch;
  unpack_patch = unpack_patch;
  pack_state = pack_state;
  unpack_state = unpack_state;
  keccak256 = λ b. replicate 32 (length b);
  aead = toy_aead;
}

unpack-packed_patch :
    (p : ℕ × List ℕ) (buf : List ℕ)
    → pack_patch p ≡ some buf
    → (unpack_patch buf ≡ some p) × (length buf ≤ 1000)
unpack-packed_patch p buf h = elim (Bool-cases (ltb (length p.1) 100)) [
  | inr e ↦ absurd (ground arith)
  | inl e ↦
      let made : p.0 ∷ p.1 ≡ buf = ground arith in
      subst (λ b. (unpack_patch b ≡ some p) × (length b ≤ 1000)) made (refl, ground arith)
]

unpack-packed_state :
    (s : ℕ × (List ℕ × ℕ)) (buf : List ℕ)
    → pack_state s ≡ some buf
    → (unpack_state buf ≡ some s) × (length buf ≤ 1000)
unpack-packed_state s buf h = elim (Bool-cases (ltb (length s.1.0) 100)) [
  | inr e ↦ absurd (ground arith)
  | inl e ↦
      let made : s.0 ∷ s.1.1 ∷ s.1.0 ≡ buf = ground arith in
      subst (λ b. (unpack_state b ≡ some s) × (length b ≤ 1000)) made (refl, ground arith)
]

pub laws : StateLaws crates
unfolding toy_aead_laws
laws = record {
  aead = toy_aead_laws;
  patch-diff = λ old new. refl;
  unpack-pack = unpack-packed_patch;
  unpack-pack_state = unpack-packed_state;
}

abbrev pub address : List ℕ
address = 5 ∷ []

abbrev pub at : ℕ → ContractState ℕ
at n = record { contract_address = address; json = n; delta_hash = replicate 32 0; delta_index = 0 }

abbrev pub iv : List ℕ
iv = replicate 12 9

abbrev pub key : List ℕ
key = 1 ∷ []

abbrev pub first_delta : EncryptedPatch
first_delta = record {
  ciphertext = (20 ∷ replicate 32 0) ++ replicate 16 0 ++ iv;
  contract_address = address;
  index = 0;
}

abbrev pub second : ContractState ℕ
second = record (at 20) { delta_hash = replicate 32 61 }

generates :
    generate_delta_and_update_state crates (at 10) key (some iv) (at 20) ≡ (ok first_delta, second)
unfolding generate_delta_and_update_state enigma_core.Exec.◌>>=◌ encrypt_patch
    enigma_core.Crypto.Symmetric.encrypt_with_nonce keccak256_patch
generates = refl

abbrev second_delta : EncryptedPatch
second_delta = record {
  ciphertext = (30 ∷ replicate 32 61) ++ replicate 16 0 ++ iv;
  contract_address = address;
  index = 1;
}

abbrev third : ContractState ℕ
third = record second { json = 30; delta_index = 1 }

generates_next :
    generate_delta_and_update_state crates second key (some iv) (at 30) ≡ (ok second_delta, third)
unfolding generate_delta_and_update_state enigma_core.Exec.◌>>=◌ encrypt_patch
    enigma_core.Crypto.Symmetric.encrypt_with_nonce keccak256_patch
generates_next = refl

apply_deltas-Generated_example :
    apply_deltas crates key (first_delta ∷ second_delta ∷ []) (at 10) ≡ (ok tt, third)
apply_deltas-Generated_example = apply_deltas-Generated crates key laws refl (
    step (at 10) (at 20) iv first_delta refl refl generates
      (step second (at 30) iv second_delta refl refl generates_next (start third)))

-- The second delta does not apply before the first.
apply_delta-outcome_example :
    (((apply_delta crates second_delta key (at 10)).0 ≡ ok tt)
      × (dec : StatePatch ℕ) × (decrypt_patch crates second_delta key ≡ ok dec)
      × (dec.previous_hash ≡ replicate 32 0)
      × ((apply_delta crates second_delta key (at 10)).1.delta_hash
          ≡ keccak256_patch crates second_delta)
      × (some dec.patch ≡ some (apply_delta crates second_delta key (at 10)).1.json))
    ⊎ (¬ ((apply_delta crates second_delta key (at 10)).0 ≡ ok tt)
        × ((apply_delta crates second_delta key (at 10)).1 ≡ at 10))
apply_delta-outcome_example = apply_delta-outcome crates second_delta key (at 10)

abbrev encrypted : EncryptedContractState
encrypted = record {
  contract_address = address;
  json = (30 ∷ 1 ∷ replicate 32 61) ++ replicate 16 0 ++ iv;
}

encrypts : encrypt_state crates third key none (some iv) ≡ ok encrypted
unfolding encrypt_state enigma_core.Crypto.Symmetric.encrypt_with_nonce
encrypts = refl
