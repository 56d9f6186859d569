-- ===== src/ContractState/Replay.antt =====
-- Deltas that were generated one after the other rebuild the state.
use enigma_core.Prelude.{ℕ, ◌≡◌, refl, some, List, [], ◌∷◌, length, true, ok}
use enigma_core.Crypto.Symmetric.{iv_size}
use enigma_core.Exec as Exec
use enigma_core.Exec.{Exec as Handler, pure}
use enigma_core.ContractState.{
  ContractState, EncryptedPatch, StateCrates, apply_delta, generate_delta_and_update_state,
}
use enigma_core.ContractState.Deltas.{StateLaws, apply_delta-generate}

module _ {J P : Type 0} (c : StateCrates J P) (key : List ℕ) where
  -- The loop over the deltas of `build_state` of enigma-core/enclave/src/km_t/principal.rs, up to
  -- the first that fails.
  unfoldable pub apply_deltas : List EncryptedPatch → Handler (ContractState J) (Unit {0})
  apply_deltas [] = pure tt
  apply_deltas (delta ∷ deltas) = Exec.◌>>=◌ (apply_delta c delta key) (λ _. apply_deltas deltas)

  -- Successive states of a contract, and the deltas that were generated between them.
  pub data Generated : ContractState J → List EncryptedPatch → ContractState J → Type 0 where
    start : (s : ContractState J) → Generated s [] s
    step :
        {s' t : ContractState J} {deltas : List EncryptedPatch}
        → (s new : ContractState J) (iv : List ℕ) (enc : EncryptedPatch) → length iv ≡ iv_size
        → new.contract_address ≡ s.contract_address
        → generate_delta_and_update_state c s key (some iv) new ≡ (ok enc, s')
        → Generated s' deltas t
        → Generated s (enc ∷ deltas) t

  -- Applied in order to the first state, with a valid key, the deltas that were generated between
  -- successive states of a contract all apply, and give the last state.
  pub apply_deltas-Generated :
      {s t : ContractState J} {deltas : List EncryptedPatch}
      → StateLaws c
      → c.aead.is_key key ≡ true
      → Generated s deltas t
      → apply_deltas deltas s ≡ (ok tt, t)
  unfolding apply_deltas pure Exec.◌>>=◌
  apply_deltas-Generated laws k (start s) = refl
  apply_deltas-Generated laws k (step {s' = s'} s new iv enc len same run rest) =
      rw (apply_delta-generate c laws s new s' key iv enc k len same run)
        (apply_deltas-Generated laws k rest)
