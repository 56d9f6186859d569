-- ===== src/Worker/Build.antt =====
-- `ecall_build_state_internal` of principal.rs, with `encrypt_state` and `get_state` of mod.rs. The
-- calls to the host are a parameter. Contracts are taken in the order of the list of keys.
use enigma_core.Prelude.{
  ℕ, zero, suc, ◌+◌, ◌-◌, ◌%◌, ◌^◌, Bool, true, false, Option, none, some, List, [], ◌∷◌, ◌++◌,
  length, ◌==◌, ltb, if◌then◌else◌, Outcome, ok, err, panic, ◌>>=◌,
}
use enigma_core.Errors.{EnclaveError}
use enigma_core.Exec as Exec
use enigma_core.Exec.{Exec as Handler, pure, lift}
use enigma_core.ContractState.{
  ContractState, EncryptedContractState, EncryptedPatch, StateCrates, encrypt_state, decrypt_state,
  new,
}
use enigma_core.ContractState.Replay.{apply_deltas}
use enigma_core.StateKeys.Store.{KeyMap, get}
use enigma_core.Worker.{or_missing_key}

-- `get_state`, `get_deltas` and `save_state` of the host, on its store.
pub record Host (D : Type 0) : Type 0 where
  pub get_state : List ℕ → D → Outcome EnclaveError EncryptedContractState
  pub get_deltas : List ℕ → ℕ → ℕ → D → Outcome EnclaveError (List EncryptedPatch)
  pub save_state : EncryptedContractState → Handler D (Unit {0})

abbrev pub u32_max : ℕ
u32_max = 2 ^ 32 - 1

-- `encrypt_state` and `get_state` of mod.rs.
module _ {J P D : Type 0} (c : StateCrates J P) (host : Host D) (keys : KeyMap) where
  unfoldable pub encrypt_known :
      ContractState J → Option (List ℕ) → Outcome EnclaveError EncryptedContractState
  encrypt_known state drawn = do
    key ← or_missing_key "State Key" (get state.contract_address keys)
    encrypt_state c state key none drawn

  unfoldable pub get_known : List ℕ → D → Outcome EnclaveError (ContractState J)
  get_known addr db = do
    key ← or_missing_key "State Key" (get addr keys)
    enc_state ← host.get_state addr db
    decrypt_state c enc_state key

-- `drawn` is the nonce that the encryption of the state draws. The results say whether the contract
-- failed.
module _ {J P D : Type 0} (c : StateCrates J P) (host : Host D) where
  module _ (addrs key : List ℕ) (drawn : Option (List ℕ)) where
    -- Encrypts and saves the state. The contract fails if `failing` is set or the encryption fails.
    unfoldable pub save_latest : Bool → ContractState J → Handler D Bool
    save_latest failing state = elim (encrypt_state c state key none drawn) [
      | ok enc ↦ Exec.◌>>=◌ (host.save_state enc) (λ _. pure failing)
      | err _ ↦ pure true
      | panic ↦ lift panic
    ]

    -- Where to start, and from which state; `none` if the stored state does not decrypt.
    unfoldable pub start_state : D → Outcome EnclaveError (Option (ℕ × ContractState J))
    start_state db = elim (host.get_state addrs db) [
      | ok enc_state ↦ elim (decrypt_state c enc_state key) [
        | ok state ↦ ok (some ((state.delta_index + 1) % 2 ^ 32, state))
        | err _ ↦ ok none
        | panic ↦ panic
      ]
      | err _ ↦ ok (some (0, new c addrs))
      | panic ↦ panic
    ]

    -- The `while` loop over batches of 500 deltas, on fuel; `end` wraps, and so does `end - start`.
    unfoldable pub build_batches :
        ℕ → ℕ → ContractState J → D → Option (Outcome EnclaveError Bool × D)
    build_batches zero start state db = none
    build_batches (suc fuel) start state db =
        let end = (start + 500) % 2 ^ 32 in
        elim (ltb start u32_max) [
          | false ↦ some (save_latest false state db)
          | true ↦ elim (host.get_deltas addrs start end db) [
            | panic ↦ some (panic, db)
            | err _ ↦ some (save_latest false state db)
            | ok deltas ↦
                let (applied, state') = apply_deltas c key deltas state in
                elim applied [
                  | panic ↦ some (panic, db)
                  | err _ ↦ some (save_latest true state' db)
                  | ok _ ↦
                      build_batches fuel (if length deltas == 500 then end else u32_max) state' db
                ]
          ]
        ]

    unfoldable pub build_contract : ℕ → D → Option (Outcome EnclaveError Bool × D)
    build_contract fuel db = elim (start_state db) [
      | panic ↦ some (panic, db)
      | err e ↦ some (err e, db)
      | ok none ↦ some (ok true, db)
      | ok (some (start, state)) ↦ build_batches fuel start state db
    ]

  -- The failed contracts before and among the rest.
  abbrev with_rest :
      List (List ℕ)
      → Option (Outcome EnclaveError (List (List ℕ)) × D)
      → Option (Outcome EnclaveError (List (List ℕ)) × D)
  with_rest failed none = none
  with_rest failed (some (panic, db)) = some (panic, db)
  with_rest failed (some (err e, db)) = some (err e, db)
  with_rest failed (some (ok rest, db)) = some (ok (failed ++ rest), db)

  -- The contracts that failed. `draws` gives the nonce of each contract.
  unfoldable pub build_state :
      ℕ
      → (List ℕ → Option (List ℕ))
      → KeyMap
      → D
      → Option (Outcome EnclaveError (List (List ℕ)) × D)
  build_state fuel draws [] db = some (ok [], db)
  build_state fuel draws ((addrs, key) ∷ keys) db =
      elim (build_contract addrs key (draws addrs) fuel db) [
        | none ↦ none
        | some (outcome, db') ↦ elim outcome [
          | panic ↦ some (panic, db')
          | err e ↦ some (err e, db')
          | ok failed ↦
              with_rest (if failed then addrs ∷ [] else []) (build_state fuel draws keys db')
        ]
      ]
