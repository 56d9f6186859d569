-- ===== src/Listener/Updates.antt =====
-- The requests that change the database.
use Prim.Native.String.{String}
use enigma_core.Prelude.{
  ℕ, zero, suc, ◌-◌, Bool, true, false, ◌||◌, Option, none, some, List, [], ◌∷◌, ◌++◌, Outcome, ok,
  err, panic,
}
use enigma_core.Prelude as Prelude
use enigma_core.Exec.{lift, pure, ◌>>=◌}
use enigma_core.Database.{DbError, Rocks, Hex}
use enigma_core.Database.Key.{Stype, DeltaKey, delta_key, delta, state, byte_code, unwrap_delta}
use enigma_core.Database.Crud as Crud
use enigma_core.Database.Queries as Db
use enigma_core.Listener as Listener
use enigma_core.Listener.{
  ℤ, Status, passed, failed, IpcDelta, IpcDeltasRange, IpcStatusResult, IpcResponse, IpcResults,
  ListenerError, Handler, or_database, or_p2p, or_hex_error, contract_address_from_hex, answered,
  on_database, update_state_status, deleted_status,
}

-- `is_err` of a result.
abbrev is_err : {A : Type 0} → Outcome DbError A → Bool
is_err (ok _) = false
is_err (err _) = true
is_err panic = true

abbrev any_is_err : List (Outcome DbError (Unit {0})) → Bool
any_is_err [] = false
any_is_err (r ∷ results) = is_err r || any_is_err results

abbrev status_of : Bool → Status
status_of true = failed
status_of false = passed

-- `FAILED_STATE`.
abbrev failed_state : ℤ
failed_state = ℤ.negsuc 0

-- The keys of `from..to`, as many as their difference.
unfoldable pub indices : ℕ → ℕ → List ℕ
indices from zero = []
indices from (suc count) = from ∷ indices (suc from) count

abbrev pub keys_of : IpcDeltasRange → List ℕ
keys_of range = indices range.from (range.to - range.from)

-- The overall status: failed exactly when an error was pushed.
abbrev overall_status : List IpcStatusResult → Status
overall_status [] = passed
overall_status (_ ∷ _) = failed

abbrev failure_of : String → ℤ → Status → List IpcStatusResult
failure_of address key failed = record { address = address; key = some key; status = failed } ∷ []
failure_of address key passed = []

abbrev any_failed : List IpcStatusResult → Status
any_failed [] = passed
any_failed (s ∷ rest) = elim s.status [ failed ↦ failed | passed ↦ any_failed rest ]

module _ (h : Hex) where
  -- The bytecode and the delta, with their keys.
  abbrev deployment_tuples :
      String → String → IpcDelta → Outcome ListenerError (List (DeltaKey × List ℕ))
  deployment_tuples address bytecode d =
      Prelude.◌>>=◌ (contract_address_from_hex h address) (λ address_arr.
        Prelude.◌>>=◌ (or_hex_error (h.from_hex bytecode)) (λ bytes.
          Prelude.◌>>=◌ (or_p2p "UpdateNewContractOnDeployment" "Delta Data Missing" d.bytes)
            (λ value. ok (
              (record { contract_address = address_arr; key_type = byte_code }, bytes)
              ∷ (record { contract_address = address_arr; key_type = delta d.key }, value)
              ∷ []))))

  abbrev delta_tuple : IpcDelta → Outcome ListenerError (DeltaKey × List ℕ)
  delta_tuple d =
      Prelude.◌>>=◌ (or_p2p "UpdateDeltas" "Address Missing" d.contract_address) (λ hex_address.
        Prelude.◌>>=◌ (contract_address_from_hex h hex_address) (λ address.
          Prelude.◌>>=◌ (or_p2p "UpdateDeltas" "Delta Data Missing" d.bytes)
            (λ value. ok (record { contract_address = address; key_type = delta d.key }, value))))

  unfoldable pub delta_tuples : List IpcDelta → Outcome ListenerError (List (DeltaKey × List ℕ))
  delta_tuples [] = ok []
  delta_tuples (d ∷ deltas) =
      Prelude.◌>>=◌ (delta_tuple d)
        (λ tuple. Prelude.◌>>=◌ (delta_tuples deltas) (λ tuples. ok (tuple ∷ tuples)))

  -- `zip` stops with the shorter list: a batch that was not written has one result.
  unfoldable pub statuses :
      List (DeltaKey × List ℕ)
      → List (Outcome DbError (Unit {0}))
      → Outcome ListenerError (List IpcStatusResult)
  statuses [] results = ok []
  statuses (_ ∷ _) [] = ok []
  statuses ((k, _) ∷ tuples) (res ∷ results) =
      Prelude.◌>>=◌ (or_database (unwrap_delta k.key_type)) (λ index.
        Prelude.◌>>=◌ (statuses tuples results) (λ rest. ok (
          record {
            address = h.to_hex k.contract_address;
            key = some (ℤ.pos index);
            status = status_of (is_err res);
          }
          ∷ rest)))

module _ {S D : Type 0} (r : Rocks D) (h : Hex) where
  unfoldable pub update_new_contract : String → List ℕ → Handler S D IpcResponse
  update_new_contract address bytecode = do
    address_arr ← lift (contract_address_from_hex h address)
    _ ← on_database (
        Crud.force_update r (delta_key h)
          (record { contract_address = address_arr; key_type = byte_code }) bytecode)
    pure (Listener.update_new_contract_response address (Listener.one_status passed))

  unfoldable pub update_new_contract_on_deployment :
      String → String → IpcDelta → Handler S D IpcResponse
  update_new_contract_on_deployment address bytecode d = do
    tuples ← lift (deployment_tuples h address bytecode d)
    results ← answered (Db.insert_tuples r h (delta_key h) tuples)
    _ ← update_state_status false
    pure (
        Listener.update_new_contract_on_deployment_response address
          (Listener.one_status (status_of (any_is_err results))))

  unfoldable pub remove_contract : String → Handler S D IpcResponse
  remove_contract address = do
    addr_arr ← lift (contract_address_from_hex h address)
    result ← answered (
        Crud.delete_contract r (delta_key h)
          (record { contract_address = addr_arr; key_type = byte_code }))
    status ← lift (deleted_status result)
    pure (Listener.remove_contract_response address (Listener.one_status status))

  unfoldable pub update_deltas : List IpcDelta → Handler S D IpcResponse
  update_deltas deltas = do
    tuples ← lift (delta_tuples h deltas)
    results ← answered (Db.insert_tuples r h (delta_key h) tuples)
    errors ← lift (statuses h tuples results)
    _ ← update_state_status false
    pure (Listener.update_deltas_response (Listener.deltas_result (any_failed errors) errors))

  unfoldable pub delete_data_from_db : String → Stype → Handler S D Status
  delete_data_from_db addr key_type = do
    addr_arr ← lift (contract_address_from_hex h addr)
    result ←
        answered (
          Crud.delete r (delta_key h) (record { contract_address = addr_arr; key_type = key_type }))
    lift (deleted_status result)

  unfoldable pub remove_keys : String → List ℕ → Handler S D (List IpcStatusResult)
  remove_keys address [] = pure []
  remove_keys address (key ∷ keys) = do
    status ← delete_data_from_db address (delta key)
    rest ← remove_keys address keys
    pure (failure_of address (ℤ.pos key) status ++ rest)

  unfoldable pub remove_ranges : List IpcDeltasRange → Handler S D (List IpcStatusResult)
  remove_ranges [] = pure []
  remove_ranges (range ∷ input) = do
    errors ← remove_keys range.address (keys_of range)
    status ← delete_data_from_db range.address state
    rest ← remove_ranges input
    pure (errors ++ failure_of range.address failed_state status ++ rest)

  unfoldable pub remove_deltas : List IpcDeltasRange → Handler S D IpcResponse
  remove_deltas input = do
    errors ← remove_ranges input
    _ ← update_state_status false
    pure (Listener.remove_deltas_response (Listener.deltas_result (overall_status errors) errors))
