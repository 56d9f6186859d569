-- ===== src/Listener/Queries.antt =====
-- The requests that read the database.
use Prim.Native.String.{String}
use enigma_core.Prelude.{ℕ, none, some, List, [], ◌∷◌, ◌++◌, map, Outcome, ok, err, panic, ◌>>=◌}
use enigma_core.Database.{Rocks, Hex}
use enigma_core.Database.Key.{DeltaKey, delta_key, delta, unwrap_delta}
use enigma_core.Database.Queries as Db
use enigma_core.Database.Queries.{ResultType}
use enigma_core.Listener as Listener
use enigma_core.Listener.{
  IpcDelta, IpcDeltasRange, IpcResponse, IpcResults, ListenerError, or_database, or_p2p,
  contract_address_from_hex, from_delta_key,
}

-- `unwrap` of a result.
abbrev or_panic : {A : Type 0} → Outcome ListenerError A → Outcome ListenerError A
or_panic (ok a) = ok a
or_panic (err e) = panic
or_panic panic = panic

-- `unwrap_or_default` of a list.
abbrev or_default : {E A : Type 0} → Outcome E (List A) → Outcome ListenerError (List A)
or_default (ok l) = ok l
or_default (err e) = ok []
or_default panic = panic

abbrev default_delta : IpcDelta
default_delta = record { contract_address = none; key = 0; bytes = none }

module _ {D : Type 0} (r : Rocks D) (h : Hex) where
  abbrev addresses_from_hex : List String → Outcome ListenerError (List (List ℕ))
  addresses_from_hex [] = ok []
  addresses_from_hex (s ∷ input) = do
    address ← or_panic (contract_address_from_hex h s)
    addresses ← addresses_from_hex input
    ok (address ∷ addresses)

  abbrev from_delta_keys : List (DeltaKey × List ℕ) → Outcome ListenerError (List IpcDelta)
  from_delta_keys [] = ok []
  from_delta_keys ((k, v) ∷ kvs) = do
    d ← from_delta_key h k v
    ds ← from_delta_keys kvs
    ok (d ∷ ds)

  unfoldable pub get_tip : String → D → Outcome ListenerError IpcResponse
  get_tip input db = do
    address ← contract_address_from_hex h input
    tip ← or_database (Db.get_tip r h (delta_key h) address db)
    key ← or_database (unwrap_delta (tip.0.key_type))
    ok (
        Listener.get_tip_response
          (record { contract_address = none; key = key; bytes = some tip.1 }))

  unfoldable pub get_tips : List String → D → Outcome ListenerError IpcResponse
  get_tips input db = do
    addresses ← addresses_from_hex input
    tips ← or_database (Db.get_tips r h (delta_key h) addresses db)
    tips_results ← from_delta_keys tips
    ok (Listener.get_tips_response (Listener.tips tips_results))

  unfoldable pub get_all_tips : D → Outcome ListenerError IpcResponse
  get_all_tips db = do
    tips ← or_default (Db.get_all_tips r h (delta_key h) db)
    tips_results ← from_delta_keys tips
    ok (Listener.get_all_tips_response (Listener.tips tips_results))

  unfoldable pub get_all_addrs : D → Outcome ListenerError IpcResponse
  get_all_addrs db = do
    addresses ← or_default (Db.get_all_addresses r h (delta_key h) db)
    ok (Listener.get_all_addrs_response (Listener.addresses (map h.to_hex addresses)))

  unfoldable pub get_delta : IpcDelta → D → Outcome ListenerError IpcResponse
  get_delta input db = do
    hex_address ← or_p2p "GetDelta" "Address Missing" input.contract_address
    address ← contract_address_from_hex h hex_address
    value ← or_database (
        Db.get_delta r h (delta_key h)
          (record { contract_address = address; key_type = delta input.key }) db)
    ok (Listener.get_delta_response (Listener.one_delta (h.to_hex value)))

  -- The entries of a range; none at all gives one empty delta.
  abbrev range_results :
      ResultType (List (DeltaKey × List ℕ)) → Outcome ListenerError (List IpcDelta)
  range_results (ResultType.full kvs) = from_delta_keys kvs
  range_results (ResultType.partial kvs) = from_delta_keys kvs
  range_results ResultType.nothing = ok (default_delta ∷ [])

  abbrev get_range : D → IpcDeltasRange → Outcome ListenerError (List IpcDelta)
  get_range db input = do
    address ← contract_address_from_hex h input.address
    db_res ← or_database (
        Db.get_deltas r h (delta_key h)
          (record { contract_address = address; key_type = delta input.from })
          (record { contract_address = address; key_type = delta input.to }) db)
    range_results db_res

  abbrev get_ranges : D → List IpcDeltasRange → Outcome ListenerError (List IpcDelta)
  get_ranges db [] = ok []
  get_ranges db (range ∷ input) = do
    ds ← get_range db range
    rest ← get_ranges db input
    ok (ds ++ rest)

  unfoldable pub get_deltas : List IpcDeltasRange → D → Outcome ListenerError IpcResponse
  get_deltas input db = do
    results ← get_ranges db input
    ok (Listener.get_deltas_response (Listener.deltas results))

  unfoldable pub get_contract : String → D → Outcome ListenerError IpcResponse
  get_contract input db = do
    address ← contract_address_from_hex h input
    bytecode ← or_default (Db.get_contract r h (delta_key h) address db)
    ok (Listener.get_contract_response (Listener.contract (h.to_hex address) bytecode))
