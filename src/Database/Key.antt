-- ===== src/Database/Key.antt =====
-- The keys of the database: db/primitives.rs.
pub mod Order
pub mod RoundTrip
use Prim.Native.String.{String}
use enigma_core.Prelude.{
  ℕ, Option, none, some, List, [], ◌∷◌, length, ◌==◌, if◌then◌else◌, to_be_bytes, from_be_bytes,
  Outcome, ok, err, panic, ◌>>=◌,
}
use enigma_core.Database.{DbError, hex_error, bail_error, Hex, SplitKey}

pub data Stype : Type 0 where
  delta : ℕ → Stype
  state byte_code : Stype

pub record DeltaKey : Type 0 where
  pub contract_address : List ℕ
  pub key_type : Stype

unfoldable pub unwrap_delta : Stype → Outcome DbError ℕ
unwrap_delta (delta val) = ok val
unwrap_delta state = panic
unwrap_delta byte_code = panic

-- The key inside the column family: a byte for the type, and the index of a delta.
unfoldable pub type_key : Stype → List ℕ
type_key (delta num) = 1 ∷ to_be_bytes 4 num
type_key state = 2 ∷ []
type_key byte_code = 3 ∷ []

-- Back: no byte, and an index that is not of 4 bytes, panic.
unfoldable pub key_type_of : List ℕ → Outcome DbError Stype
key_type_of [] = panic
key_type_of (tag ∷ rest) =
    if tag == 1
    then if length rest == 4 then ok (delta (from_be_bytes rest)) else panic
    else if tag == 2
    then ok state
    else if tag == 3
    then ok byte_code
    else err bail_error

abbrev pub or_hex : Option (List ℕ) → Outcome DbError (List ℕ)
or_hex none = err hex_error
or_hex (some bytes) = ok bytes

module _ (h : Hex) where
  unfoldable pub delta_as_split : DeltaKey → String × List ℕ
  delta_as_split k = (h.to_hex k.contract_address, type_key k.key_type)

  -- `Hash256::from_hex` wants 64 characters, which are 32 bytes.
  unfoldable pub hash_from_hex : String → Outcome DbError (List ℕ)
  hash_from_hex s = do
    bytes ← or_hex (h.from_hex s)
    if length bytes == 32 then ok bytes else err hex_error

  unfoldable pub delta_from_split : String → List ℕ → Outcome DbError DeltaKey
  unfolding hash_from_hex
  delta_from_split hash key = do
    key_type ← key_type_of key
    contract_address ← hash_from_hex hash
    ok (record { contract_address = contract_address; key_type = key_type })

  abbrev pub delta_key : SplitKey DeltaKey
  delta_key = record { as_split = delta_as_split; from_split = delta_from_split }

  -- `SplitKey for Array32u8`.
  unfoldable pub array_as_split : List ℕ → String × List ℕ
  array_as_split a = (h.to_hex a, 2 ∷ [])

  unfoldable pub array_from_split : String → List ℕ → Outcome DbError (List ℕ)
  array_from_split hash key = do
    bytes ← or_hex (h.from_hex hash)
    if length bytes == 32 then ok bytes else err bail_error
