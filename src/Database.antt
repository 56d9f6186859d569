-- ===== src/Database.antt =====
-- The database of the worker's host: enigma-core/app/src/db. RocksDB and the hexadecimal coding are
-- other crates' and are parameters. A column family is named by an address in hexadecimal.
pub mod Key
pub mod Crud
pub mod Queries
use Prim.Native.String.{String}
use enigma_core.Prelude.{ℕ, Bool, true, Option, none, some, List, Outcome, ok, err, panic}

-- `DBErrKind` of common_u/errors.rs.
pub data DbErrKind : Type 0 where
  key_exists : String → DbErrKind
  create_error fetch_error : DbErrKind
  missing_key : String → DbErrKind
  update_error missing_keys : DbErrKind

-- What a `failure::Error` of these modules may be: an error of the database's own, with the command
-- and the kind, one of RocksDB or of the hexadecimal coding, or a message of `bail!`.
pub data DbError : Type 0 where
  db_err : String → DbErrKind → DbError
  rocks_error hex_error bail_error : DbError

-- The calls of RocksDB; `none` is an error. `get_cf` may find no value; the iterators give the
-- entries in the order of their keys, `range_iterator` those from the first bound up to the second.
-- `write` applies a batch of puts.
pub record Rocks (D : Type 0) : Type 0 where
  pub cf_handle : String → D → Bool
  pub create_cf : String → D → Option D
  pub drop_cf : String → D → Option D
  pub get_cf : String → List ℕ → D → Option (Option (List ℕ))
  pub put_cf : String → List ℕ → List ℕ → D → Option D
  pub delete_cf : String → List ℕ → D → Option D
  pub prefix_iterator : String → List ℕ → D → Option (List (List ℕ × List ℕ))
  pub range_iterator : String → List ℕ → List ℕ → D → Option (List (List ℕ × List ℕ))
  pub write : List (String × (List ℕ × List ℕ)) → D → Option D
  pub list_cf : D → Option (List String)

pub record Hex : Type 0 where
  pub to_hex : List ℕ → String
  pub from_hex : String → Option (List ℕ)

-- `SplitKey`: a key as the name of its column family and the key inside it, and back.
pub record SplitKey (K : Type 0) : Type 0 where
  pub as_split : K → String × List ℕ
  pub from_split : String → List ℕ → Outcome DbError K

abbrev pub or_rocks : {A : Type 0} → Option A → Outcome DbError A
or_rocks none = err rocks_error
or_rocks (some a) = ok a

abbrev pub or_missing : {A : Type 0} → String → String → Option A → Outcome DbError A
or_missing command hash none = err (db_err command (missing_key hash))
or_missing command hash (some a) = ok a
