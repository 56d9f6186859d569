-- ===== src/Database/Crud.antt =====
-- `CRUDInterface` of db/dal.rs: one column family per contract.
pub mod Laws
use Prim.Native.String.{String}
use enigma_core.Prelude.{
  ℕ, Bool, true, false, Option, none, some, List, if◌then◌else◌, Outcome, ok, err, panic, ◌>>=◌,
}
use enigma_core.Database.{
  DbError, db_err, rocks_error, key_exists, missing_key, Rocks, SplitKey, or_rocks, or_missing,
}

-- What an operation that changes the database gives back.
abbrev pub Write : Type 0 → Type 0
Write D = Outcome DbError (Unit {0}) × D

abbrev pub done_or : {D : Type 0} → DbError → D → Option D → Write D
done_or e db none = (err e, db)
done_or e db (some db') = (ok tt, db')

module _ {D K : Type 0} (r : Rocks D) (k : SplitKey K) where
  -- The column family of a contract, made where it is missing.
  abbrev pub handle_or_create : String → D → Option D
  handle_or_create hash db = if r.cf_handle hash db then some db else r.create_cf hash db

  abbrev put_new : String → List ℕ → List ℕ → D → Option (Option (List ℕ)) → Write D
  put_new hash index_key value db none = (err rocks_error, db)
  put_new hash index_key value db (some (some _)) = (err (db_err "create" (key_exists hash)), db)
  put_new hash index_key value db (some none) =
      done_or rocks_error db (r.put_cf hash index_key value db)

  unfoldable pub create : K → List ℕ → D → Write D
  create key value db =
      let (hash, index_key) = k.as_split key in
      elim (handle_or_create hash db) [
        | none ↦ (err rocks_error, db)
        | some db' ↦ put_new hash index_key value db' (r.get_cf hash index_key db')
      ]

  unfoldable pub read : K → D → Outcome DbError (List ℕ)
  read key db =
      let (hash, index_key) = k.as_split key in
      if r.cf_handle hash db
      then or_rocks (r.get_cf hash index_key db) >>= or_missing "read" hash
      else err (db_err "read" (missing_key hash))

  abbrev if_present : String → String → D → Option (Option (List ℕ)) → Option D → Write D
  if_present command hash db none change = (err rocks_error, db)
  if_present command hash db (some none) change = (err (db_err command (missing_key hash)), db)
  if_present command hash db (some (some _)) change = done_or rocks_error db change

  unfoldable pub update : K → List ℕ → D → Write D
  update key value db =
      let (hash, index_key) = k.as_split key in
      if r.cf_handle hash db
      then if_present "update" hash db (r.get_cf hash index_key db)
          (r.put_cf hash index_key value db)
      else (err (db_err "update" (missing_key hash)), db)

  unfoldable pub delete : K → D → Write D
  delete key db =
      let (hash, index_key) = k.as_split key in
      if r.cf_handle hash db
      then if_present "delete" hash db (r.get_cf hash index_key db) (r.delete_cf hash index_key db)
      else (err (db_err "delete" (missing_key hash)), db)

  unfoldable pub delete_contract : K → D → Write D
  delete_contract key db =
      let (hash, _) = k.as_split key in
      done_or (db_err "delete_contract" (missing_key hash)) db (r.drop_cf hash db)

  unfoldable pub force_update : K → List ℕ → D → Write D
  force_update key value db =
      let (hash, index_key) = k.as_split key in
      elim (handle_or_create hash db) [
        | none ↦ (err rocks_error, db)
        | some db' ↦ done_or rocks_error db' (r.put_cf hash index_key value db')
      ]
