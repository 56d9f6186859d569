-- ===== src/Database/Queries.antt =====
-- `P2PCalls` of db/iterator.rs: tips, ranges of deltas, and lists of tuples.
pub mod Tip
use Prim.Native.String.{String}
use text.Mathlib.Text.{◌==◌ as str_eq}
use mathlib.Core.List.{get_last?}
use enigma_core.Prelude.{
  ℕ, Bool, true, false, none, some, List, [], ◌∷◌, length, ◌==◌, bytes_eq, if◌then◌else◌, Outcome,
  ok, err, panic, ◌>>=◌,
}
use enigma_core.Database.{
  DbError, db_err, rocks_error, bail_error, missing_key, missing_keys, Rocks, Hex, SplitKey,
  or_rocks, or_missing,
}
use enigma_core.Database.Key.{byte_code, delta_key}
use enigma_core.Database.Crud.{read, handle_or_create}

pub data ResultType {ℓ} (T : Type ℓ) : Type ℓ where
  full : T → ResultType T
  partial : T → ResultType T
  nothing : ResultType T

unfoldable pub unwrap : {T : Type 0} → ResultType T → Outcome DbError T
unwrap (full val) = ok val
unwrap (partial val) = ok val
unwrap nothing = panic

unfoldable pub is_none : {T : Type 0} → ResultType T → Bool
is_none (full _) = false
is_none (partial _) = false
is_none nothing = true

abbrev pub delta_prefix : List ℕ
delta_prefix = 1 ∷ []

abbrev pub any_error : {A : Type 0} → DbError → Outcome DbError A → Outcome DbError A
any_error e (ok a) = ok a
any_error e (err _) = err e
any_error e panic = panic

-- `unwrap` of a result.
abbrev pub or_panic : {A : Type 0} → Outcome DbError A → Outcome DbError A
or_panic (ok a) = ok a
or_panic (err _) = panic
or_panic panic = panic

abbrev pub Entry : Type 0
Entry = List ℕ × List ℕ

module _ {D K : Type 0} (r : Rocks D) (h : Hex) (k : SplitKey K) where
  unfoldable pub get_tip : List ℕ → D → Outcome DbError (K × List ℕ)
  get_tip address db =
      let str_addr = h.to_hex address in
      let tip = do
        entries ← or_rocks (r.prefix_iterator str_addr delta_prefix db)
        last ← or_missing "get_tip" str_addr (get_last? entries)
        key ← k.from_split str_addr last.0
        ok (key, last.1)
      in if r.cf_handle str_addr db then tip else err (db_err "get_tip" (missing_key str_addr))

  unfoldable pub get_tips : List (List ℕ) → D → Outcome DbError (List (K × List ℕ))
  get_tips [] db = ok []
  get_tips (address ∷ addresses) db = do
    tip ← get_tip address db
    tips ← get_tips addresses db
    ok (tip ∷ tips)

  -- The names that are hexadecimal; `copy_from_slice` panics on one that is not of 32 bytes.
  unfoldable pub addresses_of : List String → Outcome DbError (List (List ℕ))
  addresses_of [] = ok []
  addresses_of (name ∷ names) = elim (h.from_hex name) [
    | none ↦ addresses_of names
    | some address ↦ elim (length address == 32) [
      | false ↦ panic
      | true ↦ elim (addresses_of names) [
        | ok rest ↦ ok (address ∷ rest)
        | err e ↦ err e
        | panic ↦ panic
      ]
    ]
  ]

  -- The first name is that of the default column family.
  abbrev without_default : List String → Outcome DbError (List String)
  without_default [] = err (db_err "get_all_addresses" missing_keys)
  without_default (_ ∷ []) = err (db_err "get_all_addresses" missing_keys)
  without_default (_ ∷ name ∷ names) = ok (name ∷ names)

  unfoldable pub get_all_addresses : D → Outcome DbError (List (List ℕ))
  get_all_addresses db = do
    cf_list ← or_rocks (r.list_cf db)
    names ← without_default cf_list
    addresses_of names

  unfoldable pub get_all_tips : D → Outcome DbError (List (K × List ℕ))
  get_all_tips db = do addresses ← get_all_addresses db; get_tips addresses db

  unfoldable pub get_delta : K → D → Outcome DbError (List ℕ)
  get_delta key db =
      any_error (db_err "get_delta" (missing_key (k.as_split key).0)) (read r k key db)

  unfoldable pub get_contract : List ℕ → D → Outcome DbError (List ℕ)
  get_contract contract_address db =
      any_error (db_err "get_contract" (missing_key (h.to_hex contract_address))) (
        read r (delta_key h) (record { contract_address = contract_address; key_type = byte_code })
          db)

  -- The entries with their keys read back; a key that cannot be read back panics.
  unfoldable pub keyed : String → List Entry → Outcome DbError (List (K × List ℕ))
  keyed hash [] = ok []
  keyed hash (entry ∷ entries) = do
    key ← or_panic (k.from_split hash entry.0)
    rest ← keyed hash entries
    ok ((key, entry.1) ∷ rest)

  -- `Full` exactly if the last key is the first of the range.
  unfoldable pub graded : K → List (K × List ℕ) → ResultType (List (K × List ℕ))
  graded from key_val = elim (get_last? key_val) [
    | none ↦ nothing
    | some last ↦
        if bytes_eq (k.as_split last.0).1 (k.as_split from).1 then full key_val else partial key_val
  ]

  unfoldable pub get_deltas : K → K → D → Outcome DbError (ResultType (List (K × List ℕ)))
  get_deltas from to db =
      let (from_hash, from_key) = k.as_split from in
      let (hash_to, to_key) = k.as_split to in
      let found = do
        entries ← or_rocks (r.range_iterator from_hash from_key to_key db)
        key_val ← keyed hash_to entries
        ok (graded from key_val)
      in if r.cf_handle from_hash db
        then if str_eq hash_to from_hash then found else err bail_error
        else err (db_err "get_deltas" (missing_key from_hash))

  -- The loop of `insert_tuples`: the results so far, the batch, and the database with the column
  -- families that were made.
  unfoldable pub collect :
      List (K × List ℕ)
      → D
      → List (Outcome DbError (Unit {0})) × (List (String × (List ℕ × List ℕ)) × D)
  collect [] db = ([], ([], db))
  collect ((key, val) ∷ key_vals) db =
      let (cf_str, key_slice) = k.as_split key in
      elim (handle_or_create r k cf_str db) [
        | none ↦
            let (res, (batch, db')) = collect key_vals db in (err rocks_error ∷ res, (batch, db'))
        | some db₁ ↦
            let (res, (batch, db')) = collect key_vals db₁ in
            (ok tt ∷ res, ((cf_str, (key_slice, val)) ∷ batch, db'))
      ]

  unfoldable pub insert_tuples : List (K × List ℕ) → D → List (Outcome DbError (Unit {0})) × D
  insert_tuples key_vals db =
      let (res, (batch, db')) = collect key_vals db in
      elim (r.write batch db') [ some db'' ↦ (res, db'') | none ↦ (err rocks_error ∷ [], db') ]
