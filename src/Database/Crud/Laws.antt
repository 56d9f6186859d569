-- ===== src/Database/Crud/Laws.antt =====
-- What is written is read, and nothing else changes.
use Prim.Native.String.{String}
use enigma_core.Prelude.{
  ℕ, ◌≡◌, ◌⊎◌, inl, inr, refl, subst, Bool-cases, Option-cases, true, some, List, ok, arith,
}
use enigma_core.Database.{Rocks, SplitKey}
use enigma_core.Database.Crud.{create, read, update, force_update, handle_or_create}

-- What RocksDB documents of column families and puts.
pub record RocksLaws {D : Type 0} (r : Rocks D) : Type 0 where
  pub handle-create :
      (c : String) (db db' : D) → r.create_cf c db ≡ some db' → r.cf_handle c db' ≡ true
  pub create-other :
      (c c' : String) (k : List ℕ) (db db' : D)
      → r.create_cf c db ≡ some db'
      → r.cf_handle c' db ≡ true
      → (r.cf_handle c' db' ≡ true) × (r.get_cf c' k db' ≡ r.get_cf c' k db)
  pub put-handle :
      (c c' : String) (k v : List ℕ) (db db' : D)
      → r.put_cf c k v db ≡ some db'
      → r.cf_handle c' db' ≡ r.cf_handle c' db
  pub get-put :
      (c : String) (k v : List ℕ) (db db' : D)
      → r.put_cf c k v db ≡ some db'
      → r.get_cf c k db' ≡ some (some v)
  pub get-put_ne :
      (c c' : String) (k k' v : List ℕ) (db db' : D)
      → ¬ ((c' ≡ c) × (k' ≡ k))
      → r.put_cf c k v db ≡ some db'
      → r.get_cf c' k' db' ≡ r.get_cf c' k' db

module _ {D K : Type 0} (r : Rocks D) (k : SplitKey K) where
  get-found :
      (key : K) (db : D) (value : List ℕ)
      → read r k key db ≡ ok value
      → r.cf_handle (k.as_split key).0 db ≡ true
      → r.get_cf (k.as_split key).0 (k.as_split key).1 db ≡ some (some value)
  unfolding read
  get-found key db value h e =
      elim (Option-cases (r.get_cf (k.as_split key).0 (k.as_split key).1 db)) [
        | inl f ↦ absurd (ground arith)
        | inr (inner, f) ↦ elim (Option-cases inner) [
          | inl g ↦ absurd (ground arith)
          | inr (w, g) ↦ ground arith
        ]
      ]

  pub read-ok :
      (key : K) (db : D) (value : List ℕ)
      → read r k key db ≡ ok value
      → (r.cf_handle (k.as_split key).0 db ≡ true)
        × (r.get_cf (k.as_split key).0 (k.as_split key).1 db ≡ some (some value))
  unfolding read
  read-ok key db value h = elim (Bool-cases (r.cf_handle (k.as_split key).0 db)) [
    | inr e ↦ absurd (ground arith)
    | inl e ↦ (e, get-found key db value h e)
  ]

module _ {D K : Type 0} (r : Rocks D) (k : SplitKey K) (laws : RocksLaws r) where
  -- The put that a successful write made, in a database that has the column family and every
  -- entry of the one before.
  record IsPut (key : K) (value : List ℕ) (db db' : D) : Type 0 where
    between : D
    handle : r.cf_handle (k.as_split key).0 between ≡ true
    kept :
        (c : String) (i : List ℕ)
        → r.cf_handle c db ≡ true
        → (r.cf_handle c between ≡ true) × (r.get_cf c i between ≡ r.get_cf c i db)
    put : r.put_cf (k.as_split key).0 (k.as_split key).1 value between ≡ some db'

  handled :
      (hash : String) (db between : D)
      → handle_or_create r k hash db ≡ some between
      → (r.cf_handle hash between ≡ true)
        × ((c : String) (i : List ℕ)
            → r.cf_handle c db ≡ true
            → (r.cf_handle c between ≡ true) × (r.get_cf c i between ≡ r.get_cf c i db))
  handled hash db between h = elim (Bool-cases (r.cf_handle hash db)) [
    | inl e ↦
        let same : db ≡ between = ground arith in
        subst
          (λ x.
            (r.cf_handle hash x ≡ true)
            × ((c : String) (i : List ℕ)
                → r.cf_handle c db ≡ true
                → (r.cf_handle c x ≡ true) × (r.get_cf c i x ≡ r.get_cf c i db)))
          same (e, λ c i there. (there, refl))
    | inr e ↦
        let made : r.create_cf hash db ≡ some between = ground arith in
        (
          laws.handle-create hash db between made,
          λ c i there. laws.create-other hash c i db between made there,
        )
  ]

  create-IsPut :
      (key : K) (value : List ℕ) (db db' : D)
      → create r k key value db ≡ (ok tt, db')
      → IsPut key value db db'
  unfolding create
  create-IsPut key value db db' h =
      elim (Option-cases (handle_or_create r k (k.as_split key).0 db)) [
        | inl e ↦ absurd (ground arith)
        | inr (between, e) ↦
            let (there, kept) = handled (k.as_split key).0 db between e in
            record { between = between; handle = there; kept = kept; put = ground arith }
      ]

  force_update-IsPut :
      (key : K) (value : List ℕ) (db db' : D)
      → force_update r k key value db ≡ (ok tt, db')
      → IsPut key value db db'
  unfolding force_update
  force_update-IsPut key value db db' h =
      elim (Option-cases (handle_or_create r k (k.as_split key).0 db)) [
        | inl e ↦ absurd (ground arith)
        | inr (between, e) ↦
            let (there, kept) = handled (k.as_split key).0 db between e in
            record { between = between; handle = there; kept = kept; put = ground arith }
      ]

  update-IsPut :
      (key : K) (value : List ℕ) (db db' : D)
      → update r k key value db ≡ (ok tt, db')
      → IsPut key value db db'
  unfolding update
  update-IsPut key value db db' h = record {
    between = db;
    handle = ground arith;
    kept = λ c i there. (there, refl);
    put = ground arith;
  }

  read-put :
      (key : K) (value : List ℕ) (db db' : D) → IsPut key value db db' → read r k key db' ≡ ok value
  unfolding read
  read-put key value db db' p =
      rw
        (
          laws.put-handle (k.as_split key).0 (k.as_split key).0 (k.as_split key).1 value p.between
              db' p.put,
          p.handle,
          laws.get-put (k.as_split key).0 (k.as_split key).1 value p.between db' p.put,
        )
        refl

  -- After a successful `create`, `update` or `force_update` the value is read at the key, and every
  -- key with another family or another index that had a value still has it.
  pub read-written :
      (key : K) (value : List ℕ) (db db' : D)
      → (create r k key value db ≡ (ok tt, db'))
        ⊎ ((update r k key value db ≡ (ok tt, db'))
            ⊎ (force_update r k key value db ≡ (ok tt, db')))
      → (read r k key db' ≡ ok value)
        × ((other : K) (w : List ℕ)
            → ¬ (
                ((k.as_split other).0 ≡ (k.as_split key).0)
                × ((k.as_split other).1 ≡ (k.as_split key).1))
            → read r k other db ≡ ok w
            → read r k other db' ≡ ok w)
  unfolding read
  read-written key value db db' h = (read-put key value db db' p, others)
    where
      p : IsPut key value db db'
      p = elim h [
        | inl e ↦ create-IsPut key value db db' e
        | inr (inl e) ↦ update-IsPut key value db db' e
        | inr (inr e) ↦ force_update-IsPut key value db db' e
      ]

      others :
          (other : K) (w : List ℕ)
          → ¬ (
              ((k.as_split other).0 ≡ (k.as_split key).0)
              × ((k.as_split other).1 ≡ (k.as_split key).1))
          → read r k other db ≡ ok w
          → read r k other db' ≡ ok w
      others other w ne e =
          let (there, found) = read-ok r k other db w e in
          let (there', kept) = p.kept (k.as_split other).0 (k.as_split other).1 there in
          rw
            (
              laws.put-handle (k.as_split key).0 (k.as_split other).0 (k.as_split key).1 value
                  p.between db' p.put,
              there',
              laws.get-put_ne (k.as_split key).0 (k.as_split other).0 (k.as_split key).1
                  (k.as_split other).1 value p.between db' ne p.put,
              kept,
              found,
            )
            refl
