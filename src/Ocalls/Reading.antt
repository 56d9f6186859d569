-- ===== src/Ocalls/Reading.antt =====
-- `get_state` and `get_deltas` of the enclave through the cache of the host.
use Prim.Native.String.{String}
use enigma_core.Prelude.{
  ℕ, ◌-◌, ◌≤◌, ◌≡◌, refl, ◌∙◌, true, inl, inr, Option, none, some, List, [], ◌∷◌, ◌++◌, length,
  replicate, length-replicate, Bool-cases, ◌==◌, ◌<◌, ltb, Outcome, ok, err, panic, arith,
}
use enigma_core.Errors.{EnclaveError}
use enigma_core.Errors.Codes.{EnclaveReturn, success}
use enigma_core.Exec.{modify, pure, lift, check, ◌>>=◌, and_next}
use enigma_core.Database.{DbError}
use enigma_core.Ocalls.{
  Lru, Backing, OcallCrates, span, write_ptr, flatten, read_state, find_deltas, sizes_answer,
  state_id, deltas_id, ocall_get_state_size, ocall_get_state, ocall_get_deltas_sizes,
  ocall_get_deltas,
}
use enigma_core.Ocalls.Calls.{get_state, get_deltas}
use enigma_core.Ocalls.Reference.{as_state, as_deltas, patches}
use enigma_core.Ocalls.Splitting.{
  write_ptr-whole, write_ptr-sizes, total-sizes, length-sizes, split_deltas-flatten, sizes,
}

-- What was inserted last is there.
pub record LruLaws {C : Type 0} (lru : Lru C) : Type 0 where
  pub remove-insert :
      (k : List ℕ) (v : List (List ℕ)) (c : C) → (lru.remove k (lru.insert k v c)).0 ≡ some v

==-refl : (n : ℕ) → (n == n) ≡ true
==-refl n = ground arith

ltb-true : (a b : ℕ) → a < b → ltb a b ≡ true
ltb-true a b h = ground arith

-- Every call gets to the host and back.
abbrev pub AllCross : {D C : Type 0} → OcallCrates D C → Type 0
AllCross {D} {C} c = (name : String) (st : Backing D C) → c.crosses name st ≡ true

abbrev pub over : {D C : Type 0} → D → C → Backing D C
over db left = record { database = db; deltas_cache = left }

-- The outcome of the host, with the database as it was and some cache.
abbrev pub Reads :
    {D C A : Type 0} → D → Outcome EnclaveError A → Outcome EnclaveError A × Backing D C → Type 0
Reads {D} {C} db expected p = (left : C) × (p ≡ (expected, over db left))

module _ {D C : Type 0} (c : OcallCrates D C) (laws : LruLaws c.lru) where
  module _ (crossing : AllCross c) (db : D) (lru : C) where
    module _ (address : List ℕ) where
      abbrev cached_state : List ℕ → C
      cached_state s = c.lru.insert (c.sha256 (state_id address (length s))) (s ∷ []) lru

      abbrev left_state : List ℕ → C
      left_state s = (c.lru.remove (c.sha256 (state_id address (length s))) (cached_state s)).1

      fetch :
          (s : List ℕ)
          → ocall_get_state c address (replicate (length s) 0) (over db (cached_state s))
            ≡ (ok (success, s), over db (left_state s))
      unfolding ocall_get_state ◌>>=◌ pure lift check
      fetch s =
          rw
            (
              length-replicate {A = ℕ} (length s) 0,
              laws.remove-insert (c.sha256 (state_id address (length s))) (s ∷ []) lru,
              write_ptr-whole s (length s) refl,
            )
            refl

      get_state-found :
          (s : List ℕ)
          → read_state c address db ≡ ok s
          → get_state c address (over db lru)
            ≡ (ok (record { contract_address = address; json = s }), over db (left_state s))
      unfolding get_state ocall_get_state_size ◌>>=◌ pure lift check modify
      get_state-found s found =
          rw
            (
              crossing "ocall_get_state_size" (over db lru),
              found,
              crossing "ocall_get_state" (over db (cached_state s)),
              fetch s,
            )
            refl

      get_state-missing :
          (e : DbError)
          → read_state c address db ≡ err e
          → get_state c address (over db lru) ≡ (as_state address (err e), over db lru)
      unfolding get_state ocall_get_state_size ◌>>=◌ pure lift check modify
      get_state-missing e found = rw (crossing "ocall_get_state_size" (over db lru), found) refl

      get_state-panic :
          read_state c address db ≡ panic → get_state c address (over db lru) ≡ (panic, over db lru)
      unfolding get_state ocall_get_state_size ◌>>=◌ pure lift check modify
      get_state-panic found = rw (crossing "ocall_get_state_size" (over db lru), found) refl

      pub get_state_of :
          (r : Outcome DbError (List ℕ))
          → read_state c address db ≡ r
          → Reads db (as_state address r) (get_state c address (over db lru))
      get_state_of (ok s) found = (left_state s, get_state-found s found)
      get_state_of (err e) found = (lru, get_state-missing e found)
      get_state_of panic found = (lru, get_state-panic found)

      module _ (start end : ℕ) where
        abbrev id_of : List ℕ
        id_of = c.sha256 (deltas_id address start end)

        abbrev cached_deltas : List (List ℕ) → C
        cached_deltas ds = c.lru.insert id_of ds lru

        abbrev left_deltas : List (List ℕ) → C
        left_deltas ds = (c.lru.remove id_of (cached_deltas ds)).1

        abbrev room : List ℕ
        room = replicate (span start end) 0

        abbrev size_run : Outcome EnclaveError (EnclaveReturn × List ℕ) × Backing D C
        size_run = ocall_get_deltas_sizes c address start end room (over db lru)

        asked :
            {r : Outcome EnclaveError (Option (List (List ℕ)))}
            → find_deltas c address start end db ≡ r
            → size_run
              ≡ and_next (sizes_answer c (deltas_id address start end) room) (r, over db lru)
        unfolding ocall_get_deltas_sizes ◌>>=◌ pure lift check modify
        asked found =
            rw (length-replicate {A = ℕ} (span start end) 0, ==-refl (span start end), found) refl

        sizes_of :
            (ds : List (List ℕ))
            → length ds ≤ span start end
            → find_deltas c address start end db ≡ ok (some ds)
            → size_run ≡ (
              ok (success, sizes ds ++ replicate (span start end - length ds) 0),
              over db (cached_deltas ds),
            )
        unfolding ◌>>=◌ pure lift check modify
        sizes_of ds h found = asked found ∙ rw (write_ptr-sizes ds (span start end) h) refl

        too_many :
            (ds : List (List ℕ))
            → span start end < length ds
            → find_deltas c address start end db ≡ ok (some ds)
            → size_run ≡ (panic, over db (cached_deltas ds))
        unfolding write_ptr ◌>>=◌ pure lift check modify
        too_many ds h found =
            asked found
            ∙ rw
                (
                  length-replicate {A = ℕ} (span start end) 0,
                  length-sizes ds,
                  ltb-true (span start end) (length ds) h,
                )
                refl

        fetch_deltas :
            (ds : List (List ℕ)) (n : ℕ)
            → n ≡ length (flatten ds)
            → ocall_get_deltas c address start end (replicate n 0) (over db (cached_deltas ds))
              ≡ (ok (success, flatten ds), over db (left_deltas ds))
        unfolding ocall_get_deltas ◌>>=◌ pure lift check
        fetch_deltas ds n e =
            rw (laws.remove-insert id_of ds lru, write_ptr-whole (flatten ds) n e) refl

        get_deltas-found :
            (ds : List (List ℕ))
            → length ds ≤ span start end
            → find_deltas c address start end db ≡ ok (some ds)
            → get_deltas c address start end (over db lru)
              ≡ (ok (patches address start ds), over db (left_deltas ds))
        unfolding get_deltas ◌>>=◌ pure lift check modify
        get_deltas-found ds h found =
            rw
              (
                crossing "ocall_get_deltas_sizes" (over db lru),
                sizes_of ds h found,
                crossing "ocall_get_deltas" (over db (cached_deltas ds)),
                fetch_deltas ds _ (total-sizes ds (span start end - length ds)),
                split_deltas-flatten address start (span start end - length ds) ds,
              )
              refl

        get_deltas-crowded :
            (ds : List (List ℕ))
            → span start end < length ds
            → find_deltas c address start end db ≡ ok (some ds)
            → get_deltas c address start end (over db lru) ≡ (panic, over db (cached_deltas ds))
        unfolding get_deltas ◌>>=◌ pure lift check modify
        get_deltas-crowded ds h found =
            rw (crossing "ocall_get_deltas_sizes" (over db lru), too_many ds h found) refl

        abbrev pub DeltaReads : Outcome EnclaveError (Option (List (List ℕ))) → Type 0
        DeltaReads r =
            Reads db (as_deltas address start end r) (get_deltas c address start end (over db lru))

        get_deltas_some :
            (ds : List (List ℕ))
            → find_deltas c address start end db ≡ ok (some ds)
            → DeltaReads (ok (some ds))
        get_deltas_some ds found = elim (Bool-cases (ltb (span start end) (length ds))) [
          | inl more ↦ (cached_deltas ds, get_deltas-crowded ds (ground arith) found ∙ rw more refl)
          | inr fits ↦ (left_deltas ds, get_deltas-found ds (ground arith) found ∙ rw fits refl)
        ]

        pub get_deltas_of :
            (r : Outcome EnclaveError (Option (List (List ℕ))))
            → find_deltas c address start end db ≡ r
            → DeltaReads r
        unfolding get_deltas ◌>>=◌ pure lift check modify
        get_deltas_of (ok (some ds)) found = get_deltas_some ds found
        get_deltas_of (ok none) found =
            (lru, rw (crossing "ocall_get_deltas_sizes" (over db lru), asked found) refl)
        get_deltas_of (err e) found =
            (lru, rw (crossing "ocall_get_deltas_sizes" (over db lru), asked found) refl)
        get_deltas_of panic found =
            (lru, rw (crossing "ocall_get_deltas_sizes" (over db lru), asked found) refl)
