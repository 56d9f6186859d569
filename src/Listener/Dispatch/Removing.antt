-- ===== src/Listener/Dispatch/Removing.antt =====
-- Removals that fail half way, and removals that do not fail.
use Prim.Native.String.{String}
use enigma_core.Prelude.{
  ℕ, ◌≡◌, inl, inr, refl, ap, ◌∙◌, subst, Bool, true, Bool-cases, none, some, Option, Option-cases,
  Outcome-cases, List, [], ◌∷◌, ◌++◌, if◌then◌else◌, Outcome, ok, err,
}
use enigma_core.Exec.{
  Keeps, keeps_rules, chain-Keeps, pure-Keeps, lift, pure, ◌>>=◌, >>=-eq-ok, >>=_after_ok,
  >>=_after_err,
}
use enigma_core.Database.{DbError, Rocks, Hex}
use enigma_core.Database.Crud as Crud
use enigma_core.Database.Key.{Stype, state, delta, delta_as_split, hash_from_hex}
use enigma_core.Listener as Listener
use enigma_core.Listener.{
  IpcDeltasRange, IpcStatusResult, IpcTask, ListenerError, Status, passed, failed, Worker, Handler,
  database_error, answered, deleted_status, contract_address_from_hex, or_database,
}
use enigma_core.Listener.Enclave as Enclave
use enigma_core.Listener.Enclave.{Ecalls, Answer}
use enigma_core.Listener.Tasks as Tasks
use enigma_core.Listener.Tasks.{ListenerCrates, compute_task, build_if_needed}
use enigma_core.Listener.Updates.{
  keys_of, delete_data_from_db, remove_keys, remove_ranges, remove_deltas, remove_contract,
}

-- The database after a family was dropped, or was not.
abbrev pub dropped_or_same : {D : Type 0} → D → Option D → D
dropped_or_same db none = db
dropped_or_same db (some db') = db'

module _ {S D : Type 0} (r : Rocks D) (h : Hex) where
  delete-malformed :
      (addr : String) (x : DbError) (key_type : Stype) (st : Worker S D)
      → hash_from_hex h addr ≡ err x
      → delete_data_from_db r h addr key_type st ≡ (err (database_error x), st)
  unfolding delete_data_from_db lift
  delete-malformed addr x key_type st bad =
      >>=_after_err (lift (contract_address_from_hex h addr)) _ st st (database_error x)
        (ap (λ o. (or_database o, st)) bad)

  -- An address that does not decode stops its range, whether or not it has keys.
  remove_keys-malformed :
      {B : Type 0} (addr : String) (x : DbError) (keys : List ℕ)
      (next : List IpcStatusResult → Status → Handler S D B) (st : Worker S D)
      → hash_from_hex h addr ≡ err x
      → (remove_keys r h addr keys >>= λ errors. delete_data_from_db r h addr state >>= next errors)
          st
        ≡ (err (database_error x), st)
  unfolding remove_keys pure
  remove_keys-malformed addr x [] next st bad =
      >>=_after_ok (pure []) (λ errors. delete_data_from_db r h addr state >>= next errors) st st []
        refl
      ∙ >>=_after_err _ (next []) st st (database_error x) (delete-malformed addr x state st bad)
  remove_keys-malformed addr x (key ∷ keys) next st bad =
      >>=_after_err _ _ st st (database_error x)
        (>>=_after_err _ _ st st (database_error x) (delete-malformed addr x (delta key) st bad))

  remove_ranges-malformed :
      (before after : List IpcDeltasRange) (range : IpcDeltasRange) (x : DbError)
      (removed : List IpcStatusResult) (st st₁ : Worker S D)
      → hash_from_hex h range.address ≡ err x
      → remove_ranges r h before st ≡ (ok removed, st₁)
      → remove_ranges r h (before ++ range ∷ after) st ≡ (err (database_error x), st₁)
  unfolding remove_ranges pure
  remove_ranges-malformed [] after range x removed st st₁ bad k =
      subst (λ s. remove_ranges r h (range ∷ after) st ≡ (err (database_error x), s))
        (ap (λ p. p.1) k) (remove_keys-malformed range.address x (keys_of range) _ st bad)
  remove_ranges-malformed (first ∷ before) after range x removed st st₁ bad k =
      let (errors, s₁, keys, k₁) = >>=-eq-ok _ _ st st₁ removed k in
      let (status, s₂, done, k₂) = >>=-eq-ok _ _ s₁ st₁ removed k₁ in
      let (rest, s₃, others, k₃) = >>=-eq-ok _ _ s₂ st₁ removed k₂ in
      >>=_after_ok _ _ st s₁ errors keys
      ∙ >>=_after_ok _ _ s₁ s₂ status done
      ∙ >>=_after_err _ _ s₂ st₁ (database_error x) (
          remove_ranges-malformed before after range x rest s₂ st₁ bad
            (others ∙ ap (λ s. (ok rest, s)) (ap (λ p. p.1) k₃)))

  module _ (updated : Bool) where
    abbrev HasFlag : Worker S D → Type 0
    HasFlag st = st.state_updated ≡ updated

    answered-Keeps : {A : Type 0} (action : D → A × D) → Keeps HasFlag (answered {S = S} action)
    answered-Keeps action = record { after = λ st s. s }

    delete_data_from_db-Keeps :
        (addr : String) (key_type : Stype)
        → Keeps HasFlag (delete_data_from_db {S = S} r h addr key_type)
    unfolding delete_data_from_db
    delete_data_from_db-Keeps addr key_type = search (answered-Keeps, keeps_rules) depth 6

    remove_keys-Keeps :
        (addr : String) (keys : List ℕ) → Keeps HasFlag (remove_keys {S = S} r h addr keys)
    unfolding remove_keys
    remove_keys-Keeps addr [] = search (keeps_rules)
    remove_keys-Keeps addr (key ∷ keys) =
        chain-Keeps _ _ (delete_data_from_db-Keeps addr (delta key))
          (λ status. chain-Keeps _ _ (remove_keys-Keeps addr keys) (λ rest. pure-Keeps _))

    remove_ranges-Keeps :
        (input : List IpcDeltasRange) → Keeps HasFlag (remove_ranges {S = S} r h input)
    unfolding remove_ranges
    remove_ranges-Keeps [] = search (keeps_rules)
    remove_ranges-Keeps (range ∷ input) =
        chain-Keeps _ _ (remove_keys-Keeps range.address (keys_of range)) (λ errors.
          chain-Keeps _ _ (delete_data_from_db-Keeps range.address state)
            (λ status. chain-Keeps _ _ (remove_ranges-Keeps input) (λ rest. pure-Keeps _)))

  -- While the flag is up, a task is computed without a build: whatever a build would do.
  compute_task_up :
      (c : ListenerCrates) (e : Ecalls S D) (build : S × D → Answer (List ℕ) × (S × D))
      (input : IpcTask) (st : Worker S D)
      → st.state_updated ≡ true
      → compute_task c r e input st
        ≡ compute_task c r (record e { ecall_build_state = build }) input st
  unfolding compute_task build_if_needed Enclave.execute Enclave.try_from lift ◌>>=◌
  compute_task_up c e build input st up = elim (Outcome-cases (Tasks.compute_inputs c r e input)) [
    | inl (i, f) ↦ rw (f, up) refl
    | inr (inl (x, f)) ↦ rw f refl
    | inr (inr f) ↦ rw f refl
  ]

  -- A removal with an address that does not decode is answered as an error after the ranges before
  -- it were removed, and the flag of the states stays as it was. If the flag is up, a task that is
  -- computed on what the removal left does not build the states again: its answer and all that it
  -- changes are the same for an enclave with any other build.
  pub remove_deltas_partial :
      (c : ListenerCrates) (e : Ecalls S D) (build : S × D → Answer (List ℕ) × (S × D))
      (input : IpcTask) (before after : List IpcDeltasRange) (range : IpcDeltasRange) (x : DbError)
      (removed : List IpcStatusResult) (st st₁ : Worker S D)
      → hash_from_hex h range.address ≡ err x
      → remove_ranges r h before st ≡ (ok removed, st₁)
      → (remove_deltas r h (before ++ range ∷ after) st ≡ (err (database_error x), st₁))
        × (st₁.state_updated ≡ st.state_updated)
        × (compute_task c r e input st₁
            ≡ compute_task c r
                (if st.state_updated then record e { ecall_build_state = build } else e)
                input
                st₁)
  unfolding remove_deltas
  remove_deltas_partial c e build input before after range x removed st st₁ bad k =
      let kept : st₁.state_updated ≡ st.state_updated =
        subst
          (λ (p : Outcome ListenerError (List IpcStatusResult) × Worker S D).
            p.1.state_updated ≡ st.state_updated)
          k ((remove_ranges-Keeps st.state_updated before).after st refl) in
      (
        >>=_after_err _ _ st st₁ (database_error x)
            (remove_ranges-malformed before after range x removed st st₁ bad k),
        kept,
        elim (Bool-cases st.state_updated) [
          | inl up ↦ rw up (compute_task_up c e build input st₁ (kept ∙ up))
          | inr down ↦ rw down refl
        ],
      )

  -- The removal of a contract whose address decodes is always answered as passed: also when RocksDB
  -- does not drop the column family, whatever its reason, and the database stays as it was.
  pub remove_contract_passed :
      (address : String) (a : List ℕ) (st : Worker S D)
      → hash_from_hex h address ≡ ok a
      → remove_contract r h address st ≡ (
        ok (Listener.remove_contract_response address (Listener.one_status passed)),
        record st { database = dropped_or_same st.database (r.drop_cf (h.to_hex a) st.database) },
      )
  unfolding remove_contract lift pure ◌>>=◌ Crud.delete_contract deleted_status delta_as_split
  remove_contract_passed address a st good =
      elim (Option-cases (r.drop_cf (h.to_hex a) st.database)) [
        | inl fails ↦ rw (good, fails) refl
        | inr (db', drops) ↦ rw (good, drops) refl
      ]
