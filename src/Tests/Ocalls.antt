-- ===== src/Tests/Ocalls.antt =====
-- The calls out of the enclave at concrete inputs: the database of two functions, and a cache that keeps everything.
use enigma_core.Prelude.{
  ℕ, ◌≡◌, ◌⊎◌, refl, true, false, Option, none, some, List, [], ◌∷◌, replicate, bytes_eq,
  bytes_eq_refl, if◌then◌else◌, Outcome, ok, to_be_bytes, from_be_bytes,
}
use enigma_core.Errors.{EnclaveError}
use enigma_core.Exec as Exec
use enigma_core.Exec.{Exec as Handler, check, lift, modify, pure}
use enigma_core.Crypto.Symmetric.{encrypt_with_nonce}
use enigma_core.ContractState.{EncryptedContractState, EncryptedPatch, encrypt_state}
use enigma_core.Database.Crud.{read, force_update}
use enigma_core.Database.Key.{
  delta_key, delta_as_split, type_key, delta, delta_from_split, key_type_of, hash_from_hex,
  unwrap_delta,
}
use enigma_core.Database.Crud.Laws.{RocksLaws}
use enigma_core.Database.Queries as Db
use enigma_core.Database.Queries.{keyed, graded}
use enigma_core.StateKeys.Store.{get}
use enigma_core.Worker.Build.{encrypt_known, get_known}
use enigma_core.Task.{Task}
use enigma_core.Task.Run.{store_delta_and_state}
use enigma_core.Task.Storing.{IsTakenBack}
use enigma_core.Ocalls.{
  Lru, OcallCrates, Backing, key_of, ocall_get_deltas_sizes, ocall_get_deltas, write_ptr, flatten,
}
use enigma_core.Ocalls.Calls.{
  save_state, save_delta, remove_delta, get_state, get_deltas, total_size, split_deltas,
}
use enigma_core.Ocalls.Reference.{database_host, database_tasks}
use enigma_core.Ocalls.Reading.{LruLaws}
use enigma_core.Ocalls.Refinement.{calls-database_tasks}
use enigma_core.Ocalls.Stored.{store_delta_and_state-get_known}
use enigma_core.Tests.ContractState.{laws, iv, key, second, first_delta}
use enigma_core.Tests.Database.{Db, hex, rocks, rocks_laws, with, family}
use enigma_core.Tests.Paths.{path_of}
use enigma_core.Tests.Task as Tasks

abbrev Cache : Type 0
Cache = List ℕ → Option (List (List ℕ))

abbrev write_at : List ℕ → Option (List (List ℕ)) → Cache → Cache
write_at k v c = λ k'. if bytes_eq k' k then v else c k'

abbrev lru : Lru Cache
lru = record { insert = λ k v c. write_at k (some v) c; remove = λ k c. (c k, write_at k none c) }

lru_laws : LruLaws lru
lru_laws = record { remove-insert = λ k v c. rw (bytes_eq_refl k) refl }

abbrev crates : OcallCrates Db Cache
crates = record {
  rocks = record rocks { range_iterator = λ c k k' db. some ((k, 7 ∷ []) ∷ []) };
  hex = hex;
  lru = lru;
  sha256 = λ bytes. bytes;
  crosses = λ name st. true;
}

crates_laws : RocksLaws crates.rocks
crates_laws = record {
  handle-create = rocks_laws.handle-create;
  create-other = rocks_laws.create-other;
  put-handle = rocks_laws.put-handle;
  get-put = rocks_laws.get-put;
  get-put_ne = rocks_laws.get-put_ne;
}

abbrev no_family : Db
no_family = (λ c. false, λ c k. none)

abbrev contract : List ℕ
contract = replicate 32 1

-- A contract with a state and a delta.
abbrev filled : Db
filled = with (path_of contract) (2 ∷ []) (some (5 ∷ 6 ∷ [])) (family (path_of contract) no_family)

abbrev empty : Cache
empty k = none

abbrev pointer : List ℕ → Handler Db ℕ
pointer bytes db = (ok 3, db)

abbrev Reads :
    {A : Type 0} → Outcome EnclaveError A → Outcome EnclaveError A × Backing Db Cache → Type 0
Reads expected p =
    (left : Cache) × (p ≡ (expected, record { database = filled; deltas_cache = left }))

abbrev Writes :
    Outcome EnclaveError (Unit {0}) × Db
    → Outcome EnclaveError (Unit {0}) × Backing Db Cache
    → Type 0
Writes expected p = p ≡ (expected.0, record { database = expected.1; deltas_cache = empty })

abbrev host : Backing Db Cache
host = record { database = filled; deltas_cache = empty }

abbrev asked : EncryptedPatch
asked = record { ciphertext = 7 ∷ []; contract_address = contract; index = 1 }

abbrev given : EncryptedContractState
given = record { contract_address = contract; json = 5 ∷ 6 ∷ [] }

fetched : (get_deltas crates contract 1 3 host).0 ≡ ok (asked ∷ [])
unfolding get_deltas ocall_get_deltas_sizes ocall_get_deltas Db.get_deltas graded keyed write_ptr
    flatten total_size split_deltas delta_as_split delta_from_split key_type_of hash_from_hex
    type_key unwrap_delta to_be_bytes from_be_bytes Exec.◌>>=◌ check lift modify pure
fetched = refl

calls-database_tasks_example :
    Reads ((database_host crates).get_state contract filled) (get_state crates contract host)
    × Reads
        ((database_host crates).get_deltas contract 1 3 filled)
        (get_deltas crates contract 1 3 host)
    × Writes ((database_host crates).save_state given filled) (save_state crates given host)
    × Writes
        ((database_tasks crates pointer).save_delta asked filled)
        (save_delta crates asked host)
    × Writes
        ((database_tasks crates pointer).remove_delta asked filled)
        (remove_delta crates asked host)
calls-database_tasks_example =
    calls-database_tasks crates lru_laws (λ name st. refl) filled empty pointer contract 1 3 given
      asked

abbrev start : Task ℕ Db
start = record {
  keys = Tasks.start.keys;
  db = no_family;
  pre_execution_data = [];
  result = Tasks.blank;
}

abbrev after : Task ℕ Db
after =
    (store_delta_and_state Tasks.crates (database_tasks crates pointer) (some first_delta) second
      start).1

stores :
    store_delta_and_state Tasks.crates
      (database_tasks crates pointer)
      (some first_delta)
      second
      start
    ≡ (ok tt, after)
unfolding store_delta_and_state Exec.◌>>=◌ check encrypt_known encrypt_state encrypt_with_nonce get
    force_update delta_as_split type_key to_be_bytes
stores = refl

known : get second.contract_address start.keys.state_keys ≡ some key
unfolding get
known = refl

store_delta_and_state-get_known_example :
    ((get_known Tasks.crates.states
          (database_host crates)
          start.keys.state_keys
          second.contract_address
          after.db
        ≡ ok second)
      × (read crates.rocks
            (delta_key hex)
            (key_of first_delta.contract_address (delta first_delta.index))
            after.db
          ≡ ok first_delta.ciphertext))
    ⊎ IsTakenBack Tasks.crates (database_tasks crates pointer) first_delta second start after
store_delta_and_state-get_known_example =
    store_delta_and_state-get_known Tasks.crates crates pointer laws crates_laws first_delta second
      start after {key = key} {iv = iv} known refl refl refl stores
