-- ===== src/Lib.antt =====
-- Enigma Core: a network of workers that run contracts on encrypted state in SGX enclaves, and a
-- key-management ("principal") node that sets epochs of workers and hands out state keys.
--
-- Parts and files
-- - Crypto: enigma-crypto. Crypto/Hash is `prepare_hash_multiple` of hash.rs, Crypto/Symmetric is
--   symmetric.rs over the cipher of the ring crate (`Aead`), Crypto/Errors is error.rs.
-- - Errors: `EnclaveError` of enigma-tools-t/src/common/errors_t.rs; Errors/Codes is
--   `EnclaveReturn` of enigma-types/src/types.rs with the conversions into it.
-- - Storage: enigma-tools-t/src/document_storage_t.rs, over the sealing of the SGX SDK (`Sgx`) and
--   the files of the host (`FileSystem`).
-- - Epoch: `Epoch` and `InputWorkerParams`. Epoch/Nested is nested_encoding.rs and
--   `encode_for_hashing` of epoch_t.rs, Epoch/Selection is the worker selection of
--   enigma-tools-m/src/keeper_types.rs, Epoch/Cache is the map `EPOCH`, and Epoch/Keeper is the two
--   ecalls of enigma-principal/enclave/src/epoch_keeper_t/mod.rs (`set_worker_params`,
--   `get_epoch_worker`).
-- - Messages: enigma-tools-m/src/primitives/km_primitives.rs, `PrincipalMessage` and, in
--   Messages/User, `UserMessage`, over the codings of serde and MessagePack (`Formats`).
-- - StateKeys: enigma-principal/enclave/src/keys_keeper_t/mod.rs. StateKeys/Store is the map
--   `STATE_KEY_STORE`, StateKeys itself the creation and lookup of keys (`build_response` is
--   `build_get_state_keys_response`), and StateKeys/Request the ecall (`get_enc_state_keys`).
-- - ContractState: enigma-runtime-t/src/data, state.rs and delta.rs, over the values and patches of
--   JSON crates (`StateCrates`); `apply_deltas` is the inner loop of `build_state` of
--   enigma-core/enclave/src/km_t/principal.rs.
-- - Database: enigma-core/app/src/db over RocksDB and the hexadecimal coding. Database/Key is
--   primitives.rs, Database/Crud the operations on one entry of dal.rs, and Database/Queries the
--   tips, ranges and batches of iterator.rs.
-- - Worker: enigma-core/enclave/src/km_t. Worker is the keys of a worker and the ecalls that change
--   them (`ptt_req`, `ptt_res`, `get_user_key`), and Worker/Build the ecall `build_state`, over the
--   calls to the host (`Host`).
-- - Arguments: the inputs of a task, enigma-tools-t/src/build_arguments_g/mod.rs.
-- - Task: the ecalls `ecall_execute` and `ecall_deploy` of enigma-core/enclave/src/lib.rs (Task/Run,
--   over the types and the signed images in Task), with `Runtime::into_result` of
--   enigma-runtime-t/src/lib.rs. The engine is any function (`Engine`), the ocalls are `TaskHost`, and
--   a `Task` holds the worker's keys, the host's store and the two out-parameters. Task/Runtime is the
--   `Runtime` of enigma-runtime-t/src/lib.rs, with the functions that a contract may call in
--   Task/Runtime/Calls (`invoke_index`), and Task/Runtime/Engine the engine of wasm_execution.rs: a
--   contract is the tree of its calls (`Code`), which the interpreter (`Interpreter`) makes of its code.
-- - Ocalls: the calls out of the worker's enclave, enigma-core/app/src/esgx/ocalls_u.rs in Ocalls and
--   enigma-runtime-t/src/ocalls_t.rs in Ocalls/Calls, over Database and the LRU cache of another crate
--   (`Lru`). A buffer is the list of its bytes, and `write_ptr` of enigma-types/src/lib.rs gives it back.
--   Ocalls/Reference has the host of Worker and Task (`database_host`, `database_tasks`) for which the
--   calls stand. Whether a call of the SGX SDK gets through is the parameter `crosses`; the calls
--   of a task follow each other with no other call between them.
-- - Listener: the requests to the worker's host, enigma-core/app/src/networking (messages.rs in
--   Listener, the handlers of ipc_listener.rs in Listener/Queries, Listener/Updates and
--   Listener/Tasks, `handle_message` in Listener/Dispatch), and in Listener/Enclave the calls of the
--   enclave in km_u.rs and wasm_u. A `Worker` is the database, its flag `state_updated` and the
--   enclave, whose ecalls are parameters there (`Ecalls`); the signing address and the quote, which
--   two ecalls of the attestation give, are constants that do not touch it (`ListenerCrates`).
-- - Gas: the gas of enigma-runtime-t, gas.rs and the charges and refunds of lib.rs.
-- - Principal: the host of the key-management node, enigma-principal/app/src. Principal is the
--   `EpochState` of epoch_u/epoch_types.rs, Principal/States the `EpochStateManager` (Principal/States/Queue is
--   what it promises: a bounded queue and the copy that a restart finds) and Principal/Provider the `EpochProvider` of epoch_u/epoch_provider.rs (with the ecall of
--   esgx/epoch_keeper_u.rs), Principal/Server the JSON-RPC methods of
--   boot_network/keys_provider_http.rs (with the ecall of esgx/keys_keeper_u.rs), and
--   Principal/Watch the loop of boot_network/principal_utils.rs. A `Node` is the host's list, the
--   enclave's keeper and the chain; the Enigma contract (`EnigmaContract`), the files (`HostFiles`)
--   and the codings are parameters.
-- - Prelude and Exec are what they share: tests, lists and bytes, results that may panic, and
--   handlers with a state. Tests holds the parameters at concrete values and the theorems at
--   concrete inputs.
--
-- How the parts interact: the keeper takes the next nonce from the cache, draws a seed, hashes the
-- encoded epoch and seals the hash in a marker file; a later call with that seed and nonce recovers
-- the epoch by comparing its hash with the marker. A contract's worker is drawn from the cached
-- epoch by stake. A request for state keys carries a message that is signed by the workers of its
-- contracts; its keys are found in the cache or in sealed documents, or created, and go back
-- encrypted for the public key of the message. The host of that node sets an epoch in the enclave,
-- keeps its state unconfirmed, publishes it on Ethereum, and confirms it with the workers that it
-- selects itself; a request for keys is checked against both. With such a key a worker encrypts the state of a
-- contract and the patches between its states, each of which names the hash of the one before. A task
-- takes the user's key out of the worker's keys, decrypts its inputs, runs on the decrypted state, and
-- leaves a signed result, a success or a failure, and the delta and the state in the host's store. The
-- worker's host answers requests over its database and sends the tasks to the enclave, after the
-- states were built again if deltas came in.
--
-- Conventions: `U256`, `u64` and `usize` are natural numbers with the panic or the wrap of each
-- operation written out; bytes, addresses and hashes are lists of numbers; the width of an array is
-- a hypothesis where it matters (`IsTyped`, `IsU256`, `IsH160`). A `HashMap` is a list of entries
-- with distinct keys. A result is `Outcome`: a value, an error or a panic. A state comes back beside
-- every outcome, since what was written before an error stays written. Errors keep their variants;
-- their texts are left out. A panic in the model ends the call and leaves the state; in the code it
-- poisons the lock too, so that later calls fail: the runs of the model include those of the code.
--
-- Fuel: the `while` of `get_selected_workers` runs on fuel, and one worker needs two rounds, which
-- `get_selected_worker` gives; `none` stands for a run that needs more, and none does.
--
-- Not modelled: ZeroMQ and HTTP, the command line, the C bindings of ecalls, attestation,
-- the wasm interpreter (which charges the instructions by calls of `gas`), the RLP, ABI and JSON codings, elliptic curves and hash functions
-- of other crates (parameters where the models need them).
pub mod Prelude
pub mod Crypto
pub mod Errors
pub mod Exec
pub mod Storage
pub mod Epoch
pub mod Messages
pub mod StateKeys
pub mod ContractState
pub mod Database
pub mod Worker
pub mod Gas
pub mod Principal
pub mod Arguments
pub mod Task
pub mod Ocalls
pub mod Listener
mod Tests
