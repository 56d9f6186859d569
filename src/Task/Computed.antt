-- ===== src/Task/Computed.antt =====
-- What a successful task is.
use enigma_core.Prelude.{ℕ, ◌≡◌, some, List, [], ◌∷◌, ok}
use enigma_core.Crypto.Hash.{prepare_hash_multiple}
use enigma_core.ContractState.{ContractState}
use enigma_core.Arguments.{decrypt_inputs}
use enigma_core.StateKeys.Store.{KeyMap, get}
use enigma_core.Worker.Build.{get_known}
use enigma_core.Task.{
  Engine, Executed, ExecuteResult, RuntimeResult, TaskCrates, TaskHost, into_result, sign_multiple,
  encrypted, execution_parts,
}

-- The hash of the encrypted inputs.
abbrev pub inputs_hash :
    {J P : Type 0} → TaskCrates J P → List ℕ → List ℕ → List ℕ → List ℕ → List ℕ
inputs_hash c callable args address user_key =
    c.states.keccak256 (prepare_hash_multiple (callable ∷ args ∷ address ∷ user_key ∷ []))

module _ {J P : Type 0} (c : TaskCrates J P) where
  -- From a state and the decrypted inputs through the engine to its result.
  pub record IsComputed (engine : Engine J) (bytecode callable args io_key address : List ℕ)
      (gas_limit : ℕ) (pre : ContractState J) (keys : KeyMap) (exec_res : RuntimeResult J)
      : Type 0 where
    pub inputs : List ℕ × List ℕ
    pub decrypted : decrypt_inputs c.states.aead c.is_utf8 callable args io_key ≡ ok inputs
    pub state_key : List ℕ
    pub has_key : get address keys ≡ some state_key
    pub executed : Executed J
    pub runs : engine bytecode gas_limit inputs.0 pre inputs.1 state_key ≡ ok executed
    pub results : into_result c state_key pre executed ≡ ok exec_res

module _ {J P D : Type 0} (c : TaskCrates J P) (host : TaskHost D) where
  -- A successful execution: the stored state, the result of the engine, its encryption, the signature
  -- over all of it, and the gas that is reported.
  pub record IsExecuted (engine : Engine J)
      (bytecode callable args user_key io_key address : List ℕ) (gas_limit : ℕ) (keys : KeyMap)
      (db : D) (result : ExecuteResult) : Type 0 where
    pub pre : ContractState J
    pub known : get_known c.states host.worker keys address db ≡ ok pre
    pub exec_res : RuntimeResult J
    pub computed :
        IsComputed c engine bytecode callable args io_key address gas_limit pre keys exec_res
    pub encrypted_output : List ℕ
    pub encrypts : encrypted c exec_res.output io_key ≡ ok encrypted_output
    pub signed :
        sign_multiple c (
          execution_parts c
            (c.states.keccak256 bytecode)
            (inputs_hash c callable args address user_key)
            pre
            exec_res
            encrypted_output
            gas_limit)
        ≡ ok result.signature
    pub gas : result.used_gas ≡ exec_res.used_gas
