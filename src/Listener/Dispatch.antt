-- ===== src/Listener/Dispatch.antt =====
-- `handle_message`: the requests of a multipart message, each with its response.
pub mod Rebuilding
pub mod Answering
pub mod Removing
use enigma_core.Prelude.{Option, none, some, List, [], ◌∷◌, Outcome, ok, err, panic}
use enigma_core.Exec.{Run, check, lift, pure, ◌>>=◌}
use enigma_core.Database.{Rocks}
use enigma_core.Listener as Listener
use enigma_core.Listener.{
  IpcRequest, IpcResponse, ListenerError, Message, Worker, Handler, error_response, expected,
}
use enigma_core.Listener.Enclave.{Ecalls}
use enigma_core.Listener.Queries as Queries
use enigma_core.Listener.Updates as Updates
use enigma_core.Listener.Tasks as Tasks
use enigma_core.Listener.Tasks.{ListenerCrates}

-- `unwrap_or_error`.
abbrev pub unwrap_or_error :
    {S D : Type 0}
    → Outcome ListenerError IpcResponse × Worker S D
    → Outcome ListenerError IpcResponse × Worker S D
unwrap_or_error (ok m, st) = (ok m, st)
unwrap_or_error (err e, st) = (ok (error_response e), st)
unwrap_or_error (panic, st) = (panic, st)

module _ {S D : Type 0} (c : ListenerCrates) (r : Rocks D) (e : Ecalls S D) where
  unfoldable pub handle : IpcRequest → Handler S D IpcResponse
  handle Listener.get_registration_params = lift (Tasks.get_registration_params c)
  handle (Listener.get_tip input) = check (λ st. Queries.get_tip r c.hex input st.database)
  handle (Listener.get_tips input) = check (λ st. Queries.get_tips r c.hex input st.database)
  handle Listener.get_all_tips = check (λ st. Queries.get_all_tips r c.hex st.database)
  handle Listener.get_all_addrs = check (λ st. Queries.get_all_addrs r c.hex st.database)
  handle (Listener.get_delta input) = check (λ st. Queries.get_delta r c.hex input st.database)
  handle (Listener.get_deltas input) = check (λ st. Queries.get_deltas r c.hex input st.database)
  handle (Listener.get_contract input) =
      check (λ st. Queries.get_contract r c.hex input st.database)
  handle (Listener.update_new_contract address bytecode) =
      Updates.update_new_contract r c.hex address bytecode
  handle (Listener.update_new_contract_on_deployment address bytecode d) =
      Updates.update_new_contract_on_deployment r c.hex address bytecode d
  handle (Listener.remove_contract address) = Updates.remove_contract r c.hex address
  handle (Listener.update_deltas deltas) = Updates.update_deltas r c.hex deltas
  handle (Listener.remove_deltas input) = Updates.remove_deltas r c.hex input
  handle (Listener.new_task_encryption_key user_pubkey) = Tasks.get_dh_user_key c r e user_pubkey
  handle (Listener.deploy_secret_contract input) = Tasks.deploy_contract c r e input
  handle (Listener.compute_task input) = Tasks.compute_task c r e input
  handle Listener.get_ptt_request = Tasks.get_ptt_req c r e
  handle (Listener.ptt_response input) = Tasks.ptt_response c r e input

  abbrev pub respond : IpcRequest → Handler S D IpcResponse
  respond request st = unwrap_or_error (handle request st)

  -- A message that is not a request panics.
  unfoldable pub handle_message :
      List (Option (Message IpcRequest)) → Handler S D (List (Message IpcResponse))
  handle_message [] = pure []
  handle_message (msg ∷ request) = do
    m ← lift (expected msg)
    response_msg ← respond m.body
    responses ← handle_message request
    pure (record { id = m.id; body = response_msg } ∷ responses)
