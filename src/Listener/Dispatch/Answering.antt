-- ===== src/Listener/Dispatch/Answering.antt =====
-- Each request of a message has its response.
use Prim.Native.String.{String}
use enigma_core.Prelude.{◌≡◌, ap, ap₂, ◌∙◌, Option, none, some, List, [], ◌∷◌, map, ok}
use enigma_core.Exec.{lift, pure, >>=-eq-ok}
use enigma_core.Database.{Rocks}
use enigma_core.Listener.{IpcRequest, IpcResponse, Message, Worker, expected}
use enigma_core.Listener.Enclave.{Ecalls}
use enigma_core.Listener.Tasks.{ListenerCrates}
use enigma_core.Listener.Dispatch.{handle_message}

abbrev pub id_of : {A : Type 0} → Option (Message A) → Option String
id_of none = none
id_of (some m) = some m.id

expected-ok : {A : Type 0} (o : Option A) (a : A) → expected o ≡ ok a → o ≡ some a
expected-ok none a h = cc h
expected-ok (some x) a h = ap some (cc h)

module _ {S D : Type 0} (c : ListenerCrates) (r : Rocks D) (e : Ecalls S D) where
  -- When the host answers a message, there is one response for each request, in the order of the
  -- requests and with their identifiers; an error is a response too.
  pub handle_message-ids :
      (message : List (Option (Message IpcRequest))) (responses : List (Message IpcResponse))
      (st st' : Worker S D)
      → handle_message c r e message st ≡ (ok responses, st')
      → map id_of message ≡ map (λ m. some m.id) responses
  unfolding handle_message lift pure
  handle_message-ids [] responses st st' h =
      let same : [] ≡ responses = cc (ap (λ p. p.0) h) in ap (map (λ m. some m.id)) same
  handle_message-ids (msg ∷ message) responses st st' h =
      let (m, st₁, read, h₁) = >>=-eq-ok _ _ st st' responses h in
      let (response, st₂, answered, h₂) = >>=-eq-ok _ _ st₁ st' responses h₁ in
      let (rest, st₃, next, h₃) = >>=-eq-ok _ _ st₂ st' responses h₂ in
      let same : (record { id = m.id; body = response }) ∷ rest ≡ responses =
        cc (ap (λ p. p.0) h₃) in
      ap₂ ◌∷◌ (ap id_of (expected-ok msg m (ap (λ p. p.0) read)))
        (handle_message-ids message rest st₂ st₃ next)
      ∙ ap (map (λ m. some m.id)) same
