-- ===== src/Principal/Server/Transition.antt =====
-- Which steps of `getStateKeys` never fail with the error of an epoch transition.
use Prim.Native.String.{String}
use enigma_core.Prelude.{
  ℕ, ◌≡◌, ◌≢◌, inl, inr, refl, true, Bool-cases, Option-cases, Option, none, some, List, [], ◌∷◌,
  ◌==◌, Outcome, ok, err, panic, ◌>>=◌, arith,
}
use enigma_core.Errors.{EnclaveError}
use enigma_core.Errors.Codes.{EnclaveReturn}
use enigma_core.Messages.{to_sign, from_message}
use enigma_core.StateKeys.{KeyStore}
use enigma_core.StateKeys.Request.{KeysRequest}
use enigma_core.Principal.{
  HostError, enclave_fail, enclave_crash, epoch_state_transition, epoch_state_io,
  epoch_state_undefined, request_value, web3_error, bail_error, other_error, EpochState,
  get_contract_addresses,
}
use enigma_core.Principal.States.{is_confirmed}
use enigma_core.Principal.Provider.{Host, Node}
use enigma_core.Principal.Server.{
  StateKeyRequest, ServerCrates, illegal_state, handle_error, or_other, other_from, sized_sig,
  get_data, get_sig, address_from_hex, addresses_from_hex, find_epoch_contract_addresses,
  addresses_of, answered, call_with, arguments,
}

-- Not the error of a transition.
abbrev pub IsOther : {A : Type 0} → Outcome HostError A → Type 0
IsOther x = x ≢ err epoch_state_transition

or_other-IsOther : {A : Type 0} (o : Option A) → IsOther (or_other o)
or_other-IsOther none h = cc h
or_other-IsOther (some a) h = cc h

other_from-IsOther : {E A : Type 0} (o : Outcome E A) → IsOther (other_from o)
other_from-IsOther (ok a) h = cc h
other_from-IsOther (err e) h = cc h
other_from-IsOther panic h = cc h

pub chain-IsOther :
    {A B : Type 0} (x : Outcome HostError A) (f : A → Outcome HostError B)
    → IsOther x
    → ((a : A) → IsOther (f a))
    → IsOther (x >>= f)
chain-IsOther (ok a) f first next h = next a h
chain-IsOther (err e) f first next h = first (cc h)
chain-IsOther panic f first next h = cc h

sized_sig-IsOther : (bytes : List ℕ) → IsOther (sized_sig bytes)
sized_sig-IsOther bytes h = ground arith

pub handle_error-illegal_state :
    (e : HostError) → handle_error e ≡ illegal_state → e ≡ epoch_state_transition
unfolding handle_error
handle_error-illegal_state (enclave_fail EnclaveReturn.success) h = cc h
handle_error-illegal_state (enclave_fail EnclaveReturn.task_failure) h = cc h
handle_error-illegal_state (enclave_fail EnclaveReturn.keys_error) h = cc h
handle_error-illegal_state (enclave_fail EnclaveReturn.encryption_error) h = cc h
handle_error-illegal_state (enclave_fail EnclaveReturn.signing_error) h = cc h
handle_error-illegal_state (enclave_fail EnclaveReturn.recovering_error) h = cc h
handle_error-illegal_state (enclave_fail EnclaveReturn.permission_error) h = cc h
handle_error-illegal_state (enclave_fail EnclaveReturn.sgx_error) h = cc h
handle_error-illegal_state (enclave_fail EnclaveReturn.state_error) h = cc h
handle_error-illegal_state (enclave_fail EnclaveReturn.ocall_error) h = cc h
handle_error-illegal_state (enclave_fail EnclaveReturn.ocall_db_error) h = cc h
handle_error-illegal_state (enclave_fail EnclaveReturn.messaging_error) h = cc h
handle_error-illegal_state (enclave_fail EnclaveReturn.worker_auth_error) h = cc h
handle_error-illegal_state (enclave_fail EnclaveReturn.key_provision_error) h = cc h
handle_error-illegal_state (enclave_fail EnclaveReturn.other) h = cc h
handle_error-illegal_state enclave_crash h = cc h
handle_error-illegal_state epoch_state_transition h = refl
handle_error-illegal_state epoch_state_io h = cc h
handle_error-illegal_state epoch_state_undefined h = cc h
handle_error-illegal_state request_value h = cc h
handle_error-illegal_state web3_error h = cc h
handle_error-illegal_state bail_error h = cc h
handle_error-illegal_state other_error h = cc h

module _ {K S F Eth : Type 0} (h : Host S F Eth) (c : ServerCrates K) where
  get_data-IsOther : (request : StateKeyRequest) → IsOther (get_data h c request)
  unfolding get_data
  get_data-IsOther request = or_other-IsOther _

  get_sig-IsOther : (request : StateKeyRequest) → IsOther (get_sig h c request)
  unfolding get_sig
  get_sig-IsOther request =
      chain-IsOther (or_other (c.from_hex request.sig)) sized_sig (or_other-IsOther _)
        sized_sig-IsOther

  address_from_hex-IsOther : (item : String) → IsOther (address_from_hex h c item)
  address_from_hex-IsOther item = elim (Bool-cases (c.len item == 64)) [
    | inl e ↦ rw e (or_other-IsOther _)
    | inr e ↦ rw e (λ k. cc k)
  ]

  addresses_from_hex-IsOther : (items : List String) → IsOther (addresses_from_hex h c items)
  unfolding addresses_from_hex
  addresses_from_hex-IsOther [] = λ k. cc k
  addresses_from_hex-IsOther (item ∷ items) =
      chain-IsOther (address_from_hex h c item) _ (address_from_hex-IsOther item) (λ addr.
        chain-IsOther (addresses_from_hex h c items) _ (addresses_from_hex-IsOther items)
          (λ addrs k. cc k))

  -- The contracts of a worker in a confirmed state.
  get_contract_addresses-IsOther :
      (worker : List ℕ) (e : EpochState)
      → is_confirmed e ≡ true
      → IsOther (get_contract_addresses worker e)
  unfolding get_contract_addresses
  get_contract_addresses-IsOther worker e f k = elim (Option-cases e.confirmed_state) [
    | inl g ↦ cc (f, g)
    | inr (s, g) ↦ cc (rw g at k)
  ]

  pub addresses_of-IsOther :
      (request : StateKeyRequest) (o : Option (List String)) (e : EpochState)
      → is_confirmed e ≡ true
      → IsOther (addresses_of h c request o e)
  unfolding addresses_of find_epoch_contract_addresses
  addresses_of-IsOther request (some items) e f = addresses_from_hex-IsOther items
  addresses_of-IsOther request none e f =
      chain-IsOther (get_data h c request) _ (get_data-IsOther request) (λ bytes.
        let message = from_message c.enclave.formats bytes in
        chain-IsOther (other_from message) _ (other_from-IsOther message) (λ msg.
          chain-IsOther (other_from (to_sign msg)) _ (other_from-IsOther (to_sign msg)) (λ image.
            chain-IsOther (get_sig h c request) _ (get_sig-IsOther request) (λ sig.
              let key = c.enclave.recover image sig in
              chain-IsOther (other_from key) _ (other_from-IsOther key)
                (λ k. get_contract_addresses-IsOther (c.enclave.address k) e f)))))

  pub arguments-IsOther :
      (request : StateKeyRequest) (nonce : ℕ) (addrs : List (List ℕ)) (pair : Option K)
      (iv : Option (List ℕ))
      → IsOther (arguments h c request nonce addrs pair iv)
  unfolding arguments
  arguments-IsOther request nonce addrs pair iv =
      chain-IsOther _ _ (get_data-IsOther request)
        (λ bytes. chain-IsOther _ _ (get_sig-IsOther request) (λ sig k. cc k))

  answered-IsOther :
      (store : KeyStore F) (o : Option (Outcome EnclaveError (List ℕ × List ℕ) × KeyStore F))
      → IsOther (answered h c store o).0
  answered-IsOther store none k = cc k
  answered-IsOther store (some (ok (response, sig), s)) k = cc k
  answered-IsOther store (some (err e, s)) k = cc k
  answered-IsOther store (some (panic, s)) k = cc k

  pub call_with-transition :
      (n : Node S F Eth) (store : KeyStore F) (x : Outcome HostError (KeysRequest K))
      → (call_with h c n store x).0 ≡ err epoch_state_transition
      → x ≡ err epoch_state_transition
  call_with-transition n store (ok r) k = absurd (answered-IsOther store _ k)
  call_with-transition n store (err e) k = cc k
  call_with-transition n store panic k = cc k
