-- ===== src/Principal/Server/Refusing.antt =====
-- For whom `getStateKeys` answers.
use enigma_core.Prelude.{
  ℕ, ◌≡◌, inl, inr, refl, sym, ap, ◌∙◌, Option, none, some, List, Outcome, ok, err, panic, arith,
  Outcome-ok_of,
}
use enigma_core.Errors.{EnclaveError}
use enigma_core.StateKeys.{KeyStore}
use enigma_core.StateKeys.Request.{KeysRequest, Opened, open_request}
use enigma_core.StateKeys.Authorized.{AllSelected, get_enc_state_keys-authorized}
use enigma_core.Principal.{EpochState}
use enigma_core.Principal.Provider.{Host, Node}
use enigma_core.Principal.Server.{
  StateKeyRequest, StateKeyResponse, ServerCrates, get_data, get_sig, epoch_of, addresses_of,
  keys_request, answered, call_with, arguments, prepared, get_state_keys,
}

module _ {K S F Eth : Type 0} (h : Host S F Eth) (c : ServerCrates K) where
  answered-ok :
      (store store' : KeyStore F) (o : Option (Outcome EnclaveError (List ℕ × List ℕ) × KeyStore F))
      (response : StateKeyResponse)
      → answered h c store o ≡ (ok response, store')
      → (x : List ℕ × List ℕ) × (o ≡ some (ok x, store'))
  answered-ok store store' none response k = cc
  answered-ok store store' (some (ok x, s)) response k =
      (x, ap (λ s. some (ok x, s)) (ap (λ p. p.1) k))
  answered-ok store store' (some (err e, s)) response k = cc
  answered-ok store store' (some (panic, s)) response k = cc

  -- What the arguments of a call were made of.
  record IsPrepared (n : Node S F Eth) (request : StateKeyRequest) (r : KeysRequest K)
      : Type 0 where
    pub state : EpochState
    pub epoch : epoch_of h c request.block_number n ≡ ok state
    pub addresses : addresses_of h c request request.addresses state ≡ ok r.sc_addrs
    pub of_data : get_data h c request ≡ ok r.msg_bytes
    pub of_sig : get_sig h c request ≡ ok r.sig
    pub nonce : r.epoch_nonce ≡ h.enclave.hashing.uint256.to_big_endian state.nonce

  arguments-ok :
      (request : StateKeyRequest) (nonce : ℕ) (addrs : List (List ℕ)) (pair : Option K)
      (iv : Option (List ℕ)) (r : KeysRequest K)
      → arguments h c request nonce addrs pair iv ≡ ok r
      → (r.sc_addrs ≡ addrs)
        × (r.epoch_nonce ≡ h.enclave.hashing.uint256.to_big_endian nonce)
        × (get_data h c request ≡ ok r.msg_bytes)
        × (get_sig h c request ≡ ok r.sig)
  unfolding arguments
  arguments-ok request nonce addrs pair iv r k =
      let (bytes, f) =
        Outcome-ok_of (get_data h c request) (λ x q. ground arith) (λ q. ground arith) in
      let (sig, g) =
        Outcome-ok_of (get_sig h c request) (λ x q. ground arith) (λ q. ground arith) in
      let made : keys_request h c bytes sig addrs nonce pair iv ≡ r = ground arith in
      (
        ap (λ x. x.sc_addrs) (sym made),
        ap (λ x. x.epoch_nonce) (sym made),
        f ∙ ap (λ x. ok x.msg_bytes) made,
        g ∙ ap (λ x. ok x.sig) made,
      )

  prepared-ok :
      (n : Node S F Eth) (request : StateKeyRequest) (pair : Option K) (iv : Option (List ℕ))
      (r : KeysRequest K)
      → prepared h c n request pair iv ≡ ok r
      → IsPrepared n request r
  unfolding prepared
  prepared-ok n request pair iv r k =
      let (e, f) =
        Outcome-ok_of (epoch_of h c request.block_number n) (λ x q. ground arith)
          (λ q. ground arith) in
      let (addrs, g) =
        Outcome-ok_of (addresses_of h c request request.addresses e) (λ x q. ground arith)
          (λ q. ground arith) in
      let (same, nonce, of_data, of_sig) =
        arguments-ok request e.nonce addrs pair iv r (ground arith) in
      record {
        state = e;
        epoch = f;
        addresses = g ∙ ap ok (sym same);
        of_data = of_data;
        of_sig = of_sig;
        nonce = nonce;
      }

  -- Keys leave the node only for workers: when `getStateKeys` answers, the request was about an
  -- epoch that the host knows, and the enclave opened the message of the request with its signature,
  -- both decoded from the request's fields, and selects its signer, in the epoch of that state's
  -- nonce, for each of the contracts, be they named in the request or found by the host.
  pub get_state_keys-AllSelected :
      (n : Node S F Eth) (request : StateKeyRequest) (pair : Option K) (iv : Option (List ℕ))
      (store store' : KeyStore F) (response : StateKeyResponse)
      → get_state_keys h c n request pair iv store ≡ (ok response, store')
      → (e : EpochState) × (r : KeysRequest K) × (o : Opened) × (epoch_of h c request.block_number n
          ≡ ok e)
        × (addresses_of h c request request.addresses e ≡ ok r.sc_addrs)
        × (r.epoch_nonce ≡ h.enclave.hashing.uint256.to_big_endian e.nonce)
        × (get_data h c request ≡ ok r.msg_bytes)
        × (get_sig h c request ≡ ok r.sig)
        × (open_request c.enclave h.enclave_files r ≡ ok o)
        × AllSelected c.enclave h.enclave_files o.signer
            (c.enclave.epoch.hashing.uint256.from_big_endian r.epoch_nonce)
            r.sc_addrs
            n.keeper
  unfolding get_state_keys
  get_state_keys-AllSelected n request pair iv store store' response k =
      let (r, made) =
        Outcome-ok_of (prepared h c n request pair iv) (λ x q. ground arith) (λ q. ground arith) in
      let (x, called) =
        answered-ok store store' _ response (ap (call_with h c n store) (sym made) ∙ k) in
      let p = prepared-ok n request pair iv r made in
      elim (get_enc_state_keys-authorized c.enclave h.enclave_files n.keeper r store store' (ok x)
        called) [
          | inl (o, opened, all) ↦
              (p.state, r, o, p.epoch, p.addresses, p.nonce, p.of_data, p.of_sig, opened, all)
          | inr (_, failed) ↦ absurd (failed x refl)
        ]
