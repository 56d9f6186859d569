-- ===== src/Principal/Server/Serving.antt =====
-- What `getStateKeys` answers, with the epoch of the host and the checks of the enclave.
use mathlib.Core.List.Memᴰ.{Memᴰ, head, tail}
use enigma_core.Prelude.{
  ℕ, ◌≡◌, refl, ap, ◌∙◌, Option, none, some, List, [], ◌∷◌, length, ==_iff, All, bytes_eq_refl, ok,
  arith, Outcome-ok_of,
}
use enigma_core.Storage.{FileSystem}
use enigma_core.Messages.{PrincipalMessage, from_message, to_sign, get_pubkey}
use enigma_core.Epoch.{Uint256Laws}
use enigma_core.Epoch.Keeper.{Keeper, get_epoch_worker}
use enigma_core.StateKeys.{KeyStore}
use enigma_core.StateKeys.Request.{
  RequestCrates, KeysRequest, Opened, open_request, check_workers, answer, get_enc_state_keys,
}
use enigma_core.StateKeys.Authorized.{AllSelected}
use enigma_core.Principal.{EpochState, get_contract_addresses}
use enigma_core.Principal.Provider.{Host, Node, find_last_epoch}
use enigma_core.Principal.Provider.Fresh.{IsAgreed}
use enigma_core.Principal.Server.{
  StateKeyRequest, ServerCrates, get_data, get_sig, find_epoch_contract_addresses, epoch_of,
  addresses_of, keys_request, answered, arguments, prepared, get_state_keys, call_with,
}

All-of : {A : Type 0} (P : A → Type 0) (xs : List A) → ((a : A) → Memᴰ a xs → P a) → All P xs
All-of P [] f = tt
All-of P (x ∷ xs) f = (f x (head refl), All-of P xs (λ a m. f a (tail m)))

module _ {K F : Type 0} (c : RequestCrates K) (fs : FileSystem F) where
  -- The checks pass for the selected worker.
  AllSelected-check_workers :
      (signer : List ℕ) (nonce : ℕ) (sc_addrs : List (List ℕ)) (epochs : Keeper F)
      → AllSelected c fs signer nonce sc_addrs epochs
      → check_workers c fs signer nonce sc_addrs epochs ≡ some (ok tt)
  unfolding check_workers
  AllSelected-check_workers signer nonce [] epochs h = refl
  AllSelected-check_workers signer nonce (a ∷ sc_addrs) epochs (h, hs) =
      rw (check_workers, h, bytes_eq_refl signer)
        (AllSelected-check_workers signer nonce sc_addrs epochs hs)

  AllSelected-get_enc_state_keys :
      (epochs : Keeper F) (r : KeysRequest K) (o : Opened) (store : KeyStore F)
      → open_request c fs r ≡ ok o
      → AllSelected c fs o.signer
          (c.epoch.hashing.uint256.from_big_endian r.epoch_nonce)
          r.sc_addrs
          epochs
      → get_enc_state_keys c fs epochs r store ≡ some (answer c fs r o store)
  unfolding get_enc_state_keys
  AllSelected-get_enc_state_keys epochs r o store opened all =
      rw
        (
          get_enc_state_keys,
          opened,
          AllSelected-check_workers o.signer (c.epoch.hashing.uint256.from_big_endian r.epoch_nonce)
              r.sc_addrs epochs all,
        )
        refl

module _ {K S F Eth : Type 0} (h : Host S F Eth) (c : ServerCrates K) where
  -- A request that the enclave can open, about the last epoch and all contracts of its signer.
  pub record IsWorkers (request : StateKeyRequest) (o : Opened) : Type 0 where
    pub msg_bytes : List ℕ
    pub sig : List ℕ
    pub of_data : c.from_hex request.request_data ≡ some msg_bytes
    pub of_sig : c.from_hex request.sig ≡ some sig
    pub sized : length sig ≡ 65
    pub no_block : request.block_number ≡ none
    pub no_addresses : request.addresses ≡ none
    pub opened :
        open_request c.enclave h.enclave_files (keys_request h c msg_bytes sig [] 0 none none)
        ≡ ok o

  get_sig-ok :
      (request : StateKeyRequest) (o : Opened)
      → (w : IsWorkers request o) → get_sig h c request ≡ ok w.sig
  unfolding get_sig
  get_sig-ok request o w = rw (w.of_sig, (==_iff (length w.sig) 65).1 w.sized) refl

  -- What the enclave read of a request that it can open.
  record IsRead (msg_bytes sig : List ℕ) (o : Opened) : Type 0 where
    pub msg : PrincipalMessage
    pub image : List ℕ
    pub key : List ℕ
    pub parsed : from_message c.enclave.formats msg_bytes ≡ ok msg
    pub imaged : to_sign msg ≡ ok image
    pub recovered : c.enclave.recover image sig ≡ ok key
    pub signer : o.signer ≡ c.enclave.address key

  open_request-IsRead :
      (r : KeysRequest K) (o : Opened)
      → open_request c.enclave h.enclave_files r ≡ ok o
      → IsRead r.msg_bytes r.sig o
  unfolding open_request
  open_request-IsRead r o e =
      let (msg, f₁) =
        Outcome-ok_of (from_message c.enclave.formats r.msg_bytes) (λ x k. ground arith)
          (λ k. ground arith) in
      let (user, f₂) = Outcome-ok_of (get_pubkey msg) (λ x k. ground arith) (λ k. ground arith) in
      let (image, f₃) = Outcome-ok_of (to_sign msg) (λ x k. ground arith) (λ k. ground arith) in
      let (key, f₄) =
        Outcome-ok_of (c.enclave.recover image r.sig) (λ x k. ground arith) (λ k. ground arith) in
      record {
        msg = msg;
        image = image;
        key = key;
        parsed = f₁;
        imaged = f₃;
        recovered = f₄;
        signer = ground arith;
      }

  -- The host finds the contracts of the signer that the enclave finds.
  addresses_of-signer :
      (request : StateKeyRequest) (o : Opened) (e : EpochState)
      → IsWorkers request o
      → addresses_of h c request none e ≡ get_contract_addresses o.signer e
  unfolding addresses_of find_epoch_contract_addresses get_data
  addresses_of-signer request o e w =
      let r = open_request-IsRead (keys_request h c w.msg_bytes w.sig [] 0 none none) o w.opened in
      rw (w.of_data, r.parsed, r.imaged, get_sig-ok request o w, r.recovered, r.signer) refl

  opened_same :
      (msg_bytes sig : List ℕ) (addrs : List (List ℕ)) (nonce : ℕ) (pair : Option K)
      (iv : Option (List ℕ))
      → open_request c.enclave h.enclave_files (keys_request h c msg_bytes sig addrs nonce pair iv)
        ≡ open_request c.enclave h.enclave_files (keys_request h c msg_bytes sig [] 0 none none)
  unfolding open_request
  opened_same msg_bytes sig addrs nonce pair iv = refl

  prepared-workers :
      (n : Node S F Eth) (request : StateKeyRequest) (o : Opened) (e : EpochState)
      (addrs : List (List ℕ)) (pair : Option K) (iv : Option (List ℕ))
      → (w : IsWorkers request o) → find_last_epoch h n ≡ ok e
      → get_contract_addresses o.signer e ≡ ok addrs
      → prepared h c n request pair iv
        ≡ ok (keys_request h c w.msg_bytes w.sig addrs e.nonce pair iv)
  unfolding prepared arguments epoch_of get_data addresses_of from_message get_sig
      find_epoch_contract_addresses
  prepared-workers n request o e addrs pair iv w found mine =
      rw
        (
          w.no_block,
          w.no_addresses,
          found,
          addresses_of-signer request o e w,
          mine,
          w.of_data,
          get_sig-ok request o w,
        )
        refl

  -- A worker is served with the epoch that was just set: after `set_worker_params` succeeded, a
  -- request without block and addresses that the enclave can open passes the enclave's checks for
  -- all the contracts that the host found for its signer, so its answer is that of the enclave's
  -- provision of keys, whatever that is. The host and the enclave use the same crates.
  pub get_state_keys-IsAgreed :
      (km : ℕ) (n₀ n : Node S F Eth)
      → (agreed : IsAgreed h km n₀ n) → Uint256Laws h.enclave.hashing.uint256
      → c.enclave.epoch ≡ h.enclave
      → (request : StateKeyRequest) (o : Opened) → (w : IsWorkers request o)
      → (pair : Option K) (iv : Option (List ℕ)) (store : KeyStore F)
      → (addrs : List (List ℕ)) × (get_contract_addresses o.signer agreed.state ≡ ok addrs)
        × (get_state_keys h c n request pair iv store
            ≡ answered h c store (
                some (
                  answer c.enclave h.enclave_files
                    (keys_request h c w.msg_bytes w.sig addrs agreed.state.nonce pair iv)
                    o
                    store)))
  unfolding get_state_keys
  get_state_keys-IsAgreed km n₀ n agreed laws same request o w pair iv store =
      let (addrs, got, parts) = agreed.agrees o.signer in
      let e = agreed.state in
      let r = keys_request h c w.msg_bytes w.sig addrs e.nonce pair iv in
      let nonce : c.enclave.epoch.hashing.uint256.from_big_endian r.epoch_nonce ≡ e.nonce =
        ap (λ x. x.hashing.uint256.from_big_endian r.epoch_nonce) same
        ∙ laws.from-to e.nonce agreed.nonce in
      let all =
        All-of
          (λ a.
            get_epoch_worker c.enclave.epoch h.enclave_files a
              (c.enclave.epoch.hashing.uint256.from_big_endian r.epoch_nonce) n.keeper
            ≡ some (ok o.signer))
          addrs
          (λ a m.
            ap
              (λ x.
                get_epoch_worker x h.enclave_files a
                  (c.enclave.epoch.hashing.uint256.from_big_endian r.epoch_nonce) n.keeper)
              same
            ∙ ap (λ x. get_epoch_worker h.enclave h.enclave_files a x n.keeper) nonce
            ∙ ((parts a).0 m).1) in
      let opened = opened_same w.msg_bytes w.sig addrs e.nonce pair iv ∙ w.opened in
      (
        addrs,
        got,
        ap (λ x. call_with h c n store x)
              (prepared-workers n request o e addrs pair iv w agreed.found got)
            ∙ ap (answered h c store) (
                AllSelected-get_enc_state_keys c.enclave h.enclave_files n.keeper r o store opened
                  all),
      )
