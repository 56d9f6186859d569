-- ===== src/Tests/Request.antt =====
-- The handler of requests for state keys, at a request that is served.
use enigma_core.Prelude.{
  ℕ, ◌+◌, ◌≡◌, ◌≢◌, ◌≤◌, length-append, refl, ap, ap₂, ◌∙◌, sym, inl, inr, Option, none, some, List,
  [], ◌∷◌, ◌++◌, arith, length, replicate, length-replicate, ok, err, true, subst, zero, suc, ◌⊎◌,
  All, Outcome,
}
use enigma_core.Errors.{EnclaveError}
use enigma_core.Crypto.Errors.{deriving_key_error}
use enigma_core.Crypto.Symmetric.{iv_size}
use enigma_core.Messages.{AddressedKey, PrincipalMessage, request, response, from_message, decrypt}
use enigma_core.Epoch.{InputWorkerParams, Epoch}
use enigma_core.Epoch.Keeper.{Keeper, get_epoch_worker}
use enigma_core.StateKeys.{KeyCrates, KeyStore, build_response}
use enigma_core.StateKeys.Store.{get}
use enigma_core.StateKeys.Answers.{addresses, Cached}
use enigma_core.StateKeys.Request.{
  RequestCrates, KeysRequest, Opened, open_request, get_enc_state_keys,
}
use enigma_core.StateKeys.Authorized.{
  AllSelected, get_enc_state_keys-authorized, get_enc_state_keys_total,
}
use enigma_core.StateKeys.Delivered.{DeliveryLaws, get_enc_state_keys-delivered}
use enigma_core.Tests.Crates.{toy_aead, toy_aead_laws, hashing, sgx, Files, files}
use enigma_core.Tests.Formats.{formats, formats_laws}
use enigma_core.Tests.StateKeys.{key_crates, no_files, empty}

-- One worker, with all of the stake; the address of a key is the key.
abbrev pub request_crates : RequestCrates ℕ
request_crates = record {
  epoch = record {
    hashing = hashing;
    decode = λ b. none;
    sign = λ m. some (1 ∷ []);
    marker_path = λ n. "epoch";
    sgx = sgx;
  };
  keys = key_crates;
  formats = formats;
  aead = toy_aead;
  recover = λ image sig. ok sig;
  address = λ key. key;
  derive_key = λ k p. elim p [ [] ↦ err deriving_key_error | n ∷ _ ↦ ok ((k + n) ∷ []) ];
  pair_pubkey = λ k. replicate 64 k;
}

abbrev worker : List ℕ
worker = 8 ∷ []

abbrev epochs : Keeper Files
epochs = record {
  cache =
      (
        3,
        record {
          nonce = 3;
          seed = 6;
          worker_params = record { km_block_number = 1; workers = worker ∷ []; stakes = 1 ∷ [] };
        },
      )
      ∷ [];
  files = no_files;
  out = record { rand_out = []; nonce_out = []; sig_out = [] };
}

abbrev asks : List ℕ → KeysRequest ℕ
asks sig = record {
  msg_bytes = 0 ∷ 0 ∷ 64 ∷ replicate 64 2 ++ replicate 12 4;
  sc_addrs = (5 ∷ []) ∷ [];
  sig = sig;
  epoch_nonce = 3 ∷ [];
  new_pair = some 11;
  iv = some (replicate 12 9);
}

abbrev opened : Opened
opened = record {
  msg = record { body = request; pubkey = replicate 64 2; id = replicate 12 4 };
  user_pubkey = replicate 64 2;
  signer = worker;
}

opens : open_request request_crates files (asks worker) ≡ ok opened
unfolding open_request from_message enigma_core.Messages.get_pubkey enigma_core.Messages.to_sign
opens = refl

abbrev one_served : KeyStore Files
one_served = (build_response key_crates files ((5 ∷ []) ∷ []) empty).1

abbrev response_bytes : List ℕ
response_bytes =
    1 ∷ 62 ∷ 64 ∷ (1 ∷ 5 ∷ replicate 32 1)
    ++ replicate 16 0
    ++ replicate 12 9
    ++ replicate 64 11
    ++ replicate 12 4

delivers :
    get_enc_state_keys request_crates files epochs (asks worker) empty
    ≡ some (ok (response_bytes, 1 ∷ []), one_served)
unfolding get_enc_state_keys from_message enigma_core.Messages.get_pubkey
    enigma_core.Messages.to_sign get_epoch_worker enigma_core.Epoch.Cache.get
    enigma_core.Prelude.from_be_bytes enigma_core.Epoch.Selection.epoch_get_selected_worker
    enigma_core.Epoch.Selection.get_selected_worker enigma_core.Epoch.Selection.get_selected_workers
    enigma_core.Epoch.Selection.sum_stakes enigma_core.Epoch.Selection.select_loop
    enigma_core.Epoch.Selection.draw_worker enigma_core.Epoch.Selection.rem_u256
    enigma_core.Epoch.Selection.pick_worker enigma_core.Prelude.to_be_bytes
    enigma_core.Epoch.Selection.raw_encode enigma_core.Epoch.Selection.contains
    enigma_core.Exec.◌>>=◌ enigma_core.Messages.encrypt_with_nonce enigma_core.Messages.into_message
    enigma_core.Messages.new_id enigma_core.Crypto.Symmetric.encrypt_with_nonce
    enigma_core.StateKeys.Request.answer build_response enigma_core.StateKeys.get_state_keys
    enigma_core.StateKeys.get_state_key enigma_core.StateKeys.Store.get
    enigma_core.Storage.is_document enigma_core.StateKeys.new_addrs
    enigma_core.StateKeys.new_state_keys enigma_core.StateKeys.new_state_key
    enigma_core.Storage.seal enigma_core.Storage.save_sealed_document enigma_core.StateKeys.respond
    enigma_core.StateKeys.Store.insert
delivers = refl

delivery_laws : DeliveryLaws request_crates
delivery_laws = record {
  formats = formats_laws;
  aead = toy_aead_laws;
  agreement = λ k k'. ap (λ n. ok (n ∷ [])) (omega arith);
  is_key = λ k p key h. derived-is_key k p key h;
  length-pubkey = λ k. length-replicate {A = ℕ} 64 k;
}
  where
    derived-is_key :
        (k : ℕ) (p key : List ℕ)
        → request_crates.derive_key k p ≡ ok key
        → request_crates.aead.is_key key ≡ true
    derived-is_key k [] key h = cc h
    derived-is_key k (n ∷ p) key h =
        let made : (k + n) ∷ [] ≡ key = cc h in
        subst (λ x. request_crates.aead.is_key x ≡ true) made refl

one_cached : get (5 ∷ []) one_served.keys ≡ some (replicate 32 1)
unfolding get_enc_state_keys from_message enigma_core.Messages.get_pubkey
    enigma_core.Messages.to_sign get_epoch_worker enigma_core.Epoch.Cache.get
    enigma_core.Prelude.from_be_bytes enigma_core.Epoch.Selection.epoch_get_selected_worker
    enigma_core.Epoch.Selection.get_selected_worker enigma_core.Epoch.Selection.get_selected_workers
    enigma_core.Epoch.Selection.sum_stakes enigma_core.Epoch.Selection.select_loop
    enigma_core.Epoch.Selection.draw_worker enigma_core.Epoch.Selection.rem_u256
    enigma_core.Epoch.Selection.pick_worker enigma_core.Prelude.to_be_bytes
    enigma_core.Epoch.Selection.raw_encode enigma_core.Epoch.Selection.contains
    enigma_core.Exec.◌>>=◌ enigma_core.Messages.encrypt_with_nonce enigma_core.Messages.into_message
    enigma_core.Messages.new_id enigma_core.Crypto.Symmetric.encrypt_with_nonce
    enigma_core.StateKeys.Request.answer build_response enigma_core.StateKeys.get_state_keys
    enigma_core.StateKeys.get_state_key enigma_core.StateKeys.Store.get
    enigma_core.Storage.is_document enigma_core.StateKeys.new_addrs
    enigma_core.StateKeys.new_state_keys enigma_core.StateKeys.new_state_key
    enigma_core.Storage.seal enigma_core.Storage.save_sealed_document enigma_core.StateKeys.respond
    enigma_core.StateKeys.Store.insert
one_cached = refl

one_key_fits :
    (keys : List AddressedKey) (buf : List ℕ)
    → addresses keys ≡ (5 ∷ []) ∷ []
    → Cached one_served.keys keys
    → formats.pack_keys keys ≡ some buf
    → length buf ≤ 1000
one_key_fits [] buf a h p = cc p
one_key_fits ((b, key) ∷ []) buf a (h, _) p =
    let five : b ≡ 5 ∷ [] = cc a in
    let is_key : key ≡ replicate 32 1 =
      cc (subst (λ x. get x one_served.keys ≡ some key) five h, one_cached) in
    let made : length b ∷ b ++ key ≡ buf = cc p in
    omega (arith, ap length made, length-append b key, ap length is_key, ap length five)
one_key_fits (_ ∷ _ ∷ _) buf a h p = cc p

get_enc_state_keys-delivered_example :
    (keys : List AddressedKey) × (m : PrincipalMessage) × (key : List ℕ) × (addresses keys
      ≡ (5 ∷ []) ∷ [])
    × Cached one_served.keys keys
    × (from_message formats response_bytes ≡ ok m)
    × (m.id ≡ replicate 12 4)
    × (request_crates.derive_key 2 m.pubkey ≡ ok key)
    × (decrypt formats toy_aead m key ≡ ok (record m { body = response keys }))
unfolding toy_aead_laws delivery_laws
get_enc_state_keys-delivered_example =
    get_enc_state_keys-delivered request_crates files delivery_laws epochs (asks worker) opened 2
      empty one_served response_bytes (1 ∷ []) (replicate 12 9) opens refl refl refl one_key_fits
      delivers

get_enc_state_keys_total_example :
    (out : Outcome EnclaveError (List ℕ × List ℕ)) × (s' : KeyStore Files) × (get_enc_state_keys
        request_crates files epochs
        (asks (9 ∷ []))
        empty
      ≡ some (out, s'))
get_enc_state_keys_total_example =
    get_enc_state_keys_total request_crates files epochs (asks (9 ∷ [])) empty

get_enc_state_keys-authorized_example :
    ((o : Opened) × (open_request request_crates files (asks worker) ≡ ok o)
      × AllSelected request_crates files o.signer 3 ((5 ∷ []) ∷ []) epochs)
    ⊎ ((one_served ≡ empty)
        × ((x : List ℕ × List ℕ)
            → ¬ (
                ◌≡◌ {A = Outcome EnclaveError (List ℕ × List ℕ)}
                  (ok (response_bytes, 1 ∷ []))
                  (ok x))))
unfolding enigma_core.Prelude.from_be_bytes
get_enc_state_keys-authorized_example =
    get_enc_state_keys-authorized request_crates files epochs (asks worker) empty one_served
      (ok (response_bytes, 1 ∷ [])) delivers
