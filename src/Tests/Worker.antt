-- ===== src/Tests/Worker.antt =====
-- A worker's request and the response to it, at concrete inputs.
use enigma_core.Prelude.{ℕ, ◌+◌, ◌≡◌, refl, some, List, [], ◌∷◌, ◌++◌, replicate, ok, err}
use enigma_core.Crypto.Errors.{deriving_key_error, missing_key_error}
use enigma_core.Messages.{
  PrincipalMessage, AddressedKey, response, encrypted_response, from_message, decrypt,
}
use enigma_core.StateKeys.Request.{from_crypto}
use enigma_core.Worker.{WorkerKeys, WorkerCrates, insert_all, ptt_req, ptt_res}
use enigma_core.Worker.Answered.{asked, ptt_res-ptt_req}
use enigma_core.Tests.Crates.{toy_aead}
use enigma_core.Tests.Formats.{formats}

abbrev crates : WorkerCrates ℕ
crates = record {
  formats = formats;
  user_formats = record { pack = λ m. some m.pubkey; unpack = λ b. some (record { pubkey = b }) };
  aead = toy_aead;
  sign = λ image. ok (7 ∷ []);
  derive_key = λ k p. elim p [ [] ↦ err deriving_key_error | n ∷ _ ↦ ok ((k + n) ∷ []) ];
  pair_pubkey = λ k. replicate 64 k;
}

abbrev fresh : WorkerKeys ℕ
fresh = record { state_keys = []; dh_keys = []; user_keys = [] }

abbrev keys : List AddressedKey
keys = (5 ∷ [], replicate 32 1) ∷ []

abbrev reply : PrincipalMessage
reply = record {
  body = encrypted_response ((1 ∷ 5 ∷ replicate 32 1) ++ replicate 16 0 ++ replicate 12 9);
  pubkey = replicate 64 11;
  id = replicate 12 4;
}

abbrev reply_bytes : List ℕ
reply_bytes =
    1 ∷ 62 ∷ 64 ∷ (1 ∷ 5 ∷ replicate 32 1)
    ++ replicate 16 0
    ++ replicate 12 9
    ++ replicate 64 11
    ++ replicate 12 4

abbrev asks : List ℕ
asks = 0 ∷ 0 ∷ 64 ∷ replicate 64 2 ++ replicate 12 4

asked_now :
    ptt_req crates (some 2) (some (replicate 12 4)) fresh
    ≡ (ok (asks, 7 ∷ []), asked crates 2 (replicate 12 4) fresh)
unfolding ptt_req enigma_core.Exec.◌>>=◌ enigma_core.Messages.new enigma_core.Messages.to_sign
    enigma_core.Messages.into_message
asked_now = refl

received : from_message formats reply_bytes ≡ ok reply
unfolding from_message
received = refl

decrypted : decrypt formats toy_aead reply (13 ∷ []) ≡ ok (record reply { body = response keys })
unfolding decrypt enigma_core.Crypto.Symmetric.decrypt
decrypted = refl

ptt_res-ptt_req_example :
    (st : WorkerKeys ℕ) × (ptt_res crates reply_bytes (asked crates 2 (replicate 12 4) fresh)
      ≡ (ok tt, st))
    × (st.state_keys ≡ insert_all keys [])
    × (st.user_keys ≡ [])
    × (ptt_res crates reply_bytes st ≡ (from_crypto (err (missing_key_error "DH Keys")), st))
ptt_res-ptt_req_example =
    ptt_res-ptt_req crates 2 asks (7 ∷ []) fresh (asked crates 2 (replicate 12 4) fresh) reply keys
      reply_bytes (13 ∷ []) asked_now received refl decrypted
