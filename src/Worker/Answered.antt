-- ===== src/Worker/Answered.antt =====
-- A response is taken once.
use enigma_core.Prelude.{
  ℕ, ◌≡◌, refl, sym, ap, ◌∙◌, none, some, List, [], ◌∷◌, bytes_eq_refl, bytes_eq, Bool-cases, inl,
  inr, ok, err, >>=-eq-ok,
}
use enigma_core.Crypto.Errors.{missing_key_error}
use enigma_core.Exec as Exec
use enigma_core.Exec.{pure, lift, check, modify}
use enigma_core.Messages.{
  AddressedKey, PrincipalMessage, response, from_message, decrypt, request, to_sign, into_message,
  new,
}
use enigma_core.Messages.RoundTrip.{get_pubkey-from_message}
use enigma_core.StateKeys.Request.{from_crypto, from_tools}
use enigma_core.Worker.{
  PairMap, WorkerKeys, WorkerCrates, find_pair, drop_pair, insert_all, make_request, ptt_req,
  read_response, ptt_res,
}

find_pair-drop_pair :
    {K : Type 0} (id : List ℕ) (m : PairMap K) → find_pair id (drop_pair id m) ≡ none
unfolding find_pair drop_pair
find_pair-drop_pair id [] = refl
find_pair-drop_pair id ((i, pair) ∷ m) = elim (Bool-cases (bytes_eq i id)) [
  | inl e ↦ rw e (find_pair-drop_pair id m)
  | inr e ↦ rw (e, e) (find_pair-drop_pair id m)
]

module _ {K : Type 0} (c : WorkerCrates K) where
  -- The state after a request for keys that made the pair and drew the id.
  abbrev pub asked : K → List ℕ → WorkerKeys K → WorkerKeys K
  asked pair id st = record st { dh_keys = (id, pair) ∷ drop_pair id st.dh_keys }

  abbrev pub answered : List ℕ → List AddressedKey → WorkerKeys K → WorkerKeys K
  answered id v st = record st {
    state_keys = insert_all v st.state_keys;
    dh_keys = drop_pair id st.dh_keys;
  }

  asked-eq :
      (p q : K) (i j : List ℕ) (s t : WorkerKeys K)
      → p ≡ q
      → i ≡ j
      → s ≡ t
      → asked p i s ≡ asked q j t
  asked-eq p q i j s t a b d = rw (a, b, d) refl

  make_request-parts :
      (pair : K) (id : List ℕ) (made : K × (List ℕ × (List ℕ × List ℕ)))
      → make_request c (some pair) (some id) ≡ ok made
      → (made.0 ≡ pair) × (made.1.0 ≡ id)
  unfolding make_request new
  make_request-parts pair id made h =
      let req : PrincipalMessage = record {
        body = request;
        pubkey = c.pair_pubkey pair;
        id = id;
      } in
      let (image, _, h₁) = >>=-eq-ok (from_tools (to_sign req)) _ h in
      let (sig, _, h₂) = >>=-eq-ok (from_crypto (c.sign image)) _ h₁ in
      let (msg, _, h₃) = >>=-eq-ok (from_tools (into_message c.formats req)) _ h₂ in
      let whole : ok (pair, (id, (msg, sig))) ≡ ok made = h₃ in (cc whole, cc whole)

  make_request-ok :
      (pair : K) (id msg sig : List ℕ) (st st₁ : WorkerKeys K)
      → ptt_req c (some pair) (some id) st ≡ (ok (msg, sig), st₁)
      → st₁ ≡ asked pair id st
  unfolding ptt_req pure lift modify Exec.◌>>=◌
  make_request-ok pair id msg sig st st₁ h =
      let (made, between, e, rest) =
        Exec.>>=-eq-ok (lift (make_request c (some pair) (some id))) _ st st₁ (msg, sig) h in
      let (is_pair, is_id) = make_request-parts pair id made (cc e) in
      let same : st ≡ between = ap (λ x. x.1) e in
      let ends : asked made.0 made.1.0 between ≡ st₁ = ap (λ x. x.1) rest in
      sym ends ∙ asked-eq made.0 pair made.1.0 id between st is_pair is_id (sym same)

  found_pair :
      (pair : K) (id : List ℕ) (st : WorkerKeys K)
      → find_pair id (asked pair id st).dh_keys ≡ some pair
  unfolding find_pair
  found_pair pair id st = rw (bytes_eq_refl id) refl

  ptt_res-asked :
      (st : WorkerKeys K) (pair : K) (m : PrincipalMessage) (v : List AddressedKey) (b key : List ℕ)
      → find_pair m.id st.dh_keys ≡ some pair
      → from_message c.formats b ≡ ok m
      → c.derive_key pair m.pubkey ≡ ok key
      → decrypt c.formats c.aead m key ≡ ok (record m { body = response v })
      → ptt_res c b st ≡ (ok tt, answered m.id v st)
  unfolding ptt_res read_response check modify Exec.◌>>=◌
  ptt_res-asked st pair m v b key found received derived decrypted =
      rw (received, found, (get_pubkey-from_message c.formats b m received).0, derived, decrypted)
        refl

  ptt_res-unknown :
      (st : WorkerKeys K) (m : PrincipalMessage) (b : List ℕ)
      → find_pair m.id st.dh_keys ≡ none
      → from_message c.formats b ≡ ok m
      → ptt_res c b st ≡ (from_crypto (err (missing_key_error "DH Keys")), st)
  unfolding ptt_res read_response check modify Exec.◌>>=◌
  ptt_res-unknown st m b unknown received = rw (received, unknown) refl

  -- A response to a request of the worker, which decrypts to some keys with the key that the
  -- request's pair derives, adds exactly these keys to the state keys and leaves the keys of users;
  -- the same bytes again are refused and change nothing.
  pub ptt_res-ptt_req :
      (pair : K) (msg sig : List ℕ) (st st₁ : WorkerKeys K) (m : PrincipalMessage)
      (v : List AddressedKey) (b key : List ℕ)
      → ptt_req c (some pair) (some m.id) st ≡ (ok (msg, sig), st₁)
      → from_message c.formats b ≡ ok m
      → c.derive_key pair m.pubkey ≡ ok key
      → decrypt c.formats c.aead m key ≡ ok (record m { body = response v })
      → (st₂ : WorkerKeys K) × (ptt_res c b st₁ ≡ (ok tt, st₂))
        × (st₂.state_keys ≡ insert_all v st.state_keys)
        × (st₂.user_keys ≡ st.user_keys)
        × (ptt_res c b st₂ ≡ (from_crypto (err (missing_key_error "DH Keys")), st₂))
  ptt_res-ptt_req pair msg sig st st₁ m v b key run received derived decrypted =
      let st₂ = answered m.id v (asked pair m.id st) in
      (
        st₂,
        rw (make_request-ok pair m.id msg sig st st₁ run) (
            ptt_res-asked (asked pair m.id st) pair m v b key (found_pair pair m.id st) received
              derived decrypted),
        refl,
        refl,
        ptt_res-unknown st₂ m b (find_pair-drop_pair m.id (asked pair m.id st).dh_keys) received,
      )
