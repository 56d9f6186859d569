-- ===== src/Ocalls/Stored.antt =====
-- What a task stores through the calls, and what is read back: `store_delta_and_state` over the database.
use enigma_core.Prelude.{
  ℕ, ◌≡◌, ◌⊎◌, inl, inr, refl, sym, ap, subst, ◌∙◌, Option, none, some, List, length, true, Outcome,
  ok, err, panic, arith,
}
use enigma_core.Exec.{Exec as Handler}
use enigma_core.Crypto.Symmetric.{iv_size}
use enigma_core.ContractState.{
  ContractState, EncryptedContractState, EncryptedPatch, StateCrates, encrypt_state,
}
use enigma_core.ContractState.Deltas.{StateLaws}
use enigma_core.ContractState.RoundTrip.{decrypt_state-encrypt_state}
use enigma_core.Database.{DbError, Hex}
use enigma_core.Database.Key.{delta_key, delta_as_split, type_key, delta, state}
use enigma_core.Database.Crud.{read, force_update}
use enigma_core.Database.Crud.Laws.{RocksLaws, read-written}
use enigma_core.StateKeys.Store.{KeyMap, get}
use enigma_core.Worker.Build.{encrypt_known, get_known}
use enigma_core.Task.{TaskCrates, Task}
use enigma_core.Task.Run.{store_delta_and_state}
use enigma_core.Task.Storing.{IsStored, IsTakenBack, store_delta_and_state-outcome}
use enigma_core.Ocalls.{OcallCrates, key_of, read_state}
use enigma_core.Ocalls.Reference.{written_as, database_host, database_tasks}

written_as-ok :
    {D : Type 0} (command : _) (p : Outcome DbError (Unit {0}) × D) (db : D)
    → written_as command p ≡ (ok tt, db)
    → p ≡ (ok tt, db)
written_as-ok command (ok u, db') db h = ap (λ x. (ok u, x.1)) h
written_as-ok command (err e, db') db h = cc
written_as-ok command (panic, db') db h = cc

-- A delta and a state have different keys.
delta-ne-state :
    (h : Hex) (a b : List ℕ) (index : ℕ)
    → ¬ ((delta_as_split h (key_of a (delta index))).1 ≡ (delta_as_split h (key_of b state)).1)
unfolding delta_as_split type_key
delta-ne-state h a b index e = ground arith

some-injective : {A : Type 0} {a b : A} → some a ≡ some b → a ≡ b
some-injective h = cc

-- The state of the contract that was encrypted.
encrypt_state-address :
    {J P : Type 0} (c : StateCrates J P) (s : ContractState J) (key : List ℕ)
    (given drawn : Option (List ℕ)) (enc : EncryptedContractState)
    → encrypt_state c s key given drawn ≡ ok enc
    → enc.contract_address ≡ s.contract_address
unfolding encrypt_state
encrypt_state-address c s key given drawn enc h = ground arith

module _ {J P D C : Type 0} (c : StateCrates J P) (o : OcallCrates D C) (laws : StateLaws c)
    (keys : KeyMap) (s : ContractState J) {key iv : List ℕ} {drawn : Option (List ℕ)}
    (known : get s.contract_address keys ≡ some key) (valid : c.aead.is_key key ≡ true)
    (len : length iv ≡ iv_size) (nonce : drawn ≡ some iv) where
  encrypted_with :
      (enc : EncryptedContractState)
      → encrypt_known c (database_host o) keys s drawn ≡ ok enc
      → encrypt_state c s key none drawn ≡ ok enc
  unfolding encrypt_known
  encrypted_with enc made = rw (known) at made

  -- The stored state is decrypted to itself.
  get_known-encrypt_known :
      (enc : EncryptedContractState) (db : D)
      → encrypt_known c (database_host o) keys s drawn ≡ ok enc
      → read_state o enc.contract_address db ≡ ok enc.json
      → get_known c (database_host o) keys s.contract_address db ≡ ok s
  unfolding get_known
  get_known-encrypt_known enc db made found =
      let sealed : encrypt_state c s key none drawn ≡ ok enc = encrypted_with enc made in
      let same : enc.contract_address ≡ s.contract_address =
        encrypt_state-address c s key none drawn enc sealed in
      let stored : read_state o s.contract_address db ≡ ok enc.json =
        ap (λ a. read_state o a db) (sym same) ∙ found in
      let whole : record { contract_address = s.contract_address; json = enc.json } ≡ enc =
        ap (λ a. record { contract_address = a; json = enc.json }) (sym same) in
      rw (known, stored, whole)
        (decrypt_state-encrypt_state c laws s key iv none drawn enc valid len (inr (refl, nonce))
          sealed)

abbrev HasDelta : {D C : Type 0} → OcallCrates D C → EncryptedPatch → D → Type 0
HasDelta o d db =
    read o.rocks (delta_key o.hex) (key_of d.contract_address (delta d.index)) db ≡ ok d.ciphertext

module _ {J P K D C : Type 0} (c : TaskCrates J P) (o : OcallCrates D C)
    (pointer : List ℕ → Handler D ℕ) (laws : StateLaws c.states) (rocks : RocksLaws o.rocks) where
  stored_both :
      (d : EncryptedPatch) (s : ContractState J) (t t' : Task K D)
      (h : IsStored c (database_tasks o pointer) d s t t')
      → (read_state o h.enc_state.contract_address t'.db ≡ ok h.enc_state.json) × HasDelta o d t'.db
  stored_both d s t t' h =
      let first : force_update o.rocks (delta_key o.hex) (key_of d.contract_address (delta d.index))
            d.ciphertext t.db
          ≡ (ok tt, h.between) =
        written_as-ok _ _ h.between h.delta_saved in
      let second : force_update o.rocks (delta_key o.hex)
            (key_of h.enc_state.contract_address state) h.enc_state.json h.between
          ≡ (ok tt, t'.db) =
        written_as-ok _ _ t'.db h.state_saved in
      let (there, _) =
        read-written o.rocks (delta_key o.hex) rocks _ d.ciphertext t.db h.between
          (inr (inr first)) in
      let (found, others) =
        read-written o.rocks (delta_key o.hex) rocks _ h.enc_state.json h.between t'.db
          (inr (inr second)) in
      (
        found,
        others (key_of d.contract_address (delta d.index)) d.ciphertext
            (λ e. delta-ne-state o.hex d.contract_address h.enc_state.contract_address d.index e.1)
            there,
      )

  abbrev EndsAs : EncryptedPatch → ContractState J → Task K D → Task K D → Type 0
  EndsAs d s t t' =
      IsStored c (database_tasks o pointer) d s t t'
      ⊎ IsTakenBack c (database_tasks o pointer) d s t t'

  -- Suppose that the database keeps the laws of RocksDB and that the key of the contract is known and
  -- valid and the nonce that is drawn has 12 bytes. When `store_delta_and_state` succeeds, the worker
  -- reads the state back from the database and decrypts it to what it was, and the delta is at its
  -- key; or the state was refused and the delta was taken back.
  pub store_delta_and_state-get_known :
      (d : EncryptedPatch) (s : ContractState J) (t t' : Task K D) {key iv : List ℕ}
      → get s.contract_address t.keys.state_keys ≡ some key
      → c.states.aead.is_key key ≡ true
      → length iv ≡ iv_size
      → c.state_draw ≡ some iv
      → store_delta_and_state c (database_tasks o pointer) (some d) s t ≡ (ok tt, t')
      → ((get_known c.states (database_host o) t.keys.state_keys s.contract_address t'.db ≡ ok s)
          × (read o.rocks (delta_key o.hex) (key_of d.contract_address (delta d.index)) t'.db
              ≡ ok d.ciphertext))
        ⊎ IsTakenBack c (database_tasks o pointer) d s t t'
  store_delta_and_state-get_known d s t t' known valid len nonce h =
      elim (store_delta_and_state-outcome c (database_tasks o pointer) (some d) s t t' h) [
        | inl (absent, _) ↦ cc
        | inr (d', same, out) ↦ both (subst (λ x. EndsAs x s t t') (sym (some-injective same)) out)
      ]
    where
      both :
          EndsAs d s t t'
          → ((get_known c.states (database_host o) t.keys.state_keys s.contract_address t'.db
                ≡ ok s)
              × HasDelta o d t'.db)
            ⊎ IsTakenBack c (database_tasks o pointer) d s t t'
      both (inl st) =
          let (found, kept) = stored_both d s t t' st in
          inl (
            get_known-encrypt_known c.states o laws t.keys.state_keys s known valid len nonce
                st.enc_state t'.db st.encrypted found,
            kept,
          )
      both (inr back) = inr back
