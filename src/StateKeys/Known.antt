-- ===== src/StateKeys/Known.antt =====
-- A key that is known, be it cached or in a sealed document, is found, and no call replaces it.
use enigma_core.Prelude.{
  ℕ, ◌≡◌, ◌≢◌, ◌⊎◌, inl, inr, refl, sym, ap, ◌∙◌, subst, none, some, List, arith, ok, Outcome-cases,
  Option-cases, bytes_eq, bytes_eq_iff, bytes_eq_refl, Bool-cases,
}
use enigma_core.Exec.{◌>>=◌}
use enigma_core.Storage.{
  FileSystem, SealedDocumentStorage, unseal, is_document, load_sealed_document,
}
use enigma_core.Storage.RoundTrip.{zero_log, Holds}
use enigma_core.StateKeys.{KeyCrates, KeyStore, unseal_key, get_state_key}
use enigma_core.StateKeys.Store.{get, insert, get-insert_self, get-insert_ne}

module _ {S : Type 0} (c : KeyCrates) (fs : FileSystem S) where
  -- A document with the key at the contract's path.
  abbrev pub Sealed : List ℕ → List ℕ → S → Type 0
  Sealed a key files =
      (doc : SealedDocumentStorage) × (doc.content ≡ key)
      × Holds c.sgx fs (c.document_path a) doc files

  -- The contract's key is cached, or waits in its sealed document.
  abbrev pub Knows : List ℕ → List ℕ → KeyStore S → Type 0
  Knows a key s = (get a s.keys ≡ some key) ⊎ ((get a s.keys ≡ none) × Sealed a key s.files)

  -- What reading a document does to the state.
  unseal_key-cases :
      (a : List ℕ) (s : KeyStore S)
      → ((unseal_key c fs a s).1 ≡ s)
        ⊎ ((log : List ℕ) × (doc : SealedDocumentStorage) × (load_sealed_document fs
                (c.document_path a)
                zero_log
                s.files
              ≡ ok log)
            × (unseal c.sgx log ≡ ok (some doc))
            × (unseal_key c fs a s
                ≡ (ok (some doc.content), record s { keys = insert a doc.content s.keys })))
  unfolding unseal_key ◌>>=◌
  unseal_key-cases a s =
      elim (Outcome-cases (load_sealed_document fs (c.document_path a) zero_log s.files)) [
        | inr failed ↦ inl (ground arith)
        | inl (log, e) ↦ elim (Outcome-cases (unseal c.sgx log)) [
          | inr failed ↦ inl (ground arith)
          | inl (none, e') ↦ inl (rw (e, e') refl)
          | inl (some doc, e') ↦ inr (log, doc, e, e', rw (e, e') refl)
        ]
      ]

  -- A known key is the answer, and is cached from then on.
  pub get_state_key-Knows :
      (a key : List ℕ) (s : KeyStore S)
      → Knows a key s
      → (t : KeyStore S) × (get_state_key c fs a s ≡ (ok (some key), t))
        × (get a t.keys ≡ some key)
        × (t.files ≡ s.files)
  unfolding get_state_key unseal_key ◌>>=◌
  get_state_key-Knows a key s (inl cached) = (s, rw (cached, get_state_key) refl, cached, refl)
  get_state_key-Knows a key s (inr (missing, (doc, e, held))) = (
    record s { keys = insert a doc.content s.keys },
    rw (missing, get_state_key, held.found, held.loaded, held.unsealed)
        (ap (λ k. (ok (some k), record s { keys = insert a doc.content s.keys })) e),
    get-insert_self a doc.content s.keys ∙ ap some e,
    refl,
  )

  -- A lookup changes the state only by caching what it unsealed.
  pub get_state_key-cases :
      (a : List ℕ) (s : KeyStore S)
      → ((get_state_key c fs a s).1 ≡ s)
        ⊎ ((get a s.keys ≡ none)
            × (doc : SealedDocumentStorage) × Holds c.sgx fs (c.document_path a) doc s.files
            × (get_state_key c fs a s
                ≡ (ok (some doc.content), record s { keys = insert a doc.content s.keys })))
  unfolding get_state_key
  get_state_key-cases a s = elim (Option-cases (get a s.keys)) [
    | inr (key, e) ↦ inl (rw (e, get_state_key) refl)
    | inl e ↦ elim (Bool-cases (is_document fs (c.document_path a) s.files)) [
      | inr f ↦ inl (rw (e, get_state_key, f) refl)
      | inl f ↦ elim (unseal_key-cases a s) [
        | inl same ↦ inl (rw (e, get_state_key, f) same)
        | inr (log, doc, l, u, q) ↦ inr (
          e,
          doc,
          record { found = f; log = log; loaded = l; unsealed = u },
          rw (e, get_state_key, f) q,
        )
      ]
    ]
  ]

  same_doc :
      (a key log : List ℕ) (doc : SealedDocumentStorage) (s : KeyStore S)
      → get a s.keys ≡ none
      → load_sealed_document fs (c.document_path a) zero_log s.files ≡ ok log
      → unseal c.sgx log ≡ ok (some doc)
      → Knows a key s
      → doc.content ≡ key
  same_doc a key log doc s missing l u (inl cached) = cc
  same_doc a key log doc s missing l u (inr (_, (held_doc, content, held))) =
      let same : log ≡ held.log = cc (l, held.loaded) in
      let e : ok (some doc) ≡ ok (some held_doc) = sym u ∙ ap (unseal c.sgx) same ∙ held.unsealed in
      let doc-eq : doc ≡ held_doc = cc e in ap (λ d. d.content) doc-eq ∙ content

  pub Knows-insert :
      (b a key found : List ℕ) (s : KeyStore S)
      → (b ≡ a → found ≡ key)
      → Knows a key s
      → Knows a key (record s { keys = insert b found s.keys })
  Knows-insert b a key found s agree h = elim (Bool-cases (bytes_eq b a)) [
    | inl e ↦
        let b-is-a = (bytes_eq_iff b a).0 e in
        inl (
          subst (λ x. get x (insert b found s.keys) ≡ some key) b-is-a
            (get-insert_self b found s.keys ∙ ap some (agree b-is-a)))
    | inr e ↦
        let ne : b ≢ a = λ h. cc (e, bytes_eq_refl a, h) in
        elim h [
          | inl cached ↦ inl (get-insert_ne a b found s.keys ne ∙ cached)
          | inr (missing, held) ↦ inr (get-insert_ne a b found s.keys ne ∙ missing, held)
        ]
  ]

  -- Looking up one key leaves every known key known.
  pub Knows-get_state_key :
      (b a key : List ℕ) (s : KeyStore S) → Knows a key s → Knows a key (get_state_key c fs b s).1
  Knows-get_state_key b a key s h = elim (get_state_key-cases b s) [
    | inl same ↦ subst (Knows a key) (sym same) h
    | inr (missing, doc, held, q) ↦
        subst (λ p. Knows a key p.1) (sym q)
          (Knows-insert b a key doc.content s
            (λ e.
              same_doc b key held.log doc s missing held.loaded held.unsealed
                (subst (λ x. Knows x key s) (sym e) h))
            h)
  ]
