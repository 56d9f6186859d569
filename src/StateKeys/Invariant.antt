-- ===== src/StateKeys/Invariant.antt =====
-- The cached keys are sealed too, and stay so.
use enigma_core.Prelude.{
  ℕ, ◌≤◌, ◌≡◌, ◌≢◌, inl, inr, refl, sym, ap, ap₂, ◌∙◌, subst, Option, none, some, List, [], ◌∷◌,
  arith, length, ok, bytes_eq, bytes_eq_iff, bytes_eq_refl, Bool-cases,
}
use enigma_core.Exec.{pure, lift, check, modify, >>=-eq-ok}
use enigma_core.Storage.{FileSystem, seal, save_sealed_document}
use enigma_core.Storage.RoundTrip.{zero_log, Holds, save-Holds, save-Holds_ne}
use enigma_core.StateKeys.{
  KeyCrates, KeyStore, key_doc, random_key, read_rand, new_state_key, new_state_keys, get_state_key,
  get_state_keys, build_response,
}
use enigma_core.StateKeys.Store.{get, insert, get-insert_self, get-insert_ne}
use enigma_core.StateKeys.Known.{Sealed, get_state_key-cases}
use enigma_core.StateKeys.Provision.{KeyLaws}

module _ {S : Type 0} (c : KeyCrates) (fs : FileSystem S) where
  -- Each cached key is sealed too.
  abbrev pub IsStore : KeyStore S → Type 0
  IsStore s = (a key : List ℕ) → get a s.keys ≡ some key → Sealed c fs a key s.files

  IsStore-insert :
      (b found : List ℕ) (s : KeyStore S)
      → Sealed c fs b found s.files
      → ((a key : List ℕ) → b ≢ a → get a s.keys ≡ some key → Sealed c fs a key s.files)
      → IsStore (record s { keys = insert b found s.keys })
  IsStore-insert b found s sealed others a key cached = elim (Bool-cases (bytes_eq b a)) [
    | inl e ↦
        let same = (bytes_eq_iff b a).0 e in
        let key-eq : found ≡ key = cc (
          subst (λ x. get x (insert b found s.keys) ≡ some found) same
              (get-insert_self b found s.keys),
          cached,
        ) in
        subst (λ x. Sealed c fs x key s.files) same
          (subst (λ k. Sealed c fs b k s.files) key-eq sealed)
    | inr e ↦
        let ne : b ≢ a = λ h. cc (e, bytes_eq_refl a, h) in
        others a key ne (sym (get-insert_ne a b found s.keys ne) ∙ cached)
  ]

  IsStore-get_state_key :
      (b : List ℕ) (s : KeyStore S) → IsStore s → IsStore (get_state_key c fs b s).1
  IsStore-get_state_key b s v = elim (get_state_key-cases c fs b s) [
    | inl same ↦ subst IsStore (sym same) v
    | inr (missing, doc, held, q) ↦
        subst (λ p. IsStore p.1) (sym q)
          (IsStore-insert b doc.content s (doc, refl, held) (λ a key ne. v a key))
  ]

  IsStore-get_state_keys :
      (addrs : List (List ℕ)) (s t : KeyStore S) (keys : List (Option (List ℕ)))
      → IsStore s
      → get_state_keys c fs addrs s ≡ (ok keys, t)
      → IsStore t
  unfolding get_state_keys pure
  IsStore-get_state_keys [] s t keys v h = subst IsStore (ap (λ p. p.1) h) v
  IsStore-get_state_keys (b ∷ addrs) s t keys v h =
      let (k, s₁, head, h₁) = >>=-eq-ok _ _ s t keys h in
      let (ks, s₂, tail, h₂) = >>=-eq-ok _ _ s₁ t keys h₁ in
      let v₁ : IsStore s₁ = subst (λ p. IsStore p.1) head (IsStore-get_state_key b s v) in
      subst IsStore (ap (λ p. p.1) h₂) (IsStore-get_state_keys addrs s₁ s₂ ks v₁ tail)

  -- What a successful creation was made of.
  record IsNewKey (b : List ℕ) (s t : KeyStore S) (key : List ℕ) : Type 0 where
    drawn : c.draws s.drawn ≡ some key
    log : List ℕ
    sealed : seal c.sgx (key_doc key) zero_log ≡ ok log
    saved : save_sealed_document fs (c.document_path b) log s.files ≡ (ok tt, t.files)
    keys : t.keys ≡ insert b key s.keys

  random_key-ok : (o : Option (List ℕ)) (key : List ℕ) → random_key o ≡ ok key → o ≡ some key
  random_key-ok none key h = cc
  random_key-ok (some k) key h = cc

  new_state_key-ok :
      (b : List ℕ) (s t : KeyStore S) (key : List ℕ)
      → new_state_key c fs b s ≡ (ok key, t)
      → IsNewKey b s t key
  unfolding new_state_key read_rand lift modify pure
  new_state_key-ok b s t key h =
      let (k, s₁, read, h₁) = >>=-eq-ok _ _ s t key h in
      let (log, s₂, sealing, h₂) = >>=-eq-ok _ _ s₁ t key h₁ in
      let (_, s₃, saving, h₃) = >>=-eq-ok _ _ s₂ t key h₂ in
      let (_, s₄, caching, h₄) = >>=-eq-ok _ _ s₃ t key h₃ in
      let k-eq : k ≡ key = cc (ap (λ p. p.0) h₄) in
      let files : s.files ≡ s₂.files = ap (λ p. p.1.files) read ∙ ap (λ p. p.1.files) sealing in
      let files' : s₃.files ≡ t.files = ap (λ p. p.1.files) caching ∙ ap (λ p. p.1.files) h₄ in
      let cached : s.keys ≡ s₃.keys =
        ap (λ p. p.1.keys) read ∙ ap (λ p. p.1.keys) sealing ∙ ap (λ p. p.1.keys) saving in
      let inserted : insert b k s₃.keys ≡ t.keys =
        ap (λ p. p.1.keys) caching ∙ ap (λ p. p.1.keys) h₄ in
      record {
        drawn = random_key-ok (c.draws s.drawn) key (ap (λ p. p.0) read ∙ ap ok k-eq);
        log = log;
        sealed = subst (λ x. seal c.sgx (key_doc x) zero_log ≡ ok log) k-eq (ap (λ p. p.0) sealing);
        saved =
            subst (λ f. save_sealed_document fs (c.document_path b) log f ≡ (ok tt, t.files))
              (sym files) (λ i. ((saving i).0, (ap (λ p. p.1.files) saving ∙ files') i));
        keys = sym inserted ∙ ap₂ (insert b) k-eq (sym cached);
      }

  module _ (laws : KeyLaws c fs) where
    -- A key that was created is sealed under its contract, and the other documents are as before.
    IsStore-new_state_key :
        (b : List ℕ) (s t : KeyStore S) (key : List ℕ)
        → IsStore s
        → new_state_key c fs b s ≡ (ok key, t)
        → IsStore t
    IsStore-new_state_key b s t key v h =
        let n = new_state_key-ok b s t key h in
        let small : length key ≤ laws.sgx.max_content =
          omega (arith, laws.length-draws s.drawn key n.drawn, laws.sgx.room) in
        let held =
          save-Holds laws.sgx laws.files (c.document_path b) (key_doc key) n.log s.files t.files
            small n.sealed n.saved in
        let after_save : IsStore (record t { keys = insert b key s.keys }) =
          IsStore-insert b key (record t { keys = s.keys }) (key_doc key, refl, held)
            (λ a k ne cached.
              let (doc, e, kept) = v a k cached in
              (
                doc,
                e,
                subst (Holds c.sgx fs (c.document_path a) doc) (ap (λ p. p.1) n.saved) (
                    save-Holds_ne laws.sgx laws.files (c.document_path b) (c.document_path a) doc
                      n.log s.files (λ same. ne (sym (laws.path-injective a b same))) kept),
              )) in
        λ a k cached. after_save a k (subst (λ m. get a m ≡ some k) n.keys cached)

    IsStore-new_state_keys :
        (addrs : List (List ℕ)) (s t : KeyStore S) (keys : List (List ℕ))
        → IsStore s
        → new_state_keys c fs addrs s ≡ (ok keys, t)
        → IsStore t
    unfolding new_state_keys pure
    IsStore-new_state_keys [] s t keys v h = subst IsStore (ap (λ p. p.1) h) v
    IsStore-new_state_keys (b ∷ addrs) s t keys v h =
        let (k, s₁, head, h₁) = >>=-eq-ok _ _ s t keys h in
        let (ks, s₂, tail, h₂) = >>=-eq-ok _ _ s₁ t keys h₁ in
        subst IsStore (ap (λ p. p.1) h₂)
          (IsStore-new_state_keys addrs s₁ s₂ ks (IsStore-new_state_key b s s₁ k v head) tail)

    -- A successful request leaves each cached key sealed, if they were before.
    pub build_response-IsStore :
        (addrs : List (List ℕ)) (s s' : KeyStore S) (resp : List (List ℕ × List ℕ))
        → IsStore s
        → build_response c fs addrs s ≡ (ok resp, s')
        → IsStore s'
    unfolding build_response pure lift check
    build_response-IsStore [] s s' resp v h = subst IsStore (ap (λ p. p.1) h) v
    build_response-IsStore (a ∷ addrs) s s' resp v h =
        let (keys, s₁, g, h₁) = >>=-eq-ok _ _ s s' resp h in
        let (fresh, s₂, n, h₂) = >>=-eq-ok _ _ s₁ s' resp h₁ in
        let (made, s₃, m, h₃) = >>=-eq-ok _ _ s₂ s' resp h₂ in
        let v₁ : IsStore s₂ =
          subst IsStore (ap (λ p. p.1) n) (IsStore-get_state_keys (a ∷ addrs) s s₁ keys v g) in
        subst IsStore (ap (λ p. p.1) h₃) (IsStore-new_state_keys fresh s₂ s₃ made v₁ m)
