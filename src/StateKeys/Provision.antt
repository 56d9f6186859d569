-- ===== src/StateKeys/Provision.antt =====
-- No call replaces a known key, whatever its outcome.
use enigma_core.Prelude.{
  ℕ, ◌≡◌, ◌≢◌, inl, inr, sym, ap, subst, Option, none, some, List, [], ◌∷◌, arith, length, ok,
  Outcome-cases, Option-cases, All,
}
use enigma_core.Exec.{
  Keeps, pure, lift, >>=-eq-ok, lift-Keeps, check-Keeps, pure-Keeps, modify-Keeps, chain-Keeps,
  chain-after,
}
use enigma_core.Storage.{FileSystem, save_sealed_document}
use enigma_core.Storage.RoundTrip.{SgxLaws, FileSystemLaws, save-Holds_ne}
use enigma_core.StateKeys.{
  KeyCrates, KeyStore, read_rand, new_state_key, new_state_keys, new_addrs, get_state_key,
  get_state_keys, build_response,
}
use enigma_core.StateKeys.Known.{Knows, Knows-get_state_key, get_state_key-Knows, Knows-insert}

-- What the keys rely on: sealing, the host's files, and that contracts have documents of their own.
pub record KeyLaws {S : Type 0} (c : KeyCrates) (fs : FileSystem S) : Type 0 where
  pub sgx : SgxLaws c.sgx
  pub files : FileSystemLaws fs
  pub path-injective : (a b : List ℕ) → c.document_path a ≡ c.document_path b → a ≡ b
  pub length-draws : (n : ℕ) (key : List ℕ) → c.draws n ≡ some key → length key ≡ 32

module _ {S : Type 0} (c : KeyCrates) (fs : FileSystem S) (laws : KeyLaws c fs) where
  get_state_keys-Keeps :
      (a key : List ℕ) (addrs : List (List ℕ))
      → Keeps (Knows c fs a key) (get_state_keys c fs addrs)
  unfolding get_state_keys
  get_state_keys-Keeps a key [] = pure-Keeps []
  get_state_keys-Keeps a key (b ∷ addrs) =
      chain-Keeps _ _ (record { after = λ s h. Knows-get_state_key c fs b a key s h })
        (λ k. chain-Keeps _ _ (get_state_keys-Keeps a key addrs) (λ ks. pure-Keeps (k ∷ ks)))

  new_addrs-none :
      (b : List ℕ) (addrs : List (List ℕ)) (keys : List (Option (List ℕ))) (fresh : List (List ℕ))
      → new_addrs (b ∷ addrs) (none ∷ keys) ≡ ok fresh
      → (rest : List (List ℕ)) × (new_addrs addrs keys ≡ ok rest) × (fresh ≡ b ∷ rest)
  unfolding new_addrs
  new_addrs-none b addrs keys fresh h = elim (Outcome-cases (new_addrs addrs keys)) [
    | inl (rest, e) ↦ (rest, e, ground arith)
    | inr failed ↦ absurd (ground arith)
  ]

  -- A known key is never among those to create.
  new_addrs-Knows :
      (a key : List ℕ) (addrs : List (List ℕ)) (s t : KeyStore S) (keys : List (Option (List ℕ)))
      (fresh : List (List ℕ))
      → Knows c fs a key s
      → get_state_keys c fs addrs s ≡ (ok keys, t)
      → new_addrs addrs keys ≡ ok fresh
      → All (λ b. b ≢ a) fresh
  unfolding get_state_keys new_addrs pure
  new_addrs-Knows a key [] s t keys fresh h g n =
      let none_looked : [] ≡ keys = cc g in
      let none_made : ok [] ≡ ok fresh =
        subst (λ ks. new_addrs [] ks ≡ ok fresh) (sym none_looked) n in
      let no_fresh : [] ≡ fresh = cc none_made in subst (All (λ b. b ≢ a)) no_fresh tt
  new_addrs-Knows a key (b ∷ addrs) s t keys fresh h g n =
      let (k, s₁, head, g₁) = >>=-eq-ok _ _ s t keys g in
      let (ks, s₂, tail, g₂) = >>=-eq-ok _ _ s₁ t keys g₁ in
      let cons : k ∷ ks ≡ keys = cc g₂ in
      let n' : new_addrs (b ∷ addrs) (k ∷ ks) ≡ ok fresh =
        subst (λ xs. new_addrs (b ∷ addrs) xs ≡ ok fresh) (sym cons) n in
      let h₁ : Knows c fs a key s₁ =
        subst (λ p. Knows c fs a key p.1) head (Knows-get_state_key c fs b a key s h) in
      elim (Option-cases k) [
        | inr (key', e) ↦
            new_addrs-Knows a key addrs s₁ s₂ ks fresh h₁ tail
              (subst (λ x. new_addrs (b ∷ addrs) (x ∷ ks) ≡ ok fresh) e n')
        | inl e ↦
            let (rest, r, made) =
              new_addrs-none b addrs ks fresh
                (subst (λ x. new_addrs (b ∷ addrs) (x ∷ ks) ≡ ok fresh) e n') in
            let other : b ≢ a = λ same.
              let (_, found, _, _) = get_state_key-Knows c fs a key s h in
              cc (subst (λ x. get_state_key c fs x s ≡ (ok k, s₁)) same head, found, e) in
            subst (All (λ x. x ≢ a)) (sym made)
              (other, new_addrs-Knows a key addrs s₁ s₂ ks rest h₁ tail r)
      ]

  new_state_key-Keeps : (a b key : List ℕ) → b ≢ a → Keeps (Knows c fs a key) (new_state_key c fs b)
  unfolding new_state_key read_rand
  new_state_key-Keeps a b key ne =
      chain-Keeps _ _ (record { after = λ s h. h })
        (λ k. chain-Keeps _ _ (lift-Keeps _) (λ log.
          chain-Keeps _ _ (record { after = λ s h. saved log s h })
            (λ _.
              chain-Keeps _ _
                (modify-Keeps _ (λ s h. Knows-insert c fs b a key k s (λ e. absurd (ne e)) h))
                (λ _. pure-Keeps k))))
    where
      saved :
          (log : List ℕ) (s : KeyStore S)
          → Knows c fs a key s
          → Knows c fs a key
              (record s { files = (save_sealed_document fs (c.document_path b) log s.files).1 })
      saved log s (inl cached) = inl cached
      saved log s (inr (missing, (doc, e, held))) = inr (
        missing,
        (
          doc,
          e,
          save-Holds_ne laws.sgx laws.files (c.document_path b) (c.document_path a) doc log s.files
              (λ e. ne (sym (laws.path-injective a b e))) held,
        ),
      )

  new_state_keys-Keeps :
      (a key : List ℕ) (addrs : List (List ℕ))
      → All (λ b. b ≢ a) addrs
      → Keeps (Knows c fs a key) (new_state_keys c fs addrs)
  unfolding new_state_keys
  new_state_keys-Keeps a key [] ne = pure-Keeps []
  new_state_keys-Keeps a key (b ∷ addrs) (ne, nes) =
      chain-Keeps _ _ (new_state_key-Keeps a b key ne)
        (λ k. chain-Keeps _ _ (new_state_keys-Keeps a key addrs nes) (λ ks. pure-Keeps (k ∷ ks)))

  -- Whatever the outcome of a request, a key that was known before, cached or sealed, is known
  -- after: no request replaces or loses it.
  pub build_response-Knows :
      (addrs : List (List ℕ)) (a key : List ℕ) (s : KeyStore S)
      → Knows c fs a key s
      → Knows c fs a key (build_response c fs addrs s).1
  unfolding build_response pure lift
  build_response-Knows [] a key s h = h
  build_response-Knows (b ∷ addrs) a key s h =
      let looked : Knows c fs a key (get_state_keys c fs (b ∷ addrs) s).1 =
        (get_state_keys-Keeps a key (b ∷ addrs)).after s h in
      chain-after (Knows c fs a key) _ _ s looked (λ keys s₁ g.
        let h₁ : Knows c fs a key s₁ = subst (λ p. Knows c fs a key p.1) g looked in
        chain-after (Knows c fs a key) _ _ s₁ h₁ (λ fresh s₂ n.
          let s-same : s₁ ≡ s₂ = ap (λ p. p.1) n in
          let others = new_addrs-Knows a key (b ∷ addrs) s s₁ keys fresh h g (ap (λ p. p.0) n) in
          (chain-Keeps _ _ (new_state_keys-Keeps a key fresh others) (λ _. check-Keeps _)).after s₂
            (subst (Knows c fs a key) s-same h₁)))
