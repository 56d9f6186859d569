-- ===== src/StateKeys/Restart.antt =====
-- State keys survive a restart of the enclave.
use enigma_core.Prelude.{
  ℕ, ◌≡◌, inl, inr, refl, sym, ◌∙◌, subst, Option, none, some, List, [], ◌∷◌, ok, All,
}
use enigma_core.Exec.{Keeps, pure-Keeps, chain-Keeps, pure, lift, check, ◌>>=◌}
use enigma_core.Storage.{FileSystem}
use enigma_core.StateKeys.{
  KeyCrates, KeyStore, new_state_keys, new_addrs, get_state_key, get_state_keys, build_response,
}
use enigma_core.StateKeys.Store.{get, get-insert_ne}
use enigma_core.StateKeys.Known.{
  Knows, Sealed, get_state_key-Knows, get_state_key-cases, Knows-get_state_key,
}
use enigma_core.StateKeys.Provision.{KeyLaws}
use enigma_core.StateKeys.Answers.{addresses, Cached, Cached-respond, build_response-ok}
use enigma_core.StateKeys.Invariant.{IsStore, build_response-IsStore}

module _ {S : Type 0} (c : KeyCrates) (fs : FileSystem S) where
  stays_cached :
      (a b key : List ℕ) (s : KeyStore S)
      → get a s.keys ≡ some key
      → get a (get_state_key c fs b s).1.keys ≡ some key
  stays_cached a b key s h = elim (get_state_key-cases c fs b s) [
    | inl same ↦ subst (λ t. get a t.keys ≡ some key) (sym same) h
    | inr (missing, doc, held, q) ↦
        subst (λ p. get a p.1.keys ≡ some key) (sym q)
          (get-insert_ne a b doc.content s.keys
              (λ e. cc (subst (λ x. get x s.keys ≡ none) e missing, h))
            ∙ h)
  ]

  get_state_keys_stay_cached :
      (a key : List ℕ) (addrs : List (List ℕ))
      → Keeps (λ s. get a s.keys ≡ some key) (get_state_keys c fs addrs)
  unfolding get_state_keys
  get_state_keys_stay_cached a key [] = pure-Keeps []
  get_state_keys_stay_cached a key (b ∷ addrs) =
      chain-Keeps _ _ (record { after = λ s h. stays_cached a b key s h })
        (λ k. chain-Keeps _ _ (get_state_keys_stay_cached a key addrs) (λ ks. pure-Keeps (k ∷ ks)))

  All-Knows :
      (b : List ℕ) (resp : List (List ℕ × List ℕ)) (s : KeyStore S)
      → All (λ p. Knows c fs p.0 p.1 s) resp
      → All (λ p. Knows c fs p.0 p.1 (get_state_key c fs b s).1) resp
  All-Knows b [] s h = tt
  All-Knows b ((a, key) ∷ rest) s (h, hs) =
      (Knows-get_state_key c fs b a key s h, All-Knows b rest s hs)

  -- Addresses whose keys are known are answered with them: nothing is created or written.
  get_state_keys_known :
      (resp : List (List ℕ × List ℕ)) (t : KeyStore S)
      → All (λ p. Knows c fs p.0 p.1 t) resp
      → (t' : KeyStore S) × (keys : List (Option (List ℕ))) × (get_state_keys c fs
            (addresses resp)
            t
          ≡ (ok keys, t'))
        × (new_addrs (addresses resp) keys ≡ ok [])
        × Cached t'.keys resp
        × (t'.files ≡ t.files)
  unfolding get_state_keys new_addrs pure ◌>>=◌
  get_state_keys_known [] t h = (t, [], refl, refl, tt, refl)
  get_state_keys_known ((a, key) ∷ rest) t (h, hs) =
      let (t₁, found, cached, files) = get_state_key-Knows c fs a key t h in
      let hs₁ = subst (λ p. All (λ q. Knows c fs q.0 q.1 p.1) rest) found (All-Knows a rest t hs) in
      let (t₂, keys, run, none_new, all_cached, files') = get_state_keys_known rest t₁ hs₁ in
      let still =
        subst (λ p. get a p.1.keys ≡ some key) run
          ((get_state_keys_stay_cached a key (addresses rest)).after t₁ cached) in
      (t₂, some key ∷ keys, rw (found, run) refl, none_new, (still, all_cached), files' ∙ files)

  -- A request for contracts whose keys are all known, cached or sealed, succeeds, answers those
  -- keys, and writes no file.
  pub build_response_known :
      (resp : List (List ℕ × List ℕ)) (t : KeyStore S)
      → All (λ p. Knows c fs p.0 p.1 t) resp
      → (t' : KeyStore S) × (build_response c fs (addresses resp) t ≡ (ok resp, t'))
        × (t'.files ≡ t.files)
  unfolding build_response new_state_keys pure lift check ◌>>=◌
  build_response_known [] t h = (t, refl, refl)
  build_response_known ((a, key) ∷ rest) t h =
      let (t', keys, run, none_new, cached, files) = get_state_keys_known ((a, key) ∷ rest) t h in
      (t', rw (run, none_new, Cached-respond t'.keys ((a, key) ∷ rest) cached) refl, files)

  sealed-Knows :
      (resp : List (List ℕ × List ℕ)) (s t : KeyStore S)
      → IsStore c fs s
      → t.files ≡ s.files
      → t.keys ≡ []
      → Cached s.keys resp
      → All (λ p. Knows c fs p.0 p.1 t) resp
  unfolding get
  sealed-Knows [] s t v files empty h = tt
  sealed-Knows ((a, key) ∷ rest) s t v files empty (h, hs) = (
    inr (rw empty refl, subst (Sealed c fs a key) (sym files) (v a key h)),
    sealed-Knows rest s t v files empty hs,
  )

  -- From a state whose cached keys are all sealed (an empty cache is such a state), what a request
  -- answered is answered again after a restart: with the same files and an empty cache, the same
  -- request succeeds with the same response.
  pub build_response-restart :
      (laws : KeyLaws c fs) (addrs : List (List ℕ)) (s s' t : KeyStore S)
      (resp : List (List ℕ × List ℕ))
      → IsStore c fs s
      → build_response c fs addrs s ≡ (ok resp, s')
      → t.files ≡ s'.files
      → t.keys ≡ []
      → (t' : KeyStore S) × (build_response c fs addrs t ≡ (ok resp, t'))
  build_response-restart laws addrs s s' t resp v run files empty =
      let (same, cached) = build_response-ok c fs addrs s s' resp run in
      let known =
        sealed-Knows resp s' t (build_response-IsStore c fs laws addrs s s' resp v run) files empty
          cached in
      let (t', again, _) = build_response_known resp t known in
      (t', subst (λ as'. build_response c fs as' t ≡ (ok resp, t')) same again)
