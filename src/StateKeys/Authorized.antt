-- ===== src/StateKeys/Authorized.antt =====
-- Only the selected worker of each contract is served.
use enigma_core.Prelude.{
  ℕ, ◌≡◌, ◌⊎◌, inl, inr, refl, ap, ◌∙◌, Option, some, List, [], ◌∷◌, arith, ok, err, panic, Outcome,
  Outcome-cases, Option-cases, All, bytes_eq, bytes_eq_iff, Bool-cases, if◌then◌else◌,
}
use enigma_core.Errors.{EnclaveError, system_error, worker_auth_error}
use enigma_core.Storage.{FileSystem}
use enigma_core.Epoch.Keeper.{Keeper, get_epoch_worker}
use enigma_core.Epoch.Cache.{get}
use enigma_core.Epoch.Keeper.Workers.{get_epoch_worker_missing, get_epoch_worker-cached}
use enigma_core.Epoch.Selection.Total.{epoch_get_selected_worker_total}
use enigma_core.StateKeys.{KeyStore}
use enigma_core.StateKeys.Request.{
  RequestCrates, KeysRequest, Opened, open_request, check_workers, answer, get_enc_state_keys,
}

module _ {K S : Type 0} (c : RequestCrates K) (fs : FileSystem S) where
  -- The signer is the worker of every contract in the epoch.
  abbrev pub AllSelected : List ℕ → ℕ → List (List ℕ) → Keeper S → Type 0
  AllSelected signer nonce sc_addrs epochs =
      All (λ a. get_epoch_worker c.epoch fs a nonce epochs ≡ some (ok signer)) sc_addrs

  check_workers-AllSelected :
      (signer : List ℕ) (nonce : ℕ) (sc_addrs : List (List ℕ)) (epochs : Keeper S)
      → check_workers c fs signer nonce sc_addrs epochs ≡ some (ok tt)
      → AllSelected signer nonce sc_addrs epochs
  unfolding check_workers
  check_workers-AllSelected signer nonce [] epochs h = tt
  check_workers-AllSelected signer nonce (a ∷ sc_addrs) epochs h =
      elim (Option-cases (get_epoch_worker c.epoch fs a nonce epochs)) [
        | inl e ↦ absurd (ground arith)
        | inr (r, e) ↦ elim (Outcome-cases r) [
          | inr failed ↦ absurd (ground arith)
          | inl (w, e') ↦ elim (Bool-cases (bytes_eq w signer)) [
            | inr b ↦ absurd (ground arith)
            | inl b ↦ (
              e ∙ ap some (e' ∙ ap ok ((bytes_eq_iff w signer).0 b)),
              check_workers-AllSelected signer nonce sc_addrs epochs (ground arith),
            )
          ]
        ]
      ]

  refused :
      (failure : Outcome EnclaveError (List ℕ × List ℕ)) (s s' : KeyStore S)
      (out : Outcome EnclaveError (List ℕ × List ℕ))
      → ((x : List ℕ × List ℕ) → ¬ (failure ≡ ok x))
      → ◌≡◌ {A = Option (Outcome EnclaveError (List ℕ × List ℕ) × KeyStore S)}
          (some (failure, s))
          (some (out, s'))
      → (s' ≡ s) × ((x : List ℕ × List ℕ) → ¬ (out ≡ ok x))
  refused failure s s' out ne h = (cc h, λ x k. ne x (cc (h, k)))

  -- A request changes the keys or is answered only if its message is well-formed and signed by the
  -- address that the epoch selects for each of the contracts; otherwise it fails and the state is
  -- as before.
  pub get_enc_state_keys-authorized :
      (epochs : Keeper S) (r : KeysRequest K) (s s' : KeyStore S)
      (out : Outcome EnclaveError (List ℕ × List ℕ))
      → get_enc_state_keys c fs epochs r s ≡ some (out, s')
      → ((o : Opened) × (open_request c fs r ≡ ok o)
          × AllSelected o.signer
              (c.epoch.hashing.uint256.from_big_endian r.epoch_nonce)
              r.sc_addrs
              epochs)
        ⊎ ((s' ≡ s) × ((x : List ℕ × List ℕ) → ¬ (out ≡ ok x)))
  unfolding get_enc_state_keys
  get_enc_state_keys-authorized epochs r s s' out h = elim (Outcome-cases (open_request c fs r)) [
    | inr (inl (e, f)) ↦ inr (refused (err e) s s' out (λ x k. cc k) (ground arith))
    | inr (inr f) ↦ inr (refused panic s s' out (λ x k. cc k) (ground arith))
    | inl (o, e) ↦
        let nonce = c.epoch.hashing.uint256.from_big_endian r.epoch_nonce in
        elim (Option-cases (check_workers c fs o.signer nonce r.sc_addrs epochs)) [
          | inl f ↦ absurd (ground arith)
          | inr (w, f) ↦ elim (Outcome-cases w) [
            | inl (u, g) ↦
                inl
                  (o, e, check_workers-AllSelected o.signer nonce r.sc_addrs epochs (f ∙ ap some g))
            | inr (inl (x, g)) ↦ inr (refused (err x) s s' out (λ y k. cc k) (ground arith))
            | inr (inr g) ↦ inr (refused panic s s' out (λ y k. cc k) (ground arith))
          ]
        ]
  ]

  get_epoch_worker_total :
      (a : List ℕ) (nonce : ℕ) (epochs : Keeper S)
      → (w : Outcome EnclaveError (List ℕ)) × (get_epoch_worker c.epoch fs a nonce epochs ≡ some w)
  unfolding get_epoch_worker
  get_epoch_worker_total a nonce epochs = elim (Option-cases (get nonce epochs.cache)) [
    | inl e ↦ (_, get_epoch_worker_missing c.epoch fs a nonce epochs e)
    | inr (x, e) ↦
        let (w, q) = epoch_get_selected_worker_total c.epoch.hashing x a in
        (w, get_epoch_worker-cached c.epoch fs a nonce epochs x e ∙ q)
  ]

  check_workers_total :
      (signer : List ℕ) (nonce : ℕ) (sc_addrs : List (List ℕ)) (epochs : Keeper S)
      → (w : Outcome EnclaveError (Unit {0})) × (check_workers c fs signer nonce sc_addrs epochs
          ≡ some w)
  unfolding check_workers
  check_workers_total signer nonce [] epochs = (ok tt, refl)
  check_workers_total signer nonce (a ∷ sc_addrs) epochs =
      let (w, e) = get_epoch_worker_total a nonce epochs in
      let (v, f) = check_workers_total signer nonce sc_addrs epochs in
      elim (Outcome-cases w) [
        | inr (inl (x, g)) ↦ (err x, rw (e, check_workers, g) refl)
        | inr (inr g) ↦ (panic, rw (e, check_workers, g) refl)
        | inl (worker, g) ↦ (
          if bytes_eq worker signer then v else err (system_error worker_auth_error),
          rw (e, check_workers, g)
              (elim (Bool-cases (bytes_eq worker signer)) [ inl b ↦ rw b f | inr b ↦ rw b refl ]),
        )
      ]

  -- Every request ends: the fuel of the worker selection never runs out.
  pub get_enc_state_keys_total :
      (epochs : Keeper S) (r : KeysRequest K) (s : KeyStore S)
      → (out : Outcome EnclaveError (List ℕ × List ℕ)) × (s' : KeyStore S) × (get_enc_state_keys c
            fs epochs r s
          ≡ some (out, s'))
  unfolding get_enc_state_keys
  get_enc_state_keys_total epochs r s = elim (Outcome-cases (open_request c fs r)) [
    | inr (inl (e, f)) ↦ (err e, s, rw (f, get_enc_state_keys) refl)
    | inr (inr f) ↦ (panic, s, rw (f, get_enc_state_keys) refl)
    | inl (o, e) ↦
        let nonce = c.epoch.hashing.uint256.from_big_endian r.epoch_nonce in
        let (w, f) = check_workers_total o.signer nonce r.sc_addrs epochs in
        elim (Outcome-cases w) [
          | inl (u, g) ↦
              ((answer c fs r o s).0, (answer c fs r o s).1, rw (e, get_enc_state_keys, f, g) refl)
          | inr (inl (x, g)) ↦ (err x, s, rw (e, get_enc_state_keys, f, g) refl)
          | inr (inr g) ↦ (panic, s, rw (e, get_enc_state_keys, f, g) refl)
        ]
  ]
