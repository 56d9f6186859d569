-- ===== src/Epoch/Keeper/Workers.antt =====
-- The worker of a contract in an epoch, as `ecall_get_epoch_worker_internal` reports it.
use enigma_core.Prelude.{
  ℕ, ◌≡◌, ◌≢◌, ◌⊎◌, refl, sym, ap, ◌∙◌, Option, none, some, List, arith, bytes_eq, bytes_eq_iff,
  Bool-cases, Outcome, ok, err, panic, inl, inr,
}
use enigma_core.Errors.{EnclaveError}
use enigma_core.Storage.{FileSystem}
use enigma_core.Epoch.{InputWorkerParams, Epoch}
use enigma_core.Epoch.Nested.{encode_for_hashing}
use enigma_core.Epoch.Cache.{get, max_key}
use enigma_core.Epoch.Cache.Laws.{get-insert_self}
use enigma_core.Epoch.Selection.{epoch_get_selected_worker}
use enigma_core.Epoch.Selection.Total.{IsSelectable, draw, get_selected_worker-IsPicked}
use enigma_core.Epoch.Selection.Weights.{IsPicked}
use enigma_core.Epoch.Keeper.{
  Crates, Keeper, Request, empty_slice, against_marker, requested_epoch, existing_epoch,
  next_nonce_after, auth_error, get_epoch_from_cache, get_epoch_worker, set_worker_params,
}
use enigma_core.Epoch.Keeper.Steps.{IsSuccess, set_worker_params-ok}

module _ {S : Type 0} (c : Crates) (fs : FileSystem S) where
  -- A nonce that is not cached, be it evicted or never announced, is refused.
  pub get_epoch_worker_missing :
      (sc_addr : List ℕ) (nonce : ℕ) (s : Keeper S)
      → get nonce s.cache ≡ none
      → get_epoch_worker c fs sc_addr nonce s ≡ some auth_error
  unfolding get_epoch_worker
  get_epoch_worker_missing sc_addr nonce s h = rw (h, get_epoch_from_cache) refl

  pub get_epoch_worker-cached :
      (sc_addr : List ℕ) (nonce : ℕ) (s : Keeper S) (e : Epoch)
      → get nonce s.cache ≡ some e
      → get_epoch_worker c fs sc_addr nonce s ≡ epoch_get_selected_worker c.hashing e sc_addr
  unfolding get_epoch_worker
  get_epoch_worker-cached sc_addr nonce s e h = rw (h, get_epoch_from_cache) refl

  -- `e` is the epoch that the request `r` in state `s` is about: it has the parameters of the request;
  -- its seed and its nonce are those of the request, or it is a new one, of the nonce after the
  -- highest that is cached, with the random draw as its seed, and the nonce and the draw are written out.
  pub record IsRequested (r : Request) (s s' : Keeper S) (e : Epoch) : Type 0 where
    pub params : c.decode r.worker_params_rlp ≡ some e.worker_params
    pub origin :
        ((r.seed_in ≢ empty_slice) × (e ≡ requested_epoch c fs e.worker_params r))
        ⊎ ((r.seed_in ≡ empty_slice)
            × (next_nonce_after (max_key s.cache) ≡ ok e.nonce)
            × (r.drawn ≡ some s'.out.rand_out)
            × (e.seed ≡ c.hashing.uint256.from_big_endian s'.out.rand_out)
            × (s'.out.nonce_out ≡ c.hashing.uint256.to_big_endian e.nonce))

  against_marker-found :
      (x e : Epoch) (m : Outcome EnclaveError (Option (List ℕ)))
      → against_marker c fs x m ≡ ok (some e)
      → e ≡ x
  against_marker-found x e (ok none) h = cc
  against_marker-found x e (ok (some hash)) h = ground arith
  against_marker-found x e (err f) h = cc
  against_marker-found x e panic h = cc

  against_marker-ne-none :
      (x : Epoch) (m : Outcome EnclaveError (Option (List ℕ))) → against_marker c fs x m ≢ ok none
  against_marker-ne-none x (ok none) h = cc
  against_marker-ne-none x (ok (some hash)) h = ground arith
  against_marker-ne-none x (err f) h = cc
  against_marker-ne-none x panic h = cc

  existing_epoch-found :
      (p : InputWorkerParams) (r : Request) (files : S) (e : Epoch)
      → existing_epoch c fs p r files ≡ ok (some e)
      → (r.seed_in ≢ empty_slice) × (e ≡ requested_epoch c fs p r)
  unfolding existing_epoch
  existing_epoch-found p r files e h = elim (Bool-cases (bytes_eq r.seed_in empty_slice)) [
    | inl z ↦ absurd (ground arith)
    | inr z ↦ (
      λ same. cc (z, (bytes_eq_iff r.seed_in empty_slice).1 same),
      against_marker-found (requested_epoch c fs p r) e _ (rw z at h),
    )
  ]

  existing_epoch-none :
      (p : InputWorkerParams) (r : Request) (files : S)
      → existing_epoch c fs p r files ≡ ok none
      → r.seed_in ≡ empty_slice
  unfolding existing_epoch
  existing_epoch-none p r files h = elim (Bool-cases (bytes_eq r.seed_in empty_slice)) [
    | inl z ↦ (bytes_eq_iff r.seed_in empty_slice).0 z
    | inr z ↦ absurd (against_marker-ne-none (requested_epoch c fs p r) _ (rw z at h))
  ]

  IsSuccess-IsRequested :
      (r : Request) (s s' : Keeper S) (g : IsSuccess c fs r s s') → IsRequested r s s' g.epoch
  IsSuccess-IsRequested r s s' g = elim g.origin [
    | inl (found, _) ↦
        let (ne, same) = existing_epoch-found g.params r s.files g.epoch found in
        let params : g.epoch.worker_params ≡ g.params = ap (λ x. x.worker_params) same in
        record {
          params = g.decoded ∙ ap some (sym params);
          origin = inl (ne, same ∙ ap (λ p. requested_epoch c fs p r) (sym params));
        }
    | inr (empty, made) ↦
        let rand : s'.out.rand_out ≡ made.rand = g.signed.rand_out ∙ made.rand_out in
        record {
          params = g.decoded ∙ ap some (sym made.params);
          origin = inr (
            existing_epoch-none g.params r s.files empty,
            made.nonce,
            made.drawn ∙ ap some (sym rand),
            made.seed ∙ ap c.hashing.uint256.from_big_endian (sym rand),
            g.signed.nonce_out ∙ made.nonce_out,
          );
        }
  ]

  -- After a successful call the epoch that was requested is cached under its nonce: the one of the
  -- request's parameters, seed and nonce, or a new one of its parameters, with the next nonce and the
  -- random draw as its seed, both written out. The signature is that of this epoch, and if its
  -- parameters are selectable, each contract's worker in it is the one whose stake first reaches the
  -- contract's draw.
  pub get_epoch_worker-set_worker_params :
      (r : Request) (s s' : Keeper S)
      → set_worker_params c fs r s ≡ (ok tt, s')
      → (e : Epoch) × IsRequested r s s' e
        × (get e.nonce s'.cache ≡ some e)
        × (c.sign (encode_for_hashing c.hashing.uint256 e) ≡ some s'.out.sig_out)
        × ((sc_addr : List ℕ)
            → IsSelectable e.worker_params
            → (i : ℕ) × (w : List ℕ) × (get_epoch_worker c fs sc_addr e.nonce s' ≡ some (ok w))
              × IsPicked e.worker_params.stakes e.worker_params.workers
                  (draw c.hashing e.worker_params sc_addr e.seed 0)
                  i
                  w)
  unfolding epoch_get_selected_worker
  get_epoch_worker-set_worker_params r s s' h =
      let g = set_worker_params-ok c fs r s s' h in
      let e = g.epoch in
      let cached : get e.nonce s'.cache ≡ some e =
        rw g.signed.cache (get-insert_self g.signed.room e) in
      (
        e,
        IsSuccess-IsRequested r s s' g,
        cached,
        g.signed.signature,
        λ sc_addr selectable.
            let (i, w, q, k) =
              get_selected_worker-IsPicked c.hashing e.worker_params sc_addr e.seed selectable in
            (
              i,
              w,
              get_epoch_worker-cached sc_addr e.nonce s' e cached
                  ∙ rw (q, epoch_get_selected_worker) refl,
              k,
            ),
      )
