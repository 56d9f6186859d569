-- ===== src/Epoch/Keeper/Authentic.antt =====
-- A marker admits no other epoch than the one that it was made for.
use enigma_core.Prelude.{
  ℕ, ◌≡◌, ◌≢◌, sym, ap, ◌∙◌, subst, none, some, List, arith, bytes_eq, bytes_eq-ne, bytes_eq_iff,
  Bool-cases, ok, inl, inr,
}
use enigma_core.Storage.{FileSystem}
use enigma_core.Epoch.{InputWorkerParams, Epoch, IsTyped}
use enigma_core.Epoch.Nested.{encode_for_hashing}
use enigma_core.Epoch.Nested.Injective.{encode_for_hashing_iff}
use enigma_core.Epoch.Cache.{get, insert}
use enigma_core.Epoch.Cache.Laws.{get-insert_self}
use enigma_core.Epoch.Keeper.{
  Crates, Keeper, Request, empty_slice, against_marker, get_epoch_marker, epoch_hash,
  requested_epoch, existing_epoch, set_worker_params,
}
use enigma_core.Epoch.Keeper.Restore.{Laws, HasMarker, get_epoch_marker-HasMarker}
use enigma_core.Epoch.Keeper.Steps.{set_worker_params-ok}

module _ {S : Type 0} (c : Crates) (fs : FileSystem S) (laws : Laws c fs) where
  against_marker-same :
      (x x' : Epoch) (hash : List ℕ)
      → against_marker c fs x (ok (some hash)) ≡ ok (some x')
      → (x' ≡ x) × (epoch_hash c fs x ≡ hash)
  against_marker-same x x' hash h = elim (Bool-cases (bytes_eq (epoch_hash c fs x) hash)) [
    | inl same ↦ (ground arith, (bytes_eq_iff (epoch_hash c fs x) hash).0 same)
    | inr other ↦ absurd (ground arith)
  ]

  existing_epoch-same :
      (p : InputWorkerParams) (r : Request) (e x : Epoch) (files : S)
      → HasMarker c fs laws e files
      → r.seed_in ≢ empty_slice
      → c.hashing.uint256.from_big_endian r.nonce_in ≡ e.nonce
      → existing_epoch c fs p r files ≡ ok (some x)
      → (x ≡ requested_epoch c fs p r) × (epoch_hash c fs x ≡ epoch_hash c fs e)
  unfolding existing_epoch
  existing_epoch-same p r e x files h ne nonce ex =
      let hash = epoch_hash c fs e in
      let there =
        subst (λ n. get_epoch_marker c fs n files ≡ ok (some hash)) (sym nonce)
          (get_epoch_marker-HasMarker c fs laws e files h) in
      let epoch = requested_epoch c fs p r in
      let passed : against_marker c fs epoch (ok (some hash)) ≡ ok (some x) =
        rw (bytes_eq-ne r.seed_in empty_slice ne, there, against_marker) at ex in
      let (same, equal) = against_marker-same epoch x hash passed in
      (same, ap (epoch_hash c fs) same ∙ equal)

  against_marker-ne-none :
      (x : Epoch) (hash : List ℕ) → ¬ (against_marker c fs x (ok (some hash)) ≡ ok none)
  against_marker-ne-none x hash h = ground arith

  existing_epoch-ne-none :
      (p : InputWorkerParams) (r : Request) (e : Epoch) (files : S)
      → HasMarker c fs laws e files
      → r.seed_in ≢ empty_slice
      → c.hashing.uint256.from_big_endian r.nonce_in ≡ e.nonce
      → ¬ (existing_epoch c fs p r files ≡ ok none)
  unfolding existing_epoch
  existing_epoch-ne-none p r e files h ne nonce ex =
      let hash = epoch_hash c fs e in
      let there =
        subst (λ n. get_epoch_marker c fs n files ≡ ok (some hash)) (sym nonce)
          (get_epoch_marker-HasMarker c fs laws e files h) in
      against_marker-ne-none (requested_epoch c fs p r) hash
        (rw (bytes_eq-ne r.seed_in empty_slice ne, there, against_marker) at ex)

  -- In a state that holds the marker of `e`, a successful call with a seed that is not empty and
  -- the nonce of `e` caches an epoch with the seed, nonce, workers and stakes of `e`, unless the
  -- images of the two epochs collide under the hash. The block number may be another one.
  pub set_worker_params-authentic :
      (r : Request) (s s' : Keeper S) (e : Epoch)
      → HasMarker c fs laws e s.files
      → IsTyped e
      → ((p : InputWorkerParams)
          → c.decode r.worker_params_rlp ≡ some p
          → IsTyped (requested_epoch c fs p r)
            × (epoch_hash c fs (requested_epoch c fs p r) ≡ epoch_hash c fs e
                → encode_for_hashing c.hashing.uint256 (requested_epoch c fs p r)
                  ≡ encode_for_hashing c.hashing.uint256 e))
      → set_worker_params c fs r s ≡ (ok tt, s')
      → r.seed_in ≢ empty_slice
      → c.hashing.uint256.from_big_endian r.nonce_in ≡ e.nonce
      → (x : Epoch) × (get e.nonce s'.cache ≡ some x)
        × (x.seed ≡ e.seed)
        × (x.nonce ≡ e.nonce)
        × (x.worker_params.workers ≡ e.worker_params.workers)
        × (x.worker_params.stakes ≡ e.worker_params.stakes)
  set_worker_params-authentic r s s' e h typed params run ne nonce =
      let g = set_worker_params-ok c fs r s s' run in
      let x = g.epoch in
      elim g.origin [
        | inr (empty, _) ↦ absurd (existing_epoch-ne-none g.params r e s.files h ne nonce empty)
        | inl (found, _) ↦
            let (same, equal) = existing_epoch-same g.params r e x s.files h ne nonce found in
            let (typed', no_collision) = params g.params g.decoded in
            let image = no_collision (ap (epoch_hash c fs) (sym same) ∙ equal) in
            let (seed, nonce', workers, stakes) =
              (encode_for_hashing_iff laws.uint256 (requested_epoch c fs g.params r) e typed'
                  typed).0
                image in
            (
              x,
              rw g.signed.cache (
                  subst (λ n. get n (insert x.nonce x g.signed.room) ≡ some x)
                    (ap (λ y. y.nonce) same ∙ nonce') (get-insert_self g.signed.room x)),
              ap (λ y. y.seed) same ∙ seed,
              ap (λ y. y.nonce) same ∙ nonce',
              ap (λ y. y.worker_params.workers) same ∙ workers,
              ap (λ y. y.worker_params.stakes) same ∙ stakes,
            )
      ]
