-- ===== src/Epoch/Selection/Total.antt =====
-- The selection of one worker ends, within its fuel, in one of its outcomes.
use mathlib.Core.List.{get_last?}
use native.Mathlib.Nat.{zero-add}
use enigma_core.Prelude.{
  ℕ, ◌+◌, ◌%◌, ◌^◌, ◌≤◌, ◌<◌, ◌≡◌, ◌≢◌, ◌⊎◌, inl, inr, refl, none, some, List, [], ◌∷◌, arith,
  length, false, not, ◌||◌, ◌==◌, ok, err, panic, Outcome, sym, dec_lt, ℕ_discrete,
}
use enigma_core.Errors.{EnclaveError, system_error, worker_auth_error}
use enigma_core.Epoch.{InputWorkerParams, Epoch}
use enigma_core.Epoch.Selection.{
  and_then, Hashing, rem_u256, sum_stakes, contains, raw_encode, draw_worker, select_loop,
  get_selected_workers, get_selected_worker, epoch_get_selected_worker,
}
use enigma_core.Epoch.Selection.Weights.{total, IsPicked, pick_worker-IsPicked}

-- The sum of the stakes, if it fits 256 bits.
pub sum_stakes-total :
    (acc : ℕ) (ss : List ℕ) → acc + total ss < 2 ^ 256 → sum_stakes acc ss ≡ ok (acc + total ss)
unfolding sum_stakes
sum_stakes-total acc [] h = ground arith
sum_stakes-total acc (s ∷ ss) h = ground (arith, sum_stakes-total (acc + s) ss)

-- It panics if the sum does not fit.
sum_stakes_overflow :
    (acc : ℕ) (ss : List ℕ) → acc < 2 ^ 256 → 2 ^ 256 ≤ acc + total ss → sum_stakes acc ss ≡ panic
unfolding sum_stakes
sum_stakes_overflow acc [] h k = absurd (omega arith)
sum_stakes_overflow acc (s ∷ ss) h k = ground (arith, sum_stakes_overflow (acc + s) ss)

-- Parameters with workers, a stake for each, and a sum of stakes that is positive and fits.
pub record IsSelectable (p : InputWorkerParams) : Type 0 where
  pub workers : 0 < length p.workers
  pub stakes : length p.stakes ≡ length p.workers
  pub positive : 0 < total p.stakes
  pub fits : total p.stakes < 2 ^ 256

rem_u256-pos : (a b : ℕ) → 0 < b → rem_u256 a b ≡ ok (a % b)
unfolding rem_u256
rem_u256-pos a b h = ground arith

get_last?-some : {A : Type 0} (xs : List A) → 0 < length xs → (x : A) × (get_last? xs ≡ some x)
get_last?-some [] h = absurd (omega arith)
get_last?-some (x ∷ []) h = (x, refl)
get_last?-some (x ∷ y ∷ xs) h = get_last?-some (y ∷ xs) (omega arith)

enough_stakes :
    (p : InputWorkerParams)
    → 0 < length p.workers
    → length p.stakes ≡ length p.workers
    → ((length p.workers == 0) || not (length p.workers == length p.stakes)) ≡ false
enough_stakes p n same = ground arith

module _ (h : Hashing) where
  -- The value that round `nonce` draws for a contract.
  abbrev pub draw : InputWorkerParams → List ℕ → ℕ → ℕ → ℕ
  draw p sc_addr seed nonce =
      h.uint256.from_big_endian
        (h.keccak256 (raw_encode h (record { seed = seed; sc_addr = sc_addr; nonce = nonce })))
      % total p.stakes

  draw_worker-IsPicked :
      (p : InputWorkerParams) (sc_addr : List ℕ) (seed nonce : ℕ)
      → IsSelectable p
      → (i : ℕ) × (w : List ℕ) × (draw_worker h p sc_addr seed (total p.stakes) nonce ≡ ok w)
        × IsPicked p.stakes p.workers (draw p sc_addr seed nonce) i w
  unfolding draw_worker
  draw_worker-IsPicked p sc_addr seed nonce s =
      let (last, e) = get_last?-some p.workers s.workers in
      let (i, w, q, k) =
        pick_worker-IsPicked p.stakes p.workers (draw p sc_addr seed nonce) last s.stakes
          (omega (arith, s.positive)) (omega (arith, s.positive, s.fits)) in
      (i, w, rw (rem_u256-pos _ _ s.positive, e) q, k)

  get_selected_workers_enough :
      (fuel : ℕ) (p : InputWorkerParams) (sc_addr : List ℕ) (seed : ℕ)
      → 0 < length p.workers
      → length p.stakes ≡ length p.workers
      → get_selected_workers h fuel p sc_addr seed none
        ≡ and_then
            (sum_stakes 0 p.stakes)
            (λ balance_sum. select_loop h fuel p sc_addr seed balance_sum 1 0 [])
  unfolding get_selected_workers
  get_selected_workers_enough fuel p sc_addr seed n same = rw (enough_stakes p n same) refl

  get_selected_workers_one :
      (p : InputWorkerParams) (sc_addr : List ℕ) (seed : ℕ) (w : List ℕ)
      → IsSelectable p
      → draw_worker h p sc_addr seed (total p.stakes) 0 ≡ ok w
      → get_selected_workers h 2 p sc_addr seed none ≡ some (ok (w ∷ []))
  unfolding select_loop contains
  get_selected_workers_one p sc_addr seed w s q =
      rw
        (
          get_selected_workers_enough 2 p sc_addr seed s.workers s.stakes,
          sum_stakes-total 0 p.stakes (omega (arith, s.fits)),
          zero-add,
          q,
        )
        refl

  get_selected_workers_panic :
      (p : InputWorkerParams) (sc_addr : List ℕ) (seed : ℕ)
      → 0 < length p.workers
      → length p.stakes ≡ length p.workers
      → (total p.stakes ≡ 0) ⊎ (2 ^ 256 ≤ total p.stakes)
      → get_selected_workers h 2 p sc_addr seed none ≡ some panic
  unfolding select_loop draw_worker rem_u256
  get_selected_workers_panic p sc_addr seed n same (inl none_staked) =
      rw
        (
          get_selected_workers_enough 2 p sc_addr seed n same,
          sum_stakes-total 0 p.stakes (omega arith),
          none_staked,
        )
        refl
  get_selected_workers_panic p sc_addr seed n same (inr too_much) =
      rw
        (
          get_selected_workers_enough 2 p sc_addr seed n same,
          sum_stakes_overflow 0 p.stakes (omega arith) (omega arith),
        )
        refl

  -- For parameters with workers, as many stakes, and a positive sum of stakes below 2^256, the
  -- selection ends, and picks the worker whose stake first reaches the value that round 0 draws.
  pub get_selected_worker-IsPicked :
      (p : InputWorkerParams) (sc_addr : List ℕ) (seed : ℕ)
      → IsSelectable p
      → (i : ℕ) × (w : List ℕ) × (get_selected_worker h p sc_addr seed ≡ some (ok (some w)))
        × IsPicked p.stakes p.workers (draw p sc_addr seed 0) i w
  unfolding get_selected_worker
  get_selected_worker-IsPicked p sc_addr seed s =
      let (i, w, q, k) = draw_worker-IsPicked p sc_addr seed 0 s in
      (i, w, rw (get_selected_workers_one p sc_addr seed w s q, get_selected_worker) refl, k)

  -- Without workers, or with another number of stakes, no worker is selected, and the epoch reports
  -- an authentication error.
  pub epoch_get_selected_worker_invalid :
      (e : Epoch) (sc_addr : List ℕ)
      → (length e.worker_params.workers ≡ 0)
        ⊎ (length e.worker_params.workers ≢ length e.worker_params.stakes)
      → epoch_get_selected_worker h e sc_addr ≡ some (err (system_error worker_auth_error))
  unfolding epoch_get_selected_worker get_selected_worker get_selected_workers
  epoch_get_selected_worker_invalid e sc_addr bad = ground arith

  -- With workers and as many stakes, stakes that sum to 0 or to 2^256 and more make the selection
  -- panic.
  pub epoch_get_selected_worker_panics :
      (e : Epoch) (sc_addr : List ℕ)
      → 0 < length e.worker_params.workers
      → length e.worker_params.stakes ≡ length e.worker_params.workers
      → (total e.worker_params.stakes ≡ 0) ⊎ (2 ^ 256 ≤ total e.worker_params.stakes)
      → epoch_get_selected_worker h e sc_addr ≡ some panic
  unfolding epoch_get_selected_worker get_selected_worker
  epoch_get_selected_worker_panics e sc_addr n same bad =
      rw
        (
          get_selected_workers_panic e.worker_params sc_addr e.seed n same bad,
          epoch_get_selected_worker,
          get_selected_worker,
        )
        refl

  -- The selection of one worker ends for all parameters: two rounds of fuel are enough.
  pub epoch_get_selected_worker_total :
      (e : Epoch) (sc_addr : List ℕ)
      → (r : Outcome EnclaveError (List ℕ)) × (epoch_get_selected_worker h e sc_addr ≡ some r)
  unfolding epoch_get_selected_worker
  epoch_get_selected_worker_total e sc_addr =
      let p = e.worker_params in
      elim (dec_lt 0 (length p.workers)) [
        | no k ↦ (_, epoch_get_selected_worker_invalid e sc_addr (inl (omega arith)))
        | yes some_worker ↦ elim (ℕ_discrete (length p.stakes) (length p.workers)) [
          | no k ↦ (_, epoch_get_selected_worker_invalid e sc_addr (inr (λ q. k (sym q))))
          | yes same ↦ elim (dec_lt 0 (total p.stakes)) [
            | no k ↦
                (_, epoch_get_selected_worker_panics e sc_addr some_worker same (inl (omega arith)))
            | yes positive ↦ elim (dec_lt (total p.stakes) (2 ^ 256)) [
              | no k ↦ (
                _,
                epoch_get_selected_worker_panics e sc_addr some_worker same (inr (omega arith)),
              )
              | yes fits ↦
                  let (i, w, q, picked) = get_selected_worker-IsPicked p sc_addr e.seed (record {
                    workers = some_worker;
                    stakes = same;
                    positive = positive;
                    fits = fits;
                  }) in
                  (ok w, rw (q, epoch_get_selected_worker) refl)
            ]
          ]
        ]
      ]
