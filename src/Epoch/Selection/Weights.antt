-- ===== src/Epoch/Selection/Weights.antt =====
-- Which worker the walk through the stakes picks.
use enigma_core.Prelude.{
  ℕ, zero, suc, ◌+◌, ◌-◌, ◌^◌, ◌≤◌, ◌<◌, ◌≡◌, ◌⊎◌, inl, inr, refl, none, some, List, [], ◌∷◌, false,
  arith, length, get_elem?, take, drop, Bool-cases, Option-cases, leb, ltb, ◌==◌, ◌||◌,
  if◌then◌else◌, Outcome, ok, panic,
}
use enigma_core.Errors.{EnclaveError}
use enigma_core.Epoch.Selection.{overflowing_sub, pick_worker}

-- The stakes of the first `k` workers together.
abbrev pub total : List ℕ → ℕ
total [] = 0
total (s ∷ ss) = s + total ss

abbrev pub stake_before : ℕ → List ℕ → ℕ
stake_before k stakes = total (take k stakes)

-- `worker` is number `i`, and `r` passes the stakes before it and not those up to it. Number 0
-- has the value 0 too.
pub record IsPicked (stakes : List ℕ) (workers : List (List ℕ)) (r : ℕ) (i : ℕ) (worker : List ℕ)
    : Type 0 where
  pub at_index : get_elem? workers i ≡ some worker
  pub reached : r ≤ stake_before (suc i) stakes
  pub passed : (i ≡ 0) ⊎ (stake_before i stakes < r)

-- The walk over the stakes that are left, with no index.
walk : List ℕ → ℕ → List ℕ → List (List ℕ) → Outcome EnclaveError (List ℕ)
walk ss r last [] = ok last
walk [] r last (w ∷ ws) = panic
walk (s ∷ ss) r last (w ∷ ws) =
    let later = walk ss (r - s) last ws in if leb r s then ok w else later

drop-get_elem? :
    {A : Type 0} (xs : List A) (i : ℕ) (x : A)
    → get_elem? xs i ≡ some x
    → drop i xs ≡ x ∷ drop (suc i) xs
drop-get_elem? [] i x h = cc
drop-get_elem? (y ∷ xs) zero x h = cc
drop-get_elem? (y ∷ xs) (suc i) x h = drop-get_elem? xs i x h

drop-get_elem?-none : {A : Type 0} (xs : List A) (i : ℕ) → get_elem? xs i ≡ none → drop i xs ≡ []
drop-get_elem?-none [] zero h = refl
drop-get_elem?-none [] (suc i) h = refl
drop-get_elem?-none (y ∷ xs) zero h = cc
drop-get_elem?-none (y ∷ xs) (suc i) h = drop-get_elem?-none xs i h

-- Without a wrap the test of the loop is `r ≤ s`, and the difference is that of numbers.
stops_iff : (r s : ℕ) → r < 2 ^ 256 → (ltb r s || ((overflowing_sub r s).0 == 0)) ≡ leb r s
stops_iff r s h = elim (Bool-cases (leb r s)) [
  | inl e ↦ rw e (ground arith)
  | inr e ↦ rw e (ground arith)
]

overflowing_sub-le : (r s : ℕ) → r < 2 ^ 256 → s ≤ r → (overflowing_sub r s).0 ≡ r - s
overflowing_sub-le r s h k = omega arith

walk_step :
    (r s : ℕ) (a b c : Outcome EnclaveError (List ℕ))
    → r < 2 ^ 256
    → (leb r s ≡ false → b ≡ c)
    → (if ltb r s || ((overflowing_sub r s).0 == 0) then a else b) ≡ (if leb r s then a else c)
walk_step r s a b c h k = elim (Bool-cases (leb r s)) [
  | inl e ↦ rw (stops_iff r s h, e)
  | inr e ↦ rw (stops_iff r s h, e) (k e)
]

pick_worker-walk :
    (stakes : List ℕ) (i r : ℕ) (last : List ℕ) (ws : List (List ℕ))
    → r < 2 ^ 256
    → pick_worker stakes i r last ws ≡ walk (drop i stakes) r last ws
unfolding pick_worker walk
pick_worker-walk stakes i r last [] h = refl
pick_worker-walk stakes i r last (w ∷ ws) h = elim (Option-cases (get_elem? stakes i)) [
  | inl e ↦ rw (e, pick_worker, drop-get_elem?-none stakes i e) refl
  | inr (s, e) ↦
      rw (e, pick_worker, drop-get_elem? stakes i s e)
        (walk_step r s _ _ _ h (λ past.
          rw (overflowing_sub-le r s h (ground arith))
            (pick_worker-walk stakes (suc i) (r - s) last ws (omega arith))))
]

IsPicked-later :
    (s : ℕ) (ss : List ℕ) (w : List ℕ) (ws : List (List ℕ)) (r i : ℕ) (x : List ℕ)
    → s < r
    → IsPicked ss ws (r - s) i x
    → IsPicked (s ∷ ss) (w ∷ ws) r (suc i) x
IsPicked-later s ss w ws r i x h p = record {
  at_index = p.at_index;
  reached = omega (arith, p.reached);
  passed = inr (elim p.passed [ inl first ↦ rw first (omega arith) | inr later ↦ omega arith ]);
}

walk-IsPicked :
    (ss : List ℕ) (r : ℕ) (last : List ℕ) (ws : List (List ℕ))
    → length ss ≡ length ws
    → r < total ss
    → (i : ℕ) × (w : List ℕ) × (walk ss r last ws ≡ ok w) × IsPicked ss ws r i w
unfolding walk
walk-IsPicked [] r last ws e h = absurd (omega arith)
walk-IsPicked (s ∷ ss) r last [] e h = absurd (omega arith)
walk-IsPicked (s ∷ ss) r last (w ∷ ws) e h = elim (Bool-cases (leb r s)) [
  | inl here ↦
      (0, w, rw here, record { at_index = refl; reached = ground arith; passed = inl refl })
  | inr past ↦
      let (i, x, q, p) = walk-IsPicked ss (r - s) last ws (omega arith) (ground arith) in
      (suc i, x, rw (past, q), IsPicked-later s ss w ws r i x (ground arith) p)
]

-- The walk over all workers with as many stakes, from a value below the sum of the stakes, panics
-- nowhere and picks the worker whose stake reaches the value first.
pub pick_worker-IsPicked :
    (stakes : List ℕ) (workers : List (List ℕ)) (r : ℕ) (last : List ℕ)
    → length stakes ≡ length workers
    → r < total stakes
    → r < 2 ^ 256
    → (i : ℕ) × (w : List ℕ) × (pick_worker stakes 0 r last workers ≡ ok w)
      × IsPicked stakes workers r i w
pick_worker-IsPicked stakes workers r last e h k =
    rw (pick_worker-walk stakes 0 r last workers k) (walk-IsPicked stakes r last workers e h)
