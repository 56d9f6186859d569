-- ===== src/Epoch/Selection.antt =====
-- The worker selection of enigma-tools-m/src/keeper_types.rs, and `Epoch::get_selected_worker` of
-- epoch_keeper_t/epoch_t.rs. Keccak and the ABI encoding are other crates' and are parameters.
pub mod Weights
pub mod Total
use Prim.Native.Nat.{min}
use mathlib.Core.List.{get_last?}
use enigma_core.Prelude.{
  ℕ, zero, suc, ◌+◌, ◌-◌, ◌*◌, ◌%◌, ◌^◌, Bool, true, false, not, ◌||◌, Option, none, some, List, [],
  ◌∷◌, ◌++◌, length, get_elem?, ltb, ◌==◌, bytes_eq, if◌then◌else◌, Outcome, ok, err, panic, ◌>>=◌,
}
use enigma_core.Errors.{EnclaveError, system_error, worker_auth_error}
use enigma_core.Epoch.{InputWorkerParams, Epoch, Uint256}

-- The tokens of `ethabi` that the selection encodes.
pub data Token : Type 0 where
  uint : ℕ → Token
  fixed_bytes : List ℕ → Token

pub record Hashing : Type 0 where
  pub uint256 : Uint256
  pub encode : List Token → List ℕ
  pub keccak256 : List ℕ → List ℕ

pub record WorkerSelectionToken : Type 0 where
  pub seed : ℕ
  pub sc_addr : List ℕ
  pub nonce : ℕ

-- A sum of 256-bit numbers panics when it overflows.
abbrev pub add_u256 : ℕ → ℕ → Outcome EnclaveError ℕ
add_u256 a b = if ltb (a + b) (2 ^ 256) then ok (a + b) else panic

-- `overflowing_sub`: the difference modulo 2^256, and whether it wrapped.
abbrev pub overflowing_sub : ℕ → ℕ → ℕ × Bool
overflowing_sub a b = ((a + 2 ^ 256 - b) % 2 ^ 256, ltb a b)

-- `a % b` panics at 0.
unfoldable pub rem_u256 : ℕ → ℕ → Outcome EnclaveError ℕ
rem_u256 a b = if b == 0 then panic else ok (a % b)

-- The loop that sums the stakes.
unfoldable pub sum_stakes : ℕ → List ℕ → Outcome EnclaveError ℕ
sum_stakes balance_sum [] = ok balance_sum
sum_stakes balance_sum (balance ∷ rest) = do
  balance_sum' ← add_u256 balance_sum balance
  sum_stakes balance_sum' rest

-- The loop over the workers: `i` counts them, `selected_worker` is what it leaves untouched.
unfoldable pub pick_worker : List ℕ → ℕ → ℕ → List ℕ → List (List ℕ) → Outcome EnclaveError (List ℕ)
pick_worker stakes i rand_val selected_worker [] = ok selected_worker
pick_worker stakes i rand_val selected_worker (worker ∷ rest) = elim (get_elem? stakes i) [
  | none ↦ panic
  | some stake ↦
      let (new_rand, overflow) = overflowing_sub rand_val stake in
      let later = pick_worker stakes (suc i) new_rand selected_worker rest in
      if overflow || (new_rand == 0) then ok worker else later
]

-- `contains` of a vector of addresses.
unfoldable pub contains : List (List ℕ) → List ℕ → Bool
contains [] a = false
contains (x ∷ xs) a = bytes_eq x a || contains xs a

-- Goes on from a result into code that may run out of fuel.
abbrev pub and_then :
    {A B : Type 0}
    → Outcome EnclaveError A
    → (A → Option (Outcome EnclaveError B))
    → Option (Outcome EnclaveError B)
and_then (ok a) f = f a
and_then (err e) f = some (err e)
and_then panic f = some panic

-- `group_size.unwrap_or(1)`.
abbrev pub group_or_one : Option ℕ → ℕ
group_or_one none = 1
group_or_one (some n) = n

-- The first of the selected workers, if there is one.
abbrev pub first : Outcome EnclaveError (List (List ℕ)) → Outcome EnclaveError (Option (List ℕ))
first (ok []) = ok none
first (ok (w ∷ ws)) = ok (some w)
first (err e) = err e
first panic = panic

-- `ok_or_else`: no worker is an error.
abbrev pub or_nothing : Outcome EnclaveError (Option (List ℕ)) → Outcome EnclaveError (List ℕ)
or_nothing (ok none) = err (system_error worker_auth_error)
or_nothing (ok (some w)) = ok w
or_nothing (err e) = err e
or_nothing panic = panic

module _ (h : Hashing) where
  unfoldable pub raw_encode : WorkerSelectionToken → List ℕ
  raw_encode t = h.encode (uint t.seed ∷ fixed_bytes t.sc_addr ∷ uint t.nonce ∷ [])

  -- The body of the `while` up to the choice: draw, reduce, walk through the stakes.
  unfoldable pub draw_worker :
      InputWorkerParams → List ℕ → ℕ → ℕ → ℕ → Outcome EnclaveError (List ℕ)
  draw_worker p sc_addr seed balance_sum nonce = do
    let hash = h.keccak256 (raw_encode (record { seed = seed; sc_addr = sc_addr; nonce = nonce }))
    rand_val ← rem_u256 (h.uint256.from_big_endian hash) balance_sum
    elim (get_last? p.workers) [
      | none ↦ panic
      | some last ↦ pick_worker p.stakes 0 rand_val last p.workers
    ]

  -- The `while` loop, on fuel: `none` means that the fuel ran out.
  unfoldable pub select_loop :
      ℕ
      → InputWorkerParams
      → List ℕ
      → ℕ
      → ℕ
      → ℕ
      → ℕ
      → List (List ℕ)
      → Option (Outcome EnclaveError (List (List ℕ)))
  select_loop zero p sc_addr seed balance_sum group_size nonce selected = none
  select_loop (suc fuel) p sc_addr seed balance_sum group_size nonce selected =
      let round = and_then (draw_worker p sc_addr seed balance_sum nonce) (λ w.
        and_then (add_u256 nonce 1) (λ nonce'.
          select_loop fuel p sc_addr seed balance_sum group_size nonce'
            (if not (contains selected w) then selected ++ w ∷ [] else selected))) in
      if ltb (length selected) group_size then round else some (ok selected)

  unfoldable pub get_selected_workers :
      ℕ → InputWorkerParams → List ℕ → ℕ → Option ℕ → Option (Outcome EnclaveError (List (List ℕ)))
  get_selected_workers fuel p sc_addr seed group_size =
      if (length p.workers == 0) || not (length p.workers == length p.stakes)
      then some (ok [])
      else and_then (sum_stakes 0 p.stakes) (λ balance_sum.
        select_loop fuel p sc_addr seed balance_sum (group_or_one group_size) 0 [])

  -- `InputWorkerParams::get_selected_worker`. Two rounds of fuel: `Total` shows that they do.
  unfoldable pub get_selected_worker :
      InputWorkerParams → List ℕ → ℕ → Option (Outcome EnclaveError (Option (List ℕ)))
  get_selected_worker p sc_addr seed = elim (get_selected_workers 2 p sc_addr seed none) [
    | none ↦ none
    | some r ↦ some (first r)
  ]

  -- `Epoch::get_selected_worker`.
  unfoldable pub epoch_get_selected_worker : Epoch → List ℕ → Option (Outcome EnclaveError (List ℕ))
  epoch_get_selected_worker e sc_addr = elim (get_selected_worker e.worker_params sc_addr e.seed) [
    | none ↦ none
    | some r ↦ some (or_nothing r)
  ]
