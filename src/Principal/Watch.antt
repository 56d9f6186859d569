-- ===== src/Principal/Watch.antt =====
-- The loop of the key-management node over the blocks of Ethereum: boot_network/principal_utils.rs.
-- What the node fetches in each round, a block number or a failure, is a list.
pub mod Running
use enigma_core.Prelude.{
  ℕ, ◌+◌, ◌%◌, ◌^◌, ◌≡◌, ◌≢◌, ◌⊎◌, refl, sym, ap, ◌∙◌, subst, inl, inr, Bool, true, false, ◌||◌,
  Bool-cases, Outcome-cases, ◌++◌, Option-cases, Option, none, some, List, [], ◌∷◌, leb, ◌==◌,
  if◌then◌else◌, Outcome, ok, err, panic, arith,
}
use enigma_core.Exec.{Run, pure, ◌>>=◌, ◌>>◌, >>=-eq-ok}
use enigma_core.Principal.{HostError, EpochState}
use enigma_core.Principal.States.{is_confirmed, is_last_unconfirmed, last, last_where}
use enigma_core.Principal.Provider.{
  Host, Node, find_last_epoch, set_worker_params, set_worker_params_internal,
}
use enigma_core.Principal.Provider.Published.{publish-ok}
use enigma_core.Principal.Provider.Confirming.{IsWaiting, set_worker_params_internal-Refuses}

-- `low_u64`, and then a `usize` of 64 bits.
abbrev pub low_u64 : ℕ → ℕ
low_u64 n = n % 2 ^ 64

-- The block of the last confirmed epoch, 0 if there is none; `unwrap` of its confirmation.
abbrev pub prev_block : Outcome HostError EpochState → Outcome HostError ℕ
prev_block (ok e) = elim e.confirmed_state [ none ↦ panic | some c ↦ ok c.ether_block_number ]
prev_block (err _) = ok 0
prev_block panic = panic

-- The test for a new epoch; a release build wraps the sum.
unfoldable pub is_due : ℕ → ℕ → ℕ → Bool
is_due epoch_size prev block_number =
    (low_u64 prev == 0) || leb ((low_u64 prev + epoch_size) % 2 ^ 64) (low_u64 block_number)

-- `expect`.
abbrev pub expected : {A B : Type 0} → Outcome HostError A × B → Outcome HostError (Unit {0}) × B
expected (ok _, n) = (ok tt, n)
expected (err _, n) = (panic, n)
expected (panic, n) = (panic, n)

module _ {S K Eth : Type 0} (h : Host S K Eth) (epoch_size gas_limit confirmations : ℕ) where
  abbrev pub set_if_due : ℕ → Outcome HostError ℕ → Run HostError (Node S K Eth) (Unit {0})
  set_if_due block_number (ok prev) n =
      if is_due epoch_size prev block_number
      then expected (set_worker_params h block_number gas_limit confirmations n)
      else (ok tt, n)
  set_if_due block_number (err e) n = (err e, n)
  set_if_due block_number panic n = (panic, n)

  -- A round at a block.
  unfoldable pub watch_block : ℕ → Run HostError (Node S K Eth) (Unit {0})
  watch_block block_number n =
      set_if_due block_number (prev_block (last true n.manager.epoch_state_list)) n

  -- The rounds, up to `max_epochs` of those that fetched a block; 0 is no bound.
  unfoldable pub watch_blocks : ℕ → ℕ → List (Option ℕ) → Run HostError (Node S K Eth) (Unit {0})
  watch_blocks max_epochs epoch_counter [] = pure tt
  watch_blocks max_epochs epoch_counter (none ∷ fetched) =
      watch_blocks max_epochs epoch_counter fetched
  watch_blocks max_epochs epoch_counter (some block_number ∷ fetched) =
      let unbounded = watch_blocks max_epochs epoch_counter fetched in
      let counted = watch_blocks max_epochs (epoch_counter + 1) fetched in
      watch_block block_number
      >> (if max_epochs == 0
          then unbounded
          else if epoch_counter + 1 == max_epochs
          then pure tt
          else counted)

  expected-never :
      {A B : Type 0} (x : Outcome HostError A × B)
      → ((a : A) → x.0 ≢ ok a)
      → ((expected x).0 ≡ panic) × ((expected x).1 ≡ x.1)
  expected-never (ok a, n) never = absurd (never a refl)
  expected-never (err e, n) never = (refl, refl)
  expected-never (panic, n) never = (refl, refl)

  -- A node whose last epoch waits for its confirmation stops in the first round in which an epoch is
  -- due: the round panics and neither the list nor Ethereum changes.
  pub watch_block_waiting :
      (b prev : ℕ) (n : Node S K Eth)
      → is_last_unconfirmed n.manager.epoch_state_list ≡ true
      → prev_block (last true n.manager.epoch_state_list) ≡ ok prev
      → is_due epoch_size prev b ≡ true
      → ((watch_block b n).0 ≡ panic)
        × ((watch_block b n).1.manager ≡ n.manager)
        × ((watch_block b n).1.eth ≡ n.eth)
  unfolding watch_block set_worker_params
  watch_block_waiting b prev n waiting f d =
      let here : IsWaiting h n n = record { waiting = waiting; manager = refl; eth = refl } in
      let refused = set_worker_params_internal-Refuses h n b gas_limit confirmations none in
      let called = set_worker_params_internal h b gas_limit confirmations none n in
      let (stops, kept) = expected-never called (refused.never n here) in
      let left = refused.keeps n here in
      let round : watch_block b n ≡ expected called = rw (f, d) refl in
      (
        ap (λ x. x.0) round ∙ stops,
        ap (λ x. x.1.manager) round ∙ ap (λ m. m.manager) kept ∙ left.manager,
        ap (λ x. x.1.eth) round ∙ ap (λ m. m.eth) kept ∙ left.eth,
      )
