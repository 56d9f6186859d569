-- ===== src/Principal/Watch/Running.antt =====
-- How a run of the loop over the blocks ends.
use enigma_core.Prelude.{
  ℕ, ◌+◌, ◌≡◌, ◌≢◌, refl, sym, ap, ◌∙◌, subst, inl, inr, true, false, Bool-cases, ◌++◌,
  Option-cases, Option, none, some, List, [], ◌∷◌, ◌==◌, Outcome, ok, err, panic, arith,
}
use enigma_core.Exec.{Run, pure, ◌>>=◌, ◌>>◌, >>=-eq-ok}
use enigma_core.Principal.{HostError, EpochState}
use enigma_core.Principal.States.{is_last_unconfirmed, last, last_where}
use enigma_core.Principal.Provider.{
  Host, Node, find_last_epoch, set_worker_params, set_worker_params_internal,
}
use enigma_core.Principal.Provider.Published.{publish-ok}
use enigma_core.Principal.States.Find.{last_where-confirmed}
use enigma_core.Principal.Watch.{prev_block, is_due, expected, watch_block, watch_blocks}

module _ {S K Eth : Type 0} (h : Host S K Eth) (epoch_size gas_limit confirmations : ℕ) where
  found-confirmed :
      (n : Node S K Eth) (e : EpochState)
      → find_last_epoch h n ≡ ok e
      → is_last_unconfirmed n.manager.epoch_state_list ≡ false
  unfolding find_last_epoch
  found-confirmed n e f = ground arith

  -- The `unwrap` of the last confirmed state's confirmation does not panic.
  prev_block-ok :
      (states : List EpochState) → (prev : ℕ) × (prev_block (last true states) ≡ ok prev)
  unfolding last
  prev_block-ok states = elim (Option-cases (last_where true states)) [
    | inl f ↦ (0, rw f refl)
    | inr (e, f) ↦ elim (Option-cases e.confirmed_state) [
      | inl g ↦ absurd (ground (arith, last_where-confirmed states e f))
      | inr (c, g) ↦ (c.ether_block_number, rw (f, g) refl)
    ]
  ]

  set_worker_params-confirmed :
      (b : ℕ) (n n' : Node S K Eth) (hash : List ℕ)
      → set_worker_params h b gas_limit confirmations n ≡ (ok hash, n')
      → is_last_unconfirmed n'.manager.epoch_state_list ≡ false
  unfolding set_worker_params set_worker_params_internal
  set_worker_params-confirmed b n n' hash k =
      let (p, n₀, active, k₁) = >>=-eq-ok _ _ n n' hash k in
      let (e, n₁, set, k₂) = >>=-eq-ok _ _ n₀ n' hash k₁ in
      let (u, n₂, appended, k₃) = >>=-eq-ok _ _ n₁ n' hash k₂ in
      let done = publish-ok h b gas_limit confirmations p e n₂ n' hash k₃ in
      found-confirmed n' done.state done.found

  -- A round at `b` from `n` in which an epoch was due and its call failed, which left `n'`.
  pub record IsFailed (b : ℕ) (n n' : Node S K Eth) : Type 0 where
    pub prev : ℕ
    pub previous : prev_block (last true n.manager.epoch_state_list) ≡ ok prev
    pub due : is_due epoch_size prev b ≡ true
    pub fails : (hash : List ℕ) → (set_worker_params h b gas_limit confirmations n).0 ≢ ok hash
    pub left : (set_worker_params h b gas_limit confirmations n).1 ≡ n'

  -- A run from `n` over `fetched` that went through its first rounds, from a list whose last state is confirmed to
  -- such a list, and failed in the next, which left `n'`.
  pub record IsStopped (run : List (Option ℕ) → Run HostError (Node S K Eth) (Unit {0}))
      (fetched : List (Option ℕ)) (n n' : Node S K Eth) : Type 0 where
    pub rounds : List (Option ℕ)
    pub block : ℕ
    pub rest : List (Option ℕ)
    pub parts : fetched ≡ rounds ++ some block ∷ rest
    pub before : Node S K Eth
    pub went : run rounds n ≡ (ok tt, before)
    pub confirmed : is_last_unconfirmed before.manager.epoch_state_list ≡ false
    pub failed : IsFailed block before n'

  abbrev pub Ends : (Node S K Eth → Type 0) → Outcome HostError (Unit {0}) × Node S K Eth → Type 0
  Ends Stopped (ok u, n') = is_last_unconfirmed n'.manager.epoch_state_list ≡ false
  Ends Stopped (err x, n') = ⊥
  Ends Stopped (panic, n') = Stopped n'

  set-Ends :
      (b prev : ℕ) (n : Node S K Eth)
      → prev_block (last true n.manager.epoch_state_list) ≡ ok prev
      → is_due epoch_size prev b ≡ true
      → (x : Outcome HostError (List ℕ) × Node S K Eth)
      → set_worker_params h b gas_limit confirmations n ≡ x
      → Ends (IsFailed b n) (expected x)
  set-Ends b prev n f d (ok hash, n') e = set_worker_params-confirmed b n n' hash e
  set-Ends b prev n f d (err x, n') e = record {
    prev = prev;
    previous = f;
    due = d;
    fails = λ hash k. cc (k, ap (λ y. y.0) e);
    left = ap (λ y. y.1) e;
  }
  set-Ends b prev n f d (panic, n') e = record {
    prev = prev;
    previous = f;
    due = d;
    fails = λ hash k. cc (k, ap (λ y. y.0) e);
    left = ap (λ y. y.1) e;
  }

  watch_block-Ends :
      (b : ℕ) (n : Node S K Eth)
      → is_last_unconfirmed n.manager.epoch_state_list ≡ false
      → Ends (IsFailed b n) (watch_block h epoch_size gas_limit confirmations b n)
  unfolding watch_block
  watch_block-Ends b n before =
      let (prev, f) = prev_block-ok n.manager.epoch_state_list in
      elim (Bool-cases (is_due epoch_size prev b)) [
        | inl d ↦ rw (f, d) (set-Ends b prev n f d _ refl)
        | inr d ↦ rw (f, d) before
      ]

  Ends-map :
      {P Q : Node S K Eth → Type 0} (x : Outcome HostError (Unit {0}) × Node S K Eth)
      → ((n' : Node S K Eth) → P n' → Q n')
      → Ends P x
      → Ends Q x
  Ends-map (ok u, n) f ends = ends
  Ends-map (err e, n) f ends = absurd ends
  Ends-map (panic, n) f ends = f n ends

  module _ (run tail : List (Option ℕ) → Run HostError (Node S K Eth) (Unit {0})) (b : ℕ)
      (fetched : List (Option ℕ)) (n : Node S K Eth)
      (first : (rounds : List (Option ℕ))
        → run (some b ∷ rounds) n
          ≡ (watch_block h epoch_size gas_limit confirmations b >> tail rounds) n) where
    -- A round, and then the rest of the run from what the round left.
    round-Ends :
        (x : Outcome HostError (Unit {0}) × Node S K Eth)
        → watch_block h epoch_size gas_limit confirmations b n ≡ x
        → is_last_unconfirmed n.manager.epoch_state_list ≡ false
        → run [] n ≡ (ok tt, n)
        → Ends (IsFailed b n) x
        → ((n₁ : Node S K Eth)
            → is_last_unconfirmed n₁.manager.epoch_state_list ≡ false
            → Ends (IsStopped tail fetched n₁) (tail fetched n₁))
        → Ends (IsStopped run (some b ∷ fetched) n) (run (some b ∷ fetched) n)
    unfolding ◌>>=◌
    round-Ends (ok u, n₁) e before start ends next =
        let on : (rounds : List (Option ℕ)) → run (some b ∷ rounds) n ≡ tail rounds n₁ =
          λ rounds. first rounds ∙ rw e refl in
        subst (Ends (IsStopped run (some b ∷ fetched) n)) (sym (on fetched)) (
          Ends-map (tail fetched n₁)
            (λ n' s. record {
              rounds = some b ∷ s.rounds;
              block = s.block;
              rest = s.rest;
              parts = ap (◌∷◌ (some b)) s.parts;
              before = s.before;
              went = on s.rounds ∙ s.went;
              confirmed = s.confirmed;
              failed = s.failed;
            })
            (next n₁ ends))
    round-Ends (err x, n₁) e before start ends next = absurd ends
    round-Ends (panic, n₁) e before start ends next =
        let stops : run (some b ∷ fetched) n ≡ (panic, n₁) = first fetched ∙ rw e refl in
        subst (Ends (IsStopped run (some b ∷ fetched) n)) (sym stops) (record {
          rounds = [];
          block = b;
          rest = fetched;
          parts = refl;
          before = n;
          went = start;
          confirmed = before;
          failed = ends;
        })

  -- Every run of the loop from a list whose last state is confirmed, whatever it fetches and however
  -- long: it either ends well, again with such a list, or it panics, in a round in which an epoch
  -- was due and `set_worker_params` failed, after rounds that went through and left such a list; it
  -- leaves what that call left. It returns no error, and no `unwrap` panics.
  pub watch_blocks-Ends :
      (max_epochs epoch_counter : ℕ) (fetched : List (Option ℕ)) (n : Node S K Eth)
      → is_last_unconfirmed n.manager.epoch_state_list ≡ false
      → Ends
          (IsStopped
            (watch_blocks h epoch_size gas_limit confirmations max_epochs epoch_counter)
            fetched
            n)
          (watch_blocks h epoch_size gas_limit confirmations max_epochs epoch_counter fetched n)
  unfolding watch_blocks pure
  watch_blocks-Ends max i [] n before = before
  watch_blocks-Ends max i (none ∷ fetched) n before =
      Ends-map (watch_blocks h epoch_size gas_limit confirmations max i fetched n)
        (λ n' s. record {
          rounds = none ∷ s.rounds;
          block = s.block;
          rest = s.rest;
          parts = ap (◌∷◌ none) s.parts;
          before = s.before;
          went = s.went;
          confirmed = s.confirmed;
          failed = s.failed;
        })
        (watch_blocks-Ends max i fetched n before)
  watch_blocks-Ends max i (some b ∷ fetched) n before =
      let ends = watch_block-Ends b n before in
      elim (Bool-cases (max == 0)) [
        | inl z ↦
            round-Ends (watch_blocks h epoch_size gas_limit confirmations max i)
              (watch_blocks h epoch_size gas_limit confirmations max i) b fetched n
              (λ rounds. rw z refl) _ refl before refl ends (watch_blocks-Ends max i fetched)
        | inr z ↦ elim (Bool-cases (i + 1 == max)) [
          | inl at_end ↦
              round-Ends (watch_blocks h epoch_size gas_limit confirmations max i)
                (λ rounds. pure tt) b fetched n (λ rounds. rw (z, at_end) refl) _ refl before refl
                ends (λ n₁ c. c)
          | inr on ↦
              round-Ends (watch_blocks h epoch_size gas_limit confirmations max i)
                (watch_blocks h epoch_size gas_limit confirmations max (i + 1)) b fetched n
                (λ rounds. rw (z, on) refl) _ refl before refl ends
                (watch_blocks-Ends max (i + 1) fetched)
        ]
      ]
