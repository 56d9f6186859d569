-- ===== src/Principal/Server/Waiting.antt =====
-- When `getStateKeys` asks to be called again later.
use Prim.Native.String.{String}
use enigma_core.Prelude.{
  ℕ, ◌≡◌, ◌⊎◌, ◌↔◌, inl, inr, refl, ap, ◌∙◌, true, Bool-cases, Option-cases, Outcome-cases, Option,
  none, some, List, [], ◌∷◌, ◌++◌, subst, All, ok, err, arith,
}
use enigma_core.StateKeys.{KeyStore}
use enigma_core.Principal.{HostError, epoch_state_transition, EpochState}
use enigma_core.Principal.States.{is_confirmed, is_last_unconfirmed, last, last_where}
use enigma_core.Principal.States.Find.{
  StartsLater, get_confirmed_by_block_number-IsLatest, last_where-confirmed,
}
use enigma_core.Principal.Provider.{Host, Node, find_epoch, find_last_epoch}
use enigma_core.Principal.Server.{
  StateKeyRequest, ServerCrates, illegal_state, handle_error, epoch_of, prepared, get_state_keys,
}
use enigma_core.Principal.Server.Transition.{
  chain-IsOther, handle_error-illegal_state, addresses_of-IsOther, arguments-IsOther,
  call_with-transition,
}

All-middle :
    {A : Type 0} (P : A → Type 0) (front : List A) (a : A) (back : List A)
    → All P (front ++ a ∷ back)
    → P a
All-middle P [] a back all = all.0
All-middle P (x ∷ front) a back all = All-middle P front a back all.1

module _ {K S F Eth : Type 0} (h : Host S F Eth) (c : ServerCrates K) where
  -- A request without a block while the last state awaits its confirmation, or one for a block
  -- before all confirmed states.
  abbrev pub IsEarly : Option String → Node S F Eth → Type 0
  IsEarly o n =
      ((o ≡ none) × (is_last_unconfirmed n.manager.epoch_state_list ≡ true))
      ⊎ ((text : String) × (b : ℕ) × (o ≡ some text)
          × (c.from_dec_str text ≡ some b)
          × All (StartsLater b) n.manager.epoch_state_list)

  epoch_of-confirmed :
      (o : Option String) (n : Node S F Eth) (e : EpochState)
      → epoch_of h c o n ≡ ok e
      → is_confirmed e ≡ true
  unfolding epoch_of find_last_epoch find_epoch last
  epoch_of-confirmed none n e k =
      elim (Bool-cases (is_last_unconfirmed n.manager.epoch_state_list)) [
        | inl w ↦ absurd (cc (rw w at k))
        | inr w ↦ elim (Option-cases (last_where true n.manager.epoch_state_list)) [
          | inl f ↦ absurd (cc (rw (w, f) at k))
          | inr (e', f) ↦
              let same : e' ≡ e = cc (rw (w, f) at k) in
              subst (λ x. is_confirmed x ≡ true) same
                (last_where-confirmed n.manager.epoch_state_list e' f)
        ]
      ]
  epoch_of-confirmed (some text) n e k = elim (Option-cases (c.from_dec_str text)) [
    | inl f ↦ absurd (cc (rw f at k))
    | inr (b, f) ↦ elim (get_confirmed_by_block_number-IsLatest b n.manager.epoch_state_list) [
      | inl (e', run, latest) ↦
          let same : e' ≡ e = cc (rw (f, run) at k) in
          let (s, confirmed, _) = latest.starts in
          subst (λ x. is_confirmed x ≡ true) same (rw confirmed refl)
      | inr (run, later) ↦ absurd (cc (rw (f, run) at k))
    ]
  ]

  epoch_of-early :
      (o : Option String) (n : Node S F Eth)
      → IsEarly o n
      → epoch_of h c o n ≡ err epoch_state_transition
  unfolding epoch_of find_last_epoch find_epoch
  epoch_of-early o n (inl (p, w)) = rw (p, w) refl
  epoch_of-early o n (inr (text, b, p, f, later)) =
      elim (get_confirmed_by_block_number-IsLatest b n.manager.epoch_state_list) [
        | inl (e, run, latest) ↦
            let (s, confirmed, le) = latest.starts in
            let out : All (StartsLater b) (latest.front ++ e ∷ latest.back) =
              subst (All (StartsLater b)) latest.parts later in
            absurd (
              omega
                (arith, le, All-middle (StartsLater b) latest.front e latest.back out s confirmed))
        | inr (run, _) ↦ rw (p, f) run
      ]

  epoch_of-transition :
      (o : Option String) (n : Node S F Eth)
      → epoch_of h c o n ≡ err epoch_state_transition
      → IsEarly o n
  unfolding epoch_of find_last_epoch find_epoch last
  epoch_of-transition none n k =
      elim (Bool-cases (is_last_unconfirmed n.manager.epoch_state_list)) [
        | inl w ↦ inl (refl, w)
        | inr w ↦ elim (Option-cases (last_where true n.manager.epoch_state_list)) [
          | inl f ↦ absurd (cc (rw (w, f) at k))
          | inr (e, f) ↦ absurd (cc (rw (w, f) at k))
        ]
      ]
  epoch_of-transition (some text) n k = elim (Option-cases (c.from_dec_str text)) [
    | inl f ↦ absurd (cc (rw f at k))
    | inr (b, f) ↦ elim (get_confirmed_by_block_number-IsLatest b n.manager.epoch_state_list) [
      | inl (e, run, latest) ↦ absurd (cc (rw (f, run) at k))
      | inr (run, later) ↦ inr (text, b, refl, f, later)
    ]
  ]

  prepared-transition :
      (n : Node S F Eth) (request : StateKeyRequest) (pair : Option K) (iv : Option (List ℕ))
      → prepared h c n request pair iv ≡ err epoch_state_transition
      → epoch_of h c request.block_number n ≡ err epoch_state_transition
  unfolding prepared
  prepared-transition n request pair iv k =
      elim (Outcome-cases (epoch_of h c request.block_number n)) [
        | inl (e, f) ↦
            let confirmed = epoch_of-confirmed request.block_number n e f in
            absurd (
              chain-IsOther _ _ (addresses_of-IsOther h c request request.addresses e confirmed)
                (λ addrs. arguments-IsOther h c request e.nonce addrs pair iv) (rw f at k))
        | inr (inl (x, f)) ↦
            let same : x ≡ epoch_state_transition = cc (rw f at k) in f ∙ ap err same
        | inr (inr f) ↦ absurd (cc (rw f at k))
      ]

  -- `getStateKeys` asks to be called again, with the code of an illegal state, exactly when the
  -- request has no block and the last epoch awaits its confirmation, or its block is before the start
  -- of every confirmed epoch: no other refusal, of the request, its contracts or the enclave, has
  -- that code.
  pub get_state_keys-illegal_state :
      (n : Node S F Eth) (request : StateKeyRequest) (pair : Option K) (iv : Option (List ℕ))
      (store : KeyStore F)
      → ((e : HostError) × ((get_state_keys h c n request pair iv store).0 ≡ err e)
          × (handle_error e ≡ illegal_state))
        ↔ IsEarly request.block_number n
  unfolding get_state_keys prepared handle_error
  get_state_keys-illegal_state n request pair iv store = (
    λ (e, out, code).
        let refused = out ∙ ap err (handle_error-illegal_state e code) in
        epoch_of-transition request.block_number n
          (prepared-transition n request pair iv (call_with-transition h c n store _ refused)),
    λ early. (epoch_state_transition, rw (epoch_of-early request.block_number n early) refl, refl),
  )
