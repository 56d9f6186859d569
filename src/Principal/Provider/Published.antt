-- ===== src/Principal/Provider/Published.antt =====
-- What a published epoch is: the transaction, the confirmation, and the state that is kept.
use mathlib.Core.List.{get_last?}
use enigma_core.Prelude.{
  ℕ, ◌≤◌, ◌≡◌, refl, sym, ap, ◌∙◌, true, false, Option, none, some, List, [], ◌∷◌, ◌++◌, ok, arith,
}
use enigma_core.Exec.{Run, lift, check, modify, pure, >>=-eq-ok}
use enigma_core.Epoch.{InputWorkerParams}
use enigma_core.Principal.{HostError, EpochState, confirm}
use enigma_core.Principal.Selected.{confirm-ok}
use enigma_core.Principal.States.{
  Manager, ManagerCrates, HostFiles, is_last_unconfirmed, is_confirmed, last, last_where,
  store_epoch_state, confirm_last,
}
use enigma_core.Principal.States.Invariant.{replace_last-ok}
use enigma_core.Principal.Provider.{
  Host, Node, in_manager, publish, set_workers_params, not_before, confirm_epoch, confirmed_with,
  find_last_epoch,
}

last_where-append :
    (b : _) (front : List EpochState) (e : EpochState)
    → is_confirmed e ≡ true
    → last_where b (front ++ e ∷ []) ≡ some e
unfolding last_where
last_where-append true [] e c = rw c refl
last_where-append false [] e c = refl
last_where-append b (x ∷ front) e c = rw (last_where-append b front e c) refl

get_last-append : (front : List EpochState) (e : EpochState) → get_last? (front ++ e ∷ []) ≡ some e
get_last-append [] e = refl
get_last-append (x ∷ []) e = refl
get_last-append (x ∷ y ∷ front) e = get_last-append (y ∷ front) e

not_before-ok : (km n m : ℕ) → not_before km n ≡ ok m → km ≤ m
not_before-ok km n m e = ground arith

-- A confirmed state that replaces the last is the last.
confirm_last-list :
    {S : Type 0} (c : ManagerCrates) (fs : HostFiles S) (e : EpochState) (st st' : Manager S)
    → confirm_last c fs e st ≡ (ok tt, st')
    → (front : List EpochState) × (st'.epoch_state_list ≡ front ++ e ∷ [])
unfolding confirm_last check modify
confirm_last-list c fs e st st' k =
    let (states, s₁, replaced, k₁) = >>=-eq-ok _ _ st st' tt k in
    let (u, s₂, set, stored) = >>=-eq-ok _ _ s₁ st' tt k₁ in
    let (front, old, _, _, q) =
      replace_last-ok e st.epoch_state_list states (ap (λ x. x.0) replaced) in
    let kept : s₂.epoch_state_list ≡ st'.epoch_state_list =
      unfold store_epoch_state in ap (λ x. x.1.epoch_state_list) stored in
    let put : states ≡ s₂.epoch_state_list = ap (λ x. x.1.epoch_state_list) set in
    (front, sym kept ∙ sym put ∙ q)

module _ {S K Eth : Type 0} (h : Host S K Eth) where
  find_last_epoch-append :
      (front : List EpochState) (e : EpochState) (n : Node S K Eth)
      → n.manager.epoch_state_list ≡ front ++ e ∷ []
      → is_confirmed e ≡ true
      → find_last_epoch h n ≡ ok e
  unfolding find_last_epoch last is_last_unconfirmed
  find_last_epoch-append front e n same c =
      rw (same, get_last-append front e, c, last_where-append true front e c) refl

  -- The confirmation of `e`: the block, the contracts, and the state that is then the last.
  pub record IsPublished (km_block_number : ℕ) (p : InputWorkerParams) (e : EpochState)
      (n n' : Node S K Eth) : Type 0 where
    pub block : ℕ
    pub not_earlier : km_block_number ≤ block
    pub sc_addresses : List (List ℕ)
    pub listed : h.contract.get_all_secret_contract_addresses n'.eth ≡ some sc_addresses
    pub state : EpochState
    pub confirmed : confirm h.enclave.hashing block p sc_addresses e ≡ ok state
    pub found : find_last_epoch h n' ≡ ok state
    pub keeper : n'.keeper ≡ n.keeper

  confirmed_with-ok :
      (block : ℕ) (p : InputWorkerParams) (e e' : EpochState) (o : Option (List (List ℕ)))
      → confirmed_with h block p e o ≡ ok e'
      → (scs : List (List ℕ)) × (o ≡ some scs) × (confirm h.enclave.hashing block p scs e ≡ ok e')
  confirmed_with-ok block p e e' none k = cc
  confirmed_with-ok block p e e' (some scs) k = (scs, refl, k)

  in_manager-ok :
      (action : Run HostError (Manager S) (Unit {0})) (n n' : Node S K Eth)
      → in_manager h action n ≡ (ok tt, n')
      → (action n.manager ≡ (ok tt, n'.manager)) × (n'.eth ≡ n.eth) × (n'.keeper ≡ n.keeper)
  in_manager-ok action n n' k =
      (ap (λ x. (x.0, x.1.manager)) k, sym (ap (λ x. x.1.eth) k), sym (ap (λ x. x.1.keeper) k))

  pub publish-ok :
      (km gas confirmations : ℕ) (p : InputWorkerParams) (e : EpochState) (n n' : Node S K Eth)
      (hash : List ℕ)
      → publish h km p e gas confirmations n ≡ (ok hash, n')
      → IsPublished km p e n n'
  unfolding publish set_workers_params lift check confirm_epoch pure
  publish-ok km gas confirmations p e n n' hash k =
      let (receipt, n₁, sent, k₁) = >>=-eq-ok _ _ n n' hash k in
      let (params, n₂, parsed, k₂) = >>=-eq-ok _ _ n₁ n' hash k₁ in
      let (given, n₃, got, k₃) = >>=-eq-ok _ _ n₂ n' hash k₂ in
      let (block, n₄, later, k₄) = >>=-eq-ok _ _ n₃ n' hash k₃ in
      let (e', n₅, conf, k₅) = >>=-eq-ok _ _ n₄ n' hash k₄ in
      let (u, n₆, kept, k₆) = >>=-eq-ok _ _ n₅ n' hash k₅ in
      let (scs, found, confirmed) = confirmed_with-ok block p e e' _ (ap (λ x. x.0) conf) in
      let (stored, eth, keeper) =
        in_manager-ok (confirm_last h.crates h.host_files e') n₅ n₆ kept in
      let (front, tail) = confirm_last-list h.crates h.host_files e' n₅.manager n₆.manager stored in
      let stay : n₄ ≡ n₅ = ap (λ x. x.1) conf in
      let end : n₆ ≡ n' = ap (λ x. x.1) k₆ in
      let made = confirm-ok h.enclave.hashing block p scs e e' confirmed in
      let is : is_confirmed e' ≡ true = rw made.result refl in
      let same₁ : n₁.keeper ≡ n.keeper = sym (ap (λ x. x.1.keeper) sent) in
      let same₂ : n₁ ≡ n₂ = ap (λ x. x.1) parsed in
      let same₃ : n₂ ≡ n₃ = ap (λ x. x.1) got in
      let same₄ : n₃ ≡ n₄ = ap (λ x. x.1) later in
      let eths : n'.eth ≡ n₄.eth = ap (λ x. x.eth) (sym end) ∙ eth ∙ ap (λ x. x.eth) (sym stay) in
      record {
        block = block;
        not_earlier = not_before-ok km given block (ap (λ x. x.0) later);
        sc_addresses = scs;
        listed = ap h.contract.get_all_secret_contract_addresses eths ∙ found;
        state = e';
        confirmed = confirmed;
        found =
            find_last_epoch-append front e' n'
              (ap (λ x. x.manager.epoch_state_list) (sym end) ∙ tail) is;
        keeper =
            ap (λ x. x.keeper) (sym end)
            ∙ keeper
            ∙ ap (λ x. x.keeper) (sym (same₂ ∙ same₃ ∙ same₄ ∙ stay))
            ∙ same₁;
      }
