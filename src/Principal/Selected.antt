-- ===== src/Principal/Selected.antt =====
-- The mapping of contracts to workers of a confirmed epoch.
use mathlib.Core.List.Memᴰ.{Memᴰ, head, tail}
use enigma_core.Prelude.{
  ℕ, ◌≡◌, ◌⊎◌, ◌↔◌, refl, sym, ap, ◌∙◌, subst, inl, inr, Bool-cases, Outcome-cases, Option, none,
  some, List, [], ◌∷◌, bytes_eq, bytes_eq_iff, bytes_eq_refl, bytes_eq-ne, ok, arith,
}
use enigma_core.Epoch.{InputWorkerParams}
use enigma_core.Epoch.Selection.{Hashing, get_selected_worker}
use enigma_core.StateKeys.Store.{
  KeyMap, get, remove, insert, get-insert_self, get-insert_ne, get-remove_self,
}
use enigma_core.Principal.{
  EpochState, on_host, select_all, confirm, addresses_for, get_contract_addresses,
}

-- Each contract stands once in the map.
abbrev IsDistinct : KeyMap → Type 0
IsDistinct [] = Unit
IsDistinct ((a, key) ∷ m) = (get a m ≡ none) × IsDistinct m

get-remove-none : (a b : List ℕ) (m : KeyMap) → get a m ≡ none → get a (remove b m) ≡ none
unfolding get remove
get-remove-none a b [] h = refl
get-remove-none a b ((x, key) ∷ m) h = ground (arith, get-remove-none a b m)

remove-IsDistinct : (b : List ℕ) (m : KeyMap) → IsDistinct m → IsDistinct (remove b m)
unfolding remove
remove-IsDistinct b [] d = tt
remove-IsDistinct b ((x, key) ∷ m) (out, d) = elim (Bool-cases (bytes_eq x b)) [
  | inl e ↦ rw e (remove-IsDistinct b m d)
  | inr e ↦ rw e (get-remove-none x b m out, remove-IsDistinct b m d)
]

insert-IsDistinct : (a key : List ℕ) (m : KeyMap) → IsDistinct m → IsDistinct (insert a key m)
unfolding insert
insert-IsDistinct a key m d = (get-remove_self a m, remove-IsDistinct a m d)

addresses_for-get :
    (worker a : List ℕ) (m : KeyMap)
    → IsDistinct m
    → Memᴰ a (addresses_for worker m)
    → get a m ≡ some worker
unfolding addresses_for get
addresses_for-get worker a [] d mem = elim mem [ ]
addresses_for-get worker a ((b, key) ∷ m) (out, d) mem = elim (Bool-cases (bytes_eq key worker)) [
  | inl e ↦ here (addresses_for-get worker a m d) ((bytes_eq_iff key worker).0 e) (rw e at mem)
  | inr e ↦ there (addresses_for-get worker a m d (rw e at mem))
]
  where
    there : get a m ≡ some worker → get a ((b, key) ∷ m) ≡ some worker
    there h =
        let ne : ¬ (b ≡ a) = λ p. cc (out, h, ap (λ x. get x m) p) in rw (bytes_eq-ne b a ne) h

    here :
        (Memᴰ a (addresses_for worker m) → get a m ≡ some worker)
        → key ≡ worker
        → Memᴰ a (b ∷ addresses_for worker m)
        → get a ((b, key) ∷ m) ≡ some worker
    here later same (head p) = rw (p, bytes_eq_refl b) (ap some same)
    here later same (tail rest) = there (later rest)

get-addresses_for :
    (worker a : List ℕ) (m : KeyMap) → get a m ≡ some worker → Memᴰ a (addresses_for worker m)
unfolding addresses_for get
get-addresses_for worker a [] h = cc
get-addresses_for worker a ((b, key) ∷ m) h = elim (Bool-cases (bytes_eq b a)) [
  | inl e ↦
      let got : ◌≡◌ {A = Option (List ℕ)} (some key) (some worker) = rw e at h in
      let same : key ≡ worker = cc got in
      rw (same, bytes_eq_refl worker) (head (sym ((bytes_eq_iff b a).0 e)))
  | inr e ↦
      let rest = get-addresses_for worker a m (rw e at h) in
      elim (Bool-cases (bytes_eq key worker)) [ inl f ↦ rw f (tail rest) | inr f ↦ rw f rest ]
]

module _ (h : Hashing) (p : InputWorkerParams) (seed : ℕ) where
  abbrev pub Selects : List ℕ → List ℕ → Type 0
  Selects a worker = get_selected_worker h p a seed ≡ some (ok (some worker))

  on_host-Selects :
      (a : List ℕ) (worker : List ℕ)
      → on_host (get_selected_worker h p a seed) ≡ ok (some worker)
      → Selects a worker
  on_host-Selects a worker e = ground arith

  -- What `select_all` made of a contract: its worker, or what the map had.
  IsMapped : List (List ℕ) → KeyMap → KeyMap → List ℕ → List ℕ → Type 0
  IsMapped scs m m' a worker =
      (Selects a worker → Memᴰ a scs ⊎ (get a m ≡ some worker) → get a m' ≡ some worker)
      × (get a m' ≡ some worker → (Memᴰ a scs × Selects a worker) ⊎ (get a m ≡ some worker))

  IsMapped-nil : (m m' : KeyMap) (a worker : List ℕ) → m ≡ m' → IsMapped [] m m' a worker
  unfolding IsMapped
  IsMapped-nil m m' a worker same = (to, from)
    where
      to : Selects a worker → Memᴰ a [] ⊎ (get a m ≡ some worker) → get a m' ≡ some worker
      to sel (inl t) = elim t [ ]
      to sel (inr g) = subst (λ x. get a x ≡ some worker) same g

      from : get a m' ≡ some worker → (Memᴰ a [] × Selects a worker) ⊎ (get a m ≡ some worker)
      from g = inr (subst (λ x. get a x ≡ some worker) (sym same) g)

  -- One contract with no worker, before the others.
  IsMapped-none :
      (sc : List ℕ) (scs : List (List ℕ)) (m m' : KeyMap) (a worker : List ℕ)
      → on_host (get_selected_worker h p sc seed) ≡ ok none
      → IsMapped scs m m' a worker
      → IsMapped (sc ∷ scs) m m' a worker
  unfolding IsMapped
  IsMapped-none sc scs m m' a worker f (to, from) = (to', from')
    where
      to' : Selects a worker → Memᴰ a (sc ∷ scs) ⊎ (get a m ≡ some worker) → get a m' ≡ some worker
      to' sel (inl (head q)) = absurd (unselected (subst (λ x. Selects x worker) q sel))
        where
          unselected : Selects sc worker → ⊥
          unselected sel = ground arith
      to' sel (inl (tail t)) = to sel (inl t)
      to' sel (inr g) = to sel (inr g)

      from' :
          get a m' ≡ some worker → (Memᴰ a (sc ∷ scs) × Selects a worker) ⊎ (get a m ≡ some worker)
      from' g = elim (from g) [ inl (t, sel) ↦ inl (tail t, sel) | inr old ↦ inr old ]

  -- One contract with a worker, before the others.
  IsMapped-some :
      (sc : List ℕ) (scs : List (List ℕ)) (m m' : KeyMap) (w a worker : List ℕ)
      → on_host (get_selected_worker h p sc seed) ≡ ok (some w)
      → IsMapped scs (insert sc w m) m' a worker
      → IsMapped (sc ∷ scs) m m' a worker
  unfolding IsMapped
  IsMapped-some sc scs m m' w a worker f (to, from) = (to', from')
    where
      selected : Selects sc w
      selected = on_host-Selects sc w f

      same_worker : Selects a worker → sc ≡ a → w ≡ worker
      same_worker sel q = cc (selected, sel, ap (λ x. get_selected_worker h p x seed) q)

      mine : Selects a worker → sc ≡ a → get a (insert sc w m) ≡ some worker
      mine sel q =
          subst (λ x. get x (insert sc w m) ≡ some worker) q
            (get-insert_self sc w m ∙ ap some (same_worker sel q))

      to' : Selects a worker → Memᴰ a (sc ∷ scs) ⊎ (get a m ≡ some worker) → get a m' ≡ some worker
      to' sel (inl (head q)) = to sel (inr (mine sel (sym q)))
      to' sel (inl (tail t)) = to sel (inl t)
      to' sel (inr g) = elim (Bool-cases (bytes_eq sc a)) [
        | inl e ↦ to sel (inr (mine sel ((bytes_eq_iff sc a).0 e)))
        | inr e ↦ to sel (inr (get-insert_ne a sc w m (λ q. cc (e, (bytes_eq_iff sc a).1 q)) ∙ g))
      ]

      from' :
          get a m' ≡ some worker → (Memᴰ a (sc ∷ scs) × Selects a worker) ⊎ (get a m ≡ some worker)
      from' g = elim (from g) [
        | inl (t, sel) ↦ inl (tail t, sel)
        | inr old ↦ elim (Bool-cases (bytes_eq sc a)) [
          | inl e ↦ inl (taken old ((bytes_eq_iff sc a).0 e))
          | inr e ↦ inr (sym (get-insert_ne a sc w m (λ q. cc (e, (bytes_eq_iff sc a).1 q))) ∙ old)
        ]
      ]
        where
          taken :
              get a (insert sc w m) ≡ some worker → sc ≡ a → Memᴰ a (sc ∷ scs) × Selects a worker
          taken old q =
              let got : get sc (insert sc w m) ≡ some worker =
                ap (λ x. get x (insert sc w m)) q ∙ old in
              let same : w ≡ worker = cc (got, get-insert_self sc w m) in
              (head (sym q), subst (λ x. Selects x worker) q (subst (Selects sc) same selected))

  select_all-IsMapped :
      (scs : List (List ℕ)) (m m' : KeyMap)
      → select_all h p seed scs m ≡ ok m'
      → IsDistinct m
      → IsDistinct m' × ((a worker : List ℕ) → IsMapped scs m m' a worker)
  unfolding select_all
  select_all-IsMapped [] m m' e d =
      let same : m ≡ m' = cc e in
      (subst IsDistinct same d, λ a worker. IsMapped-nil m m' a worker same)
  select_all-IsMapped (sc ∷ scs) m m' e d =
      elim (Outcome-cases (on_host (get_selected_worker h p sc seed))) [
        | inl (none, f) ↦
            let (d', mapped) = select_all-IsMapped scs m m' (ground arith) d in
            (d', λ a worker. IsMapped-none sc scs m m' a worker f (mapped a worker))
        | inl (some w, f) ↦
            let (d', mapped) =
              select_all-IsMapped scs (insert sc w m) m' (ground arith)
                (insert-IsDistinct sc w m d) in
            (d', λ a worker. IsMapped-some sc scs m m' w a worker f (mapped a worker))
        | inr f ↦ absurd (ground arith)
      ]

  IsMapped-empty :
      (scs : List (List ℕ)) (m' : KeyMap) (a worker : List ℕ)
      → IsMapped scs [] m' a worker
      → (get a m' ≡ some worker) ↔ (Memᴰ a scs × Selects a worker)
  unfolding IsMapped get
  IsMapped-empty scs m' a worker (to, from) =
      (λ g. elim (from g) [ inl found ↦ found | inr g ↦ absurd (cc g) ], λ (t, sel). to sel (inl t))

-- What a successful `confirm` made.
pub record IsConfirmedBy (h : Hashing) (block : ℕ) (p : InputWorkerParams) (scs : List (List ℕ))
    (e e' : EpochState) : Type 0 where
  pub selected_workers : KeyMap
  pub selected : select_all h p e.seed scs [] ≡ ok selected_workers
  pub result : e' ≡ record e {
    confirmed_state =
        some (record { selected_workers = selected_workers; ether_block_number = block });
  }

pub confirm-ok :
    (h : Hashing) (block : ℕ) (p : InputWorkerParams) (scs : List (List ℕ)) (e e' : EpochState)
    → confirm h block p scs e ≡ ok e'
    → IsConfirmedBy h block p scs e e'
unfolding confirm
confirm-ok h block p scs e e' c = elim (Outcome-cases (select_all h p e.seed scs [])) [
  | inl (m, f) ↦ record { selected_workers = m; selected = f; result = sym (cc (rw f at c)) }
  | inr f ↦ absurd (ground arith)
]

-- After a successful `confirm`, the contracts of a worker are those given contracts for which the
-- epoch's selection, with its seed and the given workers, is that worker; and the block is recorded.
pub get_contract_addresses-confirm :
    (h : Hashing) (block : ℕ) (p : InputWorkerParams) (sc_addresses : List (List ℕ))
    (e e' : EpochState)
    → confirm h block p sc_addresses e ≡ ok e'
    → (worker : List ℕ)
    → (addrs : List (List ℕ)) × (get_contract_addresses worker e' ≡ ok addrs)
      × ((a : List ℕ) → Memᴰ a addrs ↔ (Memᴰ a sc_addresses × Selects h p e.seed a worker))
unfolding confirm get_contract_addresses
get_contract_addresses-confirm h block p scs e e' c worker =
    let g = confirm-ok h block p scs e e' c in
    let (d, mapped) = select_all-IsMapped h p e.seed scs [] g.selected_workers g.selected tt in
    (
      addresses_for worker g.selected_workers,
      rw g.result refl,
      λ a.
          let (to, from) =
            IsMapped-empty h p e.seed scs g.selected_workers a worker (mapped a worker) in
          (
            λ m. to (addresses_for-get worker a g.selected_workers d m),
            λ s. get-addresses_for worker a g.selected_workers (from s),
          ),
    )
