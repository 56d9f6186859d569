-- ===== src/Principal/States/Persistence.antt =====
-- The manager as a queue with a stored copy, over its operations and restarts.
use enigma_core.Prelude.{
  ℕ, ◌≤◌, ◌<◌, ◌≡◌, refl, sym, ap, ◌∙◌, subst, Bool-cases, Option-cases, Outcome-cases, inl, inr,
  Bool, true, false, Outcome, some, List, [], ◌∷◌, ◌++◌, length, ltb, if◌then◌else◌, ok, arith,
}
use enigma_core.Exec.{Run, check, modify, ◌>>=◌}
use enigma_core.Principal.{HostError, EpochState}
use enigma_core.Principal.States.{
  HostFiles, ManagerCrates, Manager, is_last_unconfirmed, make_room, replace_last, create_from_path,
  new_manager, store_epoch_state, reset, append_unconfirmed, confirm_last,
}
use enigma_core.Principal.States.Invariant.{IsStates, appended-IsStates, replaced-IsStates}
use enigma_core.Principal.States.Queue.{
  Op, append, confirm_with, clear, meaning, Event, operation, restart, View, succeeds, stored_view,
  next_view, views, append-meaning, confirm-meaning,
}

-- What `std::fs` documents (a file that was removed is not there), and that MessagePack reads what it writes and refuses the empty text.
pub record PersistenceLaws {S : Type 0} (c : ManagerCrates) (fs : HostFiles S) : Type 0 where
  pub read-write :
      (b : List ℕ) (s s' s'' : S)
      → fs.create c.state_path s ≡ some s'
      → fs.write_all c.state_path b s' ≡ some s''
      → (fs.can_open c.state_path s'' ≡ true) × (fs.read_to_end c.state_path s'' ≡ some b)
  pub remove_file-gone :
      (s s' : S) → fs.remove_file c.state_path s ≡ some s' → fs.can_open c.state_path s' ≡ false
  pub create_dir-other :
      (s s' : S)
      → fs.create_dir_all c.dir_path s ≡ some s'
      → (fs.can_open c.state_path s' ≡ fs.can_open c.state_path s)
        × (fs.read_to_end c.state_path s' ≡ fs.read_to_end c.state_path s)
  pub unpack-pack :
      (states : List EpochState) (b : List ℕ) → c.pack states ≡ some b → c.unpack b ≡ some states

module _ {S : Type 0} (c : ManagerCrates) (fs : HostFiles S) where
  abbrev pub apply : Op → Run HostError (Manager S) (Unit {0})
  apply (append e) = append_unconfirmed c fs e
  apply (confirm_with e) = confirm_last c fs e
  apply clear = reset c fs

  -- The view of the state: its list, and the one that a restart would find.
  pub record IsViewed (st : Manager S) (v : View) : Type 0 where
    pub memory : v.memory ≡ st.epoch_state_list
    pub disk : create_from_path c fs st.files ≡ ok v.disk
    pub of_memory : IsStates c.cap v.memory
    pub of_disk : IsStates c.cap v.disk

  abbrev pub is_removable : Manager S → Bool
  is_removable st = succeeds (fs.remove_file c.state_path st.files)

  -- Successful operations, and restarts between them.
  pub data Steps : Manager S → List Event → Manager S → Type 0 where
    here : (st : Manager S) → Steps st [] st
    does :
        {events : List Event} {st₂ : Manager S}
        → (st st₁ : Manager S) (op : Op) → apply op st ≡ (ok tt, st₁)
        → Steps st₁ events st₂
        → Steps st (operation op (is_removable st) ∷ events) st₂
    restarts :
        {events : List Event} {st₂ : Manager S}
        → (st st₁ : Manager S) → new_manager c fs st.files ≡ ok st₁
        → Steps st₁ events st₂
        → Steps st (restart ∷ events) st₂

  store_epoch_state-list :
      (st : Manager S) → (store_epoch_state c fs st).1.epoch_state_list ≡ st.epoch_state_list
  unfolding store_epoch_state
  store_epoch_state-list st = refl

  append_unconfirmed-ok :
      (e : EpochState) (st st' : Manager S)
      → append_unconfirmed c fs e st ≡ (ok tt, st')
      → (room : List EpochState) × (is_last_unconfirmed st.epoch_state_list ≡ false)
        × (make_room c.cap st.epoch_state_list ≡ ok room)
        × (store_epoch_state c fs (record st { epoch_state_list = room ++ e ∷ [] }) ≡ (ok tt, st'))
  unfolding append_unconfirmed check modify ◌>>=◌
  append_unconfirmed-ok e st st' h = elim (Bool-cases (is_last_unconfirmed st.epoch_state_list)) [
    | inl f ↦ absurd (ground arith)
    | inr f ↦ elim (Outcome-cases (make_room c.cap st.epoch_state_list)) [
      | inl (room, g) ↦ (room, f, g, ground arith)
      | inr g ↦ absurd (ground arith)
    ]
  ]

  confirm_last-ok :
      (e : EpochState) (st st' : Manager S)
      → confirm_last c fs e st ≡ (ok tt, st')
      → (states : List EpochState) × (replace_last e st.epoch_state_list ≡ ok states)
        × (store_epoch_state c fs (record st { epoch_state_list = states }) ≡ (ok tt, st'))
  unfolding confirm_last check modify ◌>>=◌
  confirm_last-ok e st st' h = elim (Outcome-cases (replace_last e st.epoch_state_list)) [
    | inl (states, g) ↦ (states, g, ground arith)
    | inr g ↦ absurd (ground arith)
  ]

  reset-store :
      (st st' : Manager S)
      → reset c fs st ≡ (ok tt, st')
      → store_epoch_state c fs (record st { epoch_state_list = [] }) ≡ (ok tt, st')
  unfolding reset modify ◌>>=◌
  reset-store st st' h = h

  module _ (laws : PersistenceLaws c fs) where
    stored-durable :
        (e : EpochState) (states : List EpochState) (st st' : Manager S)
        → st.epoch_state_list ≡ e ∷ states
        → length (e ∷ states) ≤ c.cap
        → store_epoch_state c fs st ≡ (ok tt, st')
        → create_from_path c fs st'.files ≡ ok (e ∷ states)
    unfolding store_epoch_state create_from_path
    stored-durable e states st st' p le h = elim (Option-cases (fs.create c.state_path st.files)) [
      | inl f ↦ absurd (ground arith)
      | inr (s₁, f) ↦ elim (Option-cases (c.pack (e ∷ states))) [
        | inl g ↦ absurd (ground arith)
        | inr (b, g) ↦ elim (Option-cases (fs.write_all c.state_path b s₁)) [
          | inl k ↦ absurd (ground arith)
          | inr (s₂, k) ↦
              let files : st'.files ≡ s₂ = ground arith in
              let (opens, reads) = laws.read-write b st.files s₁ s₂ f k in
              let fits : ltb c.cap (length (e ∷ states)) ≡ false = ground arith in
              rw (files, opens, reads, laws.unpack-pack (e ∷ states) b g, fits) refl
        ]
      ]
    ]

    same_file :
        (files files' : S)
        → fs.can_open c.state_path files' ≡ fs.can_open c.state_path files
        → fs.read_to_end c.state_path files' ≡ fs.read_to_end c.state_path files
        → create_from_path c fs files' ≡ create_from_path c fs files
    unfolding create_from_path
    same_file files files' p q = rw (p, q) refl

    -- The empty list: the file is removed, or left as it was.
    cleared-disk :
        (disk : List EpochState) (files : S)
        → create_from_path c fs files ≡ ok disk
        → create_from_path c fs
            (store_epoch_state c fs (record { epoch_state_list = []; files = files })).1.files
          ≡ ok (if succeeds (fs.remove_file c.state_path files) then [] else disk)
    unfolding store_epoch_state create_from_path
    cleared-disk disk files h = elim (Option-cases (fs.remove_file c.state_path files)) [
      | inl f ↦ rw f h
      | inr (files', f) ↦ rw (f, laws.remove_file-gone files files' f) refl
    ]

    settled :
        (states : List EpochState) (v : View) (st st' : Manager S)
        → IsViewed st v
        → IsStates c.cap states
        → store_epoch_state c fs (record st { epoch_state_list = states }) ≡ (ok tt, st')
        → IsViewed st' (stored_view (is_removable st) v.disk states)
    settled [] v st st' viewed fine h = record {
      memory =
          sym (store_epoch_state-list (record st { epoch_state_list = [] }))
          ∙ ap (λ x. x.1.epoch_state_list) h;
      disk =
          subst
            (λ (x : Outcome HostError (Unit {0}) × Manager S).
              create_from_path c fs x.1.files ≡ ok (if is_removable st then [] else v.disk))
            h (cleared-disk v.disk st.files viewed.disk);
      of_memory = fine;
      of_disk = elim (Bool-cases (is_removable st)) [
        | inl gone ↦ rw gone fine
        | inr left ↦ rw left viewed.of_disk
      ];
    }
    settled (e ∷ states) v st st' viewed fine h = record {
      memory =
          sym (store_epoch_state-list (record st { epoch_state_list = e ∷ states }))
          ∙ ap (λ x. x.1.epoch_state_list) h;
      disk =
          stored-durable e states (record st { epoch_state_list = e ∷ states }) st' refl
            fine.bounded h;
      of_memory = fine;
      of_disk = fine;
    }

    restarted :
        (v : View) (st st₁ : Manager S)
        → new_manager c fs st.files ≡ ok st₁
        → IsViewed st v
        → IsViewed st₁ (record { memory = v.disk; disk = v.disk })
    unfolding new_manager
    restarted v st st₁ h viewed = elim (Bool-cases (fs.exists c.dir_path st.files)) [
      | inl e ↦
          let there : create_from_path c fs st.files ≡ ok v.disk = viewed.disk in
          seen (ground arith) (ground arith)
      | inr e ↦ elim (Option-cases (fs.create_dir_all c.dir_path st.files)) [
        | inl f ↦ absurd (ground arith)
        | inr (files', f) ↦
            let (p, q) = laws.create_dir-other st.files files' f in
            let there : create_from_path c fs files' ≡ ok v.disk =
              same_file st.files files' p q ∙ viewed.disk in
            seen (ground arith) (ground arith)
      ]
    ]
      where
        seen :
            v.disk ≡ st₁.epoch_state_list
            → create_from_path c fs st₁.files ≡ ok v.disk
            → IsViewed st₁ (record { memory = v.disk; disk = v.disk })
        seen m d = record {
          memory = m;
          disk = d;
          of_memory = viewed.of_disk;
          of_disk = viewed.of_disk;
        }

    meant :
        (op : Op) (states : List EpochState) (v : View) (st st₁ : Manager S)
        → IsViewed st v
        → meaning c.cap op st.epoch_state_list ≡ some states
        → IsStates c.cap states
        → store_epoch_state c fs (record st { epoch_state_list = states }) ≡ (ok tt, st₁)
        → (v' : View) × (next_view c.cap (operation op (is_removable st)) v ≡ some v')
          × IsViewed st₁ v'
    meant op states v st st₁ viewed m fine store =
        let m' : meaning c.cap op v.memory ≡ some states =
          ap (meaning c.cap op) viewed.memory ∙ m in
        (
          stored_view (is_removable st) v.disk states,
          rw (m', next_view) refl,
          settled states v st st₁ viewed fine store,
        )

    op-view :
        (op : Op) (v : View) (st st₁ : Manager S)
        → 0 < c.cap
        → IsViewed st v
        → apply op st ≡ (ok tt, st₁)
        → (v' : View) × (next_view c.cap (operation op (is_removable st)) v ≡ some v')
          × IsViewed st₁ v'
    op-view (append e) v st st₁ pos viewed h =
        let (room, last, made, store) = append_unconfirmed-ok e st st₁ h in
        let states = subst (IsStates c.cap) viewed.memory viewed.of_memory in
        let fine = appended-IsStates c.cap e st.epoch_state_list room pos last made states in
        meant (append e) (room ++ e ∷ []) v st st₁ viewed
          (append-meaning c.cap e st.epoch_state_list room pos states.bounded last made) fine store
    op-view (confirm_with e) v st st₁ pos viewed h =
        let (list, made, store) = confirm_last-ok e st st₁ h in
        let states = subst (IsStates c.cap) viewed.memory viewed.of_memory in
        let fine = replaced-IsStates c.cap e st.epoch_state_list list made states in
        meant (confirm_with e) list v st st₁ viewed
          (confirm-meaning c.cap e st.epoch_state_list list made) fine store
    op-view clear v st st₁ pos viewed h =
        meant clear [] v st st₁ viewed refl (record { bounded = omega arith; chain = tt })
          (reset-store st st₁ h)

    -- Suppose that the files and MessagePack keep their laws. The manager is a pair of lists, the one
    -- in memory and the one that a restart finds, over every run of successful operations with
    -- restarts between them: an append adds a state to the first and at the cap drops its oldest, a
    -- confirmation replaces its last state, which is unconfirmed, and both store it as the second; a
    -- reset empties the first, and the second only if the removal of the file succeeds; a restart
    -- takes the second for the first. Both keep to the cap, with all states but the last confirmed.
    -- This is for a cap above 0 and a start from such a pair.
    pub Steps-meaning :
        {st st' : Manager S} {events : List Event} {v : View}
        → 0 < c.cap
        → IsViewed st v
        → Steps st events st'
        → (v' : View) × (views c.cap events v ≡ some v') × IsViewed st' v'
    Steps-meaning {v} pos viewed (here st) = (v, refl, viewed)
    Steps-meaning {v} pos viewed (does st st₁ op h steps) =
        let (v₁, m, viewed₁) = op-view op v st st₁ pos viewed h in
        let (v', rest, viewed') = Steps-meaning pos viewed₁ steps in
        (v', rw (m, views) rest, viewed')
    Steps-meaning {v} pos viewed (restarts st st₁ h steps) =
        Steps-meaning pos (restarted v st st₁ h viewed) steps
