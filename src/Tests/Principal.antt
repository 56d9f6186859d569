-- ===== src/Tests/Principal.antt =====
-- The host's list of epoch states at concrete operations, with a restart between them.
use text.Mathlib.Text.{◌==◌ as str_eq}
use mathlib.Core.List.Memᴰ.{}
use enigma_core.Prelude.{
  ℕ, ◌+◌, zero, Option-cases, ◌≡◌, ◌⊎◌, refl, ap, ◌∙◌, inl, inr, Option, none, some, List, [], ◌∷◌,
  arith, if◌then◌else◌, ok, err, true, suc, All,
}
use enigma_core.Exec.{◌>>=◌, modify, check}
use enigma_core.Epoch.{InputWorkerParams}
use enigma_core.StateKeys.Store.{KeyMap}
use enigma_core.Principal.{ConfirmedEpochState, EpochState, epoch_state_transition}
use enigma_core.Principal.States.{
  HostFiles, ManagerCrates, Manager, create_from_path, new_manager, append_unconfirmed,
  confirm_last, reset, is_last_unconfirmed, store_epoch_state, get_confirmed_by_block_number,
}
use enigma_core.Principal.States.Invariant.{IsStates}
use enigma_core.Principal.States.Persistence.{
  PersistenceLaws, IsViewed, here, does, restarts, Steps-meaning,
}
use enigma_core.Principal.States.Queue.{
  append, confirm_with, clear, Event, operation, restart, View, views,
}
use enigma_core.Principal.States.Find.{
  IsLatest, StartsLater, get_confirmed_by_block_number-IsLatest,
}
use enigma_core.Tests.Crates.{Files, files, write_self, write}

-- States without a signature and without selected workers are four numbers each.
abbrev pack_block : Option ConfirmedEpochState → Option ℕ
pack_block none = some 0
pack_block (some c) = elim c.selected_workers [
  | [] ↦ some (suc c.ether_block_number)
  | _ ∷ _ ↦ none
]

abbrev unpack_block : ℕ → Option ConfirmedEpochState
unpack_block zero = none
unpack_block (suc b) = some (record { selected_workers = []; ether_block_number = b })

abbrev pub pack_states : List EpochState → Option (List ℕ)
pack_states [] = some []
pack_states (e ∷ states) = elim e.sig [
  | _ ∷ _ ↦ none
  | [] ↦ elim (pack_block e.confirmed_state) [
    | none ↦ none
    | some b ↦ elim (pack_states states) [
      | none ↦ none
      | some rest ↦ some (e.seed ∷ e.nonce ∷ e.km_block_number ∷ b ∷ rest)
    ]
  ]
]

abbrev pub unpack_states : List ℕ → Option (List EpochState)
unpack_states (seed ∷ nonce ∷ km ∷ b ∷ rest) = elim (unpack_states rest) [
  | none ↦ none
  | some states ↦ some (
      record {
        seed = seed;
        sig = [];
        nonce = nonce;
        km_block_number = km;
        confirmed_state = unpack_block b;
      }
      ∷ states)
]
unpack_states [] = some []
unpack_states _ = none

abbrev pub host_files : HostFiles Files
host_files = record {
  exists = λ p s. true;
  create_dir_all = λ p s. some s;
  can_open = files.is_file;
  read_to_end = λ p s. s p;
  create = files.create;
  write_all = files.write_all;
  remove_file = λ p s. some (λ q. if str_eq p q then none else s q);
}

abbrev pub manager_crates : ManagerCrates
manager_crates = record {
  dir_path = "km";
  state_path = "km/state";
  cap = 2;
  pack = pack_states;
  unpack = unpack_states;
}

abbrev state : ℕ → ℕ → ℕ → List ℕ → Option ConfirmedEpochState → EpochState
state seed nonce km sig o = record {
  seed = seed;
  sig = sig;
  nonce = nonce;
  km_block_number = km;
  confirmed_state = o;
}

unpack-block : (o : Option ConfirmedEpochState) (n : ℕ) → pack_block o ≡ some n → unpack_block n ≡ o
unpack-block none n h = let same : 0 ≡ n = cc h in rw (← same) refl
unpack-block (some c) n h = unpacked c.selected_workers c.ether_block_number h
  where
    unpacked :
        (m : KeyMap) (block : ℕ)
        → pack_block (some (record { selected_workers = m; ether_block_number = block })) ≡ some n
        → unpack_block n ≡ some (record { selected_workers = m; ether_block_number = block })
    unpacked [] block h = let same : suc block ≡ n = cc h in rw (← same) refl
    unpacked (_ ∷ _) block h = cc h

-- A coded state, before the others.
packed :
    (seed nonce km : ℕ) (sig : List ℕ) (o : Option ConfirmedEpochState) (states : List EpochState)
    (b : List ℕ)
    → ((rest : List ℕ) → pack_states states ≡ some rest → unpack_states rest ≡ some states)
    → pack_states (state seed nonce km sig o ∷ states) ≡ some b
    → unpack_states b ≡ some (state seed nonce km sig o ∷ states)
packed seed nonce km (_ ∷ _) o states b later h = cc h
packed seed nonce km [] o states b later h = elim (Option-cases (pack_block o)) [
  | inl f ↦ absurd (ground arith)
  | inr (n, f) ↦ elim (Option-cases (pack_states states)) [
    | inl g ↦ absurd (ground arith)
    | inr (rest, g) ↦
        let made : seed ∷ nonce ∷ km ∷ n ∷ rest ≡ b = ground arith in
        rw (← made, later rest g, unpack-block o n f) refl
  ]
]

unpack-pack :
    (states : List EpochState) (b : List ℕ)
    → pack_states states ≡ some b
    → unpack_states b ≡ some states
unpack-pack [] b h = let same : [] ≡ b = cc h in rw (← same) refl
unpack-pack (e ∷ states) b h =
    packed e.seed e.nonce e.km_block_number e.sig e.confirmed_state states b
      (λ rest k. unpack-pack states rest k) h

persistence_laws : PersistenceLaws manager_crates host_files
persistence_laws = record {
  read-write = λ b s s' s'' h k.
      let made : s'' ≡ write "km/state" b s' = cc k in
      let content : s'' "km/state" ≡ some b =
        ap (λ f. f "km/state") made ∙ write_self "km/state" b s' in
      (rw content refl, content);
  create_dir-other = λ s s' h. let same : s ≡ s' = cc h in rw (← same) (refl, refl);
  remove_file-gone = λ s s' h.
      let made : s' ≡ (λ q. if str_eq "km/state" q then none else s q) = cc h in
      rw (ap (λ f. f "km/state") made) refl;
  unpack-pack = unpack-pack;
}

abbrev waiting : ℕ → EpochState
waiting n = record { seed = 4; sig = []; nonce = n; km_block_number = 7; confirmed_state = none }

abbrev started : ℕ → EpochState
started n = record (waiting n) {
  confirmed_state = some (record { selected_workers = []; ether_block_number = 9 + n });
}

abbrev at : List EpochState → Files → Manager Files
at states s = record { epoch_state_list = states; files = s }

abbrev no_file : Files
no_file p = none

abbrev first : Manager Files
first = at [] no_file

abbrev appended : Manager Files
appended = (append_unconfirmed manager_crates host_files (waiting 0) first).1

abbrev confirmed : Manager Files
confirmed = (confirm_last manager_crates host_files (started 0) appended).1

appends : append_unconfirmed manager_crates host_files (waiting 0) first ≡ (ok tt, appended)
unfolding append_unconfirmed store_epoch_state check modify ◌>>=◌ is_last_unconfirmed
appends = refl

confirms : confirm_last manager_crates host_files (started 0) appended ≡ (ok tt, confirmed)
unfolding append_unconfirmed confirm_last store_epoch_state check modify ◌>>=◌ is_last_unconfirmed
confirms = refl

restarts_with : new_manager manager_crates host_files appended.files ≡ ok appended
unfolding append_unconfirmed new_manager create_from_path store_epoch_state check modify ◌>>=◌
    is_last_unconfirmed
restarts_with = refl

nothing-IsStates : IsStates 2 []
nothing-IsStates = record { bounded = omega arith; chain = tt }

abbrev no_view : View
no_view = record { memory = []; disk = [] }

first-IsViewed : IsViewed manager_crates host_files first no_view
unfolding create_from_path
first-IsViewed = record {
  memory = refl;
  disk = refl;
  of_memory = nothing-IsStates;
  of_disk = nothing-IsStates;
}

abbrev cleared : Manager Files
cleared = (reset manager_crates host_files confirmed).1

clears : reset manager_crates host_files confirmed ≡ (ok tt, cleared)
unfolding reset append_unconfirmed confirm_last store_epoch_state check modify ◌>>=◌
    is_last_unconfirmed
clears = refl

-- An append, a restart, a confirmation and a reset.
abbrev events : List Event
events =
    operation (append (waiting 0)) true
    ∷ restart
    ∷ operation (confirm_with (started 0)) true
    ∷ operation clear true
    ∷ []

Steps-meaning_example :
    (v : View) × (views 2 events no_view ≡ some v) × IsViewed manager_crates host_files cleared v
Steps-meaning_example =
    Steps-meaning manager_crates host_files persistence_laws (omega arith) first-IsViewed (
      does first appended (append (waiting 0)) appends (
        restarts appended appended restarts_with (
          does appended confirmed (confirm_with (started 0)) confirms
            (does confirmed cleared clear clears (here cleared)))))

get_confirmed_by_block_number-IsLatest_example :
    ((e : EpochState) × (get_confirmed_by_block_number 10 (started 0 ∷ started 4 ∷ []) ≡ ok e)
      × IsLatest 10 (started 0 ∷ started 4 ∷ []) e)
    ⊎ ((get_confirmed_by_block_number 10 (started 0 ∷ started 4 ∷ []) ≡ err epoch_state_transition)
        × All (StartsLater 10) (started 0 ∷ started 4 ∷ []))
get_confirmed_by_block_number-IsLatest_example =
    get_confirmed_by_block_number-IsLatest 10 (started 0 ∷ started 4 ∷ [])

abbrev worker : List ℕ
worker = 8 ∷ []

abbrev params : InputWorkerParams
params = record { km_block_number = 7; workers = worker ∷ []; stakes = 1 ∷ [] }

abbrev mapped : EpochState
mapped = record (waiting 0) {
  confirmed_state =
      some (record { selected_workers = (5 ∷ [], worker) ∷ []; ether_block_number = 9 });
}
