-- ===== src/Principal/States.antt =====
-- `EpochStateManager` of epoch_u/epoch_provider.rs: the list of epoch states in memory and in a
-- file. The file system of the host and MessagePack are parameters.
pub mod Invariant
pub mod Queue
pub mod Persistence
pub mod Failing
pub mod Find
use Prim.Native.String.{String}
use mathlib.Core.List.{get_last?}
use enigma_core.Prelude.{
  ℕ, Bool, true, false, not, ◌&&◌, ◌||◌, Option, none, some, List, [], ◌∷◌, ◌++◌, length, ltb, leb,
  ◌==◌, if◌then◌else◌, Outcome, ok, err, panic,
}
use enigma_core.Exec.{Run, pure, lift, check, modify, ◌>>=◌, ◌>>◌}
use enigma_core.Principal.{
  HostError, epoch_state_transition, epoch_state_io, epoch_state_undefined, bail_error, other_error,
  EpochState,
}

-- The calls of `std::fs`; `none` is an I/O error. `create` makes or empties a file, `write_all`
-- writes it, and `read_to_end` reads it whole.
pub record HostFiles (S : Type 0) : Type 0 where
  pub exists : String → S → Bool
  pub create_dir_all : String → S → Option S
  pub can_open : String → S → Bool
  pub read_to_end : String → S → Option (List ℕ)
  pub create : String → S → Option S
  pub write_all : String → List ℕ → S → Option S
  pub remove_file : String → S → Option S

-- The fields that do not change, the coding of lists of states, and the path of their directory.
pub record ManagerCrates : Type 0 where
  pub dir_path : String
  pub state_path : String
  pub cap : ℕ
  pub pack : List EpochState → Option (List ℕ)
  pub unpack : List ℕ → Option (List EpochState)

pub record Manager (S : Type 0) : Type 0 where
  pub epoch_state_list : List EpochState
  pub files : S

abbrev pub is_confirmed : EpochState → Bool
is_confirmed e = elim e.confirmed_state [ none ↦ false | some _ ↦ true ]

abbrev pub unconfirmed_last : Option EpochState → Bool
unconfirmed_last none = false
unconfirmed_last (some e) = not (is_confirmed e)

unfoldable pub is_last_unconfirmed : List EpochState → Bool
is_last_unconfirmed states = unconfirmed_last (get_last? states)

unfoldable pub get_all_confirmed : List EpochState → List EpochState
get_all_confirmed [] = []
get_all_confirmed (e ∷ states) =
    let result = get_all_confirmed states in if is_confirmed e then e ∷ result else result

-- `unwrap` of a confirmed state.
abbrev starts_by : ℕ → EpochState → Outcome HostError Bool
starts_by block_number e = elim e.confirmed_state [
  | none ↦ panic
  | some confirmed ↦ ok (leb confirmed.ether_block_number block_number)
]

-- The loop of `get_confirmed_by_block_number`: the last state that starts by the block.
unfoldable pub last_started :
    ℕ → Option EpochState → List EpochState → Outcome HostError (Option EpochState)
last_started block_number result [] = ok result
last_started block_number result (e ∷ states) = elim (starts_by block_number e) [
  | ok true ↦ last_started block_number (some e) states
  | ok false ↦ last_started block_number result states
  | err x ↦ err x
  | panic ↦ panic
]

abbrev or_transition : Outcome HostError (Option EpochState) → Outcome HostError EpochState
or_transition (ok (some e)) = ok e
or_transition (ok none) = err epoch_state_transition
or_transition (err x) = err x
or_transition panic = panic

unfoldable pub get_confirmed_by_block_number : ℕ → List EpochState → Outcome HostError EpochState
get_confirmed_by_block_number block_number states =
    or_transition (last_started block_number none (get_all_confirmed states))

-- The last state that a search from the end finds.
unfoldable pub last_where : Bool → List EpochState → Option EpochState
last_where exclude_unconfirmed [] = none
last_where exclude_unconfirmed (e ∷ states) = elim (last_where exclude_unconfirmed states) [
  | some found ↦ some found
  | none ↦
      if (exclude_unconfirmed && is_confirmed e) || not exclude_unconfirmed then some e else none
]

abbrev or_undefined : Option EpochState → Outcome HostError EpochState
or_undefined none = err epoch_state_undefined
or_undefined (some e) = ok e

unfoldable pub last : Bool → List EpochState → Outcome HostError EpochState
last exclude_unconfirmed states = or_undefined (last_where exclude_unconfirmed states)

abbrev pub refused_last : List EpochState → Outcome HostError (Unit {0})
refused_last states = if is_last_unconfirmed states then err bail_error else ok tt

-- `remove(0)` of an empty list panics.
abbrev pub shifted : List EpochState → Outcome HostError (List EpochState)
shifted [] = panic
shifted (_ ∷ states) = ok states

abbrev pub make_room : ℕ → List EpochState → Outcome HostError (List EpochState)
make_room cap states = if length states == cap then shifted states else ok states

-- The list with its last state replaced, where that is unconfirmed.
abbrev pub replace_last : EpochState → List EpochState → Outcome HostError (List EpochState)
replace_last e [] = err bail_error
replace_last e (old ∷ []) = if is_confirmed old then err bail_error else ok (e ∷ [])
replace_last e (old ∷ next ∷ states) = elim (replace_last e (next ∷ states)) [
  | ok states' ↦ ok (old ∷ states')
  | err x ↦ err x
  | panic ↦ panic
]

module _ {S : Type 0} (c : ManagerCrates) (fs : HostFiles S) where
  abbrev or_default : Option (List EpochState) → List EpochState
  or_default none = []
  or_default (some states) = states

  abbrev within_cap : List EpochState → Outcome HostError (List EpochState)
  within_cap states = if ltb c.cap (length states) then err epoch_state_io else ok states

  -- `create_from_path`: no file is an empty list, and so is one that does not decode.
  unfoldable pub create_from_path : S → Outcome HostError (List EpochState)
  create_from_path files =
      let found : Outcome HostError (List EpochState) = elim (fs.read_to_end c.state_path files) [
        | none ↦ err other_error
        | some buf ↦ within_cap (or_default (c.unpack buf))
      ] in
      if fs.can_open c.state_path files then found else ok []

  abbrev made_dir : S → Option S
  made_dir files =
      if fs.exists c.dir_path files then some files else fs.create_dir_all c.dir_path files

  -- `EpochStateManager::new`.
  unfoldable pub new_manager : S → Outcome HostError (Manager S)
  new_manager files = elim (made_dir files) [
    | none ↦ err other_error
    | some files' ↦ elim (create_from_path files') [
      | ok states ↦ ok (record { epoch_state_list = states; files = files' })
      | err x ↦ err x
      | panic ↦ panic
    ]
  ]

  -- The file is emptied before the list is coded and written.
  abbrev written : List EpochState → S → Outcome HostError (Unit {0}) × S
  written states files = elim (c.pack states) [
    | none ↦ (err epoch_state_io, files)
    | some buf ↦ elim (fs.write_all c.state_path buf files) [
      | none ↦ (err epoch_state_io, files)
      | some files' ↦ (ok tt, files')
    ]
  ]

  -- A file that cannot be removed is left.
  abbrev removed : S → Option S → S
  removed files none = files
  removed files (some files') = files'

  abbrev stored : List EpochState → S → Outcome HostError (Unit {0}) × S
  stored [] files = (ok tt, removed files (fs.remove_file c.state_path files))
  stored (e ∷ states) files = elim (fs.create c.state_path files) [
    | none ↦ (err epoch_state_io, files)
    | some files' ↦ written (e ∷ states) files'
  ]

  unfoldable pub store_epoch_state : Run HostError (Manager S) (Unit {0})
  store_epoch_state st =
      let (outcome, files) = stored st.epoch_state_list st.files in
      (outcome, record st { files = files })

  -- The assignment to the locked list.
  abbrev pub set_states : List EpochState → Run HostError (Manager S) (Unit {0})
  set_states states = modify (λ st. record st { epoch_state_list = states })

  unfoldable pub reset : Run HostError (Manager S) (Unit {0})
  reset = set_states [] >> store_epoch_state

  unfoldable pub append_unconfirmed : EpochState → Run HostError (Manager S) (Unit {0})
  append_unconfirmed e = do
    check (λ st. refused_last st.epoch_state_list)
    states ← check (λ st. make_room c.cap st.epoch_state_list)
    set_states (states ++ e ∷ [])
    store_epoch_state

  unfoldable pub confirm_last : EpochState → Run HostError (Manager S) (Unit {0})
  confirm_last e = do
    states ← check (λ st. replace_last e st.epoch_state_list)
    set_states states
    store_epoch_state
