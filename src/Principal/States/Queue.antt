-- ===== src/Principal/States/Queue.antt =====
-- The list of epoch states as a bounded queue, of which a restart finds what was stored.
use enigma_core.Prelude.{
  ℕ, ◌+◌, ◌-◌, ◌≤◌, ◌<◌, ◌≡◌, refl, ap, inl, inr, Bool, true, false, not, Option, none, some, List,
  [], ◌∷◌, ◌++◌, length, take, drop, length-append, if◌then◌else◌, ok, arith,
}
use enigma_core.Principal.{EpochState}
use enigma_core.Principal.States.{is_confirmed, is_last_unconfirmed, make_room, replace_last}
use enigma_core.Principal.States.Invariant.{make_room-ok, replace_last-ok}

-- The operations on the list.
pub data Op : Type 0 where
  append : EpochState → Op
  confirm_with : EpochState → Op
  clear : Op

-- What they mean: a queue of the last `bound` states, whose last may be replaced while it is
-- unconfirmed.
abbrev pub meaning : ℕ → Op → List EpochState → Option (List EpochState)
meaning bound (append e) states =
    if is_last_unconfirmed states
    then none
    else some (drop (length states + 1 - bound) states ++ e ∷ [])
meaning bound (confirm_with e) states =
    if is_last_unconfirmed states then some (take (length states - 1) states ++ e ∷ []) else none
meaning bound clear states = some []

-- What a run consists of: operations, each with whether the file of the states could have been
-- removed at that point, and restarts.
pub data Event : Type 0 where
  operation : Op → Bool → Event
  restart : Event

-- The list in memory, and the one that a restart finds.
pub record View : Type 0 where
  pub memory : List EpochState
  pub disk : List EpochState

abbrev pub succeeds : {S : Type 0} → Option S → Bool
succeeds none = false
succeeds (some _) = true

-- A list that is not empty is stored. Of the empty one nothing is stored: the file is removed, and a
-- removal that fails leaves what was stored before.
abbrev pub stored_view : Bool → List EpochState → List EpochState → View
stored_view removable disk [] = record { memory = []; disk = if removable then [] else disk }
stored_view removable disk (e ∷ states) = record { memory = e ∷ states; disk = e ∷ states }

abbrev pub next_view : ℕ → Event → View → Option View
next_view bound (operation op removable) v = elim (meaning bound op v.memory) [
  | none ↦ none
  | some states ↦ some (stored_view removable v.disk states)
]
next_view bound restart v = some (record { memory = v.disk; disk = v.disk })

abbrev pub views : ℕ → List Event → View → Option View
views bound [] v = some v
views bound (event ∷ events) v = elim (next_view bound event v) [
  | none ↦ none
  | some v' ↦ views bound events v'
]

is_last_unconfirmed-append :
    (front : List EpochState) (e : EpochState)
    → is_last_unconfirmed (front ++ e ∷ []) ≡ not (is_confirmed e)
unfolding is_last_unconfirmed
is_last_unconfirmed-append [] e = refl
is_last_unconfirmed-append (x ∷ []) e = refl
is_last_unconfirmed-append (x ∷ y ∷ front) e = is_last_unconfirmed-append (y ∷ front) e

take-append_last :
    (front : List EpochState) (e : EpochState)
    → take (length (front ++ e ∷ []) - 1) (front ++ e ∷ []) ≡ front
take-append_last front e =
    let len : length (front ++ e ∷ []) - 1 ≡ length front =
      omega (arith, length-append front (e ∷ [])) in
    rw (len) (go front)
  where
    go : (front : List EpochState) → take (length front) (front ++ e ∷ []) ≡ front
    go [] = refl
    go (x ∷ front) = ap (◌∷◌ x) (go front)

-- The checks of the code give the meaning.
pub append-meaning :
    (bound : ℕ) (e : EpochState) (states room : List EpochState)
    → 0 < bound
    → length states ≤ bound
    → is_last_unconfirmed states ≡ false
    → make_room bound states ≡ ok room
    → meaning bound (append e) states ≡ some (room ++ e ∷ [])
append-meaning bound e states room pos le last h = elim (make_room-ok bound states room h) [
  | inl (ne, same) ↦
      let none_dropped : length states + 1 - bound ≡ 0 = omega (arith, ne) in
      rw (last, none_dropped, same) refl
  | inr (full, (x, parts)) ↦
      let one_dropped : length states + 1 - bound ≡ 1 = omega arith in
      rw (last, one_dropped, parts) refl
]

pub confirm-meaning :
    (bound : ℕ) (e : EpochState) (states states' : List EpochState)
    → replace_last e states ≡ ok states'
    → meaning bound (confirm_with e) states ≡ some states'
confirm-meaning bound e states states' h =
    let (front, old, p, q, r) = replace_last-ok e states states' h in
    rw (p, r, is_last_unconfirmed-append front old, q, take-append_last front old) refl
