-- ===== src/Principal/States/Failing.antt =====
-- The invariant on every outcome: an operation that fails may leave its change in memory.
use enigma_core.Prelude.{◌<◌, inl, inr, Bool-cases, Outcome-cases, arith}
use enigma_core.Exec.{check, modify, ◌>>=◌}
use enigma_core.Principal.States.{
  HostFiles, ManagerCrates, Manager, is_last_unconfirmed, make_room, replace_last,
  store_epoch_state, reset, append_unconfirmed, confirm_last,
}
use enigma_core.Principal.States.Invariant.{IsStates, appended-IsStates, replaced-IsStates}
use enigma_core.Principal.States.Queue.{Op, append, confirm_with, clear}
use enigma_core.Principal.States.Persistence.{apply}

module _ {S : Type 0} (c : ManagerCrates) (fs : HostFiles S) where
  -- Appending, confirming and emptying keep the list within a positive cap with all states but the
  -- last confirmed, whether the operation succeeds, fails or panics.
  pub apply-IsStates :
      (op : Op) (st : Manager S)
      → 0 < c.cap
      → IsStates c.cap st.epoch_state_list
      → IsStates c.cap (apply c fs op st).1.epoch_state_list
  unfolding append_unconfirmed confirm_last reset store_epoch_state check modify ◌>>=◌
  apply-IsStates (append e) st pos s = elim (Bool-cases (is_last_unconfirmed st.epoch_state_list)) [
    | inl f ↦ rw f s
    | inr f ↦ elim (Outcome-cases (make_room c.cap st.epoch_state_list)) [
      | inl (room, g) ↦ rw (f, g) (appended-IsStates c.cap e st.epoch_state_list room pos f g s)
      | inr (inl (x, g)) ↦ rw (f, g) s
      | inr (inr g) ↦ rw (f, g) s
    ]
  ]
  apply-IsStates (confirm_with e) st pos s =
      elim (Outcome-cases (replace_last e st.epoch_state_list)) [
        | inl (states, g) ↦ rw g (replaced-IsStates c.cap e st.epoch_state_list states g s)
        | inr (inl (x, g)) ↦ rw g s
        | inr (inr g) ↦ rw g s
      ]
  apply-IsStates clear st pos s = record { bounded = omega arith; chain = tt }
