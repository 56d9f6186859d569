-- ===== src/Task/Runtime/Values.antt =====
-- What a contract writes to its state it reads back.
use enigma_core.Prelude.{
  ℕ, ◌≡◌, ◌≢◌, refl, sym, ap, subst, ◌∙◌, Option, none, some, List, length, Bool-cases,
  Option-cases, inl, inr, false, bytes_eq, bytes_eq_iff, if◌then◌else◌, Outcome, ok, err,
}
use enigma_core.Exec.{
  Keeps, keeps_rules, check-Keeps, lift-Keeps, check, lift, modify, pure, ◌>>=◌, >>=-eq-ok,
}
use enigma_core.Gas as Gas
use enigma_core.Gas.{RuntimeGas, Charged, calculate_gas_for_writing}
use enigma_core.Task.Runtime.{
  WasmError, RuntimeCrates, Runtime, Handler, or_wasmi, expect, as_i32, nth, on_gas,
}
use enigma_core.Task.Runtime.Calls.{
  read_state_key_from_memory, as_key, value_vec, call_write_state, call_read_state_len,
  call_read_state, set_memory,
}

-- The JSON crate's values: what is written at a key is there, and nothing else changes.
pub record ValueLaws {J M : Type 0} (c : RuntimeCrates J M) : Type 0 where
  pub value_of-write_key :
      (k : List ℕ) (v j j' : J) → c.write_key k v j ≡ some j' → c.value_of k j' ≡ v
  pub value_of-write_key_ne :
      (k k' : List ℕ) (v j j' : J)
      → k' ≢ k
      → c.write_key k v j ≡ some j'
      → c.value_of k' j' ≡ c.value_of k' j

or_wasmi-ok : {A : Type 0} (o : Option A) (a : A) → or_wasmi o ≡ ok a → o ≡ some a
or_wasmi-ok none a h = cc
or_wasmi-ok (some b) a h = cc

expect-ok : {A : Type 0} (o : Option A) (a : A) → expect o ≡ ok a → o ≡ some a
expect-ok none a h = cc
expect-ok (some b) a h = cc

differ : (a b : List ℕ) → bytes_eq a b ≡ false → a ≢ b
differ a b e same = cc (e, (bytes_eq_iff a b).1 same)

module _ {J M : Type 0} (c : RuntimeCrates J M) where
  -- The memory and the state are those of `st`.
  abbrev IsSame : Runtime J M → Runtime J M → Type 0
  IsSame st s = (s.memory ≡ st.memory) × (s.post_execution_state ≡ st.post_execution_state)

  on_gas-IsSame :
      {A : Type 0} (st : Runtime J M) (f : RuntimeGas → Charged A)
      → Keeps (IsSame st) (on_gas {J = J} {M = M} f)
  unfolding on_gas
  on_gas-IsSame st f = record { after = λ s h. h }

  key-same :
      (st : Runtime J M) (args : List ℕ) → Keeps (λ s. s ≡ st) (read_state_key_from_memory c args)
  unfolding read_state_key_from_memory
  key-same st args = search (keeps_rules)

  -- What was read of a state.
  checked-ok :
      {A : Type 0} (test : Runtime J M → Outcome WasmError A) (st st' : Runtime J M) (a : A)
      → check test st ≡ (ok a, st')
      → test st ≡ ok a
  unfolding check
  checked-ok test st st' a h = ap (λ x. x.0) h

  -- What follows of the first part of a chain that succeeded.
  following :
      {A B Q : Type 0} {P : Runtime J M → Type 0} {action : Handler J M A}
      {next : A → Handler J M B} {st st' : Runtime J M} {b : B}
      → Keeps P action
      → P st
      → (action >>= next) st ≡ (ok b, st')
      → ((a : A) (s : Runtime J M) → action st ≡ (ok a, s) → P s → next a s ≡ (ok b, st') → Q)
      → Q
  following {P} {action} {next} {st} {st'} {b} keep h e k =
      let (a, s, first, rest) = >>=-eq-ok action next st st' b e in
      k a s first (subst (λ x. P x.1) first (keep.after st h)) rest

  -- The key that is read depends on the memory only.
  key-again :
      (args : List ℕ) (st st' : Runtime J M) (key : List ℕ)
      → st'.memory ≡ st.memory
      → read_state_key_from_memory c args st ≡ (ok key, st)
      → read_state_key_from_memory c args st' ≡ (ok key, st')
  unfolding read_state_key_from_memory lift check pure ◌>>=◌
  key-again args st st' key same h = elim (Option-cases (nth 0 args)) [
    | inl e ↦ absurd (no_key (rw e at h))
    | inr (ptr, e) ↦ elim (Option-cases (nth 1 args)) [
      | inl f ↦ absurd (no_key (rw (e, f) at h))
      | inr (len, f) ↦ elim (Option-cases (c.get ptr len st.memory)) [
        | inl g ↦ absurd (no_key (rw (e, f, g) at h))
        | inr (buf, g) ↦
            let read : c.get ptr len st'.memory ≡ some buf = ap (c.get ptr len) same ∙ g in
            let found : as_key c buf ≡ key = ap key_in (rw (e, f, g) at h) in
            rw (e, f, read, found) refl
      ]
    ]
  ]
    where
      no_key :
          {e : WasmError} {s s' : Runtime J M}
          → ◌≡◌ {A = Outcome WasmError (List ℕ) × Runtime J M} (err e, s) (ok key, s')
          → ⊥
      no_key k = cc

      key_in : Outcome WasmError (List ℕ) × Runtime J M → List ℕ
      key_in (ok k, s) = k
      key_in _ = key

  module _ (laws : ValueLaws c) (args : List ℕ) (st st' : Runtime J M) where
    -- What `write_state` wrote.
    pub record IsWritten : Type 0 where
      pub key : List ℕ
      pub reads : read_state_key_from_memory c args st ≡ (ok key, st)
      pub ptr : ℕ
      pub has_ptr : nth 2 args ≡ some ptr
      pub len : ℕ
      pub has_len : nth 3 args ≡ some len
      pub bytes : List ℕ
      pub loaded : c.get ptr len st.memory ≡ some bytes
      pub value : J
      pub parsed : c.from_slice bytes ≡ some value
      pub json : J
      pub writes : c.write_key key value st.post_execution_state.json ≡ some json
      pub memory : st'.memory ≡ st.memory
      pub replaced : st'.post_execution_state.json ≡ json

    call_write_state-IsWritten : call_write_state c args st ≡ (ok tt, st') → IsWritten
    unfolding call_write_state modify lift
    call_write_state-IsWritten h = following (key-same st args) refl h (λ key s₁ reads back h₁.
        following (lift-Keeps {P = IsSame st} _) (subst (IsSame st) (sym back) (refl, refl)) h₁
          (λ ptr s₂ e₂ i₂ h₂. following (lift-Keeps {P = IsSame st} _) i₂ h₂ (λ len s₃ e₃ i₃ h₃.
            following (check-Keeps {P = IsSame st} _) i₃ h₃ (λ old s₄ _ i₄ h₄.
              following (on_gas-IsSame st (calculate_gas_for_writing len old)) i₄ h₄
                (λ amount s₅ _ i₅ h₅.
                  following (on_gas-IsSame st (Gas.charge_gas amount)) i₅ h₅ (λ u s₆ _ i₆ h₆.
                    following (check-Keeps {P = IsSame st} _) i₆ h₆ (λ bytes s₇ e₇ i₇ h₇.
                      following (lift-Keeps {P = IsSame st} _) i₇ h₇ (λ v s₈ e₈ i₈ h₈.
                        following (check-Keeps {P = IsSame st} _) i₈ h₈ (λ json s₉ e i₉ h₉. record {
                          key = key;
                          reads = reads ∙ ap (λ s. (ok key, s)) back;
                          ptr = ptr;
                          has_ptr = or_wasmi-ok _ ptr (ap (λ x. x.0) e₂);
                          len = len;
                          has_len = or_wasmi-ok _ len (ap (λ x. x.0) e₃);
                          bytes = bytes;
                          loaded =
                              ap (c.get ptr len) (sym i₆.0)
                              ∙ or_wasmi-ok _ bytes (checked-ok _ s₆ s₇ bytes e₇);
                          value = v;
                          parsed = expect-ok _ v (ap (λ x. x.0) e₈);
                          json = json;
                          writes =
                              ap (λ p. c.write_key key v p.json) (sym i₈.1)
                              ∙ expect-ok _ json (checked-ok _ s₈ s₉ json e);
                          memory = ap (λ x. x.1.memory) (sym h₉) ∙ i₉.0;
                          replaced = ap (λ x. x.1.post_execution_state.json) (sym h₉);
                        })))))))))

    -- Suppose that the JSON crate keeps its laws. When `write_state` succeeds, it has read a key and a
    -- JSON value from the memory; with the same arguments `read_state_len` then gives the length of
    -- that value and changes nothing, and `read_state` does what writing the value at the third
    -- argument does to the memory. The value at any other key is what it was.
    pub call_read_state_len-call_write_state :
        (other : List ℕ)
        → call_write_state c args st ≡ (ok tt, st')
        → (w : IsWritten) × (call_read_state_len c args st'
            ≡ (ok (as_i32 (length (c.to_vec w.value))), st'))
          × (call_read_state c args st' ≡ set_memory c w.ptr (c.to_vec w.value) st')
          × (value_vec c other st'
              ≡ (if bytes_eq other w.key then c.to_vec w.value else value_vec c other st))
    unfolding call_read_state_len call_read_state check lift pure ◌>>=◌
    call_read_state_len-call_write_state other h =
        let w : IsWritten = call_write_state-IsWritten h in
        let there : c.value_of w.key st'.post_execution_state.json ≡ w.value =
          ap (c.value_of w.key) w.replaced
          ∙ laws.value_of-write_key w.key w.value _ w.json w.writes in
        let again : read_state_key_from_memory c args st' ≡ (ok w.key, st') =
          key-again args st st' w.key w.memory w.reads in
        let vec : value_vec c w.key st' ≡ c.to_vec w.value = ap c.to_vec there in
        (
          w,
          rw again (ap (λ b. (ok (as_i32 (length b)), st')) vec),
          rw (again, w.has_ptr) (ap (λ b. set_memory c w.ptr b st') vec),
          elim (Bool-cases (bytes_eq other w.key)) [
            | inl e ↦ rw e (ap (λ k. value_vec c k st') ((bytes_eq_iff other w.key).0 e) ∙ vec)
            | inr e ↦ rw e (
                ap (λ j. c.to_vec (c.value_of other j)) w.replaced
                ∙ ap c.to_vec (
                    laws.value_of-write_key_ne w.key other w.value _ w.json
                      (λ same. differ other w.key e same) w.writes))
          ],
        )
