-- ===== src/Exec.antt =====
-- Handlers that change a state and may fail or panic. What was written before a failure stays
-- written, so the state comes back beside every outcome.
use enigma_core.Prelude.{
  ◌≡◌, ◌≢◌, ◌⊎◌, inl, inr, refl, sym, ap, ap₂, subst, Outcome, ok, err, panic,
}
use enigma_core.Errors.{EnclaveError}

abbrev pub Run : Type 0 → Type 0 → Type 0 → Type 0
Run E State R = State → Outcome E R × State

-- The handlers of the enclaves.
abbrev pub Exec : Type 0 → Type 0 → Type 0
Exec = Run EnclaveError

module _ {E State : Type 0} where
  unfoldable pub modify : (State → State) → Run E State (Unit {0})
  modify change st = (ok tt, change st)

  module _ {R : Type 0} where
    unfoldable pub pure : R → Run E State R
    pure r st = (ok r, st)

    -- A result of code that does not see the state.
    unfoldable pub lift : Outcome E R → Run E State R
    lift outcome st = (outcome, st)

    -- A check of the state that may fail and changes nothing.
    unfoldable pub check : (State → Outcome E R) → Run E State R
    check test st = (test st, st)

  module _ {R Q : Type 0} where
    abbrev pub and_next : (R → Run E State Q) → Outcome E R × State → Outcome E Q × State
    and_next next (panic, st) = (panic, st)
    and_next next (err e, st) = (err e, st)
    and_next next (ok r, st) = next r st

    infixl 10 ◌>>=◌ ◌>>◌
    unfoldable pub ◌>>=◌ : Run E State R → (R → Run E State Q) → Run E State Q
    unfolding modify pure lift check
    ◌>>=◌ action next st = and_next next (action st)

    abbrev pub ◌>>◌ : Run E State R → Run E State Q → Run E State Q
    action >> other = action >>= λ _. other

    and_next-ok :
        (next : R → Run E State Q) (p : Outcome E R × State) (st' : State) (q : Q)
        → and_next next p ≡ (ok q, st')
        → (r : R) × (st₁ : State) × (p ≡ (ok r, st₁)) × (next r st₁ ≡ (ok q, st'))
    and_next-ok next (panic, st) st' q h = cc
    and_next-ok next (err e, st) st' q h = cc
    and_next-ok next (ok r, st) st' q h = (r, st, refl, h)

    -- What a successful chain was made of.
    pub >>=-eq-ok :
        (action : Run E State R) (next : R → Run E State Q) (st st' : State) (q : Q)
        → (action >>= next) st ≡ (ok q, st')
        → (r : R) × (st₁ : State) × (action st ≡ (ok r, st₁)) × (next r st₁ ≡ (ok q, st'))
    unfolding ◌>>=◌
    >>=-eq-ok action next st st' q h = and_next-ok next (action st) st' q h

    and_next-after :
        (Q' : State → Type 0) (next : R → Run E State Q) (p : Outcome E R × State)
        → Q' p.1
        → ((r : R) (st₁ : State) → p ≡ (ok r, st₁) → Q' (next r st₁).1)
        → Q' (and_next next p).1
    and_next-after Q' next (panic, st) h k = h
    and_next-after Q' next (err e, st) h k = h
    and_next-after Q' next (ok r, st) h k = k r st refl

    -- What holds after a chain: its first part's state, if that fails, and else the rest's.
    pub chain-after :
        (Q' : State → Type 0) (action : Run E State R) (next : R → Run E State Q) (st : State)
        → Q' (action st).1
        → ((r : R) (st₁ : State) → action st ≡ (ok r, st₁) → Q' (next r st₁).1)
        → Q' ((action >>= next) st).1
    unfolding ◌>>=◌
    chain-after Q' action next st h k = and_next-after Q' next (action st) h k

-- A handler that keeps a property of the state on every outcome.
pub record Keeps {E State R : Type 0} (P : State → Type 0) (action : Run E State R) : Type 0 where
  pub after : (st : State) → P st → P (action st).1

module _ {E State : Type 0} {P : State → Type 0} where
  pub modify-Keeps :
      (change : State → State)
      → ((st : State) → P st → P (change st))
      → Keeps {E = E} P (modify change)
  unfolding modify
  modify-Keeps change keep = record { after = keep }

  module _ {R : Type 0} where
    -- What reads and does not write.
    Keeps-reader : (f : State → Outcome E R) → Keeps {State = State} {R = R} P (λ st. (f st, st))
    Keeps-reader f = record { after = λ st p. p }

    pub check-Keeps : (test : State → Outcome E R) → Keeps P (check test)
    unfolding check
    check-Keeps test = Keeps-reader test

    pub lift-Keeps : (outcome : Outcome E R) → Keeps P (lift outcome)
    unfolding lift
    lift-Keeps outcome = Keeps-reader (λ st. outcome)

    pub pure-Keeps : (r : R) → Keeps {E = E} P (pure r)
    unfolding pure
    pure-Keeps r = Keeps-reader (λ st. ok r)

  module _ {R Q : Type 0} where
    after-and_next :
        (next : R → Run E State Q) (p : Outcome E R × State)
        → ((r : R) → Keeps P (next r))
        → P p.1
        → P (and_next next p).1
    after-and_next next (panic, st) keep h = h
    after-and_next next (err e, st) keep h = h
    after-and_next next (ok r, st) keep h = (keep r).after st h

    pub chain-Keeps :
        (action : Run E State R) (next : R → Run E State Q)
        → Keeps P action
        → ((r : R) → Keeps P (next r))
        → Keeps P (action >>= next)
    unfolding ◌>>=◌
    chain-Keeps action next first keep = record {
      after = λ st h. after-and_next next (action st) keep (first.after st h);
    }

pub ruleset keeps_rules = (pure-Keeps, lift-Keeps, check-Keeps, modify-Keeps, chain-Keeps)

-- A handler that never succeeds from a property of the state, and keeps that.
pub record Refuses {E State R : Type 0} (P : State → Type 0) (action : Run E State R) : Type 0 where
  pub never : (st : State) → P st → (r : R) → (action st).0 ≢ ok r
  pub keeps : (st : State) → P st → P (action st).1

module _ {E State R Q : Type 0} where
  refused-and_next :
      (next : R → Run E State Q) (p : Outcome E R × State)
      → ((r : R) → p.0 ≢ ok r)
      → ((q : Q) → (and_next next p).0 ≢ ok q) × ((and_next next p).1 ≡ p.1)
  refused-and_next next (panic, st) refused = (λ q h. cc h, refl)
  refused-and_next next (err e, st) refused = (λ q h. cc h, refl)
  refused-and_next next (ok r, st) refused = absurd (refused r refl)

module _ {E State R Q : Type 0} {P : State → Type 0} where
  -- A chain is refused when its first part is.
  pub first-Refuses :
      (action : Run E State R) (next : R → Run E State Q)
      → Refuses P action
      → Refuses P (action >>= next)
  unfolding ◌>>=◌
  first-Refuses action next refused = record {
    never = λ st p. (refused-and_next next (action st) (refused.never st p)).0;
    keeps = λ st p.
        subst P (sym (refused-and_next next (action st) (refused.never st p)).1)
          (refused.keeps st p);
  }

  next-and_next :
      (next : R → Run E State Q) (p : Outcome E R × State)
      → P p.1
      → ((r : R) → Refuses P (next r))
      → ((q : Q) → (and_next next p).0 ≢ ok q) × P (and_next next p).1
  next-and_next next (panic, st) h refused = (λ q e. cc e, h)
  next-and_next next (err x, st) h refused = (λ q e. cc e, h)
  next-and_next next (ok r, st) h refused = ((refused r).never st h, (refused r).keeps st h)

  -- And when the rest is, for every result of the first part.
  pub next-Refuses :
      (action : Run E State R) (next : R → Run E State Q)
      → Keeps P action
      → ((r : R) → Refuses P (next r))
      → Refuses P (action >>= next)
  unfolding ◌>>=◌
  next-Refuses action next keep refused = record {
    never = λ st p. (next-and_next next (action st) (keep.after st p) refused).0;
    keeps = λ st p. (next-and_next next (action st) (keep.after st p) refused).1;
  }

module _ {E State R Q : Type 0} where
  and_next-err :
      (next : R → Run E State Q) (p : Outcome E R × State) (st' : State) (e : E)
      → and_next next p ≡ (err e, st')
      → (p ≡ (err e, st'))
        ⊎ ((r : R) × (st₁ : State) × (p ≡ (ok r, st₁)) × (next r st₁ ≡ (err e, st')))
  and_next-err next (panic, st) st' e h = cc
  and_next-err next (err x, st) st' e h =
      inl (ap₂ (λ o s. (o, s)) (ap err (cc h)) (ap (λ p. p.1) h))
  and_next-err next (ok r, st) st' e h = inr (r, st, refl, h)

  -- Where a chain that failed did.
  pub >>=-eq-err :
      (action : Run E State R) (next : R → Run E State Q) (st st' : State) (e : E)
      → (action >>= next) st ≡ (err e, st')
      → (action st ≡ (err e, st'))
        ⊎ ((r : R) × (st₁ : State) × (action st ≡ (ok r, st₁)) × (next r st₁ ≡ (err e, st')))
  unfolding ◌>>=◌
  >>=-eq-err action next st st' e h = and_next-err next (action st) st' e h

module _ {E State R Q : Type 0} where
  -- A chain after a success, and after an error.
  pub >>=_after_ok :
      (action : Run E State R) (next : R → Run E State Q) (st st₁ : State) (r : R)
      → action st ≡ (ok r, st₁)
      → (action >>= next) st ≡ next r st₁
  unfolding ◌>>=◌
  >>=_after_ok action next st st₁ r h = ap (and_next next) h

  pub >>=_after_err :
      (action : Run E State R) (next : R → Run E State Q) (st st₁ : State) (e : E)
      → action st ≡ (err e, st₁)
      → (action >>= next) st ≡ (err e, st₁)
  unfolding ◌>>=◌
  >>=_after_err action next st st₁ e h = ap (and_next next) h
