-- ===== src/Principal/States/Invariant.antt =====
-- The list of epoch states never exceeds its cap, and only its last state may be unconfirmed.
use enigma_core.Prelude.{
  ℕ, Bool, ◌≤◌, ◌<◌, ◌≡◌, refl, ap, subst, Bool-cases, Outcome-cases, inl, inr, true, false, not,
  List, [], ◌∷◌, ◌++◌, length, length-append, ◌==◌, ==_iff, Outcome, ◌≢◌, ◌⊎◌, ok, arith,
}
use enigma_core.Principal.{HostError, EpochState}
use enigma_core.Principal.States.{
  is_confirmed, is_last_unconfirmed, make_room, shifted, replace_last,
}

abbrev pub IsChain : List EpochState → Type 0
IsChain [] = Unit
IsChain (e ∷ []) = Unit
IsChain (e ∷ next ∷ states) = (is_confirmed e ≡ true) × IsChain (next ∷ states)

pub record IsStates (bound : ℕ) (states : List EpochState) : Type 0 where
  pub bounded : length states ≤ bound
  pub chain : IsChain states

IsChain-append :
    (e : EpochState) (states : List EpochState)
    → is_last_unconfirmed states ≡ false
    → IsChain states
    → IsChain (states ++ e ∷ [])
unfolding is_last_unconfirmed
IsChain-append e [] h chain = tt
IsChain-append e (x ∷ []) h chain = (confirmed (is_confirmed x) h, tt)
  where
    confirmed : (b : Bool) → not b ≡ false → b ≡ true
    confirmed true h = refl
    confirmed false h = cc
IsChain-append e (x ∷ y ∷ states) h (first, chain) = (first, IsChain-append e (y ∷ states) h chain)

IsChain-tail : (x : EpochState) (states : List EpochState) → IsChain (x ∷ states) → IsChain states
IsChain-tail x [] chain = tt
IsChain-tail x (y ∷ states) chain = chain.1

-- The last state of a chain may be any.
IsChain-last :
    (old e : EpochState) (front : List EpochState)
    → IsChain (front ++ old ∷ [])
    → IsChain (front ++ e ∷ [])
IsChain-last old e [] chain = tt
IsChain-last old e (x ∷ []) chain = (chain.0, tt)
IsChain-last old e (x ∷ y ∷ front) chain = (chain.0, IsChain-last old e (y ∷ front) chain.1)

shifted-ok :
    (states states' : List EpochState)
    → shifted states ≡ ok states'
    → (x : EpochState) × (states ≡ x ∷ states')
shifted-ok [] states' h = cc
shifted-ok (x ∷ states) states' h = (x, ap (◌∷◌ x) (cc h))

-- The room for a new state: all states, or all but the first of a full list.
pub make_room-ok :
    (bound : ℕ) (states states' : List EpochState)
    → make_room bound states ≡ ok states'
    → ((length states ≢ bound) × (states' ≡ states))
      ⊎ ((length states ≡ bound) × ((x : EpochState) × (states ≡ x ∷ states')))
make_room-ok bound states states' h = elim (Bool-cases (length states == bound)) [
  | inl full ↦
      let made : shifted states ≡ ok states' = rw full at h in
      inr ((==_iff (length states) bound).0 full, shifted-ok states states' made)
  | inr room ↦
      let made : ◌≡◌ {A = Outcome HostError (List EpochState)} (ok states) (ok states') =
        rw room at h in
      inl (λ e. ground (arith, room, e), cc made)
]

pub replace_last-ok :
    (e : EpochState) (states states' : List EpochState)
    → replace_last e states ≡ ok states'
    → (front : List EpochState) × (old : EpochState) × (states ≡ front ++ old ∷ [])
      × (is_confirmed old ≡ false)
      × (states' ≡ front ++ e ∷ [])
replace_last-ok e [] states' h = cc
replace_last-ok e (old ∷ []) states' h = elim (Bool-cases (is_confirmed old)) [
  | inl f ↦ absurd (ground arith)
  | inr f ↦ ([], old, refl, f, ground arith)
]
replace_last-ok e (old ∷ next ∷ states) states' h =
    elim (Outcome-cases (replace_last e (next ∷ states))) [
      | inl (rest, f) ↦
          let (front, old', p, q, r) = replace_last-ok e (next ∷ states) rest f in
          (old ∷ front, old', ap (◌∷◌ old) p, q, ground arith)
      | inr f ↦ absurd (ground arith)
    ]

pub appended-IsStates :
    (bound : ℕ) (e : EpochState) (states states' : List EpochState)
    → 0 < bound
    → is_last_unconfirmed states ≡ false
    → make_room bound states ≡ ok states'
    → IsStates bound states
    → IsStates bound (states' ++ e ∷ [])
appended-IsStates bound e states states' pos last h s = elim (make_room-ok bound states states' h) [
  | inl (room, same) ↦ record {
    bounded = omega (arith, length-append states' (e ∷ []), s.bounded, ap length same);
    chain = rw same (IsChain-append e states last s.chain);
  }
  | inr (full, (x, parts)) ↦ record {
    bounded = omega (arith, length-append states' (e ∷ []), s.bounded, ap length parts);
    chain =
        IsChain-tail x (states' ++ e ∷ [])
          (subst (λ l. IsChain (l ++ e ∷ [])) parts (IsChain-append e states last s.chain));
  }
]

pub replaced-IsStates :
    (bound : ℕ) (e : EpochState) (states states' : List EpochState)
    → replace_last e states ≡ ok states'
    → IsStates bound states
    → IsStates bound states'
replaced-IsStates bound e states states' h s =
    let (front, old, p, q, r) = replace_last-ok e states states' h in
    record {
      bounded = omega (
        arith,
        s.bounded,
        ap length p,
        ap length r,
        length-append front (old ∷ []),
        length-append front (e ∷ []),
      );
      chain = rw r (IsChain-last old e front (subst IsChain p s.chain));
    }
