-- ===== src/Principal/States/Find.antt =====
-- The epoch of a block is the latest confirmed one that starts by it.
use enigma_core.Prelude.{
  ℕ, ◌≤◌, ◌<◌, ◌≡◌, ◌⊎◌, refl, ap, ◌∙◌, inl, inr, Bool-cases, Option-cases, true, false, leb,
  Option, none, some, List, [], ◌∷◌, ◌++◌, All, ok, err, arith,
}
use enigma_core.Principal.{EpochState, ConfirmedEpochState, epoch_state_transition}
use enigma_core.Principal.States.{
  is_confirmed, get_all_confirmed, last_started, get_confirmed_by_block_number, last_where,
}

abbrev pub Starts : ℕ → EpochState → Type 0
Starts block_number e =
    (c : ConfirmedEpochState) × (e.confirmed_state ≡ some c) × (c.ether_block_number ≤ block_number)

abbrev pub StartsLater : ℕ → EpochState → Type 0
StartsLater block_number e =
    (c : ConfirmedEpochState) → e.confirmed_state ≡ some c → block_number < c.ether_block_number

-- The latest state of a list that starts by a block.
pub record IsLatest (block_number : ℕ) (states : List EpochState) (e : EpochState) : Type 0 where
  pub front : List EpochState
  pub back : List EpochState
  pub parts : states ≡ front ++ e ∷ back
  pub starts : Starts block_number e
  pub later : All (StartsLater block_number) back

abbrev IsSearched : ℕ → Option EpochState → List EpochState → Option EpochState → Type 0
IsSearched block_number r states o =
    ((o ≡ r) × All (StartsLater block_number) states)
    ⊎ ((e : EpochState) × (o ≡ some e) × IsLatest block_number states e)

IsSearched-cons :
    (b : ℕ) (r o : Option EpochState) (e : EpochState) (states : List EpochState)
    → StartsLater b e
    → IsSearched b r states o
    → IsSearched b r (e ∷ states) o
IsSearched-cons b r o e states later (inl (p, all)) = inl (p, (later, all))
IsSearched-cons b r o e states later (inr (x, p, l)) = inr (
  x,
  p,
  record {
    front = e ∷ l.front;
    back = l.back;
    parts = ap (◌∷◌ e) l.parts;
    starts = l.starts;
    later = l.later;
  },
)

IsSearched-found :
    (b : ℕ) (r o : Option EpochState) (e : EpochState) (states : List EpochState)
    → Starts b e
    → IsSearched b (some e) states o
    → IsSearched b r (e ∷ states) o
IsSearched-found b r o e states starts (inl (p, all)) =
    inr (e, p, record { front = []; back = states; parts = refl; starts = starts; later = all })
IsSearched-found b r o e states starts (inr (x, p, l)) = inr (
  x,
  p,
  record {
    front = e ∷ l.front;
    back = l.back;
    parts = ap (◌∷◌ e) l.parts;
    starts = l.starts;
    later = l.later;
  },
)

last_started-IsSearched :
    (b : ℕ) (r : Option EpochState) (states : List EpochState)
    → (o : Option EpochState) × (last_started b r (get_all_confirmed states) ≡ ok o)
      × IsSearched b r states o
unfolding last_started get_all_confirmed
last_started-IsSearched b r [] = (r, refl, inl (refl, tt))
last_started-IsSearched b r (e ∷ states) = elim (Option-cases e.confirmed_state) [
  | inl u ↦
      let (o, run, found) = last_started-IsSearched b r states in
      (o, rw u run, IsSearched-cons b r o e states (λ c h. cc (u, h)) found)
  | inr (c, k) ↦ elim (Bool-cases (leb c.ether_block_number b)) [
    | inl le ↦
        let (o, run, found) = last_started-IsSearched b (some e) states in
        (o, ground (arith, run), IsSearched-found b r o e states (c, k, ground arith) found)
    | inr gt ↦
        let (o, run, found) = last_started-IsSearched b r states in
        (o, ground (arith, run), IsSearched-cons b r o e states (λ c' h. later c c' k h gt) found)
  ]
]
  where
    later :
        (c c' : ConfirmedEpochState)
        → e.confirmed_state ≡ some c
        → e.confirmed_state ≡ some c'
        → leb c.ether_block_number b ≡ false
        → b < c'.ether_block_number
    later c c' k h gt = let same : c ≡ c' = cc (k, h) in rw (← same) (ground arith)

-- The search for the epoch of a block never panics: it gives the latest confirmed state that starts
-- by the block, and if there is none the error of a transition.
pub get_confirmed_by_block_number-IsLatest :
    (block_number : ℕ) (states : List EpochState)
    → ((e : EpochState) × (get_confirmed_by_block_number block_number states ≡ ok e)
        × IsLatest block_number states e)
      ⊎ ((get_confirmed_by_block_number block_number states ≡ err epoch_state_transition)
          × All (StartsLater block_number) states)
unfolding get_confirmed_by_block_number
get_confirmed_by_block_number-IsLatest block_number states =
    let (o, run, found) = last_started-IsSearched block_number none states in
    elim found [
      | inl (p, all) ↦ inr (rw (run, p) refl, all)
      | inr (e, p, l) ↦ inl (e, rw (run, p) refl, l)
    ]

-- The last state without the unconfirmed ones is confirmed.
pub last_where-confirmed :
    (states : List EpochState) (e : EpochState)
    → last_where true states ≡ some e
    → is_confirmed e ≡ true
unfolding last_where
last_where-confirmed [] e f = cc
last_where-confirmed (x ∷ states) e f = elim (Option-cases (last_where true states)) [
  | inl g ↦ ground arith
  | inr (y, g) ↦ last_where-confirmed states e (g ∙ (rw g at f))
]
