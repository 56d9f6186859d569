-- ===== src/Epoch/Cache/Laws.antt =====
-- The cache stays within its capacity, and loses only its lowest nonce.
use enigma_core.Prelude.{
  ℕ, ◌≤◌, ◌<◌, ◌≡◌, ◌≢◌, refl, Option, none, some, [], ◌∷◌, arith, All, Bool-cases, inl, inr,
  length, ltb, ◌==◌, ok,
}
use enigma_core.Epoch.{Epoch}
use enigma_core.Epoch.Cache.{
  EpochMap, get, remove, insert, larger, max_key, min_key, epoch_cap, evict,
}

abbrev pub Distinct : EpochMap → Type 0
Distinct [] = Unit
Distinct ((k, e) ∷ m) = All (λ p. p.0 ≢ k) m × Distinct m

-- At most `epoch_cap` entries, no nonce twice, each epoch under its own nonce.
pub record IsCache (m : EpochMap) : Type 0 where
  pub bounded : length m ≤ epoch_cap
  pub distinct : Distinct m
  pub keyed : All (λ p. p.0 ≡ p.1.nonce) m

-- Some cached nonce is at least `k`.
abbrev pub Reaches : ℕ → EpochMap → Type 0
Reaches k m = (j : ℕ) × (max_key m ≡ some j) × (k ≤ j)

-- What a full or a partly filled cache becomes before an insertion.
pub record IsRoom (m room : EpochMap) : Type 0 where
  pub evicted : evict m ≡ ok room
  pub small : length room < epoch_cap
  pub valid : IsCache room

one_entry : (k : ℕ) (e : Epoch) → k ≡ e.nonce → IsCache ((k, e) ∷ [])
one_entry k e h = record { bounded = omega arith; distinct = (tt, tt); keyed = (h, tt) }

pub evict-IsRoom : (m : EpochMap) → IsCache m → (room : EpochMap) × IsRoom m room
unfolding evict min_key remove
evict-IsRoom [] v = ([], record { evicted = refl; small = omega arith; valid = v })
evict-IsRoom (x ∷ []) v = (x ∷ [], record { evicted = refl; small = omega arith; valid = v })
evict-IsRoom ((a, e) ∷ (b, f) ∷ []) v = elim (Bool-cases (ltb b a)) [
  | inl below ↦ (
    (a, e) ∷ [],
    record {
      evicted = ground arith;
      small = omega arith;
      valid = one_entry a e (omega (arith, v.keyed));
    },
  )
  | inr above ↦ (
    (b, f) ∷ [],
    record {
      evicted = ground arith;
      small = omega arith;
      valid = one_entry b f (omega (arith, v.keyed));
    },
  )
]
evict-IsRoom (x ∷ y ∷ z ∷ m) v = absurd (omega (arith, v.bounded))

-- An insertion into what has room keeps the invariant.
pub insert-IsCache :
    (room : EpochMap) (e : Epoch)
    → length room < epoch_cap
    → IsCache room
    → IsCache (insert e.nonce e room)
unfolding insert remove
insert-IsCache [] e h v = one_entry e.nonce e refl
insert-IsCache ((a, f) ∷ []) e h v = elim (Bool-cases (a == e.nonce)) [
  | inl same ↦ rw same (one_entry e.nonce e refl)
  | inr other ↦ rw other (record {
    bounded = omega arith;
    distinct = (((ground arith), tt), (tt, tt));
    keyed = (refl, v.keyed);
  })
]
insert-IsCache (x ∷ y ∷ m) e h v = absurd (omega arith)

larger_ge : (k : ℕ) (o : Option ℕ) → k ≤ larger k o
larger_ge k none = omega arith
larger_ge k (some j) = ground arith

-- An inserted nonce is reached.
pub insert-Reaches_self :
    (room : EpochMap) (e : Epoch) (k : ℕ) → k ≤ e.nonce → Reaches k (insert e.nonce e room)
unfolding insert max_key
insert-Reaches_self room e k h =
    let o = max_key (remove e.nonce room) in
    (larger e.nonce o, refl, omega (arith, larger_ge e.nonce o))

insert-Reaches_one :
    (a : ℕ) (f e : Epoch) (k : ℕ) → k ≤ a → Reaches k (insert e.nonce e ((a, f) ∷ []))
unfolding insert remove max_key
insert-Reaches_one a f e k h = elim (Bool-cases (a == e.nonce)) [
  | inl same ↦ insert-Reaches_self ((a, f) ∷ []) e k (ground arith)
  | inr other ↦ rw other (larger e.nonce (some a), refl, ground arith)
]

-- The highest cached nonce never falls: not by making room, nor by the insertion after it.
pub insert-Reaches :
    (m room : EpochMap) (e : Epoch) (k : ℕ)
    → IsCache m
    → evict m ≡ ok room
    → Reaches k m
    → Reaches k (insert e.nonce e room)
unfolding evict min_key remove max_key
insert-Reaches [] room e k v r (j, p, q) = absurd (ground arith)
insert-Reaches ((a, f) ∷ []) room e k v r (j, p, q) =
    let same : (a, f) ∷ [] ≡ room = cc r in rw (← same) (insert-Reaches_one a f e k (ground arith))
insert-Reaches ((a, f) ∷ (b, g) ∷ []) room e k v r (j, p, q) = elim (Bool-cases (ltb b a)) [
  | inl below ↦
      let same : (a, f) ∷ [] ≡ room = ground arith in
      rw (← same) (insert-Reaches_one a f e k (ground arith))
  | inr above ↦
      let same : (b, g) ∷ [] ≡ room = ground arith in
      rw (← same) (insert-Reaches_one b g e k (ground arith))
]
insert-Reaches (x ∷ y ∷ z ∷ m) room e k v r h = absurd (omega (arith, v.bounded))

-- An inserted epoch is found under its nonce.
pub get-insert_self : (room : EpochMap) (e : Epoch) → get e.nonce (insert e.nonce e room) ≡ some e
unfolding get insert
get-insert_self room e = ground arith
