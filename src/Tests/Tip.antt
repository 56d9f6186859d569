-- ===== src/Tests/Tip.antt =====
-- The tip of a contract in a database with two deltas.
use text.Mathlib.Text.{◌==◌ as str_eq}
use mathlib.Core.List.Memᴰ.{Memᴰ, head, tail}
use enigma_core.Prelude.{
  ℕ, ◌^◌, ◌<◌, ◌≤◌, ◌≡◌, refl, sym, ap, ap₂, ◌∙◌, ◌⊎◌, subst, inl, inr, Bool, Bool-cases, true,
  false, Option, none, some, List, [], ◌∷◌, replicate, bytes_eq, bytes_eq_iff, ok, arith,
}
use enigma_core.Database.{Rocks}
use enigma_core.Database.Key.{delta, DeltaKey, delta_key}
use enigma_core.Database.Key.Order.{AllBytes, IsAtMost}
use enigma_core.Database.Crud.{read}
use enigma_core.Database.Queries.{Entry, get_tip}
use enigma_core.Database.Queries.Tip.{IsSorted, IteratorLaws, get_tip-greatest}
use enigma_core.Tests.Paths.{path_of}
use enigma_core.Tests.Database.{hex, hex_laws}

abbrev key_3 : List ℕ
key_3 = 1 ∷ 0 ∷ 0 ∷ 0 ∷ 3 ∷ []

abbrev key_258 : List ℕ
key_258 = 1 ∷ 0 ∷ 0 ∷ 1 ∷ 2 ∷ []

abbrev entries : List Entry
entries = (key_3, 5 ∷ []) ∷ (key_258, 6 ∷ []) ∷ []

abbrev pick : Bool → Bool → Option (List ℕ)
pick true b = some (5 ∷ [])
pick false true = some (6 ∷ [])
pick false false = none

abbrev value : List ℕ → Option (List ℕ)
value k = pick (bytes_eq k key_3) (bytes_eq k key_258)

abbrev those : Bool → List Entry
those true = entries
those false = []

-- Its only family is named by the address of the contract.
abbrev two_deltas : Rocks (Unit {0})
two_deltas = record {
  cf_handle = λ c db. str_eq c (path_of (replicate 32 1));
  create_cf = λ c db. none;
  drop_cf = λ c db. none;
  get_cf = λ c k db. some (value k);
  put_cf = λ c k v db. none;
  delete_cf = λ c k db. none;
  prefix_iterator = λ c p db. some (those (bytes_eq p (1 ∷ [])));
  range_iterator = λ c k k' db. none;
  write = λ batch db. none;
  list_cf = λ db. none;
}

entries-IsSorted : IsSorted entries
entries-IsSorted = (first, ((λ f m. elim m [ ]), tt))
  where
    first : (f : Entry) → Memᴰ f ((key_258, 6 ∷ []) ∷ []) → IsAtMost key_3 f.0
    first f (head p) =
        subst (λ x. IsAtMost key_3 x.0) (sym p)
          (inr (refl, inr (refl, inr (refl, inl (omega arith)))))
    first f (tail m) = elim m [ ]

abbrev IsFound : Entry → Type 0
IsFound e =
    AllBytes e.0
    × ((k : List ℕ) × (e.0 ≡ 1 ∷ k))
    × (Path (Option (Option (List ℕ))) (some (value e.0)) (some (some e.1)))

entries-IsFound : (e : Entry) → Memᴰ e entries → IsFound e
entries-IsFound e (head p) = subst IsFound (sym p) (
  (omega arith, (omega arith, (omega arith, (omega arith, (omega arith, tt))))),
  (0 ∷ 0 ∷ 0 ∷ 3 ∷ [], refl),
  refl,
)
entries-IsFound e (tail (head p)) = subst IsFound (sym p) (
  (omega arith, (omega arith, (omega arith, (omega arith, (omega arith, tt))))),
  (0 ∷ 0 ∷ 1 ∷ 2 ∷ [], refl),
  refl,
)
entries-IsFound e (tail (tail m)) = elim m [ ]

picked :
    (a b : Bool) (v : List ℕ)
    → pick a b ≡ some v
    → ((a ≡ true) × (v ≡ 5 ∷ [])) ⊎ ((b ≡ true) × (v ≡ 6 ∷ []))
picked true b v e = inl (refl, cc e)
picked false true v e = inr (refl, cc e)
picked false false v e = cc

entries_complete : (k v : List ℕ) → value k ≡ some v → Memᴰ (k, v) entries
entries_complete k v e = elim (picked (bytes_eq k key_3) (bytes_eq k key_258) v e) [
  | inl (f, g) ↦ head (ap₂ (λ x y. (x, y)) ((bytes_eq_iff k key_3).0 f) g)
  | inr (f, g) ↦ tail (head (ap₂ (λ x y. (x, y)) ((bytes_eq_iff k key_258).0 f) g))
]

iterated :
    (b : ℕ) (es : List Entry)
    → Path (Option (List Entry)) (some (those (bytes_eq (b ∷ []) (1 ∷ [])))) (some es)
    → ((b ≡ 1) × (es ≡ entries)) ⊎ (es ≡ [])
iterated b es h = elim (Bool-cases (bytes_eq (b ∷ []) (1 ∷ []))) [
  | inl f ↦
      let shown : Path (Option (List Entry)) (some entries) (some es) = rw f at h in
      inl (cc ((bytes_eq_iff (b ∷ []) (1 ∷ [])).0 f), cc shown)
  | inr f ↦ let shown : Path (Option (List Entry)) (some []) (some es) = rw f at h in inr (cc shown)
]

two_deltas_laws : IteratorLaws two_deltas
two_deltas_laws = record {
  sorted = λ c b db es h. elim (iterated b es h) [
    | inl (_, p) ↦ subst IsSorted (sym p) entries-IsSorted
    | inr p ↦ subst IsSorted (sym p) tt
  ];
  found = λ c b db es e h m. elim (iterated b es h) [
    | inl (q, p) ↦
        let (all, (k, shape), got) = entries-IsFound e (subst (Memᴰ e) p m) in
        (all, (k, shape ∙ ap (λ x. x ∷ k) (sym q)), got)
    | inr p ↦ elim (subst (Memᴰ e) p m) [ ]
  ];
  complete = λ c b k v db es h got.
      let m = entries_complete (b ∷ k) v (cc got) in
      let (_, (k', shape), _) = entries-IsFound (b ∷ k, v) m in
      let one : b ≡ 1 = cc shape in
      let shown : Path (Option (List Entry)) (some entries) (some es) = rw one at h in
      subst (Memᴰ (b ∷ k, v)) (cc shown) m;
}

abbrev address : List ℕ
address = replicate 32 1

abbrev tip : DeltaKey × List ℕ
tip = (record { contract_address = address; key_type = delta 258 }, 6 ∷ [])

got_tip : get_tip two_deltas hex (delta_key hex) address tt ≡ ok tip
unfolding get_tip enigma_core.Database.Key.delta_from_split enigma_core.Database.Key.hash_from_hex
    enigma_core.Database.Key.key_type_of enigma_core.Prelude.from_be_bytes
    enigma_core.Prelude.from_be_bytes_acc
got_tip = refl

get_tip-greatest_example :
    (n : ℕ) × (tip.0 ≡ record { contract_address = address; key_type = delta n })
    × (read two_deltas (delta_key hex) tip.0 tt ≡ ok tip.1)
    × ((num : ℕ) (v : List ℕ)
        → num < 256 ^ 4
        → read two_deltas
            (delta_key hex)
            (record { contract_address = address; key_type = delta num })
            tt
          ≡ ok v
        → num ≤ n)
get_tip-greatest_example =
    get_tip-greatest two_deltas hex two_deltas_laws hex_laws address tip tt got_tip
