-- ===== src/Database/Queries/Tip.antt =====
-- The tip of a contract is its delta of the greatest index.
use Prim.Native.String.{String}
use mathlib.Core.List.{get_last?}
use mathlib.Core.List.Memᴰ.{Memᴰ, head, tail}
use enigma_core.Prelude.{
  ℕ, ◌^◌, ◌<◌, ◌≤◌, ◌≡◌, ◌⊎◌, refl, ap, inl, inr, Bool-cases, true, false, some, none, List, ok,
  err, [], ◌∷◌, arith, length, to_be_bytes, from_be_bytes, >>=-eq-ok, ◌==◌,
  from_be_bytes-to_be_bytes, length-to_be_bytes, sym, ◌∙◌, subst, ==_iff, Bool, Outcome, Option,
  if◌then◌else◌,
}
use enigma_core.Database.{DbError, Rocks, Hex, or_rocks, or_missing, hex_error}
use enigma_core.Database.Key.{
  Stype, delta, DeltaKey, delta_key, type_key, key_type_of, delta_from_split, delta_as_split,
  hash_from_hex,
}
use enigma_core.Database.Key.Order.{
  AllBytes, IsAtMost, from_be_bytes_le, to_be_bytes-from_be_bytes_4,
}
use enigma_core.Database.Key.RoundTrip.{HexLaws}
use enigma_core.Database.Crud.{read}
use enigma_core.Database.Crud.Laws.{read-ok}
use enigma_core.Database.Queries.{Entry, get_tip, delta_prefix}

-- Each entry is at most every later one.
abbrev pub IsSorted : List Entry → Type 0
IsSorted [] = Unit
IsSorted (e ∷ es) = ((f : Entry) → Memᴰ f es → IsAtMost e.0 f.0) × IsSorted es

-- What RocksDB documents of the iterator over the keys with a first byte: it gives, in order, the
-- entries of the family with that first byte.
pub record IteratorLaws {D : Type 0} (r : Rocks D) : Type 0 where
  pub sorted :
      (c : String) (b : ℕ) (db : D) (es : List Entry)
      → r.prefix_iterator c (b ∷ []) db ≡ some es
      → IsSorted es
  pub found :
      (c : String) (b : ℕ) (db : D) (es : List Entry) (e : Entry)
      → r.prefix_iterator c (b ∷ []) db ≡ some es
      → Memᴰ e es
      → AllBytes e.0 × ((k : List ℕ) × (e.0 ≡ b ∷ k)) × (r.get_cf c e.0 db ≡ some (some e.1))
  pub complete :
      (c : String) (b : ℕ) (k v : List ℕ) (db : D) (es : List Entry)
      → r.prefix_iterator c (b ∷ []) db ≡ some es
      → r.get_cf c (b ∷ k) db ≡ some (some v)
      → Memᴰ (b ∷ k, v) es

last-Mem : (es : List Entry) (l : Entry) → get_last? es ≡ some l → Memᴰ l es
last-Mem [] l e = cc
last-Mem (x ∷ []) l e = head (cc e)
last-Mem (x ∷ y ∷ es) l e = tail (last-Mem (y ∷ es) l e)

-- An entry of a sorted list is the last one or at most the last one.
last-greatest :
    (es : List Entry) (l e : Entry)
    → IsSorted es
    → get_last? es ≡ some l
    → Memᴰ e es
    → (e ≡ l) ⊎ IsAtMost e.0 l.0
last-greatest [] l e s g m = cc
last-greatest (x ∷ []) l e s g (head p) = inl (cc (p, g))
last-greatest (x ∷ []) l e s g (tail m) = elim m [ ]
last-greatest (x ∷ y ∷ es) l e (s, _) g (head p) = inr (rw p (s l (last-Mem (y ∷ es) l g)))
last-greatest (x ∷ y ∷ es) l e (_, s) g (tail m) = last-greatest (y ∷ es) l e s g m

-- A key with the first byte of deltas is read as a delta, or not at all.
key_type_of_delta :
    (rest : List ℕ) (t : Stype)
    → key_type_of (1 ∷ rest) ≡ ok t
    → (length rest ≡ 4) × (t ≡ delta (from_be_bytes rest))
unfolding key_type_of
key_type_of_delta rest t h = elim (Bool-cases (length rest == 4)) [
  | inl e ↦ ((==_iff (length rest) 4).0 e, ground arith)
  | inr e ↦ absurd (ground arith)
]

guarded :
    {A : Type 0} (b : Bool) (x : Outcome DbError A) (e : DbError) (a : A)
    → (if b then x else err e) ≡ ok a
    → (b ≡ true) × (x ≡ ok a)
guarded true x e a h = (refl, h)
guarded false x e a h = cc

or_rocks-ok : {A : Type 0} (o : Option A) (a : A) → or_rocks o ≡ ok a → o ≡ some a
or_rocks-ok none a h = cc
or_rocks-ok (some b) a h = cc h

or_missing-ok :
    {A : Type 0} (command hash : String) (o : Option A) (a : A)
    → or_missing command hash o ≡ ok a
    → o ≡ some a
or_missing-ok command hash none a h = cc
or_missing-ok command hash (some b) a h = cc h

module _ {D : Type 0} (r : Rocks D) (h : Hex) (laws : IteratorLaws r) (codes : HexLaws h) where
  hash_from_hex-to_hex :
      (address a : List ℕ) → hash_from_hex h (h.to_hex address) ≡ ok a → a ≡ address
  unfolding hash_from_hex
  hash_from_hex-to_hex address a e =
      let decoded : (if length address == 32 then ok address else err hex_error) ≡ ok a =
        rw (codes.from-to address) at e in
      cc (guarded (length address == 32) (ok address) hex_error a decoded).1

  -- A key of a delta that is read from an index gives back that index.
  delta_from_split_delta :
      (address : List ℕ) (rest : List ℕ) (key : DeltaKey)
      → AllBytes rest
      → delta_from_split h (h.to_hex address) (1 ∷ rest) ≡ ok key
      → (key ≡ record { contract_address = address; key_type = delta (from_be_bytes rest) })
        × (length rest ≡ 4)
  unfolding delta_from_split
  delta_from_split_delta address rest key all e =
      let (t, et, e₁) = >>=-eq-ok (key_type_of (1 ∷ rest)) _ e in
      let (a, ea, e₂) = >>=-eq-ok (hash_from_hex h (h.to_hex address)) _ e₁ in
      let (len, same) = key_type_of_delta rest t et in
      let there = hash_from_hex-to_hex address a ea in
      let made : ok (record { contract_address = a; key_type = t }) ≡ ok key = e₂ in
      (cc (made, same, there), len)

  read-entry :
      (address rest v : List ℕ) (db : D)
      → r.cf_handle (h.to_hex address) db ≡ true
      → AllBytes rest
      → length rest ≡ 4
      → r.get_cf (h.to_hex address) (1 ∷ rest) db ≡ some (some v)
      → read r
          (delta_key h)
          (record { contract_address = address; key_type = delta (from_be_bytes rest) })
          db
        ≡ ok v
  unfolding read delta_as_split type_key
  read-entry address rest v db handle all len got =
      rw (to_be_bytes-from_be_bytes_4 rest all len, handle, got) refl

  entry-read :
      (address : List ℕ) (num : ℕ) (v : List ℕ) (db : D)
      → read r (delta_key h) (record { contract_address = address; key_type = delta num }) db ≡ ok v
      → r.get_cf (h.to_hex address) (1 ∷ to_be_bytes 4 num) db ≡ some (some v)
  unfolding delta_as_split type_key
  entry-read address num v db e =
      (read-ok r (delta_key h) (record { contract_address = address; key_type = delta num }) db v
        e).1

  at_most-last :
      (address k v : List ℕ) (num : ℕ) (es : List Entry) (last : Entry) (db : D)
      → r.prefix_iterator (h.to_hex address) delta_prefix db ≡ some es
      → get_last? es ≡ some last
      → last.0 ≡ 1 ∷ k
      → length k ≡ 4
      → num < 256 ^ 4
      → r.get_cf (h.to_hex address) (1 ∷ to_be_bytes 4 num) db ≡ some (some v)
      → num ≤ from_be_bytes k
  at_most-last address k v num es last db iterated is_last shape len small got =
      let m = laws.complete (h.to_hex address) 1 (to_be_bytes 4 num) v db es iterated got in
      let all = (laws.found (h.to_hex address) 1 db es (1 ∷ to_be_bytes 4 num, v) iterated m).0 in
      let coded = from_be_bytes-to_be_bytes 4 num small in
      elim (last-greatest es last (1 ∷ to_be_bytes 4 num, v)
        (laws.sorted (h.to_hex address) 1 db es iterated) is_last m) [
          | inl e ↦
              let same : to_be_bytes 4 num ≡ k = cc (ap (λ x. x.0) e, shape) in
              omega (arith, coded, ap from_be_bytes same)
          | inr le ↦ elim (subst (IsAtMost (1 ∷ to_be_bytes 4 num)) shape le) [
            | inl lt ↦ absurd (omega (arith, lt))
            | inr (_, below) ↦
                let sized : length (to_be_bytes 4 num) ≡ length k =
                  cc (length-to_be_bytes 4 num, len) in
                omega (arith, coded, from_be_bytes_le (to_be_bytes 4 num) k all.1 sized below)
          ]
        ]

  -- The tip of a contract is a delta of that contract, it is read at its key, and every delta of the
  -- contract that is read has an index that is at most the tip's.
  pub get_tip-greatest :
      (address : List ℕ) (tip : DeltaKey × List ℕ) (db : D)
      → get_tip r h (delta_key h) address db ≡ ok tip
      → (n : ℕ) × (tip.0 ≡ record { contract_address = address; key_type = delta n })
        × (read r (delta_key h) tip.0 db ≡ ok tip.1)
        × ((num : ℕ) (v : List ℕ)
            → num < 256 ^ 4
            → read r (delta_key h) (record { contract_address = address; key_type = delta num }) db
              ≡ ok v
            → num ≤ n)
  unfolding get_tip
  get_tip-greatest address tip db e =
      let (handle, e₁) = guarded (r.cf_handle (h.to_hex address) db) _ _ tip e in
      let (es, ees, e₂) =
        >>=-eq-ok (or_rocks (r.prefix_iterator (h.to_hex address) delta_prefix db)) _ e₁ in
      let (last, el, e₃) =
        >>=-eq-ok (or_missing "get_tip" (h.to_hex address) (get_last? es)) _ e₂ in
      let (key, ek, e₄) = >>=-eq-ok (delta_from_split h (h.to_hex address) last.0) _ e₃ in
      let iterated = or_rocks-ok _ es ees in
      let is_last = or_missing-ok "get_tip" (h.to_hex address) (get_last? es) last el in
      let (all, (k, shape), got) =
        laws.found (h.to_hex address) 1 db es last iterated (last-Mem es last is_last) in
      let all_k : AllBytes k = (subst AllBytes shape all).1 in
      let (made, len) =
        delta_from_split_delta address k key all_k
          (subst (λ x. delta_from_split h (h.to_hex address) x ≡ ok key) shape ek) in
      let is_tip : (key, last.1) ≡ tip = cc e₄ in
      let key_is : tip.0
          ≡ record { contract_address = address; key_type = delta (from_be_bytes k) } =
        sym (ap (λ x. x.0) is_tip) ∙ made in
      let value_is : tip.1 ≡ last.1 = sym (ap (λ x. x.1) is_tip) in
      let entry =
        read-entry address k last.1 db handle all_k len
          (subst (λ x. r.get_cf (h.to_hex address) x db ≡ some (some last.1)) shape got) in
      (
        from_be_bytes k,
        key_is,
        ap (λ x. read r (delta_key h) x db) key_is ∙ entry ∙ ap ok (sym value_is),
        λ num v small found.
            at_most-last address k v num es last db iterated is_last shape len small
              (entry-read address num v db found),
      )
