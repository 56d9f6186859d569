-- ===== src/Tests/Database.antt =====
-- The database at concrete inputs, with a unary coding of bytes and a database of two functions.
use Prim.Native.String.{String}
use Prim.Native.String as Str
use Prim.Native.Char.{code}
use text.Mathlib.Text.{◌==◌ as str_eq}
use text.Mathlib.TextEquality.{eq_iff}
use text.Mathlib.TextPositions.{eq_refl}
use enigma_core.Prelude.{
  ℕ, zero, suc, ◌+◌, ◌≡◌, refl, ap, ◌∙◌, inl, inr, Bool, Bool-cases, true, false, ◌&&◌, ◌||◌,
  Option, none, some, List, [], ◌∷◌, replicate, bytes_eq, bytes_eq_iff, bytes_eq_refl, ◌==◌, arith,
}
use enigma_core.Database.{Rocks, Hex}
use enigma_core.Database.Key.{delta, DeltaKey}
use enigma_core.Database.Key.RoundTrip.{HexLaws}
use enigma_core.Database.Crud.Laws.{RocksLaws}
use enigma_core.Tests.Paths.{path_of}

abbrev cons_to : ℕ → Option (List ℕ) → Option (List ℕ)
cons_to n none = none
cons_to n (some ns) = some (n ∷ ns)

abbrev decode : ℕ → String → Option (List ℕ)
decode n Str.[] = some []
decode n (Str.◌∷◌ c s) = elim (code c == 46) [
  | true ↦ cons_to n (decode 0 s)
  | false ↦ decode (suc n) s
]

abbrev pub hex : Hex
hex = record { to_hex = path_of; from_hex = decode 0 }

decode-unary :
    (m n : ℕ) (ms : List ℕ) → decode n (path_of (m ∷ ms)) ≡ cons_to (n + m) (decode 0 (path_of ms))
decode-unary zero n ms = ap (λ x. cons_to x (decode 0 (path_of ms))) (omega arith)
decode-unary (suc m) n ms =
    decode-unary m (suc n) ms ∙ ap (λ x. cons_to x (decode 0 (path_of ms))) (omega arith)

pub hex_laws : HexLaws hex
hex_laws = record { from-to = decoded }
  where
    decoded : (b : List ℕ) → decode 0 (path_of b) ≡ some b
    decoded [] = refl
    decoded (n ∷ ns) =
        let sum : 0 + n ≡ n = omega arith in rw (decode-unary n 0 ns, sum, decoded ns) refl

abbrev key : DeltaKey
key = record { contract_address = replicate 32 1; key_type = delta 258 }

-- The families, and the value at a key of a family.
abbrev pub Db : Type 0
Db = (String → Bool) × (String → List ℕ → Option (List ℕ))

abbrev pub family : String → Db → Db
family c db = (λ c'. str_eq c' c || db.0 c', db.1)

abbrev pub choose : Bool → Option (List ℕ) → Option (List ℕ) → Option (List ℕ)
choose true a b = a
choose false a b = b

abbrev pub with : String → List ℕ → Option (List ℕ) → Db → Db
with c k v db = (db.0, λ c' k'. choose (str_eq c' c && bytes_eq k' k) v (db.1 c' k'))

abbrev pub rocks : Rocks Db
rocks = record {
  cf_handle = λ c db. db.0 c;
  create_cf = λ c db. some (family c db);
  drop_cf = λ c db. none;
  get_cf = λ c k db. some (db.1 c k);
  put_cf = λ c k v db. some (with c k (some v) db);
  delete_cf = λ c k db. some (with c k none db);
  prefix_iterator = λ c k db. none;
  range_iterator = λ c k k' db. none;
  write = λ batch db. none;
  list_cf = λ db. none;
}

chosen :
    (c : String) (k : List ℕ) (a b : Option (List ℕ)) → choose (str_eq c c && bytes_eq k k) a b ≡ a
chosen c k a b = rw (eq_refl c, bytes_eq_refl k) refl

not_chosen :
    (c c' : String) (k k' : List ℕ) (a b : Option (List ℕ))
    → ¬ ((c' ≡ c) × (k' ≡ k))
    → choose (str_eq c' c && bytes_eq k' k) a b ≡ b
not_chosen c c' k k' a b ne = elim (Bool-cases (str_eq c' c)) [
  | inr e ↦ rw e refl
  | inl e ↦ elim (Bool-cases (bytes_eq k' k)) [
    | inr f ↦ rw (e, f) refl
    | inl f ↦ absurd (ne ((eq_iff c' c).0 e, (bytes_eq_iff k' k).0 f))
  ]
]

pub rocks_laws : RocksLaws rocks
rocks_laws = record {
  handle-create = λ c db db' h.
      let made : db' ≡ family c db = cc h in ap (λ d. d.0 c) made ∙ rw (eq_refl c) refl;
  create-other = λ c c' k db db' h there.
      let made : db' ≡ family c db = cc h in
      (
        ap (λ d. d.0 c') made ∙ or_true (str_eq c' c) (db.0 c') there,
        ap (λ d. some (d.1 c' k)) made,
      );
  put-handle =
      λ c c' k v db db' h. let made : db' ≡ with c k (some v) db = cc h in ap (λ d. d.0 c') made;
  get-put = λ c k v db db' h.
      let made : db' ≡ with c k (some v) db = cc h in
      ap (λ d. some (d.1 c k)) made ∙ ap some (chosen c k (some v) (db.1 c k));
  get-put_ne = λ c c' k k' v db db' ne h.
      let made : db' ≡ with c k (some v) db = cc h in
      ap (λ d. some (d.1 c' k')) made ∙ ap some (not_chosen c c' k k' (some v) (db.1 c' k') ne);
}
  where
    or_true : (x y : Bool) → y ≡ true → (x || y) ≡ true
    or_true true y e = refl
    or_true false y e = e

abbrev pub name : String
name = path_of (replicate 32 1)
