-- ===== src/StateKeys/Store.antt =====
-- The map from contracts to state keys, `STATE_KEY_STORE` of keys_keeper_t/mod.rs.
use enigma_core.Prelude.{
  ℕ, arith, ◌≡◌, ◌≢◌, refl, Option, none, some, List, [], ◌∷◌, bytes_eq, bytes_eq_refl, bytes_eq-ne,
  bytes_eq_iff, if◌then◌else◌, Bool-cases, inl, inr,
}

abbrev pub KeyMap : Type 0
KeyMap = List (List ℕ × List ℕ)

unfoldable pub get : List ℕ → KeyMap → Option (List ℕ)
get a [] = none
get a ((b, key) ∷ m) = if bytes_eq b a then some key else get a m

unfoldable pub remove : List ℕ → KeyMap → KeyMap
remove a [] = []
remove a ((b, key) ∷ m) = let rest = remove a m in if bytes_eq b a then rest else (b, key) ∷ rest

unfoldable pub insert : List ℕ → List ℕ → KeyMap → KeyMap
unfolding remove
insert a key m = (a, key) ∷ remove a m

get-remove_ne : (a b : List ℕ) (m : KeyMap) → b ≢ a → get a (remove b m) ≡ get a m
unfolding get remove
get-remove_ne a b [] ne = refl
get-remove_ne a b ((x, key) ∷ m) ne = elim (Bool-cases (bytes_eq x b)) [
  | inl e ↦
      let x-is-b = (bytes_eq_iff x b).0 e in
      rw (e, bytes_eq-ne x a (λ h. ne (cc (h, x-is-b)))) (get-remove_ne a b m ne)
  | inr e ↦ rw e (elim (Bool-cases (bytes_eq x a)) [
    | inl h ↦ rw h refl
    | inr h ↦ rw h (get-remove_ne a b m ne)
  ])
]

pub get-insert_self : (a key : List ℕ) (m : KeyMap) → get a (insert a key m) ≡ some key
unfolding get insert
get-insert_self a key m = rw (bytes_eq_refl a) refl

pub get-insert_ne : (a b key : List ℕ) (m : KeyMap) → b ≢ a → get a (insert b key m) ≡ get a m
unfolding get insert
get-insert_ne a b key m ne = rw (bytes_eq-ne b a ne) (get-remove_ne a b m ne)

pub get-remove_self : (a : List ℕ) (m : KeyMap) → get a (remove a m) ≡ none
unfolding get remove
get-remove_self a [] = refl
get-remove_self a ((x, key) ∷ m) = ground (arith, get-remove_self a m)
