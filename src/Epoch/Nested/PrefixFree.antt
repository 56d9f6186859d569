-- ===== src/Epoch/Nested/PrefixFree.antt =====
-- The nested encoding is prefix-free at every depth: what begins with an encoded value determines
-- the value and what follows it.
use mathlib.Core.List.{append-nil, append_assoc}
use native.Mathlib.Nat.{add-zero, add_assoc, zero-add}
use enigma_core.Prelude.{
  ℕ, ◌+◌, ◌<◌, ◌≡◌, refl, sym, ap, ap₂, ◌∙◌, List, [], ◌∷◌, ◌++◌, arith, All, length, length-append,
}
use enigma_core.Crypto.Hash.Framing.{frame, frame-injective, IsShort}
use enigma_core.Epoch.{Uint256, Uint256Laws, IsU256, IsH160}
use enigma_core.Epoch.Nested.{
  one, zero_tag, hash_encode_u256, hash_encode_h160, encode_values, hash_encode_vec,
}

-- `enc` is prefix-free on the values that satisfy `P`, and encodes none of them as nothing.
pub record IsPrefixFree {ℓ} {A : Type ℓ} (P : A → Type 0) (enc : A → List ℕ) : Type ℓ where
  pub split :
      (x y : A) (us vs : List ℕ) → P x → P y → enc x ++ us ≡ enc y ++ vs → (x ≡ y) × (us ≡ vs)
  pub ne_nil : (x : A) → 0 < length (enc x)

tagged-injective :
    (t : ℕ) (a b us vs : List ℕ)
    → IsShort a
    → IsShort b
    → (t ∷ frame a) ++ us ≡ (t ∷ frame b) ++ vs
    → (a ≡ b) × (us ≡ vs)
tagged-injective t a b us vs ha hb e = frame-injective a b us vs ha hb (cc e)

-- An encoded 160-bit value is prefix-free.
pub hash_encode_h160-IsPrefixFree : IsPrefixFree IsH160 hash_encode_h160
unfolding hash_encode_h160
hash_encode_h160-IsPrefixFree = record {
  split = λ x y us vs hx hy e. tagged-injective zero_tag x y us vs (omega arith) (omega arith) e;
  ne_nil = λ x. omega arith;
}

module _ {u : Uint256} (laws : Uint256Laws u) where
  -- An encoded 256-bit value is prefix-free.
  pub hash_encode_u256-IsPrefixFree : IsPrefixFree IsU256 (hash_encode_u256 u)
  unfolding hash_encode_u256
  hash_encode_u256-IsPrefixFree = record {
    split = λ x y us vs hx hy e.
        let (p, q) =
          tagged-injective zero_tag (u.to_big_endian x) (u.to_big_endian y) us vs
            (omega (arith, laws.length-to_big_endian x))
            (omega (arith, laws.length-to_big_endian y)) e in
        (sym (laws.from-to x hx) ∙ ap u.from_big_endian p ∙ laws.from-to y hy, q);
    ne_nil = λ x. omega arith;
  }

module _ {ℓ} {A : Type ℓ} (enc : A → List ℕ) where
  -- The encoded values one after the other.
  abbrev pub encoded : List A → List ℕ
  encoded [] = []
  encoded (x ∷ xs) = enc x ++ encoded xs

  encode_values-encoded :
      (n : ℕ) (ms : List ℕ) (xs : List A)
      → encode_values enc n ms xs ≡ (n + length (encoded xs), ms ++ encoded xs)
  unfolding encode_values
  encode_values-encoded n ms [] = simp (append-nil, add-zero)
  encode_values-encoded n ms (x ∷ xs) =
      rw (encode_values-encoded (n + length (enc x)) (ms ++ enc x) xs)
        (simp (length-append, append_assoc, add_assoc))

  -- The loop of the vector encoding puts the length of all encoded values before them.
  pub hash_encode_vec-encoded : (xs : List A) → hash_encode_vec enc xs ≡ one ∷ frame (encoded xs)
  unfolding hash_encode_vec
  hash_encode_vec-encoded xs = rw (encode_values-encoded 0 [] xs, zero-add) refl

  -- Vectors of values in `P` that fit the length field.
  abbrev pub Fits : (A → Type 0) → List A → Type 0
  Fits P xs = All P xs × IsShort (encoded xs)

  module _ {P : A → Type 0} (h : IsPrefixFree P enc) where
    encoded-injective : (xs ys : List A) → All P xs → All P ys → encoded xs ≡ encoded ys → xs ≡ ys
    encoded-injective [] [] hx hy e = refl
    encoded-injective [] (y ∷ ys) hx hy e =
        absurd (omega (arith, ap length e, length-append (enc y) (encoded ys), h.ne_nil y))
    encoded-injective (x ∷ xs) [] hx hy e =
        absurd (omega (arith, ap length e, length-append (enc x) (encoded xs), h.ne_nil x))
    encoded-injective (x ∷ xs) (y ∷ ys) (hx, hxs) (hy, hys) e =
        let (p, q) = h.split x y (encoded xs) (encoded ys) hx hy e in
        ap₂ ◌∷◌ p (encoded-injective xs ys hxs hys q)

    -- A vector of prefix-free values is again encoded prefix-free, so vectors nest to any depth.
    pub hash_encode_vec-IsPrefixFree : IsPrefixFree (Fits P) (hash_encode_vec enc)
    hash_encode_vec-IsPrefixFree = record {
      split = λ xs ys us vs hx hy e.
          let (p, q) = tagged-injective one (encoded xs) (encoded ys) us vs hx.1 hy.1 (
            ap (λ t. t ++ us) (sym (hash_encode_vec-encoded xs))
            ∙ e
            ∙ ap (λ t. t ++ vs) (hash_encode_vec-encoded ys)) in
          (encoded-injective xs ys hx.0 hy.0 p, q);
      ne_nil = λ xs. rw hash_encode_vec-encoded (omega arith);
    }
