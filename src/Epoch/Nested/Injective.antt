-- ===== src/Epoch/Nested/Injective.antt =====
-- The image of an epoch that is hashed into its marker and signed determines the epoch, up to the
-- block number, which it leaves out.
use mathlib.Core.List.{append_assoc, append-nil}
use enigma_core.Prelude.{ℕ, ◌*◌, ◌≡◌, ◌↔◌, ◌∙◌, List, [], ◌∷◌, arith, All, length, length-append}
use enigma_core.Crypto.Hash.Framing.{length-frame}
use enigma_core.Epoch.{Epoch, Uint256, Uint256Laws, IsU256, IsH160, IsTyped}
use enigma_core.Epoch.Nested.{hash_encode_u256, hash_encode_h160, encode_for_hashing}
use enigma_core.Epoch.Nested.PrefixFree.{
  hash_encode_h160-IsPrefixFree, hash_encode_u256-IsPrefixFree, encoded, Fits,
  hash_encode_vec-IsPrefixFree,
}

length-encoded :
    {A : Type 0} (enc : A → List ℕ) (P : A → Type 0) (n : ℕ)
    → ((x : A) → P x → length (enc x) ≡ n)
    → (xs : List A) → All P xs
    → length (encoded enc xs) ≡ length xs * n
length-encoded enc P n each [] h = omega arith
length-encoded enc P n each (x ∷ xs) (hx, h) =
    length-append (enc x) (encoded enc xs)
    ∙ omega (arith, each x hx, length-encoded enc P n each xs h)

length-hash_encode_h160 : (a : List ℕ) → IsH160 a → length (hash_encode_h160 a) ≡ 29
unfolding hash_encode_h160
length-hash_encode_h160 a h = omega (arith, length-frame a)

workers-Fits : (e : Epoch) → IsTyped e → Fits hash_encode_h160 IsH160 e.worker_params.workers
workers-Fits e t = (
  t.workers,
  omega (arith, length-encoded hash_encode_h160 IsH160 29 length-hash_encode_h160 _ t.workers),
)

module _ {u : Uint256} (laws : Uint256Laws u) where
  length-hash_encode_u256 : (n : ℕ) → IsU256 n → length (hash_encode_u256 u n) ≡ 41
  unfolding hash_encode_u256
  length-hash_encode_u256 n h =
      omega (arith, length-frame (u.to_big_endian n), laws.length-to_big_endian n)

  stakes-Fits : (e : Epoch) → IsTyped e → Fits (hash_encode_u256 u) IsU256 e.worker_params.stakes
  stakes-Fits e t = (
    t.stakes,
    omega (arith, length-encoded (hash_encode_u256 u) IsU256 41 length-hash_encode_u256 _ t.stakes),
  )

  -- Of two epochs whose fields have their types, the images are equal exactly if the seeds, the
  -- nonces, the workers and the stakes are; the block numbers may differ.
  pub encode_for_hashing_iff :
      (e f : Epoch)
      → IsTyped e
      → IsTyped f
      → (encode_for_hashing u e ≡ encode_for_hashing u f) ↔ (
          (e.seed ≡ f.seed)
          × (e.nonce ≡ f.nonce)
          × (e.worker_params.workers ≡ f.worker_params.workers)
          × (e.worker_params.stakes ≡ f.worker_params.stakes))
  unfolding encode_for_hashing
  encode_for_hashing_iff e f he hf = (there, λ h. cc)
    where
      there :
          encode_for_hashing u e ≡ encode_for_hashing u f
          → (e.seed ≡ f.seed)
            × (e.nonce ≡ f.nonce)
            × (e.worker_params.workers ≡ f.worker_params.workers)
            × (e.worker_params.stakes ≡ f.worker_params.stakes)
      there p =
          let number = hash_encode_u256-IsPrefixFree laws in
          let workers =
            hash_encode_vec-IsPrefixFree hash_encode_h160 hash_encode_h160-IsPrefixFree in
          let stakes = hash_encode_vec-IsPrefixFree (hash_encode_u256 u) number in
          let (s, p₁) = number.split e.seed f.seed _ _ he.seed hf.seed (simp append_assoc at p) in
          let (n, p₂) = number.split e.nonce f.nonce _ _ he.nonce hf.nonce p₁ in
          let (w, p₃) = workers.split _ _ _ _ (workers-Fits e he) (workers-Fits f hf) p₂ in
          let (t, p₄) =
            stakes.split _ _ [] [] (stakes-Fits e he) (stakes-Fits f hf) (simp append-nil p₃) in
          (s, n, w, t)
