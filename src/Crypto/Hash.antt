-- ===== src/Crypto/Hash.antt =====
-- `prepare_hash_multiple` of enigma-crypto/src/hash.rs: each message behind its length.
pub mod Framing
use enigma_core.Prelude.{ℕ, ◌+◌, ◌*◌, List, [], ◌∷◌, ◌++◌, length, to_be_bytes}

-- The sum over `messages` of their lengths.
abbrev pub total_length : List (List ℕ) → ℕ
total_length [] = 0
total_length (msg ∷ msgs) = length msg + total_length msgs

-- The argument of `Vec::with_capacity`.
pub capacity : List (List ℕ) → ℕ
capacity messages = 8 * length messages + total_length messages

-- The loop over `messages`, with the vector `res` that it extends.
extend_all : List ℕ → List (List ℕ) → List ℕ
extend_all res [] = res
extend_all res (msg ∷ msgs) = extend_all (res ++ to_be_bytes 8 (length msg) ++ msg) msgs

unfoldable pub prepare_hash_multiple : List (List ℕ) → List ℕ
unfolding extend_all
prepare_hash_multiple messages = extend_all [] messages
