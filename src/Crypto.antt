-- ===== src/Crypto.antt =====
-- The enigma-crypto crate: the errors, the framing of hashed messages, and AES-GCM with its nonce.
pub mod Errors
pub mod Hash
pub mod Symmetric
