-- ===== src/Crypto/Errors.antt =====
-- enigma-crypto/src/error.rs. The payloads that only reach a printed message (signatures, keys,
-- status codes of other crates) are left out.
use Prim.Native.String.{String}

pub data CryptoError : Type 0 where
  deriving_key_error : CryptoError
  missing_key_error : String → CryptoError
  decryption_error : CryptoError
  improper_encryption : CryptoError
  encryption_error : CryptoError
  signing_error : CryptoError
  parsing_error : CryptoError
  recovery_error : CryptoError
  key_error : String → CryptoError
  random_error : CryptoError
