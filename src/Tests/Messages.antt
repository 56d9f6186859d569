-- ===== src/Tests/Messages.antt =====
-- Messages at concrete inputs, with a coding of messages and of single keys.
use enigma_core.Prelude.{
  ℕ, ◌≡◌, ◌≢◌, refl, ap, ap₂, ◌∙◌, sym, inl, inr, Option, none, some, List, [], ◌∷◌, ◌++◌, arith,
  length, replicate, take, drop, take_append, drop_append, ok, true, false, ◌⊎◌,
}
use enigma_core.Messages.{
  AddressedKey, encrypted_response, PrincipalMessage, to_sign, into_message, from_message,
}
use enigma_core.Messages.Signing.{IsMessage, to_sign-injective}
use enigma_core.Tests.Formats.{formats}

abbrev message : PrincipalMessage
message = record {
  body = encrypted_response (1 ∷ 2 ∷ []);
  pubkey = replicate 64 3;
  id = replicate 12 4;
}

message-IsMessage : IsMessage message
message-IsMessage = record { pubkey = refl; id = refl; body = omega arith }

abbrev image : List ℕ
image =
    0 ∷ 0 ∷ 0 ∷ 0 ∷ 0 ∷ 0 ∷ 0 ∷ 2 ∷ 1 ∷ 2 ∷ 0 ∷ 0 ∷ 0 ∷ 0 ∷ 0 ∷ 0 ∷ 0 ∷ 64 ∷ replicate 64 3
    ++ 0 ∷ 0 ∷ 0 ∷ 0 ∷ 0 ∷ 0 ∷ 0 ∷ 12 ∷ replicate 12 4

signed_image : to_sign message ≡ ok image
unfolding to_sign enigma_core.Crypto.Hash.prepare_hash_multiple enigma_core.Prelude.to_be_bytes
signed_image = refl

to_sign-injective_example : message ≡ message
to_sign-injective_example =
    to_sign-injective message message image message-IsMessage message-IsMessage signed_image
      signed_image

abbrev packed : List ℕ
packed = 1 ∷ 2 ∷ 64 ∷ 1 ∷ 2 ∷ replicate 64 3 ++ replicate 12 4

sent : into_message formats message ≡ ok packed
unfolding into_message
sent = refl

received : from_message formats packed ≡ ok message
unfolding from_message
received = refl

abbrev keys : List AddressedKey
keys = (5 ∷ [], 6 ∷ 7 ∷ []) ∷ []
