-- ===== src/Tests/Formats.antt =====
-- A coding of messages, and of lists of one key, with its laws.
use enigma_core.Prelude.{
  ℕ, ◌≡◌, refl, Option, none, some, List, [], ◌∷◌, ◌++◌, length, take, drop, take_append,
  drop_append, ◌==◌, if◌then◌else◌,
}
use enigma_core.Messages.{
  AddressedKey, PrincipalMessageType, response, request, encrypted_response, PrincipalMessage,
  Formats,
}
use enigma_core.Messages.RoundTrip.{FormatsLaws}

abbrev pack_message : PrincipalMessage → Option (List ℕ)
pack_message m = elim m.body [
  | response _ ↦ none
  | request ↦ some (0 ∷ 0 ∷ length m.pubkey ∷ m.pubkey ++ m.id)
  | encrypted_response v ↦ some (1 ∷ length v ∷ length m.pubkey ∷ v ++ (m.pubkey ++ m.id))
]

abbrev unpack_message : List ℕ → Option PrincipalMessage
unpack_message [] = none
unpack_message (tag ∷ []) = none
unpack_message (tag ∷ n ∷ []) = none
unpack_message (tag ∷ n ∷ k ∷ rest) =
    let after = drop n rest in
    some (record {
      body = if tag == 0 then request else encrypted_response (take n rest);
      pubkey = take k after;
      id = drop k after;
    })

abbrev pack_one : List AddressedKey → Option (List ℕ)
pack_one [] = none
pack_one ((a, key) ∷ []) = some (length a ∷ a ++ key)
pack_one (_ ∷ _ ∷ _) = none

abbrev unpack_one : List ℕ → Option (List AddressedKey)
unpack_one [] = none
unpack_one (n ∷ rest) = some ((take n rest, drop n rest) ∷ [])

abbrev pub formats : Formats
formats = record {
  pack = pack_message;
  unpack = unpack_message;
  pack_keys = pack_one;
  unpack_keys = unpack_one;
}

unpack-packed :
    (body : PrincipalMessageType) (pubkey id b : List ℕ)
    → pack_message (record { body = body; pubkey = pubkey; id = id }) ≡ some b
    → unpack_message b ≡ some (record { body = body; pubkey = pubkey; id = id })
unpack-packed (response _) pubkey id b h = cc h
unpack-packed request pubkey id b h =
    let made : 0 ∷ 0 ∷ length pubkey ∷ pubkey ++ id ≡ b = cc h in
    rw (← made, take_append pubkey id, drop_append pubkey id) refl
unpack-packed (encrypted_response v) pubkey id b h =
    let made : 1 ∷ length v ∷ length pubkey ∷ v ++ (pubkey ++ id) ≡ b = cc h in
    rw
      (
        ← made,
        take_append v (pubkey ++ id),
        drop_append v (pubkey ++ id),
        take_append pubkey id,
        drop_append pubkey id,
      )
      refl

unpack-packed_one :
    (keys : List AddressedKey) (b : List ℕ) → pack_one keys ≡ some b → unpack_one b ≡ some keys
unpack-packed_one [] b h = cc h
unpack-packed_one ((a, key) ∷ []) b h =
    let made : length a ∷ a ++ key ≡ b = cc h in
    rw (← made, take_append a key, drop_append a key) refl
unpack-packed_one (_ ∷ _ ∷ _) b h = cc h

pub formats_laws : FormatsLaws formats
formats_laws = record {
  unpack-pack = λ m b h. unpack-packed m.body m.pubkey m.id b h;
  unpack_keys-pack_keys = unpack-packed_one;
}
