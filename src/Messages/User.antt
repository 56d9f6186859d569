-- ===== src/Messages/User.antt =====
-- `UserMessage` of km_primitives.rs.
use enigma_core.Prelude.{
  ℕ, Option, List, [], ◌∷◌, length, ◌==◌, if◌then◌else◌, Outcome, ok, panic, ◌>>=◌,
}
use enigma_core.Crypto.Hash.{prepare_hash_multiple}
use enigma_core.Messages.{ToolsError, pub_key_size, verify_key_size, or_messaging}

pub record UserMessage : Type 0 where
  pub pubkey : List ℕ

-- The bytes of "Enigma User Message".
abbrev pub prefix : List ℕ
prefix =
    69 ∷ 110 ∷ 105 ∷ 103 ∷ 109 ∷ 97 ∷ 32 ∷ 85 ∷ 115 ∷ 101 ∷ 114 ∷ 32 ∷ 77 ∷ 101 ∷ 115 ∷ 115 ∷ 97
    ∷ 103 ∷ 101 ∷ []

unfoldable pub to_sign : UserMessage → List ℕ
to_sign m = prepare_hash_multiple (prefix ∷ m.pubkey ∷ [])

pub record UserFormats : Type 0 where
  pub pack : UserMessage → Option (List ℕ)
  pub unpack : List ℕ → Option UserMessage

unfoldable pub get_pubkey : UserMessage → Outcome ToolsError (List ℕ)
get_pubkey m = if length m.pubkey == pub_key_size then ok m.pubkey else panic

module _ (fmt : UserFormats) where
  unfoldable pub into_message : UserMessage → Outcome ToolsError (List ℕ)
  into_message m = or_messaging "Couldn't serialize UserMesssage" (fmt.pack m)

  unfoldable pub from_message : List ℕ → Outcome ToolsError UserMessage
  unfolding verify_key_size
  from_message msg = do
    m ← or_messaging "Couldn't Deserialize UserMesssage" (fmt.unpack msg)
    _ ← verify_key_size m.pubkey
    ok m
