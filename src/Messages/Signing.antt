-- ===== src/Messages/Signing.antt =====
-- What a signature of a message stands for: the images tell the messages apart.
use enigma_core.Prelude.{ℕ, ◌≡◌, refl, sym, ◌∙◌, List, [], ◌∷◌, arith, All, length, ok}
use enigma_core.Crypto.Hash.{prepare_hash_multiple}
use enigma_core.Crypto.Hash.Framing.{IsShort, prepare_hash_multiple-injective}
use enigma_core.Messages.{
  PrincipalMessageType, response, request, encrypted_response, PrincipalMessage, to_sign,
}

abbrev pub IsShortBody : PrincipalMessageType → Type 0
IsShortBody (encrypted_response v) = IsShort v
IsShortBody request = Unit
IsShortBody (response _) = Unit

-- A public key of 64 bytes, an id of 12, and a ciphertext that fits the memory.
pub record IsMessage (m : PrincipalMessage) : Type 0 where
  pub pubkey : length m.pubkey ≡ 64
  pub id : length m.id ≡ 12
  pub body : IsShortBody m.body

-- What a signed image frames.
parts : PrincipalMessageType → List ℕ → List ℕ → List (List ℕ)
parts (encrypted_response v) pubkey id = v ∷ pubkey ∷ id ∷ []
parts request pubkey id = pubkey ∷ id ∷ []
parts (response _) pubkey id = []

to_sign-parts :
    (body : PrincipalMessageType) (pubkey id image : List ℕ)
    → to_sign (record { body = body; pubkey = pubkey; id = id }) ≡ ok image
    → (image ≡ prepare_hash_multiple (parts body pubkey id)) × ¬ (parts body pubkey id ≡ [])
unfolding to_sign parts
to_sign-parts (encrypted_response v) pubkey id image h = (cc, λ k. cc)
to_sign-parts request pubkey id image h = (cc, λ k. cc)
to_sign-parts (response _) pubkey id image h = cc

parts-IsShort :
    (body : PrincipalMessageType) (pubkey id : List ℕ)
    → IsShortBody body
    → length pubkey ≡ 64
    → length id ≡ 12
    → All IsShort (parts body pubkey id)
unfolding parts
parts-IsShort (encrypted_response v) pubkey id b p i = (b, (omega arith, (omega arith, tt)))
parts-IsShort request pubkey id b p i = (omega arith, (omega arith, tt))
parts-IsShort (response _) pubkey id b p i = tt

parts-injective :
    (b b' : PrincipalMessageType) (p p' i i' : List ℕ)
    → ¬ (parts b p i ≡ [])
    → parts b p i ≡ parts b' p' i'
    → (b ≡ b') × (p ≡ p') × (i ≡ i')
unfolding parts
parts-injective (encrypted_response v) (encrypted_response v') p p' i i' h e = (cc, cc, cc)
parts-injective (encrypted_response v) request p p' i i' h e = cc
parts-injective request (encrypted_response v') p p' i i' h e = cc
parts-injective request request p p' i i' h e = (refl, cc, cc)
parts-injective (response _) b' p p' i i' h e = absurd (h refl)
parts-injective b (response _) p p' i i' h e = absurd (h e)

-- Two messages with the same image are the same message, data, public key and id included.
pub to_sign-injective :
    (m n : PrincipalMessage) (image : List ℕ)
    → IsMessage m
    → IsMessage n
    → to_sign m ≡ ok image
    → to_sign n ≡ ok image
    → m ≡ n
to_sign-injective m n image hm hn em en =
    let (e, ne) = to_sign-parts m.body m.pubkey m.id image em in
    let (e', ne') = to_sign-parts n.body n.pubkey n.id image en in
    let same =
      prepare_hash_multiple-injective _ _
        (parts-IsShort m.body m.pubkey m.id hm.body hm.pubkey hm.id)
        (parts-IsShort n.body n.pubkey n.id hn.body hn.pubkey hn.id) (sym e ∙ e') in
    let (b, p, i) = parts-injective m.body n.body m.pubkey n.pubkey m.id n.id ne same in
    λ j. record { body = b j; pubkey = p j; id = i j }
