-- ===== src/Crypto/Hash/Framing.antt =====
-- What `prepare_hash_multiple` builds: the frames of the messages in order, from which the
-- messages can be read back.
use mathlib.Core.List.{append-nil, append_assoc}
use enigma_core.Prelude.{
  ℕ, ◌+◌, ◌^◌, ◌<◌, ◌≡◌, refl, sym, ap, ap₂, ◌∙◌, List, [], ◌∷◌, ◌++◌, arith, All, length,
  length-append, append-injective, to_be_bytes, length-to_be_bytes, to_be_bytes-injective,
}
use enigma_core.Crypto.Hash.{extend_all, prepare_hash_multiple}

-- A message behind its length.
abbrev pub frame : List ℕ → List ℕ
frame msg = to_be_bytes 8 (length msg) ++ msg

abbrev pub frames : List (List ℕ) → List ℕ
frames [] = []
frames (msg ∷ msgs) = frame msg ++ frames msgs

-- Fits the length field, as every slice of a 64-bit machine does.
abbrev pub IsShort : List ℕ → Type 0
IsShort msg = length msg < 256 ^ 8

extend_all-frames : (res : List ℕ) (msgs : List (List ℕ)) → extend_all res msgs ≡ res ++ frames msgs
unfolding extend_all
extend_all-frames res [] = sym (append-nil res)
extend_all-frames res (msg ∷ msgs) =
    extend_all-frames (res ++ to_be_bytes 8 (length msg) ++ msg) msgs ∙ simp append_assoc

-- The loop with its accumulator builds the concatenation of the frames, in order.
pub prepare_hash_multiple-frames : (msgs : List (List ℕ)) → prepare_hash_multiple msgs ≡ frames msgs
unfolding prepare_hash_multiple
prepare_hash_multiple-frames msgs = extend_all-frames [] msgs

pub length-frame : (msg : List ℕ) → length (frame msg) ≡ 8 + length msg
length-frame msg = length-append _ msg ∙ omega (arith, length-to_be_bytes 8 (length msg))

-- A frame that begins two byte strings is the same in both.
pub frame-injective :
    (a b us vs : List ℕ)
    → IsShort a
    → IsShort b
    → frame a ++ us ≡ frame b ++ vs
    → (a ≡ b) × (us ≡ vs)
frame-injective a b us vs ha hb e =
    let (p, q) =
      append-injective (to_be_bytes 8 (length a)) (to_be_bytes 8 (length b)) (a ++ us) (b ++ vs)
        (length-to_be_bytes 8 (length a) ∙ sym (length-to_be_bytes 8 (length b)))
        (sym (append_assoc _ a us) ∙ e ∙ append_assoc _ b vs) in
    append-injective a b us vs (to_be_bytes-injective 8 (length a) (length b) ha hb p) q

frames_ne_nil : (msg : List ℕ) (msgs : List (List ℕ)) → ¬ (frames (msg ∷ msgs) ≡ [])
frames_ne_nil msg msgs e =
    omega (arith, length-append (frame msg) (frames msgs), length-frame msg, ap length e)

frames-injective :
    (us vs : List (List ℕ)) → All IsShort us → All IsShort vs → frames us ≡ frames vs → us ≡ vs
frames-injective [] [] hu hv e = refl
frames-injective [] (b ∷ bs) hu hv e = absurd (frames_ne_nil b bs (sym e))
frames-injective (a ∷ us) [] hu hv e = absurd (frames_ne_nil a us e)
frames-injective (a ∷ us) (b ∷ vs) (ha, hu) (hb, hv) e =
    let (p, q) = frame-injective a b (frames us) (frames vs) ha hb e in
    ap₂ ◌∷◌ p (frames-injective us vs hu hv q)

-- Different sequences of messages are never hashed as the same bytes.
pub prepare_hash_multiple-injective :
    (us vs : List (List ℕ))
    → All IsShort us
    → All IsShort vs
    → prepare_hash_multiple us ≡ prepare_hash_multiple vs
    → us ≡ vs
prepare_hash_multiple-injective us vs hu hv e =
    frames-injective us vs hu hv
      (sym (prepare_hash_multiple-frames us) ∙ e ∙ prepare_hash_multiple-frames vs)
