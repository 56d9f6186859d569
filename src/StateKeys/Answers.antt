-- ===== src/StateKeys/Answers.antt =====
-- What a request for state keys answers.
use enigma_core.Prelude.{
  ℕ, ◌≡◌, inl, inr, refl, ap, subst, some, List, [], ◌∷◌, arith, ok, All, Outcome-cases,
  Option-cases,
}
use enigma_core.Exec.{pure, check, >>=-eq-ok}
use enigma_core.Storage.{FileSystem}
use enigma_core.StateKeys.{KeyCrates, KeyStore, build_response, respond}
use enigma_core.StateKeys.Store.{KeyMap, get}
use enigma_core.StateKeys.Known.{Knows}
use enigma_core.StateKeys.Provision.{KeyLaws}

abbrev pub addresses : List (List ℕ × List ℕ) → List (List ℕ)
addresses [] = []
addresses (p ∷ ps) = p.0 ∷ addresses ps

abbrev pub Cached : KeyMap → List (List ℕ × List ℕ) → Type 0
Cached m resp = All (λ p. get p.0 m ≡ some p.1) resp

respond-ok :
    (m : KeyMap) (addrs : List (List ℕ)) (resp : List (List ℕ × List ℕ))
    → respond m addrs ≡ ok resp
    → (addresses resp ≡ addrs) × Cached m resp
unfolding respond
respond-ok m [] resp h =
    let nothing : [] ≡ resp = cc h in
    subst (λ r. (addresses r ≡ []) × Cached m r) nothing (refl, tt)
respond-ok m (a ∷ addrs) resp h = elim (Option-cases (get a m)) [
  | inl e ↦ absurd (ground arith)
  | inr (key, e) ↦ elim (Outcome-cases (respond m addrs)) [
    | inr failed ↦ absurd (ground arith)
    | inl (rest, r) ↦
        let (same, cached) = respond-ok m addrs rest r in
        let made : (a, key) ∷ rest ≡ resp = ground arith in
        subst (λ x. (addresses x ≡ a ∷ addrs) × Cached m x) made (ap (◌∷◌ a) same, (e, cached))
  ]
]

pub Cached-respond :
    (m : KeyMap) (resp : List (List ℕ × List ℕ))
    → Cached m resp
    → respond m (addresses resp) ≡ ok resp
unfolding respond
Cached-respond m [] h = refl
Cached-respond m ((a, key) ∷ rest) (h, hs) = rw (h, respond, Cached-respond m rest hs) refl

module _ {S : Type 0} (c : KeyCrates) (fs : FileSystem S) where
  -- A successful request is answered with its addresses, in their order, and with the key of each
  -- that the cache then holds.
  pub build_response-ok :
      (addrs : List (List ℕ)) (s s' : KeyStore S) (resp : List (List ℕ × List ℕ))
      → build_response c fs addrs s ≡ (ok resp, s')
      → (addresses resp ≡ addrs) × Cached s'.keys resp
  unfolding build_response pure check
  build_response-ok [] s s' resp h =
      let nothing : [] ≡ resp = cc h in
      subst (λ r. (addresses r ≡ []) × Cached s'.keys r) nothing (refl, tt)
  build_response-ok (a ∷ addrs) s s' resp h =
      let (keys, s₁, g, h₁) = >>=-eq-ok _ _ s s' resp h in
      let (fresh, s₂, n, h₂) = >>=-eq-ok _ _ s₁ s' resp h₁ in
      let (made, s₃, m, h₃) = >>=-eq-ok _ _ s₂ s' resp h₂ in
      let same : s₃ ≡ s' = ap (λ p. p.1) h₃ in
      respond-ok s'.keys (a ∷ addrs) resp
        (subst (λ x. respond x.keys (a ∷ addrs) ≡ ok resp) same (ap (λ p. p.0) h₃))

  agrees :
      (laws : KeyLaws c fs) (a key : List ℕ) (s : KeyStore S) (resp : List (List ℕ × List ℕ))
      → Knows c fs a key s
      → Cached s.keys resp
      → All (λ p. p.0 ≡ a → p.1 ≡ key) resp
  agrees laws a key s [] h hs = tt
  agrees laws a key s ((b, k) ∷ rest) h (e, es) = (agree h, agrees laws a key s rest h es)
    where
      agree : Knows c fs a key s → b ≡ a → k ≡ key
      agree (inl cached) same = cc (e, cached, same)
      agree (inr (missing, _)) same = cc (e, missing, same)
