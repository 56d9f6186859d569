-- ===== src/Epoch/Keeper/Fresh.antt =====
-- Nonces are never announced twice while the enclave runs.
use enigma_core.Prelude.{
  ℕ, ◌≤◌, ◌<◌, ◌≡◌, refl, sym, ap, ◌∙◌, subst, Option, none, some, List, [], ◌∷◌, arith, All, ok,
  inl, inr,
}
use enigma_core.Storage.{FileSystem}
use enigma_core.Epoch.{InputWorkerParams, Epoch, IsU256, Uint256Laws}
use enigma_core.Epoch.Cache.{max_key}
use enigma_core.Epoch.Cache.Laws.{IsCache, Reaches, insert-Reaches_self}
use enigma_core.Epoch.Keeper.{
  Crates, Keeper, Request, empty_slice, existing_epoch, next_nonce_after, set_worker_params,
}
use enigma_core.Epoch.Keeper.Invariant.{set_worker_params-IsCache, set_worker_params-Reaches}
use enigma_core.Epoch.Keeper.Steps.{set_worker_params-ok}

-- The calls that an enclave serves, and the nonces that successful creations announced in
-- `nonce_out`, the last first. Calls that recover an epoch or fail announce nothing.
pub data Trace {S : Type 0} (c : Crates) (fs : FileSystem S) (s : Keeper S)
    : List ℕ → Keeper S → Type 0 where
  start : Trace c fs s [] s
  creates :
      {ns : List ℕ} {t : Keeper S}
      → Trace c fs s ns t
      → (r : Request) (t' : Keeper S) (n : ℕ) → set_worker_params c fs r t ≡ (ok tt, t')
      → r.seed_in ≡ empty_slice
      → c.hashing.uint256.from_big_endian t'.out.nonce_out ≡ n
      → Trace c fs s (n ∷ ns) t'
  calls :
      {ns : List ℕ} {t : Keeper S}
      → Trace c fs s ns t
      → (r : Request) (t' : Keeper S) → (set_worker_params c fs r t).1 ≡ t'
      → Trace c fs s ns t'

abbrev pub Decreasing : List ℕ → Type 0
Decreasing [] = Unit
Decreasing (n ∷ ns) = All (λ m. m < n) ns × Decreasing ns

pub next_nonce-U256 : (o : Option ℕ) (n : ℕ) → next_nonce_after o ≡ ok n → IsU256 n
next_nonce-U256 none n h = ground arith
next_nonce-U256 (some k) n h = ground arith

next_nonce-above :
    (k n : ℕ) (o : Option ℕ) (j : ℕ) → next_nonce_after o ≡ ok n → o ≡ some j → k ≤ j → k < n
next_nonce-above k n o j h e le = ground arith

module _ {S : Type 0} (c : Crates) (fs : FileSystem S) (laws : Uint256Laws c.hashing.uint256) where
  pub existing_epoch_empty :
      (p : InputWorkerParams) (r : Request) (files : S)
      → r.seed_in ≡ empty_slice
      → existing_epoch c fs p r files ≡ ok none
  unfolding existing_epoch
  existing_epoch_empty p r files z = rw (z, existing_epoch) refl

  created_nonce :
      (r : Request) (s s' : Keeper S)
      → set_worker_params c fs r s ≡ (ok tt, s')
      → r.seed_in ≡ empty_slice
      → (e : Epoch) × (next_nonce_after (max_key s.cache) ≡ ok e.nonce)
        × Reaches e.nonce s'.cache
        × (c.hashing.uint256.from_big_endian s'.out.nonce_out ≡ e.nonce)
  created_nonce r s s' h z =
      let g = set_worker_params-ok c fs r s s' h in
      let e = g.epoch in
      elim g.origin [
        | inl (found, _) ↦ absurd (cc (found, existing_epoch_empty g.params r s.files z))
        | inr (_, made) ↦ (
          e,
          made.nonce,
          rw g.signed.cache (insert-Reaches_self g.signed.room e e.nonce (omega arith)),
          ap c.hashing.uint256.from_big_endian (g.signed.nonce_out ∙ made.nonce_out)
              ∙ laws.from-to e.nonce (next_nonce-U256 (max_key s.cache) e.nonce made.nonce),
        )
      ]

  All-Reaches :
      (ns : List ℕ) (r : Request) (t : Keeper S)
      → IsCache t.cache
      → All (λ n. Reaches n t.cache) ns
      → All (λ n. Reaches n (set_worker_params c fs r t).1.cache) ns
  All-Reaches [] r t v h = tt
  All-Reaches (n ∷ ns) r t v (h, hs) =
      (set_worker_params-Reaches c fs n r t v h, All-Reaches ns r t v hs)

  All-below :
      (ns : List ℕ) (n : ℕ) (t : Keeper S)
      → next_nonce_after (max_key t.cache) ≡ ok n
      → All (λ m. Reaches m t.cache) ns
      → All (λ m. m < n) ns
  All-below [] n t nx h = tt
  All-below (m ∷ ns) n t nx ((j, e, le), hs) =
      (next_nonce-above m n (max_key t.cache) j nx e le, All-below ns n t nx hs)

  -- The last part of the induction: what holds after any calls.
  abbrev After : List ℕ → Keeper S → Type 0
  After ns t = Decreasing ns × All (λ n. Reaches n t.cache) ns × IsCache t.cache

  Trace-After : {s t : Keeper S} {ns : List ℕ} → Trace c fs s ns t → IsCache s.cache → After ns t
  Trace-After start v = (tt, tt, v)
  Trace-After {s = s} (calls {ns = ns} {t = t} tr r t' e) v =
      let (d, a, w) = Trace-After tr v in
      (
        d,
        subst (λ x. All (λ n. Reaches n x.cache) ns) e (All-Reaches ns r t w a),
        subst (λ x. IsCache x.cache) e (set_worker_params-IsCache c fs r t w),
      )
  Trace-After (creates {ns = ns} {t = t} tr r t' n h z announced) v =
      let (d, a, w) = Trace-After tr v in
      let (e, nx, top, out) = created_nonce r t t' h z in
      let same : e.nonce ≡ n = sym out ∙ announced in
      let moved : (set_worker_params c fs r t).1 ≡ t' = ap (λ x. x.1) h in
      (
        (All-below ns n t (nx ∙ ap ok same) a, d),
        (
          subst (λ x. Reaches x t'.cache) same top,
          subst (λ x. All (λ n. Reaches n x.cache) ns) moved (All-Reaches ns r t w a),
        ),
        subst (λ x. IsCache x.cache) moved (set_worker_params-IsCache c fs r t w),
      )

  -- From a valid cache, whatever calls are served, the failing ones and those that recover old
  -- epochs included, the nonces that creations announce strictly increase.
  pub Trace-Decreasing :
      {s t : Keeper S} {ns : List ℕ} → IsCache s.cache → Trace c fs s ns t → Decreasing ns
  Trace-Decreasing v tr = (Trace-After tr v).0
