-- ===== src/Epoch/Keeper/Steps.antt =====
-- What a successful call of the keeper was made of.
use enigma_core.Prelude.{
  ℕ, ◌≡◌, ◌⊎◌, refl, sym, ap, ◌∙◌, subst, Option, none, some, List, arith, Outcome-ok_of, ok,
  Option-some_of, inl, inr,
}
use enigma_core.Exec.{pure, lift, check, ◌>>=◌, >>=-eq-ok}
use enigma_core.Storage.{FileSystem, seal, save_sealed_document}
use enigma_core.Storage.RoundTrip.{zero_log}
use enigma_core.Epoch.{InputWorkerParams, Epoch}
use enigma_core.Epoch.Nested.{encode_for_hashing}
use enigma_core.Epoch.Cache.{EpochMap, max_key, evict, insert}
use enigma_core.Epoch.Keeper.{
  Crates, Keeper, Request, marker_doc, existing_epoch, next_nonce_after, store_epoch, create_epoch,
  or_create, cache_and_sign, set_worker_params, decoded,
}

module _ {S : Type 0} (c : Crates) (fs : FileSystem S) where
  -- `e` was created in state `s`, which left `t`.
  pub record IsCreated (p : InputWorkerParams) (r : Request) (s t : Keeper S) (e : Epoch)
      : Type 0 where
    pub nonce : next_nonce_after (max_key s.cache) ≡ ok e.nonce
    pub rand : List ℕ
    pub drawn : r.drawn ≡ some rand
    pub seed : e.seed ≡ c.hashing.uint256.from_big_endian rand
    pub params : e.worker_params ≡ p
    pub log : List ℕ
    pub sealed : seal c.sgx (marker_doc c fs e) zero_log ≡ ok log
    pub saved : save_sealed_document fs (c.marker_path e.nonce) log s.files ≡ (ok tt, t.files)
    pub cache : t.cache ≡ s.cache
    pub nonce_out : t.out.nonce_out ≡ c.hashing.uint256.to_big_endian e.nonce
    pub rand_out : t.out.rand_out ≡ rand

  -- `e` was put into the cache of `t` and signed, which left `s'`.
  pub record IsSigned (t s' : Keeper S) (e : Epoch) : Type 0 where
    pub room : EpochMap
    pub evicted : evict t.cache ≡ ok room
    pub cache : s'.cache ≡ insert e.nonce e room
    pub files : s'.files ≡ t.files
    pub nonce_out : s'.out.nonce_out ≡ t.out.nonce_out
    pub rand_out : s'.out.rand_out ≡ t.out.rand_out
    pub signature : c.sign (encode_for_hashing c.hashing.uint256 e) ≡ some s'.out.sig_out

  pub cache_and_sign-ok :
      (e : Epoch) (t s' : Keeper S) → cache_and_sign c fs e t ≡ (ok tt, s') → IsSigned t s' e
  unfolding cache_and_sign ◌>>=◌
  cache_and_sign-ok e t s' h =
      let (room, ev) = Outcome-ok_of (evict t.cache) (λ x k. ground arith) (λ k. ground arith) in
      let (sig, sg) =
        Option-some_of (c.sign (encode_for_hashing c.hashing.uint256 e)) (λ k. ground arith) in
      record {
        room = room;
        evicted = ev;
        cache = ground arith;
        files = ground arith;
        nonce_out = ground arith;
        rand_out = ground arith;
        signature = ground arith;
      }

  pub create_epoch-ok :
      (p : InputWorkerParams) (r : Request) (s t : Keeper S) (e : Epoch)
      → create_epoch c fs p r s ≡ (ok e, t)
      → IsCreated p r s t e
  unfolding create_epoch store_epoch ◌>>=◌
  create_epoch-ok p r s t e h =
      let (nonce, nx) =
        Outcome-ok_of (next_nonce_after (max_key s.cache)) (λ x k. ground arith)
          (λ k. ground arith) in
      let (rand, dr) = Option-some_of r.drawn (λ k. ground arith) in
      let e' : Epoch = record {
        nonce = nonce;
        seed = c.hashing.uint256.from_big_endian rand;
        worker_params = p;
      } in
      let (log, sl) =
        Outcome-ok_of (seal c.sgx (marker_doc c fs e') zero_log) (λ x k. ground arith)
          (λ k. ground arith) in
      let saving = save_sealed_document fs (c.marker_path nonce) log s.files in
      let (done, sv) = Outcome-ok_of saving.0 (λ x k. ground arith) (λ k. ground arith) in
      let same : e' ≡ e = ground arith in
      record {
        nonce = ground arith;
        rand = rand;
        drawn = dr;
        seed = ground arith;
        params = ground arith;
        log = log;
        sealed = subst (λ x. seal c.sgx (marker_doc c fs x) zero_log ≡ ok log) same sl;
        saved = ground arith;
        cache = ground arith;
        nonce_out = ground arith;
        rand_out = ground arith;
      }

  -- A successful call: the parameters that were decoded, the epoch that was recovered or created,
  -- and the state between that and the caching.
  pub record IsSuccess (r : Request) (s s' : Keeper S) : Type 0 where
    pub params : InputWorkerParams
    pub decoded : c.decode r.worker_params_rlp ≡ some params
    pub epoch : Epoch
    pub between : Keeper S
    pub signed : IsSigned between s' epoch
    pub origin :
        ((existing_epoch c fs params r s.files ≡ ok (some epoch)) × (between ≡ s))
        ⊎ ((existing_epoch c fs params r s.files ≡ ok none) × IsCreated params r s between epoch)

  decoded-ok :
      (o : Option InputWorkerParams) (p : InputWorkerParams) → decoded o ≡ ok p → o ≡ some p
  decoded-ok none p h = cc
  decoded-ok (some q) p h = cc

  or_create-ok :
      (p : InputWorkerParams) (r : Request) (s t : Keeper S) (o : Option Epoch) (e : Epoch)
      → existing_epoch c fs p r s.files ≡ ok o
      → or_create c fs p r o s ≡ (ok e, t)
      → ((existing_epoch c fs p r s.files ≡ ok (some e)) × (t ≡ s))
        ⊎ ((existing_epoch c fs p r s.files ≡ ok none) × IsCreated p r s t e)
  unfolding pure
  or_create-ok p r s t none e h k = inr (h, create_epoch-ok p r s t e k)
  or_create-ok p r s t (some e') e h k = inl (cc (h, k), cc k)

  pub set_worker_params-ok :
      (r : Request) (s s' : Keeper S) → set_worker_params c fs r s ≡ (ok tt, s') → IsSuccess r s s'
  unfolding set_worker_params
  set_worker_params-ok r s s' h =
      let (p, s₁, dec, h₁) = >>=-eq-ok _ _ s s' tt h in
      let (o, s₂, ex, h₂) = >>=-eq-ok _ _ s₁ s' tt h₁ in
      let (e, t, or, h₃) = >>=-eq-ok _ _ s₂ s' tt h₂ in
      let stay : s₁ ≡ s = unfold lift in sym (ap (λ x. x.1) dec) in
      let stay' : s₂ ≡ s = unfold check in sym (ap (λ x. x.1) ex) ∙ stay in
      record {
        params = p;
        decoded = decoded-ok (c.decode r.worker_params_rlp) p (unfold lift in ap (λ x. x.0) dec);
        epoch = e;
        between = t;
        signed = cache_and_sign-ok e t s' h₃;
        origin =
            or_create-ok p r s t o e
              (unfold check in
                subst (λ x. existing_epoch c fs p r x.files ≡ ok o) stay (ap (λ x. x.0) ex))
              (subst (λ x. or_create c fs p r o x ≡ (ok e, t)) stay' or);
      }

  -- A recovered epoch is cached and signed: what the call writes.
  pub set_worker_params_recovers :
      (r : Request) (t : Keeper S) (p : InputWorkerParams) (e : Epoch) (room : EpochMap)
      (sig : List ℕ)
      → c.decode r.worker_params_rlp ≡ some p
      → existing_epoch c fs p r t.files ≡ ok (some e)
      → evict t.cache ≡ ok room
      → c.sign (encode_for_hashing c.hashing.uint256 e) ≡ some sig
      → set_worker_params c fs r t ≡ (
        ok tt,
        record {
          cache = insert e.nonce e room;
          files = t.files;
          out = record (t.out) { sig_out = sig };
        },
      )
  unfolding set_worker_params cache_and_sign ◌>>=◌
  set_worker_params_recovers r t p e room sig d x v g = rw (d, x, v, g) refl
