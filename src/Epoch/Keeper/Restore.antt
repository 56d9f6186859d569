-- ===== src/Epoch/Keeper/Restore.antt =====
-- An epoch survives a restart of the enclave through its marker, and no other epoch passes for it.
use enigma_core.Prelude.{
  ℕ, ◌≤◌, ◌≡◌, ◌≢◌, refl, sym, ap, ◌∙◌, subst, none, some, List, arith, length, drop, drop_append,
  length-append, bytes_eq, bytes_eq-ne, bytes_eq_refl, if◌then◌else◌, ok, inl, inr,
}
use enigma_core.Storage.{FileSystem}
use enigma_core.Storage.RoundTrip.{SgxLaws, FileSystemLaws, Holds, save-Holds}
use enigma_core.Epoch.{InputWorkerParams, Epoch, Uint256Laws}
use enigma_core.Epoch.Nested.{encode_for_hashing}
use enigma_core.Epoch.Cache.{get, insert, max_key}
use enigma_core.Epoch.Cache.Laws.{IsCache, evict-IsRoom, get-insert_self}
use enigma_core.Epoch.Keeper.{
  Crates, Keeper, Request, empty_slice, after_load, against_marker, get_epoch_marker, epoch_hash,
  marker_doc, requested_epoch, existing_epoch, set_worker_params,
}
use enigma_core.Epoch.Keeper.Fresh.{existing_epoch_empty, next_nonce-U256}
use enigma_core.Epoch.Keeper.Steps.{IsCreated, set_worker_params-ok, set_worker_params_recovers}

-- What the keeper relies on: the conversions, a hash of 32 bytes, sealing, and the host's files.
pub record Laws {S : Type 0} (c : Crates) (fs : FileSystem S) : Type 0 where
  pub uint256 : Uint256Laws c.hashing.uint256
  pub length-keccak256 : (b : List ℕ) → length (c.hashing.keccak256 b) ≡ 32
  pub sgx : SgxLaws c.sgx
  pub files : FileSystemLaws fs

module _ {S : Type 0} (c : Crates) (fs : FileSystem S) (laws : Laws c fs) where
  -- The marker of `e` is in the files.
  abbrev pub HasMarker : Epoch → S → Type 0
  HasMarker e files = Holds c.sgx fs (c.marker_path e.nonce) (marker_doc c fs e) files

  small_marker : (e : Epoch) → length (marker_doc c fs e).content ≤ laws.sgx.max_content
  unfolding marker_doc
  small_marker e = omega (
    arith,
    length-append (c.hashing.uint256.to_big_endian e.nonce) (epoch_hash c fs e),
    laws.uint256.length-to_big_endian e.nonce,
    laws.length-keccak256 (encode_for_hashing c.hashing.uint256 e),
    laws.sgx.room,
  )

  hash-marker_doc : (e : Epoch) → drop 32 (marker_doc c fs e).content ≡ epoch_hash c fs e
  unfolding marker_doc
  hash-marker_doc e =
      rw (← laws.uint256.length-to_big_endian e.nonce)
        (drop_append (c.hashing.uint256.to_big_endian e.nonce) (epoch_hash c fs e))

  pub get_epoch_marker-HasMarker :
      (e : Epoch) (files : S)
      → HasMarker e files
      → get_epoch_marker c fs e.nonce files ≡ ok (some (epoch_hash c fs e))
  unfolding get_epoch_marker
  get_epoch_marker-HasMarker e files h =
      rw (h.found, h.loaded, after_load, h.unsealed) (ap (λ x. ok (some x)) (hash-marker_doc e))

  -- A marker that was stored, a seed that is not empty and the same parameters recover the epoch.
  existing_epoch-HasMarker :
      (r : Request) (p : InputWorkerParams) (e : Epoch) (files : S)
      → HasMarker e files
      → r.seed_in ≢ empty_slice
      → requested_epoch c fs p r ≡ e
      → existing_epoch c fs p r files ≡ ok (some e)
  unfolding existing_epoch
  existing_epoch-HasMarker r p e files h ne same =
      subst
        (λ x.
          (if bytes_eq r.seed_in empty_slice
            then ok none
            else against_marker c fs x (get_epoch_marker c fs x.nonce files))
          ≡ ok (some e))
        (sym same)
        (rw
          (
            bytes_eq-ne r.seed_in empty_slice ne,
            get_epoch_marker-HasMarker e files h,
            against_marker,
            bytes_eq_refl (epoch_hash c fs e),
          )
          refl)

  created-HasMarker :
      (p : InputWorkerParams) (r : Request) (s t : Keeper S) (e : Epoch)
      → IsCreated c fs p r s t e
      → HasMarker e t.files
  created-HasMarker p r s t e m =
      save-Holds laws.sgx laws.files (c.marker_path e.nonce) (marker_doc c fs e) m.log s.files
        t.files (small_marker e) m.sealed m.saved

  -- The request that recovers what a call announced, with the same parameters.
  abbrev pub recover : Request → Keeper S → Request
  recover r s' = record r { seed_in = s'.out.rand_out; nonce_in = s'.out.nonce_out }

  -- After a creation whose random seed is not all zeros, in every later state with the same files
  -- and a valid cache, the empty one of a restarted enclave included, the announced seed and nonce
  -- and the same parameters recover the same epoch under its nonce, with the same signature.
  pub set_worker_params-recover :
      (r : Request) (s s' t : Keeper S)
      → set_worker_params c fs r s ≡ (ok tt, s')
      → r.seed_in ≡ empty_slice
      → s'.out.rand_out ≢ empty_slice
      → t.files ≡ s'.files
      → IsCache t.cache
      → (e : Epoch) × (t' : Keeper S) × (c.hashing.uint256.from_big_endian s'.out.nonce_out
          ≡ e.nonce)
        × (get e.nonce s'.cache ≡ some e)
        × (set_worker_params c fs (recover r s') t ≡ (ok tt, t'))
        × (get e.nonce t'.cache ≡ some e)
        × (t'.out.sig_out ≡ s'.out.sig_out)
  set_worker_params-recover r s s' t h z ne files v =
      let g = set_worker_params-ok c fs r s s' h in
      let e = g.epoch in
      let (room, made_room) = evict-IsRoom t.cache v in
      elim g.origin [
        | inl (found, _) ↦
            absurd (cc (found, existing_epoch_empty c fs laws.uint256 g.params r s.files z))
        | inr (_, made) ↦
            let nonce : c.hashing.uint256.from_big_endian s'.out.nonce_out ≡ e.nonce =
              ap c.hashing.uint256.from_big_endian (g.signed.nonce_out ∙ made.nonce_out)
              ∙ laws.uint256.from-to e.nonce
                  (next_nonce-U256 (max_key s.cache) e.nonce made.nonce) in
            let marker : HasMarker e t.files =
              subst (HasMarker e) (sym (files ∙ g.signed.files))
                (created-HasMarker g.params r s g.between e made) in
            (
              e,
              record t {
                cache = insert e.nonce e room;
                out = record (t.out) { sig_out = s'.out.sig_out };
              },
              nonce,
              rw g.signed.cache (get-insert_self g.signed.room e),
              set_worker_params_recovers c fs (recover r s') t g.params e room s'.out.sig_out
                  g.decoded
                  (existing_epoch-HasMarker (recover r s') g.params e t.files marker ne (λ i.
                    record {
                      nonce = nonce i;
                      seed =
                          (ap c.hashing.uint256.from_big_endian (g.signed.rand_out ∙ made.rand_out)
                              ∙ sym made.seed)
                            i;
                      worker_params = sym made.params i;
                    }))
                  made_room.evicted g.signed.signature,
              get-insert_self room e,
              refl,
            )
      ]
