-- ===== src/Storage/RoundTrip.antt =====
-- A document that was sealed and saved is found, loaded and unsealed again.
use Prim.Native.String.{String}
use mathlib.Core.List.{append-nil}
use enigma_core.Prelude.{
  ℕ, ◌≤◌, ◌≡◌, ◌≢◌, refl, ap, ◌∙◌, true, List, some, arith, length, drop_all, Option-cases, inl,
  inr, replicate, length-replicate, ok,
}
use enigma_core.Storage.{
  seal_log_size, SealedDocumentStorage, document, Sgx, FileSystem, log_after, seal, unseal,
  after_create, save_sealed_document, is_document, load_sealed_document,
}

-- What the SDK documents of sealing: sealed data of a small document fits the log, and is
-- unsealed to the document.
pub record SgxLaws (sgx : Sgx) : Type 0 where
  pub max_content : ℕ
  pub room : 64 ≤ max_content
  pub unseal-seal :
      (doc : SealedDocumentStorage) (sealed : List ℕ)
      → length doc.content ≤ max_content
      → sgx.seal_data_ex doc ≡ some sealed
      → (raw : List ℕ) × (back : List ℕ) × (sgx.to_raw_sealed_data sealed seal_log_size ≡ some raw)
        × (length raw ≡ seal_log_size)
        × (sgx.from_raw_sealed_data raw seal_log_size ≡ some back)
        × (sgx.unseal_data back ≡ document doc)

-- What the code relies on in the host's files: a write of at most a log's size is read back, and
-- leaves the other paths alone.
pub record FileSystemLaws {S : Type 0} (fs : FileSystem S) : Type 0 where
  pub read-write :
      (path : String) (bytes : List ℕ) (s s' s'' : S)
      → length bytes ≤ seal_log_size
      → fs.create path s ≡ some s'
      → fs.write_all path bytes s' ≡ some s''
      → (fs.is_file path s'' ≡ true) × (fs.open_read path s'' ≡ some bytes)
  pub other-create :
      (p q : String) (s s' : S)
      → q ≢ p
      → fs.create p s ≡ some s'
      → (fs.is_file q s' ≡ fs.is_file q s) × (fs.open_read q s' ≡ fs.open_read q s)
  pub other-write_all :
      (p q : String) (bytes : List ℕ) (s s' : S)
      → q ≢ p
      → fs.write_all p bytes s ≡ some s'
      → (fs.is_file q s' ≡ fs.is_file q s) × (fs.open_read q s' ≡ fs.open_read q s)

unfoldable pub zero_log : List ℕ
zero_log = replicate seal_log_size 0

length-zero_log : length zero_log ≡ seal_log_size
unfolding zero_log
length-zero_log = length-replicate {A = ℕ} seal_log_size 0

-- The document at a path, for a reader: `load_sealed_document` into a fresh log, then `unseal`.
pub record Holds {S : Type 0} (sgx : Sgx) (fs : FileSystem S) (path : String)
    (doc : SealedDocumentStorage) (s : S) : Type 0 where
  pub found : is_document fs path s ≡ true
  pub log : List ℕ
  pub loaded : load_sealed_document fs path zero_log s ≡ ok log
  pub unsealed : unseal sgx log ≡ ok (some doc)

seal-ok :
    (sgx : Sgx) (doc : SealedDocumentStorage) (buffer log : List ℕ)
    → seal sgx doc buffer ≡ ok log
    → (sealed : List ℕ) × (sgx.seal_data_ex doc ≡ some sealed)
      × (log ≡ log_after sgx buffer (sgx.to_raw_sealed_data sealed seal_log_size))
unfolding seal
seal-ok sgx doc buffer log h = ground arith

save-ok :
    {S : Type 0} (fs : FileSystem S) (path : String) (log : List ℕ) (s s' : S)
    → save_sealed_document fs path log s ≡ (ok tt, s')
    → (t : S) × (fs.create path s ≡ some t) × (fs.write_all path log t ≡ some s')
unfolding save_sealed_document
save-ok fs path log s s' h = elim (Option-cases (fs.create path s)) [
  | inl e ↦ absurd (ground arith)
  | inr (t, e) ↦ (t, e, ground arith)
]

module _ {S : Type 0} {sgx : Sgx} {fs : FileSystem S} (sl : SgxLaws sgx)
    (fl : FileSystemLaws fs) where
  -- A successful `seal` of a document of at most `max_content` bytes and a successful save of its
  -- log leave a file in which a reader finds the document.
  pub save-Holds :
      (path : String) (doc : SealedDocumentStorage) (log : List ℕ) (s s' : S)
      → length doc.content ≤ sl.max_content
      → seal sgx doc zero_log ≡ ok log
      → save_sealed_document fs path log s ≡ (ok tt, s')
      → Holds sgx fs path doc s'
  unfolding is_document load_sealed_document unseal
  save-Holds path doc log s s' small sealed saved =
      let (data', sealing, e) = seal-ok sgx doc zero_log log sealed in
      let (raw, back, cast, len, uncast, opened) = sl.unseal-seal doc data' small sealing in
      let same : log ≡ raw = e ∙ rw cast refl in
      let (t, made, written) = save-ok fs path log s s' saved in
      let (there, content) =
        fl.read-write path log s t s' (omega (arith, ap length same)) made written in
      record {
        found = there;
        log = log;
        loaded =
            rw
              (
                content,
                load_sealed_document,
                drop_all (length log) zero_log (omega (arith, ap length same, length-zero_log)),
                append-nil,
              )
              refl;
        unsealed = rw (same, uncast, unseal, opened) refl;
      }

  Holds-transport :
      (q : String) (doc : SealedDocumentStorage) (s s' : S)
      → (fs.is_file q s' ≡ fs.is_file q s) × (fs.open_read q s' ≡ fs.open_read q s)
      → Holds sgx fs q doc s
      → Holds sgx fs q doc s'
  unfolding is_document load_sealed_document
  Holds-transport q doc s s' (f, r) h = record {
    found = f ∙ h.found;
    log = h.log;
    loaded = rw (r, load_sealed_document) h.loaded;
    unsealed = h.unsealed;
  }

  -- A save at one path leaves what another path holds, even where it fails.
  pub save-Holds_ne :
      (p q : String) (doc : SealedDocumentStorage) (log : List ℕ) (s : S)
      → q ≢ p
      → Holds sgx fs q doc s
      → Holds sgx fs q doc (save_sealed_document fs p log s).1
  unfolding save_sealed_document
  save-Holds_ne p q doc log s ne h = elim (Option-cases (fs.create p s)) [
    | inl e ↦ rw (e, save_sealed_document, after_create) h
    | inr (t, e) ↦
        let h' = Holds-transport q doc s t (fl.other-create p q s t ne e) h in
        elim (Option-cases (fs.write_all p log t)) [
          | inl e' ↦ rw (e, save_sealed_document, after_create, e') h'
          | inr (s', e') ↦
              rw (e, save_sealed_document, after_create, e')
                (Holds-transport q doc t s' (fl.other-write_all p q log t s' ne e') h')
        ]
  ]
