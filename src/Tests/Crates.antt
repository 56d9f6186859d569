-- ===== src/Tests/Crates.antt =====
-- Concrete stand-ins for the crates and for the host, with the laws that the theorems ask for.
use Prim.Native.String.{String}
use text.Mathlib.Text.{◌==◌ as str_eq}
use text.Mathlib.TextEquality.{eq_iff}
use text.Mathlib.TextPositions.{eq_refl}
use enigma_core.Prelude.{
  ℕ, ◌+◌, ◌-◌, ◌≡◌, ◌≢◌, refl, ap, ◌∙◌, true, false, Option, none, some, List, [], ◌∷◌, ◌++◌, arith,
  length, take, take_append, replicate, length-append, length-replicate, to_be_bytes, from_be_bytes,
  length-to_be_bytes, from_be_bytes-to_be_bytes, if◌then◌else◌,
}
use enigma_core.Crypto.Symmetric.{Aead}
use enigma_core.Crypto.Symmetric.RoundTrip.{AeadLaws}
use enigma_core.Storage.{document, other_status, Sgx, FileSystem}
use enigma_core.Storage.RoundTrip.{SgxLaws, FileSystemLaws}
use enigma_core.Epoch.{Uint256, Uint256Laws}
use enigma_core.Epoch.Selection.{Token, uint, fixed_bytes, Hashing}

-- A cipher that puts the key's first byte behind the message, 16 times.
abbrev pub tag : ℕ → List ℕ
tag k = replicate 16 k

abbrev pub toy_aead : Aead
toy_aead = record {
  tag_len = 16;
  is_key = λ key. elim key [ [] ↦ false | _ ∷ _ ↦ true ];
  seal_in_place = λ key iv in_out n. some (in_out, length in_out);
  open_in_place = λ key iv sealed. some (take (length sealed - 16) sealed);
}

abbrev pub uint256 : Uint256
uint256 = record { to_big_endian = to_be_bytes 32; from_big_endian = from_be_bytes }

pub uint256_laws : Uint256Laws uint256
uint256_laws = record {
  length-to_big_endian = length-to_be_bytes 32;
  from-to = λ n h. from_be_bytes-to_be_bytes 32 n h;
}

take_exact : (xs ys : List ℕ) (n : ℕ) → n ≡ length xs → take n (xs ++ ys) ≡ xs
take_exact xs ys n e = rw e (take_append xs ys)

take_whole : (xs : List ℕ) (n : ℕ) → n ≡ length xs → take n xs ≡ xs
take_whole xs n e = rw e (go xs)
  where
    go : (xs : List ℕ) → take (length xs) xs ≡ xs
    go [] = refl
    go (x ∷ xs) = ap (◌∷◌ x) (go xs)

pub opened :
    (m : List ℕ)
    → take
        (length (take (length (m ++ replicate 16 0)) (m ++ replicate 16 0)) - 16)
        (take (length (m ++ replicate 16 0)) (m ++ replicate 16 0))
      ≡ m
opened m =
    let z = m ++ replicate 16 0 in
    rw (take_whole z (length z) refl) (
      take_exact m (replicate 16 0) (length z - 16)
        (omega (arith, length-append m (replicate 16 0))))

unfoldable pub toy_aead_laws : AeadLaws toy_aead
toy_aead_laws = record {
  max_message = 1000;
  open-seal = λ key iv message k h m. (
    (message ++ replicate 16 0, length (message ++ replicate 16 0)),
    refl,
    ap some (opened message),
  );
}

-- Sealed data is the version, the length and the content; a log pads it with zeros.
abbrev pub sgx : Sgx
sgx = record {
  seal_data_ex = λ d. some (d.version ∷ length d.content ∷ d.content);
  to_raw_sealed_data = λ sealed size. some (sealed ++ replicate (size - length sealed) 0);
  from_raw_sealed_data = λ raw size. some raw;
  unseal_data = λ raw. elim raw [
    | version ∷ rest ↦ elim rest [
      | n ∷ bytes ↦ document (record { version = version; content = take n bytes })
      | [] ↦ other_status
    ]
    | [] ↦ other_status
  ];
}

unfoldable pub sgx_laws : SgxLaws sgx
sgx_laws = record {
  max_content = 2000;
  room = omega arith;
  unseal-seal = λ doc sealed small e.
      let content = doc.content in
      let raw = (doc.version ∷ length content ∷ content) in
      let pad : List ℕ = replicate (2048 - length raw) 0 in
      let same : raw ≡ sealed = cc e in
      rw (← same) (
        raw ++ pad,
        raw ++ pad,
        refl,
        omega (arith, length-append raw pad, length-replicate {A = ℕ} (2048 - length raw) 0),
        refl,
        λ i. document (record { version = doc.version; content = take_append content pad i }),
      );
}

-- Files as a function from paths.
abbrev pub Files : Type 0
Files = String → Option (List ℕ)

abbrev pub write : String → List ℕ → Files → Files
write p b files q = if str_eq p q then some b else files q

abbrev pub files : FileSystem Files
files = record {
  create = λ p s. some (write p [] s);
  write_all = λ p b s. some (write p b s);
  is_file = λ p s. elim (s p) [ none ↦ false | some _ ↦ true ];
  open_read = λ p s. s p;
}

pub write_self : (p : String) (b : List ℕ) (s : Files) → write p b s p ≡ some b
write_self p b s = rw (eq_refl p) refl

write_ne : (p q : String) (b : List ℕ) (s : Files) → q ≢ p → write p b s q ≡ s q
write_ne p q b s ne = ground (arith, eq_iff p q)

pub files_laws : FileSystemLaws files
files_laws = record {
  read-write = λ p b s s' s'' h e k.
      let made : s'' ≡ write p b s' = cc k in
      let content : s'' p ≡ some b = ap (λ f. f p) made ∙ write_self p b s' in
      (rw content refl, content);
  other-create = λ p q s s' ne e.
      let made : s' ≡ write p [] s = cc e in
      let same : s' q ≡ s q = ap (λ f. f q) made ∙ write_ne p q [] s ne in (rw same refl, same);
  other-write_all = λ p q b s s' ne e.
      let made : s' ≡ write p b s = cc e in
      let same : s' q ≡ s q = ap (λ f. f q) made ∙ write_ne p q b s ne in (rw same refl, same);
}

-- The tokens' values in a sum, as an encoding of one number.
abbrev value : Token → ℕ
value (uint n) = n
value (fixed_bytes b) = from_be_bytes b

abbrev sum : List Token → ℕ
sum [] = 0
sum (t ∷ ts) = value t + sum ts

abbrev pub hashing : Hashing
hashing = record {
  uint256 = uint256;
  encode = λ ts. to_be_bytes 32 (sum ts);
  keccak256 = λ b. to_be_bytes 32 (from_be_bytes b);
}
