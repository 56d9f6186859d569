-- ===== src/Tests/StateKeys.antt =====
-- State keys at concrete requests: two contracts get keys, which survive a restart.
use enigma_core.Prelude.{
  ℕ, ◌≡◌, refl, ap, ◌∙◌, inl, none, some, List, [], ◌∷◌, length, replicate, length-replicate, ok,
}
use enigma_core.Messages.{AddressedKey}
use enigma_core.StateKeys.{KeyCrates, KeyStore, build_response}
use enigma_core.StateKeys.Known.{Knows}
use enigma_core.StateKeys.Provision.{KeyLaws, build_response-Knows}
use enigma_core.StateKeys.Answers.{build_response-ok}
use enigma_core.StateKeys.Invariant.{IsStore}
use enigma_core.StateKeys.Restart.{build_response-restart}
use enigma_core.Tests.Crates.{sgx, sgx_laws, Files, files, files_laws}
use enigma_core.Tests.Paths.{path_of, path_of-injective}

-- The n-th draw repeats n.
abbrev pub key_crates : KeyCrates
key_crates = record { document_path = path_of; sgx = sgx; draws = λ n. some (replicate 32 n) }

key_laws : KeyLaws key_crates files
key_laws = record {
  sgx = sgx_laws;
  files = files_laws;
  path-injective = path_of-injective;
  length-draws = λ n key h. ap length (drawn n key h) ∙ length-replicate {A = ℕ} 32 n;
}
  where
    drawn : (n : ℕ) (key : List ℕ) → some (replicate 32 n) ≡ some key → key ≡ replicate 32 n
    drawn n key h = cc h

abbrev pub no_files : Files
no_files p = none

abbrev pub empty : KeyStore Files
empty = record { keys = []; files = no_files; drawn = 1 }

-- Contracts 5 and 7, then 7 again.
abbrev asked : List (List ℕ)
asked = (5 ∷ []) ∷ (7 ∷ []) ∷ (7 ∷ []) ∷ []

abbrev served : KeyStore Files
served = (build_response key_crates files asked empty).1

-- The key of contract 7 is created twice, and the second one is its key.
abbrev answered : List AddressedKey
answered = (5 ∷ [], replicate 32 1) ∷ (7 ∷ [], replicate 32 3) ∷ (7 ∷ [], replicate 32 3) ∷ []

serves : build_response key_crates files asked empty ≡ (ok answered, served)
unfolding build_response enigma_core.Exec.◌>>=◌ enigma_core.StateKeys.get_state_keys
    enigma_core.StateKeys.get_state_key enigma_core.StateKeys.Store.get
    enigma_core.Storage.is_document enigma_core.StateKeys.new_addrs
    enigma_core.StateKeys.new_state_keys enigma_core.StateKeys.new_state_key
    enigma_core.Storage.seal enigma_core.Storage.save_sealed_document enigma_core.StateKeys.respond
    enigma_core.StateKeys.Store.insert
serves = refl

empty-IsStore : IsStore key_crates files empty
unfolding enigma_core.StateKeys.Store.get
empty-IsStore a key h = cc h

abbrev restarted : KeyStore Files
restarted = record empty { files = served.files }

build_response-restart_example :
    (t : KeyStore Files) × (build_response key_crates files asked restarted ≡ (ok answered, t))
build_response-restart_example =
    build_response-restart key_crates files key_laws asked empty served restarted answered
      empty-IsStore serves refl refl

served-Knows : Knows key_crates files (5 ∷ []) (replicate 32 1) served
served-Knows = inl ((build_response-ok key_crates files asked empty served answered serves).1.0)

abbrev more : List (List ℕ)
more = (9 ∷ []) ∷ (5 ∷ []) ∷ []

build_response-Knows_example :
    Knows key_crates files (5 ∷ []) (replicate 32 1) (build_response key_crates files more served).1
build_response-Knows_example =
    build_response-Knows key_crates files key_laws more (5 ∷ []) (replicate 32 1) served
      served-Knows
