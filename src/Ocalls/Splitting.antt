-- ===== src/Ocalls/Splitting.antt =====
-- Deltas that were laid one behind the other are split again.
use enigma_core.Prelude.{
  ℕ, zero, suc, ◌+◌, ◌-◌, ◌%◌, ◌^◌, ◌≤◌, ◌≡◌, refl, ap, ◌∙◌, false, List, [], ◌∷◌, ◌++◌, map,
  length, drop, replicate, take_append, drop_append, drop_all, length-append, length-replicate, ltb,
  ok, arith,
}
use enigma_core.Ocalls.{write_ptr, flatten}
use enigma_core.Ocalls.Calls.{total_size, with_patch, split_deltas}
use enigma_core.Ocalls.Reference.{patches}

replicate-eq : {m n : ℕ} → m ≡ n → replicate {A = ℕ} m 0 ≡ replicate n 0
replicate-eq e = ap (λ m. replicate m 0) e

drop-replicate : (k n : ℕ) → drop {A = ℕ} k (replicate n 0) ≡ replicate (n - k) 0
drop-replicate zero n = replicate-eq {m = n} {n = n - 0} (omega arith)
drop-replicate (suc k) zero = replicate-eq {m = 0} {n = 0 - suc k} (omega arith)
drop-replicate (suc k) (suc n) =
    drop-replicate k n ∙ replicate-eq {m = n - k} {n = suc n - suc k} (omega arith)

append-nil : (xs : List ℕ) → xs ++ [] ≡ xs
append-nil [] = refl
append-nil (x ∷ xs) = ap (◌∷◌ x) (append-nil xs)

abbrev pub sizes : List (List ℕ) → List ℕ
sizes deltas = map length deltas

pub length-sizes : (deltas : List (List ℕ)) → length (sizes deltas) ≡ length deltas
length-sizes [] = refl
length-sizes (x ∷ deltas) = ap suc (length-sizes deltas)

ltb-false : (a b : ℕ) → b ≤ a → ltb a b ≡ false
ltb-false a b h = ground arith

-- The sizes go into a buffer that has room for them, and zeros are left behind them.
pub write_ptr-sizes :
    (deltas : List (List ℕ)) (n : ℕ)
    → length deltas ≤ n
    → write_ptr (sizes deltas) (replicate n 0)
      ≡ ok (sizes deltas ++ replicate (n - length deltas) 0)
unfolding write_ptr
write_ptr-sizes deltas n h =
    rw
      (
        length-replicate {A = ℕ} n 0,
        length-sizes deltas,
        ltb-false n (length deltas) h,
        drop-replicate (length deltas) n,
      )
      refl

total-zeros : (n : ℕ) → total_size (replicate n 0) ≡ 0
unfolding total_size
total-zeros zero = refl
total-zeros (suc n) = omega (arith, total-zeros n)

pub total-sizes :
    (deltas : List (List ℕ)) (n : ℕ)
    → total_size (sizes deltas ++ replicate n 0) ≡ length (flatten deltas)
unfolding total_size flatten
total-sizes [] n = total-zeros n
total-sizes (x ∷ deltas) n = omega (arith, total-sizes deltas n, length-append x (flatten deltas))

-- What is written over a buffer of its own length is all of it.
pub write_ptr-whole :
    (bytes : List ℕ) (n : ℕ) → n ≡ length bytes → write_ptr bytes (replicate n 0) ≡ ok bytes
unfolding write_ptr
write_ptr-whole bytes n e =
    rw
      (
        length-replicate {A = ℕ} n 0,
        ltb-false n (length bytes) (omega arith),
        drop_all {A = ℕ} (length bytes) (replicate n 0)
            (omega (arith, length-replicate {A = ℕ} n 0)),
        append-nil bytes,
      )
      refl

split-zeros :
    (address : List ℕ) (index n : ℕ) (bytes : List ℕ)
    → split_deltas address index (replicate n 0) bytes ≡ ok []
unfolding split_deltas
split-zeros address index zero bytes = refl
split-zeros address index (suc n) bytes =
    rw
      (ltb-false (length bytes) 0 (omega arith), split-zeros address ((index + 1) % 2 ^ 32) n bytes)
      refl

-- One delta is split off, and the rest is left to the rest of the sizes.
split-cons :
    (address : List ℕ) (index : ℕ) (ns x rest : List ℕ)
    → split_deltas address index (length x ∷ ns) (x ++ rest)
      ≡ with_patch address index x (split_deltas address ((index + 1) % 2 ^ 32) ns rest)
unfolding split_deltas
split-cons address index ns x rest =
    rw
      (
        ltb-false (length (x ++ rest)) (length x) (omega (arith, length-append x rest)),
        take_append x rest,
        drop_append x rest,
      )
      refl

pub split_deltas-flatten :
    (address : List ℕ) (index n : ℕ) (deltas : List (List ℕ))
    → split_deltas address index (sizes deltas ++ replicate n 0) (flatten deltas)
      ≡ ok (patches address index deltas)
unfolding flatten patches
split_deltas-flatten address index n [] = split-zeros address index n []
split_deltas-flatten address index n ([] ∷ deltas) =
    rw
      (
        split-cons address index (sizes deltas ++ replicate n 0) [] (flatten deltas),
        split_deltas-flatten address ((index + 1) % 2 ^ 32) n deltas,
      )
      refl
split_deltas-flatten address index n ((b ∷ bytes) ∷ deltas) =
    rw
      (
        split-cons address index (sizes deltas ++ replicate n 0) (b ∷ bytes) (flatten deltas),
        split_deltas-flatten address ((index + 1) % 2 ^ 32) n deltas,
      )
      refl
