-- ===== src/Database/Key/Order.antt =====
-- The order of keys, byte by byte, and the order of the numbers they code.
use enigma_core.Prelude.{
  ℕ, ◌+◌, ◌*◌, ◌/◌, ◌%◌, ◌<◌, ◌≤◌, ◌≡◌, refl, ◌⊎◌, inl, inr, List, [], ◌∷◌, length, arith,
  to_be_bytes, from_be_bytes, from_be_bytes_acc,
}

abbrev pub AllBytes : List ℕ → Type 0
AllBytes [] = Unit
AllBytes (b ∷ bs) = (b < 256) × AllBytes bs

-- The order of RocksDB's default comparator.
abbrev pub IsAtMost : List ℕ → List ℕ → Type 0
IsAtMost [] ys = Unit
IsAtMost (x ∷ xs) [] = ⊥
IsAtMost (x ∷ xs) (y ∷ ys) = (x < y) ⊎ ((x ≡ y) × IsAtMost xs ys)

from_be_bytes_acc-lt :
    (a b : ℕ) (xs ys : List ℕ)
    → a < b
    → AllBytes xs
    → length xs ≡ length ys
    → from_be_bytes_acc a xs < from_be_bytes_acc b ys
unfolding from_be_bytes_acc
from_be_bytes_acc-lt a b [] [] lt all len = lt
from_be_bytes_acc-lt a b [] (y ∷ ys) lt all len = absurd (omega (arith, len))
from_be_bytes_acc-lt a b (x ∷ xs) [] lt all len = absurd (omega (arith, len))
from_be_bytes_acc-lt a b (x ∷ xs) (y ∷ ys) lt (small, all) len =
    from_be_bytes_acc-lt (a * 256 + x) (b * 256 + y) xs ys (omega arith) all (omega (arith, len))

from_be_bytes_acc-le :
    (a : ℕ) (xs ys : List ℕ)
    → AllBytes xs
    → length xs ≡ length ys
    → IsAtMost xs ys
    → from_be_bytes_acc a xs ≤ from_be_bytes_acc a ys
unfolding from_be_bytes_acc
from_be_bytes_acc-le a [] [] all len le = omega arith
from_be_bytes_acc-le a [] (y ∷ ys) all len le = absurd (omega (arith, len))
from_be_bytes_acc-le a (x ∷ xs) [] all len le = absurd le
from_be_bytes_acc-le a (x ∷ xs) (y ∷ ys) (small, all) len (inl lt) =
    let below =
      from_be_bytes_acc-lt (a * 256 + x) (a * 256 + y) xs ys (omega arith) all
        (omega (arith, len)) in
    omega (arith, below)
from_be_bytes_acc-le a (x ∷ xs) (y ∷ ys) (small, all) len (inr (same, le)) =
    rw same (from_be_bytes_acc-le (a * 256 + y) xs ys all (omega (arith, len)) le)

pub from_be_bytes_le :
    (xs ys : List ℕ)
    → AllBytes xs
    → length xs ≡ length ys
    → IsAtMost xs ys
    → from_be_bytes xs ≤ from_be_bytes ys
unfolding from_be_bytes
from_be_bytes_le xs ys all len le = from_be_bytes_acc-le 0 xs ys all len le

-- Four bytes are those of the number they code.
pub to_be_bytes-from_be_bytes_4 :
    (bs : List ℕ) → AllBytes bs → length bs ≡ 4 → to_be_bytes 4 (from_be_bytes bs) ≡ bs
unfolding to_be_bytes from_be_bytes from_be_bytes_acc
to_be_bytes-from_be_bytes_4 (a ∷ b ∷ c ∷ d ∷ []) (sa, (sb, (sc, (sd, _)))) len =
    let n : ℕ = (((0 * 256 + a) * 256 + b) * 256 + c) * 256 + d in
    let ea : n / 256 / 256 / 256 % 256 ≡ a = omega arith in
    let eb : n / 256 / 256 % 256 ≡ b = omega arith in
    let ec : n / 256 % 256 ≡ c = omega arith in
    let ed : n % 256 ≡ d = omega arith in rw (ea, eb, ec, ed) refl
to_be_bytes-from_be_bytes_4 [] all len = absurd (omega (arith, len))
to_be_bytes-from_be_bytes_4 (a ∷ []) all len = absurd (omega (arith, len))
to_be_bytes-from_be_bytes_4 (a ∷ b ∷ []) all len = absurd (omega (arith, len))
to_be_bytes-from_be_bytes_4 (a ∷ b ∷ c ∷ []) all len = absurd (omega (arith, len))
to_be_bytes-from_be_bytes_4 (a ∷ b ∷ c ∷ d ∷ e ∷ l) all len = absurd (omega (arith, len))
