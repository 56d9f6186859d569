-- ===== src/Prelude/Bytes.antt =====
-- Big-endian byte strings: `to_be_bytes` and `from_be_bytes` of Rust's integers, at any width.
use native.Mathlib.Nat.{pow-suc}
use Prim.Native.Nat.{ℕ, zero, suc, ◌+◌, ◌*◌, ◌/◌, ◌%◌, ◌^◌, ◌<◌}
use mathlib.Core.Path.{◌≡◌, refl, ap, ◌∙◌}
use mathlib.Core.List.{List, [], ◌∷◌, ◌++◌}
use native.Mathlib.Omega.{arith}
use enigma_core.Prelude.Lists.{length, length-append}

-- `n.to_be_bytes()` of an integer of `w` bytes.
unfoldable pub to_be_bytes : ℕ → ℕ → List ℕ
to_be_bytes zero n = []
to_be_bytes (suc w) n = to_be_bytes w (n / 256) ++ (n % 256) ∷ []

unfoldable pub from_be_bytes_acc : ℕ → List ℕ → ℕ
from_be_bytes_acc acc [] = acc
from_be_bytes_acc acc (b ∷ bs) = from_be_bytes_acc (acc * 256 + b) bs

unfoldable pub from_be_bytes : List ℕ → ℕ
unfolding from_be_bytes_acc
from_be_bytes bs = from_be_bytes_acc 0 bs

pub length-to_be_bytes : (w n : ℕ) → length (to_be_bytes w n) ≡ w
unfolding to_be_bytes
length-to_be_bytes zero n = refl
length-to_be_bytes (suc w) n =
    length-append (to_be_bytes w (n / 256)) ((n % 256) ∷ [])
    ∙ omega (arith, length-to_be_bytes w (n / 256))

from_be_bytes_acc-append :
    (acc : ℕ) (bs : List ℕ) (b : ℕ)
    → from_be_bytes_acc acc (bs ++ b ∷ []) ≡ from_be_bytes_acc acc bs * 256 + b
unfolding from_be_bytes_acc
from_be_bytes_acc-append acc [] b = refl
from_be_bytes_acc-append acc (c ∷ bs) b = from_be_bytes_acc-append (acc * 256 + c) bs b

div-lt-pow : (w n : ℕ) → n < 256 ^ suc w → n / 256 < 256 ^ w
div-lt-pow w n h = omega (arith, pow-suc 256 w)

pub from_be_bytes-to_be_bytes : (w n : ℕ) → n < 256 ^ w → from_be_bytes (to_be_bytes w n) ≡ n
unfolding from_be_bytes to_be_bytes
from_be_bytes-to_be_bytes zero n h = omega arith
from_be_bytes-to_be_bytes (suc w) n h =
    from_be_bytes_acc-append 0 (to_be_bytes w (n / 256)) (n % 256)
    ∙ omega (arith, from_be_bytes-to_be_bytes w (n / 256) (div-lt-pow w n h))

-- Within the width, equal byte strings stand for equal numbers.
pub to_be_bytes-injective :
    (w n m : ℕ) → n < 256 ^ w → m < 256 ^ w → to_be_bytes w n ≡ to_be_bytes w m → n ≡ m
to_be_bytes-injective w n m h k e =
    cc (from_be_bytes-to_be_bytes w n h, from_be_bytes-to_be_bytes w m k, ap from_be_bytes e)
