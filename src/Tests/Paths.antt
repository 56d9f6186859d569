-- ===== src/Tests/Paths.antt =====
-- Paths for the documents of contracts, different ones for different addresses.
use Prim.Native.String.{String, char_at}
use Prim.Native.String as Str
use Prim.Native.Char.{Char, code}
use text.Mathlib.TextLemmas.{head-eq_of_cons-eq, tail-eq_of_cons-eq, nil≢cons}
use enigma_core.Prelude.{ℕ, zero, suc, ◌≡◌, refl, sym, ap, ap₂, List, [], ◌∷◌, arith}

-- Paths of documents: each number in unary, behind it a mark.
abbrev mark : Char
mark = char_at "." 0

abbrev stroke : Char
stroke = char_at "1" 0

abbrev unary : ℕ → String → String
unary zero rest = Str.◌∷◌ mark rest
unary (suc n) rest = Str.◌∷◌ stroke (unary n rest)

abbrev pub path_of : List ℕ → String
path_of [] = ""
path_of (n ∷ ns) = unary n (path_of ns)

mark-ne-stroke : ¬ (mark ≡ stroke)
mark-ne-stroke e = omega (arith, ap code e)

unary-injective : (n m : ℕ) (s t : String) → unary n s ≡ unary m t → (n ≡ m) × (s ≡ t)
unary-injective zero zero s t e = (refl, tail-eq_of_cons-eq e)
unary-injective zero (suc m) s t e = absurd (mark-ne-stroke (head-eq_of_cons-eq e))
unary-injective (suc n) zero s t e = absurd (mark-ne-stroke (sym (head-eq_of_cons-eq e)))
unary-injective (suc n) (suc m) s t e =
    let (p, q) = unary-injective n m s t (tail-eq_of_cons-eq e) in (ap suc p, q)

unary_ne_nil : (n : ℕ) (s : String) → ¬ (unary n s ≡ "")
unary_ne_nil zero s e = nil≢cons (sym e)
unary_ne_nil (suc n) s e = nil≢cons (sym e)

pub path_of-injective : (a b : List ℕ) → path_of a ≡ path_of b → a ≡ b
path_of-injective [] [] e = refl
path_of-injective [] (m ∷ ms) e = absurd (unary_ne_nil m (path_of ms) (sym e))
path_of-injective (n ∷ ns) [] e = absurd (unary_ne_nil n (path_of ns) e)
path_of-injective (n ∷ ns) (m ∷ ms) e =
    let (p, q) = unary-injective n m (path_of ns) (path_of ms) e in
    ap₂ ◌∷◌ p (path_of-injective ns ms q)
