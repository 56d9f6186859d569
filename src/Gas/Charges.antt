-- ===== src/Gas/Charges.antt =====
-- A run of charges against the limit.
use enigma_core.Prelude.{
  ℕ, ◌+◌, ◌^◌, ◌<◌, ◌≤◌, ◌≡◌, ◌⊎◌, inl, inr, ap, ◌∙◌, List, [], ◌∷◌, none, some, arith,
}
use native.Mathlib.Decide.{dec_le}
use enigma_core.Gas.{RuntimeGas, Charged, exhausted, charge_gas_if_enough, charge_gas}

abbrev continue : (RuntimeGas → Charged (Unit {0})) → Charged (Unit {0}) → Charged (Unit {0})
continue next (none, g) = (none, g)
continue next (some _, g) = next g

-- The charges of a run, up to the first that fails.
abbrev pub charge_all : List ℕ → RuntimeGas → Charged (Unit {0})
charge_all [] g = (some tt, g)
charge_all (amount ∷ amounts) g = continue (charge_all amounts) (charge_gas amount g)

abbrev pub total : List ℕ → ℕ
total [] = 0
total (amount ∷ amounts) = amount + total amounts

charge_gas-enough :
    (amount : ℕ) (g : RuntimeGas)
    → g.limit < 2 ^ 64
    → g.counter + amount ≤ g.limit
    → charge_gas amount g ≡ (some tt, record g { counter = g.counter + amount })
unfolding charge_gas charge_gas_if_enough
charge_gas-enough amount g small le = ground arith

charge_gas-short :
    (amount : ℕ) (g : RuntimeGas)
    → g.limit < g.counter + amount
    → charge_gas amount g ≡ (none, exhausted g)
unfolding charge_gas charge_gas_if_enough
charge_gas-short amount g lt = ground arith

-- A run of charges from a counter within the limit, a 64-bit number, succeeds exactly if the limit
-- covers their total, and then the counter grows by it; otherwise the counter is at the limit.
pub charge_all-outcome :
    (amounts : List ℕ) (g : RuntimeGas)
    → g.limit < 2 ^ 64
    → g.counter ≤ g.limit
    → ((g.counter + total amounts ≤ g.limit)
        × (charge_all amounts g ≡ (some tt, record g { counter = g.counter + total amounts })))
      ⊎ ((g.limit < g.counter + total amounts) × (charge_all amounts g ≡ (none, exhausted g)))
charge_all-outcome [] g small le =
    inl (omega arith, ap (λ x. (some tt, record g { counter = x })) (omega arith))
charge_all-outcome (amount ∷ amounts) g small le = elim (dec_le (g.counter + amount) g.limit) [
  | yes fits ↦
      let g' : RuntimeGas = record g { counter = g.counter + amount } in
      let first : charge_all (amount ∷ amounts) g ≡ charge_all amounts g' =
        ap (continue (charge_all amounts)) (charge_gas-enough amount g small fits) in
      let sum : g.counter + amount + total amounts ≡ g.counter + (amount + total amounts) =
        omega arith in
      elim (charge_all-outcome amounts g' small fits) [
        | inl (covered, run) ↦ inl (
          omega (arith, covered),
          first ∙ run ∙ ap (λ x. (some tt, record g { counter = x })) sum,
        )
        | inr (exceeded, run) ↦ inr (omega (arith, exceeded), first ∙ run)
      ]
  | no over ↦
      let lt : g.limit < g.counter + amount = omega arith in
      inr (omega arith, ap (continue (charge_all amounts)) (charge_gas-short amount g lt))
]
