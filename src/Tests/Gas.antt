-- ===== src/Tests/Gas.antt =====
-- Gas at concrete inputs.
use enigma_core.Prelude.{ℕ, ◌+◌, ◌<◌, ◌≤◌, ◌≡◌, ◌⊎◌, refl, List, [], ◌∷◌, none, some, arith}
use enigma_core.Gas.{RuntimeGas, default_costs, exhausted, used_gas}
use enigma_core.Gas.Charges.{charge_all, total, charge_all-outcome}

abbrev started : RuntimeGas
started = record { counter = 10; limit = 100; refund = 0; costs = default_costs }

used : used_gas (record started { refund = 5 }) ≡ 5
unfolding used_gas
used = refl

abbrev charges : List ℕ
charges = 50 ∷ 30 ∷ 20 ∷ []

charge_all-outcome_example :
    ((10 + total charges ≤ 100)
      × (charge_all charges started ≡ (some tt, record started { counter = 10 + total charges })))
    ⊎ ((100 < 10 + total charges) × (charge_all charges started ≡ (none, exhausted started)))
charge_all-outcome_example = charge_all-outcome charges started (omega arith) (omega arith)
