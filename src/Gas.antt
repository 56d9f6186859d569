-- ===== src/Gas.antt =====
-- The gas of a contract's execution: enigma-runtime-t/src/gas.rs and the calls on gas of lib.rs.
pub mod Charges
use enigma_core.Prelude.{
  ℕ, ◌+◌, ◌-◌, ◌*◌, ◌%◌, ◌^◌, Bool, true, false, Option, none, some, List, [], ◌∷◌, length, leb,
  ltb, if◌then◌else◌,
}

pub record RuntimeWasmCosts : Type 0 where
  pub write_value : ℕ
  pub write_additional_byte : ℕ
  pub deploy_byte : ℕ
  pub execution : ℕ

abbrev pub default_costs : RuntimeWasmCosts
default_costs = record {
  write_value = 10;
  write_additional_byte = 1;
  deploy_byte = 1;
  execution = 10000;
}

pub record RuntimeGas : Type 0 where
  pub counter : ℕ
  pub limit : ℕ
  pub refund : ℕ
  pub costs : RuntimeWasmCosts

-- `checked_add` and `checked_mul` of `u64`.
abbrev pub checked : ℕ → Option ℕ
checked n = if ltb n (2 ^ 64) then some n else none

unfoldable pub charge_gas_if_enough : ℕ → RuntimeGas → Bool × RuntimeGas
charge_gas_if_enough amount g = elim (checked (g.counter + amount)) [
  | none ↦ (false, g)
  | some val ↦
      if ltb g.limit val then (false, g) else (true, record g { counter = g.counter + amount })
]

-- What a call gives back: `none` is the error `GasLimit`.
abbrev pub Charged : Type 0 → Type 0
Charged A = Option A × RuntimeGas

-- The counter of a run that is out of gas.
abbrev pub exhausted : RuntimeGas → RuntimeGas
exhausted g = record g { counter = g.limit }

unfoldable pub charge_gas : ℕ → RuntimeGas → Charged (Unit {0})
unfolding charge_gas_if_enough
charge_gas amount g =
    let (enough, g') = charge_gas_if_enough amount g in
    elim enough [ true ↦ (some tt, g') | false ↦ (none, exhausted g') ]

-- The product wraps.
unfoldable pub charge_deployment : List ℕ → RuntimeGas → Charged (Unit {0})
charge_deployment bytecode g = charge_gas ((length bytecode * g.costs.deploy_byte) % 2 ^ 64) g

unfoldable pub charge_execution : RuntimeGas → Charged (Unit {0})
charge_execution g = charge_gas g.costs.execution g

-- `treat_gas_overflow` of a product and of its sum with the constant cost.
abbrev pub charged_sum : Option ℕ → RuntimeGas → Charged ℕ
charged_sum none g = (none, exhausted g)
charged_sum (some cost) g = elim (checked (g.costs.write_value + cost)) [
  | none ↦ (none, exhausted g)
  | some result ↦ (some result, g)
]

-- `treat_gas_underflow` of a product and of its sum with the refund.
abbrev pub refunded : Option ℕ → RuntimeGas → RuntimeGas
refunded none g = record g { refund = g.limit }
refunded (some cost) g = elim (checked (g.refund + cost)) [
  | none ↦ record g { refund = g.limit }
  | some refund ↦ record g { refund = refund }
]

-- The length of the value that the key has is the crate's serialization's, 0 for `Null`.
unfoldable pub calculate_gas_for_writing : ℕ → ℕ → RuntimeGas → Charged ℕ
calculate_gas_for_writing new_value_len old_value_len g =
    if leb old_value_len new_value_len
    then charged_sum (checked ((new_value_len - old_value_len) * g.costs.write_additional_byte)) g
    else (
      some 0,
      refunded (checked ((old_value_len - new_value_len) * g.costs.write_additional_byte)) g,
    )

-- The gas that a result reports.
unfoldable pub used_gas : RuntimeGas → ℕ
used_gas g = if leb g.refund g.counter then g.counter - g.refund else 0
