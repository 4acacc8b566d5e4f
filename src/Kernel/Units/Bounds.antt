-- ===== src/Kernel/Units/Bounds.antt =====
-- What the conversions promise: the largest number of lines within the budget, and the least number
-- of aggregation periods that cover a regulation period.
use cl_mem_regulation.Common.{
  ℕ, ◌+◌, ◌-◌, ◌*◌, ◌/◌, ◌≤◌, ◌<◌, ◌≡◌, ap, ◌↔◌, ◌∙◌, arith, two31, two32, u32, sext64,
}
use mathlib.Core.Path.{ap₂}
use native.Mathlib.Nat.{
  div-le_self, mod-eq_of_lt, div-mul-le_self, lt-div-mul-add, div-eq_of_lt-le, le-div_iff_mul-le,
}
use cl_mem_regulation.Kernel.Units.{convert_mb_to_events, ceiling}

-- Regulation periods that start in a second, rounded down.
abbrev pub periods_per_second : ℕ → ℕ
periods_per_second period_us = 1000000 / period_us

-- No step of the conversion overflows in the range that the module accepts.
convert_mb_to_events_plain :
    (period_us mb : ℕ)
    → 0 < period_us
    → period_us ≤ 1000000
    → mb < two31
    → convert_mb_to_events period_us mb ≡ mb * 1048576 / (64 * periods_per_second period_us)
unfolding convert_mb_to_events
convert_mb_to_events_plain period_us mb pos le small =
    let e : sext64 mb ≡ mb = ground arith in
    let f : sext64 period_us ≡ period_us = ground arith in
    let q : 1000000 / period_us ≤ 1000000 = div-le_self 1000000 period_us in
    rw (e, f) (ap₂ ◌/◌ (omega arith) (mod-eq_of_lt (omega arith)))

-- The sum of `ceiling` does not overflow for operands of 30 bits.
ceiling_plain : (a b : ℕ) → a + b ≤ two31 → 0 < b → 0 < a → ceiling a b ≡ (a + b - 1) / b
unfolding ceiling
ceiling_plain a b small pos some =
    let e : u32 (a + b + (two32 - 1)) ≡ a + b - 1 = omega arith in rw e (ground arith)

-- The budget in events is the largest number of cache lines that, at the rounded number of periods
-- in a second, stays within the budget in MB/s.
pub convert_mb_to_events_bounds :
    (period_us mb : ℕ)
    → 0 < period_us
    → period_us ≤ 1000000
    → mb < two31
    → let bytes = 64 * periods_per_second period_us in
      let events = convert_mb_to_events period_us mb in
      (events * bytes ≤ mb * 1048576) × (mb * 1048576 < (events + 1) * bytes)
convert_mb_to_events_bounds period_us mb pos le small =
    let divisor = 64 * periods_per_second period_us in
    let some : 1 ≤ 1000000 / period_us = (le-div_iff_mul-le pos).1 (omega arith) in
    let below = lt-div-mul-add {a = mb * 1048576} {b = divisor} (omega arith) in
    rw (convert_mb_to_events_plain period_us mb pos le small)
      (div-mul-le_self (mb * 1048576) divisor, grind arith)

-- Above half a second one period starts in a second, so every such period is given the budget of a
-- whole second: the rate that the budget allows goes up to twice the one that was set.
convert_mb_to_events_long_period :
    (period_us mb : ℕ)
    → 500000 < period_us
    → period_us ≤ 1000000
    → mb < two31
    → convert_mb_to_events period_us mb ≡ mb * 16384
convert_mb_to_events_long_period period_us mb lo hi small =
    let one : 1000000 / period_us ≡ 1 =
      div-eq_of_lt-le {k = 1} period_us (omega arith) (omega arith) in
    convert_mb_to_events_plain period_us mb (omega arith) hi small ∙ rw one (omega arith)

-- The interval is the least number of aggregation periods that cover a regulation period.
ceiling_lem :
    (a b : ℕ) → a + b ≤ two31 → 0 < b → 0 < a → (a ≤ ceiling a b * b) × (ceiling a b * b < a + b)
ceiling_lem a b small pos some =
    let covers = lt-div-mul-add {a = a + b - 1} {b = b} pos in
    let least = div-mul-le_self (a + b - 1) b in
    rw (ceiling_plain a b small pos some) (omega arith, omega arith)

-- It is one aggregation period exactly when the regulation period is no longer than that.
pub ceiling-eq-one : (a b : ℕ) → a + b ≤ two31 → 0 < b → 0 < a → (ceiling a b ≡ 1) ↔ (a ≤ b)
ceiling-eq-one a b small pos some =
    let covers = (ceiling_lem a b small pos some).0 in
    (
      λ one. omega (arith, ap (λ c. c * b) one),
      λ le.
          ceiling_plain a b small pos some
          ∙ div-eq_of_lt-le {k = 1} b {m = a + b - 1} (omega arith) (omega arith),
    )
