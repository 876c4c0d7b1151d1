-- ===== src/Prelude/Numbers.antt =====
-- Exact fractions for the numbers that the program writes with a decimal point, and the rounding
-- of JavaScript's `Math.round` on them.
use Prim.Native.Nat.{ℕ, ◌+◌, ◌*◌, ◌/◌}
use tether_ddns.Prelude.Tests.{nat_beq, if◌then◌else◌}

pub record Ratio : Type 0 where
  pub num : ℕ
  pub den : ℕ

-- `Math.round(n / d)`: to the nearest whole number, a half goes up.
abbrev pub round_div : ℕ → ℕ → ℕ
round_div n d = (2 * n + d) / (2 * d)

-- A write to a heap of numbered cells.
abbrev pub update {ℓ} : {A : Type ℓ} → (ℕ → A) → ℕ → A → ℕ → A
update f i v j = if nat_beq i j then v else f j
