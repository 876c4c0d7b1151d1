-- ===== src/LiveConnection/Bounds.antt =====
-- The range of the reconnect delay (frontend/src/liveConnection.ts, `nextDelay`).
use native.Mathlib.Nat.{
  le_of_mul-le-mul_left, mul-le-mul_right, lt_of_mul-lt-mul_left, mul-le-mul, mul-le-mul_left,
  div-mul-le_self, lt-div-mul-add, pow-suc, pow-zero,
}
use tether_ddns.Prelude.{ℕ, zero, suc, ◌+◌, ◌-◌, ◌*◌, ◌^◌, ◌≤◌, ◌<◌, arith, Ratio, round_div}
use tether_ddns.LiveConnection.State.{LiveConnectionOptions, default_options}
use tether_ddns.LiveConnection.Backoff.{base_den, base_num, spread_num, next_delay}

-- What the rounding promises: it is within one half of the fraction.
round_div_bounds :
    (n d : ℕ) → 0 < d → (2 * d * round_div n d ≤ 2 * n + d) × (2 * n < 2 * d * round_div n d + d)
round_div_bounds n d h = (
  omega (arith, div-mul-le_self (2 * n + d) (2 * d)),
  omega (arith, lt-div-mul-add {a = 2 * n + d} {b = 2 * d} (omega arith)),
)

pow_pos : (b a : ℕ) → 0 < b → 0 < b ^ a
pow_pos b zero h = rw pow-zero (omega arith)
pow_pos b (suc a) h = rw pow-suc (grind (arith, pow_pos b a h))

pow_mono : (b c a : ℕ) → b ≤ c → b ^ a ≤ c ^ a
pow_mono b c zero h = rw pow-zero (rw pow-zero (omega arith))
pow_mono b c (suc a) h = rw pow-suc (rw pow-suc (mul-le-mul (pow_mono b c a h) h))

-- The two factors of a delay stay within what the options allow. `random()` is below 1.
module _ (o : LiveConnectionOptions) (random : Ratio) (attempt : ℕ)
    (factor_den : 0 < o.backoff_factor.den) (jitter_den : 0 < o.jitter_ratio.den)
    (jitter_small : o.jitter_ratio.num ≤ o.jitter_ratio.den) (drawn : random.num < random.den) where
  base-le : base_num o attempt ≤ o.max_backoff_ms * base_den o attempt
  base-le = omega arith

  spread-le : spread_num o random ≤ random.den * (o.jitter_ratio.den + o.jitter_ratio.num)
  spread-le = grind (arith, mul-le-mul_right {m = random.num} {n = random.den} o.jitter_ratio.num)

  spread-ge : random.den * (o.jitter_ratio.den - o.jitter_ratio.num) ≤ spread_num o random
  spread-ge = grind arith

  abbrev scale : ℕ
  scale = base_den o attempt * random.den

  scale_pos : 0 < scale
  scale_pos = grind (arith, pow_pos o.backoff_factor.den attempt factor_den)

  den_pos : 0 < base_den o attempt * (o.jitter_ratio.den * random.den)
  den_pos = grind (arith, pow_pos o.backoff_factor.den attempt factor_den)

  -- No delay is longer than the cap with the whole jitter on top, rounded: delay ≤ max * (1 +
  -- jitter) + 1/2, whatever the attempt, for fractions with a denominator, a jitter of at most 1
  -- and a draw below 1.
  pub next_delay-le :
      2 * o.jitter_ratio.den * next_delay o random attempt
      ≤ 2 * o.max_backoff_ms * (o.jitter_ratio.den + o.jitter_ratio.num) + o.jitter_ratio.den
  unfolding next_delay
  next_delay-le =
      le_of_mul-le-mul_left {k = scale}
        (omega (
          arith,
          (round_div_bounds (base_num o attempt * spread_num o random)
              (base_den o attempt * (o.jitter_ratio.den * random.den)) den_pos).0,
          mul-le-mul base-le spread-le,
        ))
        scale_pos

  -- No delay is shorter than the first base with the whole jitter taken off, rounded: min * (1 -
  -- jitter) < delay + 1/2, whatever the attempt, for fractions with a denominator, a jitter of at
  -- most 1, a draw below 1, a factor of at least 1 and a cap that is not below min.
  pub lt-next_delay :
      o.backoff_factor.den ≤ o.backoff_factor.num
      → o.min_backoff_ms ≤ o.max_backoff_ms
      → 2 * o.min_backoff_ms * (o.jitter_ratio.den - o.jitter_ratio.num)
        < 2 * o.jitter_ratio.den * next_delay o random attempt + o.jitter_ratio.den
  unfolding next_delay
  lt-next_delay grows capped = lt_of_mul-lt-mul_left scale (
      omega (
        arith,
        (round_div_bounds (base_num o attempt * spread_num o random)
            (base_den o attempt * (o.jitter_ratio.den * random.den)) den_pos).1,
        mul-le-mul base-ge spread-ge,
      ))
    where
      base-ge : o.min_backoff_ms * base_den o attempt ≤ base_num o attempt
      base-ge = omega (
        arith,
        mul-le-mul_right (base_den o attempt) capped,
        mul-le-mul_left o.min_backoff_ms
            (pow_mono o.backoff_factor.den o.backoff_factor.num attempt grows),
      )

-- With the default options every reconnect waits between 0.4 and 18 seconds, however many
-- attempts have failed and whatever number below 1 `random()` draws.
pub default_delay_bounds :
    (random : Ratio) (attempt : ℕ)
    → random.num < random.den
    → (400 ≤ next_delay default_options random attempt)
      × (next_delay default_options random attempt ≤ 18000)
default_delay_bounds random attempt drawn = (
  omega (
    arith,
    lt-next_delay default_options random attempt (omega arith) (omega arith) (omega arith) drawn
        (omega arith) (omega arith),
  ),
  omega (
    arith,
    next_delay-le default_options random attempt (omega arith) (omega arith) (omega arith) drawn,
  ),
)
