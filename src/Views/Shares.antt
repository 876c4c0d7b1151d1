-- ===== src/Views/Shares.antt =====
-- The percentages of frontend/src/components/ReachabilityPanel.tsx.
use native.Mathlib.Nat.{div-mul-le_self, lt-div-mul-add, lt_of_mul-lt-mul_left}
use tether_ddns.Prelude.{
  ℕ, ◌+◌, ◌*◌, ◌/◌, ◌%◌, ◌≤◌, ◌<◌, ◌≡◌, ◌↔◌, ap, ◌&&◌, [], ◌∷◌, arith, ltb, round_div, Bool-cases,
  inl, inr,
}
use tether_ddns.Prelude.Text.{Text, lit, num}
use tether_ddns.Views.Reachability.{format_pct}

-- A whole number of tenths as a percentage.
abbrev pub percent_text : ℕ → Text
percent_text tenths = num (tenths / 10) ∷ lit "." ∷ num (tenths % 10) ∷ lit "%" ∷ []

-- The number before the dot and the one behind it, of a text that is such a percentage.
abbrev tenths_in : Text → ℕ
tenths_in (num w ∷ lit s ∷ num f ∷ rest) = 10 * w + f + 1
tenths_in _ = 0

tenths_bounds :
    (n d : ℕ)
    → 0 < d
    → (2 * d * round_div (1000 * n) d ≤ 2000 * n + d)
      × (2000 * n < 2 * d * round_div (1000 * n) d + d)
tenths_bounds n d h = (
  omega (arith, div-mul-le_self (2 * (1000 * n) + d) (2 * d)),
  omega (arith, lt-div-mul-add {a = 2 * (1000 * n) + d} {b = 2 * d} (omega arith)),
)

tenths_zero : (n d t : ℕ) → 2000 * n < 2 * d * t + d → t ≡ 0 → 2000 * n < d
tenths_zero n d t h e = grind arith

tenths_full : (n d t : ℕ) → 2 * d * t ≤ 2000 * n + d → t ≡ 1000 → 1999 * d ≤ 2000 * n
tenths_full n d t h e = grind arith

percent_tenths : (s t : ℕ) → percent_text s ≡ percent_text t → s ≡ t
percent_tenths s t e = omega (arith, ap tenths_in e)

no_time : (d : ℕ) → 0 < d → round_div (1000 * 0) d ≡ 0
no_time d h =
    let t : ℕ = round_div (1000 * 0) d in
    let below : t < 1 = lt_of_mul-lt-mul_left (2 * d) (omega (arith, (tenths_bounds 0 d h).0)) in
    omega (arith, below)

whole_time : (d : ℕ) → 0 < d → round_div (1000 * d) d ≡ 1000
whole_time d h =
    let t : ℕ = round_div (1000 * d) d in
    let (low, high) = tenths_bounds d d h in
    let below : t < 1001 = lt_of_mul-lt-mul_left (2 * d) (omega (arith, low)) in
    let above : 999 < t = lt_of_mul-lt-mul_left (2 * d) (omega (arith, high)) in
    omega (arith, below, above)

module _ (n d : ℕ) (pos : 0 < d) (small : n ≤ d) where
  abbrev shown : Text
  shown = format_pct (record { num = n; den = d })

  abbrev tenths : ℕ
  tenths = round_div (1000 * n) d

  zero_only : shown ≡ percent_text 0 → n ≡ 0
  unfolding format_pct
  zero_only = elim (Bool-cases (ltb 0 n && ltb (1000 * n) d)) [
    | inl tiny ↦ rw tiny (λ e. absurd (ground (arith, ap tenths_in e)))
    | inr other ↦ elim (Bool-cases (ltb (999 * d) (1000 * n) && ltb n d)) [
      | inl most ↦ rw (other, most) (λ e. absurd (ground (arith, ap tenths_in e)))
      | inr rest ↦
          rw (other, rest)
            (λ e.
              let z = percent_tenths tenths 0 e in
              let low = tenths_zero n d tenths (tenths_bounds n d pos).1 z in
              ground (arith, low, other))
    ]
  ]

  full_only : shown ≡ percent_text 1000 → n ≡ d
  unfolding format_pct
  full_only = elim (Bool-cases (ltb 0 n && ltb (1000 * n) d)) [
    | inl tiny ↦ rw tiny (λ e. absurd (ground (arith, ap tenths_in e)))
    | inr other ↦ elim (Bool-cases (ltb (999 * d) (1000 * n) && ltb n d)) [
      | inl most ↦ rw (other, most) (λ e. absurd (ground (arith, ap tenths_in e)))
      | inr rest ↦
          rw (other, rest)
            (λ e.
              let z = percent_tenths tenths 1000 e in
              let high = tenths_full n d tenths (tenths_bounds n d pos).0 z in
              ground (arith, high, rest))
    ]
  ]

zero_shown : (n d : ℕ) → 0 < d → n ≡ 0 → format_pct (record { num = n; den = d }) ≡ percent_text 0
unfolding format_pct
zero_shown n d pos e = rw e (rw (no_time d pos) (ground arith))

full_shown :
    (n d : ℕ) → 0 < d → n ≡ d → format_pct (record { num = n; den = d }) ≡ percent_text 1000
unfolding format_pct
full_shown n d pos e = rw e (rw (whole_time d pos) (ground arith))

-- A share of a time that is not empty is shown as "0.0%" exactly if it is nothing, and as "100.0%"
-- exactly if it is all of it, however close to either it is.
pub format_pct_lem :
    (n d : ℕ)
    → 0 < d
    → n ≤ d
    → let shown = format_pct (record { num = n; den = d }) in
      ((shown ≡ percent_text 0) ↔ (n ≡ 0)) × ((shown ≡ percent_text 1000) ↔ (n ≡ d))
format_pct_lem n d pos small =
    ((zero_only n d pos small, zero_shown n d pos), (full_only n d pos small, full_shown n d pos))
