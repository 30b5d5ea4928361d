-- ===== src/Fx/Rounding.antt =====
-- Rounding in `Convert` of internal/fx/service.go.
use payment_platform.Common.{
  ℕ, ◌+◌, ◌*◌, ◌/◌, ◌%◌, ◌≤◌, ◌<◌, pos, pos_part, ◌≡◌, ◌⊎◌, inl, inr, arith, true, false, not, ◌||◌,
  ok, Bool-cases, ltb, ◌==◌, sym,
}
use payment_platform.Ledger.Amount.{Amount, fits_decimal38, is_not_positive}
use payment_platform.Fx.Convert.{
  RoundingRule, floor, ceiling, half_even, other_rule, is_rule, round, amount_of, convert,
}
use native.Mathlib.Nat.{div-add-mod', mod-lt}

-- The number that a rule rounds `product / denominator` to: below it, above it, or next to it with a tie
-- going to the even number.
abbrev pub IsRounded : RoundingRule → ℕ → ℕ → ℕ → Type 0
IsRounded floor product denominator q =
    (q * denominator ≤ product) × (product < q * denominator + denominator)
IsRounded ceiling product denominator q =
    (product ≤ q * denominator) × (q * denominator < product + denominator)
IsRounded half_even product denominator q =
    ((2 * (q * denominator) < 2 * product + denominator)
      × (2 * product < 2 * (q * denominator) + denominator))
    ⊎ (((2 * (q * denominator) ≡ 2 * product + denominator)
          ⊎ (2 * product ≡ 2 * (q * denominator) + denominator))
        × (q % 2 ≡ 0))
IsRounded (other_rule s) product denominator q = ⊥

up : (q d : ℕ) → (q + 1) * d ≡ q * d + d
up q d = grind arith

-- A quotient and its remainder, rounded by a rule.
module _ (product denominator q r : ℕ) (e : q * denominator + r ≡ product)
    (small : r < denominator) where
  floor-IsRounded : IsRounded floor product denominator (round floor q r denominator)
  unfolding round
  floor-IsRounded = omega arith

  ceiling-IsRounded : IsRounded ceiling product denominator (round ceiling q r denominator)
  unfolding round
  ceiling-IsRounded = elim (Bool-cases (r == 0)) [
    | inl exact ↦ rw exact (ground arith)
    | inr above ↦ rw (above, up q denominator) (ground arith)
  ]

  half_even-IsRounded : IsRounded half_even product denominator (round half_even q r denominator)
  unfolding round
  half_even-IsRounded = elim (Bool-cases (2 * r == denominator)) [
    | inr apart ↦ elim (Bool-cases (ltb denominator (2 * r))) [
      | inl rise ↦ rw (rise, up q denominator) (inl (ground arith, ground arith))
      | inr stay ↦ rw (stay, apart) (inl (ground arith, ground arith))
    ]
    | inl tie ↦ elim (Bool-cases (q % 2 == 1)) [
      | inl odd ↦
          let not_above : ltb denominator (2 * r) ≡ false = ground arith in
          rw (not_above, tie, odd, up q denominator) (inr (inl (ground arith), ground arith))
      | inr even ↦
          let not_above : ltb denominator (2 * r) ≡ false = ground arith in
          rw (not_above, tie, even) (inr (inr (ground arith), ground arith))
    ]
  ]

round-IsRounded :
    (rule : RoundingRule) (product denominator : ℕ)
    → 0 < denominator
    → is_rule rule ≡ true
    → IsRounded rule product denominator
        (round rule (product / denominator) (product % denominator) denominator)
round-IsRounded floor p d h k = floor-IsRounded p d (p / d) (p % d) (div-add-mod' p d) (mod-lt p h)
round-IsRounded ceiling p d h k =
    ceiling-IsRounded p d (p / d) (p % d) (div-add-mod' p d) (mod-lt p h)
round-IsRounded half_even p d h k =
    half_even-IsRounded p d (p / d) (p % d) (div-add-mod' p d) (mod-lt p h)
round-IsRounded (other_rule s) p d h k = cc

-- A conversion that succeeds gives the exact quotient of the base times the numerator by the
-- denominator, rounded by the rule, and the result fits 38 digits.
pub convert-IsRounded :
    (base numerator denominator : Amount) (rule : RoundingRule) {amount : Amount}
    → convert base numerator denominator rule ≡ ok amount
    → (q : ℕ) × (amount ≡ pos q)
      × (fits_decimal38 amount ≡ true)
      × IsRounded rule (pos_part base * pos_part numerator) (pos_part denominator) q
unfolding convert amount_of
convert-IsRounded base numerator denominator rule {amount} h =
    elim (Bool-cases (
      is_not_positive base
      || (is_not_positive numerator || (is_not_positive denominator || not (is_rule rule))))) [
        | inl bad ↦ ground (arith, rw bad at h)
        | inr good ↦
            let product : ℕ = pos_part base * pos_part numerator in
            let q =
              round rule (product / pos_part denominator) (product % pos_part denominator)
                (pos_part denominator) in
            elim (Bool-cases (fits_decimal38 (pos q))) [
              | inr large ↦ ground (arith, rw (good, large) at h)
              | inl fits ↦
                  let k = rw (good, fits) at h in
                  let e : pos q ≡ amount = cc in
                  (
                    q,
                    sym e,
                    rw (← e) fits,
                    round-IsRounded rule product (pos_part denominator) (ground arith)
                        (ground arith),
                  )
            ]
      ]
