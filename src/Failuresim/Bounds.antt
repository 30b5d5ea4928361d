-- ===== src/Failuresim/Bounds.antt =====
-- internal/failuresim/operations.go: the releases of a capture stay within it.
use payment_platform.Common.{
  nonneg-add, ◌≡◌, refl, sym, subst, inl, inr, arith, some, true, ok, pos, ◌+ℤ◌, ◌≤ℤ◌, ltb_ℤ,
  Result-cases, int_laws, parts, [], ◌∷◌, ◌∙◌, >>=-eq-ok, ltb, ◌^◌,
}
use payment_platform.Common.Int.{+ℤ_parts}
use payment_platform.Ledger.Amount.{Amount, add, add-ok, fits_decimal38, magnitude}
use payment_platform.Failuresim.World.{Payment}
use payment_platform.Failuresim.Releases.{
  ReleaseKind, refunding, reversing, charging_back, amount_sum, add_or_zero, update_state,
  release_on, release_check,
}

-- What has been released of a payment is not negative and at most what was captured.
pub record IsBounded (p : Payment) : Type 0 where
  pub refunds : pos 0 ≤ℤ p.refunded
  pub reversals : pos 0 ≤ℤ p.reversed
  pub chargebacks : pos 0 ≤ℤ p.charged_back
  pub total : p.refunded +ℤ p.reversed +ℤ p.charged_back ≤ℤ p.captured

-- A check that passes: the sum of what is released with the new amount, at most the capture.
release_check-ok :
    (amount : Amount) (p : Payment)
    → release_check amount (some p) ≡ ok tt
    → (released : Amount) × (amount_sum
          (pos 0)
          (p.refunded ∷ p.reversed ∷ p.charged_back ∷ amount ∷ [])
        ≡ ok released)
      × (released ≤ℤ p.captured)
unfolding release_check
release_check-ok amount p h =
    elim (Result-cases
      (amount_sum (pos 0) (p.refunded ∷ p.reversed ∷ p.charged_back ∷ amount ∷ []))) [
        | inl (e, failed) ↦ ground arith
        | inr (released, e) ↦ (released, e, ground arith)
      ]

add-fits : (a b : Amount) {c : Amount} → add a b ≡ ok c → ltb (magnitude c) (10 ^ 38) ≡ true
unfolding add fits_decimal38
add-fits a b h = ground arith

-- The sum of four amounts, and that it fits.
amount_sum-four :
    (a b c d : Amount) {total : Amount}
    → amount_sum (pos 0) (a ∷ b ∷ c ∷ d ∷ []) ≡ ok total
    → (total ≡ a +ℤ b +ℤ c +ℤ d) × (ltb (magnitude total) (10 ^ 38) ≡ true)
unfolding amount_sum
amount_sum-four a b c d {total} h =
    let (s₁, e₁, h₁) = >>=-eq-ok (add (pos 0) a) _ h in
    let (s₂, e₂, h₂) = >>=-eq-ok (add s₁ b) _ h₁ in
    let (s₃, e₃, h₃) = >>=-eq-ok (add s₂ c) _ h₂ in
    let (s₄, e₄, h₄) = >>=-eq-ok (add s₃ d) _ h₃ in
    let q : s₄ ≡ total = ground arith in
    (
      omega (
        int_laws,
        parts q,
        parts (add-ok (pos 0) a e₁),
        parts (add-ok s₁ b e₂),
        parts (add-ok s₂ c e₃),
        parts (add-ok s₃ d e₄),
      ),
      rw (← q) (add-fits s₃ d e₄),
    )

-- A sum that does not pass a total that fits is not refused.
add_or_zero-fits :
    (a b total : Amount)
    → pos 0 ≤ℤ a
    → pos 0 ≤ℤ b
    → a +ℤ b ≤ℤ total
    → ltb (magnitude total) (10 ^ 38) ≡ true
    → add_or_zero a b ≡ a +ℤ b
unfolding add fits_decimal38
add_or_zero-fits a b total h k l m =
    let small : ltb (magnitude (a +ℤ b)) (10 ^ 38) ≡ true = ground (arith, +ℤ_parts a b) in
    rw (small, add_or_zero) refl

-- What the check says of the four amounts, and of a sum with the new one.
record IsWithin (amount part rest captured : Amount) : Type 0 where
  total : part +ℤ amount +ℤ rest ≤ℤ captured
  summed : add_or_zero part amount ≡ part +ℤ amount

within :
    (amount part rest released captured : Amount)
    → pos 0 ≤ℤ part
    → pos 0 ≤ℤ rest
    → ltb_ℤ (pos 0) amount ≡ true
    → released ≡ part +ℤ amount +ℤ rest
    → ltb (magnitude released) (10 ^ 38) ≡ true
    → released ≤ℤ captured
    → IsWithin amount part rest captured
within amount part rest released captured h k positive e fits l =
    let nonneg : pos 0 ≤ℤ amount = ground arith in
    record {
      total = rw (← e) l;
      summed = add_or_zero-fits part amount released h nonneg (omega (int_laws, parts e, k)) fits;
    }

-- A release that is checked keeps what is released of the payment within the capture, whichever of the
-- three releases it is.
pub release_on-IsBounded :
    (kind : ReleaseKind) (amount : Amount) (p : Payment)
    → ltb_ℤ (pos 0) amount ≡ true
    → release_check amount (some p) ≡ ok tt
    → IsBounded p
    → IsBounded (update_state (release_on kind amount p))
unfolding update_state release_on
release_on-IsBounded refunding amount p positive h b =
    let (released, e, l) = release_check-ok amount p h in
    let (sum, fits) = amount_sum-four p.refunded p.reversed p.charged_back amount e in
    let w =
      within amount p.refunded (p.reversed +ℤ p.charged_back) released p.captured b.refunds
        (omega (int_laws, b.reversals, b.chargebacks)) positive (sum ∙ omega int_laws) fits l in
    let grown : pos 0 ≤ℤ p.refunded +ℤ amount = nonneg-add p.refunded amount b.refunds positive in
    record {
      refunds = subst (λ x. pos 0 ≤ℤ x) (sym w.summed) grown;
      reversals = b.reversals;
      chargebacks = b.chargebacks;
      total =
          subst (λ x. x +ℤ p.reversed +ℤ p.charged_back ≤ℤ p.captured) (sym w.summed)
            (omega (int_laws, w.total));
    }
release_on-IsBounded reversing amount p positive h b =
    let (released, e, l) = release_check-ok amount p h in
    let (sum, fits) = amount_sum-four p.refunded p.reversed p.charged_back amount e in
    let w =
      within amount p.reversed (p.refunded +ℤ p.charged_back) released p.captured b.reversals
        (omega (int_laws, b.refunds, b.chargebacks)) positive (sum ∙ omega int_laws) fits l in
    let grown : pos 0 ≤ℤ p.reversed +ℤ amount = nonneg-add p.reversed amount b.reversals positive in
    record {
      refunds = b.refunds;
      reversals = subst (λ x. pos 0 ≤ℤ x) (sym w.summed) grown;
      chargebacks = b.chargebacks;
      total =
          subst (λ x. p.refunded +ℤ x +ℤ p.charged_back ≤ℤ p.captured) (sym w.summed)
            (omega (int_laws, w.total));
    }
release_on-IsBounded charging_back amount p positive h b =
    let (released, e, l) = release_check-ok amount p h in
    let (sum, fits) = amount_sum-four p.refunded p.reversed p.charged_back amount e in
    let w =
      within amount p.charged_back (p.refunded +ℤ p.reversed) released p.captured b.chargebacks
        (omega (int_laws, b.refunds, b.reversals)) positive (sum ∙ omega int_laws) fits l in
    let grown : pos 0 ≤ℤ p.charged_back +ℤ amount =
      nonneg-add p.charged_back amount b.chargebacks positive in
    record {
      refunds = b.refunds;
      reversals = b.reversals;
      chargebacks = subst (λ x. pos 0 ≤ℤ x) (sym w.summed) grown;
      total =
          subst (λ x. p.refunded +ℤ p.reversed +ℤ x ≤ℤ p.captured) (sym w.summed)
            (omega (int_laws, w.total));
    }
