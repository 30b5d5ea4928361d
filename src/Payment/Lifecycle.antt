-- ===== src/Payment/Lifecycle.antt =====
-- The life of a payment under the transitions of internal/payment/state.go.
use payment_platform.Common.{
  Bool, true, false, ok, ◌≡◌, refl, sym, ◌∙◌, ◌⊎◌, inl, inr, arith, ◌+ℤ◌, ◌≤ℤ◌, ltb_ℤ, eqb_ℤ,
  Result-cases, Bool-cases, ◌&&◌, Result, err, ltb, ◌^◌, ◌≢◌, pos,
}
use payment_platform.Common.Int.{eq_of_parts, +ℤ_parts, parts, int_laws}
use payment_platform.Ledger.Amount.{
  Amount, LedgerError, add, add-ok, is_positive, fits_decimal38, magnitude,
}
use payment_platform.Payment.State.{
  State, PaymentError, over_capture, over_refund, partially_captured, captured, settled,
  partially_refunded, refunded, reversed, disputed, charged_back, failed, transitions, state_text,
  has_state, can_transition, capture_state, refund_state,
}

-- A path of transitions that `CanTransition` admits.
pub data Reaches : State → State → Type 0 where
  stay : {s : State} → Reaches s s
  step : {s t u : State} → can_transition s t ≡ true → Reaches t u → Reaches s u

-- The settled states and those that follow them. CAPTURED is not one of them: it may still lead to
-- UNKNOWN, and from there to REVERSED or FAILED.
unfoldable pub is_cleared : State → Bool
is_cleared settled = true
is_cleared partially_refunded = true
is_cleared refunded = true
is_cleared disputed = true
is_cleared charged_back = true
is_cleared _ = false

-- The states that have no successor.
unfoldable pub is_final : State → Bool
is_final refunded = true
is_final reversed = true
is_final charged_back = true
is_final failed = true
is_final _ = false

is_cleared_step :
    (s t : State) → can_transition s t ≡ true → is_cleared s ≡ true → is_cleared t ≡ true
unfolding can_transition has_state transitions state_text is_cleared
is_cleared_step settled settled h p = refl
is_cleared_step settled _ h p = cc
is_cleared_step partially_refunded partially_refunded h p = refl
is_cleared_step partially_refunded _ h p = cc
is_cleared_step refunded refunded h p = refl
is_cleared_step refunded _ h p = cc
is_cleared_step disputed disputed h p = refl
is_cleared_step disputed _ h p = cc
is_cleared_step charged_back charged_back h p = refl
is_cleared_step charged_back _ h p = cc
is_cleared_step _ t h p = cc

-- A payment that is settled, partially refunded, refunded, disputed or charged back stays in one of these
-- five states, along every path of transitions.
pub Reaches-cleared : (s t : State) → Reaches s t → is_cleared s ≡ true → is_cleared t ≡ true
Reaches-cleared s t stay p = p
Reaches-cleared s u (step {t = t} h r) p = Reaches-cleared t u r (is_cleared_step s t h p)

is_final_step : (s t : State) → can_transition s t ≡ true → is_final s ≡ true → t ≡ s
unfolding can_transition has_state transitions state_text is_final
is_final_step refunded refunded h p = refl
is_final_step refunded _ h p = cc
is_final_step reversed reversed h p = refl
is_final_step reversed _ h p = cc
is_final_step charged_back charged_back h p = refl
is_final_step charged_back _ h p = cc
is_final_step failed failed h p = refl
is_final_step failed _ h p = cc
is_final_step _ t h p = cc

-- A final state is never left.
pub Reaches-final : (s t : State) → Reaches s t → is_final s ≡ true → t ≡ s
Reaches-final s t stay p = refl
Reaches-final s u (step {t = t} h r) p =
    let e : t ≡ s = is_final_step s t h p in Reaches-final t u r (rw e p) ∙ e

-- What a capture should lead to: it is refused if it passes the authorization, and captures the payment
-- if it captures something and leaves nothing.
pub data CaptureOutcome (authorized_amount captured_amount released : Amount)
    : Result PaymentError State → Type 0 where
  exceeded :
      ¬ (captured_amount +ℤ released ≤ℤ authorized_amount)
      → CaptureOutcome authorized_amount captured_amount released (err over_capture)
  used_up :
      captured_amount +ℤ released ≡ authorized_amount
      → pos 1 ≤ℤ captured_amount
      → CaptureOutcome authorized_amount captured_amount released (ok captured)
  part_used :
      captured_amount +ℤ released ≤ℤ authorized_amount
      → (captured_amount +ℤ released ≢ authorized_amount) ⊎ (captured_amount ≡ pos 0)
      → CaptureOutcome authorized_amount captured_amount released (ok partially_captured)

-- A sum that does not fit passes every amount that does.
over-fits :
    (a b limit : Amount) {e : LedgerError}
    → pos 0 ≤ℤ a
    → pos 0 ≤ℤ b
    → ltb (magnitude limit) (10 ^ 38) ≡ true
    → add a b ≡ err e
    → ¬ (a +ℤ b ≤ℤ limit)
unfolding add fits_decimal38
over-fits a b limit h k l e m = ground (arith, +ℤ_parts a b)

left_over :
    (c r a used : Amount)
    → pos 0 ≤ℤ c
    → used ≡ c +ℤ r
    → (eqb_ℤ used a && is_positive c) ≡ false
    → (c +ℤ r ≢ a) ⊎ (c ≡ pos 0)
left_over c r a used h m partial = elim (Bool-cases (is_positive c)) [
  | inl some_taken ↦
      inl (λ q. let same = parts (m ∙ q) in ground (arith, same, some_taken, partial))
  | inr none_taken ↦ inr (eq_of_parts c (pos 0) (ground arith))
]

-- Of amounts of at least zero, with an authorization of at most 38 digits, a capture is refused exactly if
-- it passes the authorization together with what was released, also when the sum overflows; it ends in
-- CAPTURED exactly if it is positive and the sum is the authorization, and else in PARTIALLY_CAPTURED.
pub capture_state-CaptureOutcome :
    (authorized_amount captured_amount released : Amount)
    → pos 0 ≤ℤ captured_amount
    → pos 0 ≤ℤ released
    → ltb (magnitude authorized_amount) (10 ^ 38) ≡ true
    → CaptureOutcome authorized_amount captured_amount released
        (capture_state authorized_amount captured_amount released)
unfolding capture_state
capture_state-CaptureOutcome a c r h k l = elim (Result-cases (add c r)) [
  | inl (e, overflow) ↦ rw (overflow, capture_state) (exceeded (over-fits c r a h k l overflow))
  | inr (used, e) ↦
      let m = add-ok c r e in
      elim (Bool-cases (ltb_ℤ a used)) [
        | inl over ↦ rw (e, capture_state, over) (exceeded (rw (← m) (ground arith)))
        | inr within ↦ elim (Bool-cases (eqb_ℤ used a && is_positive c)) [
          | inl full ↦
              rw (e, capture_state, within, full)
                (used_up (sym m ∙ eq_of_parts used a (ground arith)) (ground arith))
          | inr partial ↦
              rw (e, capture_state, within, partial)
                (part_used (rw (← m) (ground arith)) (left_over c r a used h m partial))
        ]
      ]
]

-- What a refund or a chargeback should lead to: it is refused if both pass the capture together, and if
-- they use it up the payment is charged back when nothing was refunded.
pub data RefundOutcome (captured_amount refunded_amount charged_back_amount : Amount)
    : Result PaymentError State → Type 0 where
  passed :
      ¬ (refunded_amount +ℤ charged_back_amount ≤ℤ captured_amount)
      → RefundOutcome captured_amount refunded_amount charged_back_amount (err over_refund)
  all_charged_back :
      charged_back_amount ≡ captured_amount
      → refunded_amount ≡ pos 0
      → pos 1 ≤ℤ charged_back_amount
      → RefundOutcome captured_amount refunded_amount charged_back_amount (ok charged_back)
  all_returned :
      refunded_amount +ℤ charged_back_amount ≡ captured_amount
      → (pos 1 ≤ℤ refunded_amount) ⊎ (charged_back_amount ≡ pos 0)
      → RefundOutcome captured_amount refunded_amount charged_back_amount (ok refunded)
  part_returned :
      refunded_amount +ℤ charged_back_amount ≤ℤ captured_amount
      → refunded_amount +ℤ charged_back_amount ≢ captured_amount
      → RefundOutcome captured_amount refunded_amount charged_back_amount (ok partially_refunded)

alone : (f b a : Amount) → f ≡ pos 0 → f +ℤ b ≡ a → b ≡ a
alone f b a h e = let p = parts h in let q = parts e in omega (int_laws, p, q)

-- Of amounts of at least zero, with a capture of at most 38 digits, refunds and chargebacks are refused
-- exactly if they pass the capture together, also when their sum overflows; the payment ends in
-- CHARGED_BACK exactly if a positive chargeback makes up the capture and nothing was refunded, in REFUNDED
-- if both use the capture up otherwise, and else in PARTIALLY_REFUNDED.
pub refund_state-RefundOutcome :
    (captured_amount refunded_amount charged_back_amount : Amount)
    → pos 0 ≤ℤ refunded_amount
    → pos 0 ≤ℤ charged_back_amount
    → ltb (magnitude captured_amount) (10 ^ 38) ≡ true
    → RefundOutcome captured_amount refunded_amount charged_back_amount
        (refund_state captured_amount refunded_amount charged_back_amount)
unfolding refund_state
refund_state-RefundOutcome a f b h k l = elim (Result-cases (add f b)) [
  | inl (e, overflow) ↦ rw (overflow, refund_state) (passed (over-fits f b a h k l overflow))
  | inr (returned, e) ↦
      let m = add-ok f b e in
      elim (Bool-cases (ltb_ℤ a returned)) [
        | inl over ↦ rw (e, refund_state, over) (passed (rw (← m) (ground arith)))
        | inr within ↦ elim (Bool-cases (eqb_ℤ returned a)) [
          | inl full ↦
              let total = sym m ∙ eq_of_parts returned a (ground arith) in
              elim (Bool-cases (is_positive b && eqb_ℤ f (pos 0))) [
                | inl only ↦
                    rw (e, refund_state, within, full, only)
                      (let none_back : f ≡ pos 0 = eq_of_parts f (pos 0) (ground arith) in
                        all_charged_back (alone f b a none_back total) none_back (ground arith))
                | inr mixed ↦
                    rw (e, refund_state, within, full, mixed) (all_returned total (ground arith))
              ]
          | inr partial ↦
              rw (e, refund_state, within, partial)
                (part_returned (rw (← m) (ground arith))
                  (λ q. let same = parts (m ∙ q) in ground (arith, same, partial)))
        ]
      ]
]
