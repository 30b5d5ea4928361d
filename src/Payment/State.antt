-- ===== src/Payment/State.antt =====
-- internal/payment/state.go: the states of a payment, their transitions, and the state that a capture or
-- a refund leads to.
use payment_platform.Common.{
  String, str_eq, Bool, false, ◌&&◌, ◌||◌, List, [], ◌∷◌, Result, ok, err, ltb_ℤ, eqb_ℤ, pos,
  if◌then◌else◌,
}
use payment_platform.Ledger.Amount.{Amount, add, is_positive}

-- The thirteen states that are declared; any other text has no transitions in the source.
pub data State : Type 0 where
  created authorized held partially_captured captured settled partially_refunded refunded : State
  reversed disputed charged_back failed unknown : State

pub data PaymentError : Type 0 where
  invalid_transition over_capture over_refund : PaymentError

-- `transitions`
unfoldable pub transitions : State → List State
transitions created = authorized ∷ held ∷ failed ∷ unknown ∷ []
transitions authorized = held ∷ captured ∷ reversed ∷ failed ∷ unknown ∷ []
transitions held = partially_captured ∷ captured ∷ reversed ∷ unknown ∷ []
transitions partially_captured = captured ∷ reversed ∷ unknown ∷ []
transitions captured =
    settled ∷ partially_refunded ∷ refunded ∷ disputed ∷ charged_back ∷ unknown ∷ []
transitions settled = partially_refunded ∷ refunded ∷ disputed ∷ charged_back ∷ []
transitions partially_refunded = refunded ∷ disputed ∷ charged_back ∷ []
transitions disputed = charged_back ∷ settled ∷ partially_refunded ∷ refunded ∷ []
transitions unknown = authorized ∷ held ∷ captured ∷ settled ∷ failed ∷ reversed ∷ []
transitions _ = []

-- The text of a state.
unfoldable pub state_text : State → String
state_text created = "CREATED"
state_text authorized = "AUTHORIZED"
state_text held = "HELD"
state_text partially_captured = "PARTIALLY_CAPTURED"
state_text captured = "CAPTURED"
state_text settled = "SETTLED"
state_text partially_refunded = "PARTIALLY_REFUNDED"
state_text refunded = "REFUNDED"
state_text reversed = "REVERSED"
state_text disputed = "DISPUTED"
state_text charged_back = "CHARGED_BACK"
state_text failed = "FAILED"
state_text unknown = "UNKNOWN"

abbrev pub same_state : State → State → Bool
same_state a b = str_eq (state_text a) (state_text b)

unfoldable pub has_state : State → List State → Bool
has_state s [] = false
has_state s (t ∷ ts) = same_state t s || has_state s ts

unfoldable pub can_transition : State → State → Bool
can_transition from to = same_state from to || has_state to (transitions from)

unfoldable pub validate_transition : State → State → Result PaymentError (Unit {0})
validate_transition from to = if can_transition from to then ok tt else err invalid_transition

unfoldable pub capture_state : Amount → Amount → Amount → Result PaymentError State
capture_state authorized_amount captured_amount released = elim (add captured_amount released) [
  | err _ ↦ err over_capture
  | ok used ↦
      if ltb_ℤ authorized_amount used
      then err over_capture
      else if eqb_ℤ used authorized_amount && is_positive captured_amount
      then ok captured
      else ok partially_captured
]

unfoldable pub refund_state : Amount → Amount → Amount → Result PaymentError State
refund_state captured_amount refunded_amount charged_back_amount =
    elim (add refunded_amount charged_back_amount) [
      | err _ ↦ err over_refund
      | ok returned ↦
          if ltb_ℤ captured_amount returned
          then err over_refund
          else if eqb_ℤ returned captured_amount
          then (if is_positive charged_back_amount && eqb_ℤ refunded_amount (pos 0)
              then ok charged_back
              else ok refunded)
          else ok partially_refunded
    ]
