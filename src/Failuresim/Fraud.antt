-- ===== src/Failuresim/Fraud.antt =====
-- internal/failuresim/saga_fraud_external.go: verdicts of fraud that arrive late, by logical ticks.
pub mod Reversal
use payment_platform.Common.{
  ℕ, ◌+◌, ◌%◌, ◌^◌, pos, String, str_eq, Bool, true, false, not, ◌||◌, ◌&&◌, some, none, List, [],
  ◌∷◌, ◌++◌, if◌then◌else◌, leb, eqb_ℤ, Result, ok, err,
}
use payment_platform.Common.Dict.{Dict, lookup, insert, modify}
use payment_platform.Ledger.Amount.{Amount, sub, is_negative, invalid_posting, to_string}
use payment_platform.Failuresim.Types.{
  Error, ledger_error, payment_not_found, effect_conflict, refund_exceeded, no_quorum,
  merchant_account, user_account, authority_consumed_account,
}
use payment_platform.Failuresim.Hashing.{Primitives, request_fingerprint}
use payment_platform.Failuresim.Book.{post_locked}
use payment_platform.Failuresim.World.{World, Payment, RegionState, FraudVerdict, has_quorum}
use payment_platform.Failuresim.Credits.{Credit, credit_lines, credit_plan, credit_apply}
use payment_platform.Failuresim.Releases.{sum_or_zero, update_state, release_on, charging_back}
use Prim.Native.String
use Prim.Native.String.{compare}
use text.Mathlib.Text.{is_lt}

new_verdict : String → String → Bool → ℕ → FraudVerdict
new_verdict event payment fraudulent due = record {
  event_id = event;
  payment_id = payment;
  fraudulent = fraudulent;
  due_tick = due;
  processed = false;
}

abbrev pub same_verdict : String → Bool → FraudVerdict → Bool
same_verdict payment fraudulent v =
    str_eq v.payment_id payment && (if v.fraudulent then fraudulent else not fraudulent)

-- `ScheduleFraudVerdict`
unfoldable pub schedule_fraud_verdict :
    String → String → Bool → ℕ → World → World × Result Error (Unit {0})
unfolding new_verdict
schedule_fraud_verdict event payment fraudulent delay w =
    if str_eq event "" || str_eq payment ""
    then (w, err (ledger_error invalid_posting))
    else elim (lookup payment w.payments) [
      | none ↦ (w, err payment_not_found)
      | some _ ↦ elim (lookup event w.fraud_verdicts) [
        | some v ↦
            if same_verdict payment fraudulent v then (w, ok tt) else (w, err effect_conflict)
        | none ↦ (
          record w {
            fraud_verdicts =
                insert event
                  (new_verdict event payment fraudulent ((w.logical_tick + delay) % 2 ^ 64))
                  w.fraud_verdicts;
          },
          ok tt,
        )
      ]
    ]

-- `sortStrings`, the insertion sort: a text goes behind those that are not above it.
unfoldable pub place_text : String → List String → List String
place_text v [] = v ∷ []
place_text v (x ∷ xs) =
    let rest = place_text v xs in if is_lt (compare v x) then v ∷ x ∷ xs else x ∷ rest

unfoldable pub sort_onto : List String → List String → List String
unfolding place_text
sort_onto sorted [] = sorted
sort_onto sorted (v ∷ vs) = sort_onto (place_text v sorted) vs

unfoldable pub is_due : ℕ → FraudVerdict → Bool
is_due tick v = not v.processed && leb v.due_tick tick

unfoldable pub due_events : ℕ → Dict FraudVerdict → List String
unfolding is_due
due_events tick [] = []
due_events tick ((event, v) ∷ m) =
    let rest = due_events tick m in if is_due tick v then event ∷ rest else rest

abbrev pub processed_verdict : FraudVerdict → FraudVerdict
processed_verdict v = record v { processed = true }

unfoldable pub close_verdict : String → World → World
close_verdict event w = record w {
  fraud_verdicts = modify event processed_verdict w.fraud_verdicts;
}

unfoldable pub charge_back : String → Amount → World → World
charge_back payment remaining w = record w {
  payments = modify payment (λ p. update_state (release_on charging_back remaining p)) w.payments;
}

-- A step of the loop: the state, and the failures that it adds.
abbrev pub TickReply : Type 0
TickReply = World × List Error

abbrev pub failed : Error → World → TickReply
failed e w = (w, e ∷ [])

module _ (prim : Primitives) where
  abbrev pub fraud_credit : String → Payment → Amount → World → Credit
  fraud_credit event p remaining w = record {
    region = p.region;
    key = "";
    effect_id = String.◌++◌ "fraud-reversal:" event;
    kind = "LATE_FRAUD_REVERSAL";
    fingerprint =
        request_fingerprint prim
          ("LATE_FRAUD_REVERSAL" ∷ event ∷ p.operation_id ∷ to_string remaining ∷ []);
    amount = remaining;
    lines =
        credit_lines w merchant_account user_account authority_consumed_account p.region remaining;
    message_kind = "LATE_FRAUD_REVERSAL";
    payload = event;
  }

  -- The post of the reversal; the verdict is closed also where the effect was known.
  unfoldable pub fraud_post : String → String → Credit → Amount × Amount → World → TickReply
  unfolding close_verdict charge_back
  fraud_post event payment c plan w =
      elim (post_locked prim c.effect_id c.kind c.fingerprint c.lines w.book) [
        | err e ↦ failed e w
        | ok (book, receipt) ↦ (
          close_verdict event (
              credit_apply c.region c.message_kind c.payload plan (charge_back payment c.amount)
                book receipt w),
          [],
        )
      ]

  unfoldable pub fraud_plan : String → String → Credit → RegionState → World → TickReply
  fraud_plan event payment c state w = elim (credit_plan c.amount state w) [
    | err e ↦ failed e w
    | ok plan ↦ fraud_post event payment c plan w
  ]

  -- What is left of the capture is reversed. The region of a payment is in the map; where it is not,
  -- the code panics and the model stays where it is.
  unfoldable pub fraud_remaining : String → String → Payment → Amount → World → TickReply
  unfolding close_verdict
  fraud_remaining event payment p remaining w =
      if is_negative remaining
      then failed refund_exceeded w
      else if eqb_ℤ remaining (pos 0)
      then (close_verdict event w, [])
      else elim (lookup p.region w.regions) [
        | none ↦ (w, [])
        | some state ↦ fraud_plan event payment (fraud_credit event p remaining w) state w
      ]

  unfoldable pub fraud_payment : String → String → Payment → World → TickReply
  fraud_payment event payment p w = elim (sub p.captured (sum_or_zero p)) [
    | err _ ↦ failed refund_exceeded w
    | ok remaining ↦ fraud_remaining event payment p remaining w
  ]

  unfoldable pub fraud_verdict : String → FraudVerdict → World → TickReply
  unfolding close_verdict
  fraud_verdict event v w =
      if not v.fraudulent
      then (close_verdict event w, [])
      else if not (has_quorum w)
      then failed no_quorum w
      else elim (lookup v.payment_id w.payments) [
        | none ↦ failed payment_not_found w
        | some p ↦ fraud_payment event v.payment_id p w
      ]

  unfoldable pub fraud_event : String → World → TickReply
  fraud_event event w = elim (lookup event w.fraud_verdicts) [
    | none ↦ (w, [])
    | some v ↦ fraud_verdict event v w
  ]

  unfoldable pub fraud_events : List String → World → TickReply
  fraud_events [] w = (w, [])
  fraud_events (event ∷ events) w =
      let (w₁, failures) = fraud_event event w in
      let (w₂, more) = fraud_events events w₁ in (w₂, failures ++ more)

  -- `AdvanceLogicalTicks`
  unfoldable pub advance_logical_ticks : ℕ → World → TickReply
  unfolding sort_onto due_events
  advance_logical_ticks ticks w =
      let tick : ℕ = (w.logical_tick + ticks) % 2 ^ 64 in
      fraud_events (sort_onto [] (due_events tick w.fraud_verdicts))
        (record w { logical_tick = tick })
