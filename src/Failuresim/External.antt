-- ===== src/Failuresim/External.antt =====
-- internal/failuresim/saga_fraud_external.go: a processor that deduplicates by operation, and whose
-- answer may be lost after its success.
use payment_platform.Common.{
  ℕ, ◌+◌, String, str_eq, Bool, true, false, not, ◌||◌, some, none, if◌then◌else◌, eqb_ℤ, ◌≡◌, refl,
  inl, inr, Option-cases, Bool-cases, arith, str_eq_refl, Option, ==_iff, ◌==◌, ◌∙◌,
}
use payment_platform.Common.Bytes.{utf8}
use payment_platform.Common.Int.{eq_of_parts}
use payment_platform.Common.Dict.{Dict, lookup, insert, get, lookup-insert}
use payment_platform.Ledger.Amount.{Amount, is_not_positive, invalid_posting, to_string}
use payment_platform.Failuresim.Types.{Error, ledger_error, effect_conflict}
use payment_platform.Failuresim.Hashing.{Primitives}
use payment_platform.Failuresim.World.{consume_counter}
use Prim.Native.String

pub record ExternalResult : Type 0 where
  pub operation_id : String
  pub amount : Amount
  pub succeeded : Bool
  pub duplicate : Bool
  pub proof : ℕ

pub record ExternalProcessor : Type 0 where
  pub results : Dict ExternalResult
  pub timeout_after_success : Dict ℕ

-- The `(ExternalResult, error)` of a charge; a timeout comes with the result.
pub data ChargeAnswer : Type 0 where
  charged : ExternalResult → ChargeAnswer
  timed_out : ExternalResult → ChargeAnswer
  not_charged : Error → ChargeAnswer

-- `SucceedThenTimeout`
unfoldable pub succeed_then_timeout : String → ExternalProcessor → ExternalProcessor
succeed_then_timeout operation p = record p {
  timeout_after_success =
      insert operation (get 0 operation p.timeout_after_success + 1) p.timeout_after_success;
}

-- The result that an answer carries, also with a timeout.
abbrev pub result_in : ChargeAnswer → Option ExternalResult
result_in (charged r) = some r
result_in (timed_out r) = some r
result_in (not_charged e) = none

abbrev pub again : ExternalResult → ExternalResult
again r = record r { duplicate = true }

module _ (prim : Primitives) where
  unfoldable pub external_result : String → Amount → ExternalResult
  external_result operation amount = record {
    operation_id = operation;
    amount = amount;
    succeeded = true;
    duplicate = false;
    proof = prim.sha256 (
        utf8 (
          String.◌++◌ "external-proof/v1\0"
            (String.◌++◌ operation (String.◌++◌ "\0" (to_string amount)))));
  }

  unfoldable pub charge_new : String → Amount → ExternalProcessor → ExternalProcessor × ChargeAnswer
  unfolding external_result
  charge_new operation amount p =
      let r = external_result operation amount in
      let (late, timeouts) = consume_counter p.timeout_after_success operation in
      (
        record { results = insert operation r p.results; timeout_after_success = timeouts },
        if late then timed_out r else charged r,
      )

  -- `Charge`
  unfoldable pub charge : String → Amount → ExternalProcessor → ExternalProcessor × ChargeAnswer
  charge operation amount p =
      if str_eq operation "" || is_not_positive amount
      then (p, not_charged (ledger_error invalid_posting))
      else elim (lookup operation p.results) [
        | some r ↦
            if not (eqb_ℤ r.amount amount)
            then (p, not_charged effect_conflict)
            else (p, charged (again r))
        | none ↦ charge_new operation amount p
      ]

-- The processor holds the result of an operation.
record IsSettled (operation : String) (amount : Amount) (r : ExternalResult) (p : ExternalProcessor)
    : Type 0 where
  sound : (str_eq operation "" || is_not_positive amount) ≡ false
  held : ExternalResult
  known : lookup operation p.results ≡ some held
  same_amount : held.amount ≡ amount
  same_result : again held ≡ again r

eqb_ℤ_refl : (a : Amount) → eqb_ℤ a a ≡ true
eqb_ℤ_refl a = (==_iff _ _).1 refl

module _ (prim : Primitives) (operation : String) (amount : Amount) where
  charge-IsSettled :
      (p : ExternalProcessor) {p' : ExternalProcessor} {a : ChargeAnswer} {r : ExternalResult}
      → charge prim operation amount p ≡ (p', a)
      → result_in a ≡ some r
      → IsSettled operation amount r p'
  unfolding charge charge_new external_result consume_counter
  charge-IsSettled p {p'} {a} {r} h answered =
      elim (Bool-cases (str_eq operation "" || is_not_positive amount)) [
        | inl bad ↦ ground arith
        | inr good ↦ elim (Option-cases (lookup operation p.results)) [
          | inr (held, known) ↦ elim (Bool-cases (eqb_ℤ (held.amount) amount)) [
            | inr other ↦ ground arith
            | inl same ↦ record {
              sound = good;
              held = held;
              known = ground arith;
              same_amount = eq_of_parts _ _ ((==_iff _ _).0 same);
              same_result = ground arith;
            }
          ]
          | inl new ↦ elim (Bool-cases (get 0 operation p.timeout_after_success == 0)) [
            | inl quiet ↦ record {
              sound = good;
              held = external_result prim operation amount;
              known = ground (
                arith,
                lookup-insert operation operation (external_result prim operation amount) p.results,
                str_eq_refl operation,
              );
              same_amount = refl;
              same_result = ground arith;
            }
            | inr armed ↦ record {
              sound = good;
              held = external_result prim operation amount;
              known = ground (
                arith,
                lookup-insert operation operation (external_result prim operation amount) p.results,
                str_eq_refl operation,
              );
              same_amount = refl;
              same_result = ground arith;
            }
          ]
        ]
      ]

  -- An operation that the processor answered with a result, though the answer was a timeout, may be
  -- charged again at any later state that holds its result: the answer is the same result, marked as a
  -- duplicate, another positive amount is refused as a conflict, and neither changes the processor.
  pub charge-again :
      (other : Amount) (p q : ExternalProcessor) {p' : ExternalProcessor} {a : ChargeAnswer}
      {r : ExternalResult}
      → charge prim operation amount p ≡ (p', a)
      → result_in a ≡ some r
      → lookup operation q.results ≡ lookup operation p'.results
      → is_not_positive other ≡ false
      → eqb_ℤ amount other ≡ false
      → (charge prim operation amount q ≡ (q, charged (again r)))
        × (charge prim operation other q ≡ (q, not_charged effect_conflict))
  unfolding charge
  charge-again other p q {p'} {a} {r} h answered kept positive differs =
      let s = charge-IsSettled p h answered in
      let held : lookup operation q.results ≡ some s.held = kept ∙ s.known in
      let named : str_eq operation "" ≡ false = ground arith in
      let same : eqb_ℤ s.held.amount amount ≡ true = simp (s.same_amount) (eqb_ℤ_refl amount) in
      let apart : eqb_ℤ s.held.amount other ≡ false = simp (s.same_amount) differs in
      (
        rw (s.sound, held, charge, same) (simp (s.same_result)),
        rw (named, positive, held, charge, apart) refl,
      )
