-- ===== src/Failuresim/Tests/Sagas.antt =====
-- Sagas, late fraud and external charges at concrete inputs.
use payment_platform.Common.{
  pos, ◌≡◌, refl, true, false, none, some, [], ◌∷◌, ◌+ℤ◌, ◌-ℤ◌, arith, Option,
}
use payment_platform.Common.Bytes.{padded}
use payment_platform.Common.Dict.{lookup, insert, get, modify}
use payment_platform.Ledger.Amount.{add, sub, fits_decimal38}
use payment_platform.Failuresim.Types.{captured, effect_conflict}
use payment_platform.Failuresim.Book.{
  post_locked, tally_lines, tally_line, add_total, all_balanced, append, current, move, commit,
  store_all, transaction_of, receipt_of,
}
use payment_platform.Failuresim.World.{
  World, Reply, Saga, Payment, FraudVerdict, require_writer, fence_of, has_quorum, healthy_replicas,
  consume_counter, regional_account,
}
use payment_platform.Failuresim.Effects.{remember, once, replay_effect, add_outbox, outbox_record}
use payment_platform.Failuresim.Payments.{
  pay, pay_with_fence, pay_writer, pay_new, pay_fresh, pay_plan, pay_post, pay_finish, pay_apply,
}
use payment_platform.Failuresim.Payments.Retries.{duplicated}
use payment_platform.Failuresim.Sagas.{
  SagaReply, advanced, saga_key, advance_saga, finished, paid_by,
}
use payment_platform.Failuresim.Sagas.Retries.{advance_saga-completes}
use payment_platform.Failuresim.Fraud.{
  fraud_event, fraud_verdict, fraud_payment, fraud_remaining, fraud_plan, fraud_post,
}
use payment_platform.Failuresim.Releases.{amount_sum}
use payment_platform.Failuresim.Credits.{credit_plan}
use payment_platform.Failuresim.Fraud.Reversal.{IsReversed, fraud_event-IsReversed}
use payment_platform.Failuresim.External.{
  ExternalProcessor, ChargeAnswer, charged, not_charged, charge, charge_new, external_result, again,
  charge-again,
}
use payment_platform.Failuresim.Tests.{
  sample_primitives, sample_world, opened, paid, answered_receipt,
}

abbrev sample_saga : Saga
sample_saga = record {
  saga_id = "saga1";
  region = "A";
  operation_id = "pay1";
  amount = pos 25;
  next_step = 0;
  completed = false;
  payment_receipt = record {
    idempotency_key = "";
    effect_id = "";
    transaction_id = "";
    commit_sequence = 0;
    duplicate = false;
  };
}

abbrev with_saga : World
with_saga = record sample_world { sagas = ("saga1", sample_saga) ∷ [] }

abbrev first_pay : Reply
first_pay = pay sample_primitives "A" (saga_key "saga1") "pay1" (pos 25) with_saga

advance_saga-completes_example :
    let end : SagaReply =
      advance_saga sample_primitives "saga1"
        (advance_saga sample_primitives "saga1" first_pay.0).0 in
    (end.1 ≡ advanced (finished (paid_by (duplicated (answered_receipt first_pay.1)) sample_saga)))
    × (lookup "saga1" end.0.sagas
        ≡ some (finished (paid_by (duplicated (answered_receipt first_pay.1)) sample_saga)))
    × (end.0.book ≡ first_pay.0.book)
unfolding opened pay fence_of pay_with_fence require_writer has_quorum lookup pay_writer once
    replay_effect pay_new consume_counter get pay_fresh pay_plan add sub fits_decimal38 ◌+ℤ◌ ◌-ℤ◌
    pay_post post_locked append tally_lines tally_line add_total all_balanced current move insert
    receipt_of pay_finish pay_apply add_outbox remember modify regional_account commit store_all
    outbox_record healthy_replicas transaction_of padded
advance_saga-completes_example =
    advance_saga-completes sample_primitives "saga1" sample_saga with_saga first_pay.0 refl refl
      refl
      (record {
        running = refl;
        known = refl;
        first = refl;
        unarmed = refl;
        open_region = record {
          fence = record { region = "A"; epoch = 1 };
          writer = _;
          current = refl;
          writes = refl;
          quiet = refl;
        };
      })

abbrev sample_verdict : FraudVerdict
sample_verdict = record {
  event_id = "fraud1";
  payment_id = "pay1";
  fraudulent = true;
  due_tick = 3;
  processed = false;
}

abbrev suspected : World
suspected = record (paid.0) { fraud_verdicts = ("fraud1", sample_verdict) ∷ [] }

abbrev payment_in : Option Payment → Payment
payment_in (some p) = p
payment_in none = record {
  operation_id = "";
  region = "";
  authorized = pos 0;
  captured = pos 0;
  refunded = pos 0;
  reversed = pos 0;
  charged_back = pos 0;
  state = captured;
  receipt = sample_saga.payment_receipt;
}

abbrev suspect : Payment
suspect = payment_in (lookup "pay1" paid.0.payments)

fraud_event-IsReversed_example :
    IsReversed "fraud1" sample_verdict suspect (fraud_event sample_primitives "fraud1" suspected).0
unfolding opened pay_with_fence require_writer has_quorum lookup pay_writer once replay_effect
    pay_new consume_counter get pay_fresh pay_plan add sub fits_decimal38 ◌+ℤ◌ ◌-ℤ◌ pay_post
    post_locked append tally_lines tally_line add_total all_balanced current move insert receipt_of
    pay_finish pay_apply add_outbox remember modify regional_account commit store_all outbox_record
    healthy_replicas transaction_of padded fraud_event fraud_verdict fraud_payment fraud_remaining
    fraud_plan fraud_post amount_sum credit_plan
fraud_event-IsReversed_example =
    fraud_event-IsReversed sample_primitives "fraud1" sample_verdict suspect suspected
      (record {
        scheduled = refl;
        fraudulent = refl;
        known = refl;
        bounded = record {
          refunds = omega arith;
          reversals = omega arith;
          chargebacks = omega arith;
          total = omega arith;
        };
        fits = refl;
      })
      refl _ refl refl

abbrev no_results : ExternalProcessor
no_results = record { results = []; timeout_after_success = ("op1", 1) ∷ [] }

abbrev late : ExternalProcessor × ChargeAnswer
late = charge sample_primitives "op1" (pos 5) no_results

charge-again_example :
    (charge sample_primitives "op1" (pos 5) late.0
      ≡ (late.0, charged (again (external_result sample_primitives "op1" (pos 5)))))
    × (charge sample_primitives "op1" (pos 6) late.0 ≡ (late.0, not_charged effect_conflict))
unfolding charge charge_new consume_counter get lookup external_result insert
charge-again_example =
    charge-again sample_primitives "op1" (pos 5) (pos 6) no_results late.0 refl refl refl refl refl
