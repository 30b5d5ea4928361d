-- ===== src/Failuresim/Sagas.antt =====
-- internal/failuresim/saga_fraud_external.go: sagas of a payment and the coordinator that advances them.
pub mod Retries
use payment_platform.Common.{
  ℕ, ◌+◌, zero, suc, pos, String, str_eq, Bool, true, false, not, ◌||◌, Option, none, some,
  if◌then◌else◌, eqb_ℤ,
}
use payment_platform.Common.Dict.{lookup, insert, get, modify}
use payment_platform.Ledger.Amount.{Amount, is_not_positive, invalid_posting}
use payment_platform.Failuresim.Types.{
  Error, ledger_error, effect_conflict, coordinator_down, coordinator_crash, response_lost,
  crash_after_commit, Receipt,
}
use payment_platform.Failuresim.Hashing.{Primitives}
use payment_platform.Failuresim.World.{
  World, Saga, Answer, done, unheard, refused, Reply, consume_counter,
}
use payment_platform.Failuresim.Payments.{pay}
use Prim.Native.String

-- The `(SagaSnapshot, error)` of a call; `stopped` is a snapshot with an error.
pub data SagaAnswer : Type 0 where
  advanced : Saga → SagaAnswer
  stopped : Error → Saga → SagaAnswer
  saga_refused : Error → SagaAnswer

abbrev pub SagaReply : Type 0
SagaReply = World × SagaAnswer

abbrev no_receipt : Receipt
no_receipt = record {
  idempotency_key = "";
  effect_id = "";
  transaction_id = "";
  commit_sequence = 0;
  duplicate = false;
}

unfoldable pub new_saga : String → String → String → Amount → Saga
new_saga saga_id region operation amount = record {
  saga_id = saga_id;
  region = region;
  operation_id = operation;
  amount = amount;
  next_step = 0;
  completed = false;
  payment_receipt = no_receipt;
}

unfoldable pub same_saga : String → String → Amount → Saga → Bool
same_saga region operation amount s = not (
    not (str_eq s.region region)
    || (not (str_eq s.operation_id operation) || not (eqb_ℤ s.amount amount)))

-- `StartSaga`
unfoldable pub start_saga : String → String → String → Amount → World → SagaReply
unfolding same_saga new_saga
start_saga saga_id region operation amount w =
    if str_eq saga_id "" || (str_eq operation "" || is_not_positive amount)
    then (w, saga_refused (ledger_error invalid_posting))
    else elim (lookup saga_id w.sagas) [
      | some s ↦
          if same_saga region operation amount s
          then (w, advanced s)
          else (w, saga_refused effect_conflict)
      | none ↦
          let s = new_saga saga_id region operation amount in
          (record w { sagas = insert saga_id s w.sagas }, advanced s)
    ]

abbrev pub saga_key : String → String
saga_key saga_id = String.◌++◌ "saga:" (String.◌++◌ saga_id ":payment")

abbrev pub paid_by : Receipt → Saga → Saga
paid_by receipt s = record s { payment_receipt = receipt; next_step = 1 }

abbrev pub finished : Saga → Saga
finished s = record s { next_step = 2; completed = true }

-- After the payment's commit the step is saved, unless the coordinator crashes before that.
unfoldable pub save_step : String → Saga → Receipt → World → SagaReply
unfolding consume_counter
save_step saga_id s receipt w =
    let (crashed, crashes) = consume_counter w.coordinator_crash_after saga_id in
    if crashed
    then (
      record w { coordinator_crash_after = crashes; coordinator_running = false },
      stopped coordinator_crash s,
    )
    else (
      record w {
        coordinator_crash_after = crashes;
        sagas = modify saga_id (paid_by receipt) w.sagas;
      },
      advanced (paid_by receipt s),
    )

-- `committedDespiteResponseError`
unfoldable pub committed_despite : Error → Bool
committed_despite response_lost = true
committed_despite crash_after_commit = true
committed_despite e = false

-- The answer of the payment decides whether the first step is done.
unfoldable pub after_pay : String → Saga → Reply → SagaReply
unfolding committed_despite
after_pay saga_id s (w, done receipt) = save_step saga_id s receipt w
after_pay saga_id s (w, unheard e receipt) =
    if committed_despite e then save_step saga_id s receipt w else (w, stopped e s)
after_pay saga_id s (w, refused e) =
    if committed_despite e then save_step saga_id s no_receipt w else (w, stopped e s)

module _ (prim : Primitives) where
  -- The steps of a saga: the payment, its remote follow-up, nothing.
  unfoldable pub saga_step : ℕ → String → Saga → World → SagaReply
  saga_step zero saga_id s w =
      after_pay saga_id s (pay prim s.region (saga_key saga_id) s.operation_id s.amount w)
  saga_step (suc zero) saga_id s w =
      (record w { sagas = modify saga_id finished w.sagas }, advanced (finished s))
  saga_step (suc (suc n)) saga_id s w = (w, advanced s)

  -- `AdvanceSaga` as one step; the source releases the mutex around `Pay` and reads the saga again before it
  -- saves it.
  unfoldable pub advance_saga : String → World → SagaReply
  advance_saga saga_id w =
      if not w.coordinator_running
      then (w, saga_refused coordinator_down)
      else elim (lookup saga_id w.sagas) [
        | none ↦ (w, saga_refused effect_conflict)
        | some s ↦ saga_step s.next_step saga_id s w
      ]

-- `CrashCoordinatorAfterEffect`
unfoldable pub arm_coordinator_crash : String → World → World
arm_coordinator_crash saga_id w = record w {
  coordinator_crash_after =
      insert saga_id (get 0 saga_id w.coordinator_crash_after + 1) w.coordinator_crash_after;
}

-- `CrashCoordinator` and `RestartCoordinator`
unfoldable pub crash_coordinator : World → World
crash_coordinator w = record w { coordinator_running = false }

unfoldable pub restart_coordinator : World → World
restart_coordinator w = record w { coordinator_running = true }
