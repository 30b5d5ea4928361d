-- ===== src/Saga/Orchestrator.antt =====
-- internal/saga/orchestrator.go: a saga, its start and its failures. A serializable transaction is one
-- step on the state; one that is rolled back, or retried after a conflict, leaves nothing behind.
use payment_platform.Common.{
  ℕ, zero, suc, ◌+◌, String, str_eq, Bool, true, false, not, ◌||◌, ◌&&◌, Option, none, some, List,
  [], ◌∷◌, Result, ok, err, ◌==◌, if◌then◌else◌, length,
}
use payment_platform.Common.Dict.{Dict, lookup, insert}
use payment_platform.Failuresim.Delivery.{equal_bytes}
use payment_platform.Saga.Types.{
  Error, invalid_saga, definition_conflict, Status, running, compensating, completed, compensated,
  StepStatus, step_waiting, step_completed, step_failed, step_compensated, step_compensation_failed,
  Instance, StepRecord, Definition,
}
use payment_platform.Saga.Steps.{new_steps, update_step, after_failure}

-- A saga's row and those of its steps.
pub record Saga : Type 0 where
  pub instance : Instance
  pub steps : List StepRecord

pub record TickResult : Type 0 where
  pub instance : Instance
  pub progress : Bool
  pub waiting : Bool

-- How the transaction of a tick ends: it commits, an action fails and it is rolled back, or another
-- error stops it.
pub data Attempt (W : Type 0) : Type 0 where
  committed : Saga → W → TickResult → Attempt W
  action_failure : ℕ → Bool → Bool → List ℕ → Attempt W
  stopped : Error → Attempt W

-- What `Tick` answers: its result, the error of an action with the saga that recorded it, or another
-- error.
pub data TickAnswer : Type 0 where
  ticked : TickResult → TickAnswer
  action_error : TickResult → List ℕ → TickAnswer
  tick_error : Error → TickAnswer

-- `definition.Steps[ordinal]`
unfoldable pub nth : {A : Type 0} → ℕ → List A → Option A
nth n [] = none
nth zero (x ∷ xs) = some x
nth (suc n) (x ∷ xs) = nth n xs

unfoldable pub new_instance : String → String → String → List ℕ → Instance
new_instance id saga_type definition input = record {
  id = id;
  saga_type = saga_type;
  definition = definition;
  status = running;
  input = input;
  result = [];
  current_step = 0;
  version = 0;
  last_error = [];
}

abbrev same_start : String → String → List ℕ → Instance → Bool
same_start saga_type definition input i =
    str_eq i.saga_type saga_type && (str_eq i.definition definition && equal_bytes i.input input)

abbrev pub progressed : Instance → Bool → TickResult
progressed i waiting = record { instance = i; progress = true; waiting = waiting }

abbrev pub bumped : Instance → Instance
bumped i = record i { version = i.version + 1 }

-- `value[:2048]`
unfoldable pub take_bytes : ℕ → List ℕ → List ℕ
take_bytes zero bytes = []
take_bytes (suc n) [] = []
take_bytes (suc n) (b ∷ bytes) = b ∷ take_bytes n bytes

abbrev pub truncate : List ℕ → List ℕ
truncate message = take_bytes 2048 message

abbrev pub is_settled : StepStatus → Bool
is_settled step_completed = true
is_settled step_compensated = true
is_settled _ = false

abbrev pub is_waiting : StepStatus → Bool
is_waiting step_waiting = true
is_waiting _ = false

abbrev pub is_running : Status → Bool
is_running running = true
is_running _ = false

-- `advanceInstance`
unfoldable pub advance_instance : ℕ → Instance → List ℕ → Instance
advance_instance count i output =
    let last = i.current_step + 1 == count in
    record i {
      current_step = i.current_step + 1;
      status = if last then completed else running;
      result = if last then output else [];
      version = i.version + 1;
      last_error = [];
    }

-- `recordActionFailure`, in a transaction of its own: the step's ordinal, whether it was a compensation,
-- whether it failed for good, and the message.
unfoldable pub record_failure : ℕ → Bool → Bool → List ℕ → Saga → Saga
record_failure ordinal compensation permanent message s = record {
  instance = record (s.instance) {
    status = if permanent && not compensation then compensating else s.instance.status;
    version = s.instance.version + 1;
    last_error = truncate message;
  };
  steps =
      update_step ordinal
        (after_failure (if compensation then step_compensation_failed else step_failed)
          (truncate message))
        s.steps;
}

abbrev pub all_compensated : Instance → Instance
all_compensated i = record i { status = compensated; version = i.version + 1 }

module _ {W : Type 0} where
  unfoldable pub find_definition : String → List (Definition W) → Option (Definition W)
  find_definition name [] = none
  find_definition name (d ∷ ds) = if str_eq d.name name then some d else find_definition name ds

  -- `Start` is idempotent on the saga's identifier.
  unfoldable pub start :
      List (Definition W)
      → String
      → String
      → String
      → List ℕ
      → Dict Saga
      → Result Error (Dict Saga × Instance)
  start definitions id saga_type name input sagas = elim (find_definition name definitions) [
    | none ↦ err invalid_saga
    | some d ↦
        if str_eq id "" || (str_eq saga_type "" || length input == 0)
        then err invalid_saga
        else elim (lookup id sagas) [
          | some s ↦
              if same_start saga_type name input s.instance
              then ok (sagas, s.instance)
              else err definition_conflict
          | none ↦
              let i = new_instance id saga_type name input in
              ok (insert id (record { instance = i; steps = new_steps id 0 d.steps }) sagas, i)
        ]
  ]
