-- ===== src/Saga/Steps.antt =====
-- internal/saga/orchestrator.go: the statements on the rows of a saga's steps.
use payment_platform.Common.{
  ℕ, suc, ◌+◌, String, Bool, true, false, Option, none, some, List, [], ◌∷◌, ◌==◌, ltb,
  if◌then◌else◌,
}
use payment_platform.Common.Bytes.{decimal}
use payment_platform.Saga.Types.{
  StepStatus, step_pending, step_completed, step_compensated, step_compensation_failed, StepRecord,
  Step,
}
use Prim.Native.String

-- `fmt.Sprintf("saga/%s/step/%d/%s", …)`
unfoldable pub step_effect : String → ℕ → String → String
step_effect saga_id ordinal name = String.◌++◌ "saga/" (
    String.◌++◌ saga_id
      (String.◌++◌ "/step/" (String.◌++◌ (decimal ordinal) (String.◌++◌ "/" name))))

-- The rows that `Start` inserts, from an ordinal on.
unfoldable pub new_steps : {W : Type 0} → String → ℕ → List (Step W) → List StepRecord
unfolding step_effect
new_steps saga_id n [] = []
new_steps saga_id n (s ∷ steps) =
    record {
      saga_id = saga_id;
      ordinal = n;
      name = s.name;
      effect_id = step_effect saga_id n s.name;
      status = step_pending;
      attempts = 0;
      output = [];
      last_error = [];
    }
    ∷ new_steps saga_id (suc n) steps

-- `loadStep`
unfoldable pub load_step : ℕ → List StepRecord → Option StepRecord
load_step n [] = none
load_step n (s ∷ steps) = if s.ordinal == n then some s else load_step n steps

-- `UPDATE saga_steps SET … WHERE ordinal=$2`
unfoldable pub update_step : ℕ → (StepRecord → StepRecord) → List StepRecord → List StepRecord
update_step n f [] = []
update_step n f (s ∷ steps) = (if s.ordinal == n then f s else s) ∷ update_step n f steps

abbrev pub is_compensatable : StepStatus → Bool
is_compensatable step_completed = true
is_compensatable step_compensation_failed = true
is_compensatable _ = false

-- The later of a row and what was found behind it.
abbrev pub later : StepRecord → Option StepRecord → StepRecord
later s none = s
later s (some t) = if ltb s.ordinal t.ordinal then t else s

-- `lastCompensatableStep`: `ORDER BY ordinal DESC LIMIT 1`.
unfoldable pub last_compensatable : List StepRecord → Option StepRecord
last_compensatable [] = none
last_compensatable (s ∷ steps) =
    let rest = last_compensatable steps in
    if is_compensatable s.status then some (later s rest) else rest

unfoldable pub after_action : StepStatus → List ℕ → StepRecord → StepRecord
after_action status output s = record s {
  status = status;
  attempts = s.attempts + 1;
  output = output;
  last_error = [];
}

unfoldable pub after_compensation : StepRecord → StepRecord
after_compensation s = record s {
  status = step_compensated;
  attempts = s.attempts + 1;
  last_error = [];
}

unfoldable pub after_failure : StepStatus → List ℕ → StepRecord → StepRecord
after_failure status message s = record s {
  status = status;
  attempts = s.attempts + 1;
  last_error = message;
}

unfoldable pub after_remote : List ℕ → StepRecord → StepRecord
after_remote output s = record s { status = step_completed; output = output; last_error = [] }
