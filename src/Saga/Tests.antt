-- ===== src/Saga/Tests.antt =====
-- Runs of internal/saga at concrete inputs: a definition of two steps that count.
use payment_platform.Common.{
  ℕ, ◌+◌, ◌-◌, ◌≡◌, ◌≢◌, refl, inl, inr, true, false, none, some, [], ◌∷◌, ok, arith,
}
use mathlib.Core.Option.{map}
use payment_platform.Saga.Types.{
  running, compensating, completed, step_pending, step_waiting, step_completed, step_failed,
  StepRecord, Action, performed, Step, Definition,
}
use payment_platform.Saga.Steps.{
  load_step, new_steps, last_compensatable, update_step, after_remote,
}
use payment_platform.Saga.Orchestrator.{start, find_definition, new_instance, Saga, record_failure}
use payment_platform.Saga.Ticks.{ticks, complete_waiting}
use payment_platform.Saga.Forward.{AllCompleted}
use payment_platform.Saga.Progress.{done, Succeeds, ticks-AllCompleted}
use payment_platform.Saga.Compensation.{IsCompensating, IsUndone, Undoes, ticks-IsUndone}
use payment_platform.Common.Dict.{Dict, lookup, insert}
use payment_platform.Saga.Starts.{start-AllCompleted}
use payment_platform.Saga.Races.{complete_waiting-again, record_failure-strands}

abbrev count_up : Action ℕ
count_up x w = performed (w + 1) (done (7 ∷ []))

abbrev count_down : Action ℕ
count_down x w = performed (w - 1) (done [])

abbrev first_step : Step ℕ
first_step = record { name = "reserve"; execute = some count_up; compensate = some count_down }

abbrev second_step : Step ℕ
second_step = record { name = "notify"; execute = some count_up; compensate = none }

abbrev counting : Definition ℕ
counting = record { name = "counting"; steps = first_step ∷ second_step ∷ [] }

abbrev row : ℕ → StepRecord
row n = record {
  saga_id = "s1";
  ordinal = n;
  name = "step";
  effect_id = "effect";
  status = step_pending;
  attempts = 0;
  output = [];
  last_error = [];
}

abbrev begun : Saga
begun = record {
  instance = record {
    id = "s1";
    saga_type = "counter";
    definition = "counting";
    status = running;
    input = 1 ∷ [];
    result = [];
    current_step = 0;
    version = 0;
    last_error = [];
  };
  steps = row 0 ∷ row 1 ∷ [];
}

count_up-Succeeds : (a : Step ℕ) → a.execute ≡ some count_up → Succeeds a
count_up-Succeeds a e = record {
  run = count_up;
  known = e;
  world = λ x w. w + 1;
  output = λ x w. 7 ∷ [];
  performs = λ x w. refl;
}

ticks-AllCompleted_example :
    ((ticks 2 counting (begun, 0)).0.instance.status ≡ completed)
    × AllCompleted (ticks 2 counting (begun, 0)).0.steps
ticks-AllCompleted_example =
    ticks-AllCompleted counting
      (count_up-Succeeds first_step refl, (count_up-Succeeds second_step refl, tt)) 1 0 begun 0
      (record {
        status = refl;
        current = refl;
        rows = refl;
        forward = (refl, (refl, (refl, (refl, tt))));
      })
      refl

abbrev started : Dict Saga
started =
    (
      "s1",
      record {
        instance = new_instance "s1" "counter" "counting" (1 ∷ []);
        steps = new_steps "s1" 0 counting.steps;
      },
    )
    ∷ []

start-AllCompleted_example :
    (s : Saga) × (lookup "s1" started ≡ some s)
    × ((ticks 2 counting (s, 0)).0.instance.status ≡ completed)
    × AllCompleted (ticks 2 counting (s, 0)).0.steps
unfolding start find_definition lookup insert
start-AllCompleted_example =
    start-AllCompleted "s1" (counting ∷ []) "counter" "counting" (1 ∷ []) [] 0 refl refl
      (count_up-Succeeds first_step refl, (count_up-Succeeds second_step refl, tt)) (omega arith)
      refl

abbrev undoing : Saga
undoing = record begun {
  instance = record (begun.instance) { status = compensating; current_step = 1 };
  steps =
      record (row 0) { status = step_completed; output = 7 ∷ [] }
      ∷ record (row 1) { status = step_failed }
      ∷ [];
}

first_step-Undoes : Undoes first_step
first_step-Undoes = inr (record {
  run = count_down;
  known = refl;
  world = λ x w. w - 1;
  result = λ x w. done [];
  performs = λ x w. refl;
})

ticks-IsUndone_example :
    IsCompensating counting 0 1 (ticks 1 counting (undoing, 1)).0
    × IsUndone 1 (ticks 2 counting (undoing, 1)).0
ticks-IsUndone_example =
    ticks-IsUndone counting (first_step-Undoes, (inl refl, tt)) 1 1 0 undoing 1 refl
      (record { status = refl; rows = refl; backward = (refl, (refl, (refl, (refl, tt)))) })

abbrev awaiting : Saga
awaiting = record begun { steps = record (row 0) { status = step_waiting } ∷ row 1 ∷ [] }

abbrev resumed : Saga
resumed = record begun {
  instance = record (begun.instance) { current_step = 1; version = 1 };
  steps = record (row 0) { status = step_completed; output = 3 ∷ [] } ∷ row 1 ∷ [];
}

complete_waiting-again_example :
    complete_waiting 0 (4 ∷ []) (λ w. some (w + 2)) (resumed, 6) ≡ ok (resumed, 6)
unfolding complete_waiting load_step update_step after_remote
complete_waiting-again_example =
    complete_waiting-again 0 (3 ∷ []) (4 ∷ []) (λ w. some (w + 1)) (λ w. some (w + 2)) awaiting 5
      refl

abbrev other_finished : Saga
other_finished = record begun {
  instance = record (begun.instance) { current_step = 1; version = 1 };
  steps = record (row 0) { status = step_completed; output = 7 ∷ [] } ∷ row 1 ∷ [];
}

record_failure-strands_example :
    ((record_failure 0 false true (8 ∷ []) other_finished).instance.status ≡ compensating)
    × ((y : StepRecord) × (load_step 0 (record_failure 0 false true (8 ∷ []) other_finished).steps
          ≡ some y)
        × (y.status ≡ step_failed)
        × (y.output ≡ 7 ∷ []))
    × (map
          (λ z. z.ordinal)
          (last_compensatable (record_failure 0 false true (8 ∷ []) other_finished).steps)
        ≢ some 0)
unfolding load_step
record_failure-strands_example = record_failure-strands 0 (8 ∷ []) other_finished refl refl
