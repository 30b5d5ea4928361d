-- ===== src/Saga/Ticks.antt =====
-- internal/saga/orchestrator.go: `Tick` and `CompleteWaitingInTx`, a serializable transaction at a time.
use payment_platform.Common.{
  ℕ, zero, suc, ◌+◌, true, false, not, ◌||◌, Option, none, some, List, [], Result, ok, err, ◌==◌,
  leb, if◌then◌else◌, length,
}
use payment_platform.Saga.Types.{
  Error, not_waiting, no_rows, bad_status, missing_step, apply_failed, Status, running,
  compensating, completed, StepStatus, step_waiting, step_completed, step_compensated,
  step_compensation_failed, StepRecord, ActionResult, performed, broken, Step, Definition,
}
use payment_platform.Saga.Steps.{
  load_step, update_step, last_compensatable, after_action, after_compensation, after_remote,
}
use payment_platform.Saga.Orchestrator.{
  nth, progressed, bumped, is_settled, is_waiting, is_running, advance_instance, record_failure,
  all_compensated, Saga, Attempt, TickAnswer, committed, action_failure, stopped, ticked,
  action_error, tick_error,
}

module _ {W : Type 0} where
  -- What follows an action that was performed.
  unfoldable pub after_execute : ℕ → Saga → StepRecord → W → ActionResult → Attempt W
  after_execute count s step w r =
      if r.wait
      then committed
          (record {
            instance = bumped s.instance;
            steps = update_step step.ordinal (after_action step_waiting r.output) s.steps;
          })
          w (progressed (bumped s.instance) true)
      else (let i = advance_instance count s.instance r.output in
          committed
            (record {
              instance = i;
              steps = update_step step.ordinal (after_action step_completed r.output) s.steps;
            })
            w (progressed i false))

  unfoldable pub run_step : ℕ → Step W → Saga → StepRecord → W → Attempt W
  run_step count action s step w = elim action.execute [
    | none ↦ stopped missing_step
    | some execute ↦ elim (execute (record { instance = s.instance; step = step }) w) [
      | broken permanent message ↦ action_failure step.ordinal false permanent message
      | performed w' r ↦ after_execute count s step w' r
    ]
  ]

  -- Whether a step may be executed: a waiting one is awaited, a finished one is an error.
  unfoldable pub execute_as : StepStatus → Definition W → Saga → StepRecord → W → Attempt W
  execute_as step_waiting d s step w =
      committed s w (record { instance = s.instance; progress = false; waiting = true })
  execute_as step_completed d s step w = stopped bad_status
  execute_as step_compensated d s step w = stopped bad_status
  execute_as step_compensation_failed d s step w = stopped bad_status
  execute_as _ d s step w = elim (nth step.ordinal d.steps) [
    | none ↦ stopped missing_step
    | some action ↦ run_step (length d.steps) action s step w
  ]

  -- `executeOne`; the instance that a completion answers with keeps its version.
  unfoldable pub execute_one : Definition W → Saga → W → Attempt W
  execute_one d s w =
      if leb (length d.steps) s.instance.current_step
      then committed
          (record s {
            instance = record (s.instance) {
              status = completed;
              result = [];
              version = s.instance.version + 1;
            };
          })
          w (progressed (record (s.instance) { status = completed }) false)
      else elim (load_step s.instance.current_step s.steps) [
        | none ↦ stopped no_rows
        | some step ↦ execute_as step.status d s step w
      ]

  unfoldable pub compensated_step : Saga → StepRecord → W → Attempt W
  compensated_step s step w =
      committed
        (record {
          instance = bumped s.instance;
          steps = update_step step.ordinal after_compensation s.steps;
        })
        w (progressed (bumped s.instance) false)

  unfoldable pub undo_step : Step W → Saga → StepRecord → W → Attempt W
  undo_step action s step w = elim action.compensate [
    | none ↦ compensated_step s step w
    | some compensate ↦ elim (compensate (record { instance = s.instance; step = step }) w) [
      | broken _ message ↦ action_failure step.ordinal true false message
      | performed w' _ ↦ compensated_step s step w'
    ]
  ]

  -- `compensateOne`
  unfoldable pub compensate_one : Definition W → Saga → W → Attempt W
  compensate_one d s w = elim (last_compensatable s.steps) [
    | none ↦
        committed (record s { instance = all_compensated s.instance }) w
          (progressed (all_compensated s.instance) false)
    | some step ↦ elim (nth step.ordinal d.steps) [
      | none ↦ stopped missing_step
      | some action ↦ undo_step action s step w
    ]
  ]

  unfoldable pub attempt_as : Status → Definition W → Saga → W → Attempt W
  attempt_as running d s w = execute_one d s w
  attempt_as compensating d s w = compensate_one d s w
  attempt_as _ d s w =
      committed s w (record { instance = s.instance; progress = false; waiting = false })

  -- The transaction of `Tick`.
  unfoldable pub attempt : Definition W → Saga → W → Attempt W
  attempt d s w = attempt_as s.instance.status d s w

  -- `Tick` on a saga that is loaded, with no other coordinator between its two transactions.
  unfoldable pub tick : Definition W → Saga × W → (Saga × W) × TickAnswer
  tick d (s, w) = elim (attempt d s w) [
    | committed s' w' r ↦ ((s', w'), ticked r)
    | stopped e ↦ ((s, w), tick_error e)
    | action_failure ordinal compensation permanent message ↦
        let s' = record_failure ordinal compensation permanent message s in
        ((s', w), action_error (progressed s'.instance false) message)
  ]

  unfoldable pub ticks : ℕ → Definition W → Saga × W → Saga × W
  ticks zero d state = state
  ticks (suc n) d state = ticks n d (tick d state).0

  -- `CompleteWaitingInTx`: the remote result of a waiting step, with the local effects of its handler.
  unfoldable pub complete_waiting : ℕ → List ℕ → (W → Option W) → Saga × W → Result Error (Saga × W)
  complete_waiting ordinal output apply (s, w) = elim (load_step ordinal s.steps) [
    | none ↦ err no_rows
    | some step ↦
        if is_settled step.status
        then ok (s, w)
        else if not (is_waiting step.status)
            || (not (s.instance.current_step == ordinal) || not (is_running s.instance.status))
        then err not_waiting
        else elim (apply w) [
          | none ↦ err apply_failed
          | some w' ↦ ok (
            record {
              instance = record (s.instance) {
                current_step = s.instance.current_step + 1;
                version = s.instance.version + 1;
              };
              steps = update_step ordinal (after_remote output) s.steps;
            },
            w',
          )
        ]
  ]
