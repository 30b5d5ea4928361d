-- ===== src/Saga/Progress.antt =====
-- Ticks of a saga whose actions are performed, internal/saga/orchestrator.go.
use payment_platform.Common.{
  ℕ, zero, suc, ◌+◌, ◌<◌, ◌≡◌, refl, ◌∙◌, arith, true, false, some, List, [], ◌∷◌, ◌==◌, leb,
  if◌then◌else◌, length, All,
}
use payment_platform.Saga.Types.{
  running, completed, StepStatus, step_pending, step_waiting, step_completed, step_failed,
  step_compensated, step_compensation_failed, StepRecord, ActionContext, ActionResult, performed,
  Action, Step, Definition,
}
use payment_platform.Saga.Steps.{load_step, after_action}
use payment_platform.Saga.Orchestrator.{Saga, nth, advance_instance}
use payment_platform.Saga.Ticks.{
  after_execute, run_step, execute_as, execute_one, attempt_as, attempt, tick, ticks,
}
use payment_platform.Saga.Forward.{
  is_open, IsForward, AllCompleted, load_step-IsForward, length-update_step, IsForward-update_step,
  IsForward-AllCompleted,
}

abbrev pub done : List ℕ → ActionResult
done output = record { output = output; wait = false }

next : (c : ℕ) (s : Saga) → s.instance.current_step ≡ c → s.instance.current_step + 1 ≡ suc c
next c s e = omega (arith, e)

module _ {W : Type 0} where
  -- An action that is performed wherever it runs, and does not wait for a remote result.
  pub record Succeeds (a : Step W) : Type 0 where
    pub run : Action W
    pub known : a.execute ≡ some run
    pub world : ActionContext → W → W
    pub output : ActionContext → W → List ℕ
    pub performs : (x : ActionContext) (w : W) → run x w ≡ performed (world x w) (done (output x w))

  nth-All :
      (n : ℕ) (steps : List (Step W))
      → n < length steps
      → All Succeeds steps
      → (a : Step W) × (nth n steps ≡ some a) × Succeeds a
  unfolding nth
  nth-All n [] small h = absurd (omega arith)
  nth-All zero (a ∷ steps) small h = (a, refl, h.0)
  nth-All (suc n) (a ∷ steps) small h = nth-All n steps (omega arith) h.1

  execute_as-open :
      (status : StepStatus) (d : Definition W) (s : Saga) (step : StepRecord) (w : W) {a : Step W}
      → is_open status ≡ true
      → nth step.ordinal d.steps ≡ some a
      → execute_as status d s step w ≡ run_step (length d.steps) a s step w
  unfolding execute_as
  execute_as-open step_pending d s step w h e = rw (e, execute_as) refl
  execute_as-open step_failed d s step w h e = rw (e, execute_as) refl
  execute_as-open step_waiting d s step w h e = cc
  execute_as-open step_completed d s step w h e = cc
  execute_as-open step_compensated d s step w h e = cc
  execute_as-open step_compensation_failed d s step w h e = cc

  -- A running saga whose rows are those of its definition, with the completed steps behind it.
  pub record IsRunning (d : Definition W) (c : ℕ) (s : Saga) : Type 0 where
    pub status : s.instance.status ≡ running
    pub current : s.instance.current_step ≡ c
    pub rows : length s.steps ≡ length d.steps
    pub forward : IsForward 0 c s.steps

  -- What a tick of such a saga leaves: one more completed step.
  record IsAdvanced (d : Definition W) (c : ℕ) (s : Saga) : Type 0 where
    status : s.instance.status ≡ (if suc c == length d.steps then completed else running)
    current : s.instance.current_step ≡ suc c
    rows : length s.steps ≡ length d.steps
    forward : IsForward 0 (suc c) s.steps

  module _ (d : Definition W) (all : All Succeeds d.steps) where
    run_step-Succeeds :
        (s : Saga) (step : StepRecord) (w : W) {a : Step W} (v : Succeeds a)
        → run_step (length d.steps) a s step w
          ≡ after_execute
              (length d.steps)
              s
              step
              (v.world (record { instance = s.instance; step = step }) w)
              (done (v.output (record { instance = s.instance; step = step }) w))
    unfolding run_step
    run_step-Succeeds s step w v = rw (v.known, run_step, v.performs _ w) refl

    attempt-Succeeds :
        (c : ℕ) (s : Saga) (w : W) (step : StepRecord)
        → IsRunning d c s
        → c < length d.steps
        → load_step c s.steps ≡ some step
        → step.ordinal ≡ c
        → is_open step.status ≡ true
        → (w' : W) × (output : List ℕ) × (attempt d s w
            ≡ after_execute (length d.steps) s step w' (done output))
    unfolding attempt attempt_as execute_one
    attempt-Succeeds c s w step v small found at opened =
        let (a, known, v_a) = nth-All step.ordinal d.steps (omega (arith, at)) all in
        let early : leb (length d.steps) s.instance.current_step ≡ false =
          ground (arith, v.current) in
        let here : load_step s.instance.current_step s.steps ≡ some step = rw (v.current) found in
        let first : attempt_as s.instance.status d s w ≡ execute_as step.status d s step w =
          simp (v.status) (rw (early, here, execute_one) refl) in
        (
          v_a.world (record { instance = s.instance; step = step }) w,
          v_a.output (record { instance = s.instance; step = step }) w,
          first
              ∙ execute_as-open step.status d s step w opened known
              ∙ run_step-Succeeds s step w v_a,
        )

    tick-IsAdvanced :
        (c : ℕ) (s : Saga) (w : W)
        → IsRunning d c s
        → c < length d.steps
        → IsAdvanced d c (tick d (s, w)).0.0
    unfolding tick after_execute advance_instance after_action
    tick-IsAdvanced c s w v small =
        let (step, found, at, opened) =
          load_step-IsForward 0 c c s.steps v.forward (omega (arith, v.rows)) (omega arith) in
        let (w', output, e) = attempt-Succeeds c s w step v small found at opened in
        rw (e, tick)
          (record {
            status = rw (next c s v.current) refl;
            current = omega (arith, v.current);
            rows =
                length-update_step step.ordinal (after_action step_completed output) s.steps
                ∙ v.rows;
            forward =
                IsForward-update_step step.ordinal (after_action step_completed output) 0 c s.steps
                  (λ x. refl) (λ x. refl) v.forward (omega (arith, v.rows)) (omega (arith, at));
          })

    -- A running saga of which a number of steps is completed and whose actions are all performed ends
    -- completed, with every step completed, after one tick for each step that is left.
    pub ticks-AllCompleted :
        (left c : ℕ) (s : Saga) (w : W)
        → IsRunning d c s
        → c + suc left ≡ length d.steps
        → let end : Saga × W = ticks (suc left) d (s, w) in
          (end.0.instance.status ≡ completed) × AllCompleted end.0.steps
    unfolding ticks
    ticks-AllCompleted zero c s w v e =
        let a = tick-IsAdvanced c s w v (omega (arith, e)) in
        let last : (suc c == length d.steps) ≡ true = ground (arith, e) in
        (
          a.status ∙ rw last refl,
          IsForward-AllCompleted 0 (suc c) _ a.forward (omega (arith, a.rows, e)),
        )
    ticks-AllCompleted (suc left) c s w v e =
        let a = tick-IsAdvanced c s w v (omega (arith, e)) in
        let more : (suc c == length d.steps) ≡ false = ground (arith, e) in
        ticks-AllCompleted left (suc c) (tick d (s, w)).0.0 (tick d (s, w)).0.1
          (record {
            status = a.status ∙ rw more refl;
            current = a.current;
            rows = a.rows;
            forward = a.forward;
          })
          (omega (arith, e))
