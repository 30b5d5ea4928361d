-- ===== src/Saga/Races.antt =====
-- Messages and failures that come late: a remote result that is delivered again, and a failure that is
-- recorded after another coordinator has completed the step.
use payment_platform.Common.{
  ℕ, ◌≡◌, ◌≢◌, refl, ap, inl, inr, arith, true, false, Option, some, List, [], ◌∷◌, ok, subst, ◌+◌,
  ◌==◌, not, ◌||◌, Bool-cases, Option-cases,
}
use mathlib.Core.Option.{map}
use payment_platform.Saga.Types.{compensating, step_completed, step_failed, StepRecord}
use payment_platform.Saga.Steps.{
  load_step, update_step, is_compensatable, last_compensatable, after_failure, after_remote,
}
use payment_platform.Saga.Orchestrator.{
  Saga, record_failure, is_settled, is_waiting, is_running, truncate,
}
use payment_platform.Saga.Ticks.{complete_waiting}

-- The row of an ordinal after an update of it.
load_step-update_step :
    (n : ℕ) (f : StepRecord → StepRecord) (steps : List StepRecord) {x : StepRecord}
    → ((s : StepRecord) → (f s).ordinal ≡ s.ordinal)
    → load_step n steps ≡ some x
    → load_step n (update_step n f steps) ≡ some (f x)
unfolding load_step update_step
load_step-update_step n f [] keeps h = ground arith
load_step-update_step n f (s ∷ steps) {x} keeps h = elim (Bool-cases (s.ordinal == n)) [
  | inl here ↦
      let still : ((f s).ordinal == n) ≡ true = rw (keeps s) here in
      let e : s ≡ x = ground (arith, rw here at h) in rw (here, still) (ap (λ y. some (f y)) e)
  | inr other ↦ rw (other, other) (load_step-update_step n f steps keeps (rw other at h))
]

complete_waiting-settled :
    {W : Type 0} (n : ℕ) (output : List ℕ) (apply : W → Option W) (s : Saga) (w : W)
    {x : StepRecord}
    → load_step n s.steps ≡ some x
    → is_settled x.status ≡ true
    → complete_waiting n output apply (s, w) ≡ ok (s, w)
unfolding complete_waiting
complete_waiting-settled n output apply s w e settled = rw (e, complete_waiting, settled) refl

-- The saga after the remote result of a waiting step.
abbrev remote_saga : ℕ → List ℕ → Saga → Saga
remote_saga n output s = record {
  instance = record (s.instance) {
    current_step = s.instance.current_step + 1;
    version = s.instance.version + 1;
  };
  steps = update_step n (after_remote output) s.steps;
}

-- A remote result that has been applied is not applied again, whatever a later message carries.
pub complete_waiting-again :
    {W : Type 0} (n : ℕ) (output output' : List ℕ) (apply apply' : W → Option W) (s : Saga) (w : W)
    {s' : Saga} {w' : W}
    → complete_waiting n output apply (s, w) ≡ ok (s', w')
    → complete_waiting n output' apply' (s', w') ≡ ok (s', w')
unfolding complete_waiting after_remote
complete_waiting-again {W} n output output' apply apply' s w {s'} {w'} h =
    elim (Option-cases (load_step n s.steps)) [
      | inl missing ↦ ground (arith, rw (missing, complete_waiting) at h)
      | inr (x, e) ↦ elim (Bool-cases (is_settled x.status)) [
        | inl settled ↦
            let k = rw (e, complete_waiting, settled) at h in
            let same : ◌≡◌ {A = Saga × W} (s, w) (s', w') = cc in
            subst (λ p. complete_waiting n output' apply' p ≡ ok p) same
              (complete_waiting-settled n output' apply' s w e settled)
        | inr unsettled ↦
            elim (Bool-cases (
              not (is_waiting x.status)
              || (not (s.instance.current_step == n) || not (is_running s.instance.status)))) [
                | inl idle ↦ ground (arith, rw (e, complete_waiting, unsettled, idle) at h)
                | inr waiting ↦ elim (Option-cases (apply w)) [
                  | inl failed ↦
                      ground (arith, rw (e, complete_waiting, unsettled, waiting, failed) at h)
                  | inr (w₁, applied) ↦
                      let k = rw (e, complete_waiting, unsettled, waiting, applied) at h in
                      let u : Saga = remote_saga n output s in
                      let same : ◌≡◌ {A = Saga × W} (u, w₁) (s', w') = cc in
                      subst (λ p. complete_waiting n output' apply' p ≡ ok p) same
                        (complete_waiting-settled n output' apply' u w₁
                          (load_step-update_step n (after_remote output) s.steps (λ y. refl) e)
                          refl)
                ]
              ]
      ]
    ]

module _ (n : ℕ) (message : List ℕ) where
  last_compensatable-ne :
      (steps : List StepRecord) {z : StepRecord}
      → last_compensatable (update_step n (after_failure step_failed message) steps) ≡ some z
      → z.ordinal ≢ n
  unfolding last_compensatable update_step after_failure
  last_compensatable-ne [] h = ground arith
  last_compensatable-ne (s ∷ steps) {z} h = elim (Bool-cases (s.ordinal == n)) [
    | inl here ↦ last_compensatable-ne steps (rw here at h)
    | inr other ↦ elim (Bool-cases (is_compensatable s.status)) [
      | inr nothing ↦ last_compensatable-ne steps (rw (other, nothing) at h)
      | inl done ↦
          let k = rw (other, done) at h in
          elim (Option-cases
            (last_compensatable (update_step n (after_failure step_failed message) steps))) [
              | inl last ↦ ground (arith, rw last at k)
              | inr (t, e) ↦ ground (arith, rw e at k, last_compensatable-ne steps e)
            ]
    ]
  ]

  last_compensatable-spared :
      (steps : List StepRecord)
      → map
          (λ z. z.ordinal)
          (last_compensatable (update_step n (after_failure step_failed message) steps))
        ≢ some n
  last_compensatable-spared steps =
      elim (Option-cases
        (last_compensatable (update_step n (after_failure step_failed message) steps))) [
          | inl nothing ↦ rw nothing (λ h. ground arith)
          | inr (z, e) ↦ rw e (λ h. last_compensatable-ne steps e (ground arith))
        ]

-- A failure that is recorded for good after another coordinator has completed the step: the saga starts to
-- compensate, the completed step reads as failed with its output kept, and the next compensation does
-- not pick it.
pub record_failure-strands :
    (n : ℕ) (message : List ℕ) (s : Saga) {x : StepRecord}
    → load_step n s.steps ≡ some x
    → x.status ≡ step_completed
    → let s' : Saga = record_failure n false true message s in
      (s'.instance.status ≡ compensating)
      × ((y : StepRecord) × (load_step n s'.steps ≡ some y)
          × (y.status ≡ step_failed)
          × (y.output ≡ x.output))
      × (map (λ z. z.ordinal) (last_compensatable s'.steps) ≢ some n)
unfolding record_failure after_failure
record_failure-strands n message s {x} e done = (
  refl,
  (
    after_failure step_failed (truncate message) x,
    load_step-update_step n (after_failure step_failed (truncate message)) s.steps (λ y. refl) e,
    refl,
    refl,
  ),
  last_compensatable-spared n (truncate message) s.steps,
)
