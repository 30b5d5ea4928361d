-- ===== src/Saga/Compensation.antt =====
-- Ticks of a saga that compensates, internal/saga/orchestrator.go.
use payment_platform.Common.{
  ℕ, zero, suc, false, ◌+◌, ◌<◌, ◌≤◌, ◌≡◌, refl, ap, ◌∙◌, inl, inr, ◌⊎◌, arith, none, some, List,
  [], ◌∷◌, length, All, subst,
}
use native.Mathlib.Nat.{zero-add, suc-add, add-zero}
use payment_platform.Saga.Types.{
  compensating, compensated, StepRecord, ActionContext, ActionResult, performed, Action, Step,
  Definition,
}
use payment_platform.Saga.Steps.{last_compensatable, after_compensation}
use payment_platform.Saga.Orchestrator.{Saga, nth, committed, all_compensated, progressed}
use payment_platform.Saga.Ticks.{
  compensated_step, undo_step, compensate_one, attempt_as, attempt, tick, ticks,
}
use payment_platform.Saga.Forward.{length-update_step}
use payment_platform.Saga.Backward.{
  IsBackward, last_compensatable-none, last_compensatable-last, IsBackward-update_step,
}

-- All that was completed is undone.
pub record IsUndone (c : ℕ) (s : Saga) : Type 0 where
  pub status : s.instance.status ≡ compensated
  pub backward : IsBackward 0 zero c s.steps

module _ {W : Type 0} where
  -- A compensation that is performed wherever it runs.
  pub record Compensates (a : Step W) : Type 0 where
    pub run : Action W
    pub known : a.compensate ≡ some run
    pub world : ActionContext → W → W
    pub result : ActionContext → W → ActionResult
    pub performs : (x : ActionContext) (w : W) → run x w ≡ performed (world x w) (result x w)

  -- A step with nothing to compensate, or whose compensation is performed.
  abbrev pub Undoes : Step W → Type 0
  Undoes a = (a.compensate ≡ none) ⊎ Compensates a

  nth-Undoes :
      (n : ℕ) (steps : List (Step W))
      → n < length steps
      → All Undoes steps
      → (a : Step W) × (nth n steps ≡ some a) × Undoes a
  unfolding nth
  nth-Undoes n [] small h = absurd (omega arith)
  nth-Undoes zero (a ∷ steps) small h = (a, refl, h.0)
  nth-Undoes (suc n) (a ∷ steps) small h = nth-Undoes n steps (omega arith) h.1

  undo_step-Undoes :
      (a : Step W) (s : Saga) (step : StepRecord) (w : W)
      → Undoes a
      → (w' : W) × (undo_step a s step w ≡ compensated_step s step w')
  unfolding undo_step
  undo_step-Undoes a s step w (inl nothing) = (w, rw (nothing, undo_step) refl)
  undo_step-Undoes a s step w (inr v) =
      let x : ActionContext = record { instance = s.instance; step = step } in
      (v.world x w, rw (v.known, undo_step, v.performs x w) refl)

  -- A saga that compensates: so many steps are left to undo, so many are undone.
  pub record IsCompensating (d : Definition W) (c u : ℕ) (s : Saga) : Type 0 where
    pub status : s.instance.status ≡ compensating
    pub rows : length s.steps ≡ length d.steps
    pub backward : IsBackward 0 c u s.steps

  module _ (d : Definition W) (all : All Undoes d.steps) where
    IsBackward-small :
        (k c u : ℕ) (steps : List StepRecord) → IsBackward k c u steps → c ≤ length steps
    IsBackward-small k zero u steps h = omega arith
    IsBackward-small k (suc c) u [] h = absurd h
    IsBackward-small k (suc c) u (s ∷ steps) h =
        omega (arith, IsBackward-small (suc k) c u steps h.1.1)

    attempt-compensating :
        (s : Saga) (w : W) → s.instance.status ≡ compensating → attempt d s w ≡ compensate_one d s w
    unfolding attempt attempt_as
    attempt-compensating s w e = ap (λ x. attempt_as x d s w) e

    compensate_one-step :
        (s : Saga) (w : W) {step : StepRecord} {a : Step W}
        → last_compensatable s.steps ≡ some step
        → nth step.ordinal d.steps ≡ some a
        → compensate_one d s w ≡ undo_step a s step w
    unfolding compensate_one
    compensate_one-step s w found known = rw (found, compensate_one, known) refl

    tick-IsCompensating :
        (c u : ℕ) (s : Saga) (w : W)
        → IsCompensating d (suc c) u s
        → IsCompensating d c (suc u) (tick d (s, w)).0.0
    unfolding tick compensated_step
    tick-IsCompensating c u s w v =
        let (step, found, at) = last_compensatable-last 0 c u s.steps v.backward in
        let small = IsBackward-small 0 (suc c) u s.steps v.backward in
        let (a, known, undoes) =
          nth-Undoes step.ordinal d.steps (omega (arith, at, small, v.rows)) all in
        let (w', undone) = undo_step-Undoes a s step w undoes in
        let e = attempt-compensating s w v.status ∙ compensate_one-step s w found known ∙ undone in
        rw (e, tick)
          (record {
            status = v.status;
            rows = length-update_step step.ordinal after_compensation s.steps ∙ v.rows;
            backward =
                IsBackward-update_step step.ordinal 0 c u s.steps v.backward (omega (arith, at));
          })

    compensate_one-none :
        (s : Saga) (w : W)
        → last_compensatable s.steps ≡ none
        → compensate_one d s w
          ≡ committed
              (record s { instance = all_compensated s.instance })
              w
              (progressed (all_compensated s.instance) false)
    unfolding compensate_one
    compensate_one-none s w e = rw (e, compensate_one) refl

    tick-IsUndone :
        (u : ℕ) (s : Saga) (w : W) → IsCompensating d zero u s → IsUndone u (tick d (s, w)).0.0
    unfolding tick
    tick-IsUndone u s w v =
        let none_left = last_compensatable-none 0 u s.steps v.backward in
        let e = attempt-compensating s w v.status ∙ compensate_one-none s w none_left in
        rw (e, tick) (record { status = refl; backward = v.backward })

    ticks-IsCompensating :
        (i c u : ℕ) (s : Saga) (w : W)
        → IsCompensating d (i + c) u s
        → IsCompensating d c (i + u) (ticks i d (s, w)).0
    unfolding ticks
    ticks-IsCompensating zero c u s w v = simp (zero-add) (simp (zero-add) at v)
    ticks-IsCompensating (suc i) c u s w v =
        let first = tick-IsCompensating (i + c) u s w (simp (suc-add) at v) in
        let rest = ticks-IsCompensating i c (suc u) (tick d (s, w)).0.0 (tick d (s, w)).0.1 first in
        let moved : i + suc u ≡ suc i + u = omega arith in
        subst (λ n. IsCompensating d c n (ticks i d (tick d (s, w)).0).0) moved rest

    ticks-last : (i : ℕ) (state : Saga × W) → ticks (suc i) d state ≡ (tick d (ticks i d state)).0
    unfolding ticks
    ticks-last zero state = refl
    ticks-last (suc i) state = ticks-last i (tick d state).0

    -- A saga that compensates, with a number of completed steps behind it, undoes them one for each tick,
    -- the last one first, where what the steps compensate with is performed: after so many ticks, as many
    -- are undone and the others still stand, and after one tick more than there are steps to undo, the
    -- saga is marked as compensated, with all of them undone.
    pub ticks-IsUndone :
        (c i j : ℕ) (s : Saga) (w : W)
        → i + j ≡ c
        → IsCompensating d c 0 s
        → IsCompensating d j i (ticks i d (s, w)).0 × IsUndone c (ticks (suc c) d (s, w)).0
    ticks-IsUndone c i j s w e v =
        let undoing : (i j : ℕ) → i + j ≡ c → IsCompensating d j (i + 0) (ticks i d (s, w)).0 =
          λ i j e. ticks-IsCompensating i j 0 s w (rw e v) in
        (
          rw (add-zero i) at (undoing i j e),
          rw (ticks-last c (s, w)) (
              tick-IsUndone c (ticks c d (s, w)).0 (ticks c d (s, w)).1
                (rw (add-zero c) at (undoing c 0 (omega arith)))),
        )
