-- ===== src/Saga/Backward.antt =====
-- The rows of a saga that compensates: completed steps, then those that are undone.
use payment_platform.Common.{
  ℕ, zero, suc, ◌+◌, ◌<◌, ◌≡◌, refl, ap, arith, true, false, none, some, List, [], ◌∷◌, ◌==◌, ltb,
}
use payment_platform.Saga.Types.{step_compensated, StepRecord}
use payment_platform.Saga.Steps.{
  update_step, is_compensatable, last_compensatable, after_compensation,
}

-- The rows from an ordinal on: so many are still to be undone, so many are undone, and the others hold
-- nothing to undo.
abbrev pub IsBackward : ℕ → ℕ → ℕ → List StepRecord → Type 0
IsBackward k zero zero [] = Unit {0}
IsBackward k zero zero (s ∷ steps) =
    (s.ordinal ≡ k) × ((is_compensatable s.status ≡ false) × IsBackward (suc k) zero zero steps)
IsBackward k zero (suc u) [] = ⊥
IsBackward k zero (suc u) (s ∷ steps) =
    (s.ordinal ≡ k) × ((s.status ≡ step_compensated) × IsBackward (suc k) zero u steps)
IsBackward k (suc c) u [] = ⊥
IsBackward k (suc c) u (s ∷ steps) =
    (s.ordinal ≡ k) × ((is_compensatable s.status ≡ true) × IsBackward (suc k) c u steps)

pub last_compensatable-none :
    (k u : ℕ) (steps : List StepRecord)
    → IsBackward k zero u steps
    → last_compensatable steps ≡ none
unfolding last_compensatable
last_compensatable-none k zero [] h = refl
last_compensatable-none k zero (s ∷ steps) h =
    rw (h.1.0) (last_compensatable-none (suc k) zero steps h.1.1)
last_compensatable-none k (suc u) [] h = absurd h
last_compensatable-none k (suc u) (s ∷ steps) h =
    rw (ap is_compensatable h.1.0) (last_compensatable-none (suc k) u steps h.1.1)

-- The step to undo is the last of those that are left.
pub last_compensatable-last :
    (k c u : ℕ) (steps : List StepRecord)
    → IsBackward k (suc c) u steps
    → (s : StepRecord) × (last_compensatable steps ≡ some s) × (s.ordinal ≡ k + c)
unfolding last_compensatable
last_compensatable-last k c u [] h = absurd h
last_compensatable-last k zero u (s ∷ steps) h =
    (s, rw (h.1.0, last_compensatable-none (suc k) u steps h.1.1) refl, omega (arith, h.0))
last_compensatable-last k (suc c) u (s ∷ steps) h =
    let (t, found, at) = last_compensatable-last (suc k) c u steps h.1.1 in
    let after : ltb s.ordinal t.ordinal ≡ true = ground (arith, h.0, at) in
    (t, rw (h.1.0, found, after) refl, omega (arith, at))

IsBackward-kept :
    (n k u : ℕ) (f : StepRecord → StepRecord) (steps : List StepRecord)
    → n < k
    → IsBackward k zero u steps
    → IsBackward k zero u (update_step n f steps)
unfolding update_step
IsBackward-kept n k zero f [] small h = tt
IsBackward-kept n k zero f (s ∷ steps) small h =
    let other : (s.ordinal == n) ≡ false = ground (arith, h.0) in
    rw other (h.0, (h.1.0, IsBackward-kept n (suc k) zero f steps (omega arith) h.1.1))
IsBackward-kept n k (suc u) f [] small h = absurd h
IsBackward-kept n k (suc u) f (s ∷ steps) small h =
    let other : (s.ordinal == n) ≡ false = ground (arith, h.0) in
    rw other (h.0, (h.1.0, IsBackward-kept n (suc k) u f steps (omega arith) h.1.1))

pub IsBackward-update_step :
    (n k c u : ℕ) (steps : List StepRecord)
    → IsBackward k (suc c) u steps
    → n ≡ k + c
    → IsBackward k c (suc u) (update_step n after_compensation steps)
unfolding update_step after_compensation
IsBackward-update_step n k c u [] h e = absurd h
IsBackward-update_step n k zero u (s ∷ steps) h e =
    let here : (s.ordinal == n) ≡ true = ground (arith, h.0) in
    rw here (h.0, (refl, IsBackward-kept n (suc k) u after_compensation steps (omega arith) h.1.1))
IsBackward-update_step n k (suc c) u (s ∷ steps) h e =
    let other : (s.ordinal == n) ≡ false = ground (arith, h.0) in
    rw other (h.0, (h.1.0, IsBackward-update_step n (suc k) c u steps h.1.1 (omega arith)))
