-- ===== src/Saga/Forward.antt =====
-- The rows of a saga that goes forward: completed steps, one that may be tried, and pending ones.
use payment_platform.Common.{
  ℕ, zero, suc, ◌+◌, ◌<◌, ◌≡◌, refl, ap, ◌∙◌, arith, Bool, true, false, some, List, [], ◌∷◌, ◌==◌,
  length, All,
}
use payment_platform.Saga.Types.{StepStatus, step_pending, step_completed, step_failed, StepRecord}
use payment_platform.Saga.Steps.{load_step, update_step}

abbrev pub is_open : StepStatus → Bool
is_open step_pending = true
is_open step_failed = true
is_open _ = false

-- The rows from an ordinal on, none of which has been tried.
abbrev pub IsPending : ℕ → List StepRecord → Type 0
IsPending k [] = Unit {0}
IsPending k (s ∷ steps) = (s.ordinal ≡ k) × ((s.status ≡ step_pending) × IsPending (suc k) steps)

-- The rows from an ordinal on: so many are completed, the next may be tried, the others are pending.
abbrev pub IsForward : ℕ → ℕ → List StepRecord → Type 0
IsForward k zero [] = Unit {0}
IsForward k zero (s ∷ steps) =
    (s.ordinal ≡ k) × ((is_open s.status ≡ true) × IsPending (suc k) steps)
IsForward k (suc c) [] = ⊥
IsForward k (suc c) (s ∷ steps) =
    (s.ordinal ≡ k) × ((s.status ≡ step_completed) × IsForward (suc k) c steps)

pub IsPending-IsForward :
    (k : ℕ) (steps : List StepRecord) → IsPending k steps → IsForward k zero steps
IsPending-IsForward k [] h = tt
IsPending-IsForward k (s ∷ steps) h = (h.0, (ap is_open h.1.0, h.1.1))

pub load_step-IsForward :
    (k c n : ℕ) (steps : List StepRecord)
    → IsForward k c steps
    → c < length steps
    → n ≡ k + c
    → (s : StepRecord) × (load_step n steps ≡ some s) × (s.ordinal ≡ n) × (is_open s.status ≡ true)
unfolding load_step
load_step-IsForward k zero n [] h small e = absurd (omega arith)
load_step-IsForward k zero n (s ∷ steps) h small e = (s, ground arith, omega (arith, h.0), h.1.0)
load_step-IsForward k (suc c) n [] h small e = absurd h
load_step-IsForward k (suc c) n (s ∷ steps) h small e =
    let (t, found, at, opened) =
      load_step-IsForward (suc k) c n steps h.1.1 (omega arith) (omega arith) in
    let other : (s.ordinal == n) ≡ false = ground arith in (t, rw other found, at, opened)

module _ (n : ℕ) (f : StepRecord → StepRecord) where
  pub length-update_step : (steps : List StepRecord) → length (update_step n f steps) ≡ length steps
  unfolding update_step
  length-update_step [] = refl
  length-update_step (s ∷ steps) = ap suc (length-update_step steps)

  IsPending-update_step :
      (k : ℕ) (steps : List StepRecord)
      → n < k
      → IsPending k steps
      → IsPending k (update_step n f steps)
  unfolding update_step
  IsPending-update_step k [] small h = tt
  IsPending-update_step k (s ∷ steps) small h =
      let other : (s.ordinal == n) ≡ false = ground arith in
      rw other (h.0, (h.1.0, IsPending-update_step (suc k) steps (omega arith) h.1.1))

  -- Completing the open step makes one more completed step.
  pub IsForward-update_step :
      (k c : ℕ) (steps : List StepRecord)
      → ((s : StepRecord) → (f s).ordinal ≡ s.ordinal)
      → ((s : StepRecord) → (f s).status ≡ step_completed)
      → IsForward k c steps
      → c < length steps
      → n ≡ k + c
      → IsForward k (suc c) (update_step n f steps)
  unfolding update_step
  IsForward-update_step k zero [] keeps done h small e = absurd (omega arith)
  IsForward-update_step k zero (s ∷ steps) keeps done h small e =
      let here : (s.ordinal == n) ≡ true = ground arith in
      rw here (
        keeps s ∙ h.0,
        (
          done s,
          IsPending-IsForward (suc k) (update_step n f steps)
              (IsPending-update_step (suc k) steps (omega arith) h.1.1),
        ),
      )
  IsForward-update_step k (suc c) [] keeps done h small e = absurd h
  IsForward-update_step k (suc c) (s ∷ steps) keeps done h small e =
      let other : (s.ordinal == n) ≡ false = ground arith in
      rw other (
        h.0,
        (h.1.0, IsForward-update_step (suc k) c steps keeps done h.1.1 (omega arith) (omega arith)),
      )

-- Rows that are all completed.
abbrev pub AllCompleted : List StepRecord → Type 0
AllCompleted steps = All (λ s. s.status ≡ step_completed) steps

pub IsForward-AllCompleted :
    (k c : ℕ) (steps : List StepRecord)
    → IsForward k c steps
    → length steps ≡ c
    → AllCompleted steps
IsForward-AllCompleted k zero [] h e = tt
IsForward-AllCompleted k zero (s ∷ steps) h e = absurd (omega arith)
IsForward-AllCompleted k (suc c) [] h e = tt
IsForward-AllCompleted k (suc c) (s ∷ steps) h e =
    (h.1.0, IsForward-AllCompleted (suc k) c steps h.1.1 (omega arith))
