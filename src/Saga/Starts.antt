-- ===== src/Saga/Starts.antt =====
-- A saga from its start to its end.
use payment_platform.Common.{
  ℕ, suc, ◌-◌, ◌<◌, String, str_eq, str_eq_refl, ◌≡◌, refl, ap, ◌∙◌, inl, inr, arith, ◌||◌, none,
  some, List, [], ◌∷◌, ok, length, All, ◌==◌, Bool-cases,
}
use payment_platform.Common.Dict.{Dict, lookup, insert, lookup-insert}
use payment_platform.Saga.Types.{completed, Instance, Step, Definition}
use payment_platform.Saga.Steps.{new_steps}
use payment_platform.Saga.Orchestrator.{Saga, new_instance, find_definition, start}
use payment_platform.Saga.Ticks.{ticks}
use payment_platform.Saga.Forward.{IsPending, AllCompleted, IsPending-IsForward}
use payment_platform.Saga.Progress.{Succeeds, IsRunning, ticks-AllCompleted}

module _ {W : Type 0} (id : String) where
  new_steps-IsPending : (n : ℕ) (steps : List (Step W)) → IsPending n (new_steps id n steps)
  unfolding new_steps
  new_steps-IsPending n [] = tt
  new_steps-IsPending n (s ∷ steps) = (refl, (refl, new_steps-IsPending (suc n) steps))

  length-new_steps : (n : ℕ) (steps : List (Step W)) → length (new_steps id n steps) ≡ length steps
  unfolding new_steps
  length-new_steps n [] = refl
  length-new_steps n (s ∷ steps) = ap suc (length-new_steps (suc n) steps)

  -- The rows that a start inserts.
  abbrev begun : String → String → List ℕ → Definition W → Saga
  begun saga_type name input d = record {
    instance = new_instance id saga_type name input;
    steps = new_steps id 0 d.steps;
  }

  begun-IsRunning :
      (saga_type name : String) (input : List ℕ) (d : Definition W)
      → IsRunning d 0 (begun saga_type name input d)
  unfolding new_instance
  begun-IsRunning saga_type name input d = record {
    status = refl;
    current = refl;
    rows = length-new_steps 0 d.steps;
    forward = IsPending-IsForward 0 (new_steps id 0 d.steps) (new_steps-IsPending 0 d.steps);
  }

  module _ (definitions : List (Definition W)) (saga_type name : String) (input : List ℕ)
      (sagas : Dict Saga) {sagas' : Dict Saga} {i : Instance} {d : Definition W} where
    start-new :
        find_definition name definitions ≡ some d
        → lookup id sagas ≡ none
        → start definitions id saga_type name input sagas ≡ ok (sagas', i)
        → lookup id sagas' ≡ some (begun saga_type name input d)
    unfolding start
    start-new known new h =
        elim (Bool-cases (str_eq id "" || (str_eq saga_type "" || length input == 0))) [
          | inl bad ↦ ground (arith, rw (known, bad, start) at h)
          | inr good ↦
              let k = rw (known, good, new, start) at h in
              let table : insert id (begun saga_type name input d) sagas ≡ sagas' = cc in
              rw (← table)
                (lookup-insert id id (begun saga_type name input d) sagas ∙ simp (str_eq_refl id))
        ]

    -- A saga that is started under a new identifier, by a definition with a step or more whose actions
    -- are all performed, is stored, and ends completed, with every step completed, after one tick for
    -- each step.
    pub start-AllCompleted :
        (w : W)
        → find_definition name definitions ≡ some d
        → lookup id sagas ≡ none
        → All Succeeds d.steps
        → 0 < length d.steps
        → start definitions id saga_type name input sagas ≡ ok (sagas', i)
        → (s : Saga) × (lookup id sagas' ≡ some s)
          × ((ticks (length d.steps) d (s, w)).0.instance.status ≡ completed)
          × AllCompleted (ticks (length d.steps) d (s, w)).0.steps
    start-AllCompleted w known new all some_step h =
        let s = begun saga_type name input d in
        let count : suc (length d.steps - 1) ≡ length d.steps = omega (arith, some_step) in
        let (status, steps) =
          ticks-AllCompleted d all (length d.steps - 1) 0 s w
            (begun-IsRunning saga_type name input d) (omega (arith, some_step)) in
        (s, start-new known new h, rw count at status, rw count at steps)
