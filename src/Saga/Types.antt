-- ===== src/Saga/Types.antt =====
-- internal/saga/types.go: instances, steps, definitions and actions. `W` is what the actions change, the
-- database outside of the saga's own rows.
use payment_platform.Common.{
  ℕ, String, str_eq, Bool, true, false, not, ◌||◌, ◌&&◌, Option, none, some, List, [], ◌∷◌, Result,
  ok, err, if◌then◌else◌,
}

pub data Error : Type 0 where
  invalid_saga definition_missing definition_conflict not_waiting no_rows : Error
  bad_status missing_step apply_failed : Error

pub data Status : Type 0 where
  running compensating completed compensated failed : Status

pub data StepStatus : Type 0 where
  step_pending step_waiting step_completed step_failed step_compensated : StepStatus
  step_compensation_failed : StepStatus

-- Bytes that SQL holds as NULL are empty.
pub record Instance : Type 0 where
  pub id : String
  pub saga_type : String
  pub definition : String
  pub status : Status
  pub input : List ℕ
  pub result : List ℕ
  pub current_step : ℕ
  pub version : ℕ
  pub last_error : List ℕ

pub record StepRecord : Type 0 where
  pub saga_id : String
  pub ordinal : ℕ
  pub name : String
  pub effect_id : String
  pub status : StepStatus
  pub attempts : ℕ
  pub output : List ℕ
  pub last_error : List ℕ

pub record ActionContext : Type 0 where
  pub instance : Instance
  pub step : StepRecord

pub record ActionResult : Type 0 where
  pub output : List ℕ
  pub wait : Bool

module _ (W : Type 0) where
  -- An action fails with a message, for good or for a while.
  pub data Outcome : Type 0 where
    performed : W → ActionResult → Outcome
    broken : Bool → List ℕ → Outcome

  abbrev pub Action : Type 0
  Action = ActionContext → W → Outcome

  pub record Step : Type 0 where
    pub name : String
    pub execute : Option Action
    pub compensate : Option Action

  pub record Definition : Type 0 where
    pub name : String
    pub steps : List Step

unfoldable pub is_seen : String → List String → Bool
is_seen name [] = false
is_seen name (x ∷ xs) = str_eq x name || is_seen name xs

-- `Definition.Validate`
module _ {W : Type 0} where
  abbrev pub has_action : Option (Action W) → Bool
  has_action none = false
  has_action (some _) = true

  unfoldable pub valid_steps : List (Step W) → List String → Bool
  valid_steps [] seen = true
  valid_steps (s ∷ steps) seen =
      (not (str_eq s.name "") && (has_action s.execute && not (is_seen s.name seen)))
      && valid_steps steps (s.name ∷ seen)

  abbrev pub is_empty : List (Step W) → Bool
  is_empty [] = true
  is_empty (s ∷ steps) = false

  unfoldable pub validate_definition : Definition W → Result Error (Unit {0})
  validate_definition d =
      if str_eq d.name "" || (is_empty d.steps || not (valid_steps d.steps []))
      then err invalid_saga
      else ok tt
