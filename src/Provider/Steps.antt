-- ===== src/Provider/Steps.antt =====
-- src/provider.rs: step outcomes and the rows that a listing returns.
use durust.Base.{ℤ, String, Bool, Option, none, some}
use durust.Platform.{Platform}
use durust.Error.{PortableWorkflowError, portable, app, Result, ok, err}

pub data StepOutcome (p : Platform) : Type 0 where
  output : p.Value → StepOutcome p
  failure : String → Option (PortableWorkflowError p) → StepOutcome p

pub record RecordedStep (p : Platform) : Type 0 where
  pub name : String
  pub outcome : StepOutcome p

pub record StepInfo (p : Platform) : Type 0 where
  pub step_id : ℤ
  pub name : String
  pub output : Option p.Value
  pub error : Option String
  pub child_workflow_id : Option String
  pub started_at : Option p.DateTime
  pub completed_at : Option p.DateTime

pub record NotificationInfo (p : Platform) : Type 0 where
  pub topic : Option String
  pub message : p.Value
  pub created_at_ms : ℤ
  pub consumed : Bool

pub record VersionInfo (p : Platform) : Type 0 where
  pub version_id : String
  pub version_name : String
  pub version_timestamp : p.DateTime
  pub created_at : p.DateTime

module _ {p : Platform} where
  -- `StepOutcome::into_value_result`
  unfoldable pub into_value_result : StepOutcome p → Result p p.Value
  into_value_result (output v) = ok v
  into_value_result (failure message (some pe)) = err (portable pe)
  into_value_result (failure message none) = err (app message)
