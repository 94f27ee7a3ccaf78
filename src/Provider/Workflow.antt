-- ===== src/Provider/Workflow.antt =====
-- src/provider.rs: `WorkflowStatus`, a row of the workflow table.
use durust.Base.{ℤ, pos, String, Bool, false, Option, none, List, []}
use durust.Platform.{Platform}
use durust.Error.{PortableWorkflowError}

pub record WorkflowStatus (p : Platform) : Type 0 where
  pub id : String
  pub name : String
  pub status : String
  pub input : p.Value
  pub output : Option p.Value
  pub error : Option String
  pub error_info : Option (PortableWorkflowError p)
  pub executor_id : String
  pub app_version : String
  pub queue_name : Option String
  pub queue_partition_key : Option String
  pub priority : ℤ
  pub dedup_id : Option String
  pub recovery_attempts : ℤ
  pub parent_workflow_id : Option String
  pub timeout_ms : Option ℤ
  pub deadline_ms : Option ℤ
  pub started_at_ms : Option ℤ
  pub rate_limited : Bool
  pub delay_until_ms : Option ℤ
  pub completed_at_ms : Option ℤ
  pub forked_from : Option String
  pub authenticated_user : Option String
  pub assumed_role : Option String
  pub authenticated_roles : List String
  pub class_name : Option String
  pub config_name : Option String
  pub created_at : p.DateTime
  pub updated_at : p.DateTime

module _ {p : Platform} where
  -- `WorkflowStatus::new`, at the instant `now`.
  unfoldable pub new_workflow :
      String → String → p.Value → String → String → String → p.DateTime → WorkflowStatus p
  new_workflow id name input status executor_id app_version now = record {
    id = id;
    name = name;
    status = status;
    input = input;
    output = none;
    error = none;
    error_info = none;
    executor_id = executor_id;
    app_version = app_version;
    queue_name = none;
    queue_partition_key = none;
    priority = pos 0;
    dedup_id = none;
    recovery_attempts = pos 0;
    parent_workflow_id = none;
    timeout_ms = none;
    deadline_ms = none;
    started_at_ms = none;
    rate_limited = false;
    delay_until_ms = none;
    completed_at_ms = none;
    forked_from = none;
    authenticated_user = none;
    assumed_role = none;
    authenticated_roles = [];
    class_name = none;
    config_name = none;
    created_at = now;
    updated_at = now;
  }
