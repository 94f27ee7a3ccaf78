-- ===== src/Provider/Requests.antt =====
-- src/provider.rs: the parameters of `dequeue_workflows`, `fork_workflow` and `list_workflows`.
use durust.Base.{ℤ, String, Bool, true, false, Option, none, List, []}

pub record DequeueRequest : Type 0 where
  pub queue_name : String
  pub executor_id : String
  pub app_version : String
  pub partition_key : Option String
  pub max_tasks : ℤ
  pub global_concurrency : Option ℤ
  pub rate_limit_max : Option ℤ
  pub rate_limit_period_ms : Option ℤ

pub record ForkParams : Type 0 where
  pub original_id : String
  pub new_id : String
  pub start_step : ℤ
  pub app_version : Option String
  pub queue_name : String
  pub partition_key : Option String

pub record ListFilter : Type 0 where
  pub workflow_ids : List String
  pub workflow_id_prefix : List String
  pub name : List String
  pub status : List String
  pub queue_name : List String
  pub app_version : List String
  pub executor_ids : List String
  pub authenticated_users : List String
  pub forked_from : List String
  pub parent_workflow_ids : List String
  pub was_forked_from : Option Bool
  pub start_time_ms : Option ℤ
  pub end_time_ms : Option ℤ
  pub completed_after_ms : Option ℤ
  pub completed_before_ms : Option ℤ
  pub dequeued_after_ms : Option ℤ
  pub dequeued_before_ms : Option ℤ
  pub has_parent : Option Bool
  pub limit : Option ℤ
  pub offset : Option ℤ
  pub sort_desc : Bool
  pub queues_only : Bool
  pub load_input : Bool
  pub load_output : Bool

-- `ListFilter::default`
abbrev pub default_filter : ListFilter
default_filter = record {
  workflow_ids = [];
  workflow_id_prefix = [];
  name = [];
  status = [];
  queue_name = [];
  app_version = [];
  executor_ids = [];
  authenticated_users = [];
  forked_from = [];
  parent_workflow_ids = [];
  was_forked_from = none;
  start_time_ms = none;
  end_time_ms = none;
  completed_after_ms = none;
  completed_before_ms = none;
  dequeued_after_ms = none;
  dequeued_before_ms = none;
  has_parent = none;
  limit = none;
  offset = none;
  sort_desc = false;
  queues_only = false;
  load_input = true;
  load_output = true;
}
