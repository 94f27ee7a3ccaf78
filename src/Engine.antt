-- ===== src/Engine.antt =====
-- src/engine.rs: the options of a run, the identity it runs under (src/context.rs), and the shared
-- core of the engine, `Runtime`.
pub mod Create
pub mod Spawn
pub mod Run
pub mod Recover
pub mod Requests
pub mod Claim
use Prim.Native.String.{◌++◌ as text_append}
use durust.Base.{
  ℕ, ◌/◌, ℤ, pos, i64, String, Bool, true, false, not, Option, none, some, List, [], ◌==◌,
  string_eq, if◌then◌else◌,
}
use durust.Platform.{Platform}
use durust.Error.{Error, Result}
use durust.Store.{HashMap}
use durust.Provider.{WorkflowStatus}
use durust.Queue.{WorkflowQueue}
use durust.Context.{Body}

pub data DeduplicationPolicy : Type 0 where
  reject return_existing : DeduplicationPolicy

-- A duration is in nanoseconds.
pub record WorkflowOptions : Type 0 where
  pub workflow_id : Option String
  pub dedup_id : Option String
  pub dedup_policy : DeduplicationPolicy
  pub app_version : Option String
  pub queue : Option String
  pub priority : ℤ
  pub partition_key : Option String
  pub timeout : Option ℕ
  pub delay : Option ℕ
  pub authenticated_user : Option String
  pub assumed_role : Option String
  pub authenticated_roles : List String
  pub config_name : Option String
  pub class_name : Option String

-- `WorkflowOptions::default`
abbrev pub default_options : WorkflowOptions
default_options = record {
  workflow_id = none;
  dedup_id = none;
  dedup_policy = reject;
  app_version = none;
  queue = none;
  priority = pos 0;
  partition_key = none;
  timeout = none;
  delay = none;
  authenticated_user = none;
  assumed_role = none;
  authenticated_roles = [];
  config_name = none;
  class_name = none;
}

pub record AuthContext : Type 0 where
  pub authenticated_user : Option String
  pub assumed_role : Option String
  pub authenticated_roles : List String

-- `d.as_millis() as i64`
unfoldable pub as_millis : ℕ → ℤ
as_millis d = i64 (pos (d / 1_000_000))

-- `opts.workflow_id.filter(|s| !s.is_empty())`
abbrev pub non_empty : Option String → Option String
non_empty none = none
non_empty (some s) = if s == "" then none else some s

unfoldable pub registry_key : String → Option String → String
registry_key name none = name
registry_key name (some c) = if not (c == "") then text_append name (text_append "/" c) else name

-- A workflow function: what it does for an id, an identity and an input, with all that is written
-- while it runs.
abbrev pub WorkflowFn : Platform → Type 0
WorkflowFn p = String → AuthContext → p.Value → Body p

-- The provider is the tables, the last argument of each operation.
pub record Runtime (p : Platform) : Type 0 where
  pub workflows : HashMap String (WorkflowFn p)
  pub queues : HashMap String WorkflowQueue
  pub executor_id : String
  pub app_version : String

module _ {p : Platform} where
  -- `AuthContext::from_status`
  unfoldable pub from_status : WorkflowStatus p → AuthContext
  from_status s = record {
    authenticated_user = s.authenticated_user;
    assumed_role = s.assumed_role;
    authenticated_roles = s.authenticated_roles;
  }
