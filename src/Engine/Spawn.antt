-- ===== src/Engine/Spawn.antt =====
-- src/engine.rs and src/context.rs: starting a child workflow (`spawn_child`, `start_workflow`).
pub mod Children
use Prim.Native.String.{◌++◌ as text_append}
use durust.Base.{
  ℤ, pos, ◌+ℤ◌, i64, String, Bool, true, false, not, ◌&&◌, ◌||◌, Option, none, some, List, [], ◌∷◌,
  ◌==◌, string_eq, is_empty, is_some, is_none, unwrap_or, option_map, if◌then◌else◌,
}
use durust.Platform.{Platform}
use durust.Error.{
  ErrorCode, queue_deduplicated, Error, app, unknown_workflow, unknown_queue, unexpected, code,
  Result, ok, err, panicked, ◌>>=◌,
}
use durust.Store.{get, contains_key}
use durust.Provider.{
  WorkflowStatus, new_workflow, is_terminal, status_pending, status_enqueued, status_delayed,
}
use durust.Memory.{Inner}
use durust.Memory.Lifecycle.{insert_workflow_status, get_deduplicated_workflow}
use durust.Memory.Steps.{check_child_workflow, record_child_workflow}
use durust.Engine.{
  DeduplicationPolicy, reject, return_existing, WorkflowOptions, AuthContext, WorkflowFn, Runtime,
  as_millis, non_empty, registry_key,
}
use durust.Engine.Create.{Started, insert_run, launched}

-- `self.or_else(|| other)`
abbrev pub or_else : Option String → Option String → Option String
or_else none other = other
or_else (some s) other = some s

-- The identity of a child: each field that the options set, and the parent's for the others.
unfoldable pub child_auth : WorkflowOptions → AuthContext → AuthContext
child_auth opts parent = record {
  authenticated_user = or_else opts.authenticated_user parent.authenticated_user;
  assumed_role = or_else opts.assumed_role parent.assumed_role;
  authenticated_roles =
      if is_empty opts.authenticated_roles
      then parent.authenticated_roles
      else opts.authenticated_roles;
}

-- The id of a child: the one asked for, or the parent's id with the number of the operation.
abbrev pub child_id_of : (ℤ → String) → WorkflowOptions → String → ℤ → String
child_id_of show opts id seq =
    unwrap_or (non_empty opts.workflow_id) (text_append id (text_append "-" (show seq)))

module _ {p : Platform} where
  -- `Runtime::spawn_child`: the run to launch, unless it is queued or has ended.
  unfoldable pub spawn_child :
      Runtime p
      → String
      → String
      → p.Value
      → WorkflowOptions
      → String
      → AuthContext
      → p.DateTime
      → p.DateTime
      → Inner p
      → Result p (Started p) × Inner p
  unfolding insert_run registry_key
  spawn_child rt child_id name input opts parent_id auth now created g =
      elim (get (registry_key name opts.config_name) rt.workflows) [
        | none ↦ (err (unknown_workflow name), g)
        | some handler ↦
            let (inserted, g') =
              insert_run rt child_id name input opts (some parent_id) auth now created g in
            (inserted >>= (λ run. ok (launched handler child_id auth run)), g')
      ]

  -- `DurableContext::start_workflow`: the id that the handle polls, and the run to launch, if the
  -- child is new. `show` prints a number.
  unfoldable pub start_workflow :
      Runtime p
      → (ℤ → String)
      → String
      → AuthContext
      → ℤ
      → String
      → p.Value
      → WorkflowOptions
      → p.DateTime
      → p.DateTime
      → Inner p
      → Result p (String × Option (Started p)) × Inner p
  unfolding spawn_child child_auth
  start_workflow rt show id auth seq name input opts now created g =
      elim (check_child_workflow id seq g) [
        | some (child, recorded) ↦
            if not (recorded == name)
            then (err (unexpected id seq name recorded), g)
            else (ok (child, none), g)
        | none ↦
            let child = child_id_of show opts id seq in
            let (spawned, g') =
              spawn_child rt child name input opts id (child_auth opts auth) now created g in
            elim spawned [
              | ok run ↦ (ok (child, some run), record_child_workflow id seq name child g')
              | err e ↦ (err e, g')
              | panicked ↦ (panicked, g')
            ]
      ]
