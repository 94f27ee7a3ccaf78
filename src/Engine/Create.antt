-- ===== src/Engine/Create.antt =====
-- src/engine.rs: creating a run (`insert_run`, `start`).
pub mod Existing
use Prim.Native.String.{◌++◌ as text_append}
use durust.Base.{
  ℤ, pos, ◌+ℤ◌, i64, String, Bool, true, false, not, ◌&&◌, ◌||◌, Option, none, some, List, [], ◌∷◌,
  ◌==◌, string_eq, is_empty, is_some, is_none, unwrap_or, option_map, if◌then◌else◌,
}
use durust.Platform.{Platform}
use durust.Error.{
  ErrorCode, queue_deduplicated, Error, app, unknown_workflow, unknown_queue, unexpected, code,
  Result, ok, err, panicked, ◌>>=◌,
}
use durust.Store.{get, contains_key}
use durust.Provider.{
  WorkflowStatus, new_workflow, is_terminal, status_pending, status_enqueued, status_delayed,
}
use durust.Memory.{Inner}
use durust.Memory.Lifecycle.{insert_workflow_status, get_deduplicated_workflow}
use durust.Memory.Steps.{check_child_workflow, record_child_workflow}
use durust.Engine.{
  DeduplicationPolicy, reject, return_existing, WorkflowOptions, AuthContext, WorkflowFn, Runtime,
  as_millis, non_empty, registry_key,
}

-- The handle that a start returns: it polls the row with an id, or owns a run that was launched
-- with this function, id, input, deadline and identity.
pub data Started (p : Platform) : Type 0 where
  polling : String → Started p
  local : WorkflowFn p → String → p.Value → Option ℤ → AuthContext → Started p

-- `e.code() == ErrorCode::QueueDeduplicated`
abbrev pub is_deduplicated : ErrorCode → Bool
is_deduplicated queue_deduplicated = true
is_deduplicated other = false

-- The status of a new run.
abbrev pub first_status : Option String → Bool → String
first_status none delayed = status_pending
first_status (some q) false = status_enqueued
first_status (some q) true = status_delayed

-- `opts.dedup_policy == DeduplicationPolicy::ReturnExisting`
abbrev pub returns_existing : DeduplicationPolicy → Bool
returns_existing reject = false
returns_existing return_existing = true

-- One attempt of the loop of `start`: the two clocks of its insert, and what other calls write
-- between a refusal and the lookup.
pub record Attempt (p : Platform) : Type 0 where
  pub now : p.DateTime
  pub created : p.DateTime
  pub between : Inner p → Inner p

-- The identity of a top-level run.
abbrev pub auth_of : WorkflowOptions → AuthContext
auth_of opts = record {
  authenticated_user = opts.authenticated_user;
  assumed_role = opts.assumed_role;
  authenticated_roles = opts.authenticated_roles;
}

module _ {p : Platform} where
  -- The row of a new run. `now` is the clock of the call, `created` that of `WorkflowStatus::new`.
  unfoldable pub run_row :
      Runtime p
      → String
      → String
      → p.Value
      → WorkflowOptions
      → Option String
      → AuthContext
      → p.DateTime
      → p.DateTime
      → WorkflowStatus p
  unfolding new_workflow as_millis
  run_row rt id name input opts parent_id auth now created =
      let row =
        record (new_workflow id name input (first_status opts.queue (is_some opts.delay))
          (if is_some opts.queue then "" else rt.executor_id)
          (unwrap_or opts.app_version rt.app_version) created) {
            queue_name = opts.queue;
            priority = opts.priority;
            queue_partition_key = opts.partition_key;
            dedup_id = opts.dedup_id;
            parent_workflow_id = parent_id;
            authenticated_user = auth.authenticated_user;
            assumed_role = auth.assumed_role;
            authenticated_roles = auth.authenticated_roles;
            class_name = opts.class_name;
            config_name = opts.config_name;
            timeout_ms = option_map as_millis opts.timeout;
            delay_until_ms =
                option_map (λ d. i64 (p.timestamp_millis now +ℤ as_millis d)) opts.delay;
          } in
      if is_some opts.queue then row else record row {
        started_at_ms = some (p.timestamp_millis created);
        deadline_ms =
            option_map (λ t. i64 (p.timestamp_millis created +ℤ as_millis t)) opts.timeout;
      }

  -- The error of a run that is refused before anything is written.
  unfoldable pub run_guard : Runtime p → WorkflowOptions → Option (Error p)
  run_guard rt opts = elim opts.queue [
    | some q ↦ if not (contains_key q rt.queues) then some (unknown_queue q) else none
    | none ↦
        if is_some opts.delay
        then some (app "WorkflowOptions.delay requires a queue; direct runs start immediately")
        else none
  ]

  -- The row under the id, whether it was routed to a queue, and whether this call created it.
  unfoldable pub insert_run :
      Runtime p
      → String
      → String
      → p.Value
      → WorkflowOptions
      → Option String
      → AuthContext
      → p.DateTime
      → p.DateTime
      → Inner p
      → Result p (WorkflowStatus p × Bool × Bool) × Inner p
  unfolding run_row run_guard
  insert_run rt id name input opts parent_id auth now created g = elim (run_guard rt opts) [
    | some e ↦ (err e, g)
    | none ↦
        let (inserted, g') =
          insert_workflow_status (run_row rt id name input opts parent_id auth now created) g in
        (inserted >>= (λ (canonical, made). ok (canonical, is_some opts.queue, made)), g')
  ]

  -- The handle of a run whose row is there: a queued or ended run is polled, any other is run.
  abbrev pub launched :
      WorkflowFn p → String → AuthContext → WorkflowStatus p × Bool × Bool → Started p
  launched handler id auth (canonical, queued, made) =
      if queued || is_terminal canonical.status
      then polling id
      else local handler id canonical.input canonical.deadline_ms auth

  -- Who holds the slot that a refused run asked for.
  abbrev pub slot_holder : WorkflowOptions → Inner p → Option String
  slot_holder opts g = elim opts.queue [
    | none ↦ none
    | some q ↦ elim opts.dedup_id [ none ↦ none | some d ↦ get_deduplicated_workflow q d g ]
  ]

  -- A handle to the workflow that holds the slot, or another attempt.
  abbrev pub existing_or :
      Option String
      → Inner p
      → (Inner p → Option (Result p (Started p)) × Inner p)
      → Option (Result p (Started p)) × Inner p
  existing_or (some existing) g retry = (some (ok (polling existing)), g)
  existing_or none g retry = retry g

  -- What the loop of `start` does after an insert.
  abbrev pub after_insert :
      WorkflowFn p
      → String
      → WorkflowOptions
      → (Inner p → Inner p)
      → (Inner p → Option (Result p (Started p)) × Inner p)
      → Result p (WorkflowStatus p × Bool × Bool) × Inner p
      → Option (Result p (Started p)) × Inner p
  after_insert handler id opts between retry (ok run, g) =
      (some (ok (launched handler id (auth_of opts) run)), g)
  after_insert handler id opts between retry (panicked, g) = (some panicked, g)
  after_insert handler id opts between retry (err e, g) =
      if returns_existing opts.dedup_policy && is_deduplicated (code e)
      then existing_or (slot_holder opts (between g)) (between g) retry
      else (some (err e), g)

  -- The loop of `start`, over the attempts that it may take; none: it goes on.
  unfoldable pub start_loop :
      Runtime p
      → WorkflowFn p
      → String
      → String
      → p.Value
      → WorkflowOptions
      → List (Attempt p)
      → Inner p
      → Option (Result p (Started p)) × Inner p
  unfolding insert_run
  start_loop rt handler id name input opts [] g = (none, g)
  start_loop rt handler id name input opts (a ∷ attempts) g =
      after_insert handler id opts a.between
        (λ g'. start_loop rt handler id name input opts attempts g')
        (insert_run rt id name input opts none (auth_of opts) a.now a.created g)

  -- `start`; `fresh` is the uuid of a run without an id.
  unfoldable pub start :
      Runtime p
      → String
      → p.Value
      → WorkflowOptions
      → String
      → List (Attempt p)
      → Inner p
      → Option (Result p (Started p)) × Inner p
  unfolding start_loop registry_key
  start rt name input opts fresh attempts g =
      if returns_existing opts.dedup_policy && is_none opts.dedup_id
      then (some (err (app "a deduplication policy requires a deduplication id")), g)
      else elim (get (registry_key name opts.config_name) rt.workflows) [
        | none ↦ (some (err (unknown_workflow name)), g)
        | some handler ↦
            start_loop rt handler (unwrap_or (non_empty opts.workflow_id) fresh) name input opts
              attempts g
      ]
