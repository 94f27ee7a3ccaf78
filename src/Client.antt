-- ===== src/Client.antt =====
-- src/client.rs: a process without an engine that enqueues workflows and reads what they publish.
-- Its other methods pass on to the provider, or do as the engine's (Engine/Requests).
pub mod Dispatch
use durust.Base.{
  ℤ, pos, ◌+ℤ◌, i64, String, Bool, true, false, not, ◌&&◌, ◌||◌, Option, none, some, List, [], ◌∷◌,
  ◌==◌, string_eq, is_some, is_none, unwrap_or, option_map, if◌then◌else◌,
}
use durust.Platform.{Platform}
use durust.Error.{Error, app, unknown_workflow, code, Result, ok, err, panicked}
use durust.Provider.{WorkflowStatus, new_workflow, status_enqueued, status_delayed}
use durust.Memory.{Inner}
use durust.Memory.Lifecycle.{insert_workflow_status, get_deduplicated_workflow, get_workflow_status}
use durust.Memory.Events.{get_event_value}
use durust.Engine.{WorkflowOptions, as_millis}
use durust.Engine.Create.{is_deduplicated, returns_existing}

-- The provider is the tables, the last argument of each operation.
pub record Client : Type 0 where
  pub app_version : String

module _ {p : Platform} where
  -- The error of a call that is refused before anything is written.
  unfoldable pub enqueue_guard : String → String → WorkflowOptions → Option (Error p)
  enqueue_guard queue_name workflow_name opts =
      if queue_name == ""
      then some (app "queue name is required")
      else if workflow_name == ""
      then some (app "workflow name is required")
      else if is_some opts.partition_key && is_some opts.dedup_id
      then some (app "partition key and deduplication id cannot be used together")
      else if returns_existing opts.dedup_policy && is_none opts.dedup_id
      then some (app "a deduplication policy requires a deduplication id")
      else none

  -- `now` is the clock of the call, `created` that of `WorkflowStatus::new`.
  unfoldable pub client_row :
      Client
      → String
      → String
      → String
      → p.Value
      → WorkflowOptions
      → p.DateTime
      → p.DateTime
      → WorkflowStatus p
  unfolding new_workflow as_millis
  client_row client id queue_name workflow_name input opts now created =
      record (new_workflow id workflow_name input
        (if is_some opts.delay then status_delayed else status_enqueued) ""
        (unwrap_or opts.app_version client.app_version) created) {
          queue_name = some queue_name;
          priority = opts.priority;
          queue_partition_key = opts.partition_key;
          dedup_id = opts.dedup_id;
          authenticated_user = opts.authenticated_user;
          assumed_role = opts.assumed_role;
          authenticated_roles = opts.authenticated_roles;
          class_name = opts.class_name;
          config_name = opts.config_name;
          timeout_ms = option_map as_millis opts.timeout;
          delay_until_ms = option_map (λ d. i64 (p.timestamp_millis now +ℤ as_millis d)) opts.delay;
        }

  -- The holder of the slot, or another attempt.
  abbrev pub holder_or :
      Option String
      → Inner p
      → (Inner p → Option (Result p String) × Inner p)
      → Option (Result p String) × Inner p
  holder_or (some existing) g retry = (some (ok existing), g)
  holder_or none g retry = retry g

  -- What the loop does after an insert; `between` is what other calls write before the lookup.
  abbrev pub after_enqueue :
      String
      → String
      → WorkflowOptions
      → (Inner p → Inner p)
      → (Inner p → Option (Result p String) × Inner p)
      → Result p (WorkflowStatus p × Bool) × Inner p
      → Option (Result p String) × Inner p
  after_enqueue id queue_name opts between retry (ok inserted, g) = (some (ok id), g)
  after_enqueue id queue_name opts between retry (panicked, g) = (some panicked, g)
  after_enqueue id queue_name opts between retry (err e, g) =
      if returns_existing opts.dedup_policy && is_deduplicated (code e)
      then holder_or (get_deduplicated_workflow queue_name (unwrap_or opts.dedup_id "") (between g))
          (between g) retry
      else (some (err e), g)

  -- The loop, over the attempts that it may take: the id that the handle polls; none: it goes on.
  unfoldable pub enqueue_loop :
      WorkflowStatus p
      → String
      → WorkflowOptions
      → List (Inner p → Inner p)
      → Inner p
      → Option (Result p String) × Inner p
  enqueue_loop row queue_name opts [] g = (none, g)
  enqueue_loop row queue_name opts (between ∷ attempts) g =
      after_enqueue row.id queue_name opts between
        (λ g'. enqueue_loop row queue_name opts attempts g') (insert_workflow_status row g)

  -- `Client::enqueue`; `fresh` is the uuid of a run without an id.
  unfoldable pub enqueue :
      Client
      → String
      → String
      → p.Value
      → WorkflowOptions
      → String
      → p.DateTime
      → p.DateTime
      → List (Inner p → Inner p)
      → Inner p
      → Option (Result p String) × Inner p
  unfolding enqueue_guard client_row enqueue_loop
  enqueue client queue_name workflow_name input opts fresh now created attempts g =
      elim (enqueue_guard queue_name workflow_name opts) [
        | some e ↦ (some (err e), g)
        | none ↦
            enqueue_loop
              (client_row client (unwrap_or opts.workflow_id fresh) queue_name workflow_name input
                opts now created)
              queue_name opts attempts g
      ]

  -- `Client::get_event`, over the polls: the tables, and whether the deadline has passed then.
  unfoldable pub await_event :
      String → String → List (Inner p × Bool) → Option (Result p (Option p.Value))
  await_event target_workflow_id key [] = none
  await_event target_workflow_id key ((g, late) ∷ polls) =
      let rest = await_event target_workflow_id key polls in
      elim (get_event_value target_workflow_id key g) [
        | some value ↦ some (ok (some value))
        | none ↦ if late then some (ok none) else rest
      ]

  -- `Client::retrieve_workflow`: the id that the handle polls.
  unfoldable pub retrieve_workflow : String → Inner p → Result p String
  retrieve_workflow id g = elim (get_workflow_status id g) [
    | none ↦ err (unknown_workflow id)
    | some w ↦ ok id
  ]
