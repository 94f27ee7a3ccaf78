-- ===== src/Engine/Claim.antt =====
-- src/engine.rs, `queue_dispatch_loop`: one claim from a queue, for one partition.
pub mod Bounded
use durust.Base.{
  ℕ, ◌+◌, ◌-◌, ℤ, pos, pos_part, i64, leb_ℤ, String, Bool, true, false, Option, none, some, List,
  [], ◌∷◌, string_eq, is_none, option_map, unwrap_or, if◌then◌else◌, leb, length,
}
use durust.Platform.{Platform}
use durust.Error.{Error, Result, ok, err, panicked}
use durust.Store.{get}
use durust.Provider.{WorkflowStatus, DequeueRequest, status_enqueued}
use durust.Queue.{RateLimiter, WorkflowQueue}
use durust.Memory.{Inner}
use durust.Memory.Lifecycle.{set_workflow_status}
use durust.Memory.Dequeue.{dequeue_workflows}
use durust.Engine.{WorkflowFn, Runtime, registry_key, as_millis, AuthContext, from_status}

-- The smaller of two numbers.
abbrev pub min_ℕ : ℕ → ℕ → ℕ
min_ℕ a b = if leb a b then a else b

-- `max_tasks`, with `local` runs of this process in the partition.
unfoldable pub task_limit : WorkflowQueue → ℕ → ℤ
task_limit queue local = i64 (
    pos (
      min_ℕ
        (elim queue.worker_concurrency [
          | some wc ↦ wc - local
          | none ↦ queue.max_tasks_per_iteration
        ])
        queue.max_tasks_per_iteration))

module _ {p : Platform} where
  unfoldable pub claim_request : Runtime p → WorkflowQueue → Option String → ℤ → DequeueRequest
  unfolding as_millis
  claim_request rt queue pkey max_tasks = record {
    queue_name = queue.name;
    executor_id = rt.executor_id;
    app_version = rt.app_version;
    partition_key = pkey;
    max_tasks = max_tasks;
    global_concurrency = queue.global_concurrency;
    rate_limit_max = option_map (λ (r : RateLimiter). r.limit) queue.rate_limit;
    rate_limit_period_ms = option_map (λ (r : RateLimiter). as_millis r.period) queue.rate_limit;
  }

  -- A claimed row without a function goes back to its queue; with one it is run.
  unfoldable pub released_or : Option (WorkflowFn p) → String → p.DateTime → Inner p → Inner p
  released_or none id at g = (set_workflow_status id status_enqueued none none at g).1
  released_or (some f) id at g = g

  unfoldable pub spawned_with :
      Option (WorkflowFn p)
      → WorkflowStatus p
      → List (WorkflowFn p × WorkflowStatus p)
      → List (WorkflowFn p × WorkflowStatus p)
  spawned_with none wf spawned = spawned
  spawned_with (some f) wf spawned = (f, wf) ∷ spawned

  -- The loop over the claimed rows: those with a function are run; the claim of any other is
  -- released. `stamp` is the clock at the release of a row.
  unfoldable pub spawn_claimed :
      Runtime p
      → (String → p.DateTime)
      → List (WorkflowStatus p)
      → Inner p
      → List (WorkflowFn p × WorkflowStatus p) × Inner p
  unfolding registry_key
  spawn_claimed rt stamp [] g = ([], g)
  spawn_claimed rt stamp (wf ∷ claimed) g =
      let handler = get (registry_key wf.name wf.config_name) rt.workflows in
      let rest = spawn_claimed rt stamp claimed (released_or handler wf.id (stamp wf.id) g) in
      (spawned_with handler wf rest.0, rest.1)

  -- What is spawned, the runs counted in the partition then, and the tables: a failed claim logs.
  unfoldable pub spawn_all :
      Runtime p
      → ℕ
      → (String → p.DateTime)
      → Result p (List (WorkflowStatus p)) × Inner p
      → List (WorkflowFn p × WorkflowStatus p) × ℕ × Inner p
  unfolding spawn_claimed
  spawn_all rt local released (ok claimed, g) =
      let rest = spawn_claimed rt released claimed g in (rest.0, local + length rest.0, rest.1)
  spawn_all rt local released (err e, g) = ([], local, g)
  spawn_all rt local released (panicked, g) = ([], local, g)

  -- One pass for a partition, with `local` runs of this process in it.
  unfoldable pub claim_partition :
      Runtime p
      → WorkflowQueue
      → Option String
      → ℕ
      → p.DateTime
      → (String → p.DateTime)
      → (String → p.DateTime)
      → Inner p
      → List (WorkflowFn p × WorkflowStatus p) × ℕ × Inner p
  unfolding task_limit claim_request
  claim_partition rt queue pkey local now stamp released g =
      if leb_ℤ (task_limit queue local) (pos 0)
      then ([], local, g)
      else spawn_all rt local released
          (dequeue_workflows (claim_request rt queue pkey (task_limit queue local)) now stamp g)
