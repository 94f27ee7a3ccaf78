-- ===== src/Engine/Recover.antt =====
-- src/engine.rs: recovery of the pending workflows that an earlier process left behind
-- (`recover_pending_workflows`, `list_pending_workflows`, `dispatch_pending_workflows`).
pub mod Stops
pub mod Requeues
use durust.Base.{
  ℕ, ◌+◌, ℤ, pos, ltb_ℤ, String, Bool, true, false, Option, none, some, List, [], ◌∷◌, string_eq,
  if◌then◌else◌,
}
use durust.Platform.{Platform}
use durust.Error.{Error, Result, ok, err, panicked, ◌>>=◌}
use durust.Store.{get}
use durust.Provider.{WorkflowStatus, ListFilter, default_filter, status_pending, status_enqueued}
use durust.Memory.{Inner}
use durust.Memory.Lifecycle.{set_workflow_status, bump_recovery_attempts}
use durust.Memory.Listing.{list_workflows}
use durust.Engine.{Runtime, registry_key, from_status}
use durust.Engine.Run.{RunEnv, run_to_completion}

-- The engine's counters that recovery moves.
pub record Counters : Type 0 where
  pub workflows_recovered : ℕ
  pub dead_lettered : ℕ

-- What became of one workflow.
pub data Fate : Type 0 where
  parked requeued rerun skipped : Fate

-- What recovery meets at one workflow: whether the shutdown has begun, the clocks of its two writes,
-- and the run of its body, with the tables when its deadline passed, if it did.
pub record Visit (p : Platform) : Type 0 where
  pub is_cancelled : Bool
  pub bumped_at : p.DateTime
  pub now : p.DateTime
  pub env : RunEnv p
  pub cut : Option (Inner p)

abbrev pub no_counts : Counters
no_counts = record { workflows_recovered = 0; dead_lettered = 0 }

-- The ids recovered and the counts, with those of one more workflow.
abbrev pub tally : String → Fate → List String × Counters → List String × Counters
tally id parked (ids, c) = (ids, record c { dead_lettered = c.dead_lettered + 1 })
tally id requeued (ids, c) =
    (id ∷ ids, record c { workflows_recovered = c.workflows_recovered + 1 })
tally id rerun (ids, c) = (id ∷ ids, record c { workflows_recovered = c.workflows_recovered + 1 })
tally id skipped (ids, c) = (ids, c)

module _ {p : Platform} where
  abbrev pub pending_filter : Runtime p → List String → ListFilter
  pending_filter rt executor_ids = record default_filter {
    status = status_pending ∷ [];
    app_version = rt.app_version ∷ [];
    executor_ids = executor_ids;
  }

  unfoldable pub list_pending_workflows :
      Runtime p → List String → Inner p → List (WorkflowStatus p)
  list_pending_workflows rt executor_ids g = list_workflows (pending_filter rt executor_ids) g

  abbrev pub fated : Fate → Result p (Unit {0}) × Inner p → Result p Fate × Inner p
  fated fate (ok u, g) = (ok fate, g)
  fated fate (err e, g) = (err e, g)
  fated fate (panicked, g) = (panicked, g)

  -- A workflow within the limit of recoveries: back to its queue, or run again.
  unfoldable pub redispatch :
      Runtime p → Visit p → WorkflowStatus p → Inner p → Result p Fate × Inner p
  unfolding registry_key from_status
  redispatch rt visit w g = elim w.queue_name [
    | some q ↦ fated requeued (set_workflow_status w.id status_enqueued none none visit.now g)
    | none ↦ elim (get (registry_key w.name w.config_name) rt.workflows) [
      | none ↦ (ok skipped, g)
      | some handler ↦ (
        ok rerun,
        (run_to_completion visit.env handler w.id w.input w.deadline_ms (from_status w) visit.cut
            g).1,
      )
    ]
  ]

  -- The body of the loop.
  unfoldable pub recover_one :
      Runtime p → ℤ → Visit p → WorkflowStatus p → Inner p → Result p Fate × Inner p
  unfolding redispatch
  recover_one rt max visit w g =
      let (attempts, g') = bump_recovery_attempts w.id max visit.bumped_at g in
      if ltb_ℤ max attempts then (ok parked, g') else redispatch rt visit w g'

  -- One more workflow, and those after it.
  abbrev pub with_fate :
      String
      → Result p Fate × Inner p
      → (Inner p → Result p (List String × Counters) × Inner p)
      → Result p (List String × Counters) × Inner p
  with_fate id (ok fate, g) rest = let (r, g') = rest g in (r >>= (λ t. ok (tally id fate t)), g')
  with_fate id (err e, g) rest = (err e, g)
  with_fate id (panicked, g) rest = (panicked, g)

  -- The check of the shutdown before a workflow.
  abbrev pub stop_or :
      Bool
      → Inner p
      → (Inner p → Result p (List String × Counters) × Inner p)
      → Result p (List String × Counters) × Inner p
  stop_or true g rest = (ok ([], no_counts), g)
  stop_or false g rest = rest g

  -- The loop, from the workflow with the index `n` on.
  unfoldable pub dispatch_pending_workflows :
      Runtime p
      → ℤ
      → (ℕ → Visit p)
      → ℕ
      → List (WorkflowStatus p)
      → Inner p
      → Result p (List String × Counters) × Inner p
  unfolding recover_one
  dispatch_pending_workflows rt max visits n [] g = (ok ([], no_counts), g)
  dispatch_pending_workflows rt max visits n (w ∷ pending) g =
      stop_or (visits n).is_cancelled g (λ h.
        with_fate w.id (recover_one rt max (visits n) w h)
          (λ g'. dispatch_pending_workflows rt max visits (n + 1) pending g'))

  unfoldable pub recover_pending_workflows :
      Runtime p
      → ℤ
      → List String
      → (ℕ → Visit p)
      → Inner p
      → Result p (List String × Counters) × Inner p
  unfolding dispatch_pending_workflows list_pending_workflows
  recover_pending_workflows rt max executor_ids visits g =
      dispatch_pending_workflows rt max visits 0 (list_pending_workflows rt executor_ids g) g
