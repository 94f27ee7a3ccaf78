-- ===== src/Engine/Requests.antt =====
-- src/engine.rs: the requests about stored workflows that are more than one call of the provider.
-- (src/client.rs has the same for a process without an engine.)
pub mod Resume
use durust.Base.{
  ℕ, ℤ, pos, ◌+ℤ◌, i64, String, Bool, true, false, not, ◌&&◌, Option, none, some, List, [], ◌∷◌,
  map, ◌==◌, string_eq, contains, filterb, is_empty, is_some, is_none, length, unwrap_or,
  if◌then◌else◌,
}
use durust.Platform.{Platform}
use durust.Error.{Error, app, nonexistent_workflow, Result, ok, err, ◌>>=◌}
use durust.Provider.{
  WorkflowStatus, ListFilter, default_filter, ForkParams, status_pending, status_enqueued,
  status_delayed,
}
use durust.Memory.{Inner}
use durust.Memory.Lifecycle.{get_workflow_status}
use durust.Memory.Manage.{
  resume_workflow, resume_workflows, enqueue_existing, cancel_workflows, set_workflow_delay,
}
use durust.Memory.Listing.{list_workflows}
use durust.Memory.Fork.{fork_workflow}
use durust.Engine.{WorkflowOptions, non_empty, as_millis}

abbrev pub internal_queue : String
internal_queue = "_dbos_internal_queue"

abbrev pub ids_filter : List String → ListFilter
ids_filter ids = record default_filter { workflow_ids = ids }

abbrev pub active_before : ℤ → ListFilter
active_before cutoff = record default_filter {
  status = status_pending ∷ status_enqueued ∷ status_delayed ∷ [];
  end_time_ms = some cutoff;
  load_input = false;
  load_output = false;
}

module _ {p : Platform} where
  -- `resume_workflow_on`: the id that the handle polls. The two instants are the clocks of the two
  -- writes.
  unfoldable pub resume_workflow_on :
      String → String → p.DateTime → p.DateTime → Inner p → Result p String × Inner p
  resume_workflow_on id queue now later g =
      let (resumed, g') = resume_workflow id now g in
      if resumed
      then (ok id, enqueue_existing id queue later g')
      else if is_none (get_workflow_status id g')
      then (err (nonexistent_workflow id), g')
      else (ok id, g')

  -- `for id in &resumed { enqueue_existing(id, queue) }`
  unfoldable pub enqueue_all : List String → String → p.DateTime → Inner p → Inner p
  enqueue_all [] queue now g = g
  enqueue_all (id ∷ ids) queue now g = enqueue_all ids queue now (enqueue_existing id queue now g)

  -- `resume_workflows_on`: the ids that the handles poll.
  unfoldable pub resume_workflows_on :
      List String → String → p.DateTime → p.DateTime → Inner p → List String × Inner p
  unfolding enqueue_all
  resume_workflows_on ids queue now later g =
      let (resumed, g') = resume_workflows ids now g in
      let g'' = enqueue_all resumed queue later g' in
      let existing = map (λ (w : WorkflowStatus p). w.id) (list_workflows (ids_filter ids) g'') in
      (filterb (contains existing) ids, g'')

  -- `DurableEngine::fork_workflow`; `fresh` is the uuid of a fork without an id.
  unfoldable pub fork_on :
      String → ℤ → WorkflowOptions → String → p.DateTime → Inner p → Result p String × Inner p
  fork_on original_id start_step opts fresh now g =
      if is_some opts.partition_key && is_none opts.queue
      then (err (app "a queue partition key requires a queue name"), g)
      else let new_id = unwrap_or (non_empty opts.workflow_id) fresh in
        let (forked, g') =
          fork_workflow
            (record {
              original_id = original_id;
              new_id = new_id;
              start_step = start_step;
              app_version = non_empty opts.app_version;
              queue_name = unwrap_or opts.queue internal_queue;
              partition_key = opts.partition_key;
            })
            now g in
        (forked >>= (λ u. ok new_id), g')

  -- `cancel_all_before`: how many were listed, and the tables with them cancelled.
  unfoldable pub cancel_all_before : ℤ → p.DateTime → Inner p → ℕ × Inner p
  cancel_all_before cutoff_epoch_ms now g =
      let ids =
        map (λ (w : WorkflowStatus p). w.id) (list_workflows (active_before cutoff_epoch_ms) g) in
      if is_empty ids then (0, g) else (length ids, cancel_workflows ids now g)

  -- `DurableEngine::set_workflow_delay`
  unfoldable pub delay_workflow : String → ℕ → p.DateTime → p.DateTime → Inner p → Bool × Inner p
  unfolding as_millis
  delay_workflow id delay now later g =
      set_workflow_delay id (i64 (p.timestamp_millis now +ℤ as_millis delay)) later g
