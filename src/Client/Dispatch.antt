-- ===== src/Client/Dispatch.antt =====
-- src/client.rs, `enqueue`: what the dispatchers of the engines see of an enqueued workflow.
use durust.Base.{
  String, Bool, true, false, ◌||◌, ◌&&◌, none, some, List, ◌∷◌, ◌≡◌, refl, string_eq, ==_refl,
  arith, ◌==◌, is_some, unwrap_or,
}
use durust.Platform.{Platform}
use durust.Error.{ok}
use durust.Store.{get, insert, values}
use durust.Store.Laws.{get-insert_same}
use durust.Provider.{WorkflowStatus, new_workflow, DequeueRequest}
use durust.Memory.{Inner}
use durust.Memory.Lifecycle.{conflict, insert_workflow_status}
use durust.Memory.Dequeue.{in_partition, is_candidate}
use durust.Engine.{WorkflowOptions}
use durust.Client.{Client, enqueue_guard, client_row, enqueue_loop, enqueue}

module _ (p : Platform) (client : Client) (queue name : String) (input : p.Value)
    (opts : WorkflowOptions) (fresh : String) (now created : p.DateTime) where
  -- The row that is written.
  new_row : WorkflowStatus p
  new_row = client_row client (unwrap_or opts.workflow_id fresh) queue name input opts now created

  written :
      (between : Inner p → Inner p) (attempts : List (Inner p → Inner p)) (g : Inner p)
      → enqueue_guard {p = p} queue name opts ≡ none
      → get (unwrap_or opts.workflow_id fresh) g.workflows ≡ none
      → conflict (some queue) opts.dedup_id (unwrap_or opts.workflow_id fresh) (values g.workflows)
        ≡ false
      → enqueue client queue name input opts fresh now created (between ∷ attempts) g ≡ (
        some (ok (unwrap_or opts.workflow_id fresh)),
        record g { workflows = insert (unwrap_or opts.workflow_id fresh) new_row g.workflows },
      )
  unfolding enqueue enqueue_loop insert_workflow_status client_row new_workflow new_row
  written between attempts g free absent slot = rw (free, slot, absent, enqueue) refl

  waits :
      (req : DequeueRequest) (latest : Bool)
      → opts.delay ≡ none
      → req.queue_name ≡ queue
      → in_partition req new_row ≡ true
      → (unwrap_or opts.app_version client.app_version == req.app_version
          || (unwrap_or opts.app_version client.app_version == "" && latest))
        ≡ true
      → is_candidate req latest new_row ≡ true
  unfolding is_candidate client_row new_workflow new_row
  waits req latest now_due named part version =
      rw (now_due, named, ==_refl queue, part, version) (ground arith)

  delayed :
      (req : DequeueRequest) (latest : Bool)
      → is_some opts.delay ≡ true
      → is_candidate req latest new_row ≡ false
  unfolding is_candidate client_row new_workflow new_row
  delayed req latest later = rw later (ground arith)

  -- A workflow that a client enqueues under a new id, with a guard that lets it pass and a free
  -- slot, is there for the engines: the call returns its id, and its row is a candidate for every
  -- dequeue of that queue and its partition by an engine of its version, or, where it has none, by
  -- one of the latest. With a delay it is no candidate of any dequeue yet.
  pub enqueue-dispatched :
      (between : Inner p → Inner p) (attempts : List (Inner p → Inner p)) (g : Inner p)
      → enqueue_guard {p = p} queue name opts ≡ none
      → get (unwrap_or opts.workflow_id fresh) g.workflows ≡ none
      → conflict (some queue) opts.dedup_id (unwrap_or opts.workflow_id fresh) (values g.workflows)
        ≡ false
      → let id = unwrap_or opts.workflow_id fresh in
        let version = unwrap_or opts.app_version client.app_version in
        let (r, g') =
          enqueue client queue name input opts fresh now created (between ∷ attempts) g in
        (r ≡ some (ok id))
        × ((row : WorkflowStatus p) × (get id g'.workflows ≡ some row)
            × ((req : DequeueRequest) (latest : Bool)
                → opts.delay ≡ none
                → req.queue_name ≡ queue
                → in_partition req row ≡ true
                → (version == req.app_version || (version == "" && latest)) ≡ true
                → is_candidate req latest row ≡ true)
            × ((req : DequeueRequest) (latest : Bool)
                → is_some opts.delay ≡ true
                → is_candidate req latest row ≡ false))
  enqueue-dispatched between attempts g free absent slot =
      rw (written between attempts g free absent slot) (
        refl,
        (
          new_row,
          get-insert_same (unwrap_or opts.workflow_id fresh) new_row g.workflows,
          waits,
          delayed,
        ),
      )
