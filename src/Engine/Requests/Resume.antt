-- ===== src/Engine/Requests/Resume.antt =====
-- src/engine.rs, `resume_workflow_on`: a workflow back on a queue.
use mathlib.Core.Path.{subst}
use durust.Base.{
  pos, String, Bool, true, false, none, some, ◌≡◌, refl, sym, ap, ◌∙◌, string_eq, ==_refl, arith,
  inl, inr, Bool-cases, Option-cases,
}
use durust.Platform.{Platform}
use durust.Error.{nonexistent_workflow, Result, ok, err}
use durust.Store.{get, update}
use durust.Store.Laws.{get-update}
use durust.Provider.{WorkflowStatus, DequeueRequest}
use durust.Memory.{Inner}
use durust.Memory.Lifecycle.{get_workflow_status}
use durust.Memory.Manage.{not_resumable, resume_row, resume_workflow, enqueue_row, enqueue_existing}
use durust.Memory.Dequeue.{in_partition, is_candidate}
use durust.Memory.Calls.{on_resume, on_enqueue}
use durust.Memory.Calls.Checkpoints.{Runs, no_call, then_write}
use durust.Engine.Requests.{resume_workflow_on}

module _ {p : Platform} (id queue : String) (now later : p.DateTime) (g : Inner p) where
  -- The row of a workflow that is back on the queue.
  back : WorkflowStatus p → WorkflowStatus p
  back row = enqueue_row queue later (resume_row now row)

  resumed_tables : Inner p
  resumed_tables = record g { workflows = update id (resume_row now) g.workflows }

  resumed_row :
      (row : WorkflowStatus p)
      → get id g.workflows ≡ some row
      → get id (update id (resume_row now) g.workflows) ≡ some (resume_row now row)
  resumed_row row there =
      ground (arith, get-update id id (resume_row now) g.workflows, ==_refl id, there)

  accepted :
      (row : WorkflowStatus p)
      → get id g.workflows ≡ some row
      → not_resumable row ≡ false
      → (resume_workflow id now g ≡ (true, resumed_tables))
        × (resume_workflow_on id queue now later g
            ≡ (ok id, enqueue_existing id queue later resumed_tables))
  unfolding resume_workflow_on resume_workflow resumed_tables
  accepted row there free =
      let e : resume_workflow id now g ≡ (true, resumed_tables) =
        rw (there, resume_workflow, free) in
      (e, rw (e, resume_workflow_on))

  kept :
      (row : WorkflowStatus p)
      → get id g.workflows ≡ some row
      → not_resumable row ≡ true
      → resume_workflow_on id queue now later g ≡ (ok id, g)
  unfolding resume_workflow_on resume_workflow get_workflow_status
  kept row there shut =
      let e : resume_workflow id now g ≡ (false, g) = rw (there, resume_workflow, shut) in
      rw (e, resume_workflow_on, there)

  absent_lem :
      get id g.workflows ≡ none
      → resume_workflow_on id queue now later g ≡ (err (nonexistent_workflow id), g)
  unfolding resume_workflow_on resume_workflow get_workflow_status
  absent_lem missing =
      let e : resume_workflow id now g ≡ (false, g) = rw (missing, resume_workflow) in
      rw (e, resume_workflow_on, missing)

  back_row :
      (row : WorkflowStatus p)
      → get id g.workflows ≡ some row
      → get id (enqueue_existing id queue later resumed_tables).workflows ≡ some (back row)
  unfolding enqueue_existing resumed_tables back
  back_row row there = ground (
    arith,
    get-update id id (enqueue_row queue later) (update id (resume_row now) g.workflows),
    ==_refl id,
    resumed_row row there,
  )

  waits :
      (row : WorkflowStatus p) (req : DequeueRequest) (latest : Bool)
      → req.queue_name ≡ queue
      → in_partition req row ≡ true
      → row.app_version ≡ req.app_version
      → is_candidate req latest (back row) ≡ true
  unfolding is_candidate back enqueue_row resume_row
  waits row req latest named part version =
      rw (named, ==_refl queue, version, ==_refl req.app_version) (ground arith)

  resume_workflow_on-Runs : Runs g (resume_workflow_on id queue now later g).1
  unfolding resumed_tables resume_row
  resume_workflow_on-Runs = elim (Option-cases (get id g.workflows)) [
    | inl missing ↦ rw (absent_lem missing) no_call
    | inr (row, there) ↦ elim (Bool-cases (not_resumable row)) [
      | inl shut ↦ rw (kept row there shut) no_call
      | inr free ↦
          let (e, all) = accepted row there free in
          rw all (
            then_write resumed_tables _
              (subst (λ (x : Bool × Inner p). Runs g x.1) e
                (then_write g _ no_call (on_resume id now)))
              (on_enqueue id queue later (λ r found. bare row r there found)))
    ]
  ]
    where
      bare :
          (row r : WorkflowStatus p)
          → get id g.workflows ≡ some row
          → get id resumed_tables.workflows ≡ some r
          → r.dedup_id ≡ none
      bare row r there found =
          let e : resume_row now row ≡ r = ground (arith, resumed_row row there, found) in
          sym (ap (λ (x : WorkflowStatus p). x.dedup_id) e)

  pub resume_workflow_on-settles :
      ((row : WorkflowStatus p)
        → get id g.workflows ≡ some row
        → not_resumable row ≡ false
        → ((resume_workflow_on id queue now later g).0 ≡ ok id)
          × ((row' : WorkflowStatus p) × (get id
                  (resume_workflow_on id queue now later g).1.workflows
                ≡ some row')
              × (row'.recovery_attempts ≡ pos 0)
              × (row'.dedup_id ≡ none)
              × (row'.deadline_ms ≡ none)
              × (row'.executor_id ≡ "")
              × ((req : DequeueRequest) (latest : Bool)
                  → req.queue_name ≡ queue
                  → in_partition req row ≡ true
                  → row.app_version ≡ req.app_version
                  → is_candidate req latest row' ≡ true)))
      × ((row : WorkflowStatus p)
          → get id g.workflows ≡ some row
          → not_resumable row ≡ true
          → resume_workflow_on id queue now later g ≡ (ok id, g))
      × (get id g.workflows ≡ none
          → resume_workflow_on id queue now later g ≡ (err (nonexistent_workflow id), g))
      × Runs g (resume_workflow_on id queue now later g).1
  unfolding back enqueue_row resume_row
  resume_workflow_on-settles = (
    λ row there free.
        let all = (accepted row there free).1 in
        (
          ap (λ (r : Result p String × Inner p). r.0) all,
          (
            back row,
            ap (λ (r : Result p String × Inner p). get id r.1.workflows) all ∙ back_row row there,
            refl,
            refl,
            refl,
            refl,
            λ req latest named part version. waits row req latest named part version,
          ),
        ),
    kept,
    absent_lem,
    resume_workflow_on-Runs,
  )
