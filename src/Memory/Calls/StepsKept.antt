-- ===== src/Memory/Calls/StepsKept.antt =====
-- src/memory.rs: the calls that write other tables than the steps.
use durust.Base.{
  ℤ, String, Bool, Option, List, [], ◌∷◌, ◌≡◌, refl, ap, ◌∙◌, string_eq, int_eq, pair_eq, arith,
}
use durust.Platform.{Platform}
use durust.Error.{Result}
use durust.Store.{insert}
use durust.Provider.{WorkflowStatus, DequeueRequest}
use durust.Schedule.{WorkflowSchedule}
use durust.Memory.{Inner}
use durust.Memory.Invariant.{IsValid}
use durust.Memory.Dequeue.{dequeue_workflows}
use durust.Memory.Dequeue.Laws.{dequeue-total}
use durust.Memory.Mailbox.{insert_notification}
use durust.Memory.Streams.{write_stream}
use durust.Memory.Schedules.{create_schedule, apply_schedules}
use durust.Memory.Versions.{create_application_version}
use durust.Memory.Queues.{upsert_queue}
use durust.Memory.Lifecycle.{insert_workflow_status, set_workflow_status, bump_recovery_attempts}
use durust.Memory.Manage.{
  cancel_workflows, cancel_row, resume_workflow, resume_workflows, set_workflow_delay,
}
use durust.Store.{update}
use durust.Queue.{WorkflowQueue}

module _ {p : Platform} where
  pub insert_workflow_status-steps :
      (w : WorkflowStatus p) (g : Inner p) → (insert_workflow_status w g).1.steps ≡ g.steps
  unfolding insert_workflow_status
  insert_workflow_status-steps w g = ground arith

  pub set_workflow_status-steps :
      (id status : String) (output : Option p.Value) (error : Option String) (now : p.DateTime)
      (g : Inner p)
      → (set_workflow_status id status output error now g).1.steps ≡ g.steps
  unfolding set_workflow_status
  set_workflow_status-steps id status output error now g = ground arith

  pub bump_recovery_attempts-steps :
      (id : String) (max : ℤ) (now : p.DateTime) (g : Inner p)
      → (bump_recovery_attempts id max now g).1.steps ≡ g.steps
  unfolding bump_recovery_attempts
  bump_recovery_attempts-steps id max now g = ground arith

  pub cancel_workflows-steps :
      (ids : List String) (now : p.DateTime) (g : Inner p)
      → (cancel_workflows ids now g).steps ≡ g.steps
  unfolding cancel_workflows
  cancel_workflows-steps [] now g = refl
  cancel_workflows-steps (id ∷ ids) now g =
      cancel_workflows-steps ids now
        (record g { workflows = update id (cancel_row now) g.workflows })

  pub resume_workflow-steps :
      (id : String) (now : p.DateTime) (g : Inner p) → (resume_workflow id now g).1.steps ≡ g.steps
  unfolding resume_workflow
  resume_workflow-steps id now g = ground arith

  pub resume_workflows-steps :
      (ids : List String) (now : p.DateTime) (g : Inner p)
      → (resume_workflows ids now g).1.steps ≡ g.steps
  unfolding resume_workflows
  resume_workflows-steps [] now g = refl
  resume_workflows-steps (id ∷ ids) now g =
      resume_workflows-steps ids now (resume_workflow id now g).1 ∙ resume_workflow-steps id now g

  pub set_workflow_delay-steps :
      (id : String) (until : ℤ) (now : p.DateTime) (g : Inner p)
      → (set_workflow_delay id until now g).1.steps ≡ g.steps
  unfolding set_workflow_delay
  set_workflow_delay-steps id until now g = ground arith

  pub insert_notification-steps :
      (dest topic : String) (message : p.Value) (key : Option String) (fresh : String)
      (now : p.DateTime) (g : Inner p)
      → (insert_notification dest topic message key fresh now g).1.steps ≡ g.steps
  unfolding insert_notification
  insert_notification-steps dest topic message key fresh now g = ground arith

  pub write_stream-steps :
      (id key : String) (v : Option p.Value) (g : Inner p)
      → (write_stream id key v g).1.steps ≡ g.steps
  unfolding write_stream
  write_stream-steps id key v g = ground arith

  pub create_schedule-steps :
      (s : WorkflowSchedule p) (g : Inner p) → (create_schedule s g).1.steps ≡ g.steps
  unfolding create_schedule
  create_schedule-steps s g = ground arith

  pub apply_schedules-steps :
      (ss : List (WorkflowSchedule p)) (g : Inner p) → (apply_schedules ss g).steps ≡ g.steps
  unfolding apply_schedules
  apply_schedules-steps [] g = refl
  apply_schedules-steps (s ∷ ss) g =
      apply_schedules-steps ss (record g { schedules = insert s.schedule_name s g.schedules })

  pub create_application_version-steps :
      (name fresh : String) (now : p.DateTime) (g : Inner p)
      → (create_application_version name fresh now g).steps ≡ g.steps
  unfolding create_application_version
  create_application_version-steps name fresh now g = ground arith

  pub upsert_queue-steps :
      (queue : WorkflowQueue) (change : Bool) (g : Inner p)
      → (upsert_queue queue change g).steps ≡ g.steps
  unfolding upsert_queue
  upsert_queue-steps queue change g = ground arith

  pub dequeue_workflows-steps :
      (req : DequeueRequest) (now : p.DateTime) (stamp : String → p.DateTime) (g : Inner p)
      → IsValid g
      → (dequeue_workflows req now stamp g).1.steps ≡ g.steps
  dequeue_workflows-steps req now stamp g valid =
      let (claimed, ws, run, bound) = dequeue-total req now stamp g valid in
      ap (λ (r : Result p (List (WorkflowStatus p)) × Inner p). r.1.steps) run
