-- ===== src/Memory/Calls.antt =====
-- The in-memory provider as a state machine (src/memory.rs): its state changes by one call after
-- another, in any order, each under the lock. Every method that writes is one constructor.
pub mod Valid
pub mod Rows
pub mod Reachable
pub mod StepsKept
pub mod Checkpoints
use durust.Base.{ℕ, ℤ, String, Bool, Option, none, some, List, ◌≡◌, string_eq, int_eq, pair_eq}
use durust.Platform.{Platform}
use durust.Store.{get}
use durust.Provider.{WorkflowStatus, DequeueRequest, ForkParams}
use durust.Schedule.{ScheduleStatus, WorkflowSchedule}
use durust.Queue.{WorkflowQueue}
use durust.Memory.{Inner, new_provider}
use durust.Memory.Lifecycle.{insert_workflow_status, set_workflow_status, bump_recovery_attempts}
use durust.Memory.Manage.{
  cancel_workflow, cancel_workflows, resume_workflow, resume_workflows, enqueue_existing,
  set_workflow_delay, transition_delayed_workflows,
}
use durust.Memory.Dequeue.{dequeue_workflows}
use durust.Memory.Steps.{record_step_result, record_child_workflow, record_patch}
use durust.Memory.Mailbox.{insert_notification, consume_notification}
use durust.Memory.Events.{upsert_event}
use durust.Memory.Streams.{write_stream}
use durust.Memory.Fork.{fork_workflow}
use durust.Memory.Delete.{delete_workflows}
use durust.Memory.Schedules.{
  create_schedule, apply_schedules, set_schedule_status, set_schedule_last_fired, delete_schedule,
}
use durust.Memory.Versions.{create_application_version, set_latest_application_version}
use durust.Memory.Queues.{upsert_queue}

module _ {p : Platform} where
  -- The calls that write, but for deletions.
  pub data Writes (g : Inner p) : Inner p → Type 0 where
    on_insert : (w : WorkflowStatus p) → Writes g (insert_workflow_status w g).1
    on_status :
        (id status : String) (output : Option p.Value) (error : Option String) (now : p.DateTime)
        → Writes g (set_workflow_status id status output error now g).1
    on_bump :
        (id : String) (max : ℤ) (now : p.DateTime)
        → Writes g (bump_recovery_attempts id max now g).1
    on_cancel : (id : String) (now : p.DateTime) → Writes g (cancel_workflow id now g)
    on_cancels : (ids : List String) (now : p.DateTime) → Writes g (cancel_workflows ids now g)
    on_resume : (id : String) (now : p.DateTime) → Writes g (resume_workflow id now g).1
    on_resumes : (ids : List String) (now : p.DateTime) → Writes g (resume_workflows ids now g).1
    -- The engine re-queues only rows that a resume has stripped of their deduplication id.
    on_enqueue :
        (id queue : String) (now : p.DateTime)
        → ((r : WorkflowStatus p) → get id g.workflows ≡ some r → r.dedup_id ≡ none)
        → Writes g (enqueue_existing id queue now g)
    on_delay :
        (id : String) (until : ℤ) (now : p.DateTime)
        → Writes g (set_workflow_delay id until now g).1
    on_transition :
        (now_ms : ℤ) (stamp : String → p.DateTime)
        → Writes g (transition_delayed_workflows now_ms stamp g).1
    on_record :
        (id : String) (seq : ℤ) (name : String) (value : p.Value) (error : Option String)
        (started : Option ℤ) (now : p.DateTime)
        → Writes g (record_step_result id seq name value error started now g).1
    on_child :
        (id : String) (seq : ℤ) (name child : String)
        → Writes g (record_child_workflow id seq name child g)
    on_patch : (id : String) (seq : ℤ) (name : String) → Writes g (record_patch id seq name g)
    on_send :
        (dest topic : String) (message : p.Value) (key : Option String) (fresh : String)
        (now : p.DateTime)
        → Writes g (insert_notification dest topic message key fresh now g).1
    on_receive :
        (id topic : String) (seq : ℤ) (name : String)
        → Writes g (consume_notification id topic seq name g).1
    on_event : (id key : String) (value : p.Value) → Writes g (upsert_event id key value g)
    on_stream : (id key : String) (v : Option p.Value) → Writes g (write_stream id key v g).1
    on_schedule : (s : WorkflowSchedule p) → Writes g (create_schedule s g).1
    on_schedules : (ss : List (WorkflowSchedule p)) → Writes g (apply_schedules ss g)
    on_schedule_status :
        (name : String) (status : ScheduleStatus) → Writes g (set_schedule_status name status g).1
    on_fired : (name : String) (at : ℤ) → Writes g (set_schedule_last_fired name at g)
    on_unschedule : (name : String) → Writes g (delete_schedule name g).1
    on_version :
        (name fresh : String) (now : p.DateTime)
        → Writes g (create_application_version name fresh now g)
    on_latest :
        (name : String) (now : p.DateTime) → Writes g (set_latest_application_version name now g).1
    on_queue : (queue : WorkflowQueue) (update : Bool) → Writes g (upsert_queue queue update g)

  -- Any call that writes.
  pub data Call (g : Inner p) : Inner p → Type 0 where
    on_write : (g' : Inner p) → Writes g g' → Call g g'
    on_dequeue :
        (req : DequeueRequest) (now : p.DateTime) (stamp : String → p.DateTime)
        → Call g (dequeue_workflows req now stamp g).1
    on_fork : (params : ForkParams) (now : p.DateTime) → Call g (fork_workflow params now g).1
    on_delete :
        (ids : List String) (delete_children : Bool) (g' : Inner p)
        → delete_workflows ids delete_children g ≡ some g'
        → Call g g'

  -- The states that calls lead to from an empty provider.
  pub data Reach : Inner p → Type 0 where
    at_start : Reach new_provider
    after : (g g' : Inner p) → Reach g → Call g g' → Reach g'
