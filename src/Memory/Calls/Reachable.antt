-- ===== src/Memory/Calls/Reachable.antt =====
-- src/memory.rs: the tables over sequences of calls.
use durust.Base.{not, ◌||◌, refl, string_eq, int_eq, pair_eq, inl, inr, Bool-cases}
use durust.Platform.{Platform}
use durust.Store.{contains_key}
use durust.Memory.{Inner}
use durust.Memory.Invariant.{IsValid}
use durust.Memory.Lifecycle.Inserts.{insert_workflow_status-IsValid}
use durust.Memory.Lifecycle.Moves.{set_workflow_status-IsValid}
use durust.Memory.Events.{upsert_event}
use durust.Memory.Schedules.{set_schedule_status, set_schedule_last_fired, delete_schedule}
use durust.Memory.Versions.{set_latest_application_version}
use durust.Memory.Queues.{upsert_queue}
use durust.Memory.Valid.{new_provider-IsValid}
use durust.Memory.Manage.Valid.{
  cancel_workflow-IsValid, cancel_workflows-IsValid, resume_workflow-IsValid,
  resume_workflows-IsValid, enqueue_existing-IsValid, set_workflow_delay-IsValid,
  transition_delayed_workflows-IsValid, bump_recovery_attempts-IsValid,
}
use durust.Memory.Calls.Valid.{
  same_tables, record_step_result-IsValid, record_child_workflow-IsValid, record_patch-IsValid,
  insert_notification-IsValid, consume_notification-IsValid, write_stream-IsValid,
  create_schedule-IsValid, apply_schedules-IsValid, create_application_version-IsValid,
}
use durust.Memory.Calls.Rows.{
  dequeue_workflows-IsValid, fork_workflow-IsValid, delete_workflows-IsValid,
}
use durust.Memory.Calls.{
  Reach, at_start, after, Writes, on_insert, on_status, on_bump, on_cancel, on_cancels, on_resume,
  on_resumes, on_enqueue, on_delay, on_transition, on_record, on_child, on_patch, on_send,
  on_receive, on_event, on_stream, on_schedule, on_schedules, on_schedule_status, on_fired,
  on_unschedule, on_version, on_latest, on_queue, Call, on_write, on_dequeue, on_fork, on_delete,
}

module _ {p : Platform} where
  pub Writes-IsValid : (g g' : Inner p) → Writes g g' → IsValid g → IsValid g'
  unfolding upsert_event set_schedule_status set_schedule_last_fired delete_schedule
      set_latest_application_version upsert_queue
  Writes-IsValid g _ (on_insert w) valid = insert_workflow_status-IsValid w g valid
  Writes-IsValid g _ (on_status id status output error now) valid =
      set_workflow_status-IsValid id status output error now g valid
  Writes-IsValid g _ (on_bump id max now) valid = bump_recovery_attempts-IsValid id max now g valid
  Writes-IsValid g _ (on_cancel id now) valid = cancel_workflow-IsValid id now g valid
  Writes-IsValid g _ (on_cancels ids now) valid = cancel_workflows-IsValid ids now g valid
  Writes-IsValid g _ (on_resume id now) valid = resume_workflow-IsValid id now g valid
  Writes-IsValid g _ (on_resumes ids now) valid = resume_workflows-IsValid ids now g valid
  Writes-IsValid g _ (on_enqueue id queue now bare) valid =
      enqueue_existing-IsValid id queue now g bare valid
  Writes-IsValid g _ (on_delay id until now) valid = set_workflow_delay-IsValid id until now g valid
  Writes-IsValid g _ (on_transition now_ms stamp) valid =
      transition_delayed_workflows-IsValid now_ms stamp g valid
  Writes-IsValid g _ (on_record id seq name value error started now) valid =
      record_step_result-IsValid id seq name value error started now g valid
  Writes-IsValid g _ (on_child id seq name child) valid =
      record_child_workflow-IsValid id seq name child g valid
  Writes-IsValid g _ (on_patch id seq name) valid = record_patch-IsValid id seq name g valid
  Writes-IsValid g _ (on_send dest topic message key fresh now) valid =
      insert_notification-IsValid dest topic message key fresh now g valid
  Writes-IsValid g _ (on_receive id topic seq name) valid =
      consume_notification-IsValid id topic seq name g valid
  Writes-IsValid g _ (on_event id key value) valid = same_tables g _ refl refl valid
  Writes-IsValid g _ (on_stream id key v) valid = write_stream-IsValid id key v g valid
  Writes-IsValid g _ (on_schedule s) valid = create_schedule-IsValid s g valid
  Writes-IsValid g _ (on_schedules ss) valid = apply_schedules-IsValid ss g valid
  Writes-IsValid g _ (on_schedule_status name status) valid = same_tables g _ refl refl valid
  Writes-IsValid g _ (on_fired name at) valid = same_tables g _ refl refl valid
  Writes-IsValid g _ (on_unschedule name) valid = same_tables g _ refl refl valid
  Writes-IsValid g _ (on_version name fresh now) valid =
      create_application_version-IsValid name fresh now g valid
  Writes-IsValid g _ (on_latest name now) valid = same_tables g _ refl refl valid
  Writes-IsValid g _ (on_queue queue update) valid =
      elim (Bool-cases (update || not (contains_key queue.name g.queues))) [
        | inl put ↦ rw put (same_tables g _ refl refl valid)
        | inr left ↦ rw left valid
      ]

  Call-IsValid : (g g' : Inner p) → Call g g' → IsValid g → IsValid g'
  Call-IsValid g _ (on_write g' w) valid = Writes-IsValid g g' w valid
  Call-IsValid g _ (on_dequeue req now stamp) valid =
      dequeue_workflows-IsValid req now stamp g valid
  Call-IsValid g _ (on_fork params now) valid = fork_workflow-IsValid params now g valid
  Call-IsValid g _ (on_delete ids children g' h) valid =
      delete_workflows-IsValid ids children g g' h valid

  pub Reach-IsValid : (g : Inner p) → Reach g → IsValid g
  Reach-IsValid _ at_start = new_provider-IsValid
  Reach-IsValid _ (after g g' r c) = Call-IsValid g g' c (Reach-IsValid g r)
