-- ===== src/Memory/Calls/Checkpoints.antt =====
-- src/memory.rs: recorded steps over sequences of calls.
use durust.Base.{
  ℤ, String, some, ◌≡◌, refl, sym, ap, ◌∙◌, string_eq, int_eq, pair_eq, arith, inl, inr,
  Option-cases,
}
use durust.Platform.{Platform}
use durust.Store.{HashMap, get}
use durust.Provider.{DequeueRequest}
use durust.Memory.{Inner, StepRow}
use durust.Memory.Invariant.{IsValid}
use durust.Memory.Dequeue.{dequeue_workflows}
use durust.Memory.Steps.{
  step_row, record_step_result, record_child_workflow, record_patch, named_row,
}
use durust.Memory.Mailbox.{consume_notification, oldest}
use durust.Memory.Events.{upsert_event}
use durust.Memory.Schedules.{set_schedule_status, set_schedule_last_fired, delete_schedule}
use durust.Memory.Versions.{set_latest_application_version}
use durust.Memory.Calls.Rows.{dequeue_workflows-IsValid}
use durust.Memory.Calls.{
  Writes, on_insert, on_status, on_bump, on_cancel, on_cancels, on_resume, on_resumes, on_enqueue,
  on_delay, on_transition, on_record, on_child, on_patch, on_send, on_receive, on_event, on_stream,
  on_schedule, on_schedules, on_schedule_status, on_fired, on_unschedule, on_version, on_latest,
  on_queue,
}
use durust.Memory.Manage.{cancel_workflow, enqueue_existing, transition_delayed_workflows}
use durust.Memory.Steps.{get_step_result, step_row_outcome}
use durust.Base.{option_map}
use durust.Memory.Calls.Reachable.{Writes-IsValid}
use durust.Memory.Steps.Laws.{enter_step-keeps}
use durust.Provider.{RecordedStep}
use durust.Memory.Calls.StepsKept.{
  insert_workflow_status-steps, set_workflow_status-steps, bump_recovery_attempts-steps,
  cancel_workflows-steps, resume_workflow-steps, resume_workflows-steps, set_workflow_delay-steps,
  insert_notification-steps, write_stream-steps, create_schedule-steps, apply_schedules-steps,
  create_application_version-steps, upsert_queue-steps, dequeue_workflows-steps,
}

module _ {p : Platform} where
  -- The step with this key, once recorded, stays as it is.
  abbrev pub KeepsStep :
      String × ℤ → HashMap (String × ℤ) (StepRow p) → HashMap (String × ℤ) (StepRow p) → Type 0
  KeepsStep k s s' = (r : StepRow p) → get k s ≡ some r → get k s' ≡ some r

  same_steps :
      (k : String × ℤ) (s s' : HashMap (String × ℤ) (StepRow p)) → s' ≡ s → KeepsStep k s s'
  same_steps k s s' e r h = ap (get k) e ∙ h

  consume_notification-KeepsStep :
      (k : String × ℤ) (id topic : String) (seq : ℤ) (name : String) (g : Inner p)
      → KeepsStep k g.steps (consume_notification id topic seq name g).1.steps
  unfolding consume_notification
  consume_notification-KeepsStep k id topic seq name g r h =
      elim (Option-cases (oldest id topic g.notifications)) [
        | inl nothing ↦ rw (nothing, consume_notification) h
        | inr (s, found) ↦
            rw (found, consume_notification)
              (enter_step-keeps id seq (record (named_row name) { output = some s.1.message })
                g.steps k r h)
      ]

  Writes-KeepsStep : (k : String × ℤ) (g g' : Inner p) → Writes g g' → KeepsStep k g.steps g'.steps
  unfolding upsert_event set_schedule_status set_schedule_last_fired delete_schedule
      set_latest_application_version cancel_workflow enqueue_existing transition_delayed_workflows
      record_step_result record_child_workflow record_patch
  Writes-KeepsStep k g _ (on_insert w) = same_steps k g.steps _ (insert_workflow_status-steps w g)
  Writes-KeepsStep k g _ (on_status id status output error now) =
      same_steps k g.steps _ (set_workflow_status-steps id status output error now g)
  Writes-KeepsStep k g _ (on_bump id max now) =
      same_steps k g.steps _ (bump_recovery_attempts-steps id max now g)
  Writes-KeepsStep k g _ (on_cancel id now) = same_steps k g.steps _ refl
  Writes-KeepsStep k g _ (on_cancels ids now) =
      same_steps k g.steps _ (cancel_workflows-steps ids now g)
  Writes-KeepsStep k g _ (on_resume id now) =
      same_steps k g.steps _ (resume_workflow-steps id now g)
  Writes-KeepsStep k g _ (on_resumes ids now) =
      same_steps k g.steps _ (resume_workflows-steps ids now g)
  Writes-KeepsStep k g _ (on_enqueue id queue now bare) = same_steps k g.steps _ refl
  Writes-KeepsStep k g _ (on_delay id until now) =
      same_steps k g.steps _ (set_workflow_delay-steps id until now g)
  Writes-KeepsStep k g _ (on_transition now_ms stamp) = same_steps k g.steps _ refl
  Writes-KeepsStep k g _ (on_record id seq name value error started now) =
      λ r h. enter_step-keeps id seq (step_row name value error started now) g.steps k r h
  Writes-KeepsStep k g _ (on_child id seq name child) = λ r h.
      enter_step-keeps id seq (record (named_row name) { child_workflow_id = some child }) g.steps k
        r h
  Writes-KeepsStep k g _ (on_patch id seq name) =
      λ r h. enter_step-keeps id seq (named_row name) g.steps k r h
  Writes-KeepsStep k g _ (on_send dest topic message key fresh now) =
      same_steps k g.steps _ (insert_notification-steps dest topic message key fresh now g)
  Writes-KeepsStep k g _ (on_receive id topic seq name) =
      consume_notification-KeepsStep k id topic seq name g
  Writes-KeepsStep k g _ (on_event id key value) = same_steps k g.steps _ refl
  Writes-KeepsStep k g _ (on_stream id key v) =
      same_steps k g.steps _ (write_stream-steps id key v g)
  Writes-KeepsStep k g _ (on_schedule s) = same_steps k g.steps _ (create_schedule-steps s g)
  Writes-KeepsStep k g _ (on_schedules ss) = same_steps k g.steps _ (apply_schedules-steps ss g)
  Writes-KeepsStep k g _ (on_schedule_status name status) = same_steps k g.steps _ refl
  Writes-KeepsStep k g _ (on_fired name at) = same_steps k g.steps _ refl
  Writes-KeepsStep k g _ (on_unschedule name) = same_steps k g.steps _ refl
  Writes-KeepsStep k g _ (on_version name fresh now) =
      same_steps k g.steps _ (create_application_version-steps name fresh now g)
  Writes-KeepsStep k g _ (on_latest name now) = same_steps k g.steps _ refl
  Writes-KeepsStep k g _ (on_queue queue change) =
      same_steps k g.steps _ (upsert_queue-steps queue change g)

  -- Any sequence of writing calls and dequeues: no deletion and no fork among them.
  pub data Runs (g : Inner p) : Inner p → Type 0 where
    no_call : Runs g g
    then_write : (g' g'' : Inner p) → Runs g g' → Writes g' g'' → Runs g g''
    then_dequeue :
        (g' : Inner p) (req : DequeueRequest) (now : p.DateTime) (stamp : String → p.DateTime)
        → Runs g g'
        → Runs g (dequeue_workflows req now stamp g').1

  pub Runs-IsValid : (g g' : Inner p) → IsValid g → Runs g g' → IsValid g'
  Runs-IsValid g _ valid no_call = valid
  Runs-IsValid g _ valid (then_write g' g'' r w) =
      Writes-IsValid g' g'' w (Runs-IsValid g g' valid r)
  Runs-IsValid g _ valid (then_dequeue g' req now stamp r) =
      dequeue_workflows-IsValid req now stamp g' (Runs-IsValid g g' valid r)

  pub Runs-trans : (g g' g'' : Inner p) → Runs g g' → Runs g' g'' → Runs g g''
  Runs-trans g g' _ first no_call = first
  Runs-trans g g' _ first (then_write h h' more w) =
      then_write h h' (Runs-trans g g' h first more) w
  Runs-trans g g' _ first (then_dequeue h req now stamp more) =
      then_dequeue h req now stamp (Runs-trans g g' h first more)

  pub Runs-KeepsStep :
      (k : String × ℤ) (g g' : Inner p) → IsValid g → Runs g g' → KeepsStep k g.steps g'.steps
  Runs-KeepsStep k g _ valid no_call = λ r h. h
  Runs-KeepsStep k g _ valid (then_write g' g'' run w) =
      λ r h. Writes-KeepsStep k g' g'' w r (Runs-KeepsStep k g g' valid run r h)
  Runs-KeepsStep k g _ valid (then_dequeue g' req now stamp run) = λ r h.
      same_steps k g'.steps _
        (dequeue_workflows-steps req now stamp g' (Runs-IsValid g g' valid run)) r
        (Runs-KeepsStep k g g' valid run r h)

  -- A checkpoint is written once: what a read of a step returns in valid tables, it returns after
  -- any sequence of calls, by this workflow or others, but deletions and forks.
  pub get_step_result-stable :
      (id : String) (seq : ℤ) (g g' : Inner p) (recorded : RecordedStep p)
      → IsValid g
      → Runs g g'
      → get_step_result id seq g ≡ some recorded
      → get_step_result id seq g' ≡ some recorded
  unfolding get_step_result
  get_step_result-stable id seq g g' recorded valid run h =
      elim (Option-cases (get (id, seq) g.steps)) [
        | inl absent ↦ absurd (ground (arith, absent, h))
        | inr (r, found) ↦
            ap
              (option_map
                (λ (x : StepRow p). record { name = x.name; outcome = step_row_outcome x }))
              (Runs-KeepsStep (id, seq) g g' valid run r found ∙ sym found)
            ∙ h
      ]
