-- ===== src/Memory/Manage.antt =====
-- src/memory.rs: cancelling, resuming, re-queueing and delaying workflows.
pub mod Valid
pub mod Cancel
pub mod Resume
pub mod Delay
use durust.Base.{
  ℕ, ℤ, pos, String, Bool, true, false, not, ◌&&◌, ◌||◌, Option, none, some, List, [], ◌∷◌, ◌==◌,
  string_eq, leb_ℤ, countb, is_some_and, if◌then◌else◌,
}
use durust.Platform.{Platform}
use durust.Store.{HashMap, get, update, values, map_values}
use durust.Provider.{
  WorkflowStatus, is_terminal, status_enqueued, status_delayed, status_pending, status_cancelled,
}
use durust.Memory.{Inner}

module _ {p : Platform} where
  -- The body of `cancel_workflow`, and of the loop of `cancel_workflows`.
  unfoldable pub cancel_row : p.DateTime → WorkflowStatus p → WorkflowStatus p
  cancel_row now row =
      if not (is_terminal row.status)
      then record row {
        status = status_cancelled;
        completed_at_ms = some (p.timestamp_millis now);
        started_at_ms = none;
        queue_name = none;
        dedup_id = none;
        updated_at = now;
      }
      else row

  unfoldable pub cancel_workflow : String → p.DateTime → Inner p → Inner p
  unfolding cancel_row
  cancel_workflow id now g = record g { workflows = update id (cancel_row now) g.workflows }

  unfoldable pub cancel_workflows : List String → p.DateTime → Inner p → Inner p
  unfolding cancel_row
  cancel_workflows [] now g = g
  cancel_workflows (id ∷ ids) now g =
      cancel_workflows ids now (record g { workflows = update id (cancel_row now) g.workflows })

  -- The gate of both forms of resume.
  abbrev pub not_resumable : WorkflowStatus p → Bool
  not_resumable row = is_terminal row.status && not (row.status == status_cancelled)

  unfoldable pub resume_row : p.DateTime → WorkflowStatus p → WorkflowStatus p
  resume_row now row = record row {
    status = status_pending;
    recovery_attempts = pos 0;
    deadline_ms = none;
    dedup_id = none;
    started_at_ms = none;
    completed_at_ms = none;
    updated_at = now;
  }

  unfoldable pub resume_workflow : String → p.DateTime → Inner p → Bool × Inner p
  unfolding resume_row
  resume_workflow id now g = elim (get id g.workflows) [
    | none ↦ (false, g)
    | some row ↦
        if not_resumable row
        then (false, g)
        else (true, record g { workflows = update id (resume_row now) g.workflows })
  ]

  -- The ids resumed, in the order given.
  unfoldable pub resume_workflows : List String → p.DateTime → Inner p → List String × Inner p
  unfolding resume_workflow
  resume_workflows [] now g = ([], g)
  resume_workflows (id ∷ ids) now g =
      let (resumed, g') = resume_workflow id now g in
      let (rest, g'') = resume_workflows ids now g' in (if resumed then id ∷ rest else rest, g'')

  unfoldable pub enqueue_row : String → p.DateTime → WorkflowStatus p → WorkflowStatus p
  enqueue_row queue now row = record row {
    status = status_enqueued;
    queue_name = some queue;
    executor_id = "";
    started_at_ms = none;
    updated_at = now;
  }

  unfoldable pub enqueue_existing : String → String → p.DateTime → Inner p → Inner p
  unfolding enqueue_row
  enqueue_existing id queue now g = record g {
    workflows = update id (enqueue_row queue now) g.workflows;
  }

  -- Only a `DELAYED` row is rescheduled.
  unfoldable pub set_workflow_delay : String → ℤ → p.DateTime → Inner p → Bool × Inner p
  set_workflow_delay id delay_until_ms now g = elim (get id g.workflows) [
    | none ↦ (false, g)
    | some row ↦
        if row.status == status_delayed
        then (
          true,
          record g {
            workflows =
                update id (λ r. record r { delay_until_ms = some delay_until_ms; updated_at = now })
                  g.workflows;
          },
        )
        else (false, g)
  ]

  abbrev pub is_due : ℤ → WorkflowStatus p → Bool
  is_due now_ms w = w.status == status_delayed && is_some_and w.delay_until_ms (λ t. leb_ℤ t now_ms)

  -- `stamp id` is the clock at the write to the row with that id.
  unfoldable pub promote_row : ℤ → (String → p.DateTime) → WorkflowStatus p → WorkflowStatus p
  promote_row now_ms stamp w =
      if is_due now_ms w
      then record w { status = status_enqueued; delay_until_ms = none; updated_at = stamp w.id }
      else w

  unfoldable pub transition_delayed_workflows : ℤ → (String → p.DateTime) → Inner p → ℕ × Inner p
  unfolding promote_row
  transition_delayed_workflows now_ms stamp g = (
    countb (is_due now_ms) (values g.workflows),
    record g { workflows = map_values (promote_row now_ms stamp) g.workflows },
  )
