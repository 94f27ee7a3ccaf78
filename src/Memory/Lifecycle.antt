-- ===== src/Memory/Lifecycle.antt =====
-- src/memory.rs: creating a workflow row, reading it, moving it to another status, and counting
-- its recoveries.
pub mod Slots
pub mod Inserts
pub mod Moves
pub mod Recovery
use durust.Base.{
  ℤ, pos, String, Bool, true, false, not, ◌&&◌, ◌||◌, Option, none, some, List, [], ◌∷◌, ◌==◌,
  string_eq, ◌+ℤ◌, i32, ltb_ℤ, anyb, findb, option_map, is_some_of, if◌then◌else◌,
}
use durust.Platform.{Platform}
use durust.Error.{Error, deduplicated, cancelled, Result, ok, err}
use durust.Store.{HashMap, get, contains_key, insert, update, values}
use durust.Provider.{
  WorkflowStatus, is_terminal, status_success, status_error, status_cancelled,
  status_max_recovery_attempts_exceeded,
}
use durust.Memory.{Inner}

-- `if let Some(o) = new { field = Some(o) }`
abbrev pub overwrite : {A : Type 0} → Option A → Option A → Option A
overwrite none old = old
overwrite (some a) old = some a

module _ {p : Platform} where
  -- The row holds the slot (queue, dedup).
  abbrev pub holds_slot : String → String → WorkflowStatus p → Bool
  holds_slot queue dedup w = is_some_of w.queue_name queue && is_some_of w.dedup_id dedup

  -- A row with another id holds the slot of `status`.
  pub conflict : Option String → Option String → String → List (WorkflowStatus p) → Bool
  conflict (some queue) (some dedup) id rows =
      anyb (λ w. not (w.id == id) && holds_slot queue dedup w) rows
  conflict _ _ id rows = false

  abbrev pub dedup_error : Option String → Option String → Error p
  dedup_error (some queue) (some dedup) = deduplicated queue dedup
  dedup_error _ _ = deduplicated "" ""

  -- The row under the id, and whether this call created it.
  unfoldable pub insert_workflow_status :
      WorkflowStatus p → Inner p → Result p (WorkflowStatus p × Bool) × Inner p
  unfolding conflict
  insert_workflow_status status g =
      if conflict status.queue_name status.dedup_id status.id (values g.workflows)
      then (err (dedup_error status.queue_name status.dedup_id), g)
      else elim (get status.id g.workflows) [
        | some row ↦ (ok (row, false), g)
        | none ↦ (ok (status, true), record g { workflows = insert status.id status g.workflows })
      ]

  unfoldable pub get_deduplicated_workflow : String → String → Inner p → Option String
  get_deduplicated_workflow queue_name dedup_id g =
      option_map (λ (w : WorkflowStatus p). w.id)
        (findb (holds_slot queue_name dedup_id) (values g.workflows))

  unfoldable pub get_workflow_status : String → Inner p → Option (WorkflowStatus p)
  get_workflow_status id g = get id g.workflows

  -- What the call writes into the row.
  unfoldable pub with_status :
      String → Option p.Value → Option String → p.DateTime → WorkflowStatus p → WorkflowStatus p
  with_status status output error now row =
      let r = record row {
        status = status;
        output = overwrite output row.output;
        error = overwrite error row.error;
        updated_at = now;
      } in
      if is_terminal status
      then record r { completed_at_ms = some (p.timestamp_millis now); dedup_id = none }
      else r

  unfoldable pub set_workflow_status :
      String
      → String
      → Option p.Value
      → Option String
      → p.DateTime
      → Inner p
      → Result p (Unit {0}) × Inner p
  unfolding with_status
  set_workflow_status id status output error now g = elim (get id g.workflows) [
    | none ↦ (ok tt, g)
    | some row ↦
        let is_completion = status == status_success || status == status_error in
        if is_completion && row.status == status_cancelled then (err (cancelled id), g) else (
          ok tt,
          record g { workflows = update id (with_status status output error now) g.workflows },
        )
  ]

  -- One more recovery attempt; past `max` the row is parked.
  unfoldable pub bump_row : ℤ → p.DateTime → WorkflowStatus p → WorkflowStatus p
  bump_row max now row =
      let r = record row { recovery_attempts = i32 (row.recovery_attempts +ℤ pos 1) } in
      if ltb_ℤ max r.recovery_attempts
      then record r {
        status = status_max_recovery_attempts_exceeded;
        dedup_id = none;
        updated_at = now;
      }
      else r

  unfoldable pub bump_recovery_attempts : String → ℤ → p.DateTime → Inner p → ℤ × Inner p
  unfolding bump_row
  bump_recovery_attempts id max now g = elim (get id g.workflows) [
    | none ↦ (pos 0, g)
    | some row ↦ (
      (bump_row max now row).recovery_attempts,
      record g { workflows = update id (bump_row max now) g.workflows },
    )
  ]
