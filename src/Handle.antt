-- ===== src/Handle.antt =====
-- src/handle.rs: the result of a workflow, read from its row.
use durust.Base.{
  String, Option, none, some, List, [], ◌∷◌, ◌==◌, string_eq, unwrap_or, if◌then◌else◌,
}
use durust.Platform.{Platform}
use durust.Error.{cancelled, max_recovery_attempts, portable, app, Result, ok, err}
use durust.Provider.{
  WorkflowStatus, is_terminal, status_cancelled, status_error,
  status_max_recovery_attempts_exceeded,
}
use durust.Memory.{Inner}
use durust.Memory.Lifecycle.{get_workflow_status}

module _ {p : Platform} where
  unfoldable pub terminal_to_result : String → WorkflowStatus p → Result p p.Value
  terminal_to_result id status =
      if status.status == status_cancelled
      then err (cancelled id)
      else if status.status == status_max_recovery_attempts_exceeded
      then err (max_recovery_attempts id)
      else if status.status == status_error
      then err (elim status.error_info [
        | some info ↦ portable info
        | none ↦ app (unwrap_or status.error "workflow failed")
      ])
      else ok (unwrap_or status.output p.null)

  -- The polling loop of `result`, over the tables that the polls meet; none: it still waits.
  unfoldable pub polled_result : String → List (Inner p) → Option (Result p p.Value)
  unfolding terminal_to_result
  polled_result id [] = none
  polled_result id (g ∷ later) =
      let rest = polled_result id later in
      elim (get_workflow_status id g) [
        | none ↦ rest
        | some w ↦ if is_terminal w.status then some (terminal_to_result id w) else rest
      ]
