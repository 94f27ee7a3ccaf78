-- ===== src/Engine/Run.antt =====
-- src/engine.rs, `run_to_completion`: a workflow function is run and its end is recorded.
pub mod Outcome
use Prim.Native.String.{◌++◌ as text_append}
use durust.Base.{ℤ, String, Option, none, some, string_eq}
use durust.Platform.{Platform}
use durust.Error.{Error, cancelled, timed_out, app, Result, ok, err, panicked}
use durust.Provider.{status_success, status_error, status_cancelled}
use durust.Memory.{Inner}
use durust.Memory.Lifecycle.{set_workflow_status}
use durust.Engine.{AuthContext, WorkflowFn}

-- The encoding of an error (src/serialize.rs), the message of a panic, and the clock at the end.
pub record RunEnv (p : Platform) : Type 0 where
  pub encode_error : Error p → String
  pub panic_message : String
  pub now : p.DateTime

module _ {p : Platform} where
  -- `?` after the status is written.
  abbrev pub recorded :
      Result p (Unit {0}) × Inner p → Result p p.Value → Result p p.Value × Inner p
  recorded (ok u, g) r = (r, g)
  recorded (err e, g) r = (err e, g)
  recorded (panicked, g) r = (panicked, g)

  -- A returned error: a cancellation, or any other.
  unfoldable pub record_error : RunEnv p → String → Error p → Inner p → Result p p.Value × Inner p
  record_error env id e g = elim e [
    | cancelled other ↦
        recorded (set_workflow_status id status_cancelled none (some "cancelled") env.now g)
          (err (cancelled id))
    | other ↦
        recorded
          (set_workflow_status id status_error none (some (env.encode_error other)) env.now g)
          (err other)
  ]

  -- The end of the body. A panic writes nothing.
  unfoldable pub conclude :
      RunEnv p → String → Result p p.Value × Inner p → Result p p.Value × Inner p
  unfolding record_error
  conclude env id (ok output, g) =
      recorded (set_workflow_status id status_success (some output) none env.now g) (ok output)
  conclude env id (err e, g) = record_error env id e g
  conclude env id (panicked, g) =
      (err (app (text_append "workflow panicked: " env.panic_message)), g)

  -- `cut` is what the tables were when the deadline passed, if it passed before the body ended.
  abbrev pub expired : Option ℤ → Option (Inner p) → Option (Inner p)
  expired none cut = none
  expired (some deadline) cut = cut

  unfoldable pub run_to_completion :
      RunEnv p
      → WorkflowFn p
      → String
      → p.Value
      → Option ℤ
      → AuthContext
      → Option (Inner p)
      → Inner p
      → Result p p.Value × Inner p
  unfolding conclude
  run_to_completion env handler id input deadline_ms auth cut g = elim (expired deadline_ms cut) [
    | some g' ↦
        recorded
          (set_workflow_status id status_cancelled none (some "deadline exceeded") env.now g')
          (err timed_out)
    | none ↦ conclude env id (handler id auth input g)
  ]
