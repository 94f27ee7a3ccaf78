-- ===== src/Context/Replay.antt =====
-- src/context.rs, `step`: a step and its later runs.
use durust.Base.{ℤ, String, false, none, some, ◌≡◌, ◌≢◌, ap, ◌∙◌, ◌==◌, string_eq, int_eq, pair_eq}
use durust.Platform.{Platform}
use durust.Error.{Error, cancelled, unexpected, app, Result, ok, err}
use durust.Provider.{WorkflowStatus, StepOutcome, output, failure, RecordedStep, status_cancelled}
use durust.Memory.{Inner}
use durust.Memory.Invariant.{IsValid}
use durust.Memory.Lifecycle.{get_workflow_status}
use durust.Memory.Steps.{get_step_result}
use durust.Memory.Calls.Checkpoints.{Runs, get_step_result-stable}
use durust.Context.{Body, StepEnv, outcome_value, checkpoint, record_failure, step}
use durust.Context.Guard.{
  differs, record_step_result-first, replayed, refused, ran_ok, ran_err, guard_fresh, guard_stops,
  stopped,
}

module _ {p : Platform} where
  -- A step that is not recorded, of a workflow that is not cancelled, whose closure returns a value
  -- and does not itself record this step: it returns the value, and from then on, after any
  -- sequence of calls but deletions and forks, running the step under the same name with any
  -- closure returns that value and changes nothing.
  pub step-replays_value :
      (rt rt' : StepEnv p) (id : String) (seq : ℤ) (name : String) (f f' : Body p) (v : p.Value)
      (g g' : Inner p)
      → get_step_result id seq g ≡ none
      → ((w : WorkflowStatus p)
          → get_workflow_status id g ≡ some w
          → (w.status == status_cancelled) ≡ false)
      → (f g).0 ≡ ok v
      → get_step_result id seq (f g).1 ≡ none
      → IsValid (step rt id seq name f g).1
      → Runs (step rt id seq name f g).1 g'
      → ((step rt id seq name f g).0 ≡ ok v) × (step rt' id seq name f' g' ≡ (ok v, g'))
  unfolding checkpoint outcome_value
  step-replays_value rt rt' id seq name f f' v g g' fresh live gives free valid run =
      let (first, reads) =
        record_step_result-first id seq name v none (some rt.started_at_ms) rt.now (f g).1 free in
      let ran = ran_ok rt id seq name f v g (guard_fresh id seq name g fresh live) gives in
      (
        ap (λ (r : Result p p.Value × Inner p). r.0) ran ∙ ap outcome_value first,
        replayed rt' id seq name f' (output v) g' (
            get_step_result-stable id seq (step rt id seq name f g).1 g'
              (record { name = name; outcome = output v }) valid run
              (ap (λ (r : Result p p.Value × Inner p). get_step_result id seq r.1) ran ∙ reads)),
      )

  -- The same for a closure that fails: the step returns its error, and every later run of it, with
  -- any closure, fails with the application error that carries the encoding of the first, and
  -- changes nothing.
  pub step-replays_error :
      (rt rt' : StepEnv p) (id : String) (seq : ℤ) (name : String) (f f' : Body p) (e : Error p)
      (g g' : Inner p)
      → get_step_result id seq g ≡ none
      → ((w : WorkflowStatus p)
          → get_workflow_status id g ≡ some w
          → (w.status == status_cancelled) ≡ false)
      → (f g).0 ≡ err e
      → get_step_result id seq (f g).1 ≡ none
      → IsValid (step rt id seq name f g).1
      → Runs (step rt id seq name f g).1 g'
      → ((step rt id seq name f g).0 ≡ err e)
        × (step rt' id seq name f' g' ≡ (err (app (rt.encode_error e)), g'))
  unfolding record_failure outcome_value
  step-replays_error rt rt' id seq name f f' e g g' fresh live gives free valid run =
      let (first, reads) =
        record_step_result-first id seq name p.null (some (rt.encode_error e))
          (some rt.started_at_ms) rt.now (f g).1 free in
      let ran = ran_err rt id seq name f e g (guard_fresh id seq name g fresh live) gives in
      (
        ap (λ (r : Result p p.Value × Inner p). r.0) ran
            ∙ ap
                (λ (o : StepOutcome p). elim o as (λ x. Result p p.Value) [
                  | failure m i ↦ err e
                  | output v ↦ ok v
                ])
                first,
        replayed rt' id seq name f' (failure (rt.encode_error e) none) g' (
            get_step_result-stable id seq (step rt id seq name f g).1 g'
              (record { name = name; outcome = failure (rt.encode_error e) none }) valid run
              (ap (λ (r : Result p p.Value × Inner p). get_step_result id seq r.1) ran ∙ reads)),
      )

  pub step-guarded :
      (rt : StepEnv p) (id : String) (seq : ℤ) (name : String) (f : Body p) (g : Inner p)
      → ((recorded : RecordedStep p)
          → get_step_result id seq g ≡ some recorded
          → recorded.name ≢ name
          → step rt id seq name f g ≡ (err (unexpected id seq name recorded.name), g))
        × ((w : WorkflowStatus p)
            → get_step_result id seq g ≡ none
            → get_workflow_status id g ≡ some w
            → w.status ≡ status_cancelled
            → step rt id seq name f g ≡ (err (cancelled id), g))
  step-guarded rt id seq name f g = (
    λ recorded h other. refused rt id seq name f recorded g h (differs recorded.name name other),
    λ w fresh there is_cancelled.
        stopped rt id seq name f g (guard_stops id seq name w g fresh there is_cancelled),
  )
