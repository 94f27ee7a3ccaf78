-- ===== src/Context.antt =====
-- src/context.rs: the durable operations of a workflow, over the in-memory provider. A value is
-- stored as JSON; here a step's value is the JSON value itself. An operation takes the sequence
-- number that it drew from the counter, and returns its result beside the new tables.
pub mod Guard
pub mod Replay
pub mod Once
pub mod Retries
pub mod Patches
pub mod Operation
pub mod Program
pub mod Messages
use Prim.Native.String.{◌++◌ as text_append}
use durust.Base.{
  ℕ, zero, suc, ℤ, pos, ◌+ℤ◌, i32, String, Bool, true, false, not, ◌||◌, Option, none, some, ◌==◌,
  string_eq, is_none_or, is_some_of, if◌then◌else◌,
}
use durust.Platform.{Platform}
use durust.Error.{Error, cancelled, unexpected, app, Result, ok, err, panicked, ◌>>=◌}
use durust.Provider.{
  WorkflowStatus, StepOutcome, output, failure, RecordedStep, into_value_result, status_cancelled,
}
use durust.Memory.{Inner}
use durust.Memory.Lifecycle.{get_workflow_status}
use durust.Memory.Steps.{get_step_result, record_step_result, get_step_name, record_patch}
use durust.Memory.Events.{upsert_event}
use durust.Memory.Streams.{write_stream}

-- A closure of the caller, and whatever else writes to the tables while it runs.
abbrev pub Body : Platform → Type 0
Body p = Inner p → Result p p.Value × Inner p

-- What the operations take from the engine: the encoding of an error (src/serialize.rs), the error
-- of a step that panicked, and the clock at the start and at the end of a step.
pub record StepEnv (p : Platform) : Type 0 where
  pub encode_error : Error p → String
  pub panic_error : String → Error p
  pub started_at_ms : ℤ
  pub now : p.DateTime

abbrev pub patch_marker : String → String
patch_marker name = text_append "DBOS.patch-" name

-- `fetch_add(1)`: the number drawn, and the counter after it.
unfoldable pub next_seq : ℤ → ℤ × ℤ
next_seq seq = (seq, i32 (seq +ℤ pos 1))

module _ {p : Platform} where
  -- `outcome_value`
  unfoldable pub outcome_value : StepOutcome p → Result p p.Value
  unfolding into_value_result
  outcome_value outcome = into_value_result outcome

  unfoldable pub replay_or_guard : String → ℤ → String → Inner p → Result p (Option p.Value)
  unfolding outcome_value
  replay_or_guard id seq expected g = elim (get_step_result id seq g) [
    | some rec ↦
        if not (rec.name == expected)
        then err (unexpected id seq expected rec.name)
        else outcome_value rec.outcome >>= (λ v. ok (some v))
    | none ↦ elim (get_workflow_status id g) [
      | some w ↦ if w.status == status_cancelled then err (cancelled id) else ok none
      | none ↦ ok none
    ]
  ]

  unfoldable pub checkpoint :
      StepEnv p → String → ℤ → String → p.Value → Option ℤ → Inner p → Result p p.Value × Inner p
  unfolding outcome_value
  checkpoint rt id seq name value started_at_ms g =
      let (outcome, g') = record_step_result id seq name value none started_at_ms rt.now g in
      (outcome_value outcome, g')

  unfoldable pub record_failure :
      StepEnv p → String → ℤ → String → Error p → Option ℤ → Inner p → Result p p.Value × Inner p
  record_failure rt id seq name e started_at_ms g =
      let (outcome, g') =
        record_step_result id seq name p.null (some (rt.encode_error e)) started_at_ms rt.now g in
      (elim outcome [ failure message info ↦ err e | output v ↦ ok v ], g')

  -- `run_step_catching`: a panic is an error of the step.
  unfoldable pub run_step_catching : StepEnv p → String → Body p → Body p
  run_step_catching rt name f g =
      let (r, g') = f g in
      (elim r [ ok v ↦ ok v | err e ↦ err e | panicked ↦ err (rt.panic_error name) ], g')

  -- The end of a step: its outcome is recorded.
  unfoldable pub finish_step :
      StepEnv p → String → ℤ → String → Result p p.Value × Inner p → Result p p.Value × Inner p
  unfolding checkpoint record_failure
  finish_step rt id seq name (r, g) = elim r [
    | ok v ↦ checkpoint rt id seq name v (some rt.started_at_ms) g
    | err e ↦ record_failure rt id seq name e (some rt.started_at_ms) g
    | panicked ↦ (panicked, g)
  ]

  -- A replayed value as the operation returns it, or what `fresh` does.
  unfoldable pub replayed_or :
      {A : Type 0}
      → (p.Value → A)
      → Result p (Option p.Value)
      → Inner p
      → Result p A × Inner p
      → Result p A × Inner p
  replayed_or as_result (ok (some v)) g fresh = (ok (as_result v), g)
  replayed_or as_result (ok none) g fresh = fresh
  replayed_or as_result (err e) g fresh = (err e, g)
  replayed_or as_result panicked g fresh = (panicked, g)

  unfoldable pub step :
      StepEnv p → String → ℤ → String → Body p → Inner p → Result p p.Value × Inner p
  unfolding replay_or_guard run_step_catching finish_step replayed_or
  step rt id seq name f g =
      replayed_or (λ v. v) (replay_or_guard id seq name g) g
        (finish_step rt id seq name (run_step_catching rt name f g))

  -- The loop of `run_with_retries`, with `left` retries left; the delays are not modelled.
  unfoldable pub run_with_retries :
      StepEnv p → String → ℕ → Option (Error p → Bool) → Body p → Body p
  unfolding run_step_catching
  run_with_retries rt name zero retry_if f g = run_step_catching rt name f g
  run_with_retries rt name (suc left) retry_if f g =
      let (r, g') = run_step_catching rt name f g in
      let again = run_with_retries rt name left retry_if f g' in
      elim r [
        | ok v ↦ (ok v, g')
        | err e ↦ if not (is_none_or retry_if (λ accepts. accepts e)) then (err e, g') else again
        | panicked ↦ (panicked, g')
      ]

  unfoldable pub step_with :
      StepEnv p
      → String
      → ℤ
      → String
      → ℕ
      → Option (Error p → Bool)
      → Body p
      → Inner p
      → Result p p.Value × Inner p
  unfolding replay_or_guard run_with_retries finish_step replayed_or
  step_with rt id seq name max_retries retry_if f g =
      replayed_or (λ v. v) (replay_or_guard id seq name g) g
        (finish_step rt id seq name (run_with_retries rt name max_retries retry_if f g))

  -- `now`, `uuid` and `random` record what `produce` gave.
  unfoldable pub durable_value :
      StepEnv p → String → ℤ → String → p.Value → Inner p → Result p p.Value × Inner p
  unfolding outcome_value
  durable_value rt id seq name produced g = elim (get_step_result id seq g) [
    | some rec ↦
        if not (rec.name == name)
        then (err (unexpected id seq name rec.name), g)
        else (outcome_value rec.outcome, g)
    | none ↦
        let (outcome, g') = record_step_result id seq name produced none none rt.now g in
        (outcome_value outcome, g')
  ]

  -- The last step of an operation without a value: record that it is done.
  unfoldable pub record_done :
      StepEnv p → String → ℤ → String → Inner p → Result p (Unit {0}) × Inner p
  record_done rt id seq name g =
      (ok tt, (record_step_result id seq name p.null none none rt.now g).1)

  unfoldable pub set_event :
      StepEnv p → String → ℤ → String → p.Value → Inner p → Result p (Unit {0}) × Inner p
  unfolding replay_or_guard replayed_or record_done
  set_event rt id seq key value g =
      replayed_or (λ v. tt) (replay_or_guard id seq "DBOS.setEvent" g) g
        (record_done rt id seq "DBOS.setEvent" (upsert_event id key value g))

  -- `write_stream`, and `close_stream` for no value.
  unfoldable pub stream_operation :
      StepEnv p
      → String
      → ℤ
      → String
      → String
      → Option p.Value
      → Inner p
      → Result p (Unit {0}) × Inner p
  unfolding replay_or_guard replayed_or record_done
  stream_operation rt id seq name key value g =
      let (written, g') = write_stream id key value g in
      replayed_or (λ v. tt) (replay_or_guard id seq name g) g
        (elim written [
          | ok u ↦ record_done rt id seq name g'
          | err e ↦ (err e, g')
          | panicked ↦ (panicked, g')
        ])

  -- Whether to run the new code, with the counter and the tables after it.
  unfoldable pub patch : String → ℤ → String → Inner p → Bool × ℤ × Inner p
  unfolding next_seq
  patch id seq name g = elim (get_step_name id seq g) [
    | none ↦ (true, (next_seq seq).1, record_patch id seq (patch_marker name) g)
    | some recorded ↦
        if recorded == patch_marker name then (true, (next_seq seq).1, g) else (false, seq, g)
  ]

  -- The counter afterwards.
  unfoldable pub deprecate_patch : String → ℤ → String → Inner p → ℤ
  unfolding next_seq
  deprecate_patch id seq name g =
      if is_some_of (get_step_name id seq g) (patch_marker name) then (next_seq seq).1 else seq
