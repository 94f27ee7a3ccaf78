-- ===== src/Context/Program.antt =====
-- A workflow as src/engine.rs runs it: user code that calls one durable operation of
-- src/context.rs after another and ends at the first error (`?`). The code between two operations
-- is deterministic, so it is a function of the values that the operations returned; a run that
-- stops part way is run again from the start.
pub mod Guarded
pub mod Steps
pub mod Performs
pub mod Resumes
use durust.Base.{ℕ, ℤ, Bool, Option, ◌≡◌, string_eq, int_eq, pair_eq, pos, ◌+ℤ◌, i32, String}
use durust.Platform.{Platform}
use durust.Error.{Error, Result, ok, err, panicked}
use durust.Memory.{Inner}
use durust.Memory.Calls.Checkpoints.{Runs}
use durust.Context.{Body, StepEnv, step, step_with, durable_value, set_event, stream_operation}
use durust.Context.Operation.{IsClosure, as_null}
use durust.Context.Messages.{send}

-- One call of the context: `step`, `step_with`, a recorded value (`now`, `uuid`, `random`), `send`,
-- `set_event`, and `write_stream` or `close_stream` with its name.
pub data Call (p : Platform) (id : String) : Type 0 where
  to_step : String → (f : Body p) → IsClosure id f → Call p id
  to_step_with : String → ℕ → Option (Error p → Bool) → (f : Body p) → IsClosure id f → Call p id
  to_draw : String → (StepEnv p → p.Value) → Call p id
  to_send : String → p.Value → String → String → p.DateTime → Call p id
  to_set_event : String → p.Value → Call p id
  to_stream : String → String → Option p.Value → Call p id

-- What is left of a workflow.
pub data Program (p : Platform) (id : String) : Type 0 where
  returns : p.Value → Program p id
  calls : Call p id → (p.Value → Program p id) → Program p id

-- The number of the operation after the one numbered `seq`.
abbrev pub following : ℤ → ℤ
following seq = i32 (seq +ℤ pos 1)

module _ {p : Platform} where
  -- `?` after an awaited operation.
  abbrev pub and_then :
      Result p p.Value × Inner p
      → (p.Value → Inner p → Result p p.Value × Inner p)
      → Result p p.Value × Inner p
  and_then (ok v, g) f = f v g
  and_then (err e, g) f = (err e, g)
  and_then (panicked, g) f = (panicked, g)

module _ {p : Platform} {id : String} where
  -- The call with the number that it drew.
  unfoldable pub perform : StepEnv p → ℤ → Call p id → Inner p → Result p p.Value × Inner p
  unfolding step step_with durable_value send set_event stream_operation
  perform rt seq (to_step name f c) g = step rt id seq name f g
  perform rt seq (to_step_with name max_retries retry_if f c) g =
      step_with rt id seq name max_retries retry_if f g
  perform rt seq (to_draw name produce) g = durable_value rt id seq name (produce rt) g
  perform rt seq (to_send dest message topic fresh now) g =
      as_null (send rt id seq dest message topic fresh now g)
  perform rt seq (to_set_event key value) g = as_null (set_event rt id seq key value g)
  perform rt seq (to_stream name key value) g =
      as_null (stream_operation rt id seq name key value g)

  -- One execution, from the operation numbered `seq` on.
  unfoldable pub execute : StepEnv p → ℤ → Program p id → Inner p → Result p p.Value × Inner p
  unfolding perform
  execute rt seq (returns v) g = (ok v, g)
  execute rt seq (calls c k) g =
      and_then (perform rt seq c g) (λ v g'. execute rt (following seq) (k v) g')

  -- An execution that went from one point of the program to another, other calls of the provider
  -- coming between its operations: `Progress seq w g seq' w' g'`.
  pub data Progress : ℤ → Program p id → Inner p → ℤ → Program p id → Inner p → Type 0 where
    stopped : (seq : ℤ) (w : Program p id) (g : Inner p) → Progress seq w g seq w g
    went :
        (rt : StepEnv p) (seq : ℤ) (c : Call p id) (k : p.Value → Program p id) (v : p.Value)
        (g between : Inner p) (seq' : ℤ) (w' : Program p id) (g' : Inner p)
        → (perform rt seq c g).0 ≡ ok v
        → Runs (perform rt seq c g).1 between
        → Progress (following seq) (k v) between seq' w' g'
        → Progress seq (calls c k) g seq' w' g'
