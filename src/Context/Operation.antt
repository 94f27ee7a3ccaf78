-- ===== src/Context/Operation.antt =====
-- src/context.rs: what a durable operation promises a workflow, whichever it is, and what a step's
-- closure is.
use durust.Base.{ℤ, String, none, ◌≡◌, string_eq, int_eq, pair_eq}
use durust.Platform.{Platform}
use durust.Error.{Result, ok, err, panicked}
use durust.Memory.{Inner}
use durust.Memory.Invariant.{IsValid}
use durust.Memory.Steps.{get_step_result}
use durust.Memory.Calls.Checkpoints.{Runs}
use durust.Context.{Body, StepEnv}

-- An operation of the workflow with this id, at the number it is run with: it writes by calls of
-- the provider, and once it has returned a value it returns that value from then on and writes
-- nothing.
pub record Operation (p : Platform) (id : String) : Type 0 where
  pub run : StepEnv p → ℤ → Inner p → Result p p.Value × Inner p
  pub writes : (rt : StepEnv p) (seq : ℤ) (g : Inner p) → Runs g (run rt seq g).1
  pub replays :
      (rt rt' : StepEnv p) (seq : ℤ) (v : p.Value) (g h : Inner p)
      → IsValid g
      → (run rt seq g).0 ≡ ok v
      → Runs (run rt seq g).1 h
      → run rt' seq h ≡ (ok v, h)

module _ {p : Platform} where
  -- A closure that writes by calls of the provider and records no step of its own workflow.
  pub record IsClosure (id : String) (f : Body p) : Type 0 where
    pub by_calls : (g : Inner p) → Runs g (f g).1
    pub no_steps :
        (seq : ℤ) (g : Inner p)
        → get_step_result id seq g ≡ none
        → get_step_result id seq (f g).1 ≡ none

  -- The result of an operation without a value: null.
  abbrev pub as_null : Result p (Unit {0}) × Inner p → Result p p.Value × Inner p
  as_null (ok u, g) = (ok p.null, g)
  as_null (err e, g) = (err e, g)
  as_null (panicked, g) = (panicked, g)
