-- ===== src/Context/Program/Performs.antt =====
-- src/context.rs: every call of the context keeps the promises of an operation.
use durust.Base.{ℤ, String, ◌≡◌, refl, sym, ap, ◌∙◌, string_eq, int_eq, pair_eq}
use mathlib.Core.Path.{subst}
use durust.Platform.{Platform}
use durust.Error.{Result, ok}
use durust.Memory.{Inner}
use durust.Memory.Invariant.{IsValid}
use durust.Memory.Calls.Checkpoints.{Runs}
use durust.Context.{StepEnv}
use durust.Context.Operation.{Operation, as_null}
use durust.Context.Messages.Effects.{
  send-done_once, set_event-done_once, stream_operation-done_once,
}
use durust.Context.Messages.Send.{send_operation, event_operation, stream_write}
use durust.Context.Program.{
  Call, to_step, to_step_with, to_draw, to_send, to_set_event, to_stream, perform,
}
use durust.Context.Program.Steps.{
  step_operation, step_with_operation, value_operation, step_operation_lem, step_with_operation_lem,
}

module _ {p : Platform} {id : String} where
  abbrev operation_of : Call p id → Operation p id
  operation_of (to_step name f c) = step_operation id name f c
  operation_of (to_step_with name max_retries retry_if f c) =
      step_with_operation id name max_retries retry_if f c
  operation_of (to_draw name produce) = value_operation id name produce
  operation_of (to_send dest message topic fresh now) =
      send_operation id dest message topic fresh now
  operation_of (to_set_event key value) = event_operation id key value
  operation_of (to_stream name key value) = stream_write id name key value

  perform_lem :
      (rt : StepEnv p) (seq : ℤ) (c : Call p id) (g : Inner p)
      → perform rt seq c g ≡ (operation_of c).run rt seq g
  unfolding perform
  perform_lem rt seq (to_step name f c) g = sym (step_operation_lem id name f c rt seq g)
  perform_lem rt seq (to_step_with name max_retries retry_if f c) g =
      sym (step_with_operation_lem id name max_retries retry_if f c rt seq g)
  perform_lem rt seq (to_draw name produce) g = refl
  perform_lem rt seq (to_send dest message topic fresh now) g =
      ap as_null (send-done_once rt id seq dest message topic fresh now g)
  perform_lem rt seq (to_set_event key value) g =
      ap as_null (set_event-done_once rt id seq key value g)
  perform_lem rt seq (to_stream name key value) g =
      ap as_null (stream_operation-done_once rt id seq name key value g)

  pub perform-Runs :
      (rt : StepEnv p) (seq : ℤ) (c : Call p id) (g : Inner p) → Runs g (perform rt seq c g).1
  perform-Runs rt seq c g =
      subst (λ (r : Result p p.Value × Inner p). Runs g r.1) (sym (perform_lem rt seq c g))
        ((operation_of c).writes rt seq g)

  -- A call that has returned a value returns it from then on and writes nothing.
  pub perform-replays :
      (rt rt' : StepEnv p) (seq : ℤ) (c : Call p id) (v : p.Value) (g h : Inner p)
      → IsValid g
      → (perform rt seq c g).0 ≡ ok v
      → Runs (perform rt seq c g).1 h
      → perform rt' seq c h ≡ (ok v, h)
  perform-replays rt rt' seq c v g h valid gives later =
      let same = perform_lem rt seq c g in
      perform_lem rt' seq c h
      ∙ (operation_of c).replays rt rt' seq v g h valid
          (sym (ap (λ (r : Result p p.Value × Inner p). r.0) same) ∙ gives)
          (subst (λ (r : Result p p.Value × Inner p). Runs r.1 h) same later)
