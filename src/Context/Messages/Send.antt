-- ===== src/Context/Messages/Send.antt =====
-- src/context.rs, `send`, `set_event` and the stream operations: operations that record that they
-- are done, as operations of a workflow.
use durust.Base.{
  ℤ, String, Option, none, ◌≡◌, refl, sym, ap, ◌∙◌, string_eq, int_eq, pair_eq, arith,
}
use mathlib.Core.Path.{subst}
use durust.Platform.{Platform}
use durust.Error.{Result, ok, err, panicked}
use durust.Memory.{Inner}
use durust.Memory.Invariant.{IsValid}
use durust.Memory.Mailbox.{insert_notification}
use durust.Memory.Events.{upsert_event}
use durust.Memory.Streams.{write_stream}
use durust.Memory.Calls.{on_send, on_event, on_stream}
use durust.Memory.Calls.StepsKept.{insert_notification-steps, write_stream-steps}
use durust.Memory.Calls.Checkpoints.{Runs, no_call, then_write}
use durust.Context.{StepEnv}
use durust.Context.Operation.{Operation, as_null}
use durust.Context.Messages.{send}
use durust.Context.Messages.Effects.{closed, IsEffect, done_once, done_once-Runs, done_once-replays}

module _ {p : Platform} where
  pub send-IsEffect :
      (dest topic fresh : String) (m : p.Value) (now : p.DateTime)
      → IsEffect {p = p} (insert_notification dest topic m none fresh now)
  send-IsEffect dest topic fresh m now = record {
    by_call = λ g. then_write g _ no_call (on_send dest topic m none fresh now);
    same_steps = λ g. insert_notification-steps dest topic m none fresh now g;
  }

  pub event-IsEffect :
      (id key : String) (value : p.Value)
      → IsEffect {p = p} (λ (g : Inner p). (ok tt, upsert_event id key value g))
  unfolding upsert_event
  event-IsEffect id key value = record {
    by_call = λ g. then_write g _ no_call (on_event id key value);
    same_steps = λ g. refl;
  }

  pub stream-IsEffect :
      (id key : String) (value : Option p.Value) → IsEffect {p = p} (write_stream id key value)
  stream-IsEffect id key value = record {
    by_call = λ g. then_write g _ no_call (on_stream id key value);
    same_steps = λ g. write_stream-steps id key value g;
  }

  -- In valid tables: a message that a workflow has sent, it sends once. Run again after any sequence
  -- of calls but deletions and forks, whatever the message and its destination are then, the send
  -- succeeds and changes nothing.
  pub send-replays :
      (rt rt' : StepEnv p) (id : String) (seq : ℤ) (dest dest' : String) (m m' : p.Value)
      (topic topic' fresh fresh' : String) (now now' : p.DateTime) (g h : Inner p)
      → IsValid g
      → (send rt id seq dest m topic fresh now g).0 ≡ ok tt
      → Runs (send rt id seq dest m topic fresh now g).1 h
      → send rt' id seq dest' m' topic' fresh' now' h ≡ (ok tt, h)
  unfolding send closed
  send-replays rt rt' id seq dest dest' m m' topic topic' fresh fresh' now now' g h valid done
        later =
      done_once-replays id "DBOS.send" (insert_notification dest topic m none fresh now)
        (send-IsEffect dest topic fresh m now) rt rt'
        (insert_notification dest' topic' m' none fresh' now') seq g h valid done later

  as_null-ok :
      (r : Result p (Unit {0})) (g : Inner p) (v : p.Value)
      → (as_null (r, g)).0 ≡ ok v
      → (r ≡ ok tt) × (v ≡ p.null)
  as_null-ok (ok u) g v h = (refl, ground arith)
  as_null-ok (err e) g v h = absurd (ground arith)
  as_null-ok panicked g v h = absurd (ground arith)

  as_null-state : (r : Result p (Unit {0})) (g : Inner p) → (as_null (r, g)).1 ≡ g
  as_null-state (ok u) g = refl
  as_null-state (err e) g = refl
  as_null-state panicked g = refl

  pub null-Runs :
      (r : Result p (Unit {0}) × Inner p) (g : Inner p) → Runs g r.1 → Runs g (as_null r).1
  null-Runs r g run = subst (Runs g) (sym (as_null-state r.0 r.1)) run

  pub null-replays :
      (id name : String) (effect : Inner p → Result p (Unit {0}) × Inner p)
      (is_effect : IsEffect {p = p} effect) (rt rt' : StepEnv p) (seq : ℤ) (v : p.Value)
      (g h : Inner p)
      → IsValid g
      → (as_null (done_once rt id seq name effect g)).0 ≡ ok v
      → Runs (as_null (done_once rt id seq name effect g)).1 h
      → as_null (done_once rt' id seq name effect h) ≡ (ok v, h)
  null-replays id name effect is_effect rt rt' seq v g h valid gives later =
      let r = done_once rt id seq name effect g in
      let (done, is_null) = as_null-ok r.0 r.1 v gives in
      ap as_null (
        done_once-replays id name effect is_effect rt rt' effect seq g h valid done
          (subst (λ (x : Inner p). Runs x h) (as_null-state r.0 r.1) later))
      ∙ ap (λ (x : p.Value). (ok x, h)) (sym is_null)

  -- An operation that records that it is done, with null for its value.
  abbrev pub effect_operation :
      (id name : String) (effect : Inner p → Result p (Unit {0}) × Inner p)
      → IsEffect {p = p} effect
      → Operation p id
  effect_operation id name effect is_effect = record {
    run = λ rt seq g. as_null (done_once rt id seq name effect g);
    writes = λ rt seq g.
        null-Runs (done_once rt id seq name effect g) g
          (done_once-Runs id name effect is_effect rt seq g);
    replays = λ rt rt' seq v g h valid gives later.
        null-replays id name effect is_effect rt rt' seq v g h valid gives later;
  }

  abbrev pub send_operation :
      (id dest : String) (m : p.Value) (topic fresh : String) (now : p.DateTime) → Operation p id
  send_operation id dest m topic fresh now =
      effect_operation id "DBOS.send" (insert_notification dest topic m none fresh now)
        (send-IsEffect dest topic fresh m now)

  abbrev pub event_operation : (id key : String) (value : p.Value) → Operation p id
  event_operation id key value =
      effect_operation id "DBOS.setEvent" (λ g. (ok tt, upsert_event id key value g))
        (event-IsEffect id key value)

  -- `name` is that of a write or of a close.
  abbrev pub stream_write : (id name key : String) (value : Option p.Value) → Operation p id
  stream_write id name key value =
      effect_operation id name (write_stream id key value) (stream-IsEffect id key value)
