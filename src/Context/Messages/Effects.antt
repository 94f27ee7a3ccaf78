-- ===== src/Context/Messages/Effects.antt =====
-- src/context.rs: what `send`, `set_event` and the stream operations share, an effect that is
-- recorded as done.
use durust.Base.{
  ℤ, String, Option, none, ◌≡◌, refl, sym, ap, ◌∙◌, string_eq, int_eq, pair_eq, arith, inl, inr,
}
use durust.Platform.{Platform}
use durust.Error.{Error, Result, ok, err, panicked}
use durust.Provider.{output}
use durust.Memory.{Inner}
use durust.Memory.Invariant.{IsValid}
use durust.Memory.Steps.{get_step_result}
use durust.Memory.Mailbox.{insert_notification}
use durust.Memory.Events.{upsert_event}
use durust.Memory.Streams.{write_stream}
use durust.Memory.Calls.{on_record}
use durust.Memory.Calls.Checkpoints.{Runs, then_write, Runs-IsValid, get_step_result-stable}
use durust.Context.{
  StepEnv, outcome_value, replay_or_guard, replayed_or, record_done, set_event, stream_operation,
}
use durust.Context.Guard.{record_step_result-first, guard_recalls, recalled}
use durust.Context.Program.Guarded.{HasValue, guard-cases, replayed_or-Runs}
use durust.Context.Messages.{send}

module _ {p : Platform} where
  -- After the effect: the step is recorded, if the effect was accepted.
  unfoldable pub closed :
      StepEnv p
      → String
      → ℤ
      → String
      → Result p (Unit {0}) × Inner p
      → Result p (Unit {0}) × Inner p
  closed rt id seq name (r, g) = elim r [
    | ok u ↦ record_done rt id seq name g
    | err e ↦ (err e, g)
    | panicked ↦ (panicked, g)
  ]

  -- What `send`, `set_event` and the stream operations share.
  abbrev pub done_once :
      StepEnv p
      → String
      → ℤ
      → String
      → (Inner p → Result p (Unit {0}) × Inner p)
      → Inner p
      → Result p (Unit {0}) × Inner p
  done_once rt id seq name effect g =
      replayed_or (λ v. tt) (replay_or_guard id seq name g) g (closed rt id seq name (effect g))

  pub send-done_once :
      (rt : StepEnv p) (id : String) (seq : ℤ) (dest : String) (m : p.Value) (topic fresh : String)
      (now : p.DateTime) (g : Inner p)
      → send rt id seq dest m topic fresh now g
        ≡ done_once rt id seq "DBOS.send" (insert_notification dest topic m none fresh now) g
  unfolding send closed
  send-done_once rt id seq dest m topic fresh now g = refl

  pub set_event-done_once :
      (rt : StepEnv p) (id : String) (seq : ℤ) (key : String) (value : p.Value) (g : Inner p)
      → set_event rt id seq key value g
        ≡ done_once rt id seq "DBOS.setEvent" (λ h. (ok tt, upsert_event id key value h)) g
  unfolding set_event closed
  set_event-done_once rt id seq key value g = refl

  pub stream_operation-done_once :
      (rt : StepEnv p) (id : String) (seq : ℤ) (name key : String) (value : Option p.Value)
      (g : Inner p)
      → stream_operation rt id seq name key value g
        ≡ done_once rt id seq name (write_stream id key value) g
  unfolding stream_operation closed
  stream_operation-done_once rt id seq name key value g = refl

  -- An effect that is one call of the provider and records no step.
  pub record IsEffect (effect : Inner p → Result p (Unit {0}) × Inner p) : Type 0 where
    pub by_call : (g : Inner p) → Runs g (effect g).1
    pub same_steps : (g : Inner p) → (effect g).1.steps ≡ g.steps

  closed-Runs :
      (rt : StepEnv p) (id : String) (seq : ℤ) (name : String) (r : Result p (Unit {0}))
      (g g' : Inner p)
      → Runs g g'
      → Runs g (closed rt id seq name (r, g')).1
  unfolding closed record_done
  closed-Runs rt id seq name (ok u) g g' run =
      then_write g' _ run (on_record id seq name p.null none none rt.now)
  closed-Runs rt id seq name (err e) g g' run = run
  closed-Runs rt id seq name panicked g g' run = run

  closed-HasValue :
      (rt : StepEnv p) (id : String) (seq : ℤ) (name : String) (r : Result p (Unit {0}))
      (g : Inner p)
      → get_step_result id seq g ≡ none
      → (closed rt id seq name (r, g)).0 ≡ ok tt
      → HasValue id seq name p.null (closed rt id seq name (r, g)).1
  unfolding closed record_done
  closed-HasValue rt id seq name (ok u) g fresh done =
      (record_step_result-first id seq name p.null none none rt.now g fresh).1
  closed-HasValue rt id seq name (err e) g fresh done = absurd (ground arith)
  closed-HasValue rt id seq name panicked g fresh done = absurd (ground arith)

  unread :
      (id : String) (seq : ℤ) (g g' : Inner p)
      → g'.steps ≡ g.steps
      → get_step_result id seq g ≡ none
      → get_step_result id seq g' ≡ none
  unfolding get_step_result
  unread id seq g g' same h = rw same h

  done_known :
      (rt : StepEnv p) (id : String) (seq : ℤ) (name : String) (v : p.Value)
      (effect : Inner p → Result p (Unit {0}) × Inner p) (g : Inner p)
      → HasValue id seq name v g
      → done_once rt id seq name effect g ≡ (ok tt, g)
  unfolding replayed_or recalled outcome_value
  done_known rt id seq name v effect g h =
      rw (guard_recalls id seq name (output v) g h, replayed_or)

  done_fails :
      (rt : StepEnv p) (id : String) (seq : ℤ) (name : String) (e : Error p)
      (effect : Inner p → Result p (Unit {0}) × Inner p) (g : Inner p)
      → replay_or_guard id seq name g ≡ err e
      → done_once rt id seq name effect g ≡ (err e, g)
  unfolding replayed_or
  done_fails rt id seq name e effect g h = rw (h, replayed_or)

  done_fresh :
      (rt : StepEnv p) (id : String) (seq : ℤ) (name : String)
      (effect : Inner p → Result p (Unit {0}) × Inner p) (g : Inner p)
      → replay_or_guard id seq name g ≡ ok none
      → done_once rt id seq name effect g ≡ closed rt id seq name (effect g)
  unfolding replayed_or
  done_fresh rt id seq name effect g h = rw (h, replayed_or)

  not_ok : (e : Error p) → ◌≡◌ {A = Result p (Unit {0})} (err e) (ok tt) → ⊥
  not_ok e h = ground arith

  module _ (id : String) (name : String) (effect : Inner p → Result p (Unit {0}) × Inner p)
      (is_effect : IsEffect effect) where
    pub done_once-Runs :
        (rt : StepEnv p) (seq : ℤ) (g : Inner p) → Runs g (done_once rt id seq name effect g).1
    done_once-Runs rt seq g =
        replayed_or-Runs (λ v. tt) (replay_or_guard id seq name g) g
          (closed rt id seq name (effect g))
          (closed-Runs rt id seq name (effect g).0 g (effect g).1 (is_effect.by_call g))

    -- Some value stands recorded once it is done.
    done_once-recorded :
        (rt : StepEnv p) (seq : ℤ) (g : Inner p)
        → (done_once rt id seq name effect g).0 ≡ ok tt
        → (v : p.Value) × HasValue id seq name v (done_once rt id seq name effect g).1
    done_once-recorded rt seq g done = elim (guard-cases id seq name g) [
      | inl (v, there) ↦ (v, after (done_known rt id seq name v effect g there) ∙ there)
      | inr (inl (e, fails)) ↦
          absurd (not_ok e (sym (result (done_fails rt id seq name e effect g fails)) ∙ done))
      | inr (inr (fresh, passes)) ↦
          let e = done_fresh rt id seq name effect g passes in
          (
            p.null,
            after e
                ∙ closed-HasValue rt id seq name (effect g).0 (effect g).1
                    (unread id seq g (effect g).1 (is_effect.same_steps g) fresh)
                    (sym (result e) ∙ done),
          )
    ]
      where
        result : {x y : Result p (Unit {0}) × Inner p} → x ≡ y → x.0 ≡ y.0
        result e = ap (λ (r : Result p (Unit {0}) × Inner p). r.0) e

        after :
            {x y : Result p (Unit {0}) × Inner p}
            → x ≡ y
            → get_step_result id seq x.1 ≡ get_step_result id seq y.1
        after e = ap (λ (r : Result p (Unit {0}) × Inner p). get_step_result id seq r.1) e

    pub done_once-replays :
        (rt rt' : StepEnv p) (effect' : Inner p → Result p (Unit {0}) × Inner p) (seq : ℤ)
        (g h : Inner p)
        → IsValid g
        → (done_once rt id seq name effect g).0 ≡ ok tt
        → Runs (done_once rt id seq name effect g).1 h
        → done_once rt' id seq name effect' h ≡ (ok tt, h)
    done_once-replays rt rt' effect' seq g h valid done later =
        let (v, has) = done_once-recorded rt seq g done in
        done_known rt' id seq name v effect' h (
          get_step_result-stable id seq (done_once rt id seq name effect g).1 h
            (record { name = name; outcome = output v })
            (Runs-IsValid g _ valid (done_once-Runs rt seq g)) later has)
