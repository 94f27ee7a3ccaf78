-- ===== src/Context/Once.antt =====
-- src/context.rs: recorded values and stream operations, run again.
use durust.Base.{
  ℤ, String, true, false, Option, none, some, ◌≡◌, ◌≢◌, sym, ap, ◌∙◌, ◌==◌, string_eq, int_eq,
  pair_eq, ==_refl, arith, inl, inr, Bool-cases, Option-cases,
}
use durust.Platform.{Platform}
use durust.Error.{Error, unexpected, Result, ok, err}
use durust.Provider.{StepOutcome, output, RecordedStep}
use durust.Memory.{Inner}
use durust.Memory.Invariant.{IsValid}
use durust.Memory.Steps.{get_step_result, record_step_result}
use durust.Memory.Streams.{write_stream}
use durust.Memory.Calls.StepsKept.{write_stream-steps}
use durust.Memory.Calls.Checkpoints.{Runs, get_step_result-stable}
use durust.Context.{
  StepEnv, outcome_value, replay_or_guard, durable_value, replayed_or, record_done,
  stream_operation,
}
use durust.Context.Guard.{record_step_result-first, guard_recalls, recalled}

module _ {p : Platform} where
  value_again :
      (rt : StepEnv p) (id : String) (seq : ℤ) (name : String) (v : p.Value)
      (outcome : StepOutcome p) (g : Inner p)
      → get_step_result id seq g ≡ some (record { name = name; outcome = outcome })
      → durable_value rt id seq name v g ≡ (outcome_value outcome, g)
  unfolding durable_value
  value_again rt id seq name v outcome g h = rw (h, durable_value, ==_refl name)

  value_refused :
      (rt : StepEnv p) (id : String) (seq : ℤ) (name : String) (v : p.Value)
      (recorded : RecordedStep p) (g : Inner p)
      → get_step_result id seq g ≡ some recorded
      → (recorded.name == name) ≡ false
      → durable_value rt id seq name v g ≡ (err (unexpected id seq name recorded.name), g)
  unfolding durable_value
  value_refused rt id seq name v recorded g h other = rw (h, durable_value, other)

  value_first :
      (rt : StepEnv p) (id : String) (seq : ℤ) (name : String) (v : p.Value) (g : Inner p)
      → get_step_result id seq g ≡ none
      → durable_value rt id seq name v g ≡ (
        outcome_value (record_step_result id seq name v none none rt.now g).0,
        (record_step_result id seq name v none none rt.now g).1,
      )
  unfolding durable_value
  value_first rt id seq name v g h = rw (h, durable_value)

  renamed :
      (name : String) (recorded : RecordedStep p)
      → (recorded.name == name) ≡ true
      → recorded ≡ record { name = name; outcome = recorded.outcome }
  renamed name recorded same =
      ap (λ (n : String). record { name = n; outcome = recorded.outcome })
        ((string_eq.eqb_iff recorded.name name).0 same)

  -- After a recorded value (a clock reading, a uuid or a random number) is returned, the same
  -- operation returns that value again after any sequence of calls but deletions and forks,
  -- whatever is produced then, and changes nothing.
  pub durable_value-replays :
      (rt rt' : StepEnv p) (id : String) (seq : ℤ) (name : String) (v v' x : p.Value)
      (g g' : Inner p)
      → (durable_value rt id seq name v g).0 ≡ ok x
      → IsValid (durable_value rt id seq name v g).1
      → Runs (durable_value rt id seq name v g).1 g'
      → durable_value rt' id seq name v' g' ≡ (ok x, g')
  durable_value-replays rt rt' id seq name v v' x g g' gives valid run =
      elim (Option-cases (get_step_result id seq g)) [
        | inl fresh ↦
            let first = value_first rt id seq name v g fresh in
            let (value, reads) = record_step_result-first id seq name v none none rt.now g fresh in
            again (output v)
              (ap (λ (r : Result p p.Value × Inner p). get_step_result id seq r.1) first ∙ reads)
              (ap outcome_value (sym value)
                ∙ sym (ap (λ (r : Result p p.Value × Inner p). r.0) first)
                ∙ gives)
        | inr (recorded, there) ↦ elim (Bool-cases (recorded.name == name)) [
          | inr other ↦ absurd (
              not_ok (unexpected id seq name recorded.name) x (
                sym (
                  ap (λ (r : Result p p.Value × Inner p). r.0)
                    (value_refused rt id seq name v recorded g there other))
                ∙ gives))
          | inl same ↦
              let here : get_step_result id seq g
                  ≡ some (record { name = name; outcome = recorded.outcome }) =
                there ∙ ap (λ (r : RecordedStep p). some r) (renamed name recorded same) in
              let first = value_again rt id seq name v recorded.outcome g here in
              again recorded.outcome
                (ap (λ (r : Result p p.Value × Inner p). get_step_result id seq r.1) first ∙ here)
                (sym (ap (λ (r : Result p p.Value × Inner p). r.0) first) ∙ gives)
        ]
      ]
    where
      again :
          (outcome : StepOutcome p)
          → get_step_result id seq (durable_value rt id seq name v g).1
            ≡ some (record { name = name; outcome = outcome })
          → outcome_value outcome ≡ ok x
          → durable_value rt' id seq name v' g' ≡ (ok x, g')
      again outcome reads is_x =
          value_again rt' id seq name v' outcome g' (
            get_step_result-stable id seq (durable_value rt id seq name v g).1 g'
              (record { name = name; outcome = outcome }) valid run reads)
          ∙ ap (λ (r : Result p p.Value). (r, g')) is_x

      not_ok : (e : Error p) (y : p.Value) → (err e ≢ ok y)
      not_ok e y h = ground arith

  unread :
      (id : String) (seq : ℤ) (g g' : Inner p)
      → g'.steps ≡ g.steps
      → get_step_result id seq g ≡ none
      → get_step_result id seq g' ≡ none
  unfolding get_step_result
  unread id seq g g' same h = rw same h

  sent_before :
      (rt : StepEnv p) (id : String) (seq : ℤ) (name key : String) (value : Option p.Value)
      (v : p.Value) (g : Inner p)
      → replay_or_guard id seq name g ≡ ok (some v)
      → stream_operation rt id seq name key value g ≡ (ok tt, g)
  unfolding stream_operation replayed_or
  sent_before rt id seq name key value v g h = rw (h, stream_operation)

  sent_first :
      (rt : StepEnv p) (id : String) (seq : ℤ) (name key : String) (value : Option p.Value)
      (g : Inner p)
      → replay_or_guard id seq name g ≡ ok none
      → (write_stream id key value g).0 ≡ ok tt
      → stream_operation rt id seq name key value g ≡ (
        ok tt,
        (record_step_result id seq name p.null none none rt.now (write_stream id key value g).1).1,
      )
  unfolding stream_operation replayed_or record_done
  sent_first rt id seq name key value g h w = rw (h, stream_operation, w)

  -- A write to a stream, or its close, that is not recorded yet, passes the guard and is accepted:
  -- it succeeds, and the same operation run again after any sequence of calls but deletions and
  -- forks, with any value, succeeds and writes nothing.
  pub stream_operation-replays :
      (rt rt' : StepEnv p) (id : String) (seq : ℤ) (name key : String)
      (value value' : Option p.Value) (g g' : Inner p)
      → get_step_result id seq g ≡ none
      → replay_or_guard id seq name g ≡ ok none
      → (write_stream id key value g).0 ≡ ok tt
      → IsValid (stream_operation rt id seq name key value g).1
      → Runs (stream_operation rt id seq name key value g).1 g'
      → ((stream_operation rt id seq name key value g).0 ≡ ok tt)
        × (stream_operation rt' id seq name key value' g' ≡ (ok tt, g'))
  unfolding recalled outcome_value
  stream_operation-replays rt rt' id seq name key value value' g g' fresh passes accepted valid
        run =
      let first = sent_first rt id seq name key value g passes accepted in
      let after = (write_stream id key value g).1 in
      let (done, reads) =
        record_step_result-first id seq name p.null none none rt.now after
          (unread id seq g after (write_stream-steps id key value g) fresh) in
      (
        ap (λ (r : Result p (Unit {0}) × Inner p). r.0) first,
        sent_before rt' id seq name key value' p.null g' (
            guard_recalls id seq name (output p.null) g' (
              get_step_result-stable id seq (stream_operation rt id seq name key value g).1 g'
                (record { name = name; outcome = output p.null }) valid run
                (ap (λ (r : Result p (Unit {0}) × Inner p). get_step_result id seq r.1) first
                  ∙ reads))),
      )
