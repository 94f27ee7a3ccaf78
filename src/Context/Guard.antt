-- ===== src/Context/Guard.antt =====
-- src/context.rs: one run of a step, by what its guard finds.
use durust.Base.{
  ℤ, String, false, Option, none, some, ◌≡◌, ◌≢◌, refl, ap, ◌∙◌, ◌==◌, string_eq, int_eq, pair_eq,
  ==_refl, arith, inl, inr, Bool-cases, Option-cases,
}
use durust.Platform.{Platform}
use durust.Error.{Error, cancelled, unexpected, Result, ok, err, panicked}
use durust.Store.{HashMap, get}
use durust.Provider.{WorkflowStatus, StepOutcome, output, failure, RecordedStep, status_cancelled}
use durust.Memory.{Inner, StepRow}
use durust.Memory.Lifecycle.{get_workflow_status}
use durust.Memory.Steps.{get_step_result, record_step_result, step_row, step_row_outcome}
use durust.Memory.Steps.Laws.{entered_new, get_step_result-record}
use durust.Context.{
  Body, StepEnv, outcome_value, replay_or_guard, checkpoint, record_failure, run_step_catching,
  finish_step, step,
}

pub differs : (a b : String) → a ≢ b → (a == b) ≡ false
differs a b other = elim (Bool-cases (a == b)) [
  | inl same ↦ absurd (other ((string_eq.eqb_iff a b).0 same))
  | inr h ↦ h
]

module _ {p : Platform} where
  pub unrecorded :
      (id : String) (seq : ℤ) (g : Inner p)
      → get_step_result id seq g ≡ none
      → get (id, seq) g.steps ≡ none
  unfolding get_step_result
  unrecorded id seq g h = elim (Option-cases (get (id, seq) g.steps)) [
    | inl absent ↦ absent
    | inr (r, found) ↦ absurd (ground (arith, h, found))
  ]

  row_of :
      (name : String) (value : p.Value) (error : Option String) (started : Option ℤ)
      (now : p.DateTime)
      → step_row_outcome (step_row {p = p} name value error started now)
        ≡ (elim error [ none ↦ output value | some e ↦ failure e none ])
  unfolding step_row step_row_outcome
  row_of name value none started now = refl
  row_of name value (some e) started now = refl

  -- The first recording of a step returns its outcome and makes it readable.
  pub record_step_result-first :
      (id : String) (seq : ℤ) (name : String) (value : p.Value) (error : Option String)
      (started : Option ℤ) (now : p.DateTime) (g : Inner p)
      → get_step_result id seq g ≡ none
      → ((record_step_result id seq name value error started now g).0
          ≡ (elim error [ none ↦ output value | some e ↦ failure e none ]))
        × (get_step_result id seq (record_step_result id seq name value error started now g).1
            ≡ some (record {
              name = name;
              outcome = elim error [ none ↦ output value | some e ↦ failure e none ];
            }))
  unfolding record_step_result
  record_step_result-first id seq name value error started now g fresh =
      let (named, reads, is_name) = get_step_result-record id seq name value error started now g in
      let first : (record_step_result id seq name value error started now g).0
          ≡ (elim error [ none ↦ output value | some e ↦ failure e none ]) =
        ap (λ (t : StepRow p × HashMap (String × ℤ) (StepRow p)). step_row_outcome t.0)
          (entered_new id seq (step_row name value error started now) g.steps
            (unrecorded id seq g fresh))
        ∙ row_of name value error started now in
      (
        first,
        reads
            ∙ ap
                (λ (n : String). some (record {
                  name = n;
                  outcome = (record_step_result id seq name value error started now g).0;
                }))
                (is_name fresh)
            ∙ ap (λ (o : StepOutcome p). some (record { name = name; outcome = o })) first,
      )

  -- What the guard makes of an outcome that is recorded under the name.
  unfoldable pub recalled : StepOutcome p → Result p (Option p.Value)
  recalled outcome = elim (outcome_value outcome) [
    | ok v ↦ ok (some v)
    | err e ↦ err e
    | panicked ↦ panicked
  ]

  pub guard_recalls :
      (id : String) (seq : ℤ) (name : String) (outcome : StepOutcome p) (g : Inner p)
      → get_step_result id seq g ≡ some (record { name = name; outcome = outcome })
      → replay_or_guard id seq name g ≡ recalled outcome
  unfolding replay_or_guard outcome_value recalled
  guard_recalls id seq name (output v) g h = rw (h, replay_or_guard, ==_refl name)
  guard_recalls id seq name (failure m none) g h = rw (h, replay_or_guard, ==_refl name)
  guard_recalls id seq name (failure m (some pe)) g h = rw (h, replay_or_guard, ==_refl name)

  pub guard_refuses :
      (id : String) (seq : ℤ) (name : String) (recorded : RecordedStep p) (g : Inner p)
      → get_step_result id seq g ≡ some recorded
      → (recorded.name == name) ≡ false
      → replay_or_guard id seq name g ≡ err (unexpected id seq name recorded.name)
  unfolding replay_or_guard
  guard_refuses id seq name recorded g h other = rw (h, replay_or_guard, other)

  -- A step that is recorded under its name is replayed.
  pub replayed :
      (rt : StepEnv p) (id : String) (seq : ℤ) (name : String) (f : Body p)
      (outcome : StepOutcome p) (g : Inner p)
      → get_step_result id seq g ≡ some (record { name = name; outcome = outcome })
      → step rt id seq name f g ≡ (outcome_value outcome, g)
  unfolding step outcome_value recalled
  replayed rt id seq name f (output v) g h = rw (guard_recalls id seq name (output v) g h, step)
  replayed rt id seq name f (failure m none) g h =
      rw (guard_recalls id seq name (failure m none) g h, step)
  replayed rt id seq name f (failure m (some pe)) g h =
      rw (guard_recalls id seq name (failure m (some pe)) g h, step)

  -- A step that is recorded under another name is refused.
  pub refused :
      (rt : StepEnv p) (id : String) (seq : ℤ) (name : String) (f : Body p)
      (recorded : RecordedStep p) (g : Inner p)
      → get_step_result id seq g ≡ some recorded
      → (recorded.name == name) ≡ false
      → step rt id seq name f g ≡ (err (unexpected id seq name recorded.name), g)
  unfolding step
  refused rt id seq name f recorded g h other =
      rw (guard_refuses id seq name recorded g h other, step)

  pub ran_ok :
      (rt : StepEnv p) (id : String) (seq : ℤ) (name : String) (f : Body p) (v : p.Value)
      (g : Inner p)
      → replay_or_guard id seq name g ≡ ok none
      → (f g).0 ≡ ok v
      → step rt id seq name f g ≡ checkpoint rt id seq name v (some rt.started_at_ms) (f g).1
  unfolding step finish_step run_step_catching
  ran_ok rt id seq name f v g fresh h = rw (fresh, step, h)

  pub ran_err :
      (rt : StepEnv p) (id : String) (seq : ℤ) (name : String) (f : Body p) (e : Error p)
      (g : Inner p)
      → replay_or_guard id seq name g ≡ ok none
      → (f g).0 ≡ err e
      → step rt id seq name f g ≡ record_failure rt id seq name e (some rt.started_at_ms) (f g).1
  unfolding step finish_step run_step_catching
  ran_err rt id seq name f e g fresh h = rw (fresh, step, h)

  pub guard_fresh :
      (id : String) (seq : ℤ) (name : String) (g : Inner p)
      → get_step_result id seq g ≡ none
      → ((w : WorkflowStatus p)
          → get_workflow_status id g ≡ some w
          → (w.status == status_cancelled) ≡ false)
      → replay_or_guard id seq name g ≡ ok none
  unfolding replay_or_guard
  guard_fresh id seq name g fresh live = elim (Option-cases (get_workflow_status id g)) [
    | inl absent ↦ rw (fresh, replay_or_guard, absent)
    | inr (w, there) ↦ rw (fresh, replay_or_guard, there, live w there)
  ]

  pub guard_stops :
      (id : String) (seq : ℤ) (name : String) (w : WorkflowStatus p) (g : Inner p)
      → get_step_result id seq g ≡ none
      → get_workflow_status id g ≡ some w
      → w.status ≡ status_cancelled
      → replay_or_guard id seq name g ≡ err (cancelled id)
  unfolding replay_or_guard
  guard_stops id seq name w g fresh there is_cancelled =
      rw (fresh, replay_or_guard, there, is_cancelled)

  pub stopped :
      (rt : StepEnv p) (id : String) (seq : ℤ) (name : String) (f : Body p) (g : Inner p)
      → replay_or_guard id seq name g ≡ err (cancelled id)
      → step rt id seq name f g ≡ (err (cancelled id), g)
  unfolding step
  stopped rt id seq name f g h = rw (h, step)
