-- ===== src/Memory/Steps.antt =====
-- src/memory.rs: the recorded operations of a workflow, keyed by its id and a sequence number.
pub mod Laws
pub mod Refines
use durust.Base.{
  ℤ, pos, String, Bool, true, false, Option, none, some, List, [], ◌∷◌, map, ◌==◌, string_eq,
  int_eq, pair_eq, leb_ℤ, filterb, option_map, unwrap_or, if◌then◌else◌,
}
use durust.Base.Sorting.{sort}
use durust.Platform.{Platform}
use durust.Store.{HashMap, get, contains_key, insert}
use durust.Provider.{StepOutcome, output, failure, RecordedStep, StepInfo}
use durust.Memory.{StepRow, Inner}

module _ {p : Platform} where
  unfoldable pub step_row_outcome : StepRow p → StepOutcome p
  step_row_outcome r = elim r.error [
    | some e ↦ failure e none
    | none ↦ output (unwrap_or r.output p.null)
  ]

  -- `StepRow::default` with a name
  abbrev pub named_row : String → StepRow p
  named_row name = record {
    name = name;
    output = none;
    error = none;
    child_workflow_id = none;
    started_at_ms = none;
    completed_at_ms = none;
  }

  -- `steps.entry(key).or_insert(row)`: the row there afterwards, and the table.
  unfoldable pub enter_step :
      String
      → ℤ
      → StepRow p
      → HashMap (String × ℤ) (StepRow p)
      → StepRow p × HashMap (String × ℤ) (StepRow p)
  enter_step workflow_id seq row steps = elim (get (workflow_id, seq) steps) [
    | some old ↦ (old, steps)
    | none ↦ (row, insert (workflow_id, seq) row steps)
  ]

  unfoldable pub get_step_result : String → ℤ → Inner p → Option (RecordedStep p)
  unfolding step_row_outcome
  get_step_result workflow_id seq g =
      option_map (λ (r : StepRow p). record { name = r.name; outcome = step_row_outcome r })
        (get (workflow_id, seq) g.steps)

  -- The row that a call records: an error with no output, or an output with no error.
  unfoldable pub step_row : String → p.Value → Option String → Option ℤ → p.DateTime → StepRow p
  step_row name value error started_at_ms now = record {
    name = name;
    output = elim error [ some e ↦ none | none ↦ some value ];
    error = error;
    child_workflow_id = none;
    started_at_ms = started_at_ms;
    completed_at_ms = some (p.timestamp_millis now);
  }

  unfoldable pub record_step_result :
      String
      → ℤ
      → String
      → p.Value
      → Option String
      → Option ℤ
      → p.DateTime
      → Inner p
      → StepOutcome p × Inner p
  unfolding step_row_outcome enter_step step_row
  record_step_result workflow_id seq name value error started_at_ms now g =
      let (row, steps) =
        enter_step workflow_id seq (step_row name value error started_at_ms now) g.steps in
      (step_row_outcome row, record g { steps = steps })

  unfoldable pub record_child_workflow : String → ℤ → String → String → Inner p → Inner p
  unfolding enter_step
  record_child_workflow parent_id seq name child_id g = record g {
    steps =
        (enter_step parent_id seq (record (named_row name) { child_workflow_id = some child_id })
          g.steps).1;
  }

  unfoldable pub check_child_workflow : String → ℤ → Inner p → Option (String × String)
  check_child_workflow parent_id seq g = elim (get (parent_id, seq) g.steps) [
    | none ↦ none
    | some r ↦ option_map (λ id. (id, r.name)) r.child_workflow_id
  ]

  abbrev pub step_info : (String × ℤ) × StepRow p → StepInfo p
  step_info (k, row) = record {
    step_id = k.1;
    name = row.name;
    output = row.output;
    error = row.error;
    child_workflow_id = row.child_workflow_id;
    started_at = elim row.started_at_ms [ none ↦ none | some t ↦ p.from_timestamp_millis t ];
    completed_at = elim row.completed_at_ms [ none ↦ none | some t ↦ p.from_timestamp_millis t ];
  }

  unfoldable pub get_workflow_steps : String → Inner p → List (StepInfo p)
  get_workflow_steps workflow_id g =
      sort (λ (a b : StepInfo p). leb_ℤ a.step_id b.step_id)
        (map step_info (filterb (λ (e : (String × ℤ) × StepRow p). e.0.0 == workflow_id) g.steps))

  unfoldable pub get_step_name : String → ℤ → Inner p → Option String
  get_step_name workflow_id seq g =
      option_map (λ (r : StepRow p). r.name) (get (workflow_id, seq) g.steps)

  unfoldable pub record_patch : String → ℤ → String → Inner p → Inner p
  unfolding enter_step
  record_patch workflow_id seq name g = record g {
    steps = (enter_step workflow_id seq (named_row name) g.steps).1;
  }
