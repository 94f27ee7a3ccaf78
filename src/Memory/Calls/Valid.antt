-- ===== src/Memory/Calls/Valid.antt =====
-- src/memory.rs: validity after the calls that write other tables than the workflows.
use durust.Base.{
  ℤ, String, ◌&&◌, Option, some, List, [], ◌∷◌, ◌≡◌, refl, ◌==◌, string_eq, int_eq, pair_eq, inl,
  inr, Bool-cases, Option-cases, anyb, is_none, is_some,
}
use durust.Platform.{Platform}
use durust.Store.{HashMap, get, contains_key, insert, Distinct}
use durust.Schedule.{WorkflowSchedule}
use durust.Memory.{Inner, StepRow}
use durust.Memory.Invariant.{IsValid}
use durust.Memory.Steps.{
  enter_step, step_row, record_step_result, record_child_workflow, record_patch, named_row,
}
use durust.Memory.Steps.Laws.{enter_step-Distinct}
use durust.Memory.Mailbox.{message_uuid, insert_notification, consume_notification, oldest}
use durust.Memory.Streams.{write_stream, stream_entries}
use durust.Memory.Schedules.{create_schedule, apply_schedules}
use durust.Memory.Versions.{create_application_version}

module _ {p : Platform} where
  -- Validity speaks of two tables only.
  pub same_tables :
      (g g' : Inner p) → g'.workflows ≡ g.workflows → g'.steps ≡ g.steps → IsValid g → IsValid g'
  same_tables g g' w s valid = record {
    keyed = rw w valid.keyed;
    rows_distinct = rw w valid.rows_distinct;
    slots_unique = rw w valid.slots_unique;
    steps_distinct = rw s valid.steps_distinct;
  }

  steps_changed :
      (g : Inner p) (steps : HashMap (String × ℤ) (StepRow p))
      → Distinct steps
      → IsValid g
      → IsValid (record g { steps = steps })
  steps_changed g steps d valid = record {
    keyed = valid.keyed;
    rows_distinct = valid.rows_distinct;
    slots_unique = valid.slots_unique;
    steps_distinct = d;
  }

  pub record_step_result-IsValid :
      (id : String) (seq : ℤ) (name : String) (value : p.Value) (error : Option String)
      (started : Option ℤ) (now : p.DateTime) (g : Inner p)
      → IsValid g
      → IsValid (record_step_result id seq name value error started now g).1
  unfolding record_step_result
  record_step_result-IsValid id seq name value error started now g valid =
      steps_changed g (enter_step id seq (step_row name value error started now) g.steps).1
        (enter_step-Distinct id seq (step_row name value error started now) g.steps
          valid.steps_distinct)
        valid

  pub record_child_workflow-IsValid :
      (id : String) (seq : ℤ) (name child : String) (g : Inner p)
      → IsValid g
      → IsValid (record_child_workflow id seq name child g)
  unfolding record_child_workflow
  record_child_workflow-IsValid id seq name child g valid =
      let row : StepRow p = record (named_row name) { child_workflow_id = some child } in
      steps_changed g (enter_step id seq row g.steps).1
        (enter_step-Distinct id seq row g.steps valid.steps_distinct) valid

  pub record_patch-IsValid :
      (id : String) (seq : ℤ) (name : String) (g : Inner p)
      → IsValid g
      → IsValid (record_patch id seq name g)
  unfolding record_patch
  record_patch-IsValid id seq name g valid =
      steps_changed g (enter_step id seq (named_row name) g.steps).1
        (enter_step-Distinct id seq (named_row name) g.steps valid.steps_distinct) valid

  pub insert_notification-IsValid :
      (dest topic : String) (message : p.Value) (key : Option String) (fresh : String)
      (now : p.DateTime) (g : Inner p)
      → IsValid g
      → IsValid (insert_notification dest topic message key fresh now g).1
  unfolding insert_notification
  insert_notification-IsValid dest topic message key fresh now g valid =
      elim (Bool-cases (contains_key dest g.workflows)) [
        | inr gone ↦ rw (gone, insert_notification) valid
        | inl there ↦
            elim (Bool-cases (
              is_some key
              && anyb (λ n. n.message_uuid == message_uuid key dest fresh) g.notifications)) [
                | inl known ↦ rw (there, known, insert_notification) valid
                | inr new ↦ rw (there, new, insert_notification) (same_tables g _ refl refl valid)
              ]
      ]

  pub consume_notification-IsValid :
      (id topic : String) (seq : ℤ) (name : String) (g : Inner p)
      → IsValid g
      → IsValid (consume_notification id topic seq name g).1
  unfolding consume_notification
  consume_notification-IsValid id topic seq name g valid =
      elim (Option-cases (oldest id topic g.notifications)) [
        | inl nothing ↦ rw (nothing, consume_notification) valid
        | inr (s, found) ↦
            let row : StepRow p = record (named_row name) { output = some s.1.message } in
            rw (found, consume_notification)
              (same_tables (record g { steps = (enter_step id seq row g.steps).1 }) _ refl refl
                (steps_changed g (enter_step id seq row g.steps).1
                  (enter_step-Distinct id seq row g.steps valid.steps_distinct) valid))
      ]

  pub write_stream-IsValid :
      (id key : String) (v : Option p.Value) (g : Inner p)
      → IsValid g
      → IsValid (write_stream id key v g).1
  unfolding write_stream
  write_stream-IsValid id key v g valid =
      elim (Bool-cases (anyb is_none (stream_entries id key g))) [
        | inl shut ↦ rw (shut, write_stream) valid
        | inr free ↦ rw (free, write_stream) (same_tables g _ refl refl valid)
      ]

  pub create_schedule-IsValid :
      (s : WorkflowSchedule p) (g : Inner p) → IsValid g → IsValid (create_schedule s g).1
  unfolding create_schedule
  create_schedule-IsValid s g valid = elim (Bool-cases (contains_key s.schedule_name g.schedules)) [
    | inl there ↦ rw (there, create_schedule) valid
    | inr new ↦ rw (new, create_schedule) (same_tables g _ refl refl valid)
  ]

  pub apply_schedules-IsValid :
      (ss : List (WorkflowSchedule p)) (g : Inner p) → IsValid g → IsValid (apply_schedules ss g)
  unfolding apply_schedules
  apply_schedules-IsValid [] g valid = valid
  apply_schedules-IsValid (s ∷ ss) g valid =
      apply_schedules-IsValid ss (record g { schedules = insert s.schedule_name s g.schedules })
        (same_tables g _ refl refl valid)

  pub create_application_version-IsValid :
      (name fresh : String) (now : p.DateTime) (g : Inner p)
      → IsValid g
      → IsValid (create_application_version name fresh now g)
  unfolding create_application_version
  create_application_version-IsValid name fresh now g valid =
      elim (Option-cases (get name g.versions)) [
        | inl new ↦ rw (new, create_application_version) (same_tables g _ refl refl valid)
        | inr (v, there) ↦ rw (there, create_application_version) valid
      ]
