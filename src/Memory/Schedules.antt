-- ===== src/Memory/Schedules.antt =====
-- src/memory.rs: the persisted cron schedules, by name.
use Prim.Native.String.{◌++◌ as text_append}
use text.Mathlib.Text.{starts_with}
use durust.Base.{
  ℤ, String, Bool, ◌&&◌, ◌||◌, List, [], ◌∷◌, string_eq, anyb, contains, filterb, is_empty, is_some,
  if◌then◌else◌,
}
use durust.Base.Sorting.{sort, text_le}
use durust.Platform.{Platform}
use durust.Error.{Result, ok, err, app}
use durust.Store.{get, contains_key, insert, update, remove, values}
use durust.Schedule.{ScheduleStatus, WorkflowSchedule, ScheduleFilter, status_eq}
use durust.Memory.{Inner}

abbrev pub exists_message : String → String
exists_message name = text_append "schedule `" (text_append name "` already exists")

module _ {p : Platform} where
  unfoldable pub create_schedule : WorkflowSchedule p → Inner p → Result p (Unit {0}) × Inner p
  create_schedule schedule g =
      if contains_key schedule.schedule_name g.schedules
      then (err (app (exists_message schedule.schedule_name)), g)
      else (ok tt, record g { schedules = insert schedule.schedule_name schedule g.schedules })

  unfoldable pub apply_schedules : List (WorkflowSchedule p) → Inner p → Inner p
  apply_schedules [] g = g
  apply_schedules (s ∷ schedules) g =
      apply_schedules schedules (record g { schedules = insert s.schedule_name s g.schedules })

  abbrev pub schedule_matches : ScheduleFilter → WorkflowSchedule p → Bool
  schedule_matches filter s =
      (is_empty filter.statuses || anyb (λ t. status_eq t s.status) filter.statuses)
      && (is_empty filter.workflow_names || contains filter.workflow_names s.workflow_name)
      && (is_empty filter.name_prefixes
          || anyb (λ pre. starts_with s.schedule_name pre) filter.name_prefixes)

  unfoldable pub list_schedules : ScheduleFilter → Inner p → List (WorkflowSchedule p)
  list_schedules filter g =
      sort (λ (a b : WorkflowSchedule p). text_le a.schedule_name b.schedule_name)
        (filterb (schedule_matches filter) (values g.schedules))

  unfoldable pub set_schedule_status : String → ScheduleStatus → Inner p → Bool × Inner p
  set_schedule_status name status g = (
    is_some (get name g.schedules),
    record g { schedules = update name (λ s. record s { status = status }) g.schedules },
  )

  unfoldable pub set_schedule_last_fired : String → ℤ → Inner p → Inner p
  set_schedule_last_fired name at_ms g = record g {
    schedules =
        update name (λ s. record s { last_fired_at = p.from_timestamp_millis at_ms }) g.schedules;
  }

  unfoldable pub delete_schedule : String → Inner p → Bool × Inner p
  delete_schedule name g =
      (is_some (get name g.schedules), record g { schedules = remove name g.schedules })
