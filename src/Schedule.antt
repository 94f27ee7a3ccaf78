-- ===== src/Schedule.antt =====
-- src/schedule.rs: a persisted cron schedule and the filter of its listing.
use durust.Base.{String, Bool, true, false, Option, List}
use durust.Platform.{Platform}

pub data ScheduleStatus : Type 0 where
  active paused : ScheduleStatus

pub record WorkflowSchedule (p : Platform) : Type 0 where
  pub schedule_id : String
  pub schedule_name : String
  pub workflow_name : String
  pub schedule : String
  pub status : ScheduleStatus
  pub context : Option p.Value
  pub last_fired_at : Option p.DateTime
  pub automatic_backfill : Bool
  pub cron_timezone : Option String
  pub queue_name : Option String

pub record ScheduleFilter : Type 0 where
  pub statuses : List ScheduleStatus
  pub workflow_names : List String
  pub name_prefixes : List String

-- `PartialEq` of the statuses
abbrev pub status_eq : ScheduleStatus → ScheduleStatus → Bool
status_eq active active = true
status_eq paused paused = true
status_eq _ _ = false
