-- ===== src/Tests/Data.antt =====
-- A platform with numbers for values and instants, and states that the tests run on.
use durust.Base.{ℕ, ℤ, pos, leb_ℤ, String, Option, none, some, string_eq, int_eq, pair_eq}
use durust.Platform.{Platform}
use durust.Provider.{WorkflowStatus, new_workflow, DequeueRequest}
use durust.Memory.{Inner, new_provider}
use durust.Memory.Invariant.{IsValid}
use durust.Memory.Lifecycle.{insert_workflow_status}
use durust.Memory.Calls.{Reach, at_start, after, on_write, on_insert}
use durust.Memory.Calls.Reachable.{Reach-IsValid}

abbrev pub plain : Platform
plain = record {
  Value = ℕ;
  null = 0;
  DateTime = ℤ;
  leb_time = leb_ℤ;
  timestamp_millis = λ t. t;
  from_timestamp_millis = λ t. some t;
  DbError = Unit;
  MigrateError = Unit;
  SerdeError = Unit;
  ErrorSource = Unit;
}

abbrev pub State : Type 0
State = Inner plain

-- A row that waits on the queue "q" for the version "v1", and holds the slot "k" there if asked.
abbrev pub waiting : String → ℤ → Option String → WorkflowStatus plain
waiting id priority dedup =
    record (new_workflow {p = plain} id "work" 7 "ENQUEUED" "" "v1" (pos 10)) {
      queue_name = some "q";
      priority = priority;
      dedup_id = dedup;
    }

abbrev pub row_a : WorkflowStatus plain
row_a = waiting "a" (pos 2) (some "k")

abbrev pub row_b : WorkflowStatus plain
row_b = waiting "b" (pos 1) none

abbrev pub empty : State
empty = new_provider {p = plain}

abbrev pub one_row : State
one_row = (insert_workflow_status row_a empty).1

abbrev pub two_rows : State
two_rows = (insert_workflow_status row_b one_row).1

pub one_row-Reach : Reach one_row
one_row-Reach = after empty one_row at_start (on_write one_row (on_insert row_a))

pub two_rows-Reach : Reach two_rows
two_rows-Reach = after one_row two_rows one_row-Reach (on_write two_rows (on_insert row_b))

pub one_row-IsValid : IsValid one_row
one_row-IsValid = Reach-IsValid one_row one_row-Reach

pub two_rows-IsValid : IsValid two_rows
two_rows-IsValid = Reach-IsValid two_rows two_rows-Reach

-- One task at most, and at most one running, of this version.
abbrev pub request : DequeueRequest
request = record {
  queue_name = "q";
  executor_id = "e1";
  app_version = "v1";
  partition_key = none;
  max_tasks = pos 1;
  global_concurrency = some (pos 3);
  rate_limit_max = some (pos 5);
  rate_limit_period_ms = some (pos 100);
}

abbrev pub clock : String → ℤ
clock id = pos 20
