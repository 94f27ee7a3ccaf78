-- ===== src/Tests/Rows.antt =====
-- Workflow rows: created, moved, cancelled, resumed and delayed.
use durust.Base.{pos, true, false, none, some, ◌≡◌, refl, arith, string_eq, int_eq, pair_eq}
use durust.Error.{ok, err, deduplicated}
use durust.Store.{get, insert, values}
use durust.Provider.{WorkflowStatus, new_workflow, is_terminal}
use durust.Memory.Lifecycle.{insert_workflow_status, set_workflow_status}
use durust.Memory.Lifecycle.Inserts.{insert_workflow_status-refused}
use durust.Memory.Lifecycle.Moves.{set_workflow_status-frees_slot}
use durust.Memory.Lifecycle.{bump_recovery_attempts}
use durust.Memory.Manage.{resume_workflow, transition_delayed_workflows}
use durust.Memory.Manage.Resume.{parked-not_resumed}
use durust.Base.{◌+ℤ◌, i32}
use durust.Tests.Data.{plain, State, waiting, row_a, row_b, one_row, one_row-IsValid}

abbrev rival : WorkflowStatus plain
rival = waiting "c" (pos 0) (some "k")

rival_refused : (insert_workflow_status rival one_row).0 ≡ err (deduplicated "q" "k")
unfolding insert_workflow_status new_workflow get insert values
rival_refused = refl

insert_workflow_status-refused_example :
    (insert_workflow_status rival one_row).0 ≡ err (deduplicated "q" "k")
unfolding insert_workflow_status new_workflow get insert values
insert_workflow_status-refused_example =
    (insert_workflow_status-refused "q" "k" rival one_row one_row-IsValid refl refl).1
      (row_a, refl, refl, λ e. ground (arith, string_eq.eqb_iff "a" "c"))

set_workflow_status-frees_slot_example :
    (insert_workflow_status rival
      (set_workflow_status "a" "SUCCESS" (some 1) none (pos 30) one_row).1).0
    ≡ ok (rival, true)
unfolding insert_workflow_status set_workflow_status new_workflow get insert values is_terminal
set_workflow_status-frees_slot_example =
    set_workflow_status-frees_slot "q" "k" "SUCCESS" "a" (some 1) none (pos 30) row_a rival one_row
      one_row-IsValid refl refl refl refl refl refl refl

parked-not_resumed_example :
    resume_workflow "a" (pos 40) (bump_recovery_attempts "a" (pos 0) (pos 30) one_row).1
    ≡ (false, (bump_recovery_attempts "a" (pos 0) (pos 30) one_row).1)
unfolding insert_workflow_status new_workflow get insert values ◌+ℤ◌ i32
parked-not_resumed_example =
    parked-not_resumed "a" (pos 0) (pos 30) (pos 40) row_a one_row refl refl

abbrev delayed : State
delayed =
    (insert_workflow_status (record row_b { status = "DELAYED"; delay_until_ms = some (pos 15) })
      one_row).1

delayed_due : (transition_delayed_workflows (pos 20) (λ id. pos 20) delayed).0 ≡ 1
unfolding transition_delayed_workflows insert_workflow_status new_workflow get insert values
delayed_due = refl
