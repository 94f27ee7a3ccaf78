-- ===== src/Tests/Contexts.antt =====
-- Steps run and replayed, and the invariants of whole runs.
use Prim.Native.Nat.{◌≤◌}
use mathlib.Core.Path.{subst, sym, ap}
use durust.Base.{
  ℕ, ◌<◌, pos, String, false, Option, none, some, ◌≡◌, ◌⊎◌, refl, arith, string_eq, int_eq, pair_eq,
  ◌==◌,
}
use durust.Error.{Result, ok, err, panicked, app, unexpected}
use durust.Store.{get, insert, values}
use durust.Provider.{WorkflowStatus, output, new_workflow, status_cancelled}
use durust.Memory.{Inner}
use durust.Memory.Invariant.{IsValid}
use durust.Memory.Lifecycle.{insert_workflow_status, get_workflow_status}
use durust.Memory.Manage.{cancel_workflow}
use durust.Memory.Steps.{record_step_result, get_step_result, record_patch}
use durust.Memory.Calls.{after, on_write, on_record, on_patch}
use durust.Memory.Calls.Reachable.{Reach-IsValid}
use durust.Memory.Calls.Checkpoints.{no_call}
use durust.Context.{Body, StepEnv, step, run_step_catching, run_with_retries, patch}
use durust.Context.Replay.{step-replays_value, step-replays_error, step-guarded}
use durust.Context.Patches.{patch-stable}
use durust.Context.Retries.{rerun, IsRetried, run_with_retries-stops}
use durust.Tests.Data.{plain, State, row_a, one_row, two_rows, one_row-Reach, two_rows-Reach}

Reach-IsValid_example : IsValid two_rows
Reach-IsValid_example = Reach-IsValid two_rows two_rows-Reach

abbrev runtime : StepEnv plain
runtime = record {
  encode_error = λ e. "failed";
  panic_error = λ name. app name;
  started_at_ms = pos 20;
  now = pos 21;
}

abbrev gives_8 : Body plain
gives_8 g = (ok 8, g)

abbrev fails : Body plain
fails g = (err (app "no"), g)

abbrev panics : Body plain
panics g = (panicked, g)

abbrev stepped : State
stepped = (record_step_result "a" (pos 0) "first" 8 none (some (pos 20)) (pos 21) one_row).1

stepped-IsValid : IsValid stepped
stepped-IsValid = Reach-IsValid stepped (
    after one_row stepped one_row-Reach
      (on_write stepped (on_record "a" (pos 0) "first" 8 none (some (pos 20)) (pos 21))))

abbrev cancelled_after : State
cancelled_after = cancel_workflow "a" (pos 30) stepped

abbrev ran : State
ran = (step runtime "a" (pos 0) "first" gives_8 one_row).1

ran_stepped : step runtime "a" (pos 0) "first" gives_8 one_row ≡ (ok 8, stepped)
unfolding step record_step_result insert_workflow_status new_workflow get insert values
    get_step_result get_workflow_status
ran_stepped = refl

abbrev status_of : Option (WorkflowStatus plain) → String
status_of none = ""
status_of (some w) = w.status

live :
    (w : WorkflowStatus plain)
    → get_workflow_status "a" one_row ≡ some w
    → (w.status == status_cancelled) ≡ false
unfolding get_workflow_status insert_workflow_status new_workflow get insert values
live w h =
    let same : row_a.status ≡ w.status =
      ap (λ (o : Option (WorkflowStatus plain)). status_of o) h in
    ap (λ s. s == status_cancelled) (sym same)

ran-IsValid : IsValid ran
ran-IsValid =
    subst IsValid (sym (ap (λ (r : Result plain ℕ × State). r.1) ran_stepped)) stepped-IsValid

step-replays_value_example :
    ((step runtime "a" (pos 0) "first" gives_8 one_row).0 ≡ ok 8)
    × (step runtime "a" (pos 0) "first" panics ran ≡ (ok 8, ran))
unfolding get_step_result insert_workflow_status new_workflow get insert values
step-replays_value_example =
    step-replays_value runtime runtime "a" (pos 0) "first" gives_8 panics 8 one_row ran refl live
      refl refl ran-IsValid no_call

abbrev failed : State
failed =
    (record_step_result "a" (pos 0) "first" 0 (some "failed") (some (pos 20)) (pos 21) one_row).1

failed-IsValid : IsValid failed
failed-IsValid = Reach-IsValid failed (
    after one_row failed one_row-Reach
      (on_write failed (on_record "a" (pos 0) "first" 0 (some "failed") (some (pos 20)) (pos 21))))

abbrev ran_failing : State
ran_failing = (step runtime "a" (pos 0) "first" fails one_row).1

ran_failed : step runtime "a" (pos 0) "first" fails one_row ≡ (err (app "no"), failed)
unfolding step record_step_result insert_workflow_status new_workflow get insert values
    get_step_result get_workflow_status
ran_failed = refl

ran_failing-IsValid : IsValid ran_failing
ran_failing-IsValid =
    subst IsValid (sym (ap (λ (r : Result plain ℕ × State). r.1) ran_failed)) failed-IsValid

step-replays_error_example :
    ((step runtime "a" (pos 0) "first" fails one_row).0 ≡ err (app "no"))
    × (step runtime "a" (pos 0) "first" gives_8 ran_failing ≡ (err (app "failed"), ran_failing))
unfolding get_step_result insert_workflow_status new_workflow get insert values
step-replays_error_example =
    step-replays_error runtime runtime "a" (pos 0) "first" fails gives_8 (app "no") one_row
      ran_failing refl live refl refl ran_failing-IsValid no_call

step-guarded_example :
    step runtime "a" (pos 0) "second" gives_8 stepped
    ≡ (err (unexpected "a" (pos 0) "second" "first"), stepped)
unfolding get_step_result record_step_result insert_workflow_status new_workflow get insert values
step-guarded_example =
    (step-guarded runtime "a" (pos 0) "second" gives_8 stepped).0
      (record { name = "first"; outcome = output 8 }) refl
      (λ e. ground (arith, string_eq.eqb_iff "first" "second"))

abbrev patched : State
patched = (patch "a" (pos 0) "fast" one_row).2

abbrev marked : State
marked = record_patch "a" (pos 0) "DBOS.patch-fast" one_row

patch_marks : patched ≡ marked
unfolding patch insert_workflow_status new_workflow get insert values record_patch
    durust.Memory.Steps.get_step_name
patch_marks = refl

marked-IsValid : IsValid marked
marked-IsValid =
    Reach-IsValid marked (
      after one_row marked one_row-Reach (on_write marked (on_patch "a" (pos 0) "DBOS.patch-fast")))

patch-stable_example :
    patch "a" (pos 0) "fast" patched
    ≡ ((patch "a" (pos 0) "fast" one_row).0, (patch "a" (pos 0) "fast" one_row).1, patched)
patch-stable_example =
    patch-stable "a" (pos 0) "fast" one_row patched (subst IsValid (sym patch_marks) marked-IsValid)
      no_call

run_with_retries-stops_example :
    (k : ℕ) × (k ≤ 2)
    × (run_with_retries runtime "first" 2 none fails one_row
        ≡ run_step_catching runtime "first" fails (rerun runtime "first" k fails one_row))
    × ((j : ℕ)
        → j < k
        → IsRetried none
            (run_step_catching runtime "first" fails (rerun runtime "first" j fails one_row)).0)
    × ((k ≡ 2)
        ⊎ (IsRetried none
              (run_step_catching runtime "first" fails (rerun runtime "first" k fails one_row)).0
            → ⊥))
run_with_retries-stops_example = run_with_retries-stops runtime "first" 2 none fails one_row
