-- ===== src/Tests/Engines.antt =====
-- An engine with one workflow and one queue, at work on small states.
use Prim.Native.Nat.{◌≤◌}
use durust.Base.{
  ℕ, zero, suc, ◌-◌, ◌+◌, ◌+ℤ◌, i32, ℤ, pos, String, Bool, true, false, Option, none, some, List,
  [], ◌∷◌, ◌≡◌, refl, arith, string_eq, int_eq, pair_eq, option_map, length,
}
use durust.Error.{ok, err, cancelled}
use durust.Store.{get, insert, values, contains_key, update}
use durust.Provider.{
  WorkflowStatus, new_workflow, is_terminal, RecordedStep, output,
  status_max_recovery_attempts_exceeded,
}
use durust.Queue.{WorkflowQueue, new_queue}
use durust.Memory.Lifecycle.{insert_workflow_status}
use durust.Memory.Manage.{cancel_workflow, cancel_row}
use durust.Memory.Steps.{record_step_result, check_child_workflow}
use durust.Memory.Steps.Refines.{checkpoints, record_step_result-refines}
use durust.Memory.Calls.Checkpoints.{no_call}
use durust.Memory.Streams.{until_closed}
use durust.Memory.Drain.{Pass, drain_stream}
use durust.Memory.Drain.Complete.{drain_stream_complete}
use durust.Handle.{polled_result}
use durust.Engine.{
  AuthContext, WorkflowOptions, default_options, return_existing, WorkflowFn, Runtime, registry_key,
}
use durust.Engine.Create.{polling, Attempt, start, run_guard}
use durust.Engine.Spawn.{start_workflow}
use durust.Engine.Create.Existing.{start-idempotent, start-returns_existing}
use durust.Engine.Spawn.Children.{start_workflow-replays}
use durust.Engine.Run.{RunEnv, run_to_completion}
use durust.Engine.Run.Outcome.{run_to_completion-observed, run_to_completion-yields}
use durust.Engine.Recover.{Visit, parked, recover_one, dispatch_pending_workflows}
use durust.Engine.Recover.Stops.{dispatch-stops}
use durust.Engine.Recover.Requeues.{recover_one-requeues}
use durust.Engine.Requests.{resume_workflow_on}
use durust.Engine.Requests.Resume.{resume_workflow_on-settles}
use durust.Engine.Claim.{claim_partition}
use durust.Engine.Claim.Bounded.{claim_partition-worker_concurrency}
use durust.Memory.Dequeue.{is_candidate}
use durust.Client.{Client, enqueue, enqueue_guard}
use durust.Client.Dispatch.{enqueue-dispatched}
use durust.Tests.Data.{
  request, plain, State, row_a, row_b, empty, one_row, two_rows, one_row-IsValid, two_rows-IsValid,
  clock,
}

abbrev work : WorkflowFn plain
work id auth input g = (ok 9, g)

abbrev two_at_once : WorkflowQueue
two_at_once = record (new_queue "q") { worker_concurrency = some 2 }

abbrev runtime : Runtime plain
runtime = record {
  workflows = ("work", work) ∷ [];
  queues = ("q", two_at_once) ∷ [];
  executor_id = "e1";
  app_version = "v1";
}

abbrev nobody : AuthContext
nobody = record { authenticated_user = none; assumed_role = none; authenticated_roles = [] }

abbrev attempt : Attempt plain
attempt = record { now = pos 30; created = pos 31; between = λ g. g }

abbrev queued : WorkflowOptions
queued = record default_options { workflow_id = some "a"; queue = some "q" }

start-idempotent_example :
    start runtime "work" 5 queued "u1" (attempt ∷ []) one_row ≡ (some (ok (polling "a")), one_row)
unfolding registry_key run_guard contains_key insert_workflow_status new_workflow get insert values
start-idempotent_example =
    (start-idempotent runtime work "a" "work" 5 queued "u1" attempt [] row_a one_row refl refl refl
        refl refl refl).1
      refl

abbrev same_slot : WorkflowOptions
same_slot = record default_options {
  dedup_id = some "k";
  dedup_policy = return_existing;
  queue = some "q";
}

start-returns_existing_example :
    start runtime "work" 5 same_slot "u1" (attempt ∷ []) one_row
    ≡ (some (ok (polling "a")), one_row)
unfolding registry_key run_guard contains_key insert_workflow_status new_workflow get insert values
start-returns_existing_example =
    start-returns_existing runtime work "work" "q" "k" 5 same_slot "u1" attempt [] row_a one_row
      one_row-IsValid refl refl refl refl refl refl refl
      (λ e. ground (arith, string_eq.eqb_iff "a" "u1")) refl

abbrev show : ℤ → String
show seq = "0"

abbrev with_child : State
with_child =
    (start_workflow runtime show "a" nobody (pos 0) "work" 5 default_options (pos 30) (pos 31)
      one_row).1

start_workflow-replays_example :
    start_workflow runtime show "a" nobody (pos 0) "work" 6 queued (pos 40) (pos 41) with_child
    ≡ (ok ("a-0", none), with_child)
unfolding start_workflow registry_key insert_workflow_status new_workflow get insert values
    check_child_workflow
start_workflow-replays_example =
    (start_workflow-replays runtime runtime show "a" nobody nobody (pos 0) "work" 5 6
      default_options queued (pos 30) (pos 40) (pos 31) (pos 41) "a-0" _ one_row with_child
      one_row-IsValid refl refl no_call).0

abbrev run_env : RunEnv plain
run_env = record { encode_error = λ e. "failed"; panic_message = "gone"; now = pos 40 }

run_to_completion-observed_example :
    ((run_to_completion run_env work "a" 5 none nobody none one_row).0 ≡ ok 9)
    × (polled_result "a" ((run_to_completion run_env work "a" 5 none nobody none one_row).1 ∷ [])
        ≡ some (ok 9))
unfolding insert_workflow_status new_workflow get insert values
run_to_completion-observed_example =
    (run_to_completion-observed run_env work "a" 5 none nobody none one_row row_a [] refl refl).0 9
      refl refl

abbrev cancelled_a : State
cancelled_a = cancel_workflow "a" (pos 30) one_row

abbrev cancelled_row : WorkflowStatus plain
cancelled_row = cancel_row (pos 30) row_a

run_to_completion-yields_example :
    run_to_completion run_env work "a" 5 none nobody none cancelled_a
    ≡ (err (cancelled "a"), cancelled_a)
unfolding cancel_workflow cancel_row is_terminal insert_workflow_status new_workflow get insert
    values update
run_to_completion-yields_example =
    (run_to_completion-yields run_env work "a" 5 none nobody none cancelled_a cancelled_row refl
        refl).1
      9 refl refl

-- The shutdown begins after the first workflow.
abbrev begun : ℕ → Bool
begun zero = false
begun (suc n) = true

abbrev visits : ℕ → Visit plain
visits n = record {
  is_cancelled = begun n;
  bumped_at = pos 30;
  now = pos 31;
  env = run_env;
  cut = none;
}

dispatch-stops_example :
    dispatch_pending_workflows runtime (pos 5) visits 0 (row_b ∷ row_a ∷ []) two_rows
    ≡ dispatch_pending_workflows runtime (pos 5) visits 0 (row_b ∷ []) two_rows
dispatch-stops_example =
    dispatch-stops runtime (pos 5) visits 0 1 (row_b ∷ []) (row_a ∷ []) two_rows refl refl

-- A claimed row that an earlier process left, recovered five times.
abbrev left_row : WorkflowStatus plain
left_row = record row_a { status = "PENDING"; recovery_attempts = pos 5 }

abbrev left_behind : State
left_behind = (insert_workflow_status left_row empty).1

recover_one-requeues_example :
    ((recover_one runtime (pos 5) (visits 0) left_row left_behind).0 ≡ ok parked)
    × ((row : WorkflowStatus plain) × (get "a"
            (recover_one runtime (pos 5) (visits 0) left_row left_behind).1.workflows
          ≡ some row)
        × (row.status ≡ status_max_recovery_attempts_exceeded)
        × (row.dedup_id ≡ none))
unfolding insert_workflow_status new_workflow get insert values i32 ◌+ℤ◌
recover_one-requeues_example =
    (recover_one-requeues runtime (pos 5) (visits 0) left_row "q" left_behind refl refl).1 refl

resume_workflow_on-settles_example :
    (resume_workflow_on "a" "q2" (pos 40) (pos 41) cancelled_a).0 ≡ ok "a"
unfolding cancel_workflow cancel_row is_terminal insert_workflow_status new_workflow get insert
    values update
resume_workflow_on-settles_example =
    ((resume_workflow_on-settles "a" "q2" (pos 40) (pos 41) cancelled_a).0 cancelled_row refl
      refl).0

claim_partition-worker_concurrency_example :
    let (spawned, count, g') =
      claim_partition runtime two_at_once none 1 (pos 20) clock clock two_rows in
    (count ≡ 1 + length spawned) × (length spawned ≤ 2 - 1) × (length spawned ≤ 100)
claim_partition-worker_concurrency_example =
    claim_partition-worker_concurrency runtime two_at_once none 2 1 (pos 20) clock clock two_rows
      two_rows-IsValid refl (omega arith)

record_step_result-refines_example :
    option_map
      (λ (r : RecordedStep plain). r.outcome)
      (checkpoints
        (record_step_result "a" (pos 0) "first" 8 none none (pos 21) one_row).1
        "a"
        (pos 0))
    ≡ some (output 8)
unfolding record_step_result insert_workflow_status new_workflow get insert values
record_step_result-refines_example =
    (record_step_result-refines "a" (pos 0) "first" "b" 8 none none (pos 21) one_row).1

-- The second value is written between the read of the first pass and its look at the status.
abbrev total : List (Option ℕ)
total = some 5 ∷ some 6 ∷ []

abbrev early : Pass plain
early = record { entries = some 5 ∷ []; status = some "SUCCESS" }

abbrev last : Pass plain
last = record { entries = total; status = some "SUCCESS" }

drain_stream_complete_example : drain_stream "a" (early ∷ last ∷ []) ≡ some (ok (5 ∷ 6 ∷ [], true))
unfolding until_closed
drain_stream_complete_example =
    drain_stream_complete "a" total (omega arith) [] early last [] "SUCCESS" "SUCCESS"
      (
        (some 5 ∷ [], refl),
        (some 6 ∷ [], refl),
        (λ e. absurd (ground (arith, e))),
        ((some 6 ∷ [], refl), ([], refl), (λ e. refl), tt),
      )
      tt refl refl refl

-- A client of no version.
abbrev client : Client
client = record { app_version = "" }

abbrev enqueued : State
enqueued =
    (enqueue client "q" "work" 5 default_options "c" (pos 30) (pos 31) ((λ g. g) ∷ []) two_rows).1

enqueue-dispatched_example :
    (row : WorkflowStatus plain) × (get "c" enqueued.workflows ≡ some row)
    × (is_candidate request true row ≡ true)
unfolding enqueue_guard insert_workflow_status new_workflow get insert values
enqueue-dispatched_example =
    let (row, there, waits, delayed) =
      (enqueue-dispatched plain client "q" "work" 5 default_options "c" (pos 30) (pos 31) (λ g. g)
        [] two_rows refl refl refl).1 in
    (row, there, waits request true refl refl refl refl)
