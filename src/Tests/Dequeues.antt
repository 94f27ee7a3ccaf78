-- ===== src/Tests/Dequeues.antt =====
-- Dequeues of a queue with two rows.
use Prim.Native.Nat.{◌≤◌, max}
use durust.Base.{
  pos, ◌-ℤ◌, i64, pos_part, true, some, List, [], ◌∷◌, ◌≡◌, ◌≢◌, refl, inl, arith, string_eq,
  int_eq, pair_eq, countb, length,
}
use durust.Error.{ok}
use durust.Store.{get, insert, update, values}
use durust.Base.Sorting.{sort}
use durust.Provider.{WorkflowStatus, new_workflow}
use durust.Memory.Invariant.{Rows}
use durust.Memory.Lifecycle.{insert_workflow_status}
use durust.Memory.Dequeue.{
  dequeue_workflows, is_candidate, is_latest, is_running, recent_start, allowed, candidate_le,
  candidate_of, claim_row,
}
use durust.Memory.Dequeue.Laws.{dequeue-total}
use durust.Memory.Dequeue.Promises.{IsClaimOf, dequeue-claimed}
use durust.Memory.Dequeue.Limits.{dequeue-global_concurrency, dequeue-rate_limit}
use durust.Memory.Dequeue.Fair.{dequeue_best_first, dequeue-disjoint}
use durust.Tests.Data.{plain, State, row_a, row_b, two_rows, two_rows-IsValid, request, clock}

-- What the request makes of the row.
abbrev claimed : WorkflowStatus plain → WorkflowStatus plain
claimed w = claim_row request (pos 20) (pos 20) w

abbrev after_b : State
after_b = record two_rows { workflows = update "b" claimed two_rows.workflows }

abbrev after_both : State
after_both = record after_b { workflows = update "a" claimed after_b.workflows }

takes_b : dequeue_workflows request (pos 20) clock two_rows ≡ (ok (claimed row_b ∷ []), after_b)
unfolding dequeue_workflows insert_workflow_status new_workflow get insert update values claim_row
    i64 ◌-ℤ◌ recent_start sort candidate_le
takes_b = refl

takes_a : dequeue_workflows request (pos 20) clock after_b ≡ (ok (claimed row_a ∷ []), after_both)
unfolding dequeue_workflows insert_workflow_status new_workflow get insert update values claim_row
    i64 ◌-ℤ◌ recent_start sort candidate_le
takes_a = refl

dequeue-total_example :
    (cs : List (WorkflowStatus plain)) × (ws : Rows plain) × (dequeue_workflows request
        (pos 20)
        clock
        two_rows
      ≡ (ok cs, record two_rows { workflows = ws }))
    × (length cs ≤ 1)
dequeue-total_example = dequeue-total request (pos 20) clock two_rows two_rows-IsValid

dequeue-claimed_example :
    (old : WorkflowStatus plain) × (get "b" two_rows.workflows ≡ some old)
    × (get "b" after_b.workflows ≡ some (claimed row_b))
    × IsClaimOf request (is_latest request two_rows) (pos 20) old (claimed row_b)
unfolding claim_row new_workflow
dequeue-claimed_example =
    dequeue-claimed request (pos 20) clock two_rows two_rows-IsValid takes_b (claimed row_b)
      (inl refl)

dequeue-global_concurrency_example :
    countb (is_running request) (values after_b.workflows)
    ≤ max 3 (countb (is_running request) (values two_rows.workflows))
unfolding insert_workflow_status new_workflow get insert values
dequeue-global_concurrency_example =
    dequeue-global_concurrency request (pos 20) clock two_rows two_rows-IsValid takes_b 3 refl
      (ground arith) (ground arith)

dequeue-rate_limit_example :
    countb (recent_start request (i64 (pos 20 -ℤ pos 100))) (values after_b.workflows)
    ≤ max 5 (countb (recent_start request (i64 (pos 20 -ℤ pos 100))) (values two_rows.workflows))
unfolding insert_workflow_status new_workflow get insert values
dequeue-rate_limit_example =
    dequeue-rate_limit request (pos 20) clock two_rows two_rows-IsValid takes_b 5 (pos 100) refl
      refl (ground arith) (ground arith)

dequeue_best_first_example :
    (candidate_le (candidate_of (claimed row_b)) (candidate_of row_a) ≡ true)
    × (1 ≡ pos_part (allowed request (pos 20) (values two_rows.workflows)))
unfolding insert_workflow_status new_workflow get insert values is_candidate claim_row
dequeue_best_first_example =
    dequeue_best_first request (pos 20) clock two_rows two_rows-IsValid takes_b "a" row_a
      (claimed row_b) refl refl refl (inl refl)

dequeue-disjoint_example : (claimed row_b).id ≢ (claimed row_a).id
dequeue-disjoint_example =
    dequeue-disjoint request request (pos 20) (pos 20) clock clock two_rows two_rows-IsValid takes_b
      takes_a (claimed row_b) (claimed row_a) (inl refl) (inl refl)
