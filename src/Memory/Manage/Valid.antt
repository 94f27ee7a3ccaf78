-- ===== src/Memory/Manage/Valid.antt =====
-- src/memory.rs: validity after cancelling, resuming, re-queueing and delaying.
use durust.Base.{
  ℤ, pos, ◌+ℤ◌, i32, ltb_ℤ, String, none, some, List, [], ◌∷◌, ◌≡◌, refl, ◌==◌, string_eq, arith,
  inl, inr, Bool-cases, Option-cases,
}
use durust.Platform.{Platform}
use durust.Store.{get}
use durust.Provider.{WorkflowStatus, is_terminal, status_delayed}
use durust.Memory.{Inner}
use durust.Memory.Invariant.{IsValid}
use durust.Memory.Valid.{KeepsSlotOf, update-IsValid, map_values-IsValid}
use durust.Memory.Lifecycle.{bump_row, bump_recovery_attempts}
use durust.Memory.Manage.{
  cancel_row, cancel_workflow, cancel_workflows, not_resumable, resume_row, resume_workflow,
  resume_workflows, enqueue_row, enqueue_existing, set_workflow_delay, is_due, promote_row,
  transition_delayed_workflows,
}

module _ {p : Platform} where
  cancel_row-id : (now : p.DateTime) (r : WorkflowStatus p) → (cancel_row now r).id ≡ r.id
  unfolding cancel_row
  cancel_row-id now r = ground arith

  cancel_row-keeps : (now : p.DateTime) (r : WorkflowStatus p) → KeepsSlotOf (cancel_row now) r
  unfolding cancel_row
  cancel_row-keeps now r = elim (Bool-cases (is_terminal r.status)) [
    | inl t ↦ inr (rw t (refl, refl))
    | inr f ↦ inl (rw f)
  ]

  pub cancel_workflow-IsValid :
      (id : String) (now : p.DateTime) (g : Inner p)
      → IsValid g
      → IsValid (cancel_workflow id now g)
  unfolding cancel_workflow
  cancel_workflow-IsValid id now g valid =
      update-IsValid id (cancel_row now) g (cancel_row-id now) (λ r h. cancel_row-keeps now r) valid

  pub cancel_workflows-IsValid :
      (ids : List String) (now : p.DateTime) (g : Inner p)
      → IsValid g
      → IsValid (cancel_workflows ids now g)
  unfolding cancel_workflows cancel_workflow
  cancel_workflows-IsValid [] now g valid = valid
  cancel_workflows-IsValid (id ∷ ids) now g valid =
      cancel_workflows-IsValid ids now (cancel_workflow id now g)
        (cancel_workflow-IsValid id now g valid)

  pub resume_workflow-IsValid :
      (id : String) (now : p.DateTime) (g : Inner p)
      → IsValid g
      → IsValid (resume_workflow id now g).1
  unfolding resume_workflow resume_row
  resume_workflow-IsValid id now g valid = elim (Option-cases (get id g.workflows)) [
    | inl absent ↦ rw (absent, resume_workflow) valid
    | inr (row, found) ↦ elim (Bool-cases (not_resumable row)) [
      | inl bad ↦ rw (found, bad, resume_workflow) valid
      | inr good ↦
          rw (found, good, resume_workflow)
            (update-IsValid id (resume_row now) g (λ r. refl) (λ r h. inl refl) valid)
    ]
  ]

  pub resume_workflows-IsValid :
      (ids : List String) (now : p.DateTime) (g : Inner p)
      → IsValid g
      → IsValid (resume_workflows ids now g).1
  unfolding resume_workflows
  resume_workflows-IsValid [] now g valid = valid
  resume_workflows-IsValid (id ∷ ids) now g valid =
      resume_workflows-IsValid ids now (resume_workflow id now g).1
        (resume_workflow-IsValid id now g valid)

  -- A re-queued row must hold no deduplication id: its new queue may hold that slot already.
  pub enqueue_existing-IsValid :
      (id queue : String) (now : p.DateTime) (g : Inner p)
      → ((r : WorkflowStatus p) → get id g.workflows ≡ some r → r.dedup_id ≡ none)
      → IsValid g
      → IsValid (enqueue_existing id queue now g)
  unfolding enqueue_existing enqueue_row
  enqueue_existing-IsValid id queue now g bare valid =
      update-IsValid id (enqueue_row queue now) g (λ r. refl) (λ r h. inl (bare r h)) valid

  pub set_workflow_delay-IsValid :
      (id : String) (delay_until_ms : ℤ) (now : p.DateTime) (g : Inner p)
      → IsValid g
      → IsValid (set_workflow_delay id delay_until_ms now g).1
  unfolding set_workflow_delay
  set_workflow_delay-IsValid id delay_until_ms now g valid =
      elim (Option-cases (get id g.workflows)) [
        | inl absent ↦ rw (absent, set_workflow_delay) valid
        | inr (row, found) ↦ elim (Bool-cases (row.status == status_delayed)) [
          | inl delayed ↦
              rw (found, delayed, set_workflow_delay)
                (update-IsValid id
                  (λ r. record r { delay_until_ms = some delay_until_ms; updated_at = now }) g
                  (λ r. refl) (λ r h. inr (refl, refl)) valid)
          | inr other ↦ rw (found, other, set_workflow_delay) valid
        ]
      ]

  pub transition_delayed_workflows-IsValid :
      (now_ms : ℤ) (stamp : String → p.DateTime) (g : Inner p)
      → IsValid g
      → IsValid (transition_delayed_workflows now_ms stamp g).1
  unfolding transition_delayed_workflows promote_row
  transition_delayed_workflows-IsValid now_ms stamp g valid =
      map_values-IsValid (promote_row now_ms stamp) g (λ r. ground arith)
        (λ r. elim (Bool-cases (is_due now_ms r)) [
          | inl due ↦ inr (rw due (refl, refl))
          | inr wait ↦ inr (rw wait (refl, refl))
        ])
        valid

  bump_row-keeps :
      (max : ℤ) (now : p.DateTime) (r : WorkflowStatus p) → KeepsSlotOf (bump_row max now) r
  unfolding bump_row
  bump_row-keeps max now r = elim (Bool-cases (ltb_ℤ max (i32 (r.recovery_attempts +ℤ pos 1)))) [
    | inl past ↦ inl (rw past)
    | inr below ↦ inr (rw below (refl, refl))
  ]

  pub bump_recovery_attempts-IsValid :
      (id : String) (max : ℤ) (now : p.DateTime) (g : Inner p)
      → IsValid g
      → IsValid (bump_recovery_attempts id max now g).1
  unfolding bump_recovery_attempts bump_row
  bump_recovery_attempts-IsValid id max now g valid = elim (Option-cases (get id g.workflows)) [
    | inl absent ↦ rw (absent, bump_recovery_attempts) valid
    | inr (row, found) ↦
        rw (found, bump_recovery_attempts)
          (update-IsValid id (bump_row max now) g (λ r. ground arith)
            (λ r h. bump_row-keeps max now r) valid)
  ]
