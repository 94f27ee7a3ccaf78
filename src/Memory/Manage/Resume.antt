-- ===== src/Memory/Manage/Resume.antt =====
-- src/memory.rs, `resume_workflow`: the gate.
use mathlib.Core.Path.{subst}
use durust.Base.{
  ℤ, pos, String, true, false, none, some, ◌≡◌, ◌⊎◌, ◌↔◌, refl, sym, string_eq, ==_refl, arith, inl,
  inr, Bool-cases, Option-cases, ltb_ℤ, i32, ◌+ℤ◌,
}
use durust.Platform.{Platform}
use durust.Store.{get, update}
use durust.Store.Laws.{get-update}
use durust.Provider.{WorkflowStatus, is_terminal, status_cancelled}
use durust.Memory.{Inner}
use durust.Memory.Lifecycle.{bump_row, bump_recovery_attempts}
use durust.Memory.Manage.{not_resumable, resume_row, resume_workflow}

module _ {p : Platform} where
  accepted :
      (id : String) (now : p.DateTime) (row : WorkflowStatus p) (g : Inner p)
      → get id g.workflows ≡ some row
      → not_resumable row ≡ false
      → resume_workflow id now g
        ≡ (true, record g { workflows = update id (resume_row now) g.workflows })
  unfolding resume_workflow
  accepted id now row g found free = rw (found, free, resume_workflow)

  rejected :
      (id : String) (now : p.DateTime) (row : WorkflowStatus p) (g : Inner p)
      → get id g.workflows ≡ some row
      → not_resumable row ≡ true
      → resume_workflow id now g ≡ (false, g)
  unfolding resume_workflow
  rejected id now row g found shut = rw (found, shut, resume_workflow)

  missing :
      (id : String) (now : p.DateTime) (g : Inner p)
      → get id g.workflows ≡ none
      → resume_workflow id now g ≡ (false, g)
  unfolding resume_workflow
  missing id now g absent = rw (absent, resume_workflow)

  gate :
      (row : WorkflowStatus p)
      → (not_resumable row ≡ false)
        ↔ ((is_terminal row.status ≡ false) ⊎ (row.status ≡ status_cancelled))
  gate row = elim (Bool-cases (is_terminal row.status)) [
    | inl t ↦
        (λ h. inr (ground (arith, string_eq.eqb_iff row.status status_cancelled)), λ h. closed h)
    | inr f ↦ (λ h. inl f, λ h. ground arith)
  ]
    where
      closed :
          (is_terminal row.status ≡ false) ⊎ (row.status ≡ status_cancelled)
          → not_resumable row ≡ false
      closed (inl f) = ground arith
      closed (inr e) = ground (arith, string_eq.eqb_iff row.status status_cancelled)

  -- A resume reports true exactly when the workflow exists and either has not ended or was
  -- cancelled. A resume that reports false changes nothing.
  pub resume_workflow_iff :
      (id : String) (now : p.DateTime) (g : Inner p)
      → (((resume_workflow id now g).0 ≡ true) ↔ (
          (row : WorkflowStatus p) × (get id g.workflows ≡ some row)
          × ((is_terminal row.status ≡ false) ⊎ (row.status ≡ status_cancelled))))
        × ((resume_workflow id now g).0 ≡ false → (resume_workflow id now g).1 ≡ g)
  resume_workflow_iff id now g = elim (Option-cases (get id g.workflows)) [
    | inl absent ↦
        rw (missing id now g absent)
          ((λ h. absurd (ground arith), λ (row, found, h). absurd (ground arith)), λ h. refl)
    | inr (row, found) ↦ elim (Bool-cases (not_resumable row)) [
      | inl shut ↦ rw (rejected id now row g found shut) (
        (
          λ h. absurd (ground arith),
          λ (r, here, h). absurd (
              let e : row ≡ r = ground arith in
              ground (
                arith,
                (gate row).1 (
                    subst
                      (λ (x : WorkflowStatus p).
                        (is_terminal x.status ≡ false) ⊎ (x.status ≡ status_cancelled))
                      (sym e) h),
              )),
        ),
        λ h. refl,
      )
      | inr free ↦
          rw (accepted id now row g found free)
            ((λ h. (row, found, (gate row).0 free), λ h. refl), λ h. absurd (ground arith))
    ]
  ]

  pub parked-not_resumed :
      (id : String) (max : ℤ) (now later : p.DateTime) (row : WorkflowStatus p) (g : Inner p)
      → get id g.workflows ≡ some row
      → ltb_ℤ max (i32 (row.recovery_attempts +ℤ pos 1)) ≡ true
      → resume_workflow id later (bump_recovery_attempts id max now g).1
        ≡ (false, (bump_recovery_attempts id max now g).1)
  unfolding bump_recovery_attempts bump_row is_terminal
  parked-not_resumed id max now later row g found past =
      rejected id later (bump_row max now row) (bump_recovery_attempts id max now g).1
        (rw (found, bump_recovery_attempts)
          (ground (arith, get-update id id (bump_row max now) g.workflows, ==_refl id)))
        (rw past)
