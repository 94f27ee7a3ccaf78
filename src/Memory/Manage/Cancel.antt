-- ===== src/Memory/Manage/Cancel.antt =====
-- src/memory.rs: a cancellation and a completion of one workflow.
use mathlib.Core.Path.{subst}
use durust.Base.{
  String, true, false, ◌&&◌, ◌||◌, Option, none, some, ◌≡◌, ◌⊎◌, ap, ◌∙◌, sym, ◌==◌, string_eq,
  ==_refl, arith, inl, inr, Bool-cases, Option-cases,
}
use durust.Platform.{Platform}
use durust.Error.{cancelled, ok, err}
use durust.Store.{get, update}
use durust.Store.Laws.{get-update, update_same, update_absent}
use durust.Provider.{WorkflowStatus, is_terminal, status_success, status_error, status_cancelled}
use durust.Memory.{Inner}
use durust.Memory.Lifecycle.{with_status, set_workflow_status}
use durust.Memory.Lifecycle.Moves.{moved}
use durust.Memory.Manage.{cancel_row, cancel_workflow}

module _ {p : Platform} where
  cancelled_row :
      (now : p.DateTime) (row : WorkflowStatus p)
      → is_terminal row.status ≡ false
      → (cancel_row now row).status ≡ status_cancelled
  unfolding cancel_row
  cancelled_row now row active = rw active

  cancel_row_terminal :
      (now : p.DateTime) (row : WorkflowStatus p)
      → is_terminal row.status ≡ true
      → cancel_row now row ≡ row
  unfolding cancel_row
  cancel_row_terminal now row done = rw done

  refused :
      (id status : String) (output : Option p.Value) (error : Option String) (now : p.DateTime)
      (row : WorkflowStatus p) (g : Inner p)
      → get id g.workflows ≡ some row
      → (status ≡ status_success) ⊎ (status ≡ status_error)
      → row.status ≡ status_cancelled
      → set_workflow_status id status output error now g ≡ (err (cancelled id), g)
  unfolding set_workflow_status
  refused id status output error now row g found which is_cancelled =
      rw (found, finish which, set_workflow_status)
    where
      finish :
          (status ≡ status_success) ⊎ (status ≡ status_error)
          → ((status == status_success || status == status_error) && row.status == status_cancelled)
            ≡ true
      finish (inl e) = rw (e, is_cancelled)
      finish (inr e) = rw (e, is_cancelled)

  -- Once a workflow that has not ended is cancelled, recording its success or its error is refused
  -- as cancelled and changes nothing.
  pub cancel_workflow-beats_completion :
      (id status : String) (output : Option p.Value) (error : Option String)
      (then_ms now : p.DateTime) (row : WorkflowStatus p) (g : Inner p)
      → get id g.workflows ≡ some row
      → is_terminal row.status ≡ false
      → (status ≡ status_success) ⊎ (status ≡ status_error)
      → set_workflow_status id status output error then_ms (cancel_workflow id now g)
        ≡ (err (cancelled id), cancel_workflow id now g)
  unfolding cancel_workflow
  cancel_workflow-beats_completion id status output error then_ms now row g found active which =
      refused id status output error then_ms (cancel_row now row) (cancel_workflow id now g)
        (ground (arith, get-update id id (cancel_row now) g.workflows, ==_refl id)) which
        (cancelled_row now row active)

  ended_row :
      (status : String) (output : Option p.Value) (error : Option String) (now : p.DateTime)
      (row : WorkflowStatus p)
      → (with_status status output error now row).status ≡ status
  unfolding with_status
  ended_row status output error now row = elim (Bool-cases (is_terminal status)) [
    | inl t ↦ rw t
    | inr f ↦ rw f
  ]

  untouched :
      (id : String) (g : Inner p)
      → get id g.workflows ≡ none
      → (status : String) (output : Option p.Value) (error : Option String) (now : p.DateTime)
      → (set_workflow_status id status output error now g).1 ≡ g
  unfolding set_workflow_status
  untouched id g absent status output error now = rw (absent, set_workflow_status)

  -- Once a workflow has been moved to a terminal state, cancelling it changes nothing.
  pub completion-beats_cancel :
      (id status : String) (output : Option p.Value) (error : Option String)
      (now later : p.DateTime) (g : Inner p)
      → is_terminal status ≡ true
      → (set_workflow_status id status output error now g).0 ≡ ok tt
      → (cancel_workflow id later (set_workflow_status id status output error now g).1)
        ≡ (set_workflow_status id status output error now g).1
  unfolding cancel_workflow
  completion-beats_cancel id status output error now later g ended done =
      elim (Option-cases (get id g.workflows)) [
        | inl absent ↦
            subst (λ (x : Inner p). cancel_workflow id later x ≡ x)
              (sym (untouched id g absent status output error now))
              (ap (λ ws. record g { workflows = ws })
                (update_absent id (cancel_row later) g.workflows absent))
        | inr (row, found) ↦
            subst (λ (x : Inner p). cancel_workflow id later x ≡ x)
              (sym (moved status id output error now row g found done))
              (ap (λ ws. record g { workflows = ws })
                (update_same id (cancel_row later) (with_status status output error now row)
                  (update id (with_status status output error now) g.workflows)
                  (ground (
                    arith,
                    get-update id id (with_status status output error now) g.workflows,
                    ==_refl id,
                  ))
                  (cancel_row_terminal later (with_status status output error now row)
                    (ap is_terminal (ended_row status output error now row) ∙ ended))))
      ]
