-- ===== src/Memory/Calls/Rows.antt =====
-- src/memory.rs: validity after dequeues, forks and deletions.
use mathlib.Core.Path.{subst}
use durust.Base.{
  ℤ, String, Bool, not, none, some, List, [], ◌∷◌, ◌≡◌, refl, sym, ap, ◌==◌, string_eq, int_eq,
  pair_eq, arith, inl, inr, Bool-cases, Option-cases,
}
use durust.Platform.{Platform}
use durust.Error.{Result}
use durust.Store.{HashMap, get, insert, remove, Distinct}
use durust.Store.Laws.{get-remove}
use durust.Store.Values.{insert-Distinct, remove-Distinct, retain-Distinct, All-remove}
use durust.Provider.{WorkflowStatus, DequeueRequest, ForkParams, new_workflow}
use durust.Memory.{Inner, StepRow}
use durust.Memory.Invariant.{IsValid}
use durust.Memory.Valid.{insert-IsValid}
use durust.Memory.Dequeue.{dequeue_workflows}
use durust.Memory.Dequeue.Laws.{dequeue-total}
use durust.Memory.Dequeue.Fair.{dequeue-IsValid}
use durust.Memory.Fork.{forked_row, checkpoints_before, copy_steps, fork_workflow}
use durust.Memory.Delete.{delete_one, delete_all, delete_targets, delete_workflows}

module _ {p : Platform} where
  pub dequeue_workflows-IsValid :
      (req : DequeueRequest) (now : p.DateTime) (stamp : String → p.DateTime) (g : Inner p)
      → IsValid g
      → IsValid (dequeue_workflows req now stamp g).1
  dequeue_workflows-IsValid req now stamp g valid =
      let (claimed, ws, run, bound) = dequeue-total req now stamp g valid in
      subst IsValid (sym (ap (λ (r : Result p (List (WorkflowStatus p)) × Inner p). r.1) run))
        (dequeue-IsValid req now stamp g valid run)

  forked_row-bare :
      (params : ForkParams) (original : WorkflowStatus p) (now : p.DateTime)
      → ((forked_row params original now).dedup_id ≡ none)
        × ((forked_row params original now).id ≡ params.new_id)
  unfolding forked_row new_workflow
  forked_row-bare params original now = (refl, refl)

  copy_steps-Distinct :
      (new_id : String) (copied steps : HashMap (String × ℤ) (StepRow p))
      → Distinct steps
      → Distinct (copy_steps new_id copied steps)
  unfolding copy_steps
  copy_steps-Distinct new_id [] steps d = d
  copy_steps-Distinct new_id ((k, v) ∷ copied) steps d =
      copy_steps-Distinct new_id copied (insert (new_id, k.1) v steps)
        (insert-Distinct (new_id, k.1) v steps d)

  pub fork_workflow-IsValid :
      (params : ForkParams) (now : p.DateTime) (g : Inner p)
      → IsValid g
      → IsValid (fork_workflow params now g).1
  unfolding fork_workflow
  fork_workflow-IsValid params now g valid =
      elim (Option-cases (get params.original_id g.workflows)) [
        | inl absent ↦ rw (absent, fork_workflow) valid
        | inr (original, found) ↦
            let w = forked_row params original now in
            let (bare, named) = forked_row-bare params original now in
            let inserted : IsValid (record g { workflows = insert params.new_id w g.workflows }) =
              subst (λ i. IsValid (record g { workflows = insert i w g.workflows })) named
                (insert-IsValid w g (λ queue dedup j v hw fv hv. absurd (ground (arith, bare, hw)))
                  valid) in
            rw (found, fork_workflow)
              (record {
                keyed = inserted.keyed;
                rows_distinct = inserted.rows_distinct;
                slots_unique = inserted.slots_unique;
                steps_distinct =
                    copy_steps-Distinct params.new_id
                      (checkpoints_before params.original_id params.start_step g.steps) g.steps
                      valid.steps_distinct;
              })
      ]

  left_there :
      (id j : String) (w : WorkflowStatus p) (g : Inner p)
      → Distinct g.workflows
      → get j (remove id g.workflows) ≡ some w
      → get j g.workflows ≡ some w
  left_there id j w g d h = elim (Bool-cases (id == j)) [
    | inl gone ↦ absurd (ground (arith, get-remove j id g.workflows d))
    | inr stays ↦ ground (arith, get-remove j id g.workflows d)
  ]

  delete_one-IsValid : (id : String) (g : Inner p) → IsValid g → IsValid (delete_one id g)
  unfolding delete_one
  delete_one-IsValid id g valid = record {
    keyed = All-remove (λ (e : String × WorkflowStatus p). e.1.id ≡ e.0) id g.workflows valid.keyed;
    rows_distinct = remove-Distinct id g.workflows valid.rows_distinct;
    slots_unique = λ j k queue dedup v w fv fw.
        valid.slots_unique j k queue dedup v w (left_there id j v g valid.rows_distinct fv)
          (left_there id k w g valid.rows_distinct fw);
    steps_distinct =
        retain-Distinct (λ (k : String × ℤ). not (k.0 == id)) g.steps valid.steps_distinct;
  }

  delete_all-IsValid : (ids : List String) (g : Inner p) → IsValid g → IsValid (delete_all ids g)
  unfolding delete_all
  delete_all-IsValid [] g valid = valid
  delete_all-IsValid (id ∷ ids) g valid =
      delete_all-IsValid ids (delete_one id g) (delete_one-IsValid id g valid)

  pub delete_workflows-IsValid :
      (ids : List String) (delete_children : Bool) (g g' : Inner p)
      → delete_workflows ids delete_children g ≡ some g'
      → IsValid g
      → IsValid g'
  unfolding delete_workflows
  delete_workflows-IsValid ids delete_children g g' h valid =
      elim (Option-cases (delete_targets ids delete_children g)) [
        | inl out ↦
            (let q : none ≡ some g' = rw (out, delete_workflows) at h in absurd (ground arith))
        | inr (found, t) ↦
            let q : some (delete_all found g) ≡ some g' = rw (t, delete_workflows) at h in
            let e : delete_all found g ≡ g' = ground arith in
            subst IsValid e (delete_all-IsValid found g valid)
      ]
