-- ===== src/Memory/Lifecycle/Slots.antt =====
-- src/memory.rs, `insert_workflow_status`: the rows that hold the slot of a new row.
use mathlib.Core.Path.{subst}
use durust.Base.{
  String, Bool, true, false, not, ◌&&◌, Option, none, some, List, ◌≡◌, ◌≢◌, refl, sym, ap, ◌∙◌,
  ◌==◌, string_eq, ==_refl, arith, All-In, anyb-In, In-of_anyb, inl, inr, Bool-cases, Option-cases,
  some_of_is_some_of,
}
use durust.Platform.{Platform}
use durust.Error.{Error, Result, ok, err}
use durust.Store.{get, insert, values}
use durust.Provider.{WorkflowStatus}
use durust.Memory.{Inner}
use durust.Memory.Invariant.{IsValid, values-present, get-In, get-IsKeyed}
use durust.Memory.Lifecycle.{holds_slot, conflict, dedup_error, insert_workflow_status}

module _ {p : Platform} where
  pub slot_of :
      (queue dedup : String) (w : WorkflowStatus p)
      → holds_slot queue dedup w ≡ true
      → (w.queue_name ≡ some queue) × (w.dedup_id ≡ some dedup)
  slot_of queue dedup w h = (
    some_of_is_some_of w.queue_name queue (ground arith),
    some_of_is_some_of w.dedup_id dedup (ground arith),
  )

  -- A row of another id that holds the slot is a conflict.
  pub conflict_of_row :
      (queue dedup j : String) (w v : WorkflowStatus p) (g : Inner p)
      → IsValid g
      → holds_slot queue dedup w ≡ true
      → get j g.workflows ≡ some v
      → holds_slot queue dedup v ≡ true
      → (j == w.id) ≡ false
      → conflict w.queue_name w.dedup_id w.id (values g.workflows) ≡ true
  unfolding conflict
  conflict_of_row queue dedup j w v g valid hw found hv other =
      let (q, d) = slot_of queue dedup w hw in
      let named : (v.id == w.id) ≡ false =
        ap (λ i. i == w.id) (get-IsKeyed j g.workflows valid.keyed found) ∙ other in
      simp (q, d)
        (anyb-In (λ u. not (u.id == w.id) && holds_slot queue dedup u) v (values g.workflows)
          (get-In j g.workflows v found) (ground arith))

  pub row_of_conflict :
      (queue dedup : String) (w : WorkflowStatus p) (g : Inner p)
      → IsValid g
      → w.queue_name ≡ some queue
      → w.dedup_id ≡ some dedup
      → conflict w.queue_name w.dedup_id w.id (values g.workflows) ≡ true
      → (v : WorkflowStatus p) × (get v.id g.workflows ≡ some v)
        × (holds_slot queue dedup v ≡ true)
        × (v.id ≢ w.id)
  unfolding conflict
  row_of_conflict queue dedup w g valid q d h =
      let (v, m, e) =
        In-of_anyb (λ u. not (u.id == w.id) && holds_slot queue dedup u) (values g.workflows)
          (simp (q, d) at h) in
      (
        v,
        All-In (λ (u : WorkflowStatus p). get u.id g.workflows ≡ some u) v (values g.workflows)
            (values-present g.workflows valid.keyed valid.rows_distinct) m,
        ground arith,
        λ same. ground (arith, (string_eq.eqb_iff v.id w.id).1 same),
      )

  pub slot_of_conflict :
      (q d : Option String) (id : String) (rows : List (WorkflowStatus p))
      → conflict q d id rows ≡ true
      → (queue : String) × (dedup : String) × (q ≡ some queue) × (d ≡ some dedup)
  unfolding conflict
  slot_of_conflict none d id rows h = absurd (ground arith)
  slot_of_conflict (some queue) none id rows h = absurd (ground arith)
  slot_of_conflict (some queue) (some dedup) id rows h = (queue, dedup, refl, refl)

  -- A row that stands in valid tables is no conflict of its own.
  pub no_conflict_of_row :
      (w : WorkflowStatus p) (g : Inner p)
      → IsValid g
      → get w.id g.workflows ≡ some w
      → conflict w.queue_name w.dedup_id w.id (values g.workflows) ≡ false
  no_conflict_of_row w g valid found =
      elim (Bool-cases (conflict w.queue_name w.dedup_id w.id (values g.workflows))) [
        | inr free ↦ free
        | inl h ↦
            let (queue, dedup, q, d) =
              slot_of_conflict w.queue_name w.dedup_id w.id (values g.workflows) h in
            let (v, there, hv, other) = row_of_conflict queue dedup w g valid q d h in
            absurd (
              other (
                valid.slots_unique v.id w.id queue dedup v w there found hv
                  (ground (arith, ==_refl queue, ==_refl dedup))))
      ]

  pub slot_held :
      (w : WorkflowStatus p) (g : Inner p)
      → IsValid g
      → conflict w.queue_name w.dedup_id w.id (values g.workflows) ≡ false
      → (queue dedup j : String) (v : WorkflowStatus p) → holds_slot queue dedup w ≡ true
      → get j g.workflows ≡ some v
      → holds_slot queue dedup v ≡ true
      → j ≡ w.id
  slot_held w g valid free queue dedup j v hw found hv = elim (Bool-cases (j == w.id)) [
    | inl same ↦ (string_eq.eqb_iff j w.id).0 same
    | inr other ↦
        absurd (ground (arith, conflict_of_row queue dedup j w v g valid hw found hv other))
  ]

  pub ok_row :
      (a b : WorkflowStatus p) (x y : Bool) (r : Result p (WorkflowStatus p × Bool))
      → r ≡ ok (a, x)
      → r ≡ ok (b, y)
      → a ≡ b
  ok_row a b x y r h k = ground (arith, h, k)

  pub ok_err :
      (a : WorkflowStatus p) (x : Bool) (e : Error p) (r : Result p (WorkflowStatus p × Bool))
      → r ≡ ok (a, x)
      → r ≢ err e
  ok_err a x e r h k = ground (arith, h, k)

  pub conflicted :
      (w : WorkflowStatus p) (g : Inner p)
      → conflict w.queue_name w.dedup_id w.id (values g.workflows) ≡ true
      → insert_workflow_status w g ≡ (err (dedup_error w.queue_name w.dedup_id), g)
  unfolding insert_workflow_status
  conflicted w g taken = rw taken

  pub created :
      (w : WorkflowStatus p) (g : Inner p)
      → conflict w.queue_name w.dedup_id w.id (values g.workflows) ≡ false
      → get w.id g.workflows ≡ none
      → insert_workflow_status w g
        ≡ (ok (w, true), record g { workflows = insert w.id w g.workflows })
  unfolding insert_workflow_status
  created w g free absent = rw (free, absent)

  pub found_again :
      (w row : WorkflowStatus p) (g : Inner p)
      → conflict w.queue_name w.dedup_id w.id (values g.workflows) ≡ false
      → get w.id g.workflows ≡ some row
      → insert_workflow_status w g ≡ (ok (row, false), g)
  unfolding insert_workflow_status
  found_again w row g free found = rw (free, found)

  pub not_refused :
      (w : WorkflowStatus p) (e : Error p) (g : Inner p)
      → conflict w.queue_name w.dedup_id w.id (values g.workflows) ≡ false
      → (insert_workflow_status w g).0 ≢ err e
  unfolding insert_workflow_status
  not_refused w e g free h = elim (Option-cases (get w.id g.workflows)) [
    | inl absent ↦ ok_err w true e (ok (w, true)) refl (rw (free, absent) at h)
    | inr (row, found) ↦ ok_err row false e (ok (row, false)) refl (rw (free, found) at h)
  ]

  pub again_of :
      (w row : WorkflowStatus p) (g g' : Inner p) {r : Result p (WorkflowStatus p × Bool)}
      → insert_workflow_status w g ≡ (r, g')
      → insert_workflow_status w g' ≡ (ok (row, false), g')
      → insert_workflow_status w (insert_workflow_status w g).1
        ≡ (ok (row, false), (insert_workflow_status w g).1)
  again_of w row g g' first next =
      subst (λ (x : Inner p). insert_workflow_status w x ≡ (ok (row, false), x))
        (sym (ap (λ (t : Result p (WorkflowStatus p × Bool) × Inner p). t.1) first)) next
