-- ===== src/Memory/Lifecycle/Inserts.antt =====
-- src/memory.rs, `insert_workflow_status`: creation, deduplication and repetition.
use durust.Base.{
  String, Bool, true, false, some, ◌≡◌, ◌≢◌, ◌↔◌, refl, sym, ap, ◌∙◌, string_eq, ==_refl, arith,
  inl, inr, Bool-cases, Option-cases,
}
use durust.Platform.{Platform}
use durust.Error.{deduplicated, ok, err}
use durust.Store.{get, insert, values}
use durust.Store.Laws.{get-insert}
use durust.Provider.{WorkflowStatus}
use durust.Memory.{Inner}
use durust.Memory.Invariant.{IsValid}
use durust.Memory.Valid.{insert-IsValid}
use durust.Memory.Lifecycle.{holds_slot, conflict, dedup_error, insert_workflow_status}
use durust.Memory.Lifecycle.Slots.{
  row_of_conflict, no_conflict_of_row, slot_held, ok_row, ok_err, conflicted, created, found_again,
  not_refused, again_of,
}

module _ {p : Platform} where
  -- Inserting a workflow row keeps the tables valid, whether it is created, found or refused.
  pub insert_workflow_status-IsValid :
      (w : WorkflowStatus p) (g : Inner p) → IsValid g → IsValid (insert_workflow_status w g).1
  unfolding insert_workflow_status
  insert_workflow_status-IsValid w g valid =
      elim (Bool-cases (conflict w.queue_name w.dedup_id w.id (values g.workflows))) [
        | inl taken ↦ rw taken valid
        | inr free ↦ elim (Option-cases (get w.id g.workflows)) [
          | inr (row, found) ↦ rw (free, found) valid
          | inl absent ↦ rw (free, absent) (insert-IsValid w g (slot_held w g valid free) valid)
        ]
      ]

  -- In valid tables, inserting a row with a queue and a deduplication id is refused as a duplicate
  -- exactly when a row with another id holds that slot.
  pub insert_workflow_status-refused :
      (queue dedup : String) (w : WorkflowStatus p) (g : Inner p)
      → IsValid g
      → w.queue_name ≡ some queue
      → w.dedup_id ≡ some dedup
      → ((insert_workflow_status w g).0 ≡ err (deduplicated queue dedup)) ↔ (
          (v : WorkflowStatus p) × (get v.id g.workflows ≡ some v)
          × (holds_slot queue dedup v ≡ true)
          × (v.id ≢ w.id))
  unfolding insert_workflow_status
  insert_workflow_status-refused queue dedup w g valid q d =
      elim (Bool-cases (conflict w.queue_name w.dedup_id w.id (values g.workflows))) [
        | inl taken ↦
            (λ h. row_of_conflict queue dedup w g valid q d taken, λ h. rw taken (simp (q, d)))
        | inr free ↦ (
          λ h. absurd (not_refused w (deduplicated queue dedup) g free h),
          λ h. absurd (
              h.3 (
                slot_held w g valid free queue dedup h.0.id h.0
                  (ground (arith, ==_refl queue, ==_refl dedup)) h.1 h.2)),
        )
      ]

  -- Inserting the same row again, after a first insert that was not refused, changes nothing and
  -- returns the row that the first returned, as one that was there already.
  pub insert_workflow_status-again :
      (w row : WorkflowStatus p) (made : Bool) (g : Inner p)
      → IsValid g
      → (insert_workflow_status w g).0 ≡ ok (row, made)
      → insert_workflow_status w (insert_workflow_status w g).1
        ≡ (ok (row, false), (insert_workflow_status w g).1)
  insert_workflow_status-again w row made g valid h =
      elim (Bool-cases (conflict w.queue_name w.dedup_id w.id (values g.workflows))) [
        | inl taken ↦ absurd (
            ok_err row made (dedup_error w.queue_name w.dedup_id) (ok (row, made)) refl
              (sym (rw (conflicted w g taken) at h)))
        | inr free ↦ elim (Option-cases (get w.id g.workflows)) [
          | inr (old, found) ↦
              let same : old ≡ row =
                ok_row old row false made (ok (old, false)) refl
                  (rw (found_again w old g free found) at h) in
              again_of w row g g (found_again w old g free found)
                (found_again w old g free found ∙ ap (λ r. (ok (r, false), g)) same)
          | inl absent ↦
              let same : w ≡ row =
                ok_row w row true made (ok (w, true)) refl (rw (created w g free absent) at h) in
              let here : get w.id (insert w.id w g.workflows) ≡ some w =
                ground (arith, get-insert w.id w.id w g.workflows, ==_refl w.id) in
              let again =
                no_conflict_of_row w (record g { workflows = insert w.id w g.workflows })
                  (insert-IsValid w g (slot_held w g valid free) valid) here in
              again_of w row g (record g { workflows = insert w.id w g.workflows })
                (created w g free absent)
                (found_again w w (record g { workflows = insert w.id w g.workflows }) again here
                  ∙ ap (λ r. (ok (r, false), record g { workflows = insert w.id w g.workflows }))
                      same)
        ]
      ]
