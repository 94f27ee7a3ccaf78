-- ===== src/Memory/Lifecycle/Moves.antt =====
-- src/memory.rs, `set_workflow_status`: a row moved to another status, and its deduplication slot.
use durust.Base.{
  String, Bool, true, false, ◌&&◌, ◌||◌, Option, none, some, ◌≡◌, ◌≢◌, refl, sym, ap, ◌∙◌, ◌==◌,
  string_eq, arith, inl, inr, Bool-cases, Option-cases,
}
use durust.Platform.{Platform}
use durust.Error.{Error, cancelled, Result, ok, err}
use durust.Store.{get, update, values}
use durust.Store.Laws.{get-update}
use durust.Provider.{WorkflowStatus, is_terminal, status_success, status_error, status_cancelled}
use durust.Memory.{Inner}
use durust.Memory.Invariant.{IsValid}
use durust.Memory.Valid.{KeepsSlotOf, update-IsValid}
use durust.Memory.Lifecycle.{
  holds_slot, conflict, insert_workflow_status, with_status, set_workflow_status,
}
use durust.Memory.Lifecycle.Slots.{row_of_conflict, created}

module _ {p : Platform} where
  refused_ok : (e : Error p) (r : Result p (Unit {0})) → r ≡ err e → r ≢ ok tt
  refused_ok e r h k = ground (arith, h, k)

  -- The state after a move that is not refused.
  pub moved :
      (status id : String) (output : Option p.Value) (error : Option String) (now : p.DateTime)
      (row : WorkflowStatus p) (g : Inner p)
      → get id g.workflows ≡ some row
      → (set_workflow_status id status output error now g).0 ≡ ok tt
      → (set_workflow_status id status output error now g).1
        ≡ record g { workflows = update id (with_status status output error now) g.workflows }
  unfolding set_workflow_status
  moved status id output error now row g found done = elim (Bool-cases (bad)) [
    | inl b ↦ absurd (
        refused_ok (cancelled id) (err (cancelled id)) refl
          (rw (found, b, set_workflow_status) at done))
    | inr b ↦ rw (found, b, set_workflow_status)
  ]
    where
      bad : Bool
      bad = (status == status_success || status == status_error) && row.status == status_cancelled

  with_status-id :
      (status : String) (output : Option p.Value) (error : Option String) (now : p.DateTime)
      (r : WorkflowStatus p)
      → (with_status status output error now r).id ≡ r.id
  unfolding with_status
  with_status-id status output error now r = ground arith

  with_status-keeps :
      (status : String) (output : Option p.Value) (error : Option String) (now : p.DateTime)
      (r : WorkflowStatus p)
      → KeepsSlotOf (with_status status output error now) r
  unfolding with_status
  with_status-keeps status output error now r = elim (Bool-cases (is_terminal status)) [
    | inl t ↦ inl (rw t)
    | inr f ↦ inr (rw f (refl, refl))
  ]

  with_status-freed :
      (status : String) (output : Option p.Value) (error : Option String) (now : p.DateTime)
      (r : WorkflowStatus p)
      → is_terminal status ≡ true
      → (with_status status output error now r).dedup_id ≡ none
  unfolding with_status
  with_status-freed status output error now r t = rw t

  -- Moving a row to another status keeps the tables valid, whether it is refused or not.
  pub set_workflow_status-IsValid :
      (id status : String) (output : Option p.Value) (error : Option String) (now : p.DateTime)
      (g : Inner p)
      → IsValid g
      → IsValid (set_workflow_status id status output error now g).1
  unfolding set_workflow_status
  set_workflow_status-IsValid id status output error now g valid =
      elim (Option-cases (get id g.workflows)) [
        | inl absent ↦ rw (absent, set_workflow_status) valid
        | inr (row, found) ↦
            elim (Bool-cases (
              (status == status_success || status == status_error)
              && row.status == status_cancelled)) [
                | inl bad ↦ rw (found, bad, set_workflow_status) valid
                | inr good ↦
                    rw (found, good, set_workflow_status)
                      (update-IsValid id (with_status status output error now) g
                        (with_status-id status output error now)
                        (λ r h. with_status-keeps status output error now r) valid)
              ]
      ]

  -- Moving the holder of a slot to a terminal state, unless the move is refused, frees the slot: in
  -- valid tables, a row under a new id with that queue and deduplication id is then created.
  pub set_workflow_status-frees_slot :
      (queue dedup status id : String) (output : Option p.Value) (error : Option String)
      (now : p.DateTime) (row w : WorkflowStatus p) (g : Inner p)
      → IsValid g
      → get id g.workflows ≡ some row
      → holds_slot queue dedup row ≡ true
      → is_terminal status ≡ true
      → (set_workflow_status id status output error now g).0 ≡ ok tt
      → w.queue_name ≡ some queue
      → w.dedup_id ≡ some dedup
      → get w.id g.workflows ≡ none
      → (insert_workflow_status w (set_workflow_status id status output error now g).1).0
        ≡ ok (w, true)
  set_workflow_status-frees_slot queue dedup status id output error now row w g valid found holds
        terminal done q d fresh =
      rw (moved status id output error now row g found done)
        (ap (λ (r : Result p (WorkflowStatus p × Bool) × Inner p). r.0) (created w g1 free absent))
    where
      f : WorkflowStatus p → WorkflowStatus p
      f = with_status status output error now

      g1 : Inner p
      g1 = record g { workflows = update id f g.workflows }

      valid1 : IsValid g1
      valid1 =
          update-IsValid id f g (with_status-id status output error now)
            (λ r h. with_status-keeps status output error now r) valid

      absent : get w.id (update id f g.workflows) ≡ none
      absent = ground (arith, get-update w.id id f g.workflows)

      taken : conflict w.queue_name w.dedup_id w.id (values g1.workflows) ≡ true → ⊥
      taken h =
          let (v, there, hv, other) = row_of_conflict queue dedup w g1 valid1 q d h in
          elim (Bool-cases (id == v.id)) [
            | inl same ↦ elim (Option-cases (get v.id g.workflows)) [
              | inl none_there ↦ ground (arith, get-update v.id id f g.workflows)
              | inr (u, here) ↦
                  let e : f u ≡ v = ground (arith, get-update v.id id f g.workflows) in
                  let freed : v.dedup_id ≡ none =
                    sym (ap (λ (x : WorkflowStatus p). x.dedup_id) e)
                    ∙ with_status-freed status output error now u terminal in
                  ground (arith, freed, hv)
            ]
            | inr differ ↦
                let here : get v.id g.workflows ≡ some v =
                  ground (arith, get-update v.id id f g.workflows) in
                ground (
                  arith,
                  string_eq.eqb_iff id v.id,
                  valid.slots_unique id v.id queue dedup row v found here holds hv,
                )
          ]

      free : conflict w.queue_name w.dedup_id w.id (values g1.workflows) ≡ false
      free = elim (Bool-cases (conflict w.queue_name w.dedup_id w.id (values g1.workflows))) [
        | inl h ↦ absurd (taken h)
        | inr h ↦ h
      ]
