-- ===== src/Memory/Dequeue/Fair.antt =====
-- src/memory.rs, `dequeue_workflows`: the order of the claims, the tables after one, and two claims
-- in a row.
use mathlib.Core.Path.{subst}
use durust.Base.{
  pos_part, String, true, false, some, List, ◌≡◌, ◌≢◌, sym, ap, ◌∙◌, ◌==◌, string_eq, int_eq,
  pair_eq, arith, All, In, anyb, length, take, drop, length-take, All-In, In-take-drop, In-map,
  In-map_inv, anyb-In, lt-length_of_In-drop, inl, inr, Option-cases,
}
use durust.Base.Sorting.Order.{take-drop-le}
use durust.Platform.{Platform}
use durust.Error.{Result, ok}
use durust.Store.{get, values, Distinct}
use durust.Provider.{WorkflowStatus, DequeueRequest, status_enqueued, status_pending}
use durust.Memory.{Inner}
use durust.Memory.Invariant.{IsValid, KeepsSlot, HasUniqueSlots-step}
use durust.Memory.Dequeue.{
  Candidate, candidate_le, candidate_of, is_candidate, is_latest, allowed, candidates, claim_row,
  dequeue_workflows,
}
use durust.Memory.Dequeue.Order.{candidates-IsSorted}
use durust.Memory.Dequeue.Rows.{claim_all-IsKeyed, claim_all-Distinct}
use durust.Memory.Dequeue.Candidates.{candidates_complete}
use durust.Memory.Dequeue.Laws.{chosen, dequeue-claim_all, dequeue-loop, length-chosen, row_after}
use durust.Memory.Dequeue.Promises.{dequeue-claimed, chosen_of, claimable, same_ids}

pending-ne-enqueued : status_pending ≢ status_enqueued
pending-ne-enqueued e = cc

module _ {p : Platform} (req : DequeueRequest) (now : p.DateTime) (stamp : String → p.DateTime)
    (g : Inner p) (valid : IsValid g) {cs : List (WorkflowStatus p)} {g' : Inner p}
    (run : dequeue_workflows req now stamp g ≡ (ok cs, g')) where
  -- A row that the request might claim and does not.
  left_over :
      (j : String) (w : WorkflowStatus p)
      → get j g.workflows ≡ some w
      → is_candidate req (is_latest req g) w ≡ true
      → anyb (λ (v : WorkflowStatus p). v.id == w.id) cs ≡ false
      → In (candidate_of w) (
          drop
            (pos_part (allowed req (p.timestamp_millis now) (values g.workflows)))
            (candidates req g))
  left_over j w found test out =
      elim (In-take-drop (pos_part (allowed req (p.timestamp_millis now) (values g.workflows)))
        (candidate_of w) (candidates req g) (candidates_complete req g valid j w found test)) [
          | inl taken ↦
              let (v, m, q) =
                In-map_inv (λ (v : WorkflowStatus p). v.id) w.id cs
                  (rw (← same_ids req now stamp g valid run) at (
                    In-map (λ (d : Candidate). d.2) (candidate_of w) (chosen req now stamp g)
                      taken)) in
              absurd (
                ground (
                  arith,
                  anyb-In (λ (u : WorkflowStatus p). u.id == w.id) v cs m
                      ((string_eq.eqb_iff v.id w.id).1 (sym q)),
                ))
          | inr left ↦ left
        ]

  same_candidate :
      (v : WorkflowStatus p)
      → In v cs
      → (old : WorkflowStatus p) → get v.id g.workflows ≡ some old
      → candidate_of old ≡ candidate_of v
  same_candidate v m old found =
      let (old', found', stored, made) = dequeue-claimed req now stamp g valid run v m in
      let same : old ≡ old' = ground arith in
      ap candidate_of same ∙ (λ i.
        (sym made.same_order.0 i, p.timestamp_millis (sym made.same_order.1 i), sym made.same_id i))

  pub dequeue_best_first :
      (j : String) (w v : WorkflowStatus p)
      → get j g.workflows ≡ some w
      → is_candidate req (is_latest req g) w ≡ true
      → anyb (λ (u : WorkflowStatus p). u.id == w.id) cs ≡ false
      → In v cs
      → (candidate_le (candidate_of v) (candidate_of w) ≡ true)
        × (length cs ≡ pos_part (allowed req (p.timestamp_millis now) (values g.workflows)))
  dequeue_best_first j w v found test out m =
      let n = pos_part (allowed req (p.timestamp_millis now) (values g.workflows)) in
      let left = left_over j w found test out in
      let (c, k, e) = chosen_of req now stamp g valid run v m in
      let (old, here, may, same) = claimable req now stamp g valid run c k in
      let before : candidate_le c (candidate_of w) ≡ true =
        All-In (λ (d : Candidate). candidate_le c d ≡ true) (candidate_of w)
          (drop n (candidates req g))
          (All-In
            (λ (x : Candidate).
              All (λ (d : Candidate). candidate_le x d ≡ true) (drop n (candidates req g)))
            c (take n (candidates req g))
            (take-drop-le candidate_le n (candidates req g) (candidates-IsSorted req g)) k)
          left in
      (
        subst (λ (d : Candidate). candidate_le d (candidate_of w) ≡ true)
            (sym same ∙ same_candidate v m old (ap (λ i. get i g.workflows) e ∙ here)) before,
        omega (
          arith,
          length-chosen req now stamp g valid run,
          length-take n (candidates req g),
          lt-length_of_In-drop n (candidate_of w) (candidates req g) left,
        ),
      )

  slot_kept :
      (j : String) (v : WorkflowStatus p) → get j g'.workflows ≡ some v → KeepsSlot g.workflows j v
  unfolding claim_row
  slot_kept j v found = elim (Option-cases (get j g.workflows)) [
    | inl absent ↦ absurd (ground (arith, row_after req now stamp g valid run j))
    | inr (old, here) ↦ inr (
      old,
      here,
      ground (arith, row_after req now stamp g valid run j),
      ground (arith, row_after req now stamp g valid run j),
    )
  ]

  steps_same : g.steps ≡ g'.steps
  steps_same =
      ap (λ (r : Result p (List (WorkflowStatus p)) × Inner p). r.1.steps)
        (sym (dequeue-claim_all req now stamp g) ∙ run)

  -- A dequeue keeps the tables valid.
  pub dequeue-IsValid : IsValid g'
  dequeue-IsValid = record {
    keyed =
        claim_all-IsKeyed req (p.timestamp_millis now) stamp (chosen req now stamp g) g.workflows
          valid.keyed (dequeue-loop req now stamp g valid run);
    rows_distinct =
        claim_all-Distinct req (p.timestamp_millis now) stamp (chosen req now stamp g) g.workflows
          valid.rows_distinct (dequeue-loop req now stamp g valid run);
    slots_unique = HasUniqueSlots-step g.workflows g'.workflows slot_kept valid.slots_unique;
    steps_distinct = subst (Distinct ⦃e = pair_eq⦄) steps_same valid.steps_distinct;
  }

-- Of two claims, one after the other on valid tables and with no other write between them, the
-- second never returns a row that the first returned, whichever executors and queues they are for.
pub dequeue-disjoint :
    {p : Platform} (req req' : DequeueRequest) (now now' : p.DateTime)
    (stamp stamp' : String → p.DateTime) (g : Inner p) {cs ds : List (WorkflowStatus p)}
    {g' g'' : Inner p}
    → IsValid g
    → dequeue_workflows req now stamp g ≡ (ok cs, g')
    → dequeue_workflows req' now' stamp' g' ≡ (ok ds, g'')
    → (v w : WorkflowStatus p) → In v cs
    → In w ds
    → v.id ≢ w.id
dequeue-disjoint {p} req req' now now' stamp stamp' g {g'} valid run run' v w mv mw same =
    let (old, before, after, made) = dequeue-claimed req now stamp g valid run v mv in
    let (old', before', after', made') =
      dequeue-claimed req' now' stamp' g' (dequeue-IsValid req now stamp g valid run) run' w mw in
    let one : v ≡ old' = ground (arith, ap (λ i. get i g'.workflows) same) in
    let waiting : v.status ≡ status_enqueued =
      ap (λ (r : WorkflowStatus p). r.status) one ∙ made'.was_enqueued in
    pending-ne-enqueued (sym made.now_pending ∙ waiting)
