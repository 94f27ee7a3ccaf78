-- ===== src/Engine/Recover/Requeues.antt =====
-- src/engine.rs, `dispatch_pending_workflows` at one workflow that was claimed off a queue.
use durust.Base.{
  ℤ, pos, ◌+ℤ◌, i32, ltb_ℤ, String, Bool, true, false, none, some, ◌≡◌, refl, ap, ◌∙◌, string_eq,
  ==_refl, arith,
}
use durust.Platform.{Platform}
use durust.Error.{ok}
use durust.Store.{get, update}
use durust.Store.Laws.{get-update}
use durust.Provider.{
  WorkflowStatus, DequeueRequest, is_terminal, status_enqueued,
  status_max_recovery_attempts_exceeded,
}
use durust.Memory.{Inner}
use durust.Memory.Lifecycle.{with_status, set_workflow_status, bump_row, bump_recovery_attempts}
use durust.Memory.Dequeue.{in_scope, is_candidate, candidate_of}
use durust.Engine.{Runtime}
use durust.Engine.Recover.{parked, requeued, Visit, fated, redispatch, recover_one}

module _ {p : Platform} where
  bumped :
      (id : String) (max : ℤ) (now : p.DateTime) (row : WorkflowStatus p) (g : Inner p)
      → get id g.workflows ≡ some row
      → (bump_recovery_attempts id max now g ≡ (
        (bump_row max now row).recovery_attempts,
        record g { workflows = update id (bump_row max now) g.workflows },
      ))
        × (get id (update id (bump_row max now) g.workflows) ≡ some (bump_row max now row))
  unfolding bump_recovery_attempts
  bumped id max now row g there = (
    rw (there, bump_recovery_attempts),
    ground (arith, get-update id id (bump_row max now) g.workflows, ==_refl id, there),
  )

  past :
      (max : ℤ) (now : p.DateTime) (row : WorkflowStatus p)
      → ltb_ℤ max (i32 (row.recovery_attempts +ℤ pos 1)) ≡ true
      → ((bump_row max now row).recovery_attempts ≡ i32 (row.recovery_attempts +ℤ pos 1))
        × ((bump_row max now row).status ≡ status_max_recovery_attempts_exceeded)
        × ((bump_row max now row).dedup_id ≡ none)
  unfolding bump_row
  past max now row h = rw h (refl, refl, refl)

  within :
      (max : ℤ) (now : p.DateTime) (row : WorkflowStatus p)
      → ltb_ℤ max (i32 (row.recovery_attempts +ℤ pos 1)) ≡ false
      → bump_row max now row
        ≡ record row { recovery_attempts = i32 (row.recovery_attempts +ℤ pos 1) }
  unfolding bump_row
  within max now row h = rw h

  -- The row that is back on its queue.
  back : p.DateTime → WorkflowStatus p → WorkflowStatus p
  back now row = with_status status_enqueued none none now row

  put_back :
      (id : String) (now : p.DateTime) (row : WorkflowStatus p) (g : Inner p)
      → get id g.workflows ≡ some row
      → (set_workflow_status id status_enqueued none none now g
          ≡ (ok tt, record g { workflows = update id (back now) g.workflows }))
        × (get id (update id (back now) g.workflows) ≡ some (back now row))
  unfolding set_workflow_status back
  put_back id now row g there = (
    rw (there, set_workflow_status),
    ground (
      arith,
      get-update id id (with_status status_enqueued none none now) g.workflows,
      ==_refl id,
      there,
    ),
  )

  waits :
      (now : p.DateTime) (row : WorkflowStatus p) (req : DequeueRequest) (latest : Bool)
      → in_scope req row ≡ true
      → row.app_version ≡ req.app_version
      → is_candidate req latest (back now row) ≡ true
  unfolding back with_status is_candidate is_terminal
  waits now row req latest scoped version = rw (version, ==_refl req.app_version) (ground arith)

  parked_lem :
      (rt : Runtime p) (max : ℤ) (visit : Visit p) (w : WorkflowStatus p) (g : Inner p)
      → get w.id g.workflows ≡ some w
      → ltb_ℤ max (i32 (w.recovery_attempts +ℤ pos 1)) ≡ true
      → recover_one rt max visit w g ≡ (
        ok parked,
        record g { workflows = update w.id (bump_row max visit.bumped_at) g.workflows },
      )
  unfolding recover_one
  parked_lem rt max visit w g there h =
      let (e, at) = bumped w.id max visit.bumped_at w g there in
      rw (e, recover_one) (rw ((past max visit.bumped_at w h).0, h))

  requeued_lem :
      (rt : Runtime p) (max : ℤ) (visit : Visit p) (w : WorkflowStatus p) (queue : String)
      (g : Inner p)
      → get w.id g.workflows ≡ some w
      → w.queue_name ≡ some queue
      → ltb_ℤ max (i32 (w.recovery_attempts +ℤ pos 1)) ≡ false
      → recover_one rt max visit w g ≡ (
        ok requeued,
        record g {
          workflows =
              update w.id (back visit.now) (update w.id (bump_row max visit.bumped_at) g.workflows);
        },
      )
  unfolding recover_one redispatch
  requeued_lem rt max visit w queue g there queued h =
      let (e, at) = bumped w.id max visit.bumped_at w g there in
      let same : (bump_row max visit.bumped_at w).recovery_attempts
          ≡ i32 (w.recovery_attempts +ℤ pos 1) =
        ap (λ (r : WorkflowStatus p). r.recovery_attempts) (within max visit.bumped_at w h) in
      let g1 : Inner p = record g {
        workflows = update w.id (bump_row max visit.bumped_at) g.workflows;
      } in
      rw (e, recover_one)
        (rw (same, h, queued)
          (ap (fated requeued) (put_back w.id visit.now (bump_row max visit.bumped_at w) g1 at).0))

  -- Recovery at a workflow that was claimed off a queue, with its row as it was listed. Within the
  -- limit of recoveries it is requeued: its row is a candidate again for every dequeue of its queue,
  -- partition and version, at its old place in the order and in its old deduplication slot, with one
  -- attempt more. Past the limit it is parked and gives up its slot.
  pub recover_one-requeues :
      (rt : Runtime p) (max : ℤ) (visit : Visit p) (w : WorkflowStatus p) (queue : String)
      (g : Inner p)
      → get w.id g.workflows ≡ some w
      → w.queue_name ≡ some queue
      → (ltb_ℤ max (i32 (w.recovery_attempts +ℤ pos 1)) ≡ false
          → ((recover_one rt max visit w g).0 ≡ ok requeued)
            × ((row : WorkflowStatus p) × (get w.id (recover_one rt max visit w g).1.workflows
                  ≡ some row)
                × ((req : DequeueRequest) (latest : Bool)
                    → in_scope req w ≡ true
                    → w.app_version ≡ req.app_version
                    → is_candidate req latest row ≡ true)
                × (candidate_of row ≡ candidate_of w)
                × (row.dedup_id ≡ w.dedup_id)
                × (row.recovery_attempts ≡ i32 (w.recovery_attempts +ℤ pos 1))))
        × (ltb_ℤ max (i32 (w.recovery_attempts +ℤ pos 1)) ≡ true
            → ((recover_one rt max visit w g).0 ≡ ok parked)
              × ((row : WorkflowStatus p) × (get w.id (recover_one rt max visit w g).1.workflows
                    ≡ some row)
                  × (row.status ≡ status_max_recovery_attempts_exceeded)
                  × (row.dedup_id ≡ none)))
  unfolding back with_status is_terminal
  recover_one-requeues rt max visit w queue g there queued = (
    λ h.
        let more : WorkflowStatus p = record w {
          recovery_attempts = i32 (w.recovery_attempts +ℤ pos 1);
        } in
        let e = requeued_lem rt max visit w queue g there queued h in
        let at = (bumped w.id max visit.bumped_at w g there).1 in
        let g1 : Inner p = record g {
          workflows = update w.id (bump_row max visit.bumped_at) g.workflows;
        } in
        (
          rw e,
          (
            back visit.now more,
            rw e (
                (put_back w.id visit.now (bump_row max visit.bumped_at w) g1 at).1
                ∙ ap (λ (r : WorkflowStatus p). some (back visit.now r))
                    (within max visit.bumped_at w h)),
            λ req latest scoped version. waits visit.now more req latest scoped version,
            refl,
            refl,
            refl,
          ),
        ),
    λ h.
        let e = parked_lem rt max visit w g there h in
        let (counted, is_parked, freed) = past max visit.bumped_at w h in
        (
          rw e,
          (
            bump_row max visit.bumped_at w,
            rw e (bumped w.id max visit.bumped_at w g there).1,
            is_parked,
            freed,
          ),
        ),
  )
