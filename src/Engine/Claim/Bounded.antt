-- ===== src/Engine/Claim/Bounded.antt =====
-- src/engine.rs, `queue_dispatch_loop`: the worker concurrency of one process.
use durust.Base.{
  ℕ, suc, ◌+◌, ◌-◌, ◌≤◌, ◌<◌, ◌^◌, pos, pos_part, i64_of_fits, leb_ℤ, String, Option, none, some,
  List, [], ◌∷◌, ◌≡◌, refl, string_eq, arith, inl, inr, Bool-cases, length,
}
use durust.Platform.{Platform}
use durust.Error.{ok}
use durust.Store.{get}
use durust.Provider.{WorkflowStatus}
use durust.Queue.{WorkflowQueue}
use durust.Memory.{Inner}
use durust.Memory.Invariant.{IsValid}
use durust.Memory.Dequeue.Laws.{dequeue-total}
use durust.Engine.{WorkflowFn, Runtime, registry_key}
use durust.Engine.Claim.{
  min_ℕ, task_limit, claim_request, released_or, spawned_with, spawn_claimed, spawn_all,
  claim_partition,
}

task_limit-le :
    (queue : WorkflowQueue) (wc local : ℕ)
    → queue.worker_concurrency ≡ some wc
    → queue.max_tasks_per_iteration < 2 ^ 63
    → (pos_part (task_limit queue local) ≤ wc - local)
      × (pos_part (task_limit queue local) ≤ queue.max_tasks_per_iteration)
unfolding task_limit
task_limit-le queue wc local bounded small = rw bounded (
    rw (i64_of_fits (pos (min_ℕ (wc - local) queue.max_tasks_per_iteration)) (ground arith))
      (ground arith))

module _ {p : Platform} where
  length-spawned_with :
      (handler : Option (WorkflowFn p)) (wf : WorkflowStatus p)
      (spawned : List (WorkflowFn p × WorkflowStatus p))
      → length (spawned_with handler wf spawned) ≤ suc (length spawned)
  unfolding spawned_with
  length-spawned_with none wf spawned = omega arith
  length-spawned_with (some f) wf spawned = omega arith

  length-spawn_claimed :
      (rt : Runtime p) (stamp : String → p.DateTime) (claimed : List (WorkflowStatus p))
      (g : Inner p)
      → length (spawn_claimed rt stamp claimed g).0 ≤ length claimed
  unfolding spawn_claimed
  length-spawn_claimed rt stamp [] g = omega arith
  length-spawn_claimed rt stamp (wf ∷ claimed) g =
      let handler = get (registry_key wf.name wf.config_name) rt.workflows in
      let g' = released_or handler wf.id (stamp wf.id) g in
      omega (
        arith,
        length-spawned_with handler wf (spawn_claimed rt stamp claimed g').0,
        length-spawn_claimed rt stamp claimed g',
      )

  -- Of a partition in which `local` runs are counted, this many are spawned at most.
  abbrev Fits : (limit local : ℕ) → List (WorkflowFn p × WorkflowStatus p) × ℕ × Inner p → Type 0
  Fits limit local r = (r.1 ≡ local + length r.0) × (length r.0 ≤ limit)

  spawn_all-Fits :
      (rt : Runtime p) (local : ℕ) (released : String → p.DateTime) (limit : ℕ)
      (claimed : List (WorkflowStatus p)) (g : Inner p)
      → length claimed ≤ limit
      → Fits limit local (spawn_all rt local released (ok claimed, g))
  unfolding spawn_all
  spawn_all-Fits rt local released limit claimed g few =
      (refl, omega (arith, few, length-spawn_claimed rt released claimed g))

  -- With a worker concurrency of `wc`, a pass over valid tables counts afterwards the runs that were
  -- there and those it started. It starts no more than `max_tasks_per_iteration`, and together they
  -- are at most `wc`, unless there were more before; then it starts none. The limit of an iteration is
  -- supposed to be below 2 ^ 63.
  pub claim_partition-worker_concurrency :
      (rt : Runtime p) (queue : WorkflowQueue) (pkey : Option String) (wc local : ℕ)
      (now : p.DateTime) (stamp released : String → p.DateTime) (g : Inner p)
      → IsValid g
      → queue.worker_concurrency ≡ some wc
      → queue.max_tasks_per_iteration < 2 ^ 63
      → let (spawned, count, g') = claim_partition rt queue pkey local now stamp released g in
        (count ≡ local + length spawned)
        × (length spawned ≤ wc - local)
        × (length spawned ≤ queue.max_tasks_per_iteration)
  unfolding claim_partition claim_request
  claim_partition-worker_concurrency rt queue pkey wc local now stamp released g valid bounded
        small =
      let le = task_limit-le queue wc local bounded small in
      elim (Bool-cases (leb_ℤ (task_limit queue local) (pos 0))) [
        | inl full ↦ rw full (omega arith, omega arith, omega arith)
        | inr room ↦
            let req = claim_request rt queue pkey (task_limit queue local) in
            let (claimed, ws, e, few) = dequeue-total req now stamp g valid in
            let fits =
              spawn_all-Fits rt local released (pos_part (task_limit queue local)) claimed
                (record g { workflows = ws }) few in
            rw (room, e) (fits.0, omega (arith, fits.1, le.0), omega (arith, fits.1, le.1))
      ]
