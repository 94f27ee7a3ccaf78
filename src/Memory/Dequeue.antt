-- ===== src/Memory/Dequeue.antt =====
-- src/memory.rs: claiming work from a queue, and the partitions that have some.
pub mod Order
pub mod Claim
pub mod Caps
pub mod Candidates
pub mod Rows
pub mod Laws
pub mod Promises
pub mod Limits
pub mod Fair
use durust.Base.{
  ℕ, ℤ, pos, pos_part, String, Bool, true, false, not, ◌&&◌, ◌||◌, Option, none, some, List, [],
  ◌∷◌, map, ◌==◌, string_eq, ◌+ℤ◌, ◌-ℤ◌, i64, ltb_ℤ, leb_ℤ, min_ℤ, max_ℤ, filterb, countb, take,
  is_none, is_some, is_some_and, is_none_or, is_some_of, opt_eq, option_map, if◌then◌else◌,
}
use durust.Base.Sorting.{sort, text_le}
use durust.Platform.{Platform}
use durust.Error.{Result, ok, err, panicked}
use durust.Store.{HashMap, get, update, values}
use durust.Provider.{
  WorkflowStatus, VersionInfo, DequeueRequest, status_enqueued, status_delayed, status_pending,
}
use durust.Memory.{Inner}

-- The tuple that `ids.sort()` compares: priority, creation time, id.
abbrev pub Candidate : Type 0
Candidate = ℤ × ℤ × String

-- The first component decides, unless the two are equal.
abbrev pub lex : ℤ → ℤ → Bool → Bool
lex a a' rest = if ltb_ℤ a a' then true else if ltb_ℤ a' a then false else rest

unfoldable pub candidate_le : Candidate → Candidate → Bool
candidate_le (a, b, c) (a', b', c') = lex a a' (lex b b' (text_le c c'))

-- `keys.dedup()`: a run of equal neighbours becomes one.
unfoldable pub dedup : List String → List String
dedup [] = []
dedup (x ∷ []) = x ∷ []
dedup (x ∷ y ∷ ys) = let rest = dedup (y ∷ ys) in if x == y then rest else x ∷ rest

-- `max_tasks.min((bound - used).max(0))`
unfoldable pub cap_by : ℤ → ℕ → ℤ → ℤ
cap_by bound used max_tasks = min_ℤ max_tasks (max_ℤ (i64 (bound -ℤ i64 (pos used))) (pos 0))

module _ {p : Platform} where
  abbrev pub in_partition : DequeueRequest → WorkflowStatus p → Bool
  in_partition req w = is_none req.partition_key || opt_eq w.queue_partition_key req.partition_key

  -- The rows that a request is about: those of its queue and partition.
  abbrev pub in_scope : DequeueRequest → WorkflowStatus p → Bool
  in_scope req w = is_some_of w.queue_name req.queue_name && in_partition req w

  -- A rate-limited start within the trailing window.
  unfoldable pub recent_start : DequeueRequest → ℤ → WorkflowStatus p → Bool
  recent_start req cutoff w =
      in_scope req w
      && w.rate_limited
      && not (w.status == status_enqueued)
      && not (w.status == status_delayed)
      && is_some_and w.started_at_ms (λ t. ltb_ℤ cutoff t)

  abbrev pub is_running : DequeueRequest → WorkflowStatus p → Bool
  is_running req w = in_scope req w && w.status == status_pending

  unfoldable pub rate_cap :
      DequeueRequest → ℤ → List (WorkflowStatus p) → Option ℤ → Option ℤ → ℤ → ℤ
  unfolding cap_by
  rate_cap req now_ms rows (some limit) (some period_ms) max_tasks =
      cap_by limit (countb (recent_start req (i64 (now_ms -ℤ period_ms))) rows) max_tasks
  rate_cap req now_ms rows _ _ max_tasks = max_tasks

  unfoldable pub global_cap : DequeueRequest → List (WorkflowStatus p) → Option ℤ → ℤ → ℤ
  unfolding cap_by
  global_cap req rows (some global) max_tasks =
      cap_by global (countb (is_running req) rows) max_tasks
  global_cap req rows none max_tasks = max_tasks

  -- How many rows this request may claim.
  unfoldable pub allowed : DequeueRequest → ℤ → List (WorkflowStatus p) → ℤ
  unfolding rate_cap global_cap
  allowed req now_ms rows =
      global_cap req rows req.global_concurrency
        (rate_cap req now_ms rows req.rate_limit_max req.rate_limit_period_ms req.max_tasks)

  -- `max_by_key(|v| v.version_timestamp)`: of several, the last.
  unfoldable pub newest : Option (VersionInfo p) → List (VersionInfo p) → Option (VersionInfo p)
  newest best [] = best
  newest none (v ∷ vs) = newest (some v) vs
  newest (some b) (v ∷ vs) =
      newest (some (if p.leb_time b.version_timestamp v.version_timestamp then v else b)) vs

  abbrev pub is_latest : DequeueRequest → Inner p → Bool
  is_latest req g =
      is_none_or (newest none (values g.versions))
        (λ latest. latest.version_name == req.app_version)

  unfoldable pub is_candidate : DequeueRequest → Bool → WorkflowStatus p → Bool
  is_candidate req latest w =
      in_scope req w
      && w.status == status_enqueued
      && (w.app_version == req.app_version || (w.app_version == "" && latest))

  abbrev pub candidate_of : WorkflowStatus p → Candidate
  candidate_of w = (w.priority, p.timestamp_millis w.created_at, w.id)

  -- The candidates, best first.
  unfoldable pub candidates : DequeueRequest → Inner p → List Candidate
  unfolding is_candidate
  candidates req g =
      sort candidate_le
        (map candidate_of (filterb (is_candidate req (is_latest req g)) (values g.workflows)))

  unfoldable pub claim_row : DequeueRequest → ℤ → p.DateTime → WorkflowStatus p → WorkflowStatus p
  claim_row req now_ms now w = record w {
    status = status_pending;
    executor_id = req.executor_id;
    app_version = req.app_version;
    started_at_ms = some now_ms;
    rate_limited = is_some req.rate_limit_max;
    deadline_ms =
        if is_none w.deadline_ms
        then option_map (λ t. i64 (now_ms +ℤ t)) w.timeout_ms
        else w.deadline_ms;
    updated_at = now;
  }

  -- `claimed.push(w)`, before what the later rounds push.
  abbrev pub prepend :
      WorkflowStatus p
      → Result p (List (WorkflowStatus p)) × HashMap String (WorkflowStatus p)
      → Result p (List (WorkflowStatus p)) × HashMap String (WorkflowStatus p)
  prepend w (ok claimed, ws) = (ok (w ∷ claimed), ws)
  prepend w (err e, ws) = (err e, ws)
  prepend w (panicked, ws) = (panicked, ws)

  -- The claiming loop; `expect` panics on an id with no row.
  unfoldable pub claim_all :
      DequeueRequest
      → ℤ
      → (String → p.DateTime)
      → List Candidate
      → HashMap String (WorkflowStatus p)
      → Result p (List (WorkflowStatus p)) × HashMap String (WorkflowStatus p)
  claim_all req now_ms stamp [] ws = (ok [], ws)
  claim_all req now_ms stamp ((_, _, id) ∷ ids) ws = elim (get id ws) [
    | none ↦ (panicked, ws)
    | some w ↦
        let f = claim_row req now_ms (stamp id) in
        prepend (f w) (claim_all req now_ms stamp ids (update id f ws))
  ]

  -- `now` is the clock at the start, `stamp id` at the claim of that id.
  unfoldable pub dequeue_workflows :
      DequeueRequest
      → p.DateTime
      → (String → p.DateTime)
      → Inner p
      → Result p (List (WorkflowStatus p)) × Inner p
  unfolding allowed candidates claim_all
  dequeue_workflows req now stamp g =
      let now_ms = p.timestamp_millis now in
      let max_tasks = allowed req now_ms (values g.workflows) in
      if leb_ℤ max_tasks (pos 0)
      then (ok [], g)
      else let (r, ws) =
          claim_all req now_ms stamp (take (pos_part max_tasks) (candidates req g)) g.workflows in
        (r, record g { workflows = ws })

  abbrev pub partition_keys : List (WorkflowStatus p) → List String
  partition_keys [] = []
  partition_keys (w ∷ ws) = elim w.queue_partition_key [
    | none ↦ partition_keys ws
    | some k ↦ k ∷ partition_keys ws
  ]

  unfoldable pub queue_partitions : String → Inner p → List String
  queue_partitions queue_name g = dedup (
      sort text_le (
        partition_keys (
          filterb (λ w. is_some_of w.queue_name queue_name && w.status == status_enqueued)
            (values g.workflows))))
