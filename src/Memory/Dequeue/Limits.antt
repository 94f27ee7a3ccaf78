-- ===== src/Memory/Dequeue/Limits.antt =====
-- src/memory.rs, `dequeue_workflows`: the concurrency across the queue and the rate of starts.
use Prim.Native.Nat.{max}
use durust.Base.{
  ℕ, ℤ, pos, Bool, ◌+◌, ◌^◌, ◌≤◌, ◌<◌, String, some, List, ◌≡◌, arith, ◌-ℤ◌, i64, countb,
  length-take, pos_part,
}
use durust.Platform.{Platform}
use durust.Error.{ok}
use durust.Store.{values}
use durust.Provider.{WorkflowStatus, DequeueRequest}
use durust.Memory.{Inner}
use durust.Memory.Invariant.{IsValid}
use durust.Memory.Dequeue.{is_running, recent_start, allowed, candidates, dequeue_workflows}
use durust.Memory.Dequeue.Claim.{countb-claim_all}
use durust.Memory.Dequeue.Caps.{allowed-le-global, allowed-le-rate}
use durust.Memory.Dequeue.Laws.{chosen, dequeue-loop}

module _ {p : Platform} (req : DequeueRequest) (now : p.DateTime) (stamp : String → p.DateTime)
    (g : Inner p) (valid : IsValid g) {cs : List (WorkflowStatus p)} {g' : Inner p}
    (run : dequeue_workflows req now stamp g ≡ (ok cs, g')) where
  -- The rows that pass a test grow by at most as many as may be claimed.
  growth :
      (test : WorkflowStatus p → Bool)
      → countb test (values g'.workflows)
        ≤ countb test (values g.workflows)
          + pos_part (allowed req (p.timestamp_millis now) (values g.workflows))
  growth test = omega (
    arith,
    countb-claim_all req (p.timestamp_millis now) stamp test (chosen req now stamp g) g.workflows
        (dequeue-loop req now stamp g valid run),
    length-take (pos_part (allowed req (p.timestamp_millis now) (values g.workflows)))
        (candidates req g),
  )

  -- With a global concurrency of n, a dequeue that meets at most n running rows (PENDING, in the
  -- queue and partition of the request) leaves at most n; where more than n run already, it starts
  -- none. The number of running rows and n are supposed to fit an i64.
  pub dequeue-global_concurrency :
      (n : ℕ)
      → req.global_concurrency ≡ some (pos n)
      → n < 2 ^ 63
      → countb (is_running req) (values g.workflows) < 2 ^ 63
      → countb (is_running req) (values g'.workflows)
        ≤ max n (countb (is_running req) (values g.workflows))
  dequeue-global_concurrency n e hn hu = omega (
    arith,
    growth (is_running req),
    allowed-le-global req (p.timestamp_millis now) (values g.workflows) n e hn hu,
  )

  pub dequeue-rate_limit :
      (n : ℕ) (period : ℤ)
      → req.rate_limit_max ≡ some (pos n)
      → req.rate_limit_period_ms ≡ some period
      → n < 2 ^ 63
      → countb (recent_start req (i64 (p.timestamp_millis now -ℤ period))) (values g.workflows)
        < 2 ^ 63
      → countb (recent_start req (i64 (p.timestamp_millis now -ℤ period))) (values g'.workflows)
        ≤ max n (
            countb (recent_start req (i64 (p.timestamp_millis now -ℤ period))) (values g.workflows))
  dequeue-rate_limit n period e f hn hu = omega (
    arith,
    growth (recent_start req (i64 (p.timestamp_millis now -ℤ period))),
    allowed-le-rate req (p.timestamp_millis now) (values g.workflows) n period e f hn hu,
  )
