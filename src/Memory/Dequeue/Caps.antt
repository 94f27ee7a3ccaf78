-- ===== src/Memory/Dequeue/Caps.antt =====
-- src/memory.rs, `dequeue_workflows`: the bounds on the number of rows that a request may claim.
use durust.Base.{
  ℕ, ℤ, pos, pos_part, ◌-◌, ◌^◌, ◌≤◌, ◌<◌, Option, none, some, List, ◌≡◌, arith, ◌-ℤ◌, i64,
  i64_of_fits, countb,
}
use durust.Platform.{Platform}
use durust.Provider.{WorkflowStatus, DequeueRequest}
use durust.Memory.Dequeue.{cap_by, rate_cap, global_cap, allowed, recent_start, is_running}

cap_by-le : (bound : ℤ) (used : ℕ) (m : ℤ) → pos_part (cap_by bound used m) ≤ pos_part m
unfolding cap_by
cap_by-le bound used m = ground arith

-- In range the difference does not wrap, and at most `n - used` are left.
cap_by-le-sub :
    (n used : ℕ) (m : ℤ) → n < 2 ^ 63 → used < 2 ^ 63 → pos_part (cap_by (pos n) used m) ≤ n - used
unfolding cap_by ◌-ℤ◌
cap_by-le-sub n used m hn hu =
    ground
      (arith, i64_of_fits (pos used) (omega arith), i64_of_fits (pos n -ℤ pos used) (ground arith))

module _ {p : Platform} (req : DequeueRequest) (now_ms : ℤ) (rows : List (WorkflowStatus p)) where
  global_cap-le : (bound : Option ℤ) (m : ℤ) → pos_part (global_cap req rows bound m) ≤ pos_part m
  unfolding global_cap
  global_cap-le none m = omega arith
  global_cap-le (some b) m = cap_by-le b (countb (is_running req) rows) m

  rate_cap-le :
      (limit period : Option ℤ) (m : ℤ)
      → pos_part (rate_cap req now_ms rows limit period m) ≤ pos_part m
  unfolding rate_cap
  rate_cap-le (some l) (some t) m = cap_by-le l _ m
  rate_cap-le (some l) none m = omega arith
  rate_cap-le none t m = omega arith

  -- Never more than the request's own bound.
  pub allowed-le-max_tasks : pos_part (allowed req now_ms rows) ≤ pos_part req.max_tasks
  unfolding allowed
  allowed-le-max_tasks = omega (
    arith,
    global_cap-le req.global_concurrency
        (rate_cap req now_ms rows req.rate_limit_max req.rate_limit_period_ms req.max_tasks),
    rate_cap-le req.rate_limit_max req.rate_limit_period_ms req.max_tasks,
  )

  pub allowed-le-global :
      (n : ℕ)
      → req.global_concurrency ≡ some (pos n)
      → n < 2 ^ 63
      → countb (is_running req) rows < 2 ^ 63
      → pos_part (allowed req now_ms rows) ≤ n - countb (is_running req) rows
  unfolding allowed global_cap
  allowed-le-global n e hn hu = simp e (
      cap_by-le-sub n (countb (is_running req) rows)
        (rate_cap req now_ms rows req.rate_limit_max req.rate_limit_period_ms req.max_tasks) hn hu)

  pub allowed-le-rate :
      (n : ℕ) (period : ℤ)
      → req.rate_limit_max ≡ some (pos n)
      → req.rate_limit_period_ms ≡ some period
      → n < 2 ^ 63
      → countb (recent_start req (i64 (now_ms -ℤ period))) rows < 2 ^ 63
      → pos_part (allowed req now_ms rows)
        ≤ n - countb (recent_start req (i64 (now_ms -ℤ period))) rows
  unfolding allowed rate_cap
  allowed-le-rate n period e f hn hu =
      simp (e, f)
        (omega (
          arith,
          global_cap-le req.global_concurrency (
              cap_by (pos n) (countb (recent_start req (i64 (now_ms -ℤ period))) rows)
                req.max_tasks),
          cap_by-le-sub n (countb (recent_start req (i64 (now_ms -ℤ period))) rows) req.max_tasks hn
              hu,
        ))
