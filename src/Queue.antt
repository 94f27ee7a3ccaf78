-- ===== src/Queue.antt =====
-- src/queue.rs: a queue's configuration. A `Duration` is its count of nanoseconds.
use durust.Base.{ℕ, ℤ, String, Bool, false, Option, none}

pub record RateLimiter : Type 0 where
  pub limit : ℤ
  pub period : ℕ

pub record WorkflowQueue : Type 0 where
  pub name : String
  pub worker_concurrency : Option ℕ
  pub global_concurrency : Option ℤ
  pub priority_enabled : Bool
  pub rate_limit : Option RateLimiter
  pub max_tasks_per_iteration : ℕ
  pub partitioned : Bool
  pub base_polling_interval : ℕ
  pub max_polling_interval : ℕ

-- `WorkflowQueue::new`
abbrev pub new_queue : String → WorkflowQueue
new_queue name = record {
  name = name;
  worker_concurrency = none;
  global_concurrency = none;
  priority_enabled = false;
  rate_limit = none;
  max_tasks_per_iteration = 100;
  partitioned = false;
  base_polling_interval = 1_000_000_000;
  max_polling_interval = 120_000_000_000;
}
