-- ===== src/Debounce.antt =====
-- src/debounce.rs: the options that reach a debounced workflow, and the collector that puts its run
-- off while new inputs come.
pub mod Collector
use durust.Base.{
  ℕ, ◌*◌, ◌-◌, ◌^◌, ℤ, pos, negsuc, pos_part, ◌+ℤ◌, ◌-ℤ◌, i64, leb_ℤ, ltb_ℤ, String, Bool, not,
  ◌&&◌, Option, none, some, List, [], ◌∷◌, ◌==◌, string_eq, option_map, if◌then◌else◌,
}
use durust.Platform.{Platform}
use durust.Engine.{WorkflowOptions, default_options, as_millis}

pub record TargetOptions : Type 0 where
  pub queue : Option String
  pub priority : ℤ
  pub partition_key : Option String
  pub app_version : Option String
  pub timeout_ms : Option ℤ
  pub authenticated_user : Option String
  pub assumed_role : Option String
  pub authenticated_roles : List String

unfoldable pub from_options : WorkflowOptions → TargetOptions
unfolding as_millis
from_options o = record {
  queue = o.queue;
  priority = o.priority;
  partition_key = o.partition_key;
  app_version = o.app_version;
  timeout_ms = option_map as_millis o.timeout;
  authenticated_user = o.authenticated_user;
  assumed_role = o.assumed_role;
  authenticated_roles = o.authenticated_roles;
}

-- `ms as u64`, for an `i64`.
abbrev pub as_u64 : ℤ → ℕ
as_u64 (pos n) = n
as_u64 (negsuc n) = 2 ^ 64 - 1 - n

-- A duration is in nanoseconds.
unfoldable pub into_options : TargetOptions → String → WorkflowOptions
into_options t target_id = record default_options {
  workflow_id = some target_id;
  queue = t.queue;
  priority = t.priority;
  partition_key = t.partition_key;
  app_version = t.app_version;
  timeout = option_map (λ ms. as_u64 ms * 1_000_000) t.timeout_ms;
  authenticated_user = t.authenticated_user;
  assumed_role = t.assumed_role;
  authenticated_roles = t.authenticated_roles;
}

pub record DebouncerInput (p : Platform) : Type 0 where
  pub target_name : String
  pub target_id : String
  pub delay_ms : ℤ
  pub timeout_ms : ℤ
  pub initial_input : p.Value
  pub target_opts : TargetOptions

pub record DebounceMessage (p : Platform) : Type 0 where
  pub input : p.Value
  pub delay_ms : ℤ
  pub id : String

-- One round of the loop: the instant that its step returns, and what its `recv` returns if it is
-- reached.
pub record Round (p : Platform) : Type 0 where
  pub now : ℤ
  pub received : Option (DebounceMessage p)

-- The event that acknowledges a message, before those of later ones.
abbrev pub acknowledged :
    {A : Type 0} → String → Option (A × List String) → Option (A × List String)
acknowledged {A} id rest =
    option_map (λ (r : A × List String). (r.0, if not (id == "") then id ∷ r.1 else r.1)) rest

module _ {p : Platform} where
  -- No instant after `start` and the timeout, if there is a timeout.
  unfoldable pub cap : DebouncerInput p → ℤ → ℤ → ℤ
  cap input start t =
      let max_ms = i64 (start +ℤ input.timeout_ms) in
      if ltb_ℤ (pos 0) input.timeout_ms && ltb_ℤ max_ms t then max_ms else t

  -- The input to run with, unless a message has come.
  abbrev pub received_or :
      Option (DebounceMessage p)
      → p.Value
      → (DebounceMessage p → Option (p.Value × List String))
      → Option (p.Value × List String)
  received_or none current more = some (current, [])
  received_or (some msg) current more = more msg

  -- The loop, over the rounds that it may take: the input that the target is run with, and the
  -- events that were set; none: it goes on.
  unfoldable pub collect :
      DebouncerInput p → ℤ → List (Round p) → p.Value → ℤ → Option (p.Value × List String)
  unfolding cap
  collect input start [] current target = none
  collect input start (r ∷ rounds) current target =
      if leb_ℤ (i64 (target -ℤ r.now)) (pos 0)
      then some (current, [])
      else received_or r.received current (λ msg.
        acknowledged msg.id
          (collect input start rounds msg.input (cap input start (i64 (r.now +ℤ msg.delay_ms)))))

  -- `internal_debouncer` up to the start of the target, from the instant of its first step.
  unfoldable pub internal_debouncer :
      DebouncerInput p → ℤ → List (Round p) → Option (p.Value × List String)
  unfolding collect
  internal_debouncer input start rounds =
      collect input start rounds input.initial_input
        (cap input start (i64 (start +ℤ input.delay_ms)))
