-- ===== src/Memory/Mailbox.antt =====
-- src/memory.rs: notifications, sent to a workflow on a topic and consumed once.
pub mod Laws
pub mod Once
use Prim.Native.String.{◌++◌ as text_append}
use durust.Base.{
  ℤ, String, Bool, true, false, not, ◌&&◌, ◌||◌, Option, none, some, List, [], ◌∷◌, ◌++◌, map, ◌==◌,
  string_eq, leb_ℤ, filterb, anyb, is_some, unwrap_or, if◌then◌else◌,
}
use durust.Base.Sorting.{sort}
use durust.Platform.{Platform}
use durust.Error.{Result, ok, err, nonexistent_workflow}
use durust.Store.{contains_key}
use durust.Provider.{NotificationInfo}
use durust.Memory.{NotificationRow, StepRow, Inner}
use durust.Memory.Steps.{enter_step, named_row}

-- `format!("{k}::{destination_id}")`, or a fresh id.
abbrev pub message_uuid : Option String → String → String → String
message_uuid none destination_id fresh = fresh
message_uuid (some k) destination_id fresh = text_append k (text_append "::" destination_id)

-- A row with the rows before and after it.
abbrev pub Split : Platform → Type 0
Split p = List (NotificationRow p) × NotificationRow p × List (NotificationRow p)

module _ {p : Platform} where
  -- `fresh` is the new uuid of an unkeyed send.
  unfoldable pub insert_notification :
      String
      → String
      → p.Value
      → Option String
      → String
      → p.DateTime
      → Inner p
      → Result p (Unit {0}) × Inner p
  insert_notification destination_id topic message idempotency_key fresh now g =
      let uuid = message_uuid idempotency_key destination_id fresh in
      if not (contains_key destination_id g.workflows)
      then (err (nonexistent_workflow destination_id), g)
      else if is_some idempotency_key
          && anyb (λ (n : NotificationRow p). n.message_uuid == uuid) g.notifications
      then (ok tt, g)
      else (
        ok tt,
        record g {
          notifications =
              g.notifications
              ++ record {
                message_uuid = uuid;
                destination_id = destination_id;
                topic = topic;
                message = message;
                consumed = false;
                created_at_ms = p.timestamp_millis now;
              }
                ∷ [];
        },
      )

  -- An unconsumed message for the workflow on the topic.
  abbrev pub is_waiting : String → String → NotificationRow p → Bool
  is_waiting workflow_id topic n =
      not n.consumed && n.destination_id == workflow_id && n.topic == topic

  -- `min_by_key(created_at_ms)` over the waiting rows, the first of several, with the rows before
  -- and after it.
  unfoldable pub oldest : String → String → List (NotificationRow p) → Option (Split p)
  oldest workflow_id topic [] = none
  oldest workflow_id topic (n ∷ rest) =
      let later = oldest workflow_id topic rest in
      if is_waiting workflow_id topic n
      then elim later [
        | none ↦ some ([], n, rest)
        | some (pre, m, post) ↦
            if leb_ℤ n.created_at_ms m.created_at_ms
            then some ([], n, rest)
            else some (n ∷ pre, m, post)
      ]
      else elim later [ none ↦ none | some (pre, m, post) ↦ some (n ∷ pre, m, post) ]

  unfoldable pub consume_notification :
      String → String → ℤ → String → Inner p → Option p.Value × Inner p
  unfolding oldest enter_step
  consume_notification workflow_id topic seq step_name g =
      elim (oldest workflow_id topic g.notifications) [
        | none ↦ (none, g)
        | some (pre, row, post) ↦
            let (step, steps) =
              enter_step workflow_id seq
                (record (named_row step_name) { output = some row.message }) g.steps in
            (
              some (unwrap_or step.output p.null),
              record g {
                notifications = pre ++ record row { consumed = true } ∷ post;
                steps = steps;
              },
            )
      ]

  abbrev pub notification_info : NotificationRow p → NotificationInfo p
  notification_info n = record {
    topic = if n.topic == "" then none else some n.topic;
    message = n.message;
    created_at_ms = n.created_at_ms;
    consumed = n.consumed;
  }

  unfoldable pub list_workflow_notifications : String → Inner p → List (NotificationInfo p)
  list_workflow_notifications workflow_id g = map notification_info (
      sort (λ (a b : NotificationRow p). leb_ℤ a.created_at_ms b.created_at_ms)
        (filterb (λ (n : NotificationRow p). n.destination_id == workflow_id) g.notifications))
