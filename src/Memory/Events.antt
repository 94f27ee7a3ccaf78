-- ===== src/Memory/Events.antt =====
-- src/memory.rs: the events of a workflow, one value for each key.
use durust.Base.{String, Option, List, map, ◌==◌, string_eq, pair_eq, filterb}
use durust.Base.Sorting.{sort, text_le}
use durust.Platform.{Platform}
use durust.Store.{get, insert}
use durust.Memory.{Inner}

module _ {p : Platform} where
  unfoldable pub upsert_event : String → String → p.Value → Inner p → Inner p
  upsert_event workflow_id key value g = record g {
    events = insert (workflow_id, key) value g.events;
  }

  unfoldable pub get_event_value : String → String → Inner p → Option p.Value
  get_event_value workflow_id key g = get (workflow_id, key) g.events

  unfoldable pub list_workflow_events : String → Inner p → List (String × p.Value)
  list_workflow_events workflow_id g =
      sort (λ (a b : String × p.Value). text_le a.0 b.0)
        (map (λ (e : (String × String) × p.Value). (e.0.1, e.1))
          (filterb (λ (e : (String × String) × p.Value). e.0.0 == workflow_id) g.events))
