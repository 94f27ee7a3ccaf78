-- ===== src/Memory/Queues.antt =====
-- src/memory.rs: the persisted queue configurations, by name.
use durust.Base.{Bool, not, ◌||◌, List, string_eq, if◌then◌else◌}
use durust.Base.Sorting.{sort, text_le}
use durust.Platform.{Platform}
use durust.Store.{contains_key, insert, values}
use durust.Queue.{WorkflowQueue}
use durust.Memory.{Inner}

module _ {p : Platform} where
  unfoldable pub upsert_queue : WorkflowQueue → Bool → Inner p → Inner p
  upsert_queue queue update_existing g =
      if update_existing || not (contains_key queue.name g.queues)
      then record g { queues = insert queue.name queue g.queues }
      else g

  unfoldable pub list_queues : Inner p → List WorkflowQueue
  list_queues g = sort (λ (a b : WorkflowQueue). text_le a.name b.name) (values g.queues)
