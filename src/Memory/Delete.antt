-- ===== src/Memory/Delete.antt =====
-- src/memory.rs: deleting workflows, with their descendants if asked.
pub mod Targets
pub mod Closed
pub mod Laws
use durust.Base.{
  ℕ, zero, suc, ◌+◌, ℤ, String, Bool, true, false, not, ◌&&◌, Option, none, some, List, [], ◌∷◌,
  ◌++◌, ◌==◌, string_eq, int_eq, pair_eq, filterb, length, contains, get_elem?, is_some_of,
  option_map, if◌then◌else◌,
}
use durust.Platform.{Platform}
use durust.Store.{HashMap, remove, retain}
use durust.Provider.{WorkflowStatus}
use durust.Memory.{NotificationRow, Inner}

module _ {p : Platform} where
  -- The inner loop: push each child of `parent` that is not a target yet.
  unfoldable pub push_children :
      String → HashMap String (WorkflowStatus p) → List String → List String
  push_children parent [] targets = targets
  push_children parent ((cid, row) ∷ ws) targets = push_children parent ws (
      if is_some_of row.parent_workflow_id parent && not (contains targets cid)
      then targets ++ cid ∷ []
      else targets)

  -- `while i < targets.len()`, on fuel; `none` means that the fuel ran out.
  unfoldable pub descendants :
      ℕ → ℕ → HashMap String (WorkflowStatus p) → List String → Option (List String)
  unfolding push_children
  descendants zero i ws targets = none
  descendants (suc fuel) i ws targets = elim (get_elem? targets i) [
    | none ↦ some targets
    | some parent ↦ descendants fuel (i + 1) ws (push_children parent ws targets)
  ]

  -- The targets, given and collected. One round for each target and one to stop are enough.
  unfoldable pub delete_targets : List String → Bool → Inner p → Option (List String)
  unfolding descendants
  delete_targets ids delete_children g =
      if delete_children
      then descendants (suc (length ids + length g.workflows)) 0 g.workflows ids
      else some ids

  -- One target: its row, its steps, its streams and its notifications.
  unfoldable pub delete_one : String → Inner p → Inner p
  delete_one id g = record g {
    workflows = remove id g.workflows;
    steps = retain (λ (k : String × ℤ). not (k.0 == id)) g.steps;
    streams = retain (λ (k : String × String). not (k.0 == id)) g.streams;
    notifications =
        filterb (λ (n : NotificationRow p). not (n.destination_id == id)) g.notifications;
  }

  unfoldable pub delete_all : List String → Inner p → Inner p
  unfolding delete_one
  delete_all [] g = g
  delete_all (id ∷ ids) g = delete_all ids (delete_one id g)

  unfoldable pub delete_workflows : List String → Bool → Inner p → Option (Inner p)
  unfolding delete_targets delete_all
  delete_workflows ids delete_children g =
      option_map (λ targets. delete_all targets g) (delete_targets ids delete_children g)
