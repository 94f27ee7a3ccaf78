-- ===== src/Memory/Listing.antt =====
-- src/memory.rs, `list_workflows`: the rows that pass a filter, by age, a page of them.
pub mod Laws
use text.Mathlib.Text.{starts_with}
use durust.Base.{
  ℤ, pos_part, String, Bool, true, false, not, ◌&&◌, ◌||◌, Option, none, some, List, [], ◌∷◌, ◌==◌,
  string_eq, leb_ℤ, anyb, contains, filterb, is_empty, is_some, is_some_of, is_some_and, is_none_or,
  map, take, drop, if◌then◌else◌,
}
use durust.Base.Sorting.{sort}
use durust.Platform.{Platform}
use durust.Store.{values}
use durust.Provider.{WorkflowStatus, ListFilter}
use durust.Memory.{Inner}

-- Equality of Booleans.
abbrev pub same_bool : Bool → Bool → Bool
same_bool true b = b
same_bool false b = not b

-- `rows.reverse()`
abbrev pub reverse_onto : {A : Type 0} → List A → List A → List A
reverse_onto [] ys = ys
reverse_onto (x ∷ xs) ys = reverse_onto xs (x ∷ ys)

-- `rows.drain(..off)` and `rows.truncate(lim)`, when they are set.
abbrev pub drain_front : {A : Type 0} → Option ℤ → List A → List A
drain_front none xs = xs
drain_front (some off) xs = drop (pos_part off) xs

abbrev pub truncate : {A : Type 0} → Option ℤ → List A → List A
truncate none xs = xs
truncate (some lim) xs = take (pos_part lim) xs

-- No filter, or one that the text, or the optional text, is in.
abbrev pub passes : List String → String → Bool
passes allowed s = is_empty allowed || contains allowed s

abbrev pub passes_opt : List String → Option String → Bool
passes_opt allowed o = is_empty allowed || is_some_and o (contains allowed)

module _ {p : Platform} where
  -- Some workflow was forked from the one with this id.
  unfoldable pub is_fork_source : List (WorkflowStatus p) → String → Bool
  is_fork_source rows id = anyb (λ (w : WorkflowStatus p). is_some_of w.forked_from id) rows

  -- The closure of `filter`.
  unfoldable pub matches : ListFilter → List (WorkflowStatus p) → WorkflowStatus p → Bool
  unfolding is_fork_source
  matches filter rows w =
      passes filter.workflow_ids w.id
      && (is_empty filter.workflow_id_prefix
          || anyb (λ pre. starts_with w.id pre) filter.workflow_id_prefix)
      && passes filter.name w.name
      && passes filter.status w.status
      && passes_opt filter.queue_name w.queue_name
      && passes filter.app_version w.app_version
      && passes filter.executor_ids w.executor_id
      && passes_opt filter.authenticated_users w.authenticated_user
      && passes_opt filter.forked_from w.forked_from
      && passes_opt filter.parent_workflow_ids w.parent_workflow_id
      && is_none_or filter.was_forked_from (λ wf. same_bool (is_fork_source rows w.id) wf)
      && is_none_or filter.start_time_ms (λ t. leb_ℤ t (p.timestamp_millis w.created_at))
      && is_none_or filter.end_time_ms (λ t. leb_ℤ (p.timestamp_millis w.created_at) t)
      && is_none_or filter.completed_after_ms (λ t. is_some_and w.completed_at_ms (λ c. leb_ℤ t c))
      && is_none_or filter.completed_before_ms (λ t. is_some_and w.completed_at_ms (λ c. leb_ℤ c t))
      && is_none_or filter.dequeued_after_ms (λ t. is_some_and w.started_at_ms (λ s. leb_ℤ t s))
      && is_none_or filter.dequeued_before_ms (λ t. is_some_and w.started_at_ms (λ s. leb_ℤ s t))
      && is_none_or filter.has_parent (λ hp. same_bool (is_some w.parent_workflow_id) hp)
      && (not filter.queues_only || is_some w.queue_name)

  -- The page: the direction, the offset and the limit.
  unfoldable pub page : ListFilter → List (WorkflowStatus p) → List (WorkflowStatus p)
  page filter rows =
      let directed = if filter.sort_desc then reverse_onto rows [] else rows in
      truncate filter.limit (drain_front filter.offset directed)

  -- The load flags drop the heavy fields.
  unfoldable pub loaded : ListFilter → WorkflowStatus p → WorkflowStatus p
  loaded filter w = record w {
    input = if filter.load_input then w.input else p.null;
    output = if filter.load_output then w.output else none;
  }

  unfoldable pub list_workflows : ListFilter → Inner p → List (WorkflowStatus p)
  unfolding matches page loaded
  list_workflows filter g = map (loaded filter) (
      page filter (
        sort (λ (a b : WorkflowStatus p). p.leb_time a.created_at b.created_at)
          (filterb (matches filter (values g.workflows)) (values g.workflows))))
