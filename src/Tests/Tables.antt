-- ===== src/Tests/Tables.antt =====
-- Workflow rows deleted and listed, and the latest version.
use durust.Base.{
  ℤ, pos, String, true, none, some, List, [], ◌∷◌, ◌≡◌, refl, inl, inr, arith, string_eq, int_eq,
  pair_eq,
}
use durust.Store.{get, insert, values}
use durust.Provider.{ListFilter, default_filter, new_workflow}
use durust.Memory.Lifecycle.{insert_workflow_status}
use durust.Memory.Delete.{delete_targets, delete_workflows, delete_all}
use durust.Memory.Delete.Targets.{delete_targets-total}
use durust.Memory.Delete.Laws.{delete_workflows-exact}
use durust.Memory.Events.{upsert_event, get_event_value}
use durust.Memory.Listing.{matches, list_workflows, loaded}
use durust.Memory.Listing.Laws.{IsListed, list_workflows-exact}
use durust.Base.{All, In, leb_ℤ, ◌⊎◌}
use durust.Base.{Bool-cases}
use durust.Memory.Invariant.{IsValid}
use durust.Memory.Calls.{after, on_write, on_insert, on_event}
use durust.Memory.Calls.Reachable.{Reach-IsValid}
use durust.Tests.Data.{State, row_b, one_row, two_rows, one_row-Reach}
use durust.Memory.Collect.{garbage_collect}
use durust.Memory.Collect.Laws.{garbage_collect-keeps_active}
use durust.Memory.Calls.{on_status}
use durust.Memory.Lifecycle.{set_workflow_status}
use durust.Tests.Data.{two_rows-Reach}
use durust.Error.{ok}
use durust.Base.{◌-ℤ◌, i64}
use durust.Base.Sorting.{sort}
use durust.Provider.{is_terminal}
use durust.Memory.Delete.{delete_targets, delete_workflows}
use durust.Memory.Listing.{list_workflows, page}
use durust.Store.{update}

leb_ℤ-total : (a b : ℤ) → (leb_ℤ a b ≡ true) ⊎ (leb_ℤ b a ≡ true)
leb_ℤ-total a b = elim (Bool-cases (leb_ℤ a b)) [ inl h ↦ inl h | inr h ↦ inr (ground arith) ]

leb_ℤ-trans : (a b c : ℤ) → leb_ℤ a b ≡ true → leb_ℤ b c ≡ true → leb_ℤ a c ≡ true
leb_ℤ-trans a b c h k = ground arith

-- "a" with a child "b", and an event of "b".
abbrev family : State
family =
    upsert_event "b" "done" 5
      (insert_workflow_status (record row_b { parent_workflow_id = some "a" }) one_row).1

family_targets : delete_targets ("a" ∷ []) true family ≡ some ("a" ∷ "b" ∷ [])
unfolding delete_targets upsert_event insert_workflow_status new_workflow get insert values
family_targets = refl

family-IsValid : IsValid family
family-IsValid = Reach-IsValid family (
    after _ family (after one_row _ one_row-Reach (on_write _ (on_insert _)))
      (on_write family (on_event "b" "done" 5)))

abbrev orphaned : State
orphaned = delete_all ("a" ∷ "b" ∷ []) family

family_deleted : delete_workflows ("a" ∷ []) true family ≡ some orphaned
unfolding delete_workflows delete_targets upsert_event insert_workflow_status new_workflow get
    insert values
family_deleted = refl

delete_targets-total_example :
    (found : List String) × (delete_targets ("a" ∷ []) true family ≡ some found)
delete_targets-total_example = delete_targets-total ("a" ∷ []) true family

delete_workflows-exact_example :
    (get "b" orphaned.workflows ≡ none)
    × (get ("b", pos 0) orphaned.steps ≡ none)
    × (get ("b", "out") orphaned.streams ≡ none)
delete_workflows-exact_example =
    delete_workflows-exact ("a" ∷ []) ("a" ∷ "b" ∷ []) true "b" "out" (pos 0) family orphaned
      family-IsValid family_targets family_deleted

deleted_event_is_read : get_event_value "b" "done" orphaned ≡ some 5
unfolding get_event_value delete_all upsert_event insert_workflow_status new_workflow get insert
    values
deleted_event_is_read = refl

abbrev on_queue_q : ListFilter
on_queue_q = record default_filter { queue_name = "q" ∷ [] }

list_workflows-exact_example :
    All (IsListed on_queue_q (values two_rows.workflows)) (list_workflows on_queue_q two_rows)
    × In (loaded on_queue_q row_b) (list_workflows on_queue_q two_rows)
unfolding matches insert_workflow_status new_workflow get insert values
list_workflows-exact_example =
    let (only, every) = list_workflows-exact on_queue_q two_rows in
    (only, every refl refl row_b (inr (inl refl)) refl)

-- "a" has ended and "b" has not.
abbrev ended : State
ended = (set_workflow_status "a" "SUCCESS" (some 1) none (pos 30) two_rows).1

ended-IsValid : IsValid ended
ended-IsValid = Reach-IsValid ended (
    after two_rows ended two_rows-Reach
      (on_write ended (on_status "a" "SUCCESS" (some 1) none (pos 30))))

finished : (garbage_collect (λ z. "") (some (pos 100)) none ended).0 ≡ ok 1
unfolding garbage_collect list_workflows page delete_workflows delete_targets set_workflow_status
    is_terminal insert_workflow_status new_workflow get insert update values sort i64 ◌-ℤ◌
finished = refl

garbage_collect-keeps_active_example :
    get "b" (garbage_collect (λ z. "") (some (pos 100)) none ended).1.workflows ≡ some row_b
unfolding set_workflow_status insert_workflow_status new_workflow get insert update values
    is_terminal
garbage_collect-keeps_active_example =
    garbage_collect-keeps_active (λ z. "") (some (pos 100)) none "b" row_b ended ended-IsValid refl
      refl
