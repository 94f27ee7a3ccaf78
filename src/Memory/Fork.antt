-- ===== src/Memory/Fork.antt =====
-- src/memory.rs: forking a workflow from one of its steps.
pub mod Laws
use durust.Base.{
  ℤ, String, Bool, ◌&&◌, Option, none, some, List, [], ◌∷◌, ◌==◌, string_eq, int_eq, pair_eq, ltb_ℤ,
  unwrap_or,
}
use durust.Platform.{Platform}
use durust.Error.{Result, ok, err, nonexistent_workflow}
use durust.Store.{HashMap, get, insert, retain}
use durust.Provider.{WorkflowStatus, new_workflow, ForkParams, status_enqueued}
use durust.Memory.{StepRow, Inner}

module _ {p : Platform} where
  -- The row of the fork.
  unfoldable pub forked_row : ForkParams → WorkflowStatus p → p.DateTime → WorkflowStatus p
  unfolding new_workflow
  forked_row params original now =
      record (new_workflow params.new_id original.name original.input status_enqueued ""
        (unwrap_or params.app_version original.app_version) now) {
          forked_from = some params.original_id;
          authenticated_user = original.authenticated_user;
          assumed_role = original.assumed_role;
          authenticated_roles = original.authenticated_roles;
          class_name = original.class_name;
          config_name = original.config_name;
          queue_name = some params.queue_name;
          queue_partition_key = params.partition_key;
        }

  -- The checkpoints of the original before the first step to run again.
  unfoldable pub checkpoints_before :
      String → ℤ → HashMap (String × ℤ) (StepRow p) → HashMap (String × ℤ) (StepRow p)
  checkpoints_before original_id start_step steps =
      retain (λ (k : String × ℤ). k.0 == original_id && ltb_ℤ k.1 start_step) steps

  -- `for (seq, v) in copied { steps.insert((new_id, seq), v) }`
  unfoldable pub copy_steps :
      String
      → HashMap (String × ℤ) (StepRow p)
      → HashMap (String × ℤ) (StepRow p)
      → HashMap (String × ℤ) (StepRow p)
  copy_steps new_id [] steps = steps
  copy_steps new_id ((k, v) ∷ copied) steps =
      copy_steps new_id copied (insert (new_id, k.1) v steps)

  unfoldable pub fork_workflow : ForkParams → p.DateTime → Inner p → Result p (Unit {0}) × Inner p
  unfolding forked_row checkpoints_before copy_steps
  fork_workflow params now g = elim (get params.original_id g.workflows) [
    | none ↦ (err (nonexistent_workflow params.original_id), g)
    | some original ↦ (
      ok tt,
      record g {
        workflows = insert params.new_id (forked_row params original now) g.workflows;
        steps =
            copy_steps params.new_id
              (checkpoints_before params.original_id params.start_step g.steps) g.steps;
      },
    )
  ]
