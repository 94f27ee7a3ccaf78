-- ===== src/Memory/Delete/Laws.antt =====
-- src/memory.rs, `delete_workflows`: what a deletion removes and what it leaves.
use durust.Base.{
  ℤ, String, Bool, not, none, some, List, [], ◌∷◌, ◌≡◌, refl, ◌∙◌, ◌==◌, string_eq, int_eq, pair_eq,
  arith, contains, if◌then◌else◌,
}
use durust.Platform.{Platform}
use durust.Store.{get, Distinct}
use durust.Store.Laws.{get-remove, get-retain}
use durust.Store.Values.{remove-Distinct}
use durust.Memory.{Inner}
use durust.Memory.Invariant.{IsValid}
use durust.Memory.Events.{get_event_value}
use durust.Memory.Delete.{delete_one, delete_all, delete_workflows, delete_targets}

module _ {p : Platform} where
  pub workflow_left :
      (targets : List String) (j : String) (g : Inner p)
      → Distinct g.workflows
      → get j (delete_all targets g).workflows
        ≡ (if contains targets j then none else get j g.workflows)
  unfolding delete_all delete_one
  workflow_left [] j g d = refl
  workflow_left (id ∷ targets) j g d =
      workflow_left targets j (delete_one id g) (remove-Distinct id g.workflows d)
      ∙ ground (arith, get-remove j id g.workflows d)

  step_left :
      (targets : List String) (j : String) (seq : ℤ) (g : Inner p)
      → get (j, seq) (delete_all targets g).steps
        ≡ (if contains targets j then none else get (j, seq) g.steps)
  unfolding delete_all delete_one
  step_left [] j seq g = refl
  step_left (id ∷ targets) j seq g =
      step_left targets j seq (delete_one id g)
      ∙ ground (
        arith,
        get-retain (j, seq) (λ (k : String × ℤ). not (k.0 == id)) g.steps,
        string_eq.eqb_iff j id,
        string_eq.eqb_iff id j,
      )

  stream_left :
      (targets : List String) (j key : String) (g : Inner p)
      → get (j, key) (delete_all targets g).streams
        ≡ (if contains targets j then none else get (j, key) g.streams)
  unfolding delete_all delete_one
  stream_left [] j key g = refl
  stream_left (id ∷ targets) j key g =
      stream_left targets j key (delete_one id g)
      ∙ ground (
        arith,
        get-retain (j, key) (λ (k : String × String). not (k.0 == id)) g.streams,
        string_eq.eqb_iff j id,
        string_eq.eqb_iff id j,
      )

  events_left : (targets : List String) (g : Inner p) → (delete_all targets g).events ≡ g.events
  unfolding delete_all delete_one
  events_left [] g = refl
  events_left (id ∷ targets) g = events_left targets (delete_one id g)

  deleted :
      (ids found : List String) (children : Bool) (g g' : Inner p)
      → delete_targets ids children g ≡ some found
      → delete_workflows ids children g ≡ some g'
      → delete_all found g ≡ g'
  unfolding delete_workflows
  deleted ids found children g g' t h =
      let q : some (delete_all found g) ≡ some g' = (rw (t, delete_workflows) at h) in ground arith

  -- In valid tables, a deletion leaves of a target neither its row nor a step nor a stream, and of
  -- every other workflow all of them as they were.
  pub delete_workflows-exact :
      (ids found : List String) (children : Bool) (j key : String) (seq : ℤ) (g g' : Inner p)
      → IsValid g
      → delete_targets ids children g ≡ some found
      → delete_workflows ids children g ≡ some g'
      → (get j g'.workflows ≡ (if contains found j then none else get j g.workflows))
        × (get (j, seq) g'.steps ≡ (if contains found j then none else get (j, seq) g.steps))
        × (get (j, key) g'.streams ≡ (if contains found j then none else get (j, key) g.streams))
  delete_workflows-exact ids found children j key seq g g' valid t h =
      rw (← deleted ids found children g g' t h) (
        workflow_left found j g valid.rows_distinct,
        step_left found j seq g,
        stream_left found j key g,
      )

  -- A deletion keeps every event, those of the deleted workflows too: it can still be read.
  pub delete_workflows-keeps_events :
      (ids found : List String) (children : Bool) (j key : String) (g g' : Inner p)
      → delete_targets ids children g ≡ some found
      → delete_workflows ids children g ≡ some g'
      → get_event_value j key g' ≡ get_event_value j key g
  unfolding get_event_value
  delete_workflows-keeps_events ids found children j key g g' t h =
      rw (← deleted ids found children g g' t h, events_left found g)
