-- ===== src/Memory/Manage/Delay.antt =====
-- src/memory.rs, `transition_delayed_workflows`: the promotion of due rows.
use durust.Base.{
  ℤ, String, false, [], ◌∷◌, ◌≡◌, refl, string_eq, arith, inl, inr, Bool-cases, countb,
}
use durust.Platform.{Platform}
use durust.Store.{HashMap, map_values, values}
use durust.Provider.{WorkflowStatus}
use durust.Memory.{Inner}
use durust.Memory.Manage.{is_due, promote_row, transition_delayed_workflows}

module _ {p : Platform} where
  promoted :
      (now_ms : ℤ) (stamp : String → p.DateTime) (w : WorkflowStatus p)
      → is_due now_ms (promote_row now_ms stamp w) ≡ false
  unfolding promote_row
  promoted now_ms stamp w = elim (Bool-cases (is_due now_ms w)) [
    | inl due ↦ rw due
    | inr wait ↦ rw (wait, wait)
  ]

  none_due :
      (now_ms : ℤ) (stamp : String → p.DateTime) (ws : HashMap String (WorkflowStatus p))
      → countb (is_due now_ms) (values (map_values (promote_row now_ms stamp) ws)) ≡ 0
  unfolding values map_values
  none_due now_ms stamp [] = refl
  none_due now_ms stamp ((j, w) ∷ ws) =
      ground (arith, promoted now_ms stamp w, none_due now_ms stamp ws)

  promoted_again :
      (now_ms : ℤ) (stamp stamp' : String → p.DateTime) (w : WorkflowStatus p)
      → promote_row now_ms stamp' (promote_row now_ms stamp w) ≡ promote_row now_ms stamp w
  unfolding promote_row
  promoted_again now_ms stamp stamp' w = elim (Bool-cases (is_due now_ms w)) [
    | inl due ↦ rw due
    | inr wait ↦ rw (wait, wait)
  ]

  unmoved :
      (now_ms : ℤ) (stamp stamp' : String → p.DateTime) (ws : HashMap String (WorkflowStatus p))
      → map_values (promote_row now_ms stamp') (map_values (promote_row now_ms stamp) ws)
        ≡ map_values (promote_row now_ms stamp) ws
  unfolding map_values
  unmoved now_ms stamp stamp' [] = refl
  unmoved now_ms stamp stamp' ((j, w) ∷ ws) =
      rw (promoted_again now_ms stamp stamp' w, unmoved now_ms stamp stamp' ws)

  -- One promotion leaves no due row: a second one for the same instant counts 0 and changes nothing.
  pub transition_delayed_workflows-settles :
      (now_ms : ℤ) (stamp stamp' : String → p.DateTime) (g : Inner p)
      → transition_delayed_workflows now_ms stamp' (transition_delayed_workflows now_ms stamp g).1
        ≡ (0, (transition_delayed_workflows now_ms stamp g).1)
  unfolding transition_delayed_workflows
  transition_delayed_workflows-settles now_ms stamp stamp' g =
      rw (none_due now_ms stamp g.workflows, unmoved now_ms stamp stamp' g.workflows)
