-- ===== src/Memory/Delete/Targets.antt =====
-- src/memory.rs, `delete_workflows`: the search for the descendants, and its fuel.
use Prim.Native.Nat.{◌≤◌}
use durust.Base.{
  ℕ, zero, suc, ◌+◌, ◌<◌, String, Bool, true, false, not, ◌&&◌, some, List, [], ◌∷◌, ◌++◌, ◌≡◌,
  refl, ap, ◌∙◌, sym, ◌==◌, string_eq, ==_refl, arith, inl, inr, Bool-cases, Option-cases, length,
  contains, contains-append, length-append, get_elem?, is_some_of, All, if◌then◌else◌,
}
use durust.Platform.{Platform}
use durust.Store.{HashMap, contains_key}
use durust.Provider.{WorkflowStatus}
use durust.Memory.{Inner}
use durust.Memory.Delete.{push_children, descendants, delete_targets}

pub lt-length : (xs : List String) (i : ℕ) (x : String) → get_elem? xs i ≡ some x → i < length xs
lt-length [] i x h = absurd (ground arith)
lt-length (y ∷ xs) zero x h = ground arith
lt-length (y ∷ xs) (suc i) x h = ground (arith, lt-length xs i x h)

module _ {p : Platform} where
  -- The rows that are no targets yet.
  abbrev missing : List String → HashMap String (WorkflowStatus p) → ℕ
  missing targets [] = 0
  missing targets ((k, w) ∷ ws) = (if contains targets k then 0 else 1) + missing targets ws

  missing-append :
      (targets : List String) (c : String) (ws : HashMap String (WorkflowStatus p))
      → missing (targets ++ c ∷ []) ws ≤ missing targets ws
  missing-append targets c [] = ground arith
  missing-append targets c ((k, w) ∷ ws) =
      ground (arith, contains-append targets (c ∷ []) k, missing-append targets c ws)

  missing-push :
      (targets : List String) (c : String) (ws : HashMap String (WorkflowStatus p))
      → contains_key c ws ≡ true
      → contains targets c ≡ false
      → missing (targets ++ c ∷ []) ws + 1 ≤ missing targets ws
  unfolding contains_key
  missing-push targets c [] h fresh = absurd (ground arith)
  missing-push targets c ((k, w) ∷ ws) h fresh = elim (Bool-cases (k == c)) [
    | inl same ↦
        let e : k ≡ c = (string_eq.eqb_iff k c).0 same in
        let was : contains targets k ≡ false = ap (contains targets) e ∙ fresh in
        ground (
          arith,
          contains-append targets (c ∷ []) k,
          missing-append targets c ws,
          string_eq.eqb_iff c k,
          sym e,
        )
    | inr other ↦
        ground (
          arith,
          contains-append targets (c ∷ []) k,
          missing-push targets c ws (ground arith) fresh,
        )
  ]

  push-bound :
      (parent : String) (sub ws : HashMap String (WorkflowStatus p)) (targets : List String)
      → All (λ (e : String × WorkflowStatus p). contains_key e.0 ws ≡ true) sub
      → length (push_children parent sub targets) + missing (push_children parent sub targets) ws
        ≤ length targets + missing targets ws
  unfolding push_children
  push-bound parent [] ws targets inside = ground arith
  push-bound parent ((c, row) ∷ sub) ws targets inside =
      elim (Bool-cases (is_some_of row.parent_workflow_id parent && not (contains targets c))) [
        | inr skip ↦ rw skip (push-bound parent sub ws targets inside.1)
        | inl take_it ↦ rw take_it (
            ground (
              arith,
              push-bound parent sub ws (targets ++ c ∷ []) inside.1,
              length-append targets (c ∷ []),
              missing-push targets c ws inside.0 (ground arith),
            ))
      ]

  inside_tail :
      (c : String) (w : WorkflowStatus p) (ws sub : HashMap String (WorkflowStatus p))
      → All (λ (e : String × WorkflowStatus p). contains_key e.0 ws ≡ true) sub
      → All (λ (e : String × WorkflowStatus p). contains_key e.0 ((c, w) ∷ ws) ≡ true) sub
  unfolding contains_key
  inside_tail c w ws [] h = tt
  inside_tail c w ws ((k, v) ∷ sub) h = (ground arith, inside_tail c w ws sub h.1)

  All-inside :
      (ws : HashMap String (WorkflowStatus p))
      → All (λ (e : String × WorkflowStatus p). contains_key e.0 ws ≡ true) ws
  unfolding contains_key
  All-inside [] = tt
  All-inside ((k, w) ∷ ws) = (ground (arith, ==_refl k), inside_tail k w ws ws (All-inside ws))

  missing-le :
      (targets : List String) (ws : HashMap String (WorkflowStatus p))
      → missing targets ws ≤ length ws
  missing-le targets [] = ground arith
  missing-le targets ((k, w) ∷ ws) = ground (arith, missing-le targets ws)

  pub push-grows :
      (parent : String) (sub : HashMap String (WorkflowStatus p)) (targets : List String)
      → length targets ≤ length (push_children parent sub targets)
  unfolding push_children
  push-grows parent [] targets = ground arith
  push-grows parent ((c, row) ∷ sub) targets =
      elim (Bool-cases (is_some_of row.parent_workflow_id parent && not (contains targets c))) [
        | inr skip ↦ rw skip (push-grows parent sub targets)
        | inl take_it ↦ rw take_it (
            ground
              (arith, push-grows parent sub (targets ++ c ∷ []), length-append targets (c ∷ [])))
      ]

  descendants-ends :
      (fuel i : ℕ) (ws : HashMap String (WorkflowStatus p)) (targets : List String)
      → i ≤ length targets
      → length targets + missing targets ws < fuel + i
      → (found : List String) × (descendants fuel i ws targets ≡ some found)
  unfolding descendants
  descendants-ends zero i ws targets le h = absurd (ground arith)
  descendants-ends (suc fuel) i ws targets le h = elim (Option-cases (get_elem? targets i)) [
    | inl stop ↦ rw (stop, descendants) (targets, refl)
    | inr (parent, go) ↦
        rw (go, descendants)
          (descendants-ends fuel (i + 1) ws (push_children parent ws targets)
            (ground (arith, push-grows parent ws targets, lt-length targets i parent go))
            (ground (arith, push-bound parent ws ws targets (All-inside ws))))
  ]

  -- Collecting the targets of a deletion always ends with a list of them: one round for each given
  -- id and each stored workflow, and one to stop, are enough.
  pub delete_targets-total :
      (ids : List String) (delete_children : Bool) (g : Inner p)
      → (found : List String) × (delete_targets ids delete_children g ≡ some found)
  unfolding delete_targets
  delete_targets-total ids false g = (ids, refl)
  delete_targets-total ids true g =
      descendants-ends (suc (length ids + length g.workflows)) 0 g.workflows ids (ground arith)
        (ground (arith, missing-le ids g.workflows))
