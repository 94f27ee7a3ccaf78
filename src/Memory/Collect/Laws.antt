-- ===== src/Memory/Collect/Laws.antt =====
-- src/provider.rs, `garbage_collect`: what a collection deletes.
use durust.Base.{
  ℕ, ℤ, String, true, false, Option, none, some, List, [], ◌∷◌, ◌≡◌, refl, ap, sym, ◌∙◌, ◌==◌,
  string_eq, int_eq, pair_eq, arith, inl, inr, Bool-cases, In, In-map_inv, All-In, contains, length,
}
use durust.Platform.{Platform}
use durust.Error.{Result, ok, err, panicked}
use durust.Store.{get, values}
use durust.Provider.{WorkflowStatus, ListFilter, is_terminal}
use durust.Memory.{Inner}
use durust.Memory.Invariant.{IsValid, values-present}
use durust.Memory.Listing.{matches, list_workflows, loaded}
use durust.Memory.Listing.Laws.{IsListed, list_workflows-exact}
use durust.Memory.Delete.{delete_all, delete_workflows, delete_targets}
use durust.Memory.Delete.Laws.{workflow_left}
use durust.Memory.Collect.{resolve_gc_cutoff, victims_filter, victims, collect, garbage_collect}

In-of_contains : (xs : List String) (x : String) → contains xs x ≡ true → In x xs
In-of_contains [] x h = absurd (ground arith)
In-of_contains (y ∷ xs) x h = elim (Bool-cases (y == x)) [
  | inl same ↦ inl (sym ((string_eq.eqb_iff y x).0 same))
  | inr other ↦ inr (In-of_contains xs x (ground arith))
]

module _ {p : Platform} where
  victim_ended :
      (cutoff : ℤ) (rows : List (WorkflowStatus p)) (w : WorkflowStatus p)
      → matches (victims_filter cutoff) rows w ≡ true
      → is_terminal w.status ≡ true
  unfolding matches is_terminal
  victim_ended cutoff rows w h = ground (
    arith,
    string_eq.eqb_iff "SUCCESS" w.status,
    string_eq.eqb_iff w.status "SUCCESS",
    string_eq.eqb_iff "ERROR" w.status,
    string_eq.eqb_iff w.status "ERROR",
    string_eq.eqb_iff "CANCELLED" w.status,
    string_eq.eqb_iff w.status "CANCELLED",
    string_eq.eqb_iff "MAX_RECOVERY_ATTEMPTS_EXCEEDED" w.status,
    string_eq.eqb_iff w.status "MAX_RECOVERY_ATTEMPTS_EXCEEDED",
  )

  loaded-id : (filter : ListFilter) (w : WorkflowStatus p) → (loaded filter w).id ≡ w.id
  unfolding loaded
  loaded-id filter w = refl

  -- A row whose id is a victim's has ended.
  victims-ended :
      (cutoff : ℤ) (g : Inner p) (j : String) (w : WorkflowStatus p)
      → IsValid g
      → get j g.workflows ≡ some w
      → contains (victims cutoff g) j ≡ true
      → is_terminal w.status ≡ true
  unfolding victims
  victims-ended cutoff g j w valid found h =
      let (v, m, e) =
        In-map_inv (λ (x : WorkflowStatus p). x.id) j (list_workflows (victims_filter cutoff) g)
          (In-of_contains (victims cutoff g) j h) in
      let (u, stored, may, same) =
        All-In (IsListed (victims_filter cutoff) (values g.workflows)) v
          (list_workflows (victims_filter cutoff) g)
          (list_workflows-exact (victims_filter cutoff) g).0 m in
      let here : get u.id g.workflows ≡ some u =
        All-In (λ (x : WorkflowStatus p). get x.id g.workflows ≡ some x) u (values g.workflows)
          (values-present g.workflows valid.keyed valid.rows_distinct) stored in
      let named : j ≡ u.id =
        e ∙ ap (λ (x : WorkflowStatus p). x.id) same ∙ loaded-id (victims_filter cutoff) u in
      let one : u ≡ w = ground (arith, ap (λ i. get i g.workflows) named, here, found) in
      ap (λ (x : WorkflowStatus p). is_terminal x.status) (sym one)
      ∙ victim_ended cutoff (values g.workflows) u may

  collected :
      (ids : List String) (g : Inner p) → collect ids g ≡ (ok (length ids), delete_all ids g)
  unfolding collect delete_workflows delete_targets
  collected ids g = refl

  -- In valid tables a garbage collection that no other call interrupts deletes no work in flight: a
  -- workflow that has not ended stands unchanged after it, whatever its bounds and whether it
  -- succeeds.
  pub garbage_collect-keeps_active :
      (shown : ℤ → String) (cutoff rows : Option ℤ) (j : String) (w : WorkflowStatus p)
      (g : Inner p)
      → IsValid g
      → get j g.workflows ≡ some w
      → is_terminal w.status ≡ false
      → get j (garbage_collect shown cutoff rows g).1.workflows ≡ some w
  unfolding garbage_collect
  garbage_collect-keeps_active shown cutoff rows j w g valid found active =
      go (resolve_gc_cutoff shown cutoff rows g)
    where
      outcome : Result p (Option ℤ) → Result p ℕ × Inner p
      outcome r = elim r [
        | err e ↦ (err e, g)
        | panicked ↦ (panicked, g)
        | ok none ↦ (ok 0, g)
        | ok (some c) ↦ collect (victims c g) g
      ]

      go : (r : Result p (Option ℤ)) → get j (outcome r).1.workflows ≡ some w
      go (err e) = found
      go panicked = found
      go (ok none) = found
      go (ok (some c)) =
          ap (λ (x : Result p ℕ × Inner p). get j x.1.workflows) (collected (victims c g) g)
          ∙ workflow_left (victims c g) j g valid.rows_distinct
          ∙ elim (Bool-cases (contains (victims c g) j)) [
            | inl hit ↦ absurd (ground (arith, victims-ended c g j w valid found hit, active))
            | inr miss ↦ rw miss found
          ]
