-- ===== src/Memory/Delete/Closed.antt =====
-- src/memory.rs, `delete_workflows`: the children of the targets.
use mathlib.Core.Path.{subst}
use Prim.Native.Nat.{◌≤◌}
use durust.Base.{
  ℕ, zero, suc, ◌+◌, String, true, not, ◌&&◌, ◌||◌, none, some, List, [], ◌∷◌, ◌++◌, ◌≡◌, refl, ap,
  ◌∙◌, sym, ◌==◌, string_eq, ==_refl, arith, inl, inr, Bool-cases, Option-cases, length,
  length-append, contains, contains-append, take, get_elem?, is_some_of, All, All-map_imp,
}
use durust.Platform.{Platform}
use durust.Store.{HashMap}
use durust.Provider.{WorkflowStatus}
use durust.Memory.{Inner}
use durust.Memory.Delete.{push_children, descendants, delete_targets}
use durust.Memory.Delete.Targets.{lt-length}

take-append : (i : ℕ) (xs ys : List String) → i ≤ length xs → take i (xs ++ ys) ≡ take i xs
take-append zero xs ys h = refl
take-append (suc i) [] ys h = absurd (ground arith)
take-append (suc i) (x ∷ xs) ys h = ap (◌∷◌ x) (take-append i xs ys (ground arith))

take-all : (i : ℕ) (xs : List String) → get_elem? xs i ≡ none → take i xs ≡ xs
take-all zero [] h = refl
take-all zero (x ∷ xs) h = absurd (ground arith)
take-all (suc i) [] h = refl
take-all (suc i) (x ∷ xs) h = ap (◌∷◌ x) (take-all i xs h)

contains-take :
    (i : ℕ) (xs : List String) (x t : String)
    → get_elem? xs i ≡ some x
    → contains (take (suc i) xs) t ≡ (contains (take i xs) t || x == t)
contains-take i [] x t h = absurd (ground arith)
contains-take zero (y ∷ xs) x t h =
    let e : y ≡ x = ground arith in ground (arith, ap (λ z. z == t) e)
contains-take (suc i) (y ∷ xs) x t h = ground (arith, contains-take i xs x t h)

module _ {p : Platform} where
  -- The children of `parent` among the rows are targets.
  abbrev pub HasChildren : String → List String → HashMap String (WorkflowStatus p) → Type 0
  HasChildren parent targets rows =
      All
        (λ (e : String × WorkflowStatus p).
          is_some_of e.1.parent_workflow_id parent ≡ true → contains targets e.0 ≡ true)
        rows

  push-keeps :
      (parent x : String) (sub : HashMap String (WorkflowStatus p)) (targets : List String)
      → contains targets x ≡ true
      → contains (push_children parent sub targets) x ≡ true
  unfolding push_children
  push-keeps parent x [] targets h = h
  push-keeps parent x ((c, row) ∷ sub) targets h =
      elim (Bool-cases (is_some_of row.parent_workflow_id parent && not (contains targets c))) [
        | inr skip ↦ rw skip (push-keeps parent x sub targets h)
        | inl add ↦ rw add (
            push-keeps parent x sub (targets ++ c ∷ [])
              (ground (arith, contains-append targets (c ∷ []) x)))
      ]

  push-HasChildren :
      (parent : String) (sub : HashMap String (WorkflowStatus p)) (targets out : List String)
      → push_children parent sub targets ≡ out
      → HasChildren parent out sub
  unfolding push_children
  push-HasChildren parent [] targets out e = tt
  push-HasChildren parent ((c, row) ∷ sub) targets out e =
      elim (Bool-cases (is_some_of row.parent_workflow_id parent && not (contains targets c))) [
        | inr skip ↦
            let q : push_children parent sub targets ≡ out = rw skip at e in
            (
              λ child.
                  ap (λ xs. contains xs c) (sym q) ∙ push-keeps parent c sub targets (ground arith),
              push-HasChildren parent sub targets out q,
            )
        | inl add ↦
            let q : push_children parent sub (targets ++ c ∷ []) ≡ out = rw add at e in
            (
              λ child.
                  ap (λ xs. contains xs c) (sym q)
                  ∙ push-keeps parent c sub (targets ++ c ∷ [])
                      (ground (arith, contains-append targets (c ∷ []) c, ==_refl c)),
              push-HasChildren parent sub (targets ++ c ∷ []) out q,
            )
      ]

  take-push :
      (i : ℕ) (parent : String) (sub : HashMap String (WorkflowStatus p)) (targets : List String)
      → i ≤ length targets
      → take i (push_children parent sub targets) ≡ take i targets
  unfolding push_children
  take-push i parent [] targets h = refl
  take-push i parent ((c, row) ∷ sub) targets h =
      elim (Bool-cases (is_some_of row.parent_workflow_id parent && not (contains targets c))) [
        | inr skip ↦ rw skip (take-push i parent sub targets h)
        | inl add ↦ rw add (
            take-push i parent sub (targets ++ c ∷ [])
              (ground (arith, length-append targets (c ∷ [])))
            ∙ take-append i targets (c ∷ []) h)
      ]

  -- The first `i` targets have their children among the targets.
  abbrev IsDone : ℕ → List String → HashMap String (WorkflowStatus p) → Type 0
  IsDone i targets ws = (t : String) → contains (take i targets) t ≡ true → HasChildren t targets ws

  IsDone-push :
      (i : ℕ) (parent : String) (ws : HashMap String (WorkflowStatus p)) (targets : List String)
      → get_elem? targets i ≡ some parent
      → IsDone i targets ws
      → IsDone (suc i) (push_children parent ws targets) ws
  IsDone-push i parent ws targets here done t among = elim (Bool-cases (parent == t)) [
    | inl same ↦
        subst (λ x. HasChildren x (push_children parent ws targets) ws)
          ((string_eq.eqb_iff parent t).0 same)
          (push-HasChildren parent ws targets (push_children parent ws targets) refl)
    | inr other ↦
        All-map_imp
          (λ (e : String × WorkflowStatus p).
            is_some_of e.1.parent_workflow_id t ≡ true → contains targets e.0 ≡ true)
          (λ (e : String × WorkflowStatus p).
            is_some_of e.1.parent_workflow_id t ≡ true
            → contains (push_children parent ws targets) e.0 ≡ true)
          ws (λ e h child. push-keeps parent e.0 ws targets (h child))
          (done t (
            ground (
              arith,
              contains-take i targets parent t here,
              ap (λ xs. contains xs t)
                  (take-push (suc i) parent ws targets
                    (ground (arith, lt-length targets i parent here))),
            )))
  ]

  IsDone-next :
      (i : ℕ) (parent : String) (ws : HashMap String (WorkflowStatus p)) (targets : List String)
      → get_elem? targets i ≡ some parent
      → IsDone i targets ws
      → IsDone (i + 1) (push_children parent ws targets) ws
  IsDone-next i parent ws targets here done =
      let e : suc i ≡ i + 1 = omega arith in
      subst (λ k. IsDone k (push_children parent ws targets) ws) e
        (IsDone-push i parent ws targets here done)

  descendants-IsDone :
      (fuel i : ℕ) (ws : HashMap String (WorkflowStatus p)) (targets found : List String)
      → IsDone i targets ws
      → descendants fuel i ws targets ≡ some found
      → ((t : String) → contains found t ≡ true → HasChildren t found ws)
        × ((t : String) → contains targets t ≡ true → contains found t ≡ true)
  unfolding descendants
  descendants-IsDone zero i ws targets found done h = absurd (ground arith)
  descendants-IsDone (suc fuel) i ws targets found done h =
      elim (Option-cases (get_elem? targets i)) [
        | inl stop ↦
            let q : some targets ≡ some found = rw (stop, descendants) at h in
            let e : targets ≡ found = ground arith in
            subst
              (λ xs.
                ((t : String) → contains xs t ≡ true → HasChildren t xs ws)
                × ((t : String) → contains targets t ≡ true → contains xs t ≡ true))
              e
              (
                λ t among. done t (ap (λ xs. contains xs t) (take-all i targets stop) ∙ among),
                λ t among. among,
              )
        | inr (parent, here) ↦
            let (closed, kept) =
              descendants-IsDone fuel (i + 1) ws (push_children parent ws targets) found
                (IsDone-next i parent ws targets here done) (rw (here, descendants) at h) in
            (closed, λ t among. kept t (push-keeps parent t ws targets among))
      ]

  -- The targets collected for a deletion with children contain the given ids, and with a workflow
  -- every stored workflow whose parent it is: the deletion leaves no child of a deleted workflow.
  pub delete_targets-HasChildren :
      (ids found : List String) (g : Inner p)
      → delete_targets ids true g ≡ some found
      → ((t : String) → contains ids t ≡ true → contains found t ≡ true)
        × ((t : String) → contains found t ≡ true → HasChildren t found g.workflows)
  unfolding delete_targets
  delete_targets-HasChildren ids found g h =
      let (closed, kept) =
        descendants-IsDone (suc (length ids + length g.workflows)) 0 g.workflows ids found
          (λ t none_yet. absurd (ground arith)) h in
      (kept, closed)
