-- ===== src/Engine/Recover/Stops.antt =====
-- src/engine.rs, `dispatch_pending_workflows`: where the loop stops, and what it counts.
use durust.Base.{
  ℕ, suc, ◌+◌, ◌≤◌, ℤ, String, Bool, true, false, List, [], ◌∷◌, ◌++◌, ◌≡◌, refl, sym, ap, ◌∙◌,
  arith, inl, inr, Bool-cases, length,
}
use mathlib.Core.Path.{fun_ext}
use durust.Platform.{Platform}
use durust.Error.{Result, ok, err, panicked, ◌>>=◌}
use durust.Provider.{WorkflowStatus}
use durust.Memory.{Inner}
use durust.Engine.{Runtime}
use durust.Engine.Recover.{
  Counters, Fate, parked, requeued, rerun, skipped, Visit, tally, recover_one, with_fate, stop_or,
  dispatch_pending_workflows,
}

module _ {p : Platform} (rt : Runtime p) (max : ℤ) (visits : ℕ → Visit p) where
  stops :
      (n : ℕ) (pending : List (WorkflowStatus p)) (g : Inner p)
      → (visits n).is_cancelled ≡ true
      → dispatch_pending_workflows rt max visits n pending g
        ≡ dispatch_pending_workflows rt max visits n [] g
  unfolding dispatch_pending_workflows
  stops n [] g h = refl
  stops n (w ∷ pending) g h =
      ap
        (λ (b : Bool). stop_or b g (λ x.
          with_fate w.id (recover_one rt max (visits n) w x)
            (λ g'. dispatch_pending_workflows rt max visits (n + 1) pending g')))
        h

  goes :
      (n : ℕ) (w : WorkflowStatus p) (pending : List (WorkflowStatus p)) (g : Inner p)
      → (visits n).is_cancelled ≡ false
      → dispatch_pending_workflows rt max visits n (w ∷ pending) g
        ≡ with_fate w.id
            (recover_one rt max (visits n) w g)
            (λ g'. dispatch_pending_workflows rt max visits (n + 1) pending g')
  unfolding dispatch_pending_workflows
  goes n w pending g h =
      ap
        (λ (b : Bool). stop_or b g (λ x.
          with_fate w.id (recover_one rt max (visits n) w x)
            (λ g'. dispatch_pending_workflows rt max visits (n + 1) pending g')))
        h

  -- Recovery that meets the shutdown at its workflow number `k` does what recovery of the workflows
  -- before that one alone does: those from it on are not touched and use up no recovery attempt.
  pub dispatch-stops :
      (n k : ℕ) (before after : List (WorkflowStatus p)) (g : Inner p)
      → n + length before ≡ k
      → (visits k).is_cancelled ≡ true
      → dispatch_pending_workflows rt max visits n (before ++ after) g
        ≡ dispatch_pending_workflows rt max visits n before g
  dispatch-stops n k [] after g e h =
      stops n after g (ap (λ (i : ℕ). (visits i).is_cancelled) (omega arith) ∙ h)
  dispatch-stops n k (w ∷ before) after g e h = elim (Bool-cases (visits n).is_cancelled) [
    | inl now ↦ stops n (w ∷ before ++ after) g now ∙ sym (stops n (w ∷ before) g now)
    | inr on ↦
        goes n w (before ++ after) g on
        ∙ ap (with_fate w.id (recover_one rt max (visits n) w g))
            (fun_ext (λ g'. dispatch-stops (n + 1) k before after g' (omega arith) h))
        ∙ sym (goes n w before g on)
  ]

  -- Counted: the result's numbers are right for a list of this length.
  abbrev Counted : ℕ → Result p (List String × Counters) → Type 0
  Counted total r =
      (ids : List String) (c : Counters)
      → r ≡ ok (ids, c)
      → (c.workflows_recovered ≡ length ids) × (length ids + c.dead_lettered ≤ total)

  tally-Counted :
      (id : String) (fate : Fate) (total : ℕ) (r : Result p (List String × Counters))
      → Counted total r
      → Counted (suc total) (r >>= (λ t. ok (tally id fate t)))
  tally-Counted id fate total (err e) counted ids c h = absurd (ground arith)
  tally-Counted id fate total panicked counted ids c h = absurd (ground arith)
  tally-Counted id parked total (ok (ids', c')) counted ids c h =
      ground (arith, counted ids' c' refl)
  tally-Counted id requeued total (ok (ids', c')) counted ids c h =
      ground (arith, counted ids' c' refl)
  tally-Counted id rerun total (ok (ids', c')) counted ids c h =
      ground (arith, counted ids' c' refl)
  tally-Counted id skipped total (ok (ids', c')) counted ids c h =
      ground (arith, counted ids' c' refl)

  with_fate-Counted :
      (id : String) (fate : Result p Fate) (total : ℕ) (g : Inner p)
      (rest : Inner p → Result p (List String × Counters) × Inner p)
      → Counted total (rest g).0
      → Counted (suc total) (with_fate id (fate, g) rest).0
  with_fate-Counted id (err e) total g rest counted ids c h = absurd (ground arith)
  with_fate-Counted id panicked total g rest counted ids c h = absurd (ground arith)
  with_fate-Counted id (ok fate) total g rest counted ids c h =
      tally-Counted id fate total (rest g).0 counted ids c h

  -- What recovery reports adds up: as many workflows are counted as recovered as ids are returned,
  -- and these and the parked ones together are at most the pending workflows.
  pub dispatch-counts :
      (n : ℕ) (pending : List (WorkflowStatus p)) (g : Inner p) (ids : List String) (c : Counters)
      → (dispatch_pending_workflows rt max visits n pending g).0 ≡ ok (ids, c)
      → (c.workflows_recovered ≡ length ids) × (length ids + c.dead_lettered ≤ length pending)
  unfolding dispatch_pending_workflows
  dispatch-counts n [] g ids c h = ground arith
  dispatch-counts n (w ∷ pending) g ids c h = elim (Bool-cases (visits n).is_cancelled) [
    | inl now ↦ (let e = sym (state (stops n (w ∷ pending) g now)) ∙ h in ground (arith, e))
    | inr on ↦
        with_fate-Counted w.id (recover_one rt max (visits n) w g).0 (length pending)
          (recover_one rt max (visits n) w g).1
          (λ g'. dispatch_pending_workflows rt max visits (n + 1) pending g')
          (dispatch-counts (n + 1) pending (recover_one rt max (visits n) w g).1) ids c
          (sym (state (goes n w pending g on)) ∙ h)
  ]
    where
      state : {x y : Result p (List String × Counters) × Inner p} → x ≡ y → x.0 ≡ y.0
      state e = ap (λ (r : Result p (List String × Counters) × Inner p). r.0) e
