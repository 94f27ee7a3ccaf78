-- ===== src/Context/Program/Guarded.antt =====
-- src/context.rs: what `step` and `step_with` share. A guard looks for the step, then the closure is
-- run and its outcome is recorded.
use durust.Base.{
  ℤ, String, Option, none, some, ◌≡◌, refl, sym, ap, ◌∙◌, ◌==◌, string_eq, int_eq, pair_eq, arith,
  inl, inr, ◌⊎◌, Bool-cases, Option-cases,
}
use durust.Platform.{Platform}
use durust.Error.{Error, cancelled, unexpected, app, portable, Result, ok, err, panicked}
use durust.Provider.{StepOutcome, output, failure, status_cancelled}
use durust.Memory.{Inner}
use durust.Memory.Invariant.{IsValid}
use durust.Memory.Lifecycle.{get_workflow_status}
use durust.Memory.Steps.{get_step_result}
use durust.Memory.Calls.{on_record}
use durust.Memory.Calls.Checkpoints.{Runs, no_call, then_write, get_step_result-stable}
use durust.Context.{
  Body, StepEnv, outcome_value, replay_or_guard, replayed_or, checkpoint, record_failure,
  finish_step,
}
use durust.Context.Guard.{record_step_result-first, guard_recalls, guard_refuses, recalled}

module _ {p : Platform} where
  -- The step has this value under its number and name.
  abbrev pub HasValue : String → ℤ → String → p.Value → Inner p → Type 0
  HasValue id seq name v g =
      get_step_result id seq g ≡ some (record { name = name; outcome = output v })

  -- The guard finds the value, or fails, or finds that the step is not recorded.
  abbrev pub Guarded : String → ℤ → String → Inner p → Type 0
  Guarded id seq name g =
      ((v : p.Value) × HasValue id seq name v g)
      ⊎ (((e : Error p) × (replay_or_guard id seq name g ≡ err e))
          ⊎ ((get_step_result id seq g ≡ none) × (replay_or_guard id seq name g ≡ ok none)))

  found :
      (id : String) (seq : ℤ) (name : String) (outcome : StepOutcome p) (g : Inner p)
      → get_step_result id seq g ≡ some (record { name = name; outcome = outcome })
      → Guarded id seq name g
  unfolding recalled outcome_value
  found id seq name (output v) g h = inl (v, h)
  found id seq name (failure m none) g h =
      inr (inl (app m, guard_recalls id seq name (failure m none) g h))
  found id seq name (failure m (some pe)) g h =
      inr (inl (portable pe, guard_recalls id seq name (failure m (some pe)) g h))

  passes :
      (id : String) (seq : ℤ) (name : String) (g : Inner p)
      → get_step_result id seq g ≡ none
      → Guarded id seq name g
  unfolding replay_or_guard
  passes id seq name g fresh = elim (Option-cases (get_workflow_status id g)) [
    | inl absent ↦ inr (inr (fresh, rw (fresh, replay_or_guard, absent)))
    | inr (w, there) ↦ elim (Bool-cases (w.status == status_cancelled)) [
      | inl stops ↦ inr (inl (cancelled id, rw (fresh, replay_or_guard, there, stops)))
      | inr live ↦ inr (inr (fresh, rw (fresh, replay_or_guard, there, live)))
    ]
  ]

  pub guard-cases : (id : String) (seq : ℤ) (name : String) (g : Inner p) → Guarded id seq name g
  guard-cases id seq name g = elim (Option-cases (get_step_result id seq g)) [
    | inl fresh ↦ passes id seq name g fresh
    | inr (rec, there) ↦ elim (Bool-cases (rec.name == name)) [
      | inl same ↦ found id seq name rec.outcome g (
          there
          ∙ ap (λ (n : String). some (record { name = n; outcome = rec.outcome }))
              ((string_eq.eqb_iff rec.name name).0 same))
      | inr other ↦
          inr (inl (unexpected id seq name rec.name, guard_refuses id seq name rec g there other))
    ]
  ]

  -- `replayed_or` writes what `fresh` writes, or nothing.
  pub replayed_or-Runs :
      {A : Type 0} (f : p.Value → A) (r : Result p (Option p.Value)) (g : Inner p)
      (fresh : Result p A × Inner p)
      → Runs g fresh.1
      → Runs g (replayed_or f r g fresh).1
  unfolding replayed_or
  replayed_or-Runs f (ok (some v)) g fresh h = no_call
  replayed_or-Runs f (ok none) g fresh h = h
  replayed_or-Runs f (err e) g fresh h = no_call
  replayed_or-Runs f panicked g fresh h = no_call

  pub finish_step-Runs :
      (rt : StepEnv p) (id : String) (seq : ℤ) (name : String) (r : Result p p.Value)
      (g g' : Inner p)
      → Runs g g'
      → Runs g (finish_step rt id seq name (r, g')).1
  unfolding finish_step checkpoint record_failure
  finish_step-Runs rt id seq name (ok v) g g' h =
      then_write g' _ h (on_record id seq name v none (some rt.started_at_ms) rt.now)
  finish_step-Runs rt id seq name (err e) g g' h =
      then_write g' _ h
        (on_record id seq name p.null (some (rt.encode_error e)) (some rt.started_at_ms) rt.now)
  finish_step-Runs rt id seq name panicked g g' h = h

  not_ok : (e : Error p) (r : Result p p.Value) (v : p.Value) → r ≡ err e → r ≡ ok v → ⊥
  not_ok e r v h k = ground (arith, h, k)

  ok-injective : (u v : p.Value) → ◌≡◌ {A = Result p p.Value} (ok u) (ok v) → u ≡ v
  ok-injective u v h = ground arith

  -- A step that ends with a value has recorded it.
  finish_step-HasValue :
      (rt : StepEnv p) (id : String) (seq : ℤ) (name : String) (r : Result p p.Value) (v : p.Value)
      (g : Inner p)
      → get_step_result id seq g ≡ none
      → (finish_step rt id seq name (r, g)).0 ≡ ok v
      → HasValue id seq name v (finish_step rt id seq name (r, g)).1
  unfolding finish_step checkpoint record_failure outcome_value
  finish_step-HasValue rt id seq name (ok u) v g fresh gives =
      let (first, reads) =
        record_step_result-first id seq name u none (some rt.started_at_ms) rt.now g fresh in
      reads
      ∙ ap (λ (x : p.Value). some (record { name = name; outcome = output x }))
          (ok-injective u v (ap outcome_value (sym first) ∙ gives))
  finish_step-HasValue rt id seq name (err e) v g fresh gives =
      let (first, reads) =
        record_step_result-first id seq name p.null (some (rt.encode_error e))
          (some rt.started_at_ms) rt.now g fresh in
      absurd (
        not_ok e (err e) v refl (
          ap
            (λ (o : StepOutcome p). elim o as (λ x. Result p p.Value) [
              | failure m i ↦ err e
              | output u ↦ ok u
            ])
            (sym first)
          ∙ gives))
  finish_step-HasValue rt id seq name panicked v g fresh gives = absurd (ground arith)

  -- An operation that guards, runs a body and records what it gave.
  abbrev pub guarded :
      StepEnv p → String → ℤ → String → Body p → Inner p → Result p p.Value × Inner p
  guarded rt id seq name body g =
      replayed_or (λ v. v) (replay_or_guard id seq name g) g (finish_step rt id seq name (body g))

  guarded-known :
      (rt : StepEnv p) (id : String) (seq : ℤ) (name : String) (body : Body p) (v : p.Value)
      (g : Inner p)
      → HasValue id seq name v g
      → guarded rt id seq name body g ≡ (ok v, g)
  unfolding replayed_or recalled outcome_value
  guarded-known rt id seq name body v g h =
      rw (guard_recalls id seq name (output v) g h, replayed_or)

  guarded-fails :
      (rt : StepEnv p) (id : String) (seq : ℤ) (name : String) (body : Body p) (e : Error p)
      (g : Inner p)
      → replay_or_guard id seq name g ≡ err e
      → guarded rt id seq name body g ≡ (err e, g)
  unfolding replayed_or
  guarded-fails rt id seq name body e g h = rw (h, replayed_or)

  guarded-fresh :
      (rt : StepEnv p) (id : String) (seq : ℤ) (name : String) (body : Body p) (g : Inner p)
      → replay_or_guard id seq name g ≡ ok none
      → guarded rt id seq name body g ≡ finish_step rt id seq name (body g)
  unfolding replayed_or
  guarded-fresh rt id seq name body g h = rw (h, replayed_or)

  -- Once it has given a value, the value stands recorded.
  pub guarded-HasValue :
      (rt : StepEnv p) (id : String) (seq : ℤ) (name : String) (body : Body p) (v : p.Value)
      (g : Inner p)
      → (get_step_result id seq g ≡ none → get_step_result id seq (body g).1 ≡ none)
      → (guarded rt id seq name body g).0 ≡ ok v
      → HasValue id seq name v (guarded rt id seq name body g).1
  guarded-HasValue rt id seq name body v g leaves gives = elim (guard-cases id seq name g) [
    | inl (u, there) ↦
        let e = guarded-known rt id seq name body u g there in
        reads e
        ∙ there
        ∙ ap (λ (x : p.Value). some (record { name = name; outcome = output x }))
            (ok-injective u v (sym (result e) ∙ gives))
    | inr (inl (e, fails)) ↦ absurd (
        not_ok e (guarded rt id seq name body g).0 v
          (result (guarded-fails rt id seq name body e g fails)) gives)
    | inr (inr (fresh, pass)) ↦
        let e = guarded-fresh rt id seq name body g pass in
        reads e
        ∙ finish_step-HasValue rt id seq name (body g).0 v (body g).1 (leaves fresh)
            (sym (result e) ∙ gives)
  ]
    where
      result : {x y : Result p p.Value × Inner p} → x ≡ y → x.0 ≡ y.0
      result e = ap (λ (r : Result p p.Value × Inner p). r.0) e

      reads :
          {x y : Result p p.Value × Inner p}
          → x ≡ y
          → get_step_result id seq x.1 ≡ get_step_result id seq y.1
      reads e = ap (λ (r : Result p p.Value × Inner p). get_step_result id seq r.1) e

  pub guarded-replays :
      (rt rt' : StepEnv p) (id : String) (seq : ℤ) (name : String) (body body' : Body p)
      (v : p.Value) (g h : Inner p)
      → IsValid (guarded rt id seq name body g).1
      → (get_step_result id seq g ≡ none → get_step_result id seq (body g).1 ≡ none)
      → (guarded rt id seq name body g).0 ≡ ok v
      → Runs (guarded rt id seq name body g).1 h
      → guarded rt' id seq name body' h ≡ (ok v, h)
  guarded-replays rt rt' id seq name body body' v g h valid leaves gives later =
      guarded-known rt' id seq name body' v h (
        get_step_result-stable id seq (guarded rt id seq name body g).1 h
          (record { name = name; outcome = output v }) valid later
          (guarded-HasValue rt id seq name body v g leaves gives))
