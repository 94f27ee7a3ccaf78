-- ===== src/Engine/Spawn/Children.antt =====
-- src/context.rs, `start_workflow`: a child workflow, started once.
use mathlib.Core.Path.{subst}
use durust.Base.{
  ℤ, String, false, Option, none, some, ◌≡◌, refl, sym, ap, ◌∙◌, ◌==◌, string_eq, int_eq, pair_eq,
  ==_refl, arith, inl, inr, Option-cases, option_map,
}
use durust.Platform.{Platform}
use durust.Error.{unexpected, Result, ok, err, panicked}
use durust.Store.{get}
use durust.Store.Laws.{get-insert_same}
use durust.Memory.{Inner, StepRow}
use durust.Memory.Invariant.{IsValid}
use durust.Memory.Steps.{check_child_workflow, record_child_workflow, named_row}
use durust.Memory.Steps.Laws.{entered_new}
use durust.Memory.Calls.{on_insert, on_child}
use durust.Memory.Calls.StepsKept.{insert_workflow_status-steps}
use durust.Memory.Calls.Checkpoints.{
  Runs, no_call, then_write, Runs-trans, Runs-IsValid, Runs-KeepsStep,
}
use durust.Engine.{WorkflowOptions, AuthContext, Runtime, registry_key}
use durust.Engine.Create.{Started, run_row, run_guard, insert_run}
use durust.Engine.Spawn.{spawn_child, child_id_of, child_auth, start_workflow}

module _ {p : Platform} where
  -- Creating a run is one call of the provider at most, and records no step.
  pub insert_run-Runs :
      (rt : Runtime p) (id name : String) (input : p.Value) (opts : WorkflowOptions)
      (parent : Option String) (auth : AuthContext) (now created : p.DateTime) (g : Inner p)
      → Runs g (insert_run rt id name input opts parent auth now created g).1
        × ((insert_run rt id name input opts parent auth now created g).1.steps ≡ g.steps)
  unfolding insert_run
  insert_run-Runs rt id name input opts parent auth now created g =
      elim (Option-cases (run_guard rt opts)) [
        | inr (e, refused) ↦ rw (refused, insert_run) (no_call, refl)
        | inl free ↦
            let row = run_row rt id name input opts parent auth now created in
            rw (free, insert_run)
              (then_write g _ no_call (on_insert row), insert_workflow_status-steps row g)
      ]

  pub spawn_child-Runs :
      (rt : Runtime p) (child name : String) (input : p.Value) (opts : WorkflowOptions)
      (parent : String) (auth : AuthContext) (now created : p.DateTime) (g : Inner p)
      → Runs g (spawn_child rt child name input opts parent auth now created g).1
        × ((spawn_child rt child name input opts parent auth now created g).1.steps ≡ g.steps)
  unfolding spawn_child
  spawn_child-Runs rt child name input opts parent auth now created g =
      elim (Option-cases (get (registry_key name opts.config_name) rt.workflows)) [
        | inl unknown ↦ rw (unknown, spawn_child) (no_call, refl)
        | inr (handler, known) ↦
            rw (known, spawn_child)
              (insert_run-Runs rt child name input opts (some parent) auth now created g)
      ]

  child_row : String → String → StepRow p
  child_row name child = record (named_row name) { child_workflow_id = some child }

  check_of_row :
      (id : String) (seq : ℤ) (r : StepRow p) (g : Inner p)
      → get (id, seq) g.steps ≡ some r
      → check_child_workflow id seq g ≡ option_map (λ child. (child, r.name)) r.child_workflow_id
  unfolding check_child_workflow
  check_of_row id seq r g there = rw (there, check_child_workflow)

  check_of_none :
      (id : String) (seq : ℤ) (g : Inner p)
      → get (id, seq) g.steps ≡ none
      → check_child_workflow id seq g ≡ none
  unfolding check_child_workflow
  check_of_none id seq g absent = rw (absent, check_child_workflow)

  recorded_child :
      (id : String) (seq : ℤ) (name child : String) (g : Inner p)
      → get (id, seq) g.steps ≡ none
      → get (id, seq) (record_child_workflow id seq name child g).steps
        ≡ some (child_row name child)
  unfolding record_child_workflow child_row
  recorded_child id seq name child g absent =
      rw (entered_new id seq (child_row name child) g.steps absent)
        (get-insert_same (id, seq) (child_row name child) g.steps)

  module _ (rt : Runtime p) (show : ℤ → String) (id : String) (auth : AuthContext) (seq : ℤ)
      (name : String) (input : p.Value) (opts : WorkflowOptions) (now created : p.DateTime)
      (g : Inner p) where
    attached :
        (child : String)
        → check_child_workflow id seq g ≡ some (child, name)
        → start_workflow rt show id auth seq name input opts now created g ≡ (ok (child, none), g)
    unfolding start_workflow
    attached child known = rw (known, start_workflow, ==_refl name)

    -- The child that a first call asks for, and the spawning of it.
    wanted : String
    wanted = child_id_of show opts id seq

    spawned : Result p (Started p) × Inner p
    spawned = spawn_child rt wanted name input opts id (child_auth opts auth) now created g

    -- What the call does with a spawned child.
    finish : Result p (Started p) → Inner p → Result p (String × Option (Started p)) × Inner p
    finish (ok run) at = (ok (wanted, some run), record_child_workflow id seq name wanted at)
    finish (err e) at = (err e, at)
    finish panicked at = (panicked, at)

    first_start :
        check_child_workflow id seq g ≡ none
        → start_workflow rt show id auth seq name input opts now created g
          ≡ finish spawned.0 spawned.1
    unfolding start_workflow spawned wanted finish
    first_start new = rw (new, start_workflow) (finished spawned.0 spawned.1)
      where
        finished :
            (r : Result p (Started p)) (at : Inner p)
            → (elim r as (λ x. Result p (String × Option (Started p)) × Inner p) [
              | ok run ↦ (ok (wanted, some run), record_child_workflow id seq name wanted at)
              | err e ↦ (err e, at)
              | panicked ↦ (panicked, at)
            ])
              ≡ finish r at
        finished (ok run) at = refl
        finished (err e) at = refl
        finished panicked at = refl

    finish-Runs : (r : Result p (Started p)) (at : Inner p) → Runs at (finish r at).1
    unfolding finish
    finish-Runs (ok run) at = then_write at _ no_call (on_child id seq name wanted)
    finish-Runs (err e) at = no_call
    finish-Runs panicked at = no_call

    finish-recorded :
        (r : Result p (Started p)) (at : Inner p) (child : String) (launch : Option (Started p))
        → get (id, seq) at.steps ≡ none
        → (finish r at).0 ≡ ok (child, launch)
        → get (id, seq) (finish r at).1.steps ≡ some (child_row name child)
    unfolding finish
    finish-recorded (ok run) at child launch absent h =
        recorded_child id seq name wanted at absent
        ∙ ap (λ (c : String). some (child_row name c)) (ground arith)
    finish-recorded (err e) at child launch absent h = absurd (ground arith)
    finish-recorded panicked at child launch absent h = absurd (ground arith)

    first_start-recorded :
        (child : String) (launch : Option (Started p))
        → get (id, seq) g.steps ≡ none
        → (start_workflow rt show id auth seq name input opts now created g).0 ≡ ok (child, launch)
        → Runs g (start_workflow rt show id auth seq name input opts now created g).1
          × (get
                (id, seq)
                (start_workflow rt show id auth seq name input opts now created g).1.steps
              ≡ some (child_row name child))
    unfolding spawned
    first_start-recorded child launch absent gives =
        let e = first_start (check_of_none id seq g absent) in
        let (run, same) =
          spawn_child-Runs rt wanted name input opts id (child_auth opts auth) now created g in
        (
          subst (λ (x : Result p (String × Option (Started p)) × Inner p). Runs g x.1) (sym e)
              (Runs-trans g spawned.1 (finish spawned.0 spawned.1).1 run
                (finish-Runs spawned.0 spawned.1)),
          ap (λ (x : Result p (String × Option (Started p)) × Inner p). get (id, seq) x.1.steps) e
              ∙ finish-recorded spawned.0 spawned.1 child launch (ap (get (id, seq)) same ∙ absent)
                  (sym (ap (λ (x : Result p (String × Option (Started p)) × Inner p). x.0) e)
                    ∙ gives),
        )

  mismatched :
      (rt : Runtime p) (show : ℤ → String) (id : String) (auth : AuthContext) (seq : ℤ)
      (name : String) (input : p.Value) (opts : WorkflowOptions) (now created : p.DateTime)
      (g : Inner p) (child recorded : String)
      → check_child_workflow id seq g ≡ some (child, recorded)
      → (recorded == name) ≡ false
      → start_workflow rt show id auth seq name input opts now created g
        ≡ (err (unexpected id seq name recorded), g)
  unfolding start_workflow
  mismatched rt show id auth seq name input opts now created g child recorded known differs =
      rw (known, start_workflow, differs)

  -- A child workflow is started once. When a call at a number where nothing is recorded, in valid
  -- tables, gave a child, then the same call after any sequence of calls but deletions and forks,
  -- with any input, options and identity, gives that child again, launches nothing and writes
  -- nothing; and under another name it fails as an unexpected step.
  pub start_workflow-replays :
      (rt rt' : Runtime p) (show : ℤ → String) (id : String) (auth auth' : AuthContext) (seq : ℤ)
      (name : String) (input input' : p.Value) (opts opts' : WorkflowOptions)
      (now now' created created' : p.DateTime) (child : String) (launch : Option (Started p))
      (g h : Inner p)
      → IsValid g
      → get (id, seq) g.steps ≡ none
      → (start_workflow rt show id auth seq name input opts now created g).0 ≡ ok (child, launch)
      → Runs (start_workflow rt show id auth seq name input opts now created g).1 h
      → (start_workflow rt' show id auth' seq name input' opts' now' created' h
          ≡ (ok (child, none), h))
        × ((other : String)
            → (name == other) ≡ false
            → start_workflow rt' show id auth' seq other input' opts' now' created' h
              ≡ (err (unexpected id seq other name), h))
  unfolding child_row
  start_workflow-replays rt rt' show id auth auth' seq name input input' opts opts' now now' created
        created' child launch g h valid absent gives later =
      let (run, there) =
        first_start-recorded rt show id auth seq name input opts now created g child launch absent
          gives in
      let known : check_child_workflow id seq h ≡ some (child, name) =
        check_of_row id seq (child_row name child) h (
          Runs-KeepsStep (id, seq) _ h (Runs-IsValid g _ valid run) later (child_row name child)
            there) in
      (
        attached rt' show id auth' seq name input' opts' now' created' h child known,
        λ other differs.
            mismatched rt' show id auth' seq other input' opts' now' created' h child name known
              differs,
      )
