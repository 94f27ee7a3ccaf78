-- ===== src/Context/Program/Steps.antt =====
-- src/context.rs: `step`, `step_with` and recorded values as operations of a workflow.
use durust.Base.{
  ℕ, zero, suc, ℤ, String, Bool, not, Option, none, ◌≡◌, refl, string_eq, int_eq, pair_eq,
  is_none_or, inl, inr, Bool-cases, Option-cases, ◌==◌, if◌then◌else◌,
}
use durust.Platform.{Platform}
use durust.Error.{Error, Result, ok, err, panicked}
use durust.Memory.{Inner}
use durust.Memory.Steps.{get_step_result}
use durust.Memory.Calls.{on_record}
use durust.Memory.Calls.Checkpoints.{Runs, no_call, then_write, Runs-IsValid, Runs-trans}
use durust.Context.{
  Body, StepEnv, replay_or_guard, finish_step, run_step_catching, run_with_retries, step, step_with,
  durable_value,
}
use durust.Context.Once.{durable_value-replays}
use durust.Context.Operation.{Operation, IsClosure}
use durust.Context.Program.Guarded.{guarded, guarded-replays, replayed_or-Runs, finish_step-Runs}

module _ {p : Platform} where
  pub guarded-Runs :
      (rt : StepEnv p) (id : String) (seq : ℤ) (name : String) (body : Body p) (g : Inner p)
      → Runs g (body g).1
      → Runs g (guarded rt id seq name body g).1
  guarded-Runs rt id seq name body g writes =
      replayed_or-Runs (λ v. v) (replay_or_guard id seq name g) g
        (finish_step rt id seq name (body g))
        (finish_step-Runs rt id seq name (body g).0 g (body g).1 writes)

  -- What holds after one run and after the runs that may follow holds after a retried run.
  retried :
      (Holds : Inner p → Type 0) (retry_if : Option (Error p → Bool)) (r : Result p p.Value)
      (g : Inner p) (again : Result p p.Value × Inner p)
      → Holds g
      → Holds again.1
      → Holds
          (elim r as (λ x. Result p p.Value × Inner p) [
            | ok v ↦ (ok v, g)
            | err e ↦ if not (is_none_or retry_if (λ accepts. accepts e)) then (err e, g) else again
            | panicked ↦ (panicked, g)
          ]).1
  retried Holds retry_if (ok v) g again h k = h
  retried Holds retry_if (err e) g again h k =
      elim (Bool-cases (is_none_or retry_if (λ accepts. accepts e))) [
        | inl more ↦ rw more k
        | inr ends ↦ rw ends h
      ]
  retried Holds retry_if panicked g again h k = h

  pub run_with_retries-IsClosure :
      (rt : StepEnv p) (id name : String) (left : ℕ) (retry_if : Option (Error p → Bool))
      (f : Body p)
      → IsClosure id f
      → IsClosure id (run_with_retries rt name left retry_if f)
  unfolding run_with_retries run_step_catching
  run_with_retries-IsClosure rt id name zero retry_if f c = record {
    by_calls = c.by_calls;
    no_steps = c.no_steps;
  }
  run_with_retries-IsClosure rt id name (suc left) retry_if f c =
      let more = run_with_retries-IsClosure rt id name left retry_if f c in
      record {
        by_calls = λ g.
            retried (Runs g) retry_if (run_step_catching rt name f g).0 (f g).1
              (run_with_retries rt name left retry_if f (f g).1) (c.by_calls g)
              (Runs-trans g (f g).1 (run_with_retries rt name left retry_if f (f g).1).1
                (c.by_calls g) (more.by_calls (f g).1));
        no_steps = λ seq g fresh.
            retried (λ h. get_step_result id seq h ≡ none) retry_if
              (run_step_catching rt name f g).0 (f g).1
              (run_with_retries rt name left retry_if f (f g).1) (c.no_steps seq g fresh)
              (more.no_steps seq (f g).1 (c.no_steps seq g fresh));
      }

  -- A guarded closure is an operation.
  abbrev pub guarded_operation :
      (id name : String) (body : StepEnv p → Body p)
      → ((rt : StepEnv p) → IsClosure id (body rt))
      → Operation p id
  guarded_operation id name body c = record {
    run = λ rt seq g. guarded rt id seq name (body rt) g;
    writes = λ rt seq g. guarded-Runs rt id seq name (body rt) g ((c rt).by_calls g);
    replays = λ rt rt' seq v g h valid gives later.
        guarded-replays rt rt' id seq name (body rt) (body rt') v g h
          (Runs-IsValid g _ valid (guarded-Runs rt id seq name (body rt) g ((c rt).by_calls g)))
          ((c rt).no_steps seq g) gives later;
  }

  pub catching-IsClosure :
      (rt : StepEnv p) (id name : String) (f : Body p)
      → IsClosure id f
      → IsClosure id (run_step_catching rt name f)
  unfolding run_step_catching
  catching-IsClosure rt id name f c = record { by_calls = c.by_calls; no_steps = c.no_steps }

  -- `ctx.step(name, f)`
  abbrev pub step_operation : (id name : String) (f : Body p) → IsClosure id f → Operation p id
  step_operation id name f c =
      guarded_operation id name (λ rt. run_step_catching rt name f)
        (λ rt. catching-IsClosure rt id name f c)

  -- `ctx.step_with(opts, f)`
  abbrev pub step_with_operation :
      (id name : String) (max_retries : ℕ) (retry_if : Option (Error p → Bool)) (f : Body p)
      → IsClosure id f
      → Operation p id
  step_with_operation id name max_retries retry_if f c =
      guarded_operation id name (λ rt. run_with_retries rt name max_retries retry_if f)
        (λ rt. run_with_retries-IsClosure rt id name max_retries retry_if f c)

  pub step_operation_lem :
      (id name : String) (f : Body p) (c : IsClosure id f) (rt : StepEnv p) (seq : ℤ) (g : Inner p)
      → (step_operation id name f c).run rt seq g ≡ step rt id seq name f g
  unfolding step
  step_operation_lem id name f c rt seq g = refl

  pub step_with_operation_lem :
      (id name : String) (max_retries : ℕ) (retry_if : Option (Error p → Bool)) (f : Body p)
      (c : IsClosure id f) (rt : StepEnv p) (seq : ℤ) (g : Inner p)
      → (step_with_operation id name max_retries retry_if f c).run rt seq g
        ≡ step_with rt id seq name max_retries retry_if f g
  unfolding step_with
  step_with_operation_lem id name max_retries retry_if f c rt seq g = refl

  pub durable_value-Runs :
      (rt : StepEnv p) (id : String) (seq : ℤ) (name : String) (produced : p.Value) (g : Inner p)
      → Runs g (durable_value rt id seq name produced g).1
  unfolding durable_value
  durable_value-Runs rt id seq name produced g = elim (Option-cases (get_step_result id seq g)) [
    | inl fresh ↦
        rw (fresh, durable_value)
          (then_write g _ no_call (on_record id seq name produced none none rt.now))
    | inr (rec, there) ↦ elim (Bool-cases (rec.name == name)) [
      | inl same ↦ rw (there, same, durable_value) no_call
      | inr other ↦ rw (there, other, durable_value) no_call
    ]
  ]

  -- `ctx.now()`, `ctx.uuid()` and `ctx.random()`: `produce rt` is what is drawn in that run.
  abbrev pub value_operation : (id name : String) (produce : StepEnv p → p.Value) → Operation p id
  value_operation id name produce = record {
    run = λ rt seq g. durable_value rt id seq name (produce rt) g;
    writes = λ rt seq g. durable_value-Runs rt id seq name (produce rt) g;
    replays = λ rt rt' seq v g h valid gives later.
        durable_value-replays rt rt' id seq name (produce rt) (produce rt') v g h gives
          (Runs-IsValid g _ valid (durable_value-Runs rt id seq name (produce rt) g)) later;
  }
