-- ===== src/Engine/Run/Outcome.antt =====
-- src/engine.rs and src/handle.rs: what a run returns to its caller and what observers then read.
use mathlib.Core.Path.{subst}
use durust.Base.{
  ℤ, String, true, false, ◌&&◌, ◌||◌, Option, none, some, List, [], ◌∷◌, ◌≡◌, refl, sym, ap, ◌∙◌,
  ◌==◌, string_eq, ==_refl, arith,
}
use durust.Platform.{Platform}
use durust.Error.{Error, cancelled, app, Result, ok, err, panicked}
use durust.Store.{get, update}
use durust.Store.Laws.{get-update}
use durust.Provider.{WorkflowStatus, is_terminal, status_success, status_error, status_cancelled}
use durust.Memory.{Inner}
use durust.Memory.Lifecycle.{get_workflow_status, with_status, set_workflow_status}
use durust.Engine.{AuthContext, WorkflowFn}
use durust.Engine.Run.{RunEnv, recorded, record_error, conclude, expired, run_to_completion}
use durust.Handle.{terminal_to_result, polled_result}

module _ {p : Platform} where
  -- Any error but a cancellation.
  abbrev pub NotCancelled : Error p → Type 0
  NotCancelled e = (other : String) → e ≡ cancelled other → ⊥

  -- A status is written unless it completes a cancelled workflow.
  written :
      (id status : String) (output : Option p.Value) (error : Option String) (now : p.DateTime)
      (row : WorkflowStatus p) (g : Inner p)
      → get id g.workflows ≡ some row
      → ((status == status_success || status == status_error) && row.status == status_cancelled)
        ≡ false
      → set_workflow_status id status output error now g ≡ (
        ok tt,
        record g { workflows = update id (with_status status output error now) g.workflows },
      )
  unfolding set_workflow_status
  written id status output error now row g there free = rw (there, free, set_workflow_status)

  refused :
      (id status : String) (output : Option p.Value) (error : Option String) (now : p.DateTime)
      (row : WorkflowStatus p) (g : Inner p)
      → get id g.workflows ≡ some row
      → ((status == status_success || status == status_error) && row.status == status_cancelled)
        ≡ true
      → set_workflow_status id status output error now g ≡ (err (cancelled id), g)
  unfolding set_workflow_status
  refused id status output error now row g there bad = rw (there, bad, set_workflow_status)

  -- An observer that polls reads the row of an ended workflow.
  observed :
      (id : String) (w : WorkflowStatus p) (g : Inner p) (later : List (Inner p))
      → get id g.workflows ≡ some w
      → is_terminal w.status ≡ true
      → polled_result id (g ∷ later) ≡ some (terminal_to_result id w)
  unfolding polled_result get_workflow_status
  observed id w g later there ended = rw (there, polled_result, ended)

  -- The row after a status is written.
  row_after :
      (id status : String) (output : Option p.Value) (error : Option String) (now : p.DateTime)
      (row : WorkflowStatus p) (g : Inner p)
      → get id g.workflows ≡ some row
      → get id (update id (with_status status output error now) g.workflows)
        ≡ some (with_status status output error now row)
  row_after id status output error now row g there =
      ground (
        arith,
        get-update id id (with_status status output error now) g.workflows,
        ==_refl id,
        there,
      )

  module _ (env : RunEnv p) (id : String) (row : WorkflowStatus p) (g : Inner p)
      (later : List (Inner p)) (there : get id g.workflows ≡ some row) where
    success_observed :
        (v : p.Value)
        → (row.status == status_cancelled) ≡ false
        → ((conclude env id (ok v, g)).0 ≡ ok v)
          × (polled_result id ((conclude env id (ok v, g)).1 ∷ later) ≡ some (ok v))
    unfolding conclude with_status is_terminal terminal_to_result
    success_observed v live =
        let e = written id status_success (some v) none env.now row g there live in
        (
          rw e,
          rw e (
              observed id (with_status status_success (some v) none env.now row)
                (record g {
                  workflows =
                      update id (with_status status_success (some v) none env.now) g.workflows;
                })
                later (row_after id status_success (some v) none env.now row g there) refl),
        )

    error_observed :
        (e : Error p)
        → (row.status == status_cancelled) ≡ false
        → row.error_info ≡ none
        → (recorded
              (set_workflow_status id status_error none (some (env.encode_error e)) env.now g)
              (err e)).0
            ≡ err e
          × (polled_result id (
                (recorded
                  (set_workflow_status id status_error none (some (env.encode_error e)) env.now g)
                  (err e)).1
                ∷ later)
              ≡ some (err (app (env.encode_error e))))
    unfolding with_status is_terminal terminal_to_result
    error_observed e live plain =
        let text = some (env.encode_error e) in
        let w = written id status_error none text env.now row g there live in
        (
          rw w,
          rw w (
              observed id (with_status status_error none text env.now row)
                (record g {
                  workflows = update id (with_status status_error none text env.now) g.workflows;
                })
                later (row_after id status_error none text env.now row g there) refl
              ∙ rw plain),
        )

    cancel_observed :
        (other : String)
        → ((conclude env id (err (cancelled other), g)).0 ≡ err (cancelled id))
          × (polled_result id ((conclude env id (err (cancelled other), g)).1 ∷ later)
              ≡ some (err (cancelled id)))
    unfolding conclude record_error with_status is_terminal terminal_to_result
    cancel_observed other =
        let text = some "cancelled" in
        let w = written id status_cancelled none text env.now row g there refl in
        (
          rw w,
          rw w (
              observed id (with_status status_cancelled none text env.now row)
                (record g {
                  workflows =
                      update id (with_status status_cancelled none text env.now) g.workflows;
                })
                later (row_after id status_cancelled none text env.now row g there) refl),
        )

    -- A success that comes after a cancellation.
    late_success :
        (v : p.Value)
        → row.status ≡ status_cancelled
        → conclude env id (ok v, g) ≡ (err (cancelled id), g)
    unfolding conclude
    late_success v stopped =
        ap (λ (r : Result p (Unit {0}) × Inner p). recorded r (ok v))
          (refused id status_success (some v) none env.now row g there (rw stopped))

  plain_error :
      (env : RunEnv p) (id : String) (e : Error p) (g : Inner p)
      → NotCancelled e
      → record_error env id e g
        ≡ recorded
            (set_workflow_status id status_error none (some (env.encode_error e)) env.now g)
            (err e)
  unfolding record_error
  plain_error env id (cancelled other) g other_than = absurd (other_than other refl)
  plain_error env id _ g other_than = refl

  module _ (env : RunEnv p) (handler : WorkflowFn p) (id : String) (input : p.Value)
      (deadline_ms : Option ℤ) (auth : AuthContext) (cut : Option (Inner p)) (g : Inner p) where
    ends :
        (r : Result p p.Value)
        → expired deadline_ms cut ≡ none
        → (handler id auth input g).0 ≡ r
        → run_to_completion env handler id input deadline_ms auth cut g
          ≡ conclude env id (r, (handler id auth input g).1)
    unfolding run_to_completion
    ends r in_time e =
        rw (in_time, run_to_completion)
          (ap (λ (x : Result p p.Value). conclude env id (x, (handler id auth input g).1)) e)

    pub run_to_completion-observed :
        (row : WorkflowStatus p) (later : List (Inner p))
        → expired deadline_ms cut ≡ none
        → get id (handler id auth input g).1.workflows ≡ some row
        → ((v : p.Value)
            → (handler id auth input g).0 ≡ ok v
            → (row.status == status_cancelled) ≡ false
            → ((run_to_completion env handler id input deadline_ms auth cut g).0 ≡ ok v)
              × (polled_result id
                    ((run_to_completion env handler id input deadline_ms auth cut g).1 ∷ later)
                  ≡ some (ok v)))
          × ((e : Error p)
              → (handler id auth input g).0 ≡ err e
              → NotCancelled e
              → (row.status == status_cancelled) ≡ false
              → row.error_info ≡ none
              → ((run_to_completion env handler id input deadline_ms auth cut g).0 ≡ err e)
                × (polled_result id
                      ((run_to_completion env handler id input deadline_ms auth cut g).1 ∷ later)
                    ≡ some (err (app (env.encode_error e)))))
          × ((other : String)
              → (handler id auth input g).0 ≡ err (cancelled other)
              → ((run_to_completion env handler id input deadline_ms auth cut g).0
                  ≡ err (cancelled id))
                × (polled_result id
                      ((run_to_completion env handler id input deadline_ms auth cut g).1 ∷ later)
                    ≡ some (err (cancelled id))))
    unfolding conclude
    run_to_completion-observed row later in_time there = (
      λ v gives live.
          subst
            (λ (x : Result p p.Value × Inner p).
              (x.0 ≡ ok v) × (polled_result id (x.1 ∷ later) ≡ some (ok v)))
            (sym (ends (ok v) in_time gives))
            (success_observed env id row (handler id auth input g).1 later there v live),
      λ e gives other_than live plain.
          subst
            (λ (x : Result p p.Value × Inner p).
              (x.0 ≡ err e)
              × (polled_result id (x.1 ∷ later) ≡ some (err (app (env.encode_error e)))))
            (sym (
              ends (err e) in_time gives
              ∙ plain_error env id e (handler id auth input g).1 other_than))
            (error_observed env id row (handler id auth input g).1 later there e live plain),
      λ other gives.
          subst
            (λ (x : Result p p.Value × Inner p).
              (x.0 ≡ err (cancelled id))
              × (polled_result id (x.1 ∷ later) ≡ some (err (cancelled id))))
            (sym (ends (err (cancelled other)) in_time gives))
            (cancel_observed env id row (handler id auth input g).1 later there other),
    )

    pub run_to_completion-yields :
        (row : WorkflowStatus p)
        → expired deadline_ms cut ≡ none
        → get id (handler id auth input g).1.workflows ≡ some row
        → ((handler id auth input g).0 ≡ panicked
            → (run_to_completion env handler id input deadline_ms auth cut g).1
              ≡ (handler id auth input g).1)
          × ((v : p.Value)
              → (handler id auth input g).0 ≡ ok v
              → row.status ≡ status_cancelled
              → run_to_completion env handler id input deadline_ms auth cut g
                ≡ (err (cancelled id), (handler id auth input g).1))
    unfolding conclude
    run_to_completion-yields row in_time there = (
      λ fell. ap (λ (x : Result p p.Value × Inner p). x.1) (ends panicked in_time fell),
      λ v gives stopped.
          ends (ok v) in_time gives
          ∙ late_success env id row (handler id auth input g).1 [] there v stopped,
    )
