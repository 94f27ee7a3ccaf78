-- ===== src/Context/Messages/Deadline.antt =====
-- src/context.rs, `durable_wake_at`: the instant that a timer waits for, over crashes.
use durust.Base.{
  ℕ, ℤ, String, true, false, none, some, ◌≡◌, refl, sym, ap, ◌∙◌, ◌==◌, string_eq, int_eq, pair_eq,
  arith, inl, inr, Bool-cases, Option-cases,
}
use durust.Platform.{Platform}
use durust.Error.{Error, unexpected, Result, ok, err, ◌>>=◌}
use durust.Provider.{StepOutcome, output, RecordedStep}
use durust.Memory.{Inner}
use durust.Memory.Invariant.{IsValid}
use durust.Memory.Steps.{get_step_result, record_step_result}
use durust.Memory.Calls.{on_record}
use durust.Memory.Calls.Checkpoints.{
  Runs, no_call, then_write, Runs-IsValid, get_step_result-stable,
}
use durust.Context.{StepEnv, outcome_value}
use durust.Context.Guard.{record_step_result-first}
use durust.Context.Messages.{Timers, durable_wake_at}

module _ {p : Platform} (t : Timers p) where
  -- The instant that an outcome stands for.
  abbrev pub wake_of : StepOutcome p → Result p p.DateTime
  wake_of outcome = outcome_value outcome >>= t.value_time

  first :
      (rt : StepEnv p) (id : String) (seq : ℤ) (dur : ℕ) (asked : p.DateTime) (g : Inner p)
      → get_step_result id seq g ≡ none
      → durable_wake_at rt t id seq dur asked g ≡ (
        wake_of
            (record_step_result id seq "DBOS.sleep"
              (t.time_value (t.later asked dur))
              none
              none
              rt.now
              g).0,
        (record_step_result id seq "DBOS.sleep"
            (t.time_value (t.later asked dur))
            none
            none
            rt.now
            g).1,
      )
  unfolding durable_wake_at
  first rt id seq dur asked g fresh = rw (fresh, durable_wake_at)

  again :
      (rt : StepEnv p) (id : String) (seq : ℤ) (dur : ℕ) (asked : p.DateTime)
      (recorded : RecordedStep p) (g : Inner p)
      → get_step_result id seq g ≡ some recorded
      → (recorded.name == "DBOS.sleep") ≡ true
      → durable_wake_at rt t id seq dur asked g ≡ (wake_of recorded.outcome, g)
  unfolding durable_wake_at
  again rt id seq dur asked recorded g there same = rw (there, durable_wake_at, same)

  refused :
      (rt : StepEnv p) (id : String) (seq : ℤ) (dur : ℕ) (asked : p.DateTime)
      (recorded : RecordedStep p) (g : Inner p)
      → get_step_result id seq g ≡ some recorded
      → (recorded.name == "DBOS.sleep") ≡ false
      → durable_wake_at rt t id seq dur asked g
        ≡ (err (unexpected id seq "DBOS.sleep" recorded.name), g)
  unfolding durable_wake_at
  refused rt id seq dur asked recorded g there other = rw (there, durable_wake_at, other)

  pub durable_wake_at-Runs :
      (rt : StepEnv p) (id : String) (seq : ℤ) (dur : ℕ) (asked : p.DateTime) (g : Inner p)
      → Runs g (durable_wake_at rt t id seq dur asked g).1
  durable_wake_at-Runs rt id seq dur asked g = elim (Option-cases (get_step_result id seq g)) [
    | inl fresh ↦ rw (first rt id seq dur asked g fresh) (
        then_write g _ no_call
          (on_record id seq "DBOS.sleep" (t.time_value (t.later asked dur)) none none rt.now))
    | inr (rec, there) ↦ elim (Bool-cases (rec.name == "DBOS.sleep")) [
      | inl same ↦ rw (again rt id seq dur asked rec g there same) no_call
      | inr other ↦ rw (refused rt id seq dur asked rec g there other) no_call
    ]
  ]

  -- Once it has returned, some timer row stands there that gives the instant.
  fixed :
      (rt : StepEnv p) (id : String) (seq : ℤ) (dur : ℕ) (asked d : p.DateTime) (g : Inner p)
      → (durable_wake_at rt t id seq dur asked g).0 ≡ ok d
      → (recorded : RecordedStep p) × (get_step_result id seq
            (durable_wake_at rt t id seq dur asked g).1
          ≡ some recorded)
        × ((recorded.name == "DBOS.sleep") ≡ true)
        × (wake_of recorded.outcome ≡ ok d)
  fixed rt id seq dur asked d g gives = elim (Option-cases (get_step_result id seq g)) [
    | inl fresh ↦
        let value = t.time_value (t.later asked dur) in
        let e = first rt id seq dur asked g fresh in
        let (given, reads) =
          record_step_result-first id seq "DBOS.sleep" value none none rt.now g fresh in
        (
          record { name = "DBOS.sleep"; outcome = output value },
          ap (λ (r : Result p p.DateTime × Inner p). get_step_result id seq r.1) e ∙ reads,
          refl,
          ap wake_of (sym given) ∙ sym (ap (λ (r : Result p p.DateTime × Inner p). r.0) e) ∙ gives,
        )
    | inr (rec, there) ↦ elim (Bool-cases (rec.name == "DBOS.sleep")) [
      | inl same ↦
          let e = again rt id seq dur asked rec g there same in
          (
            rec,
            ap (λ (r : Result p p.DateTime × Inner p). get_step_result id seq r.1) e ∙ there,
            same,
            sym (ap (λ (r : Result p p.DateTime × Inner p). r.0) e) ∙ gives,
          )
      | inr other ↦ absurd (
          not_ok (unexpected id seq "DBOS.sleep" rec.name) (
            sym (
              ap (λ (r : Result p p.DateTime × Inner p). r.0)
                (refused rt id seq dur asked rec g there other))
            ∙ gives))
    ]
  ]
    where
      not_ok : (e : Error p) → ◌≡◌ {A = Result p p.DateTime} (err e) (ok d) → ⊥
      not_ok e h = ground arith

  -- Where an instant is read back from JSON as it was written: a timer that is not recorded is set
  -- to the duration after the clock. And in valid tables, the instant that a timer has once given
  -- it gives again after any sequence of calls but deletions and forks, whatever the duration and
  -- the clock are then, and changes nothing: a crash never moves it.
  pub durable_wake_at-stable :
      (rt rt' : StepEnv p) (id : String) (seq : ℤ) (dur dur' : ℕ) (asked asked' : p.DateTime)
      (g h : Inner p)
      → ((d : p.DateTime) → t.value_time (t.time_value d) ≡ ok d)
      → IsValid g
      → (get_step_result id seq g ≡ none
          → (durable_wake_at rt t id seq dur asked g).0 ≡ ok (t.later asked dur))
        × ((d : p.DateTime)
            → (durable_wake_at rt t id seq dur asked g).0 ≡ ok d
            → Runs (durable_wake_at rt t id seq dur asked g).1 h
            → durable_wake_at rt' t id seq dur' asked' h ≡ (ok d, h))
  unfolding outcome_value
  durable_wake_at-stable rt rt' id seq dur dur' asked asked' g h reads valid = (
    λ fresh.
        ap (λ (r : Result p p.DateTime × Inner p). r.0) (first rt id seq dur asked g fresh)
        ∙ ap wake_of
            (record_step_result-first id seq "DBOS.sleep" (t.time_value (t.later asked dur)) none
              none rt.now g fresh).0
        ∙ reads (t.later asked dur),
    λ d gives run.
        let (rec, there, same, is_d) = fixed rt id seq dur asked d g gives in
        again rt' id seq dur' asked' rec h
          (get_step_result-stable id seq (durable_wake_at rt t id seq dur asked g).1 h rec
            (Runs-IsValid g _ valid (durable_wake_at-Runs rt id seq dur asked g)) run there)
          same
        ∙ ap (λ (r : Result p p.DateTime). (r, h)) is_d,
  )
