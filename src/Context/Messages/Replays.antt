-- ===== src/Context/Messages/Replays.antt =====
-- src/context.rs, `recv` and `get_event`, run again after they have returned.
use durust.Base.{
  ℕ, ℤ, String, true, Option, none, some, List, ◌≡◌, ◌≢◌, sym, ap, ◌∙◌, string_eq, int_eq, pair_eq,
  arith, inl, inr, Bool-cases, All,
}
use mathlib.Core.Path.{subst}
use durust.Platform.{Platform}
use durust.Error.{Error, Result, ok, err}
use durust.Provider.{output}
use durust.Memory.{Inner}
use durust.Memory.Invariant.{IsValid}
use durust.Memory.Steps.{get_step_result}
use durust.Memory.Calls.Checkpoints.{Runs, Runs-IsValid, get_step_result-stable}
use durust.Context.{StepEnv, outcome_value, replay_or_guard}
use durust.Context.Guard.{guard_recalls, recalled}
use durust.Context.Program.Guarded.{HasValue, guard-cases}
use durust.Context.Messages.{
  Timers, Turn, Waited, wait_loop, optional, guarded_wait, poll_message, poll_event, recv,
  get_event,
}
use durust.Context.Messages.Receive.{IsElsewhere, stored, Ends, wait_loop-Ends}
use durust.Context.Messages.Polls.{wait_loop-Runs, poll_message-IsPoll, poll_event-IsPoll}

module _ {p : Platform} where
  -- A waiting operation that finds its value recorded.
  wait_known :
      (t : Timers p) (id : String) (seq : ℤ) (name : String) (v : p.Value) (g : Inner p)
      (waited : Waited p)
      → HasValue id seq name v g
      → guarded_wait t (replay_or_guard id seq name g) g waited ≡ (some (ok (optional t v)), g)
  unfolding recalled outcome_value
  wait_known t id seq name v g waited h = rw (guard_recalls id seq name (output v) g h)

  wait_fails :
      (t : Timers p) (id : String) (seq : ℤ) (name : String) (e : Error p) (g : Inner p)
      (waited : Waited p)
      → replay_or_guard id seq name g ≡ err e
      → guarded_wait t (replay_or_guard id seq name g) g waited ≡ (some (err e), g)
  wait_fails t id seq name e g waited h = rw h

  wait_starts :
      (t : Timers p) (id : String) (seq : ℤ) (name : String) (g : Inner p) (waited : Waited p)
      → replay_or_guard id seq name g ≡ ok none
      → guarded_wait t (replay_or_guard id seq name g) g waited ≡ waited
  wait_starts t id seq name g waited h = rw h

  -- What was returned, with a null value taken for an absent one.
  abbrev pub without_null : Timers p → Option p.Value → Option p.Value
  without_null t r = optional t (stored p r)

  optional-stored :
      (t : Timers p) (v : p.Value)
      → t.is_null p.null ≡ true
      → optional t v ≡ without_null t (optional t v)
  optional-stored t v null = elim (Bool-cases (t.is_null v)) [
    | inl absent ↦ rw (absent, null)
    | inr there ↦ rw (there, there)
  ]

  ok-injective :
      (x y : Option p.Value)
      → ◌≡◌ {A = Option (Result p (Option p.Value))} (some (ok x)) (some (ok y))
      → x ≡ y
  ok-injective x y h = ground arith

  not_ok :
      (e : Error p) (y : Option p.Value)
      → ◌≡◌ {A = Option (Result p (Option p.Value))} (some (err e)) (some (ok y))
      → ⊥
  not_ok e y h = ground arith

  result : {x y : Waited p} → x ≡ y → x.0 ≡ y.0
  result e = ap (λ (w : Waited p). w.0) e

  module _ (t : Timers p) (id : String) (seq : ℤ) (name : String) (g h : Inner p)
      (waited waited' : Waited p) where
    wait-replays :
        (r : Option p.Value)
        → t.is_null p.null ≡ true
        → IsValid g
        → Runs g waited.1
        → (get_step_result id seq g ≡ none → Ends id seq name waited)
        → (guarded_wait t (replay_or_guard id seq name g) g waited).0 ≡ some (ok r)
        → Runs (guarded_wait t (replay_or_guard id seq name g) g waited).1 h
        → guarded_wait t (replay_or_guard id seq name h) h waited'
          ≡ (some (ok (without_null t r)), h)
    wait-replays r null valid runs ends gives later = elim (guard-cases id seq name g) [
      | inl (v, there) ↦
          let e = wait_known t id seq name v g waited there in
          let is_r = ok-injective (optional t v) r (sym (result e) ∙ gives) in
          known v g valid there (subst (λ (w : Waited p). Runs w.1 h) e later)
          ∙ ap (λ (x : Option p.Value). (some (ok x), h))
              (optional-stored t v null ∙ ap (without_null t) is_r)
      | inr (inl (e, fails)) ↦
          absurd (not_ok e r (sym (result (wait_fails t id seq name e g waited fails)) ∙ gives))
      | inr (inr (fresh, passes)) ↦
          let e = wait_starts t id seq name g waited passes in
          known (stored p r) waited.1 (Runs-IsValid g waited.1 valid runs)
            (ends fresh r (sym (result e) ∙ gives)) (subst (λ (w : Waited p). Runs w.1 h) e later)
    ]
      where
        known :
            (v : p.Value) (at : Inner p)
            → IsValid at
            → HasValue id seq name v at
            → Runs at h
            → guarded_wait t (replay_or_guard id seq name h) h waited'
              ≡ (some (ok (optional t v)), h)
        known v at ok_at has run = wait_known t id seq name v h waited' (
            get_step_result-stable id seq at h (record { name = name; outcome = output v }) ok_at
              run has)

  -- A `recv` that has returned, in valid tables and whatever other calls came while it waited, as
  -- long as they recorded nothing under its number, which is another than its deadline's: run again
  -- after any sequence of calls but deletions and forks, it returns what it returned without waiting,
  -- and consumes no message. Only a null message is replayed as none.
  pub recv-replays :
      (rt rt' : StepEnv p) (t : Timers p) (id : String) (seq deadline_seq : ℤ) (topic : String)
      (timeout : ℕ) (turns turns' : List (Turn p)) (r : Option p.Value) (g h : Inner p)
      → t.is_null p.null ≡ true
      → deadline_seq ≢ seq
      → All (IsElsewhere id seq) turns
      → IsValid g
      → (recv rt t id seq deadline_seq topic timeout turns g).0 ≡ some (ok r)
      → Runs (recv rt t id seq deadline_seq topic timeout turns g).1 h
      → recv rt' t id seq deadline_seq topic timeout turns' h ≡ (some (ok (without_null t r)), h)
  unfolding recv
  recv-replays rt rt' t id seq deadline_seq topic timeout turns turns' r g h null differ legal valid
        gives later =
      let poll = poll_message id topic seq in
      let is_poll = poll_message-IsPoll id topic seq in
      wait-replays t id seq "DBOS.recv" g h
        (wait_loop rt t id seq deadline_seq "DBOS.recv" timeout poll turns none g)
        (wait_loop rt' t id seq deadline_seq "DBOS.recv" timeout poll turns' none h) r null valid
        (wait_loop-Runs rt t id seq deadline_seq "DBOS.recv" timeout poll is_poll turns none g
          legal)
        (λ fresh.
          wait_loop-Ends rt t id seq deadline_seq "DBOS.recv" timeout poll is_poll turns none g
            differ legal fresh)
        gives later

  -- A `get_event` that has returned, in valid tables and whatever other calls came while it waited,
  -- as long as they recorded nothing under its number: run again after any sequence of calls but
  -- deletions and forks, it returns what it returned, though the event may have been set anew. Only
  -- a null value is replayed as none.
  pub get_event-replays :
      (rt rt' : StepEnv p) (t : Timers p) (id : String) (seq deadline_seq : ℤ) (target key : String)
      (timeout : ℕ) (turns turns' : List (Turn p)) (r : Option p.Value) (g h : Inner p)
      → t.is_null p.null ≡ true
      → deadline_seq ≢ seq
      → All (IsElsewhere id seq) turns
      → IsValid g
      → (get_event rt t id seq deadline_seq target key timeout turns g).0 ≡ some (ok r)
      → Runs (get_event rt t id seq deadline_seq target key timeout turns g).1 h
      → get_event rt' t id seq deadline_seq target key timeout turns' h
        ≡ (some (ok (without_null t r)), h)
  unfolding get_event
  get_event-replays rt rt' t id seq deadline_seq target key timeout turns turns' r g h null differ
        legal valid gives later =
      let poll = poll_event rt id seq target key in
      let is_poll = poll_event-IsPoll rt id seq target key in
      wait-replays t id seq "DBOS.getEvent" g h
        (wait_loop rt t id seq deadline_seq "DBOS.getEvent" timeout poll turns none g)
        (wait_loop rt' t id seq deadline_seq "DBOS.getEvent" timeout
          (poll_event rt' id seq target key) turns' none h)
        r null valid
        (wait_loop-Runs rt t id seq deadline_seq "DBOS.getEvent" timeout poll is_poll turns none g
          legal)
        (λ fresh.
          wait_loop-Ends rt t id seq deadline_seq "DBOS.getEvent" timeout poll is_poll turns none g
            differ legal fresh)
        gives later
