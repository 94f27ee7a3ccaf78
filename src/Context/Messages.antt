-- ===== src/Context/Messages.antt =====
-- src/context.rs: durable timers, and the operations on messages and events, which wait on them. A
-- value is stored as JSON; here a message is the JSON value itself, and an absent one is null.
pub mod Deadline
pub mod Receive
pub mod Polls
pub mod Replays
pub mod Returns
pub mod Effects
pub mod Send
use durust.Base.{
  ℕ, ℤ, String, Bool, true, false, not, Option, none, some, List, [], ◌∷◌, ◌==◌, string_eq, int_eq,
  pair_eq, if◌then◌else◌,
}
use durust.Platform.{Platform}
use durust.Error.{Error, unexpected, Result, ok, err, panicked, ◌>>=◌}
use durust.Provider.{StepOutcome, RecordedStep}
use durust.Memory.{Inner}
use durust.Memory.Steps.{get_step_result, record_step_result}
use durust.Memory.Mailbox.{insert_notification, consume_notification}
use durust.Memory.Events.{get_event_value}
use durust.Context.{StepEnv, outcome_value, replay_or_guard, replayed_or, record_done}

-- chrono and serde_json: an instant some nanoseconds later, an instant as a JSON value and back,
-- and the test for a null value.
pub record Timers (p : Platform) : Type 0 where
  pub later : p.DateTime → ℕ → p.DateTime
  pub time_value : p.DateTime → p.Value
  pub value_time : p.Value → Result p p.DateTime
  pub is_null : p.Value → Bool

-- One turn of a waiting loop: what other calls write before it, the clock when the deadline is
-- fixed, and the clock when it is compared.
pub record Turn (p : Platform) : Type 0 where
  pub elsewhere : Inner p → Inner p
  pub asked : p.DateTime
  pub now : p.DateTime

-- What a waiting operation has come to: none, if it still waits.
abbrev pub Waited : Platform → Type 0
Waited p = Option (Result p (Option p.Value)) × Inner p

module _ {p : Platform} where
  unfoldable pub durable_wake_at :
      StepEnv p → Timers p → String → ℤ → ℕ → p.DateTime → Inner p → Result p p.DateTime × Inner p
  unfolding outcome_value
  durable_wake_at rt t id seq dur asked g = elim (get_step_result id seq g) [
    | some rec ↦
        if not (rec.name == "DBOS.sleep")
        then (err (unexpected id seq "DBOS.sleep" rec.name), g)
        else (outcome_value rec.outcome >>= t.value_time, g)
    | none ↦
        let (outcome, g') =
          record_step_result id seq "DBOS.sleep" (t.time_value (t.later asked dur)) none none rt.now
            g in
        (outcome_value outcome >>= t.value_time, g')
  ]

  -- The instant that the call sleeps until, and none if it has passed.
  unfoldable pub sleep :
      StepEnv p
      → Timers p
      → String
      → ℤ
      → ℕ
      → p.DateTime
      → p.DateTime
      → Inner p
      → Result p (Option p.DateTime) × Inner p
  unfolding durable_wake_at
  sleep rt t id seq dur asked now g =
      let (woken, g') = durable_wake_at rt t id seq dur asked g in
      (woken >>= (λ wake_at. ok (if p.leb_time wake_at now then none else some wake_at)), g')

  -- `fresh` is the new uuid of the notification.
  unfoldable pub send :
      StepEnv p
      → String
      → ℤ
      → String
      → p.Value
      → String
      → String
      → p.DateTime
      → Inner p
      → Result p (Unit {0}) × Inner p
  unfolding replay_or_guard replayed_or record_done
  send rt id seq destination_id message topic fresh now g =
      let (sent, g') = insert_notification destination_id topic message none fresh now g in
      replayed_or (λ v. tt) (replay_or_guard id seq "DBOS.send" g) g
        (elim sent [
          | ok u ↦ record_done rt id seq "DBOS.send" g'
          | err e ↦ (err e, g')
          | panicked ↦ (panicked, g')
        ])

  -- A stored value read as an optional one.
  abbrev pub optional : Timers p → p.Value → Option p.Value
  optional t v = if t.is_null v then none else some v

  -- The value that was found, or what is done without one.
  abbrev pub polled_or : Option (Result p p.Value) × Inner p → (Inner p → Waited p) → Waited p
  polled_or (some r, g) missed = (some (r >>= (λ v. ok (some v))), g)
  polled_or (none, g) missed = missed g

  -- `deadline.insert(self.durable_wake_at(..))`, on the first miss only.
  unfoldable pub fix_deadline :
      StepEnv p
      → Timers p
      → String
      → ℤ
      → ℕ
      → Option p.DateTime
      → p.DateTime
      → Inner p
      → Result p p.DateTime × Inner p
  unfolding durable_wake_at
  fix_deadline rt t id deadline_seq timeout (some d) asked g = (ok d, g)
  fix_deadline rt t id deadline_seq timeout none asked g =
      durable_wake_at rt t id deadline_seq timeout asked g

  -- Past the deadline, an absent value is recorded; before it, the loop goes on.
  abbrev pub timed :
      StepEnv p
      → String
      → ℤ
      → String
      → p.DateTime
      → Result p p.DateTime × Inner p
      → (p.DateTime → Inner p → Waited p)
      → Waited p
  timed rt id seq name now (ok d, g) more =
      if p.leb_time d now
      then (some (ok none), (record_step_result id seq name p.null none none rt.now g).1)
      else more d g
  timed rt id seq name now (err e, g) more = (some (err e), g)
  timed rt id seq name now (panicked, g) more = (some panicked, g)

  -- The loop that `recv` and `get_event` share, over the turns that it may take: `poll` looks for the
  -- value, and `known` is the deadline once it is fixed.
  unfoldable pub wait_loop :
      StepEnv p
      → Timers p
      → String
      → ℤ
      → ℤ
      → String
      → ℕ
      → (Inner p → Option (Result p p.Value) × Inner p)
      → List (Turn p)
      → Option p.DateTime
      → Inner p
      → Waited p
  unfolding fix_deadline
  wait_loop rt t id seq deadline_seq name timeout poll [] known g = (none, g)
  wait_loop rt t id seq deadline_seq name timeout poll (turn ∷ turns) known g =
      polled_or (poll (turn.elsewhere g)) (λ g'.
        timed rt id seq name turn.now
          (fix_deadline rt t id deadline_seq timeout known turn.asked g')
          (λ d g''. wait_loop rt t id seq deadline_seq name timeout poll turns (some d) g''))

  -- The guard before the loop.
  abbrev pub guarded_wait : Timers p → Result p (Option p.Value) → Inner p → Waited p → Waited p
  guarded_wait t (ok (some v)) g waited = (some (ok (optional t v)), g)
  guarded_wait t (ok none) g waited = waited
  guarded_wait t (err e) g waited = (some (err e), g)
  guarded_wait t panicked g waited = (some panicked, g)

  abbrev pub poll_message : String → String → ℤ → Inner p → Option (Result p p.Value) × Inner p
  poll_message id topic seq g =
      let (taken, g') = consume_notification id topic seq "DBOS.recv" g in
      (elim taken [ none ↦ none | some message ↦ some (ok message) ], g')

  -- `recv`, with the numbers of the operation and of its deadline.
  unfoldable pub recv :
      StepEnv p → Timers p → String → ℤ → ℤ → String → ℕ → List (Turn p) → Inner p → Waited p
  unfolding replay_or_guard wait_loop
  recv rt t id seq deadline_seq topic timeout turns g =
      guarded_wait t (replay_or_guard id seq "DBOS.recv" g) g (
        wait_loop rt t id seq deadline_seq "DBOS.recv" timeout (poll_message id topic seq) turns
          none g)

  abbrev pub poll_event :
      StepEnv p → String → ℤ → String → String → Inner p → Option (Result p p.Value) × Inner p
  poll_event rt id seq target key g = elim (get_event_value target key g) [
    | none ↦ (none, g)
    | some value ↦
        let (outcome, g') = record_step_result id seq "DBOS.getEvent" value none none rt.now g in
        (some (outcome_value outcome), g')
  ]

  unfoldable pub get_event :
      StepEnv p
      → Timers p
      → String
      → ℤ
      → ℤ
      → String
      → String
      → ℕ
      → List (Turn p)
      → Inner p
      → Waited p
  unfolding replay_or_guard wait_loop
  get_event rt t id seq deadline_seq target key timeout turns g =
      guarded_wait t (replay_or_guard id seq "DBOS.getEvent" g) g (
        wait_loop rt t id seq deadline_seq "DBOS.getEvent" timeout (poll_event rt id seq target key)
          turns none g)
