-- ===== src/Context/Messages/Polls.antt =====
-- src/context.rs: what the waiting loop of `recv` and `get_event` writes, and their polls.
use durust.Base.{
  ℕ, ℤ, String, Option, none, some, List, [], ◌∷◌, ◌≡◌, refl, sym, ap, ◌∙◌, string_eq, int_eq,
  pair_eq, arith, inl, inr, Bool-cases, Option-cases, All,
}
use durust.Platform.{Platform}
use durust.Error.{Result, ok, err, panicked}
use durust.Memory.{Inner}
use durust.Memory.Steps.{get_step_result, record_step_result}
use durust.Memory.Mailbox.Once.{consume_notification-IsOldest_once}
use durust.Memory.Events.{get_event_value}
use durust.Memory.Calls.{on_record, on_receive}
use durust.Memory.Calls.Checkpoints.{Runs, no_call, then_write, Runs-trans}
use durust.Context.{StepEnv, outcome_value}
use durust.Context.Guard.{record_step_result-first, unrecorded}
use durust.Context.Messages.{
  Timers, Turn, Waited, polled_or, fix_deadline, timed, wait_loop, poll_message, poll_event,
}
use durust.Context.Messages.Deadline.{durable_wake_at-Runs}
use durust.Context.Messages.Receive.{IsElsewhere, IsPoll}

module _ {p : Platform} where
  fix_deadline-Runs :
      (rt : StepEnv p) (t : Timers p) (id : String) (deadline_seq : ℤ) (timeout : ℕ)
      (known : Option p.DateTime) (asked : p.DateTime) (g : Inner p)
      → Runs g (fix_deadline rt t id deadline_seq timeout known asked g).1
  unfolding fix_deadline
  fix_deadline-Runs rt t id deadline_seq timeout (some d) asked g = no_call
  fix_deadline-Runs rt t id deadline_seq timeout none asked g =
      durable_wake_at-Runs t rt id deadline_seq timeout asked g

  polled_or-Runs :
      (found : Option (Result p p.Value)) (g g' : Inner p) (missed : Inner p → Waited p)
      → Runs g g'
      → ((found ≡ none) → Runs g (missed g').1)
      → Runs g (polled_or (found, g') missed).1
  polled_or-Runs none g g' missed to more = more refl
  polled_or-Runs (some r) g g' missed to more = to

  timed-Runs :
      (rt : StepEnv p) (id : String) (seq : ℤ) (name : String) (now : p.DateTime)
      (fixed : Result p p.DateTime) (g g' : Inner p) (more : p.DateTime → Inner p → Waited p)
      → Runs g g'
      → ((d : p.DateTime) → Runs g (more d g').1)
      → Runs g (timed rt id seq name now (fixed, g') more).1
  timed-Runs rt id seq name now (err e) g g' more to goes = to
  timed-Runs rt id seq name now panicked g g' more to goes = to
  timed-Runs rt id seq name now (ok d) g g' more to goes = elim (Bool-cases (p.leb_time d now)) [
    | inr early ↦ rw early (goes d)
    | inl late ↦ rw late (then_write g' _ to (on_record id seq name p.null none none rt.now))
  ]

  module _ (rt : StepEnv p) (t : Timers p) (id : String) (seq deadline_seq : ℤ) (name : String)
      (timeout : ℕ) (poll : Inner p → Option (Result p p.Value) × Inner p)
      (is_poll : IsPoll id seq name poll) where
    pub wait_loop-Runs :
        (turns : List (Turn p)) (known : Option p.DateTime) (g : Inner p)
        → All (IsElsewhere id seq) turns
        → Runs g (wait_loop rt t id seq deadline_seq name timeout poll turns known g).1
    unfolding wait_loop
    wait_loop-Runs [] known g legal = no_call
    wait_loop-Runs (turn ∷ turns) known g legal =
        let at = turn.elsewhere g in
        let polled = Runs-trans g at (poll at).1 (legal.0.by_calls g) (is_poll.polls at) in
        polled_or-Runs (poll at).0 g (poll at).1 _ polled λ miss.
          let (fixed, after) =
            fix_deadline rt t id deadline_seq timeout known turn.asked (poll at).1 in
          let to =
            Runs-trans g (poll at).1 after polled
              (fix_deadline-Runs rt t id deadline_seq timeout known turn.asked (poll at).1) in
          timed-Runs rt id seq name turn.now fixed g after _ to
            (λ d. Runs-trans g after _ to (wait_loop-Runs turns (some d) after legal.1))

  missed_message :
      (o : Option p.Value) (m : p.Value)
      → o ≡ some m
      → ◌≡◌ {A = Option (Result p p.Value)}
          (elim o as (λ x. Option (Result p p.Value)) [ none ↦ none | some v ↦ some (ok v) ])
          none
      → ⊥
  missed_message none m e h = absurd (ground arith)
  missed_message (some v) m e h = absurd (ground arith)

  found_message :
      (o : Option p.Value) (m : p.Value) (r : Result p p.Value)
      → o ≡ some m
      → ◌≡◌ {A = Option (Result p p.Value)}
          (elim o as (λ x. Option (Result p p.Value)) [ none ↦ none | some v ↦ some (ok v) ])
          (some r)
      → r ≡ ok m
  found_message none m r e h = absurd (ground arith)
  found_message (some v) m r e h = ground arith

  no_message :
      (o : Option p.Value) (r : Result p p.Value)
      → o ≡ none
      → ◌≡◌ {A = Option (Result p p.Value)}
          (elim o as (λ x. Option (Result p p.Value)) [ none ↦ none | some v ↦ some (ok v) ])
          (some r)
      → ⊥
  no_message none r e h = absurd (ground arith)
  no_message (some v) r e h = absurd (ground arith)

  pub poll_message-IsPoll :
      (id topic : String) (seq : ℤ) → IsPoll {p = p} id seq "DBOS.recv" (poll_message id topic seq)
  poll_message-IsPoll id topic seq = record {
    polls = λ g. then_write g _ no_call (on_receive id topic seq "DBOS.recv");
    misses = λ g fresh miss.
        elim (consume_notification-IsOldest_once id topic seq "DBOS.recv" g
          (unrecorded id seq g fresh)) [
            | inl (nothing, waits) ↦
                ap (λ (r : Option p.Value × Inner p). get_step_result id seq r.1) nothing ∙ fresh
            | inr (s, first, gives, marked, fewer, reads) ↦
                absurd (missed_message _ s.1.message gives miss)
          ];
    hits = λ g r fresh hit.
        elim (consume_notification-IsOldest_once id topic seq "DBOS.recv" g
          (unrecorded id seq g fresh)) [
            | inl (nothing, waits) ↦
                absurd (no_message _ r (ap (λ (x : Option p.Value × Inner p). x.0) nothing) hit)
            | inr (s, first, gives, marked, fewer, reads) ↦
                (s.1.message, found_message _ s.1.message r gives hit, reads)
          ];
  }

  no_event :
      (rt : StepEnv p) (id : String) (seq : ℤ) (target key : String) (g : Inner p)
      → get_event_value target key g ≡ none
      → poll_event rt id seq target key g ≡ (none, g)
  no_event rt id seq target key g h = rw (h, poll_event)

  an_event :
      (rt : StepEnv p) (id : String) (seq : ℤ) (target key : String) (v : p.Value) (g : Inner p)
      → get_event_value target key g ≡ some v
      → poll_event rt id seq target key g ≡ (
        some (outcome_value (record_step_result id seq "DBOS.getEvent" v none none rt.now g).0),
        (record_step_result id seq "DBOS.getEvent" v none none rt.now g).1,
      )
  an_event rt id seq target key v g h = rw (h, poll_event)

  some-ne-none : (r : Result p p.Value) → ◌≡◌ {A = Option (Result p p.Value)} (some r) none → ⊥
  some-ne-none r h = ground arith

  same_result :
      (x y : Result p p.Value) → ◌≡◌ {A = Option (Result p p.Value)} (some x) (some y) → y ≡ x
  same_result x y h = ground arith

  pub poll_event-IsPoll :
      (rt : StepEnv p) (id : String) (seq : ℤ) (target key : String)
      → IsPoll {p = p} id seq "DBOS.getEvent" (poll_event rt id seq target key)
  unfolding outcome_value
  poll_event-IsPoll rt id seq target key = record {
    polls = λ g. elim (Option-cases (get_event_value target key g)) [
      | inl nothing ↦ rw (no_event rt id seq target key g nothing) no_call
      | inr (v, there) ↦
          rw (an_event rt id seq target key v g there)
            (then_write g _ no_call (on_record id seq "DBOS.getEvent" v none none rt.now))
    ];
    misses = λ g fresh miss. elim (Option-cases (get_event_value target key g)) [
      | inl nothing ↦ rw (no_event rt id seq target key g nothing) fresh
      | inr (v, there) ↦ absurd (
          some-ne-none _ (
            sym (
              ap (λ (x : Option (Result p p.Value) × Inner p). x.0)
                (an_event rt id seq target key v g there))
            ∙ miss))
    ];
    hits = λ g r fresh hit. elim (Option-cases (get_event_value target key g)) [
      | inl nothing ↦ absurd (
          some-ne-none r (
            sym hit
            ∙ ap (λ (x : Option (Result p p.Value) × Inner p). x.0)
                (no_event rt id seq target key g nothing)))
      | inr (v, there) ↦
          let e = an_event rt id seq target key v g there in
          let (given, reads) =
            record_step_result-first id seq "DBOS.getEvent" v none none rt.now g fresh in
          (
            v,
            same_result _ r (sym (ap (λ (x : Option (Result p p.Value) × Inner p). x.0) e) ∙ hit)
                ∙ ap outcome_value given,
            ap (λ (x : Option (Result p p.Value) × Inner p). get_step_result id seq x.1) e ∙ reads,
          )
    ];
  }
