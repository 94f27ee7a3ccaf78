-- ===== src/Context/Messages/Returns.antt =====
-- src/context.rs, `recv`: the wait ends by the deadline.
use durust.Base.{
  ℕ, ℤ, String, true, Option, none, some, List, [], ◌∷◌, ◌≡◌, refl, sym, ap, ◌∙◌, string_eq, arith,
  inl, inr, Bool-cases, Option-cases, is_some, In,
}
use mathlib.Core.Path.{subst}
use durust.Platform.{Platform}
use durust.Error.{Result, ok, err, panicked}
use durust.Memory.{Inner}
use durust.Memory.Mailbox.{consume_notification, oldest}
use durust.Context.{StepEnv, replay_or_guard}
use durust.Context.Messages.{
  Timers, Turn, Waited, polled_or, fix_deadline, timed, wait_loop, durable_wake_at, guarded_wait,
  poll_message, recv,
}

module _ {p : Platform} where
  -- It does not wait any more.
  abbrev pub Ended : Waited p → Type 0
  Ended w = is_some w.0 ≡ true

  polled_or-Ended :
      (found : Option (Result p p.Value)) (g : Inner p) (missed : Inner p → Waited p)
      → (found ≡ none → Ended (missed g))
      → Ended (polled_or (found, g) missed)
  polled_or-Ended none g missed h = h refl
  polled_or-Ended (some r) g missed h = refl

  timed-late :
      (rt : StepEnv p) (id : String) (seq : ℤ) (name : String) (d now : p.DateTime) (g : Inner p)
      (more : p.DateTime → Inner p → Waited p)
      → p.leb_time d now ≡ true
      → Ended (timed rt id seq name now (ok d, g) more)
  timed-late rt id seq name d now g more late = rw late

  timed-Ended :
      (rt : StepEnv p) (id : String) (seq : ℤ) (name : String) (d now : p.DateTime) (g : Inner p)
      (more : p.DateTime → Inner p → Waited p)
      → Ended (more d g)
      → Ended (timed rt id seq name now (ok d, g) more)
  timed-Ended rt id seq name d now g more h = elim (Bool-cases (p.leb_time d now)) [
    | inl late ↦ rw late
    | inr early ↦ rw early h
  ]

  guarded_wait-Ended :
      (t : Timers p) (r : Result p (Option p.Value)) (g : Inner p) (waited : Waited p)
      → Ended waited
      → Ended (guarded_wait t r g waited)
  guarded_wait-Ended t (ok (some v)) g waited h = refl
  guarded_wait-Ended t (ok none) g waited h = h
  guarded_wait-Ended t (err e) g waited h = refl
  guarded_wait-Ended t panicked g waited h = refl

  module _ (rt : StepEnv p) (t : Timers p) (id : String) (seq deadline_seq : ℤ) (name : String)
      (timeout : ℕ) (poll : Inner p → Option (Result p p.Value) × Inner p) where
    -- With the deadline known, a turn at or past it ends the loop.
    wait_loop-by :
        (turns : List (Turn p)) (d : p.DateTime) (turn : Turn p) (g : Inner p)
        → In turn turns
        → p.leb_time d turn.now ≡ true
        → Ended (wait_loop rt t id seq deadline_seq name timeout poll turns (some d) g)
    unfolding wait_loop fix_deadline
    wait_loop-by [] d turn g m late = elim m [ ]
    wait_loop-by (x ∷ turns) d turn g (inl e) late =
        polled_or-Ended (poll (x.elsewhere g)).0 (poll (x.elsewhere g)).1 _ λ miss.
          timed-late rt id seq name d x.now (poll (x.elsewhere g)).1
            (λ d' g'. wait_loop rt t id seq deadline_seq name timeout poll turns (some d') g')
            (ap (λ (y : Turn p). p.leb_time d y.now) (sym e) ∙ late)
    wait_loop-by (x ∷ turns) d turn g (inr m) late =
        polled_or-Ended (poll (x.elsewhere g)).0 (poll (x.elsewhere g)).1 _ λ miss.
          timed-Ended rt id seq name d x.now (poll (x.elsewhere g)).1
            (λ d' g'. wait_loop rt t id seq deadline_seq name timeout poll turns (some d') g')
            (wait_loop-by turns d turn (poll (x.elsewhere g)).1 m late)

    -- And so does one where the first turn fixes the deadline.
    wait_loop-fixed :
        (first : Turn p) (turns : List (Turn p)) (d : p.DateTime) (turn : Turn p) (g : Inner p)
        → ((poll (first.elsewhere g)).0 ≡ none
            → (durable_wake_at rt t id deadline_seq timeout first.asked
                (poll (first.elsewhere g)).1).0
              ≡ ok d)
        → In turn (first ∷ turns)
        → p.leb_time d turn.now ≡ true
        → Ended (wait_loop rt t id seq deadline_seq name timeout poll (first ∷ turns) none g)
    unfolding wait_loop fix_deadline
    wait_loop-fixed first turns d turn g fixes m late =
        polled_or-Ended (poll at).0 (poll at).1 _ λ miss.
          let after = (durable_wake_at rt t id deadline_seq timeout first.asked (poll at).1).1 in
          subst
            (λ (f : Result p p.DateTime). Ended (timed rt id seq name first.now (f, after) more))
            (sym (fixes miss)) (ends after m)
      where
        at : Inner p
        at = first.elsewhere g

        more : p.DateTime → Inner p → Waited p
        more d' g' = wait_loop rt t id seq deadline_seq name timeout poll turns (some d') g'

        ends :
            (after : Inner p)
            → In turn (first ∷ turns)
            → Ended (timed rt id seq name first.now (ok d, after) more)
        ends after (inl e) =
            timed-late rt id seq name d first.now after more
              (ap (λ (y : Turn p). p.leb_time d y.now) (sym e) ∙ late)
        ends after (inr rest) =
            timed-Ended rt id seq name d first.now after more
              (wait_loop-by turns d turn after rest late)

  -- A poll that finds no message changes nothing.
  poll_message-misses :
      (id topic : String) (seq : ℤ) (g : Inner p)
      → (poll_message id topic seq g).0 ≡ none
      → (poll_message id topic seq g).1 ≡ g
  unfolding consume_notification
  poll_message-misses id topic seq g miss = elim (Option-cases (oldest id topic g.notifications)) [
    | inl nothing ↦ rw (nothing, consume_notification)
    | inr (s, found) ↦ absurd (
        both (consume_notification id topic seq "DBOS.recv" g).0 (rw (found, consume_notification))
          miss)
  ]
    where
      both :
          (o : Option p.Value)
          → is_some o ≡ true
          → ◌≡◌ {A = Option (Result p p.Value)}
              (elim o as (λ x. Option (Result p p.Value)) [ none ↦ none | some v ↦ some (ok v) ])
              none
          → ⊥
      both none there h = absurd (ground arith)
      both (some v) there h = absurd (ground arith)

  -- A `recv` never waits past its deadline: where the timer gives the instant `d` at the first
  -- turn, and the clock of some turn has reached `d`, it has returned by that turn, with a message,
  -- with none or with an error, whatever other calls come in between.
  pub recv-returns :
      (rt : StepEnv p) (t : Timers p) (id : String) (seq deadline_seq : ℤ) (topic : String)
      (timeout : ℕ) (first : Turn p) (turns : List (Turn p)) (d : p.DateTime) (turn : Turn p)
      (g : Inner p)
      → (durable_wake_at rt t id deadline_seq timeout first.asked (first.elsewhere g)).0 ≡ ok d
      → In turn (first ∷ turns)
      → p.leb_time d turn.now ≡ true
      → is_some (recv rt t id seq deadline_seq topic timeout (first ∷ turns) g).0 ≡ true
  unfolding recv
  recv-returns rt t id seq deadline_seq topic timeout first turns d turn g fixes m late =
      guarded_wait-Ended t (replay_or_guard id seq "DBOS.recv" g) g _ (
        wait_loop-fixed rt t id seq deadline_seq "DBOS.recv" timeout (poll_message id topic seq)
          first turns d turn g
          (λ miss.
            ap (λ (x : Inner p). (durable_wake_at rt t id deadline_seq timeout first.asked x).0)
              (poll_message-misses id topic seq (first.elsewhere g) miss)
            ∙ fixes)
          m late)
