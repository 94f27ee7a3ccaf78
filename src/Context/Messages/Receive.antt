-- ===== src/Context/Messages/Receive.antt =====
-- src/context.rs, `recv` and `get_event`: what they returned, they return again.
use durust.Base.{
  ℕ, ℤ, String, false, Option, none, some, List, [], ◌∷◌, ◌≡◌, ◌≢◌, refl, ap, ◌∙◌, ◌==◌, string_eq,
  int_eq, pair_eq, arith, inl, inr, Bool-cases, Option-cases, All,
}
use durust.Platform.{Platform}
use durust.Error.{Result, ok, err, panicked, ◌>>=◌}
use durust.Provider.{output}
use durust.Store.{get}
use durust.Store.Laws.{get-insert_other}
use durust.Memory.{Inner}
use durust.Memory.Steps.{get_step_result, record_step_result, step_row}
use durust.Memory.Steps.Laws.{entered, entered_new}
use durust.Memory.Calls.Checkpoints.{Runs}
use durust.Context.{StepEnv}
use durust.Context.Guard.{record_step_result-first}
use durust.Context.Program.Guarded.{HasValue}
use durust.Context.Messages.{
  Timers, Turn, Waited, polled_or, fix_deadline, timed, wait_loop, durable_wake_at,
}

-- The value recorded for what was returned: null where nothing was.
abbrev pub stored : (q : Platform) → Option q.Value → q.Value
stored q none = q.null
stored q (some v) = v

module _ {p : Platform} where
  abbrev pub Unread : String → ℤ → Inner p → Type 0
  Unread id seq g = get_step_result id seq g ≡ none

  -- Recording a step leaves the others alone.
  record_step_result-other :
      (id : String) (seq other : ℤ) (name : String) (v : p.Value) (now : p.DateTime) (g : Inner p)
      → other ≢ seq
      → get_step_result id seq g ≡ none
      → get_step_result id seq (record_step_result id other name v none none now g).1 ≡ none
  unfolding record_step_result get_step_result
  record_step_result-other id seq other name v now g differ unread =
      elim (Option-cases (get (id, other) g.steps)) [
        | inr (old, there) ↦
            rw (entered id other (step_row name v none none now) old g.steps there) unread
        | inl absent ↦ rw (entered_new id other (step_row name v none none now) g.steps absent) (
            rw
              (get-insert_other (id, seq) (id, other) (step_row name v none none now) g.steps
                (keys))
              unread)
      ]
    where
      keys : ◌==◌ {K = String × ℤ} (id, other) (id, seq) ≡ false
      keys = ground (arith, int_eq.eqb_iff other seq)

  -- What another call may do between two turns: calls of the provider that record no step of this
  -- workflow under this number.
  pub record IsElsewhere (id : String) (seq : ℤ) (turn : Turn p) : Type 0 where
    pub by_calls : (g : Inner p) → Runs g (turn.elsewhere g)
    pub leaves : (g : Inner p) → Unread id seq g → Unread id seq (turn.elsewhere g)

  -- A poll that records the value it finds.
  pub record IsPoll (id : String) (seq : ℤ) (name : String)
      (poll : Inner p → Option (Result p p.Value) × Inner p) : Type 0 where
    pub polls : (g : Inner p) → Runs g (poll g).1
    pub misses : (g : Inner p) → Unread id seq g → (poll g).0 ≡ none → Unread id seq (poll g).1
    pub hits :
        (g : Inner p) (r : Result p p.Value)
        → Unread id seq g
        → (poll g).0 ≡ some r
        → (v : p.Value) × (r ≡ ok v) × HasValue id seq name v (poll g).1

  -- If it has returned, what it returned is recorded.
  abbrev pub Ends : String → ℤ → String → Waited p → Type 0
  Ends id seq name w =
      (r : Option p.Value) → w.0 ≡ some (ok r) → HasValue id seq name (stored p r) w.1

  polled_or-Ends :
      (id : String) (seq : ℤ) (name : String) (found : Option (Result p p.Value)) (g : Inner p)
      (missed : Inner p → Waited p)
      → ((r : Result p p.Value)
          → found ≡ some r
          → (v : p.Value) × (r ≡ ok v) × HasValue id seq name v g)
      → (found ≡ none → Ends id seq name (missed g))
      → Ends id seq name (polled_or (found, g) missed)
  polled_or-Ends id seq name none g missed hit miss = miss refl
  polled_or-Ends id seq name (some r) g missed hit miss = λ x h.
      let (v, is_v, has) = hit r refl in
      has
      ∙ ap (λ (y : p.Value). some (record { name = name; outcome = output y }))
          (returned r v x is_v h)
    where
      returned :
          (r : Result p p.Value) (v : p.Value) (x : Option p.Value)
          → r ≡ ok v
          → ◌≡◌ {A = Option (Result p (Option p.Value))}
              (some (r >>= (λ u. ok (some u))))
              (some (ok x))
          → v ≡ stored p x
      returned (ok u) v (some y) e h = ground arith
      returned (ok u) v none e h = absurd (ground arith)
      returned (err e) v x e' h = absurd (ground arith)
      returned panicked v x e h = absurd (ground arith)

  timed-Ends :
      (rt : StepEnv p) (id : String) (seq : ℤ) (name : String) (now : p.DateTime)
      (fixed : Result p p.DateTime) (g : Inner p) (more : p.DateTime → Inner p → Waited p)
      → Unread id seq g
      → ((d : p.DateTime) → Ends id seq name (more d g))
      → Ends id seq name (timed rt id seq name now (fixed, g) more)
  timed-Ends rt id seq name now (err e) g more fresh goes = λ x h. absurd (ground arith)
  timed-Ends rt id seq name now panicked g more fresh goes = λ x h. absurd (ground arith)
  timed-Ends rt id seq name now (ok d) g more fresh goes = elim (Bool-cases (p.leb_time d now)) [
    | inr early ↦ rw early (goes d)
    | inl late ↦ rw late (λ x h.
        (record_step_result-first id seq name p.null none none rt.now g fresh).1
        ∙ ap (λ (y : p.Value). some (record { name = name; outcome = output y })) (nothing x h))
  ]
    where
      nothing :
          (x : Option p.Value)
          → ◌≡◌ {A = Option (Result p (Option p.Value))} (some (ok none)) (some (ok x))
          → p.null ≡ stored p x
      nothing none h = refl
      nothing (some v) h = absurd (ground arith)

  fix_deadline-Unread :
      (rt : StepEnv p) (t : Timers p) (id : String) (seq deadline_seq : ℤ) (timeout : ℕ)
      (known : Option p.DateTime) (asked : p.DateTime) (g : Inner p)
      → deadline_seq ≢ seq
      → Unread id seq g
      → Unread id seq (fix_deadline rt t id deadline_seq timeout known asked g).1
  unfolding fix_deadline durable_wake_at
  fix_deadline-Unread rt t id seq deadline_seq timeout (some d) asked g differ fresh = fresh
  fix_deadline-Unread rt t id seq deadline_seq timeout none asked g differ fresh =
      elim (Option-cases (get_step_result id deadline_seq g)) [
        | inl unset ↦
            rw (unset, durable_wake_at)
              (record_step_result-other id seq deadline_seq "DBOS.sleep"
                (t.time_value (t.later asked timeout)) rt.now g differ fresh)
        | inr (rec, there) ↦ elim (Bool-cases (rec.name == "DBOS.sleep")) [
          | inl same ↦ rw (there, same, durable_wake_at) fresh
          | inr other ↦ rw (there, other, durable_wake_at) fresh
        ]
      ]

  module _ (rt : StepEnv p) (t : Timers p) (id : String) (seq deadline_seq : ℤ) (name : String)
      (timeout : ℕ) (poll : Inner p → Option (Result p p.Value) × Inner p)
      (is_poll : IsPoll id seq name poll) where
    pub wait_loop-Ends :
        (turns : List (Turn p)) (known : Option p.DateTime) (g : Inner p)
        → deadline_seq ≢ seq
        → All (IsElsewhere id seq) turns
        → Unread id seq g
        → Ends id seq name (wait_loop rt t id seq deadline_seq name timeout poll turns known g)
    unfolding wait_loop
    wait_loop-Ends [] known g differ legal fresh = λ x h. absurd (ground arith)
    wait_loop-Ends (turn ∷ turns) known g differ legal fresh =
        let at = turn.elsewhere g in
        let open_at = legal.0.leaves g fresh in
        polled_or-Ends id seq name (poll at).0 (poll at).1 _ (λ r. is_poll.hits at r open_at)
          λ miss.
            let (fixed, after) =
              fix_deadline rt t id deadline_seq timeout known turn.asked (poll at).1 in
            let unread =
              fix_deadline-Unread rt t id seq deadline_seq timeout known turn.asked (poll at).1
                differ (is_poll.misses at open_at miss) in
            timed-Ends rt id seq name turn.now fixed after _ unread
              (λ d. wait_loop-Ends turns (some d) after differ legal.1 unread)
