-- ===== src/Engine/Create/Existing.antt =====
-- src/engine.rs, `start`: a run whose id, or whose deduplication slot, is there already.
use durust.Base.{
  String, Bool, true, false, ◌||◌, Option, none, some, List, [], ◌∷◌, ◌≡◌, ◌≢◌, refl, ap, ◌∙◌, ◌==◌,
  string_eq, ==_refl, arith, inl, inr, Bool-cases, is_some, is_none, unwrap_or, findb, ◌&&◌,
}
use durust.Base.{In, All-In}
use durust.Memory.Invariant.{get-In}
use durust.Platform.{Platform}
use durust.Error.{deduplicated, code, Result, ok, err, ◌>>=◌}
use durust.Store.{get, values}
use durust.Provider.{WorkflowStatus, new_workflow, is_terminal}
use durust.Memory.{Inner}
use durust.Memory.Invariant.{IsValid, values-present}
use durust.Memory.Lifecycle.{
  holds_slot, conflict, insert_workflow_status, get_deduplicated_workflow,
}
use durust.Memory.Lifecycle.Slots.{found_again, slot_of_conflict, conflict_of_row, conflicted}
use durust.Context.Guard.{differs}
use durust.Engine.{
  return_existing, WorkflowOptions, AuthContext, WorkflowFn, Runtime, non_empty, registry_key,
}
use durust.Engine.Create.{
  polling, returns_existing, launched, Attempt, auth_of, run_row, run_guard, insert_run,
  slot_holder, start_loop, start, after_insert,
}

module _ {p : Platform} where
  pub run_row-parts :
      (rt : Runtime p) (id name : String) (input : p.Value) (opts : WorkflowOptions)
      (parent : Option String) (auth : AuthContext) (now created : p.DateTime)
      → let row = run_row rt id name input opts parent auth now created in
        (row.id ≡ id) × (row.queue_name ≡ opts.queue) × (row.dedup_id ≡ opts.dedup_id)
  unfolding run_row new_workflow
  run_row-parts rt id name input opts parent auth now created =
      elim (Bool-cases (is_some opts.queue)) [
        | inl q ↦ rw q (refl, refl, refl)
        | inr d ↦ rw d (refl, refl, refl)
      ]

  accepted :
      (rt : Runtime p) (id name : String) (input : p.Value) (opts : WorkflowOptions)
      (parent : Option String) (auth : AuthContext) (now created : p.DateTime)
      (r : Result p (WorkflowStatus p × Bool)) (g g' : Inner p)
      → run_guard rt opts ≡ none
      → insert_workflow_status (run_row rt id name input opts parent auth now created) g ≡ (r, g')
      → insert_run rt id name input opts parent auth now created g
        ≡ (r >>= (λ (canonical, made). ok (canonical, is_some opts.queue, made)), g')
  unfolding insert_run
  accepted rt id name input opts parent auth now created r g g' free e =
      rw (free, insert_run)
        (ap
          (λ (t : Result p (WorkflowStatus p × Bool) × Inner p).
            (t.0 >>= (λ (canonical, made). ok (canonical, is_some opts.queue, made)), t.1))
          e)

  no_slot :
      (q d : Option String) (id : String) (rows : List (WorkflowStatus p))
      → d ≡ none
      → conflict q d id rows ≡ false
  no_slot q d id rows e = elim (Bool-cases (conflict q d id rows)) [
    | inr free ↦ free
    | inl h ↦
        let (queue, dedup, is_q, is_d) = slot_of_conflict q d id rows h in
        absurd (ground (arith, e, is_d))
  ]

  known_run :
      (rt : Runtime p) (id name : String) (input : p.Value) (opts : WorkflowOptions)
      (auth : AuthContext) (now created : p.DateTime) (row : WorkflowStatus p) (g : Inner p)
      → run_guard rt opts ≡ none
      → opts.dedup_id ≡ none
      → get id g.workflows ≡ some row
      → insert_run rt id name input opts none auth now created g
        ≡ (ok (row, is_some opts.queue, false), g)
  known_run rt id name input opts auth now created row g free no_dedup there =
      let new = run_row rt id name input opts none auth now created in
      let (is_id, is_queue, is_dedup) = run_row-parts rt id name input opts none auth now created in
      accepted rt id name input opts none auth now created (ok (row, false)) g g free (
        found_again new row g
          (no_slot new.queue_name new.dedup_id new.id (values g.workflows) (is_dedup ∙ no_dedup))
          (ap (λ (i : String). get i g.workflows) is_id ∙ there))

  loop_runs :
      (rt : Runtime p) (handler : WorkflowFn p) (id name : String) (input : p.Value)
      (opts : WorkflowOptions) (a : Attempt p) (attempts : List (Attempt p))
      (run : WorkflowStatus p × Bool × Bool) (g g' : Inner p)
      → insert_run rt id name input opts none (auth_of opts) a.now a.created g ≡ (ok run, g')
      → start_loop rt handler id name input opts (a ∷ attempts) g
        ≡ (some (ok (launched handler id (auth_of opts) run)), g')
  unfolding start_loop
  loop_runs rt handler id name input opts a attempts run g g' e =
      ap
        (after_insert handler id opts a.between
          (λ h. start_loop rt handler id name input opts attempts h))
        e

  loop_finds :
      (rt : Runtime p) (handler : WorkflowFn p) (id name : String) (input : p.Value)
      (opts : WorkflowOptions) (a : Attempt p) (attempts : List (Attempt p)) (queue dedup : String)
      (holder : String) (g : Inner p)
      → insert_run rt id name input opts none (auth_of opts) a.now a.created g
        ≡ (err (deduplicated queue dedup), g)
      → opts.dedup_policy ≡ return_existing
      → slot_holder opts (a.between g) ≡ some holder
      → start_loop rt handler id name input opts (a ∷ attempts) g
        ≡ (some (ok (polling holder)), a.between g)
  unfolding start_loop code
  loop_finds rt handler id name input opts a attempts queue dedup holder g e policy holds =
      ap
        (after_insert handler id opts a.between
          (λ h. start_loop rt handler id name input opts attempts h))
        e
      ∙ rw (policy, holds)

  begins :
      (rt : Runtime p) (handler : WorkflowFn p) (name : String) (input : p.Value)
      (opts : WorkflowOptions) (fresh : String) (attempts : List (Attempt p)) (g : Inner p)
      → (returns_existing opts.dedup_policy && is_none opts.dedup_id) ≡ false
      → get (registry_key name opts.config_name) rt.workflows ≡ some handler
      → start rt name input opts fresh attempts g
        ≡ start_loop rt handler
            (unwrap_or (non_empty opts.workflow_id) fresh)
            name
            input
            opts
            attempts
            g
  unfolding start
  begins rt handler name input opts fresh attempts g policy known = rw (policy, known, start)

  -- A run with an explicit id that exists, started again with no deduplication id, for a registered
  -- workflow and with options that are not refused, passes for the existing one: nothing is written, whatever the input and the
  -- options, and the handle is one to the stored row. If that has ended, or the run goes through a
  -- queue, the handle polls it and nothing is run.
  pub start-idempotent :
      (rt : Runtime p) (handler : WorkflowFn p) (id name : String) (input : p.Value)
      (opts : WorkflowOptions) (fresh : String) (a : Attempt p) (attempts : List (Attempt p))
      (row : WorkflowStatus p) (g : Inner p)
      → non_empty opts.workflow_id ≡ some id
      → opts.dedup_id ≡ none
      → returns_existing opts.dedup_policy ≡ false
      → get (registry_key name opts.config_name) rt.workflows ≡ some handler
      → run_guard rt opts ≡ none
      → get id g.workflows ≡ some row
      → (start rt name input opts fresh (a ∷ attempts) g
          ≡ (some (ok (launched handler id (auth_of opts) (row, is_some opts.queue, false))), g))
        × ((is_some opts.queue || is_terminal row.status) ≡ true
            → start rt name input opts fresh (a ∷ attempts) g ≡ (some (ok (polling id)), g))
  start-idempotent rt handler id name input opts fresh a attempts row g named no_dedup policy known
        free there =
      let first =
        begins rt handler name input opts fresh (a ∷ attempts) g (rw policy) known
        ∙ ap
            (λ (o : Option String).
              start_loop rt handler (unwrap_or o fresh) name input opts (a ∷ attempts) g)
            named
        ∙ loop_runs rt handler id name input opts a attempts (row, is_some opts.queue, false) g g
            (known_run rt id name input opts (auth_of opts) a.now a.created row g free no_dedup
              there) in
      (first, λ polled. first ∙ rw polled)

  findb-In :
      (f : WorkflowStatus p → Bool) (x : WorkflowStatus p) (xs : List (WorkflowStatus p))
      → In x xs
      → f x ≡ true
      → (u : WorkflowStatus p) × (findb f xs ≡ some u) × In u xs × (f u ≡ true)
  findb-In f x [] m h = elim m [ ]
  findb-In f x (y ∷ ys) m h = elim (Bool-cases (f y)) [
    | inl yes_y ↦ (y, rw yes_y, inl refl, yes_y)
    | inr no_y ↦ (elim m [
      | inl e ↦ absurd (ground (arith, ap f e))
      | inr rest ↦
          let (u, is_u, at, holds) = findb-In f x ys rest h in (u, rw no_y is_u, inr at, holds)
    ])
  ]

  -- The lookup finds the holder of a slot.
  found_holder :
      (queue dedup : String) (v : WorkflowStatus p) (g : Inner p)
      → IsValid g
      → get v.id g.workflows ≡ some v
      → holds_slot queue dedup v ≡ true
      → get_deduplicated_workflow queue dedup g ≡ some v.id
  unfolding get_deduplicated_workflow
  found_holder queue dedup v g valid there holds =
      let (u, is_u, at, holds_u) =
        findb-In (holds_slot queue dedup) v (values g.workflows) (get-In v.id g.workflows v there)
          holds in
      let here =
        All-In (λ (w : WorkflowStatus p). get w.id g.workflows ≡ some w) u (values g.workflows)
          (values-present g.workflows valid.keyed valid.rows_distinct) at in
      rw is_u (
        ap (λ (i : String). some i)
          (valid.slots_unique u.id v.id queue dedup u v here there holds_u holds))

  -- In valid tables, a run of a registered workflow for a slot that another workflow holds, with the
  -- policy to return the existing one and options that are not refused, gives a handle to the holder, if no other call comes between the refusal and the
  -- lookup; and it writes nothing.
  pub start-returns_existing :
      (rt : Runtime p) (handler : WorkflowFn p) (name queue dedup : String) (input : p.Value)
      (opts : WorkflowOptions) (fresh : String) (a : Attempt p) (attempts : List (Attempt p))
      (v : WorkflowStatus p) (g : Inner p)
      → IsValid g
      → opts.queue ≡ some queue
      → opts.dedup_id ≡ some dedup
      → opts.dedup_policy ≡ return_existing
      → get (registry_key name opts.config_name) rt.workflows ≡ some handler
      → run_guard rt opts ≡ none
      → get v.id g.workflows ≡ some v
      → holds_slot queue dedup v ≡ true
      → v.id ≢ unwrap_or (non_empty opts.workflow_id) fresh
      → a.between g ≡ g
      → start rt name input opts fresh (a ∷ attempts) g ≡ (some (ok (polling v.id)), g)
  start-returns_existing rt handler name queue dedup input opts fresh a attempts v g valid is_queue
        is_dedup policy known free there holds other alone =
      begins rt handler name input opts fresh (a ∷ attempts) g (rw (policy, is_dedup)) known
      ∙ loop_finds rt handler id name input opts a attempts queue dedup v.id g refused policy
          (ap (slot_holder opts) alone ∙ holder)
      ∙ ap (λ (x : Inner p). (some (ok (polling v.id)), x)) alone
    where
      id : String
      id = unwrap_or (non_empty opts.workflow_id) fresh

      new : WorkflowStatus p
      new = run_row rt id name input opts none (auth_of opts) a.now a.created

      holder : slot_holder opts g ≡ some v.id
      holder = rw (is_queue, is_dedup) (found_holder queue dedup v g valid there holds)

      refused :
          insert_run rt id name input opts none (auth_of opts) a.now a.created g
          ≡ (err (deduplicated queue dedup), g)
      refused =
          let (is_id, queue_is, dedup_is) =
            run_row-parts rt id name input opts none (auth_of opts) a.now a.created in
          let holds_new : holds_slot queue dedup new ≡ true =
            rw (queue_is ∙ is_queue, dedup_is ∙ is_dedup)
              (ground (arith, ==_refl queue, ==_refl dedup)) in
          let taken =
            conflict_of_row queue dedup v.id new v g valid holds_new there holds
              (ap (λ (i : String). v.id == i) is_id ∙ differs v.id id other) in
          accepted rt id name input opts none (auth_of opts) a.now a.created
            (err (deduplicated queue dedup)) g g free
            (conflicted new g taken ∙ rw (queue_is ∙ is_queue, dedup_is ∙ is_dedup))
