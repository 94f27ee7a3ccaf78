-- ===== src/Memory/Fork/Laws.antt =====
-- src/memory.rs, `fork_workflow`: the checkpoints that a fork starts with.
use durust.Base.{
  ℤ, String, true, false, ◌&&◌, Option, none, some, [], ◌∷◌, ◌≡◌, refl, ap, ◌∙◌, sym, ◌==◌,
  string_eq, int_eq, pair_eq, ==_refl, arith, inl, inr, Bool-cases, ltb_ℤ, All, if◌then◌else◌,
}
use durust.Platform.{Platform}
use durust.Error.{ok}
use durust.Store.{HashMap, get, contains_key, insert, retain, Distinct}
use durust.Store.Laws.{get-insert_same, get-insert_other, get-retain, contains_key-get}
use durust.Store.Values.{retain-Distinct}
use durust.Provider.{WorkflowStatus, ForkParams}
use durust.Memory.{StepRow, Inner}
use durust.Memory.Invariant.{IsValid}
use durust.Memory.Fork.{checkpoints_before, copy_steps, fork_workflow}

module _ {p : Platform} where
  -- `a`, or `b` where there is none.
  abbrev pub or_else : Option (StepRow p) → Option (StepRow p) → Option (StepRow p)
  or_else none b = b
  or_else (some r) b = some r

  absent_of :
      (k : String × ℤ) (m : HashMap (String × ℤ) (StepRow p))
      → contains_key k m ≡ false
      → get k m ≡ none
  absent_of k m h = ground (arith, contains_key-get k m)

  checkpoints-Distinct :
      (orig : String) (start : ℤ) (steps : HashMap (String × ℤ) (StepRow p))
      → Distinct steps
      → Distinct (checkpoints_before orig start steps)
  unfolding checkpoints_before
  checkpoints-Distinct orig start steps d =
      retain-Distinct (λ (k : String × ℤ). k.0 == orig && ltb_ℤ k.1 start) steps d

  get-checkpoints :
      (orig : String) (start seq : ℤ) (steps : HashMap (String × ℤ) (StepRow p))
      → get (orig, seq) (checkpoints_before orig start steps)
        ≡ (if ltb_ℤ seq start then get (orig, seq) steps else none)
  unfolding checkpoints_before
  get-checkpoints orig start seq steps =
      get-retain (orig, seq) (λ (k : String × ℤ). k.0 == orig && ltb_ℤ k.1 start) steps
      ∙ rw (==_refl orig)

  get-copy_steps :
      (orig new : String) (seq : ℤ) (copied steps : HashMap (String × ℤ) (StepRow p))
      → Distinct copied
      → All (λ (e : (String × ℤ) × StepRow p). (e.0.0 == orig) ≡ true) copied
      → get (new, seq) (copy_steps new copied steps)
        ≡ or_else (get (orig, seq) copied) (get (new, seq) steps)
  unfolding copy_steps get
  get-copy_steps orig new seq [] steps d named = refl
  get-copy_steps orig new seq (((o, s), v) ∷ copied) steps d named =
      let ih = get-copy_steps orig new seq copied (insert (new, s) v steps) d.1 named.1 in
      let from : String × ℤ = (orig, seq) in
      let to : String × ℤ = (new, seq) in
      let here : String × ℤ = (o, s) in
      let made : String × ℤ = (new, s) in
      elim (Bool-cases (s == seq)) [
        | inl same ↦
            let key : here ≡ from =
              ((pair_eq {A = String} {B = ℤ}).eqb_iff here from).0 (rw (named.0, same)) in
            let target : made ≡ to =
              ((pair_eq {A = String} {B = ℤ}).eqb_iff made to).0 (rw (==_refl new, same)) in
            let gone : get from copied ≡ none =
              sym (ap (λ (x : String × ℤ). get x copied) key) ∙ absent_of here copied d.0 in
            ih
            ∙ ap (λ (x : Option (StepRow p)). or_else x (get to (insert made v steps))) gone
            ∙ ap (λ (x : String × ℤ). get to (insert x v steps)) target
            ∙ get-insert_same to v steps
            ∙ rw (named.0, same) refl
        | inr other ↦
            ih
            ∙ ap (or_else (get from copied))
                (get-insert_other to made v steps (rw (==_refl new, other)))
            ∙ rw (named.0, other) refl
      ]

  checkpoint-named :
      (orig : String) (start : ℤ) (steps : HashMap (String × ℤ) (StepRow p))
      → All
          (λ (e : (String × ℤ) × StepRow p). (e.0.0 == orig) ≡ true)
          (checkpoints_before orig start steps)
  unfolding checkpoints_before retain
  checkpoint-named orig start [] = tt
  checkpoint-named orig start ((k, v) ∷ steps) =
      elim (Bool-cases (k.0 == orig && ltb_ℤ k.1 start)) [
        | inl kept ↦ rw kept (ground arith, checkpoint-named orig start steps)
        | inr cut ↦ rw cut (checkpoint-named orig start steps)
      ]

  -- In valid tables, forking an existing workflow is accepted. At each number before the first step
  -- to run again, the fork has the checkpoint of the original; where the original has none, and
  -- from that step on, it has what stood under its id before.
  pub fork_workflow-steps :
      (params : ForkParams) (now : p.DateTime) (original : WorkflowStatus p) (seq : ℤ) (g : Inner p)
      → IsValid g
      → get params.original_id g.workflows ≡ some original
      → ((fork_workflow params now g).0 ≡ ok tt)
        × (get (params.new_id, seq) (fork_workflow params now g).1.steps
            ≡ or_else
                (if ltb_ℤ seq params.start_step
                  then get (params.original_id, seq) g.steps
                  else none)
                (get (params.new_id, seq) g.steps))
  unfolding fork_workflow
  fork_workflow-steps params now original seq g valid found =
      rw (found, fork_workflow)
        (
          refl,
          get-copy_steps params.original_id params.new_id seq
                (checkpoints_before params.original_id params.start_step g.steps) g.steps
                (checkpoints-Distinct params.original_id params.start_step g.steps
                  valid.steps_distinct)
                (checkpoint-named params.original_id params.start_step g.steps)
              ∙ ap (λ (x : Option (StepRow p)). or_else x (get (params.new_id, seq) g.steps))
                  (get-checkpoints params.original_id params.start_step seq g.steps),
        )
