-- ===== src/Memory/Steps/Refines.antt =====
-- src/memory.rs: the step table as a map that is written once at each number.
use durust.Base.{
  ℤ, String, ◌&&◌, Option, none, some, ◌≡◌, refl, sym, ap, ◌∙◌, ◌==◌, string_eq, int_eq, pair_eq,
  inl, inr, Bool-cases, Option-cases, option_map, is_none, if◌then◌else◌,
}
use durust.Platform.{Platform}
use durust.Provider.{output, failure, RecordedStep}
use durust.Store.{get, insert}
use durust.Store.Laws.{get-insert}
use durust.Memory.{Inner, StepRow}
use durust.Memory.Steps.{
  named_row, enter_step, step_row_outcome, step_row, get_step_result, record_step_result,
  record_patch, record_child_workflow,
}
use durust.Memory.Steps.Laws.{entered, entered_new, get_step_result-record}

-- The abstract checkpoints: an operation at a workflow and a number, if there is one.
abbrev pub Checkpoints : Platform → Type 0
Checkpoints p = String → ℤ → Option (RecordedStep p)

module _ {p : Platform} where
  -- The first write to a place counts.
  abbrev pub write_once : String → ℤ → RecordedStep p → Checkpoints p → Checkpoints p
  write_once id seq step c i s =
      if ◌==◌ {K = String × ℤ} (id, seq) (i, s) && is_none (c i s) then some step else c i s

  -- The checkpoints that the tables stand for.
  abbrev pub checkpoints : Inner p → Checkpoints p
  checkpoints g i s = get_step_result i s g

  -- The operation that a row stands for.
  abbrev pub step_of : StepRow p → RecordedStep p
  step_of r = record { name = r.name; outcome = step_row_outcome r }

  read_row :
      (i : String) (s : ℤ) (g : Inner p)
      → get_step_result i s g ≡ option_map step_of (get (i, s) g.steps)
  unfolding get_step_result
  read_row i s g = refl

  enter_step-refines :
      (id : String) (seq : ℤ) (row : StepRow p) (g : Inner p) (i : String) (s : ℤ)
      → checkpoints (record g { steps = (enter_step id seq row g.steps).1 }) i s
        ≡ write_once id seq (step_of row) (checkpoints g) i s
  enter_step-refines id seq row g i s = elim (Option-cases (get (id, seq) g.steps)) [
    | inr (old, there) ↦
        rw (entered id seq row old g.steps there)
          (elim (Bool-cases (◌==◌ {K = String × ℤ} (id, seq) (i, s))) [
            | inr other ↦ rw other
            | inl same ↦
                let here : get_step_result i s g ≡ some (step_of old) =
                  read_row i s g
                  ∙ ap (λ (k : String × ℤ). option_map step_of (get k g.steps))
                      (sym ((pair_eq.eqb_iff (id, seq) (i, s)).0 same))
                  ∙ ap (option_map step_of) there in
                rw (same, here)
          ])
    | inl absent ↦ rw (entered_new id seq row g.steps absent) (
        read_row i s (record g { steps = insert (id, seq) row g.steps })
        ∙ ap (option_map step_of) (get-insert (i, s) (id, seq) row g.steps)
        ∙ elim (Bool-cases (◌==◌ {K = String × ℤ} (id, seq) (i, s))) [
          | inr other ↦ rw other (sym (read_row i s g))
          | inl same ↦
              let here : get_step_result i s g ≡ none =
                read_row i s g
                ∙ ap (λ (k : String × ℤ). option_map step_of (get k g.steps))
                    (sym ((pair_eq.eqb_iff (id, seq) (i, s)).0 same))
                ∙ ap (option_map step_of) absent in
              rw (same, here)
        ])
  ]

  outcome_of :
      (name : String) (value : p.Value) (error : Option String) (started : Option ℤ)
      (now : p.DateTime)
      → step_of (step_row name value error started now) ≡ record {
        name = name;
        outcome = elim error [ none ↦ output value | some e ↦ failure e none ];
      }
  unfolding step_row step_row_outcome
  outcome_of name value none started now = refl
  outcome_of name value (some e) started now = refl

  patch_of :
      (name : String) → step_of (named_row name) ≡ record { name = name; outcome = output p.null }
  unfolding step_row_outcome
  patch_of name = refl

  -- The step table refines a map that is written once. Read as a map from workflow and number to a
  -- named outcome, the tables after a step, a patch or a child is recorded are the map before with
  -- that outcome (null, for a patch and a child) at that place if none was there, and the same map
  -- else. And the outcome that recording a step returns is the one that the map then has there.
  pub record_step_result-refines :
      (id : String) (seq : ℤ) (name child : String) (value : p.Value) (error : Option String)
      (started : Option ℤ) (now : p.DateTime) (g : Inner p)
      → ((i : String) (s : ℤ)
          → (checkpoints (record_step_result id seq name value error started now g).1 i s
              ≡ write_once id seq
                  (record {
                    name = name;
                    outcome = elim error [ none ↦ output value | some e ↦ failure e none ];
                  })
                  (checkpoints g)
                  i
                  s)
            × (checkpoints (record_patch id seq name g) i s
                ≡ write_once id seq
                    (record { name = name; outcome = output p.null })
                    (checkpoints g)
                    i
                    s)
            × (checkpoints (record_child_workflow id seq name child g) i s
                ≡ write_once id seq
                    (record { name = name; outcome = output p.null })
                    (checkpoints g)
                    i
                    s))
        × (option_map
              (λ (r : RecordedStep p). r.outcome)
              (checkpoints (record_step_result id seq name value error started now g).1 id seq)
            ≡ some (record_step_result id seq name value error started now g).0)
  unfolding record_step_result record_patch record_child_workflow step_row_outcome
  record_step_result-refines id seq name child value error started now g = (
    λ i s. (
      enter_step-refines id seq (step_row name value error started now) g i s
          ∙ ap (λ (r : RecordedStep p). write_once id seq r (checkpoints g) i s)
              (outcome_of name value error started now),
      enter_step-refines id seq (named_row name) g i s,
      enter_step-refines id seq (record (named_row name) { child_workflow_id = some child }) g i s,
    ),
    ap (option_map (λ (r : RecordedStep p). r.outcome))
        (get_step_result-record id seq name value error started now g).1,
  )
