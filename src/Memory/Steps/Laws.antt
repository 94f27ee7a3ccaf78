-- ===== src/Memory/Steps/Laws.antt =====
-- src/memory.rs: recording a step and reading it.
use durust.Base.{
  ℤ, String, Option, none, some, ◌≡◌, refl, ap, sym, string_eq, int_eq, pair_eq, arith, inl, inr,
  Option-cases,
}
use durust.Platform.{Platform}
use durust.Store.{HashMap, get, insert, Distinct}
use durust.Store.Laws.{get-insert_same, get-insert_new}
use durust.Store.Values.{insert-Distinct}
use durust.Memory.{StepRow, Inner}
use durust.Memory.Steps.{
  step_row_outcome, enter_step, get_step_result, step_row, record_step_result,
}

module _ {p : Platform} where
  pub entered :
      (id : String) (seq : ℤ) (row old : StepRow p) (m : HashMap (String × ℤ) (StepRow p))
      → get (id, seq) m ≡ some old
      → enter_step id seq row m ≡ (old, m)
  unfolding enter_step
  entered id seq row old m found = rw (found, enter_step)

  pub entered_new :
      (id : String) (seq : ℤ) (row : StepRow p) (m : HashMap (String × ℤ) (StepRow p))
      → get (id, seq) m ≡ none
      → enter_step id seq row m ≡ (row, insert (id, seq) row m)
  unfolding enter_step
  entered_new id seq row m absent = rw (absent, enter_step)

  -- The row that `enter_step` returns stands in the table after it.
  pub enter_step-there :
      (id : String) (seq : ℤ) (row : StepRow p) (m : HashMap (String × ℤ) (StepRow p))
      → get (id, seq) (enter_step id seq row m).1 ≡ some (enter_step id seq row m).0
  enter_step-there id seq row m = elim (Option-cases (get (id, seq) m)) [
    | inl absent ↦ rw (entered_new id seq row m absent) (get-insert_same (id, seq) row m)
    | inr (old, found) ↦ rw (entered id seq row old m found) found
  ]

  -- A row that was there stays.
  pub enter_step-keeps :
      (id : String) (seq : ℤ) (row : StepRow p) (m : HashMap (String × ℤ) (StepRow p))
      (k : String × ℤ) (r : StepRow p)
      → get k m ≡ some r
      → get k (enter_step id seq row m).1 ≡ some r
  enter_step-keeps id seq row m k r here = elim (Option-cases (get (id, seq) m)) [
    | inr (old, found) ↦ rw (entered id seq row old m found) here
    | inl absent ↦
        rw (entered_new id seq row m absent) (get-insert_new k (id, seq) row r m absent here)
  ]

  pub enter_step-Distinct :
      (id : String) (seq : ℤ) (row : StepRow p) (m : HashMap (String × ℤ) (StepRow p))
      → Distinct m
      → Distinct (enter_step id seq row m).1
  enter_step-Distinct id seq row m d = elim (Option-cases (get (id, seq) m)) [
    | inl absent ↦ rw (entered_new id seq row m absent) (insert-Distinct (id, seq) row m d)
    | inr (old, found) ↦ rw (entered id seq row old m found) d
  ]

  -- Recording a step a second time, with any name and outcome, returns the outcome that the first
  -- call returned, and changes nothing.
  pub record_step_result-once :
      (id : String) (seq : ℤ) (name name' : String) (value value' : p.Value)
      (error error' : Option String) (started started' : Option ℤ) (now now' : p.DateTime)
      (g : Inner p)
      → record_step_result id seq name' value' error' started' now'
          (record_step_result id seq name value error started now g).1
        ≡ record_step_result id seq name value error started now g
  unfolding record_step_result
  record_step_result-once id seq name name' value value' error error' started started' now now' g =
      let row = step_row name value error started now in
      let again =
        entered id seq (step_row name' value' error' started' now')
          (enter_step id seq row g.steps).0 (enter_step id seq row g.steps).1
          (enter_step-there id seq row g.steps) in
      ap
        (λ (t : StepRow p × HashMap (String × ℤ) (StepRow p)).
          (step_row_outcome t.0, record g { steps = t.1 }))
        again

  step_row-name :
      (name : String) (value : p.Value) (error : Option String) (started : Option ℤ)
      (now : p.DateTime) (row : StepRow p)
      → step_row name value error started now ≡ row
      → row.name ≡ name
  unfolding step_row
  step_row-name name value error started now row h = ap (λ (r : StepRow p). r.name) (sym h)

  -- After a step is recorded, reading it gives the outcome that the recording returned, and under
  -- the name of the call when no row was there before.
  pub get_step_result-record :
      (id : String) (seq : ℤ) (name : String) (value : p.Value) (error : Option String)
      (started : Option ℤ) (now : p.DateTime) (g : Inner p)
      → (named : String) × (get_step_result id seq
            (record_step_result id seq name value error started now g).1
          ≡ some (record {
            name = named;
            outcome = (record_step_result id seq name value error started now g).0;
          }))
        × (get_step_result id seq g ≡ none → named ≡ name)
  unfolding get_step_result record_step_result
  get_step_result-record id seq name value error started now g =
      let row = step_row name value error started now in
      (
        (enter_step id seq row g.steps).0.name,
        rw (enter_step-there id seq row g.steps),
        λ fresh. fresh_name fresh,
      )
    where
      fresh_name :
          get_step_result id seq g ≡ none
          → (enter_step id seq (step_row name value error started now) g.steps).0.name ≡ name
      fresh_name fresh = elim (Option-cases (get (id, seq) g.steps)) [
        | inl absent ↦
            rw (entered_new id seq (step_row name value error started now) g.steps absent) (
              step_row-name name value error started now (step_row name value error started now)
                refl)
        | inr (old, found) ↦ absurd (ground (arith, found, fresh))
      ]
