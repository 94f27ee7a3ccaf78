-- ===== src/Context/Patches.antt =====
-- src/context.rs, `patch`: a patch decision and the later ones.
use durust.Base.{
  ℤ, String, Bool, true, false, none, some, ◌≡◌, sym, ap, ◌∙◌, ◌==◌, string_eq, int_eq, pair_eq,
  ==_refl, arith, inl, inr, Bool-cases, Option-cases, option_map,
}
use durust.Platform.{Platform}
use durust.Store.{HashMap, get}
use durust.Memory.{Inner, StepRow}
use durust.Memory.Invariant.{IsValid}
use durust.Memory.Steps.{get_step_name, record_patch, named_row}
use durust.Memory.Steps.Laws.{enter_step-there, entered_new}
use durust.Memory.Calls.Checkpoints.{Runs, Runs-KeepsStep}
use durust.Context.{patch_marker, next_seq, patch}

module _ {p : Platform} where
  get_step_name-stable :
      (id : String) (seq : ℤ) (g g' : Inner p) (name : String)
      → IsValid g
      → Runs g g'
      → get_step_name id seq g ≡ some name
      → get_step_name id seq g' ≡ some name
  unfolding get_step_name
  get_step_name-stable id seq g g' name valid run h = elim (Option-cases (get (id, seq) g.steps)) [
    | inl absent ↦ absurd (ground (arith, absent, h))
    | inr (r, found) ↦
        ap (option_map (λ (x : StepRow p). x.name))
          (Runs-KeepsStep (id, seq) g g' valid run r found ∙ sym found)
        ∙ h
  ]

  get_step_name-patch :
      (id : String) (seq : ℤ) (name : String) (g : Inner p)
      → get_step_name id seq g ≡ none
      → get_step_name id seq (record_patch id seq name g) ≡ some name
  unfolding get_step_name record_patch
  get_step_name-patch id seq name g h = elim (Option-cases (get (id, seq) g.steps)) [
    | inr (r, found) ↦ absurd (ground (arith, found, h))
    | inl absent ↦
        ap (option_map (λ (x : StepRow p). x.name))
          (enter_step-there id seq (named_row name) g.steps)
        ∙ ap (λ (t : StepRow p × HashMap (String × ℤ) (StepRow p)). some t.0.name)
            (entered_new id seq (named_row name) g.steps absent)
  ]

  new_path :
      (id : String) (seq : ℤ) (name : String) (g : Inner p)
      → get_step_name id seq g ≡ some (patch_marker name)
      → patch id seq name g ≡ (true, (next_seq seq).1, g)
  unfolding patch
  new_path id seq name g h = rw (h, patch, ==_refl (patch_marker name))

  old_path :
      (id : String) (seq : ℤ) (name recorded : String) (g : Inner p)
      → get_step_name id seq g ≡ some recorded
      → (recorded == patch_marker name) ≡ false
      → patch id seq name g ≡ (false, seq, g)
  unfolding patch
  old_path id seq name recorded g h other = rw (h, patch, other)

  unseen :
      (id : String) (seq : ℤ) (name : String) (g : Inner p)
      → get_step_name id seq g ≡ none
      → patch id seq name g ≡ (true, (next_seq seq).1, record_patch id seq (patch_marker name) g)
  unfolding patch
  unseen id seq name g h = rw (h, patch)

  -- A patch asked again at the same place, after any sequence of calls but deletions and forks,
  -- takes the path it took the first time, moves the counter as it did then, and changes nothing.
  pub patch-stable :
      (id : String) (seq : ℤ) (name : String) (g g' : Inner p)
      → IsValid (patch id seq name g).2
      → Runs (patch id seq name g).2 g'
      → patch id seq name g' ≡ ((patch id seq name g).0, (patch id seq name g).1, g')
  patch-stable id seq name g g' valid run = elim (Option-cases (get_step_name id seq g)) [
    | inl fresh ↦
        let first = unseen id seq name g fresh in
        let seen : get_step_name id seq (patch id seq name g).2 ≡ some (patch_marker name) =
          ap (λ (t : Bool × ℤ × Inner p). get_step_name id seq t.2) first
          ∙ get_step_name-patch id seq (patch_marker name) g fresh in
        new_path id seq name g' (
          get_step_name-stable id seq (patch id seq name g).2 g' (patch_marker name) valid run seen)
        ∙ ap (λ (t : Bool × ℤ × Inner p). (t.0, t.1, g')) (sym first)
    | inr (recorded, there) ↦ elim (Bool-cases (recorded == patch_marker name)) [
      | inl ours ↦
          let mark : get_step_name id seq g ≡ some (patch_marker name) =
            there
            ∙ ap (λ (x : String). some x)
                ((string_eq.eqb_iff recorded (patch_marker name)).0 ours) in
          let first = new_path id seq name g mark in
          new_path id seq name g' (
            get_step_name-stable id seq (patch id seq name g).2 g' (patch_marker name) valid run
              (ap (λ (t : Bool × ℤ × Inner p). get_step_name id seq t.2) first ∙ mark))
          ∙ ap (λ (t : Bool × ℤ × Inner p). (t.0, t.1, g')) (sym first)
      | inr other ↦
          let first = old_path id seq name recorded g there other in
          old_path id seq name recorded g'
            (get_step_name-stable id seq (patch id seq name g).2 g' recorded valid run
              (ap (λ (t : Bool × ℤ × Inner p). get_step_name id seq t.2) first ∙ there))
            other
          ∙ ap (λ (t : Bool × ℤ × Inner p). (t.0, t.1, g')) (sym first)
    ]
  ]
