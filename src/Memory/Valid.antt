-- ===== src/Memory/Valid.antt =====
-- The forms of the writes to the workflow table of src/memory.rs: one row, every row, a new row.
use mathlib.Core.Path.{subst}
use durust.Base.{
  String, true, none, some, ◌≡◌, sym, ap, ◌∙◌, ◌==◌, string_eq, int_eq, pair_eq, arith, ◌⊎◌, inl,
  inr, Bool-cases, Option-cases,
}
use durust.Platform.{Platform}
use durust.Store.{get, insert, update, map_values}
use durust.Store.Laws.{get-insert, get-update, get-map_values}
use durust.Store.Values.{
  insert-Distinct, update-Distinct, map_values-Distinct, All-insert, All-update, All-map_values,
}
use durust.Provider.{WorkflowStatus}
use durust.Memory.{Inner, new_provider}
use durust.Memory.Lifecycle.{holds_slot}
use durust.Memory.Invariant.{Rows, IsValid, KeepsSlot, HasUniqueSlots-step}

module _ {p : Platform} where
  -- A rewriting of a row that keeps its slot, or frees it.
  abbrev pub KeepsSlotOf : (WorkflowStatus p → WorkflowStatus p) → WorkflowStatus p → Type 0
  KeepsSlotOf f r =
      ((f r).dedup_id ≡ none) ⊎ ((r.queue_name ≡ (f r).queue_name) × (r.dedup_id ≡ (f r).dedup_id))

  pub new_provider-IsValid : IsValid (new_provider {p = p})
  unfolding get
  new_provider-IsValid = record {
    keyed = tt;
    rows_distinct = tt;
    slots_unique = λ j k queue dedup v w fv. absurd (ground arith);
    steps_distinct = tt;
  }

  kept :
      (f : WorkflowStatus p → WorkflowStatus p) (ws : Rows p) (j : String) (r : WorkflowStatus p)
      → get j ws ≡ some r
      → KeepsSlotOf f r
      → KeepsSlot ws j (f r)
  kept f ws j r found (inl free) = inl free
  kept f ws j r found (inr (q, d)) = inr (r, found, q, d)

  pub update-IsValid :
      (id : String) (f : WorkflowStatus p → WorkflowStatus p) (g : Inner p)
      → ((r : WorkflowStatus p) → (f r).id ≡ r.id)
      → ((r : WorkflowStatus p) → get id g.workflows ≡ some r → KeepsSlotOf f r)
      → IsValid g
      → IsValid (record g { workflows = update id f g.workflows })
  update-IsValid id f g same slot valid = record {
    keyed =
        All-update (λ (e : String × WorkflowStatus p). e.1.id ≡ e.0) id f g.workflows
          (λ j w k. same w ∙ k) valid.keyed;
    rows_distinct = update-Distinct id f g.workflows valid.rows_distinct;
    slots_unique =
        HasUniqueSlots-step g.workflows (update id f g.workflows) (λ j v found. after j v found)
          valid.slots_unique;
    steps_distinct = valid.steps_distinct;
  }
    where
      after :
          (j : String) (v : WorkflowStatus p)
          → get j (update id f g.workflows) ≡ some v
          → KeepsSlot g.workflows j v
      after j v found = elim (Option-cases (get j g.workflows)) [
        | inl absent ↦ absurd (ground (arith, get-update j id f g.workflows))
        | inr (r, here) ↦ elim (Bool-cases (id == j)) [
          | inl hit ↦
              let made : f r ≡ v = ground (arith, get-update j id f g.workflows) in
              let there : get id g.workflows ≡ some r =
                ap (λ i. get i g.workflows) ((string_eq.eqb_iff id j).0 hit) ∙ here in
              subst (KeepsSlot g.workflows j) made (kept f g.workflows j r here (slot r there))
          | inr other ↦
              let same : r ≡ v = ground (arith, get-update j id f g.workflows) in
              inr (
                r,
                here,
                ap (λ (x : WorkflowStatus p). x.queue_name) same,
                ap (λ (x : WorkflowStatus p). x.dedup_id) same,
              )
        ]
      ]

  pub map_values-IsValid :
      (f : WorkflowStatus p → WorkflowStatus p) (g : Inner p)
      → ((r : WorkflowStatus p) → (f r).id ≡ r.id)
      → ((r : WorkflowStatus p) → KeepsSlotOf f r)
      → IsValid g
      → IsValid (record g { workflows = map_values f g.workflows })
  map_values-IsValid f g same slot valid = record {
    keyed =
        All-map_values (λ (e : String × WorkflowStatus p). e.1.id ≡ e.0) f g.workflows
          (λ j w k. same w ∙ k) valid.keyed;
    rows_distinct = map_values-Distinct f g.workflows valid.rows_distinct;
    slots_unique =
        HasUniqueSlots-step g.workflows (map_values f g.workflows) after valid.slots_unique;
    steps_distinct = valid.steps_distinct;
  }
    where
      after :
          (j : String) (v : WorkflowStatus p)
          → get j (map_values f g.workflows) ≡ some v
          → KeepsSlot g.workflows j v
      after j v found = elim (Option-cases (get j g.workflows)) [
        | inl absent ↦ absurd (ground (arith, get-map_values j f g.workflows))
        | inr (r, here) ↦
            let made : f r ≡ v = ground (arith, get-map_values j f g.workflows) in
            subst (KeepsSlot g.workflows j) made (kept f g.workflows j r here (slot r))
      ]

  after_insert :
      (j id : String) (w v : WorkflowStatus p) (ws : Rows p)
      → get j (insert id w ws) ≡ some v
      → ((j ≡ id) × (v ≡ w)) ⊎ (get j ws ≡ some v)
  after_insert j id w v ws found = elim (Bool-cases (id == j)) [
    | inl hit ↦ inl (
      sym ((string_eq.eqb_iff id j).0 hit),
      (let e : v ≡ w = ground (arith, get-insert j id w ws) in e),
    )
    | inr other ↦ inr (ground (arith, get-insert j id w ws))
  ]

  -- A row put under its own id, with no slot of its own or with one that no other row holds.
  pub insert-IsValid :
      (w : WorkflowStatus p) (g : Inner p)
      → ((queue dedup j : String) (v : WorkflowStatus p)
          → holds_slot queue dedup w ≡ true
          → get j g.workflows ≡ some v
          → holds_slot queue dedup v ≡ true
          → j ≡ w.id)
      → IsValid g
      → IsValid (record g { workflows = insert w.id w g.workflows })
  insert-IsValid w g free valid = record {
    keyed =
        All-insert (λ (e : String × WorkflowStatus p). e.1.id ≡ e.0) w.id w g.workflows
          (λ j e. sym e) valid.keyed;
    rows_distinct = insert-Distinct w.id w g.workflows valid.rows_distinct;
    slots_unique = λ j k queue dedup v u fv fu hv hu.
        elim (after_insert j w.id w v g.workflows fv) [
          | inl (ej, ev) ↦ elim (after_insert k w.id w u g.workflows fu) [
            | inl (ek, eu) ↦ ej ∙ sym ek
            | inr old ↦
                ej ∙ sym (free queue dedup k u (ap (holds_slot queue dedup) (sym ev) ∙ hv) old hu)
          ]
          | inr old ↦ elim (after_insert k w.id w u g.workflows fu) [
            | inl (ek, eu) ↦
                free queue dedup j v (ap (holds_slot queue dedup) (sym eu) ∙ hu) old hv ∙ sym ek
            | inr old' ↦ valid.slots_unique j k queue dedup v u old old' hv hu
          ]
        ];
    steps_distinct = valid.steps_distinct;
  }
