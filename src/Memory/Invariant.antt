-- ===== src/Memory/Invariant.antt =====
-- The tables of src/memory.rs between two calls: what it means that they are valid.
use durust.Base.{
  String, true, none, some, [], ◌∷◌, ◌≡◌, sym, ◌==◌, string_eq, int_eq, pair_eq, arith, All, In,
  ◌⊎◌, inl, inr, Bool-cases, All-map_imp,
}
use durust.Platform.{Platform}
use durust.Store.Laws.{get-head, get-tail}
use durust.Store.{HashMap, get, Distinct, values}
use durust.Provider.{WorkflowStatus}
use durust.Memory.{Inner}
use durust.Memory.Lifecycle.{holds_slot}

abbrev pub Rows : Platform → Type 0
Rows p = HashMap String (WorkflowStatus p)

module _ {p : Platform} where
  -- Each row stands under its own id.
  abbrev pub IsKeyed : Rows p → Type 0
  IsKeyed ws = All (λ (e : String × WorkflowStatus p). e.1.id ≡ e.0) ws

  -- Two rows that hold one slot are one row.
  abbrev pub HasUniqueSlots : Rows p → Type 0
  HasUniqueSlots ws =
      (j k queue dedup : String) (v w : WorkflowStatus p)
      → get j ws ≡ some v
      → get k ws ≡ some w
      → holds_slot queue dedup v ≡ true
      → holds_slot queue dedup w ≡ true
      → j ≡ k

  pub record IsValid (g : Inner p) : Type 0 where
    pub keyed : IsKeyed g.workflows
    pub rows_distinct : Distinct g.workflows
    pub slots_unique : HasUniqueSlots g.workflows
    pub steps_distinct : Distinct g.steps

  pub get-IsKeyed :
      (j : String) (ws : Rows p) {w : WorkflowStatus p} → IsKeyed ws → get j ws ≡ some w → w.id ≡ j
  unfolding get
  get-IsKeyed j [] keyed h = cc
  get-IsKeyed j ((k, v) ∷ ws) {w} keyed h = elim (Bool-cases (k == j)) [
    | inl same ↦ let g : some v ≡ some w = rw same at h in ground (arith, string_eq.eqb_iff k j)
    | inr other ↦ get-IsKeyed j ws keyed.1 (rw other at h)
  ]

  -- Every value is found under its id.
  pub values-present :
      (ws : Rows p)
      → IsKeyed ws
      → Distinct ws
      → All (λ (w : WorkflowStatus p). get w.id ws ≡ some w) (values ws)
  unfolding values
  values-present [] keyed d = tt
  values-present ((k, v) ∷ ws) keyed d = (
    get-head v.id k v ws (sym keyed.0),
    All-map_imp (λ (w : WorkflowStatus p). get w.id ws ≡ some w)
        (λ (w : WorkflowStatus p). get w.id ((k, v) ∷ ws) ≡ some w) (values ws)
        (λ w h. get-tail w.id k v w ws d.0 h) (values-present ws keyed.1 d.1),
  )

  -- A row that is found is a value.
  pub get-In :
      (j : String) (ws : Rows p) (w : WorkflowStatus p) → get j ws ≡ some w → In w (values ws)
  unfolding get values
  get-In j [] w h = cc
  get-In j ((k, v) ∷ ws) w h = elim (Bool-cases (k == j)) [
    | inl same ↦ inl (let g : some v ≡ some w = rw same at h in ground arith)
    | inr other ↦ inr (get-In j ws w (rw other at h))
  ]

  -- The slot of a row that was there before, or none.
  abbrev pub KeepsSlot : Rows p → String → WorkflowStatus p → Type 0
  KeepsSlot ws j v =
      (v.dedup_id ≡ none)
      ⊎ ((old : WorkflowStatus p) × (get j ws ≡ some old)
          × (old.queue_name ≡ v.queue_name)
          × (old.dedup_id ≡ v.dedup_id))

  slot_before :
      (ws : Rows p) (j queue dedup : String) (v : WorkflowStatus p)
      → KeepsSlot ws j v
      → holds_slot queue dedup v ≡ true
      → (old : WorkflowStatus p) × (get j ws ≡ some old) × (holds_slot queue dedup old ≡ true)
  slot_before ws j queue dedup v (inl bare) h = absurd (ground arith)
  slot_before ws j queue dedup v (inr (old, found, q, d)) h = (old, found, ground arith)

  -- No step that writes no new slot makes two rows share one.
  pub HasUniqueSlots-step :
      (ws ws' : Rows p)
      → ((j : String) (v : WorkflowStatus p) → get j ws' ≡ some v → KeepsSlot ws j v)
      → HasUniqueSlots ws
      → HasUniqueSlots ws'
  HasUniqueSlots-step ws ws' keep unique j k queue dedup v w fv fw hv hw =
      let (v', gv, sv) = slot_before ws j queue dedup v (keep j v fv) hv in
      let (w', gw, sw) = slot_before ws k queue dedup w (keep k w fw) hw in
      unique j k queue dedup v' w' gv gw sv sw
