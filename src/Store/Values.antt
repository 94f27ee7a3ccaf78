-- ===== src/Store/Values.antt =====
-- What holds of every value, and how many values pass a test, after each operation on a map.
use durust.Base.{
  ◌+◌, ◌≤◌, Bool, false, some, [], ◌∷◌, ◌≡◌, refl, KeyEq, ◌==◌, arith, countb, All, Bool-cases, inl,
  inr,
}
use durust.Store.{
  HashMap, get, contains_key, insert, update, remove, Distinct, retain, values, map_values,
}
use mathlib.Core.Path.{subst}

module _ {ℓ κ} {K : Type ℓ} {V : Type κ} ⦃e : KeyEq K⦄ where
  contains_key-insert :
      (j k : K) (v : V) (m : HashMap K V)
      → (j == k) ≡ false
      → contains_key j (insert k v m) ≡ contains_key j m
  unfolding contains_key insert
  contains_key-insert j k v [] h = ground (arith, e.eqb_iff j k, e.eqb_iff k j)
  contains_key-insert j k v ((i, w) ∷ m) h =
      ground (arith, e.eqb_iff j k, e.eqb_iff k j, contains_key-insert j k v m)

  contains_key-update :
      (j k : K) (f : V → V) (m : HashMap K V) → contains_key j (update k f m) ≡ contains_key j m
  unfolding contains_key update
  contains_key-update j k f [] = refl
  contains_key-update j k f ((i, w) ∷ m) = ground (arith, contains_key-update j k f m)

  contains_key-map_values :
      (j : K) (f : V → V) (m : HashMap K V) → contains_key j (map_values f m) ≡ contains_key j m
  unfolding contains_key map_values
  contains_key-map_values j f [] = refl
  contains_key-map_values j f ((i, w) ∷ m) = ground (arith, contains_key-map_values j f m)

  contains_key-retain :
      (j : K) (p : K → Bool) (m : HashMap K V)
      → contains_key j m ≡ false
      → contains_key j (retain p m) ≡ false
  unfolding contains_key retain
  contains_key-retain j p [] h = refl
  contains_key-retain j p ((i, w) ∷ m) h = ground (arith, contains_key-retain j p m)

  contains_key-remove :
      (j k : K) (m : HashMap K V) → contains_key j m ≡ false → contains_key j (remove k m) ≡ false
  unfolding contains_key remove
  contains_key-remove j k [] h = refl
  contains_key-remove j k ((i, w) ∷ m) h = ground (arith, contains_key-remove j k m)

  pub insert-Distinct : (k : K) (v : V) (m : HashMap K V) → Distinct m → Distinct (insert k v m)
  unfolding insert contains_key
  insert-Distinct k v [] d = (refl, tt)
  insert-Distinct k v ((i, w) ∷ m) d = elim (Bool-cases (i == k)) [
    | inl same ↦ rw same d
    | inr other ↦ rw other (rw (contains_key-insert i k v m other) d.0, insert-Distinct k v m d.1)
  ]

  pub update-Distinct : (k : K) (f : V → V) (m : HashMap K V) → Distinct m → Distinct (update k f m)
  unfolding update
  update-Distinct k f [] d = tt
  update-Distinct k f ((i, w) ∷ m) d = elim (Bool-cases (i == k)) [
    | inl same ↦ rw same d
    | inr other ↦ rw other (rw (contains_key-update i k f m) d.0, update-Distinct k f m d.1)
  ]

  pub map_values-Distinct : (f : V → V) (m : HashMap K V) → Distinct m → Distinct (map_values f m)
  unfolding map_values
  map_values-Distinct f [] d = tt
  map_values-Distinct f ((i, w) ∷ m) d =
      (rw (contains_key-map_values i f m) d.0, map_values-Distinct f m d.1)

  pub retain-Distinct : (p : K → Bool) (m : HashMap K V) → Distinct m → Distinct (retain p m)
  unfolding retain
  retain-Distinct p [] d = tt
  retain-Distinct p ((i, w) ∷ m) d = elim (Bool-cases (p i)) [
    | inl keep ↦ rw keep (contains_key-retain i p m d.0, retain-Distinct p m d.1)
    | inr drop ↦ rw drop (retain-Distinct p m d.1)
  ]

  pub remove-Distinct : (k : K) (m : HashMap K V) → Distinct m → Distinct (remove k m)
  unfolding remove
  remove-Distinct k [] d = tt
  remove-Distinct k ((i, w) ∷ m) d = elim (Bool-cases (i == k)) [
    | inl same ↦ rw same d.1
    | inr other ↦ rw other (contains_key-remove i k m d.0, remove-Distinct k m d.1)
  ]

module _ {ℓ κ} {K : Type ℓ} {V : Type κ} ⦃e : KeyEq K⦄ where
  -- A write through `get_mut` changes one value at most.
  pub countb-update :
      (p : V → Bool) (k : K) (f : V → V) (m : HashMap K V)
      → countb p (values (update k f m)) ≤ countb p (values m) + 1
  unfolding values update
  countb-update p k f [] = omega arith
  countb-update p k f ((i, w) ∷ m) = ground (arith, countb-update p k f m)

-- A predicate on every entry.
module _ {ℓ κ μ} {K : Type ℓ} {V : Type κ} ⦃e : KeyEq K⦄ (P : K × V → Type μ) where
  pub All-insert :
      (k : K) (v : V) (m : HashMap K V)
      → ((j : K) → j ≡ k → P (j, v))
      → All P m
      → All P (insert k v m)
  unfolding insert
  All-insert k v [] new old = (new k refl, tt)
  All-insert k v ((i, w) ∷ m) new old = elim (Bool-cases (i == k)) [
    | inl same ↦ rw same (new i ((e.eqb_iff i k).0 same), old.1)
    | inr other ↦ rw other (old.0, All-insert k v m new old.1)
  ]

  pub All-update :
      (k : K) (f : V → V) (m : HashMap K V)
      → ((j : K) (w : V) → P (j, w) → P (j, f w))
      → All P m
      → All P (update k f m)
  unfolding update
  All-update k f [] step old = tt
  All-update k f ((i, w) ∷ m) step old = elim (Bool-cases (i == k)) [
    | inl same ↦ rw same (step i w old.0, old.1)
    | inr other ↦ rw other (old.0, All-update k f m step old.1)
  ]

  pub All-map_values :
      (f : V → V) (m : HashMap K V)
      → ((j : K) (w : V) → P (j, w) → P (j, f w))
      → All P m
      → All P (map_values f m)
  unfolding map_values
  All-map_values f [] step old = tt
  All-map_values f ((i, w) ∷ m) step old = (step i w old.0, All-map_values f m step old.1)

  pub All-retain : (p : K → Bool) (m : HashMap K V) → All P m → All P (retain p m)
  unfolding retain
  All-retain p [] old = tt
  All-retain p ((i, w) ∷ m) old = elim (Bool-cases (p i)) [
    | inl keep ↦ rw keep (old.0, All-retain p m old.1)
    | inr drop ↦ rw drop (All-retain p m old.1)
  ]

  pub All-remove : (k : K) (m : HashMap K V) → All P m → All P (remove k m)
  unfolding remove
  All-remove k [] old = tt
  All-remove k ((i, w) ∷ m) old = elim (Bool-cases (i == k)) [
    | inl same ↦ rw same old.1
    | inr other ↦ rw other (old.0, All-remove k m old.1)
  ]

  pub All-get :
      (k : K) (m : HashMap K V) {v : V} → All P m → get k m ≡ some v → (j : K) × (j ≡ k) × P (j, v)
  unfolding get
  All-get k [] old h = cc
  All-get k ((i, w) ∷ m) {v} old h = elim (Bool-cases (i == k)) [
    | inl same ↦
        let g : some w ≡ some v = rw same at h in
        let q : w ≡ v = ground arith in (i, (e.eqb_iff i k).0 same, subst (λ x. P (i, x)) q old.0)
    | inr other ↦ All-get k m old.1 (rw other at h)
  ]
