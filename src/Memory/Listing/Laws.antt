-- ===== src/Memory/Listing/Laws.antt =====
-- src/memory.rs, `list_workflows`: which rows are returned, and how many.
use Prim.Native.Nat.{◌≤◌}
use durust.Base.{
  ℤ, pos_part, Bool, true, false, Option, none, some, List, [], ◌∷◌, ◌≡◌, refl, arith, inl, inr,
  Bool-cases, All, All-map, All-map_imp, All-take, All-drop, In, In-map, ◌⊎◌, In-filterb, filterb,
  length, length-take, length-map, if◌then◌else◌,
}
use durust.Base.Sorting.{sort}
use durust.Base.Sorting.Order.{All-sort, In-sort}
use durust.Platform.{Platform}
use durust.Store.{values}
use durust.Provider.{WorkflowStatus, ListFilter}
use durust.Memory.{Inner}
use durust.Memory.Listing.{
  matches, page, loaded, list_workflows, reverse_onto, drain_front, truncate,
}

module _ {A : Type 0} where
  All-reverse_onto :
      (P : A → Type 0) (xs ys : List A) → All P xs → All P ys → All P (reverse_onto xs ys)
  All-reverse_onto P [] ys hx hy = hy
  All-reverse_onto P (x ∷ xs) ys hx hy = All-reverse_onto P xs (x ∷ ys) hx.1 (hx.0, hy)

  In-reverse_onto : (a : A) (xs ys : List A) → (In a xs ⊎ In a ys) → In a (reverse_onto xs ys)
  In-reverse_onto a [] ys (inl m) = elim m [ ]
  In-reverse_onto a [] ys (inr m) = m
  In-reverse_onto a (x ∷ xs) ys (inl (inl e)) = In-reverse_onto a xs (x ∷ ys) (inr (inl e))
  In-reverse_onto a (x ∷ xs) ys (inl (inr m)) = In-reverse_onto a xs (x ∷ ys) (inl m)
  In-reverse_onto a (x ∷ xs) ys (inr m) = In-reverse_onto a xs (x ∷ ys) (inr (inr m))

module _ {p : Platform} where
  All-page :
      (P : WorkflowStatus p → Type 0) (filter : ListFilter) (rows : List (WorkflowStatus p))
      → All P rows
      → All P (page filter rows)
  unfolding page
  All-page P filter rows h =
      limited filter.limit
        (drain_front filter.offset (if filter.sort_desc then reverse_onto rows [] else rows))
        (skipped filter.offset (if filter.sort_desc then reverse_onto rows [] else rows)
          (directed filter.sort_desc))
    where
      directed : (b : Bool) → All P (if b then reverse_onto rows [] else rows)
      directed true = All-reverse_onto P rows [] h tt
      directed false = h

      skipped : (o : Option ℤ) (xs : List (WorkflowStatus p)) → All P xs → All P (drain_front o xs)
      skipped none xs q = q
      skipped (some off) xs q = All-drop P (pos_part off) xs q

      limited : (o : Option ℤ) (xs : List (WorkflowStatus p)) → All P xs → All P (truncate o xs)
      limited none xs q = q
      limited (some lim) xs q = All-take P (pos_part lim) xs q

  In-page :
      (w : WorkflowStatus p) (filter : ListFilter) (rows : List (WorkflowStatus p))
      → filter.offset ≡ none
      → filter.limit ≡ none
      → In w rows
      → In w (page filter rows)
  unfolding page
  In-page w filter rows off lim m = simp (off, lim) (directed filter.sort_desc)
    where
      directed : (b : Bool) → In w (if b then reverse_onto rows [] else rows)
      directed true = In-reverse_onto w rows [] (inl m)
      directed false = m

  -- A stored row that matches, as it is listed.
  abbrev pub IsListed : ListFilter → List (WorkflowStatus p) → WorkflowStatus p → Type 0
  IsListed filter rows v =
      (w : WorkflowStatus p) × In w rows × (matches filter rows w ≡ true) × (v ≡ loaded filter w)

  stored : (rows : List (WorkflowStatus p)) → All (λ (w : WorkflowStatus p). In w rows) rows
  stored [] = tt
  stored (w ∷ rows) = (
    inl refl,
    All-map_imp (λ (v : WorkflowStatus p). In v rows) (λ (v : WorkflowStatus p). In v (w ∷ rows))
        rows (λ v m. inr m) (stored rows),
  )

  kept :
      (f : WorkflowStatus p → Bool) (all rows : List (WorkflowStatus p))
      → All (λ (w : WorkflowStatus p). In w all) rows
      → All (λ (w : WorkflowStatus p). In w all × (f w ≡ true)) (filterb f rows)
  kept f all [] h = tt
  kept f all (w ∷ rows) h = elim (Bool-cases (f w)) [
    | inl t ↦ rw t ((h.0, t), kept f all rows h.1)
    | inr b ↦ rw b (kept f all rows h.1)
  ]

  pub list_workflows-exact :
      (filter : ListFilter) (g : Inner p)
      → All (IsListed filter (values g.workflows)) (list_workflows filter g)
        × (filter.offset ≡ none
            → filter.limit ≡ none
            → (w : WorkflowStatus p) → In w (values g.workflows)
            → matches filter (values g.workflows) w ≡ true
            → In (loaded filter w) (list_workflows filter g))
  unfolding list_workflows
  list_workflows-exact filter g =
      let rows = values g.workflows in
      let by_age : WorkflowStatus p → WorkflowStatus p → Bool =
        λ (a b : WorkflowStatus p). p.leb_time a.created_at b.created_at in
      let found = filterb (matches filter rows) rows in
      (
        All-map (IsListed filter rows) (loaded filter) (page filter (sort by_age found)) (
            All-map_imp (λ (w : WorkflowStatus p). In w rows × (matches filter rows w ≡ true))
              (λ (w : WorkflowStatus p). IsListed filter rows (loaded filter w))
              (page filter (sort by_age found)) (λ w h. (w, h.0, h.1, refl))
              (All-page (λ (w : WorkflowStatus p). In w rows × (matches filter rows w ≡ true))
                filter (sort by_age found)
                (All-sort by_age
                  (λ (w : WorkflowStatus p). In w rows × (matches filter rows w ≡ true)) found
                  (kept (matches filter rows) rows rows (stored rows))))),
        λ off lim w m h. In-map (loaded filter) w (page filter (sort by_age found)) (
            In-page w filter (sort by_age found) off lim
              (In-sort by_age w found (In-filterb (matches filter rows) w rows m h))),
      )

  -- A listing with a limit has at most that many rows, and none for a negative limit.
  pub list_workflows-limit :
      (filter : ListFilter) (lim : ℤ) (g : Inner p)
      → filter.limit ≡ some lim
      → length (list_workflows filter g) ≤ pos_part lim
  unfolding list_workflows page
  list_workflows-limit filter lim g h =
      let directed =
        if filter.sort_desc
        then reverse_onto (sort by_age (filterb (matches filter rows) rows)) []
        else sort by_age (filterb (matches filter rows) rows) in
      let skipped = drain_front filter.offset directed in
      rw
        (length-map (loaded filter)
          (page filter (sort by_age (filterb (matches filter rows) rows))))
        (simp h (omega (arith, length-take (pos_part lim) skipped)))
    where
      rows : List (WorkflowStatus p)
      rows = values g.workflows

      by_age : WorkflowStatus p → WorkflowStatus p → Bool
      by_age a b = p.leb_time a.created_at b.created_at
