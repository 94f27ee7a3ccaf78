-- ===== src/Memory/Dequeue/Candidates.antt =====
-- src/memory.rs, `dequeue_workflows`: the candidates of a request and the rows they name.
use durust.Base.{
  String, Bool, true, false, some, List, [], ◌∷◌, map, ◌≡◌, refl, ◌==◌, string_eq, arith, All, In,
  filterb, All-map, All-filterb, In-map, In-filterb, filterb-holds, Bool-cases, inl, inr,
}
use durust.Base.Sorting.{insert_sorted, sort}
use durust.Base.Sorting.Order.{All-sort, In-sort, anyb-sort, anyb-insert_sorted}
use durust.Platform.{Platform}
use durust.Store.{get, contains_key, values, Distinct}
use durust.Provider.{WorkflowStatus, DequeueRequest}
use durust.Memory.{Inner}
use durust.Memory.Invariant.{Rows, IsKeyed, IsValid, values-present, get-In}
use durust.Memory.Dequeue.{
  Candidate, candidate_le, candidate_of, is_candidate, is_latest, candidates,
}
use durust.Memory.Dequeue.Claim.{is_among, DistinctIds}

insert_sorted-DistinctIds :
    (c : Candidate) (ids : List Candidate)
    → is_among c.2 ids ≡ false
    → DistinctIds ids
    → DistinctIds (insert_sorted candidate_le c ids)
unfolding insert_sorted
insert_sorted-DistinctIds c [] fresh d = (fresh, d)
insert_sorted-DistinctIds c (x ∷ ids) fresh d = elim (Bool-cases (candidate_le c x)) [
  | inl t ↦ rw t (fresh, d)
  | inr f ↦ rw f (
    ground (
      arith,
      anyb-insert_sorted candidate_le (λ (y : Candidate). y.2 == x.2) c ids,
      d.0,
      string_eq.eqb_iff c.2 x.2,
      string_eq.eqb_iff x.2 c.2,
    ),
    insert_sorted-DistinctIds c ids (ground arith) d.1,
  )
]

sort-DistinctIds : (ids : List Candidate) → DistinctIds ids → DistinctIds (sort candidate_le ids)
unfolding sort
sort-DistinctIds [] d = tt
sort-DistinctIds (c ∷ ids) d =
    insert_sorted-DistinctIds c (sort candidate_le ids)
      (ground (arith, anyb-sort candidate_le (λ (y : Candidate). y.2 == c.2) ids))
      (sort-DistinctIds ids d.1)

module _ {p : Platform} where
  -- Ids of filtered rows are keys of the table.
  is_among-filterb :
      (test : WorkflowStatus p → Bool) (j : String) (ws : Rows p)
      → IsKeyed ws
      → contains_key j ws ≡ false
      → is_among j (map candidate_of (filterb test (values ws))) ≡ false
  unfolding values contains_key
  is_among-filterb test j [] keyed h = refl
  is_among-filterb test j ((k, v) ∷ ws) keyed h =
      ground (arith, keyed.0, is_among-filterb test j ws keyed.1)

  rows-DistinctIds :
      (test : WorkflowStatus p → Bool) (ws : Rows p)
      → IsKeyed ws
      → Distinct ws
      → DistinctIds (map candidate_of (filterb test (values ws)))
  unfolding values
  rows-DistinctIds test [] keyed d = tt
  rows-DistinctIds test ((k, v) ∷ ws) keyed d = elim (Bool-cases (test v)) [
    | inl t ↦
        rw t (
          rw keyed.0 (is_among-filterb test k ws keyed.1 d.0),
          rows-DistinctIds test ws keyed.1 d.1,
        )
    | inr f ↦ rw f (rows-DistinctIds test ws keyed.1 d.1)
  ]

  module _ (req : DequeueRequest) (g : Inner p) (valid : IsValid g) where
    pub candidates-DistinctIds : DistinctIds (candidates req g)
    unfolding candidates
    candidates-DistinctIds =
        sort-DistinctIds _ (rows-DistinctIds _ g.workflows valid.keyed valid.rows_distinct)

    -- The id of a candidate has a row, which the request may claim.
    abbrev pub IsClaimable : Candidate → Type 0
    IsClaimable c =
        (w : WorkflowStatus p) × (get c.2 g.workflows ≡ some w)
        × (is_candidate req (is_latest req g) w ≡ true)
        × (candidate_of w ≡ c)

    pub candidates-IsClaimable : All IsClaimable (candidates req g)
    unfolding candidates
    candidates-IsClaimable = All-sort candidate_le IsClaimable _ (
        All-map IsClaimable candidate_of _ (
          both (filterb (is_candidate req (is_latest req g)) (values g.workflows))
            (All-filterb (λ (w : WorkflowStatus p). get w.id g.workflows ≡ some w) _ _
              (values-present g.workflows valid.keyed valid.rows_distinct))
            (filterb-holds (is_candidate req (is_latest req g)) (values g.workflows))))
      where
        both :
            (rows : List (WorkflowStatus p))
            → All (λ (w : WorkflowStatus p). get w.id g.workflows ≡ some w) rows
            → All (λ (w : WorkflowStatus p). is_candidate req (is_latest req g) w ≡ true) rows
            → All (λ (w : WorkflowStatus p). IsClaimable (candidate_of w)) rows
        both [] h k = tt
        both (w ∷ rows) h k = ((w, h.0, k.0, refl), both rows h.1 k.1)

    pub candidates_complete :
        (j : String) (w : WorkflowStatus p)
        → get j g.workflows ≡ some w
        → is_candidate req (is_latest req g) w ≡ true
        → In (candidate_of w) (candidates req g)
    unfolding candidates
    candidates_complete j w h k = In-sort candidate_le (candidate_of w) _ (
        In-map candidate_of w _ (
          In-filterb (is_candidate req (is_latest req g)) w (values g.workflows)
            (get-In j g.workflows w h) k))
