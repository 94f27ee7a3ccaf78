-- ===== src/Memory/Dequeue/Claim.antt =====
-- src/memory.rs, `dequeue_workflows`: the claiming loop.
use durust.Base.{
  ℤ, ◌+◌, ◌≤◌, String, Bool, true, false, some, List, [], ◌∷◌, map, ◌≡◌, refl, ap, ◌==◌, string_eq,
  arith, All, anyb, length, countb, Option-cases, inl, inr, is_some,
}
use durust.Platform.{Platform}
use durust.Error.{Result, ok, err, panicked}
use durust.Store.{get, update, values}
use durust.Store.Laws.{get-update}
use durust.Store.Values.{countb-update, All-update}
use durust.Provider.{WorkflowStatus, DequeueRequest}
use durust.Memory.Invariant.{Rows, IsKeyed, get-IsKeyed}
use durust.Memory.Dequeue.{Candidate, claim_row, prepend, claim_all}

abbrev pub is_among : String → List Candidate → Bool
is_among j ids = anyb (λ (c : Candidate). c.2 == j) ids

-- The ids are pairwise different.
abbrev pub DistinctIds : List Candidate → Type 0
DistinctIds [] = Unit
DistinctIds (c ∷ ids) = (is_among c.2 ids ≡ false) × DistinctIds ids

module _ {p : Platform} where
  prepend-eq-ok :
      (w : WorkflowStatus p) (r : Result p (List (WorkflowStatus p)) × Rows p)
      {cs : List (WorkflowStatus p)} {ws' : Rows p}
      → prepend w r ≡ (ok cs, ws')
      → (rest : List (WorkflowStatus p)) × (r ≡ (ok rest, ws')) × (cs ≡ w ∷ rest)
  prepend-eq-ok w (ok rest, ws) h = (rest, ground arith, ground arith)
  prepend-eq-ok w (err e, ws) h = absurd (ground arith)
  prepend-eq-ok w (panicked, ws) h = absurd (ground arith)

  module _ (req : DequeueRequest) (now_ms : ℤ) (stamp : String → p.DateTime) where
    abbrev claim : String → WorkflowStatus p → WorkflowStatus p
    claim id = claim_row req now_ms (stamp id)

    -- One round of a loop that ends well.
    pub claim_all-eq-ok :
        (c : Candidate) (ids : List Candidate) (ws : Rows p) {cs : List (WorkflowStatus p)}
        {ws' : Rows p}
        → claim_all req now_ms stamp (c ∷ ids) ws ≡ (ok cs, ws')
        → (w : WorkflowStatus p) × (rest : List (WorkflowStatus p)) × (get c.2 ws ≡ some w)
          × (claim_all req now_ms stamp ids (update c.2 (claim c.2) ws) ≡ (ok rest, ws'))
          × (cs ≡ claim c.2 w ∷ rest)
    unfolding claim_all
    claim_all-eq-ok c ids ws h = elim (Option-cases (get c.2 ws)) [
      | inl e ↦ absurd (ground arith)
      | inr (w, e) ↦
          let (rest, q, r) =
            prepend-eq-ok (claim c.2 w) (claim_all req now_ms stamp ids (update c.2 (claim c.2) ws))
              (rw (e, claim_all) at h) in
          (w, rest, e, q, r)
    ]

    update-present :
        (id : String) (ws : Rows p) (ids : List Candidate)
        → All (λ (c : Candidate). is_some (get c.2 ws) ≡ true) ids
        → All (λ (c : Candidate). is_some (get c.2 (update id (claim id) ws)) ≡ true) ids
    update-present id ws [] h = tt
    update-present id ws (c ∷ ids) h =
        (ground (arith, get-update c.2 id (claim id) ws, h.0), update-present id ws ids h.1)

    pub claim_all-total :
        (ids : List Candidate) (ws : Rows p)
        → All (λ (c : Candidate). is_some (get c.2 ws) ≡ true) ids
        → (cs : List (WorkflowStatus p)) × (ws' : Rows p) × (claim_all req now_ms stamp ids ws
            ≡ (ok cs, ws'))
    unfolding claim_all
    claim_all-total [] ws h = ([], ws, refl)
    claim_all-total (c ∷ ids) ws h = elim (Option-cases (get c.2 ws)) [
      | inl e ↦ absurd (ground (arith, h.0))
      | inr (w, e) ↦
          let (cs, ws', q) =
            claim_all-total ids (update c.2 (claim c.2) ws) (update-present c.2 ws ids h.1) in
          (claim c.2 w ∷ cs, ws', rw (e, claim_all, q))
    ]

    pub length-claim_all :
        (ids : List Candidate) (ws : Rows p) {cs : List (WorkflowStatus p)} {ws' : Rows p}
        → claim_all req now_ms stamp ids ws ≡ (ok cs, ws')
        → length cs ≡ length ids
    unfolding claim_all
    length-claim_all [] ws h = ground arith
    length-claim_all (c ∷ ids) ws h =
        let (w, rest, e, q, r) = claim_all-eq-ok c ids ws h in
        ground (arith, r, length-claim_all ids (update c.2 (claim c.2) ws) q)

    -- Each round adds one row at most to those that pass a test.
    pub countb-claim_all :
        (test : WorkflowStatus p → Bool) (ids : List Candidate) (ws : Rows p)
        {cs : List (WorkflowStatus p)} {ws' : Rows p}
        → claim_all req now_ms stamp ids ws ≡ (ok cs, ws')
        → countb test (values ws') ≤ countb test (values ws) + length ids
    unfolding claim_all
    countb-claim_all test [] ws h =
        rw (← ap (λ (r : Result p (List (WorkflowStatus p)) × Rows p). r.1) h) (omega arith)
    countb-claim_all test (c ∷ ids) ws h =
        let (w, rest, e, q, r) = claim_all-eq-ok c ids ws h in
        omega (
          arith,
          countb-claim_all test ids (update c.2 (claim c.2) ws) q,
          countb-update test c.2 (claim c.2) ws,
        )

    -- On rows that stand under their own ids, the claimed rows have the ids asked for, in order.
    pub ids-claim_all :
        (ids : List Candidate) (ws : Rows p) {cs : List (WorkflowStatus p)} {ws' : Rows p}
        → IsKeyed ws
        → claim_all req now_ms stamp ids ws ≡ (ok cs, ws')
        → map (λ (w : WorkflowStatus p). w.id) cs ≡ map (λ (c : Candidate). c.2) ids
    unfolding claim_all claim_row
    ids-claim_all [] ws keyed h = ground arith
    ids-claim_all (c ∷ ids) ws keyed h =
        let (w, rest, e, q, r) = claim_all-eq-ok c ids ws h in
        ground (
          arith,
          r,
          get-IsKeyed c.2 ws keyed e,
          ids-claim_all ids (update c.2 (claim c.2) ws)
              (All-update (λ (e : String × WorkflowStatus p). e.1.id ≡ e.0) c.2 (claim c.2) ws
                (λ j w k. k) keyed)
              q,
        )
