-- ===== src/Memory/Dequeue/Rows.antt =====
-- src/memory.rs, `dequeue_workflows`: the rows after the claiming loop.
use durust.Base.{
  ℤ, String, false, some, List, [], ◌∷◌, ◌≡◌, ap, ◌∙◌, ==_refl, ◌==◌, string_eq, arith, All,
  Bool-cases, inl, inr, option_map, if◌then◌else◌,
}
use durust.Platform.{Platform}
use durust.Error.{Result, ok}
use durust.Store.{get, Distinct, update}
use durust.Store.Laws.{get-update}
use durust.Store.Values.{All-update, update-Distinct}
use durust.Provider.{WorkflowStatus, DequeueRequest}
use durust.Memory.Invariant.{Rows, IsKeyed, get-IsKeyed}
use durust.Memory.Dequeue.{Candidate, claim_row, claim_all}
use durust.Memory.Dequeue.Claim.{is_among, DistinctIds, claim_all-eq-ok as eq_ok}

module _ {p : Platform} where
  module _ (req : DequeueRequest) (now_ms : ℤ) (stamp : String → p.DateTime) where
    abbrev claim : String → WorkflowStatus p → WorkflowStatus p
    claim id = claim_row req now_ms (stamp id)

    -- What every row is after the loop.
    pub get-claim_all :
        (j : String) (ids : List Candidate) (ws : Rows p) {cs : List (WorkflowStatus p)}
        {ws' : Rows p}
        → DistinctIds ids
        → claim_all req now_ms stamp ids ws ≡ (ok cs, ws')
        → get j ws' ≡ (if is_among j ids then option_map (claim j) (get j ws) else get j ws)
    unfolding claim_all
    get-claim_all j [] ws d h =
        rw (← ap (λ (r : Result p (List (WorkflowStatus p)) × Rows p). r.1) h)
    get-claim_all j (c ∷ ids) ws d h =
        let (w, rest, e, q, r) = eq_ok req now_ms stamp c ids ws h in
        let ih = get-claim_all j ids (update c.2 (claim c.2) ws) d.1 q in
        elim (Bool-cases (c.2 == j)) [
          | inl same ↦
              let k : c.2 ≡ j = (string_eq.eqb_iff c.2 j).0 same in
              let fresh : is_among j ids ≡ false = rw (← k) d.0 in
              ground (arith, ih, fresh, get-update j c.2 (claim c.2) ws)
          | inr other ↦ ground (arith, ih, get-update j c.2 (claim c.2) ws)
        ]

    IsKeyed-update : (id : String) (ws : Rows p) → IsKeyed ws → IsKeyed (update id (claim id) ws)
    unfolding claim_row
    IsKeyed-update id ws keyed =
        All-update (λ (e : String × WorkflowStatus p). e.1.id ≡ e.0) id (claim id) ws (λ j w k. k)
          keyed

    pub claim_all-IsKeyed :
        (ids : List Candidate) (ws : Rows p) {cs : List (WorkflowStatus p)} {ws' : Rows p}
        → IsKeyed ws
        → claim_all req now_ms stamp ids ws ≡ (ok cs, ws')
        → IsKeyed ws'
    unfolding claim_all
    claim_all-IsKeyed [] ws keyed h =
        rw (← ap (λ (r : Result p (List (WorkflowStatus p)) × Rows p). r.1) h) keyed
    claim_all-IsKeyed (c ∷ ids) ws keyed h =
        let (w, rest, e, q, r) = eq_ok req now_ms stamp c ids ws h in
        claim_all-IsKeyed ids (update c.2 (claim c.2) ws) (IsKeyed-update c.2 ws keyed) q

    pub claim_all-Distinct :
        (ids : List Candidate) (ws : Rows p) {cs : List (WorkflowStatus p)} {ws' : Rows p}
        → Distinct ws
        → claim_all req now_ms stamp ids ws ≡ (ok cs, ws')
        → Distinct ws'
    unfolding claim_all
    claim_all-Distinct [] ws d h =
        rw (← ap (λ (r : Result p (List (WorkflowStatus p)) × Rows p). r.1) h) d
    claim_all-Distinct (c ∷ ids) ws d h =
        let (w, rest, e, q, r) = eq_ok req now_ms stamp c ids ws h in
        claim_all-Distinct ids (update c.2 (claim c.2) ws) (update-Distinct c.2 (claim c.2) ws d) q

    claim_first :
        (c : Candidate) (ids : List Candidate) (ws : Rows p) (w : WorkflowStatus p)
        {rest : List (WorkflowStatus p)} {ws' : Rows p}
        → DistinctIds (c ∷ ids)
        → get c.2 ws ≡ some w
        → w.id ≡ c.2
        → claim_all req now_ms stamp ids (update c.2 (claim c.2) ws) ≡ (ok rest, ws')
        → get (claim c.2 w).id ws' ≡ some (claim c.2 w)
    unfolding claim_row
    claim_first c ids ws w {ws'} d e named q =
        ap (λ j. get j ws') named
        ∙ ground (
          arith,
          get-claim_all c.2 ids (update c.2 (claim c.2) ws) d.1 q,
          d.0,
          get-update c.2 c.2 (claim c.2) ws,
          ==_refl c.2,
          e,
        )

    -- The rows returned are the rows stored.
    pub claim_all-stored :
        (ids : List Candidate) (ws : Rows p) {cs : List (WorkflowStatus p)} {ws' : Rows p}
        → IsKeyed ws
        → DistinctIds ids
        → claim_all req now_ms stamp ids ws ≡ (ok cs, ws')
        → All (λ (w : WorkflowStatus p). get w.id ws' ≡ some w) cs
    unfolding claim_all
    claim_all-stored [] ws {cs} keyed d h =
        let none_claimed : cs ≡ [] = ground arith in rw none_claimed tt
    claim_all-stored (c ∷ ids) ws {cs} {ws'} keyed d h =
        let (w, rest, e, q, r) = eq_ok req now_ms stamp c ids ws h in
        let named : w.id ≡ c.2 = get-IsKeyed c.2 ws keyed e in
        rw r (
          claim_first c ids ws w d e named q,
          claim_all-stored ids (update c.2 (claim c.2) ws) (IsKeyed-update c.2 ws keyed) d.1 q,
        )
