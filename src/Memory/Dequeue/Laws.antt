-- ===== src/Memory/Dequeue/Laws.antt =====
-- src/memory.rs, `dequeue_workflows`: one claim on valid tables.
use durust.Base.{
  ℕ, zero, suc, pos, pos_part, ◌≤◌, String, true, false, List, [], ◌∷◌, ◌≡◌, refl, sym, ◌∙◌,
  string_eq, arith, All, length, take, leb_ℤ, length-take, All-take, All-map_imp, Bool-cases, inl,
  inr, is_some, option_map, if◌then◌else◌,
}
use durust.Platform.{Platform}
use durust.Error.{ok}
use durust.Store.{get, values}
use durust.Provider.{WorkflowStatus, DequeueRequest}
use durust.Memory.{Inner}
use durust.Memory.Invariant.{Rows, IsValid}
use durust.Memory.Dequeue.{Candidate, allowed, candidates, claim_row, claim_all, dequeue_workflows}
use durust.Memory.Dequeue.Claim.{is_among, DistinctIds, claim_all-total, length-claim_all}
use durust.Memory.Dequeue.Rows.{get-claim_all}
use durust.Memory.Dequeue.Caps.{allowed-le-max_tasks}
use durust.Memory.Dequeue.Candidates.{candidates-DistinctIds, IsClaimable, candidates-IsClaimable}

is_among-take :
    (n : ℕ) (j : String) (ids : List Candidate)
    → is_among j ids ≡ false
    → is_among j (take n ids) ≡ false
is_among-take zero j ids h = refl
is_among-take (suc n) j [] h = refl
is_among-take (suc n) j (c ∷ ids) h = ground (arith, is_among-take n j ids)

take_distinct : (n : ℕ) (ids : List Candidate) → DistinctIds ids → DistinctIds (take n ids)
take_distinct zero ids d = tt
take_distinct (suc n) [] d = tt
take_distinct (suc n) (c ∷ ids) d = (is_among-take n c.2 ids d.0, take_distinct n ids d.1)

module _ {p : Platform} (req : DequeueRequest) (now : p.DateTime)
    (stamp : String → p.DateTime) where
  -- The ids that the request claims.
  abbrev pub chosen : Inner p → List Candidate
  chosen g =
      take (pos_part (allowed req (p.timestamp_millis now) (values g.workflows))) (candidates req g)

  -- A claim is the loop over the chosen ids, also where none may be claimed.
  pub dequeue-claim_all :
      (g : Inner p)
      → dequeue_workflows req now stamp g ≡ (
        (claim_all req (p.timestamp_millis now) stamp (chosen g) g.workflows).0,
        record g {
          workflows = (claim_all req (p.timestamp_millis now) stamp (chosen g) g.workflows).1;
        },
      )
  unfolding dequeue_workflows
  dequeue-claim_all g =
      elim (Bool-cases
        (leb_ℤ (allowed req (p.timestamp_millis now) (values g.workflows)) (pos 0))) [
          | inl none_allowed ↦
              let nothing : pos_part (allowed req (p.timestamp_millis now) (values g.workflows))
                  ≡ 0 =
                ground arith in
              rw (none_allowed, nothing)
          | inr some_allowed ↦ rw some_allowed
        ]

  present :
      (g : Inner p) (valid : IsValid g)
      → All (λ (c : Candidate). is_some (get c.2 g.workflows) ≡ true) (chosen g)
  present g valid =
      All-take (λ (c : Candidate). is_some (get c.2 g.workflows) ≡ true) _ _
        (All-map_imp (IsClaimable req g valid)
          (λ (c : Candidate). is_some (get c.2 g.workflows) ≡ true) (candidates req g)
          (λ c claimable. rw claimable.1) (candidates-IsClaimable req g valid))

  -- On tables in a valid state a dequeue neither fails nor panics, it changes only the table of
  -- workflows, and it claims at most `max_tasks` rows (none, if that is negative).
  pub dequeue-total :
      (g : Inner p)
      → IsValid g
      → (claimed : List (WorkflowStatus p)) × (ws : Rows p) × (dequeue_workflows req now stamp g
          ≡ (ok claimed, record g { workflows = ws }))
        × (length claimed ≤ pos_part req.max_tasks)
  dequeue-total g valid =
      let (cs, ws, q) =
        claim_all-total req (p.timestamp_millis now) stamp (chosen g) g.workflows
          (present g valid) in
      (
        cs,
        ws,
        dequeue-claim_all g ∙ rw q,
        omega (
          arith,
          length-claim_all req (p.timestamp_millis now) stamp (chosen g) g.workflows q,
          length-take (pos_part (allowed req (p.timestamp_millis now) (values g.workflows)))
              (candidates req g),
          allowed-le-max_tasks req (p.timestamp_millis now) (values g.workflows),
        ),
      )

  module _ (g : Inner p) (valid : IsValid g) {cs : List (WorkflowStatus p)} {g' : Inner p}
      (run : dequeue_workflows req now stamp g ≡ (ok cs, g')) where
    pub dequeue-loop :
        claim_all req (p.timestamp_millis now) stamp (chosen g) g.workflows ≡ (ok cs, g'.workflows)
    dequeue-loop = let q = sym (dequeue-claim_all g) ∙ run in λ i. ((q i).0, (q i).1.workflows)

    pub length-chosen : length cs ≡ length (chosen g)
    length-chosen =
        length-claim_all req (p.timestamp_millis now) stamp (chosen g) g.workflows dequeue-loop

    pub chosen_distinct : DistinctIds (chosen g)
    chosen_distinct = take_distinct _ (candidates req g) (candidates-DistinctIds req g valid)

    pub row_after :
        (j : String)
        → get j g'.workflows ≡ (
            if is_among j (chosen g)
            then option_map (claim_row req (p.timestamp_millis now) (stamp j)) (get j g.workflows)
            else get j g.workflows)
    row_after j =
        get-claim_all req (p.timestamp_millis now) stamp j (chosen g) g.workflows chosen_distinct
          dequeue-loop
