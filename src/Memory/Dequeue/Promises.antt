-- ===== src/Memory/Dequeue/Promises.antt =====
-- src/memory.rs, `dequeue_workflows`: which rows a claim takes, what it writes and what it leaves.
use mathlib.Core.Path.{subst}
use durust.Base.{
  ℤ, String, Bool, true, false, Option, none, some, List, map, ◌≡◌, refl, sym, ap, ◌∙◌, ◌==◌,
  string_eq, arith, In, anyb, All-take, All-In, In-map, In-map_inv, In-of_anyb, anyb-In, Bool-cases,
  inl, inr, ◌⊎◌, is_some_of, opt_eq, is_none,
}
use durust.Platform.{Platform}
use durust.Error.{ok}
use durust.Store.{get}
use durust.Provider.{WorkflowStatus, DequeueRequest, status_enqueued, status_pending}
use durust.Memory.{Inner}
use durust.Memory.Invariant.{IsValid}
use durust.Memory.Dequeue.{Candidate, is_candidate, is_latest, claim_row, dequeue_workflows}
use durust.Memory.Dequeue.Claim.{is_among, ids-claim_all}
use durust.Memory.Dequeue.Rows.{claim_all-stored}
use durust.Memory.Dequeue.Candidates.{IsClaimable, candidates-IsClaimable}
use durust.Memory.Dequeue.Laws.{chosen, dequeue-loop, chosen_distinct, row_after}

on_some : (o : Option String) (s : String) → is_some_of o s ≡ true → o ≡ some s
on_some none s h = absurd (ground arith)
on_some (some t) s h = ap some ((string_eq.eqb_iff t s).0 h)

unscoped_none : (o : Option String) → is_none o ≡ true → o ≡ none
unscoped_none none h = refl
unscoped_none (some s) h = absurd (ground arith)

same_option : (o q : Option String) → opt_eq o q ≡ true → o ≡ q
same_option none none h = refl
same_option none (some t) h = absurd (ground arith)
same_option (some s) none h = absurd (ground arith)
same_option (some s) (some t) h = ap some ((string_eq.eqb_iff s t).0 h)

module _ {p : Platform} where
  -- `w` is the row that a claim makes of `old`.
  pub record IsClaimOf (req : DequeueRequest) (latest : Bool) (now_ms : ℤ)
      (old w : WorkflowStatus p) : Type 0 where
    pub was_enqueued : old.status ≡ status_enqueued
    pub on_queue : old.queue_name ≡ some req.queue_name
    pub in_partition : (req.partition_key ≡ none) ⊎ (old.queue_partition_key ≡ req.partition_key)
    pub version : (old.app_version ≡ req.app_version) ⊎ ((old.app_version ≡ "") × (latest ≡ true))
    pub now_pending : w.status ≡ status_pending
    pub owner : w.executor_id ≡ req.executor_id
    pub stamped : w.app_version ≡ req.app_version
    pub started : w.started_at_ms ≡ some now_ms
    pub same_id : w.id ≡ old.id
    pub same_work : (w.name ≡ old.name) × (w.input ≡ old.input)
    pub same_order : (w.priority ≡ old.priority) × (w.created_at ≡ old.created_at)
    pub same_slot : (w.queue_name ≡ old.queue_name) × (w.dedup_id ≡ old.dedup_id)

  claim_row-IsClaimOf :
      (req : DequeueRequest) (latest : Bool) (now_ms : ℤ) (stamp : p.DateTime)
      (old : WorkflowStatus p)
      → is_candidate req latest old ≡ true
      → IsClaimOf req latest now_ms old (claim_row req now_ms stamp old)
  unfolding is_candidate claim_row
  claim_row-IsClaimOf req latest now_ms stamp old h = record {
    was_enqueued = ground (arith, string_eq.eqb_iff old.status status_enqueued);
    on_queue = on_some old.queue_name req.queue_name (ground arith);
    in_partition = elim (Bool-cases (is_none req.partition_key)) [
      | inl unscoped ↦ inl (unscoped_none req.partition_key unscoped)
      | inr scoped ↦ inr (same_option old.queue_partition_key req.partition_key (ground arith))
    ];
    version = ground (
      arith,
      string_eq.eqb_iff old.app_version req.app_version,
      string_eq.eqb_iff old.app_version "",
    );
    now_pending = refl;
    owner = refl;
    stamped = refl;
    started = refl;
    same_id = refl;
    same_work = (refl, refl);
    same_order = (refl, refl);
    same_slot = (refl, refl);
  }

module _ {p : Platform} (req : DequeueRequest) (now : p.DateTime) (stamp : String → p.DateTime)
    (g : Inner p) (valid : IsValid g) {cs : List (WorkflowStatus p)} {g' : Inner p}
    (run : dequeue_workflows req now stamp g ≡ (ok cs, g')) where
  pub same_ids :
      map (λ (w : WorkflowStatus p). w.id) cs
      ≡ map (λ (c : Candidate). c.2) (chosen req now stamp g)
  same_ids =
      ids-claim_all req (p.timestamp_millis now) stamp (chosen req now stamp g) g.workflows
        valid.keyed (dequeue-loop req now stamp g valid run)

  -- A claimed row has a chosen candidate of its id.
  pub chosen_of :
      (w : WorkflowStatus p)
      → In w cs
      → (c : Candidate) × In c (chosen req now stamp g) × (w.id ≡ c.2)
  chosen_of w m =
      In-map_inv (λ (c : Candidate). c.2) w.id (chosen req now stamp g)
        (rw same_ids at (In-map (λ (v : WorkflowStatus p). v.id) w cs m))

  pub claimable : (c : Candidate) → In c (chosen req now stamp g) → IsClaimable req g valid c
  claimable c m =
      All-In (IsClaimable req g valid) c (chosen req now stamp g)
        (All-take (IsClaimable req g valid) _ _ (candidates-IsClaimable req g valid)) m

  pub stored : (w : WorkflowStatus p) → In w cs → get w.id g'.workflows ≡ some w
  stored w m =
      All-In (λ (v : WorkflowStatus p). get v.id g'.workflows ≡ some v) w cs
        (claim_all-stored req (p.timestamp_millis now) stamp (chosen req now stamp g) g.workflows
          valid.keyed (chosen_distinct req now stamp g valid run)
          (dequeue-loop req now stamp g valid run))
        m

  -- Every row returned is the row now stored under its id, and it was made of a row that waited in
  -- the request's queue and partition, ENQUEUED, of this version (or of none, if this executor's
  -- version is the latest): it is PENDING, owned by the executor and stamped with its version and
  -- with the time, and its id, name, input, place in the order, queue and deduplication id are the
  -- old ones.
  pub dequeue-claimed :
      (w : WorkflowStatus p)
      → In w cs
      → (old : WorkflowStatus p) × (get w.id g.workflows ≡ some old)
        × (get w.id g'.workflows ≡ some w)
        × IsClaimOf req (is_latest req g) (p.timestamp_millis now) old w
  dequeue-claimed w m =
      let (c, k, e) = chosen_of w m in
      let (old, found, test, same) = claimable c k in
      let among : is_among w.id (chosen req now stamp g) ≡ true =
        anyb-In (λ (d : Candidate). d.2 == w.id) c (chosen req now stamp g) k
          ((string_eq.eqb_iff c.2 w.id).1 (sym e)) in
      let before : get w.id g.workflows ≡ some old = ap (λ j. get j g.workflows) e ∙ found in
      let after : get w.id g'.workflows
          ≡ some (claim_row req (p.timestamp_millis now) (stamp w.id) old) =
        ground (arith, row_after req now stamp g valid run w.id) in
      let made : claim_row req (p.timestamp_millis now) (stamp w.id) old ≡ w =
        ground (arith, stored w m) in
      (
        old,
        before,
        stored w m,
        subst (IsClaimOf req (is_latest req g) (p.timestamp_millis now) old) made (
            claim_row-IsClaimOf req (is_latest req g) (p.timestamp_millis now) (stamp w.id) old
              test),
      )

  -- A row whose id is not among those returned is the same before and after.
  pub dequeue-unclaimed :
      (j : String)
      → anyb (λ (w : WorkflowStatus p). w.id == j) cs ≡ false
      → get j g'.workflows ≡ get j g.workflows
  dequeue-unclaimed j h = elim (Bool-cases (is_among j (chosen req now stamp g))) [
    | inl among ↦
        let (c, k, e) = In-of_anyb (λ (d : Candidate). d.2 == j) (chosen req now stamp g) among in
        let (w, m, q) =
          In-map_inv (λ (v : WorkflowStatus p). v.id) c.2 cs
            (rw (← same_ids) at (In-map (λ (d : Candidate). d.2) c (chosen req now stamp g) k)) in
        let hit : (w.id == j) ≡ true = rw (← q) e in
        absurd (ground (arith, anyb-In (λ (v : WorkflowStatus p). v.id == j) w cs m hit))
    | inr other ↦ ground (arith, row_after req now stamp g valid run j)
  ]
