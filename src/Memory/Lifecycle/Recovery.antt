-- ===== src/Memory/Lifecycle/Recovery.antt =====
-- src/memory.rs, `bump_recovery_attempts`: several recoveries of one workflow.
use durust.Base.{
  ℕ, zero, suc, ◌+◌, ◌<◌, ◌^◌, ℤ, pos, ltb, ltb_ℤ, i32, i32_of_fits, ◌+ℤ◌, String, some, ◌≡◌, refl,
  ap, ◌∙◌, string_eq, ==_refl, arith, inl, inr, Bool-cases, if◌then◌else◌,
}
use durust.Platform.{Platform}
use durust.Store.{get}
use durust.Store.Laws.{get-update}
use durust.Provider.{WorkflowStatus, status_max_recovery_attempts_exceeded}
use durust.Memory.{Inner}
use durust.Memory.Lifecycle.{bump_row, bump_recovery_attempts}

-- The status after `k` attempts of a row that had the status `s` before it was parked.
abbrev pub parked_from : ℕ → ℕ → String → String
parked_from m k s = if ltb m k then status_max_recovery_attempts_exceeded else s

one_more : (k : ℕ) → k + 1 < 2 ^ 31 → i32 (pos k +ℤ pos 1) ≡ pos (k + 1)
unfolding ◌+ℤ◌
one_more k h = i32_of_fits (pos k +ℤ pos 1) (ground arith) ∙ ground arith

module _ {p : Platform} where
  -- `n` recoveries in a row.
  unfoldable pub bumps : ℕ → String → ℤ → p.DateTime → Inner p → Inner p
  bumps zero id max now g = g
  bumps (suc n) id max now g = bumps n id max now (bump_recovery_attempts id max now g).1

  bump_row_parts :
      (max : ℤ) (now : p.DateTime) (row : WorkflowStatus p)
      → ((bump_row max now row).recovery_attempts ≡ i32 (row.recovery_attempts +ℤ pos 1))
        × ((bump_row max now row).status ≡ (
            if ltb_ℤ max (i32 (row.recovery_attempts +ℤ pos 1))
            then status_max_recovery_attempts_exceeded
            else row.status))
  unfolding bump_row
  bump_row_parts max now row =
      elim (Bool-cases (ltb_ℤ max (i32 (row.recovery_attempts +ℤ pos 1)))) [
        | inl past ↦ rw past (refl, refl)
        | inr below ↦ rw below (refl, refl)
      ]

  bump_row-counts :
      (m k : ℕ) (s : String) (now : p.DateTime) (row : WorkflowStatus p)
      → row.recovery_attempts ≡ pos k
      → row.status ≡ parked_from m k s
      → k + 1 < 2 ^ 31
      → ((bump_row (pos m) now row).recovery_attempts ≡ pos (k + 1))
        × ((bump_row (pos m) now row).status ≡ parked_from m (k + 1) s)
  bump_row-counts m k s now row counted is_status fits =
      let (attempts, status) = bump_row_parts (pos m) now row in
      let more : i32 (row.recovery_attempts +ℤ pos 1) ≡ pos (k + 1) =
        ap (λ z. i32 (z +ℤ pos 1)) counted ∙ one_more k fits in
      (
        attempts ∙ more,
        status
            ∙ ap
                (λ z. if ltb_ℤ (pos m) z then status_max_recovery_attempts_exceeded else row.status)
                more
            ∙ ground arith,
      )

  bumped :
      (id : String) (max : ℤ) (now : p.DateTime) (row : WorkflowStatus p) (g : Inner p)
      → get id g.workflows ≡ some row
      → get id (bump_recovery_attempts id max now g).1.workflows ≡ some (bump_row max now row)
  unfolding bump_recovery_attempts
  bumped id max now row g found =
      rw (found, bump_recovery_attempts)
        (ground (arith, get-update id id (bump_row max now) g.workflows, ==_refl id))

  -- After `n` recoveries of a row that started with `k` attempts, as long as the count fits 32
  -- bits, the row has `k + n` attempts, and it is parked exactly when these pass the limit; till
  -- then it keeps its status.
  pub bumps-park :
      (n m k : ℕ) (s id : String) (now : p.DateTime) (row : WorkflowStatus p) (g : Inner p)
      → get id g.workflows ≡ some row
      → row.recovery_attempts ≡ pos k
      → row.status ≡ parked_from m k s
      → k + n < 2 ^ 31
      → (r : WorkflowStatus p) × (get id (bumps n id (pos m) now g).workflows ≡ some r)
        × (r.recovery_attempts ≡ pos (k + n))
        × (r.status ≡ parked_from m (k + n) s)
  unfolding bumps
  bumps-park zero m k s id now row g found counted is_status fits =
      (row, found, ground arith, ground arith)
  bumps-park (suc n) m k s id now row g found counted is_status fits =
      let (c, t) = bump_row-counts m k s now row counted is_status (ground arith) in
      let (r, there, more, parked) =
        bumps-park n m (k + 1) s id now (bump_row (pos m) now row)
          (bump_recovery_attempts id (pos m) now g).1 (bumped id (pos m) now row g found) c t
          (ground arith) in
      (r, there, ground arith, ground arith)
