-- ===== src/Provider/Status.antt =====
-- src/provider.rs: the lifecycle states stored in the `status` column, and `is_terminal`.
use durust.Base.{String, Bool, true, false, ◌||◌, ◌==◌, ◌≡◌, refl, ◌⊎◌, inl, inr, string_eq, arith}
use text.Mathlib.TextEquality.{eq_iff}

abbrev pub status_enqueued : String
status_enqueued = "ENQUEUED"

abbrev pub status_delayed : String
status_delayed = "DELAYED"

abbrev pub status_pending : String
status_pending = "PENDING"

abbrev pub status_success : String
status_success = "SUCCESS"

abbrev pub status_error : String
status_error = "ERROR"

abbrev pub status_cancelled : String
status_cancelled = "CANCELLED"

abbrev pub status_max_recovery_attempts_exceeded : String
status_max_recovery_attempts_exceeded = "MAX_RECOVERY_ATTEMPTS_EXCEEDED"

unfoldable pub is_terminal : String → Bool
is_terminal status =
    status == status_success
    || status == status_error
    || status == status_cancelled
    || status == status_max_recovery_attempts_exceeded

pub is_terminal-cases :
    (s : String)
    → is_terminal s ≡ true
    → ((s ≡ status_success) ⊎ (s ≡ status_error))
      ⊎ ((s ≡ status_cancelled) ⊎ (s ≡ status_max_recovery_attempts_exceeded))
unfolding is_terminal
is_terminal-cases s h = ground (
  arith,
  eq_iff s "SUCCESS",
  eq_iff s "ERROR",
  eq_iff s "CANCELLED",
  eq_iff s "MAX_RECOVERY_ATTEMPTS_EXCEEDED",
)

-- A terminal state is none of the three active ones.
pub is_terminal-inactive :
    (s : String)
    → is_terminal s ≡ true
    → ((s == status_pending) ≡ false)
      × ((s == status_enqueued) ≡ false)
      × ((s == status_delayed) ≡ false)
is_terminal-inactive s h = elim (is_terminal-cases s h) [
  | inl (inl e) ↦ rw e (refl, refl, refl)
  | inl (inr e) ↦ rw e (refl, refl, refl)
  | inr (inl e) ↦ rw e (refl, refl, refl)
  | inr (inr e) ↦ rw e (refl, refl, refl)
]
