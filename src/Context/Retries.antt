-- ===== src/Context/Retries.antt =====
-- src/context.rs, `run_with_retries`: the runs of a retried step.
use Prim.Native.Nat.{◌≤◌}
use durust.Base.{
  ℕ, zero, suc, ◌<◌, String, Bool, true, false, Option, ◌≡◌, ◌⊎◌, refl, ap, ◌∙◌, arith, inl, inr,
  Bool-cases, is_none_or,
}
use durust.Platform.{Platform}
use durust.Error.{Error, Result, ok, err, panicked}
use durust.Memory.{Inner}
use durust.Context.{Body, StepEnv, run_step_catching, run_with_retries}

module _ {p : Platform} where
  -- The tables after `k` runs of the closure.
  unfoldable pub rerun : StepEnv p → String → ℕ → Body p → Inner p → Inner p
  rerun rt name zero f g = g
  rerun rt name (suc k) f g = rerun rt name k f (run_step_catching rt name f g).1

  abbrev pub retryable : Option (Error p → Bool) → Error p → Bool
  retryable retry_if e = is_none_or retry_if (λ accepts. accepts e)

  -- A run that is retried: it failed, with an error that the predicate accepts.
  abbrev pub IsRetried : Option (Error p → Bool) → Result p p.Value → Type 0
  IsRetried retry_if r = (e : Error p) × (r ≡ err e) × (retryable retry_if e ≡ true)

  caught :
      (rt : StepEnv p) (name : String) (f : Body p) (g : Inner p)
      → ((v : p.Value) × ((run_step_catching rt name f g).0 ≡ ok v))
        ⊎ ((e : Error p) × ((run_step_catching rt name f g).0 ≡ err e))
  unfolding run_step_catching
  caught rt name f g = go (f g).0
    where
      go :
          (r : Result p p.Value)
          → ((v : p.Value) × ((elim r as (λ x. Result p p.Value) [
            | ok v ↦ ok v
            | err e ↦ err e
            | panicked ↦ err (rt.panic_error name)
          ])
                ≡ ok v))
            ⊎ ((e : Error p) × ((elim r as (λ x. Result p p.Value) [
              | ok v ↦ ok v
              | err e ↦ err e
              | panicked ↦ err (rt.panic_error name)
            ])
                  ≡ err e))
      go (ok v) = inl (v, refl)
      go (err e) = inr (e, refl)
      go panicked = inr (rt.panic_error name, refl)

  on_ok :
      (rt : StepEnv p) (name : String) (left : ℕ) (retry_if : Option (Error p → Bool)) (f : Body p)
      (v : p.Value) (g : Inner p)
      → (run_step_catching rt name f g).0 ≡ ok v
      → run_with_retries rt name (suc left) retry_if f g ≡ run_step_catching rt name f g
  unfolding run_with_retries
  on_ok rt name left retry_if f v g h = rw (h, run_with_retries)

  on_final :
      (rt : StepEnv p) (name : String) (left : ℕ) (retry_if : Option (Error p → Bool)) (f : Body p)
      (e : Error p) (g : Inner p)
      → (run_step_catching rt name f g).0 ≡ err e
      → retryable retry_if e ≡ false
      → run_with_retries rt name (suc left) retry_if f g ≡ run_step_catching rt name f g
  unfolding run_with_retries
  on_final rt name left retry_if f e g h final = rw (h, run_with_retries, final)

  on_retry :
      (rt : StepEnv p) (name : String) (left : ℕ) (retry_if : Option (Error p → Bool)) (f : Body p)
      (e : Error p) (g : Inner p)
      → (run_step_catching rt name f g).0 ≡ err e
      → retryable retry_if e ≡ true
      → run_with_retries rt name (suc left) retry_if f g
        ≡ run_with_retries rt name left retry_if f (run_step_catching rt name f g).1
  unfolding run_with_retries
  on_retry rt name left retry_if f e g h again_ok = rw (h, run_with_retries, again_ok)

  no_retry :
      (rt : StepEnv p) (name : String) (retry_if : Option (Error p → Bool)) (f : Body p)
      (g : Inner p)
      → run_with_retries rt name zero retry_if f g ≡ run_step_catching rt name f g
  unfolding run_with_retries
  no_retry rt name retry_if f g = refl

  ok_retried : (v : p.Value) (r : Result p p.Value) → r ≡ ok v → (e : Error p) → r ≡ err e → ⊥
  ok_retried v r h e k = ground (arith, h, k)

  err_value : (e e' : Error p) (r : Result p p.Value) → r ≡ err e → r ≡ err e' → e ≡ e'
  err_value e e' r h k = ground (arith, h, k)

  err_retried :
      (retry_if : Option (Error p → Bool)) (e : Error p) (r : Result p p.Value)
      → r ≡ err e
      → retryable retry_if e ≡ false
      → (e' : Error p) → r ≡ err e'
      → retryable retry_if e' ≡ true
      → ⊥
  err_retried retry_if e r h final e' k again_ok =
      let same : e ≡ e' = err_value e e' r h k in
      ground (arith, ap (retryable retry_if) same, final, again_ok)

  earlier :
      (rt : StepEnv p) (name : String) (retry_if : Option (Error p → Bool)) (f : Body p)
      (g : Inner p) (k : ℕ)
      → IsRetried retry_if (run_step_catching rt name f g).0
      → ((j : ℕ)
          → j < k
          → IsRetried retry_if
              (run_step_catching rt name f (rerun rt name j f (run_step_catching rt name f g).1)).0)
      → (j : ℕ) → j < suc k
      → IsRetried retry_if (run_step_catching rt name f (rerun rt name j f g)).0
  unfolding rerun
  earlier rt name retry_if f g k first before zero h = first
  earlier rt name retry_if f g k first before (suc j) h = before j (ground arith)

  -- A retried step takes the result of its run number `k`, counted from 0, which is at most the
  -- number of retries allowed. Each run before that one failed with an error that may be retried;
  -- and that one is the last allowed, or it succeeded, or its error may not be retried.
  pub run_with_retries-stops :
      (rt : StepEnv p) (name : String) (left : ℕ) (retry_if : Option (Error p → Bool)) (f : Body p)
      (g : Inner p)
      → (k : ℕ) × (k ≤ left)
        × (run_with_retries rt name left retry_if f g
            ≡ run_step_catching rt name f (rerun rt name k f g))
        × ((j : ℕ)
            → j < k
            → IsRetried retry_if (run_step_catching rt name f (rerun rt name j f g)).0)
        × ((k ≡ left)
            ⊎ (IsRetried retry_if (run_step_catching rt name f (rerun rt name k f g)).0 → ⊥))
  unfolding rerun
  run_with_retries-stops rt name zero retry_if f g =
      (0, ground arith, no_retry rt name retry_if f g, λ j h. absurd (ground arith), inl refl)
  run_with_retries-stops rt name (suc left) retry_if f g = elim (caught rt name f g) [
    | inl (v, h) ↦ (
      0,
      ground arith,
      on_ok rt name left retry_if f v g h,
      λ j q. absurd (ground arith),
      inr (λ again. ok_retried v (run_step_catching rt name f g).0 h again.0 again.1),
    )
    | inr (e, h) ↦ elim (Bool-cases (retryable retry_if e)) [
      | inr final ↦ (
        0,
        ground arith,
        on_final rt name left retry_if f e g h final,
        λ j q. absurd (ground arith),
        inr (λ again.
            err_retried retry_if e (run_step_catching rt name f g).0 h final again.0 again.1
              again.2),
      )
      | inl again_ok ↦
          let (k, most, result, before, stop) =
            run_with_retries-stops rt name left retry_if f (run_step_catching rt name f g).1 in
          (
            suc k,
            ground arith,
            on_retry rt name left retry_if f e g h again_ok ∙ result,
            earlier rt name retry_if f g k (e, h, again_ok) before,
            elim stop [ inl last ↦ inl (ground arith) | inr not_again ↦ inr not_again ],
          )
    ]
  ]
