-- ===== src/Error.antt =====
-- src/error.rs: the error type and its codes; and PortableWorkflowError of src/serialize.rs.
use durust.Base.{ℤ, String, Option, none}
use durust.Platform.{Platform}

pub data ErrorCode : Type 0 where
  database initialization serialization workflow_not_registered queue_not_registered : ErrorCode
  non_existent_workflow queue_deduplicated workflow_cancelled : ErrorCode
  max_recovery_attempts_exceeded conflicting_registration timeout unexpected_step : ErrorCode
  application : ErrorCode

pub record PortableWorkflowError (p : Platform) : Type 0 where
  pub name : String
  pub message : String
  pub code : Option p.Value
  pub info : Option p.Value

pub data Error (p : Platform) : Type 0 where
  db : p.DbError → Error p
  migrate : p.MigrateError → Error p
  serde : p.SerdeError → Error p
  serialization_format : String → Error p
  unknown_workflow : String → Error p
  unknown_queue : String → Error p
  nonexistent_workflow : String → Error p
  -- queue_name, dedup_id
  deduplicated : String → String → Error p
  cancelled : String → Error p
  max_recovery_attempts : String → Error p
  conflicting : String → Error p
  timed_out : Error p
  -- workflow_id, step_id, expected, recorded
  unexpected : String → ℤ → String → String → Error p
  -- message, source
  app_error : String → Option p.ErrorSource → Error p
  portable : PortableWorkflowError p → Error p

-- A result that may also be a panic, which `catch_unwind` turns into a value.
pub data Result {ℓ} (p : Platform) (A : Type ℓ) : Type ℓ where
  ok : A → Result p A
  err : Error p → Result p A
  panicked : Result p A

module _ {p : Platform} where
  infixl 5 ◌>>=◌
  abbrev pub ◌>>=◌ {ℓ κ} : {A : Type ℓ} {B : Type κ} → Result p A → (A → Result p B) → Result p B
  ok a >>= f = f a
  err e >>= f = err e
  panicked >>= f = panicked

  -- `Error::app`
  abbrev pub app : String → Error p
  app message = app_error message none

  -- `Error::code`
  unfoldable pub code : Error p → ErrorCode
  code (db e) = database
  code (migrate e) = initialization
  code (serde e) = serialization
  code (serialization_format s) = serialization
  code (unknown_workflow s) = workflow_not_registered
  code (unknown_queue s) = queue_not_registered
  code (nonexistent_workflow s) = non_existent_workflow
  code (deduplicated q d) = queue_deduplicated
  code (cancelled s) = workflow_cancelled
  code (max_recovery_attempts s) = max_recovery_attempts_exceeded
  code (conflicting s) = conflicting_registration
  code timed_out = timeout
  code (unexpected w s x r) = unexpected_step
  code (app_error m s) = application
  code (portable e) = application
