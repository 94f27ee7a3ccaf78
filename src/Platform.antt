-- ===== src/Platform.antt =====
-- What the program takes from other packages: JSON values (serde_json), wall-clock instants
-- (chrono), and the errors of sqlx and serde_json. They are a parameter of the model. The clock is
-- read by the caller: an operation that calls `Utc::now()` takes the instant as an argument.
use durust.Base.{ℤ, Bool, Option}

pub record Platform : Type 1 where
  -- serde_json::Value, with Value::Null
  pub Value : Type 0
  pub null : Value
  -- chrono::DateTime<Utc>, its order, and its conversions
  pub DateTime : Type 0
  pub leb_time : DateTime → DateTime → Bool
  pub timestamp_millis : DateTime → ℤ
  pub from_timestamp_millis : ℤ → Option DateTime
  -- sqlx::Error, sqlx::migrate::MigrateError, serde_json::Error, dyn std::error::Error
  pub DbError : Type 0
  pub MigrateError : Type 0
  pub SerdeError : Type 0
  pub ErrorSource : Type 0
