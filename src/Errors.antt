-- ===== src/Errors.antt =====
-- `HopCoreError` of crates/hop-core/src/errors.rs.
use hop_rs.Prelude.{Option, Outcome, Text, err, none, ok, some}

-- What sqlx reports, as far as the code tells it apart: a row that is not there, or a constraint
-- of the schema that a statement breaks.
pub data DatabaseError : Type 0 where
  row_not_found constraint_failed : DatabaseError

pub data Error : Type 0 where
  io : Text → Error
  config : Text → Error
  validation : Text → Error
  database : DatabaseError → Error
  unsupported_database_schema : Text → Error
  crypto : Text → Error
  json : Error

abbrev pub Result {ℓ} : Type ℓ → Type ℓ
Result A = Outcome Error A

-- `anyhow::Error`, as far as the binaries tell it apart: an error of the core, or a message.
pub data AnyError : Type 0 where
  core_error : Error → AnyError
  message_error : Text → AnyError

-- `?` on a result of the core.
unfoldable pub any_core {ℓ} : {A : Type ℓ} → Result A → Outcome AnyError A
any_core (ok a) = ok a
any_core (err e) = err (core_error e)

-- `.context(…)` or `bail!` where the cause is a missing value.
unfoldable pub context {ℓ} : {A : Type ℓ} → Option A → Text → Outcome AnyError A
context none m = err (message_error m)
context (some a) m = ok a
