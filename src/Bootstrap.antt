-- ===== src/Bootstrap.antt =====
-- How a catalog is opened, crates/hop-core/src/catalog.rs. The disk holds a file at the path or
-- none; the reads and writes of the file itself do not fail here.
pub mod Status
pub mod Laws
pub mod Noted
use hop_rs.Prelude.{
  Bool, Option, Text, [], err, false, if◌then◌else◌, none, not, ok, some, text, true, ◌++◌, ◌==◌,
  ◌>>=◌,
}
use hop_rs.Errors.{config, unsupported_database_schema, Result}
use hop_rs.Catalog.{Database}

-- SCHEMA_VERSION
unfoldable pub schema_version : Text
schema_version = text "hop/v0.2"

-- A file: whether its length is 0, whether it has a table of its own, whether one of them is
-- `hop_schema`, the version in the row of that table, the rows of the other tables, and whether its
-- journal mode is WAL.
pub record DatabaseFile : Type 0 where
  pub is_blank : Bool
  pub has_tables : Bool
  pub has_marker : Bool
  pub version : Option Text
  pub catalog : Database
  pub journal_wal : Bool

pub data DatabaseState : Type 0 where
  empty v0_2 : DatabaseState

unfoldable pub unsupported_database_error {ℓ} : {A : Type ℓ} → Text → Result A
unsupported_database_error path = err (unsupported_database_schema path)

unfoldable pub is_current : Option Text → Bool
unfolding schema_version
is_current none = false
is_current (some version) = version == schema_version

unfoldable pub preflight : Text → Option DatabaseFile → Result DatabaseState
unfolding is_current unsupported_database_error
preflight path none = ok empty
preflight path (some file) =
    if file.is_blank
    then ok empty
    else if not file.has_tables
    then ok empty
    else if not file.has_marker
    then unsupported_database_error path
    else if is_current file.version
    then ok v0_2
    else unsupported_database_error path

abbrev no_rows : Database
no_rows = record {
  revision = 0;
  credentials = [];
  assets = [];
  access_keys = [];
  access_key_assets = [];
  resource_ownership = [];
  known_hosts = [];
  config_sources = [];
  sessions = [];
  audit_events = [];
}

-- What BASELINE_SQL, schema_v0_2.sql, leaves in a database without tables. Its version is the
-- literal of that file.
unfoldable pub baseline : DatabaseFile
baseline = record {
  is_blank = false;
  has_tables = true;
  has_marker = true;
  version = some (text "hop/v0.2");
  catalog = no_rows;
  journal_wal = false;
}

unfoldable pub verify_schema : Text → DatabaseFile → Result (Unit {0})
unfolding is_current unsupported_database_error
verify_schema path file = if is_current file.version then ok tt else unsupported_database_error path

-- `create_if_missing(true)` and `journal_mode(Wal)`: the connection makes a blank file where there
-- is none, and changes the journal mode.
unfoldable pub opened_wal : Option DatabaseFile → DatabaseFile
opened_wal none = record {
  is_blank = true;
  has_tables = false;
  has_marker = false;
  version = none;
  catalog = no_rows;
  journal_wal = true;
}
opened_wal (some file) = record file { journal_wal = true }

-- `initialize`, for a file that the preflight found empty.
unfoldable pub initialized : DatabaseState → DatabaseFile → DatabaseFile
unfolding baseline
initialized empty file = record baseline { journal_wal = file.journal_wal }
initialized v0_2 file = file

-- `Catalog::connect`: the catalog or the error, and the file that is there afterwards in both cases.
unfoldable pub connect : Text → Option DatabaseFile → Result Database × Option DatabaseFile
unfolding preflight opened_wal initialized verify_schema
connect path file = elim (preflight path file) [
  | err e ↦ (err e, file)
  | ok state ↦
      let opened = initialized state (opened_wal file) in
      ((verify_schema path opened >>= λ verified. ok opened.catalog), some opened)
]

unfoldable pub in_memory : Database
unfolding baseline
in_memory = baseline.catalog

-- The catalog as it is read without a right to write.
unfoldable pub read_existing : Text → DatabaseState → Option DatabaseFile → Result Database
unfolding verify_schema
read_existing path v0_2 (some file) = do _ ← verify_schema path file; ok file.catalog
read_existing path _ _ = err (config (text "v0.2 catalog does not exist at " ++ path))

unfoldable pub connect_read_only : Text → Option DatabaseFile → Result Database
unfolding preflight read_existing
connect_read_only path file = do state ← preflight path file; read_existing path state file
