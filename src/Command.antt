-- ===== src/Command.antt =====
-- The commands of crates/hop-server/src/main.rs and manifest_io.rs, once their arguments are read.
-- The disk that they share is the catalog's file and the file of the master key.
pub mod Scope
pub mod Start
pub mod Applies
pub mod Bulk
pub mod Laws
use hop_rs.Prelude.{Bool, List, Option, Outcome, Text, ℕ}
use hop_rs.Errors.{AnyError}
use hop_rs.Manifest.{CatalogResult, Manifest}
use hop_rs.Bootstrap.{DatabaseFile}
use hop_rs.Envelope.{Bytes, SecretFile}
use hop_rs.Apply.Run.{Call}
use hop_rs.Startup.Validate.{Parsers}

pub record Disk : Type 0 where
  pub database : Option DatabaseFile
  pub secret : Option SecretFile

-- `glob`, the order of paths, and the extension of a path.
pub record Paths : Type 0 where
  pub glob : Text → Option (List (Option Text))
  pub path_before : Text → Text → Bool
  pub extension : Text → Option Text

-- What a command runs with: the libraries and the files, the key that it draws where it has to
-- create one, the time before which a finished session is old, and the id of the event of a failed
-- apply.
pub record Machine : Type 0 where
  pub parsers : Parsers
  pub paths : Paths
  pub call : Call
  pub fresh_key : Bytes
  pub cutoff : ℕ → Text
  pub failure_id : Text
  pub from_yaml : Text → CatalogResult Manifest
  pub from_toml : Text → CatalogResult Manifest

abbrev pub CommandResult {ℓ} : Type ℓ → Type ℓ
CommandResult A = Outcome AnyError A
