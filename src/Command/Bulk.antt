-- ===== src/Command/Bulk.antt =====
-- The `export` and `import` commands of main.rs, and the secrets on its standard input.
use hop_rs.Prelude.{
  Bool, List, Option, Outcome, Text, [], decimal, ensure, err, false, if◌then◌else◌, is_empty,
  length, ltb, nat_eq, none, ok, some, text, true, ℕ, ◌&&◌, ◌++◌, ◌>>=◌, ◌||◌, ◌∷◌,
}
use hop_rs.Errors.{core_error, message_error, any_core, context}
use hop_rs.Models.{TagsJson}
use hop_rs.Catalog.{Database}
use hop_rs.Runtime.Listings.{list_assets, list_credentials}
use hop_rs.Transfer.Rows.{
  TransferFormat, AssetTransferRow, CredentialTransferRow, format_of_extension, export_assets,
  export_credentials,
}
use hop_rs.Transfer.Import.{
  ConflictPolicy, ImportSummary, ImportError, store_error, message, import_assets,
  import_credentials,
}
use hop_rs.Command.{Machine, CommandResult}

-- `\r` and `\n`
unfoldable pub is_line_end : ℕ → Bool
is_line_end c = nat_eq c b'\r' || nat_eq c b'\n'

-- `trim_end_matches`: a character goes where it matches and nothing is left after it.
unfoldable pub normalize_stdin_secret : Text → Text
unfolding is_line_end is_empty
normalize_stdin_secret [] = []
normalize_stdin_secret (c ∷ s) =
    let rest = normalize_stdin_secret s in if is_empty rest && is_line_end c then [] else c ∷ rest

-- `input` is what standard input holds, where it can be read.
unfoldable pub read_stdin_secret_arg : Option Text → Bool → Option Text → Outcome Text (Option Text)
unfolding normalize_stdin_secret
read_stdin_secret_arg value false input = ok value
read_stdin_secret_arg value true none = err (text "read --password-stdin")
read_stdin_secret_arg value true (some raw) = ok (some (normalize_stdin_secret raw))

-- `TransferKind`
pub data TransferKind : Type 0 where
  assets credentials : TransferKind

unfoldable pub export_kind_name : TransferKind → Text
export_kind_name assets = text "assets"
export_kind_name credentials = text "credentials"

-- serde_json on the rows, and whether a file can be written.
pub record RowsJson : Type 0 where
  pub print_assets : List AssetTransferRow → Outcome Text Text
  pub print_credentials : List CredentialTransferRow → Outcome Text Text
  pub parse_assets : Text → Outcome Text (List AssetTransferRow)
  pub parse_credentials : Text → Outcome Text (List CredentialTransferRow)
  pub can_write : Text → Bool

unfoldable pub any_message {ℓ} : {A : Type ℓ} → Outcome Text A → CommandResult A
any_message (ok a) = ok a
any_message (err e) = err (message_error e)

-- An error of the store as such, and the message of a row.
unfoldable pub any_import {ℓ} : {A : Type ℓ} → Outcome ImportError A → CommandResult A
any_import (ok a) = ok a
any_import (err (store_error e)) = err (core_error e)
any_import (err (message e)) = err (message_error e)

-- What is printed, and the file that is written, at its path.
pub record Exported : Type 0 where
  pub printed : Text
  pub written : Option (Text × Text)

module _ (codec : TagsJson) (rows : RowsJson) where
  unfoldable pub export_payload : TransferKind → TransferFormat → Database → CommandResult Text
  unfolding any_message any_core list_assets list_credentials export_assets export_credentials
  export_payload assets format db = do
    found ← any_core (list_assets codec db)
    any_message (export_assets rows.print_assets found format)
  export_payload credentials format db =
      any_message (export_credentials rows.print_credentials (list_credentials db) format)

  unfoldable pub export_data :
      TransferKind → TransferFormat → Option Text → Database → CommandResult Exported
  unfolding export_payload export_kind_name
  export_data kind format output db = do
    payload ← export_payload kind format db
    elim output [
      | none ↦ ok (record { printed = payload; written = none })
      | some path ↦
          (ensure (rows.can_write path) (message_error (text "write " ++ path)) >>= λ done.
          ok (record {
            printed =
                text "exported " ++ (export_kind_name kind ++ (text " to " ++ (path ++ text "\n")));
            written = some (path, payload);
          }))
    ]

-- `fresh`, `now` and `policy` are those of the import; a row that was refused makes the command
-- fail after the import is done.
module _ (m : Machine) (codec : TagsJson) (rows : RowsJson) (fresh : ℕ → Text)
    (policy : ConflictPolicy) where
  unfoldable pub import_payload :
      TransferKind → TransferFormat → Text → Database → Outcome ImportError ImportSummary × Database
  unfolding import_assets import_credentials
  import_payload assets format payload db =
      import_assets codec fresh m.call.now policy rows.parse_assets payload format db
  import_payload credentials format payload db =
      import_credentials codec fresh m.call.now policy rows.parse_credentials payload format db

  unfoldable pub check_summary : ImportSummary → CommandResult ImportSummary
  unfolding decimal
  check_summary s =
      if ltb 0 (length s.errors)
      then err (
          message_error
            (text "import completed with " ++ (decimal (length s.errors) ++ text " error(s)")))
      else ok s

  unfoldable pub import_input : Text → Option TransferFormat → CommandResult (TransferFormat × Text)
  unfolding context format_of_extension
  import_input file format = do
    chosen ←
        context
          (elim format [ some f ↦ some f | none ↦ format_of_extension (m.paths.extension file) ])
          (text "cannot infer import format from file extension; pass --format")
    payload ← context (m.call.world.read_to_string file) (text "read " ++ file)
    ok (chosen, payload)

  unfoldable pub import_data :
      TransferKind
      → Text
      → Option TransferFormat
      → Database
      → CommandResult ImportSummary × Database
  unfolding import_input import_payload any_import check_summary
  import_data kind file format db = elim (import_input file format) [
    | err e ↦ (err e, db)
    | ok (chosen, payload) ↦
        let (result, after) = import_payload kind chosen payload db in
        (any_import result >>= check_summary, after)
  ]
