-- ===== src/Transfer/Import.antt =====
-- The import of transfer.rs. Each row is a change of its own: what was written before an error
-- stays. The JSON reader is a parameter (`serde_json::from_str`).
use hop_rs.Prelude.{
  List, Outcome, Text, [], err, find, map, none, ok, some, text, ℕ, ◌&&◌, ◌++◌, ◌+◌, ◌==◌, ◌>>=◌,
  ◌∷◌,
}
use hop_rs.Errors.{Error, Result}
use hop_rs.Models.{AuthType, Credential, NewCredential, TagsJson, auth_type_try_from}
use hop_rs.Catalog.{Database}
use hop_rs.Runtime.Assets.{add_asset, update_asset, get_asset_by_name}
use hop_rs.Runtime.Credentials.{update_credential, credential_row}
use hop_rs.Transfer.Rows.{
  TransferFormat, csv, json, AssetTransferRow, CredentialTransferRow, imported_asset,
  read_asset_csv, read_credential_csv,
}

pub data ConflictPolicy : Type 0 where
  skip overwrite report : ConflictPolicy

pub record ImportSummary : Type 0 where
  pub imported : ℕ
  pub skipped : ℕ
  pub overwritten : ℕ
  pub errors : List Text

unfoldable pub empty_summary : ImportSummary
empty_summary = record { imported = 0; skipped = 0; overwritten = 0; errors = [] }

unfoldable pub record_imported : ImportSummary → ImportSummary
record_imported s = record s { imported = s.imported + 1 }

unfoldable pub record_skipped : ImportSummary → ImportSummary
record_skipped s = record s { skipped = s.skipped + 1 }

unfoldable pub record_overwritten : ImportSummary → ImportSummary
record_overwritten s = record s { overwritten = s.overwritten + 1 }

unfoldable pub record_error : ImportSummary → Text → ImportSummary
record_error s error = record s { errors = s.errors ++ (error ∷ []) }

-- An error of the store, or a message.
pub data ImportError : Type 0 where
  store_error : Error → ImportError
  message : Text → ImportError

unfoldable pub of_store {ℓ} : {A : Type ℓ} → Result A → Outcome ImportError A
of_store (ok a) = ok a
of_store (err e) = err (store_error e)

unfoldable pub of_message {ℓ} : {A : Type ℓ} → Outcome Text A → Outcome ImportError A
of_message (ok a) = ok a
of_message (err e) = err (message e)

-- `serde_json::from_str` for the JSON format.
unfoldable pub import_asset_rows :
    (Text → Outcome Text (List AssetTransferRow))
    → Text
    → TransferFormat
    → Outcome Text (List AssetTransferRow)
unfolding read_asset_csv
import_asset_rows from_json input json = from_json input
import_asset_rows from_json input csv = read_asset_csv input

unfoldable pub import_credential_rows :
    (Text → Outcome Text (List CredentialTransferRow))
    → Text
    → TransferFormat
    → Outcome Text (List CredentialTransferRow)
unfolding read_credential_csv
import_credential_rows from_json input json = from_json input
import_credential_rows from_json input csv = read_credential_csv input

-- The loop over the rows: the first error ends it, and the catalog is as the rows before left it.
unfoldable pub import_loop {ℓ} :
    {A : Type ℓ}
    → (ℕ → A → ImportSummary → Database → Outcome ImportError (ImportSummary × Database))
    → ℕ
    → List A
    → ImportSummary
    → Database
    → Outcome ImportError ImportSummary × Database
import_loop step n [] s db = (ok s, db)
import_loop step n (row ∷ rows) s db = elim (step n row s db) [
  | err e ↦ (err e, db)
  | ok (next, after) ↦ import_loop step (n + 1) rows next after
]

-- The ids that `new_id` draws, by the number of the row, the time, and the policy.
module _ (codec : TagsJson) (fresh : ℕ → Text) (now : Text) (policy : ConflictPolicy) where
  unfoldable pub import_existing :
      Text
      → AssetTransferRow
      → ImportSummary
      → Database
      → Outcome ImportError (ImportSummary × Database)
  unfolding record_skipped record_overwritten record_error update_asset imported_asset of_store
  import_existing id row s db = elim policy [
    | skip ↦ ok (record_skipped s, db)
    | report ↦ ok (record_error s (text "asset already exists: " ++ row.name), db)
    | overwrite ↦ of_store (update_asset codec id now (imported_asset row) db) >>= λ after.
        ok (record_overwritten s, after)
  ]

  unfoldable pub import_asset :
      ℕ
      → AssetTransferRow
      → ImportSummary
      → Database
      → Outcome ImportError (ImportSummary × Database)
  unfolding get_asset_by_name import_existing add_asset imported_asset record_imported of_store
  import_asset n row s db = of_store (get_asset_by_name codec row.name db) >>= λ found. elim found [
    | some existing ↦ import_existing existing.id row s db
    | none ↦ of_store (add_asset codec (fresh n) now (imported_asset row) db) >>= λ after.
        ok (record_imported s, after)
  ]

  unfoldable pub import_assets :
      (Text → Outcome Text (List AssetTransferRow))
      → Text
      → TransferFormat
      → Database
      → Outcome ImportError ImportSummary × Database
  unfolding import_asset_rows import_loop import_asset empty_summary
  import_assets from_json input format db = elim (import_asset_rows from_json input format) [
    | err e ↦ (err (message e), db)
    | ok rows ↦ import_loop import_asset 0 rows empty_summary db
  ]

  -- The credential as it is, with the name, the username and the type of the row.
  unfoldable pub renewed_credential : Credential → CredentialTransferRow → AuthType → NewCredential
  renewed_credential c row auth_type = record {
    id = some c.id;
    name = row.name;
    username = row.username;
    auth_type = auth_type;
    password_enc = c.password_enc;
    private_key_enc = c.private_key_enc;
    passphrase_enc = c.passphrase_enc;
  }

  unfoldable pub import_found :
      Credential
      → CredentialTransferRow
      → ImportSummary
      → Database
      → Outcome ImportError (ImportSummary × Database)
  unfolding record_skipped record_overwritten record_error update_credential auth_type_try_from
      renewed_credential of_store of_message
  import_found c row s db = elim policy [
    | skip ↦ ok (record_skipped s, db)
    | report ↦ ok (record_error s (text "credential already exists: " ++ row.name), db)
    | overwrite ↦ of_message (auth_type_try_from row.auth_type) >>= λ auth_type.
        of_store (update_credential c.id now (renewed_credential c row auth_type) db) >>= λ after.
        ok (record_overwritten s, after)
  ]

  -- `existing` is the list from before the first row.
  unfoldable pub import_credential :
      List Credential
      → CredentialTransferRow
      → ImportSummary
      → Database
      → Outcome ImportError (ImportSummary × Database)
  unfolding import_found record_error
  import_credential existing row s db =
      elim (find (λ c. c.name == row.name && c.username == row.username) existing) [
        | some c ↦ import_found c row s db
        | none ↦ ok (
          record_error s (
              text "credential metadata import cannot create credential without secrets: "
              ++ row.name),
          db,
        )
      ]

  -- The names of credentials are unique, so that the order of `list_credentials` does not matter to
  -- the search.
  unfoldable pub import_credentials :
      (Text → Outcome Text (List CredentialTransferRow))
      → Text
      → TransferFormat
      → Database
      → Outcome ImportError ImportSummary × Database
  unfolding import_credential_rows import_loop import_credential empty_summary credential_row
  import_credentials from_json input format db =
      elim (import_credential_rows from_json input format) [
        | err e ↦ (err (message e), db)
        | ok rows ↦
            import_loop (λ n. import_credential (map credential_row db.credentials)) 0 rows
              empty_summary db
      ]
