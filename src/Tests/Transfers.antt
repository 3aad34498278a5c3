-- ===== src/Tests/Transfers.antt =====
-- An import and a credential file at concrete inputs.
use hop_rs.Prelude.{
  List, Outcome, Text, [], length, none, ok, refl, text, to_ascii_lowercase, ◌==◌, ◌∷◌, ◌≡◌,
}
use hop_rs.Prelude.Int.{pos}
use hop_rs.Catalog.{Database}
use hop_rs.Tests.{no_tags, sample}
use hop_rs.Transfer.Rows.{
  json, AssetTransferRow, CredentialTransferRow, read_credential_csv, write_credential_csv,
}
use hop_rs.Transfer.Import.{skip, ImportSummary, ImportError, import_assets}
use hop_rs.Transfer.Laws.{accounted, import_assets-accounted, read-write_credential_csv}

abbrev known : AssetTransferRow
known = record {
  name = text "web";
  hostname = text "10.0.0.6";
  port = pos 22;
  description = none;
  tags = [];
  credential_id = none;
  protocol = text "ssh";
}

abbrev two_rows : List AssetTransferRow
two_rows = known ∷ record known { name = text "db" } ∷ []

abbrev from_json : Text → Outcome Text (List AssetTransferRow)
from_json input = ok two_rows

abbrev outcome : Outcome ImportError ImportSummary × Database
outcome = import_assets no_tags (λ n. text "a3") (text "now") skip from_json (text "") json sample

abbrev one_of_each : ImportSummary
one_of_each = record { imported = 1; skipped = 1; overwritten = 0; errors = [] }

import_assets-accounted_example : accounted one_of_each ≡ length two_rows
unfolding import_assets text ◌==◌ hop_rs.Manifest.asset_type_as_str
    hop_rs.Prelude.to_ascii_lowercase hop_rs.Catalog.same_type
import_assets-accounted_example =
    import_assets-accounted no_tags (λ n. text "a3") (text "now") skip from_json (text "") json
      two_rows one_of_each sample outcome.1 refl refl

abbrev two_logins : List CredentialTransferRow
two_logins =
    record { name = text "root, main"; username = text "say \"hi\""; auth_type = text "key" }
    ∷ record { name = text "line\nbreak"; username = text ""; auth_type = text "password" }
    ∷ []

read-write_credential_csv_example :
    read_credential_csv (write_credential_csv two_logins) ≡ ok two_logins
unfolding text hop_rs.Transfer.Rows.is_blank_row hop_rs.Transfer.Rows.credential_fields
read-write_credential_csv_example = read-write_credential_csv two_logins (refl, (refl, tt))
