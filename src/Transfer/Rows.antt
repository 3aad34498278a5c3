-- ===== src/Transfer/Rows.antt =====
-- The rows of transfer.rs, written and read as CSV. An error of this file is a message.
use hop_rs.Prelude.{
  Bool, List, Option, Outcome, Text, [], decimal, ensure, err, every, false, if◌then◌else◌,
  is_empty, keep, length, map, nat_eq, none, not, ok, ok_or, some, text, to_ascii_lowercase, trim,
  true, unwrap_or, ℕ, ◌&&◌, ◌++◌, ◌+◌, ◌==◌, ◌>>=◌, ◌>>◌, ◌||◌, ◌∷◌,
}
use hop_rs.Prelude.Int.{ℤ, pos, int_decimal, parse_i64}
use hop_rs.Models.{Asset, NewAsset, Credential}
use hop_rs.Transfer.Csv.{push_csv_rows, read_csv_records}

pub data TransferFormat : Type 0 where
  csv json : TransferFormat

-- `TransferFormat::from_path`, on the extension of the path.
unfoldable pub format_of_extension : Option Text → Option TransferFormat
unfolding to_ascii_lowercase
format_of_extension none = none
format_of_extension (some extension) =
    let lower = map to_ascii_lowercase extension in
    if lower == text "csv" then some csv else if lower == text "json" then some json else none

pub record AssetTransferRow : Type 0 where
  pub name : Text
  pub hostname : Text
  pub port : ℤ
  pub description : Option Text
  pub tags : List Text
  pub credential_id : Option Text
  pub protocol : Text

unfoldable pub asset_transfer_row : Asset → AssetTransferRow
asset_transfer_row a = record {
  name = a.name;
  hostname = a.hostname;
  port = pos a.port;
  description = a.description;
  tags = a.tags;
  credential_id = a.credential_id;
  protocol = a.protocol;
}

unfoldable pub imported_asset : AssetTransferRow → NewAsset
imported_asset r = record {
  name = r.name;
  protocol = r.protocol;
  hostname = r.hostname;
  port = r.port;
  description = r.description;
  tags = r.tags;
  credential_id = r.credential_id;
}

pub record CredentialTransferRow : Type 0 where
  pub name : Text
  pub username : Text
  pub auth_type : Text

unfoldable pub credential_transfer_row : Credential → CredentialTransferRow
credential_transfer_row c = record { name = c.name; username = c.username; auth_type = c.auth_type }

unfoldable pub asset_header : List Text
asset_header =
    text "name"
    ∷ text "hostname"
    ∷ text "port"
    ∷ text "description"
    ∷ text "tags"
    ∷ text "credential_id"
    ∷ text "protocol"
    ∷ []

unfoldable pub credential_header : List Text
credential_header = text "name" ∷ text "username" ∷ text "auth_type" ∷ []

-- `tags.join("|")`
unfoldable pub join_tags : List Text → Text
join_tags [] = []
join_tags (tag ∷ []) = tag
join_tags (tag ∷ next ∷ tags) = tag ++ b'|' ∷ join_tags (next ∷ tags)

unfoldable pub asset_fields : AssetTransferRow → List Text
unfolding int_decimal join_tags
asset_fields r =
    r.name
    ∷ r.hostname
    ∷ int_decimal r.port
    ∷ unwrap_or [] r.description
    ∷ join_tags r.tags
    ∷ unwrap_or [] r.credential_id
    ∷ r.protocol
    ∷ []

unfoldable pub credential_fields : CredentialTransferRow → List Text
credential_fields r = r.name ∷ r.username ∷ r.auth_type ∷ []

unfoldable pub write_asset_csv : List AssetTransferRow → Text
unfolding asset_fields push_csv_rows
write_asset_csv rows =
    push_csv_rows (text "name,hostname,port,description,tags,credential_id,protocol\n")
      (map asset_fields rows)

unfoldable pub write_credential_csv : List CredentialTransferRow → Text
unfolding credential_fields push_csv_rows
write_credential_csv rows =
    push_csv_rows (text "name,username,auth_type\n") (map credential_fields rows)

-- `serde_json::to_string` for the JSON format.
unfoldable pub export_assets :
    (List AssetTransferRow → Outcome Text Text) → List Asset → TransferFormat → Outcome Text Text
unfolding asset_transfer_row write_asset_csv
export_assets to_json assets json = to_json (map asset_transfer_row assets)
export_assets to_json assets csv = ok (write_asset_csv (map asset_transfer_row assets))

unfoldable pub export_credentials :
    (List CredentialTransferRow → Outcome Text Text)
    → List Credential
    → TransferFormat
    → Outcome Text Text
unfolding credential_transfer_row write_credential_csv
export_credentials to_json credentials json = to_json (map credential_transfer_row credentials)
export_credentials to_json credentials csv =
    ok (write_credential_csv (map credential_transfer_row credentials))

unfoldable pub same_texts : List Text → List Text → Bool
same_texts [] [] = true
same_texts (a ∷ as_) (b ∷ bs) = a == b && same_texts as_ bs
same_texts _ _ = false

unfoldable pub require_csv_header : List (List Text) → List Text → Outcome Text (Unit {0})
unfolding same_texts
require_csv_header [] expected = err (text "CSV input is empty")
require_csv_header (header ∷ records) expected =
    ensure (same_texts header expected)
      (text "CSV header does not match the current Hop transfer format")

unfoldable pub ensure_len : List Text → ℕ → ℕ → Outcome Text (Unit {0})
unfolding decimal
ensure_len fields expected idx = ensure (nat_eq (length fields) expected) (
    text "CSV row "
    ++ (decimal (idx + 1)
        ++ (text " has "
            ++ (decimal (length fields) ++ (text " fields, expected " ++ decimal expected)))))

-- A record that the readers skip.
unfoldable pub is_blank_row : List Text → Bool
unfolding is_empty trim
is_blank_row fields = every (λ f. is_empty (trim f)) fields

unfoldable pub nonempty : Text → Option Text
unfolding is_empty trim
nonempty value = let trimmed = trim value in if is_empty trimmed then none else some trimmed

-- `split(['|', ','])`
unfoldable pub split_marks : Text → List Text
split_marks [] = [] ∷ []
split_marks (c ∷ s) =
    let rest = split_marks s in
    if nat_eq c b'|' || nat_eq c b','
    then [] ∷ rest
    else elim rest [ [] ↦ (c ∷ []) ∷ [] | part ∷ parts ↦ (c ∷ part) ∷ parts ]

unfoldable pub split_tags : Text → List Text
unfolding split_marks trim is_empty
split_tags value = keep (λ tag. not (is_empty tag)) (map trim (split_marks value))

unfoldable pub asset_of_fields : ℕ → List Text → Outcome Text AssetTransferRow
unfolding parse_i64 nonempty split_tags decimal
asset_of_fields idx (name ∷ hostname ∷ port ∷ description ∷ tags ∷ credential_id ∷ protocol ∷ []) =
    do
      number ← ok_or (parse_i64 port) (text "invalid port on CSV row " ++ decimal (idx + 1))
      ok (record {
        name = name;
        hostname = hostname;
        port = number;
        description = nonempty description;
        tags = split_tags tags;
        credential_id = nonempty credential_id;
        protocol = protocol;
      })
asset_of_fields idx _ = err []

unfoldable pub credential_of_fields : ℕ → List Text → Outcome Text CredentialTransferRow
credential_of_fields idx (name ∷ username ∷ auth_type ∷ []) =
    ok (record { name = name; username = username; auth_type = auth_type })
credential_of_fields idx _ = err []

-- The loop of both readers, from the record with the number `idx`: blank records are skipped. The
-- last clauses of `asset_of_fields` and `credential_of_fields` are not reached, since `ensure_len`
-- stands before them.
unfoldable pub read_records {ℓ} :
    {A : Type ℓ}
    → ℕ
    → (ℕ → List Text → Outcome Text A)
    → ℕ
    → List (List Text)
    → Outcome Text (List A)
unfolding is_blank_row ensure_len
read_records width of_fields idx [] = ok []
read_records width of_fields idx (fields ∷ records) =
    let rest = read_records width of_fields (idx + 1) records in
    if is_blank_row fields
    then rest
    else (ensure_len fields width idx
        >> (of_fields idx fields >>= λ row. rest >>= λ rows. ok (row ∷ rows)))

-- `skip(1)`
unfoldable pub skip_first {ℓ} : {A : Type ℓ} → List A → List A
skip_first [] = []
skip_first (x ∷ xs) = xs

unfoldable pub read_asset_csv : Text → Outcome Text (List AssetTransferRow)
unfolding read_csv_records require_csv_header asset_header read_records asset_of_fields skip_first
read_asset_csv input = do
  let records = read_csv_records input
  _ ← require_csv_header records asset_header
  read_records 7 asset_of_fields 1 (skip_first records)

unfoldable pub read_credential_csv : Text → Outcome Text (List CredentialTransferRow)
unfolding read_csv_records require_csv_header credential_header read_records credential_of_fields
    skip_first
read_credential_csv input = do
  let records = read_csv_records input
  _ ← require_csv_header records credential_header
  read_records 3 credential_of_fields 1 (skip_first records)
