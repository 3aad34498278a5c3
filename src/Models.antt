-- ===== src/Models.antt =====
-- The data types and the validation of crates/hop-core/src/models.rs.
pub mod Laws
use hop_rs.Prelude.{
  Bool, List, Option, Outcome, Text, [], err, false, if◌then◌else◌, is_empty, ltb, map, none, not,
  ok, ok_or, option_map, some, text, to_ascii_lowercase, trim, unwrap_or, ℕ, ◌&&◌, ◌++◌, ◌==◌,
  ◌>>=◌, ◌||◌,
}
use hop_rs.Prelude.Int.{ℤ, pos, negsuc}
use hop_rs.Errors.{validation, Result, json}

pub data AssetAccessMode : Type 0 where
  all restricted : AssetAccessMode

unfoldable pub access_mode_as_str : AssetAccessMode → Text
access_mode_as_str all = text "all"
access_mode_as_str restricted = text "restricted"

unfoldable pub access_mode_try_from : Text → Result AssetAccessMode
access_mode_try_from value =
    if value == text "all"
    then ok all
    else if value == text "restricted"
    then ok restricted
    else err (validation (text "asset access mode must be all or restricted, got " ++ value))

pub record AuthorizedKey : Type 0 where
  pub id : Text
  pub name : Text
  pub public_key : Text
  pub fingerprint : Text
  pub is_active : Bool
  pub asset_access_mode : AssetAccessMode
  pub created_at : Option Text

pub record AuthorizedKeyRow : Type 0 where
  pub id : Text
  pub name : Text
  pub public_key : Text
  pub fingerprint : Text
  pub is_active : Bool
  pub asset_access_mode : Text
  pub created_at : Option Text

unfoldable pub authorized_key_try_from : AuthorizedKeyRow → Result AuthorizedKey
unfolding access_mode_try_from
authorized_key_try_from row = do
  mode ← access_mode_try_from row.asset_access_mode
  ok (record {
    id = row.id;
    name = row.name;
    public_key = row.public_key;
    fingerprint = row.fingerprint;
    is_active = row.is_active;
    asset_access_mode = mode;
    created_at = row.created_at;
  })

pub record NewAuthorizedKey : Type 0 where
  pub name : Text
  pub public_key : Text
  pub fingerprint : Text
  pub asset_access_mode : AssetAccessMode

pub record Asset : Type 0 where
  pub id : Text
  pub name : Text
  pub protocol : Text
  pub hostname : Text
  pub port : ℕ
  pub description : Option Text
  pub tags : List Text
  pub credential_id : Option Text
  pub created_at : Option Text
  pub updated_at : Option Text

pub record AssetRow : Type 0 where
  pub id : Text
  pub name : Text
  pub protocol : Text
  pub hostname : Text
  pub port : ℕ
  pub description : Option Text
  pub tags : Option Text
  pub credential_id : Option Text
  pub created_at : Option Text
  pub updated_at : Option Text

pub record NewAsset : Type 0 where
  pub name : Text
  pub protocol : Text
  pub hostname : Text
  pub port : ℤ
  pub description : Option Text
  pub tags : List Text
  pub credential_id : Option Text

unfoldable pub new_asset : Text → Text → ℤ → NewAsset
new_asset name hostname port = record {
  name = name;
  protocol = text "ssh";
  hostname = hostname;
  port = port;
  description = none;
  tags = [];
  credential_id = none;
}

pub data AuthType : Type 0 where
  password key key_with_passphrase : AuthType

unfoldable pub auth_type_as_str : AuthType → Text
auth_type_as_str password = text "password"
auth_type_as_str key = text "key"
auth_type_as_str key_with_passphrase = text "key+passphrase"

-- The error of this conversion is a plain message.
unfoldable pub auth_type_try_from : Text → Outcome Text AuthType
auth_type_try_from value =
    if value == text "password"
    then ok password
    else if value == text "key"
    then ok key
    else if value == text "key+passphrase"
    then ok key_with_passphrase
    else err (text "unsupported auth type: " ++ value)

pub record Credential : Type 0 where
  pub id : Text
  pub name : Text
  pub username : Text
  pub auth_type : Text
  pub password_enc : Option Text
  pub private_key_enc : Option Text
  pub passphrase_enc : Option Text
  pub created_at : Option Text

pub record NewCredential : Type 0 where
  pub id : Option Text
  pub name : Text
  pub username : Text
  pub auth_type : AuthType
  pub password_enc : Option Text
  pub private_key_enc : Option Text
  pub passphrase_enc : Option Text

pub record KnownHost : Type 0 where
  pub hostname : Text
  pub port : ℤ
  pub key_type : Text
  pub fingerprint : Text
  pub first_seen : Option Text

pub record NewKnownHost : Type 0 where
  pub hostname : Text
  pub port : ℤ
  pub key_type : Text
  pub fingerprint : Text

-- `u16::try_from(port)` accepts 0 to 65535. The message ends with the port, which is left out.
unfoldable pub validate_tcp_port : ℤ → Result ℕ
validate_tcp_port (pos port) =
    if ltb port 65536 && ltb 0 port
    then ok port
    else err (validation (text "tcp port must be between 1 and 65535"))
validate_tcp_port (negsuc n) = err (validation (text "tcp port must be between 1 and 65535"))

unfoldable pub validate_asset_protocol : Text → Result Text
validate_asset_protocol protocol =
    let normal = map to_ascii_lowercase (trim protocol) in
    if normal == text "ssh"
    then ok (text "ssh")
    else if normal == text "tcp"
    then ok (text "tcp")
    else err (validation (text "asset protocol must be ssh or tcp, got " ++ normal))

unfoldable pub protocol_supports_managed_credentials : Text → Bool
protocol_supports_managed_credentials protocol = protocol == text "ssh"

unfoldable pub has_secret : Option Text → Bool
has_secret value = unwrap_or false (option_map (λ v. not (is_empty (trim v))) value)

unfoldable pub validate_credential_material :
    AuthType → Option Text → Option Text → Option Text → Result (Unit {0})
validate_credential_material password password_enc private_key_enc passphrase_enc =
    if not (has_secret password_enc)
    then err (validation (text "password auth requires a password"))
    else ok tt
validate_credential_material key password_enc private_key_enc passphrase_enc =
    if not (has_secret private_key_enc)
    then err (validation (text "key auth requires a private key"))
    else ok tt
validate_credential_material key_with_passphrase password_enc private_key_enc passphrase_enc =
    if not (has_secret private_key_enc) || not (has_secret passphrase_enc)
    then err (validation (text "key+passphrase auth requires a private key and passphrase"))
    else ok tt

-- `serde_json` on a list of tags, which the code calls.
pub record TagsJson : Type 0 where
  pub to_json : List Text → Text
  pub from_json : Text → Option (List Text)

module _ (codec : TagsJson) where
  tags_of_row : Option Text → Result (List Text)
  tags_of_row none = ok []
  tags_of_row (some raw) =
      if not (is_empty (trim raw)) then ok_or (codec.from_json raw) json else ok []

  unfoldable pub asset_try_from : AssetRow → Result Asset
  unfolding tags_of_row
  asset_try_from row = do
    tags ← tags_of_row row.tags
    protocol ← validate_asset_protocol row.protocol
    ok (record {
      id = row.id;
      name = row.name;
      protocol = protocol;
      hostname = row.hostname;
      port = row.port;
      description = row.description;
      tags = tags;
      credential_id = row.credential_id;
      created_at = row.created_at;
      updated_at = row.updated_at;
    })
