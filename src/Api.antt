-- ===== src/Api.antt =====
-- The management interface of crates/hop-server/src/control_api.rs: what it receives, answers and
-- keeps. axum's routing and extractors, the JSON of serde and the CORS layer are outside; a request
-- is one that an extractor has read.
pub mod Errors
pub mod Secrets
pub mod Views
pub mod Handlers
pub mod Configuration
pub mod Router
pub mod Laws
use hop_rs.Prelude.{
  Bool, List, Option, Outcome, Text, [], err, if◌then◌else◌, is_empty, none, ok, some, text, trim,
}
use hop_rs.Prelude.Int.{ℤ}
use hop_rs.Errors.{AnyError, message_error}
use hop_rs.Models.{AssetAccessMode, all, restricted, AuthType, NewAsset, TagsJson}
use hop_rs.Manifest.{CatalogResult, Manifest}
use hop_rs.Catalog.{Database}
use hop_rs.Envelope.{Bytes, MasterKey}
use hop_rs.Apply.Hashes.{Digests, as_bytes}
use hop_rs.Apply.Run.{Call}
use hop_rs.Ssh.Registry.{Registry, Channels}

-- What `router` hands to each handler and does not change.
pub record ControlApiState : Type 0 where
  pub master_key : MasterKey
  pub token_hash : Bytes

-- What the handlers share: the catalog, the active sessions and their termination channels.
pub record Server : Type 0 where
  pub catalog : Database
  pub active_sessions : Registry
  pub channels : Channels

-- `ControlApiState::new`
unfoldable pub new_control_api_state : Digests → MasterKey → Text → Outcome AnyError ControlApiState
unfolding as_bytes
new_control_api_state digests master token =
    let trimmed = trim token in
    if is_empty trimmed
    then err (message_error (text "Control API token must not be empty"))
    else ok (record { master_key = master; token_hash = digests.sha256 (as_bytes trimmed) })

-- What a request is handled with: the libraries and the files, the ids that it draws (`new_id` for
-- a resource, `failure_id` for the event of a failed apply), the parsers of the two formats of a
-- manifest.
pub record Context : Type 0 where
  pub codec : TagsJson
  pub call : Call
  pub new_id : Text
  pub failure_id : Text
  pub from_yaml : Text → CatalogResult Manifest
  pub from_toml : Text → CatalogResult Manifest

pub data ManifestFormat : Type 0 where
  yaml toml : ManifestFormat

pub record ManifestPayload : Type 0 where
  pub content : Text
  pub format : ManifestFormat

-- `ManifestPayload::parse`
unfoldable pub parse_payload : Context → ManifestPayload → CatalogResult Manifest
parse_payload c p = elim p.format [ yaml ↦ c.from_yaml p.content | toml ↦ c.from_toml p.content ]

pub record ValidateRequest : Type 0 where
  pub manifest : ManifestPayload
  pub offline : Bool

pub record DiffRequest : Type 0 where
  pub manifest : ManifestPayload
  pub source_id : Text
  pub prune : Bool

pub record ApplyRequest : Type 0 where
  pub manifest : ManifestPayload
  pub source_id : Text
  pub base_revision : ℤ
  pub prune : Bool
  pub dry_run : Bool

-- `protocol` is `default_asset_protocol`, ssh, where the body leaves it out.
pub record AssetWriteRequest : Type 0 where
  pub name : Text
  pub protocol : Text
  pub hostname : Text
  pub port : ℤ
  pub description : Option Text
  pub tags : List Text
  pub credential_id : Option Text

unfoldable pub default_asset_protocol : Text
default_asset_protocol = text "ssh"

unfoldable pub written_asset : AssetWriteRequest → NewAsset
written_asset r = record {
  name = r.name;
  protocol = r.protocol;
  hostname = r.hostname;
  port = r.port;
  description = r.description;
  tags = r.tags;
  credential_id = r.credential_id;
}

pub data ApiAuthType : Type 0 where
  password key key_passphrase : ApiAuthType

unfoldable pub auth_type_of : ApiAuthType → AuthType
auth_type_of password = AuthType.password
auth_type_of key = AuthType.key
auth_type_of key_passphrase = AuthType.key_with_passphrase

pub record CredentialWriteRequest : Type 0 where
  pub name : Text
  pub username : Text
  pub auth_type : ApiAuthType
  pub password : Option Text
  pub private_key : Option Text
  pub passphrase : Option Text

pub record AccessKeyCreateRequest : Type 0 where
  pub name : Text
  pub public_key : Text
  pub assets : Option (List Text)

pub record KnownHostResetRequest : Type 0 where
  pub hostname : Text
  pub port : ℤ
  pub key_type : Text
  pub confirm_reset : Bool

unfoldable pub access_scope : Option (List Text) → AssetAccessMode × List Text
access_scope none = (all, [])
access_scope (some assets) = (restricted, assets)
