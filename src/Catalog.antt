-- ===== src/Catalog.antt =====
-- The catalog tables of crates/hop-core/src/catalog/schema_v0_2.sql, as far as the modelled
-- operations read and write them. A column with a CHECK on a list of words is an enum. A text
-- column that may be NULL is an `Option`.
pub mod Statements
use hop_rs.Prelude.{Bool, List, Option, Text, false, text, true, ℕ}
use hop_rs.Prelude.Int.{ℤ}
use hop_rs.Manifest.{CredentialType, AssetType}
use hop_rs.Models.{AssetAccessMode, KnownHost}

pub data ResourceType : Type 0 where
  credential asset access_key : ResourceType

pub data ManagementMode : Type 0 where
  local_mode declarative : ManagementMode

pub record CredentialRecord : Type 0 where
  pub id : Text
  pub name : Text
  pub username : Text
  pub auth_type : CredentialType
  pub password_enc : Option Text
  pub private_key_enc : Option Text
  pub passphrase_enc : Option Text
  pub secret_hmac : Option Text
  pub created_at : Option Text

pub record AssetRecord : Type 0 where
  pub id : Text
  pub name : Text
  pub asset_type : AssetType
  pub host : Text
  pub port : ℕ
  pub display_name : Option Text
  pub description : Option Text
  pub tags_json : Option Text
  pub credential_id : Option Text
  pub created_at : Option Text
  pub updated_at : Option Text

pub record KeyRecord : Type 0 where
  pub id : Text
  pub name : Text
  pub public_key : Text
  pub fingerprint : Text
  pub enabled : Bool
  pub access_mode : AssetAccessMode
  pub created_at : Option Text

pub record Assignment : Type 0 where
  pub key_id : Text
  pub asset_id : Text

pub record Ownership : Type 0 where
  pub resource_type : ResourceType
  pub resource_id : Text
  pub management_mode : ManagementMode
  pub source_id : Option Text
  pub source_key : Option Text
  pub source_generation : Option ℕ
  pub last_applied_hash : Option Text
  pub last_applied_at : Option Text
  pub orphaned_at : Option Text

pub record ConfigSource : Type 0 where
  pub source_id : Text
  pub generation : ℕ
  pub last_success_at : Option Text
  pub last_success_revision : Option ℕ
  pub last_error_at : Option Text
  pub last_error_code : Option Text
  pub last_error_message : Option Text

pub record Session : Type 0 where
  pub id : Text
  pub key_finger : Text
  pub key_name : Option Text
  pub mode : Text
  pub asset_name : Option Text
  pub target_host : Option Text
  pub target_port : Option ℤ
  pub client_ip : Option Text
  pub status : Text
  pub error : Option Text
  pub started_at : Option Text
  pub ended_at : Option Text

pub record AuditEvent : Type 0 where
  pub id : Text
  pub actor_label : Text
  pub action : Text
  pub target_type : Text
  pub target_id : Option Text
  pub target_label : Option Text
  pub result : Text
  pub details_json : Option Text

pub record Database : Type 0 where
  pub revision : ℕ
  pub credentials : List CredentialRecord
  pub assets : List AssetRecord
  pub access_keys : List KeyRecord
  pub access_key_assets : List Assignment
  pub resource_ownership : List Ownership
  pub known_hosts : List KnownHost
  pub config_sources : List ConfigSource
  pub sessions : List Session
  pub audit_events : List AuditEvent

-- `resource_type` as the code and the messages spell it.
unfoldable pub resource_type_as_str : ResourceType → Text
resource_type_as_str credential = text "credential"
resource_type_as_str asset = text "asset"
resource_type_as_str access_key = text "access_key"

unfoldable pub same_type : ResourceType → ResourceType → Bool
same_type credential credential = true
same_type asset asset = true
same_type access_key access_key = true
same_type _ _ = false
