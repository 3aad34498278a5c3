-- ===== src/Manifest.antt =====
-- The declarative manifest of crates/hop-core/src/catalog/manifest.rs: its data types and errors.
-- The children resolve the material, check the references and merge the manifests of a scope.
pub mod Names
pub mod Resolve
pub mod References
pub mod Merge
pub mod Laws
use hop_rs.Prelude.{Bool, List, Option, Outcome, Text, err, none, some, text, ℕ}
use hop_rs.Prelude.Map.{Map}

pub data CatalogErrorCode : Type 0 where
  unsupported_api_version : CatalogErrorCode
  unknown_field : CatalogErrorCode
  duplicate_resource : CatalogErrorCode
  invalid_resource_name : CatalogErrorCode
  invalid_secret_source : CatalogErrorCode
  secret_unavailable : CatalogErrorCode
  invalid_credential_material : CatalogErrorCode
  unknown_reference : CatalogErrorCode
  resource_in_use : CatalogErrorCode
  ownership_conflict : CatalogErrorCode
  managed_by_source : CatalogErrorCode
  revision_conflict : CatalogErrorCode
  source_scan_incomplete : CatalogErrorCode
  apply_failed : CatalogErrorCode

pub record CatalogError : Type 0 where
  pub code : CatalogErrorCode
  pub path : Option Text
  pub message : Text

abbrev pub CatalogResult {ℓ} : Type ℓ → Type ℓ
CatalogResult A = Outcome CatalogError A

-- `Err(CatalogError::new(code, path, message))`
abbrev pub fail {ℓ} : {A : Type ℓ} → CatalogErrorCode → Option Text → Text → CatalogResult A
fail c p m = err (record { code = c; path = p; message = m })

pub data ResourceState : Type 0 where
  present absent : ResourceState

pub data CredentialType : Type 0 where
  password ssh_key : CredentialType

pub data AssetType : Type 0 where
  ssh tcp : AssetType

unfoldable pub credential_type_as_str : CredentialType → Text
credential_type_as_str password = text "password"
credential_type_as_str ssh_key = text "ssh_key"

unfoldable pub asset_type_as_str : AssetType → Text
asset_type_as_str ssh = text "ssh"
asset_type_as_str tcp = text "tcp"

-- A path is its text.
pub record SecretSource : Type 0 where
  pub file : Option Text
  pub env : Option Text
  pub inline : Option Text

unfoldable pub inline_source : Text → SecretSource
inline_source value = record { file = none; env = none; inline = some value }

unfoldable pub file_source : Text → SecretSource
file_source path = record { file = some path; env = none; inline = none }

pub record CredentialSpec : Type 0 where
  pub state : ResourceState
  pub credential_type : Option CredentialType
  pub username : Option Text
  pub password : Option SecretSource
  pub private_key : Option SecretSource
  pub passphrase : Option SecretSource

pub record AssetSpec : Type 0 where
  pub state : ResourceState
  pub asset_type : Option AssetType
  pub host : Option Text
  pub port : Option ℕ
  pub display_name : Option Text
  pub description : Option Text
  pub credential : Option Text

pub record AccessSpec : Type 0 where
  pub state : ResourceState
  pub public_key : Option SecretSource
  pub enabled : Option Bool
  pub assets : Option (List Text)

pub record Manifest : Type 0 where
  pub api_version : Text
  pub credentials : Map CredentialSpec
  pub assets : Map AssetSpec
  pub access : Map AccessSpec

pub record PresentCredential : Type 0 where
  pub credential_type : CredentialType
  pub username : Text
  pub password : Option Text
  pub private_key : Option Text
  pub passphrase : Option Text

pub record PresentAsset : Type 0 where
  pub asset_type : AssetType
  pub host : Text
  pub port : ℕ
  pub display_name : Option Text
  pub description : Option Text
  pub credential : Option Text

pub record PresentAccess : Type 0 where
  pub public_key : Text
  pub fingerprint : Text
  pub enabled : Bool
  pub assets : Option (List Text)

-- `ResolvedCredential`, `ResolvedAsset` and `ResolvedAccess`: absent, or present with its fields.
pub data Resolved (A : Type 0) : Type 0 where
  absent_resource : Resolved A
  present_resource : A → Resolved A

pub record ResolvedManifest : Type 0 where
  pub credentials : Map (Resolved PresentCredential)
  pub assets : Map (Resolved PresentAsset)
  pub access : Map (Resolved PresentAccess)

-- `MANIFEST_API_VERSION`
unfoldable pub manifest_api_version : Text
manifest_api_version = text "hop/v1alpha1"

-- What the resolution asks of its environment: files, environment variables, and the key formats of
-- the russh library. `decode_secret_key` says whether the key and the passphrase decode.
pub record PublicKey : Type 0 where
  pub algorithm : Text
  pub public_key_base64 : Text
  pub fingerprint : Text

pub record Environment : Type 0 where
  pub read_to_string : Text → Option Text
  pub env_var : Text → Option Text
  pub decode_secret_key : Text → Option Text → Bool
  pub parse_public_key_base64 : Text → Option PublicKey
