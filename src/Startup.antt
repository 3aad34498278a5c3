-- ===== src/Startup.antt =====
-- The startup configuration of crates/hop-core/src/config.rs: its data, its defaults, and the
-- manifest that it stands for. A path is its text.
pub mod Validate
pub mod Laws
use hop_rs.Prelude.{
  Bool, List, Option, Text, [], false, if◌then◌else◌, is_empty, is_some, none, option_map, some,
  text, trim, unwrap_or, ℕ, ◌==◌,
}
use hop_rs.Prelude.Map.{map_values, Map}
use hop_rs.Manifest.{
  AssetType, ssh, password, ssh_key, SecretSource, inline_source, file_source, present,
  CredentialSpec, AssetSpec, AccessSpec, Manifest, manifest_api_version,
}

-- `SecretString`: the text that `expose` gives.
abbrev pub SecretString : Type 0
SecretString = Text

-- `SecretString::is_empty`
unfoldable pub secret_is_empty : SecretString → Bool
unfolding is_empty trim
secret_is_empty s = is_empty (trim s)

-- `SecretString::is_placeholder`
unfoldable pub is_placeholder : SecretString → Bool
is_placeholder s = s == text "change-me"

pub record ApiConfig : Type 0 where
  pub enabled : Bool
  pub listen : Text
  pub token : Option SecretString
  pub cors_allowlist : List Text

pub record SshConfig : Type 0 where
  pub host_key_type : Text
  pub banner : Text
  pub keepalive_interval : ℕ
  pub connect_timeout : ℕ
  pub proxy_policy : Text

pub record RuntimeConfig : Type 0 where
  pub temp_dir : Text
  pub log_level : Text
  pub session_retention_days : ℕ

pub record StartupCredentialConfig : Type 0 where
  pub username : Text
  pub password : Option SecretString
  pub private_key : Option SecretString
  pub passphrase : Option SecretString

pub record StartupAssetConfig : Type 0 where
  pub asset_type : Option AssetType
  pub host : Text
  pub port : Option ℕ
  pub display_name : Option Text
  pub description : Option Text
  pub credential : Option Text

pub record StartupAccessKeyConfig : Type 0 where
  pub public_key : Option Text
  pub public_key_file : Option Text
  pub enabled : Option Bool
  pub assets : Option (List Text)

pub record HopConfig : Type 0 where
  pub listen : Text
  pub data_dir : Text
  pub api : ApiConfig
  pub ssh : SshConfig
  pub runtime : RuntimeConfig
  pub credentials : Map StartupCredentialConfig
  pub assets : Map StartupAssetConfig
  pub access_keys : Map StartupAccessKeyConfig

unfoldable pub default_api : ApiConfig
default_api = record {
  enabled = false;
  listen = text "127.0.0.1:8083";
  token = none;
  cors_allowlist = [];
}

unfoldable pub default_ssh : SshConfig
default_ssh = record {
  host_key_type = text "ed25519";
  banner = text "Welcome to Hop";
  keepalive_interval = 30;
  connect_timeout = 10;
  proxy_policy = text "assets_only";
}

unfoldable pub default_runtime : RuntimeConfig
default_runtime = record {
  temp_dir = text "/tmp/hop";
  log_level = text "info";
  session_retention_days = 30;
}

-- `HopConfig::default`
unfoldable pub default_config : HopConfig
unfolding default_api default_ssh default_runtime
default_config = record {
  listen = text "0.0.0.0:2222";
  data_dir = text ".";
  api = default_api;
  ssh = default_ssh;
  runtime = default_runtime;
  credentials = [];
  assets = [];
  access_keys = [];
}

unfoldable pub startup_credential : StartupCredentialConfig → CredentialSpec
unfolding inline_source
startup_credential c = record {
  state = present;
  credential_type = some (if is_some c.password then password else ssh_key);
  username = some c.username;
  password = option_map inline_source c.password;
  private_key = option_map inline_source c.private_key;
  passphrase = option_map inline_source c.passphrase;
}

unfoldable pub startup_asset : StartupAssetConfig → AssetSpec
startup_asset a = record {
  state = present;
  asset_type = some (unwrap_or AssetType.ssh a.asset_type);
  host = some a.host;
  port = some (unwrap_or 22 a.port);
  display_name = a.display_name;
  description = a.description;
  credential = a.credential;
}

unfoldable pub startup_public_key : Option Text → Option Text → Option SecretSource
unfolding inline_source file_source
startup_public_key (some value) none = some (inline_source value)
startup_public_key none (some path) = some (file_source path)
startup_public_key none none = none
startup_public_key (some value) (some path) = none

unfoldable pub startup_access : StartupAccessKeyConfig → AccessSpec
unfolding startup_public_key
startup_access k = record {
  state = present;
  public_key = startup_public_key k.public_key k.public_key_file;
  enabled = k.enabled;
  assets = k.assets;
}

unfoldable pub startup_manifest : HopConfig → Manifest
unfolding startup_credential startup_asset startup_access manifest_api_version
startup_manifest config = record {
  api_version = manifest_api_version;
  credentials = map_values startup_credential config.credentials;
  assets = map_values startup_asset config.assets;
  access = map_values startup_access config.access_keys;
}
