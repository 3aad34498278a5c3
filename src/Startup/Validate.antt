-- ===== src/Startup/Validate.antt =====
-- `validate`, `resolve_paths` and `load` of config.rs. The parsers of socket addresses, of URIs
-- and of the file formats, and the operations on paths, are parameters.
use hop_rs.Prelude.{
  Bool, List, Option, Outcome, Text, [], any, decimal, ensure, err, false, if◌then◌else◌, is_empty,
  is_none, is_some, length, ltb, nat_eq, none, not, ok, ok_or, option_map, some, strip_prefix, text,
  trim, true, ℕ, ◌&&◌, ◌++◌, ◌+◌, ◌==◌, ◌>>=◌, ◌>>◌, ◌||◌, ◌∷◌,
}
use hop_rs.Prelude.Map.{map_values, Map}
use hop_rs.Prelude.Split.{has_char}
use hop_rs.Errors.{Error, Result, config}
use hop_rs.Manifest.{CatalogError, CatalogResult, Environment, tcp}
use hop_rs.Manifest.References.{validate_offline}
use hop_rs.Startup.{
  StartupCredentialConfig, StartupAssetConfig, StartupAccessKeyConfig, HopConfig, startup_manifest,
}

-- What `http::Uri` tells of a text that it parses.
pub record Uri : Type 0 where
  pub scheme_str : Option Text
  pub authority : Option Text

pub record Parsers : Type 0 where
  pub parse_addr : Text → Outcome Text (Unit {0})
  pub parse_uri : Text → Option Uri
  pub is_absolute : Text → Bool
  pub join : Text → Text → Text

-- `map_err(|error| HopCoreError::Config(format!("{prefix}{error}")))`
unfoldable pub config_err {ℓ} : {A : Type ℓ} → Text → Outcome Text A → Result A
config_err prefix (ok a) = ok a
config_err prefix (err e) = err (config (prefix ++ e))

unfoldable pub invalid_origin : ℕ → Text → Error
unfolding decimal
invalid_origin index guidance =
    config (text "api.cors_allowlist[" ++ (decimal index ++ (text "] " ++ guidance)))

unfoldable pub is_wildcard : Text → Bool
is_wildcard origin = origin == text "*"

-- `split_once("://")`: what follows the first separator.
unfoldable pub after_scheme : Text → Option Text
after_scheme [] = none
after_scheme (c ∷ s) =
    let later = after_scheme s in
    elim s [
      | d ∷ e ∷ rest ↦ if nat_eq c b':' && nat_eq d b'/' && nat_eq e b'/' then some rest else later
      | _ ↦ later
    ]

unfoldable pub authority_only : Text → Bool
unfolding after_scheme is_empty
authority_only origin = elim (after_scheme origin) [
  | none ↦ false
  | some authority ↦
      not (is_empty authority)
      && not (any (λ c. nat_eq c b'/' || nat_eq c b'?' || nat_eq c b'#') authority)
]

unfoldable pub is_web_scheme : Option Text → Bool
is_web_scheme none = false
is_web_scheme (some s) = s == text "http" || s == text "https"

unfoldable pub has_credentials : Option Text → Bool
has_credentials none = false
has_credentials (some authority) = has_char b'@' authority

unfoldable pub check_origin : Parsers → ℕ → Text → Result (Unit {0})
unfolding is_wildcard authority_only is_web_scheme has_credentials invalid_origin
check_origin parsers index origin = elim (is_wildcard origin) [
  | true ↦ ok tt
  | false ↦
      ok_or (parsers.parse_uri origin)
        (invalid_origin index (text "must be a valid http:// or https:// Origin"))
      >>= λ uri.
          ensure
            (is_web_scheme uri.scheme_str
              && is_some uri.authority
              && authority_only origin
              && not (has_credentials uri.authority))
            (invalid_origin index (
              text
                "must include http:// or https:// and a host, with no path, query, or credentials"))
]

unfoldable pub check_origins : Parsers → ℕ → List Text → Result (Unit {0})
unfolding check_origin
check_origins parsers index [] = ok tt
check_origins parsers index (origin ∷ rest) =
    check_origin parsers index origin >> check_origins parsers (index + 1) rest

unfoldable pub validate_cors_origins : Parsers → List Text → Result (Unit {0})
unfolding check_origins is_wildcard
validate_cors_origins parsers origins = do
  _ ←
      ensure (not (ltb 1 (length origins) && any is_wildcard origins))
        (config (text "api.cors_allowlist wildcard '*' must be the only entry"))
  check_origins parsers 0 origins

-- The round of each of the three loops.
unfoldable pub check_credential : Text → StartupCredentialConfig → Result (Unit {0})
check_credential name c =
    let path = text "credentials." ++ name in
    ensure (not (is_some c.password && is_some c.private_key))
      (config (path ++ text ": password and private_key are mutually exclusive"))
    >> (ensure (is_some c.password || is_some c.private_key)
          (config (path ++ text ": exactly one of password or private_key is required"))
        >> ensure (not (is_some c.password && is_some c.passphrase))
            (config (path ++ text ".passphrase: passphrase is valid only with private_key")))

unfoldable pub declares_tcp : StartupAssetConfig → Bool
declares_tcp a = elim a.asset_type [ some tcp ↦ true | _ ↦ false ]

unfoldable pub check_startup_asset : Text → StartupAssetConfig → Result (Unit {0})
unfolding declares_tcp
check_startup_asset name a =
    ensure (not (declares_tcp a && is_none a.port))
      (config (text "assets." ++ (name ++ text ".port: tcp assets require an explicit port")))

unfoldable pub check_access_key : Text → StartupAccessKeyConfig → Result (Unit {0})
check_access_key name k =
    let path = text "access_keys." ++ name in
    ensure (not (is_some k.public_key && is_some k.public_key_file))
      (config (path ++ text ": public_key and public_key_file are mutually exclusive"))
    >> ensure (not (is_none k.public_key && is_none k.public_key_file))
        (config (path ++ text ": exactly one of public_key or public_key_file is required"))

abbrev pub check_entries : {V : Type 0} → (Text → V → Result (Unit {0})) → Map V → Result (Unit {0})
check_entries check [] = ok tt
check_entries check ((name, v) ∷ rest) = check name v >> check_entries check rest

-- `replacen("access.", "access_keys.", 1)`: the first occurrence, anywhere in the text.
unfoldable pub replace_first : Text → Text → Text → Text
unfolding strip_prefix
replace_first from to [] = []
replace_first from to (c ∷ s) =
    let later = c ∷ replace_first from to s in
    elim (strip_prefix from (c ∷ s)) [ some rest ↦ to ++ rest | none ↦ later ]

unfoldable pub startup_catalog_error : CatalogError → Error
unfolding replace_first
startup_catalog_error e = elim e.path [
  | some path ↦
      config (replace_first (text "access.") (text "access_keys.") path ++ (text ": " ++ e.message))
  | none ↦ config e.message
]

unfoldable pub catalog_err : CatalogResult (Unit {0}) → Result (Unit {0})
unfolding startup_catalog_error
catalog_err (ok a) = ok a
catalog_err (err e) = err (startup_catalog_error e)

module _ (parsers : Parsers) (world : Environment) where
  -- `ssh_bind_addr` and `api_bind_addr`
  unfoldable pub ssh_bind_addr : HopConfig → Result (Unit {0})
  unfolding config_err
  ssh_bind_addr c = config_err (text "invalid listen: ") (parsers.parse_addr c.listen)

  unfoldable pub api_bind_addr : HopConfig → Result (Unit {0})
  unfolding config_err
  api_bind_addr c = config_err (text "invalid api.listen: ") (parsers.parse_addr c.api.listen)

  unfoldable pub check_api : HopConfig → Result (Unit {0})
  unfolding api_bind_addr validate_cors_origins
  check_api c =
      if c.api.enabled
      then (api_bind_addr c >> validate_cors_origins parsers c.api.cors_allowlist)
      else ok tt

  unfoldable pub check_settings : HopConfig → Result (Unit {0})
  unfolding is_empty trim
  check_settings c = do
    _ ← ensure (not (is_empty c.data_dir)) (config (text "data_dir must not be empty"))
    _ ←
        ensure (c.ssh.host_key_type == text "ed25519")
          (config (text "ssh.host_key_type must be ed25519"))
    _ ←
        ensure (c.ssh.proxy_policy == text "assets_only")
          (config (text "ssh.proxy_policy must be assets_only"))
    _ ←
        ensure (not (is_empty c.runtime.temp_dir))
          (config (text "runtime.temp_dir must not be empty"))
    ensure (not (is_empty (trim c.runtime.log_level)))
        (config (text "runtime.log_level must not be empty"))

  -- The guards of `validate`, in their order.
  unfoldable pub validate : HopConfig → Result (Unit {0})
  unfolding ssh_bind_addr check_api check_settings check_credential check_startup_asset
      check_access_key catalog_err validate_offline startup_manifest
  validate c = do
    _ ← ssh_bind_addr c
    _ ← check_api c
    _ ← check_settings c
    _ ← check_entries check_credential c.credentials
    _ ← check_entries check_startup_asset c.assets
    _ ← check_entries check_access_key c.access_keys
    catalog_err (validate_offline world (startup_manifest c))

  unfoldable pub resolve_path : Text → Text → Text
  resolve_path base path = if parsers.is_absolute path then path else parsers.join base path

  unfoldable pub resolve_key_file : Text → StartupAccessKeyConfig → StartupAccessKeyConfig
  unfolding resolve_path
  resolve_key_file base k = record k {
    public_key_file = option_map (resolve_path base) k.public_key_file;
  }

  unfoldable pub resolve_paths : Text → HopConfig → HopConfig
  unfolding resolve_path resolve_key_file
  resolve_paths base c = record c {
    data_dir = resolve_path base c.data_dir;
    runtime = record c.runtime { temp_dir = resolve_path base c.runtime.temp_dir };
    access_keys = map_values (resolve_key_file base) c.access_keys;
  }

  -- The last steps of `load`, on what was parsed or on the defaults.
  unfoldable pub finish_load : Text → HopConfig → Result HopConfig
  unfolding resolve_paths validate
  finish_load base c = do let resolved = resolve_paths base c; _ ← validate resolved; ok resolved
