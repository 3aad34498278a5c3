-- ===== src/Manifest/Resolve.antt =====
-- `Manifest::resolve_material`: every specification is checked and its secrets are read.
use hop_rs.Prelude.{
  Bool, List, Option, Text, [], decimal, ensure, err, false, if◌then◌else◌, is_empty, is_some,
  is_whitespace, ltb, none, not, ok, ok_or, option_map, some, text, transpose, trim, true,
  unwrap_or, ℕ, ◌&&◌, ◌++◌, ◌+◌, ◌==◌, ◌>>=◌, ◌>>◌, ◌||◌, ◌∷◌,
}
use hop_rs.Prelude.Map.{Map, insert, contains, insert_name}
use hop_rs.Manifest.{
  unsupported_api_version, duplicate_resource, invalid_secret_source, secret_unavailable,
  apply_failed, CatalogResult, fail, present, absent, CredentialType, password, ssh_key, AssetType,
  ssh, tcp, SecretSource, CredentialSpec, AssetSpec, AccessSpec, Manifest, PresentCredential,
  PresentAsset, PresentAccess, Resolved, absent_resource, present_resource, ResolvedManifest,
  manifest_api_version, Environment,
}
use hop_rs.Manifest.Names.{
  missing_field, invalid_material, validate_name, optional_name, trim_optional, required_text,
  require_absent_only,
}

-- `str::split_whitespace`, with the word that is being read.
words_onto : Text → Text → List Text
words_onto [] [] = []
words_onto (w ∷ word) [] = (w ∷ word) ∷ []
words_onto word (c ∷ s) =
    let skip = words_onto [] s in
    let cut = word ∷ words_onto [] s in
    let grow = words_onto (word ++ (c ∷ [])) s in
    if is_whitespace c then (if is_empty word then skip else cut) else grow

unfoldable pub split_whitespace : Text → List Text
unfolding words_onto is_whitespace is_empty
split_whitespace s = words_onto [] s

-- `spec.port.filter(|port| *port > 0)`
unfoldable pub positive_port : Option ℕ → Option ℕ
positive_port none = none
positive_port (some p) = if ltb 0 p then some p else none

unfoldable pub is_tcp : AssetType → Bool
is_tcp tcp = true
is_tcp ssh = false

-- The loop over an allowlist, with the index and the names that were seen.
normalize_from : Text → ℕ → List Text → List Text → CatalogResult (List Text)
normalize_from path index seen [] = ok []
normalize_from path index seen (name ∷ names) = do
  let here = path ++ (text ".assets." ++ decimal index)
  validate_name name here
  ensure (not (contains name seen)) (record {
    code = duplicate_resource;
    path = some here;
    message = text "asset appears more than once in the allowlist";
  })
  rest ← normalize_from path (index + 1) (insert_name name seen) names
  ok (name ∷ rest)

unfoldable pub normalized_assets : Text → List Text → CatalogResult (List Text)
unfolding normalize_from
normalized_assets path names = normalize_from path 0 [] names

module _ (world : Environment) where
  source_fields : Text → Option Text → Option Text → Option Text → CatalogResult Text
  source_fields path (some file) none none = ok_or (world.read_to_string file) (record {
    code = secret_unavailable;
    path = some path;
    message = text "unable to read secret file " ++ file;
  })
  source_fields path none (some variable) none =
      if not (is_empty (trim variable))
      then ok_or (world.env_var variable) (record {
        code = secret_unavailable;
        path = some path;
        message = text "secret environment variable " ++ (variable ++ text " is unavailable");
      })
      else fail invalid_secret_source (some path)
          (text "secret source must set exactly one of file or env")
  source_fields path none none (some value) = ok value
  source_fields path _ _ _ =
      fail invalid_secret_source (some path)
        (text "secret source must set exactly one of file or env")

  -- `SecretSource::read`
  unfoldable pub read_source : SecretSource → Text → CatalogResult Text
  unfolding source_fields
  read_source s path = source_fields path s.file s.env s.inline

  password_material : CredentialSpec → Text → CatalogResult Text
  password_material spec path = do
    ensure (not (is_some spec.private_key || is_some spec.passphrase)) (
        invalid_material path (text "password credential cannot contain private_key or passphrase"))
    source ←
        ok_or spec.password
          (missing_field (path ++ text ".password") (text "password source is required"))
    value ← read_source source (path ++ text ".password")
    ensure (not (is_empty value))
        (invalid_material (path ++ text ".password") (text "password material must not be empty"))
    ok value

  key_material : CredentialSpec → Text → CatalogResult (Text × Option Text)
  key_material spec path = do
    ensure (not (is_some spec.password))
        (invalid_material path (text "ssh_key credential cannot contain password"))
    passphrase ←
        transpose (option_map (λ s. read_source s (path ++ text ".passphrase")) spec.passphrase)
    source ←
        ok_or spec.private_key
          (missing_field (path ++ text ".private_key") (text "private key source is required"))
    private_key ← read_source source (path ++ text ".private_key")
    ensure (world.decode_secret_key private_key passphrase) (
        invalid_material (path ++ text ".private_key")
          (text "private key material is invalid or its passphrase is incorrect"))
    ok (private_key, passphrase)

  typed_credential :
      CredentialType → CredentialSpec → Text → Text → CatalogResult (Resolved PresentCredential)
  unfolding password_material key_material
  typed_credential password spec username path = do
    value ← password_material spec path
    ok (
        present_resource (record {
          credential_type = password;
          username = username;
          password = some value;
          private_key = none;
          passphrase = none;
        }))
  typed_credential ssh_key spec username path = do
    (private_key, passphrase) ← key_material spec path
    ok (
        present_resource (record {
          credential_type = ssh_key;
          username = username;
          password = none;
          private_key = some private_key;
          passphrase = passphrase;
        }))

  present_credential : CredentialSpec → Text → CatalogResult (Resolved PresentCredential)
  unfolding typed_credential
  present_credential spec path = do
    type ←
        ok_or spec.credential_type
          (missing_field (path ++ text ".type") (text "credential type is required"))
    username ← required_text spec.username (path ++ text ".username")
    typed_credential type spec username path

  unfoldable pub resolve_credential :
      CredentialSpec → Text → CatalogResult (Resolved PresentCredential)
  unfolding present_credential require_absent_only
  resolve_credential spec path = elim spec.state [
    | absent ↦ do
      require_absent_only path (
          is_some spec.credential_type
          ∷ is_some spec.username
          ∷ is_some spec.password
          ∷ is_some spec.private_key
          ∷ is_some spec.passphrase
          ∷ [])
      ok absent_resource
    | present ↦ present_credential spec path
  ]

  unfoldable pub resolve_asset : AssetSpec → Text → CatalogResult (Resolved PresentAsset)
  unfolding require_absent_only
  resolve_asset spec path = elim spec.state [
    | absent ↦ do
      require_absent_only path (
          is_some spec.asset_type
          ∷ is_some spec.host
          ∷ is_some spec.port
          ∷ is_some spec.display_name
          ∷ is_some spec.description
          ∷ is_some spec.credential
          ∷ [])
      ok absent_resource
    | present ↦ do
      type ←
          ok_or spec.asset_type
            (missing_field (path ++ text ".type") (text "asset type is required"))
      host ← required_text spec.host (path ++ text ".host")
      port ←
          ok_or (positive_port spec.port)
            (missing_field (path ++ text ".port") (text "port must be between 1 and 65535"))
      credential ← optional_name spec.credential (path ++ text ".credential")
      ensure (not (is_tcp type && is_some credential)) (record {
        code = apply_failed;
        path = some (path ++ text ".credential");
        message = text "tcp asset cannot reference an ssh credential";
      })
      ok (
          present_resource (record {
            asset_type = type;
            host = host;
            port = port;
            display_name = trim_optional spec.display_name;
            description = trim_optional spec.description;
            credential = credential;
          }))
  ]

  -- `parse_public_key`: the type word and the key, in OpenSSH's format.
  public_key_words : List Text → Text → CatalogResult (Text × Text)
  public_key_words (key_type ∷ key_blob ∷ rest) path = do
    key ←
        ok_or (world.parse_public_key_base64 key_blob)
          (invalid_material path (text "public key material is invalid"))
    ensure (key.algorithm == key_type)
        (invalid_material path (text "public key type does not match its encoded material"))
    ok (key_type ++ (text " " ++ key.public_key_base64), key.fingerprint)
  public_key_words _ path =
      err (invalid_material path (text "public key must use OpenSSH '<type> <base64>' format"))

  unfoldable pub parse_public_key : Text → Text → CatalogResult (Text × Text)
  unfolding public_key_words
  parse_public_key value path = public_key_words (split_whitespace value) path

  unfoldable pub resolve_access : AccessSpec → Text → CatalogResult (Resolved PresentAccess)
  unfolding require_absent_only
  resolve_access spec path = elim spec.state [
    | absent ↦ do
      require_absent_only path
          (is_some spec.public_key ∷ is_some spec.enabled ∷ is_some spec.assets ∷ [])
      ok absent_resource
    | present ↦ do
      source ←
          ok_or spec.public_key
            (missing_field (path ++ text ".public_key") (text "public key source is required"))
      key_text ← read_source source (path ++ text ".public_key")
      (public_key, fingerprint) ← parse_public_key key_text (path ++ text ".public_key")
      assets ← transpose (option_map (normalized_assets path) spec.assets)
      ok (
          present_resource (record {
            public_key = public_key;
            fingerprint = fingerprint;
            enabled = unwrap_or true spec.enabled;
            assets = assets;
          }))
  ]

  -- One of the three loops of `resolve_material`: `prefix` is "credentials.", "assets." or "access.".
  resolve_all :
      {V W : Type 0} → (V → Text → CatalogResult W) → Text → Map V → Map W → CatalogResult (Map W)
  resolve_all resolve prefix [] out = ok out
  resolve_all resolve prefix ((name, spec) ∷ rest) out = do
    validate_name name (prefix ++ name)
    value ← resolve spec (prefix ++ name)
    resolve_all resolve prefix rest (insert name value out)

  unfoldable pub resolve_material : Manifest → CatalogResult ResolvedManifest
  unfolding resolve_all resolve_credential resolve_asset resolve_access
  resolve_material m = do
    ensure (m.api_version == manifest_api_version) (record {
      code = unsupported_api_version;
      path = some (text "api_version");
      message = text "unsupported api_version; expected " ++ manifest_api_version;
    })
    credentials ← resolve_all resolve_credential (text "credentials.") m.credentials []
    assets ← resolve_all resolve_asset (text "assets.") m.assets []
    access ← resolve_all resolve_access (text "access.") m.access []
    ok (record { credentials = credentials; assets = assets; access = access })
