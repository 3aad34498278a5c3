-- ===== src/Api/Handlers.antt =====
-- The handlers of control_api.rs on resources, sessions and known hosts. A handler runs from its
-- first step to its last on one server; a view reads the catalog that its step left.
use hop_rs.Prelude.{
  Bool, List, Option, Outcome, Text, [], ensure, err, false, if◌then◌else◌, is_empty, map, none,
  not, ok, some, strip_prefix, text, trim, true, unwrap_or, ℕ, ◌==◌,
}
use hop_rs.Errors.{AnyError, database, row_not_found}
use hop_rs.Models.{Credential, KnownHost, all, validate_tcp_port}
use hop_rs.Catalog.{Session}
use hop_rs.Bootstrap.Status.{status}
use hop_rs.Apply.Hashes.{as_bytes}
use hop_rs.Runtime.Keys.{
  add_authorized_key_with_access, set_authorized_key_active, set_authorized_key_access,
  delete_authorized_key,
}
use hop_rs.Runtime.Assets
use hop_rs.Runtime.Credentials
use hop_rs.Runtime.Sessions.{finish_session, list_sessions}
use hop_rs.Runtime.Listings.{
  list_authorized_keys, get_authorized_key_by_id, list_credentials, list_assets, get_asset_by_id,
  list_known_hosts,
}
use hop_rs.Ssh.Registry.{terminate, TerminateSessionResult, signaled, not_found}
use hop_rs.Ssh.Tofu.{delete_known_host}
use hop_rs.Local.{parse_public_key_line}
use hop_rs.Api.{
  ControlApiState, Context, AssetWriteRequest, written_asset, CredentialWriteRequest,
  AccessKeyCreateRequest, KnownHostResetRequest, access_scope,
}
use hop_rs.Api.Errors
use hop_rs.Api.Errors.{
  ApiResult, unauthorized, validation_error, from_core, Action, ◌>>=◌, ◌>>◌, answer, or_core,
  or_internal, or_catalog, ask, change,
}
use hop_rs.Api.Secrets.{build_credential}
use hop_rs.Api.Views.{
  AssetView, asset_view, CredentialView, credential_view, AccessKeyView, access_key_view,
}

pub record StatusResponse : Type 0 where
  pub catalog_revision : ℕ

pub record TerminateResponse : Type 0 where
  pub id : Text
  pub terminated : Bool

-- `ok_or_else(ApiError::not_found)`
unfoldable pub found {ℓ} : {A : Type ℓ} → Option A → Outcome Errors.ApiError A
unfolding Errors.not_found
found none = err Errors.not_found
found (some a) = ok a

module _ (c : Context) (state : ControlApiState) where
  -- The token of an Authorization header: the empty one where there is no Bearer token.
  unfoldable pub supplied_token : Option Text → Text
  unfolding strip_prefix
  supplied_token none = []
  supplied_token (some header) = unwrap_or [] (strip_prefix (text "Bearer ") header)

  -- `ct_eq` is equality, in constant time.
  unfoldable pub authenticate : Option Text → ApiResult (Unit {0})
  unfolding supplied_token as_bytes unauthorized
  authenticate header =
      ensure (state.token_hash == c.call.digests.sha256 (as_bytes (supplied_token header)))
        unauthorized

  unfoldable pub status_handler : Option Text → Action StatusResponse
  unfolding authenticate status or_catalog
  status_handler header = do
    answer (authenticate header)
    catalog ← ask (λ db. or_catalog (status db))
    answer (ok (record { catalog_revision = catalog.revision }))

  unfoldable pub revision_handler : Option Text → Action ℕ
  unfolding authenticate
  revision_handler header = do answer (authenticate header); ask (λ db. ok db.revision)

  unfoldable pub assets_handler : Option Text → Action (List AssetView)
  unfolding authenticate list_assets or_internal asset_view
  assets_handler header = do
    answer (authenticate header)
    assets ← ask (λ db. or_internal (list_assets c.codec db))
    ask (λ db. ok (map (asset_view db) assets))

  -- `get_asset_by_id(id)?.ok_or_else(ApiError::not_found)?` and its view.
  unfoldable pub shown_asset : Text → Action AssetView
  unfolding get_asset_by_id or_core found asset_view
  shown_asset id = do
    row ← ask (λ db. or_core (get_asset_by_id c.codec id db))
    asset ← answer (found row)
    ask (λ db. ok (asset_view db asset))

  -- `ok_or_else(row_not_found)?`: the row that an operation reads back after its commit.
  unfoldable pub read_back {ℓ} : {A : Type ℓ} → Option A → Outcome Errors.ApiError A
  unfolding from_core
  read_back none = err (from_core (database row_not_found))
  read_back (some a) = ok a

  unfoldable pub created_asset : Text → Action AssetView
  unfolding get_asset_by_id or_core read_back asset_view
  created_asset id = do
    row ← ask (λ db. or_core (get_asset_by_id c.codec id db))
    asset ← answer (read_back row)
    ask (λ db. ok (asset_view db asset))

  unfoldable pub create_asset_handler : AssetWriteRequest → Option Text → Action AssetView
  unfolding authenticate written_asset created_asset
  create_asset_handler request header = do
    answer (authenticate header)
    change (Assets.add_asset c.codec c.new_id c.call.now (written_asset request))
    created_asset c.new_id

  unfoldable pub update_asset_handler : Text → AssetWriteRequest → Option Text → Action AssetView
  unfolding authenticate written_asset shown_asset
  update_asset_handler id request header = do
    answer (authenticate header)
    change (Assets.update_asset c.codec id c.call.now (written_asset request))
    shown_asset id

  unfoldable pub delete_asset_handler : Text → Option Text → Action (Unit {0})
  unfolding authenticate
  delete_asset_handler id header = do answer (authenticate header); change (Assets.delete_asset id)

  unfoldable pub credentials_handler : Option Text → Action (List CredentialView)
  unfolding authenticate list_credentials credential_view
  credentials_handler header = do
    answer (authenticate header)
    ask (λ db. ok (map (credential_view db) (list_credentials db)))

  -- `get_credential(id)?.ok_or_else(ApiError::not_found)?`
  unfoldable pub existing_credential : Text → Action Credential
  unfolding found
  existing_credential id = ask (λ db. found (Credentials.get_credential id db))

  unfoldable pub shown_credential : Text → Action CredentialView
  unfolding existing_credential credential_view
  shown_credential id = do row ← existing_credential id; ask (λ db. ok (credential_view db row))

  unfoldable pub created_credential : Text → Action CredentialView
  unfolding read_back credential_view
  created_credential id = do
    row ← ask (λ db. read_back (Credentials.get_credential id db))
    ask (λ db. ok (credential_view db row))

  unfoldable pub create_credential_handler :
      CredentialWriteRequest → Option Text → Action CredentialView
  unfolding authenticate build_credential created_credential
  create_credential_handler request header = do
    answer (authenticate header)
    written ←
        answer
          (build_credential c.call.ciphers c.call.nonces state.master_key c.new_id request none)
    change (Credentials.add_credential c.new_id c.call.now written)
    created_credential c.new_id

  -- The rest of `update_credential`, once the credential is found.
  unfoldable pub write_credential :
      Text → CredentialWriteRequest → Credential → Action CredentialView
  unfolding build_credential shown_credential
  write_credential id request existing = do
    written ←
        answer (
          build_credential c.call.ciphers c.call.nonces state.master_key id request (some existing))
    change (Credentials.update_credential id c.call.now written)
    shown_credential id

  unfoldable pub update_credential_handler :
      Text → CredentialWriteRequest → Option Text → Action CredentialView
  unfolding authenticate existing_credential write_credential
  update_credential_handler id request header = do
    answer (authenticate header)
    existing ← existing_credential id
    write_credential id request existing

  unfoldable pub delete_credential_handler : Text → Option Text → Action (Unit {0})
  unfolding authenticate
  delete_credential_handler id header = do
    answer (authenticate header)
    change (Credentials.delete_credential id)

  unfoldable pub access_keys_handler : Option Text → Action (List AccessKeyView)
  unfolding authenticate list_authorized_keys or_internal access_key_view
  access_keys_handler header = do
    answer (authenticate header)
    keys ← ask (λ db. or_internal (list_authorized_keys db))
    ask (λ db. ok (map (access_key_view db) keys))

  unfoldable pub shown_access_key : Text → Action AccessKeyView
  unfolding get_authorized_key_by_id or_core found access_key_view
  shown_access_key id = do
    row ← ask (λ db. or_core (get_authorized_key_by_id id db))
    key ← answer (found row)
    ask (λ db. ok (access_key_view db key))

  unfoldable pub created_access_key : Text → Action AccessKeyView
  unfolding get_authorized_key_by_id or_core read_back access_key_view
  created_access_key id = do
    row ← ask (λ db. or_core (get_authorized_key_by_id id db))
    key ← answer (read_back row)
    ask (λ db. ok (access_key_view db key))

  -- `map_err(|_| …)`
  unfoldable pub valid_public_key {ℓ} :
      {A : Type ℓ} → Outcome AnyError A → Outcome Errors.ApiError A
  unfolding validation_error
  valid_public_key (ok a) = ok a
  valid_public_key (err e) =
      err (validation_error (text "public_key must be a valid OpenSSH public key"))

  unfoldable pub create_access_key_handler :
      AccessKeyCreateRequest → Option Text → Action AccessKeyView
  unfolding authenticate parse_public_key_line valid_public_key access_scope created_access_key
  create_access_key_handler request header = do
    answer (authenticate header)
    (public_key, fingerprint) ←
        answer (valid_public_key (parse_public_key_line c.call.world request.public_key))
    change (
        add_authorized_key_with_access c.new_id c.call.now
          (record {
            name = request.name;
            public_key = public_key;
            fingerprint = fingerprint;
            asset_access_mode = all;
          })
          (access_scope request.assets).0 (access_scope request.assets).1)
    created_access_key c.new_id

  unfoldable pub delete_access_key_handler : Text → Option Text → Action (Unit {0})
  unfolding authenticate
  delete_access_key_handler id header = do
    answer (authenticate header)
    change (delete_authorized_key id)

  unfoldable pub set_access_key_enabled_handler : Text → Bool → Option Text → Action AccessKeyView
  unfolding authenticate shown_access_key
  set_access_key_enabled_handler id enabled header = do
    answer (authenticate header)
    change (set_authorized_key_active id enabled)
    shown_access_key id

  unfoldable pub set_access_key_access_handler :
      Text → Option (List Text) → Option Text → Action AccessKeyView
  unfolding authenticate access_scope shown_access_key
  set_access_key_access_handler id assets header = do
    answer (authenticate header)
    change (set_authorized_key_access id (access_scope assets).0 (access_scope assets).1)
    shown_access_key id

  unfoldable pub sessions_handler : Option Text → Action (List Session)
  unfolding authenticate list_sessions
  sessions_handler header = do answer (authenticate header); ask (λ db. ok (list_sessions 100 db))

  unfoldable pub known_hosts_handler : Option Text → Action (List KnownHost)
  unfolding authenticate list_known_hosts
  known_hosts_handler header = do answer (authenticate header); ask (λ db. ok (list_known_hosts db))

  -- The checks of `reset_known_host`, in their order.
  unfoldable pub check_reset : KnownHostResetRequest → ApiResult (Unit {0})
  unfolding validation_error trim validate_tcp_port from_core
  check_reset r =
      if not r.confirm_reset
      then err (validation_error (text "confirm_reset must be true to reset known-host trust"))
      else if is_empty (trim r.hostname)
      then err (validation_error (text "hostname must not be empty"))
      else if is_empty (trim r.key_type)
      then err (validation_error (text "key_type must not be empty"))
      else elim (validate_tcp_port r.port) [ ok port ↦ ok tt | err e ↦ err (from_core e) ]

  -- `delete_known_host`, and whether it deleted.
  unfoldable pub forget_host : KnownHostResetRequest → Action (Unit {0})
  unfolding delete_known_host trim Errors.not_found
  forget_host r s =
      let (deleted, after) =
        delete_known_host (trim r.hostname) r.port (trim r.key_type) s.catalog in
      (if deleted then ok tt else err Errors.not_found, record s { catalog = after })

  unfoldable pub reset_known_host_handler : KnownHostResetRequest → Option Text → Action (Unit {0})
  unfolding authenticate check_reset forget_host
  reset_known_host_handler request header = do
    answer (authenticate header)
    answer (check_reset request)
    forget_host request

  -- What follows a `terminate` that gave this result.
  unfoldable pub finish_terminated : Text → TerminateSessionResult → Action TerminateResponse
  unfolding finish_session
  finish_terminated id signaled s = (
    ok (record { id = id; terminated = true }),
    record s {
      catalog =
          finish_session c.call.now id (text "terminated") (some (text "terminated by control API"))
            s.catalog;
    },
  )
  finish_terminated id not_found s = (ok (record { id = id; terminated = false }), s)

  unfoldable pub signal_session : Text → Action TerminateSessionResult
  unfolding terminate
  signal_session id s =
      let (result, after, told) = terminate id s.active_sessions s.active_sessions s.channels in
      (ok result, record s { active_sessions = after; channels = told })

  unfoldable pub terminate_session_handler : Text → Option Text → Action TerminateResponse
  unfolding authenticate signal_session finish_terminated
  terminate_session_handler id header = do
    answer (authenticate header)
    result ← signal_session id
    finish_terminated id result
