-- ===== src/Api/Router.antt =====
-- `router` of control_api.rs: a request is the route and the method, with what the extractors read
-- of the path and the body. The answer keeps what a handler gives, by its kind.
use hop_rs.Prelude.{Bool, List, Option, Text, err, ok, ℕ}
use hop_rs.Models.{KnownHost}
use hop_rs.Catalog.{Session}
use hop_rs.Apply.Run.{ApplySummary}
use hop_rs.Api.{
  ControlApiState, Context, AssetWriteRequest, CredentialWriteRequest, AccessKeyCreateRequest,
  KnownHostResetRequest, ValidateRequest, DiffRequest, ApplyRequest,
}
use hop_rs.Api.Errors.{Action}
use hop_rs.Api.Views.{AssetView, CredentialView, AccessKeyView}
use hop_rs.Api.Handlers.{
  StatusResponse, TerminateResponse, status_handler, revision_handler, assets_handler,
  create_asset_handler, update_asset_handler, delete_asset_handler, credentials_handler,
  create_credential_handler, update_credential_handler, delete_credential_handler,
  access_keys_handler, create_access_key_handler, delete_access_key_handler,
  set_access_key_enabled_handler, set_access_key_access_handler, sessions_handler,
  known_hosts_handler, reset_known_host_handler, terminate_session_handler,
}
use hop_rs.Api.Configuration.{ValidationResponse, validate_handler, diff_handler, apply_handler}

pub data Request : Type 0 where
  get_status get_revision get_assets get_credentials get_access_keys : Request
  get_sessions get_known_hosts : Request
  post_asset : AssetWriteRequest → Request
  put_asset : Text → AssetWriteRequest → Request
  delete_asset_at : Text → Request
  post_credential : CredentialWriteRequest → Request
  put_credential : Text → CredentialWriteRequest → Request
  delete_credential_at : Text → Request
  post_access_key : AccessKeyCreateRequest → Request
  delete_access_key_at : Text → Request
  put_enabled : Text → Bool → Request
  put_access : Text → Option (List Text) → Request
  post_terminate : Text → Request
  delete_known_host_at : KnownHostResetRequest → Request
  post_validate : ValidateRequest → Request
  post_diff : DiffRequest → Request
  post_apply : ApplyRequest → Request

pub data Response : Type 0 where
  status_body : StatusResponse → Response
  revision_body : ℕ → Response
  assets_body : List AssetView → Response
  asset_body : AssetView → Response
  created_asset_body : AssetView → Response
  credentials_body : List CredentialView → Response
  credential_body : CredentialView → Response
  created_credential_body : CredentialView → Response
  access_keys_body : List AccessKeyView → Response
  access_key_body : AccessKeyView → Response
  created_access_key_body : AccessKeyView → Response
  sessions_body : List Session → Response
  known_hosts_body : List KnownHost → Response
  terminate_body : TerminateResponse → Response
  validation_body : ValidationResponse → Response
  summary_body : ApplySummary → Response
  no_content : Response

-- A handler's answer, as a response.
abbrev pub respond : {A : Type 0} → (A → Response) → Action A → Action Response
respond body handler s =
    let (r, after) = handler s in (elim r [ ok a ↦ ok (body a) | err e ↦ err e ], after)

unfoldable pub handle : Context → ControlApiState → Request → Option Text → Action Response
handle c st get_status h = respond status_body (status_handler c st h)
handle c st get_revision h = respond revision_body (revision_handler c st h)
handle c st get_assets h = respond assets_body (assets_handler c st h)
handle c st get_credentials h = respond credentials_body (credentials_handler c st h)
handle c st get_access_keys h = respond access_keys_body (access_keys_handler c st h)
handle c st get_sessions h = respond sessions_body (sessions_handler c st h)
handle c st get_known_hosts h = respond known_hosts_body (known_hosts_handler c st h)
handle c st (post_asset r) h = respond created_asset_body (create_asset_handler c st r h)
handle c st (put_asset id r) h = respond asset_body (update_asset_handler c st id r h)
handle c st (delete_asset_at id) h = respond (λ done. no_content) (delete_asset_handler c st id h)
handle c st (post_credential r) h =
    respond created_credential_body (create_credential_handler c st r h)
handle c st (put_credential id r) h =
    respond credential_body (update_credential_handler c st id r h)
handle c st (delete_credential_at id) h =
    respond (λ done. no_content) (delete_credential_handler c st id h)
handle c st (post_access_key r) h =
    respond created_access_key_body (create_access_key_handler c st r h)
handle c st (delete_access_key_at id) h =
    respond (λ done. no_content) (delete_access_key_handler c st id h)
handle c st (put_enabled id enabled) h =
    respond access_key_body (set_access_key_enabled_handler c st id enabled h)
handle c st (put_access id assets) h =
    respond access_key_body (set_access_key_access_handler c st id assets h)
handle c st (post_terminate id) h = respond terminate_body (terminate_session_handler c st id h)
handle c st (delete_known_host_at r) h =
    respond (λ done. no_content) (reset_known_host_handler c st r h)
handle c st (post_validate r) h = respond validation_body (validate_handler c st r h)
handle c st (post_diff r) h = respond summary_body (diff_handler c st r h)
handle c st (post_apply r) h = respond summary_body (apply_handler c st r h)
