-- ===== src/Tests/Apis.antt =====
-- The theorems on the management interface at concrete inputs.
use hop_rs.Prelude.{
  Option, Text, [], err, false, if◌then◌else◌, is_empty, is_some, none, not, ok, option_map, refl,
  some, text, trim, true, ◌&&◌, ◌==◌, ◌↔◌, ◌∷◌, ◌≡◌, ◌⊎◌,
}
use hop_rs.Prelude.Int.{pos}
use hop_rs.Models.{Credential}
use hop_rs.Models
use hop_rs.Manifest.{CatalogError}
use hop_rs.Catalog.{Session, asset}
use hop_rs.Runtime.Credentials.{get_credential}
use hop_rs.Runtime.Sessions.{get_session}
use hop_rs.Runtime.Laws.Finished.{ended_row}
use hop_rs.Ssh.Registry.{reached, with_request}
use hop_rs.Prelude.Map.{lookup}
use hop_rs.Bootstrap.Noted.{NotesFailure}
use hop_rs.Target.{password_login, login_of}
use hop_rs.Apply.Hashes.{as_bytes}
use hop_rs.Api.{
  ControlApiState, Server, Context, yaml, ApplyRequest, CredentialWriteRequest, password,
  new_control_api_state,
}
use hop_rs.Api.Errors.{unauthorized}
use hop_rs.Api.Views.{CredentialView}
use hop_rs.Api.Handlers.{
  authenticate, supplied_token, create_credential_handler, terminate_session_handler,
}
use hop_rs.Api.Configuration.{apply_handler, apply_payload}
use hop_rs.Api.Secrets.{build_credential}
use hop_rs.Api.Router
use hop_rs.Api.Laws.Auth.{handle_authenticated}
use hop_rs.Api.Laws.Managed.{FailsUnchanged, handle_managed}
use hop_rs.Api.Laws.Created.{create_credential-login_of}
use hop_rs.Api.Laws.Kept.{build_credential-keeps}
use hop_rs.Api.Laws.Applies.{apply_handler-refused}
use hop_rs.Api.Laws.Sessions.{terminate_session_handler-ends}
use hop_rs.Tests.{no_tags, sample}
use hop_rs.Tests.Envelopes.{open_ciphers, open_codec, open_cipher, zero_key, value_or}
use hop_rs.Tests.Applies.{call, manifest}

abbrev service : Context
service = record {
  codec = no_tags;
  call = call;
  new_id = text "c9";
  failure_id = text "e9";
  from_yaml = λ content. ok manifest;
  from_toml = λ content. ok manifest;
}

abbrev api : ControlApiState
api = record { master_key = zero_key; token_hash = as_bytes (text "t0k") }

abbrev session : Session
session = record {
  id = text "s1";
  key_finger = text "SHA256:a";
  key_name = some (text "alice");
  mode = text "tui";
  asset_name = none;
  target_host = none;
  target_port = none;
  client_ip = none;
  status = text "active";
  error = none;
  started_at = some (text "2024-01-01");
  ended_at = none;
}

abbrev server : Server
server = record {
  catalog = record sample { sessions = session ∷ [] };
  active_sessions = record { inner = (text "s1", 7) ∷ [] };
  channels = record { alive = λ sender. true; sent = [] };
}

abbrev bearer : Option Text
bearer = some (text "Bearer t0k")

handle_authenticated_example :
    ((authenticate service api none ≡ ok tt)
      ↔ (as_bytes (trim (text " t0k")) ≡ as_bytes (supplied_token service api none)))
    × ((as_bytes (trim (text " t0k")) ≡ as_bytes (supplied_token service api none))
        ⊎ (Router.handle service api Router.get_revision none server ≡ (err unauthorized, server)))
unfolding new_control_api_state hop_rs.Prelude.is_empty trim text
handle_authenticated_example =
    handle_authenticated service zero_key (text " t0k") api Router.get_revision none server refl

handle_managed_example :
    FailsUnchanged server
      (Router.handle service api (Router.delete_asset_at (text "a2")) bearer server)
unfolding hop_rs.Runtime.resource_ownership hop_rs.Catalog.same_type hop_rs.Prelude.◌==◌ text
handle_managed_example =
    handle_managed service api (Router.delete_asset_at (text "a2")) bearer server asset (text "a2")
      refl refl

abbrev request : CredentialWriteRequest
request = record {
  name = text "root";
  username = text "root";
  auth_type = password;
  password = some (text "secret");
  private_key = none;
  passphrase = none;
}

abbrev with_credential : CredentialView × Server
with_credential =
    let (answered, after) = create_credential_handler service api request bearer server in
    (
      value_or
          (record {
            id = [];
            name = [];
            username = [];
            auth_type = [];
            password = hop_rs.Api.Views.missing;
            private_key = hop_rs.Api.Views.missing;
            passphrase = hop_rs.Api.Views.missing;
            ownership = hop_rs.Runtime.local_resource;
          })
          answered,
      after,
    )

create_credential-login_of_example :
    (row : Credential) × (get_credential (text "c9") with_credential.1.catalog ≡ some row)
    × (login_of open_ciphers zero_key call.world row
        ≡ ok (password_login (text "root") (text "secret")))
unfolding text hop_rs.Prelude.Utf8.is_scalar create_credential_handler hop_rs.Prelude.◌==◌
    hop_rs.Runtime.Credentials.add_credential Models.has_secret hop_rs.Prelude.is_empty trim
    hop_rs.Envelope.envelope_version hop_rs.Envelope.envelope_alg hop_rs.Catalog.same_type
    get_credential
create_credential-login_of_example =
    create_credential-login_of service api request bearer server with_credential.1 with_credential.0
      (password_login (text "root") (text "secret")) open_codec open_cipher (λ at. refl)
      (refl, refl, refl, refl) tt refl

abbrev stale : ApplyRequest
stale = record {
  manifest = record { content = text ""; format = yaml };
  source_id = text "hop-yaml";
  base_revision = pos 2;
  prune = false;
  dry_run = false;
}

abbrev after_stale : Server
after_stale = (apply_handler service api stale bearer server).1

abbrev behind : CatalogError
behind = hop_rs.Apply.Run.conflict (pos 2) 3

apply_handler-refused_example :
    (after_stale.active_sessions ≡ server.active_sessions)
    × ((after_stale.catalog ≡ server.catalog)
        ⊎ ((x : CatalogError) × (stale.dry_run ≡ false)
            × (apply_payload service api stale server.catalog ≡ err x)
            × (hop_rs.Api.Errors.from_catalog behind ≡ hop_rs.Api.Errors.from_catalog x)
            × NotesFailure call.now stale.source_id
                (text "api")
                x
                server.catalog
                after_stale.catalog))
unfolding apply_handler hop_rs.Prelude.◌==◌ text hop_rs.Apply.Run.apply
apply_handler-refused_example =
    apply_handler-refused service api stale bearer server after_stale
      (hop_rs.Api.Errors.from_catalog behind) refl

terminate_session_handler-ends_example :
    let (response, after) = terminate_session_handler service api (text "s1") bearer server in
    let told = reached (text "s1") server.active_sessions server.channels in
    (response ≡ ok (record { id = text "s1"; terminated = is_some told }))
    × (after.channels.sent ≡ with_request told server.channels.sent)
    × (get_session (text "s1") after.catalog ≡ (
        if is_some told && text "s1" == text "s1"
        then option_map
            (ended_row call.now (text "terminated") (some (text "terminated by control API")))
            (get_session (text "s1") server.catalog)
        else get_session (text "s1") server.catalog))
    × (lookup (text "s1") after.active_sessions.inner ≡ (
        if is_some (lookup (text "s1") server.active_sessions.inner)
          && not (is_some told)
          && text "s1" == text "s1"
        then none
        else lookup (text "s1") server.active_sessions.inner))
unfolding authenticate hop_rs.Prelude.◌==◌ text
terminate_session_handler-ends_example =
    terminate_session_handler-ends service api (text "s1") (text "s1") bearer server refl

abbrev stored : Credential
stored = record {
  id = text "c1";
  name = text "root";
  username = text "root";
  auth_type = text "password";
  password_enc = some (text "v1:sealed");
  private_key_enc = some (text "v1:unasked");
  passphrase_enc = none;
  created_at = none;
}

abbrev renaming : CredentialWriteRequest
renaming = record request { name = text "admin"; password = none }

build_credential-keeps_example :
    build_credential open_ciphers call.nonces zero_key (text "c1") renaming (some stored)
    ≡ ok (record {
      id = some (text "c1");
      name = text "admin";
      username = text "root";
      auth_type = Models.AuthType.password;
      password_enc = some (text "v1:sealed");
      private_key_enc = none;
      passphrase_enc = none;
    })
unfolding hop_rs.Api.auth_type_of Models.auth_type_as_str
build_credential-keeps_example =
    build_credential-keeps open_ciphers call.nonces zero_key (text "c1") renaming stored refl refl
      refl refl
