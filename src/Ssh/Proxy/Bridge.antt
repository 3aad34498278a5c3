-- ===== src/Ssh/Proxy/Bridge.antt =====
-- `bridge_direct_tcpip` of ssh/proxy.rs: the session of a forwarded connection from its start to
-- its end. What happens on the network meanwhile is the argument `TcpRun`.
use hop_rs.Prelude.{
  Bool, List, Option, Outcome, Text, decimal, err, false, if◌then◌else◌, none, not, ok, some, text,
  true, ℕ, ◌++◌,
}
use hop_rs.Prelude.Int.{pos}
use hop_rs.Errors.{Result}
use hop_rs.Models.{Asset, validate_tcp_port}
use hop_rs.Catalog.{Database}
use hop_rs.Runtime.Access.{key_can_access_asset}
use hop_rs.Runtime.Sessions.{start_session, finish_session}
use hop_rs.Ssh.Registry.{Sender, Registry, register, unregister}
use hop_rs.Ssh.Ingress.{
  AuthInfo, ServerError, catalog_error, refused, authorization_denied, audit_denied_attempt,
}
use hop_rs.Ssh.Proxy.{
  RelayIoError, relay_error_message, AssetHealth, record_asset_health_success,
  record_asset_health_failure, health_error_message,
}

-- What ends the relay: the request to terminate, or one of the directions, with the bytes that both
-- have moved.
pub data RelayEnd : Type 0 where
  relay_signaled : RelayEnd
  relay_ended : Outcome RelayIoError ℕ → ℕ → ℕ → RelayEnd

-- What the network does: a request to terminate before the target answers, no connection, or one
-- after so many milliseconds and then a relay.
pub data TcpRun : Type 0 where
  signaled_early : TcpRun
  connect_failed : Text → TcpRun
  connected : ℕ → RelayEnd → TcpRun

-- What the bridge changes.
pub record Forwarding : Type 0 where
  pub catalog : Database
  pub active_sessions : Registry
  pub health : List AssetHealth

-- `terminated`, and the result of the block.
abbrev pub TcpEnd : Type 0
TcpEnd = Bool × Outcome Text (Unit {0})

unfoldable pub relay_result : RelayEnd → TcpEnd
unfolding relay_error_message
relay_result relay_signaled = (true, ok tt)
relay_result (relay_ended (ok written) to_target to_client) = (false, ok tt)
relay_result (relay_ended (err e) to_target to_client) =
    (false, err (relay_error_message e to_target to_client))

-- `let _ = db.record_asset_health_…`
unfoldable pub noted_health : Result (List AssetHealth) → List AssetHealth → List AssetHealth
noted_health (ok after) before = after
noted_health (err e) before = before

-- The block between the start of the session and its end.
unfoldable pub run_tcp :
    Text → Asset → TcpRun → Database → List AssetHealth → TcpEnd × List AssetHealth
unfolding validate_tcp_port relay_result noted_health record_asset_health_success
    record_asset_health_failure health_error_message decimal
run_tcp now asset run db health = elim (validate_tcp_port (pos asset.port)) [
  | err e ↦ ((false, err (text "validation error: tcp port must be between 1 and 65535")), health)
  | ok port ↦ elim run [
    | signaled_early ↦ ((true, ok tt), health)
    | connect_failed e ↦ (
      (false, err (text "connect " ++ (asset.hostname ++ (text ":" ++ decimal asset.port)))),
      noted_health
          (record_asset_health_failure now asset.id (some (text "tcp_connect_failed"))
            (some (health_error_message e)) db health)
          health,
    )
    | connected latency_ms relay ↦ (
      relay_result relay,
      noted_health (record_asset_health_success now asset.id (some latency_ms) db health) health,
    )
  ]
]

-- The end that is written for the session.
unfoldable pub finish_tcp : Text → Text → TcpEnd → Database → Database
unfolding finish_session
finish_tcp now id (true, result) =
    finish_session now id (text "terminated") (some (text "terminated by management request"))
finish_tcp now id (false, ok done) = finish_session now id (text "ok") none
finish_tcp now id (false, err e) = finish_session now id (text "failed") (some e)

unfoldable pub tcp_result : TcpEnd → Outcome ServerError (Unit {0})
tcp_result (terminated, ok done) = ok tt
tcp_result (terminated, err e) = err (refused e)

-- `fresh` is the id of the session or of the audit of a refusal, and `sender` its channel.
unfoldable pub bridge_direct_tcpip :
    Text
    → Text
    → Text
    → Sender
    → AuthInfo
    → Asset
    → Option Text
    → TcpRun
    → Forwarding
    → Outcome ServerError (Unit {0}) × Forwarding
unfolding key_can_access_asset audit_denied_attempt authorization_denied start_session register
    unregister run_tcp finish_tcp tcp_result
bridge_direct_tcpip fresh now ended sender auth asset client_ip run s =
    if not (key_can_access_asset auth.key_id asset.id s.catalog)
    then (
      err (refused authorization_denied),
      record s {
        catalog =
            audit_denied_attempt fresh now auth (text "tcp-forward") (some asset.name)
              (some asset.hostname) (some (pos asset.port)) client_ip s.catalog;
      },
    )
    else elim (start_session fresh now
        (record {
          key_finger = auth.fingerprint;
          key_name = some auth.name;
          mode = text "tcp-forward";
          asset_name = some asset.name;
          target_host = some asset.hostname;
          target_port = some (pos asset.port);
          client_ip = client_ip;
        })
        s.catalog) [
          | err e ↦ (err (catalog_error e), s)
          | ok (session, started) ↦
              let registered = register session.id sender s.active_sessions in
              let (end, health) = run_tcp ended asset run started s.health in
              (
                tcp_result end,
                record {
                  catalog = finish_tcp ended session.id end started;
                  active_sessions = unregister session.id registered;
                  health = health;
                },
              )
        ]
