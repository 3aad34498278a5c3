-- ===== src/Tests/Proxies.antt =====
-- The theorems on forwarded connections at concrete inputs.
use hop_rs.Prelude.{List, [], length, none, ok, refl, some, text, ℕ, ◌++◌, ◌+◌, ◌==◌, ◌∷◌, ◌≡◌, ◌⊎◌}
use hop_rs.Prelude.Map.{lookup}
use hop_rs.Catalog.{Session}
use hop_rs.Runtime.Sessions.{get_session}
use hop_rs.Ssh.Ingress.{AuthInfo}
use hop_rs.Ssh.Proxy.{
  client_peer, target_peer, write_operation, RelayRound, copied, write_failed, Relayed, relay_copy,
}
use hop_rs.Ssh.Proxy.Bridge.{TcpRun, connected, relay_ended, Forwarding, bridge_direct_tcpip}
use hop_rs.Ssh.Proxy.Laws.{
  input_of, unfinished, counted, failed_at, relay_copy_lem, bridge_direct_tcpip-ends,
}
use hop_rs.Tests.{sample, web_asset}

abbrev broken : List RelayRound
broken = copied (1 ∷ 2 ∷ []) ∷ copied (3 ∷ []) ∷ write_failed (4 ∷ []) 5 [] (text "reset") ∷ []

abbrev relayed : Relayed
relayed = relay_copy client_peer target_peer 0 0 broken

relay_copy_lem_example :
    (relayed.total_written ≡ counted relayed.result)
    × (counted relayed.result + length (unfinished broken) ≡ length relayed.delivered)
    × (rest : List ℕ) × (input_of broken ≡ relayed.delivered ++ rest)
    × (((rest ≡ []) × (unfinished broken ≡ []))
        ⊎ (failed_at relayed.result ≡ some (target_peer, write_operation)))
relay_copy_lem_example = relay_copy_lem client_peer target_peer broken

abbrev alice_auth : AuthInfo
alice_auth = record { key_id = text "k1"; fingerprint = text "SHA256:a"; name = text "alice" }

abbrev idle : Forwarding
idle = record { catalog = sample; active_sessions = record { inner = [] }; health = [] }

abbrev quiet : TcpRun
quiet = connected 12 (relay_ended (ok 3) 3 0)

bridge_direct_tcpip-ends_example :
    let (result, after) =
      bridge_direct_tcpip
        (text "s1")
        (text "t0")
        (text "t1")
        7
        alice_auth
        web_asset
        none
        quiet
        idle in
    (lookup (text "s1") after.active_sessions.inner ≡ none)
    × (row : Session) × (get_session (text "s1") after.catalog ≡ some row)
    × (row.ended_at ≡ some (text "t1"))
    × ((result ≡ ok tt) ⊎ (row.status ≡ text "failed"))
unfolding hop_rs.Runtime.Access.key_can_access_asset hop_rs.Prelude.◌==◌ text
bridge_direct_tcpip-ends_example =
    bridge_direct_tcpip-ends (text "s1") (text "t0") (text "t1") 7 alice_auth web_asset none quiet
      idle refl refl
