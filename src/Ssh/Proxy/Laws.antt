-- ===== src/Ssh/Proxy/Laws.antt =====
-- Proofs about the forwarding of a connection.
use hop_rs.Prelude.{
  List, Option, Outcome, Outcome-cases, Text, [], any, ap, append_assoc, arith, eq_refl, err, false,
  inl, inr, length, length-append, none, ok, refl, some, sym, text, true, ℕ, ◌++◌, ◌+◌, ◌==◌, ◌∙◌,
  ◌∷◌, ◌≡◌, ◌⊎◌,
}
use hop_rs.Prelude.Map.{lookup, lookup-remove}
use hop_rs.Prelude.Int.{pos}
use hop_rs.Models.{Asset, validate_tcp_port}
use hop_rs.Catalog.{Session, Database}
use hop_rs.Runtime.Access.{key_can_access_asset}
use hop_rs.Runtime.Sessions.{NewSession, session_row, start_session, get_session}
use hop_rs.Runtime.Laws.Finished.{get-finish_session}
use hop_rs.Ssh.Registry.{Sender, register, unregister}
use hop_rs.Ssh.Ingress.{AuthInfo}
use hop_rs.Ssh.Proxy.Bridge.{
  relay_signaled, relay_ended, signaled_early, connect_failed, connected, relay_result, TcpRun,
  TcpEnd, Forwarding, run_tcp, finish_tcp, tcp_result, bridge_direct_tcpip,
}
use hop_rs.Ssh.Proxy.{
  AssetHealth, RelayPeer, RelayOperation, write_operation, RelayRound, read_failed, write_failed,
  copied, RelayIoError, relay_copy,
}

-- All that is read, up to the end of the input or its failure.
abbrev pub input_of : List RelayRound → List ℕ
input_of [] = []
input_of (read_failed e ∷ rounds) = []
input_of (write_failed done b left e ∷ rounds) = done ++ (b ∷ left)
input_of (copied [] ∷ rounds) = []
input_of (copied (b ∷ bytes) ∷ rounds) = (b ∷ bytes) ++ input_of rounds

-- What a failing write has written of its chunk.
abbrev pub unfinished : List RelayRound → List ℕ
unfinished [] = []
unfinished (read_failed e ∷ rounds) = []
unfinished (write_failed done b left e ∷ rounds) = done
unfinished (copied [] ∷ rounds) = []
unfinished (copied (b ∷ bytes) ∷ rounds) = unfinished rounds

-- The bytes that a result counts.
abbrev pub counted : Outcome RelayIoError ℕ → ℕ
counted (ok written) = written
counted (err e) = e.bytes

-- The peer and the operation that failed.
abbrev pub failed_at : Outcome RelayIoError ℕ → Option (RelayPeer × RelayOperation)
failed_at (ok written) = none
failed_at (err e) = some (e.peer, e.operation)

relay_copy-from :
    (p q : RelayPeer) (written : ℕ) (rounds : List RelayRound)
    → let r = relay_copy p q written written rounds in
      (r.total_written ≡ counted r.result)
      × (counted r.result + length (unfinished rounds) ≡ written + length r.delivered)
      × (rest : List ℕ) × (input_of rounds ≡ r.delivered ++ rest)
      × (((rest ≡ []) × (unfinished rounds ≡ []))
          ⊎ (failed_at r.result ≡ some (q, write_operation)))
unfolding relay_copy
relay_copy-from p q written [] = (refl, refl, [], refl, inl (refl, refl))
relay_copy-from p q written (read_failed e ∷ rounds) = (refl, refl, [], refl, inl (refl, refl))
relay_copy-from p q written (write_failed done b left e ∷ rounds) =
    (refl, refl, b ∷ left, refl, inr refl)
relay_copy-from p q written (copied [] ∷ rounds) = (refl, refl, [], refl, inl (refl, refl))
relay_copy-from p q written (copied (b ∷ bytes) ∷ rounds) =
    let next = written + length (b ∷ bytes) in
    let (totals, counts, rest, parts, complete) = relay_copy-from p q next rounds in
    let later = (relay_copy p q next next rounds).delivered in
    let sum : next + length later ≡ written + length ((b ∷ bytes) ++ later) =
      omega (arith, length-append bytes later) in
    (
      totals,
      counts ∙ sum,
      rest,
      ap (λ t. (b ∷ bytes) ++ t) parts ∙ sym (append_assoc (b ∷ bytes) later rest),
      complete,
    )

-- A direction of the relay delivers a beginning of what it reads, in order. It delivers all of it,
-- and counts all of it, unless a write to its peer fails, which its result then reports. Its result
-- or its error counts the bytes delivered less the part of the last chunk that the failing write has
-- written, and the total that it publishes is the same.
pub relay_copy_lem :
    (p q : RelayPeer) (rounds : List RelayRound)
    → let r = relay_copy p q 0 0 rounds in
      (r.total_written ≡ counted r.result)
      × (counted r.result + length (unfinished rounds) ≡ length r.delivered)
      × (rest : List ℕ) × (input_of rounds ≡ r.delivered ++ rest)
      × (((rest ≡ []) × (unfinished rounds ≡ []))
          ⊎ (failed_at r.result ≡ some (q, write_operation)))
relay_copy_lem p q rounds =
    let (totals, counts, rest, parts, complete) = relay_copy-from p q 0 rounds in
    (totals, omega (arith, counts), rest, parts, complete)

-- The row of a session that has started, once its end is written.
finish_tcp-ended :
    (ended id : Text) (end : TcpEnd) (started : Session) (db : Database)
    → get_session id db ≡ some started
    → (row : Session) × (get_session id (finish_tcp ended id end db) ≡ some row)
      × (row.ended_at ≡ some ended)
      × ((tcp_result end ≡ ok tt) ⊎ (row.status ≡ text "failed") ⊎ (end.0 ≡ true))
unfolding finish_tcp tcp_result
finish_tcp-ended ended id (true, result) started db h = (
  record started {
    status = text "terminated";
    error = some (text "terminated by management request");
    ended_at = some ended;
  },
  get-finish_session ended id (text "terminated") (some (text "terminated by management request"))
      started db h,
  refl,
  inr (inr refl),
)
finish_tcp-ended ended id (false, ok done) started db h = (
  record started { status = text "ok"; error = none; ended_at = some ended },
  get-finish_session ended id (text "ok") none started db h,
  refl,
  inl refl,
)
finish_tcp-ended ended id (false, err e) started db h = (
  record started { status = text "failed"; error = some e; ended_at = some ended },
  get-finish_session ended id (text "failed") (some e) started db h,
  refl,
  inr (inl refl),
)

run_tcp-terminated :
    (now : Text) (asset : Asset) (run : TcpRun) (db : Database) (health : List AssetHealth)
    → (run_tcp now asset run db health).0.0 ≡ true
    → tcp_result (run_tcp now asset run db health).0 ≡ ok tt
unfolding run_tcp tcp_result relay_result
run_tcp-terminated now asset run db health h =
    elim (Outcome-cases (validate_tcp_port (pos asset.port))) [
      | inr (e, failed) ↦ let refused = rw (run_tcp, failed) at h in cc
      | inl (port, valid) ↦ by_run run valid h
    ]
  where
    by_run :
        {port : ℕ} (run : TcpRun)
        → validate_tcp_port (pos asset.port) ≡ ok port
        → (run_tcp now asset run db health).0.0 ≡ true
        → tcp_result (run_tcp now asset run db health).0 ≡ ok tt
    by_run signaled_early valid h = rw (run_tcp, valid) refl
    by_run (connect_failed e) valid h = let not_so = rw (run_tcp, valid) at h in cc
    by_run (connected ms relay_signaled) valid h = rw (run_tcp, valid) refl
    by_run (connected ms (relay_ended (ok n) x y)) valid h = rw (run_tcp, valid) refl
    by_run (connected ms (relay_ended (err e) x y)) valid h =
        let not_so = rw (run_tcp, valid) at h in cc

-- A forwarded connection that was allowed and started is over when the bridge returns, whatever
-- the network did: its session is no longer registered, its row is finished at the time of the end,
-- and it is written down as failed where the bridge reports an error.
pub bridge_direct_tcpip-ends :
    (fresh now ended : Text) (sender : Sender) (auth : AuthInfo) (asset : Asset)
    (client_ip : Option Text) (run : TcpRun) (s : Forwarding)
    → key_can_access_asset auth.key_id asset.id s.catalog ≡ true
    → any (λ r. r.id == fresh) s.catalog.sessions ≡ false
    → let (result, after) = bridge_direct_tcpip fresh now ended sender auth asset client_ip run s in
      (lookup fresh after.active_sessions.inner ≡ none)
      × (row : Session) × (get_session fresh after.catalog ≡ some row)
      × (row.ended_at ≡ some ended)
      × ((result ≡ ok tt) ⊎ (row.status ≡ text "failed"))
unfolding bridge_direct_tcpip start_session session_row get_session unregister
bridge_direct_tcpip-ends fresh now ended sender auth asset client_ip run s allowed new =
    let asked : NewSession = record {
      key_finger = auth.fingerprint;
      key_name = some auth.name;
      mode = text "tcp-forward";
      asset_name = some asset.name;
      target_host = some asset.hostname;
      target_port = some (pos asset.port);
      client_ip = client_ip;
    } in
    let row = session_row fresh now asked in
    let db = record s.catalog { sessions = row ∷ s.catalog.sessions } in
    let started : start_session fresh now asked s.catalog ≡ ok (row, db) = rw new refl in
    let begun : get_session fresh db ≡ some row = rw (eq_refl fresh) refl in
    let end = (run_tcp ended asset run db s.health).0 in
    let (over, found, at_end, status) = finish_tcp-ended ended fresh end row db begun in
    let registered = register fresh sender s.active_sessions in
    let gone : lookup fresh (unregister fresh registered).inner ≡ none =
      lookup-remove fresh fresh registered.inner ∙ rw (eq_refl fresh) refl in
    rw (bridge_direct_tcpip, allowed, started)
      (
        gone,
        over,
        found,
        at_end,
        elim status [
          | inl well ↦ inl well
          | inr (inl failed) ↦ inr failed
          | inr (inr signaled) ↦ inl (run_tcp-terminated ended asset run db s.health signaled)
        ],
      )
