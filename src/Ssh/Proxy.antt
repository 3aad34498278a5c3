-- ===== src/Ssh/Proxy.antt =====
-- The forwarding of a connection, crates/hop-server/src/ssh/proxy.rs. What the network does is an
-- argument: the chunks that are read, and the end of the relay. The rows of health are a table
-- beside the catalog, without the trigger that makes one for a new asset.
pub mod Bridge
pub mod Laws
use hop_rs.Prelude.{
  List, Option, Outcome, Text, [], any, decimal, ensure, err, if◌then◌else◌, length, none, ok, some,
  suc, text, update_where, zero, ℕ, ◌++◌, ◌+◌, ◌==◌, ◌>>=◌, ◌∷◌,
}
use hop_rs.Prelude.Int.{ℤ, pos}
use hop_rs.Errors.{Error, Result, database, validation, constraint_failed}
use hop_rs.Models.{Asset, validate_tcp_port}
use hop_rs.Catalog.{Database, Session}
use hop_rs.Runtime.Access.{key_can_access_asset}
use hop_rs.Runtime.Sessions.{start_session, finish_session}
use hop_rs.Ssh.Registry.{Sender, Registry, register, unregister}
use hop_rs.Ssh.Ingress.{
  AuthInfo, ServerError, catalog_error, refused, authorization_denied, audit_denied_attempt,
}

pub data RelayPeer : Type 0 where
  client_peer target_peer : RelayPeer

pub data RelayOperation : Type 0 where
  read_operation write_operation : RelayOperation

pub record RelayIoError : Type 0 where
  pub peer : RelayPeer
  pub operation : RelayOperation
  pub bytes : ℕ
  pub source : Text

unfoldable pub peer_name : RelayPeer → Text
peer_name client_peer = text "client"
peer_name target_peer = text "target"

unfoldable pub operation_name : RelayOperation → Text
operation_name read_operation = text "read"
operation_name write_operation = text "write"

-- `Display` of a `RelayIoError`
unfoldable pub relay_io_error : RelayIoError → Text
unfolding peer_name operation_name decimal
relay_io_error e =
    peer_name e.peer
    ++ (text " "
        ++ (operation_name e.operation
            ++ (text " failed after " ++ (decimal e.bytes ++ (text " bytes: " ++ e.source)))))

unfoldable pub relay_error_message : RelayIoError → ℕ → ℕ → Text
unfolding relay_io_error decimal
relay_error_message e client_to_target_bytes target_to_client_bytes =
    relay_io_error e
    ++ (text "; totals client->target="
        ++ (decimal client_to_target_bytes
            ++ (text " bytes, target->client="
                ++ (decimal target_to_client_bytes ++ text " bytes"))))

-- A round of the copy: what `read` gives, and what `write_all` then does with it. A chunk of no
-- bytes is the end of the input. A write that fails has written the first list of the chunk, and
-- neither the byte that follows nor the second list.
pub data RelayRound : Type 0 where
  read_failed : Text → RelayRound
  write_failed : List ℕ → ℕ → List ℕ → Text → RelayRound
  copied : List ℕ → RelayRound

-- What the copy ends with, the total that it has published, and the bytes that were written.
pub record Relayed : Type 0 where
  pub result : Outcome RelayIoError ℕ
  pub total_written : ℕ
  pub delivered : List ℕ

-- `relay_copy`, from `written` on: the rounds are those until the input ends.
unfoldable pub relay_copy : RelayPeer → RelayPeer → ℕ → ℕ → List RelayRound → Relayed
relay_copy read_peer write_peer written total [] = record {
  result = ok written;
  total_written = total;
  delivered = [];
}
relay_copy read_peer write_peer written total (read_failed e ∷ rounds) = record {
  result =
      err (record { peer = read_peer; operation = read_operation; bytes = written; source = e });
  total_written = total;
  delivered = [];
}
relay_copy read_peer write_peer written total (write_failed done b left e ∷ rounds) = record {
  result =
      err (record { peer = write_peer; operation = write_operation; bytes = written; source = e });
  total_written = total;
  delivered = done;
}
relay_copy read_peer write_peer written total (copied [] ∷ rounds) = record {
  result = ok written;
  total_written = total;
  delivered = [];
}
relay_copy read_peer write_peer written total (copied (b ∷ bytes) ∷ rounds) =
    let next = written + length (b ∷ bytes) in
    let rest = relay_copy read_peer write_peer next next rounds in
    record rest { delivered = (b ∷ bytes) ++ rest.delivered }

-- `AssetHealth`
pub record AssetHealth : Type 0 where
  pub asset_id : Text
  pub status : Text
  pub checked_at : Option Text
  pub last_success_at : Option Text
  pub latency_ms : Option ℕ
  pub error_code : Option Text
  pub error_message : Option Text

-- INSERT … ON CONFLICT(asset_id) DO UPDATE, with the reference to the asset.
unfoldable pub upsert_health :
    (AssetHealth → AssetHealth)
    → AssetHealth
    → Database
    → List AssetHealth
    → Result (List AssetHealth)
upsert_health renew row db health = do
  _ ← ensure (any (λ a. a.id == row.asset_id) db.assets) (database constraint_failed)
  ok (
      if any (λ h. h.asset_id == row.asset_id) health
      then update_where (λ h. h.asset_id == row.asset_id) renew health
      else row ∷ health)

unfoldable pub record_asset_health_success :
    Text → Text → Option ℕ → Database → List AssetHealth → Result (List AssetHealth)
unfolding upsert_health
record_asset_health_success now asset_id latency_ms =
    upsert_health
      (λ h. record h {
        status = text "healthy";
        checked_at = some now;
        last_success_at = some now;
        latency_ms = latency_ms;
        error_code = none;
        error_message = none;
      })
      (record {
        asset_id = asset_id;
        status = text "healthy";
        checked_at = some now;
        last_success_at = some now;
        latency_ms = latency_ms;
        error_code = none;
        error_message = none;
      })

unfoldable pub record_asset_health_failure :
    Text
    → Text
    → Option Text
    → Option Text
    → Database
    → List AssetHealth
    → Result (List AssetHealth)
unfolding upsert_health
record_asset_health_failure now asset_id error_code error_message =
    upsert_health
      (λ h. record h {
        status = text "failed";
        checked_at = some now;
        latency_ms = none;
        error_code = error_code;
        error_message = error_message;
      })
      (record {
        asset_id = asset_id;
        status = text "failed";
        checked_at = some now;
        last_success_at = none;
        latency_ms = none;
        error_code = error_code;
        error_message = error_message;
      })

-- `chars().take(512)`
unfoldable pub take_chars : ℕ → Text → Text
take_chars zero s = []
take_chars (suc n) [] = []
take_chars (suc n) (c ∷ s) = c ∷ take_chars n s

unfoldable pub health_error_message : Text → Text
unfolding take_chars
health_error_message e = take_chars 512 e
