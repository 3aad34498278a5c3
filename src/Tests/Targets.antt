-- ===== src/Tests/Targets.antt =====
-- The theorems on the way to a target, and on the opening of a catalog, at concrete inputs.
use hop_rs.Prelude.{
  Text, [], err, false, here, none, ok, refl, some, text, there, true, ◌==◌, ◌↔◌, ◌∷◌, ◌≡◌, ◌⊎◌,
}
use hop_rs.Prelude.Int.{pos}
use hop_rs.Models.{Credential, Asset, NewKnownHost}
use hop_rs.Manifest
use hop_rs.Runtime.Credentials.{get_credential}
use hop_rs.Catalog.{Database}
use hop_rs.Target.{
  Peer, password_login, login_of, host_key_trusted, login_sent, connect_authenticated_asset,
  window_adjusted, success, wait_for_request_success,
}
use hop_rs.Target.Laws.Logins.{
  first_reply, IsPinned, wait_for_request_success_iff, connect_authenticated_asset-IsPinned,
}
use hop_rs.Bootstrap.{DatabaseFile, baseline, connect, connect_read_only}
use hop_rs.Errors.{unsupported_database_schema}
use hop_rs.Bootstrap.Laws.{IsHop, IsBlank, IsForeign, connect-connect, connect_keeps}
use hop_rs.Tests.{sample, web_asset}
use hop_rs.Tests.Envelopes.{open_ciphers, zero_key, value_or, no_world, zeros}
use hop_rs.Envelope.{encrypt_envelope}
use hop_rs.Apply.Hashes.{as_bytes}

wait_for_request_success_iff_example :
    (wait_for_request_success true (window_adjusted ∷ success ∷ []) (text "exec") ≡ ok tt)
    ↔ (first_reply (window_adjusted ∷ success ∷ []) ≡ some success)
wait_for_request_success_iff_example =
    wait_for_request_success_iff true (window_adjusted ∷ success ∷ []) (text "exec")

abbrev with_root : Database
with_root = record sample {
  credentials =
      record {
        id = text "c1";
        name = text "root";
        username = text "root";
        auth_type = Manifest.password;
        password_enc = some (
            value_or [] (
              encrypt_envelope open_ciphers (zeros 24) zero_key (text "c1:password")
                (as_bytes (text "pw"))));
        private_key_enc = none;
        passphrase_enc = none;
        secret_hmac = none;
        created_at = none;
      }
      ∷ [];
}

abbrev host_key : NewKnownHost
host_key = record {
  hostname = text "10.0.0.5";
  port = pos 22;
  key_type = text "ssh-ed25519";
  fingerprint = text "SHA256:h";
}

abbrev welcoming : Peer
welcoming = record { host_key = λ hostname port. some host_key; accepts = λ login. true }

abbrev reachable : Asset
reachable = record web_asset { credential_id = some (text "c1") }

connect_authenticated_asset-IsPinned_example :
    (offered : NewKnownHost) × (welcoming.host_key reachable.hostname reachable.port ≡ some offered)
    × IsPinned reachable.hostname reachable.port offered
        (connect_authenticated_asset open_ciphers zero_key no_world welcoming
          (text "now")
          reachable
          with_root).2
    × ((connect_authenticated_asset open_ciphers zero_key no_world welcoming
          (text "now")
          reachable
          with_root).1
        ≡ host_key_trusted reachable.hostname reachable.port offered
          ∷ login_sent (password_login (text "root") (text "pw"))
          ∷ [])
    × (id : Text) × (c : Credential) × (reachable.credential_id ≡ some id)
    × (get_credential id with_root ≡ some c)
    × (login_of open_ciphers zero_key no_world c ≡ ok (password_login (text "root") (text "pw")))
unfolding connect_authenticated_asset hop_rs.Prelude.◌==◌ text hop_rs.Models.auth_type_try_from
    hop_rs.Target.decrypt_field encrypt_envelope hop_rs.Envelope.envelope_version
    hop_rs.Envelope.envelope_alg as_bytes
connect_authenticated_asset-IsPinned_example =
    connect_authenticated_asset-IsPinned open_ciphers zero_key no_world welcoming (text "now")
      reachable with_root (password_login (text "root") (text "pw")) (there (here refl))

abbrev in_wal : DatabaseFile
in_wal = record {
  is_blank = false;
  has_tables = true;
  has_marker = true;
  version = some (text "hop/v0.2");
  catalog = baseline.catalog;
  journal_wal = true;
}

connect-connect_example :
    (connect (text "hop.db") (some in_wal) ≡ (ok baseline.catalog, some in_wal))
    × (connect_read_only (text "hop.db") (some in_wal) ≡ ok baseline.catalog)
unfolding connect hop_rs.Prelude.◌==◌ text
connect-connect_example = connect-connect (text "hop.db") none (some in_wal) baseline.catalog refl

abbrev outdated : DatabaseFile
outdated = record {
  is_blank = false;
  has_tables = true;
  has_marker = true;
  version = some (text "hop/v0.1");
  catalog = sample;
  journal_wal = false;
}

connect_keeps_example :
    ((f : DatabaseFile) × (some outdated ≡ some f)
      × IsHop f
      × (connect (text "hop.db") (some outdated)
          ≡ (ok f.catalog, some (record f { journal_wal = true }))))
    ⊎ (IsBlank (some outdated)
        × (connect (text "hop.db") (some outdated)
            ≡ (ok baseline.catalog, some (record baseline { journal_wal = true }))))
    ⊎ ((f : DatabaseFile) × (some outdated ≡ some f)
        × IsForeign f
        × (connect (text "hop.db") (some outdated)
            ≡ (err (unsupported_database_schema (text "hop.db")), some f)))
connect_keeps_example = connect_keeps (text "hop.db") (some outdated)
