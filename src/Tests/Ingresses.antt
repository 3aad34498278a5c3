-- ===== src/Tests/Ingresses.antt =====
-- The theorems on the SSH entry at concrete inputs.
use hop_rs.Prelude.{
  [], err, false, ok, option_map, refl, some, text, to_ascii_lowercase, ◌==◌, ◌>>=◌, ◌∷◌, ◌≡◌,
}
use hop_rs.Models.{AuthorizedKey}
use hop_rs.Catalog.{Database}
use hop_rs.Runtime.Access.{get_active_authorized_key_by_fingerprint}
use hop_rs.Runtime.Keys.{set_authorized_key_active}
use hop_rs.Ssh.Ingress.{
  AuthInfo, Handler, reject, refused, authorization_denied, direct_mode, new_client, start_managed,
  auth_publickey, auth_publickey_offered,
}
use hop_rs.Ssh.Laws.{
  IsManagedFor, start_managed-disabled, auth_publickey-accepted, auth_publickey-offered,
}
use hop_rs.Tests.{no_tags, sample, web, web_asset}
use hop_rs.Tests.Envelopes.{value_or}

-- The catalog with a credential for the asset.
abbrev managed : Database
managed = record sample { assets = record web { credential_id = some (text "c1") } ∷ [] }

abbrev client : Handler
client = new_client (text "192.0.2.7:40000")

abbrev logged_in : Handler
logged_in =
    (value_or (reject, client)
      (auth_publickey no_tags (text " web ") (text "SHA256:a") managed client)).1

auth_publickey-accepted_example :
    (key : AuthorizedKey) × (get_active_authorized_key_by_fingerprint (text "SHA256:a") managed
      ≡ ok (some key))
    × (option_map (λ a. a.key_id) logged_in.auth ≡ some key.id)
    × IsManagedFor key.id managed logged_in.direct_asset
unfolding auth_publickey hop_rs.Prelude.◌==◌ text hop_rs.Models.access_mode_as_str
    hop_rs.Runtime.Access.insert_row hop_rs.Models.validate_asset_protocol
    hop_rs.Manifest.asset_type_as_str hop_rs.Prelude.to_ascii_lowercase
auth_publickey-accepted_example =
    auth_publickey-accepted no_tags (text " web ") (text "SHA256:a") managed client logged_in refl

auth_publickey-offered_example :
    (auth_publickey no_tags (text "web") (text "SHA256:b") managed client >>= λ r. ok r.0)
    ≡ auth_publickey_offered no_tags (text "web") (text "SHA256:b") managed
auth_publickey-offered_example =
    auth_publickey-offered no_tags (text "web") (text "SHA256:b") managed client

abbrev alice_info : AuthInfo
alice_info = record { key_id = text "k1"; fingerprint = text "SHA256:a"; name = text "alice" }

abbrev disabled : Database
disabled = value_or sample (set_authorized_key_active (text "k1") false sample)

start_managed-disabled_example :
    (start_managed
      (text "s1")
      (text "2024-01-01")
      (record client { auth = some alice_info })
      web_asset
      direct_mode
      disabled).0
    ≡ err (refused authorization_denied)
unfolding set_authorized_key_active hop_rs.Catalog.same_type hop_rs.Prelude.◌==◌ text
start_managed-disabled_example =
    start_managed-disabled (text "s1") (text "2024-01-01")
      (record client { auth = some alice_info }) alice_info web_asset direct_mode sample disabled
      refl refl
