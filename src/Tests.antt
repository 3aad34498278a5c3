-- ===== src/Tests.antt =====
-- A small catalog, and the theorems at concrete inputs.
mod Envelopes
mod Applies
mod Panels
mod Ingresses
mod Transfers
mod Apis
mod Targets
mod Commands
mod Proxies
use hop_rs.Prelude.{
  All, List, Option, Text, [], false, if◌then◌else◌, keep, map, none, ok, refl, some, text,
  text_ltb, to_ascii_lowercase, trim, true, ◌++◌, ◌==◌, ◌↔◌, ◌∷◌, ◌≡◌, ◌≤◌, ◌⊎◌,
}
use hop_rs.Prelude.Int.{ℤ, pos, int_eq_nat}
use hop_rs.Prelude.Map.{lookup, contains, insert_name}
use hop_rs.Manifest.{ssh, PresentAsset, present_resource, ResolvedManifest}
use hop_rs.Manifest.References.{validate_references}
use hop_rs.Manifest.Laws.Closed.{AssetClosed, AccessClosed, validate_references-closed}
use hop_rs.Models.{
  restricted, Asset, TagsJson, NewKnownHost, validate_tcp_port, validate_asset_protocol,
}
use hop_rs.Models.Laws.{validate_tcp_port_iff}
use hop_rs.Catalog.{
  ResourceType, ManagementMode, Ownership, asset, access_key, local_mode, declarative, AssetRecord,
  KeyRecord, Database,
}
use hop_rs.Catalog.Statements.{is_assigned}
use hop_rs.Runtime.{local_resource, resource_ownership}
use hop_rs.Runtime.Access.{
  normalized_name, key_can_access_asset, find_direct_asset_for_key, find_proxy_asset_for_key,
}
use hop_rs.Runtime.Keys.{set_authorized_key_active, set_authorized_key_access}
use hop_rs.Runtime.Changes.{change_active, drop_asset, run}
use hop_rs.Runtime.Laws.Access.{find_direct_asset_for_key_sound, find_proxy_asset_for_key_sound}
use hop_rs.Runtime.Laws.Assignments.{set_authorized_key_access_assigns}
use hop_rs.Runtime.Laws.Grants.{set_authorized_key_active_revokes}
use hop_rs.Runtime.Laws.Owners.{run_local_only}
use hop_rs.Runtime.Laws.Revision.{Counted, run-Counted}
use hop_rs.Apply.{Plan, ExistingResource, plan_missing}
use hop_rs.Apply.Owned.{lapsed, newly_lapsed, reference, plan_missing-prune, plan_missing-keep}
use hop_rs.Ssh.Tofu.{get_known_host, verify_or_learn, verify_or_learn_pins}

abbrev pub no_tags : TagsJson
no_tags = record { to_json = λ tags. text "[]"; from_json = λ raw. some [] }

abbrev pub web : AssetRecord
web = record {
  id = text "a1";
  name = text "web";
  asset_type = ssh;
  host = text "10.0.0.5";
  port = 22;
  display_name = none;
  description = none;
  tags_json = none;
  credential_id = none;
  created_at = none;
  updated_at = none;
}

-- An asset whose host is spelled like the name of the other.
abbrev proxy : AssetRecord
proxy = record web { id = text "a2"; name = text "alias"; host = text "web" }

abbrev alice : KeyRecord
alice = record {
  id = text "k1";
  name = text "alice";
  public_key = text "ssh-ed25519 AAAA";
  fingerprint = text "SHA256:a";
  enabled = true;
  access_mode = restricted;
  created_at = none;
}

abbrev pub owner_row : ResourceType → Text → ManagementMode → Option Text → Ownership
owner_row type id mode source = record {
  resource_type = type;
  resource_id = id;
  management_mode = mode;
  source_id = source;
  source_key = source;
  source_generation = none;
  last_applied_hash = none;
  last_applied_at = none;
  orphaned_at = none;
}

abbrev pub sample : Database
sample = record {
  revision = 3;
  credentials = [];
  assets = proxy ∷ web ∷ [];
  access_keys = alice ∷ [];
  access_key_assets =
      record { key_id = text "k1"; asset_id = text "a1" }
      ∷ record { key_id = text "k1"; asset_id = text "a2" }
      ∷ [];
  resource_ownership =
      owner_row access_key (text "k1") local_mode (none)
      ∷ owner_row asset (text "a1") local_mode (none)
      ∷ owner_row asset (text "a2") declarative (some (text "hop-yaml"))
      ∷ [];
  known_hosts = [];
  config_sources = [];
  sessions = [];
  audit_events = [];
}

abbrev pub web_asset : Asset
web_asset = record {
  id = text "a1";
  name = text "web";
  protocol = text "ssh";
  hostname = text "10.0.0.5";
  port = 22;
  description = none;
  tags = [];
  credential_id = none;
  created_at = none;
  updated_at = none;
}

find_direct_asset_for_key_sound_example :
    (key_can_access_asset (text "k1") web_asset.id sample ≡ true)
    × ((web_asset.name ≡ text "web") ⊎ (web_asset.hostname ≡ text "web"))
unfolding find_direct_asset_for_key text ◌==◌ text_ltb hop_rs.Runtime.Access.insert_row
    validate_asset_protocol trim hop_rs.Manifest.asset_type_as_str to_ascii_lowercase
find_direct_asset_for_key_sound_example =
    find_direct_asset_for_key_sound no_tags (text "k1") (text "web") sample web_asset refl

find_proxy_asset_for_key_sound_example :
    (key_can_access_asset (text "k1") web_asset.id sample ≡ true)
    × (((web_asset.hostname ≡ text "web.hop") × (int_eq_nat (pos 22) web_asset.port ≡ true))
        ⊎ (web_asset.name ≡ normalized_name (text "web.hop")))
unfolding find_proxy_asset_for_key text ◌==◌ text_ltb hop_rs.Runtime.Access.insert_row
    validate_asset_protocol trim hop_rs.Manifest.asset_type_as_str to_ascii_lowercase
find_proxy_asset_for_key_sound_example =
    find_proxy_asset_for_key_sound no_tags (text "k1") (text "web.hop") (pos 22) sample web_asset
      refl

abbrev disabled : Database
disabled = record sample { revision = 4; access_keys = record alice { enabled = false } ∷ [] }

set_authorized_key_active_revokes_example :
    key_can_access_asset (text "k1") (text "a1") disabled ≡ (
      if text "k1" == text "k1" then false else key_can_access_asset (text "k1") (text "a1") sample)
unfolding set_authorized_key_active text ◌==◌ hop_rs.Catalog.same_type
set_authorized_key_active_revokes_example =
    set_authorized_key_active_revokes (text "k1") (text "k1") (text "a1") sample disabled refl

abbrev narrowed : Database
narrowed = record sample {
  revision = 4;
  access_key_assets = record { key_id = text "k1"; asset_id = text "a2" } ∷ [];
}

set_authorized_key_access_assigns_example :
    is_assigned (text "k1") (text "a1") narrowed.access_key_assets ≡ (
      if text "k1" == text "k1"
      then contains (text "a1") (text "a2" ∷ [])
      else is_assigned (text "k1") (text "a1") sample.access_key_assets)
unfolding set_authorized_key_access text ◌==◌ insert_name hop_rs.Catalog.same_type
set_authorized_key_access_assigns_example =
    set_authorized_key_access_assigns (text "k1") restricted (text "a2" ∷ []) sample narrowed
      (text "k1") (text "a1") refl

abbrev without_web : Database
without_web = record sample {
  revision = 4;
  assets = proxy ∷ [];
  access_key_assets = record { key_id = text "k1"; asset_id = text "a2" } ∷ [];
  resource_ownership =
      owner_row access_key (text "k1") local_mode (none)
      ∷ owner_row asset (text "a2") declarative (some (text "hop-yaml"))
      ∷ [];
}

run_local_only_example : resource_ownership asset (text "a1") sample ≡ local_resource
unfolding run hop_rs.Runtime.Assets.delete_asset text ◌==◌ hop_rs.Catalog.same_type
run_local_only_example =
    run_local_only no_tags (drop_asset (text "a1")) asset (text "a1") sample without_web refl refl

run-Counted_example : Counted sample disabled
unfolding run set_authorized_key_active text ◌==◌ hop_rs.Catalog.same_type
run-Counted_example = run-Counted no_tags (change_active (text "k1") false) sample disabled refl

abbrev contact : NewKnownHost
contact = record {
  hostname = text "10.0.0.5";
  port = pos 22;
  key_type = text "ssh-ed25519";
  fingerprint = text "SHA256:a";
}

abbrev learned : Database
learned = record sample {
  known_hosts =
      record {
        hostname = text "10.0.0.5";
        port = pos 22;
        key_type = text "ssh-ed25519";
        fingerprint = text "SHA256:a";
        first_seen = some (text "now");
      }
      ∷ [];
}

verify_or_learn_pins_example :
    verify_or_learn (text "later") (record contact { fingerprint = text "SHA256:b" }) learned
    ≡ ok (text "SHA256:a" == text "SHA256:b", learned)
unfolding get_known_host verify_or_learn
verify_or_learn_pins_example =
    verify_or_learn_pins (text "now") (text "later") contact (text "SHA256:b") sample learned refl
      refl

validate_tcp_port_iff_example :
    (validate_tcp_port (pos 22) ≡ ok 22)
    ↔ ((◌≡◌ {A = ℤ} (pos 22) (pos 22)) × (1 ≤ 22) × (22 ≤ 65535))
validate_tcp_port_iff_example = validate_tcp_port_iff (pos 22) 22

abbrev web_resolved : PresentAsset
web_resolved = record {
  asset_type = ssh;
  host = text "10.0.0.5";
  port = 22;
  display_name = none;
  description = none;
  credential = some (text "root");
}

abbrev scope : ResolvedManifest
scope = record {
  credentials =
      (
        text "root",
        present_resource (record {
          credential_type = hop_rs.Manifest.password;
          username = text "root";
          password = some (text "secret");
          private_key = none;
          passphrase = none;
        }),
      )
      ∷ [];
  assets = (text "web", present_resource web_resolved) ∷ [];
  access =
      (
        text "alice",
        present_resource (record {
          public_key = text "ssh-ed25519 AAAA";
          fingerprint = text "SHA256:a";
          enabled = true;
          assets = some (text "web" ∷ []);
        }),
      )
      ∷ [];
}

validate_references-closed_example :
    All (λ e. AssetClosed scope e.1) scope.assets × All (λ e. AccessClosed scope e.1) scope.access
unfolding validate_references hop_rs.Manifest.References.reference_known text ◌==◌ lookup contains
    insert_name
validate_references-closed_example = validate_references-closed scope refl

abbrev declared : ExistingResource
declared = record {
  id = text "a2";
  name = text "alias";
  management_mode = some declarative;
  source_id = some (text "hop-yaml");
  last_applied_hash = some (text "h1");
  orphaned_at = none;
}

abbrev on_file : List (Text × ExistingResource)
on_file = (text "alias", declared) ∷ (text "kept", record declared { id = text "a3" }) ∷ []

abbrev no_plan : Plan
no_plan = record {
  credential_upserts = [];
  asset_upserts = [];
  access_upserts = [];
  orphans = [];
  deletes = [];
  changes = [];
}

plan_missing-prune_example :
    let after = plan_missing no_plan asset on_file (text "kept" ∷ []) (text "hop-yaml") true in
    (after.orphans ≡ [])
    × (after.deletes
        ≡ [] ++ map (reference asset) (keep (lapsed (text "kept" ∷ []) (text "hop-yaml")) on_file))
plan_missing-prune_example =
    plan_missing-prune asset (text "kept" ∷ []) (text "hop-yaml") on_file no_plan
