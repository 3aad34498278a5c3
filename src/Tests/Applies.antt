-- ===== src/Tests/Applies.antt =====
-- The theorems on the apply at concrete inputs.
use hop_rs.Prelude.{
  Text, [], false, here, none, refl, some, text, text_ltb, there, true, ◌++◌, ◌+◌, ◌==◌, ◌∷◌, ◌≡◌,
  ◌≢◌, ◌⊎◌,
}
use hop_rs.Prelude.Int.{pos}
use hop_rs.Prelude.Map.{Map}
use hop_rs.Manifest.{Manifest, ResolvedManifest, present, inline_source, manifest_api_version}
use hop_rs.Manifest.Resolve.{resolve_material}
use hop_rs.Catalog.{credential, declarative, local_mode, Database}
use hop_rs.Apply.{Plan, ResourceRef, ExistingAsset}
use hop_rs.Apply.Hashes.{Digests, JsonObject, JsonValue, text_value}
use hop_rs.Apply.Load.{load_credentials, load_assets, load_access}
use hop_rs.Apply.Deletes.{final_credential}
use hop_rs.Apply.Build.{build_plan, blank_plan}
use hop_rs.Apply.Run.{ApplyOptions, ApplySummary, ReadPoints, Call, summary, prepare, apply}
use hop_rs.Apply.Laws.Revision.{apply-revision}
use hop_rs.Apply.Laws.Own.{IsOwnPlan}
use hop_rs.Apply.Laws.Planned.{rows_of}
use hop_rs.Apply.Laws.Built.{build_plan-IsOwnPlan, build_plan-keeps_credentials}
use hop_rs.Tests.{sample, owner_row}
use hop_rs.Tests.Envelopes.{open_ciphers, zero_key, value_or, no_world, zeros}

abbrev flat_value : JsonValue → Text
flat_value (text_value t) = t
flat_value _ = []

abbrev flat : JsonObject → Text
flat [] = []
flat ((name, v) ∷ rest) = flat_value v ++ 0 ∷ flat rest

-- Digests that keep what they are given.
abbrev pub plain_digests : Digests
plain_digests = record {
  hmac_sha256 = λ key bytes. bytes;
  sha256 = λ bytes. bytes;
  encode_no_pad = λ bytes. bytes;
  json_to_vec = flat;
  json_to_string = flat;
}

abbrev pub call : Call
call = record {
  world = no_world;
  digests = plain_digests;
  ciphers = open_ciphers;
  fresh = λ type name. text "new-" ++ name;
  event_id = text "e1";
  nonces = λ context. zeros 24;
  now = text "2024-01-01";
  master = zero_key;
  source_id = text "hop-yaml";
}

abbrev pub manifest : Manifest
manifest = record {
  api_version = manifest_api_version;
  credentials =
      (
        text "root",
        record {
          state = present;
          credential_type = some hop_rs.Manifest.password;
          username = some (text "root");
          password = some (inline_source (text "secret"));
          private_key = none;
          passphrase = none;
        },
      )
      ∷ [];
  assets = [];
  access = [];
}

abbrev reads : ReadPoints
reads = record {
  at_revision = sample;
  at_generation = sample;
  at_credentials = sample;
  at_assets = sample;
  at_access = sample;
}

abbrev pruning : ApplyOptions
pruning = record { base_revision = some (pos 3); prune = true; dry_run = false }

abbrev prepared : Plan × ApplySummary
prepared =
    value_or (blank_plan, summary blank_plan [] 0 0 0 false) (prepare call manifest pruning reads)

abbrev applied : ApplySummary × Database
applied = value_or (prepared.1, sample) (apply call manifest pruning reads sample)

apply-revision_example :
    (applied.0.base_revision ≡ reads.at_revision.revision)
    × ((applied.1 ≡ sample)
        ⊎ ((sample.revision ≡ applied.0.base_revision)
            × (applied.1.revision ≡ sample.revision + 1)
            × (applied.0.new_revision ≡ applied.1.revision)))
unfolding apply text hop_rs.Prelude.◌==◌ manifest_api_version hop_rs.Manifest.Names.validate_name
    hop_rs.Manifest.Names.required_text hop_rs.Manifest.Resolve.read_source inline_source
    hop_rs.Prelude.Map.insert hop_rs.Prelude.text_ltb hop_rs.Prelude.Map.contains
apply-revision_example = apply-revision call manifest pruning reads sample applied.1 applied.0 refl

abbrev moved : Database
moved = record sample { revision = 4 }

abbrev resolved : ResolvedManifest
resolved =
    value_or (record { credentials = []; assets = []; access = [] })
      (resolve_material no_world manifest)

build_plan-IsOwnPlan_example :
    IsOwnPlan call.source_id
      (rows_of (load_credentials sample) (load_assets sample) (load_access sample))
      call.fresh
      prepared.0
unfolding prepare hop_rs.Prelude.◌==◌ manifest_api_version text hop_rs.Manifest.Names.validate_name
    hop_rs.Manifest.Names.required_text hop_rs.Manifest.Resolve.read_source inline_source
    hop_rs.Prelude.Map.insert hop_rs.Prelude.text_ltb hop_rs.Prelude.Map.contains
build_plan-IsOwnPlan_example =
    build_plan-IsOwnPlan call.fresh plain_digests zero_key call.source_id (load_credentials sample)
      (load_assets sample) (load_access sample) resolved true prepared.0 refl

-- The catalog with a credential that the source declared, and that its manifest no longer mentions.
abbrev with_old : Database
with_old = record sample {
  credentials =
      record {
        id = text "c1";
        name = text "old";
        username = text "root";
        auth_type = hop_rs.Manifest.password;
        password_enc = none;
        private_key_enc = none;
        passphrase_enc = none;
        secret_hmac = none;
        created_at = none;
      }
      ∷ [];
  resource_ownership =
      owner_row credential (text "c1") declarative (some (text "hop-yaml"))
      ∷ sample.resource_ownership;
}

abbrev old_plan : Plan
old_plan = value_or blank_plan (
    build_plan call.fresh plain_digests zero_key call.source_id (load_credentials with_old)
      (load_assets with_old) (load_access with_old) resolved true)

abbrev old : ResourceRef
old = record { resource_type = credential; id = text "c1"; name = text "old" }

abbrev kept_web : ExistingAsset
kept_web = record {
  id = text "a1";
  name = text "web";
  credential_id = none;
  management_mode = some local_mode;
  source_id = none;
  last_applied_hash = none;
  orphaned_at = none;
}

build_plan-keeps_credentials_example : final_credential old_plan kept_web ≢ some old.id
unfolding prepare hop_rs.Prelude.◌==◌ manifest_api_version text hop_rs.Manifest.Names.validate_name
    hop_rs.Manifest.Names.required_text hop_rs.Manifest.Resolve.read_source inline_source
    hop_rs.Prelude.Map.insert hop_rs.Prelude.text_ltb hop_rs.Prelude.Map.contains
build_plan-keeps_credentials_example =
    build_plan-keeps_credentials call.fresh plain_digests zero_key call.source_id
      (load_credentials with_old) (load_assets with_old) (load_access with_old) resolved true
      old_plan kept_web old refl (there (here refl)) (here refl) refl refl
