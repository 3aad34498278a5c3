-- ===== src/Tests/Commands.antt =====
-- The theorems on the commands at concrete inputs.
use hop_rs.Prelude.{[], false, none, ok, refl, some, text, trim, true, ◌==◌, ◌↔◌, ◌∷◌, ◌≡◌}
use hop_rs.Startup.{HopConfig, default_config}
use hop_rs.Bootstrap.{baseline}
use hop_rs.Apply.Run.{ApplyOptions}
use hop_rs.Api.{ControlApiState, new_control_api_state}
use hop_rs.Command.{Disk, Machine}
use hop_rs.Command.Start.{Started, serve, open_catalog_read_only}
use hop_rs.Command.Applies.{run_apply_command}
use hop_rs.Command.Laws.Rehearsals.{run_apply_command-dry_run}
use hop_rs.Command.Laws.Starts.{Serves, serve-api_iff, serve-open_catalog_read_only}
use hop_rs.Tests.Envelopes.{open_codec, zero_key, plain_parsers, zeros}
use hop_rs.Tests.Applies.{call, manifest}

abbrev machine : Machine
machine = record {
  parsers = plain_parsers;
  paths = record {
    glob = λ pattern. none;
    path_before = λ a b. false;
    extension = λ path. some (text "yaml");
  };
  call = call;
  fresh_key = zeros 32;
  cutoff = λ days. text "2023-12-02";
  failure_id = text "e9";
  from_yaml = λ content. ok manifest;
  from_toml = λ content. ok manifest;
}

abbrev plain_config : HopConfig
plain_config = record default_config {
  data_dir = text "/var/hop";
  api = record {
    enabled = true;
    listen = text "127.0.0.1:8083";
    token = some (text "t0k");
    cors_allowlist = [];
  };
}

abbrev blank_disk : Disk
blank_disk = record { database = none; secret = none }

abbrev started : Started
started = record {
  catalog = baseline.catalog;
  master_key = zero_key;
  api = some (record { master_key = zero_key; token_hash = text "t0k" });
}

abbrev left : Disk
left = (serve machine plain_config blank_disk).1

serve-api_iff_example : Serves machine plain_config (text "t0k") ↔ (
    (api : ControlApiState) × (started.api ≡ some api)
    × (plain_config.api.token ≡ some (text "t0k"))
    × (new_control_api_state machine.call.digests started.master_key (text "t0k") ≡ ok api))
unfolding serve hop_rs.Prelude.◌==◌ text default_config
serve-api_iff_example = serve-api_iff machine plain_config blank_disk left started (text "t0k") refl

serve-open_catalog_read_only_example :
    open_catalog_read_only machine plain_config left ≡ ok (started.catalog, started.master_key)
unfolding hop_rs.Prelude.trim serve hop_rs.Prelude.◌==◌ text default_config
serve-open_catalog_read_only_example =
    serve-open_catalog_read_only machine plain_config blank_disk left started open_codec refl refl
      refl

abbrev rehearsal : ApplyOptions
rehearsal = record { base_revision = none; prune = false; dry_run = true }

run_apply_command-dry_run_example :
    (run_apply_command machine plain_config
      (text "hop.yaml" ∷ [])
      (text "home")
      rehearsal
      blank_disk).1
    ≡ blank_disk
run_apply_command-dry_run_example =
    run_apply_command-dry_run machine plain_config blank_disk (text "hop.yaml" ∷ []) (text "home")
      rehearsal refl
