-- ===== src/Command/Start.antt =====
-- How the commands of main.rs open the catalog, and how `serve` starts. Directories can be created
-- here; the listeners start with what `serve` has made.
use hop_rs.Prelude.{
  Option, Text, err, false, if◌then◌else◌, none, ok, option_map, some, text, true, ◌++◌, ◌>>=◌,
}
use hop_rs.Errors.{AnyError, message_error, core_error, any_core, io, Result}
use hop_rs.Manifest.{CatalogError}
use hop_rs.Catalog.{Database}
use hop_rs.Bootstrap.{DatabaseFile, connect, connect_read_only}
use hop_rs.Bootstrap.Status.{error_code_as_str}
use hop_rs.Envelope.{MasterKey, SecretFile, load_master_key, load_or_create_master_key}
use hop_rs.Apply.Run.{ApplySummary, apply}
use hop_rs.Startup.{HopConfig, SecretString, secret_is_empty, startup_manifest}
use hop_rs.Startup.Validate.{ssh_bind_addr, api_bind_addr}
use hop_rs.Runtime.Sessions.{prune_finished_sessions}
use hop_rs.Api.{ControlApiState, new_control_api_state}
use hop_rs.Api.Configuration.{reads_at}
use hop_rs.Command.{Disk, Machine, CommandResult}

-- The rows of the catalog's file, where there is one.
unfoldable pub stored : Database → Disk → Disk
stored db disk = record disk {
  database = option_map (λ (f : DatabaseFile). record f { catalog = db }) disk.database;
}

-- What `serve` hands to its listeners: the catalog, the key, and the state of the management
-- interface where that is to be served.
pub record Started : Type 0 where
  pub catalog : Database
  pub master_key : MasterKey
  pub api : Option ControlApiState

module _ (m : Machine) (config : HopConfig) where
  unfoldable pub database_path : Text
  database_path = m.parsers.join config.data_dir (text "hop.db")

  unfoldable pub master_key_path : Text
  master_key_path = m.parsers.join config.data_dir (text "hop.secret")

  -- The catalog's file stays where it was created, even if the key cannot be had.
  unfoldable pub open_catalog : Disk → CommandResult (Database × MasterKey) × Disk
  unfolding connect load_or_create_master_key database_path master_key_path
  open_catalog disk =
      let (connected, file) = connect database_path disk.database in
      let opened = record disk { database = file } in
      elim connected [
        | err e ↦ (err (core_error e), opened)
        | ok db ↦
            elim (load_or_create_master_key m.call.ciphers m.fresh_key master_key_path
              disk.secret) [
                | err e ↦ (err (core_error e), opened)
                | ok (key, secret) ↦ (ok (db, key), record opened { secret = some secret })
              ]
      ]

  -- `load_master_key` at the path of the configuration: a file that is not there is an error.
  unfoldable pub existing_master_key : Option SecretFile → Result MasterKey
  unfolding load_master_key master_key_path
  existing_master_key none = err (io (text "No such file or directory"))
  existing_master_key (some file) = load_master_key m.call.ciphers master_key_path file

  unfoldable pub open_catalog_read_only : Disk → CommandResult (Database × MasterKey)
  unfolding connect_read_only existing_master_key database_path any_core
  open_catalog_read_only disk = do
    db ← any_core (connect_read_only database_path disk.database)
    key ← any_core (existing_master_key disk.secret)
    ok (db, key)

  -- `config.api.enabled.then(|| token.filter(|token| !token.is_empty())).flatten()`
  unfoldable pub api_token : Option SecretString
  unfolding secret_is_empty
  api_token =
      if config.api.enabled
      then elim config.api.token [
        | none ↦ none
        | some token ↦ if secret_is_empty token then none else some token
      ]
      else none

  -- The addresses that `serve` parses before it changes anything.
  unfoldable pub check_addresses : Result (Unit {0})
  unfolding ssh_bind_addr api_bind_addr
  check_addresses = do
    _ ← ssh_bind_addr m.parsers m.call.world config
    if config.api.enabled then api_bind_addr m.parsers m.call.world config else ok tt

  -- `map_err(|error| anyhow!("startup config apply failed: {error}"))`
  unfoldable pub startup_failed : CatalogError → AnyError
  unfolding error_code_as_str
  startup_failed e = message_error (
      text "startup config apply failed: "
      ++ (error_code_as_str e.code ++ (text ": " ++ e.message)))

  unfoldable pub apply_startup_resources :
      MasterKey → Database → CommandResult (ApplySummary × Database)
  unfolding startup_manifest startup_failed reads_at apply
  apply_startup_resources key db =
      elim (apply (record m.call { master = key; source_id = text "startup-config" })
        (startup_manifest config) (record { base_revision = none; prune = true; dry_run = false })
        (reads_at db) db) [ ok done ↦ ok done | err e ↦ err (startup_failed e) ]

  unfoldable pub start_api : MasterKey → CommandResult (Option ControlApiState)
  unfolding api_token new_control_api_state
  start_api key = elim api_token [
    | none ↦ ok none
    | some token ↦ new_control_api_state m.call.digests key token >>= λ api. ok (some api)
  ]

  -- `serve` after the catalog is open, until its listeners run, with the rows that it leaves.
  unfoldable pub start_service : Database → MasterKey → CommandResult Started × Database
  unfolding check_addresses prune_finished_sessions apply_startup_resources start_api any_core
  start_service db key = elim (any_core check_addresses) [
    | err e ↦ (err e, db)
    | ok checked ↦
        let pruned =
          (prune_finished_sessions m.cutoff config.runtime.session_retention_days db).1 in
        elim (apply_startup_resources key pruned) [
          | err e ↦ (err e, pruned)
          | ok (summary, applied) ↦ (
            (start_api key >>= λ api.
                ok (record { catalog = applied; master_key = key; api = api })),
            applied,
          )
        ]
  ]

  unfoldable pub serve : Disk → CommandResult Started × Disk
  unfolding open_catalog start_service stored
  serve disk =
      let (opened, left) = open_catalog disk in
      elim opened [
        | err e ↦ (err e, left)
        | ok (db, key) ↦ let (started, after) = start_service db key in (started, stored after left)
      ]
