-- ===== src/Command/Applies.antt =====
-- The `apply`, `config diff` and `config status` commands of main.rs.
use hop_rs.Prelude.{
  Bool, List, Outcome, Text, count, decimal, err, if◌then◌else◌, ok, text, ℕ, ◌++◌, ◌>>=◌,
}
use hop_rs.Errors.{AnyError}
use hop_rs.Manifest.{CatalogError, CatalogResult, Manifest}
use hop_rs.Catalog.{Database}
use hop_rs.Bootstrap.{connect_read_only}
use hop_rs.Errors.{any_core}
use hop_rs.Bootstrap.Status.{CatalogStatus, status, record_apply_failure}
use hop_rs.Envelope.{MasterKey}
use hop_rs.Apply.Run.{ApplySummary, ApplyOptions, Call, apply, diff}
use hop_rs.Startup.{HopConfig}
use hop_rs.Api.Configuration.{reads_at}
use hop_rs.Command.{Disk, Machine}
use hop_rs.Command.Scope.{load_manifest_scope}
use hop_rs.Command.Start.{stored, open_catalog, open_catalog_read_only, database_path}

-- The error that a command ends with.
pub data CommandError : Type 0 where
  any_error : AnyError → CommandError
  catalog_error : CatalogError → CommandError

abbrev pub Ended {ℓ} : Type ℓ → Type ℓ
Ended A = Outcome CommandError A

-- `error.into()` at the end of `finish_catalog_result`.
unfoldable pub finish_catalog_result {ℓ} : {A : Type ℓ} → CatalogResult A → Ended A
finish_catalog_result (ok a) = ok a
finish_catalog_result (err e) = err (catalog_error e)

unfoldable pub field_line : Text → ℕ → Text
unfolding decimal
field_line field count = field ++ (text "=" ++ (decimal count ++ text "\n"))

-- What `print_human_catalog_output` prints of a summary.
unfoldable pub human_summary : ApplySummary → Text
unfolding decimal field_line
human_summary s =
    text "catalog revision "
    ++ (decimal s.base_revision
        ++ (text " -> "
            ++ (decimal s.new_revision
                ++ (text "\n"
                    ++ (field_line (text "created") s.created
                        ++ (field_line (text "updated") s.updated
                            ++ (field_line (text "deleted") s.deleted
                                ++ (field_line (text "orphaned") s.orphaned
                                    ++ field_line (text "unchanged") s.unchanged))))))))

module _ (m : Machine) (config : HopConfig) where
  unfoldable pub command_call : MasterKey → Text → Call
  command_call key source = record m.call { master = key; source_id = source }

  -- `let _ = catalog.record_apply_failure(&source, "cli", error)`
  unfoldable pub noted_cli_failure : Bool → Text → CatalogError → Database → Database
  unfolding record_apply_failure
  noted_cli_failure dry_run source e db =
      if dry_run
      then db
      else elim (record_apply_failure m.call.digests m.failure_id m.call.now source (text "cli") e
          db) [ ok after ↦ after | err x ↦ db ]

  -- The apply on the open catalog, and the rows that it leaves.
  unfoldable pub apply_opened :
      Manifest → Text → ApplyOptions → MasterKey → Database → Ended ApplySummary × Database
  unfolding command_call noted_cli_failure reads_at finish_catalog_result apply
  apply_opened manifest source options key db =
      elim (apply (command_call key source) manifest options (reads_at db) db) [
        | ok (summary, after) ↦ (ok summary, after)
        | err e ↦ (finish_catalog_result (err e), noted_cli_failure options.dry_run source e db)
      ]

  unfoldable pub open_for : Bool → Disk → Outcome AnyError (Database × MasterKey) × Disk
  unfolding open_catalog open_catalog_read_only
  open_for dry_run disk =
      if dry_run then (open_catalog_read_only m config disk, disk) else open_catalog m config disk

  unfoldable pub run_apply_command :
      List Text → Text → ApplyOptions → Disk → Ended ApplySummary × Disk
  unfolding load_manifest_scope open_for apply_opened stored finish_catalog_result
  run_apply_command files source options disk = elim (load_manifest_scope m files) [
    | err e ↦ (finish_catalog_result (err e), disk)
    | ok manifest ↦
        let (opened, left) = open_for options.dry_run disk in
        elim opened [
          | err e ↦ (err (any_error e), left)
          | ok (db, key) ↦
              let (result, after) = apply_opened manifest source options key db in
              (result, stored after left)
        ]
  ]

  -- `ConfigCommand::Diff`: the catalog is open for reading only.
  unfoldable pub run_diff_command : List Text → Text → Bool → Disk → Ended ApplySummary
  unfolding load_manifest_scope open_catalog_read_only command_call reads_at finish_catalog_result
  run_diff_command files source prune disk = elim (load_manifest_scope m files) [
    | err e ↦ finish_catalog_result (err e)
    | ok manifest ↦ elim (open_catalog_read_only m config disk) [
      | err e ↦ err (any_error e)
      | ok (db, key) ↦
          finish_catalog_result
            (diff (command_call key source) manifest prune (reads_at db) db >>= λ r. ok r.0)
    ]
  ]

  -- `ConfigCommand::Status`
  unfoldable pub run_status_command : Disk → Ended CatalogStatus
  unfolding connect_read_only database_path any_core status finish_catalog_result
  run_status_command disk =
      elim (any_core (connect_read_only (database_path m config) disk.database)) [
        | err e ↦ err (any_error e)
        | ok db ↦ finish_catalog_result (status db)
      ]
