-- ===== src/Command/Laws/Rehearsals.antt =====
-- A rehearsal of an apply.
use hop_rs.Prelude.{
  Bool, List, Option, Outcome-cases, Text, ap, arith, first_step, inl, inr, none, ok, option_map,
  refl, some, true, ◌∙◌, ◌≡◌,
}
use hop_rs.Manifest.{Manifest}
use hop_rs.Catalog.{Database}
use hop_rs.Bootstrap.{DatabaseFile, connect_read_only, read_existing}
use hop_rs.Envelope.{MasterKey}
use hop_rs.Apply.Run.{ApplyOptions, apply}
use hop_rs.Apply.Laws.Revision.{apply-dry_run}
use hop_rs.Startup.{HopConfig}
use hop_rs.Errors.{any_core}
use hop_rs.Api.Configuration.{reads_at}
use hop_rs.Command.{Disk, Machine}
use hop_rs.Command.Scope.{load_manifest_scope}
use hop_rs.Command.Start.{stored, database_path, existing_master_key, open_catalog_read_only}
use hop_rs.Command.Applies.{
  command_call, noted_cli_failure, apply_opened, open_for, run_apply_command,
}

-- What a read-only connection reads are the rows of the file.
connect_read_only-reads :
    (path : Text) (file : Option DatabaseFile) (db : Database)
    → connect_read_only path file ≡ ok db
    → (f : DatabaseFile) × (file ≡ some f) × (f.catalog ≡ db)
unfolding connect_read_only read_existing
connect_read_only-reads path none db h = ground arith
connect_read_only-reads path (some f) db h = (f, refl, ground arith)

stored_rows :
    (found : Option DatabaseFile) (file : DatabaseFile) (db : Database)
    → found ≡ some file
    → file.catalog ≡ db
    → option_map (λ (f : DatabaseFile). record f { catalog = db }) found ≡ found
stored_rows found file db e rows = rw (e, ← rows) refl

module _ (m : Machine) (config : HopConfig) (disk : Disk) where
  opened-stored :
      (db : Database) (key : MasterKey)
      → open_catalog_read_only m config disk ≡ ok (db, key)
      → stored db disk ≡ disk
  unfolding open_catalog_read_only any_core stored
  opened-stored db key h =
      let (read, found, h1) =
        first_step (any_core (connect_read_only (database_path m config) disk.database)) _ h in
      let (held, key_found, h2) =
        first_step (any_core (existing_master_key m config disk.secret)) _ h1 in
      let (file, there_file, rows) =
        connect_read_only-reads (database_path m config) disk.database read (ground arith) in
      let same : read ≡ db = cc in
      ap (λ d. record disk { database = d })
        (stored_rows disk.database file db there_file (rows ∙ same))

  open_for-dry :
      (dry_run : Bool)
      → dry_run ≡ true
      → open_for m config dry_run disk ≡ (open_catalog_read_only m config disk, disk)
  unfolding open_for
  open_for-dry dry_run dry = rw dry refl

  rehearsed-unchanged :
      (manifest : Manifest) (source : Text) (options : ApplyOptions) (db : Database)
      (key : MasterKey)
      → options.dry_run ≡ true
      → (apply_opened m config manifest source options key db).1 ≡ db
  unfolding apply_opened noted_cli_failure
  rehearsed-unchanged manifest source options db key dry =
      elim (Outcome-cases
        (apply (command_call m config key source) manifest options (reads_at db) db)) [
          | inl ((s, after), done) ↦ rw done (
              apply-dry_run (command_call m config key source) manifest options (reads_at db) db
                after s dry done)
          | inr (e, failed) ↦ rw (failed, dry) refl
        ]

  -- A rehearsal leaves the disk as it is, whatever comes of it: it creates neither the catalog nor
  -- the key, and notes no failure.
  pub run_apply_command-dry_run :
      (files : List Text) (source : Text) (options : ApplyOptions)
      → options.dry_run ≡ true
      → (run_apply_command m config files source options disk).1 ≡ disk
  unfolding run_apply_command
  run_apply_command-dry_run files source options dry =
      elim (Outcome-cases (load_manifest_scope m files)) [
        | inr (e, failed) ↦ rw (run_apply_command, failed) refl
        | inl (manifest, loaded) ↦ elim (Outcome-cases (open_catalog_read_only m config disk)) [
          | inr (e, failed) ↦
              rw (run_apply_command, loaded, open_for-dry options.dry_run dry, failed)
                (ap (λ o. o.1) (open_for-dry options.dry_run dry))
          | inl ((db, key), opened) ↦
              rw (run_apply_command, loaded, open_for-dry options.dry_run dry, opened)
                (ap (λ o. stored (apply_opened m config manifest source options key db).1 o.1)
                    (open_for-dry options.dry_run dry)
                  ∙ ap (λ d. stored d disk) (rehearsed-unchanged manifest source options db key dry)
                  ∙ opened-stored db key opened)
        ]
      ]
