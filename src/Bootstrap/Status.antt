-- ===== src/Bootstrap/Status.antt =====
-- `Catalog::status` and `record_apply_failure` of catalog.rs.
use hop_rs.Prelude.{
  Bool, List, Option, Text, [], any, false, if◌then◌else◌, is_some, keep, none, ok, option_map,
  some, sort_by, text, text_ltb, true, update_where, ℕ, ◌&&◌, ◌==◌, ◌>>=◌, ◌∷◌,
}
use hop_rs.Errors.{Result}
use hop_rs.Manifest.{
  CatalogError, CatalogErrorCode, CatalogResult, unsupported_api_version, unknown_field,
  duplicate_resource, invalid_resource_name, invalid_secret_source, secret_unavailable,
  invalid_credential_material, unknown_reference, resource_in_use, ownership_conflict,
  managed_by_source, revision_conflict, source_scan_incomplete, apply_failed, manifest_api_version,
  fail,
}
use hop_rs.Catalog.{ResourceType, resource_type_as_str, Ownership, ConfigSource, Database}
use hop_rs.Apply.Hashes.{Digests, JsonObject, text_value, optional_value}
use hop_rs.Apply.Execute.{insert_audit_event}

-- `to_string`: the name in snake case.
unfoldable pub error_code_as_str : CatalogErrorCode → Text
error_code_as_str unsupported_api_version = text "unsupported_api_version"
error_code_as_str unknown_field = text "unknown_field"
error_code_as_str duplicate_resource = text "duplicate_resource"
error_code_as_str invalid_resource_name = text "invalid_resource_name"
error_code_as_str invalid_secret_source = text "invalid_secret_source"
error_code_as_str secret_unavailable = text "secret_unavailable"
error_code_as_str invalid_credential_material = text "invalid_credential_material"
error_code_as_str unknown_reference = text "unknown_reference"
error_code_as_str resource_in_use = text "resource_in_use"
error_code_as_str ownership_conflict = text "ownership_conflict"
error_code_as_str managed_by_source = text "managed_by_source"
error_code_as_str revision_conflict = text "revision_conflict"
error_code_as_str source_scan_incomplete = text "source_scan_incomplete"
error_code_as_str apply_failed = text "apply_failed"

pub record OrphanStatus : Type 0 where
  pub resource_type : ResourceType
  pub source_id : Text
  pub source_key : Text
  pub orphaned_at : Text

pub record CatalogStatus : Type 0 where
  pub revision : ℕ
  pub manifest_api_version : Text
  pub sources : List ConfigSource
  pub orphans : List OrphanStatus

-- WHERE orphaned_at IS NOT NULL AND source_id IS NOT NULL
unfoldable pub is_orphan : Ownership → Bool
is_orphan o = is_some o.orphaned_at && is_some o.source_id

-- ORDER BY resource_type, source_key: NULL stands first.
unfoldable pub orphan_before : Ownership → Ownership → Bool
unfolding resource_type_as_str
orphan_before a b =
    let type = resource_type_as_str a.resource_type in
    let other = resource_type_as_str b.resource_type in
    if text_ltb type other then true else if text_ltb other type then false else elim b.source_key [
      | none ↦ false
      | some later ↦ elim a.source_key [ none ↦ true | some first ↦ text_ltb first later ]
    ]

-- A row with a NULL in one of the columns cannot be read.
orphan_status : Ownership → Option OrphanStatus
orphan_status o = elim o.source_id [
  | none ↦ none
  | some source_id ↦ elim o.source_key [
    | none ↦ none
    | some source_key ↦
        option_map
          (λ time. record {
            resource_type = o.resource_type;
            source_id = source_id;
            source_key = source_key;
            orphaned_at = time;
          })
          o.orphaned_at
  ]
]

orphan_rows : List Ownership → CatalogResult (List OrphanStatus)
unfolding orphan_status
orphan_rows [] = ok []
orphan_rows (o ∷ rows) = elim (orphan_status o) [
  | none ↦ fail apply_failed none (text "catalog database operation failed")
  | some orphan ↦ orphan_rows rows >>= λ orphans. ok (orphan ∷ orphans)
]

unfoldable pub status : Database → CatalogResult CatalogStatus
unfolding is_orphan orphan_before orphan_rows
status db = do
  orphans ← orphan_rows (sort_by orphan_before (keep is_orphan db.resource_ownership))
  ok (record {
    revision = db.revision;
    manifest_api_version = manifest_api_version;
    sources = sort_by (λ a b. text_ltb a.source_id b.source_id) db.config_sources;
    orphans = orphans;
  })

-- INSERT INTO config_sources … ON CONFLICT(source_id) DO UPDATE
unfoldable pub record_failure : Text → Text → CatalogError → Database → Database
unfolding error_code_as_str
record_failure now source_id error db =
    let row : ConfigSource = record {
      source_id = source_id;
      generation = 0;
      last_success_at = none;
      last_success_revision = none;
      last_error_at = some now;
      last_error_code = some (error_code_as_str error.code);
      last_error_message = some error.message;
    } in
    record db {
      config_sources =
          if any (λ s. s.source_id == source_id) db.config_sources
          then update_where (λ s. s.source_id == source_id)
              (λ s. record s {
                last_error_at = row.last_error_at;
                last_error_code = row.last_error_code;
                last_error_message = row.last_error_message;
              })
              db.config_sources
          else row ∷ db.config_sources;
    }

unfoldable pub failure_details : Text → CatalogError → JsonObject
unfolding error_code_as_str optional_value
failure_details source_id error =
    (text "source_id", text_value source_id)
    ∷ (text "error_code", text_value (error_code_as_str error.code))
    ∷ (text "path", optional_value error.path)
    ∷ []

-- `event_id` is what `new_id` draws.
unfoldable pub record_apply_failure :
    Digests → Text → Text → Text → Text → CatalogError → Database → Result Database
unfolding record_failure failure_details insert_audit_event
record_apply_failure digests event_id now source_id actor_label error db =
    insert_audit_event
      (record {
        id = event_id;
        actor_label = actor_label;
        action = text "config.apply";
        target_type = text "config_source";
        target_id = some source_id;
        target_label = some source_id;
        result = text "failed";
        details_json = some (digests.json_to_string (failure_details source_id error));
      })
      (record_failure now source_id error db)
