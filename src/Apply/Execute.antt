-- ===== src/Apply/Execute.antt =====
-- `execute_plan` of apply.rs: the statements of one transaction. A statement that breaks a
-- constraint of the schema fails, and the transaction with it.
use hop_rs.Prelude.{
  List, Option, Text, [], any, ensure, err, if◌then◌else◌, is_some, keep, none, not, ok, some, text,
  unwrap_or, update_where, ℕ, ◌&&◌, ◌++◌, ◌==◌, ◌>>=◌, ◌>>◌, ◌||◌, ◌∷◌,
}
use hop_rs.Errors.{Result, database, constraint_failed}
use hop_rs.Manifest.{CatalogResult, fail, apply_failed}
use hop_rs.Models.{all, restricted}
use hop_rs.Catalog.{
  ResourceType, credential, asset, access_key, resource_type_as_str, same_type, declarative,
  CredentialRecord, AssetRecord, KeyRecord, Ownership, ConfigSource, AuditEvent, Database,
}
use hop_rs.Catalog.Statements.{
  has_credential, has_asset, has_key, owns, reference_ok, asset_check, port_check, insert_asset,
  insert_credential, insert_access_key, insert_assignment, delete_ownership, delete_row,
}
use hop_rs.Envelope.{Bytes, MasterKey, Ciphers, encrypt_envelope}
use hop_rs.Apply.{ResourceRef, Plan, CredentialUpsert, AssetUpsert, AccessUpsert, is_text}
use hop_rs.Apply.Hashes.{as_bytes}
use hop_rs.Apply.Deletes.{of_type}

-- `map_err(database_error)`
unfoldable pub database_step {ℓ} : {A : Type ℓ} → Result A → CatalogResult A
database_step (ok a) = ok a
database_step (err e) = fail apply_failed none (text "catalog database operation failed")

-- INSERT INTO credentials … ON CONFLICT(id) DO UPDATE
unfoldable pub upsert_credential_row : CredentialRecord → Database → Result Database
unfolding has_credential insert_credential
upsert_credential_row row db =
    if has_credential row.id db.credentials
    then ensure (not (any (λ c. not (c.id == row.id) && c.name == row.name) db.credentials))
        (database constraint_failed)
      >> ok (record db {
        credentials =
            update_where (λ c. c.id == row.id) (λ c. record row { created_at = c.created_at })
              db.credentials;
      })
    else insert_credential row db

-- INSERT INTO assets … ON CONFLICT(id) DO UPDATE: the tags stay.
unfoldable pub upsert_asset_row : AssetRecord → Database → Result Database
unfolding has_asset insert_asset asset_check port_check reference_ok
upsert_asset_row row db =
    if has_asset row.id db.assets
    then ensure
        (not (any (λ a. not (a.id == row.id) && a.name == row.name) db.assets)
          && asset_check row.asset_type row.credential_id
          && port_check row.port
          && reference_ok row.credential_id db.credentials)
        (database constraint_failed)
      >> ok (record db {
        assets =
            update_where (λ a. a.id == row.id)
              (λ a. record row { tags_json = a.tags_json; created_at = a.created_at }) db.assets;
      })
    else insert_asset row db

-- INSERT INTO access_keys … ON CONFLICT(id) DO UPDATE
unfoldable pub upsert_key_row : KeyRecord → Database → Result Database
unfolding has_key insert_access_key
upsert_key_row row db =
    if has_key row.id db.access_keys
    then ensure
        (not (
          any
            (λ k.
              not (k.id == row.id)
              && (k.name == row.name
                  || k.public_key == row.public_key
                  || k.fingerprint == row.fingerprint))
            db.access_keys))
        (database constraint_failed)
      >> ok (record db {
        access_keys =
            update_where (λ k. k.id == row.id) (λ k. record row { created_at = k.created_at })
              db.access_keys;
      })
    else insert_access_key row db

-- The time of the statements, the ids that `new_id` draws, the nonce that is drawn for a context,
-- and the arguments of `execute_plan`.
module _ (now : Text) (source_id : Text) (generation : ℕ) where
  -- `upsert_ownership`, with UNIQUE (resource_type, source_id, source_key).
  unfoldable pub upsert_ownership :
      ResourceType → Text → Text → Text → Database → CatalogResult Database
  unfolding owns database_step same_type is_text resource_type_as_str
  upsert_ownership type id name hash db =
      let source_key = resource_type_as_str type ++ (text "/" ++ name) in
      let row : Ownership = record {
        resource_type = type;
        resource_id = id;
        management_mode = declarative;
        source_id = some source_id;
        source_key = some source_key;
        source_generation = some generation;
        last_applied_hash = some hash;
        last_applied_at = some now;
        orphaned_at = none;
      } in
      let taken = λ (o : Ownership).
        same_type o.resource_type type
        && not (o.resource_id == id)
        && is_text o.source_id source_id
        && is_text o.source_key source_key in
      database_step (
        ensure (not (any taken db.resource_ownership)) (database constraint_failed)
        >> ok (record db {
          resource_ownership =
              if any (owns type id) db.resource_ownership
              then update_where (owns type id) (λ o. row) db.resource_ownership
              else row ∷ db.resource_ownership;
        }))

  module _ (ciphers : Ciphers) (nonces : Text → Bytes) (master : MasterKey) where
    unfoldable pub encrypt_optional : Text → Text → Option Text → CatalogResult (Option Text)
    unfolding encrypt_envelope as_bytes
    encrypt_optional id field none = ok none
    encrypt_optional id field (some value) =
        let context = id ++ (text ":" ++ field) in
        elim (encrypt_envelope ciphers (nonces context) master context (as_bytes value)) [
          | ok envelope ↦ ok (some envelope)
          | err e ↦ fail apply_failed none (text "failed to encrypt credential material")
        ]

    unfoldable pub execute_credential : CredentialUpsert → Database → CatalogResult Database
    unfolding encrypt_optional database_step upsert_credential_row upsert_ownership
    execute_credential c db = do
      password_enc ← encrypt_optional c.id (text "password") c.password
      private_key_enc ← encrypt_optional c.id (text "private_key") c.private_key
      passphrase_enc ← encrypt_optional c.id (text "passphrase") c.passphrase
      written ← database_step (
          upsert_credential_row
            (record {
              id = c.id;
              name = c.name;
              username = c.username;
              auth_type = c.credential_type;
              password_enc = password_enc;
              private_key_enc = private_key_enc;
              passphrase_enc = passphrase_enc;
              secret_hmac = some c.hash;
              created_at = some now;
            })
            db)
      upsert_ownership credential c.id c.name c.hash written

    unfoldable pub execute_credentials : List CredentialUpsert → Database → CatalogResult Database
    unfolding execute_credential
    execute_credentials [] db = ok db
    execute_credentials (c ∷ rest) db = do
      written ← execute_credential c db
      execute_credentials rest written

  unfoldable pub execute_asset : AssetUpsert → Database → CatalogResult Database
  unfolding database_step upsert_asset_row upsert_ownership
  execute_asset a db = do
    written ← database_step (
        upsert_asset_row
          (record {
            id = a.id;
            name = a.name;
            asset_type = a.asset_type;
            host = a.host;
            port = a.port;
            display_name = a.display_name;
            description = a.description;
            tags_json = none;
            credential_id = a.credential_id;
            created_at = some now;
            updated_at = some now;
          })
          db)
    upsert_ownership asset a.id a.name a.hash written

  unfoldable pub execute_assets : List AssetUpsert → Database → CatalogResult Database
  unfolding execute_asset
  execute_assets [] db = ok db
  execute_assets (a ∷ rest) db = do written ← execute_asset a db; execute_assets rest written

  -- The INSERTs of an allowlist.
  unfoldable pub assign_all : Text → List Text → Database → CatalogResult Database
  unfolding database_step insert_assignment
  assign_all key_id [] db = ok db
  assign_all key_id (asset_id ∷ rest) db = do
    assigned ← database_step (insert_assignment key_id asset_id db)
    assign_all key_id rest assigned

  -- DELETE FROM access_key_assets WHERE key_id = ?
  unfoldable pub clear_key_assets : Text → Database → Database
  clear_key_assets key_id db = record db {
    access_key_assets = keep (λ r. not (r.key_id == key_id)) db.access_key_assets;
  }

  unfoldable pub execute_key : AccessUpsert → Database → CatalogResult Database
  unfolding database_step upsert_key_row upsert_ownership assign_all clear_key_assets
  execute_key k db = do
    written ← database_step (
        upsert_key_row
          (record {
            id = k.id;
            name = k.name;
            public_key = k.public_key;
            fingerprint = k.fingerprint;
            enabled = k.enabled;
            access_mode = if is_some k.asset_ids then restricted else all;
            created_at = some now;
          })
          db)
    assigned ← assign_all k.id (unwrap_or [] k.asset_ids) (clear_key_assets k.id written)
    upsert_ownership access_key k.id k.name k.hash assigned

  unfoldable pub execute_keys : List AccessUpsert → Database → CatalogResult Database
  unfolding execute_key
  execute_keys [] db = ok db
  execute_keys (k ∷ rest) db = do written ← execute_key k db; execute_keys rest written

-- UPDATE resource_ownership SET orphaned_at = CURRENT_TIMESTAMP
unfoldable pub orphan_one : Text → ResourceRef → Database → Database
unfolding owns
orphan_one now r db = record db {
  resource_ownership =
      update_where (owns r.resource_type r.id) (λ o. record o { orphaned_at = some now })
        db.resource_ownership;
}

unfoldable pub orphan_all : Text → List ResourceRef → Database → Database
unfolding orphan_one
orphan_all now [] db = db
orphan_all now (r ∷ rest) db = orphan_all now rest (orphan_one now r db)

unfoldable pub delete_resource : ResourceRef → Database → CatalogResult Database
unfolding database_step delete_ownership delete_row
delete_resource r db =
    database_step (delete_row r.resource_type r.id (delete_ownership r.resource_type r.id db))

unfoldable pub delete_all : List ResourceRef → Database → CatalogResult Database
unfolding delete_resource
delete_all [] db = ok db
delete_all (r ∷ rest) db = do removed ← delete_resource r db; delete_all rest removed

-- The order in which the types are deleted.
unfoldable pub execute_deletes : Plan → Database → CatalogResult Database
unfolding delete_all same_type
execute_deletes plan db = do
  without_keys ← delete_all (keep (of_type access_key) plan.deletes) db
  without_assets ← delete_all (keep (of_type asset) plan.deletes) without_keys
  delete_all (keep (of_type credential) plan.deletes) without_assets

-- INSERT INTO config_sources … ON CONFLICT(source_id) DO UPDATE
unfoldable pub record_success : Text → Text → ℕ → ℕ → Database → Database
record_success now source_id generation revision db =
    let row : ConfigSource = record {
      source_id = source_id;
      generation = generation;
      last_success_at = some now;
      last_success_revision = some revision;
      last_error_at = none;
      last_error_code = none;
      last_error_message = none;
    } in
    record db {
      config_sources =
          if any (λ s. s.source_id == source_id) db.config_sources
          then update_where (λ s. s.source_id == source_id) (λ s. row) db.config_sources
          else row ∷ db.config_sources;
    }

unfoldable pub insert_audit_event : AuditEvent → Database → Result Database
insert_audit_event row db = do
  ensure (not (any (λ e. e.id == row.id) db.audit_events)) (database constraint_failed)
  ok (record db { audit_events = row ∷ db.audit_events })

-- The statements that write resources and their ownership.
unfoldable pub execute_rows :
    Text
    → Text
    → ℕ
    → Ciphers
    → (Text → Bytes)
    → MasterKey
    → Plan
    → Database
    → CatalogResult Database
unfolding execute_credentials execute_assets execute_keys orphan_all execute_deletes
execute_rows now source_id generation ciphers nonces master plan db = do
  with_credentials ←
      execute_credentials now source_id generation ciphers nonces master plan.credential_upserts db
  with_assets ← execute_assets now source_id generation plan.asset_upserts with_credentials
  with_keys ← execute_keys now source_id generation plan.access_upserts with_assets
  execute_deletes plan (orphan_all now plan.orphans with_keys)

-- The statements that close an apply: the revision, the state of the source and the audit event.
unfoldable pub close_apply : Text → Text → ℕ → ℕ → Text → Text → Database → CatalogResult Database
unfolding record_success insert_audit_event database_step
close_apply now source_id generation new_revision event_id details db = database_step (
    insert_audit_event
      (record {
        id = event_id;
        actor_label = text "catalog-apply";
        action = text "config.apply";
        target_type = text "config_source";
        target_id = some source_id;
        target_label = some source_id;
        result = text "success";
        details_json = some details;
      })
      (record_success now source_id generation new_revision
        (record db { revision = new_revision })))

-- `event_id` is what `new_id` draws for the audit event, and `details` the text of its JSON.
unfoldable pub execute_plan :
    Text
    → Text
    → ℕ
    → ℕ
    → Ciphers
    → (Text → Bytes)
    → MasterKey
    → Text
    → Text
    → Plan
    → Database
    → CatalogResult Database
unfolding execute_rows close_apply
execute_plan now source_id generation new_revision ciphers nonces master event_id details plan db =
    do
      written ← execute_rows now source_id generation ciphers nonces master plan db
      close_apply now source_id generation new_revision event_id details written
