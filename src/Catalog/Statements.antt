-- ===== src/Catalog/Statements.antt =====
-- The SQL statements of crates/hop-core/src/catalog/runtime.rs that write, with the constraints of
-- schema_v0_2.sql that they meet: a statement that would break a constraint fails.
use hop_rs.Prelude.{
  Bool, List, Option, Text, any, ensure, false, is_none, keep, leb, none, not, ok, option_map, some,
  true, unwrap_or, update_where, ℕ, ◌&&◌, ◌+◌, ◌==◌, ◌>>◌, ◌||◌, ◌∷◌,
}
use hop_rs.Errors.{database, constraint_failed, Result}
use hop_rs.Manifest.{AssetType, ssh, tcp}
use hop_rs.Catalog.{
  ResourceType, credential, asset, access_key, same_type, local_mode, CredentialRecord, AssetRecord,
  KeyRecord, Assignment, Ownership, Database,
}

-- A constraint of the schema.
abbrev pub constraint : Bool → Result (Unit {0})
constraint b = ensure b (database constraint_failed)

unfoldable pub has_credential : Text → List CredentialRecord → Bool
has_credential id rows = any (λ c. c.id == id) rows

unfoldable pub has_asset : Text → List AssetRecord → Bool
has_asset id rows = any (λ a. a.id == id) rows

unfoldable pub has_key : Text → List KeyRecord → Bool
has_key id rows = any (λ k. k.id == id) rows

unfoldable pub is_assigned : Text → Text → List Assignment → Bool
is_assigned key_id asset_id rows = any (λ r. r.key_id == key_id && r.asset_id == asset_id) rows

unfoldable pub owns : ResourceType → Text → Ownership → Bool
owns type id o = same_type o.resource_type type && o.resource_id == id

-- `credential_id TEXT REFERENCES credentials(id)`
unfoldable pub reference_ok : Option Text → List CredentialRecord → Bool
unfolding has_credential
reference_ok none rows = true
reference_ok (some id) rows = has_credential id rows

-- `CHECK (asset_type = 'ssh' OR credential_id IS NULL)`
unfoldable pub asset_check : AssetType → Option Text → Bool
asset_check ssh c = true
asset_check tcp c = is_none c

-- `port INTEGER NOT NULL CHECK (port BETWEEN 1 AND 65535)`
unfoldable pub port_check : ℕ → Bool
port_check p = leb 1 p && leb p 65535

unfoldable pub insert_asset : AssetRecord → Database → Result Database
unfolding reference_ok asset_check port_check
insert_asset row db = do
  ensure (not (any (λ a. a.id == row.id || a.name == row.name) db.assets))
      (database constraint_failed)
  ensure (asset_check row.asset_type row.credential_id) (database constraint_failed)
  ensure (port_check row.port) (database constraint_failed)
  ensure (reference_ok row.credential_id db.credentials) (database constraint_failed)
  ok (record db { assets = row ∷ db.assets })

-- UPDATE assets SET … WHERE id = ?: every column but the id, the display name and `created_at`.
unfoldable pub update_asset_row : AssetRecord → Database → Result Database
unfolding reference_ok asset_check port_check
update_asset_row row db = do
  ensure (not (any (λ a. not (a.id == row.id) && a.name == row.name) db.assets))
      (database constraint_failed)
  ensure (asset_check row.asset_type row.credential_id) (database constraint_failed)
  ensure (port_check row.port) (database constraint_failed)
  ensure (reference_ok row.credential_id db.credentials) (database constraint_failed)
  ok (record db {
    assets =
        update_where (λ a. a.id == row.id)
          (λ a. record row { id = a.id; display_name = a.display_name; created_at = a.created_at })
          db.assets;
  })

unfoldable pub insert_credential : CredentialRecord → Database → Result Database
insert_credential row db = do
  ensure (not (any (λ c. c.id == row.id || c.name == row.name) db.credentials))
      (database constraint_failed)
  ok (record db { credentials = row ∷ db.credentials })

unfoldable pub update_credential_row : CredentialRecord → Database → Result Database
update_credential_row row db = do
  ensure (not (any (λ c. not (c.id == row.id) && c.name == row.name) db.credentials))
      (database constraint_failed)
  ok (record db {
    credentials =
        update_where (λ c. c.id == row.id)
          (λ c. record row { id = c.id; secret_hmac = c.secret_hmac; created_at = c.created_at })
          db.credentials;
  })

unfoldable pub insert_access_key : KeyRecord → Database → Result Database
insert_access_key row db = do
  ensure
      (not (
        any
          (λ k.
            k.id == row.id
            || k.name == row.name
            || k.public_key == row.public_key
            || k.fingerprint == row.fingerprint)
          db.access_keys))
      (database constraint_failed)
  ok (record db { access_keys = row ∷ db.access_keys })

unfoldable pub insert_assignment : Text → Text → Database → Result Database
unfolding is_assigned has_key has_asset
insert_assignment key_id asset_id db = do
  ensure (not (is_assigned key_id asset_id db.access_key_assets)) (database constraint_failed)
  ensure (has_key key_id db.access_keys) (database constraint_failed)
  ensure (has_asset asset_id db.assets) (database constraint_failed)
  ok (record db {
    access_key_assets = record { key_id = key_id; asset_id = asset_id } ∷ db.access_key_assets;
  })

-- `insert_local_ownership`
unfoldable pub insert_local_ownership : ResourceType → Text → Database → Result Database
unfolding owns
insert_local_ownership type id db = do
  ensure (not (any (owns type id) db.resource_ownership)) (database constraint_failed)
  ok (record db {
    resource_ownership =
        record {
          resource_type = type;
          resource_id = id;
          management_mode = local_mode;
          source_id = none;
          source_key = none;
          source_generation = none;
          last_applied_hash = none;
          last_applied_at = none;
          orphaned_at = none;
        }
        ∷ db.resource_ownership;
  })

-- `increment_revision`
unfoldable pub increment_revision : Database → Database
increment_revision db = record db { revision = db.revision + 1 }

-- DELETE FROM …: `ON DELETE RESTRICT` from assets to credentials, `ON DELETE CASCADE` from the
-- assignments to both of their ends.
unfoldable pub delete_row : ResourceType → Text → Database → Result Database
delete_row credential id db = do
  ensure (not (any (λ a. unwrap_or false (option_map (λ c. c == id) a.credential_id)) db.assets))
      (database constraint_failed)
  ok (record db { credentials = keep (λ c. not (c.id == id)) db.credentials })
delete_row asset id db = ok (record db {
  assets = keep (λ a. not (a.id == id)) db.assets;
  access_key_assets = keep (λ r. not (r.asset_id == id)) db.access_key_assets;
})
delete_row access_key id db = ok (record db {
  access_keys = keep (λ k. not (k.id == id)) db.access_keys;
  access_key_assets = keep (λ r. not (r.key_id == id)) db.access_key_assets;
})

-- DELETE FROM resource_ownership WHERE resource_type = ? AND resource_id = ?
unfoldable pub delete_ownership : ResourceType → Text → Database → Database
unfolding owns
delete_ownership type id db = record db {
  resource_ownership = keep (λ o. not (owns type id o)) db.resource_ownership;
}
