-- ===== src/Runtime/Keys.antt =====
-- The operations of runtime.rs on access keys.
use hop_rs.Prelude.{
  Bool, List, Text, [], any, ensure, false, if◌then◌else◌, keep, not, ok, some, text, true,
  update_where, ◌&&◌, ◌++◌, ◌==◌, ◌>>=◌, ◌>>◌, ◌∷◌,
}
use hop_rs.Prelude.Map.{insert_name}
use hop_rs.Errors.{validation, Result}
use hop_rs.Models.{AssetAccessMode, all, restricted, NewAuthorizedKey}
use hop_rs.Catalog.{access_key, Database}
use hop_rs.Catalog.Statements.{
  has_asset, insert_access_key, insert_assignment, insert_local_ownership, increment_revision,
}
use hop_rs.Runtime.{ensure_local, delete_local_resource}

-- `BTreeSet::from_iter`
unfoldable pub name_set : List Text → List Text
name_set [] = []
name_set (x ∷ xs) = insert_name x (name_set xs)

check_ids : List Text → Database → Result (Unit {0})
check_ids [] db = ok tt
check_ids (id ∷ ids) db = do
  ensure (has_asset id db.assets) (validation (text "unknown asset id: " ++ id))
  check_ids ids db

unfoldable pub validate_asset_ids : List Text → Database → Result (Unit {0})
unfolding name_set check_ids has_asset
validate_asset_ids ids db = check_ids (name_set ids) db

-- The loop of INSERTs into access_key_assets.
unfoldable pub insert_assignments : Text → List Text → Database → Result Database
insert_assignments key_id [] db = ok db
insert_assignments key_id (id ∷ ids) db = do
  inserted ← insert_assignment key_id id db
  insert_assignments key_id ids inserted

-- DELETE FROM access_key_assets WHERE key_id = ?1
unfoldable pub clear_assignments : Text → Database → Database
clear_assignments key_id db = record db {
  access_key_assets = keep (λ r. not (r.key_id == key_id)) db.access_key_assets;
}

unfoldable pub replace_access_assignments : Text → List Text → Database → Result Database
unfolding insert_assignments insert_assignment clear_assignments name_set
replace_access_assignments key_id ids db =
    insert_assignments key_id (name_set ids) (clear_assignments key_id db)

unfoldable pub add_authorized_key_with_access :
    Text → Text → NewAuthorizedKey → AssetAccessMode → List Text → Database → Result Database
unfolding validate_asset_ids insert_access_key insert_local_ownership replace_access_assignments
    increment_revision
add_authorized_key_with_access id now key mode ids db = do
  validate_asset_ids ids db
  inserted ←
      insert_access_key
        (record {
          id = id;
          name = key.name;
          public_key = key.public_key;
          fingerprint = key.fingerprint;
          enabled = true;
          access_mode = mode;
          created_at = some now;
        })
        db
  owned ← insert_local_ownership access_key id inserted
  assigned ← replace_access_assignments id ids owned
  ok (increment_revision assigned)

-- `add_authorized_key`
unfoldable pub add_authorized_key : Text → Text → NewAuthorizedKey → Database → Result Database
unfolding add_authorized_key_with_access
add_authorized_key id now key db = add_authorized_key_with_access id now key all [] db

-- `enabled != ?1`
unfoldable pub differs : Bool → Bool → Bool
differs true b = not b
differs false b = b

-- UPDATE access_keys SET enabled = ?1 WHERE id = ?2 AND enabled != ?1
unfoldable pub write_enabled : Text → Bool → Database → Database
unfolding differs
write_enabled id active db = record db {
  access_keys =
      update_where (λ k. k.id == id && differs k.enabled active)
        (λ k. record k { enabled = active }) db.access_keys;
}

unfoldable pub set_authorized_key_active : Text → Bool → Database → Result Database
unfolding ensure_local write_enabled differs increment_revision
set_authorized_key_active id active db = do
  _ ← ensure_local access_key id db
  let changed = any (λ k. k.id == id && differs k.enabled active) db.access_keys
  let written = write_enabled id active db
  ok (if changed then increment_revision written else written)

-- UPDATE access_keys SET access_mode = ?1 WHERE id = ?2
unfoldable pub write_access_mode : Text → AssetAccessMode → Database → Database
write_access_mode id mode db = record db {
  access_keys =
      update_where (λ k. k.id == id) (λ k. record k { access_mode = mode }) db.access_keys;
}

-- `mode == All && !asset_ids.is_empty()`
mode_mismatch : AssetAccessMode → List Text → Bool
mode_mismatch restricted ids = false
mode_mismatch all [] = false
mode_mismatch all (id ∷ ids) = true

unfoldable pub set_authorized_key_access :
    Text → AssetAccessMode → List Text → Database → Result Database
unfolding mode_mismatch ensure_local validate_asset_ids write_access_mode replace_access_assignments
    increment_revision
set_authorized_key_access id mode ids db = do
  ensure (not (mode_mismatch mode ids))
      (validation (text "all access mode cannot contain asset assignments"))
  ensure_local access_key id db
  validate_asset_ids ids db
  assigned ← replace_access_assignments id ids (write_access_mode id mode db)
  ok (increment_revision assigned)

unfoldable pub delete_authorized_key : Text → Database → Result Database
unfolding delete_local_resource
delete_authorized_key id db = delete_local_resource access_key id db
