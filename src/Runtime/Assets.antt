-- ===== src/Runtime/Assets.antt =====
-- The operations of runtime.rs on assets.
use hop_rs.Prelude.{
  Bool, Option, Text, err, false, find, if◌then◌else◌, none, ok, option_map, some, text, transpose,
  true, ◌==◌, ◌>>=◌,
}
use hop_rs.Errors.{database, constraint_failed, Result}
use hop_rs.Manifest.{AssetType, ssh, tcp}
use hop_rs.Models.{
  Asset, NewAsset, TagsJson, asset_try_from, validate_tcp_port, validate_asset_protocol,
  protocol_supports_managed_credentials,
}
use hop_rs.Catalog.{asset, AssetRecord, Database}
use hop_rs.Catalog.Statements.{
  insert_asset, update_asset_row, insert_local_ownership, increment_revision,
}
use hop_rs.Runtime.Access.{asset_row}
use hop_rs.Runtime.{ensure_local, delete_local_resource}

-- The word that the statement binds to `asset_type`, under the column's CHECK.
unfoldable pub stored_type : Text → Result AssetType
stored_type protocol =
    if protocol == text "ssh"
    then ok ssh
    else if protocol == text "tcp"
    then ok tcp
    else err (database constraint_failed)

module _ (codec : TagsJson) where
  -- The row that both arms of `write_asset` bind.
  unfoldable pub bound_asset : Text → Text → NewAsset → Result AssetRecord
  unfolding validate_asset_protocol validate_tcp_port protocol_supports_managed_credentials
      stored_type
  bound_asset id now a = do
    protocol ← validate_asset_protocol a.protocol
    port ← validate_tcp_port a.port
    asset_type ← stored_type protocol
    ok (record {
      id = id;
      name = a.name;
      asset_type = asset_type;
      host = a.hostname;
      port = port;
      display_name = none;
      description = a.description;
      tags_json = some (codec.to_json a.tags);
      credential_id =
          if protocol_supports_managed_credentials protocol then a.credential_id else none;
      created_at = some now;
      updated_at = some now;
    })

  unfoldable pub write_asset : Text → Text → NewAsset → Bool → Database → Result Database
  unfolding bound_asset insert_asset update_asset_row
  write_asset id now a update db = do
    row ← bound_asset id now a
    if update then update_asset_row row db else insert_asset row db

  unfoldable pub add_asset : Text → Text → NewAsset → Database → Result Database
  unfolding write_asset insert_local_ownership increment_revision
  add_asset id now a db = do
    written ← write_asset id now a false db
    owned ← insert_local_ownership asset id written
    ok (increment_revision owned)

  unfoldable pub update_asset : Text → Text → NewAsset → Database → Result Database
  unfolding ensure_local write_asset increment_revision
  update_asset id now a db = do
    _ ← ensure_local asset id db
    written ← write_asset id now a true db
    ok (increment_revision written)

unfoldable pub delete_asset : Text → Database → Result Database
unfolding delete_local_resource
delete_asset id db = delete_local_resource asset id db

module _ (codec : TagsJson) where
  unfoldable pub get_asset_by_name : Text → Database → Result (Option Asset)
  unfolding asset_try_from asset_row
  get_asset_by_name name db =
      transpose (
        option_map (λ a. asset_try_from codec (asset_row a)) (find (λ a. a.name == name) db.assets))
