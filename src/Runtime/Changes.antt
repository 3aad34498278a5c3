-- ===== src/Runtime/Changes.antt =====
-- The local changes of the catalog, one constructor for each operation of runtime.rs that the panel
-- and the local commands call, and what a run of one does.
use hop_rs.Prelude.{Bool, List, Option, Text, none, some}
use hop_rs.Errors.{Result}
use hop_rs.Models.{AssetAccessMode, NewAuthorizedKey, NewAsset, NewCredential, TagsJson}
use hop_rs.Catalog.{ResourceType, credential, asset, access_key, Database}
use hop_rs.Runtime.Keys.{
  add_authorized_key, add_authorized_key_with_access, set_authorized_key_active,
  set_authorized_key_access, delete_authorized_key,
}
use hop_rs.Runtime.Assets.{add_asset, update_asset, delete_asset}
use hop_rs.Runtime.Credentials.{add_credential, update_credential, delete_credential}

pub data Change : Type 0 where
  create_key : Text → Text → NewAuthorizedKey → Change
  create_restricted_key : Text → Text → NewAuthorizedKey → AssetAccessMode → List Text → Change
  create_asset : Text → Text → NewAsset → Change
  create_credential : Text → Text → NewCredential → Change
  change_active : Text → Bool → Change
  change_access : Text → AssetAccessMode → List Text → Change
  change_asset : Text → Text → NewAsset → Change
  change_credential : Text → Text → NewCredential → Change
  drop_key : Text → Change
  drop_asset : Text → Change
  drop_credential : Text → Change

unfoldable pub run : TagsJson → Change → Database → Result Database
run codec (create_key id now k) db = add_authorized_key id now k db
run codec (create_restricted_key id now k mode ids) db =
    add_authorized_key_with_access id now k mode ids db
run codec (create_asset id now a) db = add_asset codec id now a db
run codec (create_credential id now c) db = add_credential id now c db
run codec (change_active id active) db = set_authorized_key_active id active db
run codec (change_access id mode ids) db = set_authorized_key_access id mode ids db
run codec (change_asset id now a) db = update_asset codec id now a db
run codec (change_credential id now c) db = update_credential id now c db
run codec (drop_key id) db = delete_authorized_key id db
run codec (drop_asset id) db = delete_asset id db
run codec (drop_credential id) db = delete_credential id db

-- The resource that a change is about, where it is there before.
abbrev pub target : Change → Option (ResourceType × Text)
target (change_active id active) = some (access_key, id)
target (change_access id mode ids) = some (access_key, id)
target (change_asset id now a) = some (asset, id)
target (change_credential id now c) = some (credential, id)
target (drop_key id) = some (access_key, id)
target (drop_asset id) = some (asset, id)
target (drop_credential id) = some (credential, id)
target _ = none
