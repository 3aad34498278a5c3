-- ===== src/Apply.antt =====
-- The plan of crates/hop-core/src/catalog/apply.rs: what an apply would do with one resource, and
-- with the resources of its source that a manifest no longer mentions.
pub mod Owned
pub mod Claims
pub mod Hashes
pub mod Load
pub mod Deletes
pub mod Build
pub mod Execute
pub mod Run
pub mod Laws
use hop_rs.Prelude.{
  Bool, List, Option, Text, [], false, if◌then◌else◌, is_none, none, not, ok, some, text, true, ℕ,
  ◌&&◌, ◌++◌, ◌==◌, ◌>>=◌, ◌||◌, ◌∷◌,
}
use hop_rs.Prelude.Map.{Map, contains, insert_name, remove_name}
use hop_rs.Manifest.{ownership_conflict, CatalogResult, fail, CredentialType, AssetType}
use hop_rs.Catalog.{ResourceType, ManagementMode, local_mode, declarative}

pub data ApplyAction : Type 0 where
  created updated deleted orphaned unchanged : ApplyAction

pub record ApplyChange : Type 0 where
  pub resource_type : ResourceType
  pub name : Text
  pub action : ApplyAction

pub record ResourceRef : Type 0 where
  pub resource_type : ResourceType
  pub id : Text
  pub name : Text

pub record CredentialUpsert : Type 0 where
  pub id : Text
  pub name : Text
  pub credential_type : CredentialType
  pub username : Text
  pub password : Option Text
  pub private_key : Option Text
  pub passphrase : Option Text
  pub hash : Text

pub record AssetUpsert : Type 0 where
  pub id : Text
  pub name : Text
  pub asset_type : AssetType
  pub host : Text
  pub port : ℕ
  pub display_name : Option Text
  pub description : Option Text
  pub credential_id : Option Text
  pub hash : Text

pub record AccessUpsert : Type 0 where
  pub id : Text
  pub name : Text
  pub public_key : Text
  pub fingerprint : Text
  pub enabled : Bool
  pub asset_ids : Option (List Text)
  pub hash : Text

pub record Plan : Type 0 where
  pub credential_upserts : List CredentialUpsert
  pub asset_upserts : List AssetUpsert
  pub access_upserts : List AccessUpsert
  pub orphans : List ResourceRef
  pub deletes : List ResourceRef
  pub changes : List ApplyChange

-- A row of a resource, joined with its ownership.
pub record ExistingResource : Type 0 where
  pub id : Text
  pub name : Text
  pub management_mode : Option ManagementMode
  pub source_id : Option Text
  pub last_applied_hash : Option Text
  pub orphaned_at : Option Text

pub record ExistingAsset : Type 0 where
  pub id : Text
  pub name : Text
  pub credential_id : Option Text
  pub management_mode : Option ManagementMode
  pub source_id : Option Text
  pub last_applied_hash : Option Text
  pub orphaned_at : Option Text

-- `ExistingAsset::resource`
unfoldable pub asset_resource : ExistingAsset → ExistingResource
asset_resource a = record {
  id = a.id;
  name = a.name;
  management_mode = a.management_mode;
  source_id = a.source_id;
  last_applied_hash = a.last_applied_hash;
  orphaned_at = a.orphaned_at;
}

-- `option.as_deref() == Some(value)`
unfoldable pub is_text : Option Text → Text → Bool
is_text none value = false
is_text (some t) value = t == value

unfoldable pub is_declarative : Option ManagementMode → Bool
is_declarative none = false
is_declarative (some local_mode) = false
is_declarative (some declarative) = true

owner_name : Option ManagementMode → Option Text → Text
owner_name (some declarative) (some owner) = text "declarative source " ++ owner
owner_name _ _ = text "local management"

unfoldable pub ensure_owned : ExistingResource → Text → Text → CatalogResult (Unit {0})
unfolding is_text is_declarative owner_name
ensure_owned existing source_id path =
    if is_declarative existing.management_mode && is_text existing.source_id source_id
    then ok tt
    else fail ownership_conflict (some path) (
        text "resource is already owned by "
        ++ owner_name existing.management_mode existing.source_id)

unfoldable pub push_change : Plan → ResourceType → Text → ApplyAction → Plan
push_change plan type name action = record plan {
  changes = plan.changes ++ (record { resource_type = type; name = name; action = action } ∷ []);
}

unfoldable pub push_delete : Plan → ResourceType → Text → Text → Plan
push_delete plan type id name = record plan {
  deletes = plan.deletes ++ (record { resource_type = type; id = id; name = name } ∷ []);
}

unfoldable pub push_orphan : Plan → ResourceType → Text → Text → Plan
push_orphan plan type id name = record plan {
  orphans = plan.orphans ++ (record { resource_type = type; id = id; name = name } ∷ []);
}

unfoldable pub plan_absent :
    Plan → ResourceType → Text → Option ExistingResource → Text → Text → CatalogResult Plan
unfolding ensure_owned push_delete push_change
plan_absent plan type name none source_id path = ok (push_change plan type name unchanged)
plan_absent plan type name (some existing) source_id path = do
  _ ← ensure_owned existing source_id path
  ok (push_change (push_delete plan type existing.id name) type name deleted)

-- One round of the loop of `plan_missing`.
unfoldable pub miss_one :
    Plan → ResourceType → Text → ExistingResource → List Text → Text → Bool → Plan
unfolding push_delete push_orphan push_change is_text
miss_one plan type name resource mentioned source_id prune =
    if not (is_text resource.source_id source_id) || contains name mentioned
    then plan
    else if prune
    then push_change (push_delete plan type resource.id name) type name deleted
    else if is_none resource.orphaned_at
    then push_change (push_orphan plan type resource.id name) type name orphaned
    else push_change plan type name unchanged

unfoldable pub plan_missing :
    Plan → ResourceType → Map ExistingResource → List Text → Text → Bool → Plan
unfolding miss_one
plan_missing plan type [] mentioned source_id prune = plan
plan_missing plan type ((name, resource) ∷ existing) mentioned source_id prune =
    plan_missing (miss_one plan type name resource mentioned source_id prune) type existing
      mentioned source_id prune

-- `fresh` is the id that `new_id` gives for a resource that is not there.
unfoldable pub classify_present :
    Text → Option ExistingResource → Text → Text → Text → CatalogResult (Text × ApplyAction)
unfolding ensure_owned is_text
classify_present fresh none source_id hash path = ok (fresh, created)
classify_present fresh (some existing) source_id hash path = do
  _ ← ensure_owned existing source_id path
  ok (
    existing.id,
    if is_text existing.last_applied_hash hash && is_none existing.orphaned_at
        then unchanged
        else updated,
  )

-- The names that exist after the apply: those of the manifest that are present, and not the absent.
unfoldable pub apply_final_names : {A : Type 0} → (A → Bool) → Map A → List Text → List Text
apply_final_names is_present [] names = names
apply_final_names is_present ((name, resource) ∷ rest) names =
    apply_final_names is_present rest
      (if is_present resource then insert_name name names else remove_name name names)

unfoldable pub remove_pruned_names : List Text → Map ExistingResource → List Text → Text → List Text
unfolding is_text
remove_pruned_names names [] mentioned source_id = names
remove_pruned_names names ((name, resource) ∷ rest) mentioned source_id =
    remove_pruned_names
      (if is_text resource.source_id source_id && not (contains name mentioned)
        then remove_name name names
        else names)
      rest mentioned source_id
