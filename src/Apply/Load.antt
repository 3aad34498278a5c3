-- ===== src/Apply/Load.antt =====
-- The queries of apply.rs that load what is there, joined with its ownership.
use hop_rs.Prelude.{List, Option, Text, [], find, map, none, some, ◌∷◌}
use hop_rs.Prelude.Map.{Map, insert}
use hop_rs.Catalog.{credential, asset, access_key, Ownership, Database}
use hop_rs.Catalog.Statements.{owns}
use hop_rs.Apply.{ExistingResource, ExistingAsset}

-- `collect` into a `BTreeMap`
unfoldable pub collect_onto {ℓ} : {V : Type ℓ} → Map V → Map V → Map V
collect_onto m [] = m
collect_onto m ((name, value) ∷ rest) = collect_onto (insert name value m) rest

abbrev pub values {ℓ} : {V : Type ℓ} → Map V → List V
values [] = []
values ((name, value) ∷ rest) = value ∷ values rest

-- LEFT JOIN resource_ownership
unfoldable pub joined : Text → Text → Option Ownership → ExistingResource
joined id name none = record {
  id = id;
  name = name;
  management_mode = none;
  source_id = none;
  last_applied_hash = none;
  orphaned_at = none;
}
joined id name (some o) = record {
  id = id;
  name = name;
  management_mode = some o.management_mode;
  source_id = o.source_id;
  last_applied_hash = o.last_applied_hash;
  orphaned_at = o.orphaned_at;
}

unfoldable pub load_credentials : Database → Map ExistingResource
unfolding collect_onto joined owns
load_credentials db = collect_onto [] (
    map (λ c. (c.name, joined c.id c.name (find (owns credential c.id) db.resource_ownership)))
      db.credentials)

unfoldable pub load_access : Database → Map ExistingResource
unfolding collect_onto joined owns
load_access db = collect_onto [] (
    map (λ k. (k.name, joined k.id k.name (find (owns access_key k.id) db.resource_ownership)))
      db.access_keys)

unfoldable pub existing_asset : Option Text → ExistingResource → ExistingAsset
existing_asset credential_id r = record {
  id = r.id;
  name = r.name;
  credential_id = credential_id;
  management_mode = r.management_mode;
  source_id = r.source_id;
  last_applied_hash = r.last_applied_hash;
  orphaned_at = r.orphaned_at;
}

unfoldable pub load_assets : Database → Map ExistingAsset
unfolding collect_onto joined owns existing_asset
load_assets db = collect_onto [] (
    map
      (λ a. (
        a.name,
        existing_asset a.credential_id
            (joined a.id a.name (find (owns asset a.id) db.resource_ownership)),
      ))
      db.assets)
