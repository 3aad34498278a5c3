-- ===== src/Apply/Deletes.antt =====
-- `validate_credential_deletes` of apply.rs.
use hop_rs.Prelude.{
  Bool, List, Option, Text, [], any, ensure, keep, map, not, ok, some, text, unwrap_or, ◌++◌, ◌==◌,
  ◌>>◌, ◌||◌, ◌∷◌,
}
use hop_rs.Prelude.Map.{Map, lookup}
use hop_rs.Manifest.{CatalogResult, resource_in_use}
use hop_rs.Catalog.{ResourceType, credential, asset, same_type}
use hop_rs.Apply.{ResourceRef, Plan, AssetUpsert, ExistingAsset, is_text}
use hop_rs.Apply.Load.{collect_onto, values}

abbrev pub of_type : ResourceType → ResourceRef → Bool
of_type type r = same_type r.resource_type type

-- The credential that an asset refers to after the plan.
unfoldable pub updated_assets : List AssetUpsert → Map (Option Text)
unfolding collect_onto
updated_assets upserts = collect_onto [] (map (λ a. (a.id, a.credential_id)) upserts)

unfoldable pub final_credential : Plan → ExistingAsset → Option Text
unfolding updated_assets lookup
final_credential plan a =
    unwrap_or a.credential_id (lookup a.id (updated_assets plan.asset_upserts))

unfoldable pub asset_deleted : Plan → ExistingAsset → Bool
unfolding same_type
asset_deleted plan a = any (λ d. d.id == a.id) (keep (of_type asset) plan.deletes)

unfoldable pub check_unused : Plan → ResourceRef → List ExistingAsset → CatalogResult (Unit {0})
unfolding final_credential asset_deleted is_text
check_unused plan c [] = ok tt
check_unused plan c (a ∷ rest) =
    ensure (asset_deleted plan a || not (is_text (final_credential plan a) c.id)) (record {
      code = resource_in_use;
      path = some (text "credentials." ++ c.name);
      message = text "credential is still referenced by asset " ++ a.name;
    })
    >> check_unused plan c rest

unfoldable pub check_all_unused :
    Plan → List ResourceRef → List ExistingAsset → CatalogResult (Unit {0})
unfolding check_unused
check_all_unused plan [] existing = ok tt
check_all_unused plan (c ∷ cs) existing =
    check_unused plan c existing >> check_all_unused plan cs existing

unfoldable pub validate_credential_deletes : Plan → Map ExistingAsset → CatalogResult (Unit {0})
unfolding check_all_unused same_type
validate_credential_deletes plan existing =
    check_all_unused plan (keep (of_type credential) plan.deletes) (values existing)
