-- ===== src/Manifest/Merge.antt =====
-- `Manifest::merge` of manifest.rs, over the manifests of an apply scope.
use hop_rs.Prelude.{
  List, Text, [], ensure, is_none, none, ok, some, text, ◌++◌, ◌==◌, ◌>>=◌, ◌>>◌, ◌∷◌,
}
use hop_rs.Prelude.Map.{Map, lookup, insert}
use hop_rs.Manifest.{
  unsupported_api_version, duplicate_resource, source_scan_incomplete, CatalogResult, fail,
  Manifest, manifest_api_version,
}

-- `target.insert(…).is_some()` is an error; the map that was changed is then dropped.
unfoldable pub merge_resources : {V : Type 0} → Map V → Map V → Text → CatalogResult (Map V)
merge_resources target [] resource_type = ok target
merge_resources target ((name, resource) ∷ source) resource_type = do
  ensure (is_none (lookup name target)) (record {
    code = duplicate_resource;
    path = some (resource_type ++ (text "." ++ name));
    message = text "resource is declared more than once in the apply scope";
  })
  merge_resources (insert name resource target) source resource_type

unfoldable pub merge_one : Manifest → Manifest → CatalogResult Manifest
unfolding merge_resources
merge_one merged m = do
  ensure (m.api_version == manifest_api_version) (record {
    code = unsupported_api_version;
    path = some (text "api_version");
    message = text "unsupported api_version; expected " ++ manifest_api_version;
  })
  credentials ← merge_resources merged.credentials m.credentials (text "credentials")
  assets ← merge_resources merged.assets m.assets (text "assets")
  access ← merge_resources merged.access m.access (text "access")
  ok (record merged { credentials = credentials; assets = assets; access = access })

merge_onto : Manifest → List Manifest → CatalogResult Manifest
merge_onto merged [] = ok merged
merge_onto merged (m ∷ manifests) = do next ← merge_one merged m; merge_onto next manifests

abbrev pub empty_manifest : Manifest
empty_manifest = record {
  api_version = manifest_api_version;
  credentials = [];
  assets = [];
  access = [];
}

unfoldable pub merge : List Manifest → CatalogResult Manifest
unfolding merge_onto merge_one
merge [] = fail source_scan_incomplete none (text "manifest scope is empty")
merge (m ∷ manifests) = merge_onto empty_manifest (m ∷ manifests)
