-- ===== src/Manifest/References.antt =====
-- `validate_references` and `Manifest::validate_offline`.
use hop_rs.Prelude.{
  Bool, List, Option, Text, [], decimal, ensure, false, none, not, ok, some, text, true, ℕ, ◌&&◌,
  ◌++◌, ◌+◌, ◌>>=◌, ◌>>◌, ◌||◌, ◌∷◌,
}
use hop_rs.Prelude.Map.{Map, lookup, contains, insert_name}
use hop_rs.Manifest.{
  CatalogResult, Manifest, PresentAsset, PresentAccess, Resolved, absent_resource, present_resource,
  ResolvedManifest, Environment,
}
use hop_rs.Manifest.Names.{unknown_reference_error}
use hop_rs.Manifest.Resolve.{resolve_material}

-- The names of the resources that are present.
unfoldable pub present_names : {A : Type 0} → Map (Resolved A) → List Text
present_names [] = []
present_names ((name, absent_resource) ∷ m) = present_names m
present_names ((name, present_resource a) ∷ m) = insert_name name (present_names m)

unfoldable pub is_declared_absent : {A : Type 0} → Option (Resolved A) → Bool
is_declared_absent none = false
is_declared_absent (some absent_resource) = true
is_declared_absent (some (present_resource a)) = false

-- `known`, and not declared absent in the same manifest.
unfoldable pub reference_known : {A : Type 0} → Map (Resolved A) → Bool → List Text → Text → Bool
unfolding present_names is_declared_absent
reference_known m allow database name =
    (contains name (present_names m) || (allow && contains name database))
    && not (is_declared_absent (lookup name m))

module _ (m : ResolvedManifest) (allow : Bool)
    (database_credentials database_assets : List Text) where
  unfoldable pub check_asset : Text → Resolved PresentAsset → CatalogResult (Unit {0})
  check_asset name absent_resource = ok tt
  check_asset name (present_resource a) = elim a.credential [
    | none ↦ ok tt
    | some c ↦ ensure (reference_known m.credentials allow database_credentials c) (
        unknown_reference_error (text "assets." ++ (name ++ text ".credential")) (text "credential")
          c)
  ]

  unfoldable pub check_assets : Map (Resolved PresentAsset) → CatalogResult (Unit {0})
  check_assets [] = ok tt
  check_assets ((name, a) ∷ rest) = check_asset name a >> check_assets rest

  unfoldable pub check_allowlist : Text → ℕ → List Text → CatalogResult (Unit {0})
  check_allowlist name index [] = ok tt
  check_allowlist name index (a ∷ names) =
      ensure (reference_known m.assets allow database_assets a) (
        unknown_reference_error (text "access." ++ (name ++ (text ".assets." ++ decimal index)))
          (text "asset") a)
      >> check_allowlist name (index + 1) names

  unfoldable pub check_access : Text → Resolved PresentAccess → CatalogResult (Unit {0})
  check_access name absent_resource = ok tt
  check_access name (present_resource k) = elim k.assets [
    | none ↦ ok tt
    | some names ↦ check_allowlist name 0 names
  ]

  unfoldable pub check_all_access : Map (Resolved PresentAccess) → CatalogResult (Unit {0})
  check_all_access [] = ok tt
  check_all_access ((name, k) ∷ rest) = check_access name k >> check_all_access rest

  unfoldable pub validate_references : CatalogResult (Unit {0})
  unfolding check_assets check_asset check_all_access check_access check_allowlist
  validate_references = check_assets m.assets >> check_all_access m.access

unfoldable pub validate_offline : Environment → Manifest → CatalogResult (Unit {0})
unfolding resolve_material validate_references
validate_offline world m = do
  resolved ← resolve_material world m
  validate_references resolved false [] []
