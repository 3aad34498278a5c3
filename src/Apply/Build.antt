-- ===== src/Apply/Build.antt =====
-- `build_plan` of apply.rs: the plan, resource by resource.
use hop_rs.Prelude.{
  Bool, List, Option, Text, [], ensure, false, if◌then◌else◌, is_none, is_some, keep, none, not, ok,
  ok_or, option_map, some, sort_by, text, text_ltb, transpose, true, ◌&&◌, ◌++◌, ◌==◌, ◌>>=◌, ◌>>◌,
  ◌||◌, ◌∷◌,
}
use hop_rs.Prelude.Map.{map_values, Map, lookup, insert, remove, keys}
use hop_rs.Manifest.{
  CatalogResult, Resolved, absent_resource, present_resource, PresentCredential, PresentAsset,
  PresentAccess, ResolvedManifest, unknown_reference,
}
use hop_rs.Manifest.References.{validate_references}
use hop_rs.Catalog.{ResourceType, credential, asset, access_key, resource_type_as_str}
use hop_rs.Envelope.{MasterKey}
use hop_rs.Apply.{
  ApplyAction, unchanged, ApplyChange, ResourceRef, Plan, ExistingResource, ExistingAsset,
  asset_resource, push_change, plan_absent, plan_missing, classify_present, apply_final_names,
  remove_pruned_names,
}
use hop_rs.Apply.Hashes.{Digests, credential_hash, asset_hash, access_hash}
use hop_rs.Apply.Deletes.{of_type, validate_credential_deletes}

unfoldable pub is_unchanged : ApplyAction → Bool
is_unchanged unchanged = true
is_unchanged _ = false

abbrev pub is_present : {A : Type 0} → Resolved A → Bool
is_present absent_resource = false
is_present (present_resource a) = true

unfoldable pub change_before : ApplyChange → ApplyChange → Bool
unfolding resource_type_as_str
change_before a b =
    let type_a = resource_type_as_str a.resource_type in
    let type_b = resource_type_as_str b.resource_type in
    text_ltb type_a type_b || (type_a == type_b && text_ltb a.name b.name)

-- The loops over the deletions of one type that retain the ids of the others.
unfoldable pub retain_ids : List ResourceRef → Map Text → Map Text
retain_ids [] ids = ids
retain_ids (d ∷ ds) ids = retain_ids ds (keep (λ (name, id). not (id == d.id)) ids)

unfoldable pub blank_plan : Plan
blank_plan = record {
  credential_upserts = [];
  asset_upserts = [];
  access_upserts = [];
  orphans = [];
  deletes = [];
  changes = [];
}

-- `asset_ids.get(asset).cloned().ok_or_else(…)`, for each name of an allowlist.
unfoldable pub assignment_ids : Text → Map Text → List Text → CatalogResult (List Text)
unfolding lookup
assignment_ids path ids [] = ok []
assignment_ids path ids (name ∷ names) = do
  id ← ok_or (lookup name ids) (record {
    code = unknown_reference;
    path = some (path ++ text ".assets");
    message = text "asset is not present in the final catalog";
  })
  rest ← assignment_ids path ids names
  ok (id ∷ rest)

-- `credential.as_ref().and_then(|credential| credential_ids.get(credential)).cloned()`
unfoldable pub referenced_id : Option Text → Map Text → Option Text
unfolding lookup
referenced_id none ids = none
referenced_id (some name) ids = lookup name ids

-- The ids that `new_id` draws, by type and name, and the rest of the call's arguments.
module _ (fresh : ResourceType → Text → Text) (digests : Digests) (master : MasterKey)
    (source_id : Text) where
  unfoldable pub plan_credential :
      Map ExistingResource
      → Text
      → Resolved PresentCredential
      → Plan × Map Text
      → CatalogResult (Plan × Map Text)
  unfolding plan_absent classify_present push_change credential_hash is_unchanged
  plan_credential existing name absent_resource (plan, ids) = do
    planned ←
        plan_absent plan credential name (lookup name existing) source_id
          (text "credentials." ++ name)
    ok (planned, remove name ids)
  plan_credential existing name (present_resource c) (plan, ids) = do
    let hash =
        credential_hash digests name c.credential_type c.username c.password c.private_key
          c.passphrase master
    classified ←
        classify_present (fresh credential name) (lookup name existing) source_id hash
          (text "credentials." ++ name)
    let (id, action) = classified
    let noted = push_change plan credential name action
    ok (
      if is_unchanged action then noted else record noted {
        credential_upserts =
            noted.credential_upserts
            ++ (record {
              id = id;
              name = name;
              credential_type = c.credential_type;
              username = c.username;
              password = c.password;
              private_key = c.private_key;
              passphrase = c.passphrase;
              hash = hash;
            }
                ∷ []);
      },
      insert name id ids,
    )

  unfoldable pub plan_credentials :
      Map ExistingResource
      → Map (Resolved PresentCredential)
      → Plan × Map Text
      → CatalogResult (Plan × Map Text)
  unfolding plan_credential
  plan_credentials existing [] state = ok state
  plan_credentials existing ((name, r) ∷ rest) state = do
    next ← plan_credential existing name r state
    plan_credentials existing rest next

  unfoldable pub plan_asset :
      Map ExistingAsset
      → Map Text
      → Text
      → Resolved PresentAsset
      → Plan × Map Text
      → CatalogResult (Plan × Map Text)
  unfolding plan_absent classify_present push_change asset_hash is_unchanged asset_resource
      referenced_id
  plan_asset existing credential_ids name absent_resource (plan, ids) = do
    planned ←
        plan_absent plan asset name (option_map asset_resource (lookup name existing)) source_id
          (text "assets." ++ name)
    ok (planned, remove name ids)
  plan_asset existing credential_ids name (present_resource a) (plan, ids) = do
    let path = text "assets." ++ name
    let credential_id = referenced_id a.credential credential_ids
    ensure (not (is_some a.credential && is_none credential_id)) (record {
      code = unknown_reference;
      path = some (path ++ text ".credential");
      message = text "credential is not present in the final catalog";
    })
    let hash =
        asset_hash digests a.asset_type a.host a.port a.display_name a.description a.credential
    classified ←
        classify_present (fresh asset name) (option_map asset_resource (lookup name existing))
          source_id hash path
    let (id, action) = classified
    let noted = push_change plan asset name action
    ok (
      if is_unchanged action then noted else record noted {
        asset_upserts =
            noted.asset_upserts
            ++ (record {
              id = id;
              name = name;
              asset_type = a.asset_type;
              host = a.host;
              port = a.port;
              display_name = a.display_name;
              description = a.description;
              credential_id = credential_id;
              hash = hash;
            }
                ∷ []);
      },
      insert name id ids,
    )

  unfoldable pub plan_assets :
      Map ExistingAsset
      → Map Text
      → Map (Resolved PresentAsset)
      → Plan × Map Text
      → CatalogResult (Plan × Map Text)
  unfolding plan_asset
  plan_assets existing credential_ids [] state = ok state
  plan_assets existing credential_ids ((name, r) ∷ rest) state = do
    next ← plan_asset existing credential_ids name r state
    plan_assets existing credential_ids rest next

  unfoldable pub plan_key :
      Map ExistingResource → Map Text → Text → Resolved PresentAccess → Plan → CatalogResult Plan
  unfolding plan_absent classify_present push_change access_hash is_unchanged assignment_ids
  plan_key existing asset_ids name absent_resource plan =
      plan_absent plan access_key name (lookup name existing) source_id (text "access." ++ name)
  plan_key existing asset_ids name (present_resource k) plan = do
    let path = text "access." ++ name
    let normalized_assets = option_map (sort_by text_ltb) k.assets
    assignment ← transpose (option_map (assignment_ids path asset_ids) normalized_assets)
    let hash = access_hash digests k.public_key k.enabled normalized_assets
    classified ← classify_present (fresh access_key name) (lookup name existing) source_id hash path
    let (id, action) = classified
    let noted = push_change plan access_key name action
    ok (
        if is_unchanged action then noted else record noted {
          access_upserts =
              noted.access_upserts
              ++ (record {
                id = id;
                name = name;
                public_key = k.public_key;
                fingerprint = k.fingerprint;
                enabled = k.enabled;
                asset_ids = assignment;
                hash = hash;
              }
                  ∷ []);
        })

  unfoldable pub plan_access :
      Map ExistingResource → Map Text → Map (Resolved PresentAccess) → Plan → CatalogResult Plan
  unfolding plan_key
  plan_access existing asset_ids [] plan = ok plan
  plan_access existing asset_ids ((name, r) ∷ rest) plan = do
    next ← plan_key existing asset_ids name r plan
    plan_access existing asset_ids rest next

  -- What the four stages pass on: `build_plan` up to its last check.
  unfoldable pub plan_resources :
      Map ExistingResource
      → Map ExistingAsset
      → Map ExistingResource
      → ResolvedManifest
      → Bool
      → CatalogResult Plan
  unfolding plan_credentials plan_assets plan_access plan_missing retain_ids blank_plan
      asset_resource
  plan_resources credentials assets access m prune = do
    planned ←
        plan_credentials credentials m.credentials (blank_plan, map_values (λ r. r.id) credentials)
    let (first, declared_ids) = planned
    let second = plan_missing first credential credentials (keys m.credentials) source_id prune
    let credential_ids = retain_ids (keep (of_type credential) second.deletes) declared_ids
    planned_assets ←
        plan_assets assets credential_ids m.assets (second, map_values (λ a. a.id) assets)
    let (third, declared_asset_ids) = planned_assets
    let fourth =
        plan_missing third asset (map_values asset_resource assets) (keys m.assets) source_id prune
    let asset_ids = retain_ids (keep (of_type asset) fourth.deletes) declared_asset_ids
    fifth ← plan_access access asset_ids m.access fourth
    ok (plan_missing fifth access_key access (keys m.access) source_id prune)

  -- The names after the apply: `remove_pruned_names` runs only with `prune`.
  unfoldable pub final_names :
      {A : Type 0} → Map ExistingResource → Map (Resolved A) → Bool → List Text
  unfolding apply_final_names remove_pruned_names keys
  final_names existing m prune =
      let declared = apply_final_names is_present m (keys existing) in
      if prune then remove_pruned_names declared existing (keys m) source_id else declared

  unfoldable pub build_plan :
      Map ExistingResource
      → Map ExistingAsset
      → Map ExistingResource
      → ResolvedManifest
      → Bool
      → CatalogResult Plan
  unfolding final_names validate_references plan_resources validate_credential_deletes change_before
      asset_resource
  build_plan credentials assets access m prune = do
    _ ←
        validate_references m true (final_names credentials m.credentials prune)
          (final_names (map_values asset_resource assets) m.assets prune)
    plan ← plan_resources credentials assets access m prune
    _ ← validate_credential_deletes plan assets
    ok (record plan { changes = sort_by change_before plan.changes })
