-- ===== src/Apply/Laws/Built.antt =====
-- Proofs about `build_plan` of apply.rs: what the plan touches, and what it deletes.
use hop_rs.Prelude.{
  Bool, Elem, Text, ap, false, first_step, keep, ok, ok-injective, refl, some, sort_by, true, ◌∙◌,
  ◌≡◌, ◌≢◌,
}
use hop_rs.Prelude.Map.{map_values, Map, keys}
use hop_rs.Manifest.{ResolvedManifest}
use hop_rs.Manifest.References.{validate_references}
use hop_rs.Catalog.{ResourceType, credential, asset, access_key}
use hop_rs.Envelope.{MasterKey}
use hop_rs.Apply.{ResourceRef, Plan, ExistingResource, ExistingAsset, asset_resource, plan_missing}
use hop_rs.Apply.Hashes.{Digests}
use hop_rs.Apply.Load.{values}
use hop_rs.Apply.Deletes.{of_type, validate_credential_deletes, asset_deleted, final_credential}
use hop_rs.Apply.Build.{
  retain_ids, blank_plan, plan_credentials, plan_assets, plan_access, plan_resources, final_names,
  build_plan, change_before,
}
use hop_rs.Apply.Laws.Own.{IsOwnPlan}
use hop_rs.Apply.Laws.Deletes.{validate_credential_deletes-keeps}
use hop_rs.Apply.Laws.Planned.{
  rows_of, Own, of_same-Own, missing-Own, plan_credentials-Own, plan_assets-Own, plan_access-Own,
}

module _ (fresh : ResourceType → Text → Text) (digests : Digests) (master : MasterKey)
    (source_id : Text) (credentials : Map ExistingResource) (assets : Map ExistingAsset)
    (access : Map ExistingResource) where
  blank_plan-Own : Own fresh digests master source_id credentials assets access blank_plan
  unfolding blank_plan
  blank_plan-Own = (refl, refl, refl, refl, refl)

  plan_resources-Own :
      (m : ResolvedManifest) (prune : Bool) (after : Plan)
      → plan_resources fresh digests master source_id credentials assets access m prune ≡ ok after
      → Own fresh digests master source_id credentials assets access after
  unfolding plan_resources
  plan_resources-Own m prune after h =
      let ((first, ids), h1, h2) =
        first_step
          (plan_credentials fresh digests master source_id credentials m.credentials
            (blank_plan, map_values (λ r. r.id) credentials))
          _ h in
      let one =
        plan_credentials-Own fresh digests master source_id credentials assets access m.credentials
          blank_plan _ first ids h1 blank_plan-Own in
      let two =
        missing-Own fresh digests master source_id credentials assets access first credential
          (keys m.credentials) prune one in
      let second = plan_missing first credential credentials (keys m.credentials) source_id prune in
      let credential_ids = retain_ids (keep (of_type credential) second.deletes) ids in
      let ((third, asset_ids), h3, h4) =
        first_step
          (plan_assets fresh digests master source_id assets credential_ids m.assets
            (second, map_values (λ a. a.id) assets))
          _ h2 in
      let three =
        plan_assets-Own fresh digests master source_id credentials assets access credential_ids
          m.assets second _ third asset_ids h3 two in
      let four =
        missing-Own fresh digests master source_id credentials assets access third asset
          (keys m.assets) prune three in
      let fourth =
        plan_missing third asset (map_values asset_resource assets) (keys m.assets) source_id
          prune in
      let kept_ids = retain_ids (keep (of_type asset) fourth.deletes) asset_ids in
      let (fifth, h5, h6) =
        first_step (plan_access fresh digests master source_id access kept_ids m.access fourth) _
          h4 in
      let five =
        plan_access-Own fresh digests master source_id credentials assets access kept_ids m.access
          fourth fifth h5 four in
      of_same-Own fresh digests master source_id credentials assets access (ok-injective h6) (
        missing-Own fresh digests master source_id credentials assets access fifth access_key
          (keys m.access) prune five)

  -- What a plan that is built has gone through.
  build_plan-steps :
      (m : ResolvedManifest) (prune : Bool) (plan : Plan)
      → build_plan fresh digests master source_id credentials assets access m prune ≡ ok plan
      → (planned : Plan) × (plan_resources fresh digests master source_id credentials assets access
            m prune
          ≡ ok planned)
        × (validate_credential_deletes planned assets ≡ ok tt)
        × (record planned { changes = sort_by change_before planned.changes } ≡ plan)
  unfolding build_plan
  build_plan-steps m prune plan h =
      let (_, _, h1) =
        first_step
          (validate_references m true
            (final_names fresh digests master source_id credentials m.credentials prune)
            (final_names fresh digests master source_id (map_values asset_resource assets) m.assets
              prune))
          _ h in
      let (planned, built, h2) =
        first_step (plan_resources fresh digests master source_id credentials assets access m prune)
          _ h1 in
      let (_, checked, h3) = first_step (validate_credential_deletes planned assets) _ h2 in
      (planned, built, checked, ok-injective h3)

  -- A plan touches only what is new or belongs to its source: every resource that it deletes or
  -- orphans is one that is there under its name and belongs to the source, and every resource
  -- that it writes is such a one or has an id that was drawn for it.
  pub build_plan-IsOwnPlan :
      (m : ResolvedManifest) (prune : Bool) (plan : Plan)
      → build_plan fresh digests master source_id credentials assets access m prune ≡ ok plan
      → IsOwnPlan source_id (rows_of credentials assets access) fresh plan
  build_plan-IsOwnPlan m prune plan h =
      let (planned, built, _, same) = build_plan-steps m prune plan h in
      of_same-Own fresh digests master source_id credentials assets access same
        (plan_resources-Own m prune planned built)

  -- A plan that is built deletes no credential that an asset keeps: where an asset that is there
  -- stays after the plan, the credential that it refers to then is not one of the deletions.
  pub build_plan-keeps_credentials :
      (m : ResolvedManifest) (prune : Bool) (plan : Plan) (a : ExistingAsset) (c : ResourceRef)
      → build_plan fresh digests master source_id credentials assets access m prune ≡ ok plan
      → Elem a (values assets)
      → Elem c plan.deletes
      → of_type credential c ≡ true
      → asset_deleted plan a ≡ false
      → final_credential plan a ≢ some c.id
  unfolding final_credential asset_deleted
  build_plan-keeps_credentials m prune plan a c h stands removed typed stays refers =
      let (planned, built, checked, same) = build_plan-steps m prune plan h in
      let deletes = ap (λ p. p.deletes) same in
      validate_credential_deletes-keeps planned assets a c checked stands (rw deletes removed) typed
        (ap (λ p. asset_deleted p a) same ∙ stays) (ap (λ p. final_credential p a) same ∙ refers)
