-- ===== src/Apply/Laws/Planned.antt =====
-- Proofs about the stages of `build_plan` of apply.rs: what they touch.
use hop_rs.Prelude.{
  Bool, Bool-cases, List, Option, Text, [], arith, ensure, every-append, first_step, if-cases, inl,
  inr, is_none, is_some, not, ok, ok-injective, ok-pair, option_map, refl, sort_by, text, text_ltb,
  transpose, true, ◌&&◌, ◌++◌, ◌==◌, ◌∙◌, ◌∷◌, ◌≡◌,
}
use hop_rs.Prelude.Map.{map_values, Map, lookup}
use hop_rs.Manifest.{
  Resolved, PresentCredential, PresentAsset, PresentAccess, absent_resource, present_resource,
}
use hop_rs.Catalog.{ResourceType, credential, asset, access_key}
use hop_rs.Envelope.{MasterKey}
use hop_rs.Apply.{
  ApplyAction, Plan, CredentialUpsert, AssetUpsert, AccessUpsert, ExistingResource, ExistingAsset,
  asset_resource, plan_absent, plan_missing, push_change, classify_present,
}
use hop_rs.Apply.Hashes.{Digests, credential_hash, asset_hash, access_hash}
use hop_rs.Apply.Build.{
  is_unchanged, assignment_ids, referenced_id, plan_credential, plan_credentials, plan_asset,
  plan_assets, plan_key, plan_access,
}
use hop_rs.Apply.Laws.Own.{
  IsOwnPlan, drawn_or_own, IsOwnPlan-of_same, plan_absent-IsOwnPlan, plan_missing-IsOwnPlan,
  classify_present-drawn_or_own,
}

lookup-map_values :
    {V W : Type 0} (f : V → W) (name : Text) (m : Map V)
    → option_map f (lookup name m) ≡ lookup name (map_values f m)
unfolding lookup
lookup-map_values f name [] = refl
lookup-map_values f name ((n, v) ∷ m) = elim (Bool-cases (n == name)) [
  | inl same ↦ rw same refl
  | inr other ↦ rw other (lookup-map_values f name m)
]

-- The rows that are there, by type.
abbrev pub rows_of :
    Map ExistingResource
    → Map ExistingAsset
    → Map ExistingResource
    → ResourceType
    → Map ExistingResource
rows_of credentials assets access credential = credentials
rows_of credentials assets access asset = map_values asset_resource assets
rows_of credentials assets access access_key = access

module _ (fresh : ResourceType → Text → Text) (digests : Digests) (master : MasterKey)
    (source_id : Text) (credentials : Map ExistingResource) (assets : Map ExistingAsset)
    (access : Map ExistingResource) where
  abbrev pub Own : Plan → Type 0
  Own plan = IsOwnPlan source_id (rows_of credentials assets access) fresh plan

  abbrev drawn : ResourceType → Text → Text → Bool
  drawn type name id = drawn_or_own source_id (rows_of credentials assets access) fresh type name id

  add_credential-Own :
      (plan : Plan) (u : CredentialUpsert)
      → drawn credential u.name u.id ≡ true
      → Own plan
      → Own (record plan { credential_upserts = plan.credential_upserts ++ (u ∷ []) })
  add_credential-Own plan u owned (d, o, c, a, k) = (
    d,
    o,
    every-append (λ u. drawn credential u.name u.id) plan.credential_upserts _ ∙ ground arith,
    a,
    k,
  )

  add_asset-Own :
      (plan : Plan) (u : AssetUpsert)
      → drawn asset u.name u.id ≡ true
      → Own plan
      → Own (record plan { asset_upserts = plan.asset_upserts ++ (u ∷ []) })
  add_asset-Own plan u owned (d, o, c, a, k) =
      (d, o, c, every-append (λ u. drawn asset u.name u.id) plan.asset_upserts _ ∙ ground arith, k)

  add_key-Own :
      (plan : Plan) (u : AccessUpsert)
      → drawn access_key u.name u.id ≡ true
      → Own plan
      → Own (record plan { access_upserts = plan.access_upserts ++ (u ∷ []) })
  add_key-Own plan u owned (d, o, c, a, k) = (
    d,
    o,
    c,
    a,
    every-append (λ u. drawn access_key u.name u.id) plan.access_upserts _ ∙ ground arith,
  )

  pub of_same-Own : {plan after : Plan} → plan ≡ after → Own plan → Own after
  of_same-Own same o = IsOwnPlan-of_same source_id (rows_of credentials assets access) fresh same o

  absent-Own :
      (plan planned : Plan) (type : ResourceType) (name path : Text)
      (existing : Option ExistingResource)
      → existing ≡ lookup name (rows_of credentials assets access type)
      → plan_absent plan type name existing source_id path ≡ ok planned
      → Own plan
      → Own planned
  absent-Own plan planned type name path existing found h o =
      plan_absent-IsOwnPlan source_id (rows_of credentials assets access) fresh plan planned type
        name path existing found h o

  pub missing-Own :
      (plan : Plan) (type : ResourceType) (mentioned : List Text) (prune : Bool)
      → Own plan
      → Own (
          plan_missing plan type (rows_of credentials assets access type) mentioned source_id prune)
  missing-Own plan type mentioned prune o =
      plan_missing-IsOwnPlan source_id (rows_of credentials assets access) fresh plan type
        (rows_of credentials assets access type) mentioned prune (λ e stands. stands) o

  present-drawn :
      (type : ResourceType) (name hash path id : Text) (existing : Option ExistingResource)
      (action : ApplyAction)
      → existing ≡ lookup name (rows_of credentials assets access type)
      → classify_present (fresh type name) existing source_id hash path ≡ ok (id, action)
      → drawn type name id ≡ true
  present-drawn type name hash path id existing action found h =
      classify_present-drawn_or_own source_id (rows_of credentials assets access) fresh type name
        hash path id existing action found h

  plan_credential-Own :
      (name : Text) (r : Resolved PresentCredential) (plan : Plan) (ids : Map Text) (after : Plan)
      (after_ids : Map Text)
      → plan_credential fresh digests master source_id credentials name r (plan, ids)
        ≡ ok (after, after_ids)
      → Own plan
      → Own after
  unfolding plan_credential push_change
  plan_credential-Own name absent_resource plan ids after after_ids h o =
      let path = text "credentials." ++ name in
      let (planned, absent, h1) =
        first_step (plan_absent plan credential name (lookup name credentials) source_id path) _
          h in
      let (same, _) = ok-pair h1 in
      of_same-Own same
        (absent-Own plan planned credential name path (lookup name credentials) refl absent o)
  plan_credential-Own name (present_resource c) plan ids after after_ids h o =
      let path = text "credentials." ++ name in
      let hash =
        credential_hash digests name c.credential_type c.username c.password c.private_key
          c.passphrase master in
      let ((id, action), classified, h1) =
        first_step
          (classify_present (fresh credential name) (lookup name credentials) source_id hash path) _
          h in
      let owned =
        present-drawn credential name hash path id (lookup name credentials) action refl
          classified in
      let (same, _) = ok-pair h1 in
      of_same-Own same (
        if-cases Own (is_unchanged action) (λ kept. o)
          (λ written. add_credential-Own (push_change plan credential name action) _ owned o))

  pub plan_credentials-Own :
      (m : Map (Resolved PresentCredential)) (plan : Plan) (ids : Map Text) (after : Plan)
      (after_ids : Map Text)
      → plan_credentials fresh digests master source_id credentials m (plan, ids)
        ≡ ok (after, after_ids)
      → Own plan
      → Own after
  unfolding plan_credentials
  plan_credentials-Own [] plan ids after after_ids h o =
      let (same, _) = ok-pair h in of_same-Own same o
  plan_credentials-Own ((name, r) ∷ m) plan ids after after_ids h o =
      let ((next, next_ids), stepped, h1) =
        first_step (plan_credential fresh digests master source_id credentials name r (plan, ids)) _
          h in
      plan_credentials-Own m next next_ids after after_ids h1
        (plan_credential-Own name r plan ids next next_ids stepped o)

  plan_asset-Own :
      (credential_ids : Map Text) (name : Text) (r : Resolved PresentAsset) (plan : Plan)
      (ids : Map Text) (after : Plan) (after_ids : Map Text)
      → plan_asset fresh digests master source_id assets credential_ids name r (plan, ids)
        ≡ ok (after, after_ids)
      → Own plan
      → Own after
  unfolding plan_asset push_change
  plan_asset-Own credential_ids name absent_resource plan ids after after_ids h o =
      let path = text "assets." ++ name in
      let existing = option_map asset_resource (lookup name assets) in
      let (planned, absent, h1) =
        first_step (plan_absent plan asset name existing source_id path) _ h in
      let (same, _) = ok-pair h1 in
      of_same-Own same (
        absent-Own plan planned asset name path existing
          (lookup-map_values asset_resource name assets) absent o)
  plan_asset-Own credential_ids name (present_resource a) plan ids after after_ids h o =
      let path = text "assets." ++ name in
      let existing = option_map asset_resource (lookup name assets) in
      let hash =
        asset_hash digests a.asset_type a.host a.port a.display_name a.description a.credential in
      let (_, referenced, h1) =
        first_step
          (ensure
            (not (is_some a.credential && is_none (referenced_id a.credential credential_ids))) _)
          _ h in
      let ((id, action), classified, h2) =
        first_step (classify_present (fresh asset name) existing source_id hash path) _ h1 in
      let owned =
        present-drawn asset name hash path id existing action
          (lookup-map_values asset_resource name assets) classified in
      let (same, _) = ok-pair h2 in
      of_same-Own same (
        if-cases Own (is_unchanged action) (λ kept. o)
          (λ written. add_asset-Own (push_change plan asset name action) _ owned o))

  pub plan_assets-Own :
      (credential_ids : Map Text) (m : Map (Resolved PresentAsset)) (plan : Plan) (ids : Map Text)
      (after : Plan) (after_ids : Map Text)
      → plan_assets fresh digests master source_id assets credential_ids m (plan, ids)
        ≡ ok (after, after_ids)
      → Own plan
      → Own after
  unfolding plan_assets
  plan_assets-Own credential_ids [] plan ids after after_ids h o =
      let (same, _) = ok-pair h in of_same-Own same o
  plan_assets-Own credential_ids ((name, r) ∷ m) plan ids after after_ids h o =
      let ((next, next_ids), stepped, h1) =
        first_step
          (plan_asset fresh digests master source_id assets credential_ids name r (plan, ids)) _
          h in
      plan_assets-Own credential_ids m next next_ids after after_ids h1
        (plan_asset-Own credential_ids name r plan ids next next_ids stepped o)

  plan_key-Own :
      (asset_ids : Map Text) (name : Text) (r : Resolved PresentAccess) (plan after : Plan)
      → plan_key fresh digests master source_id access asset_ids name r plan ≡ ok after
      → Own plan
      → Own after
  unfolding plan_key push_change
  plan_key-Own asset_ids name absent_resource plan after h o =
      absent-Own plan after access_key name (text "access." ++ name) (lookup name access) refl h o
  plan_key-Own asset_ids name (present_resource k) plan after h o =
      let path = text "access." ++ name in
      let normalized_assets = option_map (sort_by text_ltb) k.assets in
      let hash = access_hash digests k.public_key k.enabled normalized_assets in
      let (assignment, _, h1) =
        first_step (transpose (option_map (assignment_ids path asset_ids) normalized_assets)) _ h in
      let ((id, action), classified, h2) =
        first_step
          (classify_present (fresh access_key name) (lookup name access) source_id hash path) _
          h1 in
      let owned =
        present-drawn access_key name hash path id (lookup name access) action refl classified in
      of_same-Own (ok-injective h2) (
        if-cases Own (is_unchanged action) (λ kept. o)
          (λ written. add_key-Own (push_change plan access_key name action) _ owned o))

  pub plan_access-Own :
      (asset_ids : Map Text) (m : Map (Resolved PresentAccess)) (plan after : Plan)
      → plan_access fresh digests master source_id access asset_ids m plan ≡ ok after
      → Own plan
      → Own after
  unfolding plan_access
  plan_access-Own asset_ids [] plan after h o = of_same-Own (ok-injective h) o
  plan_access-Own asset_ids ((name, r) ∷ m) plan after h o =
      let (next, stepped, h1) =
        first_step (plan_key fresh digests master source_id access asset_ids name r plan) _ h in
      plan_access-Own asset_ids m next after h1 (plan_key-Own asset_ids name r plan next stepped o)
