-- ===== src/Runtime/Laws/Access.antt =====
-- The lookups of runtime.rs that resolve a target for a key.
use hop_rs.Prelude.{
  Bool, Option, Text, any, arith, eq_iff, none, ok, option_map, refl, some, transpose, true, ◌&&◌,
  ◌==◌, ◌||◌, ◌∙◌, ◌≡◌, ◌⊎◌,
}
use hop_rs.Prelude.Int.{ℤ, int_eq_nat}
use hop_rs.Models.{Asset, TagsJson, asset_try_from}
use hop_rs.Catalog.{AssetRecord, Database}
use hop_rs.Runtime.Access.{
  may_access, key_can_access_asset, ranked_before, direct_row, proxy_row, normalized_name,
  asset_row, find_direct_asset_for_key, find_proxy_asset_for_key,
}
use hop_rs.Runtime.Laws.Queries.{any-weaken, picked_sound, picked_preferred, ranked_puts_first}

module _ (codec : TagsJson) where
  -- The conversion keeps what the lookups match on.
  asset_try_from_keeps :
      (a : AssetRecord) (x : Asset)
      → asset_try_from codec (asset_row a) ≡ ok x
      → (x.id ≡ a.id) × (x.name ≡ a.name) × (x.hostname ≡ a.host) × (x.port ≡ a.port)
  unfolding asset_try_from asset_row
  asset_try_from_keeps a x h = ground arith

  picked_asset :
      (o : Option AssetRecord) (x : Asset)
      → transpose (option_map (λ a. asset_try_from codec (asset_row a)) o) ≡ ok (some x)
      → (a : AssetRecord) × (o ≡ some a) × (asset_try_from codec (asset_row a) ≡ ok x)
  picked_asset none x h = cc
  picked_asset (some a) x h = (a, refl, ground arith)

  -- A direct target resolves only to an asset that the key may access, and whose name or host is
  -- the target.
  pub find_direct_asset_for_key_sound :
      (key_id target : Text) (db : Database) (x : Asset)
      → find_direct_asset_for_key codec key_id target db ≡ ok (some x)
      → (key_can_access_asset key_id x.id db ≡ true) × ((x.name ≡ target) ⊎ (x.hostname ≡ target))
  unfolding find_direct_asset_for_key direct_row
  find_direct_asset_for_key_sound key_id target db x h =
      let (a, found, made) = picked_asset (direct_row key_id target db) x h in
      let (access, _, matched) =
        picked_sound key_id (λ a. a.name == target || a.host == target)
          (ranked_before (λ a. a.name == target)) db a found in
      let (ids, names, hosts, _) = asset_try_from_keeps a x made in
      (rw ids access, ground (arith, eq_iff a.name target, eq_iff a.host target))

  -- Where an asset that the key may access has the target for its name, the direct target resolves
  -- to an asset of that name, whatever hosts match too.
  pub find_direct_asset_for_key_prefers_name :
      (key_id target : Text) (db : Database) (x : Asset)
      → any (λ a. a.name == target && may_access key_id db a) db.assets ≡ true
      → find_direct_asset_for_key codec key_id target db ≡ ok (some x)
      → x.name ≡ target
  unfolding find_direct_asset_for_key direct_row
  find_direct_asset_for_key_prefers_name key_id target db x named h =
      let (a, found, made) = picked_asset (direct_row key_id target db) x h in
      let by_name : (b : AssetRecord) → Bool = λ b. b.name == target in
      let hit =
        picked_preferred key_id (λ b. b.name == target || b.host == target) (ranked_before by_name)
          db by_name a (ranked_puts_first by_name) found
          (any-weaken _ _ (λ b e. ground arith) db.assets named) in
      let (_, names, _, _) = asset_try_from_keeps a x made in names ∙ (eq_iff a.name target).0 hit

  -- A forwarding target resolves only to an asset that the key may access, and that has the host
  -- and port of the request, or the requested name without its suffix.
  pub find_proxy_asset_for_key_sound :
      (key_id host : Text) (port : ℤ) (db : Database) (x : Asset)
      → find_proxy_asset_for_key codec key_id host port db ≡ ok (some x)
      → (key_can_access_asset key_id x.id db ≡ true)
        × (((x.hostname ≡ host) × (int_eq_nat port x.port ≡ true))
            ⊎ (x.name ≡ normalized_name host))
  unfolding find_proxy_asset_for_key proxy_row
  find_proxy_asset_for_key_sound key_id host port db x h =
      let (a, found, made) = picked_asset (proxy_row key_id host port db) x h in
      let by_address : (b : AssetRecord) → Bool = λ b. b.host == host && int_eq_nat port b.port in
      let (access, _, matched) =
        picked_sound key_id (λ b. by_address b || b.name == normalized_name host)
          (ranked_before by_address) db a found in
      let (ids, names, hosts, ports) = asset_try_from_keeps a x made in
      (rw ids access, ground (arith, eq_iff a.host host, eq_iff a.name (normalized_name host)))
