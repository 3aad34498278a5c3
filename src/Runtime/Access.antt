-- ===== src/Runtime/Access.antt =====
-- The queries that say what a key may reach: `list_assets_for_key`, `key_can_access_asset`,
-- `find_direct_asset_for_key`, `find_proxy_asset_for_key` and the lookups of keys.
use hop_rs.Prelude.{
  Bool, List, Option, Text, [], any, false, find, if◌then◌else◌, keep, none, ok, option_map, some,
  text, text_ltb, transpose, true, ◌&&◌, ◌==◌, ◌>>=◌, ◌||◌, ◌∷◌,
}
use hop_rs.Prelude.Int.{ℤ, int_eq_nat}
use hop_rs.Errors.{Result}
use hop_rs.Manifest.{asset_type_as_str}
use hop_rs.Models.{
  AssetAccessMode, all, restricted, access_mode_as_str, AuthorizedKey, AuthorizedKeyRow,
  authorized_key_try_from, Asset, AssetRow, asset_try_from, TagsJson,
}
use hop_rs.Catalog.{AssetRecord, KeyRecord, Assignment, Database}
use hop_rs.Catalog.Statements.{is_assigned}

-- ORDER BY: insertion into the rows that are in order.
module _ {ℓ} {A : Type ℓ} (before : A → A → Bool) where
  unfoldable pub insert_row : A → List A → List A
  insert_row x [] = x ∷ []
  insert_row x (y ∷ ys) =
      let later = y ∷ insert_row x ys in if before y x then later else x ∷ y ∷ ys

  unfoldable pub order_by : List A → List A
  order_by [] = []
  order_by (x ∷ xs) = insert_row x (order_by xs)

-- LIMIT 1
abbrev pub first_row {ℓ} : {A : Type ℓ} → List A → Option A
first_row [] = none
first_row (x ∷ xs) = some x

unfoldable pub mode_permits : AssetAccessMode → Bool → Bool
mode_permits all assigned = true
mode_permits restricted assigned = assigned

unfoldable pub grants : Option KeyRecord → Text → List Assignment → Bool
unfolding mode_permits is_assigned
grants none asset_id rows = false
grants (some k) asset_id rows = mode_permits k.access_mode (is_assigned k.id asset_id rows)

-- JOIN access_keys k ON k.id = ?1 AND k.enabled = 1 WHERE k.access_mode = 'all' OR EXISTS (…)
unfoldable pub may_access : Text → Database → AssetRecord → Bool
unfolding grants
may_access key_id db a =
    grants (find (λ k. k.id == key_id && k.enabled) db.access_keys) a.id db.access_key_assets

-- The columns of `asset_select`.
unfoldable pub asset_row : AssetRecord → AssetRow
asset_row a = record {
  id = a.id;
  name = a.name;
  protocol = asset_type_as_str a.asset_type;
  hostname = a.host;
  port = a.port;
  description = a.description;
  tags = a.tags_json;
  credential_id = a.credential_id;
  created_at = a.created_at;
  updated_at = a.updated_at;
}

unfoldable pub key_row : KeyRecord → AuthorizedKeyRow
key_row k = record {
  id = k.id;
  name = k.name;
  public_key = k.public_key;
  fingerprint = k.fingerprint;
  is_active = k.enabled;
  asset_access_mode = access_mode_as_str k.access_mode;
  created_at = k.created_at;
}

unfoldable pub rows_for_key : Text → Database → List AssetRecord
unfolding may_access order_by
rows_for_key key_id db =
    order_by (λ a b. text_ltb a.name b.name) (keep (may_access key_id db) db.assets)

unfoldable pub key_can_access_asset : Text → Text → Database → Bool
unfolding may_access
key_can_access_asset key_id asset_id db =
    any (λ a. a.id == asset_id && may_access key_id db a) db.assets

-- ORDER BY CASE WHEN `preferred` THEN 0 ELSE 1 END, a.name ASC
unfoldable pub ranked_before : (AssetRecord → Bool) → AssetRecord → AssetRecord → Bool
ranked_before preferred a b =
    if preferred a
    then (if preferred b then text_ltb a.name b.name else true)
    else (if preferred b then false else text_ltb a.name b.name)

unfoldable pub direct_row : Text → Text → Database → Option AssetRecord
unfolding may_access order_by ranked_before
direct_row key_id target db = first_row (
    order_by (ranked_before (λ a. a.name == target))
      (keep (λ a. may_access key_id db a && (a.name == target || a.host == target)) db.assets))

-- `strip_suffix(".hop")`, or the host itself
unfoldable pub normalized_name : Text → Text
normalized_name [] = []
normalized_name (c ∷ s) =
    let rest = c ∷ normalized_name s in if (c ∷ s) == text ".hop" then [] else rest

unfoldable pub proxy_row : Text → Text → ℤ → Database → Option AssetRecord
unfolding may_access order_by ranked_before normalized_name int_eq_nat
proxy_row key_id host port db =
    let by_address = λ (a : AssetRecord). a.host == host && int_eq_nat port a.port in
    first_row (
      order_by (ranked_before by_address) (
        keep (λ a. may_access key_id db a && (by_address a || a.name == normalized_name host))
          db.assets))

unfoldable pub get_active_authorized_key_by_fingerprint :
    Text → Database → Result (Option AuthorizedKey)
unfolding authorized_key_try_from key_row
get_active_authorized_key_by_fingerprint fingerprint db = transpose (
    option_map (λ k. authorized_key_try_from (key_row k))
      (find (λ k. k.fingerprint == fingerprint && k.enabled) db.access_keys))

module _ (codec : TagsJson) where
  unfoldable pub asset_rows : List AssetRecord → Result (List Asset)
  unfolding asset_try_from asset_row
  asset_rows [] = ok []
  asset_rows (a ∷ rows) = do
    x ← asset_try_from codec (asset_row a)
    xs ← asset_rows rows
    ok (x ∷ xs)

  unfoldable pub list_assets_for_key : Text → Database → Result (List Asset)
  unfolding asset_rows rows_for_key
  list_assets_for_key key_id db = asset_rows (rows_for_key key_id db)

  unfoldable pub find_direct_asset_for_key : Text → Text → Database → Result (Option Asset)
  unfolding direct_row asset_try_from asset_row
  find_direct_asset_for_key key_id target db =
      transpose (option_map (λ a. asset_try_from codec (asset_row a)) (direct_row key_id target db))

  unfoldable pub find_proxy_asset_for_key : Text → Text → ℤ → Database → Result (Option Asset)
  unfolding proxy_row asset_try_from asset_row
  find_proxy_asset_for_key key_id host port db =
      transpose
        (option_map (λ a. asset_try_from codec (asset_row a)) (proxy_row key_id host port db))
