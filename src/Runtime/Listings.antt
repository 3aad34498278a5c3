-- ===== src/Runtime/Listings.antt =====
-- The listings and lookups of runtime.rs that the management interfaces read.
use hop_rs.Prelude.{
  Bool, List, Option, Text, [], false, find, if◌then◌else◌, keep, ltb, map, none, ok, option_map,
  some, sort_by, text_ltb, transpose, true, ◌==◌, ◌>>=◌, ◌∷◌,
}
use hop_rs.Prelude.Int.{ℤ, pos, negsuc}
use hop_rs.Errors.{Result}
use hop_rs.Models.{
  Asset, AuthorizedKey, Credential, KnownHost, TagsJson, asset_try_from, authorized_key_try_from,
}
use hop_rs.Catalog.{KeyRecord, Database}
use hop_rs.Runtime.Access.{asset_row, key_row, asset_rows}
use hop_rs.Runtime.Credentials.{credential_row}

-- ORDER BY a time DESC: a row without a time stands last.
unfoldable pub time_later : Option Text → Option Text → Bool
time_later none b = false
time_later (some s) none = true
time_later (some s) (some t) = text_ltb t s

-- ORDER BY created_at DESC, name ASC
unfoldable pub newer_first : Option Text → Text → Option Text → Text → Bool
unfolding time_later
newer_first created name other_created other_name =
    if time_later created other_created
    then true
    else if time_later other_created created
    then false
    else text_ltb name other_name

authorized_keys : List KeyRecord → Result (List AuthorizedKey)
authorized_keys [] = ok []
authorized_keys (k ∷ rows) = do
  x ← authorized_key_try_from (key_row k)
  xs ← authorized_keys rows
  ok (x ∷ xs)

unfoldable pub list_authorized_keys : Database → Result (List AuthorizedKey)
unfolding authorized_keys authorized_key_try_from key_row newer_first
list_authorized_keys db =
    authorized_keys
      (sort_by (λ a b. newer_first a.created_at a.name b.created_at b.name) db.access_keys)

unfoldable pub get_authorized_key_by_id : Text → Database → Result (Option AuthorizedKey)
unfolding authorized_key_try_from key_row
get_authorized_key_by_id id db =
    transpose (
      option_map (λ k. authorized_key_try_from (key_row k)) (find (λ k. k.id == id) db.access_keys))

unfoldable pub list_asset_ids_for_key : Text → Database → List Text
list_asset_ids_for_key key_id db =
    sort_by text_ltb (map (λ r. r.asset_id) (keep (λ r. r.key_id == key_id) db.access_key_assets))

unfoldable pub list_credentials : Database → List Credential
unfolding credential_row newer_first
list_credentials db =
    map credential_row
      (sort_by (λ a b. newer_first a.created_at a.name b.created_at b.name) db.credentials)

module _ (codec : TagsJson) where
  unfoldable pub list_assets : Database → Result (List Asset)
  unfolding asset_rows
  list_assets db = asset_rows codec (sort_by (λ a b. text_ltb a.name b.name) db.assets)

  unfoldable pub get_asset_by_id : Text → Database → Result (Option Asset)
  unfolding asset_try_from asset_row
  get_asset_by_id id db =
      transpose
        (option_map (λ a. asset_try_from codec (asset_row a)) (find (λ a. a.id == id) db.assets))

unfoldable pub int_ltb : ℤ → ℤ → Bool
int_ltb (pos a) (pos b) = ltb a b
int_ltb (pos a) (negsuc b) = false
int_ltb (negsuc a) (pos b) = true
int_ltb (negsuc a) (negsuc b) = ltb b a

-- ORDER BY hostname ASC, port ASC, key_type ASC
unfoldable pub host_before : KnownHost → KnownHost → Bool
unfolding int_ltb
host_before a b =
    if text_ltb a.hostname b.hostname
    then true
    else if text_ltb b.hostname a.hostname
    then false
    else if int_ltb a.port b.port
    then true
    else if int_ltb b.port a.port
    then false
    else text_ltb a.key_type b.key_type

unfoldable pub list_known_hosts : Database → List KnownHost
unfolding host_before
list_known_hosts db = sort_by host_before db.known_hosts
