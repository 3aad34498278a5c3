-- ===== src/Api/Views.antt =====
-- What control_api.rs shows of a resource: no secret, and who manages it.
use hop_rs.Prelude.{Bool, List, Option, Text, false, is_some, none, some, true}
use hop_rs.Models.{
  Asset, AuthorizedKey, AssetAccessMode, all, restricted, Credential, access_mode_as_str,
}
use hop_rs.Catalog.{credential, asset, access_key, Database}
use hop_rs.Runtime.{ResourceOwnership, resource_ownership}
use hop_rs.Runtime.Listings.{list_asset_ids_for_key}

pub record AssetView : Type 0 where
  pub asset_row : Asset
  pub ownership : ResourceOwnership

unfoldable pub asset_view : Database → Asset → AssetView
unfolding resource_ownership
asset_view db a = record { asset_row = a; ownership = resource_ownership asset a.id db }

pub data SecretStatus : Type 0 where
  configured missing : SecretStatus

unfoldable pub secret_status : Bool → SecretStatus
secret_status true = configured
secret_status false = missing

pub record CredentialView : Type 0 where
  pub id : Text
  pub name : Text
  pub username : Text
  pub auth_type : Text
  pub password : SecretStatus
  pub private_key : SecretStatus
  pub passphrase : SecretStatus
  pub ownership : ResourceOwnership

unfoldable pub credential_view : Database → Credential → CredentialView
unfolding resource_ownership secret_status
credential_view db c = record {
  id = c.id;
  name = c.name;
  username = c.username;
  auth_type = c.auth_type;
  password = secret_status (is_some c.password_enc);
  private_key = secret_status (is_some c.private_key_enc);
  passphrase = secret_status (is_some c.passphrase_enc);
  ownership = resource_ownership credential c.id db;
}

pub record AccessKeyView : Type 0 where
  pub id : Text
  pub name : Text
  pub fingerprint : Text
  pub enabled : Bool
  pub access_mode : Text
  pub assets : Option (List Text)
  pub ownership : ResourceOwnership

unfoldable pub shown_assets : Database → AssetAccessMode → Text → Option (List Text)
unfolding list_asset_ids_for_key
shown_assets db all key_id = none
shown_assets db restricted key_id = some (list_asset_ids_for_key key_id db)

unfoldable pub access_key_view : Database → AuthorizedKey → AccessKeyView
unfolding shown_assets resource_ownership access_mode_as_str
access_key_view db k = record {
  id = k.id;
  name = k.name;
  fingerprint = k.fingerprint;
  enabled = k.is_active;
  access_mode = access_mode_as_str k.asset_access_mode;
  assets = shown_assets db k.asset_access_mode k.id;
  ownership = resource_ownership access_key k.id db;
}
