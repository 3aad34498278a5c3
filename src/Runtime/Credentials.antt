-- ===== src/Runtime/Credentials.antt =====
-- The operations of runtime.rs on credentials.
use hop_rs.Prelude.{
  Option, Text, find, none, ok, option_map, some, text, unwrap_or, ◌==◌, ◌>>=◌, ◌>>◌,
}
use hop_rs.Errors.{Result}
use hop_rs.Manifest.{CredentialType, password, ssh_key}
use hop_rs.Models.{
  AuthType, key, key_with_passphrase, NewCredential, Credential, validate_credential_material,
}
use hop_rs.Catalog.{credential, CredentialRecord, Database}
use hop_rs.Catalog.Statements.{
  insert_credential, update_credential_row, insert_local_ownership, increment_revision,
}
use hop_rs.Runtime.{ensure_local, delete_local_resource}

unfoldable pub local_auth_type : AuthType → CredentialType
local_auth_type AuthType.password = password
local_auth_type key = ssh_key
local_auth_type key_with_passphrase = ssh_key

-- CASE WHEN auth_type = 'password' THEN … of `credential_select`
selected_auth_type : CredentialType → Option Text → Text
selected_auth_type password passphrase = text "password"
selected_auth_type ssh_key none = text "key"
selected_auth_type ssh_key (some passphrase) = text "key+passphrase"

unfoldable pub credential_row : CredentialRecord → Credential
unfolding selected_auth_type
credential_row c = record {
  id = c.id;
  name = c.name;
  username = c.username;
  auth_type = selected_auth_type c.auth_type c.passphrase_enc;
  password_enc = c.password_enc;
  private_key_enc = c.private_key_enc;
  passphrase_enc = c.passphrase_enc;
  created_at = c.created_at;
}

unfoldable pub get_credential : Text → Database → Option Credential
unfolding credential_row
get_credential id db = option_map credential_row (find (λ c. c.id == id) db.credentials)

-- The row that the INSERT and the UPDATE bind.
unfoldable pub bound_credential : Text → Text → NewCredential → CredentialRecord
bound_credential id now c = record {
  id = id;
  name = c.name;
  username = c.username;
  auth_type = local_auth_type c.auth_type;
  password_enc = c.password_enc;
  private_key_enc = c.private_key_enc;
  passphrase_enc = c.passphrase_enc;
  secret_hmac = none;
  created_at = some now;
}

-- `fresh` is the id that `new_id` gives where the caller brings none.
unfoldable pub add_credential : Text → Text → NewCredential → Database → Result Database
unfolding validate_credential_material bound_credential insert_credential insert_local_ownership
    increment_revision
add_credential fresh now c db = do
  validate_credential_material c.auth_type c.password_enc c.private_key_enc c.passphrase_enc
  let id = unwrap_or fresh c.id
  inserted ← insert_credential (bound_credential id now c) db
  owned ← insert_local_ownership credential id inserted
  ok (increment_revision owned)

unfoldable pub update_credential : Text → Text → NewCredential → Database → Result Database
unfolding validate_credential_material bound_credential ensure_local update_credential_row
    increment_revision
update_credential id now c db = do
  validate_credential_material c.auth_type c.password_enc c.private_key_enc c.passphrase_enc
  ensure_local credential id db
  written ← update_credential_row (bound_credential id now c) db
  ok (increment_revision written)

unfoldable pub delete_credential : Text → Database → Result Database
unfolding delete_local_resource
delete_credential id db = delete_local_resource credential id db
