-- ===== src/Api/Secrets.antt =====
-- `build_credential` of control_api.rs: the envelopes of a credential that is written.
use hop_rs.Prelude.{Bool, Option, Text, if◌then◌else◌, none, not, ok, some, text, ◌++◌, ◌==◌, ◌>>=◌}
use hop_rs.Models.{AuthType, Credential, NewCredential}
use hop_rs.Envelope.{Bytes, MasterKey, Ciphers, encrypt_envelope}
use hop_rs.Apply.Hashes.{as_bytes}
use hop_rs.Api.{CredentialWriteRequest, auth_type_of}
use hop_rs.Api.Errors.{ApiResult, or_core}

-- `a.or(b)`
unfoldable pub or_kept : Option Text → Option Text → Option Text
or_kept none kept = kept
or_kept (some value) kept = some value

-- `existing.filter(test).and_then(field)`
unfoldable pub kept : (Text → Bool) → (Credential → Option Text) → Option Credential → Option Text
kept test field none = none
kept test field (some c) = if test c.auth_type then field c else none

unfoldable pub keep_password : Option Credential → Option Text
unfolding kept
keep_password = kept (λ t. t == text "password") (λ c. c.password_enc)

unfoldable pub keep_private_key : Option Credential → Option Text
unfolding kept
keep_private_key = kept (λ t. not (t == text "password")) (λ c. c.private_key_enc)

unfoldable pub keep_passphrase : Option Credential → Option Text
unfolding kept
keep_passphrase = kept (λ t. t == text "key+passphrase") (λ c. c.passphrase_enc)

-- `nonces` is what the random generator gives for each envelope, by its context.
module _ (ciphers : Ciphers) (nonces : Text → Bytes) (master : MasterKey) where
  -- `format!("{id}:{field}")`
  unfoldable pub secret_context : Text → Text → Text
  secret_context id field = id ++ (text ":" ++ field)

  unfoldable pub encrypt_api_secret : Text → Text → Option Text → ApiResult (Option Text)
  unfolding secret_context encrypt_envelope as_bytes or_core
  encrypt_api_secret id field none = ok none
  encrypt_api_secret id field (some value) =
      let at = secret_context id field in
      or_core (encrypt_envelope ciphers (nonces at) master at (as_bytes value)) >>= λ envelope.
      ok (some envelope)

  -- The three fields of a type: the new secret, or the one that is kept.
  unfoldable pub sealed_secret : Text → Text → Option Text → Option Text → ApiResult (Option Text)
  unfolding encrypt_api_secret or_kept
  sealed_secret id field value kept =
      encrypt_api_secret id field value >>= λ sealed. ok (or_kept sealed kept)

  unfoldable pub sealed_password :
      AuthType → Text → CredentialWriteRequest → Option Credential → ApiResult (Option Text)
  unfolding sealed_secret keep_password
  sealed_password AuthType.password id request existing =
      sealed_secret id (text "password") request.password (keep_password existing)
  sealed_password AuthType.key id request existing = ok none
  sealed_password AuthType.key_with_passphrase id request existing = ok none

  unfoldable pub sealed_private_key :
      AuthType → Text → CredentialWriteRequest → Option Credential → ApiResult (Option Text)
  unfolding sealed_secret keep_private_key
  sealed_private_key AuthType.password id request existing = ok none
  sealed_private_key AuthType.key id request existing =
      sealed_secret id (text "private_key") request.private_key (keep_private_key existing)
  sealed_private_key AuthType.key_with_passphrase id request existing =
      sealed_secret id (text "private_key") request.private_key (keep_private_key existing)

  unfoldable pub sealed_passphrase :
      AuthType → Text → CredentialWriteRequest → Option Credential → ApiResult (Option Text)
  unfolding sealed_secret keep_passphrase
  sealed_passphrase AuthType.password id request existing = ok none
  sealed_passphrase AuthType.key id request existing = ok none
  sealed_passphrase AuthType.key_with_passphrase id request existing =
      sealed_secret id (text "passphrase") request.passphrase (keep_passphrase existing)

  unfoldable pub build_credential :
      Text → CredentialWriteRequest → Option Credential → ApiResult NewCredential
  unfolding auth_type_of sealed_password sealed_private_key sealed_passphrase
  build_credential id request existing = do
    let auth_type = auth_type_of request.auth_type
    password_enc ← sealed_password auth_type id request existing
    private_key_enc ← sealed_private_key auth_type id request existing
    passphrase_enc ← sealed_passphrase auth_type id request existing
    ok (record {
      id = some id;
      name = request.name;
      username = request.username;
      auth_type = auth_type;
      password_enc = password_enc;
      private_key_enc = private_key_enc;
      passphrase_enc = passphrase_enc;
    })
