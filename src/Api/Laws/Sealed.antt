-- ===== src/Api/Laws/Sealed.antt =====
-- The envelopes of a credential, and the login of one whose envelopes open.
use hop_rs.Prelude.{
  Option, Outcome-cases, Text, arith, inl, inr, none, ok, refl, some, text, true, ◌++◌, ◌==◌, ◌≡◌,
  ◌⊎◌,
}
use hop_rs.Models.{AuthType, auth_type_try_from, Credential, NewCredential}
use hop_rs.Manifest.{Environment}
use hop_rs.Envelope.{Bytes, MasterKey, Ciphers, encrypt_envelope}
use hop_rs.Apply.Hashes.{as_bytes}
use hop_rs.Runtime.Credentials.{credential_row, bound_credential, local_auth_type}
use hop_rs.Target.{
  password_login, key_login, decrypt_field, decrypt_passphrase, key_login_of, login_of,
}
use hop_rs.Api.Errors.{or_core}
use hop_rs.Api.Secrets.{encrypt_api_secret, secret_context}

-- A secret that the management interface encrypts is an envelope of that secret, made with the
-- nonce and the context of its field.
pub sealed-of :
    (ciphers : Ciphers) (nonces : Text → Bytes) (master : MasterKey) (id field value : Text)
    (sealed : Option Text)
    → encrypt_api_secret ciphers nonces master id field (some value) ≡ ok sealed
    → (envelope : Text) × (sealed ≡ some envelope)
      × (encrypt_envelope ciphers
            (nonces (id ++ (text ":" ++ field)))
            master
            (id ++ (text ":" ++ field))
            (as_bytes value)
          ≡ ok envelope)
unfolding encrypt_api_secret secret_context or_core
sealed-of ciphers nonces master id field value sealed h =
    elim (Outcome-cases (
      encrypt_envelope ciphers (nonces (id ++ (text ":" ++ field))) master
        (id ++ (text ":" ++ field)) (as_bytes value))) [
          | inl (envelope, made) ↦ (envelope, ground arith, made)
          | inr (e, failed) ↦
              let refused = rw (encrypt_api_secret, secret_context, failed, or_core) at h in cc
        ]

-- The login of a credential, once its secrets are decrypted.
module _ (ciphers : Ciphers) (master : MasterKey) (world : Environment) (c : Credential) where
  pub password-login :
      (value : Text)
      → auth_type_try_from c.auth_type ≡ ok AuthType.password
      → decrypt_field ciphers master c (text "password") c.password_enc ≡ ok value
      → login_of ciphers master world c ≡ ok (password_login c.username value)
  unfolding login_of
  password-login value type opened = rw (login_of, type, opened) refl

  pub key-login :
      (value : Text) (passphrase : Option Text)
      → (auth_type_try_from c.auth_type ≡ ok AuthType.key)
        ⊎ (auth_type_try_from c.auth_type ≡ ok AuthType.key_with_passphrase)
      → decrypt_field ciphers master c (text "private_key") c.private_key_enc ≡ ok value
      → decrypt_passphrase ciphers master c c.passphrase_enc ≡ ok passphrase
      → world.decode_secret_key value passphrase ≡ true
      → login_of ciphers master world c ≡ ok (key_login c.username value passphrase)
  unfolding login_of key_login_of
  key-login value passphrase (inl type) opened opened_too decodes =
      rw (login_of, type, opened, opened_too, decodes) refl
  key-login value passphrase (inr type) opened opened_too decodes =
      rw (login_of, type, opened, opened_too, decodes) refl

-- The row of a new credential has the type it was made with.
pub row-auth_type :
    (id now : Text) (c : NewCredential)
    → (c.auth_type ≡ AuthType.password)
      ⊎ ((c.auth_type ≡ AuthType.key) × (c.passphrase_enc ≡ none))
      ⊎ ((p : Text) × (c.auth_type ≡ AuthType.key_with_passphrase) × (c.passphrase_enc ≡ some p))
    → auth_type_try_from (credential_row (bound_credential id now c)).auth_type ≡ ok c.auth_type
unfolding credential_row bound_credential auth_type_try_from text hop_rs.Prelude.◌==◌
    local_auth_type
row-auth_type id now c (inl type) = rw type refl
row-auth_type id now c (inr (inl (type, bare))) = rw (type, bare) refl
row-auth_type id now c (inr (inr (p, type, locked))) = rw (type, locked) refl
