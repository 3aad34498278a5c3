-- ===== src/Api/Laws/Kept.antt =====
-- What an update of a credential keeps.
use hop_rs.Prelude.{Option, Text, none, ok, refl, some, text, ◌==◌, ◌≡◌}
use hop_rs.Models.{Credential, AuthType, auth_type_as_str}
use hop_rs.Models
use hop_rs.Envelope.{Bytes, MasterKey, Ciphers}
use hop_rs.Api.{ApiAuthType, CredentialWriteRequest, auth_type_of, password, key, key_passphrase}
use hop_rs.Api.Secrets.{build_credential}

-- The envelopes of a credential for the secrets that a type asks for: the password, the private key
-- and the passphrase.
abbrev pub asked : AuthType → Credential → Option Text × Option Text × Option Text
asked Models.AuthType.password e = (e.password_enc, none, none)
asked Models.AuthType.key e = (none, e.private_key_enc, none)
asked Models.AuthType.key_with_passphrase e = (none, e.private_key_enc, e.passphrase_enc)

kept_by_type :
    (ciphers : Ciphers) (nonces : Text → Bytes) (master : MasterKey) (id : Text)
    (request : CredentialWriteRequest) (e : Credential) (t : ApiAuthType)
    → request.auth_type ≡ t
    → request.password ≡ none
    → request.private_key ≡ none
    → request.passphrase ≡ none
    → e.auth_type ≡ auth_type_as_str (auth_type_of t)
    → build_credential ciphers nonces master id request (some e)
      ≡ ok (record {
        id = some id;
        name = request.name;
        username = request.username;
        auth_type = auth_type_of t;
        password_enc = (asked (auth_type_of t) e).0;
        private_key_enc = (asked (auth_type_of t) e).1;
        passphrase_enc = (asked (auth_type_of t) e).2;
      })
unfolding build_credential auth_type_of auth_type_as_str text ◌==◌
kept_by_type ciphers nonces master id request e password type n1 n2 n3 same =
    rw (build_credential, type, n1, same) refl
kept_by_type ciphers nonces master id request e key type n1 n2 n3 same =
    rw (build_credential, type, n2, same) refl
kept_by_type ciphers nonces master id request e key_passphrase type n1 n2 n3 same =
    rw (build_credential, type, n2, n3, same) refl

-- An update of a credential that brings no secret, and leaves its type, keeps the envelopes of the
-- secrets that the type asks for, and takes the name and the user of the request. It drops any other
-- envelope that the credential holds.
pub build_credential-keeps :
    (ciphers : Ciphers) (nonces : Text → Bytes) (master : MasterKey) (id : Text)
    (request : CredentialWriteRequest) (e : Credential)
    → request.password ≡ none
    → request.private_key ≡ none
    → request.passphrase ≡ none
    → e.auth_type ≡ auth_type_as_str (auth_type_of request.auth_type)
    → build_credential ciphers nonces master id request (some e)
      ≡ ok (record {
        id = some id;
        name = request.name;
        username = request.username;
        auth_type = auth_type_of request.auth_type;
        password_enc = (asked (auth_type_of request.auth_type) e).0;
        private_key_enc = (asked (auth_type_of request.auth_type) e).1;
        passphrase_enc = (asked (auth_type_of request.auth_type) e).2;
      })
build_credential-keeps ciphers nonces master id request e =
    kept_by_type ciphers nonces master id request e request.auth_type refl
