-- ===== src/Api/Laws/Secrets.antt =====
-- The way of a secret from the management interface to the target, and what an update keeps.
use hop_rs.Prelude.{
  Option, Text, ap, every, first_step, inl, inr, length, none, ok, ok-injective, refl, some, sym,
  text, true, ◌++◌, ◌∙◌, ◌≡◌, ◌⊎◌,
}
use hop_rs.Prelude.Utf8.{is_scalar}
use hop_rs.Models.{AuthType, Credential, NewCredential}
use hop_rs.Manifest.{Environment}
use hop_rs.Envelope.{Bytes, MasterKey, Ciphers, nonce_len}
use hop_rs.Envelope.RoundTrip.{CodecLaw, CipherLaw}
use hop_rs.Runtime.Credentials.{credential_row, bound_credential}
use hop_rs.Target.{Login, password_login, key_login, decrypt_field, decrypt_passphrase, login_of}
use hop_rs.Target.Laws.Logins.{decrypt_field-encrypt_envelope, decrypt_passphrase-some}
use hop_rs.Api.{CredentialWriteRequest, auth_type_of, password, key, key_passphrase}
use hop_rs.Api.Secrets.{
  build_credential, encrypt_api_secret, or_kept, sealed_secret, sealed_password, sealed_private_key,
  sealed_passphrase, keep_password, keep_private_key, keep_passphrase,
}
use hop_rs.Api.Laws.Sealed.{sealed-of, password-login, key-login, row-auth_type}

-- The login that a request for a new credential asks for: its user with the secrets of its type.
abbrev pub Intends : CredentialWriteRequest → Login → Type 0
Intends r (password_login user value) =
    (r.auth_type ≡ password)
    × (r.username ≡ user)
    × (r.password ≡ some value)
    × (every is_scalar value ≡ true)
Intends r (key_login user value none) =
    (r.auth_type ≡ key)
    × (r.username ≡ user)
    × (r.private_key ≡ some value)
    × (every is_scalar value ≡ true)
Intends r (key_login user value (some phrase)) =
    (r.auth_type ≡ key_passphrase)
    × (r.username ≡ user)
    × (r.private_key ≡ some value)
    × (every is_scalar value ≡ true)
    × (r.passphrase ≡ some phrase)
    × (every is_scalar phrase ≡ true)

-- The key of a login can be read.
abbrev pub Decodes : Environment → Login → Type 0
Decodes world (password_login user value) = Unit
Decodes world (key_login user value phrase) = world.decode_secret_key value phrase ≡ true

module _ (ciphers : Ciphers) (nonces : Text → Bytes) (master : MasterKey) (id now : Text)
    (request : CredentialWriteRequest) (codec : CodecLaw ciphers) (cipher : CipherLaw ciphers)
    (sizes : (at : Text) → length (nonces at) ≡ nonce_len) (world : Environment) where
  -- An envelope of a field that was made for this id opens to its value.
  opens :
      (c : Credential) (field value : Text) (sealed : Option Text)
      → c.id ≡ id
      → every is_scalar value ≡ true
      → encrypt_api_secret ciphers nonces master id field (some value) ≡ ok sealed
      → decrypt_field ciphers master c field sealed ≡ ok value
  opens c field value sealed same scalar made =
      let (envelope, is, enc) = sealed-of ciphers nonces master id field value sealed made in
      rw is (
        decrypt_field-encrypt_envelope ciphers (nonces (id ++ (text ":" ++ field))) master c field
          value envelope codec cipher (sizes (id ++ (text ":" ++ field))) scalar (rw same enc))

  -- A secret that is given is the one that is sealed, whatever could be kept.
  sealed_given :
      (field value : Text) (kept sealed : Option Text)
      → sealed_secret ciphers nonces master id field (some value) kept ≡ ok sealed
      → encrypt_api_secret ciphers nonces master id field (some value) ≡ ok sealed
  unfolding sealed_secret or_kept
  sealed_given field value kept sealed h =
      let (made, sealing, h1) =
        first_step (encrypt_api_secret ciphers nonces master id field (some value)) _ h in
      let (envelope, is, enc) = sealed-of ciphers nonces master id field value made sealing in
      sealing ∙ ap ok (is ∙ sym (ap (λ m. or_kept m kept) is)) ∙ h1

  -- The parts of a credential that was built.
  record IsBuilt (written : NewCredential) : Type 0 where
    type : written.auth_type ≡ auth_type_of request.auth_type
    username : written.username ≡ request.username
    ident : written.id ≡ some id
    first :
        sealed_password ciphers nonces master written.auth_type id request none
        ≡ ok written.password_enc
    second :
        sealed_private_key ciphers nonces master written.auth_type id request none
        ≡ ok written.private_key_enc
    third :
        sealed_passphrase ciphers nonces master written.auth_type id request none
        ≡ ok written.passphrase_enc

  build_credential-IsBuilt :
      (written : NewCredential)
      → build_credential ciphers nonces master id request none ≡ ok written
      → IsBuilt written
  unfolding build_credential
  build_credential-IsBuilt written built =
      let type = auth_type_of request.auth_type in
      let (pw, h0, h1) =
        first_step (sealed_password ciphers nonces master type id request none) _ built in
      let (pk, h2, h3) =
        first_step (sealed_private_key ciphers nonces master type id request none) _ h1 in
      let (ph, h4, h5) =
        first_step (sealed_passphrase ciphers nonces master type id request none) _ h3 in
      let same = ok-injective h5 in
      record {
        type = ap (λ w. w.auth_type) (sym same);
        username = ap (λ w. w.username) (sym same);
        ident = ap (λ w. w.id) (sym same);
        first = rw (← same) h0;
        second = rw (← same) h2;
        third = rw (← same) h4;
      }

  pub build_credential-id :
      (written : NewCredential)
      → build_credential ciphers nonces master id request none ≡ ok written
      → written.id ≡ some id
  build_credential-id written built = (build_credential-IsBuilt written built).ident

  -- The secrets that the request has are the ones in the envelopes of their fields.
  password_sealed :
      (value : Text) (written : NewCredential)
      → IsBuilt written
      → written.auth_type ≡ AuthType.password
      → request.password ≡ some value
      → encrypt_api_secret ciphers nonces master id (text "password") (some value)
        ≡ ok written.password_enc
  unfolding sealed_password keep_password
  password_sealed value written b kind given =
      sealed_given (text "password") value none written.password_enc (
        ap (λ v. sealed_secret ciphers nonces master id (text "password") v none) (sym given)
        ∙ ap (λ t. sealed_password ciphers nonces master t id request none) (sym kind)
        ∙ b.first)

  private_key_sealed :
      (value : Text) (written : NewCredential)
      → IsBuilt written
      → (written.auth_type ≡ AuthType.key) ⊎ (written.auth_type ≡ AuthType.key_with_passphrase)
      → request.private_key ≡ some value
      → encrypt_api_secret ciphers nonces master id (text "private_key") (some value)
        ≡ ok written.private_key_enc
  unfolding sealed_private_key keep_private_key
  private_key_sealed value written b kind given =
      sealed_given (text "private_key") value none written.private_key_enc (
        ap (λ v. sealed_secret ciphers nonces master id (text "private_key") v none) (sym given)
        ∙ elim kind [
          | inl k ↦ ap (λ t. sealed_private_key ciphers nonces master t id request none) (sym k)
          | inr k ↦ ap (λ t. sealed_private_key ciphers nonces master t id request none) (sym k)
        ]
        ∙ b.second)

  passphrase_sealed :
      (value : Text) (written : NewCredential)
      → IsBuilt written
      → written.auth_type ≡ AuthType.key_with_passphrase
      → request.passphrase ≡ some value
      → encrypt_api_secret ciphers nonces master id (text "passphrase") (some value)
        ≡ ok written.passphrase_enc
  unfolding sealed_passphrase keep_passphrase
  passphrase_sealed value written b kind given =
      sealed_given (text "passphrase") value none written.passphrase_enc (
        ap (λ v. sealed_secret ciphers nonces master id (text "passphrase") v none) (sym given)
        ∙ ap (λ t. sealed_passphrase ciphers nonces master t id request none) (sym kind)
        ∙ b.third)

  -- A credential that is built for a login makes that login.
  pub build_credential-login_of :
      (login : Login) (written : NewCredential)
      → Intends request login
      → Decodes world login
      → build_credential ciphers nonces master id request none ≡ ok written
      → login_of ciphers master world (credential_row (bound_credential id now written)) ≡ ok login
  unfolding auth_type_of credential_row bound_credential decrypt_passphrase sealed_passphrase
  build_credential-login_of (password_login user value) written (type, name, given, scalar) usable
        built =
      let b = build_credential-IsBuilt written built in
      let kind : written.auth_type ≡ AuthType.password = b.type ∙ ap auth_type_of type in
      let row = credential_row (bound_credential id now written) in
      password-login ciphers master world row value
        (row-auth_type id now written (inl kind) ∙ ap ok kind)
        (opens row (text "password") value written.password_enc refl scalar
          (password_sealed value written b kind given))
      ∙ ap (λ u. ok (password_login u value)) (b.username ∙ name)
  build_credential-login_of (key_login user value none) written (type, name, given, scalar) usable
        built =
      let b = build_credential-IsBuilt written built in
      let kind : written.auth_type ≡ AuthType.key = b.type ∙ ap auth_type_of type in
      let row = credential_row (bound_credential id now written) in
      let bare : written.passphrase_enc ≡ none = sym (
        ok-injective (
          ap (λ t. sealed_passphrase ciphers nonces master t id request none) (sym kind)
          ∙ b.third)) in
      key-login ciphers master world row value none
        (inl (row-auth_type id now written (inr (inl (kind, bare))) ∙ ap ok kind))
        (opens row (text "private_key") value written.private_key_enc refl scalar
          (private_key_sealed value written b (inl kind) given))
        (ap (decrypt_passphrase ciphers master row) bare) usable
      ∙ ap (λ u. ok (key_login u value none)) (b.username ∙ name)
  build_credential-login_of (key_login user value (some phrase)) written
        (type, name, given, scalar, locked, phrase_scalar) usable built =
      let b = build_credential-IsBuilt written built in
      let kind : written.auth_type ≡ AuthType.key_with_passphrase = b.type ∙ ap auth_type_of type in
      let row = credential_row (bound_credential id now written) in
      let sealing = passphrase_sealed phrase written b kind locked in
      let (envelope, is, enc) =
        sealed-of ciphers nonces master id (text "passphrase") phrase written.passphrase_enc
          sealing in
      let opened =
        opens row (text "passphrase") phrase written.passphrase_enc refl phrase_scalar sealing in
      key-login ciphers master world row value (some phrase)
        (inr (row-auth_type id now written (inr (inr (envelope, kind, is))) ∙ ap ok kind))
        (opens row (text "private_key") value written.private_key_enc refl scalar
          (private_key_sealed value written b (inr kind) given))
        (ap (decrypt_passphrase ciphers master row) is
          ∙ decrypt_passphrase-some ciphers master row envelope phrase
              (ap (decrypt_field ciphers master row (text "passphrase")) (sym is) ∙ opened))
        usable
      ∙ ap (λ u. ok (key_login u value (some phrase))) (b.username ∙ name)
