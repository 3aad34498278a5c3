-- ===== src/Envelope.antt =====
-- Credential envelopes and the master key, crates/hop-core/src/crypto.rs. The cipher, the key
-- derivation, base64 and the files are parameters: what the crates chacha20poly1305, hkdf and
-- base64, and the system, provide.
pub mod RoundTrip
use hop_rs.Prelude.{
  Bool, List, Option, Outcome, Text, [], ensure, err, if◌then◌else◌, length, ltb, nat_eq, none, not,
  ok, some, text, trim, ℕ, ◌%◌, ◌&&◌, ◌++◌, ◌+◌, ◌/◌, ◌==◌, ◌>>=◌, ◌>>◌, ◌∷◌,
}
use hop_rs.Prelude.Split.{split_on}
use hop_rs.Errors.{crypto, Result}

abbrev pub Bytes : Type 0
Bytes = List ℕ

-- `MasterKey`: 32 bytes.
pub record MasterKey : Type 0 where
  pub bytes : Bytes

-- A fallible call gives the text of its error.
pub record Ciphers : Type 0 where
  pub hkdf_expand : Bytes → Bytes → Text → Outcome Text Bytes
  pub encrypt : Bytes → Bytes → Bytes → Outcome Text Bytes
  pub decrypt : Bytes → Bytes → Bytes → Outcome Text Bytes
  pub encode : Bytes → Text
  pub decode : Text → Outcome Text Bytes

unfoldable pub envelope_version : Text
envelope_version = text "v1"

unfoldable pub envelope_alg : Text
envelope_alg = text "xchacha20poly1305"

unfoldable pub envelope_salt : Bytes
envelope_salt = text "hop-credential-envelope-v1"

abbrev pub key_len : ℕ
key_len = 32

abbrev pub nonce_len : ℕ
nonce_len = 24

-- `map_err(|err| HopCoreError::Crypto(format!("{prefix}{err}")))`
unfoldable pub crypto_err {ℓ} : {A : Type ℓ} → Text → Outcome Text A → Result A
crypto_err prefix (ok a) = ok a
crypto_err prefix (err e) = err (crypto (prefix ++ e))

module _ (ciphers : Ciphers) where
  unfoldable pub derive_key : MasterKey → Text → Result Bytes
  unfolding crypto_err
  derive_key master context =
      crypto_err (text "hkdf expand failed: ")
        (ciphers.hkdf_expand envelope_salt master.bytes context)

  unfoldable pub print_envelope : Bytes → Bytes → Text
  print_envelope nonce ciphertext =
      envelope_version
      ++ b':' ∷ envelope_alg
      ++ b':' ∷ ciphers.encode nonce
      ++ b':' ∷ ciphers.encode ciphertext

  -- `nonce` is what the random generator fills.
  unfoldable pub encrypt_envelope : Bytes → MasterKey → Text → Bytes → Result Text
  unfolding derive_key print_envelope crypto_err
  encrypt_envelope nonce master context plaintext = do
    key ← derive_key master context
    ciphertext ← crypto_err (text "encrypt failed: ") (ciphers.encrypt key nonce plaintext)
    ok (print_envelope nonce ciphertext)

  -- The steps of `decrypt_envelope` on the four parts.
  unfoldable pub open_parts : MasterKey → Text → Text → Text → Text → Text → Result Bytes
  unfolding derive_key crypto_err
  open_parts master context version alg nonce_text ciphertext_text = do
    ensure (version == envelope_version && alg == envelope_alg)
        (crypto (text "unsupported envelope version or algorithm"))
    nonce ← crypto_err (text "invalid nonce base64: ") (ciphers.decode nonce_text)
    ensure (nat_eq (length nonce) nonce_len) (crypto (text "nonce must be 24 bytes"))
    ciphertext ← crypto_err (text "invalid ciphertext base64: ") (ciphers.decode ciphertext_text)
    key ← derive_key master context
    crypto_err (text "decrypt failed: ") (ciphers.decrypt key nonce ciphertext)

  unfoldable pub open_split : MasterKey → Text → List Text → Result Bytes
  unfolding open_parts
  open_split master context (version ∷ alg ∷ nonce ∷ ciphertext ∷ []) =
      open_parts master context version alg nonce ciphertext
  open_split master context _ = err (crypto (text "malformed envelope"))

  unfoldable pub decrypt_envelope : MasterKey → Text → Text → Result Bytes
  unfolding open_split split_on
  decrypt_envelope master context envelope = open_split master context (split_on b':' envelope)

-- `permissions().mode() & 0o077 != 0`: the six lowest bits of the mode.
unfoldable pub open_to_others : ℕ → Bool
open_to_others mode = not (nat_eq (mode % 64) 0)

-- The octal digits of the nine lowest bits, without leading zeros.
unfoldable pub octal_mode : ℕ → Text
octal_mode mode =
    let high = b'0' + mode / 64 % 8 in
    let middle = b'0' + mode / 8 % 8 in
    let low = b'0' + mode % 8 in
    if ltb mode 8
    then low ∷ []
    else if ltb mode 64
    then middle ∷ low ∷ []
    else high ∷ middle ∷ low ∷ []

-- A file of the disk, with its Unix mode and its text.
pub record SecretFile : Type 0 where
  pub mode : ℕ
  pub content : Text

unfoldable pub check_secret_permissions : Text → SecretFile → Result (Unit {0})
unfolding open_to_others octal_mode
check_secret_permissions path file =
    let mode = file.mode % 512 in
    ensure (not (open_to_others mode)) (
      crypto (
        text "secret key file "
        ++ (path
            ++ (text " permissions must not allow group or other access; current mode is "
                ++ octal_mode mode))))

module _ (ciphers : Ciphers) where
  -- On a file that is there and can be read.
  unfoldable pub load_master_key : Text → SecretFile → Result MasterKey
  unfolding check_secret_permissions crypto_err
  load_master_key path file = do
    _ ← check_secret_permissions path file
    bytes ← crypto_err (text "invalid secret key base64: ") (ciphers.decode (trim file.content))
    ensure (nat_eq (length bytes) key_len) (crypto (text "secret key must decode to 32 bytes"))
    ok (record { bytes = bytes })

  -- With the file at the path, where there is one, the key and the file that is there afterwards.
  -- `fresh` is what the random generator fills.
  unfoldable pub load_or_create_master_key :
      Bytes → Text → Option SecretFile → Result (MasterKey × SecretFile)
  unfolding load_master_key
  load_or_create_master_key fresh path (some file) = do
    key ← load_master_key path file
    ok (key, file)
  load_or_create_master_key fresh path none =
      ok (record { bytes = fresh }, record { mode = 384; content = ciphers.encode fresh })
