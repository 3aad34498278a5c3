-- ===== src/Apply/Hashes.antt =====
-- The hashes of apply.rs by which an apply sees that a resource is as the source last declared it.
-- The digests, base64 and the JSON printer are parameters: what the crates hmac, sha2, base64 and
-- serde_json provide.
use hop_rs.Prelude.{
  Bool, List, Option, Text, [], if◌then◌else◌, ltb, none, option_map, some, text, ℕ, ◌%◌, ◌++◌, ◌+◌,
  ◌/◌, ◌∷◌,
}
use hop_rs.Manifest.{CredentialType, AssetType, credential_type_as_str, asset_type_as_str}
use hop_rs.Envelope.{Bytes, MasterKey}

-- The values that stand in the objects of this file.
pub data JsonValue : Type 0 where
  null_value : JsonValue
  text_value : Text → JsonValue
  number_value : ℕ → JsonValue
  boolean_value : Bool → JsonValue
  texts_value : List Text → JsonValue

abbrev pub JsonObject : Type 0
JsonObject = List (Text × JsonValue)

pub record Digests : Type 0 where
  pub hmac_sha256 : Bytes → Bytes → Bytes
  pub sha256 : Bytes → Bytes
  pub encode_no_pad : Bytes → Text
  pub json_to_vec : JsonObject → Bytes
  pub json_to_string : JsonObject → Text

-- `str::as_bytes`
unfoldable pub utf8_char : ℕ → Bytes
utf8_char c =
    if ltb c 0x80
    then c ∷ []
    else if ltb c 0x800
    then (0xc0 + c / 64) ∷ (0x80 + c % 64) ∷ []
    else if ltb c 0x10000
    then (0xe0 + c / 4096) ∷ (0x80 + c / 64 % 64) ∷ (0x80 + c % 64) ∷ []
    else (0xf0 + c / 262144) ∷ (0x80 + c / 4096 % 64) ∷ (0x80 + c / 64 % 64) ∷ (0x80 + c % 64) ∷ []

unfoldable pub as_bytes : Text → Bytes
unfolding utf8_char
as_bytes [] = []
as_bytes (c ∷ s) = utf8_char c ++ as_bytes s

unfoldable pub optional_value : Option Text → JsonValue
optional_value none = null_value
optional_value (some t) = text_value t

module _ (digests : Digests) where
  unfoldable pub hash_value : JsonObject → Text
  hash_value object = digests.encode_no_pad (digests.sha256 (digests.json_to_vec object))

  -- The parts are updates of one digest: their bytes run on.
  unfoldable pub secret_hmac : MasterKey → Text → Text → Text → Text
  unfolding as_bytes
  secret_hmac master name field value = digests.encode_no_pad (
      digests.hmac_sha256 master.bytes
        (as_bytes name ++ (0 ∷ (as_bytes field ++ (0 ∷ as_bytes value)))))

  unfoldable pub credential_hash :
      Text → CredentialType → Text → Option Text → Option Text → Option Text → MasterKey → Text
  unfolding hash_value secret_hmac optional_value credential_type_as_str
  credential_hash name type username password private_key passphrase master = hash_value (
      (text "type", text_value (credential_type_as_str type))
      ∷ (text "username", text_value username)
      ∷ (
        text "password",
        optional_value (option_map (secret_hmac master name (text "password")) password),
      )
      ∷ (
        text "private_key",
        optional_value (option_map (secret_hmac master name (text "private_key")) private_key),
      )
      ∷ (
        text "passphrase",
        optional_value (option_map (secret_hmac master name (text "passphrase")) passphrase),
      )
      ∷ [])

  unfoldable pub asset_hash : AssetType → Text → ℕ → Option Text → Option Text → Option Text → Text
  unfolding hash_value optional_value asset_type_as_str
  asset_hash type host port display_name description credential = hash_value (
      (text "type", text_value (asset_type_as_str type))
      ∷ (text "host", text_value host)
      ∷ (text "port", number_value port)
      ∷ (text "display_name", optional_value display_name)
      ∷ (text "description", optional_value description)
      ∷ (text "credential", optional_value credential)
      ∷ [])

  unfoldable pub names_value : Option (List Text) → JsonValue
  names_value none = null_value
  names_value (some names) = texts_value names

  unfoldable pub access_hash : Text → Bool → Option (List Text) → Text
  unfolding hash_value names_value
  access_hash public_key enabled names = hash_value (
      (text "public_key", text_value public_key)
      ∷ (text "enabled", boolean_value enabled)
      ∷ (text "assets", names_value names)
      ∷ [])
