-- ===== src/Tests/Envelopes.antt =====
-- The theorems on envelopes, the key file and the startup configuration at concrete inputs.
use hop_rs.Prelude.{
  Bool, Outcome, Text, [], ap, arith, cons-equal, err, false, if-cases, if◌then◌else◌, map, nat_eq,
  none, ok, refl, some, suc, sym, text, trim, true, zero, ℕ, ◌++◌, ◌+◌, ◌-◌, ◌==◌, ◌∷◌, ◌≡◌,
}
use hop_rs.Prelude.Split.{has_char, split_on}
use hop_rs.Manifest.{Environment}
use hop_rs.Envelope.{
  Bytes, MasterKey, Ciphers, SecretFile, encrypt_envelope, decrypt_envelope, load_master_key,
  load_or_create_master_key, open_to_others,
}
use hop_rs.Envelope.RoundTrip.{
  CodecLaw, CipherLaw, IsEnvelope, decrypt-encrypt_envelope, decrypt_envelope-opens,
  load-load_or_create_master_key,
}
use hop_rs.Startup.{HopConfig, default_config, startup_manifest}
use hop_rs.Startup.Validate.{Parsers, validate}
use hop_rs.Startup.Laws.{HasItsSecret, HasKeySource, AllValues, validate_complete}

abbrev encode_byte : ℕ → ℕ
encode_byte n = n + 100

-- A cipher that seals nothing, with a codec that moves every byte away from the punctuation.
abbrev pub open_ciphers : Ciphers
open_ciphers = record {
  hkdf_expand = λ salt key context. ok context;
  encrypt = λ key nonce plaintext. ok plaintext;
  decrypt = λ key nonce ciphertext. ok ciphertext;
  encode = λ bytes. map encode_byte bytes;
  decode = λ t. ok (map (λ n. n - 100) t);
}

decoded : (bytes : Bytes) → map (λ n. n - 100) (map encode_byte bytes) ≡ bytes
decoded [] = refl
decoded (n ∷ bytes) = cons-equal (omega arith) (decoded bytes)

no_colon : (bytes : Bytes) → has_char b':' (map encode_byte bytes) ≡ false
no_colon [] = refl
no_colon (n ∷ bytes) = ground (arith, no_colon bytes)

pub open_codec : CodecLaw open_ciphers
open_codec bytes = (ap ok (decoded bytes), no_colon bytes)

pub open_cipher : CipherLaw open_ciphers
open_cipher key nonce plaintext ciphertext h = sym h

abbrev pub zeros : ℕ → Bytes
zeros zero = []
zeros (suc n) = 0 ∷ zeros n

abbrev pub zero_key : MasterKey
zero_key = record { bytes = zeros 32 }

-- What a call gives where it succeeds.
abbrev pub value_or {ℓ} : {E : Type 0} {A : Type ℓ} → A → Outcome E A → A
value_or default (ok a) = a
value_or default (err e) = default

abbrev sealed : Text
sealed =
    value_or []
      (encrypt_envelope open_ciphers (zeros 24) zero_key (text "c1:password") (1 ∷ 2 ∷ []))

decrypt-encrypt_envelope_example :
    decrypt_envelope open_ciphers zero_key (text "c1:password") sealed ≡ ok (1 ∷ 2 ∷ [])
unfolding encrypt_envelope
decrypt-encrypt_envelope_example =
    decrypt-encrypt_envelope open_ciphers (zeros 24) zero_key (text "c1:password") (1 ∷ 2 ∷ [])
      sealed open_codec open_cipher refl refl

decrypt_envelope-opens_example : IsEnvelope open_ciphers (split_on b':' sealed)
unfolding encrypt_envelope
decrypt_envelope-opens_example =
    decrypt_envelope-opens open_ciphers zero_key (text "c1:password") sealed (1 ∷ 2 ∷ []) (
      decrypt-encrypt_envelope open_ciphers (zeros 24) zero_key (text "c1:password") (1 ∷ 2 ∷ [])
        sealed open_codec open_cipher refl refl)

abbrev key_file : SecretFile
key_file = record { mode = 384; content = map encode_byte (zeros 32) }

load-load_or_create_master_key_example :
    (load_master_key open_ciphers (text "hop.secret") key_file ≡ ok zero_key)
    × (open_to_others key_file.mode ≡ false)
unfolding load_or_create_master_key trim
load-load_or_create_master_key_example =
    load-load_or_create_master_key open_ciphers (zeros 32) (text "hop.secret") none zero_key
      key_file open_codec refl refl refl

abbrev is_rooted : Text → Bool
is_rooted [] = false
is_rooted (c ∷ s) = nat_eq c b'/'

abbrev pub plain_parsers : Parsers
plain_parsers = record {
  parse_addr = λ t. ok tt;
  parse_uri = λ t. some (record { scheme_str = some (text "https"); authority = some t });
  is_absolute = is_rooted;
  join = λ base path. if is_rooted path then path else base ++ b'/' ∷ path;
}

join-rooted :
    (b p : Text) → is_rooted b ≡ true → is_rooted (if is_rooted p then p else b ++ b'/' ∷ p) ≡ true
join-rooted [] p h = ground arith
join-rooted (c ∷ b) p h = if-cases (λ t. is_rooted t ≡ true) (is_rooted p) (λ r. r) (λ n. h)

abbrev pub no_world : Environment
no_world = record {
  read_to_string = λ path. none;
  env_var = λ name. none;
  decode_secret_key = λ key passphrase. false;
  parse_public_key_base64 = λ t. none;
}

abbrev one_asset : HopConfig
one_asset = record default_config {
  credentials =
      (
        text "root",
        record {
          username = text "root";
          password = some (text "secret");
          private_key = none;
          passphrase = none;
        },
      )
      ∷ [];
  assets =
      (
        text "nas",
        record {
          asset_type = none;
          host = text "192.0.2.10";
          port = none;
          display_name = none;
          description = none;
          credential = some (text "root");
        },
      )
      ∷ [];
}

validate_complete_example :
    AllValues HasItsSecret (startup_manifest one_asset).credentials
    × AllValues HasKeySource (startup_manifest one_asset).access
unfolding validate default_config text hop_rs.Prelude.◌==◌ hop_rs.Manifest.Names.validate_name
    hop_rs.Manifest.Names.required_text hop_rs.Manifest.Resolve.read_source
    hop_rs.Manifest.Resolve.positive_port hop_rs.Manifest.Names.optional_name
    hop_rs.Manifest.Resolve.is_tcp hop_rs.Prelude.Map.insert
    hop_rs.Manifest.References.reference_known hop_rs.Prelude.Map.contains
    hop_rs.Prelude.Map.insert_name hop_rs.Prelude.Map.lookup
validate_complete_example = validate_complete plain_parsers no_world one_asset refl
