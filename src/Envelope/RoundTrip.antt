-- ===== src/Envelope/RoundTrip.antt =====
-- Proofs about the envelopes and the key file of crypto.rs.
use hop_rs.Prelude.{
  List, Option, Outcome, Text, [], ap, arith, ensure, eq_iff, eq_refl, err, false, first_step,
  length, none, ok, refl, some, sym, text, trim, ◌&&◌, ◌==◌, ◌∙◌, ◌∷◌, ◌≡◌,
}
use hop_rs.Prelude.Split.{has_char, split_on, split_on-whole, split_on-first}
use hop_rs.Errors.{crypto}
use hop_rs.Envelope.{
  Bytes, MasterKey, Ciphers, crypto_err, derive_key, encrypt_envelope, decrypt_envelope, open_split,
  open_parts, print_envelope, envelope_version, envelope_alg, nonce_len, key_len, SecretFile,
  load_or_create_master_key, load_master_key, check_secret_permissions, open_to_others,
}

-- The codec reads what it wrote, and never writes a colon.
abbrev pub CodecLaw : Ciphers → Type 0
CodecLaw ciphers =
    (bytes : Bytes)
    → (ciphers.decode (ciphers.encode bytes) ≡ ok bytes)
      × (has_char b':' (ciphers.encode bytes) ≡ false)

-- The cipher opens what it sealed with the same key and nonce.
abbrev pub CipherLaw : Ciphers → Type 0
CipherLaw ciphers =
    (key nonce plaintext ciphertext : Bytes)
    → ciphers.encrypt key nonce plaintext ≡ ok ciphertext
    → ciphers.decrypt key nonce ciphertext ≡ ok plaintext

split-print_envelope :
    (ciphers : Ciphers) (nonce ciphertext : Bytes)
    → CodecLaw ciphers
    → split_on b':' (print_envelope ciphers nonce ciphertext)
      ≡ envelope_version ∷ envelope_alg ∷ ciphers.encode nonce ∷ ciphers.encode ciphertext ∷ []
unfolding print_envelope envelope_version envelope_alg text
split-print_envelope ciphers nonce ciphertext law =
    split_on-first b':' (text "v1") _ refl
    ∙ ap (λ l. text "v1" ∷ l)
        (split_on-first b':' (text "xchacha20poly1305") _ refl
          ∙ ap (λ l. text "xchacha20poly1305" ∷ l)
              (split_on-first b':' (ciphers.encode nonce) _ (law nonce).1
                ∙ ap (λ l. ciphers.encode nonce ∷ l)
                    (split_on-whole b':' (ciphers.encode ciphertext) (law ciphertext).1)))

crypto_err-ok {ℓ} :
    {A : Type ℓ} (prefix : Text) (r : Outcome Text A) (a : A)
    → crypto_err prefix r ≡ ok a
    → r ≡ ok a
unfolding crypto_err
crypto_err-ok prefix (ok b) a h = cc
crypto_err-ok prefix (err e) a h = cc

-- The steps of the decryption, once each has succeeded.
open_parts-ok :
    (ciphers : Ciphers) (master : MasterKey) (context nonce_text ciphertext_text : Text)
    (nonce ciphertext key plaintext : Bytes)
    → ciphers.decode nonce_text ≡ ok nonce
    → length nonce ≡ nonce_len
    → ciphers.decode ciphertext_text ≡ ok ciphertext
    → derive_key ciphers master context ≡ ok key
    → ciphers.decrypt key nonce ciphertext ≡ ok plaintext
    → open_parts ciphers master context envelope_version envelope_alg nonce_text ciphertext_text
      ≡ ok plaintext
unfolding open_parts crypto_err
open_parts-ok ciphers master context nt ct nonce ciphertext key plaintext h1 h2 h3 h4 h5 =
    ground (arith, eq_refl envelope_version, eq_refl envelope_alg)

-- An envelope opens, with the master key and the context it was made with, to the text that was
-- put in it, whatever the nonce of 24 bytes, where base64 decodes what it encoded, without a colon,
-- and the cipher opens what it sealed.
pub decrypt-encrypt_envelope :
    (ciphers : Ciphers) (nonce : Bytes) (master : MasterKey) (context : Text) (plaintext : Bytes)
    (envelope : Text)
    → CodecLaw ciphers
    → CipherLaw ciphers
    → length nonce ≡ nonce_len
    → encrypt_envelope ciphers nonce master context plaintext ≡ ok envelope
    → decrypt_envelope ciphers master context envelope ≡ ok plaintext
unfolding decrypt_envelope encrypt_envelope
decrypt-encrypt_envelope ciphers nonce master context plaintext envelope codec cipher size h =
    let (key, derived, h1) = first_step (derive_key ciphers master context) _ h in
    let (ciphertext, sealed, h2) =
      first_step (crypto_err (text "encrypt failed: ") (ciphers.encrypt key nonce plaintext)) _
        h1 in
    let opened = cipher key nonce plaintext ciphertext (crypto_err-ok _ _ ciphertext sealed) in
    let parts =
      open_parts-ok ciphers master context (ciphers.encode nonce) (ciphers.encode ciphertext) nonce
        ciphertext key plaintext (codec nonce).0 size (codec ciphertext).0 derived opened in
    let split = split-print_envelope ciphers nonce ciphertext codec in
    let printed : print_envelope ciphers nonce ciphertext ≡ envelope = cc in
    ap (λ e. open_split ciphers master context (split_on b':' e)) (sym printed)
    ∙ ap (open_split ciphers master context) split
    ∙ parts

abbrev pub IsEnvelope : Ciphers → List Text → Type 0
IsEnvelope ciphers parts =
    (nonce ciphertext : Text) × (bytes : Bytes) × (parts
      ≡ envelope_version ∷ envelope_alg ∷ nonce ∷ ciphertext ∷ [])
    × (ciphers.decode nonce ≡ ok bytes)
    × (length bytes ≡ nonce_len)

open_parts-opens :
    (ciphers : Ciphers) (master : MasterKey) (context v a n c : Text) (plaintext : Bytes)
    → open_parts ciphers master context v a n c ≡ ok plaintext
    → IsEnvelope ciphers (v ∷ a ∷ n ∷ c ∷ [])
unfolding open_parts
open_parts-opens ciphers master context v a n c plaintext h =
    let (_, header, h1) =
      first_step
        (ensure (v == envelope_version && a == envelope_alg)
          (crypto (text "unsupported envelope version or algorithm")))
        _ h in
    let (bytes, decoded, h2) =
      first_step (crypto_err (text "invalid nonce base64: ") (ciphers.decode n)) _ h1 in
    let same_version = eq_iff v envelope_version in
    let same_alg = eq_iff a envelope_alg in
    let v_is : v ≡ envelope_version = ground (arith, same_version) in
    let a_is : a ≡ envelope_alg = ground (arith, same_alg) in
    (n, c, bytes, cc, crypto_err-ok _ (ciphers.decode n) bytes decoded, ground arith)

open_split-opens :
    (ciphers : Ciphers) (master : MasterKey) (context : Text) (parts : List Text)
    (plaintext : Bytes)
    → open_split ciphers master context parts ≡ ok plaintext
    → IsEnvelope ciphers parts
unfolding open_split
open_split-opens ciphers master context (v ∷ a ∷ n ∷ c ∷ []) plaintext h =
    open_parts-opens ciphers master context v a n c plaintext h
open_split-opens ciphers master context [] plaintext h = cc
open_split-opens ciphers master context (v ∷ []) plaintext h = cc
open_split-opens ciphers master context (v ∷ a ∷ []) plaintext h = cc
open_split-opens ciphers master context (v ∷ a ∷ n ∷ []) plaintext h = cc
open_split-opens ciphers master context (v ∷ a ∷ n ∷ c ∷ x ∷ r) plaintext h = cc

-- A text opens only as an envelope: four parts between colons, the version and the algorithm of
-- this program, and a nonce of 24 bytes.
pub decrypt_envelope-opens :
    (ciphers : Ciphers) (master : MasterKey) (context envelope : Text) (plaintext : Bytes)
    → decrypt_envelope ciphers master context envelope ≡ ok plaintext
    → IsEnvelope ciphers (split_on b':' envelope)
unfolding decrypt_envelope
decrypt_envelope-opens ciphers master context envelope plaintext h =
    open_split-opens ciphers master context (split_on b':' envelope) plaintext h

loaded-private :
    (ciphers : Ciphers) (path : Text) (file : SecretFile) (key : MasterKey)
    → load_master_key ciphers path file ≡ ok key
    → open_to_others file.mode ≡ false
unfolding load_master_key check_secret_permissions open_to_others
loaded-private ciphers path file key h =
    let (_, closed, h1) = first_step (check_secret_permissions path file) _ h in ground arith

created-loads :
    (ciphers : Ciphers) (fresh : Bytes) (path : Text)
    → CodecLaw ciphers
    → trim (ciphers.encode fresh) ≡ ciphers.encode fresh
    → length fresh ≡ key_len
    → load_master_key ciphers path (record { mode = 384; content = ciphers.encode fresh })
      ≡ ok (record { bytes = fresh })
unfolding load_master_key check_secret_permissions open_to_others crypto_err
created-loads ciphers fresh path codec trimmed size =
    let decoded = (codec fresh).0 in ground (arith, trimmed, decoded)

-- The key that a start takes is the one that the next start reads from the file that is there
-- afterwards, whether it was found or created, and the mode of that file gives no other user
-- access. The key that is drawn has 32 bytes, and its base64 decodes and has no white space.
pub load-load_or_create_master_key :
    (ciphers : Ciphers) (fresh : Bytes) (path : Text) (found : Option SecretFile) (key : MasterKey)
    (file : SecretFile)
    → CodecLaw ciphers
    → trim (ciphers.encode fresh) ≡ ciphers.encode fresh
    → length fresh ≡ key_len
    → load_or_create_master_key ciphers fresh path found ≡ ok (key, file)
    → (load_master_key ciphers path file ≡ ok key) × (open_to_others file.mode ≡ false)
unfolding load_or_create_master_key load_master_key check_secret_permissions crypto_err
    open_to_others
load-load_or_create_master_key ciphers fresh path none key file codec trimmed size h =
    let made : file ≡ record { mode = 384; content = ciphers.encode fresh } = cc in
    let drawn : record { bytes = fresh } ≡ key = cc in
    (
      ap (load_master_key ciphers path) made
          ∙ created-loads ciphers fresh path codec trimmed size
          ∙ ap ok drawn,
      ap (λ f. open_to_others f.mode) made,
    )
load-load_or_create_master_key ciphers fresh path (some f) key file codec trimmed size h =
    let (loaded, read, h1) = first_step (load_master_key ciphers path f) _ h in
    let same : file ≡ f = cc in
    let same_key : loaded ≡ key = cc in
    (
      ap (load_master_key ciphers path) same ∙ read ∙ ap ok same_key,
      ap (λ g. open_to_others g.mode) same ∙ loaded-private ciphers path f loaded read,
    )
