-- ===== src/Target/Laws/Logins.antt =====
-- What a login brings to a target, and to which target.
use hop_rs.Prelude.{
  Bool, Elem, List, Option, Outcome-cases, Text, [], ap, arith, err, every, false, first_step, here,
  inl, inr, length, none, ok, ok-pair, refl, some, sym, text, there, true, ℕ, ◌++◌, ◌↔◌, ◌∙◌, ◌∷◌,
  ◌≡◌,
}
use hop_rs.Prelude.Int.{pos}
use hop_rs.Prelude.Utf8.{is_scalar}
use hop_rs.Errors.{AnyError, Result, any_core, context}
use hop_rs.Models.{validate_tcp_port, Asset, Credential, KnownHost, NewKnownHost}
use hop_rs.Manifest.{Environment}
use hop_rs.Catalog.{Database}
use hop_rs.Envelope.{Bytes, MasterKey, Ciphers, encrypt_envelope, nonce_len}
use hop_rs.Envelope.RoundTrip.{CodecLaw, CipherLaw, decrypt-encrypt_envelope}
use hop_rs.Apply.Hashes.{as_bytes}
use hop_rs.Runtime.Credentials.{get_credential}
use hop_rs.Ssh.Tofu.{get_known_host, verify_or_learn, verify_or_learn_trusted}
use hop_rs.Target.{
  TargetResult, Peer, Login, utf8_secret, decrypt_field, decrypt_passphrase, check_server_key,
  target_credential, TargetStep, host_key_trusted, login_sent, login_of, authenticate_target,
  connect_authenticated_asset, ChannelMsg, success, failure, window_adjusted, other_message,
  wait_for_request_success,
}
use hop_rs.Target.Laws.Utf8.{from_utf8-as_bytes}

-- A secret that was sealed for a field of a credential is the one that its login decrypts.
pub decrypt_field-encrypt_envelope :
    (ciphers : Ciphers) (nonce : Bytes) (master : MasterKey) (c : Credential)
    (field value envelope : Text)
    → CodecLaw ciphers
    → CipherLaw ciphers
    → length nonce ≡ nonce_len
    → every is_scalar value ≡ true
    → encrypt_envelope ciphers nonce master (c.id ++ (text ":" ++ field)) (as_bytes value)
      ≡ ok envelope
    → decrypt_field ciphers master c field (some envelope) ≡ ok value
unfolding decrypt_field
decrypt_field-encrypt_envelope ciphers nonce master c field value envelope codec cipher size scalar
      h =
    let opened =
      decrypt-encrypt_envelope ciphers nonce master (c.id ++ (text ":" ++ field)) (as_bytes value)
        envelope codec cipher size h in
    let read = from_utf8-as_bytes value scalar in
    rw (decrypt_field, context, opened, any_core, utf8_secret, read) refl

-- The first message that is no adjustment of the window.
abbrev pub first_reply : List ChannelMsg → Option ChannelMsg
first_reply [] = none
first_reply (window_adjusted ∷ messages) = first_reply messages
first_reply (m ∷ messages) = some m

-- A request to a target succeeds exactly when the first answer of the channel, apart from
-- adjustments of its window, however many, is a success. It fails otherwise, and so at the end of
-- the channel or of the time.
pub wait_for_request_success_iff :
    (closed : Bool) (messages : List ChannelMsg) (request : Text)
    → (wait_for_request_success closed messages request ≡ ok tt)
      ↔ (first_reply messages ≡ some success)
unfolding wait_for_request_success
wait_for_request_success_iff closed [] request = ground arith
wait_for_request_success_iff closed (success ∷ messages) request = ground arith
wait_for_request_success_iff closed (failure ∷ messages) request = ground arith
wait_for_request_success_iff closed (other_message ∷ messages) request = ground arith
wait_for_request_success_iff closed (window_adjusted ∷ messages) request =
    wait_for_request_success_iff closed messages request

-- The host key on record for an address is the one that was offered there.
abbrev pub IsPinned : Text → ℕ → NewKnownHost → Database → Type 0
IsPinned hostname port offered db =
    (row : KnownHost) × (get_known_host hostname (pos port) offered.key_type db ≡ some row)
    × (row.fingerprint ≡ offered.fingerprint)

check_server_key-IsPinned :
    (ciphers : Ciphers) (master : MasterKey) (now hostname : Text) (port : ℕ)
    (key : Option NewKnownHost) (db after : Database) (steps : List TargetStep)
    → check_server_key ciphers master now hostname port key db ≡ (ok tt, steps, after)
    → (offered : NewKnownHost) × (key ≡ some offered)
      × IsPinned hostname port offered after
      × (steps ≡ host_key_trusted hostname port offered ∷ [])
unfolding check_server_key
check_server_key-IsPinned ciphers master now hostname port none db after steps h = cc
check_server_key-IsPinned ciphers master now hostname port (some offered) db after steps h =
    let host = record offered { hostname = hostname; port = pos port } in
    elim (Outcome-cases (verify_or_learn now host db)) [
      | inl ((true, learned), found) ↦
          let answered = rw (check_server_key, found) at h in
          (
            offered,
            refl,
            verify_or_learn_trusted now host db after (rw found (ground arith)),
            sym (ap (λ r. r.1) answered),
          )
      | inl ((false, learned), found) ↦ let answered = rw (check_server_key, found) at h in cc
      | inr (e, failed) ↦ let answered = rw (check_server_key, failed) at h in cc
    ]

-- Where the check of the key fails, no login is sent.
check_server_key-refused :
    (ciphers : Ciphers) (master : MasterKey) (now hostname : Text) (port : ℕ)
    (key : Option NewKnownHost) (db after : Database) (steps : List TargetStep) (e : AnyError)
    → check_server_key ciphers master now hostname port key db ≡ (err e, steps, after)
    → steps ≡ []
unfolding check_server_key
check_server_key-refused ciphers master now hostname port none db after steps e h = ground arith
check_server_key-refused ciphers master now hostname port (some offered) db after steps e h =
    let host = record offered { hostname = hostname; port = pos port } in
    elim (Outcome-cases (verify_or_learn now host db)) [
      | inl ((true, learned), found) ↦ let answered = rw (check_server_key, found) at h in cc
      | inl ((false, learned), found) ↦
          let answered = rw (check_server_key, found) at h in sym (ap (λ r. r.1) answered)
      | inr (x, failed) ↦
          let answered = rw (check_server_key, failed) at h in sym (ap (λ r. r.1) answered)
    ]

context-some : {A : Type 0} (o : Option A) (a : A) (m : Text) → context o m ≡ ok a → o ≡ some a
unfolding context
context-some o a m h = ground arith

any_core-ok : {A : Type 0} (r : Result A) (a : A) → any_core r ≡ ok a → r ≡ ok a
unfolding any_core
any_core-ok r a h = ground arith

validated_port : (n port : ℕ) → validate_tcp_port (pos n) ≡ ok port → port ≡ n
unfolding validate_tcp_port
validated_port n port h = ground arith

-- The credential of an asset, and its port.
target_credential-found :
    (ciphers : Ciphers) (master : MasterKey) (asset : Asset) (db : Database) (c : Credential)
    (port : ℕ)
    → target_credential ciphers master asset db ≡ ok (c, port)
    → (port ≡ asset.port)
      × (id : Text) × (asset.credential_id ≡ some id)
      × (get_credential id db ≡ some c)
unfolding target_credential context any_core validate_tcp_port
target_credential-found ciphers master asset db c port h =
    let (id, has, h1) =
      first_step (context asset.credential_id (text "asset has no managed credential")) _ h in
    let (found, row, h2) =
      first_step (context (get_credential id db) (text "asset credential not found")) _ h1 in
    let (p, valid, h3) = first_step (any_core (validate_tcp_port (pos asset.port))) _ h2 in
    let (same, same_port) = ok-pair h3 in
    let checked : validate_tcp_port (pos asset.port) ≡ ok p = any_core-ok _ p valid in
    (
      sym same_port ∙ validated_port asset.port p checked,
      id,
      context-some _ id _ has,
      context-some _ found _ row ∙ ap some same,
    )

only_login : (login sent : Login) → Elem (login_sent login) (login_sent sent ∷ []) → login ≡ sent
only_login login sent (here same) = cc
only_login login sent (there later) = elim later [ ]

-- The login that is sent is that of the credential, and the only one.
authenticate_target-sends :
    (ciphers : Ciphers) (master : MasterKey) (world : Environment) (peer : Peer) (c : Credential)
    (login : Login)
    → Elem (login_sent login) (authenticate_target ciphers master world peer c).1
    → (login_of ciphers master world c ≡ ok login)
      × ((authenticate_target ciphers master world peer c).1 ≡ login_sent login ∷ [])
unfolding authenticate_target
authenticate_target-sends ciphers master world peer c login h =
    elim (Outcome-cases (login_of ciphers master world c)) [
      | inr (e, failed) ↦
          let none_sent : Elem (login_sent login) [] = rw (authenticate_target, failed) at h in
          elim none_sent [ ]
      | inl (sent, made) ↦
          let one_sent : Elem (login_sent login) (login_sent sent ∷ []) =
            rw (authenticate_target, made) at h in
          let same : login ≡ sent = only_login login sent one_sent in
          (
            made ∙ ap ok (sym same),
            rw (authenticate_target, made) (ap (λ l. login_sent l ∷ []) (sym same)),
          )
    ]

connection-IsPinned :
    (ciphers : Ciphers) (master : MasterKey) (world : Environment) (peer : Peer) (now : Text)
    (asset : Asset) (db : Database) (login : Login)
    (outcome : TargetResult Login × List TargetStep × Database)
    → connect_authenticated_asset ciphers master world peer now asset db ≡ outcome
    → Elem (login_sent login) outcome.1
    → (offered : NewKnownHost) × (peer.host_key asset.hostname asset.port ≡ some offered)
      × IsPinned asset.hostname asset.port offered outcome.2
      × (outcome.1 ≡ host_key_trusted asset.hostname asset.port offered ∷ login_sent login ∷ [])
      × (id : Text) × (c : Credential) × (asset.credential_id ≡ some id)
      × (get_credential id db ≡ some c)
      × (login_of ciphers master world c ≡ ok login)
unfolding connect_authenticated_asset
connection-IsPinned ciphers master world peer now asset db login outcome ran sent =
    elim (Outcome-cases (target_credential ciphers master asset db)) [
      | inr (e, failed) ↦
          let left = rw (connect_authenticated_asset, failed) at ran in
          let none_sent : Elem (login_sent login) [] = rw (ap (λ r. r.1) (sym left)) at sent in
          elim none_sent [ ]
      | inl ((c, port), looked) ↦
          let (same, id, has, row) =
            target_credential-found ciphers master asset db c port looked in
          let looked_up : target_credential ciphers master asset db ≡ ok (c, asset.port) =
            looked ∙ ap (λ p. ok (c, p)) same in
          let ran_on = rw (connect_authenticated_asset, looked_up) at ran in
          checked id c has row
            (check_server_key ciphers master now asset.hostname asset.port
              (peer.host_key asset.hostname asset.port) db)
            refl ran_on
    ]
  where
    checked :
        (id : Text) (c : Credential)
        → asset.credential_id ≡ some id
        → get_credential id db ≡ some c
        → (r : TargetResult (Unit {0}) × List TargetStep × Database)
        → check_server_key ciphers master now asset.hostname asset.port
            (peer.host_key asset.hostname asset.port)
            db
          ≡ r
        → ◌≡◌ {A = TargetResult Login × List TargetStep × Database}
            (let (passed, steps, learned) = r in
              elim passed [
                | err e ↦ (err e, steps, learned)
                | ok trusted ↦
                    let (result, later) = authenticate_target ciphers master world peer c in
                    (result, steps ++ later, learned)
              ])
            outcome
        → (offered : NewKnownHost) × (peer.host_key asset.hostname asset.port ≡ some offered)
          × IsPinned asset.hostname asset.port offered outcome.2
          × (outcome.1 ≡ host_key_trusted asset.hostname asset.port offered ∷ login_sent login ∷ [])
          × (id : Text) × (c : Credential) × (asset.credential_id ≡ some id)
          × (get_credential id db ≡ some c)
          × (login_of ciphers master world c ≡ ok login)
    checked id c has row (err e, steps, learned) check run =
        let no_steps =
          check_server_key-refused ciphers master now asset.hostname asset.port _ db learned steps e
            check in
        let none_sent : Elem (login_sent login) [] =
          rw (ap (λ r. r.1) (sym run) ∙ no_steps) at sent in
        elim none_sent [ ]
    checked id c has row (ok passed, steps, learned) check run =
        let (offered, seen, pinned, trusted) =
          check_server_key-IsPinned ciphers master now asset.hostname asset.port _ db learned steps
            check in
        let later = (authenticate_target ciphers master world peer c).1 in
        let whole : outcome.1 ≡ host_key_trusted asset.hostname asset.port offered ∷ later =
          ap (λ r. r.1) (sym run) ∙ ap (λ l. l ++ later) trusted in
        let (made, one) =
          authenticate_target-sends ciphers master world peer c login
            (after_trust (rw whole at sent)) in
        (
          offered,
          seen,
          rw (ap (λ r. r.2) (sym run)) pinned,
          whole ∙ ap (λ l. host_key_trusted asset.hostname asset.port offered ∷ l) one,
          id,
          c,
          has,
          row,
          made,
        )
      where
        after_trust :
            {h : Text} {p : ℕ} {o : NewKnownHost} {l : List TargetStep}
            → Elem (login_sent login) (host_key_trusted h p o ∷ l)
            → Elem (login_sent login) l
        after_trust (here same) = cc
        after_trust (there later) = later

-- A login is sent only after the host key of the target has been checked: whatever comes of the
-- connection, if a login is sent then exactly two things happened, in this order. The key that the
-- target offered at the address and port of the asset was trusted, and it is the one that the
-- catalog holds for them afterwards. Then that login was sent, and it is the login of the asset's
-- credential.
pub connect_authenticated_asset-IsPinned :
    (ciphers : Ciphers) (master : MasterKey) (world : Environment) (peer : Peer) (now : Text)
    (asset : Asset) (db : Database) (login : Login)
    → Elem (login_sent login) (connect_authenticated_asset ciphers master world peer now asset db).1
    → (offered : NewKnownHost) × (peer.host_key asset.hostname asset.port ≡ some offered)
      × IsPinned asset.hostname asset.port offered
          (connect_authenticated_asset ciphers master world peer now asset db).2
      × ((connect_authenticated_asset ciphers master world peer now asset db).1
          ≡ host_key_trusted asset.hostname asset.port offered ∷ login_sent login ∷ [])
      × (id : Text) × (c : Credential) × (asset.credential_id ≡ some id)
      × (get_credential id db ≡ some c)
      × (login_of ciphers master world c ≡ ok login)
connect_authenticated_asset-IsPinned ciphers master world peer now asset db login =
    connection-IsPinned ciphers master world peer now asset db login _ refl

pub decrypt_passphrase-some :
    (ciphers : Ciphers) (master : MasterKey) (c : Credential) (envelope phrase : Text)
    → decrypt_field ciphers master c (text "passphrase") (some envelope) ≡ ok phrase
    → decrypt_passphrase ciphers master c (some envelope) ≡ ok (some phrase)
unfolding decrypt_passphrase
decrypt_passphrase-some ciphers master c envelope phrase h = rw (decrypt_passphrase, h) refl
