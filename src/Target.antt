-- ===== src/Target.antt =====
-- The client side of a managed session, crates/hop-server/src/ssh/client.rs: the way to a target,
-- the login with the secrets of its credential, and the requests on the channel. The network and
-- russh are the parameter `Peer`.
pub mod Laws
use hop_rs.Prelude.{
  Bool, List, Option, Outcome, Text, [], ensure, err, false, if◌then◌else◌, none, ok, some, text,
  true, ℕ, ◌++◌, ◌>>=◌, ◌>>◌, ◌∷◌,
}
use hop_rs.Prelude.Int.{pos}
use hop_rs.Prelude.Utf8.{from_utf8}
use hop_rs.Errors.{AnyError, core_error, message_error, any_core, context}
use hop_rs.Models.{Asset, AuthType, auth_type_try_from, Credential, NewKnownHost, validate_tcp_port}
use hop_rs.Manifest.{Environment}
use hop_rs.Catalog.{Database}
use hop_rs.Envelope.{MasterKey, Ciphers, decrypt_envelope}
use hop_rs.Runtime.Credentials.{get_credential}
use hop_rs.Ssh.Tofu.{verify_or_learn}

abbrev pub TargetResult {ℓ} : Type ℓ → Type ℓ
TargetResult A = Outcome AnyError A

-- What a login offers to the target: the user, and a password or a key with its passphrase.
pub data Login : Type 0 where
  password_login : Text → Text → Login
  key_login : Text → Text → Option Text → Login

-- What a connection goes through, in order: the host key that is trusted for an address, and the
-- login that is sent to the target, whether it is taken or not.
pub data TargetStep : Type 0 where
  host_key_trusted : Text → ℕ → NewKnownHost → TargetStep
  login_sent : Login → TargetStep

-- What is at the other end: the host key that is offered at an address within the time that is
-- allowed, if any, and whether a login is taken.
pub record Peer : Type 0 where
  pub host_key : Text → ℕ → Option NewKnownHost
  pub accepts : Login → Bool

-- `String::from_utf8(clear).context(…)`
unfoldable pub utf8_secret : List ℕ → TargetResult Text
unfolding from_utf8 context
utf8_secret bytes = context (from_utf8 bytes) (text "credential secret is not valid UTF-8")

module _ (ciphers : Ciphers) (master : MasterKey) where
  unfoldable pub decrypt_field : Credential → Text → Option Text → TargetResult Text
  unfolding decrypt_envelope utf8_secret context any_core
  decrypt_field c field envelope = do
    sealed ← context envelope (text "credential missing " ++ field)
    clear ← any_core (decrypt_envelope ciphers master (c.id ++ (text ":" ++ field)) sealed)
    utf8_secret clear

  -- `match credential.passphrase_enc`
  unfoldable pub decrypt_passphrase : Credential → Option Text → TargetResult (Option Text)
  decrypt_passphrase c none = ok none
  decrypt_passphrase c (some envelope) =
      decrypt_field c (text "passphrase") (some envelope) >>= λ clear. ok (some clear)

  unfoldable pub key_login_of : Environment → Credential → TargetResult Login
  key_login_of world c = do
    private_key ← decrypt_field c (text "private_key") c.private_key_enc
    passphrase ← decrypt_passphrase c c.passphrase_enc
    _ ←
        ensure (world.decode_secret_key private_key passphrase)
          (message_error (text "decode target private key"))
    ok (key_login c.username private_key passphrase)

  -- The login that `authenticate` makes of a credential.
  unfoldable pub login_of : Environment → Credential → TargetResult Login
  login_of world c = elim (auth_type_try_from c.auth_type) [
    | err e ↦ err (message_error e)
    | ok type ↦ elim type [
      | AuthType.password ↦ decrypt_field c (text "password") c.password_enc >>= λ clear.
          ok (password_login c.username clear)
      | AuthType.key ↦ key_login_of world c
      | AuthType.key_with_passphrase ↦ key_login_of world c
    ]
  ]

  -- The message of a login that is not taken.
  unfoldable pub refused_login : Login → Text
  refused_login (password_login user clear) = text "target password authentication failed"
  refused_login (key_login user key passphrase) = text "target public-key authentication failed"

  unfoldable pub authenticate_target :
      Environment → Peer → Credential → TargetResult Login × List TargetStep
  unfolding login_of refused_login
  authenticate_target world peer c = elim (login_of world c) [
    | err e ↦ (err e, [])
    | ok login ↦ (
      (ensure (peer.accepts login) (message_error (refused_login login)) >> ok login),
      login_sent login ∷ [],
    )
  ]

  -- `connect` of russh asks `check_server_key`, which is `verify_or_learn`, and ends the connection
  -- where it says no.
  -- It is learned before the login, and stays known whatever comes of that.
  unfoldable pub check_server_key :
      Text
      → Text
      → ℕ
      → Option NewKnownHost
      → Database
      → TargetResult (Unit {0}) × List TargetStep × Database
  unfolding verify_or_learn
  check_server_key now hostname port none db =
      (err (message_error (text "target connect timed out")), [], db)
  check_server_key now hostname port (some offered) db =
      elim (verify_or_learn now (record offered { hostname = hostname; port = pos port }) db) [
        | err e ↦ (err (core_error e), [], db)
        | ok (true, learned) ↦ (ok tt, host_key_trusted hostname port offered ∷ [], learned)
        | ok (false, learned) ↦ (err (message_error (text "Unknown server key")), [], learned)
      ]

  -- What is looked up before the connection: the credential and the port.
  unfoldable pub target_credential : Asset → Database → TargetResult (Credential × ℕ)
  unfolding get_credential validate_tcp_port any_core context
  target_credential asset db = do
    credential_id ← context asset.credential_id (text "asset has no managed credential")
    credential ← context (get_credential credential_id db) (text "asset credential not found")
    port ← any_core (validate_tcp_port (pos asset.port))
    ok (credential, port)

  unfoldable pub connect_authenticated_asset :
      Environment → Peer → Text → Asset → Database → TargetResult Login × List TargetStep × Database
  unfolding target_credential check_server_key authenticate_target
  connect_authenticated_asset world peer now asset db = elim (target_credential asset db) [
    | err e ↦ (err e, [], db)
    | ok (credential, port) ↦
        let (checked, steps, learned) =
          check_server_key now asset.hostname port (peer.host_key asset.hostname port) db in
        elim checked [
          | err e ↦ (err e, steps, learned)
          | ok trusted ↦
              let (result, later) = authenticate_target world peer credential in
              (result, steps ++ later, learned)
        ]
  ]

-- A message of the channel, as far as a request tells it apart.
pub data ChannelMsg : Type 0 where
  success failure window_adjusted other_message : ChannelMsg

unfoldable pub request_reply_received : Option ChannelMsg → Text → TargetResult Bool
request_reply_received (some success) request = ok true
request_reply_received (some failure) request =
    err (message_error (text "target rejected " ++ (request ++ text " request")))
request_reply_received (some window_adjusted) request = ok false
request_reply_received (some other_message) request =
    err (message_error (text "unexpected target response to " ++ (request ++ text " request")))
request_reply_received none request =
    err (message_error (text "target closed channel while starting " ++ request))

-- `wait_for_request_success` on what `wait` gives within the time allowed: the messages, and then
-- either the end of the channel or the end of the time.
unfoldable pub wait_for_request_success : Bool → List ChannelMsg → Text → TargetResult (Unit {0})
unfolding request_reply_received
wait_for_request_success closed [] request =
    if closed
    then (request_reply_received none request >>= λ done. ok tt)
    else err (message_error (text "target " ++ (request ++ text " request timed out")))
wait_for_request_success closed (m ∷ messages) request =
    let rest = wait_for_request_success closed messages request in
    elim (request_reply_received (some m) request) [
      | err e ↦ err e
      | ok received ↦ if received then ok tt else rest
    ]

-- The requests of `connect_asset_exec`, each with what the channel answers: the terminal where the
-- client asked for one, and the command.
unfoldable pub exec_requests :
    Option (Bool × List ChannelMsg) → Bool × List ChannelMsg → TargetResult (Unit {0})
unfolding wait_for_request_success
exec_requests none (closed, messages) = wait_for_request_success closed messages (text "exec")
exec_requests (some (pty_closed, pty_messages)) (closed, messages) =
    wait_for_request_success pty_closed pty_messages (text "pty")
    >> wait_for_request_success closed messages (text "exec")
