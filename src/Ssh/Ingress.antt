-- ===== src/Ssh/Ingress.antt =====
-- What the SSH entry, crates/hop-server/src/ssh/server.rs, lets a client do: the authentication by
-- key, the direct login, forwarding, and the requests of a channel. What a request starts (the
-- bridge, the panel, the copy of a channel) is the result.
use hop_rs.Prelude.{
  Bool, List, Option, Outcome, Text, [], any, ensure, err, false, if◌then◌else◌, is_empty, is_none,
  is_some, is_whitespace, nat_eq, none, not, ok, some, suc, text, trim, unwrap_or, zero, ℕ, ◌%◌,
  ◌&&◌, ◌++◌, ◌==◌, ◌>>=◌, ◌>>◌, ◌^◌, ◌∷◌,
}
use hop_rs.Prelude.Int.{ℤ, pos}
use hop_rs.Errors.{Error, Result}
use hop_rs.Models.{Asset, AuthorizedKey, TagsJson}
use hop_rs.Catalog.{Database}
use hop_rs.Runtime.Access.{
  get_active_authorized_key_by_fingerprint, key_can_access_asset, list_assets_for_key,
  find_direct_asset_for_key, find_proxy_asset_for_key,
}
use hop_rs.Runtime.Sessions.{start_session, finish_session}

-- An error of the catalog, or a refusal with its message.
pub data ServerError : Type 0 where
  catalog_error : Error → ServerError
  refused : Text → ServerError

pub record AuthInfo : Type 0 where
  pub key_id : Text
  pub fingerprint : Text
  pub name : Text

pub record PtySize : Type 0 where
  pub width : ℕ
  pub height : ℕ

unfoldable pub default_pty_size : PtySize
default_pty_size = record { width = 80; height = 24 }

-- The fields of `HopSshHandler` that a client's requests change, and its address. A channel is its
-- number.
pub record Handler : Type 0 where
  pub auth : Option AuthInfo
  pub direct_asset : Option Asset
  pub client_ip : Option Text
  pub ptys : List (ℕ × PtySize)

-- `HopSshServer::new_client`
unfoldable pub new_client : Text → Handler
new_client peer_addr = record {
  auth = none;
  direct_asset = none;
  client_ip = some peer_addr;
  ptys = [];
}

pub data ManagedSessionMode : Type 0 where
  tui_mode direct_mode exec_mode sftp_mode : ManagedSessionMode

unfoldable pub managed_session_mode_name : ManagedSessionMode → Text
managed_session_mode_name tui_mode = text "tui-connect"
managed_session_mode_name direct_mode = text "direct"
managed_session_mode_name exec_mode = text "exec"
managed_session_mode_name sftp_mode = text "sftp"

pub data Auth : Type 0 where
  accept reject : Auth

-- What a request of a channel leads to.
pub data Response : Type 0 where
  channel_failure : Response
  managed_bridge : ManagedSessionMode → Asset → Response
  panel : Text → PtySize → List Asset → Response

unfoldable pub authorization_denied : Text
authorization_denied = text "target not authorized or not found"

unfoldable pub lift {ℓ} : {A : Type ℓ} → Result A → Outcome ServerError A
lift (ok a) = ok a
lift (err e) = err (catalog_error e)

-- `ssh_keepalive_interval`: none for 0 seconds.
unfoldable pub ssh_keepalive_interval : ℕ → Option ℕ
ssh_keepalive_interval zero = none
ssh_keepalive_interval (suc n) = some (suc n)

unfoldable pub lookup_pty : ℕ → List (ℕ × PtySize) → Option PtySize
lookup_pty channel [] = none
lookup_pty channel ((c, size) ∷ rest) =
    let later = lookup_pty channel rest in if nat_eq c channel then some size else later

unfoldable pub pty_size : Handler → ℕ → PtySize
unfolding lookup_pty default_pty_size
pty_size handler channel = unwrap_or default_pty_size (lookup_pty channel handler.ptys)

-- `as u16` keeps the sixteen lowest bits.
unfoldable pub pty_request : ℕ → ℕ → ℕ → Handler → Handler
pty_request channel col_width row_height handler = record handler {
  ptys =
      (channel, record { width = col_width % 2 ^ 16; height = row_height % 2 ^ 16 }) ∷ handler.ptys;
}

unfoldable pub parse_direct_username : Text → Outcome ServerError Text
unfolding trim is_empty is_whitespace
parse_direct_username user = do
  let target = trim user
  ensure (not (is_empty target)) (refused (text "direct username requires <asset>"))
  ensure (not (any (λ c. nat_eq c b'@') target))
      (refused (text "direct username must be a single asset name or hostname"))
  ensure (not (any is_whitespace target))
      (refused (text "direct username cannot contain whitespace"))
  ok target

-- `accepts_managed_ssh_asset` and `accepts_sftp_request`
unfoldable pub accepts_managed_ssh_asset : Asset → Bool
accepts_managed_ssh_asset a = a.protocol == text "ssh" && is_some a.credential_id

unfoldable pub accepts_sftp_request : Text → Asset → Bool
unfolding accepts_managed_ssh_asset
accepts_sftp_request name a = name == text "sftp" && accepts_managed_ssh_asset a

unfoldable pub ends_with_newline : Text → Bool
ends_with_newline [] = false
ends_with_newline (c ∷ []) = nat_eq c 10
ends_with_newline (c ∷ d ∷ s) = ends_with_newline (d ∷ s)

unfoldable pub authentication_banner : Text → Option Text
unfolding is_empty ends_with_newline
authentication_banner banner =
    if is_empty banner
    then none
    else if ends_with_newline banner
    then some banner
    else some (banner ++ (13 ∷ 10 ∷ []))

-- `audit_denied_attempt`: a failure to write is not reported.
unfoldable pub audit_denied_attempt :
    Text
    → Text
    → AuthInfo
    → Text
    → Option Text
    → Option Text
    → Option ℤ
    → Option Text
    → Database
    → Database
unfolding start_session finish_session authorization_denied
audit_denied_attempt fresh now auth mode asset_name target_host target_port client_ip db =
    elim (start_session fresh now
      (record {
        key_finger = auth.fingerprint;
        key_name = some auth.name;
        mode = mode;
        asset_name = asset_name;
        target_host = target_host;
        target_port = target_port;
        client_ip = client_ip;
      })
      db) [
        | ok (session, started) ↦
            finish_session now session.id (text "failed") (some authorization_denied) started
        | err e ↦ db
      ]

-- `start_tui_session`: the id of the session.
unfoldable pub start_tui_session :
    Text → Text → AuthInfo → Option Text → Database → Result (Text × Database)
unfolding start_session
start_tui_session fresh now auth client_ip db = do
  started ←
      start_session fresh now
        (record {
          key_finger = auth.fingerprint;
          key_name = some auth.name;
          mode = text "tui";
          asset_name = none;
          target_host = none;
          target_port = none;
          client_ip = client_ip;
        })
        db
  let (session, after) = started
  ok (session.id, after)

unfoldable pub managed_mode_is_authorized : Text → Text → ManagedSessionMode → Database → Bool
unfolding key_can_access_asset
managed_mode_is_authorized key_id asset_id mode db = key_can_access_asset key_id asset_id db

-- `start_managed`, up to the bridge that it spawns: the answer, and the catalog afterwards.
unfoldable pub start_managed :
    Text
    → Text
    → Handler
    → Asset
    → ManagedSessionMode
    → Database
    → Outcome ServerError Response × Database
unfolding managed_mode_is_authorized audit_denied_attempt managed_session_mode_name
    authorization_denied
start_managed fresh now handler asset mode db = elim handler.auth [
  | none ↦ (err (refused (text "missing authenticated key")), db)
  | some auth ↦
      if managed_mode_is_authorized auth.key_id asset.id mode db
      then (ok (managed_bridge mode asset), db)
      else (
        err (refused authorization_denied),
        audit_denied_attempt fresh now auth (managed_session_mode_name mode) (some asset.name)
            (some asset.hostname) (some (pos asset.port)) handler.client_ip db,
      )
]

unfoldable pub has_no_credential : Option Asset → Bool
has_no_credential none = false
has_no_credential (some a) = is_none a.credential_id

-- `resolve_direct_asset_for_key` of a user, at the id of a key.
abbrev pub Resolution : Type 0
Resolution = Text → Outcome ServerError (Option Asset)

unfoldable pub offer_resolved : Outcome ServerError (Option Asset) → Auth
offer_resolved (ok asset) = accept
offer_resolved (err e) = reject

-- The answer to a key that is offered, from the active key of its fingerprint.
unfoldable pub offer_key : Resolution → Option AuthorizedKey → Auth
unfolding offer_resolved
offer_key resolve none = reject
offer_key resolve (some key) = offer_resolved (resolve key.id)

unfoldable pub take_resolved :
    Text → Handler → AuthorizedKey → Outcome ServerError (Option Asset) → Auth × Handler
take_resolved fingerprint handler key (err e) = (reject, handler)
take_resolved fingerprint handler key (ok asset) = (
  accept,
  record handler {
    auth = some (record { key_id = key.id; fingerprint = fingerprint; name = key.name });
    direct_asset = asset;
  },
)

-- The answer to a signed request, and the handler afterwards.
unfoldable pub take_key : Text → Handler → Resolution → Option AuthorizedKey → Auth × Handler
unfolding take_resolved
take_key fingerprint handler resolve none = (reject, handler)
take_key fingerprint handler resolve (some key) =
    take_resolved fingerprint handler key (resolve key.id)

module _ (codec : TagsJson) where
  unfoldable pub resolve_direct_asset_for_key :
      Text → Text → Database → Outcome ServerError (Option Asset)
  unfolding parse_direct_username find_direct_asset_for_key has_no_credential lift
  resolve_direct_asset_for_key user key_id db = do
    target ← parse_direct_username user
    found ← lift (find_direct_asset_for_key codec key_id target db)
    ensure (not (has_no_credential found))
        (refused (text "direct target has no managed credential"))
    ok found

  unfoldable pub auth_publickey_offered : Text → Text → Database → Outcome ServerError Auth
  unfolding resolve_direct_asset_for_key get_active_authorized_key_by_fingerprint lift offer_key
  auth_publickey_offered user fingerprint db = do
    found ← lift (get_active_authorized_key_by_fingerprint fingerprint db)
    ok (offer_key (λ key_id. resolve_direct_asset_for_key user key_id db) found)

  unfoldable pub auth_publickey :
      Text → Text → Database → Handler → Outcome ServerError (Auth × Handler)
  unfolding resolve_direct_asset_for_key get_active_authorized_key_by_fingerprint lift take_key
  auth_publickey user fingerprint db handler = do
    found ← lift (get_active_authorized_key_by_fingerprint fingerprint db)
    ok (take_key fingerprint handler (λ key_id. resolve_direct_asset_for_key user key_id db) found)

  -- `channel_open_direct_tcpip`: the asset of the bridge that is spawned, if any.
  unfoldable pub open_direct_tcpip :
      Text → Text → Handler → Text → ℕ → Database → Outcome ServerError (Option Asset) × Database
  unfolding find_proxy_asset_for_key audit_denied_attempt
  open_direct_tcpip fresh now handler host port db = elim handler.auth [
    | none ↦ (ok none, db)
    | some auth ↦ elim (find_proxy_asset_for_key codec auth.key_id host (pos port) db) [
      | err e ↦ (err (catalog_error e), db)
      | ok (some asset) ↦ (ok (some asset), db)
      | ok none ↦ (
        ok none,
        audit_denied_attempt fresh now auth (text "tcp-forward") none (some host) (some (pos port))
            handler.client_ip db,
      )
    ]
  ]

  -- `shell_request`: a managed session, or a panel with the id of its session, which
  -- `ActiveSessionRegistry::register` takes.
  unfoldable pub shell_request :
      Text → Text → Handler → ℕ → Database → Outcome ServerError Response × Database
  unfolding start_managed list_assets_for_key pty_size start_tui_session
  shell_request fresh now handler channel db = elim handler.direct_asset [
    | some asset ↦ start_managed fresh now handler asset direct_mode db
    | none ↦ elim handler.auth [
      | none ↦ (err (refused (text "missing authenticated key")), db)
      | some auth ↦ elim (list_assets_for_key codec auth.key_id db) [
        | err e ↦ (err (catalog_error e), db)
        | ok assets ↦ elim (start_tui_session fresh now auth handler.client_ip db) [
          | err e ↦ (err (catalog_error e), db)
          | ok (id, started) ↦ (ok (panel id (pty_size handler channel) assets), started)
        ]
      ]
    ]
  ]

unfoldable pub exec_request :
    Text → Text → Handler → Database → Outcome ServerError Response × Database
unfolding start_managed accepts_managed_ssh_asset
exec_request fresh now handler db = elim handler.direct_asset [
  | none ↦ (ok channel_failure, db)
  | some asset ↦
      if accepts_managed_ssh_asset asset
      then start_managed fresh now handler asset exec_mode db
      else (ok channel_failure, db)
]

unfoldable pub subsystem_request :
    Text → Text → Handler → Text → Database → Outcome ServerError Response × Database
unfolding start_managed accepts_sftp_request
subsystem_request fresh now handler name db = elim handler.direct_asset [
  | none ↦ (ok channel_failure, db)
  | some asset ↦
      if accepts_sftp_request name asset
      then start_managed fresh now handler asset sftp_mode db
      else (ok channel_failure, db)
]
