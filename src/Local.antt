-- ===== src/Local.antt =====
-- The local commands of crates/hop-server/src/local_cli.rs. A command gives the text that it
-- prints. `Environment` has the files and the key formats.
use hop_rs.Prelude.{
  Bool, List, Option, Outcome, Text, [], decimal, ensure, err, false, if◌then◌else◌, length, none,
  not, ok, ok_or, some, text, true, unwrap_or, ◌++◌, ◌>>=◌, ◌∷◌,
}
use hop_rs.Errors.{AnyError, message_error, any_core, context, Result, database, row_not_found}
use hop_rs.Models.{
  Asset, AssetAccessMode, all, restricted, AuthType, AuthorizedKey, NewAsset, TagsJson,
  access_mode_as_str, validate_credential_material,
}
use hop_rs.Manifest.{Environment}
use hop_rs.Manifest.Resolve.{split_whitespace}
use hop_rs.Catalog.{Database}
use hop_rs.Envelope.{Bytes, MasterKey, Ciphers, encrypt_envelope}
use hop_rs.Apply.Hashes.{as_bytes}
use hop_rs.Runtime.Keys.{add_authorized_key, set_authorized_key_active, set_authorized_key_access}
use hop_rs.Runtime.Assets.{add_asset, delete_asset}
use hop_rs.Runtime.Credentials.{add_credential, delete_credential, get_credential}
use hop_rs.Runtime.Listings.{
  get_authorized_key_by_id, list_authorized_keys, list_asset_ids_for_key, list_credentials,
  list_assets, get_asset_by_id,
}

abbrev pub LocalResult {ℓ} : Type ℓ → Type ℓ
LocalResult A = Outcome AnyError A

-- Fields between tabs, and a line end.
unfoldable pub tabbed : List Text → Text
tabbed [] = text "\n"
tabbed (f ∷ []) = f ++ text "\n"
tabbed (f ∷ g ∷ fs) = f ++ (text "\t" ++ tabbed (g ∷ fs))

key_of_words : Environment → List Text → LocalResult (Text × Text)
key_of_words world [] = err (message_error (text "empty public key"))
key_of_words world (key_type ∷ []) =
    err (message_error (text "public key must be OpenSSH '<type> <base64>' format"))
key_of_words world (key_type ∷ key_blob ∷ rest) = do
  key ← context (world.parse_public_key_base64 key_blob) (text "parse OpenSSH public key")
  ok (key_type ++ (text " " ++ key.public_key_base64), key.fingerprint)

-- The canonical line and the fingerprint.
unfoldable pub parse_public_key_line : Environment → Text → LocalResult (Text × Text)
unfolding key_of_words context
parse_public_key_line world line = key_of_words world (split_whitespace line)

unfoldable pub key_source : Environment → Option Text → Option Text → LocalResult Text
unfolding context
key_source world (some key) none = ok key
key_source world none (some path) = context (world.read_to_string path) (text "read " ++ path)
key_source world (some key) (some path) =
    err (message_error (text "choose either --public-key or --public-key-file, not both"))
key_source world none none =
    err (message_error (text "--public-key or --public-key-file is required"))

-- `id` and `now` are what the call draws.
unfoldable pub add_key :
    Environment
    → Text
    → Text
    → Text
    → Option Text
    → Option Text
    → Database
    → LocalResult (Text × Database)
unfolding key_source parse_public_key_line add_authorized_key any_core
add_key world id now name public_key public_key_file db = do
  key_text ← key_source world public_key public_key_file
  (canonical, fingerprint) ← parse_public_key_line world key_text
  after ← any_core (
      add_authorized_key id now
        (record {
          name = name;
          public_key = canonical;
          fingerprint = fingerprint;
          asset_access_mode = all;
        })
        db)
  ok (text "added key " ++ (id ++ (text " " ++ (fingerprint ++ text "\n"))), after)

unfoldable pub key_line : AuthorizedKey → Text
unfolding tabbed
key_line k =
    tabbed (
      k.id ∷ (if k.is_active then text "active" else text "inactive") ∷ k.fingerprint ∷ k.name ∷ [])

unfoldable pub join_lines {ℓ} : {A : Type ℓ} → (A → Text) → List A → Text
join_lines line [] = []
join_lines line (x ∷ xs) = line x ++ join_lines line xs

unfoldable pub list_keys : Database → LocalResult Text
unfolding list_authorized_keys key_line join_lines any_core
list_keys db = do keys ← any_core (list_authorized_keys db); ok (join_lines key_line keys)

unfoldable pub set_key_active : Text → Bool → Database → LocalResult (Text × Database)
unfolding set_authorized_key_active any_core
set_key_active id active db = do
  after ← any_core (set_authorized_key_active id active db)
  ok (text "key " ++ (id ++ (if active then text " activated\n" else text " deactivated\n")), after)

-- One line for each assigned asset.
assigned_lines : TagsJson → Database → List Text → LocalResult Text
unfolding tabbed get_asset_by_id any_core context
assigned_lines codec db [] = ok []
assigned_lines codec db (asset_id ∷ ids) = do
  found ← any_core (get_asset_by_id codec asset_id db)
  asset ← context found (text "assigned asset no longer exists: " ++ asset_id)
  rest ← assigned_lines codec db ids
  ok (
      tabbed (
        text "asset"
        ∷ asset.id
        ∷ asset.name
        ∷ (asset.hostname ++ (text ":" ++ decimal asset.port))
        ∷ [])
      ++ rest)

unfoldable pub format_key_access : TagsJson → Text → Database → LocalResult Text
unfolding get_authorized_key_by_id list_asset_ids_for_key access_mode_as_str assigned_lines tabbed
    any_core context
format_key_access codec id db = do
  found ← any_core (get_authorized_key_by_id id db)
  key ← context found (text "unknown authorized key id: " ++ id)
  let assigned_ids = list_asset_ids_for_key id db
  lines ← assigned_lines codec db assigned_ids
  ok (
      tabbed (text "key" ∷ key.id ∷ key.name ∷ [])
      ++ (tabbed (text "mode" ∷ access_mode_as_str key.asset_access_mode ∷ [])
          ++ (tabbed (text "assigned" ∷ decimal (length assigned_ids) ∷ []) ++ lines)))

-- `mode == AssetAccessMode::All && !asset_ids.is_empty()`
unfoldable pub ids_with_all : AssetAccessMode → List Text → Bool
ids_with_all all (id ∷ ids) = true
ids_with_all all [] = false
ids_with_all restricted ids = false

unfoldable pub set_key_access :
    Text → AssetAccessMode → List Text → Database → LocalResult (Text × Database)
unfolding ids_with_all set_authorized_key_access access_mode_as_str any_core
set_key_access id mode asset_ids db = do
  _ ←
      ensure (not (ids_with_all mode asset_ids))
        (message_error (text "--asset-id can only be used with --mode restricted"))
  after ← any_core (set_authorized_key_access id mode asset_ids db)
  ok (
    text "key "
        ++ (id
            ++ (text " access mode set to "
                ++ (access_mode_as_str mode
                    ++ (text " with "
                        ++ (decimal (length asset_ids) ++ text " assigned asset(s)\n"))))),
    after,
  )

-- `nonces` is what the random generator gives for each envelope, by its context.
module _ (ciphers : Ciphers) (nonces : Text → Bytes) (master : MasterKey) where
  unfoldable pub sealed_field : Text → Text → Option Text → Result (Option Text)
  unfolding encrypt_envelope as_bytes
  sealed_field id field none = ok none
  sealed_field id field (some value) =
      let at = id ++ (text ":" ++ field) in
      encrypt_envelope ciphers (nonces at) master at (as_bytes value) >>= λ envelope.
      ok (some envelope)

  unfoldable pub read_key_file : Environment → Option Text → LocalResult (Option Text)
  unfolding context
  read_key_file world none = ok none
  read_key_file world (some path) =
      context (world.read_to_string path) (text "read " ++ path) >>= λ value. ok (some value)

  unfoldable pub add_local_credential :
      Environment
      → Text
      → Text
      → Text
      → Text
      → AuthType
      → Option Text
      → Option Text
      → Option Text
      → Database
      → LocalResult (Text × Database)
  unfolding sealed_field read_key_file validate_credential_material add_credential get_credential
      any_core
  add_local_credential world id now name username auth_type password private_key_file passphrase
        db =
      do
        password_enc ← any_core (sealed_field id (text "password") password)
        private_key ← read_key_file world private_key_file
        private_key_enc ← any_core (sealed_field id (text "private_key") private_key)
        passphrase_enc ← any_core (sealed_field id (text "passphrase") passphrase)
        _ ←
            any_core
              (validate_credential_material auth_type password_enc private_key_enc passphrase_enc)
        after ← any_core (
            add_credential id now
              (record {
                id = some id;
                name = name;
                username = username;
                auth_type = auth_type;
                password_enc = password_enc;
                private_key_enc = private_key_enc;
                passphrase_enc = passphrase_enc;
              })
              db)
        inserted ← any_core (ok_or (get_credential id after) (database row_not_found))
        ok (
          text "added credential "
              ++ tabbed (inserted.id ∷ inserted.auth_type ∷ inserted.name ∷ []),
          after,
        )

unfoldable pub list_credential_lines : Database → Text
unfolding list_credentials tabbed join_lines
list_credential_lines db =
    join_lines (λ c. tabbed (c.id ∷ c.auth_type ∷ c.username ∷ c.name ∷ [])) (list_credentials db)

unfoldable pub delete_local_credential : Text → Database → LocalResult (Text × Database)
unfolding delete_credential any_core
delete_local_credential id db = do
  after ← any_core (delete_credential id db)
  ok (text "deleted credential " ++ (id ++ text "\n"), after)

unfoldable pub delete_local_asset : Text → Database → LocalResult (Text × Database)
unfolding delete_asset any_core
delete_local_asset id db = do
  after ← any_core (delete_asset id db)
  ok (text "deleted asset " ++ (id ++ text "\n"), after)

-- `join(",")`
unfoldable pub join_commas : List Text → Text
join_commas [] = []
join_commas (tag ∷ []) = tag
join_commas (tag ∷ next ∷ tags) = tag ++ b',' ∷ join_commas (next ∷ tags)

unfoldable pub asset_line : Asset → Text
unfolding tabbed join_commas
asset_line a = tabbed (
    a.id
    ∷ a.name
    ∷ a.protocol
    ∷ (a.hostname ++ (text ":" ++ decimal a.port))
    ∷ join_commas a.tags
    ∷ unwrap_or (text "-") a.credential_id
    ∷ [])

unfoldable pub list_asset_lines : TagsJson → Database → LocalResult Text
unfolding list_assets asset_line join_lines any_core
list_asset_lines codec db = do
  assets ← any_core (list_assets codec db)
  ok (join_lines asset_line assets)

unfoldable pub add_local_asset :
    TagsJson → Text → Text → NewAsset → Database → LocalResult (Text × Database)
unfolding add_asset get_asset_by_id tabbed any_core
add_local_asset codec id now asset db = do
  after ← any_core (add_asset codec id now asset db)
  found ← any_core (get_asset_by_id codec id after)
  inserted ← any_core (ok_or found (database row_not_found))
  ok (
    text "added asset "
        ++ tabbed (
            inserted.id
            ∷ inserted.name
            ∷ inserted.protocol
            ∷ (inserted.hostname ++ (text ":" ++ decimal inserted.port))
            ∷ []),
    after,
  )
