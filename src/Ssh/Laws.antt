-- ===== src/Ssh/Laws.antt =====
-- Proofs about the decisions of server.rs.
use hop_rs.Prelude.{
  Bool, Option, Outcome, Outcome-cases, Text, ap, arith, ensure, eq_refl, err, false, first_step,
  inl, inr, is_some, none, not, ok, ok-injective, option_map, refl, some, sym, true, ◌>>=◌, ◌∙◌,
  ◌≡◌,
}
use hop_rs.Errors.{Result}
use hop_rs.Models.{Asset, AuthorizedKey, TagsJson}
use hop_rs.Catalog.{Database}
use hop_rs.Runtime.Access.{
  get_active_authorized_key_by_fingerprint, key_can_access_asset, find_direct_asset_for_key,
}
use hop_rs.Runtime.Keys.{set_authorized_key_active}
use hop_rs.Runtime.Laws.Access.{find_direct_asset_for_key_sound}
use hop_rs.Runtime.Laws.Grants.{set_authorized_key_active_revokes}
use hop_rs.Ssh.Ingress.{
  ServerError, refused, AuthInfo, Handler, ManagedSessionMode, accept, reject, authorization_denied,
  lift, parse_direct_username, has_no_credential, start_managed, managed_mode_is_authorized,
  resolve_direct_asset_for_key, auth_publickey_offered, auth_publickey, Resolution, offer_key,
  offer_resolved, take_key, take_resolved,
}

start_managed-denied :
    (fresh now : Text) (handler : Handler) (auth : AuthInfo) (asset : Asset)
    (mode : ManagedSessionMode) (db : Database)
    → handler.auth ≡ some auth
    → key_can_access_asset auth.key_id asset.id db ≡ false
    → (start_managed fresh now handler asset mode db).0 ≡ err (refused authorization_denied)
unfolding start_managed managed_mode_is_authorized
start_managed-denied fresh now handler auth asset mode db held denied = rw (held, denied) refl

-- Once a key has been disabled, a client that it authenticated before starts no managed session
-- any more, in any mode and with any asset.
pub start_managed-disabled :
    (fresh now : Text) (handler : Handler) (auth : AuthInfo) (asset : Asset)
    (mode : ManagedSessionMode) (db after : Database)
    → handler.auth ≡ some auth
    → set_authorized_key_active auth.key_id false db ≡ ok after
    → (start_managed fresh now handler asset mode after).0 ≡ err (refused authorization_denied)
start_managed-disabled fresh now handler auth asset mode db after held disabled =
    let revoked =
      set_authorized_key_active_revokes auth.key_id auth.key_id asset.id db after disabled in
    let denied : key_can_access_asset auth.key_id asset.id after ≡ false =
      revoked ∙ rw (eq_refl auth.key_id) refl in
    start_managed-denied fresh now handler auth asset mode after held denied

ensure-ok :
    {E : Type 0} (test : Bool) (problem : E) {done : Unit {0}}
    → ensure test problem ≡ ok done
    → test ≡ true
ensure-ok true problem h = refl
ensure-ok false problem h = cc

has_credential :
    (a : Asset) → not (has_no_credential (some a)) ≡ true → is_some a.credential_id ≡ true
unfolding has_no_credential
has_credential a h = ground arith

take_key-accepted :
    (fingerprint : Text) (handler after : Handler) (resolve : Resolution)
    (found : Option AuthorizedKey)
    → take_key fingerprint handler resolve found ≡ (accept, after)
    → (key : AuthorizedKey) × (found ≡ some key)
      × (option_map (λ a. a.key_id) after.auth ≡ some key.id)
      × (resolve key.id ≡ ok after.direct_asset)
unfolding take_key take_resolved
take_key-accepted fingerprint handler after resolve none h = cc
take_key-accepted fingerprint handler after resolve (some key) h =
    elim (Outcome-cases (resolve key.id)) [
      | inl (asset, resolved) ↦
          let same = ap (λ r. r.1) (rw (take_key, take_resolved, resolved) at h) in
          (
            key,
            refl,
            ap (λ s. option_map (λ a. a.key_id) s.auth) (sym same),
            resolved ∙ ap (λ s. ok s.direct_asset) same,
          )
      | inr (e, failed) ↦
          let rejected : reject ≡ accept =
            ap (λ r. r.0) (rw (take_key, take_resolved, failed) at h) in
          cc
    ]

take_resolved-offer :
    (fingerprint : Text) (handler : Handler) (key : AuthorizedKey)
    (resolved : Outcome ServerError (Option Asset))
    → (take_resolved fingerprint handler key resolved).0 ≡ offer_resolved resolved
unfolding take_resolved offer_resolved
take_resolved-offer fingerprint handler key (ok asset) = refl
take_resolved-offer fingerprint handler key (err e) = refl

take_key-offer :
    (fingerprint : Text) (handler : Handler) (resolve : Resolution) (found : Option AuthorizedKey)
    → (take_key fingerprint handler resolve found).0 ≡ offer_key resolve found
unfolding take_key offer_key
take_key-offer fingerprint handler resolve none = refl
take_key-offer fingerprint handler resolve (some key) =
    take_resolved-offer fingerprint handler key (resolve key.id)

offered_alike :
    (fingerprint : Text) (handler : Handler) (resolve : Resolution)
    (found : Outcome ServerError (Option AuthorizedKey))
    → ((found >>= λ key. ok (take_key fingerprint handler resolve key)) >>= λ r. ok r.0)
      ≡ (found >>= λ key. ok (offer_key resolve key))
offered_alike fingerprint handler resolve (ok found) =
    ap ok (take_key-offer fingerprint handler resolve found)
offered_alike fingerprint handler resolve (err e) = refl

-- What a direct login may lead to.
abbrev pub IsManagedFor : Text → Database → Option Asset → Type 0
IsManagedFor key_id db none = Unit
IsManagedFor key_id db (some a) =
    (key_can_access_asset key_id a.id db ≡ true) × (is_some a.credential_id ≡ true)

module _ (codec : TagsJson) where
  lift-ok : {A : Type 0} (r : Result A) (a : A) → lift r ≡ ok a → r ≡ ok a
  unfolding lift
  lift-ok (ok b) a h = cc
  lift-ok (err e) a h = cc

  resolve_direct-managed :
      (user key_id : Text) (db : Database) (a : Asset)
      → resolve_direct_asset_for_key codec user key_id db ≡ ok (some a)
      → (key_can_access_asset key_id a.id db ≡ true) × (is_some a.credential_id ≡ true)
  unfolding resolve_direct_asset_for_key
  resolve_direct-managed user key_id db a h =
      let (target, _, h1) = first_step (parse_direct_username user) _ h in
      let (got, found, h2) =
        first_step (lift (find_direct_asset_for_key codec key_id target db)) _ h1 in
      let (_, managed, h3) = first_step (ensure (not (has_no_credential got)) _) _ h2 in
      let same = ok-injective h3 in
      let (access, _) =
        find_direct_asset_for_key_sound codec key_id target db a
          (lift-ok (find_direct_asset_for_key codec key_id target db) _ (found ∙ ap ok same)) in
      let passes = ensure-ok (not (has_no_credential got)) _ managed in
      (access, has_credential a (ap (λ o. not (has_no_credential o)) (sym same) ∙ passes))

  resolve_direct-IsManagedFor :
      (user key_id : Text) (db : Database) (found : Option Asset)
      → resolve_direct_asset_for_key codec user key_id db ≡ ok found
      → IsManagedFor key_id db found
  resolve_direct-IsManagedFor user key_id db none h = tt
  resolve_direct-IsManagedFor user key_id db (some a) h = resolve_direct-managed user key_id db a h

  -- A client that is accepted has an enabled key of the fingerprint that it signed with, and is
  -- taken for that key. Where its login names a target, the asset of the direct session is one
  -- that this key may access, and one with a credential.
  pub auth_publickey-accepted :
      (user fingerprint : Text) (db : Database) (handler after : Handler)
      → auth_publickey codec user fingerprint db handler ≡ ok (accept, after)
      → (key : AuthorizedKey) × (get_active_authorized_key_by_fingerprint fingerprint db
          ≡ ok (some key))
        × (option_map (λ a. a.key_id) after.auth ≡ some key.id)
        × IsManagedFor key.id db after.direct_asset
  unfolding auth_publickey
  auth_publickey-accepted user fingerprint db handler after h =
      let (found, looked, h1) =
        first_step (lift (get_active_authorized_key_by_fingerprint fingerprint db)) _ h in
      let (key, active, id, resolved) =
        take_key-accepted fingerprint handler after
          (λ key_id. resolve_direct_asset_for_key codec user key_id db) found (ok-injective h1) in
      (
        key,
        lift-ok (get_active_authorized_key_by_fingerprint fingerprint db) _ (looked ∙ ap ok active),
        id,
        resolve_direct-IsManagedFor user key.id db after.direct_asset resolved,
      )

  -- The two calls of the authentication decide alike: a key that is offered is accepted exactly
  -- when a signed request of that key is, and the errors are the same.
  pub auth_publickey-offered :
      (user fingerprint : Text) (db : Database) (handler : Handler)
      → (auth_publickey codec user fingerprint db handler >>= λ r. ok r.0)
        ≡ auth_publickey_offered codec user fingerprint db
  unfolding auth_publickey auth_publickey_offered
  auth_publickey-offered user fingerprint db handler =
      offered_alike fingerprint handler
        (λ key_id. resolve_direct_asset_for_key codec user key_id db)
        (lift (get_active_authorized_key_by_fingerprint fingerprint db))
