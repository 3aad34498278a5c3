-- ===== src/Api/Laws/Managed.antt =====
-- What a configuration source manages is read-only for the management interface.
use hop_rs.Prelude.{
  Bool, Option, Option-cases, Outcome, Outcome-cases, Text, arith, err, false, inl, inr, none, ok,
  refl, some, true, ◌≡◌,
}
use hop_rs.Errors.{Error}
use hop_rs.Models.{TagsJson}
use hop_rs.Catalog.{ResourceType, asset, credential, access_key, Database}
use hop_rs.Runtime.{config_resource, resource_ownership}
use hop_rs.Runtime.Changes.{
  Change, change_active, change_access, change_asset, change_credential, drop_key, drop_asset,
  drop_credential, run, target,
}
use hop_rs.Runtime.Laws.Owners.{run_local_only}
use hop_rs.Models.{Credential}
use hop_rs.Api.{
  CredentialWriteRequest, ControlApiState, Server, Context, written_asset, access_scope,
}
use hop_rs.Api.Errors.{ApiError, ApiResult}
use hop_rs.Api.Handlers.{
  update_asset_handler, delete_asset_handler, update_credential_handler, delete_credential_handler,
  delete_access_key_handler, set_access_key_enabled_handler, set_access_key_access_handler,
  existing_credential, write_credential,
}
use hop_rs.Api.Router
use hop_rs.Api.Secrets.{build_credential}
use hop_rs.Runtime.Credentials.{get_credential}

-- The resource that a request asks to change or to delete.
abbrev pub asked_for : Router.Request → Option (ResourceType × Text)
asked_for (Router.put_asset id r) = some (asset, id)
asked_for (Router.delete_asset_at id) = some (asset, id)
asked_for (Router.put_credential id r) = some (credential, id)
asked_for (Router.delete_credential_at id) = some (credential, id)
asked_for (Router.delete_access_key_at id) = some (access_key, id)
asked_for (Router.put_enabled id enabled) = some (access_key, id)
asked_for (Router.put_access id assets) = some (access_key, id)
asked_for _ = none

abbrev is_error {ℓ} : {A : Type ℓ} → Outcome ApiError A → Bool
is_error (ok a) = false
is_error (err e) = true

-- It ends with an error, and nothing has changed.
abbrev pub FailsUnchanged : {A : Type 0} → Server → ApiResult A × Server → Type 0
FailsUnchanged s r = (is_error r.0 ≡ true) × (r.1 ≡ s)

run_managed :
    (codec : TagsJson) (c : Change) (type : ResourceType) (id : Text) (db : Database)
    → target c ≡ some (type, id)
    → resource_ownership type id db ≡ config_resource
    → (e : Error) × (run codec c db ≡ err e)
run_managed codec c type id db t managed = elim (Outcome-cases (run codec c db)) [
  | inl (after, done) ↦ let local = run_local_only codec c type id db after t done in cc
  | inr failed ↦ failed
]

write_credential-fails :
    (c : Context) (st : ControlApiState) (i : Text) (r : CredentialWriteRequest)
    (existing : Credential) (s : Server) (type : ResourceType) (id : Text)
    → ◌≡◌ {A = Option (ResourceType × Text)} (some (credential, i)) (some (type, id))
    → resource_ownership type id s.catalog ≡ config_resource
    → FailsUnchanged s (write_credential c st i r existing s)
unfolding write_credential run
write_credential-fails c st i r existing s type id t m =
    elim (Outcome-cases
      (build_credential c.call.ciphers c.call.nonces st.master_key i r (some existing))) [
        | inl (written, sealed) ↦
            let (e, failed) =
              run_managed c.codec (change_credential i c.call.now written) type id s.catalog t m in
            rw (sealed) (ground arith)
        | inr (e, failed) ↦ rw failed (refl, refl)
      ]

-- A request to change or to delete a resource that a configuration source manages ends with an
-- error, whatever it brings, and changes nothing.
pub handle_managed :
    (c : Context) (st : ControlApiState) (r : Router.Request) (h : Option Text) (s : Server)
    (type : ResourceType) (id : Text)
    → asked_for r ≡ some (type, id)
    → resource_ownership type id s.catalog ≡ config_resource
    → FailsUnchanged s (Router.handle c st r h s)
unfolding Router.handle update_asset_handler delete_asset_handler update_credential_handler
    delete_credential_handler delete_access_key_handler set_access_key_enabled_handler
    set_access_key_access_handler existing_credential run
handle_managed c st (Router.put_asset i r) h s type id t m =
    let (e, failed) =
      run_managed c.codec (change_asset i c.call.now (written_asset r)) type id s.catalog t m in
    ground arith
handle_managed c st (Router.delete_asset_at i) h s type id t m =
    let (e, failed) = run_managed c.codec (drop_asset i) type id s.catalog t m in ground arith
handle_managed c st (Router.delete_credential_at i) h s type id t m =
    let (e, failed) = run_managed c.codec (drop_credential i) type id s.catalog t m in ground arith
handle_managed c st (Router.delete_access_key_at i) h s type id t m =
    let (e, failed) = run_managed c.codec (drop_key i) type id s.catalog t m in ground arith
handle_managed c st (Router.put_enabled i enabled) h s type id t m =
    let (e, failed) = run_managed c.codec (change_active i enabled) type id s.catalog t m in
    ground arith
handle_managed c st (Router.put_access i assets) h s type id t m =
    let (e, failed) =
      run_managed c.codec (change_access i (access_scope assets).0 (access_scope assets).1) type id
        s.catalog t m in
    ground arith
handle_managed c st (Router.put_credential i r) h s type id t m =
    elim (Option-cases (get_credential i s.catalog)) [
      | inl missing ↦ ground arith
      | inr (x, present_row) ↦
          let fails = write_credential-fails c st i r x s type id t m in ground arith
    ]
handle_managed c st Router.get_status h s type id t m = cc
handle_managed c st _ h s type id t m = cc
